-- ===== src/Automations/Schedule.antt =====
-- The schedules of app/modules/automations/service.py. A moment is a number of milliseconds, and so is the
-- time that a wall clock shows, counted from a Monday at midnight, as is the first day of Python's
-- calendar. Python compares and shifts times of one zone as the wall clock shows them.
pub mod Days
pub mod Seek
pub mod Slots
pub mod Today
use codex_octopus.Base.{
  ℕ, zero, suc, ◌+◌, ◌-◌, ◌*◌, ◌/◌, ◌%◌, ltb, leb, ◌==◌, Bool, true, false, not, ◌&&◌, ◌||◌, Option,
  none, some, List, [], ◌∷◌, ◌++◌, if◌then◌else◌, is_empty, any, length,
}
use codex_octopus.Base.Text.{Text, text, text_eq, strip, lower}

-- The validation errors, and the two that Python raises by itself: a date before the first day, and
-- the loop that finds no day.
pub data ScheduleError : Type 0 where
  invalid_schedule_time invalid_schedule_days before_calendar unresolved : ScheduleError

pub data Result (A : Type 0) : Type 0 where
  ok : A → Result A
  err : ScheduleError → Result A

infixl 5 ◌>>=◌
abbrev pub ◌>>=◌ : {A B : Type 0} → Result A → (A → Result B) → Result B
ok a >>= f = f a
err e >>= f = err e

-- `str.isdigit()` on ASCII.
abbrev pub is_digit : ℕ → Bool
is_digit c = leb 48 c && leb c 57

-- `int(raw)` of two digits, with the tests of their number and kind.
abbrev pub two_digits : Text → Option ℕ
two_digits (a ∷ b ∷ []) = if is_digit a && is_digit b then some ((a - 48) * 10 + (b - 48)) else none
two_digits _ = none

abbrev pub take_until : ℕ → Text → Text
take_until c [] = []
take_until c (x ∷ s) = if x == c then [] else x ∷ take_until c s

-- What stands behind the first `c`; `none` without one.
abbrev pub drop_after : ℕ → Text → Option Text
drop_after c [] = none
drop_after c (x ∷ s) = if x == c then some s else drop_after c s

abbrev pub in_range : ℕ → ℕ → Result (ℕ × ℕ)
in_range hour minute =
    if ltb 23 hour || ltb 59 minute then err invalid_schedule_time else ok (hour, minute)

abbrev pub hour_minute : Option ℕ → Option ℕ → Result (ℕ × ℕ)
hour_minute (some hour) (some minute) = in_range hour minute
hour_minute _ _ = err invalid_schedule_time

-- `parse_schedule_time_hhmm`
unfoldable pub parse_schedule_time_hhmm : Text → Result (ℕ × ℕ)
parse_schedule_time_hhmm value = elim (drop_after 58 value) [
  | none ↦ err invalid_schedule_time
  | some minute_raw ↦ hour_minute (two_digits (take_until 58 value)) (two_digits minute_raw)
]

-- `f"{n:02d}"` below a hundred.
abbrev pub pad : ℕ → Text
pad n = (n / 10 + 48) ∷ (n % 10 + 48) ∷ []

-- `normalize_schedule_time`
unfoldable pub normalize_schedule_time : Text → Result Text
unfolding parse_schedule_time_hhmm strip
normalize_schedule_time value =
    parse_schedule_time_hhmm (strip value) >>= λ t. ok (pad t.0 ++ (58 ∷ pad t.1))

abbrev pub weekday_codes : List Text
weekday_codes =
    text "mon" ∷ text "tue" ∷ text "wed" ∷ text "thu" ∷ text "fri" ∷ text "sat" ∷ text "sun" ∷ []

abbrev pub is_one_of : List Text → Text → Bool
is_one_of codes code = any (text_eq code) codes

-- The loop of `normalize_schedule_days`, after the codes that have been kept.
unfoldable pub collect_days : List Text → List Text → Result (List Text)
unfolding strip lower
collect_days normalized [] = ok normalized
collect_days normalized (day ∷ days) =
    let code = lower (strip day) in
    let skipping = collect_days normalized days in
    let adding = collect_days (normalized ++ (code ∷ [])) days in
    if is_empty code
    then skipping
    else if not (is_one_of weekday_codes code)
    then err invalid_schedule_days
    else if is_one_of normalized code
    then skipping
    else adding

-- `normalize_schedule_days`
unfoldable pub normalize_schedule_days : Option (List Text) → Result (List Text)
unfolding collect_days
normalize_schedule_days none = ok weekday_codes
normalize_schedule_days (some days) = collect_days [] days >>= λ normalized.
    if is_empty normalized then err invalid_schedule_days else ok normalized

abbrev pub day_length : ℕ
day_length = 86400000

-- The time of the wall clock on a day.
abbrev pub at_time : ℕ × ℕ → ℕ → ℕ
at_time t day = day * day_length + (t.0 * 60 + t.1) * 60000

-- The code of the day with the index.
abbrev pub code_at : ℕ → List Text → Text
code_at n [] = []
code_at zero (code ∷ codes) = code
code_at (suc n) (code ∷ codes) = code_at n codes

-- `_local_weekday_code`, of a day
abbrev pub weekday_code : ℕ → Text
weekday_code day = code_at (day % 7) weekday_codes

-- A zone: what its wall clock shows at a moment, and the moment at which it shows a time.
pub record Zone : Type 0 where
  pub to_local : ℕ → ℕ
  pub to_utc : ℕ → ℕ

-- The loop of `compute_latest_due_slot_utc`, over days.
unfoldable pub seek_back : List Text → ℕ → ℕ → Result ℕ
seek_back allowed zero day = err unresolved
seek_back allowed (suc fuel) zero =
    if is_one_of allowed (weekday_code 0) then ok 0 else err before_calendar
seek_back allowed (suc fuel) (suc day) =
    let rest = seek_back allowed fuel day in
    if is_one_of allowed (weekday_code (suc day)) then ok (suc day) else rest

-- The loop of `compute_next_run_utc`.
unfoldable pub seek_on : List Text → ℕ → ℕ → Result ℕ
seek_on allowed zero day = err unresolved
seek_on allowed (suc fuel) day =
    let rest = seek_on allowed fuel (day + 1) in
    if is_one_of allowed (weekday_code day) then ok day else rest

-- The last day on which the time is not after now.
abbrev pub last_day : ℕ × ℕ → ℕ → Result ℕ
last_day t local_now =
    let today = local_now / day_length in
    if ltb local_now (at_time t today)
    then (elim today [ zero ↦ err before_calendar | suc day ↦ ok day ])
    else ok today

-- The first day on which the time is after now.
abbrev pub next_day : ℕ × ℕ → ℕ → ℕ
next_day t local_now =
    let today = local_now / day_length in
    if leb (at_time t today) local_now then today + 1 else today

-- The days of the three functions, in the zone.
unfoldable pub latest_due_day : Text → List Text → ℕ → Result ((ℕ × ℕ) × ℕ)
unfolding parse_schedule_time_hhmm normalize_schedule_days seek_back
latest_due_day schedule_time schedule_days local_now =
    parse_schedule_time_hhmm schedule_time >>= λ t.
    normalize_schedule_days (some schedule_days) >>= λ allowed.
    last_day t local_now >>= λ day. seek_back allowed 8 day >>= λ found. ok (t, found)

unfoldable pub next_run_day : Text → List Text → ℕ → Result ((ℕ × ℕ) × ℕ)
unfolding parse_schedule_time_hhmm normalize_schedule_days seek_on
next_run_day schedule_time schedule_days local_now = parse_schedule_time_hhmm schedule_time >>= λ t.
    normalize_schedule_days (some schedule_days) >>= λ allowed.
    seek_on allowed 8 (next_day t local_now) >>= λ found. ok (t, found)

-- `compute_latest_due_slot_utc`
unfoldable pub compute_latest_due_slot_utc : Zone → ℕ → Text → List Text → Result ℕ
unfolding latest_due_day
compute_latest_due_slot_utc zone now schedule_time schedule_days =
    latest_due_day schedule_time schedule_days (zone.to_local now) >>= λ r.
    ok (zone.to_utc (at_time r.0 r.1))

-- `compute_next_run_utc`
unfoldable pub compute_next_run_utc : Zone → ℕ → Text → List Text → Result ℕ
unfolding next_run_day
compute_next_run_utc zone now schedule_time schedule_days =
    next_run_day schedule_time schedule_days (zone.to_local now) >>= λ r.
    ok (zone.to_utc (at_time r.0 r.1))

-- `compute_due_slot_for_current_local_day_utc`
unfoldable pub compute_due_slot_for_current_local_day_utc :
    Zone → ℕ → Text → List Text → Result (Option ℕ)
unfolding parse_schedule_time_hhmm normalize_schedule_days
compute_due_slot_for_current_local_day_utc zone now schedule_time schedule_days =
    parse_schedule_time_hhmm schedule_time >>= λ t.
    normalize_schedule_days (some schedule_days) >>= λ allowed.
    let local_now = zone.to_local now in
    let today = local_now / day_length in
    if not (is_one_of allowed (weekday_code today))
    then ok none
    else if ltb local_now (at_time t today)
    then ok none
    else ok (some (zone.to_utc (at_time t today)))
