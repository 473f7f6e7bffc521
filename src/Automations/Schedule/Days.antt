-- ===== src/Automations/Schedule/Days.antt =====
-- The times and the days of a schedule that has been validated: app/modules/automations/service.py.
use codex_octopus.Base.{
  ℕ, suc, ◌+◌, ◌/◌, ◌%◌, ◌<◌, ltb, ◌==◌, ◌≡◌, refl, sym, ◌∙◌, ap₂, subst, inl, inr, true, false,
  ◌||◌, Option, none, some, List, [], ◌∷◌, ◌++◌, arith, if◌then◌else◌, is_empty, length, Bool-cases,
  All,
}
use codex_octopus.Base.Text.{Text, text_eq, text_eq_refl, eq_of_text_eq, strip, lower}
use codex_octopus.Automations.Schedule.{
  Result, ok, err, ◌>>=◌, ScheduleError, parse_schedule_time_hhmm, normalize_schedule_time, pad,
  two_digits, take_until, drop_after, in_range, hour_minute, weekday_codes, is_one_of, collect_days,
  normalize_schedule_days, code_at,
}

-- A time of the day.
abbrev pub IsTime : ℕ × ℕ → Type 0
IsTime t = (t.0 < 24) × (t.1 < 60)

pub ok-injective : {A : Type 0} (a b : A) → ok a ≡ ok b → a ≡ b
ok-injective a b e = cc

in_range-IsTime : (hour minute : ℕ) (t : ℕ × ℕ) → in_range hour minute ≡ ok t → IsTime t
in_range-IsTime hour minute t h = elim (Bool-cases (ltb 23 hour || ltb 59 minute)) [
  | inl out ↦ absurd (let e : err ScheduleError.invalid_schedule_time ≡ ok t = rw out at h in cc)
  | inr fits ↦
      let e : (hour, minute) ≡ t = ok-injective (hour, minute) t (rw fits at h) in
      subst IsTime e (ground arith, ground arith)
]

hour_minute-IsTime :
    (hour minute : Option ℕ) (t : ℕ × ℕ) → hour_minute hour minute ≡ ok t → IsTime t
hour_minute-IsTime (some hour) (some minute) t h = in_range-IsTime hour minute t h
hour_minute-IsTime none minute t h = cc
hour_minute-IsTime (some hour) none t h = cc

pub parse_schedule_time_hhmm-IsTime :
    (value : Text) (t : ℕ × ℕ) → parse_schedule_time_hhmm value ≡ ok t → IsTime t
unfolding parse_schedule_time_hhmm
parse_schedule_time_hhmm-IsTime value t h = by_minute (drop_after 58 value) h
  where
    by_minute :
        (o : Option Text)
        → (elim o as (λ _. Result (ℕ × ℕ)) [
          | none ↦ err ScheduleError.invalid_schedule_time
          | some minute_raw ↦ hour_minute (two_digits (take_until 58 value)) (two_digits minute_raw)
        ])
          ≡ ok t
        → IsTime t
    by_minute none e = cc
    by_minute (some minute_raw) e =
        hour_minute-IsTime (two_digits (take_until 58 value)) (two_digits minute_raw) t e

-- Two digits are read as the number that they were printed from.
two_digits-pad : (n : ℕ) → n < 100 → two_digits (pad n) ≡ some n
two_digits-pad n h = ground arith

-- What stands around the first colon.
split_after_two :
    (a b : ℕ) (rest : Text)
    → (a == 58) ≡ false
    → (b == 58) ≡ false
    → parse_schedule_time_hhmm (a ∷ b ∷ 58 ∷ rest)
      ≡ hour_minute (two_digits (a ∷ b ∷ [])) (two_digits rest)
unfolding parse_schedule_time_hhmm
split_after_two a b rest p q =
    let dropped : drop_after 58 (a ∷ b ∷ 58 ∷ rest) ≡ some rest = ground arith in
    let taken : take_until 58 (a ∷ b ∷ 58 ∷ rest) ≡ a ∷ b ∷ [] = ground arith in
    rw (parse_schedule_time_hhmm, dropped, taken) refl

-- A time of the day is read from what it is printed as.
pub parse_schedule_time_hhmm-pad :
    (hour minute : ℕ)
    → IsTime (hour, minute)
    → parse_schedule_time_hhmm (pad hour ++ (58 ∷ pad minute)) ≡ ok (hour, minute)
unfolding parse_schedule_time_hhmm
parse_schedule_time_hhmm-pad hour minute (h, m) =
    let tens : (hour / 10 + 48 == 58) ≡ false = ground arith in
    let ones : (hour % 10 + 48 == 58) ≡ false = ground arith in
    let fits : in_range hour minute ≡ ok (hour, minute) = ground arith in
    let read : hour_minute (two_digits (pad hour)) (two_digits (pad minute)) ≡ ok (hour, minute) =
      ap₂ hour_minute (two_digits-pad hour (omega arith)) (two_digits-pad minute (omega arith))
      ∙ fits in
    split_after_two (hour / 10 + 48) (hour % 10 + 48) (pad minute) tens ones ∙ read

-- The text that a schedule time is normalised to is read as the same time as the stripped text it came
-- from, a time of the day, and is what that time is printed as, with two digits each.
pub normalize_schedule_time-parse :
    (value normal : Text)
    → normalize_schedule_time value ≡ ok normal
    → (parse_schedule_time_hhmm normal ≡ parse_schedule_time_hhmm (strip value))
      × ((t : ℕ × ℕ) × (parse_schedule_time_hhmm normal ≡ ok t)
          × IsTime t
          × (normal ≡ pad t.0 ++ (58 ∷ pad t.1)))
unfolding normalize_schedule_time
normalize_schedule_time-parse value normal h =
    by_result (parse_schedule_time_hhmm (strip value)) refl h
  where
    by_result :
        (r : Result (ℕ × ℕ))
        → parse_schedule_time_hhmm (strip value) ≡ r
        → (r >>= λ t. ok (pad t.0 ++ (58 ∷ pad t.1))) ≡ ok normal
        → (parse_schedule_time_hhmm normal ≡ parse_schedule_time_hhmm (strip value))
          × ((t : ℕ × ℕ) × (parse_schedule_time_hhmm normal ≡ ok t)
              × IsTime t
              × (normal ≡ pad t.0 ++ (58 ∷ pad t.1)))
    by_result (err e) p q = cc
    by_result (ok t) p q =
        let same : pad t.0 ++ (58 ∷ pad t.1) ≡ normal = ok-injective _ _ q in
        let valid = parse_schedule_time_hhmm-IsTime (strip value) t p in
        let back : parse_schedule_time_hhmm normal ≡ ok t =
          subst (λ (x : Text). parse_schedule_time_hhmm x ≡ ok t) same
            (parse_schedule_time_hhmm-pad t.0 t.1 valid) in
        (back ∙ sym p, (t, back, valid, sym same))

-- A code of a list stands at some index.
code_at-any :
    (codes : List Text) (code : Text)
    → is_one_of codes code ≡ true
    → (i : ℕ) × (i < length codes) × (code ≡ code_at i codes)
code_at-any [] code h = ground arith
code_at-any (c ∷ codes) code h = elim (Bool-cases (text_eq code c)) [
  | inl same ↦ (0, omega arith, eq_of_text_eq code c same)
  | inr apart ↦ let (i, lt, e) = code_at-any codes code (rw apart at h) in (suc i, omega arith, e)
]

AreCodes : List Text → Type 0
AreCodes days = All (λ code. is_one_of weekday_codes code ≡ true) days

AreCodes-append :
    (days : List Text) (code : Text)
    → AreCodes days
    → is_one_of weekday_codes code ≡ true
    → AreCodes (days ++ (code ∷ []))
unfolding AreCodes
AreCodes-append [] code a h = (h, tt)
AreCodes-append (d ∷ days) code a h = (a.0, AreCodes-append days code a.1 h)

collect_days-AreCodes :
    (normalized days found : List Text)
    → AreCodes normalized
    → collect_days normalized days ≡ ok found
    → AreCodes found
unfolding collect_days
collect_days-AreCodes normalized [] found a h = subst AreCodes (ok-injective normalized found h) a
collect_days-AreCodes normalized (day ∷ days) found a h =
    let code = lower (strip day) in
    elim (Bool-cases (is_empty code)) [
      | inl blank ↦ collect_days-AreCodes normalized days found a (rw blank at h)
      | inr written ↦ elim (Bool-cases (is_one_of weekday_codes code)) [
        | inr unknown ↦ absurd (
            let e : err ScheduleError.invalid_schedule_days ≡ ok found =
              rw (written, unknown) at h in
            cc)
        | inl known ↦ elim (Bool-cases (is_one_of normalized code)) [
          | inl again ↦
              collect_days-AreCodes normalized days found a (rw (written, known, again) at h)
          | inr fresh ↦
              collect_days-AreCodes (normalized ++ (code ∷ [])) days found
                (AreCodes-append normalized code a known) (rw (written, known, fresh) at h)
        ]
      ]
    ]

-- Of the days that a schedule is left with, one at least is a day of the week.
pub normalize_schedule_days-weekday :
    (days allowed : List Text)
    → normalize_schedule_days (some days) ≡ ok allowed
    → (i : ℕ) × (i < 7) × (is_one_of allowed (code_at i weekday_codes) ≡ true)
unfolding normalize_schedule_days AreCodes
normalize_schedule_days-weekday days allowed h = by_result (collect_days [] days) refl h
  where
    by_list :
        (found : List Text)
        → AreCodes found
        → (if is_empty found then err ScheduleError.invalid_schedule_days else ok found)
          ≡ ok allowed
        → (i : ℕ) × (i < 7) × (is_one_of allowed (code_at i weekday_codes) ≡ true)
    by_list [] a e = cc
    by_list (code ∷ rest) a e =
        let same : code ∷ rest ≡ allowed = ok-injective _ _ e in
        let (i, lt, at) = code_at-any weekday_codes code a.0 in
        (
          i,
          lt,
          subst (λ (x : List Text). is_one_of x (code_at i weekday_codes) ≡ true) same
              (rw (sym at, text_eq_refl code) refl),
        )

    by_result :
        (r : Result (List Text))
        → collect_days [] days ≡ r
        → (r >>= λ found.
            if is_empty found then err ScheduleError.invalid_schedule_days else ok found)
          ≡ ok allowed
        → (i : ℕ) × (i < 7) × (is_one_of allowed (code_at i weekday_codes) ≡ true)
    by_result (err x) p e = cc
    by_result (ok found) p e = by_list found (collect_days-AreCodes [] days found tt p) e
