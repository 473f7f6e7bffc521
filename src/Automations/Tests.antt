-- ===== src/Automations/Tests.antt =====
-- Schedules and dispatch plans of automations, on concrete data.
use codex_octopus.Base.{
  ℕ, zero, suc, ◌/◌, ◌==◌, if◌then◌else◌, ◌+◌, ◌*◌, ◌-◌, ◌≤◌, ◌<◌, ◌≡◌, refl, ◌⊎◌, inl, inr, List,
  [], ◌∷◌, ◌++◌, map, arith, length, In, All, some, none,
}
use codex_octopus.Base.Text.{Text, text, strip}
use codex_octopus.Automations.Schedule.{
  ok, err, Zone, parse_schedule_time_hhmm, normalize_schedule_time, normalize_schedule_days,
  at_time, day_length, pad, compute_latest_due_slot_utc, compute_next_run_utc,
  compute_due_slot_for_current_local_day_utc, latest_due_day, invalid_schedule_days,
}
use codex_octopus.Automations.Schedule.Days.{IsTime, normalize_schedule_time-parse}
use codex_octopus.Automations.Schedule.Seek.{RunsOn, IsOff}
use codex_octopus.Automations.Schedule.Slots.{slots_around}
use codex_octopus.Automations.Schedule.Today.{due_slot_is_latest_today}
use codex_octopus.Automations.Dispatch.{Random, build_dispatch_plan, dedupe}
use codex_octopus.Automations.Dispatch.Spread.{IsGenerator, build_dispatch_plan_lem}

abbrev hours : ℕ → ℕ
hours n = n * 3600000

-- Two hours ahead of UTC.
abbrev zone : Zone
zone = record { to_local = λ t. t + hours 2; to_utc = λ t. t - hours 2 }

-- Nine o'clock on the Sunday of the third week, on the zone's clock.
abbrev sunday : ℕ
sunday = 20 * day_length + hours 7

abbrev days : List Text
days = text "Mon" ∷ text " fri " ∷ text "mon" ∷ []

reads_days : normalize_schedule_days (some days) ≡ ok (text "mon" ∷ text "fri" ∷ [])
unfolding normalize_schedule_days
reads_days = refl

refuses_day : normalize_schedule_days (some (text "noday" ∷ [])) ≡ err invalid_schedule_days
unfolding normalize_schedule_days
refuses_day = refl

runs_on_monday :
    compute_next_run_utc zone sunday (text "09:30") days ≡ ok (21 * day_length + hours 7 + 1800000)
unfolding compute_next_run_utc
runs_on_monday = refl

ran_on_friday :
    compute_latest_due_slot_utc zone sunday (text "09:30") days
    ≡ ok (18 * day_length + hours 7 + 1800000)
unfolding compute_latest_due_slot_utc
ran_on_friday = refl

nothing_on_sunday :
    compute_due_slot_for_current_local_day_utc zone sunday (text "09:30") days ≡ ok none
unfolding compute_due_slot_for_current_local_day_utc
nothing_on_sunday = refl

normalize_schedule_time-parse_example :
    (parse_schedule_time_hhmm (text "09:30") ≡ parse_schedule_time_hhmm (strip (text " 09:30")))
    × ((t : ℕ × ℕ) × (parse_schedule_time_hhmm (text "09:30") ≡ ok t)
        × IsTime t
        × (text "09:30" ≡ pad t.0 ++ (58 ∷ pad t.1)))
unfolding normalize_schedule_time
normalize_schedule_time-parse_example =
    normalize_schedule_time-parse (text " 09:30") (text "09:30") refl

slots_around_example :
    (last next : ℕ) × (compute_latest_due_slot_utc zone sunday (text "09:30") days
      ≡ ok (zone.to_utc (at_time (9, 30) last)))
    × (compute_next_run_utc zone sunday (text "09:30") days
        ≡ ok (zone.to_utc (at_time (9, 30) next)))
    × (at_time (9, 30) last ≤ zone.to_local sunday)
    × (zone.to_local sunday < at_time (9, 30) next)
    × RunsOn (text "mon" ∷ text "fri" ∷ []) last
    × RunsOn (text "mon" ∷ text "fri" ∷ []) next
    × ((d : ℕ) → IsOff (text "mon" ∷ text "fri" ∷ []) d ⊎ (d ≤ last) ⊎ (next ≤ d))
unfolding parse_schedule_time_hhmm normalize_schedule_days
slots_around_example =
    slots_around (text "09:30") days (text "mon" ∷ text "fri" ∷ []) (9, 30) refl refl zone sunday
      (omega arith)

due_slot_is_latest_today_example :
    (last : ℕ) × (latest_due_day (text "09:30") days (zone.to_local sunday) ≡ ok ((9, 30), last))
    × (compute_due_slot_for_current_local_day_utc zone sunday (text "09:30") days
        ≡ ok (
            if last == zone.to_local sunday / day_length
            then some (zone.to_utc (at_time (9, 30) last))
            else none))
unfolding parse_schedule_time_hhmm normalize_schedule_days
due_slot_is_latest_today_example =
    due_slot_is_latest_today zone sunday (text "09:30") days (text "mon" ∷ text "fri" ∷ []) (9, 30)
      refl refl (omega arith)

abbrev take : ℕ → List ℕ → List ℕ
take zero xs = []
take (suc n) [] = []
take (suc n) (x ∷ xs) = x ∷ take n xs

length-take : (xs : List ℕ) (n : ℕ) → n ≤ length xs → length (take n xs) ≡ n
length-take xs zero h = refl
length-take [] (suc n) h = absurd (omega arith)
length-take (x ∷ xs) (suc n) h = omega (arith, length-take xs n)

In-take : (xs : List ℕ) (n a : ℕ) → In a (take n xs) → In a xs
In-take xs zero a m = elim m [ ]
In-take [] (suc n) a m = elim m [ ]
In-take (x ∷ xs) (suc n) a (inl e) = inl e
In-take (x ∷ xs) (suc n) a (inr m) = inr (In-take xs n a m)

abbrev head_or_zero : List ℕ → ℕ
head_or_zero [] = 0
head_or_zero (x ∷ xs) = x

In-head : (xs : List ℕ) → 0 < length xs → In (head_or_zero xs) xs
In-head [] h = absurd (omega arith)
In-head (x ∷ xs) h = inl refl

-- A generator that leaves every order as it is.
abbrev orderly : Random
orderly = record {
  sample = λ xs n. take n xs;
  shuffle = λ n xs. xs;
  choice = λ n xs. head_or_zero xs;
}

orderly-IsGenerator : IsGenerator orderly
orderly-IsGenerator = record {
  shuffle_length = λ n xs. refl;
  shuffle_from = λ n xs a m. m;
  shuffle_to = λ n xs a m. m;
  sample_length = λ xs n h. length-take xs n h;
  sample_from = λ xs n a m. In-take xs n a m;
  choice_from = λ n xs h. In-head xs h;
}

abbrev account_ids : List Text
account_ids = text "a" ∷ text "b" ∷ text "a" ∷ []

spreads : build_dispatch_plan orderly 0 account_ids 5 ≡ (text "a", 0) ∷ (text "b", 1000) ∷ []
unfolding build_dispatch_plan
spreads = refl

build_dispatch_plan_lem_example :
    let plan = build_dispatch_plan orderly 0 account_ids 5 in
    (map (λ p. p.0) plan ≡ dedupe [] account_ids)
    × All (λ p. (0 ≤ p.1) × (p.1 ≤ 0 + 5 * 60 * 1000)) plan
    × ((length (dedupe [] account_ids) ≡ 0) ⊎ In 0 (map (λ p. p.1) plan))
build_dispatch_plan_lem_example =
    build_dispatch_plan_lem orderly 0 account_ids 5 orderly-IsGenerator
