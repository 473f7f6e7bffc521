-- ===== src/Automations/Schedule/Seek.antt =====
-- The searches for a day of a schedule: the loops of `compute_latest_due_slot_utc` and
-- `compute_next_run_utc`, app/modules/automations/service.py.
use codex_octopus.Base.{
  ℕ, zero, suc, ◌+◌, ◌-◌, ◌*◌, ◌/◌, ◌%◌, ◌≤◌, ◌<◌, ltb, leb, ◌==◌, ◌≡◌, refl, sym, ap, subst, ◌⊎◌,
  inl, inr, true, false, List, arith, Bool-cases,
}
use native.Mathlib.Nat.{add-zero}
use codex_octopus.Base.Text.{Text}
use codex_octopus.Automations.Schedule.{
  ok, is_one_of, weekday_code, day_length, at_time, seek_back, seek_on, last_day, next_day,
}
use codex_octopus.Automations.Schedule.Days.{IsTime}

-- The schedule runs on the day.
abbrev pub RunsOn : List Text → ℕ → Type 0
RunsOn allowed day = is_one_of allowed (weekday_code day) ≡ true

abbrev pub IsOff : List Text → ℕ → Type 0
IsOff allowed day = is_one_of allowed (weekday_code day) ≡ false

-- The first day from a day on, and the last day up to one, on which the schedule runs.
abbrev pub IsFirst : List Text → ℕ → ℕ → Type 0
IsFirst allowed from day =
    (from ≤ day) × RunsOn allowed day × ((d : ℕ) → (d < from) ⊎ IsOff allowed d ⊎ (day ≤ d))

abbrev pub IsLast : List Text → ℕ → ℕ → Type 0
IsLast allowed to day =
    (day ≤ to) × RunsOn allowed day × ((d : ℕ) → (to < d) ⊎ IsOff allowed d ⊎ (d ≤ day))

pub here-IsFirst : (allowed : List Text) (day : ℕ) → RunsOn allowed day → IsFirst allowed day day
here-IsFirst allowed day r = (omega arith, r, λ d. ground arith)

pub next-IsFirst :
    (allowed : List Text) (day found : ℕ)
    → IsOff allowed day
    → IsFirst allowed (day + 1) found
    → IsFirst allowed day found
next-IsFirst allowed day found off (le, r, least) =
    (omega arith, r, λ d. by_day d (least d) (Bool-cases (d == day)))
  where
    by_day :
        (d : ℕ)
        → (d < day + 1) ⊎ IsOff allowed d ⊎ (found ≤ d)
        → ((d == day) ≡ true) ⊎ ((d == day) ≡ false)
        → (d < day) ⊎ IsOff allowed d ⊎ (found ≤ d)
    by_day d (inl before) (inl same) =
        let e : day ≡ d = ground arith in inr (inl (subst (IsOff allowed) e off))
    by_day d (inl before) (inr apart) = inl (ground arith)
    by_day d (inr (inl o)) c = inr (inl o)
    by_day d (inr (inr l)) c = inr (inr l)

pub seek_on-IsFirst :
    (allowed : List Text) (fuel day k : ℕ)
    → k < fuel
    → RunsOn allowed (day + k)
    → (found : ℕ) × (seek_on allowed fuel day ≡ ok found) × IsFirst allowed day found
unfolding seek_on
seek_on-IsFirst allowed zero day k h r = absurd (omega arith)
seek_on-IsFirst allowed (suc fuel) day zero h r =
    let now : RunsOn allowed day = subst (RunsOn allowed) (add-zero day) r in
    (day, rw now refl, here-IsFirst allowed day now)
seek_on-IsFirst allowed (suc fuel) day (suc k) h r =
    elim (Bool-cases (is_one_of allowed (weekday_code day))) [
      | inl now ↦ (day, rw now refl, here-IsFirst allowed day now)
      | inr off ↦
          let e : day + suc k ≡ (day + 1) + k = omega arith in
          let (found, at, first) =
            seek_on-IsFirst allowed fuel (day + 1) k (omega arith) (subst (RunsOn allowed) e r) in
          (found, rw off at, next-IsFirst allowed day found off first)
    ]

pub here-IsLast : (allowed : List Text) (day : ℕ) → RunsOn allowed day → IsLast allowed day day
here-IsLast allowed day r = (omega arith, r, λ d. ground arith)

pub next-IsLast :
    (allowed : List Text) (day found : ℕ)
    → IsOff allowed (suc day)
    → IsLast allowed day found
    → IsLast allowed (suc day) found
next-IsLast allowed day found off (le, r, greatest) =
    (omega arith, r, λ d. by_day d (greatest d) (Bool-cases (d == suc day)))
  where
    by_day :
        (d : ℕ)
        → (day < d) ⊎ IsOff allowed d ⊎ (d ≤ found)
        → ((d == suc day) ≡ true) ⊎ ((d == suc day) ≡ false)
        → (suc day < d) ⊎ IsOff allowed d ⊎ (d ≤ found)
    by_day d (inl after) (inl same) =
        let e : suc day ≡ d = ground arith in inr (inl (subst (IsOff allowed) e off))
    by_day d (inl after) (inr apart) = inl (ground arith)
    by_day d (inr (inl o)) c = inr (inl o)
    by_day d (inr (inr l)) c = inr (inr l)

-- From a day `k` days after one on which the schedule runs.
pub seek_back-IsLast :
    (allowed : List Text) (fuel base k : ℕ)
    → k < fuel
    → RunsOn allowed base
    → (found : ℕ) × (seek_back allowed fuel (base + k) ≡ ok found) × IsLast allowed (base + k) found
unfolding seek_back
seek_back-IsLast allowed zero base k h r = absurd (omega arith)
seek_back-IsLast allowed (suc fuel) base zero h r =
    subst
      (λ day.
        (found : ℕ) × (seek_back allowed (suc fuel) day ≡ ok found) × IsLast allowed day found)
      (sym (add-zero base)) (base, at_base base r, here-IsLast allowed base r)
  where
    at_base : (day : ℕ) → RunsOn allowed day → seek_back allowed (suc fuel) day ≡ ok day
    at_base zero now = rw now refl
    at_base (suc day) now = rw now refl
seek_back-IsLast allowed (suc fuel) base (suc k) h r =
    let e : base + suc k ≡ suc (base + k) = omega arith in
    subst
      (λ day.
        (found : ℕ) × (seek_back allowed (suc fuel) day ≡ ok found) × IsLast allowed day found)
      (sym e)
      (elim (Bool-cases (is_one_of allowed (weekday_code (suc (base + k))))) [
        | inl now ↦ (suc (base + k), rw now refl, here-IsLast allowed (suc (base + k)) now)
        | inr off ↦
            let (found, at, last) = seek_back-IsLast allowed fuel base k (omega arith) r in
            (found, rw off at, next-IsLast allowed (base + k) found off last)
      ])

-- Within a week there is a day of every code.
pub weekday_after : (day i : ℕ) → i < 7 → (k : ℕ) × (k < 8) × ((day + k) % 7 ≡ i)
weekday_after day i h = ((i + 7 - day % 7) % 7, omega arith, omega arith)

pub weekday_before :
    (day i : ℕ) → i < 7 → 7 ≤ day → (k : ℕ) × (k < 8) × (k ≤ day) × ((day - k) % 7 ≡ i)
weekday_before day i h far = ((day % 7 + 7 - i) % 7, omega arith, omega arith, omega arith)

-- The days whose slot is after now are those from the next day on.
pub slot_after :
    (t : ℕ × ℕ) (now d : ℕ)
    → IsTime t
    → ((d < next_day t now) × (at_time t d ≤ now)) ⊎ ((next_day t now ≤ d) × (now < at_time t d))
slot_after t now d (h, m) = elim (Bool-cases (leb (at_time t (now / day_length)) now)) [
  | inl past ↦ rw (next_day, past) (by_day past (Bool-cases (ltb d (now / day_length + 1))))
  | inr ahead ↦ rw (next_day, ahead) (by_day_ahead ahead (Bool-cases (ltb d (now / day_length))))
]
  where
    by_day :
        leb (at_time t (now / day_length)) now ≡ true
        → (ltb d (now / day_length + 1) ≡ true) ⊎ (ltb d (now / day_length + 1) ≡ false)
        → ((d < now / day_length + 1) × (at_time t d ≤ now))
          ⊎ ((now / day_length + 1 ≤ d) × (now < at_time t d))
    by_day past (inl before) =
        let lt : d < now / day_length + 1 = ground arith in
        let le : at_time t (now / day_length) ≤ now = ground arith in inl (lt, omega arith)
    by_day past (inr after) =
        let le : now / day_length + 1 ≤ d = ground arith in inr (le, omega arith)

    by_day_ahead :
        leb (at_time t (now / day_length)) now ≡ false
        → (ltb d (now / day_length) ≡ true) ⊎ (ltb d (now / day_length) ≡ false)
        → ((d < now / day_length) × (at_time t d ≤ now))
          ⊎ ((now / day_length ≤ d) × (now < at_time t d))
    by_day_ahead ahead (inl before) =
        let lt : d < now / day_length = ground arith in inl (lt, omega arith)
    by_day_ahead ahead (inr after) =
        let le : now / day_length ≤ d = ground arith in
        let gt : now < at_time t (now / day_length) = ground arith in inr (le, omega arith)

-- The next day is never further than the next.
pub last_day_lem :
    (t : ℕ × ℕ) (now : ℕ)
    → IsTime t
    → 8 * day_length ≤ now
    → (day : ℕ) × (last_day t now ≡ ok day) × (next_day t now ≡ suc day) × (7 ≤ day)
last_day_lem t now v far =
    by_today (now / day_length) refl (Bool-cases (ltb now (at_time t (now / day_length))))
  where
    by_today :
        (today : ℕ)
        → today ≡ now / day_length
        → (ltb now (at_time t (now / day_length)) ≡ true)
          ⊎ (ltb now (at_time t (now / day_length)) ≡ false)
        → (day : ℕ) × (last_day t now ≡ ok day) × (next_day t now ≡ suc day) × (7 ≤ day)
    by_today zero e c = absurd (omega arith)
    by_today (suc day) e (inl ahead) =
        let later : leb (at_time t (now / day_length)) now ≡ false = ground arith in
        (day, rw (last_day, ahead, sym e) refl, rw (next_day, later) (sym e), omega arith)
    by_today (suc day) e (inr past) =
        let later : leb (at_time t (now / day_length)) now ≡ true = ground arith in
        (
          suc day,
          rw (last_day, past) (ap ok (sym e)),
          rw (next_day, later) (omega arith),
          omega arith,
        )
