-- ===== src/Automations/Schedule/Today.antt =====
-- Which slots `run_due_jobs` sees: `compute_due_slot_for_current_local_day_utc` of
-- app/modules/automations/service.py.
use codex_octopus.Base.{
  ℕ, suc, ◌+◌, ◌*◌, ◌/◌, ◌≤◌, ◌<◌, ltb, leb, ◌==◌, ◌≡◌, refl, sym, ◌∙◌, ap, subst, ◌⊎◌, inl, inr,
  Bool, true, false, not, Option, none, some, List, arith, if◌then◌else◌, Bool-cases,
}
use codex_octopus.Base.Text.{Text}
use codex_octopus.Automations.Schedule.{
  ok, Zone, parse_schedule_time_hhmm, normalize_schedule_days, is_one_of, weekday_code, day_length,
  at_time, next_day, latest_due_day, compute_due_slot_for_current_local_day_utc,
}
use codex_octopus.Automations.Schedule.Seek.{IsOff, IsLast}
use codex_octopus.Automations.Schedule.Slots.{latest_due_day_lem}

-- The answer of the code, by today's day.
abbrev due_on : Zone → List Text → ℕ × ℕ → ℕ → ℕ → Option ℕ
due_on zone allowed t clock today =
    if not (is_one_of allowed (weekday_code today))
    then none
    else if ltb clock (at_time t today)
    then none
    else some (zone.to_utc (at_time t today))

-- Today's slot is the last one exactly if the schedule runs today and its time has come.
last_is_today :
    (zone : Zone) (allowed : List Text) (t : ℕ × ℕ) (clock today bound last : ℕ)
    → today ≡ clock / day_length
    → next_day t clock ≡ suc bound
    → IsLast allowed bound last
    → due_on zone allowed t clock today
      ≡ (if last == today then some (zone.to_utc (at_time t last)) else none)
last_is_today zone allowed t clock today bound last e next (le, runs, greatest) =
    by_day (Bool-cases (is_one_of allowed (weekday_code today)))
      (Bool-cases (ltb clock (at_time t today))) (greatest today)
  where
    other :
        (last == today) ≡ false
        → none ≡ (if last == today then some (zone.to_utc (at_time t last)) else none)
    other apart = rw apart refl

    passed : ltb clock (at_time t today) ≡ false → bound ≡ today
    passed past =
        let earlier : leb (at_time t (clock / day_length)) clock ≡ true =
          subst (λ d. leb (at_time t d) clock ≡ true) e (ground arith) in
        let n : next_day t clock ≡ clock / day_length + 1 = rw (next_day, earlier) refl in
        omega arith

    by_day :
        (is_one_of allowed (weekday_code today) ≡ true) ⊎ IsOff allowed today
        → (ltb clock (at_time t today) ≡ true) ⊎ (ltb clock (at_time t today) ≡ false)
        → (bound < today) ⊎ IsOff allowed today ⊎ (today ≤ last)
        → due_on zone allowed t clock today
          ≡ (if last == today then some (zone.to_utc (at_time t last)) else none)
    by_day (inr off) c g =
        rw (due_on, off)
          (other (elim (Bool-cases (last == today)) [
            | inl same ↦ absurd (
                let s : last ≡ today = ground arith in
                let o : IsOff allowed last = subst (IsOff allowed) (sym s) off in cc)
            | inr apart ↦ apart
          ]))
    by_day (inl on) (inl ahead) g =
        let at_end : next_day t clock ≡ today =
          let later : leb (at_time t (clock / day_length)) clock ≡ false =
            subst (λ d. leb (at_time t d) clock ≡ false) e (ground arith) in
          rw (next_day, later) (sym e) in
        rw (due_on, on, ahead) (other (ground arith))
    by_day (inl on) (inr past) (inr (inl off)) = absurd (cc)
    by_day (inl on) (inr past) (inl beyond) = absurd (let n = passed past in omega arith)
    by_day (inl on) (inr past) (inr (inr ge)) =
        let same : last ≡ today = (let n = passed past in omega arith) in
        let hit : (last == today) ≡ true = ground arith in
        rw (due_on, on, past, hit) (ap (λ (d : ℕ). some (zone.to_utc (at_time t d))) (sym same))

-- The slot that `run_due_jobs` sees is the latest due slot, if that is on the day that the zone's clock shows now, and none
-- otherwise. So a slot is no longer seen from the next midnight on, also where its dispatches are planned
-- for after midnight. The calendar has begun at least eight days ago.
pub due_slot_is_latest_today :
    (zone : Zone) (now : ℕ) (schedule_time : Text) (schedule_days allowed : List Text) (t : ℕ × ℕ)
    → parse_schedule_time_hhmm schedule_time ≡ ok t
    → normalize_schedule_days (some schedule_days) ≡ ok allowed
    → 8 * day_length ≤ zone.to_local now
    → (last : ℕ) × (latest_due_day schedule_time schedule_days (zone.to_local now) ≡ ok (t, last))
      × (compute_due_slot_for_current_local_day_utc zone now schedule_time schedule_days
          ≡ ok (
              if last == zone.to_local now / day_length
              then some (zone.to_utc (at_time t last))
              else none))
unfolding compute_due_slot_for_current_local_day_utc
due_slot_is_latest_today zone now schedule_time schedule_days allowed t timed listed far =
    let clock = zone.to_local now in
    let (bound, next, (last, found, is_last)) =
      latest_due_day_lem schedule_time schedule_days allowed t timed listed clock far in
    (
      last,
      found,
      rw (compute_due_slot_for_current_local_day_utc, timed, listed)
          (by_tests (some (zone.to_utc (at_time t (clock / day_length))))
              (is_one_of allowed (weekday_code (clock / day_length)))
              (ltb clock (at_time t (clock / day_length)))
            ∙ ap ok (
                last_is_today zone allowed t clock (clock / day_length) bound last refl next
                  is_last)),
    )
  where
    by_tests :
        (x : Option ℕ) (a b : Bool)
        → (if not a then ok none else if b then ok none else ok x)
          ≡ ok (if not a then none else if b then none else x)
    by_tests x true true = refl
    by_tests x true false = refl
    by_tests x false b = refl
