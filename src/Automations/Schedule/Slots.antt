-- ===== src/Automations/Schedule/Slots.antt =====
-- The slots of a schedule before and after a moment: `compute_latest_due_slot_utc` and
-- `compute_next_run_utc` of app/modules/automations/service.py.
use codex_octopus.Base.{
  ℕ, suc, ◌+◌, ◌-◌, ◌*◌, ◌≤◌, ◌<◌, ◌≡◌, refl, sym, subst, ◌⊎◌, inl, inr, true, some, List, arith,
}
use codex_octopus.Base.Text.{Text}
use codex_octopus.Automations.Schedule.{
  ok, Zone, parse_schedule_time_hhmm, normalize_schedule_days, is_one_of, weekday_codes, code_at,
  day_length, at_time, seek_back, next_day, latest_due_day, next_run_day,
  compute_latest_due_slot_utc, compute_next_run_utc,
}
use codex_octopus.Automations.Schedule.Days.{
  parse_schedule_time_hhmm-IsTime, normalize_schedule_days-weekday,
}
use codex_octopus.Automations.Schedule.Seek.{
  RunsOn, IsOff, IsFirst, IsLast, seek_on-IsFirst, seek_back-IsLast, weekday_after, weekday_before,
  slot_after, last_day_lem,
}

module _ (schedule_time : Text) (schedule_days allowed : List Text) (t : ℕ × ℕ)
    (timed : parse_schedule_time_hhmm schedule_time ≡ ok t)
    (listed : normalize_schedule_days (some schedule_days) ≡ ok allowed) where
  next_run_day_lem :
      (now : ℕ)
      → (day : ℕ) × (next_run_day schedule_time schedule_days now ≡ ok (t, day))
        × IsFirst allowed (next_day t now) day
  unfolding next_run_day
  next_run_day_lem now =
      let (i, lt, runs) = normalize_schedule_days-weekday schedule_days allowed listed in
      let (k, within, same) = weekday_after (next_day t now) i lt in
      let (day, found, first) =
        seek_on-IsFirst allowed 8 (next_day t now) k within
          (subst (λ n. is_one_of allowed (code_at n weekday_codes) ≡ true) (sym same) runs) in
      (day, rw (next_run_day, timed, listed, found) refl, first)

  pub latest_due_day_lem :
      (now : ℕ)
      → 8 * day_length ≤ now
      → (last : ℕ) × (next_day t now ≡ suc last)
        × ((day : ℕ) × (latest_due_day schedule_time schedule_days now ≡ ok (t, day))
            × IsLast allowed last day)
  unfolding latest_due_day
  latest_due_day_lem now far =
      let (i, lt, runs) = normalize_schedule_days-weekday schedule_days allowed listed in
      let (last, at, next, week) =
        last_day_lem t now (parse_schedule_time_hhmm-IsTime schedule_time t timed) far in
      let (k, within, le, same) = weekday_before last i lt week in
      let e : (last - k) + k ≡ last = omega arith in
      let (day, found, is_last) =
        seek_back-IsLast allowed 8 (last - k) k within
          (subst (λ n. is_one_of allowed (code_at n weekday_codes) ≡ true) (sym same) runs) in
      let found' : seek_back allowed 8 last ≡ ok day =
        subst (λ d. seek_back allowed 8 d ≡ ok day) e found in
      (
        last,
        next,
        (
          day,
          rw (latest_due_day, timed, listed, at, found') refl,
          subst (λ d. IsLast allowed d day) e is_last,
        ),
      )

  -- With a time that is read and days that are accepted, the next run always exists: it is the moment at which the zone's
  -- clock shows the time on a day of the schedule, after what it shows now, and no day of the schedule
  -- before that one has its slot after now.
  pub compute_next_run_utc_lem :
      (zone : Zone) (now : ℕ)
      → (day : ℕ) × (compute_next_run_utc zone now schedule_time schedule_days
          ≡ ok (zone.to_utc (at_time t day)))
        × (zone.to_local now < at_time t day)
        × RunsOn allowed day
        × ((d : ℕ) → (at_time t d ≤ zone.to_local now) ⊎ IsOff allowed d ⊎ (day ≤ d))
  unfolding compute_next_run_utc
  compute_next_run_utc_lem zone now =
      let clock = zone.to_local now in
      let v = parse_schedule_time_hhmm-IsTime schedule_time t timed in
      let (day, found, (from, runs, least)) = next_run_day_lem clock in
      (
        day,
        rw (compute_next_run_utc, found) refl,
        after day from (slot_after t clock day v),
        runs,
        λ d. sooner d (least d) (slot_after t clock d v),
      )
    where
      after :
          (d : ℕ)
          → next_day t (zone.to_local now) ≤ d
          → ((d < next_day t (zone.to_local now)) × (at_time t d ≤ zone.to_local now))
            ⊎ ((next_day t (zone.to_local now) ≤ d) × (zone.to_local now < at_time t d))
          → zone.to_local now < at_time t d
      after d from (inl (before, _)) = absurd (omega arith)
      after d from (inr (_, gt)) = gt

      sooner :
          {day : ℕ} (d : ℕ)
          → (d < next_day t (zone.to_local now)) ⊎ IsOff allowed d ⊎ (day ≤ d)
          → ((d < next_day t (zone.to_local now)) × (at_time t d ≤ zone.to_local now))
            ⊎ ((next_day t (zone.to_local now) ≤ d) × (zone.to_local now < at_time t d))
          → (at_time t d ≤ zone.to_local now) ⊎ IsOff allowed d ⊎ (day ≤ d)
      sooner d (inl before) (inl (_, past)) = inl past
      sooner d (inl before) (inr (from, _)) = absurd (omega arith)
      sooner d (inr (inl off)) c = inr (inl off)
      sooner d (inr (inr le)) c = inr (inr le)

  -- The latest due slot and the next run are neighbours: both are slots of the schedule at its time, the one not after and
  -- the other after what the zone's clock shows now, and on no day of the schedule between them. The calendar
  -- has begun at least eight days ago.
  pub slots_around :
      (zone : Zone) (now : ℕ)
      → 8 * day_length ≤ zone.to_local now
      → (last next : ℕ) × (compute_latest_due_slot_utc zone now schedule_time schedule_days
          ≡ ok (zone.to_utc (at_time t last)))
        × (compute_next_run_utc zone now schedule_time schedule_days
            ≡ ok (zone.to_utc (at_time t next)))
        × (at_time t last ≤ zone.to_local now)
        × (zone.to_local now < at_time t next)
        × RunsOn allowed last
        × RunsOn allowed next
        × ((d : ℕ) → IsOff allowed d ⊎ (d ≤ last) ⊎ (next ≤ d))
  unfolding compute_latest_due_slot_utc
  slots_around zone now far =
      let clock = zone.to_local now in
      let v = parse_schedule_time_hhmm-IsTime schedule_time t timed in
      let (bound, e, (last, found, (le, runs, greatest))) = latest_due_day_lem clock far in
      let (next, at, gt, runs', least) = compute_next_run_utc_lem zone now in
      (
        last,
        next,
        rw (compute_latest_due_slot_utc, found) refl,
        at,
        before last (omega arith) (slot_after t clock last v),
        gt,
        runs,
        runs',
        λ d. between (greatest d) (least d) (slot_after t clock d v) e,
      )
    where
      before :
          (d : ℕ)
          → d < next_day t (zone.to_local now)
          → ((d < next_day t (zone.to_local now)) × (at_time t d ≤ zone.to_local now))
            ⊎ ((next_day t (zone.to_local now) ≤ d) × (zone.to_local now < at_time t d))
          → at_time t d ≤ zone.to_local now
      before d lt (inl (_, past)) = past
      before d lt (inr (from, _)) = absurd (omega arith)

      between :
          {d bound last next : ℕ}
          → (bound < d) ⊎ IsOff allowed d ⊎ (d ≤ last)
          → (at_time t d ≤ zone.to_local now) ⊎ IsOff allowed d ⊎ (next ≤ d)
          → ((d < next_day t (zone.to_local now)) × (at_time t d ≤ zone.to_local now))
            ⊎ ((next_day t (zone.to_local now) ≤ d) × (zone.to_local now < at_time t d))
          → next_day t (zone.to_local now) ≡ suc bound
          → IsOff allowed d ⊎ (d ≤ last) ⊎ (next ≤ d)
      between (inr (inl off)) b c e = inl off
      between (inr (inr le)) b c e = inr (inl le)
      between (inl after) (inr (inl off)) c e = inl off
      between (inl after) (inr (inr le)) c e = inr (inr le)
      between (inl after) (inl past) (inl (lt, _)) e = absurd (omega arith)
      between (inl after) (inl past) (inr (_, gt)) e = absurd (omega arith)
