-- ===== src/Resilience/CircuitBreaker/Concurrent.antt =====
-- Calls through one breaker at the same time, as steps on the breaker and the calls that run.
use codex_octopus.Base.{
  ℕ, ◌+◌, ◌≤◌, ◌<◌, ◌≡◌, refl, sym, ap, ◌∙◌, subst, ◌==◌, ◌≢◌, Bool, true, false, List, [], ◌∷◌,
  ◌++◌, arith, if◌then◌else◌, is_some, sum_of,
}
use codex_octopus.Resilience.CircuitBreaker.{
  CircuitBreaker, CircuitState, closed, half_open, state, probe_in_flight, admitted, pre_call_check,
  record_outcome, Outcome, succeeded, cancelled, failed, end_call, check_in, Check, is_open, opened,
  new_breaker,
}

-- The breaker, for each call that runs whether it is a probe, and how many probes have been lost.
pub record System : Type 0 where
  pub breaker : CircuitBreaker
  pub running : List Bool
  pub lost : ℕ

abbrev pub one_if : Bool → ℕ
one_if true = 1
one_if false = 0

abbrev pub probes : List Bool → ℕ
probes = sum_of one_if

-- A call passes its check and runs; a call records an outcome, at its end or earlier; a call ends, and
-- gives the flag back if it is a probe; or a probe is lost: `_open_upstream_websocket` of
-- app/core/clients/proxy.py fails although it was to hold the probe, so nobody gives the flag back.
-- Each is one section under the lock.
pub data Step (s : System) (t : System) : Type 0 where
  start :
      (now : ℕ) (is_probe : Bool)
      → pre_call_check now s.breaker ≡ (t.breaker, admitted is_probe)
      → t.running ≡ is_probe ∷ s.running
      → t.lost ≡ s.lost
      → Step s t
  records :
      (now : ℕ) (outcome : Outcome)
      → t.breaker ≡ record_outcome now outcome s.breaker
      → t.running ≡ s.running
      → t.lost ≡ s.lost
      → Step s t
  ends :
      (is_probe : Bool) (before after : List Bool)
      → s.running ≡ before ++ (is_probe ∷ after)
      → t.breaker ≡ end_call is_probe s.breaker
      → t.running ≡ before ++ after
      → t.lost ≡ s.lost
      → Step s t
  loses :
      (before after : List Bool)
      → s.running ≡ before ++ (true ∷ after)
      → t.breaker ≡ s.breaker
      → t.running ≡ before ++ after
      → t.lost ≡ s.lost + 1
      → Step s t

pub data Reach (s : System) : System → Type 0 where
  here : Reach s s
  next : {t u : System} → Reach s t → Step t u → Reach s u

-- Counters and stored state of a breaker with positive thresholds.
pub record IsCoherent (b : CircuitBreaker) : Type 0 where
  pub stored : b.stored_state ≢ half_open
  pub closed_low : b.stored_state ≡ closed → b.failure_count < b.failure_threshold
  pub open_high :
      b.stored_state ≡ CircuitState.opened
      → (b.failure_threshold ≤ b.failure_count) × (is_some b.last_failure_time ≡ true)
  pub successes : b.success_count < b.success_threshold
  pub threshold : 0 < b.failure_threshold

-- The flag says whether the one probe runs or has been lost.
pub record Inv (s : System) : Type 0 where
  pub coherent : IsCoherent s.breaker
  pub flag : probes s.running + s.lost ≡ one_if s.breaker.half_open_probe_in_flight

pub record_outcome-IsCoherent :
    (now : ℕ) (outcome : Outcome) (b : CircuitBreaker)
    → IsCoherent b
    → IsCoherent (record_outcome now outcome b)
unfolding record_outcome state
record_outcome-IsCoherent now succeeded b c = ground arith
record_outcome-IsCoherent now cancelled b c = c
record_outcome-IsCoherent now (failed error) b c = ground arith

pre_call_check-IsCoherent :
    (now : ℕ) (b : CircuitBreaker) → IsCoherent b → IsCoherent (pre_call_check now b).0
unfolding pre_call_check state
pre_call_check-IsCoherent now b c = ground arith

end_call-IsCoherent :
    (is_probe : Bool) (b : CircuitBreaker) → IsCoherent b → IsCoherent (end_call is_probe b)
unfolding end_call
end_call-IsCoherent true b c = ground arith
end_call-IsCoherent false b c = c

record_outcome_flag :
    (now : ℕ) (outcome : Outcome) (b : CircuitBreaker)
    → (record_outcome now outcome b).half_open_probe_in_flight ≡ b.half_open_probe_in_flight
unfolding record_outcome state
record_outcome_flag now succeeded b = ground arith
record_outcome_flag now cancelled b = refl
record_outcome_flag now (failed error) b = ground arith

-- A call that is let through is a probe exactly if it raises the flag, which was down.
admitted_flag :
    (now : ℕ) (b b' : CircuitBreaker) (is_probe : Bool)
    → pre_call_check now b ≡ (b', admitted is_probe)
    → one_if b'.half_open_probe_in_flight ≡ one_if is_probe + one_if b.half_open_probe_in_flight
unfolding pre_call_check state
admitted_flag now b b' is_probe e = ground arith

end_call_flag :
    (is_probe : Bool) (b : CircuitBreaker)
    → one_if is_probe ≤ one_if b.half_open_probe_in_flight
    → one_if is_probe + one_if (end_call is_probe b).half_open_probe_in_flight
      ≡ one_if b.half_open_probe_in_flight
unfolding end_call
end_call_flag is_probe b h = ground arith

probes-append : (xs ys : List Bool) → probes (xs ++ ys) ≡ probes xs + probes ys
probes-append [] ys = omega arith
probes-append (x ∷ xs) ys = omega (arith, probes-append xs ys)

one_if-le : (b : Bool) → one_if b ≤ 1
one_if-le true = omega arith
one_if-le false = omega arith

-- The probes that run, with one of the calls apart.
probes_with :
    (is_probe : Bool) (before after running : List Bool)
    → running ≡ before ++ (is_probe ∷ after)
    → probes running ≡ one_if is_probe + probes (before ++ after)
probes_with is_probe before after running r =
    let whole : probes running ≡ probes before + (one_if is_probe + probes after) =
      ap probes r ∙ probes-append before (is_probe ∷ after) in
    omega (arith, whole, probes-append before after)

Step-Inv : {s t : System} → Step s t → Inv s → Inv t
Step-Inv {s} {t} (start now is_probe e r l) v = record {
  coherent =
      subst IsCoherent (ap (λ p. p.0) e) (pre_call_check-IsCoherent now s.breaker v.coherent);
  flag = rw (r, l) (omega (arith, admitted_flag now s.breaker t.breaker is_probe e, v.flag));
}
Step-Inv {s} {t} (records now outcome e r l) v = record {
  coherent = rw e (record_outcome-IsCoherent now outcome s.breaker v.coherent);
  flag = rw (r, l, e) (v.flag ∙ ap one_if (sym (record_outcome_flag now outcome s.breaker)));
}
Step-Inv {s} {t} (ends is_probe before after r e q l) v = record {
  coherent = rw e (end_call-IsCoherent is_probe s.breaker v.coherent);
  flag =
      let total = probes_with is_probe before after s.running r in
      rw (q, e, l)
        (omega
          (arith, total, v.flag, end_call_flag is_probe s.breaker (omega (arith, total, v.flag))));
}
Step-Inv {s} {t} (loses before after r e q l) v = record {
  coherent = rw e v.coherent;
  flag = rw (q, e, l) (omega (arith, probes_with true before after s.running r, v.flag));
}

pub Reach-Inv : {s t : System} → Inv s → Reach s t → Inv t
Reach-Inv v here = v
Reach-Inv v (next r st) = Step-Inv st (Reach-Inv v r)

abbrev pub initial : ℕ → ℕ → ℕ → System
initial failure_threshold timeout success_threshold = record {
  breaker = new_breaker failure_threshold timeout success_threshold;
  running = [];
  lost = 0;
}

pub initial-Inv :
    (failure_threshold timeout success_threshold : ℕ)
    → 0 < failure_threshold
    → 0 < success_threshold
    → Inv (initial failure_threshold timeout success_threshold)
initial-Inv failure_threshold timeout success_threshold f s = record {
  coherent = ground arith;
  flag = refl;
}

-- What a check answers, by the state that the breaker reads and the number of probes that hold the flag.
abbrev pub answer : CircuitState → ℕ → Check
answer closed holders = admitted false
answer opened holders = is_open
answer half_open holders = if 0 == holders then admitted true else probe_in_flight

-- However the sections of calls follow one another, at most one probe runs or has been lost; a half-open
-- breaker refuses the next call if one runs or has been lost and lets it probe otherwise, a closed one lets it
-- through, and an open one refuses it. A probe is lost where the opening of a websocket fails that was to hold
-- it. The thresholds are positive.
pub Reach-one_probe :
    (failure_threshold timeout success_threshold now : ℕ) (s : System)
    → 0 < failure_threshold
    → 0 < success_threshold
    → Reach (initial failure_threshold timeout success_threshold) s
    → (probes s.running + s.lost ≤ 1)
      × ((pre_call_check now s.breaker).1
          ≡ answer (state now s.breaker) (probes s.running + s.lost))
unfolding pre_call_check check_in
Reach-one_probe failure_threshold timeout success_threshold now s f p r =
    let v = Reach-Inv (initial-Inv failure_threshold timeout success_threshold f p) r in
    (
      omega (arith, v.flag, one_if-le s.breaker.half_open_probe_in_flight),
      by_state (state now s.breaker) v.flag,
    )
  where
    by_state :
        (read : CircuitState)
        → probes s.running + s.lost ≡ one_if s.breaker.half_open_probe_in_flight
        → (check_in read s.breaker).1 ≡ answer read (probes s.running + s.lost)
    by_state closed e = refl
    by_state opened e = refl
    by_state half_open e = ground arith
