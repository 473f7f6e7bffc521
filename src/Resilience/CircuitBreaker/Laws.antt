-- ===== src/Resilience/CircuitBreaker/Laws.antt =====
-- The breaker's life: it opens after enough failures in a row, refuses until its timeout, and closes
-- after enough successful probes.
use codex_octopus.Base.{
  ℕ, ◌+◌, ◌≤◌, ◌<◌, ◌≡◌, refl, ap, ◌∙◌, true, false, some, List, [], ◌∷◌, arith, if◌then◌else◌,
  length, All, leb,
}
use codex_octopus.Balancer.State.{seconds}
use codex_octopus.Resilience.CircuitBreaker.{
  CircuitBreaker, CircuitState, closed, half_open, state, is_open, pre_call_check, record_failure,
  record_outcome, call, CallError, succeeded, failed, is_server_error, has_timed_out,
}
use codex_octopus.Resilience.CircuitBreaker.Concurrent.{IsCoherent, record_outcome-IsCoherent}

-- Server errors in a row, each with the time at which its call ends.
unfoldable pub run_failures : CircuitBreaker → List (ℕ × CallError) → CircuitBreaker
run_failures b [] = b
run_failures b ((now, error) ∷ rest) = run_failures (record_failure now error b) rest

failure_counts :
    (now : ℕ) (error : CallError) (b : CircuitBreaker)
    → is_server_error error ≡ true
    → ((record_failure now error b).failure_count ≡ b.failure_count + 1)
      × ((record_failure now error b).failure_threshold ≡ b.failure_threshold)
unfolding record_failure
failure_counts now error b h = ground arith

failure-IsCoherent :
    (now : ℕ) (error : CallError) (b : CircuitBreaker)
    → IsCoherent b
    → IsCoherent (record_failure now error b)
unfolding record_outcome
failure-IsCoherent now error b c = record_outcome-IsCoherent now (failed error) b c

run_failures_counts :
    (b : CircuitBreaker) (errors : List (ℕ × CallError))
    → All (λ e. is_server_error e.1 ≡ true) errors
    → IsCoherent b
    → let after = run_failures b errors in
      (after.failure_count ≡ b.failure_count + length errors)
      × (after.failure_threshold ≡ b.failure_threshold)
      × IsCoherent after
unfolding run_failures
run_failures_counts b [] h c = (omega arith, refl, c)
run_failures_counts b ((now, error) ∷ rest) h c =
    let first = failure_counts now error b h.0 in
    let (count, threshold, coherent) =
      run_failures_counts (record_failure now error b) rest h.1
        (failure-IsCoherent now error b c) in
    (omega (arith, count, first.0), threshold ∙ first.1, coherent)

-- From a breaker with no failures, a row of server errors opens it exactly if it is as long as the
-- threshold; a shorter row leaves it closed.
pub run_failures_opens :
    (b : CircuitBreaker) (errors : List (ℕ × CallError))
    → All (λ e. is_server_error e.1 ≡ true) errors
    → IsCoherent b
    → b.failure_count ≡ 0
    → (run_failures b errors).stored_state
      ≡ (if leb b.failure_threshold (length errors) then CircuitState.opened else closed)
run_failures_opens b errors h c z =
    let (count, threshold, coherent) = run_failures_counts b errors h c in
    by_state (run_failures b errors) coherent (omega (arith, count, z)) threshold
  where
    by_state :
        (after : CircuitBreaker)
        → IsCoherent after
        → after.failure_count ≡ length errors
        → after.failure_threshold ≡ b.failure_threshold
        → after.stored_state
          ≡ (if leb b.failure_threshold (length errors) then CircuitState.opened else closed)
    by_state after v e t = ground arith

-- An open breaker refuses every call until its timeout, and is not changed by asking.
pub open_refuses :
    (now at : ℕ) (b : CircuitBreaker)
    → b.stored_state ≡ CircuitState.opened
    → b.last_failure_time ≡ some at
    → now < at + seconds b.recovery_timeout_seconds
    → pre_call_check now b ≡ (b, is_open)
unfolding pre_call_check state
open_refuses now at b o l h = ground arith

-- A server error reported to a half-open breaker, by the probe or by a call that began before,
-- opens it for another timeout.
pub half_open_failure :
    (now later : ℕ) (error : CallError) (b : CircuitBreaker)
    → IsCoherent b
    → state now b ≡ half_open
    → is_server_error error ≡ true
    → later < now + seconds b.recovery_timeout_seconds
    → state later (record_failure now error b) ≡ CircuitState.opened
unfolding state record_failure
half_open_failure now later error b c h e l = ground arith

-- Probes that succeed, each with the times of its check and of its end.
pub run_probes : CircuitBreaker → List (ℕ × ℕ) → CircuitBreaker
run_probes b [] = b
run_probes b ((now, later) ∷ rest) = run_probes (call now later succeeded b).0 rest

-- When every time comes after the timeout.
abbrev pub AllAfter : CircuitBreaker → List (ℕ × ℕ) → Type 0
AllAfter b times = All (λ t. (has_timed_out t.0 b ≡ true) × (has_timed_out t.1 b ≡ true)) times

-- What one successful probe does.
abbrev probed : CircuitBreaker → CircuitBreaker
probed b =
    if leb b.success_threshold (b.success_count + 1)
    then record b { stored_state = closed; failure_count = 0; success_count = 0 }
    else record b { success_count = b.success_count + 1 }

probe_step :
    (now later : ℕ) (b : CircuitBreaker)
    → b.stored_state ≡ CircuitState.opened
    → b.half_open_probe_in_flight ≡ false
    → has_timed_out now b ≡ true
    → has_timed_out later b ≡ true
    → (call now later succeeded b).0 ≡ probed b
unfolding call state
probe_step now later b o f t l = ground arith

-- An open breaker whose timeout has passed closes, with its counters cleared, at the successful
-- probe that completes the success threshold; fewer successful probes are counted and leave it open.
-- The probes run one after the other, and every check and end comes after the timeout.
pub run_probes_close :
    (b : CircuitBreaker) (times : List (ℕ × ℕ))
    → b.stored_state ≡ CircuitState.opened
    → b.half_open_probe_in_flight ≡ false
    → AllAfter b times
    → b.success_count < b.success_threshold
    → b.success_count + length times ≤ b.success_threshold
    → let after = run_probes b times in
      let full = leb b.success_threshold (b.success_count + length times) in
      (after.stored_state ≡ (if full then closed else CircuitState.opened))
      × (after.failure_count ≡ (if full then 0 else b.failure_count))
      × (after.success_count ≡ (if full then 0 else b.success_count + length times))
unfolding run_probes
run_probes_close b [] o f all low short = ground arith
run_probes_close b ((now, later) ∷ []) o f all low short =
    rw (probe_step now later b o f all.0.0 all.0.1) (ground arith)
run_probes_close b ((now, later) ∷ t ∷ rest) o f all low short = rw again (
    ground (
      arith,
      run_probes_close (record b { success_count = b.success_count + 1 }) (t ∷ rest) o f all.1
          (omega arith) (omega arith),
    ))
  where
    counted : probed b ≡ record b { success_count = b.success_count + 1 }
    counted = ground arith

    again :
        run_probes b ((now, later) ∷ t ∷ rest)
        ≡ run_probes (record b { success_count = b.success_count + 1 }) (t ∷ rest)
    again = ap (λ c. run_probes c (t ∷ rest)) (probe_step now later b o f all.0.0 all.0.1 ∙ counted)
