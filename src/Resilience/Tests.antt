-- ===== src/Resilience/Tests.antt =====
-- Runs of the breaker, the retry budget and the bulkhead.
use codex_octopus.Resilience.CircuitBreaker.{Settings, Registry}
use codex_octopus.Base.{
  ℕ, ◌+◌, ◌≤◌, ltb, leb, ◌≡◌, ◌==◌, refl, ◌≢◌, true, false, none, some, List, [], ◌∷◌, ◌++◌, arith,
  if◌then◌else◌, length, filter,
}
use codex_octopus.Base.Text.{text}
use codex_octopus.Balancer.State.{seconds}
use codex_octopus.Resilience.CircuitBreaker.{
  CircuitBreaker, CircuitState, closed, half_open, state, probe_in_flight, pre_call_check,
  timeout_error, client_response_error, new_breaker, record_failure, failed, end_call, check_in,
  record_outcome,
}
use codex_octopus.Resilience.CircuitBreaker.Concurrent.{
  System, Step, start, records, ends, loses, answer, Reach, here, next, IsCoherent, initial, probes,
  Reach-one_probe,
}
use codex_octopus.Resilience.CircuitBreaker.Laws.{run_failures, run_probes, run_probes_close}
use codex_octopus.Resilience.RetryBudget.{RetryBudget, is_recent, try_acquire}
use codex_octopus.Resilience.RetryBudget.Window.{
  Tracks, in_window, last_of, run_attempts, run_attempts_bound, try_acquire-Tracks,
}
use codex_octopus.Resilience.Admission.{
  ScopeType, BulkheadSemaphore, new_bulkhead, lane_of, semaphore_of, bulkhead_enter, denial,
  entered, is_proxy_path, is_compact_path,
}
use codex_octopus.Resilience.Admission.Lanes as Lanes

-- A breaker that opens at two failures, for ten seconds, and closes after two probes.
abbrev fresh_breaker : CircuitBreaker
fresh_breaker = new_breaker 2 10 2

fresh-IsCoherent : IsCoherent fresh_breaker
fresh-IsCoherent = record {
  stored = λ e. ground arith;
  closed_low = λ e. omega arith;
  open_high = λ e. absurd (ground arith);
  successes = omega arith;
  threshold = omega arith;
}

-- The breaker after these failures.
abbrev opened_breaker : CircuitBreaker
opened_breaker = record fresh_breaker {
  stored_state = CircuitState.opened;
  failure_count = 2;
  last_failure_time = some 1500;
}

failures_open :
    run_failures fresh_breaker ((1000, timeout_error) ∷ (1500, client_response_error 503) ∷ [])
    ≡ opened_breaker
unfolding run_failures record_failure
failures_open = refl

opened-IsCoherent : IsCoherent opened_breaker
opened-IsCoherent = record {
  stored = λ e. ground arith;
  closed_low = λ e. absurd (ground arith);
  open_high = λ e. (omega arith, refl);
  successes = omega arith;
  threshold = omega arith;
}

reads_half_open : state 20000 opened_breaker ≡ half_open
unfolding state
reads_half_open = refl

abbrev two_probes : List (ℕ × ℕ)
two_probes = (20000, 20100) ∷ (20200, 20300) ∷ []

run_probes_close_example :
    let after = run_probes opened_breaker two_probes in
    let full = leb 2 (0 + length two_probes) in
    (after.stored_state ≡ (if full then closed else CircuitState.opened))
    × (after.failure_count ≡ (if full then 0 else 2))
    × (after.success_count ≡ (if full then 0 else 0 + length two_probes))
run_probes_close_example =
    run_probes_close opened_breaker two_probes refl refl ((refl, refl), ((refl, refl), tt))
      (omega arith) (omega arith)

-- With a threshold of one failure: a call fails, and ten seconds later a probe runs.
abbrev after_failure : CircuitBreaker
after_failure = record (new_breaker 1 10 2) {
  stored_state = CircuitState.opened;
  failure_count = 1;
  last_failure_time = some 1500;
}

abbrev probing : System
probing = record {
  breaker = record after_failure { half_open_probe_in_flight = true };
  running = true ∷ [];
  lost = 0;
}

abbrev call_running : System
call_running = record { breaker = new_breaker 1 10 2; running = false ∷ []; lost = 0 }

abbrev call_failed : System
call_failed = record { breaker = after_failure; running = false ∷ []; lost = 0 }

abbrev call_ended : System
call_ended = record { breaker = after_failure; running = []; lost = 0 }

abbrev probe_lost : System
probe_lost = record { breaker = probing.breaker; running = []; lost = 1 }

call_starts : Step (initial 1 10 2) call_running
unfolding pre_call_check state
call_starts = start 1000 false refl refl refl

call_fails : Step call_running call_failed
unfolding record_outcome record_failure
call_fails = records 1500 (failed timeout_error) refl refl refl

call_ends : Step call_failed call_ended
unfolding end_call
call_ends = ends false [] [] refl refl refl refl

probe_starts : Step call_ended probing
unfolding pre_call_check state
probe_starts = start 12000 true refl refl refl

probe_is_lost : Step probing probe_lost
probe_is_lost = loses [] [] refl refl refl refl

runs : Reach (initial 1 10 2) probe_lost
runs =
    next (next (next (next (next here call_starts) call_fails) call_ends) probe_starts)
      probe_is_lost

-- An hour later the breaker reads half-open, no probe runs, and the next call is refused.
refuses_for_good :
    (state 3600000 probe_lost.breaker ≡ half_open)
    × (probes probe_lost.running ≡ 0)
    × ((pre_call_check 3600000 probe_lost.breaker).1 ≡ probe_in_flight)
unfolding pre_call_check check_in state
refuses_for_good = (refl, refl, refl)

Reach-one_probe_example :
    (probes probe_lost.running + probe_lost.lost ≤ 1)
    × ((pre_call_check 12500 probe_lost.breaker).1
        ≡ answer (state 12500 probe_lost.breaker) (probes probe_lost.running + probe_lost.lost))
Reach-one_probe_example = Reach-one_probe 1 10 2 12500 probe_lost (omega arith) (omega arith) runs

abbrev enabled : Settings
enabled = record {
  circuit_breaker_enabled = true;
  circuit_breaker_failure_threshold = 5;
  circuit_breaker_recovery_timeout_seconds = 60;
}

abbrev one_account : Registry
one_account = (text "b", opened_breaker) ∷ []

abbrev three_attempts : List ℕ
three_attempts = 100 ∷ 200 ∷ 900 ∷ []

run_attempts_bound_example :
    let (all, b) =
      run_attempts three_attempts []
        (record { max_retries = 2; window_seconds = 1; retry_timestamps = [] }) in
    length (filter (is_recent (seconds 1) (last_of 0 three_attempts)) all) ≤ 2
run_attempts_bound_example =
    run_attempts_bound 2 1 three_attempts (omega arith, (omega arith, (omega arith, tt)))

abbrev used_budget : RetryBudget
used_budget = record { max_retries = 2; window_seconds = 1; retry_timestamps = 100 ∷ 200 ∷ [] }

used-Tracks : Tracks 200 (100 ∷ 200 ∷ []) used_budget
used-Tracks = record {
  ascending = ((omega arith, tt), (tt, tt));
  past = (omega arith, (omega arith, tt));
  holds = refl;
}

try_acquire-Tracks_example :
    let (b', success) = try_acquire 1150 used_budget in
    (success ≡ ltb (in_window 1150 used_budget (100 ∷ 200 ∷ [])) 2)
    × Tracks 1150 (if success then (100 ∷ 200 ∷ []) ++ (1150 ∷ []) else 100 ∷ 200 ∷ []) b'
try_acquire-Tracks_example =
    try_acquire-Tracks 200 1150 (100 ∷ 200 ∷ []) used_budget (omega arith) used-Tracks

-- One request may be inside each lane.
abbrev narrow : BulkheadSemaphore
narrow = record {
  http_lane = some 1;
  websocket_lane = some 1;
  compact_lane = some 1;
  dashboard_lane = some 1;
  background_lane = none;
}

narrow_limits :
    new_bulkhead (record {
      proxy_limit = some 1;
      dashboard_limit = 1;
      background_limit = 0;
      proxy_http_limit = none;
      proxy_websocket_limit = none;
      proxy_compact_limit = none;
    })
    ≡ narrow
unfolding new_bulkhead
narrow_limits = refl

abbrev one_inside : Lanes.System
one_inside = record {
  bulkhead = record narrow { http_lane = some 0 };
  inside = lane_of ScopeType.http (text "/v1/responses") ∷ [];
}

enters_v1 : Lanes.Reach (record { bulkhead = narrow; inside = [] }) one_inside
unfolding bulkhead_enter lane_of is_proxy_path is_compact_path
enters_v1 = Lanes.next Lanes.here (
    Lanes.enters false ScopeType.http (text "/v1/responses")
      (lane_of ScopeType.http (text "/v1/responses")) refl refl)

is_http_scope : ScopeType.http ≢ ScopeType.other_scope
is_http_scope e = ground arith

http_limit : semaphore_of (lane_of ScopeType.http (text "/v1/models")) narrow ≡ some 1
unfolding lane_of is_proxy_path is_compact_path
http_limit = refl

Reach-lane_limit_example :
    let lane = lane_of ScopeType.http (text "/v1/models") in
    (Lanes.held lane one_inside.inside ≤ 1)
    × ((bulkhead_enter false ScopeType.http (text "/v1/models") one_inside.bulkhead).1 ≡ (
        if Lanes.held lane one_inside.inside == 1
        then denial ScopeType.http (text "/v1/models") 429
        else entered lane))
Reach-lane_limit_example =
    Lanes.Reach-lane_limit narrow 1 ScopeType.http (text "/v1/models") {s = one_inside} enters_v1
      is_http_scope refl http_limit
