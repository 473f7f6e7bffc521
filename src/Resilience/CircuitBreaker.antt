-- ===== src/Resilience/CircuitBreaker.antt =====
-- app/core/resilience/circuit_breaker.py. The monotonic clock is read by each operation, and is its
-- argument `now`, in milliseconds; the lock makes each operation atomic.
pub mod Concurrent
pub mod Laws
pub mod Registry
use codex_octopus.Base.{
  ℕ, ◌+◌, ◌*◌, ltb, leb, Bool, true, false, not, Option, none, some, List, [], ◌∷◌, if◌then◌else◌,
  all, is_empty,
}
use codex_octopus.Base.Text.{Text, text_eq}
use codex_octopus.Balancer.State.{seconds}

pub data CircuitState : Type 0 where
  closed opened half_open : CircuitState

pub record CircuitBreaker : Type 0 where
  pub stored_state : CircuitState
  pub failure_count : ℕ
  pub success_count : ℕ
  pub last_failure_time : Option ℕ
  pub half_open_probe_in_flight : Bool
  pub failure_threshold : ℕ
  pub recovery_timeout_seconds : ℕ
  pub success_threshold : ℕ

-- `__init__`
abbrev pub new_breaker : ℕ → ℕ → ℕ → CircuitBreaker
new_breaker failure_threshold recovery_timeout_seconds success_threshold = record {
  stored_state = closed;
  failure_count = 0;
  success_count = 0;
  last_failure_time = none;
  half_open_probe_in_flight = false;
  failure_threshold = failure_threshold;
  recovery_timeout_seconds = recovery_timeout_seconds;
  success_threshold = success_threshold;
}

-- `last_failure_time is not None and now - last_failure_time >= recovery_timeout_seconds`
abbrev pub has_timed_out : ℕ → CircuitBreaker → Bool
has_timed_out now b = elim b.last_failure_time [
  | none ↦ false
  | some at ↦ leb (at + seconds b.recovery_timeout_seconds) now
]

-- The property `state`: an open breaker reads half-open once its timeout has passed.
unfoldable pub state : ℕ → CircuitBreaker → CircuitState
state now b = elim b.stored_state [
  | opened ↦ if has_timed_out now b then half_open else opened
  | closed ↦ closed
  | half_open ↦ half_open
]

-- The result of `pre_call_check`: the two messages of `CircuitBreakerOpenError`, or whether the call
-- is the probe.
pub data Check : Type 0 where
  is_open probe_in_flight : Check
  admitted : Bool → Check

unfoldable pub check_in : CircuitState → CircuitBreaker → CircuitBreaker × Check
check_in opened b = (b, is_open)
check_in half_open b =
    if b.half_open_probe_in_flight
    then (b, probe_in_flight)
    else (record b { half_open_probe_in_flight = true }, admitted true)
check_in closed b = (b, admitted false)

unfoldable pub pre_call_check : ℕ → CircuitBreaker → CircuitBreaker × Check
unfolding check_in
pre_call_check now b = check_in (state now b) b

unfoldable pub release_half_open_probe : CircuitBreaker → CircuitBreaker
release_half_open_probe b = record b { half_open_probe_in_flight = false }

unfoldable pub success_in : CircuitState → CircuitBreaker → CircuitBreaker
success_in half_open b =
    if leb b.success_threshold (b.success_count + 1)
    then record b { stored_state = closed; failure_count = 0; success_count = 0 }
    else record b { success_count = b.success_count + 1 }
success_in closed b = if ltb 0 b.failure_count then record b { failure_count = 0 } else b
success_in opened b = b

-- `_record_success`
unfoldable pub record_success : ℕ → CircuitBreaker → CircuitBreaker
unfolding success_in
record_success now b = success_in (state now b) b

-- The exceptions that `_is_server_error` tells apart.
pub data CallError : Type 0 where
  client_response_error : ℕ → CallError
  timeout_error : CallError
  error_with_status_code : ℕ → CallError
  other_error : CallError

-- `_is_server_error`
abbrev pub is_server_error : CallError → Bool
is_server_error (client_response_error status) = leb 500 status
is_server_error timeout_error = true
is_server_error (error_with_status_code status) = leb 500 status
is_server_error other_error = true

-- `_record_failure`
unfoldable pub record_failure : ℕ → CallError → CircuitBreaker → CircuitBreaker
record_failure now error b = if not (is_server_error error) then b else record b {
  failure_count = b.failure_count + 1;
  last_failure_time = some now;
  success_count = 0;
  stored_state = if leb b.failure_threshold (b.failure_count + 1) then opened else b.stored_state;
}

-- How the awaited call ends; a cancellation is no `Exception`, so nothing is recorded of it.
pub data Outcome : Type 0 where
  succeeded cancelled : Outcome
  failed : CallError → Outcome

unfoldable pub record_outcome : ℕ → Outcome → CircuitBreaker → CircuitBreaker
unfolding record_success record_failure
record_outcome now succeeded b = record_success now b
record_outcome now cancelled b = b
record_outcome now (failed error) b = record_failure now error b

-- The `finally` of a call.
unfoldable pub end_call : Bool → CircuitBreaker → CircuitBreaker
unfolding release_half_open_probe
end_call is_probe b = if is_probe then release_half_open_probe b else b

-- What `call` does when the awaited call has ended, with no other call between its two sections.
unfoldable pub finish_call : ℕ → Bool → Outcome → CircuitBreaker → CircuitBreaker
unfolding record_outcome end_call
finish_call now is_probe outcome b = end_call is_probe (record_outcome now outcome b)

unfoldable pub after_check : ℕ → Outcome → CircuitBreaker × Check → CircuitBreaker × Check
unfolding finish_call
after_check later outcome (b, admitted is_probe) =
    (finish_call later is_probe outcome b, admitted is_probe)
after_check later outcome (b, is_open) = (b, is_open)
after_check later outcome (b, probe_in_flight) = (b, probe_in_flight)

-- `call`, with no other call between its check and its end.
unfoldable pub call : ℕ → ℕ → Outcome → CircuitBreaker → CircuitBreaker × Check
unfolding pre_call_check after_check
call now later outcome b = after_check later outcome (pre_call_check now b)

-- The settings that the registry reads.
pub record Settings : Type 0 where
  pub circuit_breaker_enabled : Bool
  pub circuit_breaker_failure_threshold : ℕ
  pub circuit_breaker_recovery_timeout_seconds : ℕ

-- `_account_circuit_breakers`
abbrev pub Registry : Type 0
Registry = List (Text × CircuitBreaker)

unfoldable pub find_breaker : Text → Registry → Option CircuitBreaker
find_breaker account_id [] = none
find_breaker account_id ((k, b) ∷ rest) =
    if text_eq k account_id then some b else find_breaker account_id rest

abbrev breaker_of : Settings → CircuitBreaker
breaker_of settings =
    new_breaker settings.circuit_breaker_failure_threshold
      settings.circuit_breaker_recovery_timeout_seconds 2

-- `get_circuit_breaker`, on the module's one breaker: the breaker that is kept, and the result.
unfoldable pub get_circuit_breaker :
    Option Settings → Option CircuitBreaker → Option CircuitBreaker × Option CircuitBreaker
get_circuit_breaker none kept = (kept, kept)
get_circuit_breaker (some settings) kept =
    if not settings.circuit_breaker_enabled then (kept, none) else (elim kept [
      | some b ↦ (some b, some b)
      | none ↦ (some (breaker_of settings), some (breaker_of settings))
    ])

-- `get_circuit_breaker_for_account`
unfoldable pub get_circuit_breaker_for_account :
    Text → Settings → Registry → Registry × Option CircuitBreaker
get_circuit_breaker_for_account account_id settings registry =
    if not settings.circuit_breaker_enabled
    then (registry, none)
    else (elim (find_breaker account_id registry) [
      | some b ↦ (registry, some b)
      | none ↦ ((account_id, breaker_of settings) ∷ registry, some (breaker_of settings))
    ])

abbrev pub reads_open : ℕ → Text × CircuitBreaker → Bool
reads_open now (_, b) = elim (state now b) [ opened ↦ true | _ ↦ false ]

-- `are_all_account_circuit_breakers_open`
unfoldable pub are_all_account_circuit_breakers_open : ℕ → Registry → Bool
unfolding state
are_all_account_circuit_breakers_open now registry =
    if is_empty registry then false else all (reads_open now) registry
