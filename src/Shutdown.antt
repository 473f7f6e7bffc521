-- ===== src/Shutdown.antt =====
-- The graceful shutdown: the flags and the counter of app/core/shutdown.py, and the middleware of
-- app/core/middleware/inflight.py that keeps the counter. Both run on one event loop, so what they do
-- between two awaits is one step.
pub mod Drain
mod Tests
use codex_octopus.Base.{
  ℕ, ◌+◌, ◌-◌, ltb, ◌==◌, Bool, true, false, not, ◌&&◌, ◌||◌, Option, none, some, List, [], ◌∷◌,
  if◌then◌else◌,
}
use codex_octopus.Base.Text.{Text, text, text_eq}
use codex_octopus.Resilience.Admission.{ScopeType, is_http}

-- The module's globals.
pub record ShutdownState : Type 0 where
  pub draining : Bool
  pub bridge_drain_active : Bool
  pub in_flight : ℕ

-- `reset`, and the values at the start.
abbrev pub reset : ShutdownState
reset = record { draining = false; bridge_drain_active = false; in_flight = 0 }

unfoldable pub set_draining : Bool → ShutdownState → ShutdownState
set_draining val s = record s { draining = val }

unfoldable pub set_bridge_drain_active : Bool → ShutdownState → ShutdownState
set_bridge_drain_active val s = record s { bridge_drain_active = val }

unfoldable pub increment_in_flight : ShutdownState → ShutdownState
increment_in_flight s = record s { in_flight = s.in_flight + 1 }

-- `max(0, _in_flight - 1)`
unfoldable pub decrement_in_flight : ShutdownState → ShutdownState
decrement_in_flight s = record s { in_flight = s.in_flight - 1 }

-- `path in _DRAIN_ALLOWED_HTTP_PATHS`
abbrev pub is_drain_allowed : Text → Bool
is_drain_allowed path =
    text_eq path (text "/health/live") || text_eq path (text "/internal/bridge/responses")

-- What the middleware does with a request: it is passed on without being counted, it is answered
-- with 503, or it is counted until the application is done with it.
pub data Admission : Type 0 where
  uncounted server_is_draining counted : Admission

-- `InFlightMiddleware.__call__` up to the call of the application.
unfoldable pub inflight_enter : ScopeType → Text → ShutdownState → ShutdownState × Admission
unfolding increment_in_flight
inflight_enter scope_type path s =
    if not (is_http scope_type)
    then (s, uncounted)
    else if s.draining && not (is_drain_allowed path)
    then (s, server_is_draining)
    else (increment_in_flight s, counted)

-- Its `finally`.
unfoldable pub inflight_exit : ShutdownState → ShutdownState
unfolding decrement_in_flight
inflight_exit s = decrement_in_flight s

-- What one round of the loop of `wait_for_in_flight_drain` reads: the clock, and the state.
pub record Poll : Type 0 where
  pub clock : ℕ
  pub shutdown : ShutdownState

-- `wait_for_in_flight_drain`, over the rounds of its loop; with no round left it still sleeps.
unfoldable pub wait_for_in_flight_drain : ℕ → List Poll → Option Bool
wait_for_in_flight_drain deadline [] = none
wait_for_in_flight_drain deadline (poll ∷ later) =
    let waited = wait_for_in_flight_drain deadline later in
    if ltb 0 poll.shutdown.in_flight && ltb poll.clock deadline
    then waited
    else some (poll.shutdown.in_flight == 0)
