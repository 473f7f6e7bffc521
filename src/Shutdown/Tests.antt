-- ===== src/Shutdown/Tests.antt =====
-- A shutdown with one request in flight.
use codex_octopus.Base.{◌≤◌, ◌<◌, ℕ, ◌≡◌, refl, ◌⊎◌, inl, true, false, some, List, [], ◌∷◌, In}
use codex_octopus.Base.Text.{text}
use codex_octopus.Resilience.Admission.{ScopeType}
use codex_octopus.Shutdown.{
  reset, set_draining, inflight_enter, inflight_exit, is_drain_allowed, Poll,
  wait_for_in_flight_drain,
}
use codex_octopus.Shutdown.Drain.{
  System, Request, start, Step, enters, leaves, sets_draining, Reach, here, next, begins, goes_on,
  DrainReach-running, polls_of,
}

abbrev old_request : Request
old_request = record { number = 0; path = text "/v1/responses" }

abbrev health_check : Request
health_check = record { number = 1; path = text "/health/live" }

abbrev one_request : System
one_request = record {
  shutdown = record reset { in_flight = 1 };
  running = old_request ∷ [];
  entered = 1;
}

abbrev draining : System
draining = record {
  shutdown = record { draining = true; bridge_drain_active = false; in_flight = 1 };
  running = old_request ∷ [];
  entered = 1;
}

abbrev drained : System
drained = record {
  shutdown = record { draining = true; bridge_drain_active = false; in_flight = 0 };
  running = [];
  entered = 1;
}

request_enters : Step start one_request
unfolding inflight_enter
request_enters = enters ScopeType.http (text "/v1/responses") refl refl refl

drain_begins : Step one_request draining
unfolding set_draining
drain_begins = sets_draining true refl refl refl

request_leaves : Step draining drained
unfolding inflight_exit
request_leaves = leaves old_request [] [] refl refl refl refl

reaches_draining : Reach start draining
reaches_draining = next (next here request_enters) drain_begins

reaches_drained : Reach start drained
reaches_drained = next reaches_draining request_leaves

abbrev rounds : List (ℕ × System)
rounds = (1000, draining) ∷ (1100, drained) ∷ []

waits : wait_for_in_flight_drain 5000 (polls_of rounds) ≡ some true
unfolding wait_for_in_flight_drain
waits = refl

abbrev late_poll : Poll
late_poll = record { clock = 6000; shutdown = draining.shutdown }

abbrev health_checked : System
health_checked = record {
  shutdown = record { draining = true; bridge_drain_active = false; in_flight = 2 };
  running = health_check ∷ old_request ∷ [];
  entered = 2;
}

health_check_enters : Step draining health_checked
unfolding inflight_enter
health_check_enters = enters ScopeType.http (text "/health/live") refl refl refl

DrainReach-running_example :
    (In health_check draining.running × (1 < 1))
    ⊎ ((1 ≤ 1) × (is_drain_allowed (text "/health/live") ≡ true))
DrainReach-running_example =
    DrainReach-running draining health_checked health_check reaches_draining
      (goes_on (begins refl) health_check_enters refl) (inl refl)
