-- ===== src/Scheduling/Tests.antt =====
-- Runs of the leader election with three instances.
use codex_octopus.Base.{◌≡◌, refl, Bool, true, false, none, some, List, [], ◌∷◌, arith}
use codex_octopus.Base.Text.{Text, text}
use codex_octopus.Scheduling.{SchedulerLeader, LeaderElection, ElectionSettings, try_acquire, renew}
use codex_octopus.Scheduling.Lease.{
  ElectionCall, acquiring, renewing, make_all, Elects, try_acquire_after,
}

abbrev settings : ElectionSettings
settings = record { leader_election_enabled = true; is_sqlite = false; leader_election_ttl = 30000 }

abbrev instance_named : Text → Bool → LeaderElection
instance_named id leads = record { leader_id = id; is_leader = leads }

abbrev led_by_a : SchedulerLeader
led_by_a = record { leader_id = text "a"; acquired_at = 0; expires_at = 30000 }

abbrev calls : List ElectionCall
calls =
    acquiring false 1000 (instance_named (text "b") false)
    ∷ renewing false 20000 (instance_named (text "c") true)
    ∷ acquiring true 30000 (instance_named (text "c") true)
    ∷ []

first_acquires :
    (try_acquire settings false 0 (instance_named (text "a") false) none).0 ≡ some led_by_a
unfolding try_acquire
first_acquires = refl

-- An instance that has lost the lease to another is told that it renewed.
renews_nothing :
    renew settings false 40000 (instance_named (text "b") true) (some led_by_a)
    ≡ (some led_by_a, true)
unfolding renew
renews_nothing = refl

try_acquire_after_example :
    (make_all settings calls (some led_by_a) ≡ some led_by_a)
    × Elects led_by_a 30001 (instance_named (text "b") false) (
        try_acquire settings false 30001
          (instance_named (text "b") false)
          (make_all settings calls (some led_by_a)))
try_acquire_after_example =
    try_acquire_after settings led_by_a calls 30001 (instance_named (text "b") false) refl refl
      ((refl, omega arith), ((refl, omega arith), ((refl, omega arith), tt)))
