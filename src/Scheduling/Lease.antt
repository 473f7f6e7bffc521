-- ===== src/Scheduling/Lease.antt =====
-- The lease of the leader, whatever the other instances call: app/core/scheduling/leader_election.py.
use codex_octopus.Base.{
  ℕ, ◌≤◌, ltb, ◌≡◌, refl, sym, ◌∙◌, ap, subst, Bool, true, false, ◌||◌, Option, some, List, [], ◌∷◌,
  arith, All, Bool-cases, inl, inr,
}
use codex_octopus.Base.Text.{Text, text_eq, text_eq_refl}
use codex_octopus.Scheduling.{
  SchedulerLeader, LeaderElection, ElectionSettings, upsert_leader, is_led_by, try_acquire, renew,
}

-- A call of an instance at a moment; the Boolean says whether the database fails.
pub data ElectionCall : Type 0 where
  acquiring renewing : Bool → ℕ → LeaderElection → ElectionCall

abbrev pub caller : ElectionCall → Text
caller (acquiring fails now election) = election.leader_id
caller (renewing fails now election) = election.leader_id

abbrev pub moment : ElectionCall → ℕ
moment (acquiring fails now election) = now
moment (renewing fails now election) = now

unfoldable pub make :
    ElectionSettings → ElectionCall → Option SchedulerLeader → Option SchedulerLeader
unfolding try_acquire renew
make settings (acquiring fails now election) row = (try_acquire settings fails now election row).0
make settings (renewing fails now election) row = (renew settings fails now election row).0

unfoldable pub make_all :
    ElectionSettings → List ElectionCall → Option SchedulerLeader → Option SchedulerLeader
unfolding make
make_all settings [] row = row
make_all settings (call ∷ calls) row = make_all settings calls (make settings call row)

-- The call of another instance while the lease runs.
abbrev pub IsOutside : SchedulerLeader → ElectionCall → Type 0
IsOutside row call = (text_eq row.leader_id (caller call) ≡ false) × (moment call ≤ row.expires_at)

make_keeps :
    (settings : ElectionSettings) (row : SchedulerLeader) (call : ElectionCall)
    → IsOutside row call
    → make settings call (some row) ≡ some row
unfolding make
make_keeps settings row (acquiring fails now election) (apart, in_time) = ground arith
make_keeps settings row (renewing fails now election) (apart, in_time) = ground arith

make_all_keeps :
    (settings : ElectionSettings) (row : SchedulerLeader) (calls : List ElectionCall)
    → All (IsOutside row) calls
    → make_all settings calls (some row) ≡ some row
unfolding make_all
make_all_keeps settings row [] a = refl
make_all_keeps settings row (call ∷ calls) a =
    ap (make_all settings calls) (make_keeps settings row call a.0)
    ∙ make_all_keeps settings row calls a.1

-- One attempt on a row that another may hold.
abbrev pub Elects :
    SchedulerLeader → ℕ → LeaderElection → Option SchedulerLeader × LeaderElection × Bool → Type 0
Elects row now election (after, next, leads) =
    (leads ≡ (ltb row.expires_at now || text_eq row.leader_id election.leader_id))
    × (next.is_leader ≡ leads)
    × (leads ≡ is_led_by election.leader_id after)

try_acquire-Elects :
    (settings : ElectionSettings) (row : SchedulerLeader) (now : ℕ) (election : LeaderElection)
    → settings.leader_election_enabled ≡ true
    → settings.is_sqlite ≡ false
    → Elects row now election (try_acquire settings false now election (some row))
unfolding try_acquire
try_acquire-Elects settings row now election enabled shared =
    elim (Bool-cases (ltb row.expires_at now || text_eq row.leader_id election.leader_id)) [
      | inl wins ↦
          rw (try_acquire, enabled, shared, upsert_leader, wins)
            (text_eq_refl election.leader_id, refl, refl)
      | inr loses ↦
          let other : text_eq row.leader_id election.leader_id ≡ false = ground arith in
          rw (try_acquire, enabled, shared, upsert_leader, loses) (other, refl, refl)
    ]

-- With the election enabled on a shared database, however often the other instances try to acquire or to renew while the
-- lease of the leader runs, the row stays as it is; and the next instance that tries without a failure
-- of the database becomes the leader, and remembers it, exactly if the lease is over by then or was its own.
pub try_acquire_after :
    (settings : ElectionSettings) (row : SchedulerLeader) (calls : List ElectionCall) (now : ℕ)
    (election : LeaderElection)
    → settings.leader_election_enabled ≡ true
    → settings.is_sqlite ≡ false
    → All (IsOutside row) calls
    → (make_all settings calls (some row) ≡ some row)
      × Elects row now election
          (try_acquire settings false now election (make_all settings calls (some row)))
try_acquire_after settings row calls now election enabled shared a =
    let kept = make_all_keeps settings row calls a in
    (
      kept,
      subst (λ r. Elects row now election (try_acquire settings false now election r)) (sym kept)
          (try_acquire-Elects settings row now election enabled shared),
    )
