-- ===== src/Scheduling.antt =====
-- The election of the instance that runs the schedulers: app/core/scheduling/leader_election.py. The
-- instances share one row; each remembers whether it is the leader.
pub mod Lease
mod Tests
use codex_octopus.Base.{
  ℕ, ◌+◌, ltb, Bool, true, false, not, ◌||◌, ◌&&◌, Option, none, some, List, [], ◌∷◌, if◌then◌else◌,
}
use codex_octopus.Base.Text.{Text, text_eq}

pub record SchedulerLeader : Type 0 where
  pub leader_id : Text
  pub acquired_at : ℕ
  pub expires_at : ℕ

pub record LeaderElection : Type 0 where
  pub leader_id : Text
  pub is_leader : Bool

-- The settings: whether the election is enabled, whether the database is SQLite, and the time to live.
pub record ElectionSettings : Type 0 where
  pub leader_election_enabled : Bool
  pub is_sqlite : Bool
  pub leader_election_ttl : ℕ

-- `INSERT ... ON CONFLICT (id) DO UPDATE ... WHERE expires_at < :now OR leader_id = :leader_id`
abbrev pub upsert_leader : ℕ → ℕ → Text → Option SchedulerLeader → Option SchedulerLeader
upsert_leader now ttl id none =
    some (record { leader_id = id; acquired_at = now; expires_at = now + ttl })
upsert_leader now ttl id (some row) =
    if ltb row.expires_at now || text_eq row.leader_id id
    then some (record { leader_id = id; acquired_at = now; expires_at = now + ttl })
    else some row

-- `row == self._leader_id`
abbrev pub is_led_by : Text → Option SchedulerLeader → Bool
is_led_by id none = false
is_led_by id (some row) = text_eq row.leader_id id

abbrev pub became : LeaderElection → Bool → LeaderElection
became election leads = record election { is_leader = leads }

-- `try_acquire`: the row, the instance after it, and the result. `fails` stands for an exception of the
-- database, which leaves the row as it is.
unfoldable pub try_acquire :
    ElectionSettings
    → Bool
    → ℕ
    → LeaderElection
    → Option SchedulerLeader
    → Option SchedulerLeader × LeaderElection × Bool
try_acquire settings fails now election row =
    if not settings.leader_election_enabled
    then (row, became election true, true)
    else if settings.is_sqlite
    then (row, became election true, true)
    else if fails
    then (row, became election false, false)
    else (let row' = upsert_leader now settings.leader_election_ttl election.leader_id row in
        let leads = is_led_by election.leader_id row' in (row', became election leads, leads))

-- `UPDATE ... SET expires_at ... WHERE leader_id = :leader_id`
abbrev pub extend_leader : ℕ → Text → Option SchedulerLeader → Option SchedulerLeader
extend_leader expires_at id none = none
extend_leader expires_at id (some row) =
    if text_eq row.leader_id id then some (record row { expires_at = expires_at }) else some row

-- `renew`, which leaves the instance as it is.
unfoldable pub renew :
    ElectionSettings
    → Bool
    → ℕ
    → LeaderElection
    → Option SchedulerLeader
    → Option SchedulerLeader × Bool
renew settings fails now election row =
    if not election.is_leader
    then (row, false)
    else if not settings.leader_election_enabled
    then (row, true)
    else if settings.is_sqlite
    then (row, true)
    else if fails
    then (row, false)
    else (extend_leader (now + settings.leader_election_ttl) election.leader_id row, true)
