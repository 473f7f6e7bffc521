-- ===== src/Balancer/Quota.antt =====
-- `apply_usage_quota` of app/core/usage/quota.py: the status that recorded usage calls for.
use codex_octopus.Base.{
  ℕ, ◌+◌, ◌*◌, ltb, leb, ◌≡◌, ◌⊎◌, ◌≢◌, ◌↔◌, Bool, true, false, ◌&&◌, Option, none, some, get_or,
  arith, if◌then◌else◌, is_set,
}
use codex_octopus.Balancer.State.{AccountStatus, status_eq, seconds, percent}

pub record QuotaState : Type 0 where
  pub status : AccountStatus
  pub used_percent : Option ℕ
  pub reset_at : Option ℕ

abbrev default_window_minutes_primary : ℕ
default_window_minutes_primary = 300

-- `_fallback_primary_reset`: the default window is not zero, so there is always a result.
unfoldable pub fallback_primary_reset : ℕ → Option ℕ → ℕ
fallback_primary_reset now window_minutes =
    let minutes =
      if is_set window_minutes then get_or window_minutes 0 else default_window_minutes_primary in
    now + seconds (minutes * 60)

-- `runtime_reset and runtime_reset > time.time()`
abbrev pub is_running : ℕ → Option ℕ → Bool
is_running now reset = is_set reset && ltb now (get_or reset 0)

-- A limited status stays while its reset lies ahead, and is lifted otherwise.
unfoldable pub keep_or_lift : ℕ → Option ℕ → QuotaState → QuotaState
keep_or_lift now runtime_reset q =
    if is_running now runtime_reset
    then record q { reset_at = runtime_reset }
    else record q { status = AccountStatus.active; reset_at = none }

-- The part of the primary window.
unfoldable pub apply_primary :
    ℕ → Option ℕ → Option ℕ → Option ℕ → Option ℕ → QuotaState → QuotaState
apply_primary now none primary_reset primary_window_minutes runtime_reset q = q
apply_primary now (some used) primary_reset primary_window_minutes runtime_reset q =
    if leb (percent 100) used
    then record {
      status = AccountStatus.rate_limited;
      used_percent = some (percent 100);
      reset_at = elim primary_reset [
        | some reset ↦ some reset
        | none ↦ some (fallback_primary_reset now primary_window_minutes)
      ];
    }
    else if status_eq q.status AccountStatus.rate_limited
    then keep_or_lift now runtime_reset q
    else q

-- The part of the secondary window, with what follows it.
unfoldable pub apply_secondary :
    ℕ → Option ℕ → Option ℕ → Option ℕ → (QuotaState → QuotaState) → QuotaState → QuotaState
apply_secondary now none secondary_reset runtime_reset follow q =
    if status_eq q.status AccountStatus.quota_exceeded
    then (elim secondary_reset [
      | some reset ↦ follow (record q { reset_at = some reset })
      | none ↦ follow q
    ])
    else follow q
apply_secondary now (some used) secondary_reset runtime_reset follow q =
    if leb (percent 100) used
    then record {
      status = AccountStatus.quota_exceeded;
      used_percent = some (percent 100);
      reset_at = elim secondary_reset [ some reset ↦ some reset | none ↦ q.reset_at ];
    }
    else if status_eq q.status AccountStatus.quota_exceeded
    then follow (keep_or_lift now runtime_reset q)
    else follow q

pub record QuotaInputs : Type 0 where
  pub status : AccountStatus
  pub primary_used : Option ℕ
  pub primary_reset : Option ℕ
  pub primary_window_minutes : Option ℕ
  pub runtime_reset : Option ℕ
  pub secondary_used : Option ℕ
  pub secondary_reset : Option ℕ

abbrev is_held : AccountStatus → Bool
is_held AccountStatus.deactivated = true
is_held AccountStatus.paused = true
is_held _ = false

unfoldable pub apply_usage_quota : ℕ → QuotaInputs → QuotaState
apply_usage_quota now i =
    let start : QuotaState = record {
      status = i.status;
      used_percent = i.primary_used;
      reset_at = i.runtime_reset;
    } in
    if is_held i.status
    then start
    else apply_secondary now i.secondary_used i.secondary_reset i.runtime_reset
        (apply_primary now i.primary_used i.primary_reset i.primary_window_minutes i.runtime_reset)
        start

-- `value is not None and value >= 100.0`
abbrev pub is_full : Option ℕ → Bool
is_full none = false
is_full (some used) = leb (percent 100) used

-- An account that is neither paused nor deactivated has exceeded its quota exactly if the secondary
-- window is full, or it had before, the primary window is not full, and either nothing is known of
-- the secondary window or the reset lies ahead.
pub apply_usage_quota_exceeded :
    (now : ℕ) (i : QuotaInputs)
    → i.status ≢ AccountStatus.paused
    → i.status ≢ AccountStatus.deactivated
    → ((apply_usage_quota now i).status ≡ AccountStatus.quota_exceeded) ↔ (
        (is_full i.secondary_used ≡ true)
        ⊎ ((i.status ≡ AccountStatus.quota_exceeded)
            × (is_full i.primary_used ≡ false)
            × ((i.secondary_used ≡ none) ⊎ (is_running now i.runtime_reset ≡ true))))
unfolding apply_usage_quota apply_secondary apply_primary keep_or_lift
apply_usage_quota_exceeded now i p d = ground arith

-- A paused or deactivated account keeps its status, whatever the usage.
pub apply_usage_quota_held :
    (now : ℕ) (i : QuotaInputs)
    → (i.status ≡ AccountStatus.paused) ⊎ (i.status ≡ AccountStatus.deactivated)
    → (apply_usage_quota now i).status ≡ i.status
unfolding apply_usage_quota
apply_usage_quota_held now i h = ground arith
