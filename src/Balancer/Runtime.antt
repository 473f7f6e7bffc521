-- ===== src/Balancer/Runtime.antt =====
-- What the balancer keeps for each account besides the database, and the state it makes of both:
-- app/modules/proxy/load_balancer.py.
pub mod Usage
pub mod Recovery
pub mod Marks
pub mod Survival
mod Tests
use codex_octopus.Base.{
  ℕ, ◌+◌, ◌*◌, max, ltb, leb, ◌==◌, Bool, true, false, not, ◌&&◌, ◌||◌, Option, none, some, get_or,
  if◌then◌else◌, is_set, is_some, List, [], ◌∷◌,
}
use codex_octopus.Base.Text.{Text}
use codex_octopus.Balancer.State.{
  AccountState, AccountStatus, status_eq, seconds, percent, health_tier_healthy,
  health_tier_draining, health_tier_probing,
}
use codex_octopus.Balancer.Events.{quota_exceeded_cooldown_seconds}
use codex_octopus.Balancer.Health.{HealthThresholds, evaluate_health_tier}
use codex_octopus.Balancer.Quota.{QuotaState, QuotaInputs, apply_usage_quota, is_running, is_full}
use codex_octopus.Balancer.Runtime.Usage.{
  UsageHistory, should_use_weekly_primary, capacity_for_plan_secondary,
}

pub record RuntimeState : Type 0 where
  pub reset_at : Option ℕ
  pub cooldown_until : Option ℕ
  pub last_error_at : Option ℕ
  pub last_selected_at : Option ℕ
  pub error_count : ℕ
  pub version : ℕ
  pub blocked_at : Option ℕ
  pub health_tier : ℕ
  pub drain_entered_at : Option ℕ
  pub probe_success_streak : ℕ

-- `RuntimeState()`
abbrev pub new_runtime : RuntimeState
new_runtime = record {
  reset_at = none;
  cooldown_until = none;
  last_error_at = none;
  last_selected_at = none;
  error_count = 0;
  version = 0;
  blocked_at = none;
  health_tier = 0;
  drain_entered_at = none;
  probe_success_streak = 0;
}

-- The columns of an account that the balancer reads and writes.
pub record Account : Type 0 where
  pub id : Text
  pub plan_type : Text
  pub status : AccountStatus
  pub deactivation_reason : Option Text
  pub reset_at : Option ℕ
  pub blocked_at : Option ℕ

-- The settings that are read.
pub record BalancerSettings : Type 0 where
  pub soft_drain_enabled : Bool
  pub thresholds : HealthThresholds
  pub usage_refresh_interval_seconds : ℕ

-- `_usage_entry_is_recent_enough`
unfoldable pub usage_entry_is_recent_enough : ℕ → ℕ → Option ℕ → Bool
usage_entry_is_recent_enough now interval none = false
usage_entry_is_recent_enough now interval (some recorded) =
    leb now (recorded + max (interval * 2) (seconds 180))

-- `effective_secondary_entry`
unfoldable pub effective_secondary_entry :
    Option UsageHistory → Option UsageHistory → Option UsageHistory
unfolding should_use_weekly_primary
effective_secondary_entry none secondary_entry = secondary_entry
effective_secondary_entry (some primary) secondary_entry =
    if should_use_weekly_primary primary secondary_entry then some primary else secondary_entry

abbrev pub used_of : Option UsageHistory → Option ℕ
used_of none = none
used_of (some entry) = entry.used_percent

abbrev pub reset_of : Option UsageHistory → Option ℕ
reset_of none = none
reset_of (some entry) = entry.reset_at

abbrev pub window_of : Option UsageHistory → Option ℕ
window_of none = none
window_of (some entry) = entry.window_minutes

abbrev pub recorded_of : Option UsageHistory → Option ℕ
recorded_of none = none
recorded_of (some entry) = entry.recorded_at

abbrev pub is_below : Option ℕ → ℕ → Bool
is_below none limit = false
is_below (some value) limit = ltb value limit

abbrev pub is_beyond : Option ℕ → ℕ → Bool
is_beyond none limit = false
is_beyond (some value) limit = ltb limit value

abbrev pub is_quota_exceeded : Account → Bool
is_quota_exceeded account = status_eq account.status AccountStatus.quota_exceeded

-- `db_reset_at or runtime.reset_at`
abbrev pub stored_reset : Account → RuntimeState → Option ℕ
stored_reset account runtime =
    if is_set account.reset_at then account.reset_at else runtime.reset_at

-- `effective_blocked_at`
abbrev pub effective_blocked_at : Account → RuntimeState → Option ℕ
effective_blocked_at account runtime =
    if is_some account.blocked_at then account.blocked_at else runtime.blocked_at

-- The first of the two conditions that clear the reset: a block of which nothing is stored, where a recent entry
-- has room and a later reset.
unfoldable pub is_outdated :
    BalancerSettings → ℕ → Account → Option ℕ → Option ℕ → Option UsageHistory → Bool
unfolding usage_entry_is_recent_enough
is_outdated settings now account reset blocked_at secondary =
    is_quota_exceeded account
    && is_beyond reset now
    && not (is_some blocked_at)
    && usage_entry_is_recent_enough now settings.usage_refresh_interval_seconds
        (recorded_of secondary)
    && is_below (used_of secondary) (percent 100)
    && is_beyond (reset_of secondary) (get_or reset 0)

-- `cooldown_ready`
unfoldable pub cooldown_ready : ℕ → Account → RuntimeState → Option ℕ → Bool
cooldown_ready now account runtime blocked_at =
    if is_quota_exceeded account
    then elim blocked_at [
      | none ↦ false
      | some at ↦ leb (at + seconds quota_exceeded_cooldown_seconds) now
    ]
    else (elim runtime.cooldown_until [
      | none ↦ false
      | some until ↦ leb until now && is_some runtime.blocked_at
    ])

-- `freshness_entry`
abbrev pub freshness_entry :
    AccountStatus → Option UsageHistory → Option UsageHistory → Option UsageHistory
freshness_entry AccountStatus.quota_exceeded primary secondary = secondary
freshness_entry AccountStatus.rate_limited primary secondary = primary
freshness_entry _ primary secondary = none

-- The second condition: the cooldown is over and an entry was recorded after the block.
unfoldable pub is_refreshed :
    ℕ → Account → RuntimeState → Option ℕ → Option UsageHistory → Option UsageHistory → Bool
unfolding cooldown_ready
is_refreshed now account runtime blocked_at primary secondary =
    cooldown_ready now account runtime blocked_at
    && is_some blocked_at
    && is_beyond (recorded_of (freshness_entry account.status primary secondary))
        (get_or blocked_at 0)

-- `effective_runtime_reset`
unfoldable pub effective_runtime_reset :
    BalancerSettings
    → ℕ
    → Account
    → RuntimeState
    → Option UsageHistory
    → Option UsageHistory
    → Option ℕ
unfolding is_outdated is_refreshed
effective_runtime_reset settings now account runtime primary secondary =
    let blocked_at = effective_blocked_at account runtime in
    let reset = stored_reset account runtime in
    if is_outdated settings now account reset blocked_at secondary
      || is_refreshed now account runtime blocked_at primary secondary
    then none
    else reset

-- The call of `apply_usage_quota`.
unfoldable pub quota_of :
    BalancerSettings
    → ℕ
    → Account
    → RuntimeState
    → Option UsageHistory
    → Option UsageHistory
    → QuotaState
unfolding effective_runtime_reset
quota_of settings now account runtime primary secondary = apply_usage_quota now (record {
  status = account.status;
  primary_used = used_of primary;
  primary_reset = reset_of primary;
  primary_window_minutes = window_of primary;
  runtime_reset = effective_runtime_reset settings now account runtime primary secondary;
  secondary_used = used_of secondary;
  secondary_reset = reset_of secondary;
})

-- `next_blocked_at`
abbrev pub next_blocked_at : AccountStatus → Option ℕ → Option ℕ
next_blocked_at AccountStatus.quota_exceeded blocked_at = blocked_at
next_blocked_at AccountStatus.rate_limited blocked_at = blocked_at
next_blocked_at _ blocked_at = none

-- What the new tier writes to the runtime state.
unfoldable pub enter_tier : ℕ → ℕ → RuntimeState → RuntimeState
enter_tier now new_tier runtime =
    if new_tier == health_tier_draining
    then (if runtime.health_tier == health_tier_draining
        then record runtime { health_tier = new_tier }
        else record runtime {
          health_tier = new_tier;
          drain_entered_at = some now;
          probe_success_streak = 0;
        })
    else if new_tier == health_tier_healthy
    then record runtime {
      health_tier = new_tier;
      drain_entered_at = none;
      probe_success_streak = 0;
    }
    else record runtime { health_tier = new_tier }

-- The state that is made from the account and its runtime state, before the tier is evaluated.
abbrev pub untiered : Account → RuntimeState → QuotaState → Option UsageHistory → AccountState
untiered account runtime q secondary = record {
  account_id = account.id;
  status = q.status;
  used_percent = q.used_percent;
  reset_at = q.reset_at;
  blocked_at = next_blocked_at q.status (effective_blocked_at account runtime);
  cooldown_until = runtime.cooldown_until;
  secondary_used_percent = used_of secondary;
  secondary_reset_at = reset_of secondary;
  last_error_at = runtime.last_error_at;
  last_selected_at = runtime.last_selected_at;
  error_count = runtime.error_count;
  deactivation_reason = account.deactivation_reason;
  plan_type = some account.plan_type;
  capacity_credits = capacity_for_plan_secondary (some account.plan_type);
  health_tier = runtime.health_tier;
}

-- The part of `_state_from_account` that evaluates the tier.
unfoldable pub with_tier :
    BalancerSettings → ℕ → RuntimeState → AccountState → RuntimeState × AccountState
unfolding enter_tier
with_tier settings now runtime state =
    let new_tier =
      if settings.soft_drain_enabled
      then evaluate_health_tier settings.thresholds now runtime.drain_entered_at
          runtime.probe_success_streak state
      else health_tier_healthy in
    (enter_tier now new_tier runtime, record state { health_tier = new_tier })

-- `_state_from_account`: the runtime state after it, and the state.
unfoldable pub state_from_account :
    BalancerSettings
    → ℕ
    → Account
    → Option UsageHistory
    → Option UsageHistory
    → RuntimeState
    → RuntimeState × AccountState
unfolding quota_of with_tier effective_secondary_entry
state_from_account settings now account primary secondary_entry runtime =
    let secondary = effective_secondary_entry primary secondary_entry in
    let q = quota_of settings now account runtime primary secondary in
    with_tier settings now runtime (untiered account runtime q secondary)
