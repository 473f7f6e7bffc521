-- ===== src/Balancer/Runtime/Tests.antt =====
-- Runs of the marks and of the states that are made of accounts.
use codex_octopus.Base.{◌+◌, ◌≤◌, ◌≡◌, ◌↔◌, refl, true, not, none, some, [], ◌∷◌, arith}
use codex_octopus.Base.Text.{text}
use codex_octopus.Balancer.State.{AccountStatus, percent, seconds}
use codex_octopus.Balancer.Examine.{examine, skipped}
use codex_octopus.Balancer.Events.{UpstreamError, extract_reset_at}
use codex_octopus.Balancer.Health.{default_thresholds}
use codex_octopus.Balancer.Runtime.Usage.{UsageHistory, capacity_for_plan_secondary}
use codex_octopus.Balancer.Runtime.{
  Account, new_runtime, BalancerSettings, state_from_account, is_beyond, effective_secondary_entry,
}
use codex_octopus.Balancer.Runtime.Recovery.{state_from_account_recovers_iff}
use codex_octopus.Balancer.Runtime.Marks.{
  LoadBalancer, quota_mark, runtime_of, mark, persist_state_if_current, is_changed, state_for,
  record_errors, record_success, prune_runtime,
}
use codex_octopus.Balancer.Runtime.Survival.{marked_is_skipped, stale_selection_keeps_mark}

abbrev settings : BalancerSettings
settings = record {
  soft_drain_enabled = true;
  thresholds = default_thresholds;
  usage_refresh_interval_seconds = seconds 60;
}

abbrev account : Account
account = record {
  id = text "a";
  plan_type = text "plus";
  status = AccountStatus.active;
  deactivation_reason = none;
  reset_at = none;
  blocked_at = none;
}

abbrev exceeded : Account
exceeded = record account {
  status = AccountStatus.quota_exceeded;
  reset_at = some (seconds 3600);
  blocked_at = some (seconds 10);
}

abbrev balancer : LoadBalancer
balancer = record { runtime = []; accounts = account ∷ [] }

abbrev error : UpstreamError
error = record { message = none; resets_at = none; resets_in_seconds = none }

abbrev entry : UsageHistory
entry = record {
  used_percent = some (percent 20);
  reset_at = some (seconds 7200);
  window_minutes = some 10080;
  recorded_at = some (seconds 60);
}

knows_plan : capacity_for_plan_secondary (some (text " Plus ")) ≡ some 7560
unfolding capacity_for_plan_secondary
knows_plan = refl

-- Two errors are counted and a success clears them; an account that is gone is forgotten.
counts_errors :
    let failed = record_errors 5 2 account balancer in
    let calm = record_success account failed in
    ((runtime_of (text "a") failed.runtime).error_count ≡ 2)
    × ((runtime_of (text "a") calm.runtime).error_count ≡ 0)
    × (prune_runtime (text "b" ∷ []) calm.runtime ≡ [])
unfolding record_errors record_success prune_runtime
counts_errors = (refl, refl, refl)

marks_account :
    (mark (seconds 10) (quota_mark error) account balancer).accounts
    ≡ record account {
      status = AccountStatus.quota_exceeded;
      reset_at = some (seconds 3610);
      blocked_at = some (seconds 10);
    }
      ∷ []
unfolding mark extract_reset_at
marks_account = refl

state_from_account_recovers_iff_example :
    ((state_from_account settings (seconds 200) exceeded none (some entry) new_runtime).1.status
      ≡ AccountStatus.active)
    ↔ ((seconds 10 + seconds 120 ≤ seconds 200) × (is_beyond entry.recorded_at (seconds 10) ≡ true))
unfolding effective_secondary_entry
state_from_account_recovers_iff_example =
    state_from_account_recovers_iff settings (seconds 200) (seconds 10) (percent 20) exceeded
      new_runtime none (some entry) entry refl refl refl refl refl refl refl

marked_is_skipped_example :
    let runtime =
      runtime_of (text "a") (mark (seconds 10) (quota_mark error) account balancer).runtime in
    (examine
      (seconds 110)
      (state_from_account settings (seconds 100) account none (some entry) runtime).1).1
    ≡ skipped
marked_is_skipped_example =
    marked_is_skipped settings (seconds 10) (seconds 100) (seconds 110) (seconds 10 + seconds 120)
      (quota_mark error) account account none (some entry) balancer refl (omega arith)

stale_selection_keeps_mark_example :
    let rows = (mark (seconds 10) (quota_mark error) account balancer).accounts in
    persist_state_if_current account (state_for exceeded new_runtime) rows
    ≡ (rows, account, not (is_changed account (state_for exceeded new_runtime)))
stale_selection_keeps_mark_example =
    stale_selection_keeps_mark (seconds 10) (quota_mark error) account account
      (state_for exceeded new_runtime) balancer refl refl refl
