-- ===== src/Balancer/Runtime/Recovery.antt =====
-- When an account comes back from an exceeded quota: `_state_from_account` of
-- app/modules/proxy/load_balancer.py.
use codex_octopus.Base.{
  ℕ, ◌+◌, ◌≤◌, leb, ◌≡◌, refl, sym, ◌∙◌, ◌↔◌, inl, inr, true, false, Option, none, some, arith,
  if◌then◌else◌, Bool-cases,
}
use codex_octopus.Balancer.State.{AccountState, AccountStatus, seconds, percent}
use codex_octopus.Balancer.Events.{quota_exceeded_cooldown_seconds}
use codex_octopus.Balancer.Quota.{
  QuotaInputs, apply_usage_quota, apply_secondary, apply_primary, keep_or_lift, is_running, is_full,
}
use codex_octopus.Balancer.Runtime.Usage.{UsageHistory}
use codex_octopus.Balancer.Runtime.{
  Account, RuntimeState, BalancerSettings, state_from_account, quota_of, with_tier,
  effective_secondary_entry, effective_runtime_reset, stored_reset, effective_blocked_at,
  is_outdated, is_refreshed, used_of, is_beyond, reset_of, window_of, untiered,
}

-- With room in both windows an exceeded quota is lifted exactly if no reset lies ahead.
room_lifts :
    (now used : ℕ) (i : QuotaInputs)
    → i.status ≡ AccountStatus.quota_exceeded
    → i.secondary_used ≡ some used
    → leb (percent 100) used ≡ false
    → is_full i.primary_used ≡ false
    → ((apply_usage_quota now i).status ≡ AccountStatus.active)
      ↔ (is_running now i.runtime_reset ≡ false)
unfolding apply_usage_quota apply_secondary apply_primary keep_or_lift
room_lifts now used i s u room primary = by_primary i.primary_used refl
  where
    by_primary :
        (p : Option ℕ)
        → p ≡ i.primary_used
        → ((apply_usage_quota now i).status ≡ AccountStatus.active)
          ↔ (is_running now i.runtime_reset ≡ false)
    by_primary none e = ground arith
    by_primary (some p) e = ground arith

-- A stored block lets the reset go exactly when the cooldown is over and an entry is newer.
abbrev pub IsRefreshed : ℕ → ℕ → UsageHistory → Type 0
IsRefreshed now blocked entry =
    (blocked + seconds quota_exceeded_cooldown_seconds ≤ now)
    × (is_beyond entry.recorded_at blocked ≡ true)

module _ (settings : BalancerSettings) (now blocked : ℕ) (account : Account)
    (runtime : RuntimeState) (primary : Option UsageHistory) (entry : UsageHistory)
    (exceeded : account.status ≡ AccountStatus.quota_exceeded)
    (stored : account.blocked_at ≡ some blocked) where
  block_is_stored : effective_blocked_at account runtime ≡ some blocked
  block_is_stored = rw stored refl

  never_outdated :
      (reset : Option ℕ)
      → is_outdated settings now account reset (some blocked) (some entry) ≡ false
  unfolding is_outdated
  never_outdated reset = ground arith

  is_refreshed-IsRefreshed :
      (is_refreshed now account runtime (some blocked) primary (some entry) ≡ true)
      ↔ IsRefreshed now blocked entry
  unfolding is_refreshed
  is_refreshed-IsRefreshed = rw exceeded (ground arith, ground arith)

  -- The reset that counts.
  reset_lem : effective_runtime_reset settings now account runtime primary (some entry) ≡ (
      if is_refreshed now account runtime (some blocked) primary (some entry)
      then none
      else stored_reset account runtime)
  unfolding effective_runtime_reset
  reset_lem =
      rw (effective_runtime_reset, block_is_stored, never_outdated (stored_reset account runtime))
        refl

  lifts_iff :
      is_running now (stored_reset account runtime) ≡ true
      → (is_running now (effective_runtime_reset settings now account runtime primary (some entry))
          ≡ false)
        ↔ IsRefreshed now blocked entry
  lifts_iff running =
      rw reset_lem
        (elim (Bool-cases (is_refreshed now account runtime (some blocked) primary (some entry)))
          as (λ _.
            (is_running now (
                if is_refreshed now account runtime (some blocked) primary (some entry)
                then none
                else stored_reset account runtime)
              ≡ false)
            ↔ IsRefreshed now blocked entry) [
              | inl yes_fresh ↦ rw yes_fresh (λ _. is_refreshed-IsRefreshed.0 yes_fresh, λ _. refl)
              | inr not_fresh ↦
                  rw not_fresh
                    (λ e. absurd (cc), λ f. absurd (let t = is_refreshed-IsRefreshed.1 f in cc))
            ])

  quota_lifts_iff :
      (used : ℕ)
      → is_running now (stored_reset account runtime) ≡ true
      → entry.used_percent ≡ some used
      → leb (percent 100) used ≡ false
      → is_full (used_of primary) ≡ false
      → ((quota_of settings now account runtime primary (some entry)).status ≡ AccountStatus.active)
        ↔ IsRefreshed now blocked entry
  unfolding quota_of
  quota_lifts_iff used running u room primary_room =
      let reset = lifts_iff running in
      let room_lift =
        room_lifts now used
          (record {
            status = account.status;
            primary_used = used_of primary;
            primary_reset = reset_of primary;
            primary_window_minutes = window_of primary;
            runtime_reset =
                effective_runtime_reset settings now account runtime primary (some entry);
            secondary_used = entry.used_percent;
            secondary_reset = entry.reset_at;
          })
          exceeded u room primary_room in
      (λ e. reset.0 (room_lift.0 e), λ f. room_lift.1 (reset.1 f))

with_tier-status :
    (settings : BalancerSettings) (now : ℕ) (runtime : RuntimeState) (state : AccountState)
    → (with_tier settings now runtime state).1.status ≡ state.status
unfolding with_tier
with_tier-status settings now runtime state = refl

-- An account that has exceeded its quota, with a stored block and a reset that lies ahead, and with room in both
-- windows, is active again exactly if two minutes have passed since the block and the entry of its
-- quota window was recorded after the block.
pub state_from_account_recovers_iff :
    (settings : BalancerSettings) (now blocked used : ℕ) (account : Account)
    (runtime : RuntimeState) (primary secondary : Option UsageHistory) (entry : UsageHistory)
    → account.status ≡ AccountStatus.quota_exceeded
    → account.blocked_at ≡ some blocked
    → is_running now (stored_reset account runtime) ≡ true
    → effective_secondary_entry primary secondary ≡ some entry
    → entry.used_percent ≡ some used
    → leb (percent 100) used ≡ false
    → is_full (used_of primary) ≡ false
    → ((state_from_account settings now account primary secondary runtime).1.status
        ≡ AccountStatus.active)
      ↔ ((blocked + seconds 120 ≤ now) × (is_beyond entry.recorded_at blocked ≡ true))
unfolding state_from_account
state_from_account_recovers_iff settings now blocked used account runtime primary secondary entry
      exceeded stored running found u room primary_room =
    let lifts =
      quota_lifts_iff settings now blocked account runtime primary entry exceeded stored used
        running u room primary_room in
    let status = with_tier-status settings now runtime (
      untiered account runtime (quota_of settings now account runtime primary (some entry))
        (some entry)) in
    rw (state_from_account, found) (λ e. lifts.0 (sym status ∙ e), λ f. status ∙ lifts.1 f)
