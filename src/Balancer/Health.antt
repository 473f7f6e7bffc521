-- ===== src/Balancer/Health.antt =====
-- `evaluate_health_tier` of app/core/balancer/logic.py.
use codex_octopus.Base.{
  sym, subst, List, [], ◌∷◌, In, ◌↔◌, ℕ, ◌+◌, ◌≤◌, ltb, leb, ◌==◌, ◌≡◌, refl, ◌⊎◌, inr, Bool, true,
  false, ◌&&◌, ◌||◌, Option, none, some, arith, if◌then◌else◌,
}
use codex_octopus.Balancer.State.{
  AccountState, AccountStatus, status_eq, seconds, percent, health_tier_healthy,
  health_tier_draining, health_tier_probing,
}

-- The thresholds, keyword arguments with defaults.
pub record HealthThresholds : Type 0 where
  pub drain_primary_threshold_pct : ℕ
  pub drain_secondary_threshold_pct : ℕ
  pub drain_error_window_seconds : ℕ
  pub drain_error_count_threshold : ℕ
  pub probe_quiet_seconds : ℕ
  pub probe_success_streak_required : ℕ

abbrev pub default_thresholds : HealthThresholds
default_thresholds = record {
  drain_primary_threshold_pct = percent 85;
  drain_secondary_threshold_pct = percent 90;
  drain_error_window_seconds = seconds 60;
  drain_error_count_threshold = 2;
  probe_quiet_seconds = seconds 60;
  probe_success_streak_required = 3;
}

-- `value is not None and value >= limit`
abbrev pub reaches : Option ℕ → ℕ → Bool
reaches none limit = false
reaches (some value) limit = leb limit value

-- `last_error_at is not None and current - last_error_at < window`
abbrev pub is_within : ℕ → ℕ → Option ℕ → Bool
is_within current window none = false
is_within current window (some at) = ltb current (at + window)

-- `drain_entered_at is not None and current - drain_entered_at >= probe_quiet_seconds`
abbrev pub has_elapsed : ℕ → ℕ → Option ℕ → Bool
has_elapsed current quiet none = false
has_elapsed current quiet (some at) = leb (at + quiet) current

unfoldable pub should_drain : HealthThresholds → ℕ → AccountState → Bool
should_drain limits current state =
    reaches state.used_percent limits.drain_primary_threshold_pct
    || reaches state.secondary_used_percent limits.drain_secondary_threshold_pct
    || (leb limits.drain_error_count_threshold state.error_count
        && is_within current limits.drain_error_window_seconds state.last_error_at)

-- The tier that follows, by the current one.
unfoldable pub next_tier : HealthThresholds → ℕ → Option ℕ → ℕ → Bool → ℕ → ℕ
next_tier limits current drain_entered_at probe_success_streak drain current_tier =
    if current_tier == health_tier_healthy
    then (if drain then health_tier_draining else health_tier_healthy)
    else if current_tier == health_tier_draining
    then (if drain
        then health_tier_draining
        else if has_elapsed current limits.probe_quiet_seconds drain_entered_at
        then health_tier_probing
        else health_tier_draining)
    else if current_tier == health_tier_probing
    then (if drain
        then health_tier_draining
        else if leb limits.probe_success_streak_required probe_success_streak
        then health_tier_healthy
        else health_tier_probing)
    else health_tier_healthy

unfoldable pub evaluate_health_tier : HealthThresholds → ℕ → Option ℕ → ℕ → AccountState → ℕ
evaluate_health_tier limits current drain_entered_at probe_success_streak state =
    if status_eq state.status AccountStatus.active
    then next_tier limits current drain_entered_at probe_success_streak
        (should_drain limits current state) state.health_tier
    else state.health_tier

-- The moves between tiers: a drained account comes back to the healthy tier by way of the probing
-- tier only.
abbrev pub IsTierMove : ℕ → ℕ → Type 0
IsTierMove tier after =
    (after ≡ tier)
    ⊎ (after ≡ health_tier_draining)
    ⊎ ((tier ≡ health_tier_draining) × (after ≡ health_tier_probing))
    ⊎ ((tier ≡ health_tier_probing) × (after ≡ health_tier_healthy))

next_tier-IsTierMove :
    (limits : HealthThresholds) (current : ℕ) (entered : Option ℕ) (streak : ℕ) (drains : Bool)
    (tier : ℕ)
    → tier ≤ 2
    → let after = next_tier limits current entered streak drains tier in
      IsTierMove tier after × (after ≤ 2)
unfolding next_tier
next_tier-IsTierMove limits current entered streak drains tier h = ground arith

-- One evaluation of a known tier makes one of the moves, and ends in a known tier.
pub evaluate_health_tier-IsTierMove :
    (limits : HealthThresholds) (current : ℕ) (entered : Option ℕ) (streak : ℕ)
    (state : AccountState)
    → state.health_tier ≤ 2
    → let after = evaluate_health_tier limits current entered streak state in
      IsTierMove state.health_tier after × (after ≤ 2)
unfolding evaluate_health_tier
evaluate_health_tier-IsTierMove limits current entered streak state h = ground (
  arith,
  next_tier-IsTierMove limits current entered streak (should_drain limits current state)
      state.health_tier h,
)

-- The tier of an active account in a known tier is decided on every branch: it drains exactly under
-- pressure or while its drain is younger than the quiet time, and is healthy exactly if it is not
-- under pressure and was healthy or has had enough probes in the probing tier.
pub evaluate_health_tier_active :
    (limits : HealthThresholds) (current : ℕ) (entered : Option ℕ) (streak : ℕ)
    (state : AccountState)
    → state.health_tier ≤ 2
    → state.status ≡ AccountStatus.active
    → let drains = should_drain limits current state in
      let after = evaluate_health_tier limits current entered streak state in
      ((after ≡ health_tier_draining) ↔ (
        (drains ≡ true)
        ⊎ ((state.health_tier ≡ health_tier_draining)
            × (has_elapsed current limits.probe_quiet_seconds entered ≡ false))))
      × ((after ≡ health_tier_healthy) ↔ (
          (drains ≡ false)
          × ((state.health_tier ≡ health_tier_healthy)
              ⊎ ((state.health_tier ≡ health_tier_probing)
                  × (limits.probe_success_streak_required ≤ streak)))))
unfolding evaluate_health_tier next_tier
evaluate_health_tier_active limits current entered streak state h a = (ground arith, ground arith)

-- A run of evaluations, each of an account in the tier where the one before ended; all else about
-- the account may change in between.
pub data Run (limits : HealthThresholds) (start : ℕ) : ℕ → List ℕ → Type 0 where
  here : Run limits start start []
  next :
      {tier : ℕ} {past : List ℕ} (current : ℕ) (entered : Option ℕ) (streak : ℕ)
      (state : AccountState)
      → Run limits start tier past
      → state.health_tier ≡ tier
      → Run limits start
          (evaluate_health_tier limits current entered streak state)
          (evaluate_health_tier limits current entered streak state ∷ past)

-- A known tier that was reached from the draining one by way of the probing one, or is the first.
HasProbed : ℕ → List ℕ → Type 0
HasProbed end past = (end ≤ 2) × (In health_tier_probing past ⊎ (end ≡ health_tier_draining))

move_probes :
    (tier after : ℕ) (past : List ℕ)
    → IsTierMove tier after × (after ≤ 2)
    → HasProbed tier past
    → HasProbed after (after ∷ past)
unfolding HasProbed
move_probes tier after past m h = ground arith

Run-HasProbed :
    {limits : HealthThresholds} {end : ℕ} {past : List ℕ}
    → Run limits health_tier_draining end past
    → HasProbed end past
unfolding HasProbed
Run-HasProbed here = (ground arith, inr refl)
Run-HasProbed {limits} (next {tier} {past} current entered streak state r e) =
    let h = subst (λ t. HasProbed t past) (sym e) (Run-HasProbed r) in
    move_probes state.health_tier (evaluate_health_tier limits current entered streak state) past
      (evaluate_health_tier-IsTierMove limits current entered streak state h.0) h

-- Whatever evaluations follow on an account in the draining tier, it is not in the healthy tier
-- before one of them has ended in the probing tier: one has, or the account still drains.
pub Run-probes :
    (limits : HealthThresholds) (end : ℕ) (past : List ℕ)
    → Run limits health_tier_draining end past
    → In health_tier_probing past ⊎ (end ≡ health_tier_draining)
unfolding HasProbed
Run-probes limits end past r = (Run-HasProbed r).1
