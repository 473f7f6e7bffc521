-- ===== src/Balancer/Events.antt =====
-- The handlers of upstream failures in app/core/balancer/logic.py, and the failover decision. The
-- code reads the clock at several places of a handler; the model takes one reading, `now`.
use codex_octopus.Base.{
  ℕ, ◌+◌, ◌≤◌, ◌<◌, leb, ◌≡◌, refl, ◌⊎◌, inr, Bool, true, false, Option, none, some, get_or, List,
  [], ◌∷◌, ◌++◌, arith, if◌then◌else◌, is_empty, is_some, ◌↔◌, ◌≢◌,
}
use codex_octopus.Base.Text.{Text, text}
use codex_octopus.Balancer.State.{AccountState, AccountStatus, seconds, percent}
use codex_octopus.Balancer.Capacity.{lookup_text}
use codex_octopus.Balancer.Select.{whole_seconds}
use codex_octopus.Balancer.Examine.{
  skipped, available, examine, check_status, check_cooldown, check_errors, examine_skips,
}
use codex_octopus.Balancer.RetryAfter.{parse_retry_after, backoff_seconds}

pub record UpstreamError : Type 0 where
  pub message : Option Text
  pub resets_at : Option ℕ
  pub resets_in_seconds : Option ℕ

-- `_extract_reset_at`
unfoldable pub extract_reset_at : ℕ → UpstreamError → Option ℕ
extract_reset_at now error = elim error.resets_at [
  | some reset_at ↦ some (whole_seconds reset_at)
  | none ↦ elim error.resets_in_seconds [
    | some reset_in ↦ some (whole_seconds (now + reset_in))
    | none ↦ none
  ]
]

-- `parse_retry_after(message) if message else None`
abbrev pub message_delay : Option Text → Option ℕ
message_delay none = none
message_delay (some message) = if is_empty message then none else parse_retry_after message

unfoldable pub handle_rate_limit : ℕ → ℕ → UpstreamError → AccountState → AccountState
handle_rate_limit jitter now error state =
    let error_count = state.error_count + 1 in
    let delay = get_or (message_delay error.message) (backoff_seconds jitter error_count) in
    record state {
      status = AccountStatus.rate_limited;
      error_count = error_count;
      last_error_at = some now;
      blocked_at = some now;
      reset_at = elim (extract_reset_at now error) [ some at ↦ some at | none ↦ state.reset_at ];
      cooldown_until = some (now + delay);
    }

abbrev pub quota_exceeded_cooldown_seconds : ℕ
quota_exceeded_cooldown_seconds = 120

unfoldable pub handle_quota_exceeded : ℕ → UpstreamError → AccountState → AccountState
handle_quota_exceeded now error state = record state {
  status = AccountStatus.quota_exceeded;
  used_percent = some (percent 100);
  blocked_at = some now;
  cooldown_until = some (now + seconds quota_exceeded_cooldown_seconds);
  reset_at = some (get_or (extract_reset_at now error) (whole_seconds (now + seconds 3600)));
}

abbrev pub permanent_failure_codes : List (Text × Text)
permanent_failure_codes =
    (text "refresh_token_expired", text "Refresh token expired - re-login required")
    ∷ (text "refresh_token_reused", text "Refresh token was reused - re-login required")
    ∷ (text "refresh_token_invalidated", text "Refresh token was revoked - re-login required")
    ∷ (text "account_deactivated", text "Account has been deactivated")
    ∷ (text "account_suspended", text "Account has been suspended")
    ∷ (text "account_deleted", text "Account has been deleted")
    ∷ []

unfoldable pub handle_permanent_failure : Text → AccountState → AccountState
handle_permanent_failure error_code state = record state {
  status = AccountStatus.deactivated;
  deactivation_reason = some (
      lookup_text error_code permanent_failure_codes
        (text "Authentication failed: " ++ error_code));
  blocked_at = none;
}

pub data FailureClass : Type 0 where
  rate_limit quota retryable_transient non_retryable : FailureClass

pub data FailoverAction : Type 0 where
  failover_next surface : FailoverAction

abbrev is_retryable : FailureClass → Bool
is_retryable non_retryable = false
is_retryable _ = true

-- `candidates_remaining <= 0` on a count.
unfoldable pub failover_decision : FailureClass → Bool → ℕ → FailoverAction
failover_decision failure_class downstream_visible candidates_remaining =
    if downstream_visible
    then surface
    else if leb candidates_remaining 0
    then surface
    else if is_retryable failure_class
    then failover_next
    else surface

-- The next account is tried exactly if nothing has reached the client, a candidate is left, and the
-- failure is not of the class that no other account can mend.
pub failover_decision_iff :
    (failure_class : FailureClass) (downstream_visible : Bool) (candidates_remaining : ℕ)
    → (failover_decision failure_class downstream_visible candidates_remaining ≡ failover_next) ↔ (
        (downstream_visible ≡ false) × (0 < candidates_remaining) × (failure_class ≢ non_retryable))
unfolding failover_decision
failover_decision_iff failure_class downstream_visible candidates_remaining = ground arith

-- When the cooldown of a rate-limited account ends.
abbrev pub cooldown_end : ℕ → ℕ → UpstreamError → AccountState → ℕ
cooldown_end jitter now error state =
    now + get_or (message_delay error.message) (backoff_seconds jitter (state.error_count + 1))

-- A rate limit keeps the account out of every selection until its cooldown ends, whatever the
-- account was before.
pub handle_rate_limit_blocks :
    (jitter now current : ℕ) (error : UpstreamError) (state : AccountState)
    → current < cooldown_end jitter now error state
    → (examine current (handle_rate_limit jitter now error state)).1 ≡ skipped
unfolding handle_rate_limit
handle_rate_limit_blocks jitter now current error state h =
    (examine_skips current (handle_rate_limit jitter now error state)).1 (inr (ground arith))

-- Once the reset, which is not zero, and the cooldown have passed, the account is let through as an active
-- one with no errors.
pub handle_rate_limit_recovers :
    (jitter now current reset : ℕ) (error : UpstreamError) (state : AccountState)
    → extract_reset_at now error ≡ some reset
    → 0 < reset
    → reset ≤ current
    → cooldown_end jitter now error state ≤ current
    → let (after, verdict) = examine current (handle_rate_limit jitter now error state) in
      (verdict ≡ available) × (after.status ≡ AccountStatus.active) × (after.error_count ≡ 0)
unfolding handle_rate_limit examine check_status check_cooldown check_errors
handle_rate_limit_recovers jitter now current reset error state e p r c = ground arith

-- An exceeded quota keeps the account out for two minutes at least, and until its reset.
pub handle_quota_exceeded_blocks :
    (now current : ℕ) (error : UpstreamError) (state : AccountState)
    → (current < now + seconds 120)
      ⊎ (current < get_or (extract_reset_at now error) (whole_seconds (now + seconds 3600)))
    → (examine current (handle_quota_exceeded now error state)).1 ≡ skipped
unfolding handle_quota_exceeded
handle_quota_exceeded_blocks now current error state h =
    (examine_skips current (handle_quota_exceeded now error state)).1 (ground arith)

-- A permanent failure keeps the account out for good, and says why.
pub handle_permanent_failure_blocks :
    (current : ℕ) (error_code : Text) (state : AccountState)
    → ((examine current (handle_permanent_failure error_code state)).1 ≡ skipped)
      × (is_some (handle_permanent_failure error_code state).deactivation_reason ≡ true)
unfolding handle_permanent_failure
handle_permanent_failure_blocks current error_code state =
    ((examine_skips current (handle_permanent_failure error_code state)).1 tt, refl)
