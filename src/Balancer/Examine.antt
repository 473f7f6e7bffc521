-- ===== src/Balancer/Examine.antt =====
-- The loop over the candidates at the head of `select_account` (app/core/balancer/logic.py): what
-- it does to one state, and where it puts it.
use codex_octopus.Base.{
  ℕ, ◌-◌, ◌*◌, ◌^◌, ◌≤◌, ◌<◌, min, ltb, leb, ◌≡◌, refl, ◌≢◌, ◌↔◌, ◌⊎◌, Bool, true, false, ◌&&◌,
  Option, none, some, get_or, arith, if◌then◌else◌, is_set,
}
use codex_octopus.Balancer.State.{AccountState, AccountStatus, seconds}

-- `continue`, `in_error_backoff.append(state)`, `available.append(state)`
pub data Verdict : Type 0 where
  skipped in_error_backoff available : Verdict

-- `limit and current >= limit`
abbrev pub is_due : ℕ → Option ℕ → Bool
is_due current limit = is_set limit && leb (get_or limit 0) current

-- `limit and current < limit`
abbrev pub is_pending : ℕ → Option ℕ → Bool
is_pending current limit = is_set limit && ltb current (get_or limit 0)

-- `min(300, 30 * (2 ** (error_count - 3)))`, called with a count of at least 3.
unfoldable pub error_backoff : ℕ → ℕ
error_backoff error_count = seconds (min 300 (30 * 2 ^ (error_count - 3)))

-- The three recoveries.
abbrev cooled : AccountState → AccountState
cooled state = record state { cooldown_until = none; last_error_at = none; error_count = 0 }

abbrev unlimited : AccountState → AccountState
unlimited state = record state { status = AccountStatus.active; error_count = 0; reset_at = none }

abbrev refilled : AccountState → AccountState
refilled state = record state {
  status = AccountStatus.active;
  used_percent = some 0;
  reset_at = none;
}

-- The test of the error count, the last of the loop's body.
unfoldable pub check_errors : ℕ → AccountState → AccountState × Verdict
check_errors current state =
    if leb 3 state.error_count
    then (if is_set state.last_error_at
          && ltb (current - get_or state.last_error_at 0) (error_backoff state.error_count)
        then (state, in_error_backoff)
        else (record state { error_count = 0; last_error_at = none }, available))
    else (state, available)

-- The two tests of the cooldown: one that ended is cleared.
unfoldable pub check_cooldown : ℕ → AccountState → AccountState × Verdict
unfolding check_errors
check_cooldown current state =
    if is_due current state.cooldown_until
    then check_errors current (cooled state)
    else if is_pending current state.cooldown_until
    then (state, skipped)
    else check_errors current state

-- The tests of the status: a limit whose reset has come is lifted.
unfoldable pub check_status : AccountStatus → ℕ → AccountState → AccountState × Verdict
unfolding check_cooldown
check_status AccountStatus.deactivated current state = (state, skipped)
check_status AccountStatus.paused current state = (state, skipped)
check_status AccountStatus.rate_limited current state =
    if is_due current state.reset_at
    then check_cooldown current (unlimited state)
    else (state, skipped)
check_status AccountStatus.quota_exceeded current state =
    if is_due current state.reset_at
    then check_cooldown current (refilled state)
    else (state, skipped)
check_status AccountStatus.active current state = check_cooldown current state

unfoldable pub examine : ℕ → AccountState → AccountState × Verdict
unfolding check_status
examine current state = check_status state.status current state

-- What an account that may serve looks like: active, out of cooldown, and with fewer than three
-- errors.
pub record IsReady (current : ℕ) (state : AccountState) : Type 0 where
  pub is_active : state.status ≡ AccountStatus.active
  pub is_warm : is_pending current state.cooldown_until ≡ false
  pub is_sound : state.error_count < 3

-- An account held back: active and out of cooldown, with its last error less than a backoff ago.
pub record IsBackingOff (current : ℕ) (state : AccountState) : Type 0 where
  pub is_active : state.status ≡ AccountStatus.active
  pub is_warm : is_pending current state.cooldown_until ≡ false
  pub is_failing : 3 ≤ state.error_count
  pub is_recent : current - get_or state.last_error_at 0 < error_backoff state.error_count

abbrev pub Sound : ℕ → AccountState × Verdict → Type 0
Sound current (state, skipped) = Unit {0}
Sound current (state, in_error_backoff) = IsBackingOff current state
Sound current (state, available) = IsReady current state

check_errors-Sound :
    (current : ℕ) (state : AccountState)
    → state.status ≡ AccountStatus.active
    → is_pending current state.cooldown_until ≡ false
    → Sound current (check_errors current state)
unfolding check_errors
check_errors-Sound current state a w = ground arith

check_cooldown-Sound :
    (current : ℕ) (state : AccountState)
    → state.status ≡ AccountStatus.active
    → Sound current (check_cooldown current state)
unfolding check_cooldown
check_cooldown-Sound current state a =
    ground (arith, check_errors-Sound current state a, check_errors-Sound current (cooled state) a)

check_status-Sound :
    (status : AccountStatus) (current : ℕ) (state : AccountState)
    → state.status ≡ status
    → Sound current (check_status status current state)
unfolding check_status
check_status-Sound AccountStatus.deactivated current state e = tt
check_status-Sound AccountStatus.paused current state e = tt
check_status-Sound AccountStatus.rate_limited current state e =
    ground (arith, check_cooldown-Sound current (unlimited state) refl)
check_status-Sound AccountStatus.quota_exceeded current state e =
    ground (arith, check_cooldown-Sound current (refilled state) refl)
check_status-Sound AccountStatus.active current state e = check_cooldown-Sound current state e

-- The loop lets through only accounts that are ready, and holds back only those in a backoff.
pub examine-Sound : (current : ℕ) (state : AccountState) → Sound current (examine current state)
unfolding examine
examine-Sound current state = check_status-Sound state.status current state refl

-- Why an account is passed over, said of the account as the caller passes it.
abbrev pub IsBlocked : AccountStatus → ℕ → AccountState → Type 0
IsBlocked AccountStatus.deactivated current state = Unit
IsBlocked AccountStatus.paused current state = Unit
IsBlocked AccountStatus.rate_limited current state =
    (is_due current state.reset_at ≡ false) ⊎ (is_pending current state.cooldown_until ≡ true)
IsBlocked AccountStatus.quota_exceeded current state =
    (is_due current state.reset_at ≡ false) ⊎ (is_pending current state.cooldown_until ≡ true)
IsBlocked AccountStatus.active current state = is_pending current state.cooldown_until ≡ true

check_errors_keeps :
    (current : ℕ) (state : AccountState)
    → let (after, verdict) = check_errors current state in
      (verdict ≢ skipped)
      × (after.status ≡ state.status)
      × (after.cooldown_until ≡ state.cooldown_until)
unfolding check_errors
check_errors_keeps current state = ground arith

check_cooldown_skips :
    (current : ℕ) (state : AccountState)
    → ((check_cooldown current state).1 ≡ skipped)
      ↔ (is_pending current state.cooldown_until ≡ true)
unfolding check_cooldown
check_cooldown_skips current state =
    ground (arith, check_errors_keeps current state, check_errors_keeps current (cooled state))

check_status_skips :
    (status : AccountStatus) (current : ℕ) (state : AccountState)
    → ((check_status status current state).1 ≡ skipped) ↔ IsBlocked status current state
unfolding check_status
check_status_skips AccountStatus.deactivated current state = (λ _. tt, λ _. refl)
check_status_skips AccountStatus.paused current state = (λ _. tt, λ _. refl)
check_status_skips AccountStatus.rate_limited current state =
    ground (arith, check_cooldown_skips current (unlimited state))
check_status_skips AccountStatus.quota_exceeded current state =
    ground (arith, check_cooldown_skips current (refilled state))
check_status_skips AccountStatus.active current state = check_cooldown_skips current state

-- The loop passes an account over exactly if it is paused or deactivated, or is limited and its reset
-- has not come or it is in a cooldown, or is active and in a cooldown.
pub examine_skips :
    (current : ℕ) (state : AccountState)
    → ((examine current state).1 ≡ skipped) ↔ IsBlocked state.status current state
unfolding examine
examine_skips current state = check_status_skips state.status current state

check_errors_again :
    (current : ℕ) (state : AccountState)
    → check_errors current (check_errors current state).0 ≡ check_errors current state
unfolding check_errors
check_errors_again current state = ground arith

check_cooldown_again :
    (current : ℕ) (state : AccountState)
    → (check_cooldown current (check_cooldown current state).0 ≡ check_cooldown current state)
      × ((check_cooldown current state).0.status ≡ state.status)
unfolding check_cooldown
check_cooldown_again current state = ground (
  arith,
  check_errors_keeps current state,
  check_errors_again current state,
  check_errors_keeps current (cooled state),
  check_errors_again current (cooled state),
)

check_status_again :
    (status : AccountStatus) (current : ℕ) (state : AccountState)
    → state.status ≡ status
    → examine current (check_status status current state).0 ≡ check_status status current state
unfolding examine
check_status_again AccountStatus.deactivated current state e = rw (e, check_status)
check_status_again AccountStatus.paused current state e = rw (e, check_status)
check_status_again AccountStatus.rate_limited current state e =
    ground (arith, check_cooldown_again current (unlimited state))
check_status_again AccountStatus.quota_exceeded current state e =
    ground (arith, check_cooldown_again current (refilled state))
check_status_again AccountStatus.active current state e =
    ground (arith, check_cooldown_again current state)

-- At one moment the loop changes an account at most once: a second look finds it as it is.
pub examine_idem :
    (current : ℕ) (state : AccountState)
    → examine current (examine current state).0 ≡ examine current state
unfolding examine
examine_idem current state = check_status_again state.status current state refl
