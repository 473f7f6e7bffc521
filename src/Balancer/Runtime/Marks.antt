-- ===== src/Balancer/Runtime/Marks.antt =====
-- The handlers of the balancer that mark accounts, with what they keep and what they write:
-- app/modules/proxy/load_balancer.py and the two updates of app/modules/accounts/repository.py. The
-- lock of an account makes each handler one step. The cache of selection inputs is left out.
use codex_octopus.Base.{
  ℕ, ◌+◌, ltb, ◌==◌, Bool, true, false, not, ◌&&◌, ◌||◌, Option, none, some, get_or, if◌then◌else◌,
  is_set, List, [], ◌∷◌, any, map, filter,
}
use codex_octopus.Base.Text.{Text, text_eq}
use codex_octopus.Balancer.State.{AccountState, status_eq, health_tier_probing}
use codex_octopus.Balancer.Select.{whole_seconds}
use codex_octopus.Balancer.Events.{
  UpstreamError, handle_rate_limit, handle_quota_exceeded, handle_permanent_failure,
}
use codex_octopus.Balancer.Runtime.Usage.{capacity_for_plan_secondary}
use codex_octopus.Balancer.Runtime.{Account, RuntimeState, new_runtime, effective_blocked_at}

-- The runtime states by account, and the table of accounts.
pub record LoadBalancer : Type 0 where
  pub runtime : List (Text × RuntimeState)
  pub accounts : List Account

abbrev pub find_runtime : Text → List (Text × RuntimeState) → Option RuntimeState
find_runtime id [] = none
find_runtime id ((key, runtime) ∷ rest) =
    if text_eq key id then some runtime else find_runtime id rest

-- `self._runtime.setdefault(account.id, RuntimeState())`
abbrev pub runtime_of : Text → List (Text × RuntimeState) → RuntimeState
runtime_of id entries = get_or (find_runtime id entries) new_runtime

abbrev pub put_runtime :
    Text → RuntimeState → List (Text × RuntimeState) → List (Text × RuntimeState)
put_runtime id runtime [] = (id, runtime) ∷ []
put_runtime id runtime ((key, old) ∷ rest) =
    if text_eq key id then (key, runtime) ∷ rest else (key, old) ∷ put_runtime id runtime rest

-- `_prune_runtime`
unfoldable pub prune_runtime : List Text → List (Text × RuntimeState) → List (Text × RuntimeState)
prune_runtime account_ids entries = filter (λ e. any (text_eq e.0) account_ids) entries

-- `_state_for`
unfoldable pub state_for : Account → RuntimeState → AccountState
state_for account runtime = record {
  account_id = account.id;
  status = account.status;
  used_percent = none;
  reset_at = runtime.reset_at;
  blocked_at = effective_blocked_at account runtime;
  cooldown_until = runtime.cooldown_until;
  secondary_used_percent = none;
  secondary_reset_at = none;
  last_error_at = runtime.last_error_at;
  last_selected_at = runtime.last_selected_at;
  error_count = runtime.error_count;
  deactivation_reason = account.deactivation_reason;
  plan_type = some account.plan_type;
  capacity_credits = capacity_for_plan_secondary (some account.plan_type);
  health_tier = 0;
}

abbrev pub option_eq : Option ℕ → Option ℕ → Bool
option_eq none none = true
option_eq none (some b) = false
option_eq (some a) none = false
option_eq (some a) (some b) = a == b

abbrev pub reason_eq : Option Text → Option Text → Bool
reason_eq none none = true
reason_eq none (some b) = false
reason_eq (some a) none = false
reason_eq (some a) (some b) = text_eq a b

-- `dirty`
unfoldable pub is_dirty : Bool → Account → AccountState → RuntimeState → Bool
is_dirty selected account state runtime =
    not (option_eq runtime.reset_at state.reset_at)
    || not (option_eq runtime.cooldown_until state.cooldown_until)
    || not (option_eq runtime.blocked_at state.blocked_at)
    || not (option_eq runtime.last_error_at state.last_error_at)
    || not (runtime.error_count == state.error_count)
    || not (status_eq account.status state.status)
    || not (reason_eq account.deactivation_reason state.deactivation_reason)
    || selected

abbrev pub synced : ℕ → Bool → AccountState → RuntimeState → RuntimeState
synced now selected state runtime = record runtime {
  reset_at = state.reset_at;
  cooldown_until = state.cooldown_until;
  blocked_at = state.blocked_at;
  last_error_at = state.last_error_at;
  error_count = state.error_count;
  last_selected_at = if selected then some now else runtime.last_selected_at;
}

abbrev pub is_expected : Option ℕ → RuntimeState → Bool
is_expected none runtime = true
is_expected (some version) runtime = runtime.version == version

-- `_sync_runtime_state`: the runtime state after it, and whether it was synced.
unfoldable pub sync_runtime_state :
    ℕ → Account → AccountState → Bool → Option ℕ → RuntimeState → RuntimeState × Bool
unfolding is_dirty
sync_runtime_state now account state selected expected_version runtime =
    if not (is_expected expected_version runtime)
    then (if selected
        then (record runtime { last_selected_at = some now; version = runtime.version + 1 }, false)
        else (runtime, false))
    else (let after = synced now selected state runtime in
        if is_dirty selected account state runtime
        then (record after { version = after.version + 1 }, true)
        else (after, true))

-- `int(value) if value else None`
abbrev pub column_of : Option ℕ → Option ℕ
column_of value = if is_set value then some (whole_seconds (get_or value 0)) else none

-- The columns that a state is stored in.
abbrev pub stored_in : AccountState → Account → Account
stored_in state account = record account {
  status = state.status;
  deactivation_reason = state.deactivation_reason;
  reset_at = column_of state.reset_at;
  blocked_at = column_of state.blocked_at;
}

-- `status_changed or reason_changed or reset_changed or blocked_changed`
unfoldable pub is_changed : Account → AccountState → Bool
is_changed account state =
    not (status_eq account.status state.status)
    || not (reason_eq account.deactivation_reason state.deactivation_reason)
    || not (option_eq account.reset_at (column_of state.reset_at))
    || not (option_eq account.blocked_at (column_of state.blocked_at))

-- `update_status`
unfoldable pub update_status : Text → AccountState → List Account → List Account
update_status id state rows =
    map (λ row. if text_eq row.id id then stored_in state row else row) rows

-- The row has the identifier and the columns that are expected.
abbrev pub is_current_row : Account → Account → Bool
is_current_row expected row =
    text_eq row.id expected.id
    && status_eq row.status expected.status
    && reason_eq row.deactivation_reason expected.deactivation_reason
    && option_eq row.reset_at expected.reset_at
    && option_eq row.blocked_at expected.blocked_at

-- `update_status_if_current`
unfoldable pub update_status_if_current :
    Account → AccountState → List Account → List Account × Bool
update_status_if_current expected state rows = (
  map (λ row. if is_current_row expected row then stored_in state row else row) rows,
  any (is_current_row expected) rows,
)

-- `_persist_state`: the table, and the account that the caller holds.
unfoldable pub persist_state : Account → AccountState → List Account → List Account × Account
unfolding is_changed update_status
persist_state account state rows =
    if is_changed account state
    then (update_status account.id state rows, stored_in state account)
    else (rows, account)

-- `_persist_state_if_current`: the table, the account that the caller holds, and whether it was current.
unfoldable pub persist_state_if_current :
    Account → AccountState → List Account → List Account × Account × Bool
unfolding is_changed update_status_if_current
persist_state_if_current account state rows =
    if is_changed account state
    then (let (rows', updated) = update_status_if_current account state rows in
        (rows', if updated then stored_in state account else account, updated))
    else (rows, account, true)

-- The three handlers differ in the change they make to the state.
pub data Mark : Type 0 where
  rate_limit_mark : ℕ → UpstreamError → Mark
  quota_mark : UpstreamError → Mark
  permanent_mark : Text → Mark

unfoldable pub handle : ℕ → Mark → AccountState → AccountState
unfolding handle_rate_limit handle_quota_exceeded handle_permanent_failure
handle now (rate_limit_mark jitter error) state = handle_rate_limit jitter now error state
handle now (quota_mark error) state = handle_quota_exceeded now error state
handle now (permanent_mark error_code) state = handle_permanent_failure error_code state

-- `mark_rate_limit`, `mark_quota_exceeded` and `mark_permanent_failure`.
unfoldable pub mark : ℕ → Mark → Account → LoadBalancer → LoadBalancer
unfolding handle state_for sync_runtime_state persist_state
mark now m account balancer =
    let runtime = runtime_of account.id balancer.runtime in
    let state = handle now m (state_for account runtime) in
    record {
      runtime =
          put_runtime account.id (sync_runtime_state now account state false none runtime).0
            balancer.runtime;
      accounts = (persist_state account state balancer.accounts).0;
    }

abbrev pub is_probing : RuntimeState → Bool
is_probing runtime = runtime.health_tier == health_tier_probing

-- `record_errors`
unfoldable pub record_errors : ℕ → ℕ → Account → LoadBalancer → LoadBalancer
unfolding state_for sync_runtime_state persist_state_if_current
record_errors now count account balancer =
    if ltb count 1
    then balancer
    else (let before = runtime_of account.id balancer.runtime in
        let state = state_for account before in
        let failed = record state {
          error_count = state.error_count + count;
          last_error_at = some now;
        } in
        let runtime = (sync_runtime_state now account failed false none before).0 in
        record {
          runtime =
              put_runtime account.id
                (if is_probing runtime
                  then record runtime { probe_success_streak = 0 }
                  else runtime)
                balancer.runtime;
          accounts = (persist_state_if_current account failed balancer.accounts).0;
        })

abbrev pub without_errors : RuntimeState → RuntimeState
without_errors runtime =
    if ltb 0 runtime.error_count
    then record runtime { error_count = 0; last_error_at = none; version = runtime.version + 1 }
    else runtime

abbrev pub with_probe : RuntimeState → RuntimeState
with_probe runtime =
    if is_probing runtime
    then record runtime {
      probe_success_streak = runtime.probe_success_streak + 1;
      version = runtime.version + 1;
    }
    else runtime

-- `record_success`
unfoldable pub record_success : Account → LoadBalancer → LoadBalancer
record_success account balancer = elim (find_runtime account.id balancer.runtime) [
  | none ↦ balancer
  | some runtime ↦ record balancer {
    runtime = put_runtime account.id (with_probe (without_errors runtime)) balancer.runtime;
  }
]
