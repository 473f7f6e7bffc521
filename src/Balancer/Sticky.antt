-- ===== src/Balancer/Sticky.antt =====
-- Sticky sessions: `_select_with_stickiness` of app/modules/proxy/load_balancer.py on the table of
-- app/modules/proxy/sticky_repository.py. The states that the code changes in place are returned.
pub mod Entries
pub mod Pinned
pub mod Keeps
pub mod Returns
mod Tests
use codex_octopus.Base.{
  ℕ, ◌+◌, leb, ltb, Bool, true, false, not, ◌&&◌, ◌||◌, Option, none, some, List, [], ◌∷◌,
  if◌then◌else◌, is_empty, is_some, any, filter,
}
use codex_octopus.Base.Text.{Text, text_eq}
use codex_octopus.Balancer.State.{AccountState, AccountStatus, status_eq, seconds}
use codex_octopus.Balancer.Select.{Routing, SelectionResult, select_account}
use codex_octopus.Balancer.Sticky.Entries.{
  StickySessionKind, prompt_cache, StickySession, delete, get_account_id, upsert, codex_session,
  sticky_thread,
}

-- The arguments, and the accounts of `account_map`. The routing also holds the generator's output for
-- the selection from all accounts; a selection of one account, and the deterministic probe, need none.
pub record StickyRequest : Type 0 where
  pub sticky_key : Text
  pub sticky_kind : Option StickySessionKind
  pub reallocate_sticky : Bool
  pub sticky_max_age_seconds : Option ℕ
  pub budget_threshold_pct : ℕ
  pub routing : Routing
  pub account_map : List Text

-- The table, the states of the accounts, and the result.
pub record StickyResult : Type 0 where
  pub rows : List StickySession
  pub states : List AccountState
  pub result : SelectionResult

abbrev pub find_state : Text → List AccountState → Option AccountState
find_state account_id [] = none
find_state account_id (state ∷ rest) =
    if text_eq state.account_id account_id then some state else find_state account_id rest

-- The change in place of the state that `find_state` finds.
abbrev pub put_state : Text → AccountState → List AccountState → List AccountState
put_state account_id new [] = []
put_state account_id new (state ∷ rest) =
    if text_eq state.account_id account_id
    then new ∷ rest
    else state ∷ put_state account_id new rest

abbrev pub single : List AccountState → AccountState → AccountState
single [] state = state
single (new ∷ rest) state = new

-- `select_account([pinned], ..., allow_backoff_fallback=False)`: the state after it, and the result.
unfoldable pub select_pinned : Routing → ℕ → AccountState → AccountState × SelectionResult
select_pinned routing now pinned =
    let (states, result) =
      select_account
        (record routing { allow_backoff_fallback = false; deterministic_probe = false }) now
        (pinned ∷ []) in
    (single states pinned, result)

abbrev pub is_prompt_cache : StickySessionKind → Bool
is_prompt_cache prompt_cache = true
is_prompt_cache _ = false

abbrev pub is_rate_limited : AccountState → Bool
is_rate_limited state = status_eq state.status AccountStatus.rate_limited

-- `used_percent is not None and used_percent > budget_threshold_pct`
abbrev pub is_above : ℕ → Option ℕ → Bool
is_above threshold none = false
is_above threshold (some used_percent) = ltb threshold used_percent

unfoldable pub budget_exhausted : StickySessionKind → ℕ → AccountState → Bool
budget_exhausted kind threshold pinned =
    is_prompt_cache kind && not (is_rate_limited pinned) && is_above threshold pinned.used_percent

-- `reset_at is not None and reset_at - now >= 600`
abbrev pub is_far : ℕ → Option ℕ → Bool
is_far now none = false
is_far now (some reset_at) = leb (now + seconds 600) reset_at

unfoldable pub rate_limit_far_away : StickySessionKind → ℕ → AccountState → Bool
rate_limit_far_away kind now pinned =
    is_prompt_cache kind && is_rate_limited pinned && is_far now pinned.reset_at

-- `_RECOVERABLE_STATUSES`
abbrev pub is_recoverable : AccountStatus → Bool
is_recoverable AccountStatus.active = true
is_recoverable AccountStatus.rate_limited = true
is_recoverable AccountStatus.quota_exceeded = true
is_recoverable _ = false

abbrev pub sticky_grace_period_seconds : ℕ
sticky_grace_period_seconds = 10

-- The entry is written again only where it has an age limit.
unfoldable pub keep_alive :
    StickyRequest → StickySessionKind → ℕ → Text → List StickySession → List StickySession
keep_alive request kind now account_id rows =
    if is_some request.sticky_max_age_seconds
    then upsert now request.sticky_key account_id kind rows
    else rows

abbrev pub remember :
    StickyRequest
    → StickySessionKind
    → ℕ
    → Bool
    → Option AccountState
    → List StickySession
    → List StickySession
remember request kind now persist_fallback none rows = rows
remember request kind now persist_fallback (some chosen) rows =
    if persist_fallback && any (text_eq chosen.account_id) request.account_map
    then upsert now request.sticky_key chosen.account_id kind rows
    else rows

-- The selection from all accounts, at the end.
unfoldable pub select_fallback :
    StickyRequest
    → StickySessionKind
    → ℕ
    → Bool
    → List StickySession
    → List AccountState
    → StickyResult
select_fallback request kind now persist_fallback rows states =
    let (states', chosen) =
      select_account
        (record request.routing { allow_backoff_fallback = true; deterministic_probe = false }) now
        states in
    record {
      rows = remember request kind now persist_fallback chosen.account rows;
      states = states';
      result = chosen;
    }

-- Whether the entry is deleted, rebound or preserved when the pinned account cannot serve.
unfoldable pub leave_pinned :
    StickyRequest
    → StickySessionKind
    → ℕ
    → Bool
    → AccountState
    → List StickySession
    → List AccountState
    → StickyResult
unfolding select_fallback
leave_pinned request kind now reallocate_sticky pinned rows states =
    if reallocate_sticky
    then select_fallback request kind now true (delete request.sticky_key kind rows) states
    else if not (is_recoverable pinned.status)
    then select_fallback request kind now true rows states
    else select_fallback request kind now (not (is_some request.sticky_max_age_seconds)) rows states

-- The result for the pinned account, or what comes after its failure.
abbrev pub serve_or :
    StickyRequest
    → StickySessionKind
    → ℕ
    → AccountState
    → List StickySession
    → List AccountState
    → SelectionResult
    → StickyResult
    → StickyResult
serve_or request kind now pinned rows states result otherwise = elim result.account [
  | none ↦ otherwise
  | some account ↦ record {
    rows = keep_alive request kind now pinned.account_id rows;
    states = states;
    result = result;
  }
]

-- The grace period works on a copy of the pinned state.
unfoldable pub after_pinned :
    StickyRequest
    → StickySessionKind
    → ℕ
    → Bool
    → AccountState
    → List StickySession
    → List AccountState
    → StickyResult
unfolding leave_pinned select_pinned
after_pinned request kind now reallocate_sticky pinned rows states =
    let leaving = leave_pinned request kind now reallocate_sticky pinned rows states in
    if not reallocate_sticky && is_rate_limited pinned
    then serve_or request kind now pinned rows states
        (select_pinned request.routing (now + seconds sticky_grace_period_seconds) pinned).1 leaving
    else leaving

-- Serves the pinned account if it can.
unfoldable pub try_pinned :
    StickyRequest
    → StickySessionKind
    → ℕ
    → Bool
    → AccountState
    → List StickySession
    → List AccountState
    → StickyResult
unfolding after_pinned select_pinned keep_alive
try_pinned request kind now reallocate_sticky pinned rows states =
    let (pinned', result) = select_pinned request.routing now pinned in
    let states' = put_state pinned.account_id pinned' states in
    serve_or request kind now pinned' rows states' result
      (after_pinned request kind now reallocate_sticky pinned' rows states')

-- `pool_also_exhausted`
abbrev pub pool_also_exhausted : ℕ → AccountState → Option AccountState → Bool
pool_also_exhausted threshold pinned none = false
pool_also_exhausted threshold pinned (some best) =
    text_eq best.account_id pinned.account_id || is_above threshold best.used_percent

-- The state of the pinned account after a selection from all states.
abbrev pub now_pinned : AccountState → List AccountState → AccountState
now_pinned pinned states = elim (find_state pinned.account_id states) [
  | none ↦ pinned
  | some state ↦ state
]

-- Where the budget is exhausted, the pinned account is kept if the pool has nothing better.
unfoldable pub probe_pool :
    StickyRequest
    → StickySessionKind
    → ℕ
    → AccountState
    → List StickySession
    → List AccountState
    → StickyResult
unfolding try_pinned after_pinned
probe_pool request kind now pinned rows states =
    let (states', best) =
      select_account
        (record request.routing { allow_backoff_fallback = true; deterministic_probe = true }) now
        states in
    let pinned' = now_pinned pinned states' in
    if pool_also_exhausted request.budget_threshold_pct pinned' best.account
    then try_pinned request kind now true pinned' rows states'
    else after_pinned request kind now true pinned' rows states'

unfoldable pub with_pinned :
    StickyRequest
    → StickySessionKind
    → ℕ
    → AccountState
    → List StickySession
    → List AccountState
    → StickyResult
unfolding try_pinned after_pinned probe_pool budget_exhausted rate_limit_far_away
with_pinned request kind now pinned rows states =
    if budget_exhausted kind request.budget_threshold_pct pinned
    then probe_pool request kind now pinned rows states
    else if rate_limit_far_away kind now pinned
    then after_pinned request kind now true pinned rows states
    else try_pinned request kind now request.reallocate_sticky pinned rows states

-- The account of the entry is looked for among the states; an entry without one is deleted.
unfoldable pub with_existing :
    StickyRequest
    → StickySessionKind
    → ℕ
    → Option Text
    → List StickySession
    → List AccountState
    → StickyResult
unfolding with_pinned select_fallback
with_existing request kind now none rows states = select_fallback request kind now true rows states
with_existing request kind now (some existing) rows states =
    if is_empty existing
    then select_fallback request kind now true rows states
    else (elim (find_state existing states) [
      | none ↦ select_fallback request kind now true (delete request.sticky_key kind rows) states
      | some pinned ↦ with_pinned request kind now pinned rows states
    ])

-- From a key and a kind.
unfoldable pub select_sticky :
    StickyRequest → StickySessionKind → ℕ → List StickySession → List AccountState → StickyResult
unfolding with_existing get_account_id
select_sticky request kind now rows states =
    let (rows', existing) =
      get_account_id now request.sticky_max_age_seconds request.sticky_key kind rows in
    with_existing request kind now existing rows' states

-- `_select_with_stickiness`; `none` stands for the `ValueError` of a key without a kind.
unfoldable pub select_with_stickiness :
    StickyRequest → ℕ → List StickySession → List AccountState → Option StickyResult
unfolding select_sticky
select_with_stickiness request now rows states =
    if is_empty request.sticky_key
    then (let (states', result) =
          select_account
            (record request.routing { allow_backoff_fallback = true; deterministic_probe = false })
            now states in
        some (record { rows = rows; states = states'; result = result }))
    else (elim request.sticky_kind [
      | none ↦ none
      | some kind ↦ some (select_sticky request kind now rows states)
    ])
