-- ===== src/Balancer/Select.antt =====
-- `select_account` of app/core/balancer/logic.py. The code changes the states that the caller
-- passes in place, so the model returns them beside the result.
pub mod Pool
pub mod Laws
pub mod Order
use codex_octopus.Base.{
  ℕ, ◌+◌, ◌-◌, ◌*◌, ◌/◌, min, ltb, ◌==◌, Bool, true, false, not, ◌&&◌, ◌||◌, Option, none, some,
  get_or, List, [], ◌∷◌, map, if◌then◌else◌, is_set, is_empty, length, filter, any, or_else,
}
use codex_octopus.Base
use codex_octopus.Base.Int.{ℤ, pos}
use codex_octopus.Balancer.State.{
  AccountState, AccountStatus, status_eq, seconds, reset_bucket_days, usage_sort_key,
  reset_first_sort_key, round_robin_sort_key, health_tier_healthy, health_tier_draining,
  health_tier_probing,
}
use codex_octopus.Balancer.Capacity.{capacity_probe_sort_key, select_capacity_weighted}
use codex_octopus.Balancer.Examine.{
  Verdict, skipped, in_error_backoff, available, examine, error_backoff,
}

pub data RoutingStrategy : Type 0 where
  usage_weighted round_robin capacity_weighted : RoutingStrategy

-- The keyword arguments, and the output of the random generator.
pub record Routing : Type 0 where
  pub prefer_earlier_reset : Bool
  pub routing_strategy : RoutingStrategy
  pub allow_backoff_fallback : Bool
  pub deterministic_probe : Bool
  pub random : ℕ

-- The error messages; `try_again_in` carries the wait that its text prints in seconds.
pub data SelectionError : Type 0 where
  paused_or_reauthentication all_paused reauthentication no_available : SelectionError
  try_again_in : ℕ → SelectionError

pub record SelectionResult : Type 0 where
  pub account : Option AccountState
  pub error_message : Option SelectionError

-- The list that one outcome of the loop fills.
abbrev pub with_verdict : (Verdict → Bool) → List (AccountState × Verdict) → List AccountState
with_verdict p [] = []
with_verdict p ((state, verdict) ∷ rest) =
    if p verdict then state ∷ with_verdict p rest else with_verdict p rest

abbrev pub is_available : Verdict → Bool
is_available available = true
is_available _ = false

abbrev pub is_backing_off : Verdict → Bool
is_backing_off in_error_backoff = true
is_backing_off _ = false

abbrev pub has_status : AccountStatus → AccountState → Bool
has_status status state = status_eq state.status status

-- `hard_blocked_exists`
abbrev pub is_hard_blocked : AccountState → Bool
is_hard_blocked state =
    has_status AccountStatus.paused state
    || has_status AccountStatus.deactivated state
    || has_status AccountStatus.rate_limited state
    || has_status AccountStatus.quota_exceeded state

-- `_backoff_expires_at`
abbrev pub backoff_expires_at : AccountState → List ℤ
backoff_expires_at state = pos (get_or state.last_error_at 0 + error_backoff state.error_count) ∷ []

-- The backoff account nearest to recovery, where the fallback is allowed.
unfoldable pub backoff_fallback :
    Routing → List AccountState → List AccountState → Option AccountState
backoff_fallback routing all_states [] = none
backoff_fallback routing all_states (state ∷ rest) =
    if routing.allow_backoff_fallback && (ltb 0 (length rest) || any is_hard_blocked all_states)
    then some (Base.min_by backoff_expires_at state rest)
    else none

-- `min(xs)` of numbers
abbrev pub least : ℕ → List ℕ → ℕ
least n [] = n
least n (m ∷ ms) = least (min n m) ms

-- `[s.reset_at for s in quota_exceeded if s.reset_at]`
abbrev pub reset_candidates : List AccountState → List ℕ
reset_candidates [] = []
reset_candidates (state ∷ rest) =
    if has_status AccountStatus.quota_exceeded state && is_set state.reset_at
    then get_or state.reset_at 0 ∷ reset_candidates rest
    else reset_candidates rest

-- `[s.cooldown_until for s in all_states if s.cooldown_until and s.cooldown_until > current]`
abbrev pub cooldowns : ℕ → List AccountState → List ℕ
cooldowns current [] = []
cooldowns current (state ∷ rest) =
    if is_set state.cooldown_until && ltb current (get_or state.cooldown_until 0)
    then get_or state.cooldown_until 0 ∷ cooldowns current rest
    else cooldowns current rest

-- `int(current)`, in the unit of the clock
abbrev pub whole_seconds : ℕ → ℕ
whole_seconds current = current / seconds 1 * seconds 1

unfoldable pub cooldown_error : ℕ → List ℕ → SelectionError
cooldown_error current [] = no_available
cooldown_error current (n ∷ ns) = try_again_in (least n ns - current)

unfoldable pub limit_error : ℕ → List ℕ → List ℕ → SelectionError
unfolding cooldown_error
limit_error current [] waits = cooldown_error current waits
limit_error current (n ∷ ns) waits = try_again_in (least n ns - whole_seconds current)

-- What is said when nobody can serve.
unfoldable pub unavailable : ℕ → List AccountState → SelectionError
unfolding limit_error
unavailable current all_states =
    let has_deactivated = any (has_status AccountStatus.deactivated) all_states in
    let has_paused = any (has_status AccountStatus.paused) all_states in
    let limited =
      any (has_status AccountStatus.rate_limited) all_states
      || any (has_status AccountStatus.quota_exceeded) all_states in
    if has_paused && has_deactivated && not limited
    then paused_or_reauthentication
    else if has_paused && not limited
    then all_paused
    else if has_deactivated && not limited
    then reauthentication
    else limit_error current (reset_candidates all_states) (cooldowns current all_states)

abbrev pub has_tier : ℕ → AccountState → Bool
has_tier tier state = state.health_tier == tier

-- `healthy or probing or draining or available`
unfoldable pub effective_pool : List AccountState → List AccountState
effective_pool pool = or_else (filter (has_tier health_tier_healthy) pool) (
    or_else (filter (has_tier health_tier_probing) pool)
      (or_else (filter (has_tier health_tier_draining) pool) pool))

-- `_prefer_earlier_reset_candidates`
unfoldable pub prefer_earlier_reset_candidates : ℕ → List AccountState → List AccountState
prefer_earlier_reset_candidates current [] = []
prefer_earlier_reset_candidates current (state ∷ rest) =
    let earliest_bucket =
      least (reset_bucket_days current state) (map (reset_bucket_days current) rest) in
    filter (λ s. reset_bucket_days current s == earliest_bucket) (state ∷ rest)

-- `min(xs, key=...)`; an empty list, where Python raises, is `none`.
abbrev pub min_of : (AccountState → List ℤ) → List AccountState → Option AccountState
min_of key [] = none
min_of key (state ∷ rest) = some (Base.min_by key state rest)

abbrev pub weighted_of : ℕ → List AccountState → Option AccountState
weighted_of random [] = none
weighted_of random (state ∷ rest) = some (select_capacity_weighted random state rest)

-- `candidate_pool`
unfoldable pub candidate_pool : Bool → ℕ → List AccountState → List AccountState
candidate_pool true current pool = prefer_earlier_reset_candidates current pool
candidate_pool false current pool = pool

-- The deterministic probe, or the weighted draw.
unfoldable pub select_candidate : Bool → ℕ → List AccountState → Option AccountState
select_candidate true random candidates = min_of capacity_probe_sort_key candidates
select_candidate false random candidates = weighted_of random candidates

-- The choice by strategy from the effective pool.
unfoldable pub route_by : RoutingStrategy → Routing → ℕ → List AccountState → Option AccountState
route_by round_robin routing current pool = min_of round_robin_sort_key pool
route_by capacity_weighted routing current pool =
    select_candidate routing.deterministic_probe routing.random
      (candidate_pool routing.prefer_earlier_reset current pool)
route_by usage_weighted routing current pool =
    min_of (if routing.prefer_earlier_reset then reset_first_sort_key current else usage_sort_key)
      pool

unfoldable pub route : Routing → ℕ → List AccountState → Option AccountState
unfolding route_by select_candidate candidate_pool
route routing current pool = route_by routing.routing_strategy routing current pool

-- From the filled lists to the result.
unfoldable pub decide_selection :
    Routing → ℕ → List AccountState → List AccountState → List AccountState → SelectionResult
decide_selection routing current all_states backing_off [] =
    elim (backoff_fallback routing all_states backing_off) [
      | some state ↦ record {
        account = route routing current (effective_pool (state ∷ []));
        error_message = none;
      }
      | none ↦ record { account = none; error_message = some (unavailable current all_states) }
    ]
decide_selection routing current all_states backing_off (state ∷ rest) = record {
  account = route routing current (effective_pool (state ∷ rest));
  error_message = none;
}

unfoldable pub examine_all : ℕ → List AccountState → List (AccountState × Verdict)
examine_all current [] = []
examine_all current (state ∷ rest) = examine current state ∷ examine_all current rest

abbrev pub states_of : List (AccountState × Verdict) → List AccountState
states_of [] = []
states_of ((state, _) ∷ rest) = state ∷ states_of rest

unfoldable pub select_account :
    Routing → ℕ → List AccountState → List AccountState × SelectionResult
select_account routing current states =
    let examined = examine_all current states in
    let all_states = states_of examined in
    (
      all_states,
      decide_selection routing current all_states (with_verdict is_backing_off examined)
          (with_verdict is_available examined),
    )
