-- ===== src/Balancer/Select/Order.antt =====
-- The order by which round robin and usage-weighted routing select, among accounts of the same tier.
use codex_octopus.Base.{
  ℕ, ◌≤◌, ◌≡◌, refl, sym, ap, subst, ◌≢◌, ◌↔◌, ◌⊎◌, inl, inr, Bool, true, false, Option, none, some,
  List, [], ◌∷◌, ◌++◌, arith, if◌then◌else◌, In, All-In, Option-cases,
}
use codex_octopus.Base
use codex_octopus.Base.Int.{ℤ, lex_ltb}
use codex_octopus.Balancer.State.{
  AccountState, usage_sort_key, reset_first_sort_key, round_robin_sort_key,
}
use codex_octopus.Balancer.Examine.{available, examine}
use codex_octopus.Balancer.Select.{
  Routing, is_available, effective_pool, route, round_robin, capacity_weighted, decide_selection,
  select_account,
}
use codex_octopus.Balancer.Select.Pool.{rank, effective_pool_same}
use codex_octopus.Balancer.Select.Laws.{In-with_verdict, routed-effective}

-- The key of the two strategies that order the pool.
abbrev pub strategy_key : Routing → ℕ → AccountState → List ℤ
strategy_key routing current = elim routing.routing_strategy [
  | round_robin ↦ round_robin_sort_key
  | _ ↦ if routing.prefer_earlier_reset then reset_first_sort_key current else usage_sort_key
]

route-IsLeast :
    (routing : Routing) (current : ℕ) (pool : List AccountState) (a : AccountState)
    → routing.routing_strategy ≢ capacity_weighted
    → route routing current pool ≡ some a
    → Base.IsLeast (strategy_key routing current) a pool
unfolding route
route-IsLeast routing current [] a ne e = tt
route-IsLeast routing current (state ∷ rest) a ne e = ground (
  arith,
  Base.min_by-IsLeast round_robin_sort_key state rest,
  Base.min_by-IsLeast (reset_first_sort_key current) state rest,
  Base.min_by-IsLeast usage_sort_key state rest,
)

decide_selection-IsLeast :
    (routing : Routing) (current : ℕ) (all_states backing_off pool : List AccountState)
    (a s : AccountState)
    → routing.routing_strategy ≢ capacity_weighted
    → (decide_selection routing current all_states backing_off pool).account ≡ some a
    → In s pool
    → rank s.health_tier ≡ rank a.health_tier
    → lex_ltb (strategy_key routing current s) (strategy_key routing current a) ≡ false
unfolding decide_selection
decide_selection-IsLeast routing current all_states backing_off [] a s ne e m same = elim m [ ]
decide_selection-IsLeast routing current all_states backing_off (state ∷ rest) a s ne e m same =
    All-In _ s (effective_pool (state ∷ rest)) (route-IsLeast routing current _ a ne e) (
      effective_pool_same (state ∷ rest) a s (routed-effective routing current (state ∷ rest) a e) m
        same)

-- Round robin and usage-weighted routing select the least account by their key: no account that the
-- loop lets through has a smaller key, if its health tier is as good as the selected one's.
pub select_account-IsLeast :
    (routing : Routing) (current : ℕ) (states : List AccountState) (a s : AccountState)
    → routing.routing_strategy ≢ capacity_weighted
    → (select_account routing current states).1.account ≡ some a
    → In s states
    → (examine current s).1 ≡ available
    → rank (examine current s).0.health_tier ≡ rank a.health_tier
    → lex_ltb (strategy_key routing current (examine current s).0) (strategy_key routing current a)
      ≡ false
unfolding select_account
select_account-IsLeast routing current states a s ne e m ok same =
    decide_selection-IsLeast routing current _ _ _ a (examine current s).0 ne e
      (In-with_verdict current is_available s states m (rw ok)) same
