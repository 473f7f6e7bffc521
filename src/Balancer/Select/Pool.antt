-- ===== src/Balancer/Select/Pool.antt =====
-- The choice from a pool (`route`, `effective_pool`): it finds a member, of the best tier, and the
-- least by the strategy's key.
use codex_octopus.Base.{
  ℕ, ◌≤◌, min, ◌==◌, ◌≡◌, ◌≢◌, refl, ◌∙◌, ◌⊎◌, inl, inr, Bool, true, false, Option, none, some,
  List, [], ◌∷◌, map, arith, if◌then◌else◌, filter, or_else, In, In-filter, Bool-cases, any,
}
use codex_octopus.Base
use codex_octopus.Base.Int.{ℤ}
use codex_octopus.Balancer.State.{
  AccountState, reset_bucket_days, health_tier_healthy, health_tier_draining, health_tier_probing,
  round_robin_sort_key,
}
use codex_octopus.Balancer.Capacity.{select_capacity_weighted-In, capacity_probe_sort_key}
use codex_octopus.Balancer.Select.{
  Routing, RoutingStrategy, usage_weighted, round_robin, capacity_weighted, min_of, weighted_of,
  candidate_pool, select_candidate, route_by, route, effective_pool, has_tier,
  prefer_earlier_reset_candidates, least,
}

-- A choice succeeds on a pool that is not empty, with a member of the pool.
abbrev pub Chosen : List AccountState → Option AccountState → Type 0
Chosen pool none = pool ≡ []
Chosen pool (some state) = In state pool

min_of-Chosen :
    (key : AccountState → List ℤ) (pool : List AccountState) → Chosen pool (min_of key pool)
min_of-Chosen key [] = refl
min_of-Chosen key (state ∷ rest) = Base.min_by-In key state rest

weighted_of-Chosen : (random : ℕ) (pool : List AccountState) → Chosen pool (weighted_of random pool)
weighted_of-Chosen random [] = refl
weighted_of-Chosen random (state ∷ rest) = select_capacity_weighted-In random state rest

-- The least of some numbers is one of them.
least-In : (n : ℕ) (ns : List ℕ) → In (least n ns) (n ∷ ns)
least-In n [] = inl refl
least-In n (m ∷ ms) = ground (arith, least-In (min n m) ms)

In-map-filter :
    (bucket : AccountState → ℕ) (b : ℕ) (pool : List AccountState)
    → In b (map bucket pool)
    → filter (λ s. bucket s == b) pool ≢ []
In-map-filter bucket b [] m = elim m [ ]
In-map-filter bucket b (state ∷ rest) m = ground (arith, In-map-filter bucket b rest)

prefer-In :
    (current : ℕ) (chosen : AccountState) (pool : List AccountState)
    → In chosen (prefer_earlier_reset_candidates current pool)
    → In chosen pool
unfolding prefer_earlier_reset_candidates
prefer-In current chosen [] m = m
prefer-In current chosen (state ∷ rest) m =
    (In-filter
      (λ s.
        reset_bucket_days current s
        == least (reset_bucket_days current state) (map (reset_bucket_days current) rest))
      chosen (state ∷ rest) m).0

-- An earliest bucket has somebody in it.
prefer_ne-nil :
    (current : ℕ) (state : AccountState) (rest : List AccountState)
    → prefer_earlier_reset_candidates current (state ∷ rest) ≢ []
unfolding prefer_earlier_reset_candidates
prefer_ne-nil current state rest =
    In-map-filter (reset_bucket_days current) _ (state ∷ rest)
      (least-In (reset_bucket_days current state) (map (reset_bucket_days current) rest))

-- The candidates are members of the pool, and there are some if the pool has some.
prefer-Chosen :
    (current : ℕ) (pool : List AccountState) (choice : Option AccountState)
    → Chosen (prefer_earlier_reset_candidates current pool) choice
    → Chosen pool choice
prefer-Chosen current [] none h = refl
prefer-Chosen current [] (some state) h = unfold prefer_earlier_reset_candidates in h
prefer-Chosen current (state ∷ rest) none h = absurd (prefer_ne-nil current state rest h)
prefer-Chosen current (state ∷ rest) (some chosen) h = prefer-In current chosen (state ∷ rest) h

candidate_pool-Chosen :
    (prefer : Bool) (current : ℕ) (pool : List AccountState) (choice : Option AccountState)
    → Chosen (candidate_pool prefer current pool) choice
    → Chosen pool choice
unfolding candidate_pool
candidate_pool-Chosen true current pool choice h = prefer-Chosen current pool choice h
candidate_pool-Chosen false current pool choice h = h

select_candidate-Chosen :
    (probe : Bool) (random : ℕ) (pool : List AccountState)
    → Chosen pool (select_candidate probe random pool)
unfolding select_candidate
select_candidate-Chosen true random pool = min_of-Chosen capacity_probe_sort_key pool
select_candidate-Chosen false random pool = weighted_of-Chosen random pool

route_by-Chosen :
    (strategy : RoutingStrategy) (routing : Routing) (current : ℕ) (pool : List AccountState)
    → Chosen pool (route_by strategy routing current pool)
unfolding route_by
route_by-Chosen usage_weighted routing current pool = min_of-Chosen _ pool
route_by-Chosen round_robin routing current pool = min_of-Chosen round_robin_sort_key pool
route_by-Chosen capacity_weighted routing current pool =
    candidate_pool-Chosen routing.prefer_earlier_reset current pool _
      (select_candidate-Chosen routing.deterministic_probe routing.random _)

-- Every strategy chooses a member of the pool, and fails on the empty pool only.
pub route-Chosen :
    (routing : Routing) (current : ℕ) (pool : List AccountState)
    → Chosen pool (route routing current pool)
unfolding route
route-Chosen routing current pool = route_by-Chosen routing.routing_strategy routing current pool

-- The order in which the tiers are preferred.
abbrev pub rank : ℕ → ℕ
rank tier =
    if tier == health_tier_healthy
    then 0
    else if tier == health_tier_probing
    then 1
    else if tier == health_tier_draining
    then 2
    else 3

In-or_else :
    (a : AccountState) (xs ys : List AccountState)
    → In a (or_else xs ys)
    → (In a xs × (or_else xs ys ≡ xs)) ⊎ ((xs ≡ []) × In a ys × (or_else xs ys ≡ ys))
In-or_else a [] ys m = inr (refl, m, refl)
In-or_else a (x ∷ xs) ys m = inl (m, refl)

In-filter_both :
    (p : AccountState → Bool) (a : AccountState) (xs : List AccountState)
    → In a xs
    → p a ≡ true
    → In a (filter p xs)
In-filter_both p a [] m e = elim m [ ]
In-filter_both p a (x ∷ xs) (inl m) e = rw (← m, e) (inl refl)
In-filter_both p a (x ∷ xs) (inr m) e = ground (arith, In-filter_both p a xs m e)

In-filter_intro :
    (p : AccountState → Bool) (a : AccountState) (xs : List AccountState)
    → In a xs
    → p a ≡ true
    → filter p xs ≢ []
In-filter_intro p a [] m e = elim m [ ]
In-filter_intro p a (x ∷ xs) (inl m) e = rw (← m, e) (λ n. cc)
In-filter_intro p a (x ∷ xs) (inr m) e = ground (arith, In-filter_intro p a xs m e)

not_of_filter-nil :
    (p : AccountState → Bool) (a : AccountState) (xs : List AccountState)
    → In a xs
    → filter p xs ≡ []
    → p a ≡ false
not_of_filter-nil p a xs m n = elim (Bool-cases (p a)) [
  | inl e ↦ absurd (In-filter_intro p a xs m e n)
  | inr e ↦ e
]

-- Where a member of the effective pool comes from.
data Origin (a : AccountState) (pool : List AccountState) : Type 0 where
  from_tier :
      (tier : ℕ)
      → In a pool
      → has_tier tier a ≡ true
      → ((b : AccountState) → In b pool → rank tier ≤ rank b.health_tier)
      → (tier ≤ 2) × (effective_pool pool ≡ filter (has_tier tier) pool)
      → Origin a pool
  from_all :
      In a pool
      → ((b : AccountState) → In b pool → 3 ≤ rank b.health_tier)
      → effective_pool pool ≡ pool
      → Origin a pool

effective_pool-Origin :
    (pool : List AccountState) (a : AccountState) → In a (effective_pool pool) → Origin a pool
unfolding effective_pool
effective_pool-Origin pool a m =
    elim (In-or_else a (filter (has_tier health_tier_healthy) pool) _ m) [
      | inl (h, is_healthy) ↦
          let f = In-filter (has_tier health_tier_healthy) a pool h in
          from_tier health_tier_healthy f.0 f.1 (λ b _. omega arith) (omega arith, is_healthy)
      | inr (no_healthy, m', e) ↦
          elim (In-or_else a (filter (has_tier health_tier_probing) pool) _ m') [
            | inl (h, e') ↦
                let f = In-filter (has_tier health_tier_probing) a pool h in
                from_tier health_tier_probing f.0 f.1
                  (λ b n. ground (arith, not_of_filter-nil _ b pool n no_healthy))
                  (omega arith, e ∙ e')
            | inr (no_probing, m'', e') ↦
                elim (In-or_else a (filter (has_tier health_tier_draining) pool) pool m'') [
                  | inl (h, e'') ↦
                      let f = In-filter (has_tier health_tier_draining) a pool h in
                      from_tier health_tier_draining f.0 f.1
                        (λ b n. ground (
                          arith,
                          not_of_filter-nil _ b pool n no_healthy,
                          not_of_filter-nil _ b pool n no_probing,
                        ))
                        (omega arith, e ∙ e' ∙ e'')
                  | inr (no_draining, all, e'') ↦
                      from_all all
                        (λ b n. ground (
                          arith,
                          not_of_filter-nil _ b pool n no_healthy,
                          not_of_filter-nil _ b pool n no_probing,
                          not_of_filter-nil _ b pool n no_draining,
                        ))
                        (e ∙ e' ∙ e'')
                ]
          ]
    ]

effective_pool-In :
    (pool : List AccountState) (a : AccountState) → In a (effective_pool pool) → In a pool
effective_pool-In pool a m = elim (effective_pool-Origin pool a m) [
  | from_tier tier i e best whole ↦ i
  | from_all i best whole ↦ i
]

-- Nobody in the effective pool has a worse tier than somebody in the pool.
pub rank-effective_pool :
    (pool : List AccountState) (a b : AccountState)
    → In a (effective_pool pool)
    → In b pool
    → rank a.health_tier ≤ rank b.health_tier
rank-effective_pool pool a b m n = elim (effective_pool-Origin pool a m) [
  | from_tier tier i e best whole ↦ let t : a.health_tier ≡ tier = ground arith in rw t (best b n)
  | from_all i best whole ↦ ground (arith, best b n)
]

or_else-nil : (xs ys : List AccountState) → or_else xs ys ≡ [] → ys ≡ []
or_else-nil [] ys h = h
or_else-nil (x ∷ xs) ys h = cc

effective_pool-nil : (pool : List AccountState) → effective_pool pool ≡ [] → pool ≡ []
unfolding effective_pool
effective_pool-nil pool h = or_else-nil (filter (has_tier health_tier_draining) pool) pool (
    or_else-nil (filter (has_tier health_tier_probing) pool) _
      (or_else-nil (filter (has_tier health_tier_healthy) pool) _ h))

-- A pool that is not empty has an effective pool that is not empty.
pub effective_pool-Chosen :
    (pool : List AccountState) (choice : Option AccountState)
    → Chosen (effective_pool pool) choice
    → Chosen pool choice
effective_pool-Chosen pool none h = effective_pool-nil pool h
effective_pool-Chosen pool (some a) h = effective_pool-In pool a h

-- Whoever of the pool has a tier as good as a member of the effective pool is one of it.
pub effective_pool_same :
    (pool : List AccountState) (a b : AccountState)
    → In a (effective_pool pool)
    → In b pool
    → rank b.health_tier ≡ rank a.health_tier
    → In b (effective_pool pool)
effective_pool_same pool a b m n same = elim (effective_pool-Origin pool a m) [
  | from_tier tier i e best (small, whole) ↦
      rw whole (In-filter_both (has_tier tier) b pool n (ground arith))
  | from_all i best whole ↦ rw whole n
]
