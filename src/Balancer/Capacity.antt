-- ===== src/Balancer/Capacity.antt =====
-- The weights of capacity-weighted routing: app/core/balancer/logic.py, with the plan table of
-- app/core/usage/__init__.py. A weight is in ten-thousandths of a credit.
use codex_octopus.Base.{
  ℕ, ◌+◌, ◌-◌, ◌*◌, ◌%◌, ◌≤◌, ◌<◌, min, ltb, leb, ◌==◌, ◌≡◌, refl, inl, inr, Bool, true, false,
  Option, none, some, get_or, List, [], ◌∷◌, ◌++◌, arith, if◌then◌else◌, is_empty, sum_of, In,
}
use codex_octopus.Base
use codex_octopus.Base.Int.{ℤ, neg}
use codex_octopus.Base.Text.{Text, text, text_eq, strip, lower}
use codex_octopus.Balancer.State.{AccountState, percent, usage_sort_key}

-- `d.get(key, default)` on a table of texts.
abbrev pub lookup_text {ℓ} : {A : Type ℓ} → Text → List (Text × A) → A → A
lookup_text k [] d = d
lookup_text k ((j, v) ∷ m) d = if text_eq j k then v else lookup_text k m d

abbrev pub capacity_plan_aliases : List (Text × Text)
capacity_plan_aliases =
    (text "education", text "edu")
    ∷ (text "k12", text "edu")
    ∷ (text "guest", text "free")
    ∷ (text "go", text "free")
    ∷ (text "free_workspace", text "free")
    ∷ (text "quorum", text "free")
    ∷ (text "unknown", text "free")
    ∷ []

abbrev pub plan_capacity_credits_secondary : List (Text × ℕ)
plan_capacity_credits_secondary =
    (text "free", 1134)
    ∷ (text "plus", 7560)
    ∷ (text "business", 7560)
    ∷ (text "team", 7560)
    ∷ (text "edu", 7560)
    ∷ (text "pro", 50400)
    ∷ (text "enterprise", 50400)
    ∷ []

-- `_fallback_secondary_capacity_credits`
unfoldable pub fallback_secondary_capacity_credits : Option Text → ℕ
unfolding strip lower
fallback_secondary_capacity_credits plan_type =
    let normalized = lower (strip (get_or plan_type [])) in
    let resolved_plan =
      lookup_text normalized capacity_plan_aliases
        (if is_empty normalized then text "free" else normalized) in
    lookup_text resolved_plan plan_capacity_credits_secondary 1134

abbrev weigh : ℕ → ℕ → ℕ
weigh capacity used_pct = capacity * (percent 100 - min used_pct (percent 100))

abbrev used_pct : AccountState → ℕ
used_pct state = elim state.secondary_used_percent [
  | some secondary ↦ secondary
  | none ↦ get_or state.used_percent 0
]

-- `_remaining_secondary_credits`
unfoldable pub remaining_secondary_credits : AccountState → ℕ
remaining_secondary_credits state = elim state.capacity_credits [
  | none ↦ weigh (fallback_secondary_capacity_credits state.plan_type) (used_pct state)
  | some capacity ↦ if capacity == 0 then 0 else weigh capacity (used_pct state)
]

-- `_capacity_probe_sort_key`
unfoldable pub capacity_probe_sort_key : AccountState → List ℤ
capacity_probe_sort_key state = neg (remaining_secondary_credits state) ∷ usage_sort_key state

-- `random.choices(population, weights, k=1)[0]`: the first element whose cumulative weight passes
-- the point drawn, or the last one.
unfoldable pub choose : ℕ → AccountState → List AccountState → AccountState
choose point state [] = state
choose point state (next ∷ rest) =
    let later = choose (point - remaining_secondary_credits state) next rest in
    if ltb point (remaining_secondary_credits state) then state else later

-- `_select_capacity_weighted` on a non-empty pool; `random` is the generator's output, which is
-- reduced to a point below the total as `random() * total` is.
unfoldable pub select_capacity_weighted : ℕ → AccountState → List AccountState → AccountState
select_capacity_weighted random state rest =
    let total = sum_of remaining_secondary_credits (state ∷ rest) in
    if total == 0 then Base.min_by usage_sort_key state rest else choose (random % total) state rest

pub choose-In :
    (point : ℕ) (state : AccountState) (rest : List AccountState)
    → In (choose point state rest) (state ∷ rest)
unfolding choose
choose-In point state [] = inl refl
choose-In point state (next ∷ rest) =
    ground (arith, choose-In (point - remaining_secondary_credits state) next rest)

pub select_capacity_weighted-In :
    (random : ℕ) (state : AccountState) (rest : List AccountState)
    → In (select_capacity_weighted random state rest) (state ∷ rest)
unfolding select_capacity_weighted
select_capacity_weighted-In random state rest = ground (
  arith,
  Base.min_by-In usage_sort_key state rest,
  choose-In (random % sum_of remaining_secondary_credits (state ∷ rest)) state rest,
)

choose_pos :
    (point : ℕ) (state : AccountState) (rest : List AccountState)
    → point < sum_of remaining_secondary_credits (state ∷ rest)
    → 0 < remaining_secondary_credits (choose point state rest)
unfolding choose
choose_pos point state [] h = omega arith
choose_pos point state (next ∷ rest) h =
    ground (arith, choose_pos (point - remaining_secondary_credits state) next rest)

-- Unless the whole pool is exhausted, the account drawn has credits left.
pub select_capacity_weighted_pos :
    (random : ℕ) (state : AccountState) (rest : List AccountState)
    → 0 < sum_of remaining_secondary_credits (state ∷ rest)
    → 0 < remaining_secondary_credits (select_capacity_weighted random state rest)
unfolding select_capacity_weighted
select_capacity_weighted_pos random state rest h =
    ground
      (arith, choose_pos (random % sum_of remaining_secondary_credits (state ∷ rest)) state rest)

-- The interval of points that belongs to an account is as long as its weight.
pub choose_interval :
    (point : ℕ) (first : AccountState) (before after : List AccountState) (state : AccountState)
    → sum_of remaining_secondary_credits (first ∷ before) ≤ point
    → point
      < sum_of remaining_secondary_credits (first ∷ before) + remaining_secondary_credits state
    → choose point first (before ++ (state ∷ after)) ≡ state
unfolding choose
choose_interval point first [] [] state lo hi = ground arith
choose_interval point first [] (a ∷ after) state lo hi = ground arith
choose_interval point first (b ∷ before) after state lo hi =
    ground (arith, choose_interval (point - remaining_secondary_credits first) b before after state)
