-- ===== src/Balancer/Runtime/Usage.antt =====
-- The usage entries of an account that the balancer reads: app/core/usage/__init__.py and
-- app/core/plan_types.py.
use codex_octopus.Base.{
  ℕ, ltb, ◌==◌, Bool, true, false, Option, none, some, get_or, List, [], ◌∷◌, if◌then◌else◌, any,
  is_empty,
}
use codex_octopus.Base.Text.{Text, text, text_eq, strip, lower}
use codex_octopus.Balancer.Capacity.{plan_capacity_credits_secondary}

-- The columns that are read. Resets and recordings are moments of the clock.
pub record UsageHistory : Type 0 where
  pub used_percent : Option ℕ
  pub reset_at : Option ℕ
  pub window_minutes : Option ℕ
  pub recorded_at : Option ℕ

abbrev pub default_window_minutes_secondary : ℕ
default_window_minutes_secondary = 10080

-- `is_weekly_window_minutes`
abbrev pub is_weekly_window_minutes : Option ℕ → Bool
is_weekly_window_minutes none = false
is_weekly_window_minutes (some minutes) = minutes == default_window_minutes_secondary

-- One comparison of `_should_prefer_primary_row`, which falls through where both values are equal or
-- missing.
abbrev pub prefer_later : Option ℕ → Option ℕ → Bool → Bool
prefer_later (some primary) (some secondary) otherwise =
    if primary == secondary then otherwise else ltb secondary primary
prefer_later (some primary) none otherwise = true
prefer_later none (some secondary) otherwise = false
prefer_later none none otherwise = otherwise

-- `_should_prefer_primary_row`
unfoldable pub should_prefer_primary_row : UsageHistory → UsageHistory → Bool
should_prefer_primary_row primary_row secondary_row =
    prefer_later primary_row.recorded_at secondary_row.recorded_at
      (prefer_later primary_row.reset_at secondary_row.reset_at true)

-- `should_use_weekly_primary`
unfoldable pub should_use_weekly_primary : UsageHistory → Option UsageHistory → Bool
unfolding should_prefer_primary_row
should_use_weekly_primary primary_row none = is_weekly_window_minutes primary_row.window_minutes
should_use_weekly_primary primary_row (some secondary_row) =
    if is_weekly_window_minutes primary_row.window_minutes
    then should_prefer_primary_row primary_row secondary_row
    else false

abbrev pub account_plan_types : List Text
account_plan_types =
    text "free"
    ∷ text "plus"
    ∷ text "pro"
    ∷ text "team"
    ∷ text "business"
    ∷ text "enterprise"
    ∷ text "edu"
    ∷ []

-- `normalize_account_plan_type`
unfoldable pub normalize_account_plan_type : Option Text → Option Text
unfolding strip lower
normalize_account_plan_type value =
    let cleaned = strip (get_or value []) in
    let normalized = lower cleaned in
    if is_empty cleaned
    then none
    else if any (text_eq normalized) account_plan_types
    then some normalized
    else none

abbrev pub find_credits : Text → List (Text × ℕ) → Option ℕ
find_credits plan [] = none
find_credits plan ((name, credits) ∷ rest) =
    if text_eq name plan then some credits else find_credits plan rest

-- `capacity_for_plan` of the secondary window.
unfoldable pub capacity_for_plan_secondary : Option Text → Option ℕ
unfolding normalize_account_plan_type
capacity_for_plan_secondary plan_type = elim (normalize_account_plan_type plan_type) [
  | none ↦ none
  | some normalized ↦ find_credits normalized plan_capacity_credits_secondary
]
