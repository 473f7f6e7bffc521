-- ===== src/ApiKeys/Rules.antt =====
-- The limit rules that an update of an API key submits, and the rows it makes of them
-- (app/modules/api_keys/service.py).
pub mod Carry
mod Tests
use codex_octopus.Base.{
  ℕ, Bool, true, false, ◌&&◌, ◌||◌, Option, none, some, List, [], ◌∷◌, map, if◌then◌else◌, any,
  is_set, is_some,
}
use codex_octopus.Base.Text.{Text, text, text_eq}
use codex_octopus.ApiKeys.Limits.{
  ApiKeyLimit, LimitType, total_tokens, input_tokens, output_tokens, cost_usd, credits, LimitWindow,
  daily, weekly, monthly, five_hours, seven_days, next_reset,
}

-- A rule names its type and window by their values.
pub record LimitRuleInput : Type 0 where
  pub limit_type : Text
  pub limit_window : Text
  pub max_value : ℕ
  pub model_filter : Option Text

-- A row that has not been inserted yet, and so has no id.
pub record NewLimit : Type 0 where
  pub api_key_id : Text
  pub limit_type : LimitType
  pub limit_window : LimitWindow
  pub max_value : ℕ
  pub current_value : ℕ
  pub model_filter : Option Text
  pub reset_at : ℕ

-- The `ValueError`s.
pub data RuleError : Type 0 where
  unknown_limit_window unknown_limit_type credits_with_model_filter duplicate_rules : RuleError

pub data Built (A : Type 0) : Type 0 where
  built : A → Built A
  invalid : RuleError → Built A

-- The members' values, and the look-up of a member by its value.
abbrev pub limit_type_value : LimitType → Text
limit_type_value total_tokens = text "total_tokens"
limit_type_value input_tokens = text "input_tokens"
limit_type_value output_tokens = text "output_tokens"
limit_type_value cost_usd = text "cost_usd"
limit_type_value credits = text "credits"

abbrev pub limit_window_value : LimitWindow → Text
limit_window_value daily = text "daily"
limit_window_value weekly = text "weekly"
limit_window_value monthly = text "monthly"
limit_window_value five_hours = text "5h"
limit_window_value seven_days = text "7d"

abbrev pub member_of : {A : Type 0} → (A → Text) → List A → Text → Option A
member_of value [] t = none
member_of value (x ∷ xs) t = if text_eq t (value x) then some x else member_of value xs t

abbrev pub limit_types : List LimitType
limit_types = total_tokens ∷ input_tokens ∷ output_tokens ∷ cost_usd ∷ credits ∷ []

abbrev pub limit_windows : List LimitWindow
limit_windows = daily ∷ weekly ∷ monthly ∷ five_hours ∷ seven_days ∷ []

abbrev pub filter_eq : Option Text → Option Text → Bool
filter_eq none none = true
filter_eq (some a) (some b) = text_eq a b
filter_eq _ _ = false

-- `_limit_identity_from_input`, `_limit_identity_from_row`, and their comparison.
pub record LimitIdentity : Type 0 where
  pub type_value : Text
  pub window_value : Text
  pub model_filter : Option Text

abbrev pub limit_identity_from_input : LimitRuleInput → LimitIdentity
limit_identity_from_input r = record {
  type_value = r.limit_type;
  window_value = r.limit_window;
  model_filter = r.model_filter;
}

abbrev pub limit_identity_from_row : ApiKeyLimit → LimitIdentity
limit_identity_from_row row = record {
  type_value = limit_type_value row.limit_type;
  window_value = limit_window_value row.limit_window;
  model_filter = row.model_filter;
}

abbrev pub identity_eq : LimitIdentity → LimitIdentity → Bool
identity_eq a b =
    text_eq a.type_value b.type_value
    && text_eq a.window_value b.window_value
    && filter_eq a.model_filter b.model_filter

-- `existing_by_key.get(identity)`: of several rows the last one is kept.
unfoldable pub find_existing : LimitIdentity → List ApiKeyLimit → Option ApiKeyLimit
find_existing identity [] = none
find_existing identity (row ∷ rest) = elim (find_existing identity rest) [
  | some later ↦ some later
  | none ↦ if identity_eq (limit_identity_from_row row) identity then some row else none
]

-- `len(submitted_by_key) != len(submitted_limits)`
unfoldable pub has_duplicates : List LimitRuleInput → Bool
has_duplicates [] = false
has_duplicates (r ∷ rest) =
    any (λ s. identity_eq (limit_identity_from_input r) (limit_identity_from_input s)) rest
    || has_duplicates rest

abbrev is_credits : Text → Bool
is_credits t = text_eq t (text "credits")

-- `_limit_input_to_row`
unfoldable pub limit_input_to_row : Text → ℕ → LimitRuleInput → ℕ → Option ℕ → Built NewLimit
limit_input_to_row key_id now li current_value reset_at =
    elim (member_of limit_window_value limit_windows li.limit_window) [
      | none ↦ invalid unknown_limit_window
      | some window ↦
          if is_credits li.limit_type && is_some li.model_filter
          then invalid credits_with_model_filter
          else (elim (member_of limit_type_value limit_types li.limit_type) [
            | none ↦ invalid unknown_limit_type
            | some type ↦ built (record {
              api_key_id = key_id;
              limit_type = type;
              limit_window = window;
              max_value = li.max_value;
              current_value = current_value;
              model_filter = li.model_filter;
              reset_at = elim reset_at [ some at ↦ at | none ↦ next_reset now window ];
            })
          ])
    ]

-- The row of one submitted rule: its usage is carried over unless there is none or it is reset.
unfoldable pub row_for_update : Text → ℕ → List ApiKeyLimit → Bool → LimitRuleInput → Built NewLimit
unfolding limit_input_to_row find_existing
row_for_update key_id now existing true submitted = limit_input_to_row key_id now submitted 0 none
row_for_update key_id now existing false submitted =
    elim (find_existing (limit_identity_from_input submitted) existing) [
      | none ↦ limit_input_to_row key_id now submitted 0 none
      | some matched ↦
          limit_input_to_row key_id now submitted matched.current_value (some matched.reset_at)
    ]

abbrev pub with_row : Built NewLimit → Built (List NewLimit) → Built (List NewLimit)
with_row (invalid e) rest = invalid e
with_row (built row) (invalid e) = invalid e
with_row (built row) (built rows) = built (row ∷ rows)

unfoldable pub rows_for_update :
    Text → ℕ → List ApiKeyLimit → Bool → List LimitRuleInput → Built (List NewLimit)
unfolding row_for_update
rows_for_update key_id now existing reset_usage [] = built []
rows_for_update key_id now existing reset_usage (submitted ∷ rest) =
    with_row (row_for_update key_id now existing reset_usage submitted)
      (rows_for_update key_id now existing reset_usage rest)

-- `_build_limit_rows_for_update`
unfoldable pub build_limit_rows_for_update :
    Text → ℕ → List LimitRuleInput → List ApiKeyLimit → Bool → Built (List NewLimit)
unfolding has_duplicates rows_for_update
build_limit_rows_for_update key_id now submitted_limits existing_limits reset_usage =
    if has_duplicates submitted_limits
    then invalid duplicate_rules
    else rows_for_update key_id now existing_limits reset_usage submitted_limits

-- `_build_reset_limit_rows`
unfoldable pub build_reset_limit_rows : Text → ℕ → List ApiKeyLimit → List NewLimit
build_reset_limit_rows key_id now existing_limits =
    map
      (λ existing. record {
        api_key_id = key_id;
        limit_type = existing.limit_type;
        limit_window = existing.limit_window;
        max_value = existing.max_value;
        current_value = 0;
        model_filter = existing.model_filter;
        reset_at = next_reset now existing.limit_window;
      })
      existing_limits
