-- ===== src/ApiKeys/Rules/Tests.antt =====
-- An update of the limits of a key.
use codex_octopus.Base.{◌≡◌, refl, false, none, some, List, [], ◌∷◌}
use codex_octopus.Base.Text.{text}
use codex_octopus.ApiKeys.Limits.{ApiKeyLimit, LimitType, daily, weekly, next_reset}
use codex_octopus.ApiKeys.Rules.{
  LimitRuleInput, NewLimit, built, invalid, duplicate_rules, credits_with_model_filter,
  find_existing, has_duplicates, limit_input_to_row, row_for_update, rows_for_update,
  build_limit_rows_for_update,
}
use codex_octopus.ApiKeys.Rules.Carry.{AllCarry, build_limit_rows_for_update-AllCarry}

abbrev daily_tokens : LimitRuleInput
daily_tokens = record {
  limit_type = text "total_tokens";
  limit_window = text "daily";
  max_value = 50000;
  model_filter = none;
}

abbrev weekly_cost : LimitRuleInput
weekly_cost = record {
  limit_type = text "cost_usd";
  limit_window = text "weekly";
  max_value = 900;
  model_filter = some (text "gpt");
}

abbrev existing_tokens : ApiKeyLimit
existing_tokens = record {
  id = 1;
  api_key_id = text "key-1";
  limit_type = LimitType.total_tokens;
  limit_window = daily;
  max_value = 10000;
  current_value = 9000;
  model_filter = none;
  reset_at = 70000;
}

-- The first rule carries the usage over, the second is new.
abbrev updated_rows : List NewLimit
updated_rows =
    record {
      api_key_id = text "key-1";
      limit_type = LimitType.total_tokens;
      limit_window = daily;
      max_value = 50000;
      current_value = 9000;
      model_filter = none;
      reset_at = 70000;
    }
    ∷ record {
      api_key_id = text "key-1";
      limit_type = LimitType.cost_usd;
      limit_window = weekly;
      max_value = 900;
      current_value = 0;
      model_filter = some (text "gpt");
      reset_at = 604805000;
    }
    ∷ []

builds :
    build_limit_rows_for_update
      (text "key-1")
      5000
      (daily_tokens ∷ weekly_cost ∷ [])
      (existing_tokens ∷ [])
      false
    ≡ built updated_rows
unfolding build_limit_rows_for_update has_duplicates rows_for_update row_for_update
    limit_input_to_row find_existing next_reset
builds = refl

build_limit_rows_for_update-AllCarry_example :
    (has_duplicates (daily_tokens ∷ weekly_cost ∷ []) ≡ false)
    × AllCarry
        (text "key-1")
        5000
        (existing_tokens ∷ [])
        false
        (daily_tokens ∷ weekly_cost ∷ [])
        updated_rows
build_limit_rows_for_update-AllCarry_example =
    build_limit_rows_for_update-AllCarry (text "key-1") 5000 (daily_tokens ∷ weekly_cost ∷ [])
      (existing_tokens ∷ []) false updated_rows builds

refuses_duplicates :
    build_limit_rows_for_update (text "key-1") 5000 (daily_tokens ∷ daily_tokens ∷ []) [] false
    ≡ invalid duplicate_rules
unfolding build_limit_rows_for_update has_duplicates
refuses_duplicates = refl

refuses_filtered_credits :
    limit_input_to_row
      (text "key-1")
      5000
      (record weekly_cost { limit_type = text "credits" })
      0
      none
    ≡ invalid credits_with_model_filter
unfolding limit_input_to_row
refuses_filtered_credits = refl
