-- ===== src/Balancer/Inputs/Tests.antt =====
-- Loadings of accounts, on concrete data.
use codex_octopus.Base.{
  ℕ, ◌≡◌, refl, not, ◌&&◌, ◌||◌, true, Option, none, some, [], ◌∷◌, is_some, filter, map,
}
use codex_octopus.Base.Text.{Text, text, strip, lower, is_space, strip_left}
use codex_octopus.Balancer.State.{AccountStatus, percent, seconds}
use codex_octopus.Balancer.Health.{default_thresholds}
use codex_octopus.Balancer.Runtime.{Account}
use codex_octopus.Balancer.Additional.{
  AdditionalUsageHistory, additional_quota_match_clause, additional_quota_eligibility, newest,
  additional_usage_is_exhausted,
}
use codex_octopus.Balancer.QuotaKeys.{
  canonicalize_additional_quota_key, get_additional_quota_query_scope,
  get_additional_quota_definition, normalize_identifier, underscored,
}
use codex_octopus.Balancer.Inputs.{
  Sources, load_selection_inputs, load_unless_excluded, is_excluded, load_for_model, load_limited,
  filter_accounts_for_model, filter_accounts_for_additional_limit, eligibility_of, is_eligible,
  lacks_data, additional_quota_data_unavailable, latest_additional_by_key, in_scope,
}
use codex_octopus.Balancer.Inputs.Verdicts.{permits, is_stale, eligibility_of_lem}
use codex_octopus.Balancer.Inputs.Loaded.{is_kept, load_error}
use codex_octopus.Balancer.Inputs.Excluded.{load_unless_excluded_lem}

abbrev account : Text → Text → Account
account id plan_type = record {
  id = id;
  plan_type = plan_type;
  status = AccountStatus.active;
  deactivation_reason = none;
  reset_at = none;
  blocked_at = none;
}

abbrev entry : ℕ → Text → Text → Text → ℕ → ℕ → AdditionalUsageHistory
entry id account_id quota_key limit_name used recorded_at = record {
  id = id;
  account_id = account_id;
  quota_key = quota_key;
  limit_name = limit_name;
  metered_feature = text "codex_other";
  window = text "primary";
  used_percent = some used;
  reset_at = none;
  recorded_at = recorded_at;
}

-- Of the four accounts two have a plan for the model, one of them has run out of its quota; the entry of
-- the last, which is stored under another key and the limit's name, is too old.
abbrev sources : Sources
sources = record {
  settings = record {
    soft_drain_enabled = true;
    thresholds = default_thresholds;
    usage_refresh_interval_seconds = seconds 60;
  };
  accounts =
      account (text "a") (text "pro")
      ∷ account (text "b") (text "pro")
      ∷ account (text "c") (text "free")
      ∷ account (text "d") (text "pro")
      ∷ [];
  additional_usage =
      entry 1 (text "a") (text "codex_spark") (text "x") (percent 100) (seconds 900)
      ∷ entry 2 (text "a") (text "spark") (text "x") (percent 30) (seconds 1000)
      ∷ entry 3 (text "b") (text "codex_spark") (text "x") (percent 100) (seconds 1000)
      ∷ entry 4 (text "d") (text "old") (text "GPT-5-Spark") (percent 10) (seconds 10)
      ∷ [];
  model_plans = some ((text "spark-model", text "pro" ∷ []) ∷ []);
  quota_definitions =
      record {
        quota_key = text "codex_spark";
        quota_key_aliases = text "spark" ∷ [];
        limit_name_aliases = text "gpt_5_spark" ∷ [];
        metered_feature_aliases = [];
        raw_limit_name_aliases = text "GPT-5-Spark" ∷ [];
        raw_metered_feature_aliases = [];
      }
      ∷ [];
  gated_limit_name_for_model = λ model. none;
  latest_primary = λ account_id. none;
  latest_secondary = λ account_id. none;
}

abbrev now : ℕ
now = seconds 1010

abbrev spark : Option Text
spark = some (text "spark")

abbrev spark_model : Option Text
spark_model = some (text "spark-model")

keeps_one :
    map (λ a. a.id) (load_selection_inputs sources now spark_model spark none).accounts
    ≡ text "a" ∷ []
unfolding load_selection_inputs load_for_model load_limited filter_accounts_for_model
    filter_accounts_for_additional_limit additional_quota_eligibility newest
    additional_usage_is_exhausted lower strip strip_left is_space canonicalize_additional_quota_key
    get_additional_quota_query_scope get_additional_quota_definition normalize_identifier
    underscored additional_quota_match_clause
keeps_one = refl

reports_stale :
    (load_selection_inputs sources now spark_model spark
      (some (text "b" ∷ text "d" ∷ []))).error_code
    ≡ some additional_quota_data_unavailable
unfolding load_selection_inputs load_for_model load_limited filter_accounts_for_model
    filter_accounts_for_additional_limit additional_quota_eligibility newest
    additional_usage_is_exhausted lower strip strip_left is_space canonicalize_additional_quota_key
    get_additional_quota_query_scope get_additional_quota_definition normalize_identifier
    underscored additional_quota_match_clause
reports_stale = refl

load_unless_excluded_lem_example :
    let inputs = load_unless_excluded sources now spark_model spark none (text "b" ∷ []) in
    (inputs.accounts
      ≡ filter
          (λ a. is_kept sources now spark_model spark none a && not (is_excluded (text "b" ∷ []) a))
          sources.accounts)
    × (inputs.error_code
        ≡ load_error sources now spark_model spark (filter (in_scope none) sources.accounts))
load_unless_excluded_lem_example =
    load_unless_excluded_lem sources now spark_model spark none (text "b" ∷ [])

eligibility_of_lem_example :
    let primary =
      latest_additional_by_key sources (text "spark") (text "primary") none (text "a") in
    let secondary =
      latest_additional_by_key sources (text "spark") (text "secondary") none (text "a") in
    let since = seconds 830 in
    (is_eligible (eligibility_of sources now (text "spark") (account (text "a") (text "pro"))) ≡ (
      (is_some primary || is_some secondary)
      && permits now since primary
      && permits now since secondary))
    × (lacks_data (eligibility_of sources now (text "spark") (account (text "a") (text "pro"))) ≡ (
        not (is_some primary || is_some secondary)
        || is_stale since primary
        || is_stale since secondary))
eligibility_of_lem_example =
    eligibility_of_lem sources now (text "spark") (account (text "a") (text "pro"))
