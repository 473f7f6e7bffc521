-- ===== src/Balancer/Inputs.antt =====
-- Which accounts a selection starts from: `_load_selection_inputs` of app/modules/proxy/load_balancer.py,
-- where its cache has no entry.
pub mod Verdicts
pub mod Loaded
pub mod Excluded
mod Tests
use codex_octopus.Base.{
  ℕ, ◌+◌, ◌*◌, ◌-◌, max, ltb, leb, ◌==◌, Bool, true, false, not, ◌&&◌, ◌||◌, Option, none, some,
  get_or, if◌then◌else◌, is_some, is_empty, List, [], ◌∷◌, ◌++◌, any, filter, length, map,
}
use codex_octopus.Base.Text.{Text, text, text_eq, strip, lower}
use codex_octopus.Balancer.State.{seconds, percent}
use codex_octopus.Balancer.Runtime.{Account, BalancerSettings}
use codex_octopus.Balancer.QuotaKeys.{AdditionalQuotaDefinition, canonicalize_additional_quota_key}
use codex_octopus.Balancer.Additional.{
  AdditionalUsageHistory, is_newer, newer_of, newest, is_entry_of, is_since, latest_by_account,
  additional_usage_fresh_since, additional_usage_is_exhausted, Eligibility, exhausts,
  additional_quota_eligibility, eligible, quota_exhausted, data_unavailable,
}
use codex_octopus.Balancer.Runtime.Usage.{UsageHistory}

-- What a loading reads besides its arguments. The quota key of a limit name and the gated limit of a
-- model are looked up in a table of the deployment.
pub record Sources : Type 0 where
  pub settings : BalancerSettings
  pub accounts : List Account
  pub additional_usage : List AdditionalUsageHistory
  pub model_plans : Option (List (Text × List Text))
  pub quota_definitions : List AdditionalQuotaDefinition
  pub gated_limit_name_for_model : Option Text → Option Text
  pub latest_primary : Text → Option UsageHistory
  pub latest_secondary : Text → Option UsageHistory

-- The entry of an account for a quota key, none where a limit has no key.
abbrev pub entry_for_key :
    List AdditionalQuotaDefinition
    → List AdditionalUsageHistory
    → Text
    → Option ℕ
    → Text
    → Option Text
    → Option AdditionalUsageHistory
entry_for_key definitions rows window since account_id none = none
entry_for_key definitions rows window since account_id (some quota_key) =
    latest_by_account definitions rows quota_key window since account_id

-- `_latest_additional_by_key`
abbrev pub latest_additional_by_key :
    Sources → Text → Text → Option ℕ → Text → Option AdditionalUsageHistory
latest_additional_by_key sources limit_name window since account_id =
    entry_for_key sources.quota_definitions sources.additional_usage window since account_id (
      canonicalize_additional_quota_key sources.quota_definitions (some limit_name)
        (some limit_name))

abbrev pub eligibility_of : Sources → ℕ → Text → Account → Eligibility
eligibility_of sources now limit_name account =
    let since = additional_usage_fresh_since sources.settings now in
    additional_quota_eligibility now
      (latest_additional_by_key sources limit_name (text "primary") none account.id)
      (latest_additional_by_key sources limit_name (text "secondary") none account.id)
      (latest_additional_by_key sources limit_name (text "primary") (some since) account.id)
      (latest_additional_by_key sources limit_name (text "secondary") (some since) account.id)

abbrev pub is_eligible : Eligibility → Bool
is_eligible eligible = true
is_eligible quota_exhausted = false
is_eligible data_unavailable = false

abbrev pub lacks_data : Eligibility → Bool
lacks_data eligible = false
lacks_data quota_exhausted = false
lacks_data data_unavailable = true

pub data LoadError : Type 0 where
  no_plan_support_for_model additional_quota_data_unavailable
        no_additional_quota_eligible_accounts :
      LoadError

-- `_filter_accounts_for_additional_limit`, less its message.
unfoldable pub filter_accounts_for_additional_limit :
    Sources → ℕ → Text → List Account → List Account × Option LoadError
unfolding additional_quota_eligibility newest
filter_accounts_for_additional_limit sources now limit_name accounts =
    if is_empty accounts
    then ([], none)
    else (let eligible_accounts =
          filter (λ a. is_eligible (eligibility_of sources now limit_name a)) accounts in
        let blocked_by_data =
          any (λ a. lacks_data (eligibility_of sources now limit_name a)) accounts in
        if is_empty eligible_accounts
        then (
          [],
          some (
              if blocked_by_data
              then additional_quota_data_unavailable
              else no_additional_quota_eligible_accounts),
        )
        else (eligible_accounts, none))

abbrev pub plans_of : Text → List (Text × List Text) → Option (List Text)
plans_of model [] = none
plans_of model ((slug, plans) ∷ rest) =
    if text_eq slug model then some plans else plans_of model rest

-- `plan_types_for_model`
abbrev pub plan_types_for_model : Option (List (Text × List Text)) → Text → Option (List Text)
plan_types_for_model none model = none
plan_types_for_model (some model_plans) model = some (get_or (plans_of model model_plans) [])

-- `_mapped_model_has_registry_entry`
abbrev pub mapped_model_has_registry_entry : Option (List (Text × List Text)) → Text → Bool
mapped_model_has_registry_entry none model = false
mapped_model_has_registry_entry (some model_plans) model =
    is_some (plans_of (lower (strip model)) model_plans)

abbrev pub has_plan : Option (List Text) → Account → Bool
has_plan none account = true
has_plan (some allowed_plans) account = any (text_eq account.plan_type) allowed_plans

-- `_filter_accounts_for_model`
unfoldable pub filter_accounts_for_model :
    Option (List (Text × List Text)) → Text → List Account → List Account
filter_accounts_for_model model_plans model accounts =
    elim (plan_types_for_model model_plans model) [
      | none ↦ accounts
      | some allowed_plans ↦ filter (has_plan (some allowed_plans)) accounts
    ]

pub record SelectionInputs : Type 0 where
  pub accounts : List Account
  pub latest_primary : Text → Option UsageHistory
  pub latest_secondary : Text → Option UsageHistory
  pub runtime_accounts : List Account
  pub error_code : Option LoadError

-- A request without accounts.
abbrev pub no_inputs : Sources → Option LoadError → SelectionInputs
no_inputs sources error_code = record {
  accounts = [];
  latest_primary = λ account_id. none;
  latest_secondary = λ account_id. none;
  runtime_accounts = sources.accounts;
  error_code = error_code;
}

abbrev pub all_inputs : Sources → List Account → SelectionInputs
all_inputs sources accounts = record {
  accounts = accounts;
  latest_primary = sources.latest_primary;
  latest_secondary = sources.latest_secondary;
  runtime_accounts = sources.accounts;
  error_code = none;
}

-- `if model`: the text of a model that is given and not empty.
abbrev pub given : Option Text → Option Text
given none = none
given (some []) = none
given (some (c ∷ cs)) = some (c ∷ cs)

abbrev pub in_scope : Option (List Text) → Account → Bool
in_scope none account = true
in_scope (some account_ids) account = any (text_eq account.id) account_ids

abbrev pub scoped_accounts : Option (List Text) → List Account → List Account
scoped_accounts none accounts = accounts
scoped_accounts (some account_ids) accounts = filter (in_scope (some account_ids)) accounts

-- `additional_limit_name or _gated_limit_name_for_model(model)`
abbrev pub effective_limit_name : Sources → Option Text → Option Text → Option Text
effective_limit_name sources additional_limit_name model = elim (given additional_limit_name) [
  | some name ↦ some name
  | none ↦ sources.gated_limit_name_for_model model
]

-- Whether the accounts are filtered by the plans of the model.
abbrev pub asks_plans : Sources → Option Text → Text → Bool
asks_plans sources limit_name model =
    not (is_some limit_name) || mapped_model_has_registry_entry sources.model_plans model

-- From the filter of the additional limit on, with the limit's name if there is one.
unfoldable pub load_limited : Sources → ℕ → Option Text → List Account → SelectionInputs
unfolding filter_accounts_for_additional_limit
load_limited sources now none accounts =
    if is_empty accounts then no_inputs sources none else all_inputs sources accounts
load_limited sources now (some name) accounts =
    let (limited, error_code) = filter_accounts_for_additional_limit sources now name accounts in
    if is_empty limited then no_inputs sources error_code else all_inputs sources limited

-- From the filter of the model's plans on, with the model if there is one.
unfoldable pub load_for_model :
    Sources → ℕ → Option Text → Option Text → List Account → SelectionInputs
unfolding load_limited filter_accounts_for_model
load_for_model sources now none limit_name scoped =
    load_limited sources now (given limit_name) scoped
load_for_model sources now (some model) limit_name scoped =
    let accounts =
      if asks_plans sources limit_name model
      then filter_accounts_for_model sources.model_plans model scoped
      else scoped in
    if is_empty accounts
    then (if is_empty sources.accounts
        then no_inputs sources none
        else if is_empty scoped
        then no_inputs sources none
        else no_inputs sources (some no_plan_support_for_model))
    else load_limited sources now (given limit_name) accounts

-- `_load_selection_inputs`
unfoldable pub load_selection_inputs :
    Sources → ℕ → Option Text → Option Text → Option (List Text) → SelectionInputs
unfolding load_for_model
load_selection_inputs sources now model additional_limit_name account_ids =
    load_for_model sources now (given model)
      (effective_limit_name sources additional_limit_name model)
      (scoped_accounts account_ids sources.accounts)

abbrev pub is_excluded : List Text → Account → Bool
is_excluded excluded_ids account = any (text_eq account.id) excluded_ids

-- `load_selection_inputs` within `select_account`: the accounts that have been tried are left out.
unfoldable pub load_unless_excluded :
    Sources → ℕ → Option Text → Option Text → Option (List Text) → List Text → SelectionInputs
unfolding load_selection_inputs
load_unless_excluded sources now model additional_limit_name account_ids excluded_ids =
    let selection_inputs =
      load_selection_inputs sources now model additional_limit_name account_ids in
    if not (is_empty excluded_ids) && not (is_empty selection_inputs.accounts)
    then record selection_inputs {
      accounts = filter (λ a. not (is_excluded excluded_ids a)) selection_inputs.accounts;
    }
    else selection_inputs
