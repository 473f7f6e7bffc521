-- ===== src/Balancer/Additional.antt =====
-- The quota of an additional limit that an account has left: `_additional_quota_eligibility` of
-- app/modules/proxy/load_balancer.py, with `latest_by_account` of app/modules/usage/repository.py.
pub mod Newest
use codex_octopus.Base.{
  ℕ, ◌+◌, ◌*◌, ◌-◌, max, ltb, leb, ◌==◌, Bool, true, false, not, ◌&&◌, ◌||◌, Option, none, some,
  get_or, if◌then◌else◌, or_else, is_some, is_empty, List, [], ◌∷◌, ◌++◌, any, filter, length, map,
}
use codex_octopus.Balancer.QuotaKeys.{
  AdditionalQuotaDefinition, AdditionalQuotaQueryScope, get_additional_quota_query_scope, is_in,
}
use codex_octopus.Base.Text.{lower, Text, text_eq}
use codex_octopus.Balancer.State.{seconds, percent}
use codex_octopus.Balancer.Runtime.{BalancerSettings}

-- The columns that are read. The usage is in hundredths of a percent, moments are milliseconds.
pub record AdditionalUsageHistory : Type 0 where
  pub id : ℕ
  pub account_id : Text
  pub quota_key : Text
  pub limit_name : Text
  pub metered_feature : Text
  pub window : Text
  pub used_percent : Option ℕ
  pub reset_at : Option ℕ
  pub recorded_at : ℕ

-- `order_by(recorded_at.desc(), id.desc())`
abbrev pub is_newer : AdditionalUsageHistory → AdditionalUsageHistory → Bool
is_newer r s =
    ltb s.recorded_at r.recorded_at || ((r.recorded_at == s.recorded_at) && ltb s.id r.id)

abbrev pub newer_of :
    AdditionalUsageHistory → Option AdditionalUsageHistory → AdditionalUsageHistory
newer_of r none = r
newer_of r (some s) = if is_newer r s then r else s

-- The row with row number 1 among those that fulfil the conditions.
unfoldable pub newest :
    (AdditionalUsageHistory → Bool) → List AdditionalUsageHistory → Option AdditionalUsageHistory
newest condition [] = none
newest condition (r ∷ rows) =
    let rest = newest condition rows in if condition r then some (newer_of r rest) else rest

-- `_additional_quota_match_clause`; what has no match values matches nothing.
unfoldable pub additional_quota_match_clause :
    AdditionalQuotaQueryScope → AdditionalUsageHistory → Bool
unfolding lower
additional_quota_match_clause scope r =
    is_in r.quota_key (or_else scope.quota_key_match_values (scope.quota_key ∷ []))
    || is_in (lower r.limit_name) scope.limit_name_match_values
    || is_in (lower r.metered_feature) scope.metered_feature_match_values

-- The conditions of `latest_by_account`, of one account.
abbrev pub is_entry_of : AdditionalQuotaQueryScope → Text → Text → AdditionalUsageHistory → Bool
is_entry_of scope window account_id r =
    additional_quota_match_clause scope r
    && text_eq r.window window
    && text_eq r.account_id account_id

abbrev pub is_since : Option ℕ → AdditionalUsageHistory → Bool
is_since none r = true
is_since (some since) r = leb since r.recorded_at

-- The entry of an account among the rows of a scope.
abbrev pub latest_in_scope :
    List AdditionalUsageHistory
    → Text
    → Option ℕ
    → Text
    → Option AdditionalQuotaQueryScope
    → Option AdditionalUsageHistory
latest_in_scope rows window since account_id none = none
latest_in_scope rows window since account_id (some scope) =
    newest (λ r. is_since since r && is_entry_of scope window account_id r) rows

-- The entry of an account in what `latest_by_account` returns, for accounts that are asked for. The key
-- comes from `canonicalize_additional_quota_key` and is not blank, so it has a scope and the code does
-- not raise its ValueError.
abbrev pub latest_by_account :
    List AdditionalQuotaDefinition
    → List AdditionalUsageHistory
    → Text
    → Text
    → Option ℕ
    → Text
    → Option AdditionalUsageHistory
latest_by_account definitions rows quota_key window since account_id =
    latest_in_scope rows window since account_id
      (get_additional_quota_query_scope definitions quota_key)

-- `_additional_usage_fresh_since`
abbrev pub additional_usage_fresh_since : BalancerSettings → ℕ → ℕ
additional_usage_fresh_since settings now =
    now - max (settings.usage_refresh_interval_seconds * 2) (seconds 180)

-- `_additional_usage_is_exhausted`
unfoldable pub additional_usage_is_exhausted : ℕ → AdditionalUsageHistory → Bool
additional_usage_is_exhausted now entry = elim entry.used_percent [
  | none ↦ false
  | some used ↦ elim entry.reset_at [
    | none ↦ leb (percent 100) used
    | some reset_at ↦ if leb reset_at now then false else leb (percent 100) used
  ]
]

pub data Eligibility : Type 0 where
  eligible quota_exhausted data_unavailable : Eligibility

-- An entry is there and exhausted.
abbrev pub exhausts : ℕ → Option AdditionalUsageHistory → Bool
exhausts now none = false
exhausts now (some entry) = additional_usage_is_exhausted now entry

-- `_additional_quota_eligibility`, on the entries of the account.
unfoldable pub additional_quota_eligibility :
    ℕ
    → Option AdditionalUsageHistory
    → Option AdditionalUsageHistory
    → Option AdditionalUsageHistory
    → Option AdditionalUsageHistory
    → Eligibility
additional_quota_eligibility now latest_primary latest_secondary fresh_primary fresh_secondary =
    if not (is_some latest_primary) && not (is_some latest_secondary)
    then data_unavailable
    else if is_some latest_primary && not (is_some fresh_primary)
    then data_unavailable
    else if is_some latest_secondary && not (is_some fresh_secondary)
    then data_unavailable
    else if exhausts now fresh_primary
    then quota_exhausted
    else if exhausts now fresh_secondary
    then quota_exhausted
    else eligible
