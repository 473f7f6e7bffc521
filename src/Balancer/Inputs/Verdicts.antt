-- ===== src/Balancer/Inputs/Verdicts.antt =====
-- Which accounts an additional quota lets through: `_additional_quota_eligibility` of
-- app/modules/proxy/load_balancer.py, on the entries of the table.
use codex_octopus.Base.{
  ℕ, leb, not, ◌≡◌, refl, Bool, true, false, ◌&&◌, ◌||◌, Option, none, some, is_some, List, arith,
}
use codex_octopus.Base.Text.{Text, text}
use codex_octopus.Balancer.Runtime.{Account}
use codex_octopus.Balancer.QuotaKeys.{
  AdditionalQuotaDefinition, AdditionalQuotaQueryScope, canonicalize_additional_quota_key,
  get_additional_quota_query_scope,
}
use codex_octopus.Balancer.Additional.{
  latest_in_scope, AdditionalUsageHistory, additional_quota_eligibility, exhausts,
  additional_usage_fresh_since, is_entry_of,
}
use codex_octopus.Balancer.Inputs.{
  Sources, is_eligible, lacks_data, eligibility_of, latest_additional_by_key, entry_for_key,
}
use codex_octopus.Balancer.Additional.Newest.{recent, newest_since}

-- A window has an entry that is too old.
abbrev pub is_stale : ℕ → Option AdditionalUsageHistory → Bool
is_stale since none = false
is_stale since (some r) = not (leb since r.recorded_at)

-- A window does not speak against an account: it has no entry, or a recent one that is not exhausted.
abbrev pub permits : ℕ → ℕ → Option AdditionalUsageHistory → Bool
permits now since none = true
permits now since (some r) = leb since r.recorded_at && not (exhausts now (some r))

verdict_of_latest :
    (now since : ℕ) (primary secondary : Option AdditionalUsageHistory)
    → let verdict =
        additional_quota_eligibility now primary secondary
          (recent since primary)
          (recent since secondary) in
      (is_eligible verdict ≡ (
        (is_some primary || is_some secondary)
        && permits now since primary
        && permits now since secondary))
      × (lacks_data verdict ≡ (
          not (is_some primary || is_some secondary)
          || is_stale since primary
          || is_stale since secondary))
unfolding additional_quota_eligibility
verdict_of_latest now since none none = (refl, refl)
verdict_of_latest now since none (some s) = (ground arith, ground arith)
verdict_of_latest now since (some p) none = (ground arith, ground arith)
verdict_of_latest now since (some p) (some s) = (ground arith, ground arith)

scope_recent :
    (rows : List AdditionalUsageHistory) (window : Text) (since : ℕ) (account_id : Text)
    (scope : Option AdditionalQuotaQueryScope)
    → latest_in_scope rows window (some since) account_id scope
      ≡ recent since (latest_in_scope rows window none account_id scope)
scope_recent rows window since account_id none = refl
scope_recent rows window since account_id (some scope) =
    newest_since (is_entry_of scope window account_id) since rows

entry_recent :
    (definitions : List AdditionalQuotaDefinition) (rows : List AdditionalUsageHistory)
    (window : Text) (since : ℕ) (account_id : Text) (key : Option Text)
    → entry_for_key definitions rows window (some since) account_id key
      ≡ recent since (entry_for_key definitions rows window none account_id key)
entry_recent definitions rows window since account_id none = refl
entry_recent definitions rows window since account_id (some key) =
    scope_recent rows window since account_id (get_additional_quota_query_scope definitions key)

-- An account is eligible for an additional limit just if one of its two windows has an entry and the latest
-- entry of each window that has one is recent enough and not exhausted; and it lacks data just if no window
-- has an entry or the latest entry of one is too old.
pub eligibility_of_lem :
    (sources : Sources) (now : ℕ) (limit_name : Text) (account : Account)
    → let since = additional_usage_fresh_since sources.settings now in
      let primary = latest_additional_by_key sources limit_name (text "primary") none account.id in
      let secondary =
        latest_additional_by_key sources limit_name (text "secondary") none account.id in
      (is_eligible (eligibility_of sources now limit_name account) ≡ (
        (is_some primary || is_some secondary)
        && permits now since primary
        && permits now since secondary))
      × (lacks_data (eligibility_of sources now limit_name account) ≡ (
          not (is_some primary || is_some secondary)
          || is_stale since primary
          || is_stale since secondary))
eligibility_of_lem sources now limit_name account =
    let since = additional_usage_fresh_since sources.settings now in
    let definitions = sources.quota_definitions in
    let key = canonicalize_additional_quota_key definitions (some limit_name) (some limit_name) in
    rw
      (
        entry_recent definitions sources.additional_usage (text "primary") since account.id key,
        entry_recent definitions sources.additional_usage (text "secondary") since account.id key,
      )
      (verdict_of_latest now since _ _)
