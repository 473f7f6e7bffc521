-- ===== src/Balancer/Tests.antt =====
-- Runs of the balancer on concrete accounts.
use codex_octopus.Base.{
  ℕ, ◌+◌, ◌*◌, ◌≤◌, ◌<◌, ◌≡◌, refl, ◌≢◌, ◌↔◌, ◌⊎◌, inl, inr, Bool, true, false, Option, none, some,
  List, [], ◌∷◌, ◌++◌, arith, In, sum_of, ltb, leb, ◌==◌, length, filter, any, or_else, is_set,
}
use codex_octopus.Base.Text.{Text, text, strip, lower, is_space}
use codex_octopus.Base
use codex_octopus.Base.Int.{lex_ltb}
use codex_octopus.Balancer.State.{
  AccountState, AccountStatus, percent, usage_sort_key, health_tier_draining, health_tier_probing,
}
use codex_octopus.Balancer.Capacity.{
  remaining_secondary_credits, fallback_secondary_capacity_credits,
}
use codex_octopus.Balancer.Examine.{
  Sound, examine, examine-Sound, IsReady, available, check_status, check_cooldown, check_errors,
}
use codex_octopus.Balancer.Select.{
  Routing, usage_weighted, capacity_weighted, select_account, examine_all, decide_selection, route,
  route_by, effective_pool, backoff_fallback, unavailable, all_paused,
}
use codex_octopus.Balancer.Select.Pool.{rank}
use codex_octopus.Balancer.Select.Laws.{Selectable, select_account_selects, select_account_total}
use codex_octopus.Balancer.Select.Order.{select_account-IsLeast, strategy_key}
use codex_octopus.Balancer.Events.{
  UpstreamError, cooldown_end, extract_reset_at, handle_rate_limit, handle_rate_limit_recovers,
}
use codex_octopus.Balancer.RetryAfter.{parse_retry_after}
use codex_octopus.Balancer.Quota.{QuotaInputs}
use codex_octopus.Balancer.Health.{default_thresholds, evaluate_health_tier, here, next, Run-probes}

abbrev account : Text → AccountState
account id = record {
  account_id = id;
  status = AccountStatus.active;
  used_percent = some (percent 10);
  reset_at = none;
  blocked_at = none;
  cooldown_until = none;
  secondary_used_percent = some (percent 20);
  secondary_reset_at = none;
  last_error_at = none;
  last_selected_at = none;
  error_count = 0;
  deactivation_reason = none;
  plan_type = some (text "plus");
  capacity_credits = none;
  health_tier = 0;
}

abbrev alice : AccountState
alice = account (text "alice")

-- Busier than alice.
abbrev bob : AccountState
bob = record (account (text "bob")) { secondary_used_percent = some (percent 60) }

abbrev paused_account : AccountState
paused_account = record (account (text "carol")) { status = AccountStatus.paused }

-- Rate limited until 4 seconds.
abbrev limited_account : AccountState
limited_account = record (account (text "dave")) {
  status = AccountStatus.rate_limited;
  reset_at = some 4000;
}

abbrev accounts : List AccountState
accounts = bob ∷ paused_account ∷ alice ∷ []

abbrev by_usage : Routing
by_usage = record {
  prefer_earlier_reset = false;
  routing_strategy = usage_weighted;
  allow_backoff_fallback = true;
  deterministic_probe = false;
  random = 0;
}

selects_alice : (select_account by_usage 5000 accounts).1.account ≡ some alice
unfolding select_account examine_all examine check_status check_cooldown check_errors
    decide_selection effective_pool route route_by usage_sort_key Base.min_by lex_ltb
selects_alice = refl

-- With everybody paused, or limited until a later time, the error says so.
nobody_paused :
    (select_account by_usage 5000 (paused_account ∷ [])).1
    ≡ record { account = none; error_message = some all_paused }
unfolding select_account examine_all examine check_status decide_selection backoff_fallback
    unavailable
nobody_paused = refl

alice_available : (examine 5000 alice).1 ≡ available
unfolding examine check_status check_cooldown check_errors
alice_available = refl

alice_after : (examine 5000 alice).0 ≡ alice
unfolding examine check_status check_cooldown check_errors
alice_after = refl

select_account_selects_example :
    In alice (select_account by_usage 5000 accounts).0 × Selectable by_usage 5000 accounts alice
select_account_selects_example = select_account_selects by_usage 5000 accounts alice selects_alice

select_account_total_example :
    (a : AccountState) × ((select_account by_usage 5000 accounts).1
      ≡ record { account = some a; error_message = none })
    × IsReady 5000 a
    × (rank a.health_tier ≤ rank (examine 5000 alice).0.health_tier)
select_account_total_example =
    select_account_total by_usage 5000 accounts alice (inr (inr (inl refl))) alice_available

bob_available : (examine 5000 bob).1 ≡ available
unfolding examine check_status check_cooldown check_errors
bob_available = refl

same_rank : rank (examine 5000 bob).0.health_tier ≡ rank alice.health_tier
unfolding examine check_status check_cooldown check_errors
same_rank = refl

by_usage_strategy : by_usage.routing_strategy ≢ capacity_weighted
by_usage_strategy e = ground arith

select_account-IsLeast_example :
    lex_ltb (strategy_key by_usage 5000 (examine 5000 bob).0) (strategy_key by_usage 5000 alice)
    ≡ false
select_account-IsLeast_example =
    select_account-IsLeast by_usage 5000 accounts alice bob by_usage_strategy selects_alice
      (inl refl) bob_available same_rank

examine-Sound_example : Sound 5000 (examine 5000 limited_account)
examine-Sound_example = examine-Sound 5000 limited_account

has_credits : 0 < sum_of remaining_secondary_credits (alice ∷ bob ∷ [])
unfolding remaining_secondary_credits fallback_secondary_capacity_credits strip lower is_space
has_credits = omega arith

alice_credits : sum_of remaining_secondary_credits (alice ∷ []) ≤ 60480000
unfolding remaining_secondary_credits fallback_secondary_capacity_credits strip lower is_space
alice_credits = omega arith

bob_credits :
    60480000 < sum_of remaining_secondary_credits (alice ∷ []) + remaining_secondary_credits bob
unfolding remaining_secondary_credits fallback_secondary_capacity_credits strip lower is_space
bob_credits = omega arith

abbrev in_ten_seconds : UpstreamError
in_ten_seconds = record {
  message = some (text "Please try again in 10s");
  resets_at = some 12000;
  resets_in_seconds = none;
}

waits_ten_seconds : 7000 < cooldown_end 1000 2000 in_ten_seconds alice
unfolding parse_retry_after lower is_space
waits_ten_seconds = omega arith

resets : extract_reset_at 2000 in_ten_seconds ≡ some 12000
unfolding extract_reset_at
resets = refl

cooled_down : cooldown_end 1000 2000 in_ten_seconds alice ≤ 12500
unfolding parse_retry_after lower is_space
cooled_down = omega arith

handle_rate_limit_recovers_example :
    let (after, verdict) = examine 12500 (handle_rate_limit 1000 2000 in_ten_seconds alice) in
    (verdict ≡ available) × (after.status ≡ AccountStatus.active) × (after.error_count ≡ 0)
handle_rate_limit_recovers_example =
    handle_rate_limit_recovers 1000 2000 12500 12000 in_ten_seconds alice resets (omega arith)
      (omega arith) cooled_down

abbrev exhausted : QuotaInputs
exhausted = record {
  status = AccountStatus.active;
  primary_used = some (percent 50);
  primary_reset = none;
  primary_window_minutes = none;
  runtime_reset = none;
  secondary_used = some (percent 100);
  secondary_reset = some 9000;
}

not_paused : exhausted.status ≢ AccountStatus.paused
not_paused e = ground arith

not_deactivated : exhausted.status ≢ AccountStatus.deactivated
not_deactivated e = ground arith

abbrev draining_account : AccountState
draining_account = record (account (text "erin")) { health_tier = 1 }

Run-probes_example :
    In health_tier_probing
      (evaluate_health_tier default_thresholds 90000 (some 1000) 0 draining_account ∷ [])
    ⊎ (evaluate_health_tier default_thresholds 90000 (some 1000) 0 draining_account
        ≡ health_tier_draining)
Run-probes_example =
    Run-probes default_thresholds
      (evaluate_health_tier default_thresholds 90000 (some 1000) 0 draining_account)
      (evaluate_health_tier default_thresholds 90000 (some 1000) 0 draining_account ∷ [])
      (next 90000 (some 1000) 0 draining_account here refl)
