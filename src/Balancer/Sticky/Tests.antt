-- ===== src/Balancer/Sticky/Tests.antt =====
-- Runs of `_select_with_stickiness` on two accounts.
use codex_octopus.Base.{
  ℕ, ◌≡◌, refl, Bool, true, false, Option, none, some, List, [], ◌∷◌, arith, any,
}
use codex_octopus.Base.Text.{text}
use codex_octopus.Balancer.State.{AccountState, AccountStatus, percent, seconds, usage_sort_key}
use codex_octopus.Balancer.Examine.{examine, check_cooldown, check_errors, available}
use codex_octopus.Balancer.Select.{
  usage_weighted, select_account, examine_all, decide_selection, route, effective_pool,
  backoff_fallback,
}
use codex_octopus.Base
use codex_octopus.Balancer.Sticky.Entries.{StickySession, prompt_cache, get_entry}
use codex_octopus.Balancer.Sticky.{
  StickyRequest, StickyResult, select_with_stickiness, budget_exhausted, rate_limit_far_away,
}
use codex_octopus.Balancer.Sticky.Keeps.{IsPinned}
use codex_octopus.Balancer.Sticky.Returns.{
  IsPreserved, Serves, FallsBack, pinned_account_answers, sticky_returns,
}

abbrev other : AccountState
other = record {
  account_id = text "b";
  status = AccountStatus.active;
  used_percent = some (percent 10);
  reset_at = none;
  blocked_at = none;
  cooldown_until = none;
  secondary_used_percent = some (percent 20);
  secondary_reset_at = none;
  last_error_at = none;
  last_selected_at = none;
  error_count = 0;
  deactivation_reason = none;
  plan_type = none;
  capacity_credits = none;
  health_tier = 0;
}

-- The account of the session, rate limited for a minute.
abbrev own : AccountState
own = record other {
  account_id = text "a";
  status = AccountStatus.rate_limited;
  reset_at = some (seconds 60);
}

abbrev entry : StickySession
entry = record { key = text "k"; kind = prompt_cache; account_id = text "a"; updated_at = 0 }

abbrev request : StickyRequest
request = record {
  sticky_key = text "k";
  sticky_kind = some prompt_cache;
  reallocate_sticky = false;
  sticky_max_age_seconds = some (seconds 1800);
  budget_threshold_pct = percent 95;
  routing = record {
    prefer_earlier_reset = false;
    routing_strategy = usage_weighted;
    allow_backoff_fallback = true;
    deterministic_probe = false;
    random = 0;
  };
  account_map = text "a" ∷ text "b" ∷ [];
}

abbrev states : List AccountState
states = own ∷ other ∷ []

limited-IsPinned : IsPinned request prompt_cache 0 (entry ∷ []) states entry own
unfolding get_entry budget_exhausted rate_limit_far_away
limited-IsPinned = record {
  has_key = refl;
  has_kind = refl;
  has_entry = refl;
  is_fresh = refl;
  names_account = refl;
  has_state = refl;
  has_budget = refl;
  is_near = refl;
}

later-IsPinned : IsPinned request prompt_cache (seconds 61) (entry ∷ []) states entry own
unfolding get_entry budget_exhausted rate_limit_far_away
later-IsPinned = record {
  has_key = refl;
  has_kind = refl;
  has_entry = refl;
  is_fresh = refl;
  names_account = refl;
  has_state = refl;
  has_budget = refl;
  is_near = refl;
}

limited-IsPreserved : IsPreserved request 0 own
unfolding examine
limited-IsPreserved = record {
  is_asked = refl;
  has_age = refl;
  recovers = refl;
  is_down = refl;
  stays_down = refl;
}

recovered : (examine (seconds 61) own).1 ≡ available
unfolding examine check_cooldown check_errors
recovered = refl

-- While the account is limited, the other one serves and the entry stays.
falls_back :
    select_with_stickiness request 0 (entry ∷ []) states
    ≡ some (record {
      rows = entry ∷ [];
      states = states;
      result = record { account = some other; error_message = none };
    })
unfolding select_with_stickiness examine check_cooldown check_errors select_account examine_all
    decide_selection route effective_pool get_entry usage_sort_key backoff_fallback Base.min_by
falls_back = refl

pinned_account_answers_example :
    (r : StickyResult) × (select_with_stickiness request (seconds 61) (entry ∷ []) states ≡ some r)
    × Serves request prompt_cache (examine (seconds 61) own).0 (text "a") r
pinned_account_answers_example =
    pinned_account_answers request prompt_cache (seconds 61) (entry ∷ []) states entry own
      later-IsPinned recovered

sticky_returns_example :
    (r : StickyResult) × (select_with_stickiness request 0 (entry ∷ []) states ≡ some r)
    × FallsBack request 0 own (entry ∷ []) states r
    × ((again : StickyResult) × (select_with_stickiness request (seconds 61) r.rows states
          ≡ some again)
        × Serves request prompt_cache (examine (seconds 61) own).0 (text "a") again)
sticky_returns_example =
    sticky_returns request prompt_cache 0 (seconds 61) (entry ∷ []) states states entry own own
      limited-IsPinned limited-IsPreserved later-IsPinned recovered
