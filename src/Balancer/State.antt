-- ===== src/Balancer/State.antt =====
-- The account record of app/core/balancer/logic.py, its statuses (app/db/models.py), and the keys
-- by which accounts are ordered. Times are in milliseconds and percentages in hundredths.
use codex_octopus.Base.{
  ℕ, ◌-◌, ◌*◌, ◌/◌, Bool, true, false, Option, none, some, get_or, List, ◌∷◌, map,
}
use codex_octopus.Base.Int.{ℤ, pos}
use codex_octopus.Base.Text.{Text}

pub data AccountStatus : Type 0 where
  active rate_limited quota_exceeded paused deactivated : AccountStatus

abbrev pub status_eq : AccountStatus → AccountStatus → Bool
status_eq AccountStatus.active AccountStatus.active = true
status_eq AccountStatus.rate_limited AccountStatus.rate_limited = true
status_eq AccountStatus.quota_exceeded AccountStatus.quota_exceeded = true
status_eq AccountStatus.paused AccountStatus.paused = true
status_eq AccountStatus.deactivated AccountStatus.deactivated = true
status_eq _ _ = false

-- A number of seconds, in the unit of the clock.
abbrev pub seconds : ℕ → ℕ
seconds n = n * 1000

-- A whole percentage, in hundredths.
abbrev pub percent : ℕ → ℕ
percent n = n * 100

abbrev pub seconds_per_day : ℕ
seconds_per_day = 60 * 60 * 24

abbrev pub unknown_reset_bucket_days : ℕ
unknown_reset_bucket_days = 10000

abbrev pub health_tier_healthy : ℕ
health_tier_healthy = 0

abbrev pub health_tier_draining : ℕ
health_tier_draining = 1

abbrev pub health_tier_probing : ℕ
health_tier_probing = 2

pub record AccountState : Type 0 where
  pub account_id : Text
  pub status : AccountStatus
  pub used_percent : Option ℕ
  pub reset_at : Option ℕ
  pub blocked_at : Option ℕ
  pub cooldown_until : Option ℕ
  pub secondary_used_percent : Option ℕ
  pub secondary_reset_at : Option ℕ
  pub last_error_at : Option ℕ
  pub last_selected_at : Option ℕ
  pub error_count : ℕ
  pub deactivation_reason : Option Text
  pub plan_type : Option Text
  pub capacity_credits : Option ℕ
  pub health_tier : ℕ

abbrev primary_used : AccountState → ℕ
primary_used state = get_or state.used_percent 0

abbrev secondary_used : AccountState → ℕ
secondary_used state = get_or state.secondary_used_percent (primary_used state)

abbrev last_selected : AccountState → ℕ
last_selected state = get_or state.last_selected_at 0

-- `_usage_sort_key`: a tuple that ends in a text compares as the list of its numbers does.
unfoldable pub usage_sort_key : AccountState → List ℤ
usage_sort_key state =
    pos (secondary_used state)
    ∷ pos (primary_used state)
    ∷ pos (last_selected state)
    ∷ map pos state.account_id

-- `_reset_bucket_days`: a reset in the past is day 0, as the subtraction stops at 0.
unfoldable pub reset_bucket_days : ℕ → AccountState → ℕ
reset_bucket_days current state = elim state.secondary_reset_at [
  | none ↦ unknown_reset_bucket_days
  | some reset_at ↦ (reset_at - current) / seconds seconds_per_day
]

-- `_reset_first_sort_key`
unfoldable pub reset_first_sort_key : ℕ → AccountState → List ℤ
reset_first_sort_key current state = pos (reset_bucket_days current state) ∷ usage_sort_key state

-- `_round_robin_sort_key`
unfoldable pub round_robin_sort_key : AccountState → List ℤ
round_robin_sort_key state = pos (last_selected state) ∷ map pos state.account_id
