-- ===== src/ApiKeys/Limits.antt =====
-- Limits of API keys, and what a request reserves of them (app/modules/api_keys/service.py). Values
-- are counts of tokens or microdollars; times are in milliseconds.
use codex_octopus.Base.{
  ℕ, ◌+◌, ◌-◌, ◌*◌, min, ltb, ◌==◌, Bool, true, false, Option, none, some, if◌then◌else◌, is_empty,
}
use codex_octopus.Base.Text.{Text, text_eq}
use codex_octopus.Balancer.State.{seconds}

pub data LimitType : Type 0 where
  total_tokens input_tokens output_tokens cost_usd credits : LimitType

pub data LimitWindow : Type 0 where
  daily weekly monthly five_hours seven_days : LimitWindow

pub record ApiKeyLimit : Type 0 where
  pub id : ℕ
  pub api_key_id : Text
  pub limit_type : LimitType
  pub limit_window : LimitWindow
  pub max_value : ℕ
  pub current_value : ℕ
  pub model_filter : Option Text
  pub reset_at : ℕ

abbrev hours : ℕ → ℕ
hours n = seconds (n * 3600)

-- `_window_delta`
unfoldable pub window_delta : LimitWindow → ℕ
window_delta five_hours = hours 5
window_delta seven_days = hours (7 * 24)
window_delta daily = hours 24
window_delta weekly = hours (7 * 24)
window_delta monthly = hours (30 * 24)

-- `_next_reset`
unfoldable pub next_reset : ℕ → LimitWindow → ℕ
next_reset now five_hours = now + hours 5
next_reset now seven_days = now + hours (7 * 24)
next_reset now daily = now + hours 24
next_reset now weekly = now + hours (7 * 24)
next_reset now monthly = now + hours (30 * 24)

-- What a request says of itself.
pub record Request : Type 0 where
  pub request_model : Option Text
  pub request_service_tier : Option Text

-- `_limit_applies_for_request`
unfoldable pub limit_applies_for_request : ApiKeyLimit → Option Text → Bool
limit_applies_for_request limit request_model = elim limit.model_filter [
  | none ↦ true
  | some filter ↦ elim request_model [ none ↦ false | some model ↦ text_eq filter model ]
]

-- `_calculate_cost_microdollars`: the model, its input, output and cached input tokens, and the
-- service tier. What is proved holds for every price table.
abbrev pub Cost : Type 0
Cost = Text → ℕ → ℕ → ℕ → Option Text → ℕ

-- `_reserve_cost_budget_microdollars`
unfoldable pub reserve_cost_budget_microdollars : Cost → Request → ℕ
reserve_cost_budget_microdollars cost request = elim request.request_model [
  | none ↦ 2000000
  | some model ↦
      if is_empty model
      then 2000000
      else (let cost_microdollars = cost model 8192 8192 0 request.request_service_tier in
          if ltb 0 cost_microdollars then cost_microdollars else 2000000)
]

-- `_reserve_budget_for_limit_type`
unfoldable pub reserve_budget_for_limit_type : Cost → Request → LimitType → ℕ
reserve_budget_for_limit_type cost request total_tokens = 8192
reserve_budget_for_limit_type cost request input_tokens = 8192
reserve_budget_for_limit_type cost request output_tokens = 8192
reserve_budget_for_limit_type cost request cost_usd = reserve_cost_budget_microdollars cost request
reserve_budget_for_limit_type cost request credits = 0

-- `_reserve_delta_for_limit`
unfoldable pub reserve_delta_for_limit : Cost → Request → ApiKeyLimit → ℕ
reserve_delta_for_limit cost request limit =
    let remaining = limit.max_value - limit.current_value in
    if remaining == 0
    then 0
    else min remaining (reserve_budget_for_limit_type cost request limit.limit_type)

-- What a finished request has used.
pub record Usage : Type 0 where
  pub input : ℕ
  pub output : ℕ
  pub cost_microdollars : ℕ

-- `_compute_increment_for_limit_type`, and the repository's `_compute_increment`
unfoldable pub compute_increment_for_limit_type : Usage → LimitType → ℕ
compute_increment_for_limit_type usage total_tokens = usage.input + usage.output
compute_increment_for_limit_type usage input_tokens = usage.input
compute_increment_for_limit_type usage output_tokens = usage.output
compute_increment_for_limit_type usage cost_usd = usage.cost_microdollars
compute_increment_for_limit_type usage credits = 0
