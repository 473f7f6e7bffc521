-- ===== src/ApiKeys/Tests.antt =====
-- Runs of the service of API keys on a small database.
use codex_octopus.Base.{◌+◌, ◌≡◌, refl, true, false, none, some, [], ◌∷◌, arith, All}
use codex_octopus.Base.Text.{Text, text}
use codex_octopus.ApiKeys.Limits.{
  ApiKeyLimit, LimitType, daily, five_hours, Cost, Request, window_delta, reserve_delta_for_limit,
  reserve_budget_for_limit_type, limit_applies_for_request,
}
use codex_octopus.ApiKeys.Reset.{advance_reset, Advanced, advance_reset-Advanced, advance_loop}
use codex_octopus.ApiKeys.Repository.{
  UsageReservation, reserved, try_reserve_usage, create_usage_reservation, reset_limit,
}
use codex_octopus.ApiKeys.Charges.{IsUnique, IsWithin}
use codex_octopus.ApiKeys.Service.{
  Report, enforce_limits_for_request, reserve_in, reserve_limits, reserve_limit, commit_reservation,
}
use codex_octopus.ApiKeys.Store.{
  ApiKey, Store, ok, get_by_id, get_by_hash, limits_of, ensure_valid_api_key_row,
  lazy_reset_expired_limits, refresh, validate_key, has_expired,
}
use codex_octopus.ApiKeys.Service.Reservations.{
  Enforced, enforce_limits-Enforced, enforce_limits-IsWithin,
}
use codex_octopus.ApiKeys.Service.Endings.{
  finalizing, releasing, end_reservation, end_reservation_once,
}
use codex_octopus.ApiKeys.Service.Outcomes.{EndsWell, enforce_then_end}
use codex_octopus.ApiKeys.Store.Expiry.{AreFresh, validate_key_admits}

-- One microdollar a token.
abbrev flat_cost : Cost
flat_cost model input output cached tier = input + output

-- The hash is the text itself.
abbrev plain_hash : Text → Text
plain_hash key = key

abbrev one_key : ApiKey
one_key = record {
  id = text "key-1";
  key_hash = text "sk-clb";
  is_active = true;
  expires_at = none;
  last_used_at = none;
}

-- 10,000 tokens a day, whose day is over; and 20,000 of output in five hours.
abbrev token_limit : ApiKeyLimit
token_limit = record {
  id = 1;
  api_key_id = text "key-1";
  limit_type = LimitType.total_tokens;
  limit_window = daily;
  max_value = 10000;
  current_value = 9000;
  model_filter = none;
  reset_at = 1000;
}

abbrev output_limit : ApiKeyLimit
output_limit = record {
  id = 2;
  api_key_id = text "key-1";
  limit_type = LimitType.output_tokens;
  limit_window = five_hours;
  max_value = 20000;
  current_value = 19000;
  model_filter = some (text "gpt");
  reset_at = 9000;
}

abbrev database : Store
database = record {
  keys = one_key ∷ [];
  limits = token_limit ∷ output_limit ∷ [];
  reservations = [];
}

abbrev gpt_request : Request
gpt_request = record { request_model = some (text "gpt"); request_service_tier = none }

database-IsUnique : IsUnique database.limits
database-IsUnique = (((λ e. omega arith), tt), (tt, tt))

database-IsWithin : All IsWithin database.limits
database-IsWithin = (omega arith, (omega arith, tt))

-- At 5 seconds the first limit is reset and 8192 tokens of it are reserved; of the second the
-- thousand that is left.
abbrev booked : UsageReservation
booked = record {
  reservation_id = text "res-1";
  api_key_id = text "key-1";
  model = text "gpt";
  status = reserved;
  items =
      record {
        limit_id = 1;
        limit_type = LimitType.total_tokens;
        reserved_delta = 8192;
        expected_reset_at = 86401000;
        actual_delta = none;
      }
      ∷ record {
        limit_id = 2;
        limit_type = LimitType.output_tokens;
        reserved_delta = 1000;
        expected_reset_at = 9000;
        actual_delta = none;
      }
      ∷ [];
}

abbrev after_booking : Store
after_booking = record {
  keys = one_key ∷ [];
  limits =
      record token_limit { current_value = 8192; reset_at = 86401000 }
      ∷ record output_limit { current_value = 20000 }
      ∷ [];
  reservations = booked ∷ [];
}

books :
    enforce_limits_for_request flat_cost 5000 (text "res-1") (text "key-1") gpt_request database
    ≡ (after_booking, ok booked)
unfolding enforce_limits_for_request reserve_in refresh get_by_id limits_of ensure_valid_api_key_row
    lazy_reset_expired_limits reset_limit advance_reset advance_loop window_delta reserve_limits
    reserve_limit reserve_delta_for_limit reserve_budget_for_limit_type limit_applies_for_request
    try_reserve_usage commit_reservation create_usage_reservation
books = refl

enforce_limits-Enforced_example :
    Enforced
      (text "res-1")
      (refresh 5000 (get_by_id (text "key-1")) database).0
      (enforce_limits_for_request flat_cost 5000 (text "res-1") (text "key-1") gpt_request database)
enforce_limits-Enforced_example =
    enforce_limits-Enforced flat_cost 5000 (text "res-1") (text "key-1") gpt_request database
      database-IsUnique

enforce_limits-IsWithin_example :
    All IsWithin
      (enforce_limits_for_request flat_cost 5000
        (text "res-1")
        (text "key-1")
        gpt_request
        database).0.limits
enforce_limits-IsWithin_example =
    enforce_limits-IsWithin flat_cost 5000 (text "res-1") (text "key-1") gpt_request database
      database-IsUnique database-IsWithin

-- The request used 3000 tokens, 700 of them output.
abbrev report : Report
report = record {
  report_model = text "gpt";
  input_tokens = some 2300;
  output_tokens = some 700;
  cached_input_tokens = none;
  service_tier = none;
}

enforce_then_end_example :
    EndsWell
      (finalizing flat_cost 7000 report)
      (refresh 5000 (get_by_id (text "key-1")) database).0
      booked
      (end_reservation (finalizing flat_cost 7000 report) (text "res-1") after_booking)
enforce_then_end_example =
    enforce_then_end (finalizing flat_cost 7000 report) flat_cost 5000 (text "res-1") (text "key-1")
      gpt_request database after_booking booked database-IsUnique books

end_reservation_once_example :
    end_reservation releasing
      (text "res-1")
      (end_reservation (finalizing flat_cost 7000 report) (text "res-1") after_booking)
    ≡ end_reservation (finalizing flat_cost 7000 report) (text "res-1") after_booking
end_reservation_once_example =
    end_reservation_once (finalizing flat_cost 7000 report) releasing (text "res-1") after_booking

admits : (validate_key plain_hash 5000 (text "sk-clb") database).1 ≡ ok one_key
unfolding validate_key refresh get_by_hash ensure_valid_api_key_row lazy_reset_expired_limits
    limits_of
admits = refl

validate_key_admits_example :
    (get_by_hash (text "sk-clb") database ≡ some one_key)
    × (one_key.is_active ≡ true)
    × (has_expired 5000 one_key ≡ false)
    × AreFresh one_key.id 5000 (validate_key plain_hash 5000 (text "sk-clb") database).0.limits
validate_key_admits_example =
    validate_key_admits plain_hash 5000 (text "sk-clb") database one_key admits

advance_reset-Advanced_example :
    Advanced (window_delta daily) 5000 1000 (advance_reset 1000 5000 daily)
advance_reset-Advanced_example = advance_reset-Advanced 1000 5000 daily
