-- ===== src/ApiKeys/Service.antt =====
-- The service of app/modules/api_keys/service.py on the tables of the database. A call is one
-- transaction: where the code rolls back, the model returns the tables as they were last committed.
mod Steps
pub mod Reservations
pub mod Endings
pub mod Outcomes
use codex_octopus.ApiKeys.Store.{
  ApiKey, Store, ApiKeyError, Result, get_by_id, get_by_hash, limits_of, has_expired,
  ensure_valid_api_key_row, lazy_reset_expired_limits, refresh, validate_key, get_key_by_id,
  update_last_used, ok, err, missing_key, invalid_key, expired_key, rate_limit_exceeded,
}
use codex_octopus.Base.{
  ℕ, ltb, leb, ◌==◌, Bool, true, false, not, ◌||◌, Option, none, some, get_or, List, [], ◌∷◌, map,
  if◌then◌else◌, filter,
}
use codex_octopus.Base.Int.{ℤ, pos, negsuc, sub_ℕ}
use codex_octopus.Base.Text.{Text, text_eq, is_space, strip_left}
use codex_octopus.ApiKeys.Limits.{
  ApiKeyLimit, LimitType, LimitWindow, Request, Cost, Usage, limit_applies_for_request,
  reserve_delta_for_limit, compute_increment_for_limit_type,
}
use codex_octopus.ApiKeys.Reset.{advance_reset}
use codex_octopus.ApiKeys.Repository.{
  UsageReservation, UsageReservationItem, ReservationStatus, reserved, settling, finalized, failed,
  released, reservation_status_eq, ReservationResult, reset_limit, try_reserve_usage,
  adjust_reserved_usage, create_usage_reservation, get_usage_reservation,
  transition_usage_reservation_status, settle_usage_reservation, upsert_reservation_item_actual,
  increment_limit_usage,
}

-- What the loop of `enforce_limits_for_request` does with one limit.
pub data Reserve : Type 0 where
  pass : Reserve
  refuse : ApiKeyError → Reserve
  take : List ApiKeyLimit → UsageReservationItem → Reserve

abbrev pub item_of : ApiKeyLimit → ℕ → UsageReservationItem
item_of limit reserve_delta = record {
  limit_id = limit.id;
  limit_type = limit.limit_type;
  reserved_delta = reserve_delta;
  expected_reset_at = limit.reset_at;
  actual_delta = none;
}

unfoldable pub reserve_limit : Cost → Request → ApiKeyLimit → List ApiKeyLimit → Reserve
reserve_limit cost request limit limits =
    let reserve_delta = reserve_delta_for_limit cost request limit in
    let (after, result) = try_reserve_usage limit.id reserve_delta limit.reset_at limits in
    if not (limit_applies_for_request limit request.request_model)
    then pass
    else if leb limit.max_value limit.current_value
    then refuse (rate_limit_exceeded limit)
    else if reserve_delta == 0
    then pass
    else if result.success
    then take after (item_of limit reserve_delta)
    else refuse (rate_limit_exceeded limit)

abbrev pub with_item :
    UsageReservationItem
    → Result (List ApiKeyLimit × List UsageReservationItem)
    → Result (List ApiKeyLimit × List UsageReservationItem)
with_item item (ok (limits, items)) = ok (limits, item ∷ items)
with_item item (err e) = err e

-- The loop, over the limits as they were loaded.
unfoldable pub reserve_limits :
    Cost
    → Request
    → List ApiKeyLimit
    → List ApiKeyLimit
    → Result (List ApiKeyLimit × List UsageReservationItem)
reserve_limits cost request [] limits = ok (limits, [])
reserve_limits cost request (limit ∷ rest) limits = elim (reserve_limit cost request limit limits) [
  | pass ↦ reserve_limits cost request rest limits
  | refuse e ↦ err e
  | take after item ↦ with_item item (reserve_limits cost request rest after)
]

unfoldable pub commit_reservation :
    Text
    → Text
    → Request
    → Store
    → Result (List ApiKeyLimit × List UsageReservationItem)
    → Store × Result UsageReservation
commit_reservation reservation_id key_id request store (err e) = (store, err e)
commit_reservation reservation_id key_id request store (ok (limits, items)) =
    let reservation : UsageReservation = record {
      reservation_id = reservation_id;
      api_key_id = key_id;
      model = get_or request.request_model [];
      status = reserved;
      items = items;
    } in
    (
      record store {
        limits = limits;
        reservations =
            create_usage_reservation reservation_id key_id reservation.model items
              store.reservations;
      },
      ok reservation,
    )

unfoldable pub reserve_in :
    Cost → Text → Text → Request → Store × Result ApiKey → Store × Result UsageReservation
unfolding reserve_limits commit_reservation limits_of
reserve_in cost reservation_id key_id request (store, err e) = (store, err e)
reserve_in cost reservation_id key_id request (store, ok row) =
    commit_reservation reservation_id key_id request store
      (reserve_limits cost request (limits_of row.id store) store.limits)

-- `enforce_limits_for_request`; `reservation_id` is the fresh identifier.
unfoldable pub enforce_limits_for_request :
    Cost → ℕ → Text → Text → Request → Store → Store × Result UsageReservation
unfolding reserve_in refresh get_by_id
enforce_limits_for_request cost now reservation_id key_id request store =
    reserve_in cost reservation_id key_id request (refresh now (get_by_id key_id) store)

abbrev pub is_zero : ℤ → Bool
is_zero (pos n) = n == 0
is_zero (negsuc n) = false

-- One item of the settling loop: the limit is adjusted if the amounts differ.
unfoldable pub settle_limit : ℕ → UsageReservationItem → List ApiKeyLimit → List ApiKeyLimit
settle_limit actual_delta item limits =
    let delta = sub_ℕ actual_delta item.reserved_delta in
    if is_zero delta
    then limits
    else (adjust_reserved_usage item.limit_id delta item.expected_reset_at limits).0

-- The loop of `_settle_usage_reservation` on the limits, and on the items' own rows.
unfoldable pub settle_limits :
    (UsageReservationItem → ℕ) → List UsageReservationItem → List ApiKeyLimit → List ApiKeyLimit
settle_limits actual [] limits = limits
settle_limits actual (item ∷ rest) limits =
    settle_limits actual rest (settle_limit (actual item) item limits)

unfoldable pub record_actuals :
    Text
    → (UsageReservationItem → ℕ)
    → List UsageReservationItem
    → List UsageReservation
    → List UsageReservation
record_actuals reservation_id actual [] reservations = reservations
record_actuals reservation_id actual (item ∷ rest) reservations =
    record_actuals reservation_id actual rest
      (upsert_reservation_item_actual reservation_id item.limit_id (actual item) reservations)

-- The loop of `release_usage_reservation`, which adjusts by every amount.
unfoldable pub release_limits : List UsageReservationItem → List ApiKeyLimit → List ApiKeyLimit
release_limits [] limits = limits
release_limits (item ∷ rest) limits =
    release_limits rest
      (adjust_reserved_usage item.limit_id (sub_ℕ 0 item.reserved_delta) item.expected_reset_at
        limits).0

-- What is reported of a request that ended.
pub record Report : Type 0 where
  pub report_model : Text
  pub input_tokens : Option ℕ
  pub output_tokens : Option ℕ
  pub cached_input_tokens : Option ℕ
  pub service_tier : Option Text

abbrev pub usage_of : Cost → Report → Usage
usage_of cost r = record {
  input = get_or r.input_tokens 0;
  output = get_or r.output_tokens 0;
  cost_microdollars =
      cost r.report_model (get_or r.input_tokens 0) (get_or r.output_tokens 0)
        (get_or r.cached_input_tokens 0) r.service_tier;
}

-- The amount that an item turns out to have used.
abbrev pub actual_of : Usage → UsageReservationItem → ℕ
actual_of usage item = compute_increment_for_limit_type usage item.limit_type

-- The transaction of `_settle_usage_reservation` once the reservation is found and still reserved.
unfoldable pub settle_claimed :
    Cost → ℕ → ReservationStatus → Report → UsageReservation → Store → Store
unfolding settle_limits record_actuals update_last_used
settle_claimed cost now status report r store =
    let (claimed_rows, claimed) =
      transition_usage_reservation_status r.reservation_id reserved settling store.reservations in
    if not claimed
    then store
    else (let actual = actual_of (usage_of cost report) in
        update_last_used now r.api_key_id (record store {
          limits = settle_limits actual r.items store.limits;
          reservations =
              settle_usage_reservation r.reservation_id status
                (record_actuals r.reservation_id actual r.items claimed_rows);
        }))

abbrev if_reserved : Option UsageReservation → (UsageReservation → Store) → Store → Store
if_reserved none f store = store
if_reserved (some r) f store = if reservation_status_eq r.status reserved then f r else store

-- `_settle_usage_reservation`
unfoldable pub settle_reservation : Cost → ℕ → ReservationStatus → Text → Report → Store → Store
unfolding settle_claimed
settle_reservation cost now status reservation_id report store =
    if_reserved (get_usage_reservation reservation_id store.reservations)
      (λ r. settle_claimed cost now status report r store) store

-- `finalize_usage_reservation`
unfoldable pub finalize_usage_reservation : Cost → ℕ → Text → Report → Store → Store
unfolding settle_reservation
finalize_usage_reservation cost now = settle_reservation cost now finalized

-- `fail_usage_reservation`
unfoldable pub fail_usage_reservation : Cost → ℕ → Text → Report → Store → Store
unfolding settle_reservation
fail_usage_reservation cost now = settle_reservation cost now failed

unfoldable pub release_claimed : UsageReservation → Store → Store
unfolding release_limits record_actuals
release_claimed r store =
    let (claimed_rows, claimed) =
      transition_usage_reservation_status r.reservation_id reserved released store.reservations in
    if not claimed then store else record store {
      limits = release_limits r.items store.limits;
      reservations =
          settle_usage_reservation r.reservation_id released
            (record_actuals r.reservation_id (λ _. 0) r.items claimed_rows);
    }

-- `release_usage_reservation`
unfoldable pub release_usage_reservation : Text → Store → Store
unfolding release_claimed
release_usage_reservation reservation_id store =
    if_reserved (get_usage_reservation reservation_id store.reservations)
      (λ r. release_claimed r store) store

-- `record_usage`
unfoldable pub record_usage : Cost → ℕ → Text → Report → Store → Store
unfolding update_last_used
record_usage cost now key_id report store = update_last_used now key_id (record store {
  limits = increment_limit_usage key_id report.report_model (usage_of cost report) store.limits;
})
