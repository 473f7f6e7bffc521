-- ===== src/ApiKeys/Repository.antt =====
-- The statements that app/modules/api_keys/repository.py sends to the database, on the rows of the
-- tables: each is one atomic UPDATE, INSERT or SELECT.
use codex_octopus.Base.{
  ℕ, ◌+◌, ◌-◌, leb, ◌==◌, Bool, true, false, ◌&&◌, Option, none, some, List, [], ◌∷◌, map,
  if◌then◌else◌, any,
}
use codex_octopus.Base.Int.{ℤ, pos, negsuc}
use codex_octopus.Base.Text.{Text, text_eq}
use codex_octopus.ApiKeys.Limits.{ApiKeyLimit, LimitType, Usage, compute_increment_for_limit_type}

pub data ReservationStatus : Type 0 where
  reserved settling finalized failed released : ReservationStatus

abbrev pub reservation_status_eq : ReservationStatus → ReservationStatus → Bool
reservation_status_eq reserved reserved = true
reservation_status_eq settling settling = true
reservation_status_eq finalized finalized = true
reservation_status_eq failed failed = true
reservation_status_eq released released = true
reservation_status_eq _ _ = false

pub record UsageReservationItem : Type 0 where
  pub limit_id : ℕ
  pub limit_type : LimitType
  pub reserved_delta : ℕ
  pub expected_reset_at : ℕ
  pub actual_delta : Option ℕ

pub record UsageReservation : Type 0 where
  pub reservation_id : Text
  pub api_key_id : Text
  pub model : Text
  pub status : ReservationStatus
  pub items : List UsageReservationItem

-- `UPDATE ... SET f WHERE p`
abbrev pub update_where :
    (ApiKeyLimit → Bool) → (ApiKeyLimit → ApiKeyLimit) → List ApiKeyLimit → List ApiKeyLimit
update_where p f [] = []
update_where p f (row ∷ rest) = (if p row then f row else row) ∷ update_where p f rest

abbrev pub find_limit : ℕ → List ApiKeyLimit → Option ApiKeyLimit
find_limit limit_id [] = none
find_limit limit_id (row ∷ rest) = if row.id == limit_id then some row else find_limit limit_id rest

abbrev pub is_current : ℕ → ℕ → ApiKeyLimit → Bool
is_current limit_id expected_reset_at row = row.id == limit_id && row.reset_at == expected_reset_at

-- `reset_limit`: the rows after it, and whether a row was hit.
unfoldable pub reset_limit : ℕ → ℕ → ℕ → List ApiKeyLimit → List ApiKeyLimit × Bool
reset_limit limit_id expected_reset_at new_reset_at limits = (
  update_where (is_current limit_id expected_reset_at)
      (λ row. record row { current_value = 0; reset_at = new_reset_at }) limits,
  any (is_current limit_id expected_reset_at) limits,
)

pub record ReservationResult : Type 0 where
  pub success : Bool
  pub snapshot : Option ApiKeyLimit

abbrev pub has_room : ℕ → ApiKeyLimit → Bool
has_room delta row = leb (row.current_value + delta) row.max_value

abbrev pub may_reserve : ℕ → ℕ → ℕ → ApiKeyLimit → Bool
may_reserve limit_id delta expected_reset_at row =
    is_current limit_id expected_reset_at row && has_room delta row

abbrev pub add_usage : ℕ → ApiKeyLimit → ApiKeyLimit
add_usage delta row = record row { current_value = row.current_value + delta }

-- `try_reserve_usage`; the values that the result reports are those of the row `snapshot`.
unfoldable pub try_reserve_usage :
    ℕ → ℕ → ℕ → List ApiKeyLimit → List ApiKeyLimit × ReservationResult
try_reserve_usage limit_id delta expected_reset_at limits =
    if delta == 0
    then (limits, record { success = true; snapshot = find_limit limit_id limits })
    else (let after =
          update_where (may_reserve limit_id delta expected_reset_at) (add_usage delta) limits in
        (
          after,
          record {
            success = any (may_reserve limit_id delta expected_reset_at) limits;
            snapshot = find_limit limit_id after;
          },
        ))

abbrev pub may_adjust : ℕ → ℤ → ℕ → ApiKeyLimit → Bool
may_adjust limit_id (pos n) expected_reset_at row = is_current limit_id expected_reset_at row
may_adjust limit_id (negsuc n) expected_reset_at row =
    is_current limit_id expected_reset_at row && leb (n + 1) row.current_value

abbrev pub adjust_usage : ℤ → ApiKeyLimit → ApiKeyLimit
adjust_usage (pos n) row = record row { current_value = row.current_value + n }
adjust_usage (negsuc n) row = record row { current_value = row.current_value - (n + 1) }

-- `adjust_reserved_usage`
unfoldable pub adjust_reserved_usage : ℕ → ℤ → ℕ → List ApiKeyLimit → List ApiKeyLimit × Bool
adjust_reserved_usage limit_id delta expected_reset_at limits = (
  update_where (may_adjust limit_id delta expected_reset_at) (adjust_usage delta) limits,
  any (may_adjust limit_id delta expected_reset_at) limits,
)

-- `create_usage_reservation`
unfoldable pub create_usage_reservation :
    Text → Text → Text → List UsageReservationItem → List UsageReservation → List UsageReservation
create_usage_reservation reservation_id key_id model items reservations =
    record {
      reservation_id = reservation_id;
      api_key_id = key_id;
      model = model;
      status = reserved;
      items = items;
    }
    ∷ reservations

-- `get_usage_reservation`
unfoldable pub get_usage_reservation : Text → List UsageReservation → Option UsageReservation
get_usage_reservation reservation_id [] = none
get_usage_reservation reservation_id (r ∷ rest) =
    if text_eq r.reservation_id reservation_id
    then some r
    else get_usage_reservation reservation_id rest

abbrev pub in_status : Text → ReservationStatus → UsageReservation → Bool
in_status reservation_id expected_status r =
    text_eq r.reservation_id reservation_id && reservation_status_eq r.status expected_status

abbrev pub set_status :
    (UsageReservation → Bool) → ReservationStatus → List UsageReservation → List UsageReservation
set_status p new_status [] = []
set_status p new_status (r ∷ rest) =
    (if p r then record r { status = new_status } else r) ∷ set_status p new_status rest

-- `transition_usage_reservation_status`
unfoldable pub transition_usage_reservation_status :
    Text
    → ReservationStatus
    → ReservationStatus
    → List UsageReservation
    → List UsageReservation × Bool
transition_usage_reservation_status reservation_id expected_status new_status reservations = (
  set_status (in_status reservation_id expected_status) new_status reservations,
  any (in_status reservation_id expected_status) reservations,
)

-- The status that `settle_usage_reservation` writes; the token counts it stores are not read again.
unfoldable pub settle_usage_reservation :
    Text → ReservationStatus → List UsageReservation → List UsageReservation
settle_usage_reservation reservation_id status reservations =
    set_status (λ r. text_eq r.reservation_id reservation_id) status reservations

abbrev pub set_item : ℕ → ℕ → List UsageReservationItem → List UsageReservationItem
set_item limit_id actual_delta [] = []
set_item limit_id actual_delta (item ∷ rest) =
    (if item.limit_id == limit_id then record item { actual_delta = some actual_delta } else item)
    ∷ set_item limit_id actual_delta rest

-- `upsert_reservation_item_actual` of an item that the reservation has.
unfoldable pub upsert_reservation_item_actual :
    Text → ℕ → ℕ → List UsageReservation → List UsageReservation
upsert_reservation_item_actual reservation_id limit_id actual_delta [] = []
upsert_reservation_item_actual reservation_id limit_id actual_delta (r ∷ rest) =
    (if text_eq r.reservation_id reservation_id
      then record r { items = set_item limit_id actual_delta r.items }
      else r)
    ∷ upsert_reservation_item_actual reservation_id limit_id actual_delta rest

abbrev filter_matches : Option Text → Text → Bool
filter_matches none model = true
filter_matches (some wanted) model = text_eq wanted model

-- `increment_limit_usage`, on the rows of the limits.
unfoldable pub increment_limit_usage : Text → Text → Usage → List ApiKeyLimit → List ApiKeyLimit
increment_limit_usage key_id model usage limits =
    map
      (λ row.
        if text_eq row.api_key_id key_id && filter_matches row.model_filter model
        then add_usage (compute_increment_for_limit_type usage row.limit_type) row
        else row)
      limits
