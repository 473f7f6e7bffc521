-- ===== src/ApiKeys/Store.antt =====
-- The tables of the database as app/modules/api_keys/service.py sees them, and how it finds and
-- validates a key. A call is one transaction: where the code rolls back, the model returns the
-- tables as they were last committed.
pub mod Expiry
use codex_octopus.Base.{
  ℕ, ltb, leb, ◌==◌, Bool, true, false, not, ◌||◌, Option, none, some, get_or, List, [], ◌∷◌, map,
  if◌then◌else◌, filter,
}
use codex_octopus.Base.Int.{ℤ, pos, negsuc, sub_ℕ}
use codex_octopus.Base.Text.{Text, text_eq, is_space, strip_left}
use codex_octopus.ApiKeys.Limits.{
  ApiKeyLimit, LimitType, LimitWindow, Request, Cost, Usage, limit_applies_for_request,
  reserve_delta_for_limit, compute_increment_for_limit_type,
}
use codex_octopus.ApiKeys.Reset.{advance_reset}
use codex_octopus.ApiKeys.Repository.{
  UsageReservation, UsageReservationItem, ReservationStatus, reserved, settling, finalized, failed,
  released, reservation_status_eq, ReservationResult, reset_limit, try_reserve_usage,
  adjust_reserved_usage, create_usage_reservation, get_usage_reservation,
  transition_usage_reservation_status, settle_usage_reservation, upsert_reservation_item_actual,
  increment_limit_usage,
}

pub record ApiKey : Type 0 where
  pub id : Text
  pub key_hash : Text
  pub is_active : Bool
  pub expires_at : Option ℕ
  pub last_used_at : Option ℕ

pub record Store : Type 0 where
  pub keys : List ApiKey
  pub limits : List ApiKeyLimit
  pub reservations : List UsageReservation

-- The exceptions; a limit's carries the limit that is exceeded.
pub data ApiKeyError : Type 0 where
  missing_key invalid_key expired_key : ApiKeyError
  rate_limit_exceeded : ApiKeyLimit → ApiKeyError

pub data Result (A : Type 0) : Type 0 where
  ok : A → Result A
  err : ApiKeyError → Result A

abbrev find_key : (ApiKey → Bool) → List ApiKey → Option ApiKey
find_key p [] = none
find_key p (row ∷ rest) = if p row then some row else find_key p rest

-- `get_by_id`, `get_by_hash`
unfoldable pub get_by_id : Text → Store → Option ApiKey
get_by_id key_id store = find_key (λ row. text_eq row.id key_id) store.keys

unfoldable pub get_by_hash : Text → Store → Option ApiKey
get_by_hash key_hash store = find_key (λ row. text_eq row.key_hash key_hash) store.keys

-- The rows that are loaded with a key, `row.limits`.
unfoldable pub limits_of : Text → Store → List ApiKeyLimit
limits_of key_id store = filter (λ limit. text_eq limit.api_key_id key_id) store.limits

abbrev pub has_expired : ℕ → ApiKey → Bool
has_expired now row = elim row.expires_at [ none ↦ false | some at ↦ ltb at now ]

-- `_ensure_valid_api_key_row`, and the test of the expiry that follows each call of it.
unfoldable pub ensure_valid_api_key_row : ℕ → Option ApiKey → Result ApiKey
ensure_valid_api_key_row now none = err invalid_key
ensure_valid_api_key_row now (some row) =
    if not row.is_active
    then err invalid_key
    else if has_expired now row
    then err expired_key
    else ok row

-- `_lazy_reset_expired_limits`, each reset committed; the Boolean says whether it tried one.
unfoldable pub lazy_reset_expired_limits :
    ℕ → List ApiKeyLimit → List ApiKeyLimit → List ApiKeyLimit × Bool
lazy_reset_expired_limits now [] limits = (limits, false)
lazy_reset_expired_limits now (limit ∷ rest) limits =
    let is_expired = ltb limit.reset_at now in
    let after =
      if is_expired
      then (reset_limit limit.id limit.reset_at
          (advance_reset limit.reset_at now limit.limit_window) limits).0
      else limits in
    let (limits', performed) = lazy_reset_expired_limits now rest after in
    (limits', is_expired || performed)

-- What a valid key finds: the tables after the resets, and the key as it is read again.
unfoldable pub refresh : ℕ → (Store → Option ApiKey) → Store → Store × Result ApiKey
unfolding ensure_valid_api_key_row lazy_reset_expired_limits limits_of
refresh now get store = elim (ensure_valid_api_key_row now (get store)) [
  | err e ↦ (store, err e)
  | ok row ↦
      let (limits, performed) =
        lazy_reset_expired_limits now (limits_of row.id store) store.limits in
      let after : Store = record store { limits = limits } in
      (after, ensure_valid_api_key_row now (if performed then get after else some row))
]

-- `validate_key`; `hash` is `_hash_key`.
unfoldable pub validate_key : (Text → Text) → ℕ → Text → Store → Store × Result ApiKey
unfolding refresh get_by_hash
validate_key hash now [] store = (store, err missing_key)
validate_key hash now (c ∷ plain_key) store = refresh now (get_by_hash (hash (c ∷ plain_key))) store

-- `get_key_by_id`
unfoldable pub get_key_by_id : ℕ → Text → Store → Result ApiKey
unfolding ensure_valid_api_key_row get_by_id
get_key_by_id now key_id store = ensure_valid_api_key_row now (get_by_id key_id store)

-- `update_last_used`
unfoldable pub update_last_used : ℕ → Text → Store → Store
update_last_used now key_id store = record store {
  keys =
      map (λ row. if text_eq row.id key_id then record row { last_used_at = some now } else row)
        store.keys;
}
