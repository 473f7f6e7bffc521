-- ===== src/ApiKeys/Service/Reservations.antt =====
-- The life of a usage reservation: what enforcing the limits books, what settling and releasing make
-- of it, and that it ends once.
use codex_octopus.Base.{
  arith, Bool-cases, inl, inr, ℕ, ◌≡◌, refl, sym, ◌∙◌, subst, ◌≢◌, Bool, true, false, Option, some,
  List, [], ◌∷◌, map, if◌then◌else◌, All, ltb,
}
use codex_octopus.Base.Text.{Text}
use codex_octopus.ApiKeys.Reset.{advance_reset}
use codex_octopus.ApiKeys.Limits.{ApiKeyLimit, Request, Cost}
use codex_octopus.ApiKeys.Repository.{
  UsageReservation, UsageReservationItem, reserved, update_where, reset_limit,
  create_usage_reservation,
}
use codex_octopus.ApiKeys.Charges.{charge, IsUnique, IsWithin}
use codex_octopus.ApiKeys.Service.{commit_reservation, reserve_in, enforce_limits_for_request}
use codex_octopus.ApiKeys.Store.{
  ApiKey, Store, Result, ok, err, get_by_id, limits_of, lazy_reset_expired_limits, refresh,
  ensure_valid_api_key_row,
}
use codex_octopus.ApiKeys.Service.Steps.{reserved_amount, ReservesWell, reserve_limits-ReservesWell}

-- Updates that keep the ids of the rows keep them unique.
module _ (p : ApiKeyLimit → Bool) (f : ApiKeyLimit → ApiKeyLimit)
    (keeps : (r : ApiKeyLimit) → (f r).id ≡ r.id) where
  same_id : (b : Bool) (row : ApiKeyLimit) → (if b then f row else row).id ≡ row.id
  same_id true row = keeps row
  same_id false row = refl

  All-update :
      (id : ℕ) (rows : List ApiKeyLimit)
      → All (λ r. r.id ≢ id) rows
      → All (λ r. r.id ≢ id) (update_where p f rows)
  All-update id [] a = tt
  All-update id (row ∷ rest) a =
      ((λ e. a.0 (sym (same_id (p row) row) ∙ e)), All-update id rest a.1)

  update-IsUnique : (rows : List ApiKeyLimit) → IsUnique rows → IsUnique (update_where p f rows)
  update-IsUnique [] u = tt
  update-IsUnique (row ∷ rest) u = (
    subst (λ id. All (λ r. r.id ≢ id) (update_where p f rest)) (sym (same_id (p row) row))
        (All-update row.id rest u.0),
    update-IsUnique rest u.1,
  )

lazy_reset-IsUnique :
    (now : ℕ) (loaded limits : List ApiKeyLimit)
    → IsUnique limits
    → IsUnique (lazy_reset_expired_limits now loaded limits).0
unfolding lazy_reset_expired_limits reset_limit
lazy_reset-IsUnique now [] limits u = u
lazy_reset-IsUnique now (limit ∷ rest) limits u =
    lazy_reset-IsUnique now rest _
      (elim (ltb limit.reset_at now)
        as (λ b. IsUnique (
          if b
          then (reset_limit limit.id limit.reset_at
              (advance_reset limit.reset_at now limit.limit_window) limits).0
          else limits)) [ true ↦ update-IsUnique _ _ (λ _. refl) limits u | false ↦ u ])

pub refresh-IsUnique :
    (now : ℕ) (get : Store → Option ApiKey) (store : Store)
    → IsUnique store.limits
    → IsUnique (refresh now get store).0.limits
unfolding refresh
refresh-IsUnique now get store u = by_row (ensure_valid_api_key_row now (get store))
  where
    by_row :
        (r : Result ApiKey)
        → IsUnique
            (elim r as (λ x. Store × Result ApiKey) [
              | err e ↦ (store, err e)
              | ok row ↦
                  let (limits, performed) =
                    lazy_reset_expired_limits now (limits_of row.id store) store.limits in
                  let after : Store = record store { limits = limits } in
                  (after, ensure_valid_api_key_row now (if performed then get after else some row))
            ]).0.limits
    by_row (err e) = u
    by_row (ok row) = lazy_reset-IsUnique now (limits_of row.id store) store.limits u

-- The tables after a reservation is booked.
pub record IsBooked (before : Store) (r : UsageReservation) (after : Store) : Type 0 where
  pub charged : after.limits ≡ map (charge reserved_amount r.items) before.limits
  pub stored : after.reservations ≡ r ∷ before.reservations
  pub is_reserved : r.status ≡ reserved
  pub same_keys : after.keys ≡ before.keys

abbrev pub Enforced : Text → Store → Store × Result UsageReservation → Type 0
Enforced reservation_id before (after, err e) = after ≡ before
Enforced reservation_id before (after, ok r) =
    (r.reservation_id ≡ reservation_id) × IsBooked before r after

commit-Enforced :
    (reservation_id key_id : Text) (request : Request) (store : Store)
    (r : Result (List ApiKeyLimit × List UsageReservationItem))
    → ReservesWell store.limits r
    → Enforced reservation_id store (commit_reservation reservation_id key_id request store r)
unfolding commit_reservation create_usage_reservation
commit-Enforced reservation_id key_id request store (err e) w = refl
commit-Enforced reservation_id key_id request store (ok (limits, items)) w =
    (refl, record { charged = w.0; stored = refl; is_reserved = refl; same_keys = refl })

reserve_in-Enforced :
    (cost : Cost) (reservation_id key_id : Text) (request : Request) (found : Store × Result ApiKey)
    → IsUnique found.0.limits
    → Enforced reservation_id found.0 (reserve_in cost reservation_id key_id request found)
unfolding reserve_in
reserve_in-Enforced cost reservation_id key_id request (store, err e) u = refl
reserve_in-Enforced cost reservation_id key_id request (store, ok row) u =
    commit-Enforced reservation_id key_id request store _
      (reserve_limits-ReservesWell cost request (limits_of row.id store) store.limits u)

-- Enforcing the limits of a key books a reservation or refuses the request. Against the tables after
-- the lazy resets: if it books, the rows of the limits have grown by exactly the amounts that the
-- reservation holds, the reservation is stored in front with status reserved; if it refuses, the tables are the same, so nothing that earlier rounds
-- of the loop took is kept. The ids of the limits are assumed unique.
pub enforce_limits-Enforced :
    (cost : Cost) (now : ℕ) (reservation_id key_id : Text) (request : Request) (store : Store)
    → IsUnique store.limits
    → Enforced reservation_id
        (refresh now (get_by_id key_id) store).0
        (enforce_limits_for_request cost now reservation_id key_id request store)
unfolding enforce_limits_for_request
enforce_limits-Enforced cost now reservation_id key_id request store u =
    reserve_in-Enforced cost reservation_id key_id request _
      (refresh-IsUnique now (get_by_id key_id) store u)

update-IsWithin :
    (p : ApiKeyLimit → Bool) (reset : ℕ) (rows : List ApiKeyLimit)
    → All IsWithin rows
    → All IsWithin (update_where p (λ row. record row { current_value = 0; reset_at = reset }) rows)
update-IsWithin p reset [] a = tt
update-IsWithin p reset (row ∷ rest) a = (ground arith, update-IsWithin p reset rest a.1)

lazy_reset-IsWithin :
    (now : ℕ) (loaded limits : List ApiKeyLimit)
    → All IsWithin limits
    → All IsWithin (lazy_reset_expired_limits now loaded limits).0
unfolding lazy_reset_expired_limits reset_limit
lazy_reset-IsWithin now [] limits a = a
lazy_reset-IsWithin now (limit ∷ rest) limits a = elim (Bool-cases (ltb limit.reset_at now)) [
  | inl due ↦ rw due (lazy_reset-IsWithin now rest _ (update-IsWithin _ _ limits a))
  | inr ahead ↦ rw ahead (lazy_reset-IsWithin now rest limits a)
]

refresh-IsWithin :
    (now : ℕ) (get : Store → Option ApiKey) (store : Store)
    → All IsWithin store.limits
    → All IsWithin (refresh now get store).0.limits
unfolding refresh
refresh-IsWithin now get store a = by_row (ensure_valid_api_key_row now (get store))
  where
    by_row :
        (r : Result ApiKey)
        → All IsWithin
            (elim r as (λ x. Store × Result ApiKey) [
              | err e ↦ (store, err e)
              | ok row ↦
                  let (limits, performed) =
                    lazy_reset_expired_limits now (limits_of row.id store) store.limits in
                  let after : Store = record store { limits = limits } in
                  (after, ensure_valid_api_key_row now (if performed then get after else some row))
            ]).0.limits
    by_row (err e) = a
    by_row (ok row) = lazy_reset-IsWithin now (limits_of row.id store) store.limits a

commit-IsWithin :
    (reservation_id key_id : Text) (request : Request) (store : Store)
    (r : Result (List ApiKeyLimit × List UsageReservationItem))
    → ReservesWell store.limits r
    → All IsWithin store.limits
    → All IsWithin (commit_reservation reservation_id key_id request store r).0.limits
unfolding commit_reservation
commit-IsWithin reservation_id key_id request store (err e) w a = a
commit-IsWithin reservation_id key_id request store (ok (limits, items)) w a = w.1 a

reserve_in-IsWithin :
    (cost : Cost) (reservation_id key_id : Text) (request : Request) (found : Store × Result ApiKey)
    → IsUnique found.0.limits
    → All IsWithin found.0.limits
    → All IsWithin (reserve_in cost reservation_id key_id request found).0.limits
unfolding reserve_in
reserve_in-IsWithin cost reservation_id key_id request (store, err e) u a = a
reserve_in-IsWithin cost reservation_id key_id request (store, ok row) u a =
    commit-IsWithin reservation_id key_id request store _
      (reserve_limits-ReservesWell cost request (limits_of row.id store) store.limits u) a

-- Enforcing the limits of a key never lifts a limit above its maximum: if no row's value exceeds its
-- maximum, none does after the call, whether it books or refuses. Ids are assumed unique.
pub enforce_limits-IsWithin :
    (cost : Cost) (now : ℕ) (reservation_id key_id : Text) (request : Request) (store : Store)
    → IsUnique store.limits
    → All IsWithin store.limits
    → All IsWithin
        (enforce_limits_for_request cost now reservation_id key_id request store).0.limits
unfolding enforce_limits_for_request
enforce_limits-IsWithin cost now reservation_id key_id request store u a =
    reserve_in-IsWithin cost reservation_id key_id request _
      (refresh-IsUnique now (get_by_id key_id) store u)
      (refresh-IsWithin now (get_by_id key_id) store a)
