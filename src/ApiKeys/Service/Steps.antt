-- ===== src/ApiKeys/Service/Steps.antt =====
-- The loops of the service against what a list of items charges.
use codex_octopus.Base.{
  ℕ, ◌≡◌, refl, sym, ap, ap₂, ◌∙◌, subst, Bool, true, false, List, [], ◌∷◌, map, arith,
  if◌then◌else◌, All, ◌==◌, Bool-cases, inl, inr,
}
use codex_octopus.Base.Int.{ℤ, pos, negsuc, sub_ℕ}
use codex_octopus.ApiKeys.Limits.{ApiKeyLimit, Request, Cost, reserve_delta_for_limit}
use codex_octopus.ApiKeys.Repository.{
  UsageReservationItem, update_where, may_adjust, adjust_usage, try_reserve_usage,
  adjust_reserved_usage,
}
use codex_octopus.ApiKeys.Charges.{
  charge, IsUnique, map-charge-charge, charge_nothing, charge-IsUnique, try_reserve-charge,
  adjust-charge, IsWithin, try_reserve-IsWithin, total_zero,
}
use codex_octopus.ApiKeys.Service.{
  Reserve, pass, refuse, take, reserve_limit, with_item, reserve_limits, settle_limit,
  settle_limits, release_limits, is_zero, item_of,
}
use codex_octopus.ApiKeys.Store.{Result, ok, err}

abbrev pub reserved_amount : UsageReservationItem → ℕ
reserved_amount item = item.reserved_delta

-- One round of the loop charges the item that it takes, and keeps the rows within their maxima.
abbrev TakesWell : List ApiKeyLimit → Reserve → Type 0
TakesWell limits pass = Unit {0}
TakesWell limits (refuse e) = Unit {0}
TakesWell limits (take after item) =
    (after ≡ map (charge reserved_amount (item ∷ [])) limits)
    × (All IsWithin limits → All IsWithin after)

taken :
    (limit : ApiKeyLimit) (delta : ℕ) (limits : List ApiKeyLimit)
    → IsUnique limits
    → (delta == 0) ≡ false
    → (try_reserve_usage limit.id delta limit.reset_at limits).1.success ≡ true
    → (try_reserve_usage limit.id delta limit.reset_at limits).0
      ≡ map (charge reserved_amount (item_of limit delta ∷ [])) limits
unfolding try_reserve_usage
taken limit delta limits u z s =
    rw z (try_reserve-charge (item_of limit delta) limits u (ground arith))

reserve_limit-TakesWell :
    (cost : Cost) (request : Request) (limit : ApiKeyLimit) (limits : List ApiKeyLimit)
    → IsUnique limits
    → TakesWell limits (reserve_limit cost request limit limits)
unfolding reserve_limit
reserve_limit-TakesWell cost request limit limits u = ground (
  arith,
  taken limit (reserve_delta_for_limit cost request limit) limits u,
  try_reserve-IsWithin limit.id (reserve_delta_for_limit cost request limit) limit.reset_at limits,
)

-- The whole loop.
abbrev pub ReservesWell :
    List ApiKeyLimit → Result (List ApiKeyLimit × List UsageReservationItem) → Type 0
ReservesWell limits (ok (after, items)) =
    (after ≡ map (charge reserved_amount items) limits) × (All IsWithin limits → All IsWithin after)
ReservesWell limits (err e) = Unit {0}

with_item-ReservesWell :
    (limits after : List ApiKeyLimit) (item : UsageReservationItem)
    (r : Result (List ApiKeyLimit × List UsageReservationItem))
    → TakesWell limits (take after item)
    → ReservesWell after r
    → ReservesWell limits (with_item item r)
with_item-ReservesWell limits after item (err e) t w = tt
with_item-ReservesWell limits after item (ok (rows, items)) t w = (
  w.0
      ∙ ap (map (charge reserved_amount items)) t.0
      ∙ map-charge-charge reserved_amount item items limits,
  λ h. w.1 (t.1 h),
)

pub reserve_limits-ReservesWell :
    (cost : Cost) (request : Request) (loaded limits : List ApiKeyLimit)
    → IsUnique limits
    → ReservesWell limits (reserve_limits cost request loaded limits)
unfolding reserve_limits
reserve_limits-ReservesWell cost request [] limits u =
    (sym (charge_nothing reserved_amount limits), λ h. h)
reserve_limits-ReservesWell cost request (limit ∷ rest) limits u =
    round (reserve_limit cost request limit limits)
      (reserve_limit-TakesWell cost request limit limits u)
      (λ rows v. reserve_limits-ReservesWell cost request rest rows v)
  where
    round :
        (r : Reserve)
        → TakesWell limits r
        → ((rows : List ApiKeyLimit)
            → IsUnique rows
            → ReservesWell rows (reserve_limits cost request rest rows))
        → ReservesWell limits (elim r [
          | pass ↦ reserve_limits cost request rest limits
          | refuse e ↦ err e
          | take after item ↦ with_item item (reserve_limits cost request rest after)
        ])
    round pass t ih = ih limits u
    round (refuse e) t ih = tt
    round (take after item) t ih =
        with_item-ReservesWell limits after item (reserve_limits cost request rest after) t (
          ih after
            (subst IsUnique (sym t.0) (charge-IsUnique reserved_amount (item ∷ []) limits u)))

adjust_zero :
    (p : ApiKeyLimit → Bool) (rows : List ApiKeyLimit)
    → update_where p (adjust_usage (pos 0)) rows ≡ rows
adjust_zero p [] = refl
adjust_zero p (row ∷ rest) = ap₂ ◌∷◌ (ground arith) (adjust_zero p rest)

-- Skipping an adjustment by nothing makes no difference.
settle_limit-eq-adjust :
    (actual : ℕ) (item : UsageReservationItem) (limits : List ApiKeyLimit)
    → settle_limit actual item limits
      ≡ (adjust_reserved_usage item.limit_id
          (sub_ℕ actual item.reserved_delta)
          item.expected_reset_at
          limits).0
unfolding settle_limit adjust_reserved_usage
settle_limit-eq-adjust actual item limits = by_delta (sub_ℕ actual item.reserved_delta)
  where
    by_delta :
        (delta : ℤ)
        → (if is_zero delta
            then limits
            else update_where
                (may_adjust item.limit_id delta item.expected_reset_at)
                (adjust_usage delta)
                limits)
          ≡ update_where
              (may_adjust item.limit_id delta item.expected_reset_at)
              (adjust_usage delta)
              limits
    by_delta (pos n) = elim (Bool-cases (n == 0)) [
      | inl z ↦
          let e : n ≡ 0 = ground arith in
          rw e (sym (adjust_zero (may_adjust item.limit_id (pos 0) item.expected_reset_at) limits))
      | inr nz ↦ rw nz
    ]
    by_delta (negsuc n) = refl

pub settle_limits-charge :
    (actual : UsageReservationItem → ℕ) (items : List UsageReservationItem)
    (limits : List ApiKeyLimit)
    → settle_limits actual items (map (charge reserved_amount items) limits)
      ≡ map (charge actual items) limits
unfolding settle_limits
settle_limits-charge actual [] limits =
    charge_nothing reserved_amount limits ∙ sym (charge_nothing actual limits)
settle_limits-charge actual (item ∷ rest) limits =
    ap (settle_limits actual rest)
      (settle_limit-eq-adjust (actual item) item _ ∙ adjust-charge actual item rest limits)
    ∙ settle_limits-charge actual rest (map (charge actual (item ∷ [])) limits)
    ∙ map-charge-charge actual item rest limits

pub charge_zero :
    (items : List UsageReservationItem) (limits : List ApiKeyLimit)
    → map (charge (λ _. 0) items) limits ≡ limits
charge_zero items [] = refl
charge_zero items (row ∷ rest) =
    ap₂ ◌∷◌ (ground (arith, total_zero items row)) (charge_zero items rest)

pub release_limits-charge :
    (items : List UsageReservationItem) (limits : List ApiKeyLimit)
    → release_limits items (map (charge reserved_amount items) limits) ≡ limits
unfolding release_limits
release_limits-charge [] limits = charge_nothing reserved_amount limits
release_limits-charge (item ∷ rest) limits =
    ap (release_limits rest) (adjust-charge (λ _. 0) item rest limits)
    ∙ release_limits-charge rest (map (charge (λ _. 0) (item ∷ [])) limits)
    ∙ charge_zero (item ∷ []) limits
