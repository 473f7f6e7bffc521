-- ===== src/ApiKeys/Service/Outcomes.antt =====
-- What the limits hold once a reservation that was booked for a request has ended.
use codex_octopus.Base.{
  ℕ, ◌≡◌, refl, sym, ap, ap₂, ◌∙◌, subst, inl, inr, Bool, true, false, Option, none, some, List, [],
  ◌∷◌, map, arith, if◌then◌else◌, any, Bool-cases, ◌||◌,
}
use codex_octopus.Base.Text.{Text, text_eq, text_eq_refl}
use codex_octopus.ApiKeys.Limits.{Request, Cost}
use codex_octopus.ApiKeys.Repository.{
  UsageReservation, UsageReservationItem, ReservationStatus, reserved, settling, finalized, failed,
  released, get_usage_reservation, transition_usage_reservation_status, settle_usage_reservation,
  upsert_reservation_item_actual, set_status, in_status, set_item,
}
use codex_octopus.ApiKeys.Charges.{charge, IsUnique}
use codex_octopus.ApiKeys.Service.{
  enforce_limits_for_request, Report, usage_of, actual_of, settle_limits, release_limits,
  record_actuals, settle_claimed, settle_reservation, release_claimed, release_usage_reservation,
  if_reserved, finalize_usage_reservation, fail_usage_reservation,
}
use codex_octopus.ApiKeys.Store.{Store, refresh, get_by_id, ok, update_last_used}
use codex_octopus.ApiKeys.Service.Reservations.{IsBooked, Enforced, enforce_limits-Enforced}
use codex_octopus.ApiKeys.Service.Steps.{settle_limits-charge, release_limits-charge, charge_zero}
use codex_octopus.ApiKeys.Service.Endings.{
  Ending, finalizing, failing, releasing, end_reservation, final_status, final_amount, status_of,
  Ended, settle-Ended,
}

-- The reservation in front is the one that is found, and it can be claimed.
front :
    (r : UsageReservation) (rest rows : List UsageReservation)
    → rows ≡ r ∷ rest
    → get_usage_reservation r.reservation_id rows ≡ some r
unfolding get_usage_reservation
front r rest rows e = rw (e, get_usage_reservation, text_eq_refl r.reservation_id) refl

claimable :
    (r : UsageReservation) (rest rows : List UsageReservation)
    → rows ≡ r ∷ rest
    → r.status ≡ reserved
    → any (in_status r.reservation_id reserved) rows ≡ true
claimable r rest rows e h = rw (e, text_eq_refl r.reservation_id, h) refl

if_reserved-some :
    (found : Option UsageReservation) (r : UsageReservation) (f : UsageReservation → Store)
    (store : Store)
    → found ≡ some r
    → r.status ≡ reserved
    → if_reserved found f store ≡ f r
if_reserved-some found r f store e h = rw (e, h) refl

settle_claimed-limits :
    (cost : Cost) (now : ℕ) (status : ReservationStatus) (report : Report) (r : UsageReservation)
    (store : Store)
    → any (in_status r.reservation_id reserved) store.reservations ≡ true
    → (settle_claimed cost now status report r store).limits
      ≡ settle_limits (actual_of (usage_of cost report)) r.items store.limits
unfolding settle_claimed transition_usage_reservation_status update_last_used
settle_claimed-limits cost now status report r store h = rw h refl

release_claimed-limits :
    (r : UsageReservation) (store : Store)
    → any (in_status r.reservation_id reserved) store.reservations ≡ true
    → (release_claimed r store).limits ≡ release_limits r.items store.limits
unfolding release_claimed transition_usage_reservation_status
release_claimed-limits r store h = rw h refl

settled_limits :
    (cost : Cost) (now : ℕ) (status : ReservationStatus) (report : Report) (before after : Store)
    (r : UsageReservation)
    → IsBooked before r after
    → (settle_reservation cost now status r.reservation_id report after).limits
      ≡ map (charge (actual_of (usage_of cost report)) r.items) before.limits
unfolding settle_reservation
settled_limits cost now status report before after r b =
    ap (λ s. s.limits)
      (if_reserved-some _ r (λ x. settle_claimed cost now status report x after) after
        (front r before.reservations after.reservations b.stored) b.is_reserved)
    ∙ settle_claimed-limits cost now status report r after
        (claimable r before.reservations after.reservations b.stored b.is_reserved)
    ∙ ap (settle_limits (actual_of (usage_of cost report)) r.items) b.charged
    ∙ settle_limits-charge (actual_of (usage_of cost report)) r.items before.limits

released_limits :
    (before after : Store) (r : UsageReservation)
    → IsBooked before r after
    → (release_usage_reservation r.reservation_id after).limits ≡ before.limits
unfolding release_usage_reservation
released_limits before after r b =
    ap (λ s. s.limits)
      (if_reserved-some _ r (λ x. release_claimed x after) after
        (front r before.reservations after.reservations b.stored) b.is_reserved)
    ∙ release_claimed-limits r after
        (claimable r before.reservations after.reservations b.stored b.is_reserved)
    ∙ ap (release_limits r.items) b.charged
    ∙ release_limits-charge r.items before.limits

-- The reservation stays in the table.
abbrev present : Text → List UsageReservation → Bool
present reservation_id rows = any (λ r. text_eq r.reservation_id reservation_id) rows

same_reservation :
    (b : Bool) (status : ReservationStatus) (r : UsageReservation)
    → (if b then record r { status = status } else r).reservation_id ≡ r.reservation_id
same_reservation true status r = refl
same_reservation false status r = refl

set_status-present :
    (id : Text) (p : UsageReservation → Bool) (status : ReservationStatus)
    (rows : List UsageReservation)
    → present id (set_status p status rows) ≡ present id rows
set_status-present id p status [] = refl
set_status-present id p status (r ∷ rest) =
    ap₂ (λ x b. text_eq x id || b) (same_reservation (p r) status r)
      (set_status-present id p status rest)

same_items :
    (b : Bool) (items : List UsageReservationItem) (r : UsageReservation)
    → (if b then record r { items = items } else r).reservation_id ≡ r.reservation_id
same_items true items r = refl
same_items false items r = refl

upsert-present :
    (id : Text) (limit_id actual : ℕ) (rows : List UsageReservation)
    → present id (upsert_reservation_item_actual id limit_id actual rows) ≡ present id rows
unfolding upsert_reservation_item_actual
upsert-present id limit_id actual [] = refl
upsert-present id limit_id actual (r ∷ rest) =
    ap₂ (λ x b. text_eq x id || b)
      (same_items (text_eq r.reservation_id id) (set_item limit_id actual r.items) r)
      (upsert-present id limit_id actual rest)

record_actuals-present :
    (id : Text) (actual : UsageReservationItem → ℕ) (items : List UsageReservationItem)
    (rows : List UsageReservation)
    → present id (record_actuals id actual items rows) ≡ present id rows
unfolding record_actuals
record_actuals-present id actual [] rows = refl
record_actuals-present id actual (item ∷ rest) rows =
    record_actuals-present id actual rest _ ∙ upsert-present id item.limit_id (actual item) rows

-- Claimed, with the amounts recorded and the final status written.
abbrev concluded :
    Text
    → ReservationStatus
    → ReservationStatus
    → (UsageReservationItem → ℕ)
    → List UsageReservationItem
    → List UsageReservation
    → List UsageReservation
concluded id claimed status actual items rows =
    settle_usage_reservation id status
      (record_actuals id actual items (set_status (in_status id reserved) claimed rows))

concluded-present :
    (id : Text) (claimed status : ReservationStatus) (actual : UsageReservationItem → ℕ)
    (items : List UsageReservationItem) (rows : List UsageReservation)
    → present id (concluded id claimed status actual items rows) ≡ present id rows
unfolding settle_usage_reservation
concluded-present id claimed status actual items rows =
    set_status-present id _ status _
    ∙ record_actuals-present id actual items _
    ∙ set_status-present id (in_status id reserved) claimed rows

found-present :
    (id : Text) (rows : List UsageReservation) (status : ReservationStatus)
    → present id rows ≡ true
    → Ended status (get_usage_reservation id rows)
    → (elim (get_usage_reservation id rows) [ none ↦ none | some r ↦ some r.status ]) ≡ some status
unfolding get_usage_reservation
found-present id [] status p e = ground arith
found-present id (r ∷ rest) status p e = elim (Bool-cases (text_eq r.reservation_id id)) [
  | inl hit ↦ rw hit (ap some (rw hit at e))
  | inr miss ↦ rw miss (found-present id rest status (rw miss at p) (rw miss at e))
]

concluded_status :
    (id : Text) (claimed status : ReservationStatus) (actual : UsageReservationItem → ℕ)
    (items : List UsageReservationItem) (store : Store)
    → present id store.reservations ≡ true
    → (out : Store) → out.reservations ≡ concluded id claimed status actual items store.reservations
    → status_of id out ≡ some status
concluded_status id claimed status actual items store p out e =
    found-present id out.reservations status
      (rw e (concluded-present id claimed status actual items store.reservations) ∙ p)
      (rw e (settle-Ended id status _))

front-present :
    (r : UsageReservation) (rest rows : List UsageReservation)
    → rows ≡ r ∷ rest
    → present r.reservation_id rows ≡ true
front-present r rest rows e = rw (e, text_eq_refl r.reservation_id) refl

settled_status :
    (cost : Cost) (now : ℕ) (status : ReservationStatus) (report : Report) (before after : Store)
    (r : UsageReservation)
    → IsBooked before r after
    → status_of r.reservation_id (settle_reservation cost now status r.reservation_id report after)
      ≡ some status
unfolding settle_reservation settle_claimed transition_usage_reservation_status update_last_used
settled_status cost now status report before after r b =
    concluded_status r.reservation_id settling status (actual_of (usage_of cost report)) r.items
      after (front-present r before.reservations after.reservations b.stored)
      (settle_reservation cost now status r.reservation_id report after)
      (ap (λ s. s.reservations)
          (if_reserved-some _ r (λ x. settle_claimed cost now status report x after) after
            (front r before.reservations after.reservations b.stored) b.is_reserved)
        ∙ rw (claimable r before.reservations after.reservations b.stored b.is_reserved) refl)

released_status :
    (before after : Store) (r : UsageReservation)
    → IsBooked before r after
    → status_of r.reservation_id (release_usage_reservation r.reservation_id after) ≡ some released
unfolding release_usage_reservation release_claimed transition_usage_reservation_status
released_status before after r b =
    concluded_status r.reservation_id released released (λ _. 0) r.items after
      (front-present r before.reservations after.reservations b.stored)
      (release_usage_reservation r.reservation_id after)
      (ap (λ s. s.reservations)
          (if_reserved-some _ r (λ x. release_claimed x after) after
            (front r before.reservations after.reservations b.stored) b.is_reserved)
        ∙ rw (claimable r before.reservations after.reservations b.stored b.is_reserved) refl)

-- What an ending makes of a booked reservation.
abbrev pub EndsWell : Ending → Store → UsageReservation → Store → Type 0
EndsWell e before r out =
    (out.limits ≡ map (charge (final_amount e) r.items) before.limits)
    × (status_of r.reservation_id out ≡ some (final_status e))

end_booked :
    (e : Ending) (before after : Store) (r : UsageReservation)
    → IsBooked before r after
    → EndsWell e before r (end_reservation e r.reservation_id after)
unfolding finalize_usage_reservation fail_usage_reservation
end_booked (finalizing cost now report) before after r b = (
  settled_limits cost now finalized report before after r b,
  settled_status cost now finalized report before after r b,
)
end_booked (failing cost now report) before after r b = (
  settled_limits cost now failed report before after r b,
  settled_status cost now failed report before after r b,
)
end_booked releasing before after r b = (
  released_limits before after r b ∙ sym (charge_zero r.items before.limits),
  released_status before after r b,
)

-- If enforcing the limits of a key books a reservation and the next call ends it, then the rows of
-- the limits are those before the booking, grown by exactly what the request used of each limit that
-- the reservation holds (for a release: by nothing), and the reservation has the status of the ending.
-- The ids of the limits are assumed unique.
pub enforce_then_end :
    (e : Ending) (cost : Cost) (now : ℕ) (reservation_id key_id : Text) (request : Request)
    (store after : Store) (r : UsageReservation)
    → IsUnique store.limits
    → enforce_limits_for_request cost now reservation_id key_id request store ≡ (after, ok r)
    → EndsWell e (refresh now (get_by_id key_id) store).0 r (end_reservation e reservation_id after)
enforce_then_end e cost now reservation_id key_id request store after r u h =
    let before = (refresh now (get_by_id key_id) store).0 in
    let (same, b) =
      subst (Enforced reservation_id before) h
        (enforce_limits-Enforced cost now reservation_id key_id request store u) in
    subst (λ id. EndsWell e before r (end_reservation e id after)) same
      (end_booked e before after r b)

-- If enforcing the limits of a key books a reservation and the next call releases it, the limits are
-- those that the lazy resets left: the booking has no effect on them. Ids are assumed unique.
pub enforce_then_release :
    (cost : Cost) (now : ℕ) (reservation_id key_id : Text) (request : Request) (store after : Store)
    (r : UsageReservation)
    → IsUnique store.limits
    → enforce_limits_for_request cost now reservation_id key_id request store ≡ (after, ok r)
    → (release_usage_reservation reservation_id after).limits
      ≡ (refresh now (get_by_id key_id) store).0.limits
enforce_then_release cost now reservation_id key_id request store after r u h =
    (enforce_then_end releasing cost now reservation_id key_id request store after r u h).0
    ∙ charge_zero r.items _
