-- ===== src/ApiKeys/Service/Endings.antt =====
-- How a usage reservation ends: `finalize_usage_reservation`, `fail_usage_reservation` and
-- `release_usage_reservation` of app/modules/api_keys/service.py.
use codex_octopus.Base.{
  ℕ, ◌≡◌, refl, sym, ◌∙◌, subst, inl, inr, Bool, true, false, Option, none, some, List, [], ◌∷◌,
  arith, any, Bool-cases, ◌||◌,
}
use mathlib.Core.Option.{some-injective}
use codex_octopus.Base.Text.{Text, text_eq, text_eq_refl, eq_of_text_eq}
use codex_octopus.ApiKeys.Limits.{Cost}
use codex_octopus.ApiKeys.Repository.{
  UsageReservation, UsageReservationItem, ReservationStatus, reserved, finalized, failed, released,
  get_usage_reservation, transition_usage_reservation_status, settle_usage_reservation, in_status,
  reservation_status_eq,
}
use codex_octopus.ApiKeys.Service.{
  Report, usage_of, actual_of, settle_claimed, settle_reservation, release_claimed,
  release_usage_reservation, if_reserved, finalize_usage_reservation, fail_usage_reservation,
}
use codex_octopus.ApiKeys.Store.{Store, update_last_used}

-- The three ways to end a reservation.
pub data Ending : Type 0 where
  finalizing failing : Cost → ℕ → Report → Ending
  releasing : Ending

abbrev pub end_reservation : Ending → Text → Store → Store
end_reservation (finalizing cost now report) reservation_id =
    finalize_usage_reservation cost now reservation_id report
end_reservation (failing cost now report) reservation_id =
    fail_usage_reservation cost now reservation_id report
end_reservation releasing reservation_id = release_usage_reservation reservation_id

abbrev pub final_status : Ending → ReservationStatus
final_status (finalizing cost now report) = finalized
final_status (failing cost now report) = failed
final_status releasing = released

-- What an ending charges for an item.
abbrev pub final_amount : Ending → UsageReservationItem → ℕ
final_amount (finalizing cost now report) = actual_of (usage_of cost report)
final_amount (failing cost now report) = actual_of (usage_of cost report)
final_amount releasing = λ _. 0

abbrev pub status_of : Text → Store → Option ReservationStatus
status_of reservation_id store = elim (get_usage_reservation reservation_id store.reservations) [
  | none ↦ none
  | some r ↦ some r.status
]

-- No row of the table changes its id when a reservation is settled, so one that is found is found
-- again, with the status that was written.
abbrev pub Ended : ReservationStatus → Option UsageReservation → Type 0
Ended status none = Unit {0}
Ended status (some r) = r.status ≡ status

pub settle-Ended :
    (reservation_id : Text) (status : ReservationStatus) (rows : List UsageReservation)
    → Ended status
        (get_usage_reservation reservation_id (settle_usage_reservation reservation_id status rows))
unfolding get_usage_reservation settle_usage_reservation
settle-Ended reservation_id status [] = tt
settle-Ended reservation_id status (r ∷ rest) =
    elim (Bool-cases (text_eq r.reservation_id reservation_id)) [
      | inl hit ↦ rw (hit, get_usage_reservation, hit) refl
      | inr miss ↦ rw (miss, get_usage_reservation, miss) (settle-Ended reservation_id status rest)
    ]

or_true : (b : Bool) → (b || true) ≡ true
or_true true = refl
or_true false = refl

-- A reservation that is found has the identifier it was sought by.
found_id :
    (reservation_id : Text) (rows : List UsageReservation) (r : UsageReservation)
    → get_usage_reservation reservation_id rows ≡ some r
    → (r.reservation_id ≡ reservation_id)
      × (reservation_status_eq r.status reserved ≡ true
          → any (in_status r.reservation_id reserved) rows ≡ true)
unfolding get_usage_reservation
found_id reservation_id [] r h = ground arith
found_id reservation_id (x ∷ rest) r h =
    elim (Bool-cases (text_eq x.reservation_id reservation_id)) [
      | inl hit ↦
          let same : x ≡ r = some-injective x r (sym (rw hit refl) ∙ h) in
          (
            subst (λ y. y.reservation_id ≡ reservation_id) same (eq_of_text_eq _ _ hit),
            λ s. rw (same, text_eq_refl r.reservation_id, s) refl,
          )
      | inr miss ↦
          let (i, a) = found_id reservation_id rest r (sym (rw miss refl) ∙ h) in
          (i, λ s. rw (a s, or_true _) refl)
    ]

abbrev IsOver : Option UsageReservation → Type 0
IsOver none = Unit {0}
IsOver (some r) = reservation_status_eq r.status reserved ≡ false

Ended-IsOver :
    (status : ReservationStatus) (found : Option UsageReservation)
    → reservation_status_eq status reserved ≡ false
    → Ended status found
    → IsOver found
Ended-IsOver status none f e = tt
Ended-IsOver status (some r) f e = rw e f

idle :
    (found : Option UsageReservation) (f : UsageReservation → Store) (store : Store)
    → IsOver found
    → if_reserved found f store ≡ store
idle none f store o = refl
idle (some r) f store o = rw o refl

end_reservation_idle :
    (e : Ending) (reservation_id : Text) (store : Store)
    → IsOver (get_usage_reservation reservation_id store.reservations)
    → end_reservation e reservation_id store ≡ store
unfolding finalize_usage_reservation fail_usage_reservation settle_reservation
    release_usage_reservation
end_reservation_idle (finalizing cost now report) reservation_id store o = idle _ _ store o
end_reservation_idle (failing cost now report) reservation_id store o = idle _ _ store o
end_reservation_idle releasing reservation_id store o = idle _ _ store o

settle_claimed-IsOver :
    (cost : Cost) (now : ℕ) (status : ReservationStatus) (report : Report) (r : UsageReservation)
    (store : Store)
    → reservation_status_eq status reserved ≡ false
    → any (in_status r.reservation_id reserved) store.reservations ≡ true
    → IsOver (
        get_usage_reservation r.reservation_id
          (settle_claimed cost now status report r store).reservations)
unfolding settle_claimed transition_usage_reservation_status update_last_used
settle_claimed-IsOver cost now status report r store f h =
    rw h (Ended-IsOver status _ f (settle-Ended r.reservation_id status _))

release_claimed-IsOver :
    (r : UsageReservation) (store : Store)
    → any (in_status r.reservation_id reserved) store.reservations ≡ true
    → IsOver (get_usage_reservation r.reservation_id (release_claimed r store).reservations)
unfolding release_claimed transition_usage_reservation_status
release_claimed-IsOver r store h =
    rw h (Ended-IsOver released _ refl (settle-Ended r.reservation_id released _))

-- Whatever is done with a reservation that is still reserved, it is over after the call.
over :
    (reservation_id : Text) (store : Store) (f : UsageReservation → Store)
    (found : Option UsageReservation)
    → found ≡ get_usage_reservation reservation_id store.reservations
    → ((r : UsageReservation)
        → any (in_status r.reservation_id reserved) store.reservations ≡ true
        → IsOver (get_usage_reservation r.reservation_id (f r).reservations))
    → IsOver (get_usage_reservation reservation_id (if_reserved found f store).reservations)
over reservation_id store f none e ends = subst IsOver e tt
over reservation_id store f (some r) e ends =
    let (same, claim) = found_id reservation_id store.reservations r (sym e) in
    elim (Bool-cases (reservation_status_eq r.status reserved)) [
      | inl s ↦ rw s (
          subst (λ id. IsOver (get_usage_reservation id (f r).reservations)) same
            (ends r (claim s)))
      | inr s ↦ rw s (subst IsOver e s)
    ]

end_reservation-IsOver :
    (e : Ending) (reservation_id : Text) (store : Store)
    → IsOver
        (get_usage_reservation reservation_id (end_reservation e reservation_id store).reservations)
unfolding finalize_usage_reservation fail_usage_reservation settle_reservation
    release_usage_reservation
end_reservation-IsOver (finalizing cost now report) reservation_id store =
    over reservation_id store _ _ refl
      (λ r. settle_claimed-IsOver cost now finalized report r store refl)
end_reservation-IsOver (failing cost now report) reservation_id store =
    over reservation_id store _ _ refl
      (λ r. settle_claimed-IsOver cost now failed report r store refl)
end_reservation-IsOver releasing reservation_id store =
    over reservation_id store _ _ refl (λ r. release_claimed-IsOver r store)

-- A reservation ends once: after it has been finalized, failed or released, every further call of the
-- three leaves all tables as they are. This holds of every store and every identifier.
pub end_reservation_once :
    (first second : Ending) (reservation_id : Text) (store : Store)
    → end_reservation second reservation_id (end_reservation first reservation_id store)
      ≡ end_reservation first reservation_id store
end_reservation_once first second reservation_id store =
    end_reservation_idle second reservation_id (end_reservation first reservation_id store)
      (end_reservation-IsOver first reservation_id store)
