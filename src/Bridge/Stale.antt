-- ===== src/Bridge/Stale.antt =====
-- Renewals and releases of bridge sessions by an instance that has lost them:
-- app/modules/proxy/durable_bridge_repository.py.
use codex_octopus.Base.{
  ℕ, ◌≤◌, ◌<◌, ◌==◌, ◌≡◌, refl, ◌∙◌, ◌⊎◌, inl, inr, Bool, false, some, List, arith, Bool-cases,
}
use codex_octopus.Base.Text.{Text, text_eq}
use codex_octopus.Bridge.Fence.{Call, perform_all, Fenced, perform_all-Fenced}
use codex_octopus.Bridge.{
  SessionRecord, Hash, Renewal, get_session_by_id, first_where, is_owner, holds, write_held,
  renew_session, release_session,
}

-- An instance that does not own the session under the epoch is refused.
abbrev IsStale : Text → ℕ → SessionRecord → Type 0
IsStale instance_id owner_epoch row =
    (owner_epoch < row.owner_epoch)
    ⊎ ((row.owner_epoch ≡ owner_epoch) × (is_owner instance_id row ≡ false))

Fenced-IsStale :
    (instance_id : Text) (owner_epoch : ℕ) (row later : SessionRecord)
    → Fenced row later
    → IsStale instance_id owner_epoch row
    → IsStale instance_id owner_epoch later
Fenced-IsStale instance_id owner_epoch row later (inl l) (inl m) = inl (omega arith)
Fenced-IsStale instance_id owner_epoch row later (inl l) (inr (e, o)) = inl (omega arith)
Fenced-IsStale instance_id owner_epoch row later (inr (e, o)) (inl m) = inl (omega arith)
Fenced-IsStale instance_id owner_epoch row later (inr (e, inl s)) (inr (f, o)) = inr (e ∙ f, rw s o)
Fenced-IsStale instance_id owner_epoch row later (inr (e, inr s)) (inr (f, o)) =
    inr (e ∙ f, rw s refl)

IsStale-holds :
    (instance_id : Text) (owner_epoch : ℕ) (row : SessionRecord)
    → IsStale instance_id owner_epoch row
    → holds instance_id owner_epoch row ≡ false
IsStale-holds instance_id owner_epoch row (inl l) = ground arith
IsStale-holds instance_id owner_epoch row (inr (e, o)) = rw o refl

-- The table is what it was when a renewal or a release is stale.
pub write_held_stale :
    (session_id instance_id : Text) (owner_epoch : ℕ) (f : SessionRecord → SessionRecord)
    (rows : List SessionRecord) (row : SessionRecord)
    → get_session_by_id session_id rows ≡ some row
    → holds instance_id owner_epoch row ≡ false
    → (write_held session_id instance_id owner_epoch f rows).0 ≡ rows
unfolding get_session_by_id
write_held_stale session_id instance_id owner_epoch f rows row h no_hold =
    let found : first_where (λ r. text_eq r.id session_id) rows ≡ some row = h in
    rw (write_held, found, no_hold) refl

-- Once an instance owns a session under an epoch, no renewal and no release by any other instance under
-- that or an earlier epoch changes the table, whatever calls of the instances came between, each
-- call reading and committing before the next. So after a takeover the former owner cannot write.
pub stale_owner_cannot_write :
    (hash : Hash) (calls : List Call) (rows : List SessionRecord) (session_id owner other : Text)
    (owner_epoch now : ℕ) (renewal : Renewal) (is_draining : Bool) (row : SessionRecord)
    → get_session_by_id session_id rows ≡ some row
    → row.owner_instance_id ≡ some owner
    → text_eq owner other ≡ false
    → owner_epoch ≤ row.owner_epoch
    → let later = perform_all hash calls rows in
      ((renew_session now session_id other owner_epoch renewal later).0 ≡ later)
      × ((release_session now session_id other owner_epoch is_draining later).0 ≡ later)
unfolding renew_session release_session
stale_owner_cannot_write hash calls rows session_id owner other owner_epoch now renewal is_draining
      row h o apart le =
    let (later, found, l) = perform_all-Fenced hash calls rows session_id row h in
    let stale =
      IsStale-holds other owner_epoch later
        (Fenced-IsStale other owner_epoch row later l at_first) in
    (
      write_held_stale session_id other owner_epoch _ _ later found stale,
      write_held_stale session_id other owner_epoch _ _ later found stale,
    )
  where
    is_other : is_owner other row ≡ false
    is_other = rw o apart

    at_first : IsStale other owner_epoch row
    at_first = elim (Bool-cases (row.owner_epoch == owner_epoch)) [
      | inl e ↦ inr (ground arith, is_other)
      | inr e ↦ inl (ground arith)
    ]
