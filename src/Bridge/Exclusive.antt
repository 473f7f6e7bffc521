-- ===== src/Bridge/Exclusive.antt =====
-- A granted session against the calls of other instances: app/modules/proxy/durable_bridge_repository.py.
use codex_octopus.Base.{
  ℕ, ◌<◌, ◌≡◌, refl, sym, ◌∙◌, ap, subst, inl, inr, Bool, true, false, some, List, [], ◌∷◌, ◌++◌,
  Bool-cases, Option-cases, All,
}
use codex_octopus.Base.Text.{Text, text_eq, text_eq_refl, eq_of_text_eq}
use codex_octopus.Bridge.{
  SessionRecord, Hash, Claim, is_key, renewed_row, released_row, renew_session, release_session,
  mark_owner_draining, is_drained_by, claimed_row, claim_attempt, claim_session, is_refused,
  get_session, new_row, lease_end, draining,
}
use codex_octopus.Bridge.Fence.{
  Call, claiming, renewing, releasing, mark_draining, perform, perform_all, claim_session_missed,
}
use codex_octopus.Bridge.Claims.{
  session_of, IsGranted, IsTaken, IsRival, refuses_taken, IsGranted-IsTaken, claim_session-Outcome,
}
use codex_octopus.Bridge.Kept.{
  IsOnly, first_where-found, first_where-longer, IsKept, map-IsKept, if-IsApart, only_one,
  write_held-IsKept,
}

-- A call of another instance, which does not take sessions over, and whose claims come before the end of a lease
-- and give a new session an identifier of its own.
abbrev pub IsForeign : Text → Text → ℕ → Call → Type 0
IsForeign owner session_id until (claiming fresh_id now missed c) =
    (text_eq owner c.instance_id ≡ false)
    × (c.allow_takeover ≡ false)
    × (now < until)
    × (text_eq fresh_id session_id ≡ false)
IsForeign owner session_id until (renewing now id instance_id owner_epoch r) =
    text_eq owner instance_id ≡ false
IsForeign owner session_id until (releasing now id instance_id owner_epoch is_draining) =
    text_eq owner instance_id ≡ false
IsForeign owner session_id until (mark_draining now instance_id) = text_eq owner instance_id ≡ false

-- What is known of the row while its lease runs.
record IsLeased (owner : Text) (until : ℕ) (row : SessionRecord) : Type 0 where
  owned : row.owner_instance_id ≡ some owner
  refuses :
      (now : ℕ) (c : Claim)
      → text_eq owner c.instance_id ≡ false
      → c.allow_takeover ≡ false
      → now < until
      → IsTaken now c row

claim_attempt-IsKept :
    (hash : Hash) (c : Claim) (owner : Text) (until : ℕ) (row : SessionRecord)
    (rows : List SessionRecord) (fresh_id : Text) (now : ℕ) (other : Claim)
    → IsLeased owner until row
    → text_eq owner other.instance_id ≡ false
    → other.allow_takeover ≡ false
    → now < until
    → text_eq fresh_id row.id ≡ false
    → IsKept hash c row rows
    → IsKept hash c row (claim_session hash fresh_id now false other rows).0
unfolding claim_session claim_attempt get_session claimed_row
claim_attempt-IsKept hash c owner until row rows fresh_id now other l apart no_takeover in_time
      fresh k =
    elim (Option-cases (session_of hash other rows)) [
      | inl missing ↦
          rw (claim_attempt, missing)
            (record {
              found =
                  first_where-longer
                    (is_key c.session_key_kind (hash c.session_key_value) c.api_key_scope) rows _
                    row k.found;
              only = append-IsOnly rows (new_row hash fresh_id now other) fresh k.only;
            })
      | inr (r, found) ↦ elim (Bool-cases (text_eq r.id row.id)) [
        | inl same ↦
            let (m, _) =
              first_where-found
                (is_key other.session_key_kind (hash other.session_key_value) other.api_key_scope)
                rows r found in
            let e : r ≡ row = only_one row r rows k.only m same in
            let found' : session_of hash other rows ≡ some row = found ∙ ap some e in
            subst (λ x. IsKept hash c row x.0)
              (sym (
                refuses_taken hash fresh_id now false other rows row found'
                  (l.refuses now other apart no_takeover in_time)))
              k
        | inr differs ↦ elim (Bool-cases (is_refused now other r)) [
          | inl refused ↦ rw (claim_attempt, found, refused) k
          | inr granted ↦
              rw (claim_attempt, found, granted)
                (map-IsKept hash c row _ rows
                  (if-IsApart row (λ x. text_eq x.id r.id) (claimed_row now other)
                    (text_eq_sym r.id row.id differs) (λ x. refl) (λ kind value scope x. refl))
                  k)
        ]
      ]
    ]
  where
    append-IsOnly :
        (xs : List SessionRecord) (x : SessionRecord)
        → text_eq x.id row.id ≡ false
        → IsOnly row xs
        → IsOnly row (xs ++ (x ∷ []))
    append-IsOnly [] x e o = (inl e, tt)
    append-IsOnly (y ∷ xs) x e (o, os) = (o, append-IsOnly xs x e os)

    text_eq_sym : (a b : Text) → text_eq a b ≡ false → text_eq b a ≡ false
    text_eq_sym a b h = elim (Bool-cases (text_eq b a)) [
      | inr e ↦ e
      | inl e ↦
          let same : text_eq a b ≡ true = rw (eq_of_text_eq b a e) (text_eq_refl a) in absurd cc
    ]

perform-IsKept :
    (hash : Hash) (c : Claim) (owner : Text) (until : ℕ) (row : SessionRecord) (call : Call)
    (rows : List SessionRecord)
    → IsLeased owner until row
    → IsForeign owner row.id until call
    → IsKept hash c row rows
    → IsKept hash c row (perform hash call rows)
unfolding perform renew_session release_session mark_owner_draining
perform-IsKept hash c owner until row (claiming fresh_id now false other) rows l
      (apart, no_takeover, in_time, fresh) k =
    claim_attempt-IsKept hash c owner until row rows fresh_id now other l apart no_takeover in_time
      fresh k
perform-IsKept hash c owner until row (claiming fresh_id now true other) rows l
      (apart, no_takeover, in_time, fresh) k =
    subst (λ x. IsKept hash c row x.0) (sym (claim_session_missed hash fresh_id now other rows))
      (claim_attempt-IsKept hash c owner until row rows fresh_id now other l apart no_takeover
        in_time fresh k)
perform-IsKept hash c owner until row (renewing now session_id other owner_epoch r) rows l apart k =
    write_held-IsKept hash c row session_id other owner owner_epoch (renewed_row now r) rows l.owned
      apart (λ x. refl) (λ kind value scope x. refl) k
perform-IsKept hash c owner until row (releasing now session_id other owner_epoch is_draining) rows
      l apart k =
    write_held-IsKept hash c row session_id other owner owner_epoch (released_row now is_draining)
      rows l.owned apart (λ x. refl) (λ kind value scope x. refl) k
perform-IsKept hash c owner until row (mark_draining now other) rows l apart k =
    map-IsKept hash c row _ rows
      (if-IsApart row (is_drained_by other) (λ r. record r { state = draining; last_seen_at = now })
        (rw (is_drained_by, l.owned, apart) refl) (λ x. refl) (λ kind value scope x. refl))
      k

perform_all-IsKept :
    (hash : Hash) (c : Claim) (owner : Text) (until : ℕ) (row : SessionRecord) (calls : List Call)
    (rows : List SessionRecord)
    → IsLeased owner until row
    → All (IsForeign owner row.id until) calls
    → IsKept hash c row rows
    → IsKept hash c row (perform_all hash calls rows)
unfolding perform_all
perform_all-IsKept hash c owner until row [] rows l a k = k
perform_all-IsKept hash c owner until row (call ∷ calls) rows l (a, rest) k =
    perform_all-IsKept hash c owner until row calls (perform hash call rows) l rest
      (perform-IsKept hash c owner until row call rows l a k)

IsGranted-IsLeased :
    (now : ℕ) (first : Claim) (row : SessionRecord)
    → IsGranted now first row
    → IsLeased first.instance_id (lease_end now first.lease_ttl) row
IsGranted-IsLeased now first row g = record {
  owned = g.0;
  refuses = λ later c apart no_takeover in_time.
      IsGranted-IsTaken now later first c row apart no_takeover in_time g;
}

-- After a claim has been granted, the session stays as it is while only other instances call, whatever they claim,
-- renew, release or mark as draining, as long as they do not take sessions over and their claims come before the
-- end of its lease. So a claim of the same session by another instance before then, without takeover, changes
-- nothing and is answered with the first claimer's row. No other row has the identifier of the session.
pub claim_session_exclusive :
    (hash : Hash) (fresh_id fresh_id' : Text) (now later : ℕ) (missed missed' : Bool)
    (first second : Claim) (rows after : List SessionRecord) (row : SessionRecord)
    (calls : List Call)
    → claim_session hash fresh_id now missed first rows ≡ (after, row)
    → IsGranted now first row
    → IsOnly row after
    → All (IsForeign first.instance_id row.id (lease_end now first.lease_ttl)) calls
    → IsRival first second
    → second.allow_takeover ≡ false
    → later < lease_end now first.lease_ttl
    → (session_of hash first (perform_all hash calls after) ≡ some row)
      × (claim_session hash fresh_id' later missed' second (perform_all hash calls after)
          ≡ (perform_all hash calls after, row))
claim_session_exclusive hash fresh_id fresh_id' now later missed missed' first second rows after row
      calls claimed granted only foreign (k, v, s, apart) no_takeover in_time =
    let first_found : session_of hash first after ≡ some row =
      subst (λ x. session_of hash first x.0 ≡ some x.1) claimed
        (claim_session-Outcome hash fresh_id now missed first rows).0 in
    let leased = IsGranted-IsLeased now first row granted in
    let kept =
      perform_all-IsKept hash first first.instance_id (lease_end now first.lease_ttl) row calls
        after leased foreign (record { found = first_found; only = only }) in
    let found : session_of hash second (perform_all hash calls after) ≡ some row =
      rw (k, v, s) kept.found in
    (
      kept.found,
      refuses_taken hash fresh_id' later missed' second (perform_all hash calls after) row found
          (leased.refuses later second apart no_takeover in_time),
    )
