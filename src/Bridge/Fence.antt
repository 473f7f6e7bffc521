-- ===== src/Bridge/Fence.antt =====
-- What the operations of app/modules/proxy/durable_bridge_repository.py may do to the owner and the
-- epoch of a session, in any sequence of calls.
use mathlib.Core.Option.{some-injective}
use codex_octopus.Base.{
  ℕ, ◌<◌, ◌≡◌, refl, sym, ◌∙◌, ap, subst, ◌⊎◌, inl, inr, Bool, true, false, Option, none, some,
  List, [], ◌∷◌, ◌++◌, map, arith, if◌then◌else◌, Bool-cases, Option-cases,
}
use codex_octopus.Base.Text.{Text, text_eq, eq_of_text_eq}
use codex_octopus.Bridge.{
  SessionRecord, Hash, Claim, Renewal, get_session, get_session_by_id, first_where, update_row,
  claimed_row, claim_attempt, claim_session, is_refused, holds, write_held, renewed_row,
  renew_session, released_row, release_session, mark_owner_draining, is_drained_by,
}

-- The calls of the repository that write sessions, each with the moment at which it runs.
pub data Call : Type 0 where
  claiming : Text → ℕ → Bool → Claim → Call
  renewing : ℕ → Text → Text → ℕ → Renewal → Call
  releasing : ℕ → Text → Text → ℕ → Bool → Call
  mark_draining : ℕ → Text → Call

unfoldable pub perform : Hash → Call → List SessionRecord → List SessionRecord
perform hash (claiming fresh_id now missed c) rows =
    (claim_session hash fresh_id now missed c rows).0
perform hash (renewing now session_id instance_id owner_epoch r) rows =
    (renew_session now session_id instance_id owner_epoch r rows).0
perform hash (releasing now session_id instance_id owner_epoch is_draining) rows =
    (release_session now session_id instance_id owner_epoch is_draining rows).0
perform hash (mark_draining now instance_id) rows = (mark_owner_draining now instance_id rows).0

unfoldable pub perform_all : Hash → List Call → List SessionRecord → List SessionRecord
unfolding perform
perform_all hash [] rows = rows
perform_all hash (call ∷ calls) rows = perform_all hash calls (perform hash call rows)

-- The epoch has risen, or it is the same and the owner is the same or has let go.
abbrev pub Fenced : SessionRecord → SessionRecord → Type 0
Fenced before after =
    (before.owner_epoch < after.owner_epoch)
    ⊎ ((after.owner_epoch ≡ before.owner_epoch)
        × ((after.owner_instance_id ≡ before.owner_instance_id) ⊎ (after.owner_instance_id ≡ none)))

Fenced-refl : (r : SessionRecord) → Fenced r r
Fenced-refl r = inr (refl, inl refl)

Fenced-trans : (a b c : SessionRecord) → Fenced a b → Fenced b c → Fenced a c
Fenced-trans a b c (inl l) (inl m) = inl (omega arith)
Fenced-trans a b c (inl l) (inr (e, _)) = inl (omega arith)
Fenced-trans a b c (inr (e, _)) (inl m) = inl (omega arith)
Fenced-trans a b c (inr (e, _)) (inr (f, inr g)) = inr (f ∙ e, inr g)
Fenced-trans a b c (inr (e, inl o)) (inr (f, inl p)) = inr (f ∙ e, inl (p ∙ o))
Fenced-trans a b c (inr (e, inr o)) (inr (f, inl p)) = inr (f ∙ e, inr (p ∙ o))

-- A change of rows that keeps their ids and is fenced.
abbrev Changes : (SessionRecord → SessionRecord) → Type 0
Changes f = (r : SessionRecord) → ((f r).id ≡ r.id) × Fenced r (f r)

claimed_row-Changes : (now : ℕ) (c : Claim) → Changes (claimed_row now c)
unfolding claimed_row
claimed_row-Changes now c r = (refl, by_owner r.owner_instance_id refl)
  where
    by_owner : (o : Option Text) → o ≡ r.owner_instance_id → Fenced r (claimed_row now c r)
    by_owner none e = rw (sym e) (inl (omega arith))
    by_owner (some owner) e = elim (Bool-cases (text_eq owner c.instance_id)) [
      | inl own ↦ rw (sym e, own) (inr (refl, inl (ap some (sym (eq_of_text_eq _ _ own)))))
      | inr other ↦ rw (sym e, other) (inl (omega arith))
    ]

renewed_row-Changes : (now : ℕ) (renewal : Renewal) → Changes (renewed_row now renewal)
renewed_row-Changes now renewal r = (refl, Fenced-refl r)

released_row-Changes : (now : ℕ) (is_draining : Bool) → Changes (released_row now is_draining)
released_row-Changes now is_draining r = (refl, inr (refl, inr refl))

-- Applying a change to the rows that pass a test.
if-Changes :
    (p : SessionRecord → Bool) (f : SessionRecord → SessionRecord)
    → Changes f
    → Changes (λ row. if p row then f row else row)
if-Changes p f c r = elim (Bool-cases (p r)) [
  | inl hit ↦ rw hit (c r)
  | inr miss ↦ rw miss (refl, Fenced-refl r)
]

-- A session that is found stays found, and what is found is fenced.
abbrev Follows : List SessionRecord → List SessionRecord → Type 0
Follows rows later =
    (session_id : Text) (row : SessionRecord)
    → get_session_by_id session_id rows ≡ some row
    → (row' : SessionRecord) × (get_session_by_id session_id later ≡ some row') × Fenced row row'

Follows-refl : (rows : List SessionRecord) → Follows rows rows
Follows-refl rows session_id row h = (row, h, Fenced-refl row)

Follows-trans : (a b c : List SessionRecord) → Follows a b → Follows b c → Follows a c
Follows-trans a b c f g session_id row h =
    let (row', h', l) = f session_id row h in
    let (row'', h'', m) = g session_id row' h' in (row'', h'', Fenced-trans row row' row'' l m)

Follows-append : (rows added : List SessionRecord) → Follows rows (rows ++ added)
unfolding get_session_by_id
Follows-append [] added session_id row h = ground arith
Follows-append (r ∷ rest) added session_id row h = elim (Bool-cases (text_eq r.id session_id)) [
  | inl hit ↦ (row, rw hit (rw hit at h), Fenced-refl row)
  | inr miss ↦
      let (row', found, l) = Follows-append rest added session_id row (rw miss at h) in
      (row', rw miss found, l)
]

Follows-map :
    (f : SessionRecord → SessionRecord)
    → Changes f
    → (rows : List SessionRecord) → Follows rows (map f rows)
unfolding get_session_by_id
Follows-map f c [] session_id row h = ground arith
Follows-map f c (r ∷ rest) session_id row h =
    let same : text_eq (f r).id session_id ≡ text_eq r.id session_id =
      ap (λ id. text_eq id session_id) (c r).0 in
    elim (Bool-cases (text_eq r.id session_id)) [
      | inl hit ↦
          let e : r ≡ row = some-injective r row (rw hit at h) in
          (f r, rw (same, hit) refl, subst (λ x. Fenced x (f r)) e (c r).1)
      | inr miss ↦
          let (row', found, l) = Follows-map f c rest session_id row (rw miss at h) in
          (row', rw (same, miss) found, l)
    ]

Follows-update :
    (session_id : Text) (f : SessionRecord → SessionRecord) (rows : List SessionRecord)
    → Changes f
    → Follows rows (update_row session_id f rows)
Follows-update session_id f rows c =
    Follows-map _ (if-Changes (λ row. text_eq row.id session_id) f c) rows

Follows-write_held :
    (session_id instance_id : Text) (owner_epoch : ℕ) (f : SessionRecord → SessionRecord)
    (rows : List SessionRecord)
    → Changes f
    → Follows rows (write_held session_id instance_id owner_epoch f rows).0
Follows-write_held session_id instance_id owner_epoch f rows c =
    by_row (first_where (λ row. text_eq row.id session_id) rows)
  where
    by_row :
        (found : Option SessionRecord)
        → Follows rows (
            (elim found as (λ _. List SessionRecord × Option SessionRecord) [
              | none ↦ (rows, none)
              | some row ↦
                  if holds instance_id owner_epoch row
                  then (update_row session_id f rows, some (f row))
                  else (rows, some row)
            ]).0)
    by_row none = Follows-refl rows
    by_row (some row) = elim (Bool-cases (holds instance_id owner_epoch row)) [
      | inl held ↦ rw held (Follows-update session_id f rows c)
      | inr apart ↦ rw apart (Follows-refl rows)
    ]

claim_attempt-Follows :
    (hash : Hash) (fresh_id : Text) (now : ℕ) (c : Claim) (rows : List SessionRecord)
    → Follows rows (claim_attempt hash fresh_id now c rows).0
unfolding claim_attempt
claim_attempt-Follows hash fresh_id now c rows =
    elim (Option-cases
      (get_session hash c.session_key_kind c.session_key_value c.api_key_scope rows)) [
        | inl missing ↦ rw (claim_attempt, missing) (Follows-append rows _)
        | inr (row, found) ↦ elim (Bool-cases (is_refused now c row)) [
          | inl refused ↦ rw (claim_attempt, found, refused) (Follows-refl rows)
          | inr granted ↦
              rw (claim_attempt, found, granted)
                (Follows-update row.id _ rows (claimed_row-Changes now c))
        ]
      ]

-- A claim whose select misses a row that another instance inserts meanwhile ends as a claim made
-- after that insertion.
pub claim_session_missed :
    (hash : Hash) (fresh_id : Text) (now : ℕ) (c : Claim) (rows : List SessionRecord)
    → claim_session hash fresh_id now true c rows ≡ claim_session hash fresh_id now false c rows
unfolding claim_session
claim_session_missed hash fresh_id now c rows =
    elim (Option-cases
      (get_session hash c.session_key_kind c.session_key_value c.api_key_scope rows)) [
        | inl missing ↦ rw (claim_session, claim_attempt, missing) refl
        | inr (row, found) ↦ rw (claim_session, found) refl
      ]

claim_session-Follows :
    (hash : Hash) (fresh_id : Text) (now : ℕ) (missed : Bool) (c : Claim)
    (rows : List SessionRecord)
    → Follows rows (claim_session hash fresh_id now missed c rows).0
unfolding claim_session
claim_session-Follows hash fresh_id now true c rows =
    rw (claim_session_missed hash fresh_id now c rows)
      (claim_attempt-Follows hash fresh_id now c rows)
claim_session-Follows hash fresh_id now false c rows =
    claim_attempt-Follows hash fresh_id now c rows

perform-Follows :
    (hash : Hash) (call : Call) (rows : List SessionRecord) → Follows rows (perform hash call rows)
unfolding perform renew_session release_session mark_owner_draining
perform-Follows hash (claiming fresh_id now missed c) rows =
    claim_session-Follows hash fresh_id now missed c rows
perform-Follows hash (renewing now session_id instance_id owner_epoch r) rows =
    Follows-write_held session_id instance_id owner_epoch _ rows (renewed_row-Changes now r)
perform-Follows hash (releasing now session_id instance_id owner_epoch is_draining) rows =
    Follows-write_held session_id instance_id owner_epoch _ rows
      (released_row-Changes now is_draining)
perform-Follows hash (mark_draining now instance_id) rows =
    Follows-map _ (if-Changes (is_drained_by instance_id) _ (λ r. (refl, Fenced-refl r))) rows

-- However the instances' calls follow one another, a session that is in the table stays in it, its
-- epoch never falls, and as long as its epoch is the same its owner is the same or none.
pub perform_all-Fenced :
    (hash : Hash) (calls : List Call) (rows : List SessionRecord) (session_id : Text)
    (row : SessionRecord)
    → get_session_by_id session_id rows ≡ some row
    → (later : SessionRecord) × (get_session_by_id session_id (perform_all hash calls rows)
        ≡ some later)
      × Fenced row later
unfolding perform_all
perform_all-Fenced hash [] rows session_id row h = (row, h, Fenced-refl row)
perform_all-Fenced hash (call ∷ calls) rows session_id row h =
    let (next, found, l) = perform-Follows hash call rows session_id row h in
    let (last, at_end, m) =
      perform_all-Fenced hash calls (perform hash call rows) session_id next found in
    (last, at_end, Fenced-trans row next last l m)
