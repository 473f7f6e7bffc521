-- ===== src/Bridge/Kept.antt =====
-- What writes of other instances leave of a session: app/modules/proxy/durable_bridge_repository.py.
use mathlib.Core.Option.{some-injective}
use codex_octopus.Base.{
  ℕ, ◌≡◌, refl, sym, ◌∙◌, ap, ◌⊎◌, inl, inr, Bool, true, false, some, List, [], ◌∷◌, ◌++◌, map,
  arith, if◌then◌else◌, Bool-cases, Option-cases, In, All, All-In,
}
use codex_octopus.Base.Text.{Text, text_eq, text_eq_refl, eq_of_text_eq}
use codex_octopus.Bridge.{
  SessionRecord, Hash, Claim, first_where, is_key, holds, write_held, get_session,
}
use codex_octopus.Bridge.Claims.{session_of, first_where-map}

-- The row is the only one with its identifier.
abbrev pub IsOnly : SessionRecord → List SessionRecord → Type 0
IsOnly row rows = All (λ r. (text_eq r.id row.id ≡ false) ⊎ (r ≡ row)) rows

pub first_where-found :
    (p : SessionRecord → Bool) (rows : List SessionRecord) (row : SessionRecord)
    → first_where p rows ≡ some row
    → In row rows × (p row ≡ true)
first_where-found p [] row h = ground arith
first_where-found p (r ∷ rows) row h = elim (Bool-cases (p r)) [
  | inl hit ↦
      let e : r ≡ row = some-injective r row (rw hit at h) in (inl (sym e), ap p (sym e) ∙ hit)
  | inr miss ↦ let (m, hit) = first_where-found p rows row (rw miss at h) in (inr m, hit)
]

pub first_where-longer :
    (p : SessionRecord → Bool) (rows added : List SessionRecord) (row : SessionRecord)
    → first_where p rows ≡ some row
    → first_where p (rows ++ added) ≡ some row
first_where-longer p [] added row h = ground arith
first_where-longer p (r ∷ rows) added row h = elim (Bool-cases (p r)) [
  | inl hit ↦ rw hit (rw hit at h)
  | inr miss ↦ rw miss (first_where-longer p rows added row (rw miss at h))
]

-- What stays true of the session: its key finds the row, and no other row has its identifier.
pub record IsKept (hash : Hash) (c : Claim) (row : SessionRecord) (rows : List SessionRecord)
    : Type 0 where
  pub found : session_of hash c rows ≡ some row
  pub only : IsOnly row rows

-- A change that touches neither keys nor identifiers, nor the row.
pub record IsApart (row : SessionRecord) (g : SessionRecord → SessionRecord) : Type 0 where
  pub fixes : g row ≡ row
  pub same_id : (r : SessionRecord) → (g r).id ≡ r.id
  pub same_key :
      (kind value scope : Text) (r : SessionRecord)
      → is_key kind value scope (g r) ≡ is_key kind value scope r

pub map-IsOnly :
    (row : SessionRecord) (g : SessionRecord → SessionRecord) (rows : List SessionRecord)
    → IsApart row g
    → IsOnly row rows
    → IsOnly row (map g rows)
map-IsOnly row g [] a o = tt
map-IsOnly row g (r ∷ rows) a (o, os) = (one o, map-IsOnly row g rows a os)
  where
    one :
        (text_eq r.id row.id ≡ false) ⊎ (r ≡ row) → (text_eq (g r).id row.id ≡ false) ⊎ (g r ≡ row)
    one (inl apart) = inl (ap (λ id. text_eq id row.id) (a.same_id r) ∙ apart)
    one (inr same) = inr (ap g same ∙ a.fixes)

pub map-IsKept :
    (hash : Hash) (c : Claim) (row : SessionRecord) (g : SessionRecord → SessionRecord)
    (rows : List SessionRecord)
    → IsApart row g
    → IsKept hash c row rows
    → IsKept hash c row (map g rows)
unfolding get_session
map-IsKept hash c row g rows a k = record {
  found =
      first_where-map (is_key c.session_key_kind (hash c.session_key_value) c.api_key_scope) g
        (a.same_key c.session_key_kind (hash c.session_key_value) c.api_key_scope) rows row k.found
      ∙ ap some a.fixes;
  only = map-IsOnly row g rows a k.only;
}

-- A change of the rows that pass a test which the row does not pass.
pub if-IsApart :
    (row : SessionRecord) (p : SessionRecord → Bool) (f : SessionRecord → SessionRecord)
    → p row ≡ false
    → ((r : SessionRecord) → (f r).id ≡ r.id)
    → ((kind value scope : Text) (r : SessionRecord)
        → is_key kind value scope (f r) ≡ is_key kind value scope r)
    → IsApart row (λ r. if p r then f r else r)
if-IsApart row p f miss id key = record {
  fixes = rw miss refl;
  same_id = λ r. elim (Bool-cases (p r)) [ inl h ↦ rw h (id r) | inr h ↦ rw h refl ];
  same_key = λ kind value scope r. elim (Bool-cases (p r)) [
    | inl h ↦ rw h (key kind value scope r)
    | inr h ↦ rw h refl
  ];
}

-- A row with the identifier of the session is its row.
pub only_one :
    (row r : SessionRecord) (rows : List SessionRecord)
    → IsOnly row rows
    → In r rows
    → text_eq r.id row.id ≡ true
    → r ≡ row
only_one row r rows o m same = elim (All-In _ r rows o m) [ inl apart ↦ absurd cc | inr e ↦ e ]

pub foreign_holds :
    (owner other : Text) (owner_epoch : ℕ) (row : SessionRecord)
    → row.owner_instance_id ≡ some owner
    → text_eq owner other ≡ false
    → holds other owner_epoch row ≡ false
foreign_holds owner other owner_epoch row o apart = rw (o, apart) refl

pub write_held-IsKept :
    (hash : Hash) (c : Claim) (row : SessionRecord) (session_id other owner : Text)
    (owner_epoch : ℕ) (f : SessionRecord → SessionRecord) (rows : List SessionRecord)
    → row.owner_instance_id ≡ some owner
    → text_eq owner other ≡ false
    → ((r : SessionRecord) → (f r).id ≡ r.id)
    → ((kind value scope : Text) (r : SessionRecord)
        → is_key kind value scope (f r) ≡ is_key kind value scope r)
    → IsKept hash c row rows
    → IsKept hash c row (write_held session_id other owner_epoch f rows).0
write_held-IsKept hash c row session_id other owner owner_epoch f rows o apart id key k =
    elim (Option-cases (first_where (λ r. text_eq r.id session_id) rows)) [
      | inl missing ↦ rw (write_held, missing) k
      | inr (r, found) ↦ elim (Bool-cases (holds other owner_epoch r)) [
        | inr free ↦ rw (write_held, found, free) k
        | inl held ↦
            rw (write_held, found, held)
              (map-IsKept hash c row _ rows
                (if-IsApart row (λ x. text_eq x.id session_id) f (is_other r found held) id key) k)
      ]
    ]
  where
    is_other :
        (r : SessionRecord)
        → first_where (λ x. text_eq x.id session_id) rows ≡ some r
        → holds other owner_epoch r ≡ true
        → text_eq row.id session_id ≡ false
    is_other r found held = elim (Bool-cases (text_eq row.id session_id)) [
      | inr apart' ↦ apart'
      | inl same ↦
          let (m, hit) = first_where-found (λ x. text_eq x.id session_id) rows r found in
          let ids : r.id ≡ row.id =
            eq_of_text_eq r.id session_id hit ∙ sym (eq_of_text_eq row.id session_id same) in
          let e : r ≡ row =
            only_one row r rows k.only m (ap (λ x. text_eq x row.id) ids ∙ text_eq_refl row.id) in
          absurd (
            let no =
              ap (holds other owner_epoch) e ∙ foreign_holds owner other owner_epoch row o apart in
            cc)
    ]
