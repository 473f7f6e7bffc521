-- ===== src/Bridge/Claims.antt =====
-- Who owns a session after `claim_session` of app/modules/proxy/durable_bridge_repository.py.
use codex_octopus.Base.{
  ℕ, ◌+◌, ◌<◌, ◌≡◌, refl, sym, ◌∙◌, ◌⊎◌, inl, inr, Bool, true, false, Option, none, some, List, [],
  ◌∷◌, ◌++◌, map, arith, if◌then◌else◌, Bool-cases, Option-cases,
}
use codex_octopus.Base.Text.{Text, text_eq, text_eq_refl}
use codex_octopus.Bridge.{
  SessionRecord, HttpBridgeSessionState, active, draining, closed, Hash, Claim, get_session,
  first_where, is_key, update_row, claimed_row, claim_attempt, claim_session, is_owner, is_refused,
  new_row, lease_end, lease_expired, allows_takeover,
}
use codex_octopus.Bridge.Fence.{claim_session_missed}

module _ (p : SessionRecord → Bool) where
  pub first_where-map :
      (f : SessionRecord → SessionRecord)
      → ((r : SessionRecord) → p (f r) ≡ p r)
      → (rows : List SessionRecord) (row : SessionRecord) → first_where p rows ≡ some row
      → first_where p (map f rows) ≡ some (f row)
  first_where-map f keeps [] row h = ground arith
  first_where-map f keeps (r ∷ rest) row h = elim (Bool-cases (p r)) [
    | inl hit ↦ let e : some r ≡ some row = rw hit at h in rw (keeps r, hit) (ground arith)
    | inr miss ↦ rw (keeps r, miss) (first_where-map f keeps rest row (rw miss at h))
  ]

  pub first_where-append :
      (rows : List SessionRecord) (row : SessionRecord)
      → first_where p rows ≡ none
      → p row ≡ true
      → first_where p (rows ++ (row ∷ [])) ≡ some row
  first_where-append [] row h hit = rw hit refl
  first_where-append (r ∷ rest) row h hit = elim (Bool-cases (p r)) [
    | inl found ↦ let e : some r ≡ none = rw found at h in ground arith
    | inr miss ↦ rw miss (first_where-append rest row (rw miss at h) hit)
  ]

  first_where-update :
      (f : SessionRecord → SessionRecord)
      → ((r : SessionRecord) → p (f r) ≡ p r)
      → (rows : List SessionRecord) (row : SessionRecord) → first_where p rows ≡ some row
      → first_where p (update_row row.id f rows) ≡ some (f row)
  first_where-update f keeps rows row h =
      first_where-map (λ r. if text_eq r.id row.id then f r else r) if_keeps rows row h
      ∙ rw (text_eq_refl row.id) refl
    where
      if_keeps : (r : SessionRecord) → p (if text_eq r.id row.id then f r else r) ≡ p r
      if_keeps r = elim (Bool-cases (text_eq r.id row.id)) [
        | inl same ↦ rw same (keeps r)
        | inr apart ↦ rw apart refl
      ]

-- The session that a claim is about.
abbrev pub session_of : Hash → Claim → List SessionRecord → Option SessionRecord
session_of hash c rows =
    get_session hash c.session_key_kind c.session_key_value c.api_key_scope rows

-- The claimer owns the session and has a new lease.
abbrev pub IsGranted : ℕ → Claim → SessionRecord → Type 0
IsGranted now c row =
    (row.owner_instance_id ≡ some c.instance_id)
    × (row.state ≡ active)
    × (row.lease_expires_at ≡ some (lease_end now c.lease_ttl))
    × (row.closed_at ≡ none)

-- Another instance has the session, or nobody has let it go yet, and its lease runs.
abbrev pub IsTaken : ℕ → Claim → SessionRecord → Type 0
IsTaken now c row =
    (is_owner c.instance_id row ≡ false)
    × (row.state ≡ active)
    × (lease_expired now row ≡ false)
    × (c.allow_takeover ≡ false)

IsTaken-refused :
    (now : ℕ) (c : Claim) (row : SessionRecord) → is_refused now c row ≡ true → IsTaken now c row
IsTaken-refused now c row r = (ground arith, by_state row.state refl, ground arith, ground arith)
  where
    by_state : (s : HttpBridgeSessionState) → s ≡ row.state → row.state ≡ active
    by_state active e = sym e
    by_state draining e =
        absurd (let x : allows_takeover row.state ≡ true = rw (sym e) refl in ground arith)
    by_state closed e =
        absurd (let x : allows_takeover row.state ≡ true = rw (sym e) refl in ground arith)

refused-IsTaken :
    (now : ℕ) (c : Claim) (row : SessionRecord) → IsTaken now c row → is_refused now c row ≡ true
refused-IsTaken now c row (o, s, l, t) = rw (o, s, l, t) refl

-- The epoch of a granted session, after what was there before.
abbrev pub EpochAfter : Claim → SessionRecord → Option SessionRecord → Type 0
EpochAfter c row none = row.owner_epoch ≡ 1
EpochAfter c row (some before) =
    ((is_owner c.instance_id before ≡ true) × (row.owner_epoch ≡ before.owner_epoch))
    ⊎ ((is_owner c.instance_id before ≡ false) × (row.owner_epoch ≡ before.owner_epoch + 1))

-- What a claim ends with: a grant, or the refusal that changes nothing.
abbrev pub Outcome :
    Hash → ℕ → Claim → List SessionRecord → List SessionRecord × SessionRecord → Type 0
Outcome hash now c rows (after, row) =
    (session_of hash c after ≡ some row)
    × ((IsGranted now c row × EpochAfter c row (session_of hash c rows))
        ⊎ (IsTaken now c row × (after ≡ rows)))

claimed_row-IsGranted :
    (now : ℕ) (c : Claim) (row : SessionRecord)
    → IsGranted now c (claimed_row now c row) × EpochAfter c (claimed_row now c row) (some row)
unfolding claimed_row
claimed_row-IsGranted now c row = (
  (refl, refl, refl, refl),
  elim (Bool-cases (is_owner c.instance_id row)) [
    | inl own ↦ inl (own, rw own refl)
    | inr other ↦ inr (other, rw other refl)
  ],
)

claim_attempt-Outcome :
    (hash : Hash) (fresh_id : Text) (now : ℕ) (c : Claim) (rows : List SessionRecord)
    → Outcome hash now c rows (claim_attempt hash fresh_id now c rows)
unfolding claim_attempt get_session claimed_row
claim_attempt-Outcome hash fresh_id now c rows =
    let p : SessionRecord → Bool =
      is_key c.session_key_kind (hash c.session_key_value) c.api_key_scope in
    elim (Option-cases (session_of hash c rows)) [
      | inl missing ↦
          let row = new_row hash fresh_id now c in
          let hit : p row ≡ true =
            rw
              (
                text_eq_refl c.session_key_kind,
                text_eq_refl (hash c.session_key_value),
                text_eq_refl c.api_key_scope,
              )
              refl in
          rw (claim_attempt, missing)
            (first_where-append p rows row missing hit, inl ((refl, refl, refl, refl), refl))
      | inr (row, found) ↦ elim (Bool-cases (is_refused now c row)) [
        | inl refused ↦
            rw (claim_attempt, found, refused)
              (found, inr (IsTaken-refused now c row refused, refl))
        | inr granted ↦
            rw (claim_attempt, found, granted)
              (
                first_where-update p (claimed_row now c) (λ r. refl) rows row found,
                inl (claimed_row-IsGranted now c row),
              )
      ]
    ]

-- A claim either gives the claimer the session, active, with a new lease, and under the first epoch,
-- the epoch it has already, or the next one after another owner's; or the table stays as it is, and
-- the session is active with a lease that runs, is not the claimer's, and no takeover is allowed.
-- Either way the row that is returned is the one that is then found by the key, and whether the
-- first select missed a concurrent insertion does not matter.
pub claim_session-Outcome :
    (hash : Hash) (fresh_id : Text) (now : ℕ) (missed : Bool) (c : Claim)
    (rows : List SessionRecord)
    → Outcome hash now c rows (claim_session hash fresh_id now missed c rows)
unfolding claim_session
claim_session-Outcome hash fresh_id now true c rows =
    rw (claim_session_missed hash fresh_id now c rows)
      (claim_attempt-Outcome hash fresh_id now c rows)
claim_session-Outcome hash fresh_id now false c rows =
    claim_attempt-Outcome hash fresh_id now c rows

-- Two claims of one session.
abbrev pub IsRival : Claim → Claim → Type 0
IsRival first second =
    (second.session_key_kind ≡ first.session_key_kind)
    × (second.session_key_value ≡ first.session_key_value)
    × (second.api_key_scope ≡ first.api_key_scope)
    × (text_eq first.instance_id second.instance_id ≡ false)

-- A claim of a session that is taken changes nothing and returns the session.
pub refuses_taken :
    (hash : Hash) (fresh_id : Text) (now : ℕ) (missed : Bool) (c : Claim)
    (rows : List SessionRecord) (row : SessionRecord)
    → session_of hash c rows ≡ some row
    → IsTaken now c row
    → claim_session hash fresh_id now missed c rows ≡ (rows, row)
unfolding claim_session claim_attempt
refuses_taken hash fresh_id now missed c rows row found t =
    by_race missed (rw (claim_session, claim_attempt, found, refused-IsTaken now c row t) refl)
  where
    by_race :
        (b : Bool)
        → claim_session hash fresh_id now false c rows ≡ (rows, row)
        → claim_session hash fresh_id now b c rows ≡ (rows, row)
    by_race true e = claim_session_missed hash fresh_id now c rows ∙ e
    by_race false e = e

-- While the lease of a grant runs, the session is taken for everyone else.
pub IsGranted-IsTaken :
    (now later : ℕ) (first second : Claim) (row : SessionRecord)
    → text_eq first.instance_id second.instance_id ≡ false
    → second.allow_takeover ≡ false
    → later < lease_end now first.lease_ttl
    → IsGranted now first row
    → IsTaken later second row
IsGranted-IsTaken now later first second row apart no_takeover in_time (o, s, l, _) =
    (rw (is_owner, o) apart, s, rw (lease_expired, l) (ground arith), no_takeover)
