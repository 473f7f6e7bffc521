-- ===== src/ApiKeys/Store/Expiry.antt =====
-- `_lazy_reset_expired_limits` and `validate_key` of app/modules/api_keys/service.py: which limits are
-- left expired, and which keys are let through.
use codex_octopus.Base.{
  ◌⊎◌, ℕ, ◌≤◌, ◌<◌, ltb, ◌≡◌, refl, sym, ◌∙◌, inl, inr, Bool, true, false, Option, none, some, List,
  [], ◌∷◌, arith, if◌then◌else◌, any, All, All-intro, All-map, In, Bool-cases, filter, ◌||◌,
}
use codex_octopus.Base.Text.{Text, text_eq}
use codex_octopus.ApiKeys.Limits.{ApiKeyLimit}
use codex_octopus.ApiKeys.Reset.{advance_reset-Advanced}
use codex_octopus.ApiKeys.Repository.{update_where, is_current, reset_limit}
use codex_octopus.ApiKeys.Store.{
  ApiKey, Store, Result, ok, err, limits_of, lazy_reset_expired_limits, refresh,
  ensure_valid_api_key_row, get_by_hash, validate_key, has_expired,
}

-- A row of the key that has expired is among the limits that are still to be looked at.
abbrev Pending : Text → ℕ → List ApiKeyLimit → ApiKeyLimit → Type 0
Pending key_id now loaded row =
    text_eq row.api_key_id key_id ≡ true
    → ltb row.reset_at now ≡ true
    → any (λ l. is_current l.id l.reset_at row) loaded ≡ true

-- The row after one round of the loop.
abbrev rounded : ℕ → ApiKeyLimit → ℕ → ApiKeyLimit → ApiKeyLimit
rounded now limit reset row =
    if is_current limit.id limit.reset_at row
    then record row { current_value = 0; reset_at = reset }
    else row

reset-Pending :
    (key_id : Text) (now : ℕ) (limit : ApiKeyLimit) (rest : List ApiKeyLimit) (reset : ℕ)
    (row : ApiKeyLimit)
    → now < reset
    → Pending key_id now (limit ∷ rest) row
    → Pending key_id now rest (rounded now limit reset row)
reset-Pending key_id now limit rest reset row n p =
    elim (Bool-cases (is_current limit.id limit.reset_at row))
      as (λ _. Pending key_id now rest (rounded now limit reset row)) [
        | inl hit ↦ rw hit (λ k e. ground arith)
        | inr miss ↦ rw miss (λ k e. rw miss at p k e)
      ]

keep-Pending :
    (key_id : Text) (now : ℕ) (limit : ApiKeyLimit) (rest : List ApiKeyLimit) (row : ApiKeyLimit)
    → ltb limit.reset_at now ≡ false
    → Pending key_id now (limit ∷ rest) row
    → Pending key_id now rest row
keep-Pending key_id now limit rest row n p k e =
    let miss : is_current limit.id limit.reset_at row ≡ false = ground arith in rw miss at p k e

update-Pending :
    (key_id : Text) (now : ℕ) (limit : ApiKeyLimit) (rest : List ApiKeyLimit) (reset : ℕ)
    (rows : List ApiKeyLimit)
    → now < reset
    → All (Pending key_id now (limit ∷ rest)) rows
    → All (Pending key_id now rest) (
        update_where
          (is_current limit.id limit.reset_at)
          (λ row. record row { current_value = 0; reset_at = reset })
          rows)
update-Pending key_id now limit rest reset [] n a = tt
update-Pending key_id now limit rest reset (row ∷ rows) n a = (
  reset-Pending key_id now limit rest reset row n a.0,
  update-Pending key_id now limit rest reset rows n a.1,
)

lazy_reset-Pending :
    (key_id : Text) (now : ℕ) (loaded rows : List ApiKeyLimit)
    → All (Pending key_id now loaded) rows
    → All (Pending key_id now []) (lazy_reset_expired_limits now loaded rows).0
unfolding lazy_reset_expired_limits reset_limit
lazy_reset-Pending key_id now [] rows a = a
lazy_reset-Pending key_id now (limit ∷ rest) rows a = elim (Bool-cases (ltb limit.reset_at now)) [
  | inl due ↦ rw due (
      lazy_reset-Pending key_id now rest _ (
        update-Pending key_id now limit rest _ rows
          (advance_reset-Advanced limit.reset_at now limit.limit_window).0 a))
  | inr ahead ↦ rw ahead (
      lazy_reset-Pending key_id now rest rows
        (All-map _ _ (λ row p. keep-Pending key_id now limit rest row ahead p) rows a))
]

or_right : (a b : Bool) → b ≡ true → (a || b) ≡ true
or_right true b e = refl
or_right false b e = e

filter-any :
    (p q : ApiKeyLimit → Bool) (row : ApiKeyLimit) (rows : List ApiKeyLimit)
    → In row rows
    → p row ≡ true
    → q row ≡ true
    → any q (filter p rows) ≡ true
filter-any p q row [] m hp hq = elim m [ ]
filter-any p q row (x ∷ rest) (inl e) hp hq = rw (sym e, hp, hq) refl
filter-any p q row (x ∷ rest) (inr m) hp hq = elim (Bool-cases (p x)) [
  | inl kept ↦ rw kept (or_right (q x) _ (filter-any p q row rest m hp hq))
  | inr gone ↦ rw gone (filter-any p q row rest m hp hq)
]

loaded-Pending :
    (key_id : Text) (now : ℕ) (rows : List ApiKeyLimit)
    → All (Pending key_id now (filter (λ limit. text_eq limit.api_key_id key_id) rows)) rows
loaded-Pending key_id now rows = All-intro _ rows (λ row m k e.
    filter-any (λ limit. text_eq limit.api_key_id key_id) (λ l. is_current l.id l.reset_at row) row
      rows m k (ground arith))

-- No limit of the key is expired.
abbrev pub AreFresh : Text → ℕ → List ApiKeyLimit → Type 0
AreFresh key_id now rows =
    All (λ row. now ≤ row.reset_at) (filter (λ limit. text_eq limit.api_key_id key_id) rows)

Pending-AreFresh :
    (key_id : Text) (now : ℕ) (rows : List ApiKeyLimit)
    → All (Pending key_id now []) rows
    → AreFresh key_id now rows
Pending-AreFresh key_id now [] a = tt
Pending-AreFresh key_id now (row ∷ rest) a = elim (Bool-cases (text_eq row.api_key_id key_id)) [
  | inl own ↦
      rw own (ahead own (Bool-cases (ltb row.reset_at now)), Pending-AreFresh key_id now rest a.1)
  | inr other ↦ rw other (Pending-AreFresh key_id now rest a.1)
]
  where
    ahead :
        text_eq row.api_key_id key_id ≡ true
        → (ltb row.reset_at now ≡ true) ⊎ (ltb row.reset_at now ≡ false)
        → now ≤ row.reset_at
    ahead own (inl due) = ground (arith, a.0 own due)
    ahead own (inr e) = ground arith

lazy_reset-AreFresh :
    (key_id : Text) (now : ℕ) (store : Store)
    → AreFresh key_id now (lazy_reset_expired_limits now (limits_of key_id store) store.limits).0
unfolding limits_of
lazy_reset-AreFresh key_id now store = Pending-AreFresh key_id now _ (
    lazy_reset-Pending key_id now (limits_of key_id store) store.limits
      (loaded-Pending key_id now store.limits))

admitted :
    (now : ℕ) (found : Option ApiKey) (row : ApiKey)
    → ensure_valid_api_key_row now found ≡ ok row
    → (found ≡ some row) × (row.is_active ≡ true) × (has_expired now row ≡ false)
unfolding ensure_valid_api_key_row
admitted now none row v = ground arith
admitted now (some r) row v = ground arith

module _ (now : ℕ) (get : Store → Option ApiKey) (store : Store)
    (reads : (limits : List ApiKeyLimit) → get (record store { limits = limits }) ≡ get store) where
  -- The key is not read differently after the resets.
  again :
      (b : Bool) (row : ApiKey) (limits : List ApiKeyLimit)
      → ensure_valid_api_key_row now (get store) ≡ ok row
      → ensure_valid_api_key_row now (some row) ≡ ok row
      → ensure_valid_api_key_row now
          (if b then get (record store { limits = limits }) else some row)
        ≡ ok row
  again true row limits v w = rw (reads limits) v
  again false row limits v w = w

  reread :
      (found : Option ApiKey) (row : ApiKey)
      → ensure_valid_api_key_row now found ≡ ok row
      → ensure_valid_api_key_row now (some row) ≡ ok row
  unfolding ensure_valid_api_key_row
  reread none row v = ground arith
  reread (some r) row v = ground arith

  refresh_result :
      (result : Result ApiKey)
      → ensure_valid_api_key_row now (get store) ≡ result
      → (refresh now get store).1 ≡ result
  unfolding refresh
  refresh_result (err e) v = rw (refresh, v) refl
  refresh_result (ok row) v = rw (refresh, v) (again _ row _ v (reread (get store) row v))

  refresh-AreFresh :
      (row : ApiKey)
      → (refresh now get store).1 ≡ ok row
      → AreFresh row.id now (refresh now get store).0.limits
  unfolding refresh
  refresh-AreFresh row v =
      let w : ensure_valid_api_key_row now (get store) ≡ ok row = sym (refresh_result _ refl) ∙ v in
      rw (refresh, w) (lazy_reset-AreFresh row.id now store)

-- A key that `validate_key` lets through is active, has not expired and has the hash that was asked
-- for, and after the call no limit of it has a reset in the past.
pub validate_key_admits :
    (hash : Text → Text) (now : ℕ) (plain_key : Text) (store : Store) (row : ApiKey)
    → (validate_key hash now plain_key store).1 ≡ ok row
    → (get_by_hash (hash plain_key) store ≡ some row)
      × (row.is_active ≡ true)
      × (has_expired now row ≡ false)
      × AreFresh row.id now (validate_key hash now plain_key store).0.limits
unfolding validate_key get_by_hash
validate_key_admits hash now [] store row v = ground arith
validate_key_admits hash now (c ∷ plain_key) store row v =
    let get = get_by_hash (hash (c ∷ plain_key)) in
    let (found, active, current) =
      admitted now (get store) row
        (sym (refresh_result now get store (λ limits. refl) _ refl) ∙ v) in
    (found, active, current, refresh-AreFresh now get store (λ limits. refl) row v)
