-- ===== src/ApiKeys/Charges.antt =====
-- What a list of reservation items adds to the rows of the limits, and how the statements of the
-- repository change it.
use codex_octopus.Base.{
  ℕ, ◌+◌, ◌≤◌, ◌==◌, ◌≡◌, refl, sym, ap₂, ◌∙◌, subst, ◌≢◌, inl, inr, Bool, true, false, List, [],
  ◌∷◌, map, arith, if◌then◌else◌, any, All, Bool-cases,
}
use codex_octopus.Base.Int.{sub_ℕ}
use codex_octopus.ApiKeys.Limits.{ApiKeyLimit}
use codex_octopus.ApiKeys.Repository.{
  UsageReservationItem, update_where, is_current, may_reserve, add_usage, may_adjust, adjust_usage,
  try_reserve_usage, adjust_reserved_usage,
}

-- The rows that an item is about: its limit, still in the window in which it was reserved.
abbrev pub matches : UsageReservationItem → ApiKeyLimit → Bool
matches item row = is_current item.limit_id item.expected_reset_at row

-- The amounts of the items about a row.
abbrev pub total : (UsageReservationItem → ℕ) → List UsageReservationItem → ApiKeyLimit → ℕ
total amount [] row = 0
total amount (item ∷ rest) row =
    (if matches item row then amount item else 0) + total amount rest row

abbrev pub charge :
    (UsageReservationItem → ℕ) → List UsageReservationItem → ApiKeyLimit → ApiKeyLimit
charge amount items row = record row { current_value = row.current_value + total amount items row }

-- Primary keys: no two rows share an id.
abbrev pub IsUnique : List ApiKeyLimit → Type 0
IsUnique [] = Unit {0}
IsUnique (row ∷ rest) = All (λ r. r.id ≢ row.id) rest × IsUnique rest

total_same :
    (amount : UsageReservationItem → ℕ) (items : List UsageReservationItem) (row : ApiKeyLimit)
    (value : ℕ)
    → total amount items (record row { current_value = value }) ≡ total amount items row
total_same amount [] row value = refl
total_same amount (item ∷ rest) row value = omega (arith, total_same amount rest row value)

charge-charge :
    (amount : UsageReservationItem → ℕ) (item : UsageReservationItem)
    (items : List UsageReservationItem) (row : ApiKeyLimit)
    → charge amount items (charge amount (item ∷ []) row) ≡ charge amount (item ∷ items) row
charge-charge amount item items row =
    ground (arith, total_same amount items row (row.current_value + total amount (item ∷ []) row))

pub map-charge-charge :
    (amount : UsageReservationItem → ℕ) (item : UsageReservationItem)
    (items : List UsageReservationItem) (rows : List ApiKeyLimit)
    → map (charge amount items) (map (charge amount (item ∷ [])) rows)
      ≡ map (charge amount (item ∷ items)) rows
map-charge-charge amount item items [] = refl
map-charge-charge amount item items (row ∷ rest) =
    ap₂ ◌∷◌ (charge-charge amount item items row) (map-charge-charge amount item items rest)

pub charge_nothing :
    (amount : UsageReservationItem → ℕ) (rows : List ApiKeyLimit)
    → map (charge amount []) rows ≡ rows
charge_nothing amount [] = refl
charge_nothing amount (row ∷ rest) = ap₂ ◌∷◌ (ground arith) (charge_nothing amount rest)

All-charge :
    (amount : UsageReservationItem → ℕ) (items : List UsageReservationItem) (id : ℕ)
    (rows : List ApiKeyLimit)
    → All (λ r. r.id ≢ id) rows
    → All (λ r. r.id ≢ id) (map (charge amount items) rows)
All-charge amount items id [] a = tt
All-charge amount items id (row ∷ rest) a = (a.0, All-charge amount items id rest a.1)

pub charge-IsUnique :
    (amount : UsageReservationItem → ℕ) (items : List UsageReservationItem)
    (rows : List ApiKeyLimit)
    → IsUnique rows
    → IsUnique (map (charge amount items) rows)
charge-IsUnique amount items [] u = tt
charge-IsUnique amount items (row ∷ rest) u =
    (All-charge amount items row.id rest u.0, charge-IsUnique amount items rest u.1)

pub total_zero :
    (items : List UsageReservationItem) (row : ApiKeyLimit) → total (λ _. 0) items row ≡ 0
total_zero [] row = refl
total_zero (item ∷ rest) row = ground (arith, total_zero rest row)

-- Rows of other ids are left alone.
untouched :
    (amount : UsageReservationItem → ℕ) (item : UsageReservationItem) (delta : ℕ)
    (rows : List ApiKeyLimit)
    → All (λ r. r.id ≢ item.limit_id) rows
    → (any (may_reserve item.limit_id delta item.expected_reset_at) rows ≡ false)
      × (update_where
            (may_reserve item.limit_id delta item.expected_reset_at)
            (add_usage delta)
            rows
          ≡ rows)
      × (map (charge amount (item ∷ [])) rows ≡ rows)
untouched amount item delta [] a = (refl, refl, refl)
untouched amount item delta (row ∷ rest) a = ground (arith, untouched amount item delta rest a.1)

-- A reservation that succeeds adds the reserved amount to the row of its limit, and to no other.
pub try_reserve-charge :
    (item : UsageReservationItem) (rows : List ApiKeyLimit)
    → IsUnique rows
    → any (may_reserve item.limit_id item.reserved_delta item.expected_reset_at) rows ≡ true
    → update_where
        (may_reserve item.limit_id item.reserved_delta item.expected_reset_at)
        (add_usage item.reserved_delta)
        rows
      ≡ map (charge (λ i. i.reserved_delta) (item ∷ [])) rows
try_reserve-charge item [] u h = refl
try_reserve-charge item (row ∷ rest) u h = elim (Bool-cases (row.id == item.limit_id)) [
  | inl hit ↦
      let same : row.id ≡ item.limit_id = ground arith in
      let apart = subst (λ id. All (λ r. r.id ≢ id) rest) same u.0 in
      let (nobody, kept, uncharged) =
        untouched (λ i. i.reserved_delta) item item.reserved_delta rest apart in
      ap₂ ◌∷◌ (ground arith) (kept ∙ sym uncharged)
  | inr miss ↦ ap₂ ◌∷◌ (ground arith) (try_reserve-charge item rest u.1 (ground arith))
]

-- No reservation lifts a row above its maximum.
abbrev pub IsWithin : ApiKeyLimit → Type 0
IsWithin row = row.current_value ≤ row.max_value

pub try_reserve-IsWithin :
    (limit_id delta expected_reset_at : ℕ) (rows : List ApiKeyLimit)
    → All IsWithin rows
    → All IsWithin (try_reserve_usage limit_id delta expected_reset_at rows).0
unfolding try_reserve_usage
try_reserve-IsWithin limit_id delta expected_reset_at rows a = ground (arith, updated rows a)
  where
    updated :
        (rs : List ApiKeyLimit)
        → All IsWithin rs
        → All IsWithin
            (update_where (may_reserve limit_id delta expected_reset_at) (add_usage delta) rs)
    updated [] h = tt
    updated (r ∷ rs) h = (ground arith, updated rs h.1)

-- Replacing the reserved amount of one item by another amount, on rows that the item and later ones
-- have charged, leaves rows that the other amount and the later items have charged.
settle_row :
    (actual : UsageReservationItem → ℕ) (item : UsageReservationItem)
    (items : List UsageReservationItem) (row : ApiKeyLimit)
    → let charged = charge (λ i. i.reserved_delta) (item ∷ items) row in
      let delta = sub_ℕ (actual item) item.reserved_delta in
      (if may_adjust item.limit_id delta item.expected_reset_at charged
        then adjust_usage delta charged
        else charged)
      ≡ charge (λ i. i.reserved_delta) items (charge actual (item ∷ []) row)
settle_row actual item items row = ground (
  arith,
  total_same (λ i. i.reserved_delta) items row (row.current_value + total actual (item ∷ []) row),
)

pub adjust-charge :
    (actual : UsageReservationItem → ℕ) (item : UsageReservationItem)
    (items : List UsageReservationItem) (rows : List ApiKeyLimit)
    → (adjust_reserved_usage item.limit_id
        (sub_ℕ (actual item) item.reserved_delta)
        item.expected_reset_at
        (map (charge (λ i. i.reserved_delta) (item ∷ items)) rows)).0
      ≡ map (charge (λ i. i.reserved_delta) items) (map (charge actual (item ∷ [])) rows)
unfolding adjust_reserved_usage
adjust-charge actual item items [] = refl
adjust-charge actual item items (row ∷ rest) =
    ap₂ ◌∷◌ (settle_row actual item items row) (adjust-charge actual item items rest)
