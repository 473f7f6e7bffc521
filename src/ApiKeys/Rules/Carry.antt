-- ===== src/ApiKeys/Rules/Carry.antt =====
-- What the rows of an update carry over from the rules and from the rows before.
use codex_octopus.Base.{
  ℕ, ◌≡◌, refl, sym, ap, subst, inl, inr, Bool, true, false, Option, none, some, List, [], ◌∷◌,
  arith, Bool-cases, Option-cases, is_some, ◌&&◌, ◌∙◌,
}
use codex_octopus.Base.Text.{Text, text_eq, eq_of_text_eq}
use codex_octopus.ApiKeys.Limits.{ApiKeyLimit, LimitType, LimitWindow, next_reset}
use codex_octopus.ApiKeys.Rules.{
  LimitRuleInput, NewLimit, Built, built, invalid, limit_type_value, limit_window_value, member_of,
  limit_types, limit_windows, limit_identity_from_input, find_existing, has_duplicates,
  limit_input_to_row, row_for_update, with_row, rows_for_update, build_limit_rows_for_update,
  is_credits,
}

member_of_value :
    {A : Type 0} (value : A → Text) (xs : List A) (t : Text) (x : A)
    → member_of value xs t ≡ some x
    → value x ≡ t
member_of_value value [] t x e = absurd (ground arith)
member_of_value value (y ∷ ys) t x e = elim (Bool-cases (text_eq t (value y))) [
  | inl hit ↦ ground (arith, eq_of_text_eq t (value y) hit)
  | inr miss ↦ member_of_value value ys t x (sym (rw miss refl) ∙ e)
]

-- A row says what its rule says, with this usage, and a reset of its own window if none is given.
pub record Carries (key_id : Text) (now current : ℕ) (reset : Option ℕ) (li : LimitRuleInput)
    (row : NewLimit) : Type 0 where
  pub of_key : row.api_key_id ≡ key_id
  pub of_type : limit_type_value row.limit_type ≡ li.limit_type
  pub of_window : limit_window_value row.limit_window ≡ li.limit_window
  pub maximum : row.max_value ≡ li.max_value
  pub same_filter : row.model_filter ≡ li.model_filter
  pub usage : row.current_value ≡ current
  pub resets : row.reset_at ≡ elim reset [ some at ↦ at | none ↦ next_reset now row.limit_window ]

typed :
    (key_id : Text) (now current : ℕ) (reset : Option ℕ) (li : LimitRuleInput) (row : NewLimit)
    (type : LimitType) (window : LimitWindow)
    → limit_type_value type ≡ li.limit_type
    → limit_window_value window ≡ li.limit_window
    → built (record {
      api_key_id = key_id;
      limit_type = type;
      limit_window = window;
      max_value = li.max_value;
      current_value = current;
      model_filter = li.model_filter;
      reset_at = elim reset [ some at ↦ at | none ↦ next_reset now window ];
    })
      ≡ built row
    → Carries key_id now current reset li row
typed key_id now current reset li row type window t w e =
    subst (Carries key_id now current reset li) (built_inj e) (record {
      of_key = refl;
      of_type = t;
      of_window = w;
      maximum = refl;
      same_filter = refl;
      usage = refl;
      resets = refl;
    })
  where
    built_inj : {a b : NewLimit} → built a ≡ built b → a ≡ b
    built_inj {a} {b} p = ap (λ r. elim r [ built x ↦ x | invalid _ ↦ a ]) p

limit_input_to_row-Carries :
    (key_id : Text) (now : ℕ) (li : LimitRuleInput) (current : ℕ) (reset : Option ℕ)
    (row : NewLimit)
    → limit_input_to_row key_id now li current reset ≡ built row
    → Carries key_id now current reset li row
unfolding limit_input_to_row
limit_input_to_row-Carries key_id now li current reset row e =
    elim (Option-cases (member_of limit_window_value limit_windows li.limit_window)) [
      | inl missing ↦ absurd (ground arith)
      | inr (window, w) ↦ elim (Bool-cases (is_credits li.limit_type && is_some li.model_filter)) [
        | inl filtered ↦ absurd (ground arith)
        | inr plain ↦ elim (Option-cases (member_of limit_type_value limit_types li.limit_type)) [
          | inl missing ↦ absurd (ground arith)
          | inr (type, t) ↦
              typed key_id now current reset li row type window
                (member_of_value limit_type_value limit_types li.limit_type type t)
                (member_of_value limit_window_value limit_windows li.limit_window window w)
                (rw (limit_input_to_row, w, plain, t) at e)
        ]
      ]
    ]

-- The usage that a rule starts with: none, or that of the row with its identity.
abbrev pub usage_of_match : Option ApiKeyLimit → ℕ × Option ℕ
usage_of_match none = (0, none)
usage_of_match (some matched) = (matched.current_value, some matched.reset_at)

abbrev pub carried : List ApiKeyLimit → Bool → LimitRuleInput → ℕ × Option ℕ
carried existing true li = (0, none)
carried existing false li = usage_of_match (find_existing (limit_identity_from_input li) existing)

row_for_update_lem :
    (key_id : Text) (now : ℕ) (existing : List ApiKeyLimit) (reset_usage : Bool)
    (li : LimitRuleInput)
    → row_for_update key_id now existing reset_usage li
      ≡ limit_input_to_row key_id now li
          (carried existing reset_usage li).0
          (carried existing reset_usage li).1
unfolding row_for_update
row_for_update_lem key_id now existing true li = refl
row_for_update_lem key_id now existing false li =
    by_match (find_existing (limit_identity_from_input li) existing)
  where
    by_match :
        (found : Option ApiKeyLimit)
        → (elim found as (λ _. Built NewLimit) [
          | none ↦ limit_input_to_row key_id now li 0 none
          | some matched ↦
              limit_input_to_row key_id now li matched.current_value (some matched.reset_at)
        ])
          ≡ limit_input_to_row key_id now li (usage_of_match found).0 (usage_of_match found).1
    by_match none = refl
    by_match (some matched) = refl

-- Rule by rule.
abbrev pub AllCarry :
    Text → ℕ → List ApiKeyLimit → Bool → List LimitRuleInput → List NewLimit → Type 0
AllCarry key_id now existing reset_usage [] [] = Unit {0}
AllCarry key_id now existing reset_usage (li ∷ rest) (row ∷ rows) =
    Carries key_id now (carried existing reset_usage li).0 (carried existing reset_usage li).1 li
      row
    × AllCarry key_id now existing reset_usage rest rows
AllCarry key_id now existing reset_usage _ _ = ⊥

with_row_built :
    (r : Built NewLimit) (rs : Built (List NewLimit)) (rows : List NewLimit)
    → with_row r rs ≡ built rows
    → (row : NewLimit) × (later : List NewLimit) × (r ≡ built row)
      × (rs ≡ built later)
      × (row ∷ later ≡ rows)
with_row_built (invalid e) rs rows h = absurd (ground arith)
with_row_built (built row) (invalid e) rows h = absurd (ground arith)
with_row_built (built row) (built later) rows h =
    (row, later, refl, refl, ap (λ r. elim r [ built x ↦ x | invalid _ ↦ rows ]) h)

rows_for_update-AllCarry :
    (key_id : Text) (now : ℕ) (existing : List ApiKeyLimit) (reset_usage : Bool)
    (submitted : List LimitRuleInput) (rows : List NewLimit)
    → rows_for_update key_id now existing reset_usage submitted ≡ built rows
    → AllCarry key_id now existing reset_usage submitted rows
unfolding rows_for_update
rows_for_update-AllCarry key_id now existing reset_usage [] rows e =
    subst (AllCarry key_id now existing reset_usage [])
      (ap (λ r. elim r [ built x ↦ x | invalid _ ↦ rows ]) e) tt
rows_for_update-AllCarry key_id now existing reset_usage (li ∷ rest) rows e =
    let (row, later, first, others, whole) = with_row_built _ _ rows e in
    subst (AllCarry key_id now existing reset_usage (li ∷ rest)) whole (
      limit_input_to_row-Carries key_id now li _ _ row
          (sym (row_for_update_lem key_id now existing reset_usage li) ∙ first),
      rows_for_update-AllCarry key_id now existing reset_usage rest later others,
    )

-- If the rows of an update are built, no two rules have the same identity, and there is one row for
-- each rule in the same order: it says what the rule says, and its usage and reset are those of the
-- row before with the rule's identity, or it starts unused with the next reset of its window if there
-- is no such row or the update resets the usage.
pub build_limit_rows_for_update-AllCarry :
    (key_id : Text) (now : ℕ) (submitted : List LimitRuleInput) (existing : List ApiKeyLimit)
    (reset_usage : Bool) (rows : List NewLimit)
    → build_limit_rows_for_update key_id now submitted existing reset_usage ≡ built rows
    → (has_duplicates submitted ≡ false) × AllCarry key_id now existing reset_usage submitted rows
unfolding build_limit_rows_for_update
build_limit_rows_for_update-AllCarry key_id now submitted existing reset_usage rows e =
    elim (Bool-cases (has_duplicates submitted)) [
      | inl twice ↦ absurd (ground arith)
      | inr once ↦ (
        once,
        rows_for_update-AllCarry key_id now existing reset_usage submitted rows
            (sym (rw once refl) ∙ e),
      )
    ]
