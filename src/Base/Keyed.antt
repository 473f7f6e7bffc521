-- ===== src/Base/Keyed.antt =====
-- `min(xs, key=...)`: the first of the least elements.
use mathlib.Core.Path.{◌≡◌, refl, ◌∙◌}
use mathlib.Core.Logic.{◌⊎◌, inl, inr}
use mathlib.Core.Bool.{false}
use mathlib.Core.List.{List, [], ◌∷◌}
use native.Mathlib.Omega.{arith}
use codex_octopus.Base.Tests.{if◌then◌else◌, Bool-cases}
use codex_octopus.Base.Lists.{In, All}
use codex_octopus.Base.Int.{ℤ, lex_ltb, lex_ltb_irrefl, lex_ltb_asym, lex_ltb_split}

module _ {A : Type 0} (key : A → List ℤ) where
  unfoldable pub min_by : A → List A → A
  min_by best [] = best
  min_by best (x ∷ xs) = min_by (if lex_ltb (key x) (key best) then x else best) xs

  -- No listed element has a smaller key.
  abbrev pub IsLeast : A → List A → Type 0
  IsLeast a xs = All (λ x. lex_ltb (key x) (key a) ≡ false) xs

  -- What is not above the best is not above an element between.
  not_below_trans :
      (a b c : A)
      → lex_ltb (key a) (key b) ≡ false
      → lex_ltb (key b) (key c) ≡ false
      → lex_ltb (key a) (key c) ≡ false
  not_below_trans a b c p q = elim (Bool-cases (lex_ltb (key a) (key c))) [
    | inl h ↦ ground (arith, lex_ltb_split (key a) (key b) (key c) h)
    | inr h ↦ h
  ]

  -- One round keeps the smaller of the two.
  better : A → A → A
  better x best = if lex_ltb (key x) (key best) then x else best

  better_cases : (x best : A) → (better x best ≡ x) ⊎ (better x best ≡ best)
  unfolding better
  better_cases x best = ground arith

  better_bounds :
      (x best : A)
      → (lex_ltb (key x) (key (better x best)) ≡ false)
        × (lex_ltb (key best) (key (better x best)) ≡ false)
  unfolding better
  better_bounds x best = elim (Bool-cases (lex_ltb (key x) (key best))) [
    | inl less ↦ rw less (lex_ltb_irrefl (key x), lex_ltb_asym (key x) (key best) less)
    | inr more ↦ rw more (more, lex_ltb_irrefl (key best))
  ]

  pub min_by-In : (best : A) (xs : List A) → In (min_by best xs) (best ∷ xs)
  unfolding min_by better
  min_by-In best [] = inl refl
  min_by-In best (x ∷ xs) = place (better_cases x best) (min_by-In (better x best) xs)
    where
      place :
          {m : A}
          → (better x best ≡ x) ⊎ (better x best ≡ best)
          → In m (better x best ∷ xs)
          → In m (best ∷ x ∷ xs)
      place (inl e) (inl m) = inr (inl (m ∙ e))
      place (inr e) (inl m) = inl (m ∙ e)
      place c (inr m) = inr (inr m)

  min_by_bound : (best : A) (xs : List A) → lex_ltb (key best) (key (min_by best xs)) ≡ false
  unfolding min_by better
  min_by_bound best [] = lex_ltb_irrefl (key best)
  min_by_bound best (x ∷ xs) =
      not_below_trans best (better x best) _ (better_bounds x best).1
        (min_by_bound (better x best) xs)

  min_by_rest : (best : A) (xs : List A) → IsLeast (min_by best xs) xs
  unfolding min_by better
  min_by_rest best [] = tt
  min_by_rest best (x ∷ xs) = (
    not_below_trans x (better x best) _ (better_bounds x best).0 (min_by_bound (better x best) xs),
    min_by_rest (better x best) xs,
  )

  pub min_by-IsLeast : (best : A) (xs : List A) → IsLeast (min_by best xs) (best ∷ xs)
  min_by-IsLeast best xs = (min_by_bound best xs, min_by_rest best xs)
