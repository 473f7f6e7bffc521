-- ===== src/Base/Int.antt =====
-- Python's signed integers over the native numbers, and tuples of them in lexicographic order.
use Prim.Native.Nat.{ℕ, suc, ◌+◌, ◌-◌}
use mathlib.Core.Path.{◌≡◌, refl}
use mathlib.Core.Logic.{◌⊎◌, inl, inr}
use mathlib.Core.Bool.{Bool, true, false}
use mathlib.Core.List.{List, [], ◌∷◌}
use native.Mathlib.Omega.{arith}
use codex_octopus.Base.Tests.{ltb, leb, if◌then◌else◌}

-- `negsuc n` is -(n + 1).
pub data ℤ : Type 0 where
  pos : ℕ → ℤ
  negsuc : ℕ → ℤ

abbrev pub pos_part : ℤ → ℕ
pos_part (pos n) = n
pos_part (negsuc _) = 0

abbrev pub neg_part : ℤ → ℕ
neg_part (pos _) = 0
neg_part (negsuc n) = suc n

-- a - b, as an integer.
abbrev pub sub_ℕ : ℕ → ℕ → ℤ
sub_ℕ a b = if leb b a then pos (a - b) else negsuc (b - a - 1)

abbrev pub neg : ℕ → ℤ
neg n = sub_ℕ 0 n

abbrev pub ltb_ℤ : ℤ → ℤ → Bool
ltb_ℤ a b = ltb (pos_part a + neg_part b) (pos_part b + neg_part a)

-- Python compares tuples from the left, and a proper prefix is the smaller one.
unfoldable pub lex_ltb : List ℤ → List ℤ → Bool
lex_ltb [] [] = false
lex_ltb [] (y ∷ ys) = true
lex_ltb (x ∷ xs) [] = false
lex_ltb (x ∷ xs) (y ∷ ys) = if ltb_ℤ x y then true else if ltb_ℤ y x then false else lex_ltb xs ys

pub lex_ltb_irrefl : (a : List ℤ) → lex_ltb a a ≡ false
unfolding lex_ltb
lex_ltb_irrefl [] = refl
lex_ltb_irrefl (x ∷ xs) = ground (arith, lex_ltb_irrefl xs)

pub lex_ltb_asym : (a b : List ℤ) → lex_ltb a b ≡ true → lex_ltb b a ≡ false
unfolding lex_ltb
lex_ltb_asym [] b h = ground arith
lex_ltb_asym (x ∷ a) [] h = ground arith
lex_ltb_asym (x ∷ a) (y ∷ b) h = ground (arith, lex_ltb_asym a b)

-- Whatever lies between two ordered tuples is apart from one of them.
pub lex_ltb_split :
    (a b c : List ℤ) → lex_ltb a c ≡ true → (lex_ltb a b ≡ true) ⊎ (lex_ltb b c ≡ true)
unfolding lex_ltb
lex_ltb_split [] b [] h = ground arith
lex_ltb_split [] [] (z ∷ c) h = inr refl
lex_ltb_split [] (y ∷ b) (z ∷ c) h = inl refl
lex_ltb_split (x ∷ a) b [] h = ground arith
lex_ltb_split (x ∷ a) [] (z ∷ c) h = inr refl
lex_ltb_split (x ∷ a) (y ∷ b) (z ∷ c) h = ground (arith, lex_ltb_split a b c)
