-- ===== src/Automations/Dispatch/Spread.antt =====
-- What a dispatch plan promises, of any generator that does what Python's documentation says.
use codex_octopus.Base.{
  ℕ, zero, suc, ◌+◌, ◌-◌, ◌*◌, ◌≤◌, ◌<◌, leb, ◌==◌, ◌≡◌, refl, sym, ap, subst, ◌⊎◌, inl, inr, List,
  [], ◌∷◌, ◌++◌, map, arith, length, length-append, In, All, All-intro, Bool-cases,
}
use codex_octopus.Base.Text.{Text}
use codex_octopus.Automations.Dispatch.{
  Random, count_up, draws, zeros, pick_dispatch_offsets_seconds, dedupe, zip_plan,
  build_dispatch_plan,
}

-- Shuffling keeps the elements; a sample has the length that is asked for and comes from the list, as
-- a choice does.
pub record IsGenerator (rng : Random) : Type 0 where
  pub shuffle_length : (n : ℕ) (xs : List ℕ) → length (rng.shuffle n xs) ≡ length xs
  pub shuffle_from : (n : ℕ) (xs : List ℕ) (a : ℕ) → In a (rng.shuffle n xs) → In a xs
  pub shuffle_to : (n : ℕ) (xs : List ℕ) (a : ℕ) → In a xs → In a (rng.shuffle n xs)
  pub sample_length : (xs : List ℕ) (n : ℕ) → n ≤ length xs → length (rng.sample xs n) ≡ n
  pub sample_from : (xs : List ℕ) (n a : ℕ) → In a (rng.sample xs n) → In a xs
  pub choice_from : (n : ℕ) (xs : List ℕ) → 0 < length xs → In (rng.choice n xs) xs

length-count_up : (from n : ℕ) → length (count_up from n) ≡ n
length-count_up from zero = refl
length-count_up from (suc n) = omega (arith, length-count_up (from + 1) n)

In-count_up : (a from n : ℕ) → In a (count_up from n) → a < from + n
In-count_up a from zero m = elim m [ ]
In-count_up a from (suc n) (inl e) = rw e (omega arith)
In-count_up a from (suc n) (inr m) = omega (arith, In-count_up a (from + 1) n m)

length-zeros : (n : ℕ) → length (zeros n) ≡ n
length-zeros zero = refl
length-zeros (suc n) = omega (arith, length-zeros n)

zeros_low : (n bound : ℕ) → All (λ x. x ≤ bound) (zeros n)
zeros_low zero bound = tt
zeros_low (suc n) bound = (omega arith, zeros_low n bound)

In-append : {A : Type 0} (a : A) (xs ys : List A) → In a (xs ++ ys) → In a xs ⊎ In a ys
In-append a [] ys m = inr m
In-append a (x ∷ xs) ys (inl e) = inl (inl e)
In-append a (x ∷ xs) ys (inr m) = elim (In-append a xs ys m) [ inl l ↦ inl (inr l) | inr r ↦ inr r ]

In-append_left : {A : Type 0} (a : A) (xs ys : List A) → In a xs → In a (xs ++ ys)
In-append_left a [] ys m = elim m [ ]
In-append_left a (x ∷ xs) ys (inl e) = inl e
In-append_left a (x ∷ xs) ys (inr m) = inr (In-append_left a xs ys m)

-- As many offsets as accounts, none above the window, and one at its start.
record AreOffsets (count bound : ℕ) (offsets : List ℕ) : Type 0 where
  are_counted : length offsets ≡ count
  are_low : All (λ x. x ≤ bound) offsets
  has_start : (count ≡ 0) ⊎ In 0 offsets

module _ (rng : Random) (g : IsGenerator rng) where
  length-draws : (xs : List ℕ) (n : ℕ) → length (draws rng xs n) ≡ n
  length-draws xs zero = refl
  length-draws xs (suc n) = omega (arith, length-draws xs n)

  In-draws : (xs : List ℕ) (n a : ℕ) → 0 < length xs → In a (draws rng xs n) → In a xs
  In-draws xs zero a h m = elim m [ ]
  In-draws xs (suc n) a h (inl e) = subst (λ x. In x xs) (sym e) (g.choice_from n xs h)
  In-draws xs (suc n) a h (inr m) = In-draws xs n a h m

  -- An offset of the window.
  window_low : (a bound : ℕ) → In a (0 ∷ count_up 1 bound) → a ≤ bound
  window_low a bound (inl e) = rw e (omega arith)
  window_low a bound (inr m) = omega (arith, In-count_up a 1 bound m)

  sampled :
      (count bound : ℕ)
      → 0 < count
      → count - 1 ≤ length (count_up 1 bound)
      → AreOffsets count bound (rng.shuffle 0 (0 ∷ rng.sample (count_up 1 bound) (count - 1)))
  sampled count bound pos fits =
      let xs = 0 ∷ rng.sample (count_up 1 bound) (count - 1) in
      record {
        are_counted =
            omega
              (arith, g.shuffle_length 0 xs, g.sample_length (count_up 1 bound) (count - 1) fits);
        are_low =
            All-intro _ _ (λ a m. window_low a bound (from_window a (g.shuffle_from 0 xs a m)));
        has_start = inr (g.shuffle_to 0 xs 0 (inl refl));
      }
    where
      from_window :
          (a : ℕ)
          → In a (0 ∷ rng.sample (count_up 1 bound) (count - 1))
          → In a (0 ∷ count_up 1 bound)
      from_window a (inl e) = inl e
      from_window a (inr m) = inr (g.sample_from (count_up 1 bound) (count - 1) a m)

  crowded :
      (count bound : ℕ)
      → 0 < bound
      → length (count_up 1 bound) < count - 1
      → AreOffsets count bound (
          rng.shuffle 1 (
            rng.shuffle 0 (0 ∷ count_up 1 bound)
            ++ draws rng (count_up 1 bound) (count - 1 - length (count_up 1 bound))))
  crowded count bound pos many =
      let first = rng.shuffle 0 (0 ∷ count_up 1 bound) in
      let more = draws rng (count_up 1 bound) (count - 1 - length (count_up 1 bound)) in
      record {
        are_counted = omega (
          arith,
          g.shuffle_length 1 (first ++ more),
          length-append first more,
          g.shuffle_length 0 (0 ∷ count_up 1 bound),
          length-draws (count_up 1 bound) (count - 1 - length (count_up 1 bound)),
        );
        are_low = All-intro _ _ (λ a m.
            window_low a bound
              (from_window a (In-append a first more (g.shuffle_from 1 (first ++ more) a m))));
        has_start = inr (
            g.shuffle_to 1 (first ++ more) 0
              (In-append_left 0 first more (g.shuffle_to 0 (0 ∷ count_up 1 bound) 0 (inl refl))));
      }
    where
      from_window :
          (a : ℕ)
          → In a (rng.shuffle 0 (0 ∷ count_up 1 bound))
            ⊎ In a (draws rng (count_up 1 bound) (count - 1 - length (count_up 1 bound)))
          → In a (0 ∷ count_up 1 bound)
      from_window a (inl m) = g.shuffle_from 0 (0 ∷ count_up 1 bound) a m
      from_window a (inr m) =
          inr (In-draws (count_up 1 bound) _ a (omega (arith, length-count_up 1 bound)) m)

  single_offset : (count bound : ℕ) → count ≡ 1 → AreOffsets count bound (0 ∷ [])
  single_offset count bound e = record {
    are_counted = omega arith;
    are_low = (omega arith, tt);
    has_start = inr (inl refl);
  }

  all_zeros : (count bound : ℕ) → AreOffsets count bound (zeros count)
  all_zeros zero bound = record { are_counted = refl; are_low = tt; has_start = inl refl }
  all_zeros (suc count) bound = record {
    are_counted = length-zeros (suc count);
    are_low = zeros_low (suc count) bound;
    has_start = inr (inl refl);
  }

  pick-AreOffsets :
      (count threshold : ℕ)
      → AreOffsets count (threshold * 60) (pick_dispatch_offsets_seconds rng count threshold)
  unfolding pick_dispatch_offsets_seconds
  pick-AreOffsets count threshold = elim (Bool-cases (count == 0)) [
    | inl nobody ↦
        rw nobody
          (record { are_counted = ground arith; are_low = tt; has_start = inl (ground arith) })
    | inr some_count ↦ rw some_count (elim (Bool-cases (threshold == 0)) [
      | inl at_once ↦ rw at_once (all_zeros count (threshold * 60))
      | inr spread ↦ rw spread (elim (Bool-cases (count == 1)) [
        | inl one ↦ rw one (single_offset count (threshold * 60) (ground arith))
        | inr several ↦
            rw several (elim (Bool-cases (leb (count - 1) (length (count_up 1 (threshold * 60))))) [
              | inl fits ↦ rw fits (sampled count (threshold * 60) (ground arith) (ground arith))
              | inr crowd ↦ rw crowd (crowded count (threshold * 60) (ground arith) (ground arith))
            ])
      ])
    ])
  ]

-- The entries of a plan, for offsets of the right number.
zip_plan-accounts :
    (due_slot : ℕ) (ids : List Text) (offsets : List ℕ)
    → length offsets ≡ length ids
    → map (λ p. p.0) (zip_plan due_slot ids offsets) ≡ ids
zip_plan-accounts due_slot [] offsets e = refl
zip_plan-accounts due_slot (id ∷ ids) [] e = absurd (omega arith)
zip_plan-accounts due_slot (id ∷ ids) (o ∷ offsets) e =
    ap (λ (xs : List Text). id ∷ xs) (zip_plan-accounts due_slot ids offsets (omega arith))

zip_plan_window :
    (due_slot bound : ℕ) (ids : List Text) (offsets : List ℕ)
    → All (λ x. x ≤ bound) offsets
    → All (λ p. (due_slot ≤ p.1) × (p.1 ≤ due_slot + bound * 1000)) (zip_plan due_slot ids offsets)
zip_plan_window due_slot bound [] offsets a = tt
zip_plan_window due_slot bound (id ∷ ids) [] a = tt
zip_plan_window due_slot bound (id ∷ ids) (o ∷ offsets) a =
    let low : o ≤ bound = a.0 in
    ((omega arith, omega arith), zip_plan_window due_slot bound ids offsets a.1)

zip_plan_start :
    (due_slot : ℕ) (ids : List Text) (offsets : List ℕ)
    → length offsets ≡ length ids
    → In 0 offsets
    → In due_slot (map (λ p. p.1) (zip_plan due_slot ids offsets))
zip_plan_start due_slot [] [] e m = elim m [ ]
zip_plan_start due_slot [] (o ∷ offsets) e m = absurd (omega arith)
zip_plan_start due_slot (id ∷ ids) [] e m = elim m [ ]
zip_plan_start due_slot (id ∷ ids) (o ∷ offsets) e (inl s) = inl (omega arith)
zip_plan_start due_slot (id ∷ ids) (o ∷ offsets) e (inr m) =
    inr (zip_plan_start due_slot ids offsets (omega arith) m)

-- A dispatch plan has one entry for each account, in the order in which the accounts are first listed; each is
-- dispatched within the threshold after the due slot, and if there is an account, one is dispatched at
-- the due slot. The generator shuffles, samples and chooses as documented.
pub build_dispatch_plan_lem :
    (rng : Random) (due_slot : ℕ) (account_ids : List Text) (threshold_minutes : ℕ)
    → IsGenerator rng
    → let plan = build_dispatch_plan rng due_slot account_ids threshold_minutes in
      (map (λ p. p.0) plan ≡ dedupe [] account_ids)
      × All (λ p. (due_slot ≤ p.1) × (p.1 ≤ due_slot + threshold_minutes * 60 * 1000)) plan
      × ((length (dedupe [] account_ids) ≡ 0) ⊎ In due_slot (map (λ p. p.1) plan))
unfolding build_dispatch_plan
build_dispatch_plan_lem rng due_slot account_ids threshold_minutes g =
    let ids = dedupe [] account_ids in
    let o = pick-AreOffsets rng g (length ids) threshold_minutes in
    (
      zip_plan-accounts due_slot ids _ o.are_counted,
      zip_plan_window due_slot (threshold_minutes * 60) ids _ o.are_low,
      elim o.has_start [
        | inl nobody ↦ inl nobody
        | inr m ↦ inr (zip_plan_start due_slot ids _ o.are_counted m)
      ],
    )
