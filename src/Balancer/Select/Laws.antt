-- ===== src/Balancer/Select/Laws.antt =====
-- What `select_account` promises: whom it selects, when it succeeds, and what it does to the states.
use codex_octopus.Base.{
  ℕ, ◌≤◌, ◌≡◌, refl, sym, ap, subst, ◌≢◌, ◌↔◌, ◌⊎◌, inl, inr, Bool, true, false, Option, none, some,
  List, [], ◌∷◌, ◌++◌, arith, if◌then◌else◌, In, All-In, Option-cases,
}
use codex_octopus.Base
use codex_octopus.Balancer.State.{AccountState}
use codex_octopus.Balancer.Examine.{
  Verdict, skipped, in_error_backoff, available, examine, IsReady, IsBackingOff, Sound,
  examine-Sound, examine_idem,
}
use codex_octopus.Balancer.Select.{
  Routing, with_verdict, is_available, is_backing_off, backoff_fallback, backoff_expires_at,
  effective_pool, route, decide_selection, unavailable, examine_all, states_of, select_account,
}
use codex_octopus.Balancer.Select.Pool.{
  Chosen, rank, route-Chosen, effective_pool-Chosen, rank-effective_pool,
}

-- An account that the loop has put aside with an outcome, and the account it was before.
record Comes (current : ℕ) (p : Verdict → Bool) (a : AccountState) (states : List AccountState)
    : Type 0 where
  before : AccountState
  was_passed : In before states
  is_result : a ≡ (examine current before).0
  has_outcome : p (examine current before).1 ≡ true
  is_returned : In a (states_of (examine_all current states))

later_Comes :
    (current : ℕ) (p : Verdict → Bool) (a s : AccountState) (rest : List AccountState)
    → Comes current p a rest
    → Comes current p a (s ∷ rest)
unfolding examine_all
later_Comes current p a s rest c = record {
  before = c.before;
  was_passed = inr c.was_passed;
  is_result = c.is_result;
  has_outcome = c.has_outcome;
  is_returned = inr c.is_returned;
}

Comes-if :
    (current : ℕ) (p : Verdict → Bool) (a s : AccountState) (rest others : List AccountState)
    (b : Bool)
    → p (examine current s).1 ≡ b
    → (In a others → Comes current p a rest)
    → In a (if b then (examine current s).0 ∷ others else others)
    → Comes current p a (s ∷ rest)
unfolding examine_all
Comes-if current p a s rest others true e ih (inl m) = record {
  before = s;
  was_passed = inl refl;
  is_result = m;
  has_outcome = e;
  is_returned = inl m;
}
Comes-if current p a s rest others true e ih (inr m) = later_Comes current p a s rest (ih m)
Comes-if current p a s rest others false e ih m = later_Comes current p a s rest (ih m)

-- Every list that the loop fills holds accounts of the outcome it stands for.
with_verdict-Comes :
    (current : ℕ) (p : Verdict → Bool) (a : AccountState) (states : List AccountState)
    → In a (with_verdict p (examine_all current states))
    → Comes current p a states
unfolding examine_all
with_verdict-Comes current p a [] m = elim m [ ]
with_verdict-Comes current p a (s ∷ rest) m =
    Comes-if current p a s rest _ _ refl (with_verdict-Comes current p a rest) m

-- And all of them.
pub In-with_verdict :
    (current : ℕ) (p : Verdict → Bool) (s : AccountState) (states : List AccountState)
    → In s states
    → p (examine current s).1 ≡ true
    → In (examine current s).0 (with_verdict p (examine_all current states))
unfolding examine_all
In-with_verdict current p s [] m e = elim m [ ]
In-with_verdict current p s (x ∷ rest) (inl m) e = rw (← m, e) (inl refl)
In-with_verdict current p s (x ∷ rest) (inr m) e =
    ground (arith, In-with_verdict current p s rest m e)

IsReady-of :
    (current : ℕ) (r : AccountState × Verdict)
    → Sound current r
    → is_available r.1 ≡ true
    → IsReady current r.0
IsReady-of current (state, skipped) s e = cc
IsReady-of current (state, in_error_backoff) s e = cc
IsReady-of current (state, available) s e = s

IsBackingOff-of :
    (current : ℕ) (r : AccountState × Verdict)
    → Sound current r
    → is_backing_off r.1 ≡ true
    → IsBackingOff current r.0
IsBackingOff-of current (state, skipped) s e = cc
IsBackingOff-of current (state, in_error_backoff) s e = s
IsBackingOff-of current (state, available) s e = cc

available-IsReady :
    (current : ℕ) (a : AccountState) (states : List AccountState)
    → Comes current is_available a states
    → IsReady current a
available-IsReady current a states c =
    rw c.is_result (IsReady-of current _ (examine-Sound current c.before) c.has_outcome)

IsBackingOff-Comes :
    (current : ℕ) (a : AccountState) (states : List AccountState)
    → Comes current is_backing_off a states
    → IsBackingOff current a
IsBackingOff-Comes current a states c =
    rw c.is_result (IsBackingOff-of current _ (examine-Sound current c.before) c.has_outcome)

-- Nobody among the states passed is let through by the loop.
abbrev pub NobodyAvailable : ℕ → List AccountState → Type 0
NobodyAvailable current states = with_verdict is_available (examine_all current states) ≡ []

-- The account that is selected: ready, or held back where nobody is ready and the fallback is on.
abbrev pub Selectable : Routing → ℕ → List AccountState → AccountState → Type 0
Selectable routing current states a =
    IsReady current a
    ⊎ (IsBackingOff current a
        × NobodyAvailable current states
        × (routing.allow_backoff_fallback ≡ true))

-- The fallback chooses the account nearest to recovery, and only if it is allowed.
backoff_fallback_lem :
    (routing : Routing) (all_states backing_off : List AccountState) (a : AccountState)
    → backoff_fallback routing all_states backing_off ≡ some a
    → In a backing_off
      × (routing.allow_backoff_fallback ≡ true)
      × Base.IsLeast backoff_expires_at a backing_off
unfolding backoff_fallback
backoff_fallback_lem routing all_states [] a e = cc
backoff_fallback_lem routing all_states (state ∷ rest) a e = ground (
  arith,
  Base.min_by-In backoff_expires_at state rest,
  Base.min_by-IsLeast backoff_expires_at state rest,
)

pub routed-effective :
    (routing : Routing) (current : ℕ) (pool : List AccountState) (a : AccountState)
    → route routing current (effective_pool pool) ≡ some a
    → In a (effective_pool pool)
routed-effective routing current pool a e =
    subst (Chosen (effective_pool pool)) e (route-Chosen routing current (effective_pool pool))

routed-In :
    (routing : Routing) (current : ℕ) (pool : List AccountState) (a : AccountState)
    → route routing current (effective_pool pool) ≡ some a
    → In a pool
routed-In routing current pool a e =
    effective_pool-Chosen pool (some a) (routed-effective routing current pool a e)

routed-eq-some :
    (routing : Routing) (current : ℕ) (state : AccountState) (rest : List AccountState)
    → (a : AccountState) × (route routing current (effective_pool (state ∷ rest)) ≡ some a)
routed-eq-some routing current state rest =
    elim (Option-cases (route routing current (effective_pool (state ∷ rest)))) [
      | inl e ↦ absurd (
          cc (
            subst (Chosen (state ∷ rest)) e (
              effective_pool-Chosen (state ∷ rest) _
                (route-Chosen routing current (effective_pool (state ∷ rest))))))
      | inr found ↦ found
    ]

decide_selection_lem :
    (routing : Routing) (current : ℕ) (all_states backing_off pool : List AccountState)
    (a : AccountState)
    → (decide_selection routing current all_states backing_off pool).account ≡ some a
    → In a pool ⊎ ((pool ≡ []) × In a backing_off × (routing.allow_backoff_fallback ≡ true))
unfolding decide_selection
decide_selection_lem routing current all_states backing_off [] a e =
    elim (Option-cases (backoff_fallback routing all_states backing_off)) [
      | inl none_held ↦ absurd (ground arith)
      | inr (held, found) ↦
          let routed : route routing current (effective_pool (held ∷ [])) ≡ some a = ground arith in
          let h = backoff_fallback_lem routing all_states backing_off held found in
          inr (refl, same (routed-In routing current (held ∷ []) a routed) h.0, h.1)
    ]
  where
    same : {held : AccountState} → In a (held ∷ []) → In held backing_off → In a backing_off
    same (inl m) h = subst (λ x. In x backing_off) (sym m) h
    same (inr m) h = elim m [ ]
decide_selection_lem routing current all_states backing_off (state ∷ rest) a e =
    inl (routed-In routing current (state ∷ rest) a e)

-- Whoever is selected is one of the states returned, and is ready; or nobody is ready, the
-- fallback is allowed, and the selected account is in its error backoff.
pub select_account_selects :
    (routing : Routing) (current : ℕ) (states : List AccountState) (a : AccountState)
    → (select_account routing current states).1.account ≡ some a
    → In a (select_account routing current states).0 × Selectable routing current states a
unfolding select_account
select_account_selects routing current states a e =
    elim (decide_selection_lem routing current _ _ _ a e) [
      | inl m ↦
          let c = with_verdict-Comes current is_available a states m in
          (c.is_returned, inl (available-IsReady current a states c))
      | inr (nobody, m, allowed) ↦
          let c = with_verdict-Comes current is_backing_off a states m in
          (c.is_returned, inr (IsBackingOff-Comes current a states c, nobody, allowed))
    ]

decide_selection-some :
    (routing : Routing) (current : ℕ) (all_states backing_off pool : List AccountState)
    (s : AccountState)
    → In s pool
    → (a : AccountState) × (decide_selection routing current all_states backing_off pool
        ≡ record { account = some a; error_message = none })
      × In a pool
      × (rank a.health_tier ≤ rank s.health_tier)
unfolding decide_selection
decide_selection-some routing current all_states backing_off [] s m = elim m [ ]
decide_selection-some routing current all_states backing_off (state ∷ rest) s m =
    let (a, e) = routed-eq-some routing current state rest in
    (
      a,
      rw e,
      routed-In routing current (state ∷ rest) a e,
      rank-effective_pool (state ∷ rest) a s (routed-effective routing current (state ∷ rest) a e)
          m,
    )

-- If the loop lets an account through, the call succeeds with no error, and with an account whose
-- health tier is no worse.
pub select_account_total :
    (routing : Routing) (current : ℕ) (states : List AccountState) (s : AccountState)
    → In s states
    → (examine current s).1 ≡ available
    → (a : AccountState) × ((select_account routing current states).1
        ≡ record { account = some a; error_message = none })
      × IsReady current a
      × (rank a.health_tier ≤ rank (examine current s).0.health_tier)
unfolding select_account
select_account_total routing current states s m e =
    let found =
      decide_selection-some routing current (states_of (examine_all current states))
        (with_verdict is_backing_off (examine_all current states))
        (with_verdict is_available (examine_all current states)) (examine current s).0
        (In-with_verdict current is_available s states m (rw e)) in
    let c = with_verdict-Comes current is_available found.0 states found.2 in
    (found.0, found.1, available-IsReady current found.0 states c, found.3)

decide_selection_xor :
    (routing : Routing) (current : ℕ) (all_states backing_off pool : List AccountState)
    → let r = decide_selection routing current all_states backing_off pool in
      ((a : AccountState) × (r ≡ record { account = some a; error_message = none }))
      ⊎ ((pool ≡ [])
          × (r ≡ record { account = none; error_message = some (unavailable current all_states) }))
unfolding decide_selection
decide_selection_xor routing current all_states backing_off [] =
    elim (Option-cases (backoff_fallback routing all_states backing_off)) [
      | inl none_held ↦ inr (refl, rw (none_held, decide_selection))
      | inr (held, found) ↦
          let (a, e) = routed-eq-some routing current held [] in
          inl (a, rw (found, decide_selection, e))
    ]
decide_selection_xor routing current all_states backing_off (state ∷ rest) =
    let (a, e) = routed-eq-some routing current state rest in inl (a, rw e)

-- Every call ends with an account and no error, or with no account and the error of `unavailable`;
-- the latter only where nobody is let through.
pub select_account_outcome :
    (routing : Routing) (current : ℕ) (states : List AccountState)
    → let (all_states, r) = select_account routing current states in
      ((a : AccountState) × (r ≡ record { account = some a; error_message = none }))
      ⊎ (NobodyAvailable current states
          × (r ≡ record { account = none; error_message = some (unavailable current all_states) }))
unfolding select_account
select_account_outcome routing current states =
    decide_selection_xor routing current (states_of (examine_all current states))
      (with_verdict is_backing_off (examine_all current states))
      (with_verdict is_available (examine_all current states))

examine_all_idem :
    (current : ℕ) (states : List AccountState)
    → examine_all current (states_of (examine_all current states)) ≡ examine_all current states
unfolding examine_all
examine_all_idem current [] = refl
examine_all_idem current (s ∷ rest) = cc (examine_idem current s, examine_all_idem current rest)

-- Calling again at the same moment with the states that a call has updated gives the same states
-- and the same result.
pub select_account_idem :
    (routing : Routing) (current : ℕ) (states : List AccountState)
    → select_account routing current (select_account routing current states).0
      ≡ select_account routing current states
unfolding select_account
select_account_idem routing current states = rw examine_all_idem
