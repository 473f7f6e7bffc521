-- ===== src/Resilience/CircuitBreaker/Registry.antt =====
-- The breakers of the accounts, and the one that has no account.
use codex_octopus.Base.{
  ℕ, ◌≡◌, ◌↔◌, refl, sym, inl, inr, Bool, true, false, none, some, [], ◌∷◌, arith, all, is_empty,
  All, Option-cases,
}
use codex_octopus.Base.Text.{Text, text_eq, text_eq_refl}
use codex_octopus.Resilience.CircuitBreaker.{
  CircuitBreaker, CircuitState, closed, opened, half_open, state, is_open, check_in, pre_call_check,
  Settings, Registry, find_breaker, breaker_of, get_circuit_breaker_for_account, reads_open,
  are_all_account_circuit_breakers_open,
}

created :
    (account_id : Text) (settings : Settings) (registry : Registry)
    → settings.circuit_breaker_enabled ≡ true
    → find_breaker account_id registry ≡ none
    → get_circuit_breaker_for_account account_id settings registry
      ≡ ((account_id, breaker_of settings) ∷ registry, some (breaker_of settings))
unfolding get_circuit_breaker_for_account
created account_id settings registry e missing = ground arith

reused :
    (account_id : Text) (settings : Settings) (registry : Registry) (b : CircuitBreaker)
    → settings.circuit_breaker_enabled ≡ true
    → find_breaker account_id registry ≡ some b
    → get_circuit_breaker_for_account account_id settings registry ≡ (registry, some b)
unfolding get_circuit_breaker_for_account
reused account_id settings registry b e found = ground arith

find-first :
    (account_id : Text) (b : CircuitBreaker) (registry : Registry)
    → find_breaker account_id ((account_id, b) ∷ registry) ≡ some b
unfolding find_breaker
find-first account_id b registry = rw (text_eq_refl account_id) refl

find-other :
    (account_id other : Text) (b : CircuitBreaker) (registry : Registry)
    → text_eq account_id other ≡ false
    → find_breaker other ((account_id, b) ∷ registry) ≡ find_breaker other registry
unfolding find_breaker
find-other account_id other b registry apart = rw apart refl

-- With the breakers enabled, asking for the breaker of an account gives the one that the registry
-- then holds for it, asking again gives the same and changes nothing, and the breakers of the other
-- accounts are as they were.
pub get_circuit_breaker_for_account_lem :
    (account_id other : Text) (settings : Settings) (registry : Registry)
    → settings.circuit_breaker_enabled ≡ true
    → text_eq account_id other ≡ false
    → let (after, result) = get_circuit_breaker_for_account account_id settings registry in
      (result ≡ find_breaker account_id after)
      × (get_circuit_breaker_for_account account_id settings after ≡ (after, result))
      × (find_breaker other after ≡ find_breaker other registry)
get_circuit_breaker_for_account_lem account_id other settings registry e apart =
    elim (Option-cases (find_breaker account_id registry)) [
      | inl missing ↦
          let new = breaker_of settings in
          let first = find-first account_id new registry in
          rw (created account_id settings registry e missing) (
            sym first,
            reused account_id settings ((account_id, new) ∷ registry) new e first,
            find-other account_id other new registry apart,
          )
      | inr (b, found) ↦
          let again = reused account_id settings registry b e found in
          rw again (sym found, again, refl)
    ]

refuses_iff :
    (now : ℕ) (account_id : Text) (b : CircuitBreaker)
    → (reads_open now (account_id, b) ≡ true) ↔ ((pre_call_check now b).1 ≡ is_open)
unfolding pre_call_check
refuses_iff now account_id b = by_state (state now b)
  where
    by_state :
        (s : CircuitState)
        → ((elim s as (λ _. Bool) [ opened ↦ true | _ ↦ false ]) ≡ true)
          ↔ ((check_in s b).1 ≡ is_open)
    by_state opened = ground arith
    by_state half_open = ground arith
    by_state closed = ground arith

all_refuse :
    (now : ℕ) (registry : Registry)
    → (all (reads_open now) registry ≡ true)
      ↔ All (λ p. (pre_call_check now p.1).1 ≡ is_open) registry
all_refuse now [] = (λ _. tt, λ _. refl)
all_refuse now ((k, b) ∷ rest) =
    let one = refuses_iff now k b in
    let more = all_refuse now rest in
    (λ e. (one.0 (ground arith), more.0 (ground arith)), λ a. rw (one.1 a.0) (more.1 a.1))

-- All breakers are reported open exactly if there is one and every one of them would refuse a call at
-- this moment for being open.
pub are_all_account_circuit_breakers_open_iff :
    (now : ℕ) (registry : Registry)
    → (are_all_account_circuit_breakers_open now registry ≡ true)
      ↔ ((is_empty registry ≡ false) × All (λ p. (pre_call_check now p.1).1 ≡ is_open) registry)
unfolding are_all_account_circuit_breakers_open
are_all_account_circuit_breakers_open_iff now [] = ground arith
are_all_account_circuit_breakers_open_iff now ((k, b) ∷ rest) =
    let r = all_refuse now ((k, b) ∷ rest) in (λ e. (refl, r.0 e), λ h. r.1 h.1)
