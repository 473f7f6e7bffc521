-- ===== src/Balancer/Inputs/Loaded.antt =====
-- What a loading comes to: `_load_selection_inputs` of app/modules/proxy/load_balancer.py.
use codex_octopus.Base.{
  ℕ, not, ◌≡◌, refl, sym, ◌∙◌, ap, inl, inr, Bool, true, false, ◌&&◌, ◌||◌, Option, none, some,
  if◌then◌else◌, is_empty, List, [], ◌∷◌, any, filter, arith, Bool-cases,
}
use codex_octopus.Base.Text.{Text}
use codex_octopus.Balancer.Runtime.{Account}
use codex_octopus.Balancer.Inputs.{
  Sources, SelectionInputs, LoadError, no_plan_support_for_model, additional_quota_data_unavailable,
  no_additional_quota_eligible_accounts, is_eligible, lacks_data, eligibility_of,
  filter_accounts_for_additional_limit, filter_accounts_for_model, plan_types_for_model, has_plan,
  given, in_scope, scoped_accounts, effective_limit_name, asks_plans, load_limited, load_for_model,
  load_selection_inputs,
}

pub filter-all : (accounts : List Account) → filter (λ a. true) accounts ≡ accounts
filter-all [] = refl
filter-all (a ∷ accounts) = ap (λ xs. a ∷ xs) (filter-all accounts)

pub filter_twice :
    (p q : Account → Bool) (accounts : List Account)
    → filter q (filter p accounts) ≡ filter (λ a. p a && q a) accounts
filter_twice p q [] = refl
filter_twice p q (a ∷ accounts) = elim (Bool-cases (p a)) [
  | inl h ↦ rw h (ap (λ xs. if q a then a ∷ xs else xs) (filter_twice p q accounts))
  | inr h ↦ rw h (filter_twice p q accounts)
]

-- The account's plan supports the model, where that is asked.
abbrev pub passes_model : Sources → Option Text → Option Text → Account → Bool
passes_model sources none limit_name account = true
passes_model sources (some model) limit_name account =
    not (asks_plans sources limit_name model)
    || has_plan (plan_types_for_model sources.model_plans model) account

-- The additional limit lets the account through, if there is one.
abbrev pub passes_limit : Sources → ℕ → Option Text → Account → Bool
passes_limit sources now none account = true
passes_limit sources now (some name) account = is_eligible (eligibility_of sources now name account)

-- An account lacks data for the additional limit, if there is one.
abbrev pub lacks_data_for : Sources → ℕ → Option Text → Account → Bool
lacks_data_for sources now none account = false
lacks_data_for sources now (some name) account =
    lacks_data (eligibility_of sources now name account)

-- Why no account of a list is let through by the limit.
abbrev pub limit_refusal : Sources → ℕ → Option Text → List Account → LoadError
limit_refusal sources now name accounts =
    if any (lacks_data_for sources now name) accounts
    then additional_quota_data_unavailable
    else no_additional_quota_eligible_accounts

load_limited_lem :
    (sources : Sources) (now : ℕ) (name : Option Text) (accounts : List Account)
    → let limited = filter (passes_limit sources now name) accounts in
      ((load_limited sources now name accounts).accounts ≡ limited)
      × ((load_limited sources now name accounts).error_code ≡ (
          if is_empty limited
          then (if is_empty accounts then none else some (limit_refusal sources now name accounts))
          else none))
unfolding load_limited filter_accounts_for_additional_limit
load_limited_lem sources now none [] = (refl, refl)
load_limited_lem sources now none (a ∷ accounts) = (sym (filter-all (a ∷ accounts)), refl)
load_limited_lem sources now (some name) [] = (refl, refl)
load_limited_lem sources now (some name) (a ∷ accounts) =
    by_limited (filter (passes_limit sources now (some name)) (a ∷ accounts)) refl
  where
    by_limited :
        (limited : List Account)
        → filter (passes_limit sources now (some name)) (a ∷ accounts) ≡ limited
        → ((load_limited sources now (some name) (a ∷ accounts)).accounts
            ≡ filter (passes_limit sources now (some name)) (a ∷ accounts))
          × ((load_limited sources now (some name) (a ∷ accounts)).error_code ≡ (
              if is_empty (filter (passes_limit sources now (some name)) (a ∷ accounts))
              then some (limit_refusal sources now (some name) (a ∷ accounts))
              else none))
    by_limited [] e = rw e (refl, refl)
    by_limited (b ∷ bs) e = rw e (refl, refl)

by_plans :
    (asked : Bool) (plans : Option (List Text)) (accounts : List Account)
    → (if asked
        then elim plans [
          | none ↦ accounts
          | some allowed ↦ filter (has_plan (some allowed)) accounts
        ]
        else accounts)
      ≡ filter (λ a. not asked || has_plan plans a) accounts
by_plans false plans accounts = sym (filter-all accounts)
by_plans true none accounts = sym (filter-all accounts)
by_plans true (some allowed) accounts = refl

filter_accounts_for_model_lem :
    (sources : Sources) (model : Text) (limit_name : Option Text) (scoped : List Account)
    → (if asks_plans sources limit_name model
        then filter_accounts_for_model sources.model_plans model scoped
        else scoped)
      ≡ filter (passes_model sources (some model) limit_name) scoped
unfolding filter_accounts_for_model
filter_accounts_for_model_lem sources model limit_name scoped =
    by_plans (asks_plans sources limit_name model) (plan_types_for_model sources.model_plans model)
      scoped

-- Why the accounts in scope come to none, if they do and there is one.
abbrev pub load_error : Sources → ℕ → Option Text → Option Text → List Account → Option LoadError
load_error sources now model limit_name scoped =
    let planned = filter (passes_model sources model limit_name) scoped in
    if not (is_empty (filter (passes_limit sources now (given limit_name)) planned))
      || is_empty scoped
    then none
    else if is_empty planned
    then some no_plan_support_for_model
    else some (limit_refusal sources now (given limit_name) planned)

is_empty-filter :
    (p : Account → Bool) (accounts : List Account)
    → is_empty (filter p accounts) ≡ false
    → is_empty accounts ≡ false
is_empty-filter p [] h = h
is_empty-filter p (a ∷ accounts) h = refl

blame :
    (empty_limited empty_scope : Bool) (error : LoadError)
    → empty_scope ≡ false
    → (if empty_limited then some error else none)
      ≡ (if not empty_limited || empty_scope then none else some error)
blame true empty_scope error h = rw h refl
blame false empty_scope error h = refl

-- What is claimed of a loading.
record IsLoaded (sources : Sources) (now : ℕ) (model limit_name : Option Text)
    (scoped : List Account) (inputs : SelectionInputs) : Type 0 where
  accounts_lem :
      inputs.accounts
      ≡ filter
          (passes_limit sources now (given limit_name))
          (filter (passes_model sources model limit_name) scoped)
  error_lem : inputs.error_code ≡ load_error sources now model limit_name scoped

load_for_model-IsLoaded :
    (sources : Sources) (now : ℕ) (model limit_name : Option Text) (scoped : List Account)
    → (is_empty sources.accounts ≡ true → is_empty scoped ≡ true)
    → IsLoaded sources now model limit_name scoped
        (load_for_model sources now model limit_name scoped)
unfolding load_for_model
load_for_model-IsLoaded sources now none limit_name scoped nothing =
    let limited = load_limited_lem sources now (given limit_name) scoped in
    record {
      accounts_lem =
          limited.0
          ∙ ap (filter (passes_limit sources now (given limit_name))) (sym (filter-all scoped));
      error_lem = limited.1 ∙ rw (filter-all scoped) (ground arith);
    }
load_for_model-IsLoaded sources now (some model) limit_name scoped nothing =
    by_planned (filter (passes_model sources (some model) limit_name) scoped) refl
  where
    by_planned :
        (planned : List Account)
        → filter (passes_model sources (some model) limit_name) scoped ≡ planned
        → IsLoaded sources now
            (some model)
            limit_name
            scoped
            (load_for_model sources now (some model) limit_name scoped)
    by_planned [] e = record {
      accounts_lem =
          rw (filter_accounts_for_model_lem sources model limit_name scoped, e) (ground arith);
      error_lem =
          rw (filter_accounts_for_model_lem sources model limit_name scoped, e)
            (ground (arith, nothing));
    }
    by_planned (a ∷ planned) e = record {
      accounts_lem =
          rw (filter_accounts_for_model_lem sources model limit_name scoped, e)
            ((load_limited_lem sources now (given limit_name) (a ∷ planned)).0);
      error_lem =
          rw (filter_accounts_for_model_lem sources model limit_name scoped, e)
            ((load_limited_lem sources now (given limit_name) (a ∷ planned)).1
              ∙ blame _ _ _ (
                  is_empty-filter (passes_model sources (some model) limit_name) scoped
                    (ap is_empty e)));
    }

scoped_accounts_lem :
    (account_ids : Option (List Text)) (accounts : List Account)
    → scoped_accounts account_ids accounts ≡ filter (in_scope account_ids) accounts
scoped_accounts_lem none accounts = sym (filter-all accounts)
scoped_accounts_lem (some ids) accounts = refl

nothing_scoped :
    (account_ids : Option (List Text)) (accounts : List Account)
    → is_empty accounts ≡ true
    → is_empty (scoped_accounts account_ids accounts) ≡ true
nothing_scoped none accounts h = h
nothing_scoped (some ids) [] h = h
nothing_scoped (some ids) (a ∷ accounts) h = absurd (ground arith)

abbrev pub is_kept : Sources → ℕ → Option Text → Option Text → Option (List Text) → Account → Bool
is_kept sources now model limit_name account_ids account =
    (in_scope account_ids account && passes_model sources (given model) limit_name account)
    && passes_limit sources now (given limit_name) account

pub load_selection_inputs_lem :
    (sources : Sources) (now : ℕ) (model additional_limit_name : Option Text)
    (account_ids : Option (List Text))
    → let limit_name = effective_limit_name sources additional_limit_name model in
      let inputs = load_selection_inputs sources now model additional_limit_name account_ids in
      (inputs.accounts ≡ filter (is_kept sources now model limit_name account_ids) sources.accounts)
      × (inputs.error_code
          ≡ load_error sources now
              (given model)
              limit_name
              (filter (in_scope account_ids) sources.accounts))
unfolding load_selection_inputs
load_selection_inputs_lem sources now model additional_limit_name account_ids =
    let limit_name = effective_limit_name sources additional_limit_name model in
    let scope = scoped_accounts_lem account_ids sources.accounts in
    let loaded =
      load_for_model-IsLoaded sources now (given model) limit_name
        (scoped_accounts account_ids sources.accounts)
        (nothing_scoped account_ids sources.accounts) in
    let pm = passes_model sources (given model) limit_name in
    let pl = passes_limit sources now (given limit_name) in
    (
      loaded.accounts_lem
          ∙ ap (λ xs. filter pl (filter pm xs)) scope
          ∙ ap (filter pl) (filter_twice (in_scope account_ids) pm sources.accounts)
          ∙ filter_twice (λ a. in_scope account_ids a && pm a) pl sources.accounts,
      loaded.error_lem ∙ ap (load_error sources now (given model) limit_name) scope,
    )
