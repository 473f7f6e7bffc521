-- ===== src/Balancer/Inputs/Excluded.antt =====
-- The accounts that a selection leaves out: `load_selection_inputs` within `select_account` of
-- app/modules/proxy/load_balancer.py.
use codex_octopus.Base.{
  ℕ, not, ◌≡◌, refl, sym, ◌∙◌, ap, ◌&&◌, Option, if◌then◌else◌, is_empty, List, [], ◌∷◌, filter,
}
use codex_octopus.Base.Text.{Text}
use codex_octopus.Balancer.Runtime.{Account}
use codex_octopus.Balancer.Inputs.{
  Sources, SelectionInputs, given, in_scope, effective_limit_name, load_selection_inputs,
  load_unless_excluded, is_excluded,
}
use codex_octopus.Balancer.Inputs.Loaded.{
  filter-all, filter_twice, is_kept, load_error, load_selection_inputs_lem,
}

-- What is left of loaded inputs.
leave_out : List Text → SelectionInputs → SelectionInputs
leave_out excluded_ids inputs =
    if not (is_empty excluded_ids) && not (is_empty inputs.accounts)
    then record inputs { accounts = filter (λ a. not (is_excluded excluded_ids a)) inputs.accounts }
    else inputs

leave_out_lem :
    (excluded_ids : List Text) (inputs : SelectionInputs)
    → ((leave_out excluded_ids inputs).accounts
        ≡ filter (λ a. not (is_excluded excluded_ids a)) inputs.accounts)
      × ((leave_out excluded_ids inputs).error_code ≡ inputs.error_code)
unfolding leave_out
leave_out_lem [] inputs = (sym (filter-all inputs.accounts), refl)
leave_out_lem (x ∷ xs) inputs = by_accounts inputs.accounts refl
  where
    by_accounts :
        (accounts : List Account)
        → inputs.accounts ≡ accounts
        → ((leave_out (x ∷ xs) inputs).accounts
            ≡ filter (λ a. not (is_excluded (x ∷ xs) a)) inputs.accounts)
          × ((leave_out (x ∷ xs) inputs).error_code ≡ inputs.error_code)
    by_accounts [] e = rw e (refl, refl)
    by_accounts (a ∷ accounts) e = rw e (refl, refl)

-- A loading for a selection keeps, in their order, just the accounts that are in scope, whose plan supports
-- the model where that is asked, that the additional limit lets through if there is one, and that are not
-- excluded. It names an error just if accounts are in scope and none is kept before those excluded are left
-- out: that no plan supports the model, or else that data are lacking if they are for an account that the
-- model keeps, or else that no account is eligible.
pub load_unless_excluded_lem :
    (sources : Sources) (now : ℕ) (model additional_limit_name : Option Text)
    (account_ids : Option (List Text)) (excluded_ids : List Text)
    → let limit_name = effective_limit_name sources additional_limit_name model in
      let inputs =
        load_unless_excluded sources now model additional_limit_name account_ids excluded_ids in
      (inputs.accounts
        ≡ filter
            (λ a.
              is_kept sources now model limit_name account_ids a
              && not (is_excluded excluded_ids a))
            sources.accounts)
      × (inputs.error_code
          ≡ load_error sources now
              (given model)
              limit_name
              (filter (in_scope account_ids) sources.accounts))
unfolding load_unless_excluded leave_out
load_unless_excluded_lem sources now model additional_limit_name account_ids excluded_ids =
    let limit_name = effective_limit_name sources additional_limit_name model in
    let loaded = load_selection_inputs_lem sources now model additional_limit_name account_ids in
    let left =
      leave_out_lem excluded_ids
        (load_selection_inputs sources now model additional_limit_name account_ids) in
    (
      left.0
          ∙ ap (filter (λ a. not (is_excluded excluded_ids a))) loaded.0
          ∙ filter_twice (is_kept sources now model limit_name account_ids)
              (λ a. not (is_excluded excluded_ids a)) sources.accounts,
      left.1 ∙ loaded.1,
    )
