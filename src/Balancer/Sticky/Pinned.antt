-- ===== src/Balancer/Sticky/Pinned.antt =====
-- The selection of the one account that a sticky session names: `_select_with_stickiness` of
-- app/modules/proxy/load_balancer.py.
use codex_octopus.Base.{
  ℕ, ◌≡◌, refl, ◌∙◌, ap, subst, inl, inr, false, none, some, List, [], ◌∷◌, arith, if◌then◌else◌,
  Bool-cases, In,
}
use mathlib.Core.Option.{some-injective}
use codex_octopus.Base.Text.{Text, text_eq, eq_of_text_eq}
use codex_octopus.Balancer.State.{AccountState, AccountStatus}
use codex_octopus.Balancer.Examine.{
  Verdict, available, skipped, in_error_backoff, examine, check_status, check_cooldown,
  check_errors,
}
use codex_octopus.Balancer.Select.{
  Routing, select_account, decide_selection, backoff_fallback, is_available, is_backing_off,
  examine_all,
}
use codex_octopus.Balancer.Select.Laws.{select_account_total, select_account_selects}
use codex_octopus.Balancer.Sticky.{find_state, select_pinned}

-- The loop never changes whose state it looks at.
check_status-account_id :
    (status : AccountStatus) (now : ℕ) (state : AccountState)
    → (check_status status now state).0.account_id ≡ state.account_id
unfolding check_status check_cooldown check_errors
check_status-account_id AccountStatus.active now state = ground arith
check_status-account_id AccountStatus.rate_limited now state = ground arith
check_status-account_id AccountStatus.quota_exceeded now state = ground arith
check_status-account_id AccountStatus.paused now state = refl
check_status-account_id AccountStatus.deactivated now state = refl

pub examine-account_id :
    (now : ℕ) (state : AccountState) → (examine now state).0.account_id ≡ state.account_id
unfolding examine
examine-account_id now state = check_status-account_id state.status now state

-- The selection of one account that the loop lets through gives that account.
pub select_pinned_serves :
    (routing : Routing) (now : ℕ) (pinned : AccountState)
    → (examine now pinned).1 ≡ available
    → (select_pinned routing now pinned).1.account ≡ some (examine now pinned).0
unfolding select_pinned examine_all select_account
select_pinned_serves routing now pinned e =
    let r : Routing = record routing {
      allow_backoff_fallback = false;
      deterministic_probe = false;
    } in
    let (a, found, _, _) = select_account_total r now (pinned ∷ []) pinned (inl refl) e in
    let account : (select_account r now (pinned ∷ [])).1.account ≡ some a =
      ap (λ x. x.account) found in
    account ∙ ap some (only a (select_account_selects r now (pinned ∷ []) a account).0)
  where
    only : (a : AccountState) → In a ((examine now pinned).0 ∷ []) → a ≡ (examine now pinned).0
    only a (inl e) = e
    only a (inr m) = elim m [ ]

-- The state of the one account after the selection.
pub select_pinned-state :
    (routing : Routing) (now : ℕ) (pinned : AccountState)
    → (select_pinned routing now pinned).0 ≡ (examine now pinned).0
unfolding select_pinned select_account examine_all
select_pinned-state routing now pinned = refl

-- And the selection of one that the loop does not let through gives none.
pub select_pinned_fails :
    (routing : Routing) (now : ℕ) (pinned : AccountState)
    → is_available (examine now pinned).1 ≡ false
    → (select_pinned routing now pinned).1.account ≡ none
unfolding select_pinned select_account examine_all decide_selection backoff_fallback
select_pinned_fails routing now pinned e = by_verdict (examine now pinned) e
  where
    by_verdict :
        (r : AccountState × Verdict)
        → is_available r.1 ≡ false
        → (decide_selection
            (record routing { allow_backoff_fallback = false; deterministic_probe = false })
            now
            (r.0 ∷ [])
            (if is_backing_off r.1 then r.0 ∷ [] else [])
            (if is_available r.1 then r.0 ∷ [] else [])).account
          ≡ none
    by_verdict (s, skipped) f = refl
    by_verdict (s, in_error_backoff) f = refl
    by_verdict (s, available) f = cc

pub find_state-account_id :
    (account_id : Text) (states : List AccountState) (state : AccountState)
    → find_state account_id states ≡ some state
    → state.account_id ≡ account_id
find_state-account_id account_id [] state e = ground arith
find_state-account_id account_id (s ∷ rest) state e =
    elim (Bool-cases (text_eq s.account_id account_id)) [
      | inl hit ↦
          let same : s ≡ state = some-injective s state (rw hit at e) in
          subst (λ x. x.account_id ≡ account_id) same (eq_of_text_eq _ _ hit)
      | inr miss ↦ find_state-account_id account_id rest state (rw miss at e)
    ]
