-- ===== src/Balancer/Sticky/Returns.antt =====
-- A sticky session falls back to other accounts and returns to its own: `_select_with_stickiness` of
-- app/modules/proxy/load_balancer.py.
use codex_octopus.Base.{
  ℕ, ◌+◌, ◌≡◌, refl, sym, ◌∙◌, ap, subst, inl, inr, true, false, Option, none, some, List, is_empty,
  is_some, Bool-cases,
}
use codex_octopus.Base.Text.{Text}
use codex_octopus.Balancer.State.{AccountState, seconds}
use codex_octopus.Balancer.Examine.{available, examine}
use codex_octopus.Balancer.Select.{SelectionResult, select_account, is_available}
use codex_octopus.Balancer.Sticky.Entries.{StickySessionKind, StickySession}
use codex_octopus.Balancer.Sticky.{
  StickyRequest, StickyResult, put_state, select_pinned, keep_alive, is_rate_limited,
  is_recoverable, sticky_grace_period_seconds, try_pinned, after_pinned, leave_pinned,
  select_fallback, select_with_stickiness, serve_or, remember,
}
use codex_octopus.Balancer.Sticky.Pinned.{
  examine-account_id, select_pinned_serves, select_pinned-state, select_pinned_fails,
  find_state-account_id,
}
use codex_octopus.Balancer.Sticky.Keeps.{
  IsPinned, pinned_is_tried, account_of, entry_account, account_of-keep_alive,
}

-- A table and a result in which the account serves and the key leads to it.
abbrev pub Serves : StickyRequest → StickySessionKind → AccountState → Text → StickyResult → Type 0
Serves request kind account account_id r =
    (r.result.account ≡ some account)
    × (account.account_id ≡ account_id)
    × (account_of request.sticky_key kind r.rows ≡ some account_id)

serve_or-Serves :
    (request : StickyRequest) (kind : StickySessionKind) (now : ℕ) (pinned account : AccountState)
    (account_id : Text) (rows : List StickySession) (states : List AccountState)
    (result : SelectionResult) (otherwise : StickyResult)
    → is_empty request.sticky_key ≡ false
    → result.account ≡ some account
    → pinned.account_id ≡ account_id
    → account.account_id ≡ account_id
    → account_of request.sticky_key kind rows ≡ some account_id
    → Serves request kind account account_id
        (serve_or request kind now pinned rows states result otherwise)
serve_or-Serves request kind now pinned account account_id rows states result otherwise e found id
      same leads =
    rw (serve_or, found)
      (
        found,
        same,
        subst
            (λ x.
              account_of request.sticky_key kind (keep_alive request kind now x rows)
              ≡ some account_id)
            (sym id) (account_of-keep_alive request kind now account_id rows e leads),
      )

-- A request whose key has an entry that is not too old is served by the entry's account, if that
-- account is let through, is within its budget and is not rate limited for long; and the key leads to
-- it afterwards.
pub pinned_account_answers :
    (request : StickyRequest) (kind : StickySessionKind) (now : ℕ) (rows : List StickySession)
    (states : List AccountState) (row : StickySession) (pinned : AccountState)
    → IsPinned request kind now rows states row pinned
    → (examine now pinned).1 ≡ available
    → (r : StickyResult) × (select_with_stickiness request now rows states ≡ some r)
      × Serves request kind (examine now pinned).0 row.account_id r
unfolding try_pinned
pinned_account_answers request kind now rows states row pinned p e =
    let id : pinned.account_id ≡ row.account_id =
      find_state-account_id row.account_id states pinned p.has_state in
    let state = select_pinned-state request.routing now pinned in
    let same : (select_pinned request.routing now pinned).0.account_id ≡ row.account_id =
      ap (λ x. x.account_id) state ∙ examine-account_id now pinned ∙ id in
    (
      try_pinned request kind now request.reallocate_sticky pinned rows states,
      pinned_is_tried p,
      serve_or-Serves request kind now (select_pinned request.routing now pinned).0
          (examine now pinned).0 row.account_id rows _ _ _ p.has_key
          (select_pinned_serves request.routing now pinned e) same
          (examine-account_id now pinned ∙ id) (ap entry_account p.has_entry),
    )

-- What a fallback is: the table is left alone, and the result is the selection from all accounts.
abbrev pub FallsBack :
    StickyRequest
    → ℕ
    → AccountState
    → List StickySession
    → List AccountState
    → StickyResult
    → Type 0
FallsBack request now pinned rows states r =
    (r.rows ≡ rows)
    × (r.result
        ≡ (select_account
            (record request.routing { allow_backoff_fallback = true; deterministic_probe = false })
            now (put_state pinned.account_id (examine now pinned).0 states)).1)

select_fallback-FallsBack :
    (request : StickyRequest) (kind : StickySessionKind) (now : ℕ) (rows : List StickySession)
    (states : List AccountState)
    → (select_fallback request kind now false rows states).rows ≡ rows
unfolding select_fallback
select_fallback-FallsBack request kind now rows states = by_account _
  where
    by_account : (chosen : Option AccountState) → remember request kind now false chosen rows ≡ rows
    by_account none = refl
    by_account (some account) = refl

-- The conditions under which a pinned account that cannot serve keeps its entry.
pub record IsPreserved (request : StickyRequest) (now : ℕ) (pinned : AccountState) : Type 0 where
  pub is_asked : request.reallocate_sticky ≡ false
  pub has_age : is_some request.sticky_max_age_seconds ≡ true
  pub recovers : is_recoverable (examine now pinned).0.status ≡ true
  pub is_down : is_available (examine now pinned).1 ≡ false
  pub stays_down :
      is_available (examine (now + seconds sticky_grace_period_seconds) (examine now pinned).0).1
      ≡ false

leave_pinned_preserves :
    (request : StickyRequest) (kind : StickySessionKind) (now : ℕ) (pinned : AccountState)
    (rows : List StickySession) (states : List AccountState)
    → is_some request.sticky_max_age_seconds ≡ true
    → is_recoverable pinned.status ≡ true
    → leave_pinned request kind now false pinned rows states
      ≡ select_fallback request kind now false rows states
unfolding leave_pinned
leave_pinned_preserves request kind now pinned rows states aged recovers =
    rw (leave_pinned, recovers, aged) refl

after_pinned_leaves :
    (request : StickyRequest) (kind : StickySessionKind) (now : ℕ) (pinned : AccountState)
    (rows : List StickySession) (states : List AccountState)
    → (select_pinned request.routing (now + seconds sticky_grace_period_seconds) pinned).1.account
      ≡ none
    → after_pinned request kind now false pinned rows states
      ≡ leave_pinned request kind now false pinned rows states
unfolding after_pinned
after_pinned_leaves request kind now pinned rows states down =
    elim (Bool-cases (is_rate_limited pinned)) [
      | inl limited ↦ rw (after_pinned, limited, serve_or, down) refl
      | inr not_limited ↦ rw (after_pinned, not_limited) refl
    ]

serve_or-none :
    (request : StickyRequest) (kind : StickySessionKind) (now : ℕ) (pinned : AccountState)
    (rows : List StickySession) (states : List AccountState) (result : SelectionResult)
    (otherwise : StickyResult)
    → result.account ≡ none
    → serve_or request kind now pinned rows states result otherwise ≡ otherwise
serve_or-none request kind now pinned rows states result otherwise e = rw (serve_or, e) refl

-- The pinned account cannot serve, now nor after the grace period.
try_pinned_falls_back :
    (request : StickyRequest) (kind : StickySessionKind) (now : ℕ) (pinned : AccountState)
    (rows : List StickySession) (states : List AccountState)
    → IsPreserved request now pinned
    → try_pinned request kind now false pinned rows states
      ≡ select_fallback request kind now false rows
          (put_state pinned.account_id (examine now pinned).0 states)
unfolding try_pinned
try_pinned_falls_back request kind now pinned rows states q =
    let state = select_pinned-state request.routing now pinned in
    let down = select_pinned_fails request.routing now pinned q.is_down in
    let still =
      select_pinned_fails request.routing (now + seconds sticky_grace_period_seconds)
        (examine now pinned).0 q.stays_down in
    let states' = put_state pinned.account_id (examine now pinned).0 states in
    serve_or-none request kind now (select_pinned request.routing now pinned).0 rows _ _ _ down
    ∙ ap
        (λ (x : AccountState).
          after_pinned request kind now false x rows (put_state pinned.account_id x states))
        state
    ∙ after_pinned_leaves request kind now (examine now pinned).0 rows states' still
    ∙ leave_pinned_preserves request kind now (examine now pinned).0 rows states' q.has_age
        q.recovers

fallback :
    (request : StickyRequest) (kind : StickySessionKind) (now : ℕ) (rows : List StickySession)
    (states : List AccountState) (row : StickySession) (pinned : AccountState)
    → IsPinned request kind now rows states row pinned
    → IsPreserved request now pinned
    → (r : StickyResult) × (select_with_stickiness request now rows states ≡ some r)
      × FallsBack request now pinned rows states r
unfolding select_fallback
fallback request kind now rows states row pinned p q =
    let states' = put_state pinned.account_id (examine now pinned).0 states in
    (
      select_fallback request kind now false rows states',
      pinned_is_tried p
          ∙ ap some (
              ap (λ b. try_pinned request kind now b pinned rows states) q.is_asked
              ∙ try_pinned_falls_back request kind now pinned rows states q),
      (select_fallback-FallsBack request kind now rows states', refl),
    )

-- A session returns to its account. If the pinned account cannot serve, now nor after the grace period,
-- is neither paused nor deactivated, the entries have an age limit and no reallocation is asked for, then the
-- request is answered by the selection from all accounts, and the table is left alone; and a later request, before
-- the entry is too old, that finds the account fit to serve again is served by it. Both times the
-- account is within its budget and not rate limited for long.
pub sticky_returns :
    (request : StickyRequest) (kind : StickySessionKind) (now later : ℕ) (rows : List StickySession)
    (states states' : List AccountState) (row : StickySession) (pinned pinned' : AccountState)
    → IsPinned request kind now rows states row pinned
    → IsPreserved request now pinned
    → IsPinned request kind later rows states' row pinned'
    → (examine later pinned').1 ≡ available
    → (r : StickyResult) × (select_with_stickiness request now rows states ≡ some r)
      × FallsBack request now pinned rows states r
      × ((again : StickyResult) × (select_with_stickiness request later r.rows states' ≡ some again)
          × Serves request kind (examine later pinned').0 row.account_id again)
sticky_returns request kind now later rows states states' row pinned pinned' p q p' e =
    let (r, found, (same, chosen)) = fallback request kind now rows states row pinned p q in
    let (again, at_return, serves) =
      pinned_account_answers request kind later rows states' row pinned' p' e in
    (
      r,
      found,
      (same, chosen),
      (again, ap (λ x. select_with_stickiness request later x states') same ∙ at_return, serves),
    )
