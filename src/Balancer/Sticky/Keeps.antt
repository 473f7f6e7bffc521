-- ===== src/Balancer/Sticky/Keeps.antt =====
-- When a sticky session stays with its account: `_select_with_stickiness` of
-- app/modules/proxy/load_balancer.py.
use codex_octopus.Base.{
  ℕ, ◌≡◌, refl, ◌∙◌, ap, inl, inr, Bool, true, false, Option, none, some, List, [], ◌∷◌,
  if◌then◌else◌, is_empty, is_some, Bool-cases,
}
use mathlib.Core.Option.{some-injective}
use codex_octopus.Base.Text.{Text, text_eq_refl}
use codex_octopus.Balancer.State.{AccountState}
use codex_octopus.Balancer.Sticky.Entries.{
  StickySessionKind, codex_session, sticky_thread, prompt_cache, StickySession, get_account_id,
  get_entry, find_entry, is_entry, kind_eq, is_too_old, upsert,
}
use codex_octopus.Balancer.Sticky.{
  StickyRequest, StickyResult, find_state, budget_exhausted, rate_limit_far_away, keep_alive,
  try_pinned, with_pinned, with_existing, select_sticky, select_with_stickiness,
}

-- The key leads to an account among the states, by an entry that is not too old, and the account is neither over
-- its budget nor rate limited for long (which only matters for the prompt cache).
pub record IsPinned (request : StickyRequest) (kind : StickySessionKind) (now : ℕ)
    (rows : List StickySession) (states : List AccountState) (row : StickySession)
    (pinned : AccountState) : Type 0 where
  pub has_key : is_empty request.sticky_key ≡ false
  pub has_kind : request.sticky_kind ≡ some kind
  pub has_entry : get_entry request.sticky_key kind rows ≡ some row
  pub is_fresh : is_too_old now request.sticky_max_age_seconds row ≡ false
  pub names_account : is_empty row.account_id ≡ false
  pub has_state : find_state row.account_id states ≡ some pinned
  pub has_budget : budget_exhausted kind request.budget_threshold_pct pinned ≡ false
  pub is_near : rate_limit_far_away kind now pinned ≡ false

module _ {request : StickyRequest} {kind : StickySessionKind} {now : ℕ} {rows : List StickySession}
    {states : List AccountState} {row : StickySession} {pinned : AccountState}
    (p : IsPinned request kind now rows states row pinned) where
  entry_is_read :
      get_account_id now request.sticky_max_age_seconds request.sticky_key kind rows
      ≡ (rows, some row.account_id)
  unfolding get_account_id
  entry_is_read =
      let found = p.has_entry in let fresh = p.is_fresh in rw (get_account_id, found, fresh) refl

  pinned_is_sought :
      with_existing request kind now (some row.account_id) rows states
      ≡ with_pinned request kind now pinned rows states
  unfolding with_existing
  pinned_is_sought = rw (with_existing, p.names_account, p.has_state) refl

  pinned_is_kept :
      with_pinned request kind now pinned rows states
      ≡ try_pinned request kind now request.reallocate_sticky pinned rows states
  unfolding with_pinned
  pinned_is_kept = rw (with_pinned, p.has_budget, p.is_near) refl

  sticky_is_tried :
      select_sticky request kind now rows states
      ≡ try_pinned request kind now request.reallocate_sticky pinned rows states
  unfolding select_sticky
  sticky_is_tried =
      ap (λ (r : List StickySession × Option Text). with_existing request kind now r.1 r.0 states)
        entry_is_read
      ∙ pinned_is_sought
      ∙ pinned_is_kept

  pub pinned_is_tried :
      select_with_stickiness request now rows states
      ≡ some (try_pinned request kind now request.reallocate_sticky pinned rows states)
  unfolding select_with_stickiness
  pinned_is_tried = by_key (is_empty request.sticky_key) p.has_key request.sticky_kind p.has_kind _
    where
      by_key :
          (b : Bool)
          → b ≡ false
          → (k : Option StickySessionKind) → k ≡ some kind
          → (plain : Option StickyResult)
          → (if b then plain else (elim k as (λ _. Option StickyResult) [
            | none ↦ none
            | some kind' ↦ some (select_sticky request kind' now rows states)
          ]))
            ≡ some (try_pinned request kind now request.reallocate_sticky pinned rows states)
      by_key true f k e plain = cc
      by_key false f none e plain = cc
      by_key false f (some k) e plain =
          ap (λ x. some (select_sticky request x now rows states)) (some-injective k kind e)
          ∙ ap some sticky_is_tried

abbrev pub entry_account : Option StickySession → Option Text
entry_account none = none
entry_account (some row) = some row.account_id

-- The account that a key leads to.
abbrev pub account_of : Text → StickySessionKind → List StickySession → Option Text
account_of key kind rows = entry_account (get_entry key kind rows)

kind_eq_refl : (kind : StickySessionKind) → kind_eq kind kind ≡ true
kind_eq_refl codex_session = refl
kind_eq_refl sticky_thread = refl
kind_eq_refl prompt_cache = refl

find_entry-upsert :
    (now : ℕ) (key account_id : Text) (kind : StickySessionKind) (rows : List StickySession)
    → (row : StickySession) × (find_entry key kind (upsert now key account_id kind rows) ≡ some row)
      × (row.account_id ≡ account_id)
unfolding upsert
find_entry-upsert now key account_id kind [] = (
  record { key = key; kind = kind; account_id = account_id; updated_at = now },
  rw (text_eq_refl key, kind_eq_refl kind) refl,
  refl,
)
find_entry-upsert now key account_id kind (r ∷ rest) = elim (Bool-cases (is_entry key kind r)) [
  | inl hit ↦
      (record r { account_id = account_id; updated_at = now }, rw (hit, find_entry, hit) refl, refl)
  | inr miss ↦
      let (row, found, e) = find_entry-upsert now key account_id kind rest in
      (row, rw (miss, find_entry, miss) found, e)
]

account_of-upsert :
    (now : ℕ) (key account_id : Text) (kind : StickySessionKind) (rows : List StickySession)
    → is_empty key ≡ false
    → account_of key kind (upsert now key account_id kind rows) ≡ some account_id
unfolding get_entry
account_of-upsert now key account_id kind rows e =
    let (row, found, same) = find_entry-upsert now key account_id kind rows in
    rw (account_of, get_entry, e, found) (ap some same)

pub account_of-keep_alive :
    (request : StickyRequest) (kind : StickySessionKind) (now : ℕ) (account_id : Text)
    (rows : List StickySession)
    → is_empty request.sticky_key ≡ false
    → account_of request.sticky_key kind rows ≡ some account_id
    → account_of request.sticky_key kind (keep_alive request kind now account_id rows)
      ≡ some account_id
unfolding keep_alive
account_of-keep_alive request kind now account_id rows e h =
    by_age (is_some request.sticky_max_age_seconds)
  where
    by_age :
        (b : Bool)
        → account_of request.sticky_key kind
            (if b then upsert now request.sticky_key account_id kind rows else rows)
          ≡ some account_id
    by_age true = account_of-upsert now request.sticky_key account_id kind rows e
    by_age false = h
