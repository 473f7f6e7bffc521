-- ===== src/Balancer/Sticky/Entries.antt =====
-- The table of sticky sessions: app/modules/proxy/sticky_repository.py.
use codex_octopus.Base.{
  ℕ, ◌+◌, ltb, Bool, true, false, not, ◌&&◌, Option, none, some, List, [], ◌∷◌, if◌then◌else◌,
  is_empty, filter,
}
use codex_octopus.Base.Text.{Text, text_eq}

pub data StickySessionKind : Type 0 where
  codex_session sticky_thread prompt_cache : StickySessionKind

abbrev pub kind_eq : StickySessionKind → StickySessionKind → Bool
kind_eq codex_session codex_session = true
kind_eq sticky_thread sticky_thread = true
kind_eq prompt_cache prompt_cache = true
kind_eq _ _ = false

pub record StickySession : Type 0 where
  pub key : Text
  pub kind : StickySessionKind
  pub account_id : Text
  pub updated_at : ℕ

abbrev pub is_entry : Text → StickySessionKind → StickySession → Bool
is_entry key kind row = text_eq row.key key && kind_eq row.kind kind

abbrev pub find_entry : Text → StickySessionKind → List StickySession → Option StickySession
find_entry key kind [] = none
find_entry key kind (row ∷ rest) =
    if is_entry key kind row then some row else find_entry key kind rest

-- `get_entry`
unfoldable pub get_entry : Text → StickySessionKind → List StickySession → Option StickySession
get_entry key kind rows = if is_empty key then none else find_entry key kind rows

-- `delete`, without the answer whether there was a row.
unfoldable pub delete : Text → StickySessionKind → List StickySession → List StickySession
delete key kind rows =
    if is_empty key then rows else filter (λ row. not (is_entry key kind row)) rows

-- `updated_at < cutoff`
abbrev pub is_too_old : ℕ → Option ℕ → StickySession → Bool
is_too_old now none row = false
is_too_old now (some max_age) row = ltb (row.updated_at + max_age) now

-- `get_account_id`: the table, from which an entry that is too old is deleted, and the account.
unfoldable pub get_account_id :
    ℕ → Option ℕ → Text → StickySessionKind → List StickySession → List StickySession × Option Text
unfolding get_entry delete
get_account_id now max_age key kind rows = elim (get_entry key kind rows) [
  | none ↦ (rows, none)
  | some row ↦
      if is_too_old now max_age row
      then (delete key kind rows, none)
      else (rows, some row.account_id)
]

-- `upsert`; the database's clock is `now`.
unfoldable pub upsert :
    ℕ → Text → Text → StickySessionKind → List StickySession → List StickySession
upsert now key account_id kind [] =
    record { key = key; kind = kind; account_id = account_id; updated_at = now } ∷ []
upsert now key account_id kind (row ∷ rest) =
    let later = upsert now key account_id kind rest in
    if is_entry key kind row
    then record row { account_id = account_id; updated_at = now } ∷ rest
    else row ∷ later
