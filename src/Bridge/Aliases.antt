-- ===== src/Bridge/Aliases.antt =====
-- The aliases of bridge sessions: `upsert_alias` and `resolve_alias` of
-- app/modules/proxy/durable_bridge_repository.py. That an alias names a session of the table is the
-- database's check, and is not part of the model.
use codex_octopus.Base.{Bool, ◌&&◌, Option, none, some, List, [], ◌∷◌, if◌then◌else◌}
use codex_octopus.Base.Text.{Text, text_eq}
use codex_octopus.Bridge.{Hash, SessionRecord, get_session_by_id}

pub record SessionAlias : Type 0 where
  pub session_id : Text
  pub alias_kind : Text
  pub alias_value : Text
  pub alias_hash : Text
  pub api_key_scope : Text

-- The unique key of the table.
abbrev pub is_alias : Text → Text → Text → SessionAlias → Bool
is_alias kind hash scope a =
    text_eq a.alias_kind kind && text_eq a.alias_hash hash && text_eq a.api_key_scope scope

abbrev pub find_alias : Text → Text → Text → List SessionAlias → Option SessionAlias
find_alias kind hash scope [] = none
find_alias kind hash scope (a ∷ rest) =
    if is_alias kind hash scope a then some a else find_alias kind hash scope rest

-- The row that is inserted where the key is new.
abbrev pub new_alias : Hash → Text → Text → Text → Text → SessionAlias
new_alias hash session_id kind value scope = record {
  session_id = session_id;
  alias_kind = kind;
  alias_value = value;
  alias_hash = hash value;
  api_key_scope = scope;
}

-- `upsert_alias`: `ON CONFLICT DO UPDATE` on the unique key, on either database.
unfoldable pub upsert_alias :
    Hash → Text → Text → Text → Text → List SessionAlias → List SessionAlias
upsert_alias hash session_id kind value scope [] = new_alias hash session_id kind value scope ∷ []
upsert_alias hash session_id kind value scope (a ∷ rest) =
    let later = upsert_alias hash session_id kind value scope rest in
    if is_alias kind (hash value) scope a
    then record a { session_id = session_id; alias_value = value } ∷ rest
    else a ∷ later

-- `resolve_alias`
unfoldable pub resolve_alias :
    Hash → Text → Text → Text → List SessionAlias → List SessionRecord → Option SessionRecord
unfolding get_session_by_id
resolve_alias hash kind value scope aliases rows =
    elim (find_alias kind (hash value) scope aliases) [
      | none ↦ none
      | some a ↦ get_session_by_id a.session_id rows
    ]
