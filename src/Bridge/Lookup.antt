-- ===== src/Bridge/Lookup.antt =====
-- Which session an alias leads to: the repository's aliases and the coordinator's
-- `lookup_request_targets`, app/modules/proxy/durable_bridge_coordinator.py.
use codex_octopus.Base.{
  ℕ, ◌≡◌, refl, ap, inl, inr, true, false, ◌&&◌, Option, none, some, List, [], ◌∷◌, arith,
  Bool-cases,
}
use codex_octopus.Base.Text.{Text, text_eq, text_eq_refl, eq_of_text_eq}
use codex_octopus.Bridge.{
  SessionRecord, Hash, get_session_by_id, durable_bridge_api_key_scope, renew_session, Renewal,
}
use codex_octopus.Bridge.Aliases.{
  SessionAlias, is_alias, find_alias, upsert_alias, resolve_alias, new_alias,
}
use codex_octopus.Bridge.Fence.{perform_all, perform_all-Fenced, renewing}
use mathlib.Core.Option
use codex_octopus.Bridge.Coordinator.{
  Tables, to_lookup, resolve_or, turn_state_alias, previous_response_alias, session_header_alias,
  lookup_request_targets, register_turn_state, register_previous_response_id,
  register_session_header,
}

-- An alias is found under its key, and leads to the session that it was last upserted with.
find_alias-upsert :
    (hash : Hash) (session_id kind value scope : Text) (aliases : List SessionAlias)
    → (a : SessionAlias) × (find_alias kind
          (hash value)
          scope
          (upsert_alias hash session_id kind value scope aliases)
        ≡ some a)
      × (a.session_id ≡ session_id)
unfolding upsert_alias
find_alias-upsert hash session_id kind value scope [] = (
  new_alias hash session_id kind value scope,
  rw (text_eq_refl kind, text_eq_refl (hash value), text_eq_refl scope) refl,
  refl,
)
find_alias-upsert hash session_id kind value scope (a ∷ rest) =
    elim (Bool-cases (is_alias kind (hash value) scope a)) [
      | inl hit ↦ (
        record a { session_id = session_id; alias_value = value },
        rw (hit, find_alias, hit) refl,
        refl,
      )
      | inr miss ↦
          let (b, found, e) = find_alias-upsert hash session_id kind value scope rest in
          (b, rw (miss, find_alias, miss) found, e)
    ]

pub resolve_alias-upsert :
    (hash : Hash) (session_id kind value scope : Text) (aliases : List SessionAlias)
    (rows : List SessionRecord)
    → resolve_alias hash kind value scope
        (upsert_alias hash session_id kind value scope aliases)
        rows
      ≡ get_session_by_id session_id rows
unfolding resolve_alias
resolve_alias-upsert hash session_id kind value scope aliases rows =
    let (a, found, e) = find_alias-upsert hash session_id kind value scope aliases in
    rw (resolve_alias, found) (ap (λ id. get_session_by_id id rows) e)

-- The keys of two aliases differ.
abbrev pub AreApart : Hash → Text → Text → Text → Text → Text → Text → Type 0
AreApart hash kind value scope kind' value' scope' =
    (text_eq kind kind' && text_eq (hash value) (hash value') && text_eq scope scope') ≡ false

-- A row with the one key has not the other.
other_key :
    (hash : Hash) (kind value scope kind' value' scope' : Text) (a : SessionAlias)
    → AreApart hash kind value scope kind' value' scope'
    → is_alias kind (hash value) scope a ≡ true
    → is_alias kind' (hash value') scope' a ≡ false
other_key hash kind value scope kind' value' scope' a apart hit =
    let k : a.alias_kind ≡ kind = eq_of_text_eq _ _ (ground arith) in
    let h : a.alias_hash ≡ hash value = eq_of_text_eq _ _ (ground arith) in
    let s : a.api_key_scope ≡ scope = eq_of_text_eq _ _ (ground arith) in rw (k, h, s) apart

find_alias-other :
    (hash : Hash) (session_id kind value scope kind' value' scope' : Text)
    (aliases : List SessionAlias)
    → AreApart hash kind value scope kind' value' scope'
    → find_alias kind' (hash value') scope' (upsert_alias hash session_id kind value scope aliases)
      ≡ find_alias kind' (hash value') scope' aliases
unfolding upsert_alias
find_alias-other hash session_id kind value scope kind' value' scope' [] apart = rw apart refl
find_alias-other hash session_id kind value scope kind' value' scope' (a ∷ rest) apart =
    elim (Bool-cases (is_alias kind (hash value) scope a)) [
      | inl hit ↦
          rw (hit, find_alias, other_key hash kind value scope kind' value' scope' a apart hit) refl
      | inr miss ↦
          rw
            (
              miss,
              find_alias,
              find_alias-other hash session_id kind value scope kind' value' scope' rest apart,
            )
            refl
    ]

-- After an alias has been upserted for a session, it resolves to that session, if it exists, and every other
-- alias resolves to what it did before.
pub upsert_alias-resolve_alias :
    (hash : Hash) (session_id kind value scope kind' value' scope' : Text)
    (aliases : List SessionAlias) (rows : List SessionRecord)
    → AreApart hash kind value scope kind' value' scope'
    → let after = upsert_alias hash session_id kind value scope aliases in
      (resolve_alias hash kind value scope after rows ≡ get_session_by_id session_id rows)
      × (resolve_alias hash kind' value' scope' after rows
          ≡ resolve_alias hash kind' value' scope' aliases rows)
unfolding resolve_alias
upsert_alias-resolve_alias hash session_id kind value scope kind' value' scope' aliases rows apart =
    (
      resolve_alias-upsert hash session_id kind value scope aliases rows,
      rw
          (
            resolve_alias,
            find_alias-other hash session_id kind value scope kind' value' scope' aliases apart,
          )
          refl,
    )

-- The loop over the aliases stops at one that was just upserted for a session in the table.
resolve_or-register :
    (hash : Hash) (session_id kind value scope : Text) (aliases : List SessionAlias)
    (sessions : List SessionRecord) (row : SessionRecord) (rest : Option SessionRecord)
    → get_session_by_id session_id sessions ≡ some row
    → resolve_or hash scope
        (record {
          sessions = sessions;
          aliases = upsert_alias hash session_id kind value scope aliases;
        })
        kind
        (some value)
        rest
      ≡ some row
resolve_or-register hash session_id kind value scope aliases sessions row rest h =
    rw (resolve_or, resolve_alias-upsert hash session_id kind value scope aliases sessions, h) refl

-- The renewal that follows leaves the session in the table.
renew_session-keeps :
    (hash : Hash) (now : ℕ) (session_id instance_id : Text) (owner_epoch : ℕ) (r : Renewal)
    (rows : List SessionRecord) (row : SessionRecord)
    → get_session_by_id session_id rows ≡ some row
    → (later : SessionRecord) × (get_session_by_id session_id
          (renew_session now session_id instance_id owner_epoch r rows).0
        ≡ some later)
unfolding perform_all
renew_session-keeps hash now session_id instance_id owner_epoch r rows row h =
    let (later, found, _) =
      perform_all-Fenced hash (renewing now session_id instance_id owner_epoch r ∷ []) rows
        session_id row h in
    (later, found)

-- After a turn state, a response or a session header has been registered for a session in the table, a
-- request of the same API key that names it, and nothing that is looked up before it, is led to that
-- session as it then is, whatever session key it has. This holds for every instance and epoch, also one that does not own the
-- session.
pub lookup_request_targets-register :
    (hash : Hash) (now lease_ttl owner_epoch : ℕ) (api_key_id header response : Option Text)
    (session_id instance_id value kind key : Text) (tables : Tables) (row : SessionRecord)
    → get_session_by_id session_id tables.sessions ≡ some row
    → let by_turn =
        register_turn_state hash now session_id api_key_id instance_id owner_epoch value lease_ttl
          tables in
      let by_response =
        register_previous_response_id hash now session_id api_key_id instance_id owner_epoch value
          lease_ttl tables in
      let by_header = register_session_header hash session_id api_key_id value tables in
      (((r : SessionRecord) × (get_session_by_id session_id by_turn.sessions ≡ some r)
        × (lookup_request_targets hash kind key api_key_id (some value) header response by_turn
            ≡ some (to_lookup r))))
      × ((r : SessionRecord) × (get_session_by_id session_id by_response.sessions ≡ some r)
          × (lookup_request_targets hash kind key api_key_id none header (some value) by_response
              ≡ some (to_lookup r)))
      × (lookup_request_targets hash kind key api_key_id none (some value) none by_header
          ≡ some (to_lookup row))
unfolding register_turn_state register_previous_response_id register_session_header
    lookup_request_targets
lookup_request_targets-register hash now lease_ttl owner_epoch api_key_id header response session_id
      instance_id value kind key tables row h =
    let scope = durable_bridge_api_key_scope api_key_id in
    let (turn, turn_found) =
      renew_session-keeps hash now session_id instance_id owner_epoch _ tables.sessions row h in
    let (reply, reply_found) =
      renew_session-keeps hash now session_id instance_id owner_epoch _ tables.sessions row h in
    (
      (
        turn,
        turn_found,
        ap (Option.map to_lookup) (
            resolve_or-register hash session_id turn_state_alias value scope tables.aliases _ turn _
              turn_found),
      ),
      (
        reply,
        reply_found,
        ap (Option.map to_lookup) (
            resolve_or-register hash session_id previous_response_alias value scope tables.aliases _
              reply _ reply_found),
      ),
      ap (Option.map to_lookup) (
          resolve_or-register hash session_id session_header_alias value scope tables.aliases
            tables.sessions row _ h),
    )
