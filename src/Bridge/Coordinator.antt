-- ===== src/Bridge/Coordinator.antt =====
-- `DurableBridgeSessionCoordinator` of app/modules/proxy/durable_bridge_coordinator.py: the calls of
-- the repository that a request makes. Each opens a database session of its own.
use codex_octopus.Base.{ℕ, ltb, Bool, false, Option, none, some, List}
use mathlib.Core.Option
use codex_octopus.Base.Text.{Text, text}
use codex_octopus.Bridge.{
  HttpBridgeSessionState, Hash, SessionRecord, Claim, Renewal, durable_bridge_api_key_scope,
  get_session, claim_session, renew_session, release_session, mark_owner_draining,
}
use codex_octopus.Bridge.Aliases.{SessionAlias, upsert_alias, resolve_alias}

-- The two tables.
pub record Tables : Type 0 where
  pub sessions : List SessionRecord
  pub aliases : List SessionAlias

pub record DurableBridgeLookup : Type 0 where
  pub session_id : Text
  pub canonical_kind : Text
  pub canonical_key : Text
  pub api_key_scope : Text
  pub account_id : Option Text
  pub owner_instance_id : Option Text
  pub owner_epoch : ℕ
  pub lease_expires_at : Option ℕ
  pub state : HttpBridgeSessionState
  pub latest_turn_state : Option Text
  pub latest_response_id : Option Text

-- `lease_is_active`
unfoldable pub lease_is_active : ℕ → DurableBridgeLookup → Bool
lease_is_active now lookup = elim lookup.owner_instance_id [
  | none ↦ false
  | some owner ↦ elim lookup.lease_expires_at [ none ↦ false | some at ↦ ltb now at ]
]

-- `_to_lookup`
abbrev pub to_lookup : SessionRecord → DurableBridgeLookup
to_lookup snapshot = record {
  session_id = snapshot.id;
  canonical_kind = snapshot.session_key_kind;
  canonical_key = snapshot.session_key_value;
  api_key_scope = snapshot.api_key_scope;
  account_id = snapshot.account_id;
  owner_instance_id = snapshot.owner_instance_id;
  owner_epoch = snapshot.owner_epoch;
  lease_expires_at = snapshot.lease_expires_at;
  state = snapshot.state;
  latest_turn_state = snapshot.latest_turn_state;
  latest_response_id = snapshot.latest_response_id;
}

abbrev pub turn_state_alias : Text
turn_state_alias = text "turn_state"

abbrev pub previous_response_alias : Text
previous_response_alias = text "previous_response_id"

abbrev pub session_header_alias : Text
session_header_alias = text "session_header"

-- One round of the loop over the aliases: `continue`, a session, or what the later rounds find.
abbrev pub resolve_or :
    Hash → Text → Tables → Text → Option Text → Option SessionRecord → Option SessionRecord
resolve_or hash scope tables kind none rest = rest
resolve_or hash scope tables kind (some value) rest =
    elim (resolve_alias hash kind value scope tables.aliases tables.sessions) [
      | none ↦ rest
      | some snapshot ↦ some snapshot
    ]

-- `lookup_request_targets`
unfoldable pub lookup_request_targets :
    Hash
    → Text
    → Text
    → Option Text
    → Option Text
    → Option Text
    → Option Text
    → Tables
    → Option DurableBridgeLookup
lookup_request_targets hash kind value api_key_id turn_state session_header previous_response_id
      tables =
    let scope = durable_bridge_api_key_scope api_key_id in
    Option.map to_lookup (
      resolve_or hash scope tables turn_state_alias turn_state (
        resolve_or hash scope tables previous_response_alias previous_response_id (
          resolve_or hash scope tables session_header_alias session_header
            (get_session hash kind value scope tables.sessions))))

-- `claim_live_session`; the scope of the claim is that of the API key.
unfoldable pub claim_live_session :
    Hash → Text → ℕ → Bool → Option Text → Claim → Tables → Tables × DurableBridgeLookup
unfolding durable_bridge_api_key_scope
claim_live_session hash fresh_id now missed api_key_id c tables =
    let (sessions, row) =
      claim_session hash fresh_id now missed
        (record c { api_key_scope = durable_bridge_api_key_scope api_key_id }) tables.sessions in
    (record tables { sessions = sessions }, to_lookup row)

-- `renew_live_session`
unfoldable pub renew_live_session :
    ℕ → Text → Text → ℕ → Renewal → Tables → Tables × Option DurableBridgeLookup
renew_live_session now session_id instance_id owner_epoch r tables =
    let (sessions, row) = renew_session now session_id instance_id owner_epoch r tables.sessions in
    (record tables { sessions = sessions }, Option.map to_lookup row)

-- `release_live_session`
unfoldable pub release_live_session :
    ℕ → Text → Text → ℕ → Bool → Tables → Tables × Option DurableBridgeLookup
release_live_session now session_id instance_id owner_epoch is_draining tables =
    let (sessions, row) =
      release_session now session_id instance_id owner_epoch is_draining tables.sessions in
    (record tables { sessions = sessions }, Option.map to_lookup row)

-- `mark_instance_draining`
unfoldable pub mark_instance_draining : ℕ → Text → Tables → Tables × ℕ
mark_instance_draining now instance_id tables =
    let (sessions, count) = mark_owner_draining now instance_id tables.sessions in
    (record tables { sessions = sessions }, count)

abbrev pub register : Hash → Text → Text → Text → Option Text → Tables → Tables
register hash kind value session_id api_key_id tables = record tables {
  aliases =
      upsert_alias hash session_id kind value (durable_bridge_api_key_scope api_key_id)
        tables.aliases;
}

-- The renewal that follows a registration.
abbrev pub renew_as : ℕ → Text → Text → ℕ → Renewal → Tables → Tables
renew_as now session_id instance_id owner_epoch r tables = record tables {
  sessions = (renew_session now session_id instance_id owner_epoch r tables.sessions).0;
}

-- `register_turn_state`
unfoldable pub register_turn_state :
    Hash → ℕ → Text → Option Text → Text → ℕ → Text → ℕ → Tables → Tables
register_turn_state hash now session_id api_key_id instance_id owner_epoch turn_state lease_ttl
      tables =
    renew_as now session_id instance_id owner_epoch
      (record {
        lease_ttl = lease_ttl;
        latest_turn_state = some turn_state;
        latest_response_id = none;
        state = none;
      })
      (register hash turn_state_alias turn_state session_id api_key_id tables)

-- `register_previous_response_id`
unfoldable pub register_previous_response_id :
    Hash → ℕ → Text → Option Text → Text → ℕ → Text → ℕ → Tables → Tables
register_previous_response_id hash now session_id api_key_id instance_id owner_epoch response_id
      lease_ttl tables =
    renew_as now session_id instance_id owner_epoch
      (record {
        lease_ttl = lease_ttl;
        latest_turn_state = none;
        latest_response_id = some response_id;
        state = none;
      })
      (register hash previous_response_alias response_id session_id api_key_id tables)

-- `register_session_header`
unfoldable pub register_session_header : Hash → Text → Option Text → Text → Tables → Tables
register_session_header hash session_id api_key_id session_header tables =
    register hash session_header_alias session_header session_id api_key_id tables
