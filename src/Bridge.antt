-- ===== src/Bridge.antt =====
-- The table of bridge sessions: app/modules/proxy/durable_bridge_repository.py. Several server
-- instances share it; each session has one owner, which holds a lease under an epoch.
pub mod Aliases
pub mod Fence
pub mod Stale
pub mod Claims
pub mod Kept
pub mod Exclusive
pub mod Coordinator
pub mod Lookup
mod Tests
use codex_octopus.Base.{
  ℕ, ◌+◌, max, leb, ltb, ◌==◌, Bool, true, false, not, ◌&&◌, ◌||◌, Option, none, some, List, [],
  ◌∷◌, ◌++◌, map, if◌then◌else◌, is_empty, filter, length, is_some,
}
use codex_octopus.Base.Text.{Text, text, text_eq, strip}

pub data HttpBridgeSessionState : Type 0 where
  active draining closed : HttpBridgeSessionState

-- A row, which is also what the snapshots of it show.
pub record SessionRecord : Type 0 where
  pub id : Text
  pub session_key_kind : Text
  pub session_key_value : Text
  pub session_key_hash : Text
  pub api_key_scope : Text
  pub owner_instance_id : Option Text
  pub owner_epoch : ℕ
  pub lease_expires_at : Option ℕ
  pub state : HttpBridgeSessionState
  pub account_id : Option Text
  pub model : Option Text
  pub service_tier : Option Text
  pub latest_turn_state : Option Text
  pub latest_response_id : Option Text
  pub last_seen_at : ℕ
  pub closed_at : Option ℕ

-- `durable_bridge_hash`, a digest of the standard library.
abbrev pub Hash : Type 0
Hash = Text → Text

-- `durable_bridge_api_key_scope`
unfoldable pub durable_bridge_api_key_scope : Option Text → Text
unfolding strip
durable_bridge_api_key_scope none = text "__anonymous__"
durable_bridge_api_key_scope (some api_key_id) =
    let stripped = strip api_key_id in if is_empty stripped then text "__anonymous__" else stripped

abbrev pub is_key : Text → Text → Text → SessionRecord → Bool
is_key kind hash scope row =
    text_eq row.session_key_kind kind
    && text_eq row.session_key_hash hash
    && text_eq row.api_key_scope scope

abbrev pub first_where : (SessionRecord → Bool) → List SessionRecord → Option SessionRecord
first_where p [] = none
first_where p (row ∷ rest) = if p row then some row else first_where p rest

-- `get_session`
unfoldable pub get_session : Hash → Text → Text → Text → List SessionRecord → Option SessionRecord
get_session hash kind value scope rows = first_where (is_key kind (hash value) scope) rows

-- `get_session_by_id`
unfoldable pub get_session_by_id : Text → List SessionRecord → Option SessionRecord
get_session_by_id session_id rows = first_where (λ row. text_eq row.id session_id) rows

-- The commit of a change to one row.
abbrev pub update_row :
    Text → (SessionRecord → SessionRecord) → List SessionRecord → List SessionRecord
update_row session_id f rows = map (λ row. if text_eq row.id session_id then f row else row) rows

-- The keyword arguments of `claim_session`; the time to live in milliseconds.
pub record Claim : Type 0 where
  pub session_key_kind : Text
  pub session_key_value : Text
  pub api_key_scope : Text
  pub instance_id : Text
  pub lease_ttl : ℕ
  pub account_id : Option Text
  pub model : Option Text
  pub service_tier : Option Text
  pub latest_turn_state : Option Text
  pub latest_response_id : Option Text
  pub allow_takeover : Bool

-- `timedelta(seconds=max(1.0, lease_ttl_seconds))`
abbrev pub lease_end : ℕ → ℕ → ℕ
lease_end now lease_ttl = now + max 1000 lease_ttl

abbrev pub is_owner : Text → SessionRecord → Bool
is_owner instance_id row = elim row.owner_instance_id [
  | none ↦ false
  | some owner ↦ text_eq owner instance_id
]

abbrev pub is_closed : HttpBridgeSessionState → Bool
is_closed closed = true
is_closed _ = false

-- `state_allows_takeover`
abbrev pub allows_takeover : HttpBridgeSessionState → Bool
allows_takeover active = false
allows_takeover _ = true

abbrev pub lease_expired : ℕ → SessionRecord → Bool
lease_expired now row = elim row.lease_expires_at [ none ↦ true | some at ↦ leb at now ]

-- The row that is inserted where there is none.
abbrev pub new_row : Hash → Text → ℕ → Claim → SessionRecord
new_row hash fresh_id now c = record {
  id = fresh_id;
  session_key_kind = c.session_key_kind;
  session_key_value = c.session_key_value;
  session_key_hash = hash c.session_key_value;
  api_key_scope = c.api_key_scope;
  owner_instance_id = some c.instance_id;
  owner_epoch = 1;
  lease_expires_at = some (lease_end now c.lease_ttl);
  state = active;
  account_id = c.account_id;
  model = c.model;
  service_tier = c.service_tier;
  latest_turn_state = c.latest_turn_state;
  latest_response_id = c.latest_response_id;
  last_seen_at = now;
  closed_at = none;
}

-- The new value of `latest_turn_state` or `latest_response_id`: a new owner of a closed session
-- takes the claim's, even if it is `None`.
abbrev pub latest_of : Bool → Option Text → Option Text → Option Text
latest_of overwrites claimed kept = if overwrites || is_some claimed then claimed else kept

abbrev pub is_refused : ℕ → Claim → SessionRecord → Bool
is_refused now c row =
    not (is_owner c.instance_id row)
    && not c.allow_takeover
    && not (lease_expired now row)
    && not (allows_takeover row.state)

-- The row that a claim makes of the existing one.
unfoldable pub claimed_row : ℕ → Claim → SessionRecord → SessionRecord
claimed_row now c row =
    let owner_changed = not (is_owner c.instance_id row) in
    let overwrites = owner_changed && is_closed row.state in
    record row {
      owner_instance_id = some c.instance_id;
      owner_epoch = if owner_changed then row.owner_epoch + 1 else row.owner_epoch;
      lease_expires_at = some (lease_end now c.lease_ttl);
      state = active;
      account_id = c.account_id;
      model = c.model;
      service_tier = c.service_tier;
      latest_turn_state = latest_of overwrites c.latest_turn_state row.latest_turn_state;
      latest_response_id = latest_of overwrites c.latest_response_id row.latest_response_id;
      last_seen_at = now;
      closed_at = none;
    }

-- One attempt of `claim_session` whose select, which locks the row, and commit see the same table.
unfoldable pub claim_attempt :
    Hash → Text → ℕ → Claim → List SessionRecord → List SessionRecord × SessionRecord
unfolding claimed_row get_session
claim_attempt hash fresh_id now c rows =
    elim (get_session hash c.session_key_kind c.session_key_value c.api_key_scope rows) [
      | none ↦ (rows ++ (new_row hash fresh_id now c ∷ []), new_row hash fresh_id now c)
      | some existing ↦
          if is_refused now c existing
          then (rows, existing)
          else (update_row existing.id (claimed_row now c) rows, claimed_row now c existing)
    ]

-- `claim_session`. Where the first select misses a row that another instance inserts before the
-- commit, the unique key refuses the insertion and the second attempt runs.
unfoldable pub claim_session :
    Hash → Text → ℕ → Bool → Claim → List SessionRecord → List SessionRecord × SessionRecord
unfolding claim_attempt get_session
claim_session hash fresh_id now missed c rows =
    if not missed
    then claim_attempt hash fresh_id now c rows
    else (elim (get_session hash c.session_key_kind c.session_key_value c.api_key_scope rows) [
      | none ↦ (rows ++ (new_row hash fresh_id now c ∷ []), new_row hash fresh_id now c)
      | some conflicting ↦ claim_attempt hash fresh_id now c rows
    ])

abbrev pub holds : Text → ℕ → SessionRecord → Bool
holds instance_id owner_epoch row = is_owner instance_id row && row.owner_epoch == owner_epoch

abbrev pub option_else {ℓ} : {A : Type ℓ} → Option A → A → A
option_else none d = d
option_else (some a) d = a

abbrev pub option_or : Option Text → Option Text → Option Text
option_or none kept = kept
option_or (some new) kept = some new

pub record Renewal : Type 0 where
  pub lease_ttl : ℕ
  pub latest_turn_state : Option Text
  pub latest_response_id : Option Text
  pub state : Option HttpBridgeSessionState

abbrev pub renewed_row : ℕ → Renewal → SessionRecord → SessionRecord
renewed_row now r row = record row {
  lease_expires_at = some (lease_end now r.lease_ttl);
  last_seen_at = now;
  latest_turn_state = option_or r.latest_turn_state row.latest_turn_state;
  latest_response_id = option_or r.latest_response_id row.latest_response_id;
  state = option_else r.state row.state;
}

-- What `renew_session` and `release_session` have in common: nothing is written unless the row that
-- is read names the instance and the epoch.
abbrev pub write_held :
    Text
    → Text
    → ℕ
    → (SessionRecord → SessionRecord)
    → List SessionRecord
    → List SessionRecord × Option SessionRecord
write_held session_id instance_id owner_epoch f rows =
    elim (first_where (λ row. text_eq row.id session_id) rows) [
      | none ↦ (rows, none)
      | some row ↦
          if holds instance_id owner_epoch row
          then (update_row session_id f rows, some (f row))
          else (rows, some row)
    ]

-- `renew_session`
unfoldable pub renew_session :
    ℕ → Text → Text → ℕ → Renewal → List SessionRecord → List SessionRecord × Option SessionRecord
renew_session now session_id instance_id owner_epoch r rows =
    write_held session_id instance_id owner_epoch (renewed_row now r) rows

abbrev pub released_row : ℕ → Bool → SessionRecord → SessionRecord
released_row now is_draining row = record row {
  owner_instance_id = none;
  lease_expires_at = some now;
  last_seen_at = now;
  state = if is_draining then draining else closed;
  closed_at = if is_draining then none else some now;
}

-- `release_session`
unfoldable pub release_session :
    ℕ → Text → Text → ℕ → Bool → List SessionRecord → List SessionRecord × Option SessionRecord
release_session now session_id instance_id owner_epoch is_draining rows =
    write_held session_id instance_id owner_epoch (released_row now is_draining) rows

abbrev pub is_active : HttpBridgeSessionState → Bool
is_active active = true
is_active _ = false

abbrev pub is_drained_by : Text → SessionRecord → Bool
is_drained_by instance_id row = is_owner instance_id row && is_active row.state

-- `mark_owner_draining`: the rows, and how many were marked.
unfoldable pub mark_owner_draining : ℕ → Text → List SessionRecord → List SessionRecord × ℕ
mark_owner_draining now instance_id rows = (
  map
      (λ row.
        if is_drained_by instance_id row
        then record row { state = draining; last_seen_at = now }
        else row)
      rows,
  length (filter (is_drained_by instance_id) rows),
)
