-- ===== src/Bridge/Tests.antt =====
-- Inputs of the bridge session modules, and runs of them.
use codex_octopus.Base.{inr, ◌≡◌, refl, Bool, true, false, none, some, List, [], ◌∷◌, arith}
use codex_octopus.Base.Text.{Text, text}
use codex_octopus.Bridge.{
  claim_attempt, get_session, SessionRecord, Claim, Renewal, active, closed, get_session_by_id,
  claim_session, renew_session, release_session, lease_end, mark_owner_draining,
}
use codex_octopus.Bridge.Fence.{
  Call, claiming, renewing, releasing, mark_draining, perform_all, perform_all-Fenced, Fenced,
}
use codex_octopus.Bridge.Stale.{stale_owner_cannot_write}
use codex_octopus.Bridge.Claims.{claim_session-Outcome, Outcome, session_of}
use codex_octopus.Bridge.Exclusive.{claim_session_exclusive}
use codex_octopus.Bridge.Coordinator.{
  Tables, to_lookup, lookup_request_targets, register_turn_state, register_previous_response_id,
  register_session_header, lease_is_active, claim_live_session, renew_live_session,
  release_live_session, mark_instance_draining,
}
use codex_octopus.Bridge.Lookup.{lookup_request_targets-register}

-- Any function serves as the digest.
abbrev digest : Text → Text
digest value = value

abbrev claim_by : Text → Bool → Claim
claim_by instance_id allow_takeover = record {
  session_key_kind = text "turn";
  session_key_value = text "k1";
  api_key_scope = text "__anonymous__";
  instance_id = instance_id;
  lease_ttl = 5000;
  account_id = some (text "acct");
  model = none;
  service_tier = none;
  latest_turn_state = none;
  latest_response_id = none;
  allow_takeover = allow_takeover;
}

abbrev renewal : Renewal
renewal = record {
  lease_ttl = 5000;
  latest_turn_state = none;
  latest_response_id = none;
  state = none;
}

-- The session of instance a.
abbrev owned : SessionRecord
owned = record {
  id = text "s1";
  session_key_kind = text "turn";
  session_key_value = text "k1";
  session_key_hash = text "k1";
  api_key_scope = text "__anonymous__";
  owner_instance_id = some (text "a");
  owner_epoch = 1;
  lease_expires_at = some 5000;
  state = active;
  account_id = some (text "acct");
  model = none;
  service_tier = none;
  latest_turn_state = none;
  latest_response_id = none;
  last_seen_at = 0;
  closed_at = none;
}

abbrev tables : Tables
tables = record { sessions = owned ∷ []; aliases = [] }

-- A takeover, a renewal by the former owner, and one by the new owner.
abbrev calls : List Call
calls =
    claiming (text "s2") 100 false (claim_by (text "b") true)
    ∷ renewing 200 (text "s1") (text "a") 1 renewal
    ∷ renewing 300 (text "s1") (text "b") 2 renewal
    ∷ []

takes_over :
    perform_all digest calls (owned ∷ [])
    ≡ record owned {
      owner_instance_id = some (text "b");
      owner_epoch = 2;
      lease_expires_at = some 5300;
      last_seen_at = 300;
    }
      ∷ []
unfolding perform_all claim_session renew_session
takes_over = refl

first_claim :
    claim_session digest (text "s1") 0 true (claim_by (text "a") false) [] ≡ (owned ∷ [], owned)
unfolding claim_session
first_claim = refl

-- A lease shorter than a second is extended to one.
short_lease : lease_end 0 10 ≡ 1000
short_lease = refl

marks_draining : (mark_owner_draining 7 (text "a") (owned ∷ [])).1 ≡ 1
unfolding mark_owner_draining
marks_draining = refl

claims_live :
    lease_is_active 4999
      (claim_live_session digest (text "s1") 0 false none (claim_by (text "a") false) tables).1
    ≡ true
unfolding lease_is_active claim_live_session claim_session
claims_live = refl

-- The lease of a session that was released is over.
ends_live :
    (t : Tables)
    → t ≡ (renew_live_session 10 (text "s1") (text "a") 1 renewal tables).0
    → (release_live_session 20
        (text "s1")
        (text "a")
        1
        false
        (mark_instance_draining 15 (text "a") t).0).0.sessions
      ≡ record owned {
        owner_instance_id = none;
        lease_expires_at = some 20;
        last_seen_at = 20;
        state = closed;
        closed_at = some 20;
      }
        ∷ []
unfolding renew_live_session release_live_session mark_instance_draining renew_session
    release_session mark_owner_draining
ends_live t e = rw e refl

perform_all-Fenced_example :
    (later : SessionRecord) × (get_session_by_id (text "s1") (perform_all digest calls (owned ∷ []))
      ≡ some later)
    × Fenced owned later
unfolding get_session_by_id
perform_all-Fenced_example = perform_all-Fenced digest calls (owned ∷ []) (text "s1") owned refl

stale_owner_cannot_write_example :
    ((renew_session 9 (text "s1") (text "b") 1 renewal (perform_all digest calls (owned ∷ []))).0
      ≡ perform_all digest calls (owned ∷ []))
    × ((release_session 9 (text "s1") (text "b") 1 true (perform_all digest calls (owned ∷ []))).0
        ≡ perform_all digest calls (owned ∷ []))
unfolding get_session_by_id
stale_owner_cannot_write_example =
    stale_owner_cannot_write digest calls (owned ∷ []) (text "s1") (text "a") (text "b") 1 9 renewal
      true owned refl refl refl (omega arith)

claim_session-Outcome_example :
    Outcome digest 0
      (claim_by (text "b") false)
      (owned ∷ [])
      (claim_session digest (text "s2") 0 true (claim_by (text "b") false) (owned ∷ []))
claim_session-Outcome_example =
    claim_session-Outcome digest (text "s2") 0 true (claim_by (text "b") false) (owned ∷ [])

-- Calls of two other instances.
abbrev others_call : List Call
others_call =
    mark_draining 100 (text "b")
    ∷ claiming (text "s3") 200 false
        (record (claim_by (text "c") false) { session_key_value = text "w" })
    ∷ releasing 300 (text "s1") (text "b") 1 false
    ∷ []

claim_session_exclusive_example :
    let row = (claim_session digest (text "s1") 0 false (claim_by (text "a") false) []).1 in
    (session_of digest (claim_by (text "a") false) (perform_all digest others_call (row ∷ []))
      ≡ some row)
    × (claim_session digest
          (text "s2")
          4000
          true
          (claim_by (text "b") false)
          (perform_all digest others_call (row ∷ []))
        ≡ (perform_all digest others_call (row ∷ []), row))
unfolding claim_session claim_attempt get_session
claim_session_exclusive_example =
    let row = (claim_session digest (text "s1") 0 false (claim_by (text "a") false) []).1 in
    claim_session_exclusive digest (text "s1") (text "s2") 0 4000 false true
      (claim_by (text "a") false) (claim_by (text "b") false) [] (row ∷ []) row others_call refl
      (refl, refl, refl, refl) (inr refl, tt) (refl, ((refl, refl, omega arith, refl), (refl, tt)))
      (refl, refl, refl, refl) refl (omega arith)

lookup_request_targets-register_example :
    let by_turn =
      register_turn_state digest 9 (text "s1") none (text "a") 1 (text "v") 5000 tables in
    let by_response =
      register_previous_response_id digest 9 (text "s1") none (text "a") 1 (text "v") 5000 tables in
    let by_header = register_session_header digest (text "s1") none (text "v") tables in
    ((r : SessionRecord) × (get_session_by_id (text "s1") by_turn.sessions ≡ some r)
      × (lookup_request_targets digest
            (text "q")
            (text "z")
            none
            (some (text "v"))
            none
            none
            by_turn
          ≡ some (to_lookup r)))
    × ((r : SessionRecord) × (get_session_by_id (text "s1") by_response.sessions ≡ some r)
        × (lookup_request_targets digest
              (text "q")
              (text "z")
              none
              none
              none
              (some (text "v"))
              by_response
            ≡ some (to_lookup r)))
    × (lookup_request_targets digest
          (text "q")
          (text "z")
          none
          none
          (some (text "v"))
          none
          by_header
        ≡ some (to_lookup owned))
unfolding get_session_by_id
lookup_request_targets-register_example =
    lookup_request_targets-register digest 9 5000 1 none none none (text "s1") (text "a") (text "v")
      (text "q") (text "z") tables owned refl
