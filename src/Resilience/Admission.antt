-- ===== src/Resilience/Admission.antt =====
-- Admission of requests: app/core/resilience/bulkhead.py, backpressure.py and the path tests and
-- denials of overload.py. `Semaphore` is asyncio's, of which the middlewares use the counter: they
-- acquire only after `locked()` has said no, and nothing runs in between.
pub mod Lanes
use codex_octopus.Base.{
  ℕ, suc, ◌+◌, ◌-◌, min, leb, ◌==◌, Bool, true, false, ◌&&◌, ◌||◌, Option, none, some, get_or, List,
  [], ◌∷◌, if◌then◌else◌,
}
use codex_octopus.Base.Text.{Text, text, starts_with, ends_with, text_eq}

-- The counter of a semaphore: `locked()`, `acquire()`, `release()`.
abbrev pub is_locked : ℕ → Bool
is_locked value = value == 0

abbrev pub acquire : ℕ → ℕ
acquire value = value - 1

abbrev pub release : ℕ → ℕ
release value = value + 1

-- `is_proxy_path`
unfoldable pub is_proxy_path : Text → Bool
is_proxy_path path = starts_with path (text "/v1/") || starts_with path (text "/backend-api/")

-- `_is_compact_path`
unfoldable pub is_compact_path : Text → Bool
is_compact_path path = ends_with path (text "/responses/compact")

-- `scope["type"]`
pub data ScopeType : Type 0 where
  http websocket other_scope : ScopeType

pub data Lane : Type 0 where
  proxy_http proxy_websocket proxy_compact dashboard : Lane

-- `Semaphore(limit) if limit > 0 else None`
abbrev pub semaphore : ℕ → Option ℕ
semaphore limit = if limit == 0 then none else some limit

pub record BulkheadSemaphore : Type 0 where
  pub http_lane : Option ℕ
  pub websocket_lane : Option ℕ
  pub compact_lane : Option ℕ
  pub dashboard_lane : Option ℕ
  pub background_lane : Option ℕ

-- The keyword arguments of `BulkheadSemaphore.__init__`.
pub record Limits : Type 0 where
  pub proxy_limit : Option ℕ
  pub dashboard_limit : ℕ
  pub background_limit : ℕ
  pub proxy_http_limit : Option ℕ
  pub proxy_websocket_limit : Option ℕ
  pub proxy_compact_limit : Option ℕ

unfoldable pub new_bulkhead : Limits → BulkheadSemaphore
new_bulkhead l =
    let resolved_proxy_limit = get_or l.proxy_limit 200 in
    let resolved_proxy_http_limit = get_or l.proxy_http_limit resolved_proxy_limit in
    let resolved_proxy_websocket_limit = get_or l.proxy_websocket_limit resolved_proxy_limit in
    let resolved_proxy_compact_limit =
      get_or l.proxy_compact_limit
        (if resolved_proxy_http_limit == 0 then 0 else min resolved_proxy_http_limit 16) in
    record {
      http_lane = semaphore resolved_proxy_http_limit;
      websocket_lane = semaphore resolved_proxy_websocket_limit;
      compact_lane = semaphore resolved_proxy_compact_limit;
      dashboard_lane = semaphore l.dashboard_limit;
      background_lane = semaphore l.background_limit;
    }

-- `get_bulkhead`: the module's one bulkhead, made with these limits when it is first asked for.
unfoldable pub get_bulkhead : ℕ → ℕ → Option ℕ → ℕ → Option BulkheadSemaphore → BulkheadSemaphore
unfolding new_bulkhead
get_bulkhead proxy_http_limit proxy_websocket_limit proxy_compact_limit dashboard_limit
      (some kept) =
    kept
get_bulkhead proxy_http_limit proxy_websocket_limit proxy_compact_limit dashboard_limit none =
    new_bulkhead (record {
      proxy_limit = none;
      dashboard_limit = dashboard_limit;
      background_limit = 10;
      proxy_http_limit = some proxy_http_limit;
      proxy_websocket_limit = some proxy_websocket_limit;
      proxy_compact_limit = proxy_compact_limit;
    })

abbrev pub is_http : ScopeType → Bool
is_http http = true
is_http _ = false

abbrev pub is_websocket : ScopeType → Bool
is_websocket websocket = true
is_websocket _ = false

-- The lane of `get_semaphore`.
unfoldable pub lane_of : ScopeType → Text → Lane
lane_of scope_type path =
    if is_websocket scope_type && is_proxy_path path
    then proxy_websocket
    else if is_http scope_type && is_compact_path path
    then proxy_compact
    else if is_http scope_type && is_proxy_path path
    then proxy_http
    else dashboard

abbrev pub semaphore_of : Lane → BulkheadSemaphore → Option ℕ
semaphore_of proxy_http b = b.http_lane
semaphore_of proxy_websocket b = b.websocket_lane
semaphore_of proxy_compact b = b.compact_lane
semaphore_of dashboard b = b.dashboard_lane

-- An operation on the semaphore object of a lane.
abbrev pub with_semaphore : Lane → Option ℕ → BulkheadSemaphore → BulkheadSemaphore
with_semaphore proxy_http v b = record b { http_lane = v }
with_semaphore proxy_websocket v b = record b { websocket_lane = v }
with_semaphore proxy_compact v b = record b { compact_lane = v }
with_semaphore dashboard v b = record b { dashboard_lane = v }

-- A denial: as a reply to the websocket handshake or a plain one, its status, and whether its body is
-- the API's error envelope. The Retry-After header is always there.
pub record Denial : Type 0 where
  pub to_websocket : Bool
  pub status_code : ℕ
  pub error_envelope : Bool

pub data Entry : Type 0 where
  unguarded : Entry
  entered : Lane → Entry
  denied : Denial → Entry

abbrev pub denial : ScopeType → Text → ℕ → Entry
denial scope_type path status_code = denied (record {
  to_websocket = is_websocket scope_type;
  status_code = status_code;
  error_envelope = is_proxy_path path;
})

-- The acquisition of a lane's semaphore, where there is one.
unfoldable pub enter_lane : Lane → ScopeType → Text → BulkheadSemaphore → BulkheadSemaphore × Entry
enter_lane lane scope_type path b = elim (semaphore_of lane b) [
  | none ↦ (b, unguarded)
  | some value ↦
      if is_locked value
      then (b, denial scope_type path 429)
      else (with_semaphore lane (some (acquire value)) b, entered lane)
]

-- `BulkheadMiddleware.__call__` up to the call of the application; `is_memory_pressure` is what the
-- memory monitor says.
unfoldable pub bulkhead_enter :
    Bool → ScopeType → Text → BulkheadSemaphore → BulkheadSemaphore × Entry
unfolding enter_lane
bulkhead_enter is_memory_pressure other_scope path b = (b, unguarded)
bulkhead_enter is_memory_pressure scope_type path b =
    if starts_with path (text "/health")
    then (b, unguarded)
    else if is_memory_pressure
    then (b, denial scope_type path 503)
    else enter_lane (lane_of scope_type path) scope_type path b

-- Its `finally`.
unfoldable pub bulkhead_exit : Lane → BulkheadSemaphore → BulkheadSemaphore
bulkhead_exit lane b = elim (semaphore_of lane b) [
  | none ↦ b
  | some value ↦ with_semaphore lane (some (release value)) b
]

-- `BackpressureMiddleware.__call__` on its one semaphore; the lane of an entry means nothing here.
pub data Pressure : Type 0 where
  bypassed admitted : Pressure
  overloaded : Denial → Pressure

unfoldable pub backpressure_enter : ScopeType → Text → ℕ → ℕ × Pressure
backpressure_enter other_scope path value = (value, bypassed)
backpressure_enter scope_type path value =
    if starts_with path (text "/health")
    then (value, bypassed)
    else if is_locked value
    then (
      value,
      overloaded (record {
        to_websocket = is_websocket scope_type;
        status_code = 429;
        error_envelope = is_proxy_path path;
      }),
    )
    else (acquire value, admitted)

unfoldable pub backpressure_exit : ℕ → ℕ
backpressure_exit value = release value
