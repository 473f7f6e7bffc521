-- ===== src/Lib.antt =====
-- codex-lb: the load balancer in front of ChatGPT accounts. Modelled are the parts that decide who
-- serves a request and who may make one; all paths are from the repository's root.
--
-- A request first passes the bulkhead (app/core/resilience/bulkhead.py), is charged to an API key
-- (app/modules/api_keys/service.py), and is served by an account that the balancer selects
-- (app/core/balancer/logic.py), through that account's circuit breaker
-- (app/core/resilience/circuit_breaker.py). When it fails upstream, the handlers of the balancer
-- block the account, and the retry budget (app/core/resilience/retry_budget.py) says whether another
-- try is allowed. Logins of the dashboard are counted by app/core/rate_limiter/db_rate_limiter.py.
--
-- Files:
--   Base: lists, texts as lists of code points, integers, and the minimum by a key.
--   Balancer/State, Examine, Select, Capacity: `select_account`. The states that the code changes in
--     place are returned beside the result. Select/Pool, Laws and Order hold the proofs.
--   Balancer/Events, RetryAfter: `handle_rate_limit`, `handle_quota_exceeded`,
--     `handle_permanent_failure`, `failover_decision`, and app/core/utils/retry.py.
--   Balancer/Health: `evaluate_health_tier`. Balancer/Quota: app/core/usage/quota.py.
--   Balancer/Sticky: `_select_with_stickiness` of app/modules/proxy/load_balancer.py, on the table of
--     app/modules/proxy/sticky_repository.py (Entries). Pinned and Keeps are about the account that a
--     key leads to, Returns about falling back and coming back.
--   Balancer/Runtime: what the balancer keeps of an account besides its row, and
--     `_state_from_account` (app/modules/proxy/load_balancer.py); Usage has the recorded usage, Marks
--     the handlers that mark accounts and the two writes, Recovery and Survival the proofs.
--   Resilience/CircuitBreaker: each operation as a function; Concurrent has the sections of
--     overlapping calls as steps, with the probes that app/core/clients/proxy.py loses, Laws the life of a breaker, Registry the breakers of all accounts.
--   Resilience/RetryBudget, Admission: the retry budget; the bulkhead and the backpressure middleware.
--   ApiKeys/Limits, Reset, Repository: the arithmetic of limits, and each statement to the database
--     (app/modules/api_keys/repository.py) as a function on the rows. Charges says what a list of
--     reservation items adds to the rows.
--   ApiKeys/Store: the tables, and how a key is found, validated and read again after the resets of
--     its limits; Store/Expiry has the proofs.
--   ApiKeys/Service: the calls of the service that reserve and settle. Steps is about its loops,
--     Reservations about enforcing limits, Endings and Outcomes about settling and releasing.
--   ApiKeys/Rules: the limit rows that an update makes of the rules it submits; Rules/Carry has the
--     proofs.
--   RateLimiter: the limiter of logins on the rows of its table; Window is about the counts, Wait
--     about the wait that a refused caller is told.
--   Shutdown: the flags and the counter of app/core/shutdown.py with the middleware of
--     app/core/middleware/inflight.py; Drain has the requests that come and go as steps.
--   Bridge: the table of bridge sessions that several instances share,
--     app/modules/proxy/durable_bridge_repository.py; Aliases has its aliases, Coordinator the calls
--     that a request makes (app/modules/proxy/durable_bridge_coordinator.py), Fence what calls may
--     do to owner and epoch, Stale the instance that has lost a session, Claims the claims, Kept and
--     Exclusive a granted session against the calls of others, and Lookup the aliases that are found again.
--   Balancer/QuotaKeys: the keys and aliases of additional quotas,
--     app/modules/usage/additional_quota_keys.py.
--   Balancer/Additional: the rows of additional limits (app/modules/usage/repository.py) and what they
--     say of an account; Newest is about the newest of the recent rows.
--   Balancer/Inputs: the accounts that a selection starts from, `_load_selection_inputs` of
--     app/modules/proxy/load_balancer.py: Verdicts is about the additional limit of an account, Loaded
--     about what is kept and why nothing is, Excluded about the accounts that a selection leaves out.
--     The definitions of quotas and the gated limits of models are arguments.
--   Automations: app/modules/automations/service.py. Schedule has the times, days and slots of a
--     schedule, with proofs in Days, Seek, Slots and Today; Dispatch the plan that spreads accounts over a window,
--     with proofs in Spread; Runs the cycles and runs of scheduled jobs, on the tables of
--     app/modules/automations/repository.py, with the claims of several instances in Claims and a tick of
--     run_due_jobs in Executed. What an execution comes to is an argument.
--   Scheduling: app/core/scheduling/leader_election.py; Lease is about who holds the row.
--   The files named Tests run the definitions on concrete data.
--
-- Numbers. Times are milliseconds, percentages hundredths, and weights of accounts ten-thousandths of
-- a credit, all natural numbers; what floating point rounds is not modelled, and where the code
-- subtracts, the comparison is written with a sum or the difference stops at 0 as the code's max does.
-- Negative limits, counters and times are not represented.
--
-- A time zone is a parameter, two functions between moments and what its clock shows, and the end of
-- Python's calendar is not modelled. The generator that spreads dispatches is one of lists to lists.
--
-- The clock is an argument `now`; two readings within one handler are taken to be the same. The random
-- generator's output is an argument, as are the hash of a key, the fresh reservation identifier, and
-- the price table, any function into microdollars. asyncio's semaphore is a counter, acquired
-- only when it is not locked. A lock, or the database, makes each operation or statement one step; a
-- call of the API key service is one transaction, and a rollback returns the tables as last committed.
-- A renewal or a release of a bridge session reads and commits in one step, which the code does not
-- ensure.
--
-- Fuel. The searches for a day of a schedule look at eight days, as the code does. The loop of `_advance_reset` has as much fuel as there are milliseconds to now and two more;
-- every round adds a positive window. All other loops run over lists.
--
-- Texts. Case and blanks are those of ASCII. Messages of exceptions are constructors.
--
-- Not modelled: the rest of the administration of API keys and their reports, prices, the token counts that a
-- settled reservation stores for reports, the proxy's streaming, sessions, caches, the firewall,
-- logging, HTTP and database glue, and the front end.
pub mod Base
pub mod Balancer
pub mod Resilience
pub mod ApiKeys
pub mod RateLimiter
pub mod Shutdown
pub mod Bridge
pub mod Automations
pub mod Scheduling
