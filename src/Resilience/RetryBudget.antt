-- ===== src/Resilience/RetryBudget.antt =====
-- app/core/resilience/retry_budget.py: at most so many retries in a sliding window. The clock is the
-- argument `now`, in milliseconds; the lock makes each operation atomic.
pub mod Window
use codex_octopus.Base.{
  Option, none, some, ℕ, ◌+◌, ◌-◌, ltb, leb, Bool, true, false, List, [], ◌∷◌, ◌++◌, if◌then◌else◌,
  length, filter,
}
use codex_octopus.Balancer.State.{seconds}

-- The oldest timestamp first.
pub record RetryBudget : Type 0 where
  pub max_retries : ℕ
  pub window_seconds : ℕ
  pub retry_timestamps : List ℕ

-- `timestamp >= cutoff`, with the window moved to the other side of the comparison.
abbrev pub is_recent : ℕ → ℕ → ℕ → Bool
is_recent window now timestamp = leb now (timestamp + window)

-- The `while` loop that pops the expired timestamps from the left.
unfoldable pub pop_expired : ℕ → ℕ → List ℕ → List ℕ
pop_expired window now [] = []
pop_expired window now (t ∷ rest) =
    let popped = pop_expired window now rest in if ltb (t + window) now then popped else t ∷ rest

unfoldable pub try_acquire : ℕ → RetryBudget → RetryBudget × Bool
unfolding pop_expired
try_acquire now b =
    let kept = pop_expired (seconds b.window_seconds) now b.retry_timestamps in
    if leb b.max_retries (length kept)
    then (record b { retry_timestamps = kept }, false)
    else (record b { retry_timestamps = kept ++ (now ∷ []) }, true)

-- `max(0, self.max_retries - recent)`
unfoldable pub remaining : ℕ → RetryBudget → ℕ
remaining now b =
    b.max_retries - length (filter (is_recent (seconds b.window_seconds) now) b.retry_timestamps)

-- `get_retry_budget`: the module's one budget, made with the defaults when it is first asked for.
unfoldable pub get_retry_budget : Option RetryBudget → RetryBudget
get_retry_budget (some kept) = kept
get_retry_budget none = record { max_retries = 100; window_seconds = 60; retry_timestamps = [] }
