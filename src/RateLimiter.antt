-- ===== src/RateLimiter.antt =====
-- app/core/rate_limiter/db_rate_limiter.py on the rows of the attempts table. Times are in
-- milliseconds. A statement runs alone: PostgreSQL's advisory lock and SQLite's single writer see to
-- it, so each method is one step.
pub mod Window
pub mod Wait
mod Tests
use codex_octopus.Base.{
  ℕ, ◌+◌, ◌-◌, ◌*◌, ◌/◌, max, min, ltb, leb, Bool, true, false, not, ◌&&◌, Option, none, some, List,
  [], ◌∷◌, ◌++◌, if◌then◌else◌, length, filter,
}
use codex_octopus.Base.Text.{Text, text_eq}
use codex_octopus.Balancer.State.{seconds}

pub record RateLimitAttempt : Type 0 where
  pub key : Text
  pub kind : Text
  pub attempted_at : ℕ

-- `kind` is the code's `type`.
pub record DatabaseRateLimiter : Type 0 where
  pub max_attempts : ℕ
  pub window_seconds : ℕ
  pub kind : Text

-- `__init__`, which raises for a number that is not positive.
unfoldable pub new_limiter : ℕ → ℕ → Text → Option DatabaseRateLimiter
new_limiter max_attempts window_seconds kind =
    if leb max_attempts 0
    then none
    else if leb window_seconds 0
    then none
    else some (record { max_attempts = max_attempts; window_seconds = window_seconds; kind = kind })

abbrev pub is_of : DatabaseRateLimiter → Text → RateLimitAttempt → Bool
is_of limiter key a = text_eq a.key key && text_eq a.kind limiter.kind

-- The rows that every method counts: `attempted_at >= window_start`, with the window moved to the
-- other side of the comparison.
abbrev pub counts : DatabaseRateLimiter → Text → ℕ → RateLimitAttempt → Bool
counts limiter key now a =
    is_of limiter key a && leb now (a.attempted_at + seconds limiter.window_seconds)

abbrev pub in_window :
    DatabaseRateLimiter → Text → ℕ → List RateLimitAttempt → List RateLimitAttempt
in_window limiter key now table = filter (counts limiter key now) table

abbrev pub attempts : DatabaseRateLimiter → Text → ℕ → List RateLimitAttempt → ℕ
attempts limiter key now table = length (in_window limiter key now table)

-- `ORDER BY attempted_at ASC LIMIT 1`
abbrev pub oldest : List RateLimitAttempt → Option ℕ
oldest [] = none
oldest (a ∷ rest) = elim (oldest rest) [
  | none ↦ some a.attempted_at
  | some at ↦ some (min a.attempted_at at)
]

-- `max(1, int((reset_at - now).total_seconds()))`, or the window if there is no attempt.
unfoldable pub retry_after : DatabaseRateLimiter → ℕ → Option ℕ → ℕ
retry_after limiter now none = limiter.window_seconds
retry_after limiter now (some at) = max 1 ((at + seconds limiter.window_seconds - now) / 1000)

-- Whether the method returns, or raises with the seconds to wait.
pub data Limited : Type 0 where
  allowed : Limited
  too_many_attempts : ℕ → Limited

abbrev pub refusal : DatabaseRateLimiter → Text → ℕ → List RateLimitAttempt → Limited
refusal limiter key now table =
    too_many_attempts (retry_after limiter now (oldest (in_window limiter key now table)))

abbrev pub attempt_of : DatabaseRateLimiter → Text → ℕ → RateLimitAttempt
attempt_of limiter key now = record { key = key; kind = limiter.kind; attempted_at = now }

unfoldable pub check : DatabaseRateLimiter → Text → ℕ → List RateLimitAttempt → Limited
unfolding retry_after
check limiter key now table =
    if leb limiter.max_attempts (attempts limiter key now table)
    then refusal limiter key now table
    else allowed

-- `INSERT ... SELECT ... WHERE (SELECT count(*) ...) < max_attempts`
unfoldable pub check_and_increment :
    DatabaseRateLimiter → Text → ℕ → List RateLimitAttempt → List RateLimitAttempt × Limited
unfolding retry_after
check_and_increment limiter key now table =
    if ltb (attempts limiter key now table) limiter.max_attempts
    then (attempt_of limiter key now ∷ table, allowed)
    else (table, refusal limiter key now table)

-- `record_failure`: the attempt is inserted first, and counted.
unfoldable pub record_failure :
    DatabaseRateLimiter → Text → ℕ → List RateLimitAttempt → List RateLimitAttempt × Limited
unfolding retry_after
record_failure limiter key now table =
    let after = attempt_of limiter key now ∷ table in
    (
      after,
      if ltb limiter.max_attempts (attempts limiter key now after)
          then refusal limiter key now after
          else allowed,
    )

unfoldable pub clear_for_key :
    DatabaseRateLimiter → Text → List RateLimitAttempt → List RateLimitAttempt
clear_for_key limiter key table = filter (λ a. not (is_of limiter key a)) table

-- `check_and_record`: the attempts are counted first, and the new one is inserted in any case.
unfoldable pub check_and_record :
    DatabaseRateLimiter → Text → ℕ → List RateLimitAttempt → List RateLimitAttempt × Limited
unfolding check
check_and_record limiter key now table =
    (attempt_of limiter key now ∷ table, check limiter key now table)

-- `cleanup` of the attempts older than so many seconds.
unfoldable pub cleanup : ℕ → ℕ → List RateLimitAttempt → List RateLimitAttempt
cleanup now older_than_seconds table =
    filter (λ a. leb now (a.attempted_at + seconds older_than_seconds)) table
