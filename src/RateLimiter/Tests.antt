-- ===== src/RateLimiter/Tests.antt =====
-- Runs of the rate limiter of logins.
use codex_octopus.Base.{ℕ, ◌≤◌, ◌≡◌, refl, some, List, [], ◌∷◌, arith}
use codex_octopus.Base.Text.{text}
use codex_octopus.RateLimiter.{
  RateLimitAttempt, DatabaseRateLimiter, new_limiter, attempts, attempt_of, retry_after, allowed,
  too_many_attempts, check,
}
use codex_octopus.RateLimiter.Window.{Call, increments, run_calls, run_calls_bound}
use codex_octopus.RateLimiter.Wait.{retry_succeeds}

-- Two attempts in a minute.
abbrev logins : DatabaseRateLimiter
logins = record { max_attempts = 2; window_seconds = 60; kind = text "login" }

makes_logins : new_limiter 2 60 (text "login") ≡ some logins
unfolding new_limiter
makes_logins = refl

abbrev two_attempts : List RateLimitAttempt
two_attempts = attempt_of logins (text "ip") 10000 ∷ attempt_of logins (text "ip") 1500 ∷ []

-- The window ends at 61.5 seconds; at 20 seconds, 41 whole seconds are left.
refused_at_20 : check logins (text "ip") 20000 two_attempts ≡ too_many_attempts 41
unfolding check retry_after
refused_at_20 = refl

-- After 41 seconds, as told, the attempt is still refused.
refused_at_61 : check logins (text "ip") 61000 two_attempts ≡ too_many_attempts 1
unfolding check retry_after
refused_at_61 = refl

retry_succeeds_example : check logins (text "ip") 62000 two_attempts ≡ allowed
retry_succeeds_example =
    retry_succeeds logins (text "ip") 20000 41 62000 two_attempts (omega arith) (omega arith)
      refused_at_20 (omega arith)

abbrev three_calls : List (ℕ × Call)
three_calls =
    (500, increments (text "ip"))
    ∷ (500, increments (text "ip"))
    ∷ (500, increments (text "ip"))
    ∷ []

run_calls_bound_example :
    let (end, table) = run_calls logins 1000 three_calls [] in
    attempts logins (text "ip") end table ≤ 2
run_calls_bound_example = run_calls_bound logins 1000 three_calls (text "ip")
