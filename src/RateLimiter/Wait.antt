-- ===== src/RateLimiter/Wait.antt =====
-- How long a refused caller is told to wait, and what comes of it.
use codex_octopus.Base.{
  ℕ, ◌+◌, ◌≤◌, ◌<◌, min, ◌≡◌, refl, inl, inr, some, List, [], ◌∷◌, arith, length, Option-cases,
}
use codex_octopus.Base.Text.{Text}
use codex_octopus.Balancer.State.{seconds}
use codex_octopus.RateLimiter.{
  RateLimitAttempt, DatabaseRateLimiter, in_window, attempts, oldest, retry_after, allowed,
  too_many_attempts, check,
}
use codex_octopus.RateLimiter.Window.{attempts_later}

oldest-counts :
    (limiter : DatabaseRateLimiter) (key : Text) (now at : ℕ) (table : List RateLimitAttempt)
    → oldest (in_window limiter key now table) ≡ some at
    → now ≤ at + seconds limiter.window_seconds
oldest-counts limiter key now at [] e = ground arith
oldest-counts limiter key now at (a ∷ rest) e =
    elim (Option-cases (oldest (in_window limiter key now rest))) [
      | inl nothing ↦ ground arith
      | inr (m, found) ↦ ground (arith, oldest-counts limiter key now m rest found)
    ]

oldest_past :
    (limiter : DatabaseRateLimiter) (key : Text) (now later at : ℕ) (table : List RateLimitAttempt)
    → now ≤ later
    → oldest (in_window limiter key now table) ≡ some at
    → at + seconds limiter.window_seconds < later
    → attempts limiter key later table < attempts limiter key now table
oldest_past limiter key now later at [] h e l = ground arith
oldest_past limiter key now later at (a ∷ rest) h e l =
    elim (Option-cases (oldest (in_window limiter key now rest))) [
      | inl nothing ↦ ground (arith, attempts_later limiter key now later rest h)
      | inr (m, found) ↦ ground (
        arith,
        attempts_later limiter key now later rest h,
        oldest_past limiter key now later m rest h found,
      )
    ]

oldest-some :
    (attempts : List RateLimitAttempt)
    → 0 < length attempts
    → (at : ℕ) × (oldest attempts ≡ some at)
oldest-some [] h = absurd (omega arith)
oldest-some (a ∷ rest) h = elim (Option-cases (oldest rest)) [
  | inl nothing ↦ (a.attempted_at, rw nothing refl)
  | inr (m, found) ↦ (min a.attempted_at m, rw found refl)
]

waits_long_enough :
    (limiter : DatabaseRateLimiter) (now at s later : ℕ)
    → retry_after limiter now (some at) ≡ s
    → now + seconds (s + 1) ≤ later
    → at + seconds limiter.window_seconds < later
unfolding retry_after
waits_long_enough limiter now at s later e l = omega arith

refused_full :
    (limiter : DatabaseRateLimiter) (key : Text) (now s : ℕ) (table : List RateLimitAttempt)
    → check limiter key now table ≡ too_many_attempts s
    → (limiter.max_attempts ≤ attempts limiter key now table)
      × (retry_after limiter now (oldest (in_window limiter key now table)) ≡ s)
unfolding check
refused_full limiter key now s table e = ground arith

-- Whoever is refused and waits one second longer than he is told is let through, if nothing else is
-- recorded meanwhile: given a limiter that allows some attempts and a table with no more of them in
-- the window than allowed, a refusal with a wait of s seconds is followed by none from s + 1 seconds
-- on. The extra second is for the fraction that the code cuts off.
pub retry_succeeds :
    (limiter : DatabaseRateLimiter) (key : Text) (now s later : ℕ) (table : List RateLimitAttempt)
    → 0 < limiter.max_attempts
    → attempts limiter key now table ≤ limiter.max_attempts
    → check limiter key now table ≡ too_many_attempts s
    → now + seconds (s + 1) ≤ later
    → check limiter key later table ≡ allowed
unfolding check
retry_succeeds limiter key now s later table p b e l =
    let (full, wait) = refused_full limiter key now s table e in
    let (at, found) = oldest-some (in_window limiter key now table) (omega (arith, full, p)) in
    let past = waits_long_enough limiter now at s later (rw found at wait) l in
    let fewer = oldest_past limiter key now later at table (omega arith) found past in
    ground (arith, fewer, b)
