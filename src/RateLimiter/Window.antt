-- ===== src/RateLimiter/Window.antt =====
-- What the methods of the limiter make of the attempts within the window.
use codex_octopus.Base.{
  ℕ, ◌+◌, ◌≤◌, ◌<◌, ltb, leb, ◌≡◌, ◌↔◌, refl, sym, subst, inl, inr, Bool, true, false, not, List,
  [], ◌∷◌, arith, if◌then◌else◌, filter, Bool-cases,
}
use codex_octopus.Base.Text.{Text, text_eq, text_eq_refl, eq_of_text_eq}
use codex_octopus.Balancer.State.{seconds}
use codex_octopus.RateLimiter.{
  RateLimitAttempt, DatabaseRateLimiter, is_of, counts, attempts, allowed, attempt_of, check,
  check_and_increment, record_failure, clear_for_key, check_and_record, cleanup,
}

-- Time takes attempts out of the window and brings none in.
pub attempts_later :
    (limiter : DatabaseRateLimiter) (key : Text) (before now : ℕ) (table : List RateLimitAttempt)
    → before ≤ now
    → attempts limiter key now table ≤ attempts limiter key before table
attempts_later limiter key before now [] h = omega arith
attempts_later limiter key before now (a ∷ rest) h =
    ground (arith, attempts_later limiter key before now rest h)

counts_new :
    (limiter : DatabaseRateLimiter) (key : Text) (now : ℕ)
    → counts limiter key now (attempt_of limiter key now) ≡ true
counts_new limiter key now = ground (arith, text_eq_refl key, text_eq_refl limiter.kind)

-- One attempt counts for its own key, and adds at most one to any.
attempts_new :
    (limiter : DatabaseRateLimiter) (key : Text) (now : ℕ) (table : List RateLimitAttempt)
    → attempts limiter key now (attempt_of limiter key now ∷ table)
      ≡ attempts limiter key now table + 1
attempts_new limiter key now table = ground (arith, counts_new limiter key now)

-- No key has more attempts in the window than the limiter allows.
abbrev pub IsBounded : DatabaseRateLimiter → ℕ → List RateLimitAttempt → Type 0
IsBounded limiter now table = (key : Text) → attempts limiter key now table ≤ limiter.max_attempts

-- A refused attempt leaves the table as it is, and an attempt that is let through adds one row which
-- counts for its key; it is let through exactly if fewer than the maximum lie in the window.
pub check_and_increment_iff :
    (limiter : DatabaseRateLimiter) (key : Text) (now : ℕ) (table : List RateLimitAttempt)
    → let (after, result) = check_and_increment limiter key now table in
      ((result ≡ allowed) ↔ (attempts limiter key now table < limiter.max_attempts))
      × (attempts limiter key now after ≡ (
          if ltb (attempts limiter key now table) limiter.max_attempts
          then attempts limiter key now table + 1
          else attempts limiter key now table))
unfolding check_and_increment
check_and_increment_iff limiter key now table = ground (arith, attempts_new limiter key now table)

other_key :
    (limiter : DatabaseRateLimiter) (key other : Text) (now : ℕ) (table : List RateLimitAttempt)
    → text_eq key other ≡ false
    → attempts limiter other now (attempt_of limiter key now ∷ table)
      ≡ attempts limiter other now table
other_key limiter key other now table e = rw e refl

check_and_increment-IsBounded :
    (limiter : DatabaseRateLimiter) (key : Text) (before now : ℕ) (table : List RateLimitAttempt)
    → before ≤ now
    → IsBounded limiter before table
    → IsBounded limiter now (check_and_increment limiter key now table).0
unfolding check_and_increment
check_and_increment-IsBounded limiter key before now table h b other =
    elim (Bool-cases (text_eq key other)) [
      | inl same ↦
          subst
            (λ k.
              attempts limiter k now (check_and_increment limiter key now table).0
              ≤ limiter.max_attempts)
            (eq_of_text_eq key other same)
            (ground (
              arith,
              attempts_new limiter key now table,
              b key,
              attempts_later limiter key before now table h,
            ))
      | inr apart ↦ ground (
        arith,
        other_key limiter key other now table apart,
        b other,
        attempts_later limiter other before now table h,
      )
    ]

attempts-filter :
    (limiter : DatabaseRateLimiter) (p : RateLimitAttempt → Bool) (key : Text) (now : ℕ)
    (table : List RateLimitAttempt)
    → attempts limiter key now (filter p table) ≤ attempts limiter key now table
attempts-filter limiter p key now [] = omega arith
attempts-filter limiter p key now (a ∷ rest) =
    ground (arith, attempts-filter limiter p key now rest)

-- The calls of a login that is guarded by `check_and_increment` and cleared when it succeeds.
pub data Call : Type 0 where
  increments clears : Text → Call
  cleans : ℕ → Call

pub run_call : DatabaseRateLimiter → ℕ → Call → List RateLimitAttempt → List RateLimitAttempt
run_call limiter now (increments key) table = (check_and_increment limiter key now table).0
run_call limiter now (clears key) table = clear_for_key limiter key table
run_call limiter now (cleans older_than_seconds) table = cleanup now older_than_seconds table

run_call-IsBounded :
    (limiter : DatabaseRateLimiter) (call : Call) (before now : ℕ) (table : List RateLimitAttempt)
    → before ≤ now
    → IsBounded limiter before table
    → IsBounded limiter now (run_call limiter now call table)
unfolding run_call clear_for_key cleanup
run_call-IsBounded limiter (increments key) before now table h b other =
    check_and_increment-IsBounded limiter key before now table h b other
run_call-IsBounded limiter (clears key) before now table h b other = omega (
  arith,
  b other,
  attempts_later limiter other before now table h,
  attempts-filter limiter (λ a. not (is_of limiter key a)) other now table,
)
run_call-IsBounded limiter (cleans s) before now table h b other = omega (
  arith,
  b other,
  attempts_later limiter other before now table h,
  attempts-filter limiter (λ a. leb now (a.attempted_at + seconds s)) other now table,
)

-- Calls at times that do not go back: each comes some milliseconds after the one before.
pub run_calls :
    DatabaseRateLimiter → ℕ → List (ℕ × Call) → List RateLimitAttempt → ℕ × List RateLimitAttempt
run_calls limiter now [] table = (now, table)
run_calls limiter now ((wait, call) ∷ rest) table =
    run_calls limiter (now + wait) rest (run_call limiter (now + wait) call table)

-- After any calls for any keys on an empty table, no key has more attempts within the window that
-- ends at the last call than the limiter allows.
pub run_calls_bound :
    (limiter : DatabaseRateLimiter) (now : ℕ) (calls : List (ℕ × Call)) (key : Text)
    → let (end, table) = run_calls limiter now calls [] in
      attempts limiter key end table ≤ limiter.max_attempts
unfolding run_calls
run_calls_bound limiter now calls key = bounded now calls [] (λ k. omega arith) key
  where
    bounded :
        (from : ℕ) (later : List (ℕ × Call)) (table : List RateLimitAttempt)
        → IsBounded limiter from table
        → let (end, after) = run_calls limiter from later table in IsBounded limiter end after
    bounded from [] table b = b
    bounded from ((wait, call) ∷ rest) table b =
        bounded (from + wait) rest _
          (run_call-IsBounded limiter call from (from + wait) table (omega arith) b)

cleared :
    (limiter : DatabaseRateLimiter) (key : Text) (now : ℕ) (table : List RateLimitAttempt)
    → attempts limiter key now (clear_for_key limiter key table) ≡ 0
unfolding clear_for_key
cleared limiter key now [] = refl
cleared limiter key now (a ∷ rest) = ground (arith, cleared limiter key now rest)

apart :
    (key other k : Text)
    → text_eq key other ≡ false
    → text_eq k key ≡ true
    → text_eq k other ≡ false
apart key other k e same = subst (λ x. text_eq x other ≡ false) (sym (eq_of_text_eq k key same)) e

not_cleared :
    (limiter : DatabaseRateLimiter) (key other : Text) (now : ℕ) (table : List RateLimitAttempt)
    → text_eq key other ≡ false
    → attempts limiter other now (clear_for_key limiter key table)
      ≡ attempts limiter other now table
unfolding clear_for_key
not_cleared limiter key other now [] e = refl
not_cleared limiter key other now (a ∷ rest) e =
    ground (arith, apart key other a.key e, not_cleared limiter key other now rest e)

-- Clearing a key leaves it no attempts, and does not change the count of any other key.
pub clear_for_key_counts :
    (limiter : DatabaseRateLimiter) (key other : Text) (now : ℕ) (table : List RateLimitAttempt)
    → attempts limiter other now (clear_for_key limiter key table)
      ≡ (if text_eq key other then 0 else attempts limiter other now table)
clear_for_key_counts limiter key other now table = elim (Bool-cases (text_eq key other)) [
  | inl same ↦ rw same (
      subst (λ k. attempts limiter k now (clear_for_key limiter key table) ≡ 0)
        (eq_of_text_eq key other same) (cleared limiter key now table))
  | inr e ↦ rw e (not_cleared limiter key other now table e)
]

-- Cleaning up no younger attempts than the window is long changes no count.
pub cleanup_counts :
    (limiter : DatabaseRateLimiter) (key : Text) (now older_than_seconds : ℕ)
    (table : List RateLimitAttempt)
    → limiter.window_seconds ≤ older_than_seconds
    → attempts limiter key now (cleanup now older_than_seconds table)
      ≡ attempts limiter key now table
unfolding cleanup
cleanup_counts limiter key now older_than_seconds [] h = refl
cleanup_counts limiter key now older_than_seconds (a ∷ rest) h =
    ground (arith, cleanup_counts limiter key now older_than_seconds rest h)

-- The methods agree on who is let through: the check alone, the check with the insertion, the
-- insertion that counts afterwards and the one that counts before all refuse the same calls.
pub methods_agree :
    (limiter : DatabaseRateLimiter) (key : Text) (now : ℕ) (table : List RateLimitAttempt)
    → ((check limiter key now table ≡ allowed)
        ↔ ((check_and_increment limiter key now table).1 ≡ allowed))
      × ((check limiter key now table ≡ allowed)
          ↔ ((record_failure limiter key now table).1 ≡ allowed))
      × ((check_and_record limiter key now table).1 ≡ check limiter key now table)
unfolding check check_and_increment record_failure check_and_record
methods_agree limiter key now table = ground (arith, attempts_new limiter key now table)
