-- ===== src/Balancer/RetryAfter.antt =====
-- app/core/utils/retry.py: the wait that an error message names, and the exponential backoff.
-- Results are in milliseconds; parts of a millisecond are dropped.
use codex_octopus.Base.{
  ℕ, ◌+◌, ◌-◌, ◌*◌, ◌/◌, ◌^◌, ◌≤◌, max, leb, ◌==◌, ◌≡◌, refl, Bool, false, ◌&&◌, Option, none, some,
  [], ◌∷◌, arith, if◌then◌else◌,
}
use codex_octopus.Base.Text.{Text, text, lower, is_space, strip_left, starts_with}

is_digit : ℕ → Bool
is_digit c = leb b'0' c && leb c b'9'

-- `\d+` with what was read before it, and the text behind the digits.
digits : ℕ → Text → ℕ × Text
unfolding is_digit
digits n [] = (n, [])
digits n (c ∷ s) = if is_digit c then digits (n * 10 + (c - b'0')) s else (n, c ∷ s)

-- `(?:\.\d+)?`, as the thousandths that it adds: `scale` is the worth of the next digit.
thousandths : ℕ → ℕ → Text → ℕ × Text
unfolding is_digit
thousandths n scale [] = (n, [])
thousandths n scale (c ∷ s) =
    if is_digit c then thousandths (n + (c - b'0') * scale) (scale / 10) s else (n, c ∷ s)

starts_with_digit : Text → Bool
unfolding is_digit
starts_with_digit [] = false
starts_with_digit (c ∷ s) = is_digit c

fraction : Text → ℕ × Text
unfolding thousandths starts_with_digit
fraction [] = (0, [])
fraction (c ∷ s) = if c == b'.' && starts_with_digit s then thousandths 0 100 s else (0, c ∷ s)

-- `\s*(s|ms|seconds?)`: the first alternative takes whatever begins with an s.
unit_of : ℕ → ℕ → Text → Option ℕ
unit_of whole part [] = none
unit_of whole part (c ∷ s) =
    if c == b's'
    then some (whole * 1000 + part)
    else if c == b'm' && starts_with s (text "s")
    then some whole
    else none

-- The match behind the words, on a text in lower case.
after_words : Text → Option ℕ
unfolding starts_with_digit digits fraction unit_of strip_left
after_words s =
    let number = strip_left s in
    if starts_with_digit number
    then (let (whole, rest) = digits 0 number in
        let (part, rest') = fraction rest in unit_of whole part (strip_left rest'))
    else none

drop_words : ℕ → Text → Text
drop_words ℕ.zero s = s
drop_words (ℕ.suc n) [] = []
drop_words (ℕ.suc n) (c ∷ s) = drop_words n s

-- `_RETRY_PATTERN.search`: the first place where the pattern matches.
search_pattern : Text → Option ℕ
unfolding after_words drop_words
search_pattern [] = none
search_pattern (c ∷ s) =
    let later = search_pattern s in
    if starts_with (c ∷ s) (text "try again in")
    then elim (after_words (drop_words 12 (c ∷ s))) [ some delay ↦ some delay | none ↦ later ]
    else later

unfoldable pub parse_retry_after : Text → Option ℕ
unfolding search_pattern
parse_retry_after message = search_pattern (lower message)

-- `backoff_seconds`: `jitter` is the factor drawn, in thousandths.
unfoldable pub backoff_seconds : ℕ → ℕ → ℕ
backoff_seconds jitter attempt = 200 * 2 ^ (max 1 attempt - 1) * jitter / 1000

scaled_bounds :
    (p jitter : ℕ)
    → 900 ≤ jitter
    → jitter ≤ 1100
    → (180 * p ≤ 200 * p * jitter / 1000) × (200 * p * jitter / 1000 ≤ 220 * p)
scaled_bounds p jitter lo hi =
    let below : p * 900 ≤ p * jitter = grind arith in
    let above : p * jitter ≤ p * 1100 = grind arith in (omega arith, omega arith)

-- A jitter within its range keeps the backoff within a tenth of the exponential delay.
pub backoff_seconds_bounds :
    (jitter attempt : ℕ)
    → 900 ≤ jitter
    → jitter ≤ 1100
    → (180 * 2 ^ (max 1 attempt - 1) ≤ backoff_seconds jitter attempt)
      × (backoff_seconds jitter attempt ≤ 220 * 2 ^ (max 1 attempt - 1))
unfolding backoff_seconds
backoff_seconds_bounds jitter attempt lo hi = scaled_bounds (2 ^ (max 1 attempt - 1)) jitter lo hi

parses : parse_retry_after (text "Rate limit. Please Try again in 1.5s.") ≡ some 1500
unfolding parse_retry_after lower is_space
parses = refl

parses_ms : parse_retry_after (text "try again in  250 ms") ≡ some 250
unfolding parse_retry_after lower is_space
parses_ms = refl

parses_none : parse_retry_after (text "try again in a while, try again in 7seconds") ≡ some 7000
unfolding parse_retry_after lower is_space
parses_none = refl
