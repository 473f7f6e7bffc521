-- ===== src/Resilience/RetryBudget/Window.antt =====
-- The deque against the list of all retries ever granted.
use codex_octopus.Base.{
  ℕ, ◌+◌, ◌-◌, ◌≤◌, ltb, leb, ◌≡◌, refl, ◌∙◌, ap, sym, inl, inr, Bool, true, false, List, [], ◌∷◌,
  ◌++◌, arith, if◌then◌else◌, length, length-append, filter, All, Bool-cases,
}
use codex_octopus.Balancer.State.{seconds}
use codex_octopus.Resilience.RetryBudget.{
  RetryBudget, is_recent, pop_expired, try_acquire, remaining,
}

abbrev pub IsAscending : List ℕ → Type 0
IsAscending [] = Unit {0}
IsAscending (t ∷ rest) = All (λ u. t ≤ u) rest × IsAscending rest

filter-All :
    (window now t : ℕ) (rest : List ℕ)
    → now ≤ t + window
    → All (λ u. t ≤ u) rest
    → filter (is_recent window now) rest ≡ rest
filter-All window now t [] h a = refl
filter-All window now t (u ∷ rest) h a = ground (arith, filter-All window now t rest h a.1)

pop_expired-eq-filter :
    (window now : ℕ) (ts : List ℕ)
    → IsAscending ts
    → pop_expired window now ts ≡ filter (is_recent window now) ts
unfolding pop_expired
pop_expired-eq-filter window now [] a = refl
pop_expired-eq-filter window now (t ∷ rest) a =
    ground (arith, pop_expired-eq-filter window now rest a.1, filter-All window now t rest)

filter_again :
    (window before now : ℕ) (ts : List ℕ)
    → before ≤ now
    → filter (is_recent window now) (filter (is_recent window before) ts)
      ≡ filter (is_recent window now) ts
filter_again window before now [] h = refl
filter_again window before now (t ∷ rest) h = ground (arith, filter_again window before now rest h)

All-filter :
    (window now t : ℕ) (ts : List ℕ)
    → All (λ u. t ≤ u) ts
    → All (λ u. t ≤ u) (filter (is_recent window now) ts)
All-filter window now t [] a = tt
All-filter window now t (u ∷ rest) a = ground (arith, All-filter window now t rest a.1)

filter-IsAscending :
    (window now : ℕ) (ts : List ℕ) → IsAscending ts → IsAscending (filter (is_recent window now) ts)
filter-IsAscending window now [] a = tt
filter-IsAscending window now (t ∷ rest) a =
    ground (arith, All-filter window now t rest a.0, filter-IsAscending window now rest a.1)

filter-append_now :
    (window now : ℕ) (ts : List ℕ)
    → filter (is_recent window now) (ts ++ (now ∷ []))
      ≡ filter (is_recent window now) ts ++ (now ∷ [])
filter-append_now window now [] = ground arith
filter-append_now window now (t ∷ rest) = ground (arith, filter-append_now window now rest)

All-snoc :
    (t now : ℕ) (ts : List ℕ) → All (λ u. t ≤ u) ts → t ≤ now → All (λ u. t ≤ u) (ts ++ (now ∷ []))
All-snoc t now [] a h = (h, tt)
All-snoc t now (u ∷ rest) a h = (a.0, All-snoc t now rest a.1 h)

IsAscending-snoc :
    (now : ℕ) (ts : List ℕ)
    → IsAscending ts
    → All (λ t. t ≤ now) ts
    → IsAscending (ts ++ (now ∷ []))
IsAscending-snoc now [] a b = (tt, tt)
IsAscending-snoc now (t ∷ rest) a b =
    (All-snoc t now rest a.0 b.0, IsAscending-snoc now rest a.1 b.1)

All-mono :
    (before now : ℕ) (ts : List ℕ) → before ≤ now → All (λ t. t ≤ before) ts → All (λ t. t ≤ now) ts
All-mono before now [] h a = tt
All-mono before now (t ∷ rest) h a = (omega arith, All-mono before now rest h a.1)

All-snoc_self :
    (now : ℕ) (ts : List ℕ) → All (λ t. t ≤ now) ts → All (λ t. t ≤ now) (ts ++ (now ∷ []))
All-snoc_self now [] a = (omega arith, tt)
All-snoc_self now (t ∷ rest) a = (a.0, All-snoc_self now rest a.1)

-- The deque holds the granted retries that were recent when it was last used.
pub record Tracks (used_at : ℕ) (granted : List ℕ) (b : RetryBudget) : Type 0 where
  pub ascending : IsAscending granted
  pub past : All (λ t. t ≤ used_at) granted
  pub holds : b.retry_timestamps ≡ filter (is_recent (seconds b.window_seconds) used_at) granted

-- How many of the granted retries lie within the window that ends now.
abbrev pub in_window : ℕ → RetryBudget → List ℕ → ℕ
in_window now b granted = length (filter (is_recent (seconds b.window_seconds) now) granted)

kept-eq-filter :
    (used_at now : ℕ) (granted : List ℕ) (b : RetryBudget)
    → used_at ≤ now
    → Tracks used_at granted b
    → pop_expired (seconds b.window_seconds) now b.retry_timestamps
      ≡ filter (is_recent (seconds b.window_seconds) now) granted
kept-eq-filter used_at now granted b h v = rw v.holds (
    pop_expired-eq-filter _ now _ (filter-IsAscending _ used_at granted v.ascending)
    ∙ filter_again _ used_at now granted h)

-- The result over the timestamps that are kept.
abbrev acquire_from : ℕ → RetryBudget → List ℕ → RetryBudget × Bool
acquire_from now b kept =
    if leb b.max_retries (length kept)
    then (record b { retry_timestamps = kept }, false)
    else (record b { retry_timestamps = kept ++ (now ∷ []) }, true)

-- A retry is granted exactly if fewer than the maximum were granted within the window, whatever the
-- deque has forgotten; and the deque goes on tracking the grants.
pub try_acquire-Tracks :
    (used_at now : ℕ) (granted : List ℕ) (b : RetryBudget)
    → used_at ≤ now
    → Tracks used_at granted b
    → let (b', success) = try_acquire now b in
      (success ≡ ltb (in_window now b granted) b.max_retries)
      × Tracks now (if success then granted ++ (now ∷ []) else granted) b'
unfolding try_acquire
try_acquire-Tracks used_at now granted b h v =
    let recent = filter (is_recent (seconds b.window_seconds) now) granted in
    let run : try_acquire now b ≡ acquire_from now b recent =
      ap (acquire_from now b) (kept-eq-filter used_at now granted b h v) in
    let past = All-mono used_at now granted h v.past in
    elim (Bool-cases (leb b.max_retries (length recent))) [
      | inl full ↦
          let refused : try_acquire now b ≡ (record b { retry_timestamps = recent }, false) =
            run ∙ (ground arith) in
          rw refused (ground arith, record { ascending = v.ascending; past = past; holds = refl })
      | inr free ↦
          let taken : try_acquire now b
              ≡ (record b { retry_timestamps = recent ++ (now ∷ []) }, true) =
            run ∙ (ground arith) in
          rw taken (
            ground arith,
            record {
              ascending = IsAscending-snoc now granted v.ascending past;
              past = All-snoc_self now granted past;
              holds = sym (filter-append_now (seconds b.window_seconds) now granted);
            },
          )
    ]

-- What `remaining` reports is the maximum less the retries granted within the window.
pub remaining_lem :
    (used_at now : ℕ) (granted : List ℕ) (b : RetryBudget)
    → used_at ≤ now
    → Tracks used_at granted b
    → remaining now b ≡ b.max_retries - in_window now b granted
unfolding remaining
remaining_lem used_at now granted b h v = rw v.holds (
    ap (λ kept. b.max_retries - length kept)
      (filter_again (seconds b.window_seconds) used_at now granted h))

-- Attempts one after the other, with the list of the retries granted.
pub run_attempts : List ℕ → List ℕ → RetryBudget → List ℕ × RetryBudget
run_attempts [] granted b = (granted, b)
run_attempts (now ∷ later) granted b =
    let (b', success) = try_acquire now b in
    run_attempts later (if success then granted ++ (now ∷ []) else granted) b'

-- Times that do not go back, from a first one on.
abbrev pub IsForward : ℕ → List ℕ → Type 0
IsForward t [] = Unit {0}
IsForward t (u ∷ rest) = (t ≤ u) × IsForward u rest

abbrev pub last_of : ℕ → List ℕ → ℕ
last_of t [] = t
last_of t (u ∷ rest) = last_of u rest

settings_kept :
    (now : ℕ) (b : RetryBudget)
    → ((try_acquire now b).0.max_retries ≡ b.max_retries)
      × ((try_acquire now b).0.window_seconds ≡ b.window_seconds)
unfolding try_acquire
settings_kept now b = ground arith

recent_mono :
    (window before now : ℕ) (ts : List ℕ)
    → before ≤ now
    → length (filter (is_recent window now) ts) ≤ length (filter (is_recent window before) ts)
recent_mono window before now [] h = omega arith
recent_mono window before now (t ∷ rest) h = ground (arith, recent_mono window before now rest h)

-- One attempt keeps the count of the window within the maximum.
attempt_bound :
    (used_at now : ℕ) (granted : List ℕ) (b : RetryBudget) (success : Bool)
    → used_at ≤ now
    → success ≡ ltb (in_window now b granted) b.max_retries
    → in_window used_at b granted ≤ b.max_retries
    → in_window now b (if success then granted ++ (now ∷ []) else granted) ≤ b.max_retries
attempt_bound used_at now granted b true h e w =
    rw (filter-append_now (seconds b.window_seconds) now granted) (
      ground (
        arith,
        length-append (filter (is_recent (seconds b.window_seconds) now) granted) (now ∷ []),
      ))
attempt_bound used_at now granted b false h e w =
    omega (arith, recent_mono (seconds b.window_seconds) used_at now granted h)

run_attempts-Tracks :
    (window max_retries used_at : ℕ) (times granted : List ℕ) (b : RetryBudget)
    → b.window_seconds ≡ window
    → b.max_retries ≡ max_retries
    → IsForward used_at times
    → Tracks used_at granted b
    → in_window used_at b granted ≤ b.max_retries
    → let (all, b') = run_attempts times granted b in
      Tracks (last_of used_at times) all b'
      × (length (filter (is_recent (seconds window) (last_of used_at times)) all) ≤ max_retries)
unfolding run_attempts
run_attempts-Tracks window max_retries used_at [] granted b e m f v w = (v, rw (← e, ← m) w)
run_attempts-Tracks window max_retries used_at (now ∷ later) granted b e m f v w =
    let (decided, tracks) = try_acquire-Tracks used_at now granted b f.0 v in
    let (same_max, same_window) = settings_kept now b in
    run_attempts-Tracks window max_retries now later _ (try_acquire now b).0 (same_window ∙ e)
      (same_max ∙ m) f.1 tracks
      (rw (same_max, same_window) (attempt_bound used_at now granted b _ f.0 decided w))

-- After any attempts, made at times that do not go back, no more retries than the maximum have been
-- granted within the window that ends at the last attempt.
pub run_attempts_bound :
    (max_retries window : ℕ) (times : List ℕ)
    → IsForward 0 times
    → let (all, b) =
        run_attempts times []
          (record { max_retries = max_retries; window_seconds = window; retry_timestamps = [] }) in
      length (filter (is_recent (seconds window) (last_of 0 times)) all) ≤ max_retries
run_attempts_bound max_retries window times f =
    (run_attempts-Tracks window max_retries 0 times [] _ refl refl f
      (record { ascending = tt; past = tt; holds = refl }) (omega arith)).1
