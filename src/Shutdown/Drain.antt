-- ===== src/Shutdown/Drain.antt =====
-- Requests that come and go while the server drains.
use codex_octopus.Base.{
  ◌<◌, ℕ, ◌+◌, ◌≤◌, ltb, ◌==◌, ◌≡◌, refl, sym, ap, ◌∙◌, subst, ◌⊎◌, inl, inr, Bool, true, ◌&&◌,
  some, List, [], ◌∷◌, ◌++◌, arith, length, length-append, In, Bool-cases, is_some, is_empty, All,
}
use mathlib.Core.Option.{some-injective}
use codex_octopus.Base.Text.{Text}
use codex_octopus.Resilience.Admission.{ScopeType}
use codex_octopus.Shutdown.{
  ShutdownState, reset, set_draining, set_bridge_drain_active, is_drain_allowed, counted,
  inflight_enter, inflight_exit, Poll, wait_for_in_flight_drain,
}

-- A counted request, with the number under which it has entered.
pub record Request : Type 0 where
  pub number : ℕ
  pub path : Text

-- The globals, the counted requests that have not ended, and how many have entered.
pub record System : Type 0 where
  pub shutdown : ShutdownState
  pub running : List Request
  pub entered : ℕ

pub data Step (s t : System) : Type 0 where
  enters :
      (scope_type : ScopeType) (path : Text)
      → inflight_enter scope_type path s.shutdown ≡ (t.shutdown, counted)
      → t.running ≡ record { number = s.entered; path = path } ∷ s.running
      → t.entered ≡ s.entered + 1
      → Step s t
  leaves :
      (request : Request) (before after : List Request)
      → s.running ≡ before ++ (request ∷ after)
      → t.shutdown ≡ inflight_exit s.shutdown
      → t.running ≡ before ++ after
      → t.entered ≡ s.entered
      → Step s t
  sets_draining :
      (val : Bool)
      → t.shutdown ≡ set_draining val s.shutdown
      → t.running ≡ s.running
      → t.entered ≡ s.entered
      → Step s t
  sets_bridge :
      (val : Bool)
      → t.shutdown ≡ set_bridge_drain_active val s.shutdown
      → t.running ≡ s.running
      → t.entered ≡ s.entered
      → Step s t

pub data Reach (s : System) : System → Type 0 where
  here : Reach s s
  next : {t u : System} → Reach s t → Step t u → Reach s u

-- The counter is the number of the counted requests that run.
abbrev IsCounted : System → Type 0
IsCounted s = s.shutdown.in_flight ≡ length s.running

Step-IsCounted : {s t : System} → Step s t → IsCounted s → IsCounted t
unfolding inflight_enter inflight_exit set_draining set_bridge_drain_active
Step-IsCounted {s} {t} (enters scope_type path e r n) c = ground arith
Step-IsCounted {s} {t} (leaves request before after r e q n) c =
    let many : s.shutdown.in_flight ≡ length before + (length after + 1) =
      c ∙ ap length r ∙ length-append before (request ∷ after) ∙ omega arith in
    rw (e, q) (omega (arith, many, length-append before after))
Step-IsCounted {s} {t} (sets_draining val e r n) c = rw (e, r) c
Step-IsCounted {s} {t} (sets_bridge val e r n) c = rw (e, r) c

Reach-IsCounted : {s t : System} → IsCounted s → Reach s t → IsCounted t
Reach-IsCounted c here = c
Reach-IsCounted c (next r st) = Step-IsCounted st (Reach-IsCounted c r)

-- Steps all of which end in a state that drains.
pub data DrainReach (s : System) : System → Type 0 where
  begins : s.shutdown.draining ≡ true → DrainReach s s
  goes_on : {t u : System} → DrainReach s t → Step t u → u.shutdown.draining ≡ true → DrainReach s u

-- No request has entered.
abbrev pub start : System
start = record { shutdown = reset; running = []; entered = 0 }

In-before :
    (p x : Request) (before after : List Request)
    → In p (before ++ after)
    → In p (before ++ (x ∷ after))
In-before p x [] after m = inr m
In-before p x (y ∷ before) after (inl e) = inl e
In-before p x (y ∷ before) after (inr m) = inr (In-before p x before after m)

-- What a step does to a request that runs after it: it ran before, or it is the one that enters.
Step-cases :
    {s t : System} (request : Request)
    → Step s t
    → In request t.running
    → (In request s.running × (s.entered ≤ t.entered))
      ⊎ ((request.number ≡ s.entered)
          × (t.entered ≡ s.entered + 1)
          × ((scope_type : ScopeType) × (inflight_enter scope_type request.path s.shutdown
                ≡ (t.shutdown, counted))))
Step-cases {s} {t} request (enters scope_type path e r n) m = of_old (subst (In request) r m)
  where
    of_old :
        In request (record { number = s.entered; path = path } ∷ s.running)
        → (In request s.running × (s.entered ≤ t.entered))
          ⊎ ((request.number ≡ s.entered)
              × (t.entered ≡ s.entered + 1)
              × ((k : ScopeType) × (inflight_enter k request.path s.shutdown
                    ≡ (t.shutdown, counted))))
    of_old (inl same) = inr (
      ap (λ q. q.number) same,
      n,
      (
        scope_type,
        subst (λ p. inflight_enter scope_type p s.shutdown ≡ (t.shutdown, counted))
            (sym (ap (λ q. q.path) same)) e,
      ),
    )
    of_old (inr old) = inl (old, omega (arith, n))
Step-cases {s} {t} request (leaves gone before after r e q n) m = inl (
  subst (In request) (sym r) (In-before request gone before after (subst (In request) q m)),
  omega (arith, n),
)
Step-cases {s} {t} request (sets_draining val e r n) m =
    inl (subst (In request) r m, omega (arith, n))
Step-cases {s} {t} request (sets_bridge val e r n) m =
    inl (subst (In request) r m, omega (arith, n))

-- A request that runs has a number that has been given.
Reach-numbered :
    {s : System} (request : Request)
    → Reach start s
    → In request s.running
    → request.number < s.entered
Reach-numbered request here m = elim m [ ]
Reach-numbered {s} request (next r st) m = elim (Step-cases request st m) [
  | inl (old, le) ↦ let lt = Reach-numbered request r old in omega (arith, lt, le)
  | inr (e, n, _) ↦ omega (arith, e, n)
]

still_draining : {s t : System} → DrainReach s t → t.shutdown.draining ≡ true
still_draining (begins d) = d
still_draining (goes_on r st d) = d

drain_enters :
    (scope_type : ScopeType) (path : Text) (s s' : ShutdownState)
    → s.draining ≡ true
    → inflight_enter scope_type path s ≡ (s', counted)
    → is_drain_allowed path ≡ true
unfolding inflight_enter
drain_enters scope_type path s s' d e = ground arith

-- The number of entered requests does not fall.
Step-entered : {s t : System} → Step s t → s.entered ≤ t.entered
Step-entered (enters scope_type path e r n) = omega (arith, n)
Step-entered (leaves request before after r e q n) = omega (arith, n)
Step-entered (sets_draining val e r n) = omega (arith, n)
Step-entered (sets_bridge val e r n) = omega (arith, n)

DrainReach-entered : {s t : System} → DrainReach s t → s.entered ≤ t.entered
DrainReach-entered (begins d) = omega arith
DrainReach-entered (goes_on r st d) =
    let a = DrainReach-entered r in let b = Step-entered st in omega (arith, a, b)

-- While the server drains, a counted request that runs is one that ran when the drain began, or it has
-- entered since, and then its path is one of those that a drain allows.
pub DrainReach-running :
    (s t : System) (request : Request)
    → Reach start s
    → DrainReach s t
    → In request t.running
    → (In request s.running × (request.number < s.entered))
      ⊎ ((s.entered ≤ request.number) × (is_drain_allowed request.path ≡ true))
DrainReach-running s t request reached (begins d) m = inl (m, Reach-numbered request reached m)
DrainReach-running s t request reached (goes_on {t = mid} r st d) m =
    elim (Step-cases request st m) [
      | inl (old, _) ↦ DrainReach-running s mid request reached r old
      | inr (e, _, (scope_type, entry)) ↦ inr (
        (let le = DrainReach-entered r in omega (arith, e, le)),
        drain_enters scope_type request.path mid.shutdown t.shutdown (still_draining r) entry,
      )
    ]

-- The rounds of the wait, each with the clock and the requests that run.
abbrev pub polls_of : List (ℕ × System) → List Poll
polls_of [] = []
polls_of ((now, s) ∷ rest) = record { clock = now; shutdown = s.shutdown } ∷ polls_of rest

empty_iff : (running : List Request) → (length running == 0) ≡ is_empty running
empty_iff [] = refl
empty_iff (x ∷ xs) = ground arith

-- When the wait ends: in some round, with whether no counted request ran in it; and if one still did,
-- the deadline had passed. The rounds see states that are reached from the start.
pub wait_for_in_flight_drain_result :
    (deadline : ℕ) (rounds : List (ℕ × System)) (drained : Bool)
    → All (λ p. Reach (start) p.1) rounds
    → wait_for_in_flight_drain deadline (polls_of rounds) ≡ some drained
    → (round : ℕ × System) × In round rounds
      × (drained ≡ is_empty round.1.running)
      × ((drained ≡ true) ⊎ (deadline ≤ round.0))
unfolding wait_for_in_flight_drain
wait_for_in_flight_drain_result deadline [] drained a e = absurd (ground arith)
wait_for_in_flight_drain_result deadline ((now, s) ∷ rest) drained a e =
    let c : s.shutdown.in_flight ≡ length s.running = Reach-IsCounted refl a.0 in
    elim (Bool-cases (ltb 0 s.shutdown.in_flight && ltb now deadline)) [
      | inl waits ↦
          let (round, m, d, l) =
            wait_for_in_flight_drain_result deadline rest drained a.1 (sym (rw waits refl) ∙ e) in
          (round, inr m, d, l)
      | inr ends ↦
          let answer : (s.shutdown.in_flight == 0) ≡ drained =
            some-injective _ _ (sym (rw ends refl) ∙ e) in
          ((now, s), inl refl, sym answer ∙ ap (λ n. n == 0) c ∙ empty_iff s.running, ground arith)
    ]

-- The wait ends: a round at or after the deadline is its last, if none before it was.
pub wait_for_in_flight_drain_ends :
    (deadline : ℕ) (before after : List Poll) (poll : Poll)
    → deadline ≤ poll.clock
    → is_some (wait_for_in_flight_drain deadline (before ++ (poll ∷ after))) ≡ true
unfolding wait_for_in_flight_drain
wait_for_in_flight_drain_ends deadline [] after poll h = ground arith
wait_for_in_flight_drain_ends deadline (p ∷ before) after poll h =
    ground (arith, wait_for_in_flight_drain_ends deadline before after poll h)
