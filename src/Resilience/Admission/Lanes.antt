-- ===== src/Resilience/Admission/Lanes.antt =====
-- Requests that come and go through the bulkhead: no lane holds more than its limit, and a lane
-- denies only when it is full.
use codex_octopus.Base.{
  ℕ, ◌+◌, ◌≤◌, ◌<◌, ◌≡◌, ◌==◌, refl, ap, ◌∙◌, subst, ◌≢◌, ◌⊎◌, inl, inr, Bool, false, Option, none,
  some, List, [], ◌∷◌, ◌++◌, arith, if◌then◌else◌, sum_of, Option-cases,
}
use codex_octopus.Base.Text.{Text, text, starts_with}
use codex_octopus.Resilience.Admission.{
  ScopeType, Lane, proxy_http, proxy_websocket, proxy_compact, dashboard, BulkheadSemaphore,
  semaphore_of, with_semaphore, entered, denial, enter_lane, bulkhead_enter, bulkhead_exit, lane_of,
  acquire, release,
}

abbrev pub lane_eq : Lane → Lane → ℕ
lane_eq proxy_http proxy_http = 1
lane_eq proxy_websocket proxy_websocket = 1
lane_eq proxy_compact proxy_compact = 1
lane_eq dashboard dashboard = 1
lane_eq _ _ = 0

-- How many of the running requests hold a lane.
abbrev pub held : Lane → List Lane → ℕ
held lane = sum_of (lane_eq lane)

-- The middleware's semaphores, and the lanes of the requests inside.
pub record System : Type 0 where
  pub bulkhead : BulkheadSemaphore
  pub inside : List Lane

pub data Step (s t : System) : Type 0 where
  enters :
      (is_memory_pressure : Bool) (scope_type : ScopeType) (path : Text) (lane : Lane)
      → bulkhead_enter is_memory_pressure scope_type path s.bulkhead ≡ (t.bulkhead, entered lane)
      → t.inside ≡ lane ∷ s.inside
      → Step s t
  leaves :
      (lane : Lane) (before after : List Lane)
      → s.inside ≡ before ++ (lane ∷ after)
      → t.bulkhead ≡ bulkhead_exit lane s.bulkhead
      → t.inside ≡ before ++ after
      → Step s t

pub data Reach (s : System) : System → Type 0 where
  here : Reach s s
  next : {t u : System} → Reach s t → Step t u → Reach s u

-- What is free in a guarded lane and what is held add up to the limit.
abbrev pub Adds : Option ℕ → ℕ → Option ℕ → Type 0
Adds none holding none = Unit {0}
Adds (some limit) holding (some value) = value + holding ≡ limit
Adds _ holding _ = ⊥

pub record Balanced (initial : BulkheadSemaphore) (s : System) : Type 0 where
  pub lanes :
      (lane : Lane)
      → Adds (semaphore_of lane initial) (held lane s.inside) (semaphore_of lane s.bulkhead)

semaphore_of-with_same :
    (lane : Lane) (v : Option ℕ) (b : BulkheadSemaphore)
    → semaphore_of lane (with_semaphore lane v b) ≡ v
semaphore_of-with_same proxy_http v b = refl
semaphore_of-with_same proxy_websocket v b = refl
semaphore_of-with_same proxy_compact v b = refl
semaphore_of-with_same dashboard v b = refl

-- Another lane's semaphore is left alone, and its count too.
other_lane :
    (lane other : Lane) (v : Option ℕ) (b : BulkheadSemaphore)
    → (lane ≡ other)
      ⊎ ((lane_eq other lane ≡ 0)
          × (semaphore_of other (with_semaphore lane v b) ≡ semaphore_of other b))
other_lane proxy_http proxy_http v b = inl refl
other_lane proxy_http proxy_websocket v b = inr (refl, refl)
other_lane proxy_http proxy_compact v b = inr (refl, refl)
other_lane proxy_http dashboard v b = inr (refl, refl)
other_lane proxy_websocket proxy_http v b = inr (refl, refl)
other_lane proxy_websocket proxy_websocket v b = inl refl
other_lane proxy_websocket proxy_compact v b = inr (refl, refl)
other_lane proxy_websocket dashboard v b = inr (refl, refl)
other_lane proxy_compact proxy_http v b = inr (refl, refl)
other_lane proxy_compact proxy_websocket v b = inr (refl, refl)
other_lane proxy_compact proxy_compact v b = inl refl
other_lane proxy_compact dashboard v b = inr (refl, refl)
other_lane dashboard proxy_http v b = inr (refl, refl)
other_lane dashboard proxy_websocket v b = inr (refl, refl)
other_lane dashboard proxy_compact v b = inr (refl, refl)
other_lane dashboard dashboard v b = inl refl

lane_eq_self : (lane : Lane) → lane_eq lane lane ≡ 1
lane_eq_self proxy_http = refl
lane_eq_self _ = refl

-- An entry takes one from its lane's semaphore, which was not locked.
enter_lane_entered :
    (lane : Lane) (scope_type : ScopeType) (path : Text) (b b' : BulkheadSemaphore) (into : Lane)
    → enter_lane lane scope_type path b ≡ (b', entered into)
    → (value : ℕ) × (semaphore_of into b ≡ some value)
      × (0 < value)
      × (b' ≡ with_semaphore into (some (acquire value)) b)
unfolding enter_lane
enter_lane_entered lane scope_type path b b' into e = elim (Option-cases (semaphore_of lane b)) [
  | inl missing ↦ absurd (ground arith)
  | inr (value, found) ↦ (value, ground arith, ground arith, ground arith)
]

bulkhead_enter_entered :
    (is_memory_pressure : Bool) (scope_type : ScopeType) (path : Text) (b b' : BulkheadSemaphore)
    (into : Lane)
    → bulkhead_enter is_memory_pressure scope_type path b ≡ (b', entered into)
    → enter_lane (lane_of scope_type path) scope_type path b ≡ (b', entered into)
unfolding bulkhead_enter
bulkhead_enter_entered is_memory_pressure ScopeType.http path b b' into e = ground arith
bulkhead_enter_entered is_memory_pressure ScopeType.websocket path b b' into e = ground arith
bulkhead_enter_entered is_memory_pressure ScopeType.other_scope path b b' into e =
    absurd (ground arith)

Adds-enter :
    (limit : Option ℕ) (holding value : ℕ)
    → 0 < value
    → Adds limit holding (some value)
    → Adds limit (1 + holding) (some (acquire value))
Adds-enter none holding value p a = a
Adds-enter (some limit) holding value p a = omega arith

abbrev released : Option ℕ → Option ℕ
released none = none
released (some value) = some (release value)

Adds-leave :
    (limit : Option ℕ) (holding : ℕ) (free : Option ℕ)
    → Adds limit (1 + holding) free
    → Adds limit holding (released free)
Adds-leave none holding none a = a
Adds-leave none holding (some value) a = a
Adds-leave (some limit) holding none a = a
Adds-leave (some limit) holding (some value) a = omega arith

bulkhead_exit_lem :
    (lane : Lane) (b : BulkheadSemaphore)
    → bulkhead_exit lane b ≡ with_semaphore lane (released (semaphore_of lane b)) b
unfolding bulkhead_exit
bulkhead_exit_lem proxy_http b = ground arith
bulkhead_exit_lem proxy_websocket b = ground arith
bulkhead_exit_lem proxy_compact b = ground arith
bulkhead_exit_lem dashboard b = ground arith

held-append : (lane : Lane) (xs ys : List Lane) → held lane (xs ++ ys) ≡ held lane xs + held lane ys
held-append lane [] ys = omega arith
held-append lane (x ∷ xs) ys = omega (arith, held-append lane xs ys)

held_middle :
    (lane x : Lane) (before after : List Lane)
    → held lane (before ++ (x ∷ after)) ≡ lane_eq lane x + held lane (before ++ after)
held_middle lane x before after =
    omega (arith, held-append lane before (x ∷ after), held-append lane before after)

-- The count of one lane after an operation on the semaphore of a lane.
module _ (initial b : BulkheadSemaphore) (lane : Lane) (v : Option ℕ) (n m : Lane → ℕ) where
  change_lane :
      ((o : Lane) → Adds (semaphore_of o initial) (n o) (semaphore_of o b))
      → (Adds (semaphore_of lane initial) (n lane) (semaphore_of lane b)
          → Adds (semaphore_of lane initial) (m lane) v)
      → ((o : Lane) → lane_eq o lane ≡ 0 → m o ≡ n o)
      → (o : Lane) → Adds (semaphore_of o initial) (m o) (semaphore_of o (with_semaphore lane v b))
  change_lane old at_lane elsewhere o = elim (other_lane lane o v b) [
    | inl same ↦
        subst (λ x. Adds (semaphore_of x initial) (m x) (semaphore_of x (with_semaphore lane v b)))
          same (rw (semaphore_of-with_same lane v b) (at_lane (old lane)))
    | inr (apart, kept) ↦ rw (kept, elsewhere o apart) (old o)
  ]

Step-Balanced :
    {initial : BulkheadSemaphore} {s t : System}
    → Step s t
    → Balanced initial s
    → Balanced initial t
Step-Balanced {initial} {s} {t} (enters p scope_type path lane e r) v =
    let (value, found, free, after) =
      enter_lane_entered (lane_of scope_type path) scope_type path s.bulkhead t.bulkhead lane
        (bulkhead_enter_entered p scope_type path s.bulkhead t.bulkhead lane e) in
    record {
      lanes =
          rw (after, r)
            (change_lane initial s.bulkhead lane (some (acquire value)) (λ o. held o s.inside)
              (λ o. held o (lane ∷ s.inside)) v.lanes
              (λ a. rw (lane_eq_self lane) (
                Adds-enter _ _ value free
                  (subst (Adds (semaphore_of lane initial) (held lane s.inside)) found a)))
              (λ o z. omega arith));
    }
Step-Balanced {initial} {s} {t} (leaves lane before after e q r) v = record {
  lanes =
      rw (q, r, bulkhead_exit_lem lane s.bulkhead)
        (change_lane initial s.bulkhead lane (released (semaphore_of lane s.bulkhead))
          (λ o. held o s.inside) (λ o. held o (before ++ after)) v.lanes
          (λ a. Adds-leave _ _ _ (
            subst (λ k. Adds (semaphore_of lane initial) k (semaphore_of lane s.bulkhead))
              (ap (held lane) e
                ∙ held_middle lane lane before after
                ∙ ap (λ k. k + held lane (before ++ after)) (lane_eq_self lane))
              a))
          (λ o z. omega (arith, ap (held o) e, held_middle o lane before after)));
}

pub Reach-Balanced :
    {initial : BulkheadSemaphore} {s t : System}
    → Balanced initial s
    → Reach s t
    → Balanced initial t
Reach-Balanced v here = v
Reach-Balanced v (next r st) = Step-Balanced st (Reach-Balanced v r)

-- A lane with no request in it is balanced at its limit.
Adds-self : (limit : Option ℕ) → Adds limit 0 limit
Adds-self none = tt
Adds-self (some limit) = omega arith

pub empty-Balanced : (b : BulkheadSemaphore) → Balanced b (record { bulkhead = b; inside = [] })
empty-Balanced b = record { lanes = λ lane. Adds-self (semaphore_of lane b) }

-- What a lane's limit says of a request that wants to enter it.
lane_decision :
    (limit value holding : ℕ) (lane : Lane) (scope_type : ScopeType) (path : Text)
    (b : BulkheadSemaphore)
    → semaphore_of lane b ≡ some value
    → value + holding ≡ limit
    → (holding ≤ limit)
      × ((enter_lane lane scope_type path b).1
          ≡ (if holding == limit then denial scope_type path 429 else entered lane))
unfolding enter_lane
lane_decision limit value holding lane scope_type path b e a = (omega arith, ground arith)

lane_value :
    (limit holding : ℕ) (free : Option ℕ)
    → Adds (some limit) holding free
    → (value : ℕ) × (free ≡ some value) × (value + holding ≡ limit)
lane_value limit holding none a = absurd a
lane_value limit holding (some value) a = (value, refl, a)

guarded_enter :
    (scope_type : ScopeType) (path : Text) (b : BulkheadSemaphore)
    → scope_type ≢ ScopeType.other_scope
    → starts_with path (text "/health") ≡ false
    → bulkhead_enter false scope_type path b
      ≡ enter_lane (lane_of scope_type path) scope_type path b
unfolding bulkhead_enter
guarded_enter ScopeType.http path b ne e = ground arith
guarded_enter ScopeType.websocket path b ne e = ground arith
guarded_enter ScopeType.other_scope path b ne e = absurd (ne refl)

-- From an empty bulkhead, whatever requests have come and gone: the requests inside a lane with a
-- limit are no more than the limit, and without memory pressure the next request for that lane is
-- denied with 429 if they are as many and enters if they are fewer; whoever is inside the other
-- lanes makes no difference.
pub Reach-lane_limit :
    (initial : BulkheadSemaphore) (limit : ℕ) (scope_type : ScopeType) (path : Text) {s : System}
    → Reach (record { bulkhead = initial; inside = [] }) s
    → scope_type ≢ ScopeType.other_scope
    → starts_with path (text "/health") ≡ false
    → semaphore_of (lane_of scope_type path) initial ≡ some limit
    → let lane = lane_of scope_type path in
      (held lane s.inside ≤ limit)
      × ((bulkhead_enter false scope_type path s.bulkhead).1
          ≡ (if held lane s.inside == limit then denial scope_type path 429 else entered lane))
Reach-lane_limit initial limit scope_type path {s} r ne health e =
    let lane = lane_of scope_type path in
    let v = Reach-Balanced (empty-Balanced initial) r in
    let (value, found, adds) =
      lane_value limit (held lane s.inside) (semaphore_of lane s.bulkhead) (
        subst (λ l. Adds l (held lane s.inside) (semaphore_of lane s.bulkhead)) e (v.lanes lane)) in
    rw (guarded_enter scope_type path s.bulkhead ne health)
      (lane_decision limit value (held lane s.inside) lane scope_type path s.bulkhead found adds)
