-- ===== src/Automations/Runs/Claims.antt =====
-- Which slots of automations are run: app/modules/automations/service.py.
use codex_octopus.Base.{
  map, ◌⊎◌, ℕ, ◌+◌, ◌≡◌, refl, sym, ◌∙◌, ap, subst, inl, inr, Bool, true, false, ◌||◌, ◌&&◌, Option,
  none, some, get_or, List, [], ◌∷◌, ◌++◌, arith, if◌then◌else◌, any, Bool-cases,
}
use codex_octopus.Base.Text.{Text, text_eq, eq_of_text_eq}
use codex_octopus.Automations.Runs.{
  AutomationRun, Referenced, is_referenced, RunOutcome, has_slot, claim_run, complete_run,
  complete_all, has_id,
}

-- A statement of some instance: a claim, where the jobs and accounts are those given, the completion of
-- a run, or the deletion of an account.
pub data RunStatement : Type 0 where
  claiming : Referenced → AutomationRun → RunStatement
  completing : Text → RunOutcome → RunStatement
  deleting_account : Text → RunStatement

-- The deletion of an account sets the column null in its runs.
abbrev pub is_of_account : Text → Option Text → Bool
is_of_account account_id none = false
is_of_account account_id (some own) = text_eq own account_id

abbrev pub after_deleting : Text → List AutomationRun → List AutomationRun
after_deleting account_id runs =
    map
      (λ run.
        if is_of_account account_id run.account_id then record run { account_id = none } else run)
      runs

-- The count of a claim and of what follows it.
abbrev pub tally :
    Text
    → (List AutomationRun → List AutomationRun × ℕ)
    → List AutomationRun × Option AutomationRun
    → List AutomationRun × ℕ
tally slot follow (runs, none) = follow runs
tally slot follow (runs, some granted) = (
  (follow runs).0,
  if text_eq granted.slot_key slot then (follow runs).1 + 1 else (follow runs).1,
)

-- The runs after a completion, which changes none where it fails.
unfoldable pub after_completing : Text → RunOutcome → List AutomationRun → List AutomationRun
unfolding complete_run
after_completing run_id outcome runs = get_or (complete_run run_id outcome runs) runs

-- The runs after the statements, and how often a slot was granted.
unfoldable pub grants : Text → List RunStatement → List AutomationRun → List AutomationRun × ℕ
unfolding claim_run
grants slot [] runs = (runs, 0)
grants slot (completing run_id outcome ∷ rest) runs =
    grants slot rest (after_completing run_id outcome runs)
grants slot (deleting_account account_id ∷ rest) runs =
    grants slot rest (after_deleting account_id runs)
grants slot (claiming referenced run ∷ rest) runs =
    tally slot (λ r. grants slot rest r) (claim_run referenced run runs)

pub claim_taken :
    (referenced : Referenced) (run : AutomationRun) (runs : List AutomationRun)
    → has_slot run.slot_key runs ≡ true
    → claim_run referenced run runs ≡ (runs, none)
unfolding claim_run
claim_taken referenced run runs h = rw h refl

pub claim_unreferenced :
    (referenced : Referenced) (run : AutomationRun) (runs : List AutomationRun)
    → is_referenced referenced run ≡ false
    → claim_run referenced run runs ≡ (runs, none)
unfolding claim_run
claim_unreferenced referenced run runs h = elim (Bool-cases (has_slot run.slot_key runs)) [
  | inl taken ↦ rw taken refl
  | inr free ↦ rw (free, h) refl
]

pub claim_free :
    (referenced : Referenced) (run : AutomationRun) (runs : List AutomationRun)
    → has_slot run.slot_key runs ≡ false
    → is_referenced referenced run ≡ true
    → claim_run referenced run runs ≡ (runs ++ (run ∷ []), some run)
unfolding claim_run
claim_free referenced run runs h i = rw (h, i) refl

-- A claim is refused, or it adds its run for a slot that had none.
pub claim_cases :
    (referenced : Referenced) (run : AutomationRun) (runs : List AutomationRun)
    → ((claim_run referenced run runs ≡ (runs, none))
        × ((has_slot run.slot_key runs ≡ true) ⊎ (is_referenced referenced run ≡ false)))
      ⊎ ((claim_run referenced run runs ≡ (runs ++ (run ∷ []), some run))
          × (has_slot run.slot_key runs ≡ false)
          × (is_referenced referenced run ≡ true))
claim_cases referenced run runs = elim (Bool-cases (has_slot run.slot_key runs)) [
  | inl taken ↦ inl (claim_taken referenced run runs taken, inl taken)
  | inr free ↦ elim (Bool-cases (is_referenced referenced run)) [
    | inl there ↦ inr (claim_free referenced run runs free there, free, there)
    | inr gone ↦ inl (claim_unreferenced referenced run runs gone, inr gone)
  ]
]

pub has_slot-append :
    (slot : Text) (runs : List AutomationRun) (run : AutomationRun)
    → has_slot slot (runs ++ (run ∷ [])) ≡ (has_slot slot runs || text_eq run.slot_key slot)
has_slot-append slot [] run = ground arith
has_slot-append slot (r ∷ runs) run = ground (arith, has_slot-append slot runs run)

pub has_slot-complete_all :
    (slot run_id : Text) (outcome : RunOutcome) (runs : List AutomationRun)
    → has_slot slot (complete_all run_id outcome runs) ≡ has_slot slot runs
has_slot-complete_all slot run_id outcome [] = refl
has_slot-complete_all slot run_id outcome (r ∷ runs) =
    ground (arith, has_slot-complete_all slot run_id outcome runs)

has_slot-after_completing :
    (slot run_id : Text) (outcome : RunOutcome) (runs : List AutomationRun)
    → has_slot slot (after_completing run_id outcome runs) ≡ has_slot slot runs
unfolding after_completing complete_run
has_slot-after_completing slot run_id outcome runs = elim (Bool-cases (has_id run_id runs)) [
  | inl found ↦ rw found (has_slot-complete_all slot run_id outcome runs)
  | inr missing ↦ rw missing refl
]

has_slot-after_deleting :
    (slot account_id : Text) (runs : List AutomationRun)
    → has_slot slot (after_deleting account_id runs) ≡ has_slot slot runs
has_slot-after_deleting slot account_id [] = refl
has_slot-after_deleting slot account_id (r ∷ runs) =
    elim (Bool-cases (is_of_account account_id r.account_id)) [
      | inl own ↦
          rw own
            (ap (λ b. text_eq r.slot_key slot || b) (has_slot-after_deleting slot account_id runs))
      | inr other ↦
          rw other
            (ap (λ b. text_eq r.slot_key slot || b) (has_slot-after_deleting slot account_id runs))
    ]

-- What a claim's answer does to the count.
tally_of :
    (slot : Text) (follow : List AutomationRun → List AutomationRun × ℕ)
    {c d : List AutomationRun × Option AutomationRun}
    → c ≡ d
    → (tally slot follow c).1 ≡ (tally slot follow d).1
tally_of slot follow e = ap (λ x. (tally slot follow x).1) e

has_slot_of :
    (slot : Text) (run : AutomationRun) (runs : List AutomationRun) (b : Bool)
    → text_eq run.slot_key slot ≡ true
    → has_slot slot runs ≡ b
    → has_slot run.slot_key runs ≡ b
has_slot_of slot run runs b own h =
    subst (λ k. has_slot k runs ≡ b) (sym (eq_of_text_eq run.slot_key slot own)) h

-- A slot that has a run is never granted again.
never_again :
    (slot : Text) (statements : List RunStatement) (runs : List AutomationRun)
    → has_slot slot runs ≡ true
    → (grants slot statements runs).1 ≡ 0
unfolding grants
never_again slot [] runs h = refl
never_again slot (completing run_id outcome ∷ rest) runs h =
    never_again slot rest (after_completing run_id outcome runs)
      (has_slot-after_completing slot run_id outcome runs ∙ h)
never_again slot (deleting_account account_id ∷ rest) runs h =
    never_again slot rest (after_deleting account_id runs)
      (has_slot-after_deleting slot account_id runs ∙ h)
never_again slot (claiming referenced run ∷ rest) runs h = elim (claim_cases referenced run runs) [
  | inl (refused, _) ↦
      tally_of slot (λ r. grants slot rest r) refused ∙ never_again slot rest runs h
  | inr (granted, free, _) ↦ elim (Bool-cases (text_eq run.slot_key slot)) [
    | inl own ↦ absurd (let taken = has_slot_of slot run runs true own h in cc)
    | inr other ↦
        tally_of slot (λ r. grants slot rest r) granted
        ∙ rw other
            (never_again slot rest (runs ++ (run ∷ [])) (has_slot-append slot runs run ∙ rw h refl))
  ]
]

-- The statement claims the slot for a job and an account that exist.
abbrev pub is_claim_of : Text → RunStatement → Bool
is_claim_of slot (claiming referenced run) =
    text_eq run.slot_key slot && is_referenced referenced run
is_claim_of slot (completing run_id outcome) = false
is_claim_of slot (deleting_account account_id) = false

-- However the claims and completions of the instances and deletions of accounts follow one another, a slot
-- that has no run yet is granted exactly once if any instance claims it while its job and account exist,
-- and never if none does. No job is deleted, which would delete its runs.
pub claims_once :
    (slot : Text) (statements : List RunStatement) (runs : List AutomationRun)
    → has_slot slot runs ≡ false
    → (grants slot statements runs).1 ≡ (if any (is_claim_of slot) statements then 1 else 0)
unfolding grants
claims_once slot [] runs h = refl
claims_once slot (completing run_id outcome ∷ rest) runs h =
    claims_once slot rest (after_completing run_id outcome runs)
      (has_slot-after_completing slot run_id outcome runs ∙ h)
claims_once slot (deleting_account account_id ∷ rest) runs h =
    claims_once slot rest (after_deleting account_id runs)
      (has_slot-after_deleting slot account_id runs ∙ h)
claims_once slot (claiming referenced run ∷ rest) runs h = elim (claim_cases referenced run runs) [
  | inl (refused, why) ↦
      tally_of slot (λ r. grants slot rest r) refused
      ∙ rw (no_claim why) (claims_once slot rest runs h)
  | inr (granted, free, there) ↦ elim (Bool-cases (text_eq run.slot_key slot)) [
    | inl own ↦
        let none_left =
          never_again slot rest (runs ++ (run ∷ []))
            (has_slot-append slot runs run ∙ rw (h, own) refl) in
        tally_of slot (λ r. grants slot rest r) granted ∙ rw (own, there) (omega (arith, none_left))
    | inr other ↦
        tally_of slot (λ r. grants slot rest r) granted
        ∙ rw other (
            claims_once slot rest (runs ++ (run ∷ []))
              (has_slot-append slot runs run ∙ rw (h, other) refl))
  ]
]
  where
    no_claim :
        (has_slot run.slot_key runs ≡ true) ⊎ (is_referenced referenced run ≡ false)
        → (text_eq run.slot_key slot && is_referenced referenced run) ≡ false
    no_claim (inr gone) = rw gone (ground arith)
    no_claim (inl taken) = elim (Bool-cases (text_eq run.slot_key slot)) [
      | inl own ↦ absurd (let free = has_slot_of slot run runs false own h in cc)
      | inr other ↦ rw other refl
    ]
