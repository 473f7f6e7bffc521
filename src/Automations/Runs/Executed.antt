-- ===== src/Automations/Runs/Executed.antt =====
-- Which accounts of a cycle have a run after a tick: `run_due_jobs` of app/modules/automations/service.py.
use mathlib.Core.Option
use codex_octopus.Base.{
  ◌&&◌, not, ℕ, ◌+◌, ◌<◌, ◌≡◌, ◌⊎◌, Bool, true, ◌||◌, Option, some, List, [], ◌∷◌, ◌++◌, any, All,
  length,
}
use codex_octopus.Base.Text.{Text, text_eq}
use codex_octopus.Automations.Runs.{
  AutomationRun, has_job, has_account, Tick, Progress, has_slot, complete_all,
}

-- The account had a run of the cycle before, or its slot has one.
abbrev pub has_run : Tick → List Text → List AutomationRun → Text → Bool
has_run tick before runs account_id =
    any (text_eq account_id) before || has_slot (tick.slot_key account_id) runs

-- The accounts that are taken to have a run have one.
record IsKnown (tick : Tick) (before existing : List Text) (runs : List AutomationRun)
    : Type 0 where
  has_one : (a : Text) → any (text_eq a) existing ≡ true → has_run tick before runs a ≡ true

-- What a part of the tick leaves.
record IsProgress (runs runs' : List AutomationRun) (executed executed' : ℕ) : Type 0 where
  keeps_slot : (slot : Text) → has_slot slot runs ≡ true → has_slot slot runs' ≡ true
  counts : executed + length runs' ≡ executed' + length runs

-- The runs after the execution of a new run.
abbrev executed_runs : Tick → AutomationRun → List AutomationRun → List AutomationRun
executed_runs tick run runs = complete_all run.id (tick.outcome run) (runs ++ (run ∷ []))

-- The job or the account is gone when the run of the account is claimed.
abbrev pub is_gone : Tick → Text → Bool
is_gone tick a =
    not (has_job (tick.referenced_at a) tick.job_id && has_account (tick.referenced_at a) (some a))

-- The account is not yet due, or it has a run, or a run cannot refer to it.
abbrev pub IsTreated : Tick → List Text → List AutomationRun → Text × ℕ → Type 0
IsTreated tick before runs account =
    (tick.now < account.1)
    ⊎ ((has_run tick before runs account.0 ≡ true) ⊎ (is_gone tick account.0 ≡ true))

-- What the treatment of an account leads to.
record Treated (tick : Tick) (before : List Text) (account : Text × ℕ) (s : Progress)
    (r : Option Progress) : Type 0 where
  next : Progress
  is_next : r ≡ some next
  progress : IsProgress s.0 next.0 s.2 next.2
  known : IsKnown tick before next.1 next.0
  treated : IsTreated tick before next.0 account

-- What the treatment of the accounts leads to.
record AllTreated (tick : Tick) (before : List Text) (accounts : List (Text × ℕ)) (s : Progress)
    (r : Option Progress) : Type 0 where
  next : Progress
  is_next : r ≡ some next
  progress : IsProgress s.0 next.0 s.2 next.2
  all_treated : All (IsTreated tick before next.0) accounts
