-- ===== src/Automations/Runs.antt =====
-- The scheduled cycles of automations and their runs: `run_due_jobs` of app/modules/automations/service.py
-- on the tables of app/modules/automations/repository.py. What an execution comes to is an argument.
pub mod Claims
pub mod Executed
mod Tests
use codex_octopus.Base.{
  ◌&&◌, ◌||◌, ℕ, ◌+◌, ◌*◌, leb, ltb, not, Bool, true, false, Option, none, some, List, [], ◌∷◌,
  ◌++◌, map, if◌then◌else◌, any, length, filter,
}
use mathlib.Core.Option
use codex_octopus.Base.Text.{Text, text, text_eq}

pub data RunStatus : Type 0 where
  running success failed partial : RunStatus

pub record AutomationRun : Type 0 where
  pub id : Text
  pub job_id : Text
  pub trigger : Text
  pub slot_key : Text
  pub cycle_key : Text
  pub cycle_expected_accounts : Option ℕ
  pub cycle_window_end : Option ℕ
  pub scheduled_for : ℕ
  pub started_at : ℕ
  pub status : RunStatus
  pub account_id : Option Text
  pub finished_at : Option ℕ
  pub error_code : Option Text
  pub error_message : Option Text
  pub attempt_count : ℕ

pub record AutomationRunCycle : Type 0 where
  pub cycle_key : Text
  pub job_id : Text
  pub trigger : Text
  pub cycle_expected_accounts : ℕ
  pub cycle_window_end : Option ℕ
  pub accounts : List (Text × ℕ)

pub record AutomationTables : Type 0 where
  pub runs : List AutomationRun
  pub cycles : List AutomationRunCycle

abbrev pub has_slot : Text → List AutomationRun → Bool
has_slot slot_key runs = any (λ run. text_eq run.slot_key slot_key) runs

-- The rows of other tables that runs and cycles refer to by foreign keys.
pub record Referenced : Type 0 where
  pub job_ids : List Text
  pub account_ids : List Text

abbrev pub has_job : Referenced → Text → Bool
has_job referenced job_id = any (text_eq job_id) referenced.job_ids

abbrev pub has_account : Referenced → Option Text → Bool
has_account referenced none = true
has_account referenced (some account_id) = any (text_eq account_id) referenced.account_ids

-- The foreign keys of a run.
abbrev pub is_referenced : Referenced → AutomationRun → Bool
is_referenced referenced run =
    has_job referenced run.job_id && has_account referenced run.account_id

-- `claim_run`: an IntegrityError of the unique key on `slot_key` or of a foreign key is answered with no
-- run. The identifier is a fresh one.
unfoldable pub claim_run :
    Referenced → AutomationRun → List AutomationRun → List AutomationRun × Option AutomationRun
claim_run referenced run runs =
    if has_slot run.slot_key runs || not (is_referenced referenced run)
    then (runs, none)
    else (runs ++ (run ∷ []), some run)

-- The arguments of `complete_run`.
pub record RunOutcome : Type 0 where
  pub status : RunStatus
  pub finished_at : ℕ
  pub account_id : Option Text
  pub error_code : Option Text
  pub error_message : Option Text
  pub attempt_count : ℕ

abbrev pub completed : RunOutcome → AutomationRun → AutomationRun
completed outcome run = record run {
  status = outcome.status;
  finished_at = some outcome.finished_at;
  account_id = outcome.account_id;
  error_code = outcome.error_code;
  error_message = outcome.error_message;
  attempt_count = outcome.attempt_count;
}

abbrev pub has_id : Text → List AutomationRun → Bool
has_id run_id runs = any (λ run. text_eq run.id run_id) runs

abbrev pub complete_all : Text → RunOutcome → List AutomationRun → List AutomationRun
complete_all run_id outcome runs =
    map (λ run. if text_eq run.id run_id then completed outcome run else run) runs

-- `complete_run`, with none for the LookupError of a run that is not in the table.
unfoldable pub complete_run : Text → RunOutcome → List AutomationRun → Option (List AutomationRun)
complete_run run_id outcome runs =
    if has_id run_id runs then some (complete_all run_id outcome runs) else none

-- `get_run_cycle`
unfoldable pub get_run_cycle : Text → List AutomationRunCycle → Option AutomationRunCycle
get_run_cycle cycle_key [] = none
get_run_cycle cycle_key (cycle ∷ rest) =
    if text_eq cycle.cycle_key cycle_key then some cycle else get_run_cycle cycle_key rest

-- No account stands twice in a cycle, which its primary key refuses.
abbrev pub are_distinct : List (Text × ℕ) → Bool
are_distinct [] = true
are_distinct ((account_id, scheduled_for) ∷ rest) =
    not (any (λ p. text_eq p.0 account_id) rest) && are_distinct rest

-- The insertion of `create_run_cycle`, which an IntegrityError rolls back.
abbrev pub insert_cycle :
    Referenced
    → AutomationRunCycle
    → Option AutomationRunCycle
    → List AutomationRunCycle
    → List AutomationRunCycle
insert_cycle referenced cycle (some stored) cycles = cycles
insert_cycle referenced cycle none cycles =
    if has_job referenced cycle.job_id && are_distinct cycle.accounts
    then cycles ++ (cycle ∷ [])
    else cycles

-- `create_run_cycle`: the table, and the cycle that is then stored under the key; none for the LookupError
-- where there is none.
unfoldable pub create_run_cycle :
    Referenced
    → AutomationRunCycle
    → List AutomationRunCycle
    → Option (List AutomationRunCycle × AutomationRunCycle)
unfolding get_run_cycle
create_run_cycle referenced cycle cycles =
    let cycles' = insert_cycle referenced cycle (get_run_cycle cycle.cycle_key cycles) cycles in
    Option.map (λ stored. (cycles', stored)) (get_run_cycle cycle.cycle_key cycles')

-- `AUTOMATION_RUN_TRIGGER_SCHEDULED`
abbrev pub scheduled : Text
scheduled = text "scheduled"

-- `_get_or_create_scheduled_cycle`, with the dispatch plan of the job's accounts.
unfoldable pub get_or_create_scheduled_cycle :
    Referenced
    → Text
    → Text
    → ℕ
    → ℕ
    → List (Text × ℕ)
    → List AutomationRunCycle
    → Option (List AutomationRunCycle × AutomationRunCycle)
unfolding get_run_cycle create_run_cycle
get_or_create_scheduled_cycle referenced cycle_key job_id due_slot threshold_minutes dispatch_plan
      cycles =
    elim (get_run_cycle cycle_key cycles) [
      | some existing ↦ some (cycles, existing)
      | none ↦
          create_run_cycle referenced
            (record {
              cycle_key = cycle_key;
              job_id = job_id;
              trigger = scheduled;
              cycle_expected_accounts = length dispatch_plan;
              cycle_window_end = some (due_slot + threshold_minutes * 60000);
              accounts = dispatch_plan;
            })
            cycles
    ]

-- What a tick of a job needs besides the tables: its keys, the fresh identifiers of runs, and the
-- outcome of each execution, and the jobs and accounts that exist when the cycle is created and when the run
-- of an account is claimed.
pub record Tick : Type 0 where
  pub now : ℕ
  pub job_id : Text
  pub cycle_key : Text
  pub slot_key : Text → Text
  pub fresh_id : Text → Text
  pub outcome : AutomationRun → RunOutcome
  pub referenced : Referenced
  pub referenced_at : Text → Referenced

abbrev pub new_run : Tick → AutomationRunCycle → Text → ℕ → AutomationRun
new_run tick cycle account_id scheduled_for = record {
  id = tick.fresh_id account_id;
  job_id = tick.job_id;
  trigger = scheduled;
  slot_key = tick.slot_key account_id;
  cycle_key = tick.cycle_key;
  cycle_expected_accounts = some cycle.cycle_expected_accounts;
  cycle_window_end = cycle.cycle_window_end;
  scheduled_for = scheduled_for;
  started_at = tick.now;
  status = running;
  account_id = some account_id;
  finished_at = none;
  error_code = none;
  error_message = none;
  attempt_count = 0;
}

-- The runs, the accounts that have a run, and how many were executed.
abbrev pub Progress : Type 0
Progress = List AutomationRun × List Text × ℕ

-- What follows the claim of a run: its execution, if it is granted.
unfoldable pub execute_claim :
    Tick → Text → List Text → ℕ → List AutomationRun × Option AutomationRun → Option Progress
unfolding complete_run
execute_claim tick account_id existing executed (runs, none) = some (runs, existing, executed)
execute_claim tick account_id existing executed (runs, some run) =
    Option.map (λ runs'. (runs', account_id ∷ existing, executed + 1))
      (complete_run run.id (tick.outcome run) runs)

-- One account of the cycle.
unfoldable pub run_account : Tick → AutomationRunCycle → Text × ℕ → Progress → Option Progress
unfolding claim_run execute_claim
run_account tick cycle (account_id, scheduled_for) (runs, existing, executed) =
    if any (text_eq account_id) existing
    then some (runs, existing, executed)
    else if ltb tick.now scheduled_for
    then some (runs, existing, executed)
    else execute_claim tick account_id existing executed (
        claim_run (tick.referenced_at account_id) (new_run tick cycle account_id scheduled_for)
          runs)

unfoldable pub run_accounts :
    Tick → AutomationRunCycle → List (Text × ℕ) → Progress → Option Progress
unfolding run_account Option.bind
run_accounts tick cycle [] s = some s
run_accounts tick cycle (account ∷ accounts) s =
    Option.bind (run_account tick cycle account s) (run_accounts tick cycle accounts)

-- `existing_cycle_account_ids`
abbrev pub account_ids_of : Text → List AutomationRun → List Text
account_ids_of cycle_key [] = []
account_ids_of cycle_key (run ∷ runs) = elim run.account_id [
  | none ↦ account_ids_of cycle_key runs
  | some account_id ↦
      if text_eq run.cycle_key cycle_key
      then account_id ∷ account_ids_of cycle_key runs
      else account_ids_of cycle_key runs
]

-- The part of `run_due_jobs` for one job with a due slot: the tables, and how many runs were executed.
unfoldable pub run_due_job :
    Tick → ℕ → ℕ → List (Text × ℕ) → AutomationTables → Option (AutomationTables × ℕ)
unfolding get_or_create_scheduled_cycle run_accounts Option.bind
run_due_job tick due_slot threshold_minutes dispatch_plan tables =
    Option.bind
      (get_or_create_scheduled_cycle tick.referenced tick.cycle_key tick.job_id due_slot
        threshold_minutes dispatch_plan tables.cycles)
      (λ stored.
        Option.map (λ done. (record { runs = done.0; cycles = stored.0 }, done.2))
          (run_accounts tick stored.1 stored.1.accounts
            (tables.runs, account_ids_of tick.cycle_key tables.runs, 0)))
