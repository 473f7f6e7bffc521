-- ===== src/Automations/Runs/Tests.antt =====
-- Cycles and runs of automations, on concrete data.
use codex_octopus.Base.{ℕ, ◌≡◌, refl, none, some, List, [], ◌∷◌, ◌++◌}
use codex_octopus.Base.Text.{Text, text}
use codex_octopus.Automations.Runs.{
  AutomationRunCycle, AutomationTables, RunOutcome, RunStatus, Tick, Referenced, AutomationRunCycle,
  claim_run, new_run, run_due_job, get_or_create_scheduled_cycle, claim_run, complete_run,
  get_run_cycle, create_run_cycle, run_account, run_accounts, execute_claim,
}
use codex_octopus.Automations.Runs.Claims.{RunStatement, claiming, completing, grants, claims_once}
use mathlib.Core.Option

abbrev outcome : RunOutcome
outcome = record {
  status = RunStatus.success;
  finished_at = 20;
  account_id = some (text "a");
  error_code = none;
  error_message = none;
  attempt_count = 1;
}

abbrev everyone : Referenced
everyone = record { job_ids = text "job" ∷ []; account_ids = text "a" ∷ text "b" ∷ [] }

abbrev tick : Tick
tick = record {
  now = 10;
  job_id = text "job";
  cycle_key = text "cycle";
  slot_key = λ account_id. text "slot:" ++ account_id;
  fresh_id = λ account_id. text "run:" ++ account_id;
  outcome = λ run. outcome;
  referenced = everyone;
  referenced_at = λ account_id. everyone;
}

abbrev no_tables : AutomationTables
no_tables = record { runs = []; cycles = [] }

abbrev plan : List (Text × ℕ)
plan = (text "a", 5) ∷ (text "b", 15) ∷ []

-- The first tick runs the account that is due; a second one, with another plan, runs nothing.
first_tick : Option.map (λ r. r.1) (run_due_job tick 5 1 plan no_tables) ≡ some 1
unfolding run_due_job get_or_create_scheduled_cycle get_run_cycle create_run_cycle run_accounts
    run_account claim_run execute_claim complete_run Option.bind
first_tick = refl

second_tick :
    Option.map
      (λ r. r.1)
      (Option.bind (run_due_job tick 5 1 plan no_tables) (λ r. run_due_job tick 5 1 [] r.0))
    ≡ some 0
unfolding run_due_job get_or_create_scheduled_cycle get_run_cycle create_run_cycle run_accounts
    run_account claim_run execute_claim complete_run Option.bind
second_tick = refl

abbrev scheduled_cycle : AutomationRunCycle
scheduled_cycle = record {
  cycle_key = text "cycle";
  job_id = text "job";
  trigger = text "scheduled";
  cycle_expected_accounts = 2;
  cycle_window_end = some 60005;
  accounts = plan;
}

-- A run is not claimed for an account that is gone.
claims_none :
    claim_run (record everyone { account_ids = [] }) (new_run tick scheduled_cycle (text "a") 5) []
    ≡ ([], none)
unfolding claim_run
claims_none = refl

abbrev cycle : AutomationRunCycle
cycle = record {
  cycle_key = text "cycle";
  job_id = text "job";
  trigger = text "scheduled";
  cycle_expected_accounts = 1;
  cycle_window_end = none;
  accounts = plan;
}

-- Two instances claim the slot of an account, before and after the first has completed its run.
abbrev rivals : List RunStatement
rivals =
    claiming everyone (new_run tick cycle (text "a") 5)
    ∷ completing (text "run:a") outcome
    ∷ claiming everyone (new_run tick cycle (text "a") 5)
    ∷ []

claims_once_example : (grants (text "slot:a") rivals []).1 ≡ 1
claims_once_example = claims_once (text "slot:a") rivals [] refl
