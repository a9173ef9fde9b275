-- ===== src/Samples.antt =====
-- Runs of the store on concrete rows: a task of a tool step and an approval step, from its creation to
-- the decision. `at` is a transaction whose readings of the clock are equal.
pub mod Equality
pub mod Runs
pub mod Witnesses
pub mod Services
pub mod ServiceRuns
pub mod ServiceWitnesses
pub mod Processes
pub mod Completion
use run_state.FakeTool.{Request}
use run_state.Task.Json.{boolean, null}
use run_state.Task.Json.{string, field, Json, object, end}
use run_state.Base.{
  ◌∷◌, List, [], ok, err, ◌==◌, ℕ, if◌then◌else◌, String, none, some, Bool, true, false,
}
use run_state.Store.Types.{
  permanent, ApprovalResult, Claim, StepOutcome, StepAttempt, Outcome, LeaseToken, Clock,
}
use run_state.Task.Model.{waiting_approval, Definition, approved, StepStatus, Step, Status}
use run_state.Store.Machine.{start, control, claim, cancel, Operation}
use run_state.Store.Rows.{TaskRows}
use run_state.Store.Lease.{claim_selected}
use run_state.Store.Start.{start_step}
use run_state.Store.Approval.{wait_for_approval, decide_approval}
use run_state.Store.Create.{new_rows, idempotency_key}
use run_state.Store.Database.{Database}
use run_state.Store.Finish.{finish_step}
use run_state.Store.Scan.{claim_task}

abbrev pub at : ℕ → Clock
at t = record { select = t; lock = t; statement = t; write = t }

abbrev pub definition : Definition
definition = record {
  tenant_id = none;
  run_at = none;
  task_timeout_seconds = 600;
  steps =
      record { step_type = "tool_call"; input = object end; timeout_seconds = 30; max_attempts = 2 }
      ∷ record {
        step_type = "approval";
        input = object end;
        timeout_seconds = 30;
        max_attempts = 1;
      }
      ∷ [];
}

abbrev pub new_id : ℕ → String
new_id index = if index == 0 then "step_0" else "step_1"

abbrev pub result_rows : {A : Type 0} → TaskRows → Outcome (A × TaskRows) → TaskRows
result_rows r (ok (a, r')) = r'
result_rows r (err e) = r

abbrev pub created : TaskRows
created = new_rows (at 100) "task_0" new_id definition

-- The first worker's claim ends at 1200, and another worker claims the task after that.
abbrev pub claimed : TaskRows
claimed = (claim_selected (at 200) 1000 "worker_0" created).0

abbrev pub lease : LeaseToken
lease = record { task_id = "task_0"; worker_id = "worker_0"; lease_version = 1 }

abbrev pub next_lease : LeaseToken
next_lease = record { task_id = "task_0"; worker_id = "worker_1"; lease_version = 2 }

abbrev pub next_claim : Claim
next_claim = record {
  token = next_lease;
  lease_expires_at = some 3000;
  deadline_at = some 600000200;
}

abbrev pub attempt : StepAttempt
attempt = record {
  step_id = "step_0";
  task_id = "task_0";
  step_index = 0;
  step_type = "tool_call";
  attempt = 1;
  max_attempts = 2;
  idempotency_key = "task_0:step_0";
  resolved_input = some (object end);
  timeout_seconds = 30;
}

abbrev pub outcome : StepOutcome
outcome = record {
  output = record { size = 2; document = some (object end) };
  checkpoint = record { size = 0; document = none };
  error = "";
  failure_class = permanent;
}

abbrev pub started : TaskRows
started = result_rows claimed (start_step (at 300) lease "step_0" claimed)

abbrev pub finished : TaskRows
finished = result_rows started (finish_step (at 400) lease attempt outcome started)

abbrev pub waiting : TaskRows
waiting = result_rows finished (wait_for_approval (at 500) lease "step_1" finished)

abbrev pub decided : TaskRows
decided = result_rows waiting (decide_approval (at 600) "step_1" approved waiting)

abbrev pub by_id : String → String → Bool
by_id a b = false

abbrev pub none_locked : String → Bool
none_locked id = false

-- Two other workers and a cancellation.
abbrev pub interleaving : List Operation
interleaving =
    claim (at 2000) none_locked 1000 "worker_1"
    ∷ start (at 2100) lease "step_0"
    ∷ cancel (at 2200) "task_0"
    ∷ control (at 2300) none_locked
    ∷ []

abbrev pub approval : ApprovalResult
approval = record { decision = approved; task_status = Status.succeeded }

abbrev pub waiting_step : Step
waiting_step = record {
  id = "step_1";
  task_id = "task_0";
  index = 1;
  step_type = "approval";
  status = StepStatus.waiting_approval;
  attempt = 0;
  max_attempts = 1;
  idempotency_key = "task_0:step_1";
  input = object end;
  resolved_input = some (object end);
  output = none;
  error = none;
  approval_decision = none;
  timeout_seconds = 30;
  started_at = some 500;
  finished_at = none;
}

abbrev pub running_step : Step
running_step = record {
  id = "step_0";
  task_id = "task_0";
  index = 0;
  step_type = "tool_call";
  status = StepStatus.running;
  attempt = 1;
  max_attempts = 2;
  idempotency_key = "task_0:step_0";
  input = object end;
  resolved_input = some (object end);
  output = none;
  error = none;
  approval_decision = none;
  timeout_seconds = 30;
  started_at = some 300;
  finished_at = none;
}

abbrev pub reclaimed : Database
reclaimed = (claim_task by_id (at 2000) none_locked 1000 "worker_1" (claimed ∷ [])).1

abbrev pub old_lease : LeaseToken
old_lease = record { task_id = "task_0"; worker_id = "worker_9"; lease_version = 0 }

abbrev pub pending_step : Step
pending_step = record running_step {
  status = StepStatus.pending;
  attempt = 0;
  resolved_input = none;
  started_at = none;
}

abbrev pub checkpoint_reference : Json
checkpoint_reference = object (field "state" (object (field "$ref" (string "checkpoint") end)) end)

abbrev pub request : Request
request = record { key = "task_0:step_0"; payload = null; result = boolean true }

-- The same request under which the tool computes another result.
abbrev pub other_request : Request
other_request = record request { result = boolean false }

-- A request with the same key and another payload.
abbrev pub conflicting : Request
conflicting = record request { payload = boolean false }
