-- ===== src/Samples/Services.antt =====
-- Concrete processes around the store: a library, a request for a task of one echo step, a worker's rounds
-- and a scheduler's scans.
use run_state.Executor.Types.{Environment, live, answered}
use run_state.Executor.Decode.{Library, pos}
use run_state.Base.{◌∷◌, [], String, List, Option, ℕ, true, str_eq, some, ok, none, if◌then◌else◌}
use run_state.Api.Validation.{CreateTaskRequest}
use run_state.Task.Model.{Status, Definition}
use run_state.FakeTool.Handler.{Invocation}
use run_state.Task.Json.{Json, number}
use run_state.Store.Machine.Call.{Link}
use run_state.Api.{RequestBody}
use run_state.Worker.Loop.{Round}
use run_state.Scheduler.{Scan}
use run_state.Store.Types.{StepAttempt}
use run_state.Store.Rows.{TaskRows}
use run_state.Worker.Slot.{Turn}
use run_state.Store.Lease.{claim_selected}
use run_state.Store.Answer.{delivered}
use run_state.Store.Create.{new_rows}
use run_state.Samples.{none_locked, new_id, lease, result_rows, end, boolean, field, at, object}
use run_state.Store.Database.{Database}
use run_state.Store.Start.{start_step}
use run_state.Worker.Process.{seconds, Options}

abbrev pub library : Library
library = record {
  same_key = str_eq;
  parse_int = λ t. if str_eq t "1" then some (pos 1) else none;
  parse_duration = λ t. if str_eq t "1s" then some (pos 1000000000) else none;
  marshal = λ v. record { size = 2; document = some v };
  decimal = λ n. "0";
  quote = λ t. t;
}

abbrev pub parse_no_time : String → Option ℕ
parse_no_time text = none

abbrev pub keep : String → String
keep text = text

abbrev pub value_input : Json
value_input = object (field "value" (boolean true) end)

abbrev pub echo_request : CreateTaskRequest
echo_request = record {
  tenant_id = none;
  run_at = record { size = 0; document = none };
  task_timeout_seconds = some (pos 600);
  steps =
      record {
        step_type = "echo";
        input = record { size = 14; document = some value_input };
        timeout_seconds = none;
        max_attempts = none;
      }
      ∷ [];
}

abbrev pub echo_body : RequestBody CreateTaskRequest
echo_body = record { decoded = ok echo_request; at_end = true }

abbrev pub echo_definition : Definition
echo_definition = record {
  tenant_id = none;
  run_at = none;
  task_timeout_seconds = 600;
  steps =
      record { step_type = "echo"; input = value_input; timeout_seconds = 30; max_attempts = 3 }
      ∷ [];
}

abbrev pub echo_created : TaskRows
echo_created = new_rows (at 100) "task_0" new_id echo_definition

abbrev pub echo_claimed : TaskRows
echo_claimed = (claim_selected (at 200) 1000 "worker_0" echo_created).0

-- A task that is to run at 500.
abbrev pub later_definition : Definition
later_definition = record echo_definition { run_at = some 500 }

abbrev pub later_created : TaskRows
later_created = new_rows (at 100) "task_0" new_id later_definition

abbrev pub quiet_link : ℕ → Link
quiet_link t = record { others = []; clock = at t; delivery = delivered }

-- The fake tool gives the value back.
abbrev pub tool_environment : Environment
tool_environment = record {
  tool_url = "http://tool";
  url_is_valid = true;
  exchange = λ key payload. answered 200 (record { size = 14; document = payload });
  waited = live;
}

abbrev pub quiet_round : ℕ → Round
quiet_round i = record {
  context = live;
  load_task = quiet_link 300;
  load_steps = quiet_link 300;
  wait = quiet_link 300;
  context_waited = live;
  start = quiet_link 300;
  environment = tool_environment;
  context_executed = live;
  finish = quiet_link 400;
  time_out = quiet_link 400;
  cancel = quiet_link 400;
}

abbrev pub quiet_turn : Turn
quiet_turn = record { claim = quiet_link 200; skip = none_locked; rounds = quiet_round }

abbrev pub quiet_scan : ℕ → Scan
quiet_scan i = record { context = live; link = quiet_link 1000; skip = none_locked }

abbrev pub tool_attempt : StepAttempt
tool_attempt = record {
  step_id = "step_0";
  task_id = "task_0";
  step_index = 0;
  step_type = "fake_tool";
  attempt = 2;
  max_attempts = 3;
  idempotency_key = "task_0:step_0";
  resolved_input = some value_input;
  timeout_seconds = 30;
}

-- An input under which the first attempt fails for a time.
abbrev pub flaky_document : Json
flaky_document = object (field "temporary_failures" (number "1") (field "value" (boolean true) end))

abbrev pub flaky_attempt : StepAttempt
flaky_attempt = record tool_attempt { step_type = "flaky"; resolved_input = some flaky_document }

abbrev pub invocation : Invocation
invocation = record {
  idempotency_key = "task_0:step_0";
  payload = record { size = 14; document = some value_input };
}

abbrev pub echo_attempt : StepAttempt
echo_attempt = record tool_attempt { step_type = "echo"; attempt = 1 }

abbrev pub echo_started : TaskRows
echo_started = result_rows echo_claimed (start_step (at 300) lease "step_0" echo_claimed)

-- The statuses of the tasks.
abbrev pub statuses : Database → List Status
statuses [] = []
statuses (r ∷ rest) = r.task.status ∷ statuses rest

abbrev pub statuses_of : Option Database → List Status
statuses_of none = []
statuses_of (some db) = statuses db

-- An environment in which nothing is set.
abbrev pub empty_environment : String → String
empty_environment name = ""

abbrev pub worker_options : Options
worker_options = record {
  worker_id = "worker_0";
  concurrency = pos 1;
  poll_interval = seconds 1;
  heartbeat_interval = seconds 10;
  cancellation_interval = seconds 1;
  fake_tool_url = "";
}
