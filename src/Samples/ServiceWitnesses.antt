-- ===== src/Samples/ServiceWitnesses.antt =====
-- The theorems on the processes at the samples.
use run_state.Executor.Tool.{execute_fake_tool, check_body, receive}
use run_state.FakeTool.Handler.Retry.{invoke-retry, Agrees}
use run_state.Store.Database.{put_task, find_task, Database, transact}
use run_state.Executor.Laws.{
  validate_flaky-IsControlled, IsControlled, execute_fake_tool-IsToolResult, IsToolResult,
}
use run_state.Api.Accepted.{validate_request-IsValidDefinition, IsValidDefinition}
use run_state.Task.Json.{Json}
use run_state.Scheduler.Drained.{drain-NothingDue, NothingDue}
use run_state.Api.Effects.{create_task_handler-created, Posted, create_task_handler-Posted}
use run_state.Store.Machine.Reaches.{Reaches}
use run_state.Base.{◌≡◌, none, ok, true, arith, [], ◌∷◌, ℕ, suc, some, refl}
use run_state.Store.Answer.{delivered, answer_lost}
use run_state.Executor.Steps.{validate_flaky, decode_flaky}
use run_state.Executor.Decode.{fold_field, as_fields}
use run_state.Store.Lease.{grant_lease, assign_lease, claim_selected}
use run_state.Samples.{new_id, by_id, conflicting, at, lease}
use run_state.Api.{
  write_json, write_error, task_content, status_content, post_task, post_cancel, get_task_handler,
  database_store, create_task_handler, cancel_task_handler, serve,
}
use run_state.FakeTool.Handler.{json_content, decode_payload, check_call, reply, invoke}
use run_state.Store.Create.{unused_steps, unused_step, new_steps, new_rows, distinct_steps}
use run_state.Samples.Services.{
  worker_options, quiet_turn, quiet_scan, quiet_round, quiet_link, parse_no_time, later_created,
  flaky_document, flaky_attempt, empty_environment, echo_started, echo_request, echo_definition,
  echo_created, echo_claimed, echo_attempt, echo_body, invocation, keep, library, value_input,
  tool_environment, tool_attempt,
}
use run_state.Samples.ServiceRuns.{
  tool_environment-nonempty, later_created-IsValid, found_echo, quiet_scan-IsQuiet, echo_validated,
  echo_started_owned, echo_started_ok, echo_created-IsValid, echo_claimed-IsValid,
}
use run_state.Worker.Loop.{outcome_of, execute_from}
use run_state.Worker.Loop.Ending.{execute_from-Reaches}
use run_state.FakeTool.{record_effect, find_effect, record_all}
use run_state.Store.Rows.{find_step, TaskRows}
use run_state.Samples.Equality.{json_eq}
use run_state.Worker.Monitor.{monitor_control, heartbeat}
use run_state.Worker.Slot.{run_slot-Reaches, run_slot}
use run_state.Api.Answers.{serve-Unchanged}
use run_state.Scheduler.{drain}
use run_state.Worker.Outcome.{execute-finish_step}
use run_state.Store.Finish.{finish_step}
use run_state.Executor.{execute}
use run_state.Worker.Process.{
  new_worker, configure_worker-IsReady, configure_worker, IsReady, seconds,
}
use run_state.Config.{config_string, config_duration, config_int}
use run_state.Api.Cancel.{cancel_task_handler-IsCancelling, IsCancelling}
use run_state.Store.Control.{cancel_task}
use run_state.Worker.Monitor.Cancelled.{monitor_control-cancels, IsToCancel, IsCarriedOut}
use run_state.Store.Machine.Call.{Link}
use run_state.Store.Machine.{run_all, Operation, run}
use run_state.Store.Lock.{owns_active_lease}
use run_state.Api.Requests.{requested, performed, serve-requested}

execute_from-Reaches_example :
    (e : Database) × (execute_from by_id library lease quiet_round 3 0 (echo_claimed ∷ []) ≡ some e)
    × Reaches by_id (echo_claimed ∷ []) e
unfolding claim_selected grant_lease assign_lease new_rows new_steps
execute_from-Reaches_example =
    execute_from-Reaches by_id library lease quiet_round 3 (echo_claimed ∷ []) echo_claimed-IsValid
      found_echo (omega arith)

run_slot-Reaches_example :
    (e : Database) × (run_slot by_id library 1000 "worker_0" (quiet_turn ∷ []) (echo_created ∷ [])
      ≡ some e)
    × Reaches by_id (echo_created ∷ []) e
run_slot-Reaches_example =
    run_slot-Reaches by_id library 1000 "worker_0" (quiet_turn ∷ []) (echo_created ∷ [])
      echo_created-IsValid

-- Another process requests the cancellation before the heartbeat at 300.
abbrev requested_link : Link
requested_link = record (quiet_link 300) { others = Operation.cancel (at 250) "task_0" ∷ [] }

abbrev echo_requested : TaskRows
echo_requested = record echo_claimed {
  task = record echo_claimed.task { cancel_requested = true; updated_at = 250 };
}

echo_requested-IsToCancel :
    IsToCancel lease
      (at 300)
      (at 310)
      (run_all by_id requested_link.others (echo_claimed ∷ []))
      echo_requested
unfolding claim_selected grant_lease assign_lease new_rows new_steps run_all run transact find_task
    put_task cancel_task owns_active_lease
echo_requested-IsToCancel = record {
  found = refl;
  requested = refl;
  owned = refl;
  owned_later = refl;
}

monitor_control-cancels_example : IsCarriedOut lease (
    monitor_control by_id 1000 lease
      (heartbeat requested_link (quiet_link 310) ∷ [])
      (echo_claimed ∷ []))
monitor_control-cancels_example =
    monitor_control-cancels by_id 1000 lease (heartbeat requested_link (quiet_link 310)) []
      (echo_claimed ∷ []) refl (record { alone = refl; answered = refl }) echo_requested-IsToCancel

serve-requested_example :
    (serve
      (database_store answer_lost (at 100) "task_0" new_id)
      library
      parse_no_time
      keep
      (post_task echo_body)
      []).1
    ≡ performed library parse_no_time keep
        (at 100)
        "task_0"
        new_id
        by_id
        answer_lost
        (requested library parse_no_time keep (at 100) "task_0" new_id (post_task echo_body))
        []
serve-requested_example =
    serve-requested library parse_no_time keep (at 100) "task_0" new_id by_id answer_lost
      (post_task echo_body) []

serve-Unchanged_example : (echo_created ∷ []) ≡ (echo_created ∷ [])
unfolding serve cancel_task_handler transact find_task new_rows
serve-Unchanged_example =
    serve-Unchanged library parse_no_time keep (at 100) "task_0" new_id (post_cancel "task_9")
      (echo_created ∷ []) {response = write_error 404 "task not found"} refl (omega arith)

create_task_handler-created_example :
    (create_task_handler
        (database_store delivered (at 100) "task_0" new_id)
        library
        parse_no_time
        echo_body
        []
      ≡ (write_json 201 (task_content echo_created.task echo_created.steps), echo_created ∷ []))
    × (get_task_handler
          (database_store delivered (at 100) "task_0" new_id)
          "task_0"
          (echo_created ∷ [])
        ≡ write_json 200 (task_content echo_created.task echo_created.steps))
unfolding find_task distinct_steps new_steps unused_steps unused_step find_step
create_task_handler-created_example =
    create_task_handler-created library parse_no_time (at 100) "task_0" new_id echo_body
      echo_definition [] echo_validated refl refl refl (omega arith) refl

create_task_handler-Posted_example :
    Posted library parse_no_time
      (at 100)
      "task_0"
      new_id
      echo_body
      []
      (task_content echo_created.task echo_created.steps)
      (echo_created ∷ [])
create_task_handler-Posted_example =
    create_task_handler-Posted library parse_no_time (at 100) "task_0" new_id echo_body []
      create_task_handler-created_example.0

validate_request-IsValidDefinition_example : IsValidDefinition library echo_definition
validate_request-IsValidDefinition_example =
    validate_request-IsValidDefinition library parse_no_time echo_request echo_validated

execute_fake_tool-IsToolResult_example :
    IsToolResult library
      (tool_environment.exchange tool_attempt.idempotency_key tool_attempt.resolved_input)
      (record { size = 14; document = some value_input })
unfolding execute_fake_tool receive check_body
execute_fake_tool-IsToolResult_example =
    execute_fake_tool-IsToolResult library tool_environment tool_attempt refl

validate_flaky-IsControlled_example : IsControlled library flaky_document flaky_attempt
unfolding validate_flaky decode_flaky as_fields fold_field
validate_flaky-IsControlled_example =
    validate_flaky-IsControlled library flaky_document flaky_attempt refl refl (omega arith)

invoke-retry_example :
    (result : Json) × ((invoke library json_eq delivered (some invocation) (
        record_all json_eq
          (conflicting ∷ [])
          (invoke library json_eq delivered (some invocation) []).1)).0
      ≡ reply 200 (json_content result))
    × Agrees library json_eq (reply 200 (json_content value_input)) result
unfolding invoke check_call decode_payload as_fields fold_field record_effect find_effect json_eq
invoke-retry_example =
    invoke-retry library json_eq (some invocation) (conflicting ∷ []) [] refl refl

drain-NothingDue_example :
    (k : ℕ) × (db' : Database) × (drain by_id quiet_scan 3 0 (later_created ∷ [])
      ≡ some (suc k, db'))
    × Reaches by_id (later_created ∷ []) db'
    × NothingDue by_id (quiet_scan k) db'
unfolding new_rows
drain-NothingDue_example =
    drain-NothingDue by_id quiet_scan quiet_scan-IsQuiet 3 0 (later_created ∷ [])
      later_created-IsValid (omega arith)

execute-finish_step_example :
    (r'' : TaskRows) × (finish_step
        (at 400)
        lease
        echo_attempt
        (outcome_of (execute library tool_environment echo_attempt))
        echo_started
      ≡ ok (tt, r''))
execute-finish_step_example =
    execute-finish_step library tool_environment (λ v. refl) (λ v. omega arith)
      tool_environment-nonempty (at 300) (at 400) lease "step_0" echo_claimed echo_started_ok
      echo_started_owned

configure_worker-IsReady_example : IsReady (seconds 30) worker_options
unfolding configure_worker config_int config_duration config_string new_worker
configure_worker-IsReady_example =
    configure_worker-IsReady library.parse_duration library.parse_int empty_environment
      (some "worker_0") none {d = seconds 30} {o = worker_options} refl

cancel_task_handler-IsCancelling_example :
    (r' : TaskRows) × (find_task "task_0"
        (cancel_task_handler
          (database_store delivered (at 300) "task_1" new_id)
          "task_0"
          (echo_claimed ∷ [])).1
      ≡ some r')
    × IsCancelling 202 r'.task
unfolding cancel_task_handler transact find_task cancel_task claim_selected grant_lease assign_lease
    new_rows
cancel_task_handler-IsCancelling_example =
    cancel_task_handler-IsCancelling (at 300) "task_1" new_id "task_0" (echo_claimed ∷ [])
      {response = write_json 202 (status_content "cancellation_requested")} found_echo refl
      (omega arith)
