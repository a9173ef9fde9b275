-- ===== src/Api.antt =====
-- The HTTP API (internal/api/handler.go): each handler turns a request into a call of the store and the
-- call's answer into a response.
pub mod Validation
pub mod Accepted
pub mod Effects
pub mod Answers
pub mod Requests
pub mod Cancel
use Prim.Native.String
use run_state.Base.{
  ◌>>=◌, ◌||◌, ◌>>◌, ◌++◌, ℕ, true, str_eq, ok, not, if◌then◌else◌, guard, false, err, String,
  Result, Option, List, Bool,
}
use run_state.Store.Types.{
  not_found, cancellation_requested, Error, Clock, CancelResult, ApprovalResult, conflict,
  cancelled_synchronously,
}
use run_state.Store.Answer.{deliver, store_error, Answer, Delivery, CallError}
use run_state.Api.Validation.{validate_request, CreateTaskRequest}
use run_state.Store.Database.{transact, load_events, load_task, Database}
use run_state.Task.Model.{rejected, approved, Task, Decision, Step, Event, Definition}
use run_state.Executor.Decode.{Library}
use run_state.Store.Rows.{TaskRows}
use run_state.Store.Machine.{decide, cancel, create}
use run_state.Store.Create.{create_task}
use run_state.Store.Control.{cancel_task}
use run_state.Store.Approval.{decide_approval}

-- The interface `taskStore`, over the state `S` behind it.
pub record TaskStore (S : Type 0) : Type 0 where
  pub create_task : Definition → S → Answer TaskRows × S
  pub load_task : String → S → Answer TaskRows
  pub load_events : String → S → Answer (List Event)
  pub cancel_task : String → S → Answer CancelResult × S
  pub decide_approval : String → String → Decision → S → Answer ApprovalResult × S

-- The store of internal/store/store.go on the database, with the fate of each call.
abbrev pub database_store : Delivery → Clock → String → (ℕ → String) → TaskStore Database
database_store delivery c id new_id = record {
  create_task = λ definition db. deliver delivery (create_task c id new_id definition db) db;
  load_task = λ task_id db. (deliver delivery (load_task task_id db, db) db).0;
  load_events = λ task_id db. (deliver delivery (ok (load_events task_id db), db) db).0;
  cancel_task = λ task_id db. deliver delivery (transact task_id (cancel_task c) db) db;
  decide_approval = λ task_id step_id decision db.
      deliver delivery (transact task_id (decide_approval c step_id decision) db) db;
}

-- What a response carries.
pub data Content : Type 0 where
  problem : String → Content
  task_content : Task → List Step → Content
  event_content : List Event → Content
  approval_content : ApprovalResult → Content
  status_content : String → Content
  no_content : Content

pub record Response : Type 0 where
  pub status : ℕ
  pub content : Content

-- `writeJSON`
abbrev pub write_json : ℕ → Content → Response
write_json status content = record { status = status; content = content }

-- `writeError`
abbrev pub write_error : ℕ → String → Response
write_error status message = write_json status (problem message)

-- The body of a request: what its first document decodes to, or the text of the decoder's error, and
-- whether nothing follows the document. A body that is cut at `maxDocumentBytes` gives an error.
pub record RequestBody (A : Type 0) : Type 0 where
  pub decoded : Result String A
  pub at_end : Bool

-- `ensureEOF`
abbrev pub ensure_eof : Bool → Result String (Unit {0})
ensure_eof at_end = guard at_end "request body must contain one JSON document"

abbrev pub first_document : {A : Type 0} → Result String A → Result String A
first_document (ok a) = ok a
first_document (err text) = err (String.◌++◌ "invalid request: " text)

abbrev pub decode_body : {A : Type 0} → RequestBody A → Result String A
decode_body body = do input ← first_document body.decoded; ensure_eof body.at_end; ok input

-- `errors.Is(err, store.ErrNotFound)`
abbrev pub is_not_found : CallError → Bool
is_not_found (store_error Error.not_found) = true
is_not_found _ = false

-- `errors.Is(err, store.ErrConflict)`
abbrev pub is_conflict : CallError → Bool
is_conflict (store_error Error.conflict) = true
is_conflict _ = false

-- The `switch` on the error of a call.
abbrev pub error_response : String → String → String → CallError → Response
error_response missing conflicting failed e =
    if is_not_found e
    then write_error 404 missing
    else if is_conflict e
    then write_error 409 conflicting
    else write_error 500 failed

abbrev pub created_response : Answer TaskRows → Response
created_response (ok r) = write_json 201 (task_content r.task r.steps)
created_response (err e) = write_error 500 "create task failed"

abbrev pub cancel_response : Answer CancelResult → Response
cancel_response (ok cancellation_requested) =
    write_json 202 (status_content "cancellation_requested")
cancel_response (ok cancelled_synchronously) = write_json 200 (status_content "cancelled")
cancel_response (err e) =
    error_response "task not found" "task is already terminal" "cancel task failed" e

abbrev pub decision_response : Answer ApprovalResult → Response
decision_response (ok result) = write_json 200 (approval_content result)
decision_response (err e) =
    error_response "task or step not found"
      "approval is not current or conflicts with a saved decision" "decide approval failed" e

abbrev pub load_response : Answer TaskRows → Response
load_response (ok r) = write_json 200 (task_content r.task r.steps)
load_response (err e) =
    if is_not_found e then write_error 404 "task not found" else write_error 500 "load task failed"

abbrev pub events_response : Answer (List Event) → Response
events_response (ok events) = write_json 200 (event_content events)
events_response (err e) = write_error 500 "load task events failed"

module _ {S : Type 0} (store : TaskStore S) where
  abbrev pub respond : {A : Type 0} → (Answer A → Response) → Answer A × S → Response × S
  respond response (answer, s) = (response answer, s)

  abbrev pub bad_request_or : {A : Type 0} → Result String A → (A → Response × S) → S → Response × S
  bad_request_or (err text) go_on s = (write_error 400 text, s)
  bad_request_or (ok a) go_on s = go_on a

  -- `strings.TrimSpace(input.StepID) == "" || input.StepID != strings.TrimSpace(input.StepID)`
  abbrev pub check_step_id : (String → String) → String → Result String String
  check_step_id trim_space step_id =
      if str_eq (trim_space step_id) "" || not (str_eq step_id (trim_space step_id))
      then err "step_id is required"
      else ok step_id

  -- `POST /tasks`
  unfoldable pub create_task_handler :
      Library → (String → Option ℕ) → RequestBody CreateTaskRequest → S → Response × S
  create_task_handler lib parse_time body s =
      bad_request_or (decode_body body >>= validate_request lib parse_time)
        (λ definition. respond created_response (store.create_task definition s)) s

  -- `GET /tasks/{id}`
  unfoldable pub get_task_handler : String → S → Response
  get_task_handler id s = load_response (store.load_task id s)

  -- `GET /tasks/{id}/events`
  unfoldable pub get_events_handler : String → S → Response
  get_events_handler id s = events_response (store.load_events id s)

  -- `POST /tasks/{id}/cancel`
  unfoldable pub cancel_task_handler : String → S → Response × S
  cancel_task_handler id s = respond cancel_response (store.cancel_task id s)

  -- `POST /tasks/{id}/approve` and `/reject`
  unfoldable pub decide_approval_handler :
      (String → String) → Decision → String → RequestBody String → S → Response × S
  decide_approval_handler trim_space decision id body s =
      bad_request_or (decode_body body >>= check_step_id trim_space)
        (λ step_id. respond decision_response (store.decide_approval id step_id decision s)) s

-- The routes of `New`.
pub data Route : Type 0 where
  post_task : RequestBody CreateTaskRequest → Route
  get_task : String → Route
  get_events : String → Route
  post_cancel : String → Route
  post_approve : String → RequestBody String → Route
  post_reject : String → RequestBody String → Route
  get_healthz : Route

module _ {S : Type 0} (store : TaskStore S) (lib : Library) (parse_time : String → Option ℕ)
    (trim_space : String → String) where
  -- The handlers that `New` registers.
  unfoldable pub serve : Route → S → Response × S
  serve (post_task body) s = create_task_handler store lib parse_time body s
  serve (get_task id) s = (get_task_handler store id s, s)
  serve (get_events id) s = (get_events_handler store id s, s)
  serve (post_cancel id) s = cancel_task_handler store id s
  serve (post_approve id body) s = decide_approval_handler store trim_space approved id body s
  serve (post_reject id body) s = decide_approval_handler store trim_space rejected id body s
  serve get_healthz s = (write_json 204 no_content, s)
