-- ===== src/Api/Requests.antt =====
-- The operation that each route of internal/api/handler.go asks of the store, and what becomes of it.
use run_state.Store.Answer.{Answer, deliver, refused, delivered, answer_lost, Delivery}
use run_state.Base.{◌≡◌, Bool, ◌>>=◌, ℕ, some, refl, ok, none, err, String, Result, Option}
use run_state.Store.Types.{Outcome, Clock}
use run_state.Store.Database.{Database, transact}
use run_state.Task.Model.{rejected, Decision, approved}
use run_state.Executor.Decode.{Library}
use run_state.Store.Machine.{run, Operation}
use run_state.Api.{
  RequestBody, get_healthz, get_task, get_events, serve, respond, post_task, post_reject,
  post_cancel, post_approve, decode_body, decision_response, decide_approval_handler,
  database_store, created_response, create_task_handler, check_step_id, cancel_task_handler,
  cancel_response, bad_request_or, Route, Response,
}
use run_state.Store.Control.{cancel_task}
use run_state.Store.Create.{create_task}
use run_state.Store.Approval.{decide_approval}
use run_state.Api.Validation.{validate_request}

module _ (lib : Library) (parse_time : String → Option ℕ) (trim_space : String → String) (c : Clock)
    (id : String) (new_id : ℕ → String) where
  abbrev requested_by : {A : Type 0} → Result String A → (A → Operation) → Option Operation
  requested_by (ok a) operation = some (operation a)
  requested_by (err text) operation = none

  abbrev requested_decision : Decision → String → RequestBody String → Option Operation
  requested_decision decision task_id body =
      requested_by
        (decode_body body >>= check_step_id (database_store delivered c id new_id) trim_space)
        (λ step_id. Operation.decide c task_id step_id decision)

  -- The operation that a request asks for: none for the routes that only read, and none where the body
  -- is refused.
  abbrev pub requested : Route → Option Operation
  requested (post_task body) =
      requested_by (decode_body body >>= validate_request lib parse_time)
        (λ d. Operation.create c id new_id d)
  requested (get_task task_id) = none
  requested (get_events task_id) = none
  requested (post_cancel task_id) = some (Operation.cancel c task_id)
  requested (post_approve task_id body) = requested_decision approved task_id body
  requested (post_reject task_id body) = requested_decision rejected task_id body
  requested get_healthz = none

  module _ (id_before : String → String → Bool) where
    -- The database after the operation, if it got there.
    abbrev pub performed : Delivery → Option Operation → Database → Database
    performed fate none db = db
    performed refused (some op) db = db
    performed delivered (some op) db = run id_before op db
    performed answer_lost (some op) db = run id_before op db

    respond-performed :
        {A : Type 0} (fate : Delivery) (response : Answer A → Response) (t : Outcome A × Database)
        (op : Operation) (db : Database)
        → t.1 ≡ run id_before op db
        → (respond (database_store fate c id new_id) response (deliver fate t db)).1
          ≡ performed fate (some op) db
    respond-performed delivered response (a, after) op db same = same
    respond-performed refused response (a, after) op db same = refl
    respond-performed answer_lost response (a, after) op db same = same

    body-performed :
        {A : Type 0} (fate : Delivery) (r : Result String A) (go_on : A → Response × Database)
        (operation : A → Operation) (db : Database)
        → ((a : A) → (go_on a).1 ≡ performed fate (some (operation a)) db)
        → (bad_request_or (database_store fate c id new_id) r go_on db).1
          ≡ performed fate (requested_by r operation) db
    body-performed fate (ok a) go_on operation db h = h a
    body-performed fate (err text) go_on operation db h = refl

    decided-performed :
        (fate : Delivery) (decision : Decision) (task_id : String) (body : RequestBody String)
        (db : Database)
        → (decide_approval_handler
            (database_store fate c id new_id)
            trim_space
            decision
            task_id
            body
            db).1
          ≡ performed fate (requested_decision decision task_id body) db
    unfolding decide_approval_handler run
    decided-performed fate decision task_id body db =
        body-performed fate
          (decode_body body >>= check_step_id (database_store fate c id new_id) trim_space) _
          (λ step_id. Operation.decide c task_id step_id decision) db
          (λ step_id.
            respond-performed fate decision_response
              (transact task_id (decide_approval c step_id decision) db)
              (Operation.decide c task_id step_id decision) db refl)

    -- Each route does to the database what it asks for, and nothing else. The database after a
    -- request is that after one operation, or that of before where the call of the store was
    -- refused: the creation of the validated definition for a POST of a task, the cancellation of
    -- the task for /cancel, the decision approved on the given step for /approve and rejected for
    -- /reject, each with the ids and the clock of the call. A request whose body is refused and
    -- one to any other route leave it as it was.
    pub serve-requested :
        (fate : Delivery) (route : Route) (db : Database)
        → (serve (database_store fate c id new_id) lib parse_time trim_space route db).1
          ≡ performed fate (requested route) db
    unfolding serve create_task_handler cancel_task_handler run
    serve-requested fate (post_task body) db =
        body-performed fate (decode_body body >>= validate_request lib parse_time) _
          (λ d. Operation.create c id new_id d) db
          (λ d.
            respond-performed fate created_response (create_task c id new_id d db)
              (Operation.create c id new_id d) db refl)
    serve-requested fate (get_task task_id) db = refl
    serve-requested fate (get_events task_id) db = refl
    serve-requested fate (post_cancel task_id) db =
        respond-performed fate cancel_response (transact task_id (cancel_task c) db)
          (Operation.cancel c task_id) db refl
    serve-requested fate (post_approve task_id body) db =
        decided-performed fate approved task_id body db
    serve-requested fate (post_reject task_id body) db =
        decided-performed fate rejected task_id body db
    serve-requested fate get_healthz db = refl
