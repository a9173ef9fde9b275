-- ===== src/Api/Answers.antt =====
-- The effect of the routes of internal/api/handler.go on the database, by their answers.
use run_state.Store.Answer.{delivered, Answer, deliver}
use run_state.Store.Types.{
  cancelled_synchronously, cancellation_requested, Outcome, Error, Clock, CancelResult,
}
use run_state.Store.Database.{find_task, Database, transact}
use run_state.Task.Model.{rejected, Decision, approved, Definition}
use run_state.Executor.Decode.{Library}
use run_state.Base.{
  ◌≤◌, String, Result-cases, Result, Option-cases, subst, Option, ◌≡◌, ◌>>=◌, ◌<◌, ℕ, refl, ok, inr,
  inl, err, arith,
}
use run_state.Api.{
  cancel_response, bad_request_or, TaskStore, serve, post_task, Response, post_reject, post_cancel,
  post_approve, get_task, get_healthz, get_events, created_response, create_task_handler,
  cancel_task_handler, Route, RequestBody, respond, decode_body, decision_response,
  decide_approval_handler, database_store, check_step_id,
}
use run_state.Store.Rows.{TaskRows}
use run_state.Store.Create.{create_task}
use run_state.Store.Approval.{decide_approval}
use run_state.Store.Control.{cancel_task}
use run_state.Api.Validation.{validate_request}
use run_state.Samples.{new_id}

transact-unchanged :
    {A : Type 0} (id : String) (body : TaskRows → Outcome (A × TaskRows)) (db : Database)
    {e : Error}
    → (transact id body db).0 ≡ err e
    → (transact id body db).1 ≡ db
unfolding transact
transact-unchanged id body db {e} h = elim (Option-cases (find_task id db)) [
  | inl gone ↦ rw (gone, transact) refl
  | inr (r, found) ↦
      let h' = rw (found, transact) at h in
      elim (Result-cases (body r)) [
        | inl ((a, r'), worked) ↦ let h'' = rw worked at h' in absurd (ground (arith, h''))
        | inr (e', failed) ↦ rw (found, transact) (rw failed refl)
      ]
]

create_task-unchanged :
    (c : Clock) (id : String) (new_id : ℕ → String) (d : Definition) (db : Database) {e : Error}
    → (create_task c id new_id d db).0 ≡ err e
    → (create_task c id new_id d db).1 ≡ db
unfolding create_task
create_task-unchanged c id new_id d db h = ground (arith, h)

module _ (lib : Library) (parse_time : String → Option ℕ) (trim_space : String → String) (c : Clock)
    (id : String) (new_id : ℕ → String) where
  abbrev answered_store : TaskStore Database
  answered_store = database_store delivered c id new_id

  -- A response of an error class carries the database of before, where the calls are answered.
  abbrev Unchanged : Database → Response × Database → Type 0
  Unchanged db p = 400 ≤ p.0.status → p.1 ≡ db

  respond-Unchanged :
      {A : Type 0} (response : Answer A → Response) (p : Outcome A × Database) (db : Database)
      → ((a : A) → (response (ok a)).status < 400)
      → ((e : Error) → p.0 ≡ err e → p.1 ≡ db)
      → Unchanged db (respond answered_store response (deliver delivered p db))
  respond-Unchanged response (ok a, after) db fine failed bad = absurd (omega (arith, fine a, bad))
  respond-Unchanged response (err e, after) db fine failed bad = failed e refl

  bad_request-Unchanged :
      {A : Type 0} (r : Result String A) (go_on : A → Response × Database) (db : Database)
      → ((a : A) → Unchanged db (go_on a))
      → Unchanged db (bad_request_or answered_store r go_on db)
  bad_request-Unchanged (err text) go_on db h bad = refl
  bad_request-Unchanged (ok a) go_on db h bad = h a bad

  decided-Unchanged :
      (decision : Decision) (task_id : String) (body : RequestBody String) (db : Database)
      → Unchanged db (decide_approval_handler answered_store trim_space decision task_id body db)
  unfolding decide_approval_handler
  decided-Unchanged decision task_id body db =
      bad_request-Unchanged (decode_body body >>= check_step_id answered_store trim_space) _ db
        (λ step_id.
          respond-Unchanged decision_response
            (transact task_id (decide_approval c step_id decision) db) db (λ a. omega arith)
            (λ e h. transact-unchanged task_id (decide_approval c step_id decision) db h))

  cancel_status : (a : CancelResult) → (cancel_response (ok a)).status < 400
  cancel_status cancellation_requested = omega arith
  cancel_status cancelled_synchronously = omega arith

  route-Unchanged :
      (route : Route) (db : Database)
      → Unchanged db (serve answered_store lib parse_time trim_space route db)
  unfolding serve create_task_handler cancel_task_handler
  route-Unchanged (post_task body) db bad =
      bad_request-Unchanged (decode_body body >>= validate_request lib parse_time) _ db
        (λ d.
          respond-Unchanged created_response (create_task c id new_id d db) db (λ a. omega arith)
            (λ e h. create_task-unchanged c id new_id d db h))
        bad
  route-Unchanged (get_task task_id) db bad = refl
  route-Unchanged (get_events task_id) db bad = refl
  route-Unchanged (post_cancel task_id) db bad =
      respond-Unchanged cancel_response (transact task_id (cancel_task c) db) db cancel_status
        (λ e h. transact-unchanged task_id (cancel_task c) db h) bad
  route-Unchanged (post_approve task_id body) db bad =
      decided-Unchanged approved task_id body db bad
  route-Unchanged (post_reject task_id body) db bad = decided-Unchanged rejected task_id body db bad
  route-Unchanged get_healthz db bad = refl

  -- A response with a status of 400 or above, to any route and with its call of the store
  -- answered, leaves the database as it was.
  pub serve-Unchanged :
      (route : Route) (db : Database) {response : Response} {db' : Database}
      → serve answered_store lib parse_time trim_space route db ≡ (response, db')
      → 400 ≤ response.status
      → db' ≡ db
  serve-Unchanged route db h = subst (Unchanged db) h (route-Unchanged route db)
