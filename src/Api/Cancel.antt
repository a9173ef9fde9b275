-- ===== src/Api/Cancel.antt =====
-- What the answer to a cancellation tells (internal/api/handler.go, internal/store/store.go).
-- The status of the response, and what it says of the task.
use run_state.Base.{
  ◌≤◌, ◌∙◌, ◌<◌, sym, some, err, eq_refl, arith, ap, String, ok-injective, Option-cases, Bool-cases,
  ◌⊎◌, ◌≡◌, ℕ, true, subst, refl, ok, inr, inl,
}
use run_state.Store.Types.{
  cancelled_synchronously, Outcome, Clock, ControlOutcome, CancelResult, cancelled_outcome,
  cancellation_requested,
}
use run_state.Task.Model.{Task, Status}
use run_state.Store.Rows.{step_at, TaskRows, is_terminal_status, is_running}
use run_state.Api.{
  error_response, database_store, cancel_task_handler, cancel_response, TaskStore, Response,
}
use run_state.Store.Control.{
  is_cancelled, finish_controlled_task, finish_controlled_step, cancel_task,
}
use run_state.Store.Answer.{store_error, lift_answer, delivered, CallError}
use run_state.Store.Database.{transact, find_task, commit, Database}
use run_state.Store.Database.Rows.{id-find_task, find_task-put_task}

pub record IsCancelling (status : ℕ) (t : Task) : Type 0 where
  pub outcome :
      ((status ≡ 200) × (t.status ≡ Status.cancelled))
      ⊎ ((status ≡ 202) × (t.status ≡ Status.running) × (t.cancel_requested ≡ true))

is_cancelled-eq : (s : Status) → is_cancelled s ≡ true → s ≡ Status.cancelled
is_cancelled-eq s h = ground (arith, h)

abbrev Answers : TaskRows → CancelResult × TaskRows → Type 0
Answers r (a, r') = IsCancelling (cancel_response (ok a)).status r'.task × (r'.task.id ≡ r.task.id)

id-finish_controlled_task :
    (c : Clock) (o : ControlOutcome) (r : TaskRows)
    → (finish_controlled_task c o r).task.id ≡ r.task.id
unfolding finish_controlled_task finish_controlled_step
id-finish_controlled_task c o r = elim (Option-cases (step_at r.task.current_step r.steps)) [
  | inl none_there ↦ ground (arith, none_there)
  | inr (s, there) ↦ ground (arith, there)
]

cancel_task-Answers :
    (c : Clock) (r : TaskRows) {p : CancelResult × TaskRows} → cancel_task c r ≡ ok p → Answers r p
unfolding cancel_task finish_controlled_task
cancel_task-Answers c r {p} h = elim (Bool-cases (is_cancelled r.task.status)) [
  | inl e ↦
      let x : CancelResult × TaskRows = (cancelled_synchronously, r) in
      let y : Answers r x =
        (record { outcome = inl (refl, is_cancelled-eq r.task.status e) }, refl) in
      subst (Answers r) (ok-injective x p (cancel_task c r) (ground (arith, e)) h) y
  | inr e ↦ elim (Bool-cases (is_running r.task.status)) [
    | inl running ↦
        let x : CancelResult × TaskRows = (
          cancellation_requested,
          record r { task = record r.task { cancel_requested = true; updated_at = c.write } },
        ) in
        let y : Answers r x =
          (record { outcome = inr (refl, ground (arith, running), refl) }, refl) in
        subst (Answers r) (ok-injective x p (cancel_task c r) (ground (arith, e, running)) h) y
    | inr idle ↦ elim (Bool-cases (is_terminal_status r.task.status)) [
      | inl over ↦ absurd (ground (arith, e, over, h))
      | inr ongoing ↦
          let x : CancelResult × TaskRows =
            (cancelled_synchronously, finish_controlled_task c cancelled_outcome r) in
          let y : Answers r x = (
            record { outcome = inl (refl, refl) },
            id-finish_controlled_task c cancelled_outcome r,
          ) in
          subst (Answers r)
            (ok-injective x p (cancel_task c r) (ground (arith, e, idle, ongoing)) h) y
    ]
  ]
]

error_response-status :
    (missing conflicting failed : String) (e : CallError)
    → 400 ≤ (error_response missing conflicting failed e).status
error_response-status missing conflicting failed e = ground arith

module _ (c : Clock) (id : String) (new_id : ℕ → String) where
  abbrev answered_store : TaskStore Database
  answered_store = database_store delivered c id new_id

  answer-IsCancelling :
      (task_id : String) (db : Database) (r : TaskRows) (m : Outcome (CancelResult × TaskRows))
      → find_task task_id db ≡ some r
      → cancel_task c r ≡ m
      → (cancel_response (lift_answer (commit task_id db m).0)).status < 400
      → (r' : TaskRows) × (find_task task_id (commit task_id db m).1 ≡ some r')
        × IsCancelling (cancel_response (lift_answer (commit task_id db m).0)).status r'.task
  answer-IsCancelling task_id db r (ok (a, r')) found h fine =
      let (cancelling, same) = cancel_task-Answers c r h in
      let own = same ∙ id-find_task task_id db found in
      (
        r',
        rw (find_task-put_task task_id task_id r' db own found) (rw (eq_refl task_id) refl),
        cancelling,
      )
  answer-IsCancelling task_id db r (err e) found h fine =
      let bad =
        error_response-status "task not found" "task is already terminal" "cancel task failed"
          (store_error e) in
      absurd (omega (arith, fine, bad))

  -- A cancellation of a task that is there, if its call of the store is answered and the response
  -- is no error, leaves the task CANCELLED where it is answered 200, and RUNNING with the
  -- cancellation requested where it is answered 202; no other success is possible.
  pub cancel_task_handler-IsCancelling :
      (task_id : String) (db : Database) {r : TaskRows} {response : Response} {db' : Database}
      → find_task task_id db ≡ some r
      → cancel_task_handler answered_store task_id db ≡ (response, db')
      → response.status < 400
      → (r' : TaskRows) × (find_task task_id db' ≡ some r') × IsCancelling response.status r'.task
  unfolding cancel_task_handler transact
  cancel_task_handler-IsCancelling task_id db {r} {response} {db'} found h fine =
      let opened = rw (found, transact) at h in
      let status = ap (λ p. p.0.status) opened in
      subst
        (λ p. (r' : TaskRows) × (find_task task_id p.1 ≡ some r') × IsCancelling p.0.status r'.task)
        opened
        (answer-IsCancelling task_id db r (cancel_task c r) found refl
          (subst (λ n. n < 400) (sym status) fine))
