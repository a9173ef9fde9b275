-- ===== src/Worker/Monitor/Cancelled.antt =====
-- How the monitor of a lease carries out a cancellation that is requested (`monitorControl` and
-- `cancelClaim`, internal/worker/worker.go).
use run_state.Store.Answer.{delivered, Answer, deliver, store_error, lift_answer}
use run_state.Base.{
  ◌≡◌, eq_refl, ap, Option, String, ◌∷◌, ◌∙◌, ok, none, err, List, Bool, ℕ, true, some, refl, arith,
}
use run_state.Store.Types.{Clock, LeaseToken, cancelled_outcome, Outcome, Error}
use run_state.Store.Database.{find_task, Database, transact, put_task, Transaction}
use run_state.Store.Machine.Quiet.{call-transact, IsQuietLink}
use run_state.Store.Machine.Call.{Link, call}
use run_state.Task.Model.{Step, Status}
use run_state.Store.Rows.{step_at, TaskRows}
use run_state.Worker.Monitor.{
  stopped, renew_call, read_cancellation, monitor_control, cancellation_call, Tick, Done,
  cancellation, heartbeat,
}
use run_state.Worker.{cancel_claim}
use run_state.Store.Control.{
  finish_controlled_task, finish_controlled_step, cancellation_requested_for, cancel_owned_task,
}
use run_state.Store.Lock.{validate_ownership, owns_active_lease, lock_task}
use run_state.Store.Database.Rows.{id-find_task, find_task-put_task}
use run_state.Store.Lease.{renew_lease}
use run_state.Store.Machine.{run_all}

-- The call of a wake-up, and that of the cancellation that may follow.
abbrev pub woken : Tick → Link
woken (heartbeat link cancel_link) = link
woken (cancellation link cancel_link) = link

abbrev pub cancelling : Tick → Link
cancelling (heartbeat link cancel_link) = cancel_link
cancelling (cancellation link cancel_link) = cancel_link

-- A task whose cancellation is requested, and that runs under the lease at both times.
pub record IsToCancel (lease : LeaseToken) (now later : Clock) (db : Database) (r : TaskRows)
    : Type 0 where
  pub found : find_task lease.task_id db ≡ some r
  pub requested : r.task.cancel_requested ≡ true
  pub owned : owns_active_lease (lock_task now r.task) lease ≡ true
  pub owned_later : owns_active_lease (lock_task later r.task) lease ≡ true

-- The monitor has ended the context of the task, and the task is CANCELLED.
pub record IsCarriedOut (lease : LeaseToken) (p : Done × Database) : Type 0 where
  pub rows : TaskRows
  pub ended : p.0 ≡ stopped (store_error Error.cancelled_task)
  pub stored : find_task lease.task_id p.1 ≡ some rows
  pub status : rows.task.status ≡ Status.cancelled
  pub released : rows.task.worker_id ≡ none

module _ (id_before : String → String → Bool) (lease_duration : ℕ) (lease : LeaseToken) where
  deliver-others :
      {A : Type 0} (link : Link) (t : Transaction A) (db : Database) {a : Outcome A} {e : Database}
      → link.delivery ≡ delivered
      → t (run_all id_before link.others db) ≡ (a, e)
      → call id_before link t db ≡ (lift_answer a, e)
  unfolding call
  deliver-others link t db reached h =
      ap (λ d. deliver d (t (run_all id_before link.others db)) (run_all id_before link.others db))
        reached
      ∙ ap (λ p. (lift_answer p.0, p.1)) h

  transact-failed :
      {A : Type 0} (id : String) (body : TaskRows → Outcome (A × TaskRows)) (db : Database)
      {r : TaskRows} {e : Error}
      → find_task id db ≡ some r
      → body r ≡ err e
      → transact id body db ≡ (err e, db)
  unfolding transact
  transact-failed id body db found failed = rw (found, transact) (rw failed refl)

  module _ (now : Clock) (link : Link) (db : Database) {r : TaskRows}
      (todo : IsToCancel lease now link.clock db r) where
    cancel_claim-done :
        IsQuietLink link
        → (cancel_claim id_before link lease db).1
          ≡ put_task lease.task_id (finish_controlled_task link.clock cancelled_outcome r) db
    unfolding cancel_owned_task owns_active_lease
    cancel_claim-done quiet =
        ap (λ (p : Answer (Unit {0}) × Database). p.1)
          (call-transact id_before link lease.task_id (cancel_owned_task link.clock lease) db quiet
            todo.found (ground (arith, todo.owned_later, todo.requested)))

    controlled_id :
        (s : Option Step)
        → (finish_controlled_step link.clock cancelled_outcome s r).task.id ≡ lease.task_id
    unfolding finish_controlled_step
    controlled_id none = id-find_task lease.task_id db todo.found
    controlled_id (some s) = ground (arith, id-find_task lease.task_id db todo.found)

    cancel_claim-IsCarriedOut :
        IsQuietLink link
        → IsCarriedOut lease
            (stopped (store_error Error.cancelled_task), (cancel_claim id_before link lease db).1)
    unfolding finish_controlled_task
    cancel_claim-IsCarriedOut quiet =
        let r' = finish_controlled_task link.clock cancelled_outcome r in
        record {
          rows = r';
          ended = refl;
          stored =
              ap (find_task lease.task_id) (cancel_claim-done quiet)
              ∙ find_task-put_task lease.task_id lease.task_id r' db
                  (controlled_id (step_at r.task.current_step r.steps)) todo.found
              ∙ rw (eq_refl lease.task_id);
          status = refl;
          released = refl;
        }

    renew_lease-refused : renew_lease now lease_duration lease r ≡ err Error.cancelled_task
    unfolding renew_lease validate_ownership
    renew_lease-refused = ground (arith, todo.owned, todo.requested)

    read_cancellation-true : read_cancellation now lease db ≡ ok true
    unfolding cancellation_requested_for
    read_cancellation-true = rw todo.found (ground (arith, todo.owned, todo.requested))

  -- A cancellation that is requested by the time of a wake-up is carried out. Where the task of
  -- the lease, after what others commit before the call of a heartbeat or of a poll, has its
  -- cancellation requested and is held by the lease then and at the time of CancelOwnedTask, that
  -- call is answered, and so is CancelOwnedTask with no other process in between, the monitor
  -- ends the context of the task with ErrCancelled, and the task is CANCELLED and held by no
  -- worker.
  pub monitor_control-cancels :
      (tick : Tick) (rest : List Tick) (db : Database) {r : TaskRows}
      → (woken tick).delivery ≡ delivered
      → IsQuietLink (cancelling tick)
      → IsToCancel lease
          (woken tick).clock
          (cancelling tick).clock
          (run_all id_before (woken tick).others db)
          r
      → IsCarriedOut lease (monitor_control id_before lease_duration lease (tick ∷ rest) db)
  unfolding monitor_control
  monitor_control-cancels (heartbeat link cancel_link) rest db reached quiet todo =
      let seen = run_all id_before link.others db in
      let refused : renew_call id_before lease_duration lease link db
          ≡ (err (store_error Error.cancelled_task), seen) =
        deliver-others link (transact lease.task_id (renew_lease link.clock lease_duration lease))
          db reached
          (transact-failed lease.task_id (renew_lease link.clock lease_duration lease) seen
            todo.found (renew_lease-refused link.clock cancel_link seen todo)) in
      rw refused (cancel_claim-IsCarriedOut link.clock cancel_link seen todo quiet)
  monitor_control-cancels (cancellation link cancel_link) rest db reached quiet todo =
      let seen = run_all id_before link.others db in
      let requested : cancellation_call id_before lease_duration lease link db ≡ (ok true, seen) =
        deliver-others link (λ now. (read_cancellation link.clock lease now, now)) db reached
          (ap (λ (a : Outcome Bool). (a, seen))
            (read_cancellation-true link.clock cancel_link seen todo)) in
      rw requested (cancel_claim-IsCarriedOut link.clock cancel_link seen todo quiet)
