-- ===== src/Store/Machine/Effect.antt =====
-- What one operation does to the database: nothing, a transition of the rows of one task, or the
-- insertion of a new task (internal/store/store.go).
use run_state.Base.{
  ℕ, All, ◌≡◌, ◌∷◌, ◌++◌, true, str_eq, some, refl, ok, none, inr, inl, err, arith, [], String,
  Option-cases, Option, Bool-cases, Bool,
}
use run_state.Store.Types.{Outcome, Clock}
use run_state.Store.Database.{Database, transact, put_task, find_task, commit}
use run_state.Task.Model.{Definition}
use run_state.Store.Invariant.{IsWellFormed}
use run_state.Store.Database.Rows.{first_by_sound, Keyed}
use run_state.Store.Machine.{
  wake_retry, Operation, time_out, start, run, renew, finish, decide, create, control, claim,
  cancel_owned, cancel, await,
}
use run_state.Store.Rows.{TaskRows}
use run_state.Store.Transition.{
  wakes, Transition, times_out, starts, renews, finishes, decides, controls, claims, cancels_owned,
  cancels, awaits,
}
use run_state.Store.Control.{
  wake_retry_task, cancel_owned_task, timeout_owned_task, control_selected, control_due,
  cancel_task,
}
use run_state.Store.Scan.{
  wake_due_retry, claim_candidate, retry_candidate, process_due_control, control_row,
  control_candidate, claim_task, claim_row,
}
use run_state.Store.Lease.{renew_lease, claim_selected}
use run_state.Store.Create.{create_task, insertable, new_rows}
use run_state.Store.Approval.{wait_for_approval, decide_approval}
use run_state.Store.Finish.{finish_step}
use run_state.Store.Create.Initial.{new_rows-IsWellFormed}
use run_state.Store.Start.{start_step}
use run_state.Store.Constraints.{IsStorable, AllUnused}
use run_state.Samples.{new_id}
use run_state.Store.Constraints.Created.{unused_steps-AllUnused, new_rows-IsStorable}

pub data Effect (db db' : Database) : Type 0 where
  unchanged : db' ≡ db → Effect db db'
  changes :
      (id : String) (r r' : TaskRows)
      → find_task id db ≡ some r
      → Transition r r'
      → db' ≡ put_task id r' db
      → Effect db db'
  inserts :
      (r : TaskRows)
      → find_task r.task.id db ≡ none
      → IsWellFormed r
      → IsStorable r
      → All (AllUnused r.steps) db
      → db' ≡ db ++ r ∷ []
      → Effect db db'

commit-Effect :
    {A : Type 0} (id : String) (db : Database) (r : TaskRows) (m : Outcome (A × TaskRows))
    → find_task id db ≡ some r
    → ((a : A) (r' : TaskRows) → m ≡ ok (a, r') → Transition r r')
    → Effect db (commit id db m).1
commit-Effect id db r (ok (a, r')) found step = changes id r r' found (step a r' refl) refl
commit-Effect id db r (err e) found step = unchanged refl

transact-Effect :
    {A : Type 0} (id : String) (body : TaskRows → Outcome (A × TaskRows)) (db : Database)
    → ((r : TaskRows) (a : A) (r' : TaskRows) → body r ≡ ok (a, r') → Transition r r')
    → Effect db (transact id body db).1
unfolding transact
transact-Effect id body db step = elim (Option-cases (find_task id db)) [
  | inl e ↦ rw (e, transact) (unchanged refl)
  | inr (r, e) ↦ rw (e, transact) (commit-Effect id db r (body r) e (step r))
]

create_task-Effect :
    (c : Clock) (id : String) (new_id : ℕ → String) (d : Definition) (db : Database)
    → Effect db (create_task c id new_id d db).1
unfolding create_task
create_task-Effect c id new_id d db = elim (Bool-cases (insertable (new_rows c id new_id d) d db)) [
  | inl e ↦
      rw (e, create_task)
        (inserts (new_rows c id new_id d) (unfold insertable in ground arith)
          (new_rows-IsWellFormed c id new_id d db e) (new_rows-IsStorable c id new_id d db e)
          (unused_steps-AllUnused (new_rows c id new_id d).steps db
            (unfold insertable in ground arith))
          refl)
  | inr e ↦ rw (e, create_task) (unchanged refl)
]

module _ (id_before : String → String → Bool) where
  claim_row-Effect :
      (c : Clock) (skip : String → Bool) (lease_duration : ℕ) (worker : String) (db : Database)
      → Keyed db
      → Effect db
          (claim_row id_before c lease_duration worker db (claim_candidate id_before c skip db)).1
  unfolding claim_candidate
  claim_row-Effect c skip lease_duration worker db keyed =
      elim (Option-cases (claim_candidate id_before c skip db)) [
        | inl e ↦ rw e (unchanged refl)
        | inr (r, e) ↦
            let (test, found) = first_by_sound _ _ db keyed e in
            rw e (
              changes r.task.id r (claim_selected c lease_duration worker r).0 found
                (claims c lease_duration worker c.select (ground arith) refl) refl)
      ]

  claim_task-Effect :
      (c : Clock) (skip : String → Bool) (lease_duration : ℕ) (worker : String) (db : Database)
      → Keyed db
      → Effect db (claim_task id_before c skip lease_duration worker db).1
  unfolding claim_task
  claim_task-Effect c skip lease_duration worker db keyed = elim (Bool-cases (str_eq worker "")) [
    | inl e ↦ rw (e, claim_task) (unchanged refl)
    | inr e ↦ rw (e, claim_task) (claim_row-Effect c skip lease_duration worker db keyed)
  ]

  control_row-Effect :
      (c : Clock) (db : Database) (r : TaskRows) (o : Option TaskRows)
      → find_task r.task.id db ≡ some r
      → control_due r.task c.select ≡ true
      → control_selected c r ≡ o
      → Effect db (control_row id_before db r.task.id o).1
  control_row-Effect c db r none found test h = unchanged refl
  control_row-Effect c db r (some r') found test h =
      changes r.task.id r r' found (controls c c.select test h) refl

  process_due_control-Effect :
      (c : Clock) (skip : String → Bool) (db : Database)
      → Keyed db
      → Effect db (process_due_control id_before c skip db).1
  unfolding process_due_control control_candidate
  process_due_control-Effect c skip db keyed =
      elim (Option-cases (control_candidate id_before c skip db)) [
        | inl e ↦ rw (e, process_due_control) (unchanged refl)
        | inr (r, e) ↦
            let (test, found) = first_by_sound _ _ db keyed e in
            rw (e, process_due_control)
              (control_row-Effect c db r (control_selected c r) found (ground arith) refl)
      ]

  wake_due_retry-Effect :
      (c : Clock) (skip : String → Bool) (db : Database)
      → Keyed db
      → Effect db (wake_due_retry id_before c skip db).1
  unfolding wake_due_retry retry_candidate
  wake_due_retry-Effect c skip db keyed =
      elim (Option-cases (retry_candidate id_before c skip db)) [
        | inl e ↦ rw (e, wake_due_retry) (unchanged refl)
        | inr (r, e) ↦
            let (test, found) = first_by_sound _ _ db keyed e in
            rw (e, wake_due_retry)
              (changes r.task.id r (wake_retry_task c r) found
                (wakes c c.select (ground arith) refl) refl)
      ]

  -- Every operation has one of the three effects.
  pub run-Effect : (op : Operation) (db : Database) → Keyed db → Effect db (run id_before op db)
  unfolding run
  run-Effect (create c id new_id d) db keyed = create_task-Effect c id new_id d db
  run-Effect (claim c skip lease_duration worker) db keyed =
      claim_task-Effect c skip lease_duration worker db keyed
  run-Effect (renew c lease_duration lease) db keyed =
      transact-Effect lease.task_id (renew_lease c lease_duration lease) db
        (λ r a r' h. renews c lease_duration lease h)
  run-Effect (start c lease step_id) db keyed =
      transact-Effect lease.task_id (start_step c lease step_id) db
        (λ r a r' h. starts c lease step_id a h)
  run-Effect (await c lease step_id) db keyed =
      transact-Effect lease.task_id (wait_for_approval c lease step_id) db
        (λ r a r' h. awaits c lease step_id h)
  run-Effect (decide c id step_id decision) db keyed =
      transact-Effect id (decide_approval c step_id decision) db
        (λ r a r' h. decides c step_id decision a h)
  run-Effect (finish c lease a o) db keyed =
      transact-Effect lease.task_id (finish_step c lease a o) db
        (λ r u r' h. finishes c lease a o h)
  run-Effect (time_out c lease) db keyed =
      transact-Effect lease.task_id (timeout_owned_task c lease) db
        (λ r a r' h. times_out c lease h)
  run-Effect (cancel c id) db keyed =
      transact-Effect id (cancel_task c) db (λ r a r' h. cancels c a h)
  run-Effect (cancel_owned c lease) db keyed =
      transact-Effect lease.task_id (cancel_owned_task c lease) db
        (λ r a r' h. cancels_owned c lease h)
  run-Effect (control c skip) db keyed = process_due_control-Effect c skip db keyed
  run-Effect (wake_retry c skip) db keyed = wake_due_retry-Effect c skip db keyed
