-- ===== src/Worker/Loop/Ending.antt =====
-- The rounds that the worker's loop takes (internal/worker/worker.go).
use run_state.Executor.Types.{ExecuteError, live, ContextState, deadline_passed}
use run_state.Worker.{finish_call}
use run_state.Worker.Loop.Termination.{rounds_left, AtMost, finish-fewer, AtMost-Reaches}
use run_state.Base.{
  err, arith, String, Result, Option, List, Bool-cases, Bool, leb, ◌≤◌, ◌≡◌, ◌||◌, ◌<◌, ℕ, zero,
  suc, str_eq, some, refl, ok, not, none, length, inr, inl, get_elem?,
}
use run_state.Store.Database.{load_task, find_task, Database, transact}
use run_state.Store.Machine.Laws.{IsValid}
use run_state.Store.Types.{StepAttempt, Outcome, LeaseToken}
use run_state.Executor.Decode.{Library}
use run_state.Worker.Loop.{
  again, after_start, after_load_steps, after_load, after_finish, after_execute, Round, Next,
  continue, steps_of, outcome_of, next_of, leave, is_live, execute_round, execute_from,
  execute_current,
}
use run_state.Task.Json.{RawMessage}
use run_state.Task.Model.{step_type_approval, Task, Step}
use run_state.Store.Rows.{is_running, TaskRows}
use run_state.Worker.Loop.Refinement.{execute_round-Reaches}
use run_state.Store.Machine.{start, run, run_all}
use run_state.Store.Finish.{finish_step}
use run_state.Store.Start.{start_step}
use run_state.Executor.{execute}
use run_state.Store.Answer.{delivered, answer_lost, Delivery, Answer, deliver, refused}
use run_state.Store.Machine.Reaches.{
  read-Reaches, Reaches-refl, Reaches, call-Reaches, Reaches-trans,
}
use run_state.Store.Machine.Call.{call}

module _ (id_before : String → String → Bool) (lib : Library) (lease : LeaseToken) where
  -- Where the loop goes on, it has fewer rounds left.
  abbrev Fewer : ℕ → Next × Database → Type 0
  Fewer n (again, db) = (m : ℕ) × (m < n) × AtMost lease.task_id m db
  Fewer n (leave, db) = Unit {0}

  deliver-ok :
      {A : Type 0} (d : Delivery) (p : Outcome A × Database) (before : Database) {a : A}
      → (deliver d p before).0 ≡ ok a
      → p ≡ (ok a, (deliver d p before).1)
  deliver-ok delivered (ok b, after) before h = cc
  deliver-ok delivered (err e, after) before h = absurd (ground (arith, h))
  deliver-ok refused (a, after) before h = absurd (ground (arith, h))
  deliver-ok answer_lost (a, after) before h = absurd (ground (arith, h))

  module _ (round : Round) where
    after_finish-Fewer :
        (n : ℕ) (v : Next) (p : Answer (Unit {0}) × Database)
        → (p.0 ≡ ok tt → Fewer n (v, p.1))
        → Fewer n (after_finish id_before lib lease round v p)
    after_finish-Fewer n v (ok u, db) h = h refl
    after_finish-Fewer n v (err e, db) h = tt

    finish_call-Fewer :
        (n : ℕ) (a : StepAttempt) (result : Result ExecuteError (RawMessage × RawMessage))
        (db : Database)
        → AtMost lease.task_id n db
        → (finish_call id_before round.finish lease a (outcome_of result) db).0 ≡ ok tt
        → Fewer n
            (next_of result, (finish_call id_before round.finish lease a (outcome_of result) db).1)
    unfolding call
    finish_call-Fewer n a (err e) db most h = tt
    finish_call-Fewer n a (ok output) db most h =
        let before = run_all id_before round.finish.others db in
        finish-fewer id_before round.finish.clock lease a (outcome_of (ok output)) n before refl
          (AtMost-Reaches id_before (record { ops = round.finish.others; same = refl }) most)
          (deliver-ok round.finish.delivery
            (transact lease.task_id
              (finish_step round.finish.clock lease a (outcome_of (ok output))) before)
            before h)

    after_execute-Fewer :
        (n : ℕ) (state : ContextState) (a : StepAttempt)
        (result : Result ExecuteError (RawMessage × RawMessage)) (db : Database)
        → AtMost lease.task_id n db
        → Fewer n (after_execute id_before lib lease round state a result db)
    after_execute-Fewer n deadline_passed a result db most = tt
    after_execute-Fewer n ContextState.cancelled a result db most = tt
    after_execute-Fewer n live a result db most =
        after_finish-Fewer n (next_of result) _ (finish_call-Fewer n a result db most)

    after_start-Fewer :
        (n : ℕ) (p : Answer StepAttempt × Database)
        → AtMost lease.task_id n p.1
        → Fewer n (after_start id_before lib lease round p)
    after_start-Fewer n (err e, db) most = tt
    after_start-Fewer n (ok a, db) most =
        after_execute-Fewer n round.context_executed a (execute lib round.environment a) db most

    execute_current-Fewer :
        (n : ℕ) (o : Option Step) (db : Database)
        → AtMost lease.task_id n db
        → Fewer n (execute_current id_before lib lease round o db)
    unfolding run
    execute_current-Fewer n none db most = tt
    execute_current-Fewer n (some s) db most =
        elim (Bool-cases (str_eq s.step_type step_type_approval)) [
          | inl approval ↦ rw approval tt
          | inr ordinary ↦ rw ordinary (
              after_start-Fewer n _ (
                AtMost-Reaches id_before
                  (call-Reaches id_before round.start
                    (transact lease.task_id (start_step round.start.clock lease s.id))
                    (start round.start.clock lease s.id) db (λ x. refl))
                  most))
        ]

    after_load_steps-Fewer :
        (n : ℕ) (t : Task) (p : Answer (List Step) × Database)
        → AtMost lease.task_id n p.1
        → Fewer n (after_load_steps id_before lib lease round t p)
    after_load_steps-Fewer n t (err e, db) most = tt
    after_load_steps-Fewer n t (ok steps, db) most =
        elim (Bool-cases (not (is_running t.status) || leb (length steps) t.current_step)) [
          | inl over ↦ rw over tt
          | inr more ↦ rw more (execute_current-Fewer n (get_elem? steps t.current_step) db most)
        ]

    after_load-Fewer :
        (n : ℕ) (p : Answer TaskRows × Database)
        (load_steps : Database → Answer (List Step) × Database)
        → AtMost lease.task_id n p.1
        → ((d : Database) → Reaches id_before d (load_steps d).1)
        → Fewer n (after_load id_before lib lease round p load_steps)
    after_load-Fewer n (err e, db) load_steps most reads = tt
    after_load-Fewer n (ok r, db) load_steps most reads =
        after_load_steps-Fewer n r.task (load_steps db) (AtMost-Reaches id_before (reads db) most)

    execute_round-Fewer :
        (n : ℕ) (db : Database)
        → AtMost lease.task_id n db
        → Fewer n (execute_round id_before lib lease round db)
    unfolding execute_round
    execute_round-Fewer n db most =
        after_load-Fewer n (call id_before round.load_task (λ d. (load_task lease.task_id d, d)) db)
          (call id_before round.load_steps (λ d. (ok (steps_of (find_task lease.task_id d)), d)))
          (AtMost-Reaches id_before
            (read-Reaches id_before round.load_task (load_task lease.task_id) db) most)
          (read-Reaches id_before round.load_steps (λ d. ok (steps_of (find_task lease.task_id d))))

  module _ (rounds : ℕ → Round) where
    continue-total :
        (fuel n : ℕ) (p : Next × Database) {db : Database} (go_on : Database → Option Database)
        → n ≤ fuel
        → Fewer n p
        → Reaches id_before db p.1
        → ((d : Database) (m : ℕ)
            → m < fuel
            → AtMost lease.task_id m d
            → (e : Database) × (go_on d ≡ some e) × Reaches id_before d e)
        → (e : Database) × (continue p go_on ≡ some e) × Reaches id_before db e
    continue-total fuel n (leave, d) go_on enough fewer so_far rest = (d, refl, so_far)
    continue-total fuel n (again, d) go_on enough (m, less, most) so_far rest =
        let (e, done, later) = rest d m (omega (arith, less, enough)) most in
        (e, done, Reaches-trans id_before so_far later)

    execute_from-total :
        (fuel i n : ℕ) (db : Database)
        → n < fuel
        → AtMost lease.task_id n db
        → (e : Database) × (execute_from id_before lib lease rounds fuel i db ≡ some e)
          × Reaches id_before db e
    unfolding execute_from
    execute_from-total zero i n db enough most = absurd (omega (arith, enough))
    execute_from-total (suc fuel) i n db enough most =
        elim (Bool-cases (is_live (rounds i).context)) [
          | inr over ↦ rw (over, execute_from) (db, refl, Reaches-refl id_before db)
          | inl on ↦
              rw (on, execute_from)
                (continue-total fuel n (execute_round id_before lib lease (rounds i) db)
                  (λ d. execute_from id_before lib lease rounds fuel (suc i) d)
                  (omega (arith, enough)) (execute_round-Fewer (rounds i) n db most)
                  (execute_round-Reaches id_before lib lease (rounds i) db)
                  (λ d m less most'. execute_from-total fuel (suc i) m d less most'))
        ]

    -- Where the claimed task is in a valid database with fewer rounds left than the fuel, the
    -- loop of executeClaim ends, whatever its rounds meet, and the database that it leaves comes
    -- from the first one by a sequence of operations, its own and those of the others.
    pub execute_from-Reaches :
        (fuel : ℕ) (db : Database) {r : TaskRows}
        → IsValid db
        → find_task lease.task_id db ≡ some r
        → rounds_left r < fuel
        → (e : Database) × (execute_from id_before lib lease rounds fuel 0 db ≡ some e)
          × Reaches id_before db e
    execute_from-Reaches fuel db {r} valid found enough =
        execute_from-total fuel 0 (rounds_left r) db enough
          (record { valid = valid; rows = r; found = found; left = omega arith })
