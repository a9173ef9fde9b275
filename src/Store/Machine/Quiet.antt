-- ===== src/Store/Machine/Quiet.antt =====
-- A call of the store that nothing disturbs: no other process commits before it, and it is answered.
use run_state.Base.{Bool, ◌≡◌, ◌∙◌, some, refl, ok, ap, [], String, List}
use run_state.Store.Database.{Database, transact, put_task, find_task, Transaction}
use run_state.Store.Answer.{Delivery, deliver, lift_answer, delivered}
use run_state.Store.Machine.Call.{Link, call}
use run_state.Store.Machine.{run_all, Operation}
use run_state.Store.Types.{Outcome}
use run_state.Store.Rows.{TaskRows}

pub record IsQuietLink (link : Link) : Type 0 where
  pub alone : link.others ≡ []
  pub answered : link.delivery ≡ delivered

module _ (id_before : String → String → Bool) where
  deliver-quiet :
      {A : Type 0} (d : Delivery) (ops : List Operation) (t : Transaction A) (db : Database)
      → ops ≡ []
      → d ≡ delivered
      → deliver d (t (run_all id_before ops db)) (run_all id_before ops db)
        ≡ (lift_answer (t db).0, (t db).1)
  unfolding run_all
  deliver-quiet d ops t db alone answered = rw alone (rw answered refl)

  pub call-quiet :
      {A : Type 0} (link : Link) (t : Transaction A) (db : Database) {a : Outcome A}
      {db' : Database}
      → IsQuietLink link
      → t db ≡ (a, db')
      → call id_before link t db ≡ (lift_answer a, db')
  unfolding call
  call-quiet link t db quiet h =
      deliver-quiet link.delivery link.others t db quiet.alone quiet.answered
      ∙ ap (λ p. (lift_answer p.0, p.1)) h

  transact-done :
      {A : Type 0} (id : String) (body : TaskRows → Outcome (A × TaskRows)) (db : Database)
      {r r' : TaskRows} {a : A}
      → find_task id db ≡ some r
      → body r ≡ ok (a, r')
      → transact id body db ≡ (ok a, put_task id r' db)
  unfolding transact
  transact-done id body db found done = rw (found, transact) (rw done refl)

  -- The same for a transaction on the rows of a task.
  pub call-transact :
      {A : Type 0} (link : Link) (id : String) (body : TaskRows → Outcome (A × TaskRows))
      (db : Database) {r r' : TaskRows} {a : A}
      → IsQuietLink link
      → find_task id db ≡ some r
      → body r ≡ ok (a, r')
      → call id_before link (transact id body) db ≡ (ok a, put_task id r' db)
  call-transact link id body db quiet found done =
      call-quiet link (transact id body) db quiet (transact-done id body db found done)
