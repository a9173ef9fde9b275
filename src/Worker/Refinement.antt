-- ===== src/Worker/Refinement.antt =====
-- The calls of the worker as operations of the store (internal/worker/worker.go).
use run_state.Base.{false, String, Bool, refl, true, if◌then◌else◌}
use run_state.Store.Database.{Database, transact}
use run_state.Worker.{timeout_claim, after_timeout, cancel_claim}
use run_state.Store.Machine.{time_out, cancel_owned, run}
use run_state.Store.Types.{LeaseToken}
use run_state.Store.Control.{timeout_owned_task, cancel_owned_task}
use run_state.Store.Answer.{is_error, Answer, is_cancelled_task}
use run_state.Store.Machine.Reaches.{call-Reaches, Reaches, Reaches-trans}
use run_state.Store.Machine.Call.{Link}

module _ (id_before : String → String → Bool) where
  pub if-Reaches :
      (b : Bool) {db x y : Database}
      → Reaches id_before db x
      → Reaches id_before db y
      → Reaches id_before db (if b then x else y)
  if-Reaches true p q = p
  if-Reaches false p q = q

  pub cancel_claim-Reaches :
      (link : Link) (lease : LeaseToken) (db : Database)
      → Reaches id_before db (cancel_claim id_before link lease db).1
  unfolding run
  cancel_claim-Reaches link lease db =
      call-Reaches id_before link (transact lease.task_id (cancel_owned_task link.clock lease))
        (cancel_owned link.clock lease) db (λ d. refl)

  after_timeout-Reaches :
      (link : Link) (lease : LeaseToken) (p : Answer (Unit {0}) × Database) {db : Database}
      → Reaches id_before db p.1
      → Reaches id_before db (after_timeout id_before link lease p)
  after_timeout-Reaches link lease (answer, d) h =
      if-Reaches (is_error is_cancelled_task answer)
        (Reaches-trans id_before h (cancel_claim-Reaches link lease d)) h

  pub timeout_claim-Reaches :
      (timeout_link cancel_link : Link) (lease : LeaseToken) (db : Database)
      → Reaches id_before db (timeout_claim id_before timeout_link cancel_link lease db)
  unfolding timeout_claim run
  timeout_claim-Reaches timeout_link cancel_link lease db =
      after_timeout-Reaches cancel_link lease _ (
        call-Reaches id_before timeout_link
          (transact lease.task_id (timeout_owned_task timeout_link.clock lease))
          (time_out timeout_link.clock lease) db (λ d. refl))
