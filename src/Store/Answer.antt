-- ===== src/Store/Answer.antt =====
-- What a caller of internal/store/store.go sees of a transaction: its answer, or the failure of the call.
-- A call takes effect and is answered, or does not reach the database, or takes effect without an
-- answer.
use run_state.Base.{true, ok, false, err, Result, Bool}
use run_state.Store.Database.{Database}
use run_state.Store.Types.{Outcome, Error}

pub data Delivery : Type 0 where
  delivered refused answer_lost : Delivery

-- The errors of a call: those of the store, and any other.
pub data CallError : Type 0 where
  store_error : Error → CallError
  unavailable : CallError

abbrev pub Answer : Type 0 → Type 0
Answer A = Result CallError A

abbrev pub lift_answer : {A : Type 0} → Outcome A → Answer A
lift_answer (ok a) = ok a
lift_answer (err e) = err (store_error e)

abbrev pub deliver : {A : Type 0} → Delivery → Outcome A × Database → Database → Answer A × Database
deliver delivered (a, after) before = (lift_answer a, after)
deliver refused (a, after) before = (err unavailable, before)
deliver answer_lost (a, after) before = (err unavailable, after)

abbrev pub is_error : {A : Type 0} → (Error → Bool) → Answer A → Bool
is_error test (ok a) = false
is_error test (err unavailable) = false
is_error test (err (store_error e)) = test e

abbrev pub is_cancelled_task : Error → Bool
is_cancelled_task Error.cancelled_task = true
is_cancelled_task _ = false

abbrev pub is_deadline_exceeded : Error → Bool
is_deadline_exceeded Error.deadline_exceeded = true
is_deadline_exceeded _ = false
