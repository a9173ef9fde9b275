-- ===== src/Store/Invariant/Start.antt =====
-- Well-formedness after `StartStep` (internal/store/store.go).
use run_state.Base.{String, ok, ◌≡◌, arith, refl, ◌<◌, ℕ}
use run_state.Task.Json.{Json}
use run_state.Task.Model.{Status, Step}
use run_state.Store.Types.{LeaseToken, StepAttempt, Clock}
use run_state.Store.Rows.{TaskRows}
use run_state.Store.Rows.Steps.{Keeps, All-find_step, id-find_step}
use run_state.Store.Lock.{validate_ownership, LockedTask}
use run_state.Store.Start.{begin_attempt, start_step}
use run_state.Store.Start.Success.{start_step-Started}
use run_state.Store.Invariant.{IsConsistent, IsWellFormed}
use run_state.Store.Invariant.Updates.{stay-IsWellFormed}

pub running-validate_ownership :
    (locked : LockedTask) (lease : LeaseToken)
    → validate_ownership locked lease ≡ ok tt
    → locked.status ≡ Status.running
unfolding validate_ownership
running-validate_ownership locked lease h = ground arith

begin_attempt-Keeps : (c : Clock) (input : Json) → Keeps (begin_attempt c input)
begin_attempt-Keeps c input = record { id = λ s. refl; index = λ s. refl }

begin_attempt-IsConsistent :
    (c : Clock) (input : Json) (status : Status) (s : Step)
    → status ≡ Status.running
    → s.attempt < s.max_attempts
    → {current : ℕ} → s.index ≡ current
    → IsConsistent status current s
    → IsConsistent status current (begin_attempt c input s)
begin_attempt-IsConsistent c input status s running budget here h = ground arith

pub start_step-IsWellFormed :
    (c : Clock) (lease : LeaseToken) (id : String) (r : TaskRows) {a : StepAttempt} {r' : TaskRows}
    → start_step c lease id r ≡ ok (a, r')
    → IsWellFormed r
    → IsWellFormed r'
start_step-IsWellFormed c lease id r h wf =
    let p = start_step-Started c lease id r h in
    let same_id = id-find_step id r.steps p.found in
    rw (p.rows, same_id)
      (stay-IsWellFormed wf r.task _ id (begin_attempt c p.input) p.found p.startable.current
        (begin_attempt-Keeps c p.input) refl
        (begin_attempt-IsConsistent c p.input r.task.status p.step
          (running-validate_ownership _ lease p.owned) p.startable.budget p.startable.current
          (All-find_step _ id r.steps p.found wf.steps))
        wf.task)
