-- ===== src/Store/Invariant.antt =====
-- The well-formedness of the rows of one task: the constraints of the tables, and what the operations
-- of internal/store/store.go keep between a task and its steps.
pub mod Updates
pub mod Start
pub mod Approval
pub mod Finish
pub mod Lease
pub mod Control
pub mod Wake
use run_state.Base.{ℕ, Option, none, some, Bool, true, false, ◌≡◌, ◌≤◌, ◌<◌, All, length, List}
use run_state.Task.Model.{Status, Task, Step, StepStatus}
use run_state.Store.Rows.{TaskRows, is_running, is_terminal_status}
use run_state.Store.Rows.Steps.{Indexed}
use run_state.Store.Control.{is_retry_wait}

-- Which status the current step may have under each status of the task. A task that has succeeded
-- stands past its last step.
abbrev pub agrees : Status → StepStatus → Bool
agrees Status.scheduled StepStatus.pending = true
agrees Status.runnable StepStatus.pending = true
agrees Status.runnable StepStatus.failed = true
agrees Status.running StepStatus.pending = true
agrees Status.running StepStatus.running = true
agrees Status.running StepStatus.failed = true
agrees Status.retry_wait StepStatus.failed = true
agrees Status.waiting_approval StepStatus.waiting_approval = true
agrees Status.succeeded _ = true
agrees Status.failed StepStatus.failed = true
agrees Status.cancelled StepStatus.failed = true
agrees Status.timed_out StepStatus.failed = true
agrees _ _ = false

abbrev pub is_some : {A : Type 0} → Option A → Bool
is_some none = false
is_some (some a) = true

-- A step that no decision has closed yet.
abbrev pub is_undecided : StepStatus → Bool
is_undecided StepStatus.pending = true
is_undecided StepStatus.waiting_approval = true
is_undecided _ = false

-- One step, under the status of its task and the index that the task stands at.
pub record IsConsistent (status : Status) (current : ℕ) (s : Step) : Type 0 where
  pub done : s.index < current → s.status ≡ StepStatus.succeeded
  pub active : s.index ≡ current → agrees status s.status ≡ true
  pub fresh : current < s.index → s.status ≡ StepStatus.pending
  pub untouched : s.status ≡ StepStatus.pending → s.attempt ≡ 0
  pub undecided : is_undecided s.status ≡ true → s.approval_decision ≡ none
  pub started : s.status ≡ StepStatus.running → 0 < s.attempt
  pub budget : s.attempt ≤ s.max_attempts
  pub retriable :
      s.status ≡ StepStatus.failed → is_terminal_status status ≡ false → s.attempt < s.max_attempts
  pub positive : 0 < s.max_attempts

abbrev pub AllConsistent : Status → ℕ → List Step → Type 0
AllConsistent status current steps = All (IsConsistent status current) steps

abbrev pub has_started : Status → Bool
has_started Status.running = true
has_started Status.retry_wait = true
has_started Status.waiting_approval = true
has_started _ = false

-- The columns of a task, with the number of its steps.
pub record IsCoherent (t : Task) (step_count : ℕ) : Type 0 where
  -- the constraint `task_ownership_matches_status`
  pub worker : is_some t.worker_id ≡ is_running t.status
  pub lease : is_some t.lease_expires_at ≡ is_running t.status
  pub retry : is_some t.retry_at ≡ is_retry_wait t.status
  pub deadline : has_started t.status ≡ true → is_some t.deadline_at ≡ true
  pub in_range : t.current_step ≤ step_count
  pub finished : t.status ≡ Status.succeeded → t.current_step ≡ step_count
  pub unfinished : t.current_step ≡ step_count → 0 < step_count → t.status ≡ Status.succeeded

pub record IsWellFormed (r : TaskRows) : Type 0 where
  pub indexed : Indexed 0 r.steps
  pub steps : AllConsistent r.task.status r.task.current_step r.steps
  pub task : IsCoherent r.task (length r.steps)
