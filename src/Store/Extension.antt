-- ===== src/Store/Extension.antt =====
-- What every transaction keeps of the rows of a task (internal/store/store.go): the columns that are
-- set once, the step definitions, the results of steps that have succeeded, and the events.
pub mod Leased
pub mod Finished
pub mod Claimed
pub mod Controlled
use run_state.Base.{
  ℕ, ◌≤◌, ◌≡◌, ◌∷◌, ◌∙◌, ◌++◌, true, sym, subst, str_eq, some, inr, inl, arith, append_assoc,
  append-nil, ap, [], String, List, Bool-cases,
}
use run_state.Task.Model.{Task, Event, StepStatus, Step}
use run_state.Task.Json.{Json}
use run_state.Store.Rows.{update_step, find_step, TaskRows}

pub record Preserves (s s' : Step) : Type 0 where
  pub id : s'.id ≡ s.id
  pub task_id : s'.task_id ≡ s.task_id
  pub index : s'.index ≡ s.index
  pub step_type : s'.step_type ≡ s.step_type
  pub max_attempts : s'.max_attempts ≡ s.max_attempts
  pub idempotency_key : s'.idempotency_key ≡ s.idempotency_key
  pub input : s'.input ≡ s.input
  pub timeout_seconds : s'.timeout_seconds ≡ s.timeout_seconds
  pub attempt : s.attempt ≤ s'.attempt
  pub resolved : (x : Json) → s.resolved_input ≡ some x → s'.resolved_input ≡ some x
  pub succeeded : s.status ≡ StepStatus.succeeded → s' ≡ s

-- Row by row.
abbrev pub AllPreserved : List Step → List Step → Type 0
AllPreserved [] [] = Unit
AllPreserved [] (y ∷ ys) = ⊥
AllPreserved (x ∷ xs) [] = ⊥
AllPreserved (x ∷ xs) (y ∷ ys) = Preserves x y × AllPreserved xs ys

pub record TaskExtends (t t' : Task) : Type 0 where
  pub id : t'.id ≡ t.id
  pub tenant_id : t'.tenant_id ≡ t.tenant_id
  pub created_at : t'.created_at ≡ t.created_at
  pub run_at : t'.run_at ≡ t.run_at
  pub task_timeout_seconds : t'.task_timeout_seconds ≡ t.task_timeout_seconds
  pub lease_version : t.lease_version ≤ t'.lease_version
  pub current_step : t.current_step ≤ t'.current_step
  pub cancel_requested : t.cancel_requested ≡ true → t'.cancel_requested ≡ true
  pub first_started_at : (x : ℕ) → t.first_started_at ≡ some x → t'.first_started_at ≡ some x
  pub deadline_at : (x : ℕ) → t.deadline_at ≡ some x → t'.deadline_at ≡ some x

-- `r'` is a later state of the rows `r`.
pub record Extends (r r' : TaskRows) : Type 0 where
  pub task : TaskExtends r.task r'.task
  pub steps : AllPreserved r.steps r'.steps
  pub added : List Event
  pub events : r'.events ≡ r.events ++ added

pub Preserves-refl : (s : Step) → Preserves s s
Preserves-refl s = ground arith

Preserves-trans : {s t u : Step} → Preserves s t → Preserves t u → Preserves s u
Preserves-trans p q = record {
  id = q.id ∙ p.id;
  task_id = q.task_id ∙ p.task_id;
  index = q.index ∙ p.index;
  step_type = q.step_type ∙ p.step_type;
  max_attempts = q.max_attempts ∙ p.max_attempts;
  idempotency_key = q.idempotency_key ∙ p.idempotency_key;
  input = q.input ∙ p.input;
  timeout_seconds = q.timeout_seconds ∙ p.timeout_seconds;
  attempt = omega (arith, p.attempt, q.attempt);
  resolved = λ x h. q.resolved x (p.resolved x h);
  succeeded = λ h. q.succeeded (ap (λ (x : Step). x.status) (p.succeeded h) ∙ h) ∙ p.succeeded h;
}

pub AllPreserved-refl : (steps : List Step) → AllPreserved steps steps
AllPreserved-refl [] = tt
AllPreserved-refl (s ∷ rest) = (Preserves-refl s, AllPreserved-refl rest)

AllPreserved-trans :
    (xs ys zs : List Step) → AllPreserved xs ys → AllPreserved ys zs → AllPreserved xs zs
AllPreserved-trans [] [] [] p q = tt
AllPreserved-trans (x ∷ xs) (y ∷ ys) (z ∷ zs) p q =
    (Preserves-trans p.0 q.0, AllPreserved-trans xs ys zs p.1 q.1)
AllPreserved-trans [] (y ∷ ys) zs p q = absurd p
AllPreserved-trans (x ∷ xs) [] zs p q = absurd p
AllPreserved-trans [] [] (z ∷ zs) p q = absurd q
AllPreserved-trans (x ∷ xs) (y ∷ ys) [] p q = absurd q

-- One row is written, and the new row preserves the old one.
pub AllPreserved-update_step :
    (id : String) (f : Step → Step) (steps : List Step) {s : Step}
    → find_step id steps ≡ some s
    → Preserves s (f s)
    → AllPreserved steps (update_step id f steps)
unfolding find_step update_step
AllPreserved-update_step id f [] h p = tt
AllPreserved-update_step id f (x ∷ rest) {s} h p = elim (Bool-cases (str_eq x.id id)) [
  | inl e ↦
      let same : s ≡ x = ground arith in
      rw e (subst (λ y. Preserves y (f y)) same p, AllPreserved-refl rest)
  | inr e ↦ rw e (Preserves-refl x, AllPreserved-update_step id f rest {s = s} (ground arith) p)
]

-- A row that is found under an id before is found under it after.
pub AllPreserved-find_step :
    (id : String) (xs ys : List Step) {s : Step}
    → AllPreserved xs ys
    → find_step id xs ≡ some s
    → (s' : Step) × (find_step id ys ≡ some s') × Preserves s s'
unfolding find_step
AllPreserved-find_step id [] [] p h = cc
AllPreserved-find_step id [] (y ∷ ys) p h = absurd p
AllPreserved-find_step id (x ∷ xs) [] p h = absurd p
AllPreserved-find_step id (x ∷ xs) (y ∷ ys) {s} p h = elim (Bool-cases (str_eq x.id id)) [
  | inl e ↦
      let same : x ≡ s = ground arith in (y, rw (p.0.id, e), subst (λ z. Preserves z y) same p.0)
  | inr e ↦ rw (p.0.id, e) (AllPreserved-find_step id xs ys {s = s} p.1 (ground arith))
]

pub TaskExtends-trans : {t u v : Task} → TaskExtends t u → TaskExtends u v → TaskExtends t v
TaskExtends-trans p q = record {
  id = q.id ∙ p.id;
  tenant_id = q.tenant_id ∙ p.tenant_id;
  created_at = q.created_at ∙ p.created_at;
  run_at = q.run_at ∙ p.run_at;
  task_timeout_seconds = q.task_timeout_seconds ∙ p.task_timeout_seconds;
  lease_version = omega (arith, p.lease_version, q.lease_version);
  current_step = omega (arith, p.current_step, q.current_step);
  cancel_requested = λ h. q.cancel_requested (p.cancel_requested h);
  first_started_at = λ x h. q.first_started_at x (p.first_started_at x h);
  deadline_at = λ x h. q.deadline_at x (p.deadline_at x h);
}

pub TaskExtends-refl : (t : Task) → TaskExtends t t
TaskExtends-refl t = ground arith

pub Extends-refl : (r : TaskRows) → Extends r r
Extends-refl r = record {
  task = TaskExtends-refl r.task;
  steps = AllPreserved-refl r.steps;
  added = [];
  events = sym (append-nil r.events);
}

pub Extends-trans : {r s t : TaskRows} → Extends r s → Extends s t → Extends r t
Extends-trans {r} {s} {t} p q = record {
  task = TaskExtends-trans p.task q.task;
  steps = AllPreserved-trans r.steps s.steps t.steps p.steps q.steps;
  added = p.added ++ q.added;
  events =
      q.events
      ∙ ap (λ (xs : List Event). xs ++ q.added) p.events
      ∙ append_assoc r.events p.added q.added;
}
