-- ===== src/Store/Rows/Updates.antt =====
-- Properties of all steps of a task, before and after an update (internal/store/store.go).
use run_state.Base.{
  ◌∷◌, ◌<◌, ◌≡◌, ◌≢◌, ℕ, suc, String, some, none, false, List, [], refl, arith, str_eq, All,
  Bool-cases, inl, inr,
}
use run_state.Task.Model.{StepStatus, Step}
use run_state.Store.Rows.{find_step, step_at, update_step, unfinished_before}
use run_state.Store.Rows.Steps.{Indexed, index-find_step}

module _ (P Q : Step → Type 0) where
  All-later :
      (i k : ℕ) (steps : List Step)
      → i < k
      → Indexed k steps
      → ((x : Step) → x.index ≢ i → P x → Q x)
      → All P steps
      → All Q steps
  All-later i k [] h ix g all = tt
  All-later i k (x ∷ rest) h ix g all =
      (g x (omega arith) all.0, All-later i (suc k) rest (omega arith) ix.2 g all.1)

  -- A property of all rows after the update of one of them: its new row has it, and the rows at other
  -- indices keep it.
  pub All-update_step :
      (id : String) (f : Step → Step) (k : ℕ) (steps : List Step) {s : Step}
      → find_step id steps ≡ some s
      → Indexed k steps
      → Q (f s)
      → ((x : Step) → x.index ≢ s.index → P x → Q x)
      → All P steps
      → All Q (update_step id f steps)
  unfolding find_step update_step
  All-update_step id f k [] h ix q g all = cc
  All-update_step id f k (x ∷ rest) {s} h ix q g all = elim (Bool-cases (str_eq x.id id)) [
    | inl e ↦
        let same : x ≡ s = ground arith in
        rw e (rw same q, All-later x.index (suc k) rest (omega arith) ix.2 (rw same g) all.1)
    | inr e ↦
        let later : find_step id rest ≡ some s = ground arith in
        rw e (
          g x (omega (arith, index-find_step id (suc k) rest later ix.2)) all.0,
          All-update_step id f (suc k) rest later ix.2 q g all.1,
        )
  ]

pub All-map_step :
    (P Q : Step → Type 0) (steps : List Step) → ((x : Step) → P x → Q x) → All P steps → All Q steps
All-map_step P Q [] g all = tt
All-map_step P Q (x ∷ rest) g all = (g x all.0, All-map_step P Q rest g all.1)

-- No row has the index `i`.
pub All-map_absent :
    (P Q : Step → Type 0) (i : ℕ) (steps : List Step)
    → step_at i steps ≡ none
    → ((x : Step) → x.index ≢ i → P x → Q x)
    → All P steps
    → All Q steps
unfolding step_at
All-map_absent P Q i [] h g all = tt
All-map_absent P Q i (x ∷ rest) h g all =
    (g x (ground arith) all.0, All-map_absent P Q i rest (ground arith) g all.1)

-- Where all rows before an index have succeeded, the query for unfinished predecessors finds none.
pub unfinished_before-false :
    (i : ℕ) (steps : List Step)
    → All (λ x. x.index < i → x.status ≡ StepStatus.succeeded) steps
    → unfinished_before i steps ≡ false
unfolding unfinished_before
unfinished_before-false i [] all = refl
unfinished_before-false i (x ∷ rest) all =
    ground (arith, all.0, unfinished_before-false i rest all.1)
