-- ===== src/Store/Rows/Steps.antt =====
-- The queries on the steps of a task, over a list of steps that stands in the order of its indices
-- and holds each id once, as the table's constraints demand.
use run_state.Base.{
  ◌∙◌, dec_lt, ℕ, suc, String, none, some, false, List, [], ◌∷◌, ◌+◌, ◌<◌, ◌≤◌, ◌≡◌, refl, arith,
  str_eq, ◌==◌, subst, eq_iff, All, length, Bool-cases, inl, inr,
}
use run_state.Task.Model.{Step}
use run_state.Store.Rows.{find_step, step_at, update_step}

-- UNIQUE (task_id, step_index) with indices from `k` on, and PRIMARY KEY (id).
abbrev pub Indexed : ℕ → List Step → Type 0
Indexed k [] = Unit
Indexed k (s ∷ rest) = (s.index ≡ k) × (find_step s.id rest ≡ none) × Indexed (suc k) rest

-- The step definition that the database holds immutable, as far as the queries use it.
pub record Keeps (f : Step → Step) : Type 0 where
  pub id : (s : Step) → (f s).id ≡ s.id
  pub index : (s : Step) → (f s).index ≡ s.index

module _ (P : Step → Type 0) where
  pub All-find_step :
      (id : String) (steps : List Step) {s : Step} → find_step id steps ≡ some s → All P steps → P s
  unfolding find_step
  All-find_step id [] h all = cc
  All-find_step id (x ∷ rest) h all = elim (Bool-cases (str_eq x.id id)) [
    | inl e ↦ subst P (ground arith) all.0
    | inr e ↦ All-find_step id rest (ground arith) all.1
  ]

  pub All-step_at :
      (i : ℕ) (steps : List Step) {s : Step} → step_at i steps ≡ some s → All P steps → P s
  unfolding step_at
  All-step_at i [] h all = cc
  All-step_at i (x ∷ rest) h all = elim (Bool-cases (x.index == i)) [
    | inl e ↦ subst P (ground arith) all.0
    | inr e ↦ All-step_at i rest (ground arith) all.1
  ]

pub index-find_step :
    (id : String) (k : ℕ) (steps : List Step) {s : Step}
    → find_step id steps ≡ some s
    → Indexed k steps
    → k ≤ s.index
unfolding find_step
index-find_step id k [] h ix = cc
index-find_step id k (x ∷ rest) {s} h ix = elim (Bool-cases (str_eq x.id id)) [
  | inl e ↦ ground arith
  | inr e ↦ omega (arith, index-find_step id (suc k) rest {s = s} (ground arith) ix.2)
]

pub index-find_step_lt :
    (id : String) (k : ℕ) (steps : List Step) {s : Step}
    → find_step id steps ≡ some s
    → Indexed k steps
    → s.index < k + length steps
unfolding find_step
index-find_step_lt id k [] h ix = cc
index-find_step_lt id k (x ∷ rest) {s} h ix = elim (Bool-cases (str_eq x.id id)) [
  | inl e ↦ ground arith
  | inr e ↦ omega (arith, index-find_step_lt id (suc k) rest {s = s} (ground arith) ix.2)
]

pub id-find_step :
    (id : String) (steps : List Step) {s : Step} → find_step id steps ≡ some s → s.id ≡ id
unfolding find_step
id-find_step id [] h = cc
id-find_step id (x ∷ rest) {s} h = elim (Bool-cases (str_eq x.id id)) [
  | inl e ↦ ground (arith, eq_iff x.id id)
  | inr e ↦ id-find_step id rest {s = s} (ground arith)
]

pub index-step_at : (i : ℕ) (steps : List Step) {s : Step} → step_at i steps ≡ some s → s.index ≡ i
unfolding step_at
index-step_at i [] h = cc
index-step_at i (x ∷ rest) {s} h = elim (Bool-cases (x.index == i)) [
  | inl e ↦ ground arith
  | inr e ↦ index-step_at i rest {s = s} (ground arith)
]

find_step-ne :
    (id : String) (steps : List Step) (s : Step) (j : String)
    → find_step id steps ≡ none
    → find_step j steps ≡ some s
    → str_eq id s.id ≡ false
unfolding find_step
find_step-ne id [] s j h g = cc
find_step-ne id (x ∷ rest) s j h g = elim (Bool-cases (str_eq x.id j)) [
  | inl e ↦ ground (arith, eq_iff id s.id, eq_iff x.id id)
  | inr e ↦ find_step-ne id rest s j (ground arith) (ground arith)
]

-- The row that has an index is the row that has its id.
pub find_step-step_at :
    (i k : ℕ) (steps : List Step) {s : Step}
    → step_at i steps ≡ some s
    → Indexed k steps
    → find_step s.id steps ≡ some s
unfolding find_step step_at
find_step-step_at i k [] h ix = cc
find_step-step_at i k (x ∷ rest) {s} h ix = elim (Bool-cases (x.index == i)) [
  | inl e ↦ ground (arith, eq_iff x.id s.id)
  | inr e ↦
      let found = find_step-step_at i (suc k) rest {s = s} (ground arith) ix.2 in
      rw (find_step-ne x.id rest s s.id ix.1 found) found
]

pub index-step_at_lt :
    (i k : ℕ) (steps : List Step) {s : Step}
    → step_at i steps ≡ some s
    → Indexed k steps
    → i < k + length steps
unfolding step_at
index-step_at_lt i k [] h ix = cc
index-step_at_lt i k (x ∷ rest) {s} h ix = elim (Bool-cases (x.index == i)) [
  | inl e ↦ ground arith
  | inr e ↦ omega (arith, index-step_at_lt i (suc k) rest {s = s} (ground arith) ix.2)
]

-- Every index in range has its row.
pub step_at-total :
    (i k : ℕ) (steps : List Step)
    → Indexed k steps
    → k ≤ i
    → i < k + length steps
    → (s : Step) × (step_at i steps ≡ some s)
unfolding step_at
step_at-total i k [] ix lo hi = absurd (omega arith)
step_at-total i k (x ∷ rest) ix lo hi = elim (Bool-cases (x.index == i)) [
  | inl e ↦ (x, rw e)
  | inr e ↦ rw e (step_at-total i (suc k) rest ix.2 (ground arith) (omega arith))
]

pub step_at-none :
    (i : ℕ) (steps : List Step) → Indexed 0 steps → step_at i steps ≡ none → length steps ≤ i
step_at-none i steps ix h = elim (dec_lt i (length steps)) [
  | yes room ↦ let (s, found) = step_at-total i 0 steps ix (omega arith) (omega arith) in cc
  | no past ↦ omega arith
]

pub length-update_step :
    (id : String) (f : Step → Step) (steps : List Step)
    → length (update_step id f steps) ≡ length steps
unfolding update_step
length-update_step id f [] = refl
length-update_step id f (x ∷ rest) = ground (arith, length-update_step id f rest)

module _ (id : String) (f : Step → Step) (keeps : Keeps f) where
  find_step-update_none :
      (j : String) (steps : List Step)
      → find_step j steps ≡ none
      → find_step j (update_step id f steps) ≡ none
  unfolding find_step update_step
  find_step-update_none j [] h = refl
  find_step-update_none j (x ∷ rest) h = ground (arith, keeps.id x, find_step-update_none j rest)

  pub Indexed-update_step :
      (k : ℕ) (steps : List Step) → Indexed k steps → Indexed k (update_step id f steps)
  unfolding update_step
  Indexed-update_step k [] ix = tt
  Indexed-update_step k (x ∷ rest) ix = elim (Bool-cases (str_eq x.id id)) [
    | inl e ↦ rw e (keeps.index x ∙ ix.0, rw (keeps.id x) ix.1, ix.2)
    | inr e ↦
        rw e (ix.0, find_step-update_none x.id rest ix.1, Indexed-update_step (suc k) rest ix.2)
  ]

  -- The updated row is found under its id.
  pub find_step-update_step :
      (steps : List Step) {s : Step}
      → find_step id steps ≡ some s
      → find_step id (update_step id f steps) ≡ some (f s)
  unfolding find_step update_step
  find_step-update_step [] h = cc
  find_step-update_step (x ∷ rest) h = elim (Bool-cases (str_eq x.id id)) [
    | inl e ↦ ground (arith, keeps.id x)
    | inr e ↦ rw (e, update_step) (rw e (find_step-update_step rest (ground arith)))
  ]
