-- ===== src/Store/Scan/Order.antt =====
-- Which task the scans of internal/store/store.go select.
use run_state.Base.{
  ◌⊎◌, ◌∷◌, str_eq, refl, inr, inl, arith, ap, Option-cases, Bool-cases, ℕ, String, some, Bool,
  true, false, ◌≡◌, ◌≤◌, [],
}
use run_state.Store.Database.{earlier, first_by, Database, find_task}
use run_state.Store.Rows.{TaskRows}
use run_state.Store.Types.{Clock}
use run_state.Store.Scan.{
  created_before, control_rank, control_candidate, control_before, claim_candidate,
}
use run_state.Store.Control.{control_due}
use run_state.Store.Lease.{claimable}

module _ (test : TaskRows → Bool) (before : TaskRows → TaskRows → Bool) (measure : TaskRows → ℕ)
    (le : (a b : TaskRows) → before a b ≡ true → measure a ≤ measure b)
    (ge : (a b : TaskRows) → before a b ≡ false → measure b ≤ measure a) where
  earlier-least :
      (y b x : TaskRows)
      → (measure y ≤ measure x) ⊎ (measure b ≤ measure x)
      → measure (earlier before y (some b)) ≤ measure x
  earlier-least y b x h = elim (Bool-cases (before b y)) [
    | inl e ↦ rw e (ground (arith, le b y e))
    | inr e ↦ rw e (ground (arith, ge b y e))
  ]

  -- A scan by an order that refines a measure selects a row, of the least measure, if there is one.
  first_by-least :
      (db : Database) (j : String) {x : TaskRows}
      → find_task j db ≡ some x
      → test x ≡ true
      → (r : TaskRows) × (first_by test before db ≡ some r) × (measure r ≤ measure x)
  unfolding first_by find_task
  first_by-least [] j h t = cc
  first_by-least (y ∷ rest) j {x} h t = elim (Bool-cases (test y)) [
    | inr e ↦
        let (r, found, least) = first_by-least rest j {x = x} (ground arith) t in
        (r, rw (e, first_by) found, least)
    | inl e ↦ elim (Bool-cases (str_eq y.task.id j)) [
      | inl hit ↦
          let same : y ≡ x = ground arith in
          elim (Option-cases (first_by test before rest)) [
            | inl alone ↦ (y, rw (e, first_by) (rw alone refl), ground (arith, ap measure same))
            | inr (b, best) ↦ (
              earlier before y (some b),
              rw (e, first_by) (rw best refl),
              earlier-least y b x (inl (ground (arith, ap measure same))),
            )
          ]
      | inr miss ↦
          let (b, best, least) = first_by-least rest j {x = x} (ground arith) t in
          (
            earlier before y (some b),
            rw (e, first_by) (rw best refl),
            earlier-least y b x (inr least),
          )
    ]
  ]

module _ (id_before : String → String → Bool) (c : Clock) (skip : String → Bool) (db : Database)
    (j : String) {x : TaskRows} (found : find_task j db ≡ some x)
    (free : skip x.task.id ≡ false) where
  -- Where a task is claimable and its row is not locked, the scan of ClaimTask finds a candidate,
  -- one that was created no later than that task.
  pub claim_candidate-oldest :
      claimable x.task c.select ≡ true
      → (r : TaskRows) × (claim_candidate id_before c skip db ≡ some r)
        × (r.task.created_at ≤ x.task.created_at)
  unfolding claim_candidate created_before
  claim_candidate-oldest t =
      first_by-least _ _ (λ r. r.task.created_at) (λ a b h. ground arith) (λ a b h. ground arith) db
        j found (ground arith)

  pub control_candidate-urgent :
      control_due x.task c.select ≡ true
      → (r : TaskRows) × (control_candidate id_before c skip db ≡ some r)
        × (control_rank r.task c.select ≤ control_rank x.task c.select)
  unfolding control_candidate control_before
  control_candidate-urgent t =
      first_by-least _ _ (λ r. control_rank r.task c.select) (λ a b h. ground arith)
        (λ a b h. ground arith) db j found (ground arith)
