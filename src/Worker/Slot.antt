-- ===== src/Worker/Slot.antt =====
-- `runSlot` (internal/worker/worker.go): one slot claims a task, executes the claim, and claims again.
-- What one turn of the slot meets: its call of `ClaimTask`, with the rows that other transactions hold,
-- and the rounds of the loop that executes the claim.
use run_state.Store.Answer.{refused, delivered, answer_lost, Delivery, Answer, deliver}
use run_state.Base.{
  ◌≡◌, Option, List, ◌∙◌, sym, ap, Bool, ◌∷◌, ℕ, suc, some, refl, ok, none, err, arith, [], String,
}
use run_state.Store.Types.{Outcome, Claim}
use run_state.Store.Database.{find_task, Database}
use run_state.Store.Machine.Laws.{IsValid}
use run_state.Executor.Decode.{Library}
use run_state.Store.Machine.Call.{Link, call}
use run_state.Store.Machine.Reaches.{Reaches-trans, Reaches-refl, IsValid-Reaches, Reaches}
use run_state.Worker.Loop.{execute_from, Round}
use run_state.Store.Rows.{TaskRows}
use run_state.Store.Scan.{claim_task}
use run_state.Worker.Loop.Termination.{rounds_left}
use run_state.Store.Machine.Claims.{claim_task-IsClaimed}
use run_state.Worker.Loop.Ending.{execute_from-Reaches}
use run_state.Store.Machine.{claim, run_all, run}

pub record Turn : Type 0 where
  pub claim : Link
  pub skip : String → Bool
  pub rounds : ℕ → Round

-- Fuel for the rounds of a claim: one more than the task has left.
abbrev pub claim_fuel : Option TaskRows → ℕ
claim_fuel none = 1
claim_fuel (some r) = suc (rounds_left r)

module _ (id_before : String → String → Bool) (lib : Library) (lease_duration : ℕ)
    (worker : String) where
  -- `executeClaim`
  unfoldable pub execute_claim : (ℕ → Round) → Claim → Database → Option Database
  execute_claim rounds granted db =
      execute_from id_before lib granted.token rounds
        (claim_fuel (find_task granted.token.task_id db)) 0 db

  -- What follows `ClaimTask`; where there is no task, or the claim failed, the slot waits.
  abbrev pub after_claim : Turn → Answer Claim × Database → Option Database
  after_claim turn (ok granted, db) = execute_claim turn.rounds granted db
  after_claim turn (err e, db) = some db

  abbrev pub next_turn : Option Database → (Database → Option Database) → Option Database
  next_turn none go_on = none
  next_turn (some db) go_on = go_on db

  -- The turns of the slot until its context ends.
  unfoldable pub run_slot : List Turn → Database → Option Database
  run_slot [] db = some db
  run_slot (turn ∷ rest) db =
      next_turn
        (after_claim turn (
          call id_before turn.claim
            (claim_task id_before turn.claim.clock turn.skip lease_duration worker) db))
        (λ now. run_slot rest now)

  execute_claim-total :
      (rounds : ℕ → Round) (granted : Claim) (db : Database) {r : TaskRows}
      → IsValid db
      → find_task granted.token.task_id db ≡ some r
      → (e : Database) × (execute_claim rounds granted db ≡ some e) × Reaches id_before db e
  unfolding execute_claim
  execute_claim-total rounds granted db {r} valid found = rw found (
      execute_from-Reaches id_before lib granted.token rounds (suc (rounds_left r)) db valid found
        (omega arith))

  pub claim_task-Reaches :
      (turn : Turn) (before : Database) {a : Outcome Claim} {after : Database}
      → claim_task id_before turn.claim.clock turn.skip lease_duration worker before ≡ (a, after)
      → Reaches id_before before after
  unfolding run run_all
  claim_task-Reaches turn before h = record {
    ops = claim turn.claim.clock turn.skip lease_duration worker ∷ [];
    same = sym (ap (λ p. p.1) h);
  }

  after_claim-total :
      (turn : Turn) (d : Delivery) (before : Database) (p : Outcome Claim × Database)
      → claim_task id_before turn.claim.clock turn.skip lease_duration worker before ≡ p
      → IsValid before
      → (e : Database) × (after_claim turn (deliver d p before) ≡ some e)
        × Reaches id_before before e
  after_claim-total turn delivered before (ok granted, after) h valid =
      let reached = claim_task-Reaches turn before h in
      let claimed =
        claim_task-IsClaimed id_before turn.claim.clock turn.skip lease_duration worker before valid
          h in
      let (e, done, later) =
        execute_claim-total turn.rounds granted after (IsValid-Reaches id_before reached valid)
          claimed.stored in
      (e, done, Reaches-trans id_before reached later)
  after_claim-total turn delivered before (err e, after) h valid =
      (after, refl, claim_task-Reaches turn before h)
  after_claim-total turn refused before (a, after) h valid =
      (before, refl, Reaches-refl id_before before)
  after_claim-total turn answer_lost before (a, after) h valid =
      (after, refl, claim_task-Reaches turn before h)

  -- From a valid database a slot of a worker comes to the end of its turns, whatever they meet,
  -- and the database that it leaves comes from the first one by a sequence of operations, its own
  -- and those of the others.
  pub run_slot-Reaches :
      (turns : List Turn) (db : Database)
      → IsValid db
      → (e : Database) × (run_slot turns db ≡ some e) × Reaches id_before db e
  unfolding run_slot call
  run_slot-Reaches [] db valid = (db, refl, Reaches-refl id_before db)
  run_slot-Reaches (turn ∷ rest) db valid =
      let before = run_all id_before turn.claim.others db in
      let first : Reaches id_before db before = record { ops = turn.claim.others; same = refl } in
      let (d, done, worked) =
        after_claim-total turn turn.claim.delivery before
          (claim_task id_before turn.claim.clock turn.skip lease_duration worker before) refl
          (IsValid-Reaches id_before first valid) in
      let so_far = Reaches-trans id_before first worked in
      let (e, ended, later) = run_slot-Reaches rest d (IsValid-Reaches id_before so_far valid) in
      (
        e,
        ap (λ o. next_turn o (λ now. run_slot rest now)) done ∙ ended,
        Reaches-trans id_before so_far later,
      )
