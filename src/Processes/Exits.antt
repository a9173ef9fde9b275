-- ===== src/Processes/Exits.antt =====
-- With which code the process of a worker exits (cmd/worker/main.go).
use run_state.Worker.Process.{IsReady, less, configure_worker-IsReady, configure_worker, Options}
use run_state.Base.{
  List, replicate, ◌⊎◌, ◌≡◌, ℕ, zero, true, suc, str_eq, refl, ok, inr, inl, false, err, arith, ap,
  String, Result-cases, Result, Option,
}
use run_state.Processes.{
  Process, slots, connect, worker_main, run_worker, new_store, database_url, Surroundings,
  StoreOptions,
}
use run_state.Config.{exceeds_zero}
use run_state.Executor.Decode.{negsuc, pos, ℤ}

-- Whether the database answers a process.
abbrev pub Connected : Surroundings → Type 0
Connected w = (w.open_pool (database_url w) ≡ ok tt) × (w.ping (database_url w) ≡ ok tt)

abbrev pub NotConnected : Surroundings → Type 0
NotConnected w =
    ((problem : String) × (w.open_pool (database_url w) ≡ err problem))
    ⊎ ((problem : String) × (w.ping (database_url w) ≡ err problem))

connect-cases :
    (w : Surroundings)
    → ((connect w ≡ ok tt) × Connected w) ⊎ ((connect w ≡ err 1) × NotConnected w)
unfolding connect
connect-cases w = elim (Result-cases (w.open_pool (database_url w))) [
  | inr (e, opened) ↦ inr (rw opened refl, inl (e, opened))
  | inl (u, opened) ↦ elim (Result-cases (w.ping (database_url w))) [
    | inr (e, pinged) ↦ inr (rw opened (rw pinged refl), inr (e, pinged))
    | inl (v, pinged) ↦ inl (rw opened (rw pinged refl), (opened, pinged))
  ]
]

positive-suc : (n : ℤ) → exceeds_zero n ≡ true → (m : ℕ) × (n ≡ pos (suc m))
positive-suc (pos zero) h = absurd (ground (arith, h))
positive-suc (pos (suc m)) h = (m, refl)
positive-suc (negsuc m) h = absurd (ground (arith, h))

above-positive : (m n : ℤ) → exceeds_zero m ≡ true → less m n ≡ true → exceeds_zero n ≡ true
above-positive (pos m) (pos n) h k = ground (arith, h, k)
above-positive (pos m) (negsuc n) h k = absurd (ground (arith, k))
above-positive (negsuc m) n h k = absurd (ground (arith, h))

new_store-kept :
    (d : ℤ)
    → exceeds_zero d ≡ true
    → new_store (record { lease_duration = d }) ≡ record { lease_duration = d }
unfolding new_store
new_store-kept d h = rw h refl

-- A worker's process that runs: the store has the configured lease duration, which is positive, and
-- there is a slot for each unit of the configured concurrency, at least one, under the configured id.
pub record Runs (d : ℤ) (o : Options) (p : Process (StoreOptions × List String)) : Type 0 where
  pub others : ℕ
  pub concurrent : o.concurrency ≡ pos (suc others)
  pub same : p ≡ ok (record { lease_duration = d }, replicate (suc others) o.worker_id)
  pub positive : exceeds_zero d ≡ true

run_worker-started :
    (o : Options) (n : ℕ)
    → str_eq o.worker_id "" ≡ false
    → o.concurrency ≡ pos n
    → run_worker o ≡ ok (replicate n o.worker_id)
unfolding run_worker
run_worker-started o n named count = rw named (ap (λ c. ok (slots c o.worker_id)) count)

module _ (w : Surroundings) (id_flag : Option String) (concurrency_flag : Option ℤ) where
  abbrev pub configured : Result String (ℤ × Options)
  configured = configure_worker w.parse_duration w.atoi w.getenv id_flag concurrency_flag

  started-Runs :
      (d : ℤ) (o : Options)
      → configured ≡ ok (d, o)
      → connect w ≡ ok tt
      → IsReady d o
      → Runs d o (worker_main w id_flag concurrency_flag)
  unfolding worker_main
  started-Runs d o read opened ready =
      let (n, count) = positive-suc o.concurrency ready.slots in
      let running = run_worker-started o (suc n) ready.named count in
      let positive = above-positive o.heartbeat_interval d ready.heartbeat ready.renewed in
      record {
        others = n;
        concurrent = count;
        same = rw read (
            rw opened (
              rw running
                (ap (λ s. ok (s, replicate (suc n) o.worker_id)) (new_store-kept d positive))));
        positive = positive;
      }

  -- The process of a worker exits with the code 2 where its configuration is refused, with the
  -- code 1 where the database cannot be opened or does not answer, and else it runs until its
  -- slots end: on a store with the configured lease duration, which is positive, with a slot for
  -- each unit of the configured concurrency, at least one, under the configured id.
  pub worker_main-Runs :
      ((problem : String) × (configured ≡ err problem)
        × (worker_main w id_flag concurrency_flag ≡ err 2))
      ⊎ ((d : ℤ) × (o : Options) × (configured ≡ ok (d, o))
          × (((worker_main w id_flag concurrency_flag ≡ err 1) × NotConnected w)
              ⊎ (Runs d o (worker_main w id_flag concurrency_flag) × Connected w)))
  unfolding worker_main
  worker_main-Runs = elim (Result-cases configured) [
    | inr (e, read) ↦ inl (e, read, rw read refl)
    | inl ((d, o), read) ↦
        let ready : IsReady d o =
          configure_worker-IsReady w.parse_duration w.atoi w.getenv id_flag concurrency_flag read in
        inr (
          d,
          o,
          read,
          elim (connect-cases w) [
            | inr (closed, unanswered) ↦ inl (rw read (rw closed refl), unanswered)
            | inl (opened, answers) ↦ inr (started-Runs d o read opened ready, answers)
          ],
        )
  ]
