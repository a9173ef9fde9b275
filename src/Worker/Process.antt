-- ===== src/Worker/Process.antt =====
-- The worker's process (cmd/worker/main.go): its configuration, and the options of `New`
-- (internal/worker/worker.go).
use run_state.Base.{
  ◌>>=◌, ok-injective, ◌>>◌, ltb, ◌≡◌, ◌∙◌, ◌||◌, ◌*◌, ℕ, true, subst, str_eq, some, refl, ok, not,
  none, if◌then◌else◌, guard-eq-ok, guard, false, arith, ap, String, Result, Option, Bool,
  >>=-eq-ok,
}
use run_state.Config.{
  exceeds_zero, config_duration-positive, config_duration, config_string, config_int,
}
use run_state.Executor.Decode.{negsuc, pos, ℤ}

-- `Options`; an interval is a number of nanoseconds.
pub record Options : Type 0 where
  pub worker_id : String
  pub concurrency : ℤ
  pub poll_interval : ℤ
  pub heartbeat_interval : ℤ
  pub cancellation_interval : ℤ
  pub fake_tool_url : String

abbrev pub or_default : ℤ → ℤ → ℤ
or_default value default = if exceeds_zero value then value else default

abbrev pub seconds : ℕ → ℤ
seconds n = pos (n * 1000000000)

-- `New`
unfoldable pub new_worker : Options → Options
new_worker o = record o {
  concurrency = or_default o.concurrency (pos 1);
  poll_interval = or_default o.poll_interval (seconds 1);
  heartbeat_interval = or_default o.heartbeat_interval (seconds 10);
  cancellation_interval = or_default o.cancellation_interval (seconds 1);
}

-- `a < b`
abbrev pub less : ℤ → ℤ → Bool
less (pos m) (pos n) = ltb m n
less (pos m) (negsuc n) = false
less (negsuc m) (pos n) = true
less (negsuc m) (negsuc n) = ltb n m

-- The value of a flag, or its default.
abbrev pub flag_or : {A : Type 0} → Option A → A → A
flag_or none default = default
flag_or (some value) default = value

-- `main`, up to the start of the process: the lease duration of the store and the options of the worker, by
-- the functions of Go's library, the environment and the flags.
unfoldable pub configure_worker :
    (String → Option ℤ)
    → (String → Option ℤ)
    → (String → String)
    → Option String
    → Option ℤ
    → Result String (ℤ × Options)
configure_worker parse_duration atoi getenv id_flag concurrency_flag = do
  let worker_id = flag_or id_flag (config_string getenv "RUNSTATE_WORKER_ID" "")
  concurrency_default ← config_int getenv atoi "RUNSTATE_WORKER_CONCURRENCY" (pos 1)
  let concurrency = flag_or concurrency_flag concurrency_default
  guard (not (str_eq worker_id "" || not (exceeds_zero concurrency)))
      "--id and a positive --concurrency are required"
  lease_duration ← config_duration getenv parse_duration "RUNSTATE_LEASE_DURATION" (seconds 30)
  heartbeat_interval ←
      config_duration getenv parse_duration "RUNSTATE_HEARTBEAT_INTERVAL" (seconds 10)
  poll_interval ← config_duration getenv parse_duration "RUNSTATE_POLL_INTERVAL" (seconds 1)
  cancellation_interval ←
      config_duration getenv parse_duration "RUNSTATE_CANCELLATION_INTERVAL" (seconds 1)
  guard (less heartbeat_interval lease_duration)
      "heartbeat interval must be shorter than lease duration"
  ok (
    lease_duration,
    new_worker (record {
      worker_id = worker_id;
      concurrency = concurrency;
      poll_interval = poll_interval;
      heartbeat_interval = heartbeat_interval;
      cancellation_interval = cancellation_interval;
      fake_tool_url = config_string getenv "RUNSTATE_FAKE_TOOL_URL" "";
    }),
  )

-- The options with which a process starts.
pub record IsReady (lease_duration : ℤ) (o : Options) : Type 0 where
  pub named : str_eq o.worker_id "" ≡ false
  pub slots : exceeds_zero o.concurrency ≡ true
  pub heartbeat : exceeds_zero o.heartbeat_interval ≡ true
  pub poll : exceeds_zero o.poll_interval ≡ true
  pub cancellation : exceeds_zero o.cancellation_interval ≡ true
  pub renewed : less o.heartbeat_interval lease_duration ≡ true

or_default-kept : (value default : ℤ) → exceeds_zero value ≡ true → or_default value default ≡ value
or_default-kept value default h = rw h refl

or_default-positive :
    (value default : ℤ) → exceeds_zero value ≡ true → exceeds_zero (or_default value default) ≡ true
or_default-positive value default h = ap exceeds_zero (or_default-kept value default h) ∙ h

new_worker-IsReady : (o : Options) (d : ℤ) → IsReady d o → IsReady d (new_worker o)
unfolding new_worker
new_worker-IsReady o d ready = record {
  named = ready.named;
  slots = or_default-positive o.concurrency (pos 1) ready.slots;
  heartbeat = or_default-positive o.heartbeat_interval (seconds 10) ready.heartbeat;
  poll = or_default-positive o.poll_interval (seconds 1) ready.poll;
  cancellation = or_default-positive o.cancellation_interval (seconds 1) ready.cancellation;
  renewed =
      ap (λ x. less x d) (or_default-kept o.heartbeat_interval (seconds 10) ready.heartbeat)
      ∙ ready.renewed;
}

-- A worker process that starts has an id, at least one slot and positive intervals, and its
-- heartbeat interval is shorter than the lease duration.
pub configure_worker-IsReady :
    (parse_duration atoi : String → Option ℤ) (getenv : String → String) (id_flag : Option String)
    (concurrency_flag : Option ℤ) {d : ℤ} {o : Options}
    → configure_worker parse_duration atoi getenv id_flag concurrency_flag ≡ ok (d, o)
    → IsReady d o
unfolding configure_worker
configure_worker-IsReady parse_duration atoi getenv id_flag concurrency_flag {d} {o} h =
    let (default, read, h) =
      >>=-eq-ok (config_int getenv atoi "RUNSTATE_WORKER_CONCURRENCY" (pos 1)) _ h in
    let (u, given, h) =
      >>=-eq-ok
        (guard
          (not (
            str_eq (flag_or id_flag (config_string getenv "RUNSTATE_WORKER_ID" "")) ""
            || not (exceeds_zero (flag_or concurrency_flag default))))
          _)
        _ h in
    let given =
      guard-eq-ok
        (not (
          str_eq (flag_or id_flag (config_string getenv "RUNSTATE_WORKER_ID" "")) ""
          || not (exceeds_zero (flag_or concurrency_flag default))))
        _ given in
    let (lease, lease_read, h) =
      >>=-eq-ok (config_duration getenv parse_duration "RUNSTATE_LEASE_DURATION" (seconds 30)) _
        h in
    let (beat, beat_read, h) =
      >>=-eq-ok (config_duration getenv parse_duration "RUNSTATE_HEARTBEAT_INTERVAL" (seconds 10)) _
        h in
    let (poll, poll_read, h) =
      >>=-eq-ok (config_duration getenv parse_duration "RUNSTATE_POLL_INTERVAL" (seconds 1)) _ h in
    let (look, look_read, h) =
      >>=-eq-ok (config_duration getenv parse_duration "RUNSTATE_CANCELLATION_INTERVAL" (seconds 1))
        _ h in
    let (v, shorter, h) = >>=-eq-ok (guard (less beat lease) _) _ h in
    let ready : IsReady lease (record {
      worker_id = flag_or id_flag (config_string getenv "RUNSTATE_WORKER_ID" "");
      concurrency = flag_or concurrency_flag default;
      poll_interval = poll;
      heartbeat_interval = beat;
      cancellation_interval = look;
      fake_tool_url = config_string getenv "RUNSTATE_FAKE_TOOL_URL" "";
    }) =
      record {
        named = ground (arith, given);
        slots = ground (arith, given);
        heartbeat = config_duration-positive getenv parse_duration _ (seconds 10) refl beat_read;
        poll = config_duration-positive getenv parse_duration _ (seconds 1) refl poll_read;
        cancellation = config_duration-positive getenv parse_duration _ (seconds 1) refl look_read;
        renewed = guard-eq-ok (less beat lease) _ shorter;
      } in
    subst (λ p. IsReady p.0 p.1) (ok-injective _ (d, o) _ refl h) (new_worker-IsReady _ lease ready)
