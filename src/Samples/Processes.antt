-- ===== src/Samples/Processes.antt =====
-- The processes, the identifiers and the migrations at concrete inputs (cmd, internal/id,
-- internal/migrations), and the theorems on them.
use Prim.Native.Nat.{◌%◌}
use mathlib.Core.List.{Perm}
use run_state.Ids.{Bytes, stamp, print_id, hex_slice, hex_digit, draw_id}
use run_state.Processes.Exits.{Connected, configured, worker_main-Runs, Runs, NotConnected}
use run_state.Executor.Types.{ContextState}
use run_state.Store.Database.{Database}
use run_state.Ids.Stamp.{IsBytes}
use run_state.Migrations.Applied.{run_migrations-IsPrefix, IsPrefix}
use run_state.Migrations.Order.{IsSorted}
use run_state.Base.{
  ◌⊎◌, List, ◌≡◌, ◌∷◌, ◌↔◌, ◌==◌, ℕ, zero, true, suc, str_eq, some, refl, ok, none, if◌then◌else◌,
  err, arith, [], String, Result,
}
use run_state.Worker.Process.{Options, seconds, new_worker, configure_worker}
use run_state.Store.Machine.Reaches.{Reaches}
use run_state.Ids.Distinct.{draw_id-SameRandom, SameRandom}
use run_state.Scheduler.{run_scheduler, Scan}
use run_state.Processes.{
  Surroundings, connect, worker_main, server_closed, serve_failed, scheduler_main, run_worker,
  new_store, new_scheduler, migrate_main, fake_tool_main, api_main,
}
use run_state.Migrations.{text_leb, apply_all, sort_strings, run_migrations, insert_name}
use run_state.Samples.{by_id}
use run_state.Config.{config_string, config_duration, config_int}
use run_state.Ids.Shape.{draw_id-fits, fits, uuid_v4}
use run_state.Samples.Services.{empty_environment, library, quiet_scan, later_created}
use run_state.Scheduler.Ending.{run_scheduler-Reaches}
use run_state.Executor.Decode.{pos, ℤ}

abbrev ascending_bytes : Bytes
ascending_bytes i = i % 256

-- The same but for the version and the variant.
abbrev restamped_bytes : Bytes
restamped_bytes i = if i == 6 then 0xf6 else if i == 8 then 0x48 else i % 256

ascending_bytes-IsBytes : IsBytes ascending_bytes
ascending_bytes-IsBytes i = omega arith

restamped_bytes-IsBytes : IsBytes restamped_bytes
restamped_bytes-IsBytes i = ground (arith, ascending_bytes-IsBytes i)

draw_ascending : draw_id (ok ascending_bytes) ≡ ok "00010203-0405-4607-8809-0a0b0c0d0e0f"
unfolding draw_id print_id hex_slice hex_digit stamp
draw_ascending = refl

draw_id-SameRandom_example :
    (draw_id (ok ascending_bytes) ≡ draw_id (ok restamped_bytes))
    ↔ SameRandom ascending_bytes restamped_bytes
draw_id-SameRandom_example =
    draw_id-SameRandom ascending_bytes restamped_bytes ascending_bytes-IsBytes
      restamped_bytes-IsBytes

draw_id-fits_example : fits uuid_v4 "00010203-0405-4607-8809-0a0b0c0d0e0f" ≡ true
draw_id-fits_example = draw_id-fits ascending_bytes ascending_bytes-IsBytes draw_ascending

-- Scripts that append their text to a log; the second one fails.
abbrev read_sample : String → Result String String
read_sample name = ok name

abbrev log_script : String → List String → Result String (Unit {0}) × List String
log_script script log =
    if str_eq script "sql/002.sql" then (err "syntax error", log) else (ok tt, script ∷ log)

abbrev found_names : List String
found_names = "sql/003.sql" ∷ "sql/001.sql" ∷ "sql/002.sql" ∷ []

run_found :
    run_migrations read_sample log_script (ok found_names) []
    ≡ (err "apply migration sql/002.sql: syntax error", "sql/001.sql" ∷ [])
unfolding run_migrations sort_strings insert_name text_leb apply_all
run_found = refl

run_migrations-IsPrefix_example :
    (ordered : List String) × IsSorted ordered
    × Perm ordered found_names
    × IsPrefix read_sample log_script ordered []
        (run_migrations read_sample log_script (ok found_names) [])
run_migrations-IsPrefix_example = run_migrations-IsPrefix read_sample log_script found_names []

-- The context of the scheduler ends before the second scan.
abbrev ending_scan : ℕ → Scan
ending_scan zero = quiet_scan zero
ending_scan (suc i) = record (quiet_scan i) { context = ContextState.cancelled }

run_scheduler-Reaches_example :
    (e : Database) × (run_scheduler by_id ending_scan 2 2 0 (later_created ∷ []) ≡ some e)
    × Reaches by_id (later_created ∷ []) e
run_scheduler-Reaches_example =
    run_scheduler-Reaches by_id ending_scan 1 refl 2 2 0 (later_created ∷ []) (omega arith)
      (omega arith) (omega arith)

abbrev answering : Surroundings
answering = record {
  getenv = empty_environment;
  parse_duration = library.parse_duration;
  atoi = library.parse_int;
  open_pool = λ url. ok tt;
  ping = λ url. ok tt;
}

worker_main-Runs_example :
    ((problem : String) × (configured answering (some "worker_0") none ≡ err problem)
      × (worker_main answering (some "worker_0") none ≡ err 2))
    ⊎ ((d : ℤ) × (o : Options) × (configured answering (some "worker_0") none ≡ ok (d, o))
        × (((worker_main answering (some "worker_0") none ≡ err 1) × NotConnected answering)
            ⊎ (Runs d o (worker_main answering (some "worker_0") none) × Connected answering)))
worker_main-Runs_example = worker_main-Runs answering (some "worker_0") none

run_named_worker :
    worker_main answering (some "worker_0") (some (pos 2))
    ≡ ok (record { lease_duration = seconds 30 }, "worker_0" ∷ "worker_0" ∷ [])
unfolding worker_main configure_worker config_int config_duration config_string new_worker connect
    run_worker new_store
run_named_worker = refl

stop_unnamed_worker : worker_main answering none none ≡ err 2
unfolding worker_main configure_worker config_int config_duration config_string
stop_unnamed_worker = refl

start_api :
    api_main answering (λ address. server_closed)
    ≡ ok (record { lease_duration = seconds 30 }, "127.0.0.1:8080")
unfolding api_main connect config_string new_store
start_api = refl

start_scheduler :
    scheduler_main answering
    ≡ ok (record { lease_duration = seconds 30 }, record { poll_interval = seconds 1 })
unfolding scheduler_main connect config_duration config_string new_store new_scheduler
start_scheduler = refl

stop_fake_tool : fake_tool_main answering (λ address. serve_failed "address in use") ≡ err 1
unfolding fake_tool_main connect config_string
stop_fake_tool = refl

stop_migrations :
    migrate_main read_sample log_script answering (ok found_names) [] ≡ (err 1, "sql/001.sql" ∷ [])
unfolding migrate_main run_migrations sort_strings insert_name text_leb apply_all
stop_migrations = refl
