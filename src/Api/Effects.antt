-- ===== src/Api/Effects.antt =====
-- What the responses of internal/api/handler.go tell of the database.
use run_state.Api.Accepted.{
  validate_request-IsValidDefinition, positive_limits-AllAccepted, IsValidDefinition,
}
use run_state.Base.{
  ◌≤◌, ◌≡◌, true, Option, >>=-eq-ok, err, Result-cases, Bool-cases, ◌∷◌, ◌>>=◌, ◌++◌, ℕ, some, refl,
  ok, none, inr, inl, eq_refl, arith, [], String,
}
use run_state.Store.Types.{Outcome, Clock}
use run_state.Api.{
  RequestBody, respond, write_json, task_content, created_response, create_task_handler, Content,
  get_task_handler, decode_body, database_store, TaskStore,
}
use run_state.Api.Validation.{validate_request, CreateTaskRequest}
use run_state.Store.Database.{load_task, Database, find_task}
use run_state.Task.Model.{Definition}
use run_state.Executor.Decode.{Library}
use run_state.Store.Rows.{TaskRows}
use run_state.Store.Create.{
  within_integers, unused_steps, new_steps, max_integer, distinct_steps, create_task, insertable,
  new_rows,
}
use run_state.Store.Answer.{delivered, deliver}

find_task-appended :
    (db : Database) (r : TaskRows)
    → find_task r.task.id db ≡ none
    → find_task r.task.id (db ++ r ∷ []) ≡ some r
unfolding find_task
find_task-appended [] r h = rw (eq_refl r.task.id) refl
find_task-appended (x ∷ rest) r h = ground (arith, h, find_task-appended rest r)

module _ (lib : Library) (parse_time : String → Option ℕ) (c : Clock) (id : String)
    (new_id : ℕ → String) where
  abbrev answered_store : TaskStore Database
  answered_store = database_store delivered c id new_id

  create_task-rows :
      (d : Definition) (db : Database) {r : TaskRows} {db' : Database}
      → create_task c id new_id d db ≡ (ok r, db')
      → (find_task id db ≡ none)
        × (r ≡ new_rows c id new_id d)
        × (db' ≡ db ++ new_rows c id new_id d ∷ [])
  unfolding create_task insertable new_rows
  create_task-rows d db h = elim (Bool-cases (insertable (new_rows c id new_id d) d db)) [
    | inl fits ↦
        let h' = rw (fits, create_task) at h in
        (ground (arith, fits), ground (arith, h'), ground (arith, h'))
    | inr clash ↦ let h' = rw (clash, create_task) at h in absurd (ground (arith, h'))
  ]

  pub record Posted (body : RequestBody CreateTaskRequest) (db : Database) (k : Content)
      (db' : Database) : Type 0 where
    pub definition : Definition
    pub requested : (decode_body body >>= validate_request lib parse_time) ≡ ok definition
    pub accepted : IsValidDefinition lib definition
    pub fresh : find_task id db ≡ none
    pub stored : db' ≡ db ++ new_rows c id new_id definition ∷ []
    pub loaded : get_task_handler answered_store id db' ≡ write_json 200 k

  created-Posted :
      (d : Definition) (p : Outcome TaskRows × Database) (db : Database) {k : Content}
      {db' : Database}
      → respond answered_store created_response (deliver delivered p db) ≡ (write_json 201 k, db')
      → (r : TaskRows) × (p ≡ (ok r, db')) × (k ≡ task_content r.task r.steps)
  created-Posted d (ok r, after) db h = (r, ground (arith, h), ground (arith, h))
  created-Posted d (err e, after) db h = absurd (ground (arith, h))

  -- If the API answers 201 and its call of the store was answered, the request decodes and gives
  -- a valid definition, the id was unused, the rows of that definition have been appended, and a
  -- GET of the task answers 200 with the content of the answer.
  pub create_task_handler-Posted :
      (body : RequestBody CreateTaskRequest) (db : Database) {k : Content} {db' : Database}
      → create_task_handler answered_store lib parse_time body db ≡ (write_json 201 k, db')
      → Posted body db k db'
  unfolding create_task_handler get_task_handler load_task new_rows
  create_task_handler-Posted body db {k} {db'} h =
      elim (Result-cases (decode_body body >>= validate_request lib parse_time)) [
        | inr (problem, bad) ↦
            let h' = rw (bad, create_task_handler) at h in absurd (ground (arith, h'))
        | inl (d, fine) ↦
            let h' = rw (fine, create_task_handler) at h in
            let (r, created, content) = created-Posted d (create_task c id new_id d db) db h' in
            let (fresh, rows, stored) = create_task-rows d db created in
            let there = find_task-appended db (new_rows c id new_id d) fresh in
            record {
              definition = d;
              requested = fine;
              accepted =
                  let (input, decoded, valid) =
                    >>=-eq-ok (decode_body body) (validate_request lib parse_time) fine in
                  validate_request-IsValidDefinition lib parse_time input valid;
              fresh = fresh;
              stored = stored;
              loaded = rw stored (rw there (rw content (rw rows refl)));
            }
      ]

  -- A request that is validated is answered 201 and its task is appended, where its call of the
  -- store is answered, the drawn ids are distinct and unused, the numbers fit their columns and
  -- the database refuses none of its texts and documents for a character such as NUL; a GET of
  -- the task whose call is answered then answers 200 with the same content.
  pub create_task_handler-created :
      (body : RequestBody CreateTaskRequest) (d : Definition) (db : Database)
      → (decode_body body >>= validate_request lib parse_time) ≡ ok d
      → find_task id db ≡ none
      → distinct_steps (new_steps id new_id 0 d.steps) ≡ true
      → unused_steps (new_steps id new_id 0 d.steps) db ≡ true
      → d.task_timeout_seconds ≤ max_integer
      → within_integers d.steps ≡ true
      → (create_task_handler answered_store lib parse_time body db ≡ (
        write_json 201 (task_content (new_rows c id new_id d).task (new_rows c id new_id d).steps),
        db ++ new_rows c id new_id d ∷ [],
      ))
        × (get_task_handler answered_store id (db ++ new_rows c id new_id d ∷ [])
            ≡ write_json 200
                (task_content (new_rows c id new_id d).task (new_rows c id new_id d).steps))
  unfolding create_task_handler get_task_handler load_task new_rows create_task insertable
  create_task_handler-created body d db requested fresh distinct unused timeout within =
      let (input, decoded, valid) =
        >>=-eq-ok (decode_body body) (validate_request lib parse_time) requested in
      let accepted = validate_request-IsValidDefinition lib parse_time input valid in
      let limits = positive_limits-AllAccepted lib 0 d.steps accepted.steps in
      let fits : insertable (new_rows c id new_id d) d db ≡ true =
        ground (arith, fresh, distinct, unused, timeout, within, limits, accepted.timeout) in
      (
        rw (requested, create_task_handler) (rw (fits, create_task) refl),
        rw (find_task-appended db (new_rows c id new_id d) fresh) refl,
      )
