-- ===== src/Store/Machine/Reaches.antt =====
-- Which databases the operations of internal/store/store.go lead to, whether or not they are answered.
-- `db'` comes from `db` by a sequence of operations.
use run_state.Base.{List, Bool, ◌≡◌, ◌∷◌, ◌∙◌, ◌++◌, sym, refl, ap, [], String}
use run_state.Store.Database.{Transaction, Database}
use run_state.Store.Answer.{answer_lost, Delivery, deliver, refused, delivered}
use run_state.Store.Machine.{run_all, run, Operation}
use run_state.Store.Types.{Outcome}
use run_state.Store.Machine.Call.{call, Link}
use run_state.Store.Machine.Laws.{run_all-IsValid, IsValid}

pub record Reaches (id_before : String → String → Bool) (db db' : Database) : Type 0 where
  pub ops : List Operation
  pub same : db' ≡ run_all id_before ops db

module _ (id_before : String → String → Bool) where
  run_all-append :
      (ops later : List Operation) (db : Database)
      → run_all id_before (ops ++ later) db ≡ run_all id_before later (run_all id_before ops db)
  unfolding run_all
  run_all-append [] later db = refl
  run_all-append (op ∷ rest) later db = run_all-append rest later (run id_before op db)

  pub Reaches-refl : (db : Database) → Reaches id_before db db
  unfolding run_all
  Reaches-refl db = record { ops = []; same = refl }

  pub Reaches-trans :
      {d e f : Database} → Reaches id_before d e → Reaches id_before e f → Reaches id_before d f
  Reaches-trans {d} p q = record {
    ops = p.ops ++ q.ops;
    same = q.same ∙ ap (run_all id_before q.ops) p.same ∙ sym (run_all-append p.ops q.ops d);
  }

  pub IsValid-Reaches : {d e : Database} → Reaches id_before d e → IsValid d → IsValid e
  IsValid-Reaches {d} reached valid =
      rw reached.same (run_all-IsValid id_before reached.ops d valid)

  pub Reaches-run :
      (ops : List Operation) (op : Operation) (db : Database)
      → Reaches id_before db (run id_before op (run_all id_before ops db))
  unfolding run_all
  Reaches-run ops op db = record {
    ops = ops ++ op ∷ [];
    same = sym (run_all-append ops (op ∷ []) db);
  }

  pub deliver-Reaches :
      {A : Type 0} (d : Delivery) (p : Outcome A × Database) {db before : Database}
      → Reaches id_before db before
      → Reaches id_before db p.1
      → Reaches id_before db (deliver d p before).1
  deliver-Reaches delivered (a, after) now later = later
  deliver-Reaches refused (a, after) now later = now
  deliver-Reaches answer_lost (a, after) now later = later

  -- A call whose transaction is an operation, or only reads.
  pub call-Reaches :
      {A : Type 0} (link : Link) (t : Transaction A) (op : Operation) (db : Database)
      → ((d : Database) → (t d).1 ≡ run id_before op d)
      → Reaches id_before db (call id_before link t db).1
  unfolding call
  call-Reaches link t op db same =
      deliver-Reaches link.delivery (t (run_all id_before link.others db))
        (record { ops = link.others; same = refl })
        (rw (same (run_all id_before link.others db)) (Reaches-run link.others op db))

  pub read-Reaches :
      {A : Type 0} (link : Link) (read : Database → Outcome A) (db : Database)
      → Reaches id_before db (call id_before link (λ d. (read d, d)) db).1
  unfolding call
  read-Reaches link read db =
      let now : Reaches id_before db (run_all id_before link.others db) = record {
        ops = link.others;
        same = refl;
      } in
      deliver-Reaches link.delivery
        (read (run_all id_before link.others db), run_all id_before link.others db) now now
