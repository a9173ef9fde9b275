-- ===== src/Migrations/Applied.antt =====
-- Which scripts a run of the migrations applies (internal/migrations/migrations.go).
use mathlib.Core.List.{Perm}
use run_state.Base.{
  sym, Result, subst, ap, List, ◌⊎◌, ◌≡◌, ◌∷◌, ◌++◌, refl, ok, inr, inl, err, [], String,
  Result-cases,
}
use run_state.Migrations.{sort_strings, after_exec, run_migrations, named_error, apply_all}
use run_state.Migrations.Order.{sort_strings-perm, sort_strings-IsSorted, IsSorted}

module _ {S : Type 0} (read_file : String → Result String String)
    (exec : String → S → Result String (Unit {0}) × S) where
  -- The scripts of the names are read and executed in this order, with no error.
  pub data Applied : List String → S → S → Type 0 where
    nothing : (s : S) → Applied [] s s
    then_apply :
        {name script : String} {rest : List String} {s t u : S}
        → read_file name ≡ ok script
        → exec script s ≡ (ok tt, t)
        → Applied rest t u
        → Applied (name ∷ rest) s u

  -- The script of a name cannot be read, or fails.
  abbrev pub FailsAt : String → S → Result String (Unit {0}) × S → Type 0
  FailsAt name t p =
      ((problem : String) × (read_file name ≡ err problem)
        × (p ≡ (err (named_error "read migration " name problem), t)))
      ⊎ ((script problem : String) × (after : S) × (read_file name ≡ ok script)
          × (exec script t ≡ (err problem, after))
          × (p ≡ (err (named_error "apply migration " name problem), after)))

  -- How a run ends, with the names that are left.
  abbrev pub Ends : List String → S → Result String (Unit {0}) × S → Type 0
  Ends [] t p = p ≡ (ok tt, t)
  Ends (name ∷ rest) t p = FailsAt name t p

  pub record IsPrefix (names : List String) (s : S) (p : Result String (Unit {0}) × S)
      : Type 0 where
    pub done : List String
    pub left : List String
    pub reached : S
    pub split : done ++ left ≡ names
    pub applied : Applied done s reached
    pub ended : Ends left reached p

  apply_all-exec :
      (name script : String) (rest : List String) (s : S) (p : Result String (Unit {0}) × S)
      → read_file name ≡ ok script
      → exec script s ≡ p
      → apply_all read_file exec (name ∷ rest) s
        ≡ after_exec read_file exec name p (apply_all read_file exec rest)
  unfolding apply_all
  apply_all-exec name script rest s p read executed = rw read (rw executed refl)

  apply_all-read :
      (name problem : String) (rest : List String) (s : S)
      → read_file name ≡ err problem
      → apply_all read_file exec (name ∷ rest) s
        ≡ (err (named_error "read migration " name problem), s)
  unfolding apply_all
  apply_all-read name problem rest s read = rw read refl

  after_exec-IsPrefix :
      (name script : String) (rest : List String) (s : S) (p : Result String (Unit {0}) × S)
      → read_file name ≡ ok script
      → exec script s ≡ p
      → ((t : S) → IsPrefix rest t (apply_all read_file exec rest t))
      → IsPrefix (name ∷ rest) s (after_exec read_file exec name p (apply_all read_file exec rest))
  after_exec-IsPrefix name script rest s (ok u, t) read executed later = record {
    done = name ∷ (later t).done;
    left = (later t).left;
    reached = (later t).reached;
    split = ap (λ names. name ∷ names) (later t).split;
    applied = then_apply read executed (later t).applied;
    ended = (later t).ended;
  }
  after_exec-IsPrefix name script rest s (err problem, t) read executed later = record {
    done = [];
    left = name ∷ rest;
    reached = s;
    split = refl;
    applied = nothing s;
    ended = inr (script, problem, t, read, executed, refl);
  }

  pub apply_all-IsPrefix :
      (names : List String) (s : S) → IsPrefix names s (apply_all read_file exec names s)
  unfolding apply_all
  apply_all-IsPrefix [] s = record {
    done = [];
    left = [];
    reached = s;
    split = refl;
    applied = nothing s;
    ended = refl;
  }
  apply_all-IsPrefix (name ∷ rest) s = elim (Result-cases (read_file name)) [
    | inr (problem, read) ↦ record {
      done = [];
      left = name ∷ rest;
      reached = s;
      split = refl;
      applied = nothing s;
      ended = inl (problem, read, apply_all-read name problem rest s read);
    }
    | inl (script, read) ↦
        subst (IsPrefix (name ∷ rest) s)
          (sym (apply_all-exec name script rest s (exec script s) read refl))
          (after_exec-IsPrefix name script rest s (exec script s) read refl
            (apply_all-IsPrefix rest))
  ]

  -- A run of the migrations on the names that were found executes their scripts in ascending
  -- order of the names: all of them, and then it returns nil, or those before the first that
  -- cannot be read or fails, and then it returns the error of that one.
  pub run_migrations-IsPrefix :
      (names : List String) (s : S)
      → (ordered : List String) × IsSorted ordered
        × Perm ordered names
        × IsPrefix ordered s (run_migrations read_file exec (ok names) s)
  unfolding run_migrations
  run_migrations-IsPrefix names s = (
    sort_strings names,
    sort_strings-IsSorted names,
    sort_strings-perm names,
    apply_all-IsPrefix (sort_strings names) s,
  )
