-- ===== src/Migrations.antt =====
-- The migrations of the database (internal/migrations/migrations.go). The embedded files and the
-- database are arguments: what `fs.Glob` finds, what `ReadFile` gives for a name, and what the execution
-- of a script does to a database of type `S`, which may change it although it fails.
pub mod Order
pub mod Applied
use Prim.Native.Char.{code}
use Prim.Native.String
use run_state.Base.{
  ltb, ◌∷◌, ◌++◌, true, ok, if◌then◌else◌, false, err, [], String, Result, List, Bool,
}

-- `a <= b`; the order of code points is that of the bytes of UTF-8.
unfoldable pub text_leb : String → String → Bool
text_leb String.[] t = true
text_leb (String.◌∷◌ c s) String.[] = false
text_leb (String.◌∷◌ c s) (String.◌∷◌ d t) =
    if ltb (code c) (code d) then true else if ltb (code d) (code c) then false else text_leb s t

unfoldable pub insert_name : String → List String → List String
insert_name name [] = name ∷ []
insert_name name (x ∷ rest) = if text_leb name x then name ∷ x ∷ rest else x ∷ insert_name name rest

-- `sort.Strings`
unfoldable pub sort_strings : List String → List String
sort_strings [] = []
sort_strings (x ∷ rest) = insert_name x (sort_strings rest)

-- `fmt.Errorf("... %s: %w", name, err)`
abbrev pub named_error : String → String → String → String
named_error text name problem = String.◌++◌ text (String.◌++◌ name (String.◌++◌ ": " problem))

module _ {S : Type 0} (read_file : String → Result String String)
    (exec : String → S → Result String (Unit {0}) × S) where
  -- What follows the execution of a script.
  abbrev pub after_exec :
      String
      → Result String (Unit {0}) × S
      → (S → Result String (Unit {0}) × S)
      → Result String (Unit {0}) × S
  after_exec name (ok u, s) go_on = go_on s
  after_exec name (err problem, s) go_on = (err (named_error "apply migration " name problem), s)

  abbrev pub with_script :
      String
      → Result String String
      → S
      → (String → Result String (Unit {0}) × S)
      → Result String (Unit {0}) × S
  with_script name (ok script) s go_on = go_on script
  with_script name (err problem) s go_on = (err (named_error "read migration " name problem), s)

  -- The loop over the names.
  unfoldable pub apply_all : List String → S → Result String (Unit {0}) × S
  apply_all [] s = (ok tt, s)
  apply_all (name ∷ rest) s =
      with_script name (read_file name) s
        (λ script. after_exec name (exec script s) (λ s'. apply_all rest s'))

  -- `Run`
  unfoldable pub run_migrations : Result String (List String) → S → Result String (Unit {0}) × S
  run_migrations (err problem) s = (err (String.◌++◌ "list migrations: " problem), s)
  run_migrations (ok entries) s = apply_all (sort_strings entries) s
