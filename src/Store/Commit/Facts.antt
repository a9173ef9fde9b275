-- ===== src/Store/Commit/Facts.antt =====
-- What the fact checks share: events among appended ones, and what an exact fact makes of the result
-- of a COMMIT (internal/store/store.go).
use run_state.Base.{
  ◌≡◌, ◌∷◌, ◌++◌, true, refl, ok, inr, inl, if◌then◌else◌, false, err, arith, [], Result, List,
  Bool-cases, Bool,
}
use run_state.Store.Commit.{
  any, response_lost, persisted, not_committed, commit_with_fact_check, commit_failed, acknowledged,
  CommitResult, CommitError,
}
use run_state.Store.Rows.{TaskRows}

pub any-append_left :
    {A : Type 0} (p : A → Bool) (xs ys : List A) → any p xs ≡ true → any p (xs ++ ys) ≡ true
any-append_left p [] ys h = cc
any-append_left p (x ∷ xs) ys h = elim (Bool-cases (p x)) [
  | inl e ↦ rw e
  | inr e ↦ rw (e, any) (any-append_left p xs ys (rw (e, any) at h))
]

pub any-append :
    {A : Type 0} (p : A → Bool) (xs ys : List A) → any p ys ≡ true → any p (xs ++ ys) ≡ true
any-append p [] ys h = h
any-append p (x ∷ xs) ys h = ground (arith, any-append p xs ys h)

abbrev pub is_committed : CommitResult → Bool
is_committed not_committed = false
is_committed _ = true

-- The answer that a caller should get.
abbrev pub CommitReport : CommitResult → Result CommitError (Unit {0}) → Type 0
CommitReport k answer = answer ≡ (if is_committed k then ok tt else err commit_failed)

-- What an exact fact makes of the result of a COMMIT.
pub commit-exact :
    (k : CommitResult) (fact : TaskRows → Bool) (r r' : TaskRows)
    → fact r ≡ false
    → fact r' ≡ true
    → CommitReport k
        (commit_with_fact_check k (persisted (fact (if is_committed k then r' else r))))
unfolding commit_with_fact_check
commit-exact acknowledged fact r r' before after = refl
commit-exact response_lost fact r r' before after = rw after
commit-exact not_committed fact r r' before after = rw before
