-- ===== src/Migrations/Order.antt =====
-- The order of the names that `sort.Strings` gives (internal/migrations/migrations.go).

use mathlib.Core.List.{Perm}
use mathlib.Core.List.Perm
use run_state.Base.{◌≡◌, ◌∷◌, true, refl, inr, inl, false, arith, [], String, List, Bool-cases, All}
use run_state.Migrations.{text_leb, sort_strings, insert_name}

abbrev pub IsSorted : List String → Type 0
IsSorted [] = Unit {0}
IsSorted (x ∷ rest) = All (λ y. text_leb x y ≡ true) rest × IsSorted rest

text_leb_total : (s t : String) → text_leb s t ≡ false → text_leb t s ≡ true
unfolding text_leb
text_leb_total String.[] t h = absurd (ground (arith, h))
text_leb_total (String.◌∷◌ c s) String.[] h = refl
text_leb_total (String.◌∷◌ c s) (String.◌∷◌ d t) h = ground (arith, h, text_leb_total s t)

text_leb_trans : (s t u : String) → text_leb s t ≡ true → text_leb t u ≡ true → text_leb s u ≡ true
unfolding text_leb
text_leb_trans String.[] t u h k = refl
text_leb_trans (String.◌∷◌ c s) String.[] u h k = absurd (ground (arith, h))
text_leb_trans (String.◌∷◌ c s) (String.◌∷◌ d t) String.[] h k = absurd (ground (arith, k))
text_leb_trans (String.◌∷◌ c s) (String.◌∷◌ d t) (String.◌∷◌ e u) h k =
    ground (arith, h, k, text_leb_trans s t u)

All-below :
    (x y : String) (names : List String)
    → text_leb x y ≡ true
    → All (λ z. text_leb y z ≡ true) names
    → All (λ z. text_leb x z ≡ true) names
All-below x y [] h all = tt
All-below x y (z ∷ rest) h all = (text_leb_trans x y z h all.0, All-below x y rest h all.1)

All-insert_name :
    (x y : String) (names : List String)
    → text_leb x y ≡ true
    → All (λ z. text_leb x z ≡ true) names
    → All (λ z. text_leb x z ≡ true) (insert_name y names)
unfolding insert_name
All-insert_name x y [] h all = (h, tt)
All-insert_name x y (z ∷ rest) h all = elim (Bool-cases (text_leb y z)) [
  | inl e ↦ rw e (h, all)
  | inr e ↦ rw e (all.0, All-insert_name x y rest h all.1)
]

insert_name-IsSorted :
    (x : String) (names : List String) → IsSorted names → IsSorted (insert_name x names)
unfolding insert_name
insert_name-IsSorted x [] sorted = (tt, tt)
insert_name-IsSorted x (y ∷ rest) sorted = elim (Bool-cases (text_leb x y)) [
  | inl e ↦ rw e ((e, All-below x y rest e sorted.0), sorted)
  | inr e ↦ rw e (
    All-insert_name y x rest (text_leb_total x y e) sorted.0,
    insert_name-IsSorted x rest sorted.1,
  )
]

pub sort_strings-IsSorted : (names : List String) → IsSorted (sort_strings names)
unfolding sort_strings
sort_strings-IsSorted [] = tt
sort_strings-IsSorted (x ∷ rest) =
    insert_name-IsSorted x (sort_strings rest) (sort_strings-IsSorted rest)

insert_name-perm : (x : String) (names : List String) → Perm (insert_name x names) (x ∷ names)
unfolding insert_name
insert_name-perm x [] = Perm.refl (x ∷ [])
insert_name-perm x (y ∷ rest) = elim (Bool-cases (text_leb x y)) [
  | inl e ↦ rw e (Perm.refl (x ∷ y ∷ rest))
  | inr e ↦ rw e (Perm.trans (Perm.cons y (insert_name-perm x rest)) (Perm.swap x y rest))
]

pub sort_strings-perm : (names : List String) → Perm (sort_strings names) names
unfolding sort_strings
sort_strings-perm [] = Perm.refl []
sort_strings-perm (x ∷ rest) =
    Perm.trans (insert_name-perm x (sort_strings rest)) (Perm.cons x (sort_strings-perm rest))
