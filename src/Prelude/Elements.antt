-- ===== src/Prelude/Elements.antt =====
-- Elements of lists at an index, and predicates on all of them.
use Prim.Native.Nat.{ℕ, zero, suc, ◌+◌, ◌<◌}
use mathlib.Core.Path.{◌≡◌}
use mathlib.Core.List.{List, [], ◌∷◌}
use mathlib.Core.Option.{some}
use mathlib.Core.Path.{subst}
use native.Mathlib.Numerals.{add-one}
use native.Mathlib.Omega.{arith}
use pst_dev.Prelude.Lists.{length, get_elem?, drop}

abbrev pub All {ℓ} : {A : Type ℓ} → (A → Type 0) → List A → Type 0
All P [] = Unit {0}
All P (x ∷ xs) = P x × All P xs

pub get_elem?-All {ℓ} :
    {A : Type ℓ} (P : A → Type 0) (xs : List A) (j : ℕ) {x : A}
    → All P xs
    → get_elem? xs j ≡ some x
    → P x
get_elem?-All P [] j h g = cc
get_elem?-All P (y ∷ ys) zero h g = subst P (cc) h.0
get_elem?-All P (y ∷ ys) (suc j) h g = get_elem?-All P ys j h.1 g

pub get_elem?-lt {ℓ} :
    {A : Type ℓ} (xs : List A) (j : ℕ) {x : A} → get_elem? xs j ≡ some x → j < length xs
get_elem?-lt [] j g = cc
get_elem?-lt (y ∷ ys) zero g = omega arith
get_elem?-lt (y ∷ ys) (suc j) g = omega (arith, get_elem?-lt ys j g)

pub get_elem?-drop {ℓ} :
    {A : Type ℓ} (xs : List A) (i : ℕ) {x : A} {rest : List A}
    → drop i xs ≡ x ∷ rest
    → get_elem? xs i ≡ some x
get_elem?-drop [] zero d = cc
get_elem?-drop [] (suc i) d = cc
get_elem?-drop (y ∷ ys) zero d = cc
get_elem?-drop (y ∷ ys) (suc i) d = get_elem?-drop ys i d

pub drop_next {ℓ} :
    {A : Type ℓ} (xs : List A) (i : ℕ) {x : A} {rest : List A}
    → drop i xs ≡ x ∷ rest
    → drop (i + 1) xs ≡ rest
drop_next {A} xs i {x} {rest} d = rw add-one (go xs i d)
  where
    go : (xs : List A) (i : ℕ) → drop i xs ≡ x ∷ rest → drop (suc i) xs ≡ rest
    go [] zero d = cc
    go [] (suc i) d = cc
    go (y ∷ ys) zero d = cc
    go (y ∷ ys) (suc i) d = go ys i d
