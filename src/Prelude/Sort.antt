-- ===== src/Prelude/Sort.antt =====
-- std::sort by a key, as an insertion sort, and what it keeps.
use Prim.Native.Nat.{ℕ, suc, ◌≤◌}
use mathlib.Core.Path.{◌≡◌, refl, ap, ◌∙◌}
use mathlib.Core.Logic.{inl, inr}
use mathlib.Core.List.{List, [], ◌∷◌}
use native.Mathlib.Omega.{arith}
use pst_dev.Prelude.Lists.{length}
use pst_dev.Prelude.Tests.{leb, if◌then◌else◌, Bool-cases}
use pst_dev.Prelude.Elements.{All}

-- std::sort by a key, ascending. The order of entries with one key, which std::sort leaves open,
-- is here that of the input.
unfoldable pub insert_by {ℓ} : {E : Type ℓ} → (E → ℕ) → E → List E → List E
insert_by key e [] = e ∷ []
insert_by key e (x ∷ xs) = if leb (key e) (key x) then e ∷ (x ∷ xs) else x ∷ insert_by key e xs

unfoldable pub sort_by {ℓ} : {E : Type ℓ} → (E → ℕ) → List E → List E
unfolding insert_by
sort_by key [] = []
sort_by key (e ∷ es) = insert_by key e (sort_by key es)

length-insert_by {ℓ} :
    {E : Type ℓ} (key : E → ℕ) (e : E) (xs : List E) → length (insert_by key e xs) ≡ suc (length xs)
unfolding insert_by
length-insert_by key e [] = refl
length-insert_by key e (x ∷ xs) = elim (Bool-cases (leb (key e) (key x))) [
  | inl h ↦ rw h refl
  | inr h ↦ rw h (ap suc (length-insert_by key e xs))
]

pub length-sort_by {ℓ} :
    {E : Type ℓ} (key : E → ℕ) (es : List E) → length (sort_by key es) ≡ length es
unfolding sort_by
length-sort_by key [] = refl
length-sort_by key (e ∷ es) =
    length-insert_by key e (sort_by key es) ∙ ap suc (length-sort_by key es)

All-insert_by {ℓ} :
    {E : Type ℓ} (P : E → Type 0) (key : E → ℕ) (e : E) (xs : List E)
    → P e
    → All P xs
    → All P (insert_by key e xs)
unfolding insert_by
All-insert_by P key e [] p ps = (p, tt)
All-insert_by P key e (x ∷ xs) p ps = elim (Bool-cases (leb (key e) (key x))) [
  | inl h ↦ rw h (p, ps)
  | inr h ↦ rw h (ps.0, All-insert_by P key e xs p ps.1)
]

pub All-sort_by {ℓ} :
    {E : Type ℓ} (P : E → Type 0) (key : E → ℕ) (es : List E) → All P es → All P (sort_by key es)
unfolding sort_by
All-sort_by P key [] ps = ps
All-sort_by P key (e ∷ es) ps =
    All-insert_by P key e (sort_by key es) ps.0 (All-sort_by P key es ps.1)

-- Ascending by the key.
unfoldable pub Ascending {ℓ} : {E : Type ℓ} → (E → ℕ) → List E → Type 0
Ascending key [] = Unit {0}
Ascending key (x ∷ []) = Unit {0}
Ascending key (x ∷ y ∷ ys) = (key x ≤ key y) × Ascending key (y ∷ ys)

Ascending-tail {ℓ} :
    {E : Type ℓ} (key : E → ℕ) (x : E) (xs : List E) → Ascending key (x ∷ xs) → Ascending key xs
unfolding Ascending
Ascending-tail key x [] h = tt
Ascending-tail key x (y ∷ ys) h = h.1

-- In front of what an insertion gives.
insert_behind {ℓ} :
    {E : Type ℓ} (key : E → ℕ) (x e : E) (xs : List E)
    → key x ≤ key e
    → Ascending key (x ∷ xs)
    → Ascending key (insert_by key e xs)
    → Ascending key (x ∷ insert_by key e xs)
unfolding insert_by Ascending
insert_behind key x e [] l h = λ k. (l, tt)
insert_behind key x e (y ∷ ys) l h = elim (Bool-cases (leb (key e) (key y))) [
  | inl t ↦ rw t (λ k. (l, k))
  | inr n ↦ rw n (λ k. (h.0, k))
]

insert_by-Ascending {ℓ} :
    {E : Type ℓ} (key : E → ℕ) (e : E) (xs : List E)
    → Ascending key xs
    → Ascending key (insert_by key e xs)
unfolding insert_by
insert_by-Ascending key e [] h = unfold Ascending in tt
insert_by-Ascending key e (x ∷ xs) h = elim (Bool-cases (leb (key e) (key x))) [
  | inl l ↦ rw l (unfold Ascending in (ground (arith, l), h))
  | inr n ↦ rw n (
      insert_behind key x e xs (ground (arith, n)) h
        (insert_by-Ascending key e xs (Ascending-tail key x xs h)))
]

pub sort_by-Ascending {ℓ} :
    {E : Type ℓ} (key : E → ℕ) (es : List E) → Ascending key (sort_by key es)
unfolding sort_by Ascending
sort_by-Ascending key [] = tt
sort_by-Ascending key (e ∷ es) =
    insert_by-Ascending key e (sort_by key es) (sort_by-Ascending key es)
