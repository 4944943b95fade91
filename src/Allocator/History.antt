-- ===== src/Allocator/History.antt =====
-- src/m5_allocator.cpp: any sequence of calls on one allocator.
use pst_dev.Prelude.{
  ℕ, ◌+◌, ◌≡◌, refl, ap, ◌∙◌, arith, List, [], ◌∷◌, ◌++◌, false, inl, inr, length,
}
use mathlib.Core.List.{reverse}
use pst_dev.Ident.{Nid}
use pst_dev.Allocator.{
  contains, insert, M5Allocator, initial, AllocError, ok, throw, allocate, register_external,
  allocated_count, reserved_table,
}
use pst_dev.Allocator.Spec.{IsValid, allocate_lem, insert_new}

-- The ids given out or registered so far, the latest first, and the state. A call that throws
-- keeps the list.
pub data Reach : List ℕ → M5Allocator → Type 0 where
  start : Reach [] initial
  handed_out :
      {given : List ℕ} {a a' : M5Allocator} (nt : ℕ) (nid : Nid)
      → Reach given a
      → allocate nt a ≡ ok nid a'
      → Reach (nid.value ∷ given) a'
  registered :
      {given : List ℕ} {a a' : M5Allocator} (nid : Nid)
      → Reach given a
      → register_external nid a ≡ ok tt a'
      → Reach (nid.value ∷ given) a'
  refused :
      {given : List ℕ} {a a' : M5Allocator} (nt : ℕ) (e : AllocError)
      → Reach given a
      → allocate nt a ≡ throw e a'
      → Reach given a'
  refused_registration :
      {given : List ℕ} {a a' : M5Allocator} (nid : Nid) (e : AllocError)
      → Reach given a
      → register_external nid a ≡ throw e a'
      → Reach given a'

abbrev pub Distinct : List ℕ → Type 0
Distinct [] = Unit {0}
Distinct (x ∷ xs) = (contains x xs ≡ false) × Distinct xs

-- A successful call, and one that throws.
allocate_ok :
    (nt : ℕ) (a : M5Allocator) {nid : Nid} {a' : M5Allocator}
    → IsValid a
    → allocate nt a ≡ ok nid a'
    → (contains nid.value a.allocated ≡ false)
      × (a'.allocated ≡ nid.value ∷ a.allocated)
      × IsValid a'
allocate_ok nt a valid e = elim (allocate_lem nt a valid) [
  | inl (good, s) ↦ let (idx, p, q, f, free, t, g, c, v) = (rw e at s) in (free, g, v)
  | inr (bad, s) ↦ cc
]

allocate_throw :
    (nt : ℕ) (a : M5Allocator) {e : AllocError} {a' : M5Allocator}
    → IsValid a
    → allocate nt a ≡ throw e a'
    → (a'.allocated ≡ a.allocated) × IsValid a'
allocate_throw nt a valid e = elim (allocate_lem nt a valid) [
  | inl (good, s) ↦ let (p, t, f, v) = (rw e at s) in (f, v)
  | inr (bad, s) ↦ ground arith
]

register_ok :
    (nid : Nid) (a : M5Allocator) {a' : M5Allocator}
    → register_external nid a ≡ ok tt a'
    → (contains nid.value a.allocated ≡ false)
      × (a'.allocated ≡ nid.value ∷ a.allocated)
      × (a'.next_index ≡ a.next_index)
unfolding register_external
register_ok nid a e = ground (arith, insert_new nid.value a.allocated)

register_throw :
    (nid : Nid) (a : M5Allocator) {e : AllocError} {a' : M5Allocator}
    → register_external nid a ≡ throw e a'
    → a' ≡ a
unfolding register_external
register_throw nid a e = ground arith

pub initial-IsValid : IsValid initial
unfolding initial
initial-IsValid = refl

initial-Distinct : Distinct initial.allocated
unfolding initial reserved_table insert contains
initial-Distinct = (
  refl,
  (
    refl,
    (
      refl,
      (refl, (refl, (refl, (refl, (refl, (refl, (refl, (refl, (refl, (refl, (refl, tt))))))))))),
    ),
  ),
)

counted :
    (v : ℕ) (given : List ℕ) (a b : M5Allocator)
    → b.allocated ≡ v ∷ a.allocated
    → allocated_count a ≡ length given + 14
    → allocated_count b ≡ length (v ∷ given) + 14
unfolding allocated_count
counted v given a b added count = omega (arith, ap length added, count)

recounted : (a b : M5Allocator) → b.allocated ≡ a.allocated → allocated_count b ≡ allocated_count a
unfolding allocated_count
recounted a b same = ap length same

-- The set of a new allocator is the reserved table, in the order of the insertions.
initial-reserved : initial.allocated ≡ reverse reserved_table
unfolding initial reserved_table insert contains
initial-reserved = refl

-- After any sequence of calls of `allocate` and `registerExternal`, refused ones included, the set
-- of taken ids is what was given out or registered, over the 14 reserved ids; no id stands in it
-- twice; and there are 32 counters.
pub Reach-Distinct :
    (given : List ℕ) (a : M5Allocator)
    → Reach given a
    → (a.allocated ≡ given ++ reverse reserved_table)
      × Distinct a.allocated
      × (allocated_count a ≡ length given + 14)
      × IsValid a
Reach-Distinct given a start = (
  initial-reserved,
  initial-Distinct,
  unfold allocated_count initial reserved_table insert contains in refl,
  initial-IsValid,
)
Reach-Distinct given a (handed_out {given = g} {a = b} nt nid r e) =
    let (all, distinct, count, valid) = Reach-Distinct g b r in
    let (free, added, valid') = allocate_ok nt b valid e in
    (
      added ∙ ap (◌∷◌ nid.value) all,
      rw added (free, distinct),
      counted nid.value g b a added count,
      valid',
    )
Reach-Distinct given a (registered {given = g} {a = b} nid r e) =
    let (all, distinct, count, valid) = Reach-Distinct g b r in
    let (free, added, same) = register_ok nid b e in
    (
      added ∙ ap (◌∷◌ nid.value) all,
      rw added (free, distinct),
      counted nid.value g b a added count,
      ap length same ∙ valid,
    )
Reach-Distinct given a (refused {a = b} nt x r e) =
    let (all, distinct, count, valid) = Reach-Distinct given b r in
    let (same, valid') = allocate_throw nt b valid e in
    (same ∙ all, rw same distinct, recounted b a same ∙ count, valid')
Reach-Distinct given a (refused_registration {a = b} nid x r e) =
    rw (register_throw nid b e) (Reach-Distinct given b r)
