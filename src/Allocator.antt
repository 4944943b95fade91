-- ===== src/Allocator.antt =====
-- src/m5_allocator.cpp: the service that hands out node ids. The std::set of taken ids is a
-- list without repetitions, and the array of 32 counters a list.
pub mod Spec
pub mod History
mod Tests
use pst_dev.Prelude.{
  ℕ, zero, suc, ◌+◌, ◌*◌, ◌/◌, ◌%◌, ◌^◌, ◌≤◌, ◌<◌, List, [], ◌∷◌, bit_and, Bool, true, false, ◌&&◌,
  ◌||◌, not, ◌==◌, leb, if◌then◌else◌, length, set, get_or, replicate,
}
use mathlib.Core.List.{foldl}
use pst_dev.Bytes.{u32}
use pst_dev.Ident.{Nid, make_nid, nid_type}

-- kReservedTable
unfoldable pub reserved_table : List ℕ
reserved_table =
    0x21 ∷ 0x61 ∷ 0xa1 ∷ 0xc1 ∷ 0x122 ∷ 0x1e1 ∷ 0x201 ∷ 0x241 ∷ 0x261 ∷ 0x281 ∷ 0x2a1 ∷ 0x2e1
    ∷ 0x301 ∷ 0x321 ∷ []

abbrev pub max_nid_index : ℕ
max_nid_index = 2 ^ 27

abbrev pub user_alloc_start : ℕ
user_alloc_start = 0x400

unfoldable pub is_valid_nid_type : ℕ → Bool
is_valid_nid_type nt =
    let v = bit_and nt 0x1f in
    if v == 0x00 || v == 0x1f
    then true
    else if leb 0x01 v && leb v 0x08
    then true
    else leb 0x0a v && leb v 0x13

-- `allocated_.find(v) != allocated_.end()`
unfoldable pub contains : ℕ → List ℕ → Bool
contains v [] = false
contains v (x ∷ xs) = x == v || contains v xs

-- `allocated_.insert(v)`
unfoldable pub insert : ℕ → List ℕ → List ℕ
insert v xs = if contains v xs then xs else v ∷ xs

pub record M5Allocator : Type 0 where
  pub allocated : List ℕ
  pub next_index : List ℕ

-- The constructor. The slots of the types 0x00 (HID) and 0x01 (Internal) start at 1.
unfoldable pub initial : M5Allocator
unfolding insert contains
initial = record {
  allocated = foldl (λ s v. insert v s) [] reserved_table;
  next_index = set (set (replicate 32 user_alloc_start) 0 1) 1 1;
}

pub data AllocError : Type 0 where
  invalid_nid_type : AllocError
  counter_exhausted : AllocError
  already_allocated : AllocError

-- A throw keeps the state that it leaves behind. `out_of_fuel` is no result of the source.
pub data Outcome {ℓ} (A : Type ℓ) : Type ℓ where
  ok : A → M5Allocator → Outcome A
  throw : AllocError → M5Allocator → Outcome A
  out_of_fuel : Outcome A

-- The counter of a type, and the state in which it has advanced.
unfoldable pub counter : ℕ → M5Allocator → ℕ
counter nt a = get_or a.next_index (bit_and nt 0x1f) 0

unfoldable pub advance : ℕ → M5Allocator → M5Allocator
unfolding counter
advance nt a = record a { next_index = set a.next_index (bit_and nt 0x1f) (u32 (counter nt a + 1)) }

-- `while (true)`: skip the indices that are taken.
unfoldable pub allocate_loop : ℕ → ℕ → M5Allocator → Outcome Nid
allocate_loop zero nt a = out_of_fuel
allocate_loop (suc fuel) nt a =
    let idx = counter nt a in
    let a' = advance nt a in
    let candidate = make_nid nt idx in
    let rest = allocate_loop fuel nt a' in
    if leb max_nid_index idx
    then throw counter_exhausted a
    else if contains candidate.value a'.allocated
    then rest
    else ok candidate (record a' { allocated = insert candidate.value a'.allocated })

-- The loop runs at most once for each of the 2 ^ 27 indices, and once to find them used up.
unfoldable pub allocate : ℕ → M5Allocator → Outcome Nid
allocate nt a =
    if is_valid_nid_type nt
    then allocate_loop (max_nid_index + 1) nt a
    else throw invalid_nid_type a

unfoldable pub register_external : Nid → M5Allocator → Outcome (Unit {0})
register_external nid a =
    if is_valid_nid_type (nid_type nid)
    then (if contains nid.value a.allocated
        then throw already_allocated a
        else ok tt (record a { allocated = insert nid.value a.allocated }))
    else throw invalid_nid_type a

unfoldable pub is_allocated : Nid → M5Allocator → Bool
is_allocated nid a = contains nid.value a.allocated

unfoldable pub allocated_count : M5Allocator → ℕ
allocated_count a = length a.allocated
