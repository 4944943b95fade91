-- ===== src/Heap/Shape.antt =====
-- src/ltp.cpp: the parts of the heap that `buildHeapOnNode` returns: where its map stands, its header
-- as fields, and what a heap of given allocations is.
use pst_dev.Prelude.{
  ℕ, suc, ◌+◌, ◌-◌, ◌*◌, ◌%◌, ◌/◌, ◌^◌, ◌≤◌, ◌<◌, ◌≡◌, refl, ap, ◌∙◌, sym, arith, List, [], ◌∷◌,
  ◌++◌, inl, inr, Bool-cases, ◌==◌, ==_iff, not, if◌then◌else◌, length, get_elem?, some, bit_and,
}
use native.Mathlib.Nat.{mod-eq_of_lt}
use pst_dev.Prelude.Bits.{bit_and_clear, bit_and_ones}
use pst_dev.Bytes.{byte_at, slice, zeros, u16, read_u16, read_u32}
use pst_dev.Bytes.Laws.{IsBytes, write_le, write_u16-write_le, write_u32-write_le}
use pst_dev.Bytes.Fields.{Field, write_fields}
use pst_dev.Bytes.Words.{write_u8-write_le}
use pst_dev.Heap.{alloc_offsets, copy_allocs, count_free, mv_total, write_offsets, write_hn_header}
use pst_dev.Heap.Layout.{before}

-- Where the map of the allocations starts, whether an entry fills the gap in front of it, and how
-- many entries the map has.
unfoldable pub heap_end : List (List ℕ) → ℕ
heap_end allocs = 12 + mv_total allocs

unfoldable pub map_off : ℕ → ℕ
map_off at = (at + 3) / 4 * 4

unfoldable pub map_tail : ℕ → List ℕ
map_tail at = if at == map_off at then [] else map_off at ∷ []

unfoldable pub map_count : List (List ℕ) → ℕ
map_count allocs = length allocs + length (map_tail (heap_end allocs))

pub length-map_count : (allocs : List (List ℕ)) → length allocs ≤ map_count allocs
unfolding map_count
length-map_count allocs = omega arith

pub map_off-bounds : (at : ℕ) → (at ≤ map_off at) × (map_off at < at + 4)
unfolding map_off
map_off-bounds at = (omega arith, omega arith)

pub map_off-mask : (at : ℕ) → at < 2 ^ 16 - 3 → u16 (bit_and (at + 3) (2 ^ 32 - 1 - 3)) ≡ map_off at
unfolding map_off
map_off-mask at h =
    let a = bit_and_clear 2 (at + 3) (2 ^ 30 - 1) in
    let b = bit_and_ones 30 ((at + 3) / 4) in
    let c : bit_and (at + 3) (2 ^ 32 - 1 - 3) ≡ (at + 3) / 4 * 4 = a ∙ omega (arith, b) in
    rw c (omega arith)

pub length-map_tail : (at : ℕ) → length (map_tail at) ≤ 1
unfolding map_tail
length-map_tail at = ground arith

-- The fields of HNHDR.
unfoldable pub hn_fields : ℕ → ℕ → ℕ → List ℕ → List Field
hn_fields ib client root fill =
    (0, 2, ib)
    ∷ (2, 1, 0xec)
    ∷ (3, 1, client)
    ∷ (4, 4, root)
    ∷ (8, 1, byte_at fill 0)
    ∷ (9, 1, byte_at fill 1)
    ∷ (10, 1, byte_at fill 2)
    ∷ (11, 1, byte_at fill 3)
    ∷ []

pub hn_header_fields :
    (ib client root : ℕ) (fill out : List ℕ)
    → client < 256
    → IsBytes fill
    → write_hn_header ib client root fill out ≡ write_fields (hn_fields ib client root fill) out
unfolding write_hn_header hn_fields write_fields
hn_header_fields ib client root fill out h k =
    let byte : (i : ℕ) → byte_at fill i % 256 ≡ byte_at fill i = λ i. mod-eq_of_lt (k i) in
    rw
      (
        write_u16-write_le,
        write_u8-write_le (write_le 2 out 0 ib) 2 0xec (omega arith),
        write_u8-write_le (write_le 1 (write_le 2 out 0 ib) 2 0xec) 3 client h,
        write_u32-write_le,
      )
      (unfold write_le in simp (byte 0, byte 1, byte 2, byte 3))

pub count_free-lt : (allocs : List (List ℕ)) → count_free allocs < 2 ^ 16
unfolding count_free
count_free-lt [] = omega arith
count_free-lt (a ∷ rest) = ground (arith, count_free-lt rest)

pub map_entries :
    (at : ℕ)
    → (if not (at == map_off at) then at ∷ [] else []) ++ (map_off at ∷ []) ≡ at ∷ map_tail at
unfolding map_tail
map_entries at = elim (Bool-cases (at == map_off at)) [
  | inl e ↦ rw e (ap (λ (t : ℕ). t ∷ []) (sym ((==_iff at (map_off at)).0 e)))
  | inr n ↦ rw n refl
]

pub map_length :
    (n at : ℕ)
    → n < 2047
    → u16 (n + (if not (at == map_off at) then 1 else 0)) ≡ n + length (map_tail at)
unfolding map_tail
map_length n at h = elim (Bool-cases (at == map_off at)) [
  | inl e ↦ rw e (omega arith)
  | inr d ↦ rw d (omega arith)
]

-- The heap with its header fields, its allocations and its map.
unfoldable pub built : List (List ℕ) → ℕ → ℕ → List ℕ → List ℕ
built allocs client root fill =
    let ib = map_off (heap_end allocs) in
    write_offsets (ib + 4)
      (alloc_offsets 12 allocs ++ (heap_end allocs ∷ map_tail (heap_end allocs)))
      (write_fields ((ib, 2, map_count allocs) ∷ (ib + 2, 2, count_free allocs) ∷ []) (
        copy_allocs 12 allocs (
          write_fields (hn_fields ib client root fill)
            (zeros (ib + (4 + (map_count allocs + 1) * 2))))))

-- A heap of such allocations: its size, its header, the bounds of each allocation in its map,
-- and the bytes between them.
pub record IsHeap (allocs : List (List ℕ)) (client root : ℕ) (hn : List ℕ) : Type 0 where
  pub size : length hn ≡ map_off (heap_end allocs) + (4 + (map_count allocs + 1) * 2)
  pub bytes : IsBytes hn
  pub map_at : read_u16 hn 0 ≡ map_off (heap_end allocs)
  pub sig : byte_at hn 2 ≡ 0xec
  pub client_sig : byte_at hn 3 ≡ client
  pub root_hid : read_u32 hn 4 ≡ root
  pub count : read_u16 hn (map_off (heap_end allocs)) ≡ map_count allocs
  pub bounds :
      (i : ℕ) {a : List ℕ}
      → get_elem? allocs i ≡ some a
      → (read_u16 hn (map_off (heap_end allocs) + 4 + i * 2) ≡ 12 + before i allocs)
        × (read_u16 hn (map_off (heap_end allocs) + 4 + suc i * 2)
            ≡ 12 + before i allocs + length a)
        × (slice hn (12 + before i allocs) (length a) ≡ a)
