-- ===== src/Heap/Layout.antt =====
-- src/ltp.cpp: the heap that `buildHeapOnNode` lays out, by its allocations.
use pst_dev.Prelude.{
  ℕ, zero, suc, ◌+◌, ◌*◌, ◌^◌, ◌≤◌, ◌<◌, ◌≡◌, refl, ap, ◌∙◌, sym, arith, List, [], ◌∷◌, ◌++◌, ◌⊎◌,
  inl, inr, length, get_elem?, some, All,
}
use native.Mathlib.Nat.{mod-eq_of_lt}
use pst_dev.Bytes.{slice, u16, write_u16, write_bytes}
use pst_dev.Bytes.Laws.{
  IsBytes, write_le, length-write_le, IsBytes-write_le, read_le, read_le-write_le,
  read_le-write_le_other, write_u16-write_le,
}
use pst_dev.Bytes.Copy.{
  length-write_bytes, IsBytes-write_bytes, slice-write_bytes, slice-write_bytes_other,
  slice-write_le_other,
}
use pst_dev.Heap.{cursor_after, alloc_offsets, copy_allocs, mv_total, write_offsets}

-- The bytes of the allocations in front of the one at an index.
unfoldable pub before : ℕ → List (List ℕ) → ℕ
before zero allocs = 0
before (suc i) [] = 0
before (suc i) (a ∷ rest) = length a + before i rest

pub before-le :
    (i : ℕ) (allocs : List (List ℕ)) {a : List ℕ}
    → get_elem? allocs i ≡ some a
    → before i allocs + length a ≤ mv_total allocs
unfolding before mv_total
before-le zero [] g = cc
before-le (suc i) [] g = cc
before-le zero (x ∷ rest) {a} g =
    let same : x ≡ a = cc in let e : length x ≡ length a = ap length same in omega (arith, e)
before-le (suc i) (x ∷ rest) {a} g = omega (arith, before-le i rest {a = a} g)

pub cursor_after-mv_total :
    (allocs : List (List ℕ)) (cursor : ℕ)
    → cursor + mv_total allocs < 2 ^ 16
    → cursor_after cursor allocs ≡ cursor + mv_total allocs
unfolding cursor_after mv_total
cursor_after-mv_total [] cursor h = omega arith
cursor_after-mv_total (a ∷ rest) cursor h =
    let e : u16 (cursor + length a) ≡ cursor + length a = mod-eq_of_lt (omega arith) in
    rw e (cursor_after-mv_total rest (cursor + length a) (omega arith) ∙ omega arith)

-- The offsets of the allocations, with what stands behind them.
pub alloc_offsets-at :
    (allocs : List (List ℕ)) (cursor : ℕ) (more : List ℕ) (i : ℕ) {a : List ℕ}
    → cursor + mv_total allocs < 2 ^ 16
    → get_elem? allocs i ≡ some a
    → get_elem? (alloc_offsets cursor allocs ++ more) i ≡ some (cursor + before i allocs)
unfolding alloc_offsets mv_total before
alloc_offsets-at [] cursor more zero h g = cc
alloc_offsets-at [] cursor more (suc i) h g = cc
alloc_offsets-at (x ∷ rest) cursor more zero h g = ap some (omega arith)
alloc_offsets-at (x ∷ rest) cursor more (suc i) {a} h g =
    let e : u16 (cursor + length x) ≡ cursor + length x = mod-eq_of_lt (omega arith) in
    rw e (
      alloc_offsets-at rest (cursor + length x) more i {a = a} (omega arith) g
      ∙ ap some (omega arith))

pub alloc_offsets-end :
    (allocs : List (List ℕ)) (cursor last : ℕ) (more : List ℕ) (i : ℕ) {a : List ℕ}
    → cursor + mv_total allocs < 2 ^ 16
    → last ≡ cursor + mv_total allocs
    → get_elem? allocs i ≡ some a
    → get_elem? (alloc_offsets cursor allocs ++ (last ∷ more)) (suc i)
      ≡ some (cursor + before i allocs + length a)
unfolding alloc_offsets mv_total before
alloc_offsets-end [] cursor last more zero h l g = cc
alloc_offsets-end [] cursor last more (suc i) h l g = cc
alloc_offsets-end (x ∷ []) cursor last more zero {a} h l g =
    let same : x ≡ a = cc in
    let e : length x ≡ length a = ap length same in ap some (omega (arith, e, l))
alloc_offsets-end (x ∷ y ∷ rest) cursor last more zero {a} h l g =
    let same : x ≡ a = cc in
    let e : length x ≡ length a = ap length same in
    let m : u16 (cursor + length x) ≡ cursor + length x = mod-eq_of_lt (omega arith) in
    ap some (omega (arith, e, m))
alloc_offsets-end (x ∷ rest) cursor last more (suc i) {a} h l g =
    let m : u16 (cursor + length x) ≡ cursor + length x = mod-eq_of_lt (omega arith) in
    rw m (
      alloc_offsets-end rest (cursor + length x) last more i {a = a} (omega arith) (omega arith) g
      ∙ ap some (omega arith))

pub length-alloc_offsets :
    (allocs : List (List ℕ)) (cursor : ℕ) → length (alloc_offsets cursor allocs) ≡ length allocs
unfolding alloc_offsets
length-alloc_offsets [] cursor = refl
length-alloc_offsets (a ∷ rest) cursor = ap suc (length-alloc_offsets rest _)

-- The copies.
pub length-copy_allocs :
    (allocs : List (List ℕ)) (cursor : ℕ) (out : List ℕ)
    → length (copy_allocs cursor allocs out) ≡ length out
unfolding copy_allocs
length-copy_allocs [] cursor out = refl
length-copy_allocs (a ∷ rest) cursor out =
    length-copy_allocs rest _ (write_bytes out cursor a) ∙ length-write_bytes a out cursor

pub IsBytes-copy_allocs :
    (allocs : List (List ℕ)) (cursor : ℕ) (out : List ℕ)
    → All IsBytes allocs
    → IsBytes out
    → IsBytes (copy_allocs cursor allocs out)
unfolding copy_allocs
IsBytes-copy_allocs [] cursor out h k = k
IsBytes-copy_allocs (a ∷ rest) cursor out h k =
    IsBytes-copy_allocs rest _ (write_bytes out cursor a) h.1
      (IsBytes-write_bytes a out cursor h.0 k)

pub slice-copy_allocs_other :
    (allocs : List (List ℕ)) (cursor : ℕ) (out : List ℕ) (at m : ℕ)
    → cursor + mv_total allocs < 2 ^ 16
    → cursor + mv_total allocs ≤ length out
    → at + m ≤ length out
    → (at + m ≤ cursor) ⊎ (cursor + mv_total allocs ≤ at)
    → slice (copy_allocs cursor allocs out) at m ≡ slice out at m
unfolding copy_allocs mv_total
slice-copy_allocs_other [] cursor out at m h k l d = refl
slice-copy_allocs_other (a ∷ rest) cursor out at m h k l d =
    let e : u16 (cursor + length a) ≡ cursor + length a = mod-eq_of_lt (omega arith) in
    let size = length-write_bytes a out cursor in
    rw e (
      slice-copy_allocs_other rest (cursor + length a) (write_bytes out cursor a) at m (omega arith)
        (omega (arith, size)) (omega (arith, size))
        (elim d [ inl p ↦ inl (omega arith) | inr p ↦ inr (omega arith) ])
      ∙ slice-write_bytes_other a out cursor at m (omega arith) l
          (elim d [ inl p ↦ inl p | inr p ↦ inr (omega arith) ]))

pub slice-copy_allocs :
    (allocs : List (List ℕ)) (cursor : ℕ) (out : List ℕ) (i : ℕ) {a : List ℕ}
    → cursor + mv_total allocs < 2 ^ 16
    → cursor + mv_total allocs ≤ length out
    → get_elem? allocs i ≡ some a
    → slice (copy_allocs cursor allocs out) (cursor + before i allocs) (length a) ≡ a
unfolding copy_allocs mv_total before
slice-copy_allocs [] cursor out zero h k g = cc
slice-copy_allocs [] cursor out (suc i) h k g = cc
slice-copy_allocs (x ∷ rest) cursor out zero {a} h k g =
    let same : x ≡ a = cc in
    let e : u16 (cursor + length x) ≡ cursor + length x = mod-eq_of_lt (omega arith) in
    let z : cursor + 0 ≡ cursor = omega arith in
    let size = length-write_bytes x out cursor in
    rw (sym same, e, z)
      (slice-copy_allocs_other rest (cursor + length x) (write_bytes out cursor x) cursor (length x)
          (omega arith) (omega (arith, size)) (omega (arith, size)) (inl (omega arith))
        ∙ slice-write_bytes x out cursor (omega arith))
slice-copy_allocs (x ∷ rest) cursor out (suc i) {a} h k g =
    let e : u16 (cursor + length x) ≡ cursor + length x = mod-eq_of_lt (omega arith) in
    let z : cursor + (length x + before i rest) ≡ cursor + length x + before i rest = omega arith in
    let size = length-write_bytes x out cursor in
    rw (e, z)
      (slice-copy_allocs rest (cursor + length x) (write_bytes out cursor x) i {a = a} (omega arith)
        (omega (arith, size)) g)

-- The map of the offsets.
pub length-write_offsets :
    (os : List ℕ) (off : ℕ) (out : List ℕ) → length (write_offsets off os out) ≡ length out
unfolding write_offsets
length-write_offsets [] off out = refl
length-write_offsets (o ∷ os) off out =
    length-write_offsets os (off + 2) (write_u16 out off o)
    ∙ rw write_u16-write_le (length-write_le 2 out off o)

pub IsBytes-write_offsets :
    (os : List ℕ) (off : ℕ) (out : List ℕ) → IsBytes out → IsBytes (write_offsets off os out)
unfolding write_offsets
IsBytes-write_offsets [] off out h = h
IsBytes-write_offsets (o ∷ os) off out h =
    IsBytes-write_offsets os (off + 2) (write_u16 out off o)
      (rw write_u16-write_le (IsBytes-write_le 2 out off o h))

pub slice-write_offsets :
    (os : List ℕ) (off : ℕ) (out : List ℕ) (at m : ℕ)
    → off + 2 * length os ≤ length out
    → at + m ≤ off
    → slice (write_offsets off os out) at m ≡ slice out at m
unfolding write_offsets
slice-write_offsets [] off out at m h l = refl
slice-write_offsets (o ∷ os) off out at m h l =
    let size = length-write_le 2 out off o in
    rw write_u16-write_le (
      slice-write_offsets os (off + 2) (write_le 2 out off o) at m (omega (arith, size))
        (omega arith)
      ∙ slice-write_le_other 2 out off o at m (omega arith) (omega arith) (inl l))

pub read_le-write_offsets :
    (os : List ℕ) (off : ℕ) (out : List ℕ) (at m : ℕ)
    → off + 2 * length os ≤ length out
    → at + m ≤ off
    → read_le m (write_offsets off os out) at ≡ read_le m out at
unfolding write_offsets
read_le-write_offsets [] off out at m h l = refl
read_le-write_offsets (o ∷ os) off out at m h l =
    let size = length-write_le 2 out off o in
    rw write_u16-write_le (
      read_le-write_offsets os (off + 2) (write_le 2 out off o) at m (omega (arith, size))
        (omega arith)
      ∙ read_le-write_le_other m 2 out off o at (omega arith) (inl l))

pub read_u16-write_offsets :
    (os : List ℕ) (off : ℕ) (out : List ℕ) (i : ℕ) {o : ℕ}
    → IsBytes out
    → off + 2 * length os ≤ length out
    → get_elem? os i ≡ some o
    → o < 2 ^ 16
    → read_le 2 (write_offsets off os out) (off + i * 2) ≡ o
unfolding write_offsets
read_u16-write_offsets [] off out zero b h g l = cc
read_u16-write_offsets [] off out (suc i) b h g l = cc
read_u16-write_offsets (x ∷ os) off out zero {o} b h g l =
    let e : x ≡ o = cc in
    let z : off + 0 * 2 ≡ off = omega arith in
    let size = length-write_le 2 out off x in
    rw (z, write_u16-write_le)
      (read_le-write_offsets os (off + 2) (write_le 2 out off x) off 2 (omega (arith, size))
          (omega arith)
        ∙ read_le-write_le 2 out off x (omega arith)
        ∙ omega (arith, e))
read_u16-write_offsets (x ∷ os) off out (suc i) {o} b h g l =
    let z : off + suc i * 2 ≡ off + 2 + i * 2 = omega arith in
    let size = length-write_le 2 out off x in
    rw (z, write_u16-write_le)
      (read_u16-write_offsets os (off + 2) (write_le 2 out off x) i {o = o}
        (IsBytes-write_le 2 out off x b) (omega (arith, size)) g l)
