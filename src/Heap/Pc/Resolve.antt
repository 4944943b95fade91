-- ===== src/Heap/Pc/Resolve.antt =====
-- src/ltp.cpp: `resolveHidInSingleBlockHn` on a heap of `buildHeapOnNode`.
use pst_dev.Prelude.{
  ℕ, suc, ◌+◌, ◌-◌, ◌*◌, ◌^◌, ◌≤◌, ◌<◌, ◌≡◌, arith, List, false, ◌==◌, ltb, length, get_elem?, some,
  All, get_elem?-lt,
}
use pst_dev.Prelude.Except.{ok}
use pst_dev.Bytes.{slice, read_u16}
use pst_dev.Bytes.Laws.{IsBytes}
use pst_dev.Heap.{make_hid, hid_index, build_heap_on_node, mv_total}
use pst_dev.Heap.Laws.{make_hid_fields}
use pst_dev.Heap.Layout.{before, before-le}
use pst_dev.Heap.Shape.{heap_end, map_off, map_off-bounds, map_count, length-map_count, IsHeap}
use pst_dev.Heap.Built.{build_heap_on_node-IsHeap}
use pst_dev.Heap.Pc.Read.{HnSlice, resolve_hid}

module _ (allocs : List (List ℕ)) {client root : ℕ} (hn : List ℕ)
    (heap : IsHeap allocs client root hn) (few : length allocs < 2047) (i : ℕ) {a : List ℕ}
    (found : get_elem? allocs i ≡ some a) where
  -- Every test of the resolver passes.
  pub resolve_hid-IsHeap :
      resolve_hid (make_hid (suc i) 0 0) hn (map_off (heap_end allocs)) (map_count allocs)
      ≡ ok (record { off = 12 + before i allocs; size = length a })
  unfolding resolve_hid
  resolve_hid-IsHeap =
      let (t, x, b, l) = make_hid_fields (suc i) 0 0 (omega arith) in
      let inside = get_elem?-lt allocs i found in
      let (low, high, own) = heap.bounds i found in
      let x' : hid_index (make_hid (suc i) 0 0) ≡ suc i = omega (arith, x) in
      let size = heap.size in
      let le = before-le i allocs {a = a} found in
      let at = map_off-bounds (heap_end allocs) in
      let room : map_off (heap_end allocs) + 4 + suc i * 2 + 2 ≤ length hn =
        omega (arith, inside, length-map_count allocs, size) in
      let h1 : ltb (map_count allocs) (suc i) ≡ false =
        ground (arith, inside, length-map_count allocs) in
      let h2 : ltb (length hn) (map_off (heap_end allocs) + 4 + suc i * 2 + 2) ≡ false =
        ground (arith, room) in
      let h3 : ltb (12 + before i allocs + length a) (12 + before i allocs) ≡ false =
        ground arith in
      let h4 : ltb (length hn) (12 + before i allocs + length a) ≡ false =
        unfold heap_end in ground (arith, le, at, size) in
      let h5 : 12 + before i allocs + length a - (12 + before i allocs) ≡ length a = omega arith in
      let h6 : suc i - 1 ≡ i = omega arith in
      let h7 : (suc i == 0) ≡ false = ground arith in
      simp (t, x', b, h6, h7, low, high, h1, h2, h3, h4, h5)

-- A heap of less than 2,047 allocations of bytes, whose sum the 16-bit cursor can count: the heap
-- id of an allocation, looked up through the header and the map that the heap itself holds, gives
-- a slice of exactly the bytes of that allocation.
pub build_heap_on_node-resolve_hid :
    (allocs : List (List ℕ)) (client root : ℕ) (fill : List ℕ) (i : ℕ) {a : List ℕ}
    → length allocs < 2047
    → mv_total allocs < 2 ^ 16 - 15
    → client < 256
    → root < 2 ^ 32
    → IsBytes fill
    → All IsBytes allocs
    → get_elem? allocs i ≡ some a
    → (s : HnSlice) × (resolve_hid
          (make_hid (suc i) 0 0)
          (build_heap_on_node allocs client root fill)
          (read_u16 (build_heap_on_node allocs client root fill) 0)
          (read_u16
            (build_heap_on_node allocs client root fill)
            (read_u16 (build_heap_on_node allocs client root fill) 0))
        ≡ ok s)
      × (slice (build_heap_on_node allocs client root fill) s.off s.size ≡ a)
build_heap_on_node-resolve_hid allocs client root fill i {a} few small c r f b g =
    let hn = build_heap_on_node allocs client root fill in
    let heap = build_heap_on_node-IsHeap allocs client root fill few small c f b r in
    (
      record { off = 12 + before i allocs; size = length a },
      simp (heap.map_at, heap.count) (resolve_hid-IsHeap allocs hn heap few i g),
      (heap.bounds i g).2,
    )
