-- ===== src/Heap/Built.antt =====
-- src/ltp.cpp: what stands in the heap that `buildHeapOnNode` returns.
use pst_dev.Prelude.{
  ℕ, suc, ◌+◌, ◌-◌, ◌*◌, ◌%◌, ◌^◌, ◌≤◌, ◌<◌, ◌≡◌, refl, ◌∙◌, arith, List, [], ◌∷◌, ◌++◌, inl,
  length, length-append, length-replicate, get_elem?, some, All,
}
use native.Mathlib.Nat.{mod-eq_of_lt}
use pst_dev.Bytes.{slice, zeros}
use pst_dev.Bytes.Laws.{
  IsBytes, IsBytes-zeros, read_le, write_u16-write_le, read_u16-read_le, read_u32-read_le,
}
use pst_dev.Bytes.Fields.{
  Field, write_fields, fits, clear, field_at, length-write_fields, IsBytes-write_fields,
  read_le-write_fields, read_le-write_fields-clear,
}
use pst_dev.Bytes.Words.{byte_at-read_le}
use pst_dev.Heap.{
  alloc_offsets, copy_allocs, count_free, mv_total, write_offsets, build_heap_on_node,
}
use pst_dev.Heap.Layout.{
  before, cursor_after-mv_total, before-le, alloc_offsets-at, alloc_offsets-end,
  length-alloc_offsets, length-copy_allocs, IsBytes-copy_allocs, slice-copy_allocs_other,
  slice-copy_allocs, length-write_offsets, IsBytes-write_offsets, slice-write_offsets,
  read_le-write_offsets, read_u16-write_offsets,
}
use pst_dev.Bytes.Copy.{slice-write_fields-clear, read_le_ext}
use pst_dev.Heap.Shape.{
  heap_end, map_off, map_tail, map_count, map_off-bounds, map_off-mask, length-map_tail, hn_fields,
  hn_header_fields, map_entries, map_length, built, IsHeap,
}

module _ (allocs : List (List ℕ)) (client root : ℕ) (fill : List ℕ) (few : length allocs < 2047)
    (small : mv_total allocs < 2 ^ 16 - 15) (c : client < 256) (f : IsBytes fill) where
  pub build_heap_on_node-built :
      build_heap_on_node allocs client root fill ≡ built allocs client root fill
  unfolding build_heap_on_node built heap_end map_count write_fields
  build_heap_on_node-built =
      let ib = map_off (12 + mv_total allocs) in
      rw
        (
          cursor_after-mv_total allocs 12 (omega arith),
          map_off-mask (12 + mv_total allocs) (omega arith),
          map_length (length allocs) (12 + mv_total allocs) few,
          map_entries (12 + mv_total allocs),
          hn_header_fields ib client root fill (zeros (ib + (4 + (map_count allocs + 1) * 2))) c f,
          write_u16-write_le,
          write_u16-write_le,
          start,
        )
        refl
    where
      start : map_off (12 + mv_total allocs) + 0 ≡ map_off (12 + mv_total allocs)
      start = omega arith

  abbrev ib : ℕ
  ib = map_off (heap_end allocs)

  offsets : List ℕ
  offsets = alloc_offsets 12 allocs ++ (heap_end allocs ∷ map_tail (heap_end allocs))

  blank : List ℕ
  blank = zeros (ib + (4 + (map_count allocs + 1) * 2))

  headed : List ℕ
  headed = write_fields (hn_fields ib client root fill) blank

  copied : List ℕ
  copied = copy_allocs 12 allocs headed

  counts : List Field
  counts = (ib, 2, map_count allocs) ∷ (ib + 2, 2, count_free allocs) ∷ []

  counted : List ℕ
  counted = write_fields counts copied

  built_shape : built allocs client root fill ≡ write_offsets (ib + 4) offsets counted
  unfolding built offsets counted counts copied headed blank
  built_shape = refl

  length-blank : length blank ≡ ib + (4 + (map_count allocs + 1) * 2)
  unfolding blank
  length-blank = length-replicate {A = ℕ} (ib + (4 + (map_count allocs + 1) * 2)) 0

  length-headed : length headed ≡ ib + (4 + (map_count allocs + 1) * 2)
  unfolding headed
  length-headed = length-write_fields (hn_fields ib client root fill) blank ∙ length-blank

  length-copied : length copied ≡ ib + (4 + (map_count allocs + 1) * 2)
  unfolding copied
  length-copied = length-copy_allocs allocs 12 headed ∙ length-headed

  length-counted : length counted ≡ ib + (4 + (map_count allocs + 1) * 2)
  unfolding counted
  length-counted = length-write_fields counts copied ∙ length-copied

  length-offsets : length offsets ≡ map_count allocs + 1
  unfolding offsets map_count
  length-offsets =
      length-append (alloc_offsets 12 allocs) (heap_end allocs ∷ map_tail (heap_end allocs))
      ∙ omega (arith, length-alloc_offsets allocs 12)

  map_fits : ib + 4 + 2 * length offsets ≤ length counted
  map_fits = omega (arith, length-offsets, length-counted)

  heap_before_map : (heap_end allocs ≤ ib) × (12 ≤ heap_end allocs) × (ib < 2 ^ 16)
  heap_before_map =
      let b = map_off-bounds (heap_end allocs) in
      (b.0, unfold heap_end in omega arith, unfold heap_end in omega (arith, b))

  copied-IsBytes : All IsBytes allocs → IsBytes copied
  unfolding copied headed blank
  copied-IsBytes h =
      IsBytes-copy_allocs allocs 12 headed h
        (IsBytes-write_fields (hn_fields ib client root fill) blank (IsBytes-zeros _))

  -- A read in the header, and one of the counts.
  header_read :
      (at m : ℕ) {v : ℕ}
      → at + m ≤ 12
      → field_at at m (hn_fields ib client root fill) ≡ some v
      → v < 256 ^ m
      → read_le m (write_offsets (ib + 4) offsets counted) at ≡ v
  header_read at m {v} l e h =
      let (b, n, lt) = heap_before_map in
      let below : read_le m counted at ≡ read_le m copied at =
        unfold counted in
        read_le-write_fields-clear counts copied at m (ib + (4 + (map_count allocs + 1) * 2))
          length-copied (unfold fits counts in ground arith)
          (unfold clear counts in ground arith) in
      let kept : read_le m copied at ≡ read_le m headed at =
        unfold copied in
        read_le_ext m (copy_allocs 12 allocs headed) headed at (
          slice-copy_allocs_other allocs 12 headed at m (omega arith)
            (unfold heap_end in omega (arith, length-headed, b)) (omega (arith, length-headed))
            (inl l)) in
      let field : read_le m headed at ≡ v % 256 ^ m =
        unfold headed in
        read_le-write_fields (hn_fields ib client root fill) blank at m
          (ib + (4 + (map_count allocs + 1) * 2)) length-blank
          (unfold fits hn_fields in ground arith) e in
      read_le-write_offsets offsets (ib + 4) counted at m map_fits (omega arith)
      ∙ below
      ∙ kept
      ∙ field
      ∙ mod-eq_of_lt h

  count_read : read_le 2 (write_offsets (ib + 4) offsets counted) ib ≡ map_count allocs
  count_read =
      let few_entries : length (map_tail (heap_end allocs)) ≤ 1 =
        length-map_tail (heap_end allocs) in
      let field : read_le 2 counted ib ≡ map_count allocs % 256 ^ 2 =
        unfold counted in
        read_le-write_fields counts copied ib 2 (ib + (4 + (map_count allocs + 1) * 2))
          length-copied (unfold fits counts in ground arith)
          (unfold field_at counts clear in ground arith) in
      read_le-write_offsets offsets (ib + 4) counted ib 2 map_fits (omega arith)
      ∙ field
      ∙ (unfold map_count in omega arith)

  offset_read :
      (i : ℕ) {o : ℕ}
      → All IsBytes allocs
      → get_elem? offsets i ≡ some o
      → o < 2 ^ 16
      → read_le 2 (write_offsets (ib + 4) offsets counted) (ib + 4 + i * 2) ≡ o
  offset_read i h g l =
      read_u16-write_offsets offsets (ib + 4) counted i
        (unfold counted in IsBytes-write_fields counts copied (copied-IsBytes h)) map_fits g l

  content_at :
      (i : ℕ) {a : List ℕ}
      → get_elem? allocs i ≡ some a
      → slice (write_offsets (ib + 4) offsets counted) (12 + before i allocs) (length a) ≡ a
  content_at i {a} g =
      let (b, n, lt) = heap_before_map in
      let le = before-le i allocs {a = a} g in
      let le' : 12 + before i allocs + length a ≤ ib = unfold heap_end in omega (arith, le, b) in
      let below : slice counted (12 + before i allocs) (length a)
          ≡ slice copied (12 + before i allocs) (length a) =
        unfold counted in
        slice-write_fields-clear counts copied (12 + before i allocs) (length a)
          (ib + (4 + (map_count allocs + 1) * 2)) length-copied (omega arith)
          (unfold fits counts in ground arith) (unfold clear counts in ground arith) in
      let own : slice copied (12 + before i allocs) (length a) ≡ a =
        unfold copied in
        slice-copy_allocs allocs 12 headed i {a = a} (omega arith)
          (unfold heap_end in omega (arith, length-headed, b)) g in
      slice-write_offsets offsets (ib + 4) counted (12 + before i allocs) (length a) map_fits
        (omega arith)
      ∙ below
      ∙ own

  laid-IsBytes : All IsBytes allocs → IsBytes (write_offsets (ib + 4) offsets counted)
  laid-IsBytes h =
      IsBytes-write_offsets offsets (ib + 4) counted
        (unfold counted in IsBytes-write_fields counts copied (copied-IsBytes h))

  bounds_at :
      (i : ℕ) {a : List ℕ}
      → All IsBytes allocs
      → get_elem? allocs i ≡ some a
      → (read_le 2 (write_offsets (ib + 4) offsets counted) (ib + 4 + i * 2) ≡ 12 + before i allocs)
        × (read_le 2 (write_offsets (ib + 4) offsets counted) (ib + 4 + suc i * 2)
            ≡ 12 + before i allocs + length a)
  bounds_at i {a} h g =
      let le = before-le i allocs {a = a} g in
      (
        offset_read i h
            (unfold offsets in
              alloc_offsets-at allocs 12 (heap_end allocs ∷ map_tail (heap_end allocs)) i {a = a}
                (omega arith) g)
            (omega arith),
        offset_read (suc i) h
            (unfold offsets in
              alloc_offsets-end allocs 12 (heap_end allocs) (map_tail (heap_end allocs)) i {a = a}
                (omega arith) end_is g)
            (omega arith),
      )
    where
      end_is : heap_end allocs ≡ 12 + mv_total allocs
      end_is = unfold heap_end in refl

  pub length-build_heap_on_node :
      length (build_heap_on_node allocs client root fill)
      ≡ map_off (heap_end allocs) + (4 + (map_count allocs + 1) * 2)
  length-build_heap_on_node =
      rw (build_heap_on_node-built, built_shape)
        (length-write_offsets offsets (ib + 4) counted ∙ length-counted)

  -- The heap that `buildHeapOnNode` lays out for less than 2,047 allocations of bytes that its
  -- 16-bit cursor can count: the header, the count, and for each allocation its two bounds and
  -- its bytes.
  pub build_heap_on_node-IsHeap :
      All IsBytes allocs
      → root < 2 ^ 32
      → IsHeap allocs client root (build_heap_on_node allocs client root fill)
  unfolding field_at hn_fields clear
  build_heap_on_node-IsHeap h l =
      let hn = write_offsets (ib + 4) offsets counted in
      let all_bytes = laid-IsBytes h in
      let (b, n, lt) = heap_before_map in
      rw (build_heap_on_node-built, built_shape)
        (record {
          size = length-write_offsets offsets (ib + 4) counted ∙ length-counted;
          bytes = all_bytes;
          map_at =
              read_u16-read_le hn 0 all_bytes ∙ header_read 0 2 (omega arith) refl (omega arith);
          sig = byte_at-read_le hn 2 ∙ header_read 2 1 (omega arith) refl (omega arith);
          client_sig = byte_at-read_le hn 3 ∙ header_read 3 1 (omega arith) refl (omega arith);
          root_hid = read_u32-read_le hn 4 all_bytes ∙ header_read 4 4 (omega arith) refl l;
          count = read_u16-read_le hn ib all_bytes ∙ count_read;
          bounds = λ i {a} g. (
            read_u16-read_le hn (ib + 4 + i * 2) all_bytes ∙ (bounds_at i {a = a} h g).0,
            read_u16-read_le hn (ib + 4 + suc i * 2) all_bytes ∙ (bounds_at i {a = a} h g).1,
            content_at i {a = a} g,
          );
        })
