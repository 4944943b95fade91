-- ===== src/Heap/Pc/Context.antt =====
-- src/ltp.cpp: a property context that `buildPropertyContext` returns, from its header to its leaf.
use pst_dev.Prelude.{
  ℕ, ◌+◌, ◌*◌, ◌%◌, ◌/◌, ◌≤◌, ◌<◌, ◌≡◌, refl, ap, ◌∙◌, sym, arith, List, [], ◌∷◌, false, ltb,
  length,
}
use pst_dev.Prelude.Except.{ok}
use pst_dev.Bytes.{byte_at, slice, write_u8, write_u32, read_u32}
use pst_dev.Bytes.Laws.{read_le, read_u32-read_le}
use pst_dev.Bytes.Copy.{byte_at-slice, read_le-slice}
use pst_dev.Heap.{make_hid, encode_bth_header}
use pst_dev.Heap.Layout.{before}
use pst_dev.Heap.Shape.{heap_end, map_off, map_off-bounds, map_count, IsHeap}
use pst_dev.Heap.Pc.{}
use pst_dev.Heap.Pc.Read.{
  read_props, resolve_hid, read_leaf, read_bth_header, read_property_context,
}
use pst_dev.Heap.Pc.Resolve.{resolve_hid-IsHeap}

-- BTHHEADER of a context.
abbrev pub bth_header : List ℕ
bth_header = 0xb5 ∷ 2 ∷ 6 ∷ 0 ∷ 0x40 ∷ 0 ∷ 0 ∷ 0 ∷ []

pub encode_bth_header-bytes : encode_bth_header 2 6 0 (make_hid 2 0 0) ≡ bth_header
unfolding encode_bth_header make_hid write_u32 write_u8
encode_bth_header-bytes = refl

pub hid_one : make_hid 1 0 0 ≡ 0x20
unfolding make_hid
hid_one = refl

hid_two : make_hid 2 0 0 ≡ 0x40
unfolding make_hid
hid_two = refl

-- The reader on a heap with such a header and a leaf.
module _ (leaf : List ℕ) (values : List (List ℕ)) (hn : List ℕ)
    (heap : IsHeap (bth_header ∷ leaf ∷ values) 0xbc 0x20 hn) (few : length values < 2000) where
  abbrev allocs : List (List ℕ)
  allocs = bth_header ∷ leaf ∷ values

  abbrev ib : ℕ
  ib = map_off (heap_end allocs)

  header_resolves : resolve_hid 0x20 hn ib (map_count allocs) ≡ ok (record { off = 12; size = 8 })
  unfolding before
  header_resolves =
      rw hid_one at (resolve_hid-IsHeap allocs hn heap (omega arith) 0 {a = bth_header} refl)

  leaf_resolves :
      resolve_hid 0x40 hn ib (map_count allocs) ≡ ok (record { off = 20; size = length leaf })
  unfolding before
  leaf_resolves = rw hid_two at (resolve_hid-IsHeap allocs hn heap (omega arith) 1 {a = leaf} refl)

  header_slice : slice hn 12 8 ≡ bth_header
  unfolding before
  header_slice = (heap.bounds 0 {a = bth_header} refl).2

  pub slice-leaf : slice hn 20 (length leaf) ≡ leaf
  unfolding before
  slice-leaf = (heap.bounds 1 {a = leaf} refl).2

  header_byte : (j : ℕ) → j < 8 → byte_at hn (12 + j) ≡ byte_at bth_header j
  header_byte j h = sym (byte_at-slice hn 12 8 j h) ∙ ap (λ b. byte_at b j) header_slice

  header_reads : read_bth_header 12 hn ≡ ok 0x40
  unfolding read_bth_header
  header_reads =
      let root : read_u32 hn 16 ≡ 0x40 =
        read_u32-read_le hn 16 heap.bytes
        ∙ sym (read_le-slice 4 hn 12 8 4 (omega arith))
        ∙ ap (λ b. read_le 4 b 4) header_slice
        ∙ unfold read_le in refl in
      rw
        (
          header_byte 0 (omega arith),
          header_byte 1 (omega arith),
          header_byte 2 (omega arith),
          header_byte 3 (omega arith),
          root,
        )
        refl

  pub read_property_context-IsHeap :
      (n : ℕ)
      → length leaf ≡ n * 8
      → read_property_context hn ≡ read_props n 20 hn ib (map_count allocs)
  unfolding read_property_context read_leaf
  read_property_context-IsHeap n e =
      let at = map_off-bounds (heap_end allocs) in
      let low : 12 ≤ ib = unfold heap_end in omega (arith, at) in
      let size = heap.size in
      let h0 : ltb (length hn) 12 ≡ false = ground (arith, low, size) in
      let h1 : ltb (length hn) (ib + 4) ≡ false = ground (arith, size) in
      let h2 : ltb (length hn) (ib + 4 + (map_count allocs + 1) * 2) ≡ false =
        ground (arith, size) in
      let h3 : length leaf % 8 ≡ 0 = omega (arith, e) in
      let h4 : length leaf / 8 ≡ n = omega (arith, e) in
      let z : ib + 0 ≡ ib = omega arith in
      simp (
        heap.map_at, z, heap.count, heap.sig, heap.client_sig, heap.root_hid, h0, h1, h2,
        header_resolves, header_reads, leaf_resolves, h3, h4,
      )
