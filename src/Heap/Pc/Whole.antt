-- ===== src/Heap/Pc/Whole.antt =====
-- src/ltp.cpp: `buildPropertyContext` and `readPropertyContext` one after the other.
use mathlib.Core.Path.{subst}
use pst_dev.Prelude.{
  ℕ, suc, ◌+◌, ◌-◌, ◌*◌, ◌^◌, ◌≤◌, ◌<◌, ◌≡◌, refl, ap, ◌∙◌, sym, arith, List, [], ◌∷◌, inl, inr,
  false, Bool-cases, ◌==◌, ◌&&◌, not, ltb, length, length-replicate, take, All,
}
use pst_dev.Prelude.Bits.{bit_and_ones}
use pst_dev.Prelude.Sort.{sort_by, All-sort_by, sort_by-Ascending}
use pst_dev.Prelude.Except.{Except, ok, throw_if, ◌>>=◌, ◌>>◌, >>=-eq-ok, throw_if-eq-ok}
use pst_dev.Bytes.{zeros, write_bytes}
use pst_dev.Bytes.Laws.{IsBytes, IsBytes-zeros}
use pst_dev.Bytes.Copy.{length-write_bytes}
use pst_dev.Crc.Detect.{AllBytes-IsBytes}
use pst_dev.Ident.{Nid, nid_type}
use pst_dev.Heap.{
  fixed_size, mv_total, BthRecord, build_bth_leaf_records, pack_records, sort_records, inline,
  hn_alloc, subnode,
}
use pst_dev.Heap.Shape.{IsHeap}
use pst_dev.Heap.Built.{build_heap_on_node-IsHeap}
use pst_dev.Heap.Pc.{
  PcProperty, PcResult, PcError, bad_first_nid, duplicate_tag, body_too_long, max_hn_body_bytes,
  has_duplicate, wrong_length, empty_subnode, tag_key, storage_of, check_props, value_hnids,
  heap_values, subnode_outs, pc_records, bth_leaf, pc_heap, build_property_context, with_heap_value,
}
use pst_dev.Heap.Pc.Read.{ReadPcProp, read_property_context}
use pst_dev.Heap.Pc.Leaf.{
  Narrow, RecordsAt, pack_records-RecordsAt, IsBytes-pack_records, RecordsAt-slice,
}
use pst_dev.Heap.Pc.Order.{sort_records-Ascending}
use pst_dev.Heap.Pc.Storage.{IsProperty}
use pst_dev.Heap.Pc.Roundtrip.{
  IsReadBack, IsSized, IsSubnodeId, value_hnids-words, read_props-IsReadBack,
}
use pst_dev.Heap.Pc.Context.{
  bth_header, encode_bth_header-bytes, hid_one, slice-leaf, read_property_context-IsHeap,
}

-- What the checks of the builder say.
pub check_props-IsSized :
    (ps : List PcProperty) {u : Unit {0}} → check_props ps ≡ ok u → All IsSized ps
unfolding check_props
check_props-IsSized [] h = tt
check_props-IsSized (p ∷ ps) h =
    let (a, h') =
      throw_if-eq-ok
        (not (fixed_size p.prop_type == 0) && not (length p.value_bytes == fixed_size p.prop_type))
        wrong_length
        (throw_if (p.forced && length p.value_bytes == 0) empty_subnode >> check_props ps) h in
    let (b, h'') =
      throw_if-eq-ok (p.forced && length p.value_bytes == 0) empty_subnode (check_props ps) h' in
    let size : IsSized p = elim (Bool-cases (fixed_size p.prop_type == 0)) [
      | inl z ↦ inl (ground (arith, z))
      | inr n ↦ inr (ground (arith, n, a))
    ] in
    (size, check_props-IsSized ps h'')

pub length-value_hnids :
    (ps : List PcProperty) (next : ℕ) (nid : Nid) → length (value_hnids next nid ps) ≡ length ps
unfolding value_hnids
length-value_hnids [] next nid = refl
length-value_hnids (p ∷ ps) next nid = ap suc (length-value_hnids ps _ _)

pub length-pc_records :
    (ps : List PcProperty) (hs : List ℕ)
    → length hs ≡ length ps
    → length (pc_records ps hs) ≡ length ps
unfolding pc_records
length-pc_records [] hs e = refl
length-pc_records (p ∷ ps) [] e = absurd (omega arith)
length-pc_records (p ∷ ps) (h ∷ hs) e = ap suc (length-pc_records ps hs (omega arith))

pub length-heap_values : (ps : List PcProperty) → length (heap_values ps) ≤ length ps
unfolding heap_values
length-heap_values [] = omega arith
length-heap_values (p ∷ ps) =
    elim (storage_of p) as (λ c. length (with_heap_value c p (heap_values ps)) ≤ suc (length ps)) [
      | inline ↦ omega (arith, length-heap_values ps)
      | hn_alloc ↦ omega (arith, length-heap_values ps)
      | subnode ↦ omega (arith, length-heap_values ps)
    ]

heap_values-IsBytes : (ps : List PcProperty) → All IsProperty ps → All IsBytes (heap_values ps)
unfolding heap_values
heap_values-IsBytes [] h = tt
heap_values-IsBytes (p ∷ ps) h =
    elim (storage_of p) as (λ c. All IsBytes (with_heap_value c p (heap_values ps))) [
      | inline ↦ heap_values-IsBytes ps h.1
      | hn_alloc ↦ (h.0.bytes, heap_values-IsBytes ps h.1)
      | subnode ↦ heap_values-IsBytes ps h.1
    ]

IsProperty-Narrow : (ps : List PcProperty) → All IsProperty ps → All Narrow ps
IsProperty-Narrow [] h = tt
IsProperty-Narrow (p ∷ ps) h = ((h.0.tag, h.0.type_number), IsProperty-Narrow ps h.1)

-- The leaf of records.
pub length-pack_records :
    (rs : List BthRecord) (i : ℕ) (out : List ℕ) → length (pack_records 2 6 i rs out) ≡ length out
unfolding pack_records
length-pack_records [] i out = refl
length-pack_records (r ∷ rs) i out =
    length-pack_records rs (i + 1) _
    ∙ length-write_bytes (take 6 r.data_bytes) (write_bytes out (i * 8) (take 2 r.key_bytes))
        (i * 8 + 2)
    ∙ length-write_bytes (take 2 r.key_bytes) out (i * 8)

pub bth_leaf-eq-ok :
    (records : List BthRecord) {leaf : List ℕ}
    → bth_leaf records ≡ ok leaf
    → (leaf ≡ pack_records 2 6 0 (sort_records 2 records) (zeros (length records * 8)))
      × (length records * 8 ≤ 3580)
unfolding bth_leaf build_bth_leaf_records
bth_leaf-eq-ok records {leaf} h = elim (Bool-cases (ltb 3580 (length records * 8))) [
  | inl l ↦ let h' = rw l at h in cc
  | inr n ↦ let h' = rw n at h in (cc, ground (arith, n))
]

bth_header-IsBytes : IsBytes bth_header
bth_header-IsBytes = AllBytes-IsBytes bth_header (
  omega arith,
  (
    omega arith,
    (omega arith, (omega arith, (omega arith, (omega arith, (omega arith, (omega arith, tt)))))),
  ),
)

module _ (props : List PcProperty) (first : Nid) (good : All IsProperty props)
    (word : first.value < 2 ^ 32)
    (small : mv_total (heap_values (sort_by tag_key props)) < 2 ^ 16 - 4096) where
  abbrev sorted : List PcProperty
  sorted = sort_by tag_key props

  abbrev hnids : List ℕ
  hnids = value_hnids 3 first sorted

  abbrev records : List BthRecord
  records = pc_records sorted hnids

  sorted_good : All IsProperty sorted
  sorted_good = All-sort_by IsProperty tag_key props good

  records_size : length records ≡ length sorted
  records_size = length-pc_records sorted hnids (length-value_hnids sorted 3 first)

  -- The heap with a leaf that was built.
  module _ (leaf : List ℕ) (built : bth_leaf records ≡ ok leaf) where
    leaf_packed : leaf ≡ pack_records 2 6 0 records (zeros (length sorted * 8))
    leaf_packed =
        let e = (bth_leaf-eq-ok records built).0 in
        rw
          (
            records_size,
            sort_records-Ascending sorted hnids (sort_by-Ascending tag_key props)
                (IsProperty-Narrow sorted sorted_good),
          )
          at e

    leaf_size : length leaf ≡ length sorted * 8
    leaf_size = rw leaf_packed (
        length-pack_records records 0 (zeros (length sorted * 8))
        ∙ length-replicate {A = ℕ} (length sorted * 8) 0)

    leaf_small : length sorted * 8 ≤ 3580
    leaf_small = rw records_size at (bth_leaf-eq-ok records built).1

    pc_heap-IsHeap : IsHeap (bth_header ∷ leaf ∷ heap_values sorted) 0xbc 0x20 (pc_heap leaf sorted)
    unfolding pc_heap
    pc_heap-IsHeap =
        let bs = subst IsBytes (sym leaf_packed) (
          IsBytes-pack_records sorted hnids 0 (zeros (length sorted * 8))
            (IsBytes-zeros (length sorted * 8))) in
        rw (encode_bth_header-bytes, hid_one)
          (build_heap_on_node-IsHeap (bth_header ∷ leaf ∷ heap_values sorted) 0xbc 0x20 (zeros 4)
            (omega (arith, length-heap_values sorted, leaf_small))
            (unfold mv_total in omega (arith, small, leaf_size, leaf_small)) (omega arith)
            (IsBytes-zeros 4) (bth_header-IsBytes, (bs, heap_values-IsBytes sorted sorted_good))
            (omega arith))

    records_stand :
        IsSubnodeId first → All IsSized sorted → RecordsAt (pc_heap leaf sorted) 20 sorted hnids
    records_stand i s =
        RecordsAt-slice sorted hnids (pc_heap leaf sorted) 20 (length leaf) 0 leaf
          (slice-leaf leaf (heap_values sorted) (pc_heap leaf sorted) pc_heap-IsHeap
            (omega (arith, length-heap_values sorted, leaf_small)))
          (omega (arith, leaf_size))
          (subst (λ b. RecordsAt b 0 sorted hnids) (sym leaf_packed)
            (pack_records-RecordsAt sorted hnids 0 (zeros (length sorted * 8))
              (omega (arith, length-replicate {A = ℕ} (length sorted * 8) 0))
              (IsProperty-Narrow sorted sorted_good)
              (value_hnids-words sorted 3 first sorted_good s i)))

-- The steps of a builder that succeeds.
pub build_property_context-eq-ok :
    (props : List PcProperty) (first : Nid) {out : PcResult}
    → build_property_context props first ≡ ok out
    → (nid_type first == 0 ≡ false)
      × (has_duplicate (sort_by tag_key props) ≡ false)
      × (check_props props ≡ ok tt)
      × ((leaf : List ℕ) × (bth_leaf
              (pc_records (sort_by tag_key props) (value_hnids 3 first (sort_by tag_key props)))
            ≡ ok leaf)
          × (record {
            hn_bytes = pc_heap leaf (sort_by tag_key props);
            subnodes = subnode_outs first (sort_by tag_key props);
          }
              ≡ out)
          × (length (pc_heap leaf (sort_by tag_key props)) ≤ 8176))
unfolding build_property_context
build_property_context-eq-ok props first {out} h =
    let sorted = sort_by tag_key props in
    let finish : List ℕ → Except PcError PcResult = λ leaf.
      throw_if (ltb max_hn_body_bytes (length (pc_heap leaf sorted))) body_too_long
      >> ok (record { hn_bytes = pc_heap leaf sorted; subnodes = subnode_outs first sorted }) in
    let from_records = bth_leaf (pc_records sorted (value_hnids 3 first sorted)) >>= finish in
    let (type_ok, h1) =
      throw_if-eq-ok (nid_type first == 0) bad_first_nid
        (throw_if (has_duplicate sorted) duplicate_tag >> (check_props props >> from_records)) h in
    let (unique, h2) =
      throw_if-eq-ok (has_duplicate sorted) duplicate_tag (check_props props >> from_records) h1 in
    let (u, checked, h3) = >>=-eq-ok (check_props props) (λ _. from_records) h2 in
    let (leaf, packed, h4) =
      >>=-eq-ok (bth_leaf (pc_records sorted (value_hnids 3 first sorted))) finish h3 in
    let (fits, h5) =
      throw_if-eq-ok (ltb max_hn_body_bytes (length (pc_heap leaf sorted))) body_too_long
        (ok (record { hn_bytes = pc_heap leaf sorted; subnodes = subnode_outs first sorted })) h4 in
    (type_ok, unique, checked, (leaf, packed, cc, ground (arith, fits)))

-- Where the builder succeeds, on 16-bit tags and types, bytes, no value of four bytes or less that
-- is forced into a subnode, a 32-bit first node id and heap values that its 16-bit cursor can
-- count, the reader takes the heap and gives one property for each of the sorted input, with its
-- tag and its type: a short value as its number, a heap value as the place where its bytes stand,
-- and any other as the id of a subnode of the result that holds its bytes.
pub build_property_context-read_property_context :
    (props : List PcProperty) (first : Nid) {out : PcResult}
    → All IsProperty props
    → first.value < 2 ^ 32
    → mv_total (heap_values (sort_by tag_key props)) < 2 ^ 16 - 4096
    → build_property_context props first ≡ ok out
    → (rs : List ReadPcProp) × (read_property_context out.hn_bytes ≡ ok rs)
      × IsReadBack out (sort_by tag_key props) rs
build_property_context-read_property_context props first {out} good word small h =
    let (type_ok, unique, checked, (leaf, packed, e, fits)) =
      build_property_context-eq-ok props first h in
    let sorted = sort_by tag_key props in
    let ss = All-sort_by IsSized tag_key props (check_props-IsSized props checked) in
    let gs = All-sort_by IsProperty tag_key props good in
    let id : IsSubnodeId first =
      (unfold nid_type in ground (arith, type_ok, bit_and_ones 5 first.value), word) in
    let heap = pc_heap-IsHeap props first good word small leaf packed in
    let stand = records_stand props first good word small leaf packed id ss in
    let out' : PcResult = record {
      hn_bytes = pc_heap leaf sorted;
      subnodes = subnode_outs first sorted;
    } in
    let few = leaf_small props first good word small leaf packed in
    let values = length-heap_values sorted in
    let (rs, run, back) =
      read_props-IsReadBack (bth_header ∷ leaf ∷ heap_values sorted) 0xbc 0x20 out' heap
        (omega arith) sorted 3 2 0 first 20 gs ss id refl refl refl stand in
    let read =
      read_property_context-IsHeap leaf (heap_values sorted) (pc_heap leaf sorted) heap
        (omega arith) (length sorted) (leaf_size props first good word small leaf packed) in
    subst
      (λ o.
        (rs : List ReadPcProp) × (read_property_context o.hn_bytes ≡ ok rs)
        × IsReadBack o sorted rs)
      e (rs, read ∙ run, back)
