-- ===== src/Heap/Pc/Refusals.antt =====
-- src/ltp.cpp: what `buildPropertyContext` refuses.
use mathlib.Core.Path.{subst}
use pst_dev.Prelude.{
  ℕ, ◌+◌, ◌-◌, ◌*◌, ◌/◌, ◌%◌, ◌^◌, ◌≤◌, ◌<◌, ◌≡◌, refl, ap, ◌∙◌, arith, List, [], ◌∷◌, true, false,
  ◌==◌, ◌&&◌, not, if◌then◌else◌, length, length-replicate, All,
}
use pst_dev.Prelude.Sort.{sort_by, Ascending, sort_by-Ascending, length-sort_by}
use pst_dev.Prelude.Except.{ok, throw_if, ◌>>◌, throw_if-eq-ok}
use pst_dev.Bytes.{zeros}
use pst_dev.Bytes.Laws.{IsBytes-zeros}
use pst_dev.Ident.{Nid, nid_type}
use pst_dev.Heap.{fixed_size, mv_total, sort_records}
use pst_dev.Heap.Shape.{map_off, map_tail, map_count, heap_end}
use pst_dev.Heap.Built.{length-build_heap_on_node}
use pst_dev.Heap.Pc.{
  PcProperty, PcResult, has_duplicate, wrong_length, empty_subnode, tag_key, check_props,
  build_property_context, heap_values, pc_heap, pc_records, value_hnids, bth_leaf,
}
use pst_dev.Heap.Pc.Context.{bth_header, encode_bth_header-bytes, hid_one}
use pst_dev.Heap.Pc.Roundtrip.{IsSized}
use pst_dev.Heap.Pc.Whole.{
  build_property_context-eq-ok, check_props-IsSized, bth_leaf-eq-ok, length-pack_records,
  length-pc_records, length-value_hnids, length-heap_values,
}

-- Each tag is greater than the one in front of it.
unfoldable pub Rising : List PcProperty → Type 0
Rising [] = Unit {0}
Rising (p ∷ []) = Unit {0}
Rising (p ∷ q ∷ ps) = (p.pid_tag_id < q.pid_tag_id) × Rising (q ∷ ps)

-- A value forced into a subnode is one.
abbrev pub HasForcedValue : PcProperty → Type 0
HasForcedValue p = p.forced ≡ true → 0 < length p.value_bytes

has_duplicate-Rising :
    (ps : List PcProperty) → Ascending tag_key ps → has_duplicate ps ≡ false → Rising ps
unfolding has_duplicate Rising Ascending
has_duplicate-Rising [] o h = tt
has_duplicate-Rising (p ∷ []) o h = tt
has_duplicate-Rising (p ∷ q ∷ ps) o h =
    (ground (arith, o.0, h), has_duplicate-Rising (q ∷ ps) o.1 (ground (arith, h)))

check_props-HasForcedValue : (ps : List PcProperty) → check_props ps ≡ ok tt → All HasForcedValue ps
unfolding check_props
check_props-HasForcedValue [] h = tt
check_props-HasForcedValue (p ∷ ps) h =
    let (a, h') =
      throw_if-eq-ok
        (not (fixed_size p.prop_type == 0) && not (length p.value_bytes == fixed_size p.prop_type))
        wrong_length
        (throw_if (p.forced && length p.value_bytes == 0) empty_subnode >> check_props ps) h in
    let (b, h'') =
      throw_if-eq-ok (p.forced && length p.value_bytes == 0) empty_subnode (check_props ps) h' in
    ((λ f. ground (arith, f, b)), check_props-HasForcedValue ps h'')

-- The bytes that a heap of these properties needs: 12 of the header, 8 of the tree, 8 for each
-- record, and the values, filled up to a multiple of 4; then a map of 4 bytes, 2 for each
-- allocation (the filling counts as one), and 2 for the end.
unfoldable pub heap_bytes : List PcProperty → ℕ
heap_bytes props =
    let values = heap_values (sort_by tag_key props) in
    let content = 12 + 8 + length props * 8 + mv_total values in
    let entries = 2 + length values + (if content % 4 == 0 then 0 else 1) in
    (content + 3) / 4 * 4 + 4 + entries * 2 + 2

-- The input that the builder is for.
pub record IsAccepted (props : List PcProperty) (first : Nid) : Type 0 where
  pub has_type : 0 < nid_type first
  pub tags : Rising (sort_by tag_key props)
  pub sizes : All IsSized props
  pub forced_values : All HasForcedValue props
  pub leaf_fits : length props * 8 ≤ 3580
  pub heap_fits : heap_bytes props ≤ 8176

length-map_tail_mod : (at : ℕ) → length (map_tail at) ≡ (if at % 4 == 0 then 0 else 1)
unfolding map_tail map_off
length-map_tail_mod at = ground arith

pub length-pc_heap :
    (props : List PcProperty) (leaf : List ℕ)
    → length leaf ≡ length props * 8
    → length props * 8 ≤ 3580
    → mv_total (heap_values (sort_by tag_key props)) < 2 ^ 16 - 4096
    → length (pc_heap leaf (sort_by tag_key props)) ≡ heap_bytes props
unfolding pc_heap heap_bytes
length-pc_heap props leaf leaf_size few small =
    let values = heap_values (sort_by tag_key props) in
    let content = 12 + 8 + length props * 8 + mv_total values in
    let n = length-heap_values (sort_by tag_key props) in
    let m = length-sort_by tag_key props in
    let end_at : heap_end (bth_header ∷ leaf ∷ values) ≡ content =
      unfold heap_end mv_total in omega (arith, leaf_size) in
    let off : map_off (heap_end (bth_header ∷ leaf ∷ values)) ≡ (content + 3) / 4 * 4 =
      ap map_off end_at ∙ (unfold map_off in refl) in
    let tail : length (map_tail (heap_end (bth_header ∷ leaf ∷ values)))
        ≡ (if content % 4 == 0 then 0 else 1) =
      ap (λ t. length (map_tail t)) end_at ∙ length-map_tail_mod content in
    let count : map_count (bth_header ∷ leaf ∷ values)
        ≡ 2 + length values + (if content % 4 == 0 then 0 else 1) =
      unfold map_count in omega (arith, tail) in
    rw (encode_bth_header-bytes, hid_one)
      (length-build_heap_on_node (bth_header ∷ leaf ∷ values) 0xbc 0x20 (zeros 4) (omega arith)
          (unfold mv_total in omega arith) (omega arith) (IsBytes-zeros 4)
        ∙ omega (arith, off, count))

-- The leaf of a builder that goes on has 8 bytes for each property.
pub length-bth_leaf :
    (props : List PcProperty) (first : Nid) {leaf : List ℕ}
    → bth_leaf (pc_records (sort_by tag_key props) (value_hnids 3 first (sort_by tag_key props)))
      ≡ ok leaf
    → (length leaf ≡ length props * 8) × (length props * 8 ≤ 3580)
length-bth_leaf props first {leaf} h =
    let sorted = sort_by tag_key props in
    let records = pc_records sorted (value_hnids 3 first sorted) in
    let (packed, few) = bth_leaf-eq-ok records h in
    let n : length records ≡ length props =
      length-pc_records sorted (value_hnids 3 first sorted) (length-value_hnids sorted 3 first)
      ∙ length-sort_by tag_key props in
    (
      ap length packed
          ∙ length-pack_records (sort_records 2 records) 0 (zeros (length records * 8))
          ∙ length-replicate {A = ℕ} (length records * 8) 0
          ∙ omega (arith, n),
      omega (arith, n, few),
    )

-- Of heap values that its 16-bit cursor can count, the builder takes no input with a first node id
-- of type HID, two properties of one tag, a fixed-size value of another length than its type's, an
-- empty value forced into a subnode, more than 3,580 bytes of records, or a need of more than
-- 8,176 bytes; the heap that it gives has the bytes that the properties need.
pub build_property_context-accepts :
    (props : List PcProperty) (first : Nid) {out : PcResult}
    → mv_total (heap_values (sort_by tag_key props)) < 2 ^ 16 - 4096
    → build_property_context props first ≡ ok out
    → IsAccepted props first × (length out.hn_bytes ≡ heap_bytes props)
build_property_context-accepts props first {out} small h =
    let (type_ok, unique, checked, (leaf, packed, e, fits)) =
      build_property_context-eq-ok props first h in
    let sorted = sort_by tag_key props in
    let (leaf_size, few) = length-bth_leaf props first packed in
    let size = length-pc_heap props leaf leaf_size few small in
    (
      record {
        has_type = ground (arith, type_ok);
        tags = has_duplicate-Rising sorted (sort_by-Ascending tag_key props) unique;
        sizes = check_props-IsSized props checked;
        forced_values = check_props-HasForcedValue props checked;
        leaf_fits = few;
        heap_fits = omega (arith, size, fits);
      },
      subst (λ (o : PcResult). length o.hn_bytes ≡ heap_bytes props) e size,
    )
