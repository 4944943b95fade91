-- ===== src/Heap/Pc/Acceptance.antt =====
-- src/ltp.cpp: what `buildPropertyContext` takes.
use pst_dev.Prelude.{
  ℕ, ◌-◌, ◌*◌, ◌^◌, ◌≤◌, ◌<◌, ◌≡◌, refl, ◌∙◌, arith, List, [], ◌∷◌, inl, inr, false, Bool-cases,
  ◌==◌, ◌&&◌, not, ltb, length, All,
}
use pst_dev.Prelude.Sort.{sort_by, length-sort_by}
use pst_dev.Prelude.Except.{ok}
use pst_dev.Bytes.{zeros}
use pst_dev.Ident.{Nid, nid_type}
use pst_dev.Heap.{fixed_size, mv_total, pack_records, sort_records, build_bth_leaf_records}
use pst_dev.Heap.Pc.{
  PcProperty, PcResult, has_duplicate, tag_key, check_props, build_property_context, heap_values,
  pc_heap, pc_records, value_hnids, bth_leaf, subnode_outs,
}
use pst_dev.Heap.Pc.Roundtrip.{IsSized}
use pst_dev.Heap.Pc.Whole.{length-pc_records, length-value_hnids}
use pst_dev.Heap.Pc.Refusals.{
  Rising, HasForcedValue, IsAccepted, heap_bytes, length-pc_heap, length-bth_leaf,
}

Rising-has_duplicate : (ps : List PcProperty) → Rising ps → has_duplicate ps ≡ false
unfolding has_duplicate Rising
Rising-has_duplicate [] h = refl
Rising-has_duplicate (p ∷ []) h = refl
Rising-has_duplicate (p ∷ q ∷ ps) (lt, h) = ground (arith, Rising-has_duplicate (q ∷ ps) h)

IsSized-check_props :
    (ps : List PcProperty) → All IsSized ps → All HasForcedValue ps → check_props ps ≡ ok tt
unfolding check_props
IsSized-check_props [] h k = refl
IsSized-check_props (p ∷ ps) (size, h) (value, k) =
    let sized : (not (fixed_size p.prop_type == 0)
          && not (length p.value_bytes == fixed_size p.prop_type))
        ≡ false =
      elim size [ inl z ↦ ground (arith, z) | inr e ↦ ground (arith, e) ] in
    let forced : (p.forced && length p.value_bytes == 0) ≡ false = elim (Bool-cases p.forced) [
      | inl t ↦ ground (arith, t, value t)
      | inr f ↦ rw f refl
    ] in
    rw (sized, forced) (IsSized-check_props ps h k)

bth_leaf_built :
    (props : List PcProperty) (first : Nid)
    → length props * 8 ≤ 3580
    → (leaf : List ℕ) × (bth_leaf
          (pc_records (sort_by tag_key props) (value_hnids 3 first (sort_by tag_key props)))
        ≡ ok leaf)
unfolding bth_leaf build_bth_leaf_records
bth_leaf_built props first few =
    let sorted = sort_by tag_key props in
    let records = pc_records sorted (value_hnids 3 first sorted) in
    let n : length records ≡ length props =
      length-pc_records sorted (value_hnids 3 first sorted) (length-value_hnids sorted 3 first)
      ∙ length-sort_by tag_key props in
    let fits : ltb 3580 (length records * 8) ≡ false = ground (arith, n, few) in
    (pack_records 2 6 0 (sort_records 2 records) (zeros (length records * 8)), rw fits refl)

-- Every other input is taken: with a first node id of another type, tags that differ, sizes that
-- the types ask for, no empty value forced into a subnode, and a need of at most 3,580 bytes of
-- records and 8,176 bytes in all, the builder returns a heap of the bytes that are needed.
pub IsAccepted-build_property_context :
    (props : List PcProperty) (first : Nid)
    → IsAccepted props first
    → (out : PcResult) × (build_property_context props first ≡ ok out)
      × (length out.hn_bytes ≡ heap_bytes props)
unfolding build_property_context
IsAccepted-build_property_context props first accepted =
    let sorted = sort_by tag_key props in
    let (leaf, packed) = bth_leaf_built props first accepted.leaf_fits in
    let (leaf_size, few) = length-bth_leaf props first packed in
    let small : mv_total (heap_values sorted) < 2 ^ 16 - 4096 =
      let f = accepted.heap_fits in unfold heap_bytes in omega (arith, f) in
    let size = length-pc_heap props leaf leaf_size few small in
    let typed : nid_type first == 0 ≡ false = ground (arith, accepted.has_type) in
    let unique = Rising-has_duplicate sorted accepted.tags in
    let checked = IsSized-check_props props accepted.sizes accepted.forced_values in
    let fits : ltb 8176 (length (pc_heap leaf sorted)) ≡ false =
      ground (arith, size, accepted.heap_fits) in
    (
      record { hn_bytes = pc_heap leaf sorted; subnodes = subnode_outs first sorted },
      rw (typed, unique, checked, packed, fits) refl,
      size,
    )
