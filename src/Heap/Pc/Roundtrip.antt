-- ===== src/Heap/Pc/Roundtrip.antt =====
-- src/ltp.cpp: `readPropertyContext` on what `buildPropertyContext` returns.
use pst_dev.Prelude.{
  ℕ, suc, ◌+◌, ◌%◌, ◌^◌, ◌<◌, ◌≡◌, refl, ◌∙◌, arith, List, [], ◌∷◌, ◌⊎◌, inl, inr, true, false,
  ◌==◌, length, drop, bit_and, some, get_elem?, All, get_elem?-drop, get_elem?-lt, drop_next,
}
use pst_dev.Prelude.Bits.{bit_and_ones}
use pst_dev.Prelude.Except.{ok}
use pst_dev.Bytes.{slice, read_u16, read_u32, u16}
use pst_dev.Bytes.Laws.{read_le, read_u16-read_le, read_u32-read_le}
use pst_dev.Ident.{Nid}
use pst_dev.Heap.{fixed_size, make_hid, hid_type, inline, hn_alloc, subnode, pack_inline_value}
use pst_dev.Heap.Laws.{make_hid_fields}
use pst_dev.Heap.Layout.{before}
use pst_dev.Heap.Shape.{heap_end, map_off, map_count, IsHeap}
use pst_dev.Heap.Pc.{
  PcProperty, PcResult, next_subnode, storage_of, value_hnids, heap_values, subnode_outs,
}
use pst_dev.Heap.Pc.Read.{
  HnSlice, ReadStorage, inline_value, heap_value, subnode_value, ReadPcProp, read_storage,
  read_prop, read_props,
}
use pst_dev.Heap.Pc.Resolve.{resolve_hid-IsHeap}
use pst_dev.Heap.Pc.Leaf.{RecordAt, RecordsAt}
use pst_dev.Heap.Pc.Storage.{IsProperty, is_short, storage_of-cases, pack_inline_value-read_le}

-- Where a property's value is, as the reader tells it: in the record as a number, in the heap, or
-- in a subnode of the result.
unfoldable pub IsStored : PcResult → PcProperty → ReadStorage → Type 0
IsStored out p (inline_value v) = v ≡ read_le (length p.value_bytes) p.value_bytes 0
IsStored out p (heap_value s) = slice out.hn_bytes s.off s.size ≡ p.value_bytes
IsStored out p (subnode_value n) =
    (k : ℕ) × (get_elem? out.subnodes k
      ≡ some (record { nid = n; pid_tag_id = p.pid_tag_id; bytes = p.value_bytes }))

-- One property read for each one written, in their order.
unfoldable pub IsReadBack : PcResult → List PcProperty → List ReadPcProp → Type 0
IsReadBack out [] [] = Unit {0}
IsReadBack out [] (r ∷ rs) = ⊥
IsReadBack out (p ∷ ps) [] = ⊥
IsReadBack out (p ∷ ps) (r ∷ rs) =
    (r.pid_tag_id ≡ p.pid_tag_id)
    × ((r.prop_type ≡ p.prop_type) × IsStored out p r.storage)
    × IsReadBack out ps rs

-- Of the size of its type.
abbrev pub IsSized : PcProperty → Type 0
IsSized p = (fixed_size p.prop_type ≡ 0) ⊎ (length p.value_bytes ≡ fixed_size p.prop_type)

abbrev pub IsSubnodeId : Nid → Type 0
IsSubnodeId n = (0 < n.value % 32) × (n.value < 2 ^ 32)

next_subnode-IsSubnodeId : (n : Nid) → IsSubnodeId n → IsSubnodeId (next_subnode n)
next_subnode-IsSubnodeId n h = (omega (arith, h.0), omega arith)

short_size :
    (p : PcProperty)
    → IsSized p
    → is_short p.prop_type ≡ true
    → length p.value_bytes ≡ fixed_size p.prop_type
short_size p s sh = elim s [ inl z ↦ ground (arith, z, sh) | inr q ↦ q ]

-- What one property adds, by its class.
module _ (p : PcProperty) (ps : List PcProperty) (next : ℕ) (nid : Nid) where
  adds_inline :
      storage_of p ≡ inline
      → (value_hnids next nid (p ∷ ps)
          ≡ pack_inline_value p.prop_type p.value_bytes ∷ value_hnids next nid ps)
        × (heap_values (p ∷ ps) ≡ heap_values ps)
        × (subnode_outs nid (p ∷ ps) ≡ subnode_outs nid ps)
  unfolding value_hnids heap_values subnode_outs
  adds_inline st = (rw st refl, rw st refl, rw st refl)

  adds_heap :
      storage_of p ≡ hn_alloc
      → (value_hnids next nid (p ∷ ps) ≡ make_hid (u16 next) 0 0 ∷ value_hnids (next + 1) nid ps)
        × (heap_values (p ∷ ps) ≡ p.value_bytes ∷ heap_values ps)
        × (subnode_outs nid (p ∷ ps) ≡ subnode_outs nid ps)
  unfolding value_hnids heap_values subnode_outs
  adds_heap st = (rw st refl, rw st refl, rw st refl)

  adds_subnode :
      storage_of p ≡ subnode
      → (value_hnids next nid (p ∷ ps) ≡ nid.value ∷ value_hnids next (next_subnode nid) ps)
        × (heap_values (p ∷ ps) ≡ heap_values ps)
        × (subnode_outs nid (p ∷ ps)
            ≡ record { nid = nid; pid_tag_id = p.pid_tag_id; bytes = p.value_bytes }
              ∷ subnode_outs (next_subnode nid) ps)
  unfolding value_hnids heap_values subnode_outs
  adds_subnode st = (rw st refl, rw st refl, rw st refl)

-- Every number of a record is one of 32 bits.
pub value_hnids-words :
    (ps : List PcProperty) (next : ℕ) (nid : Nid)
    → All IsProperty ps
    → All IsSized ps
    → IsSubnodeId nid
    → All (λ h. h < 2 ^ 32) (value_hnids next nid ps)
unfolding value_hnids
value_hnids-words [] next nid hp hs hn = tt
value_hnids-words (p ∷ ps) next nid hp hs hn = elim (storage_of-cases p hp.0) [
  | inl (st, sh) ↦ rw st (
    (pack_inline_value-read_le p.prop_type p.value_bytes hp.0.bytes sh (short_size p hs.0 sh)).1,
    value_hnids-words ps next nid hp.1 hs.1 hn,
  )
  | inr (inl (st, sh)) ↦ rw st (
    (make_hid_fields (u16 next) 0 0 (omega arith)).3,
    value_hnids-words ps (next + 1) nid hp.1 hs.1 hn,
  )
  | inr (inr (st, sh)) ↦ rw st (
    hn.1,
    value_hnids-words ps next (next_subnode nid) hp.1 hs.1 (next_subnode-IsSubnodeId nid hn),
  )
]

module _ (allocs : List (List ℕ)) (client root : ℕ) (out : PcResult)
    (heap : IsHeap allocs client root out.hn_bytes) (few : length allocs < 2047) where
  abbrev ib : ℕ
  ib = map_off (heap_end allocs)

  read_storage-inline :
      (p : PcProperty) (h : ℕ)
      → is_short p.prop_type ≡ true
      → read_storage p.prop_type h out.hn_bytes ib (map_count allocs) ≡ ok (inline_value h)
  unfolding read_storage
  read_storage-inline p h s = rw s refl

  read_storage-heap :
      (p : PcProperty) (i : ℕ)
      → is_short p.prop_type ≡ false
      → get_elem? allocs i ≡ some p.value_bytes
      → read_storage p.prop_type (make_hid (u16 (suc i)) 0 0) out.hn_bytes ib (map_count allocs)
        ≡ ok (heap_value (record { off = 12 + before i allocs; size = length p.value_bytes }))
  unfolding read_storage
  read_storage-heap p i s g =
      let inside = get_elem?-lt allocs i g in
      let index : u16 (suc i) ≡ suc i = omega (arith, inside) in
      let t = (make_hid_fields (suc i) 0 0 (omega arith)).0 in
      let low : bit_and (make_hid (suc i) 0 0) 0x1f ≡ 0 =
        unfold hid_type in omega (arith, t, bit_and_ones 5 (make_hid (suc i) 0 0)) in
      simp (s, index, low, resolve_hid-IsHeap allocs out.hn_bytes heap few i g)

  read_storage-subnode :
      (p : PcProperty) (n : Nid)
      → is_short p.prop_type ≡ false
      → IsSubnodeId n
      → read_storage p.prop_type n.value out.hn_bytes ib (map_count allocs) ≡ ok (subnode_value n)
  unfolding read_storage
  read_storage-subnode p n s h =
      let low : (bit_and n.value 0x1f == 0) ≡ false = ground (arith, bit_and_ones 5 n.value, h.0) in
      rw (s, low) refl

  -- A record with a value that reads as `s`, in front of records that read.
  read_next :
      (p : PcProperty) (h n off : ℕ) (s : ReadStorage) (rs : List ReadPcProp)
      → RecordAt out.hn_bytes off p h
      → read_storage p.prop_type h out.hn_bytes ib (map_count allocs) ≡ ok s
      → read_props n (off + 8) out.hn_bytes ib (map_count allocs) ≡ ok rs
      → read_props (suc n) off out.hn_bytes ib (map_count allocs)
        ≡ ok (record { pid_tag_id = p.pid_tag_id; prop_type = p.prop_type; storage = s } ∷ rs)
  unfolding read_props read_prop
  read_next p h n off s rs r e rest =
      let b = heap.bytes in
      let z : off + 0 ≡ off = omega arith in
      let tag : read_u16 out.hn_bytes off ≡ p.pid_tag_id =
        read_u16-read_le out.hn_bytes off b ∙ r.0 in
      let kind : read_u16 out.hn_bytes (off + 2) ≡ p.prop_type =
        read_u16-read_le out.hn_bytes (off + 2) b ∙ r.1 in
      let value : read_u32 out.hn_bytes (off + 4) ≡ h =
        read_u32-read_le out.hn_bytes (off + 4) b ∙ r.2 in
      simp (z, tag, kind, value, e, rest)

  pub read_props-IsReadBack :
      (ps : List PcProperty) (next i k : ℕ) (nid : Nid) (off : ℕ)
      → All IsProperty ps
      → All IsSized ps
      → IsSubnodeId nid
      → next ≡ suc i
      → drop i allocs ≡ heap_values ps
      → drop k out.subnodes ≡ subnode_outs nid ps
      → RecordsAt out.hn_bytes off ps (value_hnids next nid ps)
      → (rs : List ReadPcProp) × (read_props (length ps) off out.hn_bytes ib (map_count allocs)
          ≡ ok rs)
        × IsReadBack out ps rs
  unfolding RecordsAt IsReadBack IsStored
  read_props-IsReadBack [] next i k nid off hp hs hn e a b r = ([], unfold read_props in refl, tt)
  read_props-IsReadBack (p ∷ ps) next i k nid off hp hs hn e a b r =
      elim (storage_of-cases p hp.0) [
        | inl (st, sh) ↦
            let (vs, av, bv) = adds_inline p ps next nid st in
            let r' = rw vs at r in
            let (rs, run, back) =
              read_props-IsReadBack ps next i k nid (off + 8) hp.1 hs.1 hn e (a ∙ av) (b ∙ bv)
                r'.1 in
            let v = pack_inline_value p.prop_type p.value_bytes in
            (
              record {
                pid_tag_id = p.pid_tag_id;
                prop_type = p.prop_type;
                storage = inline_value v;
              }
                  ∷ rs,
              read_next p v (length ps) off (inline_value v) rs r'.0 (read_storage-inline p v sh)
                  run,
              (
                refl,
                (
                  refl,
                  (pack_inline_value-read_le p.prop_type p.value_bytes hp.0.bytes sh
                      (short_size p hs.0 sh)).0,
                ),
                back,
              ),
            )
        | inr (inl (st, sh)) ↦
            let (vs, av, bv) = adds_heap p ps next nid st in
            let r' = rw vs at r in
            let found = get_elem?-drop allocs i (a ∙ av) in
            let next' : next + 1 ≡ suc (i + 1) = omega arith in
            let (rs, run, back) =
              read_props-IsReadBack ps (next + 1) (i + 1) k nid (off + 8) hp.1 hs.1 hn next'
                (drop_next allocs i (a ∙ av)) (b ∙ bv) r'.1 in
            let s : HnSlice = record { off = 12 + before i allocs; size = length p.value_bytes } in
            (
              record { pid_tag_id = p.pid_tag_id; prop_type = p.prop_type; storage = heap_value s }
                  ∷ rs,
              read_next p (make_hid (u16 (suc i)) 0 0) (length ps) off (heap_value s) rs
                  (rw e at r'.0) (read_storage-heap p i sh found) run,
              (refl, (refl, (heap.bounds i found).2), back),
            )
        | inr (inr (st, sh)) ↦
            let (vs, av, bv) = adds_subnode p ps next nid st in
            let r' = rw vs at r in
            let (rs, run, back) =
              read_props-IsReadBack ps next i (k + 1) (next_subnode nid) (off + 8) hp.1 hs.1
                (next_subnode-IsSubnodeId nid hn) e (a ∙ av) (drop_next out.subnodes k (b ∙ bv))
                r'.1 in
            (
              record {
                pid_tag_id = p.pid_tag_id;
                prop_type = p.prop_type;
                storage = subnode_value nid;
              }
                  ∷ rs,
              read_next p nid.value (length ps) off (subnode_value nid) rs r'.0
                  (read_storage-subnode p nid sh hn) run,
              (refl, (refl, (k, get_elem?-drop out.subnodes k (b ∙ bv))), back),
            )
      ]
