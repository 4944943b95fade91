-- ===== src/Heap/Pc.antt =====
-- `buildPropertyContext` of src/ltp.cpp.
pub mod Roundtrip
pub mod Context
pub mod Whole
pub mod Safety
pub mod Refusals
pub mod Acceptance
mod Tests
pub mod Leaf
pub mod Storage
pub mod Order
pub mod Read
pub mod Resolve
use pst_dev.Prelude.{
  ℕ, zero, suc, ◌+◌, ◌*◌, ◌%◌, ◌^◌, List, [], ◌∷◌, ◌++◌, Bool, true, false, ◌==◌, ◌||◌, ◌&&◌, not,
  ltb, if◌then◌else◌, length,
}
use pst_dev.Prelude.Sort.{sort_by}
use pst_dev.Prelude.Except.{Except, ok, throw, throw_if, ◌>>=◌, ◌>>◌}
use pst_dev.Bytes.{u16, u32, zeros, write_u16, write_u32}
use pst_dev.Ident.{Nid, nid_type}
use pst_dev.Heap.{
  make_hid, build_heap_on_node, encode_bth_header, BthRecord, HeapError, build_bth_leaf_records,
  fixed_size, ResolvedStorage, inline, hn_alloc, subnode, resolve_storage, pack_inline_value,
}

-- `forced` is the storage hint PropStorageHint::Subnode.
pub record PcProperty : Type 0 where
  pub pid_tag_id : ℕ
  pub prop_type : ℕ
  pub value_bytes : List ℕ
  pub forced : Bool

pub record PcSubnodeOut : Type 0 where
  pub nid : Nid
  pub pid_tag_id : ℕ
  pub bytes : List ℕ

pub record PcResult : Type 0 where
  pub hn_bytes : List ℕ
  pub subnodes : List PcSubnodeOut

pub data PcError : Type 0 where
  bad_first_nid : PcError
  duplicate_tag : PcError
  wrong_length : PcError
  empty_subnode : PcError
  bad_records : HeapError → PcError
  body_too_long : PcError

abbrev pub max_hn_body_bytes : ℕ
max_hn_body_bytes = 8176

abbrev pub tag_key : PcProperty → ℕ
tag_key p = p.pid_tag_id

abbrev pub storage_of : PcProperty → ResolvedStorage
storage_of p = resolve_storage p.prop_type (length p.value_bytes) p.forced

-- The loop over neighbours of the sorted properties.
unfoldable pub has_duplicate : List PcProperty → Bool
has_duplicate [] = false
has_duplicate (p ∷ []) = false
has_duplicate (p ∷ q ∷ ps) = q.pid_tag_id == p.pid_tag_id || has_duplicate (q ∷ ps)

-- The loop over the dimensions, in the order of the input.
unfoldable pub check_props : List PcProperty → Except PcError (Unit {0})
check_props [] = ok tt
check_props (p ∷ ps) =
    let fs = fixed_size p.prop_type in
    throw_if (not (fs == 0) && not (length p.value_bytes == fs)) wrong_length
    >> (throw_if (p.forced && length p.value_bytes == 0) empty_subnode >> check_props ps)

abbrev pub next_subnode : Nid → Nid
next_subnode n = record { value = u32 (n.value + 32) }

-- The switch over the class of one property: its dwValueHnid, and the next heap index and node id.
abbrev pub hnid_of : ResolvedStorage → PcProperty → ℕ → Nid → ℕ
hnid_of inline p next_hid next_nid = pack_inline_value p.prop_type p.value_bytes
hnid_of hn_alloc p next_hid next_nid = make_hid (u16 next_hid) 0 0
hnid_of subnode p next_hid next_nid = next_nid.value

abbrev pub hid_after : ResolvedStorage → ℕ → ℕ
hid_after inline next_hid = next_hid
hid_after hn_alloc next_hid = next_hid + 1
hid_after subnode next_hid = next_hid

abbrev pub nid_after : ResolvedStorage → Nid → Nid
nid_after inline next_nid = next_nid
nid_after hn_alloc next_nid = next_nid
nid_after subnode next_nid = next_subnode next_nid

-- dwValueHnid of each property in sorted order.
unfoldable pub value_hnids : ℕ → Nid → List PcProperty → List ℕ
value_hnids next_hid next_nid [] = []
value_hnids next_hid next_nid (p ∷ ps) =
    hnid_of (storage_of p) p next_hid next_nid
    ∷ value_hnids (hid_after (storage_of p) next_hid) (nid_after (storage_of p) next_nid) ps

abbrev pub with_heap_value : ResolvedStorage → PcProperty → List (List ℕ) → List (List ℕ)
with_heap_value inline p rest = rest
with_heap_value hn_alloc p rest = p.value_bytes ∷ rest
with_heap_value subnode p rest = rest

unfoldable pub heap_values : List PcProperty → List (List ℕ)
heap_values [] = []
heap_values (p ∷ ps) = with_heap_value (storage_of p) p (heap_values ps)

abbrev pub with_subnode : ResolvedStorage → Nid → PcProperty → List PcSubnodeOut → List PcSubnodeOut
with_subnode inline next_nid p rest = rest
with_subnode hn_alloc next_nid p rest = rest
with_subnode subnode next_nid p rest =
    record { nid = next_nid; pid_tag_id = p.pid_tag_id; bytes = p.value_bytes } ∷ rest

unfoldable pub subnode_outs : Nid → List PcProperty → List PcSubnodeOut
subnode_outs next_nid [] = []
subnode_outs next_nid (p ∷ ps) =
    with_subnode (storage_of p) next_nid p (subnode_outs (nid_after (storage_of p) next_nid) ps)

unfoldable pub pc_record : PcProperty → ℕ → BthRecord
pc_record p hnid = record {
  key_bytes = write_u16 (zeros 2) 0 p.pid_tag_id;
  data_bytes = write_u32 (write_u16 (zeros 6) 0 p.prop_type) 2 hnid;
}

unfoldable pub pc_records : List PcProperty → List ℕ → List BthRecord
pc_records [] hnids = []
pc_records (p ∷ ps) [] = []
pc_records (p ∷ ps) (h ∷ hs) = pc_record p h ∷ pc_records ps hs

-- What `buildBthLeafRecords` throws goes through.
abbrev pub of_records : Except HeapError (List ℕ) → Except PcError (List ℕ)
of_records (ok leaf) = ok leaf
of_records (throw e) = throw (bad_records e)

unfoldable pub bth_leaf : List BthRecord → Except PcError (List ℕ)
bth_leaf records = of_records (build_bth_leaf_records records 2 6)

-- The heap of a context with its leaf.
unfoldable pub pc_heap : List ℕ → List PcProperty → List ℕ
pc_heap leaf sorted =
    build_heap_on_node (encode_bth_header 2 6 0 (make_hid 2 0 0) ∷ leaf ∷ heap_values sorted) 0xbc
      (make_hid 1 0 0) (zeros 4)

unfoldable pub build_property_context : List PcProperty → Nid → Except PcError PcResult
build_property_context props first_subnode_nid =
    let sorted = sort_by tag_key props in
    throw_if (nid_type first_subnode_nid == 0) bad_first_nid
    >> (throw_if (has_duplicate sorted) duplicate_tag
        >> (check_props props
            >> (bth_leaf (pc_records sorted (value_hnids 3 first_subnode_nid sorted)) >>= λ leaf.
                throw_if (ltb max_hn_body_bytes (length (pc_heap leaf sorted))) body_too_long
                >> ok (record {
                  hn_bytes = pc_heap leaf sorted;
                  subnodes = subnode_outs first_subnode_nid sorted;
                }))))
