-- ===== src/Heap/Pc/Read.antt =====
-- `readPropertyContext` of src/ltp.cpp and its `resolveHidInSingleBlockHn`.
use pst_dev.Prelude.{
  ℕ, zero, suc, ◌+◌, ◌-◌, ◌*◌, ◌/◌, ◌%◌, List, [], ◌∷◌, bit_and, ◌==◌, ◌||◌, ◌&&◌, not, ltb, leb,
  if◌then◌else◌, length,
}
use pst_dev.Prelude.Except.{Except, ok, throw_if, ◌>>=◌, ◌>>◌}
use pst_dev.Bytes.{◌>>>◌, byte_at, read_u16, read_u32}
use pst_dev.Ident.{Nid}
use pst_dev.Heap.{hid_type, hid_index, hid_block, fixed_size}

pub data ReadError : Type 0 where
  hid_has_type : ReadError
  hid_index_zero : ReadError
  hid_other_block : ReadError
  hid_beyond_map : ReadError
  entry_beyond_end : ReadError
  bounds_invalid : ReadError
  too_small : ReadError
  bad_signature : ReadError
  not_a_context : ReadError
  map_out_of_range : ReadError
  map_beyond_end : ReadError
  bad_header_size : ReadError
  bad_header_type : ReadError
  bad_key_size : ReadError
  bad_entry_size : ReadError
  index_levels : ReadError
  bad_leaf_size : ReadError

-- A part of the heap.
pub record HnSlice : Type 0 where
  pub off : ℕ
  pub size : ℕ

unfoldable pub resolve_hid : ℕ → List ℕ → ℕ → ℕ → Except ReadError HnSlice
resolve_hid hid hn hnpm_off c_alloc =
    let index = hid_index hid in
    let start_off = hnpm_off + 4 + (index - 1) * 2 in
    let end_off = hnpm_off + 4 + index * 2 in
    let s = read_u16 hn start_off in
    let e = read_u16 hn end_off in
    throw_if (not (hid_type hid == 0)) hid_has_type
    >> (throw_if (index == 0) hid_index_zero
        >> (throw_if (not (hid_block hid == 0)) hid_other_block
            >> (throw_if (ltb c_alloc index) hid_beyond_map
                >> (throw_if (ltb (length hn) (end_off + 2)) entry_beyond_end
                    >> (throw_if (ltb e s || ltb (length hn) e) bounds_invalid
                        >> ok (record { off = s; size = e - s }))))))

-- Where a value is, with what the reader tells of it.
pub data ReadStorage : Type 0 where
  inline_value : ℕ → ReadStorage
  heap_value : HnSlice → ReadStorage
  subnode_value : Nid → ReadStorage

pub record ReadPcProp : Type 0 where
  pub pid_tag_id : ℕ
  pub prop_type : ℕ
  pub storage : ReadStorage

-- The storage of a value, by its type and its dwValueHnid.
unfoldable pub read_storage : ℕ → ℕ → List ℕ → ℕ → ℕ → Except ReadError ReadStorage
read_storage t hnid hn hnpm_off c_alloc =
    if not (fixed_size t == 0) && leb (fixed_size t) 4
    then ok (inline_value hnid)
    else if bit_and hnid 0x1f == 0
    then (resolve_hid hnid hn hnpm_off c_alloc >>= λ s. ok (heap_value s))
    else ok (subnode_value (record { value = hnid }))

unfoldable pub read_prop : ℕ → List ℕ → ℕ → ℕ → Except ReadError ReadPcProp
read_prop rec_off hn hnpm_off c_alloc =
    let t = read_u16 hn (rec_off + 2) in
    read_storage t (read_u32 hn (rec_off + 4)) hn hnpm_off c_alloc >>= λ s.
    ok (record { pid_tag_id = read_u16 hn (rec_off + 0); prop_type = t; storage = s })

-- The loop over the records, with the rounds left.
unfoldable pub read_props : ℕ → ℕ → List ℕ → ℕ → ℕ → Except ReadError (List ReadPcProp)
read_props zero rec_off hn hnpm_off c_alloc = ok []
read_props (suc left) rec_off hn hnpm_off c_alloc = read_prop rec_off hn hnpm_off c_alloc >>= λ p.
    (read_props left (rec_off + 8) hn hnpm_off c_alloc >>= λ ps. ok (p ∷ ps))

-- From the root of the tree on.
unfoldable pub read_leaf : ℕ → List ℕ → ℕ → ℕ → Except ReadError (List ReadPcProp)
read_leaf hid_root hn hnpm_off c_alloc =
    if bit_and (hid_root >>> 5) 0x07ff == 0
    then ok []
    else (resolve_hid hid_root hn hnpm_off c_alloc >>= λ leaf.
        throw_if (not (leaf.size % 8 == 0)) bad_leaf_size
        >> read_props (leaf.size / 8) leaf.off hn hnpm_off c_alloc)

-- The checks on BTHHEADER.
unfoldable pub read_bth_header : ℕ → List ℕ → Except ReadError ℕ
read_bth_header off hn =
    throw_if (not (byte_at hn (off + 0) == 0xb5)) bad_header_type
    >> (throw_if (not (byte_at hn (off + 1) == 2)) bad_key_size
        >> (throw_if (not (byte_at hn (off + 2) == 6)) bad_entry_size
            >> (throw_if (not (byte_at hn (off + 3) == 0)) index_levels
                >> ok (read_u32 hn (off + 4)))))

unfoldable pub read_property_context : List ℕ → Except ReadError (List ReadPcProp)
read_property_context hn =
    let ib_hnpm = read_u16 hn 0 in
    let c_alloc = read_u16 hn (ib_hnpm + 0) in
    throw_if (ltb (length hn) 12) too_small
    >> (throw_if (not (byte_at hn 2 == 0xec)) bad_signature
        >> (throw_if (not (byte_at hn 3 == 0xbc)) not_a_context
            >> (throw_if (ltb (length hn) (ib_hnpm + 4)) map_out_of_range
                >> (throw_if (ltb (length hn) (ib_hnpm + 4 + (c_alloc + 1) * 2)) map_beyond_end
                    >> (resolve_hid (read_u32 hn 4) hn ib_hnpm c_alloc >>= λ header.
                        throw_if (not (header.size == 8)) bad_header_size
                        >> (read_bth_header header.off hn >>= λ hid_root.
                            read_leaf hid_root hn ib_hnpm c_alloc))))))
