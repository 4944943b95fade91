-- ===== src/Heap.antt =====
-- include/pstwriter/ltp.hpp and the first part of src/ltp.cpp: the heap on a node, the records of
-- a B-tree on the heap, and where a property's value is stored.
pub mod Laws
pub mod Layout
pub mod Shape
pub mod Built
pub mod Pc
mod Tests
use pst_dev.Prelude.{
  ℕ, zero, suc, ◌+◌, ◌-◌, ◌*◌, ◌%◌, ◌/◌, ◌^◌, List, [], ◌∷◌, ◌++◌, bit_and, bit_or, Bool, true,
  false, ◌==◌, ◌||◌, ◌&&◌, not, ltb, leb, if◌then◌else◌, length, set, take,
}
use pst_dev.Prelude.Except.{Except, ok, throw}
use pst_dev.Bytes.{
  ◌>>>◌, ◌<<<◌, byte_at, u8, u16, u32, zeros, write_u8, write_u16, write_u32, write_bytes, read_u32,
}

-- The parts of a heap id, each cut to its width.
unfoldable pub make_hid : ℕ → ℕ → ℕ → ℕ
make_hid index block t =
    bit_or (bit_or (bit_and t 0x1f) (bit_and index 0x07ff <<< 5)) (block <<< 16)

unfoldable pub hid_type : ℕ → ℕ
hid_type hid = u8 (bit_and hid 0x1f)

unfoldable pub hid_index : ℕ → ℕ
hid_index hid = u16 (bit_and (hid >>> 5) 0x07ff)

unfoldable pub hid_block : ℕ → ℕ
hid_block hid = u16 (bit_and (hid >>> 16) 0xffff)

-- The cursor behind the allocations, and the offset of each of them. An allocation is its bytes.
unfoldable pub cursor_after : ℕ → List (List ℕ) → ℕ
cursor_after cursor [] = cursor
cursor_after cursor (a ∷ rest) = cursor_after (u16 (cursor + length a)) rest

unfoldable pub alloc_offsets : ℕ → List (List ℕ) → List ℕ
alloc_offsets cursor [] = []
alloc_offsets cursor (a ∷ rest) = cursor ∷ alloc_offsets (u16 (cursor + length a)) rest

unfoldable pub copy_allocs : ℕ → List (List ℕ) → List ℕ → List ℕ
copy_allocs cursor [] out = out
copy_allocs cursor (a ∷ rest) out =
    copy_allocs (u16 (cursor + length a)) rest (write_bytes out cursor a)

unfoldable pub count_free : List (List ℕ) → ℕ
count_free [] = 0
count_free (a ∷ rest) = if length a == 0 then u16 (count_free rest + 1) else count_free rest

-- The loop that writes `rgibAlloc`.
unfoldable pub write_offsets : ℕ → List ℕ → List ℕ → List ℕ
write_offsets off [] out = out
write_offsets off (o ∷ os) out = write_offsets (off + 2) os (write_u16 out off o)

-- HNHDR.
unfoldable pub write_hn_header : ℕ → ℕ → ℕ → List ℕ → List ℕ → List ℕ
write_hn_header ib_hnpm client_sig hid_user_root fill_level out =
    let h1 = write_u16 out 0 ib_hnpm in
    let h2 = write_u8 h1 2 0xec in
    let h3 = write_u8 h2 3 client_sig in
    let h4 = write_u32 h3 4 hid_user_root in
    set
      (set (set (set h4 8 (byte_at fill_level 0)) 9 (byte_at fill_level 1)) 10
        (byte_at fill_level 2))
      11 (byte_at fill_level 3)

-- Of less than 65,535 allocations: then `cAlloc` does not wrap, and the last loop writes every
-- offset. Where the sizes wrap the 16-bit cursor, the source's memcpy writes behind the buffer, and
-- here that write is dropped.
unfoldable pub build_heap_on_node : List (List ℕ) → ℕ → ℕ → List ℕ → List ℕ
build_heap_on_node allocs client_sig hid_user_root fill_level =
    let after = cursor_after 12 allocs in
    let ib_hnpm = u16 (bit_and (after + 3) (2 ^ 32 - 1 - 3)) in
    let has_phantom = not (after == ib_hnpm) in
    let c_alloc = u16 (length allocs + (if has_phantom then 1 else 0)) in
    let ib_alloc =
      alloc_offsets 12 allocs ++ ((if has_phantom then after ∷ [] else []) ++ (ib_hnpm ∷ [])) in
    let out = zeros (ib_hnpm + (4 + (c_alloc + 1) * 2)) in
    let b1 =
      copy_allocs 12 allocs (write_hn_header ib_hnpm client_sig hid_user_root fill_level out) in
    let b2 = write_u16 b1 (ib_hnpm + 0) c_alloc in
    let b3 = write_u16 b2 (ib_hnpm + 2) (count_free allocs) in
    write_offsets (ib_hnpm + 4) ib_alloc b3

unfoldable pub encode_bth_header : ℕ → ℕ → ℕ → ℕ → List ℕ
encode_bth_header cb_key cb_ent idx_levels hid_root =
    let h1 = write_u8 (zeros 8) 0 0xb5 in
    let h2 = write_u8 h1 1 cb_key in
    let h3 = write_u8 h2 2 cb_ent in let h4 = write_u8 h3 3 idx_levels in write_u32 h4 4 hid_root

-- The loop of `keyLess`, from the highest byte down.
unfoldable pub key_less : List ℕ → List ℕ → ℕ → Bool
key_less a b zero = false
key_less a b (suc i) =
    let rest = key_less a b i in
    if byte_at a i == byte_at b i then rest else ltb (byte_at a i) (byte_at b i)

pub record BthRecord : Type 0 where
  pub key_bytes : List ℕ
  pub data_bytes : List ℕ

pub data HeapError : Type 0 where
  bad_key_size : HeapError
  bad_entry_size : HeapError
  too_long : HeapError

-- std::sort by the key; the order of records with one key is that of the input.
unfoldable pub insert_record : ℕ → BthRecord → List BthRecord → List BthRecord
insert_record cb_key r [] = r ∷ []
insert_record cb_key r (x ∷ xs) =
    let rest = insert_record cb_key r xs in
    if key_less x.key_bytes r.key_bytes cb_key then x ∷ rest else r ∷ (x ∷ xs)

unfoldable pub sort_records : ℕ → List BthRecord → List BthRecord
sort_records cb_key [] = []
sort_records cb_key (r ∷ rs) = insert_record cb_key r (sort_records cb_key rs)

unfoldable pub pack_records : ℕ → ℕ → ℕ → List BthRecord → List ℕ → List ℕ
pack_records cb_key cb_ent i [] out = out
pack_records cb_key cb_ent i (r ∷ rs) out =
    let rec_size = cb_key + cb_ent in
    let o1 = write_bytes out (i * rec_size) (take cb_key r.key_bytes) in
    pack_records cb_key cb_ent (i + 1) rs
      (write_bytes o1 (i * rec_size + cb_key) (take cb_ent r.data_bytes))

unfoldable pub build_bth_leaf_records : List BthRecord → ℕ → ℕ → Except HeapError (List ℕ)
build_bth_leaf_records records cb_key cb_ent =
    let total_bytes = length records * (cb_key + cb_ent) in
    if not (cb_key == 1 || (cb_key == 2 || (cb_key == 4 || (cb_key == 8 || cb_key == 16))))
    then throw bad_key_size
    else if cb_ent == 0 || ltb 32 cb_ent
    then throw bad_entry_size
    else if ltb 3580 total_bytes
    then throw too_long
    else ok (pack_records cb_key cb_ent 0 (sort_records cb_key records) (zeros total_bytes))

-- By the number of the property type.
unfoldable pub fixed_size : ℕ → ℕ
fixed_size t =
    if t == 0x000b
    then 1
    else if t == 0x0002
    then 2
    else if t == 0x0003 || (t == 0x0004 || t == 0x000a)
    then 4
    else if t == 0x0014 || (t == 0x0005 || (t == 0x0006 || (t == 0x0007 || t == 0x0040)))
    then 8
    else if t == 0x0048
    then 16
    else 0

pub data ResolvedStorage : Type 0 where
  inline : ResolvedStorage
  hn_alloc : ResolvedStorage
  subnode : ResolvedStorage

-- `forced` is the hint PropStorageHint::Subnode.
unfoldable pub resolve_storage : ℕ → ℕ → Bool → ResolvedStorage
resolve_storage t value_size forced =
    if forced
    then subnode
    else if not (fixed_size t == 0)
    then (if leb (fixed_size t) 4 then inline else hn_alloc)
    else if leb value_size 3580
    then hn_alloc
    else subnode

unfoldable pub pack_inline_value : ℕ → List ℕ → ℕ
pack_inline_value t value_bytes =
    let fs = fixed_size t in
    let value_size = length value_bytes in
    let copy_len =
      if ltb 0 fs && leb fs 4 then fs else if ltb 4 value_size then 4 else value_size in
    read_u32 (write_bytes (zeros 4) 0 (take copy_len value_bytes)) 0

unfoldable pub mv_total : List (List ℕ) → ℕ
mv_total [] = 0
mv_total (s ∷ ss) = length s + mv_total ss

unfoldable pub mv_loop : ℕ → ℕ → List (List ℕ) → List ℕ → List ℕ
mv_loop i cursor [] out = out
mv_loop i cursor (s ∷ ss) out =
    mv_loop (i + 1) (cursor + length s) ss
      (write_bytes (write_u32 out (4 + i * 4) (u32 cursor)) cursor s)

unfoldable pub encode_mv_unicode : List (List ℕ) → List ℕ
encode_mv_unicode strings =
    let count = length strings in
    let header_size = 4 + count * 4 in
    mv_loop 0 header_size strings (write_u32 (zeros (header_size + mv_total strings)) 0 (u32 count))
