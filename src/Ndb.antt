-- ===== src/Ndb.antt =====
-- include/pstwriter/ndb.hpp and src/ndb.cpp: block signature, page and block trailers, HEADER.
pub mod Trailer
pub mod HeaderFields
pub mod Header
mod Tests
use pst_dev.Prelude.{
  ℕ, zero, suc, ◌+◌, ◌*◌, ◌/◌, ◌%◌, ◌^◌, List, [], ◌∷◌, ◌++◌, bit_and, bit_or, bit_xor, ◌==◌, ◌||◌,
  if◌then◌else◌, length, get_or, drop, set, replicate,
}
use pst_dev.Bytes.{◌>>>◌, ◌<<<◌, u8, u16, u32, zeros, write_u8, write_u16, write_u32, write_u64}
use pst_dev.Ident.{Bid, Ib, Bref}
use pst_dev.Crc.{crc32}

-- namespace ptype
abbrev pub ptype_bbt : ℕ
ptype_bbt = 0x80

abbrev pub ptype_nbt : ℕ
ptype_nbt = 0x81

abbrev pub ptype_amap : ℕ
ptype_amap = 0x84

abbrev pub ptype_dlist : ℕ
ptype_dlist = 0x86

unfoldable pub compute_block_sig : Bid → Ib → ℕ
compute_block_sig bid ib =
    let mix = u32 (bit_and (bit_xor ib.value bid.value) 0xffffffff) in
    u16 (bit_xor (mix >>> 16) (bit_and mix 0xffff))

-- The switch of `writePageTrailer`.
unfoldable pub page_sig : ℕ → Bid → Ib → ℕ
page_sig ptype bid ib =
    if ptype == ptype_nbt || (ptype == ptype_bbt || ptype == ptype_dlist)
    then compute_block_sig bid ib
    else 0

unfoldable pub write_page_trailer : List ℕ → ℕ → Bid → Ib → List ℕ
write_page_trailer page ptype bid ib =
    let p1 = write_u8 page (496 + 0) ptype in
    let p2 = write_u8 p1 (496 + 1) ptype in
    let p3 = write_u16 p2 (496 + 2) (page_sig ptype bid ib) in
    let p4 = write_u32 p3 (496 + 4) (crc32 p3 496) in write_u64 p4 (496 + 8) bid.value

unfoldable pub append_block_trailer : List ℕ → ℕ → Bid → Ib → List ℕ
append_block_trailer bytes cb_plaintext bid ib =
    let base = length bytes in
    let t1 = write_u16 (bytes ++ zeros 16) (base + 0) cb_plaintext in
    let t2 = write_u16 t1 (base + 2) (compute_block_sig bid ib) in
    let t3 = write_u32 t2 (base + 4) (crc32 bytes base) in write_u64 t3 (base + 8) bid.value

pub record Root : Type 0 where
  pub ib_file_eof : Ib
  pub ib_amap_last : Ib
  pub cb_amap_free : ℕ
  pub cb_pmap_free : ℕ
  pub bref_nbt : Bref
  pub bref_bbt : Bref
  pub f_amap_valid : ℕ

pub record WriterState : Type 0 where
  pub root : Root
  pub bid_next_p : Bid
  pub bid_next_b : Bid
  pub dw_unique : ℕ
  pub rgnid : List ℕ
  pub dw_reserved1 : ℕ
  pub dw_reserved2 : ℕ
  pub bid_unused : ℕ

-- The switch and the loop of `populateFreshRgnid`.
unfoldable pub start_index : ℕ → ℕ
start_index nid_type =
    if nid_type == 0x03
    then 0x4000
    else if nid_type == 0x04
    then 0x10000
    else if nid_type == 0x08
    then 0x8000
    else 0x400

unfoldable pub populate_loop : ℕ → ℕ → List ℕ → List ℕ
populate_loop zero nid_type rgnid = rgnid
populate_loop (suc left) nid_type rgnid =
    populate_loop left (nid_type + 1)
      (set rgnid nid_type (bit_or (start_index nid_type <<< 5) (bit_and nid_type 0x1f)))

unfoldable pub populate_fresh_rgnid : WriterState → WriterState
unfolding populate_loop start_index
populate_fresh_rgnid s = record s { rgnid = populate_loop 32 0 s.rgnid }

-- std::fill_n
unfoldable pub fill_n : List ℕ → ℕ → ℕ → ℕ → List ℕ
fill_n buf off zero v = buf
fill_n buf off (suc n) v = fill_n (set buf off v) (off + 1) n v

-- The loop that writes `rgnid[32]`.
unfoldable pub write_rgnid : ℕ → ℕ → List ℕ → List ℕ → List ℕ
write_rgnid zero i rgnid p = p
write_rgnid (suc left) i rgnid p =
    write_rgnid left (i + 1) rgnid (write_u32 p (0x02c + i * 4) (get_or rgnid i 0))

-- `serializeHeader`, in the order of its parts: the preamble and the ids, ROOT, the deprecated
-- maps and the tail, the two checksums.
unfoldable pub header_ids : WriterState → List ℕ → List ℕ
header_ids s p =
    let p1 = write_u32 p 0x000 0x4e444221 in
    let p2 = write_u16 p1 0x008 0x4d53 in
    let p3 = write_u16 p2 0x00a 23 in
    let p4 = write_u16 p3 0x00c 19 in
    let p5 = write_u8 p4 0x00e 0x01 in
    let p6 = write_u8 p5 0x00f 0x01 in
    let p7 = write_u32 p6 0x010 s.dw_reserved1 in
    let p8 = write_u32 p7 0x014 s.dw_reserved2 in
    let p9 = write_u64 p8 0x018 s.bid_unused in
    let p10 = write_u64 p9 0x020 s.bid_next_p.value in
    let p11 = write_u32 p10 0x028 s.dw_unique in
    let p12 = write_rgnid 32 0 s.rgnid p11 in write_u64 p12 0x0ac 0

unfoldable pub header_root : Root → List ℕ → List ℕ
header_root r p =
    let p1 = write_u32 p 0x0b4 0 in
    let p2 = write_u64 p1 0x0b8 r.ib_file_eof.value in
    let p3 = write_u64 p2 0x0c0 r.ib_amap_last.value in
    let p4 = write_u64 p3 0x0c8 r.cb_amap_free in
    let p5 = write_u64 p4 0x0d0 r.cb_pmap_free in
    let p6 = write_u64 p5 0x0d8 r.bref_nbt.bid.value in
    let p7 = write_u64 p6 0x0e0 r.bref_nbt.ib.value in
    let p8 = write_u64 p7 0x0e8 r.bref_bbt.bid.value in
    let p9 = write_u64 p8 0x0f0 r.bref_bbt.ib.value in
    let p10 = write_u8 p9 0x0f8 r.f_amap_valid in
    let p11 = write_u8 p10 0x0f9 0 in write_u16 p11 0x0fa 0

unfoldable pub header_tail : WriterState → List ℕ → List ℕ
header_tail s p =
    let p1 = write_u32 p 0x0fc 0 in
    let p2 = fill_n p1 0x100 128 0xff in
    let p3 = fill_n p2 0x180 128 0xff in
    let p4 = write_u8 p3 0x200 0x80 in
    let p5 = write_u8 p4 0x201 0x01 in
    let p6 = write_u16 p5 0x202 0 in
    let p7 = write_u64 p6 0x204 s.bid_next_b.value in
    let p8 = write_u16 p7 0x210 0 in let p9 = write_u8 p8 (0x210 + 2) 0 in write_u8 p9 0x213 0

unfoldable pub serialize_header : WriterState → List ℕ
serialize_header s =
    let p = header_tail s (header_root s.root (header_ids s (zeros 564))) in
    let p1 = write_u32 p 0x004 (crc32 (drop 0x008 p) 471) in
    write_u32 p1 0x20c (crc32 (drop 0x008 p1) 516)
