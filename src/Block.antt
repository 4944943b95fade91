-- ===== src/Block.antt =====
-- include/pstwriter/block.hpp and src/block.cpp: data blocks and the internal blocks X, XX, SL, SI.
pub mod Seal
pub mod Payload
pub mod Entries
pub mod Lists
mod Tests
use pst_dev.Prelude.{ℕ, ◌+◌, ◌-◌, ◌*◌, ◌%◌, ◌^◌, List, [], ◌∷◌, bit_and, ltb, if◌then◌else◌, length}
use pst_dev.Bytes.{
  zeros, u16, u32, u64, write_u8, write_u16, write_u32, write_u64, write_bytes, read_u16, read_u32,
  read_u64,
}
use pst_dev.Ident.{Nid, Bid, Ib}
use pst_dev.Crc.{crc32}
use pst_dev.Cipher.{CryptMethod, encode_block}
use pst_dev.Ndb.{compute_block_sig}
use pst_dev.Page.{write_entries}

-- `& ~(kBlockAlignment - 1)` on a 64-bit size_t.
unfoldable pub round_block_size : ℕ → ℕ
round_block_size body =
    let total = u64 (body + 16) in bit_and (u64 (total + (64 - 1))) (2 ^ 64 - 1 - (64 - 1))

pub record SlEntry : Type 0 where
  pub nid : Nid
  pub bid_data : Bid
  pub bid_sub : Bid

pub record SiEntry : Type 0 where
  pub nid : Nid
  pub bid : Bid

-- The last 16 bytes of a block of `total` bytes whose body has `cb` of them.
unfoldable pub seal_block : List ℕ → ℕ → ℕ → Bid → Ib → List ℕ
seal_block buf total cb bid ib =
    let trailer_off = total - 16 in
    let dw_crc = crc32 buf cb in
    let t1 = write_u16 buf (trailer_off + 0) (u16 cb) in
    let t2 = write_u16 t1 (trailer_off + 2) (compute_block_sig bid ib) in
    let t3 = write_u32 t2 (trailer_off + 4) dw_crc in write_u64 t3 (trailer_off + 8) bid.value

unfoldable pub build_internal_block : ℕ → ℕ → ℕ → ℕ → List ℕ → Bid → Ib → List ℕ
build_internal_block btype c_level c_ent lcb_total_or_pad entries_raw bid ib =
    let body_bytes = 8 + length entries_raw in
    let total_size = round_block_size body_bytes in
    let b1 = write_u8 (zeros total_size) 0 btype in
    let b2 = write_u8 b1 1 c_level in
    let b3 = write_u16 b2 2 c_ent in
    let b4 = write_u32 b3 4 lcb_total_or_pad in
    let b5 = write_bytes b4 8 entries_raw in seal_block b5 total_size body_bytes bid ib

-- The payload, copied and encrypted, before the trailer.
unfoldable pub encrypted_payload : List ℕ → Bid → CryptMethod → List ℕ
encrypted_payload payload bid method =
    let cb_payload = length payload in
    let buf = write_bytes (zeros (round_block_size cb_payload)) 0 payload in
    encode_block buf cb_payload method (u32 (bit_and bid.value 0xffffffff))

unfoldable pub build_data_block : List ℕ → Bid → Ib → CryptMethod → List ℕ
build_data_block payload bid ib method =
    let cb_payload = length payload in
    seal_block (encrypted_payload payload bid method) (round_block_size cb_payload) cb_payload bid
      ib

unfoldable pub write_bid : ℕ → Bid → List ℕ → List ℕ
write_bid off b buf = write_u64 buf off b.value

unfoldable pub build_bid_list_block : ℕ → List Bid → ℕ → Bid → Ib → List ℕ
build_bid_list_block c_level child_bids lcb_total bid ib =
    let count = length child_bids in
    let rgbid = write_entries write_bid 8 0 child_bids (zeros (count * 8)) in
    build_internal_block 0x01 c_level (u16 count) lcb_total rgbid bid ib

unfoldable pub build_x_block : List Bid → ℕ → Bid → Ib → List ℕ
build_x_block child_bids lcb_total bid ib = build_bid_list_block 1 child_bids lcb_total bid ib

unfoldable pub build_xx_block : List Bid → ℕ → Bid → Ib → List ℕ
build_xx_block child_bids lcb_total bid ib = build_bid_list_block 2 child_bids lcb_total bid ib

unfoldable pub write_sl_entry : ℕ → SlEntry → List ℕ → List ℕ
write_sl_entry off e rg =
    let r1 = write_u64 rg (off + 0) e.nid.value in
    let r2 = write_u64 r1 (off + 8) e.bid_data.value in write_u64 r2 (off + 16) e.bid_sub.value

unfoldable pub build_sl_block : List SlEntry → Bid → Ib → List ℕ
build_sl_block entries bid ib =
    let count = length entries in
    let rg = write_entries write_sl_entry 24 0 entries (zeros (count * 24)) in
    build_internal_block 0x02 0 (u16 count) 0 rg bid ib

unfoldable pub write_si_entry : ℕ → SiEntry → List ℕ → List ℕ
write_si_entry off e rg = write_u64 (write_u64 rg (off + 0) e.nid.value) (off + 8) e.bid.value

unfoldable pub build_si_block : List SiEntry → Bid → Ib → List ℕ
build_si_block entries bid ib =
    let count = length entries in
    let rg = write_entries write_si_entry 16 0 entries (zeros (count * 16)) in
    build_internal_block 0x02 1 (u16 count) 0 rg bid ib

pub record BlockTrailerView : Type 0 where
  pub cb : ℕ
  pub w_sig : ℕ
  pub dw_crc : ℕ
  pub bid : ℕ

unfoldable pub read_block_trailer : List ℕ → ℕ → BlockTrailerView
read_block_trailer block total =
    let off = total - 16 in
    if ltb total 16 then record { cb = 0; w_sig = 0; dw_crc = 0; bid = 0 } else record {
      cb = read_u16 block (off + 0);
      w_sig = read_u16 block (off + 2);
      dw_crc = read_u32 block (off + 4);
      bid = read_u64 block (off + 8);
    }
