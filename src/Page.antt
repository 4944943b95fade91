-- ===== src/Page.antt =====
-- include/pstwriter/page.hpp and src/page.cpp: the allocation map and the block tree's pages.
pub mod Layout
use pst_dev.Prelude.{
  ℕ, zero, suc, ◌+◌, ◌-◌, ◌*◌, ◌/◌, ◌%◌, ◌^◌, ◌<◌, List, [], ◌∷◌, Bool, true, false, ◌==◌, ◌&&◌,
  not, ltb, min, if◌then◌else◌, length, take, set,
}
use pst_dev.Bytes.{zeros, u8, u16, u64, write_u8, write_u16, write_u32, write_u64}
use pst_dev.Ident.{Bid, Ib, Bref, make_amap}
use pst_dev.Ndb.{write_page_trailer, ptype_amap, ptype_nbt, ptype_bbt}

abbrev pub amap_bitmap_bytes : ℕ
amap_bitmap_bytes = 496

abbrev pub bytes_per_amap_bit : ℕ
bytes_per_amap_bit = 64

abbrev pub amap_coverage : ℕ
amap_coverage = amap_bitmap_bytes * 8 * bytes_per_amap_bit

-- The bytes of the coverage range that the file uses.
unfoldable pub allocated_bytes : ℕ → ℕ → ℕ
allocated_bytes ib_amap file_size =
    let coverage_end = u64 (ib_amap + amap_coverage) in
    let allocated_end = if ltb file_size coverage_end then file_size else coverage_end in
    if ltb ib_amap allocated_end then allocated_end - ib_amap else 0

-- `for (i = 0; i < cap; ++i) page[i] = 0xFF`
unfoldable pub fill_full : ℕ → ℕ → List ℕ → List ℕ
fill_full zero i page = page
fill_full (suc left) i page = fill_full left (i + 1) (set page i 0xff)

-- The bitmap, before the trailer.
unfoldable pub amap_bitmap : ℕ → List ℕ
amap_bitmap allocated =
    let total_bits = (allocated + bytes_per_amap_bit - 1) / bytes_per_amap_bit in
    let full_bytes = total_bits / 8 in
    let leftover = total_bits % 8 in
    let cap = if ltb full_bytes amap_bitmap_bytes then full_bytes else amap_bitmap_bytes in
    let page = fill_full cap 0 (zeros 512) in
    if not (leftover == 0) && ltb cap amap_bitmap_bytes
    then set page cap (u8 (2 ^ leftover - 1))
    else page

unfoldable pub build_amap : Ib → ℕ → List ℕ
unfolding allocated_bytes amap_bitmap
build_amap ib_amap file_size =
    write_page_trailer (amap_bitmap (allocated_bytes ib_amap.value file_size)) ptype_amap
      (make_amap ib_amap.value) ib_amap

-- The control bytes behind the entries: cEnt, cEntMax, cbEnt, cLevel and four bytes of padding.
unfoldable pub write_controls : ℕ → ℕ → ℕ → ℕ → List ℕ → List ℕ
write_controls c_ent c_ent_max cb_ent c_level page =
    let p1 = write_u8 page 488 c_ent in
    let p2 = write_u8 p1 489 c_ent_max in
    let p3 = write_u8 p2 490 cb_ent in let p4 = write_u8 p3 491 c_level in write_u32 p4 492 0

unfoldable pub build_empty_bt_leaf : ℕ → ℕ → Bid → Ib → List ℕ
build_empty_bt_leaf page_type cb_ent bid ib =
    write_page_trailer (write_controls 0 (u8 (488 / cb_ent)) (u8 cb_ent) 0 (zeros 512)) page_type
      bid ib

unfoldable pub build_empty_nbt_leaf : Bid → Ib → List ℕ
unfolding build_empty_bt_leaf
build_empty_nbt_leaf bid ib = build_empty_bt_leaf ptype_nbt 32 bid ib

unfoldable pub build_empty_bbt_leaf : Bid → Ib → List ℕ
unfolding build_empty_bt_leaf
build_empty_bbt_leaf bid ib = build_empty_bt_leaf ptype_bbt 24 bid ib

pub record BbtEntry : Type 0 where
  pub bref : Bref
  pub cb : ℕ
  pub c_ref : ℕ

pub record BtEntry : Type 0 where
  pub btkey : ℕ
  pub bref : Bref

abbrev pub bt_max_entries : ℕ
bt_max_entries = 20

unfoldable pub write_bbt_entry : ℕ → BbtEntry → List ℕ → List ℕ
write_bbt_entry off e page =
    let p1 = write_u64 page (off + 0) e.bref.bid.value in
    let p2 = write_u64 p1 (off + 8) e.bref.ib.value in
    let p3 = write_u16 p2 (off + 16) e.cb in
    let p4 = write_u16 p3 (off + 18) e.c_ref in write_u32 p4 (off + 20) 0

unfoldable pub write_bt_entry : ℕ → BtEntry → List ℕ → List ℕ
write_bt_entry off e page =
    let p1 = write_u64 page (off + 0) e.btkey in
    let p2 = write_u64 p1 (off + 8) e.bref.bid.value in write_u64 p2 (off + 16) e.bref.ib.value

-- `for (i = 0; i < count; ++i)` over entries of `size` bytes each.
unfoldable pub write_entries {ℓ} :
    {E : Type ℓ} → (ℕ → E → List ℕ → List ℕ) → ℕ → ℕ → List E → List ℕ → List ℕ
write_entries write size i [] page = page
write_entries write size i (e ∷ es) page =
    write_entries write size (i + 1) es (write (i * size) e page)

-- Entries beyond the twentieth are dropped without a word.
unfoldable pub build_bbt_leaf : List BbtEntry → Bid → Ib → List ℕ
build_bbt_leaf entries bid ib =
    let kept = take bt_max_entries entries in
    let page = write_entries write_bbt_entry 24 0 kept (zeros 512) in
    write_page_trailer (write_controls (u8 (length kept)) bt_max_entries 24 0 page) ptype_bbt bid ib

unfoldable pub build_bbt_intermediate : List BtEntry → ℕ → Bid → Ib → List ℕ
build_bbt_intermediate entries c_level bid ib =
    let kept = take bt_max_entries entries in
    let page = write_entries write_bt_entry 24 0 kept (zeros 512) in
    write_page_trailer (write_controls (u8 (length kept)) bt_max_entries 24 c_level page) ptype_bbt
      bid ib
