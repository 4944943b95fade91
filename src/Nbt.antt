-- ===== src/Nbt.antt =====
-- include/pstwriter/nbt.hpp and src/nbt.cpp: the node tree's pages and their reader.
pub mod Reader
pub mod Leaf
pub mod Find
pub mod Sort
pub mod Tree
mod Tests
use pst_dev.Prelude.{
  ℕ, zero, suc, ◌+◌, ◌-◌, ◌*◌, ◌/◌, ◌%◌, ◌^◌, ◌<◌, List, [], ◌∷◌, ◌++◌, Bool, true, false, ◌==◌,
  ◌&&◌, ◌||◌, not, ltb, leb, min, if◌then◌else◌, length, take, drop, set, Option, none, some,
}
use pst_dev.Prelude.Sort.{sort_by}
use pst_dev.Bytes.{
  zeros, byte_at, u8, u32, write_u8, write_u16, write_u32, write_u64, read_u32, read_u64,
}
use pst_dev.Ident.{Nid, Bid, Ib, Bref}
use pst_dev.Crc.{crc32}
use pst_dev.Ndb.{write_page_trailer, ptype_nbt, ptype_bbt}
use pst_dev.Page.{BtEntry, write_bt_entry, write_entries, write_controls}

pub record NbtEntry : Type 0 where
  pub nid : Nid
  pub bid_data : Bid
  pub bid_sub : Bid
  pub nid_parent : Nid

abbrev pub nbt_leaf_max_entries : ℕ
nbt_leaf_max_entries = 15

abbrev pub bt_intermediate_max_entries : ℕ
bt_intermediate_max_entries = 20

-- The exceptions of this file. `fault` is a read outside the file, which C++ leaves undefined.
pub data NbtError : Type 0 where
  too_many_entries : NbtError
  bad_level : NbtError
  bad_ptype : NbtError
  too_many_leaves : NbtError
  past_eof : NbtError
  not_nbt : NbtError
  ptype_mismatch : NbtError
  too_many_counted : NbtError
  bad_entry_size : NbtError
  level_too_deep : NbtError
  crc_mismatch : NbtError
  empty_intermediate : NbtError
  child_not_leaf : NbtError

pub data Result {ℓ} (A : Type ℓ) : Type ℓ where
  ok : A → Result A
  throw : NbtError → Result A
  fault : Result A

infixl 5 ◌>>=◌
abbrev pub ◌>>=◌ {ℓ κ} : {A : Type ℓ} {B : Type κ} → Result A → (A → Result B) → Result B
ok a >>= f = f a
throw e >>= f = throw e
fault >>= f = fault

abbrev pub nid_key : NbtEntry → ℕ
nid_key e = e.nid.value

abbrev pub bt_key : BtEntry → ℕ
bt_key e = e.btkey

unfoldable pub write_nbt_entry : ℕ → NbtEntry → List ℕ → List ℕ
write_nbt_entry off e page =
    let p1 = write_u32 page (off + 0) e.nid.value in
    let p2 = write_u32 p1 (off + 4) 0 in
    let p3 = write_u64 p2 (off + 8) e.bid_data.value in
    let p4 = write_u64 p3 (off + 16) e.bid_sub.value in
    let p5 = write_u32 p4 (off + 24) e.nid_parent.value in write_u32 p5 (off + 28) 0

-- The page that `buildNbtLeaf` makes of entries in order.
unfoldable pub nbt_leaf_page : List NbtEntry → Bid → Ib → List ℕ
nbt_leaf_page sorted bid ib =
    let page = write_entries write_nbt_entry 32 0 sorted (zeros 512) in
    write_page_trailer (write_controls (u8 (length sorted)) nbt_leaf_max_entries 32 0 page)
      ptype_nbt bid ib

unfoldable pub build_nbt_leaf : List NbtEntry → Bid → Ib → Result (List ℕ)
build_nbt_leaf entries bid ib =
    if ltb nbt_leaf_max_entries (length entries)
    then throw too_many_entries
    else ok (nbt_leaf_page (sort_by nid_key entries) bid ib)

unfoldable pub bt_intermediate_page : List BtEntry → ℕ → ℕ → Bid → Ib → List ℕ
bt_intermediate_page sorted c_level ptype bid ib =
    let page = write_entries write_bt_entry 24 0 sorted (zeros 512) in
    write_page_trailer
      (write_controls (u8 (length sorted)) bt_intermediate_max_entries 24 c_level page) ptype bid ib

unfoldable pub build_bt_intermediate : List BtEntry → ℕ → ℕ → Bid → Ib → Result (List ℕ)
build_bt_intermediate entries c_level ptype bid ib =
    if ltb bt_intermediate_max_entries (length entries)
    then throw too_many_entries
    else if c_level == 0
    then throw bad_level
    else if not (ptype == ptype_nbt) && not (ptype == ptype_bbt)
    then throw bad_ptype
    else ok (bt_intermediate_page (sort_by bt_key entries) c_level ptype bid ib)
