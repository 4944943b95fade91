-- ===== src/Ident.antt =====
-- include/pstwriter/types.hpp: node ids, block ids, file offsets, property tags. An enumeration
-- with a fixed width is the number that it holds, since the source casts any number to it.
pub mod Laws
mod Tests
use pst_dev.Prelude.{ℕ, ◌+◌, ◌*◌, ◌/◌, ◌^◌, bit_and, bit_or, Bool, not, ◌&&◌, ◌==◌}
use pst_dev.Bytes.{◌>>>◌, ◌<<<◌, u16, u32}

pub record Nid : Type 0 where
  pub value : ℕ

-- The constructor from a type and an index: 27 bits of the index above 5 bits of the type.
unfoldable pub make_nid : ℕ → ℕ → Nid
make_nid t idx = record { value = bit_or (bit_and idx 0x07ffffff <<< 5) (bit_and t 0x1f) }

unfoldable pub nid_type : Nid → ℕ
nid_type n = bit_and n.value 0x1f

unfoldable pub nid_index : Nid → ℕ
nid_index n = n.value >>> 5

pub record Bid : Type 0 where
  pub value : ℕ

unfoldable pub make_data : ℕ → Bid
make_data idx = record { value = bit_and idx 0x3fffffffffffffff <<< 2 }

unfoldable pub make_internal : ℕ → Bid
make_internal idx = record { value = bit_or (bit_and idx 0x3fffffffffffffff <<< 2) 0x2 }

-- The block id of an allocation map page is its own file offset.
unfoldable pub make_amap : ℕ → Bid
make_amap ib = record { value = ib }

unfoldable pub is_internal : Bid → Bool
is_internal b = not (bit_and b.value 0x2 == 0)

unfoldable pub is_data : Bid → Bool
is_data b = bit_and b.value 0x2 == 0

unfoldable pub bid_index : Bid → ℕ
bid_index b = b.value >>> 2

pub record Ib : Type 0 where
  pub value : ℕ

pub record Bref : Type 0 where
  pub bid : Bid
  pub ib : Ib

unfoldable pub bref_eq : Bref → Bref → Bool
bref_eq a b = (a.bid.value == b.bid.value) && (a.ib.value == b.ib.value)

pub record PropTag : Type 0 where
  pub value : ℕ

unfoldable pub make_prop_tag : ℕ → ℕ → PropTag
make_prop_tag prop_id t = record { value = bit_or (u32 (prop_id <<< 16)) t }

unfoldable pub prop_id : PropTag → ℕ
prop_id p = u16 (p.value >>> 16)

unfoldable pub prop_type : PropTag → ℕ
prop_type p = bit_and p.value 0xffff
