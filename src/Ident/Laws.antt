-- ===== src/Ident/Laws.antt =====
-- include/pstwriter/types.hpp: ids and the fields that they are made of.
use pst_dev.Prelude.{ℕ, ◌+◌, ◌*◌, ◌/◌, ◌%◌, ◌^◌, ◌<◌, ◌≡◌, arith, bit_and, true, false}
use pst_dev.Prelude.Bits.{bit_and_ones, bit_or_shift, bit_and_low}
use pst_dev.Ident.{
  make_nid, nid_type, nid_index, make_data, make_internal, is_internal, is_data, bid_index,
  make_prop_tag, prop_id, prop_type,
}

pub make_nid_value : (t idx : ℕ) → (make_nid t idx).value ≡ idx % 2 ^ 27 * 32 + t % 32
unfolding make_nid
make_nid_value t idx =
    rw (bit_and_ones 27 idx, bit_and_ones 5 t)
      (bit_or_shift 5 (idx % 2 ^ 27) (t % 32) (omega arith))

-- A node id made of a type and an index holds the low 5 bits of the one and the low 27 bits of
-- the other, gives each back, and fits 32 bits.
pub make_nid_fields :
    (t idx : ℕ)
    → (nid_type (make_nid t idx) ≡ t % 32)
      × (nid_index (make_nid t idx) ≡ idx % 2 ^ 27)
      × ((make_nid t idx).value < 2 ^ 32)
unfolding nid_type nid_index
make_nid_fields t idx =
    let e = make_nid_value t idx in
    (omega (arith, bit_and_ones 5 (make_nid t idx).value), omega arith, omega arith)

-- Within 27 bits, two indices of one type make two ids.
pub make_nid_injective :
    (t i j : ℕ) → i < 2 ^ 27 → j < 2 ^ 27 → (make_nid t i).value ≡ (make_nid t j).value → i ≡ j
make_nid_injective t i j hi hj e = omega (arith, make_nid_value t i, make_nid_value t j)

-- Bit 1.
bit_one : (x : ℕ) → bit_and x 2 ≡ x / 2 % 2 * 2
bit_one x = omega (arith, bit_and_low x 2, bit_and_ones 1 (x / 2))

internal_value : (idx : ℕ) → (make_internal idx).value ≡ idx % 2 ^ 62 * 4 + 2
unfolding make_internal
internal_value idx = rw (bit_and_ones 62 idx) (bit_or_shift 2 (idx % 2 ^ 62) 2 (omega arith))

data_value : (idx : ℕ) → (make_data idx).value ≡ idx % 2 ^ 62 * 4
unfolding make_data
data_value idx = rw (bit_and_ones 62 idx) (omega arith)

-- A data id and an internal id are told apart by the flag, whatever their indices, both leave
-- the reserved lowest bit 0, both give the low 62 bits of their index back, and both fit 64 bits.
pub make_bid_fields :
    (i j : ℕ)
    → (is_data (make_data i) ≡ true)
      × (is_internal (make_data i) ≡ false)
      × (is_internal (make_internal j) ≡ true)
      × (is_data (make_internal j) ≡ false)
      × ((make_data i).value % 2 ≡ 0)
      × ((make_internal j).value % 2 ≡ 0)
      × (bid_index (make_data i) ≡ i % 2 ^ 62)
      × (bid_index (make_internal j) ≡ j % 2 ^ 62)
      × ((make_data i).value < 2 ^ 64)
      × ((make_internal j).value < 2 ^ 64)
unfolding is_internal is_data bid_index
make_bid_fields i j =
    let d = data_value i in
    let n = internal_value j in
    let bd = bit_one (make_data i).value in
    let bn = bit_one (make_internal j).value in
    (
      ground arith,
      ground arith,
      ground arith,
      ground arith,
      omega arith,
      omega arith,
      omega arith,
      omega arith,
      omega arith,
      omega arith,
    )

-- A property tag gives back its 16-bit id and its 16-bit type.
pub make_prop_tag_fields :
    (i t : ℕ)
    → i < 2 ^ 16
    → t < 2 ^ 16
    → (prop_id (make_prop_tag i t) ≡ i) × (prop_type (make_prop_tag i t) ≡ t)
unfolding make_prop_tag prop_id prop_type
make_prop_tag_fields i t hi ht =
    let whole : i * 2 ^ 16 % 2 ^ 32 ≡ i * 2 ^ 16 = omega arith in
    let value = bit_or_shift 16 i t ht in
    (
      rw (whole, value) (omega arith),
      rw (whole, value, bit_and_ones 16 (i * 2 ^ 16 + t)) (omega arith),
    )
