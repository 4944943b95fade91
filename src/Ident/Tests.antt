-- ===== src/Ident/Tests.antt =====
-- Ids that a file holds.
use pst_dev.Prelude.{◌%◌, ◌^◌, ◌<◌, ◌≡◌, arith, true, false}
use pst_dev.Ident.{
  make_nid, nid_type, nid_index, make_data, make_internal, is_internal, is_data, bid_index,
  make_prop_tag, prop_id, prop_type,
}
use pst_dev.Ident.Laws.{make_nid_fields, make_bid_fields, make_prop_tag_fields}

make_nid_fields_example :
    (nid_type (make_nid 0x02 0x404) ≡ 0x02 % 32)
    × (nid_index (make_nid 0x02 0x404) ≡ 0x404 % 2 ^ 27)
    × ((make_nid 0x02 0x404).value < 2 ^ 32)
make_nid_fields_example = make_nid_fields 0x02 0x404

make_bid_fields_example :
    (is_data (make_data 1) ≡ true)
    × (is_internal (make_data 1) ≡ false)
    × (is_internal (make_internal 2) ≡ true)
    × (is_data (make_internal 2) ≡ false)
    × ((make_data 1).value % 2 ≡ 0)
    × ((make_internal 2).value % 2 ≡ 0)
    × (bid_index (make_data 1) ≡ 1 % 2 ^ 62)
    × (bid_index (make_internal 2) ≡ 2 % 2 ^ 62)
    × ((make_data 1).value < 2 ^ 64)
    × ((make_internal 2).value < 2 ^ 64)
make_bid_fields_example = make_bid_fields 1 2

make_prop_tag_fields_example :
    (prop_id (make_prop_tag 0x3001 0x001f) ≡ 0x3001)
    × (prop_type (make_prop_tag 0x3001 0x001f) ≡ 0x001f)
make_prop_tag_fields_example = make_prop_tag_fields 0x3001 0x001f (omega arith) (omega arith)
