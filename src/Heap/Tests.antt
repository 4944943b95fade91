-- ===== src/Heap/Tests.antt =====
-- A heap id, and two keys of two bytes.
use pst_dev.Prelude.{ℕ, ◌%◌, ◌^◌, ◌<◌, ◌≡◌, ◌↔◌, arith, List, [], ◌∷◌, true}
use pst_dev.Bytes.Laws.{IsBytes, read_le}
use pst_dev.Crc.Detect.{AllBytes-IsBytes}
use pst_dev.Heap.{make_hid, hid_type, hid_index, hid_block, key_less}
use pst_dev.Heap.Laws.{make_hid_fields, key_less_lem}

make_hid_fields_example :
    (hid_type (make_hid 3 1 0) ≡ 0 % 32)
    × (hid_index (make_hid 3 1 0) ≡ 3 % 2048)
    × (hid_block (make_hid 3 1 0) ≡ 1)
    × (make_hid 3 1 0 < 2 ^ 32)
make_hid_fields_example = make_hid_fields 3 1 0 (omega arith)

abbrev small : List ℕ
small = 0xff ∷ 0x01 ∷ []

abbrev large : List ℕ
large = 0x00 ∷ 0x02 ∷ []

small-IsBytes : IsBytes small
small-IsBytes = AllBytes-IsBytes small (omega arith, (omega arith, tt))

large-IsBytes : IsBytes large
large-IsBytes = AllBytes-IsBytes large (omega arith, (omega arith, tt))

key_less_lem_example : (key_less small large 2 ≡ true) ↔ (read_le 2 small 0 < read_le 2 large 0)
key_less_lem_example = key_less_lem small large 2 small-IsBytes large-IsBytes
