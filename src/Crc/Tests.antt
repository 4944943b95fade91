-- ===== src/Crc/Tests.antt =====
-- The checksum of a few bytes.
use pst_dev.Prelude.{ℕ, ◌≡◌, ◌≢◌, refl, arith, List, [], ◌∷◌, ◌++◌, length, take}
use pst_dev.Crc.{crc32, crc_loop, crc_update, crc_table}
use pst_dev.Crc.Bitwise.{crc_bitwise, crc32-crc_bitwise}
use pst_dev.Crc.Detect.{AllBytes, AllBytes-IsBytes, crc32_one_byte}

abbrev text : List ℕ
text = 0x21 ∷ 0x42 ∷ 0x44 ∷ 0x4e ∷ []

text_bytes : AllBytes text
text_bytes = (omega arith, (omega arith, (omega arith, (omega arith, tt))))

-- The two entries of the table that the source checks.
table_first : crc32 (0x01 ∷ []) 1 ≡ 0x77073096
unfolding crc32 crc_loop crc_update crc_table
table_first = refl

table_middle : crc32 (0x80 ∷ []) 1 ≡ 0xedb88320
unfolding crc32 crc_loop crc_update crc_table
table_middle = refl

crc32-crc_bitwise_example : crc32 text 3 ≡ crc_bitwise (take 3 text) 0
crc32-crc_bitwise_example =
    crc32-crc_bitwise text 3 (omega arith) (AllBytes-IsBytes text text_bytes)

crc32_one_byte_example :
    crc32 (text ++ (0x10 ∷ text)) (length (text ++ (0x10 ∷ text)))
    ≢ crc32 (text ++ (0x90 ∷ text)) (length (text ++ (0x90 ∷ text)))
crc32_one_byte_example =
    crc32_one_byte text text 0x10 0x90 text_bytes text_bytes (omega arith) (omega arith)
      (omega arith)
