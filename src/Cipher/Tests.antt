-- ===== src/Cipher/Tests.antt =====
-- The ciphers on four bytes.
use pst_dev.Prelude.{ℕ, ◌≡◌, refl, arith, List, [], ◌∷◌}
use pst_dev.Crc.Detect.{AllBytes, AllBytes-IsBytes}
use pst_dev.Cipher.{encode_block, permute, mpbb_r, mpbb_crypt}
use pst_dev.Cipher.Decode.{decode_block, decode_block-encode_block}

abbrev text : List ℕ
text = 0x00 ∷ 0x07 ∷ 0x80 ∷ 0xff ∷ []

text_bytes : AllBytes text
text_bytes = (omega arith, (omega arith, (omega arith, (omega arith, tt))))

-- Two entries that the source checks.
table_start : (mpbb_r 0 ≡ 65) × (mpbb_r 7 ≡ 187)
unfolding mpbb_r mpbb_crypt
table_start = (refl, refl)

decode_block-encode_block_example :
    decode_block (encode_block text 3 permute 0x24) 3 permute 0x24 ≡ text
decode_block-encode_block_example =
    decode_block-encode_block text 3 permute 0x24 (AllBytes-IsBytes text text_bytes)
