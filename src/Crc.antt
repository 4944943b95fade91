-- ===== src/Crc.antt =====
-- src/crc.cpp: the table-driven CRC-32 with initial value 0 and no final exclusive or.
mod Table
pub mod Bitwise
pub mod Detect
pub mod Prefix
mod Tests
use pst_dev.Prelude.{ℕ, zero, suc, List, [], ◌∷◌, bit_and, bit_xor}
use pst_dev.Bytes.{◌>>>◌, byte_at}
unfoldable pub use Table.{crc_table}

-- One round of the loop: `crc = (crc >> 8) ^ kCrcTable[(crc ^ b) & 0xFF]`.
unfoldable pub crc_update : ℕ → ℕ → ℕ
crc_update crc b = bit_xor (crc >>> 8) (byte_at crc_table (bit_and (bit_xor crc b) 0xff))

-- The loop with its rounds left. Past the end of the buffer, undefined in C++, a byte is 0.
unfoldable pub crc_loop : ℕ → List ℕ → ℕ → ℕ
crc_loop zero buf crc = crc
crc_loop (suc left) [] crc = crc_loop left [] (crc_update crc 0)
crc_loop (suc left) (b ∷ bs) crc = crc_loop left bs (crc_update crc b)

-- The early return for length 0 is the loop with no rounds.
unfoldable pub crc32 : List ℕ → ℕ → ℕ
unfolding crc_loop
crc32 buf length = crc_loop length buf 0
