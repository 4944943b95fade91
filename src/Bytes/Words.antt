-- ===== src/Bytes/Words.antt =====
-- include/pstwriter/types.hpp: the little-endian helpers one by one.
use pst_dev.Prelude.{ℕ, ◌+◌, ◌^◌, ◌≤◌, ◌<◌, ◌≡◌, ◌∙◌, arith, List, length, ◌⊎◌}
use native.Mathlib.Nat.{mod-eq_of_lt}
use pst_dev.Bytes.{byte_at, write_u8, write_u16, write_u32, write_u64, read_u16, read_u32, read_u64}
use pst_dev.Bytes.Laws.{
  write_le, read_le, IsBytes, IsBytes-write_le, length-write_le, read_le-write_le,
  byte_at-write_le_other, write_u16-write_le, write_u32-write_le, write_u64-write_le,
  read_u16-read_le, read_u32-read_le, read_u64-read_le,
}

pub write_u8-write_le :
    (buf : List ℕ) (off v : ℕ) → v < 256 → write_u8 buf off v ≡ write_le 1 buf off v
unfolding write_u8 write_le
write_u8-write_le buf off v h = rw (mod-eq_of_lt h)

pub byte_at-read_le : (buf : List ℕ) (off : ℕ) → byte_at buf off ≡ read_le 1 buf off
unfolding read_le
byte_at-read_le buf off = omega arith

module _ (buf : List ℕ) (off v : ℕ) (bytes : IsBytes buf) where
  pub read_u16-write_u16 :
      off + 2 ≤ length buf → v < 2 ^ 16 → read_u16 (write_u16 buf off v) off ≡ v
  read_u16-write_u16 h f = rw write_u16-write_le (
      read_u16-read_le (write_le 2 buf off v) off (IsBytes-write_le 2 buf off v bytes)
      ∙ read_le-write_le 2 buf off v h
      ∙ mod-eq_of_lt f)

  pub read_u32-write_u32 :
      off + 4 ≤ length buf → v < 2 ^ 32 → read_u32 (write_u32 buf off v) off ≡ v
  read_u32-write_u32 h f = rw write_u32-write_le (
      read_u32-read_le (write_le 4 buf off v) off (IsBytes-write_le 4 buf off v bytes)
      ∙ read_le-write_le 4 buf off v h
      ∙ mod-eq_of_lt f)

  pub read_u64-write_u64 :
      off + 8 ≤ length buf → v < 2 ^ 64 → read_u64 (write_u64 buf off v) off ≡ v
  read_u64-write_u64 h f = rw write_u64-write_le (
      read_u64-read_le (write_le 8 buf off v) off (IsBytes-write_le 8 buf off v bytes)
      ∙ read_le-write_le 8 buf off v h
      ∙ mod-eq_of_lt f)

-- Writing a 64-bit value and reading it back at the same offset of a buffer of bytes that has
-- room for it gives the value; a byte before or behind the eight is kept, and the buffer keeps its
-- size and holds bytes still.
pub read_u64-write_u64_frame :
    (buf : List ℕ) (off v j : ℕ)
    → IsBytes buf
    → off + 8 ≤ length buf
    → v < 2 ^ 64
    → (j < off) ⊎ (off + 8 ≤ j)
    → (read_u64 (write_u64 buf off v) off ≡ v)
      × (byte_at (write_u64 buf off v) j ≡ byte_at buf j)
      × (length (write_u64 buf off v) ≡ length buf)
      × IsBytes (write_u64 buf off v)
read_u64-write_u64_frame buf off v j bytes h f d = (
  read_u64-write_u64 buf off v bytes h f,
  rw write_u64-write_le (byte_at-write_le_other 8 buf off v j h d),
  rw write_u64-write_le (length-write_le 8 buf off v),
  rw write_u64-write_le (IsBytes-write_le 8 buf off v bytes),
)
