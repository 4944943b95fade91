-- ===== src/Bytes.antt =====
-- include/pstwriter/types.hpp, namespace detail: the little-endian helpers that every on-disk
-- integer goes through. A buffer is a list of bytes; the pointer and the offset of the source
-- are one index. A byte that is written outside the buffer, undefined in C++, is dropped here,
-- and one that is read outside it is 0: the lemmas carry the bounds.
pub mod Laws
pub mod Copy
pub mod Words
pub mod Fields
mod Tests
use pst_dev.Prelude.{ℕ, ◌+◌, ◌*◌, ◌/◌, ◌%◌, ◌^◌, ◌<◌, bit_and, bit_or, List, [], ◌∷◌}
use pst_dev.Prelude.{set, get_or, take, drop, replicate}

-- `x >> k`, and `x << k` where no bit is lost.
infixl 72 ◌>>>◌ ◌<<<◌
abbrev pub ◌>>>◌ : ℕ → ℕ → ℕ
x >>> k = x / 2 ^ k

abbrev pub ◌<<<◌ : ℕ → ℕ → ℕ
x <<< k = x * 2 ^ k

-- Casts to the unsigned widths.
abbrev pub u8 : ℕ → ℕ
u8 x = x % 2 ^ 8

abbrev pub u16 : ℕ → ℕ
u16 x = x % 2 ^ 16

abbrev pub u32 : ℕ → ℕ
u32 x = x % 2 ^ 32

abbrev pub u64 : ℕ → ℕ
u64 x = x % 2 ^ 64

abbrev pub byte_at : List ℕ → ℕ → ℕ
byte_at buf i = get_or buf i 0

unfoldable pub write_u8 : List ℕ → ℕ → ℕ → List ℕ
write_u8 buf off v = set buf off v

unfoldable pub write_u16 : List ℕ → ℕ → ℕ → List ℕ
write_u16 buf off v =
    let b1 = set buf (off + 0) (bit_and v 0xff) in set b1 (off + 1) (bit_and (v >>> 8) 0xff)

unfoldable pub write_u32 : List ℕ → ℕ → ℕ → List ℕ
write_u32 buf off v =
    let b1 = set buf (off + 0) (bit_and v 0xff) in
    let b2 = set b1 (off + 1) (bit_and (v >>> 8) 0xff) in
    let b3 = set b2 (off + 2) (bit_and (v >>> 16) 0xff) in
    set b3 (off + 3) (bit_and (v >>> 24) 0xff)

unfoldable pub write_u64 : List ℕ → ℕ → ℕ → List ℕ
write_u64 buf off v =
    let b1 = set buf (off + 0) (bit_and v 0xff) in
    let b2 = set b1 (off + 1) (bit_and (v >>> 8) 0xff) in
    let b3 = set b2 (off + 2) (bit_and (v >>> 16) 0xff) in
    let b4 = set b3 (off + 3) (bit_and (v >>> 24) 0xff) in
    let b5 = set b4 (off + 4) (bit_and (v >>> 32) 0xff) in
    let b6 = set b5 (off + 5) (bit_and (v >>> 40) 0xff) in
    let b7 = set b6 (off + 6) (bit_and (v >>> 48) 0xff) in
    set b7 (off + 7) (bit_and (v >>> 56) 0xff)

unfoldable pub read_u16 : List ℕ → ℕ → ℕ
read_u16 buf off = u16 (bit_or (byte_at buf (off + 0)) (byte_at buf (off + 1) <<< 8))

unfoldable pub read_u32 : List ℕ → ℕ → ℕ
read_u32 buf off =
    let b0 = byte_at buf (off + 0) in
    let b1 = bit_or b0 (byte_at buf (off + 1) <<< 8) in
    let b2 = bit_or b1 (byte_at buf (off + 2) <<< 16) in bit_or b2 (byte_at buf (off + 3) <<< 24)

unfoldable pub read_u64 : List ℕ → ℕ → ℕ
read_u64 buf off =
    let b0 = byte_at buf (off + 0) in
    let b1 = bit_or b0 (byte_at buf (off + 1) <<< 8) in
    let b2 = bit_or b1 (byte_at buf (off + 2) <<< 16) in
    let b3 = bit_or b2 (byte_at buf (off + 3) <<< 24) in
    let b4 = bit_or b3 (byte_at buf (off + 4) <<< 32) in
    let b5 = bit_or b4 (byte_at buf (off + 5) <<< 40) in
    let b6 = bit_or b5 (byte_at buf (off + 6) <<< 48) in bit_or b6 (byte_at buf (off + 7) <<< 56)

-- memcpy into the buffer.
unfoldable pub write_bytes : List ℕ → ℕ → List ℕ → List ℕ
write_bytes buf off [] = buf
write_bytes buf off (b ∷ bs) = write_bytes (set buf off b) (off + 1) bs

-- The bytes `buf[off .. off + n)`.
abbrev pub slice : List ℕ → ℕ → ℕ → List ℕ
slice buf off n = take n (drop off buf)

-- A buffer that the constructor of std::vector or std::array fills with zeros.
abbrev pub zeros : ℕ → List ℕ
zeros n = replicate n 0
