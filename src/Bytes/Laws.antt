-- ===== src/Bytes/Laws.antt =====
-- include/pstwriter/types.hpp: little-endian writes and reads of any width.
use pst_dev.Prelude.{
  ℕ, zero, suc, ◌+◌, ◌*◌, ◌/◌, ◌%◌, ◌^◌, ◌≤◌, ◌<◌, ◌≡◌, refl, ap, ◌∙◌, arith, List, [], ◌∷◌,
}
use native.Mathlib.Nat.{
  pow-suc, one-le-pow, mod-lt, mod-eq_of_lt, div-add-mod, add-mul-mod_self_right,
}
use pst_dev.Prelude.{◌⊎◌, length, set, length-set, bit_and, bit_or, ◌==◌, if◌then◌else◌}
use pst_dev.Prelude.Bits.{bit_and_ones, bit_or_shift, bit_or_comm}
use pst_dev.Bytes.{byte_at, zeros, write_u16, write_u32, write_u64, read_u16, read_u32, read_u64}

pub byte_at-set :
    (buf : List ℕ) (i j v : ℕ)
    → i < length buf
    → byte_at (set buf i v) j ≡ (if i == j then v else byte_at buf j)
byte_at-set [] i j v h = absurd (omega arith)
byte_at-set (x ∷ xs) zero zero v h = refl
byte_at-set (x ∷ xs) zero (suc j) v h = ground arith
byte_at-set (x ∷ xs) (suc i) zero v h = ground arith
byte_at-set (x ∷ xs) (suc i) (suc j) v h = ground (arith, byte_at-set xs i j v (omega arith))

low_byte : (v : ℕ) → bit_and v 0xff ≡ v % 256
low_byte v = bit_and_ones 8 v

-- The write as a loop over the bytes, lowest first.
unfoldable pub write_le : ℕ → List ℕ → ℕ → ℕ → List ℕ
write_le zero buf off v = buf
write_le (suc n) buf off v = write_le n (set buf off (v % 256)) (off + 1) (v / 256)

-- The read as a sum.
unfoldable pub read_le : ℕ → List ℕ → ℕ → ℕ
read_le zero buf off = 0
read_le (suc n) buf off = byte_at buf off + 256 * read_le n buf (off + 1)

pub write_u16-write_le : (buf : List ℕ) (off v : ℕ) → write_u16 buf off v ≡ write_le 2 buf off v
unfolding write_u16 write_le
write_u16-write_le buf off v = ground (arith, low_byte v, low_byte (v / 2 ^ 8))

pub write_u32-write_le : (buf : List ℕ) (off v : ℕ) → write_u32 buf off v ≡ write_le 4 buf off v
unfolding write_u32 write_le
write_u32-write_le buf off v =
    ground (arith, low_byte v, low_byte (v / 2 ^ 8), low_byte (v / 2 ^ 16), low_byte (v / 2 ^ 24))

pub write_u64-write_le : (buf : List ℕ) (off v : ℕ) → write_u64 buf off v ≡ write_le 8 buf off v
unfolding write_u64 write_le
write_u64-write_le buf off v = ground (
  arith,
  low_byte v,
  low_byte (v / 2 ^ 8),
  low_byte (v / 2 ^ 16),
  low_byte (v / 2 ^ 24),
  low_byte (v / 2 ^ 32),
  low_byte (v / 2 ^ 40),
  low_byte (v / 2 ^ 48),
  low_byte (v / 2 ^ 56),
)

-- Every byte fits eight bits.
abbrev pub IsBytes : List ℕ → Type 0
IsBytes buf = (i : ℕ) → byte_at buf i < 256

-- A higher byte joins the lower ones as a summand.
join : (k lo b : ℕ) → lo < 2 ^ k → bit_or lo (b * 2 ^ k) ≡ lo + b * 2 ^ k
join k lo b h = bit_or_comm lo (b * 2 ^ k) ∙ omega (arith, bit_or_shift k b lo h)

module _ (buf : List ℕ) (off : ℕ) (bytes : IsBytes buf) where
  pub read_u16-read_le : read_u16 buf off ≡ read_le 2 buf off
  unfolding read_u16 read_le
  read_u16-read_le =
      ground
        (arith, bytes off, bytes (off + 1), join 8 (byte_at buf (off + 0)) (byte_at buf (off + 1)))

  pub read_u32-read_le : read_u32 buf off ≡ read_le 4 buf off
  unfolding read_u32 read_le
  read_u32-read_le =
      rw
        (
          join 8 (byte_at buf (off + 0)) (byte_at buf (off + 1)) (omega (arith, bytes (off + 0))),
          join 16 (byte_at buf (off + 0) + byte_at buf (off + 1) * 2 ^ 8) (byte_at buf (off + 2))
              (omega (arith, bytes (off + 0), bytes (off + 1))),
          join 24
              (byte_at buf (off + 0)
                + byte_at buf (off + 1) * 2 ^ 8
                + byte_at buf (off + 2) * 2 ^ 16)
              (byte_at buf (off + 3))
              (omega (arith, bytes (off + 0), bytes (off + 1), bytes (off + 2))),
        )
        (ground arith)

  pub read_u64-read_le : read_u64 buf off ≡ read_le 8 buf off
  unfolding read_u64 read_le
  read_u64-read_le =
      rw
        (
          join 8 (byte_at buf (off + 0)) (byte_at buf (off + 1)) (omega (arith, bytes (off + 0))),
          join 16 (byte_at buf (off + 0) + byte_at buf (off + 1) * 2 ^ 8) (byte_at buf (off + 2))
              (omega (arith, bytes (off + 0), bytes (off + 1))),
          join 24
              (byte_at buf (off + 0)
                + byte_at buf (off + 1) * 2 ^ 8
                + byte_at buf (off + 2) * 2 ^ 16)
              (byte_at buf (off + 3))
              (omega (arith, bytes (off + 0), bytes (off + 1), bytes (off + 2))),
          join 32
              (byte_at buf (off + 0)
                + byte_at buf (off + 1) * 2 ^ 8
                + byte_at buf (off + 2) * 2 ^ 16
                + byte_at buf (off + 3) * 2 ^ 24)
              (byte_at buf (off + 4))
              (omega (arith, bytes (off + 0), bytes (off + 1), bytes (off + 2), bytes (off + 3))),
          join 40
              (byte_at buf (off + 0)
                + byte_at buf (off + 1) * 2 ^ 8
                + byte_at buf (off + 2) * 2 ^ 16
                + byte_at buf (off + 3) * 2 ^ 24
                + byte_at buf (off + 4) * 2 ^ 32)
              (byte_at buf (off + 5))
              (omega (
                arith,
                bytes (off + 0),
                bytes (off + 1),
                bytes (off + 2),
                bytes (off + 3),
                bytes (off + 4),
              )),
          join 48
              (byte_at buf (off + 0)
                + byte_at buf (off + 1) * 2 ^ 8
                + byte_at buf (off + 2) * 2 ^ 16
                + byte_at buf (off + 3) * 2 ^ 24
                + byte_at buf (off + 4) * 2 ^ 32
                + byte_at buf (off + 5) * 2 ^ 40)
              (byte_at buf (off + 6))
              (omega (
                arith,
                bytes (off + 0),
                bytes (off + 1),
                bytes (off + 2),
                bytes (off + 3),
                bytes (off + 4),
                bytes (off + 5),
              )),
          join 56
              (byte_at buf (off + 0)
                + byte_at buf (off + 1) * 2 ^ 8
                + byte_at buf (off + 2) * 2 ^ 16
                + byte_at buf (off + 3) * 2 ^ 24
                + byte_at buf (off + 4) * 2 ^ 32
                + byte_at buf (off + 5) * 2 ^ 40
                + byte_at buf (off + 6) * 2 ^ 48)
              (byte_at buf (off + 7))
              (omega (
                arith,
                bytes (off + 0),
                bytes (off + 1),
                bytes (off + 2),
                bytes (off + 3),
                bytes (off + 4),
                bytes (off + 5),
                bytes (off + 6),
              )),
        )
        (ground arith)

pub length-write_le :
    (n : ℕ) (buf : List ℕ) (off v : ℕ) → length (write_le n buf off v) ≡ length buf
unfolding write_le
length-write_le zero buf off v = refl
length-write_le (suc n) buf off v =
    length-write_le n (set buf off (v % 256)) (off + 1) (v / 256) ∙ length-set buf off (v % 256)

-- A write changes only its own bytes.
pub byte_at-write_le_other :
    (n : ℕ) (buf : List ℕ) (off v j : ℕ)
    → off + n ≤ length buf
    → (j < off) ⊎ (off + n ≤ j)
    → byte_at (write_le n buf off v) j ≡ byte_at buf j
unfolding write_le
byte_at-write_le_other zero buf off v j h d = refl
byte_at-write_le_other (suc n) buf off v j h d = ground (
  arith,
  length-set buf off (v % 256),
  byte_at-write_le_other n (set buf off (v % 256)) (off + 1) (v / 256) j,
  byte_at-set buf off j (v % 256),
)

pub read_le-write_le_other :
    (m n : ℕ) (buf : List ℕ) (off v at : ℕ)
    → off + n ≤ length buf
    → (at + m ≤ off) ⊎ (off + n ≤ at)
    → read_le m (write_le n buf off v) at ≡ read_le m buf at
unfolding read_le
read_le-write_le_other zero n buf off v at h d = refl
read_le-write_le_other (suc m) n buf off v at h d =
    ground
      (arith, byte_at-write_le_other n buf off v at, read_le-write_le_other m n buf off v (at + 1))

mod_split : (v n : ℕ) → v % 256 ^ suc n ≡ v % 256 + 256 * (v / 256 % 256 ^ n)
mod_split v n =
    let m = 256 ^ n in
    let wide : 256 ^ suc n ≡ 256 * m = omega (arith, pow-suc 256 n) in
    let low = v % 256 + 256 * (v / 256 % m) in
    let whole : v ≡ low + v / 256 / m * (256 * m) = omega (arith, div-add-mod (v / 256) m) in
    let fits : low < 256 * m = omega (arith, mod-lt (v / 256) (one-le-pow n 256 (omega arith))) in
    rw wide (
      ap (λ (t : ℕ). t % (256 * m)) whole
      ∙ add-mul-mod_self_right low (v / 256 / m) (256 * m)
      ∙ mod-eq_of_lt fits)

-- A read gives back what was written, cut to the width.
pub read_le-write_le :
    (n : ℕ) (buf : List ℕ) (off v : ℕ)
    → off + n ≤ length buf
    → read_le n (write_le n buf off v) off ≡ v % 256 ^ n
unfolding read_le write_le
read_le-write_le zero buf off v h = omega arith
read_le-write_le (suc n) buf off v h = ground (
  arith,
  length-set buf off (v % 256),
  byte_at-write_le_other n (set buf off (v % 256)) (off + 1) (v / 256) off,
  byte_at-set buf off off (v % 256),
  read_le-write_le n (set buf off (v % 256)) (off + 1) (v / 256),
  mod_split v n,
)

pub IsBytes-set : (buf : List ℕ) (off v : ℕ) → v < 256 → IsBytes buf → IsBytes (set buf off v)
IsBytes-set [] off v h bytes i = omega arith
IsBytes-set (x ∷ xs) zero v h bytes zero = h
IsBytes-set (x ∷ xs) zero v h bytes (suc i) = bytes (suc i)
IsBytes-set (x ∷ xs) (suc off) v h bytes zero = bytes 0
IsBytes-set (x ∷ xs) (suc off) v h bytes (suc i) = IsBytes-set xs off v h (λ j. bytes (suc j)) i

pub IsBytes-write_le :
    (n : ℕ) (buf : List ℕ) (off v : ℕ) → IsBytes buf → IsBytes (write_le n buf off v)
unfolding write_le
IsBytes-write_le zero buf off v bytes = bytes
IsBytes-write_le (suc n) buf off v bytes =
    IsBytes-write_le n (set buf off (v % 256)) (off + 1) (v / 256)
      (IsBytes-set buf off (v % 256) (omega arith) bytes)

pub IsBytes-zeros : (n : ℕ) → IsBytes (zeros n)
IsBytes-zeros zero i = omega arith
IsBytes-zeros (suc n) zero = omega arith
IsBytes-zeros (suc n) (suc i) = IsBytes-zeros n i
