-- ===== src/Crc/Bitwise.antt =====
-- src/crc.cpp beside the bit-by-bit division by the reflected polynomial 0xEDB88320.
use pst_dev.Prelude.{
  ℕ, zero, suc, ◌*◌, ◌/◌, ◌%◌, ◌^◌, ◌≤◌, ◌<◌, ◌≡◌, refl, ap, ap₂, ◌∙◌, sym, arith, List, [], ◌∷◌,
  bit_xor, ◌==◌, if◌then◌else◌, length, take,
}
use pst_dev.Prelude.Bits.{
  bit_xor-half, bit_xor-mod_two, bit_xor_assoc, bit_xor_comm, bit_xor_self, bit_xor-zero,
  zero-bit_xor, bit_and_ones, bit_xor_shift, bit_xor-shr,
}
use pst_dev.Prelude.Range.{eq_below, holds_below}
use pst_dev.Bytes.{byte_at}
use pst_dev.Bytes.Laws.{IsBytes}
use native.Mathlib.Nat.{pow-suc}
use pst_dev.Crc.{crc_table, crc_update, crc_loop, crc32}

-- One bit of the division.
unfoldable pub poly_step : ℕ → ℕ
poly_step c = if c % 2 == 1 then bit_xor (c / 2) 0xedb88320 else c / 2

unfoldable pub poly_steps : ℕ → ℕ → ℕ
poly_steps zero c = c
poly_steps (suc k) c = poly_steps k (poly_step c)

-- Eight bits for each byte.
unfoldable pub crc_bitwise : List ℕ → ℕ → ℕ
crc_bitwise [] crc = crc
crc_bitwise (b ∷ bs) crc = crc_bitwise bs (poly_steps 8 (bit_xor crc b))

swap_middle :
    (a b c d : ℕ) → bit_xor (bit_xor a b) (bit_xor c d) ≡ bit_xor (bit_xor a c) (bit_xor b d)
swap_middle a b c d =
    bit_xor_assoc a b (bit_xor c d)
    ∙ ap (bit_xor a) (
        sym (bit_xor_assoc b c d)
        ∙ ap (λ (t : ℕ). bit_xor t d) (bit_xor_comm b c)
        ∙ bit_xor_assoc c b d)
    ∙ sym (bit_xor_assoc a c (bit_xor b d))

-- The polynomial where the lowest bit is set.
carry : ℕ → ℕ
carry c = if c % 2 == 1 then 0xedb88320 else 0

poly_step-carry : (c : ℕ) → poly_step c ≡ bit_xor (c / 2) (carry c)
unfolding poly_step carry
poly_step-carry c = ground (arith, bit_xor-zero (c / 2))

carry-bit_xor : (a b : ℕ) → carry (bit_xor a b) ≡ bit_xor (carry a) (carry b)
unfolding carry
carry-bit_xor a b = ground (
  arith,
  bit_xor-mod_two a b,
  bit_xor_self 0xedb88320,
  bit_xor-zero 0xedb88320,
  zero-bit_xor 0xedb88320,
  zero-bit_xor 0,
)

poly_step-bit_xor : (a b : ℕ) → poly_step (bit_xor a b) ≡ bit_xor (poly_step a) (poly_step b)
poly_step-bit_xor a b =
    rw
      (
        poly_step-carry (bit_xor a b),
        poly_step-carry a,
        poly_step-carry b,
        bit_xor-half a b,
        carry-bit_xor a b,
      )
      (swap_middle (a / 2) (b / 2) (carry a) (carry b))

pub poly_steps-bit_xor :
    (k a b : ℕ) → poly_steps k (bit_xor a b) ≡ bit_xor (poly_steps k a) (poly_steps k b)
unfolding poly_steps
poly_steps-bit_xor zero a b = refl
poly_steps-bit_xor (suc k) a b =
    ap (poly_steps k) (poly_step-bit_xor a b) ∙ poly_steps-bit_xor k (poly_step a) (poly_step b)

-- Low bits that are 0 are shifted out.
poly_step_even : (q : ℕ) → poly_step (2 * q) ≡ q
unfolding poly_step
poly_step_even q = ground arith

poly_steps_high : (k q : ℕ) → poly_steps k (q * 2 ^ k) ≡ q
unfolding poly_steps
poly_steps_high zero q = omega arith
poly_steps_high (suc k) q =
    ap (poly_steps k) (ap poly_step twice ∙ poly_step_even (q * 2 ^ k)) ∙ poly_steps_high k q
  where
    twice : q * 2 ^ suc k ≡ 2 * (q * 2 ^ k)
    twice = omega (arith, ap (λ (t : ℕ). q * t) (pow-suc 2 k))

table_entry : (i : ℕ) → i < 256 → byte_at crc_table i ≡ poly_steps 8 i
unfolding holds_below crc_table poly_steps poly_step
table_entry = eq_below 256 (byte_at crc_table) (poly_steps 8) refl

-- Eight steps on any word: the table holds what the low byte becomes.
poly_steps_table : (x : ℕ) → poly_steps 8 x ≡ bit_xor (x / 256) (byte_at crc_table (x % 256))
poly_steps_table x =
    ap (poly_steps 8) split
    ∙ poly_steps-bit_xor 8 (x / 256 * 256) (x % 256)
    ∙ ap₂ bit_xor (poly_steps_high 8 (x / 256)) (sym (table_entry (x % 256) (omega arith)))
  where
    split : x ≡ bit_xor (x / 256 * 256) (x % 256)
    split = omega (arith, bit_xor_shift 8 (x / 256) (x % 256) (omega arith))

pub crc_update-poly_steps : (crc b : ℕ) → b < 256 → crc_update crc b ≡ poly_steps 8 (bit_xor crc b)
unfolding crc_update
crc_update-poly_steps crc b h =
    ap₂ bit_xor upper (ap (byte_at crc_table) (bit_and_ones 8 (bit_xor crc b)))
    ∙ sym (poly_steps_table (bit_xor crc b))
  where
    upper : crc / 256 ≡ bit_xor crc b / 256
    upper =
        let gone : b / 256 ≡ 0 = omega arith in
        sym (bit_xor-shr 8 crc b ∙ ap (bit_xor (crc / 256)) gone ∙ bit_xor-zero (crc / 256))

crc_loop-crc_bitwise :
    (n : ℕ) (buf : List ℕ) (crc : ℕ)
    → n ≤ length buf
    → IsBytes buf
    → crc_loop n buf crc ≡ crc_bitwise (take n buf) crc
unfolding crc_loop crc_bitwise
crc_loop-crc_bitwise zero buf crc h bytes = refl
crc_loop-crc_bitwise (suc n) [] crc h bytes = absurd (omega arith)
crc_loop-crc_bitwise (suc n) (b ∷ bs) crc h bytes =
    ap (crc_loop n bs) (crc_update-poly_steps crc b (bytes 0))
    ∙ crc_loop-crc_bitwise n bs (poly_steps 8 (bit_xor crc b)) (omega arith) (λ i. bytes (suc i))

-- On the first `n` bytes of a buffer of bytes that has them, the table-driven `crc32` is the
-- bit-by-bit division of those bytes by the reflected polynomial 0xEDB88320, from 0.
pub crc32-crc_bitwise :
    (buf : List ℕ) (n : ℕ) → n ≤ length buf → IsBytes buf → crc32 buf n ≡ crc_bitwise (take n buf) 0
unfolding crc32
crc32-crc_bitwise buf n h bytes = crc_loop-crc_bitwise n buf 0 h bytes

-- The CRC of the exclusive or of two buffers of one size is the exclusive or of their CRCs.
pub xor_bytes : List ℕ → List ℕ → List ℕ
xor_bytes [] ys = []
xor_bytes (x ∷ xs) [] = []
xor_bytes (x ∷ xs) (y ∷ ys) = bit_xor x y ∷ xor_bytes xs ys

pub crc_bitwise-xor_bytes :
    (xs ys : List ℕ) (c d : ℕ)
    → length xs ≡ length ys
    → crc_bitwise (xor_bytes xs ys) (bit_xor c d) ≡ bit_xor (crc_bitwise xs c) (crc_bitwise ys d)
unfolding xor_bytes crc_bitwise
crc_bitwise-xor_bytes [] [] c d e = refl
crc_bitwise-xor_bytes [] (y ∷ ys) c d e = absurd (omega arith)
crc_bitwise-xor_bytes (x ∷ xs) [] c d e = absurd (omega arith)
crc_bitwise-xor_bytes (x ∷ xs) (y ∷ ys) c d e =
    ap (crc_bitwise (xor_bytes xs ys))
      (ap (poly_steps 8) (swap_middle c d x y) ∙ poly_steps-bit_xor 8 (bit_xor c x) (bit_xor d y))
    ∙ crc_bitwise-xor_bytes xs ys (poly_steps 8 (bit_xor c x)) (poly_steps 8 (bit_xor d y))
        (omega arith)
