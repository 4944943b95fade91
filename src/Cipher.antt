-- ===== src/Cipher.antt =====
-- src/encoding.cpp: the permutation and the cyclic cipher that hide a data block's payload.
mod Table
pub mod Tables
pub mod Decode
pub mod Shape
mod Tests
use pst_dev.Prelude.{
  ℕ, zero, suc, ◌+◌, ◌-◌, ◌<◌, List, [], ◌∷◌, bit_and, bit_xor, Bool, true, false, replicate, set,
  get_or, ◌==◌, if◌then◌else◌, ◌&&◌,
}
use pst_dev.Bytes.{◌>>>◌, byte_at, u8, u16}
unfoldable pub use Table.{mpbb_crypt}

-- types.hpp: CryptMethod.
pub data CryptMethod : Type 0 where
  crypt_none : CryptMethod
  permute : CryptMethod
  cyclic : CryptMethod

-- kMpbbR, kMpbbS, kMpbbI: the three parts of the table.
unfoldable pub mpbb_r : ℕ → ℕ
mpbb_r b = byte_at mpbb_crypt b

unfoldable pub mpbb_s : ℕ → ℕ
mpbb_s b = byte_at mpbb_crypt (256 + b)

unfoldable pub mpbb_i : ℕ → ℕ
mpbb_i b = byte_at mpbb_crypt (512 + b)

-- The loop of `isPermutation` at `i`, with the rounds left and the bytes seen.
unfoldable pub is_permutation_loop : (ℕ → ℕ) → ℕ → ℕ → List Bool → Bool
is_permutation_loop t zero i seen = true
is_permutation_loop t (suc left) i seen = elim (get_or seen (t i) false) [
  | true ↦ false
  | false ↦ is_permutation_loop t left (i + 1) (set seen (t i) true)
]

unfoldable pub is_permutation : (ℕ → ℕ) → Bool
unfolding is_permutation_loop
is_permutation t = is_permutation_loop t 256 0 (replicate 256 false)

-- `isInverseOf(a, b)` and `isInvolution(t)`: each loop as a recursion over the rounds left,
-- which stops at the first index that fails.
unfoldable pub is_inverse_of_loop : (ℕ → ℕ) → (ℕ → ℕ) → ℕ → ℕ → Bool
is_inverse_of_loop a b zero i = true
is_inverse_of_loop a b (suc left) i = (b (a i) == u8 i) && is_inverse_of_loop a b left (i + 1)

unfoldable pub is_inverse_of : (ℕ → ℕ) → (ℕ → ℕ) → Bool
unfolding is_inverse_of_loop
is_inverse_of a b = is_inverse_of_loop a b 256 0

unfoldable pub is_involution : (ℕ → ℕ) → Bool
unfolding is_inverse_of_loop
is_involution t = is_inverse_of_loop t t 256 0

-- In place on the first `length` bytes.
unfoldable pub encode_permute : List ℕ → ℕ → List ℕ
encode_permute buf zero = buf
encode_permute [] (suc length) = []
encode_permute (b ∷ bs) (suc length) = mpbb_r b ∷ encode_permute bs length

-- One byte of the cyclic cipher at counter `w`. 256 is added before a subtraction, which stops
-- at 0 on the natural numbers and wraps on uint8_t.
unfoldable pub cyclic_byte : ℕ → ℕ → ℕ
cyclic_byte w b0 =
    let lower = u8 (bit_and w 0xff) in
    let upper = u8 (w >>> 8) in
    let b1 = u8 (b0 + lower) in
    let b2 = mpbb_r b1 in
    let b3 = u8 (b2 + upper) in
    let b4 = mpbb_s b3 in
    let b5 = u8 (b4 + 256 - upper) in let b6 = mpbb_i b5 in u8 (b6 + 256 - lower)

-- The loop, with the counter that starts from the key.
unfoldable pub cyclic_loop : ℕ → ℕ → List ℕ → List ℕ
cyclic_loop zero w buf = buf
cyclic_loop (suc left) w [] = []
cyclic_loop (suc left) w (b ∷ bs) = cyclic_byte w b ∷ cyclic_loop left (u16 (w + 1)) bs

unfoldable pub encode_cyclic : List ℕ → ℕ → ℕ → List ℕ
unfolding cyclic_loop
encode_cyclic buf length key = cyclic_loop length (u16 (bit_xor key (key >>> 16))) buf

-- `encodeBlock` dispatches on the method; the key serves the cyclic cipher alone.
unfoldable pub encode_block : List ℕ → ℕ → CryptMethod → ℕ → List ℕ
encode_block buf length crypt_none key = buf
encode_block buf length permute key = encode_permute buf length
encode_block buf length cyclic key = encode_cyclic buf length key
