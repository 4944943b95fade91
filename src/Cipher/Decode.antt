-- ===== src/Cipher/Decode.antt =====
-- src/encoding.cpp: the encodings and their decoders.
use pst_dev.Prelude.{
  ℕ, zero, suc, ◌+◌, ◌-◌, ◌/◌, ◌%◌, ◌^◌, ◌<◌, ◌≡◌, refl, ap₂, arith, List, [], ◌∷◌, bit_and,
}
use pst_dev.Prelude.Bits.{bit_and_ones}
use pst_dev.Bytes.{u16}
use pst_dev.Bytes.Laws.{IsBytes}
use pst_dev.Cipher.{
  CryptMethod, crypt_none, permute, cyclic, mpbb_r, mpbb_s, mpbb_i, encode_permute, cyclic_byte,
  cyclic_loop, encode_cyclic, encode_block,
}
use pst_dev.Cipher.Tables.{
  mpbb_i-mpbb_r, mpbb_r-mpbb_i, mpbb_s-mpbb_s, mpbb_r-lt, mpbb_s-lt, mpbb_i-lt,
}

-- [MS-PST] 5.1: a reader of a permuted block applies the third table.
unfoldable pub decode_permute : List ℕ → ℕ → List ℕ
decode_permute buf zero = buf
decode_permute [] (suc n) = []
decode_permute (b ∷ bs) (suc n) = mpbb_i b ∷ decode_permute bs n

-- What a reader does to the payload of a block, by its method.
unfoldable pub decode_block : List ℕ → ℕ → CryptMethod → ℕ → List ℕ
decode_block buf n crypt_none key = buf
decode_block buf n permute key = decode_permute buf n
decode_block buf n cyclic key = encode_cyclic buf n key

pub decode_permute-encode_permute :
    (buf : List ℕ) (n : ℕ) → IsBytes buf → decode_permute (encode_permute buf n) n ≡ buf
unfolding decode_permute encode_permute
decode_permute-encode_permute buf zero bytes = refl
decode_permute-encode_permute [] (suc n) bytes = refl
decode_permute-encode_permute (b ∷ bs) (suc n) bytes =
    ap₂ ◌∷◌ (mpbb_i-mpbb_r b (bytes 0)) (decode_permute-encode_permute bs n (λ i. bytes (suc i)))

-- The cipher on one byte, with the two halves of the counter as numbers.
mix : ℕ → ℕ → ℕ → ℕ
mix lower upper b =
    (mpbb_i ((mpbb_s ((mpbb_r ((b + lower) % 256) + upper) % 256) + 256 - upper) % 256)
      + 256
      - lower)
    % 256

cyclic_byte-mix : (w b : ℕ) → cyclic_byte w b ≡ mix (w % 256) (w / 2 ^ 8 % 256) b
unfolding cyclic_byte mix
cyclic_byte-mix w b =
    let e : bit_and w 0xff % 2 ^ 8 ≡ w % 256 = omega (arith, bit_and_ones 8 w) in rw e

unwrap_sub : (x k : ℕ) → x < 256 → k < 256 → ((x + 256 - k) % 256 + k) % 256 ≡ x
unwrap_sub x k p q = omega arith

unwrap_add : (x k : ℕ) → x < 256 → k < 256 → ((x + k) % 256 + 256 - k) % 256 ≡ x
unwrap_add x k p q = omega arith

mix-mix : (l u b : ℕ) → l < 256 → u < 256 → b < 256 → mix l u (mix l u b) ≡ b
unfolding mix
mix-mix l u b hl hu hb =
    let x1 = (b + l) % 256 in
    let x2 = mpbb_r x1 in
    let x3 = (x2 + u) % 256 in
    let x4 = mpbb_s x3 in
    let x5 = (x4 + 256 - u) % 256 in
    let x6 = mpbb_i x5 in
    let h1 : x1 < 256 = omega arith in
    let h2 = mpbb_r-lt x1 h1 in
    let h3 : x3 < 256 = omega arith in
    let h4 = mpbb_s-lt x3 h3 in
    let h5 : x5 < 256 = omega arith in
    let h6 = mpbb_i-lt x5 h5 in
    rw
      (
        unwrap_sub x6 l h6 hl,
        mpbb_r-mpbb_i x5 h5,
        unwrap_sub x4 u h4 hu,
        mpbb_s-mpbb_s x3 h3,
        unwrap_add x2 u h2 hu,
        mpbb_i-mpbb_r x1 h1,
      )
      (unwrap_add b l hb hl)

cyclic_byte_twice : (w b : ℕ) → b < 256 → cyclic_byte w (cyclic_byte w b) ≡ b
cyclic_byte_twice w b h =
    rw (cyclic_byte-mix w b, cyclic_byte-mix w (mix (w % 256) (w / 2 ^ 8 % 256) b))
      (mix-mix (w % 256) (w / 2 ^ 8 % 256) b (omega arith) (omega arith) h)

cyclic_loop_twice :
    (n w : ℕ) (buf : List ℕ) → IsBytes buf → cyclic_loop n w (cyclic_loop n w buf) ≡ buf
unfolding cyclic_loop
cyclic_loop_twice zero w buf bytes = refl
cyclic_loop_twice (suc n) w [] bytes = refl
cyclic_loop_twice (suc n) w (b ∷ bs) bytes =
    ap₂ ◌∷◌ (cyclic_byte_twice w b (bytes 0))
      (cyclic_loop_twice n (u16 (w + 1)) bs (λ i. bytes (suc i)))

-- The cyclic cipher is its own inverse: on a buffer of bytes, applying it twice over the same
-- length with the same key gives the buffer back.
encode_cyclic_twice :
    (buf : List ℕ) (n key : ℕ) → IsBytes buf → encode_cyclic (encode_cyclic buf n key) n key ≡ buf
unfolding encode_cyclic
encode_cyclic_twice buf n key bytes = cyclic_loop_twice n _ buf bytes

-- For each of the three methods, decoding what `encode_block` made of a buffer of bytes, over
-- the same length and with the same key, gives the buffer back.
pub decode_block-encode_block :
    (buf : List ℕ) (n : ℕ) (method : CryptMethod) (key : ℕ)
    → IsBytes buf
    → decode_block (encode_block buf n method key) n method key ≡ buf
unfolding decode_block encode_block
decode_block-encode_block buf n crypt_none key bytes = refl
decode_block-encode_block buf n permute key bytes = decode_permute-encode_permute buf n bytes
decode_block-encode_block buf n cyclic key bytes = encode_cyclic_twice buf n key bytes
