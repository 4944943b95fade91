-- ===== src/Crc/Detect.antt =====
-- src/crc.cpp: the checksums of buffers that differ in one byte.
use pst_dev.Prelude.{
  ℕ, zero, suc, ◌+◌, ◌*◌, ◌/◌, ◌^◌, ◌<◌, ◌≡◌, ◌≢◌, refl, ap, ◌∙◌, sym, arith, List, [], ◌∷◌, ◌++◌,
  bit_xor, if◌then◌else◌, length, leb, take,
}
use pst_dev.Prelude.Bits.{
  bit_xor_assoc, bit_xor_self, bit_xor-zero, zero-bit_xor, bit_xor-lt, bit_xor-shr,
}
use pst_dev.Bytes.Laws.{IsBytes}
use pst_dev.Crc.{crc32}
use pst_dev.Crc.Bitwise.{poly_step, poly_steps, crc_bitwise, crc32-crc_bitwise}

-- The top bit of the result shows whether the polynomial was added, so a step can be undone.
poly_unstep : ℕ → ℕ
poly_unstep c = if leb 0x80000000 c then 2 * bit_xor c 0xedb88320 + 1 else 2 * c

xor_twice : (a p : ℕ) → bit_xor (bit_xor a p) p ≡ a
xor_twice a p = bit_xor_assoc a p p ∙ ap (bit_xor a) (bit_xor_self p) ∙ bit_xor-zero a

top_bit : (a : ℕ) → a < 2 ^ 31 → bit_xor a 0xedb88320 / 2 ^ 31 ≡ 1
top_bit a h =
    bit_xor-shr 31 a 0xedb88320
    ∙ let gone : a / 2 ^ 31 ≡ 0 = omega arith in ap (λ (t : ℕ). bit_xor t 1) gone ∙ zero-bit_xor 1

poly_unstep-poly_step : (c : ℕ) → c < 2 ^ 32 → poly_unstep (poly_step c) ≡ c
unfolding poly_unstep poly_step
poly_unstep-poly_step c h =
    ground (arith, xor_twice (c / 2) 0xedb88320, top_bit (c / 2) (omega arith))

poly_step-lt : (c : ℕ) → c < 2 ^ 32 → poly_step c < 2 ^ 32
unfolding poly_step
poly_step-lt c h = ground (arith, bit_xor-lt 32 (c / 2) 0xedb88320 (omega arith) (omega arith))

pub poly_steps-lt : (k c : ℕ) → c < 2 ^ 32 → poly_steps k c < 2 ^ 32
unfolding poly_steps
poly_steps-lt zero c h = h
poly_steps-lt (suc k) c h = poly_steps-lt k (poly_step c) (poly_step-lt c h)

poly_steps_injective :
    (k c d : ℕ) → c < 2 ^ 32 → d < 2 ^ 32 → poly_steps k c ≡ poly_steps k d → c ≡ d
unfolding poly_steps
poly_steps_injective zero c d hc hd e = e
poly_steps_injective (suc k) c d hc hd e =
    sym (poly_unstep-poly_step c hc)
    ∙ ap poly_unstep (
        poly_steps_injective k (poly_step c) (poly_step d) (poly_step-lt c hc) (poly_step-lt d hd)
          e)
    ∙ poly_unstep-poly_step d hd

-- Every byte of a list fits eight bits.
abbrev pub AllBytes : List ℕ → Type 0
AllBytes [] = Unit {0}
AllBytes (b ∷ bs) = (b < 256) × AllBytes bs

xor-lt : (c b : ℕ) → c < 2 ^ 32 → b < 256 → bit_xor c b < 2 ^ 32
xor-lt c b hc hb = bit_xor-lt 32 c b hc (omega arith)

pub crc_bitwise-lt : (bs : List ℕ) (c : ℕ) → AllBytes bs → c < 2 ^ 32 → crc_bitwise bs c < 2 ^ 32
unfolding crc_bitwise
crc_bitwise-lt [] c h hc = hc
crc_bitwise-lt (b ∷ bs) c (hb, hbs) hc =
    crc_bitwise-lt bs (poly_steps 8 (bit_xor c b)) hbs (poly_steps-lt 8 _ (xor-lt c b hc hb))

-- On one input, two states that differ stay apart.
crc_bitwise_injective :
    (bs : List ℕ) (c d : ℕ)
    → AllBytes bs
    → c < 2 ^ 32
    → d < 2 ^ 32
    → crc_bitwise bs c ≡ crc_bitwise bs d
    → c ≡ d
unfolding crc_bitwise
crc_bitwise_injective [] c d h hc hd e = e
crc_bitwise_injective (b ∷ bs) c d (hb, hbs) hc hd e =
    let xc = xor-lt c b hc hb in
    let xd = xor-lt d b hd hb in
    let sc = poly_steps-lt 8 (bit_xor c b) xc in
    let sd = poly_steps-lt 8 (bit_xor d b) xd in
    let inner =
      crc_bitwise_injective bs (poly_steps 8 (bit_xor c b)) (poly_steps 8 (bit_xor d b)) hbs sc sd
        e in
    let same = poly_steps_injective 8 (bit_xor c b) (bit_xor d b) xc xd inner in
    sym (xor_twice c b) ∙ ap (λ (t : ℕ). bit_xor t b) same ∙ xor_twice d b

xor_cancel : (c a b : ℕ) → bit_xor c a ≡ bit_xor c b → a ≡ b
xor_cancel c a b e = back a ∙ ap (bit_xor c) e ∙ sym (back b)
  where
    back : (x : ℕ) → x ≡ bit_xor c (bit_xor c x)
    back x =
        sym (zero-bit_xor x)
        ∙ ap (λ (t : ℕ). bit_xor t x) (sym (bit_xor_self c))
        ∙ bit_xor_assoc c c x

pub crc_bitwise_one_byte :
    (front back : List ℕ) (a b c : ℕ)
    → AllBytes front
    → AllBytes back
    → a < 256
    → b < 256
    → c < 2 ^ 32
    → crc_bitwise (front ++ (a ∷ back)) c ≡ crc_bitwise (front ++ (b ∷ back)) c
    → a ≡ b
unfolding crc_bitwise
crc_bitwise_one_byte [] back a b c hf hb ha hb' hc e =
    let xa = xor-lt c a hc ha in
    let xb = xor-lt c b hc hb' in
    let inner =
      crc_bitwise_injective back (poly_steps 8 (bit_xor c a)) (poly_steps 8 (bit_xor c b)) hb
        (poly_steps-lt 8 (bit_xor c a) xa) (poly_steps-lt 8 (bit_xor c b) xb) e in
    xor_cancel c a b (poly_steps_injective 8 (bit_xor c a) (bit_xor c b) xa xb inner)
crc_bitwise_one_byte (x ∷ front) back a b c (hx, hf) hb ha hb' hc e =
    crc_bitwise_one_byte front back a b (poly_steps 8 (bit_xor c x)) hf hb ha hb'
      (poly_steps-lt 8 _ (xor-lt c x hc hx)) e

pub AllBytes-IsBytes : (bs : List ℕ) → AllBytes bs → IsBytes bs
AllBytes-IsBytes [] h i = omega arith
AllBytes-IsBytes (b ∷ bs) h zero = h.0
AllBytes-IsBytes (b ∷ bs) h (suc i) = AllBytes-IsBytes bs h.1 i

AllBytes-append : (xs ys : List ℕ) → AllBytes xs → AllBytes ys → AllBytes (xs ++ ys)
AllBytes-append [] ys hx hy = hy
AllBytes-append (x ∷ xs) ys hx hy = (hx.0, AllBytes-append xs ys hx.1 hy)

take_all : (xs : List ℕ) → take (length xs) xs ≡ xs
take_all [] = refl
take_all (x ∷ xs) = ap (◌∷◌ x) (take_all xs)

whole : (bs : List ℕ) → AllBytes bs → crc32 bs (length bs) ≡ crc_bitwise bs 0
whole bs h =
    crc32-crc_bitwise bs (length bs) (omega arith) (AllBytes-IsBytes bs h)
    ∙ ap (λ (t : List ℕ). crc_bitwise t 0) (take_all bs)

-- Two buffers of bytes that differ in one byte, at any place, have different values of `crc32`
-- over their whole length.
pub crc32_one_byte :
    (front back : List ℕ) (a b : ℕ)
    → AllBytes front
    → AllBytes back
    → a < 256
    → b < 256
    → a ≢ b
    → crc32 (front ++ (a ∷ back)) (length (front ++ (a ∷ back)))
      ≢ crc32 (front ++ (b ∷ back)) (length (front ++ (b ∷ back)))
crc32_one_byte front back a b hf hb ha hb' ne e = ne (
    crc_bitwise_one_byte front back a b 0 hf hb ha hb' (omega arith)
      (sym (whole _ (bytes a ha)) ∙ e ∙ whole _ (bytes b hb')))
  where
    bytes : (x : ℕ) → x < 256 → AllBytes (front ++ (x ∷ back))
    bytes x h = AllBytes-append front (x ∷ back) hf (h, hb)
