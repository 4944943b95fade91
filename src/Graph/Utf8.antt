-- ===== src/Graph/Utf8.antt =====
-- `utf8ToUtf16le` of src/graph_convert.cpp beside an arithmetic description of UTF-8 and UTF-16.
use pst_dev.Prelude.{
  ℕ, zero, suc, ◌+◌, ◌-◌, ◌*◌, ◌/◌, ◌%◌, ◌^◌, ◌≤◌, ◌<◌, ◌≡◌, ◌≢◌, refl, ap, ◌∙◌, arith, List, [],
  ◌∷◌, ◌++◌, bit_and, bit_or, ltb, if◌then◌else◌, length, drop, length-drop, Bool-cases, inl, inr,
  ◌⊎◌, length-append,
}
use mathlib.Core.List.{append-nil, append_assoc}
use pst_dev.Prelude.Bits.{bit_and_clear, bit_and_ones, bit_or_shift}
use pst_dev.Graph.{
  Converted, ok, throw, GraphError, out_of_fuel, decode_at, emit, u16_le, utf8_loop,
  utf8_to_utf16le,
}

-- A code point that is not a surrogate.
abbrev pub IsScalar : ℕ → Type 0
IsScalar cp = (cp < 0xd800) ⊎ ((0xe000 ≤ cp) × (cp < 0x110000))

abbrev pub AreScalars : List ℕ → Type 0
AreScalars [] = Unit {0}
AreScalars (cp ∷ cps) = IsScalar cp × AreScalars cps

-- UTF-8 and UTF-16LE as arithmetic tells them.
unfoldable pub utf8_char : ℕ → List ℕ
utf8_char cp =
    if ltb cp 0x80
    then cp ∷ []
    else if ltb cp 0x800
    then (192 + cp / 64) ∷ (128 + cp % 64) ∷ []
    else if ltb cp 0x10000
    then (224 + cp / 4096) ∷ (128 + cp / 64 % 64) ∷ (128 + cp % 64) ∷ []
    else (240 + cp / 262144) ∷ (128 + cp / 4096 % 64) ∷ (128 + cp / 64 % 64) ∷ (128 + cp % 64) ∷ []

unfoldable pub utf8 : List ℕ → List ℕ
unfolding utf8_char
utf8 [] = []
utf8 (cp ∷ cps) = utf8_char cp ++ utf8 cps

unfoldable pub unit_le : ℕ → List ℕ
unit_le u = (u % 256) ∷ (u / 256) ∷ []

unfoldable pub utf16_char : ℕ → List ℕ
utf16_char cp =
    if ltb cp 0x10000
    then unit_le cp
    else unit_le (55296 + (cp - 65536) / 1024) ++ unit_le (56320 + (cp - 65536) % 1024)

unfoldable pub utf16 : List ℕ → List ℕ
unfolding utf16_char
utf16 [] = []
utf16 (cp ∷ cps) = utf16_char cp ++ utf16 cps

-- The masks of the source.
top : (k w x : ℕ) → bit_and x ((2 ^ w - 1) * 2 ^ k) ≡ x / 2 ^ k % 2 ^ w * 2 ^ k
top k w x = bit_and_clear k x (2 ^ w - 1) ∙ ap (λ (t : ℕ). t * 2 ^ k) (bit_and_ones w (x / 2 ^ k))

join : (k hi lo : ℕ) → lo < 2 ^ k → bit_or (hi * 2 ^ k) lo ≡ hi * 2 ^ k + lo
join k hi lo h = bit_or_shift k hi lo h

decode_one : (cp : ℕ) (rest : List ℕ) → cp < 128 → decode_at (cp ∷ rest) ≡ ok (cp, 1)
unfolding decode_at
decode_one cp rest h = rw (top 7 1 cp) (ground arith)

decode_two :
    (cp : ℕ) (rest : List ℕ)
    → 128 ≤ cp
    → cp < 2048
    → decode_at ((192 + cp / 64) ∷ (128 + cp % 64) ∷ rest) ≡ ok (cp, 2)
unfolding decode_at
decode_two cp rest lo hi =
    let b0 = 192 + cp / 64 in
    let b1 = 128 + cp % 64 in
    rw
      (
        top 7 1 b0,
        top 5 3 b0,
        top 6 2 b1,
        bit_and_ones 5 b0,
        bit_and_ones 6 b1,
        join 6 (b0 % 2 ^ 5) (b1 % 2 ^ 6) (omega arith),
      )
      (ground arith)

or_three :
    (a b c : ℕ)
    → b < 64
    → c < 64
    → bit_or (bit_or (a * 2 ^ 12) (b * 2 ^ 6)) c ≡ a * 4096 + b * 64 + c
or_three a b c h k =
    let e : a * 2 ^ 12 + b * 2 ^ 6 ≡ (a * 64 + b) * 2 ^ 6 = omega arith in
    rw (join 12 a (b * 2 ^ 6) (omega arith), e, join 6 (a * 64 + b) c (omega arith)) (omega arith)

or_four :
    (a b c d : ℕ)
    → b < 64
    → c < 64
    → d < 64
    → bit_or (bit_or (bit_or (a * 2 ^ 18) (b * 2 ^ 12)) (c * 2 ^ 6)) d
      ≡ a * 262144 + b * 4096 + c * 64 + d
or_four a b c d h k l =
    let e : a * 2 ^ 18 + b * 2 ^ 12 ≡ (a * 64 + b) * 2 ^ 12 = omega arith in
    rw (join 18 a (b * 2 ^ 12) (omega arith), e, or_three (a * 64 + b) c d k l) (omega arith)

decode_three :
    (cp : ℕ) (rest : List ℕ)
    → 2048 ≤ cp
    → cp < 65536
    → decode_at ((224 + cp / 4096) ∷ (128 + cp / 64 % 64) ∷ (128 + cp % 64) ∷ rest) ≡ ok (cp, 3)
unfolding decode_at
decode_three cp rest lo hi =
    let b0 = 224 + cp / 4096 in
    let b1 = 128 + cp / 64 % 64 in
    let b2 = 128 + cp % 64 in
    rw
      (
        top 7 1 b0,
        top 5 3 b0,
        top 4 4 b0,
        top 6 2 b1,
        top 6 2 b2,
        bit_and_ones 4 b0,
        bit_and_ones 6 b1,
        bit_and_ones 6 b2,
        or_three (b0 % 2 ^ 4) (b1 % 2 ^ 6) (b2 % 2 ^ 6) (omega arith) (omega arith),
      )
      (ground arith)

decode_four :
    (cp : ℕ) (rest : List ℕ)
    → 65536 ≤ cp
    → cp < 1114112
    → decode_at (
        (240 + cp / 262144)
        ∷ (128 + cp / 4096 % 64)
        ∷ (128 + cp / 64 % 64)
        ∷ (128 + cp % 64)
        ∷ rest)
      ≡ ok (cp, 4)
unfolding decode_at
decode_four cp rest lo hi =
    let b0 = 240 + cp / 262144 in
    let b1 = 128 + cp / 4096 % 64 in
    let b2 = 128 + cp / 64 % 64 in
    let b3 = 128 + cp % 64 in
    rw
      (
        top 7 1 b0,
        top 5 3 b0,
        top 4 4 b0,
        top 3 5 b0,
        top 6 2 b1,
        top 6 2 b2,
        top 6 2 b3,
        bit_and_ones 3 b0,
        bit_and_ones 6 b1,
        bit_and_ones 6 b2,
        bit_and_ones 6 b3,
        or_four (b0 % 2 ^ 3) (b1 % 2 ^ 6) (b2 % 2 ^ 6) (b3 % 2 ^ 6) (omega arith) (omega arith)
            (omega arith),
      )
      (ground arith)

decode_char :
    (cp : ℕ) (rest : List ℕ)
    → IsScalar cp
    → (decode_at (utf8_char cp ++ rest) ≡ ok (cp, length (utf8_char cp)))
      × (drop (length (utf8_char cp)) (utf8_char cp ++ rest) ≡ rest)
unfolding utf8_char
decode_char cp rest scalar = elim (Bool-cases (ltb cp 128)) [
  | inl one ↦ rw one (decode_one cp rest (ground arith), refl)
  | inr n1 ↦ elim (Bool-cases (ltb cp 2048)) [
    | inl two ↦ rw (n1, two) (decode_two cp rest (ground arith) (ground arith), refl)
    | inr n2 ↦ elim (Bool-cases (ltb cp 65536)) [
      | inl three ↦ rw (n1, n2, three) (decode_three cp rest (ground arith) (ground arith), refl)
      | inr n3 ↦ rw (n1, n2, n3) (decode_four cp rest (ground arith) (ground arith), refl)
    ]
  ]
]

u16_le-unit_le : (u : ℕ) → u < 65536 → u16_le u ≡ unit_le u
unfolding u16_le unit_le
u16_le-unit_le u h = rw (bit_and_ones 8 u, bit_and_ones 8 (u / 2 ^ 8)) (ground arith)

emit_char : (cp : ℕ) → IsScalar cp → emit cp ≡ ok (utf16_char cp)
unfolding emit utf16_char
emit_char cp scalar = elim (Bool-cases (ltb cp 65536)) [
  | inl small ↦ rw (small, u16_le-unit_le cp (ground arith)) (ground arith)
  | inr big ↦
      let hi : (cp - 65536) / 2 ^ 10 < 1024 = ground arith in
      rw
        (
          big,
          bit_and_ones 10 (cp - 65536),
          join 10 54 ((cp - 65536) / 2 ^ 10) hi,
          join 10 55 ((cp - 65536) % 2 ^ 10) (omega arith),
          u16_le-unit_le (54 * 2 ^ 10 + (cp - 65536) / 2 ^ 10) (omega arith),
          u16_le-unit_le (55 * 2 ^ 10 + (cp - 65536) % 2 ^ 10) (omega arith),
        )
        (ground arith)
]

-- One round of the loop, and the fuel it leaves.
round :
    (fuel : ℕ) (s out : List ℕ) {cp n : ℕ} {units : List ℕ}
    → 0 < length s
    → decode_at s ≡ ok (cp, n)
    → emit cp ≡ ok units
    → utf8_loop (suc fuel) s out ≡ utf8_loop fuel (drop n s) (out ++ units)
unfolding utf8_loop
round fuel [] out h d e = absurd (omega arith)
round fuel (b ∷ bs) out h d e = rw (d, e) refl

length-utf8_char : (cp : ℕ) → 0 < length (utf8_char cp)
unfolding utf8_char
length-utf8_char cp = ground arith

utf8_loop-utf8 :
    (cps : List ℕ) (fuel : ℕ) (out : List ℕ)
    → AreScalars cps
    → length (utf8 cps) ≤ fuel
    → utf8_loop fuel (utf8 cps) out ≡ ok (out ++ utf16 cps)
unfolding utf8_loop utf8 utf16
utf8_loop-utf8 [] fuel out scalars h = rw (append-nil out) refl
utf8_loop-utf8 (cp ∷ cps) zero out scalars h =
    absurd (omega (arith, length-append (utf8_char cp) (utf8 cps), length-utf8_char cp))
utf8_loop-utf8 (cp ∷ cps) (suc fuel) out scalars h =
    let decoded = decode_char cp (utf8 cps) scalars.0 in
    let size = length-append (utf8_char cp) (utf8 cps) in
    let some_byte = length-utf8_char cp in
    round fuel (utf8_char cp ++ utf8 cps) out (omega (arith, size, some_byte)) decoded.0
      (emit_char cp scalars.0)
    ∙ ap (λ (t : List ℕ). utf8_loop fuel t (out ++ utf16_char cp)) decoded.1
    ∙ utf8_loop-utf8 cps fuel (out ++ utf16_char cp) scalars.1 (omega (arith, size, some_byte))
    ∙ ap ok (append_assoc out (utf16_char cp) (utf16 cps))

-- The UTF-8 of any list of code points that are not surrogates becomes the UTF-16LE of the same
-- list, a surrogate pair for each code point above the basic plane.
pub utf8_to_utf16le-utf8 :
    (cps : List ℕ) → AreScalars cps → utf8_to_utf16le (utf8 cps) ≡ ok (utf16 cps)
unfolding utf8_to_utf16le
utf8_to_utf16le-utf8 cps scalars = utf8_loop-utf8 cps (length (utf8 cps)) [] scalars (omega arith)

-- What a decoded code point takes lies in the string, and is a byte at least.
decode_at_size :
    (s : List ℕ) {cp n : ℕ} → 0 < length s → decode_at s ≡ ok (cp, n) → (0 < n) × (n ≤ length s)
unfolding decode_at
decode_at_size s h e = ground arith

Converted-cases {ℓ} :
    {A : Type ℓ} (c : Converted A) → ((a : A) × (c ≡ ok a)) ⊎ ((e : GraphError) × (c ≡ throw e))
Converted-cases (ok a) = inl (a, refl)
Converted-cases (throw e) = inr (e, refl)

abbrev throws {ℓ} : {A : Type ℓ} → GraphError → Converted A
throws e = throw e

throw_as {ℓ κ} :
    {A : Type ℓ} {B : Type κ} {x y : GraphError}
    → throws {A = A} x ≡ throws y
    → throws {A = B} x ≡ throws y
throw_as e = ap throw (cc)

decode_at_throws : (s : List ℕ) → decode_at s ≢ throw out_of_fuel
unfolding decode_at
decode_at_throws s e = ground arith

emit_throws : (cp : ℕ) → emit cp ≢ throw out_of_fuel
unfolding emit
emit_throws cp e = ground arith

utf8_loop_ends :
    (fuel : ℕ) (s out : List ℕ) → length s ≤ fuel → utf8_loop fuel s out ≢ throw out_of_fuel
unfolding utf8_loop
utf8_loop_ends fuel [] out h e = cc
utf8_loop_ends zero (b ∷ bs) out h e = omega arith
utf8_loop_ends (suc fuel) (b ∷ bs) out h e = elim (Converted-cases (decode_at (b ∷ bs))) [
  | inr (x, d) ↦ decode_at_throws (b ∷ bs) (d ∙ throw_as (rw d at e))
  | inl ((cp, n), d) ↦ elim (Converted-cases (emit cp)) [
    | inr (x, m) ↦ emit_throws cp (m ∙ throw_as (rw (d, m) at e))
    | inl (units, m) ↦
        let size = decode_at_size (b ∷ bs) {cp = cp} {n = n} (omega arith) d in
        utf8_loop_ends fuel (drop n (b ∷ bs)) (out ++ units)
          (omega (arith, size, length-drop n (b ∷ bs))) (rw (d, m) at e)
  ]
]

-- The fuel is enough: on every list of bytes the conversion ends with a result or with one of the
-- exceptions of the source.
pub utf8_to_utf16le_ends : (s : List ℕ) → utf8_to_utf16le s ≢ throw out_of_fuel
unfolding utf8_to_utf16le
utf8_to_utf16le_ends s = utf8_loop_ends (length s) s [] (omega arith)
