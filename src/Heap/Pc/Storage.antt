-- ===== src/Heap/Pc/Storage.antt =====
-- src/ltp.cpp: one property, from `resolveStorage` to the storage class that the reader derives.
use pst_dev.Prelude.{
  ℕ, ◌^◌, ◌≤◌, ◌<◌, ◌≡◌, refl, ap, ◌∙◌, arith, List, [], ◌∷◌, ◌⊎◌, inl, inr, Bool, true, false,
  Bool-cases, ◌==◌, ◌&&◌, not, leb, ltb, if◌then◌else◌, length, take,
}
use pst_dev.Bytes.{zeros, write_bytes}
use pst_dev.Bytes.Laws.{IsBytes, IsBytes-zeros, read_le, read_u32-read_le}
use pst_dev.Bytes.Copy.{IsBytes-write_bytes}
use pst_dev.Heap.{fixed_size, inline, hn_alloc, subnode, resolve_storage, pack_inline_value}
use pst_dev.Heap.Pc.{PcProperty, storage_of}

-- A value that the reader takes from the record itself.
abbrev pub is_short : ℕ → Bool
is_short t = not (fixed_size t == 0) && leb (fixed_size t) 4

-- What the builder's callers give: numbers of 16 bits, bytes, a value of the size of its type, and
-- no short value forced into a subnode.
pub record IsProperty (p : PcProperty) : Type 0 where
  pub tag : p.pid_tag_id < 2 ^ 16
  pub type_number : p.prop_type < 2 ^ 16
  pub bytes : IsBytes p.value_bytes
  pub not_short : (p.forced && is_short p.prop_type) ≡ false

-- The class that the builder picks, and the test that the reader makes.
pub storage_of-cases :
    (p : PcProperty)
    → IsProperty p
    → ((storage_of p ≡ inline) × (is_short p.prop_type ≡ true))
      ⊎ (((storage_of p ≡ hn_alloc) × (is_short p.prop_type ≡ false))
          ⊎ ((storage_of p ≡ subnode) × (is_short p.prop_type ≡ false)))
unfolding resolve_storage
storage_of-cases p h = elim (Bool-cases p.forced) [
  | inl f ↦ inr (inr (rw f refl, rw f at h.not_short))
  | inr f ↦ elim (Bool-cases (fixed_size p.prop_type == 0)) [
    | inl z ↦ elim (Bool-cases (leb (length p.value_bytes) 3580)) [
      | inl l ↦ inr (inl (rw (f, z, l) refl, rw z refl))
      | inr n ↦ inr (inr (rw (f, z, n) refl, rw z refl))
    ]
    | inr z ↦ elim (Bool-cases (leb (fixed_size p.prop_type) 4)) [
      | inl l ↦ inl (rw (f, z, l) refl, rw (z, l) refl)
      | inr n ↦ inr (inl (rw (f, z, n) refl, rw (z, n) refl))
    ]
  ]
]

short_read :
    (bs : List ℕ)
    → length bs ≤ 4
    → read_le 4 (write_bytes (zeros 4) 0 bs) 0 ≡ read_le (length bs) bs 0
unfolding read_le write_bytes
short_read [] l = omega arith
short_read (a ∷ []) l = omega arith
short_read (a ∷ b ∷ []) l = omega arith
short_read (a ∷ b ∷ c ∷ []) l = omega arith
short_read (a ∷ b ∷ c ∷ d ∷ []) l = omega arith
short_read (a ∷ b ∷ c ∷ d ∷ e ∷ bs) l = absurd (omega arith)

word_lt : (buf : List ℕ) → IsBytes buf → read_le 4 buf 0 < 2 ^ 32
unfolding read_le
word_lt buf h = omega (arith, h 0, h 1, h 2, h 3)

take_all : (bs : List ℕ) → take (length bs) bs ≡ bs
take_all [] = refl
take_all (b ∷ bs) = ap (λ t. b ∷ t) (take_all bs)

-- A short value in the record is its number.
pub pack_inline_value-read_le :
    (t : ℕ) (bs : List ℕ)
    → IsBytes bs
    → is_short t ≡ true
    → length bs ≡ fixed_size t
    → (pack_inline_value t bs ≡ read_le (length bs) bs 0) × (pack_inline_value t bs < 2 ^ 32)
unfolding pack_inline_value
pack_inline_value-read_le t bs b s e =
    let size : length bs ≤ 4 = ground (arith, e, s) in
    let copied : (if ltb 0 (fixed_size t) && leb (fixed_size t) 4
          then fixed_size t
          else (if ltb 4 (length bs) then 4 else length bs))
        ≡ length bs =
      ground (arith, e, s) in
    let stored = IsBytes-write_bytes bs (zeros 4) 0 b (IsBytes-zeros 4) in
    let value = read_u32-read_le (write_bytes (zeros 4) 0 bs) 0 stored in
    rw (copied, take_all bs)
      (value ∙ short_read bs size, rw value (word_lt (write_bytes (zeros 4) 0 bs) stored))
