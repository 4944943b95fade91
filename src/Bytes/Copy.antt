-- ===== src/Bytes/Copy.antt =====
-- memcpy into a buffer, and the parts of a buffer that a write leaves alone.
use pst_dev.Prelude.{
  ℕ, zero, suc, ◌+◌, ◌*◌, ◌≤◌, ◌<◌, ◌≡◌, refl, ap, ap₂, ◌∙◌, sym, arith, List, [], ◌∷◌, ◌⊎◌, inl,
  inr, true, length, set, length-set, drop,
}
use pst_dev.Bytes.{byte_at, write_bytes, slice, zeros}
use pst_dev.Bytes.Laws.{
  write_le, read_le, byte_at-set, length-write_le, byte_at-write_le_other, IsBytes, IsBytes-set,
}
use pst_dev.Bytes.Fields.{Field, write_fields, fits, clear}

pub length-write_bytes : (bs buf : List ℕ) (off : ℕ) → length (write_bytes buf off bs) ≡ length buf
unfolding write_bytes
length-write_bytes [] buf off = refl
length-write_bytes (b ∷ bs) buf off =
    length-write_bytes bs (set buf off b) (off + 1) ∙ length-set buf off b

pub IsBytes-write_bytes :
    (bs buf : List ℕ) (off : ℕ) → IsBytes bs → IsBytes buf → IsBytes (write_bytes buf off bs)
unfolding write_bytes
IsBytes-write_bytes [] buf off h k = k
IsBytes-write_bytes (b ∷ bs) buf off h k =
    IsBytes-write_bytes bs (set buf off b) (off + 1) (λ i. h (suc i))
      (IsBytes-set buf off b (h 0) k)

pub byte_at-write_bytes_other :
    (bs buf : List ℕ) (off j : ℕ)
    → off + length bs ≤ length buf
    → (j < off) ⊎ (off + length bs ≤ j)
    → byte_at (write_bytes buf off bs) j ≡ byte_at buf j
unfolding write_bytes
byte_at-write_bytes_other [] buf off j h d = refl
byte_at-write_bytes_other (b ∷ bs) buf off j h d = ground (
  arith,
  length-set buf off b,
  byte_at-write_bytes_other bs (set buf off b) (off + 1) j,
  byte_at-set buf off j b,
)

pub byte_at-write_bytes :
    (bs buf : List ℕ) (off j : ℕ)
    → off + length bs ≤ length buf
    → j < length bs
    → byte_at (write_bytes buf off bs) (off + j) ≡ byte_at bs j
unfolding write_bytes
byte_at-write_bytes [] buf off j h d = absurd (omega arith)
byte_at-write_bytes (b ∷ bs) buf off zero h d = ground (
  arith,
  length-set buf off b,
  byte_at-write_bytes_other bs (set buf off b) (off + 1) (off + 0),
  byte_at-set buf off (off + 0) b,
)
byte_at-write_bytes (b ∷ bs) buf off (suc j) h d =
    ground (arith, length-set buf off b, byte_at-write_bytes bs (set buf off b) (off + 1) j)

pub length-slice : (buf : List ℕ) (at n : ℕ) → at + n ≤ length buf → length (slice buf at n) ≡ n
length-slice buf at zero h = refl
length-slice [] at (suc n) h = absurd (omega arith)
length-slice (x ∷ xs) zero (suc n) h = omega (arith, length-slice xs 0 n (omega arith))
length-slice (x ∷ xs) (suc at) (suc n) h = length-slice xs at (suc n) (omega arith)

-- The byte at an index of a slice.
pub byte_at-slice :
    (buf : List ℕ) (at n j : ℕ) → j < n → byte_at (slice buf at n) j ≡ byte_at buf (at + j)
byte_at-slice buf at zero j h = absurd (omega arith)
byte_at-slice [] zero (suc n) j h = refl
byte_at-slice [] (suc at) (suc n) j h = refl
byte_at-slice (x ∷ xs) zero (suc n) zero h = refl
byte_at-slice (x ∷ xs) zero (suc n) (suc j) h = ground (arith, byte_at-slice xs 0 n j (omega arith))
byte_at-slice (x ∷ xs) (suc at) (suc n) j h = ground (arith, byte_at-slice xs at (suc n) j h)

pub byte_at-drop : (buf : List ℕ) (n i : ℕ) → byte_at (drop n buf) i ≡ byte_at buf (n + i)
byte_at-drop buf zero i = ap (byte_at buf) (omega arith)
byte_at-drop [] (suc n) i = refl
byte_at-drop (x ∷ xs) (suc n) i = ground (arith, byte_at-drop xs n i)

-- A read in a slice is the read in the buffer.
pub read_le-slice :
    (m : ℕ) (buf : List ℕ) (from n at : ℕ)
    → at + m ≤ n
    → read_le m (slice buf from n) at ≡ read_le m buf (from + at)
unfolding read_le
read_le-slice zero buf from n at h = refl
read_le-slice (suc m) buf from n at h =
    let e : from + (at + 1) ≡ from + at + 1 = omega arith in
    ap₂ (λ (x y : ℕ). x + 256 * y) (byte_at-slice buf from n at (omega arith))
      (read_le-slice m buf from n (at + 1) (omega arith) ∙ ap (read_le m buf) e)

-- Two lists of one length with the same bytes are the same.
pub byte_at_ext :
    (xs ys : List ℕ)
    → length xs ≡ length ys
    → ((j : ℕ) → j < length xs → byte_at xs j ≡ byte_at ys j)
    → xs ≡ ys
byte_at_ext [] [] e h = refl
byte_at_ext [] (y ∷ ys) e h = absurd (omega arith)
byte_at_ext (x ∷ xs) [] e h = absurd (omega arith)
byte_at_ext (x ∷ xs) (y ∷ ys) e h =
    ap₂ ◌∷◌ (h 0 (omega arith)) (byte_at_ext xs ys (omega arith) (λ j k. h (suc j) (omega arith)))

-- A later write beside a slice leaves it alone.
pub slice_eq :
    (xs ys : List ℕ) (at n : ℕ)
    → at + n ≤ length xs
    → length xs ≡ length ys
    → ((j : ℕ) → at ≤ j → j < at + n → byte_at xs j ≡ byte_at ys j)
    → slice xs at n ≡ slice ys at n
slice_eq xs ys at n h e same = byte_at_ext (slice xs at n) (slice ys at n) lengths λ j k.
    let k' : j < n = rw (length-slice xs at n h) at k in
    byte_at-slice xs at n j k'
    ∙ same (at + j) (omega arith) (omega arith)
    ∙ sym (byte_at-slice ys at n j k')
  where
    lengths : length (slice xs at n) ≡ length (slice ys at n)
    lengths = length-slice xs at n h ∙ sym (length-slice ys at n (omega arith))

pub slice-write_le_other :
    (n : ℕ) (buf : List ℕ) (off v at m : ℕ)
    → off + n ≤ length buf
    → at + m ≤ length buf
    → (at + m ≤ off) ⊎ (off + n ≤ at)
    → slice (write_le n buf off v) at m ≡ slice buf at m
slice-write_le_other n buf off v at m h k d =
    slice_eq (write_le n buf off v) buf at m (rw (length-write_le n buf off v) k)
      (length-write_le n buf off v)
      (λ j p q. byte_at-write_le_other n buf off v j h (beside j p q d))
  where
    beside :
        (j : ℕ) → at ≤ j → j < at + m → (at + m ≤ off) ⊎ (off + n ≤ at) → (j < off) ⊎ (off + n ≤ j)
    beside j p q (inl a) = inl (omega arith)
    beside j p q (inr b) = inr (omega arith)

pub slice-write_fields-clear :
    (fs : List Field) (buf : List ℕ) (at m size : ℕ)
    → length buf ≡ size
    → at + m ≤ size
    → fits size fs ≡ true
    → clear at m fs ≡ true
    → slice (write_fields fs buf) at m ≡ slice buf at m
unfolding write_fields fits clear
slice-write_fields-clear [] buf at m size e k h c = refl
slice-write_fields-clear ((off, n, v) ∷ fs) buf at m size e k h c = ground (
  arith,
  length-write_le n buf off v,
  slice-write_le_other n buf off v at m,
  slice-write_fields-clear fs (write_le n buf off v) at m size,
)

pub slice-write_bytes :
    (bs buf : List ℕ) (off : ℕ)
    → off + length bs ≤ length buf
    → slice (write_bytes buf off bs) off (length bs) ≡ bs
slice-write_bytes bs buf off h =
    byte_at_ext (slice (write_bytes buf off bs) off (length bs)) bs lengths λ j k.
      let k' : j < length bs = rw lengths at k in
      byte_at-slice (write_bytes buf off bs) off (length bs) j k'
      ∙ byte_at-write_bytes bs buf off j h k'
  where
    lengths : length (slice (write_bytes buf off bs) off (length bs)) ≡ length bs
    lengths =
        length-slice (write_bytes buf off bs) off (length bs) (rw (length-write_bytes bs buf off) h)

pub slice-write_bytes_other :
    (bs buf : List ℕ) (off at m : ℕ)
    → off + length bs ≤ length buf
    → at + m ≤ length buf
    → (at + m ≤ off) ⊎ (off + length bs ≤ at)
    → slice (write_bytes buf off bs) at m ≡ slice buf at m
slice-write_bytes_other bs buf off at m h k d =
    slice_eq (write_bytes buf off bs) buf at m (rw (length-write_bytes bs buf off) k)
      (length-write_bytes bs buf off)
      (λ j p q. byte_at-write_bytes_other bs buf off j h (beside j p q d))
  where
    beside :
        (j : ℕ)
        → at ≤ j
        → j < at + m
        → (at + m ≤ off) ⊎ (off + length bs ≤ at)
        → (j < off) ⊎ (off + length bs ≤ j)
    beside j p q (inl a) = inl (omega arith)
    beside j p q (inr b) = inr (omega arith)

pub byte_at-zeros : (n j : ℕ) → byte_at (zeros n) j ≡ 0
byte_at-zeros zero j = refl
byte_at-zeros (suc n) zero = refl
byte_at-zeros (suc n) (suc j) = byte_at-zeros n j

-- Buffers that agree on a slice read the same there.
pub read_le_ext :
    (m : ℕ) (xs ys : List ℕ) (at : ℕ)
    → slice xs at m ≡ slice ys at m
    → read_le m xs at ≡ read_le m ys at
read_le_ext m xs ys at h =
    let z : at ≡ at + 0 = omega arith in
    rw z (
      sym (read_le-slice m xs at m 0 (omega arith))
      ∙ ap (λ (t : List ℕ). read_le m t 0) h
      ∙ read_le-slice m ys at m 0 (omega arith))
