-- ===== src/Heap/Laws.antt =====
-- src/ltp.cpp and include/pstwriter/ltp.hpp: heap ids, and the order of the keys.
use pst_dev.Prelude.{
  ℕ, zero, suc, ◌+◌, ◌*◌, ◌%◌, ◌/◌, ◌^◌, ◌≤◌, ◌<◌, ◌≡◌, refl, ap, ◌∙◌, sym, arith, List, bit_or,
  true, ltb, ◌==◌, ==_iff, ltb→lt, lt→ltb, ◌↔◌, Bool-cases, inl, inr, if◌then◌else◌,
}
use native.Mathlib.Nat.{pow-suc, mul_assoc}
use pst_dev.Prelude.Bits.{bit_and_ones, bit_or_shift, bit_or_comm}
use pst_dev.Bytes.{byte_at}
use pst_dev.Bytes.Laws.{IsBytes, read_le}
use pst_dev.Heap.{make_hid, hid_type, hid_index, hid_block, key_less}

hid_value :
    (index block t : ℕ) → make_hid index block t ≡ t % 32 + index % 2048 * 32 + block * 65536
unfolding make_hid
hid_value index block t =
    let low : bit_or (t % 2 ^ 5) (index % 2 ^ 11 * 2 ^ 5) ≡ index % 2 ^ 11 * 2 ^ 5 + t % 2 ^ 5 =
      bit_or_comm (t % 2 ^ 5) (index % 2 ^ 11 * 2 ^ 5)
      ∙ bit_or_shift 5 (index % 2 ^ 11) (t % 2 ^ 5) (omega arith) in
    rw
      (
        bit_and_ones 5 t,
        bit_and_ones 11 index,
        low,
        bit_or_comm (index % 2 ^ 11 * 2 ^ 5 + t % 2 ^ 5) (block * 2 ^ 16),
        bit_or_shift 16 block (index % 2 ^ 11 * 2 ^ 5 + t % 2 ^ 5) (omega arith),
      )
      (omega arith)

-- A heap id of a 16-bit block index gives its three parts back, the type and the index cut to 5
-- and 11 bits, and fits 32 bits.
pub make_hid_fields :
    (index block t : ℕ)
    → block < 2 ^ 16
    → (hid_type (make_hid index block t) ≡ t % 32)
      × (hid_index (make_hid index block t) ≡ index % 2048)
      × (hid_block (make_hid index block t) ≡ block)
      × (make_hid index block t < 2 ^ 32)
unfolding hid_type hid_index hid_block
make_hid_fields index block t h =
    let v = hid_value index block t in
    let hid = make_hid index block t in
    (
      rw (bit_and_ones 5 hid) (omega arith),
      rw (bit_and_ones 11 (hid / 2 ^ 5)) (omega arith),
      rw (bit_and_ones 16 (hid / 2 ^ 16)) (omega arith),
      omega arith,
    )

-- A little-endian number by its highest byte.
shift_high : (c r h p q : ℕ) → q ≡ p * 256 → c + 256 * (r + h * p) ≡ c + 256 * r + h * q
shift_high c r h p q e = rw e (omega (arith, mul_assoc h p 256))

mono : (h k p : ℕ) → h < k → h * p + p ≤ k * p
mono h k p l = grind arith

read_le_high :
    (n : ℕ) (buf : List ℕ) (at : ℕ)
    → read_le (suc n) buf at ≡ read_le n buf at + byte_at buf (at + n) * 256 ^ n
unfolding read_le
read_le_high zero buf at = let e : at + 0 ≡ at = omega arith in rw e (omega arith)
read_le_high (suc n) buf at =
    let e : at + 1 + n ≡ at + suc n = omega arith in
    let rest = rw e at (read_le_high n buf (at + 1)) in
    ap (λ (t : ℕ). byte_at buf at + 256 * t) rest
    ∙ shift_high (byte_at buf at) (read_le n buf (at + 1)) (byte_at buf (at + suc n)) (256 ^ n)
        (256 ^ suc n) (pow-suc 256 n)

-- Numbers of one more byte, by that byte first.
by_high_byte :
    (x y h k p : ℕ)
    → x < p
    → y < p
    → ltb (x + h * p) (y + k * p) ≡ (if h == k then ltb x y else ltb h k)
by_high_byte x y h k p hx hy = elim (Bool-cases (h == k)) [
  | inl e ↦ ground (arith, ap (λ (t : ℕ). t * p) ((==_iff h k).0 e))
  | inr n ↦ ground (arith, mono h k p, mono k h p)
]

below_next : (x h p q : ℕ) → x < p → h < 256 → q ≡ p * 256 → x + h * p < q
below_next x h p q l b e = omega (arith, mono h 256 p b, e)

high_at : (n : ℕ) (buf : List ℕ) → read_le (suc n) buf 0 ≡ read_le n buf 0 + byte_at buf n * 256 ^ n
high_at n buf = let e : 0 + n ≡ n = omega arith in rw e at (read_le_high n buf 0)

-- The numbers of a little-endian key, and the test as a test of them.
pub key_less-ltb :
    (a b : List ℕ) (n : ℕ)
    → IsBytes a
    → IsBytes b
    → (key_less a b n ≡ ltb (read_le n a 0) (read_le n b 0))
      × (read_le n a 0 < 256 ^ n)
      × (read_le n b 0 < 256 ^ n)
unfolding key_less
key_less-ltb a b zero ha hb =
    (unfold read_le in refl, unfold read_le in omega arith, unfold read_le in omega arith)
key_less-ltb a b (suc n) ha hb =
    let (same, la, lb) = key_less-ltb a b n ha hb in
    let next = pow-suc 256 n in
    rw (high_at n a, high_at n b)
      (
        rw same (
            sym (
              by_high_byte (read_le n a 0) (read_le n b 0) (byte_at a n) (byte_at b n) (256 ^ n) la
                lb)),
        below_next (read_le n a 0) (byte_at a n) (256 ^ n) (256 ^ suc n) la (ha n) next,
        below_next (read_le n b 0) (byte_at b n) (256 ^ n) (256 ^ suc n) lb (hb n) next,
      )

-- The order of keys of bytes is that of the little-endian numbers that they hold.
pub key_less_lem :
    (a b : List ℕ) (n : ℕ)
    → IsBytes a
    → IsBytes b
    → (key_less a b n ≡ true) ↔ (read_le n a 0 < read_le n b 0)
key_less_lem a b n ha hb =
    let e = (key_less-ltb a b n ha hb).0 in
    (
      λ t. ltb→lt (read_le n a 0) (read_le n b 0) (sym e ∙ t),
      λ l. e ∙ lt→ltb (read_le n a 0) (read_le n b 0) l,
    )
