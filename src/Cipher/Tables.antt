-- ===== src/Cipher/Tables.antt =====
-- The static assertions on the tables, and what they give at every byte.
use pst_dev.Prelude.{ℕ, zero, suc, ◌+◌, ◌≤◌, ◌<◌, ◌≡◌, refl, arith, true, leb}
use pst_dev.Prelude.Range.{holds_below, test_below}
use pst_dev.Cipher.{
  mpbb_r, mpbb_s, mpbb_i, is_inverse_of, is_inverse_of_loop, is_involution, is_permutation,
  mpbb_crypt,
}

is_inverse_of_loop_sound :
    (a b : ℕ → ℕ) (left i x : ℕ)
    → i + left ≤ 256
    → is_inverse_of_loop a b left i ≡ true
    → i ≤ x
    → x < i + left
    → b (a x) ≡ x
unfolding is_inverse_of_loop
is_inverse_of_loop_sound a b zero i x h e p q = absurd (omega arith)
is_inverse_of_loop_sound a b (suc left) i x h e p q =
    ground (arith, is_inverse_of_loop_sound a b left (i + 1) x)

pub is_inverse_of_sound : (a b : ℕ → ℕ) (x : ℕ) → is_inverse_of a b ≡ true → x < 256 → b (a x) ≡ x
unfolding is_inverse_of
is_inverse_of_sound a b x e h = is_inverse_of_loop_sound a b 256 0 x (omega arith) e (omega arith) h

pub is_involution_sound : (t : ℕ → ℕ) (x : ℕ) → is_involution t ≡ true → x < 256 → t (t x) ≡ x
unfolding is_involution
is_involution_sound t x e h = is_inverse_of_loop_sound t t 256 0 x (omega arith) e (omega arith) h

-- The assertions of the source, by evaluation.
pub tables_are_permutations :
    (is_permutation mpbb_r ≡ true) × (is_permutation mpbb_s ≡ true) × (is_permutation mpbb_i ≡ true)
unfolding is_permutation mpbb_r mpbb_s mpbb_i mpbb_crypt
tables_are_permutations = (refl, refl, refl)

i-inverts-r : is_inverse_of mpbb_r mpbb_i ≡ true
unfolding is_inverse_of mpbb_r mpbb_i mpbb_crypt
i-inverts-r = refl

r-inverts-i : is_inverse_of mpbb_i mpbb_r ≡ true
unfolding is_inverse_of mpbb_r mpbb_i mpbb_crypt
r-inverts-i = refl

s-inverts-s : is_involution mpbb_s ≡ true
unfolding is_involution mpbb_s mpbb_crypt
s-inverts-s = refl

pub mpbb_i-mpbb_r : (x : ℕ) → x < 256 → mpbb_i (mpbb_r x) ≡ x
mpbb_i-mpbb_r x = is_inverse_of_sound mpbb_r mpbb_i x i-inverts-r

pub mpbb_r-mpbb_i : (x : ℕ) → x < 256 → mpbb_r (mpbb_i x) ≡ x
mpbb_r-mpbb_i x = is_inverse_of_sound mpbb_i mpbb_r x r-inverts-i

pub mpbb_s-mpbb_s : (x : ℕ) → x < 256 → mpbb_s (mpbb_s x) ≡ x
mpbb_s-mpbb_s x = is_involution_sound mpbb_s x s-inverts-s

below : (t : ℕ → ℕ) → holds_below 256 (λ x. leb (t x) 255) ≡ true → (x : ℕ) → x < 256 → t x < 256
below t e x h = ground (arith, test_below 256 (λ x. leb (t x) 255) {v = x} h e)

pub mpbb_r-lt : (x : ℕ) → x < 256 → mpbb_r x < 256
unfolding mpbb_r mpbb_crypt holds_below
mpbb_r-lt = below mpbb_r refl

pub mpbb_s-lt : (x : ℕ) → x < 256 → mpbb_s x < 256
unfolding mpbb_s mpbb_crypt holds_below
mpbb_s-lt = below mpbb_s refl

pub mpbb_i-lt : (x : ℕ) → x < 256 → mpbb_i x < 256
unfolding mpbb_i mpbb_crypt holds_below
mpbb_i-lt = below mpbb_i refl
