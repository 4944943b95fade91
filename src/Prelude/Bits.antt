-- ===== src/Prelude/Bits.antt =====
-- The bit operations by their lowest digit, and the laws that follow at every width.
use Prim.Native.Nat.{ℕ, zero, suc, ◌+◌, ◌-◌, ◌*◌, ◌/◌, ◌%◌, ◌^◌, ◌≤◌, ◌<◌, min, max}
use Prim.Native.Nat.{bit_and, bit_or, bit_xor, digits, differ}
use Prim.Native.Nat.{bit_and-bitwise, bit_or-bitwise, bit_xor-bitwise}
use mathlib.Core.Path.{◌≡◌, refl, ap, ap₂, sym, ◌∙◌}
use native.Mathlib.Nat.{
  pow-suc, one-le-pow, div-div-eq-div-mul, mod-eq_of_lt, mul-add-mod_self_right, div-add-mod',
}
use native.Mathlib.Omega.{arith}

-- What is left of the count of digits does not matter once it covers the first number.
enough_digits :
    (z : ℕ → ℕ) (f : ℕ → ℕ → ℕ) (k a b : ℕ) → a ≤ k → digits z f k a b ≡ digits z f a a b
enough_digits z f k a b h = go k a a b h (omega arith)
  where
    go : (k m a b : ℕ) → a ≤ k → a ≤ m → digits z f k a b ≡ digits z f m a b
    go zero zero a b p q = refl
    go (suc k) zero zero b p q = refl
    go zero (suc m) zero b p q = refl
    go (suc k) (suc m) zero b p q = refl
    go zero m (suc a) b p q = absurd (omega arith)
    go (suc k) zero (suc a) b p q = absurd (omega arith)
    go (suc k) (suc m) (suc a) b p q =
        ap (λ (t : ℕ). t * 2 + f (suc a % 2) (b % 2))
          (go k m (suc a / 2) (b / 2) (omega arith) (omega arith))

differ-mod : (x y : ℕ) → x < 2 → y < 2 → differ x y ≡ (x + y) % 2
differ-mod zero y p q = omega arith
differ-mod (suc zero) zero p q = omega arith
differ-mod (suc zero) (suc zero) p q = omega arith
differ-mod (suc zero) (suc (suc y)) p q = absurd (omega arith)
differ-mod (suc (suc x)) y p q = absurd (omega arith)

-- The lowest digit, and the rest.
pub bit_and_low : (x y : ℕ) → bit_and x y ≡ bit_and (x / 2) (y / 2) * 2 + min (x % 2) (y % 2)
bit_and_low zero y = omega (arith, bit_and-bitwise 0 y, bit_and-bitwise 0 (y / 2))
bit_and_low (suc x) y =
    let rest = enough_digits (λ _. 0) min x (suc x / 2) (y / 2) (omega arith) in
    omega (arith, bit_and-bitwise (suc x / 2) (y / 2), bit_and-bitwise (suc x) y, rest)

pub bit_or_low : (a b : ℕ) → bit_or a b ≡ bit_or (a / 2) (b / 2) * 2 + max (a % 2) (b % 2)
bit_or_low zero b = omega (arith, bit_or-bitwise 0 b, bit_or-bitwise 0 (b / 2))
bit_or_low (suc a) b = omega (
  arith,
  bit_or-bitwise (suc a) b,
  bit_or-bitwise (suc a / 2) (b / 2),
  enough_digits (λ y. y) max a (suc a / 2) (b / 2) (omega arith),
)

pub bit_xor_low : (a b : ℕ) → bit_xor a b ≡ bit_xor (a / 2) (b / 2) * 2 + (a + b) % 2
bit_xor_low zero b = omega (arith, bit_xor-bitwise 0 b, bit_xor-bitwise 0 (b / 2))
bit_xor_low (suc a) b = omega (
  arith,
  bit_xor-bitwise (suc a) b,
  bit_xor-bitwise (suc a / 2) (b / 2),
  enough_digits (λ y. y) differ a (suc a / 2) (b / 2) (omega arith),
  differ-mod (suc a % 2) (b % 2) (omega arith) (omega arith),
)

-- Laws of the exclusive or, by induction on a bound of the operands.
xor-zero_to : (k a : ℕ) → a ≤ k → bit_xor a 0 ≡ a
xor-zero_to k zero h = refl
xor-zero_to zero (suc a) h = absurd (omega arith)
xor-zero_to (suc k) (suc a) h =
    omega (arith, bit_xor_low (suc a) 0, xor-zero_to k (suc a / 2) (omega arith))

pub bit_xor-zero : (a : ℕ) → bit_xor a 0 ≡ a
bit_xor-zero a = xor-zero_to a a (omega arith)

pub zero-bit_xor : (a : ℕ) → bit_xor 0 a ≡ a
zero-bit_xor a = bit_xor-bitwise 0 a

xor_comm_to : (k a b : ℕ) → a + b ≤ k → bit_xor a b ≡ bit_xor b a
xor_comm_to k zero b h = omega (arith, bit_xor-zero b, zero-bit_xor b)
xor_comm_to zero (suc a) b h = absurd (omega arith)
xor_comm_to (suc k) (suc a) b h = omega (
  arith,
  bit_xor_low (suc a) b,
  bit_xor_low b (suc a),
  xor_comm_to k (suc a / 2) (b / 2) (omega arith),
)

pub bit_xor_comm : (a b : ℕ) → bit_xor a b ≡ bit_xor b a
bit_xor_comm a b = xor_comm_to (a + b) a b (omega arith)

xor_half : (a b : ℕ) → bit_xor a b / 2 ≡ bit_xor (a / 2) (b / 2)
xor_half a b = omega (arith, bit_xor_low a b)

xor_parity : (a b : ℕ) → bit_xor a b % 2 ≡ (a + b) % 2
xor_parity a b = omega (arith, bit_xor_low a b)

xor_assoc_to : (k a b c : ℕ) → a + b ≤ k → bit_xor (bit_xor a b) c ≡ bit_xor a (bit_xor b c)
xor_assoc_to k zero b c h = omega (
  arith,
  zero-bit_xor b,
  zero-bit_xor (bit_xor b c),
  ap (λ (t : ℕ). bit_xor t c) (zero-bit_xor b),
)
xor_assoc_to zero (suc a) b c h = absurd (omega arith)
xor_assoc_to (suc k) (suc a) b c h = omega (
  arith,
  bit_xor_low (bit_xor (suc a) b) c,
  bit_xor_low (suc a) (bit_xor b c),
  xor_parity (suc a) b,
  xor_parity b c,
  ap (λ (t : ℕ). bit_xor t (c / 2)) (xor_half (suc a) b),
  ap (λ (t : ℕ). bit_xor (suc a / 2) t) (xor_half b c),
  xor_assoc_to k (suc a / 2) (b / 2) (c / 2) (omega arith),
)

pub bit_xor_assoc : (a b c : ℕ) → bit_xor (bit_xor a b) c ≡ bit_xor a (bit_xor b c)
bit_xor_assoc a b c = xor_assoc_to (a + b) a b c (omega arith)

xor_self_to : (k a : ℕ) → a ≤ k → bit_xor a a ≡ 0
xor_self_to k zero h = refl
xor_self_to zero (suc a) h = absurd (omega arith)
xor_self_to (suc k) (suc a) h =
    omega (arith, bit_xor_low (suc a) (suc a), xor_self_to k (suc a / 2) (omega arith))

pub bit_xor_self : (a : ℕ) → bit_xor a a ≡ 0
bit_xor_self a = xor_self_to a a (omega arith)

pub bit_xor-half : (a b : ℕ) → bit_xor a b / 2 ≡ bit_xor (a / 2) (b / 2)
bit_xor-half = xor_half

pub bit_xor-mod_two : (a b : ℕ) → bit_xor a b % 2 ≡ (a + b) % 2
bit_xor-mod_two = xor_parity

-- The inclusive or.
or-zero_to : (k a : ℕ) → a ≤ k → bit_or a 0 ≡ a
or-zero_to k zero h = refl
or-zero_to zero (suc a) h = absurd (omega arith)
or-zero_to (suc k) (suc a) h =
    omega (arith, bit_or_low (suc a) 0, or-zero_to k (suc a / 2) (omega arith))

or_comm_to : (k a b : ℕ) → a + b ≤ k → bit_or a b ≡ bit_or b a
or_comm_to k zero b h = bit_or-bitwise 0 b ∙ sym (or-zero_to b b (omega arith))
or_comm_to zero (suc a) b h = absurd (omega arith)
or_comm_to (suc k) (suc a) b h = omega (
  arith,
  bit_or_low (suc a) b,
  bit_or_low b (suc a),
  or_comm_to k (suc a / 2) (b / 2) (omega arith),
)

pub bit_or_comm : (a b : ℕ) → bit_or a b ≡ bit_or b a
bit_or_comm a b = or_comm_to (a + b) a b (omega arith)

-- Words of `k` bits.
pow_step : (k : ℕ) → 2 ^ suc k ≡ 2 * 2 ^ k
pow_step k = omega (arith, pow-suc 2 k)

pub bit_xor-lt : (k a b : ℕ) → a < 2 ^ k → b < 2 ^ k → bit_xor a b < 2 ^ k
bit_xor-lt zero zero zero p q = omega (arith, bit_xor_self 0)
bit_xor-lt zero zero (suc b) p q = absurd (omega arith)
bit_xor-lt zero (suc a) b p q = absurd (omega arith)
bit_xor-lt (suc k) a b p q =
    let e = pow_step k in
    let ih = bit_xor-lt k (a / 2) (b / 2) (omega arith) (omega arith) in
    omega (arith, bit_xor_low a b)

-- A shift joined with a word that fits below it is a sum.
pub bit_or_shift : (k q r : ℕ) → r < 2 ^ k → bit_or (q * 2 ^ k) r ≡ q * 2 ^ k + r
bit_or_shift zero q zero h = or-zero_to (q * 1) (q * 1) (omega arith) ∙ omega arith
bit_or_shift zero q (suc r) h = absurd (omega arith)
bit_or_shift (suc k) q r h =
    let e : q * 2 ^ suc k ≡ 2 * (q * 2 ^ k) = omega (arith, ap (λ (t : ℕ). q * t) (pow_step k)) in
    let ih = bit_or_shift k q (r / 2) (omega (arith, pow_step k)) in
    ground (arith, bit_or_low (q * 2 ^ suc k) r, ih)

-- A mask of `k` ones keeps the lower field.
and-zero_to : (k a : ℕ) → a ≤ k → bit_and a 0 ≡ 0
and-zero_to k zero h = refl
and-zero_to zero (suc a) h = absurd (omega arith)
and-zero_to (suc k) (suc a) h =
    omega (arith, bit_and_low (suc a) 0, and-zero_to k (suc a / 2) (omega arith))

ones_keep_low : (k q r : ℕ) → r < 2 ^ k → bit_and (q * 2 ^ k + r) (2 ^ k - 1) ≡ r
ones_keep_low zero q r h = and-zero_to (q * 1 + r) _ (omega arith) ∙ omega arith
ones_keep_low (suc k) q r h =
    let e = pow_step k in
    let shifted : q * 2 ^ suc k ≡ 2 * (q * 2 ^ k) = omega (arith, ap (λ (t : ℕ). q * t) e) in
    let low = bit_and_low (q * 2 ^ suc k + r) (2 ^ suc k - 1) in
    ground (arith, low, one-le-pow k 2, ones_keep_low k q (r / 2) (omega arith))

pub bit_and_ones : (k a : ℕ) → bit_and a (2 ^ k - 1) ≡ a % 2 ^ k
bit_and_ones k a =
    let size = one-le-pow k 2 in ground (arith, size, ones_keep_low k (a / 2 ^ k) (a % 2 ^ k))

-- A mask that clears `k` bits: `h` is the mask of what stands above them.
pub bit_and_clear : (k x h : ℕ) → bit_and x (h * 2 ^ k) ≡ bit_and (x / 2 ^ k) h * 2 ^ k
bit_and_clear zero x h =
    let e : h * 1 ≡ h = omega arith in
    let d : x / 1 ≡ x = omega arith in
    omega (arith, ap (bit_and x) e, ap (λ (t : ℕ). bit_and t h) d)
bit_and_clear (suc k) x h =
    let even : h * 2 ^ suc k ≡ 2 * (h * 2 ^ k) =
      omega (arith, ap (λ (t : ℕ). h * t) (pow_step k)) in
    let half : h * 2 ^ suc k / 2 ≡ h * 2 ^ k = omega arith in
    let inner = bit_and_clear k (x / 2) h in
    let down : x / 2 / 2 ^ k ≡ x / 2 ^ suc k =
      div-div-eq-div-mul x 2 (2 ^ k) ∙ ap (λ (t : ℕ). x / t) (sym (pow_step k)) in
    omega (
      arith,
      bit_and_low x (h * 2 ^ suc k),
      ap (bit_and (x / 2)) half,
      ap (λ (t : ℕ). bit_and t h * 2 ^ k) down,
      ap (λ (t : ℕ). bit_and (x / 2 ^ suc k) h * t) (pow_step k),
    )

pub bit_xor_shift : (k q r : ℕ) → r < 2 ^ k → bit_xor (q * 2 ^ k) r ≡ q * 2 ^ k + r
bit_xor_shift zero q zero h = bit_xor-zero (q * 1) ∙ omega arith
bit_xor_shift zero q (suc r) h = absurd (omega arith)
bit_xor_shift (suc k) q r h =
    let e : q * 2 ^ suc k ≡ 2 * (q * 2 ^ k) = omega (arith, ap (λ (t : ℕ). q * t) (pow_step k)) in
    let ih = bit_xor_shift k q (r / 2) (omega (arith, pow_step k)) in
    ground (arith, bit_xor_low (q * 2 ^ suc k) r, ih)

pub bit_xor-shr : (k a b : ℕ) → bit_xor a b / 2 ^ k ≡ bit_xor (a / 2 ^ k) (b / 2 ^ k)
bit_xor-shr zero a b =
    let d : (x : ℕ) → x / 1 ≡ x = λ x. omega arith in rw (d (bit_xor a b), d a, d b)
bit_xor-shr (suc k) a b =
    down (bit_xor a b)
    ∙ ap (λ (t : ℕ). t / 2 ^ k) (xor_half a b)
    ∙ bit_xor-shr k (a / 2) (b / 2)
    ∙ ap₂ bit_xor (sym (down a)) (sym (down b))
  where
    down : (x : ℕ) → x / 2 ^ suc k ≡ x / 2 / 2 ^ k
    down x = ap (λ (t : ℕ). x / t) (pow_step k) ∙ sym (div-div-eq-div-mul x 2 (2 ^ k))

-- The low word by the low digit.
mod_digit : (k x : ℕ) → x % 2 ^ suc k ≡ x / 2 % 2 ^ k * 2 + x % 2
mod_digit k x =
    let q = x / 2 / 2 ^ k in
    let r = x / 2 % 2 ^ k in
    let scaled : q * 2 ^ suc k ≡ 2 * (q * 2 ^ k) =
      omega (arith, ap (λ (t : ℕ). q * t) (pow_step k)) in
    let whole : x ≡ q * 2 ^ suc k + (r * 2 + x % 2) =
      omega (arith, div-add-mod' (x / 2) (2 ^ k), scaled) in
    ap (λ (t : ℕ). t % 2 ^ suc k) whole
    ∙ mul-add-mod_self_right q (2 ^ suc k) (r * 2 + x % 2)
    ∙ mod-eq_of_lt (omega (arith, pow_step k, one-le-pow k 2))

pub bit_xor-mod : (k a b : ℕ) → bit_xor a b % 2 ^ k ≡ bit_xor (a % 2 ^ k) (b % 2 ^ k)
bit_xor-mod zero a b =
    let low : (x : ℕ) → x % 1 ≡ 0 = λ x. omega arith in
    rw (low (bit_xor a b), low a, low b) (sym (bit_xor_self 0))
bit_xor-mod (suc k) a b =
    let half : (x : ℕ) → x % 2 ^ suc k / 2 ≡ x / 2 % 2 ^ k = λ x. omega (arith, mod_digit k x) in
    omega (
      arith,
      mod_digit k (bit_xor a b),
      ap (λ (t : ℕ). t % 2 ^ k) (xor_half a b),
      bit_xor-mod k (a / 2) (b / 2),
      xor_parity a b,
      bit_xor_low (a % 2 ^ suc k) (b % 2 ^ suc k),
      ap₂ bit_xor (half a) (half b),
      mod_digit k a,
      mod_digit k b,
    )
