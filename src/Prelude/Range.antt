-- ===== src/Prelude/Range.antt =====
-- Facts over a small range, checked at every value by evaluation.
use Prim.Native.Nat.{ℕ, zero, suc, ◌<◌}
use mathlib.Core.Path.{◌≡◌}
use mathlib.Core.Bool.{Bool, true, ◌&&◌}
use native.Mathlib.Omega.{arith}
use pst_dev.Prelude.Tests.{◌==◌, ==_iff}

unfoldable pub holds_below : ℕ → (ℕ → Bool) → Bool
holds_below zero test = true
holds_below (suc k) test = test k && holds_below k test

pub test_below :
    (k : ℕ) (test : ℕ → Bool) {v : ℕ} → v < k → holds_below k test ≡ true → test v ≡ true
unfolding holds_below
test_below zero test lt h = absurd (omega arith)
test_below (suc k) test {v} lt h = ground (arith, test_below k test {v = v})

-- Two functions that agree at every value below `n`.
pub eq_below :
    (n : ℕ) (f g : ℕ → ℕ) → holds_below n (λ x. f x == g x) ≡ true → (x : ℕ) → x < n → f x ≡ g x
eq_below n f g h x lt = (==_iff (f x) (g x)).0 (test_below n (λ x. f x == g x) {v = x} lt h)
