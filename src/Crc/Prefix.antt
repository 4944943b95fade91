-- ===== src/Crc/Prefix.antt =====
-- src/crc.cpp: which bytes the checksum reads, and its range.
use pst_dev.Prelude.{
  ℕ, zero, suc, ◌^◌, ◌≤◌, ◌<◌, ◌≡◌, refl, ap, ◌∙◌, sym, arith, List, [], ◌∷◌, length, take,
}
use pst_dev.Bytes.Laws.{IsBytes}
use pst_dev.Crc.{crc32, crc_loop, crc_update}
use pst_dev.Crc.Bitwise.{crc32-crc_bitwise}
use pst_dev.Crc.Detect.{AllBytes, crc_bitwise-lt}

crc_loop-take : (n : ℕ) (buf : List ℕ) (c : ℕ) → crc_loop n (take n buf) c ≡ crc_loop n buf c
unfolding crc_loop
crc_loop-take zero buf c = refl
crc_loop-take (suc n) [] c = refl
crc_loop-take (suc n) (b ∷ bs) c = crc_loop-take n bs (crc_update c b)

pub crc32-take : (buf : List ℕ) (n : ℕ) → crc32 (take n buf) n ≡ crc32 buf n
unfolding crc32
crc32-take buf n = crc_loop-take n buf 0

pub crc32_ext : (xs ys : List ℕ) (n : ℕ) → take n xs ≡ take n ys → crc32 xs n ≡ crc32 ys n
crc32_ext xs ys n e = sym (crc32-take xs n) ∙ ap (λ (t : List ℕ). crc32 t n) e ∙ crc32-take ys n

AllBytes-take : (n : ℕ) (buf : List ℕ) → IsBytes buf → AllBytes (take n buf)
AllBytes-take zero buf h = tt
AllBytes-take (suc n) [] h = tt
AllBytes-take (suc n) (b ∷ bs) h = (h 0, AllBytes-take n bs (λ i. h (suc i)))

pub crc32-lt : (buf : List ℕ) (n : ℕ) → n ≤ length buf → IsBytes buf → crc32 buf n < 2 ^ 32
crc32-lt buf n h bytes =
    rw (crc32-crc_bitwise buf n h bytes)
      (crc_bitwise-lt (take n buf) 0 (AllBytes-take n buf bytes) (omega arith))
