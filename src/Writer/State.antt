-- ===== src/Writer/State.antt =====
-- src/writer.cpp: the state that the writers give to `serializeHeader`.
use pst_dev.Prelude.{
  ℕ, zero, suc, ◌+◌, ◌*◌, ◌%◌, ◌^◌, ◌≤◌, ◌<◌, arith, List, [], ◌∷◌, bit_and, bit_or, set, get_or,
  replicate,
}
use pst_dev.Prelude.Bits.{bit_and_ones, bit_or_shift}
use pst_dev.Ident.{Bid, Bref}
use pst_dev.Ndb.{start_index, populate_loop, populate_fresh_rgnid}
use pst_dev.Ndb.Header.{IsWriterState}
use pst_dev.Writer.{cb_amap_free_for, writer_state}

abbrev Words : List ℕ → Type 0
Words xs = (i : ℕ) → get_or xs i 0 < 2 ^ 32

set-Words : (xs : List ℕ) (at v : ℕ) → v < 2 ^ 32 → Words xs → Words (set xs at v)
set-Words [] at v h w i = omega arith
set-Words (x ∷ xs) zero v h w zero = h
set-Words (x ∷ xs) zero v h w (suc i) = w (suc i)
set-Words (x ∷ xs) (suc at) v h w zero = w 0
set-Words (x ∷ xs) (suc at) v h w (suc i) = set-Words xs at v h (λ j. w (suc j)) i

replicate-Words : (n : ℕ) → Words (replicate n 0)
replicate-Words zero i = omega arith
replicate-Words (suc n) zero = omega arith
replicate-Words (suc n) (suc i) = replicate-Words n i

start_index-le : (t : ℕ) → start_index t ≤ 0x10000
unfolding start_index
start_index-le t = ground arith

counter-lt : (t : ℕ) → bit_or (start_index t * 2 ^ 5) (bit_and t 0x1f) < 2 ^ 32
counter-lt t =
    rw (bit_and_ones 5 t, bit_or_shift 5 (start_index t) (t % 2 ^ 5) (omega arith))
      (omega (arith, start_index-le t))

populate_loop-Words : (n t : ℕ) (xs : List ℕ) → Words xs → Words (populate_loop n t xs)
unfolding populate_loop
populate_loop-Words zero t xs w = w
populate_loop-Words (suc n) t xs w =
    populate_loop-Words n (t + 1) _
      (set-Words xs t (bit_or (start_index t * 2 ^ 5) (bit_and t 0x1f)) (counter-lt t) w)

cb_amap_free_for-lt : (eof : ℕ) → cb_amap_free_for eof < 2 ^ 64
unfolding cb_amap_free_for
cb_amap_free_for-lt eof = omega arith

-- Of numbers of 64 bits the writers make a state whose every field fits.
pub writer_state-IsWriterState :
    (eof : ℕ) (next_p next_b : Bid) (nbt bbt : Bref)
    → eof < 2 ^ 64
    → (next_p.value < 2 ^ 64) × (next_b.value < 2 ^ 64)
    → (nbt.bid.value < 2 ^ 64) × (nbt.ib.value < 2 ^ 64)
    → (bbt.bid.value < 2 ^ 64) × (bbt.ib.value < 2 ^ 64)
    → IsWriterState (writer_state eof next_p next_b nbt bbt)
unfolding writer_state populate_fresh_rgnid
writer_state-IsWriterState eof next_p next_b nbt bbt e (p, b) (n, ni) (t, ti) = record {
  reserved1 = omega arith;
  reserved2 = omega arith;
  unused = omega arith;
  next_p = p;
  next_b = b;
  unique = omega arith;
  nids = populate_loop-Words 32 0 (replicate 32 0) (replicate-Words 32);
  eof = e;
  amap_last = omega arith;
  amap_free = cb_amap_free_for-lt eof;
  pmap_free = omega arith;
  nbt_bid = n;
  nbt_ib = ni;
  bbt_bid = t;
  bbt_ib = ti;
  amap_valid = omega arith;
}
