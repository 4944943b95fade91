-- ===== src/Block/Seal.antt =====
-- src/block.cpp: the size of a block, and its trailer as `readBlockTrailer` sees it.
use pst_dev.Prelude.{
  ℕ, ◌+◌, ◌-◌, ◌*◌, ◌/◌, ◌%◌, ◌^◌, ◌≤◌, ◌<◌, ◌≡◌, refl, ap, ◌∙◌, sym, arith, List, [], ◌∷◌, length,
  true, false, some, ltb,
}
use native.Mathlib.Nat.{mod-eq_of_lt}
use pst_dev.Prelude.Bits.{bit_and_clear, bit_and_ones}
use pst_dev.Bytes.{slice, u16, u64}
use pst_dev.Bytes.Laws.{
  read_le, IsBytes, write_u16-write_le, write_u32-write_le, write_u64-write_le, read_u16-read_le,
  read_u32-read_le, read_u64-read_le,
}
use pst_dev.Bytes.Fields.{
  Field, write_fields, fits, clear, field_at, length-write_fields, IsBytes-write_fields,
  read_le-write_fields,
}
use pst_dev.Bytes.Copy.{slice-write_fields-clear}
use pst_dev.Ident.{Bid, Ib}
use pst_dev.Crc.{crc32}
use pst_dev.Crc.Prefix.{crc32_ext, crc32-lt}
use pst_dev.Ndb.{compute_block_sig}
use pst_dev.Ndb.Trailer.{compute_block_sig-lt}
use pst_dev.Block.{round_block_size, seal_block, read_block_trailer}

pub round_block_size-div :
    (body : ℕ) → body < 2 ^ 64 - 80 → round_block_size body ≡ (body + 79) / 64 * 64
unfolding round_block_size
round_block_size-div body h =
    let total : u64 (u64 (body + 16) + (64 - 1)) ≡ body + 79 = omega arith in
    let low : (body + 79) / 64 % 2 ^ 58 ≡ (body + 79) / 64 = omega arith in
    rw total (
      bit_and_clear 6 (body + 79) (2 ^ 58 - 1)
      ∙ ap (λ (t : ℕ). t * 64) (bit_and_ones 58 ((body + 79) / 64) ∙ low))

-- For a body of less than 2^64 - 80 bytes, the size of the block is a multiple of 64, has room
-- for the body and the trailer, and is the smallest such.
pub round_block_size_lem :
    (body : ℕ)
    → body < 2 ^ 64 - 80
    → (round_block_size body % 64 ≡ 0)
      × (body + 16 ≤ round_block_size body)
      × (round_block_size body < body + 16 + 64)
round_block_size_lem body h =
    rw (round_block_size-div body h) (omega arith, omega arith, omega arith)

module _ (buf : List ℕ) (off cb : ℕ) (bid : Bid) (ib : Ib) (size : length buf ≡ off + 16)
    (bytes : IsBytes buf) (room : cb ≤ off) (id : bid.value < 2 ^ 64) where
  trailer : List Field
  trailer =
      (off + 0, 2, u16 cb)
      ∷ (off + 2, 2, compute_block_sig bid ib)
      ∷ (off + 4, 4, crc32 buf cb)
      ∷ (off + 8, 8, bid.value)
      ∷ []

  abbrev block : List ℕ
  block = seal_block buf (off + 16) cb bid ib

  as_fields : seal_block buf (off + 16) cb bid ib ≡ write_fields trailer buf
  unfolding seal_block trailer write_fields
  as_fields =
      let e : off + 16 - 16 ≡ off = omega arith in
      rw e (simp (write_u16-write_le, write_u32-write_le, write_u64-write_le))

  in_block : fits (off + 16) trailer ≡ true
  unfolding fits trailer
  in_block = ground arith

  pub length-seal_block : length block ≡ off + 16
  length-seal_block = rw as_fields (length-write_fields trailer buf ∙ size)

  pub seal_block-IsBytes : IsBytes block
  seal_block-IsBytes = rw as_fields (IsBytes-write_fields trailer buf bytes)

  pub slice-seal_block : (at m : ℕ) → at + m ≤ off → slice block at m ≡ slice buf at m
  slice-seal_block at m h =
      rw as_fields
        (slice-write_fields-clear trailer buf at m (off + 16) size (omega arith) in_block below)
    where
      below : clear at m trailer ≡ true
      below = unfold clear trailer in ground arith

  reads : (at m : ℕ) {v : ℕ} → field_at at m trailer ≡ some v → v < 256 ^ m → read_le m block at ≡ v
  reads at m e h =
      rw as_fields
        (read_le-write_fields trailer buf at m (off + 16) size in_block e ∙ mod-eq_of_lt h)

  places :
      (field_at (off + 0) 2 trailer ≡ some (u16 cb))
      × (field_at (off + 2) 2 trailer ≡ some (compute_block_sig bid ib))
      × (field_at (off + 4) 4 trailer ≡ some (crc32 buf cb))
      × (field_at (off + 8) 8 trailer ≡ some bid.value)
  unfolding field_at clear trailer
  places = (ground arith, ground arith, ground arith, ground arith)

  seal_crc : crc32 buf cb ≡ crc32 block cb
  seal_crc = sym (crc32_ext block buf cb (slice-seal_block 0 cb (omega arith)))

  -- The trailer holds the size of the body cut to 16 bits, the signature, the checksum of the
  -- finished block's body, and the id.
  pub read_block_trailer-seal_block : read_block_trailer block (off + 16) ≡ record {
    cb = cb % 2 ^ 16;
    w_sig = compute_block_sig bid ib;
    dw_crc = crc32 block cb;
    bid = bid.value;
  }
  unfolding read_block_trailer
  read_block_trailer-seal_block =
      let e : off + 16 - 16 ≡ off = omega arith in
      let big : ltb (off + 16) 16 ≡ false = ground arith in
      rw
        (
          e,
          big,
          read_u16-read_le block (off + 0) seal_block-IsBytes
              ∙ reads (off + 0) 2 places.0 (omega arith),
          read_u16-read_le block (off + 2) seal_block-IsBytes
              ∙ reads (off + 2) 2 places.1 (compute_block_sig-lt bid ib),
          read_u32-read_le block (off + 4) seal_block-IsBytes
              ∙ reads (off + 4) 4 places.2 (crc32-lt buf cb (omega arith) bytes)
              ∙ seal_crc,
          read_u64-read_le block (off + 8) seal_block-IsBytes ∙ reads (off + 8) 8 places.3 id,
        )
        refl
