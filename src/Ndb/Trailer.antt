-- ===== src/Ndb/Trailer.antt =====
-- src/ndb.cpp: the page trailer.
use pst_dev.Prelude.{
  ℕ, ◌+◌, ◌^◌, ◌≤◌, ◌<◌, ◌≡◌, refl, ◌∙◌, sym, arith, List, [], ◌∷◌, ◌++◌, length, some, true,
  bit_xor, bit_and, if◌then◌else◌, ◌==◌, ◌/◌, ◌%◌, ap₂, ap,
}
use native.Mathlib.Nat.{mod-eq_of_lt}
use pst_dev.Prelude.Bits.{bit_and_ones, bit_xor-shr, bit_xor-mod}
use pst_dev.Bytes.{byte_at, read_u16, read_u32, read_u64, slice}
use pst_dev.Bytes.Laws.{
  write_le, read_le, IsBytes, write_u16-write_le, write_u32-write_le, write_u64-write_le,
  read_u16-read_le, read_u32-read_le, read_u64-read_le,
}
use pst_dev.Bytes.Fields.{
  Field, write_fields, fits, clear, field_at, length-write_fields, IsBytes-write_fields,
  read_le-write_fields, read_le-write_fields-clear,
}
use pst_dev.Bytes.Copy.{slice-write_fields-clear}
use pst_dev.Bytes.Words.{write_u8-write_le, byte_at-read_le}
use pst_dev.Ident.{Bid, Ib}
use pst_dev.Crc.{crc32}
use pst_dev.Crc.Prefix.{crc32_ext, crc32-lt}
use pst_dev.Ndb.{compute_block_sig, page_sig, write_page_trailer}

-- A page of 512 bytes whose trailer names its kind twice, carries the signature and the page's
-- own id, and whose checksum is that of the 496 bytes before the trailer.
pub record IsSealed (page : List ℕ) (ptype wsig bid : ℕ) : Type 0 where
  pub size : length page ≡ 512
  pub bytes : IsBytes page
  pub kind : byte_at page 496 ≡ ptype
  pub kind_repeat : byte_at page 497 ≡ ptype
  pub sig : read_u16 page 498 ≡ wsig
  pub crc : read_u32 page 500 ≡ crc32 page 496
  pub own_bid : read_u64 page 504 ≡ bid

pub compute_block_sig-lt : (bid : Bid) (ib : Ib) → compute_block_sig bid ib < 2 ^ 16
unfolding compute_block_sig
compute_block_sig-lt bid ib = omega arith

pub page_sig-lt : (ptype : ℕ) (bid : Bid) (ib : Ib) → page_sig ptype bid ib < 2 ^ 16
unfolding page_sig
page_sig-lt ptype bid ib = ground (arith, compute_block_sig-lt bid ib)

-- The signature that a page of a kind is to carry: on the pages of the two B-trees and of the
-- density list the exclusive or of the two halves of the low 32 bits of its offset and of its id,
-- on every other page 0.
abbrev pub half_words : ℕ → ℕ → ℕ
half_words bid ib =
    bit_xor (bit_xor (ib / 2 ^ 16 % 2 ^ 16) (bid / 2 ^ 16 % 2 ^ 16))
      (bit_xor (ib % 2 ^ 16) (bid % 2 ^ 16))

abbrev pub signature_of : ℕ → ℕ → ℕ → ℕ
signature_of ptype bid ib =
    if ptype == 0x80
    then half_words bid ib
    else if ptype == 0x81
    then half_words bid ib
    else if ptype == 0x86
    then half_words bid ib
    else 0

compute_block_sig-half_words :
    (bid : Bid) (ib : Ib) → compute_block_sig bid ib ≡ half_words bid.value ib.value
unfolding compute_block_sig
compute_block_sig-half_words bid ib =
    let x = bit_xor ib.value bid.value in
    let mix = bit_and_ones 32 x in
    let low = bit_and_ones 16 (bit_and x 0xffffffff) in
    let upper : bit_and x 0xffffffff / 2 ^ 16 ≡ x / 2 ^ 16 % 2 ^ 16 = omega arith in
    let lower : bit_and (bit_and x 0xffffffff) 0xffff ≡ x % 2 ^ 16 = omega arith in
    let high_word : x / 2 ^ 16 % 2 ^ 16
        ≡ bit_xor (ib.value / 2 ^ 16 % 2 ^ 16) (bid.value / 2 ^ 16 % 2 ^ 16) =
      ap (λ (t : ℕ). t % 2 ^ 16) (bit_xor-shr 16 ib.value bid.value)
      ∙ bit_xor-mod 16 (ib.value / 2 ^ 16) (bid.value / 2 ^ 16) in
    let cut : bit_and x 0xffffffff % 2 ^ 32 ≡ bit_and x 0xffffffff = omega arith in
    let folded : bit_xor (x / 2 ^ 16 % 2 ^ 16) (x % 2 ^ 16) % 2 ^ 16
        ≡ bit_xor (x / 2 ^ 16 % 2 ^ 16) (x % 2 ^ 16) =
      bit_xor-mod 16 (x / 2 ^ 16 % 2 ^ 16) (x % 2 ^ 16) ∙ ap₂ bit_xor (omega arith) (omega arith) in
    rw (cut, upper, lower) (folded ∙ ap₂ bit_xor high_word (bit_xor-mod 16 ib.value bid.value))

page_sig-signature_of :
    (ptype : ℕ) (bid : Bid) (ib : Ib)
    → page_sig ptype bid ib ≡ signature_of ptype bid.value ib.value
unfolding page_sig
page_sig-signature_of ptype bid ib = ground (arith, compute_block_sig-half_words bid ib)

-- The writes in front of the checksum, and all of them.
trailer_head : ℕ → ℕ → List Field
trailer_head ptype wsig = (496, 1, ptype) ∷ (497, 1, ptype) ∷ (498, 2, wsig) ∷ []

trailer_fields : ℕ → ℕ → ℕ → ℕ → List Field
unfolding trailer_head
trailer_fields ptype wsig crc bid = trailer_head ptype wsig ++ ((500, 4, crc) ∷ (504, 8, bid) ∷ [])

module _ (page : List ℕ) (ptype : ℕ) (bid : Bid) (ib : Ib) (size : length page ≡ 512)
    (bytes : IsBytes page) (kind : ptype < 256) (id : bid.value < 2 ^ 64) where
  abbrev sealed : List ℕ
  sealed = write_page_trailer page ptype bid ib

  head_crc :
      crc32 (write_fields (trailer_head ptype (page_sig ptype bid ib)) page) 496 ≡ crc32 page 496
  unfolding trailer_head fits clear
  head_crc = crc32_ext (write_fields (trailer_head ptype (page_sig ptype bid ib)) page) page 496 (
      slice-write_fields-clear (trailer_head ptype (page_sig ptype bid ib)) page 0 496 512 size
        (omega arith) refl refl)

  all_fields : List Field
  unfolding trailer_fields
  all_fields = trailer_fields ptype (page_sig ptype bid ib) (crc32 page 496) bid.value

  as_fields : write_page_trailer page ptype bid ib ≡ write_fields all_fields page
  unfolding write_page_trailer all_fields write_fields
  as_fields =
      rw
        (
          write_u8-write_le page 496 ptype kind,
          write_u8-write_le (write_le 1 page 496 ptype) 497 ptype kind,
          write_u16-write_le,
          write_u32-write_le,
          write_u64-write_le,
          head_crc,
        )
        refl

  in_page : fits 512 all_fields ≡ true
  unfolding fits all_fields
  in_page = refl

  pub slice-write_page_trailer :
      (at m : ℕ)
      → at + m ≤ 496
      → slice (write_page_trailer page ptype bid ib) at m ≡ slice page at m
  slice-write_page_trailer at m h =
      rw as_fields
        (slice-write_fields-clear all_fields page at m 512 size (omega arith) in_page clear_below)
    where
      clear_below : clear at m all_fields ≡ true
      clear_below = unfold clear all_fields in ground arith

  pub read_le-write_page_trailer :
      (at m : ℕ)
      → at + m ≤ 496
      → read_le m (write_page_trailer page ptype bid ib) at ≡ read_le m page at
  read_le-write_page_trailer at m h =
      rw as_fields (read_le-write_fields-clear all_fields page at m 512 size in_page clear_below)
    where
      clear_below : clear at m all_fields ≡ true
      clear_below = unfold clear all_fields in ground arith

  module _ (at m : ℕ) where
    reads :
        {v : ℕ}
        → field_at at m all_fields ≡ some v
        → v < 256 ^ m
        → read_le m (write_page_trailer page ptype bid ib) at ≡ v
    reads e h =
        rw as_fields (read_le-write_fields all_fields page at m 512 size in_page e ∙ mod-eq_of_lt h)

  pub write_page_trailer-IsBytes : IsBytes (write_page_trailer page ptype bid ib)
  write_page_trailer-IsBytes = rw as_fields (IsBytes-write_fields all_fields page bytes)

  pub write_page_trailer_sealed :
      IsSealed (write_page_trailer page ptype bid ib) ptype (page_sig ptype bid ib) bid.value
  unfolding field_at all_fields clear
  write_page_trailer_sealed = record {
    size = rw as_fields (length-write_fields all_fields page ∙ size);
    bytes = write_page_trailer-IsBytes;
    kind = byte_at-read_le sealed 496 ∙ reads 496 1 refl (omega arith);
    kind_repeat = byte_at-read_le sealed 497 ∙ reads 497 1 refl (omega arith);
    sig =
        read_u16-read_le sealed 498 write_page_trailer-IsBytes
        ∙ reads 498 2 refl (page_sig-lt ptype bid ib);
    crc =
        read_u32-read_le sealed 500 write_page_trailer-IsBytes
        ∙ reads 500 4 refl (crc32-lt page 496 (omega arith) bytes)
        ∙ sym (crc32_ext sealed page 496 (slice-write_page_trailer 0 496 (omega arith)));
    own_bid = read_u64-read_le sealed 504 write_page_trailer-IsBytes ∙ reads 504 8 refl id;
  }

  -- A page of 512 bytes with a one-byte kind and a 64-bit id is sealed by `writePageTrailer`: it
  -- keeps its size and is bytes, names its kind twice, and carries its id, the checksum of its
  -- finished first 496 bytes, and the signature of its kind: on the pages of the two B-trees and of
  -- the density list the exclusive or of the two halves of the low 32 bits of its offset and of its
  -- id, on every other page 0.
  pub write_page_trailer-IsSealed :
      IsSealed
        (write_page_trailer page ptype bid ib)
        ptype
        (signature_of ptype bid.value ib.value)
        bid.value
  write_page_trailer-IsSealed = rw page_sig-signature_of at write_page_trailer_sealed
