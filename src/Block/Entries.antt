-- ===== src/Block/Entries.antt =====
-- src/block.cpp: the header, the entries and the trailer of internal blocks.
use pst_dev.Prelude.{
  ℕ, ◌+◌, ◌-◌, ◌*◌, ◌%◌, ◌^◌, ◌≤◌, ◌<◌, ◌≡◌, refl, ap, ◌∙◌, sym, arith, List, [], ◌∷◌, length,
  length-replicate, get_elem?, some, inl, true,
}
use native.Mathlib.Nat.{mod-eq_of_lt}
use pst_dev.Bytes.{slice, byte_at, zeros, write_bytes, read_u16, read_u32}
use pst_dev.Bytes.Laws.{
  write_le, read_le, IsBytes, IsBytes-zeros, write_u16-write_le, write_u32-write_le,
  read_u16-read_le, read_u32-read_le,
}
use pst_dev.Bytes.Fields.{
  Field, write_fields, fits, clear, field_at, length-write_fields, IsBytes-write_fields,
  read_le-write_fields,
}
use pst_dev.Bytes.Copy.{
  length-write_bytes, IsBytes-write_bytes, slice-write_bytes, slice-write_bytes_other,
  read_le-slice,
}
use pst_dev.Bytes.Words.{write_u8-write_le, byte_at-read_le}
use pst_dev.Ident.{Bid, Ib}
use pst_dev.Crc.{crc32}
use pst_dev.Ndb.{compute_block_sig}
use pst_dev.Page.{write_entries}
use pst_dev.Page.Layout.{
  IsLayout, entry_fields, write_entries-fields, fits-entry_fields, field_at-entry_fields,
}
use pst_dev.Block.{round_block_size, seal_block, build_internal_block, read_block_trailer}
use pst_dev.Block.Seal.{
  round_block_size_lem, length-seal_block, slice-seal_block, seal_block-IsBytes,
  read_block_trailer-seal_block,
}

-- What is asked of a finished internal block: the header, the raw entries behind it, and the
-- trailer, whose size counts the header and the entries.
pub record IsFramed (block : List ℕ) (btype c_level c_ent pad : ℕ) (raw : List ℕ) (sig bid : ℕ)
    : Type 0 where
  pub size : length block ≡ round_block_size (8 + length raw)
  pub bytes : IsBytes block
  pub kind : byte_at block 0 ≡ btype
  pub level : byte_at block 1 ≡ c_level
  pub count : read_u16 block 2 ≡ c_ent
  pub padding : read_u32 block 4 ≡ pad
  pub entries : slice block 8 (length raw) ≡ raw
  pub trailer : read_block_trailer block (length block) ≡ record {
    cb = (8 + length raw) % 2 ^ 16;
    w_sig = sig;
    dw_crc = crc32 block (8 + length raw);
    bid = bid;
  }

header_fields : ℕ → ℕ → ℕ → ℕ → List Field
header_fields btype c_level c_ent pad =
    (0, 1, btype) ∷ (1, 1, c_level) ∷ (2, 2, c_ent) ∷ (4, 4, pad) ∷ []

module _ (btype c_level c_ent pad : ℕ) (raw : List ℕ) (bid : Bid) (ib : Ib)
    (one_byte : (btype < 256) × (c_level < 256)) (counted : (c_ent < 2 ^ 16) × (pad < 2 ^ 32))
    (bytes : IsBytes raw) (small : length raw < 2 ^ 64 - 88) (id : bid.value < 2 ^ 64) where
  off : ℕ
  off = round_block_size (8 + length raw) - 16

  room : (8 + length raw ≤ off) × (off + 16 ≡ round_block_size (8 + length raw))
  unfolding off
  room =
      let r = round_block_size_lem (8 + length raw) (omega arith) in
      (omega (arith, r.1), omega (arith, r.1))

  head : List ℕ
  head = write_fields (header_fields btype c_level c_ent pad) (zeros (off + 16))

  length-head : length head ≡ off + 16
  unfolding head
  length-head =
      length-write_fields (header_fields btype c_level c_ent pad) (zeros (off + 16))
      ∙ length-replicate {A = ℕ} (off + 16) 0

  IsBytes-head : IsBytes head
  unfolding head
  IsBytes-head =
      IsBytes-write_fields (header_fields btype c_level c_ent pad) (zeros (off + 16))
        (IsBytes-zeros (off + 16))

  fits-head : fits (off + 16) (header_fields btype c_level c_ent pad) ≡ true
  unfolding fits header_fields
  fits-head = ground (arith, room)

  head_field :
      (at m : ℕ) {v : ℕ}
      → field_at at m (header_fields btype c_level c_ent pad) ≡ some v
      → v < 256 ^ m
      → read_le m head at ≡ v
  unfolding head
  head_field at m e h =
      read_le-write_fields (header_fields btype c_level c_ent pad) (zeros (off + 16)) at m
        (off + 16) (length-replicate {A = ℕ} (off + 16) 0) fits-head e
      ∙ mod-eq_of_lt h

  body : List ℕ
  body = write_bytes head 8 raw

  length-body : length body ≡ off + 16
  unfolding body
  length-body = length-write_bytes raw head 8 ∙ length-head

  raw_fits : 8 + length raw ≤ length head
  raw_fits = omega (arith, length-head, room.0)

  IsBytes-body : IsBytes body
  unfolding body
  IsBytes-body = IsBytes-write_bytes raw head 8 bytes IsBytes-head

  abbrev block : List ℕ
  block = build_internal_block btype c_level c_ent pad raw bid ib

  as_seal : block ≡ seal_block body (off + 16) (8 + length raw) bid ib
  unfolding build_internal_block body head header_fields write_fields
  as_seal =
      rw
        (
          room.1,
          write_u8-write_le (zeros (round_block_size (8 + length raw))) 0 btype one_byte.0,
          write_u8-write_le (write_le 1 (zeros (round_block_size (8 + length raw))) 0 btype) 1
              c_level one_byte.1,
          write_u16-write_le,
          write_u32-write_le,
        )
        refl

  internal_slice : (at m : ℕ) → at + m ≤ off → slice block at m ≡ slice body at m
  internal_slice at m h =
      rw as_seal (
        slice-seal_block body off (8 + length raw) bid ib length-body IsBytes-body room.0 id at m h)

  header_slice : slice block 0 8 ≡ slice head 0 8
  unfolding body
  header_slice =
      internal_slice 0 8 (omega (arith, room.0))
      ∙ slice-write_bytes_other raw head 8 0 8 raw_fits (omega (arith, raw_fits))
          (inl (omega arith))

  header_reads :
      (at m : ℕ) {v : ℕ}
      → at + m ≤ 8
      → field_at at m (header_fields btype c_level c_ent pad) ≡ some v
      → v < 256 ^ m
      → read_le m block at ≡ v
  header_reads at m h e k =
      ap (read_le m block) (omega arith)
      ∙ sym (read_le-slice m block 0 8 at h)
      ∙ ap (λ (t : List ℕ). read_le m t at) header_slice
      ∙ read_le-slice m head 0 8 at h
      ∙ ap (read_le m head) (omega arith)
      ∙ head_field at m e k

  internal_length : length block ≡ off + 16
  internal_length =
      rw as_seal
        (length-seal_block body off (8 + length raw) bid ib length-body IsBytes-body room.0 id)

  block-IsBytes : IsBytes block
  block-IsBytes =
      rw as_seal
        (seal_block-IsBytes body off (8 + length raw) bid ib length-body IsBytes-body room.0 id)

  -- An internal block whose kind, level, count and padding fit their fields, over raw entries of
  -- less than 2^64 - 88 bytes, has them in its header, the raw entries behind the header, and a
  -- trailer that counts both, with a checksum that holds of the finished block.
  pub build_internal_block-IsFramed :
      IsFramed block btype c_level c_ent pad raw (compute_block_sig bid ib) bid.value
  unfolding body header_fields field_at clear
  build_internal_block-IsFramed = record {
    size = internal_length ∙ room.1;
    bytes = block-IsBytes;
    kind = byte_at-read_le block 0 ∙ header_reads 0 1 (omega arith) refl one_byte.0;
    level = byte_at-read_le block 1 ∙ header_reads 1 1 (omega arith) refl one_byte.1;
    count = read_u16-read_le block 2 block-IsBytes ∙ header_reads 2 2 (omega arith) refl counted.0;
    padding =
        read_u32-read_le block 4 block-IsBytes ∙ header_reads 4 4 (omega arith) refl counted.1;
    entries = internal_slice 8 (length raw) room.0 ∙ slice-write_bytes raw head 8 raw_fits;
    trailer =
        rw (internal_length, as_seal)
          (read_block_trailer-seal_block body off (8 + length raw) bid ib length-body IsBytes-body
            room.0 id);
  }

-- An entry of the list reads back from the raw entries.
module _ {ℓ} {E : Type ℓ} {write : ℕ → E → List ℕ → List ℕ} (enc : ℕ → E → List Field) (size : ℕ)
    (layout : IsLayout E write enc size) (es : List E) where
  abbrev rg : List ℕ
  rg = write_entries write size 0 es (zeros (length es * size))

  rg_fields : rg ≡ write_fields (entry_fields enc size 0 es) (zeros (length es * size))
  rg_fields = write_entries-fields enc size layout es 0 (zeros (length es * size))

  pub length-rg : length rg ≡ length es * size
  length-rg = rw rg_fields (
      length-write_fields (entry_fields enc size 0 es) (zeros (length es * size))
      ∙ length-replicate {A = ℕ} (length es * size) 0)

  pub IsBytes-rg : IsBytes rg
  IsBytes-rg =
      rw rg_fields
        (IsBytes-write_fields (entry_fields enc size 0 es) _ (IsBytes-zeros (length es * size)))

  pub rg_entry :
      (j : ℕ) {e : E} (at m : ℕ) {v : ℕ}
      → get_elem? es j ≡ some e
      → 0 < m
      → at + m ≤ j * size + size
      → field_at at m (enc (j * size) e) ≡ some v
      → v < 256 ^ m
      → read_le m rg at ≡ v
  rg_entry j {e} at m g pos hi f k =
      let z : 0 + j ≡ j = omega arith in
      rw rg_fields (
        read_le-write_fields (entry_fields enc size 0 es) (zeros (length es * size)) at m
          (length es * size) (length-replicate {A = ℕ} (length es * size) 0)
          (fits-entry_fields enc size layout es 0 (length es * size) (grind arith))
          (field_at-entry_fields enc size layout es 0 j {e = e} at m g pos (rw z hi) (rw z f))
        ∙ mod-eq_of_lt k)
