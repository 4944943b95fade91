-- ===== src/Ndb/Header.antt =====
-- src/ndb.cpp: HEADER as a reader finds it, and its two checksums.
use pst_dev.Prelude.{
  ℕ, ◌+◌, ◌*◌, ◌^◌, ◌≤◌, ◌<◌, ◌≡◌, refl, ◌∙◌, sym, arith, List, [], ◌∷◌, ◌++◌, length, drop, some,
  true, get_or, inr, length-drop,
}
use native.Mathlib.Nat.{mod-eq_of_lt}
use pst_dev.Bytes.{byte_at, zeros, read_u16, read_u32, read_u64}
use pst_dev.Bytes.Laws.{
  write_le, read_le, IsBytes, IsBytes-zeros, write_u32-write_le, read_u16-read_le, read_u32-read_le,
  read_u64-read_le,
}
use pst_dev.Bytes.Fields.{
  field_at-append_front, Field, write_fields, fits, clear, field_at, length-write_fields,
  IsBytes-write_fields, read_le-write_fields, write_fields-append,
}
use pst_dev.Bytes.Copy.{slice-write_fields-clear, slice-write_le_other, byte_at-drop}
use pst_dev.Bytes.Words.{byte_at-read_le}
use pst_dev.Crc.{crc32}
use pst_dev.Crc.Prefix.{crc32_ext, crc32-lt}
use pst_dev.Ndb.{WriterState, header_ids, header_root, header_tail, serialize_header}
use pst_dev.Ndb.HeaderFields.{
  header_fields, nid_front, header_ids-fields, header_root-fields, header_tail-fields,
}

-- The numbers of a writer state fit their widths.
pub record IsWriterState (s : WriterState) : Type 0 where
  pub reserved1 : s.dw_reserved1 < 2 ^ 32
  pub reserved2 : s.dw_reserved2 < 2 ^ 32
  pub unused : s.bid_unused < 2 ^ 64
  pub next_p : s.bid_next_p.value < 2 ^ 64
  pub next_b : s.bid_next_b.value < 2 ^ 64
  pub unique : s.dw_unique < 2 ^ 32
  pub nids : (i : ℕ) → get_or s.rgnid i 0 < 2 ^ 32
  pub eof : s.root.ib_file_eof.value < 2 ^ 64
  pub amap_last : s.root.ib_amap_last.value < 2 ^ 64
  pub amap_free : s.root.cb_amap_free < 2 ^ 64
  pub pmap_free : s.root.cb_pmap_free < 2 ^ 64
  pub nbt_bid : s.root.bref_nbt.bid.value < 2 ^ 64
  pub nbt_ib : s.root.bref_nbt.ib.value < 2 ^ 64
  pub bbt_bid : s.root.bref_bbt.bid.value < 2 ^ 64
  pub bbt_ib : s.root.bref_bbt.ib.value < 2 ^ 64
  pub amap_valid : s.root.f_amap_valid < 256

-- What a reader finds in a header: the magic numbers, every field of the state, and two
-- checksums that hold of the header as it stands.
pub record IsHeaderOf (s : WriterState) (h : List ℕ) : Type 0 where
  pub size : length h ≡ 564
  pub magic : read_u32 h 0x000 ≡ 0x4e444221
  pub client : read_u16 h 0x008 ≡ 0x4d53
  pub version : read_u16 h 0x00a ≡ 23
  pub client_version : read_u16 h 0x00c ≡ 19
  pub reserved1 : read_u32 h 0x010 ≡ s.dw_reserved1
  pub reserved2 : read_u32 h 0x014 ≡ s.dw_reserved2
  pub unused : read_u64 h 0x018 ≡ s.bid_unused
  pub next_p : read_u64 h 0x020 ≡ s.bid_next_p.value
  pub unique : read_u32 h 0x028 ≡ s.dw_unique
  pub file_eof : read_u64 h 0x0b8 ≡ s.root.ib_file_eof.value
  pub amap_last : read_u64 h 0x0c0 ≡ s.root.ib_amap_last.value
  pub amap_free : read_u64 h 0x0c8 ≡ s.root.cb_amap_free
  pub pmap_free : read_u64 h 0x0d0 ≡ s.root.cb_pmap_free
  pub nbt_bid : read_u64 h 0x0d8 ≡ s.root.bref_nbt.bid.value
  pub nbt_ib : read_u64 h 0x0e0 ≡ s.root.bref_nbt.ib.value
  pub bbt_bid : read_u64 h 0x0e8 ≡ s.root.bref_bbt.bid.value
  pub bbt_ib : read_u64 h 0x0f0 ≡ s.root.bref_bbt.ib.value
  pub amap_valid : byte_at h 0x0f8 ≡ s.root.f_amap_valid
  pub sentinel : byte_at h 0x200 ≡ 0x80
  pub crypt_method : byte_at h 0x201 ≡ 0x01
  pub next_b : read_u64 h 0x204 ≡ s.bid_next_b.value
  pub nid_counters : (i : ℕ) → i < 32 → read_u32 h (0x02c + i * 4) ≡ get_or s.rgnid i 0
  pub crc_partial : read_u32 h 0x004 ≡ crc32 (drop 0x008 h) 471
  pub crc_full : read_u32 h 0x20c ≡ crc32 (drop 0x008 h) 516

module _ (s : WriterState) (valid : IsWriterState s) where
  -- HEADER before its checksums, and whole.
  body : List ℕ
  body = write_fields (header_fields s) (zeros 564)

  body_lem : header_tail s (header_root s.root (header_ids s (zeros 564))) ≡ body
  unfolding body header_fields
  body_lem = simp (
    header_ids-fields,
    header_tail-fields,
    header_root-fields s.root _ valid.amap_valid,
    write_fields-append,
  )

  crc_fields : List Field
  crc_fields =
      (0x004, 4, crc32 (drop 0x008 body) 471) ∷ (0x20c, 4, crc32 (drop 0x008 body) 516) ∷ []

  length-body : length body ≡ 564
  unfolding body
  length-body = length-write_fields (header_fields s) (zeros 564) ∙ refl

  -- The first checksum stands below the range of the second.
  crc_kept :
      (n : ℕ)
      → n ≤ 516
      → crc32 (drop 0x008 (write_le 4 body 0x004 (crc32 (drop 0x008 body) 471))) n
        ≡ crc32 (drop 0x008 body) n
  crc_kept n h = crc32_ext _ _ n (
      slice-write_le_other 4 body 0x004 _ 0x008 n (rw length-body (omega arith))
        (rw length-body (omega arith)) (inr (omega arith)))

  serialize_header-fields : serialize_header s ≡ write_fields crc_fields body
  unfolding serialize_header crc_fields write_fields
  serialize_header-fields =
      rw (body_lem, write_u32-write_le, write_u32-write_le, crc_kept 516 (omega arith)) refl

  all_fields : List Field
  unfolding header_fields crc_fields
  all_fields = header_fields s ++ crc_fields

  as_fields : serialize_header s ≡ write_fields all_fields (zeros 564)
  unfolding all_fields body
  as_fields =
      serialize_header-fields ∙ sym (write_fields-append (header_fields s) crc_fields (zeros 564))

  in_header : fits 564 all_fields ≡ true
  unfolding fits all_fields
  in_header = refl

  reads :
      (at m : ℕ) {v : ℕ}
      → field_at at m all_fields ≡ some v
      → v < 256 ^ m
      → read_le m (serialize_header s) at ≡ v
  reads at m e h =
      rw as_fields
        (read_le-write_fields all_fields (zeros 564) at m 564 refl in_header e ∙ mod-eq_of_lt h)

  -- The range of a checksum is that of the finished header.
  range_kept :
      (n : ℕ) → n ≤ 516 → crc32 (drop 0x008 body) n ≡ crc32 (drop 0x008 (serialize_header s)) n
  unfolding crc_fields fits clear
  range_kept n h = rw serialize_header-fields (
      sym (
        crc32_ext _ _ n (
          slice-write_fields-clear crc_fields body 0x008 n 564 length-body (omega arith) refl
            (ground arith))))

  pub serialize_header-IsBytes : IsBytes (serialize_header s)
  serialize_header-IsBytes =
      rw as_fields (IsBytes-write_fields all_fields (zeros 564) (IsBytes-zeros 564))

  body_room : {n : ℕ} → n ≤ 516 → n ≤ length (drop 0x008 body)
  body_room k = rw (length-drop 0x008 body, length-body) (omega arith)

  body-IsBytes : IsBytes (drop 0x008 body)
  unfolding body
  body-IsBytes i =
      rw (byte_at-drop (write_fields (header_fields s) (zeros 564)) 0x008 i)
        (IsBytes-write_fields (header_fields s) (zeros 564) (IsBytes-zeros 564) (0x008 + i))

  crc_clear : (at : ℕ) → (0x008 ≤ at) × (at + 4 ≤ 0x20c) → clear at 4 crc_fields ≡ true
  unfolding clear crc_fields
  crc_clear at h = ground arith

  nid_field : (i : ℕ) → i < 32 → field_at (0x02c + i * 4) 4 all_fields ≡ some (get_or s.rgnid i 0)
  unfolding all_fields
  nid_field i k =
      let at = 0x02c + i * 4 in
      field_at-append_front at 4 (header_fields s) crc_fields (nid_front s i k)
        (crc_clear at (omega arith))

  abbrev h : List ℕ
  h = serialize_header s

  -- Of a state whose numbers fit their widths, `serializeHeader` makes 564 bytes in which every
  -- field of the state reads back and both checksums hold.
  pub serialize_header-IsHeaderOf : IsHeaderOf s (serialize_header s)
  unfolding field_at all_fields clear
  serialize_header-IsHeaderOf = record {
    size = rw as_fields (length-write_fields all_fields (zeros 564) ∙ refl);
    magic = read_u32-read_le h 0x000 serialize_header-IsBytes ∙ reads 0x000 4 refl (omega arith);
    client = read_u16-read_le h 0x008 serialize_header-IsBytes ∙ reads 0x008 2 refl (omega arith);
    version = read_u16-read_le h 0x00a serialize_header-IsBytes ∙ reads 0x00a 2 refl (omega arith);
    client_version =
        read_u16-read_le h 0x00c serialize_header-IsBytes ∙ reads 0x00c 2 refl (omega arith);
    reserved1 =
        read_u32-read_le h 0x010 serialize_header-IsBytes ∙ reads 0x010 4 refl valid.reserved1;
    reserved2 =
        read_u32-read_le h 0x014 serialize_header-IsBytes ∙ reads 0x014 4 refl valid.reserved2;
    unused = read_u64-read_le h 0x018 serialize_header-IsBytes ∙ reads 0x018 8 refl valid.unused;
    next_p = read_u64-read_le h 0x020 serialize_header-IsBytes ∙ reads 0x020 8 refl valid.next_p;
    unique = read_u32-read_le h 0x028 serialize_header-IsBytes ∙ reads 0x028 4 refl valid.unique;
    file_eof = read_u64-read_le h 0x0b8 serialize_header-IsBytes ∙ reads 0x0b8 8 refl valid.eof;
    amap_last =
        read_u64-read_le h 0x0c0 serialize_header-IsBytes ∙ reads 0x0c0 8 refl valid.amap_last;
    amap_free =
        read_u64-read_le h 0x0c8 serialize_header-IsBytes ∙ reads 0x0c8 8 refl valid.amap_free;
    pmap_free =
        read_u64-read_le h 0x0d0 serialize_header-IsBytes ∙ reads 0x0d0 8 refl valid.pmap_free;
    nbt_bid = read_u64-read_le h 0x0d8 serialize_header-IsBytes ∙ reads 0x0d8 8 refl valid.nbt_bid;
    nbt_ib = read_u64-read_le h 0x0e0 serialize_header-IsBytes ∙ reads 0x0e0 8 refl valid.nbt_ib;
    bbt_bid = read_u64-read_le h 0x0e8 serialize_header-IsBytes ∙ reads 0x0e8 8 refl valid.bbt_bid;
    bbt_ib = read_u64-read_le h 0x0f0 serialize_header-IsBytes ∙ reads 0x0f0 8 refl valid.bbt_ib;
    amap_valid = byte_at-read_le h 0x0f8 ∙ reads 0x0f8 1 refl valid.amap_valid;
    sentinel = byte_at-read_le h 0x200 ∙ reads 0x200 1 refl (omega arith);
    crypt_method = byte_at-read_le h 0x201 ∙ reads 0x201 1 refl (omega arith);
    next_b = read_u64-read_le h 0x204 serialize_header-IsBytes ∙ reads 0x204 8 refl valid.next_b;
    nid_counters = λ i k.
        read_u32-read_le h (0x02c + i * 4) serialize_header-IsBytes
        ∙ reads (0x02c + i * 4) 4 (nid_field i k) (valid.nids i);
    crc_partial =
        read_u32-read_le h 0x004 serialize_header-IsBytes
        ∙ reads 0x004 4 refl (crc32-lt (drop 0x008 body) 471 (body_room (omega arith)) body-IsBytes)
        ∙ range_kept 471 (omega arith);
    crc_full =
        read_u32-read_le h 0x20c serialize_header-IsBytes
        ∙ reads 0x20c 4 refl (crc32-lt (drop 0x008 body) 516 (body_room (omega arith)) body-IsBytes)
        ∙ range_kept 516 (omega arith);
  }
