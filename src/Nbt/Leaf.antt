-- ===== src/Nbt/Leaf.antt =====
-- src/nbt.cpp: a leaf page of the writer under the search of the reader.
use pst_dev.Prelude.{
  All, get_elem?-All, get_elem?-lt, get_elem?-drop, drop_next, ℕ, zero, suc, ◌+◌, ◌*◌, ◌%◌, ◌^◌,
  ◌≤◌, ◌<◌, ◌≡◌, refl, ap, ap₂, ◌∙◌, arith, List, [], ◌∷◌, true, Option, some, none, length,
  get_elem?, leb, le→leb, Bool-cases, inl, inr, ◌==◌, if◌then◌else◌, drop,
}
use pst_dev.Bytes.{byte_at, slice, read_u32, read_u64}
use pst_dev.Bytes.Laws.{
  read_le, IsBytes, write_u32-write_le, write_u64-write_le, read_u32-read_le, read_u64-read_le,
}
use pst_dev.Bytes.Fields.{Field, write_fields, fits, clear, field_at}
use pst_dev.Bytes.Copy.{byte_at-slice}
use pst_dev.Ident.{Nid, Bid, Ib}
use pst_dev.Ndb.{ptype_nbt, page_sig}
use pst_dev.Ndb.Trailer.{IsSealed}
use pst_dev.Page.Layout.{IsLayout, AreControls, page-IsSealed, page_entry, page_controls}
use pst_dev.Nbt.{NbtEntry, nbt_leaf_page, write_nbt_entry, ok}
use pst_dev.Nbt.Reader.{NbtRecord, decode_nbt_entry, search_loop, search_leaf}

-- The bytes of a page stand at the start of what a page pointer sees.
abbrev pub Shows : List ℕ → List ℕ → Type 0
Shows view page = IsBytes view × (512 ≤ length view) × (slice view 0 512 ≡ page)

pub byte_at-Shows :
    (view page : List ℕ) (j : ℕ) → Shows view page → j < 512 → byte_at view j ≡ byte_at page j
byte_at-Shows view page j (b, s, e) h =
    ground (arith, byte_at-slice view 0 512 j h, ap (λ (t : List ℕ). byte_at t j) e)

pub read_le-Shows :
    (n : ℕ) (view page : List ℕ) (at : ℕ)
    → Shows view page
    → at + n ≤ 512
    → read_le n view at ≡ read_le n page at
unfolding read_le
read_le-Shows zero view page at s h = refl
read_le-Shows (suc n) view page at s h =
    ap₂ (λ (x y : ℕ). x + 256 * y) (byte_at-Shows view page at s (omega arith))
      (read_le-Shows n view page (at + 1) s (omega arith))

nbt_entry_fields : ℕ → NbtEntry → List Field
nbt_entry_fields off e =
    (off + 0, 4, e.nid.value)
    ∷ (off + 4, 4, 0)
    ∷ (off + 8, 8, e.bid_data.value)
    ∷ (off + 16, 8, e.bid_sub.value)
    ∷ (off + 24, 4, e.nid_parent.value)
    ∷ (off + 28, 4, 0)
    ∷ []

nbt-IsLayout : IsLayout NbtEntry write_nbt_entry nbt_entry_fields 32
unfolding nbt_entry_fields
nbt-IsLayout = record {
  as_fields = λ off e page.
      unfold write_nbt_entry write_fields in simp (write_u32-write_le, write_u64-write_le);
  above = λ off e at m h. unfold clear in ground arith;
  inside = λ off e total h. unfold fits in ground arith;
}

-- The numbers of an entry fit their widths.
abbrev pub IsEntry : NbtEntry → Type 0
IsEntry e =
    (e.nid.value < 2 ^ 32)
    × (e.bid_data.value < 2 ^ 64)
    × (e.bid_sub.value < 2 ^ 64)
    × (e.nid_parent.value < 2 ^ 32)

-- The record that the reader makes of an entry.
unfoldable pub to_record : NbtEntry → NbtRecord
to_record e = record {
  nid = e.nid;
  bid_data = e.bid_data;
  bid_sub = e.bid_sub;
  nid_parent = e.nid_parent;
}

-- The first entry with the id.
unfoldable pub find_nid : ℕ → List NbtEntry → Option NbtRecord
find_nid target [] = none
find_nid target (e ∷ es) = if e.nid.value == target then some (to_record e) else find_nid target es

-- Where the fields of an entry stand.
entry_places :
    (off : ℕ) (e : NbtEntry)
    → (field_at (off + 0) 4 (nbt_entry_fields off e) ≡ some e.nid.value)
      × (field_at (off + 8) 8 (nbt_entry_fields off e) ≡ some e.bid_data.value)
      × (field_at (off + 16) 8 (nbt_entry_fields off e) ≡ some e.bid_sub.value)
      × (field_at (off + 24) 4 (nbt_entry_fields off e) ≡ some e.nid_parent.value)
unfolding field_at clear nbt_entry_fields
entry_places off e = (ground arith, ground arith, ground arith, ground arith)

module _ (es : List NbtEntry) (room : length es ≤ 15) (valid : All IsEntry es) (bid : Bid) (ib : Ib)
    (id : bid.value < 2 ^ 64) where
  leaf_controls : AreControls (length es % 2 ^ 8) 15 32 0
  leaf_controls = omega arith

  leaf_room : length es * 32 ≤ 488
  leaf_room = omega arith

  abbrev leaf : List ℕ
  leaf = nbt_leaf_page es bid ib

  -- A leaf of at most 15 entries is a sealed NBT page.
  pub nbt_leaf_page-IsSealed : IsSealed leaf ptype_nbt (page_sig ptype_nbt bid ib) bid.value
  unfolding nbt_leaf_page
  nbt_leaf_page-IsSealed =
      page-IsSealed nbt_entry_fields 32 nbt-IsLayout es _ 15 32 0 leaf_room leaf_controls ptype_nbt
        bid ib (omega arith) id

  pub nbt_leaf_controls :
      (byte_at leaf 488 ≡ length es)
      × (byte_at leaf 489 ≡ 15)
      × (byte_at leaf 490 ≡ 32)
      × (byte_at leaf 491 ≡ 0)
  unfolding nbt_leaf_page
  nbt_leaf_controls =
      let c =
        page_controls nbt_entry_fields 32 nbt-IsLayout es (length es % 2 ^ 8) 15 32 0 leaf_room
          leaf_controls ptype_nbt bid ib (omega arith) id in
      (c.0 ∙ omega arith, c.1, c.2, c.3)

  entry_reads :
      (j : ℕ) {e : NbtEntry} (k m : ℕ) {v : ℕ}
      → get_elem? es j ≡ some e
      → 0 < m
      → k + m ≤ 32
      → field_at (j * 32 + k) m (nbt_entry_fields (j * 32) e) ≡ some v
      → v < 256 ^ m
      → read_le m leaf (j * 32 + k) ≡ v
  unfolding nbt_leaf_page
  entry_reads j {e} k m g pos h f b =
      page_entry nbt_entry_fields 32 nbt-IsLayout es (length es % 2 ^ 8) 15 32 0 leaf_room
        leaf_controls ptype_nbt bid ib (omega arith) id j {e = e} (j * 32 + k) m g
        (get_elem?-lt es j g) pos (omega arith) (omega arith) f b

  module _ (view : List ℕ) (j : ℕ) {e : NbtEntry} (shows : Shows view leaf)
      (g : get_elem? es j ≡ some e) where
    at_most : j < 15
    at_most = omega (arith, get_elem?-lt es j g)

    fits-IsEntry : IsEntry e
    fits-IsEntry = get_elem?-All IsEntry es j valid g

    word :
        (k : ℕ) {v : ℕ}
        → k + 4 ≤ 32
        → field_at (j * 32 + k) 4 (nbt_entry_fields (j * 32) e) ≡ some v
        → v < 2 ^ 32
        → read_u32 view (j * 32 + k) ≡ v
    word k h f b =
        let t = at_most in
        read_u32-read_le view (j * 32 + k) shows.0
        ∙ read_le-Shows 4 view leaf (j * 32 + k) shows (omega arith)
        ∙ entry_reads j k 4 g (omega arith) h f b

    long_word :
        (k : ℕ) {v : ℕ}
        → k + 8 ≤ 32
        → field_at (j * 32 + k) 8 (nbt_entry_fields (j * 32) e) ≡ some v
        → v < 2 ^ 64
        → read_u64 view (j * 32 + k) ≡ v
    long_word k h f b =
        let t = at_most in
        read_u64-read_le view (j * 32 + k) shows.0
        ∙ read_le-Shows 8 view leaf (j * 32 + k) shows (omega arith)
        ∙ entry_reads j k 8 g (omega arith) h f b

    -- The reader decodes the entry at an index as it was written.
    pub decode-nbt_leaf_page : decode_nbt_entry view (j * 32) ≡ ok (to_record e)
    unfolding decode_nbt_entry to_record
    decode-nbt_leaf_page =
        let places = entry_places (j * 32) e in
        let inside : leb (j * 32 + 28) (length view) ≡ true =
          le→leb (j * 32 + 28) (length view) (omega (arith, at_most, shows.1)) in
        rw
          (
            inside,
            word 0 (omega arith) places.0 fits-IsEntry.0,
            long_word 8 (omega arith) places.1 fits-IsEntry.1,
            long_word 16 (omega arith) places.2 fits-IsEntry.2,
            word 24 (omega arith) places.3 fits-IsEntry.3,
          )
          refl

  -- The scan from an index on, over what is left of the entries.
  search_loop-nbt_leaf_page :
      (view : List ℕ) (rest : List NbtEntry) (i : ℕ) (target : Nid)
      → Shows view leaf
      → drop i es ≡ rest
      → search_loop (length rest) i view target ≡ ok (find_nid target.value rest)
  unfolding search_loop find_nid to_record
  search_loop-nbt_leaf_page view [] i target shows d = refl
  search_loop-nbt_leaf_page view (e ∷ rest) i target shows d =
      let g = get_elem?-drop es i d in
      let decoded = decode-nbt_leaf_page view i shows g in
      elim (Bool-cases (e.nid.value == target.value)) [
        | inl hit ↦ rw (decoded, hit) refl
        | inr miss ↦
            rw (decoded, miss)
              (search_loop-nbt_leaf_page view rest (i + 1) target shows (drop_next es i d))
      ]

  -- The search of a leaf page in a file finds the record of the first entry with the id, and
  -- nothing if no entry has it; it never reads outside the file.
  pub search_leaf-nbt_leaf_page :
      (view : List ℕ) (target : Nid)
      → Shows view leaf
      → search_leaf view target ≡ ok (find_nid target.value es)
  unfolding search_leaf
  search_leaf-nbt_leaf_page view target shows =
      rw (byte_at-Shows view leaf 488 shows (omega arith) ∙ nbt_leaf_controls.0)
        (search_loop-nbt_leaf_page view es 0 target shows refl)
