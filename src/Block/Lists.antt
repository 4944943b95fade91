-- ===== src/Block/Lists.antt =====
-- src/block.cpp: the entries of X, XX, SL and SI blocks.
use pst_dev.Prelude.{
  get_elem?-lt, ℕ, ◌+◌, ◌*◌, ◌%◌, ◌^◌, ◌≤◌, ◌<◌, ◌≡◌, ap, ◌∙◌, sym, arith, List, [], ◌∷◌, length,
  get_elem?, some,
}
use native.Mathlib.Nat.{mod-eq_of_lt}
use pst_dev.Bytes.{byte_at, read_u16, read_u32, read_u64, zeros}
use pst_dev.Bytes.Laws.{read_le, write_u64-write_le, read_u64-read_le}
use pst_dev.Bytes.Fields.{Field, write_fields, fits, clear, field_at}
use pst_dev.Bytes.Copy.{read_le-slice}
use pst_dev.Ident.{Bid, Ib}
use pst_dev.Ndb.{compute_block_sig}
use pst_dev.Page.{write_entries}
use pst_dev.Page.Layout.{IsLayout}
use pst_dev.Block.{
  SlEntry, SiEntry, write_bid, write_sl_entry, write_si_entry, build_bid_list_block, build_x_block,
  build_xx_block, build_sl_block, build_si_block,
}
use pst_dev.Block.Entries.{IsFramed, build_internal_block-IsFramed, length-rg, IsBytes-rg, rg_entry}

sl_fields : ℕ → SlEntry → List Field
sl_fields off e =
    (off + 0, 8, e.nid.value) ∷ (off + 8, 8, e.bid_data.value) ∷ (off + 16, 8, e.bid_sub.value) ∷ []

si_fields : ℕ → SiEntry → List Field
si_fields off e = (off + 0, 8, e.nid.value) ∷ (off + 8, 8, e.bid.value) ∷ []

bid_fields : ℕ → Bid → List Field
bid_fields off b = (off, 8, b.value) ∷ []

sl-IsLayout : IsLayout SlEntry write_sl_entry sl_fields 24
unfolding sl_fields
sl-IsLayout = record {
  as_fields = λ off e page. unfold write_sl_entry write_fields in simp write_u64-write_le;
  above = λ off e at m h. unfold clear in ground arith;
  inside = λ off e total h. unfold fits in ground arith;
}

si-IsLayout : IsLayout SiEntry write_si_entry si_fields 16
unfolding si_fields
si-IsLayout = record {
  as_fields = λ off e page. unfold write_si_entry write_fields in simp write_u64-write_le;
  above = λ off e at m h. unfold clear in ground arith;
  inside = λ off e total h. unfold fits in ground arith;
}

bid-IsLayout : IsLayout Bid write_bid bid_fields 8
unfolding bid_fields
bid-IsLayout = record {
  as_fields = λ off e page. unfold write_bid write_fields in simp write_u64-write_le;
  above = λ off e at m h. unfold clear in ground arith;
  inside = λ off e total h. unfold fits in ground arith;
}

-- A read among the raw entries of an internal block.
in_raw :
    (block raw : List ℕ) {btype c_level c_ent pad sig bid : ℕ} (at : ℕ)
    → IsFramed block btype c_level c_ent pad raw sig bid
    → at + 8 ≤ length raw
    → read_u64 block (8 + at) ≡ read_le 8 raw at
in_raw block raw at is h =
    read_u64-read_le block (8 + at) is.bytes
    ∙ sym (read_le-slice 8 block 8 (length raw) at h)
    ∙ ap (λ (t : List ℕ). read_le 8 t at) is.entries

module _ (es : List SlEntry) (bid : Bid) (ib : Ib) (few : length es < 2 ^ 16)
    (id : bid.value < 2 ^ 64) where
  abbrev sl_raw : List ℕ
  sl_raw = write_entries write_sl_entry 24 0 es (zeros (length es * 24))

  sl_block :
      IsFramed
        (build_sl_block es bid ib)
        2
        0
        (length es % 2 ^ 16)
        0
        sl_raw
        (compute_block_sig bid ib)
        bid.value
  unfolding build_sl_block
  sl_block =
      build_internal_block-IsFramed 2 0 (length es % 2 ^ 16) 0 sl_raw bid ib
        (omega arith, omega arith) (omega arith, omega arith)
        (IsBytes-rg sl_fields 24 sl-IsLayout es)
        (omega (arith, length-rg sl_fields 24 sl-IsLayout es)) id

  sl_read :
      (j k : ℕ) {e : SlEntry} {v : ℕ}
      → get_elem? es j ≡ some e
      → k + 8 ≤ 24
      → field_at (j * 24 + k) 8 (sl_fields (j * 24) e) ≡ some v
      → v < 2 ^ 64
      → read_u64 (build_sl_block es bid ib) (8 + (j * 24 + k)) ≡ v
  sl_read j k {e} g h f b =
      let l = get_elem?-lt es j g in
      in_raw (build_sl_block es bid ib) sl_raw (j * 24 + k) sl_block
        (omega (arith, length-rg sl_fields 24 sl-IsLayout es))
      ∙ rg_entry sl_fields 24 sl-IsLayout es j {e = e} (j * 24 + k) 8 g (omega arith) (omega arith)
          f b

  -- An SL block of less than 65,536 entries counts them, and the three words of the entry at an
  -- index stand at its place, given that its numbers fit their widths.
  pub build_sl_block_entry :
      (j : ℕ) (e : SlEntry)
      → get_elem? es j ≡ some e
      → (e.nid.value < 2 ^ 32) × (e.bid_data.value < 2 ^ 64) × (e.bid_sub.value < 2 ^ 64)
      → (read_u16 (build_sl_block es bid ib) 2 ≡ length es)
        × (read_u64 (build_sl_block es bid ib) (8 + (j * 24 + 0)) ≡ e.nid.value)
        × (read_u64 (build_sl_block es bid ib) (8 + (j * 24 + 8)) ≡ e.bid_data.value)
        × (read_u64 (build_sl_block es bid ib) (8 + (j * 24 + 16)) ≡ e.bid_sub.value)
  unfolding field_at clear sl_fields
  build_sl_block_entry j e g w = (
    sl_block.count ∙ mod-eq_of_lt few,
    sl_read j 0 {e = e} g (omega arith) (ground arith) (omega (arith, w.0)),
    sl_read j 8 {e = e} g (omega arith) (ground arith) w.1,
    sl_read j 16 {e = e} g (omega arith) (ground arith) w.2,
  )

module _ (es : List SiEntry) (bid : Bid) (ib : Ib) (few : length es < 2 ^ 16)
    (id : bid.value < 2 ^ 64) where
  abbrev si_raw : List ℕ
  si_raw = write_entries write_si_entry 16 0 es (zeros (length es * 16))

  si_block :
      IsFramed
        (build_si_block es bid ib)
        2
        1
        (length es % 2 ^ 16)
        0
        si_raw
        (compute_block_sig bid ib)
        bid.value
  unfolding build_si_block
  si_block =
      build_internal_block-IsFramed 2 1 (length es % 2 ^ 16) 0 si_raw bid ib
        (omega arith, omega arith) (omega arith, omega arith)
        (IsBytes-rg si_fields 16 si-IsLayout es)
        (omega (arith, length-rg si_fields 16 si-IsLayout es)) id

  si_read :
      (j k : ℕ) {e : SiEntry} {v : ℕ}
      → get_elem? es j ≡ some e
      → k + 8 ≤ 16
      → field_at (j * 16 + k) 8 (si_fields (j * 16) e) ≡ some v
      → v < 2 ^ 64
      → read_u64 (build_si_block es bid ib) (8 + (j * 16 + k)) ≡ v
  si_read j k {e} g h f b =
      let l = get_elem?-lt es j g in
      in_raw (build_si_block es bid ib) si_raw (j * 16 + k) si_block
        (omega (arith, length-rg si_fields 16 si-IsLayout es))
      ∙ rg_entry si_fields 16 si-IsLayout es j {e = e} (j * 16 + k) 8 g (omega arith) (omega arith)
          f b

  -- An SI block of less than 65,536 entries counts them, and the two words of the entry at an
  -- index stand at its place, given that its numbers fit their widths.
  pub build_si_block_entry :
      (j : ℕ) (e : SiEntry)
      → get_elem? es j ≡ some e
      → (e.nid.value < 2 ^ 32) × (e.bid.value < 2 ^ 64)
      → (read_u16 (build_si_block es bid ib) 2 ≡ length es)
        × (read_u64 (build_si_block es bid ib) (8 + (j * 16 + 0)) ≡ e.nid.value)
        × (read_u64 (build_si_block es bid ib) (8 + (j * 16 + 8)) ≡ e.bid.value)
  unfolding field_at clear si_fields
  build_si_block_entry j e g w = (
    si_block.count ∙ mod-eq_of_lt few,
    si_read j 0 {e = e} g (omega arith) (ground arith) (omega (arith, w.0)),
    si_read j 8 {e = e} g (omega arith) (ground arith) w.1,
  )

module _ (c_level : ℕ) (bids : List Bid) (lcb_total : ℕ) (bid : Bid) (ib : Ib)
    (level : c_level < 256) (few : length bids < 2 ^ 16) (whole : lcb_total < 2 ^ 32)
    (id : bid.value < 2 ^ 64) where
  abbrev bid_raw : List ℕ
  bid_raw = write_entries write_bid 8 0 bids (zeros (length bids * 8))

  abbrev bid_list : List ℕ
  bid_list = build_bid_list_block c_level bids lcb_total bid ib

  bid_block :
      IsFramed bid_list 1 c_level
        (length bids % 2 ^ 16)
        lcb_total
        bid_raw
        (compute_block_sig bid ib)
        bid.value
  unfolding build_bid_list_block
  bid_block =
      build_internal_block-IsFramed 1 c_level (length bids % 2 ^ 16) lcb_total bid_raw bid ib
        (omega arith, level) (omega arith, whole) (IsBytes-rg bid_fields 8 bid-IsLayout bids)
        (omega (arith, length-rg bid_fields 8 bid-IsLayout bids)) id

  bid_list_entry :
      (j : ℕ) (b : Bid)
      → get_elem? bids j ≡ some b
      → b.value < 2 ^ 64
      → (byte_at bid_list 1 ≡ c_level)
        × (read_u16 bid_list 2 ≡ length bids)
        × (read_u32 bid_list 4 ≡ lcb_total)
        × (read_u64 bid_list (8 + j * 8) ≡ b.value)
  unfolding field_at clear bid_fields
  bid_list_entry j b g w =
      let l = get_elem?-lt bids j g in
      (
        bid_block.level,
        bid_block.count ∙ mod-eq_of_lt few,
        bid_block.padding,
        in_raw bid_list bid_raw (j * 8) bid_block
              (omega (arith, length-rg bid_fields 8 bid-IsLayout bids))
            ∙ rg_entry bid_fields 8 bid-IsLayout bids j {e = b} (j * 8) 8 g (omega arith)
                (omega arith) (ground arith) w,
      )

-- X and XX blocks of less than 65,536 children: the level byte tells them apart, the count and
-- the total size stand in the header, and the child at an index stands at its place.
pub build_x_block_entry :
    (bids : List Bid) (lcb_total : ℕ) (bid : Bid) (ib : Ib) (j : ℕ) (b : Bid)
    → length bids < 2 ^ 16
    → lcb_total < 2 ^ 32
    → bid.value < 2 ^ 64
    → get_elem? bids j ≡ some b
    → b.value < 2 ^ 64
    → ((byte_at (build_x_block bids lcb_total bid ib) 1 ≡ 1)
        × (read_u16 (build_x_block bids lcb_total bid ib) 2 ≡ length bids)
        × (read_u32 (build_x_block bids lcb_total bid ib) 4 ≡ lcb_total)
        × (read_u64 (build_x_block bids lcb_total bid ib) (8 + j * 8) ≡ b.value))
      × ((byte_at (build_xx_block bids lcb_total bid ib) 1 ≡ 2)
          × (read_u16 (build_xx_block bids lcb_total bid ib) 2 ≡ length bids)
          × (read_u32 (build_xx_block bids lcb_total bid ib) 4 ≡ lcb_total)
          × (read_u64 (build_xx_block bids lcb_total bid ib) (8 + j * 8) ≡ b.value))
unfolding build_x_block build_xx_block
build_x_block_entry bids lcb_total bid ib j b few whole id g w = (
  bid_list_entry 1 bids lcb_total bid ib (omega arith) few whole id j b g w,
  bid_list_entry 2 bids lcb_total bid ib (omega arith) few whole id j b g w,
)
