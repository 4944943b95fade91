-- ===== src/Page/Layout.antt =====
-- include/pstwriter/page.hpp: tree pages of entries and control bytes, for entries of any kind,
-- given what one entry writes.
use pst_dev.Prelude.{
  ℕ, zero, suc, ◌+◌, ◌*◌, ◌^◌, ◌≤◌, ◌<◌, ◌≡◌, refl, ap, ◌∙◌, sym, arith, List, [], ◌∷◌, ◌++◌, true,
  some, length, get_elem?,
}
use native.Mathlib.Nat.{mod-eq_of_lt}
use pst_dev.Bytes.{byte_at, zeros}
use pst_dev.Bytes.Laws.{write_le, read_le, IsBytes, IsBytes-zeros, write_u32-write_le}
use pst_dev.Bytes.Fields.{
  Field, write_fields, fits, clear, field_at, length-write_fields, IsBytes-write_fields,
  read_le-write_fields, write_fields-append, fits-append, clear-append, field_at-append_front,
  field_at-append_back,
}
use pst_dev.Bytes.Words.{write_u8-write_le, byte_at-read_le}
use pst_dev.Ident.{Bid, Ib}
use pst_dev.Ndb.{write_page_trailer, page_sig}
use pst_dev.Ndb.Trailer.{IsSealed, write_page_trailer_sealed, read_le-write_page_trailer}
use pst_dev.Page.{write_controls, write_entries}

control_fields : ℕ → ℕ → ℕ → ℕ → List Field
control_fields c_ent c_ent_max cb_ent c_level =
    (488, 1, c_ent) ∷ (489, 1, c_ent_max) ∷ (490, 1, cb_ent) ∷ (491, 1, c_level) ∷ (492, 4, 0) ∷ []

-- The control bytes fit a byte each.
abbrev pub AreControls : ℕ → ℕ → ℕ → ℕ → Type 0
AreControls c_ent c_ent_max cb_ent c_level =
    (c_ent < 256) × (c_ent_max < 256) × (cb_ent < 256) × (c_level < 256)

write_controls-fields :
    (c_ent c_ent_max cb_ent c_level : ℕ) (page : List ℕ)
    → AreControls c_ent c_ent_max cb_ent c_level
    → write_controls c_ent c_ent_max cb_ent c_level page
      ≡ write_fields (control_fields c_ent c_ent_max cb_ent c_level) page
unfolding write_controls control_fields write_fields
write_controls-fields c_ent c_ent_max cb_ent c_level page (a, b, c, d) =
    rw
      (
        write_u8-write_le page 488 c_ent a,
        write_u8-write_le (write_le 1 page 488 c_ent) 489 c_ent_max b,
        write_u8-write_le (write_le 1 (write_le 1 page 488 c_ent) 489 c_ent_max) 490 cb_ent c,
        write_u8-write_le
            (write_le 1 (write_le 1 (write_le 1 page 488 c_ent) 489 c_ent_max) 490 cb_ent) 491
            c_level d,
        write_u32-write_le,
      )
      refl

module _ {ℓ} {E : Type ℓ} (enc : ℕ → E → List Field) (size : ℕ) where
  unfoldable pub entry_fields : ℕ → List E → List Field
  entry_fields i [] = []
  entry_fields i (e ∷ es) = enc (i * size) e ++ entry_fields (i + 1) es

-- What is asked of a kind of entry: its writes are fields, and they lie in its `size` bytes.
pub record IsLayout {ℓ} (E : Type ℓ) (write : ℕ → E → List ℕ → List ℕ) (enc : ℕ → E → List Field)
    (size : ℕ) : Type ℓ where
  pub as_fields :
      (off : ℕ) (e : E) (page : List ℕ) → write off e page ≡ write_fields (enc off e) page
  pub above : (off : ℕ) (e : E) (at m : ℕ) → at + m ≤ off → clear at m (enc off e) ≡ true
  pub inside : (off : ℕ) (e : E) (total : ℕ) → off + size ≤ total → fits total (enc off e) ≡ true

module _ {ℓ} {E : Type ℓ} {write : ℕ → E → List ℕ → List ℕ} (enc : ℕ → E → List Field) (size : ℕ)
    (layout : IsLayout E write enc size) where
  pub write_entries-fields :
      (es : List E) (i : ℕ) (page : List ℕ)
      → write_entries write size i es page ≡ write_fields (entry_fields enc size i es) page
  unfolding write_entries entry_fields write_fields
  write_entries-fields [] i page = refl
  write_entries-fields (e ∷ es) i page =
      write_entries-fields es (i + 1) (write (i * size) e page)
      ∙ ap (write_fields (entry_fields enc size (i + 1) es)) (layout.as_fields (i * size) e page)
      ∙ sym (write_fields-append (enc (i * size) e) (entry_fields enc size (i + 1) es) page)

  pub fits-entry_fields :
      (es : List E) (i total : ℕ)
      → (i + length es) * size ≤ total
      → fits total (entry_fields enc size i es) ≡ true
  unfolding entry_fields fits
  fits-entry_fields [] i total h = refl
  fits-entry_fields (e ∷ es) i total h =
      fits-append total (enc (i * size) e) (entry_fields enc size (i + 1) es)
        (layout.inside (i * size) e total (grind arith))
        (fits-entry_fields es (i + 1) total (grind arith))

  clear-entry_fields :
      (es : List E) (i at m : ℕ)
      → at + m ≤ i * size
      → clear at m (entry_fields enc size i es) ≡ true
  unfolding entry_fields clear
  clear-entry_fields [] i at m h = refl
  clear-entry_fields (e ∷ es) i at m h =
      clear-append at m (enc (i * size) e) (entry_fields enc size (i + 1) es)
        (layout.above (i * size) e at m h) (clear-entry_fields es (i + 1) at m (grind arith))

  -- A field of the entry at index `j`, which lies in that entry.
  pub field_at-entry_fields :
      (es : List E) (i j : ℕ) {e : E} (at m : ℕ) {v : ℕ}
      → get_elem? es j ≡ some e
      → 0 < m
      → at + m ≤ (i + j) * size + size
      → field_at at m (enc ((i + j) * size) e) ≡ some v
      → field_at at m (entry_fields enc size i es) ≡ some v
  unfolding entry_fields
  field_at-entry_fields [] i j at m g pos inn f = cc
  field_at-entry_fields (x ∷ xs) i zero {e} at m {v} g pos inn f =
      field_at-append_front at m (enc (i * size) x) (entry_fields enc size (i + 1) xs)
        (let z : i + 0 ≡ i = omega arith in cc z) (clear-entry_fields xs (i + 1) at m (grind arith))
  field_at-entry_fields (x ∷ xs) i (suc j) {e} at m {v} g pos inn f =
      field_at-append_back at m (enc (i * size) x) (entry_fields enc size (i + 1) xs) pos (
        field_at-entry_fields xs (i + 1) j at m g pos (grind arith)
          (let z : i + suc j ≡ i + 1 + j = omega arith in cc z))

  -- The body of a page: the entries, then the control bytes.
  module _ (es : List E) (c_ent c_ent_max cb_ent c_level : ℕ) (room : length es * size ≤ 488)
      (controls : AreControls c_ent c_ent_max cb_ent c_level) where
    body_fields : List Field
    body_fields = entry_fields enc size 0 es ++ control_fields c_ent c_ent_max cb_ent c_level

    body : List ℕ
    body = write_fields body_fields (zeros 512)

    body_lem :
        write_controls c_ent c_ent_max cb_ent c_level (write_entries write size 0 es (zeros 512))
        ≡ body
    unfolding body body_fields
    body_lem =
        write_controls-fields c_ent c_ent_max cb_ent c_level _ controls
        ∙ ap (write_fields (control_fields c_ent c_ent_max cb_ent c_level))
            (write_entries-fields es 0 (zeros 512))
        ∙ sym (
            write_fields-append (entry_fields enc size 0 es)
              (control_fields c_ent c_ent_max cb_ent c_level) (zeros 512))

    in_page : fits 512 body_fields ≡ true
    unfolding body_fields
    in_page =
        fits-append 512 (entry_fields enc size 0 es) (control_fields c_ent c_ent_max cb_ent c_level)
          (fits-entry_fields es 0 512 (grind arith)) (unfold fits control_fields in refl)

    body_size : length body ≡ 512
    unfolding body
    body_size = length-write_fields body_fields (zeros 512) ∙ refl

    body-IsBytes : IsBytes body
    unfolding body
    body-IsBytes = IsBytes-write_fields body_fields (zeros 512) (IsBytes-zeros 512)

    module _ (ptype : ℕ) (bid : Bid) (ib : Ib) (kind : ptype < 256) (id : bid.value < 2 ^ 64) where
      abbrev page : List ℕ
      page =
          write_page_trailer
            (write_controls c_ent c_ent_max cb_ent c_level
              (write_entries write size 0 es (zeros 512)))
            ptype bid ib

      pub page-IsSealed : IsSealed page ptype (page_sig ptype bid ib) bid.value
      page-IsSealed =
          rw body_lem (write_page_trailer_sealed body ptype bid ib body_size body-IsBytes kind id)

      reads :
          (at m : ℕ) {v : ℕ}
          → at + m ≤ 496
          → field_at at m body_fields ≡ some v
          → v < 256 ^ m
          → read_le m page at ≡ v
      unfolding body
      reads at m h e k = rw body_lem (
          read_le-write_page_trailer body ptype bid ib body_size body-IsBytes kind id at m h
          ∙ read_le-write_fields body_fields (zeros 512) at m 512 refl in_page e
          ∙ mod-eq_of_lt k)

      -- A field of the entry at index `j` reads back.
      pub page_entry :
          (j : ℕ) {e : E} (at m : ℕ) {v : ℕ}
          → get_elem? es j ≡ some e
          → j < length es
          → 0 < m
          → j * size ≤ at
          → at + m ≤ j * size + size
          → field_at at m (enc (j * size) e) ≡ some v
          → v < 256 ^ m
          → read_le m page at ≡ v
      unfolding body_fields
      page_entry j {e} at m {v} g inn pos lo hi f k =
          let z : 0 + j ≡ j = omega arith in
          let below : at + m ≤ 488 = grind arith in
          reads at m (omega arith)
            (field_at-append_front at m (entry_fields enc size 0 es)
              (control_fields c_ent c_ent_max cb_ent c_level)
              (field_at-entry_fields es 0 j {e = e} at m g pos (rw z hi) (rw z f))
              (clear_controls at m below))
            k
        where
          clear_controls :
              (at m : ℕ)
              → at + m ≤ 488
              → clear at m (control_fields c_ent c_ent_max cb_ent c_level) ≡ true
          clear_controls at m h = unfold clear control_fields in ground arith

      -- The control bytes read back.
      pub page_controls :
          (byte_at page 488 ≡ c_ent)
          × (byte_at page 489 ≡ c_ent_max)
          × (byte_at page 490 ≡ cb_ent)
          × (byte_at page 491 ≡ c_level)
      unfolding body_fields field_at clear control_fields
      page_controls = (
        control 488 (omega arith) refl controls.0,
        control 489 (omega arith) refl controls.1,
        control 490 (omega arith) refl controls.2,
        control 491 (omega arith) refl controls.3,
      )
        where
          control :
              (at : ℕ) {v : ℕ}
              → at < 492
              → field_at at 1 (control_fields c_ent c_ent_max cb_ent c_level) ≡ some v
              → v < 256
              → byte_at page at ≡ v
          control at h f k =
              byte_at-read_le page at
              ∙ reads at 1 (omega arith)
                  (field_at-append_back at 1 (entry_fields enc size 0 es)
                    (control_fields c_ent c_ent_max cb_ent c_level) (omega arith) f)
                  k
