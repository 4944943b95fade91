-- ===== src/Writer/Pages.antt =====
-- src/page.cpp: the seals of the pages that a file is made of.
use pst_dev.Prelude.{
  ℕ, zero, suc, ◌+◌, ◌-◌, ◌/◌, ◌%◌, ◌^◌, ◌≤◌, ◌<◌, ◌≡◌, refl, ◌∙◌, arith, List, [], ◌∷◌, ◌&&◌,
  Bool-cases, inl, inr, not, ◌==◌, ltb, if◌then◌else◌, length, length-set, length-replicate, take,
  set,
}
use pst_dev.Bytes.{zeros, u8}
use pst_dev.Bytes.Laws.{
  IsBytes, IsBytes-zeros, IsBytes-set, write_u16-write_le, write_u32-write_le, write_u64-write_le,
}
use pst_dev.Bytes.Fields.{Field, write_fields, fits, clear}
use pst_dev.Ident.{Bid, Ib, make_amap}
use pst_dev.Ndb.{page_sig, ptype_bbt, ptype_amap}
use pst_dev.Ndb.Trailer.{IsSealed, write_page_trailer_sealed}
use pst_dev.Page.{
  BbtEntry, BtEntry, write_bbt_entry, write_bt_entry, build_bbt_leaf, build_bbt_intermediate,
  build_amap, amap_bitmap, fill_full, allocated_bytes, amap_bitmap_bytes, bytes_per_amap_bit,
}
use pst_dev.Page.Layout.{IsLayout, page-IsSealed}

bbt_entry_fields : ℕ → BbtEntry → List Field
bbt_entry_fields off e =
    (off + 0, 8, e.bref.bid.value)
    ∷ (off + 8, 8, e.bref.ib.value)
    ∷ (off + 16, 2, e.cb)
    ∷ (off + 18, 2, e.c_ref)
    ∷ (off + 20, 4, 0)
    ∷ []

bbt-IsLayout : IsLayout BbtEntry write_bbt_entry bbt_entry_fields 24
unfolding bbt_entry_fields
bbt-IsLayout = record {
  as_fields = λ off e page.
      unfold write_bbt_entry write_fields in
      simp (write_u16-write_le, write_u32-write_le, write_u64-write_le);
  above = λ off e at m h. unfold clear in ground arith;
  inside = λ off e total h. unfold fits in ground arith;
}

bt_entry_fields : ℕ → BtEntry → List Field
bt_entry_fields off e =
    (off + 0, 8, e.btkey) ∷ (off + 8, 8, e.bref.bid.value) ∷ (off + 16, 8, e.bref.ib.value) ∷ []

bt-IsLayout : IsLayout BtEntry write_bt_entry bt_entry_fields 24
unfolding bt_entry_fields
bt-IsLayout = record {
  as_fields = λ off e page. unfold write_bt_entry write_fields in simp write_u64-write_le;
  above = λ off e at m h. unfold clear in ground arith;
  inside = λ off e total h. unfold fits in ground arith;
}

length-take_le {ℓ} : {A : Type ℓ} (n : ℕ) (xs : List A) → length (take n xs) ≤ n
length-take_le zero xs = omega arith
length-take_le (suc n) [] = omega arith
length-take_le (suc n) (x ∷ xs) = omega (arith, length-take_le n xs)

module _ (bid : Bid) (ib : Ib) (id : bid.value < 2 ^ 64) where
  pub build_bbt_leaf-IsSealed :
      (es : List BbtEntry)
      → IsSealed (build_bbt_leaf es bid ib) ptype_bbt (page_sig ptype_bbt bid ib) bid.value
  unfolding build_bbt_leaf
  build_bbt_leaf-IsSealed es =
      let kept = length-take_le 20 es in
      page-IsSealed bbt_entry_fields 24 bbt-IsLayout (take 20 es) _ 20 24 0 (omega arith)
        (omega arith) ptype_bbt bid ib (omega arith) id

  pub build_bbt_intermediate-IsSealed :
      (es : List BtEntry)
      → IsSealed
          (build_bbt_intermediate es 1 bid ib)
          ptype_bbt
          (page_sig ptype_bbt bid ib)
          bid.value
  unfolding build_bbt_intermediate
  build_bbt_intermediate-IsSealed es =
      let kept = length-take_le 20 es in
      page-IsSealed bt_entry_fields 24 bt-IsLayout (take 20 es) _ 20 24 1 (omega arith)
        (omega arith) ptype_bbt bid ib (omega arith) id

-- The bitmap of an allocation map.
fill_full-IsBytes :
    (n i : ℕ) (page : List ℕ)
    → IsBytes page
    → IsBytes (fill_full n i page) × (length (fill_full n i page) ≡ length page)
unfolding fill_full
fill_full-IsBytes zero i page h = (h, refl)
fill_full-IsBytes (suc n) i page h =
    let (b, e) =
      fill_full-IsBytes n (i + 1) (set page i 0xff) (IsBytes-set page i 0xff (omega arith) h) in
    (b, e ∙ length-set page i 0xff)

amap_bitmap-IsBytes :
    (allocated : ℕ) → IsBytes (amap_bitmap allocated) × (length (amap_bitmap allocated) ≡ 512)
unfolding amap_bitmap
amap_bitmap-IsBytes allocated =
    let total_bits = (allocated + bytes_per_amap_bit - 1) / bytes_per_amap_bit in
    let full_bytes = total_bits / 8 in
    let cap = if ltb full_bytes amap_bitmap_bytes then full_bytes else amap_bitmap_bytes in
    let (b, e) = fill_full-IsBytes cap 0 (zeros 512) (IsBytes-zeros 512) in
    elim (Bool-cases (not (total_bits % 8 == 0) && ltb cap amap_bitmap_bytes)) [
      | inl t ↦ rw t (
        IsBytes-set (fill_full cap 0 (zeros 512)) cap (u8 (2 ^ (total_bits % 8) - 1)) (omega arith)
            b,
        length-set (fill_full cap 0 (zeros 512)) cap _ ∙ e ∙ length-replicate {A = ℕ} 512 0,
      )
      | inr t ↦ rw t (b, e ∙ length-replicate {A = ℕ} 512 0)
    ]

pub build_amap-IsSealed :
    (ib : Ib) (size : ℕ)
    → ib.value < 2 ^ 64
    → IsSealed
        (build_amap ib size)
        ptype_amap
        (page_sig ptype_amap (make_amap ib.value) ib)
        ib.value
unfolding build_amap make_amap
build_amap-IsSealed ib size h =
    let (b, e) = amap_bitmap-IsBytes (allocated_bytes ib.value size) in
    write_page_trailer_sealed (amap_bitmap (allocated_bytes ib.value size)) ptype_amap
      (record { value = ib.value }) ib e b (omega arith) h
