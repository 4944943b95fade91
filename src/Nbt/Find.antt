-- ===== src/Nbt/Find.antt =====
-- src/nbt.cpp: the checks of the reader on a page of a file, and the lookup with a leaf as its root.
use pst_dev.Prelude.{
  All, ℕ, zero, suc, ◌+◌, ◌^◌, ◌≤◌, ◌<◌, ◌≡◌, refl, ap, ◌∙◌, sym, arith, List, [], ◌∷◌, Bool, true,
  false, length, ◌==◌, inl, inr, ==_iff, take, drop, length-drop, ◌⊎◌,
}
use pst_dev.Bytes.{byte_at, slice, read_u32}
use pst_dev.Bytes.Laws.{IsBytes, read_u32-read_le}
use pst_dev.Bytes.Copy.{byte_at-drop}
use pst_dev.Ident.{Nid, Bid, Ib, Bref}
use pst_dev.Crc.{crc32}
use pst_dev.Crc.Prefix.{crc32_ext}
use pst_dev.Ndb.{ptype_nbt}
use pst_dev.Ndb.Trailer.{IsSealed}
use pst_dev.Nbt.{NbtEntry, ok, nbt_leaf_page}
use pst_dev.Nbt.Reader.{check_crc, check_controls, fetch_and_validate_page, search_leaf, nbt_find}
use pst_dev.Nbt.Leaf.{
  Shows, byte_at-Shows, read_le-Shows, IsEntry, find_nid, nbt_leaf_page-IsSealed, nbt_leaf_controls,
  search_leaf-nbt_leaf_page,
}

-- A file of bytes that has a page at an offset.
pub record HasPage (file : List ℕ) (ib : ℕ) (page : List ℕ) : Type 0 where
  pub bytes : IsBytes file
  pub size : length file < 2 ^ 64
  pub inside : ib + 512 ≤ length file
  pub same : slice file ib 512 ≡ page

pub HasPage-Shows :
    (file : List ℕ) (ib : ℕ) (page : List ℕ) → HasPage file ib page → Shows (drop ib file) page
HasPage-Shows file ib page h = (
  λ i. rw (byte_at-drop file ib i) (h.bytes (ib + i)),
  rw length-drop (omega (arith, h.inside)),
  h.same,
)

take-take : (n m : ℕ) (xs : List ℕ) → n ≤ m → take n (take m xs) ≡ take n xs
take-take zero m xs h = refl
take-take (suc n) zero xs h = absurd (omega arith)
take-take (suc n) (suc m) [] h = refl
take-take (suc n) (suc m) (x ∷ xs) h = ap (◌∷◌ x) (take-take n m xs (omega arith))

-- The control bytes of a page that the reader accepts.
abbrev pub Accepted : List ℕ → Type 0
Accepted page =
    (byte_at page 488 ≤ byte_at page 489)
    × (((byte_at page 491 ≡ 0) × (byte_at page 490 ≡ 32))
        ⊎ ((byte_at page 491 ≡ 1) × (byte_at page 490 ≡ 24)))

same→== : {a b : ℕ} → a ≡ b → (a == b) ≡ true
same→== {a} {b} e = (==_iff a b).1 e

-- The checks in order, one function at a time.
check_controls_lem :
    (strict_crc : Bool) (view : List ℕ)
    → byte_at view 488 ≤ byte_at view 489
    → ((byte_at view 491 ≡ 0) × (byte_at view 490 ≡ 32))
      ⊎ ((byte_at view 491 ≡ 1) × (byte_at view 490 ≡ 24))
    → check_controls strict_crc view ≡ check_crc strict_crc view
unfolding check_controls
check_controls_lem strict_crc view counted level = ground arith

fetch_lem :
    (file : List ℕ) (ib : ℕ) (strict_crc : Bool)
    → ib + 512 ≤ length file
    → length file < 2 ^ 64
    → byte_at (drop ib file) 496 ≡ ptype_nbt
    → byte_at (drop ib file) 497 ≡ ptype_nbt
    → fetch_and_validate_page file ib strict_crc ≡ check_controls strict_crc (drop ib file)
unfolding fetch_and_validate_page
fetch_lem file ib strict_crc inside size kind kind_repeat = ground arith

nbt_find_root_leaf :
    (file : List ℕ) (root : Bref) (target : Nid) (strict_crc : Bool)
    → fetch_and_validate_page file root.ib.value strict_crc ≡ ok (drop root.ib.value file)
    → byte_at (drop root.ib.value file) 491 ≡ 0
    → nbt_find file root target strict_crc ≡ search_leaf (drop root.ib.value file) target
unfolding nbt_find
nbt_find_root_leaf file root target strict_crc fetched level = rw (fetched, level) refl

module _ (file : List ℕ) (ib : ℕ) (page : List ℕ) (has : HasPage file ib page) {wsig bid : ℕ}
    (sealed : IsSealed page ptype_nbt wsig bid) (accepted : Accepted page) where
  abbrev view : List ℕ
  view = drop ib file

  shows : Shows view page
  shows = HasPage-Shows file ib page has

  at : (j : ℕ) → j < 512 → byte_at view j ≡ byte_at page j
  at j h = byte_at-Shows view page j shows h

  crc_holds : read_u32 view 500 ≡ crc32 view 496
  crc_holds =
      read_u32-read_le view 500 shows.0
      ∙ read_le-Shows 4 view page 500 shows (omega arith)
      ∙ sym (read_u32-read_le page 500 sealed.bytes)
      ∙ sealed.crc
      ∙ crc32_ext page view 496 (ap (take 496) (sym shows.2) ∙ take-take 496 512 view (omega arith))

  crc_passes : (strict_crc : Bool) → check_crc strict_crc view ≡ ok view
  unfolding check_crc
  crc_passes true = rw (same→== crc_holds) refl
  crc_passes false = refl

  counted : byte_at view 488 ≤ byte_at view 489
  counted = omega (arith, accepted.0, at 488 (omega arith), at 489 (omega arith))

  level :
      ((byte_at view 491 ≡ 0) × (byte_at view 490 ≡ 32))
      ⊎ ((byte_at view 491 ≡ 1) × (byte_at view 490 ≡ 24))
  level = elim accepted.1 [
    | inl l ↦ inl (at 491 (omega arith) ∙ l.0, at 490 (omega arith) ∙ l.1)
    | inr l ↦ inr (at 491 (omega arith) ∙ l.0, at 490 (omega arith) ∙ l.1)
  ]

  controls_pass : (strict_crc : Bool) → check_controls strict_crc view ≡ ok view
  controls_pass strict_crc =
      check_controls_lem strict_crc view counted level ∙ crc_passes strict_crc

  -- A sealed page passes every check of the reader, the strict one too.
  pub fetch-IsSealed : (strict_crc : Bool) → fetch_and_validate_page file ib strict_crc ≡ ok view
  fetch-IsSealed strict_crc =
      fetch_lem file ib strict_crc has.inside has.size (at 496 (omega arith) ∙ sealed.kind)
        (at 497 (omega arith) ∙ sealed.kind_repeat)
      ∙ controls_pass strict_crc

-- The whole lookup in a file whose root is a leaf that `buildNbtLeaf` made of at most 15 entries:
-- the record of the first entry with the id in the order of the ids, or nothing.
pub nbt_find-nbt_leaf_page :
    (file : List ℕ) (root : Bref) (es : List NbtEntry) (bid : Bid) (ib : Ib) (target : Nid)
    (strict_crc : Bool)
    → length es ≤ 15
    → All IsEntry es
    → bid.value < 2 ^ 64
    → HasPage file root.ib.value (nbt_leaf_page es bid ib)
    → nbt_find file root target strict_crc ≡ ok (find_nid target.value es)
nbt_find-nbt_leaf_page file root es bid ib target strict_crc room valid id has =
    let sealed = nbt_leaf_page-IsSealed es room valid bid ib id in
    let controls = nbt_leaf_controls es room valid bid ib id in
    let fetched =
      fetch-IsSealed file root.ib.value (nbt_leaf_page es bid ib) has sealed
        (omega (arith, controls), inl (controls.3, controls.2)) strict_crc in
    let seen = HasPage-Shows file root.ib.value (nbt_leaf_page es bid ib) has in
    let level =
      byte_at-Shows (drop root.ib.value file) (nbt_leaf_page es bid ib) 491 seen (omega arith)
      ∙ controls.3 in
    nbt_find_root_leaf file root target strict_crc fetched level
    ∙ search_leaf-nbt_leaf_page es room valid bid ib id (drop root.ib.value file) target seen
