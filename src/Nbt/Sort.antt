-- ===== src/Nbt/Sort.antt =====
-- src/nbt.cpp: the sorting of the entries of a leaf, and the lookup in such a leaf.
use pst_dev.Prelude.Sort.{sort_by, insert_by, length-sort_by, All-sort_by}
use pst_dev.Prelude.{
  All, ℕ, ◌^◌, ◌≤◌, ◌<◌, ◌≡◌, refl, ap, ◌∙◌, arith, List, [], ◌∷◌, Bool, true, false, length, leb,
  ◌==◌, Bool-cases, inl, inr,
}
use pst_dev.Ident.{Nid, Bid, Ib, Bref}
use pst_dev.Nbt.{NbtEntry, ok, nid_key, build_nbt_leaf, nbt_leaf_page}
use pst_dev.Nbt.Reader.{nbt_find}
use pst_dev.Nbt.Leaf.{IsEntry, find_nid}
use pst_dev.Nbt.Find.{HasPage, nbt_find-nbt_leaf_page}

later :
    (target : ℕ) (e x : NbtEntry)
    → leb e.nid.value x.nid.value ≡ false
    → (e.nid.value == target) ≡ true
    → (x.nid.value == target) ≡ false
later target e x above hit = ground arith

find_nid-insert_by :
    (target : ℕ) (e : NbtEntry) (xs : List NbtEntry)
    → find_nid target (insert_by nid_key e xs) ≡ find_nid target (e ∷ xs)
unfolding insert_by find_nid
find_nid-insert_by target e [] = refl
find_nid-insert_by target e (x ∷ xs) = elim (Bool-cases (leb e.nid.value x.nid.value)) [
  | inl h ↦ rw h refl
  | inr h ↦
      rw (h, find_nid-insert_by target e xs)
        (elim (Bool-cases (e.nid.value == target)) [
          | inl hit ↦ rw (hit, later target e x h hit) refl
          | inr miss ↦ rw miss refl
        ])
]

find_nid_tail :
    (target : ℕ) (e : NbtEntry) (xs ys : List NbtEntry)
    → find_nid target xs ≡ find_nid target ys
    → find_nid target (e ∷ xs) ≡ find_nid target (e ∷ ys)
unfolding find_nid
find_nid_tail target e xs ys h = rw h refl

pub find_nid-sort_by :
    (target : ℕ) (es : List NbtEntry) → find_nid target (sort_by nid_key es) ≡ find_nid target es
unfolding sort_by
find_nid-sort_by target [] = refl
find_nid-sort_by target (e ∷ es) =
    find_nid-insert_by target e (sort_by nid_key es)
    ∙ find_nid_tail target e _ _ (find_nid-sort_by target es)

leaf_room :
    (entries : List NbtEntry) (bid : Bid) (ib : Ib) {page : List ℕ}
    → build_nbt_leaf entries bid ib ≡ ok page
    → (length entries ≤ 15) × (nbt_leaf_page (sort_by nid_key entries) bid ib ≡ page)
unfolding build_nbt_leaf
leaf_room entries bid ib h = ground arith

-- In a file that has, at the offset of the root, the page that `buildNbtLeaf` made of entries
-- whose numbers fit their widths, `nbtFind` gives the first entry with the id, and nothing if no
-- entry has it: it neither throws nor reads outside the file, with the strict check of the
-- checksum or without.
pub nbt_find-build_nbt_leaf :
    (file : List ℕ) (root : Bref) (entries : List NbtEntry) (bid : Bid) (ib : Ib) (page : List ℕ)
    (target : Nid) (strict_crc : Bool)
    → build_nbt_leaf entries bid ib ≡ ok page
    → All IsEntry entries
    → bid.value < 2 ^ 64
    → HasPage file root.ib.value page
    → nbt_find file root target strict_crc ≡ ok (find_nid target.value entries)
nbt_find-build_nbt_leaf file root entries bid ib page target strict_crc built valid id has =
    let made = leaf_room entries bid ib built in
    let sorted = sort_by nid_key entries in
    let few : length sorted ≤ 15 = rw (length-sort_by nid_key entries) made.0 in
    let has_sorted : HasPage file root.ib.value (nbt_leaf_page sorted bid ib) = rw made.1 has in
    nbt_find-nbt_leaf_page file root sorted bid ib target strict_crc few
      (All-sort_by IsEntry nid_key entries valid) id has_sorted
    ∙ ap ok (find_nid-sort_by target.value entries)
