-- ===== src/Nbt/Tests.antt =====
-- A leaf of two entries, in a file of that page alone.
use pst_dev.Prelude.Sort.{sort_by, insert_by, All-sort_by}
use pst_dev.Prelude.{
  All, ℕ, zero, suc, ◌≤◌, ◌≡◌, refl, ap, arith, List, [], ◌∷◌, take, length, true,
}
use pst_dev.Ident.{Bid, Bref}
use pst_dev.Ndb.{ptype_nbt, page_sig}
use pst_dev.Ndb.Trailer.{IsSealed}
use pst_dev.Nbt.{NbtEntry, ok, build_nbt_leaf, nbt_leaf_page, nid_key}
use pst_dev.Nbt.Reader.{nbt_find}
use pst_dev.Nbt.Leaf.{IsEntry, find_nid, nbt_leaf_page-IsSealed}
use pst_dev.Nbt.Find.{HasPage}
use pst_dev.Nbt.Sort.{nbt_find-build_nbt_leaf}

abbrev entry : ℕ → ℕ → NbtEntry
entry n b = record {
  nid = record { value = n };
  bid_data = record { value = b };
  bid_sub = record { value = 0 };
  nid_parent = record { value = 0x122 };
}

abbrev entries : List NbtEntry
entries = entry 0x8082 0x44 ∷ entry 0x21 0x48 ∷ []

entries_valid : All IsEntry entries
entries_valid = (
  (omega arith, omega arith, omega arith, omega arith),
  ((omega arith, omega arith, omega arith, omega arith), tt),
)

abbrev a_bid : Bid
a_bid = record { value = 0x24 }

abbrev root : Bref
root = record { bid = a_bid; ib = record { value = 0 } }

abbrev page : List ℕ
page = nbt_leaf_page (sort_by nid_key entries) a_bid root.ib

built : build_nbt_leaf entries a_bid root.ib ≡ ok page
unfolding build_nbt_leaf
built = refl

sorted_size : length (sort_by nid_key entries) ≤ 15
unfolding sort_by insert_by
sorted_size = omega arith

sealed : IsSealed page ptype_nbt (page_sig ptype_nbt a_bid root.ib) a_bid.value
sealed =
    nbt_leaf_page-IsSealed (sort_by nid_key entries) sorted_size
      (All-sort_by IsEntry nid_key entries entries_valid) a_bid root.ib (omega arith)

take_all : (n : ℕ) (xs : List ℕ) → length xs ≡ n → take n xs ≡ xs
take_all zero [] h = refl
take_all zero (x ∷ xs) h = absurd (omega arith)
take_all (suc n) [] h = refl
take_all (suc n) (x ∷ xs) h = ap (◌∷◌ x) (take_all n xs (omega arith))

has_page : HasPage page 0 page
has_page = record {
  bytes = sealed.bytes;
  size = omega (arith, sealed.size);
  inside = omega (arith, sealed.size);
  same = take_all 512 page sealed.size;
}

nbt_find-build_nbt_leaf_example :
    nbt_find page root (record { value = 0x8082 }) true ≡ ok (find_nid 0x8082 entries)
nbt_find-build_nbt_leaf_example =
    nbt_find-build_nbt_leaf page root entries a_bid root.ib page (record { value = 0x8082 }) true
      built entries_valid (omega arith) has_page
