-- ===== src/Nbt/Tree.antt =====
-- `buildNbtTree` of src/nbt.cpp: the leaves and, above more than one, the intermediate page.
use pst_dev.Prelude.Sort.{sort_by}
use pst_dev.Prelude.{
  ℕ, zero, suc, ◌+◌, ◌-◌, ◌*◌, ◌/◌, List, [], ◌∷◌, Bool, true, false, ◌==◌, ltb, min, if◌then◌else◌,
  length, take, drop, get_or,
}
use pst_dev.Bytes.{zeros}
use pst_dev.Ident.{Bref}
use pst_dev.Ndb.{ptype_nbt}
use pst_dev.Page.{BtEntry}
use pst_dev.Nbt.{
  NbtEntry, nbt_leaf_max_entries, bt_intermediate_max_entries, too_many_leaves, Result, ok, throw,
  ◌>>=◌, nid_key, build_nbt_leaf, build_bt_intermediate,
}
use pst_dev.Nbt.Reader.{no_bref}

pub record NbtTreeInputBids : Type 0 where
  pub leaf_brefs : List Bref
  pub intermediate_bref : Bref

pub record NbtTreeOutput : Type 0 where
  pub leaf_pages : List (List ℕ)
  pub intermediate_page : List ℕ
  pub has_intermediate : Bool
  pub root_bref : Bref
  pub tree_level : ℕ

unfoldable pub leaf_count : List NbtEntry → ℕ
leaf_count sorted =
    if length sorted == 0
    then 0
    else (length sorted + nbt_leaf_max_entries - 1) / nbt_leaf_max_entries

abbrev pub leaf_bref : NbtTreeInputBids → ℕ → Bref
leaf_bref bids li = get_or bids.leaf_brefs li no_bref

-- The entries of a leaf: `[lo, hi)` of the sorted ones.
unfoldable pub leaf_entries : List NbtEntry → ℕ → List NbtEntry
leaf_entries sorted li =
    let lo = li * nbt_leaf_max_entries in
    let hi = min (lo + nbt_leaf_max_entries) (length sorted) in take (hi - lo) (drop lo sorted)

-- The two loops over the leaves.
unfoldable pub build_leaves : ℕ → ℕ → List NbtEntry → NbtTreeInputBids → Result (List (List ℕ))
build_leaves zero li sorted bids = ok []
build_leaves (suc left) li sorted bids =
    build_nbt_leaf (leaf_entries sorted li) (leaf_bref bids li).bid (leaf_bref bids li).ib
    >>= λ page. (build_leaves left (li + 1) sorted bids >>= λ pages. ok (page ∷ pages))

abbrev no_entry : NbtEntry
no_entry = record {
  nid = record { value = 0 };
  bid_data = record { value = 0 };
  bid_sub = record { value = 0 };
  nid_parent = record { value = 0 };
}

unfoldable pub bt_entries : ℕ → ℕ → List NbtEntry → NbtTreeInputBids → List BtEntry
bt_entries zero li sorted bids = []
bt_entries (suc left) li sorted bids =
    record {
      btkey = (get_or sorted (li * nbt_leaf_max_entries) no_entry).nid.value;
      bref = leaf_bref bids li;
    }
    ∷ bt_entries left (li + 1) sorted bids

-- One leaf serves as the root, also of the empty tree.
unfoldable pub single_leaf : List ℕ → NbtTreeInputBids → NbtTreeOutput
single_leaf page bids = record {
  leaf_pages = page ∷ [];
  intermediate_page = zeros 512;
  has_intermediate = false;
  root_bref = leaf_bref bids 0;
  tree_level = 0;
}

unfoldable pub build_nbt_tree : List NbtEntry → NbtTreeInputBids → Result NbtTreeOutput
unfolding leaf_count build_leaves bt_entries single_leaf
build_nbt_tree entries bids =
    let sorted = sort_by nid_key entries in
    let n = leaf_count sorted in
    if ltb bt_intermediate_max_entries n
    then throw too_many_leaves
    else if length sorted == 0
    then (build_nbt_leaf [] (leaf_bref bids 0).bid (leaf_bref bids 0).ib >>= λ page.
        ok (single_leaf page bids))
    else (build_leaves n 0 sorted bids >>= λ pages.
        if n == 1
        then ok (record {
          leaf_pages = pages;
          intermediate_page = zeros 512;
          has_intermediate = false;
          root_bref = leaf_bref bids 0;
          tree_level = 0;
        })
        else (build_bt_intermediate (bt_entries n 0 sorted bids) 1 ptype_nbt
              bids.intermediate_bref.bid bids.intermediate_bref.ib
            >>= λ root. ok (record {
              leaf_pages = pages;
              intermediate_page = root;
              has_intermediate = true;
              root_bref = bids.intermediate_bref;
              tree_level = 1;
            })))
