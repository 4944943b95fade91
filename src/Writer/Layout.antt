-- ===== src/Writer/Layout.antt =====
-- src/writer.cpp: where the parts of a file stand, and the pages of its two trees.
use pst_dev.Prelude.{
  ℕ, zero, suc, ◌+◌, ◌-◌, ◌/◌, List, [], ◌∷◌, Bool, ◌==◌, ltb, if◌then◌else◌, take, drop,
}
use pst_dev.Bytes.{u64}
use pst_dev.Ident.{Bid}
use pst_dev.Page.{BbtEntry, BtEntry, build_bbt_leaf}
use pst_dev.Nbt.{NbtEntry, Result, build_nbt_leaf, ◌>>=◌}
use pst_dev.Writer.{page_size}

-- The offsets of parts of these sizes, one after the other, and the end of the last.
unfoldable pub place : ℕ → List ℕ → List ℕ
place cursor [] = []
place cursor (n ∷ ns) = cursor ∷ place (u64 (cursor + n)) ns

unfoldable pub place_end : ℕ → List ℕ → ℕ
place_end cursor [] = cursor
place_end cursor (n ∷ ns) = place_end (u64 (cursor + n)) ns

-- `nextPageBid`, advanced after each page.
abbrev pub next_bid : Bid → Bid
next_bid b = record { value = u64 (b.value + 4) }

unfoldable pub page_bids : ℕ → Bid → List Bid
page_bids zero b = []
page_bids (suc n) b = b ∷ page_bids n (next_bid b)

unfoldable pub bid_after : ℕ → Bid → Bid
bid_after zero b = b
bid_after (suc n) b = bid_after n (next_bid b)

unfoldable pub leaves_for : ℕ → ℕ → ℕ
leaves_for count cap = if count == 0 then 1 else (count + cap - 1) / cap

-- `perLeaf[i / cap].push_back(entries[i])` for at most `n * cap` entries.
unfoldable pub per_leaf {ℓ} : {E : Type ℓ} → ℕ → ℕ → List E → List (List E)
per_leaf zero cap es = []
per_leaf (suc n) cap es = take cap es ∷ per_leaf n cap (drop cap es)

-- An entry of the intermediate page for each leaf that is not empty: the key of its first entry.
unfoldable pub intermediate_entries {ℓ} :
    {E : Type ℓ} → (E → ℕ) → List (List E) → List Bid → List ℕ → List BtEntry
intermediate_entries key [] bids ibs = []
intermediate_entries key (es ∷ leaves) [] ibs = []
intermediate_entries key (es ∷ leaves) (b ∷ bids) [] = []
intermediate_entries key ([] ∷ leaves) (b ∷ bids) (ib ∷ ibs) =
    intermediate_entries key leaves bids ibs
intermediate_entries key ((e ∷ es) ∷ leaves) (b ∷ bids) (ib ∷ ibs) =
    record { btkey = key e; bref = record { bid = b; ib = record { value = ib } } }
    ∷ intermediate_entries key leaves bids ibs

unfoldable pub bbt_leaf_pages : List (List BbtEntry) → List Bid → List ℕ → List (List ℕ)
bbt_leaf_pages [] bids ibs = []
bbt_leaf_pages (es ∷ leaves) [] ibs = []
bbt_leaf_pages (es ∷ leaves) (b ∷ bids) [] = []
bbt_leaf_pages (es ∷ leaves) (b ∷ bids) (ib ∷ ibs) =
    build_bbt_leaf es b (record { value = ib }) ∷ bbt_leaf_pages leaves bids ibs

unfoldable pub nbt_leaf_pages : List (List NbtEntry) → List Bid → List ℕ → Result (List (List ℕ))
nbt_leaf_pages [] bids ibs = Result.ok []
nbt_leaf_pages (es ∷ leaves) [] ibs = Result.ok []
nbt_leaf_pages (es ∷ leaves) (b ∷ bids) [] = Result.ok []
nbt_leaf_pages (es ∷ leaves) (b ∷ bids) (ib ∷ ibs) =
    build_nbt_leaf es b (record { value = ib }) >>= λ page.
    (nbt_leaf_pages leaves bids ibs >>= λ pages. Result.ok (page ∷ pages))

-- `.front()` of a list that is not empty.
abbrev pub front {ℓ} : {A : Type ℓ} → A → List A → A
front other [] = other
front other (x ∷ xs) = x

-- One tree of a file: its leaves' ids and offsets, and those of its root, which is the only leaf
-- or a page behind the leaves.
pub record TreePlan : Type 0 where
  pub leaf_ibs : List ℕ
  pub leaf_bids : List Bid
  pub has_intermediate : Bool
  pub root_ib : ℕ
  pub root_bid : Bid
  pub end_ib : ℕ
  pub end_bid : Bid

unfoldable pub page_sizes : ℕ → List ℕ
page_sizes zero = []
page_sizes (suc n) = page_size ∷ page_sizes n

unfoldable pub plan_tree : ℕ → ℕ → Bid → TreePlan
plan_tree leaves cursor bid =
    let ibs = place cursor (page_sizes leaves) in
    let bids = page_bids leaves bid in
    let behind = place_end cursor (page_sizes leaves) in
    let bid' = bid_after leaves bid in
    let has = ltb 1 leaves in
    record {
      leaf_ibs = ibs;
      leaf_bids = bids;
      has_intermediate = has;
      root_ib = if has then behind else front 0 ibs;
      root_bid = if has then bid' else front bid' bids;
      end_ib = if has then u64 (behind + page_size) else behind;
      end_bid = if has then next_bid bid' else bid';
    }
