-- ===== src/Writer/OneLeaf.antt =====
-- src/writer.cpp: the node tree of at most 15 nodes, which is one leaf, and the pages of the block
-- tree.
use pst_dev.Prelude.{
  ℕ, zero, suc, ◌^◌, ◌≤◌, ◌<◌, ◌≡◌, refl, ap, arith, List, [], ◌∷◌, false, Bool-cases, inl, inr,
  ltb, length, All, take,
}
use pst_dev.Prelude.Sort.{sort_by, length-sort_by}
use pst_dev.Prelude.Except.{ok}
use pst_dev.Ident.{Bid, make_internal}
use pst_dev.Page.{BbtEntry, build_bbt_intermediate}
use pst_dev.Nbt.{NbtEntry, nid_key, Result, nbt_leaf_page, build_nbt_leaf}
use pst_dev.Writer.{align_up, blocks_start}
use pst_dev.Writer.Layout.{
  place, place_end, page_sizes, leaves_for, per_leaf, intermediate_entries, nbt_leaf_pages, front,
  plan_tree, bid_after, page_bids,
}
use pst_dev.Writer.M5.{
  M5DataBlockSpec, M5Node, block_sizes, bbt_entries, bbt_key, nbt_entries, bbt_plan, bbt_pages,
  nbt_pages,
}
use pst_dev.Writer.Pages.{build_bbt_intermediate-IsSealed}
use pst_dev.Writer.Trees.{IsPage}
use pst_dev.Writer.Parts.{
  leaves_for-bounds, one_leaf, bid_after-lt, bbt_leaf_pages-IsPage, bbt_front-IsPage,
}

pub take_few {ℓ} : {A : Type ℓ} (n : ℕ) (xs : List A) → length xs ≤ n → take n xs ≡ xs
take_few zero [] h = refl
take_few zero (x ∷ xs) h = absurd (omega arith)
take_few (suc n) [] h = refl
take_few (suc n) (x ∷ xs) h = ap (λ t. x ∷ t) (take_few n xs (omega arith))

pub length-nbt_entries : (ns : List M5Node) → length (nbt_entries ns) ≡ length ns
unfolding nbt_entries
length-nbt_entries [] = refl
length-nbt_entries (n ∷ ns) = ap suc (length-nbt_entries ns)

-- The plan of a tree that is one leaf, and the end of a plan.
pub plan_end_bid :
    (n cursor : ℕ) (b : Bid) → b.value < 2 ^ 64 → (plan_tree n cursor b).end_bid.value < 2 ^ 64
unfolding plan_tree
plan_end_bid n cursor b h =
    let l = bid_after-lt n b h in
    elim (Bool-cases (ltb 1 n)) [ inl t ↦ rw t (omega arith) | inr f ↦ rw f l ]

pub plan_root_bid :
    (n cursor : ℕ) (b : Bid) → b.value < 2 ^ 64 → (plan_tree n cursor b).root_bid.value < 2 ^ 64
unfolding plan_tree
plan_root_bid n cursor b h =
    let l = bid_after-lt n b h in
    elim (Bool-cases (ltb 1 n)) [
      | inl t ↦ rw t l
      | inr f ↦ rw f (front_bid n b (bid_after n b) h l)
    ]
  where
    front_bid :
        (n : ℕ) (b o : Bid)
        → b.value < 2 ^ 64
        → o.value < 2 ^ 64
        → (front o (page_bids n b)).value < 2 ^ 64
    front_bid zero b o h l = unfold page_bids in l
    front_bid (suc n) b o h l = unfold page_bids in h

pub plan_one :
    (cursor : ℕ) (b : Bid)
    → ((plan_tree 1 cursor b).root_bid ≡ b) × ((plan_tree 1 cursor b).root_ib ≡ cursor)
unfolding plan_tree page_bids place page_sizes
plan_one cursor b = (refl, refl)

-- The only leaf of at most 15 nodes.
module _ (nodes : List M5Node) (few : length nodes ≤ 15) (cursor : ℕ) (b : Bid) where
  abbrev pub sorted : List NbtEntry
  sorted = sort_by nid_key (nbt_entries nodes)

  pub length-sorted : length sorted ≤ 15
  length-sorted =
      omega (arith, length-sort_by nid_key (nbt_entries nodes), length-nbt_entries nodes)

  abbrev pub leaf : List ℕ
  leaf = nbt_leaf_page (sort_by nid_key sorted) b (record { value = cursor })

  pub built : build_nbt_leaf sorted b (record { value = cursor }) ≡ Result.ok leaf
  unfolding build_nbt_leaf
  built = let room : ltb 15 (length sorted) ≡ false = ground (arith, length-sorted) in rw room refl

  pub nbt_pages-one : nbt_pages nodes (plan_tree 1 cursor b) ≡ ok (leaf ∷ [], leaf)
  unfolding nbt_pages nbt_leaf_pages per_leaf plan_tree page_bids place page_sizes
  nbt_pages-one = rw (one_leaf (length nodes) few, take_few 15 sorted length-sorted, built) refl

-- The pages of the block tree.
pub bbt_pages-IsPage :
    (blocks : List M5DataBlockSpec)
    → All IsPage (bbt_pages blocks (bbt_plan blocks)).0
      × IsPage (bbt_pages blocks (bbt_plan blocks)).1
unfolding bbt_pages bbt_plan plan_tree
bbt_pages-IsPage blocks =
    let n = leaves_for (length blocks) 20 in
    let cursor = align_up (place_end blocks_start (block_sizes blocks)) 512 in
    let es = sort_by bbt_key (bbt_entries blocks (place blocks_start (block_sizes blocks))) in
    let word : (make_internal 2).value < 2 ^ 64 = unfold make_internal in omega arith in
    (
      bbt_leaf_pages-IsPage n cursor 20 (make_internal 2) es word,
      elim (Bool-cases (ltb 1 n)) [
        | inl t ↦ rw t (root_page n cursor es)
        | inr f ↦ rw f (
            bbt_front-IsPage n cursor 20 (make_internal 2) es (leaves_for-bounds (length blocks)).0
              word)
      ],
    )
  where
    root_page :
        (n cursor : ℕ) (es : List BbtEntry)
        → IsPage (
            build_bbt_intermediate
              (intermediate_entries bbt_key
                (per_leaf n 20 es)
                (page_bids n (make_internal 2))
                (place cursor (page_sizes n)))
              1
              (bid_after n (make_internal 2))
              (record { value = place_end cursor (page_sizes n) }))
    root_page n cursor es =
        let word : (make_internal 2).value < 2 ^ 64 = unfold make_internal in omega arith in
        let s =
          build_bbt_intermediate-IsSealed (bid_after n (make_internal 2))
            (record { value = place_end cursor (page_sizes n) })
            (bid_after-lt n (make_internal 2) word) _ in
        (s.size, s.bytes)
