-- ===== src/Writer/M5.antt =====
-- src/writer.cpp: `writeM5Pst`.
use pst_dev.Prelude.{ℕ, ◌+◌, ◌*◌, List, [], ◌∷◌, not, ltb, if◌then◌else◌, length}
use pst_dev.Prelude.Sort.{sort_by}
use pst_dev.Prelude.Except.{Except, ok, throw, throw_if, ◌>>=◌, ◌>>◌}
use pst_dev.Ident.{Nid, Bid, Bref, make_internal, make_data}
use pst_dev.Ndb.{serialize_header, ptype_nbt}
use pst_dev.Page.{BbtEntry, build_amap, build_bbt_intermediate}
use pst_dev.Nbt.{NbtEntry, nid_key, Result, build_bt_intermediate}
use pst_dev.Writer.{
  ib_amap, blocks_start, page_size, WriteError, too_many_blocks, too_many_nodes, fopen_failed,
  terminated, Device, Sink, empty_sink, emit, pad_to, emit_each, finish, align_up, writer_state,
}
use pst_dev.Writer.Layout.{
  place, place_end, leaves_for, per_leaf, intermediate_entries, bbt_leaf_pages, nbt_leaf_pages,
  front, TreePlan, plan_tree,
}

pub record M5DataBlockSpec : Type 0 where
  pub bid : Bid
  pub encoded_block : List ℕ
  pub cb : ℕ

pub record M5Node : Type 0 where
  pub nid : Nid
  pub bid_data : Bid
  pub bid_sub : Bid
  pub nid_parent : Nid

unfoldable pub block_sizes : List M5DataBlockSpec → List ℕ
block_sizes [] = []
block_sizes (b ∷ bs) = length b.encoded_block ∷ block_sizes bs

unfoldable pub encoded_blocks : List M5DataBlockSpec → List (List ℕ)
encoded_blocks [] = []
encoded_blocks (b ∷ bs) = b.encoded_block ∷ encoded_blocks bs

-- The entries of the block tree, in the order of the blocks.
unfoldable pub bbt_entries : List M5DataBlockSpec → List ℕ → List BbtEntry
bbt_entries [] ibs = []
bbt_entries (b ∷ bs) [] = []
bbt_entries (b ∷ bs) (ib ∷ ibs) =
    record { bref = record { bid = b.bid; ib = record { value = ib } }; cb = b.cb; c_ref = 2 }
    ∷ bbt_entries bs ibs

abbrev pub bbt_key : BbtEntry → ℕ
bbt_key e = e.bref.bid.value

unfoldable pub nbt_entries : List M5Node → List NbtEntry
nbt_entries [] = []
nbt_entries (n ∷ ns) =
    record { nid = n.nid; bid_data = n.bid_data; bid_sub = n.bid_sub; nid_parent = n.nid_parent }
    ∷ nbt_entries ns

-- The plans of the two trees, one behind the other.
unfoldable pub bbt_plan : List M5DataBlockSpec → TreePlan
bbt_plan blocks =
    plan_tree (leaves_for (length blocks) 20)
      (align_up (place_end blocks_start (block_sizes blocks)) page_size) (make_internal 2)

unfoldable pub nbt_plan : List M5DataBlockSpec → List M5Node → TreePlan
nbt_plan blocks nodes =
    plan_tree (leaves_for (length nodes) 15) (bbt_plan blocks).end_ib (bbt_plan blocks).end_bid

-- The leaves of the block tree and its root page.
unfoldable pub bbt_pages : List M5DataBlockSpec → TreePlan → List (List ℕ) × List ℕ
bbt_pages blocks plan =
    let sorted = sort_by bbt_key (bbt_entries blocks (place blocks_start (block_sizes blocks))) in
    let leaves = per_leaf (leaves_for (length blocks) 20) 20 sorted in
    let pages = bbt_leaf_pages leaves plan.leaf_bids plan.leaf_ibs in
    (
      pages,
      if plan.has_intermediate
          then build_bbt_intermediate
              (intermediate_entries bbt_key leaves plan.leaf_bids plan.leaf_ibs) 1 plan.root_bid
              (record { value = plan.root_ib })
          else front [] pages,
    )

-- A builder of the node tree throws through `writeM5Pst`, which is noexcept.
abbrev pub or_terminate {ℓ} : {A : Type ℓ} → Result A → Except WriteError A
or_terminate (Result.ok a) = ok a
or_terminate (Result.throw e) = throw terminated
or_terminate Result.fault = throw terminated

unfoldable pub nbt_pages : List M5Node → TreePlan → Except WriteError (List (List ℕ) × List ℕ)
nbt_pages nodes plan =
    let sorted = sort_by nid_key (nbt_entries nodes) in
    let leaves = per_leaf (leaves_for (length nodes) 15) 15 sorted in
    or_terminate (nbt_leaf_pages leaves plan.leaf_bids plan.leaf_ibs) >>= λ pages.
    if plan.has_intermediate
    then (or_terminate (
          build_bt_intermediate (intermediate_entries nid_key leaves plan.leaf_bids plan.leaf_ibs) 1
            ptype_nbt plan.root_bid (record { value = plan.root_ib }))
        >>= λ root. ok (pages, root))
    else ok (pages, front [] pages)

-- `padTo` and `emit` for each leaf, if the leaves are not the root.
unfoldable pub emit_leaves : Device → List ℕ → List (List ℕ) → Sink → Sink
emit_leaves d [] pages s = s
emit_leaves d (ib ∷ ibs) [] s = s
emit_leaves d (ib ∷ ibs) (p ∷ pages) s = emit_leaves d ibs pages (emit d p (pad_to d ib s))

unfoldable pub emit_tree : Device → TreePlan → List (List ℕ) → List ℕ → Sink → Sink
emit_tree d plan leaves root s =
    let s' = if plan.has_intermediate then emit_leaves d plan.leaf_ibs leaves s else s in
    emit d root (pad_to d plan.root_ib s')

-- From the header to the last block.
unfoldable pub emit_front : Device → List ℕ → List ℕ → List (List ℕ) → Sink → Sink
emit_front d header amap blocks s =
    emit_each d blocks (pad_to d blocks_start (emit d amap (pad_to d ib_amap (emit d header s))))

abbrev pub plan_root : TreePlan → Bref
plan_root plan = record { bid = plan.root_bid; ib = record { value = plan.root_ib } }

unfoldable pub m5_header : List M5DataBlockSpec → List M5Node → List ℕ
m5_header blocks nodes =
    let nbt = nbt_plan blocks nodes in
    serialize_header (
      writer_state nbt.end_ib nbt.end_bid (make_data (length blocks + 1)) (plan_root nbt)
        (plan_root (bbt_plan blocks)))

unfoldable pub write_m5_pst :
    Device → List M5DataBlockSpec → List M5Node → Except WriteError (List ℕ)
write_m5_pst d blocks nodes =
    let bbt = bbt_plan blocks in
    let nbt = nbt_plan blocks nodes in
    let (bbt_leaves, bbt_root) = bbt_pages blocks bbt in
    throw_if (ltb (20 * 20) (length blocks)) too_many_blocks
    >> (throw_if (ltb (15 * 20) (length nodes)) too_many_nodes
        >> (nbt_pages nodes nbt >>= λ (nbt_leaves, nbt_root).
            throw_if (not d.opens) fopen_failed
            >> finish d (
                emit_tree d nbt nbt_leaves nbt_root (
                  emit_tree d bbt bbt_leaves bbt_root (
                    emit_front d (m5_header blocks nodes)
                      (build_amap (record { value = ib_amap }) nbt.end_ib) (encoded_blocks blocks)
                      empty_sink)))))
