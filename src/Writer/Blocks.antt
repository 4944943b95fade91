-- ===== src/Writer/Blocks.antt =====
-- src/writer.cpp: `writeBlocksPst` and `writeXBlockPst`, files of blocks without nodes.
use pst_dev.Prelude.{
  ℕ, zero, suc, ◌+◌, ◌-◌, ◌*◌, ◌/◌, List, [], ◌∷◌, ◌==◌, not, ltb, if◌then◌else◌, length,
}
use pst_dev.Prelude.Sort.{sort_by}
use pst_dev.Prelude.Except.{Except, throw_if, ◌>>◌}
use pst_dev.Bytes.{slice, u32, u64}
use pst_dev.Ident.{Bid, make_internal, make_data}
use pst_dev.Cipher.{permute}
use pst_dev.Ndb.{serialize_header}
use pst_dev.Block.{round_block_size, build_data_block, build_x_block, read_block_trailer}
use pst_dev.Page.{BbtEntry, build_amap, build_bbt_intermediate, build_empty_nbt_leaf}
use pst_dev.Writer.{
  ib_amap, blocks_start, page_size, WriteError, too_many_blocks, fopen_failed, zero_chunk,
  chunk_too_large, empty_payload, too_many_children, Device, empty_sink, emit, pad_to, emit_each,
  finish, align_up, writer_state,
}
use pst_dev.Writer.Layout.{
  place, place_end, page_bids, bid_after, next_bid, leaves_for, per_leaf, intermediate_entries,
  bbt_leaf_pages, front, page_sizes,
}
use pst_dev.Writer.M5.{bbt_key, emit_front}

unfoldable pub sizes : List (List ℕ) → List ℕ
sizes [] = []
sizes (b ∷ bs) = length b ∷ sizes bs

-- The entries of the block tree: the count of each block is read back from its trailer.
unfoldable pub trailer_entries : List Bid → List ℕ → List (List ℕ) → List BbtEntry
trailer_entries [] ibs buffers = []
trailer_entries (b ∷ bids) [] buffers = []
trailer_entries (b ∷ bids) (ib ∷ ibs) [] = []
trailer_entries (b ∷ bids) (ib ∷ ibs) (buffer ∷ buffers) =
    record {
      bref = record { bid = b; ib = record { value = ib } };
      cb = (read_block_trailer buffer (length buffer)).cb;
      c_ref = 2;
    }
    ∷ trailer_entries bids ibs buffers

-- The struct of the same name.
pub record Layout : Type 0 where
  pub block_offsets : List ℕ
  pub bbt_leaf_ibs : List ℕ
  pub bbt_root_ib : ℕ
  pub nbt_leaf_ib : ℕ
  pub ib_file_eof : ℕ

-- For `leaves` leaves of the block tree.
unfoldable pub layout : List (List ℕ) → ℕ → Layout
layout buffers leaves =
    let cursor = align_up (place_end blocks_start (sizes buffers)) page_size in
    let ibs = place cursor (page_sizes leaves) in
    let behind = place_end cursor (page_sizes leaves) in
    let nbt = if leaves == 1 then behind else u64 (behind + page_size) in
    record {
      block_offsets = place blocks_start (sizes buffers);
      bbt_leaf_ibs = ibs;
      bbt_root_ib = if leaves == 1 then front 0 ibs else behind;
      nbt_leaf_ib = nbt;
      ib_file_eof = u64 (nbt + page_size);
    }

unfoldable pub build_and_write_blocks_pst :
    Device → List Bid → List (List ℕ) → Bid → Bid → List Bid → Except WriteError (List ℕ)
build_and_write_blocks_pst d block_bids buffers bid_nbt_leaf bid_bbt_root bid_bbt_leaves =
    let leaves = length bid_bbt_leaves in
    let l = layout buffers leaves in
    let groups =
      per_leaf leaves 20 (sort_by bbt_key (trailer_entries block_bids l.block_offsets buffers)) in
    let pages = bbt_leaf_pages groups bid_bbt_leaves l.bbt_leaf_ibs in
    let root_bid = if leaves == 1 then front bid_bbt_root bid_bbt_leaves else bid_bbt_root in
    let root_page =
      if leaves == 1
      then front [] pages
      else build_bbt_intermediate
          (intermediate_entries bbt_key groups bid_bbt_leaves l.bbt_leaf_ibs) 1 bid_bbt_root
          (record { value = l.bbt_root_ib }) in
    let nbt_page = build_empty_nbt_leaf bid_nbt_leaf (record { value = l.nbt_leaf_ib }) in
    let header = serialize_header (
      writer_state l.ib_file_eof (make_internal 0x10) (make_data (length block_bids + 1))
        (record { bid = bid_nbt_leaf; ib = record { value = l.nbt_leaf_ib } })
        (record { bid = root_bid; ib = record { value = l.bbt_root_ib } })) in
    let s1 =
      emit_front d header (build_amap (record { value = ib_amap }) l.ib_file_eof) buffers
        empty_sink in
    let s2 = pad_to d (front l.bbt_root_ib l.bbt_leaf_ibs) s1 in
    let s3 = if leaves == 1 then s2 else emit_each d pages s2 in
    let s4 = emit d root_page (pad_to d l.bbt_root_ib s3) in
    throw_if (not d.opens) fopen_failed >> finish d (emit d nbt_page (pad_to d l.nbt_leaf_ib s4))

-- The ids 1, 2, ... of `n` data blocks, from `i` on.
unfoldable pub data_bids : ℕ → ℕ → List Bid
data_bids zero i = []
data_bids (suc n) i = make_data (i + 1) ∷ data_bids n (i + 1)

-- The first pass: the offsets by the sizes to come, and their end.
unfoldable pub provisional : ℕ → List (List ℕ) → List ℕ
provisional cursor [] = []
provisional cursor (p ∷ ps) = cursor ∷ provisional (u64 (cursor + round_block_size (length p))) ps

unfoldable pub provisional_end : ℕ → List (List ℕ) → ℕ
provisional_end cursor [] = cursor
provisional_end cursor (p ∷ ps) = provisional_end (u64 (cursor + round_block_size (length p))) ps

-- The second pass.
unfoldable pub data_blocks : List (List ℕ) → List Bid → List ℕ → List (List ℕ)
data_blocks [] bids ibs = []
data_blocks (p ∷ ps) [] ibs = []
data_blocks (p ∷ ps) (b ∷ bids) [] = []
data_blocks (p ∷ ps) (b ∷ bids) (ib ∷ ibs) =
    build_data_block p b (record { value = ib }) permute ∷ data_blocks ps bids ibs

-- The page ids from `start` on, and the call.
unfoldable pub with_page_bids :
    Device → List Bid → List (List ℕ) → ℕ → Bid → Except WriteError (List ℕ)
with_page_bids d bids built leaves start =
    let leaf_bids = page_bids leaves start in
    let behind = bid_after leaves start in
    build_and_write_blocks_pst d bids built (if ltb 1 leaves then next_bid behind else behind)
      (if leaves == 1 then front behind leaf_bids else behind) leaf_bids

unfoldable pub write_blocks_pst : Device → List (List ℕ) → Except WriteError (List ℕ)
write_blocks_pst d payloads =
    let n = length payloads in
    let bids = data_bids n 0 in
    let built = data_blocks payloads bids (provisional blocks_start payloads) in
    throw_if (ltb (20 * 20) n) too_many_blocks
    >> with_page_bids d bids built (leaves_for n 20) (make_internal 2)

-- The parts of a payload in data blocks: `left` of `n`, from the one at `i` on.
unfoldable pub chunks_from : ℕ → ℕ → ℕ → List ℕ → ℕ → List (List ℕ)
chunks_from zero i n payload chunk_size = []
chunks_from (suc left) i n payload chunk_size =
    slice payload (i * chunk_size)
      (if i + 1 == n then length payload - i * chunk_size else chunk_size)
    ∷ chunks_from left (i + 1) n payload chunk_size

unfoldable pub chunk_count : List ℕ → ℕ → ℕ
chunk_count payload chunk_size = (length payload + chunk_size - 1) / chunk_size

unfoldable pub chunks : List ℕ → ℕ → List (List ℕ)
chunks payload chunk_size =
    chunks_from (chunk_count payload chunk_size) 0 (chunk_count payload chunk_size) payload
      chunk_size

-- An element behind a list.
abbrev pub push_back {ℓ} : {A : Type ℓ} → List A → A → List A
push_back [] x = x ∷ []
push_back (y ∷ ys) x = y ∷ push_back ys x

unfoldable pub write_x_block_pst : Device → List ℕ → ℕ → Except WriteError (List ℕ)
write_x_block_pst d payload chunk_size =
    let n = chunk_count payload chunk_size in
    let parts = chunks payload chunk_size in
    let bids = data_bids n 0 in
    let x_bid = make_internal (n + 1) in
    let x_ib = provisional_end blocks_start parts in
    let x_block = build_x_block bids (u32 (length payload)) x_bid (record { value = x_ib }) in
    let built = push_back (data_blocks parts bids (provisional blocks_start parts)) x_block in
    throw_if (chunk_size == 0) zero_chunk
    >> (throw_if (ltb 8176 chunk_size) chunk_too_large
        >> (throw_if (length payload == 0) empty_payload
            >> (throw_if (ltb 1019 n) too_many_children
                >> with_page_bids d (push_back bids x_bid) built ((n + 1 + 20 - 1) / 20)
                    (make_internal 0x100))))
