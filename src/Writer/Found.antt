-- ===== src/Writer/Found.antt =====
-- src/writer.cpp and src/nbt.cpp: `nbtFind` on the files of `writeM5Pst`.
use mathlib.Core.Path.{subst}
use pst_dev.Prelude.{
  ℕ, ◌+◌, ◌*◌, ◌^◌, ◌≤◌, ◌<◌, ◌≡◌, refl, ap, ◌∙◌, sym, arith, List, [], ◌∷◌, Bool, false, ltb,
  length, All,
}
use pst_dev.Prelude.Bits.{bit_and_ones}
use pst_dev.Prelude.Sort.{sort_by, length-sort_by, All-sort_by}
use pst_dev.Prelude.Except.{ok}
use pst_dev.Bytes.{slice, read_u64}
use pst_dev.Bytes.Laws.{IsBytes, read_le, read_u64-read_le}
use pst_dev.Bytes.Copy.{read_le-slice}
use pst_dev.Ident.{Nid, Bref, make_internal, make_data}
use pst_dev.Heap.{mv_total}
use pst_dev.Ndb.{WriterState, populate_fresh_rgnid, serialize_header}
use pst_dev.Ndb.Header.{IsWriterState, serialize_header-IsHeaderOf, serialize_header-IsBytes}
use pst_dev.Page.{build_amap}
use pst_dev.Nbt.{nid_key, Result}
use pst_dev.Nbt.Reader.{nbt_find}
use pst_dev.Nbt.Leaf.{IsEntry, nbt_leaf_page-IsSealed, find_nid}
use pst_dev.Nbt.Find.{HasPage}
use pst_dev.Nbt.Sort.{find_nid-sort_by, nbt_find-build_nbt_leaf}
use pst_dev.Writer.{Device, Sink, empty_sink, finish, align_up, writer_state, blocks_start}
use pst_dev.Writer.Layout.{place_end, leaves_for, TreePlan, plan_tree}
use pst_dev.Writer.M5.{
  M5DataBlockSpec, M5Node, block_sizes, encoded_blocks, nbt_entries, bbt_plan, nbt_plan, bbt_pages,
  nbt_pages, emit_tree, emit_front, m5_header, write_m5_pst, plan_root,
}
use pst_dev.Writer.Writes.{IsWorking, sink, finish-sink}
use pst_dev.Writer.Pages.{build_amap-IsSealed}
use pst_dev.Writer.Trees.{IsPage, plan_tree-bounds}
use pst_dev.Writer.Assembly.{IsFile, assembled}
use pst_dev.Writer.State.{writer_state-IsWriterState}
use pst_dev.Writer.Parts.{align_up-page, place_end-blocks, leaves_for-bounds, one_leaf}
use pst_dev.Writer.OneLeaf.{
  plan_end_bid, plan_root_bid, sorted, length-sorted, leaf, built, nbt_pages-one, bbt_pages-IsPage,
}

-- A block id and an offset as HEADER holds them.
abbrev pub bref_at : List ℕ → ℕ → Bref
bref_at file off = record {
  bid = record { value = read_u64 file off };
  ib = record { value = read_u64 file (off + 8) };
}

module _ (d : Device) (works : IsWorking d) (blocks : List M5DataBlockSpec) (nodes : List M5Node)
    (many : length blocks ≤ 400) (few : length nodes ≤ 15)
    (small : mv_total (encoded_blocks blocks) < 2 ^ 61) (kept : All IsBytes (encoded_blocks blocks))
    (valid : All IsEntry (nbt_entries nodes)) where
  n : ℕ
  n = leaves_for (length blocks) 20

  cursor : ℕ
  cursor = align_up (place_end blocks_start (block_sizes blocks)) 512

  cursor-bounds :
      (blocks_start + mv_total (encoded_blocks blocks) ≤ cursor) × (cursor + n * 512 < 2 ^ 62)
  unfolding cursor n
  cursor-bounds =
      let e = place_end-blocks blocks blocks_start (omega arith) in
      let a = align_up-page (place_end blocks_start (block_sizes blocks)) (omega (arith, e)) in
      let l = leaves_for-bounds (length blocks) in (omega (arith, e, a), omega (arith, e, a, l))

  bbt_planned : bbt_plan blocks ≡ plan_tree n cursor (make_internal 2)
  unfolding bbt_plan n cursor
  bbt_planned = refl

  nbt_planned :
      nbt_plan blocks nodes ≡ plan_tree 1 (bbt_plan blocks).end_ib (bbt_plan blocks).end_bid
  unfolding nbt_plan
  nbt_planned =
      ap (λ k. plan_tree k (bbt_plan blocks).end_ib (bbt_plan blocks).end_bid)
        (one_leaf (length nodes) few)

  end_bid-lt : (bbt_plan blocks).end_bid.value < 2 ^ 64
  unfolding bbt_plan
  end_bid-lt =
      plan_end_bid (leaves_for (length blocks) 20) _ (make_internal 2)
        (unfold make_internal in omega arith)

  root_leaf : List ℕ
  root_leaf = leaf nodes few (bbt_plan blocks).end_ib (bbt_plan blocks).end_bid

  bbt_bounds : ((bbt_plan blocks).root_ib < 2 ^ 62) × ((bbt_plan blocks).end_ib < 2 ^ 63)
  bbt_bounds =
      let c = cursor-bounds in
      let t =
        plan_tree-bounds n cursor (make_internal 2)
          (unfold n in (leaves_for-bounds (length blocks)).0) (omega arith) in
      rw bbt_planned (omega (arith, t, c), omega (arith, t, c))

  nbt_bounds :
      ((nbt_plan blocks nodes).root_ib < 2 ^ 64) × ((nbt_plan blocks nodes).end_ib < 2 ^ 64)
  nbt_bounds =
      let c = bbt_bounds in
      let t =
        plan_tree-bounds 1 (bbt_plan blocks).end_ib (bbt_plan blocks).end_bid (omega arith)
          (omega arith) in
      rw nbt_planned (omega (arith, t, c), omega (arith, t, c))

  abbrev state : WriterState
  state =
      writer_state (nbt_plan blocks nodes).end_ib (nbt_plan blocks nodes).end_bid
        (make_data (length blocks + 1)) (plan_root (nbt_plan blocks nodes))
        (plan_root (bbt_plan blocks))

  nbt_bids :
      ((nbt_plan blocks nodes).end_bid.value < 2 ^ 64)
      × ((nbt_plan blocks nodes).root_bid.value < 2 ^ 64)
  nbt_bids = rw nbt_planned (
    plan_end_bid 1 (bbt_plan blocks).end_ib (bbt_plan blocks).end_bid end_bid-lt,
    plan_root_bid 1 (bbt_plan blocks).end_ib (bbt_plan blocks).end_bid end_bid-lt,
  )

  bbt_root_bid : (bbt_plan blocks).root_bid.value < 2 ^ 64
  unfolding bbt_plan
  bbt_root_bid =
      plan_root_bid (leaves_for (length blocks) 20) _ (make_internal 2)
        (unfold make_internal in omega arith)

  next_b : (make_data (length blocks + 1)).value < 2 ^ 64
  unfolding make_data
  next_b = omega (arith, bit_and_ones 62 (length blocks + 1))

  state-IsWriterState : IsWriterState state
  state-IsWriterState =
      writer_state-IsWriterState (nbt_plan blocks nodes).end_ib (nbt_plan blocks nodes).end_bid
        (make_data (length blocks + 1)) (plan_root (nbt_plan blocks nodes))
        (plan_root (bbt_plan blocks)) nbt_bounds.1 (nbt_bids.0, next_b) (nbt_bids.1, nbt_bounds.0)
        (bbt_root_bid, omega (arith, bbt_bounds))

  m5_header-state : m5_header blocks nodes ≡ serialize_header state
  unfolding m5_header
  m5_header-state = refl

  root_leaf-IsPage : IsPage root_leaf
  unfolding root_leaf
  root_leaf-IsPage =
      let es = sort_by nid_key (sort_by nid_key (nbt_entries nodes)) in
      let room : length es ≤ 15 = omega (
        arith,
        length-sort_by nid_key
            (sorted nodes few (bbt_plan blocks).end_ib (bbt_plan blocks).end_bid),
        length-sorted nodes few (bbt_plan blocks).end_ib (bbt_plan blocks).end_bid,
      ) in
      let s =
        nbt_leaf_page-IsSealed es room
          (All-sort_by IsEntry nid_key (sort_by nid_key (nbt_entries nodes))
            (All-sort_by IsEntry nid_key (nbt_entries nodes) valid))
          (bbt_plan blocks).end_bid (record { value = (bbt_plan blocks).end_ib }) end_bid-lt in
      (s.size, s.bytes)

  header-size : length (m5_header blocks nodes) ≡ 564
  header-size = rw m5_header-state (serialize_header-IsHeaderOf state state-IsWriterState).size

  header-IsBytes : IsBytes (m5_header blocks nodes)
  header-IsBytes = rw m5_header-state (serialize_header-IsBytes state state-IsWriterState)

  amap-IsPage : IsPage (build_amap (record { value = 0x4400 }) (nbt_plan blocks nodes).end_ib)
  amap-IsPage =
      let s =
        build_amap-IsSealed (record { value = 0x4400 }) (nbt_plan blocks nodes).end_ib
          (omega arith) in
      (s.size, s.bytes)

  -- The writes, and the file that they leave.
  writes : Sink
  writes = emit_tree d (nbt_plan blocks nodes) (root_leaf ∷ []) root_leaf (
      emit_tree d (bbt_plan blocks) (bbt_pages blocks (bbt_plan blocks)).0
        (bbt_pages blocks (bbt_plan blocks)).1
        (emit_front d (m5_header blocks nodes)
          (build_amap (record { value = 0x4400 }) (nbt_plan blocks nodes).end_ib)
          (encoded_blocks blocks) empty_sink))

  writes-IsFile :
      (file : List ℕ) × (writes ≡ sink file)
      × IsFile (m5_header blocks nodes) root_leaf (nbt_plan blocks nodes).root_ib file
  unfolding writes
  writes-IsFile =
      let c = cursor-bounds in
      let pages = bbt_pages-IsPage blocks in
      let made =
        assembled d works (m5_header blocks nodes)
          (build_amap (record { value = 0x4400 }) (nbt_plan blocks nodes).end_ib) blocks header-size
          header-IsBytes amap-IsPage (omega arith) kept n cursor (make_internal 2)
          (bbt_plan blocks).end_bid (bbt_pages blocks (bbt_plan blocks)).0
          (bbt_pages blocks (bbt_plan blocks)).1 root_leaf
          (unfold n in (leaves_for-bounds (length blocks)).0) c.0 (omega (arith, c)) pages.0 pages.1
          root_leaf-IsPage in
      subst
        (λ (t : TreePlan).
          (file : List ℕ) × (emit_tree d (nbt_plan blocks nodes) (root_leaf ∷ []) root_leaf (
              emit_tree d t (bbt_pages blocks (bbt_plan blocks)).0
                (bbt_pages blocks (bbt_plan blocks)).1
                (emit_front d (m5_header blocks nodes)
                  (build_amap (record { value = 0x4400 }) (nbt_plan blocks nodes).end_ib)
                  (encoded_blocks blocks) empty_sink))
            ≡ sink file)
          × IsFile (m5_header blocks nodes) root_leaf (nbt_plan blocks nodes).root_ib file)
        (sym bbt_planned)
        (subst
          (λ (t : TreePlan).
            (file : List ℕ) × (emit_tree d t (root_leaf ∷ []) root_leaf (
                emit_tree d (plan_tree n cursor (make_internal 2))
                  (bbt_pages blocks (bbt_plan blocks)).0 (bbt_pages blocks (bbt_plan blocks)).1
                  (emit_front d (m5_header blocks nodes)
                    (build_amap (record { value = 0x4400 }) (nbt_plan blocks nodes).end_ib)
                    (encoded_blocks blocks) empty_sink))
              ≡ sink file)
            × IsFile (m5_header blocks nodes) root_leaf t.root_ib file)
          (sym (
            nbt_planned
            ∙ ap (λ (t : TreePlan). plan_tree 1 t.end_ib (bbt_plan blocks).end_bid) bbt_planned))
          made)

  one_page : nbt_pages nodes (nbt_plan blocks nodes) ≡ ok (root_leaf ∷ [], root_leaf)
  unfolding root_leaf
  one_page =
      rw nbt_planned (nbt_pages-one nodes few (bbt_plan blocks).end_ib (bbt_plan blocks).end_bid)

  written : write_m5_pst d blocks nodes ≡ finish d writes
  unfolding write_m5_pst writes
  written =
      let b : ltb 400 (length blocks) ≡ false = ground (arith, many) in
      let m : ltb 300 (length nodes) ≡ false = ground (arith, few) in
      rw (b, m, one_page, works.opened) refl

  -- The reference of the node tree in the header of the file.
  root_in_file :
      (file : List ℕ)
      → IsFile (m5_header blocks nodes) root_leaf (nbt_plan blocks nodes).root_ib file
      → read_u64 file (0x0d8 + 8) ≡ (nbt_plan blocks nodes).root_ib
  root_in_file file f =
      let front : slice file 0 564 ≡ serialize_header state = f.front ∙ m5_header-state in
      read_u64-read_le file 0x0e0 f.bytes
      ∙ sym (read_le-slice 8 file 0 564 0x0e0 (omega arith))
      ∙ ap (λ b. read_le 8 b 0x0e0) front
      ∙ sym (
          read_u64-read_le (serialize_header state) 0x0e0
            (serialize_header-IsBytes state state-IsWriterState))
      ∙ (unfold writer_state populate_fresh_rgnid in
          (serialize_header-IsHeaderOf state state-IsWriterState).nbt_ib)

  find_in :
      (file : List ℕ) (target : Nid) (strict_crc : Bool)
      → IsFile (m5_header blocks nodes) root_leaf (nbt_plan blocks nodes).root_ib file
      → nbt_find file (bref_at file 0x0d8) target strict_crc
        ≡ Result.ok (find_nid target.value (nbt_entries nodes))
  find_in file target strict_crc f =
      let at = root_in_file file f in
      let plan = bbt_plan blocks in
      let has : HasPage file (bref_at file 0x0d8).ib.value root_leaf = record {
        bytes = f.bytes;
        size = f.small;
        inside = omega (arith, at, f.size);
        same = ap (λ k. slice file k 512) at ∙ f.leaf_at;
      } in
      nbt_find-build_nbt_leaf file (bref_at file 0x0d8) (sort_by nid_key (nbt_entries nodes))
        plan.end_bid (record { value = plan.end_ib }) root_leaf target strict_crc
        (unfold root_leaf in built nodes few plan.end_ib plan.end_bid)
        (All-sort_by IsEntry nid_key (nbt_entries nodes) valid) end_bid-lt has
      ∙ ap Result.ok (find_nid-sort_by target.value (nbt_entries nodes))

-- On a device that takes every write, at most 400 blocks of bytes of less than 2^61 bytes in all
-- and at most 15 nodes whose numbers fit their widths are written to a file, and `nbtFind` on that
-- file, from the root that its own header names, gives the first node with the id, or nothing if
-- no node has it, with the strict check of the checksum or without.
pub write_m5_pst-nbt_find :
    (d : Device) (blocks : List M5DataBlockSpec) (nodes : List M5Node) (target : Nid)
    (strict_crc : Bool)
    → IsWorking d
    → length blocks ≤ 400
    → length nodes ≤ 15
    → mv_total (encoded_blocks blocks) < 2 ^ 61
    → All IsBytes (encoded_blocks blocks)
    → All IsEntry (nbt_entries nodes)
    → (file : List ℕ) × (write_m5_pst d blocks nodes ≡ ok file)
      × (nbt_find file (bref_at file 0x0d8) target strict_crc
          ≡ Result.ok (find_nid target.value (nbt_entries nodes)))
write_m5_pst-nbt_find d blocks nodes target strict_crc works many few small kept valid =
    let (file, run, f) = writes-IsFile d works blocks nodes many few small kept valid in
    (
      file,
      written d works blocks nodes many few small kept valid
          ∙ ap (finish d) run
          ∙ finish-sink d works file,
      find_in d works blocks nodes many few small kept valid file target strict_crc f,
    )
