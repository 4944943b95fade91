-- ===== src/Writer/Failures.antt =====
-- src/writer.cpp: when `writeM5Pst` reports success.
use mathlib.Core.Path.{subst}
use pst_dev.Prelude.{
  ℕ, ◌≤◌, ◌≡◌, refl, ap, ◌∙◌, sym, arith, List, [], ◌∷◌, ◌++◌, Bool-cases, inl, inr, true, false,
  not, ltb, if◌then◌else◌, length,
}
use pst_dev.Prelude.Except.{Except, ok, throw_if, ◌>>=◌, ◌>>◌, >>=-eq-ok, throw_if-eq-ok}
use pst_dev.Page.{build_amap}
use pst_dev.Writer.{
  WriteError, too_many_blocks, too_many_nodes, fopen_failed, fclose_failed, fwrite_truncated,
  Device, Sink, empty_sink, emit, emit_each, pad_to, finish,
}
use pst_dev.Writer.M5.{
  M5DataBlockSpec, M5Node, encoded_blocks, bbt_plan, nbt_plan, bbt_pages, nbt_pages, emit_leaves,
  emit_tree, emit_front, m5_header, write_m5_pst,
}
use pst_dev.Writer.Layout.{TreePlan}
use pst_dev.Writer.Trace.{
  Part, bytes, up_to, writes, joined, Taken, run, run-append, run-good, run-Taken,
}

finish-eq-ok :
    (d : Device) (s : Sink) {file : List ℕ}
    → finish d s ≡ ok file
    → (d.closes ≡ true) × (s.good ≡ true) × (s.written ≡ file)
unfolding finish
finish-eq-ok d s h =
    let (closed, h') =
      throw_if-eq-ok (not d.closes) fclose_failed
        (throw_if (not s.good) fwrite_truncated >> ok s.written) h in
    let (good, h'') = throw_if-eq-ok (not s.good) fwrite_truncated (ok s.written) h' in
    (ground (arith, closed), ground (arith, good), cc)

finish-ok : (d : Device) (s : Sink) → d.closes ≡ true → s.good ≡ true → finish d s ≡ ok s.written
unfolding finish
finish-ok d s closes good = rw (closes, good) refl

-- The parts of the file: the blocks, a tree, and all of it.
block_parts : List (List ℕ) → List Part
block_parts [] = []
block_parts (c ∷ cs) = bytes c ∷ block_parts cs

leaf_parts : List ℕ → List (List ℕ) → List Part
leaf_parts [] pages = []
leaf_parts (ib ∷ ibs) [] = []
leaf_parts (ib ∷ ibs) (p ∷ pages) = up_to ib ∷ bytes p ∷ leaf_parts ibs pages

tree_parts : TreePlan → List (List ℕ) → List ℕ → List Part
tree_parts plan leaves root =
    (if plan.has_intermediate then leaf_parts plan.leaf_ibs leaves else [])
    ++ (up_to plan.root_ib ∷ bytes root ∷ [])

-- HEADER, the allocation map at 0x4400, the blocks from 0x4600 on, the pages of the block tree and
-- those of the node tree, each page at the offset of its plan.
pub m5_parts : List M5DataBlockSpec → List M5Node → List (List ℕ) × List ℕ → List Part
m5_parts blocks nodes pages =
    let bbt = bbt_plan blocks in
    let nbt = nbt_plan blocks nodes in
    let bbt_made = bbt_pages blocks bbt in
    bytes (m5_header blocks nodes)
    ∷ up_to 0x4400
    ∷ bytes (build_amap (record { value = 0x4400 }) nbt.end_ib)
    ∷ up_to 0x4600
    ∷ (block_parts (encoded_blocks blocks)
        ++ (tree_parts bbt bbt_made.0 bbt_made.1 ++ tree_parts nbt pages.0 pages.1))

run-block_parts :
    (d : Device) (cs : List (List ℕ)) (s : Sink) → run d (block_parts cs) s ≡ emit_each d cs s
unfolding run block_parts emit_each
run-block_parts d [] s = refl
run-block_parts d (c ∷ cs) s = run-block_parts d cs (emit d c s)

run-leaf_parts :
    (d : Device) (ibs : List ℕ) (pages : List (List ℕ)) (s : Sink)
    → run d (leaf_parts ibs pages) s ≡ emit_leaves d ibs pages s
unfolding run leaf_parts emit_leaves
run-leaf_parts d [] pages s = refl
run-leaf_parts d (ib ∷ ibs) [] s = refl
run-leaf_parts d (ib ∷ ibs) (p ∷ pages) s = run-leaf_parts d ibs pages (emit d p (pad_to d ib s))

run-tree_parts :
    (d : Device) (plan : TreePlan) (leaves : List (List ℕ)) (root : List ℕ) (s : Sink)
    → run d (tree_parts plan leaves root) s ≡ emit_tree d plan leaves root s
unfolding tree_parts emit_tree
run-tree_parts d plan leaves root s = elim (Bool-cases plan.has_intermediate) [
  | inl t ↦ rw t (
      run-append d (leaf_parts plan.leaf_ibs leaves) (up_to plan.root_ib ∷ bytes root ∷ []) s
      ∙ ap (run d (up_to plan.root_ib ∷ bytes root ∷ [])) (run-leaf_parts d plan.leaf_ibs leaves s)
      ∙ (unfold run in refl))
  | inr n ↦ rw n (unfold run in refl)
]

-- The state after all the writes of `writeM5Pst`, with these pages of the node tree.
abbrev m5_sink : Device → List M5DataBlockSpec → List M5Node → List (List ℕ) × List ℕ → Sink
m5_sink d blocks nodes pages = emit_tree d (nbt_plan blocks nodes) pages.0 pages.1 (
    emit_tree d (bbt_plan blocks) (bbt_pages blocks (bbt_plan blocks)).0
      (bbt_pages blocks (bbt_plan blocks)).1
      (emit_front d (m5_header blocks nodes)
        (build_amap (record { value = 0x4400 }) (nbt_plan blocks nodes).end_ib)
        (encoded_blocks blocks) empty_sink))

run-m5_parts :
    (d : Device) (blocks : List M5DataBlockSpec) (nodes : List M5Node)
    (pages : List (List ℕ) × List ℕ)
    → run d (m5_parts blocks nodes pages) empty_sink ≡ m5_sink d blocks nodes pages
unfolding m5_parts emit_front run
run-m5_parts d blocks nodes pages =
    let bbt = bbt_plan blocks in
    let nbt = nbt_plan blocks nodes in
    let made = bbt_pages blocks bbt in
    let cs = encoded_blocks blocks in
    let s = pad_to d 0x4600 (
      emit d (build_amap (record { value = 0x4400 }) nbt.end_ib)
        (pad_to d 0x4400 (emit d (m5_header blocks nodes) empty_sink))) in
    run-append d (block_parts cs) (tree_parts bbt made.0 made.1 ++ tree_parts nbt pages.0 pages.1) s
    ∙ run-append d (tree_parts bbt made.0 made.1) (tree_parts nbt pages.0 pages.1)
        (run d (block_parts cs) s)
    ∙ ap (λ x. run d (tree_parts nbt pages.0 pages.1) (run d (tree_parts bbt made.0 made.1) x))
        (run-block_parts d cs s)
    ∙ ap (run d (tree_parts nbt pages.0 pages.1))
        (run-tree_parts d bbt made.0 made.1 (emit_each d cs s))
    ∙ run-tree_parts d nbt pages.0 pages.1 (emit_tree d bbt made.0 made.1 (emit_each d cs s))

-- Whatever the C library answers, `writeM5Pst` reports success only of at most 400 blocks and 300
-- nodes, on a file that opened and closed, whose node tree was built, and where every call of
-- `fwrite` took its chunk whole: HEADER, the allocation map at 0x4400, the blocks from 0x4600 on,
-- and the pages of the two trees at their offsets, with zeros up to an offset that is not reached.
-- The file is then these chunks.
pub write_m5_pst-eq-ok :
    (d : Device) (blocks : List M5DataBlockSpec) (nodes : List M5Node) {file : List ℕ}
    → write_m5_pst d blocks nodes ≡ ok file
    → (length blocks ≤ 400)
      × (length nodes ≤ 300)
      × (d.opens ≡ true)
      × (d.closes ≡ true)
      × ((pages : List (List ℕ) × List ℕ) × (nbt_pages nodes (nbt_plan blocks nodes) ≡ ok pages)
          × Taken d [] (writes (m5_parts blocks nodes pages) 0)
          × (file ≡ joined (writes (m5_parts blocks nodes pages) 0)))
unfolding write_m5_pst
write_m5_pst-eq-ok d blocks nodes {file} h =
    let nbt = nbt_plan blocks nodes in
    let last : List (List ℕ) × List ℕ → Except WriteError (List ℕ) =
      λ pages. throw_if (not d.opens) fopen_failed >> finish d (m5_sink d blocks nodes pages) in
    let k2 = nbt_pages nodes nbt >>= last in
    let k1 = throw_if (ltb 300 (length nodes)) too_many_nodes >> k2 in
    let (b, h1) = throw_if-eq-ok (ltb 400 (length blocks)) too_many_blocks k1 h in
    let (n, h2) = throw_if-eq-ok (ltb 300 (length nodes)) too_many_nodes k2 h1 in
    let (pages, built, h3) = >>=-eq-ok (nbt_pages nodes nbt) last h2 in
    let (opened, h4) =
      throw_if-eq-ok (not d.opens) fopen_failed (finish d (m5_sink d blocks nodes pages)) h3 in
    let (closed, good, same) = finish-eq-ok d (m5_sink d blocks nodes pages) h4 in
    let ran = run-m5_parts d blocks nodes pages in
    let (taken, whole) =
      run-good d (m5_parts blocks nodes pages) [] 0
        (subst (λ (s : Sink). s.good ≡ true) (sym ran) good) in
    (
      ground (arith, b),
      ground (arith, n),
      ground (arith, opened),
      closed,
      (pages, built, taken, sym same ∙ ap (λ (s : Sink). s.written) (sym ran) ∙ whole),
    )

-- The other way round: of at most 400 blocks and 300 nodes whose node tree is built, on a file that
-- opens and closes, where every call of `fwrite` takes its chunk whole, `writeM5Pst` reports
-- success, and the file is the chunks.
pub write_m5_pst-Taken :
    (d : Device) (blocks : List M5DataBlockSpec) (nodes : List M5Node)
    (pages : List (List ℕ) × List ℕ)
    → length blocks ≤ 400
    → length nodes ≤ 300
    → d.opens ≡ true
    → d.closes ≡ true
    → nbt_pages nodes (nbt_plan blocks nodes) ≡ ok pages
    → Taken d [] (writes (m5_parts blocks nodes pages) 0)
    → write_m5_pst d blocks nodes ≡ ok (joined (writes (m5_parts blocks nodes pages) 0))
unfolding write_m5_pst
write_m5_pst-Taken d blocks nodes pages few_blocks few_nodes opens closes built taken =
    let parts = m5_parts blocks nodes pages in
    let ran = run-m5_parts d blocks nodes pages in
    let good = run-Taken d parts [] 0 taken in
    let (t, whole) = run-good d parts [] 0 good in
    let b : ltb 400 (length blocks) ≡ false = ground (arith, few_blocks) in
    let n : ltb 300 (length nodes) ≡ false = ground (arith, few_nodes) in
    let sink_good : (m5_sink d blocks nodes pages).good ≡ true =
      subst (λ (s : Sink). s.good ≡ true) ran good in
    let sink_whole : (m5_sink d blocks nodes pages).written ≡ joined (writes parts 0) =
      subst (λ (s : Sink). s.written ≡ joined (writes parts 0)) ran whole in
    rw (b, n, built)
      (ap (λ o. throw_if (not o) fopen_failed >> finish d (m5_sink d blocks nodes pages)) opens
        ∙ finish-ok d (m5_sink d blocks nodes pages) closes sink_good
        ∙ ap ok sink_whole)
