-- ===== src/Writer/Assembly.antt =====
-- src/writer.cpp: a file of a front, a tree of any number of leaves, and a tree of one leaf.
use pst_dev.Prelude.{
  ℕ, zero, suc, ◌+◌, ◌*◌, ◌^◌, ◌≤◌, ◌<◌, ◌≡◌, refl, ap, ◌∙◌, sym, arith, List, [], ◌∷◌, ◌++◌,
  length, length-append, take, All,
}
use pst_dev.Bytes.{slice}
use pst_dev.Bytes.Laws.{IsBytes}
use pst_dev.Ident.{Bid}
use pst_dev.Heap.{mv_total}
use pst_dev.Writer.{Device, empty_sink, blocks_start}
use pst_dev.Writer.Layout.{plan_tree}
use pst_dev.Writer.M5.{M5DataBlockSpec, encoded_blocks, emit_tree, emit_front}
use pst_dev.Writer.Writes.{IsWorking, sink, append_nil, IsBytes-append, slice_chunk}
use pst_dev.Writer.Trees.{IsPage, emit_tree-sink}
use pst_dev.Writer.Parts.{emit_front-sink}

pub take-append : (n : ℕ) (xs ys : List ℕ) → n ≤ length xs → take n (xs ++ ys) ≡ take n xs
take-append zero xs ys h = refl
take-append (suc n) [] ys h = absurd (omega arith)
take-append (suc n) (x ∷ xs) ys h = ap (λ t. x ∷ t) (take-append n xs ys (omega arith))

pub take-length : (xs : List ℕ) → take (length xs) xs ≡ xs
take-length [] = refl
take-length (x ∷ xs) = ap (λ t. x ∷ t) (take-length xs)

-- What is known of such a file.
pub record IsFile (header leaf : List ℕ) (leaf_ib : ℕ) (file : List ℕ) : Type 0 where
  pub bytes : IsBytes file
  pub front : slice file 0 564 ≡ header
  pub size : length file ≡ leaf_ib + 512
  pub small : length file < 2 ^ 64
  pub leaf_at : slice file leaf_ib 512 ≡ leaf

module _ (d : Device) (works : IsWorking d) (header amap : List ℕ) (blocks : List M5DataBlockSpec)
    (h : length header ≡ 564) (hb : IsBytes header) (map : IsPage amap)
    (small : mv_total (encoded_blocks blocks) < 2 ^ 62)
    (kept : All IsBytes (encoded_blocks blocks)) where
  pub assembled :
      (n cursor : ℕ) (b b' : Bid) (pages : List (List ℕ)) (root leaf : List ℕ)
      → 0 < n
      → blocks_start + mv_total (encoded_blocks blocks) ≤ cursor
      → cursor + n * 512 < 2 ^ 63
      → All IsPage pages
      → IsPage root
      → IsPage leaf
      → (file : List ℕ) × (emit_tree d
            (plan_tree 1 (plan_tree n cursor b).end_ib b')
            (leaf ∷ [])
            leaf
            (emit_tree d
              (plan_tree n cursor b)
              pages
              root
              (emit_front d header amap (encoded_blocks blocks) empty_sink))
          ≡ sink file)
        × IsFile header leaf (plan_tree 1 (plan_tree n cursor b).end_ib b').root_ib file
  assembled n cursor b b' pages root leaf pos behind room ps r l =
      let (m1, run1, b1, size1) = emit_front-sink d works header amap blocks h map small kept in
      let w1 = header ++ m1 in
      let (m2, run2, b2, size2, end2, le2) =
        emit_tree-sink d works n cursor b pages root w1 pos (omega (arith, size1, behind))
          (omega arith) ps r in
      let w2 = (w1 ++ m2) ++ root in
      let e2 : length w2 ≡ (plan_tree n cursor b).end_ib =
        length-append (w1 ++ m2) root ∙ omega (arith, size2, end2, r.0) in
      let (m3, run3, b3, size3, end3, le3) =
        emit_tree-sink d works 1 (plan_tree n cursor b).end_ib b' (leaf ∷ []) leaf w2 (omega arith)
          (omega (arith, e2)) (omega (arith, le2)) (l, tt) l in
      let w3 = w2 ++ m3 in
      let file = w3 ++ leaf in
      let size : length file ≡ (plan_tree 1 (plan_tree n cursor b).end_ib b').root_ib + 512 =
        length-append w3 leaf ∙ omega (arith, size3, l.0) in
      let l1 = length-append header m1 in
      let l2 = length-append w1 m2 in
      let l3 = length-append (w1 ++ m2) root in
      let l4 = length-append w2 m3 in
      let first : take 564 file ≡ header =
        take-append 564 w3 leaf (omega (arith, l1, l2, l3, l4, h))
        ∙ take-append 564 w2 m3 (omega (arith, l1, l2, l3, h))
        ∙ take-append 564 (w1 ++ m2) root (omega (arith, l1, l2, h))
        ∙ take-append 564 w1 m2 (omega (arith, l1, h))
        ∙ take-append 564 header m1 (omega (arith, h))
        ∙ ap (λ k. take k header) (sym h)
        ∙ take-length header in
      (
        file,
        ap
              (λ s.
                emit_tree d (plan_tree 1 (plan_tree n cursor b).end_ib b') (leaf ∷ []) leaf
                  (emit_tree d (plan_tree n cursor b) pages root s))
              run1
            ∙ ap (emit_tree d (plan_tree 1 (plan_tree n cursor b).end_ib b') (leaf ∷ []) leaf) run2
            ∙ run3,
        record {
          bytes =
              IsBytes-append w3 leaf
                (IsBytes-append w2 m3
                  (IsBytes-append (w1 ++ m2) root
                    (IsBytes-append w1 m2 (IsBytes-append header m1 hb b1) b2) r.1)
                  b3)
                l.1;
          front = first;
          size = size;
          small = omega (arith, size, end3, le3, le2);
          leaf_at =
              ap (λ t. slice (w3 ++ t) (plan_tree 1 (plan_tree n cursor b).end_ib b').root_ib 512)
                (sym (append_nil leaf))
              ∙ slice_chunk w3 leaf [] _ 512 size3 l.0;
        },
      )
