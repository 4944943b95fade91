-- ===== src/Writer/Trees.antt =====
-- src/writer.cpp: a tree of pages in the file: its leaves, and its root at the planned offset.
use pst_dev.Prelude.{
  ℕ, zero, suc, ◌+◌, ◌-◌, ◌*◌, ◌^◌, ◌≤◌, ◌<◌, ◌≡◌, ap, ◌∙◌, sym, arith, List, [], ◌∷◌, ◌++◌, true,
  ltb, length, length-append, length-replicate, All,
}
use native.Mathlib.Nat.{mod-eq_of_lt}
use pst_dev.Bytes.{zeros, u64}
use pst_dev.Bytes.Laws.{IsBytes, IsBytes-zeros}
use pst_dev.Ident.{Bid}
use pst_dev.Writer.{Device, emit, pad_to}
use pst_dev.Writer.Layout.{place, place_end, page_sizes, plan_tree}
use pst_dev.Writer.M5.{emit_leaves, emit_tree}
use pst_dev.Writer.Writes.{
  IsWorking, sink, append_assoc, append_nil, IsBytes-append, emit-sink, pad_to-sink,
}

-- A page of bytes.
abbrev pub IsPage : List ℕ → Type 0
IsPage p = (length p ≡ 512) × IsBytes p

next_page : (cursor : ℕ) → cursor + 512 < 2 ^ 64 → u64 (cursor + 512) ≡ cursor + 512
next_page cursor h = mod-eq_of_lt h

place_next :
    (n cursor : ℕ)
    → cursor + 512 < 2 ^ 64
    → place cursor (page_sizes (suc n)) ≡ cursor ∷ place (cursor + 512) (page_sizes n)
unfolding place page_sizes
place_next n cursor h = ap (λ t. cursor ∷ place t (page_sizes n)) (next_page cursor h)

pub place_end-pages :
    (n cursor : ℕ) → cursor + n * 512 < 2 ^ 64 → place_end cursor (page_sizes n) ≡ cursor + n * 512
unfolding place_end page_sizes
place_end-pages zero cursor h = omega arith
place_end-pages (suc n) cursor h =
    ap (λ t. place_end t (page_sizes n)) (next_page cursor (omega arith))
    ∙ place_end-pages n (cursor + 512) (omega arith)
    ∙ omega arith

pub plan_tree-bounds :
    (n cursor : ℕ) (b : Bid)
    → 0 < n
    → cursor + n * 512 + 1024 < 2 ^ 64
    → ((plan_tree n cursor b).root_ib ≤ cursor + n * 512)
      × ((plan_tree n cursor b).end_ib ≤ cursor + n * 512 + 512)
unfolding plan_tree
plan_tree-bounds zero cursor b p h = absurd (omega arith)
plan_tree-bounds (suc zero) cursor b p h =
    let only = place_next 0 cursor (omega arith) in
    let behind = place_end-pages 1 cursor (omega arith) in
    (rw only (omega arith), rw behind (omega arith))
plan_tree-bounds (suc (suc n)) cursor b p h =
    let k = suc (suc n) in
    let behind = place_end-pages k cursor (omega arith) in
    let many : ltb 1 k ≡ true = ground arith in
    let last : u64 (cursor + k * 512 + 512) ≡ cursor + k * 512 + 512 = mod-eq_of_lt (omega arith) in
    (rw (many, behind) (omega arith), rw (many, behind) (omega (arith, last)))

module _ (d : Device) (works : IsWorking d) where
  -- Zeros up to an offset, and a page there.
  page_at :
      (w p : List ℕ) (t : ℕ)
      → length w ≤ t
      → t + 512 < 2 ^ 64
      → IsPage p
      → (emit d p (pad_to d t (sink w)) ≡ sink ((w ++ zeros (t - length w)) ++ p))
        × (length (w ++ zeros (t - length w)) ≡ t)
  page_at w p t h l (size, b) =
      let e : length (w ++ zeros (t - length w)) ≡ t =
        length-append w (zeros (t - length w))
        ∙ omega (arith, h, length-replicate {A = ℕ} (t - length w) 0) in
      (
        ap (emit d p) (pad_to-sink d works w t h)
            ∙ emit-sink d works (w ++ zeros (t - length w)) p (omega (arith, e, size)),
        e,
      )

  leaves_written :
      (n cursor : ℕ) (pages : List (List ℕ)) (w : List ℕ)
      → length w ≤ cursor
      → cursor + n * 512 + 512 < 2 ^ 64
      → All IsPage pages
      → (m : List ℕ) × (emit_leaves d (place cursor (page_sizes n)) pages (sink w) ≡ sink (w ++ m))
        × IsBytes m
        × (length (w ++ m) ≤ cursor + n * 512)
  unfolding emit_leaves
  leaves_written zero cursor pages w h l ps = (
    [],
    (unfold place page_sizes in ap sink (sym (append_nil w))),
    (λ i. omega arith),
    rw (append_nil w) (omega (arith, h)),
  )
  leaves_written (suc n) cursor [] w h l ps = (
    [],
    (unfold place page_sizes in ap sink (sym (append_nil w))),
    (λ i. omega arith),
    rw (append_nil w) (omega (arith, h)),
  )
  leaves_written (suc n) cursor (p ∷ pages) w h l ps =
      let (step, size) = page_at w p cursor h (omega arith) ps.0 in
      let gap = zeros (cursor - length w) in
      let w' = (w ++ gap) ++ p in
      let size' : length w' ≡ cursor + 512 =
        length-append (w ++ gap) p ∙ omega (arith, size, ps.0.0) in
      let (m, run, b, le) =
        leaves_written n (cursor + 512) pages w' (omega (arith, size')) (omega arith) ps.1 in
      let end_le : length (w' ++ m) ≤ cursor + suc n * 512 = omega (arith, le) in
      let shape : w' ++ m ≡ w ++ (gap ++ (p ++ m)) =
        append_assoc (w ++ gap) p m ∙ append_assoc w gap (p ++ m) in
      (
        gap ++ (p ++ m),
        rw (place_next n cursor (omega arith)) (
            ap (emit_leaves d (place (cursor + 512) (page_sizes n)) pages) step
            ∙ run
            ∙ ap sink shape),
        IsBytes-append gap (p ++ m) (IsBytes-zeros (cursor - length w))
            (IsBytes-append p m ps.0.1 b),
        rw shape at end_le,
      )

  -- A tree of `n` leaves behind the cursor. Its root stands at the planned offset, and the file
  -- ends at the planned end.
  pub emit_tree-sink :
      (n cursor : ℕ) (bid : Bid) (pages : List (List ℕ)) (root : List ℕ) (w : List ℕ)
      → 0 < n
      → length w ≤ cursor
      → cursor + n * 512 + 1024 < 2 ^ 64
      → All IsPage pages
      → IsPage root
      → (m : List ℕ) × (emit_tree d (plan_tree n cursor bid) pages root (sink w)
          ≡ sink ((w ++ m) ++ root))
        × IsBytes m
        × (length (w ++ m) ≡ (plan_tree n cursor bid).root_ib)
        × ((plan_tree n cursor bid).end_ib ≡ (plan_tree n cursor bid).root_ib + 512)
        × ((plan_tree n cursor bid).end_ib ≤ cursor + n * 512 + 512)
  unfolding emit_tree plan_tree
  emit_tree-sink zero cursor bid pages root w pos h l ps r = absurd (omega arith)
  emit_tree-sink (suc zero) cursor bid pages root w pos h l ps r =
      let (step, size) = page_at w root cursor h (omega arith) r in
      let only = place_next 0 cursor (omega arith) in
      let behind = place_end-pages 1 cursor (omega arith) in
      (
        zeros (cursor - length w),
        rw only step,
        IsBytes-zeros (cursor - length w),
        rw only size,
        rw (only, behind) (omega arith),
        rw behind (omega arith),
      )
  emit_tree-sink (suc (suc n)) cursor bid pages root w pos h l ps r =
      let k = suc (suc n) in
      let (m, run, b, le) = leaves_written k cursor pages w h (omega arith) ps in
      let (step, size) = page_at (w ++ m) root (cursor + k * 512) le (omega arith) r in
      let gap = zeros (cursor + k * 512 - length (w ++ m)) in
      let shape : (w ++ m) ++ gap ≡ w ++ (m ++ gap) = append_assoc w m gap in
      let many : ltb 1 k ≡ true = ground arith in
      let bytes = IsBytes-append m gap b (IsBytes-zeros (cursor + k * 512 - length (w ++ m))) in
      let size' : length (w ++ (m ++ gap)) ≡ cursor + k * 512 = ap length (sym shape) ∙ size in
      let run' : emit d root (pad_to d (cursor + k * 512) (sink (w ++ m)))
          ≡ sink ((w ++ (m ++ gap)) ++ root) =
        step ∙ ap (λ t. sink (t ++ root)) shape in
      let behind = place_end-pages k cursor (omega arith) in
      let last : u64 (cursor + k * 512 + 512) ≡ cursor + k * 512 + 512 =
        mod-eq_of_lt (omega arith) in
      (
        m ++ gap,
        rw (many, behind, run) run',
        bytes,
        rw (many, behind) size',
        rw (many, behind) last,
        rw (many, behind) (omega (arith, last)),
      )
