-- ===== src/Writer/Parts.antt =====
-- src/writer.cpp: the parts of an M5 file: its front, and the pages of its two trees.
use pst_dev.Prelude.{
  ℕ, zero, suc, ◌+◌, ◌-◌, ◌*◌, ◌/◌, ◌^◌, ◌≤◌, ◌<◌, ◌≡◌, refl, ap, ◌∙◌, sym, arith, List, [], ◌∷◌,
  ◌++◌, bit_and, length, length-append, length-replicate, All, take,
}
use native.Mathlib.Nat.{mod-eq_of_lt}
use pst_dev.Prelude.Bits.{bit_and_clear, bit_and_ones}
use pst_dev.Bytes.{zeros, u64}
use pst_dev.Bytes.Laws.{IsBytes, IsBytes-zeros}
use pst_dev.Ident.{Bid}
use pst_dev.Heap.{mv_total}
use pst_dev.Page.{BbtEntry, build_bbt_leaf}
use pst_dev.Writer.{Device, emit_each, align_up, blocks_start, empty_sink}
use pst_dev.Writer.Layout.{
  place, place_end, page_sizes, front, page_bids, bid_after, next_bid, per_leaf, leaves_for,
  bbt_leaf_pages,
}
use pst_dev.Writer.Writes.{
  IsWorking, sink, append_assoc, append_nil, IsBytes-append, emit-sink, pad_to-sink,
}
use pst_dev.Writer.Pages.{build_bbt_leaf-IsSealed}
use pst_dev.Writer.Trees.{IsPage}
use pst_dev.Writer.M5.{M5DataBlockSpec, block_sizes, encoded_blocks, emit_front}

pub align_up-page : (v : ℕ) → v < 2 ^ 63 → (v ≤ align_up v 512) × (align_up v 512 < v + 512)
unfolding align_up
align_up-page v h =
    let t : u64 (v + 511) ≡ v + 511 = mod-eq_of_lt (omega arith) in
    let a = bit_and_clear 9 (v + 511) (2 ^ 55 - 1) in
    let b = bit_and_ones 55 ((v + 511) / 2 ^ 9) in
    let c : bit_and (v + 511) (2 ^ 64 - 1 - 511) ≡ (v + 511) / 512 * 512 = a ∙ omega (arith, b) in
    rw (t, c) (omega arith, omega arith)

pub place_end-blocks :
    (bs : List M5DataBlockSpec) (cursor : ℕ)
    → cursor + mv_total (encoded_blocks bs) < 2 ^ 64
    → place_end cursor (block_sizes bs) ≡ cursor + mv_total (encoded_blocks bs)
unfolding place_end block_sizes encoded_blocks mv_total
place_end-blocks [] cursor h = omega arith
place_end-blocks (b ∷ bs) cursor h =
    let e : u64 (cursor + length b.encoded_block) ≡ cursor + length b.encoded_block =
      mod-eq_of_lt (omega arith) in
    ap (λ t. place_end t (block_sizes bs)) e
    ∙ place_end-blocks bs (cursor + length b.encoded_block) (omega arith)
    ∙ omega arith

pub leaves_for-bounds : (count : ℕ) → (0 < leaves_for count 20) × (leaves_for count 20 ≤ count + 1)
unfolding leaves_for
leaves_for-bounds count = (ground arith, ground arith)

pub one_leaf : (count : ℕ) → count ≤ 15 → leaves_for count 15 ≡ 1
unfolding leaves_for
one_leaf count h = ground arith

-- The ids of pages stay ids of 64 bits.
pub bid_after-lt : (n : ℕ) (b : Bid) → b.value < 2 ^ 64 → (bid_after n b).value < 2 ^ 64
unfolding bid_after
bid_after-lt zero b h = h
bid_after-lt (suc n) b h = bid_after-lt n (next_bid b) (omega arith)

build_bbt_leaf-IsPage :
    (es : List BbtEntry) (b : Bid) (ib : ℕ)
    → b.value < 2 ^ 64
    → IsPage (build_bbt_leaf es b (record { value = ib }))
build_bbt_leaf-IsPage es b ib h =
    let s = build_bbt_leaf-IsSealed b (record { value = ib }) h es in (s.size, s.bytes)

pub bbt_leaf_pages-IsPage :
    (n cursor cap : ℕ) (b : Bid) (es : List BbtEntry)
    → b.value < 2 ^ 64
    → All IsPage (bbt_leaf_pages (per_leaf n cap es) (page_bids n b) (place cursor (page_sizes n)))
unfolding bbt_leaf_pages per_leaf page_bids place page_sizes
bbt_leaf_pages-IsPage zero cursor cap b es h = tt
bbt_leaf_pages-IsPage (suc n) cursor cap b es h = (
  build_bbt_leaf-IsPage (take cap es) b cursor h,
  bbt_leaf_pages-IsPage n _ cap (next_bid b) _ (omega arith),
)

pub bbt_front-IsPage :
    (n cursor cap : ℕ) (b : Bid) (es : List BbtEntry)
    → 0 < n
    → b.value < 2 ^ 64
    → IsPage (
        front [] (bbt_leaf_pages (per_leaf n cap es) (page_bids n b) (place cursor (page_sizes n))))
unfolding bbt_leaf_pages per_leaf page_bids place page_sizes
bbt_front-IsPage zero cursor cap b es p h = absurd (omega arith)
bbt_front-IsPage (suc n) cursor cap b es p h = build_bbt_leaf-IsPage (take cap es) b cursor h

module _ (d : Device) (works : IsWorking d) where
  emit_each-sink :
      (bs : List M5DataBlockSpec) (w : List ℕ)
      → length w + mv_total (encoded_blocks bs) < 2 ^ 64
      → All IsBytes (encoded_blocks bs)
      → (m : List ℕ) × (emit_each d (encoded_blocks bs) (sink w) ≡ sink (w ++ m))
        × IsBytes m
        × (length m ≡ mv_total (encoded_blocks bs))
  unfolding emit_each encoded_blocks mv_total
  emit_each-sink [] w h k = ([], ap sink (sym (append_nil w)), (λ i. omega arith), refl)
  emit_each-sink (b ∷ bs) w h k =
      let c = b.encoded_block in
      let e = length-append w c in
      let (m, run, bytes, size) = emit_each-sink bs (w ++ c) (omega (arith, e)) k.1 in
      (
        c ++ m,
        ap (emit_each d (encoded_blocks bs)) (emit-sink d works w c (omega arith))
            ∙ run
            ∙ ap sink (append_assoc w c m),
        IsBytes-append c m k.0 bytes,
        length-append c m ∙ omega (arith, size),
      )

  -- The header, the map at its offset, and the blocks behind it.
  pub emit_front-sink :
      (header amap : List ℕ) (bs : List M5DataBlockSpec)
      → length header ≡ 564
      → IsPage amap
      → mv_total (encoded_blocks bs) < 2 ^ 62
      → All IsBytes (encoded_blocks bs)
      → (m : List ℕ) × (emit_front d header amap (encoded_blocks bs) empty_sink
          ≡ sink (header ++ m))
        × IsBytes m
        × (length (header ++ m) ≡ blocks_start + mv_total (encoded_blocks bs))
  unfolding emit_front
  emit_front-sink header amap bs h (size, b) l k =
      let gap = zeros (0x4400 - length header) in
      let gap_size = length-replicate {A = ℕ} (0x4400 - length header) 0 in
      let w1 = header ++ gap in
      let e1 = length-append header gap in
      let w2 = w1 ++ amap in
      let e2 = length-append w1 amap in
      let e2' : length w2 ≡ 0x4600 = omega (arith, e1, e2, gap_size) in
      let none_left = zeros (0x4600 - length w2) in
      let z : 0x4600 - length w2 ≡ 0 = omega (arith, e2') in
      let same : w2 ++ none_left ≡ w2 = ap (λ n. w2 ++ zeros n) z ∙ append_nil w2 in
      let (m, run, bytes, total) = emit_each-sink bs w2 (omega (arith, e2')) k in
      let start = emit-sink d works [] header (omega arith) in
      let padded = pad_to-sink d works header 0x4400 (omega arith) in
      let mapped = emit-sink d works w1 amap (omega (arith, e1, gap_size)) in
      let aligned = pad_to-sink d works w2 0x4600 (omega (arith, e2')) in
      let shape : w2 ++ m ≡ header ++ (gap ++ (amap ++ m)) =
        append_assoc w1 amap m ∙ append_assoc header gap (amap ++ m) in
      (
        gap ++ (amap ++ m),
        rw (start, padded, mapped, aligned, same) (run ∙ ap sink shape),
        IsBytes-append gap (amap ++ m) (IsBytes-zeros (0x4400 - length header))
            (IsBytes-append amap m b bytes),
        ap length (sym shape) ∙ length-append w2 m ∙ omega (arith, e2', total),
      )
