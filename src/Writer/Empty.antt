-- ===== src/Writer/Empty.antt =====
-- src/writer.cpp: what `writeEmptyPst` writes.
use pst_dev.Prelude.{
  ℕ, ◌+◌, ◌-◌, ◌^◌, ◌<◌, ◌≡◌, refl, ap, ◌∙◌, sym, arith, List, [], ◌∷◌, ◌++◌, Bool, not, none,
  length, length-append, length-replicate, take,
}
use pst_dev.Prelude.Except.{ok, throw_if, ◌>>◌}
use pst_dev.Bytes.{slice, zeros, read_u64}
use pst_dev.Bytes.Laws.{IsBytes, IsBytes-zeros, read_le, read_u64-read_le}
use pst_dev.Bytes.Copy.{read_le-slice}
use pst_dev.Ident.{Nid, Bid, Ib, make_internal, make_data}
use pst_dev.Ndb.{WriterState, populate_fresh_rgnid, serialize_header}
use pst_dev.Ndb.Header.{IsWriterState, serialize_header-IsHeaderOf, serialize_header-IsBytes}
use pst_dev.Page.{
  build_amap, build_empty_nbt_leaf, build_empty_bbt_leaf, build_empty_bt_leaf, build_bbt_leaf,
  write_entries,
}
use pst_dev.Nbt.{Result, nbt_leaf_page}
use pst_dev.Nbt.Reader.{nbt_find}
use pst_dev.Nbt.Leaf.{find_nid, nbt_leaf_page-IsSealed}
use pst_dev.Nbt.Find.{HasPage, nbt_find-nbt_leaf_page}
use pst_dev.Writer.{
  fopen_failed, Device, empty_sink, emit, emit_each, finish, writer_state, write_empty_pst,
}
use pst_dev.Writer.Writes.{
  IsWorking, sink, append_assoc, IsBytes-append, emit-sink, finish-sink, slice_chunk,
}
use pst_dev.Writer.Pages.{build_amap-IsSealed, build_bbt_leaf-IsSealed}
use pst_dev.Writer.State.{writer_state-IsWriterState}
use pst_dev.Writer.Trees.{IsPage}
use pst_dev.Writer.Assembly.{take-append, take-length}
use pst_dev.Writer.Found.{bref_at}

nbt_bid : Bid
nbt_bid = make_internal 2

bbt_bid : Bid
bbt_bid = make_internal 3

abbrev state : WriterState
state =
    writer_state 0x4a00 (make_internal 4) (make_data 1)
      (record { bid = make_internal 2; ib = record { value = 0x4600 } })
      (record { bid = make_internal 3; ib = record { value = 0x4800 } })

state-IsWriterState : IsWriterState state
state-IsWriterState =
    let two : (make_internal 2).value < 2 ^ 64 = unfold make_internal in omega arith in
    let three : (make_internal 3).value < 2 ^ 64 = unfold make_internal in omega arith in
    let four : (make_internal 4).value < 2 ^ 64 = unfold make_internal in omega arith in
    let one : (make_data 1).value < 2 ^ 64 = unfold make_data in omega arith in
    writer_state-IsWriterState 0x4a00 (make_internal 4) (make_data 1) _ _ (omega arith) (four, one)
      (two, omega arith) (three, omega arith)

empty_leaf : (bid : Bid) (ib : Ib) → build_empty_nbt_leaf bid ib ≡ nbt_leaf_page [] bid ib
unfolding build_empty_nbt_leaf build_empty_bt_leaf nbt_leaf_page write_entries
empty_leaf bid ib = refl

empty_bbt_leaf : (bid : Bid) (ib : Ib) → build_empty_bbt_leaf bid ib ≡ build_bbt_leaf [] bid ib
unfolding build_empty_bbt_leaf build_empty_bt_leaf build_bbt_leaf write_entries
empty_bbt_leaf bid ib = refl

-- The parts, one after the other.
abbrev header : List ℕ
header = serialize_header state

abbrev gap : List ℕ
gap = zeros (0x4400 - 0x234)

abbrev amap : List ℕ
amap = build_amap (record { value = 0x4400 }) 0x4a00

abbrev nbt : List ℕ
nbt = build_empty_nbt_leaf (make_internal 2) (record { value = 0x4600 })

abbrev bbt : List ℕ
bbt = build_empty_bbt_leaf (make_internal 3) (record { value = 0x4800 })

header-size : length header ≡ 564
header-size = (serialize_header-IsHeaderOf state state-IsWriterState).size

gap-size : length gap ≡ 16844
gap-size = length-replicate {A = ℕ} 16844 0

amap-IsPage : IsPage amap
amap-IsPage =
    let s = build_amap-IsSealed (record { value = 0x4400 }) 0x4a00 (omega arith) in
    (s.size, s.bytes)

nbt-IsPage : IsPage nbt
nbt-IsPage =
    let word : (make_internal 2).value < 2 ^ 64 = unfold make_internal in omega arith in
    let s =
      nbt_leaf_page-IsSealed [] (omega arith) tt (make_internal 2) (record { value = 0x4600 })
        word in
    rw (empty_leaf (make_internal 2) (record { value = 0x4600 })) (s.size, s.bytes)

bbt-IsPage : IsPage bbt
bbt-IsPage =
    let word : (make_internal 3).value < 2 ^ 64 = unfold make_internal in omega arith in
    let s = build_bbt_leaf-IsSealed (make_internal 3) (record { value = 0x4800 }) word [] in
    rw (empty_bbt_leaf (make_internal 3) (record { value = 0x4800 })) (s.size, s.bytes)

front : List ℕ
front = (header ++ gap) ++ amap

front-size : length front ≡ 0x4600
unfolding front
front-size =
    length-append (header ++ gap) amap
    ∙ omega (arith, length-append header gap, header-size, gap-size, amap-IsPage.0)

file : List ℕ
file = (front ++ nbt) ++ bbt

file-size : length file ≡ 0x4a00
unfolding file
file-size =
    length-append (front ++ nbt) bbt
    ∙ omega (arith, length-append front nbt, front-size, nbt-IsPage.0, bbt-IsPage.0)

file-IsBytes : IsBytes file
unfolding file front
file-IsBytes =
    IsBytes-append (front ++ nbt) bbt
      (IsBytes-append front nbt
        (IsBytes-append (header ++ gap) amap
          (IsBytes-append header gap (serialize_header-IsBytes state state-IsWriterState)
            (IsBytes-zeros 16844))
          amap-IsPage.1)
        nbt-IsPage.1)
      bbt-IsPage.1

-- HEADER stands at the front, and names the root of the node tree.
file-header : slice file 0 564 ≡ header
unfolding file front
file-header =
    let h = header-size in
    let l1 = length-append header gap in
    let l2 = length-append (header ++ gap) amap in
    let l3 = length-append ((header ++ gap) ++ amap) nbt in
    take-append 564 (((header ++ gap) ++ amap) ++ nbt) bbt (omega (arith, h, l1, l2, l3))
    ∙ take-append 564 ((header ++ gap) ++ amap) nbt (omega (arith, h, l1, l2))
    ∙ take-append 564 (header ++ gap) amap (omega (arith, h, l1))
    ∙ take-append 564 header gap (omega (arith, h))
    ∙ ap (λ k. take k header) (sym h)
    ∙ take-length header

root_in_file : read_u64 file (0x0d8 + 8) ≡ 0x4600
root_in_file =
    read_u64-read_le file 0x0e0 file-IsBytes
    ∙ sym (read_le-slice 8 file 0 564 0x0e0 (omega arith))
    ∙ ap (λ b. read_le 8 b 0x0e0) file-header
    ∙ sym (read_u64-read_le header 0x0e0 (serialize_header-IsBytes state state-IsWriterState))
    ∙ (unfold writer_state populate_fresh_rgnid in
        (serialize_header-IsHeaderOf state state-IsWriterState).nbt_ib)

file-HasPage :
    HasPage file
      (bref_at file 0x0d8).ib.value
      (nbt_leaf_page [] (make_internal 2) (record { value = 0x4600 }))
file-HasPage =
    let at = root_in_file in
    let shape : file ≡ front ++ (nbt ++ bbt) = unfold file in append_assoc front nbt bbt in
    record {
      bytes = file-IsBytes;
      size = omega (arith, file-size);
      inside = omega (arith, at, file-size);
      same =
          ap (λ k. slice file k 512) at
          ∙ ap (λ b. slice b 0x4600 512) shape
          ∙ slice_chunk front nbt bbt 0x4600 512 front-size nbt-IsPage.0
          ∙ empty_leaf (make_internal 2) (record { value = 0x4600 });
    }

module _ (d : Device) (works : IsWorking d) where
  chunks_written : emit_each d (header ∷ gap ∷ amap ∷ nbt ∷ bbt ∷ []) empty_sink ≡ sink file
  unfolding emit_each file front
  chunks_written =
      let h = header-size in
      let l1 = length-append header gap in
      let l2 = length-append (header ++ gap) amap in
      let l3 = length-append ((header ++ gap) ++ amap) nbt in
      let g = gap-size in
      let a = amap-IsPage.0 in
      let n = nbt-IsPage.0 in
      let b = bbt-IsPage.0 in
      ap (λ s. emit d bbt (emit d nbt (emit d amap (emit d gap s))))
        (emit-sink d works [] header (omega (arith, h)))
      ∙ ap (λ s. emit d bbt (emit d nbt (emit d amap s)))
          (emit-sink d works header gap (omega (arith, h, g)))
      ∙ ap (λ s. emit d bbt (emit d nbt s))
          (emit-sink d works (header ++ gap) amap (omega (arith, h, g, a, l1)))
      ∙ ap (emit d bbt)
          (emit-sink d works ((header ++ gap) ++ amap) nbt (omega (arith, h, g, a, n, l1, l2)))
      ∙ emit-sink d works (((header ++ gap) ++ amap) ++ nbt) bbt
          (omega (arith, h, g, a, n, b, l1, l2, l3))

  empty_written : write_empty_pst d ≡ ok file
  unfolding write_empty_pst
  empty_written =
      ap
        (λ (o : Bool).
          throw_if (not o) fopen_failed
          >> finish d (emit_each d (header ∷ gap ∷ amap ∷ nbt ∷ bbt ∷ []) empty_sink))
        works.opened
      ∙ ap (finish d) chunks_written
      ∙ finish-sink d works file

-- On a device that takes every write the empty file has 0x4A00 bytes, and a lookup of any node in
-- it, from the root that its own header names, ends with nothing found: neither an exception nor a
-- read outside the file, with the strict check of the checksum or without.
pub write_empty_pst-nbt_find :
    (d : Device) (target : Nid) (strict_crc : Bool)
    → IsWorking d
    → (made : List ℕ) × (write_empty_pst d ≡ ok made)
      × (length made ≡ 0x4a00)
      × (nbt_find made (bref_at made 0x0d8) target strict_crc ≡ Result.ok none)
unfolding find_nid
write_empty_pst-nbt_find d target strict_crc works =
    let word : (make_internal 2).value < 2 ^ 64 = unfold make_internal in omega arith in
    (
      file,
      empty_written d works,
      file-size,
      nbt_find-nbt_leaf_page file (bref_at file 0x0d8) [] (make_internal 2)
          (record { value = 0x4600 }) target strict_crc (omega arith) tt word file-HasPage,
    )
