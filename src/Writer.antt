-- ===== src/Writer.antt =====
-- src/writer.cpp: files from their parts. The calls of the C library are parameters: a device says
-- whether the file opens, which writes it takes whole, and whether it closes.
pub mod Layout
pub mod Writes
pub mod Pages
pub mod Trees
pub mod State
pub mod Parts
pub mod Assembly
pub mod OneLeaf
pub mod Found
pub mod Trace
pub mod Failures
pub mod Empty
mod Tests
pub mod M5
pub mod Blocks
pub mod Chunks
use pst_dev.Prelude.{
  ℕ, ◌+◌, ◌-◌, ◌*◌, ◌/◌, ◌^◌, List, [], ◌∷◌, ◌++◌, bit_and, Bool, true, false, ◌&&◌, not, ltb,
  if◌then◌else◌, length, replicate,
}
use pst_dev.Prelude.Except.{Except, ok, throw, throw_if, ◌>>=◌, ◌>>◌}
use pst_dev.Bytes.{zeros, u64}
use pst_dev.Ident.{Bid, Ib, Bref, make_internal, make_data}
use pst_dev.Ndb.{Root, WriterState, populate_fresh_rgnid, serialize_header}
use pst_dev.Page.{
  amap_coverage, amap_bitmap_bytes, bytes_per_amap_bit, build_amap, build_empty_nbt_leaf,
  build_empty_bbt_leaf,
}

abbrev pub ib_amap : ℕ
ib_amap = 0x4400

abbrev pub ib_nbt : ℕ
ib_nbt = 0x4600

abbrev pub ib_bbt : ℕ
ib_bbt = 0x4800

abbrev pub ib_eof : ℕ
ib_eof = 0x4a00

abbrev pub page_size : ℕ
page_size = 512

-- kIbAMap + kPageSize
abbrev pub blocks_start : ℕ
blocks_start = 0x4600

-- The messages of a WriteResult that is not ok. `terminated` is an exception out of a function
-- that is noexcept.
pub data WriteError : Type 0 where
  too_many_blocks : WriteError
  too_many_nodes : WriteError
  fopen_failed : WriteError
  fclose_failed : WriteError
  fwrite_truncated : WriteError
  zero_chunk : WriteError
  chunk_too_large : WriteError
  empty_payload : WriteError
  too_many_children : WriteError
  terminated : WriteError

-- What `fopen`, `fwrite` and `fclose` answer. A write is asked about with what is written so far.
pub record Device : Type 0 where
  pub opens : Bool
  pub accepts : List ℕ → List ℕ → Bool
  pub closes : Bool

-- The bytes of the file so far, `writtenIb` and `ok`.
pub record Sink : Type 0 where
  pub written : List ℕ
  pub written_ib : ℕ
  pub good : Bool

abbrev pub empty_sink : Sink
empty_sink = record { written = []; written_ib = 0; good = true }

-- `ok = ok && writeAll(fp, data, n)`
unfoldable pub write_all : Device → List ℕ → Sink → Sink
write_all d chunk s =
    if s.good && d.accepts s.written chunk
    then record s { written = s.written ++ chunk }
    else record s { good = false }

unfoldable pub emit : Device → List ℕ → Sink → Sink
emit d chunk s =
    let s' = write_all d chunk s in record s' { written_ib = u64 (s'.written_ib + length chunk) }

unfoldable pub pad_to : Device → ℕ → Sink → Sink
pad_to d target s =
    if ltb s.written_ib target
    then record (write_all d (zeros (target - s.written_ib)) s) { written_ib = target }
    else s

unfoldable pub emit_each : Device → List (List ℕ) → Sink → Sink
emit_each d [] s = s
emit_each d (c ∷ cs) s = emit_each d cs (emit d c s)

-- `fclose`, and the result.
unfoldable pub finish : Device → Sink → Except WriteError (List ℕ)
finish d s =
    throw_if (not d.closes) fclose_failed
    >> (throw_if (not s.good) fwrite_truncated >> ok s.written)

unfoldable pub align_up : ℕ → ℕ → ℕ
align_up v a = bit_and (u64 (v + (a - 1))) (2 ^ 64 - 1 - (a - 1))

unfoldable pub cb_amap_free_for : ℕ → ℕ
cb_amap_free_for file_eof =
    let coverage_end = ib_amap + amap_coverage in
    let allocated_end = if ltb file_eof coverage_end then file_eof else coverage_end in
    let allocated = if ltb ib_amap allocated_end then allocated_end - ib_amap else 0 in
    let allocated_bits = (allocated + bytes_per_amap_bit - 1) / bytes_per_amap_bit in
    (amap_bitmap_bytes * 8 - allocated_bits) * bytes_per_amap_bit

-- The state behind HEADER, as the three writers fill it in.
unfoldable pub writer_state : ℕ → Bid → Bid → Bref → Bref → WriterState
writer_state eof next_p next_b nbt bbt = populate_fresh_rgnid (record {
  root = record {
    ib_file_eof = record { value = eof };
    ib_amap_last = record { value = ib_amap };
    cb_amap_free = cb_amap_free_for eof;
    cb_pmap_free = 0;
    bref_nbt = nbt;
    bref_bbt = bbt;
    f_amap_valid = 2;
  };
  bid_next_p = next_p;
  bid_next_b = next_b;
  dw_unique = 1;
  rgnid = replicate 32 0;
  dw_reserved1 = 0;
  dw_reserved2 = 0;
  bid_unused = 0;
})

unfoldable pub write_empty_pst : Device → Except WriteError (List ℕ)
write_empty_pst d =
    let bid_nbt = make_internal 2 in
    let bid_bbt = make_internal 3 in
    let state =
      writer_state ib_eof (make_internal 4) (make_data 1)
        (record { bid = bid_nbt; ib = record { value = ib_nbt } })
        (record { bid = bid_bbt; ib = record { value = ib_bbt } }) in
    let chunks =
      serialize_header state
      ∷ zeros (0x4400 - 0x234)
      ∷ build_amap (record { value = ib_amap }) ib_eof
      ∷ build_empty_nbt_leaf bid_nbt (record { value = ib_nbt })
      ∷ build_empty_bbt_leaf bid_bbt (record { value = ib_bbt })
      ∷ [] in
    throw_if (not d.opens) fopen_failed >> finish d (emit_each d chunks empty_sink)
