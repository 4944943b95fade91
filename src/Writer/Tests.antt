-- ===== src/Writer/Tests.antt =====
-- A file of one block and two nodes.
use pst_dev.Prelude.{ℕ, ◌^◌, ◌<◌, ◌≤◌, ◌≡◌, refl, arith, List, [], ◌∷◌, true, length, none, All}
use pst_dev.Prelude.Except.{ok}
use pst_dev.Bytes.{zeros}
use pst_dev.Bytes.Laws.{IsBytes, IsBytes-zeros}
use pst_dev.Ident.{Nid}
use pst_dev.Heap.{mv_total}
use pst_dev.Nbt.{Result}
use pst_dev.Nbt.Leaf.{IsEntry, find_nid}
use pst_dev.Nbt.Reader.{nbt_find}
use pst_dev.Writer.{Device, write_empty_pst}
use pst_dev.Writer.M5.{M5DataBlockSpec, M5Node, encoded_blocks, nbt_entries, write_m5_pst}
use pst_dev.Writer.Writes.{IsWorking}
use pst_dev.Crc.Detect.{AllBytes-IsBytes}
use pst_dev.Writer.Layout.{place}
use pst_dev.Writer.Blocks.{sizes, provisional, data_blocks, data_bids, chunks}
use pst_dev.Writer.Chunks.{join, join-chunks, provisional-place}
use pst_dev.Writer.Empty.{write_empty_pst-nbt_find}
use pst_dev.Writer.M5.{nbt_pages, nbt_plan}
use pst_dev.Writer.Failures.{m5_parts, write_m5_pst-eq-ok, write_m5_pst-Taken}
use pst_dev.Writer.Trace.{writes, joined, Taken, IsWorking-Taken}
use pst_dev.Writer.Found.{bref_at, write_m5_pst-nbt_find}

abbrev disk : Device
disk = record { opens = true; accepts = λ written chunk. true; closes = true }

disk-IsWorking : IsWorking disk
disk-IsWorking = record { opened = refl; took = λ written chunk. refl; closed = refl }

abbrev one_block : List M5DataBlockSpec
one_block = record { bid = record { value = 4 }; encoded_block = zeros 64; cb = 40 } ∷ []

abbrev node : ℕ → M5Node
node v = record {
  nid = record { value = v };
  bid_data = record { value = 4 };
  bid_sub = record { value = 0 };
  nid_parent = record { value = 0x122 };
}

abbrev two_nodes : List M5Node
two_nodes = node 0x8022 ∷ node 0x2144 ∷ []

abbrev wanted : Nid
wanted = record { value = 0x2144 }

block_small : mv_total (encoded_blocks one_block) < 2 ^ 61
unfolding mv_total encoded_blocks
block_small = omega arith

encoded_blocks-IsBytes : All IsBytes (encoded_blocks one_block)
unfolding encoded_blocks
encoded_blocks-IsBytes = (IsBytes-zeros 64, tt)

nodes_fit : All IsEntry (nbt_entries two_nodes)
unfolding nbt_entries
nodes_fit = (
  (omega arith, omega arith, omega arith, omega arith),
  ((omega arith, omega arith, omega arith, omega arith), tt),
)

write_m5_pst-nbt_find_example :
    (file : List ℕ) × (write_m5_pst disk one_block two_nodes ≡ ok file)
    × (nbt_find file (bref_at file 0x0d8) wanted true
        ≡ Result.ok (find_nid wanted.value (nbt_entries two_nodes)))
write_m5_pst-nbt_find_example =
    write_m5_pst-nbt_find disk one_block two_nodes wanted true disk-IsWorking (omega arith)
      (omega arith) block_small encoded_blocks-IsBytes nodes_fit

-- A payload of five bytes in parts of two, and two blocks.
abbrev five : List ℕ
five = 1 ∷ 2 ∷ 3 ∷ 4 ∷ 5 ∷ []

join-chunks_example : (join (chunks five 2) ≡ five) × All (λ c. length c ≤ 2) (chunks five 2)
join-chunks_example = join-chunks five 2 (omega arith)

abbrev two_payloads : List (List ℕ)
two_payloads = five ∷ zeros 70 ∷ []

provisional-place_example :
    place 0x4600 (
      sizes (
        data_blocks two_payloads
          (data_bids (length two_payloads) 0)
          (provisional 0x4600 two_payloads)))
    ≡ provisional 0x4600 two_payloads
provisional-place_example =
    provisional-place two_payloads 0 0x4600
      (
        (
          AllBytes-IsBytes five
              (omega arith, (omega arith, (omega arith, (omega arith, (omega arith, tt))))),
          omega arith,
        ),
        ((IsBytes-zeros 70, omega arith), tt),
      )
      (omega arith)

write_empty_pst-nbt_find_example :
    (made : List ℕ) × (write_empty_pst disk ≡ ok made)
    × (length made ≡ 0x4a00)
    × (nbt_find made (bref_at made 0x0d8) wanted true ≡ Result.ok none)
write_empty_pst-nbt_find_example = write_empty_pst-nbt_find disk wanted true disk-IsWorking

made : (file : List ℕ) × (write_m5_pst disk one_block two_nodes ≡ ok file)
made =
    let (file, run, found) =
      write_m5_pst-nbt_find disk one_block two_nodes wanted true disk-IsWorking (omega arith)
        (omega arith) block_small encoded_blocks-IsBytes nodes_fit in
    (file, run)

write_m5_pst-eq-ok_example :
    (length one_block ≤ 400)
    × (length two_nodes ≤ 300)
    × (disk.opens ≡ true)
    × (disk.closes ≡ true)
    × ((pages : List (List ℕ) × List ℕ) × (nbt_pages two_nodes (nbt_plan one_block two_nodes)
          ≡ ok pages)
        × Taken disk [] (writes (m5_parts one_block two_nodes pages) 0)
        × (made.0 ≡ joined (writes (m5_parts one_block two_nodes pages) 0)))
write_m5_pst-eq-ok_example = write_m5_pst-eq-ok disk one_block two_nodes {file = made.0} made.1

-- Two nodes make a tree.
tree :
    (pages : List (List ℕ) × List ℕ) × (nbt_pages two_nodes (nbt_plan one_block two_nodes)
      ≡ ok pages)
tree =
    let (blocks, nodes, opens, closes, (pages, built, taken, whole)) = write_m5_pst-eq-ok_example in
    (pages, built)

write_m5_pst-Taken_example :
    write_m5_pst disk one_block two_nodes
    ≡ ok (joined (writes (m5_parts one_block two_nodes tree.0) 0))
write_m5_pst-Taken_example =
    write_m5_pst-Taken disk one_block two_nodes tree.0 (omega arith) (omega arith) refl refl tree.1
      (IsWorking-Taken disk disk-IsWorking [] _)
