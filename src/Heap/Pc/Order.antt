-- ===== src/Heap/Pc/Order.antt =====
-- src/ltp.cpp: the order of the records of sorted properties.
use pst_dev.Prelude.{ℕ, ◌^◌, ◌≤◌, ◌<◌, ◌≡◌, refl, ◌∙◌, arith, List, [], ◌∷◌, false, All}
use native.Mathlib.Nat.{mod-eq_of_lt}
use pst_dev.Prelude.Sort.{Ascending}
use pst_dev.Bytes.{zeros}
use pst_dev.Bytes.Laws.{
  IsBytes, IsBytes-zeros, IsBytes-write_le, read_le, write_u16-write_le, read_le-write_le,
}
use pst_dev.Heap.{key_less, insert_record, sort_records}
use pst_dev.Heap.Laws.{key_less-ltb}
use pst_dev.Heap.Pc.{PcProperty, tag_key, pc_record, pc_records}
use pst_dev.Heap.Pc.Leaf.{Narrow}

-- The key of a record holds the tag.
key_tag :
    (p : PcProperty) (h : ℕ)
    → p.pid_tag_id < 2 ^ 16
    → read_le 2 (pc_record p h).key_bytes 0 ≡ p.pid_tag_id
unfolding pc_record
key_tag p h l =
    rw write_u16-write_le
      (read_le-write_le 2 (zeros 2) 0 p.pid_tag_id (omega arith) ∙ mod-eq_of_lt l)

key-IsBytes : (p : PcProperty) (h : ℕ) → IsBytes (pc_record p h).key_bytes
unfolding pc_record
key-IsBytes p h =
    rw write_u16-write_le (IsBytes-write_le 2 (zeros 2) 0 p.pid_tag_id (IsBytes-zeros 2))

keys_in_order :
    (p q : PcProperty) (h k : ℕ)
    → Narrow p
    → Narrow q
    → p.pid_tag_id ≤ q.pid_tag_id
    → key_less (pc_record q k).key_bytes (pc_record p h).key_bytes 2 ≡ false
keys_in_order p q h k n m l =
    let e =
      (key_less-ltb (pc_record q k).key_bytes (pc_record p h).key_bytes 2 (key-IsBytes q k)
        (key-IsBytes p h)).0 in
    e ∙ rw (key_tag q k m.0, key_tag p h n.0) (ground arith)

pub sort_records-Ascending :
    (ps : List PcProperty) (hs : List ℕ)
    → Ascending tag_key ps
    → All Narrow ps
    → sort_records 2 (pc_records ps hs) ≡ pc_records ps hs
unfolding sort_records pc_records Ascending
sort_records-Ascending [] hs o n = refl
sort_records-Ascending (p ∷ ps) [] o n = refl
sort_records-Ascending (p ∷ []) (h ∷ hs) o n = unfold insert_record in refl
sort_records-Ascending (p ∷ q ∷ ps) (h ∷ []) o n = unfold insert_record in refl
sort_records-Ascending (p ∷ q ∷ ps) (h ∷ k ∷ hs) o n =
    rw (sort_records-Ascending (q ∷ ps) (k ∷ hs) o.1 n.1)
      (unfold insert_record in rw (keys_in_order p q h k n.0 n.1.0 o.0) refl)
