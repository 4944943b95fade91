-- ===== src/Heap/Pc/Leaf.antt =====
-- src/ltp.cpp: the leaf of a property context, record by record.
use pst_dev.Prelude.{
  ℕ, ◌+◌, ◌*◌, ◌%◌, ◌/◌, ◌^◌, ◌≤◌, ◌<◌, ◌≡◌, refl, ap, ◌∙◌, sym, arith, List, [], ◌∷◌, true,
  bit_and, length, take, All,
}
use mathlib.Core.Path.{subst}
use native.Mathlib.Nat.{mod-eq_of_lt}
use pst_dev.Prelude.Bits.{bit_and_ones}
use pst_dev.Bytes.{slice, write_u16, write_u32, write_bytes}
use pst_dev.Bytes.Laws.{IsBytes, write_le, read_le}
use pst_dev.Bytes.Fields.{
  Field, write_fields, fits, clear, field_at, length-write_fields, IsBytes-write_fields,
  read_le-write_fields, read_le-write_fields-clear,
}
use pst_dev.Bytes.Copy.{read_le-slice}
use pst_dev.Heap.{BthRecord, pack_records}
use pst_dev.Heap.Pc.{PcProperty, pc_record, pc_records}

-- A tag and a type of 16 bits.
abbrev pub Narrow : PcProperty → Type 0
Narrow p = (p.pid_tag_id < 2 ^ 16) × (p.prop_type < 2 ^ 16)

-- Eight bytes that hold the tag, the type and the value of a property.
abbrev pub RecordAt : List ℕ → ℕ → PcProperty → ℕ → Type 0
RecordAt buf off p h =
    (read_le 2 buf off ≡ p.pid_tag_id)
    × (read_le 2 buf (off + 2) ≡ p.prop_type)
    × (read_le 4 buf (off + 4) ≡ h)

unfoldable pub RecordsAt : List ℕ → ℕ → List PcProperty → List ℕ → Type 0
RecordsAt buf off [] hs = Unit {0}
RecordsAt buf off (p ∷ ps) [] = Unit {0}
RecordsAt buf off (p ∷ ps) (h ∷ hs) = RecordAt buf off p h × RecordsAt buf (off + 8) ps hs

-- One record as its fields.
abbrev record_fields : ℕ → PcProperty → ℕ → List Field
record_fields off p h = (off, 2, p.pid_tag_id) ∷ (off + 2, 2, p.prop_type) ∷ (off + 4, 4, h) ∷ []

record_written :
    (p : PcProperty) (h off : ℕ) (out : List ℕ)
    → write_bytes
        (write_bytes out off (take 2 (pc_record p h).key_bytes))
        (off + 2)
        (take 6 (pc_record p h).data_bytes)
      ≡ write_fields (record_fields off p h) out
unfolding pc_record write_bytes write_fields write_le write_u16 write_u32
record_written p h off out =
    let low : (v : ℕ) → bit_and v 255 ≡ v % 256 = λ v. bit_and_ones 8 v in
    let at : off + 2 + 1 + 1 ≡ off + 4 = omega arith in
    let two : bit_and (h / 2 ^ 16) 255 ≡ h / 256 / 256 % 256 = omega (arith, low (h / 2 ^ 16)) in
    let three : bit_and (h / 2 ^ 24) 255 ≡ h / 256 / 256 / 256 % 256 =
      omega (arith, low (h / 2 ^ 24)) in
    simp (
      low p.pid_tag_id,
      low (p.pid_tag_id / 2 ^ 8),
      low p.prop_type,
      low (p.prop_type / 2 ^ 8),
      low h,
      low (h / 2 ^ 8),
      at,
      two,
      three,
    )

pack_step :
    (p : PcProperty) (h i : ℕ) (rs : List BthRecord) (out : List ℕ)
    → pack_records 2 6 i (pc_record p h ∷ rs) out
      ≡ pack_records 2 6 (i + 1) rs (write_fields (record_fields (i * 8) p h) out)
unfolding pack_records
pack_step p h i rs out = ap (pack_records 2 6 (i + 1) rs) (record_written p h (i * 8) out)

pack_below :
    (ps : List PcProperty) (hs : List ℕ) (i : ℕ) (out : List ℕ) (at m : ℕ)
    → (i + length ps) * 8 ≤ length out
    → at + m ≤ i * 8
    → read_le m (pack_records 2 6 i (pc_records ps hs) out) at ≡ read_le m out at
unfolding pack_records pc_records
pack_below [] hs i out at m l d = refl
pack_below (p ∷ ps) [] i out at m l d = refl
pack_below (p ∷ ps) (h ∷ hs) i out at m l d =
    let fs = record_fields (i * 8) p h in
    rw (pack_step p h i (pc_records ps hs) out) (
      pack_below ps hs (i + 1) (write_fields fs out) at m
        (omega (arith, length-write_fields fs out)) (omega arith)
      ∙ read_le-write_fields-clear fs out at m (length out) refl (unfold fits in ground arith)
          (unfold clear in ground arith))

pub IsBytes-pack_records :
    (ps : List PcProperty) (hs : List ℕ) (i : ℕ) (out : List ℕ)
    → IsBytes out
    → IsBytes (pack_records 2 6 i (pc_records ps hs) out)
unfolding pc_records
IsBytes-pack_records [] hs i out b = unfold pack_records in b
IsBytes-pack_records (p ∷ ps) [] i out b = unfold pack_records in b
IsBytes-pack_records (p ∷ ps) (h ∷ hs) i out b =
    rw (pack_step p h i (pc_records ps hs) out) (
      IsBytes-pack_records ps hs (i + 1) _ (IsBytes-write_fields (record_fields (i * 8) p h) out b))

pub pack_records-RecordsAt :
    (ps : List PcProperty) (hs : List ℕ) (i : ℕ) (out : List ℕ)
    → (i + length ps) * 8 ≤ length out
    → All Narrow ps
    → All (λ h. h < 2 ^ 32) hs
    → RecordsAt (pack_records 2 6 i (pc_records ps hs) out) (i * 8) ps hs
unfolding pc_records RecordsAt
pack_records-RecordsAt [] hs i out l n w = tt
pack_records-RecordsAt (p ∷ ps) [] i out l n w = tt
pack_records-RecordsAt (p ∷ ps) (h ∷ hs) i out l n w =
    let fs = record_fields (i * 8) p h in
    let out' = write_fields fs out in
    let size = length-write_fields fs out in
    let next : (i + 1) * 8 ≡ i * 8 + 8 = omega arith in
    let same : (at m : ℕ)
        → at + m ≤ (i + 1) * 8
        → read_le m (pack_records 2 6 (i + 1) (pc_records ps hs) out') at ≡ read_le m out' at =
      λ at m d. pack_below ps hs (i + 1) out' at m (omega (arith, size)) d in
    let room : fits (length out) fs ≡ true = unfold fits in ground arith in
    let rest = pack_records-RecordsAt ps hs (i + 1) out' (omega (arith, size)) n.1 w.1 in
    subst (λ b. RecordsAt b (i * 8) (p ∷ ps) (h ∷ hs))
      (sym (pack_step p h i (pc_records ps hs) out))
      (
        (
          same (i * 8) 2 (omega arith)
              ∙ read_le-write_fields fs out (i * 8) 2 (length out) {v = p.pid_tag_id} refl room
                  (unfold field_at clear in ground arith)
              ∙ mod-eq_of_lt n.0.0,
          same (i * 8 + 2) 2 (omega arith)
              ∙ read_le-write_fields fs out (i * 8 + 2) 2 (length out) {v = p.prop_type} refl room
                  (unfold field_at clear in ground arith)
              ∙ mod-eq_of_lt n.0.1,
          same (i * 8 + 4) 4 (omega arith)
              ∙ read_le-write_fields fs out (i * 8 + 4) 4 (length out) {v = h} refl room
                  (unfold field_at clear in ground arith)
              ∙ mod-eq_of_lt w.0,
        ),
        rw (sym next) rest,
      )

-- Records in a part of a buffer are records of the buffer.
pub RecordsAt-slice :
    (ps : List PcProperty) (hs : List ℕ) (hn : List ℕ) (from size off : ℕ) (leaf : List ℕ)
    → slice hn from size ≡ leaf
    → off + length ps * 8 ≤ size
    → RecordsAt leaf off ps hs
    → RecordsAt hn (from + off) ps hs
unfolding RecordsAt
RecordsAt-slice [] hs hn from size off leaf e l r = tt
RecordsAt-slice (p ∷ ps) [] hn from size off leaf e l r = tt
RecordsAt-slice (p ∷ ps) (h ∷ hs) hn from size off leaf e l r =
    let read : (m k : ℕ) → k + m ≤ 8 → read_le m hn (from + (off + k)) ≡ read_le m leaf (off + k) =
      λ m k d.
        sym (read_le-slice m hn from size (off + k) (omega arith))
        ∙ ap (λ b. read_le m b (off + k)) e in
    let z : from + (off + 0) ≡ from + off = omega arith in
    let y : off + 0 ≡ off = omega arith in
    let next : from + (off + 8) ≡ from + off + 8 = omega arith in
    let two : from + (off + 2) ≡ from + off + 2 = omega arith in
    let four : from + (off + 4) ≡ from + off + 4 = omega arith in
    (
      (
        (rw (z, y) at (read 2 0 (omega arith))) ∙ r.0.0,
        (rw two at (read 2 2 (omega arith))) ∙ r.0.1,
        (rw four at (read 4 4 (omega arith))) ∙ r.0.2,
      ),
      rw (sym next) (RecordsAt-slice ps hs hn from size (off + 8) leaf e (omega arith) r.1),
    )
