-- ===== src/Ndb/HeaderFields.antt =====
-- src/ndb.cpp: HEADER as a list of fields, and where its counters stand.
use pst_dev.Prelude.{
  ℕ, zero, suc, ◌+◌, ◌*◌, ◌≤◌, ◌<◌, ◌≡◌, refl, ap, ◌∙◌, sym, arith, List, [], ◌∷◌, ◌++◌, some, true,
  ◌==◌, get_or, set, inl, inr, Bool-cases, ==_iff,
}
use native.Mathlib.Nat.{mod-eq_of_lt}
use pst_dev.Bytes.{write_u8, write_u32}
use pst_dev.Bytes.Laws.{write_le, write_u16-write_le, write_u32-write_le, write_u64-write_le}
use pst_dev.Bytes.Fields.{
  clear-append, field_at-append_front, field_at-append_back, Field, write_fields, clear, field_at,
  write_fields-append,
}
use pst_dev.Bytes.Words.{write_u8-write_le}
use pst_dev.Ndb.{Root, WriterState, fill_n, write_rgnid, header_ids, header_root, header_tail}

unfoldable pub fill_fields : ℕ → ℕ → ℕ → List Field
fill_fields off zero v = []
fill_fields off (suc n) v = (off, 1, v) ∷ fill_fields (off + 1) n v

fill_n-fields :
    (n : ℕ) (buf : List ℕ) (off v : ℕ)
    → v < 256
    → fill_n buf off n v ≡ write_fields (fill_fields off n v) buf
unfolding fill_n fill_fields write_fields write_le
fill_n-fields zero buf off v h = refl
fill_n-fields (suc n) buf off v h =
    fill_n-fields n (set buf off v) (off + 1) v h
    ∙ ap (λ (t : ℕ). write_fields (fill_fields (off + 1) n v) (set buf off t))
        (sym (mod-eq_of_lt h))

unfoldable pub rgnid_fields : ℕ → ℕ → List ℕ → List Field
rgnid_fields zero i rgnid = []
rgnid_fields (suc left) i rgnid =
    (0x02c + i * 4, 4, get_or rgnid i 0) ∷ rgnid_fields left (i + 1) rgnid

write_rgnid-fields :
    (left i : ℕ) (rgnid p : List ℕ)
    → write_rgnid left i rgnid p ≡ write_fields (rgnid_fields left i rgnid) p
unfolding write_rgnid rgnid_fields write_fields
write_rgnid-fields zero i rgnid p = refl
write_rgnid-fields (suc left) i rgnid p =
    write_rgnid-fields left (i + 1) rgnid (write_u32 p (0x02c + i * 4) (get_or rgnid i 0))
    ∙ ap (write_fields (rgnid_fields left (i + 1) rgnid))
        (write_u32-write_le p (0x02c + i * 4) (get_or rgnid i 0))

-- The parts as lists of fields.
unfoldable pub id_fields : WriterState → List Field
id_fields s =
    (0x000, 4, 0x4e444221)
    ∷ (0x008, 2, 0x4d53)
    ∷ (0x00a, 2, 23)
    ∷ (0x00c, 2, 19)
    ∷ (0x00e, 1, 0x01)
    ∷ (0x00f, 1, 0x01)
    ∷ (0x010, 4, s.dw_reserved1)
    ∷ (0x014, 4, s.dw_reserved2)
    ∷ (0x018, 8, s.bid_unused)
    ∷ (0x020, 8, s.bid_next_p.value)
    ∷ (0x028, 4, s.dw_unique)
    ∷ []

unfoldable pub root_fields : Root → List Field
root_fields r =
    (0x0b4, 4, 0)
    ∷ (0x0b8, 8, r.ib_file_eof.value)
    ∷ (0x0c0, 8, r.ib_amap_last.value)
    ∷ (0x0c8, 8, r.cb_amap_free)
    ∷ (0x0d0, 8, r.cb_pmap_free)
    ∷ (0x0d8, 8, r.bref_nbt.bid.value)
    ∷ (0x0e0, 8, r.bref_nbt.ib.value)
    ∷ (0x0e8, 8, r.bref_bbt.bid.value)
    ∷ (0x0f0, 8, r.bref_bbt.ib.value)
    ∷ (0x0f8, 1, r.f_amap_valid)
    ∷ (0x0f9, 1, 0)
    ∷ (0x0fa, 2, 0)
    ∷ []

unfoldable pub last_fields : WriterState → List Field
last_fields s =
    (0x200, 1, 0x80)
    ∷ (0x201, 1, 0x01)
    ∷ (0x202, 2, 0)
    ∷ (0x204, 8, s.bid_next_b.value)
    ∷ (0x210, 2, 0)
    ∷ (0x212, 1, 0)
    ∷ (0x213, 1, 0)
    ∷ []

unfoldable pub tail_fields : WriterState → List Field
unfolding last_fields
tail_fields s =
    ((0x0fc, 4, 0) ∷ [])
    ++ (fill_fields 0x100 128 0xff ++ (fill_fields 0x180 128 0xff ++ last_fields s))

unfoldable pub header_fields : WriterState → List Field
unfolding id_fields root_fields tail_fields rgnid_fields fill_fields
header_fields s =
    id_fields s
    ++ (rgnid_fields 32 0 s.rgnid
        ++ (((0x0ac, 8, 0) ∷ []) ++ (root_fields s.root ++ tail_fields s)))

u8-le : (off v : ℕ) → v < 256 → (buf : List ℕ) → write_u8 buf off v ≡ write_le 1 buf off v
u8-le off v h buf = write_u8-write_le buf off v h

fill-le :
    (off n : ℕ) (buf : List ℕ) → fill_n buf off n 0xff ≡ write_fields (fill_fields off n 0xff) buf
fill-le off n buf = fill_n-fields n buf off 0xff (omega arith)

pub header_ids-fields :
    (s : WriterState) (p : List ℕ)
    → header_ids s p
      ≡ write_fields
          ((0x0ac, 8, 0) ∷ [])
          (write_fields (rgnid_fields 32 0 s.rgnid) (write_fields (id_fields s) p))
unfolding header_ids id_fields write_fields
header_ids-fields s p = simp (
  u8-le 0x00e 0x01 (omega arith),
  u8-le 0x00f 0x01 (omega arith),
  write_u16-write_le,
  write_u32-write_le,
  write_u64-write_le,
  write_rgnid-fields,
)

pub header_root-fields :
    (r : Root) (p : List ℕ)
    → r.f_amap_valid < 256
    → header_root r p ≡ write_fields (root_fields r) p
unfolding header_root root_fields write_fields
header_root-fields r p h = simp (
  u8-le 0x0f8 r.f_amap_valid h,
  u8-le 0x0f9 0 (omega arith),
  write_u16-write_le,
  write_u32-write_le,
  write_u64-write_le,
)

pub header_tail-fields :
    (s : WriterState) (p : List ℕ) → header_tail s p ≡ write_fields (tail_fields s) p
unfolding header_tail tail_fields write_fields
header_tail-fields s p = simp (
  fill-le 0x100 128,
  fill-le 0x180 128,
  write_fields-append,
  u8-le 0x200 0x80 (omega arith),
  u8-le 0x201 0x01 (omega arith),
  u8-le (0x210 + 2) 0 (omega arith),
  u8-le 0x213 0 (omega arith),
  write_u16-write_le,
  write_u32-write_le,
  write_u64-write_le,
)

-- Where the counters stand.
clear_rgnid :
    (left i : ℕ) (rgnid : List ℕ) (at : ℕ)
    → at + 4 ≤ 0x02c + i * 4
    → clear at 4 (rgnid_fields left i rgnid) ≡ true
unfolding clear rgnid_fields
clear_rgnid zero i rgnid at h = refl
clear_rgnid (suc left) i rgnid at h = ground (arith, clear_rgnid left (i + 1) rgnid at)

rgnid_field :
    (left i : ℕ) (rgnid : List ℕ) (j : ℕ)
    → i ≤ j
    → j < i + left
    → field_at (0x02c + j * 4) 4 (rgnid_fields left i rgnid) ≡ some (get_or rgnid j 0)
unfolding field_at rgnid_fields
rgnid_field zero i rgnid j p q = absurd (omega arith)
rgnid_field (suc left) i rgnid j p q = elim (Bool-cases (i == j)) [
  | inl e ↦
      let same = (==_iff i j).0 e in
      rw (← same) (ground (arith, clear_rgnid left (i + 1) rgnid (0x02c + i * 4) (omega arith)))
  | inr n ↦ ground (arith, rgnid_field left (i + 1) rgnid j)
]

pub clear_fill : (n at m off v : ℕ) → at + m ≤ off → clear at m (fill_fields off n v) ≡ true
unfolding clear fill_fields
clear_fill zero at m off v h = refl
clear_fill (suc n) at m off v h = ground (arith, clear_fill n at m (off + 1) v)

clear_last : (at : ℕ) (s : WriterState) → at + 4 ≤ 0x0fc → clear at 4 (last_fields s) ≡ true
unfolding clear last_fields
clear_last at s h = ground arith

clear_one : (at off n v : ℕ) → at + 4 ≤ off → clear at 4 ((off, n, v) ∷ []) ≡ true
unfolding clear
clear_one at off n v h = ground arith

clear_tail : (at : ℕ) (s : WriterState) → at + 4 ≤ 0x0fc → clear at 4 (tail_fields s) ≡ true
unfolding tail_fields last_fields
clear_tail at s h =
    let fm = fill_fields 0x100 128 0xff in
    let fp = fill_fields 0x180 128 0xff in
    let end = last_fields s in
    clear-append at 4 ((0x0fc, 4, 0) ∷ []) (fm ++ (fp ++ end)) (clear_one at 0x0fc 4 0 h) (
      clear-append at 4 fm (fp ++ end) (clear_fill 128 at 4 0x100 0xff (omega arith)) (
        clear-append at 4 fp end (clear_fill 128 at 4 0x180 0xff (omega arith))
          (clear_last at s h)))

clear_root : (at : ℕ) (r : Root) → at + 4 ≤ 0x0b4 → clear at 4 (root_fields r) ≡ true
unfolding clear root_fields
clear_root at r h = ground arith

pub nid_front :
    (s : WriterState) (i : ℕ)
    → i < 32
    → field_at (0x02c + i * 4) 4 (header_fields s) ≡ some (get_or s.rgnid i 0)
unfolding header_fields
nid_front s i k =
    let at = 0x02c + i * 4 in
    let rest = root_fields s.root ++ tail_fields s in
    let clear_rest =
      clear-append at 4 (root_fields s.root) (tail_fields s) (clear_root at s.root (omega arith))
        (clear_tail at s (omega arith)) in
    let clear_all =
      clear-append at 4 ((0x0ac, 8, 0) ∷ []) rest (clear_one at 0x0ac 8 0 (omega arith))
        clear_rest in
    field_at-append_back at 4 (id_fields s)
      (rgnid_fields 32 0 s.rgnid ++ (((0x0ac, 8, 0) ∷ []) ++ rest)) (omega arith)
      (field_at-append_front at 4 (rgnid_fields 32 0 s.rgnid) (((0x0ac, 8, 0) ∷ []) ++ rest)
        (rgnid_field 32 0 s.rgnid i (omega arith) (omega arith)) clear_all)
