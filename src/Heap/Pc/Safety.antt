-- ===== src/Heap/Pc/Safety.antt =====
-- src/ltp.cpp: `readPropertyContext` on any bytes.
use mathlib.Core.Path.{subst}
use pst_dev.Prelude.{
  ℕ, zero, suc, ◌+◌, ◌-◌, ◌*◌, ◌%◌, ◌/◌, ◌^◌, ◌≤◌, ◌<◌, ◌≡◌, arith, List, [], ◌∷◌, inl, inr,
  Bool-cases, ◌==◌, ◌||◌, ◌&&◌, not, leb, ltb, length, bit_and, All,
}
use pst_dev.Prelude.Bits.{bit_and_ones}
use pst_dev.Bytes.Laws.{IsBytes, read_le, read_u32-read_le}
use pst_dev.Prelude.Except.{Except, ok, throw_if, ◌>>=◌, ◌>>◌, >>=-eq-ok, throw_if-eq-ok}
use pst_dev.Bytes.{◌>>>◌, byte_at, read_u16, read_u32}
use pst_dev.Heap.{fixed_size, hid_index, hid_type, hid_block}
use pst_dev.Heap.Pc.Read.{
  HnSlice, ReadError, hid_has_type, hid_index_zero, hid_other_block, hid_beyond_map,
  entry_beyond_end, bounds_invalid, too_small, bad_signature, not_a_context, map_out_of_range,
  map_beyond_end, bad_header_size, bad_leaf_size, ReadStorage, inline_value, heap_value,
  subnode_value, ReadPcProp, read_storage, read_prop, read_props, read_leaf, resolve_hid,
  read_bth_header, read_property_context,
}

-- A slice that a resolver gives lies in the buffer.
pub resolve_hid-eq-ok :
    (hid : ℕ) (hn : List ℕ) (hnpm_off c_alloc : ℕ) {s : HnSlice}
    → resolve_hid hid hn hnpm_off c_alloc ≡ ok s
    → s.off + s.size ≤ length hn
unfolding resolve_hid
resolve_hid-eq-ok hid hn hnpm_off c_alloc {s} h =
    let index = hid_index hid in
    let end_off = hnpm_off + 4 + index * 2 in
    let from = read_u16 hn (hnpm_off + 4 + (index - 1) * 2) in
    let to = read_u16 hn end_off in
    let slice_at : Except ReadError HnSlice = ok (record { off = from; size = to - from }) in
    let k5 = throw_if (ltb to from || ltb (length hn) to) bounds_invalid >> slice_at in
    let k4 = throw_if (ltb (length hn) (end_off + 2)) entry_beyond_end >> k5 in
    let k3 = throw_if (ltb c_alloc index) hid_beyond_map >> k4 in
    let k2 = throw_if (not (hid_block hid == 0)) hid_other_block >> k3 in
    let k1 = throw_if (index == 0) hid_index_zero >> k2 in
    let (a0, h1) = throw_if-eq-ok (not (hid_type hid == 0)) hid_has_type k1 h in
    let (a1, h2) = throw_if-eq-ok (index == 0) hid_index_zero k2 h1 in
    let (a2, h3) = throw_if-eq-ok (not (hid_block hid == 0)) hid_other_block k3 h2 in
    let (a3, h4) = throw_if-eq-ok (ltb c_alloc index) hid_beyond_map k4 h3 in
    let (a4, h5) = throw_if-eq-ok (ltb (length hn) (end_off + 2)) entry_beyond_end k5 h4 in
    let (a5, h6) = throw_if-eq-ok (ltb to from || ltb (length hn) to) bounds_invalid slice_at h5 in
    let same : record { off = from; size = to - from } ≡ s = cc in
    subst (λ (t : HnSlice). t.off + t.size ≤ length hn) same (ground (arith, a5))

-- A heap value that was read lies in the buffer.
unfoldable pub IsInside : List ℕ → ReadStorage → Type 0
IsInside hn (inline_value v) = v < 2 ^ 32
IsInside hn (heap_value s) = s.off + s.size ≤ length hn
IsInside hn (subnode_value n) = 0 < n.value % 32

read_storage-IsInside :
    (t hnid : ℕ) (hn : List ℕ) (hnpm_off c_alloc : ℕ) {r : ReadStorage}
    → hnid < 2 ^ 32
    → read_storage t hnid hn hnpm_off c_alloc ≡ ok r
    → IsInside hn r
unfolding read_storage
read_storage-IsInside t hnid hn hnpm_off c_alloc {r} w h =
    elim (Bool-cases (not (fixed_size t == 0) && leb (fixed_size t) 4)) [
      | inl s ↦
          let e : inline_value hnid ≡ r = (let h' = rw s at h in cc) in
          subst (IsInside hn) e (unfold IsInside in w)
      | inr s ↦ elim (Bool-cases (bit_and hnid 0x1f == 0)) [
        | inl z ↦
            let (v, found, h') =
              >>=-eq-ok (resolve_hid hnid hn hnpm_off c_alloc) (λ (v : HnSlice). ok (heap_value v))
                (rw (s, z) at h) in
            let e : heap_value v ≡ r = cc in
            subst (IsInside hn) e
              (unfold IsInside in resolve_hid-eq-ok hnid hn hnpm_off c_alloc found)
        | inr z ↦
            let e : subnode_value (record { value = hnid }) ≡ r = (let h' = rw (s, z) at h in cc) in
            subst (IsInside hn) e (unfold IsInside in ground (arith, z, bit_and_ones 5 hnid))
      ]
    ]

module _ (hn : List ℕ) (bytes : IsBytes hn) (hnpm_off c_alloc : ℕ) where
  read_prop-IsInside :
      (off : ℕ) {r : ReadPcProp} → read_prop off hn hnpm_off c_alloc ≡ ok r → IsInside hn r.storage
  unfolding read_prop
  read_prop-IsInside off {r} h =
      let t = read_u16 hn (off + 2) in
      let value = read_u32 hn (off + 4) in
      let make : ReadStorage → Except ReadError ReadPcProp =
        λ s. ok (record { pid_tag_id = read_u16 hn (off + 0); prop_type = t; storage = s }) in
      let (s, found, h') = >>=-eq-ok (read_storage t value hn hnpm_off c_alloc) make h in
      let word : value < 2 ^ 32 =
        rw (read_u32-read_le hn (off + 4) bytes) (read_u32_lt (off + 4)) in
      let e : record { pid_tag_id = read_u16 hn (off + 0); prop_type = t; storage = s } ≡ r = cc in
      subst (λ (q : ReadPcProp). IsInside hn q.storage) e
        (read_storage-IsInside t value hn hnpm_off c_alloc word found)
    where
      read_u32_lt : (at : ℕ) → read_le 4 hn at < 2 ^ 32
      read_u32_lt at =
          unfold read_le in
          omega (arith, bytes at, bytes (at + 1), bytes (at + 1 + 1), bytes (at + 1 + 1 + 1))

  read_props-IsInside :
      (left off : ℕ) {rs : List ReadPcProp}
      → read_props left off hn hnpm_off c_alloc ≡ ok rs
      → All (λ r. IsInside hn r.storage) rs
  unfolding read_props
  read_props-IsInside zero off {rs} h =
      let e : [] ≡ rs = cc in subst (All (λ r. IsInside hn r.storage)) e tt
  read_props-IsInside (suc left) off {rs} h =
      let (p, one, h') =
        >>=-eq-ok (read_prop off hn hnpm_off c_alloc)
          (λ p. read_props left (off + 8) hn hnpm_off c_alloc >>= λ ps. ok (p ∷ ps)) h in
      let (ps, rest, h'') =
        >>=-eq-ok (read_props left (off + 8) hn hnpm_off c_alloc) (λ ps. ok (p ∷ ps)) h' in
      let e : p ∷ ps ≡ rs = cc in
      subst (All (λ r. IsInside hn r.storage)) e
        (read_prop-IsInside off one, read_props-IsInside left (off + 8) rest)

  read_leaf-IsInside :
      (root : ℕ) {rs : List ReadPcProp}
      → read_leaf root hn hnpm_off c_alloc ≡ ok rs
      → All (λ r. IsInside hn r.storage) rs
  unfolding read_leaf
  read_leaf-IsInside root {rs} h = elim (Bool-cases (bit_and (root >>> 5) 0x07ff == 0)) [
    | inl z ↦
        let e : [] ≡ rs = (let h' = rw z at h in cc) in
        subst (All (λ r. IsInside hn r.storage)) e tt
    | inr z ↦
        let run : HnSlice → Except ReadError (List ReadPcProp) =
          λ leaf. read_props (leaf.size / 8) leaf.off hn hnpm_off c_alloc in
        let (leaf, found, h') =
          >>=-eq-ok (resolve_hid root hn hnpm_off c_alloc)
            (λ (leaf : HnSlice). throw_if (not (leaf.size % 8 == 0)) bad_leaf_size >> run leaf)
            (rw z at h) in
        let (whole, h'') = throw_if-eq-ok (not (leaf.size % 8 == 0)) bad_leaf_size (run leaf) h' in
        read_props-IsInside (leaf.size / 8) leaf.off h''
  ]

-- Whatever bytes the reader is given, the properties that it returns are safe to look at: a heap
-- value lies in the buffer, a number has 32 bits, and an id of a subnode has a type.
pub read_property_context-IsInside :
    (hn : List ℕ) {rs : List ReadPcProp}
    → IsBytes hn
    → read_property_context hn ≡ ok rs
    → All (λ r. IsInside hn r.storage) rs
unfolding read_property_context
read_property_context-IsInside hn {rs} bytes h =
    let ib_hnpm = read_u16 hn 0 in
    let c_alloc = read_u16 hn (ib_hnpm + 0) in
    let leaf : HnSlice → Except ReadError (List ReadPcProp) =
      λ header. read_bth_header header.off hn >>= λ root. read_leaf root hn ib_hnpm c_alloc in
    let checked : HnSlice → Except ReadError (List ReadPcProp) =
      λ header. throw_if (not (header.size == 8)) bad_header_size >> leaf header in
    let k5 = resolve_hid (read_u32 hn 4) hn ib_hnpm c_alloc >>= checked in
    let k4 = throw_if (ltb (length hn) (ib_hnpm + 4 + (c_alloc + 1) * 2)) map_beyond_end >> k5 in
    let k3 = throw_if (ltb (length hn) (ib_hnpm + 4)) map_out_of_range >> k4 in
    let k2 = throw_if (not (byte_at hn 3 == 0xbc)) not_a_context >> k3 in
    let k1 = throw_if (not (byte_at hn 2 == 0xec)) bad_signature >> k2 in
    let (a0, h1) = throw_if-eq-ok (ltb (length hn) 12) too_small k1 h in
    let (a1, h2) = throw_if-eq-ok (not (byte_at hn 2 == 0xec)) bad_signature k2 h1 in
    let (a2, h3) = throw_if-eq-ok (not (byte_at hn 3 == 0xbc)) not_a_context k3 h2 in
    let (a3, h4) = throw_if-eq-ok (ltb (length hn) (ib_hnpm + 4)) map_out_of_range k4 h3 in
    let (a4, h5) =
      throw_if-eq-ok (ltb (length hn) (ib_hnpm + 4 + (c_alloc + 1) * 2)) map_beyond_end k5 h4 in
    let (header, found, h6) =
      >>=-eq-ok (resolve_hid (read_u32 hn 4) hn ib_hnpm c_alloc) checked h5 in
    let (a5, h7) = throw_if-eq-ok (not (header.size == 8)) bad_header_size (leaf header) h6 in
    let (root, read, h8) =
      >>=-eq-ok (read_bth_header header.off hn) (λ root. read_leaf root hn ib_hnpm c_alloc) h7 in
    read_leaf-IsInside hn bytes ib_hnpm c_alloc root h8
