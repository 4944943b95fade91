-- ===== src/Nbt/Reader.antt =====
-- The reader of src/nbt.cpp. A page pointer is the list of bytes from the page to the end of
-- the file, so that a read past the file is seen: it gives `fault`.
use pst_dev.Prelude.{
  ℕ, zero, suc, ◌+◌, ◌*◌, List, [], ◌∷◌, ◌++◌, Bool, ◌==◌, ◌&&◌, ◌||◌, not, ltb, leb, if◌then◌else◌,
  length, drop, Option, none, some,
}
use pst_dev.Bytes.{byte_at, u64, read_u32, read_u64}
use pst_dev.Ident.{Nid, Bid, Bref}
use pst_dev.Crc.{crc32}
use pst_dev.Ndb.{ptype_nbt}
use pst_dev.Nbt.{
  past_eof, not_nbt, ptype_mismatch, too_many_counted, bad_entry_size, level_too_deep, crc_mismatch,
  empty_intermediate, child_not_leaf, Result, ok, throw, fault, ◌>>=◌,
}

pub record NbtRecord : Type 0 where
  pub nid : Nid
  pub bid_data : Bid
  pub bid_sub : Bid
  pub nid_parent : Nid

-- The checks on the control bytes and the checksum, once the page is known to be an NBT page.
unfoldable pub check_crc : Bool → List ℕ → Result (List ℕ)
check_crc strict_crc page =
    if strict_crc && not (read_u32 page (496 + 4) == crc32 page 496)
    then throw crc_mismatch
    else ok page

unfoldable pub check_controls : Bool → List ℕ → Result (List ℕ)
check_controls strict_crc page =
    let c_ent = byte_at page 488 in
    let c_ent_max = byte_at page 489 in
    let cb_ent = byte_at page 490 in
    let c_level = byte_at page 491 in
    if ltb c_ent_max c_ent
    then throw too_many_counted
    else if c_level == 0
    then (if not (cb_ent == 32) then throw bad_entry_size else check_crc strict_crc page)
    else if not (cb_ent == 24)
    then throw bad_entry_size
    else if ltb 1 c_level
    then throw level_too_deep
    else check_crc strict_crc page

unfoldable pub fetch_and_validate_page : List ℕ → ℕ → Bool → Result (List ℕ)
fetch_and_validate_page file ib strict_crc =
    let page = drop ib file in
    let p_type = byte_at page 496 in
    let p_type_repeat = byte_at page 497 in
    if ltb (length file) ib || ltb (length file) (u64 (ib + 512))
    then throw past_eof
    else if not (p_type == ptype_nbt)
    then throw not_nbt
    else if not (p_type == p_type_repeat)
    then throw ptype_mismatch
    else check_controls strict_crc page

-- The four reads of `decodeNbtEntry` end 28 bytes behind `rec_off`.
unfoldable pub decode_nbt_entry : List ℕ → ℕ → Result NbtRecord
decode_nbt_entry page rec_off =
    if leb (rec_off + 28) (length page)
    then ok (record {
      nid = record { value = read_u32 page (rec_off + 0) };
      bid_data = record { value = read_u64 page (rec_off + 8) };
      bid_sub = record { value = read_u64 page (rec_off + 16) };
      nid_parent = record { value = read_u32 page (rec_off + 24) };
    })
    else fault

-- The loop of `searchLeaf` at `i`; `none` is its `false`.
unfoldable pub search_loop : ℕ → ℕ → List ℕ → Nid → Result (Option NbtRecord)
search_loop zero i page target = ok none
search_loop (suc left) i page target =
    let rest = search_loop left (i + 1) page target in
    decode_nbt_entry page (i * 32) >>= λ r.
    if r.nid.value == target.value then ok (some r) else rest

unfoldable pub search_leaf : List ℕ → Nid → Result (Option NbtRecord)
unfolding search_loop
search_leaf page target = search_loop (byte_at page 488) 0 page target

-- The loop of `descendIntermediate`: the last index whose key is not above the target.
unfoldable pub descend_loop : ℕ → ℕ → List ℕ → Nid → Option ℕ → Result (Option ℕ)
descend_loop zero i page target chosen = ok chosen
descend_loop (suc left) i page target chosen =
    let rest = descend_loop left (i + 1) page target (some i) in
    if leb (i * 24 + 8) (length page)
    then (if leb (read_u64 page (i * 24 + 0)) target.value then rest else ok chosen)
    else fault

unfoldable pub read_bref : List ℕ → ℕ → Result Bref
read_bref page off =
    if leb (off + 24) (length page)
    then ok (record {
      bid = record { value = read_u64 page (off + 8) };
      ib = record { value = read_u64 page (off + 16) };
    })
    else fault

-- The reference that stands for no child.
abbrev pub no_bref : Bref
no_bref = record { bid = record { value = 0 }; ib = record { value = 0 } }

unfoldable pub descend_intermediate : List ℕ → Nid → Result Bref
unfolding descend_loop read_bref
descend_intermediate page target =
    let c_ent = byte_at page 488 in
    if c_ent == 0
    then throw empty_intermediate
    else (descend_loop c_ent 0 page target none >>= λ chosen. elim chosen [
      | none ↦ ok no_bref
      | some i ↦ read_bref page (i * 24)
    ])

unfoldable pub find_in_child : List ℕ → Bref → Nid → Bool → Result (Option NbtRecord)
unfolding fetch_and_validate_page search_leaf
find_in_child file child target strict_crc =
    if child.bid.value == 0 && child.ib.value == 0
    then ok none
    else (fetch_and_validate_page file child.ib.value strict_crc >>= λ leaf.
        if not (byte_at leaf 491 == 0) then throw child_not_leaf else search_leaf leaf target)

unfoldable pub nbt_find : List ℕ → Bref → Nid → Bool → Result (Option NbtRecord)
nbt_find file root target strict_crc =
    fetch_and_validate_page file root.ib.value strict_crc >>= λ page.
    if byte_at page 491 == 0
    then search_leaf page target
    else (descend_intermediate page target >>= λ child. find_in_child file child target strict_crc)

-- `enumerateLeaf` and `nbtForEach`, with the records so far.
unfoldable pub enumerate_loop : ℕ → ℕ → List ℕ → List NbtRecord → Result (List NbtRecord)
enumerate_loop zero i page out = ok out
enumerate_loop (suc left) i page out =
    decode_nbt_entry page (i * 32) >>= λ r. enumerate_loop left (i + 1) page (out ++ (r ∷ []))

unfoldable pub enumerate_leaf : List ℕ → List NbtRecord → Result (List NbtRecord)
unfolding enumerate_loop
enumerate_leaf page out = enumerate_loop (byte_at page 488) 0 page out

unfoldable pub for_each_loop :
    ℕ → ℕ → List ℕ → List ℕ → Bool → List NbtRecord → Result (List NbtRecord)
for_each_loop zero i file root strict_crc out = ok out
for_each_loop (suc left) i file root strict_crc out = read_bref root (i * 24) >>= λ child.
    (fetch_and_validate_page file child.ib.value strict_crc >>= λ leaf.
    let rest = λ (out' : List NbtRecord). for_each_loop left (i + 1) file root strict_crc out' in
    if not (byte_at leaf 491 == 0)
    then throw child_not_leaf
    else (enumerate_leaf leaf out >>= rest))

unfoldable pub nbt_for_each : List ℕ → Bref → Bool → Result (List NbtRecord)
unfolding fetch_and_validate_page enumerate_leaf for_each_loop
nbt_for_each file root_bref strict_crc =
    fetch_and_validate_page file root_bref.ib.value strict_crc >>= λ root.
    if byte_at root 491 == 0
    then enumerate_leaf root []
    else for_each_loop (byte_at root 488) 0 file root strict_crc []
