-- ===== src/Heap/Pc/Tests.antt =====
-- A property context of a number, a text in the heap, and a value forced into a subnode.
use pst_dev.Prelude.{ℕ, ◌-◌, ◌^◌, ◌<◌, ◌≡◌, refl, arith, List, [], ◌∷◌, true, false, length, All}
use pst_dev.Prelude.Sort.{insert_by, sort_by}
use pst_dev.Prelude.Except.{ok}
use pst_dev.Bytes.Laws.{IsBytes}
use pst_dev.Bytes.{write_u8, write_u16, write_u32, write_bytes, slice, read_u16, read_u32}
use pst_dev.Crc.Detect.{AllBytes-IsBytes}
use pst_dev.Ident.{Nid, nid_type}
use pst_dev.Heap.{
  make_hid, hid_index, hid_type, hid_block, cursor_after, alloc_offsets, copy_allocs, count_free,
  write_offsets, write_hn_header, build_heap_on_node, encode_bth_header, key_less, insert_record,
  sort_records, pack_records, build_bth_leaf_records, fixed_size, resolve_storage,
  pack_inline_value, mv_total,
}
use pst_dev.Heap.Pc.{
  PcProperty, PcResult, tag_key, has_duplicate, check_props, value_hnids, heap_values, subnode_outs,
  pc_record, pc_records, bth_leaf, pc_heap, build_property_context,
}
use pst_dev.Heap.Pc.Resolve.{build_heap_on_node-resolve_hid}
use pst_dev.Heap.Pc.Read.{
  HnSlice, inline_value, heap_value, subnode_value, ReadPcProp, read_property_context, resolve_hid,
  read_bth_header, read_leaf, read_props, read_prop, read_storage,
}
use pst_dev.Heap.Pc.Storage.{IsProperty}
use pst_dev.Heap.Pc.Roundtrip.{IsReadBack}
use pst_dev.Heap.Pc.Whole.{build_property_context-read_property_context}
use pst_dev.Heap.Pc.Refusals.{IsAccepted, heap_bytes, build_property_context-accepts}
use pst_dev.Heap.Pc.Acceptance.{IsAccepted-build_property_context}
use pst_dev.Heap.Pc.Safety.{IsInside, read_property_context-IsInside}

abbrev number : PcProperty
number = record {
  pid_tag_id = 0x3602;
  prop_type = 0x0003;
  value_bytes = 5 ∷ 1 ∷ 0 ∷ 0 ∷ [];
  forced = false;
}

abbrev name : PcProperty
name = record {
  pid_tag_id = 0x3001;
  prop_type = 0x001f;
  value_bytes = 65 ∷ 0 ∷ 66 ∷ 0 ∷ [];
  forced = false;
}

abbrev body : PcProperty
body = record { pid_tag_id = 0x1013; prop_type = 0x0102; value_bytes = 7 ∷ 8 ∷ []; forced = true }

abbrev three : List PcProperty
three = number ∷ name ∷ body ∷ []

abbrev first_nid : Nid
first_nid = record { value = 0x3f }

abbrev hn : List ℕ
hn =
    48 ∷ 0 ∷ 236 ∷ 188 ∷ 32 ∷ 0 ∷ 0 ∷ 0 ∷ 0 ∷ 0 ∷ 0 ∷ 0 ∷ 181 ∷ 2 ∷ 6 ∷ 0 ∷ 64 ∷ 0 ∷ 0 ∷ 0 ∷ 19 ∷ 16
    ∷ 2 ∷ 1 ∷ 63 ∷ 0 ∷ 0 ∷ 0 ∷ 1 ∷ 48 ∷ 31 ∷ 0 ∷ 96 ∷ 0 ∷ 0 ∷ 0 ∷ 2 ∷ 54 ∷ 3 ∷ 0 ∷ 5 ∷ 1 ∷ 0 ∷ 0
    ∷ 65 ∷ 0 ∷ 66 ∷ 0 ∷ 3 ∷ 0 ∷ 0 ∷ 0 ∷ 12 ∷ 0 ∷ 20 ∷ 0 ∷ 44 ∷ 0 ∷ 48 ∷ 0 ∷ []

abbrev out : PcResult
out = record {
  hn_bytes = hn;
  subnodes = record { nid = first_nid; pid_tag_id = 0x1013; bytes = 7 ∷ 8 ∷ [] } ∷ [];
}

three_built : build_property_context three first_nid ≡ ok out
unfolding build_property_context nid_type has_duplicate insert_by sort_by check_props fixed_size
    bth_leaf build_bth_leaf_records pc_records value_hnids pc_heap build_heap_on_node write_offsets
    alloc_offsets heap_values resolve_storage cursor_after encode_bth_header read_u32 write_bytes
    write_u16 write_u32 write_u8 pc_record subnode_outs copy_allocs count_free insert_record
    key_less make_hid pack_inline_value pack_records sort_records write_hn_header
three_built = refl

three_good : All IsProperty three
unfolding fixed_size
three_good = (
  record {
    tag = omega arith;
    type_number = omega arith;
    bytes =
        AllBytes-IsBytes number.value_bytes
          (omega arith, (omega arith, (omega arith, (omega arith, tt))));
    not_short = refl;
  },
  (
    record {
      tag = omega arith;
      type_number = omega arith;
      bytes =
          AllBytes-IsBytes name.value_bytes
            (omega arith, (omega arith, (omega arith, (omega arith, tt))));
      not_short = refl;
    },
    (
      record {
        tag = omega arith;
        type_number = omega arith;
        bytes = AllBytes-IsBytes body.value_bytes (omega arith, (omega arith, tt));
        not_short = refl;
      },
      tt,
    ),
  ),
)

three_small : mv_total (heap_values (sort_by tag_key three)) < 2 ^ 16 - 4096
unfolding mv_total heap_values resolve_storage fixed_size sort_by insert_by
three_small = omega arith

build_property_context-read_property_context_example :
    (rs : List ReadPcProp) × (read_property_context hn ≡ ok rs)
    × IsReadBack out (sort_by tag_key three) rs
build_property_context-read_property_context_example =
    build_property_context-read_property_context three first_nid {out = out} three_good
      (omega arith) three_small three_built

build_property_context-accepts_example : IsAccepted three first_nid × (length hn ≡ heap_bytes three)
build_property_context-accepts_example =
    build_property_context-accepts three first_nid {out = out} three_small three_built

IsAccepted-build_property_context_example :
    (made : PcResult) × (build_property_context three first_nid ≡ ok made)
    × (length made.hn_bytes ≡ heap_bytes three)
IsAccepted-build_property_context_example =
    IsAccepted-build_property_context three first_nid build_property_context-accepts_example.0

hn-IsBytes : IsBytes hn
hn-IsBytes = AllBytes-IsBytes hn (
  omega arith,
  (
    omega arith,
    (
      omega arith,
      (
        omega arith,
        (
          omega arith,
          (
            omega arith,
            (
              omega arith,
              (
                omega arith,
                (
                  omega arith,
                  (
                    omega arith,
                    (
                      omega arith,
                      (
                        omega arith,
                        (
                          omega arith,
                          (
                            omega arith,
                            (
                              omega arith,
                              (
                                omega arith,
                                (
                                  omega arith,
                                  (
                                    omega arith,
                                    (
                                      omega arith,
                                      (
                                        omega arith,
                                        (
                                          omega arith,
                                          (
                                            omega arith,
                                            (
                                              omega arith,
                                              (
                                                omega arith,
                                                (
                                                  omega arith,
                                                  (
                                                    omega arith,
                                                    (
                                                      omega arith,
                                                      (
                                                        omega arith,
                                                        (
                                                          omega arith,
                                                          (
                                                            omega arith,
                                                            (
                                                            omega arith,
                                                            (
                                                            omega arith,
                                                            (
                                                            omega arith,
                                                            (
                                                            omega arith,
                                                            (
                                                            omega arith,
                                                            (
                                                            omega arith,
                                                            (
                                                            omega arith,
                                                            (
                                                            omega arith,
                                                            (
                                                            omega arith,
                                                            (
                                                            omega arith,
                                                            (
                                                            omega arith,
                                                            (
                                                            omega arith,
                                                            (
                                                            omega arith,
                                                            (
                                                            omega arith,
                                                            (
                                                            omega arith,
                                                            (
                                                            omega arith,
                                                            (
                                                            omega arith,
                                                            (
                                                            omega arith,
                                                            (
                                                            omega arith,
                                                            (
                                                            omega arith,
                                                            (
                                                            omega arith,
                                                            (
                                                            omega arith,
                                                            (
                                                            omega arith,
                                                            (
                                                            omega arith,
                                                            (
                                                            omega arith,
                                                            (
                                                            omega arith,
                                                            (
                                                            omega arith,
                                                            (
                                                            omega arith,
                                                            (omega arith, (omega arith, tt)),
                                                            ),
                                                            ),
                                                            ),
                                                            ),
                                                            ),
                                                            ),
                                                            ),
                                                            ),
                                                            ),
                                                            ),
                                                            ),
                                                            ),
                                                            ),
                                                            ),
                                                            ),
                                                            ),
                                                            ),
                                                            ),
                                                            ),
                                                            ),
                                                            ),
                                                            ),
                                                            ),
                                                            ),
                                                            ),
                                                            ),
                                                            ),
                                                            ),
                                                          ),
                                                        ),
                                                      ),
                                                    ),
                                                  ),
                                                ),
                                              ),
                                            ),
                                          ),
                                        ),
                                      ),
                                    ),
                                  ),
                                ),
                              ),
                            ),
                          ),
                        ),
                      ),
                    ),
                  ),
                ),
              ),
            ),
          ),
        ),
      ),
    ),
  ),
)

abbrev read : List ReadPcProp
read =
    record { pid_tag_id = 0x1013; prop_type = 0x0102; storage = subnode_value first_nid }
    ∷ record {
      pid_tag_id = 0x3001;
      prop_type = 0x001f;
      storage = heap_value (record { off = 44; size = 4 });
    }
    ∷ record { pid_tag_id = 0x3602; prop_type = 0x0003; storage = inline_value 0x105 }
    ∷ []

read_property_context-hn : read_property_context hn ≡ ok read
unfolding read_property_context read_u16 read_u32 resolve_hid hid_index hid_type hid_block
    read_bth_header read_leaf read_props read_prop read_storage fixed_size
read_property_context-hn = refl

read_property_context-IsInside_example : All (λ r. IsInside hn r.storage) read
read_property_context-IsInside_example =
    read_property_context-IsInside hn {rs = read} hn-IsBytes read_property_context-hn

-- A heap of two allocations.
abbrev two : List (List ℕ)
two = (1 ∷ 2 ∷ 3 ∷ []) ∷ (9 ∷ []) ∷ []

abbrev fill : List ℕ
fill = 0 ∷ 0 ∷ 0 ∷ 0 ∷ []

two_small : mv_total two < 2 ^ 16 - 15
unfolding mv_total
two_small = omega arith

build_heap_on_node-resolve_hid_example :
    (s : HnSlice) × (resolve_hid
        (make_hid 2 0 0)
        (build_heap_on_node two 0xbc 0x20 fill)
        (read_u16 (build_heap_on_node two 0xbc 0x20 fill) 0)
        (read_u16
          (build_heap_on_node two 0xbc 0x20 fill)
          (read_u16 (build_heap_on_node two 0xbc 0x20 fill) 0))
      ≡ ok s)
    × (slice (build_heap_on_node two 0xbc 0x20 fill) s.off s.size ≡ 9 ∷ [])
build_heap_on_node-resolve_hid_example =
    build_heap_on_node-resolve_hid two 0xbc 0x20 fill 1 {a = 9 ∷ []} (omega arith) two_small
      (omega arith) (omega arith)
      (AllBytes-IsBytes fill (omega arith, (omega arith, (omega arith, (omega arith, tt)))))
      (
        AllBytes-IsBytes (1 ∷ 2 ∷ 3 ∷ []) (omega arith, (omega arith, (omega arith, tt))),
        (AllBytes-IsBytes (9 ∷ []) (omega arith, tt), tt),
      )
      refl
