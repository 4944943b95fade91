-- ===== src/Allocator/Tests.antt =====
-- A folder's id from a new allocator.
use pst_dev.Prelude.{◌+◌, ◌≡◌, refl, [], ◌∷◌, ◌++◌, true, false, ◌⊎◌, length}
use mathlib.Core.List.{reverse}
use pst_dev.Ident.{Nid, nid_type}
use pst_dev.Allocator.{
  M5Allocator, ok, throw, invalid_nid_type, initial, is_valid_nid_type, allocate, allocated_count,
  register_external, reserved_table, contains, insert,
}
use pst_dev.Allocator.Spec.{IsValid, Searched, allocate_lem}
use pst_dev.Allocator.History.{start, registered, Distinct, initial-IsValid, Reach-Distinct}

allocate_lem_example :
    ((is_valid_nid_type 0x02 ≡ true) × Searched 0x02 initial (allocate 0x02 initial))
    ⊎ ((is_valid_nid_type 0x02 ≡ false) × (allocate 0x02 initial ≡ throw invalid_nid_type initial))
allocate_lem_example = allocate_lem 0x02 initial initial-IsValid

-- A node id that a caller brings along.
abbrev folder : Nid
folder = record { value = 0x8082 }

abbrev after : M5Allocator
after = record { allocated = folder.value ∷ initial.allocated; next_index = initial.next_index }

registers : register_external folder initial ≡ ok tt after
unfolding register_external initial is_valid_nid_type nid_type contains insert reserved_table
registers = refl

Reach-Distinct_example :
    (after.allocated ≡ (folder.value ∷ []) ++ reverse reserved_table)
    × Distinct after.allocated
    × (allocated_count after ≡ length (folder.value ∷ []) + 14)
    × IsValid after
Reach-Distinct_example =
    Reach-Distinct (folder.value ∷ []) after (registered folder start registers)
