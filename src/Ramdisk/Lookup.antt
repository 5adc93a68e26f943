-- ===== src/Ramdisk/Lookup.antt =====
-- Finding a name in a directory and a path in the tree: `my_find_inode_number` and
-- `find_entry_in_current_dir` of kernelspace/discos.c.
pub mod Resolve
pub mod Unchanged
use file_system_toy_os.Prelude.{ℕ, Option, none, some, List, [], ◌∷◌, ◌==◌, if◌then◌else◌}
use file_system_toy_os.Prelude.Loops.{find_from, first_some}
use file_system_toy_os.Ramdisk.Memory.{Mem, CString, load16, streq}
use file_system_toy_os.Ramdisk.Disk.{
  Disk, entry_address, inode_num_address, index_block, inode_num_direct_ptr, entries_per_block,
  pointers_per_block,
}
use file_system_toy_os.Ramdisk.Path.{same, drop, tokens, root}

-- The address of the first entry of a block whose name is `found`.
unfoldable pub find_in_block : Mem → CString → ℕ → Option ℕ
find_in_block m found block =
    elim (find_from entries_per_block 0 (λ j. streq m (entry_address block j) found)) [
      | none ↦ none
      | some j ↦ some (entry_address block j)
    ]

-- A round of the search: `cur_node_num` after the block, if it is no longer `pre`.
unfoldable pub step_to : Mem → CString → ℕ → ℕ → Option ℕ
step_to m found pre block = if block == 0 then none else elim (find_in_block m found block) [
  | none ↦ none
  | some entry ↦
      let cur = load16 m (inode_num_address entry) in if cur == pre then none else some cur
]

unfoldable pub find_in_direct : Disk → CString → ℕ → Option ℕ
find_in_direct d found pre =
    first_some inode_num_direct_ptr 0 (λ i. step_to d.memory found pre ((d.inodes pre).pointers i))

-- The 64 blocks that an index block names, 0 for a NULL index block.
unfoldable pub find_in_single : Disk → CString → ℕ → ℕ → Option ℕ
find_in_single d found pre single =
    if single == 0
    then none
    else first_some pointers_per_block 0
        (λ i. step_to d.memory found pre (index_block d.memory single i))

unfoldable pub find_in_double : Disk → CString → ℕ → ℕ → Option ℕ
find_in_double d found pre double =
    if double == 0
    then none
    else first_some pointers_per_block 0
        (λ k. find_in_single d found pre (index_block d.memory double k))

-- One turn of the `while` loop: the inode of the component `found` in the directory `pre`.
unfoldable pub find_component : Disk → CString → ℕ → Option ℕ
find_component d found pre = elim (find_in_direct d found pre) [
  | some cur ↦ some cur
  | none ↦ elim (find_in_single d found pre (d.inodes pre).single_indirect) [
    | some cur ↦ some cur
    | none ↦ find_in_double d found pre (d.inodes pre).double_indirect
  ]
]

-- The `while` loop over the components; `none` is the status -1.
unfoldable pub walk : Disk → List CString → ℕ → Option ℕ
walk d [] cur = some cur
walk d (found ∷ rest) cur = elim (find_component d found cur) [
  | none ↦ none
  | some next ↦ walk d rest next
]

-- `temp_pathname++` steps over the first byte, whatever it is.
unfoldable pub my_find_inode_number : Disk → CString → Option ℕ
my_find_inode_number d pathname =
    if same pathname root then some 0 else walk d (tokens (drop 1 pathname)) 0

-- The entry of a name in a directory, in the order direct, single indirect, double indirect.
abbrev entry_in : Mem → CString → ℕ → Option ℕ
entry_in m name block = if block == 0 then none else find_in_block m name block

abbrev entry_in_single : Mem → CString → ℕ → Option ℕ
entry_in_single m name single =
    if single == 0
    then none
    else first_some pointers_per_block 0 (λ i. entry_in m name (index_block m single i))

unfoldable pub find_entry_in_current_dir : Disk → ℕ → CString → Option ℕ
find_entry_in_current_dir d node name =
    elim (first_some inode_num_direct_ptr 0
      (λ i. entry_in d.memory name ((d.inodes node).pointers i))) [
        | some entry ↦ some entry
        | none ↦ elim (entry_in_single d.memory name (d.inodes node).single_indirect) [
          | some entry ↦ some entry
          | none ↦
              if (d.inodes node).double_indirect == 0
              then none
              else first_some pointers_per_block 0 (λ i.
                entry_in_single d.memory name
                  (index_block d.memory (d.inodes node).double_indirect i))
        ]
      ]
