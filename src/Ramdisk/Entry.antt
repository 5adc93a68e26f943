-- ===== src/Ramdisk/Entry.antt =====
-- The next free entry of a directory: `get_next_entry` and its helpers of kernelspace/discos.c.
-- Each returns the entry's address, `none` for NULL, and the disk, on which it may have allocated.
use file_system_toy_os.Prelude.{
  ℕ, ◌+◌, ◌-◌, ◌*◌, ◌/◌, ◌%◌, ◌&&◌, Option, none, some, ltb, leb, ◌==◌, if◌then◌else◌, update,
}
use file_system_toy_os.Prelude.Loops.{Step, next, done, find_from, first_some}
use file_system_toy_os.Ramdisk.Memory.{Mem, load16, store32}
use file_system_toy_os.Ramdisk.Disk.{
  Inode, Disk, block_size, entry_address, inode_num_address, index_block, inode_num_direct_ptr,
  entries_per_block,
}
use file_system_toy_os.Ramdisk.Bitmap.{new_block}

-- The first entry of a block whose `inode_num` is 0.
unfoldable pub get_next_dir_entry : Mem → ℕ → Option ℕ
get_next_dir_entry m block =
    elim (find_from entries_per_block 0
      (λ j. load16 m (inode_num_address (entry_address block j)) == 0)) [
        | none ↦ none
        | some j ↦ some (entry_address block j)
      ]

-- `index->index_block[i] = block`
unfoldable pub set_index_block : Disk → ℕ → ℕ → ℕ → Disk
set_index_block d index i block = record d { memory = store32 d.memory (index + 4 * i) block }

unfoldable pub get_next_dir_entry_single : Disk → ℕ → ℕ → Option ℕ × Disk
get_next_dir_entry_single d single seg =
    if index_block d.memory single seg == 0
    then elim (new_block d) [
      | none ↦ (none, d)
      | some (block, d') ↦ (some (entry_address block 0), set_index_block d' single seg block)
    ]
    else (get_next_dir_entry d.memory (index_block d.memory single seg), d)

-- A new index block is used, and is not entered in the double indirect block.
unfoldable pub get_next_dir_entry_double : Disk → ℕ → ℕ → Option ℕ × Disk
get_next_dir_entry_double d double segment =
    let block = index_block d.memory double (segment / 64) in
    if block == 0
    then elim (new_block d) [
      | none ↦ (none, d)
      | some (block', d') ↦ get_next_dir_entry_single d' block' (segment % 64)
    ]
    else get_next_dir_entry_single d block (segment % 64)

abbrev pub set_inode : Disk → ℕ → Inode → Disk
set_inode d n node = record d { inodes = update d.inodes n node }

-- `node->pointers[i] = block`
abbrev pub set_pointer : Disk → ℕ → ℕ → ℕ → Disk
set_pointer d n i block =
    set_inode d n (record (d.inodes n) { pointers = update (d.inodes n).pointers i block })

-- A round over the direct blocks, with what the function returns in it, if it does.
unfoldable pub entry_in_direct : Disk → ℕ → ℕ → Option (Option ℕ × Disk)
entry_in_direct d n i =
    let block = (d.inodes n).pointers i in
    if block == 0
    then elim (new_block d) [
      | none ↦ some (none, d)
      | some (block', d') ↦ some (some (entry_address block' 0), set_pointer d' n i block')
    ]
    else elim (get_next_dir_entry d.memory block) [
      | none ↦ none
      | some entry ↦ some (some entry, d)
    ]

-- The part for blocks 8 to 71: it returns, or goes on to the part behind it.
abbrev pub or_go_on : Option ℕ × Disk → Step Disk (Option ℕ × Disk)
or_go_on (some entry, d) = done (some entry, d)
or_go_on (none, d) = next d

unfoldable pub entry_in_single_part : Disk → ℕ → ℕ → Step Disk (Option ℕ × Disk)
entry_in_single_part d n seg =
    if (d.inodes n).single_indirect == 0
    then elim (new_block d) [
      | none ↦ done (none, d)
      | some (index, d') ↦ or_go_on (
          get_next_dir_entry_single
            (set_inode d' n (record (d'.inodes n) { single_indirect = index })) index (seg - 8))
    ]
    else or_go_on (get_next_dir_entry_single d (d.inodes n).single_indirect (seg - 8))

unfoldable pub entry_in_double_part : Disk → ℕ → ℕ → Option ℕ × Disk
entry_in_double_part d n seg =
    if (d.inodes n).double_indirect == 0
    then elim (new_block d) [
      | none ↦ (none, d)
      | some (index, d') ↦
          get_next_dir_entry_double
            (set_inode d' n (record (d'.inodes n) { double_indirect = index })) index (seg - 72)
    ]
    else get_next_dir_entry_double d (d.inodes n).double_indirect (seg - 72)

-- `seg` is 72 once the single indirect part has been tried in vain.
abbrev pub after_single : ℕ → Step Disk (Option ℕ × Disk) → Step (ℕ × Disk) (Option ℕ × Disk)
after_single seg (done r) = done r
after_single seg (next d) = next (72, d)

unfoldable pub after_direct : Disk → ℕ → ℕ → Option ℕ × Disk
after_direct d n seg =
    let single =
      if leb 8 seg && ltb seg 72
      then after_single seg (entry_in_single_part d n seg)
      else next (seg, d) in
    elim single [
      | done r ↦ r
      | next (seg', d') ↦
          if leb 72 seg' && ltb seg' 4168 then entry_in_double_part d' n seg' else (none, d')
    ]

unfoldable pub get_next_entry : Disk → ℕ → Option ℕ × Disk
get_next_entry d n =
    let seg = (d.inodes n).size / block_size in
    elim (first_some (inode_num_direct_ptr - seg) seg (entry_in_direct d n)) [
      | some r ↦ r
      | none ↦ after_direct d n seg
    ]
