-- ===== src/Ramdisk/Clear.antt =====
-- Giving blocks and entries back: `my_clear_inode`, its helpers and `clear_entry_in_current_dir`
-- of kernelspace/discos.c.
pub mod Counts
pub mod Names
pub mod Others
pub mod Rounds
pub mod Sweep
pub mod Drift
use file_system_toy_os.Prelude.{ℕ, ◌+◌, Bool, true, false, ◌&&◌, ◌==◌, if◌then◌else◌, add32}
use file_system_toy_os.Prelude.Loops.{for_range}
use file_system_toy_os.Ramdisk.Memory.{Mem, CString, load16, streq, clear_bytes}
use file_system_toy_os.Ramdisk.Disk.{
  Disk, block_size, entry_address, inode_num_address, index_block, inode_num_direct_ptr,
  entries_per_block, pointers_per_block,
}
use file_system_toy_os.Ramdisk.Bitmap.{clear_bitmap, block_number}
use file_system_toy_os.Ramdisk.Entry.{set_index_block, set_inode, set_pointer}

-- `clear_bitmap(discos->bitmap, block - &discos->data_blocks[0])`
unfoldable pub unmark : Disk → ℕ → Disk
unmark d block = record d { bitmap = (clear_bitmap d.bitmap (block_number block)).1 }

-- Unmark a block, zero it and count it as free.
unfoldable pub release_block : Disk → ℕ → Disk
release_block d block = record (unmark d block) {
  memory = clear_bytes d.memory block block_size;
  free_blocks = add32 d.free_blocks 1;
}

unfoldable pub clear_inode_single_indirect : Disk → ℕ → Disk
clear_inode_single_indirect d single =
    release_block
      (for_range pointers_per_block 0
        (λ i d'.
          let block = index_block d'.memory single i in
          if block == 0 then d' else release_block d' block)
        d)
      single

unfoldable pub clear_inode_double_indirect : Disk → ℕ → Disk
clear_inode_double_indirect d double =
    release_block
      (for_range pointers_per_block 0
        (λ i d'.
          let single = index_block d'.memory double i in
          if single == 0 then d' else clear_inode_single_indirect d' single)
        d)
      double

-- The inode itself is left as it is.
unfoldable pub my_clear_inode : Disk → ℕ → Disk
my_clear_inode d n =
    let node = d.inodes n in
    let direct =
      for_range inode_num_direct_ptr 0
        (λ i d'. if node.pointers i == 0 then d' else release_block d' (node.pointers i)) d in
    let single =
      if node.single_indirect == 0
      then direct
      else clear_inode_single_indirect direct node.single_indirect in
    if node.double_indirect == 0
    then single
    else clear_inode_double_indirect single node.double_indirect

-- The loop over the entries of one block: the memory, `nonEmptyEntries` and `findEntry`.
pub record BlockScan : Type 0 where
  pub memory : Mem
  pub non_empty_entries : ℕ
  pub find_entry : Bool

unfoldable pub clear_entry : CString → ℕ → ℕ → BlockScan → BlockScan
clear_entry filename block j s =
    let entry = entry_address block j in
    let count =
      if load16 s.memory (inode_num_address entry) == 0
      then s.non_empty_entries
      else s.non_empty_entries + 1 in
    if streq s.memory entry filename
    then record {
      memory = clear_bytes s.memory entry 16;
      non_empty_entries = count;
      find_entry = true;
    }
    else record s { non_empty_entries = count }

unfoldable pub clear_entries : CString → ℕ → Mem → Bool → BlockScan
clear_entries filename block m find =
    for_range entries_per_block 0 (clear_entry filename block)
      (record { memory = m; non_empty_entries = 0; find_entry = find })

-- The state of the outer loops: the disk and `findEntry`.
pub record Clearing : Type 0 where
  pub disk : Disk
  pub find_entry : Bool

-- A round over the direct blocks. `findEntry` is as the rounds before left it.
unfoldable pub clear_in_direct : CString → ℕ → ℕ → Clearing → Clearing
clear_in_direct filename n i s =
    let block = (s.disk.inodes n).pointers i in
    if block == 0
    then s
    else let scan = clear_entries filename block s.disk.memory s.find_entry in
      let scanned = record (s.disk) { memory = scan.memory } in
      if scan.find_entry && (scan.non_empty_entries == 1)
      then record { disk = set_pointer (unmark scanned block) n i 0; find_entry = scan.find_entry }
      else record { disk = scanned; find_entry = scan.find_entry }

-- The same loop over an index block counts its blocks, and notes that one has gone.
pub record IndexClearing : Type 0 where
  pub disk : Disk
  pub find_entry : Bool
  pub non_empty_blocks : ℕ
  pub last_entry : Bool

unfoldable pub clear_in_single : CString → ℕ → ℕ → IndexClearing → IndexClearing
clear_in_single filename single i s =
    let block = index_block s.disk.memory single i in
    if block == 0
    then s
    else let scan = clear_entries filename block s.disk.memory s.find_entry in
      let scanned = record (s.disk) { memory = scan.memory } in
      if scan.find_entry && (scan.non_empty_entries == 1)
      then record {
        disk = set_index_block (unmark scanned (index_block scan.memory single i)) single i 0;
        find_entry = scan.find_entry;
        non_empty_blocks = s.non_empty_blocks + 1;
        last_entry = true;
      }
      else record {
        disk = scanned;
        find_entry = scan.find_entry;
        non_empty_blocks = s.non_empty_blocks + 1;
        last_entry = s.last_entry;
      }

unfoldable pub clear_single_part : CString → ℕ → Disk → Disk
clear_single_part filename n d =
    let single = (d.inodes n).single_indirect in
    let start : IndexClearing = record {
      disk = d;
      find_entry = false;
      non_empty_blocks = 0;
      last_entry = false;
    } in
    let s = for_range pointers_per_block 0 (clear_in_single filename single) start in
    if s.find_entry && ((s.non_empty_blocks == 1) && s.last_entry)
    then set_inode (unmark s.disk single) n (record (s.disk.inodes n) { single_indirect = 0 })
    else s.disk

-- Every path returns 0. The part for double indirect blocks searches and changes nothing.
unfoldable pub clear_entry_in_current_dir : Disk → ℕ → CString → Disk
clear_entry_in_current_dir d n filename =
    let start : Clearing = record { disk = d; find_entry = false } in
    let s = for_range inode_num_direct_ptr 0 (clear_in_direct filename n) start in
    if s.find_entry
    then s.disk
    else if (s.disk.inodes n).single_indirect == 0
    then s.disk
    else clear_single_part filename n s.disk
