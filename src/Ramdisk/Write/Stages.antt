-- ===== src/Ramdisk/Write/Stages.antt =====
-- The three loops of `rd_write` in kernelspace/discos.c: direct, single and double indirect blocks.
use file_system_toy_os.Prelude.{
  ℕ, ◌+◌, ◌-◌, ◌/◌, ◌%◌, ◌&&◌, Option, none, some, ltb, leb, ◌==◌, if◌then◌else◌, update, ℤ, pos,
  failure, add32,
}
use file_system_toy_os.Prelude.Loops.{Step, next, done, for_until}
use file_system_toy_os.Ramdisk.Memory.{Mem}
use file_system_toy_os.Ramdisk.Disk.{
  Disk, block_size, index_block, inode_num_direct_ptr, pointers_per_block,
}
use file_system_toy_os.Ramdisk.Bitmap.{new_block}
use file_system_toy_os.Ramdisk.Entry.{set_index_block, set_inode, set_pointer}

-- The disk, the cursor of the file object and `written_bytes`.
pub record Writing : Type 0 where
  pub disk : Disk
  pub cursor : ℕ
  pub written : ℕ

-- A loop goes on, or the function returns.
abbrev pub Outcome : Type 0
Outcome = Step Writing (ℤ × Writing)

-- One byte: a NUL in the data is passed over, with the place that it would have gone to.
unfoldable pub write_byte : Mem → ℕ → ℕ → ℕ → ℕ → Writing → Outcome
write_byte content num_bytes n block j w =
    if content w.written == 0
    then next w
    else let grown =
        set_inode
          (record (w.disk) { memory = update w.disk.memory (block + j) (content w.written) }) n
          (record (w.disk.inodes n) { size = add32 (w.disk.inodes n).size 1 }) in
      let w' : Writing = record {
        disk = grown;
        cursor = add32 w.cursor 1;
        written = w.written + 1;
      } in
      if w.written + 1 == num_bytes then done (pos (w.written + 1), w') else next w'

-- `for (j = offset; j < BLOCK_SIZE; j++)`
unfoldable pub write_block : Mem → ℕ → ℕ → ℕ → ℕ → Writing → Outcome
write_block content num_bytes n block offset w =
    for_until (block_size - offset) offset (write_byte content num_bytes n block) w

-- A round over the direct blocks; a NULL pointer gets a new block.
unfoldable pub write_direct_block : Mem → ℕ → ℕ → ℕ → ℕ → Writing → Outcome
write_direct_block content num_bytes n offset i w =
    let block = (w.disk.inodes n).pointers i in
    if block == 0
    then elim (new_block w.disk) [
      | none ↦ done (failure, w)
      | some (block', d) ↦
          write_block content num_bytes n block' offset
            (record w { disk = set_pointer d n i block' })
    ]
    else write_block content num_bytes n block offset w

-- `offset` is the same in every block.
unfoldable pub write_direct : Mem → ℕ → ℕ → Writing → Outcome
write_direct content num_bytes n w =
    let seg = w.cursor / block_size in
    for_until (inode_num_direct_ptr - seg) seg
      (write_direct_block content num_bytes n (w.cursor % block_size)) w

-- A round over the blocks of an index block.
unfoldable pub write_index_block : Mem → ℕ → ℕ → ℕ → ℕ → ℕ → Writing → Outcome
write_index_block content num_bytes n index offset i w =
    let block = index_block w.disk.memory index i in
    if block == 0
    then elim (new_block w.disk) [
      | none ↦ done (failure, w)
      | some (block', d) ↦
          write_block content num_bytes n block' offset
            (record w { disk = set_index_block d index i block' })
    ]
    else write_block content num_bytes n block offset w

-- The single indirect block of the inode, allocated if there is none.
unfoldable pub single_of : ℕ → Writing → Option (ℕ × Writing)
single_of n w =
    if (w.disk.inodes n).single_indirect == 0
    then elim (new_block w.disk) [
      | none ↦ none
      | some (index, d) ↦ some (
        index,
        record w { disk = set_inode d n (record (d.inodes n) { single_indirect = index }) },
      )
    ]
    else some ((w.disk.inodes n).single_indirect, w)

unfoldable pub double_of : ℕ → Writing → Option (ℕ × Writing)
double_of n w =
    if (w.disk.inodes n).double_indirect == 0
    then elim (new_block w.disk) [
      | none ↦ none
      | some (index, d) ↦ some (
        index,
        record w { disk = set_inode d n (record (d.inodes n) { double_indirect = index }) },
      )
    ]
    else some ((w.disk.inodes n).double_indirect, w)

-- From here on `seg` and `offset` come from the size of the file, not from the cursor.
unfoldable pub write_single : Mem → ℕ → ℕ → Writing → Outcome
write_single content num_bytes n w =
    let size = (w.disk.inodes n).size in
    let seg = size / block_size in
    if leb 8 seg && ltb seg 72
    then elim (single_of n w) [
      | none ↦ done (failure, w)
      | some (index, w') ↦
          for_until (pointers_per_block - (seg - 8)) (seg - 8)
            (write_index_block content num_bytes n index (size % block_size)) w'
    ]
    else next w

-- The index block in slot `i` of the double indirect block, allocated if there is none.
unfoldable pub index_of : ℕ → ℕ → Writing → Option (ℕ × Writing)
index_of double i w =
    let index = index_block w.disk.memory double i in
    if index == 0
    then elim (new_block w.disk) [
      | none ↦ none
      | some (index', d) ↦ some (index', record w { disk = set_index_block d double i index' })
    ]
    else some (index, w)

-- A round over the double indirect block; `seg` is divided by 64 in every round.
unfoldable pub write_double_block :
    Mem → ℕ → ℕ → ℕ → ℕ → ℕ → Writing × ℕ → Step (Writing × ℕ) (ℤ × Writing)
write_double_block content num_bytes n double offset i (w, seg) = elim (index_of double i w) [
  | none ↦ done (failure, w)
  | some (index, w') ↦
      elim (for_until (pointers_per_block - seg / 64) (seg / 64)
        (write_index_block content num_bytes n index offset) w') [
          | done r ↦ done r
          | next w'' ↦ next (w'', seg / 64)
        ]
]

-- The last stage, and the returns at the end of the function.
unfoldable pub write_double : Mem → ℕ → ℕ → Writing → ℤ × Writing
write_double content num_bytes n w =
    let size = (w.disk.inodes n).size in
    let seg = size / block_size in
    if leb 72 seg && ltb seg 4168
    then elim (double_of n w) [
      | none ↦ (failure, w)
      | some (double, w') ↦
          elim (for_until pointers_per_block 0
            (write_double_block content num_bytes n double (size % block_size)) (w', seg - 72)) [
              | done r ↦ r
              | next (w'', _) ↦ (pos 0, w'')
            ]
    ]
    else (if leb 4168 seg then pos w.written else pos 0, w)
