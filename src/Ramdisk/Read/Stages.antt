-- ===== src/Ramdisk/Read/Stages.antt =====
-- The three loops of `rd_read` in kernelspace/discos.c: direct, single and double indirect blocks.
use file_system_toy_os.Prelude.{
  ℕ, ◌+◌, ◌-◌, ◌/◌, ◌%◌, ◌&&◌, ltb, leb, ◌==◌, if◌then◌else◌, update, add32,
}
use file_system_toy_os.Prelude.Loops.{Step, next, done, for_until}
use file_system_toy_os.Ramdisk.Memory.{Mem}
use file_system_toy_os.Ramdisk.Disk.{
  Disk, block_size, index_block, inode_num_direct_ptr, pointers_per_block,
}

-- `read_buffer`, the cursor of the file object and `bytes_read`.
pub record Reading : Type 0 where
  pub buffer : Mem
  pub cursor : ℕ
  pub bytes_read : ℕ

-- A loop goes on, or is left because all bytes have been read.
abbrev pub Progress : Type 0
Progress = Step Reading Reading

-- One byte: a NUL in the block is passed over.
unfoldable pub read_byte : Mem → ℕ → ℕ → ℕ → Reading → Progress
read_byte m to_read block j r =
    if m (block + j) == 0
    then next r
    else let r' : Reading = record {
      buffer = update r.buffer r.bytes_read (m (block + j));
      cursor = add32 r.cursor 1;
      bytes_read = r.bytes_read + 1;
    } in
      if r.bytes_read + 1 == to_read then done r' else next r'

-- The test behind each inner loop.
abbrev pub stop_when_read : ℕ → Reading → Progress
stop_when_read to_read r = if r.bytes_read == to_read then done r else next r

-- `break` leaves the inner loop, and the test behind it the outer one.
abbrev pub leave_inner : ℕ → Progress → Progress
leave_inner to_read (done r) = stop_when_read to_read r
leave_inner to_read (next r) = stop_when_read to_read r

-- A round over blocks: a NULL block is passed over.
unfoldable pub read_block : Mem → ℕ → ℕ → ℕ → Reading → Progress
read_block m to_read offset block r =
    if block == 0
    then stop_when_read to_read r
    else leave_inner to_read (for_until (block_size - offset) offset (read_byte m to_read block) r)

-- The state with which a loop was left or ran out.
abbrev pub ended : Progress → Reading
ended (next r) = r
ended (done r) = r

unfoldable pub read_direct : Disk → ℕ → ℕ → Reading → Reading
read_direct d to_read n r =
    let seg = r.cursor / block_size in
    ended (
      for_until (inode_num_direct_ptr - seg) seg
        (λ i. read_block d.memory to_read (r.cursor % block_size) ((d.inodes n).pointers i)) r)

unfoldable pub read_single : Disk → ℕ → ℕ → Reading → Reading
read_single d to_read n r =
    let seg = r.cursor / block_size in
    let single = (d.inodes n).single_indirect in
    if ltb r.bytes_read to_read && (leb 8 seg && ltb seg 72)
    then (if single == 0
        then r
        else ended (
            for_until (pointers_per_block - (seg - 8)) (seg - 8)
              (λ i.
                read_block d.memory to_read (r.cursor % block_size) (index_block d.memory single i))
              r))
    else r

-- A round over the double indirect block; `seg` is divided by 64 in every round that finds one.
unfoldable pub read_double_block :
    Mem → ℕ → ℕ → ℕ → ℕ → Reading × ℕ → Step (Reading × ℕ) (Reading × ℕ)
read_double_block m to_read offset double i (r, seg) =
    let single = index_block m double i in
    let inner =
      for_until (pointers_per_block - seg / 64) (seg / 64)
        (λ j. read_block m to_read offset (index_block m single j)) r in
    let r' = if single == 0 then r else ended inner in
    let seg' = if single == 0 then seg else seg / 64 in
    if r'.bytes_read == to_read then done (r', seg') else next (r', seg')

abbrev double_ended : Step (Reading × ℕ) (Reading × ℕ) → Reading
double_ended (next (r, seg)) = r
double_ended (done (r, seg)) = r

unfoldable pub read_double : Disk → ℕ → ℕ → Reading → Reading
read_double d to_read n r =
    let seg = r.cursor / block_size in
    let double = (d.inodes n).double_indirect in
    if ltb r.bytes_read to_read && (leb 72 seg && ltb seg 4168)
    then (if double == 0
        then r
        else double_ended (
            for_until pointers_per_block 0
              (read_double_block d.memory to_read (r.cursor % block_size) double) (r, seg - 72)))
    else r
