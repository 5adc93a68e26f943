-- ===== src/Ramdisk/Write/Direct.antt =====
-- `rd_write` of kernelspace/discos.c, on data without NULs that goes to direct blocks.
use file_system_toy_os.Prelude.{
  ◌⊎◌, ◌*◌, ℕ, ◌+◌, ◌-◌, ◌/◌, ◌%◌, ◌^◌, ◌≤◌, ◌<◌, ◌≡◌, ◌≢◌, false, some, arith, pos, ne→==,
}
use file_system_toy_os.Ramdisk.Memory.{Mem}
use file_system_toy_os.Ramdisk.Disk.{System, read_only}
use file_system_toy_os.Ramdisk.Bitmap.{is_dir}
use file_system_toy_os.Ramdisk.Table.{object_at, set_object, find_file_object}
use file_system_toy_os.Ramdisk.Write.Stages.{Writing, write_direct}
use file_system_toy_os.Ramdisk.Write.{write_stages, rd_write}
use file_system_toy_os.Ramdisk.Bitmap.Allocate.{IsCounted}
use file_system_toy_os.Ramdisk.Contents.{IsLaidOut}
use file_system_toy_os.Ramdisk.Contents.Store.{IsStored}
use file_system_toy_os.Ramdisk.Write.Rounds.{IsReady, rounds-IsStored}

-- The file object in slot `i` of table `t` is open for writing on the regular file `n`, and
-- `num_bytes` bytes that are no NULs fit in the direct blocks from its cursor on. The code starts
-- at the same offset in each block, so they end in the block of the cursor, or the cursor is at the
-- start of it. There are free blocks for the bytes.
pub record CanWrite (s : System) (fd pid t i n : ℕ) (content : Mem) (num_bytes : ℕ) : Type 0 where
  pub found : find_file_object s pid fd ≡ some (t, i)
  pub inode : (object_at s t i).inode_ptr ≡ some n
  pub regular : is_dir (s.disk.inodes n).type ≡ false
  pub file_rights : (s.disk.inodes n).access ≢ read_only
  pub open_rights : (object_at s t i).status ≢ read_only
  pub positive : 0 < num_bytes
  pub within : (object_at s t i).cursor + num_bytes ≤ 2048
  pub aligned :
      ((object_at s t i).cursor % 256 + num_bytes ≤ 256) ⊎ ((object_at s t i).cursor % 256 ≡ 0)
  pub no_nul : (k : ℕ) → k < num_bytes → content k ≢ 0
  pub room : (s.disk.inodes n).size + num_bytes < 2 ^ 32
  pub laid : IsLaidOut s.disk n
  pub counted : IsCounted s.disk
  pub free : num_bytes ≤ 256 * s.disk.free_blocks

-- The outcome of a write from the state `w` that takes all the bytes.
pub record WritesAll (s : System) (fd pid t i n : ℕ) (content : Mem) (num_bytes : ℕ)
    (w w' : Writing) : Type 0 where
  pub returns : rd_write s fd pid content num_bytes ≡ (
    pos num_bytes,
    set_object (record s { disk = w'.disk }) t i (record (object_at s t i) { cursor = w'.cursor }),
  )
  pub effect : IsStored content n num_bytes w w'

module _ {s : System} (fd pid t i n : ℕ) (content : Mem) (num_bytes : ℕ)
    (h : CanWrite s fd pid t i n content num_bytes) where
  abbrev cursor : ℕ
  cursor = (object_at s t i).cursor

  -- What the stages start from.
  abbrev pub begin : Writing
  begin = record { disk = s.disk; cursor = cursor; written = 0 }

  ready : IsReady content num_bytes n (cursor % 256) h.no_nul (cursor / 256) num_bytes begin
  ready = record {
    cursor = omega arith;
    written = omega arith;
    positive = h.positive;
    within = omega (arith, h.within);
    fits = h.aligned;
    size = h.room;
    laid = h.laid;
    counted = h.counted;
    free = h.free;
  }

  write_stages-IsStored :
      (w' : Writing) × (write_stages content num_bytes n begin ≡ (pos num_bytes, w'))
      × IsStored content n num_bytes begin w'
  unfolding write_stages write_direct
  write_stages-IsStored =
      let (w', runs, stored) =
        rounds-IsStored content num_bytes n (cursor % 256) h.no_nul (8 - cursor / 256)
          (cursor / 256) num_bytes begin (omega (arith, h.within, h.positive)) ready in
      (w', rw (runs, write_stages), stored)

  -- For a file object that is found, open for writing on a regular file with rights to write,
  -- and num_bytes > 0 bytes without NULs that fit in the first 2048 of the file from the cursor
  -- on, and either end in the block of the cursor or start at the start of a block; with the
  -- file's direct blocks marked and all different, the count of free blocks right and enough
  -- for the bytes, and a size that stays below 2^32 (CanWrite): rd_write, over as many direct
  -- blocks as it takes, new ones included, returns num_bytes and adds it to the cursor and to
  -- the size of the file, also for bytes that overwrite others of the file, which is not the
  -- number of its bytes then; the file then reads as before with the bytes in place at the
  -- cursor, blocks not there reading as zeros; its direct blocks are marked and all different,
  -- the count is right, every block it gained was free, and no byte of a block that was taken
  -- and is none of its direct blocks, and no other inode, has changed (IsStored).
  pub rd_write_lem : (w' : Writing) × WritesAll s fd pid t i n content num_bytes begin w'
  unfolding rd_write
  rd_write_lem =
      let (w', runs, stored) = write_stages-IsStored in
      (
        w',
        record {
          returns =
              rw
                (
                  h.found,
                  h.inode,
                  h.regular,
                  ne→== _ _ h.file_rights,
                  ne→== _ _ h.open_rights,
                  runs,
                  rd_write,
                )
                (rw h.inode);
          effect = stored;
        },
      )
