-- ===== src/Ramdisk/Write.antt =====
-- `rd_write` of kernelspace/discos.c. `data` is the caller's buffer by index, and `num_bytes` is
-- taken to be at least 0.
pub mod Stages
pub mod Block
pub mod Direct
pub mod Rounds
use file_system_toy_os.Prelude.{
  ℕ, ◌+◌, ◌/◌, ◌%◌, Bool, true, false, ◌||◌, Option, none, some, ◌==◌, if◌then◌else◌, update, ℤ,
  pos, failure,
}
use file_system_toy_os.Prelude.Loops.{Step, next, done}
use file_system_toy_os.Ramdisk.Memory.{Mem}
use file_system_toy_os.Ramdisk.Disk.{Inode, Disk, FileObject, System, read_only, block_size}
use file_system_toy_os.Ramdisk.Bitmap.{is_dir}
use file_system_toy_os.Ramdisk.Table.{object_at, set_object, find_file_object}
use Stages.{Writing, write_direct, write_single, write_double}

-- The stages in turn, each from the state that the one before it left.
unfoldable pub write_stages : Mem → ℕ → ℕ → Writing → ℤ × Writing
write_stages content num_bytes n w = elim (write_direct content num_bytes n w) [
  | done r ↦ r
  | next w' ↦ elim (write_single content num_bytes n w') [
    | done r ↦ r
    | next w'' ↦ write_double content num_bytes n w''
  ]
]

unfoldable pub rd_write : System → ℕ → ℕ → Mem → ℕ → ℤ × System
rd_write s fd pid content num_bytes = elim (find_file_object s pid fd) [
  | none ↦ (failure, s)
  | some (t, i) ↦ elim (object_at s t i).inode_ptr [
    | none ↦ (failure, s)
    | some n ↦
        if is_dir (s.disk.inodes n).type
        then (failure, s)
        else if ((s.disk.inodes n).access == read_only) || ((object_at s t i).status == read_only)
        then (failure, s)
        else let (status, w) =
            write_stages content num_bytes n
              (record { disk = s.disk; cursor = (object_at s t i).cursor; written = 0 }) in
          (
            status,
            set_object (record s { disk = w.disk }) t i
                (record (object_at s t i) { cursor = w.cursor }),
          )
  ]
]
