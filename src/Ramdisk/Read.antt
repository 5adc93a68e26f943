-- ===== src/Ramdisk/Read.antt =====
-- `rd_read` of kernelspace/discos.c.
pub mod Stages
pub mod Block
pub mod Rounds
pub mod Direct
use file_system_toy_os.Prelude.{
  ℕ, zero, suc, ◌+◌, ◌-◌, ◌/◌, ◌%◌, Bool, true, false, Option, none, some, ltb, ◌==◌, if◌then◌else◌,
  ℤ, pos, failure, sub32,
}
use file_system_toy_os.Ramdisk.Memory.{Mem, clear_bytes}
use file_system_toy_os.Ramdisk.Disk.{Inode, Disk, FileObject, System}
use file_system_toy_os.Ramdisk.Table.{object_at, set_object}
use file_system_toy_os.Ramdisk.File.{preprocess}
use Stages.{Reading, read_direct, read_single, read_double}

unfoldable pub read_stages : Disk → ℕ → ℕ → Reading → Reading
read_stages d to_read n r =
    read_double d to_read n (read_single d to_read n (read_direct d to_read n r))

-- `copy_to_user(dst, src, n)` is the kernel's: `copy user dst buffer src n` is the user's memory
-- after it.
module _ (copy : Mem → ℕ → Mem → ℕ → ℕ → Mem) where
  -- The `while (flag)` loop, a page at a time; each round but the last takes 4096 off `left`.
  unfoldable pub copy_pages : ℕ → Mem → ℕ → Mem → ℕ → ℕ → Option Mem
  copy_pages zero user dst buffer src left = none
  copy_pages (suc fuel) user dst buffer src left =
      let rest =
        copy_pages fuel (copy user dst buffer src 4096) (dst + 4096) buffer (src + 4096)
          (left - 4096) in
      if ltb 4096 left then rest else some (copy user dst buffer src left)

  -- The status, the system and the user's memory. `memset` clears `sizeof(int)` bytes. `none` is
  -- a copy that ran out of its rounds, of which `num_bytes + 1` are given.
  unfoldable pub rd_read : System → ℕ → Mem → ℕ → ℕ → ℕ → Option (ℤ × System × Mem)
  rd_read s fd user address num_bytes pid = elim (preprocess s fd pid) [
    | none ↦ some (failure, s, user)
    | some (t, i, n) ↦
        let cursor = (object_at s t i).cursor in
        if ltb (sub32 (s.disk.inodes n).size cursor) num_bytes
        then some (failure, s, user)
        else let r =
            read_stages s.disk num_bytes n (record {
              buffer = clear_bytes s.read_buffer 0 4;
              cursor = cursor;
              bytes_read = 0;
            }) in
          elim (copy_pages (num_bytes + 1) user address r.buffer 0 num_bytes) [
            | none ↦ none
            | some user' ↦ some (
              pos r.bytes_read,
              set_object (record s { read_buffer = r.buffer }) t i
                  (record (object_at s t i) { cursor = r.cursor }),
              user',
            )
          ]
  ]
