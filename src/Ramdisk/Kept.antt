-- ===== src/Ramdisk/Kept.antt =====
-- What the operations of kernelspace/discos.c do to the disk, one write at a time: an invariant that
-- each such write keeps is kept by the operations.
pub mod WriteStages
pub mod Write
pub mod Entries
pub mod Create
use file_system_toy_os.Prelude.{ℕ, ◌≡◌, some}
use file_system_toy_os.Ramdisk.Memory.{Mem}
use file_system_toy_os.Ramdisk.Disk.{Inode, Disk, blank_inode}
use file_system_toy_os.Ramdisk.Bitmap.{new_block}
use file_system_toy_os.Ramdisk.Entry.{set_inode, set_pointer}

-- `P` is kept by writes to the memory, to an inode but for its direct blocks, and to the count of free
-- inodes; by a new inode; and by a new block, whether it becomes a direct block of an inode or not.
pub record IsKept (P : Disk → Type 0) : Type 0 where
  pub memory : (d : Disk) (m : Mem) → P d → P (record d { memory = m })
  pub free_inodes : (d : Disk) (k : ℕ) → P d → P (record d { free_inodes = k })
  pub inode :
      (d : Disk) (n : ℕ) (node : Inode)
      → node.pointers ≡ (d.inodes n).pointers
      → P d
      → P (set_inode d n node)
  pub blank : (d : Disk) (n : ℕ) → P d → P (set_inode d n blank_inode)
  pub new : (d : Disk) (p : ℕ) (d' : Disk) → P d → new_block d ≡ some (p, d') → P d'
  pub placed :
      (d : Disk) (n i p : ℕ) (d' : Disk)
      → P d
      → new_block d ≡ some (p, d')
      → P (set_pointer d' n i p)
