-- ===== src/Ramdisk/Create/Tidy.antt =====
-- The directory that is searched when `rd_create` of kernelspace/discos.c has run.
use file_system_toy_os.Prelude.{none, ℕ, ◌<◌, ◌≡◌, ◌≢◌, refl, false, arith}
use file_system_toy_os.Ramdisk.Memory.{Mem, CString, streq, load16}
use file_system_toy_os.Ramdisk.Disk.{FileType, Disk, entry_address, inode_num_address}
use file_system_toy_os.Ramdisk.Bitmap.{allocate_inode}
use file_system_toy_os.Ramdisk.Lookup.{step_to}
use file_system_toy_os.Ramdisk.Tree.{enter}

-- The directory `n` has no indirect blocks, and none of its free entries bears the name.
pub record IsTidy (d : Disk) (n : ℕ) (name : CString) : Type 0 where
  pub no_single : (d.inodes n).single_indirect ≡ 0
  pub no_double : (d.inodes n).double_indirect ≡ 0
  pub unnamed :
      (i j : ℕ)
      → i < 8
      → j < 16
      → (d.inodes n).pointers i ≢ 0
      → load16 d.memory (inode_num_address (entry_address ((d.inodes n).pointers i) j)) ≡ 0
      → streq d.memory (entry_address ((d.inodes n).pointers i) j) name ≡ false

pub step_to_null : (m : Mem) (o : CString) (n q : ℕ) → q ≡ 0 → step_to m o n q ≡ none
unfolding step_to
step_to_null m o n q z = rw (z, step_to) refl

-- The inode of another file, or the pointers of the directory, when the entry is written.
pub inodes-enter :
    (d : Disk) (cur e k n : ℕ) (name : CString) (type : FileType) (mode : ℕ)
    → n ≢ k
    → let f = enter d cur e k name type mode in
      ((f.inodes n).pointers ≡ (d.inodes n).pointers)
      × ((f.inodes n).single_indirect ≡ (d.inodes n).single_indirect)
      × ((f.inodes n).double_indirect ≡ (d.inodes n).double_indirect)
unfolding enter allocate_inode
inodes-enter d cur e k n name type mode ne =
    (ground (arith, ne), ground (arith, ne), ground (arith, ne))
