-- ===== src/Ramdisk/Create/Place.antt =====
-- What `get_next_entry` of kernelspace/discos.c gives: a place for an entry in a directory.
use file_system_toy_os.Prelude.{sub32, ℕ, ◌%◌, ◌<◌, ◌≡◌, ◌≢◌, ◌⊎◌, some}
use file_system_toy_os.Ramdisk.Memory.{CString, load16}
use file_system_toy_os.Ramdisk.Disk.{Disk, entry_address, inode_num_address}
use file_system_toy_os.Ramdisk.Bitmap.{new_block}
use file_system_toy_os.Ramdisk.Entry.{set_pointer}
use file_system_toy_os.Ramdisk.Create.Named.{IsAbsent}

-- A directory whose direct blocks hold no entry of the name.
pub record IsWithout (d : Disk) (cur : ℕ) (name : CString) : Type 0 where
  pub aligned : (i : ℕ) → i < 8 → (d.inodes cur).pointers i % 256 ≡ 0
  pub absent :
      (i : ℕ)
      → i < 8
      → (d.inodes cur).pointers i ≢ 0
      → IsAbsent d.memory name ((d.inodes cur).pointers i)

-- The direct block `i` is not there, or has an entry with no inode number.
abbrev pub HasRoom : Disk → ℕ → ℕ → Type 0
HasRoom d cur i =
    let block = (d.inodes cur).pointers i in
    (block ≡ 0)
    ⊎ ((j : ℕ) × (j < 16) × (load16 d.memory (inode_num_address (entry_address block j)) ≡ 0))

-- The entry is one of a block that was there, without an inode number, or the first of a new block
-- that has taken the place of a NULL pointer of `cur`.
pub record IsAdded (d d' : Disk) (cur e : ℕ) : Type 0 where
  pub index : ℕ
  pub block : ℕ
  pub between : Disk
  pub was_null : (d.inodes cur).pointers index ≡ 0
  pub new : new_block d ≡ some (block, between)
  pub placed : d' ≡ set_pointer between cur index block
  pub first : e ≡ entry_address block 0

abbrev pub IsObtained : Disk → Disk → ℕ → ℕ → Type 0
IsObtained d d' cur e =
    ((d' ≡ d) × (load16 d.memory (inode_num_address e) ≡ 0)) ⊎ IsAdded d d' cur e

-- A place for the entry, at the address `e`.
pub record IsPlace (d d' : Disk) (cur : ℕ) (name : CString) (e : ℕ) : Type 0 where
  pub without : IsWithout d' cur name
  pub block : ℕ
  pub slot : ℕ
  pub block_in : block < 8
  pub slot_in : slot < 16
  pub there : (d'.inodes cur).pointers block ≢ 0
  pub address : e ≡ entry_address ((d'.inodes cur).pointers block) slot
  pub types : (n : ℕ) → (d'.inodes n).type ≡ (d.inodes n).type
  pub size : (d'.inodes cur).size ≡ (d.inodes cur).size
  pub others : (n : ℕ) → n ≢ cur → d'.inodes n ≡ d.inodes n
  pub free_inodes : d'.free_inodes ≡ d.free_inodes
  pub free_blocks : (d'.free_blocks ≡ d.free_blocks) ⊎ (d'.free_blocks ≡ sub32 d.free_blocks 1)
  pub obtained : IsObtained d d' cur e
