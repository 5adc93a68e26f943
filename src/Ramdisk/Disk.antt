-- ===== src/Ramdisk/Disk.antt =====
-- The structures of Jiaqian-Ramdisk-Final/kernelspace/discos.h: the file system `*discos` and the
-- file descriptor tables `*p_fd_table`.
use file_system_toy_os.Prelude.{ℕ, ◌+◌, ◌*◌, Option, none}
use file_system_toy_os.Ramdisk.Memory.{Mem, load32}

abbrev pub block_size : ℕ
block_size = 256

abbrev pub max_num_file : ℕ
max_num_file = 1024

abbrev pub inode_num_direct_ptr : ℕ
inode_num_direct_ptr = 8

abbrev pub data_blocks_num : ℕ
data_blocks_num = 7931

abbrev pub therad_pool_size : ℕ
therad_pool_size = 10

abbrev pub fd_table_size : ℕ
fd_table_size = 1024

-- BITMAP_SIZE * BLOCK_SIZE
abbrev pub bitmap_bytes : ℕ
bitmap_bytes = 1024

-- Entries and block pointers in a block: BLOCK_SIZE/16 and BLOCK_SIZE/4.
abbrev pub entries_per_block : ℕ
entries_per_block = 16

abbrev pub pointers_per_block : ℕ
pointers_per_block = 64

-- RD, RW and WR.
abbrev pub read_only : ℕ
read_only = 0o444

abbrev pub read_write : ℕ
read_write = 0o644

abbrev pub write_only : ℕ
write_only = 0o244

-- The text in `type[4]`: "", "dir" or "reg".
pub data FileType : Type 0 where
  unset dir reg : FileType

pub record Inode : Type 0 where
  pub type : FileType
  pub size : ℕ
  pub pointers : ℕ → ℕ
  pub single_indirect : ℕ
  pub double_indirect : ℕ
  pub access : ℕ

-- An inode after `memset(…, 0, INODE_SIZE)`.
abbrev pub blank_inode : Inode
blank_inode = record {
  type = FileType.unset;
  size = 0;
  pointers = λ _. 0;
  single_indirect = 0;
  double_indirect = 0;
  access = 0;
}

-- `filesys_struct`. The first two fields are the superblock's.
pub record Disk : Type 0 where
  pub free_blocks : ℕ
  pub free_inodes : ℕ
  pub inodes : ℕ → Inode
  pub bitmap : ℕ → ℕ
  pub memory : Mem

-- The distance of `data_blocks` from `discos`: a superblock, 256 blocks of inodes, 4 of bitmap.
abbrev pub data_base : ℕ
data_base = 66816

-- `&discos->data_blocks[k]`
abbrev pub block_address : ℕ → ℕ
block_address k = data_base + block_size * k

-- `&block->entries[j]`, with the name first and `inode_num` at offset 14.
abbrev pub entry_address : ℕ → ℕ → ℕ
entry_address block j = block + 16 * j

abbrev pub inode_num_address : ℕ → ℕ
inode_num_address entry = entry + 14

-- `block->index_block[i]`
unfoldable pub index_block : Mem → ℕ → ℕ → ℕ
index_block m block i = load32 m (block + 4 * i)

pub record FileObject : Type 0 where
  pub inode_ptr : Option ℕ
  pub status : ℕ
  pub cursor : ℕ
  pub pos : ℕ
  pub usable : ℕ

abbrev pub blank_object : FileObject
blank_object = record { inode_ptr = none; status = 0; cursor = 0; pos = 0; usable = 0 }

-- `process_fd_table`
pub record Process : Type 0 where
  pub pid : ℕ
  pub file_objects : ℕ → FileObject

-- The globals `*discos`, `*p_fd_table` and `read_buffer`.
pub record System : Type 0 where
  pub disk : Disk
  pub processes : ℕ → Process
  pub read_buffer : Mem
