-- ===== src/Ramdisk/Bitmap.antt =====
-- The block bitmap and the two free lists of kernelspace/discos.c.
pub mod Bits
pub mod Free
pub mod Allocate
use Prim.Native.Nat.{bit_and, bit_or}
use file_system_toy_os.Prelude.{
  ℕ, zero, suc, ◌+◌, ◌-◌, ◌*◌, ◌/◌, ◌%◌, ◌^◌, Bool, true, false, not, Option, none, some, ltb, leb,
  ◌==◌, if◌then◌else◌, update, ℤ, pos, negsuc, success, failure, sub32,
}
use file_system_toy_os.Prelude.Loops.{find_from}
use file_system_toy_os.Ramdisk.Memory.{clear_bytes}
use file_system_toy_os.Ramdisk.Disk.{
  FileType, Disk, blank_inode, block_address, data_base, block_size, bitmap_bytes, data_blocks_num,
  max_num_file,
}

abbrev pub Bitmap : Type 0
Bitmap = ℕ → ℕ

-- `map[seg] & ~((unsigned char)1 << offset)`, on a byte.
unfoldable pub clear_bit : ℕ → ℕ → ℕ
clear_bit byte offset = bit_and byte (255 - 2 ^ offset)

-- `map[seg] | ((unsigned char)1 << offset)`
unfoldable pub set_bit : ℕ → ℕ → ℕ
set_bit byte offset = bit_or byte (2 ^ offset)

-- The status, and the map after the call.
unfoldable pub clear_bitmap : Bitmap → ℤ → ℤ × Bitmap
clear_bitmap map (negsuc n) = (failure, map)
clear_bitmap map (pos index) =
    if ltb 7931 index
    then (failure, map)
    else (success, update map (index / 8) (clear_bit (map (index / 8)) (index % 8)))

unfoldable pub set_bitmap : Bitmap → ℤ → ℤ × Bitmap
set_bitmap map (negsuc n) = (failure, map)
set_bitmap map (pos index) =
    if ltb 7931 index
    then (failure, map)
    else (success, update map (index / 8) (set_bit (map (index / 8)) (index % 8)))

-- The loop over the bits of a byte: the count of shifts when the low bit is 0, at most `n`.
unfoldable pub first_clear_bit : ℕ → ℕ → ℕ
first_clear_bit zero byte = 0
first_clear_bit (suc n) byte =
    let rest = first_clear_bit n (byte / 2) in if bit_and byte 1 == 0 then 0 else rest + 1

-- `none` is the status -1.
unfoldable pub get_free_block_num_from_bitmap : Disk → Option ℕ
get_free_block_num_from_bitmap d =
    if d.free_blocks == 0
    then none
    else elim (find_from bitmap_bytes 0 (λ i. not (d.bitmap i == 255))) [
      | none ↦ none
      | some i ↦
          let free_bit = i * 8 + first_clear_bit 8 (d.bitmap i) in
          if leb data_blocks_num free_bit then none else some free_bit
    ]

-- The block's address, and the disk with the block marked, counted and zeroed.
unfoldable pub allocate_data_block : Disk → ℕ → ℕ × Disk
allocate_data_block d k = (
  block_address k,
  record d {
    bitmap = (set_bitmap d.bitmap (pos k)).1;
    free_blocks = sub32 d.free_blocks 1;
    memory = clear_bytes d.memory (block_address k) block_size;
  },
)

-- The code's idiom: look for a free block, give up if there is none, else allocate it.
unfoldable pub new_block : Disk → Option (ℕ × Disk)
new_block d = elim (get_free_block_num_from_bitmap d) [
  | none ↦ none
  | some k ↦ some (allocate_data_block d k)
]

-- `block - &discos->data_blocks[0]`
unfoldable pub block_number : ℕ → ℤ
block_number p =
    if ltb p data_base
    then negsuc ((data_base - p) / block_size)
    else pos ((p - data_base) / block_size)

abbrev pub is_unset : FileType → Bool
is_unset FileType.unset = true
is_unset FileType.dir = false
is_unset FileType.reg = false

abbrev pub is_dir : FileType → Bool
is_dir FileType.unset = false
is_dir FileType.dir = true
is_dir FileType.reg = false

-- Inode 0 is the root's and is never handed out.
unfoldable pub get_free_inode_num : Disk → Option ℕ
get_free_inode_num d =
    if d.free_inodes == 0
    then none
    else find_from (max_num_file - 1) 1 (λ i. is_unset (d.inodes i).type)

unfoldable pub allocate_inode : Disk → ℕ → Disk
allocate_inode d k = record d {
  free_inodes = sub32 d.free_inodes 1;
  inodes = update d.inodes k blank_inode;
}
