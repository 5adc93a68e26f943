-- ===== src/Ramdisk/Counted.antt =====
-- The superblock's count of free blocks against the clear bits, through the operations of
-- kernelspace/discos.c that allocate.
pub mod Write
pub mod Create
use file_system_toy_os.Prelude.{ℕ, ◌≡◌, refl, some, arith}
use file_system_toy_os.Ramdisk.Disk.{Disk}
use file_system_toy_os.Ramdisk.Bitmap.{new_block}
use file_system_toy_os.Ramdisk.Bitmap.Allocate.{IsCounted, new_block-IsCounted, used}
use file_system_toy_os.Ramdisk.Entry.{set_pointer}
use file_system_toy_os.Ramdisk.Kept.{IsKept}

-- Nothing but the bitmap and the count of free blocks matters.
pub IsCounted-ext :
    {d : Disk} (d' : Disk)
    → d'.bitmap ≡ d.bitmap
    → d'.free_blocks ≡ d.free_blocks
    → IsCounted d
    → IsCounted d'
IsCounted-ext d' same_map same_count c = record {
  bytes = rw same_map c.bytes;
  counted = rw (same_map, same_count) c.counted;
}

pub IsCounted-new :
    {d : Disk} {p : ℕ} {d' : Disk} → IsCounted d → new_block d ≡ some (p, d') → IsCounted d'
IsCounted-new {d} {p} {d'} c e = new_block-IsCounted d p d' c (omega (arith, c.counted)) e

-- What a new block keeps is kept by each write of the operations.
pub IsCounted-IsKept : IsKept IsCounted
IsCounted-IsKept = record {
  memory = λ d m c. IsCounted-ext _ refl refl c;
  free_inodes = λ d k c. IsCounted-ext _ refl refl c;
  inode = λ d n node e c. IsCounted-ext _ refl refl c;
  blank = λ d n c. IsCounted-ext _ refl refl c;
  new = λ d p d' c e. IsCounted-new c e;
  placed = λ d n i p d' c e. IsCounted-ext (set_pointer d' n i p) refl refl (IsCounted-new c e);
}
