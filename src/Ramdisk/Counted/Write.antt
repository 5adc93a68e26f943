-- ===== src/Ramdisk/Counted/Write.antt =====
-- `rd_write` of kernelspace/discos.c and the count of free blocks.
use file_system_toy_os.Prelude.{ℕ}
use file_system_toy_os.Ramdisk.Memory.{Mem}
use file_system_toy_os.Ramdisk.Disk.{System}
use file_system_toy_os.Ramdisk.Bitmap.Allocate.{IsCounted}
use file_system_toy_os.Ramdisk.Write.{rd_write}
use file_system_toy_os.Ramdisk.Counted.{IsCounted-IsKept}
use file_system_toy_os.Ramdisk.Kept.Write.{rd_write_keeps}

-- If the bitmap is made of bytes and the superblock's count of free blocks is the number of
-- clear bits among the 7931 (IsCounted), it is so after any rd_write, whatever is written,
-- through direct, single and double indirect blocks, and whatever it returns.
pub rd_write-IsCounted :
    (s : System) (fd pid : ℕ) (content : Mem) (num_bytes : ℕ)
    → IsCounted s.disk
    → IsCounted (rd_write s fd pid content num_bytes).1.disk
rd_write-IsCounted = rd_write_keeps IsCounted IsCounted-IsKept
