-- ===== src/Ramdisk/Counted/Create.antt =====
-- `init_file_sys`, `rd_create` and `rd_mkdir` of kernelspace/discos.c and the count of free blocks.
use file_system_toy_os.Prelude.{ℕ, zero, suc, ◌≡◌, refl, arith}
use file_system_toy_os.Ramdisk.Memory.{Mem, CString}
use file_system_toy_os.Ramdisk.Disk.{Inode, Disk, FileType}
use file_system_toy_os.Ramdisk.Bitmap.Bits.{bit_of}
use file_system_toy_os.Ramdisk.Bitmap.Allocate.{IsCounted, used}
use file_system_toy_os.Ramdisk.Path.{root}
use file_system_toy_os.Ramdisk.Tree.{rd_create, rd_mkdir, init_file_sys}
use file_system_toy_os.Ramdisk.Counted.{IsCounted-IsKept}
use file_system_toy_os.Ramdisk.Kept.Create.{rd_create_keeps, rd_mkdir_keeps}

-- If the superblock's count of free blocks is the number of clear bits (IsCounted), it is so
-- after any rd_create, whatever it returns and whichever blocks the directory takes.
pub rd_create-IsCounted :
    (d : Disk) (path : CString) (type : FileType) (mode : ℕ)
    → IsCounted d
    → IsCounted (rd_create d path type mode).1
rd_create-IsCounted = rd_create_keeps IsCounted IsCounted-IsKept

-- If the superblock's count of free blocks is the number of clear bits (IsCounted), it is so
-- after any rd_mkdir, whatever it returns.
pub rd_mkdir-IsCounted : (d : Disk) (path : CString) → IsCounted d → IsCounted (rd_mkdir d path).1
rd_mkdir-IsCounted = rd_mkdir_keeps IsCounted IsCounted-IsKept

used-blank : (n : ℕ) → used n (λ _. 0) ≡ 0
unfolding used
used-blank zero = refl
used-blank (suc n) =
    let clear : bit_of (λ _. 0) n ≡ 0 = ground arith in omega (arith, used-blank n, clear)

-- An empty bitmap, with all blocks counted.
pub blank-IsCounted :
    {k : ℕ} {inodes : ℕ → Inode} {m : Mem}
    → IsCounted (record {
      free_blocks = 7931;
      free_inodes = k;
      inodes = inodes;
      bitmap = λ _. 0;
      memory = m;
    })
blank-IsCounted = record { bytes = λ i. omega arith; counted = omega (arith, used-blank 7931) }

-- After init_file_sys the bitmap is made of bytes and the superblock's count of free blocks is
-- the number of clear bits among the 7931, whatever the read buffer holds.
pub init_file_sys-IsCounted : (buffer : Mem) → IsCounted (init_file_sys buffer).1.disk
unfolding init_file_sys
init_file_sys-IsCounted buffer = rd_mkdir-IsCounted _ root blank-IsCounted
