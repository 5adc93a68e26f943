-- ===== src/Ramdisk/Unlink/Drift.antt =====
-- `rd_unlink` of kernelspace/discos.c on the last entry of a directory, and the count of free blocks.
use file_system_toy_os.Prelude.{ℕ, ◌+◌, ◌<◌, ◌≡◌, refl, sym, ◌==◌, if◌then◌else◌}
use mathlib.Core.Path.{subst}
use file_system_toy_os.Prelude.Loops.{for_range_inv}
use file_system_toy_os.Ramdisk.Memory.{CString}
use file_system_toy_os.Ramdisk.Path.{parse_absolute_path}
use file_system_toy_os.Ramdisk.Disk.{Disk, block_address}
use file_system_toy_os.Ramdisk.Bitmap.Bits.{bit_of}
use file_system_toy_os.Ramdisk.Bitmap.Allocate.{IsCounted, used}
use file_system_toy_os.Ramdisk.Clear.{release_block, my_clear_inode, clear_entry_in_current_dir}
use file_system_toy_os.Ramdisk.Clear.Drift.{
  IsOnlyEntry, HasOneBlock, clear_entry_in_current_dir-drift,
}
use file_system_toy_os.Ramdisk.Tree.{remove, rd_unlink}
use file_system_toy_os.Ramdisk.Unlink.{CanUnlink}

-- The file has no blocks.
pub record IsBlockless (d : Disk) (k : ℕ) : Type 0 where
  pub no_pointers : (i : ℕ) → i < 8 → (d.inodes k).pointers i ≡ 0
  pub no_single : (d.inodes k).single_indirect ≡ 0
  pub no_double : (d.inodes k).double_indirect ≡ 0

my_clear_inode-blockless : (d : Disk) (k : ℕ) → IsBlockless d k → my_clear_inode d k ≡ d
unfolding my_clear_inode
my_clear_inode-blockless d k h =
    rw (h.no_single, h.no_double, my_clear_inode)
      (for_range_inv (λ i d'. d' ≡ d)
        (λ i d'.
          if (d.inodes k).pointers i == 0 then d' else release_block d' ((d.inodes k).pointers i))
        8 0 8 d refl (λ i d' le lt same. rw (h.no_pointers i lt) same) refl)

-- The block `b` is free and the count of free blocks, which is that of `d`, leaves it out.
abbrev pub HasDrifted : Disk → ℕ → Disk → Type 0
HasDrifted d b d' =
    (d'.free_blocks ≡ d.free_blocks)
    × (bit_of d'.bitmap b ≡ 0)
    × (d'.free_blocks + used 7931 d'.bitmap + 1 ≡ 7931)

module _ (d : Disk) (path : CString) (cur k : ℕ) (can : CanUnlink d path cur k)
    (blockless : IsBlockless d k) (counted : IsCounted d) (i b j : ℕ) (has : HasOneBlock d cur i b)
    (only : IsOnlyEntry d.memory (parse_absolute_path path).filename (block_address b) j) where
  abbrev name_of : CString
  name_of = (parse_absolute_path path).filename

  swept-HasDrifted : HasDrifted d b (clear_entry_in_current_dir (my_clear_inode d k) cur name_of)
  swept-HasDrifted =
      subst (λ e. HasDrifted d b (clear_entry_in_current_dir e cur name_of))
        (sym (my_clear_inode-blockless d k blockless))
        (clear_entry_in_current_dir-drift d cur i b j name_of can.name counted has only)

  -- Under the conditions of rd_unlink-Unlinked, on a disk whose count of free blocks is that of
  -- the clear bits (IsCounted): let the file have no blocks (IsBlockless), let its directory
  -- have one direct block (HasOneBlock), marked in the bitmap, and let this hold the entry of
  -- the file and no other (IsOnlyEntry). After rd_unlink the bit of the directory's block is
  -- clear, while the count of free blocks is as before, so that it is one less than the number
  -- of clear bits.
  pub rd_unlink-drift : HasDrifted d b (rd_unlink d path).1
  unfolding rd_unlink remove
  rd_unlink-drift =
      rw (can.not_root, can.found, can.not_full, can.leads, rd_unlink) swept-HasDrifted
