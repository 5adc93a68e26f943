-- ===== src/Ramdisk/Tests/Blocks.antt =====
-- The theorems on the bitmap and on the release of blocks at one disk.
use file_system_toy_os.Prelude.{
  ◌≢◌, ◌≤◌, ◌/◌, Bool-cases, inl, inr, ==→eq, ℕ, zero, suc, ◌<◌, ◌≡◌, refl, arith, ◌==◌, some,
}
use file_system_toy_os.Prelude.Loops.{find_from}
use file_system_toy_os.Ramdisk.Bitmap.{
  allocate_data_block, first_clear_bit, get_free_block_num_from_bitmap, new_block,
}
use file_system_toy_os.Ramdisk.Bitmap.Bits.{AreBytes, bit_of}
use file_system_toy_os.Ramdisk.Bitmap.Allocate.{IsCounted, NewBlock, used, new_block_lem}
use file_system_toy_os.Ramdisk.Clear.{my_clear_inode}
use file_system_toy_os.Ramdisk.Clear.Counts.{IsDirect, IsOther, my_clear_inode_lem}
use file_system_toy_os.Ramdisk.Tests.Samples.{sample_disk}

sample_bytes : AreBytes sample_disk.bitmap
sample_bytes i = ground arith

used_two : (n : ℕ) → 8 ≤ n → used n sample_disk.bitmap ≡ 2
unfolding used
used_two zero le = absurd (omega arith)
used_two (suc n) le = elim (Bool-cases (n == 7)) [
  | inl e ↦ rw (==→eq n 7 e) refl
  | inr e ↦
      let rest = used_two n (ground arith) in
      let behind : n / 8 ≢ 0 = ground arith in
      let clear : bit_of sample_disk.bitmap n ≡ 0 = ground (arith, behind) in
      omega (arith, rest, clear)
]

pub sample_disk-IsCounted : IsCounted sample_disk
sample_disk-IsCounted = record {
  bytes = sample_bytes;
  counted = omega (arith, used_two 7931 (omega arith));
}

new_block_example : NewBlock sample_disk (new_block sample_disk)
new_block_example = new_block_lem sample_disk sample_bytes (omega arith)

sample_disk-IsDirect : IsDirect sample_disk 1 (λ i. i)
sample_disk-IsDirect = record {
  pointers = λ i lt ne. ground arith;
  distinct = λ i j lt lt' ne ne'. ground arith;
  no_single = refl;
  no_double = refl;
}

my_clear_inode_example :
    IsCounted (my_clear_inode sample_disk 1)
    × ((i : ℕ)
        → i < 8
        → (sample_disk.inodes 1).pointers i ≢ 0
        → bit_of (my_clear_inode sample_disk 1).bitmap i ≡ 0)
    × ((m : ℕ)
        → IsOther sample_disk 1 (λ i. i) m
        → bit_of (my_clear_inode sample_disk 1).bitmap m ≡ bit_of sample_disk.bitmap m)
my_clear_inode_example =
    my_clear_inode_lem sample_disk 1 (λ i. i) sample_disk-IsDirect sample_disk-IsCounted

sample_new :
    new_block sample_disk
    ≡ some ((allocate_data_block sample_disk 2).0, (allocate_data_block sample_disk 2).1)
unfolding new_block get_free_block_num_from_bitmap find_from first_clear_bit
sample_new = refl
