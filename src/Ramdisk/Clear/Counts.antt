-- ===== src/Ramdisk/Clear/Counts.antt =====
-- What releasing blocks does to the bitmap and to the superblock's count (kernelspace/discos.c).
use file_system_toy_os.Prelude.{
  ℕ, ◌+◌, ◌≤◌, ◌<◌, ◌≡◌, ◌≢◌, refl, arith, ◌==◌, if◌then◌else◌, pos, Bool-cases, inl, inr,
}
use file_system_toy_os.Prelude.Loops.{for_range_inv}
use file_system_toy_os.Ramdisk.Disk.{Disk, block_address}
use file_system_toy_os.Ramdisk.Bitmap.{block_number}
use file_system_toy_os.Ramdisk.Bitmap.Bits.{bit_of, bit_of-clear_bitmap, clear_bitmap-AreBytes}
use file_system_toy_os.Ramdisk.Bitmap.Allocate.{IsCounted, used, used-clear_bitmap}
use file_system_toy_os.Ramdisk.Clear.{unmark, release_block, my_clear_inode}

pub block_number-block_address : (k : ℕ) → block_number (block_address k) ≡ pos k
unfolding block_number
block_number-block_address k = ground arith

module _ (d : Disk) (k : ℕ) (c : IsCounted d) (lt : k < 7931) where
  -- The bit of the block is cleared, and no other.
  pub bit_of-release_block :
      (m : ℕ)
      → bit_of (release_block d (block_address k)).bitmap m
        ≡ (if k == m then 0 else bit_of d.bitmap m)
  unfolding release_block unmark
  bit_of-release_block m =
      rw block_number-block_address (bit_of-clear_bitmap d.bitmap k m c.bytes (omega arith))

  -- Where the count of free blocks is that of the clear bits (IsCounted), releasing a marked
  -- block k < 7931 as my_clear_inode does keeps it so.
  pub release_block-IsCounted :
      bit_of d.bitmap k ≡ 1 → IsCounted (release_block d (block_address k))
  unfolding release_block unmark
  release_block-IsCounted set = rw block_number-block_address (record {
    bytes = clear_bitmap-AreBytes d.bitmap k c.bytes;
    counted = omega (arith, used-clear_bitmap d.bitmap k c.bytes lt set, c.counted);
  })

  -- Where the count of free blocks is that of the clear bits (IsCounted), after a marked block
  -- k < 7931 is unmarked the way clear_entry_in_current_dir does it, without a step of
  -- free_blocks, the count is one less than the number of clear bits.
  pub unmark_drift :
      bit_of d.bitmap k ≡ 1
      → (unmark d (block_address k)).free_blocks + used 7931 (unmark d (block_address k)).bitmap + 1
        ≡ 7931
  unfolding unmark
  unmark_drift set =
      rw block_number-block_address
        (omega (arith, used-clear_bitmap d.bitmap k c.bytes lt set, c.counted))

-- The inode's direct blocks are `blocks 0` to `blocks 7`, none where a pointer is NULL, each in
-- range and marked, and no two the same. There are no indirect blocks.
pub record IsDirect (d : Disk) (n : ℕ) (blocks : ℕ → ℕ) : Type 0 where
  pub pointers :
      (i : ℕ)
      → i < 8
      → (d.inodes n).pointers i ≢ 0
      → ((d.inodes n).pointers i ≡ block_address (blocks i))
        × (blocks i < 7931)
        × (bit_of d.bitmap (blocks i) ≡ 1)
  pub distinct :
      (i j : ℕ)
      → i < j
      → j < 8
      → (d.inodes n).pointers i ≢ 0
      → (d.inodes n).pointers j ≢ 0
      → blocks i ≢ blocks j
  pub no_single : (d.inodes n).single_indirect ≡ 0
  pub no_double : (d.inodes n).double_indirect ≡ 0

-- No block of the inode.
abbrev pub IsOther : Disk → ℕ → (ℕ → ℕ) → ℕ → Type 0
IsOther d n blocks m = (i : ℕ) → i < 8 → (d.inodes n).pointers i ≢ 0 → blocks i ≢ m

-- Before round `k` of the loop in `my_clear_inode`: the blocks before `k` are free, the others
-- marked, the count is right.
record IsCleared (d : Disk) (n : ℕ) (blocks : ℕ → ℕ) (k : ℕ) (d' : Disk) : Type 0 where
  counts : IsCounted d'
  before : (i : ℕ) → i < k → (d.inodes n).pointers i ≢ 0 → bit_of d'.bitmap (blocks i) ≡ 0
  after : (i : ℕ) → k ≤ i → i < 8 → (d.inodes n).pointers i ≢ 0 → bit_of d'.bitmap (blocks i) ≡ 1
  others : (m : ℕ) → IsOther d n blocks m → bit_of d'.bitmap m ≡ bit_of d.bitmap m

module _ (d : Disk) (n : ℕ) (blocks : ℕ → ℕ) (h : IsDirect d n blocks) where
  clear_round :
      (k : ℕ) (d' : Disk)
      → 0 ≤ k
      → k < 8
      → IsCleared d n blocks k d'
      → IsCleared d n blocks
          (k + 1)
          (if (d.inodes n).pointers k == 0 then d' else release_block d' ((d.inodes n).pointers k))
  clear_round k d' low lt p = elim (Bool-cases ((d.inodes n).pointers k == 0)) [
    | inl null ↦ rw null (record {
      counts = p.counts;
      before = λ i i_lt ne. ground (arith, p.before i);
      after = λ i le i_lt ne. p.after i (omega arith) i_lt ne;
      others = p.others;
    })
    | inr block ↦
        let (address, range, set) = h.pointers k lt (ground arith) in
        rw (block, address)
          (record {
            counts =
                release_block-IsCounted d' (blocks k) p.counts range
                  (p.after k (omega arith) lt (ground arith));
            before = λ i i_lt ne.
                ground
                  (arith, bit_of-release_block d' (blocks k) p.counts range (blocks i), p.before i);
            after = λ i le i_lt ne. ground (
              arith,
              bit_of-release_block d' (blocks k) p.counts range (blocks i),
              p.after i,
              h.distinct k i,
            );
            others = λ m o.
                ground (
                  arith,
                  bit_of-release_block d' (blocks k) p.counts range m,
                  p.others m o,
                  o k lt,
                );
          })
  ]

  cleared : IsCounted d → IsCleared d n blocks 8 (my_clear_inode d n)
  unfolding my_clear_inode
  cleared c =
      rw (h.no_single, h.no_double)
        (for_range_inv (IsCleared d n blocks) _ 8 0 8 d refl clear_round (record {
          counts = c;
          before = λ i lt ne. absurd (omega arith);
          after = λ i le lt ne. (h.pointers i lt ne).2;
          others = λ m o. refl;
        }))

  -- Let the count of free blocks be that of the clear bits (IsCounted), and let the inode n
  -- have no indirect block and direct blocks that are in range, marked and distinct (IsDirect).
  -- After my_clear_inode the bit of each of its blocks is clear, the bit of every other block
  -- is as before, and the count is again that of the clear bits.
  pub my_clear_inode_lem :
      IsCounted d
      → IsCounted (my_clear_inode d n)
        × ((i : ℕ)
            → i < 8
            → (d.inodes n).pointers i ≢ 0
            → bit_of (my_clear_inode d n).bitmap (blocks i) ≡ 0)
        × ((m : ℕ)
            → IsOther d n blocks m
            → bit_of (my_clear_inode d n).bitmap m ≡ bit_of d.bitmap m)
  my_clear_inode_lem c = ((cleared c).counts, (cleared c).before, (cleared c).others)
