-- ===== src/Ramdisk/Bitmap/Free.antt =====
-- `get_free_block_num_from_bitmap` of kernelspace/discos.c and the lowest clear bit.
use file_system_toy_os.Prelude.{
  ℕ, ◌+◌, ◌*◌, ◌/◌, ◌%◌, ◌≤◌, ◌<◌, ◌≡◌, ◌≢◌, ◌⊎◌, inl, inr, true, false, not, Option, none, some,
  arith, ltb, leb, ◌==◌, Bool-cases, refl, if◌then◌else◌,
}
use file_system_toy_os.Prelude.Loops.{Found, IsFirst, find_from, find_from_lem}
use file_system_toy_os.Ramdisk.Disk.{Disk, bitmap_bytes}
use file_system_toy_os.Ramdisk.Bitmap.{first_clear_bit, get_free_block_num_from_bitmap}
use file_system_toy_os.Ramdisk.Bitmap.Bits.{AreBytes, bit_of, first_clear_bit_lem, bit_at_full}

-- Blocks below `k` are all taken.
abbrev pub AllTaken : Disk → ℕ → Type 0
AllTaken d k = (m : ℕ) → m < k → bit_of d.bitmap m ≡ 1

-- What the answer says of the disk: the lowest free block; or that the count of free blocks is 0
-- or that all blocks are taken.
abbrev pub Answer : Disk → Option ℕ → Type 0
Answer d (some k) = (d.free_blocks ≢ 0) × (k < 7931) × (bit_of d.bitmap k ≡ 0) × AllTaken d k
Answer d none = (d.free_blocks ≡ 0) ⊎ AllTaken d 7931

module _ (d : Disk) (h : AreBytes d.bitmap) where
  -- Bytes that the scan passes over are full.
  taken_in_full : (m : ℕ) → not (d.bitmap (m / 8) == 255) ≡ false → bit_of d.bitmap m ≡ 1
  taken_in_full m e = ground (arith, bit_at_full (m % 8))

  taken_below :
      (i m : ℕ)
      → ((j : ℕ) → 0 ≤ j → j < i → not (d.bitmap j == 255) ≡ false)
      → m < i * 8
      → bit_of d.bitmap m ≡ 1
  taken_below i m full lt = taken_in_full m (full (m / 8) (omega arith) (omega arith))

  -- The byte `i` is the first that is not full.
  abbrev free_bit : ℕ → ℕ
  free_bit i = i * 8 + first_clear_bit 8 (d.bitmap i)

  module _ (i : ℕ) (f : IsFirst 0 1024 (λ j. not (d.bitmap j == 255)) i) where
    free_bit_range : (i * 8 ≤ free_bit i) × (free_bit i < i * 8 + 8)
    free_bit_range =
        let e : not (d.bitmap i == 255) ≡ true = f.passes in
        ground (arith, first_clear_bit_lem (d.bitmap i) 0, h i)

    not_full : d.bitmap i ≢ 255
    not_full = let e : not (d.bitmap i == 255) ≡ true = f.passes in ground arith

    free_bit_clear : bit_of d.bitmap (free_bit i) ≡ 0
    free_bit_clear =
        let (lt, clear, first) = first_clear_bit_lem (d.bitmap i) 0 (h i) (omega arith) not_full in
        let e : free_bit i / 8 ≡ i = omega arith in
        let e' : free_bit i % 8 ≡ first_clear_bit 8 (d.bitmap i) = omega arith in
        ground (arith, e, e', clear)

    free_bit_first : AllTaken d (free_bit i)
    free_bit_first m lt = elim (Bool-cases (ltb m (i * 8))) [
      | inl low ↦ taken_below i m f.before (ground arith)
      | inr high ↦
          let e : m / 8 ≡ i = ground (arith, free_bit_range) in
          ground (arith, first_clear_bit_lem (d.bitmap i) (m % 8) (h i), not_full, e)
    ]

  -- The scan over the bytes, with what it found.
  scan-Answer :
      (o : Option ℕ)
      → Found 0 1024 (λ i. not (d.bitmap i == 255)) o
      → find_from bitmap_bytes 0 (λ i. not (d.bitmap i == 255)) ≡ o
      → Answer d (get_free_block_num_from_bitmap d)
  unfolding get_free_block_num_from_bitmap
  scan-Answer o f e = elim (Bool-cases (d.free_blocks == 0)) [
    | inl none_left ↦ rw none_left (inl (ground arith))
    | inr left ↦ rw (left, e) (by_scan (ground arith) o f)
  ]
    where
      bounded :
          d.free_blocks ≢ 0
          → (i : ℕ) → IsFirst 0 1024 (λ j. not (d.bitmap j == 255)) i
          → Answer d (if leb 7931 (free_bit i) then none else some (free_bit i))
      bounded ne i f = elim (Bool-cases (leb 7931 (free_bit i))) [
        | inl behind ↦ rw behind (inr (λ m lt. free_bit_first i f m (ground arith)))
        | inr inside ↦ rw inside (ne, ground arith, free_bit_clear i f, free_bit_first i f)
      ]

      by_scan :
          d.free_blocks ≢ 0
          → (o : Option ℕ) → Found 0 1024 (λ i. not (d.bitmap i == 255)) o
          → Answer d (elim o [
            | none ↦ none
            | some i ↦ if leb 7931 (free_bit i) then none else some (free_bit i)
          ])
      by_scan ne none f = inr (λ m lt. taken_below 1024 m f (omega arith))
      by_scan ne (some i) f = bounded ne i f

  -- On a bitmap of bytes, get_free_block_num_from_bitmap returns a block k < 7931 only if the
  -- superblock counts a free block, the bit of k is clear and all lower bits are set; it
  -- returns -1 only if the superblock counts no free block or the bits of all 7931 blocks are
  -- set.
  pub get_free_block_num_from_bitmap_lem : Answer d (get_free_block_num_from_bitmap d)
  get_free_block_num_from_bitmap_lem = scan-Answer _ (find_from_lem _ _ _) refl
