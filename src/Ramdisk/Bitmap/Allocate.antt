-- ===== src/Ramdisk/Bitmap/Allocate.antt =====
-- `allocate_data_block` after `get_free_block_num_from_bitmap`, as kernelspace/discos.c calls them,
-- and the count of free blocks against the bitmap.
use file_system_toy_os.Prelude.{
  ℕ, zero, suc, ◌+◌, ◌<◌, ◌≡◌, ◌⊎◌, ◌^◌, refl, inl, inr, Option, none, some, arith, ◌==◌,
  if◌then◌else◌, pos, Bool-cases,
}
use mathlib.Core.Path.{subst}
use file_system_toy_os.Ramdisk.Memory.{clear_bytes}
use file_system_toy_os.Ramdisk.Disk.{Disk, block_address}
use file_system_toy_os.Ramdisk.Bitmap.{
  Bitmap, clear_bitmap, new_block, allocate_data_block, get_free_block_num_from_bitmap,
}
use file_system_toy_os.Ramdisk.Bitmap.Bits.{
  AreBytes, bit_of, bit_of-set_bitmap, bit_of-clear_bitmap, set_bitmap-AreBytes,
}
use file_system_toy_os.Ramdisk.Bitmap.Free.{AllTaken, Answer, get_free_block_num_from_bitmap_lem}

-- The marked blocks below `n`.
unfoldable pub used : ℕ → Bitmap → ℕ
used zero map = 0
used (suc n) map = bit_of map n + used n map

-- The superblock's count is that of the clear bits, and the bitmap is made of bytes.
pub record IsCounted (d : Disk) : Type 0 where
  pub bytes : AreBytes d.bitmap
  pub counted : d.free_blocks + used 7931 d.bitmap ≡ 7931

pub used-ext :
    (n : ℕ) (map map' : Bitmap)
    → ((m : ℕ) → m < n → bit_of map' m ≡ bit_of map m)
    → used n map' ≡ used n map
unfolding used
used-ext zero map map' h = refl
used-ext (suc n) map map' h =
    omega (arith, h n (omega arith), used-ext n map map' (λ m lt. h m (omega arith)))

-- Setting a clear bit below `n` adds one.
pub used-set :
    (n k : ℕ) (map map' : Bitmap)
    → k < n
    → bit_of map k ≡ 0
    → ((m : ℕ) → bit_of map' m ≡ (if k == m then 1 else bit_of map m))
    → used n map' ≡ used n map + 1
unfolding used
used-set zero k map map' lt c h = absurd (omega arith)
used-set (suc n) k map map' lt c h = elim (Bool-cases (k == n)) [
  | inl e ↦
      let e' : k ≡ n = ground arith in
      let b : bit_of map n ≡ 0 = subst (λ j. bit_of map j ≡ 0) e' c in
      let same = used-ext n map map' (λ m m_lt. ground (arith, h m)) in
      let top : bit_of map' n ≡ 1 = ground (arith, h n) in omega (arith, same, top, b)
  | inr e ↦
      let top : bit_of map' n ≡ bit_of map n = ground (arith, h n) in
      omega (arith, used-set n k map map' (ground arith) c h, top)
]

-- With every bit set, all are marked.
pub used-AllTaken : (n : ℕ) (map : Bitmap) → ((m : ℕ) → m < n → bit_of map m ≡ 1) → used n map ≡ n
unfolding used
used-AllTaken zero map h = refl
used-AllTaken (suc n) map h =
    omega (arith, h n (omega arith), used-AllTaken n map (λ m lt. h m (omega arith)))

-- What a new block is: the lowest free one, marked, zeroed and counted, all else as it was.
pub record IsNew (d d' : Disk) (p k : ℕ) : Type 0 where
  pub address : p ≡ block_address k
  pub in_range : k < 7931
  pub was_free : bit_of d.bitmap k ≡ 0
  pub lowest : AllTaken d k
  pub marked : (m : ℕ) → bit_of d'.bitmap m ≡ (if k == m then 1 else bit_of d.bitmap m)
  pub bytes : AreBytes d'.bitmap
  pub count : d'.free_blocks + 1 ≡ d.free_blocks
  pub zeroed : d'.memory ≡ clear_bytes d.memory p 256
  pub inodes : d'.inodes ≡ d.inodes
  pub free_inodes : d'.free_inodes ≡ d.free_inodes

-- `new_block` succeeds exactly when `get_free_block_num_from_bitmap` finds a block.
abbrev pub NewBlock : Disk → Option (ℕ × Disk) → Type 0
NewBlock d none = (d.free_blocks ≡ 0) ⊎ AllTaken d 7931
NewBlock d (some (p, d')) = (k : ℕ) × IsNew d d' p k

module _ (d : Disk) (h : AreBytes d.bitmap) (small : d.free_blocks < 2 ^ 32) where
  allocate-IsNew :
      (k : ℕ)
      → Answer d (some k)
      → IsNew d (allocate_data_block d k).1 (allocate_data_block d k).0 k
  unfolding allocate_data_block
  allocate-IsNew k (ne, lt, clear, lower) = record {
    address = refl;
    in_range = lt;
    was_free = clear;
    lowest = lower;
    marked = λ m. bit_of-set_bitmap d.bitmap k m h (omega arith);
    bytes = set_bitmap-AreBytes d.bitmap k h;
    count = omega arith;
    zeroed = refl;
    inodes = refl;
    free_inodes = refl;
  }

  -- On a bitmap of bytes with fewer than 2^32 free blocks counted, new_block fails only if the
  -- count is 0 or all 7931 blocks are taken; otherwise it gives the address of the lowest free
  -- block, sets exactly its bit, zeroes exactly its 256 bytes, takes one off the count of free
  -- blocks, and leaves the inodes and their count alone.
  pub new_block_lem : NewBlock d (new_block d)
  unfolding new_block
  new_block_lem =
      by_answer (get_free_block_num_from_bitmap d) (get_free_block_num_from_bitmap_lem d h)
    where
      by_answer :
          (o : Option ℕ)
          → Answer d o
          → NewBlock d (elim o [ none ↦ none | some k ↦ some (allocate_data_block d k) ])
      by_answer none a = a
      by_answer (some k) a = (k, allocate-IsNew k a)

-- A new block keeps the superblock's count in step with the bitmap.
pub IsNew-IsCounted : {d d' : Disk} {p k : ℕ} → IsCounted d → IsNew d d' p k → IsCounted d'
IsNew-IsCounted {d} {d'} {p} {k} c n = record {
  bytes = n.bytes;
  counted = omega (
    arith,
    used-set 7931 k d.bitmap d'.bitmap n.in_range n.was_free n.marked,
    n.count,
    c.counted,
  );
}

used-clear :
    (n k : ℕ) (map map' : Bitmap)
    → k < n
    → bit_of map k ≡ 1
    → ((m : ℕ) → bit_of map' m ≡ (if k == m then 0 else bit_of map m))
    → used n map' + 1 ≡ used n map
unfolding used
used-clear zero k map map' lt c h = absurd (omega arith)
used-clear (suc n) k map map' lt c h = elim (Bool-cases (k == n)) [
  | inl e ↦
      let e' : k ≡ n = ground arith in
      let b : bit_of map n ≡ 1 = subst (λ j. bit_of map j ≡ 1) e' c in
      let same = used-ext n map map' (λ m m_lt. ground (arith, h m)) in
      let top : bit_of map' n ≡ 0 = ground (arith, h n) in omega (arith, same, top, b)
  | inr e ↦
      let top : bit_of map' n ≡ bit_of map n = ground (arith, h n) in
      omega (arith, used-clear n k map map' (ground arith) c h, top)
]

-- Clearing the bit of a marked block takes one off the marked blocks.
pub used-clear_bitmap :
    (map : Bitmap) (k : ℕ)
    → AreBytes map
    → k < 7931
    → bit_of map k ≡ 1
    → used 7931 (clear_bitmap map (pos k)).1 + 1 ≡ used 7931 map
used-clear_bitmap map k h lt set =
    used-clear 7931 k map (clear_bitmap map (pos k)).1 lt set
      (λ m. bit_of-clear_bitmap map k m h (omega arith))

-- Allocation leaves the inodes alone.
pub inodes-new_block :
    (d : Disk) (p : ℕ) (d' : Disk) → new_block d ≡ some (p, d') → d'.inodes ≡ d.inodes
unfolding new_block allocate_data_block
inodes-new_block d p d' e = ground arith

-- If the bitmap is made of bytes and the superblock's count of free blocks is the number of
-- clear bits among the 7931, below 2^32, then both still hold after new_block gave a block, the
-- count apart from its bound.
pub new_block-IsCounted :
    (d : Disk) (p : ℕ) (d' : Disk)
    → IsCounted d
    → d.free_blocks < 2 ^ 32
    → new_block d ≡ some (p, d')
    → IsCounted d'
new_block-IsCounted d p d' c small e =
    let (k, new) = subst (NewBlock d) e (new_block_lem d c.bytes small) in IsNew-IsCounted c new

-- A disk whose count is right and not 0 has a block to give.
pub new_block-IsNew :
    (d : Disk)
    → IsCounted d
    → 0 < d.free_blocks
    → (p : ℕ) × (d' : Disk) × (k : ℕ) × (new_block d ≡ some (p, d')) × IsNew d d' p k
new_block-IsNew d c left =
    by_block (new_block d) refl (new_block_lem d c.bytes (omega (arith, c.counted)))
  where
    by_block :
        (o : Option (ℕ × Disk))
        → new_block d ≡ o
        → NewBlock d o
        → (p : ℕ) × (d' : Disk) × (k : ℕ) × (new_block d ≡ some (p, d')) × IsNew d d' p k
    by_block none e (inl empty) = absurd (omega arith)
    by_block none e (inr full) = absurd (omega (arith, used-AllTaken 7931 d.bitmap full, c.counted))
    by_block (some (p, d')) e (k, new) = (p, d', k, e, new)
