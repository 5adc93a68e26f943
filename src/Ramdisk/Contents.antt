-- ===== src/Ramdisk/Contents.antt =====
-- A file of kernelspace/discos.c as an array of bytes: the first 2048, those of its direct blocks.
pub mod Place
pub mod Store
use mathlib.Core.Path.{subst}
use file_system_toy_os.Prelude.{
  ap, ℕ, ◌+◌, ◌/◌, ◌%◌, ◌<◌, ◌≡◌, ◌≢◌, ◌⊎◌, inl, inr, arith, refl, ◌==◌, if◌then◌else◌, ◌∙◌,
}
use file_system_toy_os.Ramdisk.Disk.{Disk, block_address, Inode}
use file_system_toy_os.Ramdisk.Bitmap.Bits.{bit_of}

-- Byte `x` of the file `n`. A block that is not there counts as zeros, which a new block is full of.
abbrev pub byte_of : Disk → ℕ → ℕ → ℕ
byte_of d n x =
    let block = (d.inodes n).pointers (x / 256) in
    if block == 0 then 0 else d.memory (block + x % 256)

-- The address of a data block whose bit is set.
abbrev pub IsTakenBlock : Disk → ℕ → Type 0
IsTakenBlock d p = (k : ℕ) × (p ≡ block_address k) × (k < 7931) × (bit_of d.bitmap k ≡ 1)

-- The direct blocks that the file has are data blocks marked in the bitmap, all different.
pub record IsLaidOut (d : Disk) (n : ℕ) : Type 0 where
  pub taken :
      (i : ℕ) → i < 8 → (d.inodes n).pointers i ≢ 0 → IsTakenBlock d ((d.inodes n).pointers i)
  pub distinct :
      (i j : ℕ)
      → i < 8
      → j < 8
      → (d.inodes n).pointers i ≢ 0
      → (d.inodes n).pointers i ≡ (d.inodes n).pointers j
      → i ≡ j

-- `d'` is `d` but for the size, the bytes and new direct blocks of the file `n`: these blocks were
-- free, and every block that was taken and is none of the file's direct blocks is as it was.
pub record IsExtension (n : ℕ) (d d' : Disk) : Type 0 where
  pub inode :
      d'.inodes n
      ≡ record (d.inodes n) { size = (d'.inodes n).size; pointers = (d'.inodes n).pointers }
  pub other_inodes : (m : ℕ) → m ≢ n → d'.inodes m ≡ d.inodes m
  pub free_inodes : d'.free_inodes ≡ d.free_inodes
  pub marked : (k : ℕ) → bit_of d.bitmap k ≡ 1 → bit_of d'.bitmap k ≡ 1
  pub pointers :
      (i : ℕ)
      → ((d'.inodes n).pointers i ≡ (d.inodes n).pointers i)
        ⊎ (((d.inodes n).pointers i ≡ 0)
            × (k : ℕ) × ((d'.inodes n).pointers i ≡ block_address k)
            × (bit_of d.bitmap k ≡ 0))
  pub other_blocks :
      (k o : ℕ)
      → bit_of d.bitmap k ≡ 1
      → ((i : ℕ) → i < 8 → (d.inodes n).pointers i ≢ block_address k)
      → o < 256
      → d'.memory (block_address k + o) ≡ d.memory (block_address k + o)

pub IsExtension-refl : (n : ℕ) (d : Disk) → IsExtension n d d
IsExtension-refl n d = record {
  inode = refl;
  other_inodes = λ m ne. refl;
  free_inodes = refl;
  marked = λ k set. set;
  pointers = λ i. inl refl;
  other_blocks = λ k o set other lt. refl;
}

bit_clear : (b : ℕ) → b % 2 ≢ 1 → b % 2 ≡ 0
bit_clear b ne = omega arith

module _ {n : ℕ} {d d' d'' : Disk} (a : IsExtension n d d') (b : IsExtension n d' d'') where
  pointers_trans :
      (i : ℕ)
      → ((d''.inodes n).pointers i ≡ (d.inodes n).pointers i)
        ⊎ (((d.inodes n).pointers i ≡ 0)
            × (k : ℕ) × ((d''.inodes n).pointers i ≡ block_address k)
            × (bit_of d.bitmap k ≡ 0))
  pointers_trans i = elim (a.pointers i) [
    | inl same ↦ elim (b.pointers i) [
      | inl same' ↦ inl (same' ∙ same)
      | inr (null, k, new, free) ↦
          inr (cc, k, new, bit_clear _ (λ set. omega (arith, a.marked k set, free)))
    ]
    | inr (null, k, new, free) ↦ elim (b.pointers i) [
      | inl same' ↦ inr (null, k, same' ∙ new, free)
      | inr (null', _, _, _) ↦ absurd (omega (arith, null', new))
    ]
  ]

  -- A block that was taken and none of the file's is none of its new blocks.
  still_other :
      (k : ℕ)
      → bit_of d.bitmap k ≡ 1
      → ((i : ℕ) → i < 8 → (d.inodes n).pointers i ≢ block_address k)
      → (i : ℕ) → i < 8
      → (d'.inodes n).pointers i ≢ block_address k
  still_other k set other i lt e = elim (a.pointers i) [
    | inl same ↦ other i lt cc
    | inr (null, k', new, free) ↦
        let e' : k' ≡ k = omega (arith, e, new) in
        let free' : bit_of d.bitmap k ≡ 0 = subst (λ m. bit_of d.bitmap m ≡ 0) e' free in
        omega (arith, set, free')
  ]

  pub IsExtension-trans : IsExtension n d d''
  IsExtension-trans = record {
    inode =
        b.inode
        ∙ ap {A = Inode}
            (λ f. record f { size = (d''.inodes n).size; pointers = (d''.inodes n).pointers })
            a.inode;
    other_inodes = λ m ne. b.other_inodes m ne ∙ a.other_inodes m ne;
    free_inodes = b.free_inodes ∙ a.free_inodes;
    marked = λ k set. b.marked k (a.marked k set);
    pointers = pointers_trans;
    other_blocks = λ k o set other lt.
        b.other_blocks k o (a.marked k set) (still_other k set other) lt
        ∙ a.other_blocks k o set other lt;
  }
