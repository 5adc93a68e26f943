-- ===== src/Ramdisk/Contents/Place.antt =====
-- A new direct block for a file of kernelspace/discos.c, and the bytes of the file.
use file_system_toy_os.Prelude.{
  ==→ne, ℕ, ◌⊎◌, ◌∙◌, ◌+◌, ◌/◌, ◌%◌, ◌<◌, ◌≡◌, ◌≢◌, inl, inr, arith, refl, ◌==◌, if◌then◌else◌, ap,
  Bool-cases, ==→eq, sym,
}
use mathlib.Core.Path.{subst}
use file_system_toy_os.Ramdisk.Disk.{Disk, block_address}
use file_system_toy_os.Ramdisk.Memory.{clear_bytes}
use file_system_toy_os.Ramdisk.Bitmap.Bits.{bit_of}
use file_system_toy_os.Ramdisk.Bitmap.Allocate.{IsNew}
use file_system_toy_os.Ramdisk.Entry.{set_pointer}
use file_system_toy_os.Ramdisk.Contents.{byte_of, IsTakenBlock, IsLaidOut, IsExtension}

module _ {d d' : Disk} {p k : ℕ} (new : IsNew d d' p k) (n i : ℕ) (lt : i < 8)
    (null : (d.inodes n).pointers i ≡ 0) (laid : IsLaidOut d n) where
  -- The disk with the new block in slot `i` of the file.
  abbrev placed : Disk
  placed = set_pointer d' n i p

  pointer_at :
      (j : ℕ) → (placed.inodes n).pointers j ≡ (if j == i then p else (d.inodes n).pointers j)
  pointer_at j = ground (arith, new.inodes)

  bits_kept : (m : ℕ) → bit_of d.bitmap m ≡ 1 → bit_of d'.bitmap m ≡ 1
  bits_kept m set = ground (arith, new.marked m)

  -- The new block is none of those the file had.
  fresh : (j : ℕ) → j < 8 → (d.inodes n).pointers j ≢ 0 → (d.inodes n).pointers j ≢ p
  fresh j j_lt ne e =
      let (m, at, m_lt, set) = laid.taken j j_lt ne in
      let same : m ≡ k = omega (arith, new.address, at, e) in
      let free : bit_of d.bitmap m ≡ 0 =
        subst (λ x. bit_of d.bitmap x ≡ 0) (sym same) new.was_free in
      omega (arith, set, free)

  -- A slot is the new one or as it was.
  slot :
      (j : ℕ)
      → ((j ≡ i) × ((placed.inodes n).pointers j ≡ p))
        ⊎ ((placed.inodes n).pointers j ≡ (d.inodes n).pointers j)
  slot j = elim (Bool-cases (j == i)) [
    | inl e ↦ inl (==→eq j i e, pointer_at j ∙ rw e refl)
    | inr e ↦ inr (pointer_at j ∙ rw e refl)
  ]

  slot_taken :
      (j : ℕ)
      → j < 8
      → (placed.inodes n).pointers j ≢ 0
      → IsTakenBlock placed ((placed.inodes n).pointers j)
  slot_taken j j_lt ne = elim (slot j) [
    | inl (e, at) ↦ (k, at ∙ new.address, new.in_range, ground (arith, new.marked k))
    | inr old ↦
        let (m, at, m_lt, set) = laid.taken j j_lt (λ z. ne (old ∙ z)) in
        (m, old ∙ at, m_lt, bits_kept m set)
  ]

  slots_distinct :
      (j m : ℕ)
      → j < 8
      → m < 8
      → (placed.inodes n).pointers j ≢ 0
      → (placed.inodes n).pointers j ≡ (placed.inodes n).pointers m
      → j ≡ m
  slots_distinct j m j_lt m_lt ne e = elim (slot j) [
    | inl (at_j, new_j) ↦ elim (slot m) [
      | inl (at_m, new_m) ↦ at_j ∙ sym at_m
      | inr old_m ↦
          let same : (d.inodes n).pointers m ≡ p = sym old_m ∙ sym e ∙ new_j in
          absurd (fresh m m_lt (λ z. ne (e ∙ old_m ∙ z)) same)
    ]
    | inr old_j ↦ elim (slot m) [
      | inl (at_m, new_m) ↦ absurd (fresh j j_lt (λ z. ne (old_j ∙ z)) (sym old_j ∙ e ∙ new_m))
      | inr old_m ↦ laid.distinct j m j_lt m_lt (λ z. ne (old_j ∙ z)) (sym old_j ∙ e ∙ old_m)
    ]
  ]

  pub placed-IsLaidOut : IsLaidOut placed n
  placed-IsLaidOut = record { taken = slot_taken; distinct = slots_distinct }

  memory_at : (x : ℕ) → d'.memory x ≡ clear_bytes d.memory p 256 x
  memory_at x = ap (λ m. m x) new.zeroed

  -- A block that was taken is not the new one, and has kept its bytes.
  bytes_kept :
      (m o : ℕ)
      → bit_of d.bitmap m ≡ 1
      → o < 256
      → d'.memory (block_address m + o) ≡ d.memory (block_address m + o)
  unfolding clear_bytes
  bytes_kept m o set lt =
      let ne : m ≢ k =
        λ e. omega (arith, set, subst (λ x. bit_of d.bitmap x ≡ 0) (sym e) new.was_free) in
      rw (memory_at (block_address m + o)) (ground (arith, new.address))

  pub placed-IsExtension : IsExtension n d placed
  placed-IsExtension = record {
    inode = ground (arith, new.inodes);
    other_inodes = λ m ne. ground (arith, new.inodes);
    free_inodes = new.free_inodes;
    marked = bits_kept;
    pointers = λ j. elim (slot j) [
      | inl (e, at) ↦
          inr (
            subst (λ x. (d.inodes n).pointers x ≡ 0) (sym e) null,
            k,
            at ∙ new.address,
            new.was_free,
          )
      | inr old ↦ inl old
    ];
    other_blocks = λ m o set other o_lt. bytes_kept m o set o_lt;
  }

  -- The new block is full of zeros, as the file read there before.
  pub placed-byte_of : (x : ℕ) → x < 2048 → byte_of placed n x ≡ byte_of d n x
  unfolding clear_bytes
  placed-byte_of x x_lt = elim (slot (x / 256)) [
    | inl (e, at) ↦
        let before : (d.inodes n).pointers (x / 256) ≡ 0 =
          subst (λ y. (d.inodes n).pointers y ≡ 0) (sym e) null in
        rw (before, at) (ground (arith, memory_at (p + x % 256), new.address))
    | inr old ↦ elim (Bool-cases ((d.inodes n).pointers (x / 256) == 0)) [
      | inl z ↦ rw (old, z) refl
      | inr nz ↦
          let (m, at, m_lt, set) = laid.taken (x / 256) (omega arith) (==→ne _ 0 nz) in
          rw (old, nz, at) (bytes_kept m (x % 256) set (omega arith))
    ]
  ]
