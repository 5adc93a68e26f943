-- ===== src/Ramdisk/Sound.antt =====
-- No two files of kernelspace/discos.c share a direct block.
pub mod Operations
pub mod Isolated
use mathlib.Core.Path.{subst}
use file_system_toy_os.Prelude.{
  ℕ, ◌+◌, ◌<◌, ◌≡◌, ◌≢◌, ◌∙◌, ◌⊎◌, inl, inr, refl, sym, ap, arith, ◌==◌, Bool-cases, ==→eq, ==→ne,
  some, ne→==, if◌then◌else◌,
}
use file_system_toy_os.Ramdisk.Disk.{Inode, Disk, blank_inode, block_address}
use file_system_toy_os.Ramdisk.Bitmap.{new_block}
use file_system_toy_os.Ramdisk.Bitmap.Bits.{bit_of}
use file_system_toy_os.Ramdisk.Bitmap.Allocate.{IsCounted, IsNew, NewBlock, new_block_lem}
use file_system_toy_os.Ramdisk.Entry.{set_inode, set_pointer}
use file_system_toy_os.Ramdisk.Contents.{IsTakenBlock, IsLaidOut}
use file_system_toy_os.Ramdisk.Counted.{IsCounted-ext, IsCounted-new, IsCounted-IsKept}
use file_system_toy_os.Ramdisk.Kept.{IsKept}

abbrev pub pointer_of : Disk → ℕ → ℕ → ℕ
pointer_of d n i = (d.inodes n).pointers i

-- The count of free blocks is right, the direct blocks of all inodes are marked, and no two of them
-- are the same.
pub record IsSound (d : Disk) : Type 0 where
  pub counted : IsCounted d
  pub taken : (n i : ℕ) → i < 8 → pointer_of d n i ≢ 0 → IsTakenBlock d (pointer_of d n i)
  pub distinct :
      (n i m j : ℕ)
      → i < 8
      → j < 8
      → pointer_of d n i ≢ 0
      → pointer_of d n i ≡ pointer_of d m j
      → (n ≡ m) × (i ≡ j)

-- Nothing but the pointers, of which some may have become NULL, and the marks matters.
IsSound-ext :
    (d d' : Disk)
    → IsSound d
    → IsCounted d'
    → ((k : ℕ) → bit_of d.bitmap k ≡ 1 → bit_of d'.bitmap k ≡ 1)
    → ((n i : ℕ) → (pointer_of d' n i ≡ pointer_of d n i) ⊎ (pointer_of d' n i ≡ 0))
    → IsSound d'
IsSound-ext d d' sound counted marked same = record {
  counted = counted;
  taken = λ n i lt ne. elim (same n i) [
    | inr null ↦ absurd (ne null)
    | inl e ↦
        let (k, at, k_lt, set) = sound.taken n i lt (λ z. ne (e ∙ z)) in
        (k, e ∙ at, k_lt, marked k set)
  ];
  distinct = λ n i m j i_lt j_lt ne eq. elim (same n i) [
    | inr null ↦ absurd (ne null)
    | inl e ↦ elim (same m j) [
      | inr null ↦ absurd (ne (eq ∙ null))
      | inl e' ↦ sound.distinct n i m j i_lt j_lt (λ z. ne (e ∙ z)) (sym e ∙ eq ∙ e')
    ]
  ];
}

-- A new block is a marked one that was free.
pub new_block-found :
    (d : Disk) (p : ℕ) (d' : Disk)
    → IsCounted d
    → new_block d ≡ some (p, d')
    → (k : ℕ) × IsNew d d' p k
new_block-found d p d' c e =
    subst (NewBlock d) e (new_block_lem d c.bytes (omega (arith, c.counted)))

module _ (d : Disk) (p k : ℕ) (d' : Disk) (sound : IsSound d) (new : IsNew d d' p k)
    (counted : IsCounted d') where
  bits_kept : (m : ℕ) → bit_of d.bitmap m ≡ 1 → bit_of d'.bitmap m ≡ 1
  bits_kept m set = ground (arith, new.marked m)

  same_pointers : (n i : ℕ) → pointer_of d' n i ≡ pointer_of d n i
  same_pointers n i = ap (λ f. (f n).pointers i) new.inodes

  new-IsSound : IsSound d'
  new-IsSound = IsSound-ext d d' sound counted bits_kept (λ n i. inl (same_pointers n i))

  module _ (n i : ℕ) where
    placed_pointer :
        (m j : ℕ)
        → pointer_of (set_pointer d' n i p) m j
          ≡ (if m == n then (if j == i then p else pointer_of d' n j) else pointer_of d' m j)
    placed_pointer m j = ground arith

    slot :
        (m j : ℕ)
        → ((m ≡ n) × (j ≡ i) × (pointer_of (set_pointer d' n i p) m j ≡ p))
          ⊎ (pointer_of (set_pointer d' n i p) m j ≡ pointer_of d m j)
    slot m j = elim (Bool-cases (m == n)) [
      | inl e ↦ elim (Bool-cases (j == i)) [
        | inl e' ↦ inl (==→eq m n e, ==→eq j i e', placed_pointer m j ∙ rw (e, e') refl)
        | inr ne ↦ inr (
            placed_pointer m j
            ∙ rw (e, ne) (same_pointers n j ∙ ap (λ x. pointer_of d x j) (sym (==→eq m n e))))
      ]
      | inr ne ↦ inr (placed_pointer m j ∙ rw ne (same_pointers m j))
    ]

    -- The new block is none that a file had.
    fresh : (m j : ℕ) → j < 8 → pointer_of d m j ≢ 0 → pointer_of d m j ≢ p
    fresh m j lt ne e =
        let (k', at, _, set) = sound.taken m j lt ne in
        let same : k' ≡ k = omega (arith, new.address, at, e) in
        let free : bit_of d.bitmap k' ≡ 0 =
          subst (λ x. bit_of d.bitmap x ≡ 0) (sym same) new.was_free in
        omega (arith, set, free)

    placed-IsSound : IsSound (set_pointer d' n i p)
    placed-IsSound = record {
      counted = IsCounted-ext (set_pointer d' n i p) refl refl counted;
      taken = λ m j lt ne. elim (slot m j) [
        | inl (_, _, at) ↦ (k, at ∙ new.address, new.in_range, ground (arith, new.marked k))
        | inr old ↦
            let (k', at, k_lt, set) = sound.taken m j lt (λ z. ne (old ∙ z)) in
            (k', old ∙ at, k_lt, bits_kept k' set)
      ];
      distinct = λ m j m' j' lt lt' ne eq. elim (slot m j) [
        | inl (e, e₁, at) ↦ elim (slot m' j') [
          | inl (e', e₁', at') ↦ (e ∙ sym e', e₁ ∙ sym e₁')
          | inr old' ↦ absurd (fresh m' j' lt' (λ z. ne (eq ∙ old' ∙ z)) (sym old' ∙ sym eq ∙ at))
        ]
        | inr old ↦ elim (slot m' j') [
          | inl (_, _, at') ↦ absurd (fresh m j lt (λ z. ne (old ∙ z)) (sym old ∙ eq ∙ at'))
          | inr old' ↦ sound.distinct m j m' j' lt lt' (λ z. ne (old ∙ z)) (sym old ∙ eq ∙ old')
        ]
      ];
    }

inode_pointer :
    (d : Disk) (n : ℕ) (node : Inode)
    → node.pointers ≡ (d.inodes n).pointers
    → (m i : ℕ) → pointer_of (set_inode d n node) m i ≡ pointer_of d m i
inode_pointer d n node e m i = elim (Bool-cases (m == n)) [
  | inl same ↦
      rw (same, pointer_of) (ap (λ f. f i) e ∙ ap (λ x. pointer_of d x i) (sym (==→eq m n same)))
  | inr other ↦ rw (other, pointer_of) refl
]

blank_pointer :
    (d : Disk) (n m i : ℕ)
    → (pointer_of (set_inode d n blank_inode) m i ≡ pointer_of d m i)
      ⊎ (pointer_of (set_inode d n blank_inode) m i ≡ 0)
blank_pointer d n m i = elim (Bool-cases (m == n)) [
  | inl same ↦ inr (rw (same, pointer_of) refl)
  | inr other ↦ inl (rw (other, pointer_of) refl)
]

pub IsSound-IsKept : IsKept IsSound
IsSound-IsKept = record {
  memory = λ d m s.
      IsSound-ext d _ s (IsCounted-ext _ refl refl s.counted) (λ k set. set) (λ n i. inl refl);
  free_inodes = λ d k s.
      IsSound-ext d _ s (IsCounted-ext _ refl refl s.counted) (λ k set. set) (λ n i. inl refl);
  inode = λ d n node e s.
      IsSound-ext d _ s (IsCounted-ext _ refl refl s.counted) (λ k set. set)
        (λ m i. inl (inode_pointer d n node e m i));
  blank = λ d n s.
      IsSound-ext d _ s (IsCounted-ext _ refl refl s.counted) (λ k set. set) (blank_pointer d n);
  new = λ d p d' s e.
      let (k, new) = new_block-found d p d' s.counted e in
      new-IsSound d p k d' s new (IsCounted-new s.counted e);
  placed = λ d n i p d' s e.
      let (k, new) = new_block-found d p d' s.counted e in
      placed-IsSound d p k d' s new (IsCounted-new s.counted e) n i;
}
