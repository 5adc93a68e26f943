-- ===== src/Ramdisk/Create/Added.antt =====
-- The lookups of other names in the disk that `rd_create` of kernelspace/discos.c leaves.
use file_system_toy_os.Prelude.{
  none, ltb, ℕ, ◌%◌, ◌<◌, ◌≡◌, ◌≢◌, ◌⊎◌, inl, inr, refl, sym, ap, ◌∙◌, false, arith, ◌==◌,
  Bool-cases, ==→eq, ==→ne,
}
use mathlib.Core.Path.{subst}
use file_system_toy_os.Ramdisk.Memory.{Mem, CString, streq, load16}
use file_system_toy_os.Ramdisk.Memory.Names.{streq-ext}
use file_system_toy_os.Ramdisk.Path.{same}
use file_system_toy_os.Ramdisk.Disk.{FileType, Disk, entry_address, inode_num_address}
use file_system_toy_os.Ramdisk.Bitmap.{allocate_inode}
use file_system_toy_os.Ramdisk.Bitmap.Bits.{bit_of}
use file_system_toy_os.Ramdisk.Lookup.{step_to, find_component}
use file_system_toy_os.Ramdisk.Lookup.Unchanged.{IsSameBlock, step_to-same, find_component-same}
use file_system_toy_os.Ramdisk.Sound.{IsSound, new_block-found}
use file_system_toy_os.Ramdisk.Entry.{set_pointer}
use file_system_toy_os.Ramdisk.Tree.{enter}
use file_system_toy_os.Ramdisk.Create.Named.{IsName, entered, step_to-none, clear_bytes-IsAbsent}
use file_system_toy_os.Ramdisk.Create.Place.{IsPlace, IsAdded}
use file_system_toy_os.Ramdisk.Create.Entered.{outside, beside, streq-entered, same_block}
use file_system_toy_os.Ramdisk.Create.Tidy.{IsTidy, step_to_null, inodes-enter}

module _ (d d' : Disk) (sound : IsSound d) (cur e k : ℕ) (name : CString) (is : IsName name)
    (place : IsPlace d d' cur name e) (small : k < 1024) (type : FileType) (mode : ℕ) (n : ℕ)
    (differs : n ≢ k) (o : CString) (other : IsName o) (apart : (n ≢ cur) ⊎ (same name o ≡ false))
    (tidy : IsTidy d n o) where
  abbrev after : Disk
  after = enter d' cur e k name type mode

  entry_aligned : e % 16 ≡ 0
  entry_aligned =
      let al = place.without.aligned place.block place.block_in in
      let ad = place.address in omega (arith, al, ad)

  abbrev written : Mem
  written = entered d'.memory name is e k entry_aligned (omega (arith, small))

  memory-after : after.memory ≡ written
  unfolding enter allocate_inode
  memory-after = refl

  pointers-after : (i : ℕ) → (after.inodes n).pointers i ≡ (d'.inodes n).pointers i
  pointers-after i = ap (λ p. p i) (inodes-enter d' cur e k n name type mode differs).0

  block-aligned :
      (m i : ℕ) → i < 8 → (d.inodes m).pointers i ≢ 0 → (d.inodes m).pointers i % 256 ≡ 0
  block-aligned m i lt ne = let (b, at, lt', set) = sound.taken m i lt ne in omega (arith, at)

  -- In an entry that was there.
  step_in_old :
      (i : ℕ)
      → i < 8
      → d' ≡ d
      → load16 d.memory (inode_num_address e) ≡ 0
      → (d.inodes n).pointers i ≢ 0
      → IsSameBlock d.memory written o ((d.inodes n).pointers i)
  step_in_old i lt same_disk free there =
      let q = (d.inodes n).pointers i in
      let al = block-aligned n i lt there in
      same_block d'.memory name is e k entry_aligned (omega (arith, small)) d.memory o q other al
        (λ x le u. ap (λ f. f.memory x) same_disk)
        (λ j j_lt here. (
          elim apart [
            | inr ne ↦ ne
            | inl elsewhere ↦
                let there' : (d.inodes cur).pointers place.block ≢ 0 =
                  subst (λ f. (f.inodes cur).pointers place.block ≢ 0) same_disk place.there in
                let al' = block-aligned cur place.block place.block_in there' in
                let at : e ≡ entry_address ((d.inodes cur).pointers place.block) place.slot =
                  subst (λ f. e ≡ entry_address ((f.inodes cur).pointers place.block) place.slot)
                    same_disk place.address in
                let slot = place.slot_in in
                absurd (
                  elsewhere
                    (sound.distinct n i cur place.block lt place.block_in there
                      (omega (arith, here, at, al, al', slot))).0)
          ],
          subst (λ a. streq d.memory a o ≡ false) here
              (tidy.unnamed i j lt j_lt there
                (subst (λ a. load16 d.memory (inode_num_address a) ≡ 0) (sym here) free)),
        ))

  -- In an entry of a new block, which no directory had.
  module _ (added : IsAdded d d' cur e) where
    step_beside_new :
        (i : ℕ)
        → i < 8
        → (d.inodes n).pointers i ≢ 0
        → IsSameBlock d.memory written o ((d.inodes n).pointers i)
    step_beside_new i lt there =
        let q = (d.inodes n).pointers i in
        let (c, new) = new_block-found d added.block added.between sound.counted added.new in
        let (b, at, b_lt, set) = sound.taken n i lt there in
        let ne : b ≢ c = λ z. absurd (omega (arith, ap (bit_of d.bitmap) z, set, new.was_free)) in
        let first = added.first in
        let address = new.address in
        same_block d'.memory name is e k entry_aligned (omega (arith, small)) d.memory o q other
          (omega (arith, at))
          (λ x le u.
            ap (λ f. f.memory x) added.placed
            ∙ ap (λ f. f x) new.zeroed
            ∙ outside d.memory added.block x (elim (Bool-cases (ltb x added.block)) [
              | inl before ↦ inl (ground arith)
              | inr behind ↦ inr (ground (arith, at, address, ne))
            ]))
          (λ j j_lt here. absurd (omega (arith, here, first, address, at, ne)))

    -- The new block itself, for the name that is not the new one.
    step_in_new : same name o ≡ false → step_to written o n added.block ≡ none
    step_in_new new_name =
        let (c, new) = new_block-found d added.block added.between sound.counted added.new in
        let first = added.first in
        let address = new.address in
        step_to-none written o n added.block (λ j lt.
          elim (Bool-cases (entry_address added.block j == e)) [
            | inl here ↦ rw (==→eq _ e here) (
                streq-entered d'.memory name is e k entry_aligned (omega (arith, small)) o other
                  new_name)
            | inr ne ↦
                streq-ext d'.memory written (entry_address added.block j) o (λ x le u.
                  beside d'.memory name is e k entry_aligned (omega (arith, small))
                    (entry_address added.block j) (omega (arith, address)) (==→ne _ e ne) x le
                    (omega (arith, other.fits)))
                ∙ ap (λ m. streq m (entry_address added.block j) o)
                    (ap (λ f. f.memory) added.placed ∙ new.zeroed)
                ∙ clear_bytes-IsAbsent d.memory o added.block other j lt
          ])

    pointer_added :
        (i : ℕ)
        → ((n ≡ cur) × (i ≡ added.index) × ((after.inodes n).pointers i ≡ added.block))
          ⊎ ((after.inodes n).pointers i ≡ (d.inodes n).pointers i)
    pointer_added i =
        let (c, new) = new_block-found d added.block added.between sound.counted added.new in
        let now : (after.inodes n).pointers i
            ≡ ((set_pointer added.between cur added.index added.block).inodes n).pointers i =
          pointers-after i ∙ ap (λ f. (f.inodes n).pointers i) added.placed in
        let kept : (added.between.inodes n).pointers i ≡ (d.inodes n).pointers i =
          ap (λ f. (f n).pointers i) new.inodes in
        elim (Bool-cases (cur == n)) [
          | inr elsewhere ↦ inr (now ∙ ground (arith, elsewhere, kept))
          | inl here ↦ elim (Bool-cases (added.index == i)) [
            | inl index ↦
                inl
                  (sym (==→eq cur n here), sym (==→eq _ i index), now ∙ ground (arith, here, index))
            | inr ne ↦ inr (now ∙ ground (arith, here, ne, kept))
          ]
        ]

    step_added :
        (i : ℕ)
        → i < 8
        → step_to after.memory o n ((after.inodes n).pointers i)
          ≡ step_to d.memory o n ((d.inodes n).pointers i)
    step_added i lt = elim (pointer_added i) [
      | inr same_pointer ↦
          ap (λ q. step_to after.memory o n q) same_pointer
          ∙ ap (λ m. step_to m o n ((d.inodes n).pointers i)) memory-after
          ∙ step_to-same d.memory written o n ((d.inodes n).pointers i) (step_beside_new i lt)
      | inl (here, index, block) ↦
          let null : (d.inodes n).pointers i ≡ 0 = rw (here, index) added.was_null in
          let new_name : same name o ≡ false = elim apart [
            | inl elsewhere ↦ absurd (elsewhere here)
            | inr ne ↦ ne
          ] in
          ap (λ q. step_to after.memory o n q) block
          ∙ ap (λ m. step_to m o n added.block) memory-after
          ∙ step_in_new new_name
          ∙ sym (step_to_null d.memory o n _ null)
    ]

  step_after :
      (i : ℕ)
      → i < 8
      → step_to after.memory o n ((after.inodes n).pointers i)
        ≡ step_to d.memory o n ((d.inodes n).pointers i)
  step_after i lt = elim place.obtained [
    | inl (same_disk, free) ↦
        rw (pointers-after i ∙ ap (λ f. (f.inodes n).pointers i) same_disk, memory-after)
          (step_to-same d.memory written o n ((d.inodes n).pointers i)
            (step_in_old i lt same_disk free))
    | inr added ↦ step_added added i lt
  ]

  indirect_before :
      ((d'.inodes n).single_indirect ≡ (d.inodes n).single_indirect)
      × ((d'.inodes n).double_indirect ≡ (d.inodes n).double_indirect)
  indirect_before = elim place.obtained [
    | inl (same_disk, free) ↦ (
      ap (λ f. (f.inodes n).single_indirect) same_disk,
      ap (λ f. (f.inodes n).double_indirect) same_disk,
    )
    | inr added ↦
        let (c, new) = new_block-found d added.block added.between sound.counted added.new in
        (
          ap (λ f. (f.inodes n).single_indirect) added.placed ∙ rw new.inodes (ground arith),
          ap (λ f. (f.inodes n).double_indirect) added.placed ∙ rw new.inodes (ground arith),
        )
  ]

  indirect-after : ((after.inodes n).single_indirect ≡ 0) × ((after.inodes n).double_indirect ≡ 0)
  indirect-after =
      let (p, single, double) = inodes-enter d' cur e k n name type mode differs in
      let (single', double') = indirect_before in
      (single ∙ single' ∙ tidy.no_single, double ∙ double' ∙ tidy.no_double)

  pub find_component-after : find_component after o n ≡ find_component d o n
  find_component-after =
      find_component-same d after o n tidy.no_single tidy.no_double indirect-after.0
        indirect-after.1 step_after
