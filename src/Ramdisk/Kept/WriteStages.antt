-- ===== src/Ramdisk/Kept/WriteStages.antt =====
-- The stages of `rd_write` in kernelspace/discos.c and the count of free blocks.
use file_system_toy_os.Ramdisk.Disk.{Disk, index_block}
use file_system_toy_os.Prelude.{
  failure, ℕ, ◌+◌, ◌-◌, ◌/◌, ◌%◌, refl, ◌&&◌, Option, none, some, ltb, leb, ◌==◌, Bool-cases,
  Option-cases, inl, inr, ℤ,
}
use file_system_toy_os.Prelude.Loops.{Step, next, done, for_until, Ends, for_until_inv}
use file_system_toy_os.Ramdisk.Memory.{Mem}
use file_system_toy_os.Ramdisk.Bitmap.{new_block}
use file_system_toy_os.Ramdisk.Entry.{set_index_block}
use file_system_toy_os.Ramdisk.Write.Stages.{
  Writing, Outcome, write_byte, write_block, write_direct_block, write_direct, write_index_block,
  single_of, double_of, write_single, index_of, write_double_block,
}
use file_system_toy_os.Ramdisk.Kept.{IsKept}

module _ (P : Disk → Type 0) where
  -- The count is right on the disk of a state, of an outcome, of an index block just looked up.
  abbrev pub KeptIn : Writing → Type 0
  KeptIn w = P w.disk

  abbrev pub KeptAfter : Outcome → Type 0
  KeptAfter o = Ends KeptIn (λ r. P r.1.disk) o

  abbrev pub KeptWith : Option (ℕ × Writing) → Type 0
  KeptWith none = Unit {0}
  KeptWith (some (index, w)) = P w.disk

  -- After a round over the double indirect block, whose state has the segment too.
  abbrev pub DoubleAfter : Step (Writing × ℕ) (ℤ × Writing) → Type 0
  DoubleAfter o = Ends (λ p. P p.0.disk) (λ r. P r.1.disk) o

  module _ (kept : IsKept P) where
    module _ (content : Mem) (num_bytes n : ℕ) where
      write_byte-KeptAfter :
          (block j : ℕ) (w : Writing)
          → P w.disk
          → KeptAfter (write_byte content num_bytes n block j w)
      unfolding write_byte
      write_byte-KeptAfter block j w c = elim (Bool-cases (content w.written == 0)) [
        | inl nul ↦ rw (nul, write_byte) c
        | inr byte ↦ elim (Bool-cases (w.written + 1 == num_bytes)) [
          | inl last ↦ rw (byte, last, write_byte) (kept.inode _ n _ refl (kept.memory _ _ c))
          | inr more ↦ rw (byte, more, write_byte) (kept.inode _ n _ refl (kept.memory _ _ c))
        ]
      ]

      write_block-KeptAfter :
          (block offset : ℕ) (w : Writing)
          → P w.disk
          → KeptAfter (write_block content num_bytes n block offset w)
      unfolding write_block
      write_block-KeptAfter block offset w c =
          for_until_inv (λ k. KeptIn) (λ r. P r.1.disk) (write_byte content num_bytes n block)
            (256 - offset) offset (offset + (256 - offset)) w refl
            (λ j t a b p. write_byte-KeptAfter block j t p) c

      write_direct_block-KeptAfter :
          (offset i : ℕ) (w : Writing)
          → P w.disk
          → KeptAfter (write_direct_block content num_bytes n offset i w)
      unfolding write_direct_block
      write_direct_block-KeptAfter offset i w c =
          elim (Bool-cases ((w.disk.inodes n).pointers i == 0)) [
            | inl null ↦ elim (Option-cases (new_block w.disk)) [
              | inl full ↦ rw (null, full, write_direct_block) c
              | inr ((block, d), e) ↦
                  rw (null, e, write_direct_block)
                    (write_block-KeptAfter block offset _ (kept.placed _ n i block d c e))
            ]
            | inr there ↦ rw (there, write_direct_block) (write_block-KeptAfter _ offset w c)
          ]

      write_index_block-KeptAfter :
          (index offset i : ℕ) (w : Writing)
          → P w.disk
          → KeptAfter (write_index_block content num_bytes n index offset i w)
      unfolding write_index_block set_index_block
      write_index_block-KeptAfter index offset i w c =
          elim (Bool-cases (index_block w.disk.memory index i == 0)) [
            | inl null ↦ elim (Option-cases (new_block w.disk)) [
              | inl full ↦ rw (null, full, write_index_block) c
              | inr ((block, d), e) ↦
                  rw (null, e, write_index_block)
                    (write_block-KeptAfter block offset _ (kept.memory _ _ (kept.new _ _ _ c e)))
            ]
            | inr there ↦ rw (there, write_index_block) (write_block-KeptAfter _ offset w c)
          ]

      -- Rounds over the blocks of an index block.
      index_rounds :
          (index offset rounds i : ℕ) (w : Writing)
          → P w.disk
          → KeptAfter (for_until rounds i (write_index_block content num_bytes n index offset) w)
      index_rounds index offset rounds i w c =
          for_until_inv (λ k. KeptIn) (λ r. P r.1.disk)
            (write_index_block content num_bytes n index offset) rounds i (i + rounds) w refl
            (λ j t a b p. write_index_block-KeptAfter index offset j t p) c

      pub write_direct-KeptAfter :
          (w : Writing) → P w.disk → KeptAfter (write_direct content num_bytes n w)
      unfolding write_direct
      write_direct-KeptAfter w c =
          for_until_inv (λ k. KeptIn) (λ r. P r.1.disk)
            (write_direct_block content num_bytes n (w.cursor % 256)) (8 - w.cursor / 256)
            (w.cursor / 256) (w.cursor / 256 + (8 - w.cursor / 256)) w refl
            (λ j t a b p. write_direct_block-KeptAfter (w.cursor % 256) j t p) c

      single_of-KeptWith : (w : Writing) → P w.disk → KeptWith (single_of n w)
      unfolding single_of
      single_of-KeptWith w c = elim (Bool-cases ((w.disk.inodes n).single_indirect == 0)) [
        | inl null ↦ elim (Option-cases (new_block w.disk)) [
          | inl full ↦ rw (null, full, single_of) tt
          | inr ((index, d), e) ↦
              rw (null, e, single_of) (kept.inode _ n _ refl (kept.new _ _ _ c e))
        ]
        | inr there ↦ rw (there, single_of) c
      ]

      pub double_of-KeptWith : (w : Writing) → P w.disk → KeptWith (double_of n w)
      unfolding double_of
      double_of-KeptWith w c = elim (Bool-cases ((w.disk.inodes n).double_indirect == 0)) [
        | inl null ↦ elim (Option-cases (new_block w.disk)) [
          | inl full ↦ rw (null, full, double_of) tt
          | inr ((index, d), e) ↦
              rw (null, e, double_of) (kept.inode _ n _ refl (kept.new _ _ _ c e))
        ]
        | inr there ↦ rw (there, double_of) c
      ]

      index_of-KeptWith : (double i : ℕ) (w : Writing) → P w.disk → KeptWith (index_of double i w)
      unfolding index_of set_index_block
      index_of-KeptWith double i w c = elim (Bool-cases (index_block w.disk.memory double i == 0)) [
        | inl null ↦ elim (Option-cases (new_block w.disk)) [
          | inl full ↦ rw (null, full, index_of) tt
          | inr ((index, d), e) ↦ rw (null, e, index_of) (kept.memory _ _ (kept.new _ _ _ c e))
        ]
        | inr there ↦ rw (there, index_of) c
      ]

      -- A stage that goes on with an index block if it gets one.
      with_index :
          (o : Option (ℕ × Writing)) (w : Writing) (go_on : ℕ → Writing → Outcome)
          → KeptWith o
          → P w.disk
          → ((index : ℕ) (w' : Writing) → P w'.disk → KeptAfter (go_on index w'))
          → KeptAfter (elim o [ none ↦ done (failure, w) | some (index, w') ↦ go_on index w' ])
      with_index none w go_on h c keep = c
      with_index (some (index, w')) w go_on h c keep = keep index w' h

      pub write_single-KeptAfter :
          (w : Writing) → P w.disk → KeptAfter (write_single content num_bytes n w)
      unfolding write_single
      write_single-KeptAfter w c =
          let size = (w.disk.inodes n).size in
          elim (Bool-cases (leb 8 (size / 256) && ltb (size / 256) 72)) [
            | inl here ↦
                rw (here, write_single)
                  (with_index (single_of n w) w
                    (λ index.
                      for_until (64 - (size / 256 - 8)) (size / 256 - 8)
                        (write_index_block content num_bytes n index (size % 256)))
                    (single_of-KeptWith w c) c
                    (λ index w' c'. index_rounds index (size % 256) _ _ w' c'))
            | inr past ↦ rw (past, write_single) c
          ]

      add_segment :
          (o : Outcome) (seg : ℕ)
          → KeptAfter o
          → DoubleAfter (elim o [ done r ↦ done r | next w ↦ next (w, seg) ])
      add_segment (next w) seg c = c
      add_segment (done r) seg c = c

      pub write_double_block-DoubleAfter :
          (double offset i : ℕ) (p : Writing × ℕ)
          → P p.0.disk
          → DoubleAfter (write_double_block content num_bytes n double offset i p)
      unfolding write_double_block
      write_double_block-DoubleAfter double offset i (w, seg) c =
          by_index (index_of double i w) (index_of-KeptWith double i w c)
        where
          by_index :
              (o : Option (ℕ × Writing))
              → KeptWith o
              → DoubleAfter (elim o [
                | none ↦ done (failure, w)
                | some (index, w') ↦
                    elim (for_until
                      (64 - seg / 64)
                      (seg / 64)
                      (write_index_block content num_bytes n index offset)
                      w') [ done r ↦ done r | next w'' ↦ next (w'', seg / 64) ]
              ])
          by_index none h = c
          by_index (some (index, w')) h =
              add_segment _ (seg / 64) (index_rounds index offset (64 - seg / 64) (seg / 64) w' h)
