-- ===== src/Ramdisk/Kept/Entries.antt =====
-- The search for a free directory entry in kernelspace/discos.c and the count of free
-- blocks.
use mathlib.Core.Path.{subst}
use file_system_toy_os.Prelude.{
  ℕ, zero, suc, ◌+◌, ◌-◌, ◌/◌, ◌%◌, refl, Bool, true, false, ◌&&◌, Option, none, some, ltb, leb,
  ◌==◌, if◌then◌else◌, Bool-cases, Option-cases, inl, inr,
}
use file_system_toy_os.Prelude.Loops.{Step, next, done, Ends, first_some}
use file_system_toy_os.Ramdisk.Disk.{Disk, index_block}
use file_system_toy_os.Ramdisk.Bitmap.{new_block}
use file_system_toy_os.Ramdisk.Entry.{
  get_next_dir_entry, set_index_block, get_next_dir_entry_single, get_next_dir_entry_double,
  entry_in_direct, or_go_on, entry_in_single_part, entry_in_double_part, after_single, after_direct,
  get_next_entry,
}
use file_system_toy_os.Ramdisk.Kept.{IsKept}

module _ (P : Disk → Type 0) (kept : IsKept P) where
  -- The count is right on the disk of a result, and of one that may not have been reached.
  abbrev pub KeptAt : Option ℕ × Disk → Type 0
  KeptAt r = P r.1

  abbrev KeptIf : Option (Option ℕ × Disk) → Type 0
  KeptIf none = Unit {0}
  KeptIf (some r) = KeptAt r

  get_next_dir_entry_single-KeptAt :
      (d : Disk) (single seg : ℕ) → P d → KeptAt (get_next_dir_entry_single d single seg)
  unfolding get_next_dir_entry_single set_index_block
  get_next_dir_entry_single-KeptAt d single seg c =
      elim (Bool-cases (index_block d.memory single seg == 0)) [
        | inl null ↦ elim (Option-cases (new_block d)) [
          | inl full ↦ rw (null, full, get_next_dir_entry_single) c
          | inr ((block, d'), e) ↦
              rw (null, e, get_next_dir_entry_single) (kept.memory _ _ (kept.new _ _ _ c e))
        ]
        | inr there ↦ rw (there, get_next_dir_entry_single) c
      ]

  get_next_dir_entry_double-KeptAt :
      (d : Disk) (double segment : ℕ) → P d → KeptAt (get_next_dir_entry_double d double segment)
  unfolding get_next_dir_entry_double
  get_next_dir_entry_double-KeptAt d double segment c =
      elim (Bool-cases (index_block d.memory double (segment / 64) == 0)) [
        | inl null ↦ elim (Option-cases (new_block d)) [
          | inl full ↦ rw (null, full, get_next_dir_entry_double) c
          | inr ((block, d'), e) ↦
              rw (null, e, get_next_dir_entry_double)
                (get_next_dir_entry_single-KeptAt d' block (segment % 64) (kept.new _ _ _ c e))
        ]
        | inr there ↦
            rw (there, get_next_dir_entry_double)
              (get_next_dir_entry_single-KeptAt d _ (segment % 64) c)
      ]

  entry_in_direct-KeptIf : (d : Disk) (n i : ℕ) → P d → KeptIf (entry_in_direct d n i)
  unfolding entry_in_direct
  entry_in_direct-KeptIf d n i c = elim (Bool-cases ((d.inodes n).pointers i == 0)) [
    | inl null ↦ elim (Option-cases (new_block d)) [
      | inl full ↦ rw (null, full, entry_in_direct) c
      | inr ((block, d'), e) ↦ rw (null, e, entry_in_direct) (kept.placed d n i block d' c e)
    ]
    | inr there ↦ elim (Option-cases (get_next_dir_entry d.memory ((d.inodes n).pointers i))) [
      | inl full ↦ rw (there, full, entry_in_direct) tt
      | inr (entry, e) ↦ rw (there, e, entry_in_direct) c
    ]
  ]

  direct_rounds :
      (d : Disk) (n rounds i : ℕ) → P d → KeptIf (first_some rounds i (entry_in_direct d n))
  unfolding first_some
  direct_rounds d n zero i c = tt
  direct_rounds d n (suc rounds) i c = elim (Option-cases (entry_in_direct d n i)) [
    | inl e ↦ rw (e, first_some) (direct_rounds d n rounds (i + 1) c)
    | inr (r, e) ↦ rw (e, first_some) (subst KeptIf e (entry_in_direct-KeptIf d n i c))
  ]

  abbrev StepKept {ℓ} : {S : Type ℓ} → (S → Disk) → Step S (Option ℕ × Disk) → Type 0
  StepKept disk_of o = Ends (λ t. P (disk_of t)) KeptAt o

  or_go_on-StepKept : (r : Option ℕ × Disk) → KeptAt r → StepKept (λ d. d) (or_go_on r)
  or_go_on-StepKept (none, d) c = c
  or_go_on-StepKept (some entry, d) c = c

  entry_in_single_part-StepKept :
      (d : Disk) (n seg : ℕ) → P d → StepKept (λ d'. d') (entry_in_single_part d n seg)
  unfolding entry_in_single_part
  entry_in_single_part-StepKept d n seg c = elim (Bool-cases ((d.inodes n).single_indirect == 0)) [
    | inl null ↦ elim (Option-cases (new_block d)) [
      | inl full ↦ rw (null, full, entry_in_single_part) c
      | inr ((index, d'), e) ↦
          rw (null, e, entry_in_single_part)
            (or_go_on-StepKept _ (
              get_next_dir_entry_single-KeptAt _ index (seg - 8)
                (kept.inode _ n _ refl (kept.new _ _ _ c e))))
    ]
    | inr there ↦
        rw (there, entry_in_single_part)
          (or_go_on-StepKept _ (get_next_dir_entry_single-KeptAt d _ (seg - 8) c))
  ]

  entry_in_double_part-KeptAt : (d : Disk) (n seg : ℕ) → P d → KeptAt (entry_in_double_part d n seg)
  unfolding entry_in_double_part
  entry_in_double_part-KeptAt d n seg c = elim (Bool-cases ((d.inodes n).double_indirect == 0)) [
    | inl null ↦ elim (Option-cases (new_block d)) [
      | inl full ↦ rw (null, full, entry_in_double_part) c
      | inr ((index, d'), e) ↦
          rw (null, e, entry_in_double_part)
            (get_next_dir_entry_double-KeptAt _ index (seg - 72)
              (kept.inode _ n _ refl (kept.new _ _ _ c e)))
    ]
    | inr there ↦
        rw (there, entry_in_double_part) (get_next_dir_entry_double-KeptAt d _ (seg - 72) c)
  ]

  after_single-StepKept :
      (seg : ℕ) (o : Step Disk (Option ℕ × Disk))
      → StepKept (λ d. d) o
      → StepKept (λ p. p.1) (after_single seg o)
  after_single-StepKept seg (next d) c = c
  after_single-StepKept seg (done r) c = c

  after_direct-KeptAt : (d : Disk) (n seg : ℕ) → P d → KeptAt (after_direct d n seg)
  unfolding after_direct
  after_direct-KeptAt d n seg c = elim (Bool-cases (leb 8 seg && ltb seg 72)) [
    | inl here ↦
        rw (here, after_direct)
          (double_part (after_single seg (entry_in_single_part d n seg)) (
            after_single-StepKept seg (entry_in_single_part d n seg)
              (entry_in_single_part-StepKept d n seg c)))
    | inr past ↦ rw (past, after_direct) (double_part (next (seg, d)) c)
  ]
    where
      in_range :
          (b : Bool) (seg' : ℕ) (d' : Disk)
          → P d'
          → KeptAt (if b then entry_in_double_part d' n seg' else (none, d'))
      in_range true seg' d' c' = entry_in_double_part-KeptAt d' n seg' c'
      in_range false seg' d' c' = c'

      double_part :
          (o : Step (ℕ × Disk) (Option ℕ × Disk))
          → StepKept (λ p. p.1) o
          → KeptAt (elim o [
            | done r ↦ r
            | next (seg', d') ↦
                if leb 72 seg' && ltb seg' 4168 then entry_in_double_part d' n seg' else (none, d')
          ])
      double_part (next (seg', d')) c' = in_range _ seg' d' c'
      double_part (done r) c' = c'

  pub get_next_entry-KeptAt : (d : Disk) (n : ℕ) → P d → KeptAt (get_next_entry d n)
  unfolding get_next_entry
  get_next_entry-KeptAt d n c =
      let seg = (d.inodes n).size / 256 in
      elim (Option-cases (first_some (8 - seg) seg (entry_in_direct d n))) [
        | inl e ↦ rw (e, get_next_entry) (after_direct-KeptAt d n seg c)
        | inr (r, e) ↦ rw (e, get_next_entry) (subst KeptIf e (direct_rounds d n (8 - seg) seg c))
      ]
