-- ===== src/Ramdisk/Clear/Sweep.antt =====
-- The loop of `clear_entry_in_current_dir` of kernelspace/discos.c over the direct blocks, and the
-- lookup of a name that it is not called with.
use file_system_toy_os.Prelude.{ℕ, ◌<◌, ◌≡◌, inl, inr, refl, sym, ap, ◌∙◌, false, arith, Bool-cases}
use file_system_toy_os.Prelude.Loops.{for_range, for_range_inv}
use file_system_toy_os.Ramdisk.Memory.{CString}
use file_system_toy_os.Ramdisk.Path.{same}
use file_system_toy_os.Ramdisk.Disk.{Disk, entry_address}
use file_system_toy_os.Ramdisk.Create.Named.{IsName, step_to-none}
use file_system_toy_os.Ramdisk.Create.Tidy.{step_to_null}
use file_system_toy_os.Ramdisk.Lookup.{step_to}
use file_system_toy_os.Ramdisk.Lookup.Unchanged.{IsSameBlock, step_to-same}
use file_system_toy_os.Ramdisk.Clear.{Clearing, clear_in_direct, clear_entry_in_current_dir}
use file_system_toy_os.Ramdisk.Clear.Others.{IsSameNames-refl}
use file_system_toy_os.Ramdisk.Clear.Rounds.{IsCompanied, IsKeptTo, round-IsKeptTo}

module _ (d : Disk) (n : ℕ) (name o : CString) (is : IsName name) (other : IsName o)
    (differs : same name o ≡ false) (has : IsCompanied d n o) where
  abbrev was : ℕ → ℕ
  was i = (d.inodes n).pointers i

  abbrev swept : Clearing
  swept = for_range 8 0 (clear_in_direct name n) (record { disk = d; find_entry = false })

  swept-IsKeptTo : IsKeptTo d n name o is other differs has 8 swept
  swept-IsKeptTo =
      for_range_inv (IsKeptTo d n name o is other differs has) (clear_in_direct name n) 8 0 8
        (record { disk = d; find_entry = false }) refl
        (λ i s le lt h. round-IsKeptTo d n name o is other differs has i lt s h)
        (record {
          same_names = IsSameNames-refl d.memory o;
          later = λ m le lt ne x ge u. refl;
          pointers = λ m lt. inl refl;
          untouched = λ m le. refl;
          single = refl;
          double = refl;
        })

  -- Where the lookup in the directory finds the name, or that it does not.
  pub record IsSameLookup (d' : Disk) : Type 0 where
    pub steps :
        (i : ℕ)
        → i < 8
        → step_to d'.memory o n ((d'.inodes n).pointers i) ≡ step_to d.memory o n (was i)
    pub single : (d'.inodes n).single_indirect ≡ (d.inodes n).single_indirect
    pub double : (d'.inodes n).double_indirect ≡ (d.inodes n).double_indirect

  block_swept : (i : ℕ) → i < 8 → IsSameBlock d.memory swept.disk.memory o (was i)
  block_swept i lt =
      let al = has.aligned i lt in
      let h = swept-IsKeptTo.same_names in
      record {
        names = λ j j_lt. h.names (entry_address (was i) j) (omega (arith, al));
        numbers = λ j j_lt. h.numbers (entry_address (was i) j) (omega (arith, al));
      }

  swept-IsSameLookup : IsSameLookup swept.disk
  swept-IsSameLookup = record {
    steps = λ i lt. elim (swept-IsKeptTo.pointers i lt) [
      | inl kept ↦
          ap (λ q. step_to swept.disk.memory o n q) kept
          ∙ step_to-same d.memory swept.disk.memory o n (was i) (λ ne. block_swept i lt)
      | inr (null, absent) ↦
          step_to_null swept.disk.memory o n _ null ∙ sym (step_to-none d.memory o n (was i) absent)
    ];
    single = swept-IsKeptTo.single;
    double = swept-IsKeptTo.double;
  }

  pub clear_entry_in_current_dir-IsSameLookup :
      (d.inodes n).single_indirect ≡ 0 → IsSameLookup (clear_entry_in_current_dir d n name)
  unfolding clear_entry_in_current_dir
  clear_entry_in_current_dir-IsSameLookup no_single = elim (Bool-cases swept.find_entry) [
    | inl found ↦ rw (found, clear_entry_in_current_dir) swept-IsSameLookup
    | inr missing ↦
        rw (missing, swept-IsKeptTo.single ∙ no_single, clear_entry_in_current_dir)
          swept-IsSameLookup
  ]
