-- ===== src/Ramdisk/Clear/Others.antt =====
-- `clear_entry_in_current_dir` of kernelspace/discos.c and the names that it is not called with.
use file_system_toy_os.Prelude.{
  ℕ, ◌+◌, ◌*◌, ◌%◌, ◌<◌, ◌≤◌, ◌≡◌, ◌≢◌, ◌⊎◌, inl, inr, refl, sym, ◌∙◌, Bool, true, false, arith,
  ◌==◌, Bool-cases, ==→eq, ==→ne, if◌then◌else◌,
}
use file_system_toy_os.Prelude.Loops.{for_range_inv}
use file_system_toy_os.Ramdisk.Memory.{Mem, CString, load16, streq, clear_bytes}
use file_system_toy_os.Ramdisk.Memory.Names.{streq-ext, streq_unique}
use file_system_toy_os.Ramdisk.Path.{same}
use file_system_toy_os.Ramdisk.Disk.{entry_address, inode_num_address}
use file_system_toy_os.Ramdisk.Create.Named.{IsName}
use file_system_toy_os.Ramdisk.Clear.{BlockScan, clear_entry, clear_entries}
use file_system_toy_os.Ramdisk.Clear.Names.{streq-cleared}

-- The memory `m'` has the name where `m` has it, with the same numbers.
pub record IsSameNames (m m' : Mem) (o : CString) : Type 0 where
  pub names : (a : ℕ) → a % 16 ≡ 0 → streq m' a o ≡ streq m a o
  pub numbers :
      (a : ℕ)
      → a % 16 ≡ 0
      → streq m a o ≡ true
      → load16 m' (inode_num_address a) ≡ load16 m (inode_num_address a)

pub IsSameNames-refl : (m : Mem) (o : CString) → IsSameNames m m o
IsSameNames-refl m o = record { names = λ a al. refl; numbers = λ a al h. refl }

pub IsSameNames-trans :
    {m m' m'' : Mem} {o : CString} → IsSameNames m m' o → IsSameNames m' m'' o → IsSameNames m m'' o
IsSameNames-trans h h' = record {
  names = λ a al. h'.names a al ∙ h.names a al;
  numbers = λ a al hit. h'.numbers a al (h.names a al ∙ hit) ∙ h.numbers a al hit;
}

module _ (name o : CString) (is : IsName name) (other : IsName o)
    (differs : same name o ≡ false) where
  outside : (m : Mem) (e x : ℕ) → (x < e) ⊎ (e + 16 ≤ x) → clear_bytes m e 16 x ≡ m x
  unfolding clear_bytes
  outside m e x (inl lt) = ground arith
  outside m e x (inr le) = ground arith

  beside :
      (m : Mem) (e a x : ℕ)
      → e % 16 ≡ 0
      → a % 16 ≡ 0
      → a ≢ e
      → a ≤ x
      → x < a + 16
      → clear_bytes m e 16 x ≡ m x
  unfolding clear_bytes
  beside m e a x al al' ne le lt = ground arith

  -- An entry that bears the name does not bear the other, and is cleared.
  cleared-IsSameNames :
      (m : Mem) (e : ℕ) → e % 16 ≡ 0 → streq m e name ≡ true → IsSameNames m (clear_bytes m e 16) o
  unfolding load16
  cleared-IsSameNames m e al hit =
      let absent : streq m e o ≡ false =
        streq_unique m e name o is.no_nul other.no_nul hit ∙ differs in
      record {
        names = λ a al'. elim (Bool-cases (a == e)) [
          | inl here ↦ rw (==→eq a e here) (streq-cleared m e o other ∙ sym absent)
          | inr ne ↦
              streq-ext m (clear_bytes m e 16) a o
                (λ x le u. beside m e a x al al' (==→ne a e ne) le (omega (arith, other.fits)))
        ];
        numbers = λ a al' bears. elim (Bool-cases (a == e)) [
          | inl here ↦ absurd (cc (bears, absent, ==→eq a e here))
          | inr ne ↦
              rw
                (
                  beside m e a (inode_num_address a) al al' (==→ne a e ne) (omega arith)
                      (omega arith),
                  beside m e a (inode_num_address a + 1) al al' (==→ne a e ne) (omega arith)
                      (omega arith),
                )
                refl
        ];
      }

  -- Before round `j` of the scan of the block at `q`.
  pub record IsScannedTo (m : Mem) (q j : ℕ) (s : BlockScan) : Type 0 where
    pub same_names : IsSameNames m s.memory o
    pub ahead : (x : ℕ) → (x < q) ⊎ (q + 16 * j ≤ x) → s.memory x ≡ m x

  module _ (m : Mem) (q : ℕ) (al : q % 256 ≡ 0) where
    round-IsScannedTo :
        (j : ℕ) (s : BlockScan)
        → IsScannedTo m q j s
        → IsScannedTo m q (j + 1) (clear_entry name q j s)
    unfolding clear_entry
    round-IsScannedTo j s h = elim (Bool-cases (streq s.memory (entry_address q j) name)) [
      | inl hit ↦
          rw (hit, clear_entry)
            (record {
              same_names =
                  IsSameNames-trans h.same_names
                    (cleared-IsSameNames s.memory (entry_address q j) (omega (arith, al)) hit);
              ahead = λ x far. elim far [
                | inl lt ↦
                    outside s.memory (entry_address q j) x (inl (omega (arith, lt)))
                    ∙ h.ahead x (inl lt)
                | inr le ↦
                    outside s.memory (entry_address q j) x (inr (omega (arith, le)))
                    ∙ h.ahead x (inr (omega (arith, le)))
              ];
            })
      | inr miss ↦
          rw (miss, clear_entry)
            (record {
              same_names = h.same_names;
              ahead = λ x far. elim far [
                | inl lt ↦ h.ahead x (inl lt)
                | inr le ↦ h.ahead x (inr (omega (arith, le)))
              ];
            })
    ]

    abbrev start : Bool → BlockScan
    start find = record { memory = m; non_empty_entries = 0; find_entry = find }

    start-IsScannedTo : (find : Bool) → IsScannedTo m q 0 (start find)
    start-IsScannedTo find = record { same_names = IsSameNames-refl m o; ahead = λ x far. refl }

    pub clear_entries-IsScannedTo : (find : Bool) → IsScannedTo m q 16 (clear_entries name q m find)
    unfolding clear_entries
    clear_entries-IsScannedTo find =
        for_range_inv (IsScannedTo m q) (clear_entry name q) 16 0 16 (start find) refl
          (λ j s le lt h. round-IsScannedTo j s h) (start-IsScannedTo find)

    -- Two entries with numbers are both counted.
    module _ (j j' : ℕ) (order : j < j') (in_block : j' < 16)
        (first : load16 m (inode_num_address (entry_address q j)) ≢ 0)
        (second : load16 m (inode_num_address (entry_address q j')) ≢ 0) where
      record IsCountedTo (i : ℕ) (s : BlockScan) : Type 0 where
        scanned : IsScannedTo m q i s
        one : j < i → 1 ≤ s.non_empty_entries
        two : j' < i → 2 ≤ s.non_empty_entries

      count-clear_entry :
          (i : ℕ) (s : BlockScan)
          → (clear_entry name q i s).non_empty_entries ≡ (
              if load16 s.memory (inode_num_address (entry_address q i)) == 0
              then s.non_empty_entries
              else s.non_empty_entries + 1)
      unfolding clear_entry
      count-clear_entry i s = elim (Bool-cases (streq s.memory (entry_address q i) name)) [
        | inl hit ↦ rw (hit, clear_entry) refl
        | inr miss ↦ rw (miss, clear_entry) refl
      ]

      number_there :
          (i : ℕ) (s : BlockScan)
          → IsScannedTo m q i s
          → load16 s.memory (inode_num_address (entry_address q i))
            ≡ load16 m (inode_num_address (entry_address q i))
      unfolding load16
      number_there i s h =
          rw
            (
              h.ahead (inode_num_address (entry_address q i)) (inr (omega arith)),
              h.ahead (inode_num_address (entry_address q i) + 1) (inr (omega arith)),
            )
            refl

      round-IsCountedTo :
          (i : ℕ) (s : BlockScan) → IsCountedTo i s → IsCountedTo (i + 1) (clear_entry name q i s)
      round-IsCountedTo i s h =
          let count = count-clear_entry i s in
          let number = number_there i s h.scanned in
          elim (Bool-cases (load16 m (inode_num_address (entry_address q i)) == 0)) [
            | inl free ↦
                let same_count : (clear_entry name q i s).non_empty_entries ≡ s.non_empty_entries =
                  count ∙ rw (number, free) refl in
                record {
                  scanned = round-IsScannedTo i s h.scanned;
                  one = λ lt. elim (Bool-cases (i == j)) [
                    | inl e ↦ absurd (first (rw (sym (==→eq i j e)) (==→eq _ 0 free)))
                    | inr ne ↦ rw same_count (h.one (ground arith))
                  ];
                  two = λ lt. elim (Bool-cases (i == j')) [
                    | inl e ↦ absurd (second (rw (sym (==→eq i j' e)) (==→eq _ 0 free)))
                    | inr ne ↦ rw same_count (h.two (ground arith))
                  ];
                }
            | inr used ↦
                let more : (clear_entry name q i s).non_empty_entries ≡ s.non_empty_entries + 1 =
                  count ∙ rw (number, used) refl in
                record {
                  scanned = round-IsScannedTo i s h.scanned;
                  one = λ lt. rw more (omega arith);
                  two = λ lt. rw more (let one = h.one (omega arith) in omega (arith, one));
                }
          ]

      pub two_counted : (find : Bool) → 2 ≤ (clear_entries name q m find).non_empty_entries
      unfolding clear_entries
      two_counted find =
          (for_range_inv IsCountedTo (clear_entry name q) 16 0 16 (start find) refl
              (λ i s le lt h. round-IsCountedTo i s h)
              (record {
                scanned = start-IsScannedTo find;
                one = λ lt. absurd (omega (arith, lt));
                two = λ lt. absurd (omega (arith, lt));
              })).two
            in_block
