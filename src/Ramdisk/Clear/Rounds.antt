-- ===== src/Ramdisk/Clear/Rounds.antt =====
-- The rounds of `clear_entry_in_current_dir` of kernelspace/discos.c over a direct block, and a name
-- that it is not called with.
use file_system_toy_os.Prelude.{
  ℕ, ◌+◌, ◌%◌, ◌<◌, ◌≤◌, ◌≡◌, ◌≢◌, ◌⊎◌, inl, inr, refl, sym, ◌∙◌, false, ◌&&◌, arith, ◌==◌, ltb,
  Bool-cases, ==→eq, ==→ne, if◌then◌else◌,
}
use file_system_toy_os.Ramdisk.Memory.{Mem, CString, load16}
use file_system_toy_os.Ramdisk.Path.{same}
use file_system_toy_os.Ramdisk.Disk.{Disk, entry_address, inode_num_address}
use file_system_toy_os.Ramdisk.Create.Named.{IsName, IsAbsent}
use file_system_toy_os.Ramdisk.Entry.{set_pointer}
use file_system_toy_os.Ramdisk.Clear.{BlockScan, clear_entries, Clearing, unmark, clear_in_direct}
use file_system_toy_os.Ramdisk.Clear.Others.{
  IsSameNames, IsSameNames-trans, IsScannedTo, clear_entries-IsScannedTo, two_counted,
}

-- The block at `q` does not bear the name, or has two entries with inode numbers.
abbrev pub HasCompany : Mem → CString → ℕ → Type 0
HasCompany m o q =
    IsAbsent m o q
    ⊎ ((j : ℕ) × (j' : ℕ) × (j < j')
        × (j' < 16)
        × (load16 m (inode_num_address (entry_address q j)) ≢ 0)
        × (load16 m (inode_num_address (entry_address q j')) ≢ 0))

-- The direct blocks of the directory `n`: where they are, and what stands beside the name.
pub record IsCompanied (d : Disk) (n : ℕ) (o : CString) : Type 0 where
  pub aligned : (i : ℕ) → i < 8 → (d.inodes n).pointers i % 256 ≡ 0
  pub distinct :
      (i j : ℕ)
      → i < 8
      → j < 8
      → (d.inodes n).pointers i ≢ 0
      → (d.inodes n).pointers i ≡ (d.inodes n).pointers j
      → i ≡ j
  pub company :
      (i : ℕ)
      → i < 8
      → (d.inodes n).pointers i ≢ 0
      → HasCompany d.memory o ((d.inodes n).pointers i)

module _ (d : Disk) (n : ℕ) (name o : CString) (is : IsName name) (other : IsName o)
    (differs : same name o ≡ false) (has : IsCompanied d n o) where
  abbrev was : ℕ → ℕ
  was i = (d.inodes n).pointers i

  -- Before round `i`.
  pub record IsKeptTo (i : ℕ) (s : Clearing) : Type 0 where
    pub same_names : IsSameNames d.memory s.disk.memory o
    pub later :
        (m : ℕ)
        → i ≤ m
        → m < 8
        → was m ≢ 0
        → (x : ℕ) → was m ≤ x
        → x < was m + 256
        → s.disk.memory x ≡ d.memory x
    pub pointers :
        (m : ℕ)
        → m < 8
        → ((s.disk.inodes n).pointers m ≡ was m)
          ⊎ (((s.disk.inodes n).pointers m ≡ 0) × IsAbsent d.memory o (was m))
    pub untouched : (m : ℕ) → i ≤ m → (s.disk.inodes n).pointers m ≡ was m
    pub single : (s.disk.inodes n).single_indirect ≡ (d.inodes n).single_indirect
    pub double : (s.disk.inodes n).double_indirect ≡ (d.inodes n).double_indirect

  module _ (i : ℕ) (lt : i < 8) (s : Clearing) (h : IsKeptTo i s) where
    abbrev block_of : ℕ
    block_of = (s.disk.inodes n).pointers i

    at : block_of ≡ was i
    at = h.untouched i (omega arith)

    aligned_here : block_of % 256 ≡ 0
    aligned_here = rw at (has.aligned i lt)

    abbrev scan : BlockScan
    scan = clear_entries name block_of s.disk.memory s.find_entry

    scanned : IsScannedTo name o is other differs s.disk.memory block_of 16 scan
    scanned =
        clear_entries-IsScannedTo name o is other differs s.disk.memory block_of aligned_here
          s.find_entry

    names_now : IsSameNames d.memory scan.memory o
    names_now = IsSameNames-trans h.same_names scanned.same_names

    later_now :
        block_of ≢ 0
        → (m : ℕ) → i + 1 ≤ m
        → m < 8
        → was m ≢ 0
        → (x : ℕ) → was m ≤ x
        → x < was m + 256
        → scan.memory x ≡ d.memory x
    later_now there m le m_lt ne x ge x_lt =
        let apart : was m ≢ block_of =
          λ e. absurd (omega (arith, le, has.distinct m i m_lt lt ne (e ∙ at))) in
        let al = has.aligned m m_lt in
        let al' = aligned_here in
        scanned.ahead x (elim (Bool-cases (ltb x block_of)) [
          | inl before ↦ inl (ground arith)
          | inr behind ↦ inr (ground (arith, al, al', apart))
        ])
        ∙ h.later m (omega arith) m_lt ne x ge x_lt

    number_here :
        block_of ≢ 0
        → (j : ℕ) → j < 16
        → load16 s.disk.memory (inode_num_address (entry_address (was i) j))
          ≡ load16 d.memory (inode_num_address (entry_address (was i) j))
    unfolding load16
    number_here there j j_lt =
        let same_byte = h.later i (omega arith) lt (λ z. there (at ∙ z)) in
        rw
          (
            same_byte (inode_num_address (entry_address (was i) j)) (omega arith) (omega arith),
            same_byte (inode_num_address (entry_address (was i) j) + 1) (omega arith) (omega arith),
          )
          refl

    -- A block that is given up does not bear the name.
    dropped : block_of ≢ 0 → scan.non_empty_entries ≡ 1 → IsAbsent d.memory o (was i)
    dropped there one = elim (has.company i lt (λ z. there (at ∙ z))) [
      | inl absent ↦ absent
      | inr (j, j', order, in_block, first, second) ↦
          let number = number_here there in
          let two : 2 ≤ scan.non_empty_entries =
            two_counted name o is other differs s.disk.memory block_of aligned_here j j' order
              in_block (λ z. first (sym (number j (omega arith)) ∙ (rw (sym at) z)))
              (λ z. second (sym (number j' in_block) ∙ (rw (sym at) z))) s.find_entry in
          absurd (omega (arith, two, one))
    ]

    -- The pointers once that of this block is NULL.
    pointer_left :
        (m : ℕ)
        → ((set_pointer s.disk n i 0).inodes n).pointers m
          ≡ (if m == i then 0 else (s.disk.inodes n).pointers m)
    pointer_left m = ground arith

    pointers_left :
        block_of ≢ 0
        → scan.non_empty_entries ≡ 1
        → (m : ℕ) → m < 8
        → (p : ℕ) → p ≡ (if m == i then 0 else (s.disk.inodes n).pointers m)
        → (p ≡ was m) ⊎ ((p ≡ 0) × IsAbsent d.memory o (was m))
    pointers_left there one m m_lt p e = elim (Bool-cases (m == i)) [
      | inl here ↦ inr (rw here at e, rw (==→eq m i here) (dropped there one))
      | inr ne ↦ let e' : p ≡ (s.disk.inodes n).pointers m = rw ne at e in rw e' (h.pointers m m_lt)
    ]

    pub round-IsKeptTo : IsKeptTo (i + 1) (clear_in_direct name n i s)
    unfolding clear_in_direct unmark
    round-IsKeptTo = elim (Bool-cases (block_of == 0)) [
      | inl null ↦
          rw (null, clear_in_direct)
            (record {
              same_names = h.same_names;
              later = λ m le. h.later m (omega arith);
              pointers = h.pointers;
              untouched = λ m le. h.untouched m (omega arith);
              single = h.single;
              double = h.double;
            })
      | inr there ↦ elim (Bool-cases (scan.find_entry && (scan.non_empty_entries == 1))) [
        | inl emptied ↦
            rw (there, emptied, clear_in_direct)
              (record {
                same_names = names_now;
                later = later_now (==→ne _ 0 there);
                pointers = λ m m_lt.
                    pointers_left (==→ne _ 0 there) (ground (arith, emptied)) m m_lt _
                      (pointer_left m);
                untouched = λ m le. ground (arith, h.untouched m (omega arith));
                single = ground (arith, h.single);
                double = ground (arith, h.double);
              })
        | inr kept ↦
            rw (there, kept, clear_in_direct)
              (record {
                same_names = names_now;
                later = later_now (==→ne _ 0 there);
                pointers = h.pointers;
                untouched = λ m le. h.untouched m (omega arith);
                single = h.single;
                double = h.double;
              })
      ]
    ]
