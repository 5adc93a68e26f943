-- ===== src/Ramdisk/Clear/Names.antt =====
-- `clear_entry_in_current_dir` of kernelspace/discos.c and the names in the direct blocks.
use file_system_toy_os.Prelude.{
  ℕ, ◌+◌, ◌%◌, ◌<◌, ◌≡◌, ◌≢◌, refl, ◌∙◌, Bool, false, ◌&&◌, arith, ◌==◌, if◌then◌else◌, [], ◌∷◌,
  Bool-cases, inl, inr, ==→eq,
}
use file_system_toy_os.Prelude.Loops.{for_range, for_range_inv}
use file_system_toy_os.Ramdisk.Memory.{Mem, CString, streq, clear_bytes}
use file_system_toy_os.Ramdisk.Memory.Names.{streq-ext}
use file_system_toy_os.Ramdisk.Disk.{Disk, entry_address}
use file_system_toy_os.Ramdisk.Entry.{set_pointer}
use file_system_toy_os.Ramdisk.Create.Named.{IsName, IsAbsent}
use file_system_toy_os.Ramdisk.Create.Place.{IsWithout}
use file_system_toy_os.Ramdisk.Clear.{
  BlockScan, clear_entry, clear_entries, Clearing, unmark, clear_in_direct,
  clear_entry_in_current_dir,
}

-- An entry that is cleared has no name, and the names of the others stay.
pub streq-cleared :
    (m : Mem) (e : ℕ) (name : CString) → IsName name → streq (clear_bytes m e 16) e name ≡ false
unfolding streq clear_bytes
streq-cleared m e [] is = absurd (is.not_empty refl)
streq-cleared m e (c ∷ s) is = ground (arith, is.no_nul)

pub streq-clear_bytes :
    (m : Mem) (e a : ℕ) (name : CString)
    → IsName name
    → e % 16 ≡ 0
    → a % 16 ≡ 0
    → streq m a name ≡ false
    → streq (clear_bytes m e 16) a name ≡ false
unfolding clear_bytes
streq-clear_bytes m e a name is ea aa h = elim (Bool-cases (a == e)) [
  | inl same ↦ rw (==→eq a e same) (streq-cleared m e name is)
  | inr other ↦ streq-ext m (clear_bytes m e 16) a name (λ x le u. ground (arith, is.fits)) ∙ h
]

-- The memory `m'` has the name nowhere but where `m` has it, and not in the first `j` entries.
record IsScanned (m : Mem) (name : CString) (block j : ℕ) (m' : Mem) : Type 0 where
  nowhere_new : (a : ℕ) → a % 16 ≡ 0 → streq m a name ≡ false → streq m' a name ≡ false
  gone : (i : ℕ) → i < j → streq m' (entry_address block i) name ≡ false

module _ (m : Mem) (name : CString) (is : IsName name) (block : ℕ) (aligned : block % 256 ≡ 0) where
  round-IsScanned :
      (j : ℕ) (s : BlockScan)
      → IsScanned m name block j s.memory
      → IsScanned m name block (j + 1) (clear_entry name block j s).memory
  unfolding clear_entry
  round-IsScanned j s h = elim (Bool-cases (streq s.memory (entry_address block j) name)) [
    | inl hit ↦
        rw (hit, clear_entry)
          (record {
            nowhere_new = λ a al e.
                streq-clear_bytes s.memory (entry_address block j) a name is
                  (omega (arith, aligned)) al (h.nowhere_new a al e);
            gone = λ i lt. elim (Bool-cases (i == j)) [
              | inl e ↦ rw (==→eq i j e) (streq-cleared s.memory (entry_address block j) name is)
              | inr ne ↦
                  streq-clear_bytes s.memory (entry_address block j) (entry_address block i) name is
                    (omega (arith, aligned)) (omega (arith, aligned)) (h.gone i (ground arith))
            ];
          })
    | inr miss ↦
        rw (miss, clear_entry)
          (record {
            nowhere_new = h.nowhere_new;
            gone = λ i lt. elim (Bool-cases (i == j)) [
              | inl e ↦ rw (==→eq i j e) miss
              | inr ne ↦ h.gone i (ground arith)
            ];
          })
  ]

  clear_entries-IsScanned :
      (find : Bool) → IsScanned m name block 16 (clear_entries name block m find).memory
  unfolding clear_entries
  clear_entries-IsScanned find =
      for_range_inv (λ j s. IsScanned m name block j s.memory) (clear_entry name block) 16 0 16
        (record { memory = m; non_empty_entries = 0; find_entry = find }) refl
        (λ j s le lt h. round-IsScanned j s h)
        (record { nowhere_new = λ a al e. e; gone = λ i lt. absurd (omega (arith, lt)) })

-- Before round `i` of the loop over the direct blocks: those before have no entry of the name.
record IsGone (d : Disk) (n : ℕ) (name : CString) (i : ℕ) (d' : Disk) : Type 0 where
  aligned : (m : ℕ) → m < 8 → (d'.inodes n).pointers m % 256 ≡ 0
  absent :
      (m : ℕ)
      → m < i
      → m < 8
      → (d'.inodes n).pointers m ≢ 0
      → IsAbsent d'.memory name ((d'.inodes n).pointers m)
  single : (d'.inodes n).single_indirect ≡ (d.inodes n).single_indirect
  double : (d'.inodes n).double_indirect ≡ (d.inodes n).double_indirect
  size : (d'.inodes n).size ≡ (d.inodes n).size
  free_inodes : d'.free_inodes ≡ d.free_inodes

module _ (d : Disk) (n : ℕ) (name : CString) (is : IsName name) (i : ℕ) (lt : i < 8) (s : Clearing)
    (h : IsGone d n name i s.disk) where
  abbrev block_of : ℕ
  block_of = (s.disk.inodes n).pointers i

  abbrev scan : BlockScan
  scan = clear_entries name block_of s.disk.memory s.find_entry

  scanned : IsScanned s.disk.memory name block_of 16 scan.memory
  scanned = clear_entries-IsScanned s.disk.memory name is block_of (h.aligned i lt) s.find_entry

  -- The blocks before, and this one, in the memory after the scan.
  IsAbsent-now :
      (m : ℕ)
      → m < i + 1
      → m < 8
      → (s.disk.inodes n).pointers m ≢ 0
      → IsAbsent scan.memory name ((s.disk.inodes n).pointers m)
  IsAbsent-now m m_lt m_in ne j j_lt = elim (Bool-cases (m == i)) [
    | inl e ↦ rw (==→eq m i e) (scanned.gone j j_lt)
    | inr other ↦
        let al = h.aligned m m_in in
        scanned.nowhere_new (entry_address ((s.disk.inodes n).pointers m) j) (omega (arith, al))
          (h.absent m (ground arith) m_in ne j j_lt)
  ]

  -- The pointers once that of this block is NULL.
  pointer_left :
      (m : ℕ)
      → ((set_pointer s.disk n i 0).inodes n).pointers m
        ≡ (if m == i then 0 else (s.disk.inodes n).pointers m)
  pointer_left m = ground arith

  IsAbsent-left :
      (m : ℕ)
      → m < i + 1
      → m < 8
      → (q : ℕ) → q ≡ (if m == i then 0 else (s.disk.inodes n).pointers m)
      → q ≢ 0
      → IsAbsent scan.memory name q
  IsAbsent-left m m_lt m_in q e ne = elim (Bool-cases (m == i)) [
    | inl gone ↦ absurd (ne (rw gone at e))
    | inr other ↦
        let e' : q ≡ (s.disk.inodes n).pointers m = rw other at e in
        rw e' (IsAbsent-now m m_lt m_in (λ z. ne (e' ∙ z)))
  ]

  round-IsGone : IsGone d n name (i + 1) (clear_in_direct name n i s).disk
  unfolding clear_in_direct unmark
  round-IsGone = elim (Bool-cases (block_of == 0)) [
    | inl null ↦
        rw (null, clear_in_direct)
          (record {
            aligned = h.aligned;
            absent = λ m m_lt m_in ne. elim (Bool-cases (m == i)) [
              | inl e ↦ absurd (ne (rw (==→eq m i e) (==→eq _ 0 null)))
              | inr other ↦ h.absent m (ground arith) m_in ne
            ];
            single = h.single;
            double = h.double;
            size = h.size;
            free_inodes = h.free_inodes;
          })
    | inr there ↦ elim (Bool-cases (scan.find_entry && (scan.non_empty_entries == 1))) [
      | inl emptied ↦
          rw (there, emptied, clear_in_direct)
            (record {
              aligned = λ m m_lt. ground (arith, h.aligned m m_lt);
              absent = λ m m_lt m_in ne. IsAbsent-left m m_lt m_in _ (pointer_left m) ne;
              single = ground (arith, h.single);
              double = ground (arith, h.double);
              size = ground (arith, h.size);
              free_inodes = h.free_inodes;
            })
      | inr kept ↦
          rw (there, kept, clear_in_direct)
            (record {
              aligned = h.aligned;
              absent = IsAbsent-now;
              single = h.single;
              double = h.double;
              size = h.size;
              free_inodes = h.free_inodes;
            })
    ]
  ]

-- Once it has run, no direct block of the directory has an entry of the name.
pub record HasGone (d d' : Disk) (n : ℕ) (name : CString) : Type 0 where
  pub without : IsWithout d' n name
  pub single : (d'.inodes n).single_indirect ≡ (d.inodes n).single_indirect
  pub double : (d'.inodes n).double_indirect ≡ (d.inodes n).double_indirect
  pub size : (d'.inodes n).size ≡ (d.inodes n).size
  pub free_inodes : d'.free_inodes ≡ d.free_inodes

module _ (d : Disk) (n : ℕ) (name : CString) (is : IsName name)
    (aligned : (m : ℕ) → m < 8 → (d.inodes n).pointers m % 256 ≡ 0)
    (no_single : (d.inodes n).single_indirect ≡ 0) where
  abbrev swept : Clearing
  swept = for_range 8 0 (clear_in_direct name n) (record { disk = d; find_entry = false })

  swept-IsGone : IsGone d n name 8 swept.disk
  swept-IsGone =
      for_range_inv (λ i s. IsGone d n name i s.disk) (clear_in_direct name n) 8 0 8
        (record { disk = d; find_entry = false }) refl
        (λ i s le lt h. round-IsGone d n name is i lt s h)
        (record {
          aligned = aligned;
          absent = λ m lt. absurd (omega (arith, lt));
          single = refl;
          double = refl;
          size = refl;
          free_inodes = refl;
        })

  swept-HasGone : HasGone d swept.disk n name
  swept-HasGone = record {
    without = record {
      aligned = swept-IsGone.aligned;
      absent = λ m lt ne. swept-IsGone.absent m lt lt ne;
    };
    single = swept-IsGone.single;
    double = swept-IsGone.double;
    size = swept-IsGone.size;
    free_inodes = swept-IsGone.free_inodes;
  }

  pub clear_entry_in_current_dir-HasGone : HasGone d (clear_entry_in_current_dir d n name) n name
  unfolding clear_entry_in_current_dir
  clear_entry_in_current_dir-HasGone = elim (Bool-cases swept.find_entry) [
    | inl found ↦ rw (found, clear_entry_in_current_dir) swept-HasGone
    | inr missing ↦
        rw (missing, swept-IsGone.single ∙ no_single, clear_entry_in_current_dir) swept-HasGone
  ]
