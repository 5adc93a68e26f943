-- ===== src/Ramdisk/Clear/Drift.antt =====
-- The count of free blocks when `clear_entry_in_current_dir` of kernelspace/discos.c gives up a block.
use file_system_toy_os.Prelude.{
  ◌⊎◌, ℕ, ◌+◌, ◌≤◌, ◌<◌, ◌≡◌, ◌≢◌, ◌%◌, refl, ap, ◌∙◌, Bool, true, false, arith, ◌==◌, Bool-cases,
  inl, inr, ==→eq, ==→ne, ne→==, ==_refl,
}
use file_system_toy_os.Prelude.Loops.{for_range, for_range_inv}
use file_system_toy_os.Ramdisk.Memory.{Mem, CString, load16, streq, clear_bytes}
use file_system_toy_os.Ramdisk.Disk.{Disk, block_address, entry_address, inode_num_address}
use file_system_toy_os.Ramdisk.Bitmap.Bits.{bit_of, bit_of-clear_bitmap}
use file_system_toy_os.Ramdisk.Bitmap.Allocate.{IsCounted, used}
use file_system_toy_os.Ramdisk.Create.Named.{IsName}
use file_system_toy_os.Ramdisk.Entry.{set_pointer}
use file_system_toy_os.Ramdisk.Clear.{
  BlockScan, clear_entry, clear_entries, Clearing, unmark, clear_in_direct,
  clear_entry_in_current_dir,
}
use file_system_toy_os.Ramdisk.Clear.Counts.{block_number-block_address, unmark_drift}
use file_system_toy_os.Ramdisk.Clear.Names.{streq-clear_bytes}

-- The only entry of the block at `q` is entry `j`, which bears the name.
pub record IsOnlyEntry (m : Mem) (name : CString) (q j : ℕ) : Type 0 where
  pub in_block : j < 16
  pub bears : streq m (entry_address q j) name ≡ true
  pub number : load16 m (inode_num_address (entry_address q j)) ≢ 0
  pub others :
      (i : ℕ)
      → i < 16
      → i ≢ j
      → (streq m (entry_address q i) name ≡ false)
        × (load16 m (inode_num_address (entry_address q i)) ≡ 0)

module _ (m : Mem) (name : CString) (is : IsName name) (q j : ℕ) (al : q % 256 ≡ 0)
    (only : IsOnlyEntry m name q j) (find : Bool) where
  abbrev before : BlockScan
  before = record { memory = m; non_empty_entries = 0; find_entry = find }

  abbrev behind : BlockScan
  behind = record {
    memory = clear_bytes m (entry_address q j) 16;
    non_empty_entries = 1;
    find_entry = true;
  }

  number_kept :
      (i : ℕ)
      → i ≢ j
      → load16 (clear_bytes m (entry_address q j) 16) (inode_num_address (entry_address q i))
        ≡ load16 m (inode_num_address (entry_address q i))
  unfolding load16 clear_bytes
  number_kept i ne = ground arith

  abbrev AtEntry : ℕ → BlockScan → Type 0
  AtEntry i s = ((i ≤ j) × (s ≡ before)) ⊎ ((j < i) × (s ≡ behind))

  miss-before : (i : ℕ) → i < 16 → i ≢ j → clear_entry name q i before ≡ before
  unfolding clear_entry
  miss-before i lt ne =
      let (other_name, free) = only.others i lt ne in rw (other_name, free, clear_entry) refl

  hit-before : clear_entry name q j before ≡ behind
  unfolding clear_entry
  hit-before = rw (only.bears, ne→== _ 0 only.number, clear_entry) refl

  miss-behind : (i : ℕ) → i < 16 → i ≢ j → clear_entry name q i behind ≡ behind
  unfolding clear_entry
  miss-behind i lt ne =
      let (other_name, free) = only.others i lt ne in
      let gone =
        streq-clear_bytes m (entry_address q j) (entry_address q i) name is (omega (arith, al))
          (omega (arith, al)) other_name in
      rw (gone, number_kept i ne, free, clear_entry) refl

  round-AtEntry :
      (i : ℕ) (s : BlockScan) → i < 16 → AtEntry i s → AtEntry (i + 1) (clear_entry name q i s)
  round-AtEntry i s lt (inl (le, e)) = elim (Bool-cases (i == j)) [
    | inl here ↦
        let at = ==→eq i j here in
        inr (
          omega (arith, at),
          ap (λ t. clear_entry name q i t) e
              ∙ ap (λ n. clear_entry name q n before) at
              ∙ hit-before,
        )
    | inr ne ↦
        let apart = ==→ne i j ne in
        inl (omega (arith, apart, le), ap (λ t. clear_entry name q i t) e ∙ miss-before i lt apart)
  ]
  round-AtEntry i s lt (inr (past, e)) = inr (
    omega (arith, past),
    ap (λ t. clear_entry name q i t) e ∙ miss-behind i lt (λ z. absurd (omega (arith, past, z))),
  )

  -- The scan finds the entry, clears it and counts it alone.
  pub clear_entries-only : clear_entries name q m find ≡ behind
  unfolding clear_entries
  clear_entries-only =
      elim (for_range_inv AtEntry (clear_entry name q) 16 0 16 before refl
        (λ i s le lt h. round-AtEntry i s lt h) (inl (omega arith, refl))) [
          | inl (le, e) ↦ absurd (omega (arith, le, only.in_block))
          | inr (lt, e) ↦ e
        ]

-- The direct blocks of the directory `n` are one, at its pointer `i`: the marked block `k`.
pub record HasOneBlock (d : Disk) (n i k : ℕ) : Type 0 where
  pub index : i < 8
  pub here : (d.inodes n).pointers i ≡ block_address k
  pub others : (m : ℕ) → m < 8 → m ≢ i → (d.inodes n).pointers m ≡ 0
  pub in_range : k < 7931
  pub marked : bit_of d.bitmap k ≡ 1

module _ (d : Disk) (n i k j : ℕ) (name : CString) (is : IsName name) (counted : IsCounted d)
    (has : HasOneBlock d n i k) (only : IsOnlyEntry d.memory name (block_address k) j) where
  abbrev start : Clearing
  start = record { disk = d; find_entry = false }

  abbrev scanned : Disk
  scanned = record d { memory = clear_bytes d.memory (entry_address (block_address k) j) 16 }

  abbrev dropped : Clearing
  dropped = record {
    disk = set_pointer (unmark scanned (block_address k)) n i 0;
    find_entry = true;
  }

  abbrev AtBlock : ℕ → Clearing → Type 0
  AtBlock m s = ((m ≤ i) × (s ≡ start)) ⊎ ((i < m) × (s ≡ dropped))

  skip : (m : ℕ) (s : Clearing) → (s.disk.inodes n).pointers m ≡ 0 → clear_in_direct name n m s ≡ s
  unfolding clear_in_direct
  skip m s null = rw (null, clear_in_direct) refl

  drop : clear_in_direct name n i start ≡ dropped
  unfolding clear_in_direct
  drop =
      rw
        (
          has.here,
          ne→== (block_address k) 0 (λ z. omega (arith, z)),
          clear_entries-only d.memory name is (block_address k) j (omega arith) only false,
          clear_in_direct,
        )
        refl

  pointer_dropped : (m : ℕ) → m < 8 → (dropped.disk.inodes n).pointers m ≡ 0
  unfolding unmark
  pointer_dropped m lt = ground (arith, has.others m lt)

  round-AtBlock :
      (m : ℕ) (s : Clearing) → m < 8 → AtBlock m s → AtBlock (m + 1) (clear_in_direct name n m s)
  round-AtBlock m s lt (inl (le, e)) = elim (Bool-cases (m == i)) [
    | inl same ↦
        let at = ==→eq m i same in
        inr (
          omega (arith, at),
          ap (λ t. clear_in_direct name n m t) e
              ∙ ap (λ x. clear_in_direct name n x start) at
              ∙ drop,
        )
    | inr ne ↦
        let apart = ==→ne m i ne in
        inl (
          omega (arith, apart, le),
          ap (λ t. clear_in_direct name n m t) e ∙ skip m start (has.others m lt apart),
        )
  ]
  round-AtBlock m s lt (inr (past, e)) = inr (
    omega (arith, past),
    ap (λ t. clear_in_direct name n m t) e ∙ skip m dropped (pointer_dropped m lt),
  )

  all_rounds : for_range 8 0 (clear_in_direct name n) start ≡ dropped
  all_rounds =
      elim (for_range_inv AtBlock (clear_in_direct name n) 8 0 8 start refl
        (λ m s le lt h. round-AtBlock m s lt h) (inl (omega arith, refl))) [
          | inl (le, e) ↦ absurd (omega (arith, le, has.index))
          | inr (lt, e) ↦ e
        ]

  cleared : clear_entry_in_current_dir d n name ≡ dropped.disk
  unfolding clear_entry_in_current_dir
  cleared = rw (all_rounds, clear_entry_in_current_dir) refl

  scanned-IsCounted : IsCounted scanned
  scanned-IsCounted = record { bytes = counted.bytes; counted = counted.counted }

  -- The block is given up: its bit is clear, and the count is one less than the clear bits.
  pub clear_entry_in_current_dir-drift :
      let d' = clear_entry_in_current_dir d n name in
      (d'.free_blocks ≡ d.free_blocks)
      × (bit_of d'.bitmap k ≡ 0)
      × (d'.free_blocks + used 7931 d'.bitmap + 1 ≡ 7931)
  unfolding unmark
  clear_entry_in_current_dir-drift = rw cleared (
    refl,
    rw block_number-block_address (
        bit_of-clear_bitmap d.bitmap k k counted.bytes (omega (arith, has.in_range))
        ∙ rw (==_refl k) refl),
    unmark_drift scanned k scanned-IsCounted has.in_range has.marked,
  )
