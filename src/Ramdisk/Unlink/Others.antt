-- ===== src/Ramdisk/Unlink/Others.antt =====
-- What `rd_unlink` of kernelspace/discos.c does to the other names in the directory.
use file_system_toy_os.Prelude.{
  ◌⊎◌, ℕ, ◌+◌, ◌<◌, ◌≤◌, ◌≡◌, ◌≢◌, inl, inr, refl, sym, ap, ◌∙◌, false, arith, ◌==◌, ltb,
  Bool-cases, ==→ne, ne→==, ==_refl, if◌then◌else◌,
}
use file_system_toy_os.Prelude.Loops.{for_range_inv}
use file_system_toy_os.Ramdisk.Memory.{Mem, CString, load16}
use file_system_toy_os.Ramdisk.Memory.Names.{streq-ext}
use file_system_toy_os.Ramdisk.Path.{same, parse_absolute_path}
use file_system_toy_os.Ramdisk.Disk.{Disk, entry_address, inode_num_address}
use file_system_toy_os.Ramdisk.Lookup.{step_to, find_component}
use file_system_toy_os.Ramdisk.Lookup.Unchanged.{
  bytes-IsSameBlock, step_to-same, find_component-same,
}
use file_system_toy_os.Ramdisk.Clear.{release_block, my_clear_inode, clear_entry_in_current_dir}
use file_system_toy_os.Ramdisk.Clear.Rounds.{HasCompany, IsCompanied}
use file_system_toy_os.Ramdisk.Clear.Sweep.{IsSameLookup, clear_entry_in_current_dir-IsSameLookup}
use file_system_toy_os.Ramdisk.Create.Named.{IsName}
use file_system_toy_os.Ramdisk.Create.Entered.{outside}
use file_system_toy_os.Ramdisk.Sound.{IsSound}
use file_system_toy_os.Ramdisk.Tree.{remove, rd_unlink}
use file_system_toy_os.Ramdisk.Unlink.{CanUnlink, KeepsInodes, my_clear_inode-KeepsInodes}

-- The release of a file without indirect blocks leaves the bytes alone that are not in its blocks.
my_clear_inode-beside :
    (d : Disk) (k x : ℕ)
    → (d.inodes k).single_indirect ≡ 0
    → (d.inodes k).double_indirect ≡ 0
    → ((i : ℕ)
        → i < 8
        → (d.inodes k).pointers i ≢ 0
        → (x < (d.inodes k).pointers i) ⊎ ((d.inodes k).pointers i + 256 ≤ x))
    → (my_clear_inode d k).memory x ≡ d.memory x
unfolding my_clear_inode release_block
my_clear_inode-beside d k x single double far =
    rw (single, double, my_clear_inode)
      (for_range_inv (λ i d'. d'.memory x ≡ d.memory x)
        (λ i d'.
          if (d.inodes k).pointers i == 0 then d' else release_block d' ((d.inodes k).pointers i))
        8 0 8 d refl
        (λ i d' le lt h. elim (Bool-cases ((d.inodes k).pointers i == 0)) [
          | inl null ↦ rw null h
          | inr there ↦
              rw (there, release_block)
                (outside d'.memory ((d.inodes k).pointers i) x (far i lt (==→ne _ 0 there)) ∙ h)
        ])
        refl)

-- Of the name `o`, only the bytes of the block matter.
HasCompany-bytes :
    (m m' : Mem) (o : CString) (q : ℕ)
    → IsName o
    → ((x : ℕ) → q ≤ x → x < q + 256 → m' x ≡ m x)
    → HasCompany m o q
    → HasCompany m' o q
unfolding load16
HasCompany-bytes m m' o q other bytes (inl absent) = inl (λ j lt.
    streq-ext m m' (entry_address q j) o
      (λ x le u. bytes x (omega arith) (omega (arith, other.fits)))
    ∙ absent j lt)
HasCompany-bytes m m' o q other bytes (inr (j, j', order, in_block, first, second)) =
    let number : (i : ℕ)
        → i < 16
        → load16 m' (inode_num_address (entry_address q i))
          ≡ load16 m (inode_num_address (entry_address q i)) =
      λ i lt.
        rw
          (
            bytes (inode_num_address (entry_address q i)) (omega arith) (omega arith),
            bytes (inode_num_address (entry_address q i) + 1) (omega arith) (omega arith),
          )
          refl in
    inr (
      j,
      j',
      order,
      in_block,
      (λ z. first (sym (number j (omega arith)) ∙ z)),
      (λ z. second (sym (number j' in_block) ∙ z)),
    )

module _ (d : Disk) (path : CString) (cur k : ℕ) (sound : IsSound d) (can : CanUnlink d path cur k)
    (no_single : (d.inodes k).single_indirect ≡ 0) (no_double : (d.inodes k).double_indirect ≡ 0)
    (o : CString) (other : IsName o) (differs : same (parse_absolute_path path).filename o ≡ false)
    (company : (i : ℕ)
      → i < 8
      → (d.inodes cur).pointers i ≢ 0
      → HasCompany d.memory o ((d.inodes cur).pointers i)) where
  abbrev name_of : CString
  name_of = (parse_absolute_path path).filename

  abbrev emptied : Disk
  emptied = my_clear_inode d k

  keeps : KeepsInodes d emptied
  keeps = my_clear_inode-KeepsInodes d k

  directory_bytes :
      (m : ℕ)
      → m < 8
      → (d.inodes cur).pointers m ≢ 0
      → (x : ℕ) → (d.inodes cur).pointers m ≤ x
      → x < (d.inodes cur).pointers m + 256
      → emptied.memory x ≡ d.memory x
  directory_bytes m m_lt there x le lt =
      my_clear_inode-beside d k x no_single no_double (λ i i_lt ne.
        let (b, at, _, _) = sound.taken cur m m_lt there in
        let (b', at', _, _) = sound.taken k i i_lt ne in
        let apart : (d.inodes k).pointers i ≢ (d.inodes cur).pointers m =
          λ e. can.differs (sound.distinct k i cur m i_lt m_lt ne e).0 in
        elim (Bool-cases (ltb x ((d.inodes k).pointers i))) [
          | inl before ↦ inl (ground arith)
          | inr behind ↦ inr (ground (arith, at, at', apart))
        ])

  emptied-IsCompanied : IsCompanied emptied cur o
  emptied-IsCompanied = record {
    aligned = λ i lt. rw keeps.inodes (can.aligned i lt);
    distinct = rw keeps.inodes (λ i j lt lt' ne e. (sound.distinct cur i cur j lt lt' ne e).1);
    company = rw keeps.inodes (λ i lt ne.
        HasCompany-bytes d.memory emptied.memory o ((d.inodes cur).pointers i) other
          (directory_bytes i lt ne) (company i lt ne));
  }

  abbrev swept : Disk
  swept = clear_entry_in_current_dir emptied cur name_of

  lookup : IsSameLookup emptied cur name_of o can.name other differs emptied-IsCompanied swept
  lookup =
      clear_entry_in_current_dir-IsSameLookup emptied cur name_of o can.name other differs
        emptied-IsCompanied (rw keeps.inodes can.no_single)

  step_swept :
      (i : ℕ)
      → i < 8
      → step_to swept.memory o cur ((swept.inodes cur).pointers i)
        ≡ step_to d.memory o cur ((d.inodes cur).pointers i)
  step_swept i lt =
      lookup.steps i lt
      ∙ ap (λ f. step_to emptied.memory o cur ((f cur).pointers i)) keeps.inodes
      ∙ step_to-same d.memory emptied.memory o cur ((d.inodes cur).pointers i) (λ ne.
        bytes-IsSameBlock d.memory emptied.memory o ((d.inodes cur).pointers i) other.fits
          (directory_bytes i lt ne))

  remove-others : find_component (remove d k cur name_of) o cur ≡ find_component d o cur
  unfolding remove
  remove-others =
      let ne = ne→== cur k (λ e. can.differs (sym e)) in
      find_component-same d (remove d k cur name_of) o cur can.no_single can.no_double
        (rw (ne, ==_refl cur) (lookup.single ∙ rw keeps.inodes can.no_single))
        (rw (ne, ==_refl cur) (lookup.double ∙ rw keeps.inodes can.no_double))
        (λ i lt. rw (ne, ==_refl cur) (step_swept i lt))

  -- Under the conditions of rd_unlink-Unlinked, on a disk on which no two files share a block
  -- (IsSound), for a file without indirect blocks: let o be a name other than that of the file,
  -- not empty, without NUL and of at most 13 bytes, and let each direct block of the directory
  -- either not bear o or have at least two entries with inode numbers (HasCompany). Then the
  -- lookup of o in the directory gives after rd_unlink what it gave before, the same inode or
  -- nothing.
  pub rd_unlink-others : find_component (rd_unlink d path).1 o cur ≡ find_component d o cur
  unfolding rd_unlink
  rd_unlink-others = rw (can.not_root, can.found, can.not_full, can.leads, rd_unlink) remove-others
