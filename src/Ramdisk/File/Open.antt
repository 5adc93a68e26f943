-- ===== src/Ramdisk/File/Open.antt =====
-- `rd_open` of kernelspace/discos.c, in the states that the operations reach.
use mathlib.Core.Path.{subst}
use file_system_toy_os.Prelude.{
  ℕ, ◌<◌, ◌≡◌, ◌≢◌, ◌⊎◌, refl, sym, inl, inr, true, false, Option, none, some, arith, ◌==◌,
  Option-cases, ℤ, pos, failure,
}
use file_system_toy_os.Prelude.Loops.{Found, IsFirst, find_from, find_from_lem}
use file_system_toy_os.Ramdisk.Memory.{CString}
use file_system_toy_os.Ramdisk.Disk.{FileObject, System}
use file_system_toy_os.Ramdisk.Path.{same, root}
use file_system_toy_os.Ramdisk.Lookup.{my_find_inode_number}
use file_system_toy_os.Ramdisk.Table.{object_at, set_object, create_file_object}
use file_system_toy_os.Ramdisk.Table.Shared.{IsShared, get_fd_table-shared}
use file_system_toy_os.Ramdisk.File.{access_denied, rd_open}

-- The file object of a file just opened.
abbrev pub opened_object : ℕ → ℕ → ℕ → FileObject
opened_object fd k flags = record {
  inode_ptr = some k;
  status = flags;
  cursor = 0;
  pos = fd;
  usable = 1;
}

-- A slot of table 0 that is in use.
abbrev pub InUse : System → ℕ → Type 0
InUse s i = (object_at s 0 i).usable ≢ 0

-- What a successful open of the inode `k` under the number `fd` leaves.
pub record IsOpened (s : System) (k flags fd : ℕ) (s' : System) : Type 0 where
  pub in_range : fd < 1024
  pub was_free : (object_at s 0 fd).usable ≡ 0
  pub lowest : (i : ℕ) → i < fd → InUse s i
  pub object : object_at s' 0 fd ≡ opened_object fd k flags
  pub others : (t i : ℕ) → (i ≡ fd → t ≢ 0) → object_at s' t i ≡ object_at s t i
  pub same_disk : s'.disk ≡ s.disk
  pub shared : IsShared s'

-- The outcomes of `rd_open` on an existing file whose rights allow the flags.
abbrev pub OpenResult : System → ℕ → ℕ → ℤ × System → Type 0
OpenResult s k flags r =
    ((fd : ℕ) × (r.0 ≡ pos fd) × IsOpened s k flags fd r.1)
    ⊎ ((r ≡ (failure, s)) × ((i : ℕ) → i < 1024 → InUse s i))

module _ {s : System} (h : IsShared s) (path : CString) (flags pid : ℕ) where
  open_slot :
      (k fd : ℕ)
      → IsFirst 0 1024 (λ i. (object_at s 0 i).usable == 0) fd
      → IsOpened s k flags fd (
          set_object
            (set_object s 0 fd (record (object_at s 0 fd) { pos = fd; usable = 1 }))
            0
            fd
            (opened_object fd k flags))
  open_slot k fd f = record {
    in_range = omega (arith, f.below);
    was_free = let e : ((object_at s 0 fd).usable == 0) ≡ true = f.passes in ground arith;
    lowest = λ i lt.
        let e : ((object_at s 0 i).usable == 0) ≡ false = f.before i (omega arith) lt in
        ground arith;
    object = ground arith;
    others = λ t i ne. ground arith;
    same_disk = refl;
    shared = record {
      pids = λ t. ground (arith, h.pids t);
      slots = λ j. ground (arith, h.slots j);
    };
  }

  -- The search for a slot, and the state that an open in slot `fd` leaves.
  abbrev slot : Option ℕ
  slot = find_from 1024 0 (λ i. (object_at s 0 i).usable == 0)

  abbrev after_open : ℕ → ℕ → System
  after_open k fd =
      set_object (set_object s 0 fd (record (object_at s 0 fd) { pos = fd; usable = 1 })) 0 fd
        (opened_object fd k flags)

  module _ (k : ℕ) (not_root : same path root ≡ false)
      (found : my_find_inode_number s.disk path ≡ some k)
      (allowed : access_denied flags (s.disk.inodes k).access ≡ false) where
    rd_open-full : slot ≡ none → rd_open s path flags pid ≡ (failure, s)
    unfolding rd_open create_file_object
    rd_open-full e =
        rw (not_root, found, allowed, get_fd_table-shared h pid, e, rd_open, create_file_object)

    rd_open-slot : (fd : ℕ) → slot ≡ some fd → rd_open s path flags pid ≡ (pos fd, after_open k fd)
    unfolding rd_open create_file_object
    rd_open-slot fd e =
        rw (not_root, found, allowed, get_fd_table-shared h pid, e, rd_open, create_file_object)
          (ground arith)

    -- In a system whose tables satisfy IsShared, for a path that is not the root and leads to
    -- an inode k whose rights allow the flags: either rd_open returns the lowest slot fd < 1024
    -- that is not in use, makes it the file object of k with the flags as status and cursor 0,
    -- leaves every other file object and the disk alone and keeps IsShared; or it returns -1,
    -- changes nothing, and all 1024 slots are in use.
    pub rd_open_lem : OpenResult s k flags (rd_open s path flags pid)
    rd_open_lem = elim (Option-cases slot) [
      | inl e ↦ inr (
        rd_open-full e,
        λ i lt.
            let full =
              subst (Found 0 1024 (λ j. (object_at s 0 j).usable == 0)) e (find_from_lem _ _ _) in
            let used : ((object_at s 0 i).usable == 0) ≡ false = full i (omega arith) lt in
            ground arith,
      )
      | inr (fd, e) ↦
          let first =
            subst (Found 0 1024 (λ j. (object_at s 0 j).usable == 0)) e (find_from_lem _ _ _) in
          subst (OpenResult s k flags) (sym (rd_open-slot fd e))
            (inl (fd, refl, open_slot k fd first))
    ]
