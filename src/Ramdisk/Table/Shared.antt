-- ===== src/Ramdisk/Table/Shared.antt =====
-- The tables of kernelspace/discos.c in the states that the operations reach.
use file_system_toy_os.Prelude.Loops.{
  find_from_lem, find_from, Found, find_from-first, find_from-none,
}
use file_system_toy_os.Prelude.{
  true, Option, ℕ, ◌<◌, ◌≡◌, ◌≢◌, ◌⊎◌, inl, inr, ◌&&◌, none, some, arith, ◌==◌, if◌then◌else◌,
  Bool-cases,
}
use file_system_toy_os.Ramdisk.Disk.{FileObject, System}
use file_system_toy_os.Ramdisk.Table.{get_fd_table, object_at, set_object, find_file_object}

-- Slot `i` is blank, or in use under its own number with an inode.
abbrev pub IsSlot : ℕ → FileObject → Type 0
IsSlot i f =
    ((f.usable ≡ 0) × (f.pos ≡ 0) × (f.inode_ptr ≡ none))
    ⊎ ((f.usable ≡ 1) × (f.pos ≡ i) × (f.inode_ptr ≢ none))

-- No entry of `p_fd_table` has a pid, and every slot of table 0 is as above.
pub record IsShared (s : System) : Type 0 where
  pub pids : (t : ℕ) → (s.processes t).pid ≡ 0
  pub slots : (i : ℕ) → IsSlot i (object_at s 0 i)

pub object_at-set_object :
    (s : System) (t i t' j : ℕ) (f : FileObject)
    → object_at (set_object s t i f) t' j ≡ (if (t' == t) && (j == i) then f else object_at s t' j)
object_at-set_object s t i t' j f = ground arith

pub pid-set_object :
    (s : System) (t i t' : ℕ) (f : FileObject)
    → ((set_object s t i f).processes t').pid ≡ (s.processes t').pid
pid-set_object s t i t' f = ground arith

module _ {s : System} (h : IsShared s) where
  pub get_fd_table-shared : (pid : ℕ) → get_fd_table s pid ≡ some 0
  unfolding get_fd_table
  get_fd_table-shared pid = elim (Bool-cases (pid == 0)) [
    | inl zero_pid ↦ rw (
      find_from-first 10 0 (λ i. (s.processes i).pid == pid) 0
          (record {
            from = omega arith;
            below = omega arith;
            passes = ground (arith, h.pids 0);
            before = λ m a b. absurd (omega arith);
          }),
      get_fd_table,
    )
    | inr other ↦ rw (
      find_from-none 10 0 (λ i. (s.processes i).pid == pid) (λ m a b. ground (arith, h.pids m)),
      find_from-first 10 0 (λ i. (s.processes i).pid == 0) 0
          (record {
            from = omega arith;
            below = omega arith;
            passes = ground (arith, h.pids 0);
            before = λ m a b. absurd (omega arith);
          }),
      get_fd_table,
    )
  ]

  pub IsShared-set_object : (i : ℕ) (f : FileObject) → IsSlot i f → IsShared (set_object s 0 i f)
  IsShared-set_object i f slot = record {
    pids = λ t. ground (arith, h.pids t);
    slots = λ j. ground (arith, h.slots j);
  }

  -- In a system whose tables satisfy IsShared, the search for a number fd < 1024 whose slot in
  -- table 0 is in use finds that slot, for every process.
  pub find_file_object-slot :
      (pid fd : ℕ)
      → fd < 1024
      → (object_at s 0 fd).usable ≡ 1
      → find_file_object s pid fd ≡ some (0, fd)
  unfolding find_file_object
  find_file_object-slot pid fd lt used = rw (
    get_fd_table-shared pid,
    find_from-first 1024 0 (λ i. (object_at s 0 i).pos == fd) fd
        (record {
          from = omega arith;
          below = omega arith;
          passes = ground (arith, h.slots fd);
          before = λ m a b. ground (arith, h.slots m);
        }),
    find_file_object,
  )

  -- A number whose slot is not in use is found nowhere but in slot 0, for the number 0.
  pub find_file_object-blank :
      (pid fd : ℕ)
      → (object_at s 0 fd).usable ≡ 0
      → (find_file_object s pid fd ≡ none) ⊎ ((fd ≡ 0) × (find_file_object s pid fd ≡ some (0, 0)))
  unfolding find_file_object
  find_file_object-blank pid fd blank = elim (Bool-cases (fd == 0)) [
    | inl is_zero ↦ inr (
      ground arith,
      (rw (
        get_fd_table-shared pid,
        find_from-first 1024 0 (λ i. (object_at s 0 i).pos == fd) 0
            (record {
              from = omega arith;
              below = omega arith;
              passes = ground (arith, h.slots 0);
              before = λ m a b. absurd (omega arith);
            }),
        find_file_object,
      )),
    )
    | inr other ↦ inl (
        rw (
          get_fd_table-shared pid,
          find_from-none 1024 0 (λ i. (object_at s 0 i).pos == fd)
              (λ m a b. ground (arith, h.slots m, h.slots fd)),
          find_file_object,
        ))
  ]

  -- What the search for a number finds holds that number.
  pub find_file_object-pos :
      (pid fd t i : ℕ)
      → find_file_object s pid fd ≡ some (t, i)
      → (t ≡ 0) × (i < 1024) × ((object_at s 0 i).pos ≡ fd)
  unfolding find_file_object
  find_file_object-pos pid fd t i e =
      by_search (find_from 1024 0 (λ j. (object_at s 0 j).pos == fd)) (find_from_lem _ _ _)
        (rw (get_fd_table-shared pid, find_file_object) at e)
    where
      by_search :
          (o : Option ℕ)
          → Found 0 1024 (λ j. (object_at s 0 j).pos == fd) o
          → ◌≡◌ {A = Option (ℕ × ℕ)} (elim o [ none ↦ none | some j ↦ some (0, j) ]) (some (t, i))
          → (t ≡ 0) × (i < 1024) × ((object_at s 0 i).pos ≡ fd)
      by_search none f e = cc
      by_search (some j) f e =
          let hit : ((object_at s 0 j).pos == fd) ≡ true = f.passes in
          let lt : j < 1024 = omega (arith, f.below) in ground arith
