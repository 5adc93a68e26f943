-- ===== src/Ramdisk/Lookup/Unchanged.antt =====
-- What `my_find_inode_number` of kernelspace/discos.c reads of a directory.
use file_system_toy_os.Prelude.{
  ◌+◌, ◌≤◌, length, sym, ℕ, ◌<◌, ◌≡◌, ◌≢◌, refl, true, ◌==◌, Option-cases, inl, inr, Bool,
  Bool-cases, arith, ◌∙◌, ==→ne,
}
use mathlib.Core.Path.{subst}
use file_system_toy_os.Prelude.Loops.{
  Found, find_from, find_from_lem, find_from-ext, first_some-ext,
}
use file_system_toy_os.Ramdisk.Memory.{Mem, CString, streq, load16}
use file_system_toy_os.Ramdisk.Memory.Names.{streq-ext}
use file_system_toy_os.Ramdisk.Disk.{Disk, entry_address, inode_num_address}
use file_system_toy_os.Ramdisk.Lookup.{
  step_to, find_in_block, find_component, find_in_direct, find_in_single, find_in_double,
}

-- The entries of the block at `q` bear the name in `m'` where they do in `m`, with the same number.
pub record IsSameBlock (m m' : Mem) (name : CString) (q : ℕ) : Type 0 where
  pub names :
      (j : ℕ) → j < 16 → streq m' (entry_address q j) name ≡ streq m (entry_address q j) name
  pub numbers :
      (j : ℕ)
      → j < 16
      → streq m (entry_address q j) name ≡ true
      → load16 m' (inode_num_address (entry_address q j))
        ≡ load16 m (inode_num_address (entry_address q j))

pub step_to-same :
    (m m' : Mem) (name : CString) (cur q : ℕ)
    → (q ≢ 0 → IsSameBlock m m' name q)
    → step_to m' name cur q ≡ step_to m name cur q
unfolding step_to find_in_block
step_to-same m m' name cur q h = elim (Bool-cases (q == 0)) [
  | inl null ↦ rw (null, step_to) refl
  | inr there ↦
      let block = h (==→ne q 0 there) in
      let test : ℕ → Bool = λ j. streq m (entry_address q j) name in
      let test' : ℕ → Bool = λ j. streq m' (entry_address q j) name in
      let ext = find_from-ext 16 0 test test' (λ j u v. block.names j (omega arith)) in
      elim (Option-cases (find_from 16 0 test)) [
        | inl e ↦ rw (there, ext ∙ e, e, find_in_block, step_to) refl
        | inr (j, e) ↦
            let hit = subst (Found 0 16 test) e (find_from_lem 16 0 test) in
            rw (there, ext ∙ e, e, find_in_block, step_to)
              (rw (block.numbers j (omega (arith, hit.below)) hit.passes) refl)
      ]
]

-- In a directory without indirect blocks only its direct blocks matter.
find_component-direct :
    (d : Disk) (name : CString) (n : ℕ)
    → (d.inodes n).single_indirect ≡ 0
    → (d.inodes n).double_indirect ≡ 0
    → find_component d name n ≡ find_in_direct d name n
unfolding find_component find_in_single find_in_double
find_component-direct d name n single double = elim (Option-cases (find_in_direct d name n)) [
  | inl e ↦ rw (e, single, double, find_in_single, find_in_double, find_component) refl
  | inr (cur, e) ↦ rw (e, find_component) refl
]

pub find_component-same :
    (d d' : Disk) (name : CString) (n : ℕ)
    → (d.inodes n).single_indirect ≡ 0
    → (d.inodes n).double_indirect ≡ 0
    → (d'.inodes n).single_indirect ≡ 0
    → (d'.inodes n).double_indirect ≡ 0
    → ((i : ℕ)
        → i < 8
        → step_to d'.memory name n ((d'.inodes n).pointers i)
          ≡ step_to d.memory name n ((d.inodes n).pointers i))
    → find_component d' name n ≡ find_component d name n
unfolding find_in_direct
find_component-same d d' name n single double single' double' h =
    find_component-direct d' name n single' double'
    ∙ first_some-ext 8 0 (λ i. step_to d.memory name n ((d.inodes n).pointers i))
        (λ i. step_to d'.memory name n ((d'.inodes n).pointers i)) (λ i u v. h i (omega arith))
    ∙ sym (find_component-direct d name n single double)

-- A block whose bytes are as they were.
pub bytes-IsSameBlock :
    (m m' : Mem) (name : CString) (q : ℕ)
    → length name ≤ 13
    → ((x : ℕ) → q ≤ x → x < q + 256 → m' x ≡ m x)
    → IsSameBlock m m' name q
unfolding load16
bytes-IsSameBlock m m' name q fits same = record {
  names = λ j lt.
      streq-ext m m' (entry_address q j) name
        (λ x le u. same x (omega arith) (omega (arith, fits)));
  numbers = λ j lt hit.
      rw
        (
          same (inode_num_address (entry_address q j)) (omega arith) (omega arith),
          same (inode_num_address (entry_address q j) + 1) (omega arith) (omega arith),
        )
        refl;
}
