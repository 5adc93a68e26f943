-- ===== src/Ramdisk/File/Rights.antt =====
-- `rd_chmod` and `rd_open` of kernelspace/discos.c: the mode that is set and the next open.
use file_system_toy_os.Prelude.{
  ℕ, ◌≡◌, refl, sym, ap, false, some, List, [], ◌∷◌, arith, ◌==◌, ==→eq, if◌then◌else◌, Bool-cases,
  Option-cases, inl, inr, ℤ, success, failure,
}
use file_system_toy_os.Prelude.Loops.{first_some}
use file_system_toy_os.Ramdisk.Memory.{CString}
use file_system_toy_os.Ramdisk.Disk.{Disk, System}
use file_system_toy_os.Ramdisk.Path.{same, root, tokens, drop}
use file_system_toy_os.Ramdisk.Lookup.{
  step_to, find_in_direct, find_in_single, find_in_double, find_component, walk,
  my_find_inode_number,
}
use file_system_toy_os.Ramdisk.Entry.{set_inode}
use file_system_toy_os.Ramdisk.Tree.{rd_chmod}
use file_system_toy_os.Ramdisk.Table.Shared.{IsShared}
use file_system_toy_os.Ramdisk.Table.Steps.{IsShared-disk}
use file_system_toy_os.Ramdisk.File.{access_denied, rd_open}
use file_system_toy_os.Ramdisk.File.Open.{OpenResult, rd_open_lem}

-- The disk with other rights for the inode `k`.
abbrev set_access : Disk → ℕ → ℕ → Disk
set_access d k mode = set_inode d k (record (d.inodes k) { access = mode })

module _ (d : Disk) (k mode : ℕ) where
  pointers-set_access : (n : ℕ) → ((set_access d k mode).inodes n).pointers ≡ (d.inodes n).pointers
  pointers-set_access n = elim (Bool-cases (n == k)) [
    | inl e ↦ rw e (ap (λ j. (d.inodes j).pointers) (sym (==→eq n k e)))
    | inr e ↦ rw e refl
  ]

  indirect-set_access :
      (n : ℕ)
      → (((set_access d k mode).inodes n).single_indirect ≡ (d.inodes n).single_indirect)
        × (((set_access d k mode).inodes n).double_indirect ≡ (d.inodes n).double_indirect)
  indirect-set_access n = ground arith

  module _ (name : CString) (n : ℕ) where
    find_in_direct-set_access :
        find_in_direct (set_access d k mode) name n ≡ find_in_direct d name n
    unfolding find_in_direct
    find_in_direct-set_access =
        ap (λ p. first_some 8 0 (λ i. step_to d.memory name n (p i))) (pointers-set_access n)

    find_in_single-set_access :
        find_in_single (set_access d k mode) name n ((set_access d k mode).inodes n).single_indirect
        ≡ find_in_single d name n (d.inodes n).single_indirect
    unfolding find_in_single
    find_in_single-set_access = ap (find_in_single d name n) (indirect-set_access n).0

    find_in_double-set_access :
        find_in_double (set_access d k mode) name n ((set_access d k mode).inodes n).double_indirect
        ≡ find_in_double d name n (d.inodes n).double_indirect
    unfolding find_in_double find_in_single
    find_in_double-set_access = ap (find_in_double d name n) (indirect-set_access n).1

    find_component-set_access :
        find_component (set_access d k mode) name n ≡ find_component d name n
    unfolding find_component
    find_component-set_access = elim (Option-cases (find_in_direct d name n)) [
      | inr (cur, e) ↦ rw (find_in_direct-set_access, e, find_component)
      | inl e ↦ elim (Option-cases (find_in_single d name n (d.inodes n).single_indirect)) [
        | inr (cur, e') ↦
            rw (find_in_direct-set_access, e, find_in_single-set_access, e', find_component)
        | inl e' ↦
            rw (find_in_direct-set_access, e, find_in_single-set_access, e', find_component)
              find_in_double-set_access
      ]
    ]

  walk-set_access :
      (names : List CString) (n : ℕ) → walk (set_access d k mode) names n ≡ walk d names n
  unfolding walk
  walk-set_access [] n = refl
  walk-set_access (name ∷ names) n = elim (Option-cases (find_component d name n)) [
    | inl e ↦ rw (find_component-set_access name n, e, walk)
    | inr (next, e) ↦ rw (find_component-set_access name n, e, walk) (walk-set_access names next)
  ]

  -- Rights do not matter to a lookup.
  my_find_inode_number-set_access :
      (path : CString)
      → my_find_inode_number (set_access d k mode) path ≡ my_find_inode_number d path
  unfolding my_find_inode_number
  my_find_inode_number-set_access path = rw (walk-set_access (tokens (drop 1 path)) 0)

-- An `rd_chmod` that returned 0 set the mode of the inode to which the path leads.
rd_chmod-success :
    (d d' : Disk) (path : CString) (mode : ℕ)
    → rd_chmod d path mode ≡ (success, d')
    → (same path root ≡ false)
      × ((k : ℕ) × (my_find_inode_number d path ≡ some k) × (d' ≡ set_access d k mode))
unfolding rd_chmod
rd_chmod-success d d' path mode e = elim (Bool-cases (same path root)) [
  | inl is_root ↦
      let e' : ◌≡◌ {A = ℤ × Disk} (failure, d) (success, d') = rw (is_root, rd_chmod) at e in cc
  | inr other ↦ elim (Option-cases (my_find_inode_number d path)) [
    | inl missing ↦
        let e' : ◌≡◌ {A = ℤ × Disk} (failure, d) (success, d') =
          rw (other, missing, rd_chmod) at e in
        cc
    | inr (k, found) ↦
        let e' : ◌≡◌ {A = ℤ × Disk} (success, set_access d k mode) (success, d') =
          rw (other, found, rd_chmod) at e in
        (other, (k, found, sym (ap (λ r. r.1) e')))
  ]
]

-- What the next open comes to: refused, or the outcomes of an open that the rights allow.
abbrev pub Decided : System → CString → ℕ → ℕ → ℤ × System → Type 0
Decided s path flags mode r =
    if access_denied flags mode
    then r ≡ (failure, s)
    else (k : ℕ) × (my_find_inode_number s.disk path ≡ some k) × OpenResult s k flags r

-- In a system whose tables satisfy IsShared, after an rd_chmod of a path to a mode that
-- returned 0, the next rd_open of the path with flags that the mode does not allow returns -1
-- and changes nothing; with flags that it allows, it opens the inode of the path in the lowest
-- free slot, or returns -1 where all 1024 slots are in use, with the outcomes of rd_open_lem.
pub rd_open-rd_chmod :
    (s : System) (d : Disk) (path : CString) (mode flags pid : ℕ)
    → IsShared s
    → rd_chmod s.disk path mode ≡ (success, d)
    → Decided
        (record s { disk = d })
        path
        flags
        mode
        (rd_open (record s { disk = d }) path flags pid)
unfolding rd_open
rd_open-rd_chmod s d path mode flags pid h e =
    let (other, (k, found, same_disk)) = rd_chmod-success s.disk d path mode e in
    let found' : my_find_inode_number d path ≡ some k =
      rw (same_disk, my_find_inode_number-set_access s.disk k mode path) found in
    let rights : (d.inodes k).access ≡ mode = rw same_disk (ground arith) in
    elim (Bool-cases (access_denied flags mode)) [
      | inl denied ↦ rw (other, found', rights, denied, rd_open) refl
      | inr allowed ↦ rw allowed (
        k,
        found',
        rd_open_lem (IsShared-disk d s.read_buffer h) path flags pid k other found'
            (rw rights allowed),
      )
    ]
