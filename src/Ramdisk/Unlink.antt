-- ===== src/Ramdisk/Unlink.antt =====
-- `rd_unlink` of kernelspace/discos.c followed by a lookup.
pub mod Opened
pub mod Others
pub mod Drift
use mathlib.Core.Path.{subst}
use file_system_toy_os.Prelude.{
  ℕ, ◌+◌, ◌%◌, ◌<◌, ◌≡◌, ◌≢◌, refl, sym, ap, ◌∙◌, Bool, true, false, ◌&&◌, arith, ltb, ◌==◌,
  if◌then◌else◌, update, Option, none, some, [], ◌∷◌, ℤ, success, failure, add32, sub32, Bool-cases,
  inl, inr, ne→==, ==_refl, ==→eq, ==→ne,
}
use file_system_toy_os.Prelude.Loops.{for_range, for_range_inv, first_some, first_some-none}
use file_system_toy_os.Ramdisk.Memory.{Mem, CString}
use file_system_toy_os.Ramdisk.Disk.{Disk, blank_inode, index_block, System}
use file_system_toy_os.Ramdisk.Bitmap.{is_dir}
use file_system_toy_os.Ramdisk.Path.{same, root, parse_absolute_path}
use file_system_toy_os.Ramdisk.Lookup.{
  step_to, find_in_direct, find_in_single, find_in_double, find_component, my_find_inode_number,
}
use file_system_toy_os.Ramdisk.Clear.{
  unmark, release_block, clear_inode_single_indirect, clear_inode_double_indirect, my_clear_inode,
  clear_entry_in_current_dir,
}
use file_system_toy_os.Ramdisk.Clear.Names.{HasGone, clear_entry_in_current_dir-HasGone}
use file_system_toy_os.Ramdisk.Create.Named.{IsName, IsAbsent, step_to-none}
use file_system_toy_os.Ramdisk.Create.Place.{IsWithout}
use file_system_toy_os.Ramdisk.Tree.{remove, rd_unlink}

-- The release of blocks leaves the inodes and their count alone.
pub record KeepsInodes (d d' : Disk) : Type 0 where
  pub inodes : d'.inodes ≡ d.inodes
  pub free_inodes : d'.free_inodes ≡ d.free_inodes

KeepsInodes-refl : (d : Disk) → KeepsInodes d d
KeepsInodes-refl d = record { inodes = refl; free_inodes = refl }

KeepsInodes-trans : {d d' d'' : Disk} → KeepsInodes d d' → KeepsInodes d' d'' → KeepsInodes d d''
KeepsInodes-trans h h' = record {
  inodes = h'.inodes ∙ h.inodes;
  free_inodes = h'.free_inodes ∙ h.free_inodes;
}

release_block-KeepsInodes : (d : Disk) (block : ℕ) → KeepsInodes d (release_block d block)
unfolding release_block unmark
release_block-KeepsInodes d block = record { inodes = refl; free_inodes = refl }

-- A loop over blocks that are NULL or else given back.
loop-KeepsInodes :
    (give : Disk → ℕ → Disk) (block : Disk → ℕ → ℕ) (n : ℕ) (d : Disk)
    → ((d' : Disk) (b : ℕ) → KeepsInodes d' (give d' b))
    → KeepsInodes d (for_range n 0 (λ i d'. if block d' i == 0 then d' else give d' (block d' i)) d)
loop-KeepsInodes give block n d gives =
    for_range_inv (λ i d'. KeepsInodes d d')
      (λ i d'. if block d' i == 0 then d' else give d' (block d' i)) n 0 n d (omega arith)
      (λ i d' le lt h. elim (Bool-cases (block d' i == 0)) [
        | inl null ↦ rw null h
        | inr there ↦ rw there (KeepsInodes-trans h (gives d' (block d' i)))
      ])
      (KeepsInodes-refl d)

single-KeepsInodes : (d : Disk) (single : ℕ) → KeepsInodes d (clear_inode_single_indirect d single)
unfolding clear_inode_single_indirect
single-KeepsInodes d single =
    KeepsInodes-trans
      (loop-KeepsInodes release_block (λ d' i. index_block d'.memory single i) 64 d
        release_block-KeepsInodes)
      (release_block-KeepsInodes _ single)

double-KeepsInodes : (d : Disk) (double : ℕ) → KeepsInodes d (clear_inode_double_indirect d double)
unfolding clear_inode_double_indirect
double-KeepsInodes d double =
    KeepsInodes-trans
      (loop-KeepsInodes clear_inode_single_indirect (λ d' i. index_block d'.memory double i) 64 d
        single-KeepsInodes)
      (release_block-KeepsInodes _ double)

either-KeepsInodes :
    {d e e' : Disk} (b : Bool)
    → KeepsInodes d e
    → KeepsInodes d e'
    → KeepsInodes d (if b then e else e')
either-KeepsInodes true h h' = h
either-KeepsInodes false h h' = h'

pub my_clear_inode-KeepsInodes : (d : Disk) (n : ℕ) → KeepsInodes d (my_clear_inode d n)
unfolding my_clear_inode
my_clear_inode-KeepsInodes d n =
    let node = d.inodes n in
    let direct =
      loop-KeepsInodes release_block (λ d' i. node.pointers i) 8 d release_block-KeepsInodes in
    let single =
      either-KeepsInodes (node.single_indirect == 0) direct
        (KeepsInodes-trans direct (single-KeepsInodes _ node.single_indirect)) in
    either-KeepsInodes (node.double_indirect == 0) single
      (KeepsInodes-trans single (double-KeepsInodes _ node.double_indirect))

-- A name that no direct block has, in a directory without indirect blocks, is not found.
find_component-none :
    (d : Disk) (name : CString) (cur : ℕ)
    → IsWithout d cur name
    → (d.inodes cur).single_indirect ≡ 0
    → (d.inodes cur).double_indirect ≡ 0
    → find_component d name cur ≡ none
unfolding find_component find_in_direct find_in_single find_in_double step_to
find_component-none d name cur without single double =
    let direct =
      first_some-none 8 0 (λ i. step_to d.memory name cur ((d.inodes cur).pointers i))
        (λ i le lt. elim (Bool-cases ((d.inodes cur).pointers i == 0)) [
          | inl null ↦ rw (null, step_to) refl
          | inr there ↦
              step_to-none d.memory name cur ((d.inodes cur).pointers i)
                (without.absent i (omega arith) (==→ne _ 0 there))
        ]) in
    rw (direct, single, double, find_in_direct, find_in_single, find_in_double, find_component) refl

-- What it takes to unlink the file `k` in the directory `cur`, which has no indirect blocks.
pub record CanUnlink (d : Disk) (path : CString) (cur k : ℕ) : Type 0 where
  pub name : IsName (parse_absolute_path path).filename
  pub not_root : same path root ≡ false
  pub found : my_find_inode_number d path ≡ some k
  pub not_full : (is_dir (d.inodes k).type && ltb 0 (d.inodes k).size) ≡ false
  pub leads : my_find_inode_number d (parse_absolute_path path).current_dir ≡ some cur
  pub differs : k ≢ cur
  pub aligned : (i : ℕ) → i < 8 → (d.inodes cur).pointers i % 256 ≡ 0
  pub no_single : (d.inodes cur).single_indirect ≡ 0
  pub no_double : (d.inodes cur).double_indirect ≡ 0

-- What is left: the name leads nowhere, the inode is blank and counted as free.
pub record Unlinked (d d' : Disk) (cur k : ℕ) (name : CString) : Type 0 where
  pub gone : find_component d' name cur ≡ none
  pub inode : d'.inodes k ≡ blank_inode
  pub size : (d'.inodes cur).size ≡ sub32 (d.inodes cur).size 16
  pub free_inodes : d'.free_inodes ≡ add32 d.free_inodes 1

module _ (d : Disk) (path : CString) (cur k : ℕ) (can : CanUnlink d path cur k) where
  abbrev name_of : CString
  name_of = (parse_absolute_path path).filename

  abbrev emptied : Disk
  emptied = my_clear_inode d k

  keeps : KeepsInodes d emptied
  keeps = my_clear_inode-KeepsInodes d k

  abbrev swept : Disk
  swept = clear_entry_in_current_dir emptied cur name_of

  swept-HasGone : HasGone emptied swept cur name_of
  swept-HasGone =
      clear_entry_in_current_dir-HasGone emptied cur name_of can.name
        (λ i lt. rw keeps.inodes (can.aligned i lt)) (rw keeps.inodes can.no_single)

  pointers_left :
      (i : ℕ) → ((remove d k cur name_of).inodes cur).pointers i ≡ (swept.inodes cur).pointers i
  unfolding remove
  pointers_left i = rw (ne→== cur k (λ e. can.differs (sym e)), ==_refl cur) refl

  remove-Unlinked : Unlinked d (remove d k cur name_of) cur k name_of
  unfolding remove
  remove-Unlinked =
      let h = swept-HasGone in
      let ne = ne→== cur k (λ e. can.differs (sym e)) in
      record {
        gone =
            find_component-none (remove d k cur name_of) name_of cur
              (record {
                aligned = λ i lt. rw (ne, ==_refl cur) (h.without.aligned i lt);
                absent = λ i lt there.
                    subst (IsAbsent swept.memory name_of) (sym (pointers_left i))
                      (h.without.absent i lt (λ z. there (pointers_left i ∙ z)));
              })
              (rw (ne, ==_refl cur) (h.single ∙ rw keeps.inodes can.no_single))
              (rw (ne, ==_refl cur) (h.double ∙ rw keeps.inodes can.no_double));
        inode = rw (==_refl k) refl;
        size = rw (ne, ==_refl cur, h.size, keeps.inodes) refl;
        free_inodes = rw (h.free_inodes, keeps.free_inodes) refl;
      }

  -- Let the path, not "/", lead to an inode k that is no directory with entries, and its
  -- directory part to another inode cur without indirect blocks, whose pointers are addresses
  -- of blocks; let the name at its end be not empty, without NUL and of at most 13 bytes
  -- (CanUnlink). Then rd_unlink returns 0; the lookup of the name in cur then finds nothing,
  -- the inode k is blank, the size of cur has gone down by 16 and the count of free inodes has
  -- grown by one.
  pub rd_unlink-Unlinked :
      (d' : Disk) × (rd_unlink d path ≡ (success, d')) × Unlinked d d' cur k name_of
  unfolding rd_unlink
  rd_unlink-Unlinked = (
    remove d k cur name_of,
    rw (can.not_root, can.found, can.not_full, can.leads, rd_unlink) refl,
    remove-Unlinked,
  )
