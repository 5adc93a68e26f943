-- ===== src/Ramdisk/Create/Found.antt =====
-- The disk that `rd_create` of kernelspace/discos.c leaves, and the lookup of the name made.
use file_system_toy_os.Prelude.{
  ◌⊎◌, ℕ, ◌/◌, ◌%◌, ◌^◌, ◌<◌, ◌≤◌, ◌≡◌, ◌≢◌, inl, inr, refl, sym, ap, ◌∙◌, true, arith, ◌==◌,
  Option, none, some, ne→==, ==_refl, ==→eq, ==→ne, Bool-cases, Option-cases, success, sub32, add32,
}
use mathlib.Core.Path.{subst}
use file_system_toy_os.Prelude.Loops.{first_some-hit}
use file_system_toy_os.Ramdisk.Memory.{CString, streq, load16}
use file_system_toy_os.Ramdisk.Disk.{FileType, Disk, blank_inode, entry_address, inode_num_address}
use file_system_toy_os.Ramdisk.Bitmap.{is_unset, new_block, get_free_inode_num, allocate_inode}
use file_system_toy_os.Ramdisk.Path.{parse_absolute_path}
use file_system_toy_os.Ramdisk.Lookup.{
  step_to, find_in_direct, find_component, my_find_inode_number,
}
use file_system_toy_os.Ramdisk.Entry.{get_next_entry}
use file_system_toy_os.Ramdisk.Tree.{enter, rd_create}
use file_system_toy_os.Ramdisk.Create.Named.{
  IsName, entered, entered-name, entered-number, entered-other, step_to-none, step_to-some,
}
use file_system_toy_os.Ramdisk.Create.Place.{IsWithout, HasRoom, IsPlace}
use file_system_toy_os.Ramdisk.Create.Room.{get_next_entry-Placed}
use file_system_toy_os.Ramdisk.Create.FreeInode.{
  IsUnused, get_free_inode_num-IsUnused, get_free_inode_num-types,
}

some_not_none {ℓ} : {A : Type ℓ} (o : Option A) (a : A) → o ≡ some a → o ≢ none
some_not_none o a e e' = cc

-- The disk when the entry and the inode are written.
module _ (d d' : Disk) (cur e k : ℕ) (name : CString) (is : IsName name)
    (place : IsPlace d d' cur name e) (small : k < 1024) (differs : k ≢ cur) (type : FileType)
    (mode : ℕ) where
  abbrev after : Disk
  after = enter d' cur e k name type mode

  abbrev block_of : ℕ → ℕ
  block_of i = (d'.inodes cur).pointers i

  pointers-after : (i : ℕ) → (after.inodes cur).pointers i ≡ block_of i
  unfolding enter allocate_inode
  pointers-after i = ground arith

  entry_aligned : e % 16 ≡ 0
  entry_aligned =
      let al = place.without.aligned place.block place.block_in in
      let ad = place.address in omega (arith, al, ad)

  memory-after : after.memory ≡ entered d'.memory name is e k entry_aligned (omega (arith, small))
  unfolding enter allocate_inode
  memory-after = refl

  step_with : step_to after.memory name cur (block_of place.block) ≡ some k
  step_with =
      let at = entry_aligned in
      let lt : k < 2 ^ 16 = omega (arith, small) in
      let al = place.without.aligned place.block place.block_in in
      rw memory-after (
        step_to-some (entered d'.memory name is e k at lt) name cur (block_of place.block)
          place.slot k place.there place.slot_in
          (subst (λ a. streq (entered d'.memory name is e k at lt) a name ≡ true) place.address
            (entered-name d'.memory name is e k at lt))
          (λ i i_lt ne.
            entered-other d'.memory name is e k at lt (entry_address (block_of place.block) i)
              (omega (arith, al)) (λ z. ne (omega (arith, place.address, z)))
            ∙ place.without.absent place.block place.block_in place.there i i_lt)
          (subst (λ a. load16 (entered d'.memory name is e k at lt) (inode_num_address a) ≡ k)
            place.address (entered-number d'.memory name is e k at lt))
          differs)

  step_null : (q : ℕ) → q ≡ 0 → step_to after.memory name cur q ≡ none
  unfolding step_to
  step_null q z = rw (z, step_to) refl

  step_without :
      (i : ℕ)
      → i < 8
      → block_of i ≢ block_of place.block
      → step_to after.memory name cur (block_of i) ≡ none
  step_without i lt ne = elim (Bool-cases (block_of i == 0)) [
    | inl z ↦ step_null (block_of i) (==→eq _ 0 z)
    | inr there ↦
        let at = entry_aligned in
        let k_lt : k < 2 ^ 16 = omega (arith, small) in
        let al = place.without.aligned i lt in
        let al' = place.without.aligned place.block place.block_in in
        rw memory-after (
          step_to-none (entered d'.memory name is e k at k_lt) name cur (block_of i) (λ j j_lt.
            entered-other d'.memory name is e k at k_lt (entry_address (block_of i) j)
              (omega (arith, al))
              (λ z. ne (omega (arith, place.address, z, al, al', place.slot_in)))
            ∙ place.without.absent i lt (==→ne _ 0 there) j j_lt))
  ]

  find_component-after : find_component after name cur ≡ some k
  unfolding find_component find_in_direct
  find_component-after =
      let (a, found, same) =
        first_some-hit (λ a. a ≡ k) 8 0
          (λ i. step_to after.memory name cur ((after.inodes cur).pointers i)) place.block
          (λ i le lt. elim (Bool-cases (block_of i == block_of place.block)) [
            | inl z ↦ inr (k, rw (pointers-after i, ==→eq _ _ z) step_with, refl)
            | inr ne ↦ inl (rw (pointers-after i) (step_without i (omega arith) (==→ne _ _ ne)))
          ])
          (omega arith) (omega (arith, place.block_in))
          (λ z. some_not_none _ k (rw (pointers-after place.block) step_with) z) in
      rw (found, find_in_direct, find_component) (ap some same)

-- What `rd_create` leaves: the name leads to the inode `k`, which is new and empty, the directory
-- `cur` has grown by one entry, and no other inode has changed.
pub record Created (d d' : Disk) (cur k : ℕ) (name : CString) (type : FileType) (mode : ℕ)
    : Type 0 where
  pub found : find_component d' name cur ≡ some k
  pub inode : d'.inodes k ≡ record blank_inode { type = type; access = mode }
  pub size : (d'.inodes cur).size ≡ add32 (d.inodes cur).size 16
  pub others : (n : ℕ) → n ≢ cur → n ≢ k → d'.inodes n ≡ d.inodes n
  pub free_inodes : d'.free_inodes ≡ sub32 d.free_inodes 1
  pub free_blocks : (d'.free_blocks ≡ d.free_blocks) ⊎ (d'.free_blocks ≡ sub32 d.free_blocks 1)
  pub written :
      (e : ℕ) × (before : Disk) × IsPlace d before cur name e
      × (d' ≡ enter before cur e k name type mode)

-- What it takes to make the file `name` in the directory `cur`: the inode `k` and a block are free,
-- no direct block has the name, and one of those from that of the size on has room.
pub record CanCreate (d : Disk) (path : CString) (cur k : ℕ) : Type 0 where
  pub name : IsName (parse_absolute_path path).filename
  pub inodes_left : d.free_inodes ≢ 0
  pub blocks_left : d.free_blocks ≢ 0
  pub free_inode : get_free_inode_num d ≡ some k
  pub free_block : new_block d ≢ none
  pub leads : my_find_inode_number d (parse_absolute_path path).current_dir ≡ some cur
  pub directory : (d.inodes cur).type ≡ FileType.dir
  pub without : IsWithout d cur (parse_absolute_path path).filename
  pub block : ℕ
  pub from : (d.inodes cur).size / 256 ≤ block
  pub below : block < 8
  pub room : HasRoom d cur block

module _ (d : Disk) (path : CString) (cur k : ℕ) (can : CanCreate d path cur k) (type : FileType)
    (mode : ℕ) where
  abbrev name_of : CString
  name_of = (parse_absolute_path path).filename

  unused : IsUnused d k
  unused = get_free_inode_num-IsUnused d k can.free_inode

  differs : k ≢ cur
  differs e =
      let dir : (d.inodes k).type ≡ FileType.dir = rw e can.directory in
      absurd (cc (unused.first.passes, ap is_unset dir))

  at_place :
      (e : ℕ)
      → (get_next_entry d cur).0 ≡ some e
      → IsPlace d (get_next_entry d cur).1 cur name_of e
      → (f : Disk) × (rd_create d path type mode ≡ (success, f))
        × Created d f cur k name_of type mode
  unfolding rd_create enter allocate_inode
  at_place e next place =
      let d' : Disk = (get_next_entry d cur).1 in
      let free =
        get_free_inode_num-types d d' k can.inodes_left place.free_inodes place.types
          can.free_inode in
      (
        enter d' cur e k name_of type mode,
        rw
            (
              ne→== d.free_inodes 0 can.inodes_left,
              ne→== d.free_blocks 0 can.blocks_left,
              can.leads,
              next,
              free,
              rd_create,
            )
            refl,
        record {
          found =
              find_component-after d d' cur e k name_of can.name place
                (omega (arith, unused.first.below)) differs type mode;
          inode = rw (ne→== k cur differs, ==_refl k) refl;
          size = rw (==_refl cur, ne→== cur k (λ z. differs (sym z)), place.size) refl;
          others = λ n ne ne'. rw (ne→== n cur ne, ne→== n k ne') (place.others n ne);
          free_inodes = ap (λ n. sub32 n 1) place.free_inodes;
          free_blocks = place.free_blocks;
          written = (e, d', place, refl);
        },
      )

  -- Let the path lead to a directory cur and end in a name that is not empty, has no NUL and at
  -- most 13 bytes; let the superblock count free inodes and blocks, get_free_inode_num give the
  -- inode k, a new block be there to be had, no entry of the direct blocks of cur have the
  -- name, the pointers to these be addresses of blocks, and one of them from that of the size
  -- on be NULL or have an entry without an inode number (CanCreate). Then rd_create returns 0;
  -- the lookup of the name in cur then gives k, the inode k is an empty one of the type and
  -- mode given, the size of cur has grown by 16, the count of free inodes has gone down by one,
  -- that of free blocks by one or not at all, and no other inode has changed.
  pub rd_create-Created :
      (f : Disk) × (rd_create d path type mode ≡ (success, f)) × Created d f cur k name_of type mode
  rd_create-Created = elim (Option-cases (new_block d)) [
    | inl e ↦ absurd (can.free_block e)
    | inr ((p, d₁), e) ↦
        let (entry, same, place) =
          get_next_entry-Placed d cur name_of can.name can.without p d₁ e can.block can.from
            can.below can.room in
        at_place entry same place
  ]
