-- ===== src/Ramdisk/Create/Room.antt =====
-- Where `get_next_entry` of kernelspace/discos.c finds room in the direct blocks of a directory.
use file_system_toy_os.Prelude.{
  sub32, Bool, ℕ, ◌-◌, ◌/◌, ◌%◌, ◌<◌, ◌≤◌, ◌≡◌, ◌≢◌, ◌⊎◌, inl, inr, refl, sym, ◌∙◌, false, arith,
  update, ◌==◌, Option, none, some, ne→==, ==→ne, ==→eq, Bool-cases, Option-cases,
}
use mathlib.Core.Path.{subst}
use file_system_toy_os.Prelude.Loops.{Found, find_from, find_from_lem, first_some-hit}
use file_system_toy_os.Ramdisk.Memory.{CString, load16, clear_bytes}
use file_system_toy_os.Ramdisk.Disk.{Disk, entry_address, inode_num_address}
use file_system_toy_os.Ramdisk.Bitmap.{
  new_block, allocate_data_block, get_free_block_num_from_bitmap,
}
use file_system_toy_os.Ramdisk.Entry.{
  get_next_dir_entry, entry_in_direct, get_next_entry, set_pointer,
}
use file_system_toy_os.Ramdisk.Create.Named.{
  IsName, IsAbsent, IsAbsent-clear_bytes, clear_bytes-IsAbsent,
}
use file_system_toy_os.Ramdisk.Create.Place.{IsWithout, HasRoom, IsPlace}

-- What a new block is, of which only these matter here.
pub record IsFresh (d d' : Disk) (p : ℕ) : Type 0 where
  pub aligned : p % 256 ≡ 0
  pub there : p ≢ 0
  pub zeroed : d'.memory ≡ clear_bytes d.memory p 256
  pub inodes : d'.inodes ≡ d.inodes
  pub free_inodes : d'.free_inodes ≡ d.free_inodes
  pub free_blocks : d'.free_blocks ≡ sub32 d.free_blocks 1

abbrev AreFresh : Disk → Option (ℕ × Disk) → Type 0
AreFresh d none = Unit {0}
AreFresh d (some (p, d')) = IsFresh d d' p

new_block-AreFresh : (d : Disk) → AreFresh d (new_block d)
unfolding new_block allocate_data_block
new_block-AreFresh d = elim (Option-cases (get_free_block_num_from_bitmap d)) [
  | inl e ↦ rw (e, new_block) tt
  | inr (k, e) ↦
      rw (e, new_block)
        (record {
          aligned = omega arith;
          there = λ z. omega (arith, z);
          zeroed = refl;
          inodes = refl;
          free_inodes = refl;
          free_blocks = refl;
        })
]

new_block-IsFresh : (d : Disk) (p : ℕ) (d' : Disk) → new_block d ≡ some (p, d') → IsFresh d d' p
new_block-IsFresh d p d' e = subst (AreFresh d) e (new_block-AreFresh d)

-- What a round of the search over the direct blocks comes to, if it returns.
abbrev pub Placed : Disk → ℕ → CString → Option ℕ × Disk → Type 0
Placed d cur name (o, d') = (e : ℕ) × (o ≡ some e) × IsPlace d d' cur name e

module _ (d : Disk) (cur : ℕ) (name : CString) (is : IsName name)
    (without : IsWithout d cur name) where
  -- A new block, entered as the block `i` of the directory.
  module _ (i p : ℕ) (d' : Disk) (lt : i < 8) (new : IsFresh d d' p) where
    pointers_lem :
        (m : ℕ)
        → ((set_pointer d' cur i p).inodes cur).pointers m ≡ update (d.inodes cur).pointers i p m
    pointers_lem m = rw new.inodes (ground arith)

    IsAbsent-fresh : (q : ℕ) → q % 256 ≡ 0 → IsAbsent d.memory name q → IsAbsent d'.memory name q
    IsAbsent-fresh q al absent =
        rw new.zeroed (IsAbsent-clear_bytes d.memory name p q is new.aligned al absent)

    pointer_cases :
        (m : ℕ)
        → (((set_pointer d' cur i p).inodes cur).pointers m ≡ p)
          ⊎ (((set_pointer d' cur i p).inodes cur).pointers m ≡ (d.inodes cur).pointers m)
    pointer_cases m = elim (Bool-cases (i == m)) [
      | inl e ↦ inl (ground (arith, pointers_lem m))
      | inr e ↦ inr (ground (arith, pointers_lem m))
    ]

    IsAbsent-pointer :
        (m : ℕ)
        → m < 8
        → (q : ℕ) → (q ≡ p) ⊎ (q ≡ (d.inodes cur).pointers m)
        → q ≢ 0
        → IsAbsent d'.memory name q
    IsAbsent-pointer m m_lt q (inl e) ne =
        rw (e, new.zeroed) (clear_bytes-IsAbsent d.memory name p is)
    IsAbsent-pointer m m_lt q (inr e) ne = rw e (
        IsAbsent-fresh ((d.inodes cur).pointers m) (without.aligned m m_lt)
          (without.absent m m_lt (λ z. ne (e ∙ z))))

    new-IsPlace :
        (d.inodes cur).pointers i ≡ 0
        → new_block d ≡ some (p, d')
        → IsPlace d (set_pointer d' cur i p) cur name (entry_address p 0)
    new-IsPlace null e =
        let here : ((set_pointer d' cur i p).inodes cur).pointers i ≡ p =
          ground (arith, pointers_lem i) in
        record {
          without = record {
            aligned = λ m m_lt. ground (arith, pointers_lem m, new.aligned, without.aligned m);
            absent = λ m m_lt ne. IsAbsent-pointer m m_lt _ (pointer_cases m) ne;
          };
          block = i;
          slot = 0;
          block_in = lt;
          slot_in = omega arith;
          there = λ z. new.there (sym here ∙ z);
          address = rw here refl;
          types = λ n. rw new.inodes (ground arith);
          size = rw new.inodes (ground arith);
          others = λ n ne. rw new.inodes (ground arith);
          free_inodes = new.free_inodes;
          free_blocks = inr new.free_blocks;
          obtained = inr (record {
            index = i;
            block = p;
            between = d';
            was_null = null;
            new = e;
            placed = refl;
            first = refl;
          });
        }

  old-IsPlace :
      (i j : ℕ)
      → i < 8
      → j < 16
      → (d.inodes cur).pointers i ≢ 0
      → load16 d.memory (inode_num_address (entry_address ((d.inodes cur).pointers i) j)) ≡ 0
      → IsPlace d d cur name (entry_address ((d.inodes cur).pointers i) j)
  old-IsPlace i j lt j_lt ne free = record {
    without = without;
    block = i;
    slot = j;
    block_in = lt;
    slot_in = j_lt;
    there = ne;
    address = refl;
    types = λ n. refl;
    size = refl;
    others = λ n ne'. refl;
    free_inodes = refl;
    free_blocks = inl refl;
    obtained = inl (refl, free);
  }

  -- Where there is a block to be had, each round goes on or finds a place.
  module _ (p : ℕ) (d₁ : Disk) (fresh : new_block d ≡ some (p, d₁)) where
    in_old :
        (i : ℕ)
        → i < 8
        → (d.inodes cur).pointers i ≢ 0
        → (o : Option ℕ)
        → Found 0 16
            (λ j.
              load16 d.memory (inode_num_address (entry_address ((d.inodes cur).pointers i) j))
              == 0)
            o
        → find_from 16 0 (λ j.
          load16 d.memory (inode_num_address (entry_address ((d.inodes cur).pointers i) j)) == 0)
          ≡ o
        → (entry_in_direct d cur i ≡ none)
          ⊎ ((r : Option ℕ × Disk) × (entry_in_direct d cur i ≡ some r) × Placed d cur name r)
    unfolding entry_in_direct get_next_dir_entry
    in_old i lt ne none f e =
        inl
          (rw (ne→== ((d.inodes cur).pointers i) 0 ne, e, get_next_dir_entry, entry_in_direct) refl)
    in_old i lt ne (some j) f e =
        let entry : ℕ = entry_address ((d.inodes cur).pointers i) j in
        inr (
          (some entry, d),
          rw (ne→== ((d.inodes cur).pointers i) 0 ne, e, get_next_dir_entry, entry_in_direct) refl,
          (entry, refl, old-IsPlace i j lt (omega (arith, f.below)) ne (==→eq _ 0 f.passes)),
        )

    round :
        (i : ℕ)
        → i < 8
        → (entry_in_direct d cur i ≡ none)
          ⊎ ((r : Option ℕ × Disk) × (entry_in_direct d cur i ≡ some r) × Placed d cur name r)
    unfolding entry_in_direct
    round i lt = elim (Bool-cases ((d.inodes cur).pointers i == 0)) [
      | inl e ↦ inr (
        (some (entry_address p 0), set_pointer d₁ cur i p),
        rw (e, fresh, entry_in_direct) refl,
        (
          entry_address p 0,
          refl,
          new-IsPlace i p d₁ lt (new_block-IsFresh d p d₁ fresh) (==→eq _ 0 e) fresh,
        ),
      )
      | inr e ↦ in_old i lt (==→ne _ 0 e) _ (find_from_lem 16 0 _) refl
    ]

    round-HasRoom : (i : ℕ) → HasRoom d cur i → entry_in_direct d cur i ≢ none
    unfolding entry_in_direct get_next_dir_entry
    round-HasRoom i (inl e) z = absurd (cc (rw (e, fresh, entry_in_direct) at z))
    round-HasRoom i (inr (j, lt, free)) z =
        let block : ℕ = (d.inodes cur).pointers i in
        let test : ℕ → Bool =
          λ j. load16 d.memory (inode_num_address (entry_address block j)) == 0 in
        elim (Bool-cases (block == 0)) [
          | inl e ↦ absurd (cc (rw (e, fresh, entry_in_direct) at z))
          | inr e ↦ elim (Option-cases (find_from 16 0 test)) [
            | inl none_free ↦
                let busy : test j ≡ false =
                  subst (Found 0 16 test) none_free (find_from_lem 16 0 test) j (omega arith)
                    (omega arith) in
                ==→ne _ 0 busy free
            | inr (k, found) ↦ absurd (cc (rw (e, found, get_next_dir_entry, entry_in_direct) at z))
          ]
        ]

    pub get_next_entry-Placed :
        (i : ℕ)
        → (d.inodes cur).size / 256 ≤ i
        → i < 8
        → HasRoom d cur i
        → Placed d cur name (get_next_entry d cur)
    unfolding get_next_entry
    get_next_entry-Placed i le lt room =
        let seg : ℕ = (d.inodes cur).size / 256 in
        let (r, e, placed) =
          first_some-hit (Placed d cur name) (8 - seg) seg (entry_in_direct d cur) i
            (λ m u v. round m (omega arith)) le (omega arith) (round-HasRoom i room) in
        rw (e, get_next_entry) placed
