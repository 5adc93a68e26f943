-- ===== src/Ramdisk/Create/Named.antt =====
-- The bytes of a directory entry that `rd_create` of kernelspace/discos.c has written, and a search
-- for its name over the blocks of the directory.
use file_system_toy_os.Prelude.{
  ◌^◌, ℕ, ◌%◌, ◌<◌, ◌≤◌, ◌≡◌, ◌≢◌, inl, inr, refl, ◌∙◌, true, false, arith, length, ◌==◌, none,
  some, [], ◌∷◌, ne→==, ==→eq, Bool-cases,
}
use file_system_toy_os.Prelude.Loops.{find_from-first, find_from-none}
use file_system_toy_os.Ramdisk.Memory.{Mem, CString, streq, strcpy, store16, load16, clear_bytes}
use file_system_toy_os.Ramdisk.Memory.Names.{
  NoNul, strcpy-below, strcpy-above, streq-strcpy, streq-ext, same_refl,
}
use file_system_toy_os.Ramdisk.Disk.{entry_address, inode_num_address}
use file_system_toy_os.Ramdisk.Lookup.{find_in_block, step_to}

-- A name that fits in an entry.
pub record IsName (name : CString) : Type 0 where
  pub no_nul : NoNul name
  pub fits : length name ≤ 13
  pub not_empty : name ≢ []

-- No entry of the block at `p` has the name.
abbrev pub IsAbsent : Mem → CString → ℕ → Type 0
IsAbsent m name p = (j : ℕ) → j < 16 → streq m (entry_address p j) name ≡ false

-- Zeroed bytes hold no name that is not empty.
pub clear_bytes-IsAbsent :
    (m : Mem) (name : CString) (p : ℕ) → IsName name → IsAbsent (clear_bytes m p 256) name p
unfolding streq clear_bytes
clear_bytes-IsAbsent m [] p is = absurd (is.not_empty refl)
clear_bytes-IsAbsent m (c ∷ s) p is = λ j lt. ground (arith, is.no_nul)

module _ (m : Mem) (name : CString) (is : IsName name) (e k : ℕ) (at : e % 16 ≡ 0)
    (small : k < 2 ^ 16) where
  abbrev pub entered : Mem
  entered = store16 (strcpy m e name) (inode_num_address e) k

  pub entered-name : streq entered e name ≡ true
  unfolding store16
  entered-name =
      streq-ext (strcpy m e name) entered e name (λ x le lt. ground (arith, is.fits))
      ∙ streq-strcpy m e name name is.no_nul is.no_nul
      ∙ same_refl name

  pub entered-number : load16 entered (inode_num_address e) ≡ k
  unfolding store16 load16
  entered-number = ground (arith, small)

  pub entered-other : (a : ℕ) → a % 16 ≡ 0 → a ≢ e → streq entered a name ≡ streq m a name
  unfolding store16
  entered-other a al ne =
      streq-ext m entered a name
        (λ x le lt. ground (arith, is.fits, strcpy-below m e name x, strcpy-above m e name x))

-- A new block is zeroed; the names in the other blocks stay.
pub IsAbsent-clear_bytes :
    (m : Mem) (name : CString) (p q : ℕ)
    → IsName name
    → p % 256 ≡ 0
    → q % 256 ≡ 0
    → IsAbsent m name q
    → IsAbsent (clear_bytes m p 256) name q
unfolding clear_bytes
IsAbsent-clear_bytes m name p q is pa qa absent = elim (Bool-cases (q == p)) [
  | inl e ↦ rw (==→eq q p e) (clear_bytes-IsAbsent m name p is)
  | inr ne ↦ λ j lt.
      streq-ext m (clear_bytes m p 256) (entry_address q j) name (λ x le u. ground (arith, is.fits))
      ∙ absent j lt
]

-- What the lookup of a name makes of one block of the directory `cur`.
module _ (m : Mem) (name : CString) (cur q : ℕ) where
  pub step_to-none : IsAbsent m name q → step_to m name cur q ≡ none
  unfolding step_to find_in_block
  step_to-none absent =
      let e =
        find_from-none 16 0 (λ j. streq m (entry_address q j) name)
          (λ j le lt. absent j (omega arith)) in
      rw (e, find_in_block, step_to) (ground arith)

  pub step_to-some :
      (j k : ℕ)
      → q ≢ 0
      → j < 16
      → streq m (entry_address q j) name ≡ true
      → ((i : ℕ) → i < 16 → i ≢ j → streq m (entry_address q i) name ≡ false)
      → load16 m (inode_num_address (entry_address q j)) ≡ k
      → k ≢ cur
      → step_to m name cur q ≡ some k
  unfolding step_to find_in_block
  step_to-some j k ne lt hit others number differs =
      let e =
        find_from-first 16 0 (λ i. streq m (entry_address q i) name) j
          (record {
            from = omega arith;
            below = omega arith;
            passes = hit;
            before = λ i le i_lt. others i (omega arith) (λ e'. omega arith);
          }) in
      rw (e, ne→== q 0 ne, find_in_block, step_to, number, ne→== k cur differs) refl
