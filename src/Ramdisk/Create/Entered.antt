-- ===== src/Ramdisk/Create/Entered.antt =====
-- The bytes of the other entries when `rd_create` of kernelspace/discos.c has written one.
use file_system_toy_os.Prelude.{
  ltb, ◌^◌, ℕ, ◌+◌, ◌%◌, ◌<◌, ◌≤◌, ◌≡◌, ◌≢◌, ◌⊎◌, inl, inr, refl, sym, ◌∙◌, false, arith, ◌==◌,
  Bool-cases, ==→eq, ==→ne,
}
use file_system_toy_os.Ramdisk.Memory.{Mem, CString, streq, load16, store16, strcpy, clear_bytes}
use file_system_toy_os.Ramdisk.Memory.Names.{streq-ext, streq-strcpy, strcpy-below, strcpy-above}
use file_system_toy_os.Ramdisk.Path.{same}
use file_system_toy_os.Ramdisk.Disk.{entry_address, inode_num_address}
use file_system_toy_os.Ramdisk.Lookup.Unchanged.{IsSameBlock}
use file_system_toy_os.Ramdisk.Create.Named.{IsName, entered}

pub outside : (m : Mem) (p x : ℕ) → (x < p) ⊎ (p + 256 ≤ x) → clear_bytes m p 256 x ≡ m x
unfolding clear_bytes
outside m p x (inl lt) = ground arith
outside m p x (inr le) = ground arith

-- The bytes of the other entries, and the new name in its own.
module _ (m : Mem) (name : CString) (is : IsName name) (e k : ℕ) (at : e % 16 ≡ 0)
    (small : k < 2 ^ 16) where
  abbrev new_memory : Mem
  new_memory = entered m name is e k at small

  beyond : (x : ℕ) → (x < e) ⊎ (e + 16 ≤ x) → new_memory x ≡ m x
  unfolding store16
  beyond x (inl lt) = ground (arith, is.fits, strcpy-below m e name x)
  beyond x (inr le) = ground (arith, is.fits, strcpy-above m e name x)

  pub beside : (a : ℕ) → a % 16 ≡ 0 → a ≢ e → (x : ℕ) → a ≤ x → x < a + 16 → new_memory x ≡ m x
  beside a al ne x le lt = elim (Bool-cases (ltb x e)) [
    | inl before ↦ beyond x (inl (ground arith))
    | inr after ↦ beyond x (inr (ground (arith, at, al)))
  ]

  pub streq-entered : (o : CString) → IsName o → same name o ≡ false → streq new_memory e o ≡ false
  unfolding store16
  streq-entered o other differs =
      streq-ext (strcpy m e name) new_memory e o (λ x le u. ground (arith, other.fits))
      ∙ streq-strcpy m e name o is.no_nul other.no_nul
      ∙ differs

  -- A block that is as it was, but for the new entry.
  pub same_block :
      (before : Mem) (o : CString) (q : ℕ)
      → IsName o
      → q % 256 ≡ 0
      → ((x : ℕ) → q ≤ x → x < q + 256 → m x ≡ before x)
      → ((j : ℕ)
          → j < 16
          → entry_address q j ≡ e
          → (same name o ≡ false) × (streq before e o ≡ false))
      → IsSameBlock before new_memory o q
  unfolding load16
  same_block before o q other al unchanged clear =
      let bytes : (j : ℕ)
          → j < 16
          → entry_address q j ≢ e
          → (x : ℕ) → entry_address q j ≤ x
          → x < entry_address q j + 16
          → new_memory x ≡ before x =
        λ j lt ne x le u.
          beside (entry_address q j) (omega (arith, al)) ne x le u
          ∙ unchanged x (omega arith) (omega arith) in
      record {
        names = λ j lt. elim (Bool-cases (entry_address q j == e)) [
          | inl here ↦
              let (differs, absent) = clear j lt (==→eq _ e here) in
              rw (==→eq _ e here) (streq-entered o other differs ∙ sym absent)
          | inr ne ↦
              streq-ext before new_memory (entry_address q j) o
                (λ x le u. bytes j lt (==→ne _ e ne) x le (omega (arith, other.fits)))
        ];
        numbers = λ j lt hit. elim (Bool-cases (entry_address q j == e)) [
          | inl here ↦
              let absent = (clear j lt (==→eq _ e here)).1 in
              absurd (cc (hit, absent, ==→eq _ e here))
          | inr ne ↦
              rw
                (
                  bytes j lt (==→ne _ e ne) (inode_num_address (entry_address q j)) (omega arith)
                      (omega arith),
                  bytes j lt (==→ne _ e ne) (inode_num_address (entry_address q j) + 1)
                      (omega arith) (omega arith),
                )
                refl
        ];
      }
