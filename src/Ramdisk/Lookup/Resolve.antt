-- ===== src/Ramdisk/Lookup/Resolve.antt =====
-- How `my_find_inode_number` of kernelspace/discos.c resolves a path.
use file_system_toy_os.Ramdisk.Path.Split.{
  parse_absolute_path-append, parse_absolute_path-root, NoSlash,
}
use file_system_toy_os.Ramdisk.Path.{parse_absolute_path, slash, root, same, drop}
use file_system_toy_os.Prelude.{
  ℕ, ◌≡◌, ◌≢◌, refl, false, Option, none, some, List, [], ◌∷◌, ◌++◌, arith, Option-cases, inl, inr,
}
use file_system_toy_os.Ramdisk.Memory.{CString}
use file_system_toy_os.Ramdisk.Disk.{Disk}
use file_system_toy_os.Ramdisk.Path.Tokens.{tokens-plain, tokens-snoc}
use file_system_toy_os.Ramdisk.Lookup.{find_component, walk, my_find_inode_number}

-- A lookup in the directory that another lookup gave.
abbrev pub and_then : Option ℕ → (ℕ → Option ℕ) → Option ℕ
and_then none f = none
and_then (some k) f = f k

walk-snoc :
    (d : Disk) (ts : List CString) (name : CString) (cur : ℕ)
    → walk d (ts ++ (name ∷ [])) cur ≡ and_then (walk d ts cur) (find_component d name)
unfolding walk
walk-snoc d [] name cur = ground arith
walk-snoc d (t ∷ ts) name cur = elim (Option-cases (find_component d t cur)) [
  | inl e ↦ rw (e, walk)
  | inr (next, e) ↦ rw (e, walk) (walk-snoc d ts name next)
]

-- The directory part of a path behind which '/' and a name stand: "" for the root, or '/' and more.
abbrev pub IsDirPath : CString → Type 0
IsDirPath [] = Unit {0}
IsDirPath (c ∷ []) = ⊥
IsDirPath (c ∷ b ∷ s) = c ≡ slash

pub same-ne-nil : (s : CString) → s ≢ [] → same s [] ≡ false
unfolding same
same-ne-nil [] ne = absurd (ne refl)
same-ne-nil (c ∷ s) ne = refl

pub root_is_zero : (d : Disk) → my_find_inode_number d root ≡ some 0
unfolding my_find_inode_number same
root_is_zero d = refl

module _ (d : Disk) (name : CString) (plain : NoSlash name) (ne : name ≢ []) where
  pub in_root : my_find_inode_number d (slash ∷ name) ≡ find_component d name 0
  unfolding my_find_inode_number same drop walk
  in_root = rw (same-ne-nil name ne, tokens-plain name plain) (ground arith)

  in_dir :
      (b : ℕ) (dir : CString)
      → my_find_inode_number d ((slash ∷ b ∷ dir) ++ slash ∷ name)
        ≡ and_then (my_find_inode_number d (slash ∷ b ∷ dir)) (find_component d name)
  unfolding my_find_inode_number same drop
  in_dir b dir = rw (tokens-snoc (b ∷ dir) name plain, walk-snoc)

  -- For a name that is not empty and has no '/', behind a directory part that is empty or is
  -- '/' and at least one byte more: my_find_inode_number of the whole path is the lookup of the
  -- file name that parse_absolute_path splits off in the directory that my_find_inode_number
  -- finds for the directory that parse_absolute_path splits off, and fails where that directory
  -- is not found.
  pub my_find_inode_number_lem :
      (dir : CString)
      → IsDirPath dir
      → let p = parse_absolute_path (dir ++ slash ∷ name) in
        my_find_inode_number d (dir ++ slash ∷ name)
        ≡ and_then (my_find_inode_number d p.current_dir) (find_component d p.filename)
  my_find_inode_number_lem [] h =
      rw (parse_absolute_path-root name plain) (rw (root_is_zero d) in_root)
  my_find_inode_number_lem (c ∷ []) h = absurd h
  my_find_inode_number_lem (c ∷ b ∷ dir) h =
      rw (h, parse_absolute_path-append name plain (slash ∷ b ∷ dir) (λ e. cc)) (in_dir b dir)
