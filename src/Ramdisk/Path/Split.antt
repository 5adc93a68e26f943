-- ===== src/Ramdisk/Path/Split.antt =====
-- `parse_absolute_path` of kernelspace/discos.c and the last '/' of a path.
use file_system_toy_os.Prelude.{
  ℕ, zero, suc, ◌+◌, ◌≤◌, ◌<◌, ◌≡◌, ◌≢◌, refl, ap, some, [], ◌∷◌, ◌++◌, arith, length,
  length-append, ne→==,
}
use file_system_toy_os.Ramdisk.Memory.{CString}
use file_system_toy_os.Ramdisk.Path.{
  slash, root, char_at, take, drop, last_slash, parse_absolute_path,
}

-- No byte is a '/'.
abbrev pub NoSlash : CString → Type 0
NoSlash [] = Unit {0}
NoSlash (c ∷ s) = (c ≢ slash) × NoSlash s

module _ (name : CString) (plain : NoSlash name) where
  char_at-name : (s : CString) (k : ℕ) → NoSlash s → k < length s → char_at s k ≢ slash
  unfolding char_at
  char_at-name [] k p lt = absurd (omega arith)
  char_at-name (c ∷ s) zero p lt = p.0
  char_at-name (c ∷ s) (suc k) p lt = char_at-name s k p.1 (omega arith)

  char_at-slash : (dir : CString) → char_at (dir ++ slash ∷ name) (length dir) ≡ slash
  unfolding char_at
  char_at-slash [] = refl
  char_at-slash (c ∷ dir) = char_at-slash dir

  char_at-behind :
      (dir : CString) (k : ℕ) → char_at (dir ++ slash ∷ name) (length dir + suc k) ≡ char_at name k
  unfolding char_at
  char_at-behind [] k = let e : 0 + suc k ≡ suc k = omega arith in rw e
  char_at-behind (c ∷ dir) k =
      let e : suc (length dir) + suc k ≡ suc (length dir + suc k) = omega arith in
      rw e (char_at-behind dir k)

  -- The loop passes over the name and stops at the '/' in front of it.
  last_slash-name :
      (dir : CString) (k n : ℕ)
      → k ≤ length name
      → n ≡ length dir + suc k
      → last_slash n (dir ++ slash ∷ name) ≡ some (length dir)
  unfolding last_slash
  last_slash-name dir k zero le e = absurd (omega arith)
  last_slash-name dir zero (suc n) le e =
      let e' : n ≡ length dir = omega arith in rw (e', char_at-slash dir, last_slash)
  last_slash-name dir (suc k) (suc n) le e =
      let e' : n ≡ length dir + suc k = omega arith in
      rw (e', char_at-behind dir k, ne→== _ _ (char_at-name name k plain (omega arith)), last_slash)
        (last_slash-name dir k (length dir + suc k) (omega arith) refl)

  take-dir : (dir s : CString) → take (length dir) (dir ++ s) ≡ dir
  unfolding take
  take-dir [] s = refl
  take-dir (c ∷ dir) s = ap (◌∷◌ c) (take-dir dir s)

  drop-dir : (dir : CString) (n : ℕ) → n ≡ suc (length dir) → drop n (dir ++ slash ∷ name) ≡ name
  unfolding drop
  drop-dir dir zero e = absurd (omega arith)
  drop-dir [] (suc n) e = let e' : n ≡ 0 = omega arith in rw (e', drop)
  drop-dir (c ∷ dir) (suc n) e = drop-dir dir n (omega arith)

  found :
      (dir : CString)
      → last_slash (length (dir ++ slash ∷ name)) (dir ++ slash ∷ name) ≡ some (length dir)
  found dir =
      last_slash-name dir (length name) (length (dir ++ slash ∷ name)) (omega arith)
        (length-append dir (slash ∷ name))

  -- For a name without '/' behind a directory part that is not empty and a '/',
  -- parse_absolute_path splits the path into just that directory part and that name.
  pub parse_absolute_path-append :
      (dir : CString)
      → dir ≢ []
      → parse_absolute_path (dir ++ slash ∷ name) ≡ record { current_dir = dir; filename = name }
  unfolding parse_absolute_path
  parse_absolute_path-append [] ne = absurd (ne refl)
  parse_absolute_path-append (c ∷ dir) ne =
      rw
        (
          found (c ∷ dir),
          take-dir (c ∷ dir) (slash ∷ name),
          drop-dir (c ∷ dir) (length (c ∷ dir) + 1) (omega arith),
          parse_absolute_path,
        )
        (ground arith)

  -- A name right behind the first '/' lies in the root.
  pub parse_absolute_path-root :
      parse_absolute_path (slash ∷ name) ≡ record { current_dir = root; filename = name }
  unfolding parse_absolute_path
  parse_absolute_path-root = rw (found [], drop-dir [] (0 + 1) (omega arith), parse_absolute_path)
