-- ===== src/Ramdisk/Path.antt =====
-- Absolute path names: `parse_absolute_path` of kernelspace/discos.c, and the splitting that
-- `strsep` does for `my_find_inode_number`.
pub mod Split
pub mod Tokens
use file_system_toy_os.Prelude.{
  ℕ, zero, suc, ◌+◌, Bool, true, false, ◌&&◌, Option, none, some, List, [], ◌∷◌, ◌==◌,
  if◌then◌else◌, length,
}
use file_system_toy_os.Ramdisk.Memory.{CString}

abbrev pub slash : ℕ
slash = b'/'

abbrev pub root : CString
root = slash ∷ []

-- `strcmp(s, t) == 0`
unfoldable pub same : CString → CString → Bool
same [] [] = true
same [] (c ∷ t) = false
same (b ∷ s) [] = false
same (b ∷ s) (c ∷ t) = (b == c) && same s t

-- `s[i]`, the NUL included.
unfoldable pub char_at : CString → ℕ → ℕ
char_at [] i = 0
char_at (c ∷ s) zero = c
char_at (c ∷ s) (suc i) = char_at s i

-- The first `n` bytes, and what stands behind them.
unfoldable pub take : ℕ → CString → CString
take zero s = []
take (suc n) [] = []
take (suc n) (c ∷ s) = c ∷ take n s

unfoldable pub drop : ℕ → CString → CString
drop zero s = s
drop (suc n) [] = []
drop (suc n) (c ∷ s) = drop n s

-- The loop `for (i = n - 1; i >= 0; i--)`, which stops at a '/'.
unfoldable pub last_slash : ℕ → CString → Option ℕ
last_slash zero path = none
last_slash (suc n) path =
    let rest = last_slash n path in if char_at path n == slash then some n else rest

pub record Parsed : Type 0 where
  pub current_dir : CString
  pub filename : CString

-- The buffers are taken as zeroed before the call. That is what the caller's `memset` is for, which
-- clears them up to the first NUL that they held: all of them, if they come zeroed or without a NUL.
unfoldable pub parse_absolute_path : CString → Parsed
parse_absolute_path path = elim (last_slash (length path) path) [
  | none ↦ record { current_dir = []; filename = path }
  | some i ↦ record {
    current_dir = if i == 0 then root else take i path;
    filename = drop (i + 1) path;
  }
]

-- The tokens of a string between its '/'s, empty ones included, as `strsep` gives them.
abbrev cons_head : ℕ → List CString → List CString
cons_head c [] = (c ∷ []) ∷ []
cons_head c (t ∷ ts) = (c ∷ t) ∷ ts

unfoldable pub tokens : CString → List CString
tokens [] = [] ∷ []
tokens (c ∷ s) = if c == slash then [] ∷ tokens s else cons_head c (tokens s)
