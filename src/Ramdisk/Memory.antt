-- ===== src/Ramdisk/Memory.antt =====
-- The bytes of `data_blocks` in Jiaqian-Ramdisk-Final/kernelspace/discos.h. A data block is a C
-- union of bytes, directory entries and block pointers, so the model keeps bytes only, and reads
-- the other members off them, little endian. An address is the distance from `discos`; 0 is NULL.
pub mod Names
use file_system_toy_os.Prelude.{
  ℕ, ◌+◌, ◌*◌, ◌/◌, ◌%◌, Bool, ◌&&◌, List, [], ◌∷◌, ltb, leb, ◌==◌, if◌then◌else◌, update,
}

abbrev pub Mem : Type 0
Mem = ℕ → ℕ

-- A C string without its NUL.
abbrev pub CString : Type 0
CString = List ℕ

-- `unsigned short`, two bytes.
unfoldable pub load16 : Mem → ℕ → ℕ
load16 m a = m a + 256 * m (a + 1)

unfoldable pub store16 : Mem → ℕ → ℕ → Mem
store16 m a v = update (update m a (v % 256)) (a + 1) (v / 256 % 256)

-- A pointer, four bytes.
unfoldable pub load32 : Mem → ℕ → ℕ
load32 m a = m a + 256 * m (a + 1) + 65536 * m (a + 2) + 16777216 * m (a + 3)

unfoldable pub store32 : Mem → ℕ → ℕ → Mem
store32 m a v =
    update
      (update (update (update m a (v % 256)) (a + 1) (v / 256 % 256)) (a + 2) (v / 65536 % 256))
      (a + 3) (v / 16777216 % 256)

-- `memset(a, 0, n)`
unfoldable pub clear_bytes : Mem → ℕ → ℕ → Mem
clear_bytes m a n x = if leb a x && ltb x (a + n) then 0 else m x

-- `strcmp(a, s) == 0`, which reads up to the first difference.
unfoldable pub streq : Mem → ℕ → CString → Bool
streq m a [] = m a == 0
streq m a (c ∷ s) = (m a == c) && streq m (a + 1) s

-- `strcpy(a, s)`: the bytes of `s` and a NUL, whatever lies behind the place meant for them.
unfoldable pub strcpy : Mem → ℕ → CString → Mem
strcpy m a [] = update m a 0
strcpy m a (c ∷ s) = strcpy (update m a c) (a + 1) s
