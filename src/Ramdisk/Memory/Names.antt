-- ===== src/Ramdisk/Memory/Names.antt =====
-- Names in directory entries: what `strcpy` puts down and `strcmp` compares in kernelspace/discos.c.
use file_system_toy_os.Prelude.{
  ℕ, ◌+◌, ◌<◌, ◌≤◌, ◌≡◌, ◌≢◌, refl, true, [], ◌∷◌, arith, update, length,
}
use file_system_toy_os.Ramdisk.Memory.{Mem, CString, streq, strcpy}
use file_system_toy_os.Ramdisk.Path.{same}

-- A C string holds no NUL.
abbrev pub NoNul : CString → Type 0
NoNul [] = Unit {0}
NoNul (c ∷ s) = (c ≢ 0) × NoNul s

-- `strcpy` writes the string and its NUL and nothing else.
pub strcpy-below : (m : Mem) (a : ℕ) (s : CString) (x : ℕ) → x < a → strcpy m a s x ≡ m x
unfolding strcpy
strcpy-below m a [] x lt = ground arith
strcpy-below m a (c ∷ s) x lt = ground (arith, strcpy-below (update m a c) (a + 1) s x)

pub strcpy-above : (m : Mem) (a : ℕ) (s : CString) (x : ℕ) → a + length s < x → strcpy m a s x ≡ m x
unfolding strcpy
strcpy-above m a [] x lt = ground arith
strcpy-above m a (c ∷ s) x lt = ground (arith, strcpy-above (update m a c) (a + 1) s x)

-- A string without NULs that strcpy has put at an address compares equal (strcmp) to a string t
-- without NULs exactly if t is the same string, whatever the memory held.
pub streq-strcpy :
    (m : Mem) (a : ℕ) (s t : CString) → NoNul s → NoNul t → streq (strcpy m a s) a t ≡ same s t
unfolding streq strcpy same
streq-strcpy m a [] [] p q = ground arith
streq-strcpy m a [] (c ∷ t) p q = ground arith
streq-strcpy m a (b ∷ s) [] p q = ground (arith, strcpy-below (update m a b) (a + 1) s a)
streq-strcpy m a (b ∷ s) (c ∷ t) p q = ground (
  arith,
  strcpy-below (update m a b) (a + 1) s a,
  streq-strcpy (update m a b) (a + 1) s t p.1 q.1,
)

-- A comparison reads no further than the string and its NUL.
pub streq-ext :
    (m m' : Mem) (a : ℕ) (s : CString)
    → ((x : ℕ) → a ≤ x → x ≤ a + length s → m' x ≡ m x)
    → streq m' a s ≡ streq m a s
unfolding streq
streq-ext m m' a [] h = ground (arith, h a)
streq-ext m m' a (c ∷ s) h =
    ground (arith, h a, streq-ext m m' (a + 1) s (λ x l u. h x (omega arith) (omega arith)))

pub same_refl : (s : CString) → same s s ≡ true
unfolding same
same_refl [] = refl
same_refl (c ∷ s) = ground (arith, same_refl s)

-- What bears one name bears no other.
pub streq_unique :
    (m : Mem) (a : ℕ) (s t : CString)
    → NoNul s
    → NoNul t
    → streq m a s ≡ true
    → streq m a t ≡ same s t
unfolding streq same
streq_unique m a [] [] p q h = h
streq_unique m a [] (c ∷ t) p q h = ground (arith, q.0)
streq_unique m a (b ∷ s) [] p q h = ground (arith, p.0)
streq_unique m a (b ∷ s) (c ∷ t) p q h = ground (arith, streq_unique m (a + 1) s t p.1 q.1)
