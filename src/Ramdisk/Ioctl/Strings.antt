-- ===== src/Ramdisk/Ioctl/Strings.antt =====
-- The strings and the data that `discos_ioctl` of kernelspace/discosModule.c copies from the user.
use file_system_toy_os.Prelude.{
  ℕ, zero, suc, ◌+◌, ◌-◌, ◌^◌, ◌<◌, ◌≤◌, ◌≡◌, ◌≢◌, refl, ap, ◌&&◌, Option, some, [], ◌∷◌, arith,
  ltb, leb, ◌==◌, ==→eq, ==→ne, none, Option-cases, if◌then◌else◌, length, ne→==, Bool-cases, inl,
  inr,
}
use mathlib.Core.Path.{subst}
use file_system_toy_os.Ramdisk.Memory.{Mem, CString}
use file_system_toy_os.Ramdisk.Read.Direct.{Copies}
use file_system_toy_os.Ramdisk.Ioctl.{Kernel, string_at, user_path, copied_path, copy_in}

-- The string `s` and its NUL stand at an address.
abbrev pub Spells : Mem → ℕ → CString → Type 0
Spells m a [] = m a ≡ 0
Spells m a (c ∷ s) = (c ≢ 0) × (m a ≡ c) × Spells m (a + 1) s

-- What is asked of the kernel: the copies copy the bytes they are asked for, and `strnlen_user`
-- counts a string with its NUL that is not longer than the limit.
pub record IsKernel (kernel : Kernel) : Type 0 where
  pub to_user : Copies kernel.copy_to_user
  pub from_user : Copies kernel.copy_from_user
  pub counts :
      (user : Mem) (a : ℕ) (s : CString) (n : ℕ)
      → Spells user a s
      → length s < n
      → kernel.strnlen_user user a n ≡ length s + 1

pub string_at-Spells :
    (n : ℕ) (m : Mem) (a : ℕ) (s : CString) → Spells m a s → length s < n → string_at n m a ≡ some s
unfolding string_at
string_at-Spells zero m a s sp lt = absurd (omega (arith, lt))
string_at-Spells (suc n) m a [] sp lt = rw (sp, string_at) refl
string_at-Spells (suc n) m a (c ∷ s) (ne, e, sp) lt =
    rw (e, ne→== c 0 ne, string_at-Spells n m (a + 1) s sp (omega (arith, lt)), string_at)
      (ap (λ b. some (b ∷ s)) e)

-- What `string_at` gives stands there, with its NUL among the first `n` bytes.
abbrev pub IsRead : ℕ → Mem → ℕ → Option CString → Type 0
IsRead n m a none = Unit {0}
IsRead n m a (some s) = Spells m a s × (length s < n)

pub string_at-IsRead : (n : ℕ) (m : Mem) (a : ℕ) → IsRead n m a (string_at n m a)
unfolding string_at
string_at-IsRead zero m a = tt
string_at-IsRead (suc n) m a = elim (Bool-cases (m a == 0)) [
  | inl end ↦ rw (end, string_at) (==→eq _ 0 end, omega arith)
  | inr more ↦ elim (Option-cases (string_at n m (a + 1))) [
    | inl e ↦ rw (more, e, string_at) tt
    | inr (s, e) ↦
        let (sp, lt) = subst (IsRead n m (a + 1)) e (string_at-IsRead n m (a + 1)) in
        rw (more, e, string_at) ((==→ne _ 0 more, refl, sp), omega (arith, lt))
  ]
]

pub user_path-Spells :
    (user : Mem) (a : ℕ) (s : CString)
    → Spells user a s
    → a ≢ 0
    → length s ≤ 13
    → user_path user a ≡ some s
unfolding user_path
user_path-Spells user a s sp ne le =
    rw (ne→== a 0 ne, user_path) (string_at-Spells (2 ^ 32) user a s sp (omega (arith, le)))

-- A copy of the string and its NUL spells it too.
pub Spells-ext :
    (m m' : Mem) (a b : ℕ) (s : CString)
    → ((i : ℕ) → i ≤ length s → m' (b + i) ≡ m (a + i))
    → Spells m a s
    → Spells m' b s
Spells-ext m m' a b [] same sp = ground (arith, same 0, sp)
Spells-ext m m' a b (c ∷ s) same (ne, e, sp) = (
  ne,
  ground (arith, same 0, e),
  Spells-ext m m' (a + 1) (b + 1) s (λ i le. ground (arith, same (1 + i))) sp,
)

-- The path of RD_OPEN stands where the user says.
pub user_path-some :
    (user : Mem) (a : ℕ) (s : CString) → user_path user a ≡ some s → Spells user a s
unfolding user_path
user_path-some user a s e = elim (Bool-cases (a == 0)) [
  | inl null ↦ absurd (cc (rw null at e))
  | inr there ↦
      (subst (IsRead (2 ^ 32) user a) (rw there at e) (string_at-IsRead (2 ^ 32) user a)).0
]

module _ (kernel : Kernel) (is : IsKernel kernel) where
  -- So does that of the other calls, whatever the kernel's count of its bytes.
  pub copied_path-some :
      (user : Mem) (a : ℕ) (s : CString) → copied_path kernel user a ≡ some s → Spells user a s
  unfolding copied_path
  copied_path-some user a s e = elim (Bool-cases (a == 0)) [
    | inl null ↦ absurd (cc (rw null at e))
    | inr there ↦
        let size = kernel.strnlen_user user a 14 in
        let copy = kernel.copy_from_user kernel.fresh 0 user a size in
        let (sp, lt) = subst (IsRead size copy 0) (rw there at e) (string_at-IsRead size copy 0) in
        Spells-ext copy user 0 a s
          (λ i le. ground (arith, lt, is.from_user kernel.fresh 0 user a size i)) sp
  ]

  pub copied_path-Spells :
      (user : Mem) (a : ℕ) (s : CString)
      → Spells user a s
      → a ≢ 0
      → length s ≤ 13
      → copied_path kernel user a ≡ some s
  unfolding copied_path
  copied_path-Spells user a s sp ne le =
      let copied : Spells (kernel.copy_from_user kernel.fresh 0 user a (length s + 1)) 0 s =
        Spells-ext user (kernel.copy_from_user kernel.fresh 0 user a (length s + 1)) a 0 s
          (λ i i_le. ground (arith, is.from_user kernel.fresh 0 user a (length s + 1) i)) sp in
      rw (ne→== a 0 ne, is.counts user a s 14 sp (omega arith), copied_path)
        (string_at-Spells (length s + 1) _ 0 s copied (omega arith))

  -- The loop ends within its rounds and has then copied the bytes in their order.
  pub copy_in_lem :
      (fuel : ℕ) (buffer : Mem) (at : ℕ) (user : Mem) (from left : ℕ)
      → left < fuel
      → (buffer' : Mem) × (copy_in kernel fuel buffer at user from left ≡ some (buffer', at + left))
        × ((x : ℕ)
            → buffer' x
              ≡ (if leb at x && ltb x (at + left) then user (from + (x - at)) else buffer x))
  unfolding copy_in
  copy_in_lem zero buffer at user from left lt = absurd (omega arith)
  copy_in_lem (suc fuel) buffer at user from left lt = elim (Bool-cases (ltb 4096 left)) [
    | inl more ↦
        let next = kernel.copy_from_user buffer at user from 4096 in
        let (buffer', runs, copied) =
          copy_in_lem fuel next (at + 4096) user (from + 4096) (left - 4096) (ground arith) in
        let e : at + 4096 + (left - 4096) ≡ at + left = ground arith in
        (
          buffer',
          rw (more, copy_in) (rw e at runs),
          λ x. ground (arith, copied x, is.from_user buffer at user from 4096 x),
        )
    | inr last ↦ (
      kernel.copy_from_user buffer at user from left,
      rw (last, copy_in) refl,
      λ x. is.from_user buffer at user from left x,
    )
  ]
