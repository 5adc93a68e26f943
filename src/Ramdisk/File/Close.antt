-- ===== src/Ramdisk/File/Close.antt =====
-- `rd_close` of kernelspace/discos.c, in the states that the operations reach.
use file_system_toy_os.Ramdisk.Table.Steps.{rd_close-IsShared}
use mathlib.Core.Path.{subst}
use file_system_toy_os.Prelude.{
  ℕ, ◌<◌, ◌≡◌, inl, inr, ap, none, some, arith, ℤ, failure, success, Option-cases,
}
use file_system_toy_os.Ramdisk.Disk.{System, blank_object}
use file_system_toy_os.Ramdisk.Table.{object_at, set_object}
use file_system_toy_os.Ramdisk.Table.Shared.{IsShared, find_file_object-pos, find_file_object-blank}
use file_system_toy_os.Ramdisk.File.{preprocess, rd_lseek, rd_close}

module _ {s : System} (h : IsShared s) (fd pid : ℕ) where
  -- A file object that passes the checks stands in the slot of its number.
  pub preprocess-slot :
      (t i k : ℕ)
      → preprocess s fd pid ≡ some (t, i, k)
      → (t ≡ 0)
        × (i ≡ fd)
        × (fd < 1024)
        × ((object_at s 0 fd).usable ≡ 1)
        × ((object_at s 0 fd).inode_ptr ≡ some k)
  unfolding preprocess
  preprocess-slot t i k e = ground (arith, find_file_object-pos h pid fd t i, h.slots i)

  pub preprocess-blank : (object_at s 0 fd).usable ≡ 0 → preprocess s fd pid ≡ none
  unfolding preprocess
  preprocess-blank blank = elim (find_file_object-blank h pid fd blank) [
    | inl e ↦ rw (e, preprocess)
    | inr (zero_fd, e) ↦ ground (arith, h.slots 0)
  ]

  -- In a system whose tables satisfy IsShared, an rd_close of fd that returned 0 blanked the
  -- file object in slot fd of table 0 and changed nothing else.
  pub rd_close-success :
      (s' : System) → rd_close s fd pid ≡ (success, s') → s' ≡ set_object s 0 fd blank_object
  unfolding rd_close
  rd_close-success s' e = elim (Option-cases (preprocess s fd pid)) [
    | inl e₁ ↦
        let e₂ : ◌≡◌ {A = ℤ × System} (failure, s) (success, s') = rw (e₁, rd_close) at e in cc
    | inr ((t, i, k), e₁) ↦
        let (zero_t, same_i, lt, used, inode) = preprocess-slot t i k e₁ in
        let e₂ : ◌≡◌ {A = ℤ × System} (success, set_object s t i blank_object) (success, s') =
          rw (e₁, rd_close) at e in
        let e₃ : ◌≡◌ {A = ℤ × System} (success, set_object s 0 fd blank_object) (success, s') =
          rw (zero_t, same_i) at e₂ in
        cc
  ]

module _ {s : System} (h : IsShared s) (fd pid : ℕ) (s' : System)
    (e : rd_close s fd pid ≡ (success, s')) where
  closed-IsShared : IsShared s'
  closed-IsShared = subst IsShared (ap (λ r. r.1) e) (rd_close-IsShared h fd pid)

  closed-blank : object_at s' 0 fd ≡ blank_object
  closed-blank = rw (rd_close-success h fd pid s' e) (ground arith)

  -- In a system whose tables satisfy IsShared, after an rd_close of fd that returned 0, a
  -- second rd_close of fd and an rd_lseek on fd, by any process, return -1 and change nothing.
  pub rd_close_twice :
      (pid' : ℕ) (offset : ℤ)
      → (rd_close s' fd pid' ≡ (failure, s')) × (rd_lseek s' fd offset pid' ≡ (failure, s'))
  unfolding rd_close rd_lseek
  rd_close_twice pid' offset =
      let gone = preprocess-blank closed-IsShared fd pid' (ap (λ f. f.usable) closed-blank) in
      (rw (gone, rd_close), rw (gone, rd_lseek))
