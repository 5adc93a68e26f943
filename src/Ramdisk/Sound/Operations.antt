-- ===== src/Ramdisk/Sound/Operations.antt =====
-- The states that the operations of kernelspace/discos.c reach without rd_unlink.
use mathlib.Core.Path.{subst, sym}
use file_system_toy_os.Prelude.{
  ℕ, ◌≡◌, some, none, Option, ℤ, refl, arith, inl, inr, Bool-cases, Option-cases,
}
use file_system_toy_os.Ramdisk.Memory.{Mem, CString}
use file_system_toy_os.Ramdisk.Disk.{Disk, System}
use file_system_toy_os.Ramdisk.Path.{same, root}
use file_system_toy_os.Ramdisk.Lookup.{my_find_inode_number}
use file_system_toy_os.Ramdisk.Tree.{init_file_sys, rd_chmod}
use file_system_toy_os.Ramdisk.File.{rd_open, rd_lseek, rd_close}
use file_system_toy_os.Ramdisk.Read.{rd_read}
use file_system_toy_os.Ramdisk.Table.{create_file_object}
use file_system_toy_os.Ramdisk.Reach.{
  Reached, start, then_do, mkdir, create, unlink, chmod, opens, lseek, write, read, close,
}
use file_system_toy_os.Ramdisk.Kept.Write.{rd_write_keeps}
use file_system_toy_os.Ramdisk.Kept.Create.{rd_create_keeps, rd_mkdir_keeps}
use file_system_toy_os.Ramdisk.Counted.Create.{blank-IsCounted}
use file_system_toy_os.Ramdisk.Sound.{IsSound, IsSound-IsKept}

-- The operations that leave the disk as it is.
rd_open_disk :
    (s : System) (path : CString) (flags pid : ℕ) → (rd_open s path flags pid).1.disk ≡ s.disk
unfolding rd_open create_file_object
rd_open_disk s path flags pid = ground arith

rd_lseek_disk :
    (s : System) (fd : ℕ) (offset : ℤ) (pid : ℕ) → (rd_lseek s fd offset pid).1.disk ≡ s.disk
unfolding rd_lseek
rd_lseek_disk s fd offset pid = ground arith

rd_close_disk : (s : System) (fd pid : ℕ) → (rd_close s fd pid).1.disk ≡ s.disk
unfolding rd_close
rd_close_disk s fd pid = ground arith

abbrev DiskIs : Disk → Option (ℤ × System × Mem) → Type 0
DiskIs d none = Unit {0}
DiskIs d (some (status, s, user)) = s.disk ≡ d

rd_read_disk :
    (copy : Mem → ℕ → Mem → ℕ → ℕ → Mem) (s : System) (fd : ℕ) (user : Mem)
    (address num_bytes pid : ℕ)
    → DiskIs s.disk (rd_read copy s fd user address num_bytes pid)
unfolding rd_read
rd_read_disk copy s fd user address num_bytes pid = ground arith

-- Nothing has been unlinked on the way to the state.
abbrev pub NeverUnlinked :
    {copy : Mem → ℕ → Mem → ℕ → ℕ → Mem} {s : System} → Reached copy s → Type 0
NeverUnlinked (start buffer) = Unit {0}
NeverUnlinked (then_do r (unlink path)) = ⊥
NeverUnlinked (then_do r (mkdir path)) = NeverUnlinked r
NeverUnlinked (then_do r (create path type mode)) = NeverUnlinked r
NeverUnlinked (then_do r (chmod path mode)) = NeverUnlinked r
NeverUnlinked (then_do r (opens path flags pid)) = NeverUnlinked r
NeverUnlinked (then_do r (lseek fd offset pid)) = NeverUnlinked r
NeverUnlinked (then_do r (write fd pid content n)) = NeverUnlinked r
NeverUnlinked (then_do r (read fd user a n pid status user' s' e)) = NeverUnlinked r
NeverUnlinked (then_do r (close fd pid)) = NeverUnlinked r

init_file_sys-IsSound : (buffer : Mem) → IsSound (init_file_sys buffer).1.disk
unfolding init_file_sys
init_file_sys-IsSound buffer = rd_mkdir_keeps IsSound IsSound-IsKept _ root (record {
  counted = blank-IsCounted;
  taken = λ n i lt ne. absurd (ne refl);
  distinct = λ n i m j lt lt' ne e. absurd (ne refl);
})

rd_chmod_keeps :
    (d : Disk) (path : CString) (mode : ℕ) → IsSound d → IsSound (rd_chmod d path mode).1
unfolding rd_chmod
rd_chmod_keeps d path mode sound = elim (Bool-cases (same path root)) [
  | inl e ↦ rw (e, rd_chmod) sound
  | inr e ↦ elim (Option-cases (my_find_inode_number d path)) [
    | inl e₁ ↦ rw (e, e₁, rd_chmod) sound
    | inr (k, e₁) ↦ rw (e, e₁, rd_chmod) (IsSound-IsKept.inode d k _ refl sound)
  ]
]

-- In every state reached from init_file_sys by any sequence of the operations other than
-- rd_unlink, by any processes and whatever they return, the superblock's count of free blocks
-- is the number of clear bits among the 7931, every direct block of an inode is a data block
-- marked in the bitmap, and no two of these are the same, within an inode or in two of them.
pub Reached-IsSound :
    {copy : Mem → ℕ → Mem → ℕ → ℕ → Mem} {s : System} (r : Reached copy s)
    → NeverUnlinked r
    → IsSound s.disk
Reached-IsSound (start buffer) never = init_file_sys-IsSound buffer
Reached-IsSound (then_do r (unlink path)) never = absurd never
Reached-IsSound (then_do r (mkdir path)) never =
    rd_mkdir_keeps IsSound IsSound-IsKept _ path (Reached-IsSound r never)
Reached-IsSound (then_do r (create path type mode)) never =
    rd_create_keeps IsSound IsSound-IsKept _ path type mode (Reached-IsSound r never)
Reached-IsSound (then_do r (chmod path mode)) never =
    rd_chmod_keeps _ path mode (Reached-IsSound r never)
Reached-IsSound (then_do r (opens path flags pid)) never =
    subst IsSound (sym (rd_open_disk _ path flags pid)) (Reached-IsSound r never)
Reached-IsSound (then_do r (lseek fd offset pid)) never =
    subst IsSound (sym (rd_lseek_disk _ fd offset pid)) (Reached-IsSound r never)
Reached-IsSound (then_do r (write fd pid content n)) never =
    rd_write_keeps IsSound IsSound-IsKept _ fd pid content n (Reached-IsSound r never)
Reached-IsSound {copy} (then_do {s} {s'} r (read fd user a n pid status user' _ e)) never =
    subst IsSound (sym (subst (DiskIs s.disk) e (rd_read_disk copy s fd user a n pid)))
      (Reached-IsSound r never)
Reached-IsSound (then_do r (close fd pid)) never =
    subst IsSound (sym (rd_close_disk _ fd pid)) (Reached-IsSound r never)
