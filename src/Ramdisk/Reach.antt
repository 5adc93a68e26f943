-- ===== src/Ramdisk/Reach.antt =====
-- Every sequence of operations on the ramdisk of kernelspace/discos.c, and what holds in all the
-- states that such sequences reach.
use file_system_toy_os.Prelude.{ℕ, ◌≡◌, inl, inr, refl, sym, ap, some, ℤ, Bool-cases, Option-cases}
use mathlib.Core.Path.{subst}
use file_system_toy_os.Ramdisk.Memory.{Mem, CString}
use file_system_toy_os.Ramdisk.Disk.{FileType, System}
use file_system_toy_os.Ramdisk.Path.{same, root}
use file_system_toy_os.Ramdisk.Lookup.{my_find_inode_number}
use file_system_toy_os.Ramdisk.Tree.{init_file_sys, rd_mkdir, rd_create, rd_unlink, rd_chmod}
use file_system_toy_os.Ramdisk.Table.{get_fd_table}
use file_system_toy_os.Ramdisk.Table.Shared.{IsShared, get_fd_table-shared}
use file_system_toy_os.Ramdisk.Table.Steps.{
  IsShared-disk, EndsShared, rd_close-IsShared, rd_lseek-IsShared, rd_write-IsShared,
  rd_read-IsShared,
}
use file_system_toy_os.Ramdisk.File.{access_denied, rd_open, rd_lseek, rd_close}
use file_system_toy_os.Ramdisk.File.Open.{rd_open_lem}
use file_system_toy_os.Ramdisk.Write.{rd_write}
use file_system_toy_os.Ramdisk.Read.{rd_read}

-- An operation, by any process, whatever it returns. `copy` is the kernel's `copy_to_user`.
pub data Operation (copy : Mem → ℕ → Mem → ℕ → ℕ → Mem) (s : System) : System → Type 0 where
  mkdir : (path : CString) → Operation copy s (record s { disk = (rd_mkdir s.disk path).1 })
  create :
      (path : CString) (type : FileType) (mode : ℕ)
      → Operation copy s (record s { disk = (rd_create s.disk path type mode).1 })
  unlink : (path : CString) → Operation copy s (record s { disk = (rd_unlink s.disk path).1 })
  chmod :
      (path : CString) (mode : ℕ)
      → Operation copy s (record s { disk = (rd_chmod s.disk path mode).1 })
  opens : (path : CString) (flags pid : ℕ) → Operation copy s (rd_open s path flags pid).1
  lseek : (fd : ℕ) (offset : ℤ) (pid : ℕ) → Operation copy s (rd_lseek s fd offset pid).1
  write :
      (fd pid : ℕ) (content : Mem) (num_bytes : ℕ)
      → Operation copy s (rd_write s fd pid content num_bytes).1
  read :
      (fd : ℕ) (user : Mem) (address num_bytes pid : ℕ) (status : ℤ) (user' : Mem) (s' : System)
      → rd_read copy s fd user address num_bytes pid ≡ some (status, s', user')
      → Operation copy s s'
  close : (fd pid : ℕ) → Operation copy s (rd_close s fd pid).1

-- The states reached from `init_file_sys`.
pub data Reached (copy : Mem → ℕ → Mem → ℕ → ℕ → Mem) : System → Type 0 where
  start : (buffer : Mem) → Reached copy (init_file_sys buffer).1
  then_do : {s s' : System} → Reached copy s → Operation copy s s' → Reached copy s'

init_file_sys-IsShared : (buffer : Mem) → IsShared (init_file_sys buffer).1
unfolding init_file_sys
init_file_sys-IsShared buffer = record { pids = λ t. refl; slots = λ i. inl (refl, refl, refl) }

rd_open-IsShared :
    {s : System} (path : CString) (flags pid : ℕ)
    → IsShared s
    → IsShared (rd_open s path flags pid).1
unfolding rd_open
rd_open-IsShared {s} path flags pid h = elim (Bool-cases (same path root)) [
  | inl e ↦ rw (e, rd_open) h
  | inr e ↦ elim (Option-cases (my_find_inode_number s.disk path)) [
    | inl e' ↦ rw (e, e', rd_open) h
    | inr (k, e') ↦ elim (Bool-cases (access_denied flags (s.disk.inodes k).access)) [
      | inl e'' ↦ rw (e, e', e'', rd_open) h
      | inr e'' ↦ elim (rd_open_lem h path flags pid k e e' e'') [
        | inl (fd, r, opened) ↦ opened.shared
        | inr (r, full) ↦ subst IsShared (sym (ap (λ x. x.1) r)) h
      ]
    ]
  ]
]

Operation-IsShared :
    {copy : Mem → ℕ → Mem → ℕ → ℕ → Mem} {s s' : System}
    → Operation copy s s'
    → IsShared s
    → IsShared s'
Operation-IsShared {s = s} (mkdir path) h = IsShared-disk _ s.read_buffer h
Operation-IsShared {s = s} (create path type mode) h = IsShared-disk _ s.read_buffer h
Operation-IsShared {s = s} (unlink path) h = IsShared-disk _ s.read_buffer h
Operation-IsShared {s = s} (chmod path mode) h = IsShared-disk _ s.read_buffer h
Operation-IsShared (opens path flags pid) h = rd_open-IsShared path flags pid h
Operation-IsShared (lseek fd offset pid) h = rd_lseek-IsShared h fd pid offset
Operation-IsShared (write fd pid content n) h = rd_write-IsShared h fd pid content n
Operation-IsShared {copy = copy} (read fd user address n pid status user' s' e) h =
    subst EndsShared e (rd_read-IsShared h fd pid copy user address n)
Operation-IsShared (close fd pid) h = rd_close-IsShared h fd pid

-- In every state reached from init_file_sys by any sequence of the nine operations rd_mkdir,
-- rd_create, rd_unlink, rd_chmod, rd_open, rd_lseek, rd_write, rd_read and rd_close, by any
-- processes and whatever they return, no entry of the table of processes has a pid, and each
-- slot of table 0 is either blank (not usable, pos 0, no inode) or usable with its own number
-- as pos and with an inode.
pub Reached-IsShared :
    {copy : Mem → ℕ → Mem → ℕ → ℕ → Mem} {s : System} → Reached copy s → IsShared s
Reached-IsShared (start buffer) = init_file_sys-IsShared buffer
Reached-IsShared (then_do r o) = Operation-IsShared o (Reached-IsShared r)

-- In every state reached from init_file_sys by the nine operations, get_fd_table gives table 0
-- for every pid: all processes share one table of file descriptors.
pub get_fd_table-Reached :
    {copy : Mem → ℕ → Mem → ℕ → ℕ → Mem} {s : System}
    → Reached copy s
    → (pid : ℕ) → get_fd_table s pid ≡ some 0
get_fd_table-Reached r pid = get_fd_table-shared (Reached-IsShared r) pid
