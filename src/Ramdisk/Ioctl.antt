-- ===== src/Ramdisk/Ioctl.antt =====
-- The entry point of the kernel module, `discos_ioctl` of kernelspace/discosModule.c: it copies what
-- a call needs from the memory of the user, and hands the call to the operation.
pub mod Strings
pub mod Steps
pub mod Answers
use file_system_toy_os.Prelude.{
  ℕ, zero, suc, ◌+◌, ◌-◌, ◌^◌, Bool, true, false, Option, none, some, [], ◌∷◌, ltb, ◌==◌,
  if◌then◌else◌, ℤ, pos, negsuc,
}
use file_system_toy_os.Ramdisk.Memory.{Mem, CString}
use file_system_toy_os.Ramdisk.Disk.{FileType, Disk, System}
use file_system_toy_os.Ramdisk.Tree.{rd_create, rd_mkdir, init_file_sys, rd_unlink, rd_chmod}
use file_system_toy_os.Ramdisk.File.{rd_open, rd_lseek, rd_close}
use file_system_toy_os.Ramdisk.Write.{rd_write}
use file_system_toy_os.Ramdisk.Read.{rd_read}

-- RD_INIT to RD_CHMOD; `other` is any other number.
pub data Command : Type 0 where
  init create mkdir opens close read write lseek unlink readdir chmod other : Command

-- `ioctl_args_t`; `data_ptr` is the field `data`. Pointers are addresses in the memory of the user.
pub record IoctlArgs : Type 0 where
  pub size : ℤ
  pub mode : ℕ
  pub pid : ℕ
  pub fd : ℕ
  pub pathname : ℕ
  pub data_ptr : ℕ

-- What the module calls of the kernel: the two copies, as the destination's bytes after them, the
-- length of a string of the user, and the bytes that a new block of memory holds.
pub record Kernel : Type 0 where
  pub copy_to_user : Mem → ℕ → Mem → ℕ → ℕ → Mem
  pub copy_from_user : Mem → ℕ → Mem → ℕ → ℕ → Mem
  pub strnlen_user : Mem → ℕ → ℕ → ℕ
  pub fresh : Mem

abbrev pub cons_byte : ℕ → Option CString → Option CString
cons_byte c none = none
cons_byte c (some s) = some (c ∷ s)

-- The string at an address, `none` where the first `n` bytes hold no NUL.
unfoldable pub string_at : ℕ → Mem → ℕ → Option CString
string_at zero m a = none
string_at (suc n) m a = elim (m a == 0) [
  | true ↦ some []
  | false ↦ cons_byte (m a) (string_at n m (a + 1))
]

-- The status, the system and the memory of the user. `none` is a call whose outcome the C code
-- leaves open: it reads a string that does not end in its memory, or a variable that is not set.
abbrev pub CallResult : Type 0
CallResult = Option (ℤ × System × Mem)

abbrev pub on_path : Option CString → (CString → CallResult) → CallResult
on_path none f = none
on_path (some path) f = f path

-- The path of RD_OPEN, which is read in the memory of the user itself, of 2^32 bytes.
unfoldable pub user_path : Mem → ℕ → Option CString
user_path user pathname = if pathname == 0 then none else string_at (2 ^ 32) user pathname

-- `-EINVAL`
abbrev pub invalid : ℤ
invalid = negsuc 21

module _ (kernel : Kernel) where
  -- `pathname`, of which at most what `strnlen_user` counts is copied.
  unfoldable pub copied_path : Mem → ℕ → Option CString
  copied_path user pathname =
      if pathname == 0
      then none
      else let size = kernel.strnlen_user user pathname 14 in
        string_at size (kernel.copy_from_user kernel.fresh 0 user pathname size) 0

  -- The `while (flag)` loop of RD_WRITE: the bytes of `data`, and how far `data` has gone.
  unfoldable pub copy_in : ℕ → Mem → ℕ → Mem → ℕ → ℕ → Option (Mem × ℕ)
  copy_in zero buffer at user from left = none
  copy_in (suc fuel) buffer at user from left =
      let rest =
        copy_in fuel (kernel.copy_from_user buffer at user from 4096) (at + 4096) user (from + 4096)
          (left - 4096) in
      if ltb 4096 left
      then rest
      else some (kernel.copy_from_user buffer at user from left, at + left)

  -- RD_WRITE with `args->size` not negative; the loop has a round for each byte and one more.
  unfoldable pub ioctl_write : System → Mem → IoctlArgs → ℕ → CallResult
  ioctl_write s user args size = elim (copy_in (size + 1) kernel.fresh 0 user args.data_ptr size) [
    | none ↦ none
    | some (buffer, end) ↦
        let (status, s') = rd_write s args.fd args.pid (λ i. buffer (end - size + i)) size in
        some (status, s', user)
  ]

  -- A negative size of a read or a write is not followed.
  unfoldable pub discos_ioctl : System → Mem → Command → IoctlArgs → CallResult
  discos_ioctl s user Command.init args =
      let (status, s') = init_file_sys s.read_buffer in some (status, s', user)
  discos_ioctl s user Command.opens args =
      on_path (user_path user args.pathname)
        (λ path. let (status, s') = rd_open s path args.mode args.pid in some (status, s', user))
  discos_ioctl s user Command.close args =
      let (status, s') = rd_close s args.fd args.pid in some (status, s', user)
  discos_ioctl s user Command.read args = elim args.size [
    | pos size ↦ rd_read kernel.copy_to_user s args.fd user args.data_ptr size args.pid
    | negsuc _ ↦ none
  ]
  discos_ioctl s user Command.write args = elim args.size [
    | pos size ↦ ioctl_write s user args size
    | negsuc _ ↦ none
  ]
  discos_ioctl s user Command.create args = on_path (copied_path user args.pathname) (λ path.
      let (status, d) = rd_create s.disk path FileType.reg args.mode in
      some (status, record s { disk = d }, user))
  discos_ioctl s user Command.lseek args =
      let (status, s') = rd_lseek s args.fd args.size args.pid in some (status, s', user)
  discos_ioctl s user Command.mkdir args =
      on_path (copied_path user args.pathname) (λ path.
        let (status, d) = rd_mkdir s.disk path in some (status, record s { disk = d }, user))
  discos_ioctl s user Command.unlink args = on_path (copied_path user args.pathname) (λ path.
      let (status, d) = rd_unlink s.disk path in some (status, record s { disk = d }, user))
  discos_ioctl s user Command.chmod args = on_path (copied_path user args.pathname) (λ path.
      let (status, d) = rd_chmod s.disk path args.mode in
      some (status, record s { disk = d }, user))
  discos_ioctl s user Command.readdir args = some (invalid, s, user)
  discos_ioctl s user Command.other args = some (invalid, s, user)
