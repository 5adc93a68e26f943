-- ===== src/Ramdisk/Userspace/Calls.antt =====
-- The functions of userspace/userspace_interface.c through `discos_ioctl` of
-- kernelspace/discosModule.c down to the operations of kernelspace/discos.c.
use file_system_toy_os.Prelude.{ℕ, ◌+◌, ◌-◌, ◌<◌, ◌≤◌, ◌≡◌, ◌≢◌, refl, some, arith, length, ℤ, pos}
use file_system_toy_os.Ramdisk.Memory.{Mem, CString}
use file_system_toy_os.Ramdisk.Disk.{FileType, Disk, System}
use file_system_toy_os.Ramdisk.Tree.{rd_create}
use file_system_toy_os.Ramdisk.Ioctl.{
  Command, IoctlArgs, Kernel, CallResult, ioctl_write, discos_ioctl,
}
use file_system_toy_os.Ramdisk.Ioctl.Strings.{
  Spells, IsKernel, user_path-Spells, copied_path-Spells, copy_in_lem,
}
use file_system_toy_os.Ramdisk.Tree
use file_system_toy_os.Ramdisk.File
use file_system_toy_os.Ramdisk.Write
use file_system_toy_os.Ramdisk.Userspace

-- What an operation on the disk returns to the user.
abbrev pub returned : System → Mem → ℤ × Disk → CallResult
returned s user (status, d) = some (status, record s { disk = d }, user)

abbrev pub answered : Mem → ℤ × System → CallResult
answered user (status, s) = some (status, s, user)

module _ (kernel : Kernel) (is : IsKernel kernel) (s : System) (user : Mem) (getpid : ℕ) where
  abbrev call : Command → IoctlArgs → CallResult
  call = discos_ioctl kernel s user

  module _ (a : ℕ) (path : CString) (sp : Spells user a path) (ne : a ≢ 0) where
    -- For a kernel that copies what it is asked to copy (IsKernel) and a path of at most 13
    -- bytes that ends in its NUL at an address that is not NULL: rd_creat, rd_mkdir, rd_unlink,
    -- rd_chmod and rd_open of the interface return what the operations rd_create (of a regular
    -- file), rd_mkdir, rd_unlink, rd_chmod and rd_open (by the process) return on that path,
    -- leave the system as these do, and leave the memory of the user alone.
    pub path_calls :
        (mode : ℕ)
        → length path ≤ 13
        → (Userspace.rd_creat call getpid a mode
            ≡ returned s user (Tree.rd_create s.disk path FileType.reg mode))
          × (Userspace.rd_mkdir call getpid a ≡ returned s user (Tree.rd_mkdir s.disk path))
          × (Userspace.rd_unlink call getpid a ≡ returned s user (Tree.rd_unlink s.disk path))
          × (Userspace.rd_chmod call getpid a mode
              ≡ returned s user (Tree.rd_chmod s.disk path mode))
          × (Userspace.rd_open call getpid a mode ≡ answered user (File.rd_open s path mode getpid))
    unfolding Userspace.rd_creat Userspace.rd_mkdir Userspace.rd_unlink Userspace.rd_chmod
        Userspace.rd_open discos_ioctl
    path_calls mode le =
        let copied = copied_path-Spells kernel is user a path sp ne le in
        let read = user_path-Spells user a path sp ne le in
        (rw copied refl, rw copied refl, rw copied refl, rw copied refl, rw read refl)

  -- For a kernel that copies what it is asked to copy (IsKernel), the loop of RD_WRITE ends
  -- within size + 1 rounds, and rd_write of the interface comes to the operation rd_write by
  -- the process on a copy of the size bytes that stand at src.
  pub write_call :
      (fd src size : ℕ)
      → (content : Mem) × ((i : ℕ) → i < size → content i ≡ user (src + i))
        × (Userspace.rd_write call getpid fd src (pos size)
            ≡ answered user (Write.rd_write s fd getpid content size))
  unfolding Userspace.rd_write discos_ioctl ioctl_write
  write_call fd src size =
      let (buffer, runs, copied) =
        copy_in_lem kernel is (size + 1) kernel.fresh 0 user src size (omega arith) in
      (
        λ i. buffer (0 + size - size + i),
        (λ i lt. ground (arith, copied (0 + size - size + i))),
        rw (runs, ioctl_write) refl,
      )
