-- ===== src/Ramdisk/Ioctl/Steps.antt =====
-- The calls of `discos_ioctl` of kernelspace/discosModule.c as steps of the ramdisk.
use file_system_toy_os.Ramdisk.Reach.{then_do, start, Operation, Reached}
use file_system_toy_os.Prelude.{
  sym, ℕ, ◌+◌, ◌-◌, ◌≡◌, refl, Option, none, some, ℤ, pos, negsuc, Option-cases, inl, inr,
}
use file_system_toy_os.Ramdisk.Memory.{Mem, CString}
use file_system_toy_os.Ramdisk.Disk.{FileType, Disk, System}
use file_system_toy_os.Ramdisk.Tree.{rd_create, rd_mkdir, rd_unlink, rd_chmod}
use file_system_toy_os.Ramdisk.File.{rd_open}
use file_system_toy_os.Ramdisk.Read.{rd_read}
use file_system_toy_os.Ramdisk.Ioctl.{
  Command, IoctlArgs, Kernel, CallResult, on_path, user_path, copied_path, copy_in, ioctl_write,
  discos_ioctl,
}

module _ (kernel : Kernel) where
  -- An outcome, if it is one that the code settles, is in a reached state.
  abbrev pub EndsReached : CallResult → Type 0
  EndsReached none = Unit {0}
  EndsReached (some (status, s, user)) = Reached kernel.copy_to_user s

  on_path-EndsReached :
      (o : Option CString) (f : CString → CallResult)
      → ((path : CString) → EndsReached (f path))
      → EndsReached (on_path o f)
  on_path-EndsReached none f h = tt
  on_path-EndsReached (some path) f h = h path

  module _ {s : System} (r : Reached kernel.copy_to_user s) (user : Mem) (args : IoctlArgs) where
    ioctl_write-EndsReached : (size : ℕ) → EndsReached (ioctl_write kernel s user args size)
    unfolding ioctl_write
    ioctl_write-EndsReached size =
        elim (Option-cases (copy_in kernel (size + 1) kernel.fresh 0 user args.data_ptr size)) [
          | inl e ↦ rw (e, ioctl_write) tt
          | inr ((buffer, end), e) ↦
              rw (e, ioctl_write)
                (then_do r (Operation.write args.fd args.pid (λ i. buffer (end - size + i)) size))
        ]

    rd_read-EndsReached :
        (size : ℕ)
        → EndsReached (rd_read kernel.copy_to_user s args.fd user args.data_ptr size args.pid)
    rd_read-EndsReached size =
        elim (Option-cases
          (rd_read kernel.copy_to_user s args.fd user args.data_ptr size args.pid)) [
            | inl e ↦ rw e tt
            | inr ((status, s', user'), e) ↦ rw e (
                then_do r
                  (Operation.read args.fd user args.data_ptr size args.pid status user' s' e))
          ]

    sized :
        (size : ℤ)
        → (size ≡ args.size)
        → EndsReached (discos_ioctl kernel s user Command.read args)
          × EndsReached (discos_ioctl kernel s user Command.write args)
    unfolding discos_ioctl ioctl_write
    sized (pos n) e = rw (sym e) (rd_read-EndsReached n, ioctl_write-EndsReached n)
    sized (negsuc n) e = rw (sym e) (tt, tt)

    disk_call :
        (o : Option CString) (g : CString → ℤ × Disk)
        → ((path : CString) → Reached kernel.copy_to_user (record s { disk = (g path).1 }))
        → EndsReached (
            on_path o
              (λ path. let (status, d) = g path in some (status, record s { disk = d }, user)))
    disk_call o g h =
        on_path-EndsReached o
          (λ path. let (status, d) = g path in some (status, record s { disk = d }, user)) h

    pub ioctl-EndsReached : (cmd : Command) → EndsReached (discos_ioctl kernel s user cmd args)
    unfolding discos_ioctl
    ioctl-EndsReached Command.init = start s.read_buffer
    ioctl-EndsReached Command.opens =
        on_path-EndsReached (user_path user args.pathname)
          (λ path. let (status, s') = rd_open s path args.mode args.pid in some (status, s', user))
          (λ path. then_do r (Operation.opens path args.mode args.pid))
    ioctl-EndsReached Command.close = then_do r (Operation.close args.fd args.pid)
    ioctl-EndsReached Command.read = (sized args.size refl).0
    ioctl-EndsReached Command.write = (sized args.size refl).1
    ioctl-EndsReached Command.create =
        disk_call (copied_path kernel user args.pathname)
          (λ path. rd_create s.disk path FileType.reg args.mode)
          (λ path. then_do r (Operation.create path FileType.reg args.mode))
    ioctl-EndsReached Command.lseek = then_do r (Operation.lseek args.fd args.size args.pid)
    ioctl-EndsReached Command.mkdir =
        disk_call (copied_path kernel user args.pathname) (λ path. rd_mkdir s.disk path)
          (λ path. then_do r (Operation.mkdir path))
    ioctl-EndsReached Command.unlink =
        disk_call (copied_path kernel user args.pathname) (λ path. rd_unlink s.disk path)
          (λ path. then_do r (Operation.unlink path))
    ioctl-EndsReached Command.chmod =
        disk_call (copied_path kernel user args.pathname) (λ path. rd_chmod s.disk path args.mode)
          (λ path. then_do r (Operation.chmod path args.mode))
    ioctl-EndsReached Command.readdir = r
    ioctl-EndsReached Command.other = r
