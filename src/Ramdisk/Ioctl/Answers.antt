-- ===== src/Ramdisk/Ioctl/Answers.antt =====
-- What each command of `discos_ioctl` of kernelspace/discosModule.c answers, said of the memory of
-- the user and the operations only.
use mathlib.Core.Path.{subst}
use file_system_toy_os.Prelude.{
  ℕ, ◌+◌, ◌-◌, ◌<◌, ◌≡◌, refl, Option, none, some, ℤ, pos, negsuc, arith, Option-cases, inl, inr,
}
use file_system_toy_os.Ramdisk.Memory.{Mem, CString}
use file_system_toy_os.Ramdisk.Disk.{FileType, Disk, System}
use file_system_toy_os.Ramdisk.Tree.{rd_create, rd_mkdir, rd_unlink, rd_chmod, init_file_sys}
use file_system_toy_os.Ramdisk.File.{rd_open, rd_lseek, rd_close}
use file_system_toy_os.Ramdisk.Write.{rd_write}
use file_system_toy_os.Ramdisk.Read.{rd_read}
use file_system_toy_os.Ramdisk.Reach.{Reached}
use file_system_toy_os.Ramdisk.Ioctl.{
  Command, IoctlArgs, Kernel, CallResult, on_path, user_path, copied_path, ioctl_write,
  discos_ioctl, invalid,
}
use file_system_toy_os.Ramdisk.Ioctl.Strings.{
  Spells, IsKernel, user_path-some, copied_path-some, copy_in_lem,
}
use file_system_toy_os.Ramdisk.Ioctl.Steps.{EndsReached, ioctl-EndsReached}

-- The status, the system and the memory of the user after a call.
abbrev pub Answer : Type 0
Answer = ℤ × System × Mem

abbrev pub of_disk : System → Mem → ℤ × Disk → Answer
of_disk s user (status, d) = (status, record s { disk = d }, user)

abbrev pub of_system : Mem → ℤ × System → Answer
of_system user (status, s) = (status, s, user)

-- The answer is that of an operation on the string that stands at an address.
abbrev pub FromPath : Mem → ℕ → (CString → Answer) → Answer → Type 0
FromPath user a f r = (path : CString) × Spells user a path × (r ≡ f path)

-- What each command comes to.
abbrev pub Answers :
    (Mem → ℕ → Mem → ℕ → ℕ → Mem) → System → Mem → Command → IoctlArgs → Answer → Type 0
Answers copy s user Command.init args r = r ≡ of_system user (init_file_sys s.read_buffer)
Answers copy s user Command.create args r =
    FromPath user args.pathname
      (λ path. of_disk s user (rd_create s.disk path FileType.reg args.mode)) r
Answers copy s user Command.mkdir args r =
    FromPath user args.pathname (λ path. of_disk s user (rd_mkdir s.disk path)) r
Answers copy s user Command.opens args r =
    FromPath user args.pathname (λ path. of_system user (rd_open s path args.mode args.pid)) r
Answers copy s user Command.close args r = r ≡ of_system user (rd_close s args.fd args.pid)
Answers copy s user Command.read args r =
    (n : ℕ) × (args.size ≡ pos n) × (rd_read copy s args.fd user args.data_ptr n args.pid ≡ some r)
Answers copy s user Command.write args r =
    (n : ℕ) × (args.size ≡ pos n)
    × (content : Mem) × ((i : ℕ) → i < n → content i ≡ user (args.data_ptr + i))
    × (r ≡ of_system user (rd_write s args.fd args.pid content n))
Answers copy s user Command.lseek args r =
    r ≡ of_system user (rd_lseek s args.fd args.size args.pid)
Answers copy s user Command.unlink args r =
    FromPath user args.pathname (λ path. of_disk s user (rd_unlink s.disk path)) r
Answers copy s user Command.readdir args r = r ≡ (invalid, s, user)
Answers copy s user Command.chmod args r =
    FromPath user args.pathname (λ path. of_disk s user (rd_chmod s.disk path args.mode)) r
Answers copy s user Command.other args r = r ≡ (invalid, s, user)

-- Of a call that has an outcome.
abbrev Outcome : (Answer → Type 0) → CallResult → Type 0
Outcome P none = Unit {0}
Outcome P (some r) = P r

on_path-Outcome :
    (user : Mem) (a : ℕ) (o : Option CString) (f : CString → Answer)
    → ((path : CString) → o ≡ some path → Spells user a path)
    → Outcome (FromPath user a f) (on_path o (λ path. some (f path)))
on_path-Outcome user a none f stands = tt
on_path-Outcome user a (some path) f stands = (path, stands path refl, refl)

module _ (kernel : Kernel) (is : IsKernel kernel) (s : System) (user : Mem) (args : IoctlArgs) where
  abbrev Right : Command → CallResult → Type 0
  Right cmd = Outcome (Answers kernel.copy_to_user s user cmd args)

  write-Outcome :
      (n : ℕ) → args.size ≡ pos n → Right Command.write (ioctl_write kernel s user args n)
  unfolding ioctl_write
  write-Outcome n e =
      let (buffer, runs, copied) =
        copy_in_lem kernel is (n + 1) kernel.fresh 0 user args.data_ptr n (omega arith) in
      rw (runs, ioctl_write)
        (
          n,
          e,
          (λ i. buffer (0 + n - n + i)),
          (λ i lt. ground (arith, copied (0 + n - n + i))),
          refl,
        )

  read-Outcome :
      (n : ℕ)
      → args.size ≡ pos n
      → Right Command.read (rd_read kernel.copy_to_user s args.fd user args.data_ptr n args.pid)
  read-Outcome n e =
      elim (Option-cases (rd_read kernel.copy_to_user s args.fd user args.data_ptr n args.pid)) [
        | inl unknown ↦ rw unknown tt
        | inr (r, runs) ↦ rw runs (n, e, runs)
      ]

  sized :
      (size : ℤ)
      → args.size ≡ size
      → Right Command.read (elim size [
        | pos n ↦ rd_read kernel.copy_to_user s args.fd user args.data_ptr n args.pid
        | negsuc _ ↦ none
      ])
        × Right Command.write
            (elim size [ pos n ↦ ioctl_write kernel s user args n | negsuc _ ↦ none ])
  sized (pos n) e = (read-Outcome n e, write-Outcome n e)
  sized (negsuc n) e = (tt, tt)

  copied_stands :
      (path : CString)
      → copied_path kernel user args.pathname ≡ some path
      → Spells user args.pathname path
  copied_stands path e = copied_path-some kernel is user args.pathname path e

  ioctl-Outcome : (cmd : Command) → Right cmd (discos_ioctl kernel s user cmd args)
  unfolding discos_ioctl
  ioctl-Outcome Command.init = refl
  ioctl-Outcome Command.create =
      on_path-Outcome user args.pathname (copied_path kernel user args.pathname)
        (λ path. of_disk s user (rd_create s.disk path FileType.reg args.mode)) copied_stands
  ioctl-Outcome Command.mkdir =
      on_path-Outcome user args.pathname (copied_path kernel user args.pathname)
        (λ path. of_disk s user (rd_mkdir s.disk path)) copied_stands
  ioctl-Outcome Command.opens =
      on_path-Outcome user args.pathname (user_path user args.pathname)
        (λ path. of_system user (rd_open s path args.mode args.pid))
        (λ path. user_path-some user args.pathname path)
  ioctl-Outcome Command.close = refl
  ioctl-Outcome Command.read = (sized args.size refl).0
  ioctl-Outcome Command.write = (sized args.size refl).1
  ioctl-Outcome Command.lseek = refl
  ioctl-Outcome Command.unlink =
      on_path-Outcome user args.pathname (copied_path kernel user args.pathname)
        (λ path. of_disk s user (rd_unlink s.disk path)) copied_stands
  ioctl-Outcome Command.readdir = refl
  ioctl-Outcome Command.chmod =
      on_path-Outcome user args.pathname (copied_path kernel user args.pathname)
        (λ path. of_disk s user (rd_chmod s.disk path args.mode)) copied_stands
  ioctl-Outcome Command.other = refl

  -- In a state that sequences of the nine operations reach from init_file_sys, for a kernel
  -- that copies what it is asked to copy (IsKernel): a call of discos_ioctl that has an
  -- outcome, with any command and arguments, answers with the status of the one operation of
  -- that command and leaves the system as it does. The operation has the fd, the mode, the pid,
  -- the offset and the size of the arguments; its path is the string that stands at pathname in
  -- the user's memory, up to its NUL, and the bytes that it writes are the size bytes that
  -- stand at data. RD_READDIR and unknown commands answer -EINVAL and change nothing. The
  -- user's memory is as rd_read leaves it, or unchanged (Answers). The state that it leaves is
  -- reached by the nine operations again.
  pub discos_ioctl-Answers :
      Reached kernel.copy_to_user s
      → (cmd : Command) (status : ℤ) (s' : System) (user' : Mem)
      → discos_ioctl kernel s user cmd args ≡ some (status, s', user')
      → Answers kernel.copy_to_user s user cmd args (status, s', user')
        × Reached kernel.copy_to_user s'
  discos_ioctl-Answers r cmd status s' user' e = (
    subst (Right cmd) e (ioctl-Outcome cmd),
    subst (EndsReached kernel) e (ioctl-EndsReached kernel r user args cmd),
  )
