-- ===== src/Ramdisk/Tests/Calls.antt =====
-- The calls of a user, through kernelspace/discosModule.c, at one system.
use file_system_toy_os.Ramdisk.Tests.Samples.{
  sample_disk-IsLaidOut, text_at, sample_system, sample_system-IsShared,
}
use file_system_toy_os.Prelude.{
  inr, ℕ, zero, suc, ◌+◌, ◌-◌, ◌<◌, ◌≡◌, refl, ◌&&◌, arith, some, [], ◌∷◌, leb, ltb, ◌==◌,
  if◌then◌else◌, length, pos,
}
use file_system_toy_os.Ramdisk.Memory.{Mem, CString}
use file_system_toy_os.Ramdisk.Disk.{FileType, System, read_write}
use file_system_toy_os.Ramdisk.Tree
use file_system_toy_os.Ramdisk.File
use file_system_toy_os.Ramdisk.Write
use file_system_toy_os.Ramdisk.Tree.{init_file_sys, rd_mkdir}
use file_system_toy_os.Ramdisk.Table.Shared.{find_file_object-slot}
use file_system_toy_os.Ramdisk.Write.Direct.{CanWrite}
use file_system_toy_os.Ramdisk.Tests.Blocks.{sample_disk-IsCounted}
use file_system_toy_os.Ramdisk.Reach.{Reached, start}
use file_system_toy_os.Ramdisk.Ioctl.{
  Command, IoctlArgs, Kernel, string_at, copied_path, discos_ioctl,
}
use file_system_toy_os.Ramdisk.Ioctl.Strings.{Spells, IsKernel}
use file_system_toy_os.Ramdisk.Ioctl.Answers.{Answers, discos_ioctl-Answers}
use file_system_toy_os.Ramdisk.Userspace
use file_system_toy_os.Ramdisk.Userspace.{cleared_args}
use file_system_toy_os.Ramdisk.Userspace.Calls.{returned, answered, path_calls, write_call}
use file_system_toy_os.Ramdisk.Userspace.RoundTrip.{write_seek_read, write_seek_read_lem}

abbrev sample_copy : Mem → ℕ → Mem → ℕ → ℕ → Mem
sample_copy there dst here src n x =
    if leb dst x && ltb x (dst + n) then here (src + (x - dst)) else there x

-- The bytes of a string up to its NUL, more than the limit if it is longer.
abbrev bytes_at : Mem → ℕ → ℕ → ℕ
bytes_at m a zero = 1
bytes_at m a (suc n) = if m a == 0 then 1 else 1 + bytes_at m (a + 1) n

abbrev sample_kernel : Kernel
sample_kernel = record {
  copy_to_user = sample_copy;
  copy_from_user = sample_copy;
  strnlen_user = bytes_at;
  fresh = λ _. 7;
}

bytes_at-Spells :
    (m : Mem) (a : ℕ) (s : CString) (n : ℕ)
    → Spells m a s
    → length s < n
    → bytes_at m a n ≡ length s + 1
bytes_at-Spells m a s zero sp lt = absurd (omega (arith, lt))
bytes_at-Spells m a [] (suc n) sp lt = ground (arith, sp)
bytes_at-Spells m a (c ∷ s) (suc n) (ne, e, sp) lt =
    ground (arith, e, ne, bytes_at-Spells m (a + 1) s n sp (omega (arith, lt)))

sample_kernel-IsKernel : IsKernel sample_kernel
sample_kernel-IsKernel = record {
  to_user = λ user dst buffer src n x. refl;
  from_user = λ user dst buffer src n x. refl;
  counts = bytes_at-Spells;
}

-- "bye" at 10 and "/cd" at 20.
abbrev sample_user : Mem
sample_user = text_at 10 (98 ∷ 121 ∷ 101 ∷ []) (text_at 20 (47 ∷ 99 ∷ 100 ∷ []) (λ _. 0))

sample_path : Spells sample_user 20 (47 ∷ 99 ∷ 100 ∷ [])
sample_path = (
  (λ e. omega (arith, e)),
  refl,
  ((λ e. omega (arith, e)), refl, ((λ e. omega (arith, e)), refl, refl)),
)

path_calls_example :
    let call = discos_ioctl sample_kernel sample_system sample_user in
    let path : CString = 47 ∷ 99 ∷ 100 ∷ [] in
    (Userspace.rd_creat call 100 20 read_write
      ≡ returned sample_system sample_user
          (Tree.rd_create sample_system.disk path FileType.reg read_write))
    × (Userspace.rd_mkdir call 100 20
        ≡ returned sample_system sample_user (Tree.rd_mkdir sample_system.disk path))
    × (Userspace.rd_unlink call 100 20
        ≡ returned sample_system sample_user (Tree.rd_unlink sample_system.disk path))
    × (Userspace.rd_chmod call 100 20 read_write
        ≡ returned sample_system sample_user (Tree.rd_chmod sample_system.disk path read_write))
    × (Userspace.rd_open call 100 20 read_write
        ≡ answered sample_user (File.rd_open sample_system path read_write 100))
path_calls_example =
    path_calls sample_kernel sample_kernel-IsKernel sample_system sample_user 100 20
      (47 ∷ 99 ∷ 100 ∷ []) sample_path (λ e. omega (arith, e)) read_write (omega arith)

write_call_example :
    (content : Mem) × ((i : ℕ) → i < 3 → content i ≡ sample_user (10 + i))
    × (Userspace.rd_write (discos_ioctl sample_kernel sample_system sample_user) 100 0 10 (pos 3)
        ≡ answered sample_user (Write.rd_write sample_system 0 100 content 3))
write_call_example =
    write_call sample_kernel sample_kernel-IsKernel sample_system sample_user 100 0 10 3

-- 300 bytes at 1000.
abbrev long_user : Mem
long_user x = if leb 1000 x && ltb x 1300 then 97 else 0

sample-CanWrite : CanWrite sample_system 0 100 0 0 1 (λ i. long_user (1000 + i)) 300
sample-CanWrite = record {
  found = find_file_object-slot sample_system-IsShared 100 0 (omega arith) refl;
  inode = refl;
  regular = refl;
  file_rights = λ e. omega (arith, e);
  open_rights = λ e. omega (arith, e);
  positive = omega arith;
  within = omega arith;
  aligned = inr refl;
  no_nul = λ k lt. ground arith;
  room = omega arith;
  laid = sample_disk-IsLaidOut;
  counted = sample_disk-IsCounted;
  free = omega arith;
}

write_seek_read_example :
    (s' : System) × (user' : Mem) × (write_seek_read sample_kernel sample_system long_user 100 0
        1000 300 0 5000
      ≡ some (pos 300, s', user'))
    × ((x : ℕ)
        → user' x ≡ (
            if leb 5000 x && ltb x (5000 + 300)
            then long_user (1000 + (x - 5000))
            else long_user x))
write_seek_read_example =
    write_seek_read_lem sample_kernel sample_kernel-IsKernel sample_system-IsShared long_user 100 0
      1000 300 1 sample-CanWrite (omega arith) refl (omega arith) 5000

abbrev sample_start : System
sample_start = (init_file_sys (λ _. 0)).1

abbrev sample_args : IoctlArgs
sample_args = record cleared_args { pathname = 20 }

abbrev sample_made : System
sample_made = record sample_start { disk = (rd_mkdir sample_start.disk (47 ∷ 99 ∷ 100 ∷ [])).1 }

sample_call :
    discos_ioctl sample_kernel sample_start sample_user Command.mkdir sample_args
    ≡ some ((rd_mkdir sample_start.disk (47 ∷ 99 ∷ 100 ∷ [])).0, sample_made, sample_user)
unfolding discos_ioctl copied_path string_at
sample_call = refl

discos_ioctl-Answers_example :
    Answers sample_copy sample_start sample_user Command.mkdir sample_args
      ((rd_mkdir sample_start.disk (47 ∷ 99 ∷ 100 ∷ [])).0, sample_made, sample_user)
    × Reached sample_copy sample_made
discos_ioctl-Answers_example =
    discos_ioctl-Answers sample_kernel sample_kernel-IsKernel sample_start sample_user sample_args
      (start (λ _. 0)) Command.mkdir (rd_mkdir sample_start.disk (47 ∷ 99 ∷ 100 ∷ [])).0 sample_made
      sample_user sample_call
