-- ===== src/Ramdisk/Userspace/RoundTrip.antt =====
-- A user of userspace/userspace_interface.c writes, seeks back and reads.
use file_system_toy_os.Prelude.{
  ◌∙◌, sym, ℕ, ◌+◌, ◌-◌, ◌<◌, ◌≤◌, ◌≡◌, ◌&&◌, none, some, arith, ltb, leb, if◌then◌else◌, pos,
}
use file_system_toy_os.Ramdisk.Memory.{Mem}
use file_system_toy_os.Ramdisk.Disk.{System}
use file_system_toy_os.Ramdisk.Table.{object_at}
use file_system_toy_os.Ramdisk.Table.Shared.{IsShared}
use file_system_toy_os.Ramdisk.Write.Direct.{CanWrite}
use file_system_toy_os.Ramdisk.RoundTrip.{read_of_written}
use file_system_toy_os.Ramdisk.Ioctl.{Kernel, CallResult, discos_ioctl}
use file_system_toy_os.Ramdisk.Ioctl.Strings.{IsKernel}
use file_system_toy_os.Ramdisk.Userspace
use file_system_toy_os.Ramdisk.Userspace.Calls.{write_call}

-- The three calls, each in the state and the memory that the one before it left.
abbrev pub write_seek_read : Kernel → System → Mem → ℕ → ℕ → ℕ → ℕ → ℕ → ℕ → CallResult
write_seek_read kernel s user getpid fd src size offset dst =
    elim (Userspace.rd_write (discos_ioctl kernel s user) getpid fd src (pos size)) [
      | none ↦ none
      | some (_, s₁, user₁) ↦
          elim (Userspace.rd_lseek (discos_ioctl kernel s₁ user₁) getpid fd (pos offset)) [
            | none ↦ none
            | some (_, s₂, user₂) ↦
                Userspace.rd_read (discos_ioctl kernel s₂ user₂) getpid fd dst (pos size)
          ]
    ]

module _ (kernel : Kernel) (is : IsKernel kernel) {s : System} (shared : IsShared s) (user : Mem)
    (getpid fd src size n : ℕ) (h : CanWrite s fd getpid 0 fd n (λ i. user (src + i)) size)
    (lt : fd < 1024) (used : (object_at s 0 fd).usable ≡ 1)
    (inside : (object_at s 0 fd).cursor ≤ (s.disk.inodes n).size) where
  -- What is copied can be written if the user's bytes can.
  copy-CanWrite :
      (content : Mem)
      → ((i : ℕ) → i < size → content i ≡ user (src + i))
      → CanWrite s fd getpid 0 fd n content size
  copy-CanWrite content same = record {
    found = h.found;
    inode = h.inode;
    regular = h.regular;
    file_rights = h.file_rights;
    open_rights = h.open_rights;
    positive = h.positive;
    within = h.within;
    aligned = h.aligned;
    no_nul = λ k k_lt e. h.no_nul k k_lt (sym (same k k_lt) ∙ e);
    room = h.room;
    laid = h.laid;
    counted = h.counted;
    free = h.free;
  }

  -- A user who writes size > 0 bytes from src, none a NUL, through rd_write of the interface,
  -- seeks back and reads as many to dst: for a kernel that copies what it is asked to copy
  -- (IsKernel), in a system with IsShared tables and under the conditions of read_of_written on
  -- the file object fd for the bytes at src, the three calls end, the last returns size, and
  -- the memory of the user then holds at dst the bytes that stood at src and is otherwise
  -- unchanged.
  pub write_seek_read_lem :
      (dst : ℕ)
      → (s' : System) × (user' : Mem) × (write_seek_read kernel s user getpid fd src size
            (object_at s 0 fd).cursor
            dst
          ≡ some (pos size, s', user'))
        × ((x : ℕ)
            → user' x
              ≡ (if leb dst x && ltb x (dst + size) then user (src + (x - dst)) else user x))
  unfolding Userspace.rd_lseek Userspace.rd_read discos_ioctl
  write_seek_read_lem dst =
      let (content, same, writes) = write_call kernel is s user getpid fd src size in
      let (s', user', runs, holds) =
        read_of_written shared fd getpid n content size (copy-CanWrite content same) lt used inside
          kernel.copy_to_user is.to_user user dst getpid in
      (s', user', rw (writes, write_seek_read) runs, λ x. ground (arith, holds x, same (x - dst)))
