-- ===== src/Ramdisk/RoundTrip.antt =====
-- `rd_write`, `rd_lseek` and `rd_read` of kernelspace/discos.c one after the other.
use file_system_toy_os.Prelude.{
  ◌∙◌, ap, ℕ, ◌+◌, ◌-◌, ◌≤◌, ◌<◌, ◌≡◌, refl, false, ◌&&◌, Option, some, arith, ltb, leb,
  if◌then◌else◌, ℤ, pos,
}
use file_system_toy_os.Ramdisk.Memory.{Mem}
use file_system_toy_os.Ramdisk.Disk.{System}
use file_system_toy_os.Ramdisk.Contents.{byte_of}
use file_system_toy_os.Ramdisk.Bitmap.{is_dir}
use file_system_toy_os.Ramdisk.Table.{object_at, set_object}
use file_system_toy_os.Ramdisk.Table.Shared.{IsShared}
use file_system_toy_os.Ramdisk.Table.Steps.{IsShared-update, IsShared-cursor, preprocess-ok}
use file_system_toy_os.Ramdisk.File.{rd_lseek}
use file_system_toy_os.Ramdisk.Write.{rd_write}
use file_system_toy_os.Ramdisk.Write.Stages.{Writing}
use file_system_toy_os.Ramdisk.Write.Direct.{CanWrite, WritesAll, rd_write_lem}
use file_system_toy_os.Ramdisk.Read.{rd_read}
use file_system_toy_os.Ramdisk.Read.Direct.{Copies, CanRead, rd_read_lem}

-- A seek, then a read: `none` where the copy of the read would run out of rounds.
abbrev pub seek_and_read :
    (Mem → ℕ → Mem → ℕ → ℕ → Mem) → System → ℕ → ℕ → Mem → ℕ → ℕ → ℕ → Option (ℤ × System × Mem)
seek_and_read copy s fd offset user dst num_bytes pid =
    rd_read copy (rd_lseek s fd (pos offset) pid).1 fd user dst num_bytes pid

module _ {s : System} (shared : IsShared s) (fd pid n : ℕ) (content : Mem) (num_bytes : ℕ)
    (h : CanWrite s fd pid 0 fd n content num_bytes) (lt : fd < 1024)
    (used : (object_at s 0 fd).usable ≡ 1)
    (inside : (object_at s 0 fd).cursor ≤ (s.disk.inodes n).size) where
  abbrev cursor : ℕ
  cursor = (object_at s 0 fd).cursor

  module _ (w' : Writing)
      (w : WritesAll s fd pid 0 fd n content num_bytes
        (record { disk = s.disk; cursor = cursor; written = 0 })
        w') where
    -- The system after the write, and after the seek back.
    abbrev after_write : System
    after_write =
        set_object (record s { disk = w'.disk }) 0 fd
          (record (object_at s 0 fd) { cursor = w'.cursor })

    abbrev after_seek : System
    after_seek =
        set_object after_write 0 fd (record (object_at after_write 0 fd) { cursor = cursor })

    write-IsShared : IsShared after_write
    write-IsShared = IsShared-update shared fd pid w'.disk s.read_buffer 0 fd w'.cursor refl

    seek-IsShared : IsShared after_seek
    seek-IsShared = IsShared-cursor write-IsShared fd pid 0 fd cursor refl

    still_regular : is_dir (w'.disk.inodes n).type ≡ false
    still_regular = ap (λ f. is_dir f.type) w.effect.extends.inode ∙ h.regular

    grown : (w'.disk.inodes n).size ≡ (s.disk.inodes n).size + num_bytes
    grown = w.effect.size

    after_seek_lem : (pid' : ℕ) → (rd_lseek after_write fd (pos cursor) pid').1 ≡ after_seek
    unfolding rd_lseek
    after_seek_lem pid' =
        let short : leb (w'.disk.inodes n).size cursor ≡ false =
          ground (arith, grown, inside, h.positive) in
        rw (
          preprocess-ok write-IsShared fd pid' n lt (ground arith) (ground (arith, h.inode))
              still_regular,
          short,
          rd_lseek,
        )

    holds : (k : ℕ) → k < num_bytes → byte_of w'.disk n (cursor + k) ≡ content k
    holds k k_lt = w.effect.bytes (cursor + k) (omega (arith, h.within)) ∙ ground arith

    back : (object_at after_seek 0 fd).cursor ≡ cursor
    back = ground arith

    readable : (pid' : ℕ) → CanRead after_seek fd pid' 0 fd n num_bytes
    readable pid' = record {
      checked =
          preprocess-ok seek-IsShared fd pid' n lt (ground arith) (ground (arith, h.inode))
            still_regular;
      positive = h.positive;
      within = ground (arith, h.within);
      aligned = rw back h.aligned;
      in_file = ground (arith, grown, inside);
      small = ground (arith, grown, h.room);
      no_nul = λ k k_lt. ground (arith, holds k k_lt, h.no_nul k k_lt);
    }

    abbrev after_read : Mem → System
    after_read buffer =
        let f = object_at after_seek 0 fd in
        set_object (record after_seek { read_buffer = buffer }) 0 fd
          (record f { cursor = f.cursor + num_bytes })

  -- In a system whose tables are as every reached state has them (IsShared), let the file
  -- object fd, fd < 1024, be in use, with its cursor at most at the end of the file, and let
  -- num_bytes > 0 bytes, none a NUL, be ones that rd_write can take over the direct blocks from
  -- the cursor on (CanWrite). After rd_write of these bytes, an rd_lseek back to the old cursor
  -- and an rd_read of num_bytes by any process return num_bytes, and the user's memory then
  -- holds the bytes written at dst and is otherwise unchanged, for every copy_to_user that
  -- copies the bytes it is asked for (Copies).
  pub read_of_written :
      (copy : Mem → ℕ → Mem → ℕ → ℕ → Mem) (copies : Copies copy) (user : Mem) (dst pid' : ℕ)
      → (s'' : System) × (user' : Mem) × (seek_and_read copy
            (rd_write s fd pid content num_bytes).1
            fd
            cursor
            user
            dst
            num_bytes
            pid'
          ≡ some (pos num_bytes, s'', user'))
        × ((x : ℕ)
            → user' x
              ≡ (if leb dst x && ltb x (dst + num_bytes) then content (x - dst) else user x))
  read_of_written copy copies user dst pid' =
      let (w', w) = rd_write_lem fd pid 0 fd n content num_bytes h in
      let (buffer, user', r) =
        rd_read_lem (after_seek w' w) fd pid' 0 fd n num_bytes (readable w' w pid') copy copies user
          dst in
      (
        after_read w' w buffer,
        user',
        rw (w.returns, after_seek_lem w' w pid') r.returns,
        λ x. ground (arith, r.copied x, holds w' w (x - dst)),
      )
