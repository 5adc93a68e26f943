-- ===== src/Ramdisk/Read/Direct.antt =====
-- `rd_read` of kernelspace/discos.c, on bytes that are no NULs in the direct blocks.
use file_system_toy_os.Prelude.{
  ◌⊎◌, ℕ, zero, suc, ◌+◌, ◌-◌, ◌/◌, ◌%◌, ◌^◌, ◌≤◌, ◌<◌, ◌≡◌, ◌≢◌, false, some, arith, ltb, leb, pos,
  sub32, Bool-cases, inl, inr, if◌then◌else◌, ◌&&◌,
}
use file_system_toy_os.Ramdisk.Memory.{Mem, clear_bytes}
use file_system_toy_os.Ramdisk.Disk.{System}
use file_system_toy_os.Ramdisk.Table.{object_at, set_object}
use file_system_toy_os.Ramdisk.File.{preprocess}
use file_system_toy_os.Ramdisk.Read.Stages.{Reading, read_direct, read_single, read_double}
use file_system_toy_os.Ramdisk.Read.{read_stages, copy_pages, rd_read}
use file_system_toy_os.Ramdisk.Contents.{byte_of}
use file_system_toy_os.Ramdisk.Read.Rounds.{IsReady, IsFetched, rounds-IsFetched}

-- What is asked of the kernel's `copy_to_user`: it copies `n` bytes and touches no other.
abbrev pub Copies : (Mem → ℕ → Mem → ℕ → ℕ → Mem) → Type 0
Copies copy =
    (user : Mem) (dst : ℕ) (buffer : Mem) (src n x : ℕ)
    → copy user dst buffer src n x
      ≡ (if leb dst x && ltb x (dst + n) then buffer (src + (x - dst)) else user x)

module _ (copy : Mem → ℕ → Mem → ℕ → ℕ → Mem) (copies : Copies copy) where
  -- The loop that copies page by page to the user ends within left + 1 rounds, and for every
  -- copy_to_user that copies the bytes it is asked for (Copies) it has then copied exactly the
  -- left bytes.
  pub copy_pages_lem :
      (fuel : ℕ) (user : Mem) (dst : ℕ) (buffer : Mem) (src left : ℕ)
      → left < fuel
      → (user' : Mem) × (copy_pages copy fuel user dst buffer src left ≡ some user')
        × ((x : ℕ)
            → user' x
              ≡ (if leb dst x && ltb x (dst + left) then buffer (src + (x - dst)) else user x))
  unfolding copy_pages
  copy_pages_lem zero user dst buffer src left lt = absurd (omega arith)
  copy_pages_lem (suc fuel) user dst buffer src left lt = elim (Bool-cases (ltb 4096 left)) [
    | inl more ↦
        let (user', runs, is) =
          copy_pages_lem fuel (copy user dst buffer src 4096) (dst + 4096) buffer (src + 4096)
            (left - 4096) (ground arith) in
        (user', rw more runs, λ x. ground (arith, is x, copies user dst buffer src 4096 x))
    | inr last ↦ (copy user dst buffer src left, rw last, λ x. copies user dst buffer src left x)
  ]

-- The file object in slot `i` of table `t` is open on the file `n`, and the next `num_bytes` bytes
-- stand in its direct blocks, none a NUL. The code reads each block from the same offset, so they
-- end in the block of the cursor, or the cursor is at the start of it.
pub record CanRead (s : System) (fd pid t i n num_bytes : ℕ) : Type 0 where
  pub checked : preprocess s fd pid ≡ some (t, i, n)
  pub positive : 0 < num_bytes
  pub within : (object_at s t i).cursor + num_bytes ≤ 2048
  pub aligned :
      ((object_at s t i).cursor % 256 + num_bytes ≤ 256) ⊎ ((object_at s t i).cursor % 256 ≡ 0)
  pub in_file : (object_at s t i).cursor + num_bytes ≤ (s.disk.inodes n).size
  pub small : (s.disk.inodes n).size < 2 ^ 32
  pub no_nul : (k : ℕ) → k < num_bytes → byte_of s.disk n ((object_at s t i).cursor + k) ≢ 0

module _ (s : System) (fd pid t i n num_bytes : ℕ) (h : CanRead s fd pid t i n num_bytes) where
  abbrev cursor : ℕ
  cursor = (object_at s t i).cursor

  -- The stages, from any contents of the buffer.
  module _ (first : Mem) where
    abbrev begin : Reading
    begin = record { buffer = first; cursor = cursor; bytes_read = 0 }

    module _ (r' : Reading) (all : r'.bytes_read ≡ num_bytes) where
      read_single-done : read_single s.disk num_bytes n r' ≡ r'
      unfolding read_single
      read_single-done = ground (arith, all)

      read_double-done : read_double s.disk num_bytes n r' ≡ r'
      unfolding read_double
      read_double-done = ground (arith, all)

    ready : IsReady s.disk n num_bytes (cursor % 256) (cursor / 256) num_bytes begin
    ready = record {
      cursor = omega arith;
      bytes_read = omega arith;
      positive = h.positive;
      within = omega (arith, h.within);
      in_block = omega arith;
      fits = h.aligned;
      no_nul = h.no_nul;
    }

    pub read_stages-IsFetched :
        (r' : Reading) × (read_stages s.disk num_bytes n begin ≡ r')
        × IsFetched s.disk n num_bytes begin r'
    unfolding read_stages read_direct
    read_stages-IsFetched =
        let (r', runs, got) =
          rounds-IsFetched s.disk n num_bytes (cursor % 256) (8 - cursor / 256) (cursor / 256)
            num_bytes begin (omega (arith, h.within, h.positive)) ready in
        let all : r'.bytes_read ≡ num_bytes = omega (arith, got.bytes_read) in
        (r', rw (runs, read_single-done r' all, read_double-done r' all, read_stages), got)

  -- What `rd_read` returns and does: it returns the number of bytes, moves the cursor by it, leaves
  -- the disk alone, and puts at `dst` the bytes of the file from the cursor on, and nothing else.
  pub record ReadsAll (copy : Mem → ℕ → Mem → ℕ → ℕ → Mem) (user : Mem) (dst : ℕ)
      (buffer user' : Mem) : Type 0 where
    pub returns :
        rd_read copy s fd user dst num_bytes pid
        ≡ some (
          pos num_bytes,
          set_object
              (record s { read_buffer = buffer })
              t
              i
              (record (object_at s t i) { cursor = cursor + num_bytes }),
          user',
        )
    pub copied :
        (x : ℕ)
        → user' x ≡ (
            if leb dst x && ltb x (dst + num_bytes)
            then byte_of s.disk n (cursor + (x - dst))
            else user x)

  -- For a file object that passes the checks, and num_bytes > 0 bytes from the cursor on that
  -- lie in the first 2048 and in the file, none a NUL, in a file of less than 2^32 bytes, if
  -- they end in the block of the cursor or the cursor is at the start of a block (CanRead):
  -- rd_read, over as many direct blocks as they take, returns num_bytes, adds it to the cursor,
  -- leaves the disk alone, and puts these bytes of the file at dst and nothing else in the
  -- user's memory, for every copy_to_user that copies the bytes it is asked for (Copies).
  pub rd_read_lem :
      (copy : Mem → ℕ → Mem → ℕ → ℕ → Mem) (copies : Copies copy) (user : Mem) (dst : ℕ)
      → (buffer : Mem) × (user' : Mem) × ReadsAll copy user dst buffer user'
  unfolding rd_read
  rd_read_lem copy copies user dst =
      let (r', runs, got) = read_stages-IsFetched (clear_bytes s.read_buffer 0 4) in
      let all : r'.bytes_read ≡ num_bytes = omega (arith, got.bytes_read) in
      let (user', copied, same) =
        copy_pages_lem copy copies (num_bytes + 1) user dst r'.buffer 0 num_bytes (omega arith) in
      let enough : ltb (sub32 (s.disk.inodes n).size cursor) num_bytes ≡ false =
        ground (arith, h.in_file, h.small) in
      (
        r'.buffer,
        user',
        record {
          returns = rw (h.checked, enough, runs, copied, rd_read) (rw (runs, all, got.cursor));
          copied = λ x. ground (arith, same x, got.copied (x - dst));
        },
      )
