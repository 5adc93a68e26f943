-- ===== src/Ramdisk/Earlier/Read.antt =====
-- `rd_read` of Ramdisk/userspace/discos.c: the stages are those of kernelspace/discos.c, and the
-- bytes go to the caller by `strcpy`.
use file_system_toy_os.Prelude.{
  ℕ, zero, suc, ◌+◌, ◌-◌, ◌<◌, ◌≤◌, ◌≡◌, ◌≢◌, refl, ap, ◌&&◌, false, Option, none, some, [], ◌∷◌,
  arith, ltb, leb, ◌==◌, if◌then◌else◌, update, ℤ, pos, failure, sub32, ne→==,
}
use file_system_toy_os.Ramdisk.Memory.{Mem, CString, clear_bytes, strcpy}
use file_system_toy_os.Ramdisk.Disk.{System}
use file_system_toy_os.Ramdisk.Table.{object_at, set_object}
use file_system_toy_os.Ramdisk.File.{preprocess}
use file_system_toy_os.Ramdisk.Read.{read_stages}
use file_system_toy_os.Ramdisk.Read.Direct.{CanRead, read_stages-IsFetched}
use file_system_toy_os.Ramdisk.Contents.{byte_of}
use file_system_toy_os.Ramdisk.Ioctl.{cons_byte, string_at}

-- `fresh` is what the array of `num_bytes + 1` bytes holds at first; `memset` clears 5 of them.
unfoldable pub rd_read : Mem → System → ℕ → Mem → ℕ → ℕ → ℕ → Option (ℤ × System × Mem)
rd_read fresh s fd user address num_bytes pid = elim (preprocess s fd pid) [
  | none ↦ some (failure, s, user)
  | some (t, i, n) ↦
      let cursor = (object_at s t i).cursor in
      if ltb (sub32 (s.disk.inodes n).size cursor) num_bytes
      then some (failure, s, user)
      else let r =
          read_stages s.disk num_bytes n
            (record { buffer = clear_bytes fresh 0 5; cursor = cursor; bytes_read = 0 }) in
        elim (string_at (num_bytes + 1) (update r.buffer num_bytes 0) 0) [
          | none ↦ none
          | some text ↦ some (
            pos r.bytes_read,
            set_object s t i (record (object_at s t i) { cursor = r.cursor }),
            strcpy user address text,
          )
        ]
]

abbrev bytes_of : Mem → ℕ → ℕ → CString
bytes_of m a zero = []
bytes_of m a (suc n) = m a ∷ bytes_of m (a + 1) n

string_at-bytes_of :
    (n : ℕ) (m : Mem) (a : ℕ)
    → ((k : ℕ) → k < n → m (a + k) ≢ 0)
    → m (a + n) ≡ 0
    → string_at (suc n) m a ≡ some (bytes_of m a n)
unfolding string_at
string_at-bytes_of zero m a full nul =
    let e : m a ≡ 0 = ground (arith, nul) in rw (e, string_at) refl
string_at-bytes_of (suc n) m a full nul =
    let ne : m a ≢ 0 = λ e. full 0 (omega arith) (ground (arith, e)) in
    let rest =
      string_at-bytes_of n m (a + 1)
        (λ k lt e. full (k + 1) (omega (arith, lt)) (ground (arith, e))) (ground (arith, nul)) in
    rw (ne→== (m a) 0 ne, string_at) (ap (cons_byte (m a)) rest)

strcpy-bytes_of :
    (n : ℕ) (m user : Mem) (a dst x : ℕ)
    → strcpy user dst (bytes_of m a n) x ≡ (
        if leb dst x && ltb x (dst + n)
        then m (a + (x - dst))
        else if x == dst + n
        then 0
        else user x)
unfolding strcpy
strcpy-bytes_of zero m user a dst x = ground arith
strcpy-bytes_of (suc n) m user a dst x =
    ground (arith, strcpy-bytes_of n m (update user dst (m a)) (a + 1) (dst + 1) x)

module _ (s : System) (fd pid t i n num_bytes : ℕ) (h : CanRead s fd pid t i n num_bytes) where
  abbrev cursor : ℕ
  cursor = (object_at s t i).cursor

  -- For a file object that passes the checks, and num_bytes >= 4 bytes from the cursor on that
  -- lie in the first 2048 and in the file, none a NUL, in a file of less than 2^32 bytes, if
  -- they end in the block of the cursor or the cursor is at the start of a block (CanRead):
  -- rd_read of the earlier program returns num_bytes, adds it to the cursor, and puts at dst
  -- these bytes of the file and a NUL behind them, whatever its array held, and changes nothing
  -- else.
  pub rd_read-strcpy :
      (fresh user : Mem) (dst : ℕ)
      → 4 ≤ num_bytes
      → (user' : Mem) × (rd_read fresh s fd user dst num_bytes pid
          ≡ some (
            pos num_bytes,
            set_object s t i (record (object_at s t i) { cursor = cursor + num_bytes }),
            user',
          ))
        × ((x : ℕ)
            → user' x ≡ (
                if leb dst x && ltb x (dst + num_bytes)
                then byte_of s.disk n (cursor + (x - dst))
                else if x == dst + num_bytes
                then 0
                else user x))
  unfolding rd_read
  rd_read-strcpy fresh user dst whole =
      let first = clear_bytes fresh 0 5 in
      let (r, stages, got) = read_stages-IsFetched s fd pid t i n num_bytes h first in
      let all : r.bytes_read ≡ num_bytes = omega (arith, got.bytes_read) in
      let buffer = update r.buffer num_bytes 0 in
      let text =
        string_at-bytes_of num_bytes buffer 0
          (λ k lt. ground (arith, got.copied k lt, h.no_nul k lt)) (ground arith) in
      let enough : ltb (sub32 (s.disk.inodes n).size cursor) num_bytes ≡ false =
        ground (arith, h.in_file, h.small) in
      let e : num_bytes + 1 ≡ suc num_bytes = omega arith in
      (
        strcpy user dst (bytes_of buffer 0 num_bytes),
        rw (h.checked, enough, stages, e, text, rd_read) (rw (stages, all, got.cursor) refl),
        λ x. ground (arith, strcpy-bytes_of num_bytes buffer user 0 dst x, got.copied (x - dst)),
      )
