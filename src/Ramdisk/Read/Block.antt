-- ===== src/Ramdisk/Read/Block.antt =====
-- The inner loop of `rd_read` in kernelspace/discos.c, over bytes that are no NULs.
use file_system_toy_os.Prelude.{ℕ, zero, suc, ◌+◌, ◌^◌, ◌<◌, ◌≡◌, ◌≢◌, refl, arith, update, add32}
use file_system_toy_os.Prelude.Loops.{next, done, for_until}
use file_system_toy_os.Ramdisk.Memory.{Mem}
use file_system_toy_os.Ramdisk.Read.Stages.{Reading, read_byte}

-- `r'` is `r` after `count` bytes from `address` have gone to the buffer.
pub record IsRead (m : Mem) (address count : ℕ) (r r' : Reading) : Type 0 where
  pub cursor : r'.cursor ≡ r.cursor + count
  pub bytes_read : r'.bytes_read ≡ r.bytes_read + count
  pub copied : (k : ℕ) → k < count → r'.buffer (r.bytes_read + k) ≡ m (address + k)
  pub kept : (k : ℕ) → k < r.bytes_read → r'.buffer k ≡ r.buffer k

module _ (m : Mem) (to_read block : ℕ) where
  one_byte : ℕ → Reading → Reading
  one_byte j r = record {
    buffer = update r.buffer r.bytes_read (m (block + j));
    cursor = add32 r.cursor 1;
    bytes_read = r.bytes_read + 1;
  }

  module _ (j : ℕ) (r : Reading) (c : r.cursor + 1 < 2 ^ 32) where
    one_byte-IsRead : IsRead m (block + j) 1 r (one_byte j r)
    unfolding one_byte
    one_byte-IsRead = record {
      cursor = omega arith;
      bytes_read = refl;
      copied = λ k lt. ground arith;
      kept = λ k lt. ground arith;
    }

    copied-suc :
        (count : ℕ) (r' : Reading)
        → IsRead m (block + (j + 1)) count (one_byte j r) r'
        → (k : ℕ) → k < suc count
        → r'.buffer (r.bytes_read + k) ≡ m (block + j + k)
    unfolding one_byte
    copied-suc count r' h zero lt = ground (arith, h.kept r.bytes_read)
    copied-suc count r' h (suc k) lt = ground (arith, h.copied k)

    IsRead-suc :
        (count : ℕ) (r' : Reading)
        → IsRead m (block + (j + 1)) count (one_byte j r) r'
        → IsRead m (block + j) (suc count) r r'
    unfolding one_byte
    IsRead-suc count r' h = record {
      cursor = omega (arith, h.cursor);
      bytes_read = omega (arith, h.bytes_read);
      copied = copied-suc count r' h;
      kept = λ k lt. ground (arith, h.kept k);
    }

  read_byte-last :
      (j : ℕ) (r : Reading)
      → m (block + j) ≢ 0
      → r.bytes_read + 1 ≡ to_read
      → read_byte m to_read block j r ≡ done (one_byte j r)
  unfolding read_byte one_byte
  read_byte-last j r nz e = ground arith

  read_byte-more :
      (j : ℕ) (r : Reading)
      → m (block + j) ≢ 0
      → r.bytes_read + 1 ≢ to_read
      → read_byte m to_read block j r ≡ next (one_byte j r)
  unfolding read_byte one_byte
  read_byte-more j r nz e = ground arith

  -- The last `count + 1` bytes to read stand in the block and none is a NUL: the loop reads them
  -- and is left.
  pub for_until-IsRead :
      (count fuel j : ℕ) (r : Reading)
      → count < fuel
      → r.bytes_read + suc count ≡ to_read
      → ((k : ℕ) → k < suc count → m (block + j + k) ≢ 0)
      → r.cursor + suc count < 2 ^ 32
      → (r' : Reading) × (for_until fuel j (read_byte m to_read block) r ≡ done r')
        × IsRead m (block + j) (suc count) r r'
  unfolding for_until one_byte
  for_until-IsRead count zero j r lt e nz c = absurd (omega arith)
  for_until-IsRead zero (suc fuel) j r lt e nz c = (
    one_byte j r,
    rw (read_byte-last j r (ground (arith, nz 0)) (omega arith), for_until),
    one_byte-IsRead j r (omega arith),
  )
  for_until-IsRead (suc count) (suc fuel) j r lt e nz c =
      let (r', runs, is) =
        for_until-IsRead count fuel (j + 1) (one_byte j r) (omega arith) (omega arith)
          (λ k k_lt. ground (arith, nz (suc k))) (omega arith) in
      (
        r',
        rw (read_byte-more j r (ground (arith, nz 0)) (omega arith), for_until) runs,
        IsRead-suc j r (omega arith) (suc count) r' is,
      )

  -- `count` bytes of a longer read stand in the block and none is a NUL: the loop over as many
  -- places reads them and ends.
  pub for_until-full :
      (count j : ℕ) (r : Reading)
      → r.bytes_read + count < to_read
      → ((k : ℕ) → k < count → m (block + j + k) ≢ 0)
      → r.cursor + count < 2 ^ 32
      → (r' : Reading) × (for_until count j (read_byte m to_read block) r ≡ next r')
        × IsRead m (block + j) count r r'
  unfolding for_until one_byte
  for_until-full zero j r more nz c = (
    r,
    refl,
    record {
      cursor = omega arith;
      bytes_read = omega arith;
      copied = λ k lt. absurd (omega arith);
      kept = λ k lt. refl;
    },
  )
  for_until-full (suc count) j r more nz c =
      let (r', runs, is) =
        for_until-full count (j + 1) (one_byte j r) (omega arith)
          (λ k k_lt. ground (arith, nz (suc k))) (omega arith) in
      (
        r',
        rw (read_byte-more j r (ground (arith, nz 0)) (omega arith), for_until) runs,
        IsRead-suc j r (omega arith) count r' is,
      )
