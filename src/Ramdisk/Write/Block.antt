-- ===== src/Ramdisk/Write/Block.antt =====
-- The inner loop of `rd_write` in kernelspace/discos.c, on data without NULs.
use file_system_toy_os.Prelude.{
  ap, ℕ, zero, suc, ◌+◌, ◌-◌, ◌^◌, ◌<◌, ◌≡◌, ◌≢◌, refl, ◌&&◌, arith, ltb, leb, if◌then◌else◌,
  update, pos, add32,
}
use file_system_toy_os.Prelude.Loops.{next, done, for_until}
use file_system_toy_os.Ramdisk.Memory.{Mem}
use file_system_toy_os.Ramdisk.Disk.{Inode}
use file_system_toy_os.Ramdisk.Write.Stages.{Writing, write_byte}

-- The memory after `r` bytes from index `from` of `content` have gone to `address`.
abbrev pub overwritten : Mem → ℕ → ℕ → Mem → ℕ → Mem
overwritten content from r m address x =
    if leb address x && ltb x (address + r) then content (from + (x - address)) else m x

-- `w'` is `w` after the inode `n` took `r` bytes at `address`.
pub record IsWritten (content : Mem) (n address r : ℕ) (w w' : Writing) : Type 0 where
  pub cursor : w'.cursor ≡ w.cursor + r
  pub written : w'.written ≡ w.written + r
  pub memory : (x : ℕ) → w'.disk.memory x ≡ overwritten content w.written r w.disk.memory address x
  pub inode : w'.disk.inodes n ≡ record (w.disk.inodes n) { size = (w.disk.inodes n).size + r }
  pub other_inodes : (m : ℕ) → m ≢ n → w'.disk.inodes m ≡ w.disk.inodes m
  pub bitmap : w'.disk.bitmap ≡ w.disk.bitmap
  pub free_blocks : w'.disk.free_blocks ≡ w.disk.free_blocks
  pub free_inodes : w'.disk.free_inodes ≡ w.disk.free_inodes

module _ (content : Mem) (num_bytes n block : ℕ) where
  -- The state after one byte that is no NUL.
  one_byte : ℕ → Writing → Writing
  one_byte j w = record {
    disk = record (w.disk) {
      memory = update w.disk.memory (block + j) (content w.written);
      inodes =
          update w.disk.inodes n
            (record (w.disk.inodes n) { size = add32 (w.disk.inodes n).size 1 });
    };
    cursor = add32 w.cursor 1;
    written = w.written + 1;
  }

  module _ (j : ℕ) (w : Writing) (c : w.cursor + 1 < 2 ^ 32)
      (z : (w.disk.inodes n).size + 1 < 2 ^ 32) where
    one_byte-IsWritten : IsWritten content n (block + j) 1 w (one_byte j w)
    unfolding one_byte
    one_byte-IsWritten = record {
      cursor = omega arith;
      written = refl;
      memory = λ x. ground arith;
      inode = ground arith;
      other_inodes = λ m ne. ground arith;
      bitmap = refl;
      free_blocks = refl;
      free_inodes = refl;
    }

    IsWritten-suc :
        (r : ℕ) (w' : Writing)
        → IsWritten content n (block + (j + 1)) r (one_byte j w) w'
        → IsWritten content n (block + j) (suc r) w w'
    unfolding one_byte
    IsWritten-suc r w' h = record {
      cursor = omega (arith, h.cursor);
      written = omega (arith, h.written);
      memory = λ x. ground (arith, h.memory x);
      inode = ground (arith, h.inode);
      other_inodes = λ m ne. ground (arith, h.other_inodes m ne);
      bitmap = h.bitmap;
      free_blocks = h.free_blocks;
      free_inodes = h.free_inodes;
    }

  write_byte-last :
      (j : ℕ) (w : Writing)
      → content w.written ≢ 0
      → w.written + 1 ≡ num_bytes
      → write_byte content num_bytes n block j w ≡ done (pos num_bytes, one_byte j w)
  unfolding write_byte one_byte
  write_byte-last j w nz e = ground arith

  write_byte-more :
      (j : ℕ) (w : Writing)
      → content w.written ≢ 0
      → w.written + 1 ≢ num_bytes
      → write_byte content num_bytes n block j w ≡ next (one_byte j w)
  unfolding write_byte one_byte
  write_byte-more j w nz e = ground arith

  -- The last `r + 1` bytes of the data, none of them a NUL, fit before the block's end: the loop
  -- writes them and returns.
  pub for_until-IsWritten :
      (r fuel j : ℕ) (w : Writing)
      → r < fuel
      → w.written + suc r ≡ num_bytes
      → ((k : ℕ) → k < num_bytes → content k ≢ 0)
      → w.cursor + suc r < 2 ^ 32
      → (w.disk.inodes n).size + suc r < 2 ^ 32
      → (w' : Writing) × (for_until fuel j (write_byte content num_bytes n block) w
          ≡ done (pos num_bytes, w'))
        × IsWritten content n (block + j) (suc r) w w'
  unfolding for_until one_byte
  for_until-IsWritten r zero j w lt e nz c z = absurd (omega arith)
  for_until-IsWritten zero (suc fuel) j w lt e nz c z = (
    one_byte j w,
    rw (write_byte-last j w (nz w.written (omega arith)) (omega arith), for_until),
    one_byte-IsWritten j w (omega arith) (omega arith),
  )
  for_until-IsWritten (suc r) (suc fuel) j w lt e nz c z =
      let (w', runs, is) =
        for_until-IsWritten r fuel (j + 1) (one_byte j w) (omega arith) (omega arith) nz
          (omega arith) (ground arith) in
      (
        w',
        rw (write_byte-more j w (nz w.written (omega arith)) (omega arith), for_until) runs,
        IsWritten-suc j w (omega arith) (omega arith) (suc r) w' is,
      )

  -- Of data that goes on behind them, `r` bytes without NULs: the loop over `r` places writes them
  -- and ends.
  pub for_until-full :
      (r j : ℕ) (w : Writing)
      → w.written + r < num_bytes
      → ((k : ℕ) → k < num_bytes → content k ≢ 0)
      → w.cursor + r < 2 ^ 32
      → (w.disk.inodes n).size + r < 2 ^ 32
      → (w' : Writing) × (for_until r j (write_byte content num_bytes n block) w ≡ next w')
        × IsWritten content n (block + j) r w w'
  unfolding for_until one_byte
  for_until-full zero j w more nz c z = (
    w,
    refl,
    record {
      cursor = omega arith;
      written = omega arith;
      memory = λ x. ground arith;
      inode =
          let same : (w.disk.inodes n).size ≡ (w.disk.inodes n).size + 0 = omega arith in
          ap {B = Inode} (λ k. record (w.disk.inodes n) { size = k }) same;
      other_inodes = λ m ne. refl;
      bitmap = refl;
      free_blocks = refl;
      free_inodes = refl;
    },
  )
  for_until-full (suc r) j w more nz c z =
      let (w', runs, is) =
        for_until-full r (j + 1) (one_byte j w) (omega arith) nz (omega arith) (ground arith) in
      (
        w',
        rw (write_byte-more j w (nz w.written (omega arith)) (omega arith), for_until) runs,
        IsWritten-suc j w (omega arith) (omega arith) r w' is,
      )
