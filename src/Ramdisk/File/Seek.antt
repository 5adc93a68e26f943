-- ===== src/Ramdisk/File/Seek.antt =====
-- `rd_lseek` of kernelspace/discos.c on an open regular file.
use file_system_toy_os.Prelude.{
  ℕ, ◌+◌, ◌-◌, ◌≤◌, ◌<◌, ◌^◌, ◌≡◌, refl, true, false, some, arith, ltb, leb, Bool-cases, inl, inr,
  pos, failure, sub32,
}
use file_system_toy_os.Ramdisk.Disk.{System}
use file_system_toy_os.Ramdisk.Bitmap.{is_dir}
use file_system_toy_os.Ramdisk.Table.{object_at, set_object}
use file_system_toy_os.Ramdisk.Table.Shared.{IsShared}
use file_system_toy_os.Ramdisk.Table.Steps.{preprocess-ok}
use file_system_toy_os.Ramdisk.File.{rd_lseek}

-- The file object `fd` with another cursor.
abbrev pub moved : System → ℕ → ℕ → System
moved s fd c = set_object s 0 fd (record (object_at s 0 fd) { cursor = c })

-- What a seek to `o` in a file of `size` bytes comes to: the cursor `c`, inside the file.
pub record IsSought (s : System) (fd pid o size c : ℕ) : Type 0 where
  pub returns : rd_lseek s fd (pos o) pid ≡ (pos c, moved s fd c)
  pub inside : c < size
  pub exact : o < size → c ≡ o
  pub clipped : size ≤ o → c + 1 ≡ size

module _ {s : System} (h : IsShared s) (fd pid n : ℕ) (lt : fd < 1024)
    (used : (object_at s 0 fd).usable ≡ 1) (inode : (object_at s 0 fd).inode_ptr ≡ some n)
    (regular : is_dir (s.disk.inodes n).type ≡ false) where
  abbrev size : ℕ
  size = (s.disk.inodes n).size

  -- In a system whose tables satisfy IsShared, for a file object fd < 1024 in use on a regular
  -- file of more than 0 and less than 2^31 bytes, rd_lseek to an offset o that is not negative
  -- returns the new cursor c and changes only the cursor; c is o where o is less than the size,
  -- and the size less 1 where it is not.
  pub rd_lseek_lem : (o : ℕ) → 0 < size → size < 2 ^ 31 → (c : ℕ) × IsSought s fd pid o size c
  unfolding rd_lseek
  rd_lseek_lem o some_bytes small = elim (Bool-cases (leb size o)) [
    | inl behind ↦ (
      size - 1,
      record {
        returns =
            let e : sub32 size 1 ≡ size - 1 = omega arith in
            let e' : ltb (size - 1) (2 ^ 31) ≡ true = ground arith in
            rw (preprocess-ok h fd pid n lt used inode regular, behind, e, e', rd_lseek);
        inside = omega arith;
        exact = λ l. ground arith;
        clipped = λ l. omega arith;
      },
    )
    | inr within ↦ (
      o,
      record {
        returns =
            let e' : ltb o (2 ^ 31) ≡ true = ground arith in
            rw (preprocess-ok h fd pid n lt used inode regular, within, e', rd_lseek);
        inside = ground arith;
        exact = λ l. refl;
        clipped = λ l. ground arith;
      },
    )
  ]

  -- In a system whose tables satisfy IsShared, for a file object fd < 1024 in use on a regular
  -- file of 0 bytes, rd_lseek to any offset that is not negative returns -1 and yet sets the
  -- cursor to 2^32 - 1.
  pub rd_lseek-empty :
      (o : ℕ) → size ≡ 0 → rd_lseek s fd (pos o) pid ≡ (failure, moved s fd (2 ^ 32 - 1))
  unfolding rd_lseek
  rd_lseek-empty o empty =
      let behind : leb size o ≡ true = ground arith in
      rw (preprocess-ok h fd pid n lt used inode regular, behind, empty, rd_lseek)
