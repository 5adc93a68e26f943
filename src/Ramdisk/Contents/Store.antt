-- ===== src/Ramdisk/Contents/Store.antt =====
-- Bytes written to a direct block of a file of kernelspace/discos.c, and the bytes of the file.
use file_system_toy_os.Prelude.{
  ne→==, ℕ, ◌+◌, ◌*◌, ◌-◌, ◌/◌, ◌%◌, ◌<◌, ◌≤◌, ◌≡◌, ◌≢◌, ◌∙◌, inl, inr, arith, ◌==◌, if◌then◌else◌,
  ap, Bool-cases, ==→eq, ==→ne, sym, leb, ltb, ◌&&◌,
}
use file_system_toy_os.Ramdisk.Memory.{Mem}
use file_system_toy_os.Ramdisk.Disk.{block_address, Inode}
use file_system_toy_os.Ramdisk.Bitmap.Bits.{bit_of}
use file_system_toy_os.Ramdisk.Bitmap.Allocate.{IsCounted}
use file_system_toy_os.Ramdisk.Counted.{IsCounted-ext}
use file_system_toy_os.Ramdisk.Write.Stages.{Writing}
use file_system_toy_os.Ramdisk.Write.Block.{IsWritten}
use file_system_toy_os.Ramdisk.Contents.{
  byte_of, IsLaidOut, IsExtension, IsExtension-trans, IsExtension-refl,
}

-- The bytes of a file after `r` bytes from index `from` of `content` have been written at `at`.
abbrev pub spliced : Mem → ℕ → ℕ → ℕ → (ℕ → ℕ) → ℕ → ℕ
spliced content from r at bytes x =
    if leb at x && ltb x (at + r) then content (from + (x - at)) else bytes x

-- `w'` is `w` after `r` bytes have gone to the file `n` at the cursor.
pub record IsStored (content : Mem) (n r : ℕ) (w w' : Writing) : Type 0 where
  pub cursor : w'.cursor ≡ w.cursor + r
  pub written : w'.written ≡ w.written + r
  pub bytes :
      (x : ℕ)
      → x < 2048
      → byte_of w'.disk n x ≡ spliced content w.written r w.cursor (byte_of w.disk n) x
  pub size : (w'.disk.inodes n).size ≡ (w.disk.inodes n).size + r
  pub extends : IsExtension n w.disk w'.disk
  pub laid : IsLaidOut w'.disk n
  pub counted : IsCounted w'.disk

pub IsStored-none :
    (content : Mem) (n : ℕ) (w : Writing)
    → IsLaidOut w.disk n
    → IsCounted w.disk
    → IsStored content n 0 w w
IsStored-none content n w laid counted = record {
  cursor = omega arith;
  written = omega arith;
  bytes = λ x lt. ground arith;
  size = omega arith;
  extends = IsExtension-refl n w.disk;
  laid = laid;
  counted = counted;
}

pub IsStored-trans :
    {content : Mem} {n r r' total : ℕ} {w w' w'' : Writing}
    → r + r' ≡ total
    → IsStored content n r w w'
    → IsStored content n r' w' w''
    → IsStored content n total w w''
IsStored-trans {content} {n} {r} {r'} {total} {w} {w'} {w''} sums a b = record {
  cursor = omega (arith, a.cursor, b.cursor);
  written = omega (arith, a.written, b.written);
  bytes = λ x lt. b.bytes x lt ∙ ground (arith, a.bytes x lt, a.cursor, a.written);
  size = omega (arith, a.size, b.size);
  extends = IsExtension-trans a.extends b.extends;
  laid = b.laid;
  counted = b.counted;
}

module _ (content : Mem) (n i o r : ℕ) {w w' : Writing} (lt : i < 8)
    (there : (w.disk.inodes n).pointers i ≢ 0) (laid : IsLaidOut w.disk n)
    (is : IsWritten content n ((w.disk.inodes n).pointers i + o) r w w') (fits : o + r ≤ 256) where
  abbrev block : ℕ
  block = (w.disk.inodes n).pointers i

  same_pointer : (j : ℕ) → (w'.disk.inodes n).pointers j ≡ (w.disk.inodes n).pointers j
  same_pointer j = ap (λ f. f.pointers j) is.inode

  same_bit : (k : ℕ) → bit_of w'.disk.bitmap k ≡ bit_of w.disk.bitmap k
  same_bit k = ap (λ map. bit_of map k) is.bitmap

  stored-IsLaidOut : IsLaidOut w'.disk n
  stored-IsLaidOut = record {
    taken = λ j j_lt ne.
        let (k, at, k_lt, set) = laid.taken j j_lt (λ z. ne (same_pointer j ∙ z)) in
        (k, same_pointer j ∙ at, k_lt, same_bit k ∙ set);
    distinct = λ j m j_lt m_lt ne e.
        laid.distinct j m j_lt m_lt (λ z. ne (same_pointer j ∙ z))
          (sym (same_pointer j) ∙ e ∙ same_pointer m);
  }

  -- Other data blocks keep their bytes.
  other_block :
      (k x : ℕ)
      → block ≢ block_address k
      → x < 256
      → w'.disk.memory (block_address k + x) ≡ w.disk.memory (block_address k + x)
  other_block k x ne x_lt =
      let (m, at, _, _) = laid.taken i lt there in
      is.memory (block_address k + x) ∙ ground (arith, at)

  stored-IsExtension : IsExtension n w.disk w'.disk
  stored-IsExtension = record {
    inode =
        is.inode
        ∙ ap {A = Inode} (λ f. record (w.disk.inodes n) { size = f.size; pointers = f.pointers })
            (sym is.inode);
    other_inodes = is.other_inodes;
    free_inodes = is.free_inodes;
    marked = λ k set. same_bit k ∙ set;
    pointers = λ j. inl (same_pointer j);
    other_blocks = λ k x set other x_lt. other_block k x (other i lt) x_lt;
  }

  stored_byte :
      (x : ℕ)
      → x < 2048
      → byte_of w'.disk n x ≡ spliced content w.written r (256 * i + o) (byte_of w.disk n) x
  stored_byte x x_lt = elim (Bool-cases (x / 256 == i)) [
    | inl e ↦
        let e' : x / 256 ≡ i = ==→eq (x / 256) i e in
        rw (same_pointer (x / 256), e', ne→== _ _ there)
          (is.memory (block + x % 256) ∙ ground (arith, e'))
    | inr e ↦
        let outside = ==→ne (x / 256) i e in
        rw (same_pointer (x / 256)) (elim (Bool-cases ((w.disk.inodes n).pointers (x / 256) == 0)) [
          | inl z ↦ rw z (ground arith)
          | inr nz ↦
              let (k, at, _, _) = laid.taken (x / 256) (omega arith) (==→ne _ 0 nz) in
              rw (nz, at)
                (other_block k (x % 256)
                    (λ z. outside (laid.distinct _ _ (omega arith) lt (==→ne _ 0 nz) (at ∙ sym z)))
                    (omega arith)
                  ∙ ground (arith, outside))
        ])
  ]

  pub IsWritten-IsStored : w.cursor ≡ 256 * i + o → IsCounted w.disk → IsStored content n r w w'
  IsWritten-IsStored at counted = record {
    cursor = is.cursor;
    written = is.written;
    bytes = λ x x_lt. rw at (stored_byte x x_lt);
    size = ap (λ f. f.size) is.inode;
    extends = stored-IsExtension;
    laid = stored-IsLaidOut;
    counted = IsCounted-ext w'.disk is.bitmap is.free_blocks counted;
  }
