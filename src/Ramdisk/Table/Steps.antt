-- ===== src/Ramdisk/Table/Steps.antt =====
-- What the operations on open files do to the tables (kernelspace/discos.c).
use file_system_toy_os.Ramdisk.Table.Shared.{
  find_file_object-slot, IsShared, get_fd_table-shared, IsShared-set_object,
}
use file_system_toy_os.Prelude.{
  ◌<◌, none, ℕ, some, ◌≡◌, inl, inr, pos, negsuc, ℤ, arith, Option-cases, refl, ◌||◌, Bool-cases,
  ◌==◌, Bool, false, ltb, Option, sub32,
}
use file_system_toy_os.Ramdisk.Disk.{System, blank_object, Disk, read_only}
use file_system_toy_os.Ramdisk.Table.{object_at, find_file_object, set_object}
use file_system_toy_os.Ramdisk.File.{preprocess, rd_lseek, rd_close}
use file_system_toy_os.Ramdisk.Memory.{Mem}
use file_system_toy_os.Ramdisk.Write.{rd_write}
use file_system_toy_os.Ramdisk.Read.{rd_read}
use file_system_toy_os.Ramdisk.Bitmap.{is_dir}

-- The tables alone matter: neither the disk nor the read buffer does.
pub IsShared-disk :
    {s : System} (d : Disk) (buffer : Mem)
    → IsShared s
    → IsShared (record s { disk = d; read_buffer = buffer })
IsShared-disk d buffer h = record { pids = h.pids; slots = h.slots }

-- The system after `rd_read`, if it returns.
abbrev pub EndsShared : Option (ℤ × System × Mem) → Type 0
EndsShared none = Unit
EndsShared (some (status, s, user)) = IsShared s

copied-EndsShared :
    (status : ℤ) {s : System} (o : Option Mem)
    → IsShared s
    → EndsShared (elim o [ none ↦ none | some user ↦ some (status, s, user) ])
copied-EndsShared status none h = tt
copied-EndsShared status (some user) h = h

-- A file object that passes the checks: slot `i` of table 0, in use, open on the inode `k`.
pub record IsOpenAt (s : System) (fd t i k : ℕ) : Type 0 where
  pub table : t ≡ 0
  pub used : (object_at s t i).usable ≡ 1
  pub inode : (object_at s t i).inode_ptr ≡ some k

module _ {s : System} (h : IsShared s) (fd pid : ℕ) where
  pub find_file_object-table : (t i : ℕ) → find_file_object s pid fd ≡ some (t, i) → t ≡ 0
  unfolding find_file_object
  find_file_object-table t i e = ground (arith, get_fd_table-shared h pid)

  pub preprocess-IsOpenAt : (t i k : ℕ) → preprocess s fd pid ≡ some (t, i, k) → IsOpenAt s fd t i k
  unfolding preprocess
  preprocess-IsOpenAt t i k e = ground (arith, find_file_object-table t i)

  -- A new cursor keeps the tables as they should be.
  pub IsShared-cursor :
      (t i c : ℕ) → t ≡ 0 → IsShared (set_object s t i (record (object_at s t i) { cursor = c }))
  IsShared-cursor t i c e = record {
    pids = λ t'. ground (arith, h.pids t');
    slots = λ j. ground (arith, h.slots j);
  }

  pub rd_close-IsShared : IsShared (rd_close s fd pid).1
  unfolding rd_close
  rd_close-IsShared = elim (Option-cases (preprocess s fd pid)) [
    | inl e ↦ rw (e, rd_close) h
    | inr ((t, i, k), e) ↦
        let at = preprocess-IsOpenAt t i k e in
        rw (e, at.table, rd_close) (IsShared-set_object h i blank_object (inl (refl, refl, refl)))
  ]

  pub rd_lseek-IsShared : (offset : ℤ) → IsShared (rd_lseek s fd offset pid).1
  unfolding rd_lseek
  rd_lseek-IsShared (negsuc n) = elim (Option-cases (preprocess s fd pid)) [
    | inl e ↦ rw (e, rd_lseek) h
    | inr ((t, i, k), e) ↦ rw (e, rd_lseek) h
  ]
  rd_lseek-IsShared (pos o) = elim (Option-cases (preprocess s fd pid)) [
    | inl e ↦ rw (e, rd_lseek) h
    | inr ((t, i, k), e) ↦
        rw (e, rd_lseek) (IsShared-cursor t i _ (preprocess-IsOpenAt t i k e).table)
  ]

  -- A new disk, read buffer and cursor.
  pub IsShared-update :
      (d : Disk) (buffer : Mem) (t i c : ℕ)
      → t ≡ 0
      → IsShared (
          set_object
            (record s { disk = d; read_buffer = buffer })
            t
            i
            (record (object_at s t i) { cursor = c }))
  IsShared-update d buffer t i c e = IsShared-disk d buffer (IsShared-cursor t i c e)

  pub rd_write-IsShared :
      (content : Mem) (num_bytes : ℕ) → IsShared (rd_write s fd pid content num_bytes).1
  unfolding rd_write
  rd_write-IsShared content num_bytes = elim (Option-cases (find_file_object s pid fd)) [
    | inl e ↦ rw (e, rd_write) h
    | inr ((t, i), e) ↦ elim (Option-cases (object_at s t i).inode_ptr) [
      | inl null ↦ rw (e, null, rd_write) h
      | inr (n, is_open) ↦ elim (Bool-cases (is_dir (s.disk.inodes n).type)) [
        | inl e₁ ↦ rw (e, is_open, e₁, rd_write) h
        | inr e₁ ↦ elim (Bool-cases (denied t i n)) [
          | inl e₂ ↦ rw (e, is_open, e₁, e₂, rd_write) h
          | inr e₂ ↦
              rw (e, is_open, e₁, e₂, rd_write)
                (IsShared-update _ s.read_buffer t i _ (find_file_object-table t i e))
        ]
      ]
    ]
  ]
    where
      denied : ℕ → ℕ → ℕ → Bool
      denied t i n =
          ((s.disk.inodes n).access == read_only) || ((object_at s t i).status == read_only)

  -- Whatever the kernel's copy does to the user's memory.
  pub rd_read-IsShared :
      (copy : Mem → ℕ → Mem → ℕ → ℕ → Mem) (user : Mem) (address num_bytes : ℕ)
      → EndsShared (rd_read copy s fd user address num_bytes pid)
  unfolding rd_read
  rd_read-IsShared copy user address num_bytes = elim (Option-cases (preprocess s fd pid)) [
    | inl e₁ ↦ rw (e₁, rd_read) h
    | inr ((t, i, n), e₁) ↦ elim (Bool-cases (too_many t i n)) [
      | inl e₂ ↦ rw (e₁, e₂, rd_read) h
      | inr e₂ ↦
          rw (e₁, e₂, rd_read)
            (copied-EndsShared _ _
              (IsShared-update s.disk _ t i _ (preprocess-IsOpenAt t i n e₁).table))
    ]
  ]
    where
      too_many : ℕ → ℕ → ℕ → Bool
      too_many t i n = ltb (sub32 (s.disk.inodes n).size (object_at s t i).cursor) num_bytes

-- The checks pass for a slot in use on a file that is no directory.
pub preprocess-ok :
    {s : System} (h : IsShared s) (fd pid n : ℕ)
    → fd < 1024
    → (object_at s 0 fd).usable ≡ 1
    → (object_at s 0 fd).inode_ptr ≡ some n
    → is_dir (s.disk.inodes n).type ≡ false
    → preprocess s fd pid ≡ some (0, fd, n)
unfolding preprocess
preprocess-ok h fd pid n lt used inode regular =
    ground (arith, find_file_object-slot h pid fd lt used)
