-- ===== src/Ramdisk/NewFile.antt =====
-- `rd_create`, `rd_open`, `rd_write`, `rd_lseek` and `rd_read` of kernelspace/discos.c in a row.
use file_system_toy_os.Ramdisk.Path.{parse_absolute_path, slash}
use file_system_toy_os.Prelude.{
  sym, ℕ, ◌+◌, ◌*◌, ◌-◌, ◌≤◌, ◌<◌, ◌≡◌, ◌≢◌, ◌⊎◌, ◌∙◌, inl, inr, false, arith, some, ◌∷◌, ap, pos,
  success, failure, leb, ltb, ◌&&◌, if◌then◌else◌, sub32,
}
use mathlib.Core.Path.{subst}
use file_system_toy_os.Ramdisk.Memory.{Mem, CString}
use file_system_toy_os.Ramdisk.Disk.{FileType, Disk, System, read_only}
use file_system_toy_os.Ramdisk.Bitmap.{is_dir}
use file_system_toy_os.Ramdisk.Bitmap.Allocate.{IsCounted}
use file_system_toy_os.Ramdisk.Path.Split.{NoSlash}
use file_system_toy_os.Ramdisk.Contents.{IsLaidOut}
use file_system_toy_os.Ramdisk.Tree.{rd_create}
use file_system_toy_os.Ramdisk.Table.{object_at}
use file_system_toy_os.Ramdisk.Table.Shared.{IsShared, find_file_object-slot}
use file_system_toy_os.Ramdisk.File.{access_denied, rd_open}
use file_system_toy_os.Ramdisk.File.Open.{IsOpened, InUse}
use file_system_toy_os.Ramdisk.Counted.Create.{rd_create-IsCounted}
use file_system_toy_os.Ramdisk.Create.Found.{CanCreate, Created, rd_create-Created}
use file_system_toy_os.Ramdisk.Create.Opened.{rd_open-rd_create}
use file_system_toy_os.Ramdisk.Write.{rd_write}
use file_system_toy_os.Ramdisk.Write.Direct.{CanWrite}
use file_system_toy_os.Ramdisk.Read.Direct.{Copies}
use file_system_toy_os.Ramdisk.RoundTrip.{seek_and_read, read_of_written}

-- The bytes that go to a new file: they fit in its direct blocks, for which there are free blocks
-- when the directory has taken one.
pub record IsData (d : Disk) (content : Mem) (num_bytes : ℕ) : Type 0 where
  pub positive : 0 < num_bytes
  pub within : num_bytes ≤ 2048
  pub no_nul : (k : ℕ) → k < num_bytes → content k ≢ 0
  pub free : num_bytes + 256 ≤ 256 * d.free_blocks

-- What a write to the new file `fd`, a seek to its start and a read come to.
abbrev pub HoldsData : (Mem → ℕ → Mem → ℕ → ℕ → Mem) → System → ℕ → ℕ → Mem → ℕ → Mem → ℕ → Type 0
HoldsData copy s fd pid content num_bytes user dst =
    (s' : System) × (user' : Mem) × (seek_and_read copy (rd_write s fd pid content num_bytes).1 fd 0
        user dst num_bytes pid
      ≡ some (pos num_bytes, s', user'))
    × ((x : ℕ)
        → user' x ≡ (if leb dst x && ltb x (dst + num_bytes) then content (x - dst) else user x))

-- A file without blocks is laid out.
blank-IsLaidOut : (d : Disk) (n : ℕ) → ((i : ℕ) → (d.inodes n).pointers i ≡ 0) → IsLaidOut d n
blank-IsLaidOut d n null = record {
  taken = λ i lt ne. absurd (ne (null i));
  distinct = λ i j i_lt j_lt ne e. absurd (ne (null i));
}

module _ (s : System) (k mode flags pid : ℕ) (content : Mem) (num_bytes : ℕ)
    (is : IsData s.disk content num_bytes) (counted : IsCounted s.disk)
    (writable : mode ≢ read_only) (for_writing : flags ≢ read_only) where
  enough :
      (f : Disk)
      → (f.free_blocks ≡ s.disk.free_blocks) ⊎ (f.free_blocks ≡ sub32 s.disk.free_blocks 1)
      → num_bytes ≤ 256 * f.free_blocks
  enough f (inl e) = omega (arith, e, is.free)
  enough f (inr e) = omega (arith, e, is.free, is.positive, counted.counted)

  new-CanWrite :
      (f : Disk) (name : CString) (fd : ℕ) (s' : System)
      → Created s.disk f 0 k name FileType.reg mode
      → IsCounted f
      → IsOpened (record s { disk = f }) k flags fd s'
      → CanWrite s' fd pid 0 fd k content num_bytes
  new-CanWrite f name fd s' made counted' opened =
      let node = ap (λ d. d.inodes k) opened.same_disk ∙ made.inode in
      let cursor : (object_at s' 0 fd).cursor ≡ 0 = ap (λ o. o.cursor) opened.object in
      record {
        found =
            find_file_object-slot opened.shared pid fd opened.in_range
              (ap (λ o. o.usable) opened.object);
        inode = ap (λ o. o.inode_ptr) opened.object;
        regular = ap (λ n. is_dir n.type) node;
        file_rights = λ e. writable (rw node at e);
        open_rights = λ e. for_writing (rw opened.object at e);
        positive = is.positive;
        within = omega (arith, cursor, is.within);
        aligned = inr (omega (arith, cursor));
        no_nul = is.no_nul;
        room =
            let size : (s'.disk.inodes k).size ≡ 0 = ap (λ n. n.size) node in
            omega (arith, size, is.within);
        laid = blank-IsLaidOut s'.disk k (λ i. ap (λ n. n.pointers i) node);
        counted = subst IsCounted (sym opened.same_disk) counted';
        free =
            let same = ap (λ d. d.free_blocks) opened.same_disk in
            omega (arith, same, enough f made.free_blocks);
      }

  new-HoldsData :
      (copy : Mem → ℕ → Mem → ℕ → ℕ → Mem)
      → Copies copy
      → (user : Mem) (dst : ℕ) (f : Disk) (name : CString) (fd : ℕ) (s' : System)
      → Created s.disk f 0 k name FileType.reg mode
      → IsCounted f
      → IsOpened (record s { disk = f }) k flags fd s'
      → HoldsData copy s' fd pid content num_bytes user dst
  new-HoldsData copy copies user dst f name fd s' made counted' opened =
      let cursor : (object_at s' 0 fd).cursor ≡ 0 = ap (λ o. o.cursor) opened.object in
      rw cursor at (
        read_of_written opened.shared fd pid k content num_bytes
          (new-CanWrite f name fd s' made counted' opened) opened.in_range
          (ap (λ o. o.usable) opened.object) (omega (arith, cursor)) copy copies user dst pid)

  -- Under the conditions of rd_create-Created for '/' and a name without '/' in the root
  -- directory, in a system with IsShared tables and the right count of free blocks (IsCounted),
  -- for a mode and flags that allow writing, and num_bytes > 0 bytes, at most 2048 and none a
  -- NUL, for which there are free blocks beside one for the directory (IsData): rd_create of
  -- the file returns 0; rd_open of the path then returns a number fd, or -1 where all 1024
  -- slots are in use; and after an rd_write of the bytes to fd and an rd_lseek to 0, rd_read
  -- returns num_bytes, and the user's memory then holds the bytes at dst and is otherwise
  -- unchanged, for every copy_to_user that copies the bytes it is asked for (Copies).
  pub created_file_holds :
      (name : CString) (plain : NoSlash name) (can : CanCreate s.disk (slash ∷ name) 0 k)
      → IsShared s
      → access_denied flags mode ≡ false
      → (copy : Mem → ℕ → Mem → ℕ → ℕ → Mem) → Copies copy
      → (user : Mem) (dst : ℕ)
      → (f : Disk) × (rd_create s.disk (slash ∷ name) FileType.reg mode ≡ (success, f))
        × (let (status, s') = rd_open (record s { disk = f }) (slash ∷ name) flags pid in
            ((fd : ℕ) × (status ≡ pos fd) × HoldsData copy s' fd pid content num_bytes user dst)
            ⊎ ((status ≡ failure) × ((i : ℕ) → i < 1024 → InUse s i)))
  created_file_holds name plain can shared allowed copy copies user dst =
      let (f, e, made) = rd_create-Created s.disk (slash ∷ name) 0 k can FileType.reg mode in
      let (f', e', _, result) =
        rd_open-rd_create s name plain k can FileType.reg mode flags pid shared allowed in
      let same : f ≡ f' = ap (λ r. r.1) (sym e ∙ e') in
      let made' =
        subst
          (λ x.
            Created s.disk x 0 k (parse_absolute_path (slash ∷ name)).filename FileType.reg mode)
          same made in
      let counted' =
        subst IsCounted (ap (λ r. r.1) e')
          (rd_create-IsCounted s.disk (slash ∷ name) FileType.reg mode counted) in
      (
        f',
        e',
        elim result [
          | inl (fd, returns, opened) ↦
              inl (fd, returns, new-HoldsData copy copies user dst f' _ fd _ made' counted' opened)
          | inr (fails, full) ↦ inr (ap (λ r. r.0) fails, full)
        ],
      )
