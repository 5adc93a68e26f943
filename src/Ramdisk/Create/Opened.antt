-- ===== src/Ramdisk/Create/Opened.antt =====
-- `rd_create` of a file in the root directory and `rd_open` by its path, in kernelspace/discos.c.
use mathlib.Core.Path.{subst}
use file_system_toy_os.Prelude.{ℕ, ◌≡◌, ◌≢◌, ap, ◌∙◌, false, some, [], ◌∷◌, success}
use file_system_toy_os.Ramdisk.Memory.{CString}
use file_system_toy_os.Ramdisk.Disk.{FileType, Disk, System}
use file_system_toy_os.Ramdisk.Path.{slash, same, parse_absolute_path}
use file_system_toy_os.Ramdisk.Path.Split.{NoSlash, parse_absolute_path-root}
use file_system_toy_os.Ramdisk.Lookup.{find_component, my_find_inode_number}
use file_system_toy_os.Ramdisk.Lookup.Resolve.{in_root, same-ne-nil}
use file_system_toy_os.Ramdisk.Tree.{rd_create}
use file_system_toy_os.Ramdisk.File.{access_denied, rd_open}
use file_system_toy_os.Ramdisk.File.Open.{OpenResult, rd_open_lem}
use file_system_toy_os.Ramdisk.Table.Shared.{IsShared}
use file_system_toy_os.Ramdisk.Table.Steps.{IsShared-disk}
use file_system_toy_os.Ramdisk.Create.Found.{CanCreate, Created, rd_create-Created}

some_inj : (a b : ℕ) → some a ≡ some b → a ≡ b
some_inj a b e = cc

module _ (s : System) (name : CString) (plain : NoSlash name) (k : ℕ)
    (can : CanCreate s.disk (slash ∷ name) 0 k) (type : FileType) (mode : ℕ) where
  abbrev path_of : CString
  path_of = slash ∷ name

  filename_of : (parse_absolute_path path_of).filename ≡ name
  filename_of = ap (λ p. p.filename) (parse_absolute_path-root name plain)

  not_empty : name ≢ []
  not_empty e = can.name.not_empty (filename_of ∙ e)

  pub leads_to :
      (f : Disk)
      → Created s.disk f 0 k (parse_absolute_path path_of).filename type mode
      → my_find_inode_number f path_of ≡ some k
  leads_to f made =
      in_root f name plain not_empty
      ∙ subst (λ n. find_component f n 0 ≡ some k) filename_of made.found

  -- Under the conditions of rd_create-Created for '/' and a name without '/' in the root
  -- directory, in a system whose tables satisfy IsShared, and for flags that the mode allows:
  -- rd_create returns 0, the path then leads to the inode k that was free, and rd_open of the
  -- path with the flags opens k in the lowest free slot, or returns -1 where all 1024 slots are
  -- in use, with the outcomes of rd_open_lem.
  pub rd_open-rd_create :
      (flags pid : ℕ)
      → IsShared s
      → access_denied flags mode ≡ false
      → (f : Disk) × (rd_create s.disk path_of type mode ≡ (success, f))
        × (my_find_inode_number f path_of ≡ some k)
        × OpenResult
            (record s { disk = f })
            k
            flags
            (rd_open (record s { disk = f }) path_of flags pid)
  unfolding same
  rd_open-rd_create flags pid shared allowed =
      let (f, e, made) = rd_create-Created s.disk path_of 0 k can type mode in
      let found = leads_to f made in
      let rights : (f.inodes k).access ≡ mode = ap (λ n. n.access) made.inode in
      (
        f,
        e,
        found,
        rd_open_lem (IsShared-disk f s.read_buffer shared) path_of flags pid k
            (same-ne-nil name not_empty) found (rw rights allowed),
      )
