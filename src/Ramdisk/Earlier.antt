-- ===== src/Ramdisk/Earlier.antt =====
-- The tree of files in Ramdisk/userspace/discos.c, the program of one process from which
-- kernelspace/discos.c was made. What it looks up a path with differs, and so does the rest where it
-- is written out here; the helpers it has in common with the later file are used from there.
pub mod Agrees
pub mod Read
use file_system_toy_os.Prelude.{
  ℕ, ◌&&◌, Option, none, some, List, [], ◌∷◌, ltb, ◌==◌, if◌then◌else◌, ℤ, pos, negsuc, success,
  failure, sub32, ◌+◌, ◌++◌, length,
}
use file_system_toy_os.Ramdisk.Memory.{Mem, CString}
use file_system_toy_os.Ramdisk.Disk.{
  FileType, Disk, System, data_blocks_num, max_num_file, read_write,
}
use file_system_toy_os.Ramdisk.Bitmap.{is_dir, get_free_inode_num}
use file_system_toy_os.Ramdisk.Path.{same, root, tokens, Parsed, last_slash, take, drop}
use file_system_toy_os.Ramdisk.Lookup.{walk}
use file_system_toy_os.Ramdisk.Entry.{get_next_entry, set_inode}
use file_system_toy_os.Ramdisk.Table.{set_object, object_at, create_file_object}
use file_system_toy_os.Ramdisk.File.{access_denied}
use file_system_toy_os.Ramdisk.Tree.{enter, remove, blank_process}

-- `strtok` with the delimiter "/": the tokens that are not empty.
abbrev pub nonempty : List CString → List CString
nonempty [] = []
nonempty ([] ∷ ts) = nonempty ts
nonempty ((c ∷ t) ∷ ts) = (c ∷ t) ∷ nonempty ts

-- A path without tokens is the root's. The search in a directory is that of the later file.
unfoldable pub find_inode_number : Disk → CString → Option ℕ
find_inode_number d pathname = walk d (nonempty (tokens pathname)) 0

-- What a buffer from `malloc`, which nobody clears, holds from each place on up to the next NUL.
abbrev pub Leftover : Type 0
Leftover = ℕ → CString

-- `strncpy` of the directory part writes no NUL, so that the string in `_current_dir` goes on with
-- what the buffer held; where there is no '/', it is that alone. `strcpy` ends the other strings.
unfoldable pub split_path : Leftover → CString → Parsed
split_path left path = elim (last_slash (length path) path) [
  | none ↦ record { current_dir = left 0; filename = path }
  | some i ↦ record {
    current_dir = if i == 0 then root else take i path ++ left i;
    filename = drop (i + 1) path;
  }
]

-- `rd_create` behind the two tests, with the parts of the path.
abbrev pub create_in : Disk → Parsed → FileType → ℕ → ℤ × Disk
create_in d parsed type mode = elim (find_inode_number d parsed.current_dir) [
  | none ↦ (failure, d)
  | some cur ↦
      let (next, d') = get_next_entry d cur in
      elim next [
        | none ↦ (failure, d')
        | some entry ↦ elim (get_free_inode_num d') [
          | none ↦ (failure, d')
          | some k ↦ (success, enter d' cur entry k parsed.filename type mode)
        ]
      ]
]

unfoldable pub rd_create : Leftover → Disk → CString → FileType → ℕ → ℤ × Disk
rd_create left d pathname type mode =
    if d.free_inodes == 0
    then (failure, d)
    else if d.free_blocks == 0
    then (failure, d)
    else create_in d (split_path left pathname) type mode

-- The end of `rd_mkdir`: 0 where `rd_create` has returned 0, else -1.
abbrev pub made : ℤ × Disk → ℤ × Disk
made (pos status, d) = (if status == 0 then success else failure, d)
made (negsuc status, d) = (failure, d)

-- A directory is made with the mode RW.
unfoldable pub rd_mkdir : Leftover → Disk → CString → ℤ × Disk
rd_mkdir left d pathname =
    if same pathname root && (d.free_inodes == max_num_file)
    then (
      success,
      set_inode (record d { free_inodes = sub32 d.free_inodes 1 }) 0
          (record (d.inodes 0) { type = FileType.dir }),
    )
    else if same pathname root
    then (failure, d)
    else made (rd_create left d pathname FileType.dir read_write)

-- Of the new file system, `fresh`, the `memset` clears `sizeof(sizeof(filesys_struct))` bytes, which
-- are those of the superblock. The table of processes is cleared whole.
unfoldable pub init_file_sys : Leftover → Disk → Mem → ℤ × System
init_file_sys left fresh buffer =
    let started : Disk = record fresh {
      free_blocks = data_blocks_num;
      free_inodes = max_num_file;
    } in
    let (status, d) = rd_mkdir left started root in
    (status, record { disk = d; processes = λ _. blank_process; read_buffer = buffer })

-- `rd_unlink` of the file `k` from its directory.
abbrev pub unlink_in : Disk → ℕ → Parsed → ℤ × Disk
unlink_in d k parsed = elim (find_inode_number d parsed.current_dir) [
  | none ↦ (failure, d)
  | some cur ↦ (success, remove d k cur parsed.filename)
]

unfoldable pub rd_unlink : Leftover → Disk → CString → ℤ × Disk
rd_unlink left d pathname =
    if same pathname root then (failure, d) else elim (find_inode_number d pathname) [
      | none ↦ (failure, d)
      | some k ↦
          if is_dir (d.inodes k).type && ltb 0 (d.inodes k).size
          then (failure, d)
          else unlink_in d k (split_path left pathname)
    ]

unfoldable pub rd_chmod : Disk → CString → ℕ → ℤ × Disk
rd_chmod d pathname mode =
    if same pathname root then (failure, d) else elim (find_inode_number d pathname) [
      | none ↦ (failure, d)
      | some k ↦ (success, set_inode d k (record (d.inodes k) { access = mode }))
    ]

unfoldable pub rd_open : System → CString → ℕ → ℕ → ℤ × System
rd_open s pathname flags pid =
    if same pathname root then (failure, s) else elim (find_inode_number s.disk pathname) [
      | none ↦ (failure, s)
      | some k ↦
          if access_denied flags (s.disk.inodes k).access
          then (failure, s)
          else elim (create_file_object s pid) [
            | none ↦ (failure, s)
            | some ((t, i), s') ↦ (
              pos (object_at s' t i).pos,
              set_object s' t i
                  (record (object_at s' t i) { cursor = 0; inode_ptr = some k; status = flags }),
            )
          ]
    ]
