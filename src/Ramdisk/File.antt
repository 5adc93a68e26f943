-- ===== src/Ramdisk/File.antt =====
-- `rd_open`, `rd_lseek` and `rd_close` of kernelspace/discos.c.
pub mod Open
pub mod Close
pub mod Rights
pub mod Seek
use file_system_toy_os.Prelude.{
  ℕ, ◌-◌, ◌^◌, Bool, not, ◌&&◌, ◌||◌, Option, none, some, ltb, leb, ◌==◌, if◌then◌else◌, ℤ, pos,
  negsuc, success, failure, sub32,
}
use file_system_toy_os.Ramdisk.Memory.{CString}
use file_system_toy_os.Ramdisk.Disk.{System, blank_object, read_only, read_write, write_only}
use file_system_toy_os.Ramdisk.Bitmap.{is_dir}
use file_system_toy_os.Ramdisk.Path.{same, root}
use file_system_toy_os.Ramdisk.Lookup.{my_find_inode_number}
use file_system_toy_os.Ramdisk.Table.{object_at, set_object, create_file_object, find_file_object}

-- The three tests of flags against the access rights of the file.
unfoldable pub access_denied : ℕ → ℕ → Bool
access_denied flags access =
    (flags == read_only) && (access == write_only)
    || (flags == write_only) && (access == read_only)
    || (flags == read_write) && not (access == read_write)

unfoldable pub rd_open : System → CString → ℕ → ℕ → ℤ × System
rd_open s pathname flags pid =
    if same pathname root then (failure, s) else elim (my_find_inode_number s.disk pathname) [
      | none ↦ (failure, s)
      | some k ↦
          if access_denied flags (s.disk.inodes k).access
          then (failure, s)
          else elim (create_file_object s pid) [
            | none ↦ (failure, s)
            | some ((t, i), s') ↦ (
              pos (object_at s' t i).pos,
              set_object s' t i
                  (record (object_at s' t i) { cursor = 0; inode_ptr = some k; status = flags }),
            )
          ]
    ]

-- The checks that `rd_lseek`, `rd_read` and `rd_close` begin with: the table, the slot and the
-- inode of the file object, `none` where they return -1.
unfoldable pub preprocess : System → ℕ → ℕ → Option (ℕ × ℕ × ℕ)
preprocess s fd pid = elim (find_file_object s pid fd) [
  | none ↦ none
  | some (t, i) ↦ elim (object_at s t i).inode_ptr [
    | none ↦ none
    | some k ↦
        if not ((object_at s t i).usable == 1)
        then none
        else if is_dir (s.disk.inodes k).type
        then none
        else some (t, i, k)
  ]
]

-- The value of an `unsigned int` returned as an `int`.
abbrev pub as_int : ℕ → ℤ
as_int w = if ltb w (2 ^ 31) then pos w else negsuc (2 ^ 32 - w - 1)

-- An offset at or behind the end of the file goes to `file_size - 1`, unsigned.
unfoldable pub rd_lseek : System → ℕ → ℤ → ℕ → ℤ × System
rd_lseek s fd offset pid = elim (preprocess s fd pid) [
  | none ↦ (failure, s)
  | some (t, i, k) ↦ elim offset [
    | negsuc _ ↦ (failure, s)
    | pos o ↦
        let cursor = if leb (s.disk.inodes k).size o then sub32 (s.disk.inodes k).size 1 else o in
        (as_int cursor, set_object s t i (record (object_at s t i) { cursor = cursor }))
  ]
]

unfoldable pub rd_close : System → ℕ → ℕ → ℤ × System
rd_close s fd pid = elim (preprocess s fd pid) [
  | none ↦ (failure, s)
  | some (t, i, k) ↦ (success, set_object s t i blank_object)
]
