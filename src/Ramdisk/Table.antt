-- ===== src/Ramdisk/Table.antt =====
-- The file descriptor tables of kernelspace/discos.c: `get_fd_table`, `create_file_object`, and
-- the search for a file object with which the operations on open files begin.
pub mod Shared
pub mod Steps
use file_system_toy_os.Prelude.{ℕ, Option, none, some, ◌==◌, update}
use file_system_toy_os.Prelude.Loops.{find_from}
use file_system_toy_os.Ramdisk.Disk.{FileObject, System, therad_pool_size, fd_table_size}

-- The index of the process whose table it is: one with this `pid`, or else one with `pid` 0.
-- Nothing writes `pid` into the entry.
unfoldable pub get_fd_table : System → ℕ → Option ℕ
get_fd_table s pid = elim (find_from therad_pool_size 0 (λ i. (s.processes i).pid == pid)) [
  | some i ↦ some i
  | none ↦ find_from therad_pool_size 0 (λ i. (s.processes i).pid == 0)
]

-- `file_objects[i]` of table `t`, and the write to it.
abbrev pub object_at : System → ℕ → ℕ → FileObject
object_at s t i = (s.processes t).file_objects i

abbrev pub set_object : System → ℕ → ℕ → FileObject → System
set_object s t i f = record s {
  processes =
      update s.processes t
        (record (s.processes t) { file_objects = update (s.processes t).file_objects i f });
}

-- The table and the slot of the new file object.
unfoldable pub create_file_object : System → ℕ → Option ((ℕ × ℕ) × System)
create_file_object s pid = elim (get_fd_table s pid) [
  | none ↦ none
  | some t ↦ elim (find_from fd_table_size 0 (λ i. (object_at s t i).usable == 0)) [
    | none ↦ none
    | some i ↦ some ((t, i), set_object s t i (record (object_at s t i) { pos = i; usable = 1 }))
  ]
]

-- The first file object with `pos == fd`, by table and slot.
unfoldable pub find_file_object : System → ℕ → ℕ → Option (ℕ × ℕ)
find_file_object s pid fd = elim (get_fd_table s pid) [
  | none ↦ none
  | some t ↦ elim (find_from fd_table_size 0 (λ i. (object_at s t i).pos == fd)) [
    | none ↦ none
    | some i ↦ some (t, i)
  ]
]
