-- ===== src/Ramdisk/Tree.antt =====
-- The operations on the tree of files: `rd_mkdir`, `rd_create`, `rd_unlink`, `rd_chmod` and
-- `init_file_sys` of kernelspace/discos.c. Each returns its status and the disk.
use file_system_toy_os.Prelude.{
  ℕ, ◌&&◌, none, some, ltb, ◌==◌, if◌then◌else◌, ℤ, success, failure, add32, sub32,
}
use file_system_toy_os.Ramdisk.Memory.{Mem, CString, store16, strcpy}
use file_system_toy_os.Ramdisk.Disk.{
  FileType, Disk, Process, System, blank_inode, blank_object, inode_num_address, data_blocks_num,
  max_num_file,
}
use file_system_toy_os.Ramdisk.Bitmap.{is_dir, get_free_inode_num, allocate_inode}
use file_system_toy_os.Ramdisk.Path.{same, root, parse_absolute_path}
use file_system_toy_os.Ramdisk.Lookup.{my_find_inode_number}
use file_system_toy_os.Ramdisk.Entry.{get_next_entry, set_inode}
use file_system_toy_os.Ramdisk.Clear.{my_clear_inode, clear_entry_in_current_dir}

-- The writes at the end of `rd_create`: the entry's name and number, the type and access of the
-- new inode `k`, and the size of the directory `cur`.
unfoldable pub enter : Disk → ℕ → ℕ → ℕ → CString → FileType → ℕ → Disk
enter d cur entry k name type mode =
    let allocated = allocate_inode d k in
    let named = record allocated {
      memory = store16 (strcpy allocated.memory entry name) (inode_num_address entry) k;
    } in
    let typed = set_inode named k (record (named.inodes k) { type = type; access = mode }) in
    set_inode typed cur (record (typed.inodes cur) { size = add32 (typed.inodes cur).size 16 })

unfoldable pub rd_create : Disk → CString → FileType → ℕ → ℤ × Disk
rd_create d pathname type mode =
    if d.free_inodes == 0
    then (failure, d)
    else if d.free_blocks == 0
    then (failure, d)
    else let parsed = parse_absolute_path pathname in
      elim (my_find_inode_number d parsed.current_dir) [
        | none ↦ (failure, d)
        | some cur ↦
            let (next, d') = get_next_entry d cur in
            elim next [
              | none ↦ (failure, d')
              | some entry ↦ elim (get_free_inode_num d') [
                | none ↦ (failure, d')
                | some k ↦ (success, enter d' cur entry k parsed.filename type mode)
              ]
            ]
      ]

-- The root is made while no inode is taken; any other directory is a file of type "dir", mode 1.
unfoldable pub rd_mkdir : Disk → CString → ℤ × Disk
rd_mkdir d pathname =
    if same pathname root
    then (if d.free_inodes == max_num_file
        then (
          success,
          set_inode (record d { free_inodes = sub32 d.free_inodes 1 }) 0
              (record (d.inodes 0) { type = FileType.dir }),
        )
        else (failure, d))
    else rd_create d pathname FileType.dir 1

abbrev pub blank_process : Process
blank_process = record { pid = 0; file_objects = λ _. blank_object }

-- `vmalloc` is taken to succeed; the code would write to a NULL block before it tests for one.
-- `read_buffer` is a global that this call leaves alone.
unfoldable pub init_file_sys : Mem → ℤ × System
init_file_sys buffer =
    let zeroed : Disk = record {
      free_blocks = data_blocks_num;
      free_inodes = max_num_file;
      inodes = λ _. blank_inode;
      bitmap = λ _. 0;
      memory = λ _. 0;
    } in
    let (status, d) = rd_mkdir zeroed root in
    (status, record { disk = d; processes = λ _. blank_process; read_buffer = buffer })

-- The end of `rd_unlink`, for the file `k` named `name` in the directory `cur`.
unfoldable pub remove : Disk → ℕ → ℕ → CString → Disk
remove d k cur name =
    let cleared = clear_entry_in_current_dir (my_clear_inode d k) cur name in
    let shrunk =
      set_inode cleared cur
        (record (cleared.inodes cur) { size = sub32 (cleared.inodes cur).size 16 }) in
    record (set_inode shrunk k blank_inode) { free_inodes = add32 shrunk.free_inodes 1 }

unfoldable pub rd_unlink : Disk → CString → ℤ × Disk
rd_unlink d pathname =
    if same pathname root then (failure, d) else elim (my_find_inode_number d pathname) [
      | none ↦ (failure, d)
      | some k ↦
          if is_dir (d.inodes k).type && ltb 0 (d.inodes k).size
          then (failure, d)
          else let parsed = parse_absolute_path pathname in
            elim (my_find_inode_number d parsed.current_dir) [
              | none ↦ (failure, d)
              | some cur ↦ (success, remove d k cur parsed.filename)
            ]
    ]

unfoldable pub rd_chmod : Disk → CString → ℕ → ℤ × Disk
rd_chmod d pathname mode =
    if same pathname root then (failure, d) else elim (my_find_inode_number d pathname) [
      | none ↦ (failure, d)
      | some k ↦ (success, set_inode d k (record (d.inodes k) { access = mode }))
    ]
