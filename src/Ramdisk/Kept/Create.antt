-- ===== src/Ramdisk/Kept/Create.antt =====
-- `init_file_sys`, `rd_create` and `rd_mkdir` of kernelspace/discos.c and an invariant of the disk.
use file_system_toy_os.Prelude.{sub32, ℕ, refl, ◌==◌, Bool-cases, Option-cases, inl, inr}
use file_system_toy_os.Ramdisk.Memory.{CString}
use file_system_toy_os.Ramdisk.Disk.{Disk, FileType}
use file_system_toy_os.Ramdisk.Bitmap.{get_free_inode_num, allocate_inode}
use file_system_toy_os.Ramdisk.Path.{same, root, parse_absolute_path}
use file_system_toy_os.Ramdisk.Lookup.{my_find_inode_number}
use file_system_toy_os.Ramdisk.Entry.{get_next_entry}
use file_system_toy_os.Ramdisk.Tree.{enter, rd_create, rd_mkdir}
use file_system_toy_os.Ramdisk.Kept.{IsKept}
use file_system_toy_os.Ramdisk.Kept.Entries.{get_next_entry-KeptAt}

module _ (P : Disk → Type 0) (kept : IsKept P) where
  enter_keeps :
      (d : Disk) (cur entry k : ℕ) (name : CString) (type : FileType) (mode : ℕ)
      → P d
      → P (enter d cur entry k name type mode)
  unfolding enter allocate_inode
  enter_keeps d cur entry k name type mode c =
      let taken =
        kept.blank (record d { free_inodes = sub32 d.free_inodes 1 }) k (kept.free_inodes d _ c) in
      kept.inode _ cur _ refl (kept.inode _ k _ refl (kept.memory _ _ taken))

  -- The invariant is kept by any rd_create, whatever it returns and whichever blocks the directory takes.
  pub rd_create_keeps :
      (d : Disk) (path : CString) (type : FileType) (mode : ℕ)
      → P d
      → P (rd_create d path type mode).1
  unfolding rd_create
  rd_create_keeps d path type mode c = elim (Bool-cases (d.free_inodes == 0)) [
    | inl e ↦ rw (e, rd_create) c
    | inr e ↦ elim (Bool-cases (d.free_blocks == 0)) [
      | inl e₁ ↦ rw (e, e₁, rd_create) c
      | inr e₁ ↦
          elim (Option-cases (my_find_inode_number d (parse_absolute_path path).current_dir)) [
            | inl e₂ ↦ rw (e, e₁, e₂, rd_create) c
            | inr (cur, e₂) ↦ elim (Option-cases (get_next_entry d cur).0) [
              | inl e₃ ↦ rw (e, e₁, e₂, e₃, rd_create) (get_next_entry-KeptAt P kept d cur c)
              | inr (entry, e₃) ↦
                  elim (Option-cases (get_free_inode_num (get_next_entry d cur).1)) [
                    | inl e₄ ↦
                        rw (e, e₁, e₂, e₃, e₄, rd_create) (get_next_entry-KeptAt P kept d cur c)
                    | inr (k, e₄) ↦
                        rw (e, e₁, e₂, e₃, e₄, rd_create)
                          (enter_keeps _ cur entry k (parse_absolute_path path).filename type mode
                            (get_next_entry-KeptAt P kept d cur c))
                  ]
            ]
          ]
    ]
  ]

  -- It is kept by any rd_mkdir, whatever it returns.
  pub rd_mkdir_keeps : (d : Disk) (path : CString) → P d → P (rd_mkdir d path).1
  unfolding rd_mkdir
  rd_mkdir_keeps d path c = elim (Bool-cases (same path root)) [
    | inl e ↦ elim (Bool-cases (d.free_inodes == 1024)) [
      | inl e₁ ↦ rw (e, e₁, rd_mkdir) (kept.inode _ 0 _ refl (kept.free_inodes d _ c))
      | inr e₁ ↦ rw (e, e₁, rd_mkdir) c
    ]
    | inr e ↦ rw (e, rd_mkdir) (rd_create_keeps d path FileType.dir 1 c)
  ]
