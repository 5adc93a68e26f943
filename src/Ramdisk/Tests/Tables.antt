-- ===== src/Ramdisk/Tests/Tables.antt =====
-- The theorems on the tables of open files at one system.
use file_system_toy_os.Prelude.{[], ◌∷◌, ℕ, ◌≡◌, refl, arith, pos, some, success, failure}
use file_system_toy_os.Ramdisk.Tree.{rd_mkdir, init_file_sys}
use file_system_toy_os.Ramdisk.Memory.{Mem}
use file_system_toy_os.Ramdisk.Disk.{System, blank_object}
use file_system_toy_os.Ramdisk.Table.{get_fd_table, set_object}
use file_system_toy_os.Ramdisk.Table.Shared.{IsShared}
use file_system_toy_os.Ramdisk.File.{rd_lseek, rd_close}
use file_system_toy_os.Ramdisk.File.Close.{rd_close_twice}
use file_system_toy_os.Ramdisk.File.Seek.{IsSought, moved, rd_lseek_lem, rd_lseek-empty}
use file_system_toy_os.Ramdisk.Table.Steps.{IsShared-disk, preprocess-ok}
use file_system_toy_os.Ramdisk.Reach.{Reached, Operation, Reached-IsShared, get_fd_table-Reached}
use file_system_toy_os.Ramdisk.Sound.{IsSound}
use file_system_toy_os.Ramdisk.Sound.Operations.{Reached-IsSound}
use file_system_toy_os.Ramdisk.Tests.Samples.{
  sample_disk, sample_file, sample_system, sample_system-IsShared,
}

abbrev no_copy : Mem → ℕ → Mem → ℕ → ℕ → Mem
no_copy user dst buffer src n = user

abbrev sample_start : System
sample_start = (init_file_sys (λ _. 0)).1

abbrev sample_later : System
sample_later = record sample_start { disk = (rd_mkdir sample_start.disk (47 ∷ 100 ∷ [])).1 }

-- A directory is made in the root, and a number is closed that is not open.
abbrev sample_reached : Reached no_copy (rd_close sample_later 3 100).1
sample_reached =
    Reached.then_do (Reached.then_do (Reached.start (λ _. 0)) (Operation.mkdir (47 ∷ 100 ∷ [])))
      (Operation.close 3 100)

Reached-IsShared_example : IsShared (rd_close sample_later 3 100).1
Reached-IsShared_example = Reached-IsShared sample_reached

Reached-IsSound_example : IsSound (rd_close sample_later 3 100).1.disk
Reached-IsSound_example = Reached-IsSound sample_reached tt

get_fd_table-Reached_example : get_fd_table (rd_close sample_later 3 100).1 8 ≡ some 0
get_fd_table-Reached_example = get_fd_table-Reached sample_reached 8

closes : rd_close sample_system 0 100 ≡ (success, set_object sample_system 0 0 blank_object)
unfolding rd_close
closes = rw (preprocess-ok sample_system-IsShared 0 100 1 (omega arith) refl refl refl, rd_close)

rd_close_twice_example :
    (rd_close (set_object sample_system 0 0 blank_object) 0 200
      ≡ (failure, set_object sample_system 0 0 blank_object))
    × (rd_lseek (set_object sample_system 0 0 blank_object) 0 (pos 3) 200
        ≡ (failure, set_object sample_system 0 0 blank_object))
rd_close_twice_example =
    rd_close_twice sample_system-IsShared 0 100 (set_object sample_system 0 0 blank_object) closes
      200 (pos 3)

rd_lseek_example : (c : ℕ) × IsSought sample_system 0 100 9 5 c
rd_lseek_example =
    rd_lseek_lem sample_system-IsShared 0 100 1 (omega arith) refl refl refl 9 (omega arith)
      (omega arith)

-- The file 1, with no bytes in it.
abbrev emptied_system : System
emptied_system = record sample_system {
  disk = record sample_disk { inodes = λ n. record sample_file { size = 0 } };
}

emptied_system-IsShared : IsShared emptied_system
emptied_system-IsShared = IsShared-disk _ _ sample_system-IsShared

rd_lseek-empty_example :
    rd_lseek emptied_system 0 (pos 9) 100 ≡ (failure, moved emptied_system 0 4294967295)
rd_lseek-empty_example =
    rd_lseek-empty emptied_system-IsShared 0 100 1 (omega arith) refl refl refl 9 refl
