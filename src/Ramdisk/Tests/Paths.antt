-- ===== src/Ramdisk/Tests/Paths.antt =====
-- The theorems on names and paths, and on opening a file by its path.
use file_system_toy_os.Prelude.{◌≡◌, refl, arith, some, [], ◌∷◌, false, success}
use file_system_toy_os.Ramdisk.Memory.{CString, load16, streq}
use file_system_toy_os.Ramdisk.Disk.{read_write, Disk, read_only}
use file_system_toy_os.Ramdisk.Path.{drop, same, tokens, root, parse_absolute_path}
use file_system_toy_os.Ramdisk.Path.Split.{NoSlash}
use file_system_toy_os.Ramdisk.Memory.Names.{NoNul}
use file_system_toy_os.Prelude.Loops.{find_from, first_some}
use file_system_toy_os.Ramdisk.Lookup.{
  walk, find_in_direct, step_to, find_in_block, find_component, my_find_inode_number,
}
use file_system_toy_os.Ramdisk.Lookup.Resolve.{and_then, my_find_inode_number_lem}
use file_system_toy_os.Ramdisk.File.{access_denied, rd_open}
use file_system_toy_os.Ramdisk.File.Open.{OpenResult, rd_open_lem}
use file_system_toy_os.Ramdisk.Entry.{set_inode}
use file_system_toy_os.Ramdisk.Tree.{rd_chmod}
use file_system_toy_os.Ramdisk.File.Rights.{Decided, rd_open-rd_chmod}
use file_system_toy_os.Ramdisk.Tests.Samples.{sample_disk, sample_system, sample_system-IsShared}

-- "/b" and "cd"
abbrev sample_dir : CString
sample_dir = 47 ∷ 98 ∷ []

abbrev sample_name : CString
sample_name = 99 ∷ 100 ∷ []

sample_name-NoSlash : NoSlash sample_name
sample_name-NoSlash = ((λ e. omega (arith, e)), ((λ e. omega (arith, e)), tt))

sample_name-NoNul : NoNul sample_name
sample_name-NoNul = ((λ e. omega (arith, e)), ((λ e. omega (arith, e)), tt))

my_find_inode_number_example :
    my_find_inode_number sample_disk (47 ∷ 98 ∷ 47 ∷ 99 ∷ 100 ∷ [])
    ≡ and_then
        (my_find_inode_number sample_disk
          (parse_absolute_path (47 ∷ 98 ∷ 47 ∷ 99 ∷ 100 ∷ [])).current_dir)
        (find_component sample_disk (parse_absolute_path (47 ∷ 98 ∷ 47 ∷ 99 ∷ 100 ∷ [])).filename)
my_find_inode_number_example =
    my_find_inode_number_lem sample_disk sample_name sample_name-NoSlash (λ e. cc) sample_dir refl

-- "/a"
abbrev sample_path : CString
sample_path = 47 ∷ 97 ∷ []

sample_found : my_find_inode_number sample_disk sample_path ≡ some 1
unfolding my_find_inode_number same drop tokens walk find_component find_in_direct first_some
    step_to find_in_block find_from streq load16
sample_found = refl

sample_not_root : same sample_path root ≡ false
unfolding same
sample_not_root = refl

sample_allowed : access_denied read_write (sample_disk.inodes 1).access ≡ false
unfolding access_denied
sample_allowed = refl

rd_open_example :
    OpenResult sample_system 1 read_write (rd_open sample_system sample_path read_write 200)
rd_open_example =
    rd_open_lem sample_system-IsShared sample_path read_write 200 1 sample_not_root sample_found
      sample_allowed

abbrev sample_read_only : Disk
sample_read_only = set_inode sample_disk 1 (record (sample_disk.inodes 1) { access = read_only })

sample_chmod : rd_chmod sample_disk sample_path read_only ≡ (success, sample_read_only)
unfolding rd_chmod
sample_chmod = rw (sample_not_root, sample_found, rd_chmod) refl

rd_open-rd_chmod_example :
    Decided
      (record sample_system { disk = sample_read_only })
      sample_path
      read_write
      read_only
      (rd_open (record sample_system { disk = sample_read_only }) sample_path read_write 200)
rd_open-rd_chmod_example =
    rd_open-rd_chmod sample_system sample_read_only sample_path read_only read_write 200
      sample_system-IsShared sample_chmod
