-- ===== src/Ramdisk/Tests/Earlier.antt =====
-- Ramdisk/userspace/discos.c and kernelspace/discos.c on the path "/b/cd".
use file_system_toy_os.Prelude.{sym, ◌==◌, if◌then◌else◌, ◌≡◌, refl, false, inr, [], ◌∷◌}
use file_system_toy_os.Ramdisk.Memory.{CString}
use file_system_toy_os.Ramdisk.Disk.{FileType, read_only, read_write}
use file_system_toy_os.Ramdisk.Path.{
  root, same, tokens, parse_absolute_path, last_slash, char_at, take, drop,
}
use file_system_toy_os.Ramdisk.Tree
use file_system_toy_os.Ramdisk.File
use file_system_toy_os.Ramdisk.Earlier
use file_system_toy_os.Ramdisk.Earlier.{Leftover}
use file_system_toy_os.Ramdisk.Earlier.Agrees.{IsEnded, IsCanonical, operations-agree}
use file_system_toy_os.Ramdisk.Tests.Samples.{sample_disk, sample_system}

abbrev sample_path : CString
sample_path = 47 ∷ 98 ∷ 47 ∷ 99 ∷ 100 ∷ []

sample_path-IsCanonical : IsCanonical sample_path
unfolding tokens
sample_path-IsCanonical = (refl, inr ((λ e. cc), ((λ e. cc), tt)))

-- The buffer held "xy", a NUL, "z" and NULs.
abbrev sample_leftover : Leftover
sample_leftover i =
    if i == 0 then 120 ∷ 121 ∷ [] else if i == 1 then 121 ∷ [] else if i == 3 then 122 ∷ [] else []

sample_path-IsEnded : IsEnded sample_leftover sample_path
unfolding last_slash char_at
sample_path-IsEnded i e ne = let at : 2 ≡ i = cc in rw (sym at) refl

sample_dir-IsCanonical : IsCanonical (parse_absolute_path sample_path).current_dir
unfolding parse_absolute_path last_slash char_at take drop tokens
sample_dir-IsCanonical = (refl, inr ((λ e. cc), tt))

sample_other : same sample_path root ≡ false
unfolding same
sample_other = refl

operations-agree_example :
    (Earlier.rd_create sample_leftover sample_disk sample_path FileType.reg read_write
      ≡ Tree.rd_create sample_disk sample_path FileType.reg read_write)
    × (Earlier.rd_unlink sample_leftover sample_disk sample_path
        ≡ Tree.rd_unlink sample_disk sample_path)
    × (Earlier.rd_chmod sample_disk sample_path read_write
        ≡ Tree.rd_chmod sample_disk sample_path read_write)
    × (Earlier.rd_open sample_system sample_path read_only 100
        ≡ File.rd_open sample_system sample_path read_only 100)
    × (Earlier.rd_mkdir sample_leftover sample_disk sample_path
        ≡ Earlier.made (Tree.rd_create sample_disk sample_path FileType.dir read_write))
operations-agree_example =
    operations-agree sample_leftover sample_path sample_path-IsCanonical sample_path-IsEnded
      sample_dir-IsCanonical sample_other sample_system FileType.reg read_write read_only 100
