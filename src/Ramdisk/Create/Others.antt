-- ===== src/Ramdisk/Create/Others.antt =====
-- What `rd_create` of kernelspace/discos.c does to the other names.
use file_system_toy_os.Prelude.{ℕ, ◌<◌, ◌≡◌, ◌≢◌, ◌⊎◌, ap, ◌∙◌, false, arith}
use file_system_toy_os.Ramdisk.Memory.{CString}
use file_system_toy_os.Ramdisk.Path.{same, parse_absolute_path}
use file_system_toy_os.Ramdisk.Disk.{FileType, Disk}
use file_system_toy_os.Ramdisk.Lookup.{find_component}
use file_system_toy_os.Ramdisk.Sound.{IsSound}
use file_system_toy_os.Ramdisk.Tree.{rd_create}
use file_system_toy_os.Ramdisk.Create.Named.{IsName}
use file_system_toy_os.Ramdisk.Create.FreeInode.{get_free_inode_num-IsUnused}
use file_system_toy_os.Ramdisk.Create.Found.{CanCreate, rd_create-Created}
use file_system_toy_os.Ramdisk.Create.Added.{find_component-after}
use file_system_toy_os.Ramdisk.Create.Tidy.{IsTidy}

-- Under the conditions of rd_create-Created, on a disk on which no two files share a block
-- (IsSound): let a directory n, not the new inode, have no indirect blocks, and none of its
-- free entries bear a name o, which is not empty, has no NUL and at most 13 bytes; let n be
-- another directory than the one the file is made in, or o another name. Then the lookup of o
-- in n gives after rd_create what it gave before, the same inode or nothing.
pub rd_create-others :
    (d : Disk) (path : CString) (cur k : ℕ)
    → IsSound d
    → CanCreate d path cur k
    → (type : FileType) (mode n : ℕ) → n ≢ k
    → (o : CString) → IsName o
    → (n ≢ cur) ⊎ (same (parse_absolute_path path).filename o ≡ false)
    → IsTidy d n o
    → find_component (rd_create d path type mode).1 o n ≡ find_component d o n
rd_create-others d path cur k sound can type mode n differs o other apart tidy =
    let (f, e, made) = rd_create-Created d path cur k can type mode in
    let (entry, d', place, same_disk) = made.written in
    let small : k < 1024 =
      omega (arith, (get_free_inode_num-IsUnused d k can.free_inode).first.below) in
    ap (λ r. find_component r.1 o n) e
    ∙ ap (λ f'. find_component f' o n) same_disk
    ∙ find_component-after d d' sound cur entry k _ can.name place small type mode n differs o other
        apart tidy
