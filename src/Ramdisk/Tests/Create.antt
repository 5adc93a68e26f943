-- ===== src/Ramdisk/Tests/Create.antt =====
-- Making a file in kernelspace/discos.c, and opening it.
use file_system_toy_os.Prelude.{
  ℕ, ◌⊎◌, ◌<◌, pos, failure, false, ◌≡◌, refl, arith, some, [], ◌∷◌, inr, success,
}
use file_system_toy_os.Prelude.Loops.{find_from}
use file_system_toy_os.Ramdisk.Memory.{Mem, streq, load16}
use file_system_toy_os.Ramdisk.Disk.{FileType, Disk, read_write}
use file_system_toy_os.Ramdisk.Path.{
  last_slash, char_at, take, drop, parse_absolute_path, tokens, same,
}
use file_system_toy_os.Ramdisk.Bitmap.{
  first_clear_bit, get_free_block_num_from_bitmap, new_block, get_free_inode_num,
}
use file_system_toy_os.Ramdisk.Lookup.{my_find_inode_number, find_component}
use file_system_toy_os.Ramdisk.Tree.{rd_create}
use file_system_toy_os.Ramdisk.File.{access_denied, rd_open}
use file_system_toy_os.Ramdisk.File.Open.{OpenResult, InUse}
use file_system_toy_os.Ramdisk.Create.Place.{IsWithout}
use file_system_toy_os.Ramdisk.Create.Found.{CanCreate, Created, rd_create-Created}
use file_system_toy_os.Ramdisk.Create.Tidy.{IsTidy}
use file_system_toy_os.Ramdisk.Create.Others.{rd_create-others}
use file_system_toy_os.Ramdisk.Create.Opened.{rd_open-rd_create}
use file_system_toy_os.Ramdisk.NewFile.{IsData, HoldsData, created_file_holds}
use file_system_toy_os.Ramdisk.Tests.Blocks.{sample_disk-IsCounted}
use file_system_toy_os.Ramdisk.Tests.Files.{sample_disk-IsSound, byte_copy, byte_copy-Copies}
use file_system_toy_os.Ramdisk.Tests.Samples.{sample_disk, sample_system, sample_system-IsShared}

-- The sample disk has the entry "a" in block 1; "/cd" is to be made.
sample-IsWithout : IsWithout sample_disk 0 (99 ∷ 100 ∷ [])
unfolding streq
sample-IsWithout = record {
  aligned = λ i lt. ground arith;
  absent = λ i lt there j j_lt. ground arith;
}

sample-CanCreate : CanCreate sample_disk (47 ∷ 99 ∷ 100 ∷ []) 0 2
unfolding parse_absolute_path last_slash char_at take drop my_find_inode_number same tokens
    get_free_inode_num find_from new_block get_free_block_num_from_bitmap first_clear_bit load16
sample-CanCreate = record {
  name = record {
    no_nul = ((λ e. omega (arith, e)), ((λ e. omega (arith, e)), tt));
    fits = omega arith;
    not_empty = λ e. cc;
  };
  inodes_left = λ e. omega (arith, e);
  blocks_left = λ e. omega (arith, e);
  free_inode = refl;
  free_block = λ e. cc;
  leads = refl;
  directory = refl;
  without = sample-IsWithout;
  block = 0;
  from = omega arith;
  below = omega arith;
  room = inr (1, omega arith, refl);
}

rd_create_example :
    (f : Disk) × (rd_create sample_disk (47 ∷ 99 ∷ 100 ∷ []) FileType.reg read_write ≡ (success, f))
    × Created sample_disk f 0 2
        (parse_absolute_path (47 ∷ 99 ∷ 100 ∷ [])).filename
        FileType.reg
        read_write
rd_create_example =
    rd_create-Created sample_disk (47 ∷ 99 ∷ 100 ∷ []) 0 2 sample-CanCreate FileType.reg read_write

allowed : access_denied read_write read_write ≡ false
unfolding access_denied
allowed = refl

rd_open-rd_create_example :
    (f : Disk) × (rd_create sample_disk (47 ∷ 99 ∷ 100 ∷ []) FileType.reg read_write ≡ (success, f))
    × (my_find_inode_number f (47 ∷ 99 ∷ 100 ∷ []) ≡ some 2)
    × OpenResult
        (record sample_system { disk = f })
        2
        read_write
        (rd_open (record sample_system { disk = f }) (47 ∷ 99 ∷ 100 ∷ []) read_write 200)
rd_open-rd_create_example =
    rd_open-rd_create sample_system (99 ∷ 100 ∷ [])
      ((λ e. omega (arith, e)), ((λ e. omega (arith, e)), tt)) 2 sample-CanCreate FileType.reg
      read_write read_write 200 sample_system-IsShared allowed

abbrev sample_data : Mem
sample_data _ = 97

sample-IsData : IsData sample_disk sample_data 2048
sample-IsData = record {
  positive = omega arith;
  within = omega arith;
  no_nul = λ k lt e. omega (arith, e);
  free = omega arith;
}

created_file_holds_example :
    (f : Disk) × (rd_create sample_disk (47 ∷ 99 ∷ 100 ∷ []) FileType.reg read_write ≡ (success, f))
    × (let (status, s') =
          rd_open (record sample_system { disk = f }) (47 ∷ 99 ∷ 100 ∷ []) read_write 200 in
        ((fd : ℕ) × (status ≡ pos fd) × HoldsData byte_copy s' fd 200 sample_data 2048 (λ _. 0) 50)
        ⊎ ((status ≡ failure) × ((i : ℕ) → i < 1024 → InUse sample_system i)))
created_file_holds_example =
    created_file_holds sample_system 2 read_write read_write 200 sample_data 2048 sample-IsData
      sample_disk-IsCounted (λ e. omega (arith, e)) (λ e. omega (arith, e)) (99 ∷ 100 ∷ [])
      ((λ e. omega (arith, e)), ((λ e. omega (arith, e)), tt)) sample-CanCreate
      sample_system-IsShared allowed byte_copy byte_copy-Copies (λ _. 0) 50

-- The entry "a" of the root is not touched when "/cd" is made.
sample-IsTidy : IsTidy sample_disk 0 (97 ∷ [])
unfolding streq load16
sample-IsTidy = record {
  no_single = refl;
  no_double = refl;
  unnamed = λ i j lt j_lt ne free. ground (arith, free);
}

rd_create-others_example :
    find_component
      (rd_create sample_disk (47 ∷ 99 ∷ 100 ∷ []) FileType.reg read_write).1
      (97 ∷ [])
      0
    ≡ find_component sample_disk (97 ∷ []) 0
unfolding parse_absolute_path last_slash char_at take drop same
rd_create-others_example =
    rd_create-others sample_disk (47 ∷ 99 ∷ 100 ∷ []) 0 2 sample_disk-IsSound sample-CanCreate
      FileType.reg read_write 0 (λ e. omega (arith, e)) (97 ∷ [])
      (record { no_nul = ((λ e. omega (arith, e)), tt); fits = omega arith; not_empty = λ e. cc })
      (inr refl) sample-IsTidy
