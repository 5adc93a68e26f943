-- ===== src/Ramdisk/Tests/Unlink.antt =====
-- Unlinking the file /a of the sample disk, in kernelspace/discos.c.
use file_system_toy_os.Prelude.{
  ℕ, ◌+◌, ◌<◌, ◌≢◌, ◌==◌, inl, inr, Bool-cases, if◌then◌else◌, ne→==, ==→eq, ◌≡◌, refl, arith, none,
  [], ◌∷◌, success, failure,
}
use file_system_toy_os.Prelude.Loops.{find_from, first_some}
use file_system_toy_os.Ramdisk.Memory.{load16, streq}
use file_system_toy_os.Ramdisk.Disk.{Disk, read_write, block_address, blank_inode}
use file_system_toy_os.Ramdisk.Path.{
  last_slash, char_at, take, drop, parse_absolute_path, tokens, same,
}
use file_system_toy_os.Ramdisk.Lookup.{
  walk, find_in_direct, step_to, find_in_block, find_component, my_find_inode_number,
}
use file_system_toy_os.Ramdisk.Tree.{rd_unlink}
use file_system_toy_os.Ramdisk.File.{rd_open}
use file_system_toy_os.Ramdisk.Unlink.{CanUnlink, Unlinked, rd_unlink-Unlinked}
use file_system_toy_os.Ramdisk.Unlink.Opened.{rd_open-rd_unlink}
use file_system_toy_os.Ramdisk.Unlink.Others.{rd_unlink-others}
use file_system_toy_os.Ramdisk.Clear.Rounds.{HasCompany}
use file_system_toy_os.Ramdisk.Sound.{IsSound}
use file_system_toy_os.Ramdisk.Clear.Drift.{IsOnlyEntry, HasOneBlock}
use file_system_toy_os.Ramdisk.Unlink.Drift.{IsBlockless, HasDrifted, rd_unlink-drift}
use file_system_toy_os.Ramdisk.Bitmap.Allocate.{IsCounted}
use file_system_toy_os.Ramdisk.Tests.Samples.{
  sample_disk, sample_system, text_at, sample_file, sample_root,
}
use file_system_toy_os.Ramdisk.Tests.Blocks.{sample_disk-IsCounted}
use file_system_toy_os.Ramdisk.Tests.Files.{sample_disk-IsSound}

sample-CanUnlink : CanUnlink sample_disk (47 ∷ 97 ∷ []) 0 1
unfolding parse_absolute_path last_slash char_at take my_find_inode_number same drop tokens walk
    find_component find_in_direct first_some step_to find_in_block find_from streq load16
sample-CanUnlink = record {
  name = record { no_nul = ((λ e. omega (arith, e)), tt); fits = omega arith; not_empty = λ e. cc };
  not_root = refl;
  found = refl;
  not_full = refl;
  leads = refl;
  differs = λ e. omega (arith, e);
  aligned = λ i lt. ground arith;
  no_single = refl;
  no_double = refl;
}

rd_unlink_example :
    (d' : Disk) × (rd_unlink sample_disk (47 ∷ 97 ∷ []) ≡ (success, d'))
    × Unlinked sample_disk d' 0 1 (parse_absolute_path (47 ∷ 97 ∷ [])).filename
rd_unlink_example = rd_unlink-Unlinked sample_disk (47 ∷ 97 ∷ []) 0 1 sample-CanUnlink

rd_open-rd_unlink_example :
    (d' : Disk) × (rd_unlink sample_disk (47 ∷ 97 ∷ []) ≡ (success, d'))
    × (my_find_inode_number d' (47 ∷ 97 ∷ []) ≡ none)
    × (rd_open (record sample_system { disk = d' }) (47 ∷ 97 ∷ []) read_write 200
        ≡ (failure, record sample_system { disk = d' }))
rd_open-rd_unlink_example =
    rd_open-rd_unlink sample_system (97 ∷ []) ((λ e. omega (arith, e)), tt) 1 sample-CanUnlink
      read_write 200

-- The same disk with an entry "b" beside "a" in the root.
abbrev two_names : Disk
two_names = record sample_disk {
  memory =
      text_at (block_address 1 + 16) (98 ∷ [])
        (text_at (block_address 1 + 30) (2 ∷ []) sample_disk.memory);
}

two_names-IsSound : IsSound two_names
two_names-IsSound = record {
  counted = record { bytes = sample_disk-IsCounted.bytes; counted = sample_disk-IsCounted.counted };
  taken = sample_disk-IsSound.taken;
  distinct = sample_disk-IsSound.distinct;
}

two_names-CanUnlink : CanUnlink two_names (47 ∷ 97 ∷ []) 0 1
unfolding parse_absolute_path last_slash char_at take my_find_inode_number same drop tokens walk
    find_component find_in_direct first_some step_to find_in_block find_from streq load16
two_names-CanUnlink = record {
  name = record { no_nul = ((λ e. omega (arith, e)), tt); fits = omega arith; not_empty = λ e. cc };
  not_root = refl;
  found = refl;
  not_full = refl;
  leads = refl;
  differs = λ e. omega (arith, e);
  aligned = λ i lt. ground arith;
  no_single = refl;
  no_double = refl;
}

two_names-HasCompany :
    (i : ℕ)
    → i < 8
    → (two_names.inodes 0).pointers i ≢ 0
    → HasCompany two_names.memory (98 ∷ []) ((two_names.inodes 0).pointers i)
unfolding load16
two_names-HasCompany i lt ne = elim (Bool-cases (i == 0)) [
  | inl e ↦
      rw (==→eq i 0 e)
        (inr (0, 1, omega arith, omega arith, (λ z. omega (arith, z)), (λ z. omega (arith, z))))
  | inr other ↦ absurd (ne (rw other refl))
]

rd_unlink-others_example :
    find_component (rd_unlink two_names (47 ∷ 97 ∷ [])).1 (98 ∷ []) 0
    ≡ find_component two_names (98 ∷ []) 0
unfolding parse_absolute_path last_slash char_at take drop same
rd_unlink-others_example =
    rd_unlink-others two_names (47 ∷ 97 ∷ []) 0 1 two_names-IsSound two_names-CanUnlink refl refl
      (98 ∷ [])
      (record { no_nul = ((λ e. omega (arith, e)), tt); fits = omega arith; not_empty = λ e. cc })
      refl two_names-HasCompany

-- The same disk with /a empty and without a block.
abbrev empty_file : Disk
empty_file = record sample_disk {
  inodes = λ n.
      if n == 1
      then record sample_file { size = 0; pointers = λ _. 0 }
      else if n == 0
      then sample_root
      else blank_inode;
}

empty_file-CanUnlink : CanUnlink empty_file (47 ∷ 97 ∷ []) 0 1
unfolding parse_absolute_path last_slash char_at take my_find_inode_number same drop tokens walk
    find_component find_in_direct first_some step_to find_in_block find_from streq load16
empty_file-CanUnlink = record {
  name = record { no_nul = ((λ e. omega (arith, e)), tt); fits = omega arith; not_empty = λ e. cc };
  not_root = refl;
  found = refl;
  not_full = refl;
  leads = refl;
  differs = λ e. omega (arith, e);
  aligned = λ i lt. ground arith;
  no_single = refl;
  no_double = refl;
}

empty_file-IsBlockless : IsBlockless empty_file 1
empty_file-IsBlockless = record { no_pointers = λ i lt. refl; no_single = refl; no_double = refl }

empty_file-IsCounted : IsCounted empty_file
empty_file-IsCounted = record {
  bytes = sample_disk-IsCounted.bytes;
  counted = sample_disk-IsCounted.counted;
}

root_block : HasOneBlock empty_file 0 0 1
root_block = record {
  index = omega arith;
  here = refl;
  others = λ m lt ne. rw (ne→== m 0 ne) refl;
  in_range = omega arith;
  marked = refl;
}

only_entry :
    IsOnlyEntry empty_file.memory (parse_absolute_path (47 ∷ 97 ∷ [])).filename (block_address 1) 0
unfolding parse_absolute_path last_slash char_at take drop streq load16
only_entry = record {
  in_block = omega arith;
  bears = refl;
  number = λ e. omega (arith, e);
  others = λ i lt ne. (ground (arith, ne), ground (arith, ne));
}

rd_unlink-drift_example : HasDrifted empty_file 1 (rd_unlink empty_file (47 ∷ 97 ∷ [])).1
rd_unlink-drift_example =
    rd_unlink-drift empty_file (47 ∷ 97 ∷ []) 0 1 empty_file-CanUnlink empty_file-IsBlockless
      empty_file-IsCounted 0 1 0 root_block only_entry
