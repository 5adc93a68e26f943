-- ===== src/Ramdisk/Tests/Samples.antt =====
-- A disk for Jiaqian-Ramdisk-Final/kernelspace/discos.c: the file /a of 5 bytes is open in slot 0.
use file_system_toy_os.Prelude.{
  ◌∙◌, arith, ◌+◌, List, [], ◌∷◌, some, ◌&&◌, inl, inr, sym, ==→eq, refl, ℕ,
}
use file_system_toy_os.Prelude.Tests.{◌==◌, Bool-cases, if◌then◌else◌}
use file_system_toy_os.Ramdisk.Memory.{Mem}
use file_system_toy_os.Ramdisk.Disk.{
  FileType, Inode, blank_inode, Disk, block_address, FileObject, blank_object, System, read_write,
}
use file_system_toy_os.Ramdisk.Table.Shared.{IsShared}
use file_system_toy_os.Ramdisk.Contents.{IsLaidOut}

abbrev pub text_at : ℕ → List ℕ → Mem → Mem
text_at a [] m x = m x
text_at a (c ∷ s) m x = if x == a then c else text_at (a + 1) s m x

-- The entry of a name of one byte, 'a', with the inode 1.
abbrev pub sample_entry : Mem
sample_entry x = if x == block_address 1 then 97 else if x == block_address 1 + 14 then 1 else 0

abbrev pub sample_root : Inode
sample_root = record blank_inode {
  type = FileType.dir;
  size = 16;
  pointers = λ i. if i == 0 then block_address 1 else 0;
  access = read_write;
}

abbrev pub sample_file : Inode
sample_file = record blank_inode {
  type = FileType.reg;
  size = 5;
  pointers = λ i. if i == 0 then block_address 0 else 0;
  access = read_write;
}

-- Blocks 0 and 1 are taken. Block 0 holds the text "hello", block 1 the entries of the root.
abbrev pub sample_disk : Disk
sample_disk = record {
  free_blocks = 7929;
  free_inodes = 1022;
  inodes = λ n. if n == 1 then sample_file else if n == 0 then sample_root else blank_inode;
  bitmap = λ i. if i == 0 then 3 else 0;
  memory = text_at (block_address 0) (104 ∷ 101 ∷ 108 ∷ 108 ∷ 111 ∷ []) sample_entry;
}

abbrev pub sample_object : FileObject
sample_object = record { inode_ptr = some 1; status = read_write; cursor = 0; pos = 0; usable = 1 }

abbrev pub sample_system : System
sample_system = record {
  disk = sample_disk;
  processes = λ t. record {
    pid = 0;
    file_objects = λ i. if (t == 0) && (i == 0) then sample_object else blank_object;
  };
  read_buffer = λ _. 0;
}

pub sample_system-IsShared : IsShared sample_system
sample_system-IsShared = record {
  pids = λ t. refl;
  slots = λ i. elim (Bool-cases (i == 0)) [
    | inl e ↦ rw e (inr (refl, sym (==→eq i 0 e), λ e'. cc))
    | inr e ↦ rw e (inl (refl, refl, refl))
  ];
}

-- The file's only block is block 0.
pub sample_disk-IsLaidOut : IsLaidOut sample_disk 1
sample_disk-IsLaidOut = record {
  taken = λ i lt ne. elim (Bool-cases (i == 0)) [
    | inl e ↦ (0, rw e refl, omega arith, refl)
    | inr e ↦ absurd (ne (rw e refl))
  ];
  distinct = λ i j i_lt j_lt ne e. elim (Bool-cases (i == 0)) [
    | inl a ↦ elim (Bool-cases (j == 0)) [
      | inl b ↦ ==→eq i 0 a ∙ sym (==→eq j 0 b)
      | inr b ↦ absurd (ne (e ∙ rw b refl))
    ]
    | inr a ↦ absurd (ne (rw a refl))
  ];
}
