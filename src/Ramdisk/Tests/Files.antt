-- ===== src/Ramdisk/Tests/Files.antt =====
-- The theorems on reading and writing at one system.
use file_system_toy_os.Prelude.{
  ◌<◌, inr, inl, ◌⊎◌, ◌≢◌, ◌∙◌, sym, ◌==◌, ℕ, ◌+◌, ◌-◌, ◌≡◌, refl, arith, if◌then◌else◌, pos, some,
  leb, ltb, ◌&&◌,
}
use file_system_toy_os.Ramdisk.Memory.{Mem}
use file_system_toy_os.Ramdisk.Disk.{System, block_address}
use file_system_toy_os.Ramdisk.Table.{set_object}
use file_system_toy_os.Ramdisk.Contents.{byte_of}
use file_system_toy_os.Ramdisk.Tests.Blocks.{sample_disk-IsCounted}
use file_system_toy_os.Ramdisk.Table.Shared.{IsShared, find_file_object-slot}
use file_system_toy_os.Ramdisk.Table.Steps.{preprocess-ok}
use file_system_toy_os.Ramdisk.Write.{rd_write}
use file_system_toy_os.Ramdisk.Write.Stages.{Writing}
use file_system_toy_os.Ramdisk.Write.Direct.{CanWrite, WritesAll, rd_write_lem}
use file_system_toy_os.Ramdisk.Earlier.Read as Earlier
use file_system_toy_os.Ramdisk.Earlier.Read.{rd_read-strcpy}
use file_system_toy_os.Ramdisk.Read.Direct.{Copies, CanRead, ReadsAll, rd_read_lem}
use file_system_toy_os.Ramdisk.RoundTrip.{seek_and_read, read_of_written}
use file_system_toy_os.Ramdisk.Sound.{IsSound, pointer_of}
use file_system_toy_os.Ramdisk.Sound.Isolated.{rd_write-isolated}
use file_system_toy_os.Ramdisk.Tests.Samples.{
  sample_object, sample_disk, sample_system, sample_system-IsShared, sample_disk-IsLaidOut,
  sample_file,
}

-- A copy of bytes, as `copy_to_user` makes it.
abbrev pub byte_copy : Mem → ℕ → Mem → ℕ → ℕ → Mem
byte_copy user dst buffer src n x =
    if leb dst x && ltb x (dst + n) then buffer (src + (x - dst)) else user x

pub byte_copy-Copies : Copies byte_copy
byte_copy-Copies user dst buffer src n x = refl

-- Data for two blocks, of which the file has one.
abbrev sample_content : Mem
sample_content _ = 97

sample-CanWrite : CanWrite sample_system 0 100 0 0 1 sample_content 300
sample-CanWrite = record {
  found = find_file_object-slot sample_system-IsShared 100 0 (omega arith) refl;
  inode = refl;
  regular = refl;
  file_rights = λ e. omega (arith, e);
  open_rights = λ e. omega (arith, e);
  positive = omega arith;
  within = omega arith;
  aligned = inr refl;
  no_nul = λ k lt e. omega (arith, e);
  room = omega arith;
  laid = sample_disk-IsLaidOut;
  counted = sample_disk-IsCounted;
  free = omega arith;
}

rd_write_example :
    (w' : Writing) × WritesAll sample_system 0 100 0 0 1 sample_content 300
      (record { disk = sample_disk; cursor = 0; written = 0 })
      w'
rd_write_example = rd_write_lem 0 100 0 0 1 sample_content 300 sample-CanWrite

-- The file is inode 1, its block 0; the root is inode 0, its block 1.
sample_pointers :
    (n i : ℕ)
    → pointer_of sample_disk n i ≢ 0
    → ((n ≡ 1) × (i ≡ 0) × (pointer_of sample_disk n i ≡ block_address 0))
      ⊎ ((n ≡ 0) × (i ≡ 0) × (pointer_of sample_disk n i ≡ block_address 1))
sample_pointers n i ne = ground arith

pub sample_disk-IsSound : IsSound sample_disk
sample_disk-IsSound = record {
  counted = sample_disk-IsCounted;
  taken = λ n i lt ne. elim (sample_pointers n i ne) [
    | inl (_, _, at) ↦ (0, at, omega arith, refl)
    | inr (_, _, at) ↦ (1, at, omega arith, refl)
  ];
  distinct = λ n i m j lt lt' ne e. elim (sample_pointers n i ne) [
    | inl (a, b, at) ↦ elim (sample_pointers m j (λ z. ne (e ∙ z))) [
      | inl (a', b', at') ↦ (a ∙ sym a', b ∙ sym b')
      | inr (_, _, at') ↦ absurd (omega (arith, at, at', e))
    ]
    | inr (a, b, at) ↦ elim (sample_pointers m j (λ z. ne (e ∙ z))) [
      | inl (_, _, at') ↦ absurd (omega (arith, at, at', e))
      | inr (a', b', at') ↦ (a ∙ sym a', b ∙ sym b')
    ]
  ];
}

rd_write-isolated_example :
    let d = (rd_write sample_system 0 100 sample_content 300).1.disk in
    (d.inodes 0 ≡ sample_disk.inodes 0)
    × ((x : ℕ) → x < 2048 → byte_of d 0 x ≡ byte_of sample_disk 0 x)
rd_write-isolated_example =
    rd_write-isolated 0 100 0 0 1 sample_content 300 sample_disk-IsSound sample-CanWrite 0
      (λ e. omega (arith, e))

read_of_written_example :
    (s'' : System) × (user' : Mem) × (seek_and_read byte_copy
        (rd_write sample_system 0 100 sample_content 300).1
        0
        0
        (λ _. 0)
        50
        300
        200
      ≡ some (pos 300, s'', user'))
    × ((x : ℕ) → user' x ≡ (if leb 50 x && ltb x (50 + 300) then sample_content (x - 50) else 0))
read_of_written_example =
    read_of_written sample_system-IsShared 0 100 1 sample_content 300 sample-CanWrite (omega arith)
      refl (omega arith) byte_copy byte_copy-Copies (λ _. 0) 50 200

-- A file of 600 bytes in three blocks.
abbrev long_system : System
long_system = record sample_system {
  disk = record sample_disk {
    inodes = λ n. record sample_file { size = 600; pointers = block_address };
    memory = λ _. 97;
  };
}

long_system-IsShared : IsShared long_system
long_system-IsShared = record {
  pids = sample_system-IsShared.pids;
  slots = sample_system-IsShared.slots;
}

sample-CanRead : CanRead long_system 0 100 0 0 1 600
sample-CanRead = record {
  checked = preprocess-ok long_system-IsShared 0 100 1 (omega arith) refl refl refl;
  positive = omega arith;
  within = omega arith;
  aligned = inr refl;
  in_file = omega arith;
  small = omega arith;
  no_nul = λ k lt. ground arith;
}

rd_read_example :
    (buffer : Mem) × (user' : Mem) × ReadsAll long_system 0 100 0 0 1 600 sample-CanRead byte_copy
      (λ _. 0)
      50
      buffer
      user'
rd_read_example =
    rd_read_lem long_system 0 100 0 0 1 600 sample-CanRead byte_copy byte_copy-Copies (λ _. 0) 50

rd_read-strcpy_example :
    (user' : Mem) × (Earlier.rd_read (λ _. 9) long_system 0 (λ _. 7) 50 600 100
      ≡ some (pos 600, set_object long_system 0 0 (record sample_object { cursor = 600 }), user'))
    × ((x : ℕ)
        → user' x ≡ (
            if leb 50 x && ltb x (50 + 600)
            then byte_of long_system.disk 1 (0 + (x - 50))
            else if x == 50 + 600
            then 0
            else 7))
rd_read-strcpy_example =
    rd_read-strcpy long_system 0 100 0 0 1 600 sample-CanRead (λ _. 9) (λ _. 7) 50 (omega arith)
