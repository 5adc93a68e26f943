-- ===== src/Ramdisk/Sound/Isolated.antt =====
-- What `rd_write` of kernelspace/discos.c does to the other files.
use file_system_toy_os.Prelude.{
  ℕ, ◌/◌, ◌%◌, ◌<◌, ◌≡◌, ◌≢◌, ◌∙◌, inl, inr, arith, ap, sym, refl, ◌==◌, Bool-cases, ==→ne,
}
use file_system_toy_os.Ramdisk.Memory.{Mem}
use file_system_toy_os.Ramdisk.Disk.{Disk, System}
use file_system_toy_os.Ramdisk.Contents.{byte_of, IsLaidOut, IsExtension}
use file_system_toy_os.Ramdisk.Write.{rd_write}
use file_system_toy_os.Ramdisk.Write.Direct.{CanWrite, rd_write_lem}
use file_system_toy_os.Ramdisk.Sound.{IsSound}

-- The blocks of each file are laid out.
pub IsSound-IsLaidOut : {d : Disk} → IsSound d → (n : ℕ) → IsLaidOut d n
IsSound-IsLaidOut sound n = record {
  taken = sound.taken n;
  distinct = λ i j lt lt' ne e. (sound.distinct n i n j lt lt' ne e).1;
}

module _ {d d' : Disk} {n : ℕ} (sound : IsSound d) (extends : IsExtension n d d') (m : ℕ)
    (other : m ≢ n) where
  same_bytes : (x : ℕ) → x < 2048 → byte_of d' m x ≡ byte_of d m x
  same_bytes x lt =
      let here = ap (λ f. f.pointers (x / 256)) (extends.other_inodes m other) in
      elim (Bool-cases ((d.inodes m).pointers (x / 256) == 0)) [
        | inl null ↦ rw (here, null) refl
        | inr there ↦
            let ne = ==→ne _ 0 there in
            let (k, at, _, set) = sound.taken m (x / 256) (omega arith) ne in
            rw (here, there, at)
              (extends.other_blocks k (x % 256) set
                (λ i i_lt e.
                  other (sound.distinct m (x / 256) n i (omega arith) i_lt ne (at ∙ sym e)).0)
                (omega arith))
      ]

-- On a disk on which no two files share a block (IsSound), an rd_write that takes all of its
-- data in direct blocks (CanWrite), new ones included, changes none of the first 2048 bytes of
-- any other file, blocks not there reading as zeros, and nothing in the inode of another file.
pub rd_write-isolated :
    {s : System} (fd pid t i n : ℕ) (content : Mem) (num_bytes : ℕ)
    → IsSound s.disk
    → CanWrite s fd pid t i n content num_bytes
    → (m : ℕ) → m ≢ n
    → let d = (rd_write s fd pid content num_bytes).1.disk in
      (d.inodes m ≡ s.disk.inodes m) × ((x : ℕ) → x < 2048 → byte_of d m x ≡ byte_of s.disk m x)
rd_write-isolated {s} fd pid t i n content num_bytes sound can m other =
    let (w', w) = rd_write_lem fd pid t i n content num_bytes can in
    let same = ap (λ r. r.1.disk) w.returns in
    (
      ap (λ d. d.inodes m) same ∙ w.effect.extends.other_inodes m other,
      λ x lt. ap (λ d. byte_of d m x) same ∙ same_bytes sound w.effect.extends m other x lt,
    )
