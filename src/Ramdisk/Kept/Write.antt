-- ===== src/Ramdisk/Kept/Write.antt =====
-- `rd_write` of kernelspace/discos.c as a whole and the count of free blocks.
use file_system_toy_os.Ramdisk.Disk.{Disk, System, read_only}
use file_system_toy_os.Prelude.{
  ℕ, ◌-◌, ◌/◌, ◌%◌, refl, Bool, ◌&&◌, ◌||◌, Option, none, some, ltb, leb, ◌==◌, Bool-cases,
  Option-cases, inl, inr, ℤ, pos, failure,
}
use file_system_toy_os.Prelude.Loops.{Step, next, done, for_until, Ends, for_until_inv}
use file_system_toy_os.Ramdisk.Memory.{Mem}
use file_system_toy_os.Ramdisk.Bitmap.{is_dir}
use file_system_toy_os.Ramdisk.Table.{object_at, find_file_object}
use file_system_toy_os.Ramdisk.Write.{write_stages, rd_write}
use file_system_toy_os.Ramdisk.Write.Stages.{
  Writing, Outcome, write_direct, double_of, write_single, write_double_block, write_double,
}
use file_system_toy_os.Ramdisk.Kept.{IsKept}
use file_system_toy_os.Ramdisk.Kept.WriteStages.{
  KeptAfter, KeptWith, double_of-KeptWith, write_direct-KeptAfter, write_single-KeptAfter,
  write_double_block-DoubleAfter,
}

module _ (P : Disk → Type 0) (kept : IsKept P) where
  -- The count is right on the disk that is left when the function returns.
  abbrev KeptAt : ℤ × Writing → Type 0
  KeptAt r = P r.1.disk

  module _ (content : Mem) (num_bytes n : ℕ) where
    -- The returns behind the last loop.
    last_return :
        (o : Step (Writing × ℕ) (ℤ × Writing))
        → Ends (λ p. P p.0.disk) (λ r. P r.1.disk) o
        → KeptAt (elim o [ done r ↦ r | next (w, _) ↦ (pos 0, w) ])
    last_return (next (w, seg)) c = c
    last_return (done r) c = c

    write_double-KeptAt : (w : Writing) → P w.disk → KeptAt (write_double content num_bytes n w)
    unfolding write_double
    write_double-KeptAt w c =
        let size = (w.disk.inodes n).size in
        elim (Bool-cases (leb 72 (size / 256) && ltb (size / 256) 4168)) [
          | inl here ↦
              rw (here, write_double)
                (by_index (size % 256) (size / 256 - 72) (double_of n w)
                  (double_of-KeptWith P kept content num_bytes n w c))
          | inr past ↦ rw (past, write_double) c
        ]
      where
        by_index :
            (offset seg : ℕ) (o : Option (ℕ × Writing))
            → KeptWith P o
            → KeptAt (elim o [
              | none ↦ (failure, w)
              | some (double, w') ↦
                  elim (for_until 64 0
                    (write_double_block content num_bytes n double offset)
                    (w', seg)) [ done r ↦ r | next (w'', _) ↦ (pos 0, w'') ]
            ])
        by_index offset seg none h = c
        by_index offset seg (some (double, w')) h = last_return _ (
            for_until_inv (λ k p. P p.0.disk) (λ r. P r.1.disk)
              (write_double_block content num_bytes n double offset) 64 0 64 (w', seg) refl
              (λ j t a b p.
                write_double_block-DoubleAfter P kept content num_bytes n double offset j t p)
              h)

    -- A stage, then what follows it if it does not return.
    then_stage :
        (o : Outcome) (rest : Writing → ℤ × Writing)
        → KeptAfter P o
        → ((w : Writing) → P w.disk → KeptAt (rest w))
        → KeptAt (elim o [ done r ↦ r | next w ↦ rest w ])
    then_stage (next w) rest c keep = keep w c
    then_stage (done r) rest c keep = c

    write_stages-KeptAt : (w : Writing) → P w.disk → KeptAt (write_stages content num_bytes n w)
    unfolding write_stages
    write_stages-KeptAt w c =
        then_stage (write_direct content num_bytes n w) _
          (write_direct-KeptAfter P kept content num_bytes n w c)
          (λ w' c'.
            then_stage (write_single content num_bytes n w') _
              (write_single-KeptAfter P kept content num_bytes n w' c')
              (λ w'' c''. write_double-KeptAt w'' c''))

  -- The invariant is kept by any rd_write, whatever is written, through direct, single and double
  -- indirect blocks, and whatever it returns.
  pub rd_write_keeps :
      (s : System) (fd pid : ℕ) (content : Mem) (num_bytes : ℕ)
      → P s.disk
      → P (rd_write s fd pid content num_bytes).1.disk
  unfolding rd_write
  rd_write_keeps s fd pid content num_bytes c = elim (Option-cases (find_file_object s pid fd)) [
    | inl e ↦ rw (e, rd_write) c
    | inr ((t, i), e) ↦ elim (Option-cases (object_at s t i).inode_ptr) [
      | inl null ↦ rw (e, null, rd_write) c
      | inr (n, is_open) ↦ elim (Bool-cases (is_dir (s.disk.inodes n).type)) [
        | inl e₁ ↦ rw (e, is_open, e₁, rd_write) c
        | inr e₁ ↦ elim (Bool-cases (denied t i n)) [
          | inl e₂ ↦ rw (e, is_open, e₁, e₂, rd_write) c
          | inr e₂ ↦ rw (e, is_open, e₁, e₂, rd_write) (write_stages-KeptAt content num_bytes n _ c)
        ]
      ]
    ]
  ]
    where
      denied : ℕ → ℕ → ℕ → Bool
      denied t i n =
          ((s.disk.inodes n).access == read_only) || ((object_at s t i).status == read_only)
