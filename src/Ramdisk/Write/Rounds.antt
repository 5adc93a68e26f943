-- ===== src/Ramdisk/Write/Rounds.antt =====
-- The direct stage of `rd_write` in kernelspace/discos.c over several blocks, there or new.
use file_system_toy_os.Prelude.{
  leb→le, leb, false, ℕ, zero, suc, ◌+◌, ◌*◌, ◌-◌, ◌^◌, ◌<◌, ◌≤◌, ◌≡◌, ◌≢◌, ◌⊎◌, ◌∙◌, inl, inr,
  arith, refl, ◌==◌, Bool-cases, ==→eq, ==→ne, ne→==, pos, some,
}
use file_system_toy_os.Ramdisk.Contents.Store.{
  IsStored-none, IsStored, IsStored-trans, IsWritten-IsStored,
}
use mathlib.Core.Path.{subst}
use file_system_toy_os.Prelude.Loops.{next, done, for_until}
use file_system_toy_os.Ramdisk.Memory.{Mem}
use file_system_toy_os.Ramdisk.Disk.{Disk}
use file_system_toy_os.Ramdisk.Bitmap.{new_block}
use file_system_toy_os.Ramdisk.Bitmap.Allocate.{IsCounted, IsNew, new_block-IsNew, IsNew-IsCounted}
use file_system_toy_os.Ramdisk.Counted.{IsCounted-ext}
use file_system_toy_os.Ramdisk.Entry.{set_pointer}
use file_system_toy_os.Ramdisk.Contents.{IsLaidOut}
use file_system_toy_os.Ramdisk.Contents.Place.{placed-IsLaidOut, placed-IsExtension, placed-byte_of}
use file_system_toy_os.Ramdisk.Write.Stages.{Writing, write_block, write_direct_block}
use file_system_toy_os.Ramdisk.Write.Block.{IsWritten, for_until-IsWritten, for_until-full}

module _ (content : Mem) (num_bytes n offset : ℕ)
    (no_nul : (k : ℕ) → k < num_bytes → content k ≢ 0) where
  -- Before round `i`, with `left` bytes to go: they fit in the block, or the cursor is at its
  -- start; and there are free blocks for them.
  pub record IsReady (i left : ℕ) (w : Writing) : Type 0 where
    pub cursor : w.cursor ≡ 256 * i + offset
    pub written : w.written + left ≡ num_bytes
    pub positive : 0 < left
    pub within : 256 * i + offset + left ≤ 2048
    pub fits : (offset + left ≤ 256) ⊎ (offset ≡ 0)
    pub size : (w.disk.inodes n).size + left < 2 ^ 32
    pub laid : IsLaidOut w.disk n
    pub counted : IsCounted w.disk
    pub free : left ≤ 256 * w.disk.free_blocks

  -- The block of a round is there, or a new one is put in its place.
  record IsPlaced (i : ℕ) (w w' : Writing) : Type 0 where
    runs :
        write_direct_block content num_bytes n offset i w
        ≡ write_block content num_bytes n ((w'.disk.inodes n).pointers i) offset w'
    there : (w'.disk.inodes n).pointers i ≢ 0
    stored : IsStored content n 0 w w'
    free : w.disk.free_blocks ≤ w'.disk.free_blocks + 1

  module _ (i left : ℕ) (w : Writing) (h : IsReady i left w) where
    in_range : i < 8
    in_range = omega (arith, h.within, h.positive)

    as_it_was : (w.disk.inodes n).pointers i ≢ 0 → IsPlaced i w w
    unfolding write_direct_block
    as_it_was ne = record {
      runs = rw (ne→== _ _ ne, write_direct_block) refl;
      there = ne;
      stored = IsStored-none content n w h.laid h.counted;
      free = omega arith;
    }

    with_new :
        (p k : ℕ) (d : Disk)
        → (w.disk.inodes n).pointers i ≡ 0
        → new_block w.disk ≡ some (p, d)
        → IsNew w.disk d p k
        → IsPlaced i w (record w { disk = set_pointer d n i p })
    unfolding write_direct_block
    with_new p k d null e new = record {
      runs = rw (null, e, write_direct_block) (ground arith);
      there = λ z. ground (arith, new.address);
      stored = record {
        cursor = omega arith;
        written = omega arith;
        bytes = λ x lt. placed-byte_of new n i in_range null h.laid x lt ∙ ground arith;
        size = ground (arith, new.inodes);
        extends = placed-IsExtension new n i in_range null h.laid;
        laid = placed-IsLaidOut new n i in_range null h.laid;
        counted = IsCounted-ext _ refl refl (IsNew-IsCounted h.counted new);
      };
      free = omega (arith, new.count);
    }

    -- There are free blocks, so that one is found.
    placed : (w' : Writing) × IsPlaced i w w'
    placed = elim (Bool-cases ((w.disk.inodes n).pointers i == 0)) [
      | inr there ↦ (w, as_it_was (==→ne _ _ there))
      | inl null ↦
          let (p, d, k, e, new) =
            new_block-IsNew w.disk h.counted (omega (arith, h.free, h.positive)) in
          (record w { disk = set_pointer d n i p }, with_new p k d (==→eq _ _ null) e new)
    ]

    -- Data that does not end in the block starts with it.
    starts_block : leb (offset + left) 256 ≡ false → offset ≡ 0
    starts_block on = elim h.fits [ inl ends ↦ absurd (ground arith) | inr start ↦ start ]

    module _ (w' : Writing) (p : IsPlaced i w w') where
      still_size : (w'.disk.inodes n).size ≡ (w.disk.inodes n).size
      still_size = omega (arith, p.stored.size)

      at_cursor : w'.cursor ≡ 256 * i + offset
      at_cursor = omega (arith, p.stored.cursor, h.cursor)

      at_written : w'.written + left ≡ num_bytes
      at_written = omega (arith, p.stored.written, h.written)

      -- The data ends in this block: the function returns.
      last_round :
          offset + left ≤ 256
          → (w'' : Writing) × (write_direct_block content num_bytes n offset i w
              ≡ done (pos num_bytes, w''))
            × IsStored content n left w w''
      unfolding write_block
      last_round ends =
          let e : suc (left - 1) ≡ left = omega (arith, h.positive) in
          let (w'', runs, is) =
            for_until-IsWritten content num_bytes n ((w'.disk.inodes n).pointers i) (left - 1)
              (256 - offset) offset w' (omega (arith, h.positive)) (omega (arith, at_written, e))
              no_nul (omega (arith, at_cursor, h.within, e))
              (omega (arith, still_size, h.size, e)) in
          (
            w'',
            p.runs ∙ runs,
            IsStored-trans (omega arith) p.stored (
                IsWritten-IsStored content n i offset left in_range p.there p.stored.laid
                  (subst
                    (λ r. IsWritten content n ((w'.disk.inodes n).pointers i + offset) r w' w'') e
                    is)
                  ends at_cursor p.stored.counted),
          )

      -- The data goes on behind the block, which is filled from its start.
      full_round :
          256 < left
          → offset ≡ 0
          → (w'' : Writing) × (write_direct_block content num_bytes n offset i w ≡ next w'')
            × IsStored content n 256 w w''
            × IsReady (i + 1) (left - 256) w''
      unfolding write_block
      full_round more start =
          let (w'', runs, is) =
            for_until-full content num_bytes n ((w'.disk.inodes n).pointers i) (256 - offset) offset
              w' (omega (arith, at_written)) no_nul (omega (arith, at_cursor, h.within))
              (omega (arith, still_size, h.size)) in
          let e : 256 - offset ≡ 256 = omega (arith, start) in
          let stored : IsStored content n 256 w w'' = IsStored-trans (omega arith) p.stored (
            IsWritten-IsStored content n i offset 256 in_range p.there p.stored.laid
              (subst (λ r. IsWritten content n ((w'.disk.inodes n).pointers i + offset) r w' w'') e
                is)
              (omega (arith, start)) at_cursor p.stored.counted) in
          (
            w'',
            p.runs ∙ runs,
            stored,
            record {
              cursor = omega (arith, stored.cursor, h.cursor);
              written = omega (arith, stored.written, h.written);
              positive = omega arith;
              within = omega (arith, h.within);
              fits = inr start;
              size = omega (arith, stored.size, h.size);
              laid = stored.laid;
              counted = stored.counted;
              free = omega (arith, is.free_blocks, p.free, h.free);
            },
          )

  -- The rounds from `i` on write the bytes that are left, and the function returns.
  pub rounds-IsStored :
      (fuel i left : ℕ) (w : Writing)
      → i + fuel ≡ 8
      → IsReady i left w
      → (w' : Writing) × (for_until fuel i (write_direct_block content num_bytes n offset) w
          ≡ done (pos num_bytes, w'))
        × IsStored content n left w w'
  unfolding for_until
  rounds-IsStored zero i left w e h = absurd (omega (arith, h.within, h.positive))
  rounds-IsStored (suc fuel) i left w e h =
      let (w₁, p) = placed i left w h in
      elim (Bool-cases (leb (offset + left) 256)) [
        | inl ends ↦
            let (w₂, runs, stored) = last_round i left w h w₁ p (leb→le _ _ ends) in
            (w₂, rw (runs, for_until) refl, stored)
        | inr on ↦
            let start = starts_block i left w h on in
            let (w₂, runs, stored, ready) =
              full_round i left w h w₁ p (ground (arith, start)) start in
            let (w₃, runs', stored') =
              rounds-IsStored fuel (i + 1) (left - 256) w₂ (omega arith) ready in
            (w₃, rw (runs, for_until) runs', IsStored-trans (ground arith) stored stored')
      ]
