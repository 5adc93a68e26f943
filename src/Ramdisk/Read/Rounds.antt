-- ===== src/Ramdisk/Read/Rounds.antt =====
-- The direct stage of `rd_read` in kernelspace/discos.c over several blocks.
use mathlib.Core.Path.{subst}
use file_system_toy_os.Prelude.{
  ℕ, zero, suc, ◌+◌, ◌*◌, ◌-◌, ◌/◌, ◌%◌, ◌<◌, ◌≤◌, ◌≡◌, ◌≢◌, ◌⊎◌, ◌∙◌, inl, inr, arith, refl, ap,
  Bool-cases, false, ne→==, leb, leb→le, sym, ltb,
}
use file_system_toy_os.Prelude.Loops.{next, done, for_until}
use file_system_toy_os.Ramdisk.Disk.{Disk}
use file_system_toy_os.Ramdisk.Contents.{byte_of}
use file_system_toy_os.Ramdisk.Read.Stages.{Reading, Progress, read_block, stop_when_read}
use file_system_toy_os.Ramdisk.Read.Block.{IsRead, for_until-IsRead, for_until-full}

-- `r'` is `r` after `count` bytes of the file `n` from the cursor on have gone to the buffer.
pub record IsFetched (d : Disk) (n count : ℕ) (r r' : Reading) : Type 0 where
  pub cursor : r'.cursor ≡ r.cursor + count
  pub bytes_read : r'.bytes_read ≡ r.bytes_read + count
  pub copied : (k : ℕ) → k < count → r'.buffer (r.bytes_read + k) ≡ byte_of d n (r.cursor + k)
  pub kept : (k : ℕ) → k < r.bytes_read → r'.buffer k ≡ r.buffer k

module _ (d : Disk) (n to_read offset : ℕ) where
  -- The round over block `i`.
  abbrev pub round : ℕ → Reading → Progress
  round i = read_block d.memory to_read offset ((d.inodes n).pointers i)

  -- Before round `i`, with `left` bytes to go, none of them a NUL: they end in the block, or the
  -- cursor is at its start.
  pub record IsReady (i left : ℕ) (r : Reading) : Type 0 where
    pub cursor : r.cursor ≡ 256 * i + offset
    pub bytes_read : r.bytes_read + left ≡ to_read
    pub positive : 0 < left
    pub within : 256 * i + offset + left ≤ 2048
    pub in_block : offset < 256
    pub fits : (offset + left ≤ 256) ⊎ (offset ≡ 0)
    pub no_nul : (k : ℕ) → k < left → byte_of d n (r.cursor + k) ≢ 0

  stop_done : (r : Reading) → r.bytes_read ≡ to_read → stop_when_read to_read r ≡ done r
  stop_done r e = ground arith

  stop_next : (r : Reading) → r.bytes_read ≢ to_read → stop_when_read to_read r ≡ next r
  stop_next r e = ground arith

  module _ (i left : ℕ) (r : Reading) (h : IsReady i left r) where
    abbrev block : ℕ
    block = (d.inodes n).pointers i

    place :
        (k : ℕ)
        → offset + k < 256
        → ((r.cursor + k) / 256 ≡ i) × ((r.cursor + k) % 256 ≡ offset + k)
    place k lt = (omega (arith, h.cursor), omega (arith, h.cursor))

    -- A byte that is no NUL stands in a block that is there.
    there : block ≢ 0
    there z = h.no_nul 0 h.positive (rw ((place 0 (omega (arith, h.in_block))).0, z) refl)

    byte_at :
        (k : ℕ) → offset + k < 256 → byte_of d n (r.cursor + k) ≡ d.memory (block + offset + k)
    byte_at k lt =
        let (at, o) = place k lt in rw (at, o, ne→== _ _ there) (ap d.memory (omega arith))

    fetched :
        {count : ℕ} {r' : Reading}
        → offset + count ≤ 256
        → IsRead d.memory (block + offset) count r r'
        → IsFetched d n count r r'
    fetched fits is = record {
      cursor = is.cursor;
      bytes_read = is.bytes_read;
      copied = λ k lt. is.copied k lt ∙ sym (byte_at k (omega arith));
      kept = is.kept;
    }

    last_round :
        offset + left ≤ 256 → (r' : Reading) × (round i r ≡ done r') × IsFetched d n left r r'
    unfolding read_block
    last_round ends =
        let e : suc (left - 1) ≡ left = omega (arith, h.positive) in
        let (r', runs, is) =
          for_until-IsRead d.memory to_read block (left - 1) (256 - offset) offset r
            (omega (arith, h.positive)) (omega (arith, h.bytes_read, e))
            (λ k lt z. h.no_nul k (omega (arith, e)) (byte_at k (omega (arith, e)) ∙ z))
            (omega (arith, h.cursor, h.within, e)) in
        (
          r',
          rw (ne→== _ _ there, runs, read_block)
              (stop_done r' (omega (arith, is.bytes_read, h.bytes_read, e))),
          fetched ends (subst (λ c. IsRead d.memory (block + offset) c r r') e is),
        )

    full_round :
        256 < left
        → offset ≡ 0
        → (r' : Reading) × (round i r ≡ next r')
          × IsFetched d n 256 r r'
          × IsReady (i + 1) (left - 256) r'
    unfolding read_block
    full_round more start =
        let (r', runs, is) =
          for_until-full d.memory to_read block (256 - offset) offset r
            (omega (arith, h.bytes_read))
            (λ k lt z. h.no_nul k (omega arith) (byte_at k (omega arith) ∙ z))
            (omega (arith, h.cursor, h.within)) in
        let e : 256 - offset ≡ 256 = omega (arith, start) in
        let got : IsFetched d n 256 r r' =
          fetched (omega (arith, start))
            (subst (λ c. IsRead d.memory (block + offset) c r r') e is) in
        (
          r',
          rw (ne→== _ _ there, runs, read_block)
              (stop_next r' (omega (arith, got.bytes_read, h.bytes_read))),
          got,
          record {
            cursor = omega (arith, got.cursor, h.cursor);
            bytes_read = omega (arith, got.bytes_read, h.bytes_read);
            positive = omega arith;
            within = omega (arith, h.within);
            in_block = h.in_block;
            fits = inr start;
            no_nul = λ k lt z.
                h.no_nul (256 + k) (omega arith) (ap (byte_of d n) (omega (arith, got.cursor)) ∙ z);
          },
        )

    starts_block : leb (offset + left) 256 ≡ false → offset ≡ 0
    starts_block on = elim h.fits [ inl ends ↦ absurd (ground arith) | inr start ↦ start ]

  IsFetched-trans :
      {count count' total : ℕ} {r r' r'' : Reading}
      → count + count' ≡ total
      → IsFetched d n count r r'
      → IsFetched d n count' r' r''
      → IsFetched d n total r r''
  IsFetched-trans {count} {count'} {total} {r} {r'} {r''} sums a b = record {
    cursor = omega (arith, a.cursor, b.cursor);
    bytes_read = omega (arith, a.bytes_read, b.bytes_read);
    copied = λ k lt. elim (Bool-cases (ltb k count)) [
      | inl before ↦
          b.kept (r.bytes_read + k) (ground (arith, a.bytes_read)) ∙ a.copied k (ground arith)
      | inr behind ↦
          let e : r.bytes_read + k ≡ r'.bytes_read + (k - count) = ground (arith, a.bytes_read) in
          let e' : r'.cursor + (k - count) ≡ r.cursor + k = ground (arith, a.cursor) in
          ap r''.buffer e ∙ b.copied (k - count) (ground arith) ∙ ap (byte_of d n) e'
    ];
    kept = λ k lt. b.kept k (omega (arith, a.bytes_read)) ∙ a.kept k lt;
  }

  -- The rounds from `i` on read the bytes that are left, and the loop is left.
  pub rounds-IsFetched :
      (fuel i left : ℕ) (r : Reading)
      → i + fuel ≡ 8
      → IsReady i left r
      → (r' : Reading) × (for_until fuel i round r ≡ done r') × IsFetched d n left r r'
  unfolding for_until
  rounds-IsFetched zero i left r e h = absurd (omega (arith, h.within, h.positive))
  rounds-IsFetched (suc fuel) i left r e h = elim (Bool-cases (leb (offset + left) 256)) [
    | inl ends ↦
        let (r₁, runs, got) = last_round i left r h (leb→le _ _ ends) in
        (r₁, rw (runs, for_until) refl, got)
    | inr on ↦
        let start = starts_block i left r h on in
        let (r₁, runs, got, ready) = full_round i left r h (ground (arith, start)) start in
        let (r₂, runs', got') = rounds-IsFetched fuel (i + 1) (left - 256) r₁ (omega arith) ready in
        (r₂, rw (runs, for_until) runs', IsFetched-trans (ground arith) got got')
  ]
