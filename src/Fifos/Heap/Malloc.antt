-- ===== src/Fifos/Heap/Malloc.antt =====
-- `init_heap` and `malloc` of FileSystem-v3/heap.c against the list of blocks.
use file_system_toy_os.Prelude.{
  ℕ, ◌+◌, ◌-◌, ◌%◌, ◌^◌, ◌≤◌, ◌<◌, ◌≡◌, ◌≢◌, inl, inr, refl, sym, Option, none, some, List, [], ◌∷◌,
  arith, ne→==,
}
use mathlib.Core.Path.{subst}
use file_system_toy_os.Fifos.Heap.{Heap, init_heap, first_fit, place, block_bytes, malloc}
use file_system_toy_os.Fifos.Heap.Blocks.{Block, free_block, IsHeap, total, take_first}
use file_system_toy_os.Fifos.Heap.Chain.{length-le}
use file_system_toy_os.Fifos.Heap.Fit.{
  Searched, first_fit-Searched, take_first-none, take_first-some,
}
use file_system_toy_os.Fifos.Heap.Place.{place-IsHeap}

-- What `malloc` comes to: NULL and the same heap, or the address behind a header and a heap of the
-- blocks given.
abbrev pub Allocated : Heap → Option (ℕ × List Block) → Option (ℕ × Heap) → Type 0
Allocated h none o = o ≡ some (0, h)
Allocated h (some (p, bs)) o = (h' : Heap) × (o ≡ some (p + 8, h')) × IsHeap h' bs

pub init_heap-IsHeap : (h : Heap) → IsHeap (init_heap h) (free_block (2 ^ 20 - 8) ∷ [])
unfolding init_heap
init_heap-IsHeap h = record {
  chain = (
    record { tag = ground arith; before = ground arith; aligned = refl; enough = omega arith },
    tt,
  );
  last = refl;
  full = refl;
}

module _ (h : Heap) (size : ℕ) (some_bytes : size ≢ 0) (small : size < 2 ^ 32 - 15) where
  block_bytes_lem : (block_bytes size % 8 ≡ 0) × (16 ≤ block_bytes size)
  block_bytes_lem = (omega arith, omega arith)

  malloc-null : first_fit h (block_bytes size) (2 ^ 17 + 1) 8 ≡ some 0 → malloc h size ≡ some (0, h)
  unfolding malloc
  malloc-null e = rw (ne→== size 0 some_bytes, e, malloc)

  malloc-block :
      (p : ℕ)
      → p ≢ 0
      → first_fit h (block_bytes size) (2 ^ 17 + 1) 8 ≡ some p
      → malloc h size ≡ some (p + 8, place h (block_bytes size) p)
  unfolding malloc
  malloc-block p ne e = rw (ne→== size 0 some_bytes, e, ne→== p 0 ne, malloc)

  by_search :
      (bs : List Block)
      → IsHeap h bs
      → Searched (block_bytes size) 8 bs (first_fit h (block_bytes size) (2 ^ 17 + 1) 8)
      → Allocated h (take_first (block_bytes size) 8 bs) (malloc h size)
  by_search bs is (inl (unfit, e)) =
      rw (take_first-none (block_bytes size) 8 bs unfit) (malloc-null e)
  by_search bs is (inr (q, xs, s, ys, e, fit)) =
      let (aligned, enough) = block_bytes_lem in
      let ne : q ≢ 0 = λ z. omega (arith, fit.place) in
      subst (λ l. Allocated h (take_first (block_bytes size) 8 l) (malloc h size)) (sym fit.split)
        (rw (take_first-some (block_bytes size) 8 s xs ys fit.unfit fit.fits) (
          place h (block_bytes size) (8 + total xs),
          rw fit.place at (malloc-block q ne e),
          place-IsHeap h xs ys s (subst (IsHeap h) fit.split is) (block_bytes size) fit.fits aligned
              enough,
        ))

  -- Let the heap be a list of blocks (IsHeap), and let the size be neither 0 nor above 2^32 -
  -- 16. Then the search of malloc ends within its rounds and malloc does what take_first does
  -- on the list: it takes the first free block that has room for the size rounded up to 8 and a
  -- header of 8 bytes, splits off what is left as a free block where that is more than 8 bytes,
  -- returns the address behind the header, and the heap is then the list of blocks so changed;
  -- where no block has the room it returns NULL and changes nothing.
  pub malloc-Allocated :
      (bs : List Block)
      → IsHeap h bs
      → Allocated h (take_first (block_bytes size) 8 bs) (malloc h size)
  malloc-Allocated [] is = absurd (omega (arith, is.full))
  malloc-Allocated (b ∷ bs) is = by_search (b ∷ bs) is (
      first_fit-Searched h (block_bytes size) (2 ^ 17 + 1) 8 0 b bs (λ e. omega arith)
        (omega (arith, is.full, length-le h.word 8 0 (b ∷ bs) is.chain)) is.chain is.last)
