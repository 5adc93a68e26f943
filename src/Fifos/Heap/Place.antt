-- ===== src/Fifos/Heap/Place.antt =====
-- What `malloc` in FileSystem-v3/heap.c does with the block that it found.
use file_system_toy_os.Prelude.{
  ℕ, ◌+◌, ◌-◌, ◌%◌, ◌^◌, ◌≤◌, ◌<◌, ◌≡◌, ◌≢◌, inl, inr, refl, sym, ◌∙◌, true, false, List, [], ◌∷◌,
  ◌++◌, arith, leb, Bool-cases,
}
use mathlib.Core.Path.{subst}
use file_system_toy_os.Fifos.Heap.{Heap, get_size, putw, next_block, place}
use file_system_toy_os.Fifos.Heap.Blocks.{
  Block, free_block, used_block, Chain, IsHeader, IsHeap, total, last_address, taken,
}
use file_system_toy_os.Fifos.Heap.Replace.{
  replaced, before_here, block_here, Chain-behind, last_here, within, size_here,
}
use file_system_toy_os.Fifos.Heap.Chain.{Chain-rest, Chain-before, next_block-last, next_block-more}

-- The headers of a block of `s` bytes at `p` cut behind `n` bytes.
abbrev split_block : Heap → ℕ → ℕ → ℕ → Heap
split_block h n p s = putw (putw (putw h p (n + 1)) (p + n) (s - n)) (p + n + 4) n

-- A free block of `s` bytes at `p` that is to hold `n`.
module _ (h : Heap) (n p s : ℕ) (size_is : get_size h p ≡ s) (le : n ≤ s) (small : s < 2 ^ 32)
    (even : s % 2 ≡ 0) (n_even : n % 2 ≡ 0) where
  place-whole : leb (s - n) 8 ≡ true → place h n p ≡ putw h p (s + 1)
  unfolding place
  place-whole whole = ground arith

  place-split_last :
      leb (s - n) 8 ≡ false
      → next_block h p ≡ 0
      → place h n p ≡ record (split_block h n p s) { lastptr = p + n }
  unfolding place
  place-split_last more next = ground arith

  place-split_more :
      (q : ℕ)
      → leb (s - n) 8 ≡ false
      → next_block h p ≡ q
      → q ≢ 0
      → place h n p ≡ putw (split_block h n p s) (q + 4) (s - n)
  unfolding place
  place-split_more q more next ne = ground arith

module _ (h : Heap) (xs ys : List Block) (s : ℕ) (is : IsHeap h (xs ++ (free_block s ∷ ys))) (n : ℕ)
    (le : n ≤ s) (aligned : n % 8 ≡ 0) (enough : 16 ≤ n) where
  abbrev here_s : ℕ
  here_s = 8 + total xs

  whole-IsHeap : leb (s - n) 8 ≡ true → IsHeap (place h n here_s) (xs ++ (used_block s ∷ ys))
  whole-IsHeap whole =
      subst (λ h'. IsHeap h' (xs ++ (used_block s ∷ ys)))
        (sym (
          place-whole h n here_s s (size_here h xs ys (free_block s) is) le
            (omega (arith, (within h xs ys (free_block s) is)))
            (omega (arith, (block_here h xs ys (free_block s) is).aligned)) (omega arith) whole))
        (replaced h xs ys (free_block s) is (putw h here_s (s + 1)) (used_block s) ys
          (λ x lt. ground arith)
          (
            record {
              tag = ground arith;
              before = ground (arith, (block_here h xs ys (free_block s) is).before);
              aligned = (block_here h xs ys (free_block s) is).aligned;
              enough = (block_here h xs ys (free_block s) is).enough;
            },
            Chain-rest h.word (putw h here_s (s + 1)).word (here_s + s) s ys
                (λ x ge lt. ground (arith, (block_here h xs ys (free_block s) is).enough))
                (Chain-behind h xs ys (free_block s) is),
          )
          refl (last_lem ys (last_here h xs ys (free_block s) is)))
    where
      last_lem :
          (zs : List Block)
          → h.lastptr ≡ last_address here_s (free_block s ∷ zs)
          → h.lastptr ≡ last_address here_s (used_block s ∷ zs)
      last_lem [] e = e
      last_lem (z ∷ zs) e = e

-- The two headers of a block that has been split.
module _ (h h' : Heap) (p prev s n : ℕ) (head : IsHeader h.word p prev (free_block s))
    (more : leb (s - n) 8 ≡ false) (aligned : n % 8 ≡ 0) (enough : 16 ≤ n) (tag : h'.word p ≡ n + 1)
    (before : h'.word (p + 4) ≡ h.word (p + 4)) (rest_tag : h'.word (p + n) ≡ s - n)
    (rest_before : h'.word (p + n + 4) ≡ n) where
  split_headers :
      (ys : List Block)
      → Chain h'.word (p + s) (s - n) ys
      → Chain h'.word p prev (used_block n ∷ free_block (s - n) ∷ ys)
  split_headers ys c = (
    record { tag = tag; before = before ∙ head.before; aligned = aligned; enough = enough },
    (
      record {
        tag = ground (arith, rest_tag);
        before = rest_before;
        aligned = ground (arith, head.aligned, aligned);
        enough = ground (arith, head.aligned, aligned);
      },
      (let e : p + s ≡ p + n + (s - n) = ground arith in
          subst (λ q. Chain h'.word q (s - n) ys) e c),
    ),
  )

split-IsHeap :
    (h : Heap) (xs ys : List Block) (s : ℕ) (is : IsHeap h (xs ++ (free_block s ∷ ys))) (n : ℕ)
    → n ≤ s
    → n % 8 ≡ 0
    → 16 ≤ n
    → leb (s - n) 8 ≡ false
    → IsHeap (place h n (8 + total xs)) (xs ++ (used_block n ∷ free_block (s - n) ∷ ys))
split-IsHeap h xs [] s is n le aligned enough more =
    let p : ℕ = 8 + total xs in
    let head = block_here h xs [] (free_block s) is in
    let small = within h xs [] (free_block s) is in
    let h' : Heap = record (split_block h n p s) { lastptr = p + n } in
    subst (λ g. IsHeap g (xs ++ (used_block n ∷ free_block (s - n) ∷ [])))
      (sym (
        place-split_last h n p s (size_here h xs [] (free_block s) is) le (omega (arith, small))
          (omega (arith, head.aligned)) (omega arith) more
          (next_block-last h p (last_here h xs [] (free_block s) is))))
      (replaced h xs [] (free_block s) is h' (used_block n) (free_block (s - n) ∷ [])
        (λ x lt. ground arith)
        (split_headers h h' p (before_here h xs [] (free_block s) is) s n head more aligned enough
          (ground arith) (ground arith) (ground arith) (ground arith) [] tt)
        (ground arith) refl)
split-IsHeap h xs (y ∷ ys) s is n le aligned enough more =
    let p : ℕ = 8 + total xs in
    let head = block_here h xs (y ∷ ys) (free_block s) is in
    let behind = Chain-behind h xs (y ∷ ys) (free_block s) is in
    let last = last_here h xs (y ∷ ys) (free_block s) is in
    let small = within h xs (y ∷ ys) (free_block s) is in
    let h' : Heap = putw (split_block h n p s) (p + s + 4) (s - n) in
    let e : p + s ≡ p + n + (s - n) = omega arith in
    subst (λ g. IsHeap g (xs ++ (used_block n ∷ free_block (s - n) ∷ y ∷ ys)))
      (sym (
        place-split_more h n p s (size_here h xs (y ∷ ys) (free_block s) is) le
          (omega (arith, small)) (omega (arith, head.aligned)) (omega arith) (p + s) more
          (next_block-more h p (before_here h xs (y ∷ ys) (free_block s) is) (free_block s) y ys
            (head, behind) last)
          (λ e'. omega arith)))
      (replaced h xs (y ∷ ys) (free_block s) is h' (used_block n) (free_block (s - n) ∷ y ∷ ys)
        (λ x lt. ground arith)
        (split_headers h h' p (before_here h xs (y ∷ ys) (free_block s) is) s n head more aligned
          enough (ground arith) (ground arith) (ground arith) (ground arith) (y ∷ ys)
          (Chain-before h.word h'.word (p + s) s (s - n) (y ∷ ys)
            (λ x ge lt. ground (arith, head.enough)) behind))
        (ground arith) (subst (λ q. h.lastptr ≡ last_address q (y ∷ ys)) e last))

-- The heap after a block was placed is the list with the block taken.
pub place-IsHeap :
    (h : Heap) (xs ys : List Block) (s : ℕ) (is : IsHeap h (xs ++ (free_block s ∷ ys))) (n : ℕ)
    → n ≤ s
    → n % 8 ≡ 0
    → 16 ≤ n
    → IsHeap (place h n (8 + total xs)) (xs ++ taken n s ys)
place-IsHeap h xs ys s is n le aligned enough = elim (Bool-cases (leb (s - n) 8)) [
  | inl whole ↦ rw whole (whole-IsHeap h xs ys s is n le aligned enough whole)
  | inr more ↦ rw more (split-IsHeap h xs ys s is n le aligned enough more)
]
