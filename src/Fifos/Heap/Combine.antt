-- ===== src/Fifos/Heap/Combine.antt =====
-- `Combine` of FileSystem-v3/heap.c: a block and the free block behind it become one.
use file_system_toy_os.Prelude.{
  ℕ, ◌+◌, ◌^◌, ◌<◌, ◌≡◌, ◌≢◌, refl, sym, ◌∙◌, List, [], ◌∷◌, ◌++◌, arith,
}
use mathlib.Core.Path.{subst}
use file_system_toy_os.Fifos.Heap.{Heap, get_size, putw, next_block, combine}
use file_system_toy_os.Fifos.Heap.Blocks.{
  Block, free_block, Chain, IsHeader, IsHeap, total, last_address,
}
use file_system_toy_os.Fifos.Heap.Chain.{Chain-before, next_block-last, next_block-more}
use file_system_toy_os.Fifos.Heap.Replace.{
  replaced, before_here, block_here, Chain-behind, last_here, within, size_here,
}

module _ (h : Heap) (p q s t : ℕ) (size_is : get_size h p ≡ s) (word_is : h.word q ≡ t)
    (small : s + t < 2 ^ 32) where
  combine-last : next_block h q ≡ 0 → combine h p q ≡ record (putw h p (s + t)) { lastptr = p }
  unfolding combine
  combine-last next = ground arith

  combine-more :
      (r : ℕ) → next_block h q ≡ r → r ≢ 0 → combine h p q ≡ putw (putw h p (s + t)) (r + 4) (s + t)
  unfolding combine
  combine-more r next ne = ground arith

-- The header of the block that the two have become.
module _ (h h' : Heap) (p prev t : ℕ) (b : Block) (head : IsHeader h.word p prev b)
    (head' : IsHeader h.word (p + b.size) b.size (free_block t)) where
  joined-IsHeader :
      h'.word p ≡ b.size + t
      → h'.word (p + 4) ≡ h.word (p + 4)
      → IsHeader h'.word p prev (free_block (b.size + t))
  joined-IsHeader tag before = record {
    tag = ground arith;
    before = before ∙ head.before;
    aligned = ground (arith, head.aligned, head'.aligned);
    enough = ground (arith, head.enough);
  }

pub combine-IsHeap :
    (h : Heap) (xs ys : List Block) (b : Block) (t : ℕ)
    → IsHeap h (xs ++ (b ∷ free_block t ∷ ys))
    → IsHeap
        (combine h (8 + total xs) (8 + total xs + b.size))
        (xs ++ (free_block (b.size + t) ∷ ys))
combine-IsHeap h xs [] b t is =
    let p : ℕ = 8 + total xs in
    let head = block_here h xs (free_block t ∷ []) b is in
    let (head', none_behind) = Chain-behind h xs (free_block t ∷ []) b is in
    let h' : Heap = record (putw h p (b.size + t)) { lastptr = p } in
    subst (λ g. IsHeap g (xs ++ (free_block (b.size + t) ∷ [])))
      (sym (
        combine-last h p (p + b.size) b.size t (size_here h xs (free_block t ∷ []) b is)
          (omega (arith, head'.tag)) (omega (arith, within h xs (free_block t ∷ []) b is))
          (next_block-last h (p + b.size) (last_here h xs (free_block t ∷ []) b is))))
      (replaced h xs (free_block t ∷ []) b is h' (free_block (b.size + t)) [] (λ x lt. ground arith)
        (
          joined-IsHeader h h' p (before_here h xs (free_block t ∷ []) b is) t b head head'
              (ground arith) (ground arith),
          tt,
        )
        (omega arith) refl)
combine-IsHeap h xs (y ∷ ys) b t is =
    let p : ℕ = 8 + total xs in
    let head = block_here h xs (free_block t ∷ y ∷ ys) b is in
    let (head', behind) = Chain-behind h xs (free_block t ∷ y ∷ ys) b is in
    let last = last_here h xs (free_block t ∷ y ∷ ys) b is in
    let r : ℕ = p + b.size + t in
    let h' : Heap = putw (putw h p (b.size + t)) (r + 4) (b.size + t) in
    let e : r ≡ p + (b.size + t) = omega arith in
    subst (λ g. IsHeap g (xs ++ (free_block (b.size + t) ∷ y ∷ ys)))
      (sym (
        combine-more h p (p + b.size) b.size t (size_here h xs (free_block t ∷ y ∷ ys) b is)
          (omega (arith, head'.tag)) (omega (arith, within h xs (free_block t ∷ y ∷ ys) b is)) r
          (next_block-more h (p + b.size) b.size (free_block t) y ys (head', behind) last)
          (λ e'. omega arith)))
      (replaced h xs (free_block t ∷ y ∷ ys) b is h' (free_block (b.size + t)) (y ∷ ys)
        (λ x lt. ground arith)
        (
          joined-IsHeader h h' p (before_here h xs (free_block t ∷ y ∷ ys) b is) t b head head'
              (ground arith) (ground (arith, head.enough)),
          subst (λ q. Chain h'.word q (b.size + t) (y ∷ ys)) e
              (Chain-before h.word h'.word r t (b.size + t) (y ∷ ys)
                (λ x ge lt. ground (arith, head.enough)) behind),
        )
        (omega arith) (subst (λ q. h.lastptr ≡ last_address q (y ∷ ys)) e last))
