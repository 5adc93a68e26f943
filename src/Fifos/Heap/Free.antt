-- ===== src/Fifos/Heap/Free.antt =====
-- `free` of FileSystem-v3/heap.c against the list of blocks.
use file_system_toy_os.Prelude.{
  ℕ, ◌+◌, ◌≡◌, inl, inr, refl, sym, ap, ◌∙◌, Bool, List, [], ◌∷◌, ◌++◌, arith, if◌then◌else◌,
  Bool-cases,
}
use mathlib.Core.Path.{subst}
use mathlib.Core.List.{append_assoc}
use file_system_toy_os.Fifos.Heap.{Heap, get_size, is_alloc, putw, prev_block, free}
use file_system_toy_os.Fifos.Heap.Blocks.{
  Block, free_block, used_block, IsHeap, total, last_address, join_next, join_free, give_back,
}
use file_system_toy_os.Fifos.Heap.Chain.{
  Chain-rest, total-append, next_block-last, next_block-more, is_alloc_lem,
}
use file_system_toy_os.Fifos.Heap.Replace.{
  replaced, before_here, block_here, Chain-behind, last_here, size_here,
}
use file_system_toy_os.Fifos.Heap.Combine.{combine-IsHeap}
use file_system_toy_os.Fifos.Heap.Halves.{
  joined_next, joined_prev, free-halves, joined_next-none, joined_next-used, joined_next-free,
  joined_prev-none, joined_prev-used, joined_prev-free,
}

untagged :
    (h : Heap) (xs ys : List Block) (s : ℕ)
    → IsHeap h (xs ++ (used_block s ∷ ys))
    → IsHeap (putw h (8 + total xs) s) (xs ++ (free_block s ∷ ys))
untagged h xs ys s is =
    let p : ℕ = 8 + total xs in
    let head = block_here h xs ys (used_block s) is in
    replaced h xs ys (used_block s) is (putw h p s) (free_block s) ys (λ x lt. ground arith)
      (
        record {
          tag = ground arith;
          before = ground (arith, head.before);
          aligned = head.aligned;
          enough = head.enough;
        },
        Chain-rest h.word (putw h p s).word (p + s) s ys (λ x ge lt. ground (arith, head.enough))
            (Chain-behind h xs ys (used_block s) is),
      )
      refl (last_lem ys (last_here h xs ys (used_block s) is))
  where
    last_lem :
        (zs : List Block)
        → h.lastptr ≡ last_address (8 + total xs) (used_block s ∷ zs)
        → h.lastptr ≡ last_address (8 + total xs) (free_block s ∷ zs)
    last_lem [] e = e
    last_lem (z ∷ zs) e = e

-- With the bit of the block cleared, and nothing joined.
untagged-size :
    (h : Heap) (xs ys : List Block) (s : ℕ)
    → IsHeap h (xs ++ (used_block s ∷ ys))
    → IsHeap (putw h (8 + total xs) (get_size h (8 + total xs))) (xs ++ (free_block s ∷ ys))
untagged-size h xs ys s is =
    subst (λ n. IsHeap (putw h (8 + total xs) n) (xs ++ (free_block s ∷ ys)))
      (sym (size_here h xs ys (used_block s) is)) (untagged h xs ys s is)

joined_next-IsHeap :
    (h : Heap) (xs ys : List Block) (s : ℕ)
    → IsHeap h (xs ++ (used_block s ∷ ys))
    → IsHeap (joined_next h (8 + total xs)) (xs ++ join_next s ys)
joined_next-IsHeap h xs [] s is =
    let next = next_block-last h (8 + total xs) (last_here h xs [] (used_block s) is) in
    subst (λ g. IsHeap g (xs ++ (free_block s ∷ []))) (sym (joined_next-none h (8 + total xs) next))
      (untagged-size h xs [] s is)
joined_next-IsHeap h xs (y ∷ ys) s is =
    let p : ℕ = 8 + total xs in
    let head = block_here h xs (y ∷ ys) (used_block s) is in
    let behind = Chain-behind h xs (y ∷ ys) (used_block s) is in
    let next =
      next_block-more h p (before_here h xs (y ∷ ys) (used_block s) is) (used_block s) y ys
        (head, behind) (last_here h xs (y ∷ ys) (used_block s) is) in
    let bit = is_alloc_lem h (p + s) s y behind.0 in
    let result : Bool → List Block =
      λ u. if u then free_block s ∷ y ∷ ys else free_block (s + y.size) ∷ ys in
    elim (Bool-cases y.used) [
      | inl taken ↦
          subst (λ u. IsHeap (joined_next h p) (xs ++ result u)) (sym taken)
            (subst (λ g. IsHeap g (xs ++ (free_block s ∷ y ∷ ys)))
              (sym (joined_next-used h p (p + s) next (bit ∙ taken)))
              (untagged-size h xs (y ∷ ys) s is))
      | inr unused ↦
          let is' =
            subst (λ u. IsHeap h (xs ++ (used_block s ∷ record { size = y.size; used = u } ∷ ys)))
              unused is in
          subst (λ u. IsHeap (joined_next h p) (xs ++ result u)) (sym unused)
            (subst (λ g. IsHeap g (xs ++ (free_block (s + y.size) ∷ ys)))
              (sym (joined_next-free h p (p + s) next (λ e. omega (arith, e)) (bit ∙ unused)))
              (combine-IsHeap h xs ys (used_block s) y.size is'))
    ]

-- The block in front is found by the size that the header holds.
module _ (h : Heap) (xs zs : List Block) (x z : Block) (is : IsHeap h (xs ++ (x ∷ z ∷ zs))) where
  abbrev front : ℕ
  front = 8 + total xs

  prev_block-front : prev_block h (front + x.size) ≡ front
  prev_block-front =
      let head = block_here h xs (z ∷ zs) x is in
      let (head', rest) = Chain-behind h xs (z ∷ zs) x is in
      ground (arith, head.enough, head'.before)

  is_alloc-front : is_alloc h front ≡ x.used
  is_alloc-front =
      is_alloc_lem h front (before_here h xs (z ∷ zs) x is) x (block_here h xs (z ∷ zs) x is)

joined_prev-IsHeap :
    (h : Heap) (xs zs : List Block) (x : Block) (m : ℕ)
    → IsHeap h (xs ++ (x ∷ free_block m ∷ zs))
    → IsHeap
        (joined_prev h (8 + total xs + x.size))
        (xs ++ (if x.used then x ∷ free_block m ∷ zs else free_block (x.size + m) ∷ zs))
joined_prev-IsHeap h xs zs x m is =
    let q : ℕ = 8 + total xs in
    let prev = prev_block-front h xs zs x (free_block m) is in
    let bit = is_alloc-front h xs zs x (free_block m) is in
    let p : ℕ = q + x.size in
    let result : Bool → List Block =
      λ u. if u then x ∷ free_block m ∷ zs else free_block (x.size + m) ∷ zs in
    elim (Bool-cases x.used) [
      | inl taken ↦
          subst (λ u. IsHeap (joined_prev h p) (xs ++ result u)) (sym taken)
            (subst (λ g. IsHeap g (xs ++ (x ∷ free_block m ∷ zs)))
              (sym (joined_prev-used h p q prev (bit ∙ taken))) is)
      | inr unused ↦
          subst (λ u. IsHeap (joined_prev h p) (xs ++ result u)) (sym unused)
            (subst (λ g. IsHeap g (xs ++ (free_block (x.size + m) ∷ zs)))
              (sym (joined_prev-free h p q prev (λ e. omega (arith, e)) (bit ∙ unused)))
              (combine-IsHeap h xs zs x m is))
    ]

-- What stands at the block after the first half: a free block.
abbrev merged_size : ℕ → List Block → ℕ
merged_size s [] = s
merged_size s (y ∷ ys) = if y.used then s else s + y.size

abbrev merged_rest : List Block → List Block
merged_rest [] = []
merged_rest (y ∷ ys) = if y.used then y ∷ ys else ys

join_next-shape :
    (s : ℕ) (ys : List Block) → join_next s ys ≡ free_block (merged_size s ys) ∷ merged_rest ys
join_next-shape s [] = refl
join_next-shape s (y ∷ ys) = ground arith

-- The blocks in front, by the last of them.
give_back-last :
    (xs : List Block) (x : Block) (s : ℕ) (ys : List Block)
    → give_back (xs ++ (x ∷ [])) s ys
      ≡ xs ++ (if x.used then x ∷ join_next s ys else join_free (x ∷ join_next s ys))
unfolding give_back
give_back-last [] x s ys = refl
give_back-last (a ∷ []) x s ys = refl
give_back-last (a ∷ a' ∷ xs) x s ys = ap (λ zs. a ∷ zs) (give_back-last (a' ∷ xs) x s ys)

data Snoc (xs : List Block) : Type 0 where
  nothing_before : xs ≡ [] → Snoc xs
  last_before : (zs : List Block) (z : Block) → xs ≡ zs ++ (z ∷ []) → Snoc xs

snoc : (xs : List Block) → Snoc xs
snoc [] = nothing_before refl
snoc (x ∷ xs) = elim (snoc xs) [
  | nothing_before e ↦ last_before [] x (ap (λ zs. x ∷ zs) e)
  | last_before zs z e ↦ last_before (x ∷ zs) z (ap (λ ws. x ∷ ws) e)
]

free-first :
    (h : Heap) (s : ℕ) (ys : List Block)
    → IsHeap h (used_block s ∷ ys)
    → IsHeap (free h (8 + 0 + 8)) (give_back [] s ys)
unfolding give_back
free-first h s ys is =
    let front : prev_block (joined_next h 8) 8 ≡ 0 = ground arith in
    subst (λ g. IsHeap g (join_next s ys))
      (sym (free-halves h 8 ∙ joined_prev-none (joined_next h 8) 8 front))
      (joined_next-IsHeap h [] ys s is)

free-behind :
    (h : Heap) (xs ys : List Block) (x : Block) (s : ℕ)
    → IsHeap h ((xs ++ (x ∷ [])) ++ (used_block s ∷ ys))
    → IsHeap (free h (8 + total (xs ++ (x ∷ [])) + 8)) (give_back (xs ++ (x ∷ [])) s ys)
free-behind h xs ys x s is =
    let place : 8 + total (xs ++ (x ∷ [])) ≡ 8 + total xs + x.size =
      omega (arith, total-append xs (x ∷ [])) in
    let g : Heap = joined_next h (8 + total (xs ++ (x ∷ []))) in
    let joined =
      subst (λ zs. IsHeap g (xs ++ (x ∷ zs))) (join_next-shape s ys)
        (subst (λ zs. IsHeap g zs) (append_assoc xs (x ∷ []) (join_next s ys))
          (joined_next-IsHeap h (xs ++ (x ∷ [])) ys s is)) in
    let result : List Block → List Block =
      λ zs. xs ++ (if x.used then x ∷ zs else join_free (x ∷ zs)) in
    subst (λ zs. IsHeap (free h (8 + total (xs ++ (x ∷ [])) + 8)) zs)
      (sym (give_back-last xs x s ys ∙ ap result (join_next-shape s ys)))
      (subst (λ f. IsHeap f (result (free_block (merged_size s ys) ∷ merged_rest ys)))
        (sym (free-halves h (8 + total (xs ++ (x ∷ [])))))
        (subst
          (λ p. IsHeap (joined_prev g p) (result (free_block (merged_size s ys) ∷ merged_rest ys)))
          (sym place) (joined_prev-IsHeap g xs (merged_rest ys) x (merged_size s ys) joined)))

-- If the heap is the list of blocks xs, a used block and ys (IsHeap), then after free of the
-- address behind the header of that block the heap is the list that give_back makes: the block
-- and those of its two neighbours that are free become one free block, and no other block
-- changes.
pub free-IsHeap :
    (h : Heap) (xs ys : List Block) (s : ℕ)
    → IsHeap h (xs ++ (used_block s ∷ ys))
    → IsHeap (free h (8 + total xs + 8)) (give_back xs s ys)
free-IsHeap h xs ys s is = elim (snoc xs) [
  | nothing_before e ↦
      subst (λ zs. IsHeap (free h (8 + total zs + 8)) (give_back zs s ys)) (sym e)
        (free-first h s ys (subst (λ zs. IsHeap h (zs ++ (used_block s ∷ ys))) e is))
  | last_before zs z e ↦
      subst (λ ws. IsHeap (free h (8 + total ws + 8)) (give_back ws s ys)) (sym e)
        (free-behind h zs ys z s (subst (λ ws. IsHeap h (ws ++ (used_block s ∷ ys))) e is))
]
