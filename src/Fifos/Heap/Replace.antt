-- ===== src/Fifos/Heap/Replace.antt =====
-- A block of the heap in FileSystem-v3/heap.c, and what replaces it and the blocks behind it.
use file_system_toy_os.Prelude.{ℕ, ◌+◌, ◌^◌, ◌<◌, ◌≡◌, sym, ◌∙◌, List, ◌∷◌, ◌++◌, arith}
use file_system_toy_os.Fifos.Heap.{Heap, get_size}
use file_system_toy_os.Fifos.Heap.Blocks.{
  Block, Chain, IsHeader, IsHeap, total, last_address, last_size,
}
use file_system_toy_os.Fifos.Heap.Chain.{
  Chain-rest, Chain-split, Chain-append, total-append, last_address-append, get_size_lem,
}

-- New words from `p` on, those of a chain `zs` in place of the block and what stands behind it.
module _ (h : Heap) (xs ys : List Block) (b : Block) (is : IsHeap h (xs ++ (b ∷ ys))) where
  abbrev pub here : ℕ
  here = 8 + total xs

  abbrev pub before_here : ℕ
  before_here = last_size 0 xs

  pub replaced :
      (h' : Heap) (z : Block) (zs : List Block)
      → ((x : ℕ) → x < here → h'.word x ≡ h.word x)
      → Chain h'.word here before_here (z ∷ zs)
      → total (z ∷ zs) ≡ b.size + total ys
      → h'.lastptr ≡ last_address here (z ∷ zs)
      → IsHeap h' (xs ++ (z ∷ zs))
  replaced h' z zs same c size last = record {
    chain =
        Chain-append h'.word 8 0 xs (z ∷ zs)
          (Chain-rest h.word h'.word 8 0 xs (λ x le lt. same x (omega arith))
            (Chain-split h.word 8 0 xs (b ∷ ys) is.chain).0)
          c;
    last = last ∙ sym (last_address-append 8 xs z zs);
    full = omega (arith, is.full, size, total-append xs (z ∷ zs), total-append xs (b ∷ ys));
  }

  pub block_here : IsHeader h.word here before_here (b)
  block_here = (Chain-split h.word 8 0 xs (b ∷ ys) is.chain).1.0

  pub Chain-behind : Chain h.word (here + b.size) b.size ys
  Chain-behind = (Chain-split h.word 8 0 xs (b ∷ ys) is.chain).1.1

  pub last_here : h.lastptr ≡ last_address here (b ∷ ys)
  last_here = is.last ∙ last_address-append 8 xs (b) ys

  pub within : here + b.size + total ys ≡ 2 ^ 20
  within = omega (arith, is.full, total-append xs (b ∷ ys))

  pub size_here : get_size h here ≡ b.size
  size_here = get_size_lem h here before_here (b) block_here
