-- ===== src/Fifos/Heap/Taken.antt =====
-- The block that `malloc` of FileSystem-v3/heap.c gives, and writes to its bytes.
use mathlib.Core.Path.{subst}
use file_system_toy_os.Prelude.{
  ℕ, ◌+◌, ◌-◌, ◌≤◌, ◌<◌, ◌≡◌, refl, sym, ap, ◌||◌, Option, none, some, List, [], ◌∷◌, ◌++◌, arith,
  ltb, leb, Bool-cases, inl, inr,
}
use file_system_toy_os.Fifos.Heap.{Heap, putw}
use file_system_toy_os.Fifos.Heap.Blocks.{
  Block, free_block, used_block, IsHeap, total, taken, in_front, take_first,
}
use file_system_toy_os.Fifos.Heap.Chain.{Chain-rest}
use file_system_toy_os.Fifos.Heap.Replace.{replaced, block_here, Chain-behind, last_here}

-- The block at `q`, of `n` bytes at least, is in use.
pub record IsTaken (n p q : ℕ) (bs : List Block) : Type 0 where
  pub before : List Block
  pub size : ℕ
  pub behind : List Block
  pub split : bs ≡ before ++ (used_block size ∷ behind)
  pub place : q ≡ p + total before
  pub enough : n ≤ size

-- The outcome of `take_first`, where there is one.
abbrev pub Takes : ℕ → ℕ → Option (ℕ × List Block) → Type 0
Takes n p none = Unit {0}
Takes n p (some (q, bs)) = IsTaken n p q bs

in_front-Takes :
    (n p : ℕ) (b : Block) (o : Option (ℕ × List Block))
    → Takes n (p + b.size) o
    → Takes n p (in_front b o)
in_front-Takes n p b none h = tt
in_front-Takes n p b (some (q, bs)) h = record {
  before = b ∷ h.before;
  size = h.size;
  behind = h.behind;
  split = ap (λ cs. b ∷ cs) h.split;
  place = omega (arith, h.place);
  enough = h.enough;
}

taken-IsTaken : (n p s : ℕ) (bs : List Block) → n ≤ s → IsTaken n p p (taken n s bs)
taken-IsTaken n p s bs le = elim (Bool-cases (leb (s - n) 8)) [
  | inl whole ↦ rw whole (record {
    before = [];
    size = s;
    behind = bs;
    split = refl;
    place = omega arith;
    enough = le;
  })
  | inr part ↦ rw part (record {
    before = [];
    size = n;
    behind = free_block (s - n) ∷ bs;
    split = refl;
    place = omega arith;
    enough = omega arith;
  })
]

pub take_first-Takes : (n p : ℕ) (bs : List Block) → Takes n p (take_first n p bs)
unfolding take_first
take_first-Takes n p [] = tt
take_first-Takes n p (b ∷ bs) = elim (Bool-cases (b.used || ltb b.size n)) [
  | inl skip ↦
      rw (skip, take_first)
        (in_front-Takes n p b (take_first n (p + b.size) bs) (take_first-Takes n (p + b.size) bs))
  | inr fit ↦ rw (fit, take_first) (taken-IsTaken n p b.size bs (ground arith))
]

module _ (h : Heap) (n q : ℕ) (bs : List Block) (t : IsTaken n 8 q bs) where
  split-IsHeap : IsHeap h bs → IsHeap h (t.before ++ (used_block t.size ∷ t.behind))
  split-IsHeap is = subst (IsHeap h) t.split is

  pub putw-IsHeap : IsHeap h bs → (k v : ℕ) → 8 ≤ k → k < n → IsHeap (putw h (q + k) v) bs
  putw-IsHeap is k v le lt =
      let p : ℕ = 8 + total t.before in
      let is' = split-IsHeap is in
      let b = used_block t.size in
      let head = block_here h t.before t.behind b is' in
      let h' : Heap = putw h (q + k) v in
      subst (IsHeap h') (sym t.split) (
        replaced h t.before t.behind b is' h' b t.behind (λ x x_lt. ground (arith, t.place))
          (
            record {
              tag = ground (arith, head.tag, t.place);
              before = ground (arith, head.before, t.place);
              aligned = head.aligned;
              enough = head.enough;
            },
            Chain-rest h.word h'.word (p + t.size) t.size t.behind
                (λ x ge x_lt. ground (arith, t.place, t.enough))
                (Chain-behind h t.before t.behind b is'),
          )
          refl (last_here h t.before t.behind b is'))
