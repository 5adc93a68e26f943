-- ===== src/Fifos/Heap/Blocks.antt =====
-- The heap of FileSystem-v3/heap.c as a list of blocks.
use file_system_toy_os.Prelude.{
  ℕ, ◌+◌, ◌-◌, ◌%◌, ◌≤◌, ◌≡◌, Bool, true, false, List, [], ◌∷◌, Option, none, some, ◌||◌, ltb, leb,
  if◌then◌else◌,
}
use file_system_toy_os.Fifos.Heap.{Heap, default_mem_size, baseptr}

pub record Block : Type 0 where
  pub size : ℕ
  pub used : Bool

abbrev pub free_block : ℕ → Block
free_block s = record { size = s; used = false }

abbrev pub used_block : ℕ → Block
used_block s = record { size = s; used = true }

abbrev pub total : List Block → ℕ
total [] = 0
total (b ∷ bs) = b.size + total bs

-- The address of the last of the blocks that stand from `p` on.
abbrev pub last_address : ℕ → List Block → ℕ
last_address p [] = p
last_address p (b ∷ []) = p
last_address p (b ∷ c ∷ bs) = last_address (p + b.size) (c ∷ bs)

-- The size of the last block, `prev` where there is none.
abbrev pub last_size : ℕ → List Block → ℕ
last_size prev [] = prev
last_size prev (b ∷ bs) = last_size b.size bs

-- The header of a block: its size with the bit, and the size of the block before it.
pub record IsHeader (word : ℕ → ℕ) (p prev : ℕ) (b : Block) : Type 0 where
  pub tag : word p ≡ b.size + (if b.used then 1 else 0)
  pub before : word (p + 4) ≡ prev
  pub aligned : b.size % 8 ≡ 0
  pub enough : 16 ≤ b.size

-- The blocks stand one behind the other from `p` on.
abbrev pub Chain : (ℕ → ℕ) → ℕ → ℕ → List Block → Type 0
Chain word p prev [] = Unit {0}
Chain word p prev (b ∷ bs) = IsHeader word p prev b × Chain word (p + b.size) b.size bs

pub record IsHeap (h : Heap) (bs : List Block) : Type 0 where
  pub chain : Chain h.word baseptr 0 bs
  pub last : h.lastptr ≡ last_address baseptr bs
  pub full : baseptr + total bs ≡ default_mem_size

-- What `malloc` promises: the first free block of at least `n` bytes is taken, and what it leaves
-- is a free block of its own where that is more than 8 bytes.
abbrev pub taken : ℕ → ℕ → List Block → List Block
taken n s bs = if leb (s - n) 8 then used_block s ∷ bs else used_block n ∷ free_block (s - n) ∷ bs

abbrev pub in_front : Block → Option (ℕ × List Block) → Option (ℕ × List Block)
in_front b none = none
in_front b (some (p, bs)) = some (p, b ∷ bs)

unfoldable pub take_first : ℕ → ℕ → List Block → Option (ℕ × List Block)
take_first n p [] = none
take_first n p (b ∷ bs) =
    let rest = in_front b (take_first n (p + b.size) bs) in
    if b.used || ltb b.size n then rest else some (p, taken n b.size bs)

-- What `free` promises: the block and its free neighbours become one free block.
abbrev pub join_next : ℕ → List Block → List Block
join_next s [] = free_block s ∷ []
join_next s (b ∷ bs) = if b.used then free_block s ∷ b ∷ bs else free_block (s + b.size) ∷ bs

abbrev pub join_free : List Block → List Block
join_free [] = []
join_free (b ∷ bs) = join_next b.size bs

unfoldable pub give_back : List Block → ℕ → List Block → List Block
give_back [] s ys = join_next s ys
give_back (x ∷ []) s ys = if x.used then x ∷ join_next s ys else join_free (x ∷ join_next s ys)
give_back (x ∷ y ∷ xs) s ys = x ∷ give_back (y ∷ xs) s ys
