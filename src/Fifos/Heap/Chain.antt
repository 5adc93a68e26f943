-- ===== src/Fifos/Heap/Chain.antt =====
-- Chains of blocks in FileSystem-v3/heap.c: where they stand, and what a write to a header changes.
use file_system_toy_os.Prelude.{
  ℕ, ◌+◌, ◌*◌, ◌≤◌, ◌<◌, ◌≡◌, List, [], ◌∷◌, ◌++◌, arith, ◌==◌, if◌then◌else◌, length,
}
use mathlib.Core.Path.{subst}
use file_system_toy_os.Fifos.Heap.{Heap, get_size, is_alloc, next_block}
use file_system_toy_os.Fifos.Heap.Blocks.{Block, Chain, IsHeader, total, last_address, last_size}

pub total-append : (xs ys : List Block) → total (xs ++ ys) ≡ total xs + total ys
total-append [] ys = omega arith
total-append (x ∷ xs) ys = omega (arith, total-append xs ys)

-- The header of the first block is all that may change in the words up to its end.
pub Chain-rest :
    (word word' : ℕ → ℕ) (p prev : ℕ) (bs : List Block)
    → ((x : ℕ) → p ≤ x → x < p + total bs → word' x ≡ word x)
    → Chain word p prev bs
    → Chain word' p prev bs
Chain-rest word word' p prev [] same c = tt
Chain-rest word word' p prev (b ∷ bs) same (head, c) = (
  record {
    tag = ground (arith, same p, head.enough, head.tag);
    before = ground (arith, same (p + 4), head.enough, head.before);
    aligned = head.aligned;
    enough = head.enough;
  },
  Chain-rest word word' (p + b.size) b.size bs (λ x le lt. same x (omega arith) (omega arith)) c,
)

-- A chain whose first block is told another size before it.
pub Chain-before :
    (word word' : ℕ → ℕ) (p prev prev' : ℕ) (bs : List Block)
    → ((x : ℕ) → p ≤ x → x < p + total bs → word' x ≡ (if x == p + 4 then prev' else word x))
    → Chain word p prev bs
    → Chain word' p prev' bs
Chain-before word word' p prev prev' [] same c = tt
Chain-before word word' p prev prev' (b ∷ bs) same (head, c) = (
  record {
    tag = ground (arith, same p, head.enough, head.tag);
    before = ground (arith, same (p + 4), head.enough);
    aligned = head.aligned;
    enough = head.enough;
  },
  Chain-rest word word' (p + b.size) b.size bs (λ x le lt. ground (arith, same x, head.enough)) c,
)

pub Chain-split :
    (word : ℕ → ℕ) (p prev : ℕ) (xs ys : List Block)
    → Chain word p prev (xs ++ ys)
    → Chain word p prev xs × Chain word (p + total xs) (last_size prev xs) ys
Chain-split word p prev [] ys c =
    let e : p ≡ p + total [] = omega arith in (tt, subst (λ q. Chain word q prev ys) e c)
Chain-split word p prev (x ∷ xs) ys (head, c) =
    let (front, back) = Chain-split word (p + x.size) x.size xs ys c in
    let e : p + x.size + total xs ≡ p + (x.size + total xs) = omega arith in
    ((head, front), subst (λ q. Chain word q (last_size x.size xs) ys) e back)

pub Chain-append :
    (word : ℕ → ℕ) (p prev : ℕ) (xs ys : List Block)
    → Chain word p prev xs
    → Chain word (p + total xs) (last_size prev xs) ys
    → Chain word p prev (xs ++ ys)
Chain-append word p prev [] ys c d =
    let e : p + total [] ≡ p = omega arith in subst (λ q. Chain word q prev ys) e d
Chain-append word p prev (x ∷ xs) ys (head, c) d =
    let e : p + (x.size + total xs) ≡ p + x.size + total xs = omega arith in
    (
      head,
      Chain-append word (p + x.size) x.size xs ys c
          (subst (λ q. Chain word q (last_size x.size xs) ys) e d),
    )

pub last_address-append :
    (p : ℕ) (xs : List Block) (y : Block) (ys : List Block)
    → last_address p (xs ++ (y ∷ ys)) ≡ last_address (p + total xs) (y ∷ ys)
last_address-append p [] y ys = let e : p + total [] ≡ p = omega arith in rw e
last_address-append p (x ∷ []) y ys = let e : p + (x.size + 0) ≡ p + x.size = omega arith in rw e
last_address-append p (x ∷ x' ∷ xs) y ys =
    let e : p + (x.size + (x'.size + total xs)) ≡ p + x.size + (x'.size + total xs) = omega arith in
    rw e (last_address-append (p + x.size) (x' ∷ xs) y ys)

-- Whether there is a block behind: by the place of the last one.
pub last_address-le :
    (word : ℕ → ℕ) (p prev : ℕ) (bs : List Block) → Chain word p prev bs → p ≤ last_address p bs
last_address-le word p prev [] c = omega arith
last_address-le word p prev (b ∷ []) c = omega arith
last_address-le word p prev (b ∷ b' ∷ bs) (head, c) =
    omega (arith, last_address-le word (p + b.size) b.size (b' ∷ bs) c)

-- Every block has 16 bytes at least.
pub length-le :
    (word : ℕ → ℕ) (p prev : ℕ) (bs : List Block) → Chain word p prev bs → 16 * length bs ≤ total bs
length-le word p prev [] c = omega arith
length-le word p prev (b ∷ bs) (head, c) =
    omega (arith, head.enough, length-le word (p + b.size) b.size bs c)

-- What the macros read from a header.
module _ (h : Heap) (p prev : ℕ) (b : Block) (head : IsHeader h.word p prev b) where
  pub get_size_lem : get_size h p ≡ b.size
  get_size_lem = ground (arith, head.tag, head.aligned)

  pub is_alloc_lem : is_alloc h p ≡ b.used
  is_alloc_lem = ground (arith, head.tag, head.aligned)

-- NEXT_BLKP: the block behind, NULL for the last one.
pub next_block-last : (h : Heap) (p : ℕ) → h.lastptr ≡ p → next_block h p ≡ 0
next_block-last h p e = ground arith

pub next_block-more :
    (h : Heap) (p prev : ℕ) (b c : Block) (bs : List Block)
    → Chain h.word p prev (b ∷ c ∷ bs)
    → h.lastptr ≡ last_address p (b ∷ c ∷ bs)
    → next_block h p ≡ p + b.size
next_block-more h p prev b c bs (head, d) last =
    let le = last_address-le h.word (p + b.size) b.size (c ∷ bs) d in
    ground (arith, last, le, head.enough, get_size_lem h p prev b head)
