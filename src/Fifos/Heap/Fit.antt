-- ===== src/Fifos/Heap/Fit.antt =====
-- The search of `malloc` in FileSystem-v3/heap.c, and `take_first` on the list of blocks.
use file_system_toy_os.Prelude.{
  ℕ, zero, suc, ◌+◌, ◌≤◌, ◌<◌, ◌≡◌, ◌≢◌, ◌⊎◌, inl, inr, refl, sym, ap, ◌∙◌, Bool, true, false, List,
  [], ◌∷◌, ◌++◌, Option, none, some, ◌||◌, arith, ltb, length, Bool-cases,
}
use mathlib.Core.Path.{subst}
use file_system_toy_os.Fifos.Heap.{Heap, get_size, is_alloc, next_block, first_fit}
use file_system_toy_os.Fifos.Heap.Blocks.{
  Block, free_block, Chain, IsHeader, total, last_address, taken, take_first,
}
use file_system_toy_os.Fifos.Heap.Chain.{
  get_size_lem, is_alloc_lem, next_block-last, next_block-more,
}

abbrev pub is_unfit : ℕ → Block → Bool
is_unfit n b = b.used || ltb b.size n

abbrev pub Unfit : ℕ → List Block → Type 0
Unfit n [] = Unit {0}
Unfit n (b ∷ bs) = (is_unfit n b ≡ true) × Unfit n bs

-- The first free block of at least `n` bytes among those from `p` on stands at `q`, behind `xs`.
pub record IsFit (n p : ℕ) (bs : List Block) (q : ℕ) (xs : List Block) (s : ℕ) (ys : List Block)
    : Type 0 where
  pub split : bs ≡ xs ++ (free_block s ∷ ys)
  pub unfit : Unfit n xs
  pub fits : n ≤ s
  pub place : q ≡ p + total xs

-- What the search comes to.
abbrev pub Searched : ℕ → ℕ → List Block → Option ℕ → Type 0
Searched n p bs o =
    (Unfit n bs × (o ≡ some 0))
    ⊎ ((q : ℕ) × (xs : List Block) × (s : ℕ) × (ys : List Block) × (o ≡ some q)
        × IsFit n p bs q xs s ys)

module _ (h : Heap) (n : ℕ) where
  first_fit-next :
      (fuel p : ℕ)
      → p ≢ 0
      → (is_alloc h p || ltb (get_size h p) n) ≡ true
      → first_fit h n (suc fuel) p ≡ first_fit h n fuel (next_block h p)
  unfolding first_fit
  first_fit-next fuel p ne unfit = ground arith

  first_fit-here :
      (fuel p : ℕ)
      → p ≢ 0
      → (is_alloc h p || ltb (get_size h p) n) ≡ false
      → first_fit h n (suc fuel) p ≡ some p
  unfolding first_fit
  first_fit-here fuel p ne fit = ground arith

  first_fit-end : (fuel : ℕ) → first_fit h n (suc fuel) 0 ≡ some 0
  unfolding first_fit
  first_fit-end fuel = refl

  same_test :
      (p prev : ℕ) (b : Block)
      → IsHeader h.word p prev b
      → (is_alloc h p || ltb (get_size h p) n) ≡ is_unfit n b
  same_test p prev b head =
      ground (arith, is_alloc_lem h p prev b head, get_size_lem h p prev b head)

  -- The first block passed over is one more of those before the place found.
  Searched-cons :
      (p : ℕ) (b : Block) (bs : List Block) (o : Option ℕ)
      → is_unfit n b ≡ true
      → Searched n (p + b.size) bs o
      → Searched n p (b ∷ bs) o
  Searched-cons p b bs o unfit (inl (rest, e)) = inl ((unfit, rest), e)
  Searched-cons p b bs o unfit (inr (q, xs, s, ys, e, fit)) = inr (
    q,
    b ∷ xs,
    s,
    ys,
    e,
    record {
      split = ap (◌∷◌ b) fit.split;
      unfit = (unfit, fit.unfit);
      fits = fit.fits;
      place = omega (arith, fit.place);
    },
  )

  -- The round at a block, given what the search from the next block on comes to.
  Searched-round :
      (fuel p prev : ℕ) (b : Block) (bs : List Block)
      → p ≢ 0
      → IsHeader h.word p prev b
      → Searched n (p + b.size) bs (first_fit h n fuel (next_block h p))
      → Searched n p (b ∷ bs) (first_fit h n (suc fuel) p)
  Searched-round fuel p prev b bs ne head rest = elim (Bool-cases (is_unfit n b)) [
    | inl unfit ↦
        subst (Searched n p (b ∷ bs))
          (sym (first_fit-next fuel p ne (same_test p prev b head ∙ unfit)))
          (Searched-cons p b bs (first_fit h n fuel (next_block h p)) unfit rest)
    | inr fit ↦
        let free : b.used ≡ false = ground arith in
        inr (
          p,
          [],
          b.size,
          bs,
          first_fit-here fuel p ne (same_test p prev b head ∙ fit),
          record {
            split = ap (λ u. record { size = b.size; used = u } ∷ bs) free;
            unfit = tt;
            fits = ground arith;
            place = omega arith;
          },
        )
  ]

  -- With a round for each block and one more the search ends.
  pub first_fit-Searched :
      (fuel p prev : ℕ) (b : Block) (bs : List Block)
      → p ≢ 0
      → length bs + 1 < fuel
      → Chain h.word p prev (b ∷ bs)
      → h.lastptr ≡ last_address p (b ∷ bs)
      → Searched n p (b ∷ bs) (first_fit h n fuel p)
  first_fit-Searched zero p prev b bs ne lt c last = absurd (omega arith)
  first_fit-Searched (suc zero) p prev b bs ne lt c last = absurd (omega arith)
  first_fit-Searched (suc (suc fuel)) p prev b [] ne lt (head, c) last =
      Searched-round (suc fuel) p prev b [] ne head
        (inl (tt, rw (next_block-last h p last) (first_fit-end fuel)))
  first_fit-Searched (suc (suc fuel)) p prev b (b' ∷ bs) ne lt (head, c) last =
      Searched-round (suc fuel) p prev b (b' ∷ bs) ne head (
        subst (λ q. Searched n (p + b.size) (b' ∷ bs) (first_fit h n (suc fuel) q))
          (sym (next_block-more h p prev b b' bs (head, c) last))
          (first_fit-Searched (suc fuel) (p + b.size) b.size b' bs (λ e. omega (arith, ne))
            (omega arith) c last))

-- The search on the list comes to the same.
pub take_first-none : (n p : ℕ) (bs : List Block) → Unfit n bs → take_first n p bs ≡ none
unfolding take_first
take_first-none n p [] u = refl
take_first-none n p (b ∷ bs) (unfit, u) =
    rw (unfit, take_first) (rw (take_first-none n (p + b.size) bs u))

pub take_first-some :
    (n p s : ℕ) (xs ys : List Block)
    → Unfit n xs
    → n ≤ s
    → take_first n p (xs ++ (free_block s ∷ ys)) ≡ some (p + total xs, xs ++ taken n s ys)
unfolding take_first
take_first-some n p s [] ys u le = ground arith
take_first-some n p s (x ∷ xs) ys (unfit, u) le =
    let e : p + x.size + total xs ≡ p + (x.size + total xs) = omega arith in
    rw (unfit, take_first) (rw (take_first-some n (p + x.size) s xs ys u le, e))
