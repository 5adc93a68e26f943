-- ===== src/Fifos/Heap/Returned.antt =====
-- `malloc` and then `free` of the same block, in FileSystem-v3/heap.c.
use mathlib.Core.Path.{subst}
use file_system_toy_os.Prelude.{
  ℕ, ◌+◌, ◌-◌, ◌^◌, ◌≤◌, ◌<◌, ◌≡◌, ◌≢◌, ◌⊎◌, refl, sym, ap, ◌∙◌, true, false, ◌||◌, Option, none,
  some, List, [], ◌∷◌, ◌++◌, arith, ltb, leb, Bool-cases, inl, inr,
}
use file_system_toy_os.Fifos.Heap.{Heap, block_bytes, malloc, free}
use file_system_toy_os.Fifos.Heap.Blocks.{
  Block, free_block, used_block, IsHeap, total, taken, in_front, take_first, join_next, give_back,
}
use file_system_toy_os.Fifos.Heap.Malloc.{Allocated, malloc-Allocated}
use file_system_toy_os.Fifos.Heap.Free.{free-IsHeap}

-- No two free blocks stand side by side.
abbrev pub AreJoined : List Block → Type 0
AreJoined [] = Unit {0}
AreJoined (b ∷ []) = Unit {0}
AreJoined (b ∷ c ∷ bs) = ((b.used ≡ true) ⊎ (c.used ≡ true)) × AreJoined (c ∷ bs)

abbrev LastUsed : List Block → Type 0
LastUsed [] = Unit {0}
LastUsed (x ∷ []) = x.used ≡ true
LastUsed (x ∷ y ∷ xs) = LastUsed (y ∷ xs)

abbrev HeadUsed : List Block → Type 0
HeadUsed [] = Unit {0}
HeadUsed (y ∷ ys) = y.used ≡ true

AreJoined-LastUsed :
    (xs : List Block) (s : ℕ) (ys : List Block)
    → AreJoined (xs ++ (free_block s ∷ ys))
    → LastUsed xs × HeadUsed ys
AreJoined-LastUsed [] s [] j = (tt, tt)
AreJoined-LastUsed [] s (y ∷ ys) (inl e, j) = absurd (cc)
AreJoined-LastUsed [] s (y ∷ ys) (inr e, j) = (tt, e)
AreJoined-LastUsed (x ∷ []) s ys (inl e, j) = (e, (AreJoined-LastUsed [] s ys j).1)
AreJoined-LastUsed (x ∷ []) s ys (inr e, j) = absurd (cc)
AreJoined-LastUsed (x ∷ y ∷ xs) s ys (e, j) = AreJoined-LastUsed (y ∷ xs) s ys j

give_back-LastUsed :
    (xs : List Block) (s : ℕ) (ys : List Block)
    → LastUsed xs
    → give_back xs s ys ≡ xs ++ join_next s ys
unfolding give_back
give_back-LastUsed [] s ys u = refl
give_back-LastUsed (x ∷ []) s ys u = rw u refl
give_back-LastUsed (x ∷ y ∷ xs) s ys u = ap (λ zs. x ∷ zs) (give_back-LastUsed (y ∷ xs) s ys u)

join_next-HeadUsed : (s : ℕ) (ys : List Block) → HeadUsed ys → join_next s ys ≡ free_block s ∷ ys
join_next-HeadUsed s [] u = refl
join_next-HeadUsed s (y ∷ ys) u = rw u refl

-- How `take_first` splits the blocks `bs` and makes `bs'`.
record IsSplit (n p q : ℕ) (bs bs' : List Block) : Type 0 where
  before : List Block
  size : ℕ
  behind : List Block
  old : bs ≡ before ++ (free_block size ∷ behind)
  new : bs' ≡ before ++ taken n size behind
  place : q ≡ p + total before
  fits : n ≤ size

abbrev Splits : ℕ → ℕ → List Block → Option (ℕ × List Block) → Type 0
Splits n p bs none = Unit {0}
Splits n p bs (some (q, bs')) = IsSplit n p q bs bs'

in_front-Splits :
    (n p : ℕ) (b : Block) (bs : List Block) (o : Option (ℕ × List Block))
    → Splits n (p + b.size) bs o
    → Splits n p (b ∷ bs) (in_front b o)
in_front-Splits n p b bs none h = tt
in_front-Splits n p b bs (some (q, bs')) h = record {
  before = b ∷ h.before;
  size = h.size;
  behind = h.behind;
  old = ap (λ cs. b ∷ cs) h.old;
  new = ap (λ cs. b ∷ cs) h.new;
  place = omega (arith, h.place);
  fits = h.fits;
}

free_record : (b : Block) → b.used ≡ false → b ≡ free_block b.size
free_record b e = ap (λ u. record { size = b.size; used = u }) e

take_first-Splits : (n p : ℕ) (bs : List Block) → Splits n p bs (take_first n p bs)
unfolding take_first
take_first-Splits n p [] = tt
take_first-Splits n p (b ∷ bs) = elim (Bool-cases (b.used || ltb b.size n)) [
  | inl skip ↦
      rw (skip, take_first)
        (in_front-Splits n p b bs (take_first n (p + b.size) bs)
          (take_first-Splits n (p + b.size) bs))
  | inr fit ↦
      rw (fit, take_first)
        (record {
          before = [];
          size = b.size;
          behind = bs;
          old = ap (λ c. c ∷ bs) (free_record b (ground arith));
          new = refl;
          place = omega arith;
          fits = ground arith;
        })
]

module _ (n q : ℕ) (bs bs' : List Block) (sp : IsSplit n 8 q bs bs') (joined : AreJoined bs)
    (h : Heap) (is : IsHeap h bs') where
  neighbours : LastUsed sp.before × HeadUsed sp.behind
  neighbours = AreJoined-LastUsed sp.before sp.size sp.behind (subst AreJoined sp.old joined)

  -- The block that is given back, with what was split off behind it, is the free block again.
  back :
      (s : ℕ) (ys : List Block)
      → taken n sp.size sp.behind ≡ used_block s ∷ ys
      → join_next s ys ≡ free_block sp.size ∷ sp.behind
      → IsHeap (free h (q + 8)) bs
  back s ys e joins =
      let is' = subst (λ zs. IsHeap h (sp.before ++ zs)) e (subst (IsHeap h) sp.new is) in
      let same : give_back sp.before s ys ≡ bs =
        give_back-LastUsed sp.before s ys neighbours.0
        ∙ ap (λ zs. sp.before ++ zs) joins
        ∙ sym sp.old in
      subst (λ a. IsHeap (free h (a + 8)) bs) (sym sp.place)
        (subst (IsHeap (free h (8 + total sp.before + 8))) same (free-IsHeap h sp.before ys s is'))

  back-IsHeap : IsHeap (free h (q + 8)) bs
  back-IsHeap = elim (Bool-cases (leb (sp.size - n) 8)) [
    | inl whole ↦
        back sp.size sp.behind (rw whole refl) (join_next-HeadUsed sp.size sp.behind neighbours.1)
    | inr part ↦
        let e : n + (sp.size - n) ≡ sp.size = omega (arith, sp.fits) in
        back n (free_block (sp.size - n) ∷ sp.behind) (rw part refl)
          (ap (λ s. free_block s ∷ sp.behind) e)
  ]

-- What `free` makes of an allocation.
abbrev GivesBack : List Block → Option (ℕ × Heap) → Type 0
GivesBack bs none = ⊥
GivesBack bs (some (a, h)) = (a ≡ 0) ⊎ IsHeap (free h a) bs

module _ (h : Heap) (size : ℕ) (some_bytes : size ≢ 0) (small : size < 2 ^ 32 - 15)
    (bs : List Block) (is : IsHeap h bs) (joined : AreJoined bs) where
  gives_back :
      (o : Option (ℕ × List Block))
      → Splits (block_bytes size) 8 bs o
      → (r : Option (ℕ × Heap)) → Allocated h o r
      → GivesBack bs r
  gives_back none sp r e = subst (GivesBack bs) (sym e) (inl refl)
  gives_back (some (q, bs')) sp r (h', e, is') =
      subst (GivesBack bs) (sym e) (inr (back-IsHeap (block_bytes size) q bs bs' sp joined h' is'))

  -- Let the heap be a list of blocks (IsHeap) no two neighbours of which are free (AreJoined),
  -- and the size neither 0 nor above 2^32 - 16. If malloc of the size gives an address that is
  -- not NULL, then after free of that address the heap is the same list of blocks again.
  pub malloc_then_free :
      (a : ℕ) (h' : Heap) → malloc h size ≡ some (a, h') → a ≢ 0 → IsHeap (free h' a) bs
  malloc_then_free a h' e ne =
      elim (subst (GivesBack bs) e (
        gives_back (take_first (block_bytes size) 8 bs) (take_first-Splits (block_bytes size) 8 bs)
          (malloc h size) (malloc-Allocated h size some_bytes small bs is))) [
            | inl z ↦ absurd (ne z)
            | inr back ↦ back
          ]
