-- ===== src/Prelude/Loops.antt =====
-- The loops of the C code: `for` with an early exit, and the search for the first index that
-- passes a test, each with its rule.
use mathlib.Core.Path.{◌∙◌, ◌≡◌, refl, sym, ap, subst}
use file_system_toy_os.Prelude.Tests.{Option-cases, ◌==◌, if◌then◌else◌, Bool-cases}
use Prim.Native.Nat.{ℕ, zero, suc, ◌+◌, ◌≤◌, ◌<◌}
use mathlib.Core.Logic.{◌≢◌, ◌⊎◌, inl, inr}
use mathlib.Core.Bool.{Bool, true, false}
use mathlib.Core.Option.{Option, none, some}
use native.Mathlib.Decide.{dec_lt}
use native.Mathlib.Omega.{arith}

-- What a round of a loop says: go on with a state, or leave the loop.
pub data Step {ℓ κ} (S : Type ℓ) (R : Type κ) : Type (ℓ ⊔ κ) where
  next : S → Step S R
  done : R → Step S R

-- `for (k = i; k < i + n; k++)` over a state, with an exit.
unfoldable pub for_until {ℓ κ} :
    {S : Type ℓ} {R : Type κ} → ℕ → ℕ → (ℕ → S → Step S R) → S → Step S R
for_until zero i body s = next s
for_until (suc n) i body s = elim (body i s) [
  | next s' ↦ for_until n (i + 1) body s'
  | done r ↦ done r
]

-- `for (k = i; k < i + n; k++)` over a state.
unfoldable pub for_range {ℓ} : {State : Type ℓ} → ℕ → ℕ → (ℕ → State → State) → State → State
for_range zero first round now = now
for_range (suc rounds) first round now = for_range rounds (first + 1) round (round first now)

-- The first index from `i` on, among `n`, that passes the test.
unfoldable pub find_from : ℕ → ℕ → (ℕ → Bool) → Option ℕ
find_from zero i test = none
find_from (suc n) i test = let rest = find_from n (i + 1) test in if test i then some i else rest

-- What holds of the outcome of a loop with an exit.
abbrev pub Ends {ℓ κ} : {S : Type ℓ} {R : Type κ} → (S → Type 0) → (R → Type 0) → Step S R → Type 0
Ends P Q (next s) = P s
Ends P Q (done r) = Q r

module _ {ℓ κ} {S : Type ℓ} {R : Type κ} (P : ℕ → S → Type 0) (Q : R → Type 0)
    (body : ℕ → S → Step S R) where
  -- One round, then the rest of the loop.
  Ends-round :
      (n i j : ℕ) (r : Step S R)
      → Ends (P (i + 1)) Q r
      → ((t : S) → P (i + 1) t → Ends (P j) Q (for_until n (i + 1) body t))
      → Ends (P j) Q (elim r [ next t ↦ for_until n (i + 1) body t | done x ↦ done x ])
  Ends-round n i j (next t) h rest = rest t h
  Ends-round n i j (done x) h rest = h

  -- The rule of `for_until`: `P` before each round, `Q` at every exit.
  pub for_until_inv :
      (n i j : ℕ) (s : S)
      → i + n ≡ j
      → ((k : ℕ) (t : S) → i ≤ k → k < j → P k t → Ends (P (k + 1)) Q (body k t))
      → P i s
      → Ends (P j) Q (for_until n i body s)
  unfolding for_until
  for_until_inv zero i j s e keep h = let e' : i ≡ j = omega arith in subst (λ k. P k s) e' h
  for_until_inv (suc n) i j s e keep h =
      Ends-round n i j (body i s) (keep i s (omega arith) (omega arith) h)
        (λ t p. for_until_inv n (i + 1) j t (omega arith) (λ k u a b. keep k u (omega arith) b) p)

-- The rule of `for_range`.
pub for_range_inv {ℓ} :
    {S : Type ℓ} (P : ℕ → S → Type 0) (body : ℕ → S → S) (n i j : ℕ) (s : S)
    → i + n ≡ j
    → ((k : ℕ) (t : S) → i ≤ k → k < j → P k t → P (k + 1) (body k t))
    → P i s
    → P j (for_range n i body s)
unfolding for_range
for_range_inv P body zero i j s e keep h = let e' : i ≡ j = omega arith in subst (λ k. P k s) e' h
for_range_inv P body (suc n) i j s e keep h =
    for_range_inv P body n (i + 1) j (body i s) (omega arith) (λ k u a b. keep k u (omega arith) b)
      (keep i s (omega arith) (omega arith) h)

-- A hit of `find_from` is in range, passes the test, and is the first to do so.
pub record IsFirst (i n : ℕ) (test : ℕ → Bool) (k : ℕ) : Type 0 where
  pub from : i ≤ k
  pub below : k < i + n
  pub passes : test k ≡ true
  pub before : (m : ℕ) → i ≤ m → m < k → test m ≡ false

-- What `find_from` says: the first index that passes, or that none does.
abbrev pub Found : ℕ → ℕ → (ℕ → Bool) → Option ℕ → Type 0
Found i n test (some k) = IsFirst i n test k
Found i n test none = (m : ℕ) → i ≤ m → m < i + n → test m ≡ false

pub find_from_lem : (n i : ℕ) (test : ℕ → Bool) → Found i n test (find_from n i test)
unfolding find_from
find_from_lem zero i test = λ m a b. absurd (omega arith)
find_from_lem (suc n) i test = elim (Bool-cases (test i)) [
  | inl hit ↦ rw hit (record {
    from = omega arith;
    below = omega arith;
    passes = hit;
    before = λ m a b. absurd (omega arith);
  })
  | inr miss ↦ rw miss (later (find_from n (i + 1) test) (find_from_lem n (i + 1) test) miss)
]
  where
    at : (m : ℕ) → i ≤ m → test i ≡ false → (m ≢ i → test m ≡ false) → test m ≡ false
    at m a miss h = elim (Bool-cases (m == i)) [
      | inl e ↦ let e' : m ≡ i = ground arith in subst (λ k. test k ≡ false) (sym e') miss
      | inr e ↦ h (ground arith)
    ]

    later : (o : Option ℕ) → Found (i + 1) n test o → test i ≡ false → Found i (suc n) test o
    later none h miss = λ m a b. at m a miss (λ ne. h m (omega arith) (omega arith))
    later (some k) h miss = record {
      from = omega arith;
      below = omega arith;
      passes = h.passes;
      before = λ m a b. at m a miss (λ ne. h.before m (omega arith) b);
    }

-- Tests that agree in the range have the same first hit.
pub find_from-ext :
    (n i : ℕ) (test test' : ℕ → Bool)
    → ((m : ℕ) → i ≤ m → m < i + n → test' m ≡ test m)
    → find_from n i test' ≡ find_from n i test
unfolding find_from
find_from-ext zero i test test' h = refl
find_from-ext (suc n) i test test' h =
    rw
      (
        h i (omega arith) (omega arith),
        find_from-ext n (i + 1) test test' (λ m u v. h m (omega arith) (omega arith)),
      )
      refl

-- A first hit is what `find_from` returns.
pub find_from-first :
    (n i : ℕ) (test : ℕ → Bool) (k : ℕ) → IsFirst i n test k → find_from n i test ≡ some k
find_from-first n i test k h = go (find_from n i test) (find_from_lem n i test)
  where
    go : (o : Option ℕ) → Found i n test o → o ≡ some k
    go none f =
        let a : test k ≡ false = f k h.from h.below in let b : test k ≡ true = h.passes in cc
    go (some m) f = ap some (same m f)
      where
        same : (m : ℕ) → IsFirst i n test m → m ≡ k
        same m f = elim (dec_lt m k) [
          | yes lt ↦
              let a : test m ≡ false = h.before m f.from lt in
              let b : test m ≡ true = f.passes in cc
          | no ge ↦ elim (dec_lt k m) [
            | yes lt ↦
                let a : test k ≡ false = f.before k h.from lt in
                let b : test k ≡ true = h.passes in cc
            | no ge' ↦ omega arith
          ]
        ]

-- The first value that a search over the indices from `i` on, `n` of them, comes up with.
unfoldable pub first_some {ℓ} : {A : Type ℓ} → ℕ → ℕ → (ℕ → Option A) → Option A
first_some zero i f = none
first_some (suc n) i f = elim (f i) [ some a ↦ some a | none ↦ first_some n (i + 1) f ]

-- A search that no index passes finds nothing.
pub find_from-none :
    (n i : ℕ) (test : ℕ → Bool)
    → ((m : ℕ) → i ≤ m → m < i + n → test m ≡ false)
    → find_from n i test ≡ none
unfolding find_from
find_from-none zero i test h = refl
find_from-none (suc n) i test h =
    rw (h i (omega arith) (omega arith))
      (find_from-none n (i + 1) test (λ m a b. h m (omega arith) (omega arith)))

-- A loop that is left in its first round.
pub for_until-first {ℓ κ} :
    {S : Type ℓ} {R : Type κ} (n i : ℕ) (body : ℕ → S → Step S R) (s : S) (r : R)
    → 0 < n
    → body i s ≡ done r
    → for_until n i body s ≡ done r
unfolding for_until
for_until-first zero i body s r lt e = absurd (omega arith)
for_until-first (suc n) i body s r lt e = rw (e, for_until)

-- A search that comes up with something somewhere: what all its hits have is had by the result.
pub first_some-hit {ℓ κ} :
    {A : Type ℓ} (P : A → Type κ) (n i : ℕ) (f : ℕ → Option A) (j : ℕ)
    → ((m : ℕ) → i ≤ m → m < i + n → (f m ≡ none) ⊎ ((a : A) × (f m ≡ some a) × P a))
    → i ≤ j
    → j < i + n
    → f j ≢ none
    → (a : A) × (first_some n i f ≡ some a) × P a
unfolding first_some
first_some-hit P zero i f j all le lt hit = absurd (omega arith)
first_some-hit P (suc n) i f j all le lt hit = elim (all i (omega arith) (omega arith)) [
  | inr (a, e, h) ↦ (a, rw (e, first_some) refl, h)
  | inl e ↦
      let ne : i ≢ j = λ e'. hit (subst (λ m. f m ≡ none) e' e) in
      let (a, found, h) =
        first_some-hit P n (i + 1) f j (λ m u v. all m (omega arith) (omega arith)) (omega arith)
          (omega arith) hit in
      (a, rw (e, first_some) found, h)
]

-- A search that no index satisfies comes up with nothing.
pub first_some-none {ℓ} :
    {A : Type ℓ} (n i : ℕ) (f : ℕ → Option A)
    → ((m : ℕ) → i ≤ m → m < i + n → f m ≡ none)
    → first_some n i f ≡ none
unfolding first_some
first_some-none zero i f h = refl
first_some-none (suc n) i f h =
    rw (h i (omega arith) (omega arith), first_some)
      (first_some-none n (i + 1) f (λ m u v. h m (omega arith) (omega arith)))

pub first_some-ext {ℓ} :
    {A : Type ℓ} (n i : ℕ) (f f' : ℕ → Option A)
    → ((m : ℕ) → i ≤ m → m < i + n → f' m ≡ f m)
    → first_some n i f' ≡ first_some n i f
unfolding first_some
first_some-ext zero i f f' h = refl
first_some-ext (suc n) i f f' h =
    let same = h i (omega arith) (omega arith) in
    let rest = first_some-ext n (i + 1) f f' (λ m u v. h m (omega arith) (omega arith)) in
    elim (Option-cases (f i)) [
      | inl e ↦ rw (same ∙ e, e, first_some) rest
      | inr (a, e) ↦ rw (same ∙ e, e, first_some) refl
    ]
