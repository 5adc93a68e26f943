-- ===== src/Fifos/Start/Created.antt =====
-- The threads that `init` of FileSystem-v3/init.c makes, one after the other.
use file_system_toy_os.Prelude.{
  ltb, ℕ, suc, ◌+◌, ◌-◌, ◌≤◌, ◌<◌, ◌≡◌, ◌≢◌, ◌∙◌, refl, ap, arith, Option, none, some, List, [],
  ◌∷◌, ◌++◌, length, length-append, ◌==◌, Bool-cases, Option-cases, inl, inr, true, false, ◌⊎◌,
  ==→eq, ==→ne,
}
use mathlib.Core.Path.{subst, sym}
use file_system_toy_os.Prelude.Loops.{find_from}
use file_system_toy_os.Fifos.Heap.{malloc}
use file_system_toy_os.Fifos.Heap.Blocks.{Block, IsHeap, take_first}
use file_system_toy_os.Fifos.Queue.{queue_add}
use file_system_toy_os.Fifos.Queue.Contents.{Holds}
use file_system_toy_os.Fifos.Thread.{State, Threads, is_empty, with_stack, thread_create}
use file_system_toy_os.Fifos.Thread.Create.{Creation, IsCreated, thread_create_lem}

-- Threads 1 to `n` are new, and wait as `xs`; the other places up to 5 are empty.
pub record IsMade (n : ℕ) (xs : List ℕ) (bs : List Block) (s : Threads) : Type 0 where
  pub heap : IsHeap s.heap bs
  pub numbers : (i : ℕ) → 1 ≤ i → i < 6 → (s.thread_pool i).tid ≡ i
  pub made : (i : ℕ) → 1 ≤ i → i ≤ n → (s.thread_pool i).state ≡ State.new
  pub left : (i : ℕ) → n < i → i < 6 → (s.thread_pool i).state ≡ State.empty
  pub pool_size : s.pool_size ≡ 6
  pub queue : Holds s.ready_queue xs
  pub queue_size : s.ready_queue.size ≡ 7
  pub as_many : length xs ≡ n
  pub current : s.current_tid ≡ 0

-- What no outcome of `thread_create` changes.
abbrev Keeps : Threads → Option (ℕ × Threads) → Type 0
Keeps s none = Unit {0}
Keeps s (some (i, s')) =
    (s'.pool_size ≡ s.pool_size)
    × (s'.ready_queue.size ≡ s.ready_queue.size)
    × (s'.current_tid ≡ s.current_tid)

thread_create-Keeps : (finish : ℕ) (s : Threads) (f : ℕ) → Keeps s (thread_create finish s f)
unfolding thread_create queue_add
thread_create-Keeps finish s f =
    elim (Option-cases (find_from (s.pool_size - 1) 1 (λ i. is_empty (s.thread_pool i).state))) [
      | inl e ↦ rw (e, thread_create) (refl, refl, refl)
      | inr (i, e) ↦ elim (Option-cases (malloc s.heap 4096)) [
        | inl e₁ ↦ rw (e, e₁, thread_create) tt
        | inr ((stack, h), e₁) ↦ elim (Bool-cases (stack == 0)) [
          | inl e₂ ↦ rw (e, e₁, e₂, thread_create) (refl, refl, refl)
          | inr e₂ ↦ rw (e, e₁, e₂, thread_create) (refl, ground arith, refl)
        ]
      ]
    ]

module _ (finish f n : ℕ) (xs : List ℕ) (bs : List Block) (s : Threads) (h : IsMade n xs bs s)
    (lt : n < 5) where
  -- The place that is found is the next one.
  next_place :
      (i : ℕ) (s' : Threads) (p : ℕ) (cs : List Block) → IsCreated s s' i p cs xs → i ≡ suc n
  next_place i s' p cs c = elim (Bool-cases (ltb i (suc n))) [
    | inl before ↦
        let new : is_empty (s.thread_pool i).state ≡ false =
          ap is_empty (h.made i c.place.0 (ground arith)) in
        absurd (cc (new, c.was_empty))
    | inr from ↦ elim (Bool-cases (i == suc n)) [
      | inl same ↦ ==→eq i (suc n) same
      | inr other ↦
          let free : is_empty (s.thread_pool (suc n)).state ≡ true =
            ap is_empty (h.left (suc n) (omega arith) (omega arith)) in
          let busy : is_empty (s.thread_pool (suc n)).state ≡ false =
            c.lowest (suc n) (omega arith) (ground arith) in
          absurd (cc (free, busy))
    ]
  ]

  -- A place is the new thread's, or is as it was.
  place-after :
      (s' : Threads) (p : ℕ) (cs : List Block)
      → IsCreated s s' (suc n) p cs xs
      → (i : ℕ)
      → ((i ≡ suc n) × (s'.thread_pool i ≡ with_stack (s.thread_pool i) (p + 8)))
        ⊎ ((i ≢ suc n) × (s'.thread_pool i ≡ s.thread_pool i))
  place-after s' p cs c i = elim (Bool-cases (i == suc n)) [
    | inl e ↦
        let e' : i ≡ suc n = ==→eq i (suc n) e in
        inl
          (e', subst (λ j. s'.thread_pool j ≡ with_stack (s.thread_pool j) (p + 8)) (sym e') c.tcb)
    | inr e ↦ inr (==→ne i (suc n) e, c.others i (==→ne i (suc n) e))
  ]

  next-IsMade :
      (s' : Threads) (p : ℕ) (cs : List Block)
      → IsCreated s s' (suc n) p cs xs
      → Keeps s (some (suc n, s'))
      → IsMade (suc n) (xs ++ (suc n ∷ [])) cs s'
  next-IsMade s' p cs c (size, queue_size, current) = record {
    heap = c.heap;
    numbers = λ i le i_lt. elim (place-after s' p cs c i) [
      | inl (_, e) ↦ ap (λ t. t.tid) e ∙ h.numbers i le i_lt
      | inr (_, e) ↦ ap (λ t. t.tid) e ∙ h.numbers i le i_lt
    ];
    made = λ i le i_le. elim (place-after s' p cs c i) [
      | inl (_, e) ↦ ap (λ t. t.state) e
      | inr (ne, e) ↦ ap (λ t. t.state) e ∙ h.made i le (omega arith)
    ];
    left = λ i n_lt i_lt. elim (place-after s' p cs c i) [
      | inl (same, _) ↦ absurd (omega (arith, same))
      | inr (_, e) ↦ ap (λ t. t.state) e ∙ h.left i (omega arith) i_lt
    ];
    pool_size = size ∙ h.pool_size;
    queue = c.waits;
    queue_size = queue_size ∙ h.queue_size;
    as_many = omega (arith, length-append xs (suc n ∷ []), h.as_many);
    current = current ∙ h.current;
  }

  pub thread_create-IsMade :
      (p : ℕ) (cs : List Block)
      → take_first 4104 8 bs ≡ some (p, cs)
      → (s' : Threads) × (thread_create finish s f ≡ some (suc n, s'))
        × IsMade (suc n) (xs ++ (suc n ∷ [])) cs s'
  thread_create-IsMade p cs room = by_outcome (
      subst (λ o. Creation s xs o (thread_create finish s f)) room
        (thread_create_lem finish f s xs h.queue (omega (arith, h.queue_size, h.as_many)) bs
          h.heap))
    where
      by_outcome :
          Creation s xs (some (p, cs)) (thread_create finish s f)
          → (s' : Threads) × (thread_create finish s f ≡ some (suc n, s'))
            × IsMade (suc n) (xs ++ (suc n ∷ [])) cs s'
      by_outcome (inl (_, busy)) =
          let free : is_empty (s.thread_pool (suc n)).state ≡ true =
            ap is_empty (h.left (suc n) (omega arith) (omega arith)) in
          absurd (cc (free, busy (suc n) (omega arith) (omega (arith, h.pool_size))))
      by_outcome (inr (i, s', e, c)) =
          let same = next_place i s' p cs c in
          let e' = e ∙ ap (λ j. some (j, s')) same in
          (
            s',
            e',
            next-IsMade s' p cs (subst (λ j. IsCreated s s' j p cs xs) same c)
                (subst (Keeps s) e' (thread_create-Keeps finish s f)),
          )
