-- ===== src/Fifos/Thread/Create.antt =====
-- `thread_create` of FileSystem-v3/thread.c over the heap of heap.c and the queue of queue.c.
use file_system_toy_os.Fifos.Thread.{Bool, Threads, is_empty, with_stack, thread_create}
use mathlib.Core.Path.{subst}
use file_system_toy_os.Prelude.{
  ℕ, ◌+◌, ◌-◌, ◌<◌, ◌≤◌, ◌≡◌, ◌≢◌, ◌⊎◌, refl, true, false, Option, none, some, List, [], ◌∷◌, ◌++◌,
  arith, length, update, ne→==, ==_refl, Option-cases, inl, inr, lt→ltb,
}
use file_system_toy_os.Prelude.Loops.{Found, find_from, find_from_lem}
use file_system_toy_os.Fifos.Heap.{Heap, putw, malloc}
use file_system_toy_os.Fifos.Heap.Blocks.{Block, IsHeap, take_first}
use file_system_toy_os.Fifos.Heap.Malloc.{Allocated, malloc-Allocated}
use file_system_toy_os.Fifos.Heap.Taken.{IsTaken, Takes, take_first-Takes, putw-IsHeap}
use file_system_toy_os.Fifos.Queue.{queue_add}
use file_system_toy_os.Fifos.Queue.Contents.{Holds, queue_add_lem}

-- What a new thread `i` is: its place was the first empty one and is new, its stack is the block taken at `p`, it
-- waits behind the others, and no other thread has changed.
pub record IsCreated (s s' : Threads) (i p : ℕ) (bs : List Block) (xs : List ℕ) : Type 0 where
  pub place : (1 ≤ i) × (i < s.pool_size)
  pub was_empty : is_empty (s.thread_pool i).state ≡ true
  pub lowest : (j : ℕ) → 1 ≤ j → j < i → is_empty (s.thread_pool j).state ≡ false
  pub tcb : s'.thread_pool i ≡ with_stack (s.thread_pool i) (p + 8)
  pub others : (j : ℕ) → j ≢ i → s'.thread_pool j ≡ s.thread_pool j
  pub heap : IsHeap s'.heap bs
  pub waits : Holds s'.ready_queue (xs ++ (i ∷ []))

-- The outcome, by what `take_first` makes of the blocks.
abbrev pub Creation : Threads → List ℕ → Option (ℕ × List Block) → Option (ℕ × Threads) → Type 0
Creation s xs none o = o ≡ some (0, s)
Creation s xs (some (p, bs)) o =
    (o ≡ some (0, s))
      × ((j : ℕ) → 1 ≤ j → j < s.pool_size → is_empty (s.thread_pool j).state ≡ false)
    ⊎ ((i : ℕ) × (s' : Threads) × (o ≡ some (i, s')) × IsCreated s s' i p bs xs)

module _ (finish f : ℕ) (s : Threads) (xs : List ℕ) (holds : Holds s.ready_queue xs)
    (room : length xs + 1 < s.ready_queue.size) where
  abbrev test : ℕ → Bool
  test i = is_empty (s.thread_pool i).state

  created :
      (i p : ℕ) (h : Heap) (bs : List Block)
      → Found 1 (s.pool_size - 1) test (some i)
      → IsTaken 4104 8 p bs
      → IsHeap h bs
      → IsCreated s
          (record s {
            heap = putw (putw h (p + 8 + 4096 - 4) finish) (p + 8 + 4096 - 8) f;
            thread_pool = update s.thread_pool i (with_stack (s.thread_pool i) (p + 8));
            ready_queue = (queue_add s.ready_queue i).1;
          })
          i
          p
          bs
          xs
  created i p h bs first t is =
      let top : p + 8 + 4096 - 4 ≡ p + 4100 = omega arith in
      let below : p + 8 + 4096 - 8 ≡ p + 4096 = omega arith in
      record {
        place = (first.from, omega (arith, first.from, first.below));
        was_empty = first.passes;
        lowest = first.before;
        tcb = rw (==_refl i) refl;
        others = λ j ne. rw (ne→== j i ne) refl;
        heap =
            rw (top, below)
              (putw-IsHeap (putw h (p + 4100) finish) 4104 p bs t
                (putw-IsHeap h 4104 p bs t is 4100 finish (omega arith) (omega arith)) 4096 f
                (omega arith) (omega arith));
        waits =
            (rw (lt→ltb (length xs + 1) s.ready_queue.size room) at
              (queue_add_lem s.ready_queue xs i holds)).1;
      }

  -- With no place left, whatever the heap holds.
  no_place :
      find_from (s.pool_size - 1) 1 test ≡ none
      → (o : Option (ℕ × List Block)) → Creation s xs o (thread_create finish s f)
  unfolding thread_create
  no_place e none = rw (e, thread_create) refl
  no_place e (some (p, bs)) =
      let busy =
        subst (Found 1 (s.pool_size - 1) test) e (find_from_lem (s.pool_size - 1) 1 test) in
      inl (rw (e, thread_create) refl, λ j le lt. busy j le (omega (arith, le, lt)))

  with_place :
      (i : ℕ)
      → find_from (s.pool_size - 1) 1 test ≡ some i
      → (o : Option (ℕ × List Block)) → Takes 4104 8 o
      → Allocated s.heap o (malloc s.heap 4096)
      → Creation s xs o (thread_create finish s f)
  unfolding thread_create
  with_place i e none taken null = rw (e, null, thread_create) refl
  with_place i e (some (p, bs)) taken (h, given, is) =
      let first =
        subst (Found 1 (s.pool_size - 1) test) e (find_from_lem (s.pool_size - 1) 1 test) in
      let ne = ne→== (p + 8) 0 (λ z. omega (arith, z)) in
      inr (i, _, rw (e, given, ne, thread_create) refl, created i p h bs first taken is)

  -- Let the heap be a list of blocks (IsHeap) and the queue hold the list xs with a place left
  -- (Holds). Then thread_create ends; it returns 0 and changes nothing where no block has room
  -- for the 4096 bytes of a stack and its header, or where no place of the pool is empty;
  -- otherwise it returns the first place i that was empty, thread i is new with the stack taken
  -- first from the blocks, the heap is the list of blocks that take_first makes, the words
  -- written to the stack included, i waits in the queue behind xs, and no other thread has
  -- changed.
  pub thread_create_lem :
      (bs : List Block)
      → IsHeap s.heap bs
      → Creation s xs (take_first 4104 8 bs) (thread_create finish s f)
  thread_create_lem bs is = elim (Option-cases (find_from (s.pool_size - 1) 1 test)) [
    | inl e ↦ no_place e (take_first 4104 8 bs)
    | inr (i, e) ↦
        with_place i e (take_first 4104 8 bs) (take_first-Takes 4104 8 bs)
          (malloc-Allocated s.heap 4096 (λ z. omega (arith, z)) (omega arith) bs is)
  ]
