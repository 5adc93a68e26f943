-- ===== src/Fifos/Start/Pool.antt =====
-- The thread pool and the queue that `init` of FileSystem-v3/init.c sets up.
use file_system_toy_os.Prelude.{
  ℕ, ◌-◌, ◌^◌, ◌≤◌, ◌<◌, ◌≡◌, refl, some, List, [], ◌∷◌, arith, ◌&&◌, leb, ltb, if◌then◌else◌,
}
use file_system_toy_os.Fifos.Heap.{Heap, malloc, init_heap}
use file_system_toy_os.Fifos.Heap.Blocks.{Block, free_block, used_block, IsHeap, take_first}
use file_system_toy_os.Fifos.Heap.Malloc.{Allocated, init_heap-IsHeap, malloc-Allocated}
use file_system_toy_os.Fifos.Queue.{init_queue}
use file_system_toy_os.Fifos.Queue.Contents.{Holds}
use file_system_toy_os.Fifos.Thread.{State, Tcb, Threads, init_thread}

-- The heap with the pool of 6 threads, the queue and its array of 7 elements.
abbrev pub pool_blocks : List Block
pool_blocks = used_block 104 ∷ used_block 40 ∷ used_block 40 ∷ free_block (2 ^ 20 - 192) ∷ []

-- Places 1 to 5 are empty and under their own numbers, and no thread waits.
pub record IsPool (pool : ℕ → Tcb) (s : Threads) : Type 0 where
  pub heap : IsHeap s.heap pool_blocks
  pub places :
      (i : ℕ) → 1 ≤ i → i < 6 → s.thread_pool i ≡ record (pool i) { tid = i; state = State.empty }
  pub pool_size : s.pool_size ≡ 6
  pub queue : Holds s.ready_queue []
  pub queue_size : s.ready_queue.size ≡ 7
  pub current : s.current_tid ≡ 0

module _ (h : Heap) where
  first :
      Allocated
        (init_heap h)
        (some (8, used_block 104 ∷ free_block (2 ^ 20 - 112) ∷ []))
        (malloc (init_heap h) 96)
  unfolding take_first
  first =
      malloc-Allocated (init_heap h) 96 (λ e. omega (arith, e)) (omega arith)
        (free_block (2 ^ 20 - 8) ∷ []) (init_heap-IsHeap h)

  second :
      Allocated first.0
        (some (112, used_block 104 ∷ used_block 40 ∷ free_block (2 ^ 20 - 152) ∷ []))
        (malloc first.0 32)
  unfolding take_first
  second = malloc-Allocated first.0 32 (λ e. omega (arith, e)) (omega arith) _ first.2

  third : Allocated second.0 (some (152, pool_blocks)) (malloc second.0 28)
  unfolding take_first
  third = malloc-Allocated second.0 28 (λ e. omega (arith, e)) (omega arith) _ second.2

  -- The state that `init_thread` leaves.
  abbrev set_up : (ℕ → Tcb) → (ℕ → ℕ) → Threads
  set_up pool garbage = record {
    heap = third.0;
    thread_pool = λ i.
        if leb 1 i && ltb i 6 then record (pool i) { tid = i; state = State.empty } else pool i;
    pool_size = 6;
    ready_queue = record { elements = garbage; size = 7; head = 0; tail = 0 };
    current_tid = 0;
    current_esp = 0;
  }

  pub init_thread-IsPool :
      (pool : ℕ → Tcb) (garbage : ℕ → ℕ)
      → (s : Threads) × (init_thread (init_heap h) pool garbage 6 ≡ some s) × IsPool pool s
  unfolding init_thread init_queue
  init_thread-IsPool pool garbage = (
    set_up pool garbage,
    rw (first.1, second.1, third.1, init_thread, init_queue) refl,
    record {
      heap = third.2;
      places = λ i le lt. ground arith;
      pool_size = refl;
      queue = record {
        bounded = omega arith;
        head_in = omega arith;
        fewer = omega arith;
        tail_at = refl;
        stands = tt;
      };
      queue_size = refl;
      current = refl;
    },
  )
