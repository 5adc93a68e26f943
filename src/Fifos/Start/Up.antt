-- ===== src/Fifos/Start/Up.antt =====
-- `init` of FileSystem-v3/init.c as a whole.
use file_system_toy_os.Prelude.{
  ℕ, suc, ◌+◌, ◌-◌, ◌^◌, ◌≤◌, ◌<◌, ◌≡◌, ◌∙◌, refl, ap, arith, some, List, [], ◌∷◌, ◌++◌, length,
  ne→==, update,
}
use file_system_toy_os.Fifos.Heap.{Heap}
use file_system_toy_os.Fifos.Heap.Blocks.{Block, take_first, used_block, free_block}
use file_system_toy_os.Fifos.Console.{Console, cls, put_char, print, println}
use file_system_toy_os.Fifos.Console.Screen.{
  IsOnScreen, print-IsOnScreen, put_char-IsOnScreen, println-IsOnScreen,
}
use file_system_toy_os.Fifos.MemoryMap.{Region, word_at}
use file_system_toy_os.Fifos.MemoryMap.Walk.{AreRegions, printed, print_memory_map_lem}
use file_system_toy_os.Fifos.Thread.{State, Tcb, Threads, Switch, requeue, schedule, yield}
use file_system_toy_os.Fifos.Thread.Schedule.{AreThreads, IsPicked, line_up}
use file_system_toy_os.Fifos.Thread.Turns.{InTurn}
use file_system_toy_os.Fifos.Thread.Steps.{picks, scheduled}
use file_system_toy_os.Fifos.Start.{
  Ports, Machine, title, thread_text, outb, init_pit, init_pic, create_thread, init_machine, init,
}
use file_system_toy_os.Fifos.Start.Pool.{IsPool, pool_blocks, init_thread-IsPool}
use file_system_toy_os.Fifos.Start.Created.{IsMade, thread_create-IsMade}

-- The heap with the stacks of the three threads.
abbrev pub stack_blocks : List Block
stack_blocks =
    used_block 104
    ∷ used_block 40
    ∷ used_block 40
    ∷ used_block 4104
    ∷ used_block 4104
    ∷ used_block 4104
    ∷ free_block (2 ^ 20 - 12504)
    ∷ []

-- The bytes for the ports, in their order.
abbrev pub set_up_bytes : Ports
set_up_bytes =
    (0x11, 0x20) ∷ (0x20, 0x21) ∷ (0x0D, 0x21) ∷ (0x34, 0x43) ∷ (11, 0x40) ∷ (233, 0x40) ∷ []

-- The message on the thread `tid`.
abbrev announced : ℕ → Console → Console
announced tid c = put_char (print c thread_text) (tid + 48)

-- What `init` leaves before its `yield`: the bytes for the interrupt controller and the timer, whose
-- divisor is 59659 = 11 + 256 * 233; the messages behind what was `shown`; a cursor on the screen; and three new threads that wait, of
-- which `yield` starts the first.
pub record IsUp (c shown : Console) (ports : Ports) (k : Machine) : Type 0 where
  pub written : k.ports ≡ ports ++ set_up_bytes
  pub messages : k.console ≡ announced 3 (announced 2 (announced 1 shown))
  pub screen : IsOnScreen c k.console
  pub threads : IsMade 3 (1 ∷ 2 ∷ 3 ∷ []) stack_blocks k.threads
  pub starts :
      (esp : ℕ)
      → ((yield k.threads esp).0 ≡ Switch.start 1) × InTurn (yield k.threads esp).1 1 (2 ∷ 3 ∷ [])

ports-written : (ports : Ports) → init_pit (init_pic ports) ≡ ports ++ set_up_bytes
unfolding outb init_pit init_pic
ports-written [] = refl
ports-written (p ∷ ports) = ap (λ l. p ∷ l) (ports-written ports)

cls-IsOnScreen : (c : Console) → IsOnScreen c (cls c)
unfolding cls
cls-IsOnScreen c = record {
  column = omega arith;
  line = omega arith;
  behind = λ i le. ground arith;
}

IsPool-IsMade : (pool : ℕ → Tcb) (s : Threads) → IsPool pool s → IsMade 0 [] pool_blocks s
IsPool-IsMade pool s p = record {
  heap = p.heap;
  numbers = λ i le lt. ap (λ t. t.tid) (p.places i le lt);
  made = λ i le le'. absurd (omega arith);
  left = λ i lt lt'. ap (λ t. t.state) (p.places i (omega arith) lt');
  pool_size = p.pool_size;
  queue = p.queue;
  queue_size = p.queue_size;
  as_many = refl;
  current = p.current;
}

module _ (bs : List Block) (s : Threads) (made : IsMade 3 (1 ∷ 2 ∷ 3 ∷ []) bs s) (esp : ℕ) where
  -- The state in which `yield` of the main thread calls `schedule`.
  abbrev stashed : Threads
  stashed = record s {
    thread_pool =
        update s.thread_pool s.current_esp (record (s.thread_pool s.current_esp) { esp = esp });
  }

  own : (i : ℕ) → 1 ≤ i → i < 6 → (stashed.thread_pool i).tid ≡ i
  own i le lt = ground (arith, made.numbers i le lt)

  names : AreThreads stashed.thread_pool (line_up s.current_tid (1 ∷ 2 ∷ 3 ∷ []))
  names = rw made.current (
    (λ e. omega (arith, e)),
    own 1 (omega arith) (omega arith),
    (
      (λ e. omega (arith, e)),
      own 2 (omega arith) (omega arith),
      ((λ e. omega (arith, e)), own 3 (omega arith) (omega arith), tt),
    ),
  )

  line : line_up s.current_tid (1 ∷ 2 ∷ 3 ∷ []) ≡ 1 ∷ 2 ∷ 3 ∷ []
  line = rw made.current refl

  room : length {A = ℕ} (1 ∷ 2 ∷ 3 ∷ []) + 1 < s.ready_queue.size
  room = omega (arith, made.queue_size)

  first_new : ((requeue stashed).thread_pool 1).state ≡ State.new
  unfolding requeue
  first_new = rw (made.current, requeue) (ground (arith, made.made 1))

  yield-starts : ((yield s esp).0 ≡ Switch.start 1) × InTurn (yield s esp).1 1 (2 ∷ 3 ∷ [])
  unfolding yield
  yield-starts =
      let p : IsPicked (requeue stashed) 1 (2 ∷ 3 ∷ []) (schedule stashed) =
        scheduled stashed (1 ∷ 2 ∷ 3 ∷ []) made.queue room names (1 ∷ 2 ∷ 3 ∷ []) line in
      (
        p.switch ∙ rw first_new refl,
        (picks stashed (1 ∷ 2 ∷ 3 ∷ []) made.queue room names 1 (2 ∷ 3 ∷ []) line).1,
      )

module _ (finish f n : ℕ) (xs : List ℕ) (bs : List Block) (c : Console) (k : Machine)
    (made : IsMade n xs bs k.threads) (lt : n < 5) (screen : IsOnScreen c k.console) where
  create_thread-IsMade :
      (p : ℕ) (cs : List Block)
      → take_first 4104 8 bs ≡ some (p, cs)
      → (k' : Machine) × (create_thread finish f k ≡ some k')
        × IsMade (suc n) (xs ++ (suc n ∷ [])) cs k'.threads
        × IsOnScreen c k'.console
        × (k'.ports ≡ k.ports)
        × (k'.console ≡ announced (suc n) k.console)
  unfolding create_thread
  create_thread-IsMade p cs fits =
      let (s', e, next) = thread_create-IsMade finish f n xs bs k.threads made lt p cs fits in
      (
        record k { console = announced (suc n) k.console; threads = s' },
        rw (e, ne→== (suc n) 0 (λ z. omega (arith, z)), create_thread) refl,
        next,
        put_char-IsOnScreen c _ _ (print-IsOnScreen c k.console _ screen),
        refl,
        refl,
      )

module _ (m : ℕ → ℕ) (addr : ℕ) (c : Console) (ports : Ports) (h : Heap) (pool : ℕ → Tcb)
    (garbage : ℕ → ℕ) (finish f₁ f₂ f₃ : ℕ) (rs : List Region)
    (inside : word_at m (addr + 48) + word_at m (addr + 44) < 2 ^ 32)
    (regions : AreRegions m
      (word_at m (addr + 48) + word_at m (addr + 44))
      (word_at m (addr + 48))
      rs) where
  -- The title and the map.
  abbrev shown : Console
  shown = printed m addr (println (cls c) title) rs inside regions

  machine :
      (k : Machine) × (init_machine m addr c ports h pool garbage ≡ some k)
      × IsMade 0 [] pool_blocks k.threads
      × IsOnScreen c k.console
      × (k.ports ≡ init_pit (init_pic ports))
      × (k.console ≡ shown)
  unfolding init_machine
  machine =
      let before = (println-IsOnScreen c (cls c) title (cls-IsOnScreen c)).0 in
      let (e, screen) =
        print_memory_map_lem m addr (println (cls c) title) rs inside regions
          (record { column = before.column; line = before.line; behind = λ i le. refl }) in
      let (s, e', set_up) = init_thread-IsPool h pool garbage in
      (
        record { console = shown; ports = init_pit (init_pic ports); threads = s },
        rw (e, e', init_machine) refl,
        IsPool-IsMade pool s set_up,
        record {
          column = screen.column;
          line = screen.line;
          behind = λ i le. screen.behind i le ∙ before.behind i le;
        },
        refl,
        refl,
      )

  -- For a map of the memory whose regions stand one behind the other in a memory of 2^32 bytes
  -- (AreRegions): init ends, whatever the heap, the pool and the screen held; it prints the
  -- title, the map and the numbers of three threads, with the cursor on the screen and nothing
  -- behind the screen changed; it writes the six bytes to the ports of the interrupt controller
  -- and the timer; the heap then is the list of blocks that starts with those of the pool, of
  -- the queue and of three stacks, threads 1 to 3 are new and wait in this order, the other
  -- places are empty; and its yield starts thread 1, with 2 and 3 in line (InTurn).
  pub init-IsUp :
      (k : Machine) × (init m addr c ports h pool garbage finish f₁ f₂ f₃ ≡ some k)
      × IsUp c shown ports k
  unfolding init take_first
  init-IsUp =
      let (k₀, e₀, made₀, screen₀, ports₀, console₀) = machine in
      let (k₁, e₁, made₁, screen₁, ports₁, console₁) =
        create_thread-IsMade finish f₁ 0 [] pool_blocks c k₀ made₀ (omega arith) screen₀ 192 _
          refl in
      let (k₂, e₂, made₂, screen₂, ports₂, console₂) =
        create_thread-IsMade finish f₂ 1 _ _ c k₁ made₁ (omega arith) screen₁ 4296 _ refl in
      let (k₃, e₃, made₃, screen₃, ports₃, console₃) =
        create_thread-IsMade finish f₃ 2 _ _ c k₂ made₂ (omega arith) screen₂ 8400 stack_blocks
          refl in
      (
        k₃,
        rw (e₀, e₁, e₂, e₃, init) refl,
        record {
          written = ports₃ ∙ ports₂ ∙ ports₁ ∙ ports₀ ∙ ports-written ports;
          messages =
              console₃
              ∙ ap (announced 3)
                  (console₂ ∙ ap (announced 2) (console₁ ∙ ap (announced 1) console₀));
          screen = screen₃;
          threads = made₃;
          starts = yield-starts stack_blocks k₃.threads made₃;
        },
      )
