-- ===== src/Fifos/Tests.antt =====
-- The theorems on FileSystem-v3/queue.c, thread.c and print.c at concrete states.
mod Running
use file_system_toy_os.Prelude.{
  ℕ, ◌-◌, ◌^◌, some, List, ◌≡◌, if◌then◌else◌, refl, arith, [], ◌∷◌, ◌==◌,
}
use file_system_toy_os.Fifos.Heap.{Heap, init_heap, malloc, free}
use file_system_toy_os.Fifos.Heap.Blocks.{
  Block, free_block, used_block, IsHeap, take_first, give_back,
}
use file_system_toy_os.Fifos.Heap.Malloc.{Allocated, init_heap-IsHeap, malloc-Allocated}
use file_system_toy_os.Fifos.Heap.Returned.{malloc_then_free}
use file_system_toy_os.Fifos.Heap.Free.{free-IsHeap}
use file_system_toy_os.Fifos.MemoryMap.{Region, print_memory_map}
use file_system_toy_os.Fifos.MemoryMap.Walk.{AreRegions, printed, print_memory_map_lem}
use file_system_toy_os.Fifos.Console.{Console, println, hex_digits}
use file_system_toy_os.Fifos.Console.Screen.{IsOnScreen, println-IsOnScreen}
use file_system_toy_os.Fifos.Console.Hex.{read_hex, read_hex-hex_digits}
use file_system_toy_os.Fifos.Thread.{State, Threads, requeue, schedule, thread_create}
use file_system_toy_os.Fifos.Thread.Create.{Creation, thread_create_lem}
use file_system_toy_os.Fifos.Thread.Schedule.{AreThreads, Scheduled, schedule-Scheduled}
use file_system_toy_os.Fifos.Thread.Turns.{InTurn, after, current_tid-after}
use file_system_toy_os.Fifos.Queue.{FifoQueue, queue_add, queue_poll}
use file_system_toy_os.Fifos.Queue.Contents.{Holds, Added, Polled, queue_add_lem, queue_poll_lem}

-- Three places, the element 7 in the last one: the tail has come round to place 0.
abbrev sample_queue : FifoQueue
sample_queue = record { elements = λ i. if i == 2 then 7 else 0; size = 3; head = 2; tail = 0 }

sample_queue-Holds : Holds sample_queue (7 ∷ [])
sample_queue-Holds = record {
  bounded = omega arith;
  head_in = omega arith;
  fewer = omega arith;
  tail_at = refl;
  stands = (refl, tt);
}

-- Thread 1 runs, 2 and 3 wait, in a queue of five places.
abbrev pub sample_threads : Threads
sample_threads = record {
  heap = record { word = λ _. 0; lastptr = 8 };
  thread_pool = λ i. record { tid = i; state = State.ready; stack = 0; esp = 0 };
  pool_size = 4;
  ready_queue = record { elements = λ i. if i == 0 then 2 else 3; size = 5; head = 0; tail = 2 };
  current_tid = 1;
  current_esp = 1;
}

sample_threads-Holds : Holds sample_threads.ready_queue (2 ∷ 3 ∷ [])
sample_threads-Holds = record {
  bounded = omega arith;
  head_in = omega arith;
  fewer = omega arith;
  tail_at = refl;
  stands = (refl, (refl, tt));
}

sample_threads-AreThreads : AreThreads sample_threads.thread_pool (2 ∷ 3 ∷ 1 ∷ [])
sample_threads-AreThreads = (
  (λ e. omega (arith, e)),
  refl,
  ((λ e. omega (arith, e)), refl, ((λ e. omega (arith, e)), refl, tt)),
)

schedule_example : Scheduled (requeue sample_threads) (2 ∷ 3 ∷ 1 ∷ []) (schedule sample_threads)
schedule_example =
    schedule-Scheduled sample_threads (2 ∷ 3 ∷ []) sample_threads-Holds (omega arith)
      sample_threads-AreThreads

pub sample_threads-InTurn : InTurn sample_threads 1 (2 ∷ 3 ∷ [])
sample_threads-InTurn = record {
  current = refl;
  queue = sample_threads-Holds;
  room = omega arith;
  names = (
    (λ e. omega (arith, e)),
    refl,
    ((λ e. omega (arith, e)), refl, ((λ e. omega (arith, e)), refl, tt)),
  );
}

current_tid-after_example : (after 2 sample_threads).current_tid ≡ 3
current_tid-after_example = current_tid-after sample_threads 1 (2 ∷ []) 3 [] sample_threads-InTurn

-- The last place of the last line.
abbrev sample_console : Console
sample_console = record { xpos = 79; ypos = 23; video = λ i. i }

sample_console-IsOnScreen : IsOnScreen sample_console sample_console
sample_console-IsOnScreen = record {
  column = omega arith;
  line = omega arith;
  behind = λ i le. refl;
}

println_example :
    IsOnScreen sample_console (println sample_console (72 ∷ 105 ∷ []))
    × ((println sample_console (72 ∷ 105 ∷ [])).xpos ≡ 0)
println_example =
    println-IsOnScreen sample_console sample_console (72 ∷ 105 ∷ []) sample_console-IsOnScreen

-- The heap at its start, and with a first block of 100 bytes and its header.
abbrev sample_heap : Heap
sample_heap = init_heap (record { word = λ _. 0; lastptr = 8 })

abbrev first_taken : List Block
first_taken = used_block 112 ∷ free_block (2 ^ 20 - 120) ∷ []

sample_heap-IsHeap : IsHeap sample_heap (free_block (2 ^ 20 - 8) ∷ [])
sample_heap-IsHeap = init_heap-IsHeap (record { word = λ _. 0; lastptr = 8 })

-- With all of its bytes in one block.
malloc_example :
    Allocated sample_heap
      (some (8, used_block (2 ^ 20 - 8) ∷ []))
      (malloc sample_heap (2 ^ 20 - 24))
unfolding take_first
malloc_example =
    malloc-Allocated sample_heap (2 ^ 20 - 24) (λ e. omega (arith, e)) (omega arith)
      (free_block (2 ^ 20 - 8) ∷ []) sample_heap-IsHeap

after_malloc : Allocated sample_heap (some (8, first_taken)) (malloc sample_heap 100)
unfolding take_first
after_malloc =
    malloc-Allocated sample_heap 100 (λ e. omega (arith, e)) (omega arith)
      (free_block (2 ^ 20 - 8) ∷ []) sample_heap-IsHeap

free_example : IsHeap (free after_malloc.0 16) (free_block (2 ^ 20 - 8) ∷ [])
unfolding give_back
free_example = free-IsHeap after_malloc.0 [] (free_block (2 ^ 20 - 120) ∷ []) 112 after_malloc.2

-- A map of two regions of 24 bytes at 1000: 654336 free bytes at 0, and 1024 reserved ones.
abbrev pub sample_map : ℕ → ℕ
sample_map x =
    if x == 44
    then 48
    else if x == 48
    then 232
    else if x == 49
    then 3
    else if x == 1000
    then 20
    else if x == 1013
    then 252
    else if x == 1014
    then 9
    else if x == 1020
    then 1
    else if x == 1024
    then 20
    else if x == 1037
    then 4
    else if x == 1044
    then 2
    else 0

abbrev pub sample_regions : List Region
sample_regions =
    record { size = 20; addr = 0; len = 654336; type = 1 }
    ∷ record { size = 20; addr = 0; len = 1024; type = 2 }
    ∷ []

pub sample_map-AreRegions : AreRegions sample_map 1048 1000 sample_regions
sample_map-AreRegions =
    (omega arith, refl, omega arith, (omega arith, refl, omega arith, omega arith))

abbrev pub sample_screen : Console
sample_screen = record { xpos = 0; ypos = 3; video = λ _. 0 }

print_memory_map_example :
    (print_memory_map sample_map 0 sample_screen
      ≡ some
          (printed sample_map 0 sample_screen sample_regions (omega arith) sample_map-AreRegions))
    × IsOnScreen sample_screen
        (printed sample_map 0 sample_screen sample_regions (omega arith) sample_map-AreRegions)
print_memory_map_example =
    print_memory_map_lem sample_map 0 sample_screen sample_regions (omega arith)
      sample_map-AreRegions
      (record { column = omega arith; line = omega arith; behind = λ i le. refl })

-- Place 4 of the pool is empty, and the heap has all its bytes.
abbrev sample_idle : Threads
sample_idle = record sample_threads {
  heap = sample_heap;
  thread_pool = λ i. record {
    tid = i;
    state = if i == 4 then State.empty else State.ready;
    stack = 0;
    esp = 0;
  };
  pool_size = 5;
}

thread_create_example :
    Creation sample_idle
      (2 ∷ 3 ∷ [])
      (take_first 4104 8 (free_block (2 ^ 20 - 8) ∷ []))
      (thread_create 500 sample_idle 600)
thread_create_example =
    thread_create_lem 500 600 sample_idle (2 ∷ 3 ∷ []) sample_threads-Holds (omega arith)
      (free_block (2 ^ 20 - 8) ∷ []) sample_heap-IsHeap

malloc_then_free_example : IsHeap (free after_malloc.0 16) (free_block (2 ^ 20 - 8) ∷ [])
malloc_then_free_example =
    malloc_then_free sample_heap 100 (λ e. omega (arith, e)) (omega arith)
      (free_block (2 ^ 20 - 8) ∷ []) sample_heap-IsHeap tt 16 after_malloc.0 after_malloc.1
      (λ e. omega (arith, e))
