-- ===== src/Fifos/Thread.antt =====
-- The threads of FileSystem-v3/thread.c. A pointer to a TCB is its index in `thread_pool`; the queue
-- holds such pointers, and 0 is NULL there, since the main thread 0 is never queued.
pub mod Schedule
pub mod Create
pub mod Turns
pub mod Events
pub mod Steps
pub mod Finished
pub mod Lost
use file_system_toy_os.Prelude.{
  ℕ, ◌+◌, ◌-◌, ◌*◌, ◌%◌, ◌^◌, Bool, true, false, ◌&&◌, Option, none, some, ltb, leb, ◌==◌,
  if◌then◌else◌, update,
}
use file_system_toy_os.Prelude.Loops.{find_from}
use file_system_toy_os.Fifos.Heap.{Heap, malloc, free, putw}
use file_system_toy_os.Fifos.Queue.{FifoQueue, init_queue, queue_add, queue_poll}

pub data State : Type 0 where
  empty new ready running : State

abbrev pub is_empty : State → Bool
is_empty State.empty = true
is_empty State.new = false
is_empty State.ready = false
is_empty State.running = false

abbrev pub is_new : State → Bool
is_new State.empty = false
is_new State.new = true
is_new State.ready = false
is_new State.running = false

pub record Tcb : Type 0 where
  pub tid : ℕ
  pub state : State
  pub stack : ℕ
  pub esp : ℕ

-- The globals of thread.c, and the heap. `ptr_current_esp` is `&thread_pool[current_esp].esp`.
pub record Threads : Type 0 where
  pub heap : Heap
  pub thread_pool : ℕ → Tcb
  pub pool_size : ℕ
  pub ready_queue : FifoQueue
  pub current_tid : ℕ
  pub current_esp : ℕ

-- Where `schedule` goes; none of `resume` and `start` comes back to it.
pub data Switch : Type 0 where
  resume_main : Switch
  start resume : ℕ → Switch

abbrev pub stack_size : ℕ
stack_size = 4096

abbrev pub set_state : Threads → ℕ → State → Threads
set_state s i v = record s {
  thread_pool = update s.thread_pool i (record (s.thread_pool i) { state = v });
}

-- `pool` and `garbage` are what the heap held. `none` is a `malloc` that did not end or a queue that
-- is NULL, which the code does not test for; nor does it test for a pool that is NULL. A TCB is
-- 16 bytes.
unfoldable pub init_thread : Heap → (ℕ → Tcb) → (ℕ → ℕ) → ℕ → Option Threads
init_thread h pool garbage size = elim (malloc h (size * 16 % 2 ^ 32)) [
  | none ↦ none
  | some (address, h') ↦ elim (init_queue h' garbage size) [
    | none ↦ none
    | some (queue, h'') ↦ elim queue [
      | none ↦ none
      | some q ↦ some (record {
        heap = h'';
        thread_pool = λ i.
            if leb 1 i && ltb i size
            then record (pool i) { tid = i; state = State.empty }
            else pool i;
        pool_size = size;
        ready_queue = q;
        current_tid = 0;
        current_esp = 0;
      })
    ]
  ]
]

-- The words on the new stack: `finish` to return to from `f`, and `f` for `start` to go to.
abbrev pub with_stack : Tcb → ℕ → Tcb
with_stack t stack = record t { state = State.new; stack = stack; esp = stack + stack_size - 8 }

-- `finish` and `f` are the addresses of the two functions; the pool has a place at least. The result
-- is 0 where no place or no stack is left, `none` a `malloc` that did not end.
unfoldable pub thread_create : ℕ → Threads → ℕ → Option (ℕ × Threads)
thread_create finish s f =
    elim (find_from (s.pool_size - 1) 1 (λ i. is_empty (s.thread_pool i).state)) [
      | none ↦ some (0, s)
      | some i ↦ elim (malloc s.heap stack_size) [
        | none ↦ none
        | some (stack, h) ↦
            if stack == 0
            then some (0, record s { heap = h })
            else some (
              i,
              record s {
                heap = putw (putw h (stack + stack_size - 4) finish) (stack + stack_size - 8) f;
                thread_pool = update s.thread_pool i (with_stack (s.thread_pool i) stack);
                ready_queue = (queue_add s.ready_queue i).1;
              },
            )
      ]
    ]

-- The first part of `schedule`: any thread but the main one goes to the end of the queue.
unfoldable pub requeue : Threads → Threads
requeue s = if s.current_tid == 0 then s else record (set_state s s.current_tid State.ready) {
  ready_queue = (queue_add s.ready_queue s.current_tid).1;
}

-- The rest of it: the thread at the head of the queue runs, or else the main one.
unfoldable pub dispatch : Threads → Switch × Threads
dispatch s =
    let (t, q) = queue_poll s.ready_queue in
    if t == 0
    then (Switch.resume_main, record s { ready_queue = q; current_tid = 0; current_esp = 0 })
    else (
      (if is_new (s.thread_pool t).state then Switch.start t else Switch.resume t),
      record (set_state s t State.running) {
        ready_queue = q;
        current_tid = (s.thread_pool t).tid;
        current_esp = t;
      },
    )

unfoldable pub schedule : Threads → Switch × Threads
schedule s = dispatch (requeue s)

-- `stash` puts the stack pointer where `ptr_current_esp` says, and calls `schedule`.
unfoldable pub yield : Threads → ℕ → Switch × Threads
yield s esp =
    let i = s.current_esp in
    schedule
      (record s { thread_pool = update s.thread_pool i (record (s.thread_pool i) { esp = esp }) })

unfoldable pub finish : Threads → Switch × Threads
finish s =
    let freed = free s.heap (s.thread_pool s.current_tid).stack in
    schedule (record (set_state s s.current_tid State.empty) { heap = freed; current_tid = 0 })
