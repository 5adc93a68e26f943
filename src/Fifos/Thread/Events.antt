-- ===== src/Fifos/Thread/Events.antt =====
-- What befalls the threads of FileSystem-v3/thread.c while they run: the interrupts of the timer,
-- which go to `stash` (boot.s, context.s) as `yield` does, and the return of a thread to `finish`.
-- Only `stash` disables interrupts: `finish`, `trap` and the `schedule` that they come to run with
-- interrupts enabled. An event `returned` is a return without an interrupt up to the switch;
-- `interrupted_finish` is one with an interrupt behind the poll.
use file_system_toy_os.Prelude.{ℕ, suc, List, [], ◌∷◌, Bool, true, false}
use file_system_toy_os.Fifos.Heap.{free}
use file_system_toy_os.Fifos.Queue.{queue_poll}
use file_system_toy_os.Fifos.Thread.{State, Threads, Switch, set_state, yield, finish}

-- An interrupt, with the stack pointer of the thread that it stops; or the return of the thread,
-- during which there is no interrupt.
pub data Event : Type 0 where
  tick : ℕ → Event
  returned : Event

unfoldable pub react : Event → Threads → Switch × Threads
react (Event.tick esp) s = yield s esp
react Event.returned s = finish s

-- The state after the events, and the threads that returned, the first one first.
unfoldable pub run : List Event → Threads → Threads
run [] s = s
run (e ∷ es) s = run es (react e s).1

unfoldable pub returns : List Event → Threads → List ℕ
returns [] s = []
returns (Event.tick esp ∷ es) s = returns es (yield s esp).1
returns (Event.returned ∷ es) s = s.current_tid ∷ returns es (finish s).1

-- How many of the events are returns.
abbrev pub count_returns : List Event → ℕ
count_returns [] = 0
count_returns (Event.tick _ ∷ es) = count_returns es
count_returns (Event.returned ∷ es) = suc (count_returns es)

-- A thread goes on, a new one or not.
abbrev pub to_thread : Switch → Bool
to_thread Switch.resume_main = false
to_thread (Switch.start t) = true
to_thread (Switch.resume t) = true

-- `finish`, `trap` and `schedule` up to the poll: the head has left the queue, `current_tid` is 0 and
-- `ptr_current_esp` still that of the thread that returned.
unfoldable pub polled : Threads → Threads
polled s = record (set_state s s.current_tid State.empty) {
  heap = free s.heap (s.thread_pool s.current_tid).stack;
  current_tid = 0;
  ready_queue = (queue_poll s.ready_queue).1;
}

-- An interrupt then, before `current_tid` is set to the thread that was polled. The first `schedule`
-- is not gone on with: its stack is that of the main thread, which the second one uses again.
unfoldable pub interrupted_finish : Threads → ℕ → Switch × Threads
interrupted_finish s esp = yield (polled s) esp
