-- ===== src/Fifos/Thread/Turns.antt =====
-- The turns of the threads of FileSystem-v3/thread.c under repeated calls of `schedule`.
use file_system_toy_os.Prelude.{
  ℕ, zero, suc, ◌+◌, ◌<◌, ◌≡◌, arith, List, [], ◌∷◌, ◌++◌, length, length-append, ne→==, ◌∙◌,
}
use mathlib.Core.Path.{subst, sym}
use mathlib.Core.List.{append_assoc}
use file_system_toy_os.Fifos.Queue.{queue_add, queue_poll}
use file_system_toy_os.Fifos.Queue.Contents.{Holds}
use file_system_toy_os.Fifos.Thread.{Tcb, Threads, requeue, dispatch, schedule}
use file_system_toy_os.Fifos.Thread.Schedule.{
  AreThreads, AreThreads-ext, line_up, Scheduled, schedule-Scheduled, tid-requeue,
}

-- The state after `n` calls of `schedule`.
unfoldable pub after : ℕ → Threads → Threads
after zero s = s
after (suc n) s = after n (schedule s).1

-- The thread `c` runs, the threads `xs` wait in this order, and the queue has a place for `c`.
pub record InTurn (s : Threads) (c : ℕ) (xs : List ℕ) : Type 0 where
  pub current : s.current_tid ≡ c
  pub queue : Holds s.ready_queue xs
  pub room : length xs + 1 < s.ready_queue.size
  pub names : AreThreads s.thread_pool (c ∷ xs)

tid-dispatch : (s : Threads) (j : ℕ) → ((dispatch s).1.thread_pool j).tid ≡ (s.thread_pool j).tid
unfolding dispatch
tid-dispatch s j = ground arith

pub tid-schedule :
    (s : Threads) (j : ℕ) → ((schedule s).1.thread_pool j).tid ≡ (s.thread_pool j).tid
unfolding schedule
tid-schedule s j = tid-dispatch (requeue s) j ∙ tid-requeue s j

pub size-schedule : (s : Threads) → (schedule s).1.ready_queue.size ≡ s.ready_queue.size
unfolding schedule requeue dispatch queue_add queue_poll
size-schedule s = ground arith

pub AreThreads-snoc :
    (pool : ℕ → Tcb) (c : ℕ) (xs : List ℕ)
    → AreThreads pool (c ∷ xs)
    → AreThreads pool (xs ++ (c ∷ []))
AreThreads-snoc pool c [] (ne, own, rest) = (ne, own, tt)
AreThreads-snoc pool c (x ∷ xs) (ne, own, (ne', own', rest)) =
    (ne', own', AreThreads-snoc pool c xs (ne, own, rest))

-- One call: the first in line runs, and the thread that ran is the last in line.
InTurn-schedule :
    (s : Threads) (c x : ℕ) (xs : List ℕ)
    → InTurn s c (x ∷ xs)
    → InTurn (schedule s).1 x (xs ++ (c ∷ []))
InTurn-schedule s c x xs turn =
    let line : line_up s.current_tid (x ∷ xs) ≡ x ∷ (xs ++ (c ∷ [])) =
      rw (turn.current, ne→== c 0 turn.names.0) in
    let in_line = AreThreads-snoc s.thread_pool c (x ∷ xs) turn.names in
    let run =
      schedule-Scheduled s (x ∷ xs) turn.queue turn.room
        (subst (AreThreads s.thread_pool) (sym line) in_line) in
    let picked = subst (λ l. Scheduled (requeue s) l (schedule s)) line run in
    record {
      current = picked.current;
      queue = picked.queue;
      room = ground (arith, turn.room, size-schedule s, length-append xs (c ∷ []));
      names =
          AreThreads-ext s.thread_pool (schedule s).1.thread_pool (x ∷ (xs ++ (c ∷ [])))
            (tid-schedule s) in_line;
    }

-- While the thread c runs and other threads wait in the queue, which has a place left for c, no
-- pointer among them NULL and each thread under its own number (InTurn), the thread t with the
-- threads ys before it in the queue is the current one after as many calls of schedule as ys
-- has threads, and one more.
pub current_tid-after :
    (s : Threads) (c : ℕ) (ys : List ℕ) (t : ℕ) (zs : List ℕ)
    → InTurn s c (ys ++ (t ∷ zs))
    → (after (suc (length ys)) s).current_tid ≡ t
unfolding after
current_tid-after s c [] t zs turn = (InTurn-schedule s c t zs turn).current
current_tid-after s c (y ∷ ys) t zs turn =
    let next = InTurn-schedule s c y (ys ++ (t ∷ zs)) turn in
    current_tid-after (schedule s).1 y ys t (zs ++ (c ∷ []))
      (subst (InTurn (schedule s).1 y) (append_assoc ys (t ∷ zs) (c ∷ [])) next)
