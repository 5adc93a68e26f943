-- ===== src/Fifos/Thread/Schedule.antt =====
-- One call of `schedule` of FileSystem-v3/thread.c.
use file_system_toy_os.Prelude.{
  ℕ, ◌+◌, ◌<◌, ◌≡◌, ◌≢◌, refl, arith, List, [], ◌∷◌, ◌++◌, length, ◌==◌, if◌then◌else◌, Bool-cases,
  inl, inr, ne→==, lt→ltb, ◌∙◌,
}
use file_system_toy_os.Fifos.Queue.Contents.{Holds, queue_add_lem, queue_poll_lem}
use file_system_toy_os.Fifos.Thread.{
  State, is_new, Tcb, Threads, Switch, requeue, dispatch, schedule,
}

-- The threads in line when `schedule` is called with `xs` in the queue.
abbrev pub line_up : ℕ → List ℕ → List ℕ
line_up current xs = if current == 0 then xs else xs ++ (current ∷ [])

-- No pointer is NULL, and each thread carries its own number.
abbrev pub AreThreads : (ℕ → Tcb) → List ℕ → Type 0
AreThreads pool [] = Unit {0}
AreThreads pool (t ∷ ts) = (t ≢ 0) × ((pool t).tid ≡ t) × AreThreads pool ts

-- The thread `t` has been picked from the state `s`, and `ts` wait.
pub record IsPicked (s : Threads) (t : ℕ) (ts : List ℕ) (r : Switch × Threads) : Type 0 where
  pub switch : r.0 ≡ (if is_new (s.thread_pool t).state then Switch.start t else Switch.resume t)
  pub current : r.1.current_tid ≡ t
  pub esp : r.1.current_esp ≡ t
  pub queue : Holds r.1.ready_queue ts
  pub picked : (r.1.thread_pool t).state ≡ State.running
  pub others : (j : ℕ) → j ≢ t → r.1.thread_pool j ≡ s.thread_pool j

-- What becomes of the threads in line: the first runs and the others wait; where there is none, the
-- main thread goes on.
abbrev pub Scheduled : Threads → List ℕ → Switch × Threads → Type 0
Scheduled s [] r = (r.0 ≡ Switch.resume_main) × (r.1.current_tid ≡ 0) × Holds r.1.ready_queue []
Scheduled s (t ∷ ts) r = IsPicked s t ts r

dispatch-Scheduled :
    (s : Threads) (ys : List ℕ)
    → Holds s.ready_queue ys
    → AreThreads s.thread_pool ys
    → Scheduled s ys (dispatch s)
unfolding dispatch
dispatch-Scheduled s [] h names =
    let e = queue_poll_lem s.ready_queue [] h in rw (e, dispatch) (refl, refl, h)
dispatch-Scheduled s (t ∷ ts) h (ne, own, rest) =
    let (head, held) = queue_poll_lem s.ready_queue (t ∷ ts) h in
    rw (head, ne→== t 0 ne, dispatch)
      (record {
        switch = refl;
        current = own;
        esp = refl;
        queue = held;
        picked = ground arith;
        others = λ j other. ground arith;
      })

requeue-Holds :
    (s : Threads) (xs : List ℕ)
    → Holds s.ready_queue xs
    → length xs + 1 < s.ready_queue.size
    → Holds (requeue s).ready_queue (line_up s.current_tid xs)
unfolding requeue
requeue-Holds s xs h room = elim (Bool-cases (s.current_tid == 0)) [
  | inl main ↦ rw (main, requeue) h
  | inr other ↦
      let added = queue_add_lem s.ready_queue xs s.current_tid h in
      let (one, held) = rw (lt→ltb _ _ room) at added in rw (other, requeue) held
]

pub tid-requeue : (s : Threads) (j : ℕ) → ((requeue s).thread_pool j).tid ≡ (s.thread_pool j).tid
unfolding requeue
tid-requeue s j = ground arith

pub AreThreads-ext :
    (pool pool' : ℕ → Tcb) (ts : List ℕ)
    → ((j : ℕ) → (pool' j).tid ≡ (pool j).tid)
    → AreThreads pool ts
    → AreThreads pool' ts
AreThreads-ext pool pool' [] same names = tt
AreThreads-ext pool pool' (t ∷ ts) same (ne, own, rest) =
    (ne, same t ∙ own, AreThreads-ext pool pool' ts same rest)

-- Let the queue hold the list xs with a place left for one more, and let the threads in line
-- (xs, then the current thread unless it is the main one) be no NULLs and under their own
-- numbers. Then schedule makes the first in line the current, running thread, starts it if it
-- was new and resumes it if not, leaves exactly the others in the queue in the same order, and
-- changes no other thread beyond what requeue did to the one that ran before; with no thread in
-- line it resumes the main thread.
pub schedule-Scheduled :
    (s : Threads) (xs : List ℕ)
    → Holds s.ready_queue xs
    → length xs + 1 < s.ready_queue.size
    → AreThreads s.thread_pool (line_up s.current_tid xs)
    → Scheduled (requeue s) (line_up s.current_tid xs) (schedule s)
unfolding schedule
schedule-Scheduled s xs h room names =
    dispatch-Scheduled (requeue s) (line_up s.current_tid xs) (requeue-Holds s xs h room) (
      AreThreads-ext s.thread_pool (requeue s).thread_pool (line_up s.current_tid xs)
        (tid-requeue s) names)
