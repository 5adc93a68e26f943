-- ===== src/Fifos/Thread/Steps.antt =====
-- One interrupt or one return in FileSystem-v3/thread.c, and whose turn it is then.
use mathlib.Core.Path.{subst, sym}
use file_system_toy_os.Prelude.{
  ℕ, update, ◌+◌, ◌<◌, ◌≤◌, ◌≡◌, refl, arith, List, [], ◌∷◌, ◌++◌, length, length-append, ne→==,
  ◌∙◌, true, ap,
}
use mathlib.Core.List.{Perm, append-nil, perm_middle}
use file_system_toy_os.Fifos.Queue.Contents.{Holds}
use file_system_toy_os.Fifos.Thread.{
  State, Threads, Switch, requeue, schedule, yield, finish, set_state,
}
use file_system_toy_os.Fifos.Heap.{free}
use file_system_toy_os.Fifos.Thread.Schedule.{
  AreThreads, AreThreads-ext, line_up, Scheduled, IsPicked, schedule-Scheduled,
}
use file_system_toy_os.Fifos.Thread.Turns.{InTurn, AreThreads-snoc, tid-schedule, size-schedule}
use file_system_toy_os.Fifos.Thread.Events.{to_thread}

length-line_up : (c : ℕ) (xs : List ℕ) → length (line_up c xs) ≤ length xs + 1
length-line_up c xs = ground (arith, length-append xs (c ∷ []))

-- The call of `schedule` for the threads in line.
module _ (s : Threads) (xs : List ℕ) (queue : Holds s.ready_queue xs)
    (room : length xs + 1 < s.ready_queue.size)
    (names : AreThreads s.thread_pool (line_up s.current_tid xs)) where
  pub scheduled : (l : List ℕ) → line_up s.current_tid xs ≡ l → Scheduled (requeue s) l (schedule s)
  scheduled l line =
      subst (λ l. Scheduled (requeue s) l (schedule s)) line
        (schedule-Scheduled s xs queue room names)

  -- Where some thread is in line, the first takes its turn.
  pub picks :
      (y : ℕ) (ys : List ℕ)
      → line_up s.current_tid xs ≡ y ∷ ys
      → (to_thread (schedule s).0 ≡ true) × InTurn (schedule s).1 y ys
  picks y ys line =
      let p : IsPicked (requeue s) y ys (schedule s) = scheduled (y ∷ ys) line in
      let fits : length (y ∷ ys) ≤ length xs + 1 =
        subst (λ l. length l ≤ length xs + 1) line (length-line_up s.current_tid xs) in
      (
        rw p.switch (ground arith),
        record {
          current = p.current;
          queue = p.queue;
          room = omega (arith, fits, room, size-schedule s);
          names =
              AreThreads-ext s.thread_pool (schedule s).1.thread_pool (y ∷ ys) (tid-schedule s)
                (subst (AreThreads s.thread_pool) line names);
        },
      )

-- A turn of the thread `c`, which an interrupt ends: it is then the last in line.
pub record IsTicked (c : ℕ) (xs : List ℕ) (r : Switch × Threads) : Type 0 where
  pub current : ℕ
  pub behind : List ℕ
  pub goes_on : to_thread r.0 ≡ true
  pub turn : InTurn r.1 current behind
  pub same : Perm (current ∷ behind) (c ∷ xs)
  pub as_many : length behind ≡ length xs

snoc-first : (xs : List ℕ) (c : ℕ) → (y : ℕ) × (ys : List ℕ) × (xs ++ (c ∷ []) ≡ y ∷ ys)
snoc-first [] c = (c, [], refl)
snoc-first (x ∷ xs) c = (x, xs ++ (c ∷ []), refl)

pub tick-IsTicked :
    (s : Threads) (c : ℕ) (xs : List ℕ) (esp : ℕ) → InTurn s c xs → IsTicked c xs (yield s esp)
unfolding yield
tick-IsTicked s c xs esp turn =
    let i = s.current_esp in
    let s₁ : Threads = record s {
      thread_pool = update s.thread_pool i (record (s.thread_pool i) { esp = esp });
    } in
    let line : line_up s.current_tid xs ≡ xs ++ (c ∷ []) =
      rw (turn.current, ne→== c 0 turn.names.0) in
    let names =
      AreThreads-ext s.thread_pool s₁.thread_pool (xs ++ (c ∷ [])) (λ j. ground arith)
        (AreThreads-snoc s.thread_pool c xs turn.names) in
    let (y, ys, e) = snoc-first xs c in
    let (goes_on, next) =
      picks s₁ xs turn.queue turn.room (subst (AreThreads s₁.thread_pool) (sym line) names) y ys
        (line ∙ e) in
    record {
      current = y;
      behind = ys;
      goes_on = goes_on;
      turn = next;
      same = rw (append-nil xs) at (subst (λ l. Perm l (c ∷ (xs ++ []))) e (perm_middle xs []));
      as_many = let n = ap length e in omega (arith, n, length-append xs (c ∷ []));
    }

-- The thread `c` returns: the first that waits has its turn, or the main thread where none waits.
abbrev pub Returned : List ℕ → Switch × Threads → Type 0
Returned [] r = r.0 ≡ Switch.resume_main
Returned (y ∷ ys) r = (to_thread r.0 ≡ true) × InTurn r.1 y ys

-- The state in which `finish` calls `schedule`.
abbrev retired : Threads → Threads
retired s = record (set_state s s.current_tid State.empty) {
  heap = free s.heap (s.thread_pool s.current_tid).stack;
  current_tid = 0;
}

pub finish-Returned : (s : Threads) (c : ℕ) (xs : List ℕ) → InTurn s c xs → Returned xs (finish s)
unfolding finish
finish-Returned s c xs turn = by_line xs refl
  where
    names : AreThreads (retired s).thread_pool xs
    names = AreThreads-ext s.thread_pool (retired s).thread_pool xs (λ j. ground arith) turn.names.2

    by_line : (l : List ℕ) → xs ≡ l → Returned l (schedule (retired s))
    by_line [] e = (scheduled (retired s) xs turn.queue turn.room names [] e).0
    by_line (y ∷ ys) e = picks (retired s) xs turn.queue turn.room names y ys e
