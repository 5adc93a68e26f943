-- ===== src/Fifos/Thread/Lost.antt =====
-- An interrupt in the `schedule` that `finish` of FileSystem-v3/thread.c comes to.
use file_system_toy_os.Prelude.{ℕ, ◌≡◌, List, [], ◌∷◌, update, true}
use file_system_toy_os.Fifos.Queue.Contents.{Holds}
use file_system_toy_os.Fifos.Thread.{Threads, Switch}
use file_system_toy_os.Fifos.Thread.Turns.{InTurn}
use file_system_toy_os.Fifos.Thread.Events.{to_thread, polled}

-- The state in which the handler calls `schedule`.
abbrev stopped : Threads → ℕ → Threads
stopped s esp =
    let p = polled s in
    record p {
      thread_pool =
          update p.thread_pool p.current_esp (record (p.thread_pool p.current_esp) { esp = esp });
    }

-- Whose turn it is: the first of the threads, with the others behind it; or the main thread's, with
-- an empty queue.
abbrev pub GoesTo : List ℕ → Switch × Threads → Type 0
GoesTo [] r = (r.0 ≡ Switch.resume_main) × (r.1.current_tid ≡ 0) × Holds r.1.ready_queue []
GoesTo (y ∷ ys) r = (to_thread r.0 ≡ true) × InTurn r.1 y ys
