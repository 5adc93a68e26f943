-- ===== src/Fifos/Tests/Running.antt =====
-- The theorems on FileSystem-v3/init.c and on the run of its threads at concrete states.
use file_system_toy_os.Prelude.{some, ◌≡◌, arith, [], ◌∷◌}
use file_system_toy_os.Fifos.Console.{cls, println}
use file_system_toy_os.Fifos.MemoryMap.Walk.{printed}
use file_system_toy_os.Fifos.Thread.{State}
use file_system_toy_os.Fifos.Thread.Events.{Event}
use file_system_toy_os.Fifos.Thread.Finished.{Outcome, resume_main-after}
use file_system_toy_os.Fifos.Start.{Machine, title, init}
use file_system_toy_os.Fifos.Start.Up.{IsUp, init-IsUp}
use file_system_toy_os.Fifos.Tests.{
  sample_threads, sample_threads-InTurn, sample_map, sample_regions, sample_map-AreRegions,
  sample_screen,
}

-- An interrupt and two returns behind it, then the third.
resume_main-after_example :
    Outcome sample_threads 1
      (2 ∷ 3 ∷ [])
      (Event.tick 40 ∷ Event.returned ∷ Event.returned ∷ [])
      Event.returned
resume_main-after_example =
    resume_main-after sample_threads 1 (2 ∷ 3 ∷ [])
      (Event.tick 40 ∷ Event.returned ∷ Event.returned ∷ []) Event.returned sample_threads-InTurn
      (omega arith)

init_example :
    (k : Machine) × (init sample_map 0 sample_screen []
        (record { word = λ _. 7; lastptr = 0 })
        (λ i. record { tid = 9; state = State.running; stack = 0; esp = 0 })
        (λ _. 5)
        500
        600
        700
        800
      ≡ some k)
    × IsUp sample_screen
        (printed sample_map 0
          (println (cls sample_screen) title)
          sample_regions
          (omega arith)
          sample_map-AreRegions)
        []
        k
init_example =
    init-IsUp sample_map 0 sample_screen [] (record { word = λ _. 7; lastptr = 0 })
      (λ i. record { tid = 9; state = State.running; stack = 0; esp = 0 }) (λ _. 5) 500 600 700 800
      sample_regions (omega arith) sample_map-AreRegions
