-- ===== src/Fifos/Start.antt =====
-- The start of the kernel, FileSystem-v3/init.c, and the ports that interrupt.c sets up.
pub mod Pool
pub mod Created
pub mod Up
use file_system_toy_os.Prelude.{
  ℕ, ◌+◌, ◌/◌, ◌%◌, Option, none, some, List, [], ◌∷◌, ◌++◌, ◌==◌, if◌then◌else◌,
}
use file_system_toy_os.Fifos.Heap.{Heap, init_heap}
use file_system_toy_os.Fifos.Console.{Console, cls, put_char, print, println}
use file_system_toy_os.Fifos.MemoryMap.{print_memory_map}
use file_system_toy_os.Fifos.Thread.{Tcb, Threads, Switch, init_thread, thread_create, yield}

-- What has been written to the ports, each byte with its port, the first one first.
abbrev pub Ports : Type 0
Ports = List (ℕ × ℕ)

unfoldable pub outb : Ports → ℕ → ℕ → Ports
outb ports uch port = ports ++ ((uch % 256, port % 65536) ∷ [])

abbrev pub frequency : ℕ
frequency = 20

abbrev pub pit_freq : ℕ
pit_freq = 1193181

-- The mode, then the low and the high byte of the divisor.
unfoldable pub init_pit : Ports → Ports
init_pit ports =
    outb (outb (outb ports 0x34 0x43) (pit_freq / frequency % 256) 0x40)
      (pit_freq / frequency / 256) 0x40

unfoldable pub init_pic : Ports → Ports
init_pic ports = outb (outb (outb ports 0x11 0x20) 0x20 0x21) 0x0D 0x21

-- "File system DISCOS: Jiaqian Sun, Ziqi Tan"
abbrev pub title : List ℕ
title =
    70 ∷ 105 ∷ 108 ∷ 101 ∷ 32 ∷ 115 ∷ 121 ∷ 115 ∷ 116 ∷ 101 ∷ 109 ∷ 32 ∷ 68 ∷ 73 ∷ 83 ∷ 67 ∷ 79 ∷ 83
    ∷ 58 ∷ 32 ∷ 74 ∷ 105 ∷ 97 ∷ 113 ∷ 105 ∷ 97 ∷ 110 ∷ 32 ∷ 83 ∷ 117 ∷ 110 ∷ 44 ∷ 32 ∷ 90 ∷ 105
    ∷ 113 ∷ 105 ∷ 32 ∷ 84 ∷ 97 ∷ 110 ∷ []

-- "Thread "
abbrev pub thread_text : List ℕ
thread_text = 84 ∷ 104 ∷ 114 ∷ 101 ∷ 97 ∷ 100 ∷ 32 ∷ []

-- "Failed to create new thread."
abbrev pub failed_text : List ℕ
failed_text =
    70 ∷ 97 ∷ 105 ∷ 108 ∷ 101 ∷ 100 ∷ 32 ∷ 116 ∷ 111 ∷ 32 ∷ 99 ∷ 114 ∷ 101 ∷ 97 ∷ 116 ∷ 101 ∷ 32
    ∷ 110 ∷ 101 ∷ 119 ∷ 32 ∷ 116 ∷ 104 ∷ 114 ∷ 101 ∷ 97 ∷ 100 ∷ 46 ∷ []

-- "All threads finished."
abbrev pub finished_text : List ℕ
finished_text =
    65 ∷ 108 ∷ 108 ∷ 32 ∷ 116 ∷ 104 ∷ 114 ∷ 101 ∷ 97 ∷ 100 ∷ 115 ∷ 32 ∷ 102 ∷ 105 ∷ 110 ∷ 105 ∷ 115
    ∷ 104 ∷ 101 ∷ 100 ∷ 46 ∷ []

-- The screen, the ports and the threads, with the heap among these.
pub record Machine : Type 0 where
  pub console : Console
  pub ports : Ports
  pub threads : Threads

-- A thread is made, and the message says which; `finish` and `f` are the addresses of functions.
unfoldable pub create_thread : ℕ → ℕ → Machine → Option Machine
create_thread finish f k = elim (thread_create finish k.threads f) [
  | none ↦ none
  | some (tid, s) ↦ some (record k {
    console =
        if tid == 0
        then print k.console failed_text
        else put_char (print k.console thread_text) (tid + 48);
    threads = s;
  })
]

-- `init` up to the first of the threads: `none` is a loop or a `malloc` that did not end.
unfoldable pub init_machine :
    (ℕ → ℕ) → ℕ → Console → Ports → Heap → (ℕ → Tcb) → (ℕ → ℕ) → Option Machine
init_machine m addr c ports h pool garbage =
    elim (print_memory_map m addr (println (cls c) title)) [
      | none ↦ none
      | some c' ↦ elim (init_thread (init_heap h) pool garbage 6) [
        | none ↦ none
        | some s ↦ some (record { console = c'; ports = init_pit (init_pic ports); threads = s })
      ]
    ]

-- `init` up to its `yield`, with the addresses of the functions of the three threads.
unfoldable pub init :
    (ℕ → ℕ) → ℕ → Console → Ports → Heap → (ℕ → Tcb) → (ℕ → ℕ) → ℕ → ℕ → ℕ → ℕ → Option Machine
init m addr c ports h pool garbage finish thread1_run thread2_run thread3_run =
    elim (init_machine m addr c ports h pool garbage) [
      | none ↦ none
      | some k ↦ elim (create_thread finish thread1_run k) [
        | none ↦ none
        | some k₁ ↦ elim (create_thread finish thread2_run k₁) [
          | none ↦ none
          | some k₂ ↦ create_thread finish thread3_run k₂
        ]
      ]
    ]

-- What is left of `init` when the main thread goes on.
unfoldable pub init_end : Console → Console
init_end c = print c finished_text
