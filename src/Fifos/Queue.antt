-- ===== src/Fifos/Queue.antt =====
-- The FIFO queue of FileSystem-v3/queue.c. Its elements are pointers, 0 for NULL.
pub mod Contents
use file_system_toy_os.Prelude.{
  ℕ, ◌+◌, ◌*◌, ◌%◌, ◌^◌, Bool, Option, none, some, ◌==◌, if◌then◌else◌, update, add32,
}
use file_system_toy_os.Fifos.Heap.{Heap, malloc}

-- `FIFO_Queue`, less the table of functions.
pub record FifoQueue : Type 0 where
  pub elements : ℕ → ℕ
  pub size : ℕ
  pub head : ℕ
  pub tail : ℕ

-- `(k + 1) % this->size`
abbrev pub next_index : FifoQueue → ℕ → ℕ
next_index q k = add32 k 1 % q.size

unfoldable pub queue_is_full : FifoQueue → Bool
queue_is_full q = next_index q q.tail == q.head

unfoldable pub queue_is_empty : FifoQueue → Bool
queue_is_empty q = q.head == q.tail

-- The result is 1 for an element that was added, 0 for a full queue.
unfoldable pub queue_add : FifoQueue → ℕ → ℕ × FifoQueue
queue_add q element =
    if queue_is_full q
    then (0, q)
    else (1, record q { elements = update q.elements q.tail element; tail = next_index q q.tail })

unfoldable pub queue_poll : FifoQueue → ℕ × FifoQueue
queue_poll q =
    if queue_is_empty q
    then (0, q)
    else (q.elements q.head, record q { head = next_index q q.head })

-- `elements` of a new queue is whatever the heap held. `none` in the middle is NULL; the outer one
-- is a `malloc` that did not end. A queue is 32 bytes, an element 4.
unfoldable pub init_queue : Heap → (ℕ → ℕ) → ℕ → Option (Option FifoQueue × Heap)
init_queue h garbage size = elim (malloc h 32) [
  | none ↦ none
  | some (queue, h') ↦
      if queue == 0 then some (none, h') else elim (malloc h' (add32 size 1 * 4 % 2 ^ 32)) [
        | none ↦ none
        | some (array, h'') ↦
            if array == 0
            then some (none, h'')
            else some
                (some (record { elements = garbage; size = add32 size 1; head = 0; tail = 0 }), h'')
      ]
]
