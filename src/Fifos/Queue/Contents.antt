-- ===== src/Fifos/Queue/Contents.antt =====
-- The queue of FileSystem-v3/queue.c as a list, oldest element first.
use file_system_toy_os.Prelude.{
  false, true, inr, inl, Bool-cases, ℕ, suc, ◌+◌, ◌-◌, ◌%◌, ◌^◌, ◌<◌, ◌≡◌, refl, List, [], ◌∷◌,
  ◌++◌, arith, ltb, ◌==◌, if◌then◌else◌, length, length-append,
}
use native.Mathlib.Nat.{mod_self, mod-eq_of_lt}
use file_system_toy_os.Fifos.Queue.{
  FifoQueue, next_index, queue_is_full, queue_is_empty, queue_add, queue_poll,
}

-- The place of the `k`-th element, counted from the head.
abbrev pub place_of : FifoQueue → ℕ → ℕ
place_of q k = if ltb (q.head + k) q.size then q.head + k else q.head + k - q.size

-- `xs` stands in the array from place `k` on.
abbrev pub StandsFrom : FifoQueue → ℕ → List ℕ → Type 0
StandsFrom q k [] = Unit {0}
StandsFrom q k (x ∷ xs) = (q.elements (place_of q k) ≡ x) × StandsFrom q (k + 1) xs

pub record Holds (q : FifoQueue) (xs : List ℕ) : Type 0 where
  pub bounded : q.size < 2 ^ 32
  pub head_in : q.head < q.size
  pub fewer : length xs < q.size
  pub tail_at : q.tail ≡ place_of q (length xs)
  pub stands : StandsFrom q 0 xs

next_index_lem :
    (q : FifoQueue) (k : ℕ)
    → q.size < 2 ^ 32
    → k < q.size
    → next_index q k ≡ (if k + 1 == q.size then 0 else k + 1)
next_index_lem q k b lt =
    let e : (k + 1) % 2 ^ 32 ≡ k + 1 = omega arith in
    elim (Bool-cases (k + 1 == q.size)) [
      | inl last ↦ let e' : k + 1 ≡ q.size = ground arith in rw (e, last) (rw e' (mod_self q.size))
      | inr more ↦ rw (e, more) (mod-eq_of_lt (ground arith))
    ]

-- The test for a full queue tells that one place is left.
pub queue_is_full_lem :
    (q : FifoQueue) (xs : List ℕ) → Holds q xs → queue_is_full q ≡ (length xs + 1 == q.size)
unfolding queue_is_full
queue_is_full_lem q xs h = ground (arith, next_index_lem q q.tail)

pub queue_is_empty_lem :
    (q : FifoQueue) (xs : List ℕ) → Holds q xs → queue_is_empty q ≡ (length xs == 0)
unfolding queue_is_empty
queue_is_empty_lem q xs h = ground arith

-- The queue after an element was written at the tail.
abbrev added : FifoQueue → ℕ → FifoQueue
added q x = record q {
  elements = λ j. if j == q.tail then x else q.elements j;
  tail = next_index q q.tail;
}

stands-added :
    (q : FifoQueue) (x : ℕ) (xs : List ℕ) (k n : ℕ)
    → q.head < q.size
    → n < q.size
    → q.tail ≡ place_of q n
    → k + length xs ≡ n
    → StandsFrom q k xs
    → StandsFrom (added q x) k (xs ++ (x ∷ []))
stands-added q x [] k n hh hn t e s = (ground arith, tt)
stands-added q x (y ∷ ys) k n hh hn t e s =
    (ground arith, stands-added q x ys (k + 1) n hh hn t (omega arith) s.1)

stands-polled :
    (q : FifoQueue) (xs : List ℕ) (k : ℕ)
    → q.head < q.size
    → q.size < 2 ^ 32
    → k + suc (length xs) < q.size
    → StandsFrom q (k + 1) xs
    → StandsFrom (record q { head = next_index q q.head }) k xs
stands-polled q [] k hh b lt s = tt
stands-polled q (x ∷ xs) k hh b lt s = (
  (let e = next_index_lem q q.head b hh in ground (arith, e, s.0)),
  stands-polled q xs (k + 1) hh b (omega arith) s.1,
)

-- What `poll` gives: 0 and the same queue where it is empty, or else the oldest element and the
-- queue of the others.
abbrev pub Polled : FifoQueue → List ℕ → ℕ × FifoQueue → Type 0
Polled q [] r = r ≡ (0, q)
Polled q (x ∷ xs) r = (r.0 ≡ x) × Holds r.1 xs

-- What `add` gives: 1 and the queue with the element behind the others, or 0 and the same queue
-- where all places but one are taken.
abbrev pub Added : FifoQueue → List ℕ → ℕ → ℕ × FifoQueue → Type 0
Added q xs x r =
    if ltb (length xs + 1) q.size then (r.0 ≡ 1) × Holds r.1 (xs ++ (x ∷ [])) else r ≡ (0, q)

-- If the queue holds the list xs, oldest first (Holds), queue_add returns 1 and the queue then
-- holds xs and the element behind it where length xs + 1 is less than size; otherwise it
-- returns 0 and changes nothing.
pub queue_add_lem :
    (q : FifoQueue) (xs : List ℕ) (x : ℕ) → Holds q xs → Added q xs x (queue_add q x)
unfolding queue_add
queue_add_lem q xs x h = elim (Bool-cases (ltb (length xs + 1) q.size)) [
  | inl lt ↦
      let free : queue_is_full q ≡ false = ground (arith, queue_is_full_lem q xs h) in
      rw (lt, free, queue_add)
        (
          refl,
          record {
            bounded = h.bounded;
            head_in = h.head_in;
            fewer = ground (arith, length-append xs (x ∷ []));
            tail_at =
                let e = next_index_lem q q.tail h.bounded (ground (arith, h.head_in, h.tail_at)) in
                ground (arith, h.head_in, h.tail_at, e, length-append xs (x ∷ []));
            stands =
                stands-added q x xs 0 (length xs) h.head_in h.fewer h.tail_at (omega arith)
                  h.stands;
          },
        )
  | inr ge ↦
      let full : queue_is_full q ≡ true = ground (arith, queue_is_full_lem q xs h, h.fewer) in
      rw (ge, full, queue_add) refl
]

-- If the queue holds the list xs, oldest first (Holds), queue_poll returns the oldest element
-- and the queue then holds the others; for the empty list it returns NULL and changes nothing.
pub queue_poll_lem : (q : FifoQueue) (xs : List ℕ) → Holds q xs → Polled q xs (queue_poll q)
unfolding queue_poll
queue_poll_lem q [] h =
    let empty : queue_is_empty q ≡ true = ground (arith, queue_is_empty_lem q [] h) in
    rw (empty, queue_poll)
queue_poll_lem q (x ∷ xs) h =
    let some_left : queue_is_empty q ≡ false = ground (arith, queue_is_empty_lem q (x ∷ xs) h) in
    let e = next_index_lem q q.head h.bounded h.head_in in
    rw (some_left, queue_poll)
      (
        ground (arith, h.stands, h.head_in),
        record {
          bounded = h.bounded;
          head_in = ground (arith, h.head_in, e);
          fewer = omega (arith, h.fewer);
          tail_at = ground (arith, h.head_in, h.fewer, h.tail_at, e);
          stands = stands-polled q xs 0 h.head_in h.bounded (omega (arith, h.fewer)) h.stands.1;
        },
      )
