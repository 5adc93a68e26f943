-- ===== src/Fifos/Heap.antt =====
-- The heap of FileSystem-v3/heap.c: blocks one behind the other in `buffer`, each with a header of
-- two words, its size (with the bit of an allocated block) and the size of the block before it.
-- An address is the distance from `buffer`; 0, where LASTPTR stands, is NULL.
pub mod Blocks
pub mod Chain
pub mod Fit
pub mod Replace
pub mod Place
pub mod Combine
pub mod Halves
pub mod Free
pub mod Malloc
pub mod Taken
pub mod Returned
use file_system_toy_os.Prelude.{
  ℕ, zero, suc, ◌+◌, ◌-◌, ◌*◌, ◌/◌, ◌%◌, ◌^◌, Bool, not, ◌&&◌, ◌||◌, Option, none, some, ltb, leb,
  ◌==◌, if◌then◌else◌, update, add32, sub32,
}

abbrev pub default_mem_size : ℕ
default_mem_size = 2 ^ 20

-- The words of the headers, by address, and LASTPTR.
pub record Heap : Type 0 where
  pub word : ℕ → ℕ
  pub lastptr : ℕ

abbrev pub baseptr : ℕ
baseptr = 8

-- `GETW(p) & ~0x7` and `GETW(p) & 0x1`.
abbrev pub get_size : Heap → ℕ → ℕ
get_size h p = h.word p - h.word p % 8

abbrev pub is_alloc : Heap → ℕ → Bool
is_alloc h p = h.word p % 2 == 1

abbrev pub putw : Heap → ℕ → ℕ → Heap
putw h p v = record h { word = update h.word p v }

-- `PACK(size, 1)`, that is `size | 1`.
abbrev pub pack_allocated : ℕ → ℕ
pack_allocated size = size + 1 - size % 2

-- NEXT_BLKP and PREV_BLKP
abbrev pub next_block : Heap → ℕ → ℕ
next_block h p = if ltb p h.lastptr then p + get_size h p else 0

abbrev pub prev_block : Heap → ℕ → ℕ
prev_block h p = if ltb baseptr p then p - h.word (p + 4) else 0

unfoldable pub init_heap : Heap → Heap
init_heap h =
    putw (putw (record h { lastptr = baseptr }) baseptr (default_mem_size - 8)) (baseptr + 4) 0

-- The `while` loop of `malloc`: the first free block of at least `blocksize` bytes, 0 if there is
-- none. The outer `none` is a loop that has not ended within its rounds.
unfoldable pub first_fit : Heap → ℕ → ℕ → ℕ → Option ℕ
first_fit h blocksize zero p = none
first_fit h blocksize (suc fuel) p =
    let rest = first_fit h blocksize fuel (next_block h p) in
    if p == 0 then some 0 else if is_alloc h p || ltb (get_size h p) blocksize then rest else some p

-- What `malloc` does with the block that it found.
unfoldable pub place : Heap → ℕ → ℕ → Heap
place h blocksize p =
    let freesize = get_size h p in
    let newblocksize = sub32 freesize blocksize in
    if leb newblocksize 8
    then putw h p (pack_allocated freesize)
    else let next = next_block h p in
      let newfree = p + blocksize in
      let split =
        putw (putw (putw h p (pack_allocated blocksize)) newfree newblocksize) (newfree + 4)
          blocksize in
      if next == 0 then record split { lastptr = newfree } else putw split (next + 4) newblocksize

-- `(size + 7) >> 3 << 3`, and with the header.
abbrev pub block_bytes : ℕ → ℕ
block_bytes size = add32 (add32 size 7 / 8 * 8) 8

-- The heap has at most `default_mem_size / 8` blocks. The result is the address, 0 for NULL.
unfoldable pub malloc : Heap → ℕ → Option (ℕ × Heap)
malloc h size =
    if size == 0
    then some (0, h)
    else elim (first_fit h (block_bytes size) (default_mem_size / 8 + 1) baseptr) [
      | none ↦ none
      | some p ↦ if p == 0 then some (0, h) else some (p + 8, place h (block_bytes size) p)
    ]

-- `p` and the free block `q` behind it become one free block.
unfoldable pub combine : Heap → ℕ → ℕ → Heap
combine h p q =
    let blocksize = add32 (get_size h p) (h.word q) in
    let next = next_block h q in
    let joined = putw h p blocksize in
    if next == 0 then record joined { lastptr = p } else putw joined (next + 4) blocksize

unfoldable pub free : Heap → ℕ → Heap
free h addr =
    if addr == 0
    then h
    else let p = addr - 8 in
      let next = next_block h p in
      let freed =
        if not (next == 0) && not (is_alloc h next)
        then combine h p next
        else putw h p (get_size h p) in
      let prev = prev_block freed p in
      if not (prev == 0) && not (is_alloc freed prev) then combine freed prev p else freed
