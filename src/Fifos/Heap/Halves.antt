-- ===== src/Fifos/Heap/Halves.antt =====
-- The two halves of `free` in FileSystem-v3/heap.c: the block behind, then the block in front.
use file_system_toy_os.Prelude.{
  ℕ, ◌+◌, ◌-◌, ◌≡◌, ◌≢◌, refl, true, false, not, ◌&&◌, arith, ◌==◌, if◌then◌else◌, ne→==,
}
use file_system_toy_os.Fifos.Heap.{
  Heap, get_size, is_alloc, putw, next_block, prev_block, combine, free,
}

-- The first half of `free`, at the header `p`: the block behind is looked at.
abbrev pub joined_next : Heap → ℕ → Heap
joined_next h p =
    let next = next_block h p in
    if not (next == 0) && not (is_alloc h next) then combine h p next else putw h p (get_size h p)

-- The second half: the block in front.
abbrev pub joined_prev : Heap → ℕ → Heap
joined_prev h p =
    let prev = prev_block h p in
    if not (prev == 0) && not (is_alloc h prev) then combine h prev p else h

pub free-halves : (h : Heap) (p : ℕ) → free h (p + 8) ≡ joined_prev (joined_next h p) p
unfolding free
free-halves h p =
    let e : p + 8 - 8 ≡ p = omega arith in
    let ne : p + 8 ≢ 0 = λ z. omega (arith, z) in rw (ne→== (p + 8) 0 ne, e, free) refl

-- What the two halves do, by what they find.
module _ (h : Heap) (p : ℕ) where
  pub joined_next-none : next_block h p ≡ 0 → joined_next h p ≡ putw h p (get_size h p)
  joined_next-none e = rw e

  pub joined_next-used :
      (q : ℕ) → next_block h p ≡ q → is_alloc h q ≡ true → joined_next h p ≡ putw h p (get_size h p)
  joined_next-used q e used = rw (e, used) (ground arith)

  pub joined_next-free :
      (q : ℕ) → next_block h p ≡ q → q ≢ 0 → is_alloc h q ≡ false → joined_next h p ≡ combine h p q
  joined_next-free q e ne free = rw (e, free, ne→== q 0 ne)

  pub joined_prev-none : prev_block h p ≡ 0 → joined_prev h p ≡ h
  joined_prev-none e = rw e

  pub joined_prev-used : (q : ℕ) → prev_block h p ≡ q → is_alloc h q ≡ true → joined_prev h p ≡ h
  joined_prev-used q e used = rw (e, used) (ground arith)

  pub joined_prev-free :
      (q : ℕ) → prev_block h p ≡ q → q ≢ 0 → is_alloc h q ≡ false → joined_prev h p ≡ combine h q p
  joined_prev-free q e ne free = rw (e, free, ne→== q 0 ne)
