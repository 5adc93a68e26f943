-- ===== src/Fifos/MemoryMap/Walk.antt =====
-- What `print_memory_map` of FileSystem-v3/memos.c makes of a map.
use mathlib.Core.Path.{subst}
use file_system_toy_os.Prelude.{
  true, false, ℕ, zero, suc, ◌+◌, ◌-◌, ◌%◌, ◌^◌, ◌<◌, ◌≤◌, ◌≡◌, refl, ◌∙◌, ap, sym, some, List, [],
  ◌∷◌, arith, ltb, ◌==◌, if◌then◌else◌, add32,
}
use file_system_toy_os.Fifos.Console.{Console, print_hex_string}
use file_system_toy_os.Fifos.Console.Screen.{
  IsOnScreen, print-IsOnScreen, put_char-IsOnScreen, println-IsOnScreen,
}
use file_system_toy_os.Fifos.MemoryMap.{
  Region, region_at, word_at, add_free, print_memory_range, print_memory_size, walk_map,
  print_memory_map,
}

-- The regions that stand one behind the other from `at` up to `end`, in a memory of 2^32 bytes.
abbrev pub AreRegions : (ℕ → ℕ) → ℕ → ℕ → List Region → Type 0
AreRegions m end at [] = end ≤ at
AreRegions m end at (r ∷ rs) =
    (at < end)
    × (region_at m at ≡ r)
    × (at + r.size + 4 < 2 ^ 32)
    × AreRegions m end (at + r.size + 4) rs

-- The bytes of the free regions together.
abbrev pub sum_free : List Region → ℕ
sum_free [] = 0
sum_free (r ∷ rs) = (if r.type == 1 then r.len else 0) + sum_free rs

abbrev pub print_ranges : Console → List Region → Console
print_ranges c [] = c
print_ranges c (r ∷ rs) = print_ranges (print_memory_range c r) rs

-- The loop ends within a round for each byte of the map and one more.
walk_map-AreRegions :
    (fuel : ℕ) (m : ℕ → ℕ) (end at total : ℕ) (c : Console) (rs : List Region)
    → AreRegions m end at rs
    → end - at < fuel
    → total < 2 ^ 64
    → walk_map fuel m end at total c ≡ some ((total + sum_free rs) % 2 ^ 64, print_ranges c rs)
unfolding walk_map
walk_map-AreRegions zero m end at total c [] le lt small = absurd (omega (arith, le, lt))
walk_map-AreRegions zero m end at total c (r ∷ rs) (before, is, room, h) lt small =
    absurd (omega (arith, before, lt))
walk_map-AreRegions (suc fuel) m end at total c [] le lt small =
    let stop : ltb at end ≡ false = ground (arith, le) in
    let e : (total + 0) % 2 ^ 64 ≡ total = omega (arith, small) in rw (stop, walk_map, e) refl
walk_map-AreRegions (suc fuel) m end at total c (r ∷ rs) (before, is, room, h) lt small =
    let go : ltb at end ≡ true = ground (arith, before) in
    let next : add32 (add32 at r.size) 4 ≡ at + r.size + 4 = omega (arith, room) in
    let rest =
      walk_map-AreRegions fuel m end (at + r.size + 4) (add_free total r) (print_memory_range c r)
        rs h (omega (arith, lt)) (ground (arith, small)) in
    let sum : (add_free total r + sum_free rs) % 2 ^ 64 ≡ (total + sum_free (r ∷ rs)) % 2 ^ 64 =
      ground arith in
    rw (go, walk_map)
      (subst
        (λ q.
          walk_map fuel m end (add32 (add32 at q.size) 4) (add_free total q)
            (print_memory_range c q)
          ≡ some ((total + sum_free (r ∷ rs)) % 2 ^ 64, print_ranges c (r ∷ rs)))
        (sym is) (rw next (rest ∙ ap (λ n. some (n, print_ranges c (r ∷ rs))) sum)))

-- The messages leave the cursor on the screen.
print_hex_string-IsOnScreen :
    (c c' : Console) (n : ℕ) → IsOnScreen c c' → IsOnScreen c (print_hex_string c' n)
unfolding print_hex_string
print_hex_string-IsOnScreen c c' n h = print-IsOnScreen c c' _ h

print_memory_range-IsOnScreen :
    (c c' : Console) (r : Region) → IsOnScreen c c' → IsOnScreen c (print_memory_range c' r)
unfolding print_memory_range
print_memory_range-IsOnScreen c c' r h =
    (println-IsOnScreen c _ _ (
      print-IsOnScreen c _ _ (
        print_hex_string-IsOnScreen c _ _ (
          put_char-IsOnScreen c _ _
            (print_hex_string-IsOnScreen c _ _ (print-IsOnScreen c c' _ h)))))).0

print_ranges-IsOnScreen :
    (c c' : Console) (rs : List Region) → IsOnScreen c c' → IsOnScreen c (print_ranges c' rs)
print_ranges-IsOnScreen c c' [] h = h
print_ranges-IsOnScreen c c' (r ∷ rs) h =
    print_ranges-IsOnScreen c (print_memory_range c' r) rs (print_memory_range-IsOnScreen c c' r h)

print_memory_size-IsOnScreen :
    (c c' : Console) (n : ℕ) → IsOnScreen c c' → IsOnScreen c (print_memory_size c' n)
unfolding print_memory_size
print_memory_size-IsOnScreen c c' n h =
    put_char-IsOnScreen c _ _ (print_hex_string-IsOnScreen c _ _ (print-IsOnScreen c c' _ h))

module _ (m : ℕ → ℕ) (addr : ℕ) (c : Console) (rs : List Region)
    (inside : word_at m (addr + 48) + word_at m (addr + 44) < 2 ^ 32)
    (regions : AreRegions m
      (word_at m (addr + 48) + word_at m (addr + 44))
      (word_at m (addr + 48))
      rs) where
  -- The screen when the map is printed.
  abbrev pub printed : Console
  printed = print_memory_size (print_ranges c rs) (sum_free rs % 2 ^ 64)

  -- For a map whose regions stand one behind the other in mmap_length bytes from mmap_addr on
  -- (AreRegions), in a memory of 2^32 bytes, and a cursor on the screen: the loop of
  -- print_memory_map ends within mmap_length + 1 rounds, it prints each region once in their
  -- order, and then the sum of the lengths of the regions of type 1, modulo 2^64, in MB; the
  -- cursor is on the screen again and nothing behind the screen has changed.
  pub print_memory_map_lem :
      IsOnScreen c c → (print_memory_map m addr c ≡ some printed) × IsOnScreen c printed
  unfolding print_memory_map
  print_memory_map_lem h =
      let len : ℕ = word_at m (addr + 44) in
      let at : ℕ = word_at m (addr + 48) in
      let e : add32 at len ≡ at + len = omega (arith, inside) in
      let walked =
        walk_map-AreRegions (len + 1) m (at + len) at 0 c rs regions (omega arith) (omega arith) in
      let plain : 0 + sum_free rs ≡ sum_free rs = omega arith in
      (
        rw (e, walked, print_memory_map, plain) refl,
        print_memory_size-IsOnScreen c _ _ (print_ranges-IsOnScreen c c rs h),
      )
