-- ===== src/Fifos/Console/Screen.antt =====
-- The cursor of FileSystem-v3/print.c and the bounds of the screen.
use file_system_toy_os.Prelude.{
  ℕ, ◌+◌, ◌≤◌, ◌<◌, ◌≡◌, arith, List, [], ◌∷◌, ◌==◌, ◌||◌, leb, Bool-cases, inl, inr,
}
use file_system_toy_os.Fifos.Console.{Console, cls, newline, draw, put_char, print, println}

-- The cursor of `c'` is on the screen, and the memory behind the screen is that of `c`.
pub record IsOnScreen (c c' : Console) : Type 0 where
  pub column : c'.xpos < 80
  pub line : c'.ypos < 24
  pub behind : (i : ℕ) → 3840 ≤ i → c'.video i ≡ c.video i

-- A line break from a cursor on a line of the screen.
newline-IsOnScreen :
    (c c' : Console)
    → c'.ypos < 24
    → ((i : ℕ) → 3840 ≤ i → c'.video i ≡ c.video i)
    → IsOnScreen c (newline c')
unfolding newline cls
newline-IsOnScreen c c' y b = elim (Bool-cases (leb 24 (c'.ypos + 1))) [
  | inl last ↦
      rw (last, newline)
        (record { column = omega arith; line = omega arith; behind = λ i le. ground (arith, b i) })
  | inr more ↦ rw (more, newline) (record { column = omega arith; line = ground arith; behind = b })
]

pub put_char-IsOnScreen :
    (c c' : Console) (ch : ℕ) → IsOnScreen c c' → IsOnScreen c (put_char c' ch)
unfolding put_char
put_char-IsOnScreen c c' ch h = elim (Bool-cases ((ch == 10) || (ch == 13))) [
  | inl break ↦ rw (break, put_char) (newline-IsOnScreen c c' h.line h.behind)
  | inr plain ↦ elim (Bool-cases (leb 80 (c'.xpos + 1))) [
    | inl full ↦ rw (plain, full, put_char) (newline-IsOnScreen c (draw c' ch) h.line drawn)
    | inr room ↦
        rw (plain, room, put_char) (record { column = ground arith; line = h.line; behind = drawn })
  ]
]
  where
    drawn : (i : ℕ) → 3840 ≤ i → (draw c' ch).video i ≡ c.video i
    drawn i le = ground (arith, h.behind i, h.column, h.line)

pub print-IsOnScreen :
    (c c' : Console) (str : List ℕ) → IsOnScreen c c' → IsOnScreen c (print c' str)
unfolding print
print-IsOnScreen c c' [] h = h
print-IsOnScreen c c' (ch ∷ str) h =
    print-IsOnScreen c (put_char c' ch) str (put_char-IsOnScreen c c' ch h)

-- From a cursor on the screen (column below 80, line below 24), println of any text leaves the
-- cursor on the screen at column 0, and the memory from the end of the screen on (byte 3840 of
-- the video memory) as it was.
pub println-IsOnScreen :
    (c c' : Console) (str : List ℕ)
    → IsOnScreen c c'
    → IsOnScreen c (println c' str) × ((println c' str).xpos ≡ 0)
unfolding println newline cls
println-IsOnScreen c c' str h =
    let printed = print-IsOnScreen c c' str h in
    (newline-IsOnScreen c (print c' str) printed.line printed.behind, ground arith)
