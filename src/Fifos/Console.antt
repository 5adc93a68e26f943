-- ===== src/Fifos/Console.antt =====
-- The console of FileSystem-v3/print.c: the text screen in the video memory.
pub mod Screen
pub mod Hex
use file_system_toy_os.Prelude.{
  ℕ, zero, suc, ◌+◌, ◌*◌, ◌/◌, ◌%◌, ◌||◌, List, [], ◌∷◌, ◌++◌, ltb, leb, ◌==◌, if◌then◌else◌,
  update,
}

abbrev pub columns : ℕ
columns = 80

abbrev pub lines : ℕ
lines = 24

abbrev pub attribute : ℕ
attribute = 7

-- `video` is the memory from `VIDEO` on.
pub record Console : Type 0 where
  pub xpos : ℕ
  pub ypos : ℕ
  pub video : ℕ → ℕ

unfoldable pub cls : Console → Console
cls c = record {
  xpos = 0;
  ypos = 0;
  video = λ i. if ltb i (columns * lines * 2) then 0 else c.video i;
}

unfoldable pub newline : Console → Console
newline c =
    if leb lines (c.ypos + 1)
    then record (cls c) { ypos = 0 }
    else record c { xpos = 0; ypos = c.ypos + 1 }

-- A byte that is no end of a line, at the cursor.
abbrev pub draw : Console → ℕ → Console
draw c ch =
    let at = (c.xpos + c.ypos * columns) * 2 in
    record c { xpos = c.xpos + 1; video = update (update c.video at ch) (at + 1) attribute }

unfoldable pub put_char : Console → ℕ → Console
put_char c ch =
    if (ch == 10) || (ch == 13)
    then newline c
    else if leb columns (c.xpos + 1)
    then newline (draw c ch)
    else draw c ch

unfoldable pub print : Console → List ℕ → Console
print c [] = c
print c (ch ∷ str) = print (put_char c ch) str

unfoldable pub println : Console → List ℕ → Console
println c str = newline (print c str)

abbrev pub hex_digit : ℕ → ℕ
hex_digit k = if ltb 9 k then k + 87 else k + 48

-- The loop of `print_hex_string`: the digits of `number` from the last one on, before those in `str`.
unfoldable pub hex_digits : ℕ → ℕ → List ℕ → List ℕ
hex_digits zero number str = str
hex_digits (suc n) number str = hex_digits n (number / 16) (hex_digit (number % 16) ∷ str)

unfoldable pub print_hex_string : Console → ℕ → Console
print_hex_string c number = print c (48 ∷ 120 ∷ hex_digits 16 number [])
