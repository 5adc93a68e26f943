-- ===== src/Fifos/Console/Hex.antt =====
-- The digits of `print_hex_string` in FileSystem-v3/print.c.
use file_system_toy_os.Prelude.{
  ap, ◌∙◌, ℕ, zero, suc, ◌+◌, ◌-◌, ◌*◌, ◌/◌, ◌%◌, ◌^◌, ◌<◌, ◌≡◌, arith, List, [], ◌∷◌, leb,
  if◌then◌else◌,
}
use file_system_toy_os.Fifos.Console.{hex_digit, hex_digits}

-- The number that a text of digits stands for, behind a number already read.
abbrev digit_value : ℕ → ℕ
digit_value c = if leb 97 c then c - 87 else c - 48

unfoldable pub read_hex : ℕ → List ℕ → ℕ
read_hex value [] = value
read_hex value (c ∷ str) = read_hex (value * 16 + digit_value c) str

-- 16 to the `n`.
unfoldable hex_range : ℕ → ℕ
hex_range zero = 1
hex_range (suc n) = 16 * hex_range n

digit_value-hex_digit : (k : ℕ) → k < 16 → digit_value (hex_digit k) ≡ k
digit_value-hex_digit k lt = ground arith

read_hex-digits :
    (n number : ℕ) (str : List ℕ)
    → number < hex_range n
    → read_hex 0 (hex_digits n number str) ≡ read_hex number str
unfolding read_hex hex_digits hex_range
read_hex-digits zero number str lt = let e : number ≡ 0 = omega arith in rw e
read_hex-digits (suc n) number str lt =
    let e : number / 16 * 16 + digit_value (hex_digit (number % 16)) ≡ number =
      omega (arith, digit_value-hex_digit (number % 16) (omega arith)) in
    read_hex-digits n (number / 16) (hex_digit (number % 16) ∷ str) (omega arith)
    ∙ ap (λ v. read_hex v str) e

-- The 16 digits that print_hex_string makes of a number below 2^64 stand for that number in
-- base 16.
pub read_hex-hex_digits :
    (number : ℕ) → number < 2 ^ 64 → read_hex 0 (hex_digits 16 number []) ≡ number
unfolding read_hex hex_range
read_hex-hex_digits number lt = read_hex-digits 16 number [] lt
