-- ===== src/Prelude/Int.antt =====
-- The C type `int`, as far as the code returns it or tests its sign, and 32-bit unsigned steps.
use Prim.Native.Nat.{ℕ, ◌+◌, ◌-◌, ◌%◌, ◌^◌}

-- `negsuc n` is -(n + 1).
pub data ℤ : Type 0 where
  pos : ℕ → ℤ
  negsuc : ℕ → ℤ

-- The status -1.
abbrev pub failure : ℤ
failure = negsuc 0

-- The status 0.
abbrev pub success : ℤ
success = pos 0

-- `unsigned int` addition and subtraction.
abbrev pub add32 : ℕ → ℕ → ℕ
add32 a b = (a + b) % 2 ^ 32

abbrev pub sub32 : ℕ → ℕ → ℕ
sub32 a b = (a + 2 ^ 32 - b) % 2 ^ 32
