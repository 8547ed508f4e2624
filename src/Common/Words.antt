-- ===== src/Common/Words.antt =====
-- size_t, ssize_t and the signed results of C.
use Prim.Native.Nat.{ℕ, ◌+◌, ◌-◌, ◌^◌, ◌%◌, ◌≤◌, ◌<◌}
use mathlib.Core.Path.{◌≡◌}
use mathlib.Core.Bool.{Bool, true, false}
use native.Mathlib.Decide.{dec_lt}
use native.Mathlib.Nat.{mod-eq_of_lt, mod-eq-sub-mod}
use native.Mathlib.Omega.{arith}
use simple_socks.Common.Tests.{ltb, ◌==◌, if◌then◌else◌}

-- Signed integers: `negsuc n` is -(n + 1).
pub data ℤ : Type 0 where
  pos : ℕ → ℤ
  negsuc : ℕ → ℤ

abbrev pub minus_one : ℤ
minus_one = negsuc 0

-- z < 0
abbrev pub is_neg : ℤ → Bool
is_neg (pos n) = false
is_neg (negsuc n) = true

-- z <= 0
abbrev pub is_nonpos : ℤ → Bool
is_nonpos (pos n) = n == 0
is_nonpos (negsuc n) = true

abbrev pub size_mod : ℕ
size_mod = 2 ^ 64

-- size_t a + b
abbrev pub add_size : ℕ → ℕ → ℕ
add_size a b = (a + b) % size_mod

-- size_t a - b
abbrev pub sub_size : ℕ → ℕ → ℕ
sub_size a b = (a + size_mod - b) % size_mod

-- (ssize_t)n
abbrev pub to_ssize : ℕ → ℤ
to_ssize n = if ltb n (2 ^ 63) then pos n else negsuc (size_mod - n - 1)

-- (size_t)z
abbrev pub of_ssize : ℤ → ℕ
of_ssize (pos n) = n % size_mod
of_ssize (negsuc n) = (size_mod - 1 - n) % size_mod

pub add_size-small : (a b : ℕ) → a + b < size_mod → add_size a b ≡ a + b
add_size-small a b h = omega arith

pub sub_size-small : (a b : ℕ) → b ≤ a → a < size_mod → sub_size a b ≡ a - b
sub_size-small a b h k = omega arith

pub to_ssize-small : (n : ℕ) → n < 2 ^ 63 → to_ssize n ≡ pos n
to_ssize-small n h = ground arith

-- One turn at most: `%` is a subtraction or nothing.
pub mod_turn : (a c : ℕ) → a < c + c → a % c ≡ (if ltb a c then a else a - c)
mod_turn a c h = elim (dec_lt a c) [
  | yes p ↦ ground (arith, mod-eq_of_lt p)
  | no p ↦ ground (
    arith,
    mod-eq-sub-mod {n = a} {m = c} (omega arith),
    mod-eq_of_lt {n = a - c} {m = c} (omega arith),
  )
]
