-- ===== src/Dns/Tids/Bits.antt =====
-- The bits of the flags of src/service/ss_dns.c under `|`, `&` and `^`, one at a time.
use Prim.Native.Nat.{
  bit_and, bit_or, bit_xor, max, digits, differ, bit_or-bitwise, bit_and-bitwise, bit_xor-bitwise,
}
use simple_socks.Common.{
  ℕ, zero, suc, ◌+◌, ◌-◌, ◌*◌, ◌/◌, ◌%◌, ◌^◌, ◌≤◌, ◌<◌, min, ◌≡◌, refl, sym, ◌∙◌, ◌≢◌, arith,
}
use native.Mathlib.Nat.{pow-suc, one-le-pow}
use native.Mathlib.Decide.{dec_lt}

-- Bit `j` of a number.
abbrev pub bit : ℕ → ℕ → ℕ
bit a zero = a % 2
bit a (suc j) = bit (a / 2) j

pub bit-zero : (j : ℕ) → bit 0 j ≡ 0
bit-zero zero = refl
bit-zero (suc j) = bit-zero j

pub bit_le : (a j : ℕ) → bit a j ≤ 1
bit_le a zero = omega arith
bit_le a (suc j) = bit_le (a / 2) j

-- An operation on two digits, and what is left when the first number has run out.
record IsDigitwise (z : ℕ → ℕ) (f : ℕ → ℕ → ℕ) : Type 0 where
  digit_le : (x y : ℕ) → x ≤ 1 → y ≤ 1 → f x y ≤ 1
  bit_end : (b j : ℕ) → bit (z b) j ≡ f 0 (bit b j)

module _ (z : ℕ → ℕ) (f : ℕ → ℕ → ℕ) (digitwise : IsDigitwise z f) where
  bit-digits : (n a b j : ℕ) → a ≤ n → bit (digits z f n a b) j ≡ f (bit a j) (bit b j)
  bit-digits zero zero b j h = rw (bit-zero j) (digitwise.bit_end b j)
  bit-digits zero (suc a) b j h = absurd (omega arith)
  bit-digits (suc n) zero b j h = rw (bit-zero j) (digitwise.bit_end b j)
  bit-digits (suc n) (suc a) b zero h =
      let digit = digitwise.digit_le (suc a % 2) (b % 2) (omega arith) (omega arith) in omega arith
  bit-digits (suc n) (suc a) b (suc j) h =
      let digit = digitwise.digit_le (suc a % 2) (b % 2) (omega arith) (omega arith) in
      let rest = digits z f n (suc a / 2) (b / 2) in
      let half : (rest * 2 + f (suc a % 2) (b % 2)) / 2 ≡ rest = omega arith in
      rw half (bit-digits n (suc a / 2) (b / 2) j (omega arith))

pub bit-bit_or : (a b j : ℕ) → bit (bit_or a b) j ≡ max (bit a j) (bit b j)
bit-bit_or a b j = simp bit_or-bitwise (
    bit-digits (λ y. y) max
      (record { digit_le = λ x y p q. omega arith; bit_end = λ b j. omega arith }) a a b j
      (omega arith))

pub bit-bit_and : (a b j : ℕ) → bit (bit_and a b) j ≡ min (bit a j) (bit b j)
bit-bit_and a b j = simp bit_and-bitwise (
    bit-digits (λ y. 0) min
      (record { digit_le = λ x y p q. omega arith; bit_end = λ b j. omega (arith, bit-zero j) }) a a
      b j (omega arith))

differ_le : (x y : ℕ) → x ≤ 1 → y ≤ 1 → differ x y ≤ 1
differ_le zero y p q = q
differ_le (suc x) zero p q = p
differ_le (suc zero) (suc y) p q = omega arith
differ_le (suc (suc x)) (suc y) p q = absurd (omega arith)

pub bit-bit_xor : (a b j : ℕ) → bit (bit_xor a b) j ≡ differ (bit a j) (bit b j)
bit-bit_xor a b j = simp bit_xor-bitwise (
    bit-digits (λ y. y) differ (record { digit_le = differ_le; bit_end = λ b j. refl }) a a b j
      (omega arith))

pub zero_of_bits : (n a : ℕ) → a ≤ n → ((j : ℕ) → bit a j ≡ 0) → a ≡ 0
zero_of_bits zero a p h = omega arith
zero_of_bits (suc n) zero p h = refl
zero_of_bits (suc n) (suc a) p h =
    let half = zero_of_bits n (suc a / 2) (omega arith) (λ j. h (suc j)) in
    omega (arith, half, h zero)

-- A number is below 2^k if its bits from k on are 0.
pub lt_of_bits : (k a : ℕ) → ((j : ℕ) → k ≤ j → bit a j ≡ 0) → a < 2 ^ k
lt_of_bits zero a h = omega (arith, zero_of_bits a a (omega arith) (λ j. h j (omega arith)))
lt_of_bits (suc k) a h =
    let half = lt_of_bits k (a / 2) (λ j le. h (suc j) (omega arith)) in
    omega (arith, half, pow-suc 2 k)

pub bits_of_lt : (k a j : ℕ) → a < 2 ^ k → k ≤ j → bit a j ≡ 0
bits_of_lt zero a j h le = let e : a ≡ 0 = omega arith in rw e (bit-zero j)
bits_of_lt (suc k) a zero h le = absurd (omega arith)
bits_of_lt (suc k) a (suc j) h le =
    bits_of_lt k (a / 2) j (omega (arith, pow-suc 2 k)) (omega arith)

half_pow : (k : ℕ) → (2 ^ suc k) / 2 ≡ 2 ^ k
half_pow k = omega (arith, pow-suc 2 k)

pub bit-pow : (k : ℕ) → bit (2 ^ k) k ≡ 1
bit-pow zero = refl
bit-pow (suc k) = rw (half_pow k) (bit-pow k)

pub bit-pow_other : (k j : ℕ) → k ≢ j → bit (2 ^ k) j ≡ 0
bit-pow_other zero zero ne = absurd (ne refl)
bit-pow_other zero (suc j) ne = bit-zero j
bit-pow_other (suc k) zero ne = omega (arith, pow-suc 2 k)
bit-pow_other (suc k) (suc j) ne = rw (half_pow k) (bit-pow_other k j (omega arith))

bit-ones : (k j : ℕ) → j < k → bit (2 ^ k - 1) j ≡ 1
bit-ones zero j h = absurd (omega arith)
bit-ones (suc k) zero h = omega (arith, pow-suc 2 k, one-le-pow k 2)
bit-ones (suc k) (suc j) h =
    let half : (2 ^ suc k - 1) / 2 ≡ 2 ^ k - 1 = omega (arith, pow-suc 2 k, one-le-pow k 2) in
    rw half (bit-ones k j (omega arith))

-- 0xFFFF ^ (1 << k)
pub bit-mask : (k : ℕ) → k < 16 → bit (bit_xor 65535 (2 ^ k)) k ≡ 0
bit-mask k h = rw (bit-bit_xor 65535 (2 ^ k) k, bit-ones 16 k h, bit-pow k)

pub bit-mask_other : (k j : ℕ) → j < 16 → k ≢ j → bit (bit_xor 65535 (2 ^ k)) j ≡ 1
bit-mask_other k j h ne = rw (bit-bit_xor 65535 (2 ^ k) j, bit-ones 16 j h, bit-pow_other k j ne)

same_below : (n a b : ℕ) → a ≤ n → b ≤ n → ((j : ℕ) → bit a j ≡ bit b j) → a ≡ b
same_below zero a b p q h = omega arith
same_below (suc n) a b p q h =
    let half = same_below n (a / 2) (b / 2) (omega arith) (omega arith) (λ j. h (suc j)) in
    omega (arith, half, h zero)

-- Numbers with the same bits are the same.
pub eq_of_bits : (a b : ℕ) → ((j : ℕ) → bit a j ≡ bit b j) → a ≡ b
eq_of_bits a b h = same_below (a + b) a b (omega arith) (omega arith) h

-- A number below 2^16 all of whose bits are set.
pub full_of_bits : (a : ℕ) → a < 2 ^ 16 → ((j : ℕ) → j < 16 → bit a j ≡ 1) → a ≡ 65535
full_of_bits a small h = eq_of_bits a 65535 λ j. elim (dec_lt j 16) [
  | yes inside ↦ h j inside ∙ sym (bit-ones 16 j inside)
  | no outside ↦
      bits_of_lt 16 a j small (omega arith)
      ∙ sym (bits_of_lt 16 65535 j (omega arith) (omega arith))
]
