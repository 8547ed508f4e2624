-- ===== src/Heap/Order.antt =====
-- The heap order, by the rank that the comparator compares.
use simple_socks.Common.{
  ℕ, zero, suc, ◌-◌, ◌/◌, ◌≤◌, ◌<◌, ◌≡◌, List, arith, ltb, leb, ℤ, is_neg, is_nonpos, length,
  get_or, take,
}
use mathlib.Core.List.{Perm}

-- The comparator is a three-way comparison of ranks, by its sign.
pub record Ranks {ℓ} {A : Type ℓ} (comparator : A → A → ℤ) (rank : A → ℕ) : Type ℓ where
  pub is_neg_eq : (x y : A) → is_neg (comparator x y) ≡ ltb (rank x) (rank y)
  pub is_nonpos_eq : (x y : A) → is_nonpos (comparator x y) ≡ leb (rank x) (rank y)

abbrev pub parent : ℕ → ℕ
parent c = (c - 1) / 2

module _ {ℓ} {A : Type ℓ} (rank : A → ℕ) (d : A) where
  abbrev pub key : List A → ℕ → ℕ
  key a i = rank (get_or a i d)

  -- Among the first `n` values, no child of a node from `lo` on outranks its parent.
  abbrev pub IsOrderedFrom : ℕ → ℕ → List A → Type 0
  IsOrderedFrom lo n a = (c : ℕ) → 0 < c → c < n → lo ≤ parent c → key a c ≤ key a (parent c)

  -- A loop keeps the array's length and, up to their order, its first `n` values, and ends with
  -- these ordered from `lo` on.
  pub record Sifted (lo n : ℕ) (a b : List A) : Type ℓ where
    pub ordered : IsOrderedFrom lo n b
    pub same : Perm (take n b) (take n a)
    pub size : length b ≡ length a

  root_greatest_below :
      (fuel n : ℕ) (a : List A) (i : ℕ) → IsOrderedFrom 0 n a → i < fuel → i < n → key a i ≤ key a 0
  root_greatest_below zero n a i h f p = absurd (omega arith)
  root_greatest_below (suc fuel) n a i h f p =
      ground (arith, h i, root_greatest_below fuel n a (parent i) h)

  pub root_greatest : (n : ℕ) (a : List A) (i : ℕ) → IsOrderedFrom 0 n a → i < n → key a i ≤ key a 0
  root_greatest n a i h p = root_greatest_below (suc i) n a i h (omega arith) p
