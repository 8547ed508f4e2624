-- ===== src/Common/Pointwise.antt =====
-- Lists by their entries: what each list operation holds at an index, and that the entries decide
-- the list. `slice` is the source of a memcpy, `blit` its effect on the destination.
use Prim.Native.Nat.{ℕ, zero, suc, ◌+◌, ◌-◌, ◌≤◌, ◌<◌}
use mathlib.Core.Path.{◌≡◌, refl, ap, ap₂, ◌∙◌}
use mathlib.Core.Bool.{◌&&◌}
use mathlib.Core.List.{List, [], ◌∷◌, ◌++◌}
use native.Mathlib.Omega.{arith}
use simple_socks.Common.Tests.{ltb, leb, ◌==◌, if◌then◌else◌}
use simple_socks.Common.Lists.{
  length, get_or, set, take, drop, length-set, length-take, length-drop, take-take,
}

module _ {ℓ} {A : Type ℓ} where
  -- The `n` entries from index `i` on.
  abbrev pub slice : ℕ → ℕ → List A → List A
  slice i n xs = take n (drop i xs)

  -- `src` written over the entries from index `i` on.
  abbrev pub blit : List A → ℕ → List A → List A
  blit dest i [] = dest
  blit dest i (x ∷ src) = blit (set dest i x) (i + 1) src

  -- f 0, f 1, …, f (n - 1)
  abbrev pub tabulate : ℕ → (ℕ → A) → List A
  tabulate zero f = []
  tabulate (suc n) f = f 0 ∷ tabulate n (λ i. f (suc i))

  pub length-slice : (i n : ℕ) (xs : List A) → i + n ≤ length xs → length (slice i n xs) ≡ n
  length-slice i n xs h = omega (arith, length-take n (drop i xs), length-drop i xs)

  pub length-blit : (dest : List A) (i : ℕ) (src : List A) → length (blit dest i src) ≡ length dest
  length-blit dest i [] = refl
  length-blit dest i (x ∷ src) = length-blit (set dest i x) (i + 1) src ∙ length-set dest i x

  pub length-tabulate : (n : ℕ) (f : ℕ → A) → length (tabulate n f) ≡ n
  length-tabulate zero f = refl
  length-tabulate (suc n) f = ap suc (length-tabulate n (λ i. f (suc i)))

  pub tabulate_cong :
      (n : ℕ) (f g : ℕ → A) → ((i : ℕ) → i < n → f i ≡ g i) → tabulate n f ≡ tabulate n g
  tabulate_cong zero f g h = refl
  tabulate_cong (suc n) f g h =
      ap₂ ◌∷◌ (h 0 (omega arith))
        (tabulate_cong n (λ i. f (suc i)) (λ i. g (suc i)) (λ i p. h (suc i) (omega arith)))

  pub tabulate_end : (n : ℕ) (f : ℕ → A) → tabulate (suc n) f ≡ tabulate n f ++ f n ∷ []
  tabulate_end zero f = refl
  tabulate_end (suc n) f = ap (◌∷◌ (f 0)) (tabulate_end n (λ i. f (suc i)))

  pub get_or-set :
      (xs : List A) (i j : ℕ) (v d : A)
      → i < length xs
      → get_or (set xs i v) j d ≡ (if i == j then v else get_or xs j d)
  get_or-set [] i j v d h = absurd (omega arith)
  get_or-set (x ∷ xs) zero zero v d h = refl
  get_or-set (x ∷ xs) zero (suc j) v d h = ground arith
  get_or-set (x ∷ xs) (suc i) zero v d h = ground arith
  get_or-set (x ∷ xs) (suc i) (suc j) v d h = ground (arith, get_or-set xs i j v d)

  pub get_or-take :
      (n : ℕ) (xs : List A) (i : ℕ) (d : A) → i < n → get_or (take n xs) i d ≡ get_or xs i d
  get_or-take zero xs i d h = absurd (omega arith)
  get_or-take (suc n) [] i d h = refl
  get_or-take (suc n) (x ∷ xs) zero d h = refl
  get_or-take (suc n) (x ∷ xs) (suc i) d h = get_or-take n xs i d (omega arith)

  pub get_or-drop :
      (n : ℕ) (xs : List A) (i : ℕ) (d : A) → get_or (drop n xs) i d ≡ get_or xs (n + i) d
  get_or-drop zero xs i d = ap (λ k. get_or xs k d) (omega arith)
  get_or-drop (suc n) [] i d = refl
  get_or-drop (suc n) (x ∷ xs) i d = ground (arith, get_or-drop n xs i d)

  pub get_or-append :
      (xs ys : List A) (i : ℕ) (d : A)
      → get_or (xs ++ ys) i d
        ≡ (if ltb i (length xs) then get_or xs i d else get_or ys (i - length xs) d)
  get_or-append [] ys i d = ground arith
  get_or-append (x ∷ xs) ys zero d = ground arith
  get_or-append (x ∷ xs) ys (suc i) d = ground (arith, get_or-append xs ys i d)

  pub get_or-append_left :
      (xs ys : List A) (i : ℕ) (d : A) → i < length xs → get_or (xs ++ ys) i d ≡ get_or xs i d
  get_or-append_left xs ys i d h = ground (arith, get_or-append xs ys i d)

  pub get_or-append_right :
      (xs ys : List A) (i : ℕ) (d : A)
      → length xs ≤ i
      → get_or (xs ++ ys) i d ≡ get_or ys (i - length xs) d
  get_or-append_right xs ys i d h = ground (arith, get_or-append xs ys i d)

  pub get_or-tabulate :
      (n : ℕ) (f : ℕ → A) (i : ℕ) (d : A) → i < n → get_or (tabulate n f) i d ≡ f i
  get_or-tabulate zero f i d h = absurd (omega arith)
  get_or-tabulate (suc n) f zero d h = refl
  get_or-tabulate (suc n) f (suc i) d h = get_or-tabulate n (λ k. f (suc k)) i d (omega arith)

  pub get_or-slice :
      (i n : ℕ) (xs : List A) (j : ℕ) (d : A)
      → j < n
      → get_or (slice i n xs) j d ≡ get_or xs (i + j) d
  get_or-slice i n xs j d h = get_or-take n (drop i xs) j d h ∙ get_or-drop i xs j d

  pub slice-take :
      (i n m : ℕ) (xs : List A) → i + n ≤ m → m ≤ length xs → slice i n (take m xs) ≡ slice i n xs
  slice-take zero n m xs h k = take-take n m xs (omega arith)
  slice-take (suc i) n zero xs h k = absurd (omega arith)
  slice-take (suc i) n (suc m) [] h k = refl
  slice-take (suc i) n (suc m) (x ∷ xs) h k = slice-take i n m xs (omega arith) (omega arith)

  pub slice-next :
      (i n : ℕ) (xs : List A) (d : A)
      → i < length xs
      → slice i (suc n) xs ≡ get_or xs i d ∷ slice (suc i) n xs
  slice-next i n [] d h = absurd (omega arith)
  slice-next zero n (x ∷ xs) d h = refl
  slice-next (suc i) n (x ∷ xs) d h = slice-next i n xs d (omega arith)

  pub take-append : (xs ys : List A) → take (length xs) (xs ++ ys) ≡ xs
  take-append [] ys = refl
  take-append (x ∷ xs) ys = ap (◌∷◌ x) (take-append xs ys)

  pub get_or-blit :
      (dest : List A) (i : ℕ) (src : List A) (j : ℕ) (d : A)
      → i + length src ≤ length dest
      → get_or (blit dest i src) j d
        ≡ (if leb i j && ltb j (i + length src) then get_or src (j - i) d else get_or dest j d)
  get_or-blit dest i [] j d h = ground arith
  get_or-blit dest i (x ∷ src) j d h = ground (
    arith,
    get_or-blit (set dest i x) (i + 1) src j d,
    length-set dest i x,
    get_or-set dest i j x d,
  )

  pub list_ext :
      (d : A) (xs ys : List A)
      → length xs ≡ length ys
      → ((i : ℕ) → i < length xs → get_or xs i d ≡ get_or ys i d)
      → xs ≡ ys
  list_ext d [] [] e h = refl
  list_ext d [] (y ∷ ys) e h = absurd (omega arith)
  list_ext d (x ∷ xs) [] e h = absurd (omega arith)
  list_ext d (x ∷ xs) (y ∷ ys) e h =
      ap₂ ◌∷◌ (h 0 (omega arith)) (list_ext d xs ys (omega arith) (λ i p. h (suc i) (omega arith)))
