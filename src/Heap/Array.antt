-- ===== src/Heap/Array.antt =====
-- The array of the heap: exchanging two values permutes those in use.
use simple_socks.Common.{
  ℕ, zero, suc, ◌≤◌, ◌<◌, ◌≡◌, refl, ap, ◌∙◌, some, List, [], ◌∷◌, arith, ◌==◌, if◌then◌else◌,
  length, get_or, set, take, length-set, length-take, get_or-set, get_or-take, load-some,
  store-some,
}
use mathlib.Core.List.{Perm}
use mathlib.Core.List.Perm
use simple_socks.Heap.{swap}

module _ {ℓ} {A : Type ℓ} (d : A) where
  abbrev pub swapped : List A → ℕ → ℕ → List A
  swapped a i j = set (set a i (get_or a j d)) j (get_or a i d)

  pub length-swapped : (a : List A) (i j : ℕ) → length (swapped a i j) ≡ length a
  length-swapped a i j =
      length-set (set a i (get_or a j d)) j (get_or a i d) ∙ length-set a i (get_or a j d)

  module _ (a : List A) (i j : ℕ) (hi : i < length a) (hj : j < length a) where
    pub swap-swapped : swap a i j ≡ some (swapped a i j)
    unfolding swap
    swap-swapped = rw (
      load-some d a i hi,
      load-some d a j hj,
      store-some a i (get_or a j d) hi,
      store-some (set a i (get_or a j d)) j (get_or a i d) (rw length-set hj),
    )

    pub get_or-swapped :
        (k : ℕ)
        → get_or (swapped a i j) k d
          ≡ (if j == k then get_or a i d else if i == k then get_or a j d else get_or a k d)
    get_or-swapped k =
        get_or-set (set a i (get_or a j d)) j k (get_or a i d) d (rw length-set hj)
        ∙ ap (λ x. if j == k then get_or a i d else x) (get_or-set a i k (get_or a j d) d hi)

  -- A value written over another one comes in for it.
  set-exchanges :
      (a : List A) (i : ℕ) (x : A) → i < length a → Perm (get_or a i d ∷ set a i x) (x ∷ a)
  set-exchanges [] i x h = absurd (omega arith)
  set-exchanges (y ∷ a) zero x h = Perm.swap x y a
  set-exchanges (y ∷ a) (suc i) x h =
      Perm.trans (Perm.swap y (get_or a i d) (set a i x))
        (Perm.trans (Perm.cons y (set-exchanges a i x (omega arith))) (Perm.swap x y a))

  swapped-perm : (a : List A) (i j : ℕ) → i < length a → j < length a → Perm (swapped a i j) a
  swapped-perm a i j hi hj =
      let b = set a i (get_or a j d) in
      let at_j : get_or b j d ≡ get_or a j d =
        ground (arith, get_or-set a i j (get_or a j d) d hi) in
      let into = rw at_j at (set-exchanges b j (get_or a i d) (rw length-set hj)) in
      Perm.cons_inv (Perm.trans into (set-exchanges a i (get_or a j d) hi))

  take-set : (n : ℕ) (a : List A) (i : ℕ) (x : A) → take n (set a i x) ≡ set (take n a) i x
  take-set zero a i x = refl
  take-set (suc n) [] i x = refl
  take-set (suc n) (y ∷ a) zero x = refl
  take-set (suc n) (y ∷ a) (suc i) x = ap (◌∷◌ y) (take-set n a i x)

  -- Exchanging two values in use permutes the values in use.
  pub take-swapped-perm :
      (n : ℕ) (a : List A) (i j : ℕ)
      → n ≤ length a
      → i < n
      → j < n
      → Perm (take n (swapped a i j)) (take n a)
  take-swapped-perm n a i j h hi hj =
      let size : length (take n a) ≡ n = omega (arith, length-take n a) in
      let same : take n (swapped a i j) ≡ swapped (take n a) i j =
        take-set n (set a i (get_or a j d)) j (get_or a i d)
        ∙ ap (λ b. set b j (get_or a i d)) (take-set n a i (get_or a j d))
        ∙ rw (get_or-take n a i d hi, get_or-take n a j d hj) in
      rw same (swapped-perm (take n a) i j (omega arith) (omega arith))
