-- ===== src/Heap/Down.antt =====
-- The inner loop of ss_heap_pop and ss_heap_reconstruct: a value that may be outranked by a child
-- sinks to its place. ss_heap_reconstruct runs it from the last parent to the root.
use simple_socks.Common.{
  ℕ, zero, suc, ◌+◌, ◌-◌, ◌*◌, ◌^◌, ◌≤◌, ◌<◌, ◌≡◌, ◌≢◌, refl, Option, none, some, List, arith, ltb,
  not, ℤ, length, get_or, take, add_size, sub_size, load-some, ◌∙◌, Succeeds, Succeeds-if,
  Succeeds-bind, inl, inr, Bool-cases,
}
use native.Mathlib.Decide.{ℕ_discrete}
use mathlib.Core.List.Perm
use simple_socks.Heap.{sift_down, sink, greater_child, sift_all, shift_left}
use simple_socks.Heap.Array.{
  swapped, swap-swapped, get_or-swapped, length-swapped, take-swapped-perm,
}
use simple_socks.Heap.Order.{Ranks, parent, key, IsOrderedFrom, Sifted}

module _ {ℓ} {A : Type ℓ} (comparator : A → A → ℤ) (rank : A → ℕ) (ranks : Ranks comparator rank)
    (d : A) (n : ℕ) (small : n < 2 ^ 62) where
  -- Only the edges below `i` may be out of order, and the nodes below rank below its parent too.
  pub record IsSinking (lo : ℕ) (a : List A) (i : ℕ) : Type 0 where
    pub inside : i < n
    pub fits : n ≤ length a
    pub edges :
        (c : ℕ)
        → 0 < c
        → c < n
        → lo ≤ parent c
        → parent c ≢ i
        → key rank d a c ≤ key rank d a (parent c)
    pub across :
        (c : ℕ)
        → 0 < c
        → c < n
        → parent c ≡ i
        → 0 < i
        → lo ≤ parent i
        → key rank d a c ≤ key rank d a (parent i)

  -- The child that no sibling outranks, or that there is no child.
  abbrev IsGreatest : List A → ℕ → Option ℕ → Type 0
  IsGreatest a i none = (c : ℕ) → 0 < c → c < n → parent c ≢ i
  IsGreatest a i (some m) =
      (0 < m)
      × (m < n)
      × (parent m ≡ i)
      × ((c : ℕ) → 0 < c → c < n → parent c ≡ i → key rank d a c ≤ key rank d a m)

  child_cases :
      (a : List A) (i c m : ℕ)
      → 0 < c
      → parent c ≡ i
      → key rank d a (2 * i + 1) ≤ m
      → (c ≡ 2 * i + 2 → key rank d a (2 * i + 2) ≤ m)
      → key rank d a c ≤ m
  child_cases a i c m p e left right = elim (ℕ_discrete c (2 * i + 1)) [
    | yes here ↦ rw here left
    | no other ↦ let here : c ≡ 2 * i + 2 = omega arith in rw here (right here)
  ]

  greater_child-IsGreatest :
      (a : List A) (i : ℕ)
      → i < n
      → n ≤ length a
      → Succeeds (IsGreatest a i) (greater_child comparator a n i)
  unfolding greater_child
  greater_child-IsGreatest a i h fits =
      let right : shift_left (add_size i 1) ≡ 2 * i + 2 = omega arith in
      let left : sub_size (2 * i + 2) 1 ≡ 2 * i + 1 = omega arith in
      rw (right, left)
        (Succeeds-if (ltb (2 * i + 2) n)
          (λ both.
            rw
              (
                load-some d a (2 * i + 1) (ground arith),
                load-some d a (2 * i + 2) (ground arith),
                ranks.is_neg_eq (get_or a (2 * i + 1) d) (get_or a (2 * i + 2) d),
              )
              (elim (Bool-cases (ltb (key rank d a (2 * i + 1)) (key rank d a (2 * i + 2)))) [
                | inl less ↦ rw less (
                  some (2 * i + 2),
                  refl,
                  (
                    omega arith,
                    ground arith,
                    omega arith,
                    λ c p q r.
                        child_cases a i c (key rank d a (2 * i + 2)) p r (ground arith)
                          (λ _. omega arith),
                  ),
                )
                | inr more ↦ rw more (
                  some (2 * i + 1),
                  refl,
                  (
                    omega arith,
                    ground arith,
                    omega arith,
                    λ c p q r.
                        child_cases a i c (key rank d a (2 * i + 1)) p r (omega arith)
                          (λ _. ground arith),
                  ),
                )
              ]))
          λ one.
            Succeeds-if (ltb (2 * i + 1) n)
              (λ left_only. (
                some (2 * i + 1),
                refl,
                (
                  ground arith,
                  ground arith,
                  omega arith,
                  λ c p q r.
                      child_cases a i c (key rank d a (2 * i + 1)) p r (omega arith)
                        (λ e. absurd (ground arith)),
                ),
              ))
              λ leaf. (none, refl, λ c p q r. ground arith))

  swapped-IsSinking :
      (lo : ℕ) (a : List A) (i m : ℕ)
      → IsSinking lo a i
      → IsGreatest a i (some m)
      → key rank d a i < key rank d a m
      → IsSinking lo (swapped d a i m) m
  swapped-IsSinking lo a i m v (pos, below, child, least) lower =
      let inside = v.inside in
      let fits = v.fits in
      let at = get_or-swapped d a i m (omega arith) (omega arith) in
      record {
        inside = below;
        fits = rw (length-swapped d a i m) v.fits;
        edges =
            λ c p q r t. rw (at c, at (parent c)) (ground (arith, v.edges c, least c, v.across m));
        across = λ c p q r t u. rw (at c, at (parent m)) (ground (arith, v.edges c));
      }

  pub sift_down-Sifted :
      (fuel lo : ℕ) (a : List A) (i : ℕ)
      → n - i < fuel
      → IsSinking lo a i
      → Succeeds (Sifted rank d lo n a) (sift_down comparator fuel n a i)
  unfolding sift_down sink
  sift_down-Sifted zero lo a i f v = absurd (omega arith)
  sift_down-Sifted (suc fuel) lo a i f v =
      let inside = v.inside in
      let fits = v.fits in
      Succeeds-bind (greater_child-IsGreatest a i inside fits)
        (sunk fuel lo a i f v (sift_down-Sifted fuel lo))
    where
      sunk :
          (fuel lo : ℕ) (a : List A) (i : ℕ)
          → n - i < suc fuel
          → IsSinking lo a i
          → ((a : List A) (i : ℕ)
              → n - i < fuel
              → IsSinking lo a i
              → Succeeds (Sifted rank d lo n a) (sift_down comparator fuel n a i))
          → (m : Option ℕ) → IsGreatest a i m
          → Succeeds (Sifted rank d lo n a) (sink comparator (sift_down comparator fuel n) a i m)
      sunk fuel lo a i f v ih none g = (
        a,
        refl,
        record {
          ordered = λ c p q r. v.edges c p q r (g c p q);
          same = Perm.refl (take n a);
          size = refl;
        },
      )
      sunk fuel lo a i f v ih (some m) (pos, below, child, most) =
          let inside = v.inside in
          let fits = v.fits in
          rw
            (
              load-some d a i (omega arith),
              load-some d a m (omega arith),
              ranks.is_neg_eq (get_or a i d) (get_or a m d),
              swap-swapped d a i m (omega arith) (omega arith),
            )
            (Succeeds-if (not (ltb (key rank d a i) (key rank d a m)))
              (λ settled. (
                a,
                refl,
                record {
                  ordered = λ c p q r. ground (arith, v.edges c, most c);
                  same = Perm.refl (take n a);
                  size = refl;
                },
              ))
              λ sinks.
                let (b, e, s) =
                  ih (swapped d a i m) m (omega arith)
                    (swapped-IsSinking lo a i m v (pos, below, child, most) (ground arith)) in
                (
                  b,
                  e,
                  record {
                    ordered = s.ordered;
                    same = Perm.trans s.same (take-swapped-perm d n a i m fits inside below);
                    size = s.size ∙ length-swapped d a i m;
                  },
                ))

  -- Each round of ss_heap_reconstruct brings one more parent in order.
  pub sift_all-Sifted :
      (ii : ℕ) (a : List A)
      → ii ≤ n
      → n ≤ length a
      → IsOrderedFrom rank d ii n a
      → Succeeds (Sifted rank d 0 n a) (sift_all comparator n a ii)
  unfolding sift_all
  sift_all-Sifted zero a h fits o =
      (a, refl, record { ordered = o; same = Perm.refl (take n a); size = refl })
  sift_all-Sifted (suc ii) a h fits o =
      Succeeds-bind
        (sift_down-Sifted (suc n) ii a ii (omega arith) (record {
          inside = h;
          fits = fits;
          edges = λ c p q r t. o c p q (omega arith);
          across = λ c p q r t u. absurd (omega arith);
        }))
        λ b s.
          let (b', e, s') = sift_all-Sifted ii b (omega arith) (rw s.size fits) s.ordered in
          (
            b',
            e,
            record {
              ordered = s'.ordered;
              same = Perm.trans s'.same s.same;
              size = s'.size ∙ s.size;
            },
          )
