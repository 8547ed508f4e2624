-- ===== src/Heap/Up.antt =====
-- The loop of ss_heap_push: a value that may outrank its parent rises to its place.
use simple_socks.Common.{
  ℕ, zero, suc, ◌^◌, ◌≤◌, ◌<◌, ◌≡◌, ◌≢◌, refl, List, arith, leb, ◌==◌, ℤ, length, get_or, take,
  add_size, sub_size, load-some, ◌∙◌, Succeeds, Succeeds-if,
}
use mathlib.Core.List.Perm
use simple_socks.Heap.{sift_up, shift_right}
use simple_socks.Heap.Array.{
  swapped, swap-swapped, get_or-swapped, length-swapped, take-swapped-perm,
}
use simple_socks.Heap.Order.{Ranks, parent, key, Sifted}

module _ {ℓ} {A : Type ℓ} (comparator : A → A → ℤ) (rank : A → ℕ) (ranks : Ranks comparator rank)
    (d : A) (n : ℕ) (small : n < 2 ^ 62) where
  -- Only the edge above `i` may be out of order, and the nodes below `i` rank below its parent too.
  pub record IsRising (a : List A) (i : ℕ) : Type 0 where
    pub inside : i < n
    pub fits : n ≤ length a
    pub edges : (c : ℕ) → 0 < c → c < n → c ≢ i → key rank d a c ≤ key rank d a (parent c)
    pub across :
        (c : ℕ) → 0 < c → c < n → parent c ≡ i → 0 < i → key rank d a c ≤ key rank d a (parent i)

  parent_index : (i : ℕ) → i < n → 0 < i → sub_size (shift_right (add_size i 1)) 1 ≡ parent i
  parent_index i h p = omega arith

  swapped-IsRising :
      (a : List A) (i : ℕ)
      → IsRising a i
      → 0 < i
      → key rank d a (parent i) < key rank d a i
      → IsRising (swapped d a i (parent i)) (parent i)
  swapped-IsRising a i v p above =
      let at = get_or-swapped d a i (parent i) (omega arith) (omega arith) in
      record {
        inside = omega arith;
        fits = rw (length-swapped d a i (parent i)) v.fits;
        edges = λ c q r t.
            rw (at c, at (parent c)) (ground (arith, v.edges c, v.edges (parent c), v.across c));
        across = λ c q r t u.
            rw (at c, at (parent (parent i))) (ground (arith, v.edges c, v.edges (parent i)));
      }

  pub sift_up-Sifted :
      (fuel : ℕ) (a : List A) (i : ℕ)
      → i < fuel
      → IsRising a i
      → Succeeds (Sifted rank d 0 n a) (sift_up comparator fuel a i)
  unfolding sift_up
  sift_up-Sifted zero a i f v = absurd (omega arith)
  sift_up-Sifted (suc fuel) a i f v =
      let inside = v.inside in
      Succeeds-if (i == 0)
        (λ root. (
          a,
          refl,
          record {
            ordered = λ c p q r. v.edges c p q (ground arith);
            same = Perm.refl (take n a);
            size = refl;
          },
        ))
        λ below.
          let p : 0 < i = ground arith in
          let q : parent i < n = omega arith in
          rw
            (
              parent_index i inside p,
              load-some d a i (omega arith),
              load-some d a (parent i) (omega arith),
              ranks.is_nonpos_eq (get_or a i d) (get_or a (parent i) d),
              swap-swapped d a i (parent i) (omega arith) (omega arith),
            )
            (Succeeds-if (leb (key rank d a i) (key rank d a (parent i)))
              (λ settled. (
                a,
                refl,
                record {
                  ordered = λ c s t u. ground (arith, v.edges c);
                  same = Perm.refl (take n a);
                  size = refl;
                },
              ))
              λ rises.
                let (b, e, s) =
                  sift_up-Sifted fuel (swapped d a i (parent i)) (parent i) (omega arith)
                    (swapped-IsRising a i v p (ground arith)) in
                (
                  b,
                  e,
                  record {
                    ordered = s.ordered;
                    same = Perm.trans s.same (take-swapped-perm d n a i (parent i) v.fits inside q);
                    size = s.size ∙ length-swapped d a i (parent i);
                  },
                ))
