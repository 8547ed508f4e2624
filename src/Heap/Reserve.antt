-- ===== src/Heap/Reserve.antt =====
-- ss_heap_reserve: the capacity grows by doubling, and the values in use are copied over.
use simple_socks.Common.{
  ℕ, zero, suc, ◌*◌, ◌^◌, ◌≤◌, ◌<◌, ◌≡◌, refl, ◌∙◌, List, arith, ltb, leb, length, take, blit,
  length-blit, length-take, get_or-take, get_or-blit, list_ext, copy_from-some, copy_to-some,
  Succeeds, Succeeds-if, Succeeds-bind,
}
use native.Mathlib.Nat.{pow-succ', mul_assoc}
use simple_socks.Heap.{Heap, reserve, real_capacity, shift_left}
use simple_socks.Heap.Queue.{items, IsValid}

-- With enough rounds the doubling reaches the capacity asked for.
real_capacity-reaches :
    (fuel r c : ℕ)
    → 0 < r
    → c ≤ r * 2 ^ fuel
    → c ≤ 2 ^ 62
    → Succeeds (λ real_cap. (c ≤ real_cap) × (r ≤ real_cap)) (real_capacity (suc fuel) r c)
unfolding real_capacity
real_capacity-reaches zero r c p enough small =
    let le : c ≤ r = omega arith in
    Succeeds-if (ltb r c) (λ below. absurd (ground arith)) (λ _. (r, refl, (le, omega arith)))
real_capacity-reaches (suc fuel) r c p enough small =
    Succeeds-if (ltb r c)
      (λ below.
        let lt : r < c = ground arith in
        let twice : shift_left r ≡ r * 2 = omega arith in
        let next : r * 2 ^ suc fuel ≡ r * 2 * 2 ^ fuel =
          rw (pow-succ' 2 fuel, mul_assoc r 2 (2 ^ fuel)) refl in
        let enough' : c ≤ r * 2 * 2 ^ fuel = omega (arith, next) in
        rw twice (
          let (cap, e, (h, k)) = real_capacity-reaches fuel (r * 2) c (omega arith) enough' small in
          (cap, e, (h, omega arith))))
      λ above. (r, refl, (ground arith, omega arith))

-- ss_heap_reserve leaves the values in use as they are, in an array that holds at least the number
-- asked for. Its loop ends, for a number up to 2^62.
pub reserve_lem {ℓ} :
    {A : Type ℓ} (rank : A → ℕ) (d : A) (malloc : ℕ → List A)
    → ((n : ℕ) → length (malloc n) ≡ n)
    → (h : Heap A) (capacity : ℕ) → IsValid rank d h
    → capacity ≤ 2 ^ 62
    → Succeeds
        (λ h'.
          IsValid rank d h'
          × (items h' ≡ items h)
          × (capacity ≤ h'.capacity)
          × (h.capacity ≤ h'.capacity))
        (reserve malloc h capacity)
unfolding reserve
reserve_lem rank d malloc allocates h capacity v small =
    let within = v.within in
    let storage = v.storage in
    let positive = v.positive in
    Succeeds-bind (real_capacity-reaches 63 4 capacity (omega arith) (omega arith) small)
      λ cap (enough, least).
        Succeeds-if (leb cap h.capacity) (λ roomy. (h, refl, (v, refl, ground arith, omega arith)))
          λ tight.
            let fresh = allocates cap in
            let size : length (take h.size h.values) ≡ h.size =
              omega (arith, length-take h.size h.values) in
            let size' = length-blit (malloc cap) 0 (take h.size h.values) in
            let wider : h.capacity < cap = ground arith in
            rw
              (
                copy_from-some h.values 0 h.size (omega arith),
                copy_to-some (malloc cap) 0 (take h.size h.values) (omega arith),
              )
              (
                _,
                refl,
                (
                  record {
                    storage = size' ∙ fresh;
                    positive = omega arith;
                    within = omega arith;
                    ranks = v.ranks;
                  },
                  list_ext d _ _
                      (omega (
                        arith,
                        size,
                        size',
                        fresh,
                        length-take h.size (blit (malloc cap) 0 (take h.size h.values)),
                      ))
                      (λ i p.
                        let below : i < h.size = omega (
                          arith,
                          size',
                          fresh,
                          length-take h.size (blit (malloc cap) 0 (take h.size h.values)),
                        ) in
                        get_or-take h.size _ i d below
                        ∙ ground (arith, get_or-blit (malloc cap) 0 (take h.size h.values) i d)),
                  enough,
                  omega arith,
                ),
              )
