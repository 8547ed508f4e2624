-- ===== src/Heap/Pop.antt =====
-- ss_heap_pop as an operation of a priority queue.
use simple_socks.Common.{
  ℕ, zero, suc, ◌-◌, ◌^◌, ◌≤◌, ◌<◌, ◌≡◌, ◌≢◌, refl, sym, ap, ◌∙◌, true, false, none, some, List, [],
  ◌∷◌, ◌++◌, arith, ◌==◌, if◌then◌else◌, length, get_or, set, take, length-set, get_or-set, ne→==,
  sub_size, load-some, store-some,
}
use native.Mathlib.Decide.{ℕ_discrete}
use mathlib.Core.List.{Perm, perm_append_singleton}
use mathlib.Core.List.Perm
use simple_socks.Heap.{Heap, pop, sift_down}
use simple_socks.Heap.Order.{parent, key, IsOrderedFrom, root_greatest}
use simple_socks.Heap.Down.{IsSinking, sift_down-Sifted}
use simple_socks.Heap.Queue.{items, IsValid, IsHeap}

module _ {ℓ} {A : Type ℓ} (rank : A → ℕ) (d : A) where
  -- From `h` a value `top` that no value outranks is gone, and `h'` is a heap of the others.
  pub record Popped (h : Heap A) (top : A) (h' : Heap A) : Type ℓ where
    pub valid : IsValid rank d h'
    pub heap : IsHeap rank d h'
    pub same : Perm (top ∷ items h') (items h)
    pub greatest : (i : ℕ) → i < h.size → key rank d h.values i ≤ rank top
    pub capacity_eq : h'.capacity ≡ h.capacity
    pub size_eq : suc h'.size ≡ h.size

  pub pop-empty : (h : Heap A) → h.size ≡ 0 → pop h ≡ some (false, none, h)
  unfolding pop
  pop-empty h e = rw e

  take_end : (n : ℕ) (a : List A) → n < length a → take (suc n) a ≡ take n a ++ get_or a n d ∷ []
  take_end n [] h = absurd (omega arith)
  take_end zero (y ∷ a) h = refl
  take_end (suc n) (y ∷ a) h = ap (◌∷◌ y) (take_end n a (omega arith))

  root_moved-perm :
      (n : ℕ) (a : List A)
      → 0 < n
      → n < length a
      → Perm (get_or a 0 d ∷ take n (set a 0 (get_or a n d))) (take (suc n) a)
  root_moved-perm zero a p h = absurd (omega arith)
  root_moved-perm (suc k) [] p h = absurd (omega arith)
  root_moved-perm (suc k) (x ∷ a) p h = Perm.cons x (
      rw (take_end k a (omega arith)) (Perm.symm (perm_append_singleton (get_or a k d) (take k a))))

  module _ (h : Heap A) (v : IsValid rank d h) (o : IsHeap rank d h) (n : ℕ)
      (size : h.size ≡ suc n) where
    -- The last value in use, put at the root.
    abbrev moved : List A
    moved = set h.values 0 (get_or h.values n d)

    moved_value :
        (i : ℕ) → get_or moved i d ≡ (if 0 == i then get_or h.values n d else get_or h.values i d)
    moved_value i =
        let within = v.within in
        let storage = v.storage in get_or-set h.values 0 i (get_or h.values n d) d (omega arith)

    moved-IsSinking :
        (small : n < 2 ^ 62) → 0 < n → IsSinking h.comparator rank v.ranks d n small 0 moved 0
    moved-IsSinking small p =
        let within = v.within in
        let storage = v.storage in
        record {
          inside = p;
          fits = omega (arith, length-set h.values 0 (get_or h.values n d));
          edges = λ c q r t u. ground (arith, moved_value c, moved_value (parent c), o c);
          across = λ c q r t u w. absurd (omega arith);
        }

    moved-perm : 0 < n → Perm (get_or h.values 0 d ∷ take n moved) (items h)
    moved-perm p =
        let within = v.within in
        let storage = v.storage in rw size (root_moved-perm n h.values p (omega arith))

    popped :
        (m : ℕ)
        → m ≡ n
        → (b : List A) → Perm (get_or h.values 0 d ∷ take n b) (items h)
        → IsOrderedFrom rank d 0 n b
        → length b ≡ h.capacity
        → Popped h (get_or h.values 0 d) (record h { values = b; size = m })
    popped m e b same ordered storage =
        let within = v.within in
        record {
          valid = record {
            storage = storage;
            positive = v.positive;
            within = omega arith;
            ranks = v.ranks;
          };
          heap = rw e ordered;
          same = rw e same;
          greatest = λ i p. root_greatest rank d h.size h.values i o p;
          capacity_eq = refl;
          size_eq = omega arith;
        }

  pop_runs :
      (h : Heap A) (v : IsValid rank d h) (n : ℕ) (size : h.size ≡ suc n)
      → n ≢ 0
      → (b : List A)
      → sift_down h.comparator (suc n) n (set h.values 0 (get_or h.values n d)) 0 ≡ some b
      → h.capacity < 2 ^ 62
      → pop h ≡ some (true, some (get_or h.values 0 d), record h { values = b; size = n })
  unfolding pop
  pop_runs h v n size more b e bound =
      let within = v.within in
      let storage = v.storage in
      let last : sub_size h.size 1 ≡ n = omega arith in
      rw (
        ne→== h.size 0 (omega arith),
        load-some d h.values 0 (omega arith),
        last,
        ne→== n 0 more,
        load-some d h.values n (omega arith),
        store-some h.values 0 (get_or h.values n d) (omega arith),
        e,
      )

  -- ss_heap_pop on a valid heap that is not empty, of a capacity below 2^62, hands out a greatest
  -- value and leaves a valid heap of the others.
  pub pop-Popped :
      (h : Heap A)
      → IsValid rank d h
      → IsHeap rank d h
      → 0 < h.size
      → h.capacity < 2 ^ 62
      → (top : A) × (h' : Heap A) × (pop h ≡ some (true, some top, h')) × Popped h top h'
  unfolding pop
  pop-Popped h v o p bound =
      let n = h.size - 1 in
      let size : h.size ≡ suc n = omega arith in
      let within = v.within in
      let storage = v.storage in
      let positive = v.positive in
      let last : sub_size h.size 1 ≡ n = omega arith in
      elim (ℕ_discrete n 0) [
        | yes single ↦
            let one : h.size ≡ 1 = omega arith in
            (
              get_or h.values 0 d,
              record h { size = 0 },
              rw (one, load-some d h.values 0 (omega arith)),
              popped h v o n size 0 (sym single) h.values
                  (rw (one, take_end 0 h.values (omega arith)) (Perm.refl _))
                  (λ c q r. absurd (omega arith)) storage,
            )
        | no more ↦
            let small : n < 2 ^ 62 = omega arith in
            let (b, e, s) =
              sift_down-Sifted h.comparator rank v.ranks d n small (suc n) 0 (moved h v o n size) 0
                (omega arith) (moved-IsSinking h v o n size small (omega arith)) in
            (
              get_or h.values 0 d,
              record h { values = b; size = n },
              pop_runs h v n size more b e bound,
              popped h v o n size n refl b
                  (Perm.trans (Perm.cons _ s.same) (moved-perm h v o n size (omega arith)))
                  s.ordered (s.size ∙ length-set h.values 0 (get_or h.values n d) ∙ storage),
            )
      ]
