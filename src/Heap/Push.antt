-- ===== src/Heap/Push.antt =====
-- ss_heap_push as an operation of a priority queue.
use simple_socks.Common.{
  ℕ, zero, suc, ◌*◌, ◌^◌, ◌<◌, ◌≡◌, refl, sym, ap, ◌∙◌, Bool, true, some, List, [], ◌∷◌, ◌++◌,
  arith, ◌==◌, if◌then◌else◌, length, get_or, set, take, blit, take_all, length-set, length-blit,
  length-take, get_or-set, get_or-take, get_or-blit, list_ext, add_size, sub_size, store-some,
  copy_from-some, copy_to-some, Succeeds, Succeeds-if, Succeeds-bind,
}
use mathlib.Core.List.{Perm, perm_append_singleton}
use mathlib.Core.List.Perm
use simple_socks.Heap.{Heap, grow, push, shift_left}
use simple_socks.Heap.Order.{parent, Sifted}
use simple_socks.Heap.Up.{IsRising, sift_up-Sifted}
use simple_socks.Heap.Queue.{items, IsValid, IsHeap}

module _ {ℓ} {A : Type ℓ} (rank : A → ℕ) (d : A) where
  module _ (malloc : ℕ → List A) (allocates : (n : ℕ) → length (malloc n) ≡ n) where
    -- `room` is `h` with a slot to spare.
    record HasRoom (h room : Heap A) : Type ℓ where
      storage : length room.values ≡ room.capacity
      spare : h.size < room.capacity
      size_eq : room.size ≡ h.size
      same : take h.size room.values ≡ take h.size h.values
      comparator_eq : room.comparator ≡ h.comparator

    grow-HasRoom :
        (h : Heap A)
        → IsValid rank d h
        → h.capacity < 2 ^ 61
        → h.size ≡ h.capacity
        → Succeeds (HasRoom h) (grow malloc h)
    unfolding grow
    grow-HasRoom h v small full =
        let c = h.capacity in
        let twice : shift_left c ≡ c * 2 = omega arith in
        let storage = v.storage in
        let positive = v.positive in
        let fresh = allocates (c * 2) in
        let size = length-blit (malloc (c * 2)) 0 h.values in
        rw
          (
            twice,
            copy_from-some h.values 0 c (omega arith),
            take_all c h.values (omega arith),
            copy_to-some (malloc (c * 2)) 0 h.values (omega arith),
          )
          (
            _,
            refl,
            record {
              storage = size ∙ fresh;
              spare = omega arith;
              size_eq = refl;
              same =
                  list_ext d _ _
                    (omega (
                      arith,
                      length-take h.size (blit (malloc (c * 2)) 0 h.values),
                      length-take h.size h.values,
                      size,
                      fresh,
                    ))
                    λ i p.
                      let below : i < h.size =
                        omega (arith, length-take h.size (blit (malloc (c * 2)) 0 h.values)) in
                      get_or-take h.size _ i d below
                      ∙ ground (arith, get_or-blit (malloc (c * 2)) 0 h.values i d)
                      ∙ sym (get_or-take h.size h.values i d below);
              comparator_eq = refl;
            },
          )

    room-HasRoom :
        (h : Heap A)
        → IsValid rank d h
        → h.capacity < 2 ^ 61
        → Succeeds (HasRoom h) (if h.size == h.capacity then grow malloc h else some h)
    room-HasRoom h v small =
        Succeeds-if (h.size == h.capacity) (λ full. grow-HasRoom h v small (ground arith))
          λ free. (
            h,
            refl,
            record {
              storage = v.storage;
              spare = let within = v.within in ground arith;
              size_eq = refl;
              same = refl;
              comparator_eq = refl;
            },
          )

  take-set_end :
      (n : ℕ) (a : List A) (x : A) → n < length a → take (suc n) (set a n x) ≡ take n a ++ x ∷ []
  take-set_end n [] x h = absurd (omega arith)
  take-set_end zero (y ∷ a) x h = refl
  take-set_end (suc n) (y ∷ a) x h = ap (◌∷◌ y) (take-set_end n a x (omega arith))

  pub record Pushed (h : Heap A) (value : A) (result : Bool × Heap A) : Type ℓ where
    pub done : result.0 ≡ true
    pub valid : IsValid rank d result.1
    pub heap : IsHeap rank d result.1
    pub same : Perm (items result.1) (value ∷ items h)

  module _ (malloc : ℕ → List A) (allocates : (n : ℕ) → length (malloc n) ≡ n) where
    module _ (h room : Heap A) (v : IsValid rank d h) (o : IsHeap rank d h)
        (g : HasRoom malloc allocates h room) (value : A) where
      old_value :
          (i : ℕ) → i < h.size → get_or (set room.values h.size value) i d ≡ get_or h.values i d
      old_value i p =
          let spare = g.spare in
          let storage = g.storage in
          ground (arith, get_or-set room.values h.size i value d (omega arith))
          ∙ sym (get_or-take h.size room.values i d p)
          ∙ ap (λ a. get_or a i d) g.same
          ∙ get_or-take h.size h.values i d p

      placed-perm : Perm (take (suc h.size) (set room.values h.size value)) (value ∷ items h)
      placed-perm =
          let spare = g.spare in
          let storage = g.storage in
          rw (take-set_end h.size room.values value (omega arith), g.same)
            (perm_append_singleton value (take h.size h.values))

      -- The new value at the end may outrank its parent; all else is in order.
      placed-IsRising :
          h.capacity < 2 ^ 61
          → (small : suc h.size < 2 ^ 62)
          → IsRising h.comparator rank v.ranks d
              (suc h.size)
              small
              (set room.values h.size value)
              h.size
      placed-IsRising bound small =
          let spare = g.spare in
          let storage = g.storage in
          record {
            inside = omega arith;
            fits = omega (arith, length-set room.values h.size value);
            edges = λ c p q r.
                rw (old_value c (omega arith), old_value (parent c) (omega arith))
                  (o c p (omega arith) (omega arith));
            across = λ c p q r t. absurd (omega arith);
          }

      pushed :
          (b : List A)
          → Sifted rank d 0 (suc h.size) (set room.values h.size value) b
          → Pushed h value
              (true, record h { values = b; size = suc h.size; capacity = room.capacity })
      pushed b s =
          let spare = g.spare in
          record {
            done = refl;
            valid = record {
              storage = s.size ∙ length-set room.values h.size value ∙ g.storage;
              positive = omega arith;
              within = spare;
              ranks = v.ranks;
            };
            heap = s.ordered;
            same = Perm.trans s.same placed-perm;
          }

    -- ss_heap_push on a valid heap of a capacity below 2^61 succeeds, and leaves a valid heap of the
    -- old values and the new one.
    pub push-Pushed :
        (h : Heap A) (value : A)
        → IsValid rank d h
        → IsHeap rank d h
        → h.capacity < 2 ^ 61
        → Succeeds (Pushed h value) (push malloc h value)
    unfolding push
    push-Pushed h value v o bound =
        Succeeds-bind (room-HasRoom malloc allocates h v bound) λ room g.
          let spare = g.spare in
          let storage = g.storage in
          let within = v.within in
          let size_eq = g.size_eq in
          let n : add_size room.size 1 ≡ suc h.size = omega arith in
          let last : sub_size (suc h.size) 1 ≡ h.size = omega arith in
          rw
            (
              store-some room.values room.size value (omega arith),
              n,
              last,
              g.comparator_eq,
              size_eq,
            )
            (Succeeds-if (suc h.size == 1)
              (λ only. (
                _,
                refl,
                pushed h room v o g value (set room.values h.size value) (record {
                  ordered = λ c p q r. absurd (ground arith);
                  same = Perm.refl _;
                  size = refl;
                }),
              ))
              λ more.
                let small : suc h.size < 2 ^ 62 = omega arith in
                Succeeds-bind
                  (sift_up-Sifted h.comparator rank v.ranks d (suc h.size) small (suc h.size)
                    (set room.values h.size value) h.size (omega arith)
                    (placed-IsRising h room v o g value bound small))
                  λ b s. (_, refl, pushed h room v o g value b s))
