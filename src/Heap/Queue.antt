-- ===== src/Heap/Queue.antt =====
-- The heap as a priority queue: its invariant, ss_heap_peak and ss_heap_reconstruct.
use simple_socks.Common.{
  ℕ, ◌^◌, ◌≤◌, ◌<◌, ◌≡◌, refl, ◌∙◌, true, false, none, some, List, arith, leb, length, get_or, take,
  ne→==, load-some, Succeeds, Succeeds-if, Succeeds-bind,
}
use mathlib.Core.List.{Perm}
use mathlib.Core.List.Perm
use simple_socks.Heap.{Heap, peak, reconstruct, shift_right}
use simple_socks.Heap.Order.{Ranks, key, IsOrderedFrom, root_greatest}
use simple_socks.Heap.Down.{sift_all-Sifted}

-- The values in use.
abbrev pub items {ℓ} : {A : Type ℓ} → Heap A → List A
items h = take h.size h.values

module _ {ℓ} {A : Type ℓ} (rank : A → ℕ) (d : A) where
  pub record IsValid (h : Heap A) : Type ℓ where
    pub storage : length h.values ≡ h.capacity
    pub positive : 0 < h.capacity
    pub within : h.size ≤ h.capacity
    pub ranks : Ranks h.comparator rank

  abbrev pub IsHeap : Heap A → Type 0
  IsHeap h = IsOrderedFrom rank d 0 h.size h.values

  pub peak-empty : (h : Heap A) → h.size ≡ 0 → peak h ≡ some (false, none)
  unfolding peak
  peak-empty h e = rw e

  -- ss_heap_peak on a valid heap that is not empty shows the value at the root, which no value
  -- outranks.
  pub peak-greatest :
      (h : Heap A)
      → IsValid h
      → IsHeap h
      → 0 < h.size
      → (top : A) × (peak h ≡ some (true, some top))
        × ((i : ℕ) → i < h.size → key rank d h.values i ≤ rank top)
        × (get_or h.values 0 d ≡ top)
  unfolding peak
  peak-greatest h v o p =
      let within = v.within in
      let storage = v.storage in
      (
        get_or h.values 0 d,
        rw (ne→== h.size 0 (omega arith), load-some d h.values 0 (omega arith)),
        (λ i q. root_greatest rank d h.size h.values i o q),
        refl,
      )

  -- ss_heap_reconstruct, for a capacity below 2^62, makes a heap of the values in use, in whatever
  -- order they stand.
  pub reconstruct_lem :
      (h : Heap A)
      → IsValid h
      → h.capacity < 2 ^ 62
      → Succeeds (λ h'. IsValid h' × IsHeap h' × Perm (items h') (items h)) (reconstruct h)
  unfolding reconstruct
  reconstruct_lem h v bound =
      let within = v.within in
      let storage = v.storage in
      Succeeds-if (leb h.size 1)
        (λ few. (h, refl, (v, (λ c p q r. absurd (ground arith)), Perm.refl _)))
        λ many.
          Succeeds-bind
            (sift_all-Sifted h.comparator rank v.ranks d h.size (omega arith) (shift_right h.size)
              h.values (omega arith) (omega arith) (λ c p q r. absurd (omega arith)))
            λ b s. (
              _,
              refl,
              (
                record {
                  storage = s.size ∙ storage;
                  positive = v.positive;
                  within = within;
                  ranks = v.ranks;
                },
                s.ordered,
                s.same,
              ),
            )
