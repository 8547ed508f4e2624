-- ===== src/Heap/Tests.antt =====
-- Runs of the heap, and the theorems at concrete heaps of numbers.
use simple_socks.Common.{
  ℕ, zero, suc, ◌≡◌, refl, true, some, List, [], ◌∷◌, arith, ltb, ◌==◌, if◌then◌else◌, ℤ, pos,
  negsuc, replicate, length-replicate, store, copy_from, copy_to, Succeeds,
}
use simple_socks.Heap.{
  Heap, swap, sift_up, sift_down, greater_child, sink, grow, push, pop, sift_all, reconstruct,
  reserve, real_capacity,
}
use simple_socks.Heap.Order.{Ranks}
use simple_socks.Heap.Queue.{IsValid, IsHeap}
use simple_socks.Heap.Push.{Pushed, push-Pushed}
use simple_socks.Heap.Pop.{Popped, pop-Popped}

abbrev malloc : ℕ → List ℕ
malloc n = replicate n 0

abbrev smaller : ℕ → ℕ → ℤ
smaller x y = if ltb x y then negsuc 0 else if x == y then pos 0 else pos 1

abbrev full : Heap ℕ
full = record { values = 7 ∷ 5 ∷ 6 ∷ 1 ∷ []; size = 4; capacity = 4; comparator = smaller }

abbrev unordered : Heap ℕ
unordered = record full { values = 1 ∷ 5 ∷ 6 ∷ 7 ∷ [] }

abbrev identity : ℕ → ℕ
identity n = n

smaller-Ranks : Ranks smaller identity
smaller-Ranks = record { is_neg_eq = λ x y. ground arith; is_nonpos_eq = λ x y. ground arith }

full-IsValid : IsValid identity 0 full
full-IsValid = record {
  storage = refl;
  positive = omega arith;
  within = omega arith;
  ranks = smaller-Ranks;
}

unordered-IsValid : IsValid identity 0 unordered
unordered-IsValid = record {
  storage = refl;
  positive = omega arith;
  within = omega arith;
  ranks = smaller-Ranks;
}

full-IsHeap : IsHeap identity 0 full
full-IsHeap zero p q r = absurd (omega arith)
full-IsHeap (suc zero) p q r = omega arith
full-IsHeap (suc (suc zero)) p q r = omega arith
full-IsHeap (suc (suc (suc zero))) p q r = omega arith
full-IsHeap (suc (suc (suc (suc c)))) p q r = absurd (omega arith)

-- The array is full, and doubles.
push-full :
    push malloc full 6
    ≡ some
        (true, record full { values = 7 ∷ 6 ∷ 6 ∷ 1 ∷ 5 ∷ 0 ∷ 0 ∷ 0 ∷ []; size = 5; capacity = 8 })
unfolding push grow copy_from copy_to store sift_up swap
push-full = refl

pop-full : pop full ≡ some (true, some 7, record full { values = 6 ∷ 5 ∷ 1 ∷ 1 ∷ []; size = 3 })
unfolding pop store sift_down greater_child sink swap
pop-full = refl

reconstruct-unordered :
    reconstruct unordered ≡ some (record unordered { values = 7 ∷ 5 ∷ 6 ∷ 1 ∷ [] })
unfolding reconstruct sift_all sift_down greater_child sink swap store
reconstruct-unordered = refl

reserve-full :
    reserve malloc full 5
    ≡ some (record full { values = 7 ∷ 5 ∷ 6 ∷ 1 ∷ 0 ∷ 0 ∷ 0 ∷ 0 ∷ []; capacity = 8 })
unfolding reserve real_capacity copy_from copy_to
reserve-full = refl

push-Pushed_example : Succeeds (Pushed identity 0 full 6) (push malloc full 6)
push-Pushed_example =
    push-Pushed identity 0 malloc (λ n. length-replicate n 0) full 6 full-IsValid full-IsHeap
      (omega arith)

pop-Popped_example :
    (top : ℕ) × (h' : Heap ℕ) × (pop full ≡ some (true, some top, h'))
    × Popped identity 0 full top h'
pop-Popped_example = pop-Popped identity 0 full full-IsValid full-IsHeap (omega arith) (omega arith)
