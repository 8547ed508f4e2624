-- ===== src/Callback/Cleaned.antt =====
-- ss_callback_clean: the queue that it leaves.
use simple_socks.Common.{
  ℕ, zero, suc, ◌+◌, ◌/◌, ◌^◌, ◌≤◌, ◌<◌, ◌≡◌, refl, sym, ap, ◌∙◌, ◌⊎◌, inl, inr, true, some, List,
  [], ◌∷◌, ◌++◌, arith, ltb, length, length-append, length-take, take, drop, take-append-drop,
  Succeeds, Succeeds-if, Succeeds-bind, Bool-cases, ltb→lt, ltb→ge,
}
use mathlib.Core.List.{Perm}
use simple_socks.Heap.{Heap}
use simple_socks.Heap.Order.{key, parent}
use simple_socks.Heap.Queue.{IsValid, IsHeap, items, reconstruct_lem}
use simple_socks.Callback.{Callback, clean_marks, clean_moves, clean}
use simple_socks.Callback.Polling.{rank}
use simple_socks.Callback.Cleaning.{
  waits, waiting, mark, marked_all, gone, ran, kept-marked, clean_marks-marked, clean_moves-kept,
}

take-append {ℓ} : {A : Type ℓ} (n : ℕ) (xs ys : List A) → n ≡ length xs → take n (xs ++ ys) ≡ xs
take-append zero [] ys e = refl
take-append zero (x ∷ xs) ys e = absurd (omega arith)
take-append (suc n) [] ys e = absurd (omega arith)
take-append (suc n) (x ∷ xs) ys e = ap (◌∷◌ x) (take-append n xs ys (omega arith))

length-marked : (now : ℕ) (cs : List Callback) → length (marked_all now cs) ≡ length cs
length-marked now [] = refl
length-marked now (c ∷ cs) = ap suc (length-marked now cs)

module _ (d : Callback) (now : ℕ) where
  rank-mark : (c : Callback) → rank (mark now c) ≡ rank c
  rank-mark c = elim (Bool-cases (waits now c)) [ inl stays ↦ rw stays | inr goes ↦ rw goes ]

  -- The marks leave the order of the queue as it is.
  key-marked :
      (cs rest : List Callback) (i : ℕ)
      → key rank d (marked_all now cs ++ rest) i ≡ key rank d (cs ++ rest) i
  key-marked [] rest i = refl
  key-marked (c ∷ cs) rest zero = rank-mark c
  key-marked (c ∷ cs) rest (suc i) = key-marked cs rest i

module _ {W : Type 0} (handler : Callback → W → W) (d : Callback) (now : ℕ) where
  -- What ss_callback_clean leaves: where less than a quarter of the callbacks is gone, all of them
  -- with marks, else a heap of those that wait. The handlers of those that expired have run.
  pub record Cleaned (h : Heap Callback) (w : W) (result : Heap Callback × W) : Type 0 where
    pub valid : IsValid rank d result.0
    pub heap : IsHeap rank d result.0
    pub world : result.1 ≡ ran handler now (items h) w
    pub queue :
        ((gone now (items h) < h.size / 4) × (items result.0 ≡ marked_all now (items h)))
        ⊎ ((h.size / 4 ≤ gone now (items h)) × Perm (items result.0) (waiting now (items h)))

  marks :
      (n : ℕ) (values cs rest : List Callback) (w : W)
      → values ≡ cs ++ rest
      → n ≡ length cs
      → n < 2 ^ 62
      → clean_marks handler n now 0 values 0 w
        ≡ some (gone now cs, marked_all now cs ++ rest, ran handler now cs w)
  marks n values cs rest w e size small =
      let sum : 0 + gone now cs ≡ gone now cs = omega arith in
      rw (e, size, sym sum) (clean_marks-marked handler now [] cs rest 0 0 w refl (omega arith))

  moves :
      (n : ℕ) (cs rest : List Callback)
      → n ≡ length cs
      → (left_over : List Callback) × (clean_moves handler n 0 0 (marked_all now cs ++ rest)
          ≡ some (length (waiting now cs), waiting now cs ++ (left_over ++ rest)))
        × (length (waiting now cs) + length left_over ≡ n)
  moves n cs rest e =
      let (left, runs, size) =
        clean_moves-kept handler [] [] (marked_all now cs) rest 0 0 refl refl in
      let e' = length-marked now cs in
      let same = kept-marked now cs in
      let sum : 0 + length (waiting now cs) ≡ length (waiting now cs) = omega arith in
      (left, rw (e, sym e', runs, same, sum), omega (arith, rw same at size))

  left_marked :
      (h : Heap Callback) (w : W)
      → IsValid rank d h
      → IsHeap rank d h
      → ltb (gone now (items h)) (h.size / 4) ≡ true
      → Cleaned h w (
        record h { values = marked_all now (items h) ++ drop h.size h.values },
        ran handler now (items h) w,
      )
  left_marked h w v o few =
      let cs = items h in
      let rest = drop h.size h.values in
      let whole : cs ++ rest ≡ h.values = take-append-drop h.size h.values in
      let within = v.within in
      let storage = v.storage in
      let size : h.size ≡ length cs = omega (arith, length-take h.size h.values) in
      let same : (i : ℕ) → key rank d (marked_all now cs ++ rest) i ≡ key rank d h.values i =
        λ i. key-marked d now cs rest i ∙ ap (λ a. key rank d a i) whole in
      record {
        valid = record {
          storage = omega (
            arith,
            length-append (marked_all now cs) rest,
            length-marked now cs,
            length-append cs rest,
            ap length whole,
          );
          positive = v.positive;
          within = within;
          ranks = v.ranks;
        };
        heap = λ c p q r. rw (same c, same (parent c)) (o c p q r);
        world = refl;
        queue = inl (
          ltb→lt _ _ few,
          take-append h.size (marked_all now cs) rest (omega (arith, length-marked now cs)),
        );
      }

  -- ss_callback_clean on a heap of callbacks of a capacity below 2^62 runs without a fault. The
  -- handlers of the callbacks that expired have run, each once. Where less than a quarter of the
  -- callbacks was done or expired, these stay in the queue with marks; else a heap of the others is left.
  pub clean-Cleaned :
      (h : Heap Callback) (w : W)
      → IsValid rank d h
      → IsHeap rank d h
      → h.capacity < 2 ^ 62
      → Succeeds (Cleaned h w) (clean handler now h w)
  unfolding clean
  clean-Cleaned h w v o small =
      let cs = items h in
      let rest = drop h.size h.values in
      let whole : h.values ≡ cs ++ rest = sym (take-append-drop h.size h.values) in
      let within = v.within in
      let storage = v.storage in
      let size : h.size ≡ length cs = omega (arith, length-take h.size h.values) in
      let (left, moved, room) = moves h.size cs rest size in
      rw (marks h.size h.values cs rest w whole size (omega arith)) (
        Succeeds-if (ltb (gone now cs) (h.size / 4)) (λ few. (_, refl, left_marked h w v o few))
          (λ many. rw moved (
            Succeeds-bind
              (reconstruct_lem rank d
                (record h {
                  values = waiting now cs ++ (left ++ rest);
                  size = length (waiting now cs);
                })
                (record {
                  storage = omega (
                    arith,
                    length-append (waiting now cs) (left ++ rest),
                    length-append left rest,
                    length-append cs rest,
                    ap length whole,
                  );
                  positive = v.positive;
                  within = omega arith;
                  ranks = v.ranks;
                })
                small)
              λ h' (valid, heap, same). (
                _,
                refl,
                record {
                  valid = valid;
                  heap = heap;
                  world = refl;
                  queue = inr (
                    ltb→ge _ _ many,
                    rw (take-append (length (waiting now cs)) (waiting now cs) (left ++ rest) refl)
                        at same,
                  );
                },
              ))))
