-- ===== src/Callback/Cleaning.antt =====
-- ss_callback_clean: which callbacks it runs, and which it leaves in the queue.
use simple_socks.Common.{
  ℕ, suc, ◌+◌, ◌^◌, ◌≤◌, ◌<◌, ◌≡◌, refl, sym, ap, inl, inr, Bool, true, false, not, ◌&&◌, some,
  List, [], ◌∷◌, ◌++◌, append-nil, append_assoc, arith, ltb, leb, if◌then◌else◌, length,
  length-append, load, store, set, add_size, Bool-cases,
}
use simple_socks.Callback.{
  Callback, cleaned, is_init, is_cleaned, expiry, handled, clean_marks, clean_moves,
}

-- An array that is read and written behind its front.
module _ {ℓ} {A : Type ℓ} where
  load-behind :
      (front : List A) (x : A) (rest : List A) → load (front ++ x ∷ rest) (length front) ≡ some x
  load-behind [] x rest = refl
  load-behind (y ∷ front) x rest = load-behind front x rest

  set-behind :
      (front : List A) (x y : A) (rest : List A)
      → set (front ++ x ∷ rest) (length front) y ≡ front ++ y ∷ rest
  set-behind [] x y rest = refl
  set-behind (z ∷ front) x y rest = ap (◌∷◌ z) (set-behind front x y rest)

  store-behind :
      (front : List A) (x y : A) (rest : List A)
      → store (front ++ x ∷ rest) (length front) y ≡ some (front ++ y ∷ rest)
  unfolding store
  store-behind front x y rest =
      let inside : ltb (length front) (length (front ++ x ∷ rest)) ≡ true =
        ground (arith, length-append front (x ∷ rest)) in
      rw (inside, set-behind front x y rest)

-- A callback that ss_callback_clean leaves as it is, at a time.
abbrev pub waits : ℕ → Callback → Bool
waits now c = is_init c.status && not (leb (expiry c) now)

-- The callbacks that wait, in their order.
abbrev pub waiting : ℕ → List Callback → List Callback
waiting now [] = []
waiting now (c ∷ cs) = if waits now c then c ∷ waiting now cs else waiting now cs

-- The callbacks with the others marked as cleaned.
abbrev pub mark : ℕ → Callback → Callback
mark now c = if waits now c then c else record c { status = cleaned }

abbrev pub marked_all : ℕ → List Callback → List Callback
marked_all now [] = []
marked_all now (c ∷ cs) = mark now c ∷ marked_all now cs

abbrev pub gone : ℕ → List Callback → ℕ
gone now [] = 0
gone now (c ∷ cs) = if waits now c then gone now cs else suc (gone now cs)

snoc {ℓ} :
    {A : Type ℓ} (front : List A) (x : A) (rest : List A)
    → front ++ (x ∷ rest) ≡ (front ++ x ∷ []) ++ rest
snoc [] x rest = refl
snoc (y ∷ front) x rest = ap (◌∷◌ y) (snoc front x rest)

module _ {W : Type 0} (handler : Callback → W → W) (now : ℕ) where
  -- The world when the handlers of the callbacks that expired while they waited have run, in order.
  abbrev pub ran : List Callback → W → W
  ran [] w = w
  ran (c ∷ cs) w =
      ran cs (if is_init c.status && leb (expiry c) now then handled handler c w else w)

  pub clean_marks-marked :
      (front todo rest : List Callback) (i j : ℕ) (w : W)
      → i ≡ length front
      → j + length todo < 2 ^ 64
      → clean_marks handler (length todo) now i (front ++ (todo ++ rest)) j w
        ≡ some (j + gone now todo, front ++ (marked_all now todo ++ rest), ran todo w)
  unfolding clean_marks
  clean_marks-marked front [] rest i j w e small = let same : j + 0 ≡ j = omega arith in rw same
  clean_marks-marked front (c ∷ todo) rest i j w e small =
      let again : (x : Callback) (j' : ℕ) (w' : W)
          → j' ≤ j + 1
          → clean_marks handler (length todo) now (suc i) (front ++ (x ∷ (todo ++ rest))) j' w'
            ≡ some (j' + gone now todo, front ++ (x ∷ (marked_all now todo ++ rest)), ran todo w') =
        λ x j' w' le.
          rw (snoc front x (todo ++ rest), snoc front x (marked_all now todo ++ rest))
            (clean_marks-marked (front ++ x ∷ []) todo rest (suc i) j' w'
              (omega (arith, e, length-append front (x ∷ []))) (omega arith)) in
      let counted : add_size j 1 ≡ j + 1 = omega arith in
      let sums : (j + 1) + gone now todo ≡ j + suc (gone now todo) = omega arith in
      let gone_c = record c { status = cleaned } in
      let index = sym e in
      let loads = load-behind front c (todo ++ rest) in
      let stores = store-behind front c gone_c (todo ++ rest) in
      elim (Bool-cases (is_init c.status)) [
        | inr out ↦
            rw (e, loads, stores, sym e, out, counted, again gone_c (j + 1) w (omega arith), sums)
        | inl is ↦ elim (Bool-cases (leb (expiry c) now)) [
          | inl late ↦ rw (
            e,
            loads,
            stores,
            sym e,
            is,
            late,
            counted,
            again gone_c (j + 1) (handled handler c w) (omega arith),
            sums,
          )
          | inr early ↦ rw (e, loads, stores, sym e, is, early, again c j w (omega arith))
        ]
      ]

-- The callbacks that are not marked as cleaned.
abbrev pub kept : List Callback → List Callback
kept [] = []
kept (c ∷ cs) = if is_cleaned c.status then kept cs else c ∷ kept cs

pub kept-marked : (now : ℕ) (cs : List Callback) → kept (marked_all now cs) ≡ waiting now cs
kept-marked now [] = refl
kept-marked now (c ∷ cs) = elim (Bool-cases (waits now c)) [
  | inr out ↦ rw (out, kept-marked now cs)
  | inl stays ↦ rw (stays, waits_uncleaned now c stays, kept-marked now cs)
]
  where
    waits_uncleaned : (now : ℕ) (c : Callback) → waits now c ≡ true → is_cleaned c.status ≡ false
    waits_uncleaned now c h = ground arith

-- A value that is copied to the front of those before it.
store-moved {ℓ} :
    {A : Type ℓ} (front between : List A) (x : A) (rest : List A)
    → (after : List A) × (store (front ++ (between ++ (x ∷ rest))) (length front) x
        ≡ some (front ++ (x ∷ (after ++ rest))))
      × (length after ≡ length between)
store-moved front [] x rest = ([], store-behind front x x rest, refl)
store-moved front (y ∷ ys) x rest = (
  ys ++ x ∷ [],
  rw (sym (snoc ys x rest)) (store-behind front y x (ys ++ (x ∷ rest))),
  omega (arith, length-append ys (x ∷ [])),
)

module _ {W : Type 0} (handler : Callback → W → W) where
  -- The second loop of ss_callback_clean, where `front` has been moved and `between` is left over.
  pub clean_moves-kept :
      (front between todo rest : List Callback) (i j : ℕ)
      → i ≡ length front + length between
      → j ≡ length front
      → (left_over : List Callback) × (clean_moves handler
            (length todo)
            i
            j
            (front ++ (between ++ (todo ++ rest)))
          ≡ some (j + length (kept todo), (front ++ kept todo) ++ (left_over ++ rest)))
        × (length (kept todo) + length left_over ≡ length between + length todo)
  unfolding clean_moves
  clean_moves-kept front between [] rest i j e e' =
      let same : j + 0 ≡ j = omega arith in (between, rw (same, append-nil front), omega arith)
  clean_moves-kept front between (c ∷ todo) rest i j e e' =
      let loads : load (front ++ (between ++ (c ∷ (todo ++ rest)))) i ≡ some c =
        rw
          (
            e,
            sym (length-append front between),
            sym (append_assoc front between (c ∷ (todo ++ rest))),
          )
          (load-behind (front ++ between) c (todo ++ rest)) in
      let keeps : (x : List Callback) × (store (front ++ (between ++ (c ∷ (todo ++ rest)))) j c
            ≡ some (front ++ (c ∷ (x ++ (todo ++ rest)))))
          × (length x ≡ length between) =
        rw e' (store-moved front between c (todo ++ rest)) in
      elim (Bool-cases (is_cleaned c.status)) [
        | inl drops ↦
            let (left, runs, size) =
              clean_moves-kept front (between ++ c ∷ []) todo rest (suc i) j
                (omega (arith, length-append between (c ∷ []))) e' in
            (
              left,
              rw (loads, keeps.1, drops, snoc between c (todo ++ rest)) runs,
              rw drops (omega (arith, size, length-append between (c ∷ []))),
            )
        | inr stays ↦
            let (x, stores, same) = keeps in
            let (left, runs, size) =
              clean_moves-kept (front ++ c ∷ []) x todo rest (suc i) (suc j)
                (omega (arith, length-append front (c ∷ [])))
                (omega (arith, length-append front (c ∷ []))) in
            let sums : j + suc (length (kept todo)) ≡ suc j + length (kept todo) = omega arith in
            (
              left,
              rw
                  (
                    loads,
                    stores,
                    stays,
                    sums,
                    snoc front c (x ++ (todo ++ rest)),
                    snoc front c (kept todo),
                  )
                  runs,
              rw stays (omega (arith, size)),
            )
      ]
