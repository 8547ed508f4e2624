-- ===== src/LinkedList/Refines.antt =====
-- The operations of the linked list refine those on a sequence.
use simple_socks.Common.{
  ℕ, ◌<◌, ◌≡◌, refl, ◌≢◌, true, false, Option, none, some, List, [], ◌∷◌, ◌++◌, append_assoc, arith,
  ◌==◌, sym, subst, length, Succeeds, ◌>>=◌, ◌||◌,
}
use simple_socks.LinkedList.{
  node, Store, LinkedList, with_node, node_create, append, prepend, insert, prepend_node,
  pop_node_front, remove, detach, list_length, insert_before,
}
use simple_socks.LinkedList.Chain.{
  Items, has, IsChain, IsList, all_nodes, has-append, Links-frame, has_ne,
}
use simple_socks.LinkedList.Insert.{
  insert_before-Longer, deref-some, with_node-same, with_node-other,
}
use simple_socks.LinkedList.Detach.{Shorter, node_detach-Shorter}
use simple_socks.LinkedList.Walk.{length_from-runs, list_length-length, free-some}
use simple_socks.LinkedList.Deque.{
  Command, to_back, to_front, in_front, pop_front, take_out, delete, count, perform, placed,
  without, act, Fits, Acts, has-Split, create-IsChain,
}

-- A new node in front of the node at `b`.
create_before :
    (h : Store) (at d b e : ℕ) (xs ys : Items)
    → IsChain h (xs ++ ((b, e) ∷ ys))
    → at ≢ 0
    → has at (xs ++ ((b, e) ∷ ys)) ≡ false
    → Succeeds
        (λ g. IsChain g (xs ++ ((at, d) ∷ (b, e) ∷ ys)))
        (insert_before (node_create h at d) at b)
unfolding node_create
create_before h at d b e xs ys chain at0 out =
    let chain' = create-IsChain h at d (xs ++ ((b, e) ∷ ys)) chain out in
    let (g, runs, longer) =
      insert_before-Longer (node_create h at d) at d b e 0 0 xs ys chain' at0 out
        (with_node-same h at _) in
    (g, runs, longer.chain)

split_nodes :
    (l : LinkedList) (xs front back : Items) (b e : ℕ)
    → xs ≡ (front ++ ((b, e) ∷ back))
    → all_nodes l xs ≡ (((l.head, 0) ∷ front) ++ ((b, e) ∷ (back ++ ((l.tail, 0) ∷ []))))
split_nodes l xs front back b e whole = rw (whole, append_assoc) refl

join_nodes :
    (l : LinkedList) (xs front back : Items)
    → xs ≡ (front ++ back)
    → all_nodes l xs ≡ (((l.head, 0) ∷ front) ++ (back ++ ((l.tail, 0) ∷ [])))
join_nodes l xs front back whole = rw (whole, append_assoc) refl

module _ (fuel : ℕ) (l : LinkedList) (h : Store) where
  pub append-IsList :
      (at d : ℕ) (xs : Items)
      → IsList l h xs
      → Fits fuel l xs (to_back at d)
      → Succeeds (λ g. IsList l g (xs ++ ((at, d) ∷ []))) (append h l at d)
  unfolding append
  append-IsList at d xs list (at0, out) =
      let (g, runs, chain) = create_before h at d l.tail 0 ((l.head, 0) ∷ xs) [] list at0 out in
      (g, runs, subst (λ ys. IsChain g ((l.head, 0) ∷ ys)) (sym (append_assoc xs _ _)) chain)

  prepend-IsList :
      (at d : ℕ) (xs : Items)
      → IsList l h xs
      → Fits fuel l xs (to_front at d)
      → Succeeds (λ g. IsList l g ((at, d) ∷ xs)) (prepend h l at d)
  unfolding prepend
  prepend-IsList at d [] list (at0, out) =
      let chain = create-IsChain h at d (all_nodes l []) list out in
      let (here, _) = chain.links in
      let (head0, _, _) = chain.distinct in
      let (g, runs, chain) = create_before h at d l.tail 0 ((l.head, 0) ∷ []) [] list at0 out in
      (g, rw (deref-some _ l.head 0 0 _ head0 here) runs, chain)
  prepend-IsList at d ((b, e) ∷ xs) list (at0, out) =
      let chain = create-IsChain h at d (all_nodes l ((b, e) ∷ xs)) list out in
      let (here, _) = chain.links in
      let (head0, _, _) = chain.distinct in
      let (g, runs, chain) =
        create_before h at d b e ((l.head, 0) ∷ []) (xs ++ ((l.tail, 0) ∷ [])) list at0 out in
      (g, rw (deref-some _ l.head 0 0 _ head0 here) runs, chain)

  insert-IsList :
      (b at d : ℕ) (xs : Items)
      → IsList l h xs
      → Fits fuel l xs (in_front b at d)
      → Succeeds (λ g. IsList l g (placed (at, d) b xs)) (insert h b at d)
  unfolding insert
  insert-IsList b at d xs list (at0, out, i) =
      let s = has-Split b xs i in
      let end : Items = (l.tail, 0) ∷ [] in
      let e : all_nodes l xs ≡ (((l.head, 0) ∷ s.front) ++ ((b, s.data_of) ∷ (s.back ++ end))) =
        split_nodes l xs s.front s.back b s.data_of s.whole in
      let (g, runs, chain) =
        create_before h at d b s.data_of ((l.head, 0) ∷ s.front) (s.back ++ end)
          (subst (IsChain h) e list) at0 (subst (λ ys. has at ys ≡ false) e out) in
      let whole =
        split_nodes l (placed (at, d) b xs) s.front ((b, s.data_of) ∷ s.back) at d
          (s.placed_eq (at, d)) in
      (g, runs, subst (IsChain g) (sym whole) chain)

  detach-Shorter :
      (p : ℕ) (xs : Items)
      → IsList l h xs
      → has p xs ≡ true
      → (v : ℕ) × Succeeds
          (Shorter h p v (all_nodes l xs) (all_nodes l (without p xs)))
          (detach h p)
  unfolding detach
  detach-Shorter p xs list i =
      let s = has-Split p xs i in
      let end : Items = (l.tail, 0) ∷ [] in
      let e = split_nodes l xs s.front s.back p s.data_of s.whole in
      let e' = join_nodes l (without p xs) s.front s.back s.without_eq in
      let (g, runs, shorter) =
        node_detach-Shorter h p s.data_of ((l.head, 0) ∷ s.front) (s.back ++ end)
          (subst (IsChain h) e list) in
      (
        s.data_of,
        (
          g,
          runs,
          subst (λ ys. Shorter h p s.data_of (all_nodes l xs) ys g) (sym e')
              (subst (λ ys. Shorter h p s.data_of ys (((l.head, 0) ∷ s.front) ++ (s.back ++ end)) g)
                (sym e) shorter),
        ),
      )

  pub remove-IsList :
      (p : ℕ) (xs : Items)
      → IsList l h xs
      → has p xs ≡ true
      → Succeeds (λ g. IsList l g (without p xs)) (remove h p)
  unfolding remove detach
  remove-IsList p xs list i =
      let (v, (g, runs, shorter)) = detach-Shorter p xs list i in
      let g' : Store = with_node g p none in
      let freed = free-some g p v 0 0 shorter.nonzero shorter.lone in
      let rest = all_nodes l (without p xs) in
      (
        g',
        rw (runs, freed) refl,
        record {
          links =
              Links-frame g g' 0 rest 0 shorter.chain.links
                λ a i. with_node-other g p a none (has_ne a p rest i shorter.out);
          distinct = shorter.chain.distinct;
        },
      )

  pop_node_front-Acts :
      (xs : Items) → IsList l h xs → Succeeds (Acts l (act xs pop_front)) (pop_node_front h l)
  unfolding pop_node_front act
  pop_node_front-Acts [] list =
      let (here, _) = list.links in
      let (head0, _, (tail0, _, _)) = list.distinct in
      let test : ((l.tail == 0) || (l.tail == l.tail)) ≡ true = ground arith in
      ((h, 0), rw (deref-some h l.head 0 0 _ head0 here, test) refl, (list, refl))
  pop_node_front-Acts ((a, d) ∷ xs) list =
      let (here, _) = list.links in
      let (head0, _, (a0, out, _)) = list.distinct in
      let e = has-append a xs ((l.tail, 0) ∷ []) in
      let test : ((a == 0) || (a == l.tail)) ≡ false = ground arith in
      let (g, runs, shorter) =
        node_detach-Shorter h a d ((l.head, 0) ∷ []) (xs ++ ((l.tail, 0) ∷ [])) list in
      ((g, a), rw (deref-some h l.head 0 0 _ head0 here, test, runs) refl, (shorter.chain, refl))

  answers :
      {code : Option Store}
      → (ys : Items) (r : ℕ) → Succeeds (λ g. IsList l g ys) code
      → Succeeds (Acts l (ys, r)) (code >>= λ g. some (g, r))
  answers ys r (g, runs, list) = ((g, r), rw runs refl, (list, refl))

  -- A call on a list that stands for `xs` runs through without a fault; the list stands for what
  -- the call makes of `xs`, and the answer is the one of the sequence.
  pub perform-Acts :
      (xs : Items) (c : Command)
      → IsList l h xs
      → Fits fuel l xs c
      → Succeeds (Acts l (act xs c)) (perform fuel l h c)
  unfolding perform act
  perform-Acts xs (to_back at d) list fits =
      answers (xs ++ ((at, d) ∷ [])) at (append-IsList at d xs list fits)
  perform-Acts xs (to_front at d) list fits =
      answers ((at, d) ∷ xs) at (prepend-IsList at d xs list fits)
  perform-Acts xs (in_front b at d) list fits =
      answers (placed (at, d) b xs) at (insert-IsList b at d xs list fits)
  perform-Acts xs pop_front list fits = pop_node_front-Acts xs list
  perform-Acts xs (take_out p) list fits =
      let (v, (g, runs, shorter)) = detach-Shorter p xs list fits in
      answers (without p xs) 0 (g, runs, shorter.chain)
  perform-Acts xs (delete p) list fits = answers (without p xs) 0 (remove-IsList p xs list fits)
  perform-Acts xs count list fits =
      ((h, length xs), rw (list_length-length fuel h l xs list fits) refl, (list, refl))

-- The calls one after another, and their answers.
unfoldable pub perform_all : ℕ → LinkedList → Store → List Command → Option (Store × List ℕ)
perform_all fuel l h [] = some (h, [])
perform_all fuel l h (c ∷ cs) = do
  (h', r) ← perform fuel l h c
  (h'', rs) ← perform_all fuel l h' cs
  some (h'', r ∷ rs)

-- The same for a sequence.
abbrev pub act_all : Items → List Command → Items × List ℕ
act_all xs [] = (xs, [])
act_all xs (c ∷ cs) = let (ys, r) = act xs c in let (zs, rs) = act_all ys cs in (zs, r ∷ rs)

abbrev pub AllFit : ℕ → LinkedList → Items → List Command → Type 0
AllFit fuel l xs [] = Unit
AllFit fuel l xs (c ∷ cs) = Fits fuel l xs c × AllFit fuel l ((act xs c).0) cs

pub perform_all-act_all :
    (fuel : ℕ) (l : LinkedList) (h : Store) (xs : Items) (cs : List Command)
    → IsList l h xs
    → AllFit fuel l xs cs
    → Succeeds
        (λ (g, rs). IsList l g (act_all xs cs).0 × (rs ≡ (act_all xs cs).1))
        (perform_all fuel l h cs)
unfolding perform_all
perform_all-act_all fuel l h xs [] list fit = ((h, []), refl, (list, refl))
perform_all-act_all fuel l h xs (c ∷ cs) list (fits, fit) =
    let ((h', r), runs, (list', e)) = perform-Acts fuel l h xs c list fits in
    let ((g, rs), runs', (list'', e')) = perform_all-act_all fuel l h' (act xs c).0 cs list' fit in
    ((g, r ∷ rs), rw (runs, runs') refl, (list'', rw (e, e') refl))

-- ss_linked_list_prepend_node puts the node in front of the first sentinel, where no operation
-- finds it.
pub prepend_node-lost :
    (fuel : ℕ) (h : Store) (l : LinkedList) (p v x y : ℕ) (xs : Items)
    → IsList l h xs
    → h p ≡ some (node v x y)
    → p ≢ 0
    → has p (all_nodes l xs) ≡ false
    → length xs < fuel
    → Succeeds
        (λ g. IsChain g ((p, v) ∷ all_nodes l xs) × (list_length fuel g l ≡ some (length xs)))
        (prepend_node h l p)
unfolding prepend_node list_length
prepend_node-lost fuel h l p v x y xs list at p0 out enough =
    let end : Items = (l.tail, 0) ∷ [] in
    let (g, runs, longer) = insert_before-Longer h p v l.head 0 x y [] (xs ++ end) list p0 out at in
    let (_, (here, links)) = longer.chain.links in
    let (_, _, (head0, _, distinct)) = longer.chain.distinct in
    (
      g,
      runs,
      (
        longer.chain,
        rw (
          deref-some g l.head 0 p _ head0 here,
          length_from-runs fuel g l l.head xs links distinct enough,
        ),
      ),
    )
