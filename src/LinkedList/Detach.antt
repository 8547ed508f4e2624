-- ===== src/LinkedList/Detach.antt =====
-- linkde_node_detach: the neighbours of the node are linked to each other.
use simple_socks.Common.{
  ℕ, ◌≡◌, refl, ◌≢◌, true, false, ◌||◌, Option, some, [], ◌∷◌, ◌++◌, arith, ◌==◌, sym, ◌∙◌,
  Succeeds, Succeeds-if,
}
use simple_socks.LinkedList.{Node, node, Store, with_node, link_next, link_prev, node_detach}
use simple_socks.LinkedList.Chain.{
  Items, has, first, final, Distinct, Links, IsChain, has-append, Links-split, Links-join,
  Links-frame, Distinct-split, Distinct-apart, Distinct-nonzero, apart_left, final-other, has_ne,
}
use simple_socks.LinkedList.Insert.{
  deref-some, set_prev-some, set_next-some, with_node-same, with_node-other,
}

-- The store with one node replaced, if the pointer to it is not null.
pub record Linked (h : Store) (p : ℕ) (c : Option Node) (g : Store) : Type 0 where
  pub at_node : p ≢ 0 → g p ≡ c
  pub others : (a : ℕ) → a ≢ 0 → a ≢ p → g a ≡ h a

module _ (h : Store) (p q d a b : ℕ) (at : p ≢ 0 → h p ≡ some (node d a b)) where
  link_next-Linked : Succeeds (Linked h p (some (node d a q))) (link_next h p q)
  unfolding link_next
  link_next-Linked =
      Succeeds-if (p == 0)
        (λ e. (h, refl, record { at_node = λ p0. ground arith; others = λ x x0 xp. refl }))
        (λ e.
          let p0 : p ≢ 0 = ground arith in
          (
            with_node h p (some (node d a q)),
            set_next-some h p d a b p0 (at p0) q,
            record {
              at_node = λ _. with_node-same h p _;
              others = λ x x0 xp. with_node-other h p x _ xp;
            },
          ))

  link_prev-Linked : Succeeds (Linked h p (some (node d q b))) (link_prev h p q)
  unfolding link_prev
  link_prev-Linked =
      Succeeds-if (p == 0)
        (λ e. (h, refl, record { at_node = λ p0. ground arith; others = λ x x0 xp. refl }))
        (λ e.
          let p0 : p ≢ 0 = ground arith in
          (
            with_node h p (some (node d q b)),
            set_prev-some h p d a b p0 (at p0) q,
            record {
              at_node = λ _. with_node-same h p _;
              others = λ x x0 xp. with_node-other h p x _ xp;
            },
          ))

-- The node stands alone, its neighbours are linked to each other, and no other node is changed.
pub record Detached (h : Store) (q v p n dp pp dn nn : ℕ) (g : Store) : Type 0 where
  pub at_node : g q ≡ some (node v 0 0)
  pub at_prev : p ≢ 0 → g p ≡ some (node dp pp n)
  pub at_next : n ≢ 0 → g n ≡ some (node dn p nn)
  pub others : (a : ℕ) → a ≢ 0 → a ≢ q → a ≢ p → a ≢ n → g a ≡ h a

module _ (h : Store) (q v p n dp pp dn nn : ℕ) (q0 : q ≢ 0) (at_q : h q ≡ some (node v p n))
    (at_p : p ≢ 0 → h p ≡ some (node dp pp q)) (at_n : n ≢ 0 → h n ≡ some (node dn q nn))
    (pq : p ≢ q) (nq : n ≢ q) (np : n ≢ 0 → n ≢ p) where
  node_detach-Detached : Succeeds (Detached h q v p n dp pp dn nn) (node_detach h q)
  unfolding node_detach
  node_detach-Detached =
      let (g1, runs1, l1) = link_next-Linked h p n dp pp q at_p in
      let at1 : n ≢ 0 → g1 n ≡ some (node dn q nn) = λ n0. l1.others n n0 (np n0) ∙ at_n n0 in
      let (g2, runs2, l2) = link_prev-Linked g1 n p dn q nn at1 in
      let at2 : g2 q ≡ some (node v p n) =
        l2.others q q0 (λ e. nq (sym e)) ∙ l1.others q q0 (λ e. pq (sym e)) ∙ at_q in
      let g3 : Store = with_node g2 q (some (node v 0 n)) in
      let runs3 = set_prev-some g2 q v p n q0 at2 0 in
      let runs4 = set_next-some g3 q v 0 n q0 (with_node-same g2 q _) 0 in
      let same : (a : ℕ) → a ≢ q → with_node g3 q (some (node v 0 0)) a ≡ g2 a =
        λ a aq. with_node-other g3 q a _ aq ∙ with_node-other g2 q a _ aq in
      (
        with_node g3 q (some (node v 0 0)),
        rw (deref-some h q v p n q0 at_q, runs1, runs2, runs3, runs4),
        record {
          at_node = with_node-same g3 q _;
          at_prev = λ p0.
              same p pq ∙ l2.others p p0 (λ e. np (λ n0. p0 (e ∙ n0)) (sym e)) ∙ l1.at_node p0;
          at_next = λ n0. same n nq ∙ l2.at_node n0;
          others = λ a a0 aq ap an. same a aq ∙ l2.others a a0 an ∙ l1.others a a0 ap;
        },
      )

-- The nodes at the ends of a part of a chain.
last-node :
    (h : Store) (p : ℕ) (xs : Items) (n : ℕ)
    → Links h p xs n
    → (d : ℕ) × (b : ℕ) × (xs ≢ [] → h (final p xs) ≡ some (node d b n))
last-node h p [] n links = (0, 0, λ ne. ground arith)
last-node h p ((a, d) ∷ []) n (here, _) = (d, p, λ _. here)
last-node h p ((a, d) ∷ (b, e) ∷ xs) n (here, links) =
    let (d', b', at) = last-node h a ((b, e) ∷ xs) n links in
    (d', b', λ ne. at λ same. ground arith)

first-node :
    (h : Store) (p : ℕ) (xs : Items)
    → Links h p xs 0
    → (d : ℕ) × (b : ℕ) × (first xs 0 ≢ 0 → h (first xs 0) ≡ some (node d p b))
first-node h p [] links = (0, 0, λ ne. ground arith)
first-node h p ((a, d) ∷ xs) (here, _) = (d, first xs 0, λ _. here)

has-final : (p d : ℕ) (xs : Items) → has (final p xs) ((p, d) ∷ xs) ≡ true
has-final p d [] = ground arith
has-final p d ((a, e) ∷ xs) = let rest = has-final a e xs in ground arith

-- The links of a part of a chain, when the node behind it or in front of it is another.
relink_end :
    (h g : Store) (xs : Items) (p n n' : ℕ)
    → Links h p xs n
    → Distinct xs
    → ((a : ℕ) → has a xs ≡ true → a ≢ final p xs → g a ≡ h a)
    → ((d b : ℕ)
        → xs ≢ []
        → h (final p xs) ≡ some (node d b n)
        → g (final p xs) ≡ some (node d b n'))
    → Links g p xs n'
relink_end h g [] p n n' links distinct same at = tt
relink_end h g ((a, d) ∷ []) p n n' (here, _) distinct same at =
    (at d p (λ e. ground arith) here, tt)
relink_end h g ((a, d) ∷ (b, e) ∷ xs) p n n' (here, links) (a0, out, distinct) same at =
    let last_in = has-final b e xs in
    let ne : a ≢ final b xs = λ e'. ground arith in
    (
      same a (ground arith) ne ∙ here,
      relink_end h g ((b, e) ∷ xs) a n n' links distinct (λ c i ne'. same c (ground arith) ne')
          (λ d' b' ne' at'. at d' b' (λ e'. ground arith) at'),
    )

relink_start :
    (h g : Store) (p p' : ℕ) (xs : Items)
    → Links h p xs 0
    → Distinct xs
    → ((a : ℕ) → has a xs ≡ true → a ≢ first xs 0 → g a ≡ h a)
    → ((d b : ℕ)
        → xs ≢ []
        → h (first xs 0) ≡ some (node d p b)
        → g (first xs 0) ≡ some (node d p' b))
    → Links g p' xs 0
relink_start h g p p' [] links distinct same at = tt
relink_start h g p p' ((a, d) ∷ xs) (here, links) (a0, out, distinct) same at = (
  at d (first xs 0) (λ e. ground arith) here,
  Links-frame h g a xs 0 links λ b i. same b (ground arith) (has_ne b a xs i out),
)

Distinct-remove : (q v : ℕ) (xs ys : Items) → Distinct (xs ++ ((q, v) ∷ ys)) → Distinct (xs ++ ys)
Distinct-remove q v [] ys (q0, out, distinct) = distinct
Distinct-remove q v ((a, d) ∷ xs) ys (a0, apart, distinct) =
    let e = has-append a xs ys in
    let e' = has-append a xs ((q, v) ∷ ys) in (a0, ground arith, Distinct-remove q v xs ys distinct)

-- The chain without `q`, which stands alone, and no node outside of the chain changed.
pub record Shorter (h : Store) (q v : ℕ) (old new : Items) (g : Store) : Type 0 where
  pub chain : IsChain g new
  pub lone : g q ≡ some (node v 0 0)
  pub nonzero : q ≢ 0
  pub out : has q new ≡ false
  pub spared : (a : ℕ) → has a old ≡ false → a ≢ 0 → g a ≡ h a

-- The last node is in the part, unless the part is empty.
final_in : (xs : Items) → xs ≢ [] → has (final 0 xs) xs ≡ true
final_in [] ne = ground arith
final_in ((a, d) ∷ xs) ne = has-final a d xs

first_in : (xs : Items) → xs ≢ [] → has (first xs 0) xs ≡ true
first_in [] ne = ground arith
first_in ((a, d) ∷ xs) ne = ground arith

first-other : (a : ℕ) (xs : Items) → has a xs ≡ false → a ≢ 0 → a ≢ first xs 0
first-other a [] out ne = ne
first-other a ((b, d) ∷ xs) out ne = ground arith

filled' : (xs : Items) → first xs 0 ≢ 0 → xs ≢ []
filled' xs ne e = ne (rw e refl)

filled : (xs : Items) → final 0 xs ≢ 0 → xs ≢ []
filled xs ne e = ne (rw e refl)

out_tail : (a q v : ℕ) (ys : Items) → has a ((q, v) ∷ ys) ≡ false → has a ys ≡ false
out_tail a q v ys out = ground arith

out_parts :
    (a q v : ℕ) (xs ys : Items)
    → has a (xs ++ ((q, v) ∷ ys)) ≡ false
    → (has a xs ≡ false) × (a ≢ q) × (has a ys ≡ false)
out_parts a q v xs ys out =
    let e = has-append a xs ((q, v) ∷ ys) in
    let e' : (has a xs || ((a == q) || has a ys)) ≡ false = sym e ∙ out in
    (ground arith, ground arith, ground arith)

module _ (h : Store) (q v : ℕ) (xs ys : Items) (chain : IsChain h (xs ++ ((q, v) ∷ ys))) where
  pub node_detach-Shorter :
      Succeeds (Shorter h q v (xs ++ ((q, v) ∷ ys)) (xs ++ ys)) (node_detach h q)
  node_detach-Shorter =
      let behind : Items = (q, v) ∷ ys in
      let (left, (at_q, right)) = Links-split h 0 xs behind 0 chain.links in
      let (distinct, (q0, q_out, distinct')) = Distinct-split xs behind chain.distinct in
      let (dp, pp, at_p) = last-node h 0 xs q left in
      let (dn, nn, at_n) = first-node h q ys right in
      let p = final 0 xs in
      let n = first ys 0 in
      let q_left : has q xs ≡ false = apart_left q xs behind chain.distinct (ground arith) in
      let pq : p ≢ q = λ e. final-other q 0 xs q_left q0 (sym e) in
      let nq : n ≢ q = λ e. first-other q ys q_out q0 (sym e) in
      let n_left : n ≢ 0 → has n xs ≡ false = λ n0.
        let i = first_in ys (filled' ys n0) in
        apart_left n xs behind chain.distinct (ground arith) in
      let np : n ≢ 0 → n ≢ p = λ n0. final-other n 0 xs (n_left n0) n0 in
      let (g, runs, detached) =
        node_detach-Detached h q v p n dp pp dn nn q0 at_q (λ p0. at_p (filled xs p0)) at_n pq nq
          np in
      let past_n : (a : ℕ) → has a ys ≡ false → a ≢ 0 → a ≢ n = λ a. first-other a ys in
      let past_p : (a : ℕ) → has a xs ≡ false → a ≢ 0 → a ≢ p = λ a. final-other a 0 xs in
      let left' : Links g 0 xs n =
        relink_end h g xs 0 q n left distinct
          (λ a i ap.
            let a0 = Distinct-nonzero a xs distinct i in
            let out = Distinct-apart a xs behind chain.distinct i in
            detached.others a a0 (has_ne a q xs i q_left) ap (past_n a (out_tail a q v ys out) a0))
          (λ d b ne at.
            let p0 = Distinct-nonzero p xs distinct (final_in xs ne) in
            let at' = at_p ne in let to = detached.at_prev p0 in ground arith) in
      let right' : Links g p ys 0 =
        relink_start h g q p ys right distinct'
          (λ a i an.
            let a0 = Distinct-nonzero a ys distinct' i in
            let out = apart_left a xs behind chain.distinct (ground arith) in
            detached.others a a0 (has_ne a q ys i q_out) (past_p a out a0) an)
          (λ d b ne at.
            let n0 = Distinct-nonzero n ys distinct' (first_in ys ne) in
            let at' = at_n n0 in let to = detached.at_next n0 in ground arith) in
      (
        g,
        runs,
        record {
          chain = record {
            links = Links-join g 0 xs ys 0 left' right';
            distinct = Distinct-remove q v xs ys chain.distinct;
          };
          lone = detached.at_node;
          nonzero = q0;
          out = has-append q xs ys ∙ rw (q_left, q_out) refl;
          spared = λ a out a0.
              let (in_front, aq, in_back) = out_parts a q v xs ys out in
              detached.others a a0 aq (past_p a in_front a0) (past_n a in_back a0);
        },
      )
