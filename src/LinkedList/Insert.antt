-- ===== src/LinkedList/Insert.antt =====
-- linked_node_insert_before: the node comes to stand in front of another one of the chain.
use simple_socks.Common.{
  ℕ, ◌≡◌, refl, ◌≢◌, inl, inr, true, false, ◌||◌, Option, some, [], ◌∷◌, ◌++◌, arith, sym, subst,
  ◌∙◌, Succeeds,
}
use simple_socks.LinkedList.{
  Node, node, Store, with_node, deref, set_prev, set_next, link_next, insert_before,
}
use simple_socks.LinkedList.Chain.{
  Items, has, first, final, Distinct, Links, IsChain, has-append, final-append, Links-split,
  Links-join, Links-frame, Distinct-split, Distinct-apart, Distinct-nonzero, apart_left,
  final-other, has_ne, Snoc-cases,
}

module _ (h : Store) (p d a b : ℕ) (ne : p ≢ 0) (at : h p ≡ some (node d a b)) where
  pub deref-some : deref h p ≡ some (node d a b)
  unfolding deref
  deref-some = ground arith

  pub set_prev-some : (q : ℕ) → set_prev h p q ≡ some (with_node h p (some (node d q b)))
  unfolding set_prev
  set_prev-some q = rw deref-some

  pub set_next-some : (q : ℕ) → set_next h p q ≡ some (with_node h p (some (node d a q)))
  unfolding set_next
  set_next-some q = rw deref-some

pub with_node-same : (h : Store) (p : ℕ) (c : Option Node) → with_node h p c p ≡ c
unfolding with_node
with_node-same h p c = ground arith

pub with_node-other : (h : Store) (p a : ℕ) (c : Option Node) → a ≢ p → with_node h p c a ≡ h a
unfolding with_node
with_node-other h p a c ne = ground arith

-- What insert_before makes of the store: the two nodes and the one in front are linked, and no
-- other is changed.
pub record Inserted (h : Store) (q b v d n p dp pp : ℕ) (g : Store) : Type 0 where
  pub at_node : g q ≡ some (node v p b)
  pub at_before : g b ≡ some (node d q n)
  pub at_prev : p ≢ 0 → g p ≡ some (node dp pp q)
  pub others : (a : ℕ) → a ≢ q → a ≢ b → a ≢ p → g a ≡ h a

module _ (h : Store) (q b v d n p dp pp x y : ℕ) (q0 : q ≢ 0) (b0 : b ≢ 0) (qb : q ≢ b)
    (at_q : h q ≡ some (node v x y)) (at_b : h b ≡ some (node d p n)) where
  pub insert_before-first : p ≡ 0 → Succeeds (Inserted h q b v d n p dp pp) (insert_before h q b)
  unfolding insert_before link_next with_node
  insert_before-first e =
      let g1 : Store = with_node h q (some (node v p y)) in
      let g2 : Store = with_node g1 q (some (node v p b)) in
      let e0 = deref-some h b d p n b0 at_b in
      let el : link_next h p q ≡ some h = ground arith in
      let e1 = set_prev-some h q v x y q0 at_q p in
      let e2 = set_next-some g1 q v p y q0 (with_node-same h q _) b in
      let e3 = set_prev-some g2 b d p n b0 (ground arith) q in
      (
        with_node g2 b (some (node d q n)),
        rw (e0, el, e1, e2, e3),
        record {
          at_node = ground arith;
          at_before = ground arith;
          at_prev = λ p0. ground arith;
          others = λ a aq ab ap. ground arith;
        },
      )

  pub insert_before-behind :
      p ≢ 0
      → p ≢ q
      → p ≢ b
      → h p ≡ some (node dp pp b)
      → Succeeds (Inserted h q b v d n p dp pp) (insert_before h q b)
  unfolding insert_before link_next with_node
  insert_before-behind p0 pq pb at_p =
      let g0 : Store = with_node h p (some (node dp pp q)) in
      let g1 : Store = with_node g0 q (some (node v p y)) in
      let g2 : Store = with_node g1 q (some (node v p b)) in
      let e0 = deref-some h b d p n b0 at_b in
      let es = set_next-some h p dp pp b p0 at_p q in
      let el : link_next h p q ≡ some g0 = ground arith in
      let e1 = set_prev-some g0 q v x y q0 (ground arith) p in
      let e2 = set_next-some g1 q v p y q0 (with_node-same g0 q _) b in
      let e3 = set_prev-some g2 b d p n b0 (ground arith) q in
      (
        with_node g2 b (some (node d q n)),
        rw (e0, el, e1, e2, e3),
        record {
          at_node = ground arith;
          at_before = ground arith;
          at_prev = λ p0. ground arith;
          others = λ a aq ab ap. ground arith;
        },
      )

pub Distinct-insert :
    (q v : ℕ) (xs ys : Items)
    → Distinct (xs ++ ys)
    → q ≢ 0
    → has q (xs ++ ys) ≡ false
    → Distinct (xs ++ ((q, v) ∷ ys))
Distinct-insert q v [] ys distinct q0 out = (q0, out, distinct)
Distinct-insert q v ((a, d) ∷ xs) ys (a0, apart, distinct) q0 out =
    let e = has-append a xs ys in
    let e' = has-append a xs ((q, v) ∷ ys) in
    (a0, ground arith, Distinct-insert q v xs ys distinct q0 (ground arith))

-- The chain with `q` in it, and no node outside of it changed.
pub record Longer (h : Store) (q : ℕ) (old new : Items) (g : Store) : Type 0 where
  pub chain : IsChain g new
  pub spared : (a : ℕ) → a ≢ q → has a old ≡ false → a ≢ 0 → g a ≡ h a

module _ (h : Store) (q v b d x y : ℕ) (xs ys : Items) (chain : IsChain h (xs ++ ((b, d) ∷ ys)))
    (q0 : q ≢ 0) (out : has q (xs ++ ((b, d) ∷ ys)) ≡ false) (at_q : h q ≡ some (node v x y)) where
  insert-Links :
      (g : Store) (p dp pp : ℕ)
      → p ≡ final 0 xs
      → Inserted h q b v d (first ys 0) p dp pp g
      → Links g 0 xs q
      → Longer h q (xs ++ ((b, d) ∷ ys)) (xs ++ ((q, v) ∷ (b, d) ∷ ys)) g
  insert-Links g p dp pp e inserted left =
      let behind : Items = (b, d) ∷ ys in
      let (_, (at_b, right)) = Links-split h 0 xs behind 0 chain.links in
      let (_, (b0, b_out, distinct)) = Distinct-split xs behind chain.distinct in
      let e_q = has-append q xs behind in
      let past_prev : (a : ℕ) → has a xs ≡ false → a ≢ 0 → a ≢ p =
        λ a a_out a0 same. final-other a 0 xs a_out a0 (same ∙ e) in
      record {
        chain = record {
          links = Links-join g 0 xs ((q, v) ∷ behind) 0 left (
            inserted.at_node ∙ rw e refl,
            (
              inserted.at_before,
              Links-frame h g b ys 0 right λ a i. inserted.others a (ground arith) (ground arith) (
                  past_prev a (apart_left a xs behind chain.distinct (ground arith))
                    (Distinct-nonzero a ys distinct i)),
            ),
          );
          distinct = Distinct-insert q v xs behind chain.distinct q0 out;
        };
        spared = λ a aq a_out a0.
            let e_a = has-append a xs behind in
            inserted.others a aq (ground arith) (past_prev a (ground arith) a0);
      }

  pub insert_before-Longer :
      Succeeds
        (Longer h q (xs ++ ((b, d) ∷ ys)) (xs ++ ((q, v) ∷ (b, d) ∷ ys)))
        (insert_before h q b)
  insert_before-Longer =
      let behind : Items = (b, d) ∷ ys in
      let (left, (at_b, _)) = Links-split h 0 xs behind 0 chain.links in
      let (_, (b0, _, _)) = Distinct-split xs behind chain.distinct in
      let e_q = has-append q xs behind in
      let qb : q ≢ b = ground arith in
      elim (Snoc-cases xs) [
        | inl e ↦
            let e0 : final 0 xs ≡ 0 = rw e refl in
            let (g, runs, inserted) =
              insert_before-first h q b v d (first ys 0) 0 0 0 x y q0 b0 qb at_q (at_b ∙ rw e0 refl)
                refl in
            (
              g,
              runs,
              insert-Links g 0 0 0 (sym e0) inserted (subst (λ l. Links g 0 l q) (sym e) tt),
            )
        | inr (zs, p, dp, e) ↦
            let end : Items = (p, dp) ∷ [] in
            let (front, (at_p, _)) = Links-split h 0 zs end b (subst (λ l. Links h 0 l b) e left) in
            let e_p : final 0 xs ≡ p = rw (e, final-append) refl in
            let (distinct, _) = Distinct-split xs behind chain.distinct in
            let distinct' : Distinct (zs ++ end) = subst Distinct e distinct in
            let e_has : (a : ℕ) → has a xs ≡ (has a zs || has a end) =
              λ a. rw e (has-append a zs end) in
            let e_hp = e_has p in
            let p_in : has p xs ≡ true = ground arith in
            let p_out = Distinct-apart p xs behind chain.distinct p_in in
            let p0 = Distinct-nonzero p xs distinct p_in in
            let pq : p ≢ q = has_ne p q xs p_in (ground arith) in
            let (g, runs, inserted) =
              insert_before-behind h q b v d (first ys 0) p dp (final 0 zs) x y q0 b0 qb at_q
                (at_b ∙ rw e_p refl) p0 pq (ground arith) at_p in
            let kept = Links-frame h g 0 zs p front λ a i.
              let e_a = e_has a in
              let a_out = Distinct-apart a xs behind chain.distinct (ground arith) in
              let a_end = Distinct-apart a zs end distinct' i in
              inserted.others a (has_ne a q xs (ground arith) (ground arith)) (ground arith)
                (ground arith) in
            (
              g,
              runs,
              insert-Links g p dp (final 0 zs) (sym e_p) inserted (
                  subst (λ l. Links g 0 l q) (sym e)
                    (Links-join g 0 zs end q kept (inserted.at_prev p0, tt))),
            )
      ]
