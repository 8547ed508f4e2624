-- ===== src/LinkedList/Walk.antt =====
-- ss_linked_list_initialize, ss_linked_list_length and ss_linked_list_uninitialize on a list.
use simple_socks.Common.{
  ℕ, zero, suc, ◌+◌, ◌<◌, ◌≡◌, refl, ◌≢◌, true, false, none, some, List, [], ◌∷◌, ◌++◌, arith, ◌==◌,
  ◌||◌, if◌then◌else◌, ◌∙◌, inl, inr, Bool-cases, length, length-append, Succeeds,
}
use simple_socks.LinkedList.{
  node, Store, LinkedList, with_node, free, node_create, initialize, release_from, uninitialize,
  length_from, list_length,
}
use simple_socks.LinkedList.Chain.{
  Items, has, first, Distinct, Links, IsList, all_nodes, has-append, Links-frame, has_ne,
}
use simple_socks.LinkedList.Insert.{
  deref-some, set_prev-some, set_next-some, with_node-same, with_node-other,
}

-- A list that was initialized is empty.
pub initialize-IsList :
    (h : Store) (head tail : ℕ)
    → head ≢ 0
    → tail ≢ 0
    → head ≢ tail
    → Succeeds
        (λ (g, l). IsList l g [] × (l.head ≡ head) × (l.tail ≡ tail))
        (initialize h head tail)
unfolding initialize node_create with_node
initialize-IsList h head tail head0 tail0 ne =
    let h0 : Store = node_create (node_create h head 0) tail 0 in
    let h1 : Store = with_node h0 head (some (node 0 0 tail)) in
    let runs1 = set_next-some h0 head 0 0 0 head0 (ground arith) tail in
    let runs2 = set_prev-some h1 tail 0 0 0 tail0 (ground arith) head in
    (
      (with_node h1 tail (some (node 0 head 0)), record { head = head; tail = tail }),
      rw (runs1, runs2),
      (
        record {
          links = (ground arith, (ground arith, tt));
          distinct = (head0, ground arith, (tail0, refl, tt));
        },
        refl,
        refl,
      ),
    )

pub length_from-runs :
    (fuel : ℕ) (h : Store) (l : LinkedList) (p : ℕ) (xs : Items)
    → Links h p (xs ++ ((l.tail, 0) ∷ [])) 0
    → Distinct (xs ++ ((l.tail, 0) ∷ []))
    → length xs < fuel
    → length_from fuel h l (first (xs ++ ((l.tail, 0) ∷ [])) 0) ≡ some (length xs)
unfolding length_from
length_from-runs zero h l p xs links distinct enough = ground arith
length_from-runs (suc fuel) h l p [] links distinct enough = ground arith
length_from-runs (suc fuel) h l p ((a, d) ∷ xs) (here, links) (a0, out, distinct) enough =
    let end : Items = (l.tail, 0) ∷ [] in
    let e = has-append a xs end in
    let ne : a ≢ l.tail = ground arith in
    let test : ((a == 0) || (a == l.tail)) ≡ false = ground arith in
    rw
      (
        test,
        deref-some h a d p _ a0 here,
        length_from-runs fuel h l a xs links distinct (omega arith),
      )
      (ground arith)

-- ss_linked_list_length counts the nodes between the sentinels.
pub list_length-length :
    (fuel : ℕ) (h : Store) (l : LinkedList) (xs : Items)
    → IsList l h xs
    → length xs < fuel
    → list_length fuel h l ≡ some (length xs)
unfolding list_length
list_length-length fuel h l xs list enough =
    let (here, links) = list.links in
    let (head0, _, distinct) = list.distinct in
    rw (
      deref-some h l.head 0 0 _ head0 here,
      length_from-runs fuel h l l.head xs links distinct enough,
    )

-- The data that are not null, in order.
abbrev pub owned : Items → List ℕ
owned [] = []
owned ((a, d) ∷ xs) = if d == 0 then owned xs else d ∷ owned xs

-- The nodes are gone from the store, and the rest of it is as before.
pub record Freed (h : Store) (xs : Items) (g : Store) : Type 0 where
  pub gone : (a : ℕ) → has a xs ≡ true → g a ≡ none
  pub others : (a : ℕ) → has a xs ≡ false → g a ≡ h a

pub free-some :
    (h : Store) (p d a b : ℕ)
    → p ≢ 0
    → h p ≡ some (node d a b)
    → free h p ≡ some (with_node h p none)
unfolding free
free-some h p d a b ne at = rw (deref-some h p d a b ne at)

-- The first node was freed, or it is one of those behind.
gone_lem :
    (h g : Store) (a d b : ℕ) (xs : Items)
    → Freed h xs g
    → h a ≡ none
    → has a xs ≡ false
    → has b ((a, d) ∷ xs) ≡ true
    → g b ≡ none
gone_lem h g a d b xs freed at out i = elim (Bool-cases (has b xs)) [
  | inl e ↦ freed.gone b e
  | inr e ↦ let same : b ≡ a = ground arith in freed.others b e ∙ rw same at
]

owned_end : (xs : Items) (t : ℕ) → owned (xs ++ ((t, 0) ∷ [])) ≡ owned xs
owned_end [] t = refl
owned_end ((a, d) ∷ xs) t = rw (owned_end xs t)

release_from-Freed :
    (fuel : ℕ) (h : Store) (p : ℕ) (xs : Items)
    → Links h p xs 0
    → Distinct xs
    → length xs < fuel
    → Succeeds
        (λ (g, released). Freed h xs g × (released ≡ owned xs))
        (release_from fuel h (first xs 0))
unfolding release_from
release_from-Freed zero h p xs links distinct enough = ground arith
release_from-Freed (suc fuel) h p [] links distinct enough =
    ((h, []), refl, (record { gone = λ a i. ground arith; others = λ a out. refl }, refl))
release_from-Freed (suc fuel) h p ((a, d) ∷ xs) (here, links) (a0, out, distinct) enough =
    let h' : Store = with_node h a none in
    let freed : free h a ≡ some h' = free-some h a d p (first xs 0) a0 here in
    let links' =
      Links-frame h h' a xs 0 links λ b i. with_node-other h a b none (has_ne b a xs i out) in
    let (rest, runs, (freed', e)) = release_from-Freed fuel h' a xs links' distinct (omega arith) in
    let test : (a == 0) ≡ false = ground arith in
    (
      (rest.0, if d == 0 then rest.1 else d ∷ rest.1),
      rw (test, deref-some h a d p _ a0 here, freed, runs) refl,
      (
        record {
          gone = λ b i. gone_lem h' rest.0 a d b xs freed' (with_node-same h a none) out i;
          others =
              λ b b_out. freed'.others b (ground arith) ∙ with_node-other h a b none (ground arith);
        },
        rw e refl,
      ),
    )

-- ss_linked_list_uninitialize hands over all data that are not null and frees every node.
pub uninitialize-Freed :
    (fuel : ℕ) (h : Store) (l : LinkedList) (xs : Items)
    → IsList l h xs
    → length xs + 2 < fuel
    → Succeeds
        (λ (g, released). Freed h (all_nodes l xs) g × (released ≡ owned xs))
        (uninitialize fuel h l)
unfolding uninitialize
uninitialize-Freed fuel h l xs list enough =
    let e = length-append xs ((l.tail, 0) ∷ []) in
    let (rest, runs, (freed, same)) =
      release_from-Freed fuel h 0 (all_nodes l xs) list.links list.distinct (omega arith) in
    (rest, runs, (freed, same ∙ owned_end xs l.tail))
