-- ===== src/Network/Listed.antt =====
-- The items that stand in the network's list: each in memory, with its node, and in the list once.
use simple_socks.Common.{
  ℕ, ◌≡◌, refl, sym, ap, ◌∙◌, ◌≢◌, inl, inr, Bool, true, false, Bool-cases, ◌||◌, Option, none,
  some, some-injective, [], ◌∷◌, ◌++◌, ◌==◌, arith,
}
use simple_socks.LinkedList.Chain.{Items, has, Distinct}
use simple_socks.LinkedList.Deque.{without}
use simple_socks.Network.{Connection, connection, Item, put_item}

abbrev pub Memory : Type 0
Memory = ℕ → Option Item

abbrev pub linked : ℕ → Connection → Item
linked a c = record { lnode = a; body = connection c }

-- Whether a node of the list has the item at `p`.
abbrev pub pointed : ℕ → Items → Bool
pointed p [] = false
pointed p ((a, q) ∷ xs) = (p == q) || pointed p xs

abbrev pub Owned : Memory → Items → Type 0
Owned items [] = Unit
Owned items ((a, p) ∷ xs) =
    (p ≢ 0)
    × ((c : Connection) × (items p ≡ some (linked a c)))
    × (pointed p xs ≡ false)
    × Owned items xs

pub Owned-frame :
    (items items' : Memory) (xs : Items)
    → Owned items xs
    → ((p : ℕ) → pointed p xs ≡ true → items' p ≡ items p)
    → Owned items' xs
Owned-frame items items' [] owned same = tt
Owned-frame items items' ((a, p) ∷ xs) (p0, (c, at), out, owned) same = (
  p0,
  (c, same p (ground arith) ∙ at),
  out,
  Owned-frame items items' xs owned (λ q i. same q (ground arith)),
)

-- The node that has the item at `p`.
pub owner :
    (items : Memory) (p : ℕ) (xs : Items)
    → Owned items xs
    → pointed p xs ≡ true
    → (a : ℕ) × (c : Connection) × (items p ≡ some (linked a c)) × (has a xs ≡ true) × (p ≢ 0)
owner items p [] owned i = ground arith
owner items p ((a, q) ∷ xs) (q0, (c, at), out, owned) i = elim (Bool-cases (p == q)) [
  | inl e ↦ let same : p ≡ q = ground arith in (a, c, rw same at, ground arith, rw same q0)
  | inr e ↦
      let (b, d, at', in_, p0) = owner items p xs owned (ground arith) in
      (b, d, at', ground arith, p0)
]

same_node : (a b : ℕ) (c d : Connection) → some (linked a c) ≡ some (linked b d) → a ≡ b
same_node a b c d e = ap (λ (i : Item). i.lnode) (some-injective _ _ e)

-- A list without the node of the item at `p`, which is gone from memory.
pub Owned-without :
    (items : Memory) (p a : ℕ) (c : Connection) (xs : Items)
    → Owned items xs
    → Distinct xs
    → pointed p xs ≡ true
    → items p ≡ some (linked a c)
    → Owned (put_item items p none) (without a xs)
      × ((q : ℕ) → q ≢ p → pointed q (without a xs) ≡ pointed q xs)
Owned-without items p a c [] owned distinct i at = ground arith
Owned-without items p a c ((b, q) ∷ xs) (q0, (d, at_q), out, owned) (b0, b_out, distinct) i at =
    elim (Bool-cases (p == q)) [
      | inl e ↦
          let same : p ≡ q = ground arith in
          let node_eq : b ≡ a = same_node b a d c (sym at_q ∙ ap items (sym same) ∙ at) in
          let hit : (b == a) ≡ true = ground arith in
          rw hit (
            Owned-frame items (put_item items p none) xs owned (λ r j. ground arith),
            (λ r ne. ground arith),
          )
      | inr e ↦
          let (a', d', at', in_, p0) = owner items p xs owned (ground arith) in
          let node_eq : a' ≡ a = same_node a' a d' c (sym at' ∙ at) in
          let other : (b == a) ≡ false = ground arith in
          let (owned', others) = Owned-without items p a c xs owned distinct (ground arith) at in
          let kept : put_item items p none q ≡ items q = ground arith in
          rw other (
            (q0, (d, kept ∙ at_q), others q (λ e'. ground arith) ∙ out, owned'),
            (λ r ne. ap (λ t. (r == q) || t) (others r ne)),
          )
    ]

-- Nodes at addresses that are not in a list are not in a part of it.
pub has-without : (n a : ℕ) (xs : Items) → has n xs ≡ false → has n (without a xs) ≡ false
has-without n a [] out = refl
has-without n a ((b, q) ∷ xs) out =
    let rest = has-without n a xs (ground arith) in
    elim (Bool-cases (b == a)) [ inl e ↦ rw e (ground arith) | inr e ↦ rw e (ground arith) ]

pub pointed-append :
    (r a p : ℕ) (xs : Items) → pointed r (xs ++ ((a, p) ∷ [])) ≡ (pointed r xs || (r == p))
pointed-append r a p [] = ground arith
pointed-append r a p ((b, q) ∷ xs) = ground (arith, pointed-append r a p xs)

-- A new node at the end of a list, with its item.
pub Owned-append :
    (items : Memory) (a p : ℕ) (c : Connection) (xs : Items)
    → Owned items xs
    → p ≢ 0
    → items p ≡ some (linked a c)
    → pointed p xs ≡ false
    → Owned items (xs ++ ((a, p) ∷ []))
Owned-append items a p c [] owned p0 at out = (p0, (c, at), refl, tt)
Owned-append items a p c ((b, q) ∷ xs) (q0, at_q, q_out, owned) p0 at out =
    let end = pointed-append q a p xs in
    (q0, at_q, ground arith, Owned-append items a p c xs owned p0 at (ground arith))

-- An item that is not in memory has no node.
pub not_pointed :
    (items : Memory) (p : ℕ) (xs : Items) → Owned items xs → items p ≡ none → pointed p xs ≡ false
not_pointed items p xs owned gone = elim (Bool-cases (pointed p xs)) [
  | inl e ↦ let (a, c, at, _, _) = owner items p xs owned e in ground (arith, sym gone ∙ at)
  | inr e ↦ e
]
