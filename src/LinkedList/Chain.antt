-- ===== src/LinkedList/Chain.antt =====
-- A chain of linked nodes in the store, and the list that a linked list stands for.
use simple_socks.Common.{
  ℕ, ◌≡◌, refl, ◌≢◌, ◌⊎◌, inl, inr, Bool, true, false, ◌||◌, some, List, [], ◌∷◌, ◌++◌, arith, ◌==◌,
  sym, Bool-cases,
}
use simple_socks.LinkedList.{node, Store, LinkedList}

-- The nodes of a list in order, each with its address and its data.
abbrev pub Items : Type 0
Items = List (ℕ × ℕ)

abbrev pub has : ℕ → Items → Bool
has a [] = false
has a ((p, _) ∷ xs) = (a == p) || has a xs

-- The first address, or `n` in an empty list.
abbrev pub first : Items → ℕ → ℕ
first [] n = n
first ((a, _) ∷ _) n = a

-- The last address, or `p` in an empty list.
abbrev pub final : ℕ → Items → ℕ
final p [] = p
final p ((a, _) ∷ xs) = final a xs

abbrev pub Distinct : Items → Type 0
Distinct [] = Unit
Distinct ((a, _) ∷ xs) = (a ≢ 0) × (has a xs ≡ false) × Distinct xs

-- The nodes `xs` stand in the store, each linked to its neighbours, with `p` before and `n` behind.
abbrev pub Links : Store → ℕ → Items → ℕ → Type 0
Links h p [] n = Unit
Links h p ((a, d) ∷ xs) n = (h a ≡ some (node d p (first xs n))) × Links h a xs n

-- A whole chain: the links end with null pointers on both sides.
pub record IsChain (h : Store) (xs : Items) : Type 0 where
  pub links : Links h 0 xs 0
  pub distinct : Distinct xs

-- The list `l` holds the nodes `xs`: they stand between the sentinels, which have no data.
abbrev pub all_nodes : LinkedList → Items → Items
all_nodes l xs = (l.head, 0) ∷ (xs ++ ((l.tail, 0) ∷ []))

abbrev pub IsList : LinkedList → Store → Items → Type 0
IsList l h xs = IsChain h (all_nodes l xs)

pub has-append : (a : ℕ) (xs ys : Items) → has a (xs ++ ys) ≡ (has a xs || has a ys)
has-append a [] ys = refl
has-append a (x ∷ xs) ys = ground (arith, has-append a xs ys)

pub first-append : (xs ys : Items) (n : ℕ) → first (xs ++ ys) n ≡ first xs (first ys n)
first-append [] ys n = refl
first-append (x ∷ xs) ys n = refl

pub final-append : (p : ℕ) (xs ys : Items) → final p (xs ++ ys) ≡ final (final p xs) ys
final-append p [] ys = refl
final-append p ((a, d) ∷ xs) ys = final-append a xs ys

pub Links-split :
    (h : Store) (p : ℕ) (xs ys : Items) (n : ℕ)
    → Links h p (xs ++ ys) n
    → Links h p xs (first ys n) × Links h (final p xs) ys n
Links-split h p [] ys n links = (tt, links)
Links-split h p ((a, d) ∷ xs) ys n (here, links) =
    let (left, right) = Links-split h a xs ys n links in
    ((rw (sym (first-append xs ys n)) here, left), right)

pub Links-join :
    (h : Store) (p : ℕ) (xs ys : Items) (n : ℕ)
    → Links h p xs (first ys n)
    → Links h (final p xs) ys n
    → Links h p (xs ++ ys) n
Links-join h p [] ys n left right = right
Links-join h p ((a, d) ∷ xs) ys n (here, left) right =
    (rw (first-append xs ys n) here, Links-join h a xs ys n left right)

-- Links survive a change of the store that spares their nodes.
pub Links-frame :
    (h g : Store) (p : ℕ) (xs : Items) (n : ℕ)
    → Links h p xs n
    → ((a : ℕ) → has a xs ≡ true → g a ≡ h a)
    → Links g p xs n
Links-frame h g p [] n links same = tt
Links-frame h g p ((a, d) ∷ xs) n (here, links) same =
    (rw (same a (ground arith)) here, Links-frame h g a xs n links λ b i. same b (ground arith))

pub Distinct-split : (xs ys : Items) → Distinct (xs ++ ys) → Distinct xs × Distinct ys
Distinct-split [] ys distinct = (tt, distinct)
Distinct-split ((a, d) ∷ xs) ys (a0, out, distinct) =
    let (left, right) = Distinct-split xs ys distinct in
    let e = has-append a xs ys in ((a0, ground arith, left), right)

-- No node of one part of a chain is in the other.
pub Distinct-apart :
    (a : ℕ) (xs ys : Items) → Distinct (xs ++ ys) → has a xs ≡ true → has a ys ≡ false
Distinct-apart a [] ys distinct i = ground arith
Distinct-apart a ((b, d) ∷ xs) ys (b0, out, distinct) i =
    let e = has-append b xs ys in let apart = Distinct-apart a xs ys distinct in ground arith

pub has_ne : (a b : ℕ) (xs : Items) → has a xs ≡ true → has b xs ≡ false → a ≢ b
has_ne a b xs i out e = ground arith

pub Snoc-cases :
    (xs : Items) → (xs ≡ []) ⊎ ((zs : Items) × (a : ℕ) × (d : ℕ) × (xs ≡ (zs ++ ((a, d) ∷ []))))
Snoc-cases [] = inl refl
Snoc-cases ((a, d) ∷ xs) = elim (Snoc-cases xs) [
  | inl e ↦ inr ([], a, d, rw e refl)
  | inr (zs, b, c, e) ↦ inr ((a, d) ∷ zs, b, c, rw e refl)
]

pub Distinct-nonzero : (a : ℕ) (xs : Items) → Distinct xs → has a xs ≡ true → a ≢ 0
Distinct-nonzero a [] distinct i = ground arith
Distinct-nonzero a ((b, d) ∷ xs) (b0, out, distinct) i =
    let rest = Distinct-nonzero a xs distinct in ground arith

pub final-other : (a p : ℕ) (xs : Items) → has a xs ≡ false → a ≢ p → a ≢ final p xs
final-other a p [] out ne = ne
final-other a p ((b, d) ∷ xs) out ne = final-other a b xs (ground arith) (ground arith)

-- A node of the second part is none of the first.
pub apart_left : (a : ℕ) (xs ys : Items) → Distinct (xs ++ ys) → has a ys ≡ true → has a xs ≡ false
apart_left a xs ys distinct i =
    let apart = Distinct-apart a xs ys distinct in
    elim (Bool-cases (has a xs)) [ inl e ↦ ground arith | inr e ↦ e ]
