-- ===== src/LinkedList/Deque.antt =====
-- The linked list as a sequence: each operation acts on the nodes between the sentinels as on a
-- list of addresses and data.
use simple_socks.Common.{
  ℕ, ◌<◌, ◌≡◌, refl, ◌≢◌, true, false, Option, some, [], ◌∷◌, ◌++◌, arith, ◌==◌, if◌then◌else◌, ap,
  inl, inr, Bool-cases, ==_refl, length, ◌>>=◌,
}
use simple_socks.LinkedList.{
  node, Store, LinkedList, with_node, node_create, append, prepend, insert, pop_node_front, remove,
  detach, list_length,
}
use simple_socks.LinkedList.Chain.{Items, has, IsChain, IsList, all_nodes, Links-frame, has_ne}
use simple_socks.LinkedList.Insert.{with_node-other}

-- A call of an operation, with the address that malloc gives it.
pub data Command : Type 0 where
  to_back : ℕ → ℕ → Command
  to_front : ℕ → ℕ → Command
  in_front : ℕ → ℕ → ℕ → Command
  pop_front : Command
  take_out : ℕ → Command
  delete : ℕ → Command
  count : Command

-- The code of a call, and what it returns: a node, a number, or 0 where it returns nothing.
unfoldable pub perform : ℕ → LinkedList → Store → Command → Option (Store × ℕ)
perform fuel l h (to_back at d) = do h' ← append h l at d; some (h', at)
perform fuel l h (to_front at d) = do h' ← prepend h l at d; some (h', at)
perform fuel l h (in_front b at d) = do h' ← insert h b at d; some (h', at)
perform fuel l h pop_front = pop_node_front h l
perform fuel l h (take_out p) = do h' ← detach h p; some (h', 0)
perform fuel l h (delete p) = do h' ← remove h p; some (h', 0)
perform fuel l h count = do n ← list_length fuel h l; some (h, n)

-- `x` in front of the node at `b`, and a list without the node at `p`.
abbrev pub placed : ℕ × ℕ → ℕ → Items → Items
placed x b [] = []
placed x b ((a, d) ∷ xs) = if a == b then x ∷ (a, d) ∷ xs else (a, d) ∷ placed x b xs

abbrev pub without : ℕ → Items → Items
without p [] = []
without p ((a, d) ∷ xs) = if a == p then xs else (a, d) ∷ without p xs

-- What a call is to do to a sequence.
unfoldable pub act : Items → Command → Items × ℕ
act xs (to_back at d) = (xs ++ ((at, d) ∷ []), at)
act xs (to_front at d) = ((at, d) ∷ xs, at)
act xs (in_front b at d) = (placed (at, d) b xs, at)
act [] pop_front = ([], 0)
act ((a, d) ∷ xs) pop_front = (xs, a)
act xs (take_out p) = (without p xs, 0)
act xs (delete p) = (without p xs, 0)
act xs count = (xs, length xs)

-- What a call needs: malloc gives memory that no node of the list has, the node that is named is
-- in the list, and the loop has the fuel.
abbrev pub Fits : ℕ → LinkedList → Items → Command → Type 0
Fits fuel l xs (to_back at d) = (at ≢ 0) × (has at (all_nodes l xs) ≡ false)
Fits fuel l xs (to_front at d) = (at ≢ 0) × (has at (all_nodes l xs) ≡ false)
Fits fuel l xs (in_front b at d) = (at ≢ 0) × (has at (all_nodes l xs) ≡ false) × (has b xs ≡ true)
Fits fuel l xs pop_front = Unit
Fits fuel l xs (take_out p) = has p xs ≡ true
Fits fuel l xs (delete p) = has p xs ≡ true
Fits fuel l xs count = length xs < fuel

-- The sequence after a call, and its answer.
abbrev pub Acts : LinkedList → Items × ℕ → Store × ℕ → Type 0
Acts l (xs, answer) (h, result) = IsList l h xs × (result ≡ answer)

-- A node of the list splits it in two.
pub record Split (b : ℕ) (xs : Items) : Type 0 where
  pub front : Items
  pub data_of : ℕ
  pub back : Items
  pub whole : xs ≡ (front ++ ((b, data_of) ∷ back))
  pub placed_eq : (x : ℕ × ℕ) → placed x b xs ≡ (front ++ (x ∷ (b, data_of) ∷ back))
  pub without_eq : without b xs ≡ (front ++ back)

pub has-Split : (b : ℕ) (xs : Items) → has b xs ≡ true → Split b xs
has-Split b [] i = ground arith
has-Split b ((a, d) ∷ xs) i = elim (Bool-cases (a == b)) [
  | inl e ↦
      let same : a ≡ b = ground arith in
      record {
        front = [];
        data_of = d;
        back = xs;
        whole = rw same refl;
        placed_eq = λ x. rw (same, ==_refl b) refl;
        without_eq = rw e refl;
      }
  | inr e ↦
      let ne : (b == a) ≡ false = ground arith in
      let s = has-Split b xs (ground arith) in
      record {
        front = (a, d) ∷ s.front;
        data_of = s.data_of;
        back = s.back;
        whole = ap (λ ys. (a, d) ∷ ys) s.whole;
        placed_eq = λ x. rw (e, s.placed_eq x) refl;
        without_eq = rw (e, s.without_eq) refl;
      }
]

pub create-IsChain :
    (h : Store) (at d : ℕ) (xs : Items)
    → IsChain h xs
    → has at xs ≡ false
    → IsChain (node_create h at d) xs
unfolding node_create
create-IsChain h at d xs chain out = record {
  links =
      Links-frame h (with_node h at (some (node d 0 0))) 0 xs 0 chain.links
        λ a i. with_node-other h at a _ (has_ne a at xs i out);
  distinct = chain.distinct;
}
