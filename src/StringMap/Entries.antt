-- ===== src/StringMap/Entries.antt =====
-- The values that the nodes of a string map hold for each key.
use simple_socks.Common.{
  ℕ, zero, suc, ◌≡◌, refl, sym, subst, ap, ◌∙◌, inl, inr, Bool-cases, some-injective, ◌≢◌, Bool,
  true, false, Option, none, some, List, [], ◌∷◌, ◌==◌, ◌&&◌, if◌then◌else◌, get_elem?, set, arith,
}
use mathlib.Core.Path.{ap₂}
use simple_socks.StringMap.{MapNode, insert_at, remove_at}

abbrev pub key_eq : List ℕ → List ℕ → Bool
key_eq [] [] = true
key_eq [] (y ∷ ys) = false
key_eq (x ∷ xs) [] = false
key_eq (x ∷ xs) (y ∷ ys) = (x == y) && key_eq xs ys

pub key_eq_refl : (xs : List ℕ) → key_eq xs xs ≡ true
key_eq_refl [] = refl
key_eq_refl (x ∷ xs) = ground (arith, key_eq_refl xs)

pub eq_of_key_eq : (xs ys : List ℕ) → key_eq xs ys ≡ true → xs ≡ ys
eq_of_key_eq [] [] e = refl
eq_of_key_eq [] (y ∷ ys) e = ground arith
eq_of_key_eq (x ∷ xs) [] e = ground arith
eq_of_key_eq (x ∷ xs) (y ∷ ys) e =
    let first : x ≡ y = ground arith in
    let rest : xs ≡ ys = eq_of_key_eq xs ys (ground arith) in ap₂ ◌∷◌ first rest

pub key_eq_sym : (xs ys : List ℕ) → key_eq xs ys ≡ key_eq ys xs
key_eq_sym [] [] = refl
key_eq_sym [] (y ∷ ys) = refl
key_eq_sym (x ∷ xs) [] = refl
key_eq_sym (x ∷ xs) (y ∷ ys) = ground (arith, key_eq_sym xs ys)

pub key_apart :
    (xs ys key : List ℕ) → key_eq xs ys ≡ false → key_eq xs key ≡ true → key_eq ys key ≡ false
key_apart xs ys key apart e =
    let same : xs ≡ key = eq_of_key_eq xs key e in
    key_eq_sym ys key ∙ ap (λ k. key_eq k ys) (sym same) ∙ apart

-- The test that one of two different keys is asked for.
unset : {A : Type 0} → (b : Bool) → (a : A) → (if b then some a else none) ≡ none → b ≡ false
unset true a e = ground arith
unset false a e = refl

head_apart :
    {A : Type 0}
    → (b : Bool) → (a : A) → (o : Option A) → (if b then some a else o) ≡ none
    → (b ≡ false) × (o ≡ none)
head_apart true a o e = ground arith
head_apart false a o e = (refl, e)

module _ {V : Type 0} where
  -- The value for a key.
  abbrev pub find : List (MapNode V) → List ℕ → Option V
  find [] key = none
  find (n ∷ ns) key = if key_eq n.key key then some n.value else find ns key

  abbrev pub Distinct : List (MapNode V) → Type 0
  Distinct [] = Unit
  Distinct (n ∷ ns) = (find ns n.key ≡ none) × Distinct ns

  pub find-insert_at :
      (i : ℕ) (n : MapNode V) (ns : List (MapNode V)) (key : List ℕ)
      → find ns n.key ≡ none
      → find (insert_at i n ns) key ≡ (if key_eq n.key key then some n.value else find ns key)
  find-insert_at zero n ns key new = refl
  find-insert_at (suc i) n [] key new = refl
  find-insert_at (suc i) n (m ∷ ns) key new =
      let (apart, out) = head_apart (key_eq m.key n.key) m.value (find ns n.key) new in
      let rest = find-insert_at i n ns key out in
      elim (Bool-cases (key_eq m.key key)) [
        | inl e ↦ rw (e, key_apart m.key n.key key apart e) refl
        | inr e ↦ rw e rest
      ]

  pub Distinct-insert_at :
      (i : ℕ) (n : MapNode V) (ns : List (MapNode V))
      → find ns n.key ≡ none
      → Distinct ns
      → Distinct (insert_at i n ns)
  Distinct-insert_at zero n ns new distinct = (new, distinct)
  Distinct-insert_at (suc i) n [] new distinct = (new, distinct)
  Distinct-insert_at (suc i) n (m ∷ ns) new (out, distinct) =
      let (apart, out') = head_apart (key_eq m.key n.key) m.value (find ns n.key) new in
      (
        find-insert_at i n ns m.key out' ∙ rw (key_eq_sym n.key m.key, apart, out) refl,
        Distinct-insert_at i n ns out' distinct,
      )

  -- A key is found where a node has it.
  pub find_filled :
      (i : ℕ) (n : MapNode V) (ns : List (MapNode V))
      → get_elem? ns i ≡ some n
      → find ns n.key ≢ none
  find_filled i n [] at = ground arith
  find_filled zero n (m ∷ ns) at =
      let same : m ≡ n = some-injective _ _ at in
      rw (sym same, key_eq_refl m.key) (λ e. ground arith)
  find_filled (suc i) n (m ∷ ns) at = λ e.
      let (_, out) = head_apart (key_eq m.key n.key) m.value (find ns n.key) e in
      find_filled i n ns at out

  -- The node of another place has another key.
  others_apart :
      (i : ℕ) (n m : MapNode V) (ns : List (MapNode V))
      → get_elem? ns i ≡ some n
      → find ns m.key ≡ none
      → key_eq m.key n.key ≡ false
  others_apart i n m ns at out = elim (Bool-cases (key_eq m.key n.key)) [
    | inl e ↦
        let same = eq_of_key_eq m.key n.key e in absurd (find_filled i n ns at (rw (sym same) out))
    | inr e ↦ e
  ]

  pub find-get_elem? :
      (i : ℕ) (n : MapNode V) (ns : List (MapNode V))
      → get_elem? ns i ≡ some n
      → Distinct ns
      → find ns n.key ≡ some n.value
  find-get_elem? i n [] at distinct = ground arith
  find-get_elem? zero n (m ∷ ns) at distinct =
      let same : m ≡ n = some-injective _ _ at in rw (sym same, key_eq_refl m.key) refl
  find-get_elem? (suc i) n (m ∷ ns) at (out, distinct) =
      rw (others_apart i n m ns at out) (find-get_elem? i n ns at distinct)

  pub find-set :
      (i : ℕ) (n : MapNode V) (v : V) (ns : List (MapNode V)) (key : List ℕ)
      → get_elem? ns i ≡ some n
      → Distinct ns
      → find (set ns i (record n { value = v })) key
        ≡ (if key_eq n.key key then some v else find ns key)
  find-set i n v [] key at distinct = ground arith
  find-set zero n v (m ∷ ns) key at distinct =
      let same : m ≡ n = some-injective _ _ at in rw same (ground arith)
  find-set (suc i) n v (m ∷ ns) key at (out, distinct) =
      let rest = find-set i n v ns key at distinct in
      let apart = others_apart i n m ns at out in
      elim (Bool-cases (key_eq m.key key)) [
        | inl e ↦ rw (e, key_apart m.key n.key key apart e) refl
        | inr e ↦ rw e rest
      ]

  pub Distinct-set :
      (i : ℕ) (n : MapNode V) (v : V) (ns : List (MapNode V))
      → get_elem? ns i ≡ some n
      → Distinct ns
      → Distinct (set ns i (record n { value = v }))
  Distinct-set i n v [] at distinct = tt
  Distinct-set zero n v (m ∷ ns) at (out, distinct) =
      let same : m ≡ n = some-injective _ _ at in
      (ap (λ (k : MapNode V). find ns k.key) (sym same) ∙ out, distinct)
  Distinct-set (suc i) n v (m ∷ ns) at (out, distinct) =
      let apart = others_apart i n m ns at out in
      (
        find-set i n v ns m.key at distinct ∙ rw (key_eq_sym n.key m.key, apart, out) refl,
        Distinct-set i n v ns at distinct,
      )

  pub find-remove_at :
      (i : ℕ) (n : MapNode V) (ns : List (MapNode V)) (key : List ℕ)
      → get_elem? ns i ≡ some n
      → Distinct ns
      → find (remove_at i ns) key ≡ (if key_eq n.key key then none else find ns key)
  find-remove_at i n [] key at distinct = ground arith
  find-remove_at zero n (m ∷ ns) key at (out, distinct) =
      let same : m ≡ n = some-injective _ _ at in
      elim (Bool-cases (key_eq n.key key)) [
        | inl e ↦
            let this : n.key ≡ key = eq_of_key_eq n.key key e in
            let out' : find ns key ≡ none =
              subst (λ k. find ns k ≡ none) (ap (λ (k : MapNode V). k.key) same ∙ this) out in
            rw (e, out') refl
        | inr e ↦ rw (same, e) refl
      ]
  find-remove_at (suc i) n (m ∷ ns) key at (out, distinct) =
      let rest = find-remove_at i n ns key at distinct in
      let apart = others_apart i n m ns at out in
      elim (Bool-cases (key_eq m.key key)) [
        | inl e ↦ rw (e, key_apart m.key n.key key apart e) refl
        | inr e ↦ rw e rest
      ]

  pub Distinct-remove_at :
      (i : ℕ) (n : MapNode V) (ns : List (MapNode V))
      → get_elem? ns i ≡ some n
      → Distinct ns
      → Distinct (remove_at i ns)
  Distinct-remove_at i n [] at distinct = tt
  Distinct-remove_at zero n (m ∷ ns) at (out, distinct) = distinct
  Distinct-remove_at (suc i) n (m ∷ ns) at (out, distinct) =
      let apart = others_apart i n m ns at out in
      (
        find-remove_at i n ns m.key at distinct ∙ rw (key_eq_sym n.key m.key, apart, out) refl,
        Distinct-remove_at i n ns at distinct,
      )

  -- No node has a key: where each node's key differs from it.
  pub find_missing :
      (ns : List (MapNode V)) (key : List ℕ)
      → ((i : ℕ) (n : MapNode V) → get_elem? ns i ≡ some n → n.key ≢ key)
      → find ns key ≡ none
  find_missing [] key others = refl
  find_missing (m ∷ ns) key others =
      let apart : key_eq m.key key ≡ false = elim (Bool-cases (key_eq m.key key)) [
        | inl e ↦ absurd (others 0 m refl (eq_of_key_eq m.key key e))
        | inr e ↦ e
      ] in
      rw apart (find_missing ns key (λ i n at. others (suc i) n at))
