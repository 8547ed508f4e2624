-- ===== src/StringMap/Tests.antt =====
-- A tree that is a list of nodes, runs of the string map on it, and the theorem at a concrete map.
use simple_socks.Common.{
  ℕ, zero, suc, ◌≡◌, refl, sym, ap, ◌∙◌, ◌≢◌, inl, inr, true, false, Bool-cases, Option-cases,
  ==_refl, Option, none, some, List, [], ◌∷◌, ◌==◌, ◌&&◌, if◌then◌else◌, get_elem?, set, arith,
  Succeeds, some-injective,
}
use mathlib.Core.Option
use simple_socks.StringMap.{MapNode, Shape, leaf, fork, Tree, IsTree, nodes, remove_at}
use simple_socks.StringMap.Entries.{key_eq, key_eq_refl, eq_of_key_eq}
use simple_socks.StringMap.Refines.{
  Command, get, put, erase, act, run_calls, act_calls, Maps, run_calls-act_calls,
}

abbrev row : List (MapNode ℕ) → Shape ℕ
row [] = leaf
row (n ∷ ns) = fork leaf n (row ns)

abbrev search : List (MapNode ℕ) → ℕ → List ℕ → Option ℕ
search [] hash key = none
search (n ∷ ns) hash key =
    if (n.hash == hash) && key_eq n.key key then some 0 else Option.map suc (search ns hash key)

abbrev assign_at : List (MapNode ℕ) → ℕ → ℕ → List (MapNode ℕ)
assign_at [] i v = []
assign_at (n ∷ ns) zero v = record n { value = v } ∷ ns
assign_at (n ∷ ns) (suc i) v = n ∷ assign_at ns i v

abbrev row_tree : Tree ℕ
row_tree = record {
  State = List (MapNode ℕ);
  shape = row;
  init = [];
  lookup = search;
  insert = λ ns n. n ∷ ns;
  delete = λ ns i. remove_at i ns;
  assign = assign_at;
}

row-nodes : (ns : List (MapNode ℕ)) → nodes row_tree ns ≡ ns
row-nodes [] = refl
row-nodes (n ∷ ns) = ap (λ ms. n ∷ ms) (row-nodes ns)

search-found :
    (ns : List (MapNode ℕ)) (hash : ℕ) (key : List ℕ) (i : ℕ)
    → search ns hash key ≡ some i
    → (n : MapNode ℕ) × (get_elem? ns i ≡ some n) × (n.hash ≡ hash) × (n.key ≡ key)
search-found [] hash key i e = ground arith
search-found (n ∷ ns) hash key i e = elim (Bool-cases ((n.hash == hash) && key_eq n.key key)) [
  | inl same ↦
      let i0 : 0 ≡ i = some-injective _ _ (rw same at e) in
      (n, ap (get_elem? (n ∷ ns)) (sym i0), ground arith, eq_of_key_eq n.key key (ground arith))
  | inr other ↦ elim (Option-cases (search ns hash key)) [
    | inl none_left ↦ ground arith
    | inr (j, e') ↦
        let i_eq : suc j ≡ i = some-injective _ _ (rw (other, e') at e) in
        let (m, at, same, same') = search-found ns hash key j e' in
        (m, ap (get_elem? (n ∷ ns)) (sym i_eq) ∙ at, same, same')
  ]
]

search-missed :
    (ns : List (MapNode ℕ)) (hash : ℕ) (key : List ℕ) (i : ℕ) (n : MapNode ℕ)
    → search ns hash key ≡ none
    → get_elem? ns i ≡ some n
    → n.hash ≡ hash
    → n.key ≢ key
search-missed [] hash key i n e at same = ground arith
search-missed (m ∷ ns) hash key zero n e at same = λ same'.
    let this : m ≡ n = some-injective _ _ at in
    let hit : ((m.hash == hash) && key_eq m.key key) ≡ true =
      rw (this, same, same', ==_refl hash, key_eq_refl key) refl in
    ground (arith, hit)
search-missed (m ∷ ns) hash key (suc i) n e at same =
    elim (Bool-cases ((m.hash == hash) && key_eq m.key key)) [
      | inl hit ↦ ground (arith, hit)
      | inr other ↦
          let rest : Option.map suc (search ns hash key) ≡ none = rw other at e in
          search-missed ns hash key i n (ground arith) at same
    ]

assign_at-set :
    (ns : List (MapNode ℕ)) (i v : ℕ) (n : MapNode ℕ)
    → get_elem? ns i ≡ some n
    → assign_at ns i v ≡ set ns i (record n { value = v })
assign_at-set [] i v n at = refl
assign_at-set (m ∷ ns) zero v n at =
    ap (λ (k : MapNode ℕ). record k { value = v } ∷ ns) (some-injective _ _ at)
assign_at-set (m ∷ ns) (suc i) v n at = ap (λ ms. m ∷ ms) (assign_at-set ns i v n at)

at_row :
    (ns : List (MapNode ℕ)) (i : ℕ) (n : MapNode ℕ)
    → get_elem? (nodes row_tree ns) i ≡ some n
    → get_elem? ns i ≡ some n
at_row ns i n at = ap (λ ms. get_elem? ms i) (sym (row-nodes ns)) ∙ at

row_tree-IsTree : IsTree row_tree
row_tree-IsTree = record {
  init_nodes = refl;
  found = λ s hash key i e. rw (row-nodes s) (search-found s hash key i e);
  missed = λ s hash key i n e at. search-missed s hash key i n e (at_row s i n at);
  inserted = λ s n. (0, ap (λ ms. n ∷ ms) refl);
  deleted = λ s i. row-nodes (remove_at i s) ∙ ap (remove_at i) (sym (row-nodes s));
  assigned = λ s i v n at.
      row-nodes (assign_at s i v)
      ∙ assign_at-set s i v n (at_row s i n at)
      ∙ ap (λ ms. set ms i (record n { value = v })) (sym (row-nodes s));
}

abbrev calls : List (Command ℕ)
calls =
    put (b'a' ∷ []) 1
    ∷ put (b'a' ∷ b'b' ∷ []) 2
    ∷ get (b'a' ∷ [])
    ∷ put (b'a' ∷ []) 3
    ∷ erase (b'b' ∷ [])
    ∷ erase (b'a' ∷ [])
    ∷ get (b'a' ∷ b'b' ∷ [])
    ∷ []

empty-Maps : Maps row_tree [] (λ key. none)
empty-Maps = record { distinct = tt; hashed = tt; values = λ key. refl }

run_calls-act_calls_example :
    Succeeds
      (λ (s', results).
        Maps row_tree s' (act_calls row_tree (λ key. none) calls).0
        × (results ≡ (
            (false, none)
            ∷ (false, none)
            ∷ (true, some 1)
            ∷ (true, some 1)
            ∷ (false, none)
            ∷ (true, some 3)
            ∷ (true, some 2)
            ∷ [])))
      (run_calls row_tree [] calls)
unfolding act
run_calls-act_calls_example =
    run_calls-act_calls row_tree row_tree-IsTree [] (λ key. none) calls empty-Maps
