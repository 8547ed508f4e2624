-- ===== src/StringMap/Refines.antt =====
-- The string map refines a function from keys to values.
use simple_socks.Common.{
  ℕ, ◌≡◌, refl, sym, ap, subst, ◌∙◌, inl, inr, Bool, true, false, Bool-cases, Option-cases, Option,
  none, some, some-injective, List, [], ◌∷◌, ◌++◌, if◌then◌else◌, ◌>>=◌, get_elem?, Succeeds,
}
use simple_socks.StringMap.{
  string_hash, MapNode, Tree, nodes, IsTree, Found, strmap_node_create, strmap_lookup, strmap_get,
  strmap_put, strmap_erase,
}
use simple_socks.StringMap.Hashes.{
  string_hash_runs, Hashed, Hashed-get_elem?, Hashed-insert_at, Hashed-set, Hashed-remove_at,
}
use simple_socks.StringMap.Entries.{
  key_eq, eq_of_key_eq, find, Distinct, find-insert_at, Distinct-insert_at, find-get_elem?,
  find-set, Distinct-set, find-remove_at, Distinct-remove_at, find_missing,
}

-- A call of an operation.
pub data Command (V : Type 0) : Type 0 where
  get : List ℕ → Command V
  put : List ℕ → V → Command V
  erase : List ℕ → Command V

-- The map as a function, and what a call is to do to it.
abbrev pub View : Type 0 → Type 0
View V = List ℕ → Option V

abbrev pub answer : {V : Type 0} → Option V → Bool × Option V
answer none = (false, none)
answer (some v) = (true, some v)

unfoldable pub act : {V : Type 0} → View V → Command V → View V × (Bool × Option V)
act m (get key) = (m, answer (m key))
act m (put key v) = ((λ k. if key_eq key k then some v else m k), answer (m key))
act m (erase key) = ((λ k. if key_eq key k then none else m k), answer (m key))

unchanged :
    {V : Type 0}
    → (m : View V) (key k : List ℕ) → m key ≡ none
    → m k ≡ (if key_eq key k then none else m k)
unchanged m key k e = elim (Bool-cases (key_eq key k)) [
  | inl same ↦ rw same (ap m (sym (eq_of_key_eq key k same)) ∙ e)
  | inr other ↦ rw other refl
]

module _ {V : Type 0} (tree : Tree V) where
  -- The code of a call.
  unfoldable pub perform : tree.State → Command V → Option (tree.State × Found tree)
  perform s (get key) = do result ← strmap_get tree s key; some (s, result)
  perform s (put key v) = strmap_put tree s key v
  perform s (erase key) = strmap_erase tree s key

  -- The tree holds one node for each key, under the key's hash, with the value of the function.
  pub record Maps (s : tree.State) (m : View V) : Type 0 where
    pub distinct : Distinct (nodes tree s)
    pub hashed : Hashed (nodes tree s)
    pub values : (key : List ℕ) → find (nodes tree s) key ≡ m key

  abbrev pub Acts : View V × (Bool × Option V) → tree.State × Found tree → Type 0
  Acts (m, expected) (s, result) = Maps s m × (result ≡ expected)

  -- What ss_strmap_lookup finds.
  pub data Looked (s : tree.State) (m : View V) (key : List ℕ) : Type 0 where
    at_none :
        (hash : ℕ)
        → strmap_lookup tree s key ≡ some (hash, none)
        → string_hash (key ++ (0 ∷ [])) ≡ some hash
        → m key ≡ none
        → Looked s m key
    at_node :
        (hash i : ℕ) (n : MapNode V)
        → strmap_lookup tree s key ≡ some (hash, some i)
        → get_elem? (nodes tree s) i ≡ some n
        → n.key ≡ key
        → m key ≡ some n.value
        → Looked s m key

  module _ (laws : IsTree tree) (s : tree.State) (m : View V) (maps : Maps s m) where
    looked : (key : List ℕ) → Looked s m key
    unfolding strmap_lookup
    looked key =
        let (hash, hashes) = string_hash_runs key in
        elim (Option-cases (tree.lookup s hash key)) [
          | inl e ↦
              let missing = find_missing (nodes tree s) key λ i n at same.
                let h = Hashed-get_elem? i n (nodes tree s) at maps.hashed in
                let h' : string_hash (key ++ (0 ∷ [])) ≡ some n.hash =
                  subst (λ k. string_hash (k ++ (0 ∷ [])) ≡ some n.hash) same h in
                laws.missed s hash key i n e at (some-injective _ _ (sym h' ∙ hashes)) same in
              at_none hash (rw (hashes, e) refl) hashes (sym (maps.values key) ∙ missing)
          | inr (i, e) ↦
              let (n, at, same_hash, same) = laws.found s hash key i e in
              let value = find-get_elem? i n (nodes tree s) at maps.distinct in
              at_node hash i n (rw (hashes, e) refl) at same
                (sym (maps.values key) ∙ ap (find (nodes tree s)) (sym same) ∙ value)
        ]

    get-Acts : (key : List ℕ) → Succeeds (Acts (act m (get key))) (perform s (get key))
    unfolding act perform strmap_get
    get-Acts key = elim (looked key) [
      | at_none hash runs hashes e ↦ ((s, (false, none)), rw runs refl, (maps, rw e refl))
      | at_node hash i n runs at same e ↦
          ((s, (true, some n.value)), rw (runs, at) refl, (maps, rw e refl))
    ]

    put-Acts : (key : List ℕ) (v : V) → Succeeds (Acts (act m (put key v))) (perform s (put key v))
    unfolding act perform strmap_put
    put-Acts key v = elim (looked key) [
      | at_none hash runs hashes e ↦
          let n = strmap_node_create tree key hash v in
          let (i, inserted) = laws.inserted s n in
          let new : find (nodes tree s) key ≡ none = maps.values key ∙ e in
          (
            (tree.insert s n, (false, none)),
            rw runs refl,
            (
              record {
                distinct =
                    subst Distinct (sym inserted)
                      (Distinct-insert_at i n (nodes tree s) new maps.distinct);
                hashed =
                    subst Hashed (sym inserted)
                      (Hashed-insert_at i n (nodes tree s) hashes maps.hashed);
                values = λ k.
                    ap (λ ns. find ns k) inserted
                    ∙ find-insert_at i n (nodes tree s) k new
                    ∙ ap (λ o. if key_eq key k then some v else o) (maps.values k);
              },
              rw e refl,
            ),
          )
      | at_node hash i n runs at same e ↦
          let assigned = laws.assigned s i v n at in
          (
            (tree.assign s i v, (true, some n.value)),
            rw (runs, at) refl,
            (
              record {
                distinct =
                    subst Distinct (sym assigned)
                      (Distinct-set i n v (nodes tree s) at maps.distinct);
                hashed = subst Hashed (sym assigned) (
                    Hashed-set i (record n { value = v }) (nodes tree s)
                      (Hashed-get_elem? i n (nodes tree s) at maps.hashed) maps.hashed);
                values = λ k.
                    ap (λ ns. find ns k) assigned
                    ∙ find-set i n v (nodes tree s) k at maps.distinct
                    ∙ rw (same, maps.values k) refl;
              },
              rw e refl,
            ),
          )
    ]

    erase-Acts : (key : List ℕ) → Succeeds (Acts (act m (erase key))) (perform s (erase key))
    unfolding act perform strmap_erase
    erase-Acts key = elim (looked key) [
      | at_none hash runs hashes e ↦ (
        (s, (false, none)),
        rw runs refl,
        (
          record {
            distinct = maps.distinct;
            hashed = maps.hashed;
            values = λ k. maps.values k ∙ unchanged m key k e;
          },
          rw e refl,
        ),
      )
      | at_node hash i n runs at same e ↦
          let deleted = laws.deleted s i in
          (
            (tree.delete s i, (true, some n.value)),
            rw (runs, at) refl,
            (
              record {
                distinct =
                    subst Distinct (sym deleted)
                      (Distinct-remove_at i n (nodes tree s) at maps.distinct);
                hashed = subst Hashed (sym deleted) (Hashed-remove_at i (nodes tree s) maps.hashed);
                values = λ k.
                    ap (λ ns. find ns k) deleted
                    ∙ find-remove_at i n (nodes tree s) k at maps.distinct
                    ∙ rw (same, maps.values k) refl;
              },
              rw e refl,
            ),
          )
    ]

  perform-Acts :
      (laws : IsTree tree) (s : tree.State) (m : View V) (c : Command V)
      → Maps s m
      → Succeeds (Acts (act m c)) (perform s c)
  perform-Acts laws s m (get key) maps = get-Acts laws s m maps key
  perform-Acts laws s m (put key v) maps = put-Acts laws s m maps key v
  perform-Acts laws s m (erase key) maps = erase-Acts laws s m maps key

  -- The calls one after another, and what they return.
  unfoldable pub run_calls : tree.State → List (Command V) → Option (tree.State × List (Found tree))
  run_calls s [] = some (s, [])
  run_calls s (c ∷ cs) = do
    (s', result) ← perform s c
    (s'', results) ← run_calls s' cs
    some (s'', result ∷ results)

  abbrev pub act_calls : View V → List (Command V) → View V × List (Bool × Option V)
  act_calls m [] = (m, [])
  act_calls m (c ∷ cs) =
      let (m', result) = act m c in let (m'', results) = act_calls m' cs in (m'', result ∷ results)

  -- Any calls of ss_strmap_get, ss_strmap_put and ss_strmap_erase, on a map that stands for a
  -- function from keys to values, run through without a fault and return what the same calls return
  -- on the function; the map stands for what they make of it.
  pub run_calls-act_calls :
      (laws : IsTree tree) (s : tree.State) (m : View V) (cs : List (Command V))
      → Maps s m
      → Succeeds
          (λ (s', results). Maps s' (act_calls m cs).0 × (results ≡ (act_calls m cs).1))
          (run_calls s cs)
  unfolding run_calls
  run_calls-act_calls laws s m [] maps = ((s, []), refl, (maps, refl))
  run_calls-act_calls laws s m (c ∷ cs) maps =
      let ((s', r), runs, (maps', e)) = perform-Acts laws s m c maps in
      let ((s'', rs), runs', (maps'', e')) = run_calls-act_calls laws s' (act m c).0 cs maps' in
      ((s'', r ∷ rs), rw (runs, runs') refl, (maps'', rw (e, e') refl))
