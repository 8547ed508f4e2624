-- ===== src/StringMap/Hashes.antt =====
-- ss_string_hash of the keys, and nodes that stand under the hashes of their keys.
use Prim.Native.Nat.{bit_or, bit_xor}
use simple_socks.Common.{
  ℕ, zero, suc, ◌-◌, ◌*◌, ◌^◌, ◌≡◌, refl, subst, inl, inr, Bool-cases, some, some-injective, List,
  [], ◌∷◌, ◌++◌, ◌==◌, get_elem?, set, arith,
}
use simple_socks.StringMap.{hash_loop, string_hash, MapNode, insert_at, remove_at}

-- ss_string_hash runs through on a string with its end.
hash_loop_runs :
    (str : List ℕ) (shift tmp total : ℕ)
    → (hash : ℕ) × (hash_loop (str ++ (0 ∷ [])) shift tmp total ≡ some hash)
unfolding hash_loop
hash_loop_runs [] shift tmp total = (_, refl)
hash_loop_runs (ch ∷ str) shift tmp total = elim (Bool-cases (ch == 0)) [
  | inl e ↦ (bit_xor total tmp, rw e refl)
  | inr e ↦ elim (Bool-cases (shift == 0)) [
    | inl e' ↦
        let (hash, runs) = hash_loop_runs str 24 0 (bit_xor total (bit_or tmp (ch * 2 ^ shift))) in
        (hash, rw (e, e') runs)
    | inr e' ↦
        let (hash, runs) = hash_loop_runs str (shift - 8) (bit_or tmp (ch * 2 ^ shift)) total in
        (hash, rw (e, e') runs)
  ]
]

pub string_hash_runs : (key : List ℕ) → (hash : ℕ) × (string_hash (key ++ (0 ∷ [])) ≡ some hash)
unfolding string_hash
string_hash_runs key = hash_loop_runs key 24 0 0

module _ {V : Type 0} where
  -- Each node has the hash of its key.
  abbrev pub Hashed : List (MapNode V) → Type 0
  Hashed [] = Unit
  Hashed (n ∷ ns) = (string_hash (n.key ++ (0 ∷ [])) ≡ some n.hash) × Hashed ns

  pub Hashed-get_elem? :
      (i : ℕ) (n : MapNode V) (ns : List (MapNode V))
      → get_elem? ns i ≡ some n
      → Hashed ns
      → string_hash (n.key ++ (0 ∷ [])) ≡ some n.hash
  Hashed-get_elem? i n [] at hashed = ground arith
  Hashed-get_elem? zero n (m ∷ ns) at (here, hashed) =
      subst (λ (k : MapNode V). string_hash (k.key ++ (0 ∷ [])) ≡ some k.hash)
        (some-injective _ _ at) here
  Hashed-get_elem? (suc i) n (m ∷ ns) at (here, hashed) = Hashed-get_elem? i n ns at hashed

  pub Hashed-insert_at :
      (i : ℕ) (n : MapNode V) (ns : List (MapNode V))
      → string_hash (n.key ++ (0 ∷ [])) ≡ some n.hash
      → Hashed ns
      → Hashed (insert_at i n ns)
  Hashed-insert_at zero n ns new hashed = (new, hashed)
  Hashed-insert_at (suc i) n [] new hashed = (new, hashed)
  Hashed-insert_at (suc i) n (m ∷ ns) new (here, hashed) =
      (here, Hashed-insert_at i n ns new hashed)

  pub Hashed-set :
      (i : ℕ) (n : MapNode V) (ns : List (MapNode V))
      → string_hash (n.key ++ (0 ∷ [])) ≡ some n.hash
      → Hashed ns
      → Hashed (set ns i n)
  Hashed-set i n [] new hashed = tt
  Hashed-set zero n (m ∷ ns) new (here, hashed) = (new, hashed)
  Hashed-set (suc i) n (m ∷ ns) new (here, hashed) = (here, Hashed-set i n ns new hashed)

  pub Hashed-remove_at : (i : ℕ) (ns : List (MapNode V)) → Hashed ns → Hashed (remove_at i ns)
  Hashed-remove_at i [] hashed = tt
  Hashed-remove_at zero (m ∷ ns) (here, hashed) = hashed
  Hashed-remove_at (suc i) (m ∷ ns) (here, hashed) = (here, Hashed-remove_at i ns hashed)
