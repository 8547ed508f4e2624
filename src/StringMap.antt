-- ===== src/StringMap.antt =====
-- The string map, src/util/ss_strmap.c, on a tree of nodes, with src/util/ss_string_utils.c's hash.
-- The tree is a parameter: its operations and what the map relies on.
use Prim.Native.Nat.{bit_or, bit_xor}
use simple_socks.Common.{
  ℕ, zero, suc, ◌+◌, ◌-◌, ◌*◌, ◌^◌, ◌≤◌, ◌≡◌, ◌≢◌, Bool, true, false, Option, none, some, List, [],
  ◌∷◌, ◌++◌, ◌==◌, if◌then◌else◌, ◌>>=◌, load, length, get_elem?, take, drop, set,
}
pub mod Entries
mod Hashes
mod Refines
mod Tests

-- The loop of ss_string_hash, of a string and its end: the shift of the next byte, the bytes put
-- together so far, and the hash so far. none is a string without an end.
unfoldable pub hash_loop : List ℕ → ℕ → ℕ → ℕ → Option ℕ
hash_loop [] shift tmp total = none
hash_loop (ch ∷ str) shift tmp total =
    let tmp' = bit_or tmp (ch * 2 ^ shift) in
    let rest =
      if shift == 0
      then hash_loop str 24 0 (bit_xor total tmp')
      else hash_loop str (shift - 8) tmp' total in
    if ch == 0 then some (bit_xor total tmp) else rest

-- ss_string_hash
unfoldable pub string_hash : List ℕ → Option ℕ
string_hash str = hash_loop str 24 0 0

module _ (V : Type 0) where
  -- ss_strmap_node_t, without its links
  pub record MapNode : Type 0 where
    pub hash : ℕ
    pub key : List ℕ
    pub value : V

  -- The nodes of a tree and how they hang together; a leaf is the sentinel.
  pub data Shape : Type 0 where
    leaf : Shape
    fork : Shape → MapNode → Shape → Shape

module _ {V : Type 0} where
  -- The nodes from the left to the right.
  abbrev pub in_order : Shape V → List (MapNode V)
  in_order leaf = []
  in_order (fork l n r) = in_order l ++ (n ∷ in_order r)

-- ss_rbtree_t over the map's nodes: a tree whose nodes stand in the order of the hash and the
-- comparator. A pointer to a node is its place from the left.
pub record Tree (V : Type 0) : Type 1 where
  pub State : Type 0
  pub shape : State → Shape V
  pub init : State
  pub lookup : State → ℕ → List ℕ → Option ℕ
  pub insert : State → MapNode V → State
  pub delete : State → ℕ → State
  -- node->value = value
  pub assign : State → ℕ → V → State

-- A list with an entry put in at a place, and with one taken out.
abbrev pub insert_at {ℓ} : {A : Type ℓ} → ℕ → A → List A → List A
insert_at zero x xs = x ∷ xs
insert_at (suc i) x [] = x ∷ []
insert_at (suc i) x (y ∷ ys) = y ∷ insert_at i x ys

abbrev pub remove_at {ℓ} : {A : Type ℓ} → ℕ → List A → List A
remove_at i [] = []
remove_at zero (x ∷ xs) = xs
remove_at (suc i) (x ∷ xs) = x ∷ remove_at i xs

module _ {V : Type 0} (tree : Tree V) where
  abbrev pub nodes : tree.State → List (MapNode V)
  nodes s = in_order (tree.shape s)

  -- What the tree's operations do: lookup finds a node of the hash and the key, if there is one;
  -- the others put in, take out and change one node.
  pub record IsTree : Type 0 where
    pub init_nodes : nodes tree.init ≡ []
    pub found :
        (s : tree.State) (hash : ℕ) (key : List ℕ) (i : ℕ)
        → tree.lookup s hash key ≡ some i
        → (n : MapNode V) × (get_elem? (nodes s) i ≡ some n) × (n.hash ≡ hash) × (n.key ≡ key)
    pub missed :
        (s : tree.State) (hash : ℕ) (key : List ℕ) (i : ℕ) (n : MapNode V)
        → tree.lookup s hash key ≡ none
        → get_elem? (nodes s) i ≡ some n
        → n.hash ≡ hash
        → n.key ≢ key
    pub inserted :
        (s : tree.State) (n : MapNode V)
        → (i : ℕ) × (nodes (tree.insert s n) ≡ insert_at i n (nodes s))
    pub deleted : (s : tree.State) (i : ℕ) → nodes (tree.delete s i) ≡ remove_at i (nodes s)
    pub assigned :
        (s : tree.State) (i : ℕ) (v : V) (n : MapNode V)
        → get_elem? (nodes s) i ≡ some n
        → nodes (tree.assign s i v) ≡ set (nodes s) i (record n { value = v })

  -- ss_strmap_node_initialize and ss_strmap_node_create, of a key and its hash
  abbrev pub strmap_node_create : List ℕ → ℕ → V → MapNode V
  strmap_node_create key hash value = record { hash = hash; key = key; value = value }

  -- ss_strmap_lookup, of a key in memory with its end behind it
  unfoldable pub strmap_lookup : tree.State → List ℕ → Option (ℕ × Option ℕ)
  strmap_lookup s key = do hash ← string_hash (key ++ (0 ∷ [])); some (hash, tree.lookup s hash key)

  -- What an operation returns, and the value that it found.
  abbrev pub Found : Type 0
  Found = Bool × Option V

  -- ss_strmap_get
  unfoldable pub strmap_get : tree.State → List ℕ → Option Found
  strmap_get s key = do
    (_, found) ← strmap_lookup s key
    elim found [
      | none ↦ some (false, none)
      | some i ↦ do n ← load (nodes s) i; some (true, some n.value)
    ]

  -- ss_strmap_put
  unfoldable pub strmap_put : tree.State → List ℕ → V → Option (tree.State × Found)
  strmap_put s key value = do
    (hash, found) ← strmap_lookup s key
    elim found [
      | none ↦ some (tree.insert s (strmap_node_create key hash value), (false, none))
      | some i ↦ do n ← load (nodes s) i; some (tree.assign s i value, (true, some n.value))
    ]

  -- ss_strmap_erase
  unfoldable pub strmap_erase : tree.State → List ℕ → Option (tree.State × Found)
  strmap_erase s key = do
    (_, found) ← strmap_lookup s key
    elim found [
      | none ↦ some (s, (false, none))
      | some i ↦ do n ← load (nodes s) i; some (tree.delete s i, (true, some n.value))
    ]

  module _ {A : Type 0} (function : List ℕ → V → A → A) where
    -- ss_strmap_foreach_inner
    unfoldable pub foreach_inner : Shape V → A → A
    foreach_inner leaf argument = argument
    foreach_inner (fork l n r) argument =
        foreach_inner r (function n.key n.value (foreach_inner l argument))

    -- ss_strmap_foreach
    unfoldable pub strmap_foreach : tree.State → A → A
    strmap_foreach s argument = foreach_inner (tree.shape s) argument

    -- ss_strmap_release_inner
    unfoldable pub release_inner : Shape V → A → A
    release_inner leaf argument = argument
    release_inner (fork l n r) argument =
        function n.key n.value (release_inner r (release_inner l argument))

    -- ss_strmap_clear
    unfoldable pub strmap_clear : tree.State → A → tree.State × A
    strmap_clear s argument = (tree.init, release_inner (tree.shape s) argument)
