-- ===== src/Network/Loop.antt =====
-- The events of one round of ss_network_main_loop.
use simple_socks.Common.{
  ℕ, ◌≡◌, refl, sym, ap, ◌∙◌, ◌≢◌, ◌⊎◌, inl, inr, Bool-cases, true, false, none, some, List, [],
  ◌∷◌, ◌==◌, ==_iff, Succeeds, ne→==,
}
use simple_socks.LinkedList.{Store, node}
use simple_socks.LinkedList.Chain.{Items, has, first, Links, all_nodes}
use simple_socks.Network.{Listening, listening, Program, Network, item_at}
use simple_socks.Network.Main.{Event, handle_event, handle_events}
use simple_socks.Network.Listed.{pointed}
use simple_socks.Network.Handle.{Registered, Moved, handle_connection-Moved}
use simple_socks.Network.Accept.{handle_listening-Moved}

-- An address that holds no node is none of a chain's.
Links-outside :
    (h : Store) (p : ℕ) (xs : Items) (n a : ℕ) → Links h p xs n → h a ≡ none → has a xs ≡ false
Links-outside h p [] n a links free = refl
Links-outside h p ((b, d) ∷ xs) n a (here, links) free = elim (Bool-cases (a == b)) [
  | inl e ↦
      let same : a ≡ b = (==_iff a b).0 e in
      let clash : none ≡ some (node d p (first xs n)) = sym free ∙ ap h same ∙ here in absurd (cc)
  | inr e ↦ rw e (Links-outside h b xs n a links free)
]

-- The events of a round are of different items.
abbrev pub AllApart : Event → List Event → Type 0
AllApart e [] = Unit
AllApart e (e' ∷ es) = (e'.ptr ≢ e.ptr) × AllApart e es

module _ (program : Program) where
  -- The item that listens at `p`.
  pub record Listens (net : Network program) (p : ℕ) : Type 0 where
    pub lnode : ℕ
    pub item : Listening
    pub nonzero : p ≢ 0
    pub in_memory : net.items p ≡ some (record { lnode = lnode; body = listening item })

  -- An event of a connection in the list or of a listening item.
  abbrev pub IsKnown : Network program → Items → Event → Type 0
  IsKnown net xs e = (pointed e.ptr xs ≡ true) ⊎ Listens net e.ptr

  abbrev pub AllKnown : Network program → Items → List Event → Type 0
  AllKnown net xs [] = Unit
  AllKnown net xs (e ∷ es) = IsKnown net xs e × AllApart e es × AllKnown net xs es

  -- malloc gives memory that is not in use.
  pub record Fresh (net : Network program) (e : Event) : Type 0 where
    pub item_nonzero : e.item_address ≢ 0
    pub item_free : net.items e.item_address ≡ none
    pub node_nonzero : e.node_address ≢ 0
    pub node_free : net.nodes e.node_address ≡ none

  -- Memory for an event of a listening item is not in use when the event is handled.
  abbrev pub AllFresh : Network program → List Event → Type 0
  AllFresh net [] = Unit
  AllFresh net (e ∷ es) =
      (Listens net e.ptr → Fresh net e)
      × ((net' : Network program) → handle_event program net e ≡ some net' → AllFresh net' es)

  -- What an event leaves: the list is in order, and the items of other events are known still.
  record Stepped (net : Network program) (xs : Items) (e : Event) (net' : Network program)
      : Type 0 where
    items_left : Items
    registered : Registered program net' items_left
    known : (e' : Event) → e'.ptr ≢ e.ptr → IsKnown net xs e' → IsKnown net' items_left e'

  stepped :
      (net : Network program) (xs : Items) (e : Event) (at node_at : ℕ) (net' : Network program)
      → ((q : ℕ) → q ≢ e.ptr → Listens net q → q ≢ at)
      → Moved program net xs e.ptr at node_at net'
      → Stepped net xs e net'
  stepped net xs e at node_at net' apart moved = record {
    items_left = moved.items_left;
    registered = moved.registered;
    known = λ e' ne k. elim k [
      | inl i ↦ inl (moved.still e'.ptr ne i)
      | inr l ↦ inr (record {
        lnode = l.lnode;
        item = l.item;
        nonzero = l.nonzero;
        in_memory = moved.others e'.ptr ne (apart e'.ptr ne l) ∙ l.in_memory;
      })
    ];
  }

  handle_event-Stepped :
      (net : Network program) (xs : Items) (e : Event)
      → Registered program net xs
      → IsKnown net xs e
      → (Listens net e.ptr → Fresh net e)
      → Succeeds (Stepped net xs e) (handle_event program net e)
  unfolding handle_event item_at
  handle_event-Stepped net xs e registered known fresh = elim known [
    | inl i ↦
        let (net', runs, moved) = handle_connection-Moved program net xs registered e e.ptr 0 i in
        (net', runs, stepped net xs e e.ptr 0 net' (λ q ne l. ne) moved)
    | inr l ↦
        let f = fresh l in
        let out : has e.node_address (all_nodes net.item_list xs) ≡ false =
          Links-outside net.nodes 0 (all_nodes net.item_list xs) 0 e.node_address
            registered.list.links f.node_free in
        let (net', runs, moved) =
          handle_listening-Moved program net xs registered e.ptr e.item_address e.node_address
            f.item_nonzero f.item_free f.node_nonzero out l.item in
        let apart : (q : ℕ) → q ≢ e.ptr → Listens net q → q ≢ e.item_address = λ q ne l' same.
          let clash = sym f.item_free ∙ ap net.items (sym same) ∙ l'.in_memory in absurd (cc) in
        (
          net',
          rw (ne→== e.ptr 0 l.nonzero, l.in_memory) runs,
          stepped net xs e e.item_address e.node_address net' apart moved,
        )
  ]

  AllKnown-Stepped :
      (net net' : Network program) (xs : Items) (e : Event) (es : List Event)
      → (step : Stepped net xs e net') → AllApart e es
      → AllKnown net xs es
      → AllKnown net' step.items_left es
  AllKnown-Stepped net net' xs e [] step apart known = tt
  AllKnown-Stepped net net' xs e (e' ∷ es) step (apart, aparts) (known, rest, all) =
      (step.known e' apart known, rest, AllKnown-Stepped net net' xs e es step aparts all)

  -- The events of a round, of items that differ, each of a connection in the list or of a listening
  -- item when the round starts, run through without a fault, whatever the handlers and the system
  -- calls return, where malloc gives an accepted connection memory that is not in use then, be it
  -- memory that an earlier event of the round freed: the list is in order, and each of its
  -- connections is in memory with its node.
  pub handle_events-Registered :
      (net : Network program) (xs : Items) (es : List Event)
      → Registered program net xs
      → AllKnown net xs es
      → AllFresh net es
      → Succeeds (λ net'. (ys : Items) × Registered program net' ys) (handle_events program net es)
  unfolding handle_events
  handle_events-Registered net xs [] registered known fresh = (net, refl, (xs, registered))
  handle_events-Registered net xs (e ∷ es) registered (known, apart, all) (fresh, later) =
      let (net', runs, step) = handle_event-Stepped net xs e registered known fresh in
      let (net'', runs', result) =
        handle_events-Registered net' step.items_left es step.registered
          (AllKnown-Stepped net net' xs e es step apart all) (later net' runs) in
      (net'', rw runs runs', result)
