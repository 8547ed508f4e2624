-- ===== src/Network/Handle.antt =====
-- One event of the network loop: what it leaves of the list and of the items.
use simple_socks.Common.{
  ℕ, ◌≡◌, refl, sym, ap, ◌∙◌, ◌≢◌, inl, inr, true, false, Bool-cases, none, some, some-injective,
  [], ◌∷◌, ◌==◌, arith, Succeeds, Succeeds-if, ne→==,
}
use simple_socks.LinkedList.Chain.{
  Items, has, Distinct, IsList, all_nodes, Distinct-split, has-append,
}
use simple_socks.LinkedList.Deque.{without}
use simple_socks.LinkedList.Refines.{remove-IsList}
use simple_socks.Network.{
  Connection, connection, Item, Program, Network, put_item, item_at, keep_connection,
  body_uninitialize, item_delete, item_close, connection_events, handle_connection,
}
use simple_socks.Network.Main.{Event, handle_event}
use simple_socks.Network.Listed.{Memory, linked, pointed, Owned, owner, Owned-without, has-without}

same_node : (a b : ℕ) (c d : Connection) → some (linked a c) ≡ some (linked b d) → a ≡ b
same_node a b c d e = ap (λ (i : Item). i.lnode) (some-injective _ _ e)

Owned-keep :
    (items : Memory) (p a : ℕ) (c c' : Connection) (xs : Items)
    → Owned items xs
    → items p ≡ some (linked a c)
    → Owned (put_item items p (some (linked a c'))) xs
Owned-keep items p a c c' [] owned at = tt
Owned-keep items p a c c' ((b, q) ∷ xs) (q0, (d, at_q), out, owned) at =
    let rest = Owned-keep items p a c c' xs owned at in
    elim (Bool-cases (q == p)) [
      | inl e ↦
          let same : q ≡ p = ground arith in
          let node_eq : b ≡ a = same_node b a d c (sym at_q ∙ ap items same ∙ at) in
          (q0, (c', rw (e, node_eq) refl), out, rest)
      | inr e ↦ (q0, (d, rw e at_q), out, rest)
    ]

module _ (program : Program) where
  -- The list of a network stands for `xs`, and each node of it has its item.
  pub record Registered (net : Network program) (xs : Items) : Type 0 where
    pub list : IsList net.item_list net.nodes xs
    pub owned : Owned net.items xs

  -- A step that concerns the item at `p`, with new memory at `at` and `node_at`: the list is in
  -- order, and other items are as they were.
  pub record Moved (net : Network program) (xs : Items) (p at node_at : ℕ) (net' : Network program)
      : Type 0 where
    pub items_left : Items
    pub registered : Registered net' items_left
    pub others : (q : ℕ) → q ≢ p → q ≢ at → net'.items q ≡ net.items q
    pub still : (q : ℕ) → q ≢ p → pointed q xs ≡ true → pointed q items_left ≡ true
    pub nodes_out :
        (n : ℕ)
        → n ≢ node_at
        → has n (all_nodes net.item_list xs) ≡ false
        → has n (all_nodes net.item_list items_left) ≡ false
    pub same_list : net'.item_list ≡ net.item_list

  module _ (net : Network program) (xs : Items) (registered : Registered net xs) where
    Registered-Distinct : Distinct xs
    Registered-Distinct =
        let (_, _, distinct) = registered.list.distinct in
        let (left, _) = Distinct-split xs ((net.item_list.tail, 0) ∷ []) distinct in left

    all_nodes-without :
        (n a : ℕ)
        → has n (all_nodes net.item_list xs) ≡ false
        → has n (all_nodes net.item_list (without a xs)) ≡ false
    all_nodes-without n a out =
        let end : Items = (net.item_list.tail, 0) ∷ [] in
        let e = has-append n xs end in
        let e' = has-append n (without a xs) end in
        let rest = has-without n a xs (ground arith) in ground arith

    -- A connection of the list that is closed leaves the list and the memory.
    item_close-Moved :
        (p a fd at node_at : ℕ) (c : Connection)
        → pointed p xs ≡ true
        → has a xs ≡ true
        → p ≢ 0
        → net.items p ≡ some (linked a c)
        → Succeeds (Moved net xs p at node_at) (item_close program net p fd)
    unfolding item_close item_delete item_at
    item_close-Moved p a fd at node_at c i in_ p0 at_p =
        let (nodes, runs, list) =
          remove-IsList 0 net.item_list net.nodes a xs registered.list in_ in
        let (owned, still) =
          Owned-without net.items p a c xs registered.owned Registered-Distinct i at_p in
        let nonzero : (p == 0) ≡ false = ne→== p 0 p0 in
        (
          record net {
            items = put_item net.items p none;
            nodes = nodes;
            world =
                body_uninitialize program (connection c)
                  (program.close (program.epoll_del net.world fd).1 fd);
          },
          rw (nonzero, at_p, runs) refl,
          record {
            items_left = without a xs;
            registered = record { list = list; owned = owned };
            others = λ q ne ne'. ground arith;
            still = λ q ne j. still q ne ∙ j;
            nodes_out = λ n ne out. all_nodes-without n a out;
            same_list = refl;
          },
        )

  module _ (net : Network program) (xs : Items) (registered : Registered net xs) where
    -- ss_network_handle_connection, for a connection of the list
    pub handle_connection-Moved :
        (e : Event) (at node_at : ℕ)
        → pointed e.ptr xs ≡ true
        → Succeeds (Moved net xs e.ptr at node_at) (handle_event program net e)
    unfolding handle_event handle_connection item_at
    handle_connection-Moved e at node_at i =
        let p = e.ptr in
        let (a, c, at_p, in_, p0) = owner net.items p xs registered.owned i in
        let nonzero : (p == 0) ≡ false = ne→== p 0 p0 in
        let (stay, c', world) = connection_events program e.events c net.world in
        let net' : Network program = keep_connection program net p (linked a c) c' world in
        let registered' : Registered net' xs = record {
          list = registered.list;
          owned = Owned-keep net.items p a c c' xs registered.owned at_p;
        } in
        rw (nonzero, at_p)
          (Succeeds-if stay
            (λ _. (
              net',
              refl,
              record {
                items_left = xs;
                registered = registered';
                others = λ q ne ne'. ground arith;
                still = λ q ne j. j;
                nodes_out = λ n ne out. out;
                same_list = refl;
              },
            ))
            (λ _.
              let here : net'.items p ≡ some (linked a c') = ground arith in
              let (net'', runs, moved) =
                item_close-Moved net' xs registered' p a c'.fd at node_at c' i in_ p0 here in
              (
                net'',
                runs,
                record {
                  items_left = moved.items_left;
                  registered = moved.registered;
                  others = λ q ne ne'. moved.others q ne ne' ∙ ground arith;
                  still = moved.still;
                  nodes_out = moved.nodes_out;
                  same_list = moved.same_list;
                },
              )))
