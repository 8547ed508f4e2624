-- ===== src/Network/Accept.antt =====
-- A connection that a listening socket accepts: what it leaves of the list and of the items.
use simple_socks.Common.{
  ℕ, ◌≡◌, refl, sym, ap, ◌∙◌, ◌≢◌, inl, inr, true, false, Option, none, some, [], ◌∷◌, ◌++◌, arith,
  Succeeds, Succeeds-if, Option-cases, ne→==,
}
use simple_socks.LinkedList.{LinkedList, remove}
use simple_socks.LinkedList
use simple_socks.LinkedList.Chain.{Items, has, IsList, all_nodes, has-append}
use simple_socks.LinkedList.Refines.{append-IsList}
use simple_socks.Network.{
  Connection, Listening, connection, Item, Program, Network, put_item, item_at, item_create,
  body_uninitialize, item_delete, accepts_connection, add_accepted, drop_accepted, handle_listening,
  connection_initialize,
}
use simple_socks.Network.Listed.{
  Memory, linked, pointed, Owned, Owned-frame, Owned-append, not_pointed, pointed-append,
}
use simple_socks.Network.Handle.{Registered, Moved}

module _ (program : Program) (net : Network program) (xs : Items)
    (registered : Registered program net xs) (p at node_at : ℕ) (at0 : at ≢ 0)
    (free : net.items at ≡ none) (node0 : node_at ≢ 0)
    (out : has node_at (all_nodes net.item_list xs) ≡ false) where
  -- The items in memory are those of the network, but at `at`.
  abbrev But : Memory → Type 0
  But items = (q : ℕ) → q ≢ at → items q ≡ net.items q

  abbrev with_items : Memory → program.World → Network program
  with_items items world = record net { items = items; world = world }

  unlisted : pointed at xs ≡ false
  unlisted = not_pointed net.items at xs registered.owned free

  Owned-but : (items : Memory) → But items → Owned items xs
  Owned-but items same = Owned-frame net.items items xs registered.owned λ q j. same q λ e.
      let j' : pointed at xs ≡ true = ap (λ r. pointed r xs) (sym e) ∙ j in
      ground (arith, sym unlisted ∙ j')

  But-put : (items : Memory) (item : Option Item) → But items → But (put_item items at item)
  But-put items item same q ne = let other = same q ne in ground arith

  -- No connection was added.
  with_items-Moved :
      (items : Memory) (world : program.World)
      → But items
      → Moved program net xs p at node_at (with_items items world)
  with_items-Moved items world same = record {
    items_left = xs;
    registered = record { list = registered.list; owned = Owned-but items same };
    others = λ q ne ne'. same q ne';
    still = λ q ne j. j;
    nodes_out = λ n ne out'. out';
    same_list = refl;
  }

  drop_accepted-Moved :
      (items : Memory) (fd : ℕ) (c : Connection) (world : program.World)
      → But items
      → items at ≡ some (linked 0 c)
      → Succeeds
          (Moved program net xs p at node_at)
          (drop_accepted program (with_items items world) at fd)
  unfolding drop_accepted item_delete item_at
  drop_accepted-Moved items fd c world same here = (
    with_items (put_item items at none)
        (body_uninitialize program (connection c) (program.close world fd)),
    rw (ne→== at 0 at0, here) refl,
    with_items-Moved (put_item items at none) _ (But-put items none same),
  )

  nodes_out_lem :
      (n : ℕ)
      → n ≢ node_at
      → has n (all_nodes net.item_list xs) ≡ false
      → has n (all_nodes net.item_list (xs ++ ((node_at, at) ∷ []))) ≡ false
  nodes_out_lem n ne out' =
      let end : Items = (net.item_list.tail, 0) ∷ [] in
      let e = has-append n xs end in
      let e' = has-append n (xs ++ ((node_at, at) ∷ [])) end in
      let e'' = has-append n xs ((node_at, at) ∷ []) in ground arith

  listed-Moved :
      (items : Memory) (nodes : LinkedList.Store) (c : Connection) (world : program.World)
      → But items
      → IsList net.item_list nodes (xs ++ ((node_at, at) ∷ []))
      → Moved program net xs p at node_at (record net {
        items = put_item items at (some (linked node_at c));
        nodes = nodes;
        world = world;
      })
  listed-Moved items nodes c world same list =
      let items' = put_item items at (some (linked node_at c)) in
      let here : items' at ≡ some (linked node_at c) = ground arith in
      record {
        items_left = xs ++ ((node_at, at) ∷ []);
        registered = record {
          list = list;
          owned =
              Owned-append items' node_at at c xs
                (Owned-but items' (But-put items (some (linked node_at c)) same)) at0 here unlisted;
        };
        others = λ q ne ne'. But-put items (some (linked node_at c)) same q ne';
        still = λ q ne j. pointed-append q node_at at xs ∙ rw j refl;
        nodes_out = λ n ne out'. nodes_out_lem n ne out';
        same_list = refl;
      }

  add_accepted-Moved :
      (items : Memory) (fd : ℕ) (c : Connection) (world : program.World)
      → But items
      → items at ≡ some (linked 0 c)
      → Succeeds
          (Moved program net xs p at node_at)
          (add_accepted program (with_items items world) at node_at fd c)
  unfolding add_accepted
  add_accepted-Moved items fd c world same here =
      let (nodes, runs, list) =
        append-IsList 0 net.item_list net.nodes node_at at xs registered.list (node0, out) in
      rw runs (
        Succeeds-if (program.epoll_add world fd).0
          (λ _. (_, refl, listed-Moved items nodes c (program.epoll_add world fd).1 same list))
          (λ _. drop_accepted-Moved items fd c (program.epoll_add world fd).1 same here))

  -- ss_network_handle_listening
  pub handle_listening-Moved :
      (l : Listening)
      → Succeeds (Moved program net xs p at node_at) (handle_listening program net at node_at l)
  unfolding handle_listening item_create
  handle_listening-Moved l =
      let (result, world) = program.accept net.world l.fd in
      elim (Option-cases result) [
        | inl e ↦
            rw (handle_listening, e) (_, refl, with_items-Moved net.items world (λ q ne. refl))
        | inr ((fd, address), e) ↦
            let c = record connection_initialize { fd = fd; kind = l.kind; address = address } in
            let (accepted, c', world') = accepts_connection program l c world in
            let created = put_item net.items at (some (linked 0 c)) in
            let items = put_item created at (some (linked 0 c')) in
            let same : But items =
              But-put created (some (linked 0 c'))
                (But-put net.items (some (linked 0 c)) λ q ne. refl) in
            let here : items at ≡ some (linked 0 c') = ground arith in
            rw (handle_listening, e)
              (Succeeds-if accepted (λ _. add_accepted-Moved items fd c' world' same here)
                (λ _. drop_accepted-Moved items fd c' world' same here))
      ]
