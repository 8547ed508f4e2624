-- ===== src/Network/Tests.antt =====
-- The theorems at a network with one connection and one listening item.
use simple_socks.Common.{
  ℕ, ◌+◌, ◌≡◌, refl, sym, ap, ◌∙◌, true, false, Option, none, some, [], ◌∷◌, ◌==◌, if◌then◌else◌,
  arith, inl, inr, Succeeds,
}
use simple_socks.LinkedList.{
  Store, node, remove, node_detach, set_next, set_prev, link_next, link_prev, free, deref,
  with_node,
}
use simple_socks.LinkedList.Chain.{Items}
use simple_socks.Network.{
  Connection, Listening, connection, listening, Item, Program, Network, connection_initialize,
  listening_initialize, item_close, item_create, handle_connection, item_at, item_delete,
  connection_events, stays, handle,
}
use simple_socks.Network.Open.{network_connect}
use simple_socks.Network.Main.{network_stop, Event, handle_event, handle_events}
use simple_socks.Network.Listed.{linked}
use simple_socks.Network.Handle.{Registered}
use simple_socks.Network.Loop.{AllKnown, AllFresh, handle_events-Registered}
use simple_socks.Network.Faults.{item_close-network_connect, network_stop-faults}

-- A system where every call succeeds, and handlers that end each connection.
abbrev calm : Program
calm = record {
  World = ℕ;
  epoll_add = λ w fd. (true, w);
  epoll_del = λ w fd. (true, w);
  close = λ w fd. w + 1;
  accept = λ w fd. (some (5, 0), w);
  socket = λ w kind address. (some 6, w);
  set_up_listening = λ w fd address. (true, w);
  set_up_connection = λ w fd address. (true, w);
  callback_poll = λ w. w;
  on_connection = λ handler c w. (c, w);
  on_status = λ handler c w. (false, c, w);
  on_accept = λ handler l c w. (true, c, w);
  on_destroy = λ handler body w. w;
}

abbrev client : Connection
client = record connection_initialize { fd = 4; check_status = 8 }

abbrev server : Listening
server = record listening_initialize { fd = 3 }

-- The connection at 10, with the node at 3 between the sentinels at 1 and 2; the listening item at 11.
abbrev nodes : Store
nodes p =
    if p == 1
    then some (node 0 0 3)
    else if p == 3
    then some (node 10 1 2)
    else if p == 2
    then some (node 0 3 0)
    else none

abbrev items : ℕ → Option Item
items p =
    if p == 10
    then some (linked 3 client)
    else if p == 11
    then some (record { lnode = 0; body = listening server })
    else none

abbrev network : Network calm
network = record {
  items = items;
  nodes = nodes;
  item_list = record { head = 1; tail = 2 };
  world = 0;
}

abbrev held : Items
held = (3, 10) ∷ []

network-Registered : Registered calm network held
network-Registered = record {
  list = record {
    links = (refl, (refl, (refl, tt)));
    distinct = (ground arith, refl, (ground arith, refl, (ground arith, refl, tt)));
  };
  owned = (ground arith, (client, refl), refl, tt);
}

-- The connection's event, and the listening item's, whose memory is what the first one frees.
abbrev leaving : Event
leaving = record { events = 1; ptr = 10; item_address = 20; node_address = 21 }

abbrev arriving : Event
arriving = record { events = 1; ptr = 11; item_address = 10; node_address = 3 }

abbrev items_of : Option (Network calm) → ℕ → Option Item
items_of none p = none
items_of (some net) p = net.items p

abbrev nodes_of : Option (Network calm) → Store
nodes_of none p = none
nodes_of (some net) p = net.nodes p

leaving-item : items_of (handle_event calm network leaving) 10 ≡ none
unfolding handle_event handle_connection item_at item_close item_delete remove node_detach set_next
    set_prev link_next link_prev free deref with_node connection_events stays handle
leaving-item = refl

leaving-node : nodes_of (handle_event calm network leaving) 3 ≡ none
unfolding handle_event handle_connection item_at item_close item_delete remove node_detach set_next
    set_prev link_next link_prev free deref with_node connection_events stays handle
leaving-node = refl

round-AllKnown : AllKnown calm network held (leaving ∷ arriving ∷ [])
round-AllKnown = (
  inl refl,
  (ground arith, tt),
  (inr (record { lnode = 0; item = server; nonzero = ground arith; in_memory = refl }), tt, tt),
)

round-AllFresh : AllFresh calm network (leaving ∷ arriving ∷ [])
round-AllFresh = (
  λ l. record {
    item_nonzero = ground arith;
    item_free = refl;
    node_nonzero = ground arith;
    node_free = refl;
  },
  λ net' runs. (
    λ l. record {
      item_nonzero = ground arith;
      item_free = ap (λ r. items_of r 10) (sym runs) ∙ leaving-item;
      node_nonzero = ground arith;
      node_free = ap (λ r. nodes_of r 3) (sym runs) ∙ leaving-node;
    },
    λ net'' runs'. tt,
  ),
)

handle_events-Registered_example :
    Succeeds
      (λ net'. (ys : Items) × Registered calm net' ys)
      (handle_events calm network (leaving ∷ arriving ∷ []))
handle_events-Registered_example =
    handle_events-Registered calm network held (leaving ∷ arriving ∷ []) network-Registered
      round-AllKnown round-AllFresh

network_stop-faults_example : network_stop calm 9 network ≡ none
network_stop-faults_example = network_stop-faults calm 9 network 3 10 [] network-Registered

abbrev opened_network : Network calm
opened_network =
    item_create calm network 40
      (connection (record connection_initialize { fd = 6; kind = 1; address = 7 }))

network_connect-runs : network_connect calm network 40 1 7 ≡ some (opened_network, 40)
unfolding network_connect item_create
network_connect-runs = refl

item_close-network_connect_example : item_close calm opened_network 40 6 ≡ none
item_close-network_connect_example =
    item_close-network_connect calm network opened_network 40 1 7 6 (ground arith)
      network_connect-runs
