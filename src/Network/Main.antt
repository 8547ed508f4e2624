-- ===== src/Network/Main.antt =====
-- ss_network_main_loop and ss_network_stop, src/network/ss_network.c.
use simple_socks.Common.{
  ℕ, zero, suc, Option, none, some, List, [], ◌∷◌, ◌==◌, leb, length, if◌then◌else◌, ◌>>=◌,
}
use simple_socks.LinkedList.{with_node, deref, uninitialize}
use simple_socks.Network.{
  connection, listening, Program, Network, item_fd, item_at, item_close, handle_connection,
  handle_listening,
}

-- An event of epoll_wait, with the addresses that malloc gives if a connection is accepted.
pub record Event : Type 0 where
  pub events : ℕ
  pub ptr : ℕ
  pub item_address : ℕ
  pub node_address : ℕ

module _ (program : Program) where
  -- The loop of ss_network_stop, from a node on. The data of the node are set and its next pointer
  -- is read after its item was closed.
  unfoldable pub close_items : ℕ → Network program → ℕ → Option (Network program)
  close_items zero net p = none
  close_items (suc fuel) net p = do
    let close_one : Option (Network program) = do
      n ← deref net.nodes p
      let closing =
          item_at program net n.content >>= λ item. item_close program net n.content (item_fd item)
      net' ← if n.content == 0 then some net else closing
      n' ← deref net'.nodes p
      let nodes = with_node net'.nodes p (some (record n' { content = 0 }))
      close_items fuel (record net' { nodes = nodes }) n'.next
    if p == net.item_list.tail then some net else close_one

  -- ss_network_stop, less ss_callback_stop: a call of the null release function is a fault.
  unfoldable pub network_stop : ℕ → Network program → Option (Network program)
  network_stop fuel net = do
    head ← deref net.nodes net.item_list.head
    net' ← close_items fuel net head.next
    (nodes, released) ← uninitialize fuel net'.nodes net'.item_list
    if leb (length released) 0 then some (record net' { nodes = nodes }) else none

  -- One event in ss_network_main_loop
  unfoldable pub handle_event : Network program → Event → Option (Network program)
  handle_event net e = if e.ptr == 0 then some net else do
    item ← item_at program net e.ptr
    elim (item.body) [
      | connection c ↦ handle_connection program e.events net e.ptr item c
      | listening l ↦ handle_listening program net e.item_address e.node_address l
    ]

  -- The inner loop of ss_network_main_loop
  unfoldable pub handle_events : Network program → List Event → Option (Network program)
  handle_events net [] = some net
  handle_events net (e ∷ es) = do net' ← handle_event net e; handle_events net' es

  -- ss_network_main_loop, over what epoll_wait returns in each round, until it fails.
  unfoldable pub main_loop : Network program → List (Option (List Event)) → Option (Network program)
  main_loop net [] = some net
  main_loop net (none ∷ rounds) = some net
  main_loop net (some es ∷ rounds) = do
    net' ← handle_events net es
    main_loop (record net' { world = program.callback_poll net'.world }) rounds
