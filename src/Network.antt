-- ===== src/Network.antt =====
-- The network loop, src/network/ss_network.c, with ss_connection.c and ss_listening.c: the items in
-- memory, the linked list of those that clients opened, and the world, which holds the rest of the
-- process and the system. malloc's results are arguments.
pub mod Open
pub mod Main
pub mod Listed
pub mod Handle
pub mod Accept
pub mod Loop
mod Faults
mod Tests
use simple_socks.Common.{
  ℕ, zero, suc, ◌+◌, ◌-◌, ◌*◌, ◌/◌, ◌%◌, ◌^◌, Bool, true, false, not, Option, none, some, List, [],
  ◌∷◌, ◌==◌, ◌||◌, leb, length, if◌then◌else◌, ◌>>=◌,
}
use simple_socks.LinkedList.{Store, LinkedList, with_node, deref, remove, uninitialize}
use simple_socks.LinkedList

-- ss_connection_t; a handler is the address of its code, or 0.
pub record Connection : Type 0 where
  pub fd : ℕ
  pub kind : ℕ
  pub address : ℕ
  pub recv_handler : ℕ
  pub send_handler : ℕ
  pub destroy_handler : ℕ
  pub check_status : ℕ
  pub context : ℕ

-- ss_listening_t
pub record Listening : Type 0 where
  pub fd : ℕ
  pub kind : ℕ
  pub address : ℕ
  pub accept_handler : ℕ
  pub destroy_handler : ℕ
  pub context : ℕ

-- The union of ss_network_item_t under its type, NIT_CONNECTION or NIT_LISTENING.
pub data Body : Type 0 where
  connection : Connection → Body
  listening : Listening → Body

-- ss_network_item_t
pub record Item : Type 0 where
  pub lnode : ℕ
  pub body : Body

-- The system calls, and the code of the handlers by its address. fd -1 is `no_fd`.
pub record Program : Type 1 where
  pub World : Type 0
  pub epoll_add : World → ℕ → Bool × World
  pub epoll_del : World → ℕ → Bool × World
  pub close : World → ℕ → World
  pub accept : World → ℕ → Option (ℕ × ℕ) × World
  pub socket : World → ℕ → ℕ → Option ℕ × World
  pub set_up_listening : World → ℕ → ℕ → Bool × World
  pub set_up_connection : World → ℕ → ℕ → Bool × World
  pub callback_poll : World → World
  pub on_connection : ℕ → Connection → World → Connection × World
  pub on_status : ℕ → Connection → World → Bool × Connection × World
  pub on_accept : ℕ → Listening → Connection → World → Bool × Connection × World
  pub on_destroy : ℕ → Body → World → World

-- ss_connection_initialize
abbrev pub no_fd : ℕ
no_fd = 2 ^ 32 - 1

abbrev pub connection_initialize : Connection
connection_initialize = record {
  fd = no_fd;
  kind = 0;
  address = 0;
  recv_handler = 0;
  send_handler = 0;
  destroy_handler = 0;
  check_status = 0;
  context = 0;
}

-- ss_listening_initialize
abbrev pub listening_initialize : Listening
listening_initialize = record {
  fd = no_fd;
  kind = 0;
  address = 0;
  accept_handler = 0;
  destroy_handler = 0;
  context = 0;
}

-- EPOLLIN, EPOLLOUT, EPOLLERR and EPOLLRDHUP as the numbers of their bits.
abbrev pub event : ℕ → ℕ → Bool
event events bit = (events / 2 ^ bit) % 2 == 1

-- ss_network_item_fd
abbrev pub item_fd : Item → ℕ
item_fd item = elim (item.body) [ connection c ↦ c.fd | listening l ↦ l.fd ]

abbrev pub put_item : (ℕ → Option Item) → ℕ → Option Item → ℕ → Option Item
put_item items p c a = if a == p then c else items a

module _ (program : Program) where
  pub record Network : Type 0 where
    pub items : ℕ → Option Item
    pub nodes : Store
    pub item_list : LinkedList
    pub world : program.World

  -- *nitem
  unfoldable pub item_at : Network → ℕ → Option Item
  item_at net p = if p == 0 then none else net.items p

  -- nitem->item.connection = c
  abbrev pub keep_connection : Network → ℕ → Item → Connection → program.World → Network
  keep_connection net p item c world = record net {
    items = put_item net.items p (some (record item { body = connection c }));
    world = world;
  }

  -- ss_network_item_create, where malloc gives the address `at`
  unfoldable pub item_create : Network → ℕ → Body → Network
  item_create net at body = record net {
    items = put_item net.items at (some (record { lnode = 0; body = body }));
  }

  -- ss_connection_uninitialize and ss_listening_uninitialize
  unfoldable pub body_uninitialize : Body → program.World → program.World
  body_uninitialize (connection c) world =
      if c.destroy_handler == 0
      then world
      else program.on_destroy c.destroy_handler (connection c) world
  body_uninitialize (listening l) world =
      if l.destroy_handler == 0
      then world
      else program.on_destroy l.destroy_handler (listening l) world

  -- ss_network_item_delete
  unfoldable pub item_delete : Network → ℕ → Option Network
  item_delete net p = if p == 0 then some net else do
    item ← item_at net p
    some (record net {
      items = put_item net.items p none;
      world = body_uninitialize item.body net.world;
    })

  -- ss_network_item_close
  unfoldable pub item_close : Network → ℕ → ℕ → Option Network
  item_close net p fd = do
    let (_, world) = program.epoll_del net.world fd
    let closed = program.close world fd
    item ← item_at net p
    nodes ← remove net.nodes item.lnode
    item_delete (record net { nodes = nodes; world = closed }) p

  -- A handler of a connection, if there is one.
  unfoldable pub handle : ℕ → Connection → program.World → Connection × program.World
  handle handler c world =
      if handler == 0 then (c, world) else program.on_connection handler c world

  -- check_status, and whether the connection may stay
  unfoldable pub stays : Connection → program.World → Bool × Connection × program.World
  stays c world =
      if c.check_status == 0 then (true, c, world) else program.on_status c.check_status c world

  -- The connection after ss_network_handle_connection, and whether it may stay.
  unfoldable pub connection_events :
      ℕ → Connection → program.World → Bool × Connection × program.World
  connection_events events c world =
      let (c1, world1) = if event events 0 then handle c.recv_handler c world else (c, world) in
      let (c2, world2) =
        if event events 2 then handle c1.send_handler c1 world1 else (c1, world1) in
      if event events 3 || event events 13 then (false, c2, world2) else stays c2 world2

  -- ss_network_handle_connection
  unfoldable pub handle_connection : ℕ → Network → ℕ → Item → Connection → Option Network
  handle_connection events net p item c =
      let (stay, c', world) = connection_events events c net.world in
      let net' = keep_connection net p item c' world in
      let closing = item_close net' p c'.fd in if stay then some net' else closing

  -- A connection that ss_network_handle_listening rejects, or fails to add to epoll.
  unfoldable pub drop_accepted : Network → ℕ → ℕ → Option Network
  drop_accepted net at fd = item_delete (record net { world = program.close net.world fd }) at

  -- The accepted connection is added to epoll and to the list.
  unfoldable pub add_accepted : Network → ℕ → ℕ → ℕ → Connection → Option Network
  add_accepted net at node_at fd c = do
    let (added, world) = program.epoll_add net.world fd
    let net' = record net { world = world }
    let dropped = drop_accepted net' at fd
    let listed : Option Network = do
      nodes ← LinkedList.append net.nodes net.item_list node_at at
      some (record net' {
        items = put_item net.items at (some (record { lnode = node_at; body = connection c }));
        nodes = nodes;
      })
    if added then listed else dropped

  -- accpet_handler, if there is one
  unfoldable pub accepts_connection :
      Listening → Connection → program.World → Bool × Connection × program.World
  accepts_connection l c world =
      if l.accept_handler == 0
      then (true, c, world)
      else program.on_accept l.accept_handler l c world

  -- ss_network_handle_listening
  unfoldable pub handle_listening : Network → ℕ → ℕ → Listening → Option Network
  handle_listening net at node_at l =
      let (result, world) = program.accept net.world l.fd in
      elim result [
        | none ↦ some (record net { world = world })
        | some (fd, address) ↦
            let c = record connection_initialize { fd = fd; kind = l.kind; address = address } in
            let created = item_create net at (connection c) in
            let (accepted, c', world') = accepts_connection l c world in
            let net' =
              keep_connection created at (record { lnode = 0; body = connection c }) c' world' in
            let added = add_accepted net' at node_at fd c' in
            let dropped = drop_accepted net' at fd in if accepted then added else dropped
      ]
