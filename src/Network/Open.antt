-- ===== src/Network/Open.antt =====
-- ss_network_listen and ss_network_connect, src/network/ss_network.c.
use simple_socks.Common.{ℕ, Bool, Option, none, some, if◌then◌else◌, ◌>>=◌}
use simple_socks.Network.{
  connection, listening, Program, Network, no_fd, connection_initialize, listening_initialize,
  item_create, item_delete,
}

-- The fd of a socket, or -1
abbrev pub opened_fd : Option ℕ → ℕ
opened_fd none = no_fd
opened_fd (some fd) = fd

-- The end of ss_network_listen and ss_network_connect: without a socket, where a call fails, and
-- where all succeed.
abbrev pub opened : {A : Type 0} → Option ℕ → Bool → A → A → A → A
opened none ready unopened failed done = unopened
opened (some fd) ready unopened failed done = if ready then done else failed

module _ (program : Program) where
  -- _l_failed of ss_network_listen and ss_network_connect: no item
  unfoldable pub drop_opened : Network program → ℕ → ℕ → Option (Network program × ℕ)
  drop_opened net at fd = do
    let (_, world) = program.epoll_del net.world fd
    net' ← item_delete program (record net { world = program.close world fd }) at
    some (net', 0)

  -- ss_network_listen: the item, or 0
  unfoldable pub network_listen : Network program → ℕ → ℕ → ℕ → Option (Network program × ℕ)
  network_listen net at kind address =
      let (result, world) = program.socket net.world kind address in
      let fd = opened_fd result in
      let l = record listening_initialize { fd = fd; kind = kind; address = address } in
      let (_, world1) = program.epoll_add world fd in
      let (ready, world2) = program.set_up_listening world1 fd address in
      let created = item_create program net at (listening l) in
      let failed = drop_opened (record created { world = world1 }) at fd in
      let failed' = drop_opened (record created { world = world2 }) at fd in
      opened result ready failed failed' (some (record created { world = world2 }, at))

  -- ss_network_connect: the item, or 0
  unfoldable pub network_connect : Network program → ℕ → ℕ → ℕ → Option (Network program × ℕ)
  network_connect net at kind address =
      let (result, world) = program.socket net.world kind address in
      let fd = opened_fd result in
      let c = record connection_initialize { fd = fd; kind = kind; address = address } in
      let (_, world1) = program.epoll_add world fd in
      let (ready, world2) = program.set_up_connection world1 fd address in
      let created = item_create program net at (connection c) in
      let failed = drop_opened (record created { world = world1 }) at fd in
      let failed' = drop_opened (record created { world = world2 }) at fd in
      opened result ready failed failed' (some (record created { world = world2 }, at))
