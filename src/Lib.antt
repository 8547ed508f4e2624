-- ===== src/Lib.antt =====
-- Verification of simple-socks, a SOCKS5 server in C.
--
-- The program. The server (src/server) accepts connections, and for each a session (src/socks5)
-- negotiates an authentication method and checks a user name and password. A session reads and
-- writes through ring buffers (src/util/ss_ring_buffer.c), which call recv() and send(). Names are
-- resolved by a DNS service (src/service), which keeps packets in packet buffers
-- (src/util/ss_packet_buffer.c) and records in a string map (src/util/ss_strmap.c). The network loop
-- (src/network/ss_network.c) waits for events, calls the handlers of each connection, and keeps the
-- connections in a linked list (src/util/ss_linked_list.c). Timeouts are callbacks
-- (src/network/ss_callback.c) in a binary heap (src/util/ss_heap.c). The configuration is read from
-- a file (src/socks5/ss_config.c).
--
-- The modules, and the code that each models:
--   Common         faults, C arrays as lists, size_t and ssize_t with their wrap-around, sockets
--   RingBuffer     src/util/ss_ring_buffer.c; RingBuffer/Stream has what calls recv() and send()
--   Heap           src/util/ss_heap.c
--   PacketBuffer   src/util/ss_packet_buffer.c
--   Socks5         src/socks5/ss_context.h; Socks5/Negotiation has ss_negotiation.c, Socks5/Auth
--                  ss_auth.h and ss_auth_plain.c, Socks5/Server the handlers of
--                  src/server/socks5_server.c, and Socks5/Server/Start its start and its clients'
--                  contexts, with ss_network_prepare, test_server_start and main up to its loop
--   Dns            src/service/ss_dns.c: Dns/Start its start and its connection, Dns/Tids the
--                  transaction ids, Dns/Names names in messages, Dns/Entries the records kept,
--                  Dns/Handlers the handlers and the requests
--   Callback       src/network/ss_callback.c
--   Config         src/util/ss_string_utils.c and src/socks5/ss_config.c; Config/Load has what
--                  ss_load_config and parse_auth_plain do
--   LinkedList     src/util/ss_linked_list.c
--   StringMap      src/util/ss_strmap.c and ss_string_hash
--   Network        src/network/ss_network.c, ss_connection.c and ss_listening.c, on LinkedList
--   Inet           src/network/ss_inet.c
--   ErrorUtils     src/util/error_utils.c and src/util/ss_io_helper.c
-- A function keeps its name without the prefix ss_ and its module's: ss_heap_push is Heap.push. A
-- struct is a record, and a function that changes one returns the new one. Other modules below a
-- component are named for what they prove.
--
-- Faults. Code that may fault returns an Option: `none` is a read or write out of bounds, `%` at
-- zero, or a loop that outlives its fuel. A theorem that says `Succeeds` says that there is none.
-- Numbers are natural numbers, and arithmetic on size_t is taken modulo 2^64. Where a sum must not
-- wrap, a structure's invariant bounds its capacity: 2^62 for buffers, 2^61 for a heap that grows.
--
-- Fuel. ss_ring_buffer_send gets one round more than the bytes it is asked for, since each round
-- but the last sends a byte. The loops of the heap get one round more than the heap has values,
-- since the index at least halves or doubles, and ss_heap_reserve gets 64, the bits of size_t.
-- ss_callback_poll gets one round more than there are callbacks: each but the last removes one.
-- The walks of the linked list get more rounds than it has nodes. read_domain_name gets 512: a name
-- has at most 255 bytes, and each label has a pointer in front of it at most, if no pointer leads to
-- another. Else a read need not end, and neither need ss_dns_get with aliases, the loop of
-- recv_handler, that of ss_dns_send_handler and that of parse_auth_plain: they take their fuel as an
-- argument.
--
-- Memory. The linked list and the network's items are a store from addresses to nodes and items, in
-- which a null pointer and freed memory fault; the other structures are values.
--
-- Parameters. recv() and send() on one descriptor are a record, Common.Socket, and `IsStream` says
-- what the manual says of a stream; Common.Script is one that meets it. The other system calls of
-- the network loop and the code of the handlers are the record Network.Program, of which nothing is
-- assumed; the handlers neither open nor close items. The tree of the string map is the record
-- StringMap.Tree, and IsTree says what its operations do; in Dns the string map itself is one.
-- Memory from malloc(), what uninitialised variables hold, files and the time are arguments. The
-- uninitialised entry of ss_dns_resolve_start_inner is null, an address that faults, or points to
-- memory outside of the service.
--
-- Not modelled: the red-black tree (src/util/ss_rbtree.c) and the checksum (src/util/ss_crc32.c),
-- which are other projects' code, the token pool, which has no operations yet,
-- server_destroy_handler, which reads memory of one type as another, the release of the DNS
-- service, and the test programs but for the start of the test server, which main calls.
pub mod Common
pub mod RingBuffer
pub mod Heap
pub mod PacketBuffer
pub mod Socks5
pub mod Dns
pub mod Callback
pub mod Config
pub mod LinkedList
pub mod StringMap
pub mod ErrorUtils
pub mod Network
pub mod Inet
