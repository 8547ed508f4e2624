-- ===== src/Dns/Start.antt =====
-- The start and the stop of the service, src/service/ss_dns.c: its memory and its connection.
use simple_socks.Common.{
  ℕ, Bool, true, false, Option, none, some, List, ◌==◌, replicate, if◌then◌else◌, ◌>>=◌,
}
use simple_socks.PacketBuffer
use simple_socks.PacketBuffer.{Block}
use simple_socks.Network.{connection, Program, Network, item_at, keep_connection}
use simple_socks.Network.Open.{network_connect}
use simple_socks.Dns.{StrMap, Service}

-- SOCK_DGRAM
abbrev sock_dgram : ℕ
sock_dgram = 2

-- SS_UINT16_MAX >> 4
abbrev pub segments : ℕ
segments = 4095

-- The addresses of the code of the service's handlers.
pub record Codes : Type 0 where
  pub recv_handler : ℕ
  pub send_handler : ℕ
  pub destroy_handler : ℕ
  pub check_status : ℕ

module _ (strmap : StrMap) where
  -- ss_dns_service_initialize, where ss_strmap_initialize gives `map` and `malloc` the blocks.
  unfoldable pub service_initialize : (ℕ → ℕ → List Block) → strmap.Map → Service strmap
  service_initialize malloc map = record {
    map = map;
    min_request_interval = 600;
    tid_flags = replicate segments 0;
    next_tid = 0;
    dead = false;
    recv_buffer = PacketBuffer.initialize malloc 2048 4;
    send_buffer = PacketBuffer.initialize malloc 2048 16;
  }

  -- ss_dns_service_disconnect, and ss_dns_service_stop
  unfoldable pub service_disconnect : Service strmap → Service strmap
  service_disconnect service = record service { dead = true }

  module _ (program : Program) where
    -- What ss_dns_service_connect writes into the connection that ss_network_connect opened.
    unfoldable pub set_connection : Codes → ℕ → Network program → ℕ → Option (Network program)
    set_connection codes service_at net item = do
      i ← item_at program net item
      elim i.body [
        | connection c ↦ some (
            keep_connection program net item i
              (record c {
                recv_handler = codes.recv_handler;
                send_handler = codes.send_handler;
                destroy_handler = codes.destroy_handler;
                check_status = codes.check_status;
                context = service_at;
              })
              net.world)
        | _ ↦ none
      ]

    -- ss_dns_service_connect of the service at `service_at`; malloc gives the item at `at`.
    unfoldable pub service_connect :
        Codes → ℕ → ℕ → ℕ → Network program → Option (Bool × Network program)
    service_connect codes service_at at address net = do
      (net', item) ← network_connect program net at sock_dgram address
      let connected : Option (Bool × Network program) = do
        net'' ← set_connection codes service_at net' item
        some (true, net'')
      if item == 0 then some (false, net') else connected

    -- ss_dns_service_create: no service where it does not connect.
    unfoldable pub service_create :
        (ℕ → ℕ → List Block)
        → strmap.Map
        → Codes
        → ℕ
        → ℕ
        → ℕ
        → Network program
        → Option (Option (Service strmap) × Network program)
    service_create malloc map codes service_at at address net = do
      (connected, net') ← service_connect codes service_at at address net
      some (if connected then some (service_initialize malloc map) else none, net')
