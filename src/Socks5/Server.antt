-- ===== src/Socks5/Server.antt =====
-- src/server/socks5_server.c: the handlers of a client connection.
pub mod Loop
pub mod Start
pub mod Startup
pub mod Main
pub mod Sessions
mod Tests
use simple_socks.Common.{ℕ, zero, suc, Bool, true, false, ◌||◌, Option, none, some, ltb, ◌>>=◌}
use simple_socks.Common.Socket.{Socket}
use simple_socks.RingBuffer
use simple_socks.RingBuffer.Stream
use simple_socks.Socks5.{
  Context, Status, negotiating, negotiated, authenticating, authenticated, dead, Process, done,
  again, error, Outcome, client_kill,
}
use simple_socks.Socks5.Negotiation.{negotiate_process}
use simple_socks.Socks5.Auth.{auth_begin, auth_process, auth_finish}

-- What the uninitialised variables hold, and the function that returns no value.
pub record Undefined : Type 0 where
  pub recv_ret : ℕ
  pub method : ℕ
  pub finished : Process

module _ (s : Socket) (u : Undefined) where
  -- The switch in recv_handler: `retcode` stays as it is for the statuses that have no case.
  unfoldable pub process_status : Status → Process → s.State → Context → Option (Outcome s)
  process_status negotiating retcode w c = negotiate_process s u.recv_ret u.method w c
  process_status negotiated retcode w c = let (rc, c') = auth_begin c in some (rc, c', w)
  process_status authenticating retcode w c = auth_process s u.recv_ret w c
  process_status authenticated retcode w c =
      let (rc, c') = auth_finish u.finished c in some (rc, c', w)
  process_status _ retcode w c = some (retcode, c, w)

  -- The loop of recv_handler, with fuel, after the switch.
  unfoldable pub next_round :
      (Process → s.State → Context → Option (Context × s.State))
      → Outcome s
      → Option (Context × s.State)
  next_round loop (done, c, w) = loop done w c
  next_round loop (again, c, w) = some (c, w)
  next_round loop (error, c, w) = some (client_kill c, w)

  -- recv_handler. `retcode` is uninitialised at first.
  unfoldable pub recv_handler : ℕ → Process → s.State → Context → Option (Context × s.State)
  recv_handler zero retcode w c = none
  recv_handler (suc fuel) retcode w c =
      process_status c.status retcode w c >>= next_round (recv_handler fuel)

  -- send_handler
  unfoldable pub send_handler : s.State → Context → Option (Context × s.State)
  send_handler w c = do
    (_, wb, w') ← Stream.send s w c.write_buffer c.write_buffer.length
    some (record c { write_buffer = wb }, w')

-- status != SS_STATUS_DEAD
abbrev pub is_alive : Status → Bool
is_alive dead = false
is_alive _ = true

-- check_client_status
unfoldable pub check_client_status : Context → Bool
check_client_status c = is_alive c.status || ltb 0 c.write_buffer.length
