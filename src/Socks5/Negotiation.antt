-- ===== src/Socks5/Negotiation.antt =====
-- src/socks5/ss_negotiation.c: the choice of an authentication method.
pub mod Buffered
pub mod Outcomes
use simple_socks.Common.{
  ℕ, zero, suc, Bool, true, false, not, Option, none, some, List, [], ◌∷◌, ◌==◌, if◌then◌else◌,
  ◌>>=◌, add_size,
}
use simple_socks.Common.IoError.{IoError, is_ok}
use simple_socks.Common.IoError
use simple_socks.Common.Socket.{Socket}
use simple_socks.RingBuffer.{Ring, reset, steal}
use simple_socks.RingBuffer.Stream.{recv_via_buffer, send_via_buffer}
use simple_socks.Socks5.{
  Context, Status, negotiated, Process, done, again, error, Outcome, client_kill, demand, byte,
  socks5_version, auth_no_acceptable,
}

-- The value of `method` after ss_ring_buffer_steal: it stays where nothing was copied.
abbrev pub copied : ℕ → List ℕ → ℕ
copied method [] = method
copied method (x ∷ _) = x

-- The loop over the methods offered, from `offset` on.
unfoldable pub find_method : ℕ → ℕ → Ring → ℕ → ℕ → Option Bool
find_method zero method r offset wanted = some false
find_method (suc n_methods) method r offset wanted = do
  (_, bs) ← steal true r offset 1
  let method' = copied method bs
  let rest = find_method n_methods method' r (add_size offset 1) wanted
  if method' == wanted then some true else rest

-- ss_hello_response_t
abbrev pub hello_response : ℕ → List ℕ
hello_response method = socks5_version ∷ method ∷ []

module _ (s : Socket) where
  -- _l_error
  unfoldable pub negotiate_error : IoError → Context → s.State → Option (Outcome s)
  negotiate_error IoError.again c w = some (again, c, w)
  negotiate_error _ c w = some (error, client_kill c, w)

  -- _l_success
  unfoldable pub negotiate_success : Context → s.State → Option (Outcome s)
  negotiate_success c w = do
    (rc, wb) ← send_via_buffer c.write_buffer (hello_response c.auth_method) 2
    let c' = record c { write_buffer = wb }
    if not (is_ok rc)
        then some (error, client_kill c', w)
        else some (done, record c' { read_buffer = reset c.read_buffer; status = negotiated }, w)

  -- The methods, once their number is known. `junk` is what the uninitialised `method` holds.
  unfoldable pub choose_method : ℕ → ℕ → s.State → Context → ℕ → ℕ → Option (Outcome s)
  choose_method stale junk w c offset n_methods = do
    (rc, _, r', w') ← recv_via_buffer s stale w false c.read_buffer offset n_methods
    let c' = record c { read_buffer = r' }
    if not (is_ok rc) then negotiate_error rc c' w' else do
      found ← find_method n_methods junk r' offset c.config.auth_method
      if found
          then negotiate_success (record c' { auth_method = c.config.auth_method }) w'
          else negotiate_error IoError.ok (record c' { auth_method = auth_no_acceptable }) w'

  -- ss_negotiate_process. `stale` is what the uninitialised variables of ss_ring_buffer_recv hold.
  unfoldable pub negotiate_process : ℕ → ℕ → s.State → Context → Option (Outcome s)
  negotiate_process stale junk w c = demand s negotiate_error stale w c 0 1 λ version offset c1 w1.
      if not (byte version == socks5_version)
      then negotiate_error IoError.ok c1 w1
      else demand s negotiate_error stale w1 c1 offset 1
          λ n_methods offset' c2 w2. choose_method stale junk w2 c2 offset' (byte n_methods)
