-- ===== src/Socks5/Negotiation/Buffered.antt =====
-- The negotiation of a client whose whole message is in the read buffer.
use simple_socks.Common.{
  length-append, ℕ, zero, suc, ◌+◌, ◌-◌, ◌%◌, ◌≤◌, ◌<◌, ◌≡◌, refl, sym, ap, ◌∙◌, Bool, true, false,
  some, List, [], ◌∷◌, ◌++◌, arith, slice, take-append, slice-next, add_size, ◌==◌, if◌then◌else◌,
  length, get_or, min,
}
use simple_socks.Common.IoError.{ok}
use simple_socks.Common.Socket.{Socket}
use simple_socks.RingBuffer.{Ring, reset}
use simple_socks.RingBuffer.Contents.{contents, IsValid, length-contents}
use simple_socks.RingBuffer.Steal.{steal-contents}
use simple_socks.RingBuffer.Write.{end_index}
use simple_socks.RingBuffer.Stream.Via.{recv_via_buffer-held, send_via_buffer-straight}
use simple_socks.Socks5.{
  Context, done, error, negotiated, client_kill, socks5_version, auth_no_acceptable,
}
use simple_socks.Socks5.Demand.{demand-held}
use simple_socks.Socks5.Negotiation.{
  find_method, hello_response, negotiate_error, negotiate_success, choose_method, negotiate_process,
}

-- Whether a method is among those offered.
unfoldable pub offered : ℕ → List ℕ → Bool
offered wanted [] = false
offered wanted (x ∷ xs) = if x == wanted then true else offered wanted xs

-- The loop finds the configured method exactly if it is among the bytes it looks at.
pub find_method-offered :
    (n method : ℕ) (r : Ring) (o wanted : ℕ)
    → IsValid r
    → o + n ≤ r.length
    → find_method n method r o wanted ≡ some (offered wanted (slice o n (contents r)))
unfolding find_method offered
find_method-offered zero method r o wanted v h = refl
find_method-offered (suc n) method r o wanted v h =
    let small = v.small in
    let length_in = v.length_in in
    let one : min 1 (r.length - o) ≡ 1 = omega arith in
    let size = length-contents r in
    let x = get_or (contents r) o 0 in
    let first = slice-next o 0 (contents r) 0 (omega arith) in
    let more = slice-next o n (contents r) 0 (omega arith) in
    let rest = find_method-offered n x r (suc o) wanted v (omega arith) in
    let next : add_size o 1 ≡ suc o = omega arith in
    rw (steal-contents r v o 1 (omega arith), one, first, more, next, rest) (ground arith)

-- A client's hello: the version, and the methods it offers with their number.
abbrev pub hello : List ℕ → List ℕ
hello methods = socks5_version ∷ length methods ∷ methods

module _ (s : Socket) (stale junk : ℕ) (w : s.State) (c : Context) (methods rest : List ℕ)
    (few : length methods < 256) (v : IsValid c.read_buffer)
    (held : contents c.read_buffer ≡ hello methods ++ rest) where
  held_size : c.read_buffer.length ≡ suc (suc (length methods + length rest))
  held_size =
      sym (length-contents c.read_buffer)
      ∙ ap length held
      ∙ omega (arith, length-append methods rest)

  methods_held : slice 2 (length methods) (contents c.read_buffer) ≡ methods
  methods_held = ap (slice 2 (length methods)) held ∙ take-append methods rest

  choose_method-held : choose_method s stale junk w c 2 (length methods) ≡ (
      if offered c.config.auth_method methods
      then negotiate_success s (record c { auth_method = c.config.auth_method }) w
      else negotiate_error s ok (record c { auth_method = auth_no_acceptable }) w)
  unfolding choose_method
  choose_method-held = rw (
    recv_via_buffer-held s stale w false c.read_buffer 2 (length methods) v
        (omega (arith, held_size)),
    find_method-offered (length methods) junk c.read_buffer 2 c.config.auth_method v
        (omega (arith, held_size)),
    methods_held,
  )

  negotiate_process-held :
      negotiate_process s stale junk w c ≡ choose_method s stale junk w c 2 (length methods)
  unfolding negotiate_process
  negotiate_process-held =
      let version : slice 0 1 (contents c.read_buffer) ≡ socks5_version ∷ [] =
        ap (slice 0 1) held in
      let number : slice 1 1 (contents c.read_buffer) ≡ length methods ∷ [] = ap (slice 1 1) held in
      let whole : length methods % 256 ≡ length methods = omega arith in
      rw (
        demand-held s (negotiate_error s) stale w c 0 1 _ v (omega (arith, held_size)),
        version,
        demand-held s (negotiate_error s) stale w c 1 1 _ v (omega (arith, held_size)),
        number,
        whole,
      )

  -- A hello that does not offer the configured method ends the session: it is dead, nothing is
  -- sent and no method is chosen.
  pub negotiate_process-rejects :
      offered c.config.auth_method methods ≡ false
      → negotiate_process s stale junk w c
        ≡ some (error, client_kill (record c { auth_method = auth_no_acceptable }), w)
  unfolding negotiate_error
  negotiate_process-rejects no_ = negotiate_process-held ∙ choose_method-held ∙ rw no_

  -- A hello that offers the configured method, with room for the reply up to the end of the write
  -- buffer's memory: the session is NEGOTIATED with that method, the reply that names it is behind
  -- what is to be sent, and the read buffer is empty.
  pub negotiate_process-accepts :
      offered c.config.auth_method methods ≡ true
      → IsValid c.write_buffer
      → end_index c.write_buffer + 2 ≤ c.write_buffer.capacity
      → c.write_buffer.length + 2 ≤ c.write_buffer.capacity
      → (wb : Ring) × (negotiate_process s stale junk w c
          ≡ some (
            done,
            record c {
              status = negotiated;
              auth_method = c.config.auth_method;
              read_buffer = reset c.read_buffer;
              write_buffer = wb;
            },
            w,
          ))
        × IsValid wb
        × (contents wb ≡ contents c.write_buffer ++ hello_response c.config.auth_method)
  unfolding negotiate_success
  negotiate_process-accepts yes_ u straight room =
      let reply = hello_response c.config.auth_method in
      let (wb, runs, valid, more) = send_via_buffer-straight c.write_buffer reply u straight room in
      (wb, negotiate_process-held ∙ choose_method-held ∙ rw (yes_, runs), valid, more)
