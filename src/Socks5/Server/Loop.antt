-- ===== src/Socks5/Server/Loop.antt =====
-- The loop of recv_handler: where it ends, and where it does not.
use simple_socks.Common.{
  ℕ, zero, suc, ◌+◌, ◌≤◌, ◌<◌, ◌≡◌, refl, sym, ap, ◌∙◌, ◌≢◌, true, none, some, List, ◌++◌, arith,
  length, length-append, lt→ltb, ◌⊎◌, inl, inr, ne→==, Succeeds,
}
use simple_socks.Common.Socket.{Socket, IsStream}
use simple_socks.RingBuffer.{reset}
use simple_socks.RingBuffer.Contents.{contents, IsValid, length-contents}
use simple_socks.RingBuffer.Write.{end_index}
use simple_socks.Socks5.{
  Context, negotiating, negotiated, dead, Process, Outcome, client_kill, auth_plain,
  auth_context_initialize,
}
use simple_socks.Socks5.Demand.{Heard}
use simple_socks.Socks5.Negotiation.{negotiate_process, hello_response}
use simple_socks.Socks5.Negotiation.Buffered.{hello, offered, negotiate_process-accepts}
use simple_socks.Socks5.Negotiation.Outcomes.{negotiate_process-Settled, Settled}
use simple_socks.Socks5.Auth.{auth_begin}
use simple_socks.Socks5.Server.{
  Undefined, process_status, next_round, recv_handler, check_client_status,
}

module _ (s : Socket) (u : Undefined) where
  recv_handler-next :
      (fuel : ℕ) (retcode : Process) (w : s.State) (c : Context) (result : Outcome s)
      → process_status s u c.status retcode w c ≡ some result
      → recv_handler s u (suc fuel) retcode w c ≡ next_round s u (recv_handler s u fuel) result
  unfolding recv_handler
  recv_handler-next fuel retcode w c result e = rw e

  negotiated-runs :
      (retcode : Process) (w : s.State) (c : Context)
      → c.status ≡ negotiated
      → process_status s u c.status retcode w c ≡ some ((auth_begin c).0, (auth_begin c).1, w)
  unfolding process_status
  negotiated-runs retcode w c e = rw e

  begin_plain :
      (c : Context)
      → c.auth_method ≡ auth_plain
      → auth_begin c ≡ (Process.done, record c { auth = record { method = c.auth_method } })
  unfolding auth_begin
  begin_plain c e = rw e

  begin_other :
      (c : Context)
      → c.auth_method ≢ auth_plain
      → auth_begin c ≡ (Process.error, record c { auth = auth_context_initialize })
  unfolding auth_begin
  begin_other c e = rw (ne→== c.auth_method auth_plain e)

  -- A session that is NEGOTIATED for user name and password is never left: recv_handler outlives any
  -- number of rounds.
  pub recv_handler-plain_stuck :
      (fuel : ℕ) (retcode : Process) (w : s.State) (c : Context)
      → c.status ≡ negotiated
      → c.auth_method ≡ auth_plain
      → recv_handler s u fuel retcode w c ≡ none
  unfolding recv_handler next_round
  recv_handler-plain_stuck zero retcode w c e m = refl
  recv_handler-plain_stuck (suc fuel) retcode w c e m =
      let c' = record c { auth = record { method = c.auth_method } } in
      rw (negotiated-runs retcode w c e, begin_plain c m)
        (recv_handler-plain_stuck fuel Process.done w c' e m)

  -- A session that is NEGOTIATED for any other method is killed in the next round.
  pub recv_handler-other_dead :
      (fuel : ℕ) (retcode : Process) (w : s.State) (c : Context)
      → c.status ≡ negotiated
      → c.auth_method ≢ auth_plain
      → recv_handler s u (suc fuel) retcode w c
        ≡ some (client_kill (record c { auth = auth_context_initialize }), w)
  unfolding recv_handler next_round
  recv_handler-other_dead fuel retcode w c e m = rw (negotiated-runs retcode w c e, begin_other c m)

  negotiating-runs :
      (retcode : Process) (w : s.State) (c : Context)
      → c.status ≡ negotiating
      → process_status s u c.status retcode w c ≡ negotiate_process s u.recv_ret u.method w c
  unfolding process_status
  negotiating-runs retcode w c e = rw e

  module _ (stream : IsStream s) (fuel : ℕ) (c : Context) (w : s.State)
      (method : c.config.auth_method ≢ auth_plain) where
    -- What recv_handler leaves: a dead session, or one that has only received bytes.
    abbrev pub Left : Context × s.State → Type 0
    Left (c', w') = (c'.status ≡ dead) ⊎ Heard s stream c w c' w'

    next_round-Left :
        (result : Outcome s)
        → Settled s stream c w result
        → Succeeds Left (next_round s u (recv_handler s u (suc fuel)) result)
    unfolding next_round client_kill
    next_round-Left (Process.done, c', w') (e, m, _) =
        let other : c'.auth_method ≢ auth_plain = λ p. method (sym m ∙ p) in
        (_, recv_handler-other_dead fuel Process.done w' c' e other, inl refl)
    next_round-Left (Process.again, c', w') h = (_, refl, inr h)
    next_round-Left (Process.error, c', w') e = (_, refl, inl refl)

    -- recv_handler on a new session whose configured method is not that of user names and
    -- passwords returns after two rounds at most: the session is dead, or it has only received
    -- bytes, which the next call finds in the read buffer.
    pub recv_handler-Left :
        (retcode : Process)
        → c.status ≡ negotiating
        → IsValid c.read_buffer
        → IsValid c.write_buffer
        → Succeeds Left (recv_handler s u (suc (suc fuel)) retcode w c)
    recv_handler-Left retcode e v t =
        let (result, runs, settled) =
          negotiate_process-Settled s stream u.recv_ret u.method w c v t in
        rw (recv_handler-next (suc fuel) retcode w c result (negotiating-runs retcode w c e ∙ runs))
          (next_round-Left result settled)

  module _ (w : s.State) (c : Context) (methods rest : List ℕ) (few : length methods < 256)
      (v : IsValid c.read_buffer) (held : contents c.read_buffer ≡ hello methods ++ rest)
      (offers : offered c.config.auth_method methods ≡ true) (t : IsValid c.write_buffer)
      (straight : end_index c.write_buffer + 2 ≤ c.write_buffer.capacity)
      (room : c.write_buffer.length + 2 ≤ c.write_buffer.capacity)
      (status : c.status ≡ negotiating) where
    -- A client that offers the configured method of user names and passwords makes recv_handler
    -- outlive any number of rounds.
    pub recv_handler-hello_stuck :
        (fuel : ℕ) (retcode : Process)
        → c.config.auth_method ≡ auth_plain
        → recv_handler s u fuel retcode w c ≡ none
    unfolding recv_handler next_round
    recv_handler-hello_stuck zero retcode m = refl
    recv_handler-hello_stuck (suc fuel) retcode m =
        let (wb, runs, _, _) =
          negotiate_process-accepts s u.recv_ret u.method w c methods rest few v held offers t
            straight room in
        recv_handler-next fuel retcode w c _ (negotiating-runs retcode w c status ∙ runs)
        ∙ recv_handler-plain_stuck fuel Process.done w _ refl m

    -- A client that offers the configured method, where that is another, is killed, and its
    -- connection stays open until the reply that accepts the method is sent.
    pub recv_handler-hello_dead :
        (fuel : ℕ) (retcode : Process)
        → c.config.auth_method ≢ auth_plain
        → Succeeds
            (λ (c', w').
              (c'.status ≡ dead)
              × (contents c'.write_buffer
                  ≡ contents c.write_buffer ++ hello_response c.config.auth_method)
              × (check_client_status c' ≡ true)
              × (w' ≡ w))
            (recv_handler s u (suc (suc fuel)) retcode w c)
    unfolding client_kill check_client_status next_round
    recv_handler-hello_dead fuel retcode m =
        let (wb, runs, _, more) =
          negotiate_process-accepts s u.recv_ret u.method w c methods rest few v held offers t
            straight room in
        let size : wb.length ≡ c.write_buffer.length + 2 =
          sym (length-contents wb)
          ∙ ap length more
          ∙ omega (
            arith,
            length-append (contents c.write_buffer) (hello_response c.config.auth_method),
            length-contents c.write_buffer,
          ) in
        let accepted : Context = record c {
          status = negotiated;
          auth_method = c.config.auth_method;
          read_buffer = reset c.read_buffer;
          write_buffer = wb;
        } in
        (
          (client_kill (record accepted { auth = auth_context_initialize }), w),
          recv_handler-next (suc fuel) retcode w c (Process.done, accepted, w)
                (negotiating-runs retcode w c status ∙ runs)
              ∙ recv_handler-other_dead fuel Process.done w accepted refl m,
          (refl, more, lt→ltb 0 wb.length (omega (arith, size)), refl),
        )
