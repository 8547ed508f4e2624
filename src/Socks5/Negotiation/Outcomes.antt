-- ===== src/Socks5/Negotiation/Outcomes.antt =====
-- Every outcome of the negotiation, whatever the client sends.
use simple_socks.Common.{
  ℕ, zero, suc, ◌+◌, ◌^◌, ◌≤◌, ◌<◌, ◌≡◌, refl, Bool, true, false, not, some, List, [], ◌∷◌, arith,
  add_size, ap, ℤ, slice, ◌==◌, if◌then◌else◌, Succeeds, Succeeds-if,
}
use native.Mathlib.Decide.{dec_lt}
use simple_socks.Common.IoError.{IoError, ok, again, error, overflow, empty, is_ok}
use simple_socks.Common.Socket.{Socket, IsStream}
use simple_socks.RingBuffer.{Ring, reset, steal}
use simple_socks.RingBuffer.Contents.{contents, IsValid}
use simple_socks.RingBuffer.Steal.{steal-contents, steal-beyond}
use simple_socks.RingBuffer.Stream.Via.{recv_via_buffer-Answered, send_via_buffer-Sent}
use simple_socks.Socks5.{
  Context, Config, dead, negotiated, Process, Outcome, client_kill, byte, socks5_version,
}
use simple_socks.Socks5.Demand.{Heard, Heard-trans, demand-rule}
use simple_socks.Socks5.Negotiation.{
  find_method, copied, hello_response, negotiate_error, negotiate_success, choose_method,
  negotiate_process,
}

steal-runs :
    (r : Ring) (o : ℕ) → IsValid r → (k : ℤ) × (bs : List ℕ) × (steal true r o 1 ≡ some (k, bs))
steal-runs r o v = elim (dec_lt r.length o) [
  | yes beyond ↦ (_, _, steal-beyond r v true o 1 beyond)
  | no within ↦ (_, _, steal-contents r v o 1 (omega arith))
]

-- The loop never reads out of bounds.
find_method-runs :
    (n method : ℕ) (r : Ring) (o wanted : ℕ)
    → IsValid r
    → o + n < 2 ^ 62
    → (found : Bool) × (find_method n method r o wanted ≡ some found)
unfolding find_method
find_method-runs zero method r o wanted v h = (false, refl)
find_method-runs (suc n) method r o wanted v h =
    let next : add_size o 1 ≡ suc o = omega arith in
    let (_, bs, runs) = steal-runs r o v in
    let (found, rest) = find_method-runs n (copied method bs) r (suc o) wanted v (omega arith) in
    rw (runs, next, rest) (if copied method bs == wanted then true else found, ground arith)

byte_small : (bs : List ℕ) → byte bs < 256
byte_small [] = omega arith
byte_small (x ∷ bs) = omega arith

module _ (s : Socket) (stream : IsStream s) where
  -- What each outcome means: with AGAIN the session has only received bytes, with ERROR it is dead,
  -- and with DONE it is NEGOTIATED with the configured method and an empty read buffer.
  abbrev pub Settled : Context → s.State → Outcome s → Type 0
  Settled c w (Process.done, c', w') =
      (c'.status ≡ negotiated)
      × (c'.auth_method ≡ c.config.auth_method)
      × (c'.read_buffer.length ≡ 0)
  Settled c w (Process.again, c', w') = Heard s stream c w c' w'
  Settled c w (Process.error, c', w') = c'.status ≡ dead

  settle_error :
      (c : Context) (w : s.State) (rc : IoError) (c' : Context) (w' : s.State)
      → Heard s stream c w c' w'
      → Succeeds (Settled c w) (negotiate_error s rc c' w')
  unfolding negotiate_error client_kill
  settle_error c w again c' w' h = (_, refl, h)
  settle_error c w ok c' w' h = (_, refl, refl)
  settle_error c w error c' w' h = (_, refl, refl)
  settle_error c w overflow c' w' h = (_, refl, refl)
  settle_error c w empty c' w' h = (_, refl, refl)

  settle_killed :
      (c : Context) (w : s.State) (c' : Context) (w' : s.State)
      → Succeeds (Settled c w) (negotiate_error s ok c' w')
  unfolding negotiate_error client_kill
  settle_killed c w c' w' = (_, refl, refl)

  settle_success :
      (c : Context) (w : s.State) (c' : Context) (w' : s.State)
      → IsValid c'.write_buffer
      → c'.auth_method ≡ c.config.auth_method
      → Succeeds (Settled c w) (negotiate_success s c' w')
  unfolding negotiate_success client_kill reset
  settle_success c w c' w' u e =
      let ((rc, wb), runs, _) =
        send_via_buffer-Sent c'.write_buffer (hello_response c'.auth_method) u in
      rw runs
        (Succeeds-if (not (is_ok rc)) (λ _. (_, refl, refl)) (λ _. (_, refl, (refl, e, refl))))

  same_config : (c c' : Context) (w w' : s.State) → Heard s stream c w c' w' → c'.config ≡ c.config
  same_config c c' w w' h = ap (λ (x : Context). x.config) h.same

  same_writer :
      (c c' : Context) (w w' : s.State)
      → Heard s stream c w c' w'
      → c'.write_buffer ≡ c.write_buffer
  same_writer c c' w w' h = ap (λ (x : Context). x.write_buffer) h.same

  settle_choice :
      (stale junk n : ℕ) (c : Context) (w : s.State) (c' : Context) (w' : s.State)
      → IsValid c.write_buffer
      → n < 256
      → 2 ≤ c'.read_buffer.length
      → Heard s stream c w c' w'
      → Succeeds (Settled c w) (choose_method s stale junk w' c' 2 n)
  unfolding choose_method
  settle_choice stale junk n c w c' w' u few two h =
      let received = h.received in
      let ((rc, bs, r, w2), runs, a) =
        recv_via_buffer-Answered s stream 2 n (omega arith) stale false w' c'.read_buffer
          received.valid two in
      let c2 = record c' { read_buffer = r } in
      let more : Heard s stream c' w' c2 w2 = record { same = refl; received = a.received } in
      let all = Heard-trans s stream c c' c2 w w' w2 h more in
      let now = a.received in
      let (found, finds) =
        find_method-runs n junk r 2 c'.config.auth_method now.valid (omega arith) in
      rw (runs, finds)
        (Succeeds-if (not (is_ok rc)) (λ _. settle_error c w rc c2 w2 all)
          λ _.
            Succeeds-if found
              (λ _.
                settle_success c w (record c2 { auth_method = c'.config.auth_method }) w2
                  (rw (same_writer c c' w w' h) u)
                  (ap (λ (x : Config). x.auth_method) (same_config c c' w w' h)))
              λ _. settle_killed c w _ w2)

  -- ss_negotiate_process on valid buffers always returns. With AGAIN the session has only received
  -- bytes, all of which stay in the read buffer; with ERROR it is dead; with DONE it is NEGOTIATED,
  -- with the configured method and an empty read buffer.
  pub negotiate_process-Settled :
      (stale junk : ℕ) (w : s.State) (c : Context)
      → IsValid c.read_buffer
      → IsValid c.write_buffer
      → Succeeds (Settled c w) (negotiate_process s stale junk w c)
  unfolding negotiate_process
  negotiate_process-Settled stale junk w c v u =
      demand-rule s stream (negotiate_error s) stale w c 0 1 _ v (omega arith) (omega arith)
        (λ rc c' w' h p. settle_error c w rc c' w' h)
        λ c1 w1 h1 one.
          let r1 = h1.received in
          Succeeds-if (not (byte (slice 0 1 (contents c1.read_buffer)) == socks5_version))
            (λ _. settle_killed c w c1 w1)
            λ _.
              demand-rule s stream (negotiate_error s) stale w1 c1 1 1
                (λ n_methods o c2 w2. choose_method s stale junk w2 c2 o (byte n_methods)) r1.valid
                one (omega arith)
                (λ rc c' w' h p.
                  settle_error c w rc c' w' (Heard-trans s stream c c1 c' w w1 w' h1 h))
                λ c2 w2 h2 two.
                  settle_choice stale junk (byte (slice 1 1 (contents c2.read_buffer))) c w c2 w2 u
                    (byte_small _) two (Heard-trans s stream c c1 c2 w w1 w2 h1 h2)
