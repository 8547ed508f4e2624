-- ===== src/Socks5/Demand.antt =====
-- One request for bytes of the read buffer: when it is served at once, and what it leaves else.
use simple_socks.Common.{
  ℕ, ◌+◌, ◌^◌, ◌≤◌, ◌<◌, ◌≡◌, refl, ap, ◌∙◌, true, false, Option, List, arith, slice,
  add_size-small, Succeeds, Bool-cases, inl, inr,
}
use simple_socks.Common.IoError.{IoError, ok, again, error, overflow, empty, is_ok}
use simple_socks.Common.Socket.{Socket, IsStream}
use simple_socks.RingBuffer.{Ring}
use simple_socks.RingBuffer.Contents.{contents, IsValid}
use simple_socks.RingBuffer.Stream.{recv_via_buffer_auto_inc}
use simple_socks.RingBuffer.Stream.Via.{recv_via_buffer-held, recv_via_buffer-Answered, answer}
use simple_socks.RingBuffer.Stream.Receive.{Received, Received-trans}
use simple_socks.Socks5.{Context, Outcome, demand}

module _ (s : Socket) where
  pub demand-held :
      (fail : IoError → Context → s.State → Option (Outcome s)) (stale : ℕ) (w : s.State)
      (c : Context) (o n : ℕ) (next : List ℕ → ℕ → Context → s.State → Option (Outcome s))
      → IsValid c.read_buffer
      → o + n ≤ c.read_buffer.length
      → demand s fail stale w c o n next ≡ next (slice o n (contents c.read_buffer)) (o + n) c w
  unfolding demand recv_via_buffer_auto_inc
  demand-held fail stale w c o n next v h =
      let small = v.small in
      let length_in = v.length_in in
      rw (
        recv_via_buffer-held s stale w true c.read_buffer o n v h,
        add_size-small o n (omega arith),
      )

  module _ (stream : IsStream s) where
    -- The session has only received bytes.
    pub record Heard (c : Context) (w : s.State) (c' : Context) (w' : s.State) : Type 0 where
      pub same : c' ≡ record c { read_buffer = c'.read_buffer }
      pub received : Received s stream c.read_buffer w c'.read_buffer w'

    pub Heard-trans :
        (c c1 c2 : Context) (w w1 w2 : s.State)
        → Heard c w c1 w1
        → Heard c1 w1 c2 w2
        → Heard c w c2 w2
    Heard-trans c c1 c2 w w1 w2 h k = record {
      same = k.same ∙ ap (λ (x : Context). record x { read_buffer = c2.read_buffer }) h.same;
      received =
          Received-trans s stream c.read_buffer w c1.read_buffer w1 c2.read_buffer w2 h.received
            k.received;
    }

    is_ok-ok : (rc : IoError) → is_ok rc ≡ true → rc ≡ ok
    is_ok-ok ok p = refl
    is_ok-ok again p = absurd (cc)
    is_ok-ok error p = absurd (cc)
    is_ok-ok overflow p = absurd (cc)
    is_ok-ok empty p = absurd (cc)

    -- OK means that the bytes are there.
    ok-held :
        (r r' : Ring) (o n : ℕ) (rc : IoError)
        → is_ok rc ≡ true
        → rc ≡ answer true r r' o n
        → o + n ≤ r'.length
    ok-held r r' o n rc p e = let good = is_ok-ok rc p in ground arith

    pub demand-rule {ν} :
        {Q : Outcome s → Type ν} (fail : IoError → Context → s.State → Option (Outcome s))
        (stale : ℕ) (w : s.State) (c : Context) (o n : ℕ)
        (next : List ℕ → ℕ → Context → s.State → Option (Outcome s))
        → IsValid c.read_buffer
        → o ≤ c.read_buffer.length
        → o + n < 2 ^ 62
        → ((rc : IoError) (c' : Context) (w' : s.State)
            → Heard c w c' w'
            → is_ok rc ≡ false
            → Succeeds Q (fail rc c' w'))
        → ((c' : Context) (w' : s.State)
            → Heard c w c' w'
            → o + n ≤ c'.read_buffer.length
            → Succeeds Q (next (slice o n (contents c'.read_buffer)) (o + n) c' w'))
        → Succeeds Q (demand s fail stale w c o n next)
    unfolding demand recv_via_buffer_auto_inc
    demand-rule fail stale w c o n next v h small fails goes =
        let ((rc, bs, r', w'), e, a) =
          recv_via_buffer-Answered s stream o n small stale true w c.read_buffer v h in
        let c' = record c { read_buffer = r' } in
        let heard : Heard c w c' w' = record { same = refl; received = a.received } in
        rw e (elim (Bool-cases (is_ok rc)) [
          | inl p ↦
              let bytes = a.bytes refl (is_ok-ok rc p) in
              rw (p, add_size-small o n (omega arith), bytes)
                (goes c' w' heard (ok-held c.read_buffer r' o n rc p a.code))
          | inr p ↦ rw p (fails rc c' w' heard p)
        ])
