-- ===== src/Dns/Handlers/Sending.antt =====
-- The loop of ss_dns_send_handler: where it ends, and where it does not.
use simple_socks.Common.{
  ℕ, zero, suc, ◌<◌, ◌≡◌, ◌≢◌, refl, sym, ap, ◌∙◌, true, none, some, List, [], ◌∷◌, arith, ◌==◌,
  if◌then◌else◌, length, ne→==, Succeeds, length-tabulate, nil_of_length,
}
use simple_socks.Common.Socket.{Socket}
use simple_socks.PacketBuffer.{PacketBuffer}
use simple_socks.PacketBuffer.Contents.{IsValid, packets, payload, block_at, later, front-later}
use simple_socks.PacketBuffer.Send.{send_front-Departed}
use native.Mathlib.Decide.{ℕ_discrete}
use simple_socks.Dns.Handlers.{send_handler}

-- The state of the socket after send() of each packet in turn, save those that are empty.
unfoldable pub after_sending : (s : Socket) → s.State → List (List ℕ) → s.State
after_sending s w [] = w
after_sending s w (p ∷ ps) = after_sending s (if length p == 0 then w else (s.send w p).1) ps

-- send() always takes the whole packet.
abbrev pub TakesAll : Socket → Type 0
TakesAll s = (w : s.State) (bs : List ℕ) → (s.send w bs).0 ≡ some (length bs)

-- send() always fails.
abbrev pub Fails : Socket → Type 0
Fails s = (w : s.State) (bs : List ℕ) → (s.send w bs).0 ≡ none

length-packets : (b : PacketBuffer) → length (packets b) ≡ b.packet_count
length-packets b = length-tabulate b.packet_count _

module _ (s : Socket) where
  send_all :
      TakesAll s
      → (fuel : ℕ) (w : s.State) (b : PacketBuffer) → IsValid b
      → b.packet_count < fuel
      → Succeeds
          (λ (b', w'). IsValid b' × (packets b' ≡ []) × (w' ≡ after_sending s w (packets b)))
          (send_handler s fuel w b)
  unfolding send_handler after_sending
  send_all takes zero w b v h = absurd (omega arith)
  send_all takes (suc fuel) w b v h = elim (ℕ_discrete b.packet_count 0) [
    | yes e ↦
        let nothing = nil_of_length (packets b) (omega (arith, length-packets b)) in
        let zero_ : (b.packet_count == 0) ≡ true = ground arith in
        rw zero_ (_, refl, (v, nothing, ap (after_sending s w) (sym nothing)))
    | no e ↦
        let p : 0 < b.packet_count = omega arith in
        let front = payload (block_at b 0) in
        let ((rc, b', w'), runs, (d, moved)) = send_front-Departed b v p s w in
        let left : packets b' ≡ later b v = d.queue ∙ ground (arith, takes w front) in
        let shorter : suc b'.packet_count ≡ b.packet_count = omega (
          arith,
          length-packets b',
          ap length left,
          length-packets b,
          ap length (front-later b v p),
        ) in
        let (result, runs', (valid, done, world)) =
          send_all takes fuel w' b' d.valid (omega arith) in
        rw (ne→== b.packet_count 0 e, runs)
          (
            result,
            runs',
            (
              valid,
              done,
              world
                  ∙ ap (after_sending s w') left
                  ∙ ap (λ (x : s.State). after_sending s x (later b v)) moved
                  ∙ ap (after_sending s w) (sym (front-later b v p)),
            ),
          )
  ]

  -- ss_dns_send_handler on a socket whose send() takes every packet whole sends each packet of the
  -- buffer that is not empty, the oldest first, and returns with an empty buffer.
  pub send_handler-all :
      TakesAll s
      → (w : s.State) (b : PacketBuffer) → IsValid b
      → Succeeds
          (λ (b', w'). IsValid b' × (packets b' ≡ []) × (w' ≡ after_sending s w (packets b)))
          (send_handler s (suc b.packet_count) w b)
  send_handler-all takes w b v = send_all takes (suc b.packet_count) w b v (omega arith)

  -- ss_dns_send_handler on a socket whose send() fails outlives any number of rounds, if the first
  -- packet is not empty.
  pub send_handler-stuck :
      Fails s
      → (fuel : ℕ) (w : s.State) (b : PacketBuffer) → IsValid b
      → (front : List ℕ) (rest : List (List ℕ)) → packets b ≡ front ∷ rest
      → front ≢ []
      → send_handler s fuel w b ≡ none
  unfolding send_handler
  send_handler-stuck fails zero w b v front rest e n = refl
  send_handler-stuck fails (suc fuel) w b v front rest e n =
      let some_ : 0 < b.packet_count = omega (arith, length-packets b, ap length e) in
      let all = sym (front-later b v some_) ∙ e in
      let same : payload (block_at b 0) ≡ front = cc in
      let size : length front ≢ 0 = λ z. n (nil_of_length front z) in
      let ((rc, b', w'), runs, (d, moved)) = send_front-Departed b v some_ s w in
      let left : packets b' ≡ packets b =
        d.queue
        ∙ ground (arith, fails w (payload (block_at b 0)), ap length same)
        ∙ sym (front-later b v some_) in
      rw (ne→== b.packet_count 0 (omega arith), runs)
        (send_handler-stuck fails fuel w' b' d.valid front rest (left ∙ e) n)
