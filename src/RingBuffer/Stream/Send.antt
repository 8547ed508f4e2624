-- ===== src/RingBuffer/Stream/Send.antt =====
-- ss_ring_buffer_send: the oldest bytes leave in order, and the loop ends.
use simple_socks.Common.{
  ℕ, zero, suc, ◌+◌, ◌-◌, ◌^◌, ◌≤◌, ◌<◌, ◌≡◌, refl, sym, ap, ◌∙◌, Option, none, some, List, [],
  ◌++◌, arith, ◌==◌, pos, copy_from-some, length, sub_size-small, to_ssize-small, take, slice,
  take-append-drop, length-slice, Succeeds, Succeeds-bind, Succeeds-if, ℤ, length-append,
  length-tabulate, take-take,
}
use mathlib.Core.List.{append-nil, append_assoc}
use simple_socks.Common.Socket.{Socket, IsStream}
use simple_socks.RingBuffer.{Ring, min_size}
use simple_socks.RingBuffer.Contents.{
  contents, byte_at, IsValid, slice-contents_fits, first_part_fits, first_part_turns,
}
use simple_socks.RingBuffer.Read.{skipped, skipped-IsValid, contents-skipped, advance-skipped, here}
use simple_socks.RingBuffer.Stream.{chunk_size, send_size, send_taken, send_loop, send}
use native.Mathlib.Decide.{dec_lt}

module _ (r : Ring) (v : IsValid r) (total : ℕ) where
  -- What one round offers lies within the contents, before the end of the memory.
  send_size_bounds :
      (send_size r total ≤ r.length)
      × (send_size r total ≤ total)
      × (r.offset + send_size r total ≤ r.capacity)
  unfolding send_size
  send_size_bounds =
      let m = min_size r.length chunk_size in
      let small : m ≤ r.length = ground arith in
      elim (dec_lt r.capacity (r.offset + m)) [
        | yes turns ↦
            rw (first_part_turns r.capacity r.offset m turns (omega arith) (omega arith) v.small)
              (ground arith, ground arith, ground arith)
        | no fits ↦
            rw (first_part_fits r.capacity r.offset m (omega arith) v.small)
              (ground arith, ground arith, ground arith)
      ]

module _ (s : Socket) (stream : IsStream s) where
  -- From (r, w) to (r', w') some bytes moved from the front of the contents to the socket.
  pub record Departed (r : Ring) (w : s.State) (r' : Ring) (w' : s.State) : Type 0 where
    pub valid : IsValid r'
    pub kept : r'.capacity ≡ r.capacity
    pub shrunk : r'.length ≤ r.length
    pub bytes : List ℕ
    pub departed : s.sent w' ≡ s.sent w ++ bytes
    pub contents_eq : contents r ≡ bytes ++ contents r'

  Departed-refl : (r : Ring) (w w' : s.State) → IsValid r → s.sent w' ≡ s.sent w → Departed r w r w'
  Departed-refl r w w' v e = record {
    valid = v;
    kept = refl;
    shrunk = omega arith;
    bytes = [];
    departed = e ∙ sym (append-nil (s.sent w));
    contents_eq = refl;
  }

  Departed-trans :
      (r : Ring) (w : s.State) (r' : Ring) (w' : s.State) (r'' : Ring) (w'' : s.State)
      → Departed r w r' w'
      → Departed r' w' r'' w''
      → Departed r w r'' w''
  Departed-trans r w r' w' r'' w'' a b = record {
    valid = b.valid;
    kept = b.kept ∙ a.kept;
    shrunk = omega arith;
    bytes = a.bytes ++ b.bytes;
    departed = rw (b.departed, a.departed) (append_assoc (s.sent w) a.bytes b.bytes);
    contents_eq =
        rw (a.contents_eq, b.contents_eq) (sym (append_assoc a.bytes b.bytes (contents r'')));
  }

  -- One round in which the socket takes `k` bytes.
  round-Departed :
      (r : Ring) (w : s.State) (v : IsValid r) (m k : ℕ)
      → m ≤ r.length
      → r.offset + m ≤ r.capacity
      → (s.send w (slice r.offset m r.buffer)).0 ≡ some k
      → k ≤ m
      → Departed r w (skipped r k) (s.send w (slice r.offset m r.buffer)).1
  round-Departed r w v m k within fits e h =
      let at = here r v 0 (omega arith) in
      let part = rw at at (slice-contents_fits r v 0 m (omega arith) (rw at fits)) in
      record {
        valid = skipped-IsValid r v k (omega arith);
        kept = refl;
        shrunk = omega arith;
        bytes = take k (contents r);
        departed =
            stream.send-sent w _ k e
            ∙ ap (λ bs. s.sent w ++ bs) (ap (take k) part ∙ take-take k m (contents r) h);
        contents_eq =
            rw (contents-skipped r v k (omega arith)) (sym (take-append-drop k (contents r)));
      }

  abbrev Left : Ring → s.State → Ring × s.State → Type 0
  Left r w (r', w') = Departed r w r' w'

  -- What the loop does, whatever it has left to send.
  abbrev Loops : ℕ → (s.State → Ring → ℕ → Option (Ring × s.State)) → Type 0
  Loops fuel loop =
      (w : s.State) (r : Ring) (total : ℕ)
      → total < fuel
      → total < 2 ^ 62
      → IsValid r
      → Succeeds (Left r w) (loop w r total)

  send_taken-Departed :
      (fuel : ℕ) (loop : s.State → Ring → ℕ → Option (Ring × s.State)) (w : s.State) (r : Ring)
      (total m : ℕ)
      → Loops fuel loop
      → total < suc fuel
      → total < 2 ^ 62
      → IsValid r
      → m ≤ r.length
      → m ≤ total
      → r.offset + m ≤ r.capacity
      → (res : Option ℕ) → (s.send w (slice r.offset m r.buffer)).0 ≡ res
      → Succeeds (Left r w) (send_taken s loop r total res (s.send w (slice r.offset m r.buffer)).1)
  unfolding send_taken
  send_taken-Departed fuel loop w r total m ih f small v a b c none e =
      (_, refl, Departed-refl r w _ v (stream.send-failed w _ e))
  send_taken-Departed fuel loop w r total m ih f small v a b c (some zero) e =
      (_, refl, Departed-refl r w _ v (stream.send-sent w _ 0 e ∙ append-nil (s.sent w)))
  send_taken-Departed fuel loop w r total m ih f small v a b c (some (suc k)) e =
      let size : length (slice r.offset m r.buffer) ≡ m =
        length-slice r.offset m r.buffer (omega arith) in
      let le : suc k ≤ m = omega (arith, size, stream.send-le w _ (suc k) e) in
      let w' = (s.send w (slice r.offset m r.buffer)).1 in
      let gone = round-Departed r w v m (suc k) a c e le in
      rw
        (
          advance-skipped r v (suc k) (omega arith),
          sub_size-small total (suc k) (omega arith) (omega arith),
        )
        (let ((r'', w''), e', d) =
            ih w' (skipped r (suc k)) (total - suc k) (omega arith) (omega arith) gone.valid in
          ((r'', w''), e', Departed-trans r w (skipped r (suc k)) w' r'' w'' gone d))

  -- The loop ends: each round that goes on has sent at least one byte.
  send_loop-Departed : (fuel : ℕ) → Loops fuel (send_loop s fuel)
  unfolding send_loop
  send_loop-Departed zero w r total f small v = absurd (omega arith)
  send_loop-Departed (suc fuel) w r total f small v =
      let m = send_size r total in
      let (a, b, c) = send_size_bounds r v total in
      Succeeds-if (total == 0) (λ _. ((r, w), refl, Departed-refl r w w v refl))
        λ _. rw (copy_from-some r.buffer r.offset m (omega arith)) (
          send_taken-Departed fuel (send_loop s fuel) w r total m (send_loop-Departed fuel) f small
            v a b c (s.send w (slice r.offset m r.buffer)).0 refl)

  abbrev pub Outcome : Ring → s.State → ℤ × Ring × s.State → Type 0
  Outcome r w (k, r', w') = (d : Departed r w r' w') × (k ≡ pos (length d.bytes))

  -- ss_ring_buffer_send on a valid buffer and a stream ends without reading outside the buffer. What the socket took is exactly
  -- what left the front of the contents, in order, and the value returned is its number.
  pub send-Departed :
      (w : s.State) (r : Ring) (max_size : ℕ)
      → max_size < 2 ^ 62
      → IsValid r
      → Succeeds (Outcome r w) (send s w r max_size)
  unfolding send
  send-Departed w r max_size small v =
      Succeeds-bind (send_loop-Departed (suc max_size) w r max_size (omega arith) small v)
        λ (r', w') d.
          let size : length d.bytes ≡ r.length - r'.length = omega (
            arith,
            ap length d.contents_eq,
            length-append d.bytes (contents r'),
            length-tabulate r.length (byte_at r),
            length-tabulate r'.length (byte_at r'),
          ) in
          (
            _,
            refl,
            (
              d,
              rw (
                sub_size-small r.length r'.length d.shrunk (omega arith),
                to_ssize-small (r.length - r'.length) (omega arith),
                size,
              ),
            ),
          )
