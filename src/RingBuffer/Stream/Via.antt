-- ===== src/RingBuffer/Stream/Via.antt =====
-- ss_recv_via_buffer and ss_send_via_buffer: what each result code means.
use simple_socks.Common.{
  ℕ, ◌+◌, ◌-◌, ◌^◌, ◌≤◌, ◌<◌, ◌≡◌, refl, Bool, true, false, not, List, ◌++◌, arith, ltb, leb, ◌==◌,
  if◌then◌else◌, length, add_size-small, sub_size, is_nonpos, slice, take, min, Succeeds,
  Succeeds-bind, Succeeds-if, inl, inr, ◌⊎◌, some, [], ge→ltb, take_all, ap, ◌∙◌,
}
use native.Mathlib.Decide.{dec_lt}
use simple_socks.Common.IoError.{IoError, ok, again, error, overflow, empty}
use simple_socks.Common.Socket.{Socket, IsStream}
use simple_socks.RingBuffer.{Ring}
use simple_socks.RingBuffer.Contents.{contents, IsValid}
use simple_socks.RingBuffer.Steal.{steal-contents}
use simple_socks.RingBuffer.Write.{write_fixed-Written, write_fixed-refused, end_index}
use simple_socks.RingBuffer.Stream.{deliver, recv_via_buffer, send_via_buffer}
use simple_socks.RingBuffer.Stream.Receive.{Received, Received-refl, Received-grown, recv-Received}

-- The result code of a request for `size` bytes at `offset`, from the buffer before and after it.
abbrev pub answer : Bool → Ring → Ring → ℕ → ℕ → IoError
answer dest r r' offset size =
    if ltb r.capacity (offset + size)
    then overflow
    else if leb (offset + size) r'.length
    then ok
    else if r'.length == r.length
    then again
    else if dest
    then error
    else ok

module _ (s : Socket) (stream : IsStream s) (o n : ℕ) (small : o + n < 2 ^ 62) where
  pub record Answered (dest : Bool) (r : Ring) (w : s.State)
      (result : IoError × List ℕ × Ring × s.State) : Type 0 where
    pub code : result.0 ≡ answer dest r result.2 o n
    pub received : Received s stream r w result.2 result.3
    pub bytes : dest ≡ true → result.0 ≡ ok → result.1 ≡ slice o n (contents result.2)

  deliver_lem :
      (dest : Bool) (r : Ring) (w : s.State) (r' : Ring) (w' : s.State)
      → o ≤ r.length
      → Received s stream r w r' w'
      → o + n ≤ r.capacity
      → (o + n ≤ r'.length) ⊎ (r.length < r'.length)
      → Succeeds (Answered dest r w) (deliver s dest r' o n w')
  unfolding deliver
  deliver_lem false r w r' w' h c room enough =
      (_, refl, record { code = ground arith; received = c; bytes = λ p _. cc })
  deliver_lem true r w r' w' h c room enough =
      let k = min n (r'.length - o) in
      rw (steal-contents r' c.valid o n (omega arith)) (
        _,
        refl,
        record {
          code = ground arith;
          received = c;
          bytes = λ _ p. let whole : k ≡ n = ground arith in rw whole;
        },
      )

  -- ss_recv_via_buffer, for an offset within the contents. It never leaves the buffer, loses no
  -- byte of the stream, and its code is OVERFLOW where the request exceeds the capacity, OK where
  -- the buffer holds the request afterwards, AGAIN where nothing arrived, and for a request that
  -- is served in part ERROR, or OK where `dest` is null. With OK the caller has the bytes asked for.
  pub recv_via_buffer-Answered :
      (stale : ℕ) (dest : Bool) (w : s.State) (r : Ring)
      → IsValid r
      → o ≤ r.length
      → Succeeds (Answered dest r w) (recv_via_buffer s stale w dest r o n)
  unfolding recv_via_buffer
  recv_via_buffer-Answered stale dest w r v h =
      let same = Received-refl s stream r w w v refl in
      rw (add_size-small o n (omega arith)) (
        Succeeds-if (ltb r.capacity (o + n))
          (λ p. (
            _,
            refl,
            record { code = ground arith; received = same; bytes = λ _ q. absurd (ground arith) },
          ))
          λ p.
            Succeeds-if (not (ltb r.length (o + n)))
              (λ q. deliver_lem dest r w r w h same (ground arith) (inl (ground arith)))
              λ q.
                Succeeds-bind (recv-Received s stream stale w r (sub_size (o + n) r.length) v)
                  λ (k, r', w') (c, e).
                    let grown = Received-grown s stream r w r' w' v c in
                    Succeeds-if (is_nonpos k)
                      (λ t.
                        (_, refl, record { code = ground arith; received = c; bytes = λ _ u. cc }))
                      λ t. deliver_lem dest r w r' w' h c (ground arith) (inr (ground arith)))

-- What ss_send_via_buffer leaves, by its code.
abbrev pub Sent : Ring → List ℕ → IoError × Ring → Type 0
Sent r src (ok, r') =
    (r.length + length src ≤ r.capacity)
    × IsValid r'
    × (contents r' ≡ contents r ++ take (r.capacity - end_index r) src)
    × (r'.capacity ≡ r.capacity)
Sent r src (again, r') = (r.capacity < length src) × (r' ≡ r)
Sent r src (error, r') = (length src ≤ r.capacity) × (r.capacity < r.length + length src) × (r' ≡ r)
Sent r src (_, r') = ⊥

-- ss_send_via_buffer on a valid buffer is AGAIN for a message that never fits, ERROR for one that
-- does not fit now, both with the buffer unchanged; else OK, with the message behind the contents
-- as far as the end of the memory.
pub send_via_buffer-Sent :
    (r : Ring) (src : List ℕ)
    → IsValid r
    → Succeeds (Sent r src) (send_via_buffer r src (length src))
unfolding send_via_buffer
send_via_buffer-Sent r src v =
    Succeeds-if (ltb r.capacity (length src)) (λ p. (_, refl, (ground arith, refl)))
      λ p. elim (dec_lt r.capacity (r.length + length src)) [
        | yes q ↦
            rw (write_fixed-refused r src (length src) (ground arith) q)
              ((error, r), ground arith, (ground arith, q, refl))
        | no q ↦
            let ((k, r'), e, d) = write_fixed-Written r v src (omega arith) in
            rw (e, d.value) ((ok, r'), ground arith, (omega arith, d.valid, d.bytes, d.kept))
      ]

-- A message that fits before the end of the memory is behind the contents as a whole.
Sent-straight :
    (r : Ring) (src : List ℕ) (res : IoError × Ring)
    → Sent r src res
    → end_index r + length src ≤ r.capacity
    → r.length + length src ≤ r.capacity
    → (res.0 ≡ ok) × IsValid res.1 × (contents res.1 ≡ contents r ++ src)
Sent-straight r src (ok, r') (room, valid, more, same) h k = (
  refl,
  valid,
  more
      ∙ ap (λ (x : List ℕ). contents r ++ x)
          (take_all (r.capacity - end_index r) src (omega arith)),
)
Sent-straight r src (again, r') (a, b) h k = absurd (omega arith)
Sent-straight r src (error, r') (a, b, e) h k = absurd (omega arith)
Sent-straight r src (overflow, r') never h k = elim never [ ]
Sent-straight r src (empty, r') never h k = elim never [ ]

pub send_via_buffer-straight :
    (r : Ring) (src : List ℕ)
    → IsValid r
    → end_index r + length src ≤ r.capacity
    → r.length + length src ≤ r.capacity
    → (r' : Ring) × (send_via_buffer r src (length src) ≡ some (ok, r'))
      × IsValid r'
      × (contents r' ≡ contents r ++ src)
send_via_buffer-straight r src v h k =
    let (res, runs, sent) = send_via_buffer-Sent r src v in
    let (fine, valid, more) = Sent-straight r src res sent h k in
    (res.1, runs ∙ ap (λ (x : IoError). some (x, res.1)) fine, valid, more)

-- A request for bytes that the buffer holds needs no recv().
pub recv_via_buffer-held :
    (s : Socket) (stale : ℕ) (w : s.State) (dest : Bool) (r : Ring) (o n : ℕ)
    → IsValid r
    → o + n ≤ r.length
    → recv_via_buffer s stale w dest r o n
      ≡ some (ok, (if dest then slice o n (contents r) else []), r, w)
unfolding recv_via_buffer deliver
recv_via_buffer-held s stale w true r o n v h =
    let whole : min n (r.length - o) ≡ n = omega arith in
    let small = v.small in
    let length_in = v.length_in in
    rw
      (
        add_size-small o n (omega arith),
        ge→ltb r.capacity (o + n) (omega arith),
        ge→ltb r.length (o + n) h,
        steal-contents r v o n (omega arith),
        whole,
      )
      (ground arith)
recv_via_buffer-held s stale w false r o n v h =
    let small = v.small in
    let length_in = v.length_in in
    rw (
      add_size-small o n (omega arith),
      ge→ltb r.capacity (o + n) (omega arith),
      ge→ltb r.length (o + n) h,
    )
