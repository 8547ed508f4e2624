-- ===== src/RingBuffer/Stream/Receive.antt =====
-- ss_ring_buffer_recv: the bytes that arrive are appended, and none is lost.
use simple_socks.Common.{
  ℕ, ◌+◌, ◌-◌, ◌≤◌, ◌≡◌, refl, sym, ap, ◌∙◌, not, true, false, Option, none, some, List, [], ◌++◌,
  arith, ltb, ◌==◌, pos, copy_to-some, rem-some, length, add_size, add_size-small, sub_size,
  sub_size-small, to_ssize, to_ssize-small, ge→ltb, lt→ltb, nil_of_length, Succeeds, Succeeds-bind,
  Succeeds-if, ℤ, length-append, length-tabulate, Bool-cases, inl, inr,
}
use native.Mathlib.Decide.{dec_lt}
use mathlib.Core.List.{append-nil, append_assoc}
use simple_socks.Common.Socket.{Socket, IsStream}
use simple_socks.RingBuffer.{Ring}
use simple_socks.RingBuffer.Contents.{contents, byte_at, IsValid}
use simple_socks.RingBuffer.Write.{
  end_index, appended, appended-IsValid, contents-appended, end_turn,
}
use simple_socks.RingBuffer.Stream.{
  cap_at, Fill, handle_recv_result, fill, recv_first, recv_second, recv,
}

module _ (s : Socket) (stream : IsStream s) where
  -- From (r, w) to (r', w') some bytes moved from the socket to the end of the contents.
  pub record Received (r : Ring) (w : s.State) (r' : Ring) (w' : s.State) : Type 0 where
    pub valid : IsValid r'
    pub kept : r'.capacity ≡ r.capacity
    pub grown : r.length ≤ r'.length
    pub bytes : List ℕ
    pub arrived : s.pending w ≡ bytes ++ s.pending w'
    pub contents_eq : contents r' ≡ contents r ++ bytes
    pub start_kept : r'.offset ≡ r.offset

  pub Received-refl :
      (r : Ring) (w w' : s.State) → IsValid r → s.pending w ≡ s.pending w' → Received r w r w'
  Received-refl r w w' v e = record {
    valid = v;
    kept = refl;
    grown = omega arith;
    bytes = [];
    arrived = e;
    contents_eq = sym (append-nil (contents r));
    start_kept = refl;
  }

  pub Received-trans :
      (r : Ring) (w : s.State) (r' : Ring) (w' : s.State) (r'' : Ring) (w'' : s.State)
      → Received r w r' w'
      → Received r' w' r'' w''
      → Received r w r'' w''
  Received-trans r w r' w' r'' w'' a b = record {
    valid = b.valid;
    kept = b.kept ∙ a.kept;
    grown = omega arith;
    bytes = a.bytes ++ b.bytes;
    arrived = rw (a.arrived, b.arrived) (sym (append_assoc a.bytes b.bytes (s.pending w'')));
    contents_eq = rw (b.contents_eq, a.contents_eq) (append_assoc (contents r) a.bytes b.bytes);
    start_kept = b.start_kept ∙ a.start_kept;
  }

  -- What one call of recv() gives.
  abbrev Filled : Ring → s.State → Fill s → Type 0
  Filled r w (more, k, r', w') = Received r w r' w'

  module _ (r : Ring) (w : s.State) (v : IsValid r) (n : ℕ) (room : r.length + n ≤ r.capacity)
      (fits : end_index r + n ≤ r.capacity) where
    handle-Filled :
        (res : Option (List ℕ))
        → (s.recv w n).0 ≡ res
        → Succeeds (Filled r w) (handle_recv_result s r (end_index r) n res (s.recv w n).1)
    unfolding handle_recv_result
    handle-Filled none e = (_, refl, Received-refl r w _ v (stream.recv-failed w n e))
    handle-Filled (some bs) e =
        let small = stream.recv-le w n bs e in
        let arrived = stream.recv-pending w n bs e in
        let copy = copy_to-some r.buffer (end_index r) bs (omega arith) in
        elim (Bool-cases (length bs == 0)) [
          | inl nothing ↦
              let empty : bs ≡ [] = nil_of_length bs (ground arith) in
              (
                (false, 0, r, (s.recv w n).1),
                rw (copy, nothing),
                Received-refl r w _ v (rw empty at arrived),
              )
          | inr something ↦ (
            (not (ltb (length bs) n), length bs, appended r bs, (s.recv w n).1),
            rw (copy, something, add_size-small r.length (length bs) (omega arith)),
            record {
              valid = appended-IsValid r v bs (omega arith) (omega arith);
              kept = refl;
              grown = omega arith;
              bytes = bs;
              arrived = arrived;
              contents_eq = contents-appended r v bs (omega arith) (omega arith);
              start_kept = refl;
            },
          )
        ]

    fill-Filled : Succeeds (Filled r w) (fill s w r (end_index r) n)
    unfolding fill
    fill-Filled = handle-Filled (s.recv w n).0 refl

  module _ (r : Ring) (w : s.State) (v : IsValid r) (total : ℕ) where
    recv_first-Filled : (stale : ℕ) → Succeeds (Filled r w) (recv_first s stale w r total)
    unfolding recv_first
    recv_first-Filled stale = elim (dec_lt (r.offset + r.length) r.capacity) [
      | yes p ↦
          let here : add_size r.offset r.length ≡ end_index r = ground (arith, end_turn r v) in
          let size : sub_size r.capacity (end_index r) ≡ r.capacity - end_index r =
            ground (arith, end_turn r v) in
          rw (here, lt→ltb (end_index r) r.capacity (ground (arith, end_turn r v)), size)
            (fill-Filled r w v (cap_at (r.capacity - end_index r) total)
              (ground (arith, end_turn r v)) (ground (arith, end_turn r v)))
      | no p ↦
          rw
            (
              add_size-small r.offset r.length (omega arith),
              ge→ltb (r.offset + r.length) r.capacity (omega arith),
            )
            ((true, stale, r, w), refl, Received-refl r w w v refl)
    ]

    recv_second-Filled : Succeeds (Filled r w) (recv_second s w r total)
    unfolding recv_second
    recv_second-Filled =
        rw
          (
            add_size-small r.offset r.length (omega arith),
            rem-some (r.offset + r.length) r.capacity (omega arith),
          )
          (elim (dec_lt (end_index r) r.offset) [
            | yes p ↦
                rw
                  (
                    lt→ltb (end_index r) r.offset p,
                    sub_size-small r.offset (end_index r) (omega arith) (omega arith),
                  )
                  (fill-Filled r w v (cap_at (r.offset - end_index r) total)
                    (ground (arith, end_turn r v)) (ground (arith, end_turn r v)))
            | no p ↦
                rw (ge→ltb (end_index r) r.offset (omega arith))
                  ((true, 0, r, w), refl, Received-refl r w w v refl)
          ])

  pub Received-grown :
      (r : Ring) (w : s.State) (r' : Ring) (w' : s.State)
      → IsValid r
      → (c : Received r w r' w') → length c.bytes ≡ r'.length - r.length
  Received-grown r w r' w' v c = omega (
    arith,
    ap length c.contents_eq,
    length-append (contents r) c.bytes,
    length-tabulate r.length (byte_at r),
    length-tabulate r'.length (byte_at r'),
  )

  -- The number returned is the number of bytes that arrived.
  Received-size :
      (r : Ring) (w : s.State) (r' : Ring) (w' : s.State)
      → (v : IsValid r) → (c : Received r w r' w')
      → to_ssize (sub_size r'.length r.length) ≡ pos (length c.bytes)
  Received-size r w r' w' v c =
      let valid = c.valid in
      let size = Received-grown r w r' w' v c in
      rw (
        sub_size-small r'.length r.length c.grown (omega arith),
        to_ssize-small (r'.length - r.length) (omega arith),
        size,
      )

  abbrev pub Outcome : Ring → s.State → ℤ × Ring × s.State → Type 0
  Outcome r w (k, r', w') = (c : Received r w r' w') × (k ≡ pos (length c.bytes))

  -- ss_ring_buffer_recv on a valid buffer and a stream never writes outside the buffer, whatever the uninitialised variable holds.
  -- The bytes that it takes from the stream, and no others, are appended to the contents in order,
  -- and it returns their number.
  pub recv-Received :
      (stale : ℕ) (w : s.State) (r : Ring) (max_size : ℕ)
      → IsValid r
      → Succeeds (Outcome r w) (recv s stale w r max_size)
  unfolding recv
  recv-Received stale w r max_size v =
      let done =
        λ (r' : Ring) (w' : s.State) (c : Received r w r' w'). Received-size r w r' w' v c in
      Succeeds-if (max_size == 0)
        (λ _. let c = Received-refl r w w v refl in ((_, r, w), refl, (c, done r w c)))
        λ _. Succeeds-bind (recv_first-Filled r w v max_size stale) λ (more, k, r', w') c.
          Succeeds-if (not more) (λ _. ((_, r', w'), refl, (c, done r' w' c)))
            λ _.
              Succeeds-if (sub_size max_size k == 0) (λ _. ((_, r', w'), refl, (c, done r' w' c)))
                λ _.
                  Succeeds-bind (recv_second-Filled r' w' c.valid (sub_size max_size k))
                    λ (_, _, r'', w'') d.
                      let e = Received-trans r w r' w' r'' w'' c d in
                      ((_, r'', w''), refl, (e, done r'' w'' e))
