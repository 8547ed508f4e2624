-- ===== src/RingBuffer/Steal.antt =====
-- ss_ring_buffer_steal_fixed and ss_ring_buffer_steal: the bytes at an offset, left in the buffer.
use simple_socks.Common.{
  ℕ, ◌+◌, ◌-◌, ◌%◌, ◌^◌, ◌≤◌, ◌<◌, ◌≡◌, Bool, sub_size, min, true, some, [], arith, pos, minus_one,
  ge→ltb, lt→ltb, add_size-small, sub_size-small, ne→==, to_ssize-small, slice, copy_from-some,
  rem-some, add_size,
}
use native.Mathlib.Decide.{dec_lt}
use simple_socks.RingBuffer.{Ring, steal_fixed, steal, min_size}
use simple_socks.RingBuffer.Contents.{
  first_part_fits, first_part_turns, round_to_zero, contents, IsValid, slice-contents_fits,
  slice-contents_turns,
}

module _ (r : Ring) (v : IsValid r) where
  -- A request that lies within the contents is served with exactly those bytes.
  pub steal_fixed-contents :
      (o n : ℕ) → o + n ≤ r.length → steal_fixed true r o n ≡ some (pos n, slice o n (contents r))
  unfolding steal_fixed
  steal_fixed-contents o n within =
      let s = (r.offset + o) % r.capacity in
      let below : s < r.capacity = omega arith in
      let start_eq = add_size-small r.offset o (omega arith) in
      let round = rem-some (r.offset + o) r.capacity (omega arith) in
      let inside = ge→ltb r.length (add_size o n) (omega arith) in
      elim (dec_lt r.capacity (s + n)) [
        | yes turns ↦
            let k = r.capacity - s in
            rw (
              inside,
              start_eq,
              round,
              first_part_turns r.capacity s n turns (omega arith) (omega arith) v.small,
              ne→== k 0 (omega arith),
              copy_from-some r.buffer s k (omega arith),
              round_to_zero r.capacity s below v.small,
              sub_size-small n k (omega arith) (omega arith),
              ne→== (n - k) 0 (omega arith),
              copy_from-some r.buffer 0 (n - k) (omega arith),
              to_ssize-small n (omega arith),
              slice-contents_turns r v o n within turns,
            )
        | no fits ↦
            rw (inside, start_eq, round, first_part_fits r.capacity s n (omega arith) v.small)
              (ground (
                arith,
                slice-contents_fits r v o n within (omega arith),
                rem-some (s + n) r.capacity,
                copy_from-some r.buffer s n,
              ))
      ]

  -- A request past the end of the contents is refused.
  pub steal_fixed-refused :
      (dest : Bool) (o n : ℕ)
      → o + n < 2 ^ 64
      → r.length < o + n
      → steal_fixed dest r o n ≡ some (minus_one, [])
  unfolding steal_fixed
  steal_fixed-refused dest o n h k = ground arith

  -- ss_ring_buffer_steal on a valid buffer, at an offset within the contents, hands out the bytes
  -- from there on, as many as there are up to the size asked for, and returns their number.
  pub steal-contents :
      (o n : ℕ)
      → o ≤ r.length
      → steal true r o n
        ≡ some (pos (min n (r.length - o)), slice o (min n (r.length - o)) (contents r))
  unfolding steal
  steal-contents o n h =
      let size : min_size (sub_size r.length o) n ≡ min n (r.length - o) = ground arith in
      rw (ge→ltb r.length o h, size) (steal_fixed-contents o (min n (r.length - o)) (omega arith))

  -- Beyond the contents there is nothing.
  pub steal-beyond : (dest : Bool) (o n : ℕ) → r.length < o → steal dest r o n ≡ some (pos 0, [])
  unfolding steal
  steal-beyond dest o n h = rw (lt→ltb r.length o h)
