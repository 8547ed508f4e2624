-- ===== src/RingBuffer/Read.antt =====
-- ss_ring_buffer_read_fixed and ss_ring_buffer_read: the oldest bytes are taken out.
use simple_socks.Common.{
  ℕ, ◌+◌, ◌-◌, ◌%◌, ◌≤◌, ◌<◌, ◌≡◌, refl, sym, ap, ◌∙◌, Bool, true, false, some, [], arith, ltb,
  if◌then◌else◌, pos, minus_one, take, drop, copy_from-some, rem-some, add_size-small,
  sub_size-small, to_ssize-small, ge→ltb, ne→==, min, lt→ltb, list_ext, length-tabulate,
  length-drop, get_or-tabulate, get_or-drop, get_or,
}
use native.Mathlib.Decide.{dec_lt}
use simple_socks.RingBuffer.{Ring, read_fixed, read, min_size, advance}
use simple_socks.RingBuffer.Contents.{
  contents, byte_at, IsValid, slice-contents_fits, slice-contents_turns, first_part_fits,
  first_part_turns,
}
use simple_socks.Common.{mod_turn}

-- `r` without its `n` oldest bytes.
abbrev pub skipped : Ring → ℕ → Ring
skipped r n = record r { offset = (r.offset + n) % r.capacity; length = r.length - n }

module _ (r : Ring) (v : IsValid r) (n : ℕ) (within : n ≤ r.length) where
  turn :
      (r.offset + n) % r.capacity
      ≡ (if ltb (r.offset + n) r.capacity then r.offset + n else r.offset + n - r.capacity)
  turn = mod_turn (r.offset + n) r.capacity (omega arith)

  pub skipped-IsValid : IsValid (skipped r n)
  skipped-IsValid = ground (arith, turn)

  pub contents-skipped : contents (skipped r n) ≡ drop n (contents r)
  contents-skipped =
      let size = length-tabulate r.length (byte_at r) in
      let size' = length-tabulate (r.length - n) (byte_at (skipped r n)) in
      list_ext 0 _ _ (omega (arith, size, size', length-drop n (contents r))) λ i h.
        let below : i < r.length - n = omega (arith, size') in
        get_or-tabulate (r.length - n) (byte_at (skipped r n)) i 0 below
        ∙ ap (λ k. get_or r.buffer k 0)
            (ground (
              arith,
              turn,
              mod_turn (r.offset + (n + i)) r.capacity (omega arith),
              mod_turn ((r.offset + n) % r.capacity + i) r.capacity (ground (arith, turn)),
            ))
        ∙ sym (get_or-tabulate r.length (byte_at r) (n + i) 0 (omega arith))
        ∙ sym (get_or-drop n (contents r) i 0)

  pub advance-skipped : advance r n ≡ some (skipped r n)
  unfolding advance
  advance-skipped = rw (
    add_size-small r.offset n (omega arith),
    rem-some (r.offset + n) r.capacity (omega arith),
    sub_size-small r.length n within (omega arith),
  )

module _ (r : Ring) (v : IsValid r) (n : ℕ) (within : n ≤ r.length) where
  pub here : (r.offset + 0) % r.capacity ≡ r.offset
  here = ground (arith, mod_turn (r.offset + 0) r.capacity (omega arith))

  -- The two parts of a read that goes round leave what one step would.
  skipped_twice :
      r.capacity < r.offset + n
      → skipped (skipped r (r.capacity - r.offset)) (n - (r.capacity - r.offset)) ≡ skipped r n
  skipped_twice turns =
      let c = r.capacity in
      let zero_now : (r.offset + (c - r.offset)) % c ≡ 0 =
        ground (arith, mod_turn (r.offset + (c - r.offset)) c (omega arith)) in
      let rest : (0 + (n - (c - r.offset))) % c ≡ (r.offset + n) % c = ground (
        arith,
        mod_turn (0 + (n - (c - r.offset))) c (omega arith),
        mod_turn (r.offset + n) c (omega arith),
      ) in
      let size : r.length - (c - r.offset) - (n - (c - r.offset)) ≡ r.length - n = omega arith in
      rw (zero_now, rest, size)

  -- A read takes the oldest `n` bytes, in order, or drops them where `dest` is null.
  pub read_fixed-skipped :
      (dest : Bool)
      → read_fixed dest r n ≡ some (pos n, (if dest then take n (contents r) else []), skipped r n)
  unfolding read_fixed
  read_fixed-skipped false =
      rw (ge→ltb r.length n within, advance-skipped r v n within, to_ssize-small n (omega arith))
  read_fixed-skipped true = elim (dec_lt r.capacity (r.offset + n)) [
    | yes turns ↦
        let k = r.capacity - r.offset in
        let r' = skipped r k in
        let within' : n - k ≤ r'.length = omega arith in
        let v' = skipped-IsValid r v k (omega arith) in
        let zero_now : r'.offset ≡ 0 =
          ground (arith, mod_turn (r.offset + k) r.capacity (omega arith)) in
        let bytes = rw here at (slice-contents_turns r v 0 n (omega arith) (rw here turns)) in
        rw (
          ge→ltb r.length n within,
          first_part_turns r.capacity r.offset n turns (omega arith) (omega arith) v.small,
          ne→== k 0 (omega arith),
          copy_from-some r.buffer r.offset k (omega arith),
          advance-skipped r v k (omega arith),
          sub_size-small n k (omega arith) (omega arith),
          ne→== (n - k) 0 (omega arith),
          zero_now,
          copy_from-some r.buffer 0 (n - k) (omega arith),
          ← zero_now,
          advance-skipped r' v' (n - k) within',
          skipped_twice turns,
          bytes,
          to_ssize-small n (omega arith),
        )
    | no fits ↦
        let bytes =
          rw here at (slice-contents_fits r v 0 n (omega arith) (rw here (omega arith))) in
        rw
          (
            ge→ltb r.length n within,
            first_part_fits r.capacity r.offset n (omega arith) v.small,
            copy_from-some r.buffer r.offset n (omega arith),
            advance-skipped r v n within,
            bytes,
            to_ssize-small n (omega arith),
          )
          (ground (arith, here))
  ]

-- `ss_ring_buffer_read` takes as many bytes as there are, `max_size` at most.
pub read-skipped :
    (r : Ring) (v : IsValid r) (dest : Bool) (max_size : ℕ)
    → let n = min r.length max_size in
      read dest r max_size ≡ some (pos n, (if dest then take n (contents r) else []), skipped r n)
unfolding read
read-skipped r v dest max_size =
    let size : min_size r.length max_size ≡ min r.length max_size = ground arith in
    rw size (read_fixed-skipped r v (min r.length max_size) (omega arith) dest)

-- A request for more than the contents is refused and changes nothing.
pub read_fixed-refused :
    (r : Ring) (dest : Bool) (n : ℕ) → r.length < n → read_fixed dest r n ≡ some (minus_one, [], r)
unfolding read_fixed
read_fixed-refused r dest n h = rw (lt→ltb r.length n h)

-- `ss_ring_buffer_read` on a valid buffer hands out the oldest bytes, as many as there are up to `max_size`, returns
-- their number, and leaves a valid buffer of the bytes behind them. A null `dest` drops them.
pub read-oldest :
    (r : Ring) (v : IsValid r) (dest : Bool) (max_size : ℕ)
    → let n = min r.length max_size in
      (r' : Ring) × (read dest r max_size
        ≡ some (pos n, (if dest then take n (contents r) else []), r'))
      × IsValid r'
      × (contents r' ≡ drop n (contents r))
      × (r'.capacity ≡ r.capacity)
read-oldest r v dest max_size =
    let n = min r.length max_size in
    (
      skipped r n,
      read-skipped r v dest max_size,
      skipped-IsValid r v n (omega arith),
      contents-skipped r v n (omega arith),
      refl,
    )
