-- ===== src/RingBuffer/Write.antt =====
-- ss_ring_buffer_write_fixed and ss_ring_buffer_write: bytes behind the contents.
use simple_socks.Common.{
  ℕ, ◌+◌, ◌-◌, ◌%◌, ◌^◌, ◌≤◌, ◌<◌, ◌≡◌, refl, sym, ap, ◌∙◌, some, List, ◌++◌, arith, ltb,
  if◌then◌else◌, pos, minus_one, slice, take, drop, blit, copy_from-some, copy_to-some, rem-some,
  length, add_size, add_size-small, sub_size-small, to_ssize-small, ge→ltb, lt→ltb, ne→==, list_ext,
  length-tabulate, length-append, length-blit, length-take, length-drop, take_all, nil_of_length,
  get_or-tabulate, get_or-append_left, get_or-append_right, get_or-blit, get_or, ℤ, Succeeds,
}
use native.Mathlib.Decide.{dec_lt, ℕ_discrete}
use simple_socks.RingBuffer.{Ring, write_fixed}
use simple_socks.RingBuffer.Contents.{contents, byte_at, IsValid, first_part_fits, first_part_turns}
use simple_socks.Common.{mod_turn}

-- The index behind the contents.
abbrev pub end_index : Ring → ℕ
end_index r = (r.offset + r.length) % r.capacity

-- `bs` copied behind the contents and counted in.
abbrev pub appended : Ring → List ℕ → Ring
appended r bs = record r { buffer = blit r.buffer (end_index r) bs; length = r.length + length bs }

module _ (r : Ring) (v : IsValid r) where
  pub end_turn : end_index r ≡ (
      if ltb (r.offset + r.length) r.capacity
      then r.offset + r.length
      else r.offset + r.length - r.capacity)
  end_turn = mod_turn (r.offset + r.length) r.capacity (omega arith)

  module _ (bs : List ℕ) (room : r.length + length bs ≤ r.capacity)
      (fits : end_index r + length bs ≤ r.capacity) where
    pub appended-IsValid : IsValid (appended r bs)
    appended-IsValid = omega (arith, length-blit r.buffer (end_index r) bs)

    old_byte : (i : ℕ) → i < r.length → byte_at (appended r bs) i ≡ byte_at r i
    old_byte i h = ground (
      arith,
      end_turn,
      mod_turn (r.offset + i) r.capacity (omega arith),
      get_or-blit r.buffer (end_index r) bs ((r.offset + i) % r.capacity) 0 (omega arith),
    )

    new_byte :
        (i : ℕ)
        → r.length ≤ i
        → i < r.length + length bs
        → byte_at (appended r bs) i ≡ get_or bs (i - r.length) 0
    new_byte i h k = ground (
      arith,
      end_turn,
      mod_turn (r.offset + i) r.capacity (omega arith),
      get_or-blit r.buffer (end_index r) bs ((r.offset + i) % r.capacity) 0 (omega arith),
    )

    -- What is copied behind the contents comes last.
    pub contents-appended : contents (appended r bs) ≡ contents r ++ bs
    contents-appended =
        let size = length-tabulate r.length (byte_at r) in
        let size' = length-tabulate (r.length + length bs) (byte_at (appended r bs)) in
        let whole = length-append (contents r) bs in
        list_ext 0 _ _ (omega (arith, size, size', whole)) λ i h.
          let at =
            get_or-tabulate (r.length + length bs) (byte_at (appended r bs)) i 0
              (omega (arith, size')) in
          elim (dec_lt i r.length) [
            | yes p ↦
                at
                ∙ old_byte i p
                ∙ sym (get_or-tabulate r.length (byte_at r) i 0 p)
                ∙ sym (get_or-append_left (contents r) bs i 0 (omega (arith, size)))
            | no p ↦
                at
                ∙ new_byte i (omega arith) (omega (arith, size'))
                ∙ ap (λ k. get_or bs k 0) (omega (arith, size))
                ∙ sym (get_or-append_right (contents r) bs i 0 (omega (arith, size)))
          ]

-- `bs` copied to the start of the memory, behind contents that reach its end, not counted in.
abbrev scribbled : Ring → List ℕ → Ring
scribbled r bs = record r { buffer = blit r.buffer 0 bs }

module _ (r : Ring) (v : IsValid r) (bs : List ℕ) (at_end : r.offset + r.length ≡ r.capacity)
    (before : length bs ≤ r.offset) where
  scribbled-IsValid : IsValid (scribbled r bs)
  scribbled-IsValid = omega (arith, length-blit r.buffer 0 bs)

  contents-scribbled : contents (scribbled r bs) ≡ contents r
  contents-scribbled =
      let size = length-tabulate r.length (byte_at r) in
      let size' = length-tabulate r.length (byte_at (scribbled r bs)) in
      list_ext 0 _ _ (omega (arith, size, size')) λ i h.
        let p : i < r.length = omega (arith, size') in
        let same : byte_at (scribbled r bs) i ≡ byte_at r i = ground (
          arith,
          mod_turn (r.offset + i) r.capacity (omega arith),
          get_or-blit r.buffer 0 bs ((r.offset + i) % r.capacity) 0 (omega arith),
        ) in
        get_or-tabulate r.length (byte_at (scribbled r bs)) i 0 p
        ∙ same
        ∙ sym (get_or-tabulate r.length (byte_at r) i 0 p)

-- What a write of `src` leaves: valid, and longer by what fits before the end of the memory.
pub record Written (r : Ring) (src : List ℕ) (k : ℕ) (result : ℤ × Ring) : Type 0 where
  pub value : result.0 ≡ pos (length src)
  pub valid : IsValid result.1
  pub bytes : contents result.1 ≡ contents r ++ take k src
  pub kept : result.1.capacity ≡ r.capacity

module _ (r : Ring) (v : IsValid r) (src : List ℕ) (room : r.length + length src ≤ r.capacity) where
  abbrev n : ℕ
  n = length src

  end_below : end_index r < r.capacity
  end_below = ground (arith, end_turn r v)

  slice_all : slice 0 n src ≡ src
  slice_all = take_all n src (omega arith)

  -- Up to the end of the memory the whole of `src` is appended.
  pub write_fixed_fits :
      end_index r + n ≤ r.capacity → write_fixed r src n ≡ some (pos n, appended r src)
  unfolding write_fixed
  write_fixed_fits fits = elim (ℕ_discrete n 0) [
    | yes empty ↦
        rw
          (
            add_size-small r.length n (omega arith),
            ge→ltb r.capacity (r.length + n) room,
            add_size-small r.offset r.length (omega arith),
            rem-some (r.offset + r.length) r.capacity (omega arith),
            first_part_fits r.capacity (end_index r) n fits v.small,
            nil_of_length src empty,
          )
          (ground arith)
    | no some_bytes ↦
        rw
          (
            add_size-small r.length n (omega arith),
            ge→ltb r.capacity (r.length + n) room,
            add_size-small r.offset r.length (omega arith),
            rem-some (r.offset + r.length) r.capacity (omega arith),
            first_part_fits r.capacity (end_index r) n fits v.small,
            copy_from-some src 0 n (omega arith),
            slice_all,
            copy_to-some r.buffer (end_index r) src (omega arith),
            ne→== n 0 some_bytes,
            sub_size-small n n (omega arith) (omega arith),
            add_size-small r.length n (omega arith),
            to_ssize-small n (omega arith),
          )
          (ground arith)
  ]

  write_fixed_turns :
      r.capacity < end_index r + n
      → write_fixed r src n
        ≡ some (
          pos n,
          scribbled
              (appended r (take (r.capacity - end_index r) src))
              (drop (r.capacity - end_index r) src),
        )
  unfolding write_fixed
  write_fixed_turns turns =
      let e = end_index r in
      let k = r.capacity - e in
      let taken : length (take k src) ≡ k = omega (arith, length-take k src) in
      rw (
        add_size-small r.length n (omega arith),
        ge→ltb r.capacity (r.length + n) room,
        add_size-small r.offset r.length (omega arith),
        rem-some (r.offset + r.length) r.capacity (omega arith),
        first_part_turns r.capacity e n turns (omega (arith, end_below)) (omega arith) v.small,
        ne→== k 0 (omega (arith, end_below)),
        copy_from-some src 0 k (omega (arith, end_below)),
        copy_to-some r.buffer e (take k src) (omega (arith, length-take k src, end_below)),
        sub_size-small n k (omega arith) (omega arith),
        ne→== (n - k) 0 (omega arith),
        copy_from-some src k (n - k) (omega arith),
        take_all (n - k) (drop k src) (omega (arith, length-drop k src)),
        copy_to-some (blit r.buffer e (take k src)) 0 (drop k src)
            (omega (arith, length-drop k src, length-blit r.buffer e (take k src), end_below)),
        to_ssize-small n (omega arith),
        add_size-small r.length k (omega (arith, end_below)),
        taken,
      )

  -- ss_ring_buffer_write_fixed on a valid buffer with room for `src` returns the size of `src`. What
  -- follows the contents then is as much of `src` as the memory holds up to its end.
  pub write_fixed-Written :
      Succeeds (Written r src (r.capacity - end_index r)) (write_fixed r src n)
  write_fixed-Written = elim (dec_lt r.capacity (end_index r + n)) [
    | yes turns ↦
        let k = r.capacity - end_index r in
        let taken : length (take k src) ≡ k = omega (arith, length-take k src) in
        let room' : r.length + length (take k src) ≤ r.capacity = omega (arith, end_turn r v) in
        let fits' : end_index r + length (take k src) ≤ r.capacity = omega (arith, end_below) in
        let part = appended-IsValid r v (take k src) room' fits' in
        let at_end : r.offset + (r.length + length (take k src)) ≡ r.capacity =
          ground (arith, end_turn r v) in
        let before : length (drop k src) ≤ r.offset =
          ground (arith, end_turn r v, length-drop k src) in
        (
          _,
          write_fixed_turns turns,
          record {
            value = refl;
            valid = scribbled-IsValid (appended r (take k src)) part (drop k src) at_end before;
            bytes =
                contents-scribbled (appended r (take k src)) part (drop k src) at_end before
                ∙ contents-appended r v (take k src) room' fits';
            kept = refl;
          },
        )
    | no fits ↦
        let whole = take_all (r.capacity - end_index r) src (omega (arith, end_below)) in
        (
          _,
          write_fixed_fits (omega arith),
          record {
            value = refl;
            valid = appended-IsValid r v src room (omega arith);
            bytes = rw whole (contents-appended r v src room (omega arith));
            kept = refl;
          },
        )
  ]

  -- ss_ring_buffer_write_fixed on a valid buffer with room for `src`, where `src` goes round the end
  -- of the memory, reports more bytes than the buffer gained.
  pub write_fixed_loses :
      r.capacity < end_index r + n
      → Succeeds (λ (k, r'). (k ≡ pos n) × (r'.length < r.length + n)) (write_fixed r src n)
  write_fixed_loses turns = (
    _,
    write_fixed_turns turns,
    (refl, omega (arith, length-take (r.capacity - end_index r) src)),
  )

-- A write that there is no room for is refused and changes nothing.
pub write_fixed-refused :
    (r : Ring) (src : List ℕ) (n : ℕ)
    → r.length + n < 2 ^ 64
    → r.capacity < r.length + n
    → write_fixed r src n ≡ some (minus_one, r)
unfolding write_fixed
write_fixed-refused r src n small h = rw (lt→ltb r.capacity (add_size r.length n) (omega arith))
