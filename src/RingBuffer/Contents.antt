-- ===== src/RingBuffer/Contents.antt =====
-- The bytes that a ring buffer holds, oldest first, and its representation invariant.
use simple_socks.Common.{
  ℕ, ◌+◌, ◌-◌, ◌%◌, ◌^◌, ◌≤◌, ◌<◌, ◌≡◌, List, ◌++◌, ltb, if◌then◌else◌, arith, length, get_or, rem,
  rem-some, add_size, some, tabulate, slice, list_ext, get_or-slice, get_or-tabulate,
  get_or-append_left, get_or-append_right, length-slice, length-tabulate, length-append, sym, ◌∙◌,
  ap, mod_turn,
}
use native.Mathlib.Decide.{dec_lt}
use simple_socks.RingBuffer.{Ring, first_part}

-- Byte `i` of the contents lies `i` steps round the memory from `offset`.
abbrev pub byte_at : Ring → ℕ → ℕ
byte_at r i = get_or r.buffer ((r.offset + i) % r.capacity) 0

abbrev pub contents : Ring → List ℕ
contents r = tabulate r.length (byte_at r)

pub length-contents : (r : Ring) → length (contents r) ≡ r.length
length-contents r = length-tabulate r.length (byte_at r)

pub record IsValid (r : Ring) : Type 0 where
  pub storage : length r.buffer ≡ r.capacity
  pub small : r.capacity < 2 ^ 62
  pub offset_in : r.offset < r.capacity
  pub length_in : r.length ≤ r.capacity

-- The first part of a stretch ends with the stretch or with the memory.
pub first_part_fits : (c s n : ℕ) → s + n ≤ c → c < 2 ^ 62 → first_part c s n ≡ n
unfolding first_part
first_part_fits c s n h k = ground arith

pub first_part_turns :
    (c s n : ℕ) → c < s + n → s ≤ c → n ≤ c → c < 2 ^ 62 → first_part c s n ≡ c - s
unfolding first_part
first_part_turns c s n h k l m = ground arith

-- After the first part of a stretch that goes round, the next index is 0.
pub round_to_zero : (c s : ℕ) → s < c → c < 2 ^ 62 → rem (add_size s (c - s)) c ≡ some 0
round_to_zero c s h k =
    let whole : add_size s (c - s) ≡ c = omega arith in
    rw (whole, rem-some c c (omega arith)) (ground (arith, mod_turn c c (omega arith)))

module _ (r : Ring) (v : IsValid r) (o n : ℕ) (within : o + n ≤ r.length) where
  abbrev start : ℕ
  start = (r.offset + o) % r.capacity

  start_turn :
      start ≡ (if ltb (r.offset + o) r.capacity then r.offset + o else r.offset + o - r.capacity)
  start_turn = mod_turn (r.offset + o) r.capacity (omega arith)

  get_or-contents : (i : ℕ) → i < n → get_or (slice o n (contents r)) i 0 ≡ byte_at r (o + i)
  get_or-contents i h =
      get_or-slice o n (contents r) i 0 h
      ∙ get_or-tabulate r.length (byte_at r) (o + i) 0 (omega arith)

  length-slice-contents : length (slice o n (contents r)) ≡ n
  length-slice-contents =
      length-slice o n (contents r) (omega (arith, length-tabulate r.length (byte_at r)))

  -- The index of byte `o + i`, before and after the end of the memory.
  index_before :
      (i : ℕ) → i < n → start + i < r.capacity → start + i ≡ (r.offset + (o + i)) % r.capacity
  index_before i h p =
      ground (arith, start_turn, mod_turn (r.offset + (o + i)) r.capacity (omega arith))

  index_after :
      (i : ℕ)
      → i < n
      → r.capacity ≤ start + i
      → i - (r.capacity - start) ≡ (r.offset + (o + i)) % r.capacity
  index_after i h p =
      ground (arith, start_turn, mod_turn (r.offset + (o + i)) r.capacity (omega arith))

  -- A stretch of the contents that does not go round the end of the memory.
  pub slice-contents_fits : start + n ≤ r.capacity → slice start n r.buffer ≡ slice o n (contents r)
  slice-contents_fits fits =
      let size = length-slice start n r.buffer (omega arith) in
      list_ext 0 _ _ (size ∙ sym length-slice-contents) λ i h.
        let below : i < n = omega (arith, size) in
        get_or-slice start n r.buffer i 0 below
        ∙ ap (λ k. get_or r.buffer k 0) (index_before i below (omega arith))
        ∙ sym (get_or-contents i below)

  -- A stretch that goes round.
  pub slice-contents_turns :
      r.capacity < start + n
      → slice start (r.capacity - start) r.buffer ++ slice 0 (n - (r.capacity - start)) r.buffer
        ≡ slice o n (contents r)
  slice-contents_turns turns =
      let first = slice start (r.capacity - start) r.buffer in
      let second = slice 0 (n - (r.capacity - start)) r.buffer in
      let size : length first ≡ r.capacity - start =
        length-slice start (r.capacity - start) r.buffer (omega (arith, start_turn)) in
      let size' : length second ≡ n - (r.capacity - start) =
        length-slice 0 (n - (r.capacity - start)) r.buffer (omega (arith, start_turn)) in
      let whole : length (first ++ second) ≡ n =
        omega (arith, size, size', length-append first second, start_turn) in
      list_ext 0 _ _ (whole ∙ sym length-slice-contents) λ i h.
        let below : i < n = omega (arith, whole) in
        elim (dec_lt i (length first)) [
          | yes p ↦
              get_or-append_left first second i 0 p
              ∙ get_or-slice start (r.capacity - start) r.buffer i 0 (omega (arith, size))
              ∙ ap (λ k. get_or r.buffer k 0) (index_before i below (omega (arith, size)))
              ∙ sym (get_or-contents i below)
          | no p ↦
              get_or-append_right first second i 0 (omega arith)
              ∙ get_or-slice 0 (n - (r.capacity - start)) r.buffer (i - length first) 0
                  (omega (arith, size))
              ∙ ap (λ k. get_or r.buffer k 0)
                  (omega (arith, size, index_after i below (omega (arith, size))))
              ∙ sym (get_or-contents i below)
        ]
