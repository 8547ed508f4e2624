-- ===== src/Dns/Tids/Search.antt =====
-- next_tid of src/service/ss_dns.c: the id that it makes of the first free place.
use Prim.Native.Nat.{bit_or}
use simple_socks.Common.{
  ℕ, zero, suc, ◌+◌, ◌-◌, ◌*◌, ◌/◌, ◌%◌, ◌^◌, ◌≤◌, ◌<◌, ◌≡◌, refl, sym, ap, ◌∙◌, ◌≢◌, inl, inr,
  Bool-cases, true, false, none, some, List, arith, ◌==◌, ==_iff, get_or, load-some, Succeeds,
  Succeeds-bind, ne→==,
}
use native.Mathlib.Decide.{ℕ_discrete}
use simple_socks.Dns.{StrMap, Service}
use simple_socks.Dns.Tids.{clear_bit, find_segment, tid_in, next_tid}
use simple_socks.Dns.Tids.Bits.{
  bit, bit_le, bit-bit_or, lt_of_bits, bits_of_lt, bit-pow, bit-pow_other, eq_of_bits, full_of_bits,
}
use simple_socks.Dns.Tids.Flags.{IsFlags, marked, load-outside}

-- A bit that changes a number where it is set was clear.
clear_of_changes : (flag k : ℕ) → (bit_or flag (2 ^ k) == flag) ≡ false → bit flag k ≡ 0
clear_of_changes flag k h = elim (ℕ_discrete (bit flag k) 0) [
  | yes e ↦ e
  | no ne ↦
      let same : bit_or flag (2 ^ k) ≡ flag = eq_of_bits (bit_or flag (2 ^ k)) flag λ j.
        elim (ℕ_discrete k j) [
          | yes e ↦ rw (sym e) (omega (arith, bit-bit_or flag (2 ^ k) k, bit_le flag k, bit-pow k))
          | no apart ↦ omega (arith, bit-bit_or flag (2 ^ k) j, bit-pow_other k j apart)
        ] in
      absurd (ground arith)
]

set_of_keeps : (flag k : ℕ) → (bit_or flag (2 ^ k) == flag) ≡ true → bit flag k ≡ 1
set_of_keeps flag k h =
    let same : bit_or flag (2 ^ k) ≡ flag = (==_iff _ flag).0 h in
    omega (arith, ap (λ a. bit a k) same, bit-bit_or flag (2 ^ k) k, bit_le flag k, bit-pow k)

-- A segment that is not full has a clear bit.
clear_bit-clear :
    (left flag : ℕ)
    → flag < 2 ^ 16
    → flag ≢ 65535
    → left ≤ 16
    → ((j : ℕ) → j < 16 - left → bit flag j ≡ 1)
    → Succeeds (λ k. (k < 16) × (bit flag k ≡ 0)) (clear_bit left flag)
unfolding clear_bit
clear_bit-clear zero flag small ne le ones = absurd (ne (full_of_bits flag small ones))
clear_bit-clear (suc left) flag small ne le ones =
    elim (Bool-cases (bit_or flag (2 ^ (15 - left)) == flag)) [
      | inl keeps ↦ rw keeps (
          clear_bit-clear left flag small ne (omega arith) λ j h. elim (ℕ_discrete j (15 - left)) [
            | yes e ↦ rw e (set_of_keeps flag (15 - left) keeps)
            | no apart ↦ ones j (omega arith)
          ])
      | inr changes ↦
          rw changes (15 - left, refl, (omega arith, clear_of_changes flag (15 - left) changes))
    ]

module _ (flags : List ℕ) (f : IsFlags flags) where
  -- A segment from `seg` on that is not full is found, the first of them.
  find_segment-found :
      (rounds seg i : ℕ)
      → seg ≤ i
      → i < 4095
      → i - seg < rounds
      → get_or flags i 0 ≢ 65535
      → Succeeds
          (λ r. (s : ℕ) × (r ≡ some (s, get_or flags s 0)) × (s ≤ i) × (get_or flags s 0 ≢ 65535))
          (find_segment rounds flags seg)
  unfolding find_segment
  find_segment-found zero seg i le small enough ne = absurd (omega arith)
  find_segment-found (suc rounds) seg i le small enough ne =
      let size = f.size in
      let next : (seg + 1) % 4096 ≡ seg + 1 = omega arith in
      rw (load-some 0 flags seg (omega arith), next)
        (elim (ℕ_discrete (get_or flags seg 0) 65535) [
          | yes full ↦
              let later : seg ≢ i = λ e. ne (ap (λ k. get_or flags k 0) (sym e) ∙ full) in
              rw full (find_segment-found rounds (seg + 1) i (omega arith) small (omega arith) ne)
          | no free ↦ rw (ne→== _ _ free) (_, refl, (seg, refl, le, free))
        ])

  -- Where all segments are full, the search leaves the array.
  find_segment-faults :
      (rounds seg : ℕ)
      → seg ≤ 4095
      → 4095 - seg < rounds
      → ((i : ℕ) → i < 4095 → get_or flags i 0 ≡ 65535)
      → find_segment rounds flags seg ≡ none
  unfolding find_segment
  find_segment-faults zero seg le enough full = absurd (omega arith)
  find_segment-faults (suc rounds) seg le enough full = elim (ℕ_discrete seg 4095) [
    | yes e ↦ let size = f.size in rw (load-outside flags seg (omega arith))
    | no ne ↦
        let size = f.size in
        let next : (seg + 1) % 4096 ≡ seg + 1 = omega arith in
        rw (load-some 0 flags seg (omega arith), full seg (omega arith), next)
          (find_segment-faults rounds (seg + 1) (omega arith) (omega arith) full)
  ]

-- What next_tid makes of a place that is free, bit `place` of a segment: the two numbers joined by
-- their bits, where the id of the place is 16 * segment + place. It is below 4096.
pub record Made (flags : List ℕ) (tid : ℕ) : Type 0 where
  pub segment : ℕ
  pub place : ℕ
  pub inside : segment < 4095
  pub place_small : place < 16
  pub free : marked flags (16 * segment + place) ≡ 0
  pub made : tid ≡ bit_or segment place
  pub below : tid < 4096

or_small : (segment place : ℕ) → segment < 4095 → place < 16 → bit_or segment place < 2 ^ 12
or_small segment place p q = lt_of_bits 12 (bit_or segment place) λ j le. omega (
  arith,
  bit-bit_or segment place j,
  bits_of_lt 12 segment j (omega arith) le,
  bits_of_lt 12 place j (omega arith) le,
)

tid_in-Made :
    (flags : List ℕ) (s : ℕ)
    → IsFlags flags
    → s < 4095
    → get_or flags s 0 ≢ 65535
    → (tid : ℕ) × (tid_in (some (s, get_or flags s 0)) ≡ some tid) × Made flags tid
unfolding tid_in
tid_in-Made flags s f inside ne =
    let (k, runs, (small, clear)) =
      clear_bit-clear 16 (get_or flags s 0) (f.words s) ne (omega arith)
        (λ j h. absurd (omega arith)) in
    let segment : (16 * s + k) / 16 ≡ s = omega arith in
    let place : (16 * s + k) % 16 ≡ k = omega arith in
    (
      bit_or s k,
      rw runs,
      record {
        segment = s;
        place = k;
        inside = inside;
        place_small = small;
        free = rw (segment, place) clear;
        made = refl;
        below = or_small s k inside small;
      },
    )

module _ (strmap : StrMap) (service : Service strmap) (f : IsFlags service.tid_flags) where
  -- Where some segment from the one of the last id on is not full, next_tid finds a free place
  -- without a fault, and returns the bitwise or of the segment and the place in it, which is below
  -- 4096.
  pub next_tid-Made :
      (i : ℕ)
      → service.next_tid / 16 ≤ i
      → i < 4095
      → get_or service.tid_flags i 0 ≢ 65535
      → Succeeds
          (λ r. (tid : ℕ) × (r ≡ some tid) × Made service.tid_flags tid)
          (next_tid strmap service)
  unfolding next_tid
  next_tid-Made i le small ne =
      Succeeds-bind
        (find_segment-found service.tid_flags f 4096 (service.next_tid / 16) i le small
          (omega arith) ne)
        λ r (s, e, before, free).
          let (tid, made_of, made) = tid_in-Made service.tid_flags s f (omega arith) free in
          (_, refl, (tid, rw e made_of, made))

  -- Where all ids that have a place are in use, next_tid reads behind the end of tid_flags.
  pub next_tid-faults :
      service.next_tid < 2 ^ 16
      → ((i : ℕ) → i < 4095 → get_or service.tid_flags i 0 ≡ 65535)
      → next_tid strmap service ≡ none
  unfolding next_tid
  next_tid-faults small full = rw (
      find_segment-faults service.tid_flags f 4096 (service.next_tid / 16) (omega arith)
        (omega arith) full)
