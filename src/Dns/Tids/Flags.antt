-- ===== src/Dns/Tids/Flags.antt =====
-- occupy_tid, release_tid and is_tid_free of src/service/ss_dns.c keep a set of transaction ids.
use Prim.Native.Nat.{bit_and, bit_or, bit_xor}
use simple_socks.Common.{
  ℕ, zero, suc, ◌/◌, ◌%◌, ◌^◌, ◌≤◌, ◌<◌, ◌≡◌, refl, ap, sym, ◌∙◌, ◌≢◌, ◌↔◌, true, false, none, List,
  [], ◌∷◌, arith, ◌==◌, if◌then◌else◌, length, length-set, get_or, set, get_or-set, load, load-some,
  store-some, Succeeds, ne→==,
}
use native.Mathlib.Decide.{ℕ_discrete, dec_lt}
use simple_socks.Dns.{StrMap, Service}
use simple_socks.Dns.Tids.{occupy_tid, release_tid, is_tid_free}
use simple_socks.Dns.Tids.Bits.{
  bit, bit_le, bit-zero, bit-bit_or, bit-bit_and, lt_of_bits, bits_of_lt, bit-pow, bit-pow_other,
  bit-mask, bit-mask_other, zero_of_bits,
}

pub load-outside : (flags : List ℕ) (i : ℕ) → length flags ≤ i → load flags i ≡ none
load-outside [] i h = refl
load-outside (x ∷ flags) zero h = absurd (omega arith)
load-outside (x ∷ flags) (suc i) h = load-outside flags i (omega arith)

-- The flags as the service holds them: SS_UINT16_MAX >> 4 segments of 16 bits. They have no place
-- for the last 16 of the 2^16 ids.
pub record IsFlags (flags : List ℕ) : Type 0 where
  pub size : length flags ≡ 4095
  pub words : (i : ℕ) → get_or flags i 0 < 2 ^ 16

abbrev pub ids : ℕ
ids = 65520

-- Whether an id is marked: 1 if it is, else 0.
abbrev pub marked : List ℕ → ℕ → ℕ
marked flags tid = bit (get_or flags (tid / 16) 0) (tid % 16)

-- A segment is written anew, with another bit `tid % 16`.
marked-set :
    (flags : List ℕ) (tid word x : ℕ)
    → IsFlags flags
    → tid < ids
    → bit word (tid % 16) ≡ x
    → ((j : ℕ) → j ≢ tid % 16 → bit word j ≡ bit (get_or flags (tid / 16) 0) j)
    → (t : ℕ) → marked (set flags (tid / 16) word) t ≡ (if t == tid then x else marked flags t)
marked-set flags tid word x f small here others t =
    let size = f.size in
    let at = get_or-set flags (tid / 16) (t / 16) word 0 (omega arith) in
    elim (ℕ_discrete (tid / 16) (t / 16)) [
      | no apart ↦ rw (at, ne→== _ _ apart) (ground arith)
      | yes same ↦
          let segment : (tid / 16 == t / 16) ≡ true = ground arith in
          elim (ℕ_discrete (t % 16) (tid % 16)) [
            | yes low ↦
                let hit : (t == tid) ≡ true = ground arith in rw (at, segment, hit, low) here
            | no apart ↦
                let miss : (t == tid) ≡ false = ground arith in
                rw (at, segment, miss)
                  (others (t % 16) apart ∙ ap (λ k. bit (get_or flags k 0) (t % 16)) same)
          ]
    ]

IsFlags-set :
    (flags : List ℕ) (i word : ℕ)
    → IsFlags flags
    → i < 4095
    → word < 2 ^ 16
    → IsFlags (set flags i word)
IsFlags-set flags i word f inside small = record {
  size = length-set flags i word ∙ f.size;
  words = λ k.
      let size = f.size in
      let old = f.words k in rw (get_or-set flags i k word 0 (omega arith)) (ground arith);
}

module _ (strmap : StrMap) where
  -- What occupy_tid and release_tid leave: only the one id is marked anew.
  abbrev pub Marks : (Service strmap) → ℕ → ℕ → Service strmap → Type 0
  Marks service tid x service' =
      IsFlags service'.tid_flags
      × ((t : ℕ)
          → marked service'.tid_flags t ≡ (if t == tid then x else marked service.tid_flags t))
      × (service' ≡ record service { tid_flags = service'.tid_flags; next_tid = service'.next_tid })

  pub occupy_tid-Marks :
      (service : Service strmap) (tid : ℕ)
      → IsFlags service.tid_flags
      → tid < ids
      → Succeeds (Marks service tid 1) (occupy_tid strmap service tid)
  unfolding occupy_tid
  occupy_tid-Marks service tid f small =
      let size = f.size in
      let flags = service.tid_flags in
      let flag = get_or flags (tid / 16) 0 in
      let word = bit_or flag (2 ^ (tid % 16)) in
      let joined = bit-bit_or flag (2 ^ (tid % 16)) in
      rw
        (load-some 0 flags (tid / 16) (omega arith), store-some flags (tid / 16) word (omega arith))
        (
          _,
          refl,
          (
            IsFlags-set flags (tid / 16) word f (omega arith) (
                lt_of_bits 16 word λ j le. omega (
                  arith,
                  joined j,
                  bits_of_lt 16 flag j (f.words (tid / 16)) le,
                  bit-pow_other (tid % 16) j (omega arith),
                )),
            marked-set flags tid word 1 f small
                (omega (arith, joined (tid % 16), bit_le flag (tid % 16), bit-pow (tid % 16)))
                (λ j ne.
                  omega
                    (arith, joined j, bit_le flag j, bit-pow_other (tid % 16) j (λ e. ne (sym e)))),
            refl,
          ),
        )

  -- The mask of release_tid leaves the other bits of a segment.
  kept_bit :
      (flag k : ℕ)
      → flag < 2 ^ 16
      → (j : ℕ) → j ≢ k
      → bit (bit_and flag (bit_xor 65535 (2 ^ k))) j ≡ bit flag j
  kept_bit flag k small j ne = elim (dec_lt j 16) [
    | yes inside ↦ omega (
      arith,
      bit-bit_and flag (bit_xor 65535 (2 ^ k)) j,
      bit_le flag j,
      bit-mask_other k j inside (λ e. ne (sym e)),
    )
    | no outside ↦ omega (
      arith,
      bit-bit_and flag (bit_xor 65535 (2 ^ k)) j,
      bits_of_lt 16 flag j small (omega arith),
    )
  ]

  pub release_tid-Marks :
      (service : Service strmap) (tid : ℕ)
      → IsFlags service.tid_flags
      → tid < ids
      → Succeeds (Marks service tid 0) (release_tid strmap service tid)
  unfolding release_tid
  release_tid-Marks service tid f small =
      let size = f.size in
      let flags = service.tid_flags in
      let flag = get_or flags (tid / 16) 0 in
      let mask = bit_xor 65535 (2 ^ (tid % 16)) in
      let word = bit_and flag mask in
      let met = bit-bit_and flag mask in
      rw
        (load-some 0 flags (tid / 16) (omega arith), store-some flags (tid / 16) word (omega arith))
        (
          _,
          refl,
          (
            IsFlags-set flags (tid / 16) word f (omega arith) (
                lt_of_bits 16 word
                  λ j le. omega (arith, met j, bits_of_lt 16 flag j (f.words (tid / 16)) le)),
            marked-set flags tid word 0 f small
                (omega (arith, met (tid % 16), bit-mask (tid % 16) (omega arith)))
                (kept_bit flag (tid % 16) (f.words (tid / 16))),
            refl,
          ),
        )

module _ (strmap : StrMap) where
  -- An id that has no place in the flags.
  pub release_tid-outside :
      (service : Service strmap) (tid : ℕ)
      → IsFlags service.tid_flags
      → ids ≤ tid
      → release_tid strmap service tid ≡ none
  unfolding release_tid
  release_tid-outside service tid f large =
      let size = f.size in rw (load-outside service.tid_flags (tid / 16) (omega arith))

-- is_tid_free returns the bit of the id where it stands: not 0 for an id that is marked.
pub is_tid_free-marked :
    (flags : List ℕ) (tid : ℕ)
    → IsFlags flags
    → tid < ids
    → Succeeds (λ r. (r ≡ 0) ↔ (marked flags tid ≡ 0)) (is_tid_free flags tid)
unfolding is_tid_free
is_tid_free-marked flags tid f small =
    let size = f.size in
    let flag = get_or flags (tid / 16) 0 in
    let k = tid % 16 in
    let met = bit-bit_and flag (2 ^ k) in
    let word = bit_and flag (2 ^ k) in
    rw (load-some 0 flags (tid / 16) (omega arith)) (
      _,
      refl,
      (
        (λ e. omega (arith, met k, bit-pow k, bit_le flag k, bit-zero k, ap (λ n. bit n k) e)),
        λ e. zero_of_bits word word (omega arith) (λ j. elim (ℕ_discrete j k) [
          | yes same ↦ rw same (omega (arith, met k))
          | no apart ↦ omega (arith, met j, bit-pow_other k j (λ e'. apart (sym e')))
        ]),
      ),
    )
