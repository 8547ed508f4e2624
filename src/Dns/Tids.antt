-- ===== src/Dns/Tids.antt =====
-- The transaction ids: one bit for each in an array of 16-bit segments.
mod Bits
pub mod Flags
pub mod Refines
pub mod Search
mod Tests
use Prim.Native.Nat.{bit_and, bit_or, bit_xor}
use simple_socks.Common.{
  ℕ, zero, suc, ◌+◌, ◌-◌, ◌/◌, ◌%◌, ◌^◌, Option, none, some, List, ◌==◌, if◌then◌else◌, ◌>>=◌, load,
  store,
}
use simple_socks.Dns.{StrMap, Service}

-- 1 << (tid & 0xF)
abbrev pub tid_bit : ℕ → ℕ
tid_bit tid = 2 ^ (tid % 16)

-- The first bit of a segment that is clear, of the last `left` of its 16 bits.
unfoldable pub clear_bit : ℕ → ℕ → Option ℕ
clear_bit zero flag = none
clear_bit (suc left) flag =
    let bit = 15 - left in
    let rest = clear_bit left flag in if bit_or flag (2 ^ bit) == flag then rest else some bit

-- The outer loop of next_tid and allocate_tid: the first segment that is not full, and its flags.
unfoldable pub find_segment : ℕ → List ℕ → ℕ → Option (Option (ℕ × ℕ))
find_segment zero flags seg = some none
find_segment (suc rounds) flags seg = do
  flag ← load flags seg
  let rest = find_segment rounds flags ((seg + 1) % 4096)
  if flag == 65535 then rest else some (some (seg, flag))

-- The id that next_tid and allocate_tid make of a segment and a bit: seg | tid
abbrev pub made_tid : ℕ → ℕ → ℕ
made_tid seg bit = bit_or seg bit

unfoldable pub tid_in : Option (ℕ × ℕ) → Option ℕ
tid_in none = none
tid_in (some (seg, flag)) = clear_bit 16 flag >>= λ bit. some (made_tid seg bit)

module _ (strmap : StrMap) where
  -- next_tid: the id, or none for SS_FALSE; outside, none is a read out of bounds.
  unfoldable pub next_tid : Service strmap → Option (Option ℕ)
  next_tid service = do
    found ← find_segment 4096 service.tid_flags (service.next_tid / 16)
    some (tid_in found)

  -- occupy_tid
  unfoldable pub occupy_tid : Service strmap → ℕ → Option (Service strmap)
  occupy_tid service tid = do
    flag ← load service.tid_flags (tid / 16)
    flags ← store service.tid_flags (tid / 16) (bit_or flag (tid_bit tid))
    some (record service { tid_flags = flags; next_tid = (tid + 1) % 2 ^ 16 })

  -- release_tid
  unfoldable pub release_tid : Service strmap → ℕ → Option (Service strmap)
  release_tid service tid = do
    flag ← load service.tid_flags (tid / 16)
    flags ← store service.tid_flags (tid / 16) (bit_and flag (bit_xor 65535 (tid_bit tid)))
    some (record service { tid_flags = flags })

  -- What allocate_tid does with a segment and its flags.
  unfoldable pub take_tid : Service strmap → Option (ℕ × ℕ) → Option (Option ℕ × Service strmap)
  take_tid service none = some (none, service)
  take_tid service (some (seg, flag)) = elim (clear_bit 16 flag) [
    | none ↦ some (none, service)
    | some bit ↦ do
      flags ← store service.tid_flags seg (bit_or flag (2 ^ bit))
      let tid = made_tid seg bit
      some (some tid, record service { tid_flags = flags; next_tid = (tid + 1) % 2 ^ 16 })
  ]

  -- allocate_tid
  unfoldable pub allocate_tid : Service strmap → Option (Option ℕ × Service strmap)
  allocate_tid service =
      find_segment 4096 service.tid_flags (service.next_tid / 16) >>= take_tid service

-- is_tid_free
unfoldable pub is_tid_free : List ℕ → ℕ → Option ℕ
is_tid_free flags tid = do flag ← load flags (tid / 16); some (bit_and flag (tid_bit tid))
