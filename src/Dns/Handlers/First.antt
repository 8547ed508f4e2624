-- ===== src/Dns/Handlers/First.antt =====
-- The first request of a service that has just started.
use simple_socks.Common.{
  ℕ, zero, suc, ◌≤◌, ◌<◌, ◌≡◌, refl, List, ◌∷◌, arith, length, length-replicate, replicate, get_or,
  Succeeds,
}
use simple_socks.PacketBuffer
use simple_socks.PacketBuffer.{Block, PacketBuffer}
use simple_socks.PacketBuffer.Contents.{IsValid, no_block}
use simple_socks.Dns.{StrMap, name_max}
use simple_socks.Dns.Names.Wire.{Labels, AreLabels, joined}
use simple_socks.Dns.Handlers.{null, resolve_start}
use simple_socks.Dns.Handlers.Request.{Requested, resolve_start-Requested}
use simple_socks.Dns.Start.{service_initialize}

-- What malloc gives for the blocks of a packet buffer.
pub record GivesBlocks (malloc : ℕ → ℕ → List Block) : Type 0 where
  pub blocks : (size count : ℕ) → length (malloc size count) ≡ count
  pub bytes :
      (size count i : ℕ) → i < count → length (get_or (malloc size count) i no_block).bytes ≡ size

initialize-IsValid :
    (malloc : ℕ → ℕ → List Block) (size count : ℕ)
    → GivesBlocks malloc
    → 0 < count
    → count < 100
    → size < 10000
    → IsValid (PacketBuffer.initialize malloc size count)
unfolding PacketBuffer.initialize
initialize-IsValid malloc size count gives positive few small = record {
  storage = gives.blocks size count;
  small = omega arith;
  small_packets = omega arith;
  offset_in = positive;
  count_in = omega arith;
  room = gives.bytes size count;
  sizes = λ i p. absurd (omega arith);
}

clear_word : (n i : ℕ) → get_or {A = ℕ} (replicate n 0) i 0 ≡ 0
clear_word zero i = refl
clear_word (suc n) zero = refl
clear_word (suc n) (suc i) = clear_word n i

-- A service that ss_dns_service_initialize has just set up, with memory from malloc, takes a request
-- for any name of labels of at most 254 bytes, where the uninitialised entry of ss_dns_resolve_start_inner is null: the request
-- is the first packet to be sent.
pub resolve_start-first :
    (strmap : StrMap) (malloc : ℕ → ℕ → List Block) (map : strmap.Map) (now : ℕ) (stack l : List ℕ)
    (ls : Labels)
    → GivesBlocks malloc
    → AreLabels (l ∷ ls)
    → length (joined (l ∷ ls)) ≤ name_max
    → 532 ≤ length stack
    → Succeeds (Requested strmap now stack (service_initialize strmap malloc map) l ls) (
        resolve_start strmap now stack null
          (service_initialize strmap malloc map)
          (joined (l ∷ ls)))
unfolding service_initialize PacketBuffer.initialize
resolve_start-first strmap malloc map now stack l ls gives labels short room =
    resolve_start-Requested strmap now stack (service_initialize strmap malloc map) l ls 0 labels
      short (omega arith) refl
      (initialize-IsValid malloc 2048 16 gives (omega arith) (omega arith) (omega arith))
      (omega arith) (omega arith)
      (record {
        size = length-replicate {A = ℕ} 4095 0;
        words = λ i. omega (arith, clear_word 4095 i);
      })
      (omega arith) (omega arith) (omega (arith, clear_word 4095 0))
