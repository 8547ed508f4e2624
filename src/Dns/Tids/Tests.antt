-- ===== src/Dns/Tids/Tests.antt =====
-- The theorems on transaction ids at concrete flags and packets.
use simple_socks.Common.{
  ℕ, zero, suc, ◌≤◌, ◌<◌, ◌≡◌, refl, false, none, some, List, [], ◌∷◌, arith, replicate,
  length-replicate, get_or, Succeeds,
}
use simple_socks.PacketBuffer.{PacketBuffer}
use simple_socks.Dns.{StrMap, Service}
use simple_socks.Dns.Tids.{next_tid}
use simple_socks.Dns.Tids.Flags.{IsFlags, marked}
use simple_socks.Dns.Tids.Refines.{occupy, release, act_calls, run_calls, Stands, run_calls-Stands}
use simple_socks.Dns.Tids.Search.{Made, next_tid-Made, next_tid-faults}

-- A packet buffer with one header, of the id that its first two bytes give, and no parts.
abbrev header_bytes : ℕ → ℕ → List ℕ
header_bytes high low = high ∷ low ∷ replicate 10 0

abbrev holding : ℕ → ℕ → PacketBuffer
holding high low = record {
  blocks =
      record { size = 12; bytes = header_bytes high low }
      ∷ record { size = 0; bytes = replicate 12 0 }
      ∷ [];
  packet_count = 1;
  packet_offset = 0;
  packet_size = 12;
  max_packets = 2;
}

-- Flags that are all the same.
abbrev filled : ℕ → List ℕ
filled word = replicate 4095 word

get_or-replicate : (n i word : ℕ) → i < n → get_or (replicate n word) i 0 ≡ word
get_or-replicate zero i word h = absurd (omega arith)
get_or-replicate (suc n) zero word h = refl
get_or-replicate (suc n) (suc i) word h = get_or-replicate n i word (omega arith)

get_or-replicate_le : (n i word : ℕ) → get_or (replicate n word) i 0 ≤ word
get_or-replicate_le zero i word = omega arith
get_or-replicate_le (suc n) zero word = omega arith
get_or-replicate_le (suc n) (suc i) word = get_or-replicate_le n i word

filled-IsFlags : (word : ℕ) → word ≤ 65535 → IsFlags (filled word)
filled-IsFlags word small = record {
  size = length-replicate 4095 word;
  words = λ i. omega (arith, get_or-replicate_le 4095 i word);
}

-- A map of names that holds nothing.
abbrev no_names : StrMap
no_names = record { Map = ℕ; get = λ m dn. none; put = λ m dn e. m }

abbrev service_of : List ℕ → PacketBuffer → Service no_names
service_of flags b = record {
  map = 0;
  min_request_interval = 600;
  tid_flags = flags;
  next_tid = 17;
  dead = false;
  recv_buffer = b;
  send_buffer = b;
}

abbrev started : Service no_names
started = service_of (filled 0) (holding 0 7)

abbrev flooded : Service no_names
flooded = service_of (filled 0) (holding 255 250)

abbrev exhausted : Service no_names
exhausted = service_of (filled 65535) (holding 0 7)

run_calls-Stands_example :
    Succeeds
      (Stands no_names (act_calls (occupy 7 ∷ release 9 ∷ []) (marked started.tid_flags)))
      (run_calls no_names started (occupy 7 ∷ release 9 ∷ []))
run_calls-Stands_example =
    run_calls-Stands no_names (occupy 7 ∷ release 9 ∷ []) started (filled-IsFlags 0 (omega arith))
      (omega arith, (omega arith, tt))

next_tid-Made_example :
    Succeeds
      (λ r. (tid : ℕ) × (r ≡ some tid) × Made started.tid_flags tid)
      (next_tid no_names started)
next_tid-Made_example =
    next_tid-Made no_names started (filled-IsFlags 0 (omega arith)) 1 (omega arith) (omega arith)
      (omega (arith, get_or-replicate 4095 1 0 (omega arith)))

next_tid-faults_example : next_tid no_names exhausted ≡ none
next_tid-faults_example =
    next_tid-faults no_names exhausted (filled-IsFlags 65535 (omega arith)) (omega arith)
      (λ i h. get_or-replicate 4095 i 65535 h)
