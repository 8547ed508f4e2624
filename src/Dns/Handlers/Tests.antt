-- ===== src/Dns/Handlers/Tests.antt =====
-- A request for the name a in a service that has just started.
use simple_socks.Common.{
  ℕ, zero, suc, ◌<◌, ◌≤◌, ◌≡◌, refl, false, none, some, List, [], ◌∷◌, arith, length, replicate,
  length-replicate, get_or, Succeeds,
}
use simple_socks.PacketBuffer.{PacketBuffer, Block}
use simple_socks.PacketBuffer.Contents.{IsValid, block_at, no_block}
use simple_socks.Dns.{StrMap, Service}
use simple_socks.Dns.Tids.Flags.{IsFlags}
use simple_socks.Common.IoError.{ok}
use simple_socks.Dns.Records.{header_ntoh}
use simple_socks.Dns.Names.Wire.{AreLabels}
use simple_socks.Dns.Handlers.{
  null, resolve_start, handle_packet, read_message, header_query, question_tail,
}
use simple_socks.Dns.Handlers.Bare.{Released}
use simple_socks.Dns.Handlers.Echo.{handle_packet-request}
use simple_socks.Dns.Names.Bounds.{front_of}
use simple_socks.Dns.Handlers.Question.{request}
use simple_socks.Dns.Handlers.Request.{Requested, resolve_start-Requested}

abbrev blank_block : Block
blank_block = record { size = 0; bytes = replicate 32 0 }

abbrev waiting : PacketBuffer
waiting = record {
  blocks = blank_block ∷ blank_block ∷ [];
  packet_count = 0;
  packet_offset = 0;
  packet_size = 32;
  max_packets = 2;
}

waiting-room : (i : ℕ) → i < 2 → length (get_or waiting.blocks i no_block).bytes ≡ 32
waiting-room zero p = refl
waiting-room (suc zero) p = refl
waiting-room (suc (suc i)) p = absurd (omega arith)

waiting-IsValid : IsValid waiting
waiting-IsValid = record {
  storage = refl;
  small = omega arith;
  small_packets = omega arith;
  offset_in = omega arith;
  count_in = omega arith;
  room = waiting-room;
  sizes = λ i p. absurd (omega arith);
}

abbrev no_names : StrMap
no_names = record { Map = ℕ; get = λ m dn. none; put = λ m dn e. m }

abbrev service : Service no_names
service = record {
  map = 0;
  min_request_interval = 600;
  tid_flags = replicate 4095 0;
  next_tid = 0;
  dead = false;
  recv_buffer = waiting;
  send_buffer = waiting;
}

zero_word : (n i : ℕ) → get_or {A = ℕ} (replicate n 0) i 0 ≡ 0
zero_word zero i = refl
zero_word (suc n) zero = refl
zero_word (suc n) (suc i) = zero_word n i

service-IsFlags : IsFlags service.tid_flags
service-IsFlags = record {
  size = length-replicate {A = ℕ} 4095 0;
  words = λ i. omega (arith, zero_word 4095 i);
}

abbrev name_a : List ℕ
name_a = b'a' ∷ []

name_a-AreLabels : AreLabels (name_a ∷ [])
name_a-AreLabels = (omega arith, omega arith, (omega arith, tt), tt)

resolve_start-Requested_example :
    Succeeds
      (Requested no_names 10 (replicate 40 9) service name_a [])
      (resolve_start no_names 10 (replicate 40 9) null service name_a)
resolve_start-Requested_example =
    resolve_start-Requested no_names 10 (replicate 40 9) service name_a [] 0 name_a-AreLabels
      (omega arith) (omega arith) refl waiting-IsValid (omega arith) (omega arith) service-IsFlags
      (omega arith) (omega arith) (omega (arith, zero_word 4095 0))

-- The request for the name a with the id 7, as it is received.
abbrev request_a : List ℕ
request_a = request (replicate 40 9) name_a [] 7

abbrev received : PacketBuffer
received = record {
  blocks =
      record { size = 26; bytes = request_a } ∷ record { size = 0; bytes = replicate 26 0 } ∷ [];
  packet_count = 1;
  packet_offset = 0;
  packet_size = 26;
  max_packets = 2;
}

received-room : (i : ℕ) → i < 2 → length (get_or received.blocks i no_block).bytes ≡ 26
unfolding header_query question_tail
received-room zero p = refl
received-room (suc zero) p = refl
received-room (suc (suc i)) p = absurd (omega arith)

received-sizes : (i : ℕ) → i < 1 → (block_at received i).size ≤ 26
received-sizes zero p = omega arith
received-sizes (suc i) p = absurd (omega arith)

received-IsValid : IsValid received
received-IsValid = record {
  storage = refl;
  small = omega arith;
  small_packets = omega arith;
  offset_in = omega arith;
  count_in = omega arith;
  room = received-room;
  sizes = received-sizes;
}

received-front : front_of received ≡ request_a
unfolding header_query question_tail
received-front = refl

abbrev asking : Service no_names
asking = record service { recv_buffer = received }

handle_packet-request_example :
    (read_message no_names 10 2 [] (header_ntoh (header_query 7 1)) asking 12
      ≡ some (ok, 19, asking))
    × Succeeds
        (Released no_names asking received-IsValid (omega arith) service-IsFlags 7)
        (handle_packet no_names 10 2 [] asking)
handle_packet-request_example =
    handle_packet-request no_names asking received-IsValid (omega arith) service-IsFlags 10 2 []
      (replicate 40 9) name_a [] 7 received-front name_a-AreLabels (omega arith) (omega arith)
      (omega arith)
