-- ===== src/Dns/Tests.antt =====
-- Runs of the DNS service, and the theorems at concrete values.
use simple_socks.Common.{
  ℕ, zero, suc, ◌≤◌, ◌<◌, ◌≡◌, ◌≢◌, refl, none, some, List, [], ◌∷◌, arith, length, replicate,
  get_or, get_elem?, copy_to, store, Succeeds, Option, false, if◌then◌else◌, pos,
}
use simple_socks.Common.Socket.{Socket}
use simple_socks.PacketBuffer.{PacketBuffer}
use simple_socks.PacketBuffer.Contents.{IsValid, packets, no_block, block_at}
use simple_socks.Socks5.{c_string}
use simple_socks.StringMap.Entries.{key_eq, key_eq_refl}
use simple_socks.Dns.{StrMap, Service, Entry, Record, Rr, ipv4, type_cname}
use simple_socks.Dns.Entries.{entry_of, entry_create, update, get}
use simple_socks.Dns.Entries.Cache.{GetPut, get-update}
use simple_socks.Dns.Names.{encode_domain_name, encode_labels}
use simple_socks.Dns.Handlers.{send_handler}
use simple_socks.Dns.Handlers.Sending.{after_sending, send_handler-all, send_handler-stuck}

-- a.bc
encode_domain_name-labels :
    encode_domain_name (replicate 6 0) (b'a' ∷ b'.' ∷ b'b' ∷ b'c' ∷ [])
    ≡ some (1 ∷ b'a' ∷ 2 ∷ b'b' ∷ b'c' ∷ 0 ∷ [])
unfolding encode_domain_name encode_labels copy_to store
encode_domain_name-labels = refl

-- A socket that keeps what is sent, and one that takes nothing.
abbrev keeping : Socket
keeping = record {
  State = List (List ℕ);
  recv = λ w n. (none, w);
  send = λ w bs. (some (length bs), bs ∷ w);
  pending = λ w. [];
  sent = λ w. [];
}

abbrev broken : Socket
broken = record keeping { send = λ w bs. (none, w) }

-- One packet, 8 and 9, in the first of two blocks.
abbrev one : PacketBuffer
one = record {
  blocks = record { size = 2; bytes = 8 ∷ 9 ∷ [] } ∷ record { size = 0; bytes = 0 ∷ 0 ∷ [] } ∷ [];
  packet_count = 1;
  packet_offset = 0;
  packet_size = 2;
  max_packets = 2;
}

one-room : (i : ℕ) → i < 2 → length (get_or one.blocks i no_block).bytes ≡ 2
one-room zero p = refl
one-room (suc zero) p = refl
one-room (suc (suc i)) p = absurd (omega arith)

one-sizes : (i : ℕ) → i < 1 → (block_at one i).size ≤ 2
one-sizes zero p = omega arith
one-sizes (suc i) p = absurd (omega arith)

one-IsValid : IsValid one
one-IsValid = record {
  storage = refl;
  small = omega arith;
  small_packets = omega arith;
  offset_in = omega arith;
  count_in = omega arith;
  room = one-room;
  sizes = one-sizes;
}

send_handler-all_example :
    Succeeds
      (λ (b', w'). IsValid b' × (packets b' ≡ []) × (w' ≡ after_sending keeping [] (packets one)))
      (send_handler keeping 2 [] one)
send_handler-all_example = send_handler-all keeping (λ w bs. refl) [] one one-IsValid

nonempty : ◌≢◌ {A = List ℕ} (8 ∷ 9 ∷ []) []
nonempty e = cc

send_handler-stuck_example : send_handler broken 1000 [] one ≡ none
send_handler-stuck_example =
    send_handler-stuck broken (λ w bs. refl) 1000 [] one one-IsValid (8 ∷ 9 ∷ []) [] refl nonempty

-- A string map that is a function.
abbrev names : StrMap
names = record {
  Map = List ℕ → Option Entry;
  get = λ m dn. m dn;
  put = λ m dn e d. if key_eq d dn then some e else m d;
}

names-GetPut : GetPut names
names-GetPut m dn e = rw (key_eq_refl dn) refl

abbrev idle : Service names
idle = record {
  map = λ dn. none;
  min_request_interval = 0;
  tid_flags = [];
  next_tid = 0;
  dead = false;
  recv_buffer = one;
  send_buffer = one;
}

-- The address 1.2.3.4 of the name a, for 5 seconds.
abbrev answer : Rr
answer = record {
  name = b'a' ∷ 0 ∷ [];
  meta = record { type = 1; class = 1; ttl = pos 5; rdlength = 4 };
  rdata = ipv4 (1 ∷ 2 ∷ 3 ∷ 4 ∷ []);
}

no_records :
    (i : ℕ) (r : Record)
    → get_elem? (entry_of names idle (c_string answer.name)).list i ≡ some r
    → r.kind ≢ type_cname
unfolding entry_of entry_create
no_records i r at = ground arith

get-update_example :
    Succeeds
      (λ (found, service').
        (r : Record) × (i : ℕ) × (found ≡ some r.rdata)
        × (get_elem? (entry_of names (update names 10 idle answer) (c_string answer.name)).list i
            ≡ some r)
        × (12 ≤ r.expire)
        × (10 ≤ r.expire))
      (get names 1 12 (update names 10 idle answer) (c_string answer.name))
get-update_example =
    get-update names 0 10 12 idle answer names-GetPut no_records (ground arith) 5 refl
      (ground arith)
