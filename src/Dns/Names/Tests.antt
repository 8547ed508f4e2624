-- ===== src/Dns/Names/Tests.antt =====
-- The theorems on names at concrete messages.
use simple_socks.Common.{
  ℕ, zero, suc, ◌≤◌, ◌<◌, ◌^◌, ◌≡◌, refl, none, some, List, [], ◌∷◌, ◌++◌, arith, length, replicate,
  get_or, drop, length-replicate, Succeeds, copy_to, store,
}
use simple_socks.Common.IoError.{ok}
use simple_socks.PacketBuffer.{PacketBuffer}
use simple_socks.PacketBuffer.Contents.{IsValid, no_block, block_at}
use simple_socks.Dns.Names.{encode_domain_name, encode_labels, read_domain_name}
use simple_socks.Dns.Names.Bounds.{Named, NoChain, front_of, read_domain_name-Named}
use simple_socks.Dns.Names.Pointers.{read_domain_name-self_pointer}
use simple_socks.Dns.Names.Wire.{Labels, joined, AreLabels}
use simple_socks.Dns.Names.Wire.Read.{read_domain_name-encode_domain_name}

-- A buffer of two blocks that holds one packet.
abbrev message : List ℕ → PacketBuffer
message bs = record {
  blocks =
      record { size = length bs; bytes = bs }
      ∷ record { size = 0; bytes = replicate (length bs) 0 }
      ∷ [];
  packet_count = 1;
  packet_offset = 0;
  packet_size = length bs;
  max_packets = 2;
}

message-room :
    (bs : List ℕ) (i : ℕ) → i < 2 → length (get_or (message bs).blocks i no_block).bytes ≡ length bs
message-room bs zero p = refl
message-room bs (suc zero) p = length-replicate (length bs) 0
message-room bs (suc (suc i)) p = absurd (omega arith)

message-sizes : (bs : List ℕ) (i : ℕ) → i < 1 → (block_at (message bs) i).size ≤ length bs
message-sizes bs zero p = omega arith
message-sizes bs (suc i) p = absurd (omega arith)

message-IsValid : (bs : List ℕ) → length bs < 2 ^ 62 → IsValid (message bs)
message-IsValid bs small = record {
  storage = refl;
  small = omega arith;
  small_packets = small;
  offset_in = omega arith;
  count_in = omega arith;
  room = message-room bs;
  sizes = message-sizes bs;
}

-- The labels b and cd, behind the label a.
abbrev labels : Labels
labels = (b'b' ∷ []) ∷ (b'c' ∷ b'd' ∷ []) ∷ []

abbrev encoded_name : List ℕ
encoded_name = 1 ∷ b'a' ∷ 1 ∷ b'b' ∷ 2 ∷ b'c' ∷ b'd' ∷ 0 ∷ []

labels-AreLabels : AreLabels ((b'a' ∷ []) ∷ labels)
labels-AreLabels = (
  omega arith,
  omega arith,
  (ground arith, tt),
  (
    omega arith,
    omega arith,
    (ground arith, tt),
    (omega arith, omega arith, (ground arith, (ground arith, tt)), tt),
  ),
)

-- The name behind a byte of a header, in front of a byte of the type.
abbrev query : List ℕ
query = 7 ∷ (encoded_name ++ (28 ∷ []))

encoded_name-runs :
    encode_domain_name (replicate 8 5) (joined ((b'a' ∷ []) ∷ labels)) ≡ some encoded_name
unfolding encode_domain_name encode_labels copy_to store
encoded_name-runs = refl

read_domain_name-encode_domain_name_example :
    read_domain_name 4 (message query) 1 (some (replicate 256 9))
    ≡ some (
      ok,
      9,
      some ((b'a' ∷ b'.' ∷ b'b' ∷ b'.' ∷ b'c' ∷ b'd' ∷ []) ++ (0 ∷ drop 7 (replicate 256 9))),
      7,
    )
read_domain_name-encode_domain_name_example =
    read_domain_name-encode_domain_name (message query) (message-IsValid query (omega arith))
      (omega arith) 4 (7 ∷ []) (28 ∷ []) (replicate 8 5) encoded_name (b'a' ∷ []) labels
      (replicate 256 9) labels-AreLabels (ground arith) (ground arith) encoded_name-runs refl
      (omega arith) (ground arith)

-- The label a, a pointer to the end of the name behind it.
abbrev compressed : List ℕ
compressed = 1 ∷ b'a' ∷ 192 ∷ 4 ∷ 0 ∷ []

compressed-NoChain : NoChain (front_of (message compressed))
compressed-NoChain zero pointer = absurd (omega arith)
compressed-NoChain (suc zero) pointer = omega arith
compressed-NoChain (suc (suc zero)) pointer = omega arith
compressed-NoChain (suc (suc (suc zero))) pointer = absurd (omega arith)
compressed-NoChain (suc (suc (suc (suc zero)))) pointer = absurd (omega arith)
compressed-NoChain (suc (suc (suc (suc (suc i))))) pointer = absurd (omega arith)

read_domain_name-Named_example :
    Succeeds (Named 256) (read_domain_name 512 (message compressed) 0 (some (replicate 256 9)))
read_domain_name-Named_example =
    read_domain_name-Named (message compressed) (message-IsValid compressed (omega arith))
      (omega arith) 512 0 (replicate 256 9) compressed-NoChain (ground arith) (ground arith)
      (ground arith)

-- A pointer to itself.
abbrev looping : List ℕ
looping = 192 ∷ 0 ∷ []

read_domain_name-self_pointer_example :
    read_domain_name 1000 (message looping) 0 (some (replicate 256 9)) ≡ none
read_domain_name-self_pointer_example =
    read_domain_name-self_pointer (message looping) (message-IsValid looping (omega arith))
      (omega arith) 1000 0 (some (replicate 256 9)) (ground arith) (ground arith) refl
