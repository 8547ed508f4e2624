-- ===== src/PacketBuffer/Tests.antt =====
-- Runs of the packet buffer, and the theorems at a concrete buffer.
use simple_socks.Common.{
  ℕ, zero, suc, get_or, ◌≤◌, ◌<◌, ◌≡◌, refl, some, [], ◌∷◌, arith, inl, Succeeds, length, rem,
  copy_from, copy_to, store, false,
}
use mathlib.Core.Option
use simple_socks.Common.IoError.{IoError}
use simple_socks.Common.Script.{Script, script, script-IsStream}
use simple_socks.PacketBuffer.{
  PacketBuffer, real_block_index, get_block, drop_front, drop_sent, keep_received, recv_back,
  send_front, write_back,
}
use simple_socks.PacketBuffer.Contents.{IsValid, packets, no_block, block_at}
use simple_socks.PacketBuffer.Receive.{Kept, IsBounded, recv_back-Kept}
use simple_socks.PacketBuffer.Send.{Departed, send_front-Departed}
use simple_socks.PacketBuffer.Produce.{write_back-refused}

-- One packet, 8 and 9, in the last of three blocks of four bytes.
abbrev one : PacketBuffer
one = record {
  blocks =
      record { size = 0; bytes = 0 ∷ 0 ∷ 0 ∷ 0 ∷ [] }
      ∷ record { size = 1; bytes = 5 ∷ 5 ∷ 5 ∷ 5 ∷ [] }
      ∷ record { size = 2; bytes = 8 ∷ 9 ∷ 6 ∷ 6 ∷ [] }
      ∷ [];
  packet_count = 1;
  packet_offset = 2;
  packet_size = 4;
  max_packets = 3;
}

abbrev world : Script
world = record { incoming = 1 ∷ 2 ∷ 3 ∷ []; outgoing = [] }

one-room : (i : ℕ) → i < 3 → length (get_or one.blocks i no_block).bytes ≡ 4
one-room zero p = refl
one-room (suc zero) p = refl
one-room (suc (suc zero)) p = refl
one-room (suc (suc (suc i))) p = absurd (omega arith)

one-sizes : (i : ℕ) → i < 1 → (block_at one i).size ≤ 4
one-sizes zero p = omega arith
one-sizes (suc i) p = absurd (omega arith)

one-IsValid : IsValid one
one-IsValid = record {
  storage = refl;
  small = omega arith;
  small_packets = omega arith;
  offset_in = omega arith;
  count_in = omega arith;
  room = one-room;
  sizes = one-sizes;
}

script-IsBounded : IsBounded (script 9)
script-IsBounded w n bs e = let laws = script-IsStream 9 in laws.recv-le w n bs e

packets-recv_back :
    Option.map
      (λ ((rc, b, w) : IoError × PacketBuffer × Script). packets b)
      (recv_back (script 9) world one 2)
    ≡ some ((8 ∷ 9 ∷ []) ∷ (1 ∷ 2 ∷ []) ∷ [])
unfolding recv_back get_block real_block_index keep_received copy_to store rem
packets-recv_back = refl

sent-send_front :
    Option.map
      (λ ((rc, b, w) : IoError × PacketBuffer × Script). w.outgoing)
      (send_front (script 9) world one)
    ≡ some (8 ∷ 9 ∷ [])
unfolding send_front get_block real_block_index drop_sent drop_front copy_from store rem
sent-send_front = refl

recv_back-Kept_example :
    Succeeds
      (λ (rc, b', w').
        Kept one (some (1 ∷ 2 ∷ [])) (rc, b') × (w' ≡ record world { incoming = 3 ∷ [] }))
      (recv_back (script 9) world one 2)
recv_back-Kept_example =
    recv_back-Kept one one-IsValid (omega arith) (script 9) script-IsBounded world 2 (omega arith)
      (omega arith)

send_front-Departed_example :
    Succeeds
      (λ (rc, b', w').
        Departed one (8 ∷ 9 ∷ []) [] (some 2) (rc, b')
        × (w' ≡ record world { outgoing = 8 ∷ 9 ∷ [] }))
      (send_front (script 9) world one)
send_front-Departed_example = send_front-Departed one one-IsValid (omega arith) (script 9) world

write_back-refused_example : write_back one (7 ∷ []) 4 1 ≡ some (false, one, 4)
write_back-refused_example = write_back-refused one (7 ∷ []) 4 1 one-IsValid (inl (omega arith))
