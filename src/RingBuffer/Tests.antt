-- ===== src/RingBuffer/Tests.antt =====
-- Runs of the ring buffer, and the theorems at concrete buffers.
use simple_socks.Common.{
  ◌≡◌, refl, true, some, [], ◌∷◌, arith, pos, Succeeds, copy_from, copy_to, rem,
}
use simple_socks.Common.Script.{Script, script, script-IsStream}
use simple_socks.RingBuffer.{Ring, advance, first_part, read, steal, write_fixed}
use simple_socks.RingBuffer.Contents.{contents, IsValid}
use simple_socks.RingBuffer.Read.{read-oldest}
use simple_socks.RingBuffer.Steal.{steal-contents}
use simple_socks.RingBuffer.Write.{Written, write_fixed-Written}
use simple_socks.RingBuffer.Stream.{
  recv, send, recv_via_buffer, send_via_buffer, handle_recv_result, fill, recv_first, recv_second,
  send_size, send_taken, send_loop,
}
use simple_socks.RingBuffer.Stream.Receive
use simple_socks.RingBuffer.Stream.Send
use simple_socks.RingBuffer.Stream.Via

-- 8, then 9, round the end of a memory of four bytes.
abbrev wrapped : Ring
wrapped = record { buffer = 9 ∷ 7 ∷ 6 ∷ 8 ∷ []; offset = 3; length = 2; capacity = 4 }

-- 5 and 6 before the end of a memory of four bytes.
abbrev straight : Ring
straight = record { buffer = 4 ∷ 5 ∷ 6 ∷ 7 ∷ []; offset = 1; length = 2; capacity = 4 }

abbrev world : Script
world = record { incoming = 1 ∷ 2 ∷ 3 ∷ []; outgoing = [] }

wrapped-IsValid : IsValid wrapped
wrapped-IsValid = omega arith

straight-IsValid : IsValid straight
straight-IsValid = omega arith

contents-wrapped : contents wrapped ≡ 8 ∷ 9 ∷ []
contents-wrapped = refl

-- Three bytes are asked for, and two have room.
recv-straight :
    recv (script 9) 0 world straight 3
    ≡ some (
      pos 2,
      record straight { buffer = 2 ∷ 5 ∷ 6 ∷ 1 ∷ []; length = 4 },
      record world { incoming = 3 ∷ [] },
    )
unfolding recv recv_first recv_second fill handle_recv_result copy_to rem
recv-straight = refl

send-wrapped :
    send (script 9) world wrapped 2
    ≡ some
        (pos 2, record wrapped { offset = 1; length = 0 }, record world { outgoing = 8 ∷ 9 ∷ [] })
unfolding send send_loop send_taken send_size advance first_part copy_from rem
send-wrapped = refl

-- Two bytes go round the end of the memory: the value is 2, and one is counted in.
write_fixed-straight :
    write_fixed straight (1 ∷ 2 ∷ []) 2
    ≡ some (pos 2, record straight { buffer = 2 ∷ 5 ∷ 6 ∷ 1 ∷ []; length = 3 })
unfolding write_fixed first_part copy_from copy_to rem
write_fixed-straight = refl

recv-Received_example :
    Succeeds
      (Receive.Outcome (script 9) (script-IsStream 9) straight world)
      (recv (script 9) 0 world straight 3)
recv-Received_example =
    Receive.recv-Received (script 9) (script-IsStream 9) 0 world straight 3 straight-IsValid

send-Departed_example :
    Succeeds
      (Send.Outcome (script 9) (script-IsStream 9) wrapped world)
      (send (script 9) world wrapped 2)
send-Departed_example =
    Send.send-Departed (script 9) (script-IsStream 9) world wrapped 2 (omega arith) wrapped-IsValid

recv_via_buffer-Answered_example :
    Succeeds
      (Via.Answered (script 1) (script-IsStream 1) 1 3 (omega arith) true wrapped world)
      (recv_via_buffer (script 1) 0 world true wrapped 1 3)
recv_via_buffer-Answered_example =
    Via.recv_via_buffer-Answered (script 1) (script-IsStream 1) 1 3 (omega arith) 0 true world
      wrapped wrapped-IsValid (omega arith)

send_via_buffer-Sent_example :
    Succeeds (Via.Sent wrapped (1 ∷ 2 ∷ [])) (send_via_buffer wrapped (1 ∷ 2 ∷ []) 2)
send_via_buffer-Sent_example = Via.send_via_buffer-Sent wrapped (1 ∷ 2 ∷ []) wrapped-IsValid

read-oldest_example :
    (r' : Ring) × (read true wrapped 1 ≡ some (pos 1, 8 ∷ [], r'))
    × IsValid r'
    × (contents r' ≡ 9 ∷ [])
    × (r'.capacity ≡ 4)
read-oldest_example = read-oldest wrapped wrapped-IsValid true 1

steal-contents_example : steal true wrapped 1 5 ≡ some (pos 1, 9 ∷ [])
steal-contents_example = steal-contents wrapped wrapped-IsValid 1 5 (omega arith)

write_fixed-Written_example :
    Succeeds (Written straight (1 ∷ 2 ∷ []) 1) (write_fixed straight (1 ∷ 2 ∷ []) 2)
write_fixed-Written_example =
    write_fixed-Written straight straight-IsValid (1 ∷ 2 ∷ []) (omega arith)
