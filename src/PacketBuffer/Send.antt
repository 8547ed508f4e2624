-- ===== src/PacketBuffer/Send.antt =====
-- ss_packet_buffer_send_front, ss_packet_buffer_pop_front and ss_packet_buffer_read_front: the
-- operations on the first packet.
use simple_socks.Common.{
  ℕ, ◌+◌, ◌<◌, ◌≡◌, ◌≢◌, refl, ◌∙◌, Bool, true, false, Option, none, some, List, [], ◌∷◌, arith,
  leb, ◌==◌, if◌then◌else◌, length, set, slice, length-take, add_size, copy_from-some, store-some,
  ge→ltb, gt→leb, lt→ltb, le→leb, slice-take, ne→==, Succeeds, size_mod,
}
use simple_socks.Common.IoError.{IoError, ok, error, empty}
use simple_socks.Common.Socket.{Socket}
use simple_socks.PacketBuffer.{
  PacketBuffer, drop_sent, send_front, pop_front, read_front, drop_front,
}
use simple_socks.PacketBuffer.Contents.{
  IsValid, Dropped, packets, payload, later, place, place_in, block_at, get_block-some, set_front,
  front-later, drop_front-Dropped,
}
use native.Mathlib.Decide.{ℕ_discrete, dec_lt}
use mathlib.Core.Option

-- Whether send() took the whole packet.
abbrev pub is_sent : List ℕ → Option ℕ → Bool
is_sent front none = false
is_sent front (some k) = k == length front

-- The result for the first packet `front`, the `rest` behind it, and what send() returned.
pub record Departed (b : PacketBuffer) (front : List ℕ) (rest : List (List ℕ)) (res : Option ℕ)
    (result : IoError × PacketBuffer) : Type 0 where
  pub valid : IsValid result.1
  pub returns :
      result.0 ≡ (if length front == 0 then empty else if is_sent front res then ok else error)
  pub queue :
      packets result.1
      ≡ (if length front == 0 then rest else if is_sent front res then rest else front ∷ rest)

module _ (b : PacketBuffer) (v : IsValid b) (p : 0 < b.packet_count) where
  abbrev front : List ℕ
  front = payload (block_at b 0)

  front_room : length (block_at b 0).bytes ≡ b.packet_size
  front_room = let count_in = v.count_in in v.room (place b 0) (place_in b v 0 (omega arith))

  pub length-front : length front ≡ (block_at b 0).size
  length-front =
      omega (arith, length-take (block_at b 0).size (block_at b 0).bytes, front_room, v.sizes 0 p)

  -- A packet that was sent is forgotten.
  emptied-Dropped :
      Succeeds
        (λ b'. IsValid b' × (packets b' ≡ later b v))
        (drop_front (record b {
          blocks = set b.blocks (place b 0) (record { size = 0; bytes = (block_at b 0).bytes });
        }))
  emptied-Dropped =
      let (valid, same) =
        set_front b v (record { size = 0; bytes = (block_at b 0).bytes }) p front_room
          (omega arith) in
      let (b', e, d) = drop_front-Dropped _ valid p in (b', e, (d.valid, d.rest ∙ same))

  drop_sent-whole :
      (k : ℕ)
      → k ≡ (block_at b 0).size
      → Succeeds
          (λ (rc, b'). (rc ≡ ok) × IsValid b' × (packets b' ≡ later b v))
          (drop_sent b (place b 0) (block_at b 0) (some k))
  unfolding drop_sent
  drop_sent-whole k e =
      let storage = v.storage in
      let count_in = v.count_in in
      let at = place_in b v 0 (omega arith) in
      let (b', runs, (valid, rest)) = emptied-Dropped in
      let same : (k == (block_at b 0).size) ≡ true = ground arith in
      rw
        (
          same,
          store-some b.blocks (place b 0) (record { size = 0; bytes = (block_at b 0).bytes })
              (omega arith),
          runs,
        )
        (_, refl, (refl, valid, rest))

  drop_sent-part :
      (k : ℕ)
      → k ≢ (block_at b 0).size
      → drop_sent b (place b 0) (block_at b 0) (some k) ≡ some (error, b)
  unfolding drop_sent
  drop_sent-part k e = rw (ne→== k (block_at b 0).size e)

  drop_sent-none : drop_sent b (place b 0) (block_at b 0) none ≡ some (error, b)
  unfolding drop_sent
  drop_sent-none = refl

  drop_sent-Departed :
      (res : Option ℕ)
      → 0 < length front
      → Succeeds (Departed b front (later b v) res) (drop_sent b (place b 0) (block_at b 0) res)
  drop_sent-Departed none h = (
    _,
    drop_sent-none,
    record { valid = v; returns = ground arith; queue = front-later b v p ∙ ground arith },
  )
  drop_sent-Departed (some k) h = elim (ℕ_discrete k (block_at b 0).size) [
    | yes e ↦
        let ((rc, b'), runs, (fine, valid, rest)) = drop_sent-whole k e in
        (
          (rc, b'),
          runs,
          record {
            valid = valid;
            returns = fine ∙ ground (arith, length-front);
            queue = rest ∙ ground (arith, length-front);
          },
        )
    | no e ↦ (
      _,
      drop_sent-part k e,
      record {
        valid = v;
        returns = ground (arith, length-front);
        queue = front-later b v p ∙ ground (arith, length-front);
      },
    )
  ]

  -- ss_packet_buffer_send_front offers the first packet to send(), and forgets it if send() took it
  -- whole or if it is empty, which send() is not called for; else it stays the first.
  pub send_front-Departed :
      (s : Socket) (w : s.State)
      → Succeeds
          (λ (rc, b', w').
            Departed b front (later b v) (s.send w front).0 (rc, b')
            × (w' ≡ (if length front == 0 then w else (s.send w front).1)))
          (send_front s w b)
  unfolding send_front
  send_front-Departed s w =
      let count_in = v.count_in in
      let sizes = v.sizes 0 p in
      rw (ne→== b.packet_count 0 (omega arith), get_block-some b v 0 (omega arith), length-front)
        (elim (ℕ_discrete (block_at b 0).size 0) [
          | yes e ↦
              let zero_ : ((block_at b 0).size == 0) ≡ true = ground arith in
              let (b', runs, d) = drop_front-Dropped b v p in
              rw (zero_, runs)
                (
                  _,
                  refl,
                  (
                    record {
                      valid = d.valid;
                      returns = ground (arith, length-front);
                      queue = d.rest ∙ ground (arith, length-front);
                    },
                    refl,
                  ),
                )
          | no e ↦
              let (_, runs, d) =
                drop_sent-Departed (s.send w front).0 (omega (arith, length-front)) in
              rw
                (
                  ne→== (block_at b 0).size 0 e,
                  copy_from-some (block_at b 0).bytes 0 (block_at b 0).size
                      (omega (arith, front_room)),
                  runs,
                )
                (_, refl, (d, refl))
        ])

  -- ss_packet_buffer_pop_front hands out the first packet and forgets it.
  pub pop_front-first :
      Succeeds
        (λ (done, block, b').
          (done ≡ true) × (Option.map payload block ≡ some front) × Dropped b v b')
        (pop_front b)
  unfolding pop_front
  pop_front-first =
      let count_in = v.count_in in
      let (b', runs, d) = drop_front-Dropped b v p in
      rw (ne→== b.packet_count 0 (omega arith), get_block-some b v 0 (omega arith), runs)
        (_, refl, (refl, refl, d))

  -- ss_packet_buffer_read_front reads the bytes of the first packet from the offset on, and moves
  -- the offset behind them; it fails where the packet is shorter.
  pub read_front-slice :
      (offset size : ℕ)
      → offset + size < size_mod
      → read_front true b offset size
        ≡ some (
            if leb (offset + size) (length front)
            then (true, slice offset size front, offset + size)
            else (false, [], offset))
  unfolding read_front
  read_front-slice offset size small =
      let count_in = v.count_in in
      let sizes = v.sizes 0 p in
      let sum : add_size offset size ≡ offset + size = omega arith in
      rw
        (
          ne→== b.packet_count 0 (omega arith),
          get_block-some b v 0 (omega arith),
          sum,
          length-front,
        )
        (elim (dec_lt (block_at b 0).size (offset + size)) [
          | yes beyond ↦ rw (lt→ltb _ _ beyond, gt→leb _ _ beyond)
          | no within ↦ rw (
            ge→ltb (block_at b 0).size (offset + size) (omega arith),
            le→leb (offset + size) (block_at b 0).size (omega arith),
            copy_from-some (block_at b 0).bytes offset size (omega (arith, front_room)),
            slice-take offset size (block_at b 0).size (block_at b 0).bytes (omega arith)
                (omega (arith, front_room)),
          )
        ])
