-- ===== src/PacketBuffer/Produce.antt =====
-- ss_packet_buffer_write_back and ss_packet_buffer_push_back: a packet is written behind the last
-- one, then counted in.
use simple_socks.Common.{
  ℕ, suc, ◌+◌, ◌≤◌, ◌<◌, ◌≡◌, refl, ap, ◌∙◌, ◌⊎◌, true, false, some, List, [], ◌∷◌, ◌++◌, arith,
  length, set, take, blit, take_all, length-blit, add_size, copy_from-some, copy_to-some,
  store-some, ge→ltb, gt→leb,
}
use simple_socks.PacketBuffer.{Block, PacketBuffer, write_back, push_back}
use simple_socks.PacketBuffer.Contents.{
  IsValid, packets, place, place_in, block_at, get_block-some, set_block, stage, commit,
}
use simple_socks.PacketBuffer.Receive.{take-blit}

module _ (b : PacketBuffer) (v : IsValid b) (free : suc b.packet_count < b.max_packets) where
  abbrev next : ℕ
  next = place b b.packet_count

  -- The bytes of the block behind the last packet.
  abbrev draft : List ℕ
  draft = (block_at b b.packet_count).bytes

  -- The buffer with other bytes there.
  abbrev pub written : List ℕ → PacketBuffer
  written bytes = record b {
    blocks = set b.blocks next (record { size = (block_at b b.packet_count).size; bytes = bytes });
  }

  draft_room : length draft ≡ b.packet_size
  draft_room = v.room next (place_in b v b.packet_count (omega arith))

  pub write_back-runs :
      (src : List ℕ) (offset : ℕ)
      → offset + length src ≤ b.packet_size
      → write_back b src offset (length src)
        ≡ some (true, written (blit draft offset src), offset + length src)
  unfolding write_back
  write_back-runs src offset fits =
      let storage = v.storage in
      let small = v.small in
      let small_packets = v.small_packets in
      let at = place_in b v b.packet_count (omega arith) in
      let count : add_size b.packet_count 1 ≡ suc b.packet_count = omega arith in
      let end : add_size offset (length src) ≡ offset + length src = omega arith in
      rw (
        end,
        ge→ltb b.packet_size (offset + length src) fits,
        count,
        gt→leb b.max_packets (suc b.packet_count) free,
        get_block-some b v b.packet_count (omega arith),
        copy_from-some src 0 (length src) (omega arith),
        take_all (length src) src (omega arith),
        copy_to-some draft offset src (omega (arith, draft_room)),
        store-some b.blocks next
            (record { size = (block_at b b.packet_count).size; bytes = blit draft offset src })
            (omega arith),
      )

  -- What ss_packet_buffer_write_back leaves: the packets are the same, and the draft is changed.
  pub write_back-staged :
      (bytes : List ℕ)
      → length bytes ≡ b.packet_size
      → IsValid (written bytes)
        × (packets (written bytes) ≡ packets b)
        × ((block_at (written bytes) b.packet_count).bytes ≡ bytes)
  write_back-staged bytes e =
      let (valid, same) =
        stage b v (record { size = (block_at b b.packet_count).size; bytes = bytes }) (omega arith)
          e in
      let block : Block = record { size = (block_at b b.packet_count).size; bytes = bytes } in
      let here : block_at (written bytes) b.packet_count ≡ block =
        ground
          (arith, set_block b v b.packet_count b.packet_count block (omega arith) (omega arith)) in
      (valid, same, ap (λ (x : Block). x.bytes) here)

  abbrev pub pushed : ℕ → PacketBuffer
  pushed size = record b {
    blocks = set b.blocks next (record { size = size; bytes = draft });
    packet_count = suc b.packet_count;
  }

  pub push_back-runs : (size : ℕ) → push_back b size ≡ some (true, pushed size)
  unfolding push_back
  push_back-runs size =
      let storage = v.storage in
      let small = v.small in
      let at = place_in b v b.packet_count (omega arith) in
      let count : add_size b.packet_count 1 ≡ suc b.packet_count = omega arith in
      rw (
        get_block-some b v b.packet_count (omega arith),
        store-some b.blocks next (record { size = size; bytes = draft }) (omega arith),
        count,
      )

  pub pushed-packets :
      (size : ℕ)
      → size ≤ b.packet_size
      → IsValid (pushed size) × (packets (pushed size) ≡ packets b ++ take size draft ∷ [])
  pushed-packets size fits =
      commit b v (record { size = size; bytes = draft }) (omega arith) draft_room fits

-- ss_packet_buffer_write_back at offset 0 and then ss_packet_buffer_push_back of as many bytes, with
-- two blocks or more that are not in use, make the bytes the last packet of the buffer.
pub write_back-push_back :
    (b : PacketBuffer)
    → IsValid b
    → suc b.packet_count < b.max_packets
    → (src : List ℕ) → length src ≤ b.packet_size
    → (b' b'' : PacketBuffer) × (write_back b src 0 (length src) ≡ some (true, b', length src))
      × (packets b' ≡ packets b)
      × (push_back b' (length src) ≡ some (true, b''))
      × IsValid b''
      × (packets b'' ≡ packets b ++ src ∷ [])
write_back-push_back b v free src fits =
    let bytes = blit (draft b v free) 0 src in
    let room = draft_room b v free in
    let (valid, same, drafted) =
      write_back-staged b v free bytes (length-blit (draft b v free) 0 src ∙ room) in
    let b' = written b v free bytes in
    let (valid', more) = pushed-packets b' valid free (length src) fits in
    (
      b',
      pushed b' valid free (length src),
      write_back-runs b v free src 0 (omega arith)
          ∙ ap (λ (n : ℕ). some (true, b', n)) (omega arith),
      same,
      push_back-runs b' valid free (length src),
      valid',
      more ∙ rw (same, drafted, take-blit (draft b v free) src (omega (arith, room))) refl,
    )

-- ss_packet_buffer_write_back fails and changes nothing where the bytes reach beyond a packet's
-- size, or all blocks but one are in use.
pub write_back-refused :
    (b : PacketBuffer) (src : List ℕ) (offset size : ℕ)
    → IsValid b
    → (b.packet_size < add_size offset size) ⊎ (b.max_packets ≤ suc b.packet_count)
    → write_back b src offset size ≡ some (false, b, offset)
unfolding write_back
write_back-refused b src offset size v why =
    let small = v.small in
    let count_in = v.count_in in
    let count : add_size b.packet_count 1 ≡ suc b.packet_count = omega arith in
    rw count (ground arith)
