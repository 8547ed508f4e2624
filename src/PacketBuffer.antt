-- ===== src/PacketBuffer.antt =====
-- src/util/ss_packet_buffer.c and src/util/ss_packet_buffer_def.h: a ring of blocks, each with the
-- size of its packet and room for packet_size bytes. An access outside the ring or outside the bytes
-- of a block is `none`, and so is `% max_packets` at zero. `malloc n` is the memory for n blocks.
pub mod Contents
pub mod Receive
pub mod Send
pub mod Produce
mod Tests
use simple_socks.Common.{
  ℕ, ◌+◌, Bool, true, false, not, Option, none, some, List, [], load, store, copy_from, copy_to,
  rem, length, ltb, leb, ◌==◌, if◌then◌else◌, ◌>>=◌, add_size, sub_size,
}
use simple_socks.Common.IoError.{IoError, ok, again, error, overflow, empty}
use simple_socks.Common.Socket.{Socket}

-- ss_packet_block_t and the bytes behind it.
pub record Block : Type 0 where
  pub size : ℕ
  pub bytes : List ℕ

pub record PacketBuffer : Type 0 where
  pub blocks : List Block
  pub packet_count : ℕ
  pub packet_offset : ℕ
  pub packet_size : ℕ
  pub max_packets : ℕ

-- ss_packet_buffer_initialize
unfoldable pub initialize : (ℕ → ℕ → List Block) → ℕ → ℕ → PacketBuffer
initialize malloc packet_size max_packets = record {
  blocks = malloc packet_size max_packets;
  packet_count = 0;
  packet_offset = 0;
  packet_size = packet_size;
  max_packets = max_packets;
}

-- REAL_BLOCK_INDEX
unfoldable pub real_block_index : PacketBuffer → ℕ → Option ℕ
real_block_index b idx = rem (add_size b.packet_offset idx) b.max_packets

-- get_block, with the block's index in place of a pointer to it
unfoldable pub get_block : PacketBuffer → ℕ → Option (ℕ × Block)
get_block b idx = do i ← real_block_index b idx; block ← load b.blocks i; some (i, block)

-- packet_offset = (packet_offset + 1) % max_packets; packet_count--
unfoldable pub drop_front : PacketBuffer → Option PacketBuffer
drop_front b = do
  i ← rem (add_size b.packet_offset 1) b.max_packets
  some (record b { packet_offset = i; packet_count = sub_size b.packet_count 1 })

-- What ss_packet_buffer_recv_back does with the result of recv().
unfoldable pub keep_received :
    PacketBuffer → ℕ → Block → Option (List ℕ) → Option (IoError × PacketBuffer)
keep_received b i block none = some (error, b)
keep_received b i block (some bs) = do
  bytes ← copy_to block.bytes 0 bs
  blocks ← store b.blocks i (record block { bytes = bytes })
  filled ← store b.blocks i (record block { size = length bs; bytes = bytes })
  if length bs == 0
      then some (again, record b { blocks = blocks })
      else some (ok, record b { blocks = filled; packet_count = add_size b.packet_count 1 })

-- What ss_packet_buffer_send_front does with the result of send().
unfoldable pub drop_sent : PacketBuffer → ℕ → Block → Option ℕ → Option (IoError × PacketBuffer)
drop_sent b i block none = some (error, b)
drop_sent b i block (some k) = if not (k == block.size) then some (error, b) else do
  blocks ← store b.blocks i (record block { size = 0 })
  b' ← drop_front (record b { blocks = blocks })
  some (ok, b')

module _ (s : Socket) where
  -- ss_packet_buffer_recv_back
  unfoldable pub recv_back : s.State → PacketBuffer → ℕ → Option (IoError × PacketBuffer × s.State)
  recv_back w b size =
      if ltb b.packet_size size
      then some (overflow, b, w)
      else if size == 0
      then some (empty, b, w)
      else if leb b.max_packets (add_size b.packet_count 1)
      then some (overflow, b, w)
      else do
        (i, block) ← get_block b b.packet_count
        let (res, w') = s.recv w size
        (rc, b') ← keep_received b i block res
        some (rc, b', w')

  -- ss_packet_buffer_send_front
  unfoldable pub send_front : s.State → PacketBuffer → Option (IoError × PacketBuffer × s.State)
  send_front w b = if b.packet_count == 0 then some (overflow, b, w) else do
    (i, block) ← get_block b 0
    if block.size == 0 then (do b' ← drop_front b; some (empty, b', w)) else do
      bs ← copy_from block.bytes 0 block.size
      let (res, w') = s.send w bs
      (rc, b') ← drop_sent b i block res
      some (rc, b', w')

-- ss_packet_buffer_pop_front, with the packet's size and bytes in place of a pointer into the block
unfoldable pub pop_front : PacketBuffer → Option (Bool × Option Block × PacketBuffer)
pop_front b =
    if b.packet_count == 0
    then some (false, none, b)
    else do (_, block) ← get_block b 0; b' ← drop_front b; some (true, some block, b')

-- ss_packet_buffer_push_back: the block's header alone is copied.
unfoldable pub push_back : PacketBuffer → ℕ → Option (Bool × PacketBuffer)
push_back b size = do
  (i, block) ← get_block b b.packet_count
  blocks ← store b.blocks i (record block { size = size })
  some (true, record b { blocks = blocks; packet_count = add_size b.packet_count 1 })

-- ss_packet_buffer_read_front: the bytes, if the caller wants them, and the new offset.
unfoldable pub read_front : Bool → PacketBuffer → ℕ → ℕ → Option (Bool × List ℕ × ℕ)
read_front dest b offset size = if b.packet_count == 0 then some (false, [], offset) else do
  (_, block) ← get_block b 0
  if ltb block.size (add_size offset size) then some (false, [], offset) else do
    bs ← if dest then copy_from block.bytes offset size else some []
    some (true, bs, add_size offset size)

-- ss_packet_buffer_write_back, at *offset_ptr, or at 0 where the pointer is null
unfoldable pub write_back : PacketBuffer → List ℕ → ℕ → ℕ → Option (Bool × PacketBuffer × ℕ)
write_back b src offset size =
    if ltb b.packet_size (add_size offset size)
    then some (false, b, offset)
    else if leb b.max_packets (add_size b.packet_count 1)
    then some (false, b, offset)
    else do
      (i, block) ← get_block b b.packet_count
      part ← copy_from src 0 size
      bytes ← copy_to block.bytes offset part
      blocks ← store b.blocks i (record block { bytes = bytes })
      some (true, record b { blocks = blocks }, add_size offset size)
