-- ===== src/PacketBuffer/Receive.antt =====
-- ss_packet_buffer_recv_back: a packet from the socket becomes the last one of the buffer.
use simple_socks.Common.{
  ℕ, suc, ◌≤◌, ◌<◌, ◌≡◌, refl, sym, ap, ◌∙◌, ◌⊎◌, true, Option, none, some, List, [], ◌∷◌, ◌++◌,
  append-nil, arith, ltb, leb, ◌==◌, if◌then◌else◌, length, set, take, blit, length-blit,
  length-take, get_or-take, get_or-blit, list_ext, add_size, copy_to-some, store-some, ge→ltb,
  gt→leb, ne→==, Succeeds, Succeeds-if,
}
use simple_socks.Common.IoError.{IoError, ok, again, error, is_failure}
use simple_socks.Common.Socket.{Socket}
use simple_socks.PacketBuffer.{Block, PacketBuffer, keep_received, recv_back}
use simple_socks.PacketBuffer.Contents.{
  IsValid, packets, place, place_in, block_at, get_block-some, stage, commit,
}

-- What recv() leaves in the buffer, and what the call returns for it.
abbrev pub received : Option (List ℕ) → List (List ℕ)
received none = []
received (some []) = []
received (some (x ∷ bs)) = (x ∷ bs) ∷ []

abbrev pub code : Option (List ℕ) → IoError
code none = error
code (some []) = again
code (some (x ∷ bs)) = ok

-- recv() does not write more bytes than it was asked for.
abbrev pub IsBounded : Socket → Type 0
IsBounded s = (w : s.State) (n : ℕ) (bs : List ℕ) → (s.recv w n).0 ≡ some bs → length bs ≤ n

pub take-blit :
    (bytes bs : List ℕ) → length bs ≤ length bytes → take (length bs) (blit bytes 0 bs) ≡ bs
take-blit bytes bs h =
    let size : length (take (length bs) (blit bytes 0 bs)) ≡ length bs =
      omega (arith, length-take (length bs) (blit bytes 0 bs), length-blit bytes 0 bs) in
    list_ext 0 _ _ size λ i p.
      get_or-take (length bs) (blit bytes 0 bs) i 0 (omega (arith, size))
      ∙ ground (arith, get_or-blit bytes 0 bs i 0, size)

pub record Kept (b : PacketBuffer) (res : Option (List ℕ)) (result : IoError × PacketBuffer)
    : Type 0 where
  pub returns : result.0 ≡ code res
  pub valid : IsValid result.1
  pub queue : packets result.1 ≡ packets b ++ received res

module _ (b : PacketBuffer) (v : IsValid b) (free : suc b.packet_count < b.max_packets) where
  -- The block behind the last packet, with the bytes received.
  abbrev filled : ℕ → List ℕ → Block
  filled size bs = record { size = size; bytes = blit (block_at b b.packet_count).bytes 0 bs }

  filled_size : (bs : List ℕ) (size : ℕ) → length (filled size bs).bytes ≡ b.packet_size
  filled_size bs size =
      length-blit _ 0 bs
      ∙ v.room (place b b.packet_count) (place_in b v b.packet_count (omega arith))

  keep_received-runs :
      (bs : List ℕ)
      → length bs ≤ b.packet_size
      → keep_received b (place b b.packet_count) (block_at b b.packet_count) (some bs) ≡ (
          if length bs == 0
          then some (
            again,
            record b {
              blocks =
                  set b.blocks
                    (place b b.packet_count)
                    (filled (block_at b b.packet_count).size bs);
            },
          )
          else some (
            ok,
            record b {
              blocks = set b.blocks (place b b.packet_count) (filled (length bs) bs);
              packet_count = suc b.packet_count;
            },
          ))
  unfolding keep_received
  keep_received-runs bs bound =
      let storage = v.storage in
      let small = v.small in
      let at = place_in b v b.packet_count (omega arith) in
      let room = v.room (place b b.packet_count) at in
      let next : add_size b.packet_count 1 ≡ suc b.packet_count = omega arith in
      rw (
        copy_to-some (block_at b b.packet_count).bytes 0 bs (omega arith),
        store-some b.blocks (place b b.packet_count) (filled (block_at b b.packet_count).size bs)
            (omega arith),
        store-some b.blocks (place b b.packet_count) (filled (length bs) bs) (omega arith),
        next,
      )

  keep_received-ok :
      (bs : List ℕ)
      → length bs ≤ b.packet_size
      → 0 < length bs
      → keep_received b (place b b.packet_count) (block_at b b.packet_count) (some bs)
        ≡ some (
          ok,
          record b {
            blocks = set b.blocks (place b b.packet_count) (filled (length bs) bs);
            packet_count = suc b.packet_count;
          },
        )
  keep_received-ok bs bound p = rw (keep_received-runs bs bound, ne→== (length bs) 0 (omega arith))

  keep_received-none :
      keep_received b (place b b.packet_count) (block_at b b.packet_count) none ≡ some (error, b)
  unfolding keep_received
  keep_received-none = refl

  keep_received-Kept :
      (res : Option (List ℕ))
      → ((bs : List ℕ) → res ≡ some bs → length bs ≤ b.packet_size)
      → Succeeds
          (Kept b res)
          (keep_received b (place b b.packet_count) (block_at b b.packet_count) res)
  keep_received-Kept none h = (
    _,
    keep_received-none,
    record { returns = refl; valid = v; queue = sym (append-nil (packets b)) },
  )
  keep_received-Kept (some []) h =
      let (valid, same) =
        stage b v (filled (block_at b b.packet_count).size []) (omega arith) (filled_size [] 0) in
      (
        _,
        keep_received-runs [] (omega arith),
        record { returns = refl; valid = valid; queue = same ∙ sym (append-nil (packets b)) },
      )
  keep_received-Kept (some (x ∷ r)) h =
      let bs : List ℕ = x ∷ r in
      let bound = h bs refl in
      let room = v.room (place b b.packet_count) (place_in b v b.packet_count (omega arith)) in
      let (valid, more) =
        commit b v (filled (length bs) bs) (omega arith) (filled_size bs 0) bound in
      (
        _,
        keep_received-ok bs bound (omega arith),
        record {
          returns = refl;
          valid = valid;
          queue =
              more
              ∙ ap (λ (p : List ℕ). packets b ++ p ∷ [])
                  (take-blit (block_at b b.packet_count).bytes bs (omega arith));
        },
      )

  -- ss_packet_buffer_recv_back on a valid buffer with two blocks or more that are not in use, for a
  -- size from 1 to a packet's, on a socket whose recv() writes no more than
  -- it is asked for: what recv() delivers is the last packet of the buffer, after the others, and
  -- nothing is added where recv() fails or delivers nothing.
  pub recv_back-Kept :
      (s : Socket)
      → IsBounded s
      → (w : s.State) (size : ℕ) → 0 < size
      → size ≤ b.packet_size
      → Succeeds
          (λ (rc, b', w'). Kept b (s.recv w size).0 (rc, b') × (w' ≡ (s.recv w size).1))
          (recv_back s w b size)
  unfolding recv_back
  recv_back-Kept s bounded w size p q =
      let small = v.small in
      let next : add_size b.packet_count 1 ≡ suc b.packet_count = omega arith in
      let (_, e, k) =
        keep_received-Kept (s.recv w size).0 (λ bs e. omega (arith, bounded w size bs e)) in
      rw
        (
          ge→ltb b.packet_size size q,
          ne→== size 0 (omega arith),
          next,
          gt→leb b.max_packets (suc b.packet_count) free,
          get_block-some b v b.packet_count (omega arith),
          e,
        )
        (_, refl, (k, refl))

-- ss_packet_buffer_recv_back fails and does not call recv() where the size asked for is 0 or more
-- than a packet's, or all blocks but one are in use.
pub recv_back-refused :
    (s : Socket) (w : s.State) (b : PacketBuffer) (size : ℕ)
    → IsValid b
    → (b.packet_size < size) ⊎ ((size ≡ 0) ⊎ (b.max_packets ≤ suc b.packet_count))
    → Succeeds (λ (rc, b', w'). (is_failure rc ≡ true) × (b' ≡ b) × (w' ≡ w)) (recv_back s w b size)
unfolding recv_back
recv_back-refused s w b size v why =
    let small = v.small in
    let count_in = v.count_in in
    let next : add_size b.packet_count 1 ≡ suc b.packet_count = omega arith in
    rw next (
      Succeeds-if (ltb b.packet_size size) (λ _. (_, refl, (refl, refl, refl)))
        λ fits.
          Succeeds-if (size == 0) (λ _. (_, refl, (refl, refl, refl)))
            λ some_.
              Succeeds-if (leb b.max_packets (suc b.packet_count))
                (λ _. (_, refl, (refl, refl, refl))) λ room. absurd (ground arith))
