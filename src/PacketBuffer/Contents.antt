-- ===== src/PacketBuffer/Contents.antt =====
-- The packets that a packet buffer holds, oldest first, and its representation invariant.
use simple_socks.Common.{
  ℕ, suc, ◌+◌, ◌-◌, ◌%◌, ◌^◌, ◌≤◌, ◌<◌, ◌≡◌, ◌≢◌, refl, ◌∙◌, ap, some, List, [], ◌∷◌, ◌++◌, ltb,
  ◌==◌, if◌then◌else◌, arith, length, get_or, set, take, tabulate, tabulate_cong, tabulate_end,
  mod_turn, rem-some, add_size, sub_size, load-some, length-set, get_or-set, Succeeds,
}
use mathlib.Core.Path.{ap₂}
use simple_socks.PacketBuffer.{Block, PacketBuffer, real_block_index, get_block, drop_front}

abbrev pub no_block : Block
no_block = record { size = 0; bytes = [] }

-- Where block `i` from the front lies.
abbrev pub place : PacketBuffer → ℕ → ℕ
place b i = (b.packet_offset + i) % b.max_packets

abbrev pub block_at : PacketBuffer → ℕ → Block
block_at b i = get_or b.blocks (place b i) no_block

-- The bytes of a block that are its packet.
abbrev pub payload : Block → List ℕ
payload block = take block.size block.bytes

abbrev pub packets : PacketBuffer → List (List ℕ)
packets b = tabulate b.packet_count (λ i. payload (block_at b i))

pub record IsValid (b : PacketBuffer) : Type 0 where
  pub storage : length b.blocks ≡ b.max_packets
  pub small : b.max_packets < 2 ^ 62
  pub small_packets : b.packet_size < 2 ^ 62
  pub offset_in : b.packet_offset < b.max_packets
  pub count_in : b.packet_count ≤ b.max_packets
  pub room : (i : ℕ) → i < b.max_packets → length (get_or b.blocks i no_block).bytes ≡ b.packet_size
  pub sizes : (i : ℕ) → i < b.packet_count → (block_at b i).size ≤ b.packet_size

module _ (b : PacketBuffer) (v : IsValid b) where
  place_turn :
      (i : ℕ)
      → i ≤ b.max_packets
      → place b i ≡ (
          if ltb (b.packet_offset + i) b.max_packets
          then b.packet_offset + i
          else b.packet_offset + i - b.max_packets)
  place_turn i h =
      let in_ = v.offset_in in mod_turn (b.packet_offset + i) b.max_packets (omega arith)

  pub place_in : (i : ℕ) → i ≤ b.max_packets → place b i < b.max_packets
  place_in i h = let in_ = v.offset_in in ground (arith, place_turn i h)

  -- Different blocks lie at different places.
  pub place_apart : (i j : ℕ) → i < j → j < b.max_packets → place b i ≢ place b j
  place_apart i j h k =
      let in_ = v.offset_in in
      ground (arith, place_turn i (omega arith), place_turn j (omega arith))

  pub get_block-some : (i : ℕ) → i ≤ b.max_packets → get_block b i ≡ some (place b i, block_at b i)
  unfolding get_block real_block_index
  get_block-some i h =
      let in_ = v.offset_in in
      let small = v.small in
      let storage = v.storage in
      let e : add_size b.packet_offset i ≡ b.packet_offset + i = omega arith in
      rw (
        e,
        rem-some (b.packet_offset + i) b.max_packets (omega arith),
        load-some no_block b.blocks (place b i) (omega (arith, place_in i h)),
      )

  -- A new block at place `k`.
  pub set_block :
      (k i : ℕ) (block : Block)
      → k < b.max_packets
      → i < b.max_packets
      → get_or (set b.blocks (place b k) block) (place b i) no_block
        ≡ (if k == i then block else block_at b i)
  set_block k i block h p =
      let storage = v.storage in
      ground (
        arith,
        get_or-set b.blocks (place b k) (place b i) block no_block
            (omega (arith, place_in k (omega arith))),
        place_apart k i,
        place_apart i k,
      )

  set_room :
      (k i : ℕ) (block : Block)
      → k < b.max_packets
      → i < b.max_packets
      → length block.bytes ≡ b.packet_size
      → length (get_or (set b.blocks (place b k) block) i no_block).bytes ≡ b.packet_size
  set_room k i block h p e =
      let storage = v.storage in
      ground (
        arith,
        get_or-set b.blocks (place b k) i block no_block (omega (arith, place_in k (omega arith))),
        v.room i,
      )

  -- The block behind the last packet is overwritten: the packets stay.
  pub stage :
      (block : Block)
      → b.packet_count < b.max_packets
      → length block.bytes ≡ b.packet_size
      → let b' = record b { blocks = set b.blocks (place b b.packet_count) block } in
        IsValid b' × (packets b' ≡ packets b)
  stage block h e = (
    record {
      storage = length-set b.blocks _ block ∙ v.storage;
      small = v.small;
      small_packets = v.small_packets;
      offset_in = v.offset_in;
      count_in = v.count_in;
      room = λ i p. set_room b.packet_count i block h p e;
      sizes = λ i p. ground (arith, set_block b.packet_count i block h (omega arith), v.sizes i p);
    },
    tabulate_cong b.packet_count _ _
        (λ i p. ap payload (ground (arith, set_block b.packet_count i block h (omega arith)))),
  )

  -- It is counted in: a packet more at the end.
  pub commit :
      (block : Block)
      → b.packet_count < b.max_packets
      → length block.bytes ≡ b.packet_size
      → block.size ≤ b.packet_size
      → let b' = record b {
        blocks = set b.blocks (place b b.packet_count) block;
        packet_count = suc b.packet_count;
      } in
        IsValid b' × (packets b' ≡ packets b ++ payload block ∷ [])
  commit block h e f = (
    record {
      storage = length-set b.blocks _ block ∙ v.storage;
      small = v.small;
      small_packets = v.small_packets;
      offset_in = v.offset_in;
      count_in = h;
      room = λ i p. set_room b.packet_count i block h p e;
      sizes = λ i p. ground (arith, set_block b.packet_count i block h (omega arith), v.sizes i);
    },
    tabulate_end b.packet_count
          (λ i. payload (get_or (set b.blocks (place b b.packet_count) block) (place b i) no_block))
        ∙ ap₂ (λ xs x. xs ++ x ∷ [])
            (tabulate_cong b.packet_count _ _ (λ i p.
              ap payload (ground (arith, set_block b.packet_count i block h (omega arith)))))
            (ap payload (ground (arith, set_block b.packet_count b.packet_count block h h))),
  )

  -- The packets behind the first.
  abbrev pub later : List (List ℕ)
  later = tabulate (b.packet_count - 1) (λ i. payload (block_at b (suc i)))

  pub front-later : 0 < b.packet_count → packets b ≡ payload (block_at b 0) ∷ later
  front-later p =
      let e : b.packet_count ≡ suc (b.packet_count - 1) = omega arith in
      ap (λ n. tabulate n (λ i. payload (block_at b i))) e

  -- The first packet's block is overwritten: the others stay.
  pub set_front :
      (block : Block)
      → 0 < b.packet_count
      → length block.bytes ≡ b.packet_size
      → block.size ≤ b.packet_size
      → let b' = record b { blocks = set b.blocks (place b 0) block } in
        IsValid b' × (tabulate (b.packet_count - 1) (λ i. payload (block_at b' (suc i))) ≡ later)
  set_front block h e f =
      let count_in = v.count_in in
      (
        record {
          storage = length-set b.blocks _ block ∙ v.storage;
          small = v.small;
          small_packets = v.small_packets;
          offset_in = v.offset_in;
          count_in = v.count_in;
          room = λ i p. set_room 0 i block (omega arith) p e;
          sizes = λ i p. ground (arith, set_block 0 i block (omega arith) (omega arith), v.sizes i);
        },
        tabulate_cong (b.packet_count - 1) _ _ (λ i p.
            ap payload (ground (arith, set_block 0 (suc i) block (omega arith) (omega arith)))),
      )

  pub record Dropped (b' : PacketBuffer) : Type 0 where
    pub valid : IsValid b'
    pub rest : packets b' ≡ later
    pub packet_size_eq : b'.packet_size ≡ b.packet_size
    pub max_packets_eq : b'.max_packets ≡ b.max_packets
    pub count_eq : suc b'.packet_count ≡ b.packet_count

  shifted :
      (i : ℕ)
      → i < b.max_packets
      → ((b.packet_offset + 1) % b.max_packets + i) % b.max_packets ≡ place b (suc i)
  shifted i h =
      let in_ = v.offset_in in
      let e : b.packet_offset + 1 ≤ b.max_packets = omega arith in
      ground (
        arith,
        mod_turn (b.packet_offset + 1) b.max_packets (omega arith),
        mod_turn ((b.packet_offset + 1) % b.max_packets + i) b.max_packets,
        place_turn (suc i) h,
      )

  pub drop_front-Dropped : 0 < b.packet_count → Succeeds Dropped (drop_front b)
  unfolding drop_front
  drop_front-Dropped p =
      let in_ = v.offset_in in
      let small = v.small in
      let count_in = v.count_in in
      let next : add_size b.packet_offset 1 ≡ b.packet_offset + 1 = omega arith in
      let less : sub_size b.packet_count 1 ≡ b.packet_count - 1 = omega arith in
      rw (next, less, rem-some (b.packet_offset + 1) b.max_packets (omega arith))
        (
          _,
          refl,
          record {
            valid = record {
              storage = v.storage;
              small = v.small;
              small_packets = v.small_packets;
              offset_in =
                  ground (arith, mod_turn (b.packet_offset + 1) b.max_packets (omega arith));
              count_in = omega arith;
              room = v.room;
              sizes = λ i q. rw (shifted i (omega arith)) (v.sizes (suc i) (omega arith));
            };
            rest = tabulate_cong (b.packet_count - 1) _ _ (λ i q. rw (shifted i (omega arith)));
            packet_size_eq = refl;
            max_packets_eq = refl;
            count_eq = omega arith;
          },
        )
