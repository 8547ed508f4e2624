-- ===== src/Dns/Handlers/Request.antt =====
-- What ss_dns_resolve_start_inner puts into the send buffer.
use simple_socks.Common.{
  ℕ, suc, ◌+◌, ◌/◌, ◌≤◌, ◌<◌, ◌≡◌, ◌≢◌, refl, sym, ap, subst, ◌∙◌, true, false, some, List, [], ◌∷◌,
  ◌++◌, arith, ◌==◌, ltb, if◌then◌else◌, length, length-append, length-take, length-drop, get_or,
  take, drop, take-take, copy_from-some, Succeeds, Succeeds-if, Succeeds-if,
}
use simple_socks.Common.IoError.{IoError, ok, again}
use simple_socks.PacketBuffer.{PacketBuffer, write_back, push_back}
use simple_socks.PacketBuffer.Contents.{IsValid, packets}
use simple_socks.PacketBuffer.Produce.{write_back-push_back}
use simple_socks.Dns.{StrMap, Service, name_max}
use simple_socks.Dns.Names.Wire.{Labels, AreLabels, joined}
use simple_socks.Dns.Entries.{entry_of}
use simple_socks.Dns.Tids.Flags.{IsFlags, marked, occupy_tid-Marks}
use simple_socks.Dns.Tids.Search.{Made, next_tid-Made}
use simple_socks.Dns.Handlers.{
  Leftover, null, stored, request_size, send_request, resolve_start, is_recent, note_request,
}
use simple_socks.Dns.Handlers.Question.{
  take-past, question, request, length-question, request_bytes-question,
}

-- ss_packet_buffer_write_back of the front of an array.
write_back-front :
    (b : PacketBuffer) (src : List ℕ) (size : ℕ)
    → size ≤ length src
    → write_back b src 0 size ≡ write_back b (take size src) 0 (length (take size src))
unfolding write_back
write_back-front b src size fits =
    let same : length (take size src) ≡ size = omega (arith, length-take size src) in
    rw (
      same,
      copy_from-some src 0 size (omega arith),
      copy_from-some (take size src) 0 size (omega arith),
      take-take size size src (omega arith),
    )

-- The front of an array becomes the last packet.
put_front :
    (b : PacketBuffer) (bytes : List ℕ) (size : ℕ)
    → IsValid b
    → suc b.packet_count < b.max_packets
    → size ≤ length bytes
    → size ≤ b.packet_size
    → (b' b'' : PacketBuffer) × (write_back b bytes 0 size ≡ some (true, b', size))
      × (push_back b' size ≡ some (true, b''))
      × IsValid b''
      × (packets b'' ≡ packets b ++ take size bytes ∷ [])
put_front b bytes size v free long fits =
    let same : length (take size bytes) ≡ size = omega (arith, length-take size bytes) in
    let (b', b'', writes, _, pushes, valid, queue) =
      write_back-push_back b v free (take size bytes) (omega arith) in
    (
      b',
      b'',
      write_back-front b bytes size long ∙ writes ∙ ap (λ n. some (true, b', n)) same,
      ap (push_back b') (sym same) ∙ pushes,
      valid,
      queue,
    )

module _ (strmap : StrMap) (now : ℕ) (stack : List ℕ) (service : Service strmap) (l : List ℕ)
    (ls : Labels) where
  -- The request is in the send buffer, its id is marked, and the time is noted in the name's entry.
  pub record Requested (result : IoError × Service strmap × Leftover) : Type 0 where
    pub code : result.0 ≡ ok
    pub tid : ℕ
    pub made : Made service.tid_flags tid
    pub flags : IsFlags result.1.tid_flags
    pub marks :
        (t : ℕ) → marked result.1.tid_flags t ≡ (if t == tid then 1 else marked service.tid_flags t)
    pub valid : IsValid result.1.send_buffer
    pub queue :
        packets result.1.send_buffer ≡ packets service.send_buffer ++ request stack l ls tid ∷ []
    pub entry :
        result.1.map
        ≡ strmap.put service.map
            (joined (l ∷ ls))
            (record (entry_of strmap service (joined (l ∷ ls))) { last_request = now })

  send_request-Requested :
      (i : ℕ)
      → AreLabels (l ∷ ls)
      → request_size strmap (joined (l ∷ ls)) ≤ length stack
      → IsValid service.send_buffer
      → suc service.send_buffer.packet_count < service.send_buffer.max_packets
      → request_size strmap (joined (l ∷ ls)) ≤ service.send_buffer.packet_size
      → IsFlags service.tid_flags
      → service.next_tid / 16 ≤ i
      → i < 4095
      → get_or service.tid_flags i 0 ≢ 65535
      → Succeeds Requested (send_request strmap now stack null service (joined (l ∷ ls)))
  unfolding send_request note_request entry_of
  send_request-Requested i labels room v free fits f le small ne =
      let name = joined (l ∷ ls) in
      let (r, finds, (tid, e, made)) = next_tid-Made strmap service f i le small ne in
      let below = made.below in
      let bytes = question stack l ls tid ++ drop (length name + 18) stack in
      let builds = request_bytes-question stack l ls tid strmap labels (omega arith) in
      let packet : take (request_size strmap name) bytes ≡ request stack l ls tid =
        take-past (request_size strmap name) (length name + 6) (question stack l ls tid)
          (drop (length name + 18) stack) (omega (arith, length-question stack l ls tid)) in
      let long : request_size strmap name ≤ length bytes = omega (
        arith,
        length-append (question stack l ls tid) (drop (length name + 18) stack),
        length-question stack l ls tid,
        length-drop (length name + 18) stack,
      ) in
      let (b', b'', writes, pushes, valid, queue) =
        put_front service.send_buffer bytes (request_size strmap name) v free long fits in
      let (last, occupies, (flags, marks, others)) =
        occupy_tid-Marks strmap (record service { send_buffer = b'' }) tid f (omega arith) in
      let same = ap (λ (x : Service strmap). x.send_buffer) others in
      rw (finds, e, builds, writes, pushes, occupies)
        (
          _,
          refl,
          record {
            code = refl;
            tid = tid;
            made = made;
            flags = flags;
            marks = marks;
            valid = subst IsValid (sym same) valid;
            queue =
                ap packets same ∙ queue ∙ ap (λ p. packets service.send_buffer ++ p ∷ []) packet;
            entry =
                ap
                  (λ (x : Service strmap).
                    strmap.put x.map name (record (entry_of strmap x name) { last_request = now }))
                  others;
          },
        )

  -- ss_dns_resolve_start_inner for a name of labels, of at most 254 bytes, in a service that is not
  -- dead, with room in its send buffer and a segment of ids that is not full, where the uninitialised
  -- entry happens to be null: one packet more is in the send buffer, a question of type AAAA and as
  -- many bytes behind it as a second would have, which are what the stack held; its id is marked, and
  -- the time is noted in the entry of the name.
  pub resolve_start-Requested :
      (i : ℕ)
      → AreLabels (l ∷ ls)
      → length (joined (l ∷ ls)) ≤ name_max
      → request_size strmap (joined (l ∷ ls)) ≤ length stack
      → service.dead ≡ false
      → IsValid service.send_buffer
      → suc service.send_buffer.packet_count < service.send_buffer.max_packets
      → request_size strmap (joined (l ∷ ls)) ≤ service.send_buffer.packet_size
      → IsFlags service.tid_flags
      → service.next_tid / 16 ≤ i
      → i < 4095
      → get_or service.tid_flags i 0 ≢ 65535
      → Succeeds Requested (resolve_start strmap now stack null service (joined (l ∷ ls)))
  unfolding resolve_start is_recent
  resolve_start-Requested i labels short room alive v free fits f le small ne =
      Succeeds-if service.dead (λ dead. absurd (ground (arith, alive, dead)))
        λ _.
          Succeeds-if (ltb name_max (length (joined (l ∷ ls)))) (λ long. absurd (ground arith))
            λ _. send_request-Requested i labels room v free fits f le small ne

  -- Where the uninitialised entry points to a number, and that is late enough, the name is not asked
  -- for, whatever its own entry says.
  resolve_start-stored :
      (last : ℕ)
      → service.dead ≡ false
      → now < last + service.min_request_interval
      → resolve_start strmap now stack (stored last) service (joined (l ∷ ls))
        ≡ some (again, service, stored last)
  unfolding resolve_start is_recent
  resolve_start-stored last alive late = ground arith
