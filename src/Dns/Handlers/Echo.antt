-- ===== src/Dns/Handlers/Echo.antt =====
-- The packet of ss_dns_resolve_start_inner, where ss_dns_recv_handler receives it.
use simple_socks.Common.{
  ℕ, refl, ap, ◌+◌, ◌*◌, ◌/◌, ◌%◌, ◌^◌, ◌≤◌, ◌<◌, ◌≡◌, subst, ◌∙◌, true, some, List, [], ◌∷◌, ◌++◌,
  append_assoc, arith, take, drop, length, Succeeds,
}
use simple_socks.Common.IoError.{ok}
use simple_socks.PacketBuffer.Contents.{IsValid}
use simple_socks.Dns.{StrMap, Service}
use simple_socks.Dns.Records.{header_ntoh, read_query}
use simple_socks.Dns.Names.Bounds.{front_of}
use simple_socks.Dns.Names.Wire.{Labels, AreLabels, joined, wire, length-wire}
use simple_socks.Dns.Names.Skip.{read_query-wire}
use simple_socks.Dns.Names.Wire.Read.{read_part}
use simple_socks.PacketBuffer.{read_front}
use simple_socks.Dns.Handlers.Bare.{Released, finish-Released}
use simple_socks.Dns.Tids.Flags.{IsFlags, ids}
use simple_socks.Dns.Handlers.{
  header_query, question_tail, handle_packet, read_message, read_parts, read_question,
}
use simple_socks.Dns.Handlers.Question.{request, header-length}

-- What the header of a query is read as.
header_ntoh-header_query :
    (tid n : ℕ)
    → tid < 2 ^ 16
    → n < 2 ^ 16
    → header_ntoh (header_query tid n) ≡ record {
      tid = tid;
      flags = 256;
      nqueries = n;
      nanswers = 0;
      nauthorities = 0;
      nadditionals = 0;
    }
unfolding header_ntoh header_query
header_ntoh-header_query tid n small small' =
    let e : (tid / 256 % 256 % 256) * 256 + tid % 256 % 256 ≡ tid = omega arith in
    let e' : (n / 256 % 256 % 256) * 256 + n % 256 % 256 ≡ n = omega arith in rw (e, e')

module _ (strmap : StrMap) (service : Service strmap) (v : IsValid service.recv_buffer)
    (p : 0 < service.recv_buffer.packet_count) (f : IsFlags service.tid_flags) where
  echo-read :
      (now fuel : ℕ) (stack sent l : List ℕ) (ls : Labels) (tid : ℕ)
      → front_of service.recv_buffer ≡ request sent l ls tid
      → AreLabels (l ∷ ls)
      → length (joined (l ∷ ls)) ≤ 254
      → length (l ∷ ls) < fuel
      → tid < 2 ^ 16
      → (read_front true service.recv_buffer 0 12 ≡ some (true, header_query tid 1, 12))
        × (read_message strmap now fuel stack (header_ntoh (header_query tid 1)) service 12
            ≡ some (ok, length (joined (l ∷ ls)) + 18, service))
  unfolding read_message read_parts read_question question_tail
  echo-read now fuel stack sent l ls tid whole labels short enough small =
      let b = service.recv_buffer in
      let head = header_query tid 1 in
      let size = header-length tid 1 in
      let left = take (length (joined (l ∷ ls)) + 6) (drop (length (joined (l ∷ ls)) + 18) sent) in
      let parts : front_of b ≡ head ++ (wire (l ∷ ls) ++ (question_tail ++ left)) =
        whole
        ∙ append_assoc (head ++ wire (l ∷ ls)) question_tail left
        ∙ append_assoc head (wire (l ∷ ls)) (question_tail ++ left) in
      let header : read_front true b 0 12 ≡ some (true, head, 12) =
        subst (λ k. read_front true b 0 k ≡ some (true, head, 0 + k)) size
          (read_part b v p [] head (wire (l ∷ ls) ++ (question_tail ++ left)) parts) in
      let end : 12 + length (wire (l ∷ ls)) + 2 + 2 ≡ length (joined (l ∷ ls)) + 18 =
        omega (arith, length-wire l ls) in
      let query : read_query fuel b 12 ≡ some (ok, length (joined (l ∷ ls)) + 18) =
        subst (λ k. read_query fuel b k ≡ some (ok, k + length (wire (l ∷ ls)) + 2 + 2)) size
          (read_query-wire b v p fuel head l ls 0 28 0 1 left parts labels short enough)
        ∙ ap (λ k. some (ok, k)) end in
      (header, rw (header_ntoh-header_query tid 1 small (omega arith), query) refl)

  -- The request that ss_dns_resolve_start_inner builds for a name of labels, of at most 254 bytes,
  -- with an id below 65520, where it is received as it was sent: the four parts of the message are
  -- read without an error up to the end of the question, 18 bytes more than the name has, and
  -- ss_dns_recv_handler drops the packet, and the id is free, whether it was marked or not.
  pub handle_packet-request :
      (now fuel : ℕ) (stack sent l : List ℕ) (ls : Labels) (tid : ℕ)
      → front_of service.recv_buffer ≡ request sent l ls tid
      → AreLabels (l ∷ ls)
      → length (joined (l ∷ ls)) ≤ 254
      → length (l ∷ ls) < fuel
      → tid < ids
      → (read_message strmap now fuel stack (header_ntoh (header_query tid 1)) service 12
          ≡ some (ok, length (joined (l ∷ ls)) + 18, service))
        × Succeeds (Released strmap service v p f tid) (handle_packet strmap now fuel stack service)
  unfolding handle_packet
  handle_packet-request now fuel stack sent l ls tid whole labels short enough small =
      let (header, message) =
        echo-read now fuel stack sent l ls tid whole labels short enough (omega arith) in
      let parsed = header_ntoh-header_query tid 1 (omega arith) (omega arith) in
      (message, rw (header, message, parsed) (finish-Released strmap service v p f tid small))
