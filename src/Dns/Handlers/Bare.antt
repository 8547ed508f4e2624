-- ===== src/Dns/Handlers/Bare.antt =====
-- What ss_dns_recv_handler does with a packet that is a header with no parts behind it.
use simple_socks.Common.{
  ℕ, ◌%◌, ◌≤◌, ◌<◌, ◌≡◌, sym, ap, subst, ◌∙◌, true, List, ◌==◌, if◌then◌else◌, slice, length,
  Succeeds,
}
use simple_socks.Common.IoError.{ok}
use simple_socks.PacketBuffer.Contents.{IsValid, packets, payload, block_at, later}
use simple_socks.PacketBuffer.Send.{pop_front-first}
use simple_socks.Dns.{StrMap, Service, Header}
use simple_socks.Dns.Records.{header_ntoh}
use simple_socks.Dns.Tids.Flags.{IsFlags, ids, marked, release_tid-Marks}
use simple_socks.Dns.Handlers.{finish}

abbrev pub header_of : List ℕ → Header
header_of packet = header_ntoh (slice 0 12 packet)

-- A packet with a header that counts no parts, and whose lowest flag is clear.
pub record IsBare (packet : List ℕ) : Type 0 where
  pub whole : 12 ≤ length packet
  pub accepted : (header_of packet).flags % 2 ≡ 0
  pub no_queries : (header_of packet).nqueries ≡ 0
  pub no_answers : (header_of packet).nanswers ≡ 0
  pub no_authorities : (header_of packet).nauthorities ≡ 0
  pub no_additionals : (header_of packet).nadditionals ≡ 0

module _ (strmap : StrMap) (service : Service strmap) (v : IsValid service.recv_buffer)
    (p : 0 < service.recv_buffer.packet_count) (f : IsFlags service.tid_flags) where
  -- The first packet is dropped, and an id is free; the other ids are as they were.
  pub record Released (tid : ℕ) (service' : Service strmap) : Type 0 where
    pub valid : IsValid service'.recv_buffer
    pub queue : packets service'.recv_buffer ≡ later service.recv_buffer v
    pub flags : IsFlags service'.tid_flags
    pub marks :
        (t : ℕ) → marked service'.tid_flags t ≡ (if t == tid then 0 else marked service.tid_flags t)

  -- _l_success
  pub finish-Released :
      (tid : ℕ) → tid < ids → Succeeds (Released tid) (finish strmap true ok tid service)
  unfolding finish
  finish-Released tid small =
      let ((_, _, b'), pops, (_, _, dropped)) = pop_front-first service.recv_buffer v p in
      let (last, releases, (f', marks, others)) =
        release_tid-Marks strmap (record service { recv_buffer = b' }) tid f small in
      let same = ap (λ (x : Service strmap). x.recv_buffer) others in
      rw pops (
        last,
        releases,
        record {
          valid = subst IsValid (sym same) dropped.valid;
          queue = ap packets same ∙ dropped.rest;
          flags = f';
          marks = marks;
        },
      )

  module _ (bare : IsBare (payload (block_at service.recv_buffer 0))) where
    abbrev tid : ℕ
    tid = (header_of (payload (block_at service.recv_buffer 0))).tid
