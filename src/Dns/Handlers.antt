-- ===== src/Dns/Handlers.antt =====
-- The handlers of the service's connection, and ss_dns_resolve_start.
pub mod Sending
pub mod Bare
pub mod Question
pub mod Request
pub mod First
pub mod Echo
mod Tests
use simple_socks.Common.{
  ℕ, zero, suc, ◌+◌, ◌-◌, ◌*◌, ◌%◌, ◌/◌, ◌^◌, Bool, true, false, not, ◌||◌, Option, none, some,
  List, [], ◌∷◌, ◌++◌, ltb, ◌==◌, if◌then◌else◌, ◌>>=◌, length, replicate, copy_to, ℤ, pos, negsuc,
}
use simple_socks.Common.IoError.{IoError, ok, again, error, is_ok, is_failure}
use simple_socks.Common.Socket.{Socket}
use simple_socks.PacketBuffer.{
  PacketBuffer, recv_back, read_front, pop_front, send_front, write_back, push_back,
}
use simple_socks.PacketBuffer
use simple_socks.Dns.{
  StrMap, Service, Header, Meta, Rr, blank, Rdata, Entry, name_max, type_a, type_aaaa, type_cname,
  class_in,
}
use simple_socks.Dns.Tids.{next_tid, occupy_tid, release_tid}
use simple_socks.Dns.Names.{encode_domain_name}
use simple_socks.Dns.Records.{header_ntoh, read_query, read_rr}
use simple_socks.Dns.Entries.{update, get, entry_of}

abbrev pub packet_size : ℕ
packet_size = 2048

-- A uint16 in network order.
abbrev pub u16_bytes : ℕ → List ℕ
u16_bytes n = (n / 256 % 256) ∷ (n % 256) ∷ []

-- ss_dns_header_query and ss_dns_header_hton, with SS_DNS_FLAG_RD
unfoldable pub header_query : ℕ → ℕ → List ℕ
header_query tid nqueries =
    u16_bytes tid
    ++ (u16_bytes 256 ++ (u16_bytes nqueries ++ (u16_bytes 0 ++ (u16_bytes 0 ++ u16_bytes 0))))

-- ss_dns_question_tail_hton of the tail of the question
unfoldable pub question_tail : List ℕ
question_tail = u16_bytes type_aaaa ++ u16_bytes class_in

-- A ss_dns_rr_t on the stack: its name has SS_DNML + 2 bytes.
unfoldable pub rr_undefined : List ℕ → Rr
rr_undefined bytes = record {
  name = bytes;
  meta = record { type = 0; class = 0; ttl = pos 0; rdlength = 0 };
  rdata = blank;
}

-- What the uninitialised variable `entry` of ss_dns_resolve_start_inner holds: a null pointer, an
-- address that faults, or one of memory outside of the service, with a number where last_request is.
pub data Leftover : Type 0 where
  null unmapped : Leftover
  stored : ℕ → Leftover

module _ (strmap : StrMap) where
  -- ttl > 0
  abbrev pub is_lasting : ℤ → Bool
  is_lasting (pos n) = ltb 0 n
  is_lasting (negsuc n) = false

  -- read_answer
  unfoldable pub read_answer :
      ℕ → ℕ → List ℕ → Service strmap → ℕ → Option (IoError × ℕ × Service strmap)
  read_answer now fuel stack service offset = do
    (rc, offset', rr) ← read_rr fuel service.recv_buffer offset (rr_undefined stack)
    let known =
        (rr.meta.type == type_a) || ((rr.meta.type == type_aaaa) || (rr.meta.type == type_cname))
    if not (is_ok rc)
        then some (rc, offset', service)
        else if not known
        then some (rc, offset', service)
        else if is_lasting rr.meta.ttl
        then some (rc, offset', update strmap now service rr)
        else some (rc, offset', service)

  -- read_authority and read_additional
  unfoldable pub read_other :
      ℕ → List ℕ → Service strmap → ℕ → Option (IoError × ℕ × Service strmap)
  read_other fuel stack service offset = do
    (rc, offset', _) ← read_rr fuel service.recv_buffer offset (rr_undefined stack)
    some (rc, offset', service)

  -- One of the four loops of ss_dns_recv_handler: `count` parts are read, until one fails.
  unfoldable pub read_parts :
      (Service strmap → ℕ → Option (IoError × ℕ × Service strmap))
      → ℕ
      → Service strmap
      → ℕ
      → Option (IoError × ℕ × Service strmap)
  read_parts part zero service offset = some (ok, offset, service)
  read_parts part (suc count) service offset = do
    (rc, offset', service') ← part service offset
    let rest = read_parts part count service' offset'
    if is_ok rc then rest else some (rc, offset', service')

  -- The question part.
  unfoldable pub read_question : ℕ → Service strmap → ℕ → Option (IoError × ℕ × Service strmap)
  read_question fuel service offset = do
    (rc, offset') ← read_query fuel service.recv_buffer offset
    some (rc, offset', service)

  -- The four loops, each if those before went well.
  unfoldable pub read_message :
      ℕ → ℕ → List ℕ → Header → Service strmap → ℕ → Option (IoError × ℕ × Service strmap)
  read_message now fuel stack h service offset = do
    (rc1, o1, s1) ← read_parts (read_question fuel) h.nqueries service offset
    if not (is_ok rc1) then some (rc1, o1, s1) else do
      (rc2, o2, s2) ← read_parts (read_answer now fuel stack) h.nanswers s1 o1
      if not (is_ok rc2) then some (rc2, o2, s2) else do
        (rc3, o3, s3) ← read_parts (read_other fuel stack) h.nauthorities s2 o2
        if not (is_ok rc3)
            then some (rc3, o3, s3)
            else read_parts (read_other fuel stack) h.nadditionals s3 o3

  -- _l_success and _l_error: the packet is dropped; after an error `dead` is set to false.
  unfoldable pub finish : Bool → IoError → ℕ → Service strmap → Option (Service strmap)
  finish good rc tid service = do
    (_, _, b) ← pop_front service.recv_buffer
    let service' = record service { recv_buffer = b }
    if good
        then release_tid strmap service' tid
        else some (record service' { dead = (if is_failure rc then false else service.dead) })

  -- The test of the flags, header.flags & SS_DNS_FLAG_RCODE != SS_DNS_FLAG_RC_OK: `!=` binds first.
  abbrev pub is_refused : Header → Bool
  is_refused h = h.flags % 2 == 1

  -- ss_dns_recv_handler once a packet is there
  unfoldable pub handle_packet : ℕ → ℕ → List ℕ → Service strmap → Option (Service strmap)
  handle_packet now fuel stack service = do
    (found, bs, offset) ← read_front true service.recv_buffer 0 12
    let h = header_ntoh bs
    if not found
        then finish false error 0 service
        else if is_refused h
        then finish false ok 0 service
        else do
          (rc, _, service') ← read_message now fuel stack h service offset
          finish (is_ok rc) rc h.tid service'

  -- ss_dns_recv_handler
  unfoldable pub recv_handler :
      (s : Socket) → ℕ → ℕ → List ℕ → s.State → Service strmap → Option (Service strmap × s.State)
  recv_handler s now fuel stack w service = if service.dead then some (service, w) else do
    (rc, b, w') ← recv_back s w service.recv_buffer packet_size
    let service' = record service { recv_buffer = b }
    if not (is_ok rc)
        then some (record service' { dead = (if is_failure rc then false else service.dead) }, w')
        else do service'' ← handle_packet now fuel stack service'; some (service'', w')

  -- ss_dns_check_status
  unfoldable pub check_status : Service strmap → Bool
  check_status service = not service.dead

  -- The packet of ss_dns_resolve_start_inner: `stack` is what its array holds before.
  unfoldable pub request_bytes : List ℕ → ℕ → List ℕ → Option (List ℕ)
  request_bytes stack tid dn = do
    headed ← copy_to stack 0 (header_query tid 1)
    name ← encode_domain_name (replicate (length dn + 2) 0) dn
    named ← copy_to headed 12 name
    copy_to named (12 + (length dn + 2)) question_tail

  -- Both questions are counted, though the second is not written.
  abbrev pub request_size : List ℕ → ℕ
  request_size dn = 12 + (length dn + 2 + 4) + (length dn + 2 + 4)

  -- entry && entry->last_request + min_request_interval > now
  unfoldable pub is_recent : ℕ → Service strmap → Leftover → Option Bool
  is_recent now service null = some false
  is_recent now service unmapped = none
  is_recent now service (stored last) = some (ltb now (last + service.min_request_interval))

  -- The end of ss_dns_resolve_start_inner: the time is noted where `entry` points, or, if it is null,
  -- in the entry of the name.
  unfoldable pub note_request :
      ℕ → Service strmap → List ℕ → Leftover → Option (Service strmap × Leftover)
  note_request now service dn null =
      let entry = record (entry_of strmap service dn) { last_request = now } in
      some (record service { map = strmap.put service.map dn entry }, null)
  note_request now service dn unmapped = none
  note_request now service dn (stored last) = some (service, stored now)

  -- ss_dns_resolve_start_inner from next_tid on.
  unfoldable pub send_request :
      ℕ → List ℕ → Leftover → Service strmap → List ℕ → Option (IoError × Service strmap × Leftover)
  send_request now stack entry service dn = do
    tid ← next_tid strmap service
    elim tid [
      | none ↦ some (again, service, entry)
      | some t ↦ do
        bytes ← request_bytes stack t dn
        (written, b, _) ← write_back service.send_buffer bytes 0 (request_size dn)
        if not written then some (again, service, entry) else do
          (_, b') ← push_back b (request_size dn)
          service' ← occupy_tid strmap (record service { send_buffer = b' }) t
          (service'', entry') ← note_request now service' dn entry
          some (ok, service'', entry')
    ]

  -- ss_dns_resolve_start_inner, with what its uninitialised `entry` holds: the result of
  -- ss_dns_get_entry is compared with it, and not kept.
  unfoldable pub resolve_start :
      ℕ → List ℕ → Leftover → Service strmap → List ℕ → Option (IoError × Service strmap × Leftover)
  resolve_start now stack entry service dn =
      let begun : Option (IoError × Service strmap × Leftover) = do
        recent ← is_recent now service entry
        if recent
            then some (again, service, entry)
            else if ltb name_max (length dn)
            then some (error, service, entry)
            else send_request now stack entry service dn
      in if service.dead then some (error, service, entry) else begun

  -- ss_dns_fetch_inner
  unfoldable pub fetch :
      ℕ
      → ℕ
      → List ℕ
      → Leftover
      → Service strmap
      → List ℕ
      → Option (IoError × Service strmap × Leftover)
  fetch fuel now stack entry service dn = do
    (found, service') ← get strmap fuel now service dn
    elim found [
      | some address ↦ some (ok, service', entry)
      | none ↦ do
        (rc, service'', entry') ← resolve_start now stack entry service' dn
        some ((if is_ok rc then again else rc), service'', entry')
    ]

-- ss_dns_send_handler: its loop, with fuel. The result of ss_packet_buffer_send_front is not looked at.
unfoldable pub send_handler :
    (s : Socket) → ℕ → s.State → PacketBuffer → Option (PacketBuffer × s.State)
send_handler s zero w b = none
send_handler s (suc fuel) w b =
    let round : Option (PacketBuffer × s.State) = do
      (_, b', w') ← send_front s w b
      send_handler s fuel w' b'
    in if b.packet_count == 0 then some (b, w) else round
