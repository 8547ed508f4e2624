-- ===== src/Dns/Records.antt =====
-- The parts of a DNS message: read_query, read_rr and the functions that read one kind of RDATA.
use simple_socks.Common.{
  ℕ, ◌+◌, ◌*◌, ◌%◌, ◌^◌, true, false, not, Option, none, some, List, [], ◌==◌, if◌then◌else◌, ◌>>=◌,
  get_or, replicate, ℤ, pos, negsuc, ltb, ◌-◌,
}
use simple_socks.Common.IoError.{IoError, ok, error, is_ok}
use simple_socks.PacketBuffer.{PacketBuffer, read_front}
use simple_socks.Dns.{
  Header, Meta, Rdata, blank, ipv4, ipv6, cname, Rr, name_max, type_a, type_aaaa, type_cname,
}
use simple_socks.Dns.Names.{read_domain_name}

-- ntohs of the two bytes at `i`, and ntohl of four
abbrev pub u16_at : List ℕ → ℕ → ℕ
u16_at bs i = (get_or bs i 0 % 256) * 256 + get_or bs (i + 1) 0 % 256

abbrev pub u32_at : List ℕ → ℕ → ℕ
u32_at bs i = u16_at bs i * 2 ^ 16 + u16_at bs (i + 2)

-- ss_dns_header_ntoh of the bytes read
unfoldable pub header_ntoh : List ℕ → Header
header_ntoh bs = record {
  tid = u16_at bs 0;
  flags = u16_at bs 2;
  nqueries = u16_at bs 4;
  nanswers = u16_at bs 6;
  nauthorities = u16_at bs 8;
  nadditionals = u16_at bs 10;
}

-- (ss_int32_t)n
abbrev pub to_int32 : ℕ → ℤ
to_int32 n = if ltb n (2 ^ 31) then pos n else negsuc (2 ^ 32 - n - 1)

-- ss_dns_rr_meta_ntoh of the bytes read
unfoldable pub rr_meta_ntoh : List ℕ → Meta
rr_meta_ntoh bs = record {
  type = u16_at bs 0;
  class = u16_at bs 2;
  ttl = to_int32 (u32_at bs 4);
  rdlength = u16_at bs 8;
}

-- Two uint16 that are skipped. The code stays OK also where they are not there.
unfoldable pub skip_question_tail : PacketBuffer → ℕ → Option (IoError × ℕ)
skip_question_tail b offset = do
  (found, _, offset1) ← read_front false b offset 2
  let class_part : Option (IoError × ℕ) = do
    (_, _, offset2) ← read_front false b offset1 2
    some (ok, offset2)
  if not found then some (ok, offset1) else class_part

-- read_query
unfoldable pub read_query : ℕ → PacketBuffer → ℕ → Option (IoError × ℕ)
read_query fuel b offset = do
  (rc, offset1, _, _) ← read_domain_name fuel b offset none
  if not (is_ok rc) then some (rc, offset1) else skip_question_tail b offset1

-- The result of reading the RDATA: the code, the offset, the data.
abbrev pub RdataRead : Type 0
RdataRead = IoError × ℕ × Rdata

-- read_rdata_a and read_rdata_aaaa, for addresses of `size` bytes
unfoldable pub read_rdata_addr : (List ℕ → Rdata) → ℕ → PacketBuffer → ℕ → ℕ → Option RdataRead
read_rdata_addr build size b offset rdlength =
    if not (rdlength == size) then some (error, offset, blank) else do
      (found, bs, offset1) ← read_front true b offset size
      if not found then some (error, offset1, blank) else some (ok, offset1, build bs)

-- read_rdata_cname
unfoldable pub read_rdata_cname : ℕ → PacketBuffer → ℕ → ℕ → Option RdataRead
read_rdata_cname fuel b offset rdlength = do
  (rc, offset1, name, _) ← read_domain_name fuel b offset (some (replicate (name_max + 2) 0))
  let text : List ℕ = elim name [ none ↦ [] | some bytes ↦ bytes ]
  if not (is_ok rc)
      then some (rc, offset1, cname text)
      else some ((if offset1 == offset + rdlength then ok else error), offset1, cname text)

-- read_rdata_any
unfoldable pub read_rdata_any : PacketBuffer → ℕ → ℕ → Option RdataRead
read_rdata_any b offset rdlength = do
  (found, _, offset1) ← read_front false b offset rdlength
  some ((if found then ok else error), offset1, blank)

-- The switch of read_rr. A class that is not IN does not keep the code from being set again.
unfoldable pub read_rdata : ℕ → PacketBuffer → ℕ → Meta → Option RdataRead
read_rdata fuel b offset m =
    if m.type == type_a
    then read_rdata_addr ipv4 4 b offset m.rdlength
    else if m.type == type_aaaa
    then read_rdata_addr ipv6 16 b offset m.rdlength
    else if m.type == type_cname
    then read_rdata_cname fuel b offset m.rdlength
    else read_rdata_any b offset m.rdlength

-- read_rr: the record, as far as it was read. `rr` is what the caller's holds before.
unfoldable pub read_rr : ℕ → PacketBuffer → ℕ → Rr → Option (IoError × ℕ × Rr)
read_rr fuel b offset rr = do
  (rc, offset1, name, _) ← read_domain_name fuel b offset (some rr.name)
  let text : List ℕ = elim name [ none ↦ [] | some bytes ↦ bytes ]
  let named = record rr { name = text }
  let rest : Option (IoError × ℕ × Rr) = do
    (found, bs, offset2) ← read_front true b offset1 10
    let m = rr_meta_ntoh bs
    let tail : Option (IoError × ℕ × Rr) = do
      (rc', offset3, rdata) ← read_rdata fuel b offset2 m
      some (rc', offset3, record named { meta = m; rdata = rdata })
    if not found then some (error, offset2, named) else tail
  if not (is_ok rc) then some (rc, offset1, named) else rest
