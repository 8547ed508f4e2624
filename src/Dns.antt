-- ===== src/Dns.antt =====
-- src/service/ss_dns.c: the DNS service. Its state is the map of entries, the transaction ids in
-- use, and the packets received and to be sent. The map, ss_strmap, is a parameter; a linked list of
-- records is a list; the time is an argument.
pub mod Tids
pub mod Names
pub mod Records
pub mod Entries
pub mod Start
pub mod Handlers
mod Tests
use simple_socks.Common.{ℕ, ◌+◌, ◌*◌, ◌/◌, ◌%◌, List, Option, Bool, ℤ}
use simple_socks.PacketBuffer.{PacketBuffer}

-- SS_TYPE_*, SS_CLASS_*
abbrev pub type_a : ℕ
type_a = 1

abbrev pub type_cname : ℕ
type_cname = 5

abbrev pub type_aaaa : ℕ
type_aaaa = 28

abbrev pub class_in : ℕ
class_in = 1

-- SS_DNML
abbrev pub name_max : ℕ
name_max = 254

-- ss_dns_header_t
pub record Header : Type 0 where
  pub tid : ℕ
  pub flags : ℕ
  pub nqueries : ℕ
  pub nanswers : ℕ
  pub nauthorities : ℕ
  pub nadditionals : ℕ

-- ss_dns_rr_meta_t
pub record Meta : Type 0 where
  pub type : ℕ
  pub class : ℕ
  pub ttl : ℤ
  pub rdlength : ℕ

-- ss_dns_rdata_t: which member of the union was written last.
pub data Rdata : Type 0 where
  blank : Rdata
  ipv4 : List ℕ → Rdata
  ipv6 : List ℕ → Rdata
  cname : List ℕ → Rdata

-- ss_dns_rr_t
pub record Rr : Type 0 where
  pub name : List ℕ
  pub meta : Meta
  pub rdata : Rdata

-- ss_dns_record_t, with its type field as `kind`
pub record Record : Type 0 where
  pub rdata : Rdata
  pub kind : ℕ
  pub expire : ℕ

-- ss_dns_entry_t
pub record Entry : Type 0 where
  pub last_request : ℕ
  pub list : List Record

-- ss_strmap_get and ss_strmap_put on a map from names to entries.
pub record StrMap : Type 1 where
  pub Map : Type 0
  pub get : Map → List ℕ → Option Entry
  pub put : Map → List ℕ → Entry → Map

-- ss_dns_service_wrapper_t
pub record Service (strmap : StrMap) : Type 0 where
  pub map : strmap.Map
  pub min_request_interval : ℕ
  pub tid_flags : List ℕ
  pub next_tid : ℕ
  pub dead : Bool
  pub recv_buffer : PacketBuffer
  pub send_buffer : PacketBuffer
