-- ===== src/Dns/Entries.antt =====
-- The records that the service keeps for each name: ss_dns_entry, ss_dns_update, ss_dns_get.
pub mod Cache
use simple_socks.Common.{
  ℕ, zero, suc, ◌+◌, Bool, true, false, not, ◌&&◌, ◌||◌, Option, none, some, List, [], ◌∷◌, ◌++◌,
  ltb, ◌==◌, if◌then◌else◌, ℤ, pos, negsuc, ◌-◌,
}
use simple_socks.Socks5.{c_string, str_eq}
use simple_socks.Dns.{
  StrMap, Service, Entry, Record, Rr, Rdata, ipv4, ipv6, cname, type_a, type_aaaa, type_cname,
}

-- ss_dns_record_compare_rr on the data. Two addresses of one kind have the same bytes; the ports
-- are 0.
unfoldable pub same_rdata : Rdata → Rdata → Bool
same_rdata (ipv4 a) (ipv4 b) = str_eq a b
same_rdata (ipv6 a) (ipv6 b) = str_eq a b
same_rdata (cname a) (cname b) = str_eq (c_string a) (c_string b)
same_rdata _ _ = false

-- ss_dns_record_compare_rr
unfoldable pub record_compare_rr : Record → Rr → Bool
record_compare_rr r rr =
    if not (r.kind == rr.meta.type)
    then false
    else if (r.kind == type_a) || ((r.kind == type_aaaa) || (r.kind == type_cname))
    then same_rdata r.rdata rr.rdata
    else true

-- now + ttl, of a time_t that is later than 2^31
abbrev pub expires_at : ℕ → ℤ → ℕ
expires_at now (pos n) = now + n
expires_at now (negsuc n) = now - suc n

-- The loop of ss_dns_update: the first record that is the same lives on, and expired ones are
-- removed. It tells whether none was the same.
unfoldable pub refresh : ℕ → Rr → Bool → List Record → Bool × List Record
refresh now rr not_found [] = (not_found, [])
refresh now rr not_found (r ∷ rs) =
    let same = not_found && record_compare_rr r rr in
    let (missing, rest) = refresh now rr (not_found && not same) rs in
    if same
    then (missing, record r { expire = expires_at now rr.meta.ttl } ∷ rest)
    else if ltb r.expire now
    then (missing, rest)
    else (missing, r ∷ rest)

-- ss_dns_entry_create
unfoldable pub entry_create : Entry
entry_create = record { last_request = 0; list = [] }

-- What the loop of ss_dns_get_inner does with the list: expired records are dropped from its front,
-- and the first that is not goes to its end.
unfoldable pub rotate : ℕ → List Record → Option Record × List Record
rotate now [] = (none, [])
rotate now (r ∷ rs) =
    let rest = rotate now rs in if ltb r.expire now then rest else (some r, rs ++ r ∷ [])

module _ (strmap : StrMap) where
  -- ss_dns_entry
  unfoldable pub entry_of : Service strmap → List ℕ → Entry
  entry_of service dn = elim (strmap.get service.map dn) [ none ↦ entry_create | some e ↦ e ]

  -- ss_dns_update. The name is a C string.
  unfoldable pub update : ℕ → Service strmap → Rr → Service strmap
  update now service rr =
      let dn = c_string rr.name in
      let entry = entry_of service dn in
      let (missing, kept) = refresh now rr true entry.list in
      let fresh : Record = record {
        rdata = rr.rdata;
        kind = rr.meta.type;
        expire = expires_at now rr.meta.ttl;
      } in
      let records = if missing then fresh ∷ kept else kept in
      record service { map = strmap.put service.map dn (record entry { list = records }) }

  -- ss_dns_get_inner after a record was found: an address, or the name to go on with.
  unfoldable pub resolve :
      (Service strmap → List ℕ → Option (Option Rdata × Service strmap))
      → Service strmap
      → Option Record
      → Option (Option Rdata × Service strmap)
  resolve get service none = some (none, service)
  resolve get service (some r) = elim r.rdata [
    | cname name ↦
        if r.kind == type_cname then get service (c_string name) else some (some r.rdata, service)
    | _ ↦ some (some r.rdata, service)
  ]

  -- ss_dns_get_inner, with fuel for its calls of itself
  unfoldable pub get : ℕ → ℕ → Service strmap → List ℕ → Option (Option Rdata × Service strmap)
  get zero now service dn = none
  get (suc fuel) now service dn = elim (strmap.get service.map dn) [
    | none ↦ some (none, service)
    | some entry ↦
        let (found, records) = rotate now entry.list in
        resolve (get fuel now)
          (record service { map = strmap.put service.map dn (record entry { list = records }) })
          found
  ]
