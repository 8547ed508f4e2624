-- ===== src/Dns/Entries/Cache.antt =====
-- What ss_dns_update keeps is what ss_dns_get finds, until it expires.
use simple_socks.Common.{
  ℕ, zero, suc, ◌+◌, ◌≤◌, ◌≡◌, refl, sym, ap, ◌∙◌, ◌≢◌, ◌⊎◌, inl, inr, Bool, true, false, not, ◌&&◌,
  Bool-cases, ltb→ge, ltb→lt, ne→==, pos, Option, some, some-injective, List, [], ◌∷◌, ◌++◌, ltb,
  if◌then◌else◌, get_elem?, arith, Succeeds,
}
use simple_socks.Socks5.{c_string}
use simple_socks.Dns.{
  StrMap, Service, Entry, Record, Rr, Rdata, blank, ipv4, ipv6, cname, type_cname,
}
use simple_socks.Dns.Entries.{
  expires_at, record_compare_rr, refresh, rotate, entry_of, update, resolve, get,
}

choose : {A : Type 0} → (b : Bool) (x y : A) → b ≡ true → (if b then x else y) ≡ x
choose b x y e = rw e refl

at_cons :
    (x : Record) (xs : List Record) (i : ℕ) (r : Record)
    → get_elem? (x ∷ xs) i ≡ some r
    → (x ≡ r) ⊎ ((k : ℕ) × (get_elem? xs k ≡ some r))
at_cons x xs zero r at = inl (some-injective _ _ at)
at_cons x xs (suc i) r at = inr (i, at)

choose_else : {A : Type 0} → (b : Bool) (x y : A) → b ≡ false → (if b then x else y) ≡ y
choose_else b x y e = rw e refl

-- A record of a list that has the type of `r`.
abbrev pub Typed : List Record → Record → Type 0
Typed rs r = (j : ℕ) × (r' : Record) × (get_elem? rs j ≡ some r') × (r.kind ≡ r'.kind)

module _ (now : ℕ) (rr : Rr) (lasts : now ≤ expires_at now rr.meta.ttl) where
  abbrev renewed : Record → Record
  renewed r = record r { expire = expires_at now rr.meta.ttl }

  -- No record that is kept has expired, and each is one of before with its type.
  refresh-kept :
      (b : Bool) (rs : List Record) (i : ℕ) (r : Record)
      → get_elem? (refresh now rr b rs).1 i ≡ some r
      → (now ≤ r.expire) × Typed rs r
  unfolding refresh
  refresh-kept b [] i r at = ground arith
  refresh-kept b (s ∷ rs) i r at =
      let same = b && record_compare_rr s rr in
      let rest = (refresh now rr (b && not same) rs).1 in
      let behind : (k : ℕ) → get_elem? rest k ≡ some r → (now ≤ r.expire) × Typed (s ∷ rs) r =
        λ k at'.
          let (fresh, (j, r', at'', kind)) = refresh-kept (b && not same) rs k r at' in
          (fresh, (suc j, r', at'', kind)) in
      elim (Bool-cases same) [
        | inl e ↦
            let at' : get_elem? (renewed s ∷ rest) i ≡ some r =
              ap (λ (q : Bool × List Record). get_elem? q.1 i) (sym (choose same _ _ e)) ∙ at in
            elim (at_cons (renewed s) rest i r at') [
              | inl this ↦
                  let expires = ap (λ (q : Record). q.expire) this in
                  (
                    omega (arith, expires, lasts),
                    (0, s, refl, ap (λ (q : Record). q.kind) (sym this)),
                  )
              | inr (k, at'') ↦ behind k at''
            ]
        | inr e ↦ elim (Bool-cases (ltb s.expire now)) [
          | inl e' ↦ behind i (
              ap (λ (q : Bool × List Record). get_elem? q.1 i)
                (sym (choose_else same _ _ e ∙ choose (ltb s.expire now) _ _ e'))
              ∙ at)
          | inr e' ↦
              let at' : get_elem? (s ∷ rest) i ≡ some r =
                ap (λ (q : Bool × List Record). get_elem? q.1 i)
                  (sym (choose_else same _ _ e ∙ choose_else (ltb s.expire now) _ _ e'))
                ∙ at in
              elim (at_cons s rest i r at') [
                | inl this ↦
                    let expires = ap (λ (q : Record). q.expire) this in
                    let fresh = ltb→ge s.expire now e' in
                    (
                      omega (arith, expires, fresh),
                      (0, s, refl, ap (λ (q : Record). q.kind) (sym this)),
                    )
                | inr (k, at'') ↦ behind k at''
              ]
        ]
      ]

  -- If one of the records was the same, one that is kept has its type and its new time.
  refresh-renewed :
      (rs : List Record)
      → (refresh now rr true rs).0 ≡ false
      → (i : ℕ) × (r : Record) × (get_elem? (refresh now rr true rs).1 i ≡ some r)
        × (r.expire ≡ expires_at now rr.meta.ttl)
  unfolding refresh
  refresh-renewed [] e = ground arith
  refresh-renewed (s ∷ rs) missing = elim (Bool-cases (record_compare_rr s rr)) [
    | inl e ↦ (0, renewed s, rw e refl, refl)
    | inr e ↦ elim (Bool-cases (ltb s.expire now)) [
      | inl e' ↦
          let (i, r, at, time) = refresh-renewed rs (rw (e, e') at missing) in
          (i, r, rw (e, e') at, time)
      | inr e' ↦
          let (i, r, at, time) = refresh-renewed rs (rw (e, e') at missing) in
          (suc i, r, rw (e, e') at, time)
    ]
  ]

  -- The records of a name after ss_dns_update.
  abbrev updated : List Record → List Record
  updated rs =
      let (missing, kept) = refresh now rr true rs in
      let fresh : Record = record {
        rdata = rr.rdata;
        kind = rr.meta.type;
        expire = expires_at now rr.meta.ttl;
      } in
      if missing then fresh ∷ kept else kept

  updated-kept :
      (rs : List Record) (i : ℕ) (r : Record)
      → get_elem? (updated rs) i ≡ some r
      → (now ≤ r.expire) × (Typed rs r ⊎ (r.kind ≡ rr.meta.type))
  updated-kept rs i r at =
      let (missing, kept) = refresh now rr true rs in
      let behind : (k : ℕ)
          → get_elem? kept k ≡ some r
          → (now ≤ r.expire) × (Typed rs r ⊎ (r.kind ≡ rr.meta.type)) =
        λ k at'. let (fresh, typed) = refresh-kept true rs k r at' in (fresh, inl typed) in
      elim (Bool-cases missing) [
        | inl e ↦
            elim (at_cons _ kept i r
              (ap (λ l. get_elem? l i) (sym (choose missing _ kept e)) ∙ at)) [
                | inl this ↦
                    let expires = ap (λ (q : Record). q.expire) this in
                    (omega (arith, expires, lasts), inr (ap (λ (q : Record). q.kind) (sym this)))
                | inr (k, at') ↦ behind k at'
              ]
        | inr e ↦ behind i (ap (λ l. get_elem? l i) (sym (choose_else missing _ kept e)) ∙ at)
      ]

  updated-renewed :
      (rs : List Record)
      → (i : ℕ) × (r : Record) × (get_elem? (updated rs) i ≡ some r)
        × (r.expire ≡ expires_at now rr.meta.ttl)
  updated-renewed rs =
      let (missing, kept) = refresh now rr true rs in
      elim (Bool-cases missing) [
        | inl e ↦ (0, _, ap (λ l. get_elem? l 0) (choose missing _ kept e), refl)
        | inr e ↦
            let (i, r, at, time) = refresh-renewed rs e in
            (i, r, ap (λ l. get_elem? l i) (choose_else missing _ kept e) ∙ at, time)
      ]

-- The rotation finds a record that has not expired, if there is one.
rotate-finds :
    (now : ℕ) (rs : List Record) (i : ℕ) (r : Record)
    → get_elem? rs i ≡ some r
    → now ≤ r.expire
    → (found : Record) × (rest : List Record) × (j : ℕ) × (rotate now rs ≡ (some found, rest))
      × (get_elem? rs j ≡ some found)
      × (now ≤ found.expire)
unfolding rotate
rotate-finds now [] i r at fresh = ground arith
rotate-finds now (s ∷ rs) i r at fresh = elim (Bool-cases (ltb s.expire now)) [
  | inr e ↦ (s, rs ++ (s ∷ []), 0, rw e refl, refl, ltb→ge s.expire now e)
  | inl e ↦ elim (at_cons s rs i r at) [
    | inl this ↦
        let expires = ap (λ (q : Record). q.expire) this in
        let gone = ltb→lt s.expire now e in absurd (omega (arith, expires, gone, fresh))
    | inr (k, at') ↦
        let (found, rest, j, runs, at'', fresh') = rotate-finds now rs k r at' fresh in
        (found, rest, suc j, rw e runs, at'', fresh')
  ]
]

module _ (strmap : StrMap) where
  -- ss_strmap_get finds what ss_strmap_put put under the name.
  abbrev pub GetPut : Type 0
  GetPut = (m : strmap.Map) (dn : List ℕ) (e : Entry) → strmap.get (strmap.put m dn e) dn ≡ some e

  resolve_by :
      (go : Service strmap → List ℕ → Option (Option Rdata × Service strmap))
      (service : Service strmap) (r : Record) (d : Rdata)
      → r.rdata ≡ d
      → r.kind ≢ type_cname
      → resolve strmap go service (some r) ≡ some (some d, service)
  unfolding resolve
  resolve_by go service r blank e ne = rw e (ap (λ q. some (some q, service)) e)
  resolve_by go service r (ipv4 a) e ne = rw e (ap (λ q. some (some q, service)) e)
  resolve_by go service r (ipv6 a) e ne = rw e (ap (λ q. some (some q, service)) e)
  resolve_by go service r (cname a) e ne =
      rw (e, ne→== r.kind type_cname ne) (ap (λ q. some (some q, service)) e)

  get_stored :
      (fuel t : ℕ) (service : Service strmap) (dn : List ℕ) (entry : Entry)
      → strmap.get service.map dn ≡ some entry
      → get strmap (suc fuel) t service dn
        ≡ resolve strmap
            (get strmap fuel t)
            (record service {
              map = strmap.put service.map dn (record entry { list = (rotate t entry.list).1 });
            })
            (rotate t entry.list).0
  unfolding get
  get_stored fuel t service dn entry stored = rw (get, stored) refl

  entry_stored :
      (service : Service strmap) (dn : List ℕ) (entry : Entry)
      → strmap.get service.map dn ≡ some entry
      → entry_of strmap service dn ≡ entry
  unfolding entry_of
  entry_stored service dn entry stored = rw (entry_of, stored) refl

  -- For a name that has no aliases, ss_dns_get_inner after ss_dns_update of an address finds one of
  -- the name's records as long as the update's time to live, not negative, has not passed; the record has not
  -- expired.
  pub get-update :
      (fuel now t : ℕ) (service : Service strmap) (rr : Rr)
      → GetPut
      → ((i : ℕ) (r : Record)
          → get_elem? (entry_of strmap service (c_string rr.name)).list i ≡ some r
          → r.kind ≢ type_cname)
      → rr.meta.type ≢ type_cname
      → (k : ℕ) → rr.meta.ttl ≡ pos k
      → t ≤ now + k
      → Succeeds
          (λ (found, service').
            (r : Record) × (i : ℕ) × (found ≡ some r.rdata)
            × (get_elem? (entry_of strmap (update strmap now service rr) (c_string rr.name)).list i
                ≡ some r)
            × (t ≤ r.expire)
            × (now ≤ r.expire))
          (get strmap (suc fuel) t (update strmap now service rr) (c_string rr.name))
  unfolding update
  get-update fuel now t service rr law addresses address k ttl time =
      let ends : expires_at now rr.meta.ttl ≡ now + k = ap (expires_at now) ttl in
      let lasts : now ≤ expires_at now rr.meta.ttl = omega (arith, ends) in
      let dn = c_string rr.name in
      let rs = (entry_of strmap service dn).list in
      let entry : Entry = record (entry_of strmap service dn) { list = updated now rr lasts rs } in
      let stored = law service.map dn entry in
      let (i, r, at, expires) = updated-renewed now rr lasts rs in
      let (found, rest, j, runs, at', fresh) =
        rotate-finds t (updated now rr lasts rs) i r at (omega (arith, expires, ends, time)) in
      let (kept, typed) = updated-kept now rr lasts rs j found at' in
      let no_cname : found.kind ≢ type_cname = λ e. elim typed [
        | inl (k, r', before, kind) ↦ addresses k r' before (sym kind ∙ e)
        | inr kind ↦ address (sym kind ∙ e)
      ] in
      let service' = update strmap now service rr in
      let listed : (entry_of strmap service' dn).list ≡ updated now rr lasts rs =
        ap (λ (q : Entry). q.list) (entry_stored service' dn entry stored) in
      let left : Service strmap = record service' {
        map = strmap.put service'.map dn (record entry { list = rest });
      } in
      let gets : get strmap (suc fuel) t service' dn ≡ some (some found.rdata, left) =
        get_stored fuel t service' dn entry stored
        ∙ ap
            (λ (q : Option Record × List Record).
              resolve strmap (get strmap fuel t)
                (record service' { map = strmap.put service'.map dn (record entry { list = q.1 }) })
                q.0)
            runs
        ∙ resolve_by _ left found found.rdata refl no_cname in
      (
        (some found.rdata, left),
        gets,
        (found, j, refl, ap (λ l. get_elem? l j) listed ∙ at', fresh, kept),
      )
