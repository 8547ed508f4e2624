-- ===== src/Dns/Names/Bounds.antt =====
-- read_domain_name_with_total_length stays within the array it is given, and ends.
use simple_socks.Common.{
  ℕ, zero, suc, ◌+◌, ◌-◌, ◌*◌, ◌%◌, ◌^◌, ◌≤◌, ◌<◌, ◌≡◌, refl, sym, subst, ◌∙◌, ◌≢◌, true, false,
  not, Option, some, List, [], ◌∷◌, ltb, leb, ◌==◌, if◌then◌else◌, ◌>>=◌, length, get_or, set,
  slice, blit, arith, Succeeds, Succeeds-if, length-set, length-slice, length-blit, get_or-set,
  slice-next, Bool-cases, inl, inr, ltb→lt, ltb→ge, leb→le, leb→gt, le→leb, gt→leb, store-some,
  copy_to-some,
}
use simple_socks.Common.IoError.{IoError, ok, error}
use simple_socks.PacketBuffer.{PacketBuffer, read_front}
use simple_socks.PacketBuffer.Contents.{IsValid, payload, block_at}
use simple_socks.PacketBuffer.Send.{read_front-slice, length-front}
use simple_socks.Dns.{name_max}
use simple_socks.Dns.Names.{NameRead, name_end, add_label, octet, read_name, read_domain_name}

-- The packet that is read.
abbrev pub front_of : PacketBuffer → List ℕ
front_of b = payload (block_at b 0)

-- The byte at an offset, and the offset that a pointer there leads to.
abbrev pub byte_at : List ℕ → ℕ → ℕ
byte_at p i = get_or p i 0 % 256

abbrev pub target : List ℕ → ℕ → ℕ
target p i = (byte_at p i % 64) * 256 + byte_at p (i + 1)

-- No compression pointer leads to another one.
abbrev pub NoChain : List ℕ → Type 0
NoChain p = (i : ℕ) → 64 ≤ byte_at p i → byte_at p (target p i) < 64

-- The read is over: the name is a string within its array.
pub record Named (room : ℕ) (read : NameRead) : Type 0 where
  pub array : List ℕ
  pub given : read.2 ≡ some array
  pub same_room : length array ≡ room
  pub total_in : read.3 ≤ 255
  pub ended : get_or array (read.3 - 1) 1 ≡ 0

name_end-Named :
    (rc : IoError) (offset : ℕ) (name : List ℕ) (total : ℕ)
    → 256 ≤ length name
    → total ≤ 255
    → Succeeds (Named (length name)) (name_end rc offset (some name) total)
unfolding name_end
name_end-Named rc offset name total room small = (
  (rc, offset, some (set name (total - 1) 0), total),
  rw (store-some name (total - 1) 0 (omega arith)),
  record {
    array = set name (total - 1) 0;
    given = refl;
    same_room = length-set name (total - 1) 0;
    total_in = small;
    ended = ground (arith, get_or-set name (total - 1) (total - 1) 0 1 (omega arith));
  },
)

nonzero : (n : ℕ) → (n == 0) ≡ false → n ≢ 0
nonzero n e = ground arith

-- The array with a label and its dot in it.
abbrev pub labelled : List ℕ → ℕ → List ℕ → List ℕ
labelled name total label = set (blit name total label) (total + length label) b'.'

pub add_label-some :
    (name : List ℕ) (total : ℕ) (label : List ℕ) (size : ℕ)
    → length label ≡ size
    → total + size < length name
    → add_label (some name) total label size
      ≡ some (some (labelled name total label), total + size + 1)
unfolding add_label
add_label-some name total label size e room = rw (sym e) (
    rw (
      copy_to-some name total label (omega arith),
      store-some (blit name total label) (total + length label) b'.'
          (omega (arith, length-blit name total label)),
    ))

pub length-labelled :
    (name : List ℕ) (total : ℕ) (label : List ℕ) → length (labelled name total label) ≡ length name
length-labelled name total label =
    length-set (blit name total label) _ _ ∙ length-blit name total label

module _ (b : PacketBuffer) (v : IsValid b) (p : 0 < b.packet_count) where
  abbrev front : List ℕ
  front = payload (block_at b 0)

  pub front_small : length front < 2 ^ 62
  front_small = let small = v.small_packets in omega (arith, length-front b v p, v.sizes 0 p)

  pub read_octet :
      (offset : ℕ)
      → offset < 2 ^ 63
      → read_front true b offset 1
        ≡ some (
            if ltb offset (length front)
            then (true, get_or front offset 0 ∷ [], offset + 1)
            else (false, [], offset))
  read_octet offset small =
      rw (read_front-slice b v p offset 1 (omega arith))
        (elim (Bool-cases (ltb offset (length front))) [
          | inl e ↦
              let next = slice-next offset 0 front 0 (ltb→lt _ _ e) in
              rw (e, le→leb (offset + 1) (length front) (omega (arith, ltb→lt _ _ e)), next)
          | inr e ↦ rw (e, gt→leb (offset + 1) (length front) (omega (arith, ltb→ge _ _ e)))
        ])

  -- The fuel for a read at an offset, of a name that is `total` long so far.
  abbrev pub need : ℕ → ℕ → ℕ
  need offset total = 2 * (255 - total) + (if ltb (byte_at front offset) 64 then 1 else 2)

  need_jump :
      (fuel offset total : ℕ)
      → NoChain front
      → leb 64 (byte_at front offset) ≡ true
      → need offset total ≤ suc fuel
      → need (target front offset) total ≤ fuel
  need_jump fuel offset total chain e enough =
      let next = chain offset (leb→le _ _ e) in ground arith

  need_label :
      (fuel offset total : ℕ) (offset' size : ℕ)
      → need offset total ≤ suc fuel
      → size ≢ 0
      → total + size ≤ 254
      → need offset' (total + size + 1) ≤ fuel
  need_label fuel offset total offset' size enough size0 small = ground arith

  -- What follows the first byte of a pointer, and a label's length.
  abbrev jump_code : ℕ → ℕ → List ℕ → ℕ → Option NameRead
  jump_code fuel offset name total = do
    (found', low, offset2) ← read_front true b (offset + 1) 1
    let jump : Option NameRead = do
      (rc, _, name', total') ←
          read_name fuel b (byte_at front offset % 64 * 256 + octet low) (some name) total
      some (rc, offset2, name', total')
    if not found' then name_end error offset2 (some name) total else jump

  abbrev label_code : ℕ → ℕ → List ℕ → ℕ → Option NameRead
  label_code fuel offset name total = do
    (found', label, offset2) ← read_front true b (offset + 1) (byte_at front offset)
    let more : Option NameRead = do
      (name', total') ← add_label (some name) total label (byte_at front offset)
      read_name fuel b offset2 name' total'
    if not found' then name_end error offset2 (some name) total else more

  read_name-loop :
      (fuel offset : ℕ) (name : List ℕ) (total : ℕ)
      → NoChain front
      → offset < 2 ^ 63
      → 256 ≤ length name
      → total ≤ 255
      → need offset total ≤ fuel
      → Succeeds (Named (length name)) (read_name fuel b offset (some name) total)
  unfolding read_name
  read_name-loop zero offset name total chain small room total_in enough = ground arith
  read_name-loop (suc fuel) offset name total chain small room total_in enough =
      let here = read_octet offset small in
      let end : (rc : IoError) (o : ℕ)
          → Succeeds (Named (length name)) (name_end rc o (some name) total) =
        λ rc o. name_end-Named rc o name total room total_in in
      let jump : ltb offset (length front) ≡ true
          → leb 64 (byte_at front offset) ≡ true
          → Succeeds (Named (length name)) (jump_code fuel offset name total) =
        λ e e1. elim (Bool-cases (ltb (offset + 1) (length front))) [
          | inr e' ↦
              rw (read_octet (offset + 1) (omega (arith, ltb→lt _ _ e, front_small)), e')
                (end error (offset + 1))
          | inl e' ↦
              let (r, runs, named) =
                read_name-loop fuel (target front offset) name total chain (omega arith) room
                  total_in (need_jump fuel offset total chain e1 enough) in
              rw (read_octet (offset + 1) (omega (arith, ltb→lt _ _ e, front_small)), e')
                (
                  (r.0, offset + 1 + 1, r.2, r.3),
                  rw runs refl,
                  record {
                    array = named.array;
                    given = named.given;
                    same_room = named.same_room;
                    total_in = named.total_in;
                    ended = named.ended;
                  },
                )
        ] in
      let size = byte_at front offset in
      let plain : ltb offset (length front) ≡ true
          → (size == 0) ≡ false
          → leb 64 size ≡ false
          → ltb name_max (total + size) ≡ false
          → Succeeds (Named (length name)) (label_code fuel offset name total) =
        λ e e0 e1 e2.
          let within = ltb→lt _ _ e in
          let size64 = leb→gt _ _ e1 in
          let fits = ltb→ge _ _ e2 in
          let read = read_front-slice b v p (offset + 1) size (omega (arith, front_small)) in
          elim (Bool-cases (leb (offset + 1 + size) (length front))) [
            | inr e' ↦ rw (read, e') (end error (offset + 1))
            | inl e' ↦
                let label = slice (offset + 1) size front in
                let length_label : length label ≡ size =
                  length-slice (offset + 1) size front (leb→le _ _ e') in
                let same = length-labelled name total label in
                let put = add_label-some name total label size length_label (omega arith) in
                let rest =
                  read_name-loop fuel (offset + 1 + size) (labelled name total label)
                    (total + size + 1) chain (omega (arith, front_small)) (omega arith)
                    (omega arith)
                    (need_label fuel offset total (offset + 1 + size) size enough (nonzero size e0)
                      (omega arith)) in
                rw (read, e', put)
                  (subst
                    (λ n. Succeeds (Named n) (
                      read_name fuel b (offset + 1 + size) (some (labelled name total label))
                        (total + size + 1)))
                    same rest)
          ] in
      elim (Bool-cases (ltb offset (length front))) [
        | inr e ↦ rw (here, e) (end error offset)
        | inl e ↦
            rw (here, e)
              (Succeeds-if (byte_at front offset == 0) (λ e0. end ok (offset + 1))
                (λ e0.
                  Succeeds-if (leb 64 (byte_at front offset)) (λ e1. jump e e1)
                    (λ e1.
                      Succeeds-if (ltb name_max (total + byte_at front offset))
                        (λ e2. end error (offset + 1)) (λ e2. plain e e0 e1 e2))))
      ]

  -- Where no compression pointer of the packet leads to another one, read_domain_name returns, and
  -- leaves a string within the array that it is given.
  pub read_domain_name-Named :
      (fuel offset : ℕ) (name : List ℕ)
      → NoChain front
      → offset < 2 ^ 63
      → 256 ≤ length name
      → 512 ≤ fuel
      → Succeeds (Named (length name)) (read_domain_name fuel b offset (some name))
  unfolding read_domain_name
  read_domain_name-Named fuel offset name chain small room enough =
      read_name-loop fuel offset name 0 chain small room (omega arith) (ground arith)
