-- ===== src/Dns/Names/Pointers.antt =====
-- Compression pointers that are followed for ever.
use simple_socks.Common.{
  ℕ, zero, suc, ◌+◌, ◌≤◌, ◌<◌, ◌≡◌, refl, false, Option, none, List, ◌==◌, length, arith, ne→==,
  lt→ltb, le→leb,
}
use simple_socks.PacketBuffer.{PacketBuffer}
use simple_socks.PacketBuffer.Contents.{IsValid}
use simple_socks.Dns.Names.{read_name, read_domain_name}
use simple_socks.Dns.Names.Bounds.{front_of, byte_at, target, front_small, read_octet}

module _ (b : PacketBuffer) (v : IsValid b) (p : 0 < b.packet_count) where
  read_name-self_pointer :
      (fuel offset : ℕ) (name : Option (List ℕ)) (total : ℕ)
      → offset + 1 < length (front_of b)
      → 64 ≤ byte_at (front_of b) offset
      → target (front_of b) offset ≡ offset
      → read_name fuel b offset name total ≡ none
  unfolding read_name
  read_name-self_pointer zero offset name total inside pointer self = refl
  read_name-self_pointer (suc fuel) offset name total inside pointer self =
      let first = read_octet b v p offset (omega (arith, front_small b v p)) in
      let second = read_octet b v p (offset + 1) (omega (arith, front_small b v p)) in
      let again = read_name-self_pointer fuel offset name total inside pointer self in
      let size0 : (byte_at (front_of b) offset == 0) ≡ false = ne→== _ _ (omega arith) in
      rw (
        first,
        lt→ltb offset (length (front_of b)) (omega arith),
        size0,
        le→leb 64 (byte_at (front_of b) offset) pointer,
        second,
        lt→ltb (offset + 1) (length (front_of b)) inside,
        self,
        again,
      )

  -- A compression pointer to itself is followed for ever.
  pub read_domain_name-self_pointer :
      (fuel offset : ℕ) (name : Option (List ℕ))
      → offset + 1 < length (front_of b)
      → 64 ≤ byte_at (front_of b) offset
      → target (front_of b) offset ≡ offset
      → read_domain_name fuel b offset name ≡ none
  unfolding read_domain_name
  read_domain_name-self_pointer fuel offset name inside pointer self =
      read_name-self_pointer fuel offset name 0 inside pointer self
