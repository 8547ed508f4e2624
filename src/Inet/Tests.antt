-- ===== src/Inet/Tests.antt =====
-- Addresses are compared by their fields, and printed by a format.
use simple_socks.Inet.Equal.{unscoped, addr_equal-decides}
use simple_socks.Common.{
  ℕ, ◌↔◌, Succeeds, ◌≡◌, refl, true, some, [], ◌∷◌, replicate, pos, negsuc, copy_to, store,
}
use simple_socks.Inet.{
  Addr, ipv4, ipv6, addr_equal, put_string, stringify_ipv4_address, stringify_port, stringify,
  format_one, format_loop, addr_format,
}

-- 127.0.0.1 on port 80, which stands in memory as 0 and 80.
abbrev local : Addr
local = ipv4 16777343 20480

addr_equal-local : addr_equal local local ≡ some true
unfolding addr_equal
addr_equal-local = refl

-- "%a" is the address; behind the first %, each character is a format of its own.
addr_format-address :
    addr_format (pos 0) (replicate 12 0) (b'%' ∷ b'a' ∷ 0 ∷ []) local
    ≡ some (b'1' ∷ b'2' ∷ b'7' ∷ b'.' ∷ b'0' ∷ b'.' ∷ b'0' ∷ b'.' ∷ b'1' ∷ 0 ∷ 0 ∷ 0 ∷ [], pos 9)
unfolding addr_format format_loop format_one stringify stringify_ipv4_address put_string copy_to
    store
addr_format-address = refl

addr_format-port :
    addr_format (pos 0) (replicate 9 0) (b'%' ∷ b'p' ∷ b'!' ∷ 0 ∷ []) local
    ≡ some (b'2' ∷ b'0' ∷ b'4' ∷ b'8' ∷ b'0' ∷ b'%' ∷ b'!' ∷ 0 ∷ 0 ∷ [], pos 7)
unfolding addr_format format_loop format_one stringify stringify_port put_string copy_to store
addr_format-port = refl

-- Without a % the result is what rc held, if that is negative.
addr_format-undefined :
    addr_format (negsuc 4) (replicate 3 0) (b'x' ∷ 0 ∷ []) local
    ≡ some (b'x' ∷ 0 ∷ 0 ∷ [], negsuc 4)
unfolding addr_format format_loop store
addr_format-undefined = refl

-- fe80::1 on port 80, on two interfaces
abbrev link_local : ℕ → Addr
link_local scope = ipv6 33022 0 0 16777216 20480 0 scope

addr_equal-decides_example :
    Succeeds
      (λ r. (r ≡ true) ↔ (unscoped (link_local 2) ≡ unscoped (link_local 3)))
      (addr_equal (link_local 2) (link_local 3))
addr_equal-decides_example = addr_equal-decides (link_local 2) (link_local 3) tt
