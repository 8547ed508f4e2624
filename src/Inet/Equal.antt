-- ===== src/Inet/Equal.antt =====
-- ss_addr_equal, src/network/ss_inet.c, compares addresses less the flow and the scope of IPv6.
use simple_socks.Common.{◌≡◌, refl, ◌↔◌, true, arith, Succeeds}
use simple_socks.Inet.{Addr, ipv4, ipv6, other, addr_equal}

-- The domain is AF_INET or AF_INET6.
abbrev pub IsInternet : Addr → Type 0
IsInternet (other d) = ⊥
IsInternet _ = Unit

-- The address with sin6_flowinfo and sin6_scope_id set to 0.
abbrev pub unscoped : Addr → Addr
unscoped (ipv4 a p) = ipv4 a p
unscoped (ipv6 a0 a1 a2 a3 p flow scope) = ipv6 a0 a1 a2 a3 p 0 0
unscoped (other d) = other d

-- Between addresses, the first of AF_INET or AF_INET6, ss_addr_equal answers, and it answers true
-- just where the addresses are the same once sin6_flowinfo and sin6_scope_id are set to 0: addresses
-- of IPv6 that differ in those alone are equal to it.
pub addr_equal-decides :
    (a b : Addr)
    → IsInternet a
    → Succeeds (λ r. (r ≡ true) ↔ (unscoped a ≡ unscoped b)) (addr_equal a b)
unfolding addr_equal
addr_equal-decides (ipv4 a p) (ipv4 b q) i = (_, refl, ((λ h. ground arith), λ e. ground arith))
addr_equal-decides (ipv6 a0 a1 a2 a3 p flow scope) (ipv6 b0 b1 b2 b3 q flow' scope') i =
    (_, refl, ((λ h. ground arith), λ e. ground arith))
addr_equal-decides (ipv4 a p) (ipv6 b0 b1 b2 b3 q flow' scope') i = (_, refl, ((λ h. cc), λ e. cc))
addr_equal-decides (ipv4 a p) (other e) i = (_, refl, ((λ h. cc), λ e. cc))
addr_equal-decides (ipv6 a0 a1 a2 a3 p flow scope) (ipv4 b q) i = (_, refl, ((λ h. cc), λ e. cc))
addr_equal-decides (ipv6 a0 a1 a2 a3 p flow scope) (other e) i = (_, refl, ((λ h. cc), λ e. cc))
addr_equal-decides (other d) b i = elim i [ ]
