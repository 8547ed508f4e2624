-- ===== src/Inet.antt =====
-- Addresses, src/network/ss_inet.c. Memory is a list of bytes; a write outside of it is `none`.
mod Tests
pub mod Equal
use simple_socks.Common.{
  ℕ, zero, suc, ◌+◌, ◌*◌, ◌/◌, ◌%◌, ◌^◌, Bool, true, false, Option, none, some, List, [], ◌∷◌, ◌++◌,
  ltb, ◌==◌, ◌&&◌, ◌-◌, if◌then◌else◌, ◌>>=◌, store, copy_to, length, ℤ, pos, negsuc,
}

-- ss_addr_t: the fields that its domain, AF_INET, AF_INET6 or another, says are in use. An address
-- is its bytes in memory, or its 32-bit words; a port is as it stands in memory, in network order.
-- The last two fields of `ipv6` are sin6_flowinfo and sin6_scope_id.
pub data Addr : Type 0 where
  ipv4 : ℕ → ℕ → Addr
  ipv6 : ℕ → ℕ → ℕ → ℕ → ℕ → ℕ → ℕ → Addr
  other : ℕ → Addr

-- ss_addr_equal; with the same domain, which is neither of the two, it returns no value.
unfoldable pub addr_equal : Addr → Addr → Option Bool
addr_equal (ipv4 a p) (ipv4 b q) = some ((a == b) && (p == q))
addr_equal (ipv6 a0 a1 a2 a3 p flow scope) (ipv6 b0 b1 b2 b3 q flow' scope') =
    some ((a0 == b0) && ((a1 == b1) && ((a2 == b2) && ((a3 == b3) && (p == q)))))
addr_equal (other d) (other e) = if d == e then none else some false
addr_equal (ipv4 a p) (ipv6 b0 b1 b2 b3 q flow' scope') = some false
addr_equal (ipv4 a p) (other e) = some false
addr_equal (ipv6 a0 a1 a2 a3 p flow scope) (ipv4 b q) = some false
addr_equal (ipv6 a0 a1 a2 a3 p flow scope) (other e) = some false
addr_equal (other d) (ipv4 b q) = some false
addr_equal (other d) (ipv6 b0 b1 b2 b3 q flow' scope') = some false

-- The digits of a number in a base, as sprintf writes them; at most `fuel` of them.
abbrev pub digit : ℕ → ℕ
digit d = if ltb d 10 then b'0' + d else b'a' + (d - 10)

abbrev pub digits : ℕ → ℕ → ℕ → List ℕ → List ℕ
digits zero base n out = out
digits (suc fuel) base n out =
    let out' = digit (n % (suc base)) ∷ out in
    if n / (suc base) == 0 then out' else digits fuel base (n / (suc base)) out'

-- %d of a number below 2^16, and %x of one
abbrev pub decimal : ℕ → List ℕ
decimal n = digits 5 9 n []

abbrev pub hexadecimal : ℕ → List ℕ
hexadecimal n = digits 4 15 n []

-- sprintf(dest + j, …): the memory, and the length of the string
unfoldable pub put_string : List ℕ → ℕ → List ℕ → Option (List ℕ × ℕ)
put_string dest j str = do dest' ← copy_to dest j (str ++ (0 ∷ [])); some (dest', length str)

-- Byte `i` of a number in memory, the lowest first.
abbrev pub byte_of : ℕ → ℕ → ℕ
byte_of n i = (n / 256 ^ i) % 256

-- ss_addr_stringify_ipv4_address
unfoldable pub stringify_ipv4_address : List ℕ → ℕ → ℕ → Option (List ℕ × ℕ)
stringify_ipv4_address dest j a = put_string dest j (
    decimal (byte_of a 0)
    ++ (b'.'
        ∷ (decimal (byte_of a 1)
            ++ (b'.' ∷ (decimal (byte_of a 2) ++ (b'.' ∷ decimal (byte_of a 3)))))))

-- ntohs of the two 16-bit words of a 32-bit word in memory
abbrev pub words_of : ℕ → List ℕ
words_of a =
    hexadecimal (byte_of a 0 * 256 + byte_of a 1)
    ++ (b':' ∷ hexadecimal (byte_of a 2 * 256 + byte_of a 3))

-- ss_addr_stringify_ipv6_address
unfoldable pub stringify_ipv6_address : List ℕ → ℕ → ℕ → ℕ → ℕ → ℕ → Option (List ℕ × ℕ)
stringify_ipv6_address dest j a0 a1 a2 a3 =
    put_string dest j
      (words_of a0 ++ (b':' ∷ (words_of a1 ++ (b':' ∷ (words_of a2 ++ (b':' ∷ words_of a3))))))

-- ss_addr_stringify_ipv4_port and ss_addr_stringify_ipv6_port
unfoldable pub stringify_port : List ℕ → ℕ → ℕ → Option (List ℕ × ℕ)
stringify_port dest j port = put_string dest j (decimal port)

-- The switch of ss_addr_format on the character behind a %.
unfoldable pub stringify : List ℕ → ℕ → ℕ → Addr → Option (List ℕ × ℕ)
stringify dest j ch (ipv4 a p) =
    let address = stringify_ipv4_address dest j a in
    let port = stringify_port dest j p in
    if ch == b'a' then address else if ch == b'p' then port else some (dest, 0)
stringify dest j ch (ipv6 a0 a1 a2 a3 p flow scope) =
    let address = stringify_ipv6_address dest j a0 a1 a2 a3 in
    let port = stringify_port dest j p in
    if ch == b'a' then address else if ch == b'p' then port else some (dest, 0)
stringify dest j ch (other d) = some (dest, 0)

-- A character behind a %: what it stands for, or the two characters.
unfoldable pub format_one : List ℕ → ℕ → ℕ → Addr → Option (List ℕ × ℕ)
format_one dest j ch addr = do
  (dest', rc) ← stringify dest j ch addr
  let kept : Option (List ℕ × ℕ) = do d ← store dest' j b'%'; d' ← store d (j + 1) ch; some (d', 2)
  if rc == 0 then kept else some (dest', rc)

-- What ss_addr_format returns: rc if it is negative, else the length.
abbrev pub format_result : ℤ → ℕ → ℤ
format_result (pos rc) j = pos j
format_result (negsuc rc) j = negsuc rc

-- The loop of ss_addr_format and its end. ff says that a % was seen; it stays so.
unfoldable pub format_loop : List ℕ → ℕ → List ℕ → Bool → ℤ → Addr → Option (List ℕ × ℤ)
format_loop dest j [] ff rc addr = none
format_loop dest j (ch ∷ format) ff rc addr =
    let formatted = format_one dest j ch addr >>= λ (dest', rc').
    format_loop dest' (j + rc') format true (pos rc') addr in
    let marked = format_loop dest j format true rc addr in
    let copied = store dest j ch >>= λ dest'. format_loop dest' (j + 1) format false rc addr in
    let ended = store dest j 0 >>= λ dest'. some (dest', format_result rc j) in
    if ch == 0 then ended else if ff then formatted else if ch == b'%' then marked else copied

-- ss_addr_format: the memory and the result; `rc` is what the uninitialised rc holds.
unfoldable pub addr_format : ℤ → List ℕ → List ℕ → Addr → Option (List ℕ × ℤ)
addr_format rc dest format addr = do
  dest' ← store dest 0 0
  format_loop dest' 0 format false rc addr
