-- ===== src/Config/Tests.antt =====
-- Runs of the reading of the configuration.
use simple_socks.Common.{ℕ, List, ◌≡◌, refl, some, [], ◌∷◌, replicate, store, copy_from, copy_to}
use mathlib.Core.Option
use simple_socks.Socks5.{c_string, str_eq}
use simple_socks.Config.{
  Line, trim, skipped, last_index, read_config_line, read_key, read_value, end_line,
  parse_auth_method,
}

-- The line " a = b" and its end: the space before the sign stays.
read_config_line-spaces :
    Option.map {B = List ℕ × List ℕ}
      (λ (l : Line). (c_string l.key, c_string l.value))
      (read_config_line
        (32 ∷ b'a' ∷ 32 ∷ b'=' ∷ 32 ∷ b'b' ∷ 10 ∷ [])
        (replicate 8 0)
        (replicate 8 0))
    ≡ some (b'a' ∷ 32 ∷ [], b'b' ∷ [])
unfolding read_config_line read_key read_value end_line trim skipped last_index copy_from copy_to
    store c_string
read_config_line-spaces = refl

parse_auth_method-plain : parse_auth_method (b'p' ∷ b'l' ∷ b'a' ∷ b'i' ∷ b'n' ∷ 0 ∷ []) ≡ some 2
unfolding parse_auth_method str_eq c_string
parse_auth_method-plain = refl
