-- ===== src/Config/Load/Tests.antt =====
-- Runs of the loading of a configuration.
use simple_socks.Common.{
  ℕ, ◌≡◌, refl, none, some, List, [], ◌∷◌, ◌++◌, replicate, store, copy_to, copy_from,
}
use simple_socks.Socks5.{c_string, str_eq}
use simple_socks.StringMap.{Tree, leaf}
use simple_socks.Config.{
  read_config_line, read_key, read_value, end_line, trim, skipped, last_index, string_empty,
  parse_auth_method,
}
use simple_socks.Config.Load.{
  Files, LoadedConfig, string_clone, read_auth_plain_line, read_username, read_password,
  end_plain_line, parse_auth_plain, parse_loop, put_user, load_line, load_loop, load_config,
}

-- A tree that stays empty.
abbrev bare : Tree (List ℕ)
bare = record {
  State = ℕ;
  shape = λ s. leaf;
  init = 0;
  lookup = λ s hash key. none;
  insert = λ s n. s;
  delete = λ s i. s;
  assign = λ s i v. s;
}

-- A file with the line "auth=plain", and with the same line without its end.
abbrev auth_line : List ℕ
auth_line = b'a' ∷ b'u' ∷ b't' ∷ b'h' ∷ b'=' ∷ b'p' ∷ b'l' ∷ b'a' ∷ b'i' ∷ b'n' ∷ []

abbrev with_end : Files
with_end path = some (auth_line ++ (10 ∷ []))

abbrev without_end : Files
without_end path = some auth_line

abbrev start : LoadedConfig bare
start = record { auth_method = 0; auth_plain = 0 }

load_config-line :
    load_config bare 1 with_end 0 [] [] 3 (replicate 8 0) (replicate 8 0) start (b'f' ∷ 0 ∷ [])
    ≡ some (some (record { auth_method = 2; auth_plain = 0 }))
unfolding load_config load_loop load_line read_config_line read_key read_value end_line trim skipped
    last_index copy_from copy_to store string_empty parse_auth_method c_string str_eq
load_config-line = refl

-- A last line without its end is not looked at.
load_config-last_line :
    load_config bare 1 without_end 0 [] [] 3 (replicate 8 0) (replicate 8 0) start (b'f' ∷ 0 ∷ [])
    ≡ some (some start)
unfolding load_config load_loop load_line read_config_line read_key read_value end_line trim skipped
    last_index copy_from copy_to store string_empty parse_auth_method c_string str_eq
load_config-last_line = refl

-- The line "a b" of users.
read_auth_plain_line-user :
    read_auth_plain_line (b'a' ∷ 32 ∷ b'b' ∷ 10 ∷ []) (replicate 3 9) 2 (replicate 3 9) 2
    ≡ some
        (record { rc = 1; username = b'a' ∷ 0 ∷ 9 ∷ []; password = b'b' ∷ 0 ∷ 9 ∷ []; rest = [] })
unfolding read_auth_plain_line read_username read_password end_plain_line store
read_auth_plain_line-user = refl

-- ss_string_clone of "a" writes past its memory.
string_clone-overflow : string_clone (b'a' ∷ 0 ∷ []) ≡ none
unfolding string_clone c_string copy_to
string_clone-overflow = refl

-- An rc that is no result makes parse_auth_plain read the end of the file again and again.
parse_auth_plain-endless :
    parse_auth_plain bare 50 (λ path. some []) 7 (replicate 3 9) (replicate 3 9) (b'f' ∷ 0 ∷ []) 0
    ≡ none
unfolding parse_auth_plain parse_loop read_auth_plain_line read_username end_plain_line put_user
    store string_empty c_string str_eq
parse_auth_plain-endless = refl
