-- ===== src/Config.antt =====
-- src/util/ss_string_utils.c and src/socks5/ss_config.c: the configuration file. A file is the list
-- of its bytes that are not read yet; read() of one byte gives the first or, at the end, 0. An
-- access outside an array is `none`.
pub mod Trim
pub mod Load
mod Tests
use simple_socks.Common.{
  ℕ, zero, suc, ◌+◌, ◌-◌, Bool, true, false, not, ◌||◌, Option, none, some, List, [], ◌∷◌, ltb,
  ◌==◌, if◌then◌else◌, ◌>>=◌, store, copy_from, copy_to, drop, replicate,
}
use simple_socks.Socks5.{c_string, str_eq, auth_none, auth_plain}

-- The characters that ss_string_trim skips.
abbrev pub is_space : ℕ → Bool
is_space x = (x == 32) || ((x == 9) || ((x == 13) || (x == 10)))

-- The first loop of ss_string_trim: how many characters are skipped.
unfoldable pub skipped : List ℕ → Option ℕ
skipped [] = none
skipped (x ∷ xs) =
    let rest = skipped xs >>= λ n. some (suc n) in if is_space x then rest else some 0

-- The second, over the array from `i` on.
unfoldable pub last_index : List ℕ → ℕ → ℕ → Option ℕ
last_index [] i p1 = none
last_index (x ∷ xs) i p1 =
    let rest = last_index xs (suc i) (if is_space x then p1 else i) in
    if x == 0 then some i else rest

-- ss_string_trim
unfoldable pub trim : List ℕ → Option (List ℕ)
trim str = do
  p0 ← skipped str
  p1 ← last_index (drop p0 str) p0 p0
  part ← copy_from str p0 (p1 - p0)
  moved ← copy_to str 0 part
  store (if ltb p0 p1 then moved else str) (p1 - p0) 0

-- ss_string_empty
unfoldable pub string_empty : List ℕ → Bool
string_empty str = str_eq (c_string str) []

-- What read_config_line gives: 0 or -1, the key, the value, the rest of the file.
pub record Line : Type 0 where
  pub complete : Bool
  pub key : List ℕ
  pub value : List ℕ
  pub rest : List ℕ

-- _l_end
unfoldable pub end_line : Bool → List ℕ → List ℕ → ℕ → ℕ → List ℕ → Option Line
end_line complete key value key_length value_length rest = do
  key' ← store key key_length 0
  value' ← store value value_length 0
  trimmed ← trim key'
  trimmed' ← trim value'
  some (record { complete = complete; key = trimmed; value = trimmed'; rest = rest })

-- _l_loop_read_value
unfoldable pub read_value : List ℕ → List ℕ → List ℕ → ℕ → ℕ → Option Line
read_value [] key value key_length value_length =
    end_line false key value key_length value_length []
read_value (x ∷ file) key value key_length value_length =
    let more = store value value_length x >>= λ value'.
    read_value file key value' key_length (suc value_length) in
    if x == 10 then end_line true key value key_length value_length file else more

-- _l_loop_read_key
unfoldable pub read_key : List ℕ → List ℕ → List ℕ → ℕ → Option Line
read_key [] key value key_length = end_line false key value key_length 0 []
read_key (x ∷ file) key value key_length =
    let more = store key key_length x >>= λ key'. read_key file key' value (suc key_length) in
    if x == b'='
    then read_value file key value key_length 0
    else if x == 10
    then end_line true key value key_length 0 file
    else more

-- read_config_line
unfoldable pub read_config_line : List ℕ → List ℕ → List ℕ → Option Line
read_config_line file key value = read_key file key value 0

-- "none", "plain"
abbrev pub none_name : List ℕ
none_name = b'n' ∷ b'o' ∷ b'n' ∷ b'e' ∷ []

abbrev pub plain_name : List ℕ
plain_name = b'p' ∷ b'l' ∷ b'a' ∷ b'i' ∷ b'n' ∷ []

-- parse_auth_method: the method, or none for -1.
unfoldable pub parse_auth_method : List ℕ → Option ℕ
parse_auth_method method_str =
    if str_eq (c_string method_str) none_name
    then some auth_none
    else if str_eq (c_string method_str) plain_name
    then some auth_plain
    else none
