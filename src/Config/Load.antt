-- ===== src/Config/Load.antt =====
-- ss_load_config and what it calls, src/socks5/ss_config.c, and ss_string_clone. A file is the
-- list of its bytes; the string map is on a tree that is a parameter.
mod Tests
use simple_socks.Common.{
  ℕ, zero, suc, ◌+◌, Bool, true, false, not, ◌||◌, ◌&&◌, Option, none, some, List, [], ◌∷◌, ◌++◌,
  ltb, leb, ◌==◌, if◌then◌else◌, ◌>>=◌, load, store, copy_to, replicate, length,
}
use simple_socks.Socks5.{c_string, str_eq, auth_none, auth_plain}
use simple_socks.StringMap.{Tree, strmap_put}
use simple_socks.Config.{string_empty, parse_auth_method, Line, read_config_line}

-- ss_string_clone: the memory has no room for the end of the string.
unfoldable pub string_clone : List ℕ → Option (List ℕ)
string_clone origin =
    copy_to (replicate (length (c_string origin)) 0) 0 (c_string origin ++ (0 ∷ []))

-- An ss_int8_t: -1 is 255.
abbrev pub minus_one : ℕ
minus_one = 255

-- What read_auth_plain_line gives.
pub record PlainLine : Type 0 where
  pub rc : ℕ
  pub username : List ℕ
  pub password : List ℕ
  pub rest : List ℕ

-- _l_end, with the result of the last read()
unfoldable pub end_plain_line : ℕ → List ℕ → List ℕ → ℕ → ℕ → List ℕ → Option PlainLine
end_plain_line rc username password ulen plen rest = do
  username' ← store username ulen 0
  password' ← store password plen 0
  some (record { rc = rc; username = username'; password = password'; rest = rest })

-- _l_error
unfoldable pub plain_line_error : List ℕ → List ℕ → List ℕ → Option PlainLine
plain_line_error username password rest = do
  username' ← store username 0 0
  password' ← store password 0 0
  some (record { rc = minus_one; username = username'; password = password'; rest = rest })

abbrev pub is_blank : ℕ → Bool
is_blank x = (x == 32) || (x == 9)

abbrev pub is_line_end : ℕ → Bool
is_line_end x = (x == 10) || (x == 13)

-- _l_loop_read_password
unfoldable pub read_password : List ℕ → List ℕ → List ℕ → ℕ → ℕ → ℕ → Option PlainLine
read_password [] username password ulen plen max_plen =
    end_plain_line 0 username password ulen plen []
read_password (ch ∷ file) username password ulen plen max_plen =
    let more = store password plen ch >>= λ password'.
    let next = read_password file username password' ulen (suc plen) max_plen in
    if ltb max_plen (suc plen) then plain_line_error username password' file else next in
    if is_blank ch || is_line_end ch
    then end_plain_line 1 username password ulen plen file
    else more

-- _l_loop_read_username
unfoldable pub read_username : List ℕ → List ℕ → List ℕ → ℕ → ℕ → ℕ → Option PlainLine
read_username [] username password ulen max_ulen max_plen =
    end_plain_line 0 username password ulen 0 []
read_username (ch ∷ file) username password ulen max_ulen max_plen =
    let more = store username ulen ch >>= λ username'.
    let next = read_username file username' password (suc ulen) max_ulen max_plen in
    if ltb max_ulen (suc ulen) then plain_line_error username' password file else next in
    if is_blank ch && ltb 0 ulen
    then read_password file username password ulen 0 max_plen
    else if is_line_end ch
    then end_plain_line 1 username password ulen 0 file
    else more

-- read_auth_plain_line
unfoldable pub read_auth_plain_line : List ℕ → List ℕ → ℕ → List ℕ → ℕ → Option PlainLine
read_auth_plain_line file username max_ulen password max_plen =
    read_username file username password 0 max_ulen max_plen

-- The files that open() finds.
abbrev pub Files : Type 0
Files = List ℕ → Option (List ℕ)

module _ (tree : Tree (List ℕ)) where
  -- ss_config_t
  pub record LoadedConfig : Type 0 where
    pub auth_method : ℕ
    pub auth_plain : tree.State

  -- The body of the loop of parse_auth_plain: a user is put into the map. What it replaces is freed.
  unfoldable pub put_user : tree.State → PlainLine → Option tree.State
  put_user map line =
      let put : Option tree.State = do
        value ← string_clone line.password
        (map', _) ← strmap_put tree map (c_string line.username) value
        some map'
      in if string_empty line.username || string_empty line.password then some map else put

  -- The loop of parse_auth_plain, whose rc is compared and never set: it goes on until a result is
  -- what the uninitialised rc holds.
  unfoldable pub parse_loop :
      ℕ → ℕ → List ℕ → List ℕ → List ℕ → tree.State → Option (ℕ × tree.State)
  parse_loop zero rc file username password map = none
  parse_loop (suc fuel) rc file username password map = do
    line ← read_auth_plain_line file username 255 password 255
    let more : Option (ℕ × tree.State) = do
      map' ← put_user map line
      parse_loop fuel rc line.rest line.username line.password map'
    if rc == line.rc then some (if leb 128 rc then minus_one else 0, map) else more

  -- parse_auth_plain, with what its uninitialised variables hold
  unfoldable pub parse_auth_plain :
      ℕ → Files → ℕ → List ℕ → List ℕ → List ℕ → tree.State → Option (ℕ × tree.State)
  parse_auth_plain fuel files rc username password filepath map = elim (files (c_string filepath)) [
    | none ↦ some (minus_one, map)
    | some file ↦ parse_loop fuel rc file username password map
  ]

  -- "auth" and "auth_plain"
  abbrev pub auth_key : List ℕ
  auth_key = b'a' ∷ b'u' ∷ b't' ∷ b'h' ∷ []

  abbrev pub auth_plain_key : List ℕ
  auth_plain_key = auth_key ++ (b'_' ∷ b'p' ∷ b'l' ∷ b'a' ∷ b'i' ∷ b'n' ∷ [])

  module _ (fuel : ℕ) (files : Files) (rc : ℕ) (username password : List ℕ) where
    -- One line in ss_load_config: none for _l_error.
    unfoldable pub load_line : LoadedConfig → Line → Option (Option LoadedConfig)
    load_line config line =
        let method : Option LoadedConfig = elim (parse_auth_method line.value) [
          | none ↦ none
          | some m ↦ some (record config { auth_method = m })
        ] in
        let plain : Option (Option LoadedConfig) = do
          (code, map) ←
              parse_auth_plain fuel files rc username password line.value config.auth_plain
          some (if code == 0 then some (record config { auth_plain = map }) else none)
        in if string_empty line.key
          then some (some config)
          else if str_eq (c_string line.key) auth_key
          then some method
          else if str_eq (c_string line.key) auth_plain_key
          then plain
          else some (some config)

    -- The loop of ss_load_config: a line without its end, the last one, is not looked at.
    unfoldable pub load_loop :
        ℕ → List ℕ → List ℕ → List ℕ → LoadedConfig → Option (Option LoadedConfig)
    load_loop zero file key value config = none
    load_loop (suc rounds) file key value config = do
      line ← read_config_line file key value
      let more : Option (Option LoadedConfig) = do
        loaded ← load_line config line
        elim loaded [
          | none ↦ some none
          | some config' ↦ load_loop rounds line.rest line.key line.value config'
        ]
      if line.complete then more else some (some config)

    -- ss_load_config, where ss_create_config, which returns no value, leaves `config`.
    unfoldable pub load_config :
        ℕ → List ℕ → List ℕ → LoadedConfig → List ℕ → Option (Option LoadedConfig)
    load_config rounds key value config path = elim (files path) [
      | none ↦ some none
      | some file ↦ load_loop rounds file key value config
    ]
