-- ===== src/Socks5/Server/Tests.antt =====
-- Runs of the start of the server, and the theorems on it and its clients at concrete values.
use simple_socks.Common.{
  ℕ, ◌≡◌, refl, true, none, some, List, [], ◌∷◌, arith, replicate, length-replicate, Succeeds,
}
use simple_socks.Common.Script.{Script, script, script-IsStream}
use simple_socks.Network.{Program, Network, connection_initialize}
use simple_socks.Socks5.{Config, str_eq, c_string, done, again, error}
use simple_socks.Socks5.Server.{Undefined}
use simple_socks.Socks5.Server.Start.{
  Codes, default_path, is_config_flag, read_arguments, get_arguments, accept_handler,
}
use simple_socks.StringMap.{Tree, leaf}
use simple_socks.Config.Load.{Files, LoadedConfig}
use simple_socks.Socks5.Server.Sessions.{WaitsOrDead, recv_calls, recv_calls-accepted}

-- -c x, and -c alone: the path is x, and a null pointer.
get_arguments-path :
    get_arguments ((b'-' ∷ b'c' ∷ 0 ∷ []) ∷ (b'x' ∷ 0 ∷ []) ∷ []) ≡ some (b'x' ∷ 0 ∷ [])
unfolding get_arguments read_arguments is_config_flag str_eq c_string
get_arguments-path = refl

get_arguments-null : get_arguments ((b'-' ∷ b'c' ∷ 0 ∷ []) ∷ []) ≡ none
unfolding get_arguments read_arguments is_config_flag str_eq c_string
get_arguments-null = refl

get_arguments-default : get_arguments ((b'x' ∷ 0 ∷ []) ∷ []) ≡ some default_path
unfolding get_arguments read_arguments is_config_flag str_eq c_string
get_arguments-default = refl

-- A system where every call succeeds.
abbrev quiet : Program
quiet = record {
  World = ℕ;
  epoll_add = λ w fd. (true, w);
  epoll_del = λ w fd. (true, w);
  close = λ w fd. w;
  accept = λ w fd. (none, w);
  socket = λ w kind address. (some 6, w);
  set_up_listening = λ w fd address. (true, w);
  set_up_connection = λ w fd address. (true, w);
  callback_poll = λ w. w;
  on_connection = λ handler c w. (c, w);
  on_status = λ handler c w. (true, c, w);
  on_accept = λ handler l c w. (true, c, w);
  on_destroy = λ handler body w. w;
}

abbrev codes : Codes
codes = record {
  accept_handler = 21;
  server_destroy_handler = 22;
  recv_handler = 23;
  send_handler = 24;
  destroy_handler = 25;
  check_client_status = 26;
}

abbrev empty : Network quiet
empty = record {
  items = λ p. none;
  nodes = λ p. none;
  item_list = record { head = 0; tail = 0 };
  world = 0;
}

abbrev test_codes : Codes
test_codes = record codes { accept_handler = 31; server_destroy_handler = 32 }

-- A tree that stays empty, no files, and no arguments.
abbrev bare : Tree (List ℕ)
bare = record {
  State = ℕ;
  shape = λ s. leaf;
  init = 0;
  lookup = λ s hash key. none;
  insert = λ s n. s;
  delete = λ s i. s;
  assign = λ s i v. s;
}

-- An empty configuration file.
abbrev empty_file : Files
empty_file path = some []

abbrev started_config : LoadedConfig bare
started_config = record { auth_method = 0; auth_plain = 0 }

abbrev unset : Undefined
unset = record { recv_ret = 0; method = 0; finished = done }

abbrev open_config : Config
open_config = record { auth_method = 0; lookup = λ name. none }

abbrev malloc : ℕ → List ℕ
malloc n = replicate n 0

-- A client that sends 5, 1 and 0.
abbrev hello_world : Script
hello_world = record { incoming = 5 ∷ 1 ∷ 0 ∷ []; outgoing = [] }

recv_calls-accepted_example :
    Succeeds
      (λ (c', w'). WaitsOrDead c')
      (recv_calls
        (script 9)
        unset
        (again ∷ error ∷ [])
        hello_world
        (accept_handler codes malloc 50 open_config connection_initialize).2)
recv_calls-accepted_example =
    recv_calls-accepted (script 9) unset (script-IsStream 9) codes malloc 50 open_config
      connection_initialize (length-replicate {A = ℕ} 1024 0) (omega arith) (again ∷ error ∷ [])
      hello_world ((λ e. cc), ((λ e. cc), tt))
