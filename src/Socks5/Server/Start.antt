-- ===== src/Socks5/Server/Start.antt =====
-- The start of src/server/socks5_server.c, the memory of its clients, and ss_network_prepare.
use simple_socks.Common.{
  ℕ, Bool, true, false, ◌||◌, Option, none, some, List, [], ◌∷◌, ◌==◌, if◌then◌else◌, ◌>>=◌,
}
use simple_socks.RingBuffer
use simple_socks.Network.{Connection, listening, Program, Network, item_at, put_item}
use simple_socks.Network.Open.{network_listen}
use simple_socks.LinkedList
use simple_socks.StringMap.{Tree}
use simple_socks.Config.Load.{Files, LoadedConfig, load_config}
use simple_socks.Socks5.{
  Config, Context, c_string, str_eq, auth_context_initialize, context_initialize,
}

-- SOCK_STREAM
abbrev pub sock_stream : ℕ
sock_stream = 1

-- "/etc/socks/socks.conf"
abbrev pub default_path : List ℕ
default_path =
    b'/' ∷ b'e' ∷ b't' ∷ b'c' ∷ b'/' ∷ b's' ∷ b'o' ∷ b'c' ∷ b'k' ∷ b's' ∷ b'/' ∷ b's' ∷ b'o' ∷ b'c'
    ∷ b'k' ∷ b's' ∷ b'.' ∷ b'c' ∷ b'o' ∷ b'n' ∷ b'f' ∷ 0 ∷ []

-- "-c" or "--config"
unfoldable pub is_config_flag : List ℕ → Bool
is_config_flag arg =
    str_eq (c_string arg) (b'-' ∷ b'c' ∷ [])
    || str_eq (c_string arg) (b'-' ∷ b'-' ∷ b'c' ∷ b'o' ∷ b'n' ∷ b'f' ∷ b'i' ∷ b'g' ∷ [])

-- The loop of get_argumetns over the arguments that are left. argv ends with a null pointer, which
-- becomes the path where the flag is the last argument.
unfoldable pub read_arguments : Option (List ℕ) → List (List ℕ) → Option (List ℕ)
read_arguments path [] = path
read_arguments path (arg ∷ []) = if is_config_flag arg then none else path
read_arguments path (arg ∷ value ∷ args) =
    let taken = read_arguments (some value) args in
    let passed = read_arguments path (value ∷ args) in if is_config_flag arg then taken else passed

-- get_argumetns, with the arguments behind argv[0]
unfoldable pub get_arguments : List (List ℕ) → Option (List ℕ)
get_arguments args = read_arguments (some default_path) args

-- The addresses of the code of the server's handlers.
pub record Codes : Type 0 where
  pub accept_handler : ℕ
  pub server_destroy_handler : ℕ
  pub recv_handler : ℕ
  pub send_handler : ℕ
  pub destroy_handler : ℕ
  pub check_client_status : ℕ

-- create_client_context and ss_context_initialize
unfoldable pub create_client_context : (ℕ → List ℕ) → Config → Context
create_client_context malloc config = context_initialize malloc config

-- accept_handler: the connection, and the context that malloc put at `at`
unfoldable pub accept_handler :
    Codes → (ℕ → List ℕ) → ℕ → Config → Connection → Bool × Connection × Context
accept_handler codes malloc at config c = (
  true,
  record c {
    context = at;
    recv_handler = codes.recv_handler;
    send_handler = codes.send_handler;
    destroy_handler = codes.destroy_handler;
    check_status = codes.check_client_status;
  },
  create_client_context malloc config,
)

-- release_client_context and ss_context_uninitialize: what the context holds when it is freed
unfoldable pub release_client_context : Context → Context
release_client_context c = record c {
  read_buffer = RingBuffer.uninitialize c.read_buffer;
  write_buffer = RingBuffer.uninitialize c.write_buffer;
  auth = auth_context_initialize;
}

module _ (program : Program) where
  -- ss_network_prepare: whether epoll_create succeeded is `created`; malloc gives the sentinels of
  -- the list at `head` and `tail`.
  unfoldable pub network_prepare : Bool → ℕ → ℕ → Network program → Option (Bool × Network program)
  network_prepare created head tail net =
      let prepared : Option (Bool × Network program) = do
        (nodes, item_list) ← LinkedList.initialize net.nodes head tail
        some (true, record net { nodes = nodes; item_list = item_list })
      in if created then prepared else some (false, net)

  -- What socks5_start writes into the listening item at `at`.
  unfoldable pub set_handlers : Codes → ℕ → Network program → ℕ → Option (Network program)
  set_handlers codes config_at net at = do
    item ← item_at program net at
    elim item.body [
      | listening l ↦ some (record net {
        items = put_item net.items at (
            some (record item {
              body = listening (record l {
                context = config_at;
                accept_handler = codes.accept_handler;
                destroy_handler = codes.server_destroy_handler;
              });
            }));
      })
      | _ ↦ none
    ]

  -- socks5_start from the listening socket on, with the configuration at `config_at`; the result is
  -- whether it returns 0.
  unfoldable pub listen_for_clients :
      Codes → ℕ → ℕ → ℕ → Network program → Option (Bool × Network program)
  listen_for_clients codes address config_at at net = do
    (net', item) ← network_listen program net at sock_stream address
    let ready : Option (Bool × Network program) = do
      net'' ← set_handlers codes config_at net' item
      some (true, net'')
    if item == 0 then some (false, net') else ready

  -- test_server_start of src/server/test_server.c, where ss_testing_start, which leaves the network
  -- alone, gives the server at `server_at`: it sets the same fields of its listening item.
  unfoldable pub test_server_start :
      Codes → ℕ → ℕ → ℕ → Network program → Option (Bool × Network program)
  test_server_start codes address server_at at net = do
    (net', item) ← network_listen program net at sock_stream address
    let ready : Option (Bool × Network program) = do
      net'' ← set_handlers codes server_at net' item
      some (true, net'')
    if item == 0 then some (false, net') else ready

  module _ (tree : Tree (List ℕ)) (fuel : ℕ) (files : Files) (rc : ℕ) (username password : List ℕ)
      (rounds : ℕ) (key value : List ℕ) (uninitialised : LoadedConfig tree) where
    -- ss_load_config with what its variables hold; open() of a null path fails.
    abbrev pub load_from : Option (List ℕ) → Option (Option (LoadedConfig tree))
    load_from none = some none
    load_from (some path) =
        load_config tree fuel files rc username password rounds key value uninitialised path

    -- socks5_start
    unfoldable pub socks5_start :
        Codes
        → ℕ
        → ℕ
        → ℕ
        → List (List ℕ)
        → Network program
        → Option (Bool × Option (LoadedConfig tree) × Network program)
    socks5_start codes address config_at at args net = do
      loaded ← load_from (get_arguments args)
      elim loaded [
        | none ↦ some (false, none, net)
        | some config ↦ do
          (started, net') ← listen_for_clients codes address config_at at net
          some (started, some config, net')
      ]

    -- main of src/main.c up to ss_network_main_loop: whether it gets there. The test server has its
    -- handlers at `test_codes` and its item at `test_at`.
    unfoldable pub main_start :
        Bool
        → ℕ
        → ℕ
        → Codes
        → ℕ
        → ℕ
        → ℕ
        → Codes
        → ℕ
        → ℕ
        → ℕ
        → List (List ℕ)
        → Network program
        → Option (Bool × Option (LoadedConfig tree) × Network program)
    main_start created head tail test_codes test_address server_at test_at codes address config_at
          at args net =
        do
          (prepared, net1) ← network_prepare created head tail net
          let tested : Option (Bool × Option (LoadedConfig tree) × Network program) = do
            (up, net2) ← test_server_start test_codes test_address server_at test_at net1
            let served = socks5_start codes address config_at at args net2
            if up then served else some (false, none, net2)
          if prepared then tested else some (false, none, net1)
