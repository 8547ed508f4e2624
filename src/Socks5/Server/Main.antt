-- ===== src/Socks5/Server/Main.antt =====
-- main of src/main.c up to the main loop: the test server and the server listen.
use simple_socks.Common.{ℕ, ◌≡◌, ◌⊎◌, Bool, true, false, some, List, [], Succeeds}
use simple_socks.StringMap.{Tree}
use simple_socks.Config.Load.{Files, LoadedConfig, load_config}
use simple_socks.Network.{Program, Network}
use simple_socks.Network.Handle.{Registered}
use simple_socks.Socks5.Server.Start.{Codes, get_arguments}
use simple_socks.Socks5.Server.Startup.{Serves}

-- The configuration at the path that the arguments name, if any, is loaded without a fault:
-- ss_load_config returns a configuration or a null pointer.
abbrev pub Loads :
    (tree : Tree (List ℕ)) (fuel : ℕ) (files : Files) (rc : ℕ) (username password : List ℕ)
    (rounds : ℕ) (key value : List ℕ) (uninitialised : LoadedConfig tree) (args : List (List ℕ))
    → Type 0
Loads tree fuel files rc username password rounds key value uninitialised args =
    (path : List ℕ)
    → get_arguments args ≡ some path
    → Succeeds (λ loaded. Unit {0})
        (load_config tree fuel files rc username password rounds key value uninitialised path)

module _ (program : Program) where
  -- The list of connections is empty and in order, and if main goes on, both servers listen.
  abbrev pub Started : Codes → ℕ → ℕ → Codes → ℕ → ℕ → Network program → Bool → Type 0
  Started test_codes server_at test_at codes config_at at net ready =
      Registered program net []
      × ((ready ≡ false)
          ⊎ ((ready ≡ true)
              × Serves program test_codes server_at net test_at
              × Serves program codes config_at net at))

  module _ (tree : Tree (List ℕ)) (fuel : ℕ) (files : Files) (rc : ℕ) (username password : List ℕ)
      (rounds : ℕ) (key value : List ℕ) (uninitialised : LoadedConfig tree)
      (args : List (List ℕ)) where
    abbrev AllLoads : Type 0
    AllLoads = Loads tree fuel files rc username password rounds key value uninitialised args
