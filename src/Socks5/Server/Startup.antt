-- ===== src/Socks5/Server/Startup.antt =====
-- From ss_network_prepare to the listening item of socks5_start.
use simple_socks.Common.{
  ℕ, ◌≡◌, refl, sym, subst, ◌∙◌, ◌≢◌, ◌⊎◌, inl, inr, Bool, true, false, Option, none, some, [],
  ◌==◌, if◌then◌else◌, ◌>>=◌, arith, ne→==, ==_refl, Succeeds, Succeeds-bind,
}
use simple_socks.LinkedList.Chain.{Items}
use simple_socks.LinkedList.Walk.{initialize-IsList}
use simple_socks.Network.{
  Listening, listening, Item, Program, Network, item_at, item_create, item_delete,
  listening_initialize, put_item,
}
use simple_socks.Network.Open.{network_listen, drop_opened, opened, opened_fd}
use simple_socks.Network.Listed.{Owned-frame, owner}
use simple_socks.Network.Handle.{Registered}
use simple_socks.Network.Loop.{Listens}
use simple_socks.Socks5.Server.Start.{
  Codes, sock_stream, network_prepare, set_handlers, listen_for_clients,
}

opened-cases :
    {A : Type 0} {P : A → Type 0} (result : Option ℕ) (ready : Bool)
    {unopened failed done : Option A}
    → Succeeds P unopened
    → Succeeds P failed
    → Succeeds P done
    → Succeeds P (opened result ready unopened failed done)
opened-cases none ready u f d = u
opened-cases (some fd) true u f d = d
opened-cases (some fd) false u f d = f

module _ (program : Program) where
  -- The item at `at` listens, with the handlers of the server and its configuration.
  pub record Serves (codes : Codes) (config_at : ℕ) (net : Network program) (at : ℕ) : Type 0 where
    pub listens : Listens program net at
    pub accepts : listens.item.accept_handler ≡ codes.accept_handler
    pub destroys : listens.item.destroy_handler ≡ codes.server_destroy_handler
    pub configured : listens.item.context ≡ config_at

  -- A network whose memory is as before but at an address that was free.
  pub Registered-beside :
      (net net' : Network program) (xs : Items) (at : ℕ)
      → Registered program net xs
      → net.items at ≡ none
      → net'.nodes ≡ net.nodes
      → net'.item_list ≡ net.item_list
      → ((p : ℕ) → p ≢ at → net'.items p ≡ net.items p)
      → Registered program net' xs
  Registered-beside net net' xs at r free nodes list same = record {
    list = rw (nodes, list) r.list;
    owned =
        Owned-frame net.items net'.items xs r.owned
          λ p i. let (a, c, held, _, _) = owner net.items p xs r.owned i in same p (λ e. cc);
  }

  -- ss_network_prepare, where epoll_create succeeds and malloc gives fresh sentinels, leaves an empty
  -- list of connections.
  pub network_prepare-Registered :
      (head tail : ℕ) (net : Network program)
      → head ≢ 0
      → tail ≢ 0
      → head ≢ tail
      → Succeeds
          (λ (prepared, net').
            (prepared ≡ true) × Registered program net' [] × (net'.items ≡ net.items))
          (network_prepare program true head tail net)
  unfolding network_prepare
  network_prepare-Registered head tail net h t ne =
      let (made, runs, (list, _, _)) = initialize-IsList net.nodes head tail h t ne in
      rw runs (_, refl, (refl, record { list = list; owned = tt }, refl))

  -- What a change of the memory at one address leaves.
  pub record Beside (net net' : Network program) (at : ℕ) : Type 0 where
    pub nodes_eq : net'.nodes ≡ net.nodes
    pub list_eq : net'.item_list ≡ net.item_list
    pub items_eq : (p : ℕ) → p ≢ at → net'.items p ≡ net.items p

  drop_opened-Beside :
      (net : Network program) (at fd : ℕ) (item : Item)
      → at ≢ 0
      → net.items at ≡ some item
      → Succeeds
          (λ (net', result). (result ≡ 0) × Beside net net' at)
          (drop_opened program net at fd)
  unfolding drop_opened item_delete item_at
  drop_opened-Beside net at fd item ne here =
      rw (ne→== at 0 ne, here)
        (
          _,
          refl,
          (
            refl,
            record { nodes_eq = refl; list_eq = refl; items_eq = λ p apart. rw (ne→== p at apart) },
          ),
        )

  -- What ss_network_listen leaves: nothing, or a listening item.
  abbrev Opened : Network program → ℕ → Network program × ℕ → Type 0
  Opened net at (net', result) =
      Beside net net' at
      × ((result ≡ 0)
          ⊎ ((result ≡ at)
              × ((l : Listening) × (net'.items at
                    ≡ some (record { lnode = 0; body = listening l })))))

  network_listen-Opened :
      (net : Network program) (at kind address : ℕ)
      → at ≢ 0
      → Succeeds (Opened net at) (network_listen program net at kind address)
  unfolding network_listen item_create
  network_listen-Opened net at kind address ne =
      let result = (program.socket net.world kind address).0 in
      let world = (program.socket net.world kind address).1 in
      let fd = opened_fd result in
      let l : Listening = record listening_initialize { fd = fd; kind = kind; address = address } in
      let item : Item = record { lnode = 0; body = listening l } in
      let items = put_item net.items at (some item) in
      let here : items at ≡ some item = rw (==_refl at) in
      let beside : (w : program.World) → Beside net (record net { items = items; world = w }) at =
        λ w. record {
          nodes_eq = refl;
          list_eq = refl;
          items_eq = λ p apart. rw (ne→== p at apart);
        } in
      let dropped : (w : program.World)
          → Succeeds (Opened net at)
              (drop_opened program (record net { items = items; world = w }) at fd) =
        λ w.
          let ((net', r), runs, (r0, b)) =
            drop_opened-Beside (record net { items = items; world = w }) at fd item ne here in
          let b0 = beside w in
          (
            (net', r),
            runs,
            (
              record {
                nodes_eq = b.nodes_eq;
                list_eq = b.list_eq;
                items_eq = λ p apart. b.items_eq p apart ∙ b0.items_eq p apart;
              },
              inl r0,
            ),
          ) in
      let world1 = (program.epoll_add world fd).1 in
      let set_up = program.set_up_listening world1 fd address in
      let kept : Succeeds (Opened net at)
          (some (record net { items = items; world = set_up.1 }, at)) =
        (_, refl, (beside set_up.1, inr (refl, (l, here)))) in
      opened-cases result set_up.0 (dropped world1) (dropped set_up.1) kept

  module _ (codes : Codes) (address config_at at : ℕ) where
    -- socks5_start's end: no item, or one that serves.
    abbrev pub Ended : Network program → Bool × Network program → Type 0
    Ended net (ready, net') =
        Beside net net' at × ((ready ≡ false) ⊎ ((ready ≡ true) × Serves codes config_at net' at))

    abbrev finished : Network program → ℕ → Option (Bool × Network program)
    finished net' item =
        if item == 0
        then some (false, net')
        else (set_handlers program codes config_at net' item >>= λ net''. some (true, net''))

    finished-Ended :
        (net net' : Network program)
        → Beside net net' at
        → (l : Listening) → net'.items at ≡ some (record { lnode = 0; body = listening l })
        → at ≢ 0
        → Succeeds (Ended net) (finished net' at)
    unfolding set_handlers item_at
    finished-Ended net net' beside l here ne =
        rw (ne→== at 0 ne, here)
          (
            _,
            refl,
            (
              record {
                nodes_eq = beside.nodes_eq;
                list_eq = beside.list_eq;
                items_eq = λ p apart. rw (ne→== p at apart) (beside.items_eq p apart);
              },
              inr (
                refl,
                record {
                  listens = record {
                    lnode = 0;
                    item = record l {
                      context = config_at;
                      accept_handler = codes.accept_handler;
                      destroy_handler = codes.server_destroy_handler;
                    };
                    nonzero = ne;
                    in_memory = rw (==_refl at);
                  };
                  accepts = refl;
                  destroys = refl;
                  configured = refl;
                },
              ),
            ),
          )

    pub listen_for_clients-Ended :
        (net : Network program)
        → at ≢ 0
        → Succeeds (Ended net) (listen_for_clients program codes address config_at at net)
    unfolding listen_for_clients network_listen item_create set_handlers item_at
    listen_for_clients-Ended net ne =
        Succeeds-bind (network_listen-Opened net at sock_stream address ne)
          λ (net', r) (beside, outcome). elim outcome [
            | inl e ↦
                let zero_ : (r == 0) ≡ true = ground arith in rw zero_ (_, refl, (beside, inl refl))
            | inr (e, (l, here)) ↦
                subst (λ k. Succeeds (Ended net) (finished net' k)) (sym e)
                  (finished-Ended net net' beside l here ne)
          ]
