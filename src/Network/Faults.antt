-- ===== src/Network/Faults.antt =====
-- Where the network reads memory that is no item's or no node's.
use simple_socks.Common.{
  ℕ, zero, suc, ◌≡◌, refl, sym, ap, ◌∙◌, ◌≢◌, Bool, true, false, Option, none, some, [], ◌∷◌, ◌==◌,
  arith, Option-cases, ◌⊎◌, inl, inr, some-injective, ne→==,
}
use simple_socks.LinkedList.{Store, deref, with_node, remove, node_detach, free}
use simple_socks.LinkedList.Chain.{Items, has-append}
use simple_socks.LinkedList.Insert.{deref-some}
use simple_socks.LinkedList.Refines.{remove-IsList}
use simple_socks.Network.{
  Connection, connection, Program, Network, item_at, item_close, item_delete, item_create,
  connection_initialize,
}
use simple_socks.Network.Open.{network_connect, drop_opened, opened, opened_fd}
use simple_socks.Network.Main.{close_items, network_stop}
use simple_socks.Network.Listed.{linked}
use simple_socks.Network.Handle.{Registered}

deref-gone : (h : Store) (p : ℕ) → h p ≡ none → deref h p ≡ none
unfolding deref
deref-gone h p gone = ground arith

-- The node that ss_linked_list_remove removed is not in memory.
remove_gone : (h g : Store) (p : ℕ) → remove h p ≡ some g → g p ≡ none
unfolding remove free with_node
remove_gone h g p runs = elim (Option-cases (node_detach h p)) [
  | inl e ↦ let never : none ≡ some g = rw e at runs in ground arith
  | inr (h', e) ↦ elim (Option-cases (deref h' p)) [
    | inl e' ↦ let never : none ≡ some g = rw (e, e') at runs in ground arith
    | inr (n, e') ↦
        let same : some (with_node h' p none) ≡ some g = rw (e, e') at runs in
        ap (λ (k : Store). k p) (sym (some-injective _ _ same)) ∙ ground arith
  ]
]

opened-cases :
    {A : Type 0}
    → (result : Option ℕ) (ready : Bool) (unopened failed done out : A)
    → opened result ready unopened failed done ≡ out
    → (unopened ≡ out) ⊎ ((failed ≡ out) ⊎ (done ≡ out))
opened-cases none ready unopened failed done out e = inl e
opened-cases (some fd) true unopened failed done out e = inr (inr e)
opened-cases (some fd) false unopened failed done out e = inr (inl e)

remove-null : (h : Store) → remove h 0 ≡ none
unfolding remove node_detach deref
remove-null h = refl

module _ (program : Program) where
  -- ss_network_connect and ss_network_listen hand out no item where they fail.
  drop_opened-null :
      (net net' : Network program) (at fd p : ℕ)
      → drop_opened program net at fd ≡ some (net', p)
      → p ≡ 0
  unfolding drop_opened
  drop_opened-null net net' at fd p opens =
      elim (Option-cases (
        item_delete program
          (record net { world = program.close (program.epoll_del net.world fd).1 fd }) at)) [
            | inl e ↦ let never : none ≡ some (net', p) = rw e at opens in ground arith
            | inr (left, e) ↦
                let same : some (left, 0) ≡ some (net', p) = rw e at opens in
                ap (λ (k : Network program × ℕ). k.1) (sym (some-injective _ _ same))
          ]

  -- A connection that ss_network_connect opened has no node.
  network_connect-unlinked :
      (net net' : Network program) (at kind address : ℕ)
      → at ≢ 0
      → network_connect program net at kind address ≡ some (net', at)
      → (c : Connection) × (net'.items at ≡ some (linked 0 c))
  unfolding network_connect item_create
  network_connect-unlinked net net' at kind address at0 connects =
      let (result, world) = program.socket net.world kind address in
      let fd = opened_fd result in
      let c = record connection_initialize { fd = fd; kind = kind; address = address } in
      let (_, world1) = program.epoll_add world fd in
      let (ready, world2) = program.set_up_connection world1 fd address in
      let created = item_create program net at (connection c) in
      elim (opened-cases result ready
        (drop_opened program (record created { world = world1 }) at fd)
        (drop_opened program (record created { world = world2 }) at fd)
        (some (record created { world = world2 }, at)) (some (net', at)) connects) [
          | inl e ↦ absurd (at0 (drop_opened-null _ net' at fd at e))
          | inr (inl e) ↦ absurd (at0 (drop_opened-null _ net' at fd at e))
          | inr (inr e) ↦
              let same = some-injective _ _ e in
              (c, ap (λ (k : Network program × ℕ). k.0.items at) (sym same) ∙ ground arith)
        ]

  -- A connection that ss_network_connect opened has no node: ss_network_item_close reads the null
  -- pointer.
  pub item_close-network_connect :
      (net net' : Network program) (at kind address fd : ℕ)
      → at ≢ 0
      → network_connect program net at kind address ≡ some (net', at)
      → item_close program net' at fd ≡ none
  unfolding item_close item_at
  item_close-network_connect net net' at kind address fd at0 connects =
      let (c, here) = network_connect-unlinked net net' at kind address at0 connects in
      rw (ne→== at 0 at0, here, remove-null net'.nodes)

  -- ss_network_stop with a connection in the list reads the node of the connection after it was
  -- freed.
  pub network_stop-faults :
      (fuel : ℕ) (net : Network program) (a p : ℕ) (xs : Items)
      → Registered program net ((a, p) ∷ xs)
      → network_stop program fuel net ≡ none
  unfolding network_stop close_items item_close item_delete item_at
  network_stop-faults zero net a p xs registered =
      elim (Option-cases (deref net.nodes net.item_list.head)) [
        | inl e ↦ rw e refl
        | inr (n, e) ↦ rw e refl
      ]
  network_stop-faults (suc fuel) net a p xs registered =
      let (here, (at_a, _)) = registered.list.links in
      let (head0, _, (a0, a_out, _)) = registered.list.distinct in
      let (p0, (c, at_p), _, _) = registered.owned in
      let e = has-append a xs ((net.item_list.tail, 0) ∷ []) in
      let before_end : (a == net.item_list.tail) ≡ false = ground arith in
      let filled : (p == 0) ≡ false = ne→== p 0 p0 in
      let (nodes, runs, _) =
        remove-IsList 0 net.item_list net.nodes a ((a, p) ∷ xs) registered.list (ground arith) in
      let gone = remove_gone net.nodes nodes a runs in
      let none_left : deref nodes a ≡ none = deref-gone nodes a gone in
      rw (
        deref-some net.nodes net.item_list.head 0 0 a head0 here,
        before_end,
        deref-some net.nodes a p net.item_list.head _ a0 at_a,
        filled,
        at_p,
        runs,
        none_left,
      )
