-- ===== src/LinkedList/Tests.antt =====
-- Runs of the linked list, and the theorems at concrete lists.
use simple_socks.Common.{◌≡◌, refl, none, some, List, [], ◌∷◌, ◌==◌, if◌then◌else◌, arith, Succeeds}
use simple_socks.LinkedList.{Store, LinkedList, node, uninitialize}
use simple_socks.LinkedList.Chain.{IsList, all_nodes}
use simple_socks.LinkedList.Walk.{Freed, owned, uninitialize-Freed}
use simple_socks.LinkedList.Deque.{
  Command, to_back, to_front, in_front, pop_front, take_out, delete, count, act,
}
use simple_socks.LinkedList.Refines.{perform_all, AllFit, perform_all-act_all}

abbrev ends : LinkedList
ends = record { head = 1; tail = 2 }

-- An empty list, and a node outside of it.
abbrev memory : Store
memory p =
    if p == 1
    then some (node 0 0 2)
    else if p == 2
    then some (node 0 1 0)
    else if p == 3
    then some (node 7 0 0)
    else none

memory-IsList : IsList ends memory []
memory-IsList = record {
  links = (refl, (refl, tt));
  distinct = (ground arith, refl, (ground arith, refl, tt));
}

abbrev calls : List Command
calls =
    to_back 4 40
    ∷ to_front 5 50
    ∷ in_front 4 6 60
    ∷ count
    ∷ pop_front
    ∷ delete 4
    ∷ take_out 6
    ∷ pop_front
    ∷ []

calls-AllFit : AllFit 9 ends [] calls
unfolding act
calls-AllFit = (
  (ground arith, refl),
  (
    (ground arith, refl),
    ((ground arith, refl, refl), (ground arith, (tt, (refl, (refl, (tt, tt)))))),
  ),
)

perform_all-act_all_example :
    Succeeds
      (λ (g, rs). IsList ends g [] × (rs ≡ (4 ∷ 5 ∷ 6 ∷ 3 ∷ 5 ∷ 0 ∷ 0 ∷ 0 ∷ [])))
      (perform_all 9 ends memory calls)
unfolding act
perform_all-act_all_example = perform_all-act_all 9 ends memory [] calls memory-IsList calls-AllFit

uninitialize-Freed_example :
    Succeeds
      (λ (g, released). Freed memory (all_nodes ends []) g × (released ≡ owned []))
      (uninitialize 4 memory ends)
uninitialize-Freed_example = uninitialize-Freed 4 memory ends [] memory-IsList (ground arith)
