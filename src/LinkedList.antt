-- ===== src/LinkedList.antt =====
-- The linked list, src/util/ss_linked_list.c: doubly linked nodes between two sentinels, in a store
-- that maps an address to the node it holds. Address 0 is the null pointer, and malloc's result is
-- an argument of the operations that call it.
pub mod Chain
pub mod Insert
pub mod Detach
pub mod Walk
pub mod Deque
pub mod Refines
mod Tests
use simple_socks.Common.{
  ℕ, zero, suc, ◌+◌, Bool, Option, none, some, List, [], ◌∷◌, ◌==◌, ◌||◌, if◌then◌else◌, ◌>>=◌,
}

-- linked_node_s
pub record Node : Type 0 where
  pub content : ℕ
  pub prev : ℕ
  pub next : ℕ

abbrev pub node : ℕ → ℕ → ℕ → Node
node d p n = record { content = d; prev = p; next = n }

abbrev pub Store : Type 0
Store = ℕ → Option Node

-- linked_list_s
pub record LinkedList : Type 0 where
  pub head : ℕ
  pub tail : ℕ

unfoldable pub with_node : Store → ℕ → Option Node → Store
with_node h p c a = if a == p then c else h a

-- *p, which faults at the null pointer and at memory that is not a node's
unfoldable pub deref : Store → ℕ → Option Node
deref h p = if p == 0 then none else h p

-- p->prev = q
unfoldable pub set_prev : Store → ℕ → ℕ → Option Store
set_prev h p q = do n ← deref h p; some (with_node h p (some (record n { prev = q })))

-- p->next = q
unfoldable pub set_next : Store → ℕ → ℕ → Option Store
set_next h p q = do n ← deref h p; some (with_node h p (some (record n { next = q })))

-- free(p)
unfoldable pub free : Store → ℕ → Option Store
free h p = do n ← deref h p; some (with_node h p none)

-- linked_node_create, where malloc gives the address `at`
unfoldable pub node_create : Store → ℕ → ℕ → Store
node_create h at d = with_node h at (some (node d 0 0))

-- `if (p) p->next = q` and `if (p) p->prev = q`
unfoldable pub link_next : Store → ℕ → ℕ → Option Store
link_next h p q = if p == 0 then some h else set_next h p q

unfoldable pub link_prev : Store → ℕ → ℕ → Option Store
link_prev h p q = if p == 0 then some h else set_prev h p q

-- linkde_node_detach
unfoldable pub node_detach : Store → ℕ → Option Store
node_detach h p = do
  n ← deref h p
  h1 ← link_next h n.prev n.next
  h2 ← link_prev h1 n.next n.prev
  h3 ← set_prev h2 p 0
  set_next h3 p 0

-- linked_node_insert_before
unfoldable pub insert_before : Store → ℕ → ℕ → Option Store
insert_before h p before = do
  b ← deref h before
  h1 ← link_next h b.prev p
  h2 ← set_prev h1 p b.prev
  h3 ← set_next h2 p before
  set_prev h3 before p

-- ss_linked_list_initialize, where malloc gives `head` and then `tail`
unfoldable pub initialize : Store → ℕ → ℕ → Option (Store × LinkedList)
initialize h head tail = do
  h1 ← set_next (node_create (node_create h head 0) tail 0) head tail
  h2 ← set_prev h1 tail head
  some (h2, record { head = head; tail = tail })

-- The loop of ss_linked_list_uninitialize: the store, and the data that were handed to the
-- function that releases them, in order.
unfoldable pub release_from : ℕ → Store → ℕ → Option (Store × List ℕ)
release_from zero h p = none
release_from (suc fuel) h p =
    let rest = do
      n ← deref h p
      h' ← free h p
      (h'', released) ← release_from fuel h' n.next
      some (h'', if n.content == 0 then released else n.content ∷ released)
    in if p == 0 then some (h, []) else rest

-- ss_linked_list_uninitialize
unfoldable pub uninitialize : ℕ → Store → LinkedList → Option (Store × List ℕ)
uninitialize fuel h l = release_from fuel h l.head

-- ss_linked_list_append
unfoldable pub append : Store → LinkedList → ℕ → ℕ → Option Store
append h l at d = insert_before (node_create h at d) at l.tail

-- ss_linked_list_prepend
unfoldable pub prepend : Store → LinkedList → ℕ → ℕ → Option Store
prepend h l at d = do
  head ← deref (node_create h at d) l.head
  insert_before (node_create h at d) at head.next

-- ss_linked_list_insert
unfoldable pub insert : Store → ℕ → ℕ → ℕ → Option Store
insert h before at d = insert_before (node_create h at d) at before

-- ss_linked_list_append_node
unfoldable pub append_node : Store → LinkedList → ℕ → Option Store
append_node h l p = insert_before h p l.tail

-- ss_linked_list_prepend_node
unfoldable pub prepend_node : Store → LinkedList → ℕ → Option Store
prepend_node h l p = insert_before h p l.head

-- ss_linked_list_insert_node
unfoldable pub insert_node : Store → ℕ → ℕ → Option Store
insert_node h before p = insert_before h p before

-- ss_linked_list_pop_node_front: the store and the node, or the null pointer
unfoldable pub pop_node_front : Store → LinkedList → Option (Store × ℕ)
pop_node_front h l = do
  head ← deref h l.head
  let popped = do h' ← node_detach h head.next; some (h', head.next)
  if (head.next == 0) || (head.next == l.tail) then some (h, 0) else popped

-- ss_linked_list_remove
unfoldable pub remove : Store → ℕ → Option Store
remove h p = do h' ← node_detach h p; free h' p

-- ss_linked_list_detach
unfoldable pub detach : Store → ℕ → Option Store
detach h p = node_detach h p

-- The loop of ss_linked_list_length, from `p` on.
unfoldable pub length_from : ℕ → Store → LinkedList → ℕ → Option ℕ
length_from zero h l p = none
length_from (suc fuel) h l p =
    let rest = do n ← deref h p; count ← length_from fuel h l n.next; some (count + 1)
    in if (p == 0) || (p == l.tail) then some 0 else rest

-- ss_linked_list_length
unfoldable pub list_length : ℕ → Store → LinkedList → Option ℕ
list_length fuel h l = do head ← deref h l.head; length_from fuel h l head.next
