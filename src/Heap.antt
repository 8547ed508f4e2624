-- ===== src/Heap.antt =====
-- src/util/ss_heap_def.h and src/util/ss_heap.c: a binary max heap in a growing array, over a
-- comparator. An access outside the array, or a loop that outlives its fuel, is `none`.
-- `malloc n` is the memory for n values that malloc returns, with whatever it holds.
pub mod Order
pub mod Array
pub mod Up
pub mod Down
pub mod Queue
pub mod Push
pub mod Pop
pub mod Reserve
mod Tests
use simple_socks.Common.{
  ℕ, zero, suc, ◌+◌, ◌-◌, ◌*◌, ◌/◌, ◌%◌, Bool, true, false, not, Option, none, some, List, load,
  store, copy_from, copy_to, ltb, leb, ◌==◌, if◌then◌else◌, ◌>>=◌, ℤ, is_neg, is_nonpos, add_size,
  sub_size, size_mod,
}

pub record Heap {ℓ} (A : Type ℓ) : Type ℓ where
  pub values : List A
  pub size : ℕ
  pub capacity : ℕ
  pub comparator : A → A → ℤ

abbrev pub default_capacity : ℕ
default_capacity = 4

-- n << 1 and n >> 1
abbrev pub shift_left : ℕ → ℕ
shift_left n = (n * 2) % size_mod

abbrev pub shift_right : ℕ → ℕ
shift_right n = n / 2

-- for (real_cap = DEFAULT_CAPACITY; real_cap < capacity; real_cap = real_cap << 1);
unfoldable pub real_capacity : ℕ → ℕ → ℕ → Option ℕ
real_capacity zero real_cap capacity = none
real_capacity (suc fuel) real_cap capacity =
    let next = real_capacity fuel (shift_left real_cap) capacity in
    if ltb real_cap capacity then next else some real_cap

module _ {ℓ} {A : Type ℓ} where
  -- tmp = values[i]; values[i] = values[j]; values[j] = tmp
  unfoldable pub swap : List A → ℕ → ℕ → Option (List A)
  swap values i j = do
    tmp ← load values i
    other ← load values j
    values' ← store values i other
    store values' j tmp

  module _ (comparator : A → A → ℤ) where
    -- The loop of ss_heap_push.
    unfoldable pub sift_up : ℕ → List A → ℕ → Option (List A)
    sift_up zero values i = none
    sift_up (suc fuel) values i =
        let ip = sub_size (shift_right (add_size i 1)) 1 in
        let rise : Option (List A) = swap values i ip >>= λ values'. sift_up fuel values' ip in
        let round : Option (List A) = do
          value ← load values i
          parent ← load values ip
          if is_nonpos (comparator value parent) then some values else rise
        in if i == 0 then some values else round

    -- The child that the loops of ss_heap_pop and ss_heap_reconstruct compare with, if any.
    unfoldable pub greater_child : List A → ℕ → ℕ → Option (Option ℕ)
    greater_child values size i =
        let ir = shift_left (add_size i 1) in
        let il = sub_size ir 1 in
        if ltb ir size
        then (do
          left ← load values il
          right ← load values ir
          some (some (if is_neg (comparator left right) then ir else il)))
        else if ltb il size
        then some (some il)
        else some none

    -- One round of the inner loop of ss_heap_pop and ss_heap_reconstruct, before the next ones.
    unfoldable pub sink : (List A → ℕ → Option (List A)) → List A → ℕ → Option ℕ → Option (List A)
    sink next values i none = some values
    sink next values i (some c) = do
      value ← load values i
      child ← load values c
      let lower : Option (List A) = swap values i c >>= λ values'. next values' c
      if not (is_neg (comparator value child)) then some values else lower

    unfoldable pub sift_down : ℕ → ℕ → List A → ℕ → Option (List A)
    sift_down zero size values i = none
    sift_down (suc fuel) size values i =
        greater_child values size i >>= sink (sift_down fuel size) values i

  -- ss_heap_initialize
  unfoldable pub initialize : (ℕ → List A) → (A → A → ℤ) → Heap A
  initialize malloc comparator = record {
    values = malloc default_capacity;
    size = 0;
    capacity = default_capacity;
    comparator = comparator;
  }

  -- The growth in ss_heap_push: the memory is doubled, and the old values are copied over.
  unfoldable pub grow : (ℕ → List A) → Heap A → Option (Heap A)
  grow malloc heap = do
    let new_capacity = shift_left heap.capacity
    old_values ← copy_from heap.values 0 heap.capacity
    new_values ← copy_to (malloc new_capacity) 0 old_values
    some (record heap { values = new_values; capacity = new_capacity })

  -- ss_heap_push
  unfoldable pub push : (ℕ → List A) → Heap A → A → Option (Bool × Heap A)
  push malloc heap value = do
    room ← if heap.size == heap.capacity then grow malloc heap else some heap
    values ← store room.values room.size value
    let size = add_size room.size 1
    if size == 1 then some (true, record room { values = values; size = size }) else do
      values' ← sift_up room.comparator size values (sub_size size 1)
      some (true, record room { values = values'; size = size })

  -- ss_heap_pop, with the value that is stored through a pointer that is not null.
  unfoldable pub pop : Heap A → Option (Bool × Option A × Heap A)
  pop heap = if heap.size == 0 then some (false, none, heap) else do
    top ← load heap.values 0
    let size = sub_size heap.size 1
    if size == 0 then some (true, some top, record heap { size = size }) else do
      last ← load heap.values size
      values ← store heap.values 0 last
      values' ← sift_down heap.comparator (suc size) size values 0
      some (true, some top, record heap { values = values'; size = size })

  -- ss_heap_peak
  unfoldable pub peak : Heap A → Option (Bool × Option A)
  peak heap =
      if heap.size == 0
      then some (false, none)
      else do top ← load heap.values 0; some (true, some top)

  -- The outer loop of ss_heap_reconstruct, over the rounds that are left.
  unfoldable pub sift_all : (A → A → ℤ) → ℕ → List A → ℕ → Option (List A)
  sift_all comparator size values zero = some values
  sift_all comparator size values (suc ii) = do
    values' ← sift_down comparator (suc size) size values ii
    sift_all comparator size values' ii

  -- ss_heap_reconstruct
  unfoldable pub reconstruct : Heap A → Option (Heap A)
  reconstruct heap = if leb heap.size 1 then some heap else do
    values ← sift_all heap.comparator heap.size heap.values (shift_right heap.size)
    some (record heap { values = values })

  -- The loop of ss_heap_foreach: the visitor may change the value, has a state, and may stop.
  unfoldable pub visit :
      {S : Type 0} → (A → S → Bool × A × S) → ℕ → ℕ → List A → S → Option (List A × S)
  visit visitor zero i values s = some (values, s)
  visit visitor (suc left) i values s = do
    value ← load values i
    let (more, value', s') = visitor value s
    values' ← store values i value'
    let rest = visit visitor left (suc i) values' s'
    if more then rest else some (values', s')

  -- ss_heap_foreach
  unfoldable pub foreach : {S : Type 0} → (A → S → Bool × A × S) → Heap A → S → Option (Heap A × S)
  foreach visitor heap s = do
    (values, s') ← visit visitor heap.size 0 heap.values s
    some (record heap { values = values }, s')

  -- ss_heap_reserve
  unfoldable pub reserve : (ℕ → List A) → Heap A → ℕ → Option (Heap A)
  reserve malloc heap capacity = do
    real_cap ← real_capacity 64 default_capacity capacity
    if leb real_cap heap.capacity then some heap else do
      old_values ← copy_from heap.values 0 heap.size
      new_values ← copy_to (malloc real_cap) 0 old_values
      some (record heap { values = new_values; capacity = real_cap })
