-- ===== src/Callback.antt =====
-- src/network/ss_callback.c: the queue of callbacks, the heap in which the earliest is the greatest.
-- The queue holds the callbacks themselves in place of pointers. `W` is what the handlers change:
-- they are taken not to touch the queue.
pub mod Polling
pub mod Cleaning
pub mod Cleaned
mod Tests
use simple_socks.Common.{
  ℕ, zero, suc, ◌+◌, ◌-◌, ◌/◌, ◌%◌, ◌^◌, Bool, true, false, not, ◌&&◌, Option, none, some, List, [],
  ltb, leb, ◌==◌, if◌then◌else◌, ◌>>=◌, ℤ, pos, negsuc, load, store, add_size, to_ssize,
}
use simple_socks.Heap.{Heap, peak, pop, reconstruct}

-- SS_CALLBACK_*
pub data CallbackStatus : Type 0 where
  init success failed timeout cleaned : CallbackStatus

abbrev pub is_init : CallbackStatus → Bool
is_init init = true
is_init _ = false

abbrev pub is_cleaned : CallbackStatus → Bool
is_cleaned cleaned = true
is_cleaned _ = false

-- ss_callback_context_s. `has_handler` is whether the handler is not null, `tag` what it works on.
pub record Callback : Type 0 where
  pub has_handler : Bool
  pub status : CallbackStatus
  pub expire : ℕ
  pub tag : ℕ

-- The value of the field expire, a ss_timestamp_t
abbrev pub expiry : Callback → ℕ
expiry c = c.expire % 2 ^ 64

-- ss_callback_queue_comparartor
unfoldable pub comparator : Callback → Callback → ℤ
comparator c1 c2 =
    if ltb (expiry c1) (expiry c2)
    then pos 1
    else if ltb (expiry c2) (expiry c1)
    then negsuc 0
    else pos 0

-- SS_TIMESTAMP_MAX, as a ss_timestamp_t
abbrev pub timestamp_max : ℕ
timestamp_max = 2 ^ 64 - 1

-- (ss_time_t)n, of 64 bits and signed
abbrev pub to_time : ℕ → ℤ
to_time = to_ssize

-- ss_callback_initialize
unfoldable pub initialize : ℕ → Bool → ℕ → ℕ → Callback
initialize now has_handler tag timeout_after = record {
  has_handler = has_handler;
  status = init;
  expire = (now + timeout_after) % 2 ^ 64;
  tag = tag;
}

module _ {W : Type 0} (handler : Callback → W → W) where
  -- if (cb->handler) cb->handler(cb)
  abbrev pub handled : Callback → W → W
  handled c w = if c.has_handler then handler c w else w

  -- A round of the loop with the callback that ss_heap_peak shows.
  unfoldable pub poll_round :
      (Heap Callback → W → Option (ℤ × Heap Callback × W))
      → ℕ
      → Heap Callback
      → W
      → Option Callback
      → Option (ℤ × Heap Callback × W)
  poll_round next now h w none = some (to_time timestamp_max, h, w)
  poll_round next now h w (some c) =
      let dropped : Option (ℤ × Heap Callback × W) = pop h >>= λ (_, _, h'). next h' w in
      let run : Option (ℤ × Heap Callback × W) = pop h >>= λ (_, _, h'). next h' (handled c w) in
      if not (is_init c.status)
      then dropped
      else if leb (expiry c) now
      then run
      else some (to_time (expiry c - now), h, w)

  -- The loop of ss_callback_poll, with fuel: what it returns, the queue and the handlers' world.
  unfoldable pub poll_loop : ℕ → ℕ → Heap Callback → W → Option (ℤ × Heap Callback × W)
  poll_loop zero now h w = none
  poll_loop (suc fuel) now h w = do (_, top) ← peak h; poll_round (poll_loop fuel now) now h w top

  -- ss_callback_poll
  unfoldable pub poll : ℕ → Heap Callback → W → Option (ℤ × Heap Callback × W)
  poll now h w =
      if h.size == 0 then some (to_time timestamp_max, h, w) else poll_loop (suc h.size) now h w

  -- The first loop of ss_callback_clean, over the callbacks that are left: how many are cleaned.
  unfoldable pub clean_marks : ℕ → ℕ → ℕ → List Callback → ℕ → W → Option (ℕ × List Callback × W)
  clean_marks zero now i values j w = some (j, values, w)
  clean_marks (suc left) now i values j w = do
    c ← load values i
    marked ← store values i (record c { status = cleaned })
    let kept = clean_marks left now (suc i) values j w
    let dropped = clean_marks left now (suc i) marked (add_size j 1) w
    let run = clean_marks left now (suc i) marked (add_size j 1) (handled c w)
    if not (is_init c.status) then dropped else if leb (expiry c) now then run else kept

  -- The second: the callbacks that are not cleaned move to the front.
  unfoldable pub clean_moves : ℕ → ℕ → ℕ → List Callback → Option (ℕ × List Callback)
  clean_moves zero i j values = some (j, values)
  clean_moves (suc left) i j values = do
    c ← load values i
    moved ← store values j c
    clean_moves left (suc i) (if is_cleaned c.status then j else suc j)
        (if is_cleaned c.status then values else moved)

  -- ss_callback_clean
  unfoldable pub clean : ℕ → Heap Callback → W → Option (Heap Callback × W)
  clean now h w = do
    (j, marked, w') ← clean_marks h.size now 0 h.values 0 w
    if ltb j (h.size / 4) then some (record h { values = marked }, w') else do
      (size, values) ← clean_moves h.size 0 0 marked
      h' ← reconstruct (record h { values = values; size = size })
      some (h', w')

  -- ss_callback_register: the callback is created, and neither queued nor returned.
  unfoldable pub register : ℕ → Heap Callback → W → Option (Heap Callback × W)
  register now h w =
      if not (h.size == 0) && (h.size % 16384 == 0) then clean now h w else some (h, w)
