-- ===== src/RingBuffer.antt =====
-- src/util/ss_ring_buffer.h and src/util/ss_ring_buffer.c: the ring buffer of bytes that carries
-- every connection's input and output. The memory operations; the socket calls are in `Stream`.
-- An operation that reads into `dest` returns the bytes that it copies there; `dest` is false
-- where the caller passes a null pointer.
pub mod Contents
pub mod Read
pub mod Steal
pub mod Write
pub mod Stream
mod Tests
use simple_socks.Common.{
  ℕ, ◌+◌, ◌-◌, ◌%◌, Bool, true, false, Option, none, some, List, [], ◌∷◌, ◌++◌, ltb, ◌==◌,
  if◌then◌else◌, not, ◌>>=◌, copy_from, copy_to, rem, ℤ, minus_one, add_size, sub_size, to_ssize,
  length,
}

pub record Ring : Type 0 where
  pub buffer : List ℕ
  pub offset : ℕ
  pub length : ℕ
  pub capacity : ℕ

-- ss_ring_buffer_reset
unfoldable pub reset : Ring → Ring
reset r = record r { offset = 0; length = 0 }

-- ss_ring_buffer_initialize, with the memory that malloc(capacity) returns.
unfoldable pub initialize : List ℕ → ℕ → Ring
unfolding reset
initialize storage capacity =
    reset (record { buffer = storage; offset = 0; length = 0; capacity = capacity })

-- ss_ring_buffer_uninitialize: the null buffer is the empty list.
unfoldable pub uninitialize : Ring → Ring
unfolding reset
uninitialize r = reset (record r { buffer = []; capacity = 0 })

-- ss_ring_buffer_free_size
unfoldable pub free_size : Ring → ℕ
free_size r = sub_size r.capacity r.length

-- offset = (offset + n) % capacity; length -= n
unfoldable pub advance : Ring → ℕ → Option Ring
advance r n = do
  offset ← rem (add_size r.offset n) r.capacity
  some (record r { offset = offset; length = sub_size r.length n })

-- The first `n` bytes up to the end of the memory.
unfoldable pub first_part : ℕ → ℕ → ℕ → ℕ
first_part capacity offset n =
    if ltb capacity (add_size offset n) then sub_size capacity offset else n

-- ss_ring_buffer_read_fixed
unfoldable pub read_fixed : Bool → Ring → ℕ → Option (ℤ × List ℕ × Ring)
read_fixed dest src fixed_size =
    if ltb src.length fixed_size
    then some (minus_one, [], src)
    else if not dest
    then (do src' ← advance src fixed_size; some (to_ssize fixed_size, [], src'))
    else let nbytes = first_part src.capacity src.offset fixed_size in
      if nbytes == 0 then some (to_ssize fixed_size, [], src) else do
        part ← copy_from src.buffer src.offset nbytes
        src' ← advance src nbytes
        let rest = sub_size fixed_size nbytes
        if rest == 0 then some (to_ssize fixed_size, part, src') else do
          part' ← copy_from src'.buffer src'.offset rest
          src'' ← advance src' rest
          some (to_ssize fixed_size, part ++ part', src'')

-- ss_ring_buffer_steal_fixed
unfoldable pub steal_fixed : Bool → Ring → ℕ → ℕ → Option (ℤ × List ℕ)
steal_fixed dest src offset fixed_size =
    if ltb src.length (add_size offset fixed_size)
    then some (minus_one, [])
    else if not dest
    then some (to_ssize fixed_size, [])
    else do
      start ← rem (add_size src.offset offset) src.capacity
      let nbytes = first_part src.capacity start fixed_size
      if nbytes == 0 then some (to_ssize fixed_size, []) else do
        part ← copy_from src.buffer start nbytes
        start' ← rem (add_size start nbytes) src.capacity
        let rest = sub_size fixed_size nbytes
        if rest == 0 then some (to_ssize fixed_size, part) else do
          part' ← copy_from src.buffer start' rest
          some (to_ssize fixed_size, part ++ part')

-- ss_ring_buffer_write_fixed. The second part does not add to the length.
unfoldable pub write_fixed : Ring → List ℕ → ℕ → Option (ℤ × Ring)
write_fixed dest src fixed_size =
    if ltb dest.capacity (add_size dest.length fixed_size) then some (minus_one, dest) else do
      offset ← rem (add_size dest.offset dest.length) dest.capacity
      let nbytes = first_part dest.capacity offset fixed_size
      if nbytes == 0 then some (to_ssize fixed_size, dest) else do
        part ← copy_from src 0 nbytes
        buffer ← copy_to dest.buffer offset part
        let dest' = record dest { buffer = buffer; length = add_size dest.length nbytes }
        let rest = sub_size fixed_size nbytes
        if rest == 0 then some (to_ssize fixed_size, dest') else do
          part' ← copy_from src nbytes rest
          buffer' ← copy_to dest'.buffer 0 part'
          some (to_ssize fixed_size, record dest' { buffer = buffer' })

abbrev pub min_size : ℕ → ℕ → ℕ
min_size x y = if ltb x y then x else y

-- ss_ring_buffer_read
unfoldable pub read : Bool → Ring → ℕ → Option (ℤ × List ℕ × Ring)
read dest src max_size = read_fixed dest src (min_size src.length max_size)

-- ss_ring_buffer_steal
unfoldable pub steal : Bool → Ring → ℕ → ℕ → Option (ℤ × List ℕ)
steal dest src offset max_size =
    if ltb src.length offset
    then some (to_ssize 0, [])
    else steal_fixed dest src offset (min_size (sub_size src.length offset) max_size)

-- ss_ring_buffer_write
unfoldable pub write : Ring → List ℕ → ℕ → Option (ℤ × Ring)
write dest src max_size =
    write_fixed dest src (min_size (sub_size dest.capacity dest.length) max_size)
