-- ===== src/RingBuffer/Stream.antt =====
-- src/util/ss_ring_buffer.c: the operations that call recv() and send(), over a socket `s`, and
-- the ss_*_via_buffer functions on top of them.
pub mod Receive
pub mod Send
pub mod Via
use simple_socks.Common.{
  ℕ, zero, suc, ◌+◌, ◌-◌, Bool, true, false, Option, none, some, List, [], ltb, ◌==◌, if◌then◌else◌,
  not, ◌>>=◌, copy_from, copy_to, rem, ℤ, is_nonpos, size_mod, add_size, sub_size, to_ssize,
  of_ssize, length,
}
use simple_socks.Common.IoError.{IoError, ok, again, error, overflow, is_ok}
use simple_socks.Common.Socket.{Socket}
use simple_socks.RingBuffer.{Ring, advance, first_part, min_size, steal, write_fixed}

-- if (a > b) a = b;
abbrev pub cap_at : ℕ → ℕ → ℕ
cap_at a b = if ltb b a then b else a

abbrev pub chunk_size : ℕ
chunk_size = 512

-- How many bytes one round of the loop of ss_ring_buffer_send offers.
unfoldable pub send_size : Ring → ℕ → ℕ
send_size r total = cap_at (first_part r.capacity r.offset (min_size r.length chunk_size)) total

module _ (s : Socket) where
  -- The test of handle_recv_result, the value of recv() as a size_t, the buffer and the socket.
  abbrev pub Fill : Type 0
  Fill = Bool × ℕ × Ring × s.State

  -- recv() writes at `offset`; handle_recv_result counts the bytes in.
  unfoldable pub handle_recv_result : Ring → ℕ → ℕ → Option (List ℕ) → s.State → Option Fill
  handle_recv_result r offset desired none w = some (false, size_mod - 1, r, w)
  handle_recv_result r offset desired (some bs) w = do
    buffer ← copy_to r.buffer offset bs
    let r' = record r { buffer = buffer; length = add_size r.length (length bs) }
    if length bs == 0
        then some (false, 0, r, w)
        else some (not (ltb (length bs) desired), length bs, r', w)

  unfoldable pub fill : s.State → Ring → ℕ → ℕ → Option Fill
  fill w r offset n = let (res, w') = s.recv w n in handle_recv_result r offset n res w'

  -- The first recv() call: behind the contents, up to the end of the memory. Where it is skipped,
  -- `recv_ret` stays as it is.
  unfoldable pub recv_first : ℕ → s.State → Ring → ℕ → Option Fill
  recv_first recv_ret w r total =
      let offset = add_size r.offset r.length in
      if ltb offset r.capacity
      then fill w r offset (cap_at (sub_size r.capacity offset) total)
      else some (true, recv_ret, r, w)

  -- The second: from the start of the memory, up to the contents.
  unfoldable pub recv_second : s.State → Ring → ℕ → Option Fill
  recv_second w r total = do
    offset ← rem (add_size r.offset r.length) r.capacity
    if ltb offset r.offset
        then fill w r offset (cap_at (sub_size r.offset offset) total)
        else some (true, 0, r, w)

  -- ss_ring_buffer_recv. `stale` is what the uninitialised `recv_ret` holds.
  unfoldable pub recv : ℕ → s.State → Ring → ℕ → Option (ℤ × Ring × s.State)
  recv stale w r max_size =
      if max_size == 0 then some (to_ssize (sub_size r.length r.length), r, w) else do
        (more, recv_ret, r', w') ← recv_first stale w r max_size
        let total = sub_size max_size recv_ret
        let end = some (to_ssize (sub_size r'.length r.length), r', w')
        if not more then end else if total == 0 then end else do
          (_, _, r'', w'') ← recv_second w' r' total
          some (to_ssize (sub_size r''.length r.length), r'', w'')

  -- After send(): break on an error or on 0, else go on with the rest of the loop.
  unfoldable pub send_taken :
      (s.State → Ring → ℕ → Option (Ring × s.State))
      → Ring
      → ℕ
      → Option ℕ
      → s.State
      → Option (Ring × s.State)
  send_taken loop r total none w = some (r, w)
  send_taken loop r total (some zero) w = some (r, w)
  send_taken loop r total (some (suc k)) w = do
    r' ← advance r (suc k)
    loop w r' (sub_size total (suc k))

  -- The loop of ss_ring_buffer_send, with fuel.
  unfoldable pub send_loop : ℕ → s.State → Ring → ℕ → Option (Ring × s.State)
  send_loop zero w r total = none
  send_loop (suc fuel) w r total =
      let round : Option (Ring × s.State) = do
        part ← copy_from r.buffer r.offset (send_size r total)
        let (res, w') = s.send w part
        send_taken (send_loop fuel) r total res w'
      in if total == 0 then some (r, w) else round

  -- ss_ring_buffer_send
  unfoldable pub send : s.State → Ring → ℕ → Option (ℤ × Ring × s.State)
  send w r max_size = do
    (r', w') ← send_loop (suc max_size) w r max_size
    some (to_ssize (sub_size r.length r'.length), r', w')

  -- The end of ss_recv_via_buffer: the bytes are copied out, if the caller wants them.
  unfoldable pub deliver :
      Bool → Ring → ℕ → ℕ → s.State → Option (IoError × List ℕ × Ring × s.State)
  deliver false r offset size w = some (ok, [], r, w)
  deliver true r offset size w = do
    (k, bs) ← steal true r offset size
    some ((if of_ssize k == size then ok else error), bs, r, w)

  -- ss_recv_via_buffer
  unfoldable pub recv_via_buffer :
      ℕ → s.State → Bool → Ring → ℕ → ℕ → Option (IoError × List ℕ × Ring × s.State)
  recv_via_buffer stale w dest r offset size =
      let expected = add_size offset size in
      if ltb r.capacity expected
      then some (overflow, [], r, w)
      else if not (ltb r.length expected)
      then deliver dest r offset size w
      else do
        (k, r', w') ← recv stale w r (sub_size expected r.length)
        if is_nonpos k then some (again, [], r', w') else deliver dest r' offset size w'

  -- ss_recv_via_buffer_auto_inc, with the offset that it leaves.
  unfoldable pub recv_via_buffer_auto_inc :
      ℕ → s.State → Bool → Ring → ℕ → ℕ → Option (IoError × List ℕ × ℕ × Ring × s.State)
  recv_via_buffer_auto_inc stale w dest r offset size = do
    (rc, bs, r', w') ← recv_via_buffer stale w dest r offset size
    some (rc, bs, (if is_ok rc then add_size offset size else offset), r', w')

-- ss_send_via_buffer
unfoldable pub send_via_buffer : Ring → List ℕ → ℕ → Option (IoError × Ring)
send_via_buffer r src size =
    if ltb r.capacity size
    then some (again, r)
    else do (k, r') ← write_fixed r src size; some ((if of_ssize k == size then ok else error), r')
