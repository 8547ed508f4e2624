-- ===== src/Callback/Polling.antt =====
-- ss_callback_poll: which callbacks it leaves in the queue.
use simple_socks.Common.{
  ℕ, zero, suc, ◌-◌, ◌^◌, ◌<◌, ◌≡◌, refl, true, not, arith, leb, ◌==◌, if◌then◌else◌, get_or,
  Succeeds, Succeeds-if, ne→==, leb→gt, ℤ, minus_one,
}
use native.Mathlib.Decide.{ℕ_discrete}
use simple_socks.Heap.{Heap}
use simple_socks.Heap.Order.{Ranks}
use simple_socks.Heap.Queue.{IsValid, IsHeap, peak-greatest, peak-empty}
use simple_socks.Heap.Pop.{pop-Popped}
use simple_socks.Callback.{
  Callback, is_init, expiry, comparator, to_time, poll, poll_loop, poll_round,
}

-- The earlier a callback expires, the higher it ranks.
abbrev pub rank : Callback → ℕ
rank c = 2 ^ 64 - expiry c

pub comparator-Ranks : Ranks comparator rank
unfolding comparator
comparator-Ranks = record { is_neg_eq = λ x y. ground arith; is_nonpos_eq = λ x y. ground arith }

module _ {W : Type 0} (handler : Callback → W → W) (d : Callback) (now : ℕ) where
  -- What is left: a heap of callbacks that expire later than now, and what is returned is the time
  -- to the first of them as a signed number, or -1 where there is none.
  pub record Polled (result : ℤ × Heap Callback × W) : Type 0 where
    pub valid : IsValid rank d result.1
    pub heap : IsHeap rank d result.1
    pub later : (i : ℕ) → i < result.1.size → now < expiry (get_or result.1.values i d)
    pub next_timeout : result.0 ≡ (
        if result.1.size == 0
        then minus_one
        else to_time (expiry (get_or result.1.values 0 d) - now))

  poll_loop-Polled :
      (fuel : ℕ) (h : Heap Callback) (w : W)
      → IsValid rank d h
      → IsHeap rank d h
      → h.capacity < 2 ^ 62
      → h.size < fuel
      → Succeeds Polled (poll_loop handler fuel now h w)
  unfolding poll_loop poll_round
  poll_loop-Polled zero h w v o small enough = absurd (omega arith)
  poll_loop-Polled (suc fuel) h w v o small enough = elim (ℕ_discrete h.size 0) [
    | yes e ↦
        let nothing : (h.size == 0) ≡ true = ground arith in
        rw (peak-empty rank d h e) (
          _,
          refl,
          record {
            valid = v;
            heap = o;
            later = λ i p. absurd (omega arith);
            next_timeout = rw nothing;
          },
        )
    | no e ↦
        let (top, shows, greatest, root) = peak-greatest rank d h v o (omega arith) in
        let (top', h', pops, q) = pop-Popped rank d h v o (omega arith) small in
        let size_eq = q.size_eq in
        let capacity_eq = q.capacity_eq in
        let again =
          λ (w' : W). poll_loop-Polled fuel h' w' q.valid q.heap (omega arith) (omega arith) in
        rw (shows, pops)
          (Succeeds-if (not (is_init top.status)) (λ _. again w)
            λ _.
              Succeeds-if (leb (expiry top) now) (λ _. again _)
                λ late. (
                  _,
                  refl,
                  record {
                    valid = v;
                    heap = o;
                    later = λ i p.
                        let le = greatest i p in
                        let after = leb→gt (expiry top) now late in omega arith;
                    next_timeout = rw (ne→== h.size 0 e, root);
                  },
                ))
  ]

  -- ss_callback_poll on a heap of callbacks returns. What is left is a heap of callbacks that expire
  -- later than now, and the result is the time to the first of them as a signed 64-bit number, or
  -- where none is left -1, which is SS_TIMESTAMP_MAX as such a number.
  pub poll-Polled :
      (h : Heap Callback) (w : W)
      → IsValid rank d h
      → IsHeap rank d h
      → h.capacity < 2 ^ 62
      → Succeeds Polled (poll handler now h w)
  unfolding poll
  poll-Polled h w v o small =
      Succeeds-if (h.size == 0)
        (λ e. (
          _,
          refl,
          record { valid = v; heap = o; later = λ i p. absurd (ground arith); next_timeout = rw e },
        ))
        λ _. poll_loop-Polled (suc h.size) h w v o small (omega arith)
