-- ===== src/Callback/Tests.antt =====
-- The theorem at a concrete queue.
use simple_socks.Common.{ℕ, zero, suc, refl, true, List, [], ◌∷◌, ◌++◌, arith, Succeeds}
use simple_socks.Heap.{Heap}
use simple_socks.Heap.Queue.{IsValid, IsHeap}
use simple_socks.Callback.{Callback, CallbackStatus, comparator, poll, clean}
use simple_socks.Callback.Cleaned.{Cleaned, clean-Cleaned}
use simple_socks.Callback.Polling.{rank, comparator-Ranks, Polled, poll-Polled}

-- A callback that is due at 5, and one that is due at 9.
abbrev due : ℕ → Callback
due time = record { has_handler = true; status = CallbackStatus.init; expire = time; tag = time }

abbrev queue : Heap Callback
queue = record {
  values = due 5 ∷ due 9 ∷ due 0 ∷ due 0 ∷ [];
  size = 2;
  capacity = 4;
  comparator = comparator;
}

-- A handler that notes the callback's tag.
abbrev note : Callback → List ℕ → List ℕ
note c w = w ++ c.tag ∷ []

queue-IsValid : IsValid rank (due 0) queue
queue-IsValid = record {
  storage = refl;
  positive = omega arith;
  within = omega arith;
  ranks = comparator-Ranks;
}

queue-IsHeap : IsHeap rank (due 0) queue
queue-IsHeap zero p q r = absurd (omega arith)
queue-IsHeap (suc zero) p q r = omega arith
queue-IsHeap (suc (suc c)) p q r = absurd (omega arith)

poll-Polled_example : Succeeds (Polled note (due 0) 6) (poll note 6 queue [])
poll-Polled_example = poll-Polled note (due 0) 6 queue [] queue-IsValid queue-IsHeap (omega arith)

clean-Cleaned_example : Succeeds (Cleaned note (due 0) 6 queue []) (clean note 6 queue [])
clean-Cleaned_example =
    clean-Cleaned note (due 0) 6 queue [] queue-IsValid queue-IsHeap (omega arith)
