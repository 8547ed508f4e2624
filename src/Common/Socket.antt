-- ===== src/Common/Socket.antt =====
-- The sockets API, which the program calls and does not implement: recv() and send() on one file
-- descriptor, as a state with the documented behaviour of a stream.
use simple_socks.Common.{ℕ, ◌≤◌, ◌≡◌, Option, none, some, List, ◌++◌, length, take}

pub record Socket : Type 1 where
  -- What the kernel keeps for the descriptor.
  pub State : Type 0
  -- recv(fd, _, n, 0): the bytes received ([] at the end of the stream), or none for -1.
  pub recv : State → ℕ → Option (List ℕ) × State
  -- send(fd, _, length bs, _): how many bytes were taken, or none for -1.
  pub send : State → List ℕ → Option ℕ × State
  -- The bytes that are still to be received, and those that were sent, in order.
  pub pending : State → List ℕ
  pub sent : State → List ℕ

-- What the manual pages say of a stream socket.
pub record IsStream (s : Socket) : Type 0 where
  pub recv-le : (w : s.State) (n : ℕ) (bs : List ℕ) → (s.recv w n).0 ≡ some bs → length bs ≤ n
  pub recv-pending :
      (w : s.State) (n : ℕ) (bs : List ℕ)
      → (s.recv w n).0 ≡ some bs
      → s.pending w ≡ bs ++ s.pending (s.recv w n).1
  pub recv-failed :
      (w : s.State) (n : ℕ) → (s.recv w n).0 ≡ none → s.pending w ≡ s.pending (s.recv w n).1
  pub send-le : (w : s.State) (bs : List ℕ) (k : ℕ) → (s.send w bs).0 ≡ some k → k ≤ length bs
  pub send-sent :
      (w : s.State) (bs : List ℕ) (k : ℕ)
      → (s.send w bs).0 ≡ some k
      → s.sent (s.send w bs).1 ≡ s.sent w ++ take k bs
  pub send-failed :
      (w : s.State) (bs : List ℕ) → (s.send w bs).0 ≡ none → s.sent (s.send w bs).1 ≡ s.sent w
