-- ===== src/Common/Script.antt =====
-- A socket to run the model with: it delivers a given list of bytes and keeps what is sent, at most
-- `burst` bytes in a call. It shows that the assumptions of `IsStream` can be met.
use simple_socks.Common.{
  ℕ, ◌≤◌, ◌≡◌, sym, ap, subst, min, Option, some, some-injective, List, ◌++◌, length, take, drop,
  length-take, take-append-drop, arith,
}
use simple_socks.Common.Socket.{Socket, IsStream}

pub record Script : Type 0 where
  pub incoming : List ℕ
  pub outgoing : List ℕ

abbrev recv : ℕ → Script → ℕ → Option (List ℕ) × Script
recv burst w n =
    let k = min n burst in (some (take k w.incoming), record w { incoming = drop k w.incoming })

abbrev send : ℕ → Script → List ℕ → Option ℕ × Script
send burst w bs =
    let k = min burst (length bs) in (some k, record w { outgoing = w.outgoing ++ take k bs })

abbrev pub script : ℕ → Socket
script burst = record {
  State = Script;
  recv = recv burst;
  send = send burst;
  pending = λ w. w.incoming;
  sent = λ w. w.outgoing;
}

pub script-IsStream : (burst : ℕ) → IsStream (script burst)
script-IsStream burst = record {
  recv-le = λ w n bs e.
      subst (λ bs. length bs ≤ n) (some-injective _ _ e)
        (omega (arith, length-take (min n burst) w.incoming));
  recv-pending = λ w n bs e.
      subst (λ bs. w.incoming ≡ bs ++ drop (min n burst) w.incoming) (some-injective _ _ e)
        (sym (take-append-drop (min n burst) w.incoming));
  recv-failed = λ w n e. cc;
  send-le = λ w bs k e. subst (λ k. k ≤ length bs) (some-injective _ _ e) (omega arith);
  send-sent = λ w bs k e. ap (λ k. w.outgoing ++ take k bs) (some-injective _ _ e);
  send-failed = λ w bs e. cc;
}
