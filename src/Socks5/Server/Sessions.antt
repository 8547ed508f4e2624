-- ===== src/Socks5/Server/Sessions.antt =====
-- A client from accept_handler on, over any number of readable events, src/server/socks5_server.c.
use simple_socks.Common.{
  ℕ, zero, suc, ◌<◌, ◌^◌, ◌≡◌, refl, sym, ap, subst, ◌∙◌, ◌≢◌, ◌⊎◌, inl, inr, Option, none, some,
  List, [], ◌∷◌, ◌>>=◌, arith, length, Succeeds, Succeeds-bind,
}
use simple_socks.Common.Socket.{Socket, IsStream}
use simple_socks.RingBuffer
use simple_socks.RingBuffer.{reset}
use simple_socks.RingBuffer.Contents.{IsValid}
use simple_socks.Socks5.{
  Config, Context, negotiating, dead, Process, auth_plain, context_initialize, client_kill,
}
use simple_socks.Socks5.Server.{Undefined, process_status, next_round, recv_handler}
use simple_socks.Socks5.Server.Loop.{recv_handler-Left}
use simple_socks.Socks5.Server.Start.{Codes, create_client_context, accept_handler}
use simple_socks.Network.{Connection}

-- A session that waits for its hello, with another method configured than that of user names and
-- passwords.
pub record Waits (c : Context) : Type 0 where
  pub status_eq : c.status ≡ negotiating
  pub read_valid : IsValid c.read_buffer
  pub write_valid : IsValid c.write_buffer
  pub method_ne : c.config.auth_method ≢ auth_plain

abbrev pub WaitsOrDead : Context → Type 0
WaitsOrDead c = Waits c ⊎ (c.status ≡ dead)

-- What the uninitialised retcode holds in each call: not SS_PROCESS_DONE.
abbrev pub NoneDone : List Process → Type 0
NoneDone [] = Unit
NoneDone (rc ∷ rcs) = (rc ≢ Process.done) × NoneDone rcs

initialize-IsValid :
    (storage : List ℕ) (capacity : ℕ)
    → length storage ≡ capacity
    → 0 < capacity
    → capacity < 2 ^ 62
    → IsValid (RingBuffer.initialize storage capacity)
unfolding RingBuffer.initialize reset
initialize-IsValid storage capacity size positive small = record {
  storage = size;
  small = small;
  offset_in = positive;
  length_in = omega arith;
}

accept_handler-Waits :
    (codes : Codes) (malloc : ℕ → List ℕ) (at : ℕ) (config : Config) (connection : Connection)
    → length (malloc 1024) ≡ 1024
    → config.auth_method ≢ auth_plain
    → Waits (accept_handler codes malloc at config connection).2
unfolding accept_handler create_client_context context_initialize
accept_handler-Waits codes malloc at config connection size other = record {
  status_eq = refl;
  read_valid = initialize-IsValid (malloc 1024) 1024 size (omega arith) (omega arith);
  write_valid = initialize-IsValid (malloc 1024) 1024 size (omega arith) (omega arith);
  method_ne = other;
}

module _ (s : Socket) (u : Undefined) where
  -- Readable events of one connection, each with what retcode holds.
  abbrev pub recv_calls : List Process → s.State → Context → Option (Context × s.State)
  recv_calls [] w c = some (c, w)
  recv_calls (rc ∷ rcs) w c = recv_handler s u 2 rc w c >>= λ (c', w'). recv_calls rcs w' c'

  dead-runs :
      (rc : Process) (w : s.State) (c : Context)
      → c.status ≡ dead
      → process_status s u c.status rc w c ≡ some (rc, c, w)
  unfolding process_status
  dead-runs rc w c e = rw e

  -- On a dead session, where retcode holds SS_PROCESS_DONE, recv_handler is never left.
  pub recv_handler-dead_stuck :
      (fuel : ℕ) (w : s.State) (c : Context)
      → c.status ≡ dead
      → recv_handler s u fuel Process.done w c ≡ none
  unfolding recv_handler next_round
  recv_handler-dead_stuck zero w c e = refl
  recv_handler-dead_stuck (suc fuel) w c e =
      rw (dead-runs Process.done w c e) (recv_handler-dead_stuck fuel w c e)

  recv_handler-dead :
      (rc : Process) (w : s.State) (c : Context)
      → rc ≢ Process.done
      → c.status ≡ dead
      → Succeeds (λ (c', w'). c'.status ≡ dead) (recv_handler s u 2 rc w c)
  unfolding recv_handler next_round client_kill
  recv_handler-dead Process.done w c ne e = absurd (ne refl)
  recv_handler-dead Process.again w c ne e = rw (dead-runs Process.again w c e) (_, refl, e)
  recv_handler-dead Process.error w c ne e = rw (dead-runs Process.error w c e) (_, refl, refl)

  module _ (stream : IsStream s) where
    recv_handler-WaitsOrDead :
        (rc : Process) (w : s.State) (c : Context)
        → rc ≢ Process.done
        → WaitsOrDead c
        → Succeeds (λ (c', w'). WaitsOrDead c') (recv_handler s u 2 rc w c)
    recv_handler-WaitsOrDead rc w c ne (inr e) =
        let (result, runs, e') = recv_handler-dead rc w c ne e in (result, runs, inr e')
    recv_handler-WaitsOrDead rc w c ne (inl waits) =
        let (result, runs, left) =
          recv_handler-Left s u stream 0 c w waits.method_ne rc waits.status_eq waits.read_valid
            waits.write_valid in
        (
          result,
          runs,
          elim left [
            | inl e ↦ inr e
            | inr heard ↦ inl (record {
              status_eq = ap (λ (x : Context). x.status) heard.same ∙ waits.status_eq;
              read_valid = heard.received.valid;
              write_valid =
                  subst IsValid (sym (ap (λ (x : Context). x.write_buffer) heard.same))
                    waits.write_valid;
              method_ne = λ e.
                  waits.method_ne (sym (ap (λ (x : Context). x.config.auth_method) heard.same) ∙ e);
            })
          ],
        )

    recv_calls-WaitsOrDead :
        (rcs : List Process) (w : s.State) (c : Context)
        → NoneDone rcs
        → WaitsOrDead c
        → Succeeds (λ (c', w'). WaitsOrDead c') (recv_calls rcs w c)
    recv_calls-WaitsOrDead [] w c nd h = (_, refl, h)
    recv_calls-WaitsOrDead (rc ∷ rcs) w c (ne, nd) h =
        Succeeds-bind (recv_handler-WaitsOrDead rc w c ne h)
          λ (c', w') h'. recv_calls-WaitsOrDead rcs w' c' nd h'

    -- A client that accept_handler gives a context, with memory from malloc, where another method is
    -- configured than that of user names and passwords: recv_handler returns from any number of
    -- readable events, and the session waits for its hello with valid buffers, or is dead, if
    -- retcode, which is not initialised, never holds SS_PROCESS_DONE.
    pub recv_calls-accepted :
        (codes : Codes) (malloc : ℕ → List ℕ) (at : ℕ) (config : Config) (connection : Connection)
        → length (malloc 1024) ≡ 1024
        → config.auth_method ≢ auth_plain
        → (rcs : List Process) (w : s.State) → NoneDone rcs
        → Succeeds
            (λ (c', w'). WaitsOrDead c')
            (recv_calls rcs w (accept_handler codes malloc at config connection).2)
    recv_calls-accepted codes malloc at config connection size other rcs w nd =
        recv_calls-WaitsOrDead rcs w _ nd
          (inl (accept_handler-Waits codes malloc at config connection size other))
