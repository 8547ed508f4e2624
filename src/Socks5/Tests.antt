-- ===== src/Socks5/Tests.antt =====
-- Runs of a session, and the theorems at concrete sessions.
use simple_socks.Common.{ℕ, ◌≡◌, refl, true, none, some, [], ◌∷◌, arith, Succeeds}
use simple_socks.Common.Script.{Script, script, script-IsStream}
use simple_socks.RingBuffer.{Ring, reset}
use simple_socks.RingBuffer.Contents.{contents, IsValid}
use simple_socks.Socks5.{
  Context, negotiating, negotiated, dead, done, again, error, client_kill, auth_no_acceptable,
}
use simple_socks.Socks5.Negotiation.{negotiate_process, hello_response}
use simple_socks.Socks5.Negotiation.Buffered.{
  offered, negotiate_process-accepts, negotiate_process-rejects,
}
use simple_socks.Socks5.Negotiation.Outcomes.{Settled, negotiate_process-Settled}
use simple_socks.Socks5.Auth.{plain_process, plain_response, status_failed, accepts}
use simple_socks.Socks5.Auth.Plain.{plain_process-answers}
use simple_socks.Socks5.Server.{Undefined, recv_handler, check_client_status}
use simple_socks.Socks5.Server.Loop.{recv_handler-hello_stuck, recv_handler-hello_dead}

-- Version 5, and the methods 0 and 2 on offer.
abbrev hello_buffer : Ring
hello_buffer = record { buffer = 5 ∷ 2 ∷ 0 ∷ 2 ∷ 9 ∷ 9 ∷ []; offset = 0; length = 4; capacity = 6 }

-- The user name 7 with the password 8.
abbrev request_buffer : Ring
request_buffer = record {
  buffer = 1 ∷ 1 ∷ 7 ∷ 1 ∷ 8 ∷ 9 ∷ [];
  offset = 0;
  length = 5;
  capacity = 6;
}

abbrev reply_buffer : Ring
reply_buffer = record { buffer = 0 ∷ 0 ∷ 0 ∷ 0 ∷ []; offset = 0; length = 0; capacity = 4 }

abbrev session : ℕ → Ring → Context
session method read_buffer = record {
  status = negotiating;
  config = record { auth_method = method; lookup = λ _. none };
  read_buffer = read_buffer;
  write_buffer = reply_buffer;
  auth_method = auth_no_acceptable;
  auth = record { method = auth_no_acceptable };
}

abbrev world : Script
world = record { incoming = []; outgoing = [] }

abbrev undefined : Undefined
undefined = record { recv_ret = 0; method = 0; finished = error }

hello-IsValid : IsValid hello_buffer
hello-IsValid = omega arith

request-IsValid : IsValid request_buffer
request-IsValid = omega arith

reply-IsValid : IsValid reply_buffer
reply-IsValid = omega arith

negotiate_process-accepts_example :
    (wb : Ring) × (negotiate_process (script 9) 0 0 world (session 2 hello_buffer)
      ≡ some (
        done,
        record (session 2 hello_buffer) {
          status = negotiated;
          auth_method = 2;
          read_buffer = reset hello_buffer;
          write_buffer = wb;
        },
        world,
      ))
    × IsValid wb
    × (contents wb ≡ hello_response 2)
unfolding offered
negotiate_process-accepts_example =
    negotiate_process-accepts (script 9) 0 0 world (session 2 hello_buffer) (0 ∷ 2 ∷ []) []
      (omega arith) hello-IsValid refl refl reply-IsValid (omega arith) (omega arith)

negotiate_process-rejects_example :
    negotiate_process (script 9) 0 0 world (session 1 hello_buffer)
    ≡ some (error, client_kill (session 1 hello_buffer), world)
unfolding offered
negotiate_process-rejects_example =
    negotiate_process-rejects (script 9) 0 0 world (session 1 hello_buffer) (0 ∷ 2 ∷ []) []
      (omega arith) hello-IsValid refl refl

negotiate_process-Settled_example :
    Succeeds
      (Settled (script 1) (script-IsStream 1) (session 2 reply_buffer) world)
      (negotiate_process (script 1) 0 0 world (session 2 reply_buffer))
negotiate_process-Settled_example =
    negotiate_process-Settled (script 1) (script-IsStream 1) 0 0 world (session 2 reply_buffer)
      reply-IsValid reply-IsValid

plain_process-answers_example :
    (r' wb : Ring) × (plain_process (script 9) 0 world (session 2 request_buffer)
      ≡ some
          (error, record (session 2 request_buffer) { read_buffer = r'; write_buffer = wb }, world))
    × (contents r' ≡ [])
    × (contents wb ≡ plain_response status_failed)
unfolding accepts
plain_process-answers_example =
    plain_process-answers (script 9) 0 world (session 2 request_buffer) (7 ∷ []) (8 ∷ []) []
      (omega arith) (omega arith) request-IsValid refl reply-IsValid (omega arith) (omega arith)

recv_handler-hello_stuck_example :
    recv_handler (script 9) undefined 1000 again world (session 2 hello_buffer) ≡ none
unfolding offered
recv_handler-hello_stuck_example =
    recv_handler-hello_stuck (script 9) undefined world (session 2 hello_buffer) (0 ∷ 2 ∷ []) []
      (omega arith) hello-IsValid refl refl reply-IsValid (omega arith) (omega arith) refl 1000
      again refl

recv_handler-hello_dead_example :
    Succeeds
      (λ (c', w').
        (c'.status ≡ dead)
        × (contents c'.write_buffer ≡ hello_response 0)
        × (check_client_status c' ≡ true)
        × (w' ≡ world))
      (recv_handler (script 9) undefined 2 again world (session 0 hello_buffer))
unfolding offered
recv_handler-hello_dead_example =
    recv_handler-hello_dead (script 9) undefined world (session 0 hello_buffer) (0 ∷ 2 ∷ []) []
      (omega arith) hello-IsValid refl refl reply-IsValid (omega arith) (omega arith) refl 0 again
      (omega arith)
