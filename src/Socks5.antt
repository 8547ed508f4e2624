-- ===== src/Socks5.antt =====
-- src/socks5/: the state of a client session, ss_context_t, and the parts of the protocol that it
-- goes through. A session is one ss_context_t with its socket.
pub mod Demand
pub mod Negotiation
pub mod Auth
pub mod Server
mod Tests
use simple_socks.Common.{
  ℕ, zero, suc, Bool, Option, none, some, List, [], ◌∷◌, true, false, ◌%◌, ◌==◌, ◌&&◌,
  if◌then◌else◌, ◌>>=◌,
}
use simple_socks.Common.IoError.{IoError, is_ok}
use simple_socks.Common.Socket.{Socket}
use simple_socks.RingBuffer.{Ring}
use simple_socks.RingBuffer
use simple_socks.RingBuffer.Stream.{recv_via_buffer_auto_inc}

-- SS_STATUS_*
pub data Status : Type 0 where
  init negotiating negotiated authenticating authenticated requesting requested working dead :
      Status

-- SS_PROCESS_*
pub data Process : Type 0 where
  done again error : Process

abbrev pub socks5_version : ℕ
socks5_version = 5

-- SOCKS5_AUTH_*
abbrev pub auth_none : ℕ
auth_none = 0

abbrev pub auth_plain : ℕ
auth_plain = 2

abbrev pub auth_no_acceptable : ℕ
auth_no_acceptable = 255

-- ss_config_t. `lookup` is what ss_strmap_get finds in auth_plain.map: the password of a user name.
pub record Config : Type 0 where
  pub auth_method : ℕ
  pub lookup : List ℕ → Option (List ℕ)

-- ss_auth_context_t, whose union has no fields
pub record AuthContext : Type 0 where
  pub method : ℕ

-- ss_context_t
pub record Context : Type 0 where
  pub status : Status
  pub config : Config
  pub read_buffer : Ring
  pub write_buffer : Ring
  pub auth_method : ℕ
  pub auth : AuthContext

-- ss_auth_context_initialize, and ss_auth_context_uninitialize, which leaves the same
unfoldable pub auth_context_initialize : AuthContext
auth_context_initialize = record { method = auth_no_acceptable }

-- ss_context_initialize. `malloc n` is the memory for n bytes that malloc returns.
unfoldable pub context_initialize : (ℕ → List ℕ) → Config → Context
context_initialize malloc config = record {
  status = negotiating;
  config = config;
  read_buffer = RingBuffer.initialize (malloc 1024) 1024;
  write_buffer = RingBuffer.initialize (malloc 1024) 1024;
  auth_method = auth_no_acceptable;
  auth = auth_context_initialize;
}

-- ss_client_kill
unfoldable pub client_kill : Context → Context
client_kill c = record c { status = dead }

-- The bytes of a char array up to the first null, and strcmp(a, b) == 0 of two such strings.
unfoldable pub c_string : List ℕ → List ℕ
c_string [] = []
c_string (x ∷ xs) = let rest = c_string xs in if x == 0 then [] else x ∷ rest

unfoldable pub str_eq : List ℕ → List ℕ → Bool
str_eq [] [] = true
str_eq [] (_ ∷ _) = false
str_eq (_ ∷ _) [] = false
str_eq (x ∷ xs) (y ∷ ys) = (x == y) && str_eq xs ys

-- The value of a ss_uint8_t that was read.
abbrev pub byte : List ℕ → ℕ
byte [] = 0
byte (x ∷ _) = x % 256

module _ (s : Socket) where
  abbrev pub Outcome : Type 0
  Outcome = Process × Context × s.State

  -- ss_recv_via_buffer_auto_inc on the read buffer, and what follows: `next` with the bytes and the
  -- new offset, or the error label `fail`.
  unfoldable pub demand :
      (IoError → Context → s.State → Option Outcome)
      → ℕ
      → s.State
      → Context
      → ℕ
      → ℕ
      → (List ℕ → ℕ → Context → s.State → Option Outcome)
      → Option Outcome
  demand fail stale w c offset size next = do
    (rc, bs, offset', r', w') ← recv_via_buffer_auto_inc s stale w true c.read_buffer offset size
    let c' = record c { read_buffer = r' }
    if is_ok rc then next bs offset' c' w' else fail rc c' w'
