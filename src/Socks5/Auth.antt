-- ===== src/Socks5/Auth.antt =====
-- src/socks5/ss_auth.h and src/socks5/ss_auth_plain.c: authentication by user name and password.
pub mod Plain
use simple_socks.Common.{
  ℕ, zero, suc, Bool, true, false, not, Option, none, some, List, [], ◌∷◌, ◌==◌, if◌then◌else◌,
  ◌>>=◌, add_size,
}
use simple_socks.Common.IoError.{IoError}
use simple_socks.Common.IoError
use simple_socks.Common.Socket.{Socket}
use simple_socks.RingBuffer.{Ring, read}
use simple_socks.RingBuffer.Stream.{send_via_buffer}
use simple_socks.Socks5.{
  Context, Process, done, again, error, Outcome, demand, byte, c_string, str_eq, auth_plain,
  auth_context_initialize,
}

abbrev pub plain_version : ℕ
plain_version = 1

abbrev pub status_success : ℕ
status_success = 0

abbrev pub status_failed : ℕ
status_failed = 255

-- ss_auth_plain_response_t
abbrev pub plain_response : ℕ → List ℕ
plain_response status = plain_version ∷ status ∷ []

-- ss_strmap_get and strcmp: whether the user has this password.
unfoldable pub accepts : Option (List ℕ) → List ℕ → Bool
accepts none password = false
accepts (some expected) password = str_eq expected password

module _ (s : Socket) where
  -- _l_error
  unfoldable pub plain_error : IoError → Context → s.State → Option (Outcome s)
  plain_error IoError.again c w = some (again, c, w)
  plain_error _ c w = some (error, c, w)

  -- From the check of the password on. The result of ss_send_via_buffer is not looked at.
  unfoldable pub plain_answer : List ℕ → List ℕ → Context → s.State → Option (Outcome s)
  plain_answer username password c w =
      if accepts (c.config.lookup (c_string username)) (c_string password)
      then (do
        (_, wb) ← send_via_buffer c.write_buffer (plain_response status_success) 2
        some (done, record c { write_buffer = wb }, w))
      else do
        (_, wb) ← send_via_buffer c.write_buffer (plain_response status_failed) 2
        plain_error IoError.ok (record c { write_buffer = wb }) w

  -- ss_auth_plain_process
  unfoldable pub plain_process : ℕ → s.State → Context → Option (Outcome s)
  plain_process stale w c = demand s plain_error stale w c 0 1 λ version o1 c1 w1.
      if not (byte version == plain_version)
      then plain_error IoError.ok c1 w1
      else demand s plain_error stale w1 c1 o1 1 λ ulen o2 c2 w2.
        demand s plain_error stale w2 c2 o2 (byte ulen) λ username o3 c3 w3.
          demand s plain_error stale w3 c3 o3 1 λ plen o4 c4 w4.
            demand s plain_error stale w4 c4 o4 (byte plen) λ password o5 c5 w5. do
              (_, _, r') ← read false c5.read_buffer o5
              plain_answer username password (record c5 { read_buffer = r' }) w5

  -- ss_auth_process
  unfoldable pub auth_process : ℕ → s.State → Context → Option (Outcome s)
  auth_process stale w c =
      if c.auth.method == auth_plain then plain_process stale w c else some (error, c, w)

-- ss_auth_begin
unfoldable pub auth_begin : Context → Process × Context
auth_begin c =
    if c.auth_method == auth_plain
    then (done, record c { auth = record { method = c.auth_method } })
    else (error, record c { auth = auth_context_initialize })

-- ss_auth_finish, which returns no value: `missing` is what its caller finds.
unfoldable pub auth_finish : Process → Context → Process × Context
auth_finish missing c = (missing, record c { auth = auth_context_initialize })
