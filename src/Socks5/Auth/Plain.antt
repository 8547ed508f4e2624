-- ===== src/Socks5/Auth/Plain.antt =====
-- ss_auth_plain_process on a request that is in the read buffer as a whole.
use simple_socks.Common.{
  length-append, ℕ, ◌+◌, ◌%◌, ◌≤◌, ◌<◌, ◌≡◌, refl, sym, ap, ◌∙◌, Bool, false, some, List, [], ◌∷◌,
  ◌++◌, append_assoc, arith, slice, take-append, if◌then◌else◌, min, Bool-cases, inl, inr, length,
  take, drop, drop-drop, drop-append, ℤ,
}
use simple_socks.Common.Socket.{Socket}
use simple_socks.RingBuffer.{Ring, read}
use simple_socks.RingBuffer.Contents.{contents, IsValid, length-contents}
use simple_socks.RingBuffer.Write.{end_index}
use simple_socks.RingBuffer.Read.{read-oldest}
use simple_socks.RingBuffer.Stream.Via.{send_via_buffer-straight}
use simple_socks.Socks5.{Context, done, error, c_string}
use simple_socks.Socks5.Demand.{demand-held}
use simple_socks.Socks5.Auth.{
  accepts, plain_version, plain_response, status_success, status_failed, plain_error, plain_answer,
  plain_process,
}

-- A request: the version, the user name and the password, each with its length.
abbrev pub request : List ℕ → List ℕ → List ℕ
request username password =
    plain_version ∷ length username ∷ (username ++ (length password ∷ password))

module _ (s : Socket) (stale : ℕ) (w : s.State) (c : Context) (username password rest : List ℕ)
    (short_name : length username < 256) (short_password : length password < 256)
    (v : IsValid c.read_buffer)
    (held : contents c.read_buffer ≡ request username password ++ rest) where
  abbrev u : ℕ
  u = length username

  abbrev p : ℕ
  p = length password

  held_size : c.read_buffer.length ≡ 3 + u + p + length rest
  held_size =
      sym (length-contents c.read_buffer)
      ∙ ap length held
      ∙ omega (
        arith,
        length-append (request username password) rest,
        length-append username (p ∷ password),
      )

  after_name : drop 2 (contents c.read_buffer) ≡ username ++ (p ∷ (password ++ rest))
  after_name = ap (drop 2) held ∙ append_assoc username (p ∷ password) rest

  name_held : slice 2 u (contents c.read_buffer) ≡ username
  name_held = ap (take u) after_name ∙ take-append username (p ∷ (password ++ rest))

  after_number : drop (2 + u) (contents c.read_buffer) ≡ p ∷ (password ++ rest)
  after_number =
      drop-drop 2 u (contents c.read_buffer)
      ∙ ap (drop u) after_name
      ∙ drop-append username (p ∷ (password ++ rest))

  number_held : slice (2 + u) 1 (contents c.read_buffer) ≡ p ∷ []
  number_held = ap (take 1) after_number

  after_both : drop (2 + u + 1) (contents c.read_buffer) ≡ password ++ rest
  after_both = drop-drop (2 + u) 1 (contents c.read_buffer) ∙ ap (drop 1) after_number

  password_held : slice (2 + u + 1) p (contents c.read_buffer) ≡ password
  password_held = ap (take p) after_both ∙ take-append password rest

  rest_held : drop (2 + u + 1 + p) (contents c.read_buffer) ≡ rest
  rest_held =
      drop-drop (2 + u + 1) p (contents c.read_buffer)
      ∙ ap (drop p) after_both
      ∙ drop-append password rest

  plain_process-held :
      (k : ℤ) (bs : List ℕ) (r' : Ring)
      → read false c.read_buffer (2 + u + 1 + p) ≡ some (k, bs, r')
      → plain_process s stale w c
        ≡ plain_answer s username password (record c { read_buffer = r' }) w
  unfolding plain_process
  plain_process-held k bs r' reads =
      let version : slice 0 1 (contents c.read_buffer) ≡ plain_version ∷ [] = ap (slice 0 1) held in
      let number : slice 1 1 (contents c.read_buffer) ≡ u ∷ [] = ap (slice 1 1) held in
      let whole : u % 256 ≡ u = omega arith in
      let whole' : p % 256 ≡ p = omega arith in
      let fail = plain_error s in
      rw (
        demand-held s fail stale w c 0 1 _ v (omega (arith, held_size)),
        version,
        demand-held s fail stale w c 1 1 _ v (omega (arith, held_size)),
        number,
        whole,
        demand-held s fail stale w c 2 u _ v (omega (arith, held_size)),
        name_held,
        demand-held s fail stale w c (2 + u) 1 _ v (omega (arith, held_size)),
        number_held,
        whole',
        demand-held s fail stale w c (2 + u + 1) p _ v (omega (arith, held_size)),
        password_held,
        reads,
      )

  -- Whether the configuration has this user with this password, as C strings.
  abbrev pub accepted : Bool
  accepted = accepts (c.config.lookup (c_string username)) (c_string password)

  plain_answer-held :
      (r' : Ring)
      → IsValid c.write_buffer
      → end_index c.write_buffer + 2 ≤ c.write_buffer.capacity
      → c.write_buffer.length + 2 ≤ c.write_buffer.capacity
      → (wb : Ring) × (plain_answer s username password (record c { read_buffer = r' }) w
          ≡ some (
            (if accepted then done else error),
            record c { read_buffer = r'; write_buffer = wb },
            w,
          ))
        × (contents wb
            ≡ contents c.write_buffer
              ++ plain_response (if accepted then status_success else status_failed))
  unfolding plain_answer plain_error
  plain_answer-held r' t straight room = elim (Bool-cases accepted) [
    | inl good ↦
        let (wb, runs, _, more) =
          send_via_buffer-straight c.write_buffer (plain_response status_success) t straight room in
        rw (good, runs) (wb, refl, more)
    | inr bad ↦
        let (wb, runs, _, more) =
          send_via_buffer-straight c.write_buffer (plain_response status_failed) t straight room in
        rw (bad, runs) (wb, refl, more)
  ]

  -- A request that is buffered as a whole, with room for the reply up to the end of the write
  -- buffer's memory: DONE and the success reply if the configuration has this user with this
  -- password, else ERROR and the failure reply; only the request leaves the read buffer.
  pub plain_process-answers :
      IsValid c.write_buffer
      → end_index c.write_buffer + 2 ≤ c.write_buffer.capacity
      → c.write_buffer.length + 2 ≤ c.write_buffer.capacity
      → (r' wb : Ring) × (plain_process s stale w c
          ≡ some (
            (if accepted then done else error),
            record c { read_buffer = r'; write_buffer = wb },
            w,
          ))
        × (contents r' ≡ rest)
        × (contents wb
            ≡ contents c.write_buffer
              ++ plain_response (if accepted then status_success else status_failed))
  plain_process-answers t straight room =
      let n = 2 + u + 1 + p in
      let (r', reads, _, left, _) = read-oldest c.read_buffer v false n in
      let (wb, answers, more) = plain_answer-held r' t straight room in
      let all : min c.read_buffer.length n ≡ n = omega (arith, held_size) in
      (
        r',
        wb,
        plain_process-held _ _ r' reads ∙ answers,
        left ∙ ap (λ (k : ℕ). drop k (contents c.read_buffer)) all ∙ rest_held,
        more,
      )
