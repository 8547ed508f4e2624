-- ===== src/ErrorUtils.antt =====
-- The names of error codes: src/util/error_utils.c, and src/util/ss_io_helper.c.
pub mod Names
mod Tests
use Prim.Native.String.{String}
use simple_socks.Common.IoError.{IoError, ok, again, error, overflow, empty}
use simple_socks.Common.{
  ℕ, Bool, true, false, Option, none, some, List, [], ◌∷◌, ◌++◌, ◌==◌, if◌then◌else◌,
}

-- A case of the switch: the macro, and what is returned.
pub record Case : Type 0 where
  pub macro : String
  pub text : String

-- CASE_STATEMENT
abbrev pub case_of : String → Case
case_of e = record { macro = e; text = e }

-- The first third of the cases.
abbrev pub first_codes : List Case
first_codes =
    case_of "EPERM"
    ∷ case_of "ENOENT"
    ∷ case_of "ESRCH"
    ∷ case_of "EINTR"
    ∷ case_of "EIO"
    ∷ case_of "ENXIO"
    ∷ case_of "E2BIG"
    ∷ case_of "ENOEXEC"
    ∷ case_of "EBADF"
    ∷ case_of "ECHILD"
    ∷ case_of "EDEADLK"
    ∷ case_of "ENOMEM"
    ∷ case_of "EACCES"
    ∷ case_of "EFAULT"
    ∷ case_of "ENOTBLK"
    ∷ case_of "EBUSY"
    ∷ case_of "EEXIST"
    ∷ case_of "EXDEV"
    ∷ case_of "ENODEV"
    ∷ case_of "ENOTDIR"
    ∷ case_of "EISDIR"
    ∷ case_of "EINVAL"
    ∷ case_of "ENFILE"
    ∷ case_of "EMFILE"
    ∷ case_of "ENOTTY"
    ∷ case_of "ETXTBSY"
    ∷ case_of "EFBIG"
    ∷ case_of "ENOSPC"
    ∷ case_of "ESPIPE"
    ∷ case_of "EROFS"
    ∷ case_of "EMLINK"
    ∷ case_of "EPIPE"
    ∷ case_of "EDOM"
    ∷ []

-- The second third.
abbrev pub more_codes : List Case
more_codes =
    case_of "ERANGE"
    ∷ record { macro = "EAGAIN"; text = "EAGAIN|EWOULDBLOCK" }
    ∷ case_of "EINPROGRESS"
    ∷ case_of "EALREADY"
    ∷ case_of "ENOTSOCK"
    ∷ case_of "EDESTADDRREQ"
    ∷ case_of "EMSGSIZE"
    ∷ case_of "EPROTOTYPE"
    ∷ case_of "ENOPROTOOPT"
    ∷ case_of "EPROTONOSUPPORT"
    ∷ case_of "ESOCKTNOSUPPORT"
    ∷ case_of "ENOTSUP"
    ∷ case_of "EPFNOSUPPORT"
    ∷ case_of "EAFNOSUPPORT"
    ∷ case_of "EADDRINUSE"
    ∷ case_of "EADDRNOTAVAIL"
    ∷ case_of "ENETDOWN"
    ∷ case_of "ENETUNREACH"
    ∷ case_of "ENETRESET"
    ∷ case_of "ECONNABORTED"
    ∷ case_of "ECONNRESET"
    ∷ case_of "ENOBUFS"
    ∷ case_of "EISCONN"
    ∷ case_of "ENOTCONN"
    ∷ case_of "ESHUTDOWN"
    ∷ case_of "ETOOMANYREFS"
    ∷ case_of "ETIMEDOUT"
    ∷ case_of "ECONNREFUSED"
    ∷ case_of "ELOOP"
    ∷ case_of "ENAMETOOLONG"
    ∷ case_of "EHOSTDOWN"
    ∷ case_of "EHOSTUNREACH"
    ∷ case_of "ENOTEMPTY"
    ∷ case_of "EPROCLIM"
    ∷ case_of "EUSERS"
    ∷ case_of "EDQUOT"
    ∷ case_of "ESTALE"
    ∷ []

-- The rest.
abbrev pub last_codes : List Case
last_codes =
    case_of "EREMOTE"
    ∷ case_of "EBADRPC"
    ∷ case_of "ERPCMISMATCH"
    ∷ case_of "EPROGUNAVAIL"
    ∷ case_of "EPROGMISMATCH"
    ∷ case_of "EPROCUNAVAIL"
    ∷ case_of "ENOLCK"
    ∷ case_of "ENOSYS"
    ∷ case_of "EFTYPE"
    ∷ case_of "EAUTH"
    ∷ case_of "ENEEDAUTH"
    ∷ case_of "EPWROFF"
    ∷ case_of "EDEVERR"
    ∷ case_of "EOVERFLOW"
    ∷ case_of "EBADEXEC"
    ∷ case_of "EBADARCH"
    ∷ case_of "ESHLIBVERS"
    ∷ case_of "EBADMACHO"
    ∷ case_of "ECANCELED"
    ∷ case_of "EIDRM"
    ∷ case_of "ENOMSG"
    ∷ case_of "EILSEQ"
    ∷ case_of "ENOATTR"
    ∷ case_of "EBADMSG"
    ∷ case_of "EMULTIHOP"
    ∷ case_of "ENODATA"
    ∷ case_of "ENOLINK"
    ∷ case_of "ENOSR"
    ∷ case_of "ENOSTR"
    ∷ case_of "EPROTO"
    ∷ case_of "ETIME"
    ∷ case_of "ENOPOLICY"
    ∷ case_of "ENOTRECOVERABLE"
    ∷ case_of "EOWNERDEAD"
    ∷ case_of "EQFULL"
    ∷ case_of "ELAST"
    ∷ []

abbrev pub cases : List Case
cases = first_codes ++ (more_codes ++ last_codes)

-- Whether a macro has a value, and that value. A macro that the system does not define has none.
abbrev pub is_value : Option ℕ → ℕ → Bool
is_value none e = false
is_value (some v) e = v == e

unfoldable pub switch : (String → Option ℕ) → List Case → ℕ → String
switch value [] e = "<unknown>"
switch value (c ∷ cs) e =
    let rest = switch value cs e in if is_value (value c.macro) e then c.text else rest

-- translate_errno, where `value` is what the system's headers define.
unfoldable pub translate_errno : (String → Option ℕ) → ℕ → String
translate_errno value e = switch value cases e

-- ss_translate_io_err: SS_IO_EEMPTY has no case.
unfoldable pub translate_io_err : IoError → String
translate_io_err ok = "OK"
translate_io_err again = "EAGAIN"
translate_io_err error = "ERROR"
translate_io_err overflow = "EOVERFLOW"
translate_io_err empty = "<unknown>"
