-- ===== src/ErrorUtils/Tests.antt =====
-- The name of a code of a small system.
use Prim.Native.String.{String}
use simple_socks.Common.{ℕ, ◌≡◌, refl, Option, none, some, if◌then◌else◌}
use text.Mathlib.Text.{◌==◌ as str_eq}
use simple_socks.ErrorUtils.{switch, translate_errno}

-- A system with two of the codes.
abbrev two_codes : String → Option ℕ
two_codes n = if str_eq n "EPERM" then some 1 else if str_eq n "EAGAIN" then some 11 else none

translate_errno-again : translate_errno two_codes 11 ≡ "EAGAIN|EWOULDBLOCK"
unfolding translate_errno switch
translate_errno-again = refl

translate_errno-unknown : translate_errno two_codes 12 ≡ "<unknown>"
unfolding translate_errno switch
translate_errno-unknown = refl
