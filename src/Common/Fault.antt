-- ===== src/Common/Fault.antt =====
-- Code that may fault: `none` is a read or write out of bounds, a division by zero, a use of a
-- null or freed pointer, or a loop that ran out of its fuel.
use Prim.Native.Nat.{ℕ, ◌+◌, ◌≤◌, ◌<◌, ◌%◌}
use mathlib.Core.Path.{◌≡◌, refl}
use mathlib.Core.Logic.{◌≢◌}
use mathlib.Core.Bool.{Bool, true, false}
use mathlib.Core.List.{List}
use mathlib.Core.Option.{Option, none, some}
use native.Mathlib.Omega.{arith}
use simple_socks.Common.Tests.{leb, ltb, ◌==◌, if◌then◌else◌}
use simple_socks.Common.Lists.{length, get_or, get_elem?, set, get_elem?-eq-get_or}
use simple_socks.Common.Pointwise.{slice, blit}

infixl 5 ◌>>=◌
abbrev pub ◌>>=◌ {ℓ κ} : {A : Type ℓ} {B : Type κ} → Option A → (A → Option B) → Option B
none >>= f = none
some a >>= f = f a

-- The code runs through without a fault, and its result satisfies `P`.
abbrev pub Succeeds {ℓ κ} : {A : Type ℓ} (P : A → Type κ) (code : Option A) → Type (ℓ ⊔ κ)
Succeeds {A} P code = (result : A) × (code ≡ some result) × P result

module _ {ℓ κ μ} {A : Type ℓ} {B : Type κ} {Q : B → Type μ} where
  pub Succeeds-bind {ν} :
      {P : A → Type ν} {first : Option A} {next : A → Option B}
      → Succeeds P first
      → ((x : A) → P x → Succeeds Q (next x))
      → Succeeds Q (first >>= next)
  Succeeds-bind (x, runs, holds) go =
      let (y, runs', holds') = go x holds in (y, rw runs runs', holds')

module _ {κ μ} {B : Type κ} {Q : B → Type μ} {x y : Option B} where
  pub Succeeds-if :
      (test : Bool)
      → (test ≡ true → Succeeds Q x)
      → (test ≡ false → Succeeds Q y)
      → Succeeds Q (if test then x else y)
  Succeeds-if true left right = left refl
  Succeeds-if false left right = right refl

module _ {ℓ} {A : Type ℓ} where
  -- a[i]
  abbrev pub load : List A → ℕ → Option A
  load a i = get_elem? a i

  -- a[i] = v
  unfoldable pub store : List A → ℕ → A → Option (List A)
  store a i v = if ltb i (length a) then some (set a i v) else none

  -- The bytes that memcpy(_, src + i, n) reads.
  unfoldable pub copy_from : List A → ℕ → ℕ → Option (List A)
  copy_from src i n = if leb (i + n) (length src) then some (slice i n src) else none

  -- memcpy(dest + i, src, length src)
  unfoldable pub copy_to : List A → ℕ → List A → Option (List A)
  copy_to dest i src = if leb (i + length src) (length dest) then some (blit dest i src) else none

  pub load-some : (d : A) (a : List A) (i : ℕ) → i < length a → load a i ≡ some (get_or a i d)
  load-some d a i h = get_elem?-eq-get_or a i d h

  pub store-some : (a : List A) (i : ℕ) (v : A) → i < length a → store a i v ≡ some (set a i v)
  unfolding store
  store-some a i v h = ground arith

  pub copy_from-some :
      (src : List A) (i n : ℕ) → i + n ≤ length src → copy_from src i n ≡ some (slice i n src)
  unfolding copy_from
  copy_from-some src i n h = ground arith

  pub copy_to-some :
      (dest : List A) (i : ℕ) (src : List A)
      → i + length src ≤ length dest
      → copy_to dest i src ≡ some (blit dest i src)
  unfolding copy_to
  copy_to-some dest i src h = ground arith

-- a % b, which traps at zero.
unfoldable pub rem : ℕ → ℕ → Option ℕ
rem a b = if b == 0 then none else some (a % b)

pub rem-some : (a b : ℕ) → b ≢ 0 → rem a b ≡ some (a % b)
unfolding rem
rem-some a b h = ground arith
