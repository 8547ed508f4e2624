-- ===== src/Config/Trim.antt =====
-- What ss_string_trim makes of a string.
use simple_socks.Common.{
  ℕ, zero, suc, ◌+◌, ◌-◌, ◌≤◌, ◌<◌, ◌≡◌, ◌≢◌, refl, ap, ◌∙◌, some, List, [], ◌∷◌, ◌++◌, arith, ltb,
  if◌then◌else◌, length, length-append, ne→==, drop, take, blit, set, Succeeds, Bool-cases, inl,
  inr, take-append, nil_of_length, ge→ltb, lt→ltb, length-blit, length-set, copy_from-some,
  copy_to-some, store-some,
}
use native.Mathlib.Decide.{ℕ_discrete}
use simple_socks.Socks5.{c_string}
use simple_socks.PacketBuffer.Receive.{take-blit}
use simple_socks.Config.{is_space, skipped, last_index, trim}

-- A string: no byte of it is null.
abbrev pub IsString : List ℕ → Type 0
IsString [] = Unit
IsString (x ∷ xs) = (x ≢ 0) × IsString xs

-- The string without the spaces at its start.
unfoldable pub without_leading : List ℕ → List ℕ
without_leading [] = []
without_leading (x ∷ xs) = if is_space x then without_leading xs else x ∷ xs

skipped-leading :
    (s rest : List ℕ)
    → IsString s
    → (n : ℕ) × (skipped (s ++ 0 ∷ rest) ≡ some n)
      × (drop n (s ++ 0 ∷ rest) ≡ without_leading s ++ 0 ∷ rest)
      × (n + length (without_leading s) ≡ length s)
unfolding skipped without_leading
skipped-leading [] rest h = (0, refl, refl, omega arith)
skipped-leading (x ∷ s) rest (nz, h) = elim (Bool-cases (is_space x)) [
  | inl space ↦
      let (n, e, d, l) = skipped-leading s rest h in rw (space, e) (suc n, refl, d, omega arith)
  | inr other ↦ rw other (0, refl, refl, omega arith)
]

last_index-null :
    (s rest : List ℕ) (i p : ℕ) → IsString s → last_index (s ++ 0 ∷ rest) i p ≡ some (i + length s)
unfolding last_index
last_index-null [] rest i p h = ap some (omega arith)
last_index-null (x ∷ s) rest i p (nz, h) =
    rw (ne→== x 0 nz)
      (last_index-null s rest (suc i) (if is_space x then p else i) h ∙ ap some (omega arith))

without_leading-IsString : (s : List ℕ) → IsString s → IsString (without_leading s)
unfolding without_leading
without_leading-IsString [] h = h
without_leading-IsString (x ∷ s) (nz, h) = elim (Bool-cases (is_space x)) [
  | inl space ↦ rw space (without_leading-IsString s h)
  | inr other ↦ rw other (nz, h)
]

c_string-set :
    (m : ℕ) (xs : List ℕ) → m < length xs → IsString (take m xs) → c_string (set xs m 0) ≡ take m xs
unfolding c_string
c_string-set m [] p h = absurd (omega arith)
c_string-set zero (x ∷ xs) p h = refl
c_string-set (suc m) (x ∷ xs) p (nz, h) = rw (ne→== x 0 nz, c_string-set m xs (omega arith) h)

-- The array that ss_string_trim ends: its first bytes are the string without leading spaces.
module _ (s rest : List ℕ) (h : IsString s) (n : ℕ) where
  abbrev str : List ℕ
  str = s ++ 0 ∷ rest

  abbrev t : List ℕ
  t = without_leading s

  abbrev moved : List ℕ
  moved = if ltb n (n + length t) then blit str 0 t else str

  front_moved : length t ≤ length str → take (length t) moved ≡ t
  front_moved p = elim (ℕ_discrete (length t) 0) [
    | yes e ↦ rw (ge→ltb n (n + length t) (omega arith), nil_of_length t e)
    | no e ↦ rw (lt→ltb n (n + length t) (omega arith)) (take-blit str t p)
  ]

  length-moved : length moved ≡ length str
  length-moved = elim (Bool-cases (ltb n (n + length t))) [
    | inl e ↦ rw e (length-blit str 0 t)
    | inr e ↦ rw e
  ]

-- ss_string_trim takes the spaces at the start of a string away, and none of those at its end, and
-- stays within the array.
pub trim_lem :
    (s rest : List ℕ)
    → IsString s
    → Succeeds
        (λ str'. (c_string str' ≡ without_leading s) × (length str' ≡ length (s ++ 0 ∷ rest)))
        (trim (s ++ 0 ∷ rest))
unfolding trim
trim_lem s rest h =
    let (n, skips, left, sum) = skipped-leading s rest h in
    let t = without_leading s in
    let str = s ++ 0 ∷ rest in
    let size = length-append s (0 ∷ rest) in
    let last = last_index-null t rest n n (without_leading-IsString s h) in
    let m : n + length t - n ≡ length t = omega arith in
    let part : take (length t) (drop n str) ≡ t =
      ap (take (length t)) left ∙ take-append t (0 ∷ rest) in
    let a = moved s rest h n in
    let long = length-moved s rest h n in
    let front = front_moved s rest h n (omega (arith, size)) in
    rw
      (
        skips,
        left,
        last,
        m,
        copy_from-some str n (length t) (omega (arith, size)),
        part,
        copy_to-some str 0 t (omega (arith, size)),
        store-some a (length t) 0 (omega (arith, size, long)),
      )
      (
        set a (length t) 0,
        refl,
        (
          c_string-set (length t) a (omega (arith, size, long))
                (rw front (without_leading-IsString s h))
              ∙ front,
          length-set a (length t) 0 ∙ long,
        ),
      )
