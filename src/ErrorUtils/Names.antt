-- ===== src/ErrorUtils/Names.antt =====
-- translate_errno names each error code of a system whose codes are distinct.
use Prim.Native.String.{String}
use simple_socks.Common.{
  ℕ, zero, suc, ◌≡◌, refl, inl, inr, Bool-cases, Option-cases, Bool, true, false, not, ◌&&◌, Option,
  none, some, List, [], ◌∷◌, ◌==◌, ==_refl, get_elem?, arith, ==_iff, some-injective,
}
use simple_socks.ErrorUtils.{Case, cases, is_value, switch, translate_errno}

-- Whether no case has the code.
abbrev pub has_none : (String → Option ℕ) → List Case → ℕ → Bool
has_none value [] e = true
has_none value (c ∷ cs) e = not (is_value (value c.macro) e) && has_none value cs e

-- Whether no two cases have the same code, as C wants of a switch.
abbrev pub are_distinct : (String → Option ℕ) → List Case → Bool
are_distinct value [] = true
are_distinct value (c ∷ cs) =
    let rest = are_distinct value cs in
    elim (value c.macro) [ none ↦ rest | some e ↦ has_none value cs e && rest ]

-- A case whose code no case has.
not_none :
    (value : String → Option ℕ) (cs : List Case) (i : ℕ) (c : Case) (e : ℕ)
    → get_elem? cs i ≡ some c
    → value c.macro ≡ some e
    → has_none value cs e ≡ false
not_none value [] i c e at v = absurd (ground arith)
not_none value (d ∷ ds) zero c e at v =
    let same : d ≡ c = some-injective _ _ at in rw (same, v, ==_refl e) refl
not_none value (d ∷ ds) (suc i) c e at v = let rest = not_none value ds i c e at v in ground arith

switch-text :
    (value : String → Option ℕ) (cs : List Case) (i : ℕ) (c : Case) (e : ℕ)
    → are_distinct value cs ≡ true
    → get_elem? cs i ≡ some c
    → value c.macro ≡ some e
    → switch value cs e ≡ c.text
unfolding switch
switch-text value [] i c e h at v = absurd (ground arith)
switch-text value (d ∷ ds) zero c e h at v =
    let same : d ≡ c = some-injective _ _ at in rw (same, v, ==_refl e) refl
switch-text value (d ∷ ds) (suc i) c e h at v = elim (Option-cases (value d.macro)) [
  | inl none_ ↦ rw none_ (switch-text value ds i c e (rw (are_distinct, none_) at h) at v)
  | inr (e', some_) ↦
      let h' = rw (are_distinct, some_) at h in
      let found = not_none value ds i c e at v in
      let other : (e' == e) ≡ false = elim (Bool-cases (e' == e)) [
        | inr f ↦ f
        | inl t ↦ let h'' = rw ((==_iff e' e).0 t) at h' in absurd (ground arith)
      ] in
      rw (some_, other) (switch-text value ds i c e (ground arith) at v)
]

-- Where the codes that the system defines for the names of the switch are distinct, translate_errno
-- of the code of a name is the text of its case.
pub translate_errno-text :
    (value : String → Option ℕ) (i : ℕ) (c : Case) (e : ℕ)
    → are_distinct value cases ≡ true
    → get_elem? cases i ≡ some c
    → value c.macro ≡ some e
    → translate_errno value e ≡ c.text
unfolding translate_errno
translate_errno-text value i c e h at v = switch-text value cases i c e h at v
