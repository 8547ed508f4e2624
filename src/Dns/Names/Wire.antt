-- ===== src/Dns/Names/Wire.antt =====
-- encode_domain_name against the form of a name in a message: its labels, each behind its length.
pub mod Read
use simple_socks.Common.{
  ℕ, zero, suc, ◌+◌, ◌-◌, ◌%◌, ◌≤◌, ◌<◌, ◌≡◌, refl, sym, ap, subst, ◌∙◌, ◌≢◌, ◌⊎◌, inl, inr,
  Bool-cases, ne→==, Bool, true, false, Option, none, some, List, [], ◌∷◌, ◌++◌, append_assoc,
  append-nil, ◌==◌, if◌then◌else◌, ◌>>=◌, load, store, copy_to, length, set, drop, get_elem?, blit,
  arith, length-append, length-blit, length-set, store-some, copy_to-some, drop-append, drop-drop,
  length-drop,
}
use mathlib.Core.Path.{ap₂}
use simple_socks.Dns.Names.{encode_labels, encode_domain_name}

abbrev pub Labels : Type 0
Labels = List (List ℕ)

-- The labels, each behind its length, and the end.
abbrev pub wire : Labels → List ℕ
wire [] = 0 ∷ []
wire (l ∷ ls) = length l ∷ (l ++ wire ls)

-- The labels, each with a dot behind it.
abbrev pub dots : Labels → List ℕ
dots [] = []
dots (l ∷ ls) = l ++ (b'.' ∷ dots ls)

-- The labels with dots between them: the name as a string.
abbrev pub joined : Labels → List ℕ
joined [] = []
joined (l ∷ []) = l
joined (l ∷ m ∷ ls) = l ++ (b'.' ∷ joined (m ∷ ls))

abbrev pub NoDots : List ℕ → Type 0
NoDots [] = Unit
NoDots (x ∷ xs) = (x ≢ b'.') × NoDots xs

abbrev pub AreLabels : Labels → Type 0
AreLabels [] = Unit
AreLabels (l ∷ ls) = (0 < length l) × (length l < 64) × NoDots l × AreLabels ls

-- What the loop makes of the bytes from the last to the first: the length of the label at the
-- front, and the bytes.
abbrev encoded : List ℕ → ℕ → ℕ × List ℕ
encoded [] k = (k, [])
encoded (x ∷ xs) k =
    let (k', zs) = encoded xs k in if x == b'.' then (0, k' % 256 ∷ zs) else (k' + 1, x ∷ zs)

encoded-snoc :
    (xs : List ℕ) (x k : ℕ)
    → encoded (xs ++ (x ∷ [])) k ≡ (
      (encoded xs (if x == b'.' then 0 else k + 1)).0,
      (encoded xs (if x == b'.' then 0 else k + 1)).1 ++ ((if x == b'.' then k % 256 else x) ∷ []),
    )
encoded-snoc [] x k = ground arith
encoded-snoc (y ∷ ys) x k = rw (encoded-snoc ys x k) (ground arith)

length-encoded : (xs : List ℕ) (k : ℕ) → length (encoded xs k).1 ≡ length xs
length-encoded [] k = refl
length-encoded (x ∷ xs) k = ground (arith, length-encoded xs k)

get_elem?-append :
    (xs : List ℕ) (y : ℕ) (ys : List ℕ) → get_elem? (xs ++ (y ∷ ys)) (length xs) ≡ some y
get_elem?-append [] y ys = refl
get_elem?-append (x ∷ xs) y ys = get_elem?-append xs y ys

pub set-append :
    (xs : List ℕ) (y v : ℕ) (ys : List ℕ) → set (xs ++ (y ∷ ys)) (length xs) v ≡ xs ++ (v ∷ ys)
set-append [] y v ys = refl
set-append (x ∷ xs) y v ys = ap (λ zs. x ∷ zs) (set-append xs y v ys)

blit-suc :
    (x : ℕ) (dest : List ℕ) (i : ℕ) (src : List ℕ)
    → blit (x ∷ dest) (suc i) src ≡ x ∷ blit dest i src
blit-suc x dest i [] = refl
blit-suc x dest i (y ∷ src) =
    let e : suc i + 1 ≡ suc (i + 1) = omega arith in rw e (blit-suc x (set dest i y) (i + 1) src)

blit-zero :
    (dest src : List ℕ) → length src ≤ length dest → blit dest 0 src ≡ src ++ drop (length src) dest
blit-zero dest [] h = refl
blit-zero [] (x ∷ src) h = ground arith
blit-zero (d ∷ dest) (x ∷ src) h =
    blit-suc x dest 0 src ∙ ap (λ zs. x ∷ zs) (blit-zero dest src (omega arith))

pub blit-append :
    (xs dest src : List ℕ)
    → length src ≤ length dest
    → blit (xs ++ dest) (length xs) src ≡ xs ++ (src ++ drop (length src) dest)
blit-append [] dest src h = blit-zero dest src h
blit-append (x ∷ xs) dest src h =
    blit-suc x (xs ++ dest) (length xs) src ∙ ap (λ zs. x ∷ zs) (blit-append xs dest src h)

pub snoc_view : (xs : List ℕ) → (xs ≡ []) ⊎ ((ys : List ℕ) × (y : ℕ) × (xs ≡ (ys ++ (y ∷ []))))
snoc_view [] = inl refl
snoc_view (x ∷ xs) = elim (snoc_view xs) [
  | inl e ↦ inr ([], x, ap (λ zs. x ∷ zs) e)
  | inr (ys, y, e) ↦ inr (x ∷ ys, y, ap (λ zs. x ∷ zs) e)
]

encode_labels-encoded :
    (n k d : ℕ) (xs ys : List ℕ)
    → length xs ≡ n
    → encode_labels n k (d ∷ (xs ++ ys)) ≡ some ((encoded xs k).0, d ∷ ((encoded xs k).1 ++ ys))
unfolding encode_labels
encode_labels-encoded zero k d [] ys e = refl
encode_labels-encoded zero k d (x ∷ xs) ys e = ground arith
encode_labels-encoded (suc n) k d xs ys e = elim (snoc_view xs) [
  | inl e' ↦ ground (arith, ap length e')
  | inr (zs, z, e') ↦
      let n_eq : n ≡ length zs = omega (arith, e, ap length e', length-append zs (z ∷ [])) in
      let whole : (d ∷ (xs ++ ys)) ≡ ((d ∷ zs) ++ (z ∷ ys)) = rw (e', append_assoc) refl in
      let size = length-append (d ∷ zs) (z ∷ ys) in
      let loaded : load (d ∷ (xs ++ ys)) (suc n) ≡ some z =
        rw (whole, n_eq) (get_elem?-append (d ∷ zs) z ys) in
      let stored : store (d ∷ (xs ++ ys)) (suc n) (k % 256) ≡ some ((d ∷ zs) ++ (k % 256 ∷ ys)) =
        rw (whole, n_eq)
          (store-some ((d ∷ zs) ++ (z ∷ ys)) (suc (length zs)) (k % 256) (omega arith)
            ∙ ap some (set-append (d ∷ zs) z (k % 256) ys)) in
      let step = encode_labels-encoded n (if z == b'.' then 0 else k + 1) d zs in
      rw (loaded, stored)
        (elim (Bool-cases (z == b'.')) [
          | inl t ↦
              rw (e', encoded-snoc zs z k, t, append_assoc) (rw t at step (k % 256 ∷ ys) (sym n_eq))
          | inr t ↦
              rw
                (
                  e',
                  encoded-snoc zs z k,
                  t,
                  append_assoc zs (z ∷ []) ys,
                  append_assoc (encoded zs (k + 1)).1 (z ∷ []) ys,
                )
                (rw t at step (z ∷ ys) (sym n_eq))
        ])
]

pub drop_next : (n : ℕ) (xs : List ℕ) → n < length xs → (x : ℕ) × (drop n xs ≡ x ∷ drop (suc n) xs)
drop_next n [] h = ground arith
drop_next zero (x ∷ xs) h = (x, refl)
drop_next (suc n) (x ∷ xs) h = drop_next n xs (omega arith)

-- encode_domain_name puts the loop's result behind the first byte, and an end behind it.
encode_domain_name-encoded :
    (d : ℕ) (dest dn : List ℕ)
    → length dn + 1 ≤ length dest
    → encode_domain_name (d ∷ dest) dn
      ≡ some ((encoded dn 0).0 % 256 ∷ ((encoded dn 0).1 ++ (0 ∷ drop (suc (length dn)) dest)))
unfolding encode_domain_name
encode_domain_name-encoded d dest dn room =
    let n = length dn in
    let (e, next) = drop_next n dest (omega arith) in
    let rest = drop (suc n) dest in
    let copied : copy_to (d ∷ dest) 1 dn ≡ some ((d ∷ dn) ++ (e ∷ rest)) =
      copy_to-some (d ∷ dest) 1 dn (omega arith)
      ∙ ap some (blit-append (d ∷ []) dest dn (omega arith) ∙ ap (λ ys. d ∷ (dn ++ ys)) next) in
    let size = length-append (d ∷ dn) (e ∷ rest) in
    let ended : store ((d ∷ dn) ++ (e ∷ rest)) (n + 1) 0 ≡ some ((d ∷ dn) ++ (0 ∷ rest)) =
      let at : n + 1 ≡ suc n = omega arith in
      rw at (
        store-some ((d ∷ dn) ++ (e ∷ rest)) (suc n) 0 (omega arith)
        ∙ ap some (set-append (d ∷ dn) e 0 rest)) in
    rw (copied, ended, encode_labels-encoded n 0 d dn (0 ∷ rest) refl)
      (store-some (d ∷ ((encoded dn 0).1 ++ (0 ∷ rest))) 0 _ (omega arith))

encoded-append :
    (l rest : List ℕ) (k : ℕ)
    → NoDots l
    → ((encoded (l ++ rest) k).0 ≡ length l + (encoded rest k).0)
      × ((encoded (l ++ rest) k).1 ≡ (l ++ (encoded rest k).1))
encoded-append [] rest k plain = (omega arith, refl)
encoded-append (x ∷ l) rest k (ne, plain) =
    let (count, bytes) = encoded-append l rest k plain in
    rw (ne→== x b'.' ne) (omega arith, ap (λ zs. x ∷ zs) bytes)

-- The bytes of a name's labels are its form in a message.
encoded-wire :
    (l : List ℕ) (ls : Labels)
    → AreLabels (l ∷ ls)
    → ((encoded (joined (l ∷ ls)) 0).0 ≡ length l)
      × (((encoded (joined (l ∷ ls)) 0).1 ++ (0 ∷ [])) ≡ (l ++ wire ls))
encoded-wire l [] (l0, l64, plain, _) =
    let (count, bytes) = encoded-append l [] 0 plain in
    subst (λ ys. ((encoded ys 0).0 ≡ length l) × (((encoded ys 0).1 ++ (0 ∷ [])) ≡ (l ++ (0 ∷ []))))
      (append-nil l)
      (omega (arith, count), ap (λ ys. ys ++ (0 ∷ [])) bytes ∙ append_assoc l [] (0 ∷ []))
encoded-wire l (m ∷ ls) (l0, l64, plain, more) =
    let (k_eq, end) = encoded-wire m ls more in
    let (m0, m64, _, _) = more in
    let dot : List ℕ = b'.' ∷ joined (m ∷ ls) in
    let (count, bytes) = encoded-append l dot 0 plain in
    let small : (encoded (joined (m ∷ ls)) 0).0 % 256 ≡ length m = omega (arith, k_eq) in
    (
      omega (arith, count),
      ap (λ ys. ys ++ (0 ∷ [])) bytes
          ∙ append_assoc l (encoded dot 0).1 (0 ∷ [])
          ∙ ap (λ ys. l ++ ys) (ap₂ ◌∷◌ small end),
    )

pub length-wire : (l : List ℕ) (ls : Labels) → length (wire (l ∷ ls)) ≡ length (joined (l ∷ ls)) + 2
length-wire l [] = omega (arith, length-append l (0 ∷ []))
length-wire l (m ∷ ls) = omega (
  arith,
  length-wire m ls,
  length-append l (wire (m ∷ ls)),
  length-append l (b'.' ∷ joined (m ∷ ls)),
)

-- encode_domain_name of the labels of a name with dots between them writes each label behind its
-- length, and the end, at the start of the memory that it is given.
pub encode_domain_name-wire :
    (dest l : List ℕ) (ls : Labels)
    → AreLabels (l ∷ ls)
    → length (joined (l ∷ ls)) + 2 ≤ length dest
    → encode_domain_name dest (joined (l ∷ ls))
      ≡ some (wire (l ∷ ls) ++ drop (length (wire (l ∷ ls))) dest)
encode_domain_name-wire [] l ls labels room = ground arith
encode_domain_name-wire (d ∷ dest) l ls labels room =
    let name = joined (l ∷ ls) in
    let (k_eq, bytes) = encoded-wire l ls labels in
    let (l0, l64, _, _) = labels in
    let rest = drop (suc (length name)) dest in
    let small : (encoded name 0).0 % 256 ≡ length l = omega (arith, k_eq) in
    let size : length (wire (l ∷ ls)) ≡ suc (suc (length name)) = omega (arith, length-wire l ls) in
    let start : (encoded name 0).1 ++ (0 ∷ rest) ≡ (l ++ wire ls) ++ rest =
      sym (append_assoc (encoded name 0).1 (0 ∷ []) rest) ∙ ap (λ ys. ys ++ rest) bytes in
    rw (encode_domain_name-encoded d dest name (omega arith), small, start, size) refl
