-- ===== src/Dns/Handlers/Question.antt =====
-- The bytes of the packet that ss_dns_resolve_start_inner builds.
use simple_socks.Common.{
  ℕ, zero, suc, ◌+◌, ◌≤◌, ◌≡◌, refl, sym, ap, ◌∙◌, some, List, [], ◌∷◌, ◌++◌, append-nil,
  append_assoc, arith, length, length-append, length-drop, length-replicate, nil_of_length, take,
  drop, drop-drop, replicate, copy_to, copy_to-some,
}
use simple_socks.Dns.{StrMap}
use simple_socks.Dns.Names.Wire.{
  Labels, AreLabels, joined, wire, length-wire, blit-append, encode_domain_name-wire,
}
use simple_socks.Dns.Handlers.{header_query, question_tail, request_bytes}

-- memcpy behind a front that stays.
copy_to-behind :
    (front dest src : List ℕ) (i : ℕ)
    → i ≡ length front
    → length src ≤ length dest
    → copy_to (front ++ dest) i src ≡ some (front ++ (src ++ drop (length src) dest))
copy_to-behind front dest src i e fits = rw (
  e,
  copy_to-some (front ++ dest) (length front) src (omega (arith, length-append front dest)),
  blit-append front dest src fits,
)

pub take-past : (n m : ℕ) (xs ys : List ℕ) → n ≡ length xs + m → take n (xs ++ ys) ≡ xs ++ take m ys
take-past n m [] ys e = ap (λ k. take k ys) (omega arith)
take-past zero m (x ∷ xs) ys e = absurd (omega arith)
take-past (suc n) m (x ∷ xs) ys e = ap (λ zs. x ∷ zs) (take-past n m xs ys (omega arith))

pub header-length : (tid n : ℕ) → length (header_query tid n) ≡ 12
unfolding header_query
header-length tid n = refl

tail-length : length question_tail ≡ 4
unfolding question_tail
tail-length = refl

module _ (stack l : List ℕ) (ls : Labels) (tid : ℕ) where
  abbrev name : List ℕ
  name = joined (l ∷ ls)

  -- The header and one question, of type AAAA.
  abbrev pub question : List ℕ
  question = (header_query tid 1 ++ wire (l ∷ ls)) ++ question_tail

  -- The packet that is sent: the question, and what the stack held behind it.
  abbrev pub request : List ℕ
  request = question ++ take (length name + 6) (drop (length name + 18) stack)

  pub length-question : length question ≡ length name + 18
  length-question = omega (
    arith,
    length-append (header_query tid 1 ++ wire (l ∷ ls)) question_tail,
    length-append (header_query tid 1) (wire (l ∷ ls)),
    header-length tid 1,
    tail-length,
    length-wire l ls,
  )

  pub request_bytes-question :
      (strmap : StrMap)
      → AreLabels (l ∷ ls)
      → length name + 18 ≤ length stack
      → request_bytes strmap stack tid name ≡ some (question ++ drop (length name + 18) stack)
  unfolding request_bytes
  request_bytes-question strmap labels room =
      let head = header_query tid 1 in
      let size = header-length tid 1 in
      let wired = length-wire l ls in
      let tail = tail-length in
      let behind = drop (length head) stack in
      let dest : List ℕ = replicate (length name + 2) 0 in
      let dest_size : length dest ≡ length name + 2 = length-replicate (length name + 2) _ in
      let n : length name + 2 ≡ length (wire (l ∷ ls)) = omega arith in
      let filled : drop (length (wire (l ∷ ls))) dest ≡ [] =
        nil_of_length _ (omega (arith, length-drop (length (wire (l ∷ ls))) dest)) in
      let encoded = encode_domain_name-wire dest l ls labels (omega arith) in
      let first = copy_to-behind [] stack head 0 refl (omega arith) in
      let second =
        copy_to-behind head behind (wire (l ∷ ls)) 12 (sym size)
          (omega (arith, length-drop (length head) stack)) in
      let behind' = drop (length (wire (l ∷ ls))) behind in
      let third =
        copy_to-behind (head ++ wire (l ∷ ls)) behind' question_tail (12 + (length name + 2))
          (omega (arith, length-append head (wire (l ∷ ls))))
          (omega (
            arith,
            length-drop (length (wire (l ∷ ls))) behind,
            length-drop (length head) stack,
          )) in
      let left : drop (length name + 18) stack ≡ drop (length question_tail) behind' =
        ap (λ k. drop k stack) (omega arith)
        ∙ drop-drop (length head + length (wire (l ∷ ls))) (length question_tail) stack
        ∙ ap (drop (length question_tail))
            (drop-drop (length head) (length (wire (l ∷ ls))) stack) in
      rw
        (
          first,
          encoded,
          filled,
          append-nil (wire (l ∷ ls)),
          second,
          sym (append_assoc head (wire (l ∷ ls)) behind'),
          third,
          left,
        )
        (ap some (
          sym (
            append_assoc (head ++ wire (l ∷ ls)) question_tail
              (drop (length question_tail) behind'))))
