-- ===== src/Dns/Names/Wire/Read.antt =====
-- read_domain_name on the form of a name in a message, and the way back from encode_domain_name.
use simple_socks.Common.{
  ℕ, zero, suc, ◌+◌, ◌-◌, ◌%◌, ◌≤◌, ◌<◌, ◌≡◌, refl, sym, ap, subst, ◌∙◌, true, some, List, [], ◌∷◌,
  ◌++◌, append_assoc, length, ne→==, le→leb, ge→ltb, gt→leb, drop, slice, blit, arith,
  length-append, store, store-some, some-injective, drop-append, drop-drop, length-drop,
  take-append,
}
use simple_socks.Common.IoError.{ok}
use simple_socks.PacketBuffer.{PacketBuffer, read_front}
use simple_socks.PacketBuffer.Contents.{IsValid}
use simple_socks.PacketBuffer.Send.{read_front-slice}
use simple_socks.Dns.{name_max}
use simple_socks.Dns.Names.{name_end, add_label, read_name, read_domain_name, encode_domain_name}
use simple_socks.Dns.Names.Bounds.{front_of, front_small, labelled, add_label-some}
use simple_socks.Dns.Names.Wire.{
  Labels, wire, dots, joined, AreLabels, set-append, blit-append, encode_domain_name-wire,
  drop_next, length-wire,
}

slice-append : (xs ys zs : List ℕ) → slice (length xs) (length ys) (xs ++ (ys ++ zs)) ≡ ys
slice-append xs ys zs = rw (drop-append xs (ys ++ zs)) (take-append ys zs)

-- A label and its dot behind what is in the array.
labelled-append :
    (acc junk label : List ℕ)
    → length label < length junk
    → labelled (acc ++ junk) (length acc) label
      ≡ (acc ++ (label ++ (b'.' ∷ []))) ++ drop (suc (length label)) junk
labelled-append acc junk label room =
    let (j, next) = drop_next (length label) junk room in
    let end = drop (suc (length label)) junk in
    let put : blit (acc ++ junk) (length acc) label ≡ (acc ++ label) ++ (j ∷ end) =
      blit-append acc junk label (omega arith)
      ∙ ap (λ ys. acc ++ (label ++ ys)) next
      ∙ sym (append_assoc acc label (j ∷ end)) in
    let at : length acc + length label ≡ length (acc ++ label) =
      omega (arith, length-append acc label) in
    rw (put, at)
      (set-append (acc ++ label) j b'.' end
        ∙ append_assoc acc label (b'.' ∷ end)
        ∙ ap (λ ys. acc ++ ys) (sym (append_assoc label (b'.' ∷ []) end))
        ∙ sym (append_assoc acc (label ++ (b'.' ∷ [])) end))

dots-joined : (l : List ℕ) (ls : Labels) → dots (l ∷ ls) ≡ (joined (l ∷ ls) ++ (b'.' ∷ []))
dots-joined l [] = refl
dots-joined l (m ∷ ls) =
    ap (λ ys. l ++ (b'.' ∷ ys)) (dots-joined m ls)
    ∙ sym (append_assoc l (b'.' ∷ joined (m ∷ ls)) (b'.' ∷ []))

grown :
    (acc l ds junk : List ℕ)
    → ((acc ++ (l ++ (b'.' ∷ []))) ++ (ds ++ drop (length ds) (drop (suc (length l)) junk)))
      ≡ (acc ++ ((l ++ (b'.' ∷ ds)) ++ drop (length (l ++ (b'.' ∷ ds))) junk))
grown acc l ds junk =
    let size : length (l ++ (b'.' ∷ ds)) ≡ suc (length l) + length ds =
      omega (arith, length-append l (b'.' ∷ ds)) in
    rw (size, drop-drop (suc (length l)) (length ds) junk)
      (append_assoc acc (l ++ (b'.' ∷ [])) _
        ∙ ap (λ ys. acc ++ ys) (append_assoc l (b'.' ∷ []) _ ∙ sym (append_assoc l (b'.' ∷ ds) _)))

ap₃ :
    {B : Type 0}
    → (f : ℕ → List ℕ → ℕ → B) {a a' c c' : ℕ} {xs xs' : List ℕ} → a ≡ a'
    → xs ≡ xs'
    → c ≡ c'
    → f a xs c ≡ f a' xs' c'
ap₃ f e e' e'' = rw (e, e', e'') refl

module _ (b : PacketBuffer) (v : IsValid b) (p : 0 < b.packet_count) where
  pub read_part :
      (xs ys zs : List ℕ)
      → front_of b ≡ (xs ++ (ys ++ zs))
      → read_front true b (length xs) (length ys) ≡ some (true, ys, length xs + length ys)
  read_part xs ys zs whole =
      let size = ap length whole in
      let e = length-append xs (ys ++ zs) in
      let e' = length-append ys zs in
      let inside : length xs + length ys ≤ length (front_of b) = omega (arith, size, e, e') in
      let part : slice (length xs) (length ys) (front_of b) ≡ ys =
        rw whole (slice-append xs ys zs) in
      rw (
        read_front-slice b v p (length xs) (length ys) (omega (arith, front_small b v p)),
        le→leb (length xs + length ys) (length (front_of b)) inside,
        part,
      )

  read_name-wire :
      (fuel : ℕ) (pre : List ℕ) (ls : Labels) (post acc junk : List ℕ)
      → front_of b ≡ (pre ++ (wire ls ++ post))
      → AreLabels ls
      → length acc + length (dots ls) ≤ 255
      → length (dots ls) ≤ length junk
      → length ls < fuel
      → read_name fuel b (length pre) (some (acc ++ junk)) (length acc)
        ≡ name_end ok
            (length pre + length (wire ls))
            (some (acc ++ (dots ls ++ drop (length (dots ls)) junk)))
            (length acc + length (dots ls))
  unfolding read_name
  read_name-wire zero pre ls post acc junk whole labels small room enough = ground arith
  read_name-wire (suc fuel) pre [] post acc junk whole labels small room enough =
      let none_left : length acc + 0 ≡ length acc = omega arith in
      rw (read_part pre (0 ∷ []) post whole, none_left) refl
  read_name-wire (suc fuel) pre (l ∷ ls) post acc junk whole (l0, l64, plain, labels) small room
        enough =
      let n : List ℕ = length l ∷ [] in
      let whole2 : front_of b ≡ ((pre ++ n) ++ (l ++ (wire ls ++ post))) =
        whole
        ∙ ap (λ ys. pre ++ (length l ∷ ys)) (append_assoc l (wire ls) post)
        ∙ sym (append_assoc pre n _) in
      let whole3 : front_of b ≡ (((pre ++ n) ++ l) ++ (wire ls ++ post)) =
        whole2 ∙ sym (append_assoc (pre ++ n) l (wire ls ++ post)) in
      let size_pre = length-append pre n in
      let size_pre2 = length-append (pre ++ n) l in
      let size_dots = length-append l (b'.' ∷ dots ls) in
      let byte : length l % 256 ≡ length l = omega arith in
      let label : read_front true b (length pre + 1) (length l)
          ≡ some (true, l, length pre + 1 + length l) =
        subst (λ k. read_front true b k (length l) ≡ some (true, l, k + length l))
          (omega (arith, size_pre)) (read_part (pre ++ n) l (wire ls ++ post) whole2) in
      let acc' = acc ++ (l ++ (b'.' ∷ [])) in
      let junk' = drop (suc (length l)) junk in
      let put : add_label (some (acc ++ junk)) (length acc) l (length l)
          ≡ some (some (acc' ++ junk'), length acc + length l + 1) =
        add_label-some (acc ++ junk) (length acc) l (length l) refl
          (omega (arith, length-append acc junk))
        ∙ ap (λ ys. some (some ys, length acc + length l + 1))
            (labelled-append acc junk l (omega arith)) in
      let size_acc : length acc' ≡ length acc + length l + 1 =
        omega (arith, length-append acc (l ++ (b'.' ∷ [])), length-append l (b'.' ∷ [])) in
      let rest =
        read_name-wire fuel ((pre ++ n) ++ l) ls post acc' junk' whole3 labels (omega arith)
          (omega (arith, length-drop (suc (length l)) junk)) (omega arith) in
      let start : length ((pre ++ n) ++ l) ≡ length pre + 1 + length l =
        omega (arith, size_pre, size_pre2) in
      let offset_eq : length pre + 1 + length l + length (wire ls)
          ≡ length pre + suc (length (l ++ wire ls)) =
        omega (arith, length-append l (wire ls)) in
      let total_eq : length acc + length l + 1 + length (dots ls)
          ≡ length acc + length (dots (l ∷ ls)) =
        omega (arith, size_dots) in
      let name_eq : (acc' ++ (dots ls ++ drop (length (dots ls)) junk'))
          ≡ (acc ++ (dots (l ∷ ls) ++ drop (length (dots (l ∷ ls))) junk)) =
        grown acc l (dots ls) junk in
      rw
        (
          read_part pre n ((l ++ wire ls) ++ post) whole,
          byte,
          ne→== (length l) 0 (omega arith),
          gt→leb 64 (length l) l64,
          ge→ltb name_max (length acc + length l) (omega arith),
          label,
          put,
        )
        (rw (start, size_acc) at rest
          ∙ ap₃ (λ o ys t. name_end ok o (some ys) t) offset_eq name_eq total_eq)

  -- A name in the first packet, with its labels each behind its length: read_domain_name leaves the
  -- labels with dots between them and the end of the string, and the offset behind the name.
  pub read_domain_name-wire :
      (fuel : ℕ) (pre l : List ℕ) (ls : Labels) (post name : List ℕ)
      → front_of b ≡ (pre ++ (wire (l ∷ ls) ++ post))
      → AreLabels (l ∷ ls)
      → length (joined (l ∷ ls)) ≤ 254
      → length (joined (l ∷ ls)) < length name
      → length (l ∷ ls) < fuel
      → read_domain_name fuel b (length pre) (some name)
        ≡ some (
          ok,
          length pre + (length (joined (l ∷ ls)) + 2),
          some (joined (l ∷ ls) ++ (0 ∷ drop (suc (length (joined (l ∷ ls)))) name)),
          length (joined (l ∷ ls)) + 1,
        )
  unfolding read_domain_name name_end
  read_domain_name-wire fuel pre l ls post name whole labels small room enough =
      let dn = joined (l ∷ ls) in
      let e = dots-joined l ls in
      let size : length (dots (l ∷ ls)) ≡ length dn + 1 =
        omega (arith, ap length e, length-append dn (b'.' ∷ [])) in
      let read =
        read_name-wire fuel pre (l ∷ ls) post [] name whole labels (omega arith) (omega arith)
          enough in
      let rest = drop (suc (length dn)) name in
      let array : (dots (l ∷ ls) ++ drop (length (dots (l ∷ ls))) name) ≡ (dn ++ (b'.' ∷ rest)) =
        let next : length dn + 1 ≡ suc (length dn) = omega arith in
        rw (size, next, e) (append_assoc dn (b'.' ∷ []) rest) in
      let total : 0 + length (dots (l ∷ ls)) ≡ length dn + 1 = omega (arith, size) in
      let last : length dn + 1 - 1 ≡ length dn = omega arith in
      let stored : store (dn ++ (b'.' ∷ rest)) (length dn) 0 ≡ some (dn ++ (0 ∷ rest)) =
        store-some (dn ++ (b'.' ∷ rest)) (length dn) 0
          (omega (arith, length-append dn (b'.' ∷ rest)))
        ∙ ap some (set-append dn b'.' 0 rest) in
      read ∙ rw (array, total, last, stored, length-wire l ls) refl

  -- A name that encode_domain_name wrote into a message is read back as it was.
  pub read_domain_name-encode_domain_name :
      (fuel : ℕ) (pre post dest bytes l : List ℕ) (ls : Labels) (name : List ℕ)
      → AreLabels (l ∷ ls)
      → length (joined (l ∷ ls)) ≤ 254
      → length (joined (l ∷ ls)) + 2 ≤ length dest
      → encode_domain_name dest (joined (l ∷ ls)) ≡ some bytes
      → front_of b ≡ (pre ++ (bytes ++ post))
      → length (joined (l ∷ ls)) < length name
      → length (l ∷ ls) < fuel
      → read_domain_name fuel b (length pre) (some name)
        ≡ some (
          ok,
          length pre + (length (joined (l ∷ ls)) + 2),
          some (joined (l ∷ ls) ++ (0 ∷ drop (suc (length (joined (l ∷ ls)))) name)),
          length (joined (l ∷ ls)) + 1,
        )
  read_domain_name-encode_domain_name fuel pre post dest bytes l ls name labels small fits encodes
        whole room enough =
      let behind = drop (length (wire (l ∷ ls))) dest in
      let same : bytes ≡ (wire (l ∷ ls) ++ behind) =
        some-injective _ _ (sym encodes ∙ encode_domain_name-wire dest l ls labels fits) in
      let whole' : front_of b ≡ (pre ++ (wire (l ∷ ls) ++ (behind ++ post))) =
        whole
        ∙ ap (λ ys. pre ++ ys)
            (ap (λ ys. ys ++ post) same ∙ append_assoc (wire (l ∷ ls)) behind post) in
      read_domain_name-wire fuel pre l ls (behind ++ post) name whole' labels small room enough
