-- ===== src/Dns/Names/Skip.antt =====
-- A name and a question that are read with no array to put them into, as read_query does.
use simple_socks.Common.{
  ℕ, zero, suc, ◌+◌, ◌%◌, ◌≤◌, ◌<◌, ◌≡◌, refl, sym, ap, subst, ◌∙◌, true, false, none, some, List,
  [], ◌∷◌, ◌++◌, append_assoc, length, length-append, arith, ne→==, ge→ltb, gt→leb, add_size,
}
use simple_socks.Common.IoError.{ok}
use simple_socks.PacketBuffer.{PacketBuffer, read_front}
use simple_socks.PacketBuffer.Contents.{IsValid, block_at, get_block-some}
use simple_socks.PacketBuffer.Send.{length-front}
use simple_socks.Dns.{name_max}
use simple_socks.Dns.Names.{name_end, add_label, read_name, read_domain_name}
use simple_socks.Dns.Names.Bounds.{front_of, front_small}
use simple_socks.Dns.Names.Wire.{Labels, AreLabels, joined, wire}
use simple_socks.Dns.Names.Wire.Read.{read_part}
use simple_socks.Dns.Records.{skip_question_tail, read_query}

-- The bytes of the labels, without dots.
abbrev pub letters : Labels → ℕ
letters [] = 0
letters (l ∷ ls) = length l + letters ls

pub letters-joined : (ls : Labels) → letters ls ≤ length (joined ls)
letters-joined [] = omega arith
letters-joined (l ∷ []) = omega arith
letters-joined (l ∷ m ∷ ls) =
    omega (arith, letters-joined (m ∷ ls), length-append l (b'.' ∷ joined (m ∷ ls)))

module _ (b : PacketBuffer) (v : IsValid b) (p : 0 < b.packet_count) where
  -- ss_packet_buffer_read_front into no memory.
  skip_part :
      (xs ys zs : List ℕ)
      → front_of b ≡ (xs ++ (ys ++ zs))
      → read_front false b (length xs) (length ys) ≡ some (true, [], length xs + length ys)
  unfolding read_front
  skip_part xs ys zs whole =
      let size = ap length whole in
      let e = length-append xs (ys ++ zs) in
      let e' = length-append ys zs in
      let small = front_small b v p in
      let count_in = v.count_in in
      let sum : add_size (length xs) (length ys) ≡ length xs + length ys = omega arith in
      rw (
        ne→== b.packet_count 0 (omega arith),
        get_block-some b v 0 (omega arith),
        sum,
        ge→ltb (block_at b 0).size (length xs + length ys) (omega (arith, length-front b v p)),
      )

  skip_name-wire :
      (fuel : ℕ) (pre : List ℕ) (ls : Labels) (post : List ℕ) (total : ℕ)
      → front_of b ≡ (pre ++ (wire ls ++ post))
      → AreLabels ls
      → total + letters ls ≤ 254
      → length ls < fuel
      → read_name fuel b (length pre) none total
        ≡ some (ok, length pre + length (wire ls), none, total + letters ls)
  unfolding read_name name_end add_label
  skip_name-wire zero pre ls post total whole labels small enough = ground arith
  skip_name-wire (suc fuel) pre [] post total whole labels small enough =
      let same : total + 0 ≡ total = omega arith in
      rw (read_part b v p pre (0 ∷ []) post whole, same) refl
  skip_name-wire (suc fuel) pre (l ∷ ls) post total whole (l0, l64, plain, labels) small enough =
      let n : List ℕ = length l ∷ [] in
      let whole2 : front_of b ≡ ((pre ++ n) ++ (l ++ (wire ls ++ post))) =
        whole
        ∙ ap (λ ys. pre ++ (length l ∷ ys)) (append_assoc l (wire ls) post)
        ∙ sym (append_assoc pre n _) in
      let whole3 : front_of b ≡ (((pre ++ n) ++ l) ++ (wire ls ++ post)) =
        whole2 ∙ sym (append_assoc (pre ++ n) l (wire ls ++ post)) in
      let size_pre = length-append pre n in
      let size_pre2 = length-append (pre ++ n) l in
      let byte : length l % 256 ≡ length l = omega arith in
      let label : read_front false b (length pre + 1) (length l)
          ≡ some (true, [], length pre + 1 + length l) =
        subst (λ k. read_front false b k (length l) ≡ some (true, [], k + length l))
          (omega (arith, size_pre)) (skip_part (pre ++ n) l (wire ls ++ post) whole2) in
      let rest =
        skip_name-wire fuel ((pre ++ n) ++ l) ls post (total + length l) whole3 labels (omega arith)
          (omega arith) in
      let start : length ((pre ++ n) ++ l) ≡ length pre + 1 + length l =
        omega (arith, size_pre, size_pre2) in
      let offset_eq : length pre + 1 + length l + length (wire ls)
          ≡ length pre + suc (length (l ++ wire ls)) =
        omega (arith, length-append l (wire ls)) in
      let total_eq : total + length l + letters ls ≡ total + (length l + letters ls) =
        omega arith in
      rw
        (
          read_part b v p pre n ((l ++ wire ls) ++ post) whole,
          byte,
          ne→== (length l) 0 (omega arith),
          gt→leb 64 (length l) l64,
          ge→ltb name_max (total + length l) (omega arith),
          label,
        )
        (rw start at rest ∙ rw (offset_eq, total_eq) refl)

  -- A question of a name and four bytes behind it is read to its end.
  pub read_query-wire :
      (fuel : ℕ) (pre l : List ℕ) (ls : Labels) (x y x' y' : ℕ) (post : List ℕ)
      → front_of b ≡ (pre ++ (wire (l ∷ ls) ++ (x ∷ y ∷ x' ∷ y' ∷ post)))
      → AreLabels (l ∷ ls)
      → length (joined (l ∷ ls)) ≤ 254
      → length (l ∷ ls) < fuel
      → read_query fuel b (length pre) ≡ some (ok, length pre + length (wire (l ∷ ls)) + 2 + 2)
  unfolding read_query read_domain_name skip_question_tail
  read_query-wire fuel pre l ls x y x' y' post whole labels small enough =
      let name = wire (l ∷ ls) in
      let size = length-append pre name in
      let whole2 : front_of b ≡ ((pre ++ name) ++ ((x ∷ y ∷ []) ++ (x' ∷ y' ∷ post))) =
        whole ∙ sym (append_assoc pre name (x ∷ y ∷ x' ∷ y' ∷ post)) in
      let whole3 : front_of b ≡ (((pre ++ name) ++ (x ∷ y ∷ [])) ++ ((x' ∷ y' ∷ []) ++ post)) =
        whole2 ∙ sym (append_assoc (pre ++ name) (x ∷ y ∷ []) (x' ∷ y' ∷ post)) in
      let size2 = length-append (pre ++ name) (x ∷ y ∷ []) in
      let first =
        subst (λ k. read_front false b k 2 ≡ some (true, [], k + 2)) size
          (skip_part (pre ++ name) (x ∷ y ∷ []) (x' ∷ y' ∷ post) whole2) in
      let second =
        subst (λ k. read_front false b k 2 ≡ some (true, [], k + 2)) (size2 ∙ ap (λ k. k + 2) size)
          (skip_part ((pre ++ name) ++ (x ∷ y ∷ [])) (x' ∷ y' ∷ []) post whole3) in
      rw
        (
          skip_name-wire fuel pre (l ∷ ls) (x ∷ y ∷ x' ∷ y' ∷ post) 0 whole labels
              (omega (arith, letters-joined (l ∷ ls))) enough,
          first,
          second,
        )
        refl
