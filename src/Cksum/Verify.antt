-- ===== src/Cksum/Verify.antt =====
-- A message that carries its checksum, as ping/send_v4.c fills it in: the field is set to zero, and
-- then to the checksum of the whole message.
use unix_network_programming.Prelude.{
  ℕ, zero, suc, ◌+◌, ◌-◌, ◌%◌, ◌<◌, ◌≡◌, refl, ap, ◌∙◌, List, [], ◌∷◌, ◌++◌, arith, length,
  length-append,
}
use unix_network_programming.Cksum.{Endian, little, big, word, in_cksum}
use unix_network_programming.Cksum.Folding.{AreBytes, residue, total, in_cksum-residue}

-- An even number of bytes, so that what follows begins a word.
abbrev pub IsEven : List ℕ → Type 0
IsEven [] = Unit {0}
IsEven (a ∷ []) = ⊥
IsEven (a ∷ b ∷ bytes) = IsEven bytes

total-append :
    (o : Endian) (pre post : List ℕ)
    → IsEven pre
    → total o (pre ++ post) ≡ total o pre + total o post
total-append o [] post e = omega arith
total-append o (a ∷ []) post e = absurd e
total-append o (a ∷ b ∷ pre) post e = omega (arith, total-append o pre post e)

pub AreBytes-append : (pre post : List ℕ) → AreBytes pre → AreBytes post → AreBytes (pre ++ post)
AreBytes-append [] post p q = q
AreBytes-append (a ∷ pre) post p q = (p.0, AreBytes-append pre post p.1 q)

residue-complement : (n : ℕ) → residue (n + (65535 - residue n)) ≡ 65535
residue-complement zero = refl
residue-complement (suc n) =
    let e : suc n + (65535 - residue (suc n)) ≡ suc (n + (65535 - (n % 65535 + 1))) = omega arith in
    ap residue e ∙ omega arith

pub in_cksum_lt : (o : Endian) (bytes : List ℕ) → in_cksum o bytes < 65536
unfolding in_cksum
in_cksum_lt o bytes = omega arith

word_zero : (o : Endian) → word o 0 0 ≡ 0
word_zero little = refl
word_zero big = refl

module _ (o : Endian) (pre post : List ℕ) (even : IsEven pre) (p : AreBytes pre) (q : AreBytes post)
    (short : length (pre ++ 0 ∷ 0 ∷ post) < 65536) where
  cleared : in_cksum o (pre ++ 0 ∷ 0 ∷ post) ≡ 65535 - residue (total o pre + total o post)
  cleared =
      in_cksum-residue o (pre ++ 0 ∷ 0 ∷ post)
        (AreBytes-append pre (0 ∷ 0 ∷ post) p (omega arith, (omega arith, q))) (omega arith)
      ∙ ap (λ m. 65535 - residue m) {x = 0 + total o (pre ++ 0 ∷ 0 ∷ post)}
          {y = total o pre + total o post}
          (omega (arith, total-append o pre (0 ∷ 0 ∷ post) even, word_zero o))

  -- In a message of fewer than 65536 bytes, with a checksum field of zero after an even number of them,
  -- put in_cksum() of the message into the field: then in_cksum() of the message is 0. This holds in
  -- either byte order.
  pub in_cksum_verifies :
      (x y : ℕ)
      → x < 256
      → y < 256
      → word o x y ≡ in_cksum o (pre ++ 0 ∷ 0 ∷ post)
      → in_cksum o (pre ++ x ∷ y ∷ post) ≡ 0
  in_cksum_verifies x y hx hy e =
      in_cksum-residue o (pre ++ x ∷ y ∷ post) (AreBytes-append pre (x ∷ y ∷ post) p (hx, (hy, q)))
        (omega (arith, length-append pre (x ∷ y ∷ post), length-append pre (0 ∷ 0 ∷ post)))
      ∙ ap (λ m. 65535 - residue m) {x = 0 + total o (pre ++ x ∷ y ∷ post)}
          {y = total o pre + total o post + (65535 - residue (total o pre + total o post))}
          (omega (arith, total-append o pre (x ∷ y ∷ post) even, cleared, e))
      ∙ ap (λ m. 65535 - m) (residue-complement (total o pre + total o post))
