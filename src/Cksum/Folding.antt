-- ===== src/Cksum/Folding.antt =====
-- in_cksum() against the sum in ones' complement.
use unix_network_programming.Prelude.{
  ℕ, zero, suc, ◌+◌, ◌-◌, ◌*◌, ◌%◌, ◌^◌, ◌<◌, ◌≡◌, refl, ap, sym, ◌∙◌, List, [], ◌∷◌, arith, ltb,
  if◌then◌else◌, length,
}
use unix_network_programming.Cksum.{Endian, little, big, word, sum_words, fold, in_cksum}

-- Addition of 16-bit numbers in ones' complement: a carry out of the top goes round to the bottom.
abbrev pub add_ones : ℕ → ℕ → ℕ
add_ones a b = if ltb (a + b) 65536 then a + b else a + b - 65535

-- The sum of the words of a message.
abbrev pub ones_sum : Endian → ℕ → List ℕ → ℕ
ones_sum o acc (a ∷ b ∷ bytes) = ones_sum o (add_ones acc (word o a b)) bytes
ones_sum o acc (a ∷ []) = add_ones acc (word o a 0)
ones_sum o acc [] = acc

abbrev pub AreBytes : List ℕ → Type 0
AreBytes [] = Unit {0}
AreBytes (a ∷ bytes) = (a < 256) × AreBytes bytes

-- The number from 1 to 65535 that is `n` modulo 65535; 0 for 0.
abbrev pub residue : ℕ → ℕ
residue zero = 0
residue (suc n) = n % 65535 + 1

-- The sum of the words, without any bound.
abbrev pub total : Endian → List ℕ → ℕ
total o (a ∷ b ∷ bytes) = word o a b + total o bytes
total o (a ∷ []) = word o a 0
total o [] = 0

pub word-lt : (o : Endian) (a b : ℕ) → a < 256 → b < 256 → word o a b < 65536
word-lt little a b p q = omega arith
word-lt big a b p q = omega arith

residue-fold : (n : ℕ) → n < 2 ^ 32 → fold n % 2 ^ 16 ≡ residue n
unfolding fold
residue-fold zero h = refl
residue-fold (suc n) h = omega arith

residue-add : (n w : ℕ) → w < 65536 → add_ones (residue n) w ≡ residue (n + w)
residue-add zero zero h = refl
residue-add zero (suc w) h = let e : 0 + suc w ≡ suc w = omega arith in rw e (ground arith)
residue-add (suc n) w h = let e : suc n + w ≡ suc (n + w) = omega arith in rw e (ground arith)

word-odd : (o : Endian) (a : ℕ) → a < 256 → word o a 0 < 65536
word-odd little a p = omega arith
word-odd big a p = omega arith

-- The bytes keep the sum below 2^32.
abbrev pub Fits : ℕ → List ℕ → Type 0
Fits n bytes = n + 65536 * length bytes < 2 ^ 32

ones_sum-residue :
    (o : Endian) (n : ℕ) (bytes : List ℕ)
    → AreBytes bytes
    → ones_sum o (residue n) bytes ≡ residue (n + total o bytes)
ones_sum-residue o n [] h = ap residue {x = n} {y = n + 0} (omega arith)
ones_sum-residue o n (a ∷ []) h = residue-add n (word o a 0) (word-odd o a h.0)
ones_sum-residue o n (a ∷ b ∷ bytes) h =
    ap (λ r. ones_sum o r bytes) (residue-add n (word o a b) (word-lt o a b h.0 h.1.0))
    ∙ ones_sum-residue o (n + word o a b) bytes h.1.1
    ∙ ap residue {x = n + word o a b + total o bytes} {y = n + (word o a b + total o bytes)}
        (omega arith)

sum_words-total :
    (o : Endian) (n : ℕ) (bytes : List ℕ)
    → AreBytes bytes
    → Fits n bytes
    → (sum_words o n bytes ≡ n + total o bytes) × (n + total o bytes < 2 ^ 32)
unfolding sum_words
sum_words-total o n [] h f = (omega arith, omega arith)
sum_words-total o n (a ∷ []) h f =
    (omega (arith, word-odd o a h.0), omega (arith, word-odd o a h.0))
sum_words-total o n (a ∷ b ∷ bytes) h f =
    let w : word o a b < 65536 = word-lt o a b h.0 h.1.0 in
    let e : (n + word o a b) % 2 ^ 32 ≡ n + word o a b = omega (arith, w) in
    let (p, q) = sum_words-total o (n + word o a b) bytes h.1.1 (omega (arith, w)) in
    (ap (λ m. sum_words o m bytes) e ∙ p ∙ omega arith, omega (arith, q))

-- The checksum by the plain total.
pub in_cksum-residue :
    (o : Endian) (bytes : List ℕ)
    → AreBytes bytes
    → Fits 0 bytes
    → in_cksum o bytes ≡ 65535 - residue (0 + total o bytes)
unfolding in_cksum
in_cksum-residue o bytes h f =
    let (p, q) = sum_words-total o 0 bytes h f in
    ap (λ m. 65535 - fold m % 65536) p ∙ ap (λ m. 65535 - m) (residue-fold (0 + total o bytes) q)

-- For at most 65535 bytes, in either byte order, in_cksum() is the complement of the sum of the 16-bit
-- words in ones' complement, with an odd byte at the end padded by a zero byte.
pub in_cksum-ones_sum :
    (o : Endian) (bytes : List ℕ)
    → AreBytes bytes
    → length bytes < 65536
    → in_cksum o bytes ≡ 65535 - ones_sum o 0 bytes
in_cksum-ones_sum o bytes h f =
    in_cksum-residue o bytes h (omega arith)
    ∙ ap (λ m. 65535 - m) (sym (ones_sum-residue o 0 bytes h))
