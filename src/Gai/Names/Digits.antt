-- ===== src/Gai/Names/Digits.antt =====
-- A port number that is printed is read back.
use unix_network_programming.Prelude.{
  ℕ, zero, suc, ◌+◌, ◌-◌, ◌*◌, ◌/◌, ◌%◌, ◌^◌, ◌≤◌, ◌<◌, ◌≡◌, refl, ◌∙◌, Bool, true, false, [], ◌∷◌,
  ◌++◌, arith, ltb, if◌then◌else◌, length, length-append,
}
use unix_network_programming.Gai.{Text}
use unix_network_programming.Gai.Ports.{is_digit, atoi, first}
use unix_network_programming.Gai.Names.{decimal}

abbrev AreDigits : Text → Type 0
AreDigits [] = Unit
AreDigits (c ∷ cs) = (is_digit c ≡ true) × AreDigits cs

AreDigits-snoc : (cs : Text) (c : ℕ) → AreDigits cs → is_digit c ≡ true → AreDigits (cs ++ c ∷ [])
AreDigits-snoc [] c h k = (k, tt)
AreDigits-snoc (x ∷ cs) c h k = (h.0, AreDigits-snoc cs c h.1 k)

atoi-snoc :
    (m : ℕ) (cs : Text) (c : ℕ)
    → AreDigits cs
    → is_digit c ≡ true
    → atoi m (cs ++ c ∷ []) ≡ 10 * atoi m cs + (c - b'0')
unfolding atoi
atoi-snoc m [] c h k = rw k refl
atoi-snoc m (x ∷ cs) c h k = rw h.0 (atoi-snoc (10 * m + (x - b'0')) cs c h.1 k)

digit-is_digit : (n : ℕ) → n < 10 → is_digit (b'0' + n) ≡ true
digit-is_digit n h = ground arith

decimal-AreDigits : (k n : ℕ) → AreDigits (decimal k n)
unfolding decimal
decimal-AreDigits zero n = tt
decimal-AreDigits (suc k) n = either (ltb n 10) refl (decimal-AreDigits k (n / 10))
  where
    either :
        (b : Bool)
        → ltb n 10 ≡ b
        → AreDigits (decimal k (n / 10))
        → AreDigits (if b then (b'0' + n) ∷ [] else decimal k (n / 10) ++ (b'0' + n % 10) ∷ [])
    either true e h = (digit-is_digit n (ground arith), tt)
    either false e h =
        AreDigits-snoc (decimal k (n / 10)) (b'0' + n % 10) h
          (digit-is_digit (n % 10) (omega arith))

pub length-decimal : (k n : ℕ) → length (decimal k n) ≤ k
unfolding decimal
length-decimal zero n = omega arith
length-decimal (suc k) n =
    ground
      (arith, length-decimal k (n / 10), length-append (decimal k (n / 10)) ((b'0' + n % 10) ∷ []))

-- One digit more
atoi-decimal-suc :
    (k n : ℕ)
    → (n / 10 < 10 ^ k → atoi 0 (decimal k (n / 10)) ≡ n / 10)
    → n / 10 < 10 ^ k
    → atoi 0 (decimal (suc k) n) ≡ n
unfolding decimal atoi
atoi-decimal-suc k n ih h = either (ltb n 10) refl
  where
    either :
        (b : Bool)
        → ltb n 10 ≡ b
        → atoi 0 (if b then (b'0' + n) ∷ [] else decimal k (n / 10) ++ (b'0' + n % 10) ∷ []) ≡ n
    either true e = atoi-snoc 0 [] (b'0' + n) tt (digit-is_digit n (ground arith)) ∙ omega arith
    either false e =
        atoi-snoc 0 (decimal k (n / 10)) (b'0' + n % 10) (decimal-AreDigits k (n / 10))
          (digit-is_digit (n % 10) (omega arith))
        ∙ omega (arith, ih h)

atoi-decimal_zero : (n : ℕ) → n < 1 → atoi 0 (decimal 0 n) ≡ n
unfolding decimal atoi
atoi-decimal_zero n h = omega arith

pub atoi-decimal : (n : ℕ) → n < 100000 → atoi 0 (decimal 5 n) ≡ n
atoi-decimal n h =
    atoi-decimal-suc 4 n
      (λ p.
        atoi-decimal-suc 3 (n / 10)
          (λ p.
            atoi-decimal-suc 2 (n / 10 / 10)
              (λ p.
                atoi-decimal-suc 1 (n / 10 / 10 / 10)
                  (λ p.
                    atoi-decimal-suc 0 (n / 10 / 10 / 10 / 10)
                      (λ p. atoi-decimal_zero (n / 10 / 10 / 10 / 10 / 10) p) (omega arith))
                  (omega arith))
              (omega arith))
          (omega arith))
      (omega arith)

decimal_pos : (k n : ℕ) → 0 < length (decimal (suc k) n)
unfolding decimal
decimal_pos k n = ground (arith, length-append (decimal k (n / 10)) ((b'0' + n % 10) ∷ []))

pub first-decimal : (n : ℕ) → n < 100000 → is_digit (first (decimal 5 n)) ≡ true
first-decimal n h = first_digit (decimal 5 n) (decimal_pos 4 n) (decimal-AreDigits 5 n)
  where
    first_digit : (t : Text) → 0 < length t → AreDigits t → is_digit (first t) ≡ true
    first_digit [] p q = absurd (omega arith)
    first_digit (c ∷ cs) p q = q.0
