-- ===== src/Readline/Lines.antt =====
-- readline() against the first line of the stream.
use unix_network_programming.Prelude.{
  ℕ, zero, suc, ◌+◌, ◌-◌, ◌≤◌, ◌<◌, ◌≡◌, ◌≢◌, refl, ap, sym, ◌∙◌, subst, Bool, true, false, List,
  [], ◌∷◌, ◌++◌, arith, length, ◌==◌, if◌then◌else◌, Bool-cases, inl, inr, length-append,
  append_assoc, append-nil,
}
use unix_network_programming.Stream.{eintr, Socket}
use unix_network_programming.Stream.Laws.{IsStream}
use unix_network_programming.Readline.{
  Buffer, MyRead, char, eof, failed, fault, stuck, my_read, Line, line, after_char, readline_loop,
  readline,
}
use unix_network_programming.Readline.Refill.{IsBuffer, view, HandsOut, my_read-HandsOut}

-- The first line of `xs`: at most `k` bytes, through the first newline.
abbrev pub line_of : ℕ → List ℕ → List ℕ
line_of zero xs = []
line_of (suc k) [] = []
line_of (suc k) (x ∷ xs) = x ∷ (if x == b'\n' then [] else line_of k xs)

-- What comes after it.
abbrev pub rest_of : ℕ → List ℕ → List ℕ
rest_of zero xs = xs
rest_of (suc k) [] = []
rest_of (suc k) (x ∷ xs) = if x == b'\n' then xs else rest_of k xs

-- Whether it ends by a newline or by the end of the stream, and not by the bound.
abbrev pub ends : ℕ → List ℕ → Bool
ends zero xs = false
ends (suc k) [] = true
ends (suc k) (x ∷ xs) = if x == b'\n' then true else ends k xs

line_of-append-rest_of : (k : ℕ) (xs : List ℕ) → line_of k xs ++ rest_of k xs ≡ xs
line_of-append-rest_of zero xs = refl
line_of-append-rest_of (suc k) [] = refl
line_of-append-rest_of (suc k) (x ∷ xs) = ground (arith, line_of-append-rest_of k xs)

module _ {S : Type 0} (again : List ℕ → Buffer → S → Line S) (n : ℕ) (stored : List ℕ) (c : ℕ)
    (b : Buffer) (s : S) where
  after_char-newline :
      (c == b'\n') ≡ true
      → after_char again n stored (char c b s) ≡ line n (stored ++ c ∷ 0 ∷ []) b s
  unfolding after_char
  after_char-newline h = rw (h, after_char)

  after_char-more :
      (c == b'\n') ≡ false → after_char again n stored (char c b s) ≡ again (stored ++ c ∷ []) b s
  unfolding after_char
  after_char-more h = rw (h, after_char)

module _ {S : Type 0} {k : Socket S} (law : IsStream k) where
  open law use {patience}

  -- What a run that may store `j` more bytes returns, started at `(b, s)` with `stored` in the buffer.
  record Stores (j : ℕ) (stored : List ℕ) (v : List ℕ) (s₀ : S) (n : ℕ) (out : List ℕ) (b : Buffer)
      (s : S) : Type 0 where
    line : out ≡ stored ++ (line_of j v ++ 0 ∷ [])
    rest : view law b s ≡ rest_of j v
    count : n ≡ length stored + length (line_of j v) + (if ends j v then 0 else 1)
    valid : IsBuffer b
    quiet : patience s ≤ patience s₀

  abbrev Runs : ℕ → List ℕ → List ℕ → S → Line S → Type 0
  Runs j stored v s₀ (line n out b s) = Stores j stored v s₀ n out b s
  Runs j stored v s₀ (failed e out b s) =
      (e ≢ eintr)
      × IsBuffer b
      × (lost : List ℕ) × (out ≡ stored ++ lost)
      × (v ≡ lost ++ view law b s)
  Runs j stored v s₀ fault = ⊥
  Runs j stored v s₀ stuck = ⊥

  Runs-char :
      (j : ℕ) (stored : List ℕ) (c : ℕ) (w : List ℕ) (s₀ s : S)
      → (c == b'\n') ≡ false
      → patience s ≤ patience s₀
      → (r : Line S) → Runs j (stored ++ c ∷ []) w s r
      → Runs (suc j) stored (c ∷ w) s₀ r
  Runs-char j stored c w s₀ s h q (line n out b t) g = record {
    line = rw h (g.line ∙ append_assoc stored (c ∷ []) (line_of j w ++ 0 ∷ []));
    rest = rw h g.rest;
    count = rw h (ground (arith, g.count, length-append stored (c ∷ [])));
    valid = g.valid;
    quiet = omega (arith, g.quiet);
  }
  Runs-char j stored c w s₀ s h q (failed e out b t) (ne, ok, lost, p, split) =
      (ne, ok, c ∷ lost, p ∙ append_assoc stored (c ∷ []) lost, ap (◌∷◌ c) split)
  Runs-char j stored c w s₀ s h q fault g = g
  Runs-char j stored c w s₀ s h q stuck g = g

  Runs-newline :
      (j : ℕ) (stored : List ℕ) (c : ℕ) (w : List ℕ) (s₀ s : S) (b : Buffer)
      → (c == b'\n') ≡ true
      → view law b s ≡ w
      → IsBuffer b
      → patience s ≤ patience s₀
      → Stores (suc j) stored (c ∷ w) s₀ (length stored + 1) (stored ++ c ∷ 0 ∷ []) b s
  Runs-newline j stored c w s₀ s b h e ok q = record {
    line = rw h;
    rest = rw h e;
    count = rw h (omega arith);
    valid = ok;
    quiet = q;
  }

  module _ (again : List ℕ → Buffer → S → Line S) (j n : ℕ) (stored : List ℕ) (b : Buffer) (s : S)
      (e : n ≡ length stored + 1)
      (ih : (g : List ℕ) (c : Buffer) (t : S)
        → length g ≡ n
        → IsBuffer c
        → patience t ≤ patience s
        → Runs j g (view law c t) t (again g c t)) where
    Runs-one :
        (c : ℕ) (b' : Buffer) (s' : S)
        → HandsOut law b s (char c b' s')
        → Runs (suc j) stored (c ∷ view law b' s') s (after_char again n stored (char c b' s'))
    unfolding after_char
    Runs-one c b' s' h = elim (Bool-cases (c == b'\n')) [
      | inl nl ↦
          subst (Runs (suc j) stored (c ∷ view law b' s') s)
            (sym (after_char-newline again n stored c b' s' nl))
            (subst
              (λ m. Stores (suc j) stored (c ∷ view law b' s') s m (stored ++ c ∷ 0 ∷ []) b' s')
              (sym e) (Runs-newline j stored c (view law b' s') s s' b' nl refl h.1 h.2))
      | inr more ↦
          subst (Runs (suc j) stored (c ∷ view law b' s') s)
            (sym (after_char-more again n stored c b' s' more))
            (Runs-char j stored c (view law b' s') s s' more h.2 _
              (ih (stored ++ c ∷ []) b' s' (omega (arith, length-append stored (c ∷ []))) h.1 h.2))
    ]

    Runs-after_char :
        (m : MyRead S)
        → HandsOut law b s m
        → Runs (suc j) stored (view law b s) s (after_char again n stored m)
    unfolding after_char
    Runs-after_char (char c b' s') h =
        subst (λ v. Runs (suc j) stored v s (after_char again n stored (char c b' s'))) (sym h.0)
          (Runs-one c b' s' h)
    Runs-after_char (eof b' s') h =
        subst (λ v. Stores (suc j) stored v s (n - 1) (stored ++ 0 ∷ []) b' s') (sym h.0)
          (record { line = refl; rest = h.1; count = omega (arith, e); valid = h.2; quiet = h.3 })
    Runs-after_char (failed c b' s') h = (h.3, h.1, [], sym (append-nil stored), h.0)
    Runs-after_char fault h = h
    Runs-after_char stuck h = h

  Runs-loop :
      (fuel j n : ℕ) (stored : List ℕ) (b : Buffer) (s : S)
      → n ≡ length stored + 1
      → IsBuffer b
      → patience s < fuel
      → Runs j stored (view law b s) s (readline_loop k fuel j n stored b s)
  unfolding readline_loop
  Runs-loop fuel zero n stored b s e v en = record {
    line = refl;
    rest = refl;
    count = omega arith;
    valid = v;
    quiet = omega arith;
  }
  Runs-loop fuel (suc j) n stored b s e v en =
      Runs-after_char (readline_loop k fuel j (n + 1)) j n stored b s e
        (λ g c t h ok q. Runs-loop fuel j (n + 1) g c t (omega arith) ok (omega arith))
        (my_read k fuel b s) (my_read-HandsOut law fuel b s v en)

  -- The result of readline() for a line of at most `j` bytes of the stream `v`.
  abbrev pub Returns : ℕ → List ℕ → Line S → Type 0
  Returns j v (line n out b s) =
      (out ≡ line_of j v ++ 0 ∷ [])
      × (view law b s ≡ rest_of j v)
      × IsBuffer b
      × (n ≡ (if ends j v then length (line_of j v) else length (line_of j v) + 1))
  Returns j v (failed e out b s) = (e ≢ eintr) × IsBuffer b × (v ≡ out ++ view law b s)
  Returns j v fault = ⊥
  Returns j v stuck = ⊥

  Runs-Returns : (j : ℕ) (v : List ℕ) (s₀ : S) (r : Line S) → Runs j [] v s₀ r → Returns j v r
  Runs-Returns j v s₀ (line n out b s) g = (g.line, g.rest, g.valid, ground (arith, g.count))
  Runs-Returns j v s₀ (failed e out b s) (ne, ok, lost, p, split) = (ne, ok, ground arith)
  Runs-Returns j v s₀ fault g = g
  Runs-Returns j v s₀ stuck g = g

  -- On a stream, from a valid buffer and with more fuel than interruptions to come, readline() returns
  -- and never reads outside its buffer. It stores the first line of what the buffer and the stream
  -- hold, of at most `maxlen - 1` bytes and through its newline, with a NUL behind it, and leaves the
  -- rest for later calls in a valid buffer. It returns the number of bytes of the line if that ends
  -- by a newline or the end of the file, and one more than that number if the bound cuts it. If it
  -- fails, the error is not EINTR, and the bytes taken are those stored.
  pub readline-Returns :
      (fuel maxlen : ℕ) (b : Buffer) (s : S)
      → IsBuffer b
      → patience s < fuel
      → Returns (maxlen - 1) (view law b s) (readline k fuel maxlen b s)
  unfolding readline
  readline-Returns fuel maxlen b s v en =
      Runs-Returns (maxlen - 1) (view law b s) s _ (Runs-loop fuel (maxlen - 1) 1 [] b s refl v en)
