-- ===== src/Readline/Refill.antt =====
-- my_read() hands out the bytes of the stream one by one, those in the buffer first.
use unix_network_programming.Prelude.{
  ℕ, zero, suc, ◌+◌, ◌≤◌, ◌<◌, ◌≡◌, ◌≢◌, refl, ap, sym, ◌∙◌, some, List, [], ◌∷◌, ◌++◌, arith,
  length, take, drop, get_elem?, drop-suc, length-append, length-drop, take-append, subst,
}
use unix_network_programming.Prelude.Int.{ℤ, pos, negsuc, pos_part}
use unix_network_programming.Stream.{eintr, Read, bytes, error, Socket, maxline}
use unix_network_programming.Stream.Laws.{IsStream, ReadBehaves}
use unix_network_programming.Readline.{
  Buffer, MyRead, char, eof, failed, fault, stuck, next_char, refill, my_read_again, my_read,
}

-- The buffer is MAXLINE bytes long, and the bytes that it still holds lie inside it.
pub record IsBuffer (b : Buffer) : Type 0 where
  pub sized : length b.read_buf ≡ maxline
  pub inside : b.read_ptr + pos_part b.read_cnt ≤ maxline

-- The bytes that are read but not handed out.
abbrev pub left : Buffer → List ℕ
left b = take (pos_part b.read_cnt) (drop b.read_ptr b.read_buf)

left-suc :
    (n i : ℕ) (buf : List ℕ) (x : ℕ)
    → drop i buf ≡ x ∷ drop (suc i) buf
    → take (suc n) (drop i buf) ≡ x ∷ take n (drop (i + 1) buf)
left-suc n i buf x h =
    ap (take (suc n)) h ∙ ap (λ j. x ∷ take n (drop j buf)) {x = suc i} {y = i + 1} (omega arith)

next_char-hit :
    {S : Type 0} (n : ℕ) (b : Buffer) (s : S) (c : ℕ)
    → get_elem? b.read_buf b.read_ptr ≡ some c
    → next_char n b s ≡ char c (record b { read_cnt = pos n; read_ptr = b.read_ptr + 1 }) s
unfolding next_char
next_char-hit n b s c h = rw (h, next_char)

module _ {S : Type 0} {k : Socket S} (law : IsStream k) where
  open law use {pending, sent, patience, reads}

  -- The stream as the callers of my_read() see it.
  abbrev pub view : Buffer → S → List ℕ
  view b s = left b ++ pending s

  abbrev pub HandsOut : Buffer → S → MyRead S → Type 0
  HandsOut b s (char c b' s') =
      (view b s ≡ c ∷ view b' s') × IsBuffer b' × (patience s' ≤ patience s)
  HandsOut b s (eof b' s') =
      (view b s ≡ []) × (view b' s' ≡ []) × IsBuffer b' × (patience s' ≤ patience s)
  HandsOut b s (failed e b' s') =
      (view b s ≡ view b' s') × IsBuffer b' × (patience s' ≤ patience s) × (e ≢ eintr)
  HandsOut b s fault = ⊥
  HandsOut b s stuck = ⊥

  next_char-HandsOut :
      (n i : ℕ) (buf : List ℕ) (b₀ : Buffer) (s₀ s : S)
      → let b : Buffer = record { read_cnt = pos (suc n); read_ptr = i; read_buf = buf } in
        IsBuffer b
        → view b₀ s₀ ≡ view b s
        → patience s ≤ patience s₀
        → HandsOut b₀ s₀ (next_char n b s)
  next_char-HandsOut n i buf b₀ s₀ s v e q =
      let (x, hit, tail) = drop-suc i buf (omega arith) in
      subst (HandsOut b₀ s₀) (sym (next_char-hit n _ s x hit)) (
        e ∙ ap (λ l. l ++ pending s) (left-suc n i buf x tail),
        record { sized = v.sized; inside = omega arith },
        q,
      )

  module _ (b₀ : Buffer) (s₀ : S) (empty : left b₀ ≡ []) where
    refill-HandsOut :
        (again : Buffer → S → MyRead S) (fuel : ℕ)
        → ((c : Buffer) (t : S)
            → IsBuffer c
            → pending t ≡ pending s₀
            → patience t ≤ patience s₀
            → patience t < fuel
            → HandsOut b₀ s₀ (again c t))
        → (b : Buffer) (s : S) → IsBuffer b
        → pending s ≡ pending s₀
        → patience s ≤ patience s₀
        → patience s ≤ fuel
        → (r : Read S) → ReadBehaves pending sent patience s maxline r
        → HandsOut b₀ s₀ (refill again b r)
    unfolding refill
    refill-HandsOut again fuel ih b s v e q en (error eintr t) h =
        ih _ t (record { sized = v.sized; inside = omega arith }) (ground arith) (omega arith)
          (omega arith)
    refill-HandsOut again fuel ih b s v e q en (error c t) h =
        (ground arith, record { sized = v.sized; inside = omega arith }, omega arith, cc)
    refill-HandsOut again fuel ih b s v e q en (bytes [] t) h =
        (ground arith, ground arith, record { sized = v.sized; inside = omega arith }, omega arith)
    refill-HandsOut again fuel ih b s v e q en (bytes (x ∷ xs) t) h =
        next_char-HandsOut (length xs) 0 ((x ∷ xs) ++ drop (suc (length xs)) b.read_buf) b₀ s₀ t
          (record {
            sized = omega (
              arith,
              v.sized,
              length-append (x ∷ xs) (drop (suc (length xs)) b.read_buf),
              length-drop (suc (length xs)) b.read_buf,
            );
            inside = omega arith;
          })
          (ground (arith, take-append xs (drop (suc (length xs)) b.read_buf))) (omega arith)

    my_read_again-HandsOut :
        (fuel : ℕ) (b : Buffer) (s : S)
        → IsBuffer b
        → pending s ≡ pending s₀
        → patience s ≤ patience s₀
        → patience s < fuel
        → HandsOut b₀ s₀ (my_read_again k fuel b s)
    unfolding my_read_again
    my_read_again-HandsOut zero b s v p q en = absurd (omega arith)
    my_read_again-HandsOut (suc fuel) b s v p q en =
        refill-HandsOut (my_read_again k fuel) fuel (my_read_again-HandsOut fuel) b s v p q
          (omega arith) (k.read s maxline) (reads s maxline (omega arith))

  my_read-cases :
      (fuel : ℕ) (c : ℤ) (i : ℕ) (buf : List ℕ) (s : S)
      → let b : Buffer = record { read_cnt = c; read_ptr = i; read_buf = buf } in
        IsBuffer b → patience s < fuel → HandsOut b s (my_read k fuel b s)
  unfolding my_read
  my_read-cases fuel (pos zero) i buf s v en =
      my_read_again-HandsOut (record { read_cnt = pos 0; read_ptr = i; read_buf = buf }) s refl fuel
        _ s v refl (omega arith) en
  my_read-cases fuel (pos (suc n)) i buf s v en =
      next_char-HandsOut n i buf (record { read_cnt = pos (suc n); read_ptr = i; read_buf = buf }) s
        s v refl (omega arith)
  my_read-cases fuel (negsuc n) i buf s v en =
      my_read_again-HandsOut (record { read_cnt = negsuc n; read_ptr = i; read_buf = buf }) s refl
        fuel _ s v refl (omega arith) en

  -- my_read() comes back within the interruptions to come, and reads inside its buffer.
  pub my_read-HandsOut :
      (fuel : ℕ) (b : Buffer) (s : S)
      → IsBuffer b
      → patience s < fuel
      → HandsOut b s (my_read k fuel b s)
  my_read-HandsOut fuel b s v en = my_read-cases fuel b.read_cnt b.read_ptr b.read_buf s v en
