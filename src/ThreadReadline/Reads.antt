-- ===== src/ThreadReadline/Reads.antt =====
-- A pass of my_read() hands out the next byte of the stream, if it has one.
use unix_network_programming.Prelude.{
  ℕ, zero, suc, ◌+◌, ◌≤◌, ◌<◌, ◌≡◌, ◌≢◌, refl, ap, sym, ◌∙◌, subst, Option, none, some, List, [],
  ◌∷◌, ◌++◌, arith, length, take, drop, get_elem?, drop-suc, length-append, length-drop,
  take-append, length-replicate,
}
use unix_network_programming.Prelude.Int.{ℤ, pos, negsuc, pos_part}
use unix_network_programming.Stream.{eintr, Read, bytes, error, Socket, maxline}
use unix_network_programming.Stream.Laws.{IsStream, ReadBehaves}
use unix_network_programming.ThreadReadline.{
  Rline, new_rline, MyRead, char, eof, failed, again, fault, next_char, refill, my_read,
}

-- `rl_bufptr` as an index; null counts as 0.
abbrev pub index : Option ℕ → ℕ
index none = 0
index (some i) = i

-- With bytes left the pointer is not null.
abbrev pub Points : ℤ → Option ℕ → Type 0
Points (pos (suc n)) none = ⊥
Points (pos (suc n)) (some i) = Unit
Points (pos zero) o = Unit
Points (negsuc n) o = Unit

Points-some : (z : ℤ) (i : ℕ) → Points z (some i)
Points-some (pos zero) i = tt
Points-some (pos (suc n)) i = tt
Points-some (negsuc n) i = tt

-- The bytes that an `Rline` still holds lie inside its buffer of MAXLINE bytes.
pub record IsRline (r : Rline) : Type 0 where
  pub sized : length r.rl_buf ≡ maxline
  pub within : index r.rl_bufptr + pos_part r.rl_cnt ≤ maxline
  pub points : Points r.rl_cnt r.rl_bufptr

-- The bytes that are read but not handed out
abbrev pub left : Rline → List ℕ
left r = take (pos_part r.rl_cnt) (drop (index r.rl_bufptr) r.rl_buf)

pub new_rline-IsRline : IsRline new_rline
new_rline-IsRline = record {
  sized = length-replicate {A = ℕ} maxline 0;
  within = omega arith;
  points = tt;
}

next_char-hit :
    {S : Type 0} (n i : ℕ) (cnt : ℤ) (buf : List ℕ) (s : S) (c : ℕ)
    → get_elem? buf i ≡ some c
    → next_char n (record { rl_cnt = cnt; rl_bufptr = some i; rl_buf = buf }) s
      ≡ char c (record { rl_cnt = pos n; rl_bufptr = some (i + 1); rl_buf = buf }) s
unfolding next_char
next_char-hit n i cnt buf s c h = rw (h, next_char)

left-suc :
    (n i : ℕ) (buf : List ℕ) (x : ℕ)
    → drop i buf ≡ x ∷ drop (suc i) buf
    → take (suc n) (drop i buf) ≡ x ∷ take n (drop (i + 1) buf)
left-suc n i buf x h =
    ap (take (suc n)) h ∙ ap (λ j. x ∷ take n (drop j buf)) {x = suc i} {y = i + 1} (omega arith)

module _ {S : Type 0} {k : Socket S} (law : IsStream k) where
  open law use {pending, sent, patience, reads}

  -- The stream as the callers of my_read() see it
  abbrev pub view : Rline → S → List ℕ
  view r s = left r ++ pending s

  -- What a pass of my_read() hands out of the stream `v`
  abbrev pub HandsOut : List ℕ → ℕ → MyRead S → Type 0
  HandsOut v q (char c r s) = (v ≡ c ∷ view r s) × IsRline r × (patience s ≤ q)
  HandsOut v q (eof r s) = (v ≡ []) × (view r s ≡ []) × IsRline r × (patience s ≤ q)
  HandsOut v q (failed e r s) = (v ≡ view r s) × IsRline r × (patience s ≤ q) × (e ≢ eintr)
  HandsOut v q (again r s) = (v ≡ view r s) × IsRline r × (patience s < q)
  HandsOut v q fault = ⊥

  next_char-HandsOut :
      (n i : ℕ) (buf v : List ℕ) (q : ℕ) (s : S)
      → let r : Rline = record { rl_cnt = pos (suc n); rl_bufptr = some i; rl_buf = buf } in
        IsRline r → v ≡ view r s → patience s ≤ q → HandsOut v q (next_char n r s)
  next_char-HandsOut n i buf v q s ok e h =
      let (x, hit, tail) = drop-suc i buf (omega (arith, ok.sized, ok.within)) in
      subst (HandsOut v q) (sym (next_char-hit n i (pos (suc n)) buf s x hit)) (
        e ∙ ap (λ l. l ++ pending s) (left-suc n i buf x tail),
        record {
          sized = ok.sized;
          within = omega (arith, ok.within);
          points = Points-some (pos n) (i + 1);
        },
        h,
      )

  refill-HandsOut :
      (r : Rline) (s : S)
      → IsRline r
      → left r ≡ []
      → (x : Read S) → ReadBehaves pending sent patience s maxline x
      → HandsOut (view r s) (patience s) (refill r x)
  unfolding refill
  refill-HandsOut r s ok e (error eintr t) h = (
    ground arith,
    record { sized = ok.sized; within = omega (arith, ok.within); points = tt },
    h.2,
  )
  refill-HandsOut r s ok e (error c t) h = (
    ground arith,
    record { sized = ok.sized; within = omega (arith, ok.within); points = tt },
    h.2,
    cc,
  )
  refill-HandsOut r s ok e (bytes [] t) h = (
    ground arith,
    h.1,
    record { sized = ok.sized; within = omega (arith, ok.within); points = tt },
    h.3,
  )
  refill-HandsOut r s ok e (bytes (x ∷ xs) t) h =
      next_char-HandsOut (length xs) 0 ((x ∷ xs) ++ drop (suc (length xs)) r.rl_buf) (view r s)
        (patience s) t
        (record {
          sized = omega (
            arith,
            ok.sized,
            length-append (x ∷ xs) (drop (suc (length xs)) r.rl_buf),
            length-drop (suc (length xs)) r.rl_buf,
          );
          within = omega arith;
          points = tt;
        })
        (ground (arith, take-append xs (drop (suc (length xs)) r.rl_buf))) h.3

  my_read-cases :
      (c : ℤ) (o : Option ℕ) (buf : List ℕ) (s : S)
      → let r : Rline = record { rl_cnt = c; rl_bufptr = o; rl_buf = buf } in
        IsRline r → HandsOut (view r s) (patience s) (my_read k r s)
  unfolding my_read
  my_read-cases (pos zero) o buf s ok =
      refill-HandsOut _ s ok refl (k.read s maxline) (reads s maxline (omega arith))
  my_read-cases (pos (suc n)) none buf s ok = absurd ok.points
  my_read-cases (pos (suc n)) (some i) buf s ok =
      next_char-HandsOut n i buf _ (patience s) s ok refl (omega arith)
  my_read-cases (negsuc n) o buf s ok =
      refill-HandsOut _ s ok refl (k.read s maxline) (reads s maxline (omega arith))

  -- A pass of my_read() hands out the next byte, and reads through the pointer only inside the buffer.
  pub my_read-HandsOut :
      (r : Rline) (s : S) → IsRline r → HandsOut (view r s) (patience s) (my_read k r s)
  my_read-HandsOut r s ok = my_read-cases r.rl_cnt r.rl_bufptr r.rl_buf s ok
