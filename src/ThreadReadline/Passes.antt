-- ===== src/ThreadReadline/Passes.antt =====
-- A pass of the loop of readline() brings a thread on, and its answers stay right.
use unix_network_programming.Prelude.{
  ℕ, suc, ◌+◌, ◌-◌, ◌<◌, ◌≡◌, refl, ap, sym, ◌∙◌, subst, Bool, true, false, some, List, [], ◌∷◌,
  ◌++◌, ◌==◌, ltb, arith, if◌then◌else◌, length, length-append, append_assoc, append-nil,
}
use unix_network_programming.Stream.{Socket}
use unix_network_programming.Stream.Laws.{IsStream}
use unix_network_programming.Readline.Lines.{line_of, rest_of, ends}
use unix_network_programming.ThreadReadline.Reads.{IsRline, view, HandsOut, my_read-HandsOut}
use unix_network_programming.ThreadReadline.{
  Rline, MyRead, char, eof, failed, again, fault, Answer, returned, outside, inside, Thread,
  after_my_read, at_bound, my_read, pass,
}
use unix_network_programming.ThreadReadline.Calls.{Cuts, Cuts-append, IsInside, Passes}

module _ {S : Type 0} {k : Socket S} (law : IsStream k) where
  open law use {patience}

  module _ (input : List ℕ) (answers : List Answer) (tsd m n : ℕ) (stored w : List ℕ)
      (cuts : Cuts input answers w) where
    module _ (j c : ℕ) (v : List ℕ) (e : m - n ≡ suc j) (i : IsInside law m n stored w (c ∷ v))
        (b : Bool) (h : (c == b'\n') ≡ b) where
      line_at : line_of (m - 1) w ≡ stored ++ c ∷ (if b then [] else line_of j v)
      line_at =
          i.line
          ∙ ap (λ x. stored ++ line_of x (c ∷ v)) e
          ∙ ap (λ x. stored ++ c ∷ (if x then [] else line_of j v)) h

      rest_at : rest_of (m - 1) w ≡ (if b then v else rest_of j v)
      rest_at = i.rest ∙ ap (λ x. rest_of x (c ∷ v)) e ∙ ap (λ x. if x then v else rest_of j v) h

      ending_at : ends (m - 1) w ≡ (if b then true else ends j v)
      ending_at = i.ending ∙ ap (λ x. ends x (c ∷ v)) e ∙ ap (λ x. if x then true else ends j v) h

    newline-Cuts :
        (j c : ℕ) (v : List ℕ)
        → m - n ≡ suc j
        → (c == b'\n') ≡ true
        → IsInside law m n stored w (c ∷ v)
        → Cuts input (answers ++ returned m n (stored ++ c ∷ 0 ∷ []) ∷ []) v
    newline-Cuts j c v e h i =
        let l = line_at j c v e i true h in
        Cuts-append answers _ input w v cuts (
          sym (append_assoc stored (c ∷ []) (0 ∷ [])) ∙ ap (λ x. x ++ 0 ∷ []) (sym l),
          i.counts
              ∙ omega (arith, length-append stored (c ∷ []))
              ∙ ap (λ x. length x + 0) (sym l)
              ∙ ap (λ x. length (line_of (m - 1) w) + (if x then 0 else 1))
                  (sym (ending_at j c v e i true h)),
          rest_at j c v e i true h,
        )

    more-IsInside :
        (c : ℕ) (v : List ℕ)
        → n < m
        → (c == b'\n') ≡ false
        → IsInside law m n stored w (c ∷ v)
        → IsInside law m (n + 1) (stored ++ c ∷ []) w v
    more-IsInside c v l h i =
        let e : m - n ≡ suc (m - (n + 1)) = omega arith in
        record {
          counts = omega (arith, i.counts, length-append stored (c ∷ []));
          line =
              line_at (m - (n + 1)) c v e i false h
              ∙ sym (append_assoc stored (c ∷ []) (line_of (m - (n + 1)) v));
          rest = rest_at (m - (n + 1)) c v e i false h;
          ending = ending_at (m - (n + 1)) c v e i false h;
          split = i.split ∙ sym (append_assoc stored (c ∷ []) v);
        }

    end-Cuts :
        (j : ℕ)
        → m - n ≡ suc j
        → IsInside law m n stored w []
        → Cuts input (answers ++ returned m (n - 1) (stored ++ 0 ∷ []) ∷ []) []
    end-Cuts j e i =
        let l : line_of (m - 1) w ≡ stored =
          i.line ∙ ap (λ x. stored ++ line_of x []) e ∙ append-nil stored in
        Cuts-append answers _ input w [] cuts (
          ap (λ x. x ++ 0 ∷ []) (sym l),
          omega (arith, i.counts)
              ∙ ap (λ x. length x + 0) (sym l)
              ∙ ap (λ x. length (line_of (m - 1) w) + (if x then 0 else 1))
                  (sym (i.ending ∙ ap (λ x. ends x []) e)),
          i.rest ∙ ap (λ x. rest_of x []) e,
        )

    bound-Cuts :
        (v : List ℕ)
        → m - n ≡ 0
        → IsInside law m n stored w v
        → Cuts input (answers ++ returned m n (stored ++ 0 ∷ []) ∷ []) v
    bound-Cuts v e i =
        let l : line_of (m - 1) w ≡ stored =
          i.line ∙ ap (λ x. stored ++ line_of x v) e ∙ append-nil stored in
        Cuts-append answers _ input w v cuts (
          ap (λ x. x ++ 0 ∷ []) (sym l),
          i.counts
              ∙ ap (λ x. length x + 1) (sym l)
              ∙ ap (λ x. length (line_of (m - 1) w) + (if x then 0 else 1))
                  (sym (i.ending ∙ ap (λ x. ends x v) e)),
          i.rest ∙ ap (λ x. rest_of x v) e,
        )

    char-Passes :
        (c : ℕ) (v : List ℕ) (q : ℕ) (r : Rline) (s : S)
        → n < m
        → IsInside law m n stored w v
        → HandsOut law v q (char c r s)
        → Passes law input tsd (suc (m - n + q)) (after_my_read tsd m n stored answers (char c r s))
    unfolding after_my_read
    char-Passes c v q r s l i h = by_char (c == b'\n') refl
      where
        by_char :
            (b : Bool)
            → (c == b'\n') ≡ b
            → Passes law input tsd (suc (m - n + q)) (elim b [
              | true ↦ some (
                r,
                record {
                  sock = s;
                  place = outside;
                  answers = answers ++ returned m n (stored ++ c ∷ 0 ∷ []) ∷ [];
                },
              )
              | false ↦ some (
                r,
                record {
                  sock = s;
                  place = inside tsd m (n + 1) (stored ++ c ∷ []);
                  answers = answers;
                },
              )
            ])
        by_char true e = (
          record {
            valid = h.1;
            there =
                newline-Cuts (m - (n + 1)) c (view law r s) (omega arith) e
                  (subst (IsInside law m n stored w) h.0 i);
          },
          omega arith,
          tt,
        )
        by_char false e = (
          record {
            valid = h.1;
            there = (
              w,
              cuts,
              more-IsInside c (view law r s) l e (subst (IsInside law m n stored w) h.0 i),
            );
          },
          omega (arith, h.2),
          refl,
        )

    after-Passes :
        (v : List ℕ) (q : ℕ) (r : MyRead S)
        → n < m
        → IsInside law m n stored w v
        → HandsOut law v q r
        → Passes law input tsd (suc (m - n + q)) (after_my_read tsd m n stored answers r)
    unfolding after_my_read
    after-Passes v q (char c r s) l i h = char-Passes c v q r s l i h
    after-Passes v q (eof r s) l i h = (
      record {
        valid = h.2;
        there =
            subst (Cuts input (answers ++ returned m (n - 1) (stored ++ 0 ∷ []) ∷ [])) (sym h.1)
              (end-Cuts (m - (n + 1)) (omega arith) (subst (IsInside law m n stored w) h.0 i));
      },
      omega arith,
      tt,
    )
    after-Passes v q (failed e r s) l i h = (
      record {
        valid = h.1;
        there = Cuts-append answers _ input w (view law r s) cuts (h.3, v, i.split, h.0);
      },
      omega arith,
      tt,
    )
    after-Passes v q (again r s) l i h = (
      record { valid = h.1; there = (w, cuts, subst (IsInside law m n stored w) h.0 i) },
      omega (arith, h.2),
      refl,
    )
    after-Passes v q fault l i h = h

  -- A pass in a call: the thread is nearer to the end of the call, and its answers are right.
  pub pass-Passes :
      (input : List ℕ) (r : Rline) (x : Thread S) (tsd m n : ℕ) (stored w : List ℕ)
      → IsRline r
      → Cuts input x.answers w
      → IsInside law m n stored w (view law r x.sock)
      → Passes law input tsd (suc (m - n + patience x.sock)) (pass k x r tsd m n stored)
  unfolding pass at_bound
  pass-Passes input r x tsd m n stored w v c i = by_bound (ltb n m) refl
    where
      by_bound :
          (b : Bool)
          → ltb n m ≡ b
          → Passes law input tsd (suc (m - n + patience x.sock)) (
              if b
              then after_my_read tsd m n stored x.answers (my_read k r x.sock)
              else some (r, at_bound m n stored x))
      by_bound true e =
          after-Passes input x.answers tsd m n stored w c (view law r x.sock) (patience x.sock)
            (my_read k r x.sock) (ground arith) i (my_read-HandsOut law r x.sock v)
      by_bound false e = (
        record {
          valid = v;
          there =
              bound-Cuts input x.answers tsd m n stored w c (view law r x.sock) (ground arith) i;
        },
        omega arith,
        tt,
      )
