-- ===== src/Stream/Exact.antt =====
-- readn() and writen() against the stream: what they move, on every way out.
use unix_network_programming.Prelude.{
  ℕ, zero, suc, ◌+◌, ◌^◌, ◌≤◌, ◌<◌, ◌≡◌, ◌≢◌, refl, sym, ap, some, List, [], ◌∷◌, ◌++◌, min, arith,
  lt→ltb, subst, take-length, drop-append, take-append-drop, length-drop, length, take, drop,
  length-append, append-nil, append_assoc,
}
use unix_network_programming.Stream.{
  eintr, Read, bytes, error, Write, wrote, Socket, Transfer, done, failed, stuck, readn_loop, readn,
  writen_loop, writen, after_read, after_write,
}
use unix_network_programming.Stream.Laws.{IsStream, ReadBehaves, WriteBehaves}

module _ {S : Type 0} (k : Socket S) where
  readn_loop-step :
      (fuel nleft : ℕ) (got : List ℕ) (s : S)
      → 0 < nleft
      → readn_loop k (suc fuel) nleft got s
        ≡ after_read (readn_loop k fuel) nleft got (k.read s nleft)
  unfolding readn_loop
  readn_loop-step fuel nleft got s h = rw (lt→ltb 0 nleft h, readn_loop)

  writen_loop-step :
      (fuel nleft : ℕ) (out rest : List ℕ) (s : S)
      → 0 < nleft
      → writen_loop k (suc fuel) nleft out rest s
        ≡ after_write (writen_loop k fuel) nleft out rest (k.write s (take nleft rest))
  unfolding writen_loop
  writen_loop-step fuel nleft out rest s h = rw (lt→ltb 0 nleft h, writen_loop)

module _ {S : Type 0} {k : Socket S} (law : IsStream k) where
  open law use {pending, sent, patience, reads, writes}

  -- The bytes stored are the first `n` of the stream, fewer only at its end; a failure is no EINTR, and
  -- comes before `n` bytes.
  abbrev pub Reads : S → ℕ → Transfer S → Type 0
  Reads s n (done got s') =
      (pending s ≡ got ++ pending s')
      × (length got ≡ min n (length (pending s)))
      × (sent s' ≡ sent s)
      × (patience s' ≤ patience s)
  Reads s n (failed e got s') =
      (pending s ≡ got ++ pending s') × (length got < n) × (sent s' ≡ sent s) × (e ≢ some eintr)
  Reads s n stuck = ⊥

  -- The loop's invariant: `s₀` and `n` are the state and the count that readn() was called with.
  record Going (s₀ : S) (n nleft : ℕ) (got : List ℕ) (s : S) : Type 0 where
    small : nleft < 2 ^ 64
    count : length got + nleft ≡ n
    split : pending s₀ ≡ got ++ pending s
    same : sent s ≡ sent s₀
    quiet : patience s ≤ patience s₀

  module _ (s₀ : S) (n : ℕ) where
    Reads-after_read :
        (again : ℕ → List ℕ → S → Transfer S) (fuel : ℕ)
        → ((m : ℕ) (g : List ℕ) (t : S)
            → Going s₀ n m g t
            → m + patience t < fuel
            → Reads s₀ n (again m g t))
        → (nleft : ℕ) (got : List ℕ) (s : S) → Going s₀ n nleft got s
        → nleft + patience s ≤ fuel
        → 0 < nleft
        → (r : Read S) → ReadBehaves pending sent patience s nleft r
        → Reads s₀ n (after_read again nleft got r)
    unfolding after_read
    Reads-after_read again fuel ih nleft got s g en pos (error eintr s') b =
        ih nleft got s' (ground arith) (omega arith)
    Reads-after_read again fuel ih nleft got s g en pos (error e s') b = ground arith
    Reads-after_read again fuel ih nleft got s g en pos (bytes [] s') b =
        ground (arith, ap length g.split, length-append got (pending s), ap length b.0)
    Reads-after_read again fuel ih nleft got s g en pos (bytes (x ∷ xs) s') b =
        ih _ _ s'
          (record {
            small = omega arith;
            count = omega (arith, length-append got (x ∷ xs));
            split = ground (arith, append_assoc got (x ∷ xs) (pending s'));
            same = ground arith;
            quiet = omega arith;
          })
          (omega arith)

    Reads-loop :
        (fuel nleft : ℕ) (got : List ℕ) (s : S)
        → Going s₀ n nleft got s
        → nleft + patience s < fuel
        → Reads s₀ n (readn_loop k fuel nleft got s)
    unfolding readn_loop
    Reads-loop zero nleft got s g en = absurd (omega arith)
    Reads-loop (suc fuel) zero got s g en =
        ground (arith, ap length g.split, length-append got (pending s))
    Reads-loop (suc fuel) (suc nleft) got s g en =
        subst (Reads s₀ n) (sym (readn_loop-step k fuel (suc nleft) got s (omega arith))) (
          Reads-after_read (readn_loop k fuel) fuel (Reads-loop fuel) (suc nleft) got s g
            (omega arith) (omega arith) (k.read s (suc nleft)) (reads s (suc nleft) (omega arith)))

  -- On a stream, with `n` below 2^64 and more fuel than `n` and the interruptions to come, readn()
  -- returns. It stores the next bytes of the stream in order, `n` of them or all that come before the
  -- end of the file, and sends nothing. If it fails, the error is not EINTR, and the bytes stored
  -- before it are fewer than `n` and still the first of the stream.
  pub readn-Reads :
      (fuel n : ℕ) (s : S) → n < 2 ^ 64 → n + patience s < fuel → Reads s n (readn k fuel n s)
  unfolding readn
  readn-Reads fuel n s h en =
      Reads-loop s n fuel n [] s
        (record { small = h; count = omega arith; split = refl; same = refl; quiet = omega arith })
        en

  -- All of `xs` is sent, or a failure leaves a proper prefix of it sent.
  abbrev pub Writes : S → List ℕ → Transfer S → Type 0
  Writes s xs (done out s') =
      (out ≡ xs) × (sent s' ≡ sent s ++ xs) × (pending s' ≡ pending s) × (patience s' ≤ patience s)
  Writes s xs (failed e out s') =
      (sent s' ≡ sent s ++ out)
      × (xs ≡ out ++ drop (length out) xs)
      × (length out < length xs)
      × (pending s' ≡ pending s)
      × (e ≢ some eintr)
  Writes s xs stuck = ⊥

  record Sending (s₀ : S) (xs : List ℕ) (nleft : ℕ) (out rest : List ℕ) (s : S) : Type 0 where
    small : nleft < 2 ^ 64
    count : length rest ≡ nleft
    split : xs ≡ out ++ rest
    so_far : sent s ≡ sent s₀ ++ out
    same : pending s ≡ pending s₀
    quiet : patience s ≤ patience s₀

  module _ (s₀ : S) (xs : List ℕ) where
    Writes-after_write :
        (again : ℕ → List ℕ → List ℕ → S → Transfer S) (fuel : ℕ)
        → ((m : ℕ) (o r : List ℕ) (t : S)
            → Sending s₀ xs m o r t
            → m + patience t < fuel
            → Writes s₀ xs (again m o r t))
        → (nleft : ℕ) (out rest : List ℕ) (s : S) → Sending s₀ xs nleft out rest s
        → nleft + patience s ≤ fuel
        → 0 < nleft
        → (w : Write S) → WriteBehaves pending sent patience s rest w
        → Writes s₀ xs (after_write again nleft out rest w)
    unfolding after_write
    Writes-after_write again fuel ih nleft out rest s g en pos (error eintr s') b =
        ih nleft out rest s' (ground arith) (omega arith)
    Writes-after_write again fuel ih nleft out rest s g en pos (error e s') b =
        ground (arith, drop-append out rest, length-append out rest)
    Writes-after_write again fuel ih nleft out rest s g en pos (wrote zero s') b =
        ground (arith, append-nil (sent s), drop-append out rest, length-append out rest)
    Writes-after_write again fuel ih nleft out rest s g en pos (wrote (suc n) s') b =
        ih _ _ _ s'
          (record {
            small = omega arith;
            count = omega (arith, length-drop (suc n) rest);
            split = ground (
              arith,
              append_assoc out (take (suc n) rest) (drop (suc n) rest),
              take-append-drop (suc n) rest,
            );
            so_far = ground (arith, append_assoc (sent s₀) out (take (suc n) rest));
            same = ground arith;
            quiet = omega arith;
          })
          (omega arith)

    Writes-loop :
        (fuel nleft : ℕ) (out rest : List ℕ) (s : S)
        → Sending s₀ xs nleft out rest s
        → nleft + patience s < fuel
        → Writes s₀ xs (writen_loop k fuel nleft out rest s)
    unfolding writen_loop
    Writes-loop zero nleft out rest s g en = absurd (omega arith)
    Writes-loop (suc fuel) zero out [] s g en = ground (arith, append-nil out)
    Writes-loop (suc fuel) zero out (x ∷ r) s g en = absurd (omega arith)
    Writes-loop (suc fuel) (suc nleft) out rest s g en =
        subst (Writes s₀ xs) (sym (writen_loop-step k fuel (suc nleft) out rest s (omega arith))) (
          Writes-after_write (writen_loop k fuel) fuel (Writes-loop fuel) (suc nleft) out rest s g
            (omega arith) (omega arith) (k.write s (take (suc nleft) rest))
            (subst (λ l. WriteBehaves pending sent patience s rest (k.write s l))
              (sym (take-length (suc nleft) rest g.count)) (writes s rest (omega arith))))

  -- On a stream, with fewer than 2^64 bytes `xs` and more fuel than those and the interruptions to
  -- come, writen() returns. Either `xs` is sent, all of it and in order; or it fails with an error
  -- other than EINTR, and what is sent is a proper prefix of `xs`. Nothing is read.
  pub writen-Writes :
      (fuel : ℕ) (xs : List ℕ) (s : S)
      → length xs < 2 ^ 64
      → length xs + patience s < fuel
      → Writes s xs (writen k fuel xs s)
  unfolding writen
  writen-Writes fuel xs s h en =
      Writes-loop s xs fuel (length xs) [] xs s
        (record {
          small = h;
          count = refl;
          split = refl;
          so_far = sym (append-nil (sent s));
          same = refl;
          quiet = omega arith;
        })
        en
