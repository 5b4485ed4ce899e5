-- ===== src/Stream/Echo.antt =====
-- str_echo() sends back what it reads.
use unix_network_programming.Prelude.{
  ℕ, zero, suc, ◌+◌, ◌≤◌, ◌<◌, ◌≡◌, refl, List, [], ◌∷◌, ◌++◌, arith, length, drop, length-append,
  append-nil, append_assoc, ap,
}
use unix_network_programming.Stream.{
  eintr, Read, bytes, error, Socket, Transfer, done, failed, Ending, finished, died, stuck, writen,
  or_die, after_echo_read, maxline, str_echo,
}
use unix_network_programming.Stream.Laws.{IsStream, ReadBehaves}
use unix_network_programming.Stream.Exact.{Writes, writen-Writes}

module _ {S : Type 0} {k : Socket S} (law : IsStream k) where
  open law use {pending, sent, patience, reads}

  -- At the end of the file all that was to come is sent back; a fatal error leaves a prefix sent.
  abbrev pub Echoes : S → Ending S → Type 0
  Echoes s (finished s') = (sent s' ≡ sent s ++ pending s) × (pending s' ≡ [])
  Echoes s (died s') = (out rest : List ℕ) × (pending s ≡ out ++ rest) × (sent s' ≡ sent s ++ out)
  Echoes s stuck = ⊥

  Echoes-later :
      (s t : S) (xs : List ℕ) (r : Ending S)
      → pending s ≡ xs ++ pending t
      → sent t ≡ sent s ++ xs
      → Echoes t r
      → Echoes s r
  Echoes-later s t xs (finished s') p q e = ground (arith, append_assoc (sent s) xs (pending t))
  Echoes-later s t xs (died s') p q (out, rest, e, f) = (
    xs ++ out,
    rest,
    ground (arith, append_assoc xs out rest),
    ground (arith, append_assoc (sent s) xs out),
  )
  Echoes-later s t xs stuck p q e = e

  module _ (io : ℕ) (fuel : ℕ) (again : S → Ending S) (s : S)
      (ih : (t : S)
        → maxline + patience t < io
        → length (pending t) + patience t < fuel
        → Echoes t (again t))
      (room : maxline + patience s < io) (enough : length (pending s) + patience s ≤ fuel) where
    Echoes-or_die :
        (xs : List ℕ) (t : S)
        → pending s ≡ xs ++ pending t
        → sent t ≡ sent s
        → 0 < length xs
        → patience t ≤ patience s
        → (w : Transfer S) → Writes law t xs w
        → Echoes s (or_die w again)
    unfolding or_die
    Echoes-or_die xs t p q pos h (done out t') w =
        Echoes-later s t' xs (again t') (ground arith) (ground arith) (
          ih t' (omega arith)
            (omega (arith, ap length p, length-append xs (pending t), ap length w.2)))
    Echoes-or_die xs t p q pos h (failed e out t') w = (
      out,
      drop (length out) xs ++ pending t,
      ground (arith, append_assoc out (drop (length out) xs) (pending t)),
      ground arith,
    )
    Echoes-or_die xs t p q pos h stuck w = w

    Echoes-after_echo_read :
        (r : Read S)
        → ReadBehaves pending sent patience s maxline r
        → Echoes s (after_echo_read (writen k io) again r)
    unfolding after_echo_read
    Echoes-after_echo_read (error eintr t) b =
        Echoes-later s t [] (again t) (ground arith) (ground (arith, append-nil (sent s)))
          (ih t (omega arith) (omega (arith, ap length b.0)))
    Echoes-after_echo_read (error e t) b =
        ([], pending s, refl, ground (arith, append-nil (sent s)))
    Echoes-after_echo_read (bytes [] t) b = ground (arith, append-nil (sent s))
    Echoes-after_echo_read (bytes (x ∷ xs) t) b =
        Echoes-or_die (x ∷ xs) t b.1 b.2 (omega arith) b.3 (writen k io (x ∷ xs) t)
          (writen-Writes law io (x ∷ xs) t (omega arith) (omega arith))

  -- On a stream, with more fuel for the loop than there are bytes and interruptions to come, and more
  -- fuel for each Writen() than MAXLINE and the interruptions, str_echo() ends. It returns at the end
  -- of the file with all that was to come sent back in order; if the process dies on an error, a first
  -- part of it is sent.
  pub str_echo-Echoes :
      (io fuel : ℕ) (s : S)
      → maxline + patience s < io
      → length (pending s) + patience s < fuel
      → Echoes s (str_echo k io fuel s)
  unfolding str_echo
  str_echo-Echoes io zero s room enough = absurd (omega arith)
  str_echo-Echoes io (suc fuel) s room enough =
      Echoes-after_echo_read io fuel (str_echo k io fuel) s (str_echo-Echoes io fuel) room
        (omega arith) (k.read s maxline) (reads s maxline (omega arith))
