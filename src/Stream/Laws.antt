-- ===== src/Stream/Laws.antt =====
-- What POSIX says of read() and write() on a stream descriptor, as the named assumptions of the
-- theorems on readn(), writen(), readline() and str_echo().
use unix_network_programming.Prelude.{ℕ, ◌≤◌, ◌<◌, ◌≡◌, List, [], ◌∷◌, ◌++◌, length, take}
use unix_network_programming.Stream.{eintr, Read, bytes, error, Write, wrote, Socket}

module _ {S : Type 0} (pending sent : S → List ℕ) (patience : S → ℕ) where
  -- A read() of at most `n` bytes from `s`: it stores the next bytes in order, or finds the end of
  -- the file, or is interrupted, or fails. `patience` bounds the interruptions to come.
  abbrev pub ReadBehaves : S → ℕ → Read S → Type 0
  ReadBehaves s n (bytes [] s') =
      (pending s ≡ []) × (pending s' ≡ []) × (sent s' ≡ sent s) × (patience s' ≤ patience s)
  ReadBehaves s n (bytes (x ∷ xs) s') =
      (length (x ∷ xs) ≤ n)
      × (pending s ≡ (x ∷ xs) ++ pending s')
      × (sent s' ≡ sent s)
      × (patience s' ≤ patience s)
  ReadBehaves s n (error eintr s') =
      (pending s' ≡ pending s) × (sent s' ≡ sent s) × (patience s' < patience s)
  ReadBehaves s n (error _ s') =
      (pending s' ≡ pending s) × (sent s' ≡ sent s) × (patience s' ≤ patience s)

  -- A write() of the bytes `xs`: it takes some first bytes, or is interrupted, or fails.
  abbrev pub WriteBehaves : S → List ℕ → Write S → Type 0
  WriteBehaves s xs (wrote n s') =
      (n ≤ length xs)
      × (sent s' ≡ sent s ++ take n xs)
      × (pending s' ≡ pending s)
      × (patience s' ≤ patience s)
  WriteBehaves s xs (error eintr s') =
      (sent s' ≡ sent s) × (pending s' ≡ pending s) × (patience s' < patience s)
  WriteBehaves s xs (error _ s') =
      (sent s' ≡ sent s) × (pending s' ≡ pending s) × (patience s' ≤ patience s)

pub record IsStream {S : Type 0} (k : Socket S) : Type 0 where
  pub pending : S → List ℕ
  pub sent : S → List ℕ
  pub patience : S → ℕ
  pub reads : (s : S) (n : ℕ) → 0 < n → ReadBehaves pending sent patience s n (k.read s n)
  pub writes :
      (s : S) (xs : List ℕ) → 0 < length xs → WriteBehaves pending sent patience s xs (k.write s xs)
