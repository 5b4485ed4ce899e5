-- ===== src/ThreadReadline/Calls.antt =====
-- A thread by itself: what its calls have done to its stream.
use unix_network_programming.Prelude.{
  ℕ, suc, ◌+◌, ◌-◌, ◌<◌, ◌≡◌, ◌≢◌, sym, subst, Option, none, some, List, [], ◌∷◌, ◌++◌,
  if◌then◌else◌, length,
}
use unix_network_programming.Stream.{eintr, Socket}
use unix_network_programming.Stream.Laws.{IsStream}
use unix_network_programming.Readline.Lines.{line_of, rest_of, ends}
use unix_network_programming.ThreadReadline.Reads.{IsRline, view}
use unix_network_programming.ThreadReadline.{
  Rline, Answer, returned, minus_one, Place, outside, inside, Thread,
}

-- The answers, in order, cut the stream `v` into lines and leave `w`: each call has stored the first line
-- of what was left, through its newline, of at most `maxlen - 1` bytes, with a NUL behind it, or, if
-- it failed, some bytes that are lost.
abbrev pub Cuts : List ℕ → List Answer → List ℕ → Type 0
Cuts v [] w = v ≡ w
Cuts v (returned maxlen n stored ∷ rest) w =
    (stored ≡ line_of (maxlen - 1) v ++ 0 ∷ [])
    × (n ≡ length (line_of (maxlen - 1) v) + (if ends (maxlen - 1) v then 0 else 1))
    × Cuts (rest_of (maxlen - 1) v) rest w
Cuts v (minus_one e lost ∷ rest) w = (e ≢ eintr) × (u : List ℕ) × (v ≡ lost ++ u) × Cuts u rest w

pub Cuts-append :
    (answers : List Answer) (a : Answer) (v w u : List ℕ)
    → Cuts v answers w
    → Cuts w (a ∷ []) u
    → Cuts v (answers ++ a ∷ []) u
Cuts-append [] a v w u h g = subst (λ x. Cuts x (a ∷ []) u) (sym h) g
Cuts-append (returned maxlen n stored ∷ rest) a v w u (p, q, h) g =
    (p, q, Cuts-append rest a (rest_of (maxlen - 1) v) w u h g)
Cuts-append (minus_one e lost ∷ rest) a v w u (p, x, q, h) g =
    (p, x, q, Cuts-append rest a x w u h g)

abbrev pub InPlace : ℕ → Place → Type 0
InPlace a outside = Unit
InPlace a (inside tsd maxlen n stored) = tsd ≡ a

module _ {S : Type 0} {k : Socket S} (law : IsStream k) where
  open law use {patience}

  -- Inside a call on the stream `w`, which has stored bytes and has `v` before it
  pub record IsInside (maxlen n : ℕ) (stored w v : List ℕ) : Type 0 where
    pub counts : n ≡ length stored + 1
    pub line : line_of (maxlen - 1) w ≡ stored ++ line_of (maxlen - n) v
    pub rest : rest_of (maxlen - 1) w ≡ rest_of (maxlen - n) v
    pub ending : ends (maxlen - 1) w ≡ ends (maxlen - n) v
    pub split : w ≡ stored ++ v

  -- Where a thread is, with what its `Rline` and its descriptor have for it
  abbrev pub At : List ℕ → List Answer → List ℕ → Place → Type 0
  At input answers v outside = Cuts input answers v
  At input answers v (inside tsd maxlen n stored) =
      (w : List ℕ) × Cuts input answers w × IsInside maxlen n stored w v

  -- A bound on the passes that the call of the thread still takes
  abbrev pub work : S → Place → ℕ
  work s outside = 0
  work s (inside tsd maxlen n stored) = suc (maxlen - n + patience s)

  -- A thread with its `Rline`
  pub record IsThread (input : List ℕ) (r : Rline) (x : Thread S) : Type 0 where
    pub valid : IsRline r
    pub there : At input x.answers (view law r x.sock) x.place

  -- What a pass leaves: the thread is as far, at the same `tsd`, or it has returned.
  abbrev pub Passes : List ℕ → ℕ → ℕ → Option (Rline × Thread S) → Type 0
  Passes input tsd before none = ⊥
  Passes input tsd before (some (r, x)) =
      IsThread input r x × (work x.sock x.place < before) × InPlace tsd x.place
