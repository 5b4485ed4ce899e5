-- ===== src/Stream/Replay.antt =====
-- A socket that follows a script, and is a stream: the assumptions of `IsStream` can be met.
use unix_network_programming.Prelude.{
  ℕ, zero, suc, ◌<◌, ◌≡◌, refl, sym, List, [], ◌∷◌, ◌++◌, arith, take, drop, take-append-drop,
  length-take, append-nil, append_assoc,
}
use unix_network_programming.Stream.{eintr, Read, bytes, error, Write, wrote, Socket}
use unix_network_programming.Stream.Laws.{IsStream, ReadBehaves, WriteBehaves}

-- A packet that arrives (with its first byte), or a signal that is caught.
pub data Event : Type 0 where
  packet : ℕ → List ℕ → Event
  signal : Event

pub record Script : Type 0 where
  pub coming : List Event
  pub out : List ℕ

abbrev pub bytes_of : List Event → List ℕ
bytes_of [] = []
bytes_of (packet x xs ∷ es) = (x ∷ xs) ++ bytes_of es
bytes_of (signal ∷ es) = bytes_of es

abbrev pub signals : List Event → ℕ
signals [] = 0
signals (packet x xs ∷ es) = signals es
signals (signal ∷ es) = suc (signals es)

abbrev pub put_back : List ℕ → List Event → List Event
put_back [] es = es
put_back (x ∷ xs) es = packet x xs ∷ es

abbrev pub replay_read : List Event → List ℕ → ℕ → Read Script
replay_read [] out n = bytes [] (record { coming = []; out = out })
replay_read (packet x xs ∷ es) out n =
    bytes (take n (x ∷ xs)) (record { coming = put_back (drop n (x ∷ xs)) es; out = out })
replay_read (signal ∷ es) out n = error eintr (record { coming = es; out = out })

-- A signal interrupts a write() too; else at most two bytes are taken.
abbrev pub replay_write : List Event → List ℕ → List ℕ → Write Script
replay_write (signal ∷ es) out xs = error eintr (record { coming = es; out = out })
replay_write es out [] = wrote 0 (record { coming = es; out = out })
replay_write es out (x ∷ []) = wrote 1 (record { coming = es; out = out ++ x ∷ [] })
replay_write es out (x ∷ y ∷ r) = wrote 2 (record { coming = es; out = out ++ x ∷ y ∷ [] })

abbrev pub replay : Socket Script
replay = record {
  read = λ s n. replay_read s.coming s.out n;
  write = λ s xs. replay_write s.coming s.out xs;
}

abbrev pub Behaves : Script → ℕ → Read Script → Type 0
Behaves = ReadBehaves (λ s. bytes_of s.coming) (λ s. s.out) (λ s. signals s.coming)

bytes_of-put_back : (xs : List ℕ) (es : List Event) → bytes_of (put_back xs es) ≡ xs ++ bytes_of es
bytes_of-put_back [] es = refl
bytes_of-put_back (x ∷ xs) es = refl

signals-put_back : (xs : List ℕ) (es : List Event) → signals (put_back xs es) ≡ signals es
signals-put_back [] es = refl
signals-put_back (x ∷ xs) es = refl

pub replay_reads :
    (es : List Event) (out : List ℕ) (n : ℕ)
    → 0 < n
    → Behaves (record { coming = es; out = out }) n (replay_read es out n)
replay_reads [] out n h = (refl, refl, refl, omega arith)
replay_reads (packet x xs ∷ es) out zero h = absurd (omega arith)
replay_reads (packet x xs ∷ es) out (suc n) h = (
  omega (arith, length-take n xs),
  ground (
    arith,
    bytes_of-put_back (drop n xs) es,
    append_assoc (take n xs) (drop n xs) (bytes_of es),
    take-append-drop n xs,
  ),
  refl,
  omega (arith, signals-put_back (drop n xs) es),
)
replay_reads (signal ∷ es) out n h = (refl, refl, omega arith)

abbrev pub Accepts : Script → List ℕ → Write Script → Type 0
Accepts = WriteBehaves (λ s. bytes_of s.coming) (λ s. s.out) (λ s. signals s.coming)

pub replay_writes :
    (es : List Event) (out xs : List ℕ)
    → Accepts (record { coming = es; out = out }) xs (replay_write es out xs)
replay_writes (signal ∷ es) out xs = (refl, refl, omega arith)
replay_writes [] out [] = (omega arith, sym (append-nil out), refl, omega arith)
replay_writes [] out (x ∷ []) = (omega arith, refl, refl, omega arith)
replay_writes [] out (x ∷ y ∷ r) = (omega arith, refl, refl, omega arith)
replay_writes (packet _ _ ∷ es) out [] = (omega arith, sym (append-nil out), refl, omega arith)
replay_writes (packet _ _ ∷ es) out (x ∷ []) = (omega arith, refl, refl, omega arith)
replay_writes (packet _ _ ∷ es) out (x ∷ y ∷ r) = (omega arith, refl, refl, omega arith)

abbrev pub replay-IsStream : IsStream replay
replay-IsStream = record {
  pending = λ s. bytes_of s.coming;
  sent = λ s. s.out;
  patience = λ s. signals s.coming;
  reads = λ s n h. replay_reads s.coming s.out n h;
  writes = λ s xs h. replay_writes s.coming s.out xs;
}
