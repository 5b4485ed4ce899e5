-- ===== src/WebThreads/Counted.antt =====
-- The counters of web03 in every reachable state.
use unix_network_programming.Prelude.{
  ℕ, zero, suc, ◌+◌, ◌≤◌, ◌≡◌, refl, sym, ◌∙◌, subst, Option, none, some, some_inj, List, [], ◌∷◌,
  arith, set, get_elem?, length, length-set, length-replicate, replicate,
}
use unix_network_programming.Prelude.FdSet.{get_elem?-lt}
use unix_network_programming.WebThreads.{
  File, idle, reading, done, counted, joined, Place, opening, scanning, finished, quit, Web, after,
  first_idle, Step, read_all, count_done, open_file, nothing_found, wake, skip, join, unlock, leave,
  Reach, here, next, start,
}

-- The files of a kind
abbrev pub is_idle : File → ℕ
is_idle idle = 1
is_idle _ = 0

abbrev pub is_counted : File → ℕ
is_counted counted = 1
is_counted _ = 0

-- A thread has the file.
abbrev pub is_open : File → ℕ
is_open idle = 0
is_open reading = 1
is_open done = 1
is_open counted = 1
is_open joined = 0

abbrev pub is_left : File → ℕ
is_left joined = 0
is_left _ = 1

abbrev pub total : (File → ℕ) → List File → ℕ
total w [] = 0
total w (f ∷ fs) = w f + total w fs

total-set :
    (w : File → ℕ) (fs : List File) (i : ℕ) (f g : File)
    → get_elem? fs i ≡ some f
    → total w (set fs i g) + w f ≡ total w fs + w g
total-set w [] i f g h = cc
total-set w (x ∷ fs) zero f g h =
    subst (λ y. w g + total w fs + w y ≡ w x + total w fs + w g) (some_inj h) (omega arith)
total-set w (x ∷ fs) (suc i) f g h = omega (arith, total-set w fs i f g h)

total_idle :
    (n : ℕ)
    → (total is_open (replicate n idle) ≡ 0)
      × (total is_idle (replicate n idle) ≡ n)
      × (total is_left (replicate n idle) ≡ n)
      × (total is_counted (replicate n idle) ≡ 0)
total_idle zero = (refl, refl, refl, refl)
total_idle (suc n) =
    let (a, b, c, d) = total_idle n in
    (omega (arith, a), omega (arith, b), omega (arith, c), omega (arith, d))

-- main() is inside file[], and has not quit.
abbrev pub IsWithin : ℕ → Place → Type 0
IsWithin n opening = Unit
IsWithin n (scanning i) = i ≤ n
IsWithin n finished = Unit
IsWithin n quit = ⊥

pub record Counts (maxnconn n : ℕ) (s : Web) : Type 0 where
  pub conn : s.nconn ≡ total is_open s.file
  pub most : s.nconn ≤ maxnconn
  pub toconn : s.nlefttoconn ≡ total is_idle s.file
  pub toread : s.nlefttoread ≡ total is_left s.file
  pub counts_done : s.ndone ≡ total is_counted s.file
  pub size : length s.file ≡ n
  pub within : IsWithin n s.place

later :
    (f : File) (fs : List File) (i : ℕ) (o : Option ℕ)
    → after o ≡ some i
    → ((j : ℕ) → o ≡ some j → get_elem? fs j ≡ some idle)
    → get_elem? (f ∷ fs) i ≡ some idle
later f fs i none h k = cc
later f fs i (some j) h k = subst (λ i. get_elem? (f ∷ fs) i ≡ some idle) (some_inj h) (k j refl)

first_idle-found : (fs : List File) (i : ℕ) → first_idle fs ≡ some i → get_elem? fs i ≡ some idle
unfolding first_idle
first_idle-found [] i h = cc
first_idle-found (idle ∷ fs) i h =
    subst (λ i. get_elem? (idle ∷ fs) i ≡ some idle) (some_inj h) refl
first_idle-found (reading ∷ fs) i h = later reading fs i (first_idle fs) h (first_idle-found fs)
first_idle-found (done ∷ fs) i h = later done fs i (first_idle fs) h (first_idle-found fs)
first_idle-found (counted ∷ fs) i h = later counted fs i (first_idle fs) h (first_idle-found fs)
first_idle-found (joined ∷ fs) i h = later joined fs i (first_idle fs) h (first_idle-found fs)

after-none : (o : Option ℕ) → after o ≡ none → o ≡ none
after-none none h = refl
after-none (some i) h = cc

first_idle-none : (fs : List File) → first_idle fs ≡ none → total is_idle fs ≡ 0
unfolding first_idle
first_idle-none [] h = refl
first_idle-none (idle ∷ fs) h = cc
first_idle-none (reading ∷ fs) h = omega (arith, first_idle-none fs (after-none (first_idle fs) h))
first_idle-none (done ∷ fs) h = omega (arith, first_idle-none fs (after-none (first_idle fs) h))
first_idle-none (counted ∷ fs) h = omega (arith, first_idle-none fs (after-none (first_idle fs) h))
first_idle-none (joined ∷ fs) h = omega (arith, first_idle-none fs (after-none (first_idle fs) h))

-- The new flags of a file, in all four counts
set_counts :
    (fs : List File) (i : ℕ) (f g : File)
    → get_elem? fs i ≡ some f
    → (total is_open (set fs i g) + is_open f ≡ total is_open fs + is_open g)
      × (total is_idle (set fs i g) + is_idle f ≡ total is_idle fs + is_idle g)
      × (total is_left (set fs i g) + is_left f ≡ total is_left fs + is_left g)
      × (total is_counted (set fs i g) + is_counted f ≡ total is_counted fs + is_counted g)
set_counts fs i f g h = (
  total-set is_open fs i f g h,
  total-set is_idle fs i f g h,
  total-set is_left fs i f g h,
  total-set is_counted fs i f g h,
)

moved :
    {m n : ℕ} {s : Web} (p : Place)
    → Counts m n s
    → IsWithin n p
    → Counts m n (record s { place = p })
moved p c w = record {
  conn = c.conn;
  most = c.most;
  toconn = c.toconn;
  toread = c.toread;
  counts_done = c.counts_done;
  size = c.size;
  within = w;
}

Counts-Step : {m n : ℕ} {s t : Web} → Counts m n s → Step m s t → Counts m n t
Counts-Step {m} {n} c (read_all s i g) =
    let (a, b, d, e) = set_counts s.file i reading done g in
    record {
      conn = omega (arith, c.conn, a);
      most = c.most;
      toconn = omega (arith, c.toconn, b);
      toread = omega (arith, c.toread, d);
      counts_done = omega (arith, c.counts_done, e);
      size = length-set s.file i done ∙ c.size;
      within = c.within;
    }
Counts-Step {m} {n} c (count_done s i g f) =
    let (a, b, d, e) = set_counts s.file i done counted g in
    record {
      conn = omega (arith, c.conn, a);
      most = c.most;
      toconn = omega (arith, c.toconn, b);
      toread = omega (arith, c.toread, d);
      counts_done = omega (arith, c.counts_done, e);
      size = length-set s.file i counted ∙ c.size;
      within = c.within;
    }
Counts-Step {m} {n} c (open_file s i p l k z g) =
    let (a, b, d, e) = set_counts s.file i idle reading (first_idle-found s.file i g) in
    record {
      conn = omega (arith, c.conn, a);
      most = omega (arith, k);
      toconn = omega (arith, c.toconn, b);
      toread = omega (arith, c.toread, d);
      counts_done = omega (arith, c.counts_done, e);
      size = length-set s.file i reading ∙ c.size;
      within = c.within;
    }
Counts-Step {m} {n} c (nothing_found s p l k z g) =
    absurd (omega (arith, z, c.toconn, first_idle-none s.file g))
Counts-Step {m} {n} c (wake s p l k z) = moved (scanning 0) c (omega arith)
Counts-Step {m} {n} c (skip s i f p g x) =
    moved (scanning (i + 1)) c (omega (arith, get_elem?-lt s.file i f g, c.size))
Counts-Step {m} {n} c (join s i p g) =
    let (a, b, d, e) = set_counts s.file i counted joined g in
    record {
      conn = omega (arith, c.conn, a);
      most = omega (arith, c.most);
      toconn = omega (arith, c.toconn, b);
      toread = omega (arith, c.toread, d);
      counts_done = omega (arith, c.counts_done, e);
      size = length-set s.file i joined ∙ c.size;
      within = omega (arith, get_elem?-lt s.file i counted g, c.size);
    }
Counts-Step {m} {n} c (unlock s i p g) = moved opening c tt
Counts-Step {m} {n} c (leave s p g) = moved finished c tt

-- With `n` files and at most `maxnconn` connections, whatever the order in which main() and the threads
-- go on: nconn is the number of files that a thread has, and at most `maxnconn`; nlefttoconn that of the
-- files that are not begun, nlefttoread that of those not joined, and ndone that of the threads that
-- have counted themselves and are not joined. main() stays inside file[], and never finds nothing to open.
pub Reach-Counts : {m : ℕ} (n : ℕ) {s : Web} → Reach m (start n) s → Counts m n s
Reach-Counts n here =
    let (a, b, c, d) = total_idle n in
    record {
      conn = sym a;
      most = omega arith;
      toconn = sym b;
      toread = sym c;
      counts_done = sym d;
      size = length-replicate n idle;
      within = tt;
    }
Reach-Counts n (next r t) = Counts-Step (Reach-Counts n r) t
