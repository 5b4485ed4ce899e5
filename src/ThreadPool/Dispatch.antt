-- ===== src/ThreadPool/Dispatch.antt =====
-- The threads take the connections in the order in which they were accepted.
use unix_network_programming.Prelude.{
  ℕ, suc, ◌+◌, ◌<◌, ◌≡◌, refl, ap, sym, ◌∙◌, subst, true, false, some, List, [], ◌∷◌, ◌++◌, arith,
  ◌==◌, length, get_elem?, set, append_assoc, map-append, length-append, length-set, drop-suc,
  length-replicate,
}
use unix_network_programming.Prelude.Cyclic.{next, place, Holds, Holds-next}
use unix_network_programming.ThreadPool.{
  maxncli, Pool, Outcome, running, quit, fault, bump, put, serve, get, Event, accepts, wakes, step,
  run, start, ◌>>=◌,
}
use unix_network_programming.ThreadPool.Fifo.{
  IsFifo, Puts, put-Puts, connections, sum, sum-set, sum-replicate,
}

-- A valid pool behind an outcome, or err_quit().
abbrev pub Keeps : ℕ → Outcome → Type 0
Keeps n (running p) = IsFifo n p
Keeps n quit = Unit
Keeps n fault = ⊥

slot_in : (xs : List ℕ) (i : ℕ) → i < length xs → (x : ℕ) × (get_elem? xs i ≡ some x)
slot_in xs i h = let (x, hit, rest) = drop-suc i xs h in (x, hit)

place_zero : (h : ℕ) → h < maxncli → place maxncli h 0 ≡ h
place_zero h p = ground arith

get_end :
    (g i k : ℕ)
    → g < maxncli
    → suc k < maxncli
    → i ≡ place maxncli g (suc k)
    → i ≡ place maxncli (bump g) k
get_end g i k p q e = ground arith

bump-next : (g : ℕ) → g < maxncli → next maxncli g ≡ bump g
bump-next g p = ground arith

bump-lt : (g : ℕ) → g < maxncli → bump g < maxncli
bump-lt g p = ground arith

get_empty : (g k : ℕ) → g < maxncli → suc k < maxncli → (g == place maxncli g (suc k)) ≡ false
get_empty g k p q = ground arith

==_true : (a b : ℕ) → b ≡ a → (a == b) ≡ true
==_true a b e = ground arith

module _ (n : ℕ) (p : Pool) where
  served-IsFifo :
      (v : IsFifo n p) (i c m : ℕ) (rest : List ℕ)
      → v.queue ≡ c ∷ rest
      → get_elem? p.thread_count i ≡ some m
      → length (c ∷ rest) < maxncli
      → p.iput ≡ place maxncli p.iget (length (c ∷ rest))
      → Holds maxncli p.clifd p.iget 0 (c ∷ rest)
      → p.accepted ≡ connections p.taken ++ (c ∷ rest)
      → IsFifo n (record p {
        iget = bump p.iget;
        thread_count = set p.thread_count i (m + 1);
        taken = p.taken ++ (i, c) ∷ [];
      })
  served-IsFifo v i c m rest split hit fits ends holds order = record {
    queue = rest;
    slots = v.slots;
    threads = length-set p.thread_count i (m + 1) ∙ v.threads;
    iget_in = bump-lt p.iget v.iget_in;
    ends = get_end p.iget p.iput (length rest) v.iget_in fits ends;
    fits = omega arith;
    holds =
        subst (λ h. Holds maxncli p.clifd h 0 rest) (bump-next p.iget v.iget_in)
          (Holds-next maxncli p.clifd p.iget 0 rest v.iget_in (omega arith) holds.1);
    in_order =
        order
        ∙ sym (append_assoc (connections p.taken) (c ∷ []) rest)
        ∙ ap (λ l. l ++ rest) (sym (map-append (λ (t : ℕ × ℕ). t.1) p.taken ((i, c) ∷ [])));
    counts =
        omega
          (arith, v.counts, sum-set p.thread_count i m hit, length-append p.taken ((i, c) ∷ []));
  }

  get-serves :
      (i c m : ℕ)
      → (p.iget == p.iput) ≡ false
      → get_elem? p.clifd p.iget ≡ some c
      → get_elem? p.thread_count i ≡ some m
      → get p i
        ≡ running (record p {
          iget = bump p.iget;
          thread_count = set p.thread_count i (m + 1);
          taken = p.taken ++ (i, c) ∷ [];
        })
  unfolding get serve
  get-serves i c m e h t = rw (e, h, t, get, serve)

  get-waits : (i : ℕ) → (p.iget == p.iput) ≡ true → get p i ≡ running p
  unfolding get
  get-waits i e = rw (e, get)

  get-queue :
      (v : IsFifo n p) (i : ℕ) (q : List ℕ)
      → v.queue ≡ q
      → i < n
      → length q < maxncli
      → p.iput ≡ place maxncli p.iget (length q)
      → Holds maxncli p.clifd p.iget 0 q
      → p.accepted ≡ connections p.taken ++ q
      → Keeps n (get p i)
  get-queue v i [] e h fits ends holds order =
      subst (Keeps n)
        (sym (get-waits i (==_true p.iget p.iput (ends ∙ place_zero p.iget v.iget_in)))) v
  get-queue v i (c ∷ rest) e h fits ends holds order =
      let (m, hit) = slot_in p.thread_count i (omega (arith, v.threads)) in
      subst (Keeps n)
        (sym (
          get-serves i c m
            (ap (λ j. p.iget == j) ends ∙ get_empty p.iget (length rest) v.iget_in fits)
            (subst (λ j. get_elem? p.clifd j ≡ some c) (place_zero p.iget v.iget_in) holds.0) hit))
        (served-IsFifo v i c m rest e hit fits ends holds order)

Puts-Keeps : (n : ℕ) (q : List ℕ) (r : Outcome) → Puts n q r → Keeps n r
Puts-Keeps n q (running p) h = h.0
Puts-Keeps n q quit h = tt
Puts-Keeps n q fault h = h

-- The threads are numbered below `n`.
abbrev pub Known : ℕ → Event → Type 0
Known n (accepts c) = Unit {0}
Known n (wakes i) = i < n

abbrev pub AllKnown : ℕ → List Event → Type 0
AllKnown n [] = Unit {0}
AllKnown n (e ∷ es) = Known n e × AllKnown n es

step-Keeps : (n : ℕ) (p : Pool) (e : Event) → IsFifo n p → Known n e → Keeps n (step p e)
unfolding step
step-Keeps n p (accepts c) v k = Puts-Keeps n v.queue (put p c) (put-Puts n p v c)
step-Keeps n p (wakes i) v k = get-queue n p v i v.queue refl k v.fits v.ends v.holds v.in_order

>>=-Keeps :
    (n : ℕ) (o : Outcome) (f : Pool → Outcome)
    → Keeps n o
    → ((p : Pool) → IsFifo n p → Keeps n (f p))
    → Keeps n (o >>= f)
>>=-Keeps n (running p) f h k = k p h
>>=-Keeps n quit f h k = h
>>=-Keeps n fault f h k = h

run-Keeps : (n : ℕ) (p : Pool) (es : List Event) → IsFifo n p → AllKnown n es → Keeps n (run p es)
unfolding run
run-Keeps n p [] v k = v
run-Keeps n p (e ∷ es) v k =
    >>=-Keeps n (step p e) (λ q. run q es) (step-Keeps n p e v k.0) (λ q w. run-Keeps n q es w k.1)

pub start-IsFifo : (n : ℕ) → IsFifo n (start n)
unfolding start
start-IsFifo n = record {
  queue = [];
  slots = refl;
  threads = length-replicate n 0;
  iget_in = omega arith;
  ends = refl;
  fits = omega arith;
  holds = tt;
  in_order = refl;
  counts = sum-replicate n;
}

-- The connections that wait are the last accepted, fewer than 32, and the threads count those taken.
abbrev pub Deals : Outcome → Type 0
Deals (running p) =
    (waits : List ℕ) × (p.accepted ≡ connections p.taken ++ waits)
    × (length waits < maxncli)
    × (sum p.thread_count ≡ length p.taken)
Deals quit = Unit
Deals fault = ⊥

Keeps-Deals : (n : ℕ) (o : Outcome) → Keeps n o → Deals o
Keeps-Deals n (running p) v = (v.queue, v.in_order, v.fits, v.counts)
Keeps-Deals n quit v = tt
Keeps-Deals n fault v = v

-- With `n` threads, whatever the order in which the main thread accepts and the threads wake, the pool
-- never leaves an array. While it goes on, the connections taken are the first of those accepted, each
-- once and in order; fewer than 32 wait; and the threads' counts add up to the number taken.
pub run-start-Deals : (n : ℕ) (es : List Event) → AllKnown n es → Deals (run (start n) es)
run-start-Deals n es k = Keeps-Deals n _ (run-Keeps n (start n) es (start-IsFifo n) k)
