-- ===== src/ThreadPool/Fifo.antt =====
-- The queue of connections hands them out in the order in which they were accepted, and holds 31.
use unix_network_programming.Prelude.{
  ℕ, zero, suc, ◌+◌, ◌<◌, ◌≡◌, refl, ap, sym, ◌∙◌, subst, true, false, some, List, [], ◌∷◌, ◌++◌,
  arith, ◌==◌, length, get_elem?, set, map, append_assoc, Bool-cases, inl, inr, length-append,
  length-set, replicate,
}
use unix_network_programming.Prelude.Cyclic.{place, Holds, Holds-set}
use unix_network_programming.ThreadPool.{maxncli, Pool, Outcome, running, quit, fault, bump, put}

-- The connections that a thread has taken, without the threads.
abbrev pub connections : List (ℕ × ℕ) → List ℕ
connections = map (λ t. t.1)

abbrev pub sum : List ℕ → ℕ
sum [] = 0
sum (n ∷ ns) = n + sum ns

pub sum-set :
    (ns : List ℕ) (i n : ℕ) → get_elem? ns i ≡ some n → sum (set ns i (n + 1)) ≡ sum ns + 1
sum-set [] i n h = cc
sum-set (m ∷ ns) zero n h = ground arith
sum-set (m ∷ ns) (suc i) n h = omega (arith, sum-set ns i n h)

pub sum-replicate : (n : ℕ) → sum (replicate n 0) ≡ 0
sum-replicate zero = refl
sum-replicate (suc n) = omega (arith, sum-replicate n)

-- With `nthreads` threads: `queue` are the connections that wait.
pub record IsFifo (nthreads : ℕ) (p : Pool) : Type 0 where
  pub queue : List ℕ
  pub slots : length p.clifd ≡ maxncli
  pub threads : length p.thread_count ≡ nthreads
  pub iget_in : p.iget < maxncli
  pub ends : p.iput ≡ place maxncli p.iget (length queue)
  pub fits : length queue < maxncli
  pub holds : Holds maxncli p.clifd p.iget 0 queue
  pub in_order : p.accepted ≡ connections p.taken ++ queue
  pub counts : sum p.thread_count ≡ length p.taken

abbrev pub Puts : ℕ → List ℕ → Outcome → Type 0
Puts n q (running p) = IsFifo n p × (suc (length q) < maxncli)
Puts n q quit = suc (length q) ≡ maxncli
Puts n q fault = ⊥

put_end :
    (g i k : ℕ)
    → g < maxncli
    → k < maxncli
    → i ≡ place maxncli g k
    → bump i ≡ place maxncli g (suc k)
put_end g i k p q e = ground arith

put_full :
    (g k : ℕ) → g < maxncli → k < maxncli → (place maxncli g (suc k) == g) ≡ true → suc k ≡ maxncli
put_full g k p q e = ground arith

put_room :
    (g k : ℕ) → g < maxncli → k < maxncli → (place maxncli g (suc k) == g) ≡ false → suc k < maxncli
put_room g k p q e = ground arith

module _ (n : ℕ) (p : Pool) (v : IsFifo n p) where
  put-quit : (c : ℕ) → (bump p.iput == p.iget) ≡ true → put p c ≡ quit
  unfolding put
  put-quit c h = rw (h, put)

  abbrev stored : ℕ → Pool
  stored c = record p {
    clifd = set p.clifd p.iput c;
    iput = bump p.iput;
    accepted = p.accepted ++ c ∷ [];
  }

  put-stored : (c : ℕ) → (bump p.iput == p.iget) ≡ false → put p c ≡ running (stored c)
  unfolding put
  put-stored c h = rw (h, put)

  at_end : bump p.iput ≡ place maxncli p.iget (suc (length v.queue))
  at_end = put_end p.iget p.iput (length v.queue) v.iget_in v.fits v.ends

  stored-IsFifo : (c : ℕ) → suc (length v.queue) < maxncli → IsFifo n (stored c)
  stored-IsFifo c h = record {
    queue = v.queue ++ c ∷ [];
    slots = length-set p.clifd p.iput c ∙ v.slots;
    threads = v.threads;
    iget_in = v.iget_in;
    ends =
        at_end
        ∙ ap (place maxncli p.iget) {x = suc (length v.queue)} {y = length (v.queue ++ c ∷ [])}
            (omega (arith, length-append v.queue (c ∷ [])));
    fits = omega (arith, length-append v.queue (c ∷ []));
    holds =
        Holds-set maxncli p.clifd p.iget 0 p.iput v.queue c v.iget_in (omega arith)
          (omega (arith, v.slots))
          (v.ends
            ∙ ap (place maxncli p.iget) {x = length v.queue} {y = 0 + length v.queue} (omega arith))
          v.holds;
    in_order =
        ap (λ l. l ++ c ∷ []) v.in_order ∙ append_assoc (connections p.taken) v.queue (c ∷ []);
    counts = v.counts;
  }

  -- The main thread's put() keeps the queue in order, or quits; it quits exactly when 31 connections
  -- wait already.
  pub put-Puts : (c : ℕ) → Puts n v.queue (put p c)
  put-Puts c = elim (Bool-cases (bump p.iput == p.iget)) [
    | inl full ↦ subst (Puts n v.queue) (sym (put-quit c full)) (
        put_full p.iget (length v.queue) v.iget_in v.fits
          (sym (ap (λ i. i == p.iget) at_end) ∙ full))
    | inr room ↦
        let more =
          put_room p.iget (length v.queue) v.iget_in v.fits
            (sym (ap (λ i. i == p.iget) at_end) ∙ room) in
        subst (Puts n v.queue) (sym (put-stored c room)) (stored-IsFifo c more, more)
  ]
