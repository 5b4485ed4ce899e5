-- ===== src/Sigio/Handler.antt =====
-- sig_io(): what the handler reads, and when the queue overflows.
use unix_network_programming.Prelude.{
  ℕ, suc, ◌+◌, ◌≤◌, ◌<◌, ◌≡◌, refl, ap, sym, ◌∙◌, subst, true, false, some, List, [], ◌∷◌, ◌++◌,
  arith, leb, length, get_elem?, set, append_assoc, append-nil, Bool-cases, inl, inr,
}
use unix_network_programming.Sigio.{
  qsize, Datagram, Dg, Stop, would_block, failure, Server, Outcome, running, overflow, died, fault,
  store, sig_io_stop, sig_io_end, reset, Dg, sig_io_loop, sig_io,
}
use unix_network_programming.Sigio.Queue.{
  IsQueue, stored, store-stores, tally-tallies, reset-resets,
}

-- How the handler ends after `ds`, when it has read `nread` datagrams before them.
abbrev pub Handles : Server → ℕ → List Datagram → Stop → Outcome → Type 0
Handles s nread ds e (running t) =
    IsQueue t
    × (s.nqueue + length ds < qsize)
    × (e ≡ would_block)
    × (t.nqueue ≡ s.nqueue + length ds)
    × (t.arrived ≡ s.arrived ++ ds)
    × (t.echoed ≡ s.echoed)
    × (t.place ≡ s.place)
    × (k : ℕ) × (get_elem? s.cntread (nread + length ds) ≡ some k)
    × (t.cntread ≡ set s.cntread (nread + length ds) (k + 1))
Handles s nread ds e overflow = qsize ≤ s.nqueue + length ds
Handles s nread ds e died = (s.nqueue + length ds < qsize) × (e ≡ failure)
Handles s nread ds e fault = ⊥

loop-full :
    (s : Server) (n : ℕ) (ds : List Datagram) (e : Stop)
    → leb qsize s.nqueue ≡ true
    → sig_io_loop s n ds e ≡ overflow
unfolding sig_io_loop
loop-full s n [] e h = rw (h, sig_io_loop)
loop-full s n (d ∷ ds) e h = rw (h, sig_io_loop)

loop-stop :
    (s : Server) (n : ℕ) (e : Stop)
    → leb qsize s.nqueue ≡ false
    → sig_io_loop s n [] e ≡ sig_io_stop s n e
unfolding sig_io_loop
loop-stop s n e h = rw (h, sig_io_loop)

loop-more :
    (s t : Server) (n : ℕ) (d : Datagram) (ds : List Datagram) (e : Stop)
    → leb qsize s.nqueue ≡ false
    → store s d ≡ running t
    → sig_io_loop s n (d ∷ ds) e ≡ sig_io_loop t (n + 1) ds e
unfolding sig_io_loop
loop-more s t n d ds e h q = rw (h, q, sig_io_loop)

end-Handles :
    (s : Server) (n : ℕ) (e : Stop)
    → IsQueue s
    → s.nqueue < qsize
    → n ≤ s.nqueue
    → Handles s n [] e (sig_io_end s n e)
unfolding sig_io_end
end-Handles s n would_block v h q =
    let (k, hit, runs, ok) = tally-tallies s n v (omega arith) in
    subst (Handles s n [] would_block) (sym runs) (
      ok,
      omega arith,
      refl,
      omega arith,
      sym (append-nil s.arrived),
      refl,
      refl,
      k,
      ap (get_elem? s.cntread) {x = n + 0} {y = n} (omega arith) ∙ hit,
      ap (λ i. set s.cntread i (k + 1)) {x = n} {y = n + 0} (omega arith),
    )
end-Handles s n failure v h q = (omega arith, refl)

stop-end :
    (s : Server) (n : ℕ) (e : Stop) (p : Dg)
    → get_elem? s.dg s.iput ≡ some p
    → sig_io_stop s n e ≡ sig_io_end (reset s p) n e
unfolding sig_io_stop
stop-end s n e p h = rw (h, sig_io_stop)

stop-Handles :
    (s : Server) (n : ℕ) (e : Stop)
    → IsQueue s
    → s.nqueue < qsize
    → n ≤ s.nqueue
    → Handles s n [] e (sig_io_stop s n e)
stop-Handles s n e v h q =
    let (p, hit, ok) = reset-resets s v h in
    subst (Handles s n [] e) (sym (stop-end s n e p hit))
      (unreset s n e p (sig_io_end (reset s p) n e) (end-Handles (reset s p) n e ok h q))
  where
    unreset :
        (s : Server) (n : ℕ) (e : Stop) (p : Dg) (o : Outcome)
        → Handles (reset s p) n [] e o
        → Handles s n [] e o
    unreset s n e p (running t) w = w
    unreset s n e p overflow w = w
    unreset s n e p died w = w
    unreset s n e p fault w = w

Handles-cons :
    (s : Server) (n : ℕ) (d : Datagram) (p : Dg) (ds : List Datagram) (e : Stop) (r : Outcome)
    → Handles (stored s d p) (n + 1) ds e r
    → Handles s n (d ∷ ds) e r
Handles-cons s n d p ds e (running t) (ok, lt, w, c, a, x, y, k, hit, tallied) = (
  ok,
  omega arith,
  w,
  omega arith,
  a ∙ append_assoc s.arrived (d ∷ []) ds,
  x,
  y,
  k,
  ap (get_elem? s.cntread) {x = n + suc (length ds)} {y = n + 1 + length ds} (omega arith) ∙ hit,
  tallied
      ∙ ap (λ i. set s.cntread i (k + 1)) {x = n + 1 + length ds} {y = n + suc (length ds)}
          (omega arith),
)
Handles-cons s n d p ds e overflow h = omega arith
Handles-cons s n d p ds e died h = (omega arith, h.1)
Handles-cons s n d p ds e fault h = h

sig_io_loop-Handles :
    (s : Server) (n : ℕ) (ds : List Datagram) (e : Stop)
    → IsQueue s
    → n ≤ s.nqueue
    → Handles s n ds e (sig_io_loop s n ds e)
sig_io_loop-Handles s n [] e v h = elim (Bool-cases (leb qsize s.nqueue)) [
  | inl full ↦ subst (Handles s n [] e) (sym (loop-full s n [] e full)) (ground arith)
  | inr room ↦
      subst (Handles s n [] e) (sym (loop-stop s n e room)) (stop-Handles s n e v (ground arith) h)
]
sig_io_loop-Handles s n (d ∷ ds) e v h = elim (Bool-cases (leb qsize s.nqueue)) [
  | inl full ↦ subst (Handles s n (d ∷ ds) e) (sym (loop-full s n (d ∷ ds) e full)) (ground arith)
  | inr room ↦
      let (p, q, ok) = store-stores s d v (ground arith) in
      subst (Handles s n (d ∷ ds) e) (sym (loop-more s (stored s d p) n d ds e room q)) (
        Handles-cons s n d p ds e _
          (sig_io_loop-Handles (stored s d p) (n + 1) ds e ok (omega arith)))
]

-- From a valid queue, with the datagrams `ds` waiting at the socket, sig_io() reads inside its arrays.
-- It quits for overflow only if `nqueue` and `ds` together reach QSIZE, even where no further datagram
-- waits, and otherwise never; it dies only on an error of recvfrom() other than EWOULDBLOCK. Where it
-- returns, all of `ds` is in the queue in order, the queue is valid, what is sent back and the main
-- loop's place are as before, and the histogram has one more signal of as many datagrams.
pub sig_io-Handles :
    (s : Server) (ds : List Datagram) (e : Stop) → IsQueue s → Handles s 0 ds e (sig_io s ds e)
unfolding sig_io
sig_io-Handles s ds e v = sig_io_loop-Handles s 0 ds e v (omega arith)
