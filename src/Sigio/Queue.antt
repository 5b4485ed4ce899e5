-- ===== src/Sigio/Queue.antt =====
-- The queue of datagrams, whatever the interleaving of the handler with the main loop.
use unix_network_programming.Prelude.{
  ℕ, ◌+◌, ◌≤◌, ◌<◌, ◌≡◌, ap, sym, ◌∙◌, some, List, [], ◌∷◌, ◌++◌, arith, length, get_elem?, set,
  map, append_assoc, map-append, length-append, drop, length-set, drop-suc, take-append,
}
use unix_network_programming.Prelude.Cyclic.{next, place, Holds, Holds-set, Holds-set_past}
use unix_network_programming.Sigio.{
  qsize, Datagram, Dg, Place, waiting, sending, sent, advanced, Server, Outcome, running, overflow,
  died, fault, receive, datagram_of, store, tally, reset,
}

-- The slots that wait to be dropped from the queue, and the datagrams not yet sent back.
abbrev pub Accounts : Place → List Datagram → List Datagram → List Dg → Type 0
Accounts waiting arrived echoed q = arrived ≡ echoed ++ map datagram_of q
Accounts sending arrived echoed q = (arrived ≡ echoed ++ map datagram_of q) × (0 < length q)
Accounts sent arrived echoed [] = ⊥
Accounts sent arrived echoed (p ∷ q) = arrived ≡ echoed ++ map datagram_of q
Accounts advanced arrived echoed [] = ⊥
Accounts advanced arrived echoed (p ∷ q) = arrived ≡ echoed ++ map datagram_of q

-- Where the queue begins: `iget` has left the first slot before `nqueue--` drops it.
abbrev pub Begins : Place → ℕ → ℕ → Type 0
Begins advanced iget h = iget ≡ next qsize h
Begins _ iget h = iget ≡ h

-- The ring behind the indices, when the main loop stands at `p`.
pub record QueueAt (p : Place) (s : Server) : Type 0 where
  pub head : ℕ
  pub queue : List Dg
  pub head_in : head < qsize
  pub slots : length s.dg ≡ qsize
  pub counted : s.nqueue ≡ length queue
  pub fits : length queue ≤ qsize
  pub begins : Begins p s.iget head
  pub ends : s.iput ≡ place qsize head (length queue)
  pub holds : Holds qsize s.dg head 0 queue
  pub accounts : Accounts p s.arrived s.echoed queue
  pub histogram : length s.cntread ≡ 9

abbrev pub IsQueue : Server → Type 0
IsQueue s = QueueAt s.place s

-- A server that goes on has room for one more datagram, and one that stops does so by err_quit() or
-- err_sys(), never by an access outside an array.
abbrev pub Keeps : Outcome → Type 0
Keeps (running s) = IsQueue s × (s.nqueue < qsize)
Keeps overflow = Unit
Keeps died = Unit
Keeps fault = ⊥

datagram_of-receive : (p : Dg) (d : Datagram) → datagram_of (receive p d) ≡ d
datagram_of-receive p d =
    ap (λ l. record d { bytes = l }) (take-append d.bytes (drop (length d.bytes) p.dg_data))

more :
    (xs ys : List Datagram) (q : List Dg) (p : Dg) (d : Datagram)
    → xs ≡ ys ++ map datagram_of q
    → datagram_of p ≡ d
    → xs ++ d ∷ [] ≡ ys ++ map datagram_of (q ++ p ∷ [])
more xs ys q p d e f =
    rw (e, ← f, map-append datagram_of q (p ∷ []))
      (append_assoc ys (map datagram_of q) (datagram_of p ∷ []))

Accounts-snoc :
    (at : Place) (xs ys : List Datagram) (q : List Dg) (p : Dg) (d : Datagram)
    → datagram_of p ≡ d
    → Accounts at xs ys q
    → Accounts at (xs ++ d ∷ []) ys (q ++ p ∷ [])
Accounts-snoc waiting xs ys q p d f a = more xs ys q p d a f
Accounts-snoc sending xs ys q p d f a =
    (more xs ys q p d a.0 f, omega (arith, length-append q (p ∷ [])))
Accounts-snoc sent xs ys [] p d f a = absurd a
Accounts-snoc sent xs ys (x ∷ q) p d f a = more xs ys q p d a f
Accounts-snoc advanced xs ys [] p d f a = absurd a
Accounts-snoc advanced xs ys (x ∷ q) p d f a = more xs ys q p d a f

place_snoc :
    (h n i : ℕ) → h < qsize → n < qsize → i ≡ place qsize h n → next qsize i ≡ place qsize h (n + 1)
place_snoc h n i p q e = ground arith

place-lt : (h n i : ℕ) → h < qsize → n ≤ qsize → i ≡ place qsize h n → i < qsize
place-lt h n i p q e = ground arith

abbrev pub stored : Server → Datagram → Dg → Server
stored s d p = record s {
  dg = set s.dg s.iput (receive p d);
  nqueue = s.nqueue + 1;
  iput = next qsize s.iput;
  arrived = s.arrived ++ d ∷ [];
}

store-QueueAt :
    (s : Server) (d : Datagram) (p : Dg) → IsQueue s → s.nqueue < qsize → IsQueue (stored s d p)
store-QueueAt s d p v h = record {
  head = v.head;
  queue = v.queue ++ receive p d ∷ [];
  head_in = v.head_in;
  slots = length-set s.dg s.iput (receive p d) ∙ v.slots;
  counted = omega (arith, v.counted, length-append v.queue (receive p d ∷ []));
  fits = omega (arith, v.counted, length-append v.queue (receive p d ∷ []));
  begins = v.begins;
  ends =
      place_snoc v.head (length v.queue) s.iput v.head_in (omega (arith, v.counted)) v.ends
      ∙ ap (place qsize v.head) (sym (length-append v.queue (receive p d ∷ [])));
  holds =
      Holds-set qsize s.dg v.head 0 s.iput v.queue (receive p d) v.head_in
        (omega (arith, v.counted)) (omega (arith, v.slots))
        (v.ends
          ∙ ap (place qsize v.head) {x = length v.queue} {y = 0 + length v.queue} (omega arith))
        v.holds;
  accounts =
      Accounts-snoc s.place s.arrived s.echoed v.queue (receive p d) d (datagram_of-receive p d)
        v.accounts;
  histogram = v.histogram;
}

slot_in : {A : Type 0} (xs : List A) (i : ℕ) → i < length xs → (x : A) × (get_elem? xs i ≡ some x)
slot_in xs i h = let (x, hit, rest) = drop-suc i xs h in (x, hit)

-- The salen of the slot behind the queue is of no account.
pub reset-resets :
    (s : Server)
    → IsQueue s
    → s.nqueue < qsize
    → (p : Dg) × (get_elem? s.dg s.iput ≡ some p) × IsQueue (reset s p)
reset-resets s v h =
    let (p, hit) =
      slot_in s.dg s.iput
        (omega (arith, v.slots, place-lt v.head (length v.queue) s.iput v.head_in v.fits v.ends)) in
    (
      p,
      hit,
      record {
        head = v.head;
        queue = v.queue;
        head_in = v.head_in;
        slots = length-set s.dg s.iput (record p { dg_salen = s.clilen }) ∙ v.slots;
        counted = v.counted;
        fits = v.fits;
        begins = v.begins;
        ends = v.ends;
        holds =
            Holds-set_past qsize s.dg v.head s.iput v.queue (record p { dg_salen = s.clilen })
              v.head_in (omega (arith, v.counted)) (omega (arith, v.slots)) v.ends v.holds;
        accounts = v.accounts;
        histogram = v.histogram;
      },
    )

pub store-stores :
    (s : Server) (d : Datagram)
    → IsQueue s
    → s.nqueue < qsize
    → (p : Dg) × (store s d ≡ running (stored s d p)) × IsQueue (stored s d p)
unfolding store
store-stores s d v h =
    let (p, hit) =
      slot_in s.dg s.iput
        (omega (arith, v.slots, place-lt v.head (length v.queue) s.iput v.head_in v.fits v.ends)) in
    (p, rw (hit, store), store-QueueAt s d p v h)

pub tally-tallies :
    (s : Server) (n : ℕ)
    → IsQueue s
    → n < 9
    → (k : ℕ) × (get_elem? s.cntread n ≡ some k)
      × (tally s n ≡ running (record s { cntread = set s.cntread n (k + 1) }))
      × IsQueue (record s { cntread = set s.cntread n (k + 1) })
unfolding tally
tally-tallies s n v h =
    let (k, hit) = slot_in s.cntread n (omega (arith, v.histogram)) in
    (
      k,
      hit,
      rw (hit, tally),
      record {
        head = v.head;
        queue = v.queue;
        head_in = v.head_in;
        slots = v.slots;
        counted = v.counted;
        fits = v.fits;
        begins = v.begins;
        ends = v.ends;
        holds = v.holds;
        accounts = v.accounts;
        histogram = length-set s.cntread n (k + 1) ∙ v.histogram;
      },
    )
