-- ===== src/Sigio/MainLoop.antt =====
-- dg_echo() with its handler: every datagram that is read is sent back once and in order.
use unix_network_programming.Prelude.{
  ℕ, ◌-◌, ◌≤◌, ◌<◌, ◌≡◌, refl, ap, sym, ◌∙◌, subst, Bool, true, false, some, List, [], ◌∷◌, ◌++◌,
  arith, ◌==◌, if◌then◌else◌, length, get_elem?, map, append_assoc, Bool-cases, inl, inr,
  length-map,
}
use unix_network_programming.Prelude.Cyclic.{next, place, Holds, Holds-next}
use unix_network_programming.Sigio.{
  qsize, Datagram, Dg, Stop, Place, waiting, sending, sent, advanced, Server, Outcome, running,
  overflow, died, fault, ◌>>=◌, datagram_of, sig_io, send, proceed, open_to_sigio, Event, sigio, go,
  step, run, start,
}
use unix_network_programming.Sigio.Queue.{IsQueue, QueueAt, Keeps, Accounts}
use unix_network_programming.Sigio.Handler.{Handles, sig_io-Handles}

place_zero : (h : ℕ) → h < qsize → place qsize h 0 ≡ h
place_zero h p = ground arith

first_slot :
    (buf : List Dg) (h : ℕ) (q : List Dg)
    → Holds qsize buf h 0 q
    → h < qsize
    → 0 < length q
    → (x : Dg) × (rest : List Dg) × (q ≡ x ∷ rest) × (get_elem? buf h ≡ some x)
first_slot buf h [] w p r = absurd (omega arith)
first_slot buf h (x ∷ q) w p r =
    (x, q, refl, subst (λ i. get_elem? buf i ≡ some x) (place_zero h p) w.0)

Accounts-send :
    (q : List Dg) (x : Dg) (rest : List Dg) (xs ys : List Datagram)
    → q ≡ x ∷ rest
    → xs ≡ ys ++ map datagram_of q
    → Accounts sent xs (ys ++ datagram_of x ∷ []) q
Accounts-send [] x rest xs ys e a = cc
Accounts-send (p ∷ q) x rest xs ys e a =
    ground (arith, append_assoc ys (datagram_of x ∷ []) (map datagram_of q))

Accounts-advance :
    (q : List Dg) (xs ys : List Datagram) → Accounts sent xs ys q → Accounts advanced xs ys q
Accounts-advance [] xs ys a = a
Accounts-advance (p ∷ q) xs ys a = a

drop_first :
    (s : Server) (h : ℕ) (q : List Dg)
    → h < qsize
    → length s.dg ≡ qsize
    → s.nqueue ≡ length q
    → length q ≤ qsize
    → s.iget ≡ next qsize h
    → s.iput ≡ place qsize h (length q)
    → Holds qsize s.dg h 0 q
    → Accounts advanced s.arrived s.echoed q
    → length s.cntread ≡ 9
    → QueueAt waiting (record s { nqueue = s.nqueue - 1; place = waiting })
drop_first s h [] p slots c f b e w a t = absurd a
drop_first s h (x ∷ q) p slots c f b e w a t = record {
  head = next qsize h;
  queue = q;
  head_in = ground arith;
  slots = slots;
  counted = omega arith;
  fits = omega arith;
  begins = b;
  ends = ground arith;
  holds = Holds-next qsize s.dg h 0 q p (omega arith) w.1;
  accounts = a;
  histogram = t;
}

send-sends :
    (s : Server) (x : Dg)
    → get_elem? s.dg s.iget ≡ some x
    → send s ≡ running (record s { echoed = s.echoed ++ datagram_of x ∷ []; place = sent })
unfolding send
send-sends s x h = rw (h, send)

proceed-QueueAt :
    (p : Place) (s : Server) → s.place ≡ p → QueueAt p s → s.nqueue < qsize → Keeps (proceed p s)
unfolding proceed send
proceed-QueueAt waiting s e v h = elim (Bool-cases (s.nqueue == 0)) [
  | inl none_left ↦ rw none_left (subst (λ p. QueueAt p s) (sym e) v, h)
  | inr some_left ↦ rw some_left (
    record {
      head = v.head;
      queue = v.queue;
      head_in = v.head_in;
      slots = v.slots;
      counted = v.counted;
      fits = v.fits;
      begins = v.begins;
      ends = v.ends;
      holds = v.holds;
      accounts = (v.accounts, ground (arith, v.counted));
      histogram = v.histogram;
    },
    h,
  )
]
proceed-QueueAt sending s e v h =
    let (x, rest, split, hit) = first_slot s.dg v.head v.queue v.holds v.head_in v.accounts.1 in
    let hit' : get_elem? s.dg s.iget ≡ some x = ap (get_elem? s.dg) v.begins ∙ hit in
    subst Keeps (sym (send-sends s x hit')) (
      record {
        head = v.head;
        queue = v.queue;
        head_in = v.head_in;
        slots = v.slots;
        counted = v.counted;
        fits = v.fits;
        begins = v.begins;
        ends = v.ends;
        holds = v.holds;
        accounts = Accounts-send v.queue x rest s.arrived s.echoed split v.accounts.0;
        histogram = v.histogram;
      },
      h,
    )
proceed-QueueAt sent s e v h = (
  record {
    head = v.head;
    queue = v.queue;
    head_in = v.head_in;
    slots = v.slots;
    counted = v.counted;
    fits = v.fits;
    begins = ap (next qsize) v.begins;
    ends = v.ends;
    holds = v.holds;
    accounts = Accounts-advance v.queue s.arrived s.echoed v.accounts;
    histogram = v.histogram;
  },
  h,
)
proceed-QueueAt advanced s e v h = (
  drop_first s v.head v.queue v.head_in v.slots v.counted v.fits v.begins v.ends v.holds v.accounts
      v.histogram,
  omega arith,
)

Handles-Keeps :
    (s : Server) (ds : List Datagram) (e : Stop) (r : Outcome) → Handles s 0 ds e r → Keeps r
Handles-Keeps s ds e (running t) h = (h.0, omega (arith, h.1, h.3))
Handles-Keeps s ds e overflow h = tt
Handles-Keeps s ds e died h = tt
Handles-Keeps s ds e fault h = h

step-Keeps : (s : Server) (v : Event) → IsQueue s → s.nqueue < qsize → Keeps (step s v)
unfolding step
step-Keeps s (sigio ds e) v h = sigio-Keeps (open_to_sigio s)
  where
    sigio-Keeps : (b : Bool) → Keeps (if b then sig_io s ds e else running s)
    sigio-Keeps true = Handles-Keeps s ds e (sig_io s ds e) (sig_io-Handles s ds e v)
    sigio-Keeps false = (v, h)
step-Keeps s go v h = proceed-QueueAt s.place s refl v h

>>=-Keeps :
    (o : Outcome) (f : Server → Outcome)
    → Keeps o
    → ((s : Server) → IsQueue s → s.nqueue < qsize → Keeps (f s))
    → Keeps (o >>= f)
>>=-Keeps (running s) f h k = k s h.0 h.1
>>=-Keeps overflow f h k = h
>>=-Keeps died f h k = h
>>=-Keeps fault f h k = h

run-Keeps : (vs : List Event) (s : Server) → IsQueue s → s.nqueue < qsize → Keeps (run s vs)
unfolding run
run-Keeps [] s v h = (v, h)
run-Keeps (e ∷ vs) s v h = >>=-Keeps (step s e) (λ t. run t vs) (step-Keeps s e v h) (run-Keeps vs)

pub start-IsQueue :
    (slots : List (List ℕ × List ℕ)) (clilen : ℕ)
    → length slots ≡ qsize
    → IsQueue (start slots clilen)
unfolding start
start-IsQueue slots clilen h = record {
  head = 0;
  queue = [];
  head_in = omega arith;
  slots = length-map slots _ ∙ h;
  counted = refl;
  fits = omega arith;
  begins = refl;
  ends = refl;
  holds = tt;
  accounts = refl;
  histogram = refl;
}

-- What the queue stands for: `waits` of the datagrams read are not yet sent back, all others are, in
-- the order of arrival.
abbrev pub Echoes : Outcome → Type 0
Echoes (running s) =
    (waits : List Datagram) × (s.arrived ≡ s.echoed ++ waits)
    × (length waits ≤ s.nqueue)
    × (s.nqueue < qsize)
Echoes overflow = Unit
Echoes died = Unit
Echoes fault = ⊥

Accounts-waits :
    (p : Place) (q : List Dg) (n : ℕ) (xs ys : List Datagram)
    → n ≡ length q
    → Accounts p xs ys q
    → (waits : List Datagram) × (xs ≡ ys ++ waits) × (length waits ≤ n)
Accounts-waits waiting q n xs ys e a =
    (map datagram_of q, a, omega (arith, length-map q datagram_of))
Accounts-waits sending q n xs ys e a =
    (map datagram_of q, a.0, omega (arith, length-map q datagram_of))
Accounts-waits sent [] n xs ys e a = absurd a
Accounts-waits sent (p ∷ q) n xs ys e a =
    (map datagram_of q, a, omega (arith, length-map q datagram_of))
Accounts-waits advanced [] n xs ys e a = absurd a
Accounts-waits advanced (p ∷ q) n xs ys e a =
    (map datagram_of q, a, omega (arith, length-map q datagram_of))

Keeps-Echoes : (o : Outcome) → Keeps o → Echoes o
Keeps-Echoes (running s) (v, h) =
    let (w, a, b) =
      Accounts-waits s.place v.queue s.nqueue s.arrived s.echoed v.counted v.accounts in
    (w, a, b, h)
Keeps-Echoes overflow h = tt
Keeps-Echoes died h = tt
Keeps-Echoes fault h = h

-- Over eight buffers, whatever the order in which the signals fall between the moves of the main loop,
-- the server never leaves an array. While it goes on, the datagrams sent back are the first of those
-- read, unchanged and in order; those that remain are at most `nqueue`, which is below QSIZE.
pub run-start-Echoes :
    (vs : List Event) (slots : List (List ℕ × List ℕ)) (clilen : ℕ)
    → length slots ≡ qsize
    → Echoes (run (start slots clilen) vs)
unfolding start
run-start-Echoes vs slots clilen h =
    Keeps-Echoes _ (run-Keeps vs (start slots clilen) (start-IsQueue slots clilen h) (omega arith))
