-- ===== src/Icmpd/Loop/Turns.antt =====
-- Turns of the daemon's loop, with the errors that it reads: nothing leaves an array.
use unix_network_programming.Prelude.{
  ℕ, zero, suc, ◌+◌, ◌≤◌, ◌≡◌, refl, ap, sym, ◌∙◌, subst, Bool, true, false, Option, none, some,
  List, [], ◌∷◌, arith, if◌then◌else◌, length, length-map, replicate, get_elem?, drop-suc,
}
use unix_network_programming.Prelude.FdSet.{FdSet, Entry}
use unix_network_programming.Prelude.FdTable.{fd_setsize, IsTable, empty-IsTable}
use unix_network_programming.Cksum.{Endian}
use unix_network_programming.Icmpd.{
  Family, inet, inet6, other, Client, IcmpdErr, Daemon, Round, Outcome, running, quit, died, fault,
  ◌>>=◌, count, connfds, readable_conn,
}
use unix_network_programming.Icmpd.Errors.{
  Parse, udp_error, ignored, short, outside, parse_v4, parse_v6, deliver, after_parse, received,
  readable_v4, readable_v6,
}
use unix_network_programming.Icmpd.Errors.Inside.{IsInside}
use unix_network_programming.Icmpd.Errors.Parsing.{parses-received}
use unix_network_programming.Icmpd.Errors.Delivery.{Does, notices, deliver-tells}
use unix_network_programming.Icmpd.Loop.{
  Sockets, go_on, check_conn, check_entry, check_conns, handle, step, run, start,
}
use unix_network_programming.Icmpd.Loop.{
  Sockets, go_on, check_conn, check_entry, check_conns, handle, step, run, start,
}
use unix_network_programming.Icmpd.Loop.Valid.{
  fixed_fds, IsDaemon, KeepsClients, >>=-KeepsClients, go_on-KeepsClients, get_elem?-connfds,
  readable_listen-KeepsClients, readable_conn-KeepsClients,
}

-- A message of at most MAXLINE bytes, if one comes.
abbrev pub Fits : Option (List ℕ) → Type 0
Fits none = Unit
Fits (some d) = length d ≤ 4096

-- Both raw sockets' messages fit into `buf`.
abbrev pub AreSized : Round → Type 0
AreSized r = Fits r.recv4 × Fits r.recv6 × (length r.stack4 ≡ 4096) × (length r.stack6 ≡ 4096)

module _ (k : Sockets) (r : Round) where
  delivered-KeepsClients :
      (family : Family) (sport : ℕ) (e : IcmpdErr) (s : Daemon) (o : Outcome)
      → IsDaemon k s
      → Does r family sport e s (notices r family sport e s.client) o
      → KeepsClients k (o >>= λ t. running (count t))
  delivered-KeepsClients family sport e s (running t) v h = subst (IsDaemon k) (sym h) v
  delivered-KeepsClients family sport e s quit v h = tt
  delivered-KeepsClients family sport e s died v h = tt
  delivered-KeepsClients family sport e s fault v h = h

  after_parse-KeepsClients :
      (family : Family) (s : Daemon) (p : Parse)
      → IsInside p
      → IsDaemon k s
      → KeepsClients k (after_parse r family s p)
  unfolding after_parse
  after_parse-KeepsClients family s (udp_error sport e) h v =
      delivered-KeepsClients family sport e s (deliver r family sport e s.limit 0 s) v (
        deliver-tells r family sport e s
          (omega (arith, v.sized, v.bounded, length-map s.client (λ c. c.connfd))) v.below)
  after_parse-KeepsClients family s ignored h v = v
  after_parse-KeepsClients family s short h v = tt
  after_parse-KeepsClients family s outside h v = absurd h

  readable_v4-KeepsClients :
      (o : Endian) (s : Daemon) → AreSized r → IsDaemon k s → KeepsClients k (readable_v4 o r s)
  unfolding readable_v4
  readable_v4-KeepsClients o s z v = received-KeepsClients r.recv4 z.0
    where
      received-KeepsClients :
          (m : Option (List ℕ))
          → Fits m
          → KeepsClients k (elim m [
            | none ↦ died
            | some d ↦ after_parse r inet s (parse_v4 o (received d r.stack4) (length d))
          ])
      received-KeepsClients none f = tt
      received-KeepsClients (some d) f =
          after_parse-KeepsClients inet s (parse_v4 o (received d r.stack4) (length d))
            (parses-received o d r.stack4 f z.2).0.0 v

  readable_v6-KeepsClients :
      (o : Endian) (s : Daemon) → AreSized r → IsDaemon k s → KeepsClients k (readable_v6 o r s)
  unfolding readable_v6
  readable_v6-KeepsClients o s z v = received-KeepsClients r.recv6 z.1
    where
      received-KeepsClients :
          (m : Option (List ℕ))
          → Fits m
          → KeepsClients k (elim m [
            | none ↦ died
            | some d ↦ after_parse r inet6 s (parse_v6 o (received d r.stack6) (length d))
          ])
      received-KeepsClients none f = tt
      received-KeepsClients (some d) f =
          after_parse-KeepsClients inet6 s (parse_v6 o (received d r.stack6) (length d))
            (parses-received o d r.stack6 f z.3).1.0 v

  module _ (rset : FdSet) where
    check_conn-KeepsClients :
        (again : Daemon → Outcome)
        → ((s : Daemon) → IsDaemon k s → KeepsClients k (again s))
        → (i : ℕ) (s : Daemon) (c : Client) (fd : Entry) → c.connfd ≡ fd
        → get_elem? s.client i ≡ some c
        → IsDaemon k s
        → KeepsClients k (check_conn r rset again i s c fd)
    unfolding check_conn
    check_conn-KeepsClients again ih i s c none e h v = ih s v
    check_conn-KeepsClients again ih i s c (some fd) e h v = asked (rset fd)
      where
        asked :
            (b : Bool)
            → KeepsClients k (if b then (readable_conn r i fd c s >>= go_on again) else again s)
        asked true =
            >>=-KeepsClients k (readable_conn r i fd c s) (go_on again)
              (readable_conn-KeepsClients k r i fd c s e v
                (get_elem?-connfds s.client i c h ∙ ap some e))
              (go_on-KeepsClients k again ih)
        asked false = ih s v

    check_conns-KeepsClients :
        (rounds i : ℕ) (s : Daemon)
        → i + rounds ≤ fd_setsize
        → IsDaemon k s
        → KeepsClients k (check_conns r rset rounds i s)
    unfolding check_conns check_entry
    check_conns-KeepsClients zero i s h v = v
    check_conns-KeepsClients (suc rounds) i s h v =
        let (c, hit, tail) =
          drop-suc i s.client (omega (arith, v.sized, length-map s.client (λ c. c.connfd))) in
        subst (KeepsClients k)
          (sym (ap (check_entry r rset (check_conns r rset rounds (i + 1)) i s) hit))
          (check_conn-KeepsClients (check_conns r rset rounds (i + 1))
            (λ t w. check_conns-KeepsClients rounds (i + 1) t (omega arith) w) i s c c.connfd refl
            hit v)

handle-KeepsClients :
    (k : Sockets) (b : Bool) (handler next : Daemon → Outcome) (s : Daemon)
    → (b ≡ true → KeepsClients k (handler s))
    → ((t : Daemon) → IsDaemon k t → KeepsClients k (next t))
    → IsDaemon k s
    → KeepsClients k (handle b handler next s)
unfolding handle
handle-KeepsClients k true handler next s h n v =
    >>=-KeepsClients k (handler s) (go_on next) (h refl) (go_on-KeepsClients k next n)
handle-KeepsClients k false handler next s h n v = n s v

module _ (o : Endian) (k : Sockets) where
  step-KeepsClients :
      (r : Round) (s : Daemon)
      → AreSized r
      → s.allset r.accept ≡ false
      → IsDaemon k s
      → KeepsClients k (step o k r s)
  unfolding step
  step-KeepsClients r s z fresh v =
      handle-KeepsClients k _ _ _ (record s { nready = r.nready })
        (λ b. readable_listen-KeepsClients k r (record s { nready = r.nready }) v fresh)
        (λ t w.
          handle-KeepsClients k _ _ _ t (λ b. readable_v4-KeepsClients k r o t z w)
            (λ t w.
              handle-KeepsClients k _ _ _ t (λ b. readable_v6-KeepsClients k r o t z w)
                (λ t w. check_conns-KeepsClients k r _ t.limit 0 t (omega (arith, w.bounded)) w) w)
            w)
        v

  abbrev pub After : (Daemon → Type 0) → Outcome → Type 0
  After P (running t) = P t
  After P quit = Unit
  After P died = Unit
  After P fault = Unit

  -- Messages fit into `buf`, and a descriptor that accept() makes is not among those open then.
  abbrev pub AllGiven : List Round → Daemon → Type 0
  AllGiven [] s = Unit {0}
  AllGiven (r ∷ rs) s =
      AreSized r × (s.allset r.accept ≡ false) × After (AllGiven rs) (step o k r s)

  then-KeepsClients :
      (m : Outcome) (P : Daemon → Type 0) (f : Daemon → Outcome)
      → After P m
      → KeepsClients k m
      → ((t : Daemon) → P t → IsDaemon k t → KeepsClients k (f t))
      → KeepsClients k (m >>= f)
  then-KeepsClients (running t) P f h w n = n t h w
  then-KeepsClients quit P f h w n = w
  then-KeepsClients died P f h w n = w
  then-KeepsClients fault P f h w n = w

  run-KeepsClients :
      (rs : List Round) (s : Daemon) → AllGiven rs s → IsDaemon k s → KeepsClients k (run o k s rs)
  unfolding run
  run-KeepsClients [] s h v = v
  run-KeepsClients (r ∷ rs) s h v =
      then-KeepsClients (step o k r s) (AllGiven rs) (λ t. run o k t rs) h.2
        (step-KeepsClients r s h.0 h.1 v) (λ t f w. run-KeepsClients rs t f w)

connfds-replicate :
    (n : ℕ)
    → connfds (replicate n (record { connfd = none; family = other; lport = some 0 }))
      ≡ replicate n none
connfds-replicate zero = refl
connfds-replicate (suc n) = ap (◌∷◌ none) (connfds-replicate n)

pub start-IsDaemon : (k : Sockets) → IsDaemon k (start k)
unfolding start
start-IsDaemon k =
    subst (λ es. IsTable (fixed_fds k) es (start k).allset 0 (start k).maxfd)
      (sym (connfds-replicate fd_setsize))
      (empty-IsTable (fixed_fds k) (start k).maxfd (λ fd h. ground arith))

-- If no message is longer than `buf` and accept() never makes a descriptor that is open already, then
-- whatever select(), the raw sockets and the clients give, the daemon stays inside its arrays and
-- buffers, and while it goes on each client has one entry, below `maxi + 1`; `allset` holds the
-- daemon's sockets and the clients' connections, and nothing else; and `maxfd` is at least each.
pub run-start-KeepsClients :
    (o : Endian) (k : Sockets) (rs : List Round)
    → AllGiven o k rs (start k)
    → KeepsClients k (run o k (start k) rs)
run-start-KeepsClients o k rs h = run-KeepsClients o k rs (start k) h (start-IsDaemon k)
