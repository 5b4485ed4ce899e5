-- ===== src/Icmpd/Loop/Valid.antt =====
-- Turns of the daemon's loop: the table of clients stays right.
use unix_network_programming.Prelude.{
  ℕ, zero, suc, ◌≡◌, refl, ap, sym, ◌∙◌, subst, inl, inr, Bool, true, false, Option, none, some,
  some_inj, List, [], ◌∷◌, arith, leb, if◌then◌else◌, length-map, get_elem?, set, drop-suc,
  Option-cases,
}
use unix_network_programming.Prelude.FdSet.{
  FdSet, fd_set, fd_clr, Entry, first_free, At, first_free-free, get_elem?-lt,
}
use unix_network_programming.Prelude.FdTable.{IsTable, enter-IsTable, leave-IsTable}
use unix_network_programming.Icmpd.{
  Family, Client, answered, closed, Message, terminated, message, failed, Daemon, Round, Outcome,
  running, quit, died, fault, ◌>>=◌, did, count, connfds, admit, readable_listen, sock_bind_wild,
  sock_get_port, client_done, client_err, client_ok, client_bound, client_named, client_socket,
  client_message, readable_conn,
}
use unix_network_programming.Icmpd.Loop.{Sockets, go_on}

connfds-set :
    (cs : List Client) (i : ℕ) (c : Client) → connfds (set cs i c) ≡ set (connfds cs) i c.connfd
connfds-set [] i c = refl
connfds-set (x ∷ cs) zero c = refl
connfds-set (x ∷ cs) (suc i) c = ap (◌∷◌ x.connfd) (connfds-set cs i c)

pub get_elem?-connfds :
    (cs : List Client) (i : ℕ) (c : Client)
    → get_elem? cs i ≡ some c
    → get_elem? (connfds cs) i ≡ some c.connfd
get_elem?-connfds [] i c h = cc
get_elem?-connfds (x ∷ cs) zero c h = ap (λ c. some c.connfd) (some_inj h)
get_elem?-connfds (x ∷ cs) (suc i) c h = get_elem?-connfds cs i c h

set_same : (xs : List Entry) (i : ℕ) (x : Entry) → get_elem? xs i ≡ some x → set xs i x ≡ xs
set_same [] i x h = refl
set_same (y ∷ xs) zero x h = ap (λ z. z ∷ xs) (sym (some_inj h))
set_same (y ∷ xs) (suc i) x h = ap (◌∷◌ y) (set_same xs i x h)

-- The descriptors that are open before the loop
abbrev pub fixed_fds : Sockets → FdSet
fixed_fds k = fd_set k.listenfd (fd_set k.fd6 (fd_set k.fd4 (λ fd. false)))

module _ (k : Sockets) where
  -- Every client has one entry, below `maxi + 1`; `allset` holds the daemon's own sockets and the
  -- clients' connections; none is above `maxfd`.
  abbrev pub IsDaemon : Daemon → Type 0
  IsDaemon s = IsTable (fixed_fds k) (connfds s.client) s.allset s.limit s.maxfd

  abbrev pub KeepsClients : Outcome → Type 0
  KeepsClients (running s) = IsDaemon s
  KeepsClients quit = Unit
  KeepsClients died = Unit
  KeepsClients fault = ⊥

  pub >>=-KeepsClients :
      (o : Outcome) (f : Daemon → Outcome)
      → KeepsClients o
      → ((s : Daemon) → IsDaemon s → KeepsClients (f s))
      → KeepsClients (o >>= f)
  >>=-KeepsClients (running s) f h k = k s h
  >>=-KeepsClients quit f h k = h
  >>=-KeepsClients died f h k = h
  >>=-KeepsClients fault f h k = h

  pub go_on-KeepsClients :
      (next : Daemon → Outcome)
      → ((s : Daemon) → IsDaemon s → KeepsClients (next s))
      → (s : Daemon) → IsDaemon s
      → KeepsClients (go_on next s)
  unfolding go_on
  go_on-KeepsClients next h s v = stops (leb s.nready 0)
    where
      stops : (b : Bool) → KeepsClients (if b then running s else next s)
      stops true = v
      stops false = h s v

  module _ (r : Round) where
    listen-full :
        (s : Daemon)
        → first_free (connfds s.client) ≡ none
        → readable_listen r s ≡ running (count (did s (closed r.accept)))
    unfolding readable_listen
    listen-full s e = rw (e, readable_listen)

    listen-room :
        (s : Daemon) (i : ℕ) (c : Client)
        → first_free (connfds s.client) ≡ some i
        → get_elem? s.client i ≡ some c
        → readable_listen r s ≡ running (count (admit s r.accept i c))
    unfolding readable_listen
    listen-room s i c e h = rw (e, h, readable_listen)

    pub readable_listen-KeepsClients :
        (s : Daemon) → IsDaemon s → s.allset r.accept ≡ false → KeepsClients (readable_listen r s)
    readable_listen-KeepsClients s v fresh = elim (Option-cases (first_free (connfds s.client))) [
      | inl e ↦ subst KeepsClients (sym (listen-full s e)) v
      | inr (i, e) ↦
          let free : get_elem? (connfds s.client) i ≡ some none =
            first_free-free (connfds s.client) i e in
          let (c, hit, tail) = drop-suc i s.client (
            omega (
              arith,
              get_elem?-lt (connfds s.client) i none free,
              length-map s.client (λ c. c.connfd),
            )) in
          subst KeepsClients (sym (listen-room s i c e hit)) (
            subst
              (λ es.
                IsTable (fixed_fds k) es (admit s r.accept i c).allset (admit s r.accept i c).limit
                  (admit s r.accept i c).maxfd)
              (sym (connfds-set s.client i (record c { connfd = some r.accept })))
              (enter-IsTable (fixed_fds k) (connfds s.client) s.allset s.limit s.maxfd v r.accept i
                fresh free))
    ]

    module _ (i unixfd : ℕ) where
      client_done-KeepsClients :
          (c : Client) (recvfd : Entry) (s : Daemon)
          → IsDaemon s
          → At (connfds s.client) i unixfd
          → KeepsClients (client_done i unixfd c recvfd s)
      client_done-KeepsClients c none s v h =
          subst (λ es. IsTable (fixed_fds k) es (fd_clr unixfd s.allset) s.limit s.maxfd)
            (sym (connfds-set s.client i (record c { connfd = none })))
            (leave-IsTable (fixed_fds k) (connfds s.client) s.allset s.limit s.maxfd v i unixfd h)
      client_done-KeepsClients c (some fd) s v h =
          subst (λ es. IsTable (fixed_fds k) es (fd_clr unixfd s.allset) s.limit s.maxfd)
            (sym (connfds-set s.client i (record c { connfd = none })))
            (leave-IsTable (fixed_fds k) (connfds s.client) s.allset s.limit s.maxfd v i unixfd h)

      client_err-KeepsClients :
          (c : Client) (recvfd : Entry) (s : Daemon)
          → IsDaemon s
          → At (connfds s.client) i unixfd
          → KeepsClients (client_err r i unixfd c recvfd s)
      unfolding client_err
      client_err-KeepsClients c recvfd s v h = written (r.write unixfd)
        where
          written :
              (b : Bool)
              → KeepsClients (
                  if b then client_done i unixfd c recvfd (did s (answered unixfd false)) else died)
          written true = client_done-KeepsClients c recvfd (did s (answered unixfd false)) v h
          written false = tt

      client_ok-KeepsClients :
          (c : Client) (recvfd : ℕ) (s : Daemon)
          → c.connfd ≡ some unixfd
          → IsDaemon s
          → At (connfds s.client) i unixfd
          → KeepsClients (client_ok r i unixfd c recvfd s)
      unfolding client_ok
      client_ok-KeepsClients c recvfd s e v h = written (r.write unixfd)
        where
          same : connfds (set s.client i c) ≡ connfds s.client
          same =
              connfds-set s.client i c
              ∙ ap (set (connfds s.client) i) e
              ∙ set_same (connfds s.client) i (some unixfd) h

          written :
              (b : Bool)
              → KeepsClients (
                  if b
                  then running (
                      count (record (did (did s (answered unixfd true)) (closed recvfd)) {
                        client = set s.client i c;
                      }))
                  else died)
          written true =
              subst (λ es. IsTable (fixed_fds k) es s.allset s.limit s.maxfd) (sym same) v
          written false = tt

      module _ (recvfd : ℕ) (s : Daemon) (v : IsDaemon s) (h : At (connfds s.client) i unixfd) where
        client_bound-KeepsClients :
            (c : Client) (p : Option ℕ)
            → c.connfd ≡ some unixfd
            → KeepsClients (client_bound r i unixfd c recvfd s p)
        unfolding client_bound
        client_bound-KeepsClients c none e =
            client_err-KeepsClients (record c { lport = none }) (some recvfd) s v h
        client_bound-KeepsClients c (some zero) e =
            client_err-KeepsClients (record c { lport = some 0 }) (some recvfd) s v h
        client_bound-KeepsClients c (some (suc p)) e =
            client_ok-KeepsClients (record c { lport = some (suc p) }) recvfd s e v h

        client_named-KeepsClients :
            (c : Client) (p : Option ℕ)
            → c.connfd ≡ some unixfd
            → KeepsClients (client_named r i unixfd c recvfd s p)
        unfolding client_named
        client_named-KeepsClients c none e =
            client_ok-KeepsClients (record c { lport = none }) recvfd s e v h
        client_named-KeepsClients c (some zero) e =
            client_bound-KeepsClients c (sock_bind_wild c.family (r.bind recvfd)) e
        client_named-KeepsClients c (some (suc p)) e =
            client_ok-KeepsClients (record c { lport = some (suc p) }) recvfd s e v h

        client_socket-KeepsClients :
            (c : Client) (n : Option (Family × ℕ))
            → c.connfd ≡ some unixfd
            → KeepsClients (client_socket r i unixfd c recvfd s n)
        unfolding client_socket
        client_socket-KeepsClients c none e = client_err-KeepsClients c (some recvfd) s v h
        client_socket-KeepsClients c (some (f, p)) e =
            client_named-KeepsClients (record c { family = f }) (sock_get_port f p) e

      pub readable_conn-KeepsClients :
          (c : Client) (s : Daemon)
          → c.connfd ≡ some unixfd
          → IsDaemon s
          → At (connfds s.client) i unixfd
          → KeepsClients (readable_conn r i unixfd c s)
      unfolding readable_conn client_message
      readable_conn-KeepsClients c s e v h = by_message (r.read_fd unixfd)
        where
          by_message : (m : Message) → KeepsClients (client_message r i unixfd c s m)
          by_message failed = tt
          by_message (terminated recvfd) = client_done-KeepsClients c recvfd s v h
          by_message (message none) = client_err-KeepsClients c none s v h
          by_message (message (some recvfd)) =
              client_socket-KeepsClients recvfd s v h c (r.getsockname recvfd) e
