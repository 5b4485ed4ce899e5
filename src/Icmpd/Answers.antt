-- ===== src/Icmpd/Answers.antt =====
-- readable_conn(): how the daemon answers a client that passes its UDP socket.
use unix_network_programming.Prelude.{
  ℕ, zero, suc, ◌-◌, ◌≡◌, ◌≢◌, refl, ◌∙◌, ◌⊎◌, inl, inr, Bool, true, false, Option, none, some,
  some_inj, List, [], ◌∷◌, ◌++◌, append_assoc, arith, if◌then◌else◌, set,
}
use unix_network_programming.Prelude.FdSet.{fd_clr, Entry}
use unix_network_programming.Icmpd.{
  Family, Client, Action, answered, closed, Message, terminated, message, failed, Daemon, Round,
  Outcome, running, quit, died, fault, did, count, sock_bind_wild, sock_get_port, client_done,
  client_err, client_ok, client_bound, client_named, client_socket, client_message, readable_conn,
}

-- The descriptor that Read_fd() has passed.
abbrev pub passed : Message → Entry
passed (terminated recvfd) = recvfd
passed (message recvfd) = recvfd
passed failed = none

abbrev pub closings : Entry → List Action
closings none = []
closings (some fd) = closed fd ∷ []

-- The client keeps its connection and has a port other than 0; the answer is "1".
pub record Registered (i unixfd : ℕ) (recvfd : Entry) (s t : Daemon) : Type 0 where
  pub entry : Client
  pub client : t.client ≡ set s.client i entry
  pub connfd : entry.connfd ≡ some unixfd
  pub lport : entry.lport ≢ some 0
  pub allset : t.allset ≡ s.allset
  pub log : t.log ≡ s.log ++ answered unixfd true ∷ closings recvfd
  pub counted : t.nready ≡ s.nready - 1

-- The entry is free and the connection closed, after an answer "0" or none.
pub record Dropped (i unixfd : ℕ) (recvfd : Entry) (s t : Daemon) : Type 0 where
  pub entry : Client
  pub client : t.client ≡ set s.client i entry
  pub connfd : entry.connfd ≡ none
  pub allset : t.allset ≡ fd_clr unixfd s.allset
  pub log :
      (t.log ≡ s.log ++ answered unixfd false ∷ closed unixfd ∷ closings recvfd)
      ⊎ (t.log ≡ s.log ++ closed unixfd ∷ closings recvfd)
  pub counted : t.nready ≡ s.nready - 1

module _ (i unixfd : ℕ) where
  abbrev pub Answers : Entry → Daemon → Outcome → Type 0
  Answers recvfd s (running t) = Registered i unixfd recvfd s t ⊎ Dropped i unixfd recvfd s t
  Answers recvfd s died = Unit
  Answers recvfd s quit = ⊥
  Answers recvfd s fault = ⊥

  done-Answers :
      (c : Client) (recvfd : Entry) (s : Daemon)
      → Answers recvfd s (client_done i unixfd c recvfd s)
  done-Answers c none s = inr (record {
    entry = record c { connfd = none };
    client = refl;
    connfd = refl;
    allset = refl;
    log = inr refl;
    counted = refl;
  })
  done-Answers c (some fd) s = inr (record {
    entry = record c { connfd = none };
    client = refl;
    connfd = refl;
    allset = refl;
    log = inr (append_assoc s.log (closed unixfd ∷ []) (closed fd ∷ []));
    counted = refl;
  })

  module _ (r : Round) where
    err-Answers :
        (c : Client) (recvfd : Entry) (s : Daemon)
        → Answers recvfd s (client_err r i unixfd c recvfd s)
    unfolding client_err
    err-Answers c recvfd s = written (r.write unixfd) recvfd
      where
        written :
            (b : Bool) (recvfd : Entry)
            → Answers recvfd s
                (if b then client_done i unixfd c recvfd (did s (answered unixfd false)) else died)
        written true none = inr (record {
          entry = record c { connfd = none };
          client = refl;
          connfd = refl;
          allset = refl;
          log = inl (append_assoc s.log (answered unixfd false ∷ []) (closed unixfd ∷ []));
          counted = refl;
        })
        written true (some fd) = inr (record {
          entry = record c { connfd = none };
          client = refl;
          connfd = refl;
          allset = refl;
          log = inl (
              append_assoc (s.log ++ answered unixfd false ∷ []) (closed unixfd ∷ [])
                (closed fd ∷ [])
              ∙ append_assoc s.log (answered unixfd false ∷ []) (closed unixfd ∷ closed fd ∷ []));
          counted = refl;
        })
        written false recvfd = tt

    ok-Answers :
        (c : Client) (recvfd : ℕ) (s : Daemon)
        → c.connfd ≡ some unixfd
        → c.lport ≢ some 0
        → Answers (some recvfd) s (client_ok r i unixfd c recvfd s)
    unfolding client_ok
    ok-Answers c recvfd s e ne = written (r.write unixfd)
      where
        written :
            (b : Bool)
            → Answers (some recvfd) s (
                if b
                then running (
                    count (record (did (did s (answered unixfd true)) (closed recvfd)) {
                      client = set s.client i c;
                    }))
                else died)
        written true = inl (record {
          entry = c;
          client = refl;
          connfd = e;
          lport = ne;
          allset = refl;
          log = append_assoc s.log (answered unixfd true ∷ []) (closed recvfd ∷ []);
          counted = refl;
        })
        written false = tt

    bound-Answers :
        (c : Client) (recvfd : ℕ) (s : Daemon) (p : Option ℕ)
        → c.connfd ≡ some unixfd
        → Answers (some recvfd) s (client_bound r i unixfd c recvfd s p)
    unfolding client_bound
    bound-Answers c recvfd s none e = err-Answers (record c { lport = none }) (some recvfd) s
    bound-Answers c recvfd s (some zero) e =
        err-Answers (record c { lport = some 0 }) (some recvfd) s
    bound-Answers c recvfd s (some (suc p)) e =
        ok-Answers (record c { lport = some (suc p) }) recvfd s e (λ q. omega (arith, some_inj q))

    named-Answers :
        (c : Client) (recvfd : ℕ) (s : Daemon) (p : Option ℕ)
        → c.connfd ≡ some unixfd
        → Answers (some recvfd) s (client_named r i unixfd c recvfd s p)
    unfolding client_named
    named-Answers c recvfd s none e = ok-Answers (record c { lport = none }) recvfd s e (λ q. cc)
    named-Answers c recvfd s (some zero) e =
        bound-Answers c recvfd s (sock_bind_wild c.family (r.bind recvfd)) e
    named-Answers c recvfd s (some (suc p)) e =
        ok-Answers (record c { lport = some (suc p) }) recvfd s e (λ q. omega (arith, some_inj q))

    socket-Answers :
        (c : Client) (recvfd : ℕ) (s : Daemon) (n : Option (Family × ℕ))
        → c.connfd ≡ some unixfd
        → Answers (some recvfd) s (client_socket r i unixfd c recvfd s n)
    unfolding client_socket
    socket-Answers c recvfd s none e = err-Answers c (some recvfd) s
    socket-Answers c recvfd s (some (f, p)) e =
        named-Answers (record c { family = f }) recvfd s (sock_get_port f p) e

    -- For a client in entry `i` with the connection `unixfd`, on every way on which the daemon goes on
    -- it closes the descriptor that the client has passed, if one was, and counts one descriptor less;
    -- and either the answer is "1" and the entry keeps its connection, with a port other than 0, or the
    -- connection is closed, after an answer "0" or none, and the entry is free and out of `allset`.
    pub readable_conn-Answers :
        (c : Client) (s : Daemon)
        → c.connfd ≡ some unixfd
        → Answers (passed (r.read_fd unixfd)) s (readable_conn r i unixfd c s)
    unfolding readable_conn client_message
    readable_conn-Answers c s e = by_message (r.read_fd unixfd)
      where
        by_message : (m : Message) → Answers (passed m) s (client_message r i unixfd c s m)
        by_message failed = tt
        by_message (terminated recvfd) = done-Answers c recvfd s
        by_message (message none) = err-Answers c none s
        by_message (message (some recvfd)) = socket-Answers c recvfd s (r.getsockname recvfd) e
