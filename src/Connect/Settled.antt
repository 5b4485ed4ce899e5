-- ===== src/Connect/Settled.antt =====
-- Which socket the loop finds, and that nothing is left of the other attempts.
use unix_network_programming.Prelude.{
  ℕ, ◌+◌, ◌≡◌, refl, sym, subst, true, false, Option, none, some, List, [], ◌∷◌, Bool, arith,
}
use unix_network_programming.Gai.{Text, stream, Hints, AddrInfo, dgram, Heap, alloc, Lookup, freed}
use unix_network_programming.Gai.Memory.{live-freeaddrinfo}
use unix_network_programming.Gai.Resolve.{Resolver, result, getaddrinfo}
use unix_network_programming.Gai.Resolve.Blocks.{FindsAddresses}
use unix_network_programming.Gai.Resolve.Freed.{getaddrinfo-freed}
use unix_network_programming.Connect.{
  Try, Attempt, success, ignored, connect_or_bind, option_and_bind, Outcome, opened, err_sys,
  Process, turn, try_loop, try_next, Finish, finished, as_it_is, listen, copy_addr, socket_only,
  free_all, open_socket, hints_for, tcp_connect, tcp_listen, udp_client, udp_connect, udp_server,
}

-- The first entry whose socket works, after entries without a socket and entries whose socket is closed
-- again; or none, when the list is at its end.
pub data Settles (attempt : Try → Attempt)
    : List AddrInfo → List Try → Option (ℕ × AddrInfo) → Type 0 where
  exhausted : {ts : List Try} → Settles attempt [] ts none
  works :
      {e : AddrInfo} {es : List AddrInfo} {t : Try} {ts : List Try} {fd : ℕ}
      → t.sockfd ≡ some fd
      → attempt t ≡ success
      → Settles attempt (e ∷ es) (t ∷ ts) (some (fd, e))
  no_socket :
      {e : AddrInfo} {es : List AddrInfo} {t : Try} {ts : List Try} {o : Option (ℕ × AddrInfo)}
      → t.sockfd ≡ none
      → Settles attempt es ts o
      → Settles attempt (e ∷ es) (t ∷ ts) o
  closed :
      {e : AddrInfo} {es : List AddrInfo} {t : Try} {ts : List Try} {o : Option (ℕ × AddrInfo)}
      {fd : ℕ}
      → t.sockfd ≡ some fd
      → attempt t ≡ ignored
      → Settles attempt es ts o
      → Settles attempt (e ∷ es) (t ∷ ts) o

-- What the loop gives
abbrev pub settled : Option (ℕ × AddrInfo) → Process → Outcome × Process
settled (some (fd, e)) p = (opened fd e, record p { descriptors = fd ∷ p.descriptors })
settled none p = (err_sys, p)

module _ (attempt : Try → Attempt) where
  try_next-Settles :
      (ais : List AddrInfo) (ts : List Try) (o : Option (ℕ × AddrInfo)) (p : Process)
      → Settles attempt ais ts o
      → try_next attempt ais ts p ≡ settled o p
  unfolding try_next
  try_next-Settles ais ts o p exhausted = refl
  try_next-Settles (e ∷ es) (t ∷ ts) o p (works {fd = fd} h k) = rw (h, turn) (rw k refl)
  try_next-Settles (e ∷ es) (t ∷ ts) o p (no_socket h s) =
      rw (h, turn) (try_next-Settles es ts o p s)
  try_next-Settles (e ∷ es) (t ∷ ts) o p (closed h k s) =
      rw (h, turn) (rw k (try_next-Settles es ts o p s))

-- What the caller has: `fds` and `live` are the descriptors and the blocks that were in use before, and
-- `extra` blocks are for the caller.
abbrev pub Ends : List ℕ → ℕ → ℕ → Option (ℕ × AddrInfo) → Outcome × Process → Type 0
Ends fds live extra (some (fd, e)) (o, p) =
    (o ≡ opened fd e) × (p.descriptors ≡ fd ∷ fds) × (p.heap.live ≡ live + extra)
Ends fds live extra none (o, p) = (o ≡ err_sys) × (p.descriptors ≡ fds)

-- The next call of the allocator succeeds.
abbrev pub HasMemory : Heap → Type 0
HasMemory h = (alloc h).0 ≡ true

-- No memory is needed.
abbrev pub AnyMemory : Heap → Type 0
AnyMemory h = Unit

-- With `enough` memory, what is done with the socket succeeds, and allocates `extra` blocks.
abbrev pub Finishes : Finish → ℕ → (Heap → Type 0) → Type 0
Finishes finish extra enough =
    (fd : ℕ) (e : AddrInfo) (p : Process)
    → enough p.heap
    → (h : Heap) × ((finish fd e p ≡ (opened fd e, record p { heap = h }))
        × (h.live ≡ p.heap.live + extra))

module _ (attempt : Try → Attempt) (finish : Finish) (extra : ℕ) (enough : Heap → Type 0)
    (k : Finishes finish extra enough) where
  Ends-finished :
      (ais : List AddrInfo) (fds : List ℕ) (live : ℕ) (h : Heap) (o : Option (ℕ × AddrInfo))
      → h.live ≡ live + freed ais
      → enough h
      → Ends fds live extra o (
          finished
            (free_all ais)
            (finished finish (settled o (record { descriptors = fds; heap = h }))))
  Ends-finished ais fds live h none e m = (refl, refl)
  Ends-finished ais fds live h (some (fd, x)) e a =
      let (g, (q, m)) = k fd x (record { descriptors = fd ∷ fds; heap = h }) a in
      subst (λ r. Ends fds live extra (some (fd, x)) (finished (free_all ais) r)) (sym q)
        (refl, refl, omega (arith, m, e, live-freeaddrinfo ais g))

  -- With `enough` memory, what is done with the socket after the loop succeeds and allocates `extra`
  -- blocks, and there is enough behind getaddrinfo(); gethostbyname() and gethostbyname2() only find
  -- addresses of the known families. When getaddrinfo() returns a list, the
  -- socket is that of its first entry whose socket works, after entries for which socket() fails and
  -- entries whose socket is closed again. Then the process has this one descriptor more than before,
  -- and `extra` blocks more. If the list is at its end without such an entry, err_sys() ends the
  -- process, and no descriptor is left open.
  pub open_socket-Ends :
      (r : Resolver) (host serv : Option Text) (hintsp : Option Hints) (heap : Heap) (fds : List ℕ)
      (ts : List Try) (e : AddrInfo) (es : List AddrInfo) (s : Lookup) (o : Option (ℕ × AddrInfo))
      → FindsAddresses r
      → getaddrinfo r host serv hintsp heap ≡ (result (e ∷ es), s)
      → enough s.heap
      → Settles attempt (e ∷ es) ts o
      → Ends fds heap.live extra o
          (open_socket attempt finish ts fds (getaddrinfo r host serv hintsp heap))
  unfolding open_socket try_loop
  open_socket-Ends r host serv hintsp heap fds ts e es s o f q a c =
      subst (λ x. Ends fds heap.live extra o (open_socket attempt finish ts fds x)) (sym q)
        (subst (λ x. Ends fds heap.live extra o (finished (free_all (e ∷ es)) (finished finish x)))
          (sym (
            try_next-Settles attempt (e ∷ es) ts o (record { descriptors = fds; heap = s.heap }) c))
          (Ends-finished (e ∷ es) fds heap.live s.heap o
            (getaddrinfo-freed r host serv hintsp heap f (e ∷ es) s q) a))

-- tcp_connect(), udp_connect() and udp_server() do nothing more with the socket.
pub as_it_is-Finishes : Finishes as_it_is 0 AnyMemory
as_it_is-Finishes fd e p m = (p.heap, (refl, omega arith))

-- tcp_listen(), when Listen() returns
pub listen-Finishes : Finishes (listen true) 0 AnyMemory
listen-Finishes fd e p m = (p.heap, (refl, omega arith))

-- udp_client(), when Malloc() returns: the block is the caller's.
pub copy_addr-Finishes : Finishes copy_addr 1 HasMemory
copy_addr-Finishes fd e p m = copied p.heap.answers m
  where
    copied :
        (bs : List Bool)
        → HasMemory (record { answers = bs; live = p.heap.live })
        → (h : Heap) × ((copy_addr fd e
                (record p { heap = record { answers = bs; live = p.heap.live } })
              ≡ (opened fd e, record p { heap = h }))
            × (h.live ≡ p.heap.live + 1))
    copied [] m = (record { answers = []; live = p.heap.live + 1 }, (refl, refl))
    copied (true ∷ bs) m = (record { answers = bs; live = p.heap.live + 1 }, (refl, refl))
    copied (false ∷ bs) m = cc

module _ (r : Resolver) (host serv : Option Text) (heap : Heap) (fds : List ℕ) (ts : List Try)
    (e : AddrInfo) (es : List AddrInfo) (s : Lookup) (o : Option (ℕ × AddrInfo))
    (f : FindsAddresses r) where
  -- The five functions, with the socket that the theorem on open_socket() gives
  tcp_connect-Ends :
      getaddrinfo r host serv (some (hints_for false stream)) heap ≡ (result (e ∷ es), s)
      → Settles connect_or_bind (e ∷ es) ts o
      → Ends fds heap.live 0 o (tcp_connect r host serv heap fds ts)
  unfolding tcp_connect
  tcp_connect-Ends q c =
      open_socket-Ends connect_or_bind as_it_is 0 AnyMemory as_it_is-Finishes r host serv
        (some (hints_for false stream)) heap fds ts e es s o f q tt c

  udp_connect-Ends :
      getaddrinfo r host serv (some (hints_for false dgram)) heap ≡ (result (e ∷ es), s)
      → Settles connect_or_bind (e ∷ es) ts o
      → Ends fds heap.live 0 o (udp_connect r host serv heap fds ts)
  unfolding udp_connect
  udp_connect-Ends q c =
      open_socket-Ends connect_or_bind as_it_is 0 AnyMemory as_it_is-Finishes r host serv
        (some (hints_for false dgram)) heap fds ts e es s o f q tt c

  udp_server-Ends :
      getaddrinfo r host serv (some (hints_for true dgram)) heap ≡ (result (e ∷ es), s)
      → Settles connect_or_bind (e ∷ es) ts o
      → Ends fds heap.live 0 o (udp_server r host serv heap fds ts)
  unfolding udp_server
  udp_server-Ends q c =
      open_socket-Ends connect_or_bind as_it_is 0 AnyMemory as_it_is-Finishes r host serv
        (some (hints_for true dgram)) heap fds ts e es s o f q tt c

  tcp_listen-Ends :
      getaddrinfo r host serv (some (hints_for true stream)) heap ≡ (result (e ∷ es), s)
      → Settles option_and_bind (e ∷ es) ts o
      → Ends fds heap.live 0 o (tcp_listen r host serv heap fds ts true)
  unfolding tcp_listen
  tcp_listen-Ends q c =
      open_socket-Ends option_and_bind (listen true) 0 AnyMemory listen-Finishes r host serv
        (some (hints_for true stream)) heap fds ts e es s o f q tt c

  udp_client-Ends :
      getaddrinfo r host serv (some (hints_for false dgram)) heap ≡ (result (e ∷ es), s)
      → HasMemory s.heap
      → Settles socket_only (e ∷ es) ts o
      → Ends fds heap.live 1 o (udp_client r host serv heap fds ts)
  unfolding udp_client
  udp_client-Ends q a c =
      open_socket-Ends socket_only copy_addr 1 HasMemory copy_addr-Finishes r host serv
        (some (hints_for false dgram)) heap fds ts e es s o f q a c
