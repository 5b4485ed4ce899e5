-- ===== src/Connect.antt =====
-- lib/tcp_connect.c, tcp_listen.c, udp_client.c, udp_connect.c and udp_server.c: a socket for the first
-- of the addresses that getaddrinfo() finds which works.
pub mod Settled
mod Tests
use unix_network_programming.Prelude.{
  ℕ, ◌+◌, Bool, true, false, Option, none, some, List, [], ◌∷◌, if◌then◌else◌,
}
use unix_network_programming.Gai.{
  Text, unspec, Socktype, stream, dgram, Hints, AddrInfo, Heap, alloc, Lookup, freeaddrinfo,
}
use unix_network_programming.Gai.Resolve.{Resolver, Ending, result, error, quit, getaddrinfo}

-- What the kernel does with an entry: the descriptor of socket(), or a failure; whether Setsockopt()
-- returns; whether connect() or bind() returns 0.
pub record Try : Type 0 where
  pub sockfd : Option ℕ
  pub setsockopt : Bool
  pub addressed : Bool

-- A socket is good, it is closed again, or the process has ended in Setsockopt().
pub data Attempt : Type 0 where
  success ignored dead : Attempt

abbrev pub connect_or_bind : Try → Attempt
connect_or_bind t = if t.addressed then success else ignored

abbrev pub option_and_bind : Try → Attempt
option_and_bind t = if t.setsockopt then connect_or_bind t else dead

-- udp_client() has nothing more to do.
abbrev pub socket_only : Try → Attempt
socket_only t = success

-- A socket for the entry `res`; err_sys(); err_quit(); the kernel gives no answer; a null pointer is read.
pub data Outcome : Type 0 where
  opened : ℕ → AddrInfo → Outcome
  err_sys err_quit blocked fault : Outcome

-- The open descriptors, and the memory
pub record Process : Type 0 where
  pub descriptors : List ℕ
  pub heap : Heap

-- After a socket `fd`: `next` is the rest of the loop.
abbrev pub attempted : Attempt → ℕ → AddrInfo → Process → Outcome × Process → Outcome × Process
attempted success fd res p next = (opened fd res, record p { descriptors = fd ∷ p.descriptors })
attempted ignored fd res p next = next
attempted dead fd res p next = (err_sys, record p { descriptors = fd ∷ p.descriptors })

module _ (attempt : Try → Attempt) where
  -- A turn of the loop at the entry `res`
  abbrev pub turn : Try → AddrInfo → Process → Outcome × Process → Outcome × Process
  turn t res p next = elim t.sockfd [ none ↦ next | some fd ↦ attempted (attempt t) fd res p next ]

  -- The loop from its condition `res != NULL` on
  unfoldable pub try_next : List AddrInfo → List Try → Process → Outcome × Process
  try_next [] ts p = (err_sys, p)
  try_next (res ∷ ais) [] p = (blocked, p)
  try_next (res ∷ ais) (t ∷ ts) p = turn t res p (try_next ais ts p)

  -- The loop, whose first turn does not ask
  unfoldable pub try_loop : List AddrInfo → List Try → Process → Outcome × Process
  try_loop [] ts p = (fault, p)
  try_loop (res ∷ ais) ts p = try_next (res ∷ ais) ts p

-- What is done with the socket between the loop and freeaddrinfo()
abbrev pub Finish : Type 0
Finish = ℕ → AddrInfo → Process → Outcome × Process

abbrev pub finished : Finish → Outcome × Process → Outcome × Process
finished finish (opened fd res, p) = finish fd res p
finished finish (err_sys, p) = (err_sys, p)
finished finish (err_quit, p) = (err_quit, p)
finished finish (blocked, p) = (blocked, p)
finished finish (fault, p) = (fault, p)

abbrev pub as_it_is : Finish
as_it_is fd res p = (opened fd res, p)

-- Listen() ends the process if it fails.
abbrev pub listen : Bool → Finish
listen listens fd res p = if listens then (opened fd res, p) else (err_sys, p)

-- Malloc() of the copy of the address, which the caller keeps
abbrev pub copy_addr : Finish
copy_addr fd res p =
    let (ok, h) = alloc p.heap in (if ok then opened fd res else err_sys, record p { heap = h })

-- freeaddrinfo(ressave)
abbrev pub free_all : List AddrInfo → Finish
free_all ais fd res p = (opened fd res, record p { heap = freeaddrinfo ais p.heap })

-- The functions, after getaddrinfo()
unfoldable pub open_socket :
    (Try → Attempt) → Finish → List Try → List ℕ → Ending × Lookup → Outcome × Process
open_socket attempt finish ts fds (result ais, s) =
    finished (free_all ais)
      (finished finish (try_loop attempt ais ts (record { descriptors = fds; heap = s.heap })))
open_socket attempt finish ts fds (error e, s) =
    (err_quit, record { descriptors = fds; heap = s.heap })
open_socket attempt finish ts fds (quit, s) =
    (err_quit, record { descriptors = fds; heap = s.heap })

abbrev pub hints_for : Bool → Socktype → Hints
hints_for passive t = record {
  passive = passive;
  canonname = false;
  other_flags = false;
  family = unspec;
  socktype = t;
  protocol = 0;
}

module _ (r : Resolver) (host serv : Option Text) (heap : Heap) (fds : List ℕ) (ts : List Try) where
  unfoldable pub tcp_connect : Outcome × Process
  tcp_connect =
      open_socket connect_or_bind as_it_is ts fds
        (getaddrinfo r host serv (some (hints_for false stream)) heap)

  unfoldable pub udp_connect : Outcome × Process
  udp_connect =
      open_socket connect_or_bind as_it_is ts fds
        (getaddrinfo r host serv (some (hints_for false dgram)) heap)

  unfoldable pub udp_server : Outcome × Process
  udp_server =
      open_socket connect_or_bind as_it_is ts fds
        (getaddrinfo r host serv (some (hints_for true dgram)) heap)

  unfoldable pub tcp_listen : Bool → Outcome × Process
  tcp_listen listens =
      open_socket option_and_bind (listen listens) ts fds
        (getaddrinfo r host serv (some (hints_for true stream)) heap)

  unfoldable pub udp_client : Outcome × Process
  udp_client =
      open_socket socket_only copy_addr ts fds
        (getaddrinfo r host serv (some (hints_for false dgram)) heap)
