-- ===== src/Icmpd.antt =====
-- icmpd/icmpd.h, icmpd/readable_listen.c, icmpd/readable_conn.c, lib/sock_get_port.c and
-- lib/sock_bind_wild.c: a daemon that tells its clients, over Unix domain sockets, of the ICMP errors
-- for their UDP sockets. A `Round` is what the kernel does in one turn of the daemon's loop.
pub mod Answers
pub mod Errors
pub mod Loop
mod Tests
use unix_network_programming.Prelude.{
  ℕ, zero, suc, ◌+◌, ◌-◌, Bool, true, false, Option, none, some, List, [], ◌∷◌, ◌++◌, leb, ltb,
  if◌then◌else◌, get_elem?, set, map,
}
use unix_network_programming.Prelude.FdSet.{FdSet, fd_set, fd_clr, Entry, first_free}

pub data Family : Type 0 where
  inet inet6 other : Family

-- `struct client`; a port is in network byte order, and `none` is -1.
pub record Client : Type 0 where
  pub connfd : Entry
  pub family : Family
  pub lport : Option ℕ

pub data Errno : Type 0 where
  ehostunreach emsgsize econnrefused : Errno

-- `sockaddr_in` or `sockaddr_in6`: the address, and the port as it stands in the packet.
pub record SockAddr : Type 0 where
  pub family : Family
  pub addr : List ℕ
  pub port : List ℕ

pub record IcmpdErr : Type 0 where
  pub icmpd_errno : Errno
  pub icmpd_type : ℕ
  pub icmpd_code : ℕ
  pub icmpd_dest : SockAddr

-- What the daemon does to its descriptors: an error is written to a client, an answer ("1" or "0") is
-- written, a descriptor is closed.
pub data Action : Type 0 where
  notified : ℕ → IcmpdErr → Action
  answered : ℕ → Bool → Action
  closed : ℕ → Action

-- The globals; `limit` is `maxi + 1`.
pub record Daemon : Type 0 where
  pub client : List Client
  pub allset : FdSet
  pub maxfd : ℕ
  pub limit : ℕ
  pub nready : ℕ
  pub log : List Action

-- Read_fd(): the end of the stream or data, with the descriptor that was passed; or an error.
pub data Message : Type 0 where
  terminated : Entry → Message
  message : Entry → Message
  failed : Message

-- `recv4` and `recv6` are what Recvfrom() gives on the raw sockets, if not an error, and `stack4` and
-- `stack6` what stands in `buf` before. `getsockname` gives a family and a port, or an error; `bind`
-- the port that the kernel chooses, or an error. `write` says whether Write() succeeds.
pub record Round : Type 0 where
  pub nready : ℕ
  pub ready : FdSet
  pub accept : ℕ
  pub recv4 : Option (List ℕ)
  pub stack4 : List ℕ
  pub recv6 : Option (List ℕ)
  pub stack6 : List ℕ
  pub read_fd : ℕ → Message
  pub getsockname : ℕ → Option (Family × ℕ)
  pub bind : ℕ → Option ℕ
  pub write : ℕ → Bool

-- The daemon goes on; err_quit() on a short message; an error in a wrapper; an access outside an array.
pub data Outcome : Type 0 where
  running : Daemon → Outcome
  quit : Outcome
  died : Outcome
  fault : Outcome

infixl 5 ◌>>=◌
abbrev pub ◌>>=◌ : Outcome → (Daemon → Outcome) → Outcome
running s >>= f = f s
quit >>= f = quit
died >>= f = died
fault >>= f = fault

abbrev pub did : Daemon → Action → Daemon
did s a = record s { log = s.log ++ a ∷ [] }

-- `return(--nready)`
abbrev pub count : Daemon → Daemon
count s = record s { nready = s.nready - 1 }

abbrev pub connfds : List Client → List Entry
connfds = map (λ c. c.connfd)

-- The new connection `fd` in entry `i`, which holds the client `c`
abbrev pub admit : Daemon → ℕ → ℕ → Client → Daemon
admit s fd i c = record s {
  client = set s.client i (record c { connfd = some fd });
  allset = fd_set fd s.allset;
  maxfd = if ltb s.maxfd fd then fd else s.maxfd;
  limit = if leb s.limit i then i + 1 else s.limit;
}

pub readable_listen : Round → Daemon → Outcome
readable_listen r s = elim (first_free (connfds s.client)) [
  | none ↦ running (count (did s (closed r.accept)))
  | some i ↦ elim (get_elem? s.client i) [
    | none ↦ fault
    | some c ↦ running (count (admit s r.accept i c))
  ]
]

abbrev pub sock_get_port : Family → ℕ → Option ℕ
sock_get_port inet port = some port
sock_get_port inet6 port = some port
sock_get_port other port = none

-- `chosen` is the port after bind() to a wildcard, if that succeeds.
abbrev pub sock_bind_wild : Family → Option ℕ → Option ℕ
sock_bind_wild inet chosen = chosen
sock_bind_wild inet6 chosen = chosen
sock_bind_wild other chosen = none

abbrev pub closed_if_open : Entry → Daemon → Daemon
closed_if_open none s = s
closed_if_open (some fd) s = did s (closed fd)

-- From the label `clientdone`
abbrev pub client_done : ℕ → ℕ → Client → Entry → Daemon → Outcome
client_done i unixfd c recvfd s =
    let t : Daemon = closed_if_open recvfd (did s (closed unixfd)) in
    running (
      count (record t {
        allset = fd_clr unixfd t.allset;
        client = set t.client i (record c { connfd = none });
      }))

-- From the label `clienterr`
pub client_err : Round → ℕ → ℕ → Client → Entry → Daemon → Outcome
client_err r i unixfd c recvfd s =
    if r.write unixfd then client_done i unixfd c recvfd (did s (answered unixfd false)) else died

-- The client's port is known: `Write(unixfd, "1", 1)`, and so on.
pub client_ok : Round → ℕ → ℕ → Client → ℕ → Daemon → Outcome
client_ok r i unixfd c recvfd s =
    if r.write unixfd
    then running (
        count (record (did (did s (answered unixfd true)) (closed recvfd)) {
          client = set s.client i c;
        }))
    else died

-- After sock_bind_wild(), whose result is `lport`
pub client_bound : Round → ℕ → ℕ → Client → ℕ → Daemon → Option ℕ → Outcome
client_bound r i unixfd c recvfd s none =
    client_err r i unixfd (record c { lport = none }) (some recvfd) s
client_bound r i unixfd c recvfd s (some zero) =
    client_err r i unixfd (record c { lport = some 0 }) (some recvfd) s
client_bound r i unixfd c recvfd s (some (suc p)) =
    client_ok r i unixfd (record c { lport = some (suc p) }) recvfd s

-- After sock_get_port(), whose result is `lport`
pub client_named : Round → ℕ → ℕ → Client → ℕ → Daemon → Option ℕ → Outcome
client_named r i unixfd c recvfd s (some zero) =
    client_bound r i unixfd c recvfd s (sock_bind_wild c.family (r.bind recvfd))
client_named r i unixfd c recvfd s lport =
    client_ok r i unixfd (record c { lport = lport }) recvfd s

-- After getsockname() of the client's UDP socket
pub client_socket : Round → ℕ → ℕ → Client → ℕ → Daemon → Option (Family × ℕ) → Outcome
client_socket r i unixfd c recvfd s none = client_err r i unixfd c (some recvfd) s
client_socket r i unixfd c recvfd s (some (family, port)) =
    client_named r i unixfd (record c { family = family }) recvfd s (sock_get_port family port)

-- After Read_fd()
pub client_message : Round → ℕ → ℕ → Client → Daemon → Message → Outcome
client_message r i unixfd c s failed = died
client_message r i unixfd c s (terminated recvfd) = client_done i unixfd c recvfd s
client_message r i unixfd c s (message none) = client_err r i unixfd c none s
client_message r i unixfd c s (message (some recvfd)) =
    client_socket r i unixfd c recvfd s (r.getsockname recvfd)

-- readable_conn(i), where entry `i` is the client `c` with the connection `unixfd`
pub readable_conn : Round → ℕ → ℕ → Client → Daemon → Outcome
readable_conn r i unixfd c s = client_message r i unixfd c s (r.read_fd unixfd)
