-- ===== src/PollServer.antt =====
-- tcpcliserv/tcpservpoll01.c: the server of SelectServer by poll(). A `Round` is what the kernel does
-- in one turn of the loop: what Poll() returns and sets for each descriptor, the descriptor that
-- accept() makes, and what each read() gives.
pub mod Reads
pub mod Turns
mod Tests
use unix_network_programming.Prelude.{
  ℕ, zero, suc, ◌+◌, ◌-◌, Bool, true, false, ◌||◌, Option, none, some, List, [], ◌∷◌, ◌++◌, leb,
  if◌then◌else◌, get_elem?, set, map,
}
use unix_network_programming.Prelude.FdSet.{Entry, first_free}

-- `struct pollfd`: of `revents` the bits POLLRDNORM and POLLERR. `events` is POLLRDNORM for all.
pub record PollFd : Type 0 where
  pub fd : Entry
  pub rdnorm : Bool
  pub err : Bool

-- read(): the bytes, none at the end of the file; ECONNRESET; another error.
pub data Input : Type 0 where
  got : List ℕ → Input
  reset : Input
  failed : Input

pub record Round : Type 0 where
  pub nready : ℕ
  pub rdnorm : ℕ → Bool
  pub err : ℕ → Bool
  pub accept : ℕ
  pub read : ℕ → Input

pub data Action : Type 0 where
  accepted : ℕ → ℕ → Action
  echoed : ℕ → List ℕ → Action
  closed : ℕ → Action

-- `limit` is `maxi + 1`, the number of entries that are polled.
pub record Server : Type 0 where
  pub client : List PollFd
  pub limit : ℕ
  pub log : List Action

pub data Outcome : Type 0 where
  running : Server → Outcome
  too_many : Outcome
  died : Outcome
  fault : Outcome

infixl 5 ◌>>=◌
abbrev pub ◌>>=◌ : Outcome → (Server → Outcome) → Outcome
running s >>= f = f s
too_many >>= f = too_many
died >>= f = died
fault >>= f = fault

-- Poll() on one entry: it ignores one that is -1, and clears its `revents`.
abbrev pub poll_entry : Round → Entry → PollFd
poll_entry r none = record { fd = none; rdnorm = false; err = false }
poll_entry r (some fd) = record { fd = some fd; rdnorm = r.rdnorm fd; err = r.err fd }

-- Poll() on the first entries
abbrev pub poll : Round → ℕ → List PollFd → List PollFd
poll r zero cs = cs
poll r (suc n) [] = []
poll r (suc n) (c ∷ cs) = poll_entry r c.fd ∷ poll r n cs

abbrev pub fds : List PollFd → List Entry
fds = map (λ c. c.fd)

-- The new connection in the entry `i`
abbrev pub admit : Server → ℕ → ℕ → PollFd → Server
admit s connfd i c = record {
  client = set s.client i (record c { fd = some connfd });
  limit = if leb s.limit i then i + 1 else s.limit;
  log = s.log ++ accepted i connfd ∷ [];
}

-- The branch on `client[0]`: the other entries are `cs`.
pub new_client : Server → ℕ → List PollFd → Outcome
new_client s connfd cs = elim (first_free (fds cs)) [
  | none ↦ too_many
  | some i ↦ elim (get_elem? s.client (i + 1)) [
    | none ↦ fault
    | some c ↦ running (admit s connfd (i + 1) c)
  ]
]

abbrev pub drop_client : Server → ℕ → ℕ → PollFd → Server
drop_client s i sockfd c = record s {
  client = set s.client i (record c { fd = none });
  log = s.log ++ closed sockfd ∷ [];
}

-- After the read() from a client; Writen() sends all or exits.
pub serve : Server → ℕ → ℕ → PollFd → Input → Outcome
serve s i sockfd c failed = died
serve s i sockfd c reset = running (drop_client s i sockfd c)
serve s i sockfd c (got []) = running (drop_client s i sockfd c)
serve s i sockfd c (got (x ∷ xs)) =
    running (record s { log = s.log ++ echoed sockfd (x ∷ xs) ∷ [] })

module _ (r : Round) where
  -- A round of the second loop, at entry `i`
  pub check_client : (ℕ → Server → Outcome) → ℕ → ℕ → Server → PollFd → Entry → Outcome
  check_client again i nready s c none = again nready s
  check_client again i nready s c (some sockfd) =
      if c.rdnorm || c.err
      then (serve s i sockfd c (r.read sockfd) >>= λ t.
          if leb nready 1 then running t else again (nready - 1) t)
      else again nready s

  pub check_entry : (ℕ → Server → Outcome) → ℕ → ℕ → Server → Option PollFd → Outcome
  check_entry again i nready s none = fault
  check_entry again i nready s (some c) = check_client again i nready s c c.fd

  -- `rounds` entries from `i` on
  pub check_clients : ℕ → ℕ → ℕ → Server → Outcome
  check_clients zero i nready s = running s
  check_clients (suc rounds) i nready s =
      check_entry (check_clients rounds (i + 1)) i nready s (get_elem? s.client i)

  -- After Poll()
  pub polled_step : Server → List PollFd → Outcome
  polled_step s [] = fault
  polled_step s (c ∷ cs) =
      if c.rdnorm
      then (new_client s r.accept cs >>= λ t.
          if leb r.nready 1 then running t else check_clients (t.limit - 1) 1 (r.nready - 1) t)
      else check_clients (s.limit - 1) 1 r.nready s

  -- One turn of the `for ( ; ; )`.
  pub step : Server → Outcome
  step s = let t : Server = record s { client = poll r s.limit s.client } in polled_step t t.client

pub run : Server → List Round → Outcome
run s [] = running s
run s (r ∷ rs) = step r s >>= λ t. run t rs

-- main() before its loop: client[] is a local, and `stack` what its `revents` hold, one for each entry
-- but the first.
pub start : ℕ → Bool × Bool → List (Bool × Bool) → Server
start listenfd first stack = record {
  client =
      record { fd = some listenfd; rdnorm = first.0; err = first.1 }
      ∷ map (λ b. record { fd = none; rdnorm = b.0; err = b.1 }) stack;
  limit = 1;
  log = [];
}
