-- ===== src/SelectServer.antt =====
-- tcpcliserv/tcpservselect01.c: one process that serves all its clients by select(). A `Round` is what
-- the kernel does in one turn of the loop: what Select() returns, the descriptor that accept() makes for
-- a new connection, and what each read() gives.
pub mod Table
pub mod Serve
pub mod Unserved
pub mod Every
mod Tests
use unix_network_programming.Prelude.{
  ℕ, zero, suc, ◌+◌, ◌-◌, Bool, true, false, ◌&&◌, Option, none, some, List, [], ◌∷◌, ◌++◌, leb,
  ltb, ◌==◌, if◌then◌else◌, get_elem?, set, replicate, max,
}
use unix_network_programming.Prelude.FdSet.{FdSet, fd_set, fd_clr, Entry, first_free}
use unix_network_programming.Prelude.FdTable.{fd_setsize}

-- Read(): the bytes, none at the end of the file; or the error at which it exits.
pub data Input : Type 0 where
  got : List ℕ → Input
  failed : Input

pub record Round : Type 0 where
  pub nready : ℕ
  pub ready : FdSet
  pub accept : ℕ
  pub read : ℕ → Input

-- What the server does with a client: a new connection in an entry, an echo, a close.
pub data Action : Type 0 where
  accepted : ℕ → ℕ → Action
  echoed : ℕ → List ℕ → Action
  closed : ℕ → Action

-- The locals of main(); `limit` is `maxi + 1`, the number of entries that the second loop looks at.
pub record Server : Type 0 where
  pub client : List Entry
  pub allset : FdSet
  pub maxfd : ℕ
  pub limit : ℕ
  pub log : List Action

-- The server goes on; err_quit("too many clients"); an error in Read(); an access outside client[].
pub data Outcome : Type 0 where
  running : Server → Outcome
  too_many : Outcome
  died : Outcome
  fault : Outcome

infixl 5 ◌>>=◌
abbrev pub ◌>>=◌ : Outcome → (Server → Outcome) → Outcome
running s >>= f = f s
too_many >>= f = too_many
died >>= f = died
fault >>= f = fault

-- The new connection `connfd` in entry `i`
abbrev pub admit : Server → ℕ → ℕ → Server
admit s connfd i = record {
  client = set s.client i (some connfd);
  allset = fd_set connfd s.allset;
  maxfd = if ltb s.maxfd connfd then connfd else s.maxfd;
  limit = if leb s.limit i then i + 1 else s.limit;
  log = s.log ++ accepted i connfd ∷ [];
}

-- The branch on `listenfd`
pub new_client : Server → ℕ → Outcome
new_client s connfd = elim (first_free s.client) [
  | none ↦ too_many
  | some i ↦ running (admit s connfd i)
]

-- The client at entry `i` has closed its connection
abbrev pub drop_client : Server → ℕ → ℕ → Server
drop_client s i sockfd = record s {
  client = set s.client i none;
  allset = fd_clr sockfd s.allset;
  log = s.log ++ closed sockfd ∷ [];
}

-- Read() from a ready client, on its outcome; Writen() sends all or exits.
pub serve : Server → ℕ → ℕ → Input → Outcome
serve s i sockfd failed = died
serve s i sockfd (got []) = running (drop_client s i sockfd)
serve s i sockfd (got (x ∷ xs)) = running (record s { log = s.log ++ echoed sockfd (x ∷ xs) ∷ [] })

module _ (r : Round) where
  -- A round of the second loop, at entry `i`: `again` goes on with the next entry. The loop stops when
  -- `--nready <= 0`.
  pub check_client : (ℕ → Server → Outcome) → FdSet → ℕ → ℕ → Server → Option Entry → Outcome
  check_client again rset i nready s none = fault
  check_client again rset i nready s (some none) = again nready s
  check_client again rset i nready s (some (some sockfd)) = elim (rset sockfd) [
    | false ↦ again nready s
    | true ↦ serve s i sockfd (r.read sockfd) >>= λ s'. elim (leb nready 1) [
      | true ↦ running s'
      | false ↦ again (nready - 1) s'
    ]
  ]

  -- The second loop, with `rounds` entries from `i` on
  pub check_clients : FdSet → ℕ → ℕ → ℕ → Server → Outcome
  check_clients rset zero i nready s = running s
  check_clients rset (suc rounds) i nready s =
      check_client (check_clients rset rounds (i + 1)) rset i nready s (get_elem? s.client i)

module _ (listenfd : ℕ) (r : Round) where
  -- One turn of the `for ( ; ; )`. Select() leaves of `allset` what is ready.
  pub step : Server → Outcome
  step s =
      let rset : FdSet = λ fd. s.allset fd && r.ready fd in
      if rset listenfd
      then (new_client s r.accept >>= λ s'.
          if leb r.nready 1 then running s' else check_clients r rset s'.limit 0 (r.nready - 1) s')
      else check_clients r rset s.limit 0 r.nready s

pub run : ℕ → Server → List Round → Outcome
run listenfd s [] = running s
run listenfd s (r ∷ rs) = step listenfd r s >>= λ s'. run listenfd s' rs

-- The state before the loop.
pub start : ℕ → Server
start listenfd = record {
  client = replicate fd_setsize none;
  allset = fd_set listenfd (λ fd. false);
  maxfd = listenfd;
  limit = 0;
  log = [];
}
