-- ===== src/Web.antt =====
-- nonblock/web.c, web.h, start_connect.c and write_get_cmd.c: a client that gets files over several
-- connections at a time. A `Round` is what the kernel does in one turn of the loop.
pub mod Counts
pub mod Turns
pub mod Full
mod Tests
use unix_network_programming.Prelude.{
  ℕ, zero, suc, ◌+◌, ◌-◌, Bool, true, false, ◌&&◌, ◌||◌, Option, none, some, List, [], ◌∷◌, ◌++◌,
  leb, ltb, if◌then◌else◌, get_elem?, set, length, replicate,
}
use unix_network_programming.Prelude.FdSet.{FdSet, fd_set, fd_clr}

-- `f_flags`: 0, F_CONNECTING, F_READING, F_DONE
pub data Flags : Type 0 where
  idle connecting reading finished : Flags

-- `struct file`, without the names
pub record File : Type 0 where
  pub f_fd : ℕ
  pub f_flags : Flags

-- connect(): EINPROGRESS, done at once, or another error.
pub data Connect : Type 0 where
  in_progress connected refused : Connect

-- Read(): some bytes, the end of the file, or an error at which it exits.
pub data Input : Type 0 where
  some_bytes end_of_file failed : Input

-- `socket` and `connect` are by the number of the file, the others by descriptor; `rs` and `ws` are what
-- Select() leaves of the sets, and `write` says whether Writen() succeeds.
pub record Round : Type 0 where
  pub socket : ℕ → ℕ
  pub connect : ℕ → Connect
  pub rs : FdSet
  pub ws : FdSet
  pub read : ℕ → Input
  pub write : ℕ → Bool

-- The globals; `nfds` is `maxfd + 1`, and `gets` the descriptors to which GET was written.
pub record Client : Type 0 where
  pub file : List File
  pub rset : FdSet
  pub wset : FdSet
  pub nfds : ℕ
  pub nconn : ℕ
  pub nlefttoconn : ℕ
  pub nlefttoread : ℕ
  pub gets : List ℕ

-- The client goes on; err_quit("... nothing found"); another exit on an error; an access outside file[].
pub data Outcome : Type 0 where
  running : Client → Outcome
  nothing_found : Outcome
  died : Outcome
  fault : Outcome

infixl 5 ◌>>=◌
abbrev pub ◌>>=◌ : Outcome → (Client → Outcome) → Outcome
running s >>= f = f s
nothing_found >>= f = nothing_found
died >>= f = died
fault >>= f = fault

-- `if (fd > maxfd) maxfd = fd;`
abbrev pub reach : ℕ → ℕ → ℕ
reach fd nfds = if leb nfds fd then fd + 1 else nfds

-- write_get_cmd() after Writen()
abbrev pub asked : Client → ℕ → File → Client
asked s i f = record s {
  file = set s.file i (record f { f_flags = reading });
  rset = fd_set f.f_fd s.rset;
  nfds = reach f.f_fd s.nfds;
  gets = s.gets ++ f.f_fd ∷ [];
}

abbrev pub is_idle : Flags → Bool
is_idle idle = true
is_idle connecting = false
is_idle reading = false
is_idle finished = false

-- The loop that finds a file to read
pub first_idle : List File → Option ℕ
first_idle [] = none
first_idle (f ∷ fs) =
    if is_idle f.f_flags
    then some 0
    else elim (first_idle fs) [ none ↦ none | some i ↦ some (suc i) ]

module _ (r : Round) where
  pub write_get_cmd : Client → ℕ → File → Outcome
  write_get_cmd s i f = if r.write f.f_fd then running (asked s i f) else died

  -- start_connect() of the file `f`, whose descriptor is set, after connect()
  pub connect_started : Client → ℕ → File → Connect → Outcome
  connect_started s i f in_progress = running (record s {
    file = set s.file i (record f { f_flags = connecting });
    rset = fd_set f.f_fd s.rset;
    wset = fd_set f.f_fd s.wset;
    nfds = reach f.f_fd s.nfds;
  })
  connect_started s i f connected = write_get_cmd s i f
  connect_started s i f refused = died

  abbrev pub start_connect : Client → ℕ → File → Outcome
  start_connect s i f = connect_started s i (record f { f_fd = r.socket i }) (r.connect i)

  -- A round of the loop that opens connections, after its search
  pub open_found : Client → Option ℕ → Outcome
  open_found s none = nothing_found
  open_found s (some i) = elim (get_elem? s.file i) [
    | none ↦ fault
    | some f ↦ start_connect s i f >>= λ t.
        running (record t { nconn = t.nconn + 1; nlefttoconn = t.nlefttoconn - 1 })
  ]

  -- `while (nconn < maxnconn && nlefttoconn > 0)`, of `rounds` rounds at most
  pub open_all : ℕ → ℕ → Client → Outcome
  open_all maxnconn zero s = running s
  open_all maxnconn (suc rounds) s =
      if ltb s.nconn maxnconn && ltb 0 s.nlefttoconn
      then (open_found s (first_idle s.file) >>= open_all maxnconn rounds)
      else running s

  -- After Read() from the file `f`
  pub file_read : Client → ℕ → File → Input → Outcome
  file_read s i f failed = died
  file_read s i f some_bytes = running s
  file_read s i f end_of_file = running (record s {
    file = set s.file i (record f { f_flags = finished });
    rset = fd_clr f.f_fd s.rset;
    nconn = s.nconn - 1;
    nlefttoread = s.nlefttoread - 1;
  })

  -- One file in the loop after Select(). A connection that has failed is reported, and the GET is
  -- written all the same.
  pub check_file : Client → ℕ → File → Flags → Outcome
  check_file s i f idle = running s
  check_file s i f finished = running s
  check_file s i f connecting =
      if r.rs f.f_fd || r.ws f.f_fd
      then write_get_cmd (record s { wset = fd_clr f.f_fd s.wset }) i f
      else running s
  check_file s i f reading = if r.rs f.f_fd then file_read s i f (r.read f.f_fd) else running s

  pub check_entry : Client → ℕ → Option File → Outcome
  check_entry s i none = fault
  check_entry s i (some f) = check_file s i f f.f_flags

  -- `rounds` files from `i` on
  pub check_files : ℕ → ℕ → Client → Outcome
  check_files zero i s = running s
  check_files (suc rounds) i s = check_entry s i (get_elem? s.file i) >>= check_files rounds (i + 1)

  -- One turn of the outer loop.
  pub step : ℕ → Client → Outcome
  step maxnconn s = open_all maxnconn s.nlefttoconn s >>= λ t. check_files (length t.file) 0 t

-- `while (nlefttoread > 0)`, for as many turns as are given
pub run : ℕ → Client → List Round → Outcome
run maxnconn s [] = running s
run maxnconn s (r ∷ rs) =
    if ltb 0 s.nlefttoread then (step r maxnconn s >>= λ t. run maxnconn t rs) else running s

-- main() before its loop, with `nfiles` files
pub start : ℕ → Client
start nfiles = record {
  file = replicate nfiles (record { f_fd = 0; f_flags = idle });
  rset = λ fd. false;
  wset = λ fd. false;
  nfds = 0;
  nconn = 0;
  nlefttoconn = nfiles;
  nlefttoread = nfiles;
  gets = [];
}
