-- ===== src/ChildPool.antt =====
-- server/serv05.c, child05.c and child.h: a parent accepts connections and passes each to a child that
-- is available; the child tells it by a byte when it has served the connection. An `Event` is a turn
-- of the parent's loop or the end of a child's work.
pub mod Busy
pub mod Turns
mod Tests
use unix_network_programming.Prelude.{
  ℕ, zero, suc, ◌+◌, ◌-◌, Bool, true, false, ◌&&◌, ◌||◌, Option, none, some, List, [], ◌∷◌, ◌++◌,
  ltb, ◌==◌, if◌then◌else◌, get_elem?, set, length, replicate,
}

-- `Child`; `child_status` is true for 1. The pipe to the child holds `queued` connections, with the one
-- that it serves, and the pipe back `bytes` bytes.
pub record Child : Type 0 where
  pub child_status : Bool
  pub child_count : ℕ
  pub queued : ℕ
  pub bytes : ℕ

-- The locals of main(); `given` are the connections passed, with the number of the child.
pub record Parent : Type 0 where
  pub cptr : List Child
  pub navail : ℕ
  pub given : List (ℕ × ℕ)

-- `conn` is the descriptor of a connection that Accept() gives, if one waits; `dead` says which children have
-- exited, so that their pipes end behind the bytes that they hold, and `ready` which of the pipes that
-- hold a byte or have ended Select() reports.
pub record Round : Type 0 where
  pub nsel : ℕ
  pub conn : Option ℕ
  pub ready : ℕ → Bool
  pub dead : ℕ → Bool

-- The parent goes on; err_quit("no available children"); err_quit("child ... terminated"); an access
-- outside cptr[].
pub data Outcome : Type 0 where
  running : Parent → Outcome
  no_child : Outcome
  terminated : Outcome
  fault : Outcome

infixl 5 ◌>>=◌
abbrev pub ◌>>=◌ : Outcome → (Parent → Outcome) → Outcome
running s >>= f = f s
no_child >>= f = no_child
terminated >>= f = terminated
fault >>= f = fault

-- The loop that finds an available child
pub available : List Child → Option ℕ
available [] = none
available (c ∷ cs) =
    if c.child_status then elim (available cs) [ none ↦ none | some i ↦ some (suc i) ] else some 0

-- The child `c` at `i` is marked as busy and gets the connection.
abbrev pub pass : Parent → ℕ → Child → ℕ → Parent
pass s i c connfd = record {
  cptr = set s.cptr i (record {
    child_status = true;
    child_count = c.child_count + 1;
    queued = c.queued + 1;
    bytes = c.bytes;
  });
  navail = s.navail - 1;
  given = s.given ++ (i, connfd) ∷ [];
}

-- A new connection, after the search
pub give : Parent → ℕ → Option ℕ → Outcome
give s connfd none = no_child
give s connfd (some i) = elim (get_elem? s.cptr i) [
  | none ↦ fault
  | some c ↦ running (pass s i c connfd)
]

-- The child `c` at `i` is available again.
abbrev pub release : Parent → ℕ → Child → Parent
release s i c = record s {
  cptr = set s.cptr i (record c { child_status = false; bytes = c.bytes - 1 });
  navail = s.navail + 1;
}

module _ (r : Round) where
  -- A round of the second loop; `again` goes on with the next child. Read() gives a byte of the pipe, or
  -- finds the end of the stream on an empty one.
  pub check_child : (ℕ → Parent → Outcome) → ℕ → ℕ → Parent → Option Child → Outcome
  check_child again i nsel s none = fault
  check_child again i nsel s (some c) =
      if r.ready i && (ltb 0 c.bytes || r.dead i)
      then (if ltb 0 c.bytes
          then (if nsel == 1 then running (release s i c) else again (nsel - 1) (release s i c))
          else terminated)
      else again nsel s

  -- `rounds` children from `i` on
  pub check_children : ℕ → ℕ → ℕ → Parent → Outcome
  check_children zero i nsel s = running s
  check_children (suc rounds) i nsel s =
      check_child (check_children rounds (i + 1)) i nsel s (get_elem? s.cptr i)

  -- One turn of the `for ( ; ; )`: without an available child `listenfd` is left out of Select().
  pub turn : Parent → Option ℕ → Outcome
  turn s none = check_children (length s.cptr) 0 r.nsel s
  turn s (some connfd) =
      if ltb 0 s.navail
      then (give s connfd (available s.cptr) >>= λ t.
          if r.nsel == 1 then running t else check_children (length t.cptr) 0 (r.nsel - 1) t)
      else check_children (length s.cptr) 0 r.nsel s

-- A child has served its connection and writes the byte.
pub finish : Parent → ℕ → Option Child → Outcome
finish s i none = running s
finish s i (some c) = running (
    if ltb 0 c.queued
    then record s { cptr = set s.cptr i (record c { queued = c.queued - 1; bytes = c.bytes + 1 }) }
    else s)

pub data Event : Type 0 where
  turns : Round → Event
  finishes : ℕ → Event

pub step : Parent → Event → Outcome
step s (turns r) = turn r s r.conn
step s (finishes i) = finish s i (get_elem? s.cptr i)

pub run : Parent → List Event → Outcome
run s [] = running s
run s (e ∷ es) = step s e >>= λ t. run t es

-- main() before its loop
pub start : ℕ → Parent
start nchildren = record {
  cptr =
      replicate nchildren (record { child_status = false; child_count = 0; queued = 0; bytes = 0 });
  navail = nchildren;
  given = [];
}
