-- ===== src/Icmpd/Loop.antt =====
-- icmpd/icmpd.c: the daemon's loop.
pub mod Valid
pub mod Turns
use unix_network_programming.Prelude.{
  ℕ, zero, suc, ◌+◌, ◌-◌, Bool, true, false, ◌&&◌, Option, none, some, List, [], ◌∷◌, leb, ltb,
  if◌then◌else◌, get_elem?, replicate,
}
use unix_network_programming.Prelude.FdSet.{FdSet, fd_set, Entry}
use unix_network_programming.Prelude.FdTable.{fd_setsize}
use unix_network_programming.Cksum.{Endian}
use unix_network_programming.Icmpd.{
  Family, other, Client, Daemon, Round, Outcome, running, fault, ◌>>=◌, readable_listen,
  readable_conn,
}
use unix_network_programming.Icmpd.Errors.{readable_v4, readable_v6}

-- `fd4`, `fd6` and `listenfd`
pub record Sockets : Type 0 where
  pub fd4 : ℕ
  pub fd6 : ℕ
  pub listenfd : ℕ

-- `if (... <= 0) continue;` after a handler, else `next`
unfoldable pub go_on : (Daemon → Outcome) → Daemon → Outcome
go_on next s = if leb s.nready 0 then running s else next s

-- `if (FD_ISSET(...)) if (handler() <= 0) continue;`, and then `next`
unfoldable pub handle : Bool → (Daemon → Outcome) → (Daemon → Outcome) → Daemon → Outcome
handle true handler next s = handler s >>= go_on next
handle false handler next s = next s

module _ (r : Round) (rset : FdSet) where
  -- A round of the loop over the clients, at entry `i`; `again` goes on with the next.
  unfoldable pub check_conn : (Daemon → Outcome) → ℕ → Daemon → Client → Entry → Outcome
  check_conn again i s c none = again s
  check_conn again i s c (some sockfd) =
      if rset sockfd then (readable_conn r i sockfd c s >>= go_on again) else again s

  unfoldable pub check_entry : (Daemon → Outcome) → ℕ → Daemon → Option Client → Outcome
  check_entry again i s none = fault
  check_entry again i s (some c) = check_conn again i s c c.connfd

  -- `rounds` entries from `i` on
  unfoldable pub check_conns : ℕ → ℕ → Daemon → Outcome
  check_conns zero i s = running s
  check_conns (suc rounds) i s = check_entry (check_conns rounds (i + 1)) i s (get_elem? s.client i)

module _ (o : Endian) (k : Sockets) where
  -- One turn of the `for ( ; ; )`.
  unfoldable pub step : Round → Daemon → Outcome
  step r s =
      let rset : FdSet = λ fd. s.allset fd && r.ready fd in
      handle (rset k.listenfd) (readable_listen r)
        (handle (rset k.fd4) (readable_v4 o r)
          (handle (rset k.fd6) (readable_v6 o r) (λ t. check_conns r rset t.limit 0 t)))
        (record s { nready = r.nready })

  unfoldable pub run : Daemon → List Round → Outcome
  run s [] = running s
  run s (r ∷ rs) = step r s >>= λ t. run t rs

-- main() before its loop. The array is a global: it holds zeros but for `connfd`.
unfoldable pub start : Sockets → Daemon
start k = record {
  client = replicate fd_setsize (record { connfd = none; family = other; lport = some 0 });
  allset = fd_set k.listenfd (fd_set k.fd6 (fd_set k.fd4 (λ fd. false)));
  maxfd =
      let top = if ltb k.fd4 k.fd6 then k.fd6 else k.fd4 in
      if ltb top k.listenfd then k.listenfd else top;
  limit = 0;
  nready = 0;
  log = [];
}
