-- ===== src/Sigio.antt =====
-- sigio/dgecho01.c: a UDP echo server whose signal handler reads the datagrams into a queue of
-- QSIZE, from which the main loop sends them back. An `Event` is what happens next: SIGIO is delivered,
-- with the datagrams that recvfrom() finds, or the main loop makes its next move.
pub mod Queue
pub mod Handler
pub mod MainLoop
mod Tests
use unix_network_programming.Prelude.{
  ℕ, zero, suc, ◌+◌, ◌-◌, Bool, true, false, Option, none, some, List, [], ◌∷◌, ◌++◌, leb, ◌==◌,
  if◌then◌else◌, length, take, drop, get_elem?, set, replicate, map,
}
use unix_network_programming.Prelude.Cyclic.{next}

abbrev pub qsize : ℕ
qsize = 8

-- A datagram as it arrives: its bytes (MAXDG of them at most), the client's address and its length.
pub record Datagram : Type 0 where
  pub bytes : List ℕ
  pub addr : List ℕ
  pub addrlen : ℕ

-- `DG`: the buffer that dg_data points at, and the rest of the structure.
pub record Dg : Type 0 where
  pub dg_data : List ℕ
  pub dg_len : ℕ
  pub dg_sa : List ℕ
  pub dg_salen : ℕ

-- How recvfrom() ends the handler's loop when no datagram is left: EWOULDBLOCK, or another error.
pub data Stop : Type 0 where
  would_block failure : Stop

-- Where the main loop stands: at `while (nqueue == 0)`, before Sendto(), before `++iget`, and before
-- `nqueue--`. SIGIO is blocked in the first of these, but for sigsuspend(), and not in the others.
pub data Place : Type 0 where
  waiting sending sent advanced : Place

-- The statics; `arrived` is what the handler has read, `echoed` what Sendto() was given.
pub record Server : Type 0 where
  pub dg : List Dg
  pub cntread : List ℕ
  pub iget : ℕ
  pub iput : ℕ
  pub nqueue : ℕ
  pub clilen : ℕ
  pub place : Place
  pub arrived : List Datagram
  pub echoed : List Datagram

-- The server goes on; err_quit("receive overflow"); err_sys(); an access outside an array.
pub data Outcome : Type 0 where
  running : Server → Outcome
  overflow : Outcome
  died : Outcome
  fault : Outcome

infixl 5 ◌>>=◌
abbrev pub ◌>>=◌ : Outcome → (Server → Outcome) → Outcome
running s >>= f = f s
overflow >>= f = overflow
died >>= f = died
fault >>= f = fault

-- recvfrom() into a slot, and `dg_len = len`
abbrev pub receive : Dg → Datagram → Dg
receive p d = record {
  dg_data = d.bytes ++ drop (length d.bytes) p.dg_data;
  dg_len = length d.bytes;
  dg_sa = d.addr;
  dg_salen = d.addrlen;
}

-- What Sendto() sends of a slot.
abbrev pub datagram_of : Dg → Datagram
datagram_of p = record { bytes = take p.dg_len p.dg_data; addr = p.dg_sa; addrlen = p.dg_salen }

-- A round of the handler's loop that finds a datagram
pub store : Server → Datagram → Outcome
store s d = elim (get_elem? s.dg s.iput) [
  | none ↦ fault
  | some p ↦ running (record s {
    dg = set s.dg s.iput (receive p d);
    nqueue = s.nqueue + 1;
    iput = next qsize s.iput;
    arrived = s.arrived ++ d ∷ [];
  })
]

-- `cntread[nread]++`
pub tally : Server → ℕ → Outcome
tally s nread = elim (get_elem? s.cntread nread) [
  | none ↦ fault
  | some n ↦ running (record s { cntread = set s.cntread nread (n + 1) })
]

-- `dg_salen = clilen`, before a recvfrom() that finds nothing
abbrev pub reset : Server → Dg → Server
reset s p = record s { dg = set s.dg s.iput (record p { dg_salen = s.clilen }) }

pub sig_io_end : Server → ℕ → Stop → Outcome
sig_io_end s nread would_block = tally s nread
sig_io_end s nread failure = died

-- A round of the handler's loop that finds no datagram
pub sig_io_stop : Server → ℕ → Stop → Outcome
sig_io_stop s nread e = elim (get_elem? s.dg s.iput) [
  | none ↦ fault
  | some p ↦ sig_io_end (reset s p) nread e
]

-- The loop of sig_io() over the datagrams that wait at the socket.
pub sig_io_loop : Server → ℕ → List Datagram → Stop → Outcome
sig_io_loop s nread [] e = if leb qsize s.nqueue then overflow else sig_io_stop s nread e
sig_io_loop s nread (d ∷ ds) e =
    let rest = store s d >>= λ s'. sig_io_loop s' (nread + 1) ds e in
    if leb qsize s.nqueue then overflow else rest

pub sig_io : Server → List Datagram → Stop → Outcome
sig_io s ds e = sig_io_loop s 0 ds e

-- Sendto() of the slot at `iget`
pub send : Server → Outcome
send s = elim (get_elem? s.dg s.iget) [
  | none ↦ fault
  | some p ↦ running (record s { echoed = s.echoed ++ datagram_of p ∷ []; place = sent })
]

-- The next move of the main loop
pub proceed : Place → Server → Outcome
proceed waiting s = running (if s.nqueue == 0 then s else record s { place = sending })
proceed sending s = send s
proceed sent s = running (record s { iget = next qsize s.iget; place = advanced })
proceed advanced s = running (record s { nqueue = s.nqueue - 1; place = waiting })

pub data Event : Type 0 where
  sigio : List Datagram → Stop → Event
  go : Event

-- Whether SIGIO is delivered now: the main loop has unblocked it, or stands in sigsuspend().
abbrev pub open_to_sigio : Server → Bool
open_to_sigio s = elim s.place [ waiting ↦ s.nqueue == 0 | _ ↦ true ]

-- A signal that is blocked stays pending: a later event delivers it.
pub step : Server → Event → Outcome
step s (sigio ds e) = if open_to_sigio s then sig_io s ds e else running s
step s go = proceed s.place s

pub run : Server → List Event → Outcome
run s [] = running s
run s (v ∷ vs) = step s v >>= λ s'. run s' vs

-- dg_echo() before its loop: `slots` are the buffers that Malloc() gives.
pub start : List (List ℕ × List ℕ) → ℕ → Server
start slots clilen = record {
  dg = map (λ m. record { dg_data = m.0; dg_len = 0; dg_sa = m.1; dg_salen = clilen }) slots;
  cntread = replicate 9 0;
  iget = 0;
  iput = 0;
  nqueue = 0;
  clilen = clilen;
  place = waiting;
  arrived = [];
  echoed = [];
}
