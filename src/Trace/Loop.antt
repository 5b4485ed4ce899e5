-- ===== src/Trace/Loop.antt =====
-- traceroute/traceloop.c: the probes, hop by hop.
pub mod Sent
pub mod Hops
use unix_network_programming.Prelude.{
  ℕ, zero, suc, ◌+◌, ◌%◌, ◌^◌, Bool, true, false, not, ◌&&◌, Option, none, some, List, [], ◌∷◌,
  ◌++◌, ◌==◌, replicate, if◌then◌else◌,
}
use unix_network_programming.TimeVal.{TimeVal, tv_sub}
use unix_network_programming.Trace.{
  Reply, timeout, time_exceeded, port_unreachable, unreachable, Outcome, returned, returned_unset,
  died, blocked, fault, probe_port,
}

-- What is printed for a probe: the sender, if it is not the last one; the time; the code.
pub data Printed : Type 0 where
  star : Printed
  line : Option (List ℕ) → TimeVal → Option ℕ → Printed

-- A probe: the port it was sent to, the sequence number and the TTL in it
pub record Probe : Type 0 where
  pub port : ℕ
  pub rec_seq : ℕ
  pub rec_ttl : ℕ
  pub code : Reply
  pub printed : Printed

-- sock_cmp_addr() == 0: the same family and address. In `salast` after bzero() the family is 0.
abbrev pub same_addr : List ℕ → List ℕ → Bool
same_addr [] [] = true
same_addr (x ∷ xs) (y ∷ ys) = x == y && same_addr xs ys
same_addr _ _ = false

-- `(ICMP %s)` for a code that is not negative
abbrev pub shown_code : Reply → Option ℕ
shown_code timeout = none
shown_code time_exceeded = none
shown_code port_unreachable = none
shown_code (unreachable code) = some code

-- `code == -1`
abbrev pub arrived : Reply → ℕ
arrived timeout = 0
arrived time_exceeded = 0
arrived port_unreachable = 1
arrived (unreachable code) = 0

-- The locals, pr->salast, the probes so far, and the state `K` of pr->recv
pub record Loop (K : Type 0) : Type 0 where
  pub seq : ℕ
  pub done : ℕ
  pub tvrecv : TimeVal
  pub salast : List ℕ
  pub probes : List Probe
  pub receiver : K

-- How traceloop() goes on, or ends inside pr->recv.
pub data Ending (K : Type 0) : Type 0 where
  running : Loop K → Ending K
  stopped : Outcome → Ending K

infixl 5 ◌>>=◌
abbrev pub ◌>>=◌ : {K : Type 0} → Ending K → (Loop K → Ending K) → Ending K
running s >>= f = f s
stopped o >>= f = stopped o

-- `recv` is pr->recv, and `from` is pr->sarecv in its state. `clock` gives the time of day of each probe.
module _ {K : Type 0} (recv : ℕ → K → Outcome × K) (from : K → List ℕ) (clock : ℕ → TimeVal)
    (dport salen nprobes : ℕ) where
  -- A reply: `s` has the number of the probe and the new state of `recv`.
  unfoldable pub replied : ℕ → Loop K → Reply → TimeVal → Loop K
  replied ttl s code tv =
      let sender = from s.receiver in
      let rtt = tv_sub tv (clock s.seq) in
      let shown = if same_addr sender s.salast then none else some sender in
      record s {
        done = s.done + arrived code;
        tvrecv = rtt;
        salast = sender;
        probes =
            s.probes
            ++ record {
              port = probe_port dport s.seq;
              rec_seq = s.seq % 2 ^ 16;
              rec_ttl = ttl % 2 ^ 16;
              code = code;
              printed = line shown rtt (shown_code code);
            }
              ∷ [];
      }

  -- No reply
  unfoldable pub missed : ℕ → Loop K → Loop K
  missed ttl s = record s {
    probes =
        s.probes
        ++ record {
          port = probe_port dport s.seq;
          rec_seq = s.seq % 2 ^ 16;
          rec_ttl = ttl % 2 ^ 16;
          code = timeout;
          printed = star;
        }
          ∷ [];
  }

  abbrev pub arrival : Loop K → Option TimeVal → TimeVal
  arrival s none = s.tvrecv
  arrival s (some tv) = tv

  -- After pr->recv
  unfoldable pub received : ℕ → Loop K → Outcome → Ending K
  received ttl s (returned timeout tv) = running (missed ttl (record s { tvrecv = arrival s tv }))
  received ttl s (returned time_exceeded tv) = running (replied ttl s time_exceeded (arrival s tv))
  received ttl s (returned port_unreachable tv) =
      running (replied ttl s port_unreachable (arrival s tv))
  received ttl s (returned (unreachable code) tv) =
      running (replied ttl s (unreachable code) (arrival s tv))
  received ttl s returned_unset = stopped returned_unset
  received ttl s died = stopped died
  received ttl s blocked = stopped blocked
  received ttl s fault = stopped fault

  unfoldable pub send_probe : ℕ → Loop K → Ending K
  send_probe ttl s =
      let r = recv (s.seq + 1) s.receiver in
      received ttl (record s { seq = s.seq + 1; receiver = r.1 }) r.0

  -- The inner loop, for the probes that are left
  unfoldable pub probe_loop : ℕ → ℕ → Loop K → Ending K
  probe_loop zero ttl s = running s
  probe_loop (suc left) ttl s = send_probe ttl s >>= probe_loop left ttl

  -- The outer loop, for the TTLs that are left; pr->salast is cleared for each.
  unfoldable pub ttl_loop : ℕ → ℕ → Loop K → Ending K
  ttl_loop zero ttl s = running s
  ttl_loop (suc left) ttl s = elim s.done [
    | zero ↦
        probe_loop nprobes ttl (record s { salast = replicate salen 0 }) >>= ttl_loop left (ttl + 1)
    | suc n ↦ running s
  ]

  unfoldable pub traceloop : ℕ → TimeVal → K → Ending K
  traceloop max_ttl tv k =
      ttl_loop max_ttl 1
        (record { seq = 0; done = 0; tvrecv = tv; salast = []; probes = []; receiver = k })
