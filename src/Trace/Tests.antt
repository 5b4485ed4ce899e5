-- ===== src/Trace/Tests.antt =====
-- Messages that traceroute receives, and the theorems at concrete values.
use unix_network_programming.Prelude.{
  ℕ, ◌≡◌, refl, true, false, some, List, [], ◌∷◌, ◌++◌, arith, replicate,
}
use unix_network_programming.Prelude.Codes.{codes}
use unix_network_programming.Prelude.Int.{pos}
use unix_network_programming.TimeVal.{TimeVal}
use unix_network_programming.Gai.Names.{decimal}
use unix_network_programming.Trace.{
  port_unreachable, answer, again, unset, outside, is_ours, inner_v4, inner_v6, verdict_v4,
  verdict_v6, message, eintr, Receiver, returned, after_message, recv_loop, recv_v4,
}
use unix_network_programming.Trace.Reads.{Agree, verdicts-Agree}
use unix_network_programming.Trace.Quoted.{quoting, verdicts-answered}
use unix_network_programming.Trace.Icmpcode.{icmpcode_v4, icmpcode_v6, unknown_code}
use unix_network_programming.Trace.Loop.{Loop, running, traceloop}
use unix_network_programming.Trace.Loop.Hops.{Hops, traceloop-recv_v4}

abbrev header : List ℕ
header = 0x45 ∷ 0 ∷ 0 ∷ 56 ∷ 0 ∷ 0 ∷ 0 ∷ 0 ∷ 64 ∷ 1 ∷ 0 ∷ 0 ∷ 10 ∷ 0 ∷ 0 ∷ 1 ∷ 10 ∷ 0 ∷ 0 ∷ 2 ∷ []

abbrev inner : List ℕ
inner = 0x45 ∷ 0 ∷ 0 ∷ 40 ∷ 0 ∷ 0 ∷ 0 ∷ 0 ∷ 1 ∷ 17 ∷ 0 ∷ 0 ∷ 10 ∷ 0 ∷ 0 ∷ 2 ∷ 10 ∷ 0 ∷ 0 ∷ 3 ∷ []

abbrev inner6 : List ℕ
inner6 = 0x60 ∷ 0 ∷ 0 ∷ 0 ∷ 0 ∷ 20 ∷ 17 ∷ 1 ∷ replicate 32 0

-- A port unreachable for the datagram from 40000 to 33436
abbrev icmp : List ℕ
icmp = 3 ∷ 3 ∷ 0 ∷ 0 ∷ 0 ∷ 0 ∷ 0 ∷ 0 ∷ []

abbrev udp_bytes : List ℕ
udp_bytes = 156 ∷ 64 ∷ 130 ∷ 156 ∷ []

abbrev arrival : List ℕ
arrival = quoting header icmp inner udp_bytes

arrival_verdict : verdict_v4 40000 33434 2 arrival 52 ≡ answer port_unreachable
unfolding verdict_v4 inner_v4 is_ours
arrival_verdict = refl

verdicts-answered_example :
    (verdict_v4 40000 33434 2 arrival 52 ≡ answer port_unreachable)
    × (verdict_v6 40000 33434 2 (quoting [] icmp inner6 udp_bytes) 52 ≡ again)
verdicts-answered_example =
    verdicts-answered 40000 33434 2 3 3 17 156 64 130 156 icmp [] refl refl refl header inner inner6
      0x45 0x45 (refl, refl) (refl, refl) (omega arith) refl refl refl

-- A hop limit exceeded for another program's datagram: recv_v6() returns what is in `ret`.
hop_limit_unset :
    verdict_v6 40000 33434 2 (quoting [] (3 ∷ 0 ∷ replicate 6 0) inner6 (0 ∷ 53 ∷ 0 ∷ 53 ∷ [])) 52
    ≡ unset
unfolding verdict_v6 inner_v6 is_ours
hop_limit_unset = refl

verdicts-Agree_example :
    Agree outside
      (verdict_v4 40000 33434 2 (arrival ++ replicate 9 7) 52)
      (verdict_v4 40000 33434 2 arrival 52)
    × Agree outside
        (verdict_v6 40000 33434 2 (arrival ++ replicate 9 7) 52)
        (verdict_v6 40000 33434 2 arrival 52)
verdicts-Agree_example = verdicts-Agree arrival (replicate 9 7) 40000 33434 2 (omega arith)

abbrev noon : TimeVal
noon = record { tv_sec = pos 43200; tv_usec = pos 0 }

-- Two probes for the first TTL: no answer; and an answer, after an interruption. The alarm goes off twice.
abbrev kernel : Receiver
kernel = record {
  recvbuf = replicate 60 0;
  sarecv = [];
  rounds =
      record { recvfrom = eintr; alarm = true; now = noon }
      ∷ record { recvfrom = eintr; alarm = false; now = noon }
      ∷ record { recvfrom = message arrival (10 ∷ 0 ∷ 0 ∷ 3 ∷ []); alarm = true; now = noon }
      ∷ [];
}

second_probe :
    (recv_v4 40000 33434 2 (record kernel {
      rounds = record { recvfrom = message arrival []; alarm = true; now = noon } ∷ [];
    })).0
    ≡ returned port_unreachable (some noon)
unfolding recv_v4 recv_loop after_message verdict_v4 inner_v4 is_ours
second_probe = refl

traceloop-recv_v4_example :
    (s : Loop Receiver) × ((traceloop
          (recv_v4 40000 33434)
          (λ k. k.sarecv)
          (λ seq. noon)
          33434
          4
          2
          1
          noon
          kernel
        ≡ running s)
      × Hops 33434 2 1 1 0 s.probes)
traceloop-recv_v4_example =
    traceloop-recv_v4 40000 33434 4 2 1 (λ seq. noon) noon kernel
      ((tt, (tt, (omega arith, tt))), omega arith)

names : icmpcode_v4 1 ≡ codes "host unreachable"
unfolding icmpcode_v4
names = refl

no_name : icmpcode_v6 7 ≡ codes "[unknown code 7]"
unfolding icmpcode_v6 unknown_code decimal
no_name = refl
