-- ===== src/Trace/Loop/Sent.antt =====
-- The probes of one TTL, as they are sent.
use unix_network_programming.Prelude.{ℕ, suc, ◌+◌, ◌%◌, ◌^◌, ◌≡◌, List, [], ◌∷◌}
use unix_network_programming.Trace.{Reply, timeout, time_exceeded, port_unreachable, unreachable}
use unix_network_programming.Trace.Loop.{Probe}

-- The destination says that it has no such port.
abbrev pub at_destination : Reply → ℕ
at_destination timeout = 0
at_destination time_exceeded = 0
at_destination port_unreachable = 1
at_destination (unreachable code) = 0

-- The probes whose answer says that the destination is reached
abbrev pub arrivals : List Probe → ℕ
arrivals [] = 0
arrivals (p ∷ ps) = at_destination p.code + arrivals ps

-- `p` was sent as the probe number `seq`.
abbrev pub SentAs : ℕ → ℕ → ℕ → Probe → Type 0
SentAs dport ttl seq p =
    (p.port ≡ (dport + seq) % 2 ^ 16) × (p.rec_seq ≡ seq % 2 ^ 16) × (p.rec_ttl ≡ ttl % 2 ^ 16)

-- The probes of one TTL, `n` of them behind the number `seq`
pub data Sent (dport ttl : ℕ) : ℕ → ℕ → List Probe → Type 0 where
  no_more : {seq : ℕ} → Sent dport ttl seq 0 []
  next :
      {seq n : ℕ} (p : Probe) {ps : List Probe}
      → SentAs dport ttl (seq + 1) p
      → Sent dport ttl (seq + 1) n ps
      → Sent dport ttl seq (suc n) (p ∷ ps)
