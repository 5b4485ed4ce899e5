-- ===== src/Trace.antt =====
-- traceroute/recv_v4.c and recv_v6.c: the ICMP message that answers a probe.
pub mod Reads
pub mod Inner
pub mod Quoted
pub mod Recv
pub mod Icmpcode
pub mod Loop
mod Tests
use unix_network_programming.Prelude.{
  ℕ, zero, suc, ◌+◌, ◌-◌, ◌*◌, ◌%◌, ◌^◌, Bool, true, false, ◌&&◌, Option, none, some, List, [], ◌∷◌,
  ◌++◌, ltb, ◌==◌, if◌then◌else◌, length, get_elem?, take, drop,
}
use unix_network_programming.TimeVal.{TimeVal}

-- What recv_v4() and recv_v6() return: -3, -2, -1 and the other codes.
pub data Reply : Type 0 where
  timeout time_exceeded port_unreachable : Reply
  unreachable : ℕ → Reply

-- What becomes of a message: an answer; `recvfrom() again`; a return of `ret` without a value; an
-- access outside recvbuf[].
pub data Verdict : Type 0 where
  answer : Reply → Verdict
  again unset outside : Verdict

-- A byte of recvbuf[]
abbrev pub byte : List ℕ → ℕ → (ℕ → Verdict) → Verdict
byte buf i f = elim (get_elem? buf i) [ none ↦ outside | some b ↦ f b ]

-- A port, in host order
abbrev pub port_at : List ℕ → ℕ → (ℕ → Verdict) → Verdict
port_at buf i f = byte buf i (λ b0. byte buf (i + 1) (λ b1. f (b0 * 256 + b1)))

-- `dport + seq`, as a `u_short`
abbrev pub probe_port : ℕ → ℕ → ℕ
probe_port dport seq = (dport + seq) % 2 ^ 16

abbrev pub unreach : ℕ → ℕ → Reply
unreach port_code code = if code == port_code then port_unreachable else unreachable code

module _ (sport dport seq : ℕ) (buf : List ℕ) where
  -- The test for the probe: the protocol, and the ports of the UDP header at `at`
  unfoldable pub is_ours : ℕ → ℕ → (Bool → Verdict) → Verdict
  is_ours proto at f =
      if proto == 17
      then port_at buf at (λ s.
        if s == sport then port_at buf (at + 2) (λ d. f (d == probe_port dport seq)) else f false)
      else f false

  -- The inner IPv4 header
  unfoldable pub inner_v4 : ℕ → ℕ → (Bool → Verdict) → Verdict
  inner_v4 icmplen hlen1 f =
      if ltb icmplen (8 + 20)
      then again
      else byte buf (hlen1 + 8) (λ vhl.
        let hlen2 = vhl % 16 * 4 in
        if ltb icmplen (8 + hlen2 + 4)
        then again
        else byte buf (hlen1 + 8 + 9) (λ proto. is_ours proto (hlen1 + 8 + hlen2) f))

  -- A turn of recv_v4() with `n` bytes
  unfoldable pub verdict_v4 : ℕ → Verdict
  verdict_v4 n = byte buf 0 (λ vhl.
      let hlen1 = vhl % 16 * 4 in
      if ltb n (hlen1 + 8)
      then again
      else byte buf hlen1 (λ type. byte buf (hlen1 + 1) (λ code.
        if type == 11 && code == 0
        then inner_v4 (n - hlen1) hlen1 (λ b. if b then answer time_exceeded else again)
        else if type == 3
        then inner_v4 (n - hlen1) hlen1 (λ b. if b then answer (unreach 3 code) else again)
        else again)))

  -- The inner IPv6 header
  unfoldable pub inner_v6 : ℕ → (Bool → Verdict) → Verdict
  inner_v6 icmp6len f =
      if ltb icmp6len (8 + 40 + 4) then again else byte buf (8 + 6) (λ nxt. is_ours nxt (8 + 40) f)

  -- A turn of recv_v6(): the `break` for an exceeded hop limit is outside its `if`.
  unfoldable pub verdict_v6 : ℕ → Verdict
  verdict_v6 n =
      if ltb n 8
      then again
      else byte buf 0 (λ type. byte buf 1 (λ code.
        if type == 3 && code == 0
        then inner_v6 n (λ b. if b then answer time_exceeded else unset)
        else if type == 1
        then inner_v6 n (λ b. if b then answer (unreach 4 code) else again)
        else again))

-- BUFSIZE
abbrev pub bufsize : ℕ
bufsize = 1500

-- What recvfrom() gives: the message and its sender's address, as the bytes of the family and the address.
pub data Recvfrom : Type 0 where
  message : List ℕ → List ℕ → Recvfrom
  eintr : Recvfrom
  failed : Recvfrom

-- A turn of the loop: what recvfrom() gives, whether the alarm goes off before the next test of
-- `gotalarm`, and the time of day behind it.
pub record Round : Type 0 where
  pub recvfrom : Recvfrom
  pub alarm : Bool
  pub now : TimeVal

-- recvbuf[], pr->sarecv, and what the kernel has still to give
pub record Receiver : Type 0 where
  pub recvbuf : List ℕ
  pub sarecv : List ℕ
  pub rounds : List Round

-- How a call of recv_v4() or recv_v6() ends; `blocked`: recvfrom() never returns.
pub data Outcome : Type 0 where
  returned : Reply → Option TimeVal → Outcome
  returned_unset died blocked fault : Outcome

-- recvbuf[] after recvfrom()
abbrev pub received : List ℕ → List ℕ → List ℕ
received buf msg = take bufsize msg ++ drop (length msg) buf

abbrev pub received_size : List ℕ → ℕ
received_size msg = length (take bufsize msg)

-- `k` is the rest of the loop, on recvbuf[] and the address.
unfoldable pub after_message :
    Verdict
    → List ℕ
    → List ℕ
    → TimeVal
    → List Round
    → (List ℕ → List ℕ → Outcome × Receiver)
    → Outcome × Receiver
after_message (answer r) buf from now rs k =
    (returned r (some now), record { recvbuf = buf; sarecv = from; rounds = rs })
after_message again buf from now rs k = k buf from
after_message unset buf from now rs k =
    (returned_unset, record { recvbuf = buf; sarecv = from; rounds = rs })
after_message outside buf from now rs k =
    (fault, record { recvbuf = buf; sarecv = from; rounds = rs })

module _ (verdict : List ℕ → ℕ → Verdict) where
  -- The loop, with `gotalarm`
  unfoldable pub recv_loop : Bool → List ℕ → List ℕ → List Round → Outcome × Receiver
  recv_loop true buf from rs =
      (returned timeout none, record { recvbuf = buf; sarecv = from; rounds = rs })
  recv_loop false buf from [] = (blocked, record { recvbuf = buf; sarecv = from; rounds = [] })
  recv_loop false buf from (r ∷ rs) = elim r.recvfrom [
    | message msg sender ↦
        after_message (verdict (received buf msg) (received_size msg)) (received buf msg) sender
          r.now rs (λ b f. recv_loop r.alarm b f rs)
    | eintr ↦ recv_loop r.alarm buf from rs
    | failed ↦ (died, record { recvbuf = buf; sarecv = from; rounds = rs })
  ]

unfoldable pub recv_v4 : ℕ → ℕ → ℕ → Receiver → Outcome × Receiver
recv_v4 sport dport seq s = recv_loop (verdict_v4 sport dport seq) false s.recvbuf s.sarecv s.rounds

unfoldable pub recv_v6 : ℕ → ℕ → ℕ → Receiver → Outcome × Receiver
recv_v6 sport dport seq s = recv_loop (verdict_v6 sport dport seq) false s.recvbuf s.sarecv s.rounds
