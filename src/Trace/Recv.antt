-- ===== src/Trace/Recv.antt =====
-- The loop of recv_v4() ends.
use unix_network_programming.Prelude.{
  ℕ, suc, ◌+◌, ◌<◌, ◌≤◌, ◌≡◌, refl, sym, ◌∙◌, Bool, true, false, if◌then◌else◌, Option, none, some,
  List, [], ◌∷◌, arith, length, take, drop, length-take,
}
use unix_network_programming.TimeVal.{TimeVal}
use unix_network_programming.Trace.{
  Reply, timeout, Verdict, answer, again, unset, outside, Recvfrom, message, eintr, failed, Round,
  Receiver, Outcome, returned, received, received_size, bufsize, after_message, recv_loop, recv_v4,
  verdict_v4,
}
use unix_network_programming.Trace.Reads.{verdict_v4-Agree}

abbrev pub flag : Bool → ℕ
flag b = if b then 1 else 0

-- The rounds in which the alarm goes off
abbrev pub alarms : List Round → ℕ
alarms [] = 0
alarms (r ∷ rs) = flag r.alarm + alarms rs

-- recvfrom() fails by an interruption at most, and gives messages that are not empty.
abbrev pub Delivers : Recvfrom → Type 0
Delivers (message msg from) = 0 < length msg
Delivers eintr = Unit
Delivers failed = ⊥

abbrev pub AllDeliver : List Round → Type 0
AllDeliver [] = Unit
AllDeliver (r ∷ rs) = Delivers r.recvfrom × AllDeliver rs

-- The kernel has at least `n` more alarms.
abbrev pub Alive : ℕ → Receiver → Type 0
Alive n s = AllDeliver s.rounds × (n ≤ alarms s.rounds)

abbrev pub Returns : ℕ → Outcome × Receiver → Type 0
Returns n o = (r : Reply) × ((t : Option TimeVal) × ((o.0 ≡ returned r t) × Alive n o.1))

module _ (sport dport seq : ℕ) where
  verdict_v4-good :
      (bad : Verdict)
      → (again ≡ bad → ⊥)
      → ((r : Reply) → answer r ≡ bad → ⊥)
      → (buf msg : List ℕ) → 0 < length msg
      → verdict_v4 sport dport seq (received buf msg) (received_size msg) ≡ bad
      → ⊥
  verdict_v4-good bad na nr buf msg h e =
      let p =
        verdict_v4-Agree bad na nr (take bufsize msg) (drop (length msg) buf) sport dport seq
          (omega (arith, length-take bufsize msg)) in
      p.1 (sym p.0 ∙ e)

  Returns-if :
      (n : ℕ) (v : Verdict) (buf from : List ℕ) (now : TimeVal) (rs : List Round)
      (k : List ℕ → List ℕ → Outcome × Receiver)
      → (v ≡ unset → ⊥)
      → (v ≡ outside → ⊥)
      → AllDeliver rs
      → n ≤ alarms rs
      → ((b f : List ℕ) → Returns n (k b f))
      → Returns n (after_message v buf from now rs k)
  unfolding after_message
  Returns-if n (answer r) buf from now rs k u o d a h = (r, (some now, (refl, (d, a))))
  Returns-if n again buf from now rs k u o d a h = h buf from
  Returns-if n unset buf from now rs k u o d a h = absurd (u refl)
  Returns-if n outside buf from now rs k u o d a h = absurd (o refl)

  flag_le : (b : Bool) (m n : ℕ) → suc n ≤ flag b + m → n ≤ m
  flag_le true m n h = omega arith
  flag_le false m n h = omega arith

  recv_loop-Returns :
      (n : ℕ) (b : Bool) (buf from : List ℕ) (rs : List Round)
      → suc n ≤ flag b + alarms rs
      → AllDeliver rs
      → Returns n (recv_loop (verdict_v4 sport dport seq) b buf from rs)
  unfolding recv_loop
  recv_loop-Returns n true buf from rs a d = (timeout, (none, (refl, (d, omega arith))))
  recv_loop-Returns n false buf from [] a d = absurd (omega arith)
  recv_loop-Returns n false buf from (r ∷ rs) a (d, ds) =
      by_recvfrom r.recvfrom d (λ b f. recv_loop-Returns n r.alarm b f rs (omega arith) ds)
    where
      by_recvfrom :
          (x : Recvfrom)
          → Delivers x
          → ((b f : List ℕ) → Returns n (recv_loop (verdict_v4 sport dport seq) r.alarm b f rs))
          → Returns n (elim x as (λ _. Outcome × Receiver) [
            | message msg sender ↦
                after_message
                  (verdict_v4 sport dport seq (received buf msg) (received_size msg))
                  (received buf msg)
                  sender
                  r.now
                  rs
                  (λ b f. recv_loop (verdict_v4 sport dport seq) r.alarm b f rs)
            | eintr ↦ recv_loop (verdict_v4 sport dport seq) r.alarm buf from rs
            | failed ↦ (Outcome.died, record { recvbuf = buf; sarecv = from; rounds = rs })
          ])
      by_recvfrom (message msg sender) d ih =
          Returns-if n (verdict_v4 sport dport seq (received buf msg) (received_size msg))
            (received buf msg) sender r.now rs
            (λ b f. recv_loop (verdict_v4 sport dport seq) r.alarm b f rs)
            (verdict_v4-good unset (λ e. cc) (λ r e. cc) buf msg d)
            (verdict_v4-good outside (λ e. cc) (λ r e. cc) buf msg d) ds
            (flag_le r.alarm (alarms rs) n (omega arith)) λ b f. ih b f
      by_recvfrom eintr d ih = ih buf from
      by_recvfrom failed d ih = absurd d

  -- recv_v4() returns, and uses up one alarm at most.
  pub recv_v4-Returns :
      (n : ℕ) (s : Receiver) → Alive (suc n) s → Returns n (recv_v4 sport dport seq s)
  unfolding recv_v4
  recv_v4-Returns n s (d, a) = recv_loop-Returns n false s.recvbuf s.sarecv s.rounds (omega arith) d
