-- ===== src/Rtt/Exchange/Attempts.antt =====
-- How often a request is sent, and what is taken for its reply.
use unix_network_programming.Prelude.{
  ℕ, suc, ◌+◌, ◌-◌, ◌%◌, ◌^◌, ◌≤◌, ◌≡◌, refl, ap, sym, ◌∙◌, subst, ◌⊎◌, inl, inr, Bool, true, false,
  not, ◌||◌, List, [], ◌∷◌, ◌++◌, append-nil, append_assoc, arith, ltb, ◌==◌, if◌then◌else◌, length,
}
use unix_network_programming.Rtt.{Floats, RttInfo, Timeval, rtt_maxnrexmt, rtt_timeout}
use unix_network_programming.Rtt.Exchange.{
  Event, alarm, datagram, Caller, Result, returned, gave_up, waiting, send, timed_out, stop, wait,
  next_packet, dg_send_recv,
}

-- Among the events is a datagram with this sequence number and `n` bytes behind its header.
abbrev pub Replied : ℕ → ℕ → List Event → Type 0
Replied seq n [] = ⊥
Replied seq n (alarm ∷ es) = Replied seq n es
Replied seq n (datagram m s ts ∷ es) = ((m ≡ n + 8) × (s ≡ seq)) ⊎ Replied seq n es

abbrev pub alarms : List Event → ℕ
alarms [] = 0
alarms (alarm ∷ es) = suc (alarms es)
alarms (datagram n seq ts ∷ es) = alarms es

abbrev pub AllSeq : ℕ → List (ℕ × ℕ) → Type 0
AllSeq seq [] = Unit
AllSeq seq (h ∷ hs) = (h.0 ≡ seq) × AllSeq seq hs

module _ {Float Double : Type 0} (f : Floats Float Double) (now : ℕ → Timeval) where
  -- From `c` to `t`, `n` datagrams are sent, all with this sequence number.
  pub record Sends (n seq : ℕ) (c t : Caller Float) : Type 0 where
    pub new : List (ℕ × ℕ)
    pub sent : t.sent ≡ c.sent ++ new
    pub count : length new ≡ n
    pub all : AllSeq seq new

  -- How a call ends that has sent its request again `k` times before `c`.
  abbrev pub Ends : ℕ → ℕ → Caller Float → List Event → Result Float → Type 0
  Ends k seq c es (returned n t) =
      Replied seq n es × (j : ℕ) × (j + k ≤ rtt_maxnrexmt) × Sends j seq c t
  Ends k seq c es (gave_up t) =
      (t.rttinit ≡ false) × (j : ℕ) × (j + k ≡ rtt_maxnrexmt) × Sends j seq c t
  Ends k seq c es (waiting t) = (alarms es + k ≤ rtt_maxnrexmt) × ((n : ℕ) → Replied seq n es → ⊥)

  Sends-none : (seq : ℕ) (c t : Caller Float) → t.sent ≡ c.sent → Sends 0 seq c t
  Sends-none seq c t e = record {
    new = [];
    sent = e ∙ sym (append-nil c.sent);
    count = refl;
    all = tt;
  }

  Sends-suc :
      (j seq : ℕ) (c d t : Caller Float) (ts : ℕ)
      → d.sent ≡ c.sent ++ (seq, ts) ∷ []
      → Sends j seq d t
      → Sends (j + 1) seq c t
  Sends-suc j seq c d t ts e h = record {
    new = (seq, ts) ∷ h.new;
    sent = h.sent ∙ ap (λ l. l ++ h.new) e ∙ append_assoc c.sent ((seq, ts) ∷ []) h.new;
    count = omega (arith, h.count);
    all = (refl, h.all);
  }

  resent-Ends :
      (k : ℕ) (c d : Caller Float) (ts : ℕ) (es : List Event) (r : Result Float)
      → d.sent ≡ c.sent ++ (c.seq, ts) ∷ []
      → Ends (k + 1) c.seq d es r
      → Ends k c.seq c (alarm ∷ es) r
  resent-Ends k c d ts es (returned n t) e (w, j, le, s) =
      (w, j + 1, omega arith, Sends-suc j c.seq c d t ts e s)
  resent-Ends k c d ts es (gave_up t) e (w, j, eq, s) =
      (w, j + 1, omega arith, Sends-suc j c.seq c d t ts e s)
  resent-Ends k c d ts es (waiting t) e (le, w) = (omega arith, w)

  alarm-Ends :
      (c : Caller Float) (es : List Event) (b : Bool) (p : RttInfo Float)
      → ltb rtt_maxnrexmt (c.rttinfo.rtt_nrexmt + 1) ≡ b
      → c.rttinfo.rtt_nrexmt ≤ rtt_maxnrexmt
      → p.rtt_nrexmt ≡ c.rttinfo.rtt_nrexmt + 1
      → ((d : Caller Float)
          → d.rttinfo.rtt_nrexmt ≤ rtt_maxnrexmt
          → Ends d.rttinfo.rtt_nrexmt d.seq d es (wait f now d es))
      → Ends c.rttinfo.rtt_nrexmt c.seq c
          (alarm ∷ es)
          (timed_out f now (λ d. wait f now d es) c (b, p))
  unfolding timed_out
  alarm-Ends c es true p e h q ih =
      (refl, 0, ground arith, Sends-none c.seq c (record c { rttinfo = p; rttinit = false }) refl)
  alarm-Ends c es false p e h q ih =
      let d : Caller Float = send f now (record c { rttinfo = p }) in
      resent-Ends c.rttinfo.rtt_nrexmt c d d.ts es (wait f now d es) refl
        (subst (λ k. Ends k c.seq d es (wait f now d es)) q (ih d (ground arith)))

  datagram-Ends :
      (k seq n s ts : ℕ) (c t : Caller Float) (es : List Event) (b : Bool) (r : Result Float)
      → (ltb n 8 || not (s == seq)) ≡ b
      → k ≤ rtt_maxnrexmt
      → t.sent ≡ c.sent
      → Ends k seq c es r
      → Ends k seq c (datagram n s ts ∷ es) (if b then r else returned (n - 8) t)
  datagram-Ends k seq n s ts c t es false r e h q w =
      (inl (ground arith), 0, omega arith, Sends-none seq c t q)
  datagram-Ends k seq n s ts c t es true (returned m u) e h q (w, j, le, v) = (inr w, j, le, v)
  datagram-Ends k seq n s ts c t es true (gave_up u) e h q w = w
  datagram-Ends k seq n s ts c t es true (waiting u) e h q (le, w) = (le, λ m. unmatched m)
    where
      unmatched : (m : ℕ) → ((n ≡ m + 8) × (s ≡ seq)) ⊎ Replied seq m es → ⊥
      unmatched m (inl (e1, e2)) = ground arith
      unmatched m (inr v) = w m v

  wait-Ends :
      (es : List Event) (c : Caller Float)
      → c.rttinfo.rtt_nrexmt ≤ rtt_maxnrexmt
      → Ends c.rttinfo.rtt_nrexmt c.seq c es (wait f now c es)
  unfolding wait rtt_timeout
  wait-Ends [] c h = (omega arith, λ n w. w)
  wait-Ends (alarm ∷ es) c h = alarm-Ends c es _ _ refl h refl (wait-Ends es)
  wait-Ends (datagram n seq ts ∷ es) c h =
      datagram-Ends c.rttinfo.rtt_nrexmt c.seq n seq ts c (stop f now c ts) es
        (ltb n 8 || not (seq == c.seq)) (wait f now c es) refl h refl (wait-Ends es c h)

  -- How dg_send_recv() ends, with the sequence number of this call.
  abbrev pub Concludes : ℕ → Caller Float → List Event → Result Float → Type 0
  Concludes seq c es (returned n t) =
      Replied seq n es × (j : ℕ) × (1 ≤ j) × (j ≤ 1 + rtt_maxnrexmt) × Sends j seq c t
  Concludes seq c es (gave_up t) = (t.rttinit ≡ false) × Sends (1 + rtt_maxnrexmt) seq c t
  Concludes seq c es (waiting t) = (alarms es ≤ rtt_maxnrexmt) × ((n : ℕ) → Replied seq n es → ⊥)

  Ends-Concludes :
      (c d : Caller Float) (ts : ℕ) (es : List Event) (r : Result Float)
      → d.sent ≡ c.sent ++ (d.seq, ts) ∷ []
      → Ends 0 d.seq d es r
      → Concludes d.seq c es r
  Ends-Concludes c d ts es (returned n t) e (w, j, le, s) =
      (w, j + 1, omega arith, omega arith, Sends-suc j d.seq c d t ts e s)
  Ends-Concludes c d ts es (gave_up t) e (w, j, eq, s) = (
    w,
    subst (λ n. Sends n d.seq c t) {x = j + 1} {y = 4} (omega arith)
        (Sends-suc j d.seq c d t ts e s),
  )
  Ends-Concludes c d ts es (waiting t) e (le, w) = (omega arith, w)

  from-Concludes :
      (c d : Caller Float) (es : List Event)
      → d.sent ≡ c.sent
      → d.seq ≡ c.seq
      → Concludes ((c.seq + 1) % 2 ^ 32) c es (wait f now (send f now (next_packet f now d)) es)
  from-Concludes c d es e q =
      let p : Caller Float = send f now (next_packet f now d) in
      subst (λ seq. Concludes ((seq + 1) % 2 ^ 32) c es (wait f now p es)) q
        (Ends-Concludes c p p.ts es (wait f now p es) (ap (λ l. l ++ (p.seq, p.ts) ∷ []) e)
          (wait-Ends es p (omega arith)))

  either-Concludes :
      (c d : Caller Float) (es : List Event) (b : Bool)
      → d.sent ≡ c.sent
      → d.seq ≡ c.seq
      → Concludes
          ((c.seq + 1) % 2 ^ 32)
          c
          es
          (wait f now (send f now (next_packet f now (if b then c else d))) es)
  either-Concludes c d es true e q = from-Concludes c c es refl refl
  either-Concludes c d es false e q = from-Concludes c d es e q

  -- Whatever comes, a call of dg_send_recv() returns only with a datagram that has its sequence number
  -- and as many bytes behind the header as it returns, after one to four requests; it gives up only
  -- after four requests, and then the next call initialises the timer again; all its requests have
  -- the next sequence number; and it still waits only if there were at most three timeouts and no reply.
  pub dg_send_recv-Concludes :
      (c : Caller Float) (es : List Event)
      → Concludes ((c.seq + 1) % 2 ^ 32) c es (dg_send_recv f now c es)
  unfolding dg_send_recv
  dg_send_recv-Concludes c es = either-Concludes c _ es c.rttinit refl refl
