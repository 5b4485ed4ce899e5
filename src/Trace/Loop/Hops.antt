-- ===== src/Trace/Loop/Hops.antt =====
-- What traceloop() sends, and where it stops.
use unix_network_programming.Prelude.{
  ℕ, zero, suc, ◌+◌, ◌*◌, ◌<◌, ◌≡◌, refl, ap, sym, ◌∙◌, subst, Option, List, [], ◌∷◌, ◌++◌,
  append-nil, append_assoc, arith, replicate,
}
use unix_network_programming.TimeVal.{TimeVal}
use unix_network_programming.Trace.{
  Reply, timeout, time_exceeded, port_unreachable, unreachable, Outcome, returned, Receiver,
  recv_v4,
}
use unix_network_programming.Trace.Recv.{Alive, recv_v4-Returns}
use unix_network_programming.Trace.Loop.{
  Probe, Loop, Ending, running, ◌>>=◌, replied, missed, received, send_probe, probe_loop, ttl_loop,
  traceloop,
}
use unix_network_programming.Trace.Loop.Sent.{at_destination, arrivals, SentAs, Sent, no_more, next}

-- The probes from a TTL on, with a bound for the number of TTLs: `nprobes` for each TTL, with numbers that
-- go on; the last TTL is the first with an arrival, or the bound is reached.
pub data Hops (dport nprobes : ℕ) : ℕ → ℕ → ℕ → List Probe → Type 0 where
  exhausted : {ttl seq : ℕ} → Hops dport nprobes 0 ttl seq []
  reached :
      {left ttl seq : ℕ} {ps : List Probe}
      → Sent dport ttl seq nprobes ps
      → 0 < arrivals ps
      → Hops dport nprobes (suc left) ttl seq ps
  onward :
      {left ttl seq : ℕ} {ps qs : List Probe}
      → Sent dport ttl seq nprobes ps
      → arrivals ps ≡ 0
      → Hops dport nprobes left (ttl + 1) (seq + nprobes) qs
      → Hops dport nprobes (suc left) ttl seq (ps ++ qs)

-- pr->recv returns a code; `Good n` says of its state that it does so for `n` more calls.
abbrev pub Answers : {K : Type 0} → (ℕ → K → Outcome × K) → (ℕ → K → Type 0) → Type 0
Answers {K} recv Good =
    (n seq : ℕ) (k : K)
    → Good (suc n) k
    → (r : Reply) × ((tv : Option TimeVal) × (((recv seq k).0 ≡ returned r tv)
          × Good n (recv seq k).1))

module _ {K : Type 0} (recv : ℕ → K → Outcome × K) (Good : ℕ → K → Type 0) (from : K → List ℕ)
    (clock : ℕ → TimeVal) (dport salen nprobes : ℕ) where
  -- A state that has come from `s` by one probe
  pub record OneProbe (g ttl : ℕ) (s : Loop K) (o : Ending K) : Type 0 where
    probe : Probe
    state : Loop K
    runs : o ≡ running state
    good : Good g state.receiver
    sent : SentAs dport ttl (s.seq + 1) probe
    seq : state.seq ≡ s.seq + 1
    done : state.done ≡ s.done + at_destination probe.code
    probes : state.probes ≡ s.probes ++ probe ∷ []

  -- By several probes
  pub record ManyProbes (g n ttl : ℕ) (s : Loop K) (o : Ending K) : Type 0 where
    ps : List Probe
    state : Loop K
    runs : o ≡ running state
    good : Good g state.receiver
    sent : Sent dport ttl s.seq n ps
    seq : state.seq ≡ s.seq + n
    done : state.done ≡ s.done + arrivals ps
    probes : state.probes ≡ s.probes ++ ps

  -- `s` is numbered for the probe already.
  OneProbe-received :
      (n ttl : ℕ) (s : Loop K) (k : K) (r : Reply) (tv : Option TimeVal)
      → Good n k
      → OneProbe n ttl s (
          received recv from clock dport salen nprobes ttl
            (record s { seq = s.seq + 1; receiver = k })
            (returned r tv))
  unfolding received replied missed
  OneProbe-received n ttl s k timeout tv g = record {
    probe = _;
    state = _;
    runs = refl;
    good = g;
    sent = (refl, refl, refl);
    seq = refl;
    done = omega arith;
    probes = refl;
  }
  OneProbe-received n ttl s k time_exceeded tv g = record {
    probe = _;
    state = _;
    runs = refl;
    good = g;
    sent = (refl, refl, refl);
    seq = refl;
    done = refl;
    probes = refl;
  }
  OneProbe-received n ttl s k port_unreachable tv g = record {
    probe = _;
    state = _;
    runs = refl;
    good = g;
    sent = (refl, refl, refl);
    seq = refl;
    done = refl;
    probes = refl;
  }
  OneProbe-received n ttl s k (unreachable code) tv g = record {
    probe = _;
    state = _;
    runs = refl;
    good = g;
    sent = (refl, refl, refl);
    seq = refl;
    done = refl;
    probes = refl;
  }

  OneProbe-send_probe :
      Answers recv Good
      → (n ttl : ℕ) (s : Loop K) → Good (suc n) s.receiver
      → OneProbe n ttl s (send_probe recv from clock dport salen nprobes ttl s)
  unfolding send_probe
  OneProbe-send_probe a n ttl s g =
      let k = (recv (s.seq + 1) s.receiver).1 in
      let (r, (tv, (e, g'))) = a n (s.seq + 1) s.receiver g in
      subst
        (λ o. OneProbe n ttl s (
          received recv from clock dport salen nprobes ttl
            (record s { seq = s.seq + 1; receiver = k }) o))
        (sym e) (OneProbe-received n ttl s k r tv g')

  ManyProbes-probe_loop :
      Answers recv Good
      → (g n ttl : ℕ) (s : Loop K) → Good (n + g) s.receiver
      → ManyProbes g n ttl s (probe_loop recv from clock dport salen nprobes n ttl s)
  unfolding probe_loop
  ManyProbes-probe_loop a g zero ttl s h = record {
    ps = [];
    state = s;
    runs = refl;
    good = subst (λ n. Good n s.receiver) {x = 0 + g} {y = g} (omega arith) h;
    sent = no_more;
    seq = omega arith;
    done = omega arith;
    probes = sym (append-nil s.probes);
  }
  ManyProbes-probe_loop a g (suc n) ttl s h =
      let x =
        OneProbe-send_probe a (n + g) ttl s
          (subst (λ n. Good n s.receiver) {x = suc n + g} {y = suc (n + g)} (omega arith) h) in
      let y = ManyProbes-probe_loop a g n ttl x.state x.good in
      record {
        ps = x.probe ∷ y.ps;
        state = y.state;
        runs = ap (λ o. o >>= probe_loop recv from clock dport salen nprobes n ttl) x.runs ∙ y.runs;
        good = y.good;
        sent = next x.probe x.sent (subst (λ i. Sent dport ttl i n y.ps) x.seq y.sent);
        seq = omega (arith, y.seq, x.seq);
        done = omega (arith, y.done, x.done);
        probes =
            y.probes ∙ ap (λ q. q ++ y.ps) x.probes ∙ append_assoc s.probes (x.probe ∷ []) y.ps;
      }

  -- What the outer loop adds to the probes
  pub record Traced (left ttl : ℕ) (s : Loop K) (o : Ending K) : Type 0 where
    ps : List Probe
    state : Loop K
    runs : o ≡ running state
    hops : Hops dport nprobes left ttl s.seq ps
    probes : state.probes ≡ s.probes ++ ps

  -- Once a probe has arrived, the loop is over.
  ttl_loop-done :
      (left ttl : ℕ) (s : Loop K)
      → 0 < s.done
      → ttl_loop recv from clock dport salen nprobes left ttl s ≡ running s
  unfolding ttl_loop
  ttl_loop-done zero ttl s h = refl
  ttl_loop-done (suc left) ttl s h = by_done s.done h
    where
      by_done :
          (n : ℕ)
          → 0 < n
          → elim n as (λ _. Ending K) [
            | zero ↦
                probe_loop recv from clock dport salen nprobes nprobes ttl
                  (record s { salast = replicate salen 0 })
                >>= ttl_loop recv from clock dport salen nprobes left (ttl + 1)
            | suc n ↦ running s
          ]
            ≡ running s
      by_done zero h = absurd (omega arith)
      by_done (suc n) h = refl

  -- The probes of one TTL, and the rest
  go : ℕ → ℕ → Loop K → Ending K
  go left ttl s =
      probe_loop recv from clock dport salen nprobes nprobes ttl
        (record s { salast = replicate salen 0 })
      >>= ttl_loop recv from clock dport salen nprobes left (ttl + 1)

  ttl_loop-go :
      (left ttl : ℕ) (s : Loop K)
      → s.done ≡ 0
      → ttl_loop recv from clock dport salen nprobes (suc left) ttl s ≡ go left ttl s
  unfolding ttl_loop go
  ttl_loop-go left ttl s d = by_done s.done d
    where
      by_done :
          (n : ℕ)
          → n ≡ 0
          → elim n as (λ _. Ending K) [
            | zero ↦
                probe_loop recv from clock dport salen nprobes nprobes ttl
                  (record s { salast = replicate salen 0 })
                >>= ttl_loop recv from clock dport salen nprobes left (ttl + 1)
            | suc n ↦ running s
          ]
            ≡ (probe_loop recv from clock dport salen nprobes nprobes ttl
                  (record s { salast = replicate salen 0 })
                >>= ttl_loop recv from clock dport salen nprobes left (ttl + 1))
      by_done zero h = refl
      by_done (suc n) h = absurd (omega arith)

  Traced-ttl_loop :
      Answers recv Good
      → (left ttl : ℕ) (s : Loop K) → Good (left * nprobes) s.receiver
      → s.done ≡ 0
      → Traced left ttl s (ttl_loop recv from clock dport salen nprobes left ttl s)
  unfolding ttl_loop go
  Traced-ttl_loop a zero ttl s h d = record {
    ps = [];
    state = s;
    runs = refl;
    hops = exhausted;
    probes = sym (append-nil s.probes);
  }
  Traced-ttl_loop a (suc left) ttl s h d =
      let x =
        ManyProbes-probe_loop a (left * nprobes) nprobes ttl
          (record s { salast = replicate salen 0 })
          (subst (λ n. Good n s.receiver) {x = suc left * nprobes} {y = nprobes + left * nprobes}
            (grind arith) h) in
      by_arrivals (ttl_loop-go left ttl s d) x (arrivals x.ps) refl
        (Traced-ttl_loop a left (ttl + 1) x.state x.good)
    where
      by_arrivals :
          ttl_loop recv from clock dport salen nprobes (suc left) ttl s ≡ go left ttl s
          → (x : ManyProbes
              (left * nprobes)
              nprobes
              ttl
              (record s { salast = replicate salen 0 })
              (probe_loop recv from clock dport salen nprobes nprobes ttl
                (record s { salast = replicate salen 0 })))
          → (n : ℕ) → arrivals x.ps ≡ n
          → (x.state.done ≡ 0
              → Traced left
                  (ttl + 1)
                  x.state
                  (ttl_loop recv from clock dport salen nprobes left (ttl + 1) x.state))
          → Traced (suc left) ttl s (ttl_loop recv from clock dport salen nprobes (suc left) ttl s)
      by_arrivals g x zero e ih =
          let y = ih (omega (arith, x.done, e, d)) in
          record {
            ps = x.ps ++ y.ps;
            state = y.state;
            runs =
                g
                ∙ ap (λ o. o >>= ttl_loop recv from clock dport salen nprobes left (ttl + 1)) x.runs
                ∙ y.runs;
            hops =
                onward x.sent e
                  (subst (λ i. Hops dport nprobes left (ttl + 1) i y.ps) x.seq y.hops);
            probes = y.probes ∙ ap (λ q. q ++ y.ps) x.probes ∙ append_assoc s.probes x.ps y.ps;
          }
      by_arrivals g x (suc n) e ih = record {
        ps = x.ps;
        state = x.state;
        runs =
            g
            ∙ ap (λ o. o >>= ttl_loop recv from clock dport salen nprobes left (ttl + 1)) x.runs
            ∙ ttl_loop-done left (ttl + 1) x.state (omega (arith, x.done, e));
        hops = reached x.sent (omega (arith, e));
        probes = x.probes;
      }

  -- If pr->recv returns a code for as many calls as there can be probes, traceloop() ends.
  pub traceloop-Hops :
      Answers recv Good
      → (max_ttl : ℕ) (tv : TimeVal) (k : K) → Good (max_ttl * nprobes) k
      → (s : Loop K) × ((traceloop recv from clock dport salen nprobes max_ttl tv k ≡ running s)
          × Hops dport nprobes max_ttl 1 0 s.probes)
  unfolding traceloop
  traceloop-Hops a max_ttl tv k h =
      let x =
        Traced-ttl_loop a max_ttl 1
          (record { seq = 0; done = 0; tvrecv = tv; salast = []; probes = []; receiver = k }) h
          refl in
      (x.state, (x.runs, subst (Hops dport nprobes max_ttl 1 0) (sym x.probes) x.hops))

-- recvfrom() only gives messages of at least one byte or is interrupted, and the alarm goes off in it, or
-- while its message is looked at, as often as there can be probes. Then traceloop() with recv_v4() ends,
-- whatever the network sends. The probes are `nprobes` for each TTL from 1 on, at most `max_ttl` TTLs;
-- their numbers are 1, 2, 3 and so on, and each goes to the port `dport` plus its number, with the
-- number and the TTL in it, all modulo 2^16. The last TTL is the first one for which recv_v4() finds
-- the port unreachable, if there is one.
pub traceloop-recv_v4 :
    (sport dport salen nprobes max_ttl : ℕ) (clock : ℕ → TimeVal) (tv : TimeVal) (k : Receiver)
    → Alive (max_ttl * nprobes) k
    → (s : Loop Receiver) × ((traceloop
            (recv_v4 sport dport)
            (λ k. k.sarecv)
            clock
            dport
            salen
            nprobes
            max_ttl
            tv
            k
          ≡ running s)
        × Hops dport nprobes max_ttl 1 0 s.probes)
traceloop-recv_v4 sport dport salen nprobes max_ttl clock tv k h =
    traceloop-Hops (recv_v4 sport dport) Alive (λ k. k.sarecv) clock dport salen nprobes
      (λ n seq k g. recv_v4-Returns sport dport seq n k g) max_ttl tv k h
