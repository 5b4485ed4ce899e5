-- ===== src/Rtt/Exchange.antt =====
-- rtt/dg_send_recv.c: a request is sent again until its reply comes or the timer gives up. `now` is
-- what each call of Gettimeofday() gives, and an `Event` is what ends a wait in Recvmsg().
pub mod Attempts
use unix_network_programming.Prelude.{
  ℕ, zero, suc, ◌+◌, ◌-◌, ◌%◌, ◌^◌, Bool, true, false, not, ◌||◌, List, [], ◌∷◌, ◌++◌, ltb, ◌==◌,
  if◌then◌else◌,
}
use unix_network_programming.Rtt.{
  Floats, RttInfo, Timeval, sub_uint32, rtt_init, rtt_start, rtt_stop, rtt_timeout, rtt_newpack,
  rtt_ts,
}

-- SIGALRM, or a datagram: its size, and `seq` and `ts` of its header.
pub data Event : Type 0 where
  alarm : Event
  datagram : ℕ → ℕ → ℕ → Event

-- The statics of the file. `clock` counts the calls of Gettimeofday(), `sent` has the header of each
-- datagram sent, and `timers` the seconds of each alarm().
pub record Caller (Float : Type 0) : Type 0 where
  pub rttinfo : RttInfo Float
  pub rttinit : Bool
  pub seq : ℕ
  pub ts : ℕ
  pub clock : ℕ
  pub sent : List (ℕ × ℕ)
  pub timers : List ℕ

-- The size of the reply; -1 with ETIMEDOUT; or no event is left.
pub data Result (Float : Type 0) : Type 0 where
  returned : ℕ → Caller Float → Result Float
  gave_up : Caller Float → Result Float
  waiting : Caller Float → Result Float

module _ {Float Double : Type 0} (f : Floats Float Double) (now : ℕ → Timeval) where
  -- From the label `sendagain` up to the alarm()
  abbrev pub send : Caller Float → Caller Float
  send c =
      let ts : ℕ = rtt_ts c.rttinfo.rtt_base (now c.clock) in
      record c {
        ts = ts;
        clock = c.clock + 1;
        sent = c.sent ++ (c.seq, ts) ∷ [];
        timers = c.timers ++ rtt_start f c.rttinfo ∷ [];
      }

  -- After siglongjmp(), on the outcome of rtt_timeout(); `again` goes on waiting.
  unfoldable pub timed_out :
      (Caller Float → Result Float) → Caller Float → Bool × RttInfo Float → Result Float
  timed_out again c (true, p) = gave_up (record c { rttinfo = p; rttinit = false })
  timed_out again c (false, p) = again (send (record c { rttinfo = p }))

  -- After the loop that receives
  abbrev pub stop : Caller Float → ℕ → Caller Float
  stop c ts = record c {
    rttinfo = rtt_stop f c.rttinfo (sub_uint32 (rtt_ts c.rttinfo.rtt_base (now c.clock)) ts);
    clock = c.clock + 1;
  }

  unfoldable pub wait : Caller Float → List Event → Result Float
  wait c [] = waiting c
  wait c (alarm ∷ es) = timed_out (λ d. wait d es) c (rtt_timeout f c.rttinfo)
  wait c (datagram n seq ts ∷ es) =
      let rest = wait c es in
      if ltb n 8 || not (seq == c.seq) then rest else returned (n - 8) (stop c ts)

  -- The first call initialises the timer.
  abbrev pub initialised : Caller Float → Caller Float
  initialised c = if c.rttinit then c else record c {
    rttinfo = rtt_init f c.rttinfo.rtt_nrexmt (now c.clock);
    rttinit = true;
    clock = c.clock + 1;
  }

  abbrev pub next_packet : Caller Float → Caller Float
  next_packet c = record c { seq = (c.seq + 1) % 2 ^ 32; rttinfo = rtt_newpack c.rttinfo }

  unfoldable pub dg_send_recv : Caller Float → List Event → Result Float
  dg_send_recv c es = wait (send (next_packet (initialised c))) es
