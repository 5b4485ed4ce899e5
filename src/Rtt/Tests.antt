-- ===== src/Rtt/Tests.antt =====
-- Calls of dg_send_recv() over fixed-point numbers of thousandths, and the theorems at them.
use unix_network_programming.Prelude.{
  ℕ, ◌+◌, ◌-◌, ◌*◌, ◌/◌, ◌%◌, ◌^◌, ◌≡◌, refl, false, List, [], ◌∷◌, arith, ltb,
}
use unix_network_programming.Rtt.{
  Floats, Timeval, sub_uint32, rtt_minmax, rtt_init, rtt_start, rtt_stop, rtt_timeout, rtt_ts,
}
use unix_network_programming.Rtt.Bounds.{HasBounds, IsTimeout, rtt-IsTimeout, rtt_ts-elapsed}
use unix_network_programming.Rtt.Exchange.{
  Event, alarm, datagram, Caller, Result, returned, gave_up, waiting, timed_out, wait, dg_send_recv,
}
use unix_network_programming.Rtt.Exchange.Attempts.{Concludes, dg_send_recv-Concludes}

abbrev thousandths : Floats ℕ ℕ
thousandths = record {
  narrow = λ x. x;
  widen = λ x. x;
  float_sub = λ x y. x - y;
  float_mul = λ x y. x * y / 1000;
  float_lt = ltb;
  add = λ x y. x + y;
  sub = λ x y. x - y;
  mul = λ x y. x * y / 1000;
  div = λ x y. x * 1000 / y;
  neg = λ x. 0 - x;
  lt = ltb;
  of_ℕ = λ n. n * 1000;
  half = 500;
  three_quarters = 750;
  truncate = λ x. x / 1000;
}

abbrev bounds : HasBounds thousandths
bounds = record { min_min = refl; max_min = refl; max_max = refl }

-- A second passes between two readings of the clock.
abbrev ticking : ℕ → Timeval
ticking n = record { tv_sec = 100 + n; tv_usec = 7000 }

abbrev caller : Caller ℕ
caller = record {
  rttinfo = record {
    rtt_rtt = 0;
    rtt_srtt = 0;
    rtt_rttvar = 0;
    rtt_rto = 0;
    rtt_nrexmt = 0;
    rtt_base = 0;
  };
  rttinit = false;
  seq = 0;
  ts = 0;
  clock = 0;
  sent = [];
  timers = [];
}

-- A short datagram, an old reply and a timeout before the reply
abbrev events : List Event
events = datagram 4 1 0 ∷ datagram 20 0 0 ∷ alarm ∷ datagram 18 1 2007 ∷ []

abbrev size_of : Result ℕ → ℕ
size_of (returned n c) = n
size_of _ = 999

abbrev timers_of : Result ℕ → List ℕ
timers_of (returned n c) = c.timers
timers_of (gave_up c) = c.timers
timers_of (waiting c) = c.timers

ten_bytes : size_of (dg_send_recv thousandths ticking caller events) ≡ 10
unfolding dg_send_recv wait timed_out rtt_timeout
ten_bytes = refl

-- Four timeouts, after 3, 6, 12 and 24 seconds
doubling :
    timers_of (dg_send_recv thousandths ticking caller (alarm ∷ alarm ∷ alarm ∷ alarm ∷ []))
    ≡ 3 ∷ 6 ∷ 12 ∷ 24 ∷ []
unfolding dg_send_recv wait timed_out rtt_timeout rtt_start rtt_init rtt_minmax
doubling = refl

dg_send_recv-Concludes_example :
    Concludes thousandths ticking
      ((caller.seq + 1) % 2 ^ 32)
      caller
      events
      (dg_send_recv thousandths ticking caller events)
dg_send_recv-Concludes_example = dg_send_recv-Concludes thousandths ticking caller events

rtt-IsTimeout_example :
    IsTimeout thousandths (rtt_init thousandths 0 (ticking 0)).rtt_rto
    × IsTimeout thousandths (rtt_stop thousandths caller.rttinfo 250).rtt_rto
rtt-IsTimeout_example = rtt-IsTimeout thousandths bounds 0 250 (ticking 0) caller.rttinfo

-- The timestamps wrap around between the two readings.
rtt_ts-elapsed_example :
    sub_uint32
      (rtt_ts 0 (record { tv_sec = 4294968; tv_usec = 0 }))
      (rtt_ts 0 (record { tv_sec = 4294966; tv_usec = 0 }))
    ≡ 2000
rtt_ts-elapsed_example =
    rtt_ts-elapsed 0 (record { tv_sec = 4294966; tv_usec = 0 })
      (record { tv_sec = 4294968; tv_usec = 0 }) (omega arith) (omega arith) (omega arith)
