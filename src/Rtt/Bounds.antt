-- ===== src/Rtt/Bounds.antt =====
-- The timer's values: the timeout between RTT_RXTMIN and RTT_RXTMAX, and the measured time.
use unix_network_programming.Prelude.{
  ℕ, ◌+◌, ◌-◌, ◌*◌, ◌/◌, ◌^◌, ◌≤◌, ◌<◌, ◌≡◌, refl, Bool, true, false, arith, if◌then◌else◌,
}
use unix_network_programming.Rtt.{
  Floats, RttInfo, Timeval, sub_uint32, float_of, rtt_minmax, rtt_init, rtt_stop, rtt_ts,
}

module _ {Float Double : Type 0} (f : Floats Float Double) where
  -- What the comparison of floats says of the two bounds.
  pub record HasBounds : Type 0 where
    pub min_min : f.float_lt (float_of f 2) (float_of f 2) ≡ false
    pub max_min : f.float_lt (float_of f 60) (float_of f 2) ≡ false
    pub max_max : f.float_lt (float_of f 60) (float_of f 60) ≡ false

  -- Not below 2 and not above 60.
  abbrev pub IsTimeout : Float → Type 0
  IsTimeout x = (f.float_lt x (float_of f 2) ≡ false) × (f.float_lt (float_of f 60) x ≡ false)

  minmax_cases :
      (x : Float) (a b : Bool)
      → HasBounds
      → f.float_lt x (float_of f 2) ≡ a
      → f.float_lt (float_of f 60) x ≡ b
      → IsTimeout (if a then float_of f 2 else if b then float_of f 60 else x)
  minmax_cases x true b h p q = (h.min_min, h.max_min)
  minmax_cases x false true h p q = (h.max_min, h.max_max)
  minmax_cases x false false h p q = (p, q)

  rtt_minmax-IsTimeout : (x : Float) → HasBounds → IsTimeout (rtt_minmax f x)
  unfolding rtt_minmax
  rtt_minmax-IsTimeout x h =
      minmax_cases x (f.float_lt x (float_of f 2)) (f.float_lt (float_of f 60) x) h refl refl

  -- If 2 is not below 2, and 60 neither below 2 nor below 60, then rtt_init(), and rtt_stop() after any
  -- measured time, leave a timeout that is not below RTT_RXTMIN and not above RTT_RXTMAX.
  pub rtt-IsTimeout :
      HasBounds
      → (n ms : ℕ) (tv : Timeval) (p : RttInfo Float)
      → IsTimeout (rtt_init f n tv).rtt_rto × IsTimeout (rtt_stop f p ms).rtt_rto
  unfolding rtt_init rtt_stop
  rtt-IsTimeout h n ms tv p = (rtt_minmax-IsTimeout _ h, rtt_minmax-IsTimeout _ h)

-- A time in milliseconds.
abbrev pub millis : Timeval → ℕ
millis tv = tv.tv_sec * 1000 + tv.tv_usec / 1000

-- Whatever the base of the timestamps, the difference of two is the time between them in milliseconds,
-- if that is below 2^32: the timestamps may wrap around.
pub rtt_ts-elapsed :
    (base : ℕ) (tv tw : Timeval)
    → base < 2 ^ 32
    → millis tv ≤ millis tw
    → millis tw - millis tv < 2 ^ 32
    → sub_uint32 (rtt_ts base tw) (rtt_ts base tv) ≡ millis tw - millis tv
unfolding rtt_ts
rtt_ts-elapsed base tv tw h k l = omega arith
