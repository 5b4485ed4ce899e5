-- ===== src/Rtt.antt =====
-- lib/rtt.c and lib/unprtt.h: the timer of a protocol over UDP. The floating-point numbers of the
-- machine are a parameter: `float` and `double`, with the operations that the code uses.
pub mod Exchange
pub mod Bounds
mod Tests
use unix_network_programming.Prelude.{
  ℕ, zero, suc, ◌+◌, ◌-◌, ◌*◌, ◌/◌, ◌%◌, ◌^◌, Bool, true, false, ltb, if◌then◌else◌,
}

pub record Floats (Float Double : Type 0) : Type 0 where
  pub narrow : Double → Float
  pub widen : Float → Double
  pub float_sub : Float → Float → Float
  pub float_mul : Float → Float → Float
  pub float_lt : Float → Float → Bool
  pub add : Double → Double → Double
  pub sub : Double → Double → Double
  pub mul : Double → Double → Double
  pub div : Double → Double → Double
  pub neg : Double → Double
  pub lt : Double → Double → Bool
  pub of_ℕ : ℕ → Double
  pub half : Double
  pub three_quarters : Double
  pub truncate : Double → ℕ

-- `struct rtt_info`
pub record RttInfo (Float : Type 0) : Type 0 where
  pub rtt_rtt : Float
  pub rtt_srtt : Float
  pub rtt_rttvar : Float
  pub rtt_rto : Float
  pub rtt_nrexmt : ℕ
  pub rtt_base : ℕ

-- `struct timeval`, as Gettimeofday() gives it
pub record Timeval : Type 0 where
  pub tv_sec : ℕ
  pub tv_usec : ℕ

abbrev pub rtt_maxnrexmt : ℕ
rtt_maxnrexmt = 3

-- Subtraction of `uint32_t`
abbrev pub sub_uint32 : ℕ → ℕ → ℕ
sub_uint32 a b = (a + 2 ^ 32 - b) % 2 ^ 32

module _ {Float Double : Type 0} (f : Floats Float Double) where
  abbrev pub float_of : ℕ → Float
  float_of n = f.narrow (f.of_ℕ n)

  pub rtt_minmax : Float → Float
  rtt_minmax rto =
      if f.float_lt rto (float_of 2)
      then float_of 2
      else if f.float_lt (float_of 60) rto
      then float_of 60
      else rto

  -- RTT_RTOCALC
  abbrev pub rtt_rtocalc : Float → Float → Float
  rtt_rtocalc srtt rttvar = f.narrow (f.add (f.widen srtt) (f.mul (f.of_ℕ 4) (f.widen rttvar)))

  -- `rtt_nrexmt` is left as it is.
  pub rtt_init : ℕ → Timeval → RttInfo Float
  rtt_init nrexmt tv = record {
    rtt_rtt = float_of 0;
    rtt_srtt = float_of 0;
    rtt_rttvar = f.narrow f.three_quarters;
    rtt_rto = rtt_minmax (rtt_rtocalc (float_of 0) (f.narrow f.three_quarters));
    rtt_nrexmt = nrexmt;
    rtt_base = tv.tv_sec % 2 ^ 32;
  }

  -- (int) (ptr->rtt_rto + 0.5)
  pub rtt_start : RttInfo Float → ℕ
  rtt_start p = f.truncate (f.add (f.widen p.rtt_rto) f.half)

  pub rtt_stop : RttInfo Float → ℕ → RttInfo Float
  rtt_stop p ms =
      let rtt : Float = f.narrow (f.div (f.of_ℕ ms) (f.of_ℕ 1000)) in
      let delta : Double = f.widen (f.float_sub rtt p.rtt_srtt) in
      let srtt : Float = f.narrow (f.add (f.widen p.rtt_srtt) (f.div delta (f.of_ℕ 8))) in
      let size : Double = if f.lt delta (f.of_ℕ 0) then f.neg delta else delta in
      let rttvar : Float =
        f.narrow
          (f.add (f.widen p.rtt_rttvar) (f.div (f.sub size (f.widen p.rtt_rttvar)) (f.of_ℕ 4))) in
      record p {
        rtt_rtt = rtt;
        rtt_srtt = srtt;
        rtt_rttvar = rttvar;
        rtt_rto = rtt_minmax (rtt_rtocalc srtt rttvar);
      }

  -- `true` for -1: give up.
  pub rtt_timeout : RttInfo Float → Bool × RttInfo Float
  rtt_timeout p = (
    ltb rtt_maxnrexmt (p.rtt_nrexmt + 1),
    record p { rtt_rto = f.float_mul p.rtt_rto (float_of 2); rtt_nrexmt = p.rtt_nrexmt + 1 },
  )

module _ {Float : Type 0} where
  abbrev pub rtt_newpack : RttInfo Float → RttInfo Float
  rtt_newpack p = record p { rtt_nrexmt = 0 }

-- Milliseconds since rtt_init(), as a `uint32_t`
pub rtt_ts : ℕ → Timeval → ℕ
rtt_ts base tv = (sub_uint32 (tv.tv_sec % 2 ^ 32) base * 1000 + tv.tv_usec / 1000) % 2 ^ 32
