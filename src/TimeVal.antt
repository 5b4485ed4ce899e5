-- ===== src/TimeVal.antt =====
-- lib/tv_sub.c, with its copies ping/tv_sub.c and traceroute/tv_sub.c: the difference of two times.
pub mod Difference
use unix_network_programming.Prelude.{
  ℕ, suc, ◌+◌, ◌-◌, ◌*◌, ◌≤◌, ◌<◌, ◌≡◌, refl, ap, Bool, true, false, arith, if◌then◌else◌,
}
use unix_network_programming.Prelude.Int.{
  ℤ, pos, negsuc, ◌+ℤ◌, ◌-ℤ◌, ◌*ℤ◌, ◌≤ℤ◌, ltb_ℤ, pos_part, neg_part, int_laws,
}

-- `struct timeval`
pub record TimeVal : Type 0 where
  pub tv_sec : ℤ
  pub tv_usec : ℤ

-- `out` after `--out->tv_sec; out->tv_usec += 1000000;`, or as it is
abbrev pub borrow : Bool → TimeVal → TimeVal
borrow true out = record { tv_sec = out.tv_sec -ℤ pos 1; tv_usec = out.tv_usec +ℤ pos 1000000 }
borrow false out = out

-- out -= in
unfoldable pub tv_sub : TimeVal → TimeVal → TimeVal
tv_sub out in' =
    let usec = out.tv_usec -ℤ in'.tv_usec in
    let t = borrow (ltb_ℤ usec (pos 0)) (record out { tv_usec = usec }) in
    record t { tv_sec = t.tv_sec -ℤ in'.tv_sec }
