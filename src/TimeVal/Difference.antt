-- ===== src/TimeVal/Difference.antt =====
-- tv_sub() computes the exact difference, in normal form.
use unix_network_programming.Prelude.{suc, ◌+◌, ◌*◌, ◌≤◌, ◌<◌, ◌≡◌, refl, Bool, true, false, arith}
use unix_network_programming.Prelude.Int.{
  ℤ, pos, negsuc, ◌+ℤ◌, ◌-ℤ◌, ◌*ℤ◌, ltb_ℤ, pos_part, neg_part, +ℤ_parts, -ℤ_parts, eq_of_parts,
  int_laws,
}
use unix_network_programming.TimeVal.{TimeVal, borrow, tv_sub}

-- The time in microseconds
unfoldable pub micros : TimeVal → ℤ
micros t = t.tv_sec *ℤ pos 1000000 +ℤ t.tv_usec

-- `tv_usec` is from 0 to 999999.
abbrev pub IsNormal : TimeVal → Type 0
IsNormal t = (neg_part t.tv_usec ≡ 0) × (pos_part t.tv_usec < 1000000)

scale_parts :
    (a : ℤ)
    → pos_part (a *ℤ pos 1000000) + neg_part a * 1000000
      ≡ neg_part (a *ℤ pos 1000000) + pos_part a * 1000000
unfolding ◌*ℤ◌
scale_parts (pos n) = ground arith
scale_parts (negsuc n) = ground arith

micros_parts :
    (t : TimeVal)
    → pos_part (micros t) + neg_part t.tv_sec * 1000000 + neg_part t.tv_usec
      ≡ neg_part (micros t) + pos_part t.tv_sec * 1000000 + pos_part t.tv_usec
unfolding micros
micros_parts t = omega (int_laws, scale_parts)

negative : (a : ℤ) → ltb_ℤ a (pos 0) ≡ true → suc (pos_part a) ≤ neg_part a
negative a h = ground arith

not_negative : (a : ℤ) → ltb_ℤ a (pos 0) ≡ false → neg_part a ≤ pos_part a
not_negative a h = ground arith

nonneg : (a : ℤ) → neg_part a ≤ pos_part a → neg_part a ≡ 0
nonneg (pos n) h = refl
nonneg (negsuc n) h = absurd (omega arith)

-- For times in normal form, tv_sub() gives the difference in normal form, and no rounding is lost: it is
-- the time that, added to the one taken away, gives the other. The difference may be negative.
pub tv_sub-IsNormal :
    (out in' : TimeVal)
    → IsNormal out
    → IsNormal in'
    → IsNormal (tv_sub out in') × (micros (tv_sub out in') +ℤ micros in' ≡ micros out)
unfolding tv_sub
tv_sub-IsNormal out in' (n, p) (m, q) = by_sign (ltb_ℤ (out.tv_usec -ℤ in'.tv_usec) (pos 0)) refl
  where
    difference : Bool → TimeVal
    difference b =
        let t = borrow b (record out { tv_usec = out.tv_usec -ℤ in'.tv_usec }) in
        record t { tv_sec = t.tv_sec -ℤ in'.tv_sec }

    exact :
        (t : TimeVal)
        → pos_part t.tv_sec * 1000000
            + pos_part t.tv_usec
            + (pos_part in'.tv_sec * 1000000 + pos_part in'.tv_usec)
            + (neg_part out.tv_sec * 1000000 + neg_part out.tv_usec)
          ≡ neg_part t.tv_sec * 1000000
            + neg_part t.tv_usec
            + (neg_part in'.tv_sec * 1000000 + neg_part in'.tv_usec)
            + (pos_part out.tv_sec * 1000000 + pos_part out.tv_usec)
        → micros t +ℤ micros in' ≡ micros out
    exact t e = eq_of_parts (micros t +ℤ micros in') (micros out) (
        omega (
          arith,
          e,
          +ℤ_parts (micros t) (micros in'),
          micros_parts t,
          micros_parts in',
          micros_parts out,
        ))

    by_sign :
        (b : Bool)
        → ltb_ℤ (out.tv_usec -ℤ in'.tv_usec) (pos 0) ≡ b
        → IsNormal (difference b) × (micros (difference b) +ℤ micros in' ≡ micros out)
    by_sign true h =
        let u = out.tv_usec -ℤ in'.tv_usec in
        let d = -ℤ_parts out.tv_usec in'.tv_usec in
        let e = +ℤ_parts u (pos 1000000) in
        let z = nonneg (u +ℤ pos 1000000) (omega (arith, d, e, n, p, m, q)) in
        let f = -ℤ_parts out.tv_sec (pos 1) in
        let g = -ℤ_parts (out.tv_sec -ℤ pos 1) in'.tv_sec in
        (
          (z, omega (arith, z, d, e, n, m, negative u h)),
          exact (difference true) (omega (arith, d, e, f, g)),
        )
    by_sign false h =
        let u = out.tv_usec -ℤ in'.tv_usec in
        let d = -ℤ_parts out.tv_usec in'.tv_usec in
        let z = nonneg u (not_negative u h) in
        (
          (z, omega (arith, z, d, n, p, m)),
          exact (difference false) (omega (arith, d, -ℤ_parts out.tv_sec in'.tv_sec)),
        )
