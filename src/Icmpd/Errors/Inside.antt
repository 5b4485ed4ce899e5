-- ===== src/Icmpd/Errors/Inside.antt =====
-- ICMP messages are parsed inside `buf`, whatever their bytes.
use unix_network_programming.Prelude.{
  ℕ, ◌+◌, ◌*◌, ◌%◌, ◌≤◌, ◌<◌, ◌≡◌, sym, subst, Bool, true, false, ◌||◌, some, List, arith, ltb,
  ◌==◌, if◌then◌else◌, length, length-append, length-drop, get_elem?, drop, drop-suc,
}
use unix_network_programming.Cksum.{Endian}
use unix_network_programming.Icmpd.{Family, Errno}
use unix_network_programming.Icmpd.Errors.{
  Parse, udp_error, ignored, short, outside, byte, parse_udp, parse_inner_v4, parse_icmp_v4,
  parse_v4, parse_inner_v6, parse_v6, received,
}

abbrev pub IsInside : Parse → Type 0
IsInside outside = ⊥
IsInside (udp_error sport e) = Unit
IsInside ignored = Unit
IsInside short = Unit

pub byte-hit :
    (buf : List ℕ) (i b : ℕ) (f : ℕ → Parse) → get_elem? buf i ≡ some b → byte buf i f ≡ f b
byte-hit buf i b f h = rw (h, byte)

byte-IsInside :
    (buf : List ℕ) (i : ℕ) (f : ℕ → Parse)
    → i < length buf
    → ((b : ℕ) → IsInside (f b))
    → IsInside (byte buf i f)
byte-IsInside buf i f h k =
    let (b, hit, rest) = drop-suc i buf h in subst IsInside (sym (byte-hit buf i b f hit)) (k b)

if_IsInside : (b : Bool) (p q : Parse) → IsInside p → IsInside q → IsInside (if b then p else q)
if_IsInside true p q h k = h
if_IsInside false p q h k = k

module _ (o : Endian) (buf : List ℕ) (sized : length buf ≡ 4096) where
  parse_udp-IsInside :
      (family : Family) (e : Errno) (type code : ℕ) (dst : List ℕ) (at : ℕ)
      → at < 4000
      → IsInside (parse_udp o buf family e type code dst at)
  unfolding parse_udp
  parse_udp-IsInside family e type code dst at h = byte-IsInside buf at _ (omega arith) (λ s0.
      byte-IsInside buf (at + 1) _ (omega arith) (λ s1.
        byte-IsInside buf (at + 2) _ (omega arith)
          (λ d0. byte-IsInside buf (at + 3) _ (omega arith) (λ d1. tt))))

  parse_inner_v4-IsInside :
      (type code at : ℕ) → at < 3900 → IsInside (parse_inner_v4 o buf type code at)
  unfolding parse_inner_v4
  parse_inner_v4-IsInside type code at h = byte-IsInside buf at _ (omega arith) (λ vhl.
      byte-IsInside buf (at + 9) _ (omega arith)
        (λ proto. if_IsInside (proto == 17) _ _ (parse_udp-IsInside _ _ _ _ _ _ (omega arith)) tt))

  parse_icmp_v4-IsInside : (n hlen1 : ℕ) → hlen1 < 100 → IsInside (parse_icmp_v4 o buf n hlen1)
  unfolding parse_icmp_v4
  parse_icmp_v4-IsInside n hlen1 h = if_IsInside (ltb n (hlen1 + 8)) _ _ tt (
      byte-IsInside buf hlen1 _ (omega arith) (λ type.
        byte-IsInside buf (hlen1 + 1) _ (omega arith) (λ code.
          if_IsInside ((type == 3) || (type == 11) || (type == 4)) _ _
            (if_IsInside (ltb n (hlen1 + 36)) _ _ tt
              (parse_inner_v4-IsInside type code (hlen1 + 8) (omega arith)))
            tt)))

  pub parse_v4-IsInside : (n : ℕ) → IsInside (parse_v4 o buf n)
  unfolding parse_v4
  parse_v4-IsInside n =
      byte-IsInside buf 0 _ (omega arith)
        (λ vhl. parse_icmp_v4-IsInside n (vhl % 16 * 4) (omega arith))

  parse_inner_v6-IsInside : (type code : ℕ) → IsInside (parse_inner_v6 o buf type code)
  unfolding parse_inner_v6
  parse_inner_v6-IsInside type code =
      byte-IsInside buf 14 _ (omega arith)
        (λ next. if_IsInside (next == 17) _ _ (parse_udp-IsInside _ _ _ _ _ 48 (omega arith)) tt)

  pub parse_v6-IsInside : (n : ℕ) → IsInside (parse_v6 o buf n)
  unfolding parse_v6
  parse_v6-IsInside n = if_IsInside (ltb n 8) _ _ tt (
      byte-IsInside buf 0 _ (omega arith) (λ type. byte-IsInside buf 1 _ (omega arith) (λ code.
        if_IsInside ((type == 1) || (type == 2) || (type == 3)) _ _
          (if_IsInside (ltb n 16) _ _ tt (parse_inner_v6-IsInside type code)) tt)))

pub length-received :
    (d stack : List ℕ) → length d ≤ 4096 → length stack ≡ 4096 → length (received d stack) ≡ 4096
length-received d stack h k =
    omega (arith, length-append d (drop (length d) stack), length-drop (length d) stack)
