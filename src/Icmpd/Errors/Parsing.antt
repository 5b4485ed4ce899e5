-- ===== src/Icmpd/Errors/Parsing.antt =====
-- What the daemon makes of an ICMP message: the bytes it depends on.
use unix_network_programming.Prelude.{
  ℕ, zero, suc, ◌+◌, ◌*◌, ◌%◌, ◌≤◌, ◌<◌, ◌≡◌, refl, ap, sym, ◌∙◌, subst, ◌⊎◌, inl, inr, Bool, true,
  false, ◌||◌, none, some, List, [], ◌∷◌, ◌++◌, arith, ltb, ◌==◌, if◌then◌else◌, length, get_elem?,
  take, drop, Option-cases,
}
use unix_network_programming.Prelude.FdSet.{get_elem?-lt}
use unix_network_programming.Cksum.{Endian, word}
use unix_network_programming.Icmpd.{Family, inet, inet6, Errno, IcmpdErr}
use unix_network_programming.Icmpd.Errors.{
  Parse, udp_error, ignored, short, outside, byte, errno_v4, errno_v6, parse_udp, parse_inner_v4,
  parse_icmp_v4, parse_v4, parse_inner_v6, parse_v6, received,
}
use unix_network_programming.Icmpd.Errors.Inside.{
  IsInside, byte-hit, parse_v4-IsInside, parse_v6-IsInside, length-received,
}

-- The datagram `d` in front of `x`
get_elem?-append : (d x : List ℕ) (i b : ℕ) → get_elem? d i ≡ some b → get_elem? (d ++ x) i ≡ some b
get_elem?-append [] x i b h = cc
get_elem?-append (y ∷ d) x zero b h = h
get_elem?-append (y ∷ d) x (suc i) b h = get_elem?-append d x i b h

take-append_le : (k : ℕ) (d x : List ℕ) → k ≤ length d → take k (d ++ x) ≡ take k d
take-append_le zero d x h = refl
take-append_le (suc k) [] x h = absurd (omega arith)
take-append_le (suc k) (y ∷ d) x h = ap (◌∷◌ y) (take-append_le k d x (omega arith))

slice-append :
    (k m : ℕ) (d x : List ℕ) → m + k ≤ length d → take k (drop m (d ++ x)) ≡ take k (drop m d)
slice-append k zero d x h = take-append_le k d x (omega arith)
slice-append k (suc m) [] x h = absurd (omega arith)
slice-append k (suc m) (y ∷ d) x h = slice-append k m d x (omega arith)

byte-then :
    (buf : List ℕ) (i b : ℕ) (f : ℕ → Parse) (p : Parse)
    → get_elem? buf i ≡ some b
    → f b ≡ p
    → byte buf i f ≡ p
byte-then buf i b f p h k = byte-hit buf i b f h ∙ k

if_true : (b : Bool) (p q r : Parse) → b ≡ true → p ≡ r → (if b then p else q) ≡ r
if_true b p q r e h = rw e h

if_false : (b : Bool) (p q r : Parse) → b ≡ false → q ≡ r → (if b then p else q) ≡ r
if_false b p q r e h = rw e h

missing : (d : List ℕ) (i : ℕ) (f : ℕ → Parse) → get_elem? d i ≡ none → byte d i f ≡ outside
missing d i f h = rw (h, byte)

byte_mono :
    (d x : List ℕ) (i : ℕ) (f g : ℕ → Parse)
    → IsInside (byte d i f)
    → ((b : ℕ) → i < length d → IsInside (f b) → g b ≡ f b)
    → byte (d ++ x) i g ≡ byte d i f
byte_mono d x i f g h k = elim (Option-cases (get_elem? d i)) [
  | inl e ↦ absurd (subst IsInside (missing d i f e) h)
  | inr (b, e) ↦
      byte-hit (d ++ x) i b g (get_elem?-append d x i b e)
      ∙ k b (get_elem?-lt d i b e) (subst IsInside (byte-hit d i b f e) h)
      ∙ sym (byte-hit d i b f e)
]

if_mono :
    (b : Bool) (p q p' q' : Parse)
    → IsInside (if b then p else q)
    → (IsInside p → p' ≡ p)
    → (b ≡ false → IsInside q → q' ≡ q)
    → (if b then p' else q') ≡ (if b then p else q)
if_mono true p q p' q' h k m = k h
if_mono false p q p' q' h k m = m refl h

module _ (o : Endian) (d x : List ℕ) where
  parse_udp_mono :
      (family : Family) (e : Errno) (type code : ℕ) (dst : List ℕ) (at : ℕ)
      → IsInside (parse_udp o d family e type code dst at)
      → parse_udp o (d ++ x) family e type code dst at ≡ parse_udp o d family e type code dst at
  unfolding parse_udp
  parse_udp_mono family e type code dst at h = byte_mono d x at _ _ h (λ s0 p h.
      byte_mono d x (at + 1) _ _ h (λ s1 p h.
        byte_mono d x (at + 2) _ _ h (λ d0 p h. byte_mono d x (at + 3) _ _ h (λ d1 p h. refl))))

  parse_inner_v4_mono :
      (type code at : ℕ)
      → at + 20 ≤ length d
      → IsInside (parse_inner_v4 o d type code at)
      → parse_inner_v4 o (d ++ x) type code at ≡ parse_inner_v4 o d type code at
  unfolding parse_inner_v4
  parse_inner_v4_mono type code at long h = byte_mono d x at _ _ h (λ vhl p h.
      byte_mono d x (at + 9) _ _ h (λ proto p h.
        if_mono (proto == 17) _ _ _ _ h
          (λ h.
            ap
              (λ dst.
                parse_udp o (d ++ x) inet (errno_v4 type code) type code dst (at + vhl % 16 * 4))
              (slice-append 4 (at + 16) d x (omega arith))
            ∙ parse_udp_mono inet (errno_v4 type code) type code (take 4 (drop (at + 16) d))
                (at + vhl % 16 * 4) h)
          (λ q h. refl)))

  parse_icmp_v4_mono :
      (hlen1 : ℕ)
      → IsInside (parse_icmp_v4 o d (length d) hlen1)
      → parse_icmp_v4 o (d ++ x) (length d) hlen1 ≡ parse_icmp_v4 o d (length d) hlen1
  unfolding parse_icmp_v4
  parse_icmp_v4_mono hlen1 h =
      if_mono (ltb (length d) (hlen1 + 8)) _ _ _ _ h (λ h. refl)
        (λ q h. byte_mono d x hlen1 _ _ h (λ type p h. byte_mono d x (hlen1 + 1) _ _ h (λ code p h.
          if_mono ((type == 3) || (type == 11) || (type == 4)) _ _ _ _ h
            (λ h.
              if_mono (ltb (length d) (hlen1 + 36)) _ _ _ _ h (λ h. refl)
                (λ q h. parse_inner_v4_mono type code (hlen1 + 8) (ground arith) h))
            (λ q h. refl))))

  parse_v4_mono :
      IsInside (parse_v4 o d (length d)) → parse_v4 o (d ++ x) (length d) ≡ parse_v4 o d (length d)
  unfolding parse_v4
  parse_v4_mono h = byte_mono d x 0 _ _ h (λ vhl p h. parse_icmp_v4_mono (vhl % 16 * 4) h)

  parse_inner_v6_mono :
      (type code : ℕ)
      → IsInside (parse_inner_v6 o d type code)
      → parse_inner_v6 o (d ++ x) type code ≡ parse_inner_v6 o d type code
  unfolding parse_inner_v6 parse_udp
  parse_inner_v6_mono type code h = byte_mono d x 14 _ _ h (λ next p h.
      if_mono (next == 17) _ _ _ _ h
        (λ h. byte_mono d x 48 _ _ h (λ s0 p h. byte_mono d x 49 _ _ h (λ s1 p h.
          byte_mono d x 50 _ _ h (λ d0 p h. byte_mono d x 51 _ _ h (λ d1 p h.
            ap
              (λ dst. udp_error (word o s0 s1) (record {
                icmpd_errno = errno_v6 type code;
                icmpd_type = type;
                icmpd_code = code;
                icmpd_dest = record { family = inet6; addr = dst; port = d0 ∷ d1 ∷ [] };
              }))
              (slice-append 16 32 d x (omega arith)))))))
        (λ q h. refl))

  parse_v6_mono :
      IsInside (parse_v6 o d (length d)) → parse_v6 o (d ++ x) (length d) ≡ parse_v6 o d (length d)
  unfolding parse_v6
  parse_v6_mono h =
      if_mono (ltb (length d) 8) _ _ _ _ h (λ h. refl)
        (λ q h. byte_mono d x 0 _ _ h (λ type p h. byte_mono d x 1 _ _ h (λ code p h.
          if_mono ((type == 1) || (type == 2) || (type == 3)) _ _ _ _ h
            (λ h.
              if_mono (ltb (length d) 16) _ _ _ _ h (λ h. refl)
                (λ q h. parse_inner_v6_mono type code h))
            (λ q h. refl))))

outside_or : (p q : Parse) → (IsInside p → q ≡ p) → (p ≡ outside) ⊎ (q ≡ p)
outside_or (udp_error sport e) q h = inr (h tt)
outside_or ignored q h = inr (h tt)
outside_or short q h = inr (h tt)
outside_or outside q h = inl refl

module _ (o : Endian) (d stack : List ℕ) where
  -- A message of at most 4096 bytes that Recvfrom() stores in `buf` is parsed inside `buf`, by
  -- readable_v4() and by readable_v6(). What stood in `buf` before is of no account, unless the message
  -- by itself is too short for the bytes that are looked at.
  pub parses-received :
      length d ≤ 4096
      → length stack ≡ 4096
      → (IsInside (parse_v4 o (received d stack) (length d))
          × ((parse_v4 o d (length d) ≡ outside)
              ⊎ (parse_v4 o (received d stack) (length d) ≡ parse_v4 o d (length d))))
        × (IsInside (parse_v6 o (received d stack) (length d))
            × ((parse_v6 o d (length d) ≡ outside)
                ⊎ (parse_v6 o (received d stack) (length d) ≡ parse_v6 o d (length d))))
  parses-received h k = (
    (
      parse_v4-IsInside o (received d stack) (length-received d stack h k) (length d),
      outside_or (parse_v4 o d (length d)) _ (parse_v4_mono o d (drop (length d) stack)),
    ),
    (
      parse_v6-IsInside o (received d stack) (length-received d stack h k) (length d),
      outside_or (parse_v6 o d (length d)) _ (parse_v6_mono o d (drop (length d) stack)),
    ),
  )

get_elem?-received :
    (d stack : List ℕ) (i : ℕ)
    → length d ≤ length stack
    → length d ≤ i
    → get_elem? (received d stack) i ≡ get_elem? stack i
get_elem?-received [] stack i h k = refl
get_elem?-received (y ∷ d) [] i h k = absurd (omega arith)
get_elem?-received (y ∷ d) (z ∷ stack) zero h k = absurd (omega arith)
get_elem?-received (y ∷ d) (z ∷ stack) (suc i) h k =
    get_elem?-received d stack i (omega arith) (omega arith)

module _ (o : Endian) (d stack : List ℕ) where
  stale :
      (i b : ℕ)
      → length d ≤ length stack
      → length d ≤ i
      → get_elem? stack i ≡ some b
      → get_elem? (received d stack) i ≡ some b
  stale i b h k e = get_elem?-received d stack i h k ∙ e

  stale_udp :
      (s0 s1 d0 d1 : ℕ)
      → length d ≤ 48
      → length stack ≡ 4096
      → get_elem? stack 48 ≡ some s0
      → get_elem? stack 49 ≡ some s1
      → get_elem? stack 50 ≡ some d0
      → get_elem? stack 51 ≡ some d1
      → (family : Family) (e : Errno) (type code : ℕ) (dst : List ℕ)
      → parse_udp o (received d stack) family e type code dst 48
        ≡ udp_error (word o s0 s1) (record {
          icmpd_errno = e;
          icmpd_type = type;
          icmpd_code = code;
          icmpd_dest = record { family = family; addr = dst; port = d0 ∷ d1 ∷ [] };
        })
  unfolding parse_udp
  stale_udp s0 s1 d0 d1 h k p q u v family e type code dst =
      byte-then (received d stack) 48 s0 _ _ (stale 48 s0 (omega arith) (omega arith) p) (
        byte-then (received d stack) 49 s1 _ _ (stale 49 s1 (omega arith) (omega arith) q) (
          byte-then (received d stack) 50 d0 _ _ (stale 50 d0 (omega arith) (omega arith) u) (
            byte-then (received d stack) 51 d1 _ _ (stale 51 d1 (omega arith) (omega arith) v)
              refl)))

  -- An ICMPv6 error of 16 to 48 bytes about UDP has no UDP header, but passes the test on its length:
  -- the daemon takes the client's port from bytes that stood in `buf` before.
  pub parse_v6-stale :
      (type code s0 s1 d0 d1 : ℕ)
      → 16 ≤ length d
      → length d ≤ 48
      → length stack ≡ 4096
      → get_elem? d 0 ≡ some type
      → get_elem? d 1 ≡ some code
      → get_elem? d 14 ≡ some 17
      → 1 ≤ type
      → type ≤ 3
      → get_elem? stack 48 ≡ some s0
      → get_elem? stack 49 ≡ some s1
      → get_elem? stack 50 ≡ some d0
      → get_elem? stack 51 ≡ some d1
      → (e : IcmpdErr) × (parse_v6 o (received d stack) (length d) ≡ udp_error (word o s0 s1) e)
  unfolding parse_v6 parse_inner_v6
  parse_v6-stale type code s0 s1 d0 d1 long brief k t c n l m p q u v = (
    record {
      icmpd_errno = errno_v6 type code;
      icmpd_type = type;
      icmpd_code = code;
      icmpd_dest = record {
        family = inet6;
        addr = take 16 (drop 32 (received d stack));
        port = d0 ∷ d1 ∷ [];
      };
    },
    if_false (ltb (length d) 8) _ _ _ (ground arith) (
        byte-then (received d stack) 0 type _ _ (get_elem?-append d _ 0 type t) (
          byte-then (received d stack) 1 code _ _ (get_elem?-append d _ 1 code c) (
            if_true ((type == 1) || (type == 2) || (type == 3)) _ _ _ (ground arith) (
              if_false (ltb (length d) 16) _ _ _ (ground arith) (
                byte-then (received d stack) 14 17 _ _ (get_elem?-append d _ 14 17 n) (
                  stale_udp s0 s1 d0 d1 brief k p q u v inet6 (errno_v6 type code) type code
                    _)))))),
  )
