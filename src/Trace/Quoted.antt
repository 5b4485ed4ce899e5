-- ===== src/Trace/Quoted.antt =====
-- ICMP errors that quote a UDP datagram: what recv_v4() and recv_v6() read from them.
use unix_network_programming.Prelude.{
  ℕ, ◌+◌, ◌-◌, ◌*◌, ◌%◌, ◌≤◌, ◌≡◌, refl, ap, ◌∙◌, Bool, some, List, [], ◌∷◌, ◌++◌, arith, ltb,
  length, length-append, get_elem?,
}
use unix_network_programming.Prelude.Places.{get_elem?-at, get_elem?-at2, get_elem?-front}
use unix_network_programming.Trace.{inner_v4, inner_v6, verdict_v4, verdict_v6}
use unix_network_programming.Trace.Inner.{
  IsHeader, quotes, reply_v4, answered, byte-then, if_no, ltb_no, inner_v4-quotes, inner_v6-quotes,
  by_type_v4, answered_v6, by_type_v6,
}

-- The message: after its own header, if it has one, the ICMP header, a quoted header and a datagram
abbrev pub quoting : List ℕ → List ℕ → List ℕ → List ℕ → List ℕ
quoting h1 icmp h2 udp = h1 ++ (icmp ++ (h2 ++ udp))

length-quoting :
    (h1 icmp h2 udp : List ℕ)
    → length (quoting h1 icmp h2 udp) ≡ length h1 + (length icmp + (length h2 + length udp))
length-quoting h1 icmp h2 udp =
    length-append h1 (icmp ++ (h2 ++ udp))
    ∙ ap (λ n. length h1 + n)
        (length-append icmp (h2 ++ udp) ∙ ap (λ n. length icmp + n) (length-append h2 udp))

module _ (sport dport seq type code proto s0 s1 d0 d1 : ℕ) (icmp rest : List ℕ)
    (li : length icmp ≡ 8) (gt : get_elem? icmp 0 ≡ some type)
    (gc : get_elem? icmp 1 ≡ some code) where
  abbrev udp : List ℕ
  udp = s0 ∷ s1 ∷ d0 ∷ d1 ∷ rest

  abbrev ours : Bool
  ours = quotes sport dport seq proto (s0 * 256 + s1) (d0 * 256 + d1)

  udp_at :
      (h1 h2 : List ℕ) (k i b : ℕ)
      → get_elem? udp k ≡ some b
      → i ≡ length h1 + (length icmp + (length h2 + k))
      → get_elem? (quoting h1 icmp h2 udp) i ≡ some b
  udp_at h1 h2 k i b h e =
      get_elem?-at h1 (icmp ++ (h2 ++ udp)) i (length icmp + (length h2 + k)) b e
        (get_elem?-at2 icmp h2 udp (length icmp + (length h2 + k)) k b refl h)

  quoted_v4 :
      (h1 h2 : List ℕ) (v1 v2 : ℕ)
      → IsHeader h1 v1
      → IsHeader h2 v2
      → 20 ≤ length h2
      → get_elem? h2 9 ≡ some proto
      → verdict_v4 sport dport seq (quoting h1 icmp h2 udp) (length (quoting h1 icmp h2 udp))
        ≡ answered ours (reply_v4 type code)
  unfolding verdict_v4
  quoted_v4 h1 h2 v1 v2 (g1, l1) (g2, l2) z gp =
      let buf = quoting h1 icmp h2 udp in
      let n = length buf in
      let len : n ≡ length h1 + (length icmp + (length h2 + length udp)) =
        length-quoting h1 icmp h2 udp in
      let hl1 = v1 % 16 * 4 in
      let at = hl1 + 8 + v2 % 16 * 4 in
      byte-then buf 0 v1 _ _ (get_elem?-front h1 (icmp ++ (h2 ++ udp)) 0 v1 g1) (
        if_no (ltb n (hl1 + 8)) _ _ _ (ltb_no n (hl1 + 8) (omega (arith, len, li, l1))) (
          byte-then buf hl1 type _ _
            (get_elem?-at h1 (icmp ++ (h2 ++ udp)) hl1 0 type (omega (arith, l1))
              (get_elem?-front icmp (h2 ++ udp) 0 type gt))
            (byte-then buf (hl1 + 1) code _ _
              (get_elem?-at h1 (icmp ++ (h2 ++ udp)) (hl1 + 1) 1 code (omega (arith, l1))
                (get_elem?-front icmp (h2 ++ udp) 1 code gc))
              (by_type_v4 type code ours (inner_v4 sport dport seq buf (n - hl1) hl1) λ f.
                inner_v4-quotes sport dport seq buf at s0 s1 d0 d1
                  (udp_at h1 h2 0 at s0 refl (omega (arith, li, l1, l2)))
                  (udp_at h1 h2 1 (at + 1) s1 refl (omega (arith, li, l1, l2)))
                  (udp_at h1 h2 2 (at + 2) d0 refl (omega (arith, li, l1, l2)))
                  (udp_at h1 h2 3 (at + 2 + 1) d1 refl (omega (arith, li, l1, l2))) (n - hl1) hl1 v2
                  proto f
                  (get_elem?-at2 h1 icmp (h2 ++ udp) (hl1 + 8) 0 v2 (omega (arith, li, l1))
                    (get_elem?-front h2 udp 0 v2 g2))
                  (get_elem?-at2 h1 icmp (h2 ++ udp) (hl1 + 8 + 9) 9 proto (omega (arith, li, l1))
                    (get_elem?-front h2 udp 9 proto gp))
                  refl (omega (arith, len, li, l1, z)) (omega (arith, len, li, l1, l2))))))

  quoted_v6 :
      (h : List ℕ)
      → length h ≡ 40
      → get_elem? h 6 ≡ some proto
      → verdict_v6 sport dport seq (quoting [] icmp h udp) (length (quoting [] icmp h udp))
        ≡ answered_v6 ours type code
  unfolding verdict_v6
  quoted_v6 h l gp =
      let buf = quoting [] icmp h udp in
      let n = length buf in
      let len : n ≡ 0 + (length icmp + (length h + length udp)) = length-quoting [] icmp h udp in
      if_no (ltb n 8) _ _ _ (ltb_no n 8 (omega (arith, len, li))) (
        byte-then buf 0 type _ _ (get_elem?-front icmp (h ++ udp) 0 type gt) (
          byte-then buf 1 code _ _ (get_elem?-front icmp (h ++ udp) 1 code gc) (
            by_type_v6 type code ours (inner_v6 sport dport seq buf n) λ f.
              inner_v6-quotes sport dport seq buf 48 s0 s1 d0 d1
                (udp_at [] h 0 48 s0 refl (omega (arith, li, l)))
                (udp_at [] h 1 (48 + 1) s1 refl (omega (arith, li, l)))
                (udp_at [] h 2 (48 + 2) d0 refl (omega (arith, li, l)))
                (udp_at [] h 3 (48 + 2 + 1) d1 refl (omega (arith, li, l))) n proto f
                (get_elem?-at icmp (h ++ udp) 14 6 proto (omega (arith, li))
                  (get_elem?-front h udp 6 proto gp))
                refl (omega (arith, len, li, l)))))

  -- An ICMP message with its type and code, of eight bytes with the rest of its header, quotes a datagram
  -- behind the header `h2` of IPv4, with its options, or `h6` of IPv6; a message of ICMPv4 has itself a
  -- header `h1`. From the message recv_v4() gets the answer that the type and the code stand for if the
  -- datagram is of UDP, from the port `sport` and to the port of the probe `seq`; else it receives
  -- again. So does recv_v6(), except that for an exceeded hop limit that quotes another datagram it
  -- returns without a value.
  pub verdicts-answered :
      (h1 h2 h6 : List ℕ) (v1 v2 : ℕ)
      → IsHeader h1 v1
      → IsHeader h2 v2
      → 20 ≤ length h2
      → get_elem? h2 9 ≡ some proto
      → length h6 ≡ 40
      → get_elem? h6 6 ≡ some proto
      → (verdict_v4 sport dport seq (quoting h1 icmp h2 udp) (length (quoting h1 icmp h2 udp))
          ≡ answered ours (reply_v4 type code))
        × (verdict_v6 sport dport seq (quoting [] icmp h6 udp) (length (quoting [] icmp h6 udp))
            ≡ answered_v6 ours type code)
  verdicts-answered h1 h2 h6 v1 v2 i1 i2 z gp l6 g6 =
      (quoted_v4 h1 h2 v1 v2 i1 i2 z gp, quoted_v6 h6 l6 g6)
