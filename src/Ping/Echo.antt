-- ===== src/Ping/Echo.antt =====
-- A request of send_v4() and the reply that proc_v4() reads.
use unix_network_programming.Prelude.{
  ℕ, zero, suc, ◌+◌, ◌-◌, ◌*◌, ◌%◌, ◌^◌, ◌≤◌, ◌<◌, ◌≡◌, refl, ap, sym, ◌∙◌, Bool, true, false, not,
  some, List, [], ◌∷◌, ◌++◌, arith, ltb, ◌==◌, if◌then◌else◌, length, length-append, length-drop,
  length-replicate, get_elem?, take, drop, replicate, take-append,
}
use unix_network_programming.Prelude.Places.{get_elem?-at, get_elem?-front, drop-skip}
use unix_network_programming.Cksum.{Endian, little, big, word, in_cksum}
use unix_network_programming.Cksum.Folding.{AreBytes}
use unix_network_programming.Cksum.Verify.{in_cksum_verifies, in_cksum_lt, AreBytes-append}
use unix_network_programming.TimeVal.{TimeVal, tv_sub}
use unix_network_programming.Ping.{
  Layout, first_byte, second_byte, icmp_echo, icmp_echoreply, ipproto_icmp, data_with, ident_seq,
  send_v4, Printed, reply, silent, byte, field_at, rtt_from, proc_v4,
}

-- `struct timeval` has its size in memory, and comes back from there.
abbrev pub Stores : Layout → TimeVal → Type 0
Stores l t =
    (length (l.encode_tv t) ≡ l.tv_size)
    × (l.decode_tv (l.encode_tv t) ≡ t)
    × AreBytes (l.encode_tv t)

first_byte_lt : (o : Endian) (n : ℕ) → first_byte o n < 256
first_byte_lt little n = omega arith
first_byte_lt big n = omega arith

second_byte_lt : (o : Endian) (n : ℕ) → second_byte o n < 256
second_byte_lt little n = omega arith
second_byte_lt big n = omega arith

word-field : (o : Endian) (n : ℕ) → n < 2 ^ 16 → word o (first_byte o n) (second_byte o n) ≡ n
word-field little n h = omega arith
word-field big n h = omega arith

byte-then :
    (buf : List ℕ) (i b : ℕ) (f : ℕ → Printed) (p : Printed)
    → get_elem? buf i ≡ some b
    → f b ≡ p
    → byte buf i f ≡ p
byte-then buf i b f p h k = rw (h, byte) k

field_at-then :
    (o : Endian) (buf : List ℕ) (i n : ℕ) (f : ℕ → Printed) (p : Printed)
    → n < 2 ^ 16
    → get_elem? buf i ≡ some (first_byte o n)
    → get_elem? buf (i + 1) ≡ some (second_byte o n)
    → f n ≡ p
    → field_at o buf i f ≡ p
field_at-then o buf i n f p h a b k =
    byte-then buf i (first_byte o n) (λ a. byte buf (i + 1) (λ b. f (word o a b))) p a
      (byte-then buf (i + 1) (second_byte o n) (λ b. f (word o (first_byte o n) b)) p b
        (ap f (word-field o n h) ∙ k))

if_no : (b : Bool) (p q r : Printed) → b ≡ false → q ≡ r → (if b then p else q) ≡ r
if_no true p q r e h = cc
if_no false p q r e h = h

if_yes : (b : Bool) (p q r : Printed) → b ≡ true → p ≡ r → (if b then p else q) ≡ r
if_yes true p q r e h = h
if_yes false p q r e h = cc

==_eq : (a b : ℕ) → a ≡ b → (a == b) ≡ true
==_eq a b h = ground arith

ltb_no : (a b : ℕ) → b ≤ a → ltb a b ≡ false
ltb_no a b h = ground arith

AreBytes-drop : (n : ℕ) (xs : List ℕ) → AreBytes xs → AreBytes (drop n xs)
AreBytes-drop zero xs h = h
AreBytes-drop (suc n) [] h = tt
AreBytes-drop (suc n) (x ∷ xs) h = AreBytes-drop n xs h.1

AreBytes-replicate : (n a : ℕ) → a < 256 → AreBytes (replicate n a)
AreBytes-replicate zero a h = tt
AreBytes-replicate (suc n) a h = (h, AreBytes-replicate n a h)

module _ (l : Layout) (datalen pid nsent : ℕ) (now : TimeVal) (stores : Stores l now)
    (fits : l.tv_size ≤ datalen) where
  abbrev pattern_bytes : List ℕ
  pattern_bytes = replicate datalen 0xa5

  length-data_with : length (data_with l datalen pid now) ≡ datalen
  length-data_with =
      let a : ℕ = 0xa5 in
      length-append (l.encode_tv now) (drop l.tv_size pattern_bytes)
      ∙ omega (arith, stores.0, length-drop l.tv_size pattern_bytes, length-replicate datalen a)

  AreBytes-data : AreBytes (ident_seq l datalen pid nsent ++ data_with l datalen pid now)
  AreBytes-data = (
    first_byte_lt l.endian (pid % 2 ^ 16),
    (
      second_byte_lt l.endian (pid % 2 ^ 16),
      (
        first_byte_lt l.endian (nsent % 2 ^ 16),
        (
          second_byte_lt l.endian (nsent % 2 ^ 16),
          AreBytes-append (l.encode_tv now) (drop l.tv_size pattern_bytes) stores.2 (
              AreBytes-drop l.tv_size pattern_bytes
                (AreBytes-replicate datalen 0xa5 (omega arith))),
        ),
      ),
    ),
  )

  -- The checksum of the request is right.
  in_cksum-send_v4 : datalen < 65000 → in_cksum l.endian (send_v4 l datalen pid nsent now).0 ≡ 0
  unfolding send_v4
  in_cksum-send_v4 short =
      let post = ident_seq l datalen pid nsent ++ data_with l datalen pid now in
      let cksum = in_cksum l.endian (icmp_echo ∷ 0 ∷ (0 ∷ 0 ∷ post)) in
      in_cksum_verifies l.endian (icmp_echo ∷ 0 ∷ []) post tt (omega arith, (omega arith, tt))
        AreBytes-data (omega (arith, length-data_with)) (first_byte l.endian cksum)
        (second_byte l.endian cksum) (first_byte_lt l.endian cksum) (second_byte_lt l.endian cksum)
        (word-field l.endian cksum (in_cksum_lt l.endian (icmp_echo ∷ 0 ∷ (0 ∷ 0 ∷ post))))

  -- The reply behind its IPv4 header: the type, the code and a checksum are new.
  abbrev pub echoed : List ℕ → ℕ → ℕ → List ℕ
  echoed h1 c0 c1 = h1 ++ icmp_echoreply ∷ 0 ∷ c0 ∷ c1 ∷ drop 4 (send_v4 l datalen pid nsent now).0

  module _ (h1 : List ℕ) (vhl ttl c0 c1 : ℕ) (first : get_elem? h1 0 ≡ some vhl)
      (sized : length h1 ≡ vhl % 16 * 4) (t : get_elem? h1 8 ≡ some ttl)
      (icmp : get_elem? h1 9 ≡ some ipproto_icmp) (id : pid < 2 ^ 16) (enough : 8 ≤ datalen) where
    length-echoed : length (echoed h1 c0 c1) ≡ length h1 + (8 + datalen)
    unfolding send_v4
    length-echoed = length-append h1 _ ∙ omega (arith, length-data_with)

    proc_v4-echoed :
        (verbose : Bool) (tvrecv : TimeVal)
        → proc_v4 l pid verbose (echoed h1 c0 c1) (length (echoed h1 c0 c1)) tvrecv
          ≡ reply (8 + datalen) (nsent % 2 ^ 16) (some ttl) (tv_sub tvrecv now)
    unfolding proc_v4 send_v4
    proc_v4-echoed verbose tvrecv =
        let hl1 = vhl % 16 * 4 in
        let body =
          icmp_echoreply
          ∷ 0
          ∷ c0
          ∷ c1
          ∷ (ident_seq l datalen pid nsent ++ data_with l datalen pid now) in
        let buf = h1 ++ body in
        let len : length buf ≡ length h1 + (8 + datalen) = length-echoed in
        let sent : take l.tv_size (drop (hl1 + 8) buf) ≡ l.encode_tv now =
          ap (λ n. take l.tv_size (drop n buf)) {x = hl1 + 8} {y = length h1 + 8}
            (omega (arith, sized))
          ∙ ap (take l.tv_size) (drop-skip h1 body 8)
          ∙ ap (λ n. take n (data_with l datalen pid now)) (sym stores.0)
          ∙ take-append (l.encode_tv now) (drop l.tv_size pattern_bytes) in
        let n = length buf - hl1 in
        let on_seq : ℕ → Printed = λ seq.
          byte buf 8
            (λ ttl. reply n seq (some ttl) (rtt_from l pid verbose buf (hl1 + 8) tvrecv)) in
        let on_id : ℕ → Printed = λ id.
          if not (id == pid)
          then silent
          else if ltb n 16
          then silent
          else field_at l.endian buf (hl1 + 6) on_seq in
        let out = reply (8 + datalen) (nsent % 2 ^ 16) (some ttl) (tv_sub tvrecv now) in
        byte-then buf 0 vhl _ _ (get_elem?-front h1 body 0 vhl first) (
          byte-then buf 9 ipproto_icmp _ _ (get_elem?-front h1 body 9 ipproto_icmp icmp) (
            if_no (ltb (length buf) (hl1 + 8)) _ _ _
              (ltb_no (length buf) (hl1 + 8) (omega (arith, len, sized)))
              (byte-then buf hl1 icmp_echoreply _ _
                (get_elem?-at h1 body hl1 0 icmp_echoreply (omega (arith, sized)) refl)
                (field_at-then l.endian buf (hl1 + 4) (pid % 2 ^ 16) on_id out (omega arith)
                  (get_elem?-at h1 body (hl1 + 4) 4 (first_byte l.endian (pid % 2 ^ 16))
                    (omega (arith, sized)) refl)
                  (get_elem?-at h1 body (hl1 + 4 + 1) 5 (second_byte l.endian (pid % 2 ^ 16))
                    (omega (arith, sized)) refl)
                  (if_no (not (pid % 2 ^ 16 == pid)) silent
                    (if ltb n 16 then silent else field_at l.endian buf (hl1 + 6) on_seq) out
                    (ap not (==_eq (pid % 2 ^ 16) pid (omega (arith, id))))
                    (if_no (ltb n 16) silent (field_at l.endian buf (hl1 + 6) on_seq) out
                      (ltb_no n 16 (omega (arith, len, sized, enough)))
                      (field_at-then l.endian buf (hl1 + 6) (nsent % 2 ^ 16) on_seq out
                        (omega arith)
                        (get_elem?-at h1 body (hl1 + 6) 6 (first_byte l.endian (nsent % 2 ^ 16))
                          (omega (arith, sized)) refl)
                        (get_elem?-at h1 body (hl1 + 6 + 1) 7
                          (second_byte l.endian (nsent % 2 ^ 16)) (omega (arith, sized)) refl)
                        (byte-then buf 8 ttl
                          (λ ttl.
                            reply n (nsent % 2 ^ 16) (some ttl)
                              (rtt_from l pid verbose buf (hl1 + 8) tvrecv))
                          out (get_elem?-front h1 body 8 ttl t)
                          (ap
                              (λ n.
                                reply n (nsent % 2 ^ 16) (some ttl) (
                                  tv_sub tvrecv
                                    (l.decode_tv (take l.tv_size (drop (hl1 + 8) buf)))))
                              {x = n} {y = 8 + datalen} (omega (arith, len, sized))
                            ∙ ap
                                (λ d.
                                  reply (8 + datalen) (nsent % 2 ^ 16) (some ttl)
                                    (tv_sub tvrecv (l.decode_tv d)))
                                sent
                            ∙ ap
                                (λ d.
                                  reply (8 + datalen) (nsent % 2 ^ 16) (some ttl) (tv_sub tvrecv d))
                                stores.1)))))))))

    -- The data of the requests have at least 8 and fewer than 65000 bytes, and room for the time, which the compiler lays down so
    -- that it can be read back; the identifier is below 2^16. Then the checksum of a request of send_v4()
    -- is right, and from the echo of the request, behind any IPv4 header of ICMP with its options and
    -- with a checksum of its own, proc_v4() reads the length, the number of the request modulo 2^16, the
    -- TTL of the header, and the time from the sending to the arrival.
    pub send_v4-proc_v4 :
        (verbose : Bool) (tvrecv : TimeVal)
        → datalen < 65000
        → (in_cksum l.endian (send_v4 l datalen pid nsent now).0 ≡ 0)
          × (proc_v4 l pid verbose (echoed h1 c0 c1) (length (echoed h1 c0 c1)) tvrecv
              ≡ reply (8 + datalen) (nsent % 2 ^ 16) (some ttl) (tv_sub tvrecv now))
    send_v4-proc_v4 verbose tvrecv short = (in_cksum-send_v4 short, proc_v4-echoed verbose tvrecv)
