-- ===== src/Ping.antt =====
-- ping/send_v4.c, send_v6.c, proc_v4.c and proc_v6.c: the echo requests and what is made of the replies.
pub mod Echo
mod Tests
use unix_network_programming.Prelude.{
  ℕ, zero, suc, ◌+◌, ◌-◌, ◌*◌, ◌/◌, ◌%◌, ◌^◌, Bool, true, false, not, ◌&&◌, Option, none, some,
  List, [], ◌∷◌, ◌++◌, ltb, ◌==◌, if◌then◌else◌, length, get_elem?, take, drop, replicate,
}
use unix_network_programming.Cksum.{Endian, little, big, word, in_cksum}
use unix_network_programming.TimeVal.{TimeVal, tv_sub}

-- What the compiler lays down: the byte order, and `struct timeval` in memory.
pub record Layout : Type 0 where
  pub endian : Endian
  pub tv_size : ℕ
  pub encode_tv : TimeVal → List ℕ
  pub decode_tv : List ℕ → TimeVal

-- A 16-bit field in memory
abbrev pub first_byte : Endian → ℕ → ℕ
first_byte little n = n % 256
first_byte big n = n / 256 % 256

abbrev pub second_byte : Endian → ℕ → ℕ
second_byte little n = n / 256 % 256
second_byte big n = n % 256

abbrev pub field : Endian → ℕ → List ℕ
field o n = first_byte o n ∷ second_byte o n ∷ []

-- ICMP_ECHO, ICMP_ECHOREPLY, IPPROTO_ICMP, ICMP6_ECHO_REQUEST and ICMP6_ECHO_REPLY
abbrev pub icmp_echo : ℕ
icmp_echo = 8

abbrev pub icmp_echoreply : ℕ
icmp_echoreply = 0

abbrev pub ipproto_icmp : ℕ
ipproto_icmp = 1

abbrev pub icmp6_echo_request : ℕ
icmp6_echo_request = 128

abbrev pub icmp6_echo_reply : ℕ
icmp6_echo_reply = 129

-- Fields of a request: the identifier, the number, and the data with the pattern behind the time
module _ (l : Layout) (datalen pid : ℕ) where
  abbrev pub ident_seq : ℕ → List ℕ
  ident_seq nsent = field l.endian (pid % 2 ^ 16) ++ field l.endian (nsent % 2 ^ 16)

  abbrev pub data_with : TimeVal → List ℕ
  data_with now = l.encode_tv now ++ drop l.tv_size (replicate datalen 0xa5)

  -- send_v4(): what it sends as the request `nsent`, and the new `nsent`
  unfoldable pub send_v4 : ℕ → TimeVal → List ℕ × ℕ
  send_v4 nsent now =
      let cksum =
        in_cksum l.endian (icmp_echo ∷ 0 ∷ (0 ∷ 0 ∷ (ident_seq nsent ++ data_with now))) in
      (icmp_echo ∷ 0 ∷ (field l.endian cksum ++ (ident_seq nsent ++ data_with now)), nsent + 1)

  -- send_v6(): the kernel fills in the checksum.
  unfoldable pub send_v6 : ℕ → TimeVal → List ℕ → List ℕ × ℕ
  send_v6 nsent now cksum =
      (icmp6_echo_request ∷ 0 ∷ (cksum ++ (ident_seq nsent ++ data_with now)), nsent + 1)

-- What is printed: for a reply the length, the number, the TTL or hop limit and the round trip; for another
-- message the length, the type and the code. `outside` is an access outside the buffer.
pub data Printed : Type 0 where
  reply : ℕ → ℕ → Option ℕ → TimeVal → Printed
  other : ℕ → ℕ → ℕ → Printed
  silent : Printed
  outside : Printed

abbrev pub byte : List ℕ → ℕ → (ℕ → Printed) → Printed
byte buf i f = elim (get_elem? buf i) [ none ↦ outside | some b ↦ f b ]

-- A 16-bit field in the buffer
abbrev pub field_at : Endian → List ℕ → ℕ → (ℕ → Printed) → Printed
field_at o buf i f = byte buf i (λ a. byte buf (i + 1) (λ b. f (word o a b)))

-- A control message of recvmsg(): its level, type and value
pub record Cmsg : Type 0 where
  pub level : ℕ
  pub type : ℕ
  pub value : ℕ

-- IPPROTO_IPV6
abbrev pub ipproto_ipv6 : ℕ
ipproto_ipv6 = 41

-- The loop over the control messages; `none` is -1.
unfoldable pub hop_limit : ℕ → List Cmsg → Option ℕ
hop_limit ipv6_hoplimit [] = none
hop_limit ipv6_hoplimit (c ∷ cs) =
    if c.level == ipproto_ipv6 && c.type == ipv6_hoplimit
    then some c.value
    else hop_limit ipv6_hoplimit cs

module _ (l : Layout) (pid : ℕ) (verbose : Bool) (buf : List ℕ) where
  -- The time in the data that begin at `at`
  abbrev pub rtt_from : ℕ → TimeVal → TimeVal
  rtt_from at tvrecv = tv_sub tvrecv (l.decode_tv (take l.tv_size (drop at buf)))

  -- proc_v4() on `len` bytes
  unfoldable pub proc_v4 : ℕ → TimeVal → Printed
  proc_v4 len tvrecv = byte buf 0 (λ vhl.
      let hlen1 = vhl % 16 * 4 in
      byte buf 9 (λ proto.
        if not (proto == ipproto_icmp)
        then silent
        else if ltb len (hlen1 + 8)
        then silent
        else byte buf hlen1 (λ type.
          if type == icmp_echoreply
          then field_at l.endian buf (hlen1 + 4) (λ id.
            if not (id == pid)
            then silent
            else if ltb (len - hlen1) 16
            then silent
            else field_at l.endian buf (hlen1 + 6) (λ seq.
              byte buf 8 (λ ttl. reply (len - hlen1) seq (some ttl) (rtt_from (hlen1 + 8) tvrecv))))
          else if verbose
          then byte buf (hlen1 + 1) (λ code. other (len - hlen1) type code)
          else silent)))

  -- proc_v6(), with the control messages
  unfoldable pub proc_v6 : ℕ → List Cmsg → ℕ → TimeVal → Printed
  proc_v6 ipv6_hoplimit msg len tvrecv =
      if ltb len 8
      then silent
      else byte buf 0 (λ type.
        if type == icmp6_echo_reply
        then field_at l.endian buf 4 (λ id.
          if not (id == pid)
          then silent
          else if ltb len 16
          then silent
          else field_at l.endian buf 6
              (λ seq. reply len seq (hop_limit ipv6_hoplimit msg) (rtt_from 8 tvrecv)))
        else if verbose
        then byte buf 1 (λ code. other len type code)
        else silent)
