-- ===== src/Icmpd/Errors.antt =====
-- icmpd/readable_v4.c and icmpd/readable_v6.c: the daemon reads an ICMP message and tells the clients
-- to whose sockets it belongs. `Parse` is what it makes of the bytes in `buf`.
pub mod Inside
pub mod Parsing
pub mod Delivery
use unix_network_programming.Prelude.{
  ℕ, zero, suc, ◌+◌, ◌-◌, ◌*◌, ◌%◌, Bool, true, false, ◌&&◌, ◌||◌, Option, none, some, List, [],
  ◌∷◌, ◌++◌, leb, ltb, ◌==◌, if◌then◌else◌, length, get_elem?, take, drop,
}
use unix_network_programming.Prelude.FdSet.{Entry}
use unix_network_programming.Cksum.{Endian, word}
use unix_network_programming.Icmpd.{
  Family, inet, inet6, other, Client, Errno, ehostunreach, emsgsize, econnrefused, SockAddr,
  IcmpdErr, notified, Daemon, Round, Outcome, running, quit, died, fault, ◌>>=◌, did, count,
}

-- A UDP error for the port `sport`; nothing to tell; err_quit(); an access outside `buf`.
pub data Parse : Type 0 where
  udp_error : ℕ → IcmpdErr → Parse
  ignored : Parse
  short : Parse
  outside : Parse

-- A byte of `buf`
abbrev pub byte : List ℕ → ℕ → (ℕ → Parse) → Parse
byte buf i f = elim (get_elem? buf i) [ none ↦ outside | some b ↦ f b ]

abbrev pub errno_v4 : ℕ → ℕ → Errno
errno_v4 type code =
    if type == 3
    then (if code == 3 then econnrefused else if code == 4 then emsgsize else ehostunreach)
    else ehostunreach

abbrev pub errno_v6 : ℕ → ℕ → Errno
errno_v6 type code =
    if type == 2
    then emsgsize
    else if (type == 1) && (code == 4)
    then econnrefused
    else ehostunreach

module _ (o : Endian) (buf : List ℕ) where
  -- The UDP header at `at`, in the packet whose destination address is `dst`
  unfoldable pub parse_udp : Family → Errno → ℕ → ℕ → List ℕ → ℕ → Parse
  parse_udp family errno type code dst at = byte buf at (λ s0. byte buf (at + 1) (λ s1.
      byte buf (at + 2) (λ d0. byte buf (at + 3) (λ d1. udp_error (word o s0 s1) (record {
        icmpd_errno = errno;
        icmpd_type = type;
        icmpd_code = code;
        icmpd_dest = record { family = family; addr = dst; port = d0 ∷ d1 ∷ [] };
      })))))

  -- The IPv4 header at `at`, inside an ICMP error
  unfoldable pub parse_inner_v4 : ℕ → ℕ → ℕ → Parse
  parse_inner_v4 type code at = byte buf at (λ vhl. byte buf (at + 9) (λ proto.
      if proto == 17
      then parse_udp inet (errno_v4 type code) type code (take 4 (drop (at + 16) buf))
          (at + vhl % 16 * 4)
      else ignored))

  -- The ICMP message behind an IP header of `hlen1` bytes, of the `n` bytes received
  unfoldable pub parse_icmp_v4 : ℕ → ℕ → Parse
  parse_icmp_v4 n hlen1 =
      if ltb n (hlen1 + 8)
      then short
      else byte buf hlen1 (λ type. byte buf (hlen1 + 1) (λ code.
        if (type == 3) || (type == 11) || (type == 4)
        then (if ltb n (hlen1 + (8 + 20 + 8)) then short else parse_inner_v4 type code (hlen1 + 8))
        else ignored))

  unfoldable pub parse_v4 : ℕ → Parse
  parse_v4 n = byte buf 0 (λ vhl. parse_icmp_v4 n (vhl % 16 * 4))

  -- The IPv6 header at 8, inside an ICMPv6 error
  pub parse_inner_v6 : ℕ → ℕ → Parse
  parse_inner_v6 type code = byte buf (8 + 6) (λ next.
      if next == 17
      then parse_udp inet6 (errno_v6 type code) type code (take 16 (drop (8 + 24) buf)) (8 + 40)
      else ignored)

  pub parse_v6 : ℕ → Parse
  parse_v6 n =
      if ltb n 8
      then short
      else byte buf 0 (λ type. byte buf 1 (λ code.
        if (type == 1) || (type == 2) || (type == 3)
        then (if ltb n (8 + 8) then short else parse_inner_v6 type code)
        else ignored))

abbrev pub same_family : Family → Family → Bool
same_family inet inet = true
same_family inet6 inet6 = true
same_family _ _ = false

abbrev pub port_is : Option ℕ → ℕ → Bool
port_is none sport = false
port_is (some p) sport = p == sport

-- `client[i].family == family && client[i].lport == sport`
abbrev pub is_for : Family → ℕ → Client → Bool
is_for family sport c = same_family c.family family && port_is c.lport sport

module _ (r : Round) (family : Family) (sport : ℕ) (e : IcmpdErr) where
  -- A round of the loop over the clients; `again` goes on with the next entry.
  unfoldable pub deliver_to : (Daemon → Outcome) → Daemon → Client → Entry → Outcome
  deliver_to again s c none = again s
  deliver_to again s c (some fd) =
      if is_for family sport c
      then (if r.write fd then again (did s (notified fd e)) else died)
      else again s

  unfoldable pub deliver_entry : (Daemon → Outcome) → Daemon → Option Client → Outcome
  deliver_entry again s none = fault
  deliver_entry again s (some c) = deliver_to again s c c.connfd

  -- `rounds` entries from `i` on
  unfoldable pub deliver : ℕ → ℕ → Daemon → Outcome
  deliver zero i s = running s
  deliver (suc rounds) i s = deliver_entry (deliver rounds (i + 1)) s (get_elem? s.client i)

-- What follows the parse, up to the `return`
unfoldable pub after_parse : Round → Family → Daemon → Parse → Outcome
after_parse r family s (udp_error sport e) =
    deliver r family sport e s.limit 0 s >>= λ t. running (count t)
after_parse r family s ignored = running (count s)
after_parse r family s short = quit
after_parse r family s outside = fault

-- `buf` after Recvfrom()
abbrev pub received : List ℕ → List ℕ → List ℕ
received d stack = d ++ drop (length d) stack

module _ (o : Endian) (r : Round) where
  unfoldable pub readable_v4 : Daemon → Outcome
  readable_v4 s = elim r.recv4 [
    | none ↦ died
    | some d ↦ after_parse r inet s (parse_v4 o (received d r.stack4) (length d))
  ]

  unfoldable pub readable_v6 : Daemon → Outcome
  readable_v6 s = elim r.recv6 [
    | none ↦ died
    | some d ↦ after_parse r inet6 s (parse_v6 o (received d r.stack6) (length d))
  ]
