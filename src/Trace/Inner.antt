-- ===== src/Trace/Inner.antt =====
-- The tests for the probe behind an inner header, and what the type and the code of the message stand for.
use unix_network_programming.Prelude.{
  ℕ, ◌^◌, ◌+◌, ◌*◌, ◌%◌, ◌≤◌, ◌≡◌, refl, ap, sym, ◌∙◌, Bool, true, false, ◌&&◌, Option, none, some,
  List, arith, ltb, ◌==◌, if◌then◌else◌, length, get_elem?,
}
use unix_network_programming.Trace.{
  Reply, Verdict, answer, again, unset, byte, port_at, probe_port, unreach, time_exceeded,
  port_unreachable, unreachable, is_ours, inner_v4, inner_v6,
}
use unix_network_programming.Trace.Reads.{byte-hit}

-- An IPv4 header with its options, and the first byte
abbrev pub IsHeader : List ℕ → ℕ → Type 0
IsHeader h vhl = (get_elem? h 0 ≡ some vhl) × (length h ≡ vhl % 16 * 4)

-- Whether the quoted datagram is the probe
abbrev pub quotes : ℕ → ℕ → ℕ → ℕ → ℕ → ℕ → Bool
quotes sport dport seq proto s d = proto == 17 && (s == sport && d == (dport + seq) % 2 ^ 16)

-- What the message says of the probe
abbrev pub reply_v4 : ℕ → ℕ → Option Reply
reply_v4 type code =
    if type == 11 && code == 0
    then some time_exceeded
    else if type == 3
    then some (if code == 3 then port_unreachable else unreachable code)
    else none

abbrev pub reply_v6 : ℕ → ℕ → Option Reply
reply_v6 type code =
    if type == 3 && code == 0
    then some time_exceeded
    else if type == 1
    then some (if code == 4 then port_unreachable else unreachable code)
    else none

abbrev pub answered : Bool → Option Reply → Verdict
answered true (some r) = answer r
answered true none = again
answered false o = again

pub byte-then :
    (buf : List ℕ) (i b : ℕ) (f : ℕ → Verdict) (p : Verdict)
    → get_elem? buf i ≡ some b
    → f b ≡ p
    → byte buf i f ≡ p
byte-then buf i b f p h k = byte-hit buf i b f h ∙ k

pub if_no : (b : Bool) (p q r : Verdict) → b ≡ false → q ≡ r → (if b then p else q) ≡ r
if_no true p q r e h = cc
if_no false p q r e h = h

pub ltb_no : (a b : ℕ) → b ≤ a → ltb a b ≡ false
ltb_no a b h = ground arith

module _ (sport dport seq : ℕ) (buf : List ℕ) where
  -- The four bytes of the ports stand at `at`.
  module _ (at s0 s1 d0 d1 : ℕ) (g0 : get_elem? buf at ≡ some s0)
      (g1 : get_elem? buf (at + 1) ≡ some s1) (g2 : get_elem? buf (at + 2) ≡ some d0)
      (g3 : get_elem? buf (at + 2 + 1) ≡ some d1) where
    is_ours-quotes :
        (proto : ℕ) (f : Bool → Verdict)
        → is_ours sport dport seq buf proto at f
          ≡ f (quotes sport dport seq proto (s0 * 256 + s1) (d0 * 256 + d1))
    unfolding is_ours
    is_ours-quotes proto f = by_proto (proto == 17)
      where
        dports :
            port_at buf (at + 2) (λ d. f (d == probe_port dport seq))
            ≡ f (d0 * 256 + d1 == probe_port dport seq)
        dports =
            byte-then buf (at + 2) d0
              (λ b0. byte buf (at + 2 + 1) (λ b1. f (b0 * 256 + b1 == probe_port dport seq))) _ g2
              (byte-hit buf (at + 2 + 1) d1 (λ b1. f (d0 * 256 + b1 == probe_port dport seq)) g3)

        by_sport :
            (b : Bool)
            → (if b then port_at buf (at + 2) (λ d. f (d == probe_port dport seq)) else f false)
              ≡ f (b && d0 * 256 + d1 == probe_port dport seq)
        by_sport true = dports
        by_sport false = refl

        by_proto :
            (b : Bool)
            → (if b
                then port_at buf at (λ s.
                  if s == sport
                  then port_at buf (at + 2) (λ d. f (d == probe_port dport seq))
                  else f false)
                else f false)
              ≡ f (b && (s0 * 256 + s1 == sport && d0 * 256 + d1 == probe_port dport seq))
        by_proto true =
            byte-then buf at s0
              (λ b0. byte buf (at + 1) (λ b1.
                if b0 * 256 + b1 == sport
                then port_at buf (at + 2) (λ d. f (d == probe_port dport seq))
                else f false))
              _ g0
              (byte-then buf (at + 1) s1
                (λ b1.
                  if s0 * 256 + b1 == sport
                  then port_at buf (at + 2) (λ d. f (d == probe_port dport seq))
                  else f false)
                _ g1 (by_sport (s0 * 256 + s1 == sport)))
        by_proto false = refl

    pub inner_v4-quotes :
        (icmplen hlen1 vhl proto : ℕ) (f : Bool → Verdict)
        → get_elem? buf (hlen1 + 8) ≡ some vhl
        → get_elem? buf (hlen1 + 8 + 9) ≡ some proto
        → at ≡ hlen1 + 8 + vhl % 16 * 4
        → 28 ≤ icmplen
        → 8 + vhl % 16 * 4 + 4 ≤ icmplen
        → inner_v4 sport dport seq buf icmplen hlen1 f
          ≡ f (quotes sport dport seq proto (s0 * 256 + s1) (d0 * 256 + d1))
    unfolding inner_v4
    inner_v4-quotes icmplen hlen1 vhl proto f v p e l m =
        if_no (ltb icmplen 28) _ _ _ (ltb_no icmplen 28 l) (
          byte-then buf (hlen1 + 8) vhl _ _ v (
            if_no (ltb icmplen (8 + vhl % 16 * 4 + 4)) _ _ _
              (ltb_no icmplen (8 + vhl % 16 * 4 + 4) m)
              (byte-then buf (hlen1 + 8 + 9) proto _ _ p (
                ap (λ i. is_ours sport dport seq buf proto i f) (sym e) ∙ is_ours-quotes proto f))))

    pub inner_v6-quotes :
        (icmp6len nxt : ℕ) (f : Bool → Verdict)
        → get_elem? buf 14 ≡ some nxt
        → at ≡ 48
        → 52 ≤ icmp6len
        → inner_v6 sport dport seq buf icmp6len f
          ≡ f (quotes sport dport seq nxt (s0 * 256 + s1) (d0 * 256 + d1))
    unfolding inner_v6
    inner_v6-quotes icmp6len nxt f p e l = if_no (ltb icmp6len 52) _ _ _ (ltb_no icmp6len 52 l) (
        byte-then buf 14 nxt _ _ p
          (ap (λ i. is_ours sport dport seq buf nxt i f) (sym e) ∙ is_ours-quotes nxt f))

-- What recv_v4() makes of its tests, once it knows whether the probe is quoted
pub by_type_v4 :
    (type code : ℕ) (b : Bool) (inner : (Bool → Verdict) → Verdict)
    → ((f : Bool → Verdict) → inner f ≡ f b)
    → (if type == 11 && code == 0
        then inner (λ b. if b then answer time_exceeded else again)
        else if type == 3
        then inner (λ b. if b then answer (unreach 3 code) else again)
        else again)
      ≡ answered b (reply_v4 type code)
by_type_v4 type code b inner h = by_tests (type == 11 && code == 0) (type == 3) b h
  where
    by_tests :
        (x y b : Bool)
        → ((f : Bool → Verdict) → inner f ≡ f b)
        → (if x
            then inner (λ b. if b then answer time_exceeded else again)
            else if y
            then inner (λ b. if b then answer (unreach 3 code) else again)
            else again)
          ≡ answered b (if x then some time_exceeded else if y then some (unreach 3 code) else none)
    by_tests true y true h = h _
    by_tests true y false h = h _
    by_tests false true true h = h _
    by_tests false true false h = h _
    by_tests false false true h = refl
    by_tests false false false h = refl

-- The same for recv_v6(), where a quotation of another datagram may leave `ret` unset
abbrev pub answered_v6 : Bool → ℕ → ℕ → Verdict
answered_v6 b type code = elim b [
  | true ↦ answered true (reply_v6 type code)
  | false ↦ if type == 3 && code == 0 then unset else again
]

pub by_type_v6 :
    (type code : ℕ) (b : Bool) (inner : (Bool → Verdict) → Verdict)
    → ((f : Bool → Verdict) → inner f ≡ f b)
    → (if type == 3 && code == 0
        then inner (λ b. if b then answer time_exceeded else unset)
        else if type == 1
        then inner (λ b. if b then answer (unreach 4 code) else again)
        else again)
      ≡ answered_v6 b type code
by_type_v6 type code b inner h = by_tests (type == 3 && code == 0) (type == 1) b h
  where
    by_tests :
        (x y b : Bool)
        → ((f : Bool → Verdict) → inner f ≡ f b)
        → (if x
            then inner (λ b. if b then answer time_exceeded else unset)
            else if y
            then inner (λ b. if b then answer (unreach 4 code) else again)
            else again)
          ≡ (elim b as (λ _. Verdict) [
            | true ↦
                answered true
                  (if x then some time_exceeded else if y then some (unreach 4 code) else none)
            | false ↦ if x then unset else again
          ])
    by_tests true y true h = h _
    by_tests true y false h = h _
    by_tests false true true h = h _
    by_tests false true false h = h _
    by_tests false false true h = refl
    by_tests false false false h = refl
