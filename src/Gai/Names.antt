-- ===== src/Gai/Names.antt =====
-- libgai/getnameinfo.c and gn_ipv46.c: from a socket address back to a name and a service.
mod Digits
pub mod Service
use unix_network_programming.Prelude.{
  ℕ, zero, suc, ◌+◌, ◌-◌, ◌/◌, ◌%◌, Bool, true, false, Option, none, some, List, [], ◌∷◌, ◌++◌, ltb,
  ◌==◌, if◌then◌else◌, take,
}
use unix_network_programming.Prelude.Codes.{codes}
use unix_network_programming.Gai.{Text, Family, unspec, inet, inet6, local, SockAddr}

-- The flags NI_xxx
pub record NameFlags : Type 0 where
  pub nofqdn : Bool
  pub numerichost : Bool
  pub namereqd : Bool
  pub numericserv : Bool
  pub dgram : Bool

-- The functions of the system; inet_ntop() is given the size of the buffer, and getservbyport() whether
-- it looks for "udp".
pub record NameResolver : Type 0 where
  pub inet_ntop : Family → List ℕ → ℕ → Option Text
  pub gethostbyaddr : Family → List ℕ → Option Text
  pub getservbyport : ℕ → Bool → Option Text

-- What is written to `host` and `serv`, without the NUL: `none` if nothing is.
pub record Written : Type 0 where
  pub host : Option Text
  pub serv : Option Text

-- snprintf(buf, len, "%s", s), for a `len` that is not 0
abbrev pub snprintf : ℕ → Text → Text
snprintf len s = take (len - 1) s

-- "%d" of a number below 10 ^ rounds
unfoldable pub decimal : ℕ → ℕ → Text
decimal zero n = []
decimal (suc rounds) n =
    let rest = decimal rounds (n / 10) in
    if ltb n 10 then (b'0' + n) ∷ [] else rest ++ (b'0' + n % 10) ∷ []

-- The name up to the first dot
unfoldable pub first_label : Text → Text
first_label [] = []
first_label (c ∷ cs) = if c == b'.' then [] else c ∷ first_label cs

module _ (r : NameResolver) (flags : NameFlags) where
  -- The host: `none` for the return of 1, else what is written to `host`.
  unfoldable pub numeric_host : Family → List ℕ → ℕ → Option (Option Text)
  numeric_host f addr hostlen = elim (r.inet_ntop f addr hostlen) [
    | none ↦ none
    | some t ↦ some (some t)
  ]

  unfoldable pub named_host : Family → List ℕ → ℕ → Option Text → Option (Option Text)
  named_host f addr hostlen (some name) =
      some (some (snprintf hostlen (if flags.nofqdn then first_label name else name)))
  named_host f addr hostlen none = if flags.namereqd then none else numeric_host f addr hostlen

  unfoldable pub host_name : Family → List ℕ → ℕ → Option (Option Text)
  host_name f addr zero = some none
  host_name f addr (suc n) =
      if flags.numerichost
      then numeric_host f addr (suc n)
      else named_host f addr (suc n) (r.gethostbyaddr f addr)

  -- The service; a port is below 2^16, so five digits are enough.
  unfoldable pub serv_name : ℕ → ℕ → Option Text
  serv_name port zero = none
  serv_name port (suc n) =
      if flags.numericserv
      then some (snprintf (suc n) (decimal 5 port))
      else elim (r.getservbyport port flags.dgram) [
        | none ↦ some (snprintf (suc n) (decimal 5 port))
        | some name ↦ some (snprintf (suc n) name)
      ]

  -- gn_ipv46(): `none` for 1
  unfoldable pub gn_ipv46 : Family → SockAddr → ℕ → ℕ → Option Written
  gn_ipv46 f sa hostlen servlen = elim (host_name f sa.bytes hostlen) [
    | none ↦ none
    | some host ↦ some (record { host = host; serv = serv_name sa.port servlen })
  ]

  -- getnameinfo(): `none` for 1
  unfoldable pub getnameinfo : Family → SockAddr → ℕ → ℕ → Option Written
  getnameinfo inet sa hostlen servlen = gn_ipv46 inet sa hostlen servlen
  getnameinfo inet6 sa hostlen servlen = gn_ipv46 inet6 sa hostlen servlen
  getnameinfo local sa hostlen servlen = some (record {
    host = if ltb 0 hostlen then some (snprintf hostlen (codes "/local")) else none;
    serv = if ltb 0 servlen then some (snprintf servlen sa.bytes) else none;
  })
  getnameinfo unspec sa hostlen servlen = none
  getnameinfo Family.unknown sa hostlen servlen = none
