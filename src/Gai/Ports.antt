-- ===== src/Gai/Ports.antt =====
-- libgai/ga_clone.c, ga_port.c and ga_serv.c: the entries get their ports, and an entry without a
-- socket type is cloned for the second.
pub mod Passes
pub mod Expand
pub mod Blocks
use unix_network_programming.Prelude.{
  ℕ, zero, suc, ◌+◌, ◌-◌, ◌*◌, ◌%◌, ◌^◌, Bool, true, false, not, ◌&&◌, ◌||◌, Option, none, some,
  List, [], ◌∷◌, ◌++◌, leb, ◌==◌, if◌then◌else◌,
}
use unix_network_programming.Gai.{
  Text, Family, unspec, inet, inet6, local, unknown, Socktype, any, stream, dgram, raw, Eai, memory,
  noname, service, Hints, SockAddr, AddrInfo, Heap, alloc, Lookup, is_any,
}
use unix_network_programming.Gai

abbrev pub same_type : Socktype → Socktype → Bool
same_type any any = true
same_type stream stream = true
same_type dgram dgram = true
same_type raw raw = true
same_type Socktype.unknown Socktype.unknown = true
same_type _ _ = false

-- What ga_port() returns: the number of entries found, or `none` for -1; and the list and the memory
-- that it leaves.
pub record Ported : Type 0 where
  pub nfound : Option ℕ
  pub ais : List AddrInfo
  pub heap : Heap

-- `e` stands before what the rest of the loop leaves, and counts as `k` found.
abbrev pub counted : ℕ → AddrInfo → Ported → Ported
counted k e r = record {
  nfound = elim r.nfound [ none ↦ none | some n ↦ some (k + n) ];
  ais = e ∷ r.ais;
  heap = r.heap;
}

-- `ai->ai_socktype = socktype;` and the switch that sets the port. An entry without an address is only
-- in a list after an error.
abbrev pub set_port : ℕ → Socktype → AddrInfo → AddrInfo
set_port port t e = record e {
  ai_socktype = t;
  ai_addr = elim e.ai_addr [
    | none ↦ none
    | some a ↦
        some (record a { port = elim e.ai_family [ inet ↦ port | inet6 ↦ port | _ ↦ a.port ] })
  ];
}

-- `nfound++` of the switch
abbrev pub has_port : Family → ℕ
has_port inet = 1
has_port inet6 = 1
has_port unspec = 0
has_port local = 0
has_port Family.unknown = 0

-- ga_clone() of `e`, but for the address
abbrev pub clone_of : AddrInfo → AddrInfo
clone_of e = record e { ai_clone = false; ai_canonname = none; ai_addr = none }

-- The rest of the list from an entry on, as a function of the memory
abbrev pub Rest : Type 0
Rest = Heap → Ported

-- The entry `e` is cloned: after malloc() of the address, `es` stands behind the clone.
unfoldable pub cloned_addr : ℕ → Socktype → AddrInfo → List AddrInfo → Rest → Bool × Heap → Ported
cloned_addr port t e es rest (false, h) = record {
  nfound = none;
  ais = e ∷ clone_of e ∷ es;
  heap = h;
}
cloned_addr port t e es rest (true, h) = counted 0 e (
    counted (has_port e.ai_family) (set_port port t (record (clone_of e) { ai_addr = e.ai_addr }))
      (rest h))

-- After calloc() of the clone
unfoldable pub cloned : ℕ → Socktype → AddrInfo → List AddrInfo → Rest → Bool × Heap → Ported
cloned port t e es rest (false, h) = record { nfound = none; ais = e ∷ es; heap = h }
cloned port t e es rest (true, h) = cloned_addr port t e es rest (alloc h)

-- A round of the loop at the entry `e`
unfoldable pub port_entry : ℕ → Socktype → AddrInfo → List AddrInfo → Rest → Heap → Ported
port_entry port t e es rest h =
    if e.ai_clone
    then (if is_any e.ai_socktype
        then counted (has_port e.ai_family) (set_port port t e) (rest h)
        else cloned port t e es rest (alloc h))
    else if same_type e.ai_socktype t
    then counted (has_port e.ai_family) (set_port port t e) (rest h)
    else counted 0 e (rest h)

unfoldable pub ga_port : ℕ → Socktype → List AddrInfo → Heap → Ported
ga_port port t [] h = record { nfound = some 0; ais = []; heap = h }
ga_port port t (e ∷ es) h = port_entry port t e es (ga_port port t es) h

abbrev pub is_digit : ℕ → Bool
is_digit c = leb b'0' c && leb c b'9'

-- atoi() of a string of digits; it stops at another character. A value that no C int holds is outside
-- what the standard says of atoi(), and stands here as it is.
unfoldable pub atoi : ℕ → Text → ℕ
atoi n [] = n
atoi n (c ∷ cs) = if is_digit c then atoi (10 * n + (c - b'0')) cs else n

-- The first character, 0 for the end of the string.
abbrev pub first : Text → ℕ
first [] = 0
first (c ∷ cs) = c

-- The port numbers for TCP and UDP, in host order, that ga_serv() tries; `getservbyname` looks up a
-- name for TCP (`true`) or UDP. A port in a `sockaddr` stands for its number.
abbrev pub GetServByName : Type 0
GetServByName = Text → Bool → Option ℕ

-- `rc = ga_port(...)`, `nfound += rc`
unfoldable pub add_port : Option ℕ → Socktype → Option ℕ × Lookup → Option ℕ × Lookup
add_port none t r = r
add_port (some port) t (none, s) = (none, s)
add_port (some port) t (some n, s) =
    let r = ga_port port t s.ais s.heap in
    (elim r.nfound [ none ↦ none | some k ↦ some (n + k) ], record s { ais = r.ais; heap = r.heap })

-- The ports that the service has for the two types, where the hints ask for them.
abbrev pub wanted : Socktype → Socktype → Option ℕ → Option ℕ
wanted hint t port = if is_any hint || same_type hint t then port else none

-- A port number string
pub numbered_ports : ℕ → Lookup → Hints → Option ℕ × Lookup
numbered_ports port s h =
    if is_any h.socktype
    then add_port (some port) dgram (add_port (some port) stream (some 0, s))
    else add_port (some port) h.socktype (some 0, s)

-- ga_serv() before its last test: the number found, or `none` for EAI_MEMORY
unfoldable pub serv_ports : GetServByName → Lookup → Hints → Text → Option ℕ × Lookup
serv_ports serv_by_name s h serv =
    if is_digit (first serv)
    then numbered_ports (atoi 0 serv % 2 ^ 16) s h
    else add_port (wanted h.socktype dgram (serv_by_name serv false)) dgram
        (add_port (wanted h.socktype stream (serv_by_name serv true)) stream (some 0, s))

-- The last test of ga_serv()
unfoldable pub serv_result : Hints → Option ℕ × Lookup → Option Eai × Lookup
serv_result h (none, s) = (some memory, s)
serv_result h (some zero, s) = (some (if is_any h.socktype then noname else service), s)
serv_result h (some (suc n), s) = (none, s)

unfoldable pub ga_serv : GetServByName → Lookup → Hints → Text → Option Eai × Lookup
ga_serv serv_by_name s h serv = serv_result h (serv_ports serv_by_name s h serv)
