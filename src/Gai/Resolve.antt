-- ===== src/Gai/Resolve.antt =====
-- libgai/getaddrinfo.c and ga_unix.c: the searches, the canonical name, and the ways out.
pub mod Blocks
pub mod Complete
pub mod Ends
pub mod Freed
pub mod Quit
use unix_network_programming.Prelude.{
  ℕ, zero, suc, ◌+◌, ◌-◌, Bool, true, false, not, ◌&&◌, ◌||◌, Option, none, some, List, [], ◌∷◌,
  ◌++◌, leb, ◌==◌, if◌then◌else◌, length,
}
use unix_network_programming.Prelude.Codes.{codes}
use unix_network_programming.Gai.{
  Text, Family, unspec, inet, inet6, local, unknown, Socktype, any, stream, dgram, raw, Eai,
  addrfamily, again, fail, memory, nodata, noname, system, Hints, AddrInfo, Heap, alloc, Lookup,
  is_any, ga_aistruct, freeaddrinfo,
}
use unix_network_programming.Gai
use unix_network_programming.Gai.Ports.{GetServByName, ga_serv, is_digit, first}
use unix_network_programming.Gai.Search.{is_missing, ga_echeck, search_list, ga_nsearch}

-- `h_errno`
pub data HErrno : Type 0 where
  host_not_found try_again no_recovery no_data other : HErrno

pub record HostEnt : Type 0 where
  pub h_name : Text
  pub h_addrtype : Family
  pub h_addr_list : List (List ℕ)

pub data Host : Type 0 where
  found : HostEnt → Host
  failed : HErrno → Host

-- The functions of the system: inet_pton(), gethostbyname2(), gethostbyname() with or without
-- RES_USE_INET6, getservbyname() and uname().
pub record Resolver : Type 0 where
  pub inet_pton : Family → Text → Option (List ℕ)
  pub gethostbyname2 : Text → Family → Host
  pub gethostbyname : Bool → Text → Host
  pub getservbyname : GetServByName
  pub uname : Option Text

abbrev pub is_hex : ℕ → Bool
is_hex c = is_digit c || leb b'a' c && leb c b'f' || leb b'A' c && leb c b'F'

-- strchr(s, c) != NULL
abbrev pub contains : ℕ → Text → Bool
contains c [] = false
contains c (x ∷ xs) = x == c || contains c xs

abbrev pub same_family : Family → Family → Bool
same_family unspec unspec = true
same_family inet inet = true
same_family inet6 inet6 = true
same_family local local = true
same_family Family.unknown Family.unknown = true
same_family _ _ = false

-- `hints.ai_family != AF_UNSPEC && hints.ai_family != f`
abbrev pub mismatch : Hints → Family → Bool
mismatch h f = not (same_family h.family unspec) && not (same_family h.family f)

-- An error goes to `bad`, else the code goes on.
infixl 5 ◌>>=◌
abbrev pub ◌>>=◌ : Option Eai × Lookup → (Lookup → Option Eai × Lookup) → Option Eai × Lookup
(none, s) >>= f = f s
(some e, s) >>= f = (some e, s)

abbrev pub herror : HErrno → Eai
herror host_not_found = noname
herror try_again = again
herror no_recovery = fail
herror no_data = nodata
herror other = noname

-- An address string of the family `f`, in the search for `sf`
unfoldable pub literal : Lookup → Hints → Family → Family → List ℕ → Option Eai × Lookup
literal s h sf f addr =
    if mismatch h f
    then (some addrfamily, s)
    else if same_family sf f
    then ga_aistruct s h addr f
    else (none, s)

-- One addrinfo{} for each address
unfoldable pub add_addresses : Hints → Family → List (List ℕ) → Lookup → Option Eai × Lookup
add_addresses h f [] s = (none, s)
add_addresses h f (a ∷ addrs) s = ga_aistruct s h a f >>= add_addresses h f addrs

-- After strdup() of the canonical name
abbrev pub name_saved : Lookup → Text → Bool × Heap → Option Eai × Lookup
name_saved s name (false, heap) = (some memory, record s { heap = heap })
name_saved s name (true, heap) = (none, record s { heap = heap; canon = some name })

-- "save canonical name first time"
unfoldable pub save_name : Option Text → Hints → Text → Lookup → Option Eai × Lookup
save_name hostname h name s =
    if not (is_missing hostname) && h.canonname
    then elim s.canon [ none ↦ name_saved s name (alloc s.heap) | some c ↦ (none, s) ]
    else (none, s)

-- After gethostbyname2() in one of two searches, or gethostbyname() in the only one
unfoldable pub host_result : Option Text → Hints → Bool → Lookup → Host → Option Eai × Lookup
host_result hostname h two s (failed e) = if two then (none, s) else (some (herror e), s)
host_result hostname h two s (found p) =
    if mismatch h p.h_addrtype
    then (some addrfamily, s)
    else save_name hostname h p.h_name s >>= add_addresses h p.h_addrtype p.h_addr_list

module _ (r : Resolver) (hostname : Option Text) (h : Hints) (nsearch : ℕ) where
  unfoldable pub lookup_host : Text → Family → Lookup → Option Eai × Lookup
  lookup_host host f s =
      if nsearch == 2
      then host_result hostname h true s (r.gethostbyname2 host f)
      else host_result hostname h false s (r.gethostbyname (same_family f inet6) host)

  -- "check for an IPv6 hex string"
  unfoldable pub try_v6 : Text → Family → Lookup → Option Eai × Lookup
  try_v6 host f s =
      if (is_hex (first host) || first host == b':') && contains b':' host
      then elim (r.inet_pton inet6 host) [
        | none ↦ lookup_host host f s
        | some a ↦ literal s h f inet6 a
      ]
      else lookup_host host f s

  -- A search: "check for an IPv4 dotted-decimal string" first
  unfoldable pub search_one : Text → Family → Lookup → Option Eai × Lookup
  search_one host f s =
      if is_digit (first host)
      then elim (r.inet_pton inet host) [ none ↦ try_v6 host f s | some a ↦ literal s h f inet a ]
      else try_v6 host f s

  unfoldable pub search_all : List (Text × Family) → Lookup → Option Eai × Lookup
  search_all [] s = (none, s)
  search_all ((host, f) ∷ ss) s = search_one host f s >>= search_all ss

-- `aihead->ai_canonname = name`
abbrev pub named : Text → List AddrInfo → List AddrInfo
named name [] = []
named name (e ∷ es) = record e { ai_canonname = some name } ∷ es

abbrev pub first_host : List (Text × Family) → Text
first_host [] = []
first_host ((host, f) ∷ ss) = host

-- After strdup() of the first search's name
abbrev pub name_copied : Lookup → Text → Bool × Heap → Option Eai × Lookup
name_copied s name (false, heap) = (some memory, record s { heap = heap })
name_copied s name (true, heap) = (none, record s { heap = heap; ais = named name s.ais })

-- "return canonical name": a name that was saved now belongs to the first entry.
unfoldable pub return_name :
    Option Text → Hints → List (Text × Family) → Lookup → Option Eai × Lookup
return_name hostname h ss s =
    if not (is_missing hostname) && h.canonname
    then elim s.canon [
      | some c ↦ (none, record s { canon = none; ais = named c s.ais })
      | none ↦ name_copied s (first_host ss) (alloc s.heap)
    ]
    else (none, s)

-- `if (aihead == NULL) error(EAI_NONAME);`
unfoldable pub some_found : Lookup → Option Eai × Lookup
some_found s = elim s.ais [ [] ↦ (some noname, s) | e ∷ es ↦ (none, s) ]

unfoldable pub process_service : Resolver → Option Text → Hints → Lookup → Option Eai × Lookup
process_service r servname h s =
    if is_missing servname
    then (none, s)
    else elim servname [ none ↦ (none, s) | some serv ↦ ga_serv r.getservbyname s h serv ]

-- How getaddrinfo() ends: the result; an error; or err_quit() in ga_nsearch().
pub data Ending : Type 0 where
  result : List AddrInfo → Ending
  error : Eai → Ending
  quit : Ending

abbrev pub ended : Option Eai × Lookup → Ending × Lookup
ended (none, s) = (result s.ais, s)
ended (some e, s) = (error e, record s { ais = []; heap = freeaddrinfo s.ais s.heap })

-- The remainder of the function for IPv4 and IPv6
unfoldable pub ip_lookup : Resolver → Option Text → Option Text → Hints → Lookup → Ending × Lookup
ip_lookup r hostname servname h s = elim (ga_nsearch hostname h) [
  | none ↦ (quit, s)
  | some ss ↦ ended (
      search_all r hostname h (length ss) ss s
      >>= some_found
      >>= return_name hostname h ss
      >>= process_service r servname h)
]

-- ga_unix() after the first entry, if there are two
abbrev pub with_socktype : Hints → Socktype → Hints
with_socktype h t = record h { socktype = t }

unfoldable pub unix_entries : Hints → Text → Lookup → Option Eai × Lookup
unix_entries h path s =
    if is_any h.socktype
    then (ga_aistruct s (with_socktype h stream) path local >>= λ t.
        ga_aistruct t (with_socktype h dgram) path local)
    else ga_aistruct s h path local

-- AI_CANONNAME of ga_unix()
unfoldable pub unix_name : Option Text → Hints → Lookup → Option Eai × Lookup
unix_name uname h s =
    if h.canonname
    then elim uname [ none ↦ (some system, s) | some node ↦ name_copied s node (alloc s.heap) ]
    else (none, s)

abbrev pub unix_ended : Option Eai × Lookup → Ending × Lookup
unix_ended (none, s) = (result s.ais, s)
unix_ended (some e, s) = (error e, s)

-- ga_unix(): on an error its entries are not freed, and `*result` is not set.
unfoldable pub ga_unix : Option Text → Hints → Text → Lookup → Ending × Lookup
ga_unix uname h path s =
    if mismatch h local
    then (error addrfamily, s)
    else unix_ended (unix_entries h path s >>= unix_name uname h)

abbrev pub same_text : Text → Text → Bool
same_text [] [] = true
same_text (x ∷ xs) (y ∷ ys) = x == y && same_text xs ys
same_text _ _ = false

-- The special case of a Unix domain socket: the path
unfoldable pub unix_path : Option Text → Option Text → Option Text
unix_path (some host) (some serv) =
    if (same_text host (codes "/local") || same_text host (codes "/unix")) && first serv == b'/'
    then some serv
    else none
unix_path _ _ = none

abbrev pub given_hints : Option Hints → Hints
given_hints (some h) = h
given_hints none = record {
  passive = false;
  canonname = false;
  other_flags = false;
  family = unspec;
  socktype = any;
  protocol = 0;
}

-- getaddrinfo() after the checks
unfoldable pub checked_lookup :
    Resolver → Option Text → Option Text → Hints → Lookup → Ending × Lookup
checked_lookup r hostname servname h s = elim (unix_path hostname servname) [
  | some path ↦ ga_unix r.uname h path s
  | none ↦ ip_lookup r hostname servname h s
]

unfoldable pub getaddrinfo :
    Resolver → Option Text → Option Text → Option Hints → Heap → Ending × Lookup
getaddrinfo r hostname servname hintsp heap =
    let h : Hints = given_hints hintsp in
    let s : Lookup = record { ais = []; canon = none; heap = heap; unlinked = [] } in
    elim (ga_echeck hostname servname h) [
      | some e ↦ (error e, s)
      | none ↦ checked_lookup r hostname servname h s
    ]
