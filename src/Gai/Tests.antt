-- ===== src/Gai/Tests.antt =====
-- Runs of libgai, and the theorems at concrete values.
use unix_network_programming.Prelude.{
  ◌⊎◌, ℕ, ◌+◌, ◌≡◌, refl, inl, Bool, true, false, ◌&&◌, Option, none, some, List, [], ◌∷◌, arith,
  if◌then◌else◌, subst,
}
use unix_network_programming.Prelude.Codes.{codes}
use unix_network_programming.Gai.{
  Text, Family, unspec, inet, local, Socktype, any, stream, dgram, noname, memory, Hints, SockAddr,
  AddrInfo, Heap, Lookup, with_address, fill, aistruct_linked, ga_aistruct, block, freed,
  freeaddrinfo,
}
use unix_network_programming.Gai.Memory.{has_address}
use unix_network_programming.Gai.Ports.{
  GetServByName, cloned_addr, cloned, port_entry, ga_port, atoi, add_port, numbered_ports,
  serv_ports, serv_result, ga_serv,
}
use unix_network_programming.Gai.Ports.Passes.{Found}
use unix_network_programming.Gai.Ports.Expand.{start, ga_serv-expand_all}
use unix_network_programming.Gai.Search.{ga_echeck, search_list, ga_nsearch}
use unix_network_programming.Gai.Resolve.{
  host_not_found, HostEnt, Host, found, failed, Resolver, add_addresses, save_name, host_result,
  lookup_host, try_v6, search_one, search_all, return_name, some_found, process_service, result,
  error, ip_lookup, unix_entries, unix_name, ga_unix, unix_path, checked_lookup, getaddrinfo,
  same_text, same_family,
}
use unix_network_programming.Gai.Resolve.Blocks.{FindsAddresses, asks_name}
use unix_network_programming.Gai.Resolve.Freed.{getaddrinfo-freeaddrinfo, getaddrinfo-error}
use unix_network_programming.Gai.Resolve.Quit.{is_quit, is_quit-getaddrinfo}
use unix_network_programming.Gai.Names.{
  NameFlags, NameResolver, Written, first_label, decimal, named_host, host_name, serv_name,
  gn_ipv46, getnameinfo,
}
use unix_network_programming.Gai.Names.Service.{getnameinfo-serv_ports}

-- A resolver that knows one host, with two addresses of IPv4
abbrev host_entry : HostEnt
host_entry = record {
  h_name = codes "a.b";
  h_addrtype = inet;
  h_addr_list = (192 ∷ 0 ∷ 2 ∷ 1 ∷ []) ∷ (192 ∷ 0 ∷ 2 ∷ 2 ∷ []) ∷ [];
}

abbrev if_host : Bool → Host
if_host true = found host_entry
if_host false = failed host_not_found

abbrev services : GetServByName
services name tcp = if same_text name (codes "daytime") && tcp then some 13 else none

abbrev resolver : Resolver
resolver = record {
  inet_pton = λ f t. none;
  gethostbyname2 = λ name f. if_host (same_text name (codes "a") && same_family f inet);
  gethostbyname = λ b name. if_host (same_text name (codes "a"));
  getservbyname = services;
  uname = some (codes "here");
}

abbrev type_of : Host → Family
type_of (found p) = p.h_addrtype
type_of (failed e) = inet

if_host_type : (b : Bool) → has_address (type_of (if_host b)) ≡ true
if_host_type true = refl
if_host_type false = refl

resolver-FindsAddresses : FindsAddresses resolver
resolver-FindsAddresses = (
  λ name f p e.
      subst (λ x. has_address (type_of x) ≡ true) e
        (if_host_type (same_text name (codes "a") && same_family f inet)),
  λ b name p e.
      subst (λ x. has_address (type_of x) ≡ true) e (if_host_type (same_text name (codes "a"))),
)

abbrev no_hints : Hints
no_hints = record {
  passive = false;
  canonname = true;
  other_flags = false;
  family = unspec;
  socktype = any;
  protocol = 0;
}

abbrev plenty : Heap
plenty = record { answers = []; live = 0 }

-- Both addresses, for TCP and UDP at port 13; the name is with the first.
abbrev entry : Bool → Socktype → Option Text → ℕ → ℕ → AddrInfo
entry clone t name port n = record {
  ai_clone = clone;
  ai_family = inet;
  ai_socktype = t;
  ai_protocol = 0;
  ai_canonname = name;
  ai_addr = some (record { bytes = 192 ∷ 0 ∷ 2 ∷ n ∷ []; port = port });
}

-- Only TCP has the service: one entry for each address.
abbrev both : List AddrInfo
both = entry true stream (some (codes "a.b")) 13 1 ∷ entry true stream none 13 2 ∷ []

getaddrinfo-both :
    getaddrinfo resolver (some (codes "a")) (some (codes "daytime")) (some no_hints) plenty ≡ (
      result both,
      record { ais = both; canon = none; heap = record { answers = []; live = 5 }; unlinked = [] },
    )
unfolding getaddrinfo checked_lookup ip_lookup ga_echeck ga_nsearch search_list unix_path search_all
    search_one try_v6 lookup_host host_result save_name add_addresses some_found return_name
    process_service ga_aistruct aistruct_linked fill with_address ga_serv serv_ports serv_result
    add_port ga_port port_entry cloned cloned_addr
getaddrinfo-both = refl

getaddrinfo-freeaddrinfo_example : (freeaddrinfo both (record { answers = []; live = 5 })).live ≡ 0
getaddrinfo-freeaddrinfo_example =
    getaddrinfo-freeaddrinfo resolver (some (codes "a")) (some (codes "daytime")) (some no_hints)
      plenty resolver-FindsAddresses both
      (record { ais = both; canon = none; heap = record { answers = []; live = 5 }; unlinked = [] })
      getaddrinfo-both

-- An unknown service: the name that the first entry holds is freed with it.
getaddrinfo_noname :
    getaddrinfo resolver (some (codes "a")) (some (codes "none")) (some no_hints) plenty
    ≡ (error noname, record { ais = []; canon = none; heap = plenty; unlinked = [] })
unfolding getaddrinfo checked_lookup ip_lookup ga_echeck ga_nsearch search_list unix_path search_all
    search_one try_v6 lookup_host host_result save_name add_addresses some_found return_name
    process_service ga_aistruct aistruct_linked fill with_address ga_serv serv_ports serv_result
    add_port freeaddrinfo freed
getaddrinfo_noname = refl

-- The memory runs out behind the copy of the name: it stays allocated.
abbrev scarce : Heap
scarce = record { answers = true ∷ true ∷ false ∷ []; live = 0 }

getaddrinfo_leak : getaddrinfo resolver (some (codes "a")) none (some no_hints) scarce ≡ (
  error memory,
  record {
    ais = [];
    canon = some (codes "a.b");
    heap = record { answers = []; live = 1 };
    unlinked = [];
  },
)
unfolding getaddrinfo checked_lookup ip_lookup ga_echeck ga_nsearch search_list unix_path search_all
    search_one try_v6 lookup_host host_result save_name add_addresses some_found return_name
    process_service ga_aistruct aistruct_linked fill with_address freeaddrinfo freed
getaddrinfo_leak = refl

getaddrinfo-error_example :
    ◌≡◌ {A = ℕ} 1 (0 + block (some (codes "a.b")))
    × ((asks_name (some (codes "a")) no_hints ≡ true) ⊎ ◌≡◌ {A = ℕ} 1 0)
unfolding unix_path
getaddrinfo-error_example =
    getaddrinfo-error resolver (some (codes "a")) none (some no_hints) scarce
      resolver-FindsAddresses memory
      (record {
        ais = [];
        canon = some (codes "a.b");
        heap = record { answers = []; live = 1 };
        unlinked = [];
      })
      refl getaddrinfo_leak

abbrev local_hints : Hints
local_hints = record {
  passive = false;
  canonname = false;
  other_flags = false;
  family = local;
  socktype = stream;
  protocol = 0;
}

is_quit-getaddrinfo_example :
    is_quit (getaddrinfo resolver (some (codes "a")) none (some local_hints) plenty) ≡ true
unfolding ga_echeck unix_path
is_quit-getaddrinfo_example =
    is_quit-getaddrinfo resolver (some (codes "a")) none (some local_hints) plenty

-- An error behind the first of two entries of a Unix domain socket: it stays allocated.
abbrev unix_hints : Hints
unix_hints = record {
  passive = true;
  canonname = false;
  other_flags = false;
  family = local;
  socktype = any;
  protocol = 0;
}

ga_unix_leak :
    (getaddrinfo resolver
      (some (codes "/local"))
      (some (codes "/tmp/s"))
      (some unix_hints)
      (record { answers = true ∷ true ∷ false ∷ []; live = 0 })).1.heap.live
    ≡ 2
unfolding getaddrinfo checked_lookup ga_echeck unix_path ga_unix unix_entries unix_name ga_aistruct
    aistruct_linked fill with_address
ga_unix_leak = refl

-- A number is the port for both types.
abbrev two : List Found
two =
    record {
      v6 = false;
      name = some (codes "n");
      addr = record { bytes = 192 ∷ 0 ∷ 2 ∷ 1 ∷ []; port = 0 };
    }
    ∷ record { v6 = false; name = none; addr = record { bytes = 192 ∷ 0 ∷ 2 ∷ 2 ∷ []; port = 0 } }
    ∷ []

ga_serv-expand_all_example : ga_serv services (start 0 two none [] 5) no_hints (codes "80") ≡ (
  none,
  record {
    ais =
        entry true stream (some (codes "n")) 80 1
        ∷ entry false dgram none 80 1
        ∷ entry true stream none 80 2
        ∷ entry false dgram none 80 2
        ∷ [];
    canon = none;
    heap = record { answers = []; live = 9 };
    unlinked = [];
  },
)
unfolding atoi
ga_serv-expand_all_example =
    ga_serv-expand_all services no_hints (codes "80") 0
      (record {
        v6 = false;
        name = some (codes "n");
        addr = record { bytes = 192 ∷ 0 ∷ 2 ∷ 1 ∷ []; port = 0 };
      })
      (record { v6 = false; name = none; addr = record { bytes = 192 ∷ 0 ∷ 2 ∷ 2 ∷ []; port = 0 } }
        ∷ [])
      none [] 5 refl

abbrev name_resolver : NameResolver
name_resolver = record {
  inet_ntop = λ f a n. none;
  gethostbyaddr = λ f a. some (codes "a.b");
  getservbyport = λ p u. none;
}

abbrev flags : NameFlags
flags = record {
  nofqdn = true;
  numerichost = false;
  namereqd = false;
  numericserv = true;
  dgram = false;
}

abbrev address : SockAddr
address = record { bytes = 192 ∷ 0 ∷ 2 ∷ 1 ∷ []; port = 8080 }

abbrev written : Written
written = record { host = some (codes "a"); serv = some (codes "8080") }

getnameinfo_run : getnameinfo name_resolver flags inet address 10 6 ≡ some written
unfolding getnameinfo gn_ipv46 host_name named_host serv_name first_label decimal
getnameinfo_run = refl

getnameinfo-serv_ports_example :
    (serv : Text) × (written.serv ≡ some serv)
    × ((g : GetServByName) (s : Lookup) (h : Hints)
        → serv_ports g s h serv ≡ numbered_ports 8080 s h)
getnameinfo-serv_ports_example =
    getnameinfo-serv_ports name_resolver flags inet address 10 6 written (inl refl) (omega arith)
      refl (omega arith) getnameinfo_run
