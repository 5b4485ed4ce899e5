-- ===== src/Connect/Tests.antt =====
-- A connection to the second of two addresses, and the theorem at it.
use unix_network_programming.Prelude.{ℕ, ◌≡◌, refl, true, false, none, some, List, [], ◌∷◌, subst}
use unix_network_programming.Prelude.Codes.{codes}
use unix_network_programming.Gai.{
  Family, inet, unspec, stream, AddrInfo, Heap, Lookup, with_address, fill, aistruct_linked,
  ga_aistruct,
}
use unix_network_programming.Gai.Memory.{has_address}
use unix_network_programming.Gai.Search.{ga_echeck, ga_nsearch, search_list}
use unix_network_programming.Gai.Resolve.{
  host_not_found, Host, found, failed, Resolver, result, host_result, lookup_host, try_v6,
  search_one, search_all, save_name, add_addresses, some_found, return_name, process_service,
  ip_lookup, unix_path, checked_lookup, getaddrinfo,
}
use unix_network_programming.Gai.Resolve.Blocks.{FindsAddresses}
use unix_network_programming.Connect.{Try, connect_or_bind, as_it_is, open_socket, hints_for}
use unix_network_programming.Connect.Settled.{
  works, closed, Ends, AnyMemory, as_it_is-Finishes, open_socket-Ends,
}

-- gethostbyname2() finds two addresses of IPv4 for each name.
abbrev answer : Family → Host
answer inet = found (record {
  h_name = codes "h";
  h_addrtype = inet;
  h_addr_list = (10 ∷ 0 ∷ 0 ∷ 1 ∷ []) ∷ (10 ∷ 0 ∷ 0 ∷ 2 ∷ []) ∷ [];
})
answer _ = failed host_not_found

abbrev resolver : Resolver
resolver = record {
  inet_pton = λ f t. none;
  gethostbyname2 = λ name f. answer f;
  gethostbyname = λ b name. failed host_not_found;
  getservbyname = λ name tcp. none;
  uname = none;
}

abbrev type_of : Host → Family
type_of (found p) = p.h_addrtype
type_of (failed e) = inet

answer_type : (f : Family) → has_address (type_of (answer f)) ≡ true
answer_type inet = refl
answer_type unspec = refl
answer_type Family.inet6 = refl
answer_type Family.local = refl
answer_type Family.unknown = refl

resolver-FindsAddresses : FindsAddresses resolver
resolver-FindsAddresses =
    (λ name f p e. subst (λ x. has_address (type_of x) ≡ true) e (answer_type f), λ b name p e. cc)

abbrev entry : ℕ → AddrInfo
entry n = record {
  ai_clone = false;
  ai_family = inet;
  ai_socktype = stream;
  ai_protocol = 0;
  ai_canonname = none;
  ai_addr = some (record { bytes = 10 ∷ 0 ∷ 0 ∷ n ∷ []; port = 0 });
}

abbrev lookup_of : List AddrInfo → Lookup
lookup_of ais = record {
  ais = ais;
  canon = none;
  heap = record { answers = []; live = 4 };
  unlinked = [];
}

abbrev plenty : Heap
plenty = record { answers = []; live = 0 }

two_found :
    getaddrinfo resolver (some (codes "h")) none (some (hints_for false stream)) plenty
    ≡ (result (entry 1 ∷ entry 2 ∷ []), lookup_of (entry 1 ∷ entry 2 ∷ []))
unfolding getaddrinfo checked_lookup ip_lookup ga_echeck ga_nsearch search_list unix_path search_all
    search_one try_v6 lookup_host host_result save_name add_addresses some_found return_name
    process_service ga_aistruct aistruct_linked fill with_address
two_found = refl

-- connect() to the first address fails.
abbrev tries : List Try
tries =
    record { sockfd = some 3; setsockopt = true; addressed = false }
    ∷ record { sockfd = some 3; setsockopt = true; addressed = true }
    ∷ []

open_socket-Ends_example : Ends (2 ∷ []) 0 0 (some (3, entry 2)) (
    open_socket connect_or_bind as_it_is tries
      (2 ∷ [])
      (getaddrinfo resolver (some (codes "h")) none (some (hints_for false stream)) plenty))
open_socket-Ends_example =
    open_socket-Ends connect_or_bind as_it_is 0 AnyMemory as_it_is-Finishes resolver
      (some (codes "h")) none (some (hints_for false stream)) plenty (2 ∷ []) tries (entry 1)
      (entry 2 ∷ []) (lookup_of (entry 1 ∷ entry 2 ∷ [])) (some (3, entry 2))
      resolver-FindsAddresses two_found tt (closed refl refl (works refl refl))
