-- ===== src/Gai/Resolve/Blocks.antt =====
-- The blocks in use when getaddrinfo() is done.
use unix_network_programming.Prelude.{
  ℕ, ◌≡◌, refl, ap, sym, ◌∙◌, subst, Bool, true, false, not, ◌&&◌, ◌||◌, Option, none, some, List,
  [], ◌∷◌, arith, if◌then◌else◌, ◌==◌,
}
use unix_network_programming.Gai.{
  Text, Family, inet, inet6, Eai, addrfamily, noname, Hints, AddrInfo, Heap, alloc, Lookup,
  ga_aistruct, block,
}
use unix_network_programming.Gai.Memory.{
  Allocated, alloc_lem, Ready, Nonempty, Filled, Post, has_address, ga_aistruct-Filled, Post-map,
}
use unix_network_programming.Gai.Ports.{is_digit, first}
use unix_network_programming.Gai.Search.{is_missing}
use unix_network_programming.Gai.Resolve.{
  HostEnt, Host, found, failed, Resolver, is_hex, contains, same_family, mismatch, ◌>>=◌, literal,
  add_addresses, name_saved, save_name, host_result, lookup_host, try_v6, search_one, search_all,
  some_found,
}

-- gethostbyname() and gethostbyname2() return addresses of IPv4 or IPv6.
abbrev pub FindsAddresses : Resolver → Type 0
FindsAddresses r =
    ((name : Text) (f : Family) (p : HostEnt)
      → r.gethostbyname2 name f ≡ found p
      → has_address p.h_addrtype ≡ true)
    × ((b : Bool) (name : Text) (p : HostEnt)
        → r.gethostbyname b name ≡ found p
        → has_address p.h_addrtype ≡ true)

-- The caller asks for the canonical name of a host.
abbrev pub asks_name : Option Text → Hints → Bool
asks_name hostname h = not (is_missing hostname) && h.canonname

module _ (base : ℕ) (Q : Option Text → Type 0) where
  pub bind_lem :
      (R S : Lookup → Type 0) (o : Option Eai × Lookup) (f : Lookup → Option Eai × Lookup)
      → Post base Q R o
      → ((s : Lookup) → R s → Post base Q S (f s))
      → Post base Q S (o >>= f)
  bind_lem R S (none, s) f p k = k s p
  bind_lem R S (some e, s) f p k = p

  pub aistruct-Ready :
      (h : Hints) (addr : List ℕ) (f : Family) (s : Lookup)
      → has_address f ≡ true
      → Ready base Q s
      → Post base Q (Ready base Q) (ga_aistruct s h addr f)
  aistruct-Ready h addr f s k p =
      Post-map base Q (Filled base Q) (Ready base Q) (ga_aistruct s h addr f) (λ s q. q.0)
        (ga_aistruct-Filled base Q s h addr f k p)

  literal-Ready :
      (s : Lookup) (h : Hints) (sf f : Family) (addr : List ℕ)
      → has_address f ≡ true
      → Ready base Q s
      → Post base Q (Ready base Q) (literal s h sf f addr)
  unfolding literal
  literal-Ready s h sf f addr k p = by_tests (mismatch h f) (same_family sf f)
    where
      by_tests :
          (b c : Bool)
          → Post base Q
              (Ready base Q)
              (if b then (some addrfamily, s) else if c then ga_aistruct s h addr f else (none, s))
      by_tests true c = (p.0, p.3)
      by_tests false true = aistruct-Ready h addr f s k p
      by_tests false false = p

  add_addresses-Ready :
      (h : Hints) (f : Family) (addrs : List (List ℕ)) (s : Lookup)
      → has_address f ≡ true
      → Ready base Q s
      → Post base Q (Ready base Q) (add_addresses h f addrs s)
  unfolding add_addresses
  add_addresses-Ready h f [] s k p = p
  add_addresses-Ready h f (a ∷ addrs) s k p =
      bind_lem (Ready base Q) (Ready base Q) (ga_aistruct s h a f) (add_addresses h f addrs)
        (aistruct-Ready h a f s k p) λ t q. add_addresses-Ready h f addrs t k q

-- Without the request there is no saved name.
abbrev pub Saved : Option Text → Hints → Option Text → Type 0
Saved hostname h c = asks_name hostname h ≡ false → c ≡ none

module _ (base : ℕ) (hostname : Option Text) (h : Hints) where
  abbrev Q : Option Text → Type 0
  Q = Saved hostname h

  abbrev R : Lookup → Type 0
  R = Ready base Q

  save_name-Ready : (name : Text) (s : Lookup) → R s → Post base Q R (save_name hostname h name s)
  unfolding save_name
  save_name-Ready name s (p, q, a, c) = by_asked (asks_name hostname h) refl
    where
      by_answer :
          (o : Bool × Heap)
          → asks_name hostname h ≡ true
          → s.canon ≡ none
          → Allocated s.heap o
          → Post base Q R (name_saved s name o)
      by_answer (false, g) e n al = (omega (arith, p, al), c)
      by_answer (true, g) e n al =
          (omega (arith, p, al, ap block n), q, a, λ z. absurd (bool (sym e ∙ z)))
        where
          bool : true ≡ false → ⊥
          bool = cc

      by_canon :
          (o : Option Text)
          → asks_name hostname h ≡ true
          → s.canon ≡ o
          → Post base Q R (elim o as (λ _. Option Eai × Lookup) [
            | none ↦ name_saved s name (alloc s.heap)
            | some c ↦ (none, s)
          ])
      by_canon none e n = by_answer (alloc s.heap) e n (alloc_lem s.heap)
      by_canon (some x) e n = (p, q, a, c)

      by_asked :
          (b : Bool)
          → asks_name hostname h ≡ b
          → Post base Q R (
              if b
              then elim s.canon [ none ↦ name_saved s name (alloc s.heap) | some c ↦ (none, s) ]
              else (none, s))
      by_asked true e = by_canon s.canon e refl
      by_asked false e = (p, q, a, c)

  host_result-Ready :
      (two : Bool) (s : Lookup) (x : Host)
      → ((p : HostEnt) → x ≡ found p → has_address p.h_addrtype ≡ true)
      → R s
      → Post base Q R (host_result hostname h two s x)
  unfolding host_result
  host_result-Ready true s (failed e) k p = p
  host_result-Ready false s (failed e) k p = (p.0, p.3)
  host_result-Ready two s (found x) k p = by_family (mismatch h x.h_addrtype)
    where
      by_family :
          (b : Bool)
          → Post base Q R (
              if b
              then (some addrfamily, s)
              else save_name hostname h x.h_name s >>= add_addresses h x.h_addrtype x.h_addr_list)
      by_family true = (p.0, p.3)
      by_family false =
          bind_lem base Q R R (save_name hostname h x.h_name s)
            (add_addresses h x.h_addrtype x.h_addr_list) (save_name-Ready x.h_name s p)
            λ t q. add_addresses-Ready base Q h x.h_addrtype x.h_addr_list t (k x refl) q

  module _ (r : Resolver) (k : FindsAddresses r) (nsearch : ℕ) where
    lookup_host-Ready :
        (host : Text) (f : Family) (s : Lookup)
        → R s
        → Post base Q R (lookup_host r hostname h nsearch host f s)
    unfolding lookup_host
    lookup_host-Ready host f s p = by_searches (nsearch == 2)
      where
        by_searches :
            (b : Bool)
            → Post base Q R (
                if b
                then host_result hostname h true s (r.gethostbyname2 host f)
                else host_result hostname h false s (r.gethostbyname (same_family f inet6) host))
        by_searches true = host_result-Ready true s (r.gethostbyname2 host f) (k.0 host f) p
        by_searches false =
            host_result-Ready false s (r.gethostbyname (same_family f inet6) host)
              (k.1 (same_family f inet6) host) p

    -- An address string, or else what comes behind
    by_pton :
        (sf f : Family) (s : Lookup) (o : Option (List ℕ)) (other : Option Eai × Lookup)
        → has_address f ≡ true
        → R s
        → Post base Q R other
        → Post base Q R
            (elim o as (λ _. Option Eai × Lookup) [ none ↦ other | some a ↦ literal s h sf f a ])
    by_pton sf f s none other e p q = q
    by_pton sf f s (some a) other e p q = literal-Ready base Q s h sf f a e p

    either :
        (b : Bool) (x y : Option Eai × Lookup)
        → Post base Q R x
        → Post base Q R y
        → Post base Q R (if b then x else y)
    either true x y p q = p
    either false x y p q = q

    try_v6-Ready :
        (host : Text) (f : Family) (s : Lookup)
        → R s
        → Post base Q R (try_v6 r hostname h nsearch host f s)
    unfolding try_v6
    try_v6-Ready host f s p =
        let q = lookup_host-Ready host f s p in
        either ((is_hex (first host) || first host == b':') && contains b':' host)
          (elim (r.inet_pton inet6 host) [
            | none ↦ lookup_host r hostname h nsearch host f s
            | some a ↦ literal s h f inet6 a
          ])
          (lookup_host r hostname h nsearch host f s)
          (by_pton f inet6 s (r.inet_pton inet6 host) (lookup_host r hostname h nsearch host f s)
            refl p q)
          q

    search_one-Ready :
        (host : Text) (f : Family) (s : Lookup)
        → R s
        → Post base Q R (search_one r hostname h nsearch host f s)
    unfolding search_one
    search_one-Ready host f s p =
        let q = try_v6-Ready host f s p in
        either (is_digit (first host))
          (elim (r.inet_pton inet host) [
            | none ↦ try_v6 r hostname h nsearch host f s
            | some a ↦ literal s h f inet a
          ])
          (try_v6 r hostname h nsearch host f s)
          (by_pton f inet s (r.inet_pton inet host) (try_v6 r hostname h nsearch host f s) refl p q)
          q

    pub search_all-Ready :
        (ss : List (Text × Family)) (s : Lookup)
        → R s
        → Post base Q R (search_all r hostname h nsearch ss s)
    unfolding search_all
    search_all-Ready [] s p = p
    search_all-Ready ((host, f) ∷ ss) s p =
        bind_lem base Q R R (search_one r hostname h nsearch host f s)
          (search_all r hostname h nsearch ss) (search_one-Ready host f s p)
          λ t q. search_all-Ready ss t q

  pub some_found-Filled : (s : Lookup) → R s → Post base Q (Filled base Q) (some_found s)
  unfolding some_found
  some_found-Filled s p = by_list s.ais refl
    where
      by_list :
          (es : List AddrInfo)
          → s.ais ≡ es
          → Post base Q
              (Filled base Q)
              (elim es as (λ _. Option Eai × Lookup) [ [] ↦ (some noname, s) | e ∷ es ↦ (none, s) ])
      by_list [] e = (p.0, p.3)
      by_list (x ∷ es) e = (p, subst Nonempty (sym e) tt)
