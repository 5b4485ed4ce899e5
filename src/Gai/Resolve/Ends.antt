-- ===== src/Gai/Resolve/Ends.antt =====
-- What is in use when getaddrinfo() has ended: a result can be freed in full.
use unix_network_programming.Prelude.{
  ℕ, ◌+◌, ◌≡◌, refl, ap, sym, subst, Bool, true, false, Option, none, some, List, [], arith,
  if◌then◌else◌, length,
}
use unix_network_programming.Gai.{
  Text, Family, local, stream, dgram, Eai, addrfamily, system, Hints, alloc, Lookup, is_any,
  ga_aistruct, block, freed, freeaddrinfo,
}
use unix_network_programming.Gai.Memory.{
  alloc_lem, Addressed, first_name, Ready, Filled, Post, ga_aistruct-Filled,
}
use unix_network_programming.Gai.Search.{ga_nsearch}
use unix_network_programming.Gai.Resolve.{
  Resolver, mismatch, ◌>>=◌, search_all, name_copied, return_name, some_found, process_service,
  Ending, result, error, quit, ended, ip_lookup, with_socktype, unix_entries, unix_name, unix_ended,
  ga_unix,
}
use unix_network_programming.Gai.Resolve.Blocks.{
  FindsAddresses, Saved, bind_lem, aistruct-Ready, search_all-Ready, some_found-Filled,
}
use unix_network_programming.Gai.Resolve.Complete.{
  Complete, name_copied-Complete, return_name-Complete, Served, process_service-Served,
}

-- What the caller can rely on for an ending, with `base` blocks in use before: a result accounts for
-- all that it took, and after an error nothing but a saved name is left. The entries of a Unix domain
-- socket, `unix`, are an exception.
abbrev pub Outcome : ℕ → Option Text → Hints → Option Text → Ending × Lookup → Type 0
Outcome base hostname h unix (result ais, s) = s.heap.live ≡ base + freed ais
Outcome base hostname h unix (error e, s) =
    unix ≡ none → (s.heap.live ≡ base + block s.canon) × Saved hostname h s.canon
Outcome base hostname h unix (quit, s) = s.heap.live ≡ base

module _ (base : ℕ) (hostname : Option Text) (h : Hints) where
  Outcome-ended :
      (u : Option Text) (o : Option Eai × Lookup)
      → Post base (Saved hostname h) (Served base hostname h) o
      → Outcome base hostname h u (ended o)
  unfolding freeaddrinfo
  Outcome-ended u (none, s) (p, n) = omega (arith, p, ap block n)
  Outcome-ended u (some e, s) (p, c) = λ _. (omega (arith, p), c)

  pub start-Ready :
      (Q : Option Text → Type 0) (s : Lookup)
      → Q none
      → s.ais ≡ []
      → s.canon ≡ none
      → s.heap.live ≡ base
      → Ready base Q s
  unfolding freed
  start-Ready Q s q a n e =
      let z : freed s.ais ≡ 0 = ap freed a in
      (
        omega (arith, e, z, ap block n),
        ap first_name a,
        subst Addressed (sym a) tt,
        subst Q (sym n) q,
      )

  pub Outcome-ip_lookup :
      (r : Resolver) (u servname : Option Text) (s : Lookup)
      → FindsAddresses r
      → Ready base (Saved hostname h) s
      → s.heap.live ≡ base
      → Outcome base hostname h u (ip_lookup r hostname servname h s)
  unfolding ip_lookup
  Outcome-ip_lookup r u servname s k p e = by_search (ga_nsearch hostname h)
    where
      found_all :
          (ss : List (Text × Family))
          → Post base (Saved hostname h) (Served base hostname h) (
              search_all r hostname h (length ss) ss s
              >>= some_found
              >>= return_name hostname h ss
              >>= process_service r servname h)
      found_all ss =
          let a = search_all r hostname h (length ss) ss s in
          let b = a >>= some_found in
          let c = b >>= return_name hostname h ss in
          let pa = search_all-Ready base hostname h r k (length ss) ss s p in
          let pb =
            bind_lem base (Saved hostname h) (Ready base (Saved hostname h))
              (Filled base (Saved hostname h)) a some_found pa
              (some_found-Filled base hostname h) in
          let pc =
            bind_lem base (Saved hostname h) (Filled base (Saved hostname h)) (Complete base) b
              (return_name hostname h ss) pb (return_name-Complete base hostname h ss) in
          bind_lem base (Saved hostname h) (Complete base) (Served base hostname h) c
            (process_service r servname h) pc (process_service-Served base hostname h r servname)

      by_search :
          (o : Option (List (Text × Family)))
          → Outcome base hostname h u (elim o as (λ _. Ending × Lookup) [
            | none ↦ (quit, s)
            | some ss ↦ ended (
                search_all r hostname h (length ss) ss s
                >>= some_found
                >>= return_name hostname h ss
                >>= process_service r servname h)
          ])
      by_search none = e
      by_search (some ss) =
          Outcome-ended u
            (search_all r hostname h (length ss) ss s
              >>= some_found
              >>= return_name hostname h ss
              >>= process_service r servname h)
            (found_all ss)

  unix_entries-Filled :
      (path : Text) (s : Lookup)
      → Ready base (λ c. c ≡ none) s
      → Post base (λ c. c ≡ none) (Filled base (λ c. c ≡ none)) (unix_entries h path s)
  unfolding unix_entries
  unix_entries-Filled path s p = by_type (is_any h.socktype)
    where
      by_type :
          (b : Bool)
          → Post base
              (λ c. c ≡ none)
              (Filled base (λ c. c ≡ none))
              (if b
                then (ga_aistruct s (with_socktype h stream) path local >>= λ t.
                    ga_aistruct t (with_socktype h dgram) path local)
                else ga_aistruct s h path local)
      by_type true =
          bind_lem base (λ c. c ≡ none) (Ready base (λ c. c ≡ none)) (Filled base (λ c. c ≡ none))
            (ga_aistruct s (with_socktype h stream) path local)
            (λ t. ga_aistruct t (with_socktype h dgram) path local)
            (aistruct-Ready base (λ c. c ≡ none) (with_socktype h stream) path local s refl p)
            λ t q.
              ga_aistruct-Filled base (λ c. c ≡ none) t (with_socktype h dgram) path local refl q
      by_type false = ga_aistruct-Filled base (λ c. c ≡ none) s h path local refl p

  unix_name-Complete :
      (uname : Option Text) (s : Lookup)
      → Filled base (λ c. c ≡ none) s
      → Post base (λ c. c ≡ none) (Complete base) (unix_name uname h s)
  unfolding unix_name
  unix_name-Complete uname s ((p, q, a, c), z) = by_flag h.canonname uname
    where
      by_flag :
          (b : Bool) (o : Option Text)
          → Post base
              (λ c. c ≡ none)
              (Complete base)
              (if b
                then elim o [
                  | none ↦ (some system, s)
                  | some node ↦ name_copied s node (alloc s.heap)
                ]
                else (none, s))
      by_flag true none = (p, c)
      by_flag true (some node) =
          name_copied-Complete base (λ c. c ≡ none) s node (alloc s.heap) ((p, q, a, c), z) c
            (alloc_lem s.heap)
      by_flag false o = (p, a, c)

  Outcome-unix_ended :
      (path : Text) (o : Option Eai × Lookup)
      → Post base (λ c. c ≡ none) (Complete base) o
      → Outcome base hostname h (some path) (unix_ended o)
  Outcome-unix_ended path (none, s) (p, a, c) = omega (arith, p, ap block c)
  Outcome-unix_ended path (some e, s) p = λ x. cc

  pub Outcome-ga_unix :
      (uname : Option Text) (path : Text) (s : Lookup)
      → Ready base (λ c. c ≡ none) s
      → Outcome base hostname h (some path) (ga_unix uname h path s)
  unfolding ga_unix
  Outcome-ga_unix uname path s p = by_family (mismatch h local)
    where
      by_family :
          (b : Bool)
          → Outcome base hostname h (some path) (
              if b
              then (error addrfamily, s)
              else unix_ended (unix_entries h path s >>= unix_name uname h))
      by_family true = λ x. cc
      by_family false = Outcome-unix_ended path (unix_entries h path s >>= unix_name uname h) (
          bind_lem base (λ c. c ≡ none) (Filled base (λ c. c ≡ none)) (Complete base)
            (unix_entries h path s) (unix_name uname h) (unix_entries-Filled path s p)
            (unix_name-Complete uname))
