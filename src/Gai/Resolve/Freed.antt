-- ===== src/Gai/Resolve/Freed.antt =====
-- getaddrinfo() gives away the memory that it takes.
use unix_network_programming.Prelude.{
  ◌+◌, ◌≡◌, refl, ap, subst, ◌⊎◌, inl, inr, Bool, true, false, Option, none, some, List, [], arith,
}
use unix_network_programming.Gai.{
  Text, Hints, Eai, AddrInfo, Heap, Lookup, block, freed, freeaddrinfo,
}
use unix_network_programming.Gai.Search.{ga_echeck}
use unix_network_programming.Gai.Resolve.{
  Resolver, Ending, result, error, unix_path, given_hints, checked_lookup, getaddrinfo, ip_lookup,
  ga_unix,
}
use unix_network_programming.Gai.Resolve.Blocks.{FindsAddresses, asks_name, Saved}
use unix_network_programming.Gai.Resolve.Ends.{
  Outcome, start-Ready, Outcome-ip_lookup, Outcome-ga_unix,
}

abbrev no_entries : Heap → Lookup
no_entries heap = record { ais = []; canon = none; heap = heap; unlinked = [] }

Outcome-checked_lookup :
    (r : Resolver) (hostname servname : Option Text) (h : Hints) (heap : Heap)
    → FindsAddresses r
    → Outcome heap.live hostname h
        (unix_path hostname servname)
        (checked_lookup r hostname servname h (no_entries heap))
unfolding checked_lookup
Outcome-checked_lookup r hostname servname h heap k = by_path (unix_path hostname servname)
  where
    by_path :
        (o : Option Text)
        → Outcome heap.live hostname h o (elim o as (λ _. Ending × Lookup) [
          | some path ↦ ga_unix r.uname h path (no_entries heap)
          | none ↦ ip_lookup r hostname servname h (no_entries heap)
        ])
    by_path (some path) =
        Outcome-ga_unix heap.live hostname h r.uname path (no_entries heap)
          (start-Ready heap.live hostname h (λ c. c ≡ none) (no_entries heap) refl refl refl refl)
    by_path none =
        Outcome-ip_lookup heap.live hostname h r none servname (no_entries heap) k
          (start-Ready heap.live hostname h (Saved hostname h) (no_entries heap) (λ _. refl) refl
            refl refl)
          refl

Outcome-getaddrinfo :
    (r : Resolver) (hostname servname : Option Text) (hintsp : Option Hints) (heap : Heap)
    → FindsAddresses r
    → Outcome heap.live hostname
        (given_hints hintsp)
        (unix_path hostname servname)
        (getaddrinfo r hostname servname hintsp heap)
unfolding getaddrinfo
Outcome-getaddrinfo r hostname servname hintsp heap k =
    by_check (ga_echeck hostname servname (given_hints hintsp))
  where
    by_check :
        (o : Option Eai)
        → Outcome heap.live hostname
            (given_hints hintsp)
            (unix_path hostname servname)
            (elim o as (λ _. Ending × Lookup) [
              | some e ↦ (error e, no_entries heap)
              | none ↦ checked_lookup r hostname servname (given_hints hintsp) (no_entries heap)
            ])
    by_check (some e) = λ _. (omega arith, λ _. refl)
    by_check none = Outcome-checked_lookup r hostname servname (given_hints hintsp) heap k

module _ (r : Resolver) (hostname servname : Option Text) (hintsp : Option Hints) (heap : Heap)
    (k : FindsAddresses r) where
  -- A result accounts for all the blocks that the call has taken.
  pub getaddrinfo-freed :
      (ais : List AddrInfo) (s : Lookup)
      → getaddrinfo r hostname servname hintsp heap ≡ (result ais, s)
      → s.heap.live ≡ heap.live + freed ais
  getaddrinfo-freed ais s e =
      subst (Outcome heap.live hostname (given_hints hintsp) (unix_path hostname servname)) e
        (Outcome-getaddrinfo r hostname servname hintsp heap k)

  -- When getaddrinfo() returns a list, whatever the hints and wherever the memory ran short before,
  -- freeaddrinfo() of the list gives back exactly the blocks that the call took. The condition is that
  -- gethostbyname() and gethostbyname2() only find addresses of the known families.
  pub getaddrinfo-freeaddrinfo :
      (ais : List AddrInfo) (s : Lookup)
      → getaddrinfo r hostname servname hintsp heap ≡ (result ais, s)
      → (freeaddrinfo ais s.heap).live ≡ heap.live
  unfolding freeaddrinfo
  getaddrinfo-freeaddrinfo ais s e = omega (arith, getaddrinfo-freed ais s e)

  -- When getaddrinfo() returns an error, and the names are not those of a Unix domain socket, the call
  -- has freed all that it took but the copy of the canonical name, if it has made one; and everything if
  -- no canonical name was asked for. The condition on the resolver is that gethostbyname() and
  -- gethostbyname2() only find addresses of the known families.
  pub getaddrinfo-error :
      (e : Eai) (s : Lookup)
      → unix_path hostname servname ≡ none
      → getaddrinfo r hostname servname hintsp heap ≡ (error e, s)
      → (s.heap.live ≡ heap.live + block s.canon)
        × ((asks_name hostname (given_hints hintsp) ≡ true) ⊎ (s.heap.live ≡ heap.live))
  getaddrinfo-error e s u q =
      let p : (s.heap.live ≡ heap.live + block s.canon)
          × Saved hostname (given_hints hintsp) s.canon =
        subst (Outcome heap.live hostname (given_hints hintsp) (unix_path hostname servname)) q
          (Outcome-getaddrinfo r hostname servname hintsp heap k) u in
      (p.0, by_request (asks_name hostname (given_hints hintsp)) refl p.1 p.0)
    where
      by_request :
          (b : Bool)
          → asks_name hostname (given_hints hintsp) ≡ b
          → Saved hostname (given_hints hintsp) s.canon
          → s.heap.live ≡ heap.live + block s.canon
          → (asks_name hostname (given_hints hintsp) ≡ true) ⊎ (s.heap.live ≡ heap.live)
      by_request true z k l = inl z
      by_request false z k l = inr (omega (arith, l, ap block (k z)))
