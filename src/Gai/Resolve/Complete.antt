-- ===== src/Gai/Resolve/Complete.antt =====
-- The canonical name and the service: the blocks in use behind the searches.
use unix_network_programming.Prelude.{
  ℕ, ◌+◌, ◌≡◌, refl, ap, ◌∙◌, Bool, true, false, Option, none, some, List, [], ◌∷◌, arith,
  if◌then◌else◌,
}
use unix_network_programming.Gai.{
  Text, Family, Eai, Hints, AddrInfo, Heap, alloc, Lookup, block, freed,
}
use unix_network_programming.Gai.Memory.{
  Allocated, alloc_lem, Addressed, first_name, Balanced, Nonempty, Filled, Post,
}
use unix_network_programming.Gai.Ports.{ga_serv}
use unix_network_programming.Gai.Ports.Blocks.{ga_serv-Balanced}
use unix_network_programming.Gai.Search.{is_missing}
use unix_network_programming.Gai.Resolve.{
  Resolver, named, first_host, name_copied, return_name, process_service,
}
use unix_network_programming.Gai.Resolve.Blocks.{asks_name, Saved}

-- The list is complete, and no name is saved any more.
abbrev pub Complete : ℕ → Lookup → Type 0
Complete base s = Balanced base s × Addressed s.ais × (s.canon ≡ none)

-- The first entry takes over a name.
freed-named :
    (c : Text) (es : List AddrInfo)
    → Nonempty es
    → first_name es ≡ none
    → freed (named c es) ≡ freed es + 1
unfolding freed
freed-named c [] z q = absurd z
freed-named c (e ∷ es) z q = omega (arith, ap block q)

Addressed-named : (c : Text) (es : List AddrInfo) → Addressed es → Addressed (named c es)
Addressed-named c [] a = tt
Addressed-named c (e ∷ es) a = a

module _ (base : ℕ) (Q : Option Text → Type 0) where
  pub name_copied-Complete :
      (s : Lookup) (name : Text) (o : Bool × Heap)
      → Filled base Q s
      → s.canon ≡ none
      → Allocated s.heap o
      → Post base Q (Complete base) (name_copied s name o)
  name_copied-Complete s name (false, g) ((p, q, a, c), z) n al = (omega (arith, p, al), c)
  name_copied-Complete s name (true, g) ((p, q, a, c), z) n al =
      (omega (arith, p, al, freed-named name s.ais z q), Addressed-named name s.ais a, n)

module _ (base : ℕ) (hostname : Option Text) (h : Hints) where
  pub return_name-Complete :
      (ss : List (Text × Family)) (s : Lookup)
      → Filled base (Saved hostname h) s
      → Post base (Saved hostname h) (Complete base) (return_name hostname h ss s)
  unfolding return_name
  return_name-Complete ss s ((p, q, a, c), z) = by_asked (asks_name hostname h) refl
    where
      by_canon :
          (o : Option Text)
          → s.canon ≡ o
          → Post base (Saved hostname h) (Complete base) (elim o as (λ _. Option Eai × Lookup) [
            | some c ↦ (none, record s { canon = none; ais = named c s.ais })
            | none ↦ name_copied s (first_host ss) (alloc s.heap)
          ])
      by_canon none n =
          name_copied-Complete base (Saved hostname h) s (first_host ss) (alloc s.heap)
            ((p, q, a, c), z) n (alloc_lem s.heap)
      by_canon (some x) n =
          (omega (arith, p, freed-named x s.ais z q, ap block n), Addressed-named x s.ais a, refl)

      by_asked :
          (b : Bool)
          → asks_name hostname h ≡ b
          → Post base (Saved hostname h) (Complete base) (
              if b
              then elim s.canon [
                | some c ↦ (none, record s { canon = none; ais = named c s.ais })
                | none ↦ name_copied s (first_host ss) (alloc s.heap)
              ]
              else (none, s))
      by_asked true e = by_canon s.canon refl
      by_asked false e = (p, a, c e)

  -- After the whole function
  abbrev pub Served : Lookup → Type 0
  Served s = Balanced base s × (s.canon ≡ none)

  pub process_service-Served :
      (r : Resolver) (servname : Option Text) (s : Lookup)
      → Complete base s
      → Post base (Saved hostname h) Served (process_service r servname h s)
  unfolding process_service
  process_service-Served r servname s (p, a, n) = by_service (is_missing servname) servname
    where
      by_ga_serv :
          (o : Option Eai × Lookup)
          → Balanced base o.1 × (o.1.canon ≡ s.canon)
          → Post base (Saved hostname h) Served o
      by_ga_serv (none, t) (x, y) = (x, y ∙ n)
      by_ga_serv (some e, t) (x, y) = (x, λ _. y ∙ n)

      by_service :
          (b : Bool) (o : Option Text)
          → Post base (Saved hostname h) Served (
              if b
              then (none, s)
              else elim o [ none ↦ (none, s) | some serv ↦ ga_serv r.getservbyname s h serv ])
      by_service true o = (p, n)
      by_service false none = (p, n)
      by_service false (some serv) =
          by_ga_serv (ga_serv r.getservbyname s h serv)
            (ga_serv-Balanced base r.getservbyname s h serv p a)
