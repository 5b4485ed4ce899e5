-- ===== src/Gai/Memory.antt =====
-- The blocks that a lookup has in use: what the entries and a saved name take.
use unix_network_programming.Prelude.{
  ℕ, ◌+◌, ◌-◌, ◌≡◌, refl, ap, Bool, true, false, Option, none, some, List, [], ◌∷◌, ◌++◌, arith,
  leb, if◌then◌else◌, length, take,
}
use unix_network_programming.Gai.{freeaddrinfo}
use unix_network_programming.Gai.{
  Text, Family, unspec, inet, inet6, local, Eai, Hints, AddrInfo, Heap, alloc, Lookup, linked,
  with_address, unlink, fill, aistruct_linked, ga_aistruct, block, freed,
}

-- What an answer of the allocator takes
abbrev pub taken : Bool → ℕ
taken b = if b then 1 else 0

abbrev pub Allocated : Heap → Bool × Heap → Type 0
Allocated h o = o.1.live ≡ h.live + taken o.0

pub alloc_lem : (h : Heap) → Allocated h (alloc h)
alloc_lem h = by_answers h.answers refl
  where
    by_answers : (bs : List Bool) → h.answers ≡ bs → Allocated h (alloc (record h { answers = bs }))
    by_answers [] e = refl
    by_answers (true ∷ bs) e = refl
    by_answers (false ∷ bs) e = omega arith

-- Every entry has its address.
abbrev pub Addressed : List AddrInfo → Type 0
Addressed [] = Unit
Addressed (e ∷ es) = (block e.ai_addr ≡ 1) × Addressed es

abbrev pub first_name : List AddrInfo → Option Text
first_name [] = none
first_name (e ∷ es) = e.ai_canonname

pub freed-append : (xs ys : List AddrInfo) → freed (xs ++ ys) ≡ freed xs + freed ys
unfolding freed
freed-append [] ys = omega arith
freed-append (x ∷ xs) ys = omega (arith, freed-append xs ys)

-- What a lookup with its list accounts for
abbrev pub Balanced : ℕ → Lookup → Type 0
Balanced base s = s.heap.live ≡ base + freed s.ais + block s.canon

-- A lookup that has no error so far and no name in an entry; `Q` speaks of the saved name.
abbrev pub Ready : ℕ → (Option Text → Type 0) → Lookup → Type 0
Ready base Q s = Balanced base s × (first_name s.ais ≡ none) × Addressed s.ais × Q s.canon

abbrev pub Nonempty : List AddrInfo → Type 0
Nonempty [] = ⊥
Nonempty (e ∷ es) = Unit

abbrev pub Filled : ℕ → (Option Text → Type 0) → Lookup → Type 0
Filled base Q s = Ready base Q s × Nonempty s.ais

-- A step of the lookup leads to a state with `R`, or to an error.
abbrev pub Post : ℕ → (Option Text → Type 0) → (Lookup → Type 0) → Option Eai × Lookup → Type 0
Post base Q R (none, s) = R s
Post base Q R (some e, s) = Balanced base s × Q s.canon

-- The families of the addresses
abbrev pub has_address : Family → Bool
has_address inet = true
has_address inet6 = true
has_address local = true
has_address unspec = false
has_address Family.unknown = false

Addressed-append :
    (xs : List AddrInfo) (e : AddrInfo)
    → Addressed xs
    → block e.ai_addr ≡ 1
    → Addressed (xs ++ e ∷ [])
Addressed-append [] e a b = (b, tt)
Addressed-append (x ∷ xs) e (c, a) b = (c, Addressed-append xs e a b)

first_name-append :
    (xs : List AddrInfo) (e : AddrInfo)
    → first_name xs ≡ none
    → e.ai_canonname ≡ none
    → first_name (xs ++ e ∷ []) ≡ none
first_name-append [] e p q = q
first_name-append (x ∷ xs) e p q = p

Nonempty-append : (xs : List AddrInfo) (e : AddrInfo) → Nonempty (xs ++ e ∷ [])
Nonempty-append [] e = tt
Nonempty-append (x ∷ xs) e = tt

module _ (base : ℕ) (Q : Option Text → Type 0) where
  -- The new entry `e` is linked in and holds nothing yet; `s` has counted it.
  Entered : Lookup → AddrInfo → Type 0
  Entered s e =
      (s.heap.live ≡ base + freed s.ais + 1 + block s.canon)
      × (first_name s.ais ≡ none)
      × Addressed s.ais
      × Q s.canon
      × (e.ai_canonname ≡ none)
      × (e.ai_addr ≡ none)

  Entered-freed :
      (s : Lookup) (e : AddrInfo)
      → Entered s e
      → Balanced base (record s { ais = s.ais ++ e ∷ [] }) × Q s.canon
  unfolding Entered freed
  Entered-freed s e (p, q, a, c, n, z) =
      (omega (arith, p, freed-append s.ais (e ∷ []), ap block n, ap block z), c)

  Post-with_address :
      (s : Lookup) (e : AddrInfo) (addr : List ℕ) (o : Bool × Heap)
      → Entered s e
      → Allocated s.heap o
      → Post base Q (Filled base Q) (with_address s s.ais e addr o)
  unfolding with_address Entered freed
  Post-with_address s e addr (false, h) (p, q, a, c, n, z) al =
      (omega (arith, p, al, freed-append s.ais (e ∷ []), ap block n, ap block z), c)
  Post-with_address s e addr (true, h) (p, q, a, c, n, z) al =
      let x : AddrInfo = record e { ai_addr = some (record { bytes = addr; port = 0 }) } in
      (
        (
          omega (arith, p, al, freed-append s.ais (x ∷ []), ap block n),
          first_name-append s.ais x q n,
          Addressed-append s.ais x a refl,
          c,
        ),
        Nonempty-append s.ais x,
      )

  Post-fill :
      (s : Lookup) (h : Hints) (e : AddrInfo) (addr : List ℕ) (f : Family)
      → has_address f ≡ true
      → Entered s e
      → Post base Q (Filled base Q) (fill s h e addr f)
  unfolding fill
  Post-fill s h e addr unspec k p = cc
  Post-fill s h e addr inet k p =
      Post-with_address s e (take 4 addr) (alloc s.heap) p (alloc_lem s.heap)
  Post-fill s h e addr inet6 k p =
      Post-with_address s e (take 16 addr) (alloc s.heap) p (alloc_lem s.heap)
  Post-fill s h e addr local k p = by_length (leb 108 (length addr))
    where
      unlinked :
          (o : Option Eai × Lookup)
          → Post base Q (Filled base Q) o
          → Post base Q (Filled base Q) (unlink h addr o)
      unlinked (none, t) p = p
      unlinked (some x, t) p = p

      by_length :
          (b : Bool)
          → Post base Q (Filled base Q) (
              if b
              then (some Eai.service, record s { ais = s.ais ++ e ∷ [] })
              else unlink h addr (with_address s s.ais e addr (alloc s.heap)))
      by_length true = Entered-freed s e p
      by_length false =
          unlinked (with_address s s.ais e addr (alloc s.heap))
            (Post-with_address s e addr (alloc s.heap) p (alloc_lem s.heap))
  Post-fill s h e addr Family.unknown k p = cc

  Post-linked :
      (s : Lookup) (h : Hints) (addr : List ℕ) (f : Family) (o : Bool × Heap)
      → has_address f ≡ true
      → Ready base Q s
      → Allocated s.heap o
      → Post base Q (Filled base Q) (aistruct_linked s h addr f o)
  unfolding aistruct_linked Entered
  Post-linked s h addr f (false, g) k (p, q, a, c) al = (omega (arith, p, al), c)
  Post-linked s h addr f (true, g) k (p, q, a, c) al =
      Post-fill (record s { heap = g }) h (linked h f) addr f k
        (omega (arith, p, al), q, a, c, refl, refl)

  -- Whether or not it succeeds, ga_aistruct() links in what it allocates.
  pub ga_aistruct-Filled :
      (s : Lookup) (h : Hints) (addr : List ℕ) (f : Family)
      → has_address f ≡ true
      → Ready base Q s
      → Post base Q (Filled base Q) (ga_aistruct s h addr f)
  unfolding ga_aistruct
  ga_aistruct-Filled s h addr f k p = Post-linked s h addr f (alloc s.heap) k p (alloc_lem s.heap)

  pub Post-map :
      (R S : Lookup → Type 0) (o : Option Eai × Lookup)
      → ((s : Lookup) → R s → S s)
      → Post base Q R o
      → Post base Q S o
  Post-map R S (none, s) f p = f s p
  Post-map R S (some e, s) f p = p

pub live-freeaddrinfo :
    (es : List AddrInfo) (h : Heap) → (freeaddrinfo es h).live ≡ h.live - freed es
unfolding freeaddrinfo
live-freeaddrinfo es h = refl
