-- ===== src/Gai/Ports/Blocks.antt =====
-- The blocks in use through ga_port() and ga_serv(): what is allocated is linked into the list.
use unix_network_programming.Prelude.{
  ℕ, zero, suc, ◌+◌, ◌%◌, ◌^◌, ◌≡◌, refl, ap, ◌∙◌, Bool, true, false, Option, none, some, List, [],
  ◌∷◌, arith, if◌then◌else◌,
}
use unix_network_programming.Gai.{
  Text, Socktype, stream, dgram, Hints, SockAddr, AddrInfo, Heap, alloc, Lookup, is_any, block,
  freed,
}
use unix_network_programming.Gai.Memory.{Allocated, alloc_lem, taken, Addressed, Balanced}
use unix_network_programming.Gai.Ports.{
  Ported, counted, set_port, has_port, clone_of, Rest, cloned_addr, cloned, port_entry, ga_port,
  same_type, is_digit, atoi, first, GetServByName, add_port, wanted, numbered_ports, serv_ports,
  serv_result, ga_serv,
}

-- What is in use grows by what the list grows.
abbrev pub Kept : List AddrInfo → ℕ → Ported → Type 0
Kept es live r =
    (r.heap.live + freed es ≡ live + freed r.ais) × ((n : ℕ) → r.nfound ≡ some n → Addressed r.ais)

block-set_port :
    (port : ℕ) (t : Socktype) (e : AddrInfo) → block (set_port port t e).ai_addr ≡ block e.ai_addr
block-set_port port t e = by_addr e.ai_addr
  where
    by_addr :
        (a : Option SockAddr) → block (set_port port t (record e { ai_addr = a })).ai_addr ≡ block a
    by_addr none = refl
    by_addr (some a) = refl

-- An entry in front, with the same blocks
Kept-counted :
    (k : ℕ) (x e : AddrInfo) (es : List AddrInfo) (live : ℕ) (r : Ported)
    → block x.ai_addr ≡ block e.ai_addr
    → x.ai_canonname ≡ e.ai_canonname
    → block e.ai_addr ≡ 1
    → Kept es live r
    → Kept (e ∷ es) live (counted k x r)
unfolding freed
Kept-counted k x e es live r a b c (p, q) = (omega (arith, p, a, ap block b), by_found r.nfound q)
  where
    by_found :
        (o : Option ℕ)
        → ((n : ℕ) → o ≡ some n → Addressed r.ais)
        → (n : ℕ) → elim o as (λ _. Option ℕ) [ none ↦ none | some n ↦ some (k + n) ] ≡ some n
        → Addressed (x ∷ r.ais)
    by_found none q n e = cc
    by_found (some m) q n e = (a ∙ c, q m refl)

-- After calloc() of the clone: `o` answers malloc().
Kept-cloned_addr :
    (port : ℕ) (t : Socktype) (e : AddrInfo) (es : List AddrInfo) (rest : Rest) (live : ℕ)
    (o : Bool × Heap)
    → o.1.live ≡ live + 1 + taken o.0
    → block e.ai_addr ≡ 1
    → ((g : Heap) → Kept es g.live (rest g))
    → Kept (e ∷ es) live (cloned_addr port t e es rest o)
unfolding cloned_addr freed
Kept-cloned_addr port t e es rest live (false, g) a b k = (omega (arith, a), λ n. cc)
Kept-cloned_addr port t e es rest live (true, g) a b k =
    let c : AddrInfo = record (clone_of e) { ai_addr = e.ai_addr } in
    let r = counted (has_port e.ai_family) (set_port port t c) (rest g) in
    let p =
      Kept-counted (has_port e.ai_family) (set_port port t c) c es g.live (rest g)
        (block-set_port port t c) refl b (k g) in
    let q = Kept-counted 0 e e (c ∷ es) g.live r refl refl b p in (omega (arith, q.0, a, b), q.1)

Kept-cloned :
    (port : ℕ) (t : Socktype) (e : AddrInfo) (es : List AddrInfo) (rest : Rest) (h : Heap)
    (o : Bool × Heap)
    → Allocated h o
    → block e.ai_addr ≡ 1
    → ((g : Heap) → Kept es g.live (rest g))
    → Kept (e ∷ es) h.live (cloned port t e es rest o)
unfolding cloned
Kept-cloned port t e es rest h (false, g) a b k = (omega (arith, a), λ n. cc)
Kept-cloned port t e es rest h (true, g) a b k =
    Kept-cloned_addr port t e es rest h.live (alloc g) (omega (arith, a, alloc_lem g)) b k

Kept-port_entry :
    (port : ℕ) (t : Socktype) (e : AddrInfo) (es : List AddrInfo) (rest : Rest) (h : Heap)
    → block e.ai_addr ≡ 1
    → ((g : Heap) → Kept es g.live (rest g))
    → Kept (e ∷ es) h.live (port_entry port t e es rest h)
unfolding port_entry
Kept-port_entry port t e es rest h b k =
    by_flags e.ai_clone (is_any e.ai_socktype) (same_type e.ai_socktype t)
  where
    set : Kept (e ∷ es) h.live (counted (has_port e.ai_family) (set_port port t e) (rest h))
    set =
        Kept-counted (has_port e.ai_family) (set_port port t e) e es h.live (rest h)
          (block-set_port port t e) refl b (k h)

    by_flags :
        (x y z : Bool)
        → Kept (e ∷ es) h.live (
            if x
            then (if y
                then counted (has_port e.ai_family) (set_port port t e) (rest h)
                else cloned port t e es rest (alloc h))
            else if z
            then counted (has_port e.ai_family) (set_port port t e) (rest h)
            else counted 0 e (rest h))
    by_flags true true z = set
    by_flags true false z = Kept-cloned port t e es rest h (alloc h) (alloc_lem h) b k
    by_flags false y true = set
    by_flags false y false = Kept-counted 0 e e es h.live (rest h) refl refl b (k h)

pub Kept-ga_port :
    (port : ℕ) (t : Socktype) (es : List AddrInfo) (h : Heap)
    → Addressed es
    → Kept es h.live (ga_port port t es h)
unfolding ga_port freed
Kept-ga_port port t [] h a = (refl, λ n _. tt)
Kept-ga_port port t (e ∷ es) h (b, a) =
    Kept-port_entry port t e es (ga_port port t es) h b λ g. Kept-ga_port port t es g a

-- A state of ga_serv(), with the number found: while that is not -1, all entries have addresses.
abbrev pub Serving : ℕ → Option Text → Option ℕ × Lookup → Type 0
Serving base canon r =
    Balanced base r.1 × ((n : ℕ) → r.0 ≡ some n → Addressed r.1.ais) × (r.1.canon ≡ canon)

Serving-add_port :
    (base : ℕ) (canon : Option Text) (port : Option ℕ) (t : Socktype) (r : Option ℕ × Lookup)
    → Serving base canon r
    → Serving base canon (add_port port t r)
unfolding add_port
Serving-add_port base canon none t r p = p
Serving-add_port base canon (some port) t (none, s) p = p
Serving-add_port base canon (some port) t (some n, s) (p, q, e) =
    let k = Kept-ga_port port t s.ais s.heap (q n refl) in
    (omega (arith, p, k.0), by_found (ga_port port t s.ais s.heap).nfound k.1, e)
  where
    by_found :
        (o : Option ℕ)
        → ((m : ℕ) → o ≡ some m → Addressed (ga_port port t s.ais s.heap).ais)
        → (m : ℕ) → elim o as (λ _. Option ℕ) [ none ↦ none | some k ↦ some (n + k) ] ≡ some m
        → Addressed (ga_port port t s.ais s.heap).ais
    by_found none k m e = cc
    by_found (some i) k m e = k i refl

pub Serving-serv_ports :
    (base : ℕ) (g : GetServByName) (s : Lookup) (h : Hints) (serv : Text)
    → Balanced base s
    → Addressed s.ais
    → Serving base s.canon (serv_ports g s h serv)
unfolding serv_ports numbered_ports
Serving-serv_ports base g s h serv p a = by_digit (is_digit (first serv)) (is_any h.socktype)
  where
    two :
        (tcp udp : Option ℕ)
        → Serving base s.canon (add_port udp dgram (add_port tcp stream (some 0, s)))
    two tcp udp =
        Serving-add_port base s.canon udp dgram (add_port tcp stream (some 0, s))
          (Serving-add_port base s.canon tcp stream (some 0, s) (p, λ n _. a, refl))

    by_digit :
        (b c : Bool)
        → Serving base s.canon (
            if b
            then (if c
                then add_port
                    (some (atoi 0 serv % 2 ^ 16))
                    dgram
                    (add_port (some (atoi 0 serv % 2 ^ 16)) stream (some 0, s))
                else add_port (some (atoi 0 serv % 2 ^ 16)) h.socktype (some 0, s))
            else add_port
                (wanted h.socktype dgram (g serv false))
                dgram
                (add_port (wanted h.socktype stream (g serv true)) stream (some 0, s)))
    by_digit true true = two (some (atoi 0 serv % 2 ^ 16)) (some (atoi 0 serv % 2 ^ 16))
    by_digit true false =
        Serving-add_port base s.canon (some (atoi 0 serv % 2 ^ 16)) h.socktype (some 0, s)
          (p, λ n _. a, refl)
    by_digit false c =
        two (wanted h.socktype stream (g serv true)) (wanted h.socktype dgram (g serv false))

pub ga_serv-Balanced :
    (base : ℕ) (g : GetServByName) (s : Lookup) (h : Hints) (serv : Text)
    → Balanced base s
    → Addressed s.ais
    → Balanced base (ga_serv g s h serv).1 × ((ga_serv g s h serv).1.canon ≡ s.canon)
unfolding ga_serv serv_result
ga_serv-Balanced base g s h serv p a =
    by_result (serv_ports g s h serv) (Serving-serv_ports base g s h serv p a)
  where
    by_result :
        (r : Option ℕ × Lookup)
        → Serving base s.canon r
        → Balanced base (serv_result h r).1 × ((serv_result h r).1.canon ≡ s.canon)
    by_result (none, t) (p, q, e) = (p, e)
    by_result (some zero, t) (p, q, e) = (p, e)
    by_result (some (suc n), t) (p, q, e) = (p, e)
