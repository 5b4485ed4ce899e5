-- ===== src/Gai/Ports/Passes.antt =====
-- The two calls of ga_port() over the addresses that were found.
use unix_network_programming.Prelude.{
  ℕ, suc, ◌+◌, ◌≡◌, refl, ap, ◌∙◌, Bool, true, false, Option, none, some, List, [], ◌∷◌, ◌++◌, map,
  arith, if◌then◌else◌, length,
}
use unix_network_programming.Gai.{
  Text, Family, inet, inet6, Socktype, any, stream, dgram, SockAddr, AddrInfo, Heap,
}
use unix_network_programming.Gai.Ports.{
  Ported, counted, set_port, has_port, cloned_addr, cloned, port_entry, ga_port,
}

-- An address that the search has found, the name that it may carry, and whether it is of IPv6.
pub record Found : Type 0 where
  pub v6 : Bool
  pub name : Option Text
  pub addr : SockAddr

abbrev pub family_of : Bool → Family
family_of b = if b then inet6 else inet

-- An entry with the address and a port
abbrev pub made : ℕ → Bool → Socktype → ℕ → Option Text → Found → AddrInfo
made protocol clone t port name f = record {
  ai_clone = clone;
  ai_family = family_of f.v6;
  ai_socktype = t;
  ai_protocol = protocol;
  ai_canonname = name;
  ai_addr = some (record { bytes = f.addr.bytes; port = port });
}

-- The entry that ga_aistruct() makes without a socktype
abbrev pub begun : ℕ → Found → AddrInfo
begun protocol f = made protocol true any f.addr.port f.name f

-- What an address becomes with the ports for TCP and UDP.
abbrev pub expand : ℕ → Option ℕ → Option ℕ → Found → List AddrInfo
expand k (some p) (some q) f = made k true stream p f.name f ∷ made k false dgram q none f ∷ []
expand k (some p) none f = made k true stream p f.name f ∷ []
expand k none (some q) f = made k true dgram q f.name f ∷ []
expand k none none f = begun k f ∷ []

abbrev pub expand_all : ℕ → Option ℕ → Option ℕ → List Found → List AddrInfo
expand_all k tcp udp [] = []
expand_all k tcp udp (f ∷ fs) = expand k tcp udp f ++ expand_all k tcp udp fs

-- The blocks that the clones take.
abbrev pub clones : Option ℕ → Option ℕ → ℕ → ℕ
clones (some p) (some q) n = n + n
clones _ _ n = 0

has_port_family : (b : Bool) → has_port (family_of b) ≡ 1
has_port_family true = refl
has_port_family false = refl

set_port-made :
    (k : ℕ) (c : Bool) (t u : Socktype) (p q : ℕ) (name : Option Text) (f : Found)
    → set_port q u (made k c t p name f) ≡ made k c u q name f
set_port-made k c t u p q name f = by_family f.v6
  where
    by_family :
        (b : Bool)
        → set_port q u (record (made k c t p name f) { ai_family = family_of b })
          ≡ record (made k c u q name f) { ai_family = family_of b }
    by_family true = refl
    by_family false = refl

-- An entry without a socktype, in front of what the rest of the loop gives
first_use :
    (k p : ℕ) (t : Socktype) (f : Found) (es : List AddrInfo) (n : ℕ) (h g : Heap)
    (es' : List AddrInfo)
    → ga_port p t es h ≡ record { nfound = some n; ais = es'; heap = g }
    → ga_port p t (begun k f ∷ es) h
      ≡ record { nfound = some (suc n); ais = made k true t p f.name f ∷ es'; heap = g }
unfolding ga_port port_entry
first_use k p t f es n h g es' e =
    ap (counted (has_port (family_of f.v6)) (set_port p t (begun k f))) e
    ∙ ap
        (λ m.
          counted m (set_port p t (begun k f)) (record { nfound = some n; ais = es'; heap = g }))
        (has_port_family f.v6)
    ∙ ap (λ x. counted 1 x (record { nfound = some n; ais = es'; heap = g }))
        (set_port-made k true any t f.addr.port p f.name f)
    ∙ ap (λ m. record { nfound = some m; ais = made k true t p f.name f ∷ es'; heap = g })
        {x = 1 + n} {y = suc n} (omega arith)

pub first_pass :
    (k p : ℕ) (t : Socktype) (fs : List Found) (h : Heap)
    → ga_port p t (map (begun k) fs) h
      ≡ record { nfound = some (length fs); ais = map (λ f. made k true t p f.name f) fs; heap = h }
unfolding ga_port
first_pass k p t [] h = refl
first_pass k p t (f ∷ fs) h =
    first_use k p t f (map (begun k) fs) (length fs) h h (map (λ f. made k true t p f.name f) fs)
      (first_pass k p t fs h)

-- An entry for TCP is cloned for UDP.
second_use :
    (k p q : ℕ) (f : Found) (es : List AddrInfo) (n live m : ℕ) (es' : List AddrInfo)
    → ga_port q dgram es (record { answers = []; live = live + 1 + 1 })
      ≡ record { nfound = some n; ais = es'; heap = record { answers = []; live = m } }
    → ga_port q dgram (made k true stream p f.name f ∷ es) (record { answers = []; live = live })
      ≡ record {
        nfound = some (suc n);
        ais = made k true stream p f.name f ∷ made k false dgram q none f ∷ es';
        heap = record { answers = []; live = m };
      }
unfolding ga_port port_entry cloned cloned_addr
second_use k p q f es n live m es' e =
    let x = made k true stream p f.name f in
    let y = made k false stream p none f in
    let r : Ported = record {
      nfound = some n;
      ais = es';
      heap = record { answers = []; live = m };
    } in
    ap (λ z. counted 0 x (counted (has_port (family_of f.v6)) (set_port q dgram y) z)) e
    ∙ ap (λ i. counted 0 x (counted i (set_port q dgram y) r)) (has_port_family f.v6)
    ∙ ap (λ z. counted 0 x (counted 1 z r)) (set_port-made k false stream dgram p q none f)
    ∙ ap
        (λ i. record {
          nfound = some i;
          ais = x ∷ made k false dgram q none f ∷ es';
          heap = record { answers = []; live = m };
        })
        {x = 0 + (1 + n)} {y = suc n} (omega arith)

pub second_pass :
    (k p q : ℕ) (fs : List Found) (live : ℕ)
    → ga_port q dgram
        (map (λ f. made k true stream p f.name f) fs)
        (record { answers = []; live = live })
      ≡ record {
        nfound = some (length fs);
        ais = expand_all k (some p) (some q) fs;
        heap = record { answers = []; live = live + (length fs + length fs) };
      }
unfolding ga_port
second_pass k p q [] live =
    ap (λ n. record { nfound = some 0; ais = []; heap = record { answers = []; live = n } })
      {x = live} {y = live + (0 + 0)} (omega arith)
second_pass k p q (f ∷ fs) live =
    second_use k p q f (map (λ f. made k true stream p f.name f) fs) (length fs) live
      (live + (suc (length fs) + suc (length fs))) (expand_all k (some p) (some q) fs)
      (second_pass k p q fs (live + 1 + 1)
        ∙ ap
            (λ n. record {
              nfound = some (length fs);
              ais = expand_all k (some p) (some q) fs;
              heap = record { answers = []; live = n };
            })
            {x = live + 1 + 1 + (length fs + length fs)}
            {y = live + (suc (length fs) + suc (length fs))} (omega arith))
