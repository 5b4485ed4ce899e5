-- ===== src/Gai/Names/Service.antt =====
-- getnameinfo() and getaddrinfo() agree on numeric services.
use unix_network_programming.Prelude.{
  ℕ, zero, suc, ◌-◌, ◌%◌, ◌^◌, ◌≤◌, ◌<◌, ◌≡◌, refl, ap, sym, ◌∙◌, ◌⊎◌, inl, inr, true, Option, none,
  some, some_inj, [], ◌∷◌, arith, length, take,
}
use unix_network_programming.Gai.{Text, Family, inet, inet6, Hints, SockAddr, Lookup}
use unix_network_programming.Gai.Ports.{GetServByName, numbered_ports, serv_ports}
use unix_network_programming.Gai.Names.{
  NameFlags, NameResolver, Written, decimal, host_name, serv_name, gn_ipv46, getnameinfo,
}
use unix_network_programming.Gai.Names.Digits.{length-decimal, atoi-decimal, first-decimal}

take_all : (k : ℕ) (t : Text) → length t ≤ k → take k t ≡ t
take_all zero [] h = refl
take_all zero (x ∷ t) h = absurd (omega arith)
take_all (suc k) [] h = refl
take_all (suc k) (x ∷ t) h = ap (◌∷◌ x) (take_all k t (omega arith))

serv-decimal :
    (g : GetServByName) (s : Lookup) (h : Hints) (port : ℕ)
    → port < 2 ^ 16
    → serv_ports g s h (decimal 5 port) ≡ numbered_ports port s h
unfolding serv_ports
serv-decimal g s h port p = rw (first-decimal port (omega arith)) (
    ap (λ k. numbered_ports k s h)
      (ap (λ k. k % 2 ^ 16) (atoi-decimal port (omega arith)) ∙ omega arith))

module _ (r : NameResolver) (flags : NameFlags) where
  -- A buffer for the service of at least six bytes
  serv_name_numeric :
      (port servlen : ℕ)
      → flags.numericserv ≡ true
      → 6 ≤ servlen
      → serv_name r flags port servlen ≡ some (decimal 5 port)
  unfolding serv_name
  serv_name_numeric port zero e h = absurd (omega arith)
  serv_name_numeric port (suc n) e h =
      rw e (ap some (take_all (suc n - 1) (decimal 5 port) (omega (arith, length-decimal 5 port))))

  gn_ipv46_serv :
      (f : Family) (sa : SockAddr) (hostlen servlen : ℕ) (w : Written)
      → flags.numericserv ≡ true
      → 6 ≤ servlen
      → gn_ipv46 r flags f sa hostlen servlen ≡ some w
      → w.serv ≡ some (decimal 5 sa.port)
  unfolding gn_ipv46
  gn_ipv46_serv f sa hostlen servlen w e h q = by_host (host_name r flags f sa.bytes hostlen) q
    where
      by_host :
          (o : Option (Option Text))
          → elim o as (λ _. Option Written) [
            | none ↦ none
            | some host ↦ some (record { host = host; serv = serv_name r flags sa.port servlen })
          ]
            ≡ some w
          → w.serv ≡ some (decimal 5 sa.port)
      by_host none q = cc
      by_host (some host) q =
          ap (λ w. w.serv) (sym (some_inj q)) ∙ serv_name_numeric sa.port servlen e h

  -- With NI_NUMERICSERV and a buffer of at least six bytes, the service that getnameinfo() writes for an
  -- IPv4 or IPv6 address is a port number string, and ga_serv() takes from it the port of the address.
  pub getnameinfo-serv_ports :
      (f : Family) (sa : SockAddr) (hostlen servlen : ℕ) (w : Written)
      → (f ≡ inet) ⊎ (f ≡ inet6)
      → sa.port < 2 ^ 16
      → flags.numericserv ≡ true
      → 6 ≤ servlen
      → getnameinfo r flags f sa hostlen servlen ≡ some w
      → (serv : Text) × (w.serv ≡ some serv)
        × ((g : GetServByName) (s : Lookup) (h : Hints)
            → serv_ports g s h serv ≡ numbered_ports sa.port s h)
  unfolding getnameinfo
  getnameinfo-serv_ports inet sa hostlen servlen w k p e h q = (
    decimal 5 sa.port,
    gn_ipv46_serv inet sa hostlen servlen w e h q,
    λ g s hints. serv-decimal g s hints sa.port p,
  )
  getnameinfo-serv_ports inet6 sa hostlen servlen w k p e h q = (
    decimal 5 sa.port,
    gn_ipv46_serv inet6 sa hostlen servlen w e h q,
    λ g s hints. serv-decimal g s hints sa.port p,
  )
  getnameinfo-serv_ports Family.unspec sa hostlen servlen w k p e h q = cc
  getnameinfo-serv_ports Family.local sa hostlen servlen w k p e h q = absurd (not_local k)
    where
      not_local : (◌≡◌ {A = Family} Family.local inet) ⊎ (◌≡◌ {A = Family} Family.local inet6) → ⊥
      not_local (inl x) = cc
      not_local (inr x) = cc
  getnameinfo-serv_ports Family.unknown sa hostlen servlen w k p e h q = cc
