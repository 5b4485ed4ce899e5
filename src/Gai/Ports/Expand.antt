-- ===== src/Gai/Ports/Expand.antt =====
-- ga_serv() without a socktype in the hints: the entries for TCP and UDP.
use unix_network_programming.Prelude.{
  ℕ, suc, ◌+◌, ◌%◌, ◌^◌, ◌≡◌, refl, ap, ◌∙◌, Bool, true, false, Option, none, some, List, [], ◌∷◌,
  map, arith, if◌then◌else◌, length,
}
use unix_network_programming.Gai.{Text, any, stream, dgram, Eai, noname, Hints, AddrInfo, Lookup}
use unix_network_programming.Gai.Ports.{
  Ported, is_digit, atoi, first, GetServByName, add_port, numbered_ports, serv_ports, serv_result,
  ga_serv,
}
use unix_network_programming.Gai.Ports.Passes.{
  Found, made, begun, expand_all, clones, first_pass, second_pass,
}

-- The entries that both calls of ga_port() find
abbrev pub uses : Option ℕ → Option ℕ → ℕ → ℕ
uses (some p) (some q) n = n + n
uses (some p) none n = n
uses none (some q) n = n
uses none none n = 0

abbrev pub start : ℕ → List Found → Option Text → List Text → ℕ → Lookup
start k fs canon unlinked live = record {
  ais = map (begun k) fs;
  canon = canon;
  heap = record { answers = []; live = live };
  unlinked = unlinked;
}

abbrev pub expanded : ℕ → Option ℕ → Option ℕ → List Found → Option Text → List Text → ℕ → Lookup
expanded k tcp udp fs canon unlinked live = record {
  ais = expand_all k tcp udp fs;
  canon = canon;
  heap = record { answers = []; live = live + clones tcp udp (length fs) };
  unlinked = unlinked;
}

-- A single type: the addresses keep one entry each.
expand_all-tcp :
    (k p : ℕ) (fs : List Found)
    → map (λ f. made k true stream p f.name f) fs ≡ expand_all k (some p) none fs
expand_all-tcp k p [] = refl
expand_all-tcp k p (f ∷ fs) = ap (◌∷◌ (made k true stream p f.name f)) (expand_all-tcp k p fs)

expand_all-udp :
    (k q : ℕ) (fs : List Found)
    → map (λ f. made k true dgram q f.name f) fs ≡ expand_all k none (some q) fs
expand_all-udp k q [] = refl
expand_all-udp k q (f ∷ fs) = ap (◌∷◌ (made k true dgram q f.name f)) (expand_all-udp k q fs)

expand_all-none : (k : ℕ) (fs : List Found) → map (begun k) fs ≡ expand_all k none none fs
expand_all-none k [] = refl
expand_all-none k (f ∷ fs) = ap (◌∷◌ (begun k f)) (expand_all-none k fs)

-- What add_port() makes of the entries and the memory that ga_port() gives
abbrev with_ported : ℕ → Lookup → Ported → Option ℕ × Lookup
with_ported n s r =
    (elim r.nfound [ none ↦ none | some k ↦ some (n + k) ], record s { ais = r.ais; heap = r.heap })

module _ (k : ℕ) (canon : Option Text) (unlinked : List Text) (live : ℕ) where
  abbrev ended : ℕ → List AddrInfo → ℕ → Option ℕ × Lookup
  ended n ais m = (
    some n,
    record {
      ais = ais;
      canon = canon;
      heap = record { answers = []; live = m };
      unlinked = unlinked;
    },
  )

  ended_eq :
      (n m : ℕ) (xs ys : List AddrInfo) (a b : ℕ)
      → n ≡ m
      → xs ≡ ys
      → a ≡ b
      → ended n xs a ≡ ended m ys b
  ended_eq n m xs ys a b p q r =
      ap (λ n. ended n xs a) p ∙ ap (λ xs. ended m xs a) q ∙ ap (λ a. ended m ys a) r

  add_ports :
      (tcp udp : Option ℕ) (fs : List Found)
      → add_port udp dgram (add_port tcp stream (some 0, start k fs canon unlinked live))
        ≡ (some (uses tcp udp (length fs)), expanded k tcp udp fs canon unlinked live)
  unfolding add_port
  add_ports (some p) (some q) fs =
      ap (λ r. add_port (some q) dgram (with_ported 0 (start k fs canon unlinked live) r))
        (first_pass k p stream fs (record { answers = []; live = live }))
      ∙ ap (with_ported (0 + length fs) (start k fs canon unlinked live))
          (second_pass k p q fs live)
      ∙ ended_eq (0 + length fs + length fs) (length fs + length fs)
          (expand_all k (some p) (some q) fs) (expand_all k (some p) (some q) fs)
          (live + (length fs + length fs)) (live + (length fs + length fs)) (omega arith) refl refl
  add_ports (some p) none fs =
      ap (with_ported 0 (start k fs canon unlinked live))
        (first_pass k p stream fs (record { answers = []; live = live }))
      ∙ ended_eq (0 + length fs) (length fs) (map (λ f. made k true stream p f.name f) fs)
          (expand_all k (some p) none fs) live (live + 0) (omega arith) (expand_all-tcp k p fs)
          (omega arith)
  add_ports none (some q) fs =
      ap (with_ported 0 (start k fs canon unlinked live))
        (first_pass k q dgram fs (record { answers = []; live = live }))
      ∙ ended_eq (0 + length fs) (length fs) (map (λ f. made k true dgram q f.name f) fs)
          (expand_all k none (some q) fs) live (live + 0) (omega arith) (expand_all-udp k q fs)
          (omega arith)
  add_ports none none fs =
      ended_eq 0 0 (map (begun k) fs) (expand_all k none none fs) live (live + 0) refl
        (expand_all-none k fs) (omega arith)

-- The port of a service for TCP (`true`) or UDP
abbrev pub service_port : GetServByName → Text → Bool → Option ℕ
service_port g serv tcp = if is_digit (first serv) then some (atoi 0 serv % 2 ^ 16) else g serv tcp

abbrev pub no_service : Option ℕ → Option ℕ → Option Eai
no_service none none = some noname
no_service _ _ = none

serv_ports_lem :
    (g : GetServByName) (s : Lookup) (h : Hints) (serv : Text)
    → h.socktype ≡ any
    → serv_ports g s h serv
      ≡ add_port
          (service_port g serv false)
          dgram
          (add_port (service_port g serv true) stream (some 0, s))
unfolding serv_ports numbered_ports
serv_ports_lem g s h serv e = rw e (by_digit (is_digit (first serv)))
  where
    by_digit :
        (b : Bool)
        → (if b
            then add_port
                (some (atoi 0 serv % 2 ^ 16))
                dgram
                (add_port (some (atoi 0 serv % 2 ^ 16)) stream (some 0, s))
            else add_port (g serv false) dgram (add_port (g serv true) stream (some 0, s)))
          ≡ add_port
              (if b then some (atoi 0 serv % 2 ^ 16) else g serv false)
              dgram
              (add_port (if b then some (atoi 0 serv % 2 ^ 16) else g serv true) stream (some 0, s))
    by_digit true = refl
    by_digit false = refl

serv_result_lem :
    (h : Hints) (tcp udp : Option ℕ) (n : ℕ) (s : Lookup)
    → h.socktype ≡ any
    → serv_result h (some (uses tcp udp (suc n)), s) ≡ (no_service tcp udp, s)
unfolding serv_result
serv_result_lem h (some p) (some q) n s e =
    ap (λ m. serv_result h (some m, s)) {x = suc n + suc n} {y = suc (n + suc n)} (omega arith)
serv_result_lem h (some p) none n s e = refl
serv_result_lem h none (some q) n s e = refl
serv_result_lem h none none n s e = rw e refl

-- The hints have no socket type and the memory does not run out. The list has one entry for each of the
-- addresses found, of which there is at least one, as ga_aistruct() makes them. Then ga_serv() turns
-- each into an entry for TCP with the TCP port and behind it one for UDP with the UDP port, where the
-- service has both ports; into one entry where it has one. Each entry keeps its address, the first one
-- of an address its canonical name, and a cloned entry takes two blocks. A number is the port for both
-- types. EAI_NONAME is returned exactly if there is neither port.
pub ga_serv-expand_all :
    (g : GetServByName) (h : Hints) (serv : Text) (k : ℕ) (f : Found) (fs : List Found)
    (canon : Option Text) (unlinked : List Text) (live : ℕ)
    → h.socktype ≡ any
    → ga_serv g (start k (f ∷ fs) canon unlinked live) h serv ≡ (
      no_service (service_port g serv true) (service_port g serv false),
      expanded k
          (service_port g serv true)
          (service_port g serv false)
          (f ∷ fs)
          canon
          unlinked
          live,
    )
unfolding ga_serv
ga_serv-expand_all g h serv k f fs canon unlinked live e =
    let tcp = service_port g serv true in
    let udp = service_port g serv false in
    ap (serv_result h) (
      serv_ports_lem g (start k (f ∷ fs) canon unlinked live) h serv e
      ∙ add_ports k canon unlinked live tcp udp (f ∷ fs))
    ∙ serv_result_lem h tcp udp (length fs) (expanded k tcp udp (f ∷ fs) canon unlinked live) e
