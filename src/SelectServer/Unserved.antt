-- ===== src/SelectServer/Unserved.antt =====
-- The second loop by itself: with no ready entry left there is nothing to do.
use unix_network_programming.Prelude.{
  ℕ, zero, suc, ◌+◌, ◌-◌, ◌≤◌, ◌≡◌, refl, ap, sym, ◌∙◌, subst, Bool, true, false, Option, none,
  some, List, [], ◌∷◌, arith, leb, if◌then◌else◌, length, get_elem?, drop, drop-suc, drop-set,
  length-set,
}
use unix_network_programming.Prelude.FdSet.{FdSet, Entry}
use unix_network_programming.SelectServer.{
  Input, got, failed, Round, Server, Outcome, running, too_many, died, fault, ◌>>=◌, serve,
  check_client, check_clients,
}

-- The number of entries whose descriptor is ready.
abbrev pub ready_clients : FdSet → List Entry → ℕ
ready_clients rset [] = 0
ready_clients rset (none ∷ cs) = ready_clients rset cs
ready_clients rset (some fd ∷ cs) = (if rset fd then 1 else 0) + ready_clients rset cs

running_inj : {s t : Server} → running s ≡ running t → s ≡ t
running_inj {s} {t} h = ap state h
  where
    state : Outcome → Server
    state (running u) = u
    state too_many = s
    state died = s
    state fault = s

module _ (r : Round) (rset : FdSet) where
  -- The second loop without the count: every ready client is served.
  pub serve_client : (Server → Outcome) → ℕ → Server → Option Entry → Outcome
  serve_client again i s none = fault
  serve_client again i s (some none) = again s
  serve_client again i s (some (some sockfd)) =
      (if rset sockfd then serve s i sockfd (r.read sockfd) else running s) >>= again

  pub serve_all : ℕ → ℕ → Server → Outcome
  serve_all zero i s = running s
  serve_all (suc rounds) i s = serve_client (serve_all rounds (i + 1)) i s (get_elem? s.client i)

  serve_client-idle :
      (again : Server → Outcome) (i : ℕ) (s : Server) (e : Entry) (cs : List Entry)
      → ready_clients rset (e ∷ cs) ≡ 0
      → serve_client again i s (some e) ≡ again s
  unfolding serve_client
  serve_client-idle again i s none cs h = refl
  serve_client-idle again i s (some fd) cs h = skip (rset fd) h
    where
      skip :
          (b : Bool)
          → (if b then 1 else 0) + ready_clients rset cs ≡ 0
          → ((if b then serve s i fd (r.read fd) else running s) >>= again) ≡ again s
      skip true k = absurd (omega arith)
      skip false k = refl

  tail_le : (e : Entry) (cs : List Entry) → ready_clients rset cs ≤ ready_clients rset (e ∷ cs)
  tail_le none cs = omega arith
  tail_le (some fd) cs = omega arith

  -- With no ready entry from `i` on nothing is left to do.
  serve_all-idle :
      (rounds i : ℕ) (s : Server)
      → i + rounds ≤ length s.client
      → ready_clients rset (drop i s.client) ≡ 0
      → serve_all rounds i s ≡ running s
  unfolding serve_all
  serve_all-idle zero i s h k = refl
  serve_all-idle (suc rounds) i s h k =
      let (e, hit, tail) = drop-suc i s.client (omega arith) in
      let all : ready_clients rset (e ∷ drop (suc i) s.client) ≡ 0 =
        ap (ready_clients rset) (sym tail) ∙ k in
      ap (serve_client (serve_all rounds (i + 1)) i s) hit
      ∙ serve_client-idle (serve_all rounds (i + 1)) i s e (drop (suc i) s.client) all
      ∙ serve_all-idle rounds (i + 1) s (omega arith) (
          ap (λ j. ready_clients rset (drop j s.client)) {x = i + 1} {y = suc i} (omega arith)
          ∙ omega (arith, tail_le e (drop (suc i) s.client), all))

  >>=-cong :
      (o : Outcome) (f g : Server → Outcome)
      → ((t : Server) → o ≡ running t → f t ≡ g t)
      → (o >>= f) ≡ (o >>= g)
  >>=-cong (running t) f g h = h t refl
  >>=-cong too_many f g h = refl
  >>=-cong died f g h = refl
  >>=-cong fault f g h = refl

  -- Serving entry `i` leaves the entries behind it.
  IsBehind : ℕ → Server → Server → Type 0
  IsBehind i s t =
      (length t.client ≡ length s.client) × (drop (suc i) t.client ≡ drop (suc i) s.client)

  serve-IsBehind :
      (s t : Server) (i fd : ℕ) (x : Input) → serve s i fd x ≡ running t → IsBehind i s t
  unfolding serve IsBehind
  serve-IsBehind s t i fd failed h = cc
  serve-IsBehind s t i fd (got []) h =
      subst (IsBehind i s) (running_inj h) (length-set s.client i none, drop-set i s.client none)
  serve-IsBehind s t i fd (got (x ∷ xs)) h = subst (IsBehind i s) (running_inj h) (refl, refl)

  -- What the count leaves out is not ready.
  Agrees : ℕ → ℕ → Type 0
  Agrees rounds i =
      (n : ℕ) (t : Server)
      → i + rounds ≤ length t.client
      → ready_clients rset (drop i t.client) ≤ n
      → check_clients r rset rounds i n t ≡ serve_all rounds i t

  check_client-serve_client :
      (rounds i n : ℕ) (s : Server) (e : Entry)
      → Agrees rounds (i + 1)
      → i + suc rounds ≤ length s.client
      → ready_clients rset (e ∷ drop (suc i) s.client) ≤ n
      → check_client r (check_clients r rset rounds (i + 1)) rset i n s (some e)
        ≡ serve_client (serve_all rounds (i + 1)) i s (some e)
  unfolding check_client serve_client Agrees IsBehind
  check_client-serve_client rounds i n s none ih h k = ih n s (omega arith) (at_next s k)
    where
      at_next :
          (t : Server)
          → ready_clients rset (drop (suc i) t.client) ≤ n
          → ready_clients rset (drop (i + 1) t.client) ≤ n
      at_next t q =
          subst (λ j. ready_clients rset (drop j t.client) ≤ n) {x = suc i} {y = i + 1}
            (omega arith) q
  check_client-serve_client rounds i n s (some fd) ih h k = both (rset fd) k
    where
      at_next :
          (m : ℕ) (t : Server)
          → ready_clients rset (drop (suc i) t.client) ≤ m
          → ready_clients rset (drop (i + 1) t.client) ≤ m
      at_next m t q =
          subst (λ j. ready_clients rset (drop j t.client) ≤ m) {x = suc i} {y = i + 1}
            (omega arith) q

      counted :
          (t : Server)
          → IsBehind i s t
          → 1 + ready_clients rset (drop (suc i) s.client) ≤ n
          → (b : Bool) → leb n 1 ≡ b
          → elim b [ true ↦ running t | false ↦ check_clients r rset rounds (i + 1) (n - 1) t ]
            ≡ serve_all rounds (i + 1) t
      counted t w q true p = sym (
          serve_all-idle rounds (i + 1) t (omega (arith, w.0)) (
            ap (λ j. ready_clients rset (drop j t.client)) {x = i + 1} {y = suc i} (omega arith)
            ∙ ap (ready_clients rset) w.1
            ∙ ground arith))
      counted t w q false p = ih (n - 1) t (omega (arith, w.0)) (
          at_next (n - 1) t
            (subst (λ m. m ≤ n - 1) (sym (ap (ready_clients rset) w.1)) (omega arith)))

      both :
          (b : Bool)
          → (if b then 1 else 0) + ready_clients rset (drop (suc i) s.client) ≤ n
          → elim b [
            | false ↦ check_clients r rset rounds (i + 1) n s
            | true ↦ serve s i fd (r.read fd) >>= λ t. elim (leb n 1) [
              | true ↦ running t
              | false ↦ check_clients r rset rounds (i + 1) (n - 1) t
            ]
          ]
            ≡ ((if b then serve s i fd (r.read fd) else running s) >>= serve_all rounds (i + 1))
      both false q = ih n s (omega arith) (at_next n s (omega arith))
      both true q =
          >>=-cong (serve s i fd (r.read fd)) _ _
            (λ t e. counted t (serve-IsBehind s t i fd (r.read fd) e) q (leb n 1) refl)

  check_clients-serve_all : (rounds i : ℕ) → Agrees rounds i
  unfolding check_clients serve_all Agrees
  check_clients-serve_all zero i n s h k = refl
  check_clients-serve_all (suc rounds) i n s h k =
      let (e, hit, tail) = drop-suc i s.client (omega arith) in
      ap (check_client r (check_clients r rset rounds (i + 1)) rset i n s) hit
      ∙ check_client-serve_client rounds i n s e (check_clients-serve_all rounds (i + 1)) h
          (subst (λ cs. ready_clients rset cs ≤ n) tail k)
      ∙ ap (serve_client (serve_all rounds (i + 1)) i s) (sym hit)

  pub all_served :
      (rounds n : ℕ) (s : Server)
      → rounds ≤ length s.client
      → ready_clients rset s.client ≤ n
      → check_clients r rset rounds 0 n s ≡ serve_all rounds 0 s
  unfolding Agrees
  all_served rounds n s h k = check_clients-serve_all rounds 0 n s (omega arith) k

  pub none_left :
      (rounds : ℕ) (s : Server)
      → rounds ≤ length s.client
      → ready_clients rset s.client ≡ 0
      → serve_all rounds 0 s ≡ running s
  none_left rounds s h k = serve_all-idle rounds 0 s (omega arith) k
