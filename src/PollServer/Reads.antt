-- ===== src/PollServer/Reads.antt =====
-- The server reads only from connections that poll() has reported, as long as the `revents` of the
-- entries that it has not polled yet are clear.
use unix_network_programming.Prelude.{
  ℕ, zero, suc, ◌≤◌, ◌<◌, ◌≡◌, refl, ap, sym, ◌∙◌, subst, ◌⊎◌, inl, inr, Bool, true, false, ◌||◌,
  none, some, some_inj, List, [], ◌∷◌, ◌++◌, append_assoc, arith, get_elem?, set,
}
use unix_network_programming.Prelude.FdSet.{Entry}
use unix_network_programming.PollServer.{
  PollFd, Input, got, reset, failed, Round, Action, accepted, echoed, closed, Server, Outcome,
  running, too_many, died, fault, ◌>>=◌, poll_entry, poll, fds, serve,
}

abbrev pub is_ready : PollFd → Bool
is_ready c = c.rdnorm || c.err

-- Each read is from a descriptor that poll() has reported in this turn.
abbrev pub AllReported : Round → List Action → Type 0
AllReported r [] = Unit
AllReported r (accepted i fd ∷ acts) = AllReported r acts
AllReported r (echoed fd xs ∷ acts) = ((r.rdnorm fd || r.err fd) ≡ true) × AllReported r acts
AllReported r (closed fd ∷ acts) = ((r.rdnorm fd || r.err fd) ≡ true) × AllReported r acts

-- What an entry says of its descriptor is what poll() has said.
abbrev pub IsHonest : Round → PollFd → Type 0
IsHonest r c = is_ready c ≡ true → (fd : ℕ) → c.fd ≡ some fd → (r.rdnorm fd || r.err fd) ≡ true

-- The entries that are not polled yet are clear.
abbrev pub IsClear : Server → Type 0
IsClear s = (i : ℕ) (c : PollFd) → get_elem? s.client i ≡ some c → s.limit ≤ i → is_ready c ≡ false

AllReported-append :
    (r : Round) (xs ys : List Action)
    → AllReported r xs
    → AllReported r ys
    → AllReported r (xs ++ ys)
AllReported-append r [] ys h k = k
AllReported-append r (accepted i fd ∷ xs) ys h k = AllReported-append r xs ys h k
AllReported-append r (echoed fd x ∷ xs) ys h k = (h.0, AllReported-append r xs ys h.1 k)
AllReported-append r (closed fd ∷ xs) ys h k = (h.0, AllReported-append r xs ys h.1 k)

get_elem?-set :
    (cs : List PollFd) (i j : ℕ) (v c : PollFd)
    → get_elem? (set cs i v) j ≡ some c
    → ((j ≡ i) × (v ≡ c)) ⊎ (get_elem? cs j ≡ some c)
get_elem?-set [] i j v c h = inr h
get_elem?-set (x ∷ cs) zero zero v c h = inl (refl, some_inj h)
get_elem?-set (x ∷ cs) zero (suc j) v c h = inr h
get_elem?-set (x ∷ cs) (suc i) zero v c h = inr h
get_elem?-set (x ∷ cs) (suc i) (suc j) v c h = elim (get_elem?-set cs i j v c h) [
  | inl (e, q) ↦ inl (ap suc e, q)
  | inr q ↦ inr q
]

pub get_elem?-fds :
    (cs : List PollFd) (i : ℕ) (c : PollFd)
    → get_elem? cs i ≡ some c
    → get_elem? (fds cs) i ≡ some c.fd
get_elem?-fds [] i c h = cc
get_elem?-fds (x ∷ cs) zero c h = ap (λ c. some c.fd) (some_inj h)
get_elem?-fds (x ∷ cs) (suc i) c h = get_elem?-fds cs i c h

pub false-true : {b : Bool} → b ≡ false → b ≡ true → ⊥
false-true h k = cc

module _ (r : Round) where
  pub get_elem?-poll :
      (n : ℕ) (cs : List PollFd) (i : ℕ) (c : PollFd)
      → get_elem? (poll r n cs) i ≡ some c
      → ((e : Entry) × (c ≡ poll_entry r e) × (i < n)) ⊎ ((n ≤ i) × (get_elem? cs i ≡ some c))
  get_elem?-poll zero cs i c h = inr (omega arith, h)
  get_elem?-poll (suc n) [] i c h = cc
  get_elem?-poll (suc n) (x ∷ cs) zero c h = inl (x.fd, sym (some_inj h), omega arith)
  get_elem?-poll (suc n) (x ∷ cs) (suc i) c h = elim (get_elem?-poll n cs i c h) [
    | inl (e, q, lt) ↦ inl (e, q, omega arith)
    | inr (le, q) ↦ inr (omega arith, q)
  ]

  pub poll_entry-IsHonest : (e : Entry) → IsHonest r (poll_entry r e)
  poll_entry-IsHonest none h fd q = cc
  poll_entry-IsHonest (some k) h fd q = subst (λ k. (r.rdnorm k || r.err k) ≡ true) (some_inj q) h

  pub poll_entry-none : (e : Entry) → (poll_entry r e).fd ≡ none → is_ready (poll_entry r e) ≡ false
  poll_entry-none none q = refl
  poll_entry-none (some k) q = cc

  -- From the log `old` on, the turn has been right so far.
  pub record Reads (old : List Action) (s : Server) : Type 0 where
    pub new : List Action
    pub log : s.log ≡ old ++ new
    pub reported : AllReported r new
    pub honest : (i : ℕ) (c : PollFd) → get_elem? s.client i ≡ some c → IsHonest r c
    pub clear : IsClear s

  abbrev pub Holds : (Server → Type 0) → Outcome → Type 0
  Holds P (running t) = P t
  Holds P too_many = Unit
  Holds P died = Unit
  Holds P fault = Unit

  module _ (old : List Action) where
    pub >>=-Holds :
        (o : Outcome) (f : Server → Outcome)
        → Holds (Reads old) o
        → ((t : Server) → Reads old t → Holds (Reads old) (f t))
        → Holds (Reads old) (o >>= f)
    >>=-Holds (running t) f h k = k t h
    >>=-Holds too_many f h k = h
    >>=-Holds died f h k = h
    >>=-Holds fault f h k = h

    pub logged :
        (s : Server) (v : Reads old s) (a : Action)
        → AllReported r (a ∷ [])
        → Reads old (record s { log = s.log ++ a ∷ [] })
    logged s v a h = record {
      new = v.new ++ a ∷ [];
      log = ap (λ l. l ++ a ∷ []) v.log ∙ append_assoc old v.new (a ∷ []);
      reported = AllReported-append r v.new (a ∷ []) v.reported h;
      honest = v.honest;
      clear = v.clear;
    }

    -- An entry is stored that is honest, and clear if it is not polled yet.
    pub stored :
        (s : Server) (v : Reads old s) (i : ℕ) (d : PollFd)
        → IsHonest r d
        → (s.limit ≤ i → is_ready d ≡ false)
        → Reads old (record s { client = set s.client i d })
    stored s v i d h k = record {
      new = v.new;
      log = v.log;
      reported = v.reported;
      honest = λ j c g. elim (get_elem?-set s.client i j d c g) [
        | inl (e, q) ↦ subst (IsHonest r) q h
        | inr q ↦ v.honest j c q
      ];
      clear = λ j c g le. elim (get_elem?-set s.client i j d c g) [
        | inl (e, q) ↦ ap is_ready (sym q) ∙ k (subst (λ m. s.limit ≤ m) e le)
        | inr q ↦ v.clear j c q le
      ];
    }

    pub widened :
        (s : Server) (v : Reads old s) (n : ℕ) → s.limit ≤ n → Reads old (record s { limit = n })
    widened s v n h = record {
      new = v.new;
      log = v.log;
      reported = v.reported;
      honest = v.honest;
      clear = λ j c g le. v.clear j c g (omega arith);
    }

    pub serve-Holds :
        (s : Server) (i fd : ℕ) (c : PollFd) (x : Input)
        → Reads old s
        → get_elem? s.client i ≡ some c
        → (r.rdnorm fd || r.err fd) ≡ true
        → Holds (Reads old) (serve s i fd c x)
    unfolding serve
    serve-Holds s i fd c failed v g h = tt
    serve-Holds s i fd c reset v g h =
        logged _ (stored s v i (record c { fd = none }) (λ q k e. cc) (v.clear i c g)) (closed fd)
          (h, tt)
    serve-Holds s i fd c (got []) v g h =
        logged _ (stored s v i (record c { fd = none }) (λ q k e. cc) (v.clear i c g)) (closed fd)
          (h, tt)
    serve-Holds s i fd c (got (x ∷ xs)) v g h = logged s v (echoed fd (x ∷ xs)) (h, tt)
