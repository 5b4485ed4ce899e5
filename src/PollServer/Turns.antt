-- ===== src/PollServer/Turns.antt =====
-- Turns of the poll() server: every read is of a descriptor that poll() has reported.
use unix_network_programming.Prelude.{
  ℕ, zero, suc, ◌+◌, ◌-◌, ◌≡◌, refl, ap, sym, ◌∙◌, subst, inl, inr, Bool, true, false, ◌||◌, Option,
  none, some, some_inj, List, [], ◌∷◌, append-nil, arith, leb, if◌then◌else◌, get_elem?, map,
}
use unix_network_programming.Prelude.FdSet.{Entry, first_free, first_free-free}
use unix_network_programming.PollServer.{
  PollFd, Round, Action, accepted, Server, Outcome, running, too_many, died, fault, ◌>>=◌, poll,
  fds, admit, new_client, serve, check_client, check_entry, check_clients, polled_step, step, start,
}
use unix_network_programming.PollServer.Reads.{
  is_ready, IsHonest, IsClear, get_elem?-fds, false-true, get_elem?-poll, poll_entry-IsHonest,
  poll_entry-none, Reads, Holds, >>=-Holds, logged, stored, widened, serve-Holds,
}

module _ (r : Round) (old : List Action) where
  check_client-Holds :
      (again : ℕ → Server → Outcome)
      → ((n : ℕ) (t : Server) → Reads r old t → Holds r (Reads r old) (again n t))
      → (i n : ℕ) (s : Server) (c : PollFd) (e : Entry) → c.fd ≡ e
      → get_elem? s.client i ≡ some c
      → Reads r old s
      → Holds r (Reads r old) (check_client r again i n s c e)
  unfolding check_client
  check_client-Holds again ih i n s c none q g v = ih n s v
  check_client-Holds again ih i n s c (some fd) q g v = asked (is_ready c) refl
    where
      counted :
          (b : Bool) (t : Server)
          → Reads r old t
          → Holds r (Reads r old) (if b then running t else again (n - 1) t)
      counted true t w = w
      counted false t w = ih (n - 1) t w

      asked :
          (b : Bool)
          → is_ready c ≡ b
          → Holds r (Reads r old) (
              if b
              then (serve s i fd c (r.read fd) >>= λ t.
                  if leb n 1 then running t else again (n - 1) t)
              else again n s)
      asked true h =
          >>=-Holds r old _ _ (serve-Holds r old s i fd c (r.read fd) v g (v.honest i c g h fd q))
            (λ t w. counted (leb n 1) t w)
      asked false h = ih n s v

  check_entry-Holds :
      (again : ℕ → Server → Outcome)
      → ((n : ℕ) (t : Server) → Reads r old t → Holds r (Reads r old) (again n t))
      → (i n : ℕ) (s : Server) (o : Option PollFd) → get_elem? s.client i ≡ o
      → Reads r old s
      → Holds r (Reads r old) (check_entry r again i n s o)
  unfolding check_entry
  check_entry-Holds again ih i n s none g v = tt
  check_entry-Holds again ih i n s (some c) g v = check_client-Holds again ih i n s c c.fd refl g v

  check_clients-Holds :
      (rounds i n : ℕ) (s : Server)
      → Reads r old s
      → Holds r (Reads r old) (check_clients r rounds i n s)
  unfolding check_clients
  check_clients-Holds zero i n s v = v
  check_clients-Holds (suc rounds) i n s v =
      check_entry-Holds (check_clients r rounds (i + 1))
        (λ m t w. check_clients-Holds rounds (i + 1) m t w) i n s (get_elem? s.client i) refl v

  -- A free entry after Poll() is clear.
  abbrev pub IsFreeClear : List PollFd → Type 0
  IsFreeClear cs = (i : ℕ) (c : PollFd) → get_elem? cs i ≡ some c → c.fd ≡ none → is_ready c ≡ false

  admit-Reads :
      (s : Server) (fd i : ℕ) (c : PollFd)
      → Reads r old s
      → is_ready c ≡ false
      → Reads r old (admit s fd i c)
  admit-Reads s fd i c v h =
      let d : PollFd = record c { fd = some fd } in
      logged r old _
        (widened r old _ (stored r old s v i d (λ q k e. absurd (false-true h q)) (λ le. h))
          (if leb s.limit i then i + 1 else s.limit) (ground arith))
        (accepted i fd) tt

  new_client-Holds :
      (s : Server) (fd : ℕ) (c0 : PollFd) (cs : List PollFd)
      → s.client ≡ c0 ∷ cs
      → Reads r old s
      → IsFreeClear s.client
      → Holds r (Reads r old) (new_client s fd cs)
  unfolding new_client
  new_client-Holds s fd c0 cs e v h = found (first_free (fds cs)) refl
    where
      entry :
          (i : ℕ)
          → first_free (fds cs) ≡ some i
          → (o : Option PollFd) → get_elem? s.client (i + 1) ≡ o
          → Holds r
              (Reads r old)
              (elim o [ none ↦ fault | some c ↦ running (admit s fd (i + 1) c) ])
      entry i q none g = tt
      entry i q (some c) g = admit-Reads s fd (i + 1) c v (
          h (i + 1) c g (
            some_inj (
              sym (
                get_elem?-fds cs i c (
                  ap (λ l. get_elem? l (suc i)) (sym e)
                  ∙ ap (get_elem? s.client) {x = suc i} {y = i + 1} (omega arith)
                  ∙ g))
              ∙ first_free-free (fds cs) i q)))

      found :
          (m : Option ℕ)
          → first_free (fds cs) ≡ m
          → Holds r (Reads r old) (elim m [
            | none ↦ too_many
            | some i ↦ elim (get_elem? s.client (i + 1)) [
              | none ↦ fault
              | some c ↦ running (admit s fd (i + 1) c)
            ]
          ])
      found none q = tt
      found (some i) q = entry i q (get_elem? s.client (i + 1)) refl

  polled_step-Holds :
      (s : Server) (cs : List PollFd)
      → s.client ≡ cs
      → Reads r old s
      → IsFreeClear s.client
      → Holds r (Reads r old) (polled_step r s cs)
  unfolding polled_step
  polled_step-Holds s [] e v h = tt
  polled_step-Holds s (c ∷ cs) e v h = listened c.rdnorm
    where
      counted :
          (b : Bool) (t : Server)
          → Reads r old t
          → Holds r
              (Reads r old)
              (if b then running t else check_clients r (t.limit - 1) 1 (r.nready - 1) t)
      counted true t w = w
      counted false t w = check_clients-Holds (t.limit - 1) 1 (r.nready - 1) t w

      listened :
          (b : Bool)
          → Holds r (Reads r old) (
              if b
              then (new_client s r.accept cs >>= λ t.
                  if leb r.nready 1
                  then running t
                  else check_clients r (t.limit - 1) 1 (r.nready - 1) t)
              else check_clients r (s.limit - 1) 1 r.nready s)
      listened true =
          >>=-Holds r old _ _ (new_client-Holds s r.accept c cs e v h)
            (λ t w. counted (leb r.nready 1) t w)
      listened false = check_clients-Holds (s.limit - 1) 1 r.nready s v

-- A turn from a state in which the entries not polled yet are clear
step-Reads : (r : Round) (s : Server) → IsClear s → Holds r (Reads r s.log) (step r s)
unfolding step
step-Reads r s h = polled_step-Holds r s.log t t.client refl begun free
  where
    t : Server
    t = record s { client = poll r s.limit s.client }

    begun : Reads r s.log t
    begun = record {
      new = [];
      log = sym (append-nil s.log);
      reported = tt;
      honest = λ i c g. elim (get_elem?-poll r s.limit s.client i c g) [
        | inl (e, q, lt) ↦ subst (IsHonest r) (sym q) (poll_entry-IsHonest r e)
        | inr (le, q) ↦ (λ k fd e. absurd (false-true (h i c q le) k))
      ];
      clear = λ i c g le. elim (get_elem?-poll r s.limit s.client i c g) [
        | inl (e, q, lt) ↦ absurd (omega arith)
        | inr (le, q) ↦ h i c q le
      ];
    }

    free : IsFreeClear r s.log t.client
    free i c g n = elim (get_elem?-poll r s.limit s.client i c g) [
      | inl (e, q, lt) ↦ ap is_ready q ∙ poll_entry-none r e (ap (λ c. c.fd) (sym q) ∙ n)
      | inr (le, q) ↦ h i c q le
    ]

-- Without a set bit in the `revents` that the stack holds, this is so at the beginning.
start-IsClear :
    (listenfd : ℕ) (first : Bool × Bool) (stack : List (Bool × Bool))
    → ((i : ℕ) (b : Bool × Bool) → get_elem? stack i ≡ some b → (b.0 || b.1) ≡ false)
    → IsClear (start listenfd first stack)
unfolding start
start-IsClear listenfd first stack h zero c g le = absurd (omega arith)
start-IsClear listenfd first stack h (suc i) c g le = unset stack h i c g
  where
    unset :
        (stack : List (Bool × Bool))
        → ((i : ℕ) (b : Bool × Bool) → get_elem? stack i ≡ some b → (b.0 || b.1) ≡ false)
        → (i : ℕ) (c : PollFd)
        → get_elem? (map (λ b. record { fd = none; rdnorm = b.0; err = b.1 }) stack) i ≡ some c
        → is_ready c ≡ false
    unset [] h i c g = cc
    unset (b ∷ bs) h zero c g = ap is_ready (sym (some_inj g)) ∙ h 0 b refl
    unset (b ∷ bs) h (suc i) c g = unset bs (λ j. h (suc j)) i c g

-- In every turn of a run each read is from a descriptor that Poll() has reported in that turn.
abbrev pub AllTurns : List Round → Server → Type 0
AllTurns [] s = Unit {0}
AllTurns (r ∷ rs) s = Holds r (λ t. Reads r s.log t × AllTurns rs t) (step r s)

run-AllTurns : (rs : List Round) (s : Server) → IsClear s → AllTurns rs s
run-AllTurns [] s h = tt
run-AllTurns (r ∷ rs) s h = turn (step r s) (step-Reads r s h) (λ t w. run-AllTurns rs t w.clear)
  where
    turn :
        (o : Outcome)
        → Holds r (Reads r s.log) o
        → ((t : Server) → Reads r s.log t → AllTurns rs t)
        → Holds r (λ t. Reads r s.log t × AllTurns rs t) o
    turn (running t) w k = (w, k t w)
    turn too_many w k = w
    turn died w k = w
    turn fault w k = w

-- If no bit of POLLRDNORM and POLLERR is set in what the stack holds as `revents`, then whatever poll(),
-- accept() and read() give, in each turn the server reads only from descriptors that Poll() has reported
-- in that turn with one of the two; the log of a turn follows that of the turns before.
pub start-AllTurns :
    (rs : List Round) (listenfd : ℕ) (first : Bool × Bool) (stack : List (Bool × Bool))
    → ((i : ℕ) (b : Bool × Bool) → get_elem? stack i ≡ some b → (b.0 || b.1) ≡ false)
    → AllTurns rs (start listenfd first stack)
start-AllTurns rs listenfd first stack h =
    run-AllTurns rs (start listenfd first stack) (start-IsClear listenfd first stack h)
