-- ===== src/SelectServer/Serve.antt =====
-- Turns of the select() server: the table stays right.
use unix_network_programming.Prelude.{
  ℕ, zero, suc, ◌+◌, ◌-◌, ◌≤◌, ◌<◌, ◌≡◌, refl, sym, subst, inl, inr, Bool, true, false, ◌&&◌,
  Option, none, some, List, [], ◌∷◌, arith, leb, if◌then◌else◌, length, get_elem?, drop, drop-suc,
  Option-cases,
}
use unix_network_programming.Prelude.FdSet.{
  FdSet, Entry, first_free, At, first_free-free, first_free-full,
}
use unix_network_programming.Prelude.FdTable.{fd_setsize}
use unix_network_programming.SelectServer.{
  Input, got, failed, Round, Server, Outcome, running, too_many, died, fault, ◌>>=◌, admit,
  new_client, serve, check_client, check_clients, step, run, start,
}
use unix_network_programming.SelectServer.Table.{
  IsTable, admit-IsTable, drop_client-IsTable, start-IsTable,
}

module _ (listenfd : ℕ) where
  -- A right table behind an outcome; or the table is full of connections; or Read() has failed.
  abbrev pub KeepsTable : Outcome → Type 0
  KeepsTable (running s) = IsTable listenfd s
  KeepsTable too_many = Unit
  KeepsTable died = Unit
  KeepsTable fault = ⊥

  >>=-KeepsTable :
      (o : Outcome) (f : Server → Outcome)
      → KeepsTable o
      → ((s : Server) → IsTable listenfd s → KeepsTable (f s))
      → KeepsTable (o >>= f)
  >>=-KeepsTable (running s) f h k = k s h
  >>=-KeepsTable too_many f h k = h
  >>=-KeepsTable died f h k = h
  >>=-KeepsTable fault f h k = h

  serve-KeepsTable :
      (s : Server) (i fd : ℕ) (x : Input)
      → IsTable listenfd s
      → At s.client i fd
      → KeepsTable (serve s i fd x)
  unfolding serve
  serve-KeepsTable s i fd failed v h = tt
  serve-KeepsTable s i fd (got []) v h = drop_client-IsTable listenfd s v i fd h
  serve-KeepsTable s i fd (got (x ∷ xs)) v h = v

  new_client-cases :
      (s : Server) (c : ℕ)
      → IsTable listenfd s
      → s.allset c ≡ false
      → (o : Option ℕ) → first_free s.client ≡ o
      → KeepsTable (new_client s c)
  unfolding new_client
  new_client-cases s c v fresh none e = subst KeepsTable (sym (full s c e)) tt
    where
      full :
          (s : Server) (c : ℕ)
          → first_free s.client ≡ none
          → elim (first_free s.client) [ none ↦ too_many | some i ↦ running (admit s c i) ]
            ≡ too_many
      full s c e = rw e
  new_client-cases s c v fresh (some i) e =
      subst KeepsTable (sym (room s c e))
        (admit-IsTable listenfd s v c i fresh (first_free-free s.client i e))
    where
      room :
          (s : Server) (c : ℕ)
          → first_free s.client ≡ some i
          → elim (first_free s.client) [ none ↦ too_many | some i ↦ running (admit s c i) ]
            ≡ running (admit s c i)
      room s c e = rw e

  module _ (r : Round) (rset : FdSet) where
    check_client-KeepsTable :
        (again : ℕ → Server → Outcome)
        → ((n : ℕ) (t : Server) → IsTable listenfd t → KeepsTable (again n t))
        → (i n : ℕ) (s : Server) (e : Option Entry) → IsTable listenfd s
        → i < fd_setsize
        → get_elem? s.client i ≡ e
        → KeepsTable (check_client r again rset i n s e)
    unfolding check_client
    check_client-KeepsTable again ih i n s none v h e =
        absurd (in_table (drop-suc i s.client (omega (arith, v.sized))))
      where
        in_table :
            (x : Entry) × (get_elem? s.client i ≡ some x)
              × (drop i s.client ≡ x ∷ drop (suc i) s.client)
            → ⊥
        in_table (x, hit, _) = cc
    check_client-KeepsTable again ih i n s (some none) v h e = ih n s v
    check_client-KeepsTable again ih i n s (some (some fd)) v h e = isset-KeepsTable (rset fd)
      where
        counted-KeepsTable :
            (t : Server) (b : Bool)
            → IsTable listenfd t
            → KeepsTable (elim b [ true ↦ running t | false ↦ again (n - 1) t ])
        counted-KeepsTable t true w = w
        counted-KeepsTable t false w = ih (n - 1) t w

        isset-KeepsTable :
            (b : Bool)
            → KeepsTable (elim b [
              | false ↦ again n s
              | true ↦ serve s i fd (r.read fd) >>= λ t. elim (leb n 1) [
                | true ↦ running t
                | false ↦ again (n - 1) t
              ]
            ])
        isset-KeepsTable false = ih n s v
        isset-KeepsTable true =
            >>=-KeepsTable _ _ (serve-KeepsTable s i fd (r.read fd) v e)
              (λ t w. counted-KeepsTable t (leb n 1) w)

    check_clients-KeepsTable :
        (rounds i n : ℕ) (s : Server)
        → IsTable listenfd s
        → i + rounds ≤ fd_setsize
        → KeepsTable (check_clients r rset rounds i n s)
    unfolding check_clients
    check_clients-KeepsTable zero i n s v h = v
    check_clients-KeepsTable (suc rounds) i n s v h =
        check_client-KeepsTable (check_clients r rset rounds (i + 1))
          (λ m t w. check_clients-KeepsTable rounds (i + 1) m t w (omega arith)) i n s
          (get_elem? s.client i) v (omega arith) refl

  step-KeepsTable :
      (r : Round) (s : Server)
      → s.allset r.accept ≡ false
      → IsTable listenfd s
      → KeepsTable (step listenfd r s)
  unfolding step
  step-KeepsTable r s fresh v = turn (s.allset listenfd && r.ready listenfd)
    where
      rset : FdSet
      rset fd = s.allset fd && r.ready fd

      rest :
          (t : Server) (b : Bool)
          → IsTable listenfd t
          → KeepsTable (if b then running t else check_clients r rset t.limit 0 (r.nready - 1) t)
      rest t true w = w
      rest t false w =
          check_clients-KeepsTable r rset t.limit 0 (r.nready - 1) t w (omega (arith, w.bounded))

      turn :
          (b : Bool)
          → KeepsTable (
              if b
              then (new_client s r.accept >>= λ t.
                  if leb r.nready 1
                  then running t
                  else check_clients r rset t.limit 0 (r.nready - 1) t)
              else check_clients r rset s.limit 0 r.nready s)
      turn true =
          >>=-KeepsTable _ _ (new_client-cases s r.accept v fresh (first_free s.client) refl)
            (λ t w. rest t (leb r.nready 1) w)
      turn false = check_clients-KeepsTable r rset s.limit 0 r.nready s v (omega (arith, v.bounded))

  -- `P` holds of the server, if it goes on.
  abbrev pub After : (Server → Type 0) → Outcome → Type 0
  After P (running t) = P t
  After P too_many = Unit
  After P died = Unit
  After P fault = Unit

  -- A descriptor that accept() makes is not among those that are open then.
  abbrev pub AllFresh : List Round → Server → Type 0
  AllFresh [] s = Unit {0}
  AllFresh (r ∷ rs) s = (s.allset r.accept ≡ false) × After (AllFresh rs) (step listenfd r s)

  then-KeepsTable :
      (o : Outcome) (P : Server → Type 0) (f : Server → Outcome)
      → After P o
      → KeepsTable o
      → ((t : Server) → P t → IsTable listenfd t → KeepsTable (f t))
      → KeepsTable (o >>= f)
  then-KeepsTable (running t) P f h w k = k t h w
  then-KeepsTable too_many P f h w k = w
  then-KeepsTable died P f h w k = w
  then-KeepsTable fault P f h w k = w

  run-KeepsTable :
      (rs : List Round) (s : Server)
      → AllFresh rs s
      → IsTable listenfd s
      → KeepsTable (run listenfd s rs)
  unfolding run
  run-KeepsTable [] s h v = v
  run-KeepsTable (r ∷ rs) s h v =
      then-KeepsTable (step listenfd r s) (AllFresh rs) (λ t. run listenfd t rs) h.1
        (step-KeepsTable r s h.0 v) (λ t f w. run-KeepsTable rs t f w)

  -- If accept() never makes a descriptor that is open already, then whatever select() and read()
  -- give,
  -- the server stays inside client[], and while it goes on the table is right: each connection has one
  -- entry, below `maxi + 1`, and none is `listenfd`; `allset` holds `listenfd` and the connections of
  -- the table, and nothing else; and `maxfd` is at least every descriptor of `allset`.
  pub run-start-KeepsTable :
      (rs : List Round)
      → AllFresh rs (start listenfd)
      → KeepsTable (run listenfd (start listenfd) rs)
  run-start-KeepsTable rs h = run-KeepsTable rs (start listenfd) h (start-IsTable listenfd)

  -- The server quits with "too many clients" only when every entry of client[] holds a connection.
  pub new_client-too_many :
      (s : Server) (c i : ℕ)
      → new_client s c ≡ too_many
      → i < length s.client
      → (fd : ℕ) × At s.client i fd
  unfolding new_client
  new_client-too_many s c i h p = elim (Option-cases (first_free s.client)) [
    | inl e ↦ first_free-full s.client i e p
    | inr (j, e) ↦ ground arith
  ]
