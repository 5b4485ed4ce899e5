-- ===== src/SelectServer/Every.antt =====
-- The early exits by `nready` skip no ready client.
use unix_network_programming.Prelude.{
  ℕ, zero, suc, ◌+◌, ◌-◌, ◌≤◌, ◌≡◌, refl, ap, sym, ◌∙◌, Bool, true, false, ◌&&◌, Option, none, some,
  List, [], ◌∷◌, arith, leb, if◌then◌else◌, length, get_elem?, set,
}
use unix_network_programming.Prelude.FdSet.{FdSet, Entry, first_free, first_free-free}
use unix_network_programming.SelectServer.{
  Round, Server, Outcome, running, too_many, ◌>>=◌, admit, new_client, check_clients, step,
}
use unix_network_programming.SelectServer.Table.{IsTable, admit-IsTable}
use unix_network_programming.SelectServer.Unserved.{ready_clients, serve_all, all_served, none_left}

-- A new connection that is not in `rset` leaves the count.
ready_clients-set :
    (rset : FdSet) (cs : List Entry) (i c : ℕ)
    → get_elem? cs i ≡ some none
    → rset c ≡ false
    → ready_clients rset (set cs i (some c)) ≡ ready_clients rset cs
ready_clients-set rset [] i c h q = refl
ready_clients-set rset (none ∷ cs) zero c h q =
    ap (λ b. (if b then 1 else 0) + ready_clients rset cs) q ∙ omega arith
ready_clients-set rset (some fd ∷ cs) zero c h q = cc
ready_clients-set rset (none ∷ cs) (suc i) c h q = ready_clients-set rset cs i c h q
ready_clients-set rset (some fd ∷ cs) (suc i) c h q =
    ap (λ m. (if rset fd then 1 else 0) + m) (ready_clients-set rset cs i c h q)

module _ (listenfd : ℕ) (r : Round) where
  -- A turn without the count.
  pub step_all : Server → Outcome
  step_all s =
      let rset : FdSet = λ fd. s.allset fd && r.ready fd in
      if rset listenfd
      then (new_client s r.accept >>= λ s'. serve_all r rset s'.limit 0 s')
      else serve_all r rset s.limit 0 s

  -- The early exits skip nobody: if Select() counts at least the ready descriptors of the table and
  -- `listenfd`, and accept() makes a descriptor that is not open, then from a right table a turn does
  -- what the turn does that tries every entry of client[] up to `maxi` whatever the count.
  pub step-step_all :
      (s : Server)
      → IsTable listenfd s
      → s.allset r.accept ≡ false
      → (if s.allset listenfd && r.ready listenfd then 1 else 0)
          + ready_clients (λ fd. s.allset fd && r.ready fd) s.client
        ≤ r.nready
      → step listenfd r s ≡ step_all s
  unfolding step step_all new_client
  step-step_all s v fresh h = turn (s.allset listenfd && r.ready listenfd) h
    where
      rset : FdSet
      rset fd = s.allset fd && r.ready fd

      rest :
          (t : Server) (b : Bool)
          → t.limit ≤ length t.client
          → ready_clients rset t.client ≤ r.nready - 1
          → 1 ≤ r.nready
          → leb r.nready 1 ≡ b
          → (if b then running t else check_clients r rset t.limit 0 (r.nready - 1) t)
            ≡ serve_all r rset t.limit 0 t
      rest t true w k q p = sym (none_left r rset t.limit t w (ground arith))
      rest t false w k q p = all_served r rset t.limit (r.nready - 1) t w k

      entered :
          (o : Option ℕ)
          → first_free s.client ≡ o
          → 1 + ready_clients rset s.client ≤ r.nready
          → (elim o [ none ↦ too_many | some i ↦ running (admit s r.accept i) ] >>= λ t.
              if leb r.nready 1 then running t else check_clients r rset t.limit 0 (r.nready - 1) t)
            ≡ (elim o [ none ↦ too_many | some i ↦ running (admit s r.accept i) ] >>= λ t.
                serve_all r rset t.limit 0 t)
      entered none e k = refl
      entered (some i) e k =
          let free : get_elem? s.client i ≡ some none = first_free-free s.client i e in
          let w : IsTable listenfd (admit s r.accept i) =
            admit-IsTable listenfd s v r.accept i fresh free in
          rest (admit s r.accept i) (leb r.nready 1) (omega (arith, w.sized, w.bounded))
            (omega (arith, ready_clients-set rset s.client i r.accept free (ground arith), k))
            (omega arith) refl

      turn :
          (b : Bool)
          → (if b then 1 else 0) + ready_clients rset s.client ≤ r.nready
          → (if b
              then (new_client s r.accept >>= λ t.
                  if leb r.nready 1
                  then running t
                  else check_clients r rset t.limit 0 (r.nready - 1) t)
              else check_clients r rset s.limit 0 r.nready s)
            ≡ (if b
                then (new_client s r.accept >>= λ t. serve_all r rset t.limit 0 t)
                else serve_all r rset s.limit 0 s)
      turn true k = entered (first_free s.client) refl k
      turn false k =
          all_served r rset s.limit r.nready s (omega (arith, v.sized, v.bounded))
            (omega (arith, k))
