-- ===== src/Icmpd/Errors/Delivery.antt =====
-- Which clients are told of an error.
use unix_network_programming.Prelude.{
  ℕ, zero, suc, ◌+◌, ◌≤◌, ◌<◌, ◌≡◌, refl, ap, sym, ◌∙◌, subst, Bool, true, false, none, some, List,
  [], ◌∷◌, ◌++◌, append-nil, append_assoc, arith, if◌then◌else◌, length, take, drop, drop-suc,
}
use unix_network_programming.Prelude.FdSet.{Entry, At}
use unix_network_programming.Icmpd.{
  Family, Client, IcmpdErr, Action, notified, Daemon, Round, Outcome, running, quit, died, fault,
  did, connfds,
}
use unix_network_programming.Icmpd.Errors.{is_for, deliver_to, deliver_entry, deliver}

module _ (r : Round) (family : Family) (sport : ℕ) (e : IcmpdErr) where
  abbrev pub notice : Client → Entry → List Action
  notice c none = []
  notice c (some fd) = if is_for family sport c then notified fd e ∷ [] else []

  -- The notices to those clients of a table that have the port.
  abbrev pub notices : List Client → List Action
  notices [] = []
  notices (c ∷ cs) = notice c c.connfd ++ notices cs

  -- The daemon does `acts` and nothing else, or dies as a Write() fails.
  abbrev pub Does : Daemon → List Action → Outcome → Type 0
  Does s acts (running t) = t ≡ record s { log = s.log ++ acts }
  Does s acts died = (fd : ℕ) × (r.write fd ≡ false)
  Does s acts quit = ⊥
  Does s acts fault = ⊥

  Does-did :
      (s : Daemon) (a : Action) (acts : List Action) (o : Outcome)
      → Does (did s a) acts o
      → Does s (a ∷ acts) o
  Does-did s a acts (running t) h =
      h ∙ ap (λ l. record s { log = l }) (append_assoc s.log (a ∷ []) acts)
  Does-did s a acts died h = h
  Does-did s a acts quit h = h
  Does-did s a acts fault h = h

  deliver_to-Does :
      (again : Daemon → Outcome) (s : Daemon) (c : Client) (fd : Entry) (acts : List Action)
      → Does s acts (again s)
      → ((a : Action) → Does (did s a) acts (again (did s a)))
      → Does s (notice c fd ++ acts) (deliver_to r family sport e again s c fd)
  unfolding deliver_to
  deliver_to-Does again s c none acts h k = h
  deliver_to-Does again s c (some fd) acts h k = told (is_for family sport c) (r.write fd) refl
    where
      told :
          (b w : Bool)
          → r.write fd ≡ w
          → Does s
              ((if b then notified fd e ∷ [] else []) ++ acts)
              (if b then (if w then again (did s (notified fd e)) else died) else again s)
      told true true q =
          Does-did s (notified fd e) acts (again (did s (notified fd e))) (k (notified fd e))
      told true false q = (fd, q)
      told false w q = h

  deliver-Does :
      (rounds i : ℕ) (s : Daemon)
      → i + rounds ≤ length s.client
      → Does s (notices (take rounds (drop i s.client))) (deliver r family sport e rounds i s)
  unfolding deliver deliver_entry
  deliver-Does zero i s h = ap (λ l. record s { log = l }) (sym (append-nil s.log))
  deliver-Does (suc rounds) i s h =
      let (c, hit, tail) = drop-suc i s.client (omega arith) in
      let j : suc i ≡ i + 1 = omega arith in
      let rest : notices (take rounds (drop (i + 1) s.client))
          ≡ notices (take rounds (drop (suc i) s.client)) =
        ap (λ k. notices (take rounds (drop k s.client))) (sym j) in
      subst (λ o. Does s (notices (take (suc rounds) (drop i s.client))) o)
        (sym (ap (deliver_entry r family sport e (deliver r family sport e rounds (i + 1)) s) hit))
        (subst
          (λ l.
            Does s (notices (take (suc rounds) l))
              (deliver_to r family sport e (deliver r family sport e rounds (i + 1)) s c c.connfd))
          (sym tail)
          (deliver_to-Does (deliver r family sport e rounds (i + 1)) s c c.connfd
            (notices (take rounds (drop (suc i) s.client)))
            (subst (λ acts. Does s acts (deliver r family sport e rounds (i + 1) s)) rest
              (deliver-Does rounds (i + 1) s (omega arith)))
            (λ a.
              subst
                (λ acts. Does (did s a) acts (deliver r family sport e rounds (i + 1) (did s a)))
                rest (deliver-Does rounds (i + 1) (did s a) (omega arith)))))

  -- Entries that are free get nothing.
  none_left : (cs : List Client) → ((i fd : ℕ) → At (connfds cs) i fd → ⊥) → notices cs ≡ []
  none_left [] h = refl
  none_left (c ∷ cs) h = free c.connfd refl ∙ none_left cs (λ i. h (suc i))
    where
      free : (fd : Entry) → c.connfd ≡ fd → notice c fd ++ notices cs ≡ notices cs
      free none q = refl
      free (some fd) q = absurd (h 0 fd (ap some q))

  notices-take :
      (limit : ℕ) (cs : List Client)
      → ((i fd : ℕ) → At (connfds cs) i fd → i < limit)
      → notices (take limit cs) ≡ notices cs
  notices-take zero cs h = sym (none_left cs (λ i fd a. omega (arith, h i fd a)))
  notices-take (suc limit) [] h = refl
  notices-take (suc limit) (c ∷ cs) h =
      ap (λ l. notice c c.connfd ++ l)
        (notices-take limit cs (λ i fd a. omega (arith, h (suc i) fd a)))

  -- Where all connections stand below `maxi + 1` and that is at most the size of client[], the loop
  -- stays inside client[], and it tells each client that has the family and the port, in the order of
  -- the table, and no other; or the daemon dies because a Write() fails.
  pub deliver-tells :
      (s : Daemon)
      → s.limit ≤ length s.client
      → ((i fd : ℕ) → At (connfds s.client) i fd → i < s.limit)
      → Does s (notices s.client) (deliver r family sport e s.limit 0 s)
  deliver-tells s h k =
      subst (λ acts. Does s acts (deliver r family sport e s.limit 0 s))
        (notices-take s.limit s.client k) (deliver-Does s.limit 0 s (omega arith))
