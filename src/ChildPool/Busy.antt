-- ===== src/ChildPool/Busy.antt =====
-- A child is busy exactly while it has a connection that the parent has passed to it.
use unix_network_programming.Prelude.{
  ℕ, zero, suc, ◌+◌, ◌-◌, ◌<◌, ◌≡◌, refl, ap, sym, ◌∙◌, subst, ◌⊎◌, inl, inr, Bool, true, false,
  none, some, some_inj, List, [], ◌∷◌, arith, if◌then◌else◌, get_elem?, set, length, length-append,
  length-set,
}
use unix_network_programming.ChildPool.{
  Child, Parent, Outcome, running, no_child, terminated, fault, ◌>>=◌, available, pass, give,
  release,
}

abbrev pub sum_of : (Child → ℕ) → List Child → ℕ
sum_of p [] = 0
sum_of p (c ∷ cs) = p c + sum_of p cs

-- 1 for an available child
abbrev pub free : Child → ℕ
free c = if c.child_status then 0 else 1

pub sum_of-set :
    (p : Child → ℕ) (cs : List Child) (i : ℕ) (c d : Child)
    → get_elem? cs i ≡ some c
    → sum_of p (set cs i d) + p c ≡ sum_of p cs + p d
sum_of-set p [] i c d h = cc
sum_of-set p (x ∷ cs) zero c d h =
    subst (λ y. p d + sum_of p cs + p y ≡ p x + sum_of p cs + p d) (some_inj h) (omega arith)
sum_of-set p (x ∷ cs) (suc i) c d h = omega (arith, sum_of-set p cs i c d h)

-- A child has one connection, or the byte about it, if it is busy, and else neither.
abbrev pub IsBusy : Child → Type 0
IsBusy c = c.queued + c.bytes ≡ (if c.child_status then 1 else 0)

pub get_elem?-set_cases :
    (cs : List Child) (i j : ℕ) (v c : Child)
    → get_elem? (set cs i v) j ≡ some c
    → (v ≡ c) ⊎ (get_elem? cs j ≡ some c)
get_elem?-set_cases [] i j v c h = inr h
get_elem?-set_cases (x ∷ cs) zero zero v c h = inl (some_inj h)
get_elem?-set_cases (x ∷ cs) zero (suc j) v c h = inr h
get_elem?-set_cases (x ∷ cs) (suc i) zero v c h = inr h
get_elem?-set_cases (x ∷ cs) (suc i) (suc j) v c h = get_elem?-set_cases cs i j v c h

-- `navail` counts the children that are available, and the children count the connections passed.
pub record IsPool (n : ℕ) (s : Parent) : Type 0 where
  pub children : length s.cptr ≡ n
  pub avail : s.navail ≡ sum_of free s.cptr
  pub busy : (i : ℕ) (c : Child) → get_elem? s.cptr i ≡ some c → IsBusy c
  pub counts : length s.given ≡ sum_of (λ c. c.child_count) s.cptr

available-found :
    (cs : List Child)
    → 0 < sum_of free cs
    → (i : ℕ) × (c : Child) × (available cs ≡ some i)
      × (get_elem? cs i ≡ some c)
      × (c.child_status ≡ false)
unfolding available
available-found [] h = absurd (omega arith)
available-found (x ∷ cs) h = either x.child_status refl h (available-found cs)
  where
    either :
        (b : Bool)
        → x.child_status ≡ b
        → 0 < (if b then 0 else 1) + sum_of free cs
        → (0 < sum_of free cs
            → (i : ℕ) × (c : Child) × (available cs ≡ some i)
              × (get_elem? cs i ≡ some c)
              × (c.child_status ≡ false))
        → (i : ℕ) × (c : Child) × ((if b
              then elim (available cs) [ none ↦ none | some i ↦ some (suc i) ]
              else some 0)
            ≡ some i)
          × (get_elem? (x ∷ cs) i ≡ some c)
          × (c.child_status ≡ false)
    either true e k ih = let (i, c, q, g, d) = ih (omega arith) in (suc i, c, rw q, g, d)
    either false e k ih = (0, x, refl, refl, e)

give-eq :
    (s : Parent) (connfd i : ℕ) (c : Child)
    → get_elem? s.cptr i ≡ some c
    → give s connfd (some i) ≡ running (pass s i c connfd)
unfolding give
give-eq s connfd i c h = rw (h, give)

module _ (n : ℕ) where
  -- A right pool behind an outcome, or a child has terminated.
  abbrev pub KeepsPool : Outcome → Type 0
  KeepsPool (running s) = IsPool n s
  KeepsPool no_child = ⊥
  KeepsPool terminated = Unit
  KeepsPool fault = ⊥

  pub >>=-KeepsPool :
      (o : Outcome) (f : Parent → Outcome)
      → KeepsPool o
      → ((s : Parent) → IsPool n s → KeepsPool (f s))
      → KeepsPool (o >>= f)
  >>=-KeepsPool (running s) f h k = k s h
  >>=-KeepsPool no_child f h k = h
  >>=-KeepsPool terminated f h k = h
  >>=-KeepsPool fault f h k = h

  pass-IsPool :
      (s : Parent) (i : ℕ) (c : Child) (connfd : ℕ)
      → IsPool n s
      → get_elem? s.cptr i ≡ some c
      → c.child_status ≡ false
      → IsPool n (pass s i c connfd)
  pass-IsPool s i c connfd v h e =
      let d : Child = record {
        child_status = true;
        child_count = c.child_count + 1;
        queued = c.queued + 1;
        bytes = c.bytes;
      } in
      record {
        children = length-set s.cptr i d ∙ v.children;
        avail = ground (arith, v.avail, sum_of-set free s.cptr i c d h, e);
        busy = λ j x g. elim (get_elem?-set_cases s.cptr i j d x g) [
          | inl q ↦ subst IsBusy q (ground (arith, v.busy i c h, e))
          | inr q ↦ v.busy j x q
        ];
        counts = omega (
          arith,
          v.counts,
          length-append s.given ((i, connfd) ∷ []),
          sum_of-set (λ c. c.child_count) s.cptr i c d h,
        );
      }

  pub give-KeepsPool :
      (s : Parent) (connfd : ℕ)
      → IsPool n s
      → 0 < s.navail
      → KeepsPool (give s connfd (available s.cptr))
  give-KeepsPool s connfd v h =
      let (i, c, q, g, e) = available-found s.cptr (omega (arith, v.avail)) in
      subst KeepsPool (sym (ap (give s connfd) q ∙ give-eq s connfd i c g))
        (pass-IsPool s i c connfd v g e)

  pub release-IsPool :
      (s : Parent) (i : ℕ) (c : Child)
      → IsPool n s
      → get_elem? s.cptr i ≡ some c
      → 0 < c.bytes
      → IsPool n (release s i c)
  release-IsPool s i c v h p =
      let d : Child = record c { child_status = false; bytes = c.bytes - 1 } in
      record {
        children = length-set s.cptr i d ∙ v.children;
        avail = ground (arith, v.avail, sum_of-set free s.cptr i c d h, v.busy i c h);
        busy = λ j x g. elim (get_elem?-set_cases s.cptr i j d x g) [
          | inl q ↦ subst IsBusy q (ground (arith, v.busy i c h))
          | inr q ↦ v.busy j x q
        ];
        counts = omega (arith, v.counts, sum_of-set (λ c. c.child_count) s.cptr i c d h);
      }
