-- ===== src/Prelude/FdTable.antt =====
-- Tables of descriptors and the `fd_set` of those that are open, as the servers of tcpcliserv and
-- icmpd keep them side by side, with the number of entries in use (`maxi + 1`) and the greatest
-- descriptor.
use unix_network_programming.Prelude.{
  ℕ, zero, suc, ◌+◌, ◌≤◌, ◌<◌, ◌≡◌, ◌≢◌, refl, ap, sym, ◌∙◌, subst, ◌⊎◌, inl, inr, true, false,
  Option, none, some, some_inj, List, arith, leb, ltb, if◌then◌else◌, length, get_elem?, set,
  get_elem?-set_self, length-set, replicate, Bool-cases,
}
use unix_network_programming.Prelude.FdSet.{
  FdSet, fd_set, fd_clr, Entry, At, At-set, At-set_ne, get_elem?-lt,
}

abbrev pub fd_setsize : ℕ
fd_setsize = 1024

-- Every connection has one entry, below `limit`, and is not `fixed`; `allset` holds the `fixed`
-- descriptors and the connections; none is above `maxfd`.
pub record IsTable (fixed : FdSet) (cs : List Entry) (allset : FdSet) (limit maxfd : ℕ)
    : Type 0 where
  pub sized : length cs ≡ fd_setsize
  pub bounded : limit ≤ fd_setsize
  pub distinct : (i j fd : ℕ) → At cs i fd → At cs j fd → i ≡ j
  pub apart : (i fd : ℕ) → At cs i fd → fixed fd ≡ false
  pub known : (i fd : ℕ) → At cs i fd → allset fd ≡ true
  pub below : (i fd : ℕ) → At cs i fd → i < limit
  pub only : (fd : ℕ) → allset fd ≡ true → (fixed fd ≡ true) ⊎ ((i : ℕ) × At cs i fd)
  pub listening : (fd : ℕ) → fixed fd ≡ true → allset fd ≡ true
  pub reached : (fd : ℕ) → allset fd ≡ true → fd ≤ maxfd

true-false : true ≡ false → ⊥
true-false q = cc

fd_set_self : (c : ℕ) (s : FdSet) → fd_set c s c ≡ true
fd_set_self c s = ground arith

fd_set-old : (c fd : ℕ) (s : FdSet) → s fd ≡ true → fd_set c s fd ≡ true
fd_set-old c fd s h = ground arith

fd_set-cases : (c fd : ℕ) (s : FdSet) → fd_set c s fd ≡ true → (fd ≡ c) ⊎ (s fd ≡ true)
fd_set-cases c fd s h = ground arith

fd_clr-old : (c fd : ℕ) (s : FdSet) → fd ≢ c → s fd ≡ true → fd_clr c s fd ≡ true
fd_clr-old c fd s ne h = ground arith

fd_clr-cases : (c fd : ℕ) (s : FdSet) → fd_clr c s fd ≡ true → (fd ≢ c) × (s fd ≡ true)
fd_clr-cases c fd s h = ground arith

new-ne : (s : FdSet) (c fd : ℕ) → s c ≡ false → s fd ≡ true → fd ≢ c
new-ne s c fd h k e = cc

taken-free : (cs : List Entry) (i j fd : ℕ) → get_elem? cs i ≡ some none → i ≡ j → At cs j fd → ⊥
taken-free cs i j fd free e a = no_entry (sym free ∙ subst (λ k. At cs k fd) (sym e) a)
  where
    no_entry : ◌≡◌ {A = Option Entry} (some none) (some (some fd)) → ⊥
    no_entry q = cc

none-ne : {fd : ℕ} → ◌≡◌ {A = Entry} none (some fd) → ⊥
none-ne q = cc

module _ (fixed : FdSet) (cs : List Entry) (allset : FdSet) (limit maxfd : ℕ)
    (v : IsTable fixed cs allset limit maxfd) where
  not_fixed : (c : ℕ) → allset c ≡ false → fixed c ≡ false
  not_fixed c h = elim (Bool-cases (fixed c)) [
    | inl e ↦ absurd (true-false (sym (v.listening c e) ∙ h))
    | inr e ↦ e
  ]

  pub enter-IsTable :
      (c i : ℕ)
      → allset c ≡ false
      → get_elem? cs i ≡ some none
      → IsTable fixed
          (set cs i (some c))
          (fd_set c allset)
          (if leb limit i then i + 1 else limit)
          (if ltb maxfd c then c else maxfd)
  enter-IsTable c i fresh free = record {
    sized = length-set cs i (some c) ∙ v.sized;
    bounded = ground (arith, get_elem?-lt cs i none free, v.sized, v.bounded);
    distinct = λ j k fd a b.
        distinct' j k fd (At-set cs i j fd (some c) i_in a) (At-set cs i k fd (some c) i_in b);
    apart = λ j fd a. apart' j fd (At-set cs i j fd (some c) i_in a);
    known = λ j fd a. known' j fd (At-set cs i j fd (some c) i_in a);
    below = λ j fd a. below' j fd (At-set cs i j fd (some c) i_in a);
    only = λ fd h. only' fd (fd_set-cases c fd allset h);
    listening = λ fd h. fd_set-old c fd allset (v.listening fd h);
    reached = λ fd h. reached' fd (fd_set-cases c fd allset h);
  }
    where
      i_in : i < length cs
      i_in = get_elem?-lt cs i none free

      Held : ℕ → ℕ → Type 0
      Held j fd = ((j ≡ i) × (some c ≡ some fd)) ⊎ ((j ≢ i) × At cs j fd)

      distinct' : (j k fd : ℕ) → Held j fd → Held k fd → j ≡ k
      distinct' j k fd (inl (e, _)) (inl (f, _)) = e ∙ sym f
      distinct' j k fd (inl (_, e)) (inr (_, b)) =
          absurd (new-ne allset c fd fresh (v.known k fd b) (sym (some_inj e)))
      distinct' j k fd (inr (_, a)) (inl (_, e)) =
          absurd (new-ne allset c fd fresh (v.known j fd a) (sym (some_inj e)))
      distinct' j k fd (inr (_, a)) (inr (_, b)) = v.distinct j k fd a b

      apart' : (j fd : ℕ) → Held j fd → fixed fd ≡ false
      apart' j fd (inl (_, e)) = subst (λ x. fixed x ≡ false) (some_inj e) (not_fixed c fresh)
      apart' j fd (inr (_, a)) = v.apart j fd a

      known' : (j fd : ℕ) → Held j fd → fd_set c allset fd ≡ true
      known' j fd (inl (_, e)) =
          subst (λ x. fd_set c allset x ≡ true) (some_inj e) (fd_set_self c allset)
      known' j fd (inr (_, a)) = fd_set-old c fd allset (v.known j fd a)

      below' : (j fd : ℕ) → Held j fd → j < (if leb limit i then i + 1 else limit)
      below' j fd (inl (e, _)) = ground arith
      below' j fd (inr (_, a)) = ground (arith, v.below j fd a)

      only' :
          (fd : ℕ)
          → (fd ≡ c) ⊎ (allset fd ≡ true)
          → (fixed fd ≡ true) ⊎ ((j : ℕ) × At (set cs i (some c)) j fd)
      only' fd (inl e) =
          inr (i, get_elem?-set_self cs i (some c) i_in ∙ ap (λ x. some (some x)) (sym e))
      only' fd (inr h) = elim (v.only fd h) [
        | inl e ↦ inl e
        | inr (j, a) ↦ inr (j, At-set_ne cs i j fd (some c) (λ e. taken-free cs i j fd free e a) a)
      ]

      reached' : (fd : ℕ) → (fd ≡ c) ⊎ (allset fd ≡ true) → fd ≤ (if ltb maxfd c then c else maxfd)
      reached' fd (inl e) = ground arith
      reached' fd (inr h) = ground (arith, v.reached fd h)

  pub leave-IsTable :
      (i c : ℕ) → At cs i c → IsTable fixed (set cs i none) (fd_clr c allset) limit maxfd
  leave-IsTable i c here = record {
    sized = length-set cs i none ∙ v.sized;
    bounded = v.bounded;
    distinct = λ j k fd a b. v.distinct j k fd (kept j fd a).1 (kept k fd b).1;
    apart = λ j fd a. v.apart j fd (kept j fd a).1;
    known =
        λ j fd a. fd_clr-old c fd allset (other j fd (kept j fd a)) (v.known j fd (kept j fd a).1);
    below = λ j fd a. v.below j fd (kept j fd a).1;
    only = λ fd h. only' fd (fd_clr-cases c fd allset h);
    listening =
        λ fd h. fd_clr-old c fd allset (new-ne fixed c fd (v.apart i c here) h) (v.listening fd h);
    reached = λ fd h. v.reached fd (fd_clr-cases c fd allset h).1;
  }
    where
      i_in : i < length cs
      i_in = get_elem?-lt cs i (some c) here

      kept : (j fd : ℕ) → At (set cs i none) j fd → (j ≢ i) × At cs j fd
      kept j fd a = elim (At-set cs i j fd none i_in a) [
        | inl (_, e) ↦ absurd (none-ne e)
        | inr (ne, b) ↦ (ne, b)
      ]

      other : (j fd : ℕ) → (j ≢ i) × At cs j fd → fd ≢ c
      other j fd (ne, b) e = ne (v.distinct j i c (subst (At cs j) e b) here)

      only' :
          (fd : ℕ)
          → (fd ≢ c) × (allset fd ≡ true)
          → (fixed fd ≡ true) ⊎ ((j : ℕ) × At (set cs i none) j fd)
      only' fd (ne, h) = elim (v.only fd h) [
        | inl e ↦ inl e
        | inr (j, a) ↦ inr (
          j,
          At-set_ne cs i j fd none
              (λ e. ne (some_inj (some_inj (sym a ∙ subst (λ k. At cs k c) e here)))) a,
        )
      ]

blank : (n i fd : ℕ) → At (replicate n none) i fd → ⊥
blank zero i fd h = cc
blank (suc n) zero fd h = none-ne (some_inj h)
blank (suc n) (suc i) fd h = blank n i fd h

pub empty-IsTable :
    (fixed : FdSet) (maxfd : ℕ)
    → ((fd : ℕ) → fixed fd ≡ true → fd ≤ maxfd)
    → IsTable fixed (replicate fd_setsize none) fixed 0 maxfd
empty-IsTable fixed maxfd h = record {
  sized = refl;
  bounded = omega arith;
  distinct = λ i j fd a b. absurd (blank 1024 i fd a);
  apart = λ i fd a. absurd (blank 1024 i fd a);
  known = λ i fd a. absurd (blank 1024 i fd a);
  below = λ i fd a. absurd (blank 1024 i fd a);
  only = λ fd e. inl e;
  listening = λ fd e. e;
  reached = h;
}
