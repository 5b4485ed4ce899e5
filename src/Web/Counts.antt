-- ===== src/Web/Counts.antt =====
-- How the three counters follow the flags of the files.
use unix_network_programming.Prelude.{
  ℕ, zero, suc, ◌+◌, ◌≤◌, ◌<◌, ◌≡◌, refl, ap, ◌∙◌, subst, Bool, true, false, none, some, some_inj,
  List, [], ◌∷◌, arith, if◌then◌else◌, get_elem?, set, length, replicate,
}
use unix_network_programming.Web.{
  Flags, idle, connecting, reading, finished, File, Client, is_idle, first_idle,
}

-- A connection is open.
abbrev pub is_active : Flags → Bool
is_active idle = false
is_active connecting = true
is_active reading = true
is_active finished = false

abbrev pub is_unfinished : Flags → Bool
is_unfinished finished = false
is_unfinished idle = true
is_unfinished connecting = true
is_unfinished reading = true

abbrev pub one : Bool → ℕ
one b = if b then 1 else 0

abbrev pub count : (Flags → Bool) → List File → ℕ
count p [] = 0
count p (f ∷ fs) = one (p f.f_flags) + count p fs

pub count-set :
    (p : Flags → Bool) (fs : List File) (i : ℕ) (f g : File)
    → get_elem? fs i ≡ some f
    → count p (set fs i g) + one (p f.f_flags) ≡ count p fs + one (p g.f_flags)
count-set p [] i f g h = cc
count-set p (x ∷ fs) zero f g h =
    subst
      (λ y.
        one (p g.f_flags) + count p fs + one (p y.f_flags)
        ≡ one (p x.f_flags) + count p fs + one (p g.f_flags))
      (some_inj h) (omega arith)
count-set p (x ∷ fs) (suc i) f g h = omega (arith, count-set p fs i f g h)

pub count-replicate :
    (p : Flags → Bool) (n : ℕ) (f : File) (b : Bool)
    → p f.f_flags ≡ b
    → count p (replicate n f) ≡ (if b then n else 0)
count-replicate p zero f true h = refl
count-replicate p zero f false h = refl
count-replicate p (suc n) f true h =
    ap (λ b. one b + count p (replicate n f)) h ∙ omega (arith, count-replicate p n f true h)
count-replicate p (suc n) f false h =
    ap (λ b. one b + count p (replicate n f)) h ∙ omega (arith, count-replicate p n f false h)

-- The same with the old flags known
pub count-set_flags :
    (p : Flags → Bool) (fs : List File) (i : ℕ) (f g : File) (old : Flags)
    → get_elem? fs i ≡ some f
    → f.f_flags ≡ old
    → count p (set fs i g) + one (p old) ≡ count p fs + one (p g.f_flags)
count-set_flags p fs i f g old h e =
    subst (λ x. count p (set fs i g) + one (p x) ≡ count p fs + one (p g.f_flags)) e
      (count-set p fs i f g h)

-- With an idle file left one is found.
pub first_idle-found :
    (fs : List File)
    → 0 < count is_idle fs
    → (i : ℕ) × (f : File) × (first_idle fs ≡ some i)
      × (get_elem? fs i ≡ some f)
      × (is_idle f.f_flags ≡ true)
unfolding first_idle
first_idle-found [] h = absurd (omega arith)
first_idle-found (x ∷ fs) h = either (is_idle x.f_flags) refl h (first_idle-found fs)
  where
    either :
        (b : Bool)
        → is_idle x.f_flags ≡ b
        → 0 < one b + count is_idle fs
        → (0 < count is_idle fs
            → (i : ℕ) × (f : File) × (first_idle fs ≡ some i)
              × (get_elem? fs i ≡ some f)
              × (is_idle f.f_flags ≡ true))
        → (i : ℕ) × (f : File) × ((if b
              then some 0
              else elim (first_idle fs) [ none ↦ none | some i ↦ some (suc i) ])
            ≡ some i)
          × (get_elem? (x ∷ fs) i ≡ some f)
          × (is_idle f.f_flags ≡ true)
    either true e k ih = (0, x, refl, refl, e)
    either false e k ih = let (i, f, q, g, d) = ih (omega arith) in (suc i, f, rw q, g, d)

-- The counters are right, and no more connections are open than is allowed.
pub record IsCounted (maxnconn nfiles : ℕ) (s : Client) : Type 0 where
  pub files : length s.file ≡ nfiles
  pub conn : s.nconn ≡ count is_active s.file
  pub lefttoconn : s.nlefttoconn ≡ count is_idle s.file
  pub lefttoread : s.nlefttoread ≡ count is_unfinished s.file
  pub allowed : s.nconn ≤ maxnconn
