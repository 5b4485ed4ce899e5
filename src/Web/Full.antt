-- ===== src/Web/Full.antt =====
-- The loop that opens connections, in nonblock/web.c: it opens as many as are allowed.
use unix_network_programming.Prelude.{
  ℕ, zero, suc, ◌+◌, ◌-◌, ◌≤◌, ◌<◌, ◌≡◌, refl, ap, sym, ◌∙◌, subst, ◌⊎◌, inl, inr, Bool, true,
  false, ◌&&◌, some, some_inj, List, [], ◌∷◌, arith, ltb, if◌then◌else◌, get_elem?, set, Bool-cases,
}
use unix_network_programming.Web.{
  idle, File, Connect, in_progress, connected, refused, Round, Client, Outcome, running,
  nothing_found, died, fault, ◌>>=◌, asked, is_idle, first_idle, write_get_cmd, connect_started,
  open_found, open_all,
}
use unix_network_programming.Web.Counts.{is_active, count, first_idle-found, IsCounted}
use unix_network_programming.Web.Turns.{KeepsCounts, is_idle-idle, found-eq, open_found-KeepsCounts}

-- `gs` is `fs` with some idle files replaced.
abbrev pub OnlyIdle : List File → List File → Type 0
OnlyIdle [] [] = Unit
OnlyIdle [] (g ∷ gs) = ⊥
OnlyIdle (f ∷ fs) [] = ⊥
OnlyIdle (f ∷ fs) (g ∷ gs) = ((f.f_flags ≡ idle) ⊎ (f ≡ g)) × OnlyIdle fs gs

OnlyIdle-refl : (fs : List File) → OnlyIdle fs fs
OnlyIdle-refl [] = tt
OnlyIdle-refl (f ∷ fs) = (inr refl, OnlyIdle-refl fs)

OnlyIdle-trans : (fs gs hs : List File) → OnlyIdle fs gs → OnlyIdle gs hs → OnlyIdle fs hs
OnlyIdle-trans [] [] hs p q = q
OnlyIdle-trans [] (g ∷ gs) hs p q = absurd p
OnlyIdle-trans (f ∷ fs) [] hs p q = absurd p
OnlyIdle-trans (f ∷ fs) (g ∷ gs) [] p q = absurd q
OnlyIdle-trans (f ∷ fs) (g ∷ gs) (x ∷ hs) (a, p) (b, q) = (
  elim a [ inl e ↦ inl e | inr e ↦ subst (λ y. (y.f_flags ≡ idle) ⊎ (y ≡ x)) (sym e) b ],
  OnlyIdle-trans fs gs hs p q,
)

OnlyIdle-set :
    (fs : List File) (i : ℕ) (f g : File)
    → get_elem? fs i ≡ some f
    → f.f_flags ≡ idle
    → OnlyIdle fs (set fs i g)
OnlyIdle-set [] i f g h e = cc
OnlyIdle-set (x ∷ fs) zero f g h e = (inl (ap (λ y. y.f_flags) (some_inj h) ∙ e), OnlyIdle-refl fs)
OnlyIdle-set (x ∷ fs) (suc i) f g h e = (inr refl, OnlyIdle-set fs i f g h e)

-- For the file `i`, connect() fails with another error than EINPROGRESS, or it is done at once and the GET
-- cannot be written.
abbrev pub CallFails : Round → Type 0
CallFails r =
    (i : ℕ) × ((r.connect i ≡ refused)
      ⊎ ((r.connect i ≡ connected) × (r.write (r.socket i) ≡ false)))

module _ (m n : ℕ) (r : Round) where
  -- From the client `s`, the loop has opened one idle file.
  record Opens (s t : Client) : Type 0 where
    counted : IsCounted m n t
    conn : t.nconn ≡ s.nconn + 1
    lefttoconn : t.nlefttoconn ≡ s.nlefttoconn - 1
    only : OnlyIdle s.file t.file

  abbrev OpensOr : Client → Outcome → Type 0
  OpensOr s (running t) = Opens s t
  OpensOr s nothing_found = ⊥
  OpensOr s died = CallFails r
  OpensOr s fault = ⊥

  -- Behind the loop, started at `s`: `m` connections are open, or no file is idle; each connection
  -- that was opened took an idle file, and no other file has changed.
  pub record Filled (s t : Client) : Type 0 where
    pub counted : IsCounted m n t
    pub full : (count is_active t.file ≡ m) ⊎ (count is_idle t.file ≡ 0)
    pub taken :
        count is_active t.file + count is_idle t.file
        ≡ count is_active s.file + count is_idle s.file
    pub only : OnlyIdle s.file t.file

  abbrev pub Fills : Client → Outcome → Type 0
  Fills s (running t) = Filled s t
  Fills s nothing_found = ⊥
  Fills s died = CallFails r
  Fills s fault = ⊥

  started-Opens :
      (s : Client) (i : ℕ) (f : File) (c : Connect)
      → r.connect i ≡ c
      → get_elem? s.file i ≡ some f
      → f.f_flags ≡ idle
      → KeepsCounts m n (
          connect_started r s i (record f { f_fd = r.socket i }) c >>= λ t.
          running (record t { nconn = t.nconn + 1; nlefttoconn = t.nlefttoconn - 1 }))
      → OpensOr s (
          connect_started r s i (record f { f_fd = r.socket i }) c >>= λ t.
          running (record t { nconn = t.nconn + 1; nlefttoconn = t.nlefttoconn - 1 }))
  unfolding connect_started write_get_cmd
  started-Opens s i f refused d h e v = (i, inl d)
  started-Opens s i f in_progress d h e v = record {
    counted = v;
    conn = refl;
    lefttoconn = refl;
    only = OnlyIdle-set s.file i f _ h e;
  }
  started-Opens s i f connected d h e v = written (r.write (r.socket i)) refl v
    where
      written :
          (b : Bool)
          → r.write (r.socket i) ≡ b
          → KeepsCounts m n (
              (if b then running (asked s i (record f { f_fd = r.socket i })) else died) >>= λ t.
              running (record t { nconn = t.nconn + 1; nlefttoconn = t.nlefttoconn - 1 }))
          → OpensOr s (
              (if b then running (asked s i (record f { f_fd = r.socket i })) else died) >>= λ t.
              running (record t { nconn = t.nconn + 1; nlefttoconn = t.nlefttoconn - 1 }))
      written true k w = record {
        counted = w;
        conn = refl;
        lefttoconn = refl;
        only = OnlyIdle-set s.file i f _ h e;
      }
      written false k w = (i, inr (d, k))

  open_found-Opens :
      (s : Client)
      → IsCounted m n s
      → s.nconn < m
      → 0 < s.nlefttoconn
      → OpensOr s (open_found r s (first_idle s.file))
  open_found-Opens s v room left =
      let (i, f, q, g, d) = first_idle-found s.file (omega (arith, v.lefttoconn)) in
      let eq = ap (open_found r s) q ∙ found-eq m n r s i f g in
      subst (OpensOr s) (sym eq) (
        started-Opens s i f (r.connect i) refl g (is_idle-idle m n r f.f_flags d)
          (subst (KeepsCounts m n) eq (open_found-KeepsCounts m n r s v room left)))

  Opens-Filled :
      (s t u : Client) → IsCounted m n s → 0 < s.nlefttoconn → Opens s t → Filled t u → Filled s u
  Opens-Filled s t u v left a b = record {
    counted = b.counted;
    full = b.full;
    taken = ground (
      arith, v.conn, v.lefttoconn, a.counted.conn, a.counted.lefttoconn, a.conn, a.lefttoconn,
      b.taken,
    );
    only = OnlyIdle-trans s.file t.file u.file a.only b.only;
  }

  >>=-Fills :
      (s : Client) (o : Outcome) (f : Client → Outcome)
      → IsCounted m n s
      → 0 < s.nlefttoconn
      → OpensOr s o
      → ((t : Client) → Opens s t → Fills t (f t))
      → Fills s (o >>= f)
  >>=-Fills s (running t) f v left h k = after (f t) (k t h)
    where
      after : (o : Outcome) → Fills t o → Fills s o
      after (running u) w = Opens-Filled s t u v left h w
      after nothing_found w = w
      after died w = w
      after fault w = w
  >>=-Fills s nothing_found f v left h k = h
  >>=-Fills s died f v left h k = h
  >>=-Fills s fault f v left h k = h

  -- From a client whose counters are right, with `m` connections at most, the loop that opens
  -- connections ends within as many rounds as files are idle: then `m` connections are open or no
  -- file is idle, the connections opened are as many as the files that are no longer idle, no file
  -- has changed that was not idle, and the counters are right again. The client exits in the loop
  -- only if a connect() fails, not with EINPROGRESS, or a Writen() behind one that is done at once.
  -- It never finds nothing to open.
  pub open_all-Fills :
      (rounds : ℕ) (s : Client)
      → IsCounted m n s
      → count is_idle s.file ≤ rounds
      → Fills s (open_all r m rounds s)
  unfolding open_all
  open_all-Fills zero s v h = record {
    counted = v;
    full = inr (omega arith);
    taken = refl;
    only = OnlyIdle-refl s.file;
  }
  open_all-Fills (suc rounds) s v h =
      more (ltb s.nconn m && ltb 0 s.nlefttoconn) refl (λ t w k. open_all-Fills rounds t w k)
    where
      more :
          (b : Bool)
          → (ltb s.nconn m && ltb 0 s.nlefttoconn) ≡ b
          → ((t : Client)
              → IsCounted m n t
              → count is_idle t.file ≤ rounds
              → Fills t (open_all r m rounds t))
          → Fills s (
              if b then (open_found r s (first_idle s.file) >>= open_all r m rounds) else running s)
      more true e ih =
          >>=-Fills s (open_found r s (first_idle s.file)) (open_all r m rounds) v (ground arith)
            (open_found-Opens s v (ground arith) (ground arith))
            (λ t a.
              ih t a.counted (omega (arith, a.counted.lefttoconn, a.lefttoconn, v.lefttoconn)))
      more false e ih = record {
        counted = v;
        full = elim (Bool-cases (ltb s.nconn m)) [
          | inl p ↦ inr (ground (arith, v.lefttoconn))
          | inr p ↦ inl (ground (arith, v.conn, v.allowed))
        ];
        taken = refl;
        only = OnlyIdle-refl s.file;
      }
