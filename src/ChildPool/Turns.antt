-- ===== src/ChildPool/Turns.antt =====
-- Turns of the parent and work of the children: the pool stays right.
use unix_network_programming.Prelude.{
  ℕ, zero, suc, ◌+◌, ◌-◌, ◌≤◌, ◌≡◌, refl, ap, sym, ◌∙◌, subst, inl, inr, Bool, true, false, ◌&&◌,
  ◌||◌, Option, none, some, some_inj, List, [], ◌∷◌, arith, ltb, ◌==◌, if◌then◌else◌, get_elem?,
  set, length, length-set, length-replicate, drop-suc, replicate,
}
use unix_network_programming.ChildPool.{
  Child, Parent, Round, Outcome, running, terminated, ◌>>=◌, available, give, release, check_child,
  check_children, turn, finish, Event, turns, finishes, step, run, start,
}
use unix_network_programming.ChildPool.Busy.{
  sum_of, free, sum_of-set, IsBusy, get_elem?-set_cases, IsPool, KeepsPool, >>=-KeepsPool,
  give-KeepsPool, release-IsPool,
}

module _ (n : ℕ) where
  module _ (r : Round) where
    check_child-KeepsPool :
        (again : ℕ → Parent → Outcome)
        → ((k : ℕ) (t : Parent) → IsPool n t → KeepsPool n (again k t))
        → (i k : ℕ) (s : Parent) (c : Child) → IsPool n s
        → get_elem? s.cptr i ≡ some c
        → KeepsPool n (check_child r again i k s (some c))
    unfolding check_child
    check_child-KeepsPool again ih i k s c v h =
        told (r.ready i && (ltb 0 c.bytes || r.dead i)) (ltb 0 c.bytes) (k == 1) refl
      where
        told :
            (b d e : Bool)
            → ltb 0 c.bytes ≡ d
            → KeepsPool n (
                if b
                then (if d
                    then (if e then running (release s i c) else again (k - 1) (release s i c))
                    else terminated)
                else again k s)
        told true true true q = release-IsPool n s i c v h (ground arith)
        told true true false q =
            ih (k - 1) (release s i c) (release-IsPool n s i c v h (ground arith))
        told true false e q = tt
        told false d e q = ih k s v

    check_children-KeepsPool :
        (rounds i k : ℕ) (s : Parent)
        → i + rounds ≤ n
        → IsPool n s
        → KeepsPool n (check_children r rounds i k s)
    unfolding check_children
    check_children-KeepsPool zero i k s h v = v
    check_children-KeepsPool (suc rounds) i k s h v =
        let (c, hit, tail) = drop-suc i s.cptr (omega (arith, v.children)) in
        subst (KeepsPool n) (sym (ap (check_child r (check_children r rounds (i + 1)) i k s) hit)) (
          check_child-KeepsPool (check_children r rounds (i + 1))
            (λ j t w. check_children-KeepsPool rounds (i + 1) j t (omega arith) w) i k s c v hit)

    turn-KeepsPool : (s : Parent) (o : Option ℕ) → IsPool n s → KeepsPool n (turn r s o)
    unfolding turn
    turn-KeepsPool s none v =
        check_children-KeepsPool (length s.cptr) 0 r.nsel s (omega (arith, v.children)) v
    turn-KeepsPool s (some connfd) v = listening (ltb 0 s.navail) refl
      where
        rest :
            (b : Bool) (t : Parent)
            → IsPool n t
            → KeepsPool n
                (if b then running t else check_children r (length t.cptr) 0 (r.nsel - 1) t)
        rest true t w = w
        rest false t w =
            check_children-KeepsPool (length t.cptr) 0 (r.nsel - 1) t (omega (arith, w.children)) w

        listening :
            (b : Bool)
            → ltb 0 s.navail ≡ b
            → KeepsPool n (
                if b
                then (give s connfd (available s.cptr) >>= λ t.
                    if r.nsel == 1
                    then running t
                    else check_children r (length t.cptr) 0 (r.nsel - 1) t)
                else check_children r (length s.cptr) 0 r.nsel s)
        listening true e =
            >>=-KeepsPool n (give s connfd (available s.cptr)) _
              (give-KeepsPool n s connfd v (ground arith)) (λ t w. rest (r.nsel == 1) t w)
        listening false e =
            check_children-KeepsPool (length s.cptr) 0 r.nsel s (omega (arith, v.children)) v

  finish-KeepsPool :
      (s : Parent) (i : ℕ) (o : Option Child)
      → get_elem? s.cptr i ≡ o
      → IsPool n s
      → KeepsPool n (finish s i o)
  unfolding finish
  finish-KeepsPool s i none h v = v
  finish-KeepsPool s i (some c) h v = works (ltb 0 c.queued) refl
    where
      d : Child
      d = record c { queued = c.queued - 1; bytes = c.bytes + 1 }

      works :
          (b : Bool)
          → ltb 0 c.queued ≡ b
          → IsPool n (if b then record s { cptr = set s.cptr i d } else s)
      works true e = record {
        children = length-set s.cptr i d ∙ v.children;
        avail = omega (arith, v.avail, sum_of-set free s.cptr i c d h);
        busy = λ j x g. elim (get_elem?-set_cases s.cptr i j d x g) [
          | inl q ↦ subst IsBusy q (ground (arith, v.busy i c h))
          | inr q ↦ v.busy j x q
        ];
        counts = omega (arith, v.counts, sum_of-set (λ c. c.child_count) s.cptr i c d h);
      }
      works false e = v

  run-KeepsPool : (es : List Event) (s : Parent) → IsPool n s → KeepsPool n (run s es)
  unfolding run step
  run-KeepsPool [] s v = v
  run-KeepsPool (turns r ∷ es) s v =
      >>=-KeepsPool n (turn r s r.conn) _ (turn-KeepsPool r s r.conn v)
        (λ t w. run-KeepsPool es t w)
  run-KeepsPool (finishes i ∷ es) s v =
      >>=-KeepsPool n (finish s i (get_elem? s.cptr i)) _
        (finish-KeepsPool s i (get_elem? s.cptr i) refl v) (λ t w. run-KeepsPool es t w)

idle_child : Child
idle_child = record { child_status = false; child_count = 0; queued = 0; bytes = 0 }

start-IsPool : (n : ℕ) → IsPool n (start n)
unfolding start idle_child
start-IsPool n = record {
  children = length-replicate n idle_child;
  avail = all_free n;
  busy = all_idle n;
  counts = none_yet n;
}
  where
    all_free : (n : ℕ) → n ≡ sum_of free (replicate n idle_child)
    all_free zero = refl
    all_free (suc n) = omega (arith, all_free n)

    none_yet : (n : ℕ) → 0 ≡ sum_of (λ c. c.child_count) (replicate n idle_child)
    none_yet zero = refl
    none_yet (suc n) = omega (arith, none_yet n)

    all_idle : (n i : ℕ) (c : Child) → get_elem? (replicate n idle_child) i ≡ some c → IsBusy c
    all_idle zero i c h = cc
    all_idle (suc n) zero c h = subst IsBusy (some_inj h) refl
    all_idle (suc n) (suc i) c h = all_idle n i c h

-- With `n` children, whatever the order of the turns and of the children's work, the parent stays
-- inside cptr[] and never quits for want of an available child. While it goes on, `navail` is the
-- number of children that are available; a busy child has exactly one connection, or one byte about it
-- is on its way, and an available one has neither; and the children's counts add up to the
-- connections passed.
pub run-start-KeepsPool : (n : ℕ) (es : List Event) → KeepsPool n (run (start n) es)
run-start-KeepsPool n es = run-KeepsPool n es (start n) (start-IsPool n)
