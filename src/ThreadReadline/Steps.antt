-- ===== src/ThreadReadline/Steps.antt =====
-- What one thread does next, with the others beside it.
use unix_network_programming.Prelude.{
  ℕ, ◌-◌, ◌≤◌, ◌≡◌, refl, ap, sym, subst, Bool, true, false, Option, none, some, List, [], ==_iff,
  arith,
}
use unix_network_programming.Stream.{Socket}
use unix_network_programming.Stream.Laws.{IsStream}
use unix_network_programming.ThreadReadline.{
  Rline, new_rline, Place, outside, inside, Thread, Process, Outcome, running, died, fault, once,
  begin, left_at, pass, enters, goes,
}
use unix_network_programming.ThreadReadline.Passes.{pass-Passes}
use unix_network_programming.ThreadReadline.Calls.{At, work, IsThread, Passes}
use unix_network_programming.ThreadReadline.Reads.{view}
use unix_network_programming.ThreadReadline.Shared.{
  update-hit, update-same, InPlace-Owns, rline_at, Owns, held, Keeps, IsThread-same, moved,
}

module _ {S : Type 0} {k : Socket S} (law : IsStream k) (input : ℕ → List ℕ) where
  -- The memory of a call begins with the locals of readline().
  begins-IsThread :
      (i : List ℕ) (r : Rline) (x : Thread S) (a maxlen : ℕ)
      → x.place ≡ outside
      → IsThread law i r x
      → IsThread law i r (record x { place = inside a maxlen 1 [] })
  begins-IsThread i r x a maxlen e h = record {
    valid = h.valid;
    there = (
      view law r x.sock,
      subst (At law i x.answers (view law r x.sock)) e h.there,
      record { counts = refl; line = refl; rest = refl; ending = refl; split = refl },
    );
  }

  abbrev pub work_of : Process S → ℕ → ℕ
  work_of p t = work law (p.threads t).sock (p.threads t).place

  -- A pass of the thread `t`, behind which less is left for it to do
  abbrev pub GoesOn : ℕ → ℕ → Outcome S → Type 0
  GoesOn t w (running q) = Keeps law input q × (work_of q t ≤ w - 1)
  GoesOn t w died = ⊥
  GoesOn t w fault = ⊥

  left_at-GoesOn :
      (p : Process S) (t a w : ℕ) (o : Option (Rline × Thread S))
      → Keeps law input p
      → held p t ≡ some a
      → Passes law (input t) a w o
      → GoesOn t w (left_at p t a o)
  left_at-GoesOn p t a w none v e h = h
  left_at-GoesOn p t a w (some (r, x)) v e (ok, less, place) = (
    moved law input p _ t a r x v (update-same (held p) t (some a) e) (λ b. refl) (λ u. refl)
        (λ u h. v.distinct u t a h e) (v.below t a e) (omega arith) (InPlace-Owns a x.place place)
        ok,
    subst (λ y. work law y.sock y.place ≤ w - 1)
        (sym (update-hit p.threads t x t ((==_iff t t).1 refl))) (omega (arith, less)),
  )

  pub goes-GoesOn :
      (p : Process S) (t : ℕ) (y : Place)
      → (p.threads t).place ≡ y
      → Keeps law input p
      → GoesOn t (work_of p t) (goes k p t y)
  unfolding goes
  goes-GoesOn p t outside e v = (v, omega (arith, ap (work law (p.threads t).sock) e))
  goes-GoesOn p t (inside a maxlen n stored) e v =
      let key = subst (Owns (held p t)) e (v.owns t) in
      let x = IsThread-same law input refl (ap (rline_at p.mem) (sym key)) refl (v.each t) in
      let (w, cuts, i) =
        subst (At law (input t) (p.threads t).answers (view law (p.mem a) (p.threads t).sock)) e
          x.there in
      left_at-GoesOn p t a (work_of p t) _ v key (
        subst (λ b. Passes law (input t) a b (pass k (p.threads t) (p.mem a) a maxlen n stored))
          (sym (ap (work law (p.threads t).sock) e))
          (pass-Passes law (input t) (p.mem a) (p.threads t) a maxlen n stored w x.valid cuts i))

  -- A call begins, unless Calloc() fails.
  abbrev pub Begins : Bool → Outcome S → Type 0
  Begins memory (running q) = Keeps law input q
  Begins memory died = memory ≡ false
  Begins memory fault = ⊥

  begin-Begins :
      (p : Process S) (t maxlen : ℕ) (memory : Bool) (o : Option ℕ)
      → Keeps law input p
      → held p t ≡ o
      → (p.threads t).place ≡ outside
      → Begins memory (begin p t maxlen memory (once p.rl_key) o)
  unfolding begin
  begin-Begins p t maxlen memory (some a) v e out =
      moved law input p _ t a (p.mem a) _ v (update-same (held p) t (some a) e)
        (update-same p.mem a (p.mem a) refl) (λ u. refl) (λ u h. v.distinct u t a h e)
        (v.below t a e) (omega arith) refl
        (begins-IsThread (input t) (p.mem a) (p.threads t) a maxlen out
          (IsThread-same law input refl (ap (rline_at p.mem) (sym e)) refl (v.each t)))
  begin-Begins p t maxlen true none v e out =
      moved law input p _ t p.next new_rline _ v (λ u. refl) (λ b. refl) (λ u. refl)
        (λ u h. absurd (omega (arith, v.below u p.next h))) (omega arith) (omega arith) refl
        (begins-IsThread (input t) new_rline (p.threads t) p.next maxlen out
          (IsThread-same law input refl (ap (rline_at p.mem) (sym e)) refl (v.each t)))
  begin-Begins p t maxlen false none v e out = refl

  pub enters-Begins :
      (p : Process S) (t maxlen : ℕ) (memory : Bool) (y : Place)
      → (p.threads t).place ≡ y
      → Keeps law input p
      → Begins memory (enters k p t maxlen memory y)
  unfolding enters
  enters-Begins p t maxlen memory (inside a m n stored) e v = v
  enters-Begins p t maxlen memory outside e v = begin-Begins p t maxlen memory (held p t) v refl e
