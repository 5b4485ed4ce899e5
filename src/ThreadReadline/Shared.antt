-- ===== src/ThreadReadline/Shared.antt =====
-- The threads together: each has an `Rline` of its own in the memory that they share.
use unix_network_programming.Prelude.{
  ℕ, ◌≤◌, ◌<◌, ◌≡◌, refl, ap, sym, ◌∙◌, subst, Bool, true, false, Option, none, some, some_inj,
  List, ◌==◌, ==_iff, arith,
}
use unix_network_programming.Stream.{Socket}
use unix_network_programming.Stream.Laws.{IsStream}
use unix_network_programming.ThreadReadline.{
  Rline, new_rline, Place, outside, inside, Thread, Process, update, once,
}
use unix_network_programming.ThreadReadline.Calls.{InPlace, IsThread}

pub update-hit :
    {A : Type 0} (f : ℕ → A) (i : ℕ) (x : A) (j : ℕ) → (j == i) ≡ true → update f i x j ≡ x
update-hit f i x j h = rw h refl

differs : (i j : ℕ) → (i == j) ≡ false → i ≡ j → ⊥
differs i j h e = let same : (i == j) ≡ true = (==_iff i j).1 e in cc

update-miss :
    {A : Type 0} (f : ℕ → A) (i : ℕ) (x : A) (j : ℕ) → (j == i) ≡ false → update f i x j ≡ f j
update-miss f i x j h = rw h refl

pub update-same :
    {A : Type 0} (f : ℕ → A) (i : ℕ) (x : A) → f i ≡ x → (j : ℕ) → f j ≡ update f i x j
update-same f i x h j = by_index (j == i) refl
  where
    by_index : (b : Bool) → (j == i) ≡ b → f j ≡ update f i x j
    by_index true e = ap f ((==_iff j i).0 e) ∙ h ∙ sym (update-hit f i x j e)
    by_index false e = sym (update-miss f i x j e)

-- The `Rline` of a thread whose value for the key is given: a thread without one gets a new one.
abbrev pub rline_at : (ℕ → Rline) → Option ℕ → Rline
rline_at mem none = new_rline
rline_at mem (some a) = mem a

abbrev pub Owns : Option ℕ → Place → Type 0
Owns o outside = Unit
Owns o (inside tsd maxlen n stored) = o ≡ some tsd

pub InPlace-Owns : (a : ℕ) (y : Place) → InPlace a y → Owns (some a) y
InPlace-Owns a outside h = tt
InPlace-Owns a (inside tsd maxlen n stored) h = ap some (sym h)

abbrev pub held : {S : Type 0} → Process S → ℕ → Option ℕ
held p t = once p.rl_key t

module _ {S : Type 0} {k : Socket S} (law : IsStream k) (input : ℕ → List ℕ) where
  -- No two threads share an `Rline`, all lie in memory that is taken, a thread in a call uses its own,
  -- and the answers of each are the lines of its own stream.
  pub record Keeps (p : Process S) : Type 0 where
    pub distinct : (t u a : ℕ) → held p t ≡ some a → held p u ≡ some a → t ≡ u
    pub below : (t a : ℕ) → held p t ≡ some a → a < p.next
    pub owns : (t : ℕ) → Owns (held p t) (p.threads t).place
    pub each : (t : ℕ) → IsThread law (input t) (rline_at p.mem (held p t)) (p.threads t)

  Owns-same :
      {o o' : Option ℕ} {x x' : Thread S} → o ≡ o' → x ≡ x' → Owns o' x'.place → Owns o x.place
  Owns-same {o} {o'} {x} {x'} e f h =
      subst (λ o. Owns o x.place) (sym e) (subst (λ x. Owns o' x.place) (sym f) h)

  pub IsThread-same :
      {i i' : List ℕ} {r r' : Rline} {x x' : Thread S}
      → i' ≡ i
      → r ≡ r'
      → x ≡ x'
      → IsThread law i' r' x'
      → IsThread law i r x
  IsThread-same {i} {i'} {r} {r'} {x} {x'} d e f h =
      subst (λ x. IsThread law i r x) (sym f)
        (subst (λ r. IsThread law i r x') (sym e) (subst (λ i. IsThread law i r' x') d h))

  -- The thread `t`, whose value is `a` from now on, leaves `r` there.
  module _ (p q : Process S) (t a : ℕ) (r : Rline) (x : Thread S) (v : Keeps p)
      (key : (u : ℕ) → held q u ≡ update (held p) t (some a) u)
      (memory : (b : ℕ) → q.mem b ≡ update p.mem a r b)
      (others : (u : ℕ) → q.threads u ≡ update p.threads t x u)
      (fresh : (u : ℕ) → held p u ≡ some a → u ≡ t) (taken : a < q.next) (grown : p.next ≤ q.next)
      (own : Owns (some a) x.place) (ok : IsThread law (input t) r x) where
    same_key : (u : ℕ) → (u == t) ≡ false → held q u ≡ held p u
    same_key u h = key u ∙ update-miss (held p) t (some a) u h

    new_key : (u : ℕ) → (u == t) ≡ true → held q u ≡ some a
    new_key u h = key u ∙ update-hit (held p) t (some a) u h

    same_rline :
        (u : ℕ) (o : Option ℕ)
        → held p u ≡ o
        → (u == t) ≡ false
        → rline_at q.mem o ≡ rline_at p.mem o
    same_rline u none e h = refl
    same_rline u (some b) e h = by_address (b == a) refl
      where
        by_address : (c : Bool) → (b == a) ≡ c → q.mem b ≡ p.mem b
        by_address false d = memory b ∙ update-miss p.mem a r b d
        by_address true d = absurd (differs u t h (fresh u (e ∙ ap some ((==_iff b a).0 d))))

    moved-distinct : (u w b : ℕ) → held q u ≡ some b → held q w ≡ some b → u ≡ w
    moved-distinct u w b hu hw = by_threads (u == t) (w == t) refl refl
      where
        by_threads : (c d : Bool) → (u == t) ≡ c → (w == t) ≡ d → u ≡ w
        by_threads true true e f = (==_iff u t).0 e ∙ sym ((==_iff w t).0 f)
        by_threads true false e f =
            (==_iff u t).0 e ∙ sym (fresh w (sym (same_key w f) ∙ hw ∙ sym hu ∙ new_key u e))
        by_threads false true e f =
            fresh u (sym (same_key u e) ∙ hu ∙ sym hw ∙ new_key w f) ∙ sym ((==_iff w t).0 f)
        by_threads false false e f =
            v.distinct u w b (sym (same_key u e) ∙ hu) (sym (same_key w f) ∙ hw)

    moved-below : (u b : ℕ) → held q u ≡ some b → b < q.next
    moved-below u b h = by_thread (u == t) refl
      where
        by_thread : (c : Bool) → (u == t) ≡ c → b < q.next
        by_thread true e = subst (λ c. c < q.next) (some_inj (sym (new_key u e) ∙ h)) taken
        by_thread false e = omega (arith, v.below u b (sym (same_key u e) ∙ h))

    moved-Owns : (u : ℕ) → Owns (held q u) (q.threads u).place
    moved-Owns u = by_thread (u == t) refl
      where
        by_thread : (c : Bool) → (u == t) ≡ c → Owns (held q u) (q.threads u).place
        by_thread true e = Owns-same (new_key u e) (others u ∙ update-hit p.threads t x u e) own
        by_thread false e =
            Owns-same (same_key u e) (others u ∙ update-miss p.threads t x u e) (v.owns u)

    moved-each : (u : ℕ) → IsThread law (input u) (rline_at q.mem (held q u)) (q.threads u)
    moved-each u = by_thread (u == t) refl
      where
        by_thread :
            (c : Bool)
            → (u == t) ≡ c
            → IsThread law (input u) (rline_at q.mem (held q u)) (q.threads u)
        by_thread true e =
            IsThread-same (ap input (sym ((==_iff u t).0 e)))
              (ap (rline_at q.mem) (new_key u e)
                ∙ memory a
                ∙ update-hit p.mem a r a ((==_iff a a).1 refl))
              (others u ∙ update-hit p.threads t x u e) ok
        by_thread false e =
            IsThread-same refl (ap (rline_at q.mem) (same_key u e) ∙ same_rline u (held p u) refl e)
              (others u ∙ update-miss p.threads t x u e) (v.each u)

    pub moved : Keeps q
    moved = record {
      distinct = moved-distinct;
      below = moved-below;
      owns = moved-Owns;
      each = moved-each;
    }
