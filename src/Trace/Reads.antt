-- ===== src/Trace/Reads.antt =====
-- recv_v4() and recv_v6() look at the bytes that have arrived, and at no others.
use unix_network_programming.Prelude.{
  ℕ, ◌+◌, ◌-◌, ◌*◌, ◌%◌, ◌≤◌, ◌<◌, ◌≡◌, refl, sym, ◌∙◌, Bool, true, false, ◌&&◌, some, List, ◌++◌,
  arith, ltb, ltb-false, ◌==◌, if◌then◌else◌, length, get_elem?, drop-suc,
}
use unix_network_programming.Prelude.Places.{get_elem?-append}
use unix_network_programming.Trace.{
  Reply, Verdict, answer, again, unset, outside, byte, port_at, probe_port, unreach, time_exceeded,
  is_ours, inner_v4, inner_v6, verdict_v4, verdict_v6,
}

pub byte-hit :
    (buf : List ℕ) (i b : ℕ) (f : ℕ → Verdict) → get_elem? buf i ≡ some b → byte buf i f ≡ f b
byte-hit buf i b f h = rw (h, byte)

-- The same verdict, and not the bad one
abbrev pub Agree : Verdict → Verdict → Verdict → Type 0
Agree bad p q = (p ≡ q) × (q ≡ bad → ⊥)

if_Agree :
    (bad : Verdict) (b : Bool) (p q p' q' : Verdict)
    → (b ≡ true → Agree bad p p')
    → (b ≡ false → Agree bad q q')
    → Agree bad (if b then p else q) (if b then p' else q')
if_Agree bad true p q p' q' h k = h refl
if_Agree bad false p q p' q' h k = k refl

module _ (bad : Verdict) (never_again : again ≡ bad → ⊥)
    (never_answer : (r : Reply) → answer r ≡ bad → ⊥) (d x : List ℕ) where
  byte-Agree :
      (i : ℕ) (f g : ℕ → Verdict)
      → i < length d
      → ((b : ℕ) → Agree bad (f b) (g b))
      → Agree bad (byte (d ++ x) i f) (byte d i g)
  byte-Agree i f g h k =
      let (b, hit, rest) = drop-suc i d h in
      let p = byte-hit (d ++ x) i b f (get_elem?-append d x i h ∙ hit) in
      let q = byte-hit d i b g hit in (p ∙ (k b).0 ∙ sym q, λ z. (k b).1 (sym q ∙ z))

  port_at-Agree :
      (i : ℕ) (f g : ℕ → Verdict)
      → i + 1 < length d
      → ((b : ℕ) → Agree bad (f b) (g b))
      → Agree bad (port_at (d ++ x) i f) (port_at d i g)
  port_at-Agree i f g h k =
      byte-Agree i _ _ (omega arith) λ b0. byte-Agree (i + 1) _ _ h λ b1. k (b0 * 256 + b1)

  module _ (sport dport seq : ℕ) where
    is_ours-Agree :
        (proto at : ℕ) (f : Bool → Verdict)
        → at + 4 ≤ length d
        → ((b : Bool) → f b ≡ bad → ⊥)
        → Agree bad
            (is_ours sport dport seq (d ++ x) proto at f)
            (is_ours sport dport seq d proto at f)
    unfolding is_ours
    is_ours-Agree proto at f h k =
        if_Agree bad (proto == 17) _ _ _ _
          (λ _. port_at-Agree at _ _ (omega arith) λ s.
            if_Agree bad (s == sport) _ _ _ _
              (λ _.
                port_at-Agree (at + 2) _ _ (omega arith) λ p. (refl, k (p == probe_port dport seq)))
              (λ _. (refl, k false)))
          (λ _. (refl, k false))

    inner_v4-Agree :
        (hlen1 : ℕ) (f : Bool → Verdict)
        → hlen1 + 8 ≤ length d
        → ((b : Bool) → f b ≡ bad → ⊥)
        → Agree bad
            (inner_v4 sport dport seq (d ++ x) (length d - hlen1) hlen1 f)
            (inner_v4 sport dport seq d (length d - hlen1) hlen1 f)
    unfolding inner_v4
    inner_v4-Agree hlen1 f h k =
        if_Agree bad (ltb (length d - hlen1) 28) _ _ _ _ (λ _. (refl, never_again))
          λ e. byte-Agree (hlen1 + 8) _ _ (omega (arith, ltb-false)) λ vhl.
            if_Agree bad (ltb (length d - hlen1) (8 + vhl % 16 * 4 + 4)) _ _ _ _
              (λ _. (refl, never_again))
              λ e'. byte-Agree (hlen1 + 8 + 9) _ _ (omega (arith, ltb-false)) λ proto.
                is_ours-Agree proto (hlen1 + 8 + vhl % 16 * 4) f (omega (arith, ltb-false)) k

    inner_v6-Agree :
        (f : Bool → Verdict)
        → ((b : Bool) → f b ≡ bad → ⊥)
        → Agree bad
            (inner_v6 sport dport seq (d ++ x) (length d) f)
            (inner_v6 sport dport seq d (length d) f)
    unfolding inner_v6
    inner_v6-Agree f k =
        if_Agree bad (ltb (length d) 52) _ _ _ _ (λ _. (refl, never_again))
          λ e.
            byte-Agree 14 _ _ (omega (arith, ltb-false))
              λ nxt. is_ours-Agree nxt 48 f (omega (arith, ltb-false)) k

    -- The continuations of the two tests
    answers : (r : Reply) (b : Bool) → (if b then answer r else again) ≡ bad → ⊥
    answers r true e = never_answer r e
    answers r false e = never_again e

    unsets : (unset ≡ bad → ⊥) → (r : Reply) (b : Bool) → (if b then answer r else unset) ≡ bad → ⊥
    unsets u r true e = never_answer r e
    unsets u r false e = u e

    pub verdict_v4-Agree :
        0 < length d
        → Agree bad
            (verdict_v4 sport dport seq (d ++ x) (length d))
            (verdict_v4 sport dport seq d (length d))
    unfolding verdict_v4
    verdict_v4-Agree h = byte-Agree 0 _ _ h λ vhl.
        let hlen1 = vhl % 16 * 4 in
        if_Agree bad (ltb (length d) (hlen1 + 8)) _ _ _ _ (λ _. (refl, never_again))
          λ e. byte-Agree hlen1 _ _ (omega (arith, ltb-false)) λ type.
            byte-Agree (hlen1 + 1) _ _ (omega (arith, ltb-false)) λ code.
              if_Agree bad (type == 11 && code == 0) _ _ _ _
                (λ _. inner_v4-Agree hlen1 _ (omega (arith, ltb-false)) (answers time_exceeded))
                λ _.
                  if_Agree bad (type == 3) _ _ _ _
                    (λ _.
                      inner_v4-Agree hlen1 _ (omega (arith, ltb-false)) (answers (unreach 3 code)))
                    λ _. (refl, never_again)

    verdict_v6-Agree :
        (unset ≡ bad → ⊥)
        → Agree bad
            (verdict_v6 sport dport seq (d ++ x) (length d))
            (verdict_v6 sport dport seq d (length d))
    unfolding verdict_v6
    verdict_v6-Agree u =
        if_Agree bad (ltb (length d) 8) _ _ _ _ (λ _. (refl, never_again))
          λ e. byte-Agree 0 _ _ (omega (arith, ltb-false)) λ type.
            byte-Agree 1 _ _ (omega (arith, ltb-false)) λ code.
              if_Agree bad (type == 3 && code == 0) _ _ _ _
                (λ _. inner_v6-Agree _ (unsets u time_exceeded))
                λ _.
                  if_Agree bad (type == 1) _ _ _ _
                    (λ _. inner_v6-Agree _ (answers (unreach 4 code))) λ _. (refl, never_again)

-- A message `d` of at least one byte has arrived and stands in front of what else is in recvbuf[]. What
-- recv_v4() and recv_v6() make of it does not depend on the other bytes, and is found without an
-- access behind the message, whatever lengths its headers claim.
pub verdicts-Agree :
    (d x : List ℕ) (sport dport seq : ℕ)
    → 0 < length d
    → Agree outside
        (verdict_v4 sport dport seq (d ++ x) (length d))
        (verdict_v4 sport dport seq d (length d))
      × Agree outside
          (verdict_v6 sport dport seq (d ++ x) (length d))
          (verdict_v6 sport dport seq d (length d))
verdicts-Agree d x sport dport seq h = (
  verdict_v4-Agree outside (λ e. cc) (λ r e. cc) d x sport dport seq h,
  verdict_v6-Agree outside (λ e. cc) (λ r e. cc) d x sport dport seq (λ e. cc),
)
