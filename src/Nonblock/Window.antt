-- ===== src/Nonblock/Window.antt =====
-- The bytes between the pointers of a buffer, when bytes are stored and when bytes are taken.
use unix_network_programming.Prelude.{
  ℕ, zero, suc, ◌+◌, ◌-◌, ◌≤◌, ◌≡◌, refl, ap, List, [], ◌∷◌, ◌++◌, arith, length, take, drop,
  length-append, length-take, length-drop, ◌∙◌, ◌==◌, take-append, append-nil, take-length,
  Bool-cases, inl, inr,
}
use unix_network_programming.Nonblock.{Pipe, window, store, advance}
use unix_network_programming.Stream.{maxline}

pub record IsPipe (p : Pipe) : Type 0 where
  pub sized : length p.buf ≡ maxline
  pub inside : p.iptr ≤ maxline
  pub ordered : p.optr ≤ p.iptr

module _ {ℓ} {A : Type ℓ} where
  take-store :
      (n m o e : ℕ) (buf xs rest : List A)
      → n ≡ e + length xs - o
      → m ≡ e - o
      → o ≤ e
      → e ≤ length buf
      → take n (drop o (take e buf ++ (xs ++ rest))) ≡ take m (drop o buf) ++ xs
  take-store n m zero zero buf xs rest p q h k =
      let n' : n ≡ length xs = omega arith in
      let m' : m ≡ 0 = omega arith in rw (n', m') (take-append xs rest)
  take-store n m (suc o) zero buf xs rest p q h k = absurd (omega arith)
  take-store n m o (suc e) [] xs rest p q h k = absurd (omega arith)
  take-store zero m zero (suc e) (x ∷ buf) xs rest p q h k = absurd (omega arith)
  take-store (suc n) zero zero (suc e) (x ∷ buf) xs rest p q h k = absurd (omega arith)
  take-store (suc n) (suc m) zero (suc e) (x ∷ buf) xs rest p q h k =
      ap (◌∷◌ x)
        (take-store n m zero e buf xs rest (omega arith) (omega arith) (omega arith) (omega arith))
  take-store n m (suc o) (suc e) (x ∷ buf) xs rest p q h k =
      take-store n m o e buf xs rest (omega arith) (omega arith) (omega arith) (omega arith)

  drop-window :
      (j m n o e : ℕ) (buf : List A)
      → m ≡ e - o
      → j ≡ e - (o + n)
      → o + n ≤ e
      → e ≤ length buf
      → take n (take m (drop o buf)) ++ take j (drop (o + n) buf) ≡ take m (drop o buf)
  drop-window j m zero o e buf p q h k =
      let j' : j ≡ m = omega arith in let o' : o + 0 ≡ o = omega arith in rw (j', o')
  drop-window j m (suc n) zero zero buf p q h k = absurd (omega arith)
  drop-window j m (suc n) zero (suc e) [] p q h k = absurd (omega arith)
  drop-window j zero (suc n) zero (suc e) (x ∷ buf) p q h k = absurd (omega arith)
  drop-window j (suc m) (suc n) zero (suc e) (x ∷ buf) p q h k =
      let n' : 0 + suc n ≡ suc (0 + n) = omega arith in
      rw n' (
        ap (◌∷◌ x)
          (drop-window j m n zero e buf (omega arith) (omega arith) (omega arith) (omega arith)))
  drop-window j m (suc n) (suc o) zero buf p q h k = absurd (omega arith)
  drop-window j m (suc n) (suc o) (suc e) [] p q h k = absurd (omega arith)
  drop-window j m (suc n) (suc o) (suc e) (x ∷ buf) p q h k =
      let o' : suc o + suc n ≡ suc (o + suc n) = omega arith in
      rw o'
        (drop-window j m (suc n) o e buf (omega arith) (omega arith) (omega arith) (omega arith))

pub window-store :
    (p : Pipe) (xs : List ℕ)
    → IsPipe p
    → length xs ≤ maxline - p.iptr
    → (window (store p xs) ≡ window p ++ xs) × IsPipe (store p xs)
window-store p xs v h = (
  take-store _ _ p.optr p.iptr p.buf xs (drop (p.iptr + length xs) p.buf) refl refl v.ordered
      (omega (arith, v.sized, v.inside)),
  record {
    sized = omega (
      arith,
      v.sized,
      v.inside,
      length-append (take p.iptr p.buf) (xs ++ drop (p.iptr + length xs) p.buf),
      length-append xs (drop (p.iptr + length xs) p.buf),
      length-take p.iptr p.buf,
      length-drop (p.iptr + length xs) p.buf,
    );
    inside = omega arith;
    ordered = omega (arith, v.ordered);
  },
)

pub length-window : (p : Pipe) → IsPipe p → length (window p) ≡ p.iptr - p.optr
length-window p v = omega (
  arith,
  v.sized,
  v.inside,
  v.ordered,
  length-take (p.iptr - p.optr) (drop p.optr p.buf),
  length-drop p.optr p.buf,
)

window-moved :
    (p : Pipe) (n : ℕ)
    → IsPipe p
    → n ≤ length (window p)
    → take n (window p) ++ take (p.iptr - (p.optr + n)) (drop (p.optr + n) p.buf) ≡ window p
window-moved p n v h =
    drop-window _ _ n p.optr p.iptr p.buf refl refl (omega (arith, length-window p v, v.ordered))
      (omega (arith, v.sized, v.inside))

pub window-advance :
    (p : Pipe) (n : ℕ)
    → IsPipe p
    → n ≤ length (window p)
    → (take n (window p) ++ window (advance p n) ≡ window p) × IsPipe (advance p n)
window-advance p n v h = elim (Bool-cases (p.optr + n == p.iptr)) [
  | inl e ↦ rw e (
    append-nil _ ∙ take-length n (window p) (ground (arith, length-window p v)),
    record { sized = v.sized; inside = omega arith; ordered = omega arith },
  )
  | inr e ↦ rw e (
    window-moved p n v h,
    record {
      sized = v.sized;
      inside = v.inside;
      ordered = omega (arith, length-window p v, v.ordered);
    },
  )
]
