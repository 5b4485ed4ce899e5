-- ===== src/Prelude/Cyclic.antt =====
-- Arrays that are filled and emptied in a circle, by indices that go back to 0 at the end: the queue
-- of datagrams of sigio/dgecho01.c and the queue of connections of server/serv08.c.
use unix_network_programming.Prelude.{
  ℕ, suc, ◌+◌, ◌-◌, ◌≤◌, ◌<◌, ◌≡◌, ◌≢◌, some, List, [], ◌∷◌, ◌++◌, arith, ltb, leb, if◌then◌else◌,
  length, get_elem?, set, get_elem?-set_self, get_elem?-set_ne, subst, sym, ap, ◌∙◌,
}

-- The index `k` places after `h`, for `h < size` and `k ≤ size`.
abbrev pub place : ℕ → ℕ → ℕ → ℕ
place size h k = if ltb (h + k) size then h + k else h + k - size

-- `if (++i >= size) i = 0`
abbrev pub next : ℕ → ℕ → ℕ
next size i = if leb size (i + 1) then 0 else i + 1

place-ne : (size h j k : ℕ) → h < size → j < k → k < size → place size h k ≢ place size h j
place-ne size h j k p q r = ground arith

place-lt : (size h k : ℕ) → h < size → k < size → place size h k < size
place-lt size h k p q = ground arith

place-next :
    (size h k : ℕ) → h < size → suc k < size → place size (next size h) k ≡ place size h (suc k)
place-next size h k p q = ground arith

place_end : (size h k n i : ℕ) → i ≡ place size h (k + suc n) → i ≡ place size h (suc k + n)
place_end size h k n i e = ground arith

place_here : (size h k i : ℕ) → i ≡ place size h (k + 0) → i ≡ place size h k
place_here size h k i e = ground arith

module _ {ℓ} {A : Type ℓ} where
  -- The array holds `q` from `k` places after `h` on.
  abbrev pub Holds : ℕ → List A → ℕ → ℕ → List A → Type ℓ
  Holds size buf h k [] = Unit
  Holds size buf h k (x ∷ q) =
      (get_elem? buf (place size h k) ≡ some x) × Holds size buf h (suc k) q

  Holds-append :
      (size : ℕ) (buf : List A) (h k : ℕ) (q ys : List A)
      → Holds size buf h k (q ++ ys)
      → Holds size buf h k q
  Holds-append size buf h k [] ys w = tt
  Holds-append size buf h k (x ∷ q) ys w = (w.0, Holds-append size buf h (suc k) q ys w.1)

  -- Storing past the end of the queue leaves it, with the new element behind it.
  pub Holds-set :
      (size : ℕ) (buf : List A) (h k i : ℕ) (q : List A) (x : A)
      → h < size
      → k + length q < size
      → size ≤ length buf
      → i ≡ place size h (k + length q)
      → Holds size buf h k q
      → Holds size (set buf i x) h k (q ++ x ∷ [])
  Holds-set size buf h k i [] x p r s e w =
      let here = place_here size h k i e in
      (
        subst (λ j. get_elem? (set buf i x) j ≡ some x) here
            (get_elem?-set_self buf i x (omega (arith, here, place-lt size h k p (omega arith)))),
        tt,
      )
  Holds-set size buf h k i (y ∷ q) x p r s e w = (
    get_elem?-set_ne buf x
          (λ j. place-ne size h k (k + suc (length q)) p (omega arith) r (sym e ∙ j))
        ∙ w.0,
    Holds-set size buf h (suc k) i q x p (omega arith) s (place_end size h k (length q) i e) w.1,
  )

  -- Without its first element the queue begins at the next index.
  pub Holds-next :
      (size : ℕ) (buf : List A) (h k : ℕ) (q : List A)
      → h < size
      → k + length q < size
      → Holds size buf h (suc k) q
      → Holds size buf (next size h) k q
  Holds-next size buf h k [] p r w = tt
  Holds-next size buf h k (x ∷ q) p r w = (
    subst (λ j. get_elem? buf j ≡ some x) (sym (place-next size h k p (omega arith))) w.0,
    Holds-next size buf h (suc k) q p (omega arith) w.1,
  )

  -- Storing past the end of the queue, without the new element
  pub Holds-set_past :
      (size : ℕ) (buf : List A) (h i : ℕ) (q : List A) (x : A)
      → h < size
      → length q < size
      → size ≤ length buf
      → i ≡ place size h (length q)
      → Holds size buf h 0 q
      → Holds size (set buf i x) h 0 q
  Holds-set_past size buf h i q x p r s e w = Holds-append size (set buf i x) h 0 q (x ∷ []) (
      Holds-set size buf h 0 i q x p (omega arith) s
        (e ∙ ap (place size h) {x = length q} {y = 0 + length q} (omega arith)) w)
