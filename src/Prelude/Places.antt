-- ===== src/Prelude/Places.antt =====
-- What stands at a place of a list that is put together from parts.
use unix_network_programming.Prelude.{
  ℕ, zero, suc, ◌+◌, ◌<◌, ◌≡◌, refl, ap, ◌∙◌, some, List, [], ◌∷◌, ◌++◌, arith, length, get_elem?,
  drop,
}
use unix_network_programming.Prelude.FdSet.{get_elem?-lt}

pub get_elem?-append : (d x : List ℕ) (i : ℕ) → i < length d → get_elem? (d ++ x) i ≡ get_elem? d i
get_elem?-append [] x i h = absurd (omega arith)
get_elem?-append (y ∷ d) x zero h = refl
get_elem?-append (y ∷ d) x (suc i) h = get_elem?-append d x i (omega arith)

pub get_elem?-skip :
    (xs ys : List ℕ) (k : ℕ) → get_elem? (xs ++ ys) (length xs + k) ≡ get_elem? ys k
get_elem?-skip [] ys k = ap (get_elem? ys) {x = 0 + k} {y = k} (omega arith)
get_elem?-skip (x ∷ xs) ys k =
    ap (get_elem? (x ∷ xs ++ ys)) {x = suc (length xs) + k} {y = suc (length xs + k)} (omega arith)
    ∙ get_elem?-skip xs ys k

pub get_elem?-at :
    (xs ys : List ℕ) (i k b : ℕ)
    → i ≡ length xs + k
    → get_elem? ys k ≡ some b
    → get_elem? (xs ++ ys) i ≡ some b
get_elem?-at xs ys i k b e h = ap (get_elem? (xs ++ ys)) e ∙ get_elem?-skip xs ys k ∙ h

pub get_elem?-at2 :
    (xs ys zs : List ℕ) (i k b : ℕ)
    → i ≡ length xs + (length ys + k)
    → get_elem? zs k ≡ some b
    → get_elem? (xs ++ (ys ++ zs)) i ≡ some b
get_elem?-at2 xs ys zs i k b e h =
    get_elem?-at xs (ys ++ zs) i (length ys + k) b e (get_elem?-at ys zs (length ys + k) k b refl h)

pub get_elem?-front :
    (d x : List ℕ) (i b : ℕ) → get_elem? d i ≡ some b → get_elem? (d ++ x) i ≡ some b
get_elem?-front d x i b h = get_elem?-append d x i (get_elem?-lt d i b h) ∙ h

pub drop-skip : (xs ys : List ℕ) (k : ℕ) → drop (length xs + k) (xs ++ ys) ≡ drop k ys
drop-skip [] ys k = ap (λ n. drop n ys) {x = 0 + k} {y = k} (omega arith)
drop-skip (x ∷ xs) ys k =
    ap (λ n. drop n (x ∷ xs ++ ys)) {x = suc (length xs) + k} {y = suc (length xs + k)}
      (omega arith)
    ∙ drop-skip xs ys k
