-- ===== src/Prelude/FdSet.antt =====
-- `fd_set` with FD_SET(), FD_CLR() and FD_ISSET(), and tables of descriptors in which -1 marks an entry
-- that is available.
use unix_network_programming.Prelude.{
  ℕ, zero, suc, ◌<◌, ◌≡◌, ◌≢◌, refl, sym, ◌∙◌, ◌⊎◌, inl, inr, Bool, true, false, Option, none, some,
  some_inj, List, [], ◌∷◌, arith, ◌==◌, if◌then◌else◌, length, get_elem?, set, get_elem?-set_self,
  get_elem?-set_ne, Bool-cases, subst,
}

abbrev pub FdSet : Type 0
FdSet = ℕ → Bool

abbrev pub fd_set : ℕ → FdSet → FdSet
fd_set c s fd = if fd == c then true else s fd

abbrev pub fd_clr : ℕ → FdSet → FdSet
fd_clr c s fd = if fd == c then false else s fd

-- An entry of a table: `none` is -1.
abbrev pub Entry : Type 0
Entry = Option ℕ

-- The loop that looks for the first available entry.
unfoldable pub first_free : List Entry → Option ℕ
first_free [] = none
first_free (none ∷ cs) = some 0
first_free (some fd ∷ cs) = elim (first_free cs) [ none ↦ none | some i ↦ some (suc i) ]

-- Entry `i` holds the descriptor `fd`.
abbrev pub At : List Entry → ℕ → ℕ → Type 0
At cs i fd = get_elem? cs i ≡ some (some fd)

after_entry :
    (fd : ℕ) (cs : List Entry) (o : Option ℕ) (i : ℕ)
    → ((j : ℕ) → o ≡ some j → get_elem? cs j ≡ some none)
    → elim o [ none ↦ none | some j ↦ some (suc j) ] ≡ some i
    → get_elem? (some fd ∷ cs) i ≡ some none
after_entry fd cs none i ih h = cc
after_entry fd cs (some j) i ih h =
    subst (λ k. get_elem? (some fd ∷ cs) k ≡ some none) (some_inj h) (ih j refl)

pub first_free-free :
    (cs : List Entry) (i : ℕ) → first_free cs ≡ some i → get_elem? cs i ≡ some none
unfolding first_free
first_free-free [] i h = cc
first_free-free (none ∷ cs) zero h = refl
first_free-free (none ∷ cs) (suc i) h = absurd (omega (arith, some_inj h))
first_free-free (some fd ∷ cs) i h = after_entry fd cs (first_free cs) i (first_free-free cs) h

-- Without an available entry every entry holds a descriptor.
pub first_free-full :
    (cs : List Entry) (i : ℕ) → first_free cs ≡ none → i < length cs → (fd : ℕ) × At cs i fd
unfolding first_free
first_free-full [] i h p = absurd (omega arith)
first_free-full (none ∷ cs) i h p = cc
first_free-full (some fd ∷ cs) zero h p = (fd, refl)
first_free-full (some fd ∷ cs) (suc i) h p = first_free-full cs i (ground arith) (omega arith)

pub get_elem?-lt {ℓ} :
    {A : Type ℓ} (xs : List A) (i : ℕ) (x : A) → get_elem? xs i ≡ some x → i < length xs
get_elem?-lt [] i x h = cc
get_elem?-lt (y ∷ xs) zero x h = omega arith
get_elem?-lt (y ∷ xs) (suc i) x h = omega (arith, get_elem?-lt xs i x h)

-- What an entry holds after a store into the table.
pub At-set :
    (cs : List Entry) (i j fd : ℕ) (v : Entry)
    → i < length cs
    → At (set cs i v) j fd
    → ((j ≡ i) × (v ≡ some fd)) ⊎ ((j ≢ i) × At cs j fd)
At-set cs i j fd v p h = elim (Bool-cases (i == j)) [
  | inl e ↦
      let e' : i ≡ j = ground arith in
      inl (
        sym e',
        some_inj (sym (get_elem?-set_self cs i v p) ∙ subst (λ k. At (set cs i v) k fd) (sym e') h),
      )
  | inr e ↦
      let ne : i ≢ j = ground arith in inr ((λ q. ne (sym q)), sym (get_elem?-set_ne cs v ne) ∙ h)
]

pub At-set_ne :
    (cs : List Entry) (i j fd : ℕ) (v : Entry) → i ≢ j → At cs j fd → At (set cs i v) j fd
At-set_ne cs i j fd v ne h = get_elem?-set_ne cs v ne ∙ h
