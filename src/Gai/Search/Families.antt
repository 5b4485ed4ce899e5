-- ===== src/Gai/Search/Families.antt =====
-- ga_nsearch() finds a search for each family that ga_echeck() lets through, but AF_LOCAL.
use unix_network_programming.Prelude.{
  ◌≡◌, refl, ◌∙◌, Bool, true, false, ◌&&◌, Option, none, some, List, [], ◌∷◌, if◌then◌else◌,
}
use unix_network_programming.Prelude.Codes.{codes}
use unix_network_programming.Gai.{
  Text, Family, unspec, inet, inet6, local, badflags, noname, socktype, family, Hints,
}
use unix_network_programming.Gai.Search.{
  is_missing, allows, is_known, ga_echeck, searches, search_list, ga_nsearch,
}

abbrev pub is_none {ℓ} : {A : Type ℓ} → Option A → Bool
is_none none = true
is_none (some x) = false

abbrev pub is_local : Family → Bool
is_local local = true
is_local unspec = false
is_local inet = false
is_local inet6 = false
is_local Family.unknown = false

abbrev is_empty {ℓ} : {A : Type ℓ} → List A → Bool
is_empty [] = true
is_empty (x ∷ xs) = false

ga_echeck-is_known :
    (hostname servname : Option Text) (h : Hints)
    → ga_echeck hostname servname h ≡ none
    → is_known h.family ≡ true
unfolding ga_echeck
ga_echeck-is_known hostname servname h e =
    by_tests h.other_flags (is_missing hostname && is_missing servname) (is_known h.family) e
  where
    by_tests :
        (a b c : Bool)
        → (if a
            then some badflags
            else if b
            then some noname
            else if c
            then (if allows h.family h.socktype then none else some socktype)
            else some family)
          ≡ none
        → c ≡ true
    by_tests true b c e = cc
    by_tests false true c e = cc
    by_tests false false true e = refl
    by_tests false false false e = cc

is_empty-searches :
    (f : Family) (v4 v6 : Text) → is_known f ≡ true → is_empty (searches f v4 v6) ≡ is_local f
is_empty-searches unspec v4 v6 k = refl
is_empty-searches inet v4 v6 k = refl
is_empty-searches inet6 v4 v6 k = refl
is_empty-searches local v4 v6 k = refl
is_empty-searches Family.unknown v4 v6 k = cc

-- No hostname: the searches for the wildcard or the local host
is_empty_default :
    (b : Bool) (f : Family)
    → is_known f ≡ true
    → is_empty (
        if b
        then searches f (codes "0.0.0.0") (codes "0::0")
        else searches f (codes "localhost") (codes "0::1"))
      ≡ is_local f
is_empty_default true f k = is_empty-searches f (codes "0.0.0.0") (codes "0::0") k
is_empty_default false f k = is_empty-searches f (codes "localhost") (codes "0::1") k

is_empty-search_list :
    (hostname : Option Text) (h : Hints)
    → is_known h.family ≡ true
    → is_empty (search_list hostname h) ≡ is_local h.family
unfolding search_list
is_empty-search_list none h k = is_empty_default h.passive h.family k
is_empty-search_list (some []) h k = is_empty_default h.passive h.family k
is_empty-search_list (some (c ∷ cs)) h k = is_empty-searches h.family (c ∷ cs) (c ∷ cs) k

pub is_none-ga_nsearch :
    (hostname servname : Option Text) (h : Hints)
    → ga_echeck hostname servname h ≡ none
    → is_none (ga_nsearch hostname h) ≡ is_local h.family
unfolding ga_nsearch
is_none-ga_nsearch hostname servname h e =
    by_list (search_list hostname h)
    ∙ is_empty-search_list hostname h (ga_echeck-is_known hostname servname h e)
  where
    by_list :
        (ss : List (Text × Family))
        → is_none
            (elim ss as (λ _. Option (List (Text × Family))) [ [] ↦ none | s ∷ ss ↦ some (s ∷ ss) ])
          ≡ is_empty ss
    by_list [] = refl
    by_list (x ∷ ss) = refl
