-- ===== src/Gai/Search.antt =====
-- libgai/ga_echeck.c and ga_nsearch.c: the checks of the hints, and the names and families to look up.
pub mod Families
use unix_network_programming.Prelude.{
  ℕ, Bool, true, false, ◌&&◌, ◌||◌, Option, none, some, List, [], ◌∷◌, if◌then◌else◌,
}
use unix_network_programming.Prelude.Codes.{codes}
use unix_network_programming.Gai.{
  Text, Family, unspec, inet, inet6, local, unknown, Socktype, any, stream, dgram, raw, Eai,
  badflags, noname, socktype, family, Hints, is_any,
}
use unix_network_programming.Gai

-- `s == NULL || s[0] == '\0'`
abbrev pub is_missing : Option Text → Bool
is_missing none = true
is_missing (some []) = true
is_missing (some (c ∷ cs)) = false

-- The socket types that a family allows
abbrev pub allows : Family → Socktype → Bool
allows unspec t = true
allows Family.unknown t = true
allows inet Socktype.unknown = false
allows inet6 Socktype.unknown = false
allows local Socktype.unknown = false
allows local raw = false
allows _ _ = true

abbrev pub is_known : Family → Bool
is_known Family.unknown = false
is_known unspec = true
is_known inet = true
is_known inet6 = true
is_known local = true

unfoldable pub ga_echeck : Option Text → Option Text → Hints → Option Eai
ga_echeck hostname servname h =
    if h.other_flags
    then some badflags
    else if is_missing hostname && is_missing servname
    then some noname
    else if is_known h.family
    then (if allows h.family h.socktype then none else some socktype)
    else some family

-- The searches for a family: IPv6 first.
abbrev pub searches : Family → Text → Text → List (Text × Family)
searches inet v4 v6 = (v4, inet) ∷ []
searches inet6 v4 v6 = (v6, inet6) ∷ []
searches unspec v4 v6 = (v6, inet6) ∷ (v4, inet) ∷ []
searches local v4 v6 = []
searches Family.unknown v4 v6 = []

-- What ga_nsearch() stores into search[], before its last test.
unfoldable pub search_list : Option Text → Hints → List (Text × Family)
search_list hostname h =
    if is_missing hostname
    then (if h.passive
        then searches h.family (codes "0.0.0.0") (codes "0::0")
        else searches h.family (codes "localhost") (codes "0::1"))
    else elim hostname [ none ↦ [] | some host ↦ searches h.family host host ]

-- ga_nsearch(): `none` is err_quit().
unfoldable pub ga_nsearch : Option Text → Hints → Option (List (Text × Family))
ga_nsearch hostname h = elim (search_list hostname h) [ [] ↦ none | s ∷ ss ↦ some (s ∷ ss) ]
