-- ===== src/Trace/Icmpcode.antt =====
-- traceroute/icmpcode_v4.c and icmpcode_v6.c: the names of the codes.
use unix_network_programming.Prelude.{ℕ, none, some, List, [], ◌∷◌, ◌++◌, get_elem?}
use unix_network_programming.Prelude.Codes.{codes}
use unix_network_programming.Gai.Names.{decimal}

abbrev pub names_v4 : List (List ℕ)
names_v4 =
    codes "network unreachable"
    ∷ codes "host unreachable"
    ∷ codes "protocol unreachable"
    ∷ codes "port unreachable"
    ∷ codes "fragmentation required but DF bit set"
    ∷ codes "source route failed"
    ∷ codes "destination network unknown"
    ∷ codes "destination host unknown"
    ∷ codes "source host isolated (obsolete)"
    ∷ codes "destination network administratively prohibited"
    ∷ codes "destination host administratively prohibited"
    ∷ codes "network unreachable for TOS"
    ∷ codes "host unreachable for TOS"
    ∷ codes "communication administratively prohibited by filtering"
    ∷ codes "host recedence violation"
    ∷ codes "precedence cutoff in effect"
    ∷ []

abbrev pub names_v6 : List (List ℕ)
names_v6 =
    codes "no route to host"
    ∷ codes "administratively prohibited"
    ∷ codes "not a neighbor"
    ∷ codes "address unreachable"
    ∷ codes "port unreachable"
    ∷ []

-- "[unknown code %d]", with a code of one byte
unfoldable pub unknown_code : ℕ → List ℕ
unknown_code code = codes "[unknown code " ++ (decimal 3 code ++ codes "]")

unfoldable pub icmpcode_v4 : ℕ → List ℕ
icmpcode_v4 code = elim (get_elem? names_v4 code) [ none ↦ unknown_code code | some t ↦ t ]

unfoldable pub icmpcode_v6 : ℕ → List ℕ
icmpcode_v6 code = elim (get_elem? names_v6 code) [ none ↦ unknown_code code | some t ↦ t ]
