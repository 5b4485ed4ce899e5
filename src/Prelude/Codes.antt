-- ===== src/Prelude/Codes.antt =====
-- Texts as lists of bytes.
use Prim.Native.Char.{code}
use Prim.Native.String.{String}
use unix_network_programming.Prelude.{ℕ, List, [], ◌∷◌}

-- The bytes of an ASCII text, without a NUL.
abbrev pub codes : String → List ℕ
codes String.[] = []
codes (String.◌∷◌ c s) = code c ∷ codes s
