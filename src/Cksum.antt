-- ===== src/Cksum.antt =====
-- libfree/in_cksum.c: the Internet checksum. The memory at `addr` is a list of bytes, read as 16-bit
-- words in the host's order.
pub mod Folding
pub mod Verify
mod Tests
use unix_network_programming.Prelude.{ℕ, ◌+◌, ◌-◌, ◌*◌, ◌/◌, ◌%◌, ◌^◌, List, [], ◌∷◌}

pub data Endian : Type 0 where
  little big : Endian

-- The `uint16_t` whose first byte in memory is `a` and whose second is `b`.
abbrev pub word : Endian → ℕ → ℕ → ℕ
word little a b = a + 256 * b
word big a b = 256 * a + b

-- `sum += *w++` for the words, and for an odd byte at the end, which is stored as the first byte of
-- `answer`; `sum` is a `uint32_t`.
pub sum_words : Endian → ℕ → List ℕ → ℕ
sum_words o sum (a ∷ b ∷ bytes) = sum_words o ((sum + word o a b) % 2 ^ 32) bytes
sum_words o sum (a ∷ []) = (sum + word o a 0) % 2 ^ 32
sum_words o sum [] = sum

-- The carries out of the low 16 bits are added back, twice.
pub fold : ℕ → ℕ
fold sum = let once = (sum / 2 ^ 16 + sum % 2 ^ 16) % 2 ^ 32 in (once + once / 2 ^ 16) % 2 ^ 32

-- `answer = ~sum`, as a `uint16_t`
pub in_cksum : Endian → List ℕ → ℕ
in_cksum o bytes = 2 ^ 16 - 1 - fold (sum_words o 0 bytes) % 2 ^ 16
