-- ===== src/Cksum/Tests.antt =====
-- Checksums of short messages, and the theorems at them.
use unix_network_programming.Prelude.{ℕ, ◌-◌, ◌≡◌, refl, List, [], ◌∷◌, arith}
use unix_network_programming.Cksum.{little, big, in_cksum, sum_words, fold}
use unix_network_programming.Cksum.Folding.{ones_sum, in_cksum-ones_sum}
use unix_network_programming.Cksum.Verify.{in_cksum_verifies}

-- An ICMP echo request with no data: type 8, code 0, no checksum yet, identifier 0x1234, number 1
abbrev request : List ℕ
request = 8 ∷ 0 ∷ 0 ∷ 0 ∷ 0x12 ∷ 0x34 ∷ 0 ∷ 1 ∷ []

request_big : in_cksum big request ≡ 0xe5ca
unfolding in_cksum sum_words fold
request_big = refl

request_little : in_cksum little request ≡ 0xcae5
unfolding in_cksum sum_words fold
request_little = refl

in_cksum-ones_sum_example :
    in_cksum big (0xff ∷ 0xff ∷ 0xff ∷ []) ≡ 65535 - ones_sum big 0 (0xff ∷ 0xff ∷ 0xff ∷ [])
in_cksum-ones_sum_example =
    in_cksum-ones_sum big (0xff ∷ 0xff ∷ 0xff ∷ []) (omega arith) (omega arith)

in_cksum_verifies_example : in_cksum big (8 ∷ 0 ∷ 0xe5 ∷ 0xca ∷ 0x12 ∷ 0x34 ∷ 0 ∷ 1 ∷ []) ≡ 0
unfolding in_cksum sum_words fold
in_cksum_verifies_example =
    in_cksum_verifies big (8 ∷ 0 ∷ []) (0x12 ∷ 0x34 ∷ 0 ∷ 1 ∷ []) tt (omega arith) (omega arith)
      (omega arith) 0xe5 0xca (omega arith) (omega arith) refl
