-- ===== src/Ping/Tests.antt =====
-- An echo request and its reply, and the theorem at them.
use unix_network_programming.Prelude.{
  ℕ, ◌%◌, ◌≡◌, refl, true, false, some, List, [], ◌∷◌, ◌++◌, arith, replicate,
}
use unix_network_programming.Prelude.Int.{pos, pos_part, ◌-ℤ◌, ◌+ℤ◌}
use unix_network_programming.Cksum.{little, in_cksum}
use unix_network_programming.TimeVal.{TimeVal, tv_sub}
use unix_network_programming.Ping.{Layout, send_v4, reply, silent, proc_v4, hop_limit}
use unix_network_programming.Ping.Echo.{Stores, send_v4-proc_v4, echoed}

-- The low bytes of the two numbers, in eight bytes each
abbrev bytes_of : TimeVal → List ℕ
bytes_of t =
    pos_part t.tv_sec % 256
    ∷ 0
    ∷ 0
    ∷ 0
    ∷ 0
    ∷ 0
    ∷ 0
    ∷ 0
    ∷ pos_part t.tv_usec % 256
    ∷ 0
    ∷ 0
    ∷ 0
    ∷ 0
    ∷ 0
    ∷ 0
    ∷ 0
    ∷ []

abbrev time_of : List ℕ → TimeVal
time_of (s ∷ _ ∷ _ ∷ _ ∷ _ ∷ _ ∷ _ ∷ _ ∷ u ∷ bytes) = record { tv_sec = pos s; tv_usec = pos u }
time_of _ = record { tv_sec = pos 0; tv_usec = pos 0 }

abbrev layout : Layout
layout = record { endian = little; tv_size = 16; encode_tv = bytes_of; decode_tv = time_of }

abbrev sent : TimeVal
sent = record { tv_sec = pos 7; tv_usec = pos 200 }

abbrev arrived : TimeVal
arrived = record { tv_sec = pos 8; tv_usec = pos 100 }

abbrev header : List ℕ
header = 0x45 ∷ 0 ∷ 0 ∷ 84 ∷ 0 ∷ 0 ∷ 0 ∷ 0 ∷ 64 ∷ 1 ∷ 0 ∷ 0 ∷ 10 ∷ 0 ∷ 0 ∷ 1 ∷ 10 ∷ 0 ∷ 0 ∷ 2 ∷ []

difference : tv_sub arrived sent ≡ record { tv_sec = pos 0; tv_usec = pos 999900 }
unfolding tv_sub ◌-ℤ◌ ◌+ℤ◌
difference = refl

sent-Stores : Stores layout sent
sent-Stores = (refl, refl, ground arith)

send_v4-proc_v4_example :
    (in_cksum little (send_v4 layout 56 4660 3 sent).0 ≡ 0)
    × (proc_v4 layout 4660 false
          (echoed layout 56 4660 3 sent sent-Stores (omega arith) header 1 2)
          84
          arrived
        ≡ reply 64 3 (some 64) (tv_sub arrived sent))
unfolding send_v4
send_v4-proc_v4_example =
    send_v4-proc_v4 layout 56 4660 3 sent sent-Stores (omega arith) header 0x45 64 1 2 refl refl
      refl refl (omega arith) (omega arith) false arrived (omega arith)

-- A short reply: its time is read out of what was in the buffer before.
short_reply : List ℕ → List ℕ
short_reply before = header ++ 0 ∷ 0 ∷ 1 ∷ 2 ∷ 0x34 ∷ 0x12 ∷ 3 ∷ 0 ∷ replicate 8 0 ++ before

short_differs :
    (proc_v4 layout 4660 false (short_reply (200 ∷ [])) 36 arrived
      ≡ reply 16 3 (some 64) (tv_sub arrived (record { tv_sec = pos 0; tv_usec = pos 200 })))
    × (proc_v4 layout 4660 false (short_reply (100 ∷ [])) 36 arrived
        ≡ reply 16 3 (some 64) (tv_sub arrived (record { tv_sec = pos 0; tv_usec = pos 100 })))
unfolding proc_v4 short_reply
short_differs = (refl, refl)

-- Another host's reply, and the hop limit of ICMPv6
not_ours : proc_v4 layout 1 true (short_reply []) 36 arrived ≡ silent
unfolding proc_v4 short_reply
not_ours = refl

hop_limit_found :
    hop_limit 52 (
      record { level = 41; type = 50; value = 2 }
      ∷ record { level = 41; type = 52; value = 61 }
      ∷ [])
    ≡ some 61
unfolding hop_limit
hop_limit_found = refl
