-- ===== src/Stream/Tests.antt =====
-- Runs of readn(), writen() and str_echo() over the scripted socket, and the theorems at them.
use unix_network_programming.Prelude.{◌≡◌, refl, [], ◌∷◌, arith}
use unix_network_programming.Stream.{
  done, finished, readn, writen, readn_loop, writen_loop, after_read, after_write, str_echo, or_die,
  after_echo_read,
}
use unix_network_programming.Stream.Exact.{Reads, Writes, readn-Reads, writen-Writes}
use unix_network_programming.Stream.Echo.{Echoes, str_echo-Echoes}
use unix_network_programming.Stream.Replay.{Script, packet, signal, replay, replay-IsStream}

abbrev two_packets : Script
two_packets = record {
  coming = signal ∷ packet 1 (2 ∷ 3 ∷ []) ∷ signal ∷ packet 4 (5 ∷ []) ∷ [];
  out = 9 ∷ [];
}

readn_run :
    readn replay 7 4 two_packets
    ≡ done (1 ∷ 2 ∷ 3 ∷ 4 ∷ []) (record { coming = packet 5 [] ∷ []; out = 9 ∷ [] })
unfolding readn readn_loop after_read
readn_run = refl

readn_short :
    readn replay 12 9 two_packets
    ≡ done (1 ∷ 2 ∷ 3 ∷ 4 ∷ 5 ∷ []) (record { coming = []; out = 9 ∷ [] })
unfolding readn readn_loop after_read
readn_short = refl

writen_run :
    writen replay 7 (6 ∷ 7 ∷ 8 ∷ []) two_packets
    ≡ done (6 ∷ 7 ∷ 8 ∷ []) (record {
      coming = packet 1 (2 ∷ 3 ∷ []) ∷ signal ∷ packet 4 (5 ∷ []) ∷ [];
      out = 9 ∷ 6 ∷ 7 ∷ 8 ∷ [];
    })
unfolding writen writen_loop after_write
writen_run = refl

str_echo_run :
    str_echo replay 9 9 two_packets
    ≡ finished (record { coming = []; out = 9 ∷ 1 ∷ 2 ∷ 3 ∷ 4 ∷ 5 ∷ [] })
unfolding str_echo after_echo_read or_die writen writen_loop after_write
str_echo_run = refl

readn-Reads_example : Reads replay-IsStream two_packets 4 (readn replay 7 4 two_packets)
readn-Reads_example = readn-Reads replay-IsStream 7 4 two_packets (omega arith) (omega arith)

writen-Writes_example :
    Writes replay-IsStream two_packets
      (6 ∷ 7 ∷ 8 ∷ [])
      (writen replay 7 (6 ∷ 7 ∷ 8 ∷ []) two_packets)
writen-Writes_example =
    writen-Writes replay-IsStream 7 (6 ∷ 7 ∷ 8 ∷ []) two_packets (omega arith) (omega arith)

str_echo-Echoes_example : Echoes replay-IsStream two_packets (str_echo replay 5000 9 two_packets)
str_echo-Echoes_example =
    str_echo-Echoes replay-IsStream 5000 9 two_packets (omega arith) (omega arith)
