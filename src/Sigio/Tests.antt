-- ===== src/Sigio/Tests.antt =====
-- Runs of the signal-driven server, and the theorems at them.
use unix_network_programming.Prelude.{ℕ, ◌+◌, ◌*◌, ◌≡◌, refl, List, [], ◌∷◌, replicate, length, map}
use unix_network_programming.Sigio.{
  Datagram, would_block, Outcome, running, overflow, Event, sigio, go, start, run, step, sig_io,
  sig_io_loop, sig_io_stop, sig_io_end, store, tally, proceed, send,
}
use unix_network_programming.Sigio.Handler.{Handles, sig_io-Handles}
use unix_network_programming.Sigio.MainLoop.{Echoes, run-start-Echoes, start-IsQueue}

abbrev buffers : List (List ℕ × List ℕ)
buffers = replicate 8 (replicate 4 0, [])

abbrev datagram : ℕ → Datagram
datagram n = record { bytes = n ∷ n ∷ []; addr = 127 ∷ []; addrlen = 1 }

abbrev echoed_of : Outcome → List ℕ
echoed_of (running s) = map (λ d. length d.bytes + d.addrlen * 10) s.echoed
echoed_of overflow = 99 ∷ []
echoed_of _ = 98 ∷ []

-- Two signals, the second between Sendto() and `++iget`
abbrev busy : List Event
busy =
    sigio (datagram 1 ∷ datagram 2 ∷ []) would_block
    ∷ go
    ∷ go
    ∷ sigio (datagram 3 ∷ []) would_block
    ∷ go
    ∷ go
    ∷ go
    ∷ go
    ∷ []

two_sent : echoed_of (run (start buffers 16) busy) ≡ 12 ∷ 12 ∷ []
unfolding run start step sig_io sig_io_loop sig_io_stop sig_io_end store tally proceed send
two_sent = refl

-- Eight datagrams fill the queue, and the server quits.
eight_overflow :
    run (start buffers 16) (sigio (map datagram (replicate 8 5)) would_block ∷ []) ≡ overflow
unfolding run start step sig_io sig_io_loop sig_io_stop sig_io_end store tally proceed send
eight_overflow = refl

sig_io-Handles_example :
    Handles
      (start buffers 16)
      0
      (datagram 1 ∷ [])
      would_block
      (sig_io (start buffers 16) (datagram 1 ∷ []) would_block)
sig_io-Handles_example =
    sig_io-Handles (start buffers 16) (datagram 1 ∷ []) would_block (start-IsQueue buffers 16 refl)

run-start-Echoes_example : Echoes (run (start buffers 16) busy)
run-start-Echoes_example = run-start-Echoes busy buffers 16 refl
