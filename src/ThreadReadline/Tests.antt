-- ===== src/ThreadReadline/Tests.antt =====
-- Two threads whose calls take turns, and the theorem at them.
use unix_network_programming.Prelude.{ℕ, ◌≡◌, refl, true, List, [], ◌∷◌, ◌==◌, if◌then◌else◌}
use unix_network_programming.Stream.Replay.{Script, packet, signal, replay, replay-IsStream}
use unix_network_programming.ThreadReadline.{
  new_rline, Answer, returned, Outcome, running, died, fault, Event, enter, go, next_char, refill,
  after_my_read, at_bound, begin, my_read, pass, enters, goes, step, run, start,
}
use unix_network_programming.ThreadReadline.Runs.{Serves, run-start-Serves}

-- Thread 0 has "a", newline, "b" to come after a signal, and the others "c" and a newline.
abbrev socks : ℕ → Script
socks t =
    if t == 0
    then record { coming = signal ∷ packet 97 (10 ∷ 98 ∷ []) ∷ []; out = [] }
    else record { coming = packet 99 (10 ∷ []) ∷ []; out = [] }

abbrev answers_of : ℕ → Outcome Script → List Answer
answers_of t (running p) = (p.threads t).answers
answers_of t died = []
answers_of t fault = []

-- Both are in a call at a time, and thread 0 calls again.
abbrev in_turn : List Event
in_turn =
    enter 0 9 true
    ∷ go 0
    ∷ enter 1 2 true
    ∷ go 0
    ∷ go 1
    ∷ go 0
    ∷ go 1
    ∷ enter 0 9 true
    ∷ go 0
    ∷ go 0
    ∷ []

answers_of-in_turn :
    (answers_of 0 (run replay in_turn (start (λ a. new_rline) socks))
      ≡ returned 9 2 (97 ∷ 10 ∷ 0 ∷ []) ∷ returned 9 1 (98 ∷ 0 ∷ []) ∷ [])
    × (answers_of 1 (run replay in_turn (start (λ a. new_rline) socks))
        ≡ returned 2 2 (99 ∷ 0 ∷ []) ∷ [])
unfolding run start step enters goes begin pass my_read at_bound after_my_read refill next_char
answers_of-in_turn = (refl, refl)

run-start-Serves_example :
    Serves replay-IsStream
      (λ t. replay-IsStream.pending (socks t))
      in_turn
      (run replay in_turn (start (λ a. new_rline) socks))
run-start-Serves_example = run-start-Serves replay-IsStream in_turn (λ a. new_rline) socks
