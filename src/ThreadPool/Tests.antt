-- ===== src/ThreadPool/Tests.antt =====
-- Runs of the pool of threads, and the theorems at them.
use unix_network_programming.Prelude.{ℕ, ◌≡◌, refl, List, [], ◌∷◌, replicate, arith}
use unix_network_programming.ThreadPool.{
  Outcome, running, quit, Event, accepts, wakes, start, run, step, put, get, serve,
}
use unix_network_programming.ThreadPool.Fifo.{Puts, put-Puts}
use unix_network_programming.ThreadPool.Dispatch.{Deals, run-start-Deals, start-IsFifo}

abbrev taken_of : Outcome → List (ℕ × ℕ)
taken_of (running p) = p.taken
taken_of _ = []

abbrev history : List Event
history = wakes 0 ∷ accepts 7 ∷ accepts 9 ∷ wakes 1 ∷ wakes 0 ∷ wakes 1 ∷ []

in_order : taken_of (run (start 2) history) ≡ (1, 7) ∷ (0, 9) ∷ []
unfolding run start step put get serve
in_order = refl

-- The thirty-second connection that waits makes the server quit.
quits : run (start 1) (replicate 32 (accepts 5)) ≡ quit
unfolding run start step put get serve
quits = refl

put-Puts_example : Puts 2 (start-IsFifo 2).queue (put (start 2) 7)
put-Puts_example = put-Puts 2 (start 2) (start-IsFifo 2) 7

run-start-Deals_example : Deals (run (start 2) history)
run-start-Deals_example = run-start-Deals 2 history (omega arith)
