-- ===== src/ChildPool/Tests.antt =====
-- A run of the pool with two children, and the theorem at it.
use unix_network_programming.Prelude.{ℕ, ◌≡◌, refl, true, false, none, some, List, [], ◌∷◌, ◌==◌}
use unix_network_programming.ChildPool.{
  Outcome, running, terminated, available, give, check_child, check_children, turn, finish, Event,
  turns, finishes, step, run, start,
}
use unix_network_programming.ChildPool.Busy.{KeepsPool}
use unix_network_programming.ChildPool.Turns.{run-start-KeepsPool}

abbrev comes : ℕ → Event
comes fd = turns (record { nsel = 1; conn = some fd; ready = λ i. true; dead = λ i. false })

abbrev told : Event
told = turns (record { nsel = 1; conn = none; ready = λ i. true; dead = λ i. false })

-- The third connection waits until the second child has served its own.
abbrev events : List Event
events = comes 7 ∷ comes 8 ∷ comes 9 ∷ finishes 1 ∷ told ∷ comes 9 ∷ []

abbrev given_of : Outcome → List (ℕ × ℕ)
given_of (running s) = s.given
given_of _ = []

three_given : given_of (run (start 2) events) ≡ (0, 7) ∷ (1, 8) ∷ (1, 9) ∷ []
unfolding run start step turn give available check_children check_child finish
three_given = refl

-- A child that has exited is found by the end of its empty pipe.
abbrev exits : Event
exits = turns (record { nsel = 1; conn = none; ready = λ i. true; dead = λ i. i == 1 })

exit_found : run (start 2) (comes 7 ∷ exits ∷ []) ≡ terminated
unfolding run start step turn give available check_children check_child
exit_found = refl

run-start-KeepsPool_example : KeepsPool 2 (run (start 2) events)
run-start-KeepsPool_example = run-start-KeepsPool 2 events
