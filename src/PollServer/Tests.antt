-- ===== src/PollServer/Tests.antt =====
-- Runs of the poll() server on descriptors 3 (listening), 4 and 5.
use unix_network_programming.Prelude.{
  ℕ, zero, suc, ◌≡◌, refl, Bool, true, false, ◌||◌, some, List, [], ◌∷◌, ◌==◌, if◌then◌else◌,
  get_elem?,
}
use unix_network_programming.Prelude.FdSet.{first_free}
use unix_network_programming.PollServer.{
  got, reset, Round, Action, accepted, echoed, closed, Outcome, running, new_client, serve,
  check_client, check_entry, check_clients, polled_step, step, run, start,
}
use unix_network_programming.PollServer.Turns.{AllTurns, start-AllTurns}

abbrev connects : ℕ → Round
connects fd = record {
  nready = 1;
  rdnorm = λ k. k == 3;
  err = λ k. false;
  accept = fd;
  read = λ k. reset;
}

-- Bytes from 4 while 5 is reset
abbrev both : Round
both = record {
  nready = 2;
  rdnorm = λ k. k == 4;
  err = λ k. k == 5;
  accept = 9;
  read = λ k. if k == 4 then got (7 ∷ 8 ∷ []) else reset;
}

abbrev clear_stack : List (Bool × Bool)
clear_stack = (false, false) ∷ (false, false) ∷ (false, false) ∷ []

abbrev log_of : Outcome → List Action
log_of (running s) = s.log
log_of _ = []

served :
    log_of (run (start 3 (true, true) clear_stack) (connects 4 ∷ connects 5 ∷ both ∷ []))
    ≡ accepted 1 4 ∷ accepted 2 5 ∷ echoed 4 (7 ∷ 8 ∷ []) ∷ closed 5 ∷ []
unfolding run start step polled_step new_client check_clients check_entry check_client serve
    first_free
served = refl

start-AllTurns_example :
    AllTurns (connects 4 ∷ connects 5 ∷ both ∷ []) (start 3 (true, true) clear_stack)
start-AllTurns_example =
    start-AllTurns (connects 4 ∷ connects 5 ∷ both ∷ []) 3 (true, true) clear_stack unset
  where
    unset : (i : ℕ) (b : Bool × Bool) → get_elem? clear_stack i ≡ some b → (b.0 || b.1) ≡ false
    unset zero b h = cc
    unset (suc zero) b h = cc
    unset (suc (suc zero)) b h = cc
    unset (suc (suc (suc i))) b h = cc
