-- ===== src/SelectServer/Tests.antt =====
-- Runs of the select() server on descriptors 3 (listening), 4 and 5.
use unix_network_programming.Prelude.{
  ℕ, ◌≡◌, refl, true, some, List, [], ◌∷◌, arith, ◌==◌, if◌then◌else◌, ltb,
}
use unix_network_programming.Prelude.FdSet.{At, first_free}
use unix_network_programming.SelectServer.{
  Action, accepted, echoed, closed, got, Round, Server, Outcome, running, new_client, serve,
  check_client, check_clients, step, run, start, admit,
}
use unix_network_programming.SelectServer.Table.{start-IsTable, admit-IsTable}
use unix_network_programming.SelectServer.Serve.{
  KeepsTable, run-start-KeepsTable, new_client-too_many,
}
use unix_network_programming.SelectServer.Every.{step_all, step-step_all}

abbrev connects : ℕ → Round
connects fd = record { nready = 1; ready = λ k. k == 3; accept = fd; read = λ k. got [] }

-- Bytes from 4 while 5 closes
abbrev both : Round
both = record {
  nready = 2;
  ready = λ k. true;
  accept = 9;
  read = λ k. if k == 4 then got (7 ∷ 8 ∷ []) else got [];
}

abbrev idle_listener : Round
idle_listener = record both { ready = λ k. ltb 3 k }

abbrev script : List Round
script = connects 4 ∷ connects 5 ∷ idle_listener ∷ []

abbrev log_of : Outcome → List Action
log_of (running s) = s.log
log_of _ = []

script_log :
    log_of (run 3 (start 3) script)
    ≡ accepted 0 4 ∷ accepted 1 5 ∷ echoed 4 (7 ∷ 8 ∷ []) ∷ closed 5 ∷ []
unfolding run step start new_client serve check_client check_clients first_free
script_log = refl

run-start-KeepsTable_example : KeepsTable 3 (run 3 (start 3) script)
unfolding run step start new_client serve check_client check_clients first_free
run-start-KeepsTable_example = run-start-KeepsTable 3 script (refl, (refl, (refl, tt)))

-- One client, 4, in entry 0
abbrev with_client : Server
with_client = admit (start 3) 4 0

step-step_all_example : step 3 both with_client ≡ step_all 3 both with_client
unfolding start first_free
step-step_all_example =
    step-step_all 3 both with_client (admit-IsTable 3 (start 3) (start-IsTable 3) 4 0 refl refl)
      refl (omega arith)

abbrev full_table : Server
full_table = record (start 3) { client = some 4 ∷ some 5 ∷ [] }

new_client-too_many_example : (fd : ℕ) × At full_table.client 1 fd
unfolding new_client start first_free
new_client-too_many_example = new_client-too_many 3 full_table 6 1 refl (omega arith)
